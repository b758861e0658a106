-- ===== src/Compact/Picker/Bottom.antt =====
-- A compaction that is bottommost has no file under what it writes.
use elysiumkv.Base.{
  ℕ, zero, suc, ◌+◌, ◌-◌, ◌<◌, ◌≤◌, Bool, true, false, List, [], ◌∷◌, some, length, ◌≡◌, subst,
  Member, arith, All, keep, Bool-cases, inl, inr,
}
use elysiumkv.Base.Membership.{keep-Member}
use elysiumkv.Slice.{Bytes}
use elysiumkv.Version.Metadata.{FileMetadata, effective_smallest, effective_largest}
use elysiumkv.Version.Levels.{Version, files_at, overlapping_inclusive, overlaps_inclusive}
use elysiumkv.Db.LevelConfig.{ResolvedLevel}
use elysiumkv.Compact.Picker.{widen_lower, widen_upper}
use elysiumkv.Compact.Picker.Hull.{
  IsKeyed, widen_lower_covers, widen_upper_covers, overlaps_inclusive_wider,
}
use elysiumkv.Compact.Picker.Plan.{
  Compaction, all_inputs, effective_hull, no_files, bottommost_from, is_bottommost_for_range,
  settle, with_inputs, compaction_at, expand,
}
use elysiumkv.Compact.Picker.Picked.{picked}

none_kept :
    (p : FileMetadata → Bool) (files : List FileMetadata) (g : FileMetadata)
    → no_files (keep p files) ≡ true
    → Member g files
    → p g ≡ false
unfolding no_files
none_kept p files g e m = elim (Bool-cases (p g)) [
  | inl h ↦ absurd (no_member (keep p files) e (keep-Member p files h m))
  | inr h ↦ h
]
  where
    no_member : (xs : List FileMetadata) → no_files xs ≡ true → ¬ (Member g xs)
    no_member [] e m = elim m [ ]
    no_member (x ∷ xs) e m = absurd (ground arith)

bottommost_from_clear :
    (n : ℕ) (v : Version) (level : ℕ) (lower upper : Bytes)
    → bottommost_from n v level lower upper ≡ true
    → (k : ℕ) (g : FileMetadata) → k < n
    → Member g (files_at v (level + k))
    → overlaps_inclusive lower upper g ≡ false
unfolding bottommost_from overlapping_inclusive
bottommost_from_clear zero v level lower upper e k g lt m = absurd (omega arith)
bottommost_from_clear (suc n) v level lower upper e zero g lt m =
    none_kept (overlaps_inclusive lower upper) (files_at v level) g (ground arith)
      (subst (λ i. Member g (files_at v i)) (plus_zero level) m)
  where
    plus_zero : (i : ℕ) → i + 0 ≡ i
    plus_zero i = omega arith
bottommost_from_clear (suc n) v level lower upper e (suc k) g lt m =
    bottommost_from_clear n v (suc level) lower upper (ground arith) k g (omega arith)
      (subst (λ i. Member g (files_at v i)) (plus_suc level k) m)
  where
    plus_suc : (i j : ℕ) → i + suc j ≡ suc i + j
    plus_suc i j = omega arith

bottommost_clear :
    (v : Version) (output last : ℕ) (lower upper : Bytes) (level : ℕ) (g : FileMetadata)
    → is_bottommost_for_range v output last lower upper ≡ true
    → output < level
    → level ≤ last
    → Member g (files_at v level)
    → overlaps_inclusive lower upper g ≡ false
unfolding is_bottommost_for_range
bottommost_clear v output last lower upper level g e lo hi m =
    bottommost_from_clear (last - output) v (suc output) lower upper e (level - suc output) g
      (omega arith) (subst (λ i. Member g (files_at v i)) (omega arith) m)

settled_clear :
    (v : Version) (last : ℕ) (target : ResolvedLevel) (c : Compaction)
    → All IsKeyed (all_inputs c)
    → (settle v last target c).output_is_bottommost ≡ true
    → (f g : FileMetadata) (level : ℕ) → Member f (all_inputs c)
    → c.output_level < level
    → level ≤ last
    → Member g (files_at v level)
    → overlaps_inclusive (effective_smallest f) (effective_largest f) g ≡ false
unfolding settle effective_hull
settled_clear v last target c k b f g level m lo hi n =
    let files = all_inputs c in
    let lower = widen_lower [] files in
    let upper = widen_upper [] files in
    let clear = bottommost_clear v c.output_level last lower upper level g b lo hi n in
    elim (Bool-cases (overlaps_inclusive (effective_smallest f) (effective_largest f) g)) [
      | inl h ↦
          let wide =
            overlaps_inclusive_wider (effective_smallest f) (effective_largest f) lower upper g
              (widen_lower_covers [] files k m) (widen_upper_covers [] files m) h in
          absurd (ground arith)
      | inr h ↦ h
    ]

from_settled :
    (v : Version) (levels : List ResolvedLevel) (chosen : ℕ) (target : ResolvedLevel)
    (inputs overlaps : List FileMetadata) (trimmed : Bool)
    → let c = settle v (length levels - 1) target (with_inputs chosen inputs overlaps trimmed) in
      All IsKeyed (all_inputs c)
      → c.output_is_bottommost ≡ true
      → (f g : FileMetadata) (level : ℕ) → Member f (all_inputs c)
      → suc chosen < level
      → level ≤ length levels - 1
      → Member g (files_at v level)
      → overlaps_inclusive (effective_smallest f) (effective_largest f) g ≡ false
unfolding settle with_inputs all_inputs
from_settled v levels chosen target inputs overlaps trimmed =
    settled_clear v (length levels - 1) target (with_inputs chosen inputs overlaps trimmed)

-- Take a compaction that is picked and calls its output bottommost, none of whose inputs and
-- overlaps has an effective span that begins at the empty key. No file of a level below the output
-- level, down to the last one, meets the effective span of any of them.
pub compaction_at_bottommost :
    (v : Version) (levels : List ResolvedLevel) (budget chosen : ℕ) (c : Compaction)
    → compaction_at v levels budget chosen ≡ some c
    → All IsKeyed (all_inputs c)
    → c.output_is_bottommost ≡ true
    → (f g : FileMetadata) (level : ℕ) → Member f (all_inputs c)
    → suc chosen < level
    → level ≤ length levels - 1
    → Member g (files_at v level)
    → overlaps_inclusive (effective_smallest f) (effective_largest f) g ≡ false
compaction_at_bottommost v levels budget chosen c e =
    let p = picked v levels budget chosen c e in
    subst
      (λ (x : Compaction).
        All IsKeyed (all_inputs x)
        → x.output_is_bottommost ≡ true
        → (f g : FileMetadata) (level : ℕ) → Member f (all_inputs x)
        → suc chosen < level
        → level ≤ length levels - 1
        → Member g (files_at v level)
        → overlaps_inclusive (effective_smallest f) (effective_largest f) g ≡ false)
      p.is
      (from_settled v levels chosen p.target (expand v chosen p.source budget p.inputs p.overlaps)
        p.overlaps p.trimmed)
