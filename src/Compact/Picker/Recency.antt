-- ===== src/Compact/Picker/Recency.antt =====
-- A file that stays behind at an overlapping level is newer than the inputs it meets.
use elysiumkv.Base.{
  ℕ, ◌-◌, ◌<◌, Bool, true, false, ◌||◌, List, Option, some, length, ◌≡◌, refl, sym, ap, ◌∙◌, subst,
  get_elem?, if◌then◌else◌, leb, ◌==◌, Member, arith, All, All-Member, any, keep,
}
use elysiumkv.Base.Membership.{Member-keep}
use elysiumkv.Version.Metadata.{FileMetadata, effective_smallest, effective_largest}
use elysiumkv.Version.Levels.{Version, files_at, overlaps_inclusive}
use elysiumkv.Db.LevelConfig.{ResolvedLevel}
use elysiumkv.Compact.Picker.{is_overlapping_level, trim_to_budget, bytes_in, oldest_kept, contains}
use elysiumkv.Compact.Picker.Hull.{IsKeyed}
use elysiumkv.Compact.Picker.Closure.{IsTransitive, transitive_overlap_closed}
use elysiumkv.Compact.Picker.Trim.{trim_to_budget_oldest}
use elysiumkv.Compact.Picker.Plan.{
  Compaction, seed_of, inputs_of, expand, settle, with_inputs, compaction_at,
}
use elysiumkv.Compact.Picker.Picked.{picked, oldest_seed-Member}

trim_to_budget-Member :
    (inputs : List FileMetadata) (budget : ℕ) {f : FileMetadata}
    → Member f (trim_to_budget inputs budget).0
    → Member f inputs
unfolding trim_to_budget
trim_to_budget-Member inputs budget {f} = at (budget == 0 || leb (bytes_in inputs) budget)
  where
    kept : FileMetadata → Bool
    kept k = contains (oldest_kept inputs budget) k.file_number

    at :
        (b : Bool)
        → Member f
            (if◌then◌else◌ {A = List FileMetadata × Bool} b
              (inputs, false)
              (keep kept inputs, true)).0
        → Member f inputs
    at true m = m
    at false m = (Member-keep kept inputs m).1

-- At an overlapping level the inputs are not expanded.
expand_overlapping :
    (v : Version) (chosen : ℕ) (source : ResolvedLevel) (budget : ℕ)
    (inputs overlaps : List FileMetadata)
    → is_overlapping_level chosen source ≡ true
    → expand v chosen source budget inputs overlaps ≡ inputs
unfolding expand
expand_overlapping v chosen source budget inputs overlaps h = ground (arith, h)

abbrev IsInputs : Version → ℕ → ℕ → List FileMetadata → Type 0
IsInputs v chosen budget inputs =
    (found : List FileMetadata) × (((trim_to_budget found budget).0 ≡ inputs)
      × IsTransitive v chosen found)

pair_inj :
    (a b : List FileMetadata × Bool)
    → ◌≡◌ {A = Option (List FileMetadata × Bool)} (some a) (some b)
    → a.0 ≡ b.0
pair_inj a b e = cc

-- The inputs at an overlapping level are what trimming leaves of the closure.
inputs_of-IsInputs :
    (v : Version) (chosen : ℕ) (source : ResolvedLevel) (budget : ℕ) (seed : FileMetadata)
    (inputs : List FileMetadata) (trimmed : Bool)
    → is_overlapping_level chosen source ≡ true
    → All IsKeyed (files_at v chosen)
    → seed_of v chosen source ≡ some seed
    → inputs_of v chosen source budget seed ≡ some (inputs, trimmed)
    → IsInputs v chosen budget inputs
unfolding seed_of inputs_of
inputs_of-IsInputs v chosen source budget seed inputs trimmed h k es ei =
    let run = rw h at ei in
    let member = oldest_seed-Member (files_at v chosen) seed (rw h at es) in
    let (found, (r, closed)) =
      transitive_overlap_closed v chosen (effective_smallest seed) (effective_largest seed) k
        (All-Member IsKeyed member k) in
    (found, (pair_inj _ _ ((rw r at run)), closed))

some_level_inj : (a b : ResolvedLevel) → some a ≡ some b → a ≡ b
some_level_inj a b e = cc

newer_left :
    (v : Version) (chosen budget : ℕ) (inputs : List FileMetadata)
    → IsInputs v chosen budget inputs
    → (f g : FileMetadata) → Member f inputs
    → Member g (files_at v chosen)
    → overlaps_inclusive (effective_smallest f) (effective_largest f) g ≡ true
    → any (λ k. k.file_number == g.file_number) inputs ≡ false
    → f.file_number < g.file_number
newer_left v chosen budget inputs (found, (e, closed)) f g m n o left =
    let kept = subst (λ s. Member f s) (sym e) m in
    let behind = subst (λ s. any (λ k. k.file_number == g.file_number) s ≡ false) (sym e) left in
    trim_to_budget_oldest found budget kept
      (closed f g (trim_to_budget-Member found budget kept) n o) behind

settle_inputs :
    (v : Version) (last : ℕ) (target : ResolvedLevel) (c : Compaction)
    → (settle v last target c).inputs ≡ c.inputs
unfolding settle
settle_inputs v last target c = refl

-- Take a compaction that is picked at an overlapping level, none of whose files has an effective
-- span that begins at the empty key. A file of the level that meets the effective span of an input
-- and has no input's number has a larger number than that input.
pub compaction_at_left :
    (v : Version) (levels : List ResolvedLevel) (budget chosen : ℕ) (source : ResolvedLevel)
    (c : Compaction)
    → compaction_at v levels budget chosen ≡ some c
    → get_elem? levels chosen ≡ some source
    → is_overlapping_level chosen source ≡ true
    → All IsKeyed (files_at v chosen)
    → (f g : FileMetadata) → Member f c.inputs
    → Member g (files_at v chosen)
    → overlaps_inclusive (effective_smallest f) (effective_largest f) g ≡ true
    → any (λ k. k.file_number == g.file_number) c.inputs ≡ false
    → f.file_number < g.file_number
unfolding with_inputs
compaction_at_left v levels budget chosen source c e es h k =
    let p = picked v levels budget chosen c e in
    let same = some_level_inj p.source source (sym p.source_at ∙ es) in
    let over = (rw (sym same) at h) in
    let inputs_are =
      sym (expand_overlapping v chosen p.source budget p.inputs p.overlaps over)
      ∙ (sym (
            settle_inputs v (length levels - 1) p.target (
              with_inputs chosen (expand v chosen p.source budget p.inputs p.overlaps) p.overlaps
                p.trimmed))
          ∙ ap (λ (x : Compaction). x.inputs) p.is) in
    newer_left v chosen budget c.inputs (
      subst (λ s. IsInputs v chosen budget s) inputs_are
        (inputs_of-IsInputs v chosen p.source budget p.seed p.inputs p.trimmed over k p.seed_at
          p.inputs_at))
