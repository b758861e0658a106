-- ===== src/Compact/Picker/Closure.antt =====
-- The overlapping files of a level are found within the fuel.
use elysiumkv.Base.{
  ℕ, zero, suc, ◌+◌, ◌<◌, ◌≤◌, Bool, true, false, ◌&&◌, List, [], ◌∷◌, some, ◌==◌, if◌then◌else◌,
  length, keep, All, All-keep, length-keep, ◌≡◌, refl, arith, Bool-cases, inl, inr, ap, sym, subst,
  Member, ==_iff,
}
use elysiumkv.Base.Membership.{keep-Member}
use elysiumkv.Slice.{Bytes, key_eq}
use elysiumkv.Slice.Order.{key_eq_iff}
use elysiumkv.Version.Metadata.{FileMetadata, effective_smallest, effective_largest}
use elysiumkv.Version.Levels.{Version, files_at, overlapping_inclusive, overlaps_inclusive}
use elysiumkv.Compact.Picker.{widen_lower, widen_upper, overlap_from, transitive_overlap}
use elysiumkv.Compact.Picker.Hull.{
  IsKeyed, Le, widen_lower_covers, widen_upper_covers, widen_lower_covers, widen_upper_covers,
  widen_lower_le, widen_lower_keyed, widen_upper_ge, overlaps_inclusive_wider,
}

module _ {ℓ} {A : Type ℓ} (p q : A → Bool) (implies : (x : A) → p x ≡ true → q x ≡ true) where
  length-keep_le : (xs : List A) → length (keep p xs) ≤ length (keep q xs)
  length-keep_le [] = omega arith
  length-keep_le (x ∷ xs) = ground (arith, length-keep_le xs, implies x)

  -- Two selections of a list, of which one holds the other, are equal where they are as long.
  keep_eq : (xs : List A) → length (keep q xs) ≡ length (keep p xs) → keep q xs ≡ keep p xs
  keep_eq [] = λ e. refl
  keep_eq (x ∷ xs) = at (p x) (q x) (implies x) (keep_eq xs) (length-keep_le xs)
    where
      at :
          (b c : Bool)
          → (b ≡ true → c ≡ true)
          → (length (keep q xs) ≡ length (keep p xs) → keep q xs ≡ keep p xs)
          → length (keep p xs) ≤ length (keep q xs)
          → length (if c then x ∷ keep q xs else keep q xs)
            ≡ length (if b then x ∷ keep p xs else keep p xs)
          → (if c then x ∷ keep q xs else keep q xs) ≡ (if b then x ∷ keep p xs else keep p xs)
      at true true h ih le e = ap (λ t. x ∷ t) (ih (omega arith))
      at true false h ih le e = absurd (ground (arith, h refl))
      at false true h ih le e = absurd (omega arith)
      at false false h ih le e = ih e

overlapping_grows :
    (v : Version) (level : ℕ) (lower upper outer_lower outer_upper : Bytes)
    → Le outer_lower lower
    → Le upper outer_upper
    → length (overlapping_inclusive v level lower upper)
      ≤ length (overlapping_inclusive v level outer_lower outer_upper)
unfolding overlapping_inclusive
overlapping_grows v level lower upper outer_lower outer_upper hl hu =
    length-keep_le (overlaps_inclusive lower upper) (overlaps_inclusive outer_lower outer_upper)
      (λ g. overlaps_inclusive_wider lower upper outer_lower outer_upper g hl hu) (files_at v level)

-- As many files in the wider span are the same files.
overlapping_same :
    (v : Version) (level : ℕ) (lower upper outer_lower outer_upper : Bytes)
    → Le outer_lower lower
    → Le upper outer_upper
    → length (overlapping_inclusive v level outer_lower outer_upper)
      ≡ length (overlapping_inclusive v level lower upper)
    → overlapping_inclusive v level outer_lower outer_upper
      ≡ overlapping_inclusive v level lower upper
unfolding overlapping_inclusive
overlapping_same v level lower upper outer_lower outer_upper hl hu =
    keep_eq (overlaps_inclusive lower upper) (overlaps_inclusive outer_lower outer_upper)
      (λ g. overlaps_inclusive_wider lower upper outer_lower outer_upper g hl hu) (files_at v level)

overlapping-IsKeyed :
    (v : Version) (level : ℕ) (lower upper : Bytes)
    → All IsKeyed (files_at v level)
    → All IsKeyed (overlapping_inclusive v level lower upper)
unfolding overlapping_inclusive
overlapping-IsKeyed v level lower upper k =
    All-keep IsKeyed (overlaps_inclusive lower upper) (files_at v level) k

overlapping_le :
    (v : Version) (level : ℕ) (lower upper : Bytes)
    → length (overlapping_inclusive v level lower upper) ≤ length (files_at v level)
unfolding overlapping_inclusive
overlapping_le v level lower upper = length-keep (overlaps_inclusive lower upper) (files_at v level)

nil_of_length : (xs : List FileMetadata) → length xs ≡ 0 → xs ≡ []
nil_of_length [] e = refl
nil_of_length (x ∷ xs) e = absurd (omega arith)

-- All files of the level that meet the bounds, which lie within the bounds.
record IsClosed (v : Version) (level : ℕ) (lower upper : Bytes) (found : List FileMetadata)
    : Type 0 where
  all_found : found ≡ overlapping_inclusive v level lower upper
  starts : (f : FileMetadata) → Member f found → Le lower (effective_smallest f)
  ends : (f : FileMetadata) → Member f found → Le (effective_largest f) upper

IsClosed-same :
    (v : Version) (level : ℕ) (lower upper : Bytes) (selected : List FileMetadata)
    → overlapping_inclusive v level lower upper ≡ selected
    → ((f : FileMetadata) → Member f selected → Le lower (effective_smallest f))
    → ((f : FileMetadata) → Member f selected → Le (effective_largest f) upper)
    → IsClosed v level lower upper (overlapping_inclusive v level lower upper)
IsClosed-same v level lower upper selected e starts ends = record {
  all_found = refl;
  starts = λ f m. starts f (subst (λ s. Member f s) e m);
  ends = λ f m. ends f (subst (λ s. Member f s) e m);
}

IsClosed-at_bounds :
    (v : Version) (level : ℕ) (lower upper outer_lower outer_upper : Bytes)
    → (key_eq outer_lower lower && key_eq outer_upper upper) ≡ true
    → ((f : FileMetadata)
        → Member f (overlapping_inclusive v level lower upper)
        → Le outer_lower (effective_smallest f))
    → ((f : FileMetadata)
        → Member f (overlapping_inclusive v level lower upper)
        → Le (effective_largest f) outer_upper)
    → IsClosed v level lower upper (overlapping_inclusive v level lower upper)
IsClosed-at_bounds v level lower upper outer_lower outer_upper s starts ends = record {
  all_found = refl;
  starts = λ f m.
      subst (λ l. Le l (effective_smallest f)) ((key_eq_iff outer_lower lower).0 (ground arith))
        (starts f m);
  ends = λ f m.
      subst (λ u. Le (effective_largest f) u) ((key_eq_iff outer_upper upper).0 (ground arith))
        (ends f m);
}

fuel_left : (n fuel a b : ℕ) → a ≤ b → (b == a) ≡ false → n < suc fuel + a → n < fuel + b
fuel_left n fuel a b le e lt = ground arith

-- A loop that has fuel for each file to come ends, and its result is closed.
overlap_from-IsClosed :
    (fuel : ℕ) (v : Version) (level : ℕ) (lower upper : Bytes) (selected : List FileMetadata)
    → All IsKeyed (files_at v level)
    → (length lower == 0) ≡ false
    → length selected ≤ length (overlapping_inclusive v level lower upper)
    → (length (overlapping_inclusive v level lower upper) ≡ length selected
        → overlapping_inclusive v level lower upper ≡ selected)
    → ((f : FileMetadata) → Member f selected → Le lower (effective_smallest f))
    → ((f : FileMetadata) → Member f selected → Le (effective_largest f) upper)
    → length (files_at v level) < fuel + length selected
    → (found : List FileMetadata) × ((overlap_from fuel v level lower upper selected ≡ some found)
        × ((l : Bytes) × ((u : Bytes) × IsClosed v level l u found)))
unfolding overlap_from
overlap_from-IsClosed zero v level lower upper selected k h le same starts ends lt =
    absurd (omega (arith, overlapping_le v level lower upper))
overlap_from-IsClosed (suc fuel) v level lower upper selected k h le same starts ends lt =
    let found = overlapping_inclusive v level lower upper in
    let outer_lower = widen_lower lower found in
    let outer_upper = widen_upper upper found in
    let keyed = overlapping-IsKeyed v level lower upper k in
    let covers_low =
      λ (f : FileMetadata) (m : Member f found). widen_lower_covers lower found keyed m in
    let covers_high = λ (f : FileMetadata) (m : Member f found). widen_upper_covers upper found m in
    elim (Bool-cases (length found == length selected)) [
      | inl e ↦ (
        found,
        (
          rw e refl,
          (
            lower,
            (
              upper,
              IsClosed-same v level lower upper selected (same ((==_iff _ _).0 e)) starts ends,
            ),
          ),
        ),
      )
      | inr e ↦ elim (Bool-cases (key_eq outer_lower lower && key_eq outer_upper upper)) [
        | inl s ↦ (
          found,
          (
            rw e (rw s refl),
            (
              lower,
              (
                upper,
                IsClosed-at_bounds v level lower upper outer_lower outer_upper s covers_low
                    covers_high,
              ),
            ),
          ),
        )
        | inr s ↦
            let (result, (r, closed)) =
              overlap_from-IsClosed fuel v level outer_lower outer_upper found k
                (widen_lower_keyed lower found keyed h)
                (overlapping_grows v level lower upper outer_lower outer_upper
                  (widen_lower_le lower found keyed h) (widen_upper_ge upper found))
                (overlapping_same v level lower upper outer_lower outer_upper
                  (widen_lower_le lower found keyed h) (widen_upper_ge upper found))
                covers_low covers_high
                (fuel_left (length (files_at v level)) fuel (length selected) (length found) le e
                  lt) in
            (result, (rw e (rw s r), closed))
      ]
    ]

closed_Member :
    (v : Version) (level : ℕ) (l u : Bytes) (found : List FileMetadata) (f g : FileMetadata)
    → IsClosed v level l u found
    → Member f found
    → Member g (files_at v level)
    → overlaps_inclusive (effective_smallest f) (effective_largest f) g ≡ true
    → Member g found
unfolding overlapping_inclusive
closed_Member v level l u found f g closed m n h =
    subst (λ s. Member g s) (sym closed.all_found)
      (keep-Member (overlaps_inclusive l u) (files_at v level)
        (overlaps_inclusive_wider (effective_smallest f) (effective_largest f) l u g
          (closed.starts f m) (closed.ends f m) h)
        n)

-- With a file of the list, each file of the level that its effective span meets is in the list.
abbrev pub IsTransitive : Version → ℕ → List FileMetadata → Type 0
IsTransitive v level found =
    (f g : FileMetadata)
    → Member f found
    → Member g (files_at v level)
    → overlaps_inclusive (effective_smallest f) (effective_largest f) g ≡ true
    → Member g found

-- When no file of the level has an effective span that begins at the empty key, and neither does
-- the span asked for, `transitive_overlap` ends, and with each file of its result the result has
-- every file of the level that meets that file's effective span.
pub transitive_overlap_closed :
    (v : Version) (level : ℕ) (lower upper : Bytes)
    → All IsKeyed (files_at v level)
    → (length lower == 0) ≡ false
    → (found : List FileMetadata) × ((transitive_overlap v level lower upper ≡ some found)
        × IsTransitive v level found)
unfolding transitive_overlap
transitive_overlap_closed v level lower upper k h =
    let (found, (r, (l, (u, closed)))) =
      overlap_from-IsClosed (suc (length (files_at v level))) v level lower upper [] k h
        (omega arith) (λ e. nil_of_length (overlapping_inclusive v level lower upper) e)
        (λ f m. elim m [ ]) (λ f m. elim m [ ]) (omega arith) in
    (found, (r, λ f g. closed_Member v level l u found f g closed))
