-- ===== src/Version/Levels/Window.antt =====
-- A search window over a sorted sequence loses nothing that the full scan would find.
use elysiumkv.Base.{
  ℕ, zero, suc, ◌-◌, Bool, true, false, not, ◌||◌, ◌≡◌, refl, ap, ◌∙◌, List, [], ◌∷◌, ltb,
  if◌then◌else◌, length, take, drop, any, All, arith, Bool-cases, inl, inr,
}
use elysiumkv.Slice.{key_lt}
use elysiumkv.Slice.Order.{key_lt_trans, key_lt_of_not_lt}
use elysiumkv.Version.Metadata.{FileMetadata}
use elysiumkv.Version.Levels.{leading, between, span_range, older_and_meets}

module _ {ℓ} {A : Type ℓ} where
  take_nil : (n : ℕ) → ◌≡◌ {A = List A} [] (take n [])
  take_nil zero = refl
  take_nil (suc n) = refl

  drop-take : (b e : ℕ) (xs : List A) → drop b (take e xs) ≡ take (e - b) (drop b xs)
  drop-take zero e xs = ap (λ n. take n xs) (omega arith)
  drop-take (suc b) zero [] = take_nil (0 - suc b)
  drop-take (suc b) zero (x ∷ xs) = let z : 0 - suc b ≡ 0 = omega arith in rw z refl
  drop-take (suc b) (suc e) [] = take_nil (suc e - suc b)
  drop-take (suc b) (suc e) (x ∷ xs) = drop-take b e xs ∙ ap (λ n. take n (drop b xs)) (omega arith)

  pub take_length : (xs : List A) → take (length xs) xs ≡ xs
  take_length [] = refl
  take_length (x ∷ xs) = ap (λ t. x ∷ t) (take_length xs)

module _ {ℓ} {A : Type ℓ} (below within p : A → Bool) where
  -- What the two tests promise of a sequence: nothing that passes `below` is wanted, and after the
  -- first element outside `within` nothing is.
  abbrev pub IsWindow : List A → Type ℓ
  IsWindow [] = Unit {ℓ}
  IsWindow (x ∷ xs) =
      (below x ≡ true → p x ≡ false)
      × (within x ≡ false → (p x ≡ false) × (any p xs ≡ false))
      × IsWindow xs

  any-take-leading : (xs : List A) → IsWindow xs → any p (take (leading within xs) xs) ≡ any p xs
  unfolding leading
  any-take-leading [] h = refl
  any-take-leading (x ∷ xs) (_, after, h) = elim (Bool-cases (within x)) [
    | inl e ↦ rw e (ap (λ b. p x || b) (any-take-leading xs h))
    | inr e ↦ rw e (ground (arith, after e))
  ]

  any-drop-leading :
      (xs : List A)
      → IsWindow xs
      → any p (drop (leading below xs) (take (leading within xs) xs)) ≡ any p xs
  unfolding leading
  any-drop-leading [] h = refl
  any-drop-leading (x ∷ xs) (before, after, h) = elim (Bool-cases (within x)) [
    | inl e ↦ rw e (elim (Bool-cases (below x)) [
      | inl d ↦ rw d (ground (arith, any-drop-leading xs h, before d))
      | inr d ↦ rw d (ap (λ b. p x || b) (any-take-leading xs h))
    ])
    | inr e ↦
        rw e (ground (arith, after e, drop_nil (if below x then suc (leading below xs) else 0)))
  ]
    where
      drop_nil : (n : ℕ) → any p (drop n []) ≡ false
      drop_nil zero = refl
      drop_nil (suc n) = refl

-- A sorted level: spans are not inverted, ascend, and do not overlap.
abbrev pub IsRun : List FileMetadata → Type 0
IsRun [] = Unit {0}
IsRun (x ∷ xs) =
    (key_lt x.largest_key x.smallest_key ≡ false)
    × All (λ y. ◌≡◌ {A = Bool} (key_lt x.largest_key y.smallest_key) true) xs
    × IsRun xs

module _ (f : FileMetadata) where
  beyond_every :
      (x : FileMetadata) (xs : List FileMetadata)
      → key_lt f.largest_key x.smallest_key ≡ true
      → key_lt x.largest_key x.smallest_key ≡ false
      → All (λ y. ◌≡◌ {A = Bool} (key_lt x.largest_key y.smallest_key) true) xs
      → any (older_and_meets f) xs ≡ false
  unfolding older_and_meets
  beyond_every x [] h n k = refl
  beyond_every x (y ∷ ys) h n (hy, k) = ground (
    arith,
    key_lt_of_not_lt x.smallest_key x.largest_key y.smallest_key,
    key_lt_trans f.largest_key x.smallest_key y.smallest_key,
    beyond_every x ys h n k,
  )

  IsRun-IsWindow :
      (xs : List FileMetadata)
      → IsRun xs
      → IsWindow
          (λ x. key_lt x.largest_key f.smallest_key)
          (λ x. not (key_lt f.largest_key x.smallest_key))
          (older_and_meets f)
          xs
  unfolding older_and_meets
  IsRun-IsWindow [] h = tt
  IsRun-IsWindow (x ∷ xs) (n, k, h) = (
    λ e. ground arith,
    λ e. (ground arith, beyond_every x xs (ground arith) n k),
    IsRun-IsWindow xs h,
  )

  -- In a sorted level the two binary searches find the files that the scan would.
  pub any-between-span_range :
      (xs : List FileMetadata)
      → IsRun xs
      → any (older_and_meets f) (between (span_range xs f.smallest_key f.largest_key) xs)
        ≡ any (older_and_meets f) xs
  unfolding span_range
  any-between-span_range xs h =
      at (leading (λ x. key_lt x.largest_key f.smallest_key) xs)
        (leading (λ x. not (key_lt f.largest_key x.smallest_key)) xs)
      ∙ any-drop-leading _ _ _ xs (IsRun-IsWindow xs h)
    where
      at :
          (b e : ℕ)
          → any (older_and_meets f) (between (if ltb e b then (b, b) else (b, e)) xs)
            ≡ any (older_and_meets f) (drop b (take e xs))
      at b e = elim (Bool-cases (ltb e b)) [
        | inl t ↦
            rw (t, drop-take b e xs)
              (ap (λ n. any (older_and_meets f) (take n (drop b xs))) (ground arith))
        | inr t ↦ rw (t, drop-take b e xs)
      ]
