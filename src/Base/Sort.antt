-- ===== src/Base/Sort.antt =====
-- `std::sort` under a strict weak order, as insertion sort. Where the order leaves elements
-- equivalent, `std::sort` may choose their order, and this one keeps it.
use mathlib.Core.Path.{◌≡◌, refl, ap, ◌∙◌}
use mathlib.Core.Bool.{Bool, true, false, ◌||◌}
use mathlib.Core.List.{List, [], ◌∷◌}
use native.Mathlib.Omega.{arith}
use elysiumkv.Base.Tests.{if◌then◌else◌}
use elysiumkv.Base.Lists.{All, any}

module _ {ℓ} {A : Type ℓ} (lt : A → A → Bool) where
  unfoldable pub insert_by : A → List A → List A
  insert_by x [] = x ∷ []
  insert_by x (y ∷ ys) = if lt y x then y ∷ insert_by x ys else x ∷ y ∷ ys

  unfoldable pub sort_by : List A → List A
  unfolding insert_by
  sort_by [] = []
  sort_by (x ∷ xs) = insert_by x (sort_by xs)

  -- No later element is below an earlier one.
  abbrev pub Sorted : List A → Type ℓ
  Sorted [] = Unit {ℓ}
  Sorted (x ∷ xs) = All (λ y. ◌≡◌ {A = Bool} (lt y x) false) xs × Sorted xs

  any-insert_by : (p : A → Bool) (x : A) (xs : List A) → any p (insert_by x xs) ≡ (p x || any p xs)
  unfolding insert_by
  any-insert_by p x [] = refl
  any-insert_by p x (y ∷ ys) = ground (arith, any-insert_by p x ys)

  -- Sorting keeps which elements there are.
  pub any-sort_by : (p : A → Bool) (xs : List A) → any p (sort_by xs) ≡ any p xs
  unfolding sort_by
  any-sort_by p [] = refl
  any-sort_by p (x ∷ xs) = any-insert_by p x (sort_by xs) ∙ ap (λ b. p x || b) (any-sort_by p xs)

  pub All-insert_by {κ} :
      (P : A → Type κ) (x : A) (xs : List A) → P x → All P xs → All P (insert_by x xs)
  unfolding insert_by
  All-insert_by P x [] hx h = (hx, tt)
  All-insert_by P x (y ∷ ys) hx (hy, h) =
      elim (lt y x) as (λ b. All P (if b then y ∷ insert_by x ys else x ∷ y ∷ ys)) [
        | true ↦ (hy, All-insert_by P x ys hx h)
        | false ↦ (hx, (hy, h))
      ]

  pub All-sort_by {κ} : (P : A → Type κ) (xs : List A) → All P xs → All P (sort_by xs)
  unfolding sort_by
  All-sort_by P [] h = h
  All-sort_by P (x ∷ xs) (hx, h) = All-insert_by P x (sort_by xs) hx (All-sort_by P xs h)

-- A strict weak order: what `std::sort` asks of its comparison.
pub record IsStrictWeak {ℓ} {A : Type ℓ} (lt : A → A → Bool) : Type ℓ where
  pub asym : (a b : A) → lt a b ≡ true → lt b a ≡ false
  pub co_trans : (a b c : A) → lt b a ≡ false → lt c b ≡ false → lt c a ≡ false

module _ {ℓ} {A : Type ℓ} (lt : A → A → Bool) (order : IsStrictWeak lt) where
  All-le_trans :
      (x y : A) (ys : List A)
      → lt y x ≡ false
      → All (λ z. ◌≡◌ {A = Bool} (lt z y) false) ys
      → All (λ z. ◌≡◌ {A = Bool} (lt z x) false) ys
  All-le_trans x y [] h k = tt
  All-le_trans x y (z ∷ ys) h (hz, k) = (order.co_trans x y z h hz, All-le_trans x y ys h k)

  insert_by-Sorted : (x : A) (xs : List A) → Sorted lt xs → Sorted lt (insert_by lt x xs)
  unfolding insert_by
  insert_by-Sorted x [] h = (tt, tt)
  insert_by-Sorted x (y ∷ ys) (hy, h) = at (lt y x) refl (insert_by-Sorted x ys h)
    where
      at :
          (b : Bool)
          → lt y x ≡ b
          → Sorted lt (insert_by lt x ys)
          → Sorted lt (if b then y ∷ insert_by lt x ys else x ∷ y ∷ ys)
      at true e ih = (All-insert_by lt _ x ys (order.asym y x e) hy, ih)
      at false e ih = ((e, All-le_trans x y ys e hy), (hy, h))

  pub sort_by-Sorted : (xs : List A) → Sorted lt (sort_by lt xs)
  unfolding sort_by
  sort_by-Sorted [] = tt
  sort_by-Sorted (x ∷ xs) = insert_by-Sorted x (sort_by lt xs) (sort_by-Sorted xs)
