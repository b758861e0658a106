-- ===== src/Base/Membership.antt =====
-- Membership with its place, and the lists that keep it.
use mathlib.Core.Path.{◌≡◌, refl}
use mathlib.Core.Logic.{◌⊎◌, inl, inr}
use mathlib.Core.Bool.{Bool, true, false}
use mathlib.Core.List.{List, [], ◌∷◌, ◌++◌}
use native.Mathlib.Omega.{arith}
use elysiumkv.Base.Tests.{if◌then◌else◌}
use elysiumkv.Base.Lists.{keep, any, Member, here, there}

module _ {ℓ} {A : Type ℓ} (p : A → Bool) where
  pub Member-keep : {a : A} (xs : List A) → Member a (keep p xs) → (p a ≡ true) × Member a xs
  Member-keep [] m = elim m [ ]
  Member-keep (x ∷ xs) m = at (p x) refl m (Member-keep xs)
    where
      at :
          {a : A} (b : Bool)
          → p x ≡ b
          → Member a (if b then x ∷ keep p xs else keep p xs)
          → (Member a (keep p xs) → (p a ≡ true) × Member a xs)
          → (p a ≡ true) × Member a (x ∷ xs)
      at true e here ih = (e, here)
      at true e (there m) ih = let (h, n) = ih m in (h, there n)
      at false e m ih = let (h, n) = ih m in (h, there n)

  pub keep-Member : {a : A} (xs : List A) → p a ≡ true → Member a xs → Member a (keep p xs)
  keep-Member {a} [] h m = elim m [ ]
  keep-Member {a} (x ∷ xs) h here = rw h here
  keep-Member {a} (x ∷ xs) h (there m) =
      elim (p x) as (λ b. Member a (if b then x ∷ keep p xs else keep p xs)) [
        | true ↦ there (keep-Member xs h m)
        | false ↦ keep-Member xs h m
      ]

  pub none_of_any : {a : A} (xs : List A) → any p xs ≡ false → Member a xs → p a ≡ false
  none_of_any [] h m = elim m [ ]
  none_of_any (x ∷ xs) h here = ground arith
  none_of_any (x ∷ xs) h (there m) = none_of_any xs (ground arith) m

  pub any_of_Member : {a : A} (xs : List A) → Member a xs → p a ≡ true → any p xs ≡ true
  any_of_Member [] m h = elim m [ ]
  any_of_Member (x ∷ xs) here h = ground arith
  any_of_Member (x ∷ xs) (there m) h = ground (arith, any_of_Member xs m h)

module _ {ℓ} {A : Type ℓ} where
  pub Member-append : {a : A} (xs ys : List A) → Member a (xs ++ ys) → Member a xs ⊎ Member a ys
  Member-append [] ys m = inr m
  Member-append (x ∷ xs) ys here = inl here
  Member-append (x ∷ xs) ys (there m) = elim (Member-append xs ys m) [
    | inl n ↦ inl (there n)
    | inr n ↦ inr n
  ]

  pub Member-single : {a x : A} → Member a (x ∷ []) → a ≡ x
  Member-single here = refl
  Member-single (there m) = elim m [ ]
