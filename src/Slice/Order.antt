-- ===== src/Slice/Order.antt =====
-- The order of byte strings is the lexicographic one, a strict linear order.
use elysiumkv.Base.{
  ℕ, zero, suc, ◌≡◌, refl, ap, ◌↔◌, true, false, not, [], ◌∷◌, length, compare, Ordering, arith,
  ◌∙◌,
}
use elysiumkv.Slice.{
  Bytes, memcmp, shorter, sign_of_common, then_sizes, three_way, key_lt, key_gt, key_le, key_eq,
}

-- The lexicographic order, by recursion on both strings.
abbrev pub lex : Bytes → Bytes → Ordering
lex [] [] = Ordering.eq
lex [] (y ∷ b) = Ordering.lt
lex (x ∷ a) [] = Ordering.gt
lex (x ∷ a) (y ∷ b) =
    let rest = lex a b in
    elim (compare x y) [
      | Ordering.lt ↦ Ordering.lt
      | Ordering.eq ↦ rest
      | Ordering.gt ↦ Ordering.gt
    ]

shorter-suc : (m n : ℕ) → shorter (suc m) (suc n) ≡ suc (shorter m n)
unfolding shorter
shorter-suc m n = ground arith

then_sizes-suc : (o : Ordering) (m n : ℕ) → then_sizes o (suc m) (suc n) ≡ then_sizes o m n
unfolding then_sizes
then_sizes-suc Ordering.lt m n = refl
then_sizes-suc Ordering.eq m n = ground arith
then_sizes-suc Ordering.gt m n = refl

sign_of_common-memcmp : (n : ℕ) (a b : Bytes) → sign_of_common n a b ≡ memcmp n a b
unfolding sign_of_common memcmp
sign_of_common-memcmp zero a b = refl
sign_of_common-memcmp (suc n) a b = ground arith

then_sizes-memcmp :
    (x y : ℕ) (n : ℕ) (a b : Bytes) (m k : ℕ)
    → then_sizes (memcmp (suc n) (x ∷ a) (y ∷ b)) m k ≡ elim (compare x y) [
      | Ordering.lt ↦ Ordering.lt
      | Ordering.eq ↦ then_sizes (memcmp n a b) m k
      | Ordering.gt ↦ Ordering.gt
    ]
unfolding then_sizes memcmp
then_sizes-memcmp x y n a b m k = ground arith

lex_step :
    (a b : Bytes)
    → then_sizes (memcmp (shorter (length a) (length b)) a b) (length a) (length b) ≡ lex a b
lex_step [] [] = unfold shorter memcmp then_sizes in refl
lex_step [] (y ∷ b) = unfold shorter memcmp then_sizes in ground arith
lex_step (x ∷ a) [] = unfold shorter memcmp then_sizes in ground arith
lex_step (x ∷ a) (y ∷ b) = rw (shorter-suc (length a) (length b)) (
    rw then_sizes-memcmp (
      ground (
        arith,
        then_sizes-suc (memcmp (shorter (length a) (length b)) a b) (length a) (length b),
        lex_step a b,
      )))

three_way_lem :
    (a b : Bytes)
    → three_way a b
      ≡ then_sizes (sign_of_common (shorter (length a) (length b)) a b) (length a) (length b)
unfolding three_way
three_way_lem a b = refl

-- The comparison of slices is the lexicographic order of their bytes.
pub three_way-lex : (a b : Bytes) → three_way a b ≡ lex a b
three_way-lex a b =
    three_way_lem a b
    ∙ ap (λ o. then_sizes o (length a) (length b)) (sign_of_common-memcmp _ a b)
    ∙ lex_step a b

lex_refl : (a : Bytes) → lex a a ≡ Ordering.eq
lex_refl [] = refl
lex_refl (x ∷ a) = ground (arith, lex_refl a)

lex_eq : (a b : Bytes) → lex a b ≡ Ordering.eq → a ≡ b
lex_eq [] [] h = refl
lex_eq [] (y ∷ b) h = ground arith
lex_eq (x ∷ a) [] h = ground arith
lex_eq (x ∷ a) (y ∷ b) h = ground (arith, lex_eq a b)

lex_flip : (a b : Bytes) → lex a b ≡ Ordering.gt → lex b a ≡ Ordering.lt
lex_flip [] [] h = ground arith
lex_flip [] (y ∷ b) h = ground arith
lex_flip (x ∷ a) [] h = refl
lex_flip (x ∷ a) (y ∷ b) h = ground (arith, lex_flip a b)

lex_trans : (a b c : Bytes) → lex a b ≡ Ordering.lt → lex b c ≡ Ordering.lt → lex a c ≡ Ordering.lt
lex_trans [] [] c h k = ground arith
lex_trans [] (y ∷ b) [] h k = ground arith
lex_trans [] (y ∷ b) (z ∷ c) h k = refl
lex_trans (x ∷ a) [] c h k = ground arith
lex_trans (x ∷ a) (y ∷ b) [] h k = ground arith
lex_trans (x ∷ a) (y ∷ b) (z ∷ c) h k = ground (arith, lex_trans a b c)

module _ (a : Bytes) where
  pub key_lt_irrefl : key_lt a a ≡ false
  unfolding key_lt
  key_lt_irrefl = ground (arith, three_way-lex a a, lex_refl a)

memcmp_self : (a : Bytes) → memcmp (length a) a a ≡ Ordering.eq
unfolding memcmp
memcmp_self [] = refl
memcmp_self (x ∷ a) = ground (arith, memcmp_self a)

memcmp_eq : (a b : Bytes) → length a ≡ length b → memcmp (length a) a b ≡ Ordering.eq → a ≡ b
unfolding memcmp
memcmp_eq [] [] l h = refl
memcmp_eq [] (y ∷ b) l h = absurd (omega arith)
memcmp_eq (x ∷ a) [] l h = absurd (omega arith)
memcmp_eq (x ∷ a) (y ∷ b) l h = ground (arith, memcmp_eq a b)

module _ (a b : Bytes) where
  pub key_lt_asym : key_lt a b ≡ true → key_lt b a ≡ false
  unfolding key_lt
  key_lt_asym h = ground (arith, three_way-lex a b, three_way-lex b a, lex_trans a b a, lex_refl a)

  pub key_lt_tri : key_lt a b ≡ false → key_lt b a ≡ false → a ≡ b
  unfolding key_lt
  key_lt_tri h k = ground (arith, three_way-lex a b, three_way-lex b a, lex_flip a b, lex_eq a b)

  pub key_le-not : key_le a b ≡ not (key_lt b a)
  unfolding key_le key_lt
  key_le-not = ground (
    arith,
    three_way-lex a b,
    three_way-lex b a,
    lex_flip a b,
    lex_flip b a,
    lex_eq a b,
    lex_refl b,
    lex_refl a,
    lex_eq b a,
    lex_trans a b a,
  )

  pub key_gt-key_lt : key_gt a b ≡ key_lt b a
  unfolding key_gt key_lt
  key_gt-key_lt = ground (
    arith,
    three_way-lex a b,
    three_way-lex b a,
    lex_flip a b,
    lex_eq a b,
    ap (λ t. lex b t),
    lex_refl b,
    lex_trans a b a,
    lex_refl a,
    lex_flip a b,
  )

  -- Equality by size and `memcmp` is equality of the strings.
  pub key_eq_iff : (key_eq a b ≡ true) ↔ (a ≡ b)
  unfolding key_eq
  key_eq_iff = (
    λ h. ground (arith, memcmp_eq a b, eq_of_empty a b),
    λ e. ground (arith, memcmp_self a, ap (λ t. memcmp (length a) a t) e, ap length e),
  )
    where
      eq_of_empty : (x y : Bytes) → length x ≡ length y → length x ≡ 0 → x ≡ y
      eq_of_empty [] [] p q = refl
      eq_of_empty [] (y ∷ ys) p q = absurd (omega arith)
      eq_of_empty (x ∷ xs) y p q = absurd (omega arith)

pub key_lt_trans : (a b c : Bytes) → key_lt a b ≡ true → key_lt b c ≡ true → key_lt a c ≡ true
unfolding key_lt
key_lt_trans a b c h k =
    ground (arith, three_way-lex a b, three_way-lex b c, three_way-lex a c, lex_trans a b c)

-- `a < c` and not `b < c` give `a < b`.
pub key_lt_of_lt_not : (a b c : Bytes) → key_lt a c ≡ true → key_lt b c ≡ false → key_lt a b ≡ true
key_lt_of_lt_not a b c h k =
    ground (arith, key_lt_trans b a c, key_lt_tri a b, ap (λ t. key_lt t c))

-- Not `b < a` and `b < c` give `a < c`.
pub key_lt_of_not_lt : (a b c : Bytes) → key_lt b a ≡ false → key_lt b c ≡ true → key_lt a c ≡ true
key_lt_of_not_lt a b c h k = ground (arith, key_lt_trans b c a, key_lt_tri a c)

-- The empty string is below every other.
pub nil-key_lt : (x : ℕ) (a : Bytes) → key_lt [] (x ∷ a) ≡ true
unfolding key_lt
nil-key_lt x a = ground (arith, three_way-lex [] (x ∷ a))

pub key_lt-nil : (a : Bytes) → key_lt a [] ≡ false
unfolding key_lt
key_lt-nil [] = ground (arith, three_way-lex [] [])
key_lt-nil (x ∷ a) = ground (arith, three_way-lex (x ∷ a) [])
