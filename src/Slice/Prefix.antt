-- ===== src/Slice/Prefix.antt =====
-- The keys that start with a prefix are an interval of the order.
use elysiumkv.Base.{
  ℕ, zero, suc, ◌+◌, ◌%◌, ◌≡◌, refl, ap, ◌<◌, Bool, true, false, not, ◌&&◌, ◌||◌, [], ◌∷◌, length,
  ◌==◌, if◌then◌else◌, Ordering, arith, ◌∙◌, sym,
}
use elysiumkv.Slice.{
  Bytes, AreBytes, memcmp, key_lt, key_le, is_zero, starts_with, upper_bound_loop,
  prefix_upper_bound,
}
use elysiumkv.Slice.Order.{lex, three_way-lex}

-- The same bound by recursion from the front.
abbrev upper_cons : ℕ → Bool × Bytes → Bool × Bytes
upper_cons c (true, u) = (true, c ∷ u)
upper_cons c (false, u) = if c == 0xff then (false, []) else (true, ((c + 1) % 256) ∷ [])

abbrev upper : Bytes → Bool × Bytes
upper [] = (false, [])
upper (c ∷ p) = upper_cons c (upper p)

upper_bound_loop-cons :
    (i c : ℕ) (out : Bytes)
    → upper_bound_loop (suc i) (c ∷ out) ≡ upper_cons c (upper_bound_loop i out)
unfolding upper_bound_loop
upper_bound_loop-cons zero c out = refl
upper_bound_loop-cons (suc i) c out = ground (arith, upper_bound_loop-cons i c out)

prefix_upper_bound-upper : (p : Bytes) → prefix_upper_bound p ≡ upper p
unfolding prefix_upper_bound
prefix_upper_bound-upper [] = unfold upper_bound_loop in refl
prefix_upper_bound-upper (c ∷ p) =
    upper_bound_loop-cons (length p) c p ∙ ap (upper_cons c) (prefix_upper_bound-upper p)

abbrev is_prefix : Bytes → Bytes → Bool
is_prefix [] k = true
is_prefix (c ∷ p) [] = false
is_prefix (c ∷ p) (x ∷ k) = c == x && is_prefix p k

starts_with-is_prefix : (k p : Bytes) → starts_with k p ≡ is_prefix p k
unfolding starts_with memcmp is_zero
starts_with-is_prefix [] [] = refl
starts_with-is_prefix (x ∷ k) [] = ground arith
starts_with-is_prefix [] (c ∷ p) = ground arith
starts_with-is_prefix (x ∷ k) (c ∷ p) = ground (arith, starts_with-is_prefix k p)

abbrev below : Bytes → Bytes → Bool
below a b = elim (lex a b) [ Ordering.lt ↦ true | _ ↦ false ]

abbrev not_above : Bytes → Bytes → Bool
not_above a b = elim (lex a b) [ Ordering.gt ↦ false | _ ↦ true ]

-- Which keys lie at or above the prefix, and below the bound if there is one.
abbrev inside : Bytes → Bool × Bytes → Bytes → Bool
inside p (true, u) k = not_above p k && below k u
inside p (false, u) k = not_above p k

inside-cons :
    (c x : ℕ) (p k : Bytes) (r : Bool × Bytes)
    → c < 256
    → x < 256
    → inside (c ∷ p) (upper_cons c r) (x ∷ k) ≡ (c == x && inside p r k)
inside-cons c x p k (true, u) hc hx = ground arith
inside-cons c x p [] (false, u) hc hx = ground arith
inside-cons c x p (y ∷ k) (false, u) hc hx = ground arith

inside-cons_nil : (c : ℕ) (p : Bytes) (r : Bool × Bytes) → inside (c ∷ p) r [] ≡ false
inside-cons_nil c p (true, u) = refl
inside-cons_nil c p (false, u) = refl

is_prefix-inside : (p k : Bytes) → AreBytes p → AreBytes k → is_prefix p k ≡ inside p (upper p) k
is_prefix-inside [] [] hp hk = refl
is_prefix-inside [] (x ∷ k) hp hk = refl
is_prefix-inside (c ∷ p) [] hp hk = sym (inside-cons_nil c p (upper (c ∷ p)))
is_prefix-inside (c ∷ p) (x ∷ k) (hc, hp) (hx, hk) =
    ap (λ b. c == x && b) (is_prefix-inside p k hp hk) ∙ sym (inside-cons c x p k (upper p) hc hx)

key_lt-below : (a b : Bytes) → key_lt a b ≡ below a b
unfolding key_lt
key_lt-below a b = ground (arith, three_way-lex a b)

key_le-not_above : (a b : Bytes) → key_le a b ≡ not_above a b
unfolding key_le
key_le-not_above a b = ground (arith, three_way-lex a b)

-- Membership in the interval that a scan of the prefix uses: from the prefix up to the bound, or to
-- the end where there is none.
unfoldable pub in_bounds : Bytes → Bool × Bytes → Bytes → Bool
in_bounds lower (bounded, upper) key = key_le lower key && (not bounded || key_lt key upper)

in_bounds-inside : (p k : Bytes) (r : Bool × Bytes) → in_bounds p r k ≡ inside p r k
unfolding in_bounds
in_bounds-inside p k (true, u) = ground (arith, key_lt-below k u, key_le-not_above p k)
in_bounds-inside p k (false, u) = ground (arith, key_le-not_above p k)

-- For byte strings, a key starts with the prefix exactly when it is at or above the prefix and,
-- where `prefix_upper_bound` reports a bound, below that bound. Where it reports none (the prefix
-- is empty or all 0xFF) being at or above the prefix is enough.
pub starts_with-in_bounds :
    (prefix key : Bytes)
    → AreBytes prefix
    → AreBytes key
    → starts_with key prefix ≡ in_bounds prefix (prefix_upper_bound prefix) key
starts_with-in_bounds prefix key hp hk =
    starts_with-is_prefix key prefix
    ∙ is_prefix-inside prefix key hp hk
    ∙ ap (λ r. inside prefix r key) (sym (prefix_upper_bound-upper prefix))
    ∙ sym (in_bounds-inside prefix key (prefix_upper_bound prefix))
