-- ===== src/Sst/Bloom/Lit.antt =====
-- Which bits of a filter are on, and that setting bits turns none off.
use elysiumkv.Base.{
  ℕ, zero, suc, ◌+◌, ◌/◌, ◌%◌, ◌^◌, ◌≤◌, ◌<◌, ◌≡◌, refl, ap, ◌∙◌, true, [], ◌∷◌, ◌++◌, length,
  get_or, set, arith,
}
use elysiumkv.Base.Bits.{bit_on, bit_on-bit_or, bit_on-bit_or_pow, bit_on-nothing}
use elysiumkv.Slice.{Bytes}
use elysiumkv.Sst.Bloom.{block_bits, set_bit, set_probes, test_probes}

pub length-set : (xs : Bytes) (i v : ℕ) → length (set xs i v) ≡ length xs
length-set [] i v = refl
length-set (x ∷ xs) zero v = refl
length-set (x ∷ xs) (suc i) v = ap suc (length-set xs i v)

get_or-set : (xs : Bytes) (i v : ℕ) → i < length xs → get_or (set xs i v) i 0 ≡ v
get_or-set [] i v h = absurd (omega arith)
get_or-set (x ∷ xs) zero v h = refl
get_or-set (x ∷ xs) (suc i) v h = get_or-set xs i v (omega arith)

-- Every bit that is on in the one is on in the other.
abbrev pub Covers : Bytes → Bytes → Type 0
Covers xs ys = (j k : ℕ) → bit_on (get_or xs j 0) k ≡ true → bit_on (get_or ys j 0) k ≡ true

set-Covers :
    (xs : Bytes) (i v : ℕ)
    → ((k : ℕ) → bit_on (get_or xs i 0) k ≡ true → bit_on v k ≡ true)
    → Covers xs (set xs i v)
set-Covers [] i v more j k on = on
set-Covers (x ∷ xs) zero v more zero k on = more k on
set-Covers (x ∷ xs) zero v more (suc j) k on = on
set-Covers (x ∷ xs) (suc i) v more zero k on = on
set-Covers (x ∷ xs) (suc i) v more (suc j) k on = set-Covers xs i v more j k on

set_bit-Covers : (bits : Bytes) (base bit : ℕ) → Covers bits (set_bit bits base bit)
unfolding set_bit
set_bit-Covers bits base bit =
    set-Covers bits (base + bit / 8) _
      (λ k on. bit_on-bit_or k (get_or bits (base + bit / 8) 0) (2 ^ (bit % 8)) on)

length-set_bit : (bits : Bytes) (base bit : ℕ) → length (set_bit bits base bit) ≡ length bits
unfolding set_bit
length-set_bit bits base bit = length-set bits _ _

pub length-set_probes :
    (probes base h2 h : ℕ) (bits : Bytes) → length (set_probes probes base h2 h bits) ≡ length bits
unfolding set_probes
length-set_probes zero base h2 h bits = refl
length-set_probes (suc probes) base h2 h bits =
    length-set_probes probes base h2 _ _ ∙ length-set_bit bits base _

pub set_probes-Covers :
    (probes base h2 h : ℕ) (bits : Bytes) → Covers bits (set_probes probes base h2 h bits)
unfolding set_probes
set_probes-Covers zero base h2 h bits = λ j k on. on
set_probes-Covers (suc probes) base h2 h bits =
    λ j k on. set_probes-Covers probes base h2 _ _ j k (set_bit-Covers bits base _ j k on)

-- A test that passes on a filter passes on every filter that covers it.
pub test_probes-Covers :
    (probes base h2 h : ℕ) (xs ys : Bytes)
    → Covers xs ys
    → test_probes probes base h2 h xs ≡ true
    → test_probes probes base h2 h ys ≡ true
unfolding test_probes
test_probes-Covers zero base h2 h xs ys more passes = refl
test_probes-Covers (suc probes) base h2 h xs ys more passes = ground (
  arith,
  more (base + h % block_bits / 8) (h % block_bits % 8),
  test_probes-Covers probes base h2 ((h + h2) % 2 ^ 64) xs ys more,
)

bit_is_set :
    (bits : Bytes) (base bit : ℕ)
    → base + bit / 8 < length bits
    → bit_on (get_or (set_bit bits base bit) (base + bit / 8) 0) (bit % 8) ≡ true
unfolding set_bit
bit_is_set bits base bit within =
    ap (λ t. bit_on t (bit % 8)) (get_or-set bits (base + bit / 8) _ within)
    ∙ bit_on-bit_or_pow (bit % 8) (get_or bits (base + bit / 8) 0)

-- What was set is found.
pub test_probes-set_probes :
    (probes base h2 h : ℕ) (bits : Bytes)
    → base + 64 ≤ length bits
    → test_probes probes base h2 h (set_probes probes base h2 h bits) ≡ true
unfolding test_probes set_probes
test_probes-set_probes zero base h2 h bits within = refl
test_probes-set_probes (suc probes) base h2 h bits within = ground (
  arith,
  set_probes-Covers probes base h2 ((h + h2) % 2 ^ 64) (set_bit bits base (h % block_bits))
      (base + h % block_bits / 8) (h % block_bits % 8),
  bit_is_set bits base (h % block_bits),
  length-set_bit bits base (h % block_bits),
  test_probes-set_probes probes base h2 ((h + h2) % 2 ^ 64) (set_bit bits base (h % block_bits)),
)

-- Bytes that follow turn no bit off.
pub append-Covers : (xs ys : Bytes) → Covers xs (xs ++ ys)
append-Covers [] ys j k on = absurd (ground (arith, bit_on-nothing k))
append-Covers (x ∷ xs) ys zero k on = on
append-Covers (x ∷ xs) ys (suc j) k on = append-Covers xs ys j k on
