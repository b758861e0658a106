-- ===== src/Base/Bits.antt =====
-- Facts about bitwise operations at variables, from the digit recursion that the native ones
-- stand for.
use native.Mathlib.Omega.{arith}
use native.Mathlib.Nat.{pow-suc}
use mathlib.Core.Path.{◌≡◌, ap, refl, sym, ◌∙◌}
use mathlib.Core.Bool.{Bool, true, false, not}
use elysiumkv.Base.Tests.{◌==◌}
use Prim.Native.Nat.{
  ℕ, ◌<◌, ◌≤◌, ◌^◌, ◌+◌, ◌*◌, ◌/◌, ◌%◌, zero, suc, digits, bitwise, differ, min, max, bit_and,
  bit_and-bitwise, bit_or, bit_or-bitwise, bit_xor, bit_xor-bitwise,
}

module _ (z : ℕ → ℕ) (f : ℕ → ℕ → ℕ) where
  -- More rounds than the left operand asks for change nothing.
  enough_rounds :
      (limit rounds x y : ℕ)
      → rounds ≤ limit
      → x ≤ rounds
      → digits z f rounds x y ≡ digits z f x x y
  enough_rounds limit zero zero y l r = refl
  enough_rounds limit (suc rounds) zero y l r = refl
  enough_rounds limit zero (suc x) y l r = absurd (omega arith)
  enough_rounds zero (suc rounds) (suc x) y l r = absurd (omega arith)
  enough_rounds (suc limit) (suc rounds) (suc x) y l r =
      let half : ℕ = suc x / 2 in
      omega (
        arith,
        enough_rounds limit rounds half (y / 2) (omega arith) (omega arith),
        enough_rounds limit x half (y / 2) (omega arith) (omega arith),
      )

  -- The operation on the halves, and on the last bits.
  bitwise-halves :
      ((y : ℕ) → z y ≡ z (y / 2) * 2 + f 0 (y % 2))
      → (x y : ℕ) → bitwise z f x y ≡ bitwise z f (x / 2) (y / 2) * 2 + f (x % 2) (y % 2)
  bitwise-halves base zero y = base y
  bitwise-halves base (suc x) y =
      omega (arith, enough_rounds x x (suc x / 2) (y / 2) (omega arith) (omega arith))

bit_and-halves : (x y : ℕ) → bit_and x y ≡ bit_and (x / 2) (y / 2) * 2 + min (x % 2) (y % 2)
bit_and-halves x y = omega (
  arith,
  bitwise-halves (λ b. zero) min (λ t. omega arith) x y,
  bit_and-bitwise x y,
  bit_and-bitwise (x / 2) (y / 2),
)

bit_or-halves : (x y : ℕ) → bit_or x y ≡ bit_or (x / 2) (y / 2) * 2 + max (x % 2) (y % 2)
bit_or-halves x y = omega (
  arith,
  bitwise-halves (λ b. b) max (λ t. omega arith) x y,
  bit_or-bitwise x y,
  bit_or-bitwise (x / 2) (y / 2),
)

-- No bit is shared with nothing.
digits-min-zero : (rounds x : ℕ) → digits (λ b. zero) min rounds x 0 ≡ 0
digits-min-zero zero x = refl
digits-min-zero (suc rounds) zero = refl
digits-min-zero (suc rounds) (suc x) = omega (arith, digits-min-zero rounds (suc x / 2))

bit_and-zero : (x : ℕ) → bit_and x 0 ≡ 0
bit_and-zero x = omega (arith, digits-min-zero x x, bit_and-bitwise x 0)

halve_fields : (k q : ℕ) → q * 2 ^ suc k / 2 ≡ q * 2 ^ k
halve_fields k q = omega (arith, pow-suc 2 k, ap (λ (t : ℕ). q * t) (pow-suc 2 k))

-- Bits below position `k` joined with bits from `k` on: `|` is `+`.
pub bit_or_fields : (k q r : ℕ) → r < 2 ^ k → bit_or r (q * 2 ^ k) ≡ r + q * 2 ^ k
bit_or_fields zero q zero h = omega (arith, bit_or-bitwise 0 (q * 2 ^ 0))
bit_or_fields zero q (suc r) h = absurd (omega arith)
bit_or_fields (suc k) q r h = ground (
  arith,
  bit_or-halves r (q * 2 ^ suc k),
  pow-suc 2 k,
  ap (λ (t : ℕ). q * t) (pow-suc 2 k),
  halve_fields k q,
  bit_or_fields k q (r / 2) (omega (arith, pow-suc 2 k)),
)

pub bit_and-one : (x : ℕ) → bit_and x 1 ≡ x % 2
bit_and-one x = omega (bit_and-zero (x / 2), bit_and-halves x 1, arith)

pub bit_and_two : (a : ℕ) → bit_and a 2 ≡ a / 2 % 2 * 2
bit_and_two a = omega (arith, bit_and-halves a 2, bit_and-one (a / 2))

-- The low seven bits, and the eighth, of a number of any width.
pub bit_and_low_seven : (a : ℕ) → bit_and a 0x7f ≡ a % 128
bit_and_low_seven a = omega (
  arith,
  bit_and-halves a 127,
  bit_and-halves (a / 2) 63,
  bit_and-halves (a / 2 / 2) 31,
  bit_and-halves (a / 2 / 2 / 2) 15,
  bit_and-halves (a / 2 / 2 / 2 / 2) 7,
  bit_and-halves (a / 2 / 2 / 2 / 2 / 2) 3,
  bit_and-one (a / 2 / 2 / 2 / 2 / 2 / 2),
)

pub bit_and_top : (a : ℕ) → bit_and a 0x80 ≡ a / 128 % 2 * 128
bit_and_top a = omega (
  arith,
  bit_and-halves a 128,
  bit_and-halves (a / 2) 64,
  bit_and-halves (a / 2 / 2) 32,
  bit_and-halves (a / 2 / 2 / 2) 16,
  bit_and-halves (a / 2 / 2 / 2 / 2) 8,
  bit_and-halves (a / 2 / 2 / 2 / 2 / 2) 4,
  bit_and_two (a / 2 / 2 / 2 / 2 / 2 / 2),
)

pub bit_or_top : (a : ℕ) → a < 128 → bit_or a 0x80 ≡ a + 128
bit_or_top a h = bit_or_fields 7 1 a h

differ-le_one : (x y : ℕ) → x ≤ 1 → y ≤ 1 → differ x y ≤ 1
differ-le_one zero y p q = q
differ-le_one (suc x) zero p q = p
differ-le_one (suc x) (suc y) p q = differ-le_one x y (omega arith) (omega arith)

xor_digits-lt : (n k a b : ℕ) → a < 2 ^ k → b < 2 ^ k → digits (λ b. b) differ n a b < 2 ^ k
xor_digits-lt zero k a b p q = q
xor_digits-lt (suc n) k zero b p q = q
xor_digits-lt (suc n) zero (suc a) b p q = absurd (omega arith)
xor_digits-lt (suc n) (suc k) (suc a) b p q = omega (
  arith,
  pow-suc 2 k,
  differ-le_one (suc a % 2) (b % 2) (omega arith) (omega arith),
  xor_digits-lt n k (suc a / 2) (b / 2) (omega (arith, pow-suc 2 k)) (omega (arith, pow-suc 2 k)),
)

-- `^` stays within the width of its operands.
pub bit_xor-lt : (k a b : ℕ) → a < 2 ^ k → b < 2 ^ k → bit_xor a b < 2 ^ k
bit_xor-lt k a b p q = omega (arith, bit_xor-bitwise a b, xor_digits-lt a k a b p q)

bit_or-half : (x y : ℕ) → bit_or x y / 2 ≡ bit_or (x / 2) (y / 2)
bit_or-half x y = omega (arith, bit_or-halves x y)

-- The bit of a number at a position.
abbrev pub bit_on : ℕ → ℕ → Bool
bit_on x k = not (bit_and x (2 ^ k) == 0)

bit_on-suc : (x k : ℕ) → bit_on x (suc k) ≡ bit_on (x / 2) k
bit_on-suc x k =
    let half : 2 ^ suc k / 2 ≡ 2 ^ k = omega (arith, pow-suc 2 k) in
    ground
      (arith, bit_and-halves x (2 ^ suc k), pow-suc 2 k, ap (λ (t : ℕ). bit_and (x / 2) t) half)

bit_on-zero : (x : ℕ) → bit_on x 0 ≡ (x % 2 == 1)
bit_on-zero x = ground (arith, bit_and-one x)

-- `|` keeps the bits that are on,
pub bit_on-bit_or : (k x y : ℕ) → bit_on x k ≡ true → bit_on (bit_or x y) k ≡ true
bit_on-bit_or zero x y h =
    ground (arith, bit_and-one x, bit_and-one (bit_or x y), bit_or-halves x y)
bit_on-bit_or (suc k) x y h =
    bit_on-suc (bit_or x y) k
    ∙ ap (λ t. bit_on t k) (bit_or-half x y)
    ∙ bit_on-bit_or k (x / 2) (y / 2) (sym (bit_on-suc x k) ∙ h)

-- and puts on the bit it is asked to.
pub bit_on-bit_or_pow : (k x : ℕ) → bit_on (bit_or x (2 ^ k)) k ≡ true
bit_on-bit_or_pow zero x = ground (arith, bit_and-one (bit_or x 1), bit_or-halves x 1)
bit_on-bit_or_pow (suc k) x =
    bit_on-suc (bit_or x (2 ^ suc k)) k
    ∙ ap (λ t. bit_on t k) (bit_or-half x (2 ^ suc k))
    ∙ ap (λ t. bit_on (bit_or (x / 2) t) k) (omega (arith, pow-suc 2 k))
    ∙ bit_on-bit_or_pow k (x / 2)

pub bit_on-nothing : (k : ℕ) → bit_on 0 k ≡ false
bit_on-nothing k = ground (arith, bit_and-bitwise 0 (2 ^ k))
