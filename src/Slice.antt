-- ===== src/Slice.antt =====
-- include/elysiumkv/slice.hpp: byte strings, their order, prefixes and the upper bound of a prefix.
-- A `Slice` and a `std::string` are the list of their bytes; both compare as unsigned bytes.
pub mod Order
pub mod Prefix
mod Examples
use elysiumkv.Base.{
  ℕ, zero, suc, ◌+◌, ◌%◌, ◌<◌, Bool, true, false, ◌&&◌, ◌||◌, List, [], ◌∷◌, length, get_or, set,
  take, ltb, ◌==◌, if◌then◌else◌, compare, Ordering, All, leb,
}

abbrev pub Bytes : Type 0
Bytes = List ℕ

abbrev pub IsByte : ℕ → Type 0
IsByte b = b < 256

abbrev pub AreBytes : Bytes → Type 0
AreBytes = All IsByte

-- The C library's `memcmp`, as the sign of its result. The callers pass no `n` above a length.
unfoldable pub memcmp : ℕ → Bytes → Bytes → Ordering
memcmp zero a b = Ordering.eq
memcmp (suc n) [] b = Ordering.eq
memcmp (suc n) (x ∷ a) [] = Ordering.eq
memcmp (suc n) (x ∷ a) (y ∷ b) =
    let rest = memcmp n a b in
    elim (compare x y) [
      | Ordering.lt ↦ Ordering.lt
      | Ordering.eq ↦ rest
      | Ordering.gt ↦ Ordering.gt
    ]

unfoldable pub shorter : ℕ → ℕ → ℕ
shorter m n = if ltb m n then m else n

-- `if (n != 0)` guards the call of `memcmp`.
unfoldable pub sign_of_common : ℕ → Bytes → Bytes → Ordering
sign_of_common n a b = if n == 0 then Ordering.eq else memcmp n a b

-- A difference found by `memcmp` decides, and otherwise the sizes.
unfoldable pub then_sizes : Ordering → ℕ → ℕ → Ordering
then_sizes Ordering.lt m n = Ordering.lt
then_sizes Ordering.eq m n = compare m n
then_sizes Ordering.gt m n = Ordering.gt

-- `operator<=>`.
unfoldable pub three_way : Bytes → Bytes → Ordering
unfolding shorter sign_of_common then_sizes
three_way a b =
    then_sizes (sign_of_common (shorter (length a) (length b)) a b) (length a) (length b)

unfoldable pub key_lt : Bytes → Bytes → Bool
key_lt a b = elim (three_way a b) [ Ordering.lt ↦ true | _ ↦ false ]

unfoldable pub key_gt : Bytes → Bytes → Bool
key_gt a b = elim (three_way a b) [ Ordering.gt ↦ true | _ ↦ false ]

unfoldable pub key_le : Bytes → Bytes → Bool
key_le a b = elim (three_way a b) [ Ordering.gt ↦ false | _ ↦ true ]

is_zero : Ordering → Bool
is_zero Ordering.lt = false
is_zero Ordering.eq = true
is_zero Ordering.gt = false

unfoldable pub key_eq : Bytes → Bytes → Bool
unfolding memcmp is_zero
key_eq a b = length a == length b && (length a == 0 || is_zero (memcmp (length a) a b))

unfoldable pub starts_with : Bytes → Bytes → Bool
unfolding memcmp is_zero
starts_with key prefix =
    leb (length prefix) (length key) && is_zero (memcmp (length prefix) key prefix)

-- The loop from the last byte down; the returned flag goes with what it leaves in `out`.
upper_bound_loop : ℕ → Bytes → Bool × Bytes
upper_bound_loop zero out = (false, [])
upper_bound_loop (suc i) out =
    let c = get_or out i 0 in
    let below = upper_bound_loop i out in
    if c == 0xff then below else (true, take (suc i) (set out i ((c + 1) % 256)))

unfoldable pub prefix_upper_bound : Bytes → Bool × Bytes
unfolding upper_bound_loop
prefix_upper_bound prefix = upper_bound_loop (length prefix) prefix
