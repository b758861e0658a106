-- ===== src/Sst/Format/Varint.antt =====
-- What the variable-length integers encode, and that decoding reads it back.
use native.Mathlib.Numerals.{towards_suc}
use mathlib.Core.WellFounded.{Acc}
use native.Mathlib.Nat.{div-add-mod}
use elysiumkv.Base.{
  ◌≡◌, ap, ℕ, ◌<◌, ◌≤◌, ◌^◌, ◌*◌, ◌+◌, ◌/◌, ◌%◌, zero, suc, [], ◌∷◌, ◌++◌, some, ltb, if◌then◌else◌,
  bit_or, arith, append_assoc,
}
use elysiumkv.Base.Bits.{bit_or_fields, bit_and_low_seven, bit_and_top, bit_or_top}
use elysiumkv.Base.Order.{lt_wf}
use elysiumkv.Slice.{Bytes}
use elysiumkv.Sst.Format.{
  put_varint_loop, put_varint32, put_varint64, get_varint_loop, get_varint32, get_varint64,
}

-- The groups of seven bits of `v`, lowest first, for `v` below 128 ^ (k + 1).
unfoldable pub groups : ℕ → ℕ → Bytes
groups zero v = v ∷ []
groups (suc k) v =
    let rest = groups k (v / 128) in if ltb 0x7f v then (v % 128 + 128) ∷ rest else v ∷ []

put_varint_loop-groups :
    (k : ℕ) (dst : Bytes) (v : ℕ) (w : Acc ◌<◌ v)
    → v < 128 ^ suc k
    → put_varint_loop dst v w ≡ dst ++ groups k v
unfolding put_varint_loop groups
put_varint_loop-groups zero dst v (Acc.intro _ smaller) h = ground arith
put_varint_loop-groups (suc k) dst v (Acc.intro _ smaller) h =
    let head : Bytes = (v % 128 + 128) ∷ [] in
    grind (
      arith,
      bit_and_low_seven v,
      bit_or_top (v % 128),
      λ (w : Acc ◌<◌ (v / 128)). put_varint_loop-groups k (dst ++ head) (v / 128) w (omega arith),
      append_assoc dst head (groups k (v / 128)),
    )

pub put_varint64-groups :
    (dst : Bytes) (v : ℕ) → v < 2 ^ 64 → put_varint64 dst v ≡ dst ++ groups 9 v
unfolding put_varint64
put_varint64-groups dst v h = put_varint_loop-groups 9 dst v (lt_wf.apply v) (omega arith)

pub put_varint32-groups :
    (dst : Bytes) (v : ℕ) → v < 2 ^ 32 → put_varint32 dst v ≡ dst ++ groups 4 v
unfolding put_varint32
put_varint32-groups dst v h = put_varint_loop-groups 4 dst v (lt_wf.apply v) (omega arith)

next_weight : (s : ℕ) → 2 ^ s * 128 ≡ 2 ^ (s + 7)
next_weight s = simp towards_suc (omega arith)

-- The weight of a number at a shift, from its lowest group and the rest of it.
weight_split : (v s : ℕ) → v % 128 * 2 ^ s + v / 128 * 2 ^ (s + 7) ≡ v * 2 ^ s
weight_split v s =
    let weigh : ℕ → ℕ = λ n. n * 2 ^ s in
    let rest : ℕ → ℕ = λ n. v / 128 * n in
    omega (ap weigh (div-add-mod v 128), ap rest (next_weight s), arith)

-- A group that fits the word is added by `|`, and leaves the result below the next shift.
or_group :
    (width g shift result : ℕ)
    → result < 2 ^ shift
    → result + g * 2 ^ shift < 2 ^ width
    → bit_or result (g * 2 ^ shift % 2 ^ width) ≡ result + g * 2 ^ shift
or_group width g shift result low fits = grind (arith, bit_or_fields shift g result low)

group_below :
    (g shift result : ℕ) → g < 128 → result < 2 ^ shift → result + g * 2 ^ shift < 2 ^ (shift + 7)
group_below g shift result hg low = grind (arith, next_weight shift)

-- `v` is what is still to be read, and it counts from bit `shift` on.
get_varint_loop-groups :
    (last width k v shift result : ℕ) (rest : Bytes)
    → v < 128 ^ suc k
    → shift + 7 * k ≤ last
    → result < 2 ^ shift
    → result + v * 2 ^ shift < 2 ^ width
    → get_varint_loop last width (groups k v ++ rest) shift result
      ≡ some (result + v * 2 ^ shift, rest)
unfolding get_varint_loop groups
get_varint_loop-groups last width zero v shift result rest hv hs low fits =
    ground (arith, bit_and_top v, or_group width v shift result low fits)
get_varint_loop-groups last width (suc k) v shift result rest hv hs low fits = ground (
  arith,
  bit_and_top v,
  bit_and_top (v % 128 + 128),
  bit_and_low_seven (v % 128 + 128),
  or_group width v shift result low fits,
  weight_split v shift,
  or_group width (v % 128) shift result low,
  group_below (v % 128) shift result,
  get_varint_loop-groups last width k (v / 128) (shift + 7) (result + v % 128 * 2 ^ shift) rest,
)

pub get_varint64-groups :
    (v : ℕ) (rest : Bytes) → v < 2 ^ 64 → get_varint64 (groups 9 v ++ rest) ≡ some (v, rest)
unfolding get_varint64
get_varint64-groups v rest h = ground (arith, get_varint_loop-groups 63 64 9 v 0 0 rest)

pub get_varint32-groups :
    (v : ℕ) (rest : Bytes) → v < 2 ^ 32 → get_varint32 (groups 4 v ++ rest) ≡ some (v, rest)
unfolding get_varint32
get_varint32-groups v rest h = ground (arith, get_varint_loop-groups 28 32 4 v 0 0 rest)

-- `get_varint64` reads back every uint64 that `put_varint64` wrote, and leaves what follows it.
pub get_varint64-put_varint64 :
    (v : ℕ) (rest : Bytes) → v < 2 ^ 64 → get_varint64 (put_varint64 [] v ++ rest) ≡ some (v, rest)
get_varint64-put_varint64 v rest h = rw (put_varint64-groups [] v h) (get_varint64-groups v rest h)

-- `get_varint32` reads back every uint32 that `put_varint32` wrote, and leaves what follows it.
pub get_varint32-put_varint32 :
    (v : ℕ) (rest : Bytes) → v < 2 ^ 32 → get_varint32 (put_varint32 [] v ++ rest) ≡ some (v, rest)
get_varint32-put_varint32 v rest h = rw (put_varint32-groups [] v h) (get_varint32-groups v rest h)
