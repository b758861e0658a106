-- ===== src/Sst/Format.antt =====
-- src/sst/format.hpp: little-endian integers and variable-length integers. A pointer that advances
-- through a buffer up to a limit is the list of the bytes that are left.
pub mod Fixed
pub mod Varint
use mathlib.Core.Logic.{dite}
use mathlib.Core.WellFounded.{Acc}
use native.Mathlib.Decide.{dec_lt}
use elysiumkv.Base.{
  ℕ, zero, suc, ◌+◌, ◌*◌, ◌/◌, ◌%◌, ◌^◌, ◌<◌, Bool, true, false, ◌||◌, List, [], ◌∷◌, ◌++◌, Option,
  none, some, leb, ◌==◌, if◌then◌else◌, bit_and, bit_or, get_or, arith,
}
use elysiumkv.Base.Order.{lt_wf}
use elysiumkv.Slice.{Bytes}

-- `static_cast<uint8_t>(value >> (8 * i))` for i < n, appended in that order.
unfoldable pub le_bytes : ℕ → ℕ → Bytes
le_bytes zero value = []
le_bytes (suc n) value = (value % 256) ∷ le_bytes n (value / 256)

unfoldable pub put_fixed32 : Bytes → ℕ → Bytes
unfolding le_bytes
put_fixed32 dst value = dst ++ le_bytes 4 value

unfoldable pub put_fixed64 : Bytes → ℕ → Bytes
unfolding le_bytes
put_fixed64 dst value = dst ++ le_bytes 8 value

-- `p[0] | p[1] << 8 | p[2] << 16 | p[3] << 24`. The callers pass a buffer that is long enough; a
-- read past its end is undefined there, and is 0 here.
unfoldable pub decode_fixed32 : Bytes → ℕ
decode_fixed32 p =
    bit_or (bit_or (bit_or (get_or p 0 0) (get_or p 1 0 * 2 ^ 8)) (get_or p 2 0 * 2 ^ 16))
      (get_or p 3 0 * 2 ^ 24)

-- One round of `value |= p[i] << (8 * i)` for each i from `i` on.
or_bytes : ℕ → ℕ → ℕ → Bytes → ℕ
or_bytes zero i value p = value
or_bytes (suc n) i value p = or_bytes n (i + 1) (bit_or value (get_or p i 0 * 2 ^ (8 * i))) p

unfoldable pub decode_fixed64 : Bytes → ℕ
unfolding or_bytes
decode_fixed64 p = or_bytes 8 0 0 p

pub shift_shrinks : (v : ℕ) → 0x7f < v → v / 128 < v
shift_shrinks v h = omega arith

-- `while (value >= 0x80) { push_back((value & 0x7F) | 0x80); value >>= 7; } push_back(value)`
unfoldable pub put_varint_loop : Bytes → (value : ℕ) → Acc ◌<◌ value → Bytes
put_varint_loop dst value (Acc.intro _ smaller) =
    dite (dec_lt 0x7f value)
      (λ more.
        put_varint_loop (dst ++ (bit_or (bit_and value 0x7f) 0x80 ∷ [])) (value / 2 ^ 7)
          (smaller _ (shift_shrinks value more)))
      (λ _. dst ++ (value ∷ []))

unfoldable pub put_varint32 : Bytes → ℕ → Bytes
unfolding put_varint_loop lt_wf dec_lt
put_varint32 dst value = put_varint_loop dst value (lt_wf.apply value)

unfoldable pub put_varint64 : Bytes → ℕ → Bytes
unfolding put_varint_loop lt_wf dec_lt
put_varint64 dst value = put_varint_loop dst value (lt_wf.apply value)

-- The loop of `get_varint32` and `get_varint64`: `last_shift` is 28 or 63, and `width` the 32 or 64
-- bits to which `<<` and `|` are cut. `none` is the result `false`, for a truncated or over-long
-- encoding.
get_varint_loop : ℕ → ℕ → Bytes → ℕ → ℕ → Option (ℕ × Bytes)
get_varint_loop last_shift width [] shift result = none
get_varint_loop last_shift width (byte ∷ p) shift result =
    let more =
      get_varint_loop last_shift width p (shift + 7)
        (bit_or result (bit_and byte 0x7f * 2 ^ shift % 2 ^ width)) in
    if leb shift last_shift
    then if bit_and byte 0x80 == 0
      then some (bit_or result (byte * 2 ^ shift % 2 ^ width), p)
      else more
    else none

unfoldable pub get_varint32 : Bytes → Option (ℕ × Bytes)
unfolding get_varint_loop
get_varint32 p = get_varint_loop 28 32 p 0 0

unfoldable pub get_varint64 : Bytes → Option (ℕ × Bytes)
unfolding get_varint_loop
get_varint64 p = get_varint_loop 63 64 p 0 0
