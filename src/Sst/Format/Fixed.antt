-- ===== src/Sst/Format/Fixed.antt =====
-- Fixed-width integers: what is written, and that decoding reads it back.
use elysiumkv.Base.{
  ℕ, zero, suc, ◌+◌, ◌*◌, ◌/◌, ◌%◌, ◌^◌, ◌<◌, ◌≡◌, refl, ap, ◌∙◌, [], ◌++◌, bit_or, arith, length,
  length-append,
}
use elysiumkv.Base.Bits.{bit_or_fields}
use elysiumkv.Slice.{Bytes, AreBytes}
use elysiumkv.Sst.Format.{
  le_bytes, put_fixed32, put_fixed64, decode_fixed32, decode_fixed64, or_bytes,
}

pub length-le_bytes : (n v : ℕ) → length (le_bytes n v) ≡ n
unfolding le_bytes
length-le_bytes zero v = refl
length-le_bytes (suc n) v = ap suc (length-le_bytes n (v / 256))

pub le_bytes-AreBytes : (n v : ℕ) → AreBytes (le_bytes n v)
unfolding le_bytes
le_bytes-AreBytes zero v = tt
le_bytes-AreBytes (suc n) v = (omega arith, le_bytes-AreBytes n (v / 256))

pub length-put_fixed32 : (dst : Bytes) (v : ℕ) → length (put_fixed32 dst v) ≡ length dst + 4
unfolding put_fixed32
length-put_fixed32 dst v = omega (arith, length-append {0} dst (le_bytes 4 v), length-le_bytes 4 v)

pub length-put_fixed64 : (dst : Bytes) (v : ℕ) → length (put_fixed64 dst v) ≡ length dst + 8
unfolding put_fixed64
length-put_fixed64 dst v = omega (arith, length-append {0} dst (le_bytes 8 v), length-le_bytes 8 v)

or_four :
    (a b c d : ℕ)
    → a < 256
    → b < 256
    → c < 256
    → d < 256
    → bit_or (bit_or (bit_or a (b * 2 ^ 8)) (c * 2 ^ 16)) (d * 2 ^ 24)
      ≡ a + b * 2 ^ 8 + c * 2 ^ 16 + d * 2 ^ 24
or_four a b c d ha hb hc hd = rw (
  bit_or_fields 8 b a (omega arith),
  bit_or_fields 16 c (a + b * 2 ^ 8) (omega arith),
  bit_or_fields 24 d (a + b * 2 ^ 8 + c * 2 ^ 16) (omega arith),
)

-- `decode_fixed32` reads back the uint32 that `put_fixed32` wrote, whatever follows it.
pub decode_fixed32-put_fixed32 :
    (v : ℕ) (rest : Bytes) → v < 2 ^ 32 → decode_fixed32 (put_fixed32 [] v ++ rest) ≡ v
unfolding put_fixed32 decode_fixed32 le_bytes
decode_fixed32-put_fixed32 v rest h = omega (
  arith,
  or_four (v % 256) (v / 256 % 256) (v / 256 / 256 % 256) (v / 256 / 256 / 256 % 256) (omega arith)
      (omega arith) (omega arith) (omega arith),
)

abbrev join_four : ℕ → ℕ → ℕ → ℕ → ℕ
join_four a b c d = a + b * 2 ^ 8 + c * 2 ^ 16 + d * 2 ^ 24

or_next_four :
    (low e f g h : ℕ)
    → low < 2 ^ 32
    → e < 256
    → f < 256
    → g < 256
    → h < 256
    → bit_or (bit_or (bit_or (bit_or low (e * 2 ^ 32)) (f * 2 ^ 40)) (g * 2 ^ 48)) (h * 2 ^ 56)
      ≡ low + join_four e f g h * 2 ^ 32
or_next_four low e f g h hl he hf hg hh =
    rw
      (
        bit_or_fields 32 e low hl,
        bit_or_fields 40 f (low + e * 2 ^ 32) (omega arith),
        bit_or_fields 48 g (low + e * 2 ^ 32 + f * 2 ^ 40) (omega arith),
        bit_or_fields 56 h (low + e * 2 ^ 32 + f * 2 ^ 40 + g * 2 ^ 48) (omega arith),
      )
      (omega arith)

byte_at : ℕ → ℕ → ℕ
byte_at zero v = v % 256
byte_at (suc i) v = byte_at i (v / 256)

byte_at-lt : (i v : ℕ) → byte_at i v < 256
unfolding byte_at
byte_at-lt zero v = omega arith
byte_at-lt (suc i) v = byte_at-lt i (v / 256)

join_bytes :
    (v : ℕ)
    → v < 2 ^ 64
    → join_four (byte_at 0 v) (byte_at 1 v) (byte_at 2 v) (byte_at 3 v)
        + join_four (byte_at 4 v) (byte_at 5 v) (byte_at 6 v) (byte_at 7 v) * 2 ^ 32
      ≡ v
unfolding byte_at
join_bytes v h = omega arith

or_bytes-byte_at :
    (v : ℕ) (rest : Bytes)
    → decode_fixed64 (put_fixed64 [] v ++ rest)
      ≡ bit_or
          (bit_or
            (bit_or
              (bit_or
                (bit_or
                  (bit_or
                    (bit_or (bit_or 0 (byte_at 0 v * 2 ^ 0)) (byte_at 1 v * 2 ^ 8))
                    (byte_at 2 v * 2 ^ 16))
                  (byte_at 3 v * 2 ^ 24))
                (byte_at 4 v * 2 ^ 32))
              (byte_at 5 v * 2 ^ 40))
            (byte_at 6 v * 2 ^ 48))
          (byte_at 7 v * 2 ^ 56)
unfolding decode_fixed64 or_bytes put_fixed64 le_bytes byte_at
or_bytes-byte_at v rest = refl

first_four :
    (v : ℕ)
    → bit_or
        (bit_or
          (bit_or (bit_or 0 (byte_at 0 v * 2 ^ 0)) (byte_at 1 v * 2 ^ 8))
          (byte_at 2 v * 2 ^ 16))
        (byte_at 3 v * 2 ^ 24)
      ≡ join_four (byte_at 0 v) (byte_at 1 v) (byte_at 2 v) (byte_at 3 v)
first_four v = rw (bit_or_fields 0 (byte_at 0 v) 0 (omega arith)) (
    rw (by_one (byte_at 0 v)) (
      or_four (byte_at 0 v) (byte_at 1 v) (byte_at 2 v) (byte_at 3 v) (byte_at-lt 0 v)
        (byte_at-lt 1 v) (byte_at-lt 2 v) (byte_at-lt 3 v)))
  where
    by_one : (b : ℕ) → 0 + b * 2 ^ 0 ≡ b
    by_one b = omega arith

-- `decode_fixed64` reads back the uint64 that `put_fixed64` wrote, whatever follows it.
pub decode_fixed64-put_fixed64 :
    (v : ℕ) (rest : Bytes) → v < 2 ^ 64 → decode_fixed64 (put_fixed64 [] v ++ rest) ≡ v
decode_fixed64-put_fixed64 v rest h =
    or_bytes-byte_at v rest
    ∙ rw (first_four v) (
        or_next_four (join_four (byte_at 0 v) (byte_at 1 v) (byte_at 2 v) (byte_at 3 v))
          (byte_at 4 v) (byte_at 5 v) (byte_at 6 v) (byte_at 7 v)
          (omega (arith, byte_at-lt 0 v, byte_at-lt 1 v, byte_at-lt 2 v, byte_at-lt 3 v))
          (byte_at-lt 4 v) (byte_at-lt 5 v) (byte_at-lt 6 v) (byte_at-lt 7 v))
    ∙ join_bytes v h
