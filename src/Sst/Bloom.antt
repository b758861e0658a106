-- ===== src/Sst/Bloom.antt =====
-- src/sst/bloom.hpp and bloom.cpp: the blocked Bloom filter of a table. The hash function is a
-- parameter, a copy of XXH64 in the source. The two settings, which are `int`, are numbers here; the
-- source raises a negative one to 1 as it does 0.
pub mod Lit
pub mod Kept
use elysiumkv.Base.{
  ℕ, zero, suc, ◌+◌, ◌-◌, ◌*◌, ◌/◌, ◌%◌, ◌^◌, min, max, bit_and, bit_or, Bool, true, false, ◌||◌,
  not, List, [], ◌∷◌, ◌++◌, leb, ◌==◌, if◌then◌else◌, length, get_or, set, drop,
}
use elysiumkv.Base.Bits.{bit_on}
use elysiumkv.Slice.{Bytes}
use elysiumkv.Sst.Format.{put_fixed32, decode_fixed32}

abbrev pub block_bits : ℕ
block_bits = 512

abbrev pub block_bytes : ℕ
block_bytes = 64

abbrev pub filter_trailer : ℕ
filter_trailer = 5

unfoldable pub derive_h2 : ℕ → ℕ
derive_h2 hash = bit_or (hash / 2 ^ 32) 1

unfoldable pub block_index : ℕ → ℕ → ℕ
block_index hash num_blocks = (hash / 2 ^ 32) * num_blocks % 2 ^ 64 / 2 ^ 32

pub record BloomBuilder : Type 0 where
  pub hashes : List ℕ
  pub bits_per_key : ℕ
  pub num_probes : ℕ

unfoldable pub new_builder : ℕ → ℕ → BloomBuilder
new_builder bits_per_key num_probes = record {
  hashes = [];
  bits_per_key = max 1 bits_per_key;
  num_probes = max 1 (min 32 num_probes);
}

unfoldable pub add : (Bytes → ℕ) → BloomBuilder → Bytes → BloomBuilder
add hash b key = record b { hashes = b.hashes ++ (hash key ∷ []) }

unfoldable pub reset : BloomBuilder → BloomBuilder
reset b = record b { hashes = [] }

-- `bits[base + bit / 8] |= 1u << (bit % 8)`
unfoldable pub set_bit : Bytes → ℕ → ℕ → Bytes
set_bit bits base bit =
    set bits (base + bit / 8) (bit_or (get_or bits (base + bit / 8) 0) (2 ^ (bit % 8)))

-- The probes of one hash.
unfoldable pub set_probes : ℕ → ℕ → ℕ → ℕ → Bytes → Bytes
set_probes zero base h2 h bits = bits
set_probes (suc probes) base h2 h bits =
    set_probes probes base h2 ((h + h2) % 2 ^ 64) (set_bit bits base (h % block_bits))

-- The loop over the hashes.
unfoldable pub set_hashes : ℕ → ℕ → List ℕ → Bytes → Bytes
set_hashes num_blocks probes [] bits = bits
set_hashes num_blocks probes (hash ∷ hashes) bits =
    set_hashes num_blocks probes hashes
      (set_probes probes (block_index hash num_blocks * block_bytes) (derive_h2 hash) hash bits)

unfoldable pub zero_bytes : ℕ → Bytes
zero_bytes zero = []
zero_bytes (suc n) = 0 ∷ zero_bytes n

unfoldable pub num_blocks_of : BloomBuilder → ℕ
num_blocks_of b =
    let total_bits = max block_bits (length b.hashes * b.bits_per_key) in
    (total_bits + block_bits - 1) / block_bits % 2 ^ 32

unfoldable pub finish : BloomBuilder → Bytes
finish b =
    let num_blocks = num_blocks_of b in
    let bits =
      set_hashes num_blocks b.num_probes b.hashes (zero_bytes (num_blocks * block_bytes)) in
    put_fixed32 bits num_blocks ++ (b.num_probes % 2 ^ 8 ∷ [])

unfoldable pub test_probes : ℕ → ℕ → ℕ → ℕ → Bytes → Bool
test_probes zero base h2 h filter = true
test_probes (suc probes) base h2 h filter =
    let bit = h % block_bits in
    let rest = test_probes probes base h2 ((h + h2) % 2 ^ 64) filter in
    if bit_and (get_or filter (base + bit / 8) 0) (2 ^ (bit % 8)) == 0 then false else rest

unfoldable pub bloom_may_contain : (Bytes → ℕ) → Bytes → Bytes → Bool
bloom_may_contain hash filter key =
    if leb (length filter) filter_trailer
    then true
    else let bitmap_bytes = length filter - filter_trailer in
      let num_blocks = decode_fixed32 (drop bitmap_bytes filter) in
      let num_probes = get_or filter (length filter - 1) 0 in
      if num_blocks == 0 || (num_probes == 0 || not (num_blocks * block_bytes == bitmap_bytes))
      then true
      else test_probes num_probes (block_index (hash key) num_blocks * block_bytes)
          (derive_h2 (hash key)) (hash key) filter
