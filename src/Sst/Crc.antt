-- ===== src/Sst/Crc.antt =====
-- src/sst/crc32c.cpp: the checksum, on the portable path (`have_hardware()` is false). The hardware
-- instructions compute the same function and are not modelled.
use elysiumkv.Base.{
  ℕ, zero, suc, ◌/◌, ◌%◌, ◌^◌, ◌<◌, [], ◌∷◌, bit_and, bit_xor, ◌==◌, if◌then◌else◌, arith,
}
use elysiumkv.Base.Bits.{bit_xor-lt}
use elysiumkv.Slice.{Bytes}

abbrev polynomial : ℕ
polynomial = 0x82F63B78

-- The inner loop of `make_table`, for the bits that are left.
table_bits : ℕ → ℕ → ℕ
table_bits zero crc = crc
table_bits (suc bit) crc =
    table_bits bit (if bit_and crc 1 == 0 then crc / 2 else bit_xor (crc / 2) polynomial)

-- `kTable[i]`
table_entry : ℕ → ℕ
table_entry i = table_bits 8 i

crc32c_table : Bytes → ℕ → ℕ
unfolding table_entry table_bits
crc32c_table [] crc = crc
crc32c_table (byte ∷ more) crc =
    crc32c_table more (bit_xor (table_entry (bit_xor crc byte % 256)) (crc / 2 ^ 8))

pub crc32c : Bytes → ℕ
unfolding crc32c_table
crc32c bytes = bit_xor (crc32c_table bytes (bit_xor 0 0xFFFFFFFF)) 0xFFFFFFFF

table_bits-lt : (n crc : ℕ) → crc < 2 ^ 32 → table_bits n crc < 2 ^ 32
unfolding table_bits
table_bits-lt zero crc h = h
table_bits-lt (suc n) crc h = table_bits-lt n _ (ground (arith, bit_xor-lt 32 (crc / 2) polynomial))

crc32c_table-lt : (bytes : Bytes) (crc : ℕ) → crc < 2 ^ 32 → crc32c_table bytes crc < 2 ^ 32
unfolding crc32c_table
crc32c_table-lt [] crc h = h
crc32c_table-lt (byte ∷ more) crc h =
    crc32c_table-lt more _ (bit_xor-lt 32 _ _ (entry _) (omega arith))
  where
    entry : (i : ℕ) → table_bits 8 (i % 256) < 2 ^ 32
    entry i = table_bits-lt 8 (i % 256) (omega arith)

-- The checksum is a uint32, for any bytes.
pub crc32c-lt : (bytes : Bytes) → crc32c bytes < 2 ^ 32
unfolding crc32c
crc32c-lt bytes =
    bit_xor-lt 32 _ _
      (crc32c_table-lt bytes _ (bit_xor-lt 32 0 0xFFFFFFFF (omega arith) (omega arith)))
      (omega arith)
