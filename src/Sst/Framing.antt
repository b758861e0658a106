-- ===== src/Sst/Framing.antt =====
-- src/sst/compression.cpp: the framing of a block, `payload, uncompressed_len, codec, crc32c`.
-- The compressors are third-party code and enter as parameters.
pub mod RoundTrip
use elysiumkv.Base.{
  ℕ, zero, suc, ◌+◌, ◌-◌, ◌^◌, ◌≤◌, ◌≡◌, ◌≢◌, Bool, true, false, not, ◌&&◌, List, [], ◌∷◌, ◌++◌,
  Option, none, some, ltb, leb, ◌==◌, if◌then◌else◌, length, take, drop, get_or,
}
use elysiumkv.Status.{Status, Result, value, unexpected}
use elysiumkv.Slice.{Bytes}
use elysiumkv.Sst.Codec.{Compression}
use elysiumkv.Sst.Crc.{crc32c}
use elysiumkv.Sst.Format.{put_fixed32, decode_fixed32}

unfoldable pub compression_byte : Compression → ℕ
compression_byte Compression.none = 0
compression_byte Compression.lz4 = 1
compression_byte Compression.zstd = 2

-- `is_known_compression` and the cast that follows it.
unfoldable pub compression_of : ℕ → Option Compression
compression_of raw =
    if raw == 0
    then some Compression.none
    else if raw == 1
    then some Compression.lz4
    else if raw == 2
    then some Compression.zstd
    else none

-- The LZ4 and Zstandard libraries. A compressor returns `none` where it reports an error; a
-- decompressor gets the size of the output buffer and returns what it produced.
pub record Codecs : Type 0 where
  pub lz4_max_input_size : ℕ
  pub lz4_compress : Bytes → Option Bytes
  pub lz4_decompress : Bytes → ℕ → Option Bytes
  pub zstd_compress : Bytes → Option Bytes
  pub zstd_decompress : Bytes → ℕ → Option Bytes

abbrev pub int_max : ℕ
int_max = 0x7fffffff

-- Documented of both libraries: what was compressed decompresses into a buffer of its size. The
-- largest input of LZ4 is an `int`.
pub record AreLossless (c : Codecs) : Type 0 where
  pub lz4_input_fits : c.lz4_max_input_size ≤ int_max
  pub lz4 :
      (content packed : Bytes)
      → c.lz4_compress content ≡ some packed
      → c.lz4_decompress packed (length content) ≡ some content
  pub zstd :
      (content packed : Bytes)
      → c.zstd_compress content ≡ some packed
      → c.zstd_decompress packed (length content) ≡ some content

module _ (c : Codecs) where
  unfoldable pub compress_lz4 : Bytes → Option Bytes
  compress_lz4 content =
      if ltb c.lz4_max_input_size (length content) then none else c.lz4_compress content

  -- The switch over the codec, which appends the payload.
  unfoldable pub pack : Compression → Bytes → Option Bytes
  unfolding compress_lz4
  pack Compression.none content = some content
  pack Compression.lz4 content = compress_lz4 content
  pack Compression.zstd content = c.zstd_compress content

  -- The payload and the codec that is recorded: a block that did not shrink is stored raw.
  unfoldable pub stored : Compression → Bytes → Bytes → Bytes × Compression
  stored Compression.none content payload = (payload, Compression.none)
  stored codec content payload =
      if leb (length content) (length payload)
      then (content, Compression.none)
      else (payload, codec)

  -- What follows the payload.
  unfoldable pub trailer : Bytes → Compression → ℕ → Bytes
  unfolding compression_byte
  trailer payload codec size =
      let covered = put_fixed32 payload size ++ (compression_byte codec ∷ []) in
      put_fixed32 covered (crc32c covered)

  -- Appends the framed block to `out`.
  unfoldable pub frame_block : Bytes → Compression → Bytes → Result Bytes
  frame_block content codec out =
      if ltb 0xFFFFFFFF (length content) then unexpected Status.io else elim (pack codec content) [
        | none ↦ unexpected Status.io
        | some payload ↦
            let (kept, recorded) = stored codec content payload in
            value (out ++ trailer kept recorded (length content))
      ]

  -- The decompressors fill a buffer of `size` bytes, and must fill it exactly.
  exactly : ℕ → Option Bytes → Result Bytes
  exactly size none = unexpected Status.corrupt
  exactly size (some produced) =
      if length produced == size then value produced else unexpected Status.corrupt

  unpack : Compression → Bytes → ℕ → Result Bytes
  unfolding exactly
  unpack Compression.none payload size =
      if length payload == size then value payload else unexpected Status.corrupt
  unpack Compression.lz4 payload size =
      if ltb int_max (length payload)
      then unexpected Status.corrupt
      else exactly size (c.lz4_decompress payload size)
  unpack Compression.zstd payload size = exactly size (c.zstd_decompress payload size)

  -- The checks after the checksum: the codec byte, then the bound on the recorded size.
  pub unpack_known : Option Compression → Bytes → ℕ → ℕ → Result Bytes
  unfolding unpack
  unpack_known none payload size max_uncompressed = unexpected Status.corrupt
  unpack_known (some codec) payload size max_uncompressed =
      if ltb max_uncompressed size then unexpected Status.corrupt else unpack codec payload size

  unfoldable pub unframe_block : Bytes → ℕ → Result Bytes
  unframe_block raw max_uncompressed =
      let covered = length raw - 4 in
      if ltb (length raw) 9
      then unexpected Status.corrupt
      else if not (crc32c (take covered raw) == decode_fixed32 (drop covered raw))
      then unexpected Status.corrupt
      else unpack_known (compression_of (get_or raw (covered - 1) 0)) (take (length raw - 9) raw)
          (decode_fixed32 (drop (covered - 5) raw)) max_uncompressed
