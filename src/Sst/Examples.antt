-- ===== src/Sst/Examples.antt =====
-- The theorems on the file format at concrete inputs.
use elysiumkv.Base.{
  ℕ, zero, suc, ◌≡◌, refl, sym, ap, ◌+◌, ◌*◌, ◌%◌, ◌^◌, ◌<◌, true, ◌&&◌, List, [], ◌∷◌, ◌++◌,
  Option, none, some, length, get_or, All, here, there, arith,
}
use mathlib.Core.Option.{some-injective}
use elysiumkv.Status.{value}
use elysiumkv.Slice.{Bytes}
use elysiumkv.Sst.Codec.{Compression}
use elysiumkv.Sst.Format.{put_varint64, get_varint64}
use elysiumkv.Sst.Format.Varint.{get_varint64-put_varint64}
use elysiumkv.Sst.Framing.{
  Codecs, AreLossless, frame_block, unframe_block, pack, stored, compress_lz4, trailer,
}
use elysiumkv.Sst.Framing.RoundTrip.{unframe_block-frame_block}
use elysiumkv.Sst.Footer.{Footer, encode, decode}
use elysiumkv.Sst.Footer.Fields.{FooterFits, kept}
use elysiumkv.Sst.Footer.RoundTrip.{IsKnown, decode-encode}
use elysiumkv.Sst.Bloom.{new_builder, finish, bloom_may_contain}
use elysiumkv.Sst.Bloom.Kept.{add_all, bloom_may_contain-finish}
use elysiumkv.Sst.Block.{ValueType, Entry, new_block, finish_block, open_block, seek_to_first}
use elysiumkv.Sst.Block.Scan.{add_entries, EntryFits, kept_entries, scan}
use elysiumkv.Sst.Block.RoundTrip.{scan-finish_block}
use elysiumkv.Sst.Ranges.{RangeTombstone, merge_ranges, clip_ranges}
use elysiumkv.Sst.Ranges.Clip.{covered_by, at_or_above, below_bound, covered_by-clip_ranges}
use elysiumkv.Sst.Ranges.Union.{covered_by-merge_ranges}
use elysiumkv.Sst.Ranges.Gaps.{IsFragmented, merge_ranges-IsFragmented}

get_varint64-put_varint64_example :
    get_varint64 (put_varint64 [] 0xffff_ffff_ffff ++ (9 ∷ [])) ≡ some (0xffff_ffff_ffff, 9 ∷ [])
get_varint64-put_varint64_example =
    get_varint64-put_varint64 0xffff_ffff_ffff (9 ∷ []) (omega arith)

-- A codec that leaves a first zero byte out, and refuses what has none.
squeeze : Bytes → Option Bytes
squeeze [] = none
squeeze (zero ∷ xs) = some xs
squeeze (suc n ∷ xs) = none

abbrev squeezing : Codecs
squeezing = record {
  lz4_max_input_size = 0x7E00_0000;
  lz4_compress = squeeze;
  lz4_decompress = λ packed size. some (0 ∷ packed);
  zstd_compress = squeeze;
  zstd_decompress = λ packed size. some (0 ∷ packed);
}

squeeze-some :
    (content packed : Bytes) → squeeze content ≡ some packed → some (0 ∷ packed) ≡ some content
unfolding squeeze
squeeze-some [] packed e = absurd (ground arith)
squeeze-some (zero ∷ xs) packed e = ap (λ t. some (0 ∷ t)) (sym (some-injective xs packed e))
squeeze-some (suc n ∷ xs) packed e = absurd (ground arith)

squeezing-AreLossless : AreLossless squeezing
squeezing-AreLossless = record {
  lz4_input_fits = omega arith;
  lz4 = squeeze-some;
  zstd = squeeze-some;
}

abbrev zeros : Bytes
zeros = 0 ∷ 7 ∷ 7 ∷ []

squeezed_block :
    frame_block squeezing zeros Compression.lz4 (1 ∷ [])
    ≡ value ((1 ∷ []) ++ trailer squeezing (7 ∷ 7 ∷ []) Compression.lz4 3)
unfolding frame_block pack stored compress_lz4 squeeze
squeezed_block = refl

unframe_block-frame_block_example :
    (block : Bytes) × ((1 ∷ []) ++ trailer squeezing (7 ∷ 7 ∷ []) Compression.lz4 3
      ≡ (1 ∷ []) ++ block)
    × (unframe_block squeezing block 100 ≡ value zeros)
unframe_block-frame_block_example =
    unframe_block-frame_block squeezing zeros Compression.lz4 (1 ∷ [])
      ((1 ∷ []) ++ trailer squeezing (7 ∷ 7 ∷ []) Compression.lz4 3) 100 squeezing-AreLossless
      (omega arith) squeezed_block

abbrev footer : Footer
footer = record {
  filter = record { offset = 4096; length = 512 };
  index = record { offset = 4608; length = 77 };
  num_entries = 1000;
  format_version = 3;
  range_del = record { offset = 4685; length = 30 };
  crc = 0;
}

footer-FooterFits : FooterFits footer
footer-FooterFits = record {
  filter = record { offset = omega arith; length = omega arith };
  index = record { offset = omega arith; length = omega arith };
  num_entries = omega arith;
  range_del = record { offset = omega arith; length = omega arith };
}

decode-encode_example : decode ((1 ∷ 2 ∷ []) ++ encode footer) ≡ value (kept footer)
decode-encode_example = decode-encode (1 ∷ 2 ∷ []) footer IsKnown.v3 footer-FooterFits

abbrev ranges : List RangeTombstone
ranges =
    record { lower = 5 ∷ []; upper = 9 ∷ [] }
    ∷ record { lower = 1 ∷ []; upper = 5 ∷ [] }
    ∷ record { lower = 20 ∷ []; upper = 30 ∷ [] }
    ∷ []

covered_by-merge_ranges_example :
    covered_by (merge_ranges ranges) (7 ∷ []) ≡ covered_by ranges (7 ∷ [])
covered_by-merge_ranges_example = covered_by-merge_ranges ranges (7 ∷ [])

merge_ranges-IsFragmented_example : IsFragmented (merge_ranges ranges)
merge_ranges-IsFragmented_example = merge_ranges-IsFragmented ranges

covered_by-clip_ranges_example : covered_by (clip_ranges ranges (some (3 ∷ [])) none) (2 ∷ []) ≡ (
    at_or_above (some (3 ∷ [])) (2 ∷ [])
    && (below_bound none (2 ∷ []) && covered_by ranges (2 ∷ [])))
covered_by-clip_ranges_example = covered_by-clip_ranges ranges (some (3 ∷ [])) none (2 ∷ [])

-- A hash of 64 bits, from the length and the first byte of a key.
abbrev some_hash : Bytes → ℕ
some_hash key = (length key * 0x9E37_79B1_85EB_CA87 + get_or key 0 0 * 0xC2B2_AE3D) % 2 ^ 64

some_hash-lt : (key : Bytes) → some_hash key < 2 ^ 64
some_hash-lt key = omega arith

abbrev keys : List Bytes
keys = (1 ∷ 2 ∷ []) ∷ (3 ∷ []) ∷ []

bloom_may_contain-finish_example :
    bloom_may_contain some_hash (finish (add_all some_hash (new_builder 10 7) keys)) (3 ∷ []) ≡ true
bloom_may_contain-finish_example =
    bloom_may_contain-finish some_hash 10 7 keys (3 ∷ []) some_hash-lt (omega arith) (there here)

abbrev entries : List Entry
entries =
    record { key = 1 ∷ 2 ∷ []; type = ValueType.put; value = 9 ∷ 9 ∷ [] }
    ∷ record { key = 1 ∷ 2 ∷ 5 ∷ []; type = ValueType.delete; value = [] }
    ∷ record { key = 1 ∷ 3 ∷ []; type = ValueType.put; value = [] }
    ∷ []

entries-fit : All EntryFits entries
entries-fit = (
  record { key = omega arith; value = omega arith },
  (
    record { key = omega arith; value = omega arith },
    (record { key = omega arith; value = omega arith }, tt),
  ),
)

-- Two entries to a restart, so that the third stands at one.
scan-finish_block_example :
    scan 5 (seek_to_first (open_block (finish_block (add_entries (new_block 2) entries)).buffer))
    ≡ kept_entries entries
scan-finish_block_example = scan-finish_block 2 5 entries entries-fit (omega arith) (omega arith)
