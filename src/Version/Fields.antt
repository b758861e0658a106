-- ===== src/Version/Fields.antt =====
-- src/version/version_edit.cpp: the fields of manifest records. A reader that advances a pointer
-- returns what it read and the bytes that are left; `none` is its result `false`.
pub mod Append
pub mod Reads
use elysiumkv.Base.{
  ℕ, zero, suc, ◌+◌, Bool, true, false, not, ◌&&◌, ◌||◌, List, [], ◌∷◌, ◌++◌, Option, none, some,
  ltb, leb, ◌==◌, if◌then◌else◌, length, take, drop, bit_and, bit_or,
}
use elysiumkv.Slice.{Bytes}
use elysiumkv.Sst.Codec.{Compression}
use elysiumkv.Sst.Format.{put_varint64, get_varint64}
use elysiumkv.Sst.Framing.{compression_byte, compression_of}
use elysiumkv.Version.Metadata.{FileMetadata, FileRef, FloorUpdate}
use elysiumkv.Version.Watermark.{WatermarkInterval, WatermarkFloor, has_value}
use elysiumkv.Base.OptionBind.{◌>>=◌}

abbrev pub max_levels : ℕ
max_levels = 1024

unfoldable pub put_string : Bytes → Bytes → Bytes
put_string out s = put_varint64 out (length s) ++ s

unfoldable pub get_string : Bytes → Option (Bytes × Bytes)
get_string p = do
  (size, p1) ← get_varint64 p
  if ltb (length p1) size then none else some (take size p1, drop size p1)

abbrev pub value_or : Option ℕ → ℕ → ℕ
value_or none d = d
value_or (some v) d = v

-- The two presence bits.
unfoldable pub presence_flags : WatermarkInterval → ℕ
presence_flags w = bit_or (if has_value w.low then 1 else 0) (if has_value w.high then 2 else 0)

unfoldable pub put_watermark : Bytes → WatermarkInterval → Bytes
unfolding presence_flags
put_watermark out w =
    let out1 = put_varint64 out (presence_flags w) in
    let out2 = put_varint64 out1 (value_or w.low 0) in put_varint64 out2 (value_or w.high 0)

-- Whether neither bound is missing and they are the wrong way round.
ordered : Option ℕ → Option ℕ → Bool
ordered none high = true
ordered (some l) none = true
ordered (some l) (some h) = leb l h

-- The checks of `get_watermark` on the flags and the two numbers.
interval_of : ℕ → ℕ → ℕ → Option WatermarkInterval
unfolding ordered
interval_of flags low high =
    let has_low = not (bit_and flags 1 == 0) in
    let has_high = not (bit_and flags 2 == 0) in
    let l : Option ℕ = if has_low then some low else none in
    let h : Option ℕ = if has_high then some high else none in
    if has_low && not has_high
    then none
    else if ordered l h
    then some (record { low = l; high = h })
    else none

unfoldable pub get_watermark : Bytes → Option (WatermarkInterval × Bytes)
unfolding interval_of
get_watermark p = do
  (flags, p1) ← get_varint64 p
  if ltb 3 flags then none else do
    (low, p2) ← get_varint64 p1
    (high, p3) ← get_varint64 p2
    w ← interval_of flags low high
    some (w, p3)

-- A level, refused above `kMaxLevels`.
unfoldable pub get_level : Bytes → Option (ℕ × Bytes)
get_level p = do
  (level, p1) ← get_varint64 p
  if ltb max_levels level then none else some (level, p1)

unfoldable pub get_compression : Bytes → Option (Compression × Bytes)
unfolding compression_of
get_compression p = do
  (codec, p1) ← get_varint64 p
  compression ← compression_of codec
  some (compression, p1)

unfoldable pub put_file : Bytes → FileMetadata → Bytes
put_file o0 file =
    let o1 = put_varint64 o0 file.level in
    let o2 = put_varint64 o1 file.file_number in
    let o3 = put_string o2 file.store_id in
    let o4 = put_string o3 file.smallest_key in
    let o5 = put_string o4 file.largest_key in
    let o6 = put_varint64 o5 file.file_bytes in
    let o7 = put_varint64 o6 file.num_entries in
    let o8 = put_varint64 o7 file.num_tombstones in
    let o9 = put_varint64 o8 file.num_range_tombstones in
    let o10 = put_string o9 file.smallest_range_key in
    let o11 = put_string o10 file.largest_range_key in
    let o12 = put_varint64 o11 (compression_byte file.compression) in
    let o13 = put_varint64 o12 file.min_write_time_ms in
    let o14 = put_varint64 o13 file.max_write_time_ms in
    let o15 = put_watermark o14 file.watermark in
    let o16 = put_string o15 file.encryption_provider in put_string o16 file.encryption_metadata

unfoldable pub get_file : Bytes → Option (FileMetadata × Bytes)
get_file p0 = do
  (level, p1) ← get_level p0
  (file_number, p2) ← get_varint64 p1
  (store_id, p3) ← get_string p2
  (smallest_key, p4) ← get_string p3
  (largest_key, p5) ← get_string p4
  (file_bytes, p6) ← get_varint64 p5
  (num_entries, p7) ← get_varint64 p6
  (num_tombstones, p8) ← get_varint64 p7
  (num_range_tombstones, p9) ← get_varint64 p8
  (smallest_range_key, p10) ← get_string p9
  (largest_range_key, p11) ← get_string p10
  (compression, p12) ← get_compression p11
  (min_write_time_ms, p13) ← get_varint64 p12
  (max_write_time_ms, p14) ← get_varint64 p13
  (watermark, p15) ← get_watermark p14
  (encryption_provider, p16) ← get_string p15
  (encryption_metadata, p17) ← get_string p16
  some (
    record {
      level = level;
      file_number = file_number;
      store_id = store_id;
      smallest_key = smallest_key;
      largest_key = largest_key;
      file_bytes = file_bytes;
      num_entries = num_entries;
      num_tombstones = num_tombstones;
      num_range_tombstones = num_range_tombstones;
      smallest_range_key = smallest_range_key;
      largest_range_key = largest_range_key;
      compression = compression;
      min_write_time_ms = min_write_time_ms;
      max_write_time_ms = max_write_time_ms;
      watermark = watermark;
      encryption_provider = encryption_provider;
      encryption_metadata = encryption_metadata;
    },
    p17,
  )

unfoldable pub put_pointer : Bytes → ℕ × Bytes → Bytes
put_pointer out (level, key) = put_string (put_varint64 out level) key

unfoldable pub get_pointer : Bytes → Option ((ℕ × Bytes) × Bytes)
get_pointer p = do (level, p1) ← get_level p; (key, p2) ← get_string p1; some ((level, key), p2)

unfoldable pub put_ref : Bytes → FileRef → Bytes
put_ref out ref = put_varint64 (put_varint64 out ref.level) ref.file_number

unfoldable pub get_ref : Bytes → Option (FileRef × Bytes)
get_ref p = do
  (level, p1) ← get_level p
  (file_number, p2) ← get_varint64 p1
  some (record { level = level; file_number = file_number }, p2)

-- The loops over a counted sequence, `for (i = 0; i < count; ++i)`, which append to a vector.
module _ {A : Type 0} where
  unfoldable pub put_each : (Bytes → A → Bytes) → Bytes → List A → Bytes
  put_each put out [] = out
  put_each put out (a ∷ more) = put_each put (put out a) more

  unfoldable pub get_each : (Bytes → Option (A × Bytes)) → ℕ → Bytes → Option (List A × Bytes)
  get_each get zero p = some ([], p)
  get_each get (suc count) p = do
    (a, p1) ← get p
    (more, p2) ← get_each get count p1
    some (a ∷ more, p2)

  unfoldable pub put_counted : (Bytes → A → Bytes) → Bytes → List A → Bytes
  unfolding put_each
  put_counted put out items = put_each put (put_varint64 out (length items)) items

  unfoldable pub get_counted : (Bytes → Option (A × Bytes)) → Bytes → Option (List A × Bytes)
  unfolding get_each
  get_counted get p = do (count, p1) ← get_varint64 p; get_each get count p1

unfoldable pub put_files : Bytes → List FileMetadata → Bytes
put_files = put_counted put_file

unfoldable pub get_files : Bytes → Option (List FileMetadata × Bytes)
get_files = get_counted get_file

unfoldable pub put_refs : Bytes → List FileRef → Bytes
put_refs = put_counted put_ref

unfoldable pub get_refs : Bytes → Option (List FileRef × Bytes)
get_refs = get_counted get_ref

unfoldable pub put_pointers : Bytes → List (ℕ × Bytes) → Bytes
put_pointers = put_counted put_pointer

unfoldable pub get_pointers : Bytes → Option (List (ℕ × Bytes) × Bytes)
get_pointers = get_counted get_pointer
