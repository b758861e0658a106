-- ===== src/Version/Metadata.antt =====
-- src/version/version_edit.hpp: the metadata of a file, edits and snapshots. A level is an `int` in
-- the source that is never negative where it is built or decoded; it is a number here.
use elysiumkv.Base.{ℕ, Bool, not, ◌&&◌, List, Option, ◌==◌, if◌then◌else◌}
use elysiumkv.Slice.{Bytes, key_lt, key_le}
use elysiumkv.Sst.Codec.{Compression}
use elysiumkv.Version.Watermark.{WatermarkInterval, WatermarkFloor}

pub record FileMetadata : Type 0 where
  pub level : ℕ
  pub file_number : ℕ
  pub store_id : Bytes
  pub smallest_key : Bytes
  pub largest_key : Bytes
  pub file_bytes : ℕ
  pub num_entries : ℕ
  pub num_tombstones : ℕ
  pub num_range_tombstones : ℕ
  pub smallest_range_key : Bytes
  pub largest_range_key : Bytes
  pub compression : Compression
  pub min_write_time_ms : ℕ
  pub max_write_time_ms : ℕ
  pub watermark : WatermarkInterval
  pub encryption_provider : Bytes
  pub encryption_metadata : Bytes

-- `std::min` and `std::max` on strings: the first argument where the two are equal.
unfoldable pub min_key : Bytes → Bytes → Bytes
min_key a b = if key_lt b a then b else a

unfoldable pub max_key : Bytes → Bytes → Bytes
max_key a b = if key_lt a b then b else a

unfoldable pub effective_smallest : FileMetadata → Bytes
effective_smallest f =
    if f.num_range_tombstones == 0
    then f.smallest_key
    else if f.num_entries == 0
    then f.smallest_range_key
    else min_key f.smallest_key f.smallest_range_key

unfoldable pub effective_largest : FileMetadata → Bytes
effective_largest f =
    if f.num_range_tombstones == 0
    then f.largest_key
    else if f.num_entries == 0
    then f.largest_range_key
    else max_key f.largest_key f.largest_range_key

unfoldable pub range_may_cover : FileMetadata → Bytes → Bool
range_may_cover f key =
    not (f.num_range_tombstones == 0)
    && (key_le f.smallest_range_key key && key_lt key f.largest_range_key)

pub record FileRef : Type 0 where
  pub level : ℕ
  pub file_number : ℕ

pub data FloorUpdate : Type 0 where
  silent set clear : FloorUpdate

pub record VersionEdit : Type 0 where
  pub next_file_number : ℕ
  pub added : List FileMetadata
  pub deleted : List FileRef
  pub compaction_pointers : List (ℕ × Bytes)
  pub truncation_point : Bytes
  pub floor_update : FloorUpdate
  pub watermark_floor : WatermarkFloor

pub record VersionSnapshot : Type 0 where
  pub next_file_number : ℕ
  pub files : List FileMetadata
  pub compaction_pointers : List (ℕ × Bytes)
  pub truncation_point : Bytes
  pub watermark_floor : Option WatermarkFloor
