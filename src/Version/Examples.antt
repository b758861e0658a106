-- ===== src/Version/Examples.antt =====
-- A small version and an edit, on which the theorems are applied.
mod Records
mod Files
mod Set
use elysiumkv.Base.{
  ℕ, zero, suc, ◌≡◌, refl, sym, ap, ◌+◌, ◌^◌, ◌≤◌, ◌<◌, Bool, true, false, not, List, [], ◌∷◌, ◌++◌,
  Option, none, some, length, arith, ◌&&◌, ◌||◌, any, All, Member, here, there, if◌then◌else◌, keep,
  ltb, leb, ◌==◌,
}
use elysiumkv.Status.{value}
use elysiumkv.Slice.{Bytes, key_lt, key_le, three_way, shorter, sign_of_common, then_sizes, memcmp}
use elysiumkv.Sst.Codec.{Compression}
use elysiumkv.Sst.Format.{put_varint64, put_varint32, put_varint_loop}
use native.Mathlib.Decide.{dec_lt}
use elysiumkv.Base.Order.{lt_wf}
use elysiumkv.Sst.Framing.{compression_byte, Codecs, AreLossless}
use elysiumkv.Version.Watermark.{WatermarkInterval, WatermarkFloor, nothing_observed, resume_after}
use elysiumkv.Version.Watermark.Merge.{Contains, merge_all, merge_all-Contains}
use elysiumkv.Version.Watermark.Recovery.{
  Observation, observe_all, is_discarded, lacks_low, least_discarded, greatest_surviving,
  resume_after-observe_all,
}
use elysiumkv.Version.Metadata.{
  FileMetadata, FileRef, FloorUpdate, VersionEdit, VersionSnapshot, effective_largest, max_key,
}
use elysiumkv.Version.Floor.{
  put_floor_update, floor_update_state, state_of_position, put_floor, floor_state, floor_value,
}
use elysiumkv.Version.Fields.{
  put_files, put_refs, put_pointers, put_counted, put_each, put_file, put_ref, put_pointer,
  put_string, put_watermark, presence_flags,
}
use elysiumkv.Version.Fields.Reads.{IsRecordable, IsRecordableInterval}
use elysiumkv.Version.Edit.{
  edit_content, snapshot_content, max_manifest_bytes, encode_version_edit, decode_version_edit,
  encode_version_snapshot, decode_version_snapshot,
}
use elysiumkv.Version.Edit.RoundTrip.{
  IsRecordableEdit, IsRecordableSnapshot, kept_edit, decode-encode_version_edit,
  decode-encode_version_snapshot,
}
use elysiumkv.Version.Levels.{
  Version, new_version, carried, has_ranges, carries_ranges, files_at, all_files, concat_levels,
  truncated, files_entirely_truncated, files_expired_before, is_expired, older_file_overlaps,
  older_and_meets, range_drop_candidates, RangeDropCandidate, scan_levels, level_overlaps,
  span_range, leading, candidates_among, candidate_of, first_cover, is_newer, hull_covers,
}
use elysiumkv.Version.Levels.Older.{AreLevelsFrom, older_file_overlaps-scan}
use elysiumkv.Version.Levels.Drops.{
  IsSoundDrop, files_entirely_truncated_dead, files_expired_before_safe,
  range_drop_candidates-IsSoundDrop,
}
use elysiumkv.Version.Apply.{apply}
use elysiumkv.Version.Apply.Added.{AtOwnLevels, is_deleted}
use elysiumkv.Version.Apply.Contents.{some_file-apply, apply-AtOwnLevels}
use elysiumkv.Version.Apply.Monotone.{IsLater, apply-IsLater, carries_ranges-apply}

-- A file at a level over a span of keys, without range tombstones.
abbrev pub file : ℕ → ℕ → Bytes → Bytes → FileMetadata
file level number smallest largest = record {
  level = level;
  file_number = number;
  store_id = 115 ∷ [];
  smallest_key = smallest;
  largest_key = largest;
  file_bytes = 4096;
  num_entries = 10;
  num_tombstones = 1;
  num_range_tombstones = 0;
  smallest_range_key = [];
  largest_range_key = [];
  compression = Compression.lz4;
  min_write_time_ms = 50;
  max_write_time_ms = 100;
  watermark = record { low = some 3; high = some 8 };
  encryption_provider = [];
  encryption_metadata = [];
}

abbrev pub newer : FileMetadata
newer = file 0 9 (1 ∷ []) (4 ∷ [])

abbrev pub deep : FileMetadata
deep = file 1 5 (6 ∷ []) (8 ∷ [])

abbrev pub deeper : FileMetadata
deeper = file 1 6 (10 ∷ []) (12 ∷ [])

-- A file whose one range tombstone covers the keys of `deep`.
abbrev pub covering : FileMetadata
covering = record newer {
  num_range_tombstones = 1;
  smallest_range_key = 5 ∷ [];
  largest_range_key = 9 ∷ [];
}

abbrev pub levels : List (List FileMetadata)
levels = (covering ∷ newer ∷ []) ∷ (deep ∷ deeper ∷ []) ∷ []

abbrev pub version : Version
version = record {
  levels = levels;
  carries_ranges = true ∷ false ∷ [];
  next_file_number = 20;
  compaction_pointers = [];
  truncation_point = 9 ∷ [];
  watermark_floor = none;
}

abbrev pub edit : VersionEdit
edit = record {
  next_file_number = 30;
  added = file 1 21 (20 ∷ []) (22 ∷ []) ∷ file 3 22 (1 ∷ []) (2 ∷ []) ∷ [];
  deleted = record { level = 1; file_number = 5 } ∷ [];
  compaction_pointers = (1, 9 ∷ []) ∷ [];
  truncation_point = 7 ∷ [];
  floor_update = FloorUpdate.set;
  watermark_floor = record { position = some 44 };
}
