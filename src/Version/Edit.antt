-- ===== src/Version/Edit.antt =====
-- src/version/version_edit.cpp: edits and snapshots as framed records of the manifest.
pub mod RoundTrip
use elysiumkv.Base.{
  ℕ, Bool, true, false, not, List, [], Option, none, some, ltb, ◌==◌, if◌then◌else◌,
}
use elysiumkv.Status.{Status, Result, value, unexpected, ◌>>=◌}
use elysiumkv.Slice.{Bytes}
use elysiumkv.Sst.Codec.{Compression}
use elysiumkv.Sst.Format.{put_varint32, put_varint64, get_varint32, get_varint64}
use elysiumkv.Sst.Framing.{Codecs, frame_block, unframe_block}
use elysiumkv.Version.Metadata.{VersionEdit, VersionSnapshot}
use elysiumkv.Version.Floor.{put_floor_update, get_floor_update, put_floor, get_floor}
use elysiumkv.Version.Fields.{
  put_string, get_string, put_files, get_files, put_refs, get_refs, put_pointers, get_pointers,
}

abbrev pub edit_format_version : ℕ
edit_format_version = 6

abbrev pub snapshot_format_version : ℕ
snapshot_format_version = 6

abbrev pub max_manifest_bytes : ℕ
max_manifest_bytes = 0x10000000

-- A reader that reports `false` makes the record corrupt.
abbrev pub or_corrupt {ℓ} : {A : Type ℓ} → Option A → Result A
or_corrupt none = unexpected Status.corrupt
or_corrupt (some a) = value a

unfoldable pub edit_content : VersionEdit → Bytes
edit_content edit =
    let o1 = put_varint32 [] edit_format_version in
    let o2 = put_varint64 o1 edit.next_file_number in
    let o3 = put_files o2 edit.added in
    let o4 = put_refs o3 edit.deleted in
    let o5 = put_pointers o4 edit.compaction_pointers in
    let o6 = put_string o5 edit.truncation_point in
    put_floor_update o6 edit.floor_update edit.watermark_floor

-- What is decoded once the record's frame is checked.
pub edit_of_content : Bytes → Result VersionEdit
edit_of_content content = do
  (format, p1) ← or_corrupt (get_varint32 content)
  if not (format == edit_format_version) then unexpected Status.unsupported else do
    (next_file_number, p2) ← or_corrupt (get_varint64 p1)
    (added, p3) ← or_corrupt (get_files p2)
    (deleted, p4) ← or_corrupt (get_refs p3)
    (pointers, p5) ← or_corrupt (get_pointers p4)
    (truncation_point, p6) ← or_corrupt (get_string p5)
    ((floor_update, watermark_floor), p7) ← or_corrupt (get_floor_update p6)
    value (record {
      next_file_number = next_file_number;
      added = added;
      deleted = deleted;
      compaction_pointers = pointers;
      truncation_point = truncation_point;
      floor_update = floor_update;
      watermark_floor = watermark_floor;
    })

unfoldable pub snapshot_content : VersionSnapshot → Bytes
snapshot_content snapshot =
    let o1 = put_varint32 [] snapshot_format_version in
    let o2 = put_varint64 o1 snapshot.next_file_number in
    let o3 = put_files o2 snapshot.files in
    let o4 = put_pointers o3 snapshot.compaction_pointers in
    let o5 = put_string o4 snapshot.truncation_point in put_floor o5 snapshot.watermark_floor

pub snapshot_of_content : Bytes → Result VersionSnapshot
snapshot_of_content content = do
  (format, p1) ← or_corrupt (get_varint32 content)
  if not (format == snapshot_format_version) then unexpected Status.unsupported else do
    (next_file_number, p2) ← or_corrupt (get_varint64 p1)
    (files, p3) ← or_corrupt (get_files p2)
    (pointers, p4) ← or_corrupt (get_pointers p3)
    (truncation_point, p5) ← or_corrupt (get_string p4)
    (watermark_floor, p6) ← or_corrupt (get_floor p5)
    value (record {
      next_file_number = next_file_number;
      files = files;
      compaction_pointers = pointers;
      truncation_point = truncation_point;
      watermark_floor = watermark_floor;
    })

-- The status of `frame_block` is ignored; on an error nothing was appended.
unfoldable pub appended : Result Bytes → Bytes
appended (value out) = out
appended (unexpected s) = []

module _ (c : Codecs) where
  pub frame : Bytes → Compression → Bytes
  unfolding appended
  frame content codec = appended (frame_block c content codec [])

  unfoldable pub encode_version_edit : VersionEdit → Bytes
  unfolding frame
  encode_version_edit edit = frame (edit_content edit) Compression.none

  unfoldable pub decode_version_edit : Bytes → Result VersionEdit
  decode_version_edit bytes = do
    content ← unframe_block c bytes max_manifest_bytes
    edit_of_content content

  unfoldable pub encode_version_snapshot : VersionSnapshot → Bytes
  unfolding frame
  encode_version_snapshot snapshot = frame (snapshot_content snapshot) Compression.zstd

  unfoldable pub decode_version_snapshot : Bytes → Result VersionSnapshot
  decode_version_snapshot bytes = do
    content ← unframe_block c bytes max_manifest_bytes
    snapshot_of_content content
