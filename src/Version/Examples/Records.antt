-- ===== src/Version/Examples/Records.antt =====
-- The theorems on manifest records at concrete inputs.
use elysiumkv.Base.{ℕ, ◌≡◌, refl, sym, ◌^◌, ◌≤◌, ◌<◌, [], ◌∷◌, none, some, length, arith}
use elysiumkv.Status.{value}
use elysiumkv.Slice.{Bytes}
use elysiumkv.Sst.Format.{put_varint64, put_varint32, put_varint_loop}
use native.Mathlib.Decide.{dec_lt}
use elysiumkv.Base.Order.{lt_wf}
use elysiumkv.Sst.Framing.{compression_byte, Codecs, AreLossless}
use elysiumkv.Version.Metadata.{VersionSnapshot}
use elysiumkv.Version.Floor.{
  put_floor_update, floor_update_state, state_of_position, put_floor, floor_state, floor_value,
}
use elysiumkv.Version.Fields.{
  put_files, put_refs, put_pointers, put_counted, put_each, put_file, put_ref, put_pointer,
  put_string, put_watermark, presence_flags,
}
use elysiumkv.Version.Fields.Reads.{IsRecordable}
use elysiumkv.Version.Edit.{
  edit_content, snapshot_content, encode_version_edit, decode_version_edit, encode_version_snapshot,
  decode_version_snapshot,
}
use elysiumkv.Version.Edit.RoundTrip.{
  IsRecordableEdit, IsRecordableSnapshot, kept_edit, decode-encode_version_edit,
  decode-encode_version_snapshot,
}
use elysiumkv.Version.Examples.{file, edit}

file-IsRecordable :
    (level number : ℕ) (smallest largest : Bytes)
    → level ≤ 1024
    → number < 2 ^ 64
    → length smallest < 2 ^ 64
    → length largest < 2 ^ 64
    → IsRecordable (file level number smallest largest)
file-IsRecordable level number smallest largest hl hn hs hb = record {
  level = hl;
  file_number = hn;
  store_id = omega arith;
  smallest_key = hs;
  largest_key = hb;
  file_bytes = omega arith;
  num_entries = omega arith;
  num_tombstones = omega arith;
  num_range_tombstones = omega arith;
  smallest_range_key = omega arith;
  largest_range_key = omega arith;
  min_write_time_ms = omega arith;
  max_write_time_ms = omega arith;
  watermark = record { low = omega arith; high = omega arith; ordered = omega arith };
  encryption_provider = omega arith;
  encryption_metadata = omega arith;
}

edit-IsRecordableEdit : IsRecordableEdit edit
edit-IsRecordableEdit = record {
  next_file_number = omega arith;
  added = (
    file-IsRecordable 1 21 (20 ∷ []) (22 ∷ []) (omega arith) (omega arith) (omega arith)
        (omega arith),
    (
      file-IsRecordable 3 22 (1 ∷ []) (2 ∷ []) (omega arith) (omega arith) (omega arith)
          (omega arith),
      tt,
    ),
  );
  added_count = omega arith;
  deleted = ((omega arith, omega arith), tt);
  deleted_count = omega arith;
  pointers = ((omega arith, omega arith), tt);
  pointers_count = omega arith;
  truncation_point = omega arith;
  floor = omega arith;
}

length-edit_content : length (edit_content edit) ≡ 60
unfolding edit_content put_files put_refs put_pointers put_counted put_each put_file put_ref
    put_pointer put_string put_watermark presence_flags put_floor_update floor_update_state
    state_of_position compression_byte put_varint32 put_varint64 put_varint_loop lt_wf dec_lt
length-edit_content = refl

-- Codecs that keep the bytes as they are.
abbrev keeping : Codecs
keeping = record {
  lz4_max_input_size = 0x7E00_0000;
  lz4_compress = λ content. some content;
  lz4_decompress = λ packed size. some packed;
  zstd_compress = λ content. some content;
  zstd_decompress = λ packed size. some packed;
}

keeping-AreLossless : AreLossless keeping
keeping-AreLossless = record {
  lz4_input_fits = omega arith;
  lz4 = λ content packed e. sym e;
  zstd = λ content packed e. sym e;
}

decode-encode_version_edit_example :
    decode_version_edit keeping (encode_version_edit keeping edit) ≡ value (kept_edit edit)
decode-encode_version_edit_example =
    decode-encode_version_edit keeping edit edit-IsRecordableEdit
      (omega (arith, length-edit_content))

abbrev snapshot : VersionSnapshot
snapshot = record {
  next_file_number = 20;
  files = file 1 5 (6 ∷ []) (8 ∷ []) ∷ [];
  compaction_pointers = [];
  truncation_point = 5 ∷ [];
  watermark_floor = some (record { position = none });
}

snapshot-IsRecordableSnapshot : IsRecordableSnapshot snapshot
snapshot-IsRecordableSnapshot = record {
  next_file_number = omega arith;
  files = (
    file-IsRecordable 1 5 (6 ∷ []) (8 ∷ []) (omega arith) (omega arith) (omega arith) (omega arith),
    tt,
  );
  files_count = omega arith;
  pointers = tt;
  pointers_count = omega arith;
  truncation_point = omega arith;
  floor = tt;
}

length-snapshot_content : length (snapshot_content snapshot) ≡ 31
unfolding snapshot_content put_files put_pointers put_counted put_each put_file put_pointer
    put_string put_watermark presence_flags put_floor floor_state floor_value state_of_position
    compression_byte put_varint32 put_varint64 put_varint_loop lt_wf dec_lt
length-snapshot_content = refl

decode-encode_version_snapshot_example :
    decode_version_snapshot keeping (encode_version_snapshot keeping snapshot) ≡ value snapshot
decode-encode_version_snapshot_example =
    decode-encode_version_snapshot keeping snapshot (snapshot_content snapshot) keeping-AreLossless
      refl snapshot-IsRecordableSnapshot (omega (arith, length-snapshot_content))
