-- ===== src/Version/Edit/RoundTrip.antt =====
-- Records of the manifest decode to what was encoded.
use elysiumkv.Base.{
  ℕ, ◌^◌, ◌≤◌, ◌<◌, ◌≡◌, sym, ap, ◌∙◌, List, [], ◌∷◌, some, length, All, arith, append_assoc,
  append-nil,
}
use elysiumkv.Status.{value}
use elysiumkv.Slice.{Bytes}
use elysiumkv.Sst.Codec.{Compression}
use elysiumkv.Sst.Format.Varint.{put_varint32-groups, get_varint32-groups}
use elysiumkv.Sst.Framing.{Codecs, AreLossless, frame_block, pack, stored, trailer}
use elysiumkv.Sst.Framing.RoundTrip.{unframe_block-frame_none, unframe_block-frame_block}
use elysiumkv.Version.Metadata.{FileMetadata, FileRef, VersionEdit, VersionSnapshot}
use elysiumkv.Version.Floor.Reads.{kept_floor, FloorFits, floor_update_read, floor-IsReadBack}
use elysiumkv.Version.Floor.{get_floor, get_floor_update}
use elysiumkv.Version.Fields.{
  put_files, get_files, put_refs, get_refs, put_pointers, get_pointers, put_file, get_file,
}
use elysiumkv.Version.Fields.Append.{
  IsReadBack, IsU64, varint64-IsReadBack, string-IsReadBack, counted-IsReadBack,
}
use elysiumkv.Version.Fields.Reads.{
  FitsU64, IsRecordable, IsRecordablePointer, IsRecordableRef, file-IsReadBack, pointer-IsReadBack,
  ref-IsReadBack,
}
use elysiumkv.Version.Edit.{
  max_manifest_bytes, edit_content, edit_of_content, appended, encode_version_edit,
  decode_version_edit, snapshot_content, snapshot_of_content, encode_version_snapshot,
  decode_version_snapshot,
}

pub record IsRecordableEdit (e : VersionEdit) : Type 0 where
  pub next_file_number : IsU64 e.next_file_number
  pub added : All IsRecordable e.added
  pub added_count : IsU64 (length e.added)
  pub deleted : All IsRecordableRef e.deleted
  pub deleted_count : IsU64 (length e.deleted)
  pub pointers : All IsRecordablePointer e.compaction_pointers
  pub pointers_count : IsU64 (length e.compaction_pointers)
  pub truncation_point : IsU64 (length e.truncation_point)
  pub floor : FitsU64 e.watermark_floor.position

pub record IsRecordableSnapshot (s : VersionSnapshot) : Type 0 where
  pub next_file_number : IsU64 s.next_file_number
  pub files : All IsRecordable s.files
  pub files_count : IsU64 (length s.files)
  pub pointers : All IsRecordablePointer s.compaction_pointers
  pub pointers_count : IsU64 (length s.compaction_pointers)
  pub truncation_point : IsU64 (length s.truncation_point)
  pub floor : FloorFits s.watermark_floor

module _ {A : Type 0} (P Q : A → Type 0) (step : (a : A) → P a → Q a) where
  All-map : (items : List A) → All P items → All Q items
  All-map [] h = h
  All-map (a ∷ items) (first, h) = (step a first, All-map items h)

files-IsReadBack :
    (fs : List FileMetadata)
    → IsU64 (length fs)
    → All IsRecordable fs
    → IsReadBack put_files get_files fs
unfolding put_files get_files
files-IsReadBack fs n h =
    counted-IsReadBack put_file get_file fs n (All-map _ _ file-IsReadBack fs h)

refs-IsReadBack :
    (rs : List FileRef)
    → IsU64 (length rs)
    → All IsRecordableRef rs
    → IsReadBack put_refs get_refs rs
unfolding put_refs get_refs
refs-IsReadBack rs n h = counted-IsReadBack _ _ rs n (All-map _ _ ref-IsReadBack rs h)

pointers-IsReadBack :
    (ps : List (ℕ × Bytes))
    → IsU64 (length ps)
    → All IsRecordablePointer ps
    → IsReadBack put_pointers get_pointers ps
unfolding put_pointers get_pointers
pointers-IsReadBack ps n h = counted-IsReadBack _ _ ps n (All-map _ _ pointer-IsReadBack ps h)

-- What decoding can give back of an edit: a floor is kept only where the edit sets one.
abbrev pub kept_edit : VersionEdit → VersionEdit
kept_edit e = record e { watermark_floor = kept_floor e.floor_update e.watermark_floor }

edit_of_content-edit_content :
    (e : VersionEdit) → IsRecordableEdit e → edit_of_content (edit_content e) ≡ value (kept_edit e)
unfolding edit_content edit_of_content
edit_of_content-edit_content e h =
    let r1 = varint64-IsReadBack e.next_file_number h.next_file_number in
    let r2 = files-IsReadBack e.added h.added_count h.added in
    let r3 = refs-IsReadBack e.deleted h.deleted_count h.deleted in
    let r4 = pointers-IsReadBack e.compaction_pointers h.pointers_count h.pointers in
    let r5 = string-IsReadBack e.truncation_point h.truncation_point in
    let (bytes, written, read) = floor_update_read e.floor_update e.watermark_floor h.floor in
    rw
      (
        put_varint32-groups [] 6 (omega arith),
        r1.written _,
        r2.written _,
        r3.written _,
        r4.written _,
        r5.written _,
        written _,
      )
      (simp append_assoc (
        rw
          (
            get_varint32-groups 6 _ (omega arith),
            r1.read _,
            r2.read _,
            r3.read _,
            r4.read _,
            r5.read _,
          )
          (rw (ap get_floor_update (sym (append-nil bytes)) ∙ read []))))

snapshot_of_content-snapshot_content :
    (s : VersionSnapshot)
    → IsRecordableSnapshot s
    → snapshot_of_content (snapshot_content s) ≡ value s
unfolding snapshot_content snapshot_of_content
snapshot_of_content-snapshot_content s h =
    let r1 = varint64-IsReadBack s.next_file_number h.next_file_number in
    let r2 = files-IsReadBack s.files h.files_count h.files in
    let r3 = pointers-IsReadBack s.compaction_pointers h.pointers_count h.pointers in
    let r4 = string-IsReadBack s.truncation_point h.truncation_point in
    let r5 = floor-IsReadBack s.watermark_floor h.floor in
    rw
      (
        put_varint32-groups [] 6 (omega arith),
        r1.written _,
        r2.written _,
        r3.written _,
        r4.written _,
        r5.written _,
      )
      (simp append_assoc (
        rw (get_varint32-groups 6 _ (omega arith), r1.read _, r2.read _, r3.read _, r4.read _)
          (rw (ap get_floor (sym (append-nil r5.bytes)) ∙ r5.read []))))

module _ (c : Codecs) where
  frame_zstd :
      (content packed : Bytes)
      → c.zstd_compress content ≡ some packed
      → length content < 2 ^ 32
      → (framed : Bytes) × (frame_block c content Compression.zstd [] ≡ value framed)
  unfolding frame_block pack
  frame_zstd content packed accepted fits = (
    trailer c (stored c Compression.zstd content packed).0
        (stored c Compression.zstd content packed).1 (length content),
    ground arith,
  )

  -- Decoding an encoded edit gives that edit, where its numbers and lengths fit their fields, its
  -- levels and watermarks are legal and its record is within the manifest's bound. The floor that
  -- an edit carries without setting one is not recorded.
  pub decode-encode_version_edit :
      (e : VersionEdit)
      → IsRecordableEdit e
      → length (edit_content e) ≤ max_manifest_bytes
      → decode_version_edit c (encode_version_edit c e) ≡ value (kept_edit e)
  unfolding encode_version_edit decode_version_edit
  decode-encode_version_edit e h bound =
      let (block, framed, unframed) =
        unframe_block-frame_none c (edit_content e) max_manifest_bytes (omega arith) bound in
      ap (λ t. decode_version_edit c (appended t)) framed
      ∙ rw unframed (edit_of_content-edit_content e h)

  -- Decoding an encoded snapshot gives that snapshot, where its numbers and lengths fit their
  -- fields, its levels and watermarks are legal, its content is within the manifest's bound, and
  -- Zstandard is lossless and accepts the content.
  pub decode-encode_version_snapshot :
      (s : VersionSnapshot) (packed : Bytes)
      → AreLossless c
      → c.zstd_compress (snapshot_content s) ≡ some packed
      → IsRecordableSnapshot s
      → length (snapshot_content s) ≤ max_manifest_bytes
      → decode_version_snapshot c (encode_version_snapshot c s) ≡ value s
  unfolding encode_version_snapshot decode_version_snapshot
  decode-encode_version_snapshot s packed ok accepted h bound =
      let (framed, made) = frame_zstd (snapshot_content s) packed accepted (omega arith) in
      let (block, same, unframed) =
        unframe_block-frame_block c (snapshot_content s) Compression.zstd [] framed
          max_manifest_bytes ok bound made in
      ap (λ t. decode_version_snapshot c (appended t)) (made ∙ ap value same)
      ∙ rw unframed (snapshot_of_content-snapshot_content s h)
