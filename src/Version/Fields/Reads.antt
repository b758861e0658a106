-- ===== src/Version/Fields/Reads.antt =====
-- What makes a file's metadata recordable, and that its record reads back.
use elysiumkv.Base.{
  ℕ, ◌≤◌, ◌≡◌, refl, false, ◌++◌, Option, none, some, ltb, length, arith, append_assoc,
}
use elysiumkv.Slice.{Bytes}
use elysiumkv.Version.Metadata.{FileMetadata, FileRef}
use elysiumkv.Version.Watermark.{WatermarkInterval}
use elysiumkv.Version.Fields.Append.{
  IsReadBack, IsU64, varint64-IsReadBack, level-IsReadBack, compression-IsReadBack,
  string-IsReadBack,
}
use elysiumkv.Version.Fields.{
  max_levels, value_or, presence_flags, put_watermark, ordered, interval_of, get_watermark,
  put_file, get_file, put_pointer, get_pointer, put_ref, get_ref,
}

abbrev pub FitsU64 : Option ℕ → Type 0
FitsU64 none = Unit {0}
FitsU64 (some v) = IsU64 v

-- A lower bound comes with an upper one that is not below it.
abbrev pub AreOrdered : Option ℕ → Option ℕ → Type 0
AreOrdered none high = Unit {0}
AreOrdered (some l) none = ⊥
AreOrdered (some l) (some h) = l ≤ h

pub record IsRecordableInterval (w : WatermarkInterval) : Type 0 where
  pub low : FitsU64 w.low
  pub high : FitsU64 w.high
  pub ordered : AreOrdered w.low w.high

pub record IsRecordable (f : FileMetadata) : Type 0 where
  pub level : f.level ≤ max_levels
  pub file_number : IsU64 f.file_number
  pub store_id : IsU64 (length f.store_id)
  pub smallest_key : IsU64 (length f.smallest_key)
  pub largest_key : IsU64 (length f.largest_key)
  pub file_bytes : IsU64 f.file_bytes
  pub num_entries : IsU64 f.num_entries
  pub num_tombstones : IsU64 f.num_tombstones
  pub num_range_tombstones : IsU64 f.num_range_tombstones
  pub smallest_range_key : IsU64 (length f.smallest_range_key)
  pub largest_range_key : IsU64 (length f.largest_range_key)
  pub min_write_time_ms : IsU64 f.min_write_time_ms
  pub max_write_time_ms : IsU64 f.max_write_time_ms
  pub watermark : IsRecordableInterval f.watermark
  pub encryption_provider : IsU64 (length f.encryption_provider)
  pub encryption_metadata : IsU64 (length f.encryption_metadata)

pub value_or-IsU64 : (o : Option ℕ) → FitsU64 o → IsU64 (value_or o 0)
value_or-IsU64 none h = omega arith
value_or-IsU64 (some v) h = h

presence_flags-le : (w : WatermarkInterval) → presence_flags w ≤ 3
unfolding presence_flags
presence_flags-le w = flags w.low w.high
  where
    flags : (l h : Option ℕ) → presence_flags (record { low = l; high = h }) ≤ 3
    flags none none = omega arith
    flags none (some h) = omega arith
    flags (some l) none = omega arith
    flags (some l) (some h) = omega arith

interval_of-presence_flags :
    (l h : Option ℕ)
    → AreOrdered l h
    → interval_of (presence_flags (record { low = l; high = h })) (value_or l 0) (value_or h 0)
      ≡ some (record { low = l; high = h })
unfolding interval_of presence_flags ordered
interval_of-presence_flags none none o = refl
interval_of-presence_flags none (some h) o = refl
interval_of-presence_flags (some l) none o = elim o [ ]
interval_of-presence_flags (some l) (some h) o = ground arith

pub watermark-IsReadBack :
    (w : WatermarkInterval) → IsRecordableInterval w → IsReadBack put_watermark get_watermark w
unfolding put_watermark get_watermark
watermark-IsReadBack w h =
    let flags = varint64-IsReadBack (presence_flags w) (omega (arith, presence_flags-le w)) in
    let low = varint64-IsReadBack (value_or w.low 0) (value_or-IsU64 w.low h.low) in
    let high = varint64-IsReadBack (value_or w.high 0) (value_or-IsU64 w.high h.high) in
    record {
      bytes = flags.bytes ++ (low.bytes ++ high.bytes);
      written = λ out. rw (flags.written out, low.written _, high.written _) (simp append_assoc);
      read = λ rest. simp append_assoc (
          rw (flags.read _, not_above, low.read _, high.read _)
            (rw (interval_of-presence_flags w.low w.high h.ordered)));
    }
  where
    not_above : ltb 3 (presence_flags w) ≡ false
    not_above = ground (arith, presence_flags-le w)

-- The record of a recordable file reads back as that file, whatever follows it.
pub file-IsReadBack : (f : FileMetadata) → IsRecordable f → IsReadBack put_file get_file f
unfolding put_file get_file
file-IsReadBack f h =
    let r1 = level-IsReadBack f.level h.level in
    let r2 = varint64-IsReadBack f.file_number h.file_number in
    let r3 = string-IsReadBack f.store_id h.store_id in
    let r4 = string-IsReadBack f.smallest_key h.smallest_key in
    let r5 = string-IsReadBack f.largest_key h.largest_key in
    let r6 = varint64-IsReadBack f.file_bytes h.file_bytes in
    let r7 = varint64-IsReadBack f.num_entries h.num_entries in
    let r8 = varint64-IsReadBack f.num_tombstones h.num_tombstones in
    let r9 = varint64-IsReadBack f.num_range_tombstones h.num_range_tombstones in
    let r10 = string-IsReadBack f.smallest_range_key h.smallest_range_key in
    let r11 = string-IsReadBack f.largest_range_key h.largest_range_key in
    let r12 = compression-IsReadBack f.compression in
    let r13 = varint64-IsReadBack f.min_write_time_ms h.min_write_time_ms in
    let r14 = varint64-IsReadBack f.max_write_time_ms h.max_write_time_ms in
    let r15 = watermark-IsReadBack f.watermark h.watermark in
    let r16 = string-IsReadBack f.encryption_provider h.encryption_provider in
    let r17 = string-IsReadBack f.encryption_metadata h.encryption_metadata in
    record {
      bytes =
          r1.bytes
          ++ (r2.bytes
              ++ (r3.bytes
                  ++ (r4.bytes
                      ++ (r5.bytes
                          ++ (r6.bytes
                              ++ (r7.bytes
                                  ++ (r8.bytes
                                      ++ (r9.bytes
                                          ++ (r10.bytes
                                              ++ (r11.bytes
                                                  ++ (r12.bytes
                                                      ++ (r13.bytes
                                                          ++ (r14.bytes
                                                            ++ (r15.bytes
                                                            ++ (r16.bytes
                                                            ++ r17.bytes)))))))))))))));
      written = λ out.
          rw
            (
              r1.written out,
              r2.written _,
              r3.written _,
              r4.written _,
              r5.written _,
              r6.written _,
              r7.written _,
              r8.written _,
              r9.written _,
              r10.written _,
              r11.written _,
              r12.written _,
              r13.written _,
              r14.written _,
              r15.written _,
              r16.written _,
              r17.written _,
            )
            (simp append_assoc);
      read = λ rest. simp append_assoc (
          rw (
            r1.read _,
            r2.read _,
            r3.read _,
            r4.read _,
            r5.read _,
            r6.read _,
            r7.read _,
            r8.read _,
            r9.read _,
            r10.read _,
            r11.read _,
            r12.read _,
            r13.read _,
            r14.read _,
            r15.read _,
            r16.read _,
            r17.read _,
          ));
    }

abbrev pub IsRecordablePointer : ℕ × Bytes → Type 0
IsRecordablePointer (level, key) = (level ≤ max_levels) × IsU64 (length key)

pub pointer-IsReadBack :
    (p : ℕ × Bytes) → IsRecordablePointer p → IsReadBack put_pointer get_pointer p
unfolding put_pointer get_pointer
pointer-IsReadBack (level, key) h =
    let r1 = level-IsReadBack level h.0 in
    let r2 = string-IsReadBack key h.1 in
    record {
      bytes = r1.bytes ++ r2.bytes;
      written = λ out. rw (r1.written out, r2.written _) (simp append_assoc);
      read = λ rest. simp append_assoc (rw (r1.read _, r2.read _));
    }

abbrev pub IsRecordableRef : FileRef → Type 0
IsRecordableRef r = (r.level ≤ max_levels) × IsU64 r.file_number

pub ref-IsReadBack : (r : FileRef) → IsRecordableRef r → IsReadBack put_ref get_ref r
unfolding put_ref get_ref
ref-IsReadBack r h =
    let r1 = level-IsReadBack r.level h.0 in
    let r2 = varint64-IsReadBack r.file_number h.1 in
    record {
      bytes = r1.bytes ++ r2.bytes;
      written = λ out. rw (r1.written out, r2.written _) (simp append_assoc);
      read = λ rest. simp append_assoc (rw (r1.read _, r2.read _));
    }
