-- ===== src/Sst/Concat/Examples.antt =====
-- The scan over a run of files at concrete inputs.
use elysiumkv.Base.{
  ℕ, zero, suc, ◌<◌, ◌≡◌, refl, Bool, true, false, [], ◌∷◌, none, arith, leb, ap, subst,
}
use elysiumkv.Status.{Status, Result, value, unexpected}
use elysiumkv.Sst.Codec.{Compression}
use elysiumkv.Sst.Iterator.{IsScan}
use elysiumkv.Sst.Sources.{Source, source, entry, memory, to_come, next-IsScan}
use elysiumkv.Version.Metadata.{FileMetadata}
use elysiumkv.Sst.Concat.{
  Concat, Run, is_ok, new_concat, open_at, seek_to_first, seek_to_last, seek, seek_for_prev,
  forward, land, leave, enter, on_inner, positioning_failed, valid, next, concat,
}
use elysiumkv.Sst.Concat.Joined
use elysiumkv.Sst.Concat.Joined.{whole}
use elysiumkv.Sst.Concat.Follow.{concat-seek_to_first}
use elysiumkv.Sst.Concat.Outcome.{Upwards, Downwards}
use elysiumkv.Sst.Concat.Errors.{first_reaching, first_above, concat_seeks-Outcome}

abbrev file : ℕ → FileMetadata
file number = record {
  level = 1;
  file_number = number;
  store_id = 115 ∷ [];
  smallest_key = number ∷ [];
  largest_key = number ∷ [];
  file_bytes = 4096;
  num_entries = 1;
  num_tombstones = 0;
  num_range_tombstones = 0;
  smallest_range_key = [];
  largest_range_key = [];
  compression = Compression.lz4;
  min_write_time_ms = 50;
  max_write_time_ms = 100;
  watermark = record { low = none; high = none };
  encryption_provider = [];
  encryption_metadata = [];
}

-- Each file holds one key, its number.
abbrev open_file : FileMetadata → Result Source
open_file f = value (source (entry (f.file_number ∷ []) (7 ∷ []) ∷ []))

abbrev files : Run Source
files = record { files = file 1 ∷ file 2 ∷ []; begin = 0; end = 2; open_file = open_file }

opens : (i : ℕ) → i < 2 → (s : Source) × (open_at memory files i ≡ value s)
unfolding open_at
opens zero h = (source (entry (1 ∷ []) (7 ∷ []) ∷ []), refl)
opens (suc zero) h = (source (entry (2 ∷ []) (7 ∷ []) ∷ []), refl)
opens (suc (suc i)) h = absurd (omega (arith, h))

concat-seek_to_first_example :
    IsScan (concat memory files) (next memory files) (Joined.to_come memory files to_come)
    × ((c : Concat Source)
        → Joined.to_come memory files to_come (seek_to_first memory files c)
          ≡ whole memory files to_come)
concat-seek_to_first_example =
    concat-seek_to_first memory files to_come next-IsScan opens (λ s h. refl) (omega arith)

-- The second file cannot be opened.
abbrev open_first : FileMetadata → Result Source
open_first f = elim (leb f.file_number 1) [
  | true ↦ value (source [])
  | false ↦ unexpected Status.io
]

abbrev broken : Run Source
broken = record files { open_file = open_first }

refused : (f : FileMetadata) (e : Status) → open_first f ≡ unexpected e → is_ok e ≡ false
refused f e = from (leb f.file_number 1)
  where
    status_or : Result Source → Status
    status_or (value s) = Status.io
    status_or (unexpected e) = e

    from :
        (b : Bool)
        → elim b [ true ↦ value (source []) | false ↦ unexpected Status.io ] ≡ unexpected e
        → is_ok e ≡ false
    from true h = absurd (ground (arith, h))
    from false h = subst (λ x. is_ok x ≡ false) (ap status_or h) refl

concat_seeks-Outcome_example :
    Upwards memory broken memory.seek_to_first 0 2
      (seek_to_first memory broken (new_concat memory broken))
    × Downwards memory broken memory.seek_to_last 0 2
        (seek_to_last memory broken (new_concat memory broken))
    × Upwards memory broken
        (memory.seek (2 ∷ []))
        (first_reaching memory broken (2 ∷ []))
        2
        (seek memory broken (2 ∷ []) (new_concat memory broken))
    × Downwards memory broken
        (memory.seek_for_prev (2 ∷ []))
        0
        (first_above memory broken (2 ∷ []))
        (seek_for_prev memory broken (2 ∷ []) (new_concat memory broken))
unfolding new_concat
concat_seeks-Outcome_example =
    concat_seeks-Outcome memory broken refused (new_concat memory broken) (2 ∷ []) refl
      (omega arith)

-- The first file is empty, and the second one's failure is reported.
second_reported : (seek_to_first memory broken (new_concat memory broken)).status ≡ Status.io
unfolding seek_to_first forward land leave enter open_at on_inner positioning_failed valid
    new_concat
second_reported = refl
