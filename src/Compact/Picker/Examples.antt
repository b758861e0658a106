-- ===== src/Compact/Picker/Examples.antt =====
-- The compaction of an overlapping level at concrete files.
use elysiumkv.Base.{
  ◌≡◌, refl, arith, ℕ, ◌<◌, ◌≤◌, true, false, List, [], ◌∷◌, some, none, All, Member, here,
}
use elysiumkv.Slice.{
  Bytes, key_lt, key_gt, key_eq, three_way, shorter, sign_of_common, then_sizes, memcmp,
}
use elysiumkv.Sst.Codec.{Compression}
use elysiumkv.Base.Sort.{sort_by}
use elysiumkv.Version.Metadata.{FileMetadata, effective_smallest, effective_largest}
use elysiumkv.Version.Levels.{
  Version, new_version, files_at, overlapping_inclusive, overlaps_inclusive,
}
use elysiumkv.Db.LevelConfig.{ResolvedLevel, default_options, resolved_level}
use elysiumkv.Compact.Picker.{
  is_overlapping_level, transitive_overlap, trim_to_budget, bytes_in, oldest_kept, widen_lower,
  widen_upper, overlap_from, keep_oldest, bytes_of,
}
use elysiumkv.Compact.Picker.Plan.{
  Compaction, watermark, max_write_time_ms, all_inputs, seed_of, inputs_of, span_of, expand, settle,
  with_inputs, compaction_at, oldest_seed, lowest_from, effective_hull, is_bottommost_for_range,
  bottommost_from, no_files, max_grandparent_overlap_bytes,
}
use elysiumkv.Compact.Picker.Hull.{IsKeyed}
use elysiumkv.Compact.Picker.Closure.{IsTransitive, transitive_overlap_closed}
use elysiumkv.Compact.Picker.Recency.{compaction_at_left}
use elysiumkv.Version.Watermark.Merge.{Contains}
use elysiumkv.Compact.Picker.Inherited.{compaction_inherits}
use elysiumkv.Compact.Picker.Bottom.{compaction_at_bottommost}

abbrev file : ℕ → ℕ → Bytes → Bytes → FileMetadata
file level number smallest largest = record {
  level = level;
  file_number = number;
  store_id = [];
  smallest_key = smallest;
  largest_key = largest;
  file_bytes = 10;
  num_entries = 2;
  num_tombstones = 1;
  num_range_tombstones = 0;
  smallest_range_key = [];
  largest_range_key = [];
  compression = Compression.none;
  min_write_time_ms = 1;
  max_write_time_ms = 2;
  watermark = record { low = none; high = none };
  encryption_provider = [];
  encryption_metadata = [];
}

abbrev third : FileMetadata
third = file 0 6 (2 ∷ []) (5 ∷ [])

abbrev second : FileMetadata
second = file 0 5 (4 ∷ []) (8 ∷ [])

abbrev first : FileMetadata
first = file 0 4 (7 ∷ []) (9 ∷ [])

abbrev below : FileMetadata
below = file 1 2 (5 ∷ []) (6 ∷ [])

abbrev deepest : FileMetadata
deepest = file 2 1 (20 ∷ []) (30 ∷ [])

abbrev version : Version
version =
    new_version ((third ∷ second ∷ first ∷ []) ∷ (below ∷ []) ∷ (deepest ∷ []) ∷ []) 7 [] [] none

abbrev configured : List ResolvedLevel
configured =
    resolved_level 0 default_options
    ∷ resolved_level 1 default_options
    ∷ resolved_level 2 default_options
    ∷ []

abbrev chosen : Compaction
chosen = record {
  level = 0;
  output_level = 1;
  inputs = second ∷ first ∷ [];
  overlaps = below ∷ [];
  grandparents = [];
  output_is_bottommost = true;
  trivial_move = false;
  inputs_trimmed = true;
}

keyed : All IsKeyed (files_at version 0)
unfolding effective_smallest files_at new_version
keyed = (refl, (refl, (refl, tt)))

compaction_at_version : compaction_at version configured 25 0 ≡ some chosen
unfolding compaction_at is_overlapping_level transitive_overlap trim_to_budget bytes_in oldest_kept
    widen_lower widen_upper overlap_from keep_oldest bytes_of all_inputs seed_of inputs_of span_of
    expand settle with_inputs oldest_seed lowest_from effective_hull is_bottommost_for_range
    bottommost_from no_files max_grandparent_overlap_bytes key_lt key_gt key_eq three_way shorter
    sign_of_common then_sizes memcmp sort_by effective_smallest effective_largest new_version
    files_at overlapping_inclusive overlaps_inclusive
compaction_at_version = refl

second_meets_third :
    overlaps_inclusive (effective_smallest second) (effective_largest second) third ≡ true
unfolding overlaps_inclusive effective_smallest effective_largest key_lt three_way shorter
    sign_of_common then_sizes memcmp
second_meets_third = refl

zero_IsOverlapping : is_overlapping_level 0 (resolved_level 0 default_options) ≡ true
unfolding is_overlapping_level
zero_IsOverlapping = refl

third_at_zero : Member third (files_at version 0)
unfolding files_at new_version
third_at_zero = here

compaction_at_left_example : second.file_number < third.file_number
compaction_at_left_example =
    compaction_at_left version configured 25 0 (resolved_level 0 default_options) chosen
      compaction_at_version refl zero_IsOverlapping keyed second third here third_at_zero
      second_meets_third refl

written-IsKeyed : All IsKeyed (all_inputs chosen)
unfolding effective_smallest all_inputs
written-IsKeyed = (refl, (refl, (refl, tt)))

second_written : Member second (all_inputs chosen)
unfolding all_inputs
second_written = here

deepest_at_two : Member deepest (files_at version 2)
unfolding files_at new_version
deepest_at_two = here

compaction_at_bottommost_example :
    overlaps_inclusive (effective_smallest second) (effective_largest second) deepest ≡ false
compaction_at_bottommost_example =
    compaction_at_bottommost version configured 25 0 chosen compaction_at_version written-IsKeyed
      refl second deepest 2 second_written (omega arith) (omega arith) deepest_at_two

transitive_overlap_closed_example :
    (found : List FileMetadata) × ((transitive_overlap version 0 (7 ∷ []) (9 ∷ []) ≡ some found)
      × IsTransitive version 0 found)
transitive_overlap_closed_example = transitive_overlap_closed version 0 (7 ∷ []) (9 ∷ []) keyed refl

-- A hull that has the empty key loses it to the next file, since an empty bound is taken for one
-- that is not set.
empty_key_lost : widen_lower [] (file 0 2 [] (1 ∷ []) ∷ file 0 1 (4 ∷ []) (5 ∷ []) ∷ []) ≡ 4 ∷ []
unfolding widen_lower effective_smallest key_lt three_way shorter sign_of_common then_sizes memcmp
empty_key_lost = refl

compaction_inherits_example :
    Contains (watermark chosen) second.watermark
    × (second.max_write_time_ms ≤ max_write_time_ms chosen)
compaction_inherits_example = compaction_inherits chosen second second_written
