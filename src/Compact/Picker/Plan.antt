-- ===== src/Compact/Picker/Plan.antt =====
-- src/compact/picker.hpp and picker.cpp: the compaction of a chosen level, and what it is said to
-- write. A `Compaction` is without its `score` and
-- `triggered_by_density`, which only report the choice of the level.
use elysiumkv.Base.{
  ℕ, zero, suc, ◌+◌, ◌-◌, ◌*◌, ◌%◌, ◌^◌, Bool, true, false, not, ◌&&◌, ◌||◌, List, [], ◌∷◌, ◌++◌,
  Option, none, some, ltb, leb, ◌==◌, if◌then◌else◌, length, get_elem?,
}
use elysiumkv.Base.OptionBind.{◌>>=◌}
use elysiumkv.Slice.{Bytes, key_gt}
use elysiumkv.Version.Metadata.{FileMetadata, effective_smallest, effective_largest}
use elysiumkv.Version.Levels.{Version, files_at, overlapping_inclusive}
use elysiumkv.Version.Watermark.{WatermarkInterval, merge}
use elysiumkv.Db.LevelConfig.{ResolvedLevel}
use elysiumkv.Compact.Picker.{
  is_overlapping_level, widen_lower, widen_upper, bytes_in, transitive_overlap, trim_to_budget,
}

pub record Compaction : Type 0 where
  pub level : ℕ
  pub output_level : ℕ
  pub inputs : List FileMetadata
  pub overlaps : List FileMetadata
  pub grandparents : List FileMetadata
  pub output_is_bottommost : Bool
  pub trivial_move : Bool
  pub inputs_trimmed : Bool

unfoldable pub all_inputs : Compaction → List FileMetadata
all_inputs c = c.inputs ++ c.overlaps

oldest_write : ℕ → List FileMetadata → ℕ
oldest_write oldest [] = oldest
oldest_write oldest (f ∷ files) =
    oldest_write
      (if oldest == 0 || ltb f.min_write_time_ms oldest then f.min_write_time_ms else oldest) files

unfoldable pub min_write_time_ms : Compaction → ℕ
unfolding oldest_write
min_write_time_ms c = oldest_write 0 (all_inputs c)

unfoldable pub newest_write : ℕ → List FileMetadata → ℕ
newest_write newest [] = newest
newest_write newest (f ∷ files) =
    newest_write (if ltb newest f.max_write_time_ms then f.max_write_time_ms else newest) files

unfoldable pub max_write_time_ms : Compaction → ℕ
unfolding newest_write
max_write_time_ms c = newest_write 0 (all_inputs c)

unfoldable pub merge_inputs : WatermarkInterval → List FileMetadata → WatermarkInterval
merge_inputs merged [] = merged
merge_inputs merged (f ∷ files) = merge_inputs (merge merged f.watermark) files

-- The loop with its flag `first`: no file leaves the interval as it begins, empty.
unfoldable pub merged_watermark : List FileMetadata → WatermarkInterval
unfolding merge_inputs
merged_watermark [] = record { low = none; high = none }
merged_watermark (f ∷ files) = merge_inputs f.watermark files

unfoldable pub watermark : Compaction → WatermarkInterval
unfolding merged_watermark
watermark c = merged_watermark (all_inputs c)

unfoldable pub effective_hull : Compaction → Bytes × Bytes
effective_hull c = (widen_lower [] (all_inputs c), widen_upper [] (all_inputs c))

unfoldable pub input_bytes : Compaction → ℕ
input_bytes c = bytes_in (all_inputs c)

largest_from : Bytes → List FileMetadata → Bytes
largest_from largest [] = largest
largest_from largest (f ∷ files) =
    largest_from
      (if length largest == 0 || key_gt f.largest_key largest then f.largest_key else largest) files

unfoldable pub largest_key : Compaction → Bytes
unfolding largest_from
largest_key c = largest_from [] (all_inputs c)

unfoldable pub max_grandparent_overlap_bytes : ResolvedLevel → ℕ
max_grandparent_overlap_bytes output_level = output_level.target_file_bytes * 10 % 2 ^ 64

unfoldable pub no_files : List FileMetadata → Bool
no_files [] = true
no_files (f ∷ files) = false

-- The loop over the levels from `level`, with `n` to go.
unfoldable pub bottommost_from : ℕ → Version → ℕ → Bytes → Bytes → Bool
unfolding no_files
bottommost_from zero v level lower upper = true
bottommost_from (suc n) v level lower upper =
    no_files (overlapping_inclusive v level lower upper)
    && bottommost_from n v (suc level) lower upper

unfoldable pub is_bottommost_for_range : Version → ℕ → ℕ → Bytes → Bytes → Bool
unfolding bottommost_from
is_bottommost_for_range v output_level last_level lower upper =
    bottommost_from (last_level - output_level) v (suc output_level) lower upper

above_pointer : Bytes → List FileMetadata → Option FileMetadata
above_pointer pointer [] = none
above_pointer pointer (f ∷ files) =
    if length pointer == 0 || key_gt f.largest_key pointer
    then some f
    else above_pointer pointer files

or_front : Option FileMetadata → List FileMetadata → Option FileMetadata
or_front (some f) files = some f
or_front none [] = none
or_front none (f ∷ files) = some f

unfoldable pub seed_after_pointer : List FileMetadata → Bytes → Option FileMetadata
unfolding above_pointer or_front
seed_after_pointer files pointer = or_front (above_pointer pointer files) files

unfoldable pub lowest_from : FileMetadata → List FileMetadata → FileMetadata
lowest_from seed [] = seed
lowest_from seed (f ∷ files) =
    lowest_from (if ltb f.file_number seed.file_number then f else seed) files

-- A level that scores holds a file, so `files.front()` is there.
unfoldable pub oldest_seed : List FileMetadata → Option FileMetadata
unfolding lowest_from
oldest_seed [] = none
oldest_seed (f ∷ files) = some (lowest_from f files)

-- `compaction_pointers().find`, and the empty pointer where there is none.
pointer_at : List (ℕ × Bytes) → ℕ → Bytes
pointer_at [] level = []
pointer_at ((key, pointer) ∷ pointers) level =
    if key == level then pointer else pointer_at pointers level

unfoldable pub seed_of : Version → ℕ → ResolvedLevel → Option FileMetadata
unfolding pointer_at
seed_of v chosen source =
    if is_overlapping_level chosen source
    then oldest_seed (files_at v chosen)
    else seed_after_pointer (files_at v chosen) (pointer_at v.compaction_pointers chosen)

-- The inputs at the chosen level, and whether they were trimmed.
unfoldable pub inputs_of :
    Version → ℕ → ResolvedLevel → ℕ → FileMetadata → Option (List FileMetadata × Bool)
inputs_of v chosen source budget seed =
    if is_overlapping_level chosen source
    then (do
      found ← transitive_overlap v chosen (effective_smallest seed) (effective_largest seed)
      some (trim_to_budget found budget))
    else some (seed ∷ [], false)

-- `inputs.front()`, whose span the bounds start from.
unfoldable pub span_of : List FileMetadata → Bytes × Bytes
span_of [] = ([], [])
span_of (f ∷ files) =
    (widen_lower (effective_smallest f) (f ∷ files), widen_upper (effective_largest f) (f ∷ files))

-- Files of the source level within the output's range, where the overlaps stay the same and the
-- budget holds.
unfoldable pub expand :
    Version → ℕ → ResolvedLevel → ℕ → List FileMetadata → List FileMetadata → List FileMetadata
expand v chosen source budget inputs overlaps =
    let (lower, upper) = span_of inputs in
    let expanded_lower = widen_lower lower overlaps in
    let expanded_upper = widen_upper upper overlaps in
    let expanded = overlapping_inclusive v chosen expanded_lower expanded_upper in
    let reoverlap =
      overlapping_inclusive v (suc chosen) (widen_lower expanded_lower expanded)
        (widen_upper expanded_upper expanded) in
    if not (no_files overlaps)
      && not (is_overlapping_level chosen source)
      && (ltb (length inputs) (length expanded)
          && (leb (bytes_in expanded + bytes_in overlaps) budget
              && length reoverlap == length overlaps))
    then expanded
    else inputs

no_tombstones : List FileMetadata → Bool
no_tombstones [] = true
no_tombstones (f ∷ files) = f.num_tombstones == 0 && f.num_range_tombstones == 0

-- The compaction as it stands when the inputs and the overlaps are settled.
unfoldable pub with_inputs : ℕ → List FileMetadata → List FileMetadata → Bool → Compaction
with_inputs chosen inputs overlaps trimmed = record {
  level = chosen;
  output_level = suc chosen;
  inputs = inputs;
  overlaps = overlaps;
  grandparents = [];
  output_is_bottommost = false;
  trivial_move = false;
  inputs_trimmed = trimmed;
}

-- The questions about what the compaction writes.
unfoldable pub settle : Version → ℕ → ResolvedLevel → Compaction → Compaction
unfolding no_tombstones no_files
settle v last target c =
    let (lower, upper) = effective_hull c in
    let grandparents =
      if leb (suc c.output_level) last
      then overlapping_inclusive v (suc c.output_level) lower upper
      else [] in
    let bottommost = is_bottommost_for_range v c.output_level last lower upper in
    record c {
      grandparents = grandparents;
      output_is_bottommost = bottommost;
      trivial_move =
          length c.inputs == 1
          && (no_files c.overlaps
              && ((not bottommost || no_tombstones c.inputs)
                  && ltb (bytes_in grandparents) (max_grandparent_overlap_bytes target)));
    }

-- The part of `pick_compaction` that follows the choice of the level.
unfoldable pub compaction_at : Version → List ResolvedLevel → ℕ → ℕ → Option Compaction
compaction_at v levels budget chosen = do
  source ← get_elem? levels chosen
  target ← get_elem? levels (suc chosen)
  seed ← seed_of v chosen source
  (inputs, trimmed) ← inputs_of v chosen source budget seed
  let (lower, upper) = span_of inputs
  let overlaps = overlapping_inclusive v (suc chosen) lower upper
  let settled = expand v chosen source budget inputs overlaps
  some (settle v (length levels - 1) target (with_inputs chosen settled overlaps trimmed))
