-- ===== src/Version/Levels.antt =====
-- src/version/version.hpp and version.cpp: the files of a version by level, and the questions that
-- reads, compaction and maintenance ask of them.
pub mod Window
pub mod Older
pub mod Drops
use elysiumkv.Base.{
  ℕ, zero, suc, ◌+◌, ◌-◌, Bool, true, false, not, ◌&&◌, ◌||◌, List, [], ◌∷◌, ◌++◌, Option, none,
  some, ltb, leb, ◌==◌, if◌then◌else◌, length, get_or, take, drop, keep, any,
}
use elysiumkv.Slice.{Bytes, key_lt, key_le}
use elysiumkv.Version.Metadata.{FileMetadata, effective_smallest, effective_largest}
use elysiumkv.Version.Watermark.{WatermarkFloor}

pub record Version : Type 0 where
  pub levels : List (List FileMetadata)
  pub carries_ranges : List Bool
  pub next_file_number : ℕ
  pub compaction_pointers : List (ℕ × Bytes)
  pub truncation_point : Bytes
  pub watermark_floor : Option WatermarkFloor

unfoldable pub has_ranges : FileMetadata → Bool
has_ranges f = not (f.num_range_tombstones == 0)

-- The constructor's loop over the levels.
unfoldable pub carried : List (List FileMetadata) → List Bool
unfolding has_ranges
carried [] = []
carried (files ∷ levels) = any has_ranges files ∷ carried levels

unfoldable pub new_version :
    List (List FileMetadata) → ℕ → List (ℕ × Bytes) → Bytes → Option WatermarkFloor → Version
new_version levels next pointers point floor = record {
  levels = levels;
  carries_ranges = carried levels;
  next_file_number = next;
  compaction_pointers = pointers;
  truncation_point = point;
  watermark_floor = floor;
}

unfoldable pub carries_ranges : Version → ℕ → Bool
carries_ranges v level = get_or v.carries_ranges level false

unfoldable pub files_at : Version → ℕ → List FileMetadata
files_at v level = get_or v.levels level []

-- The sum of the loop, in `uint64_t`; a store does not hold 2^64 bytes.
sum_bytes : List FileMetadata → ℕ
sum_bytes [] = 0
sum_bytes (f ∷ files) = f.file_bytes + sum_bytes files

unfoldable pub total_bytes : Version → ℕ → ℕ
unfolding sum_bytes files_at
total_bytes v level = sum_bytes (files_at v level)

unfoldable pub file_count : Version → ℕ → ℕ
unfolding files_at
file_count v level = length (files_at v level)

oldest_from : ℕ → List FileMetadata → ℕ
oldest_from oldest [] = oldest
oldest_from oldest (f ∷ files) =
    oldest_from
      (if oldest == 0 || ltb f.min_write_time_ms oldest then f.min_write_time_ms else oldest) files

unfoldable pub oldest_write_time_ms : Version → ℕ → ℕ
unfolding oldest_from files_at
oldest_write_time_ms v level = oldest_from 0 (files_at v level)

-- An empty upper bound is unbounded.
unfoldable pub ends_before : Bytes → Bytes → Bool
ends_before upper key = not (length upper == 0) && key_le upper key

unfoldable pub overlaps_half_open : Bytes → Bytes → FileMetadata → Bool
unfolding ends_before has_ranges
overlaps_half_open lower upper f =
    let data_overlaps =
      not (key_lt f.largest_key lower) && not (ends_before upper f.smallest_key) in
    let ranges_overlap =
      has_ranges f
      && (not (key_le f.largest_range_key lower) && not (ends_before upper f.smallest_range_key)) in
    data_overlaps || ranges_overlap

unfoldable pub overlapping_half_open : Version → ℕ → Bytes → Bytes → List FileMetadata
unfolding files_at
overlapping_half_open v level lower upper = keep (overlaps_half_open lower upper) (files_at v level)

-- `std::lower_bound` and `std::upper_bound` on a sequence that the test partitions: how many
-- elements pass before the first that does not.
unfoldable pub leading {ℓ} : {A : Type ℓ} → (A → Bool) → List A → ℕ
leading p [] = 0
leading p (x ∷ xs) = if p x then suc (leading p xs) else 0

unfoldable pub overlapping_index_range : Version → ℕ → Bytes → Bytes → ℕ × ℕ
unfolding files_at leading
overlapping_index_range v level lower upper =
    let files = files_at v level in
    let begin = leading (λ f. key_lt f.largest_key lower) files in
    let end =
      if length upper == 0
      then length files
      else begin + leading (λ f. key_lt f.smallest_key upper) (drop begin files) in
    (begin, end)

holds : Bytes → Bytes → FileMetadata → Bool
holds lower upper f =
    not (f.num_entries == 0)
    && (not (key_lt f.largest_key lower)
        && not (not (length upper == 0) && not (key_lt f.smallest_key upper)))

unfoldable pub any_file_holds : Version → Bytes → Bytes → Bool
unfolding holds
any_file_holds v lower upper =
    if not (length upper == 0) && not (key_lt lower upper)
    then false
    else any (λ files. any (holds lower upper) files) v.levels

unfoldable pub overlaps_inclusive : Bytes → Bytes → FileMetadata → Bool
overlaps_inclusive first last f =
    not (key_lt (effective_largest f) first) && not (key_lt last (effective_smallest f))

unfoldable pub overlapping_inclusive : Version → ℕ → Bytes → Bytes → List FileMetadata
unfolding files_at
overlapping_inclusive v level first last = keep (overlaps_inclusive first last) (files_at v level)

unfoldable pub concat_levels : List (List FileMetadata) → List FileMetadata
concat_levels [] = []
concat_levels (files ∷ levels) = files ++ concat_levels levels

unfoldable pub all_files : Version → List FileMetadata
unfolding concat_levels
all_files v = concat_levels v.levels

unfoldable pub truncated : Version → Bytes → Bool
truncated v key = not (length v.truncation_point == 0) && key_lt key v.truncation_point

unfoldable pub files_entirely_truncated : Version → List FileMetadata
unfolding concat_levels
files_entirely_truncated v =
    if length v.truncation_point == 0
    then []
    else keep (λ f. key_lt (effective_largest f) v.truncation_point) (concat_levels v.levels)

-- Strictly newer in the one order of files: a shallower level, or the same level and a higher number.
unfoldable pub is_newer : FileMetadata → FileMetadata → Bool
is_newer a b = ltb a.level b.level || (a.level == b.level && ltb b.file_number a.file_number)

unfoldable pub hull_covers : FileMetadata → FileMetadata → Bool
hull_covers cover f =
    key_le cover.smallest_range_key f.smallest_key && key_lt f.largest_key cover.largest_range_key

pub record RangeDropCandidate : Type 0 where
  pub file : FileMetadata
  pub cover : FileMetadata
  pub exact : Bool

-- The first cover that is newer and spans the file, for the `break`.
unfoldable pub first_cover : FileMetadata → List FileMetadata → Option FileMetadata
first_cover f [] = none
first_cover f (cover ∷ covers) =
    if is_newer cover f && hull_covers cover f then some cover else first_cover f covers

unfoldable pub candidate_of : FileMetadata → Option FileMetadata → List RangeDropCandidate
candidate_of f none = []
candidate_of f (some cover) =
    record { file = f; cover = cover; exact = cover.num_range_tombstones == 1 } ∷ []

unfoldable pub candidates_among : List FileMetadata → List FileMetadata → List RangeDropCandidate
candidates_among covers [] = []
candidates_among covers (f ∷ files) =
    (if has_ranges f || f.num_entries == 0 then [] else candidate_of f (first_cover f covers))
    ++ candidates_among covers files

unfoldable pub range_drop_candidates : Version → List RangeDropCandidate
unfolding first_cover candidate_of candidates_among has_ranges concat_levels
range_drop_candidates v =
    let files = concat_levels v.levels in candidates_among (keep has_ranges files) files

-- The run of files of a sorted level that the closed span reaches.
unfoldable pub span_range : List FileMetadata → Bytes → Bytes → ℕ × ℕ
unfolding leading
span_range files first last =
    let begin = leading (λ f. key_lt f.largest_key first) files in
    let end = leading (λ f. not (key_lt last f.smallest_key)) files in
    if ltb end begin then (begin, begin) else (begin, end)

unfoldable pub data_span_index_range : Version → ℕ → Bytes → Bytes → ℕ × ℕ
data_span_index_range v level first last = span_range (files_at v level) first last

-- The body of the inner loop of `older_file_overlaps`: an older file whose span meets the file's.
unfoldable pub older_and_meets : FileMetadata → FileMetadata → Bool
older_and_meets f other =
    (ltb f.level other.level || (other.level == f.level && ltb other.file_number f.file_number))
    && (not (key_lt other.largest_key f.smallest_key)
        && not (key_lt f.largest_key other.smallest_key))

-- The files at the indices from `begin` up to `end`.
abbrev pub between {ℓ} : {A : Type ℓ} → ℕ × ℕ → List A → List A
between (begin, end) xs = take (end - begin) (drop begin xs)

unfoldable pub level_overlaps : ℕ → List FileMetadata → FileMetadata → Bool
level_overlaps level others f = any (older_and_meets f) (
    between
      (if ltb 0 level then span_range others f.smallest_key f.largest_key else (0, length others))
      others)

-- The loop over the levels from `level` on.
unfoldable pub scan_levels : ℕ → List (List FileMetadata) → FileMetadata → Bool
unfolding level_overlaps
scan_levels level [] f = false
scan_levels level (others ∷ deeper) f =
    level_overlaps level others f || scan_levels (suc level) deeper f

unfoldable pub older_file_overlaps : Version → FileMetadata → Bool
unfolding scan_levels
older_file_overlaps v f = scan_levels f.level (drop f.level v.levels) f

unfoldable pub is_expired : Version → ℕ → FileMetadata → Bool
is_expired v cutoff f =
    not (f.max_write_time_ms == 0)
    && (leb f.max_write_time_ms cutoff && (not (has_ranges f) && not (older_file_overlaps v f)))

unfoldable pub files_expired_before : Version → ℕ → List FileMetadata
files_expired_before v cutoff = keep (is_expired v cutoff) (concat_levels v.levels)
