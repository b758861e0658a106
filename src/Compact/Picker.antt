-- ===== src/Compact/Picker.antt =====
-- src/compact/picker.hpp and picker.cpp: which files a compaction of a level rewrites. The choice of
-- the level, by scores in floating point, is not modelled: the level is an argument.
pub mod Plan
pub mod Hull
pub mod Closure
pub mod Picked
pub mod Recency
pub mod Bottom
pub mod Inherited
pub mod Trim
mod Examples
use elysiumkv.Base.{
  ℕ, zero, suc, ◌+◌, ◌*◌, ◌%◌, ◌^◌, Bool, true, false, not, ◌&&◌, ◌||◌, List, [], ◌∷◌, ◌++◌, Option,
  none, some, ltb, leb, ◌==◌, if◌then◌else◌, length, keep, any, map, get_elem?,
}
use elysiumkv.Base.Sort.{sort_by}
use elysiumkv.Slice.{Bytes, key_lt, key_gt, key_eq}
use elysiumkv.Version.Metadata.{FileMetadata, effective_smallest, effective_largest}
use elysiumkv.Version.Levels.{Version, files_at, overlapping_inclusive}
use elysiumkv.Version.Watermark.{WatermarkInterval, merge}
use elysiumkv.Db.LevelConfig.{ResolvedLevel}

has_limit : Option ℕ → Bool
has_limit none = false
has_limit (some n) = true

unfoldable pub is_overlapping_level : ℕ → ResolvedLevel → Bool
unfolding has_limit
is_overlapping_level level config = level == 0 || has_limit config.max_files

-- An empty bound counts as one that is not set yet.
unfoldable pub widen_lower : Bytes → List FileMetadata → Bytes
widen_lower lower [] = lower
widen_lower lower (f ∷ files) =
    widen_lower
      (if length lower == 0 || key_lt (effective_smallest f) lower
        then effective_smallest f
        else lower)
      files

unfoldable pub widen_upper : Bytes → List FileMetadata → Bytes
widen_upper upper [] = upper
widen_upper upper (f ∷ files) =
    widen_upper
      (if length upper == 0 || key_gt (effective_largest f) upper
        then effective_largest f
        else upper)
      files

-- The sum of the loop, in `uint64_t`; the files of a compaction do not hold 2^64 bytes.
unfoldable pub bytes_in : List FileMetadata → ℕ
bytes_in [] = 0
bytes_in (f ∷ files) = f.file_bytes + bytes_in files

-- The loop of `transitive_overlap`, on fuel: none where the fuel runs out.
unfoldable pub overlap_from :
    ℕ → Version → ℕ → Bytes → Bytes → List FileMetadata → Option (List FileMetadata)
unfolding widen_lower widen_upper
overlap_from zero v level lower upper selected = none
overlap_from (suc fuel) v level lower upper selected =
    let found = overlapping_inclusive v level lower upper in
    let widened_lower = widen_lower lower found in
    let widened_upper = widen_upper upper found in
    let rest = overlap_from fuel v level widened_lower widened_upper found in
    if length found == length selected
    then some found
    else if key_eq widened_lower lower && key_eq widened_upper upper
    then some found
    else rest

-- Each round but the last finds a file more.
unfoldable pub transitive_overlap : Version → ℕ → Bytes → Bytes → Option (List FileMetadata)
unfolding overlap_from
transitive_overlap v level lower upper =
    overlap_from (suc (length (files_at v level))) v level lower upper []

-- The size of the first file with the number (`std::find_if`).
unfoldable pub bytes_of : List FileMetadata → ℕ → ℕ
bytes_of [] number = 0
bytes_of (f ∷ files) number =
    if f.file_number == number then f.file_bytes else bytes_of files number

abbrev pub contains : List ℕ → ℕ → Bool
contains numbers n = any (λ k. k == n) numbers

-- The loop over the numbers by age, with the set `keep` and its bytes so far.
unfoldable pub keep_oldest : List FileMetadata → ℕ → List ℕ → List ℕ → ℕ → List ℕ
unfolding bytes_of
keep_oldest inputs budget [] kept bytes = kept
keep_oldest inputs budget (n ∷ by_age) kept bytes =
    let more = bytes + bytes_of inputs n in
    let rest = keep_oldest inputs budget by_age (n ∷ kept) more in
    if not (length kept == 0) && ltb budget more then kept else rest

unfoldable pub oldest_kept : List FileMetadata → ℕ → List ℕ
unfolding keep_oldest sort_by
oldest_kept inputs budget =
    keep_oldest inputs budget (sort_by ltb (map (λ f. f.file_number) inputs)) [] 0

-- The inputs that stay, and whether anything was cut.
unfoldable pub trim_to_budget : List FileMetadata → ℕ → List FileMetadata × Bool
unfolding oldest_kept bytes_in
trim_to_budget inputs budget =
    if budget == 0 || leb (bytes_in inputs) budget
    then (inputs, false)
    else (keep (λ f. contains (oldest_kept inputs budget) f.file_number) inputs, true)
