-- ===== src/Version/Examples/Files.antt =====
-- The theorems on versions and watermarks at concrete inputs.
use elysiumkv.Base.{
  ◌≡◌, refl, ◌≤◌, ◌<◌, Bool, true, false, not, List, [], ◌∷◌, some, ◌&&◌, ◌||◌, any, Member, here,
  there, ltb,
}
use elysiumkv.Slice.{key_lt, key_le, three_way, shorter, sign_of_common, then_sizes, memcmp}
use elysiumkv.Version.Watermark.{nothing_observed, resume_after}
use elysiumkv.Version.Watermark.Recovery.{Observation, observe_all, resume_after-observe_all}
use elysiumkv.Version.Metadata.{FileMetadata, effective_largest, max_key}
use elysiumkv.Version.Levels.{
  has_ranges, all_files, concat_levels, truncated, files_entirely_truncated, files_expired_before,
  is_expired, older_file_overlaps, older_and_meets, range_drop_candidates, RangeDropCandidate,
  scan_levels, level_overlaps, span_range, leading, candidates_among, candidate_of, first_cover,
  is_newer, hull_covers,
}
use elysiumkv.Version.Levels.Older.{AreLevelsFrom, older_file_overlaps-scan}
use elysiumkv.Version.Levels.Drops.{
  IsSoundDrop, files_entirely_truncated_dead, files_expired_before_safe,
  range_drop_candidates-IsSoundDrop,
}
use elysiumkv.Version.Apply.{apply}
use elysiumkv.Version.Apply.Added.{AtOwnLevels, is_deleted}
use elysiumkv.Version.Apply.Contents.{some_file-apply, apply-AtOwnLevels}
use elysiumkv.Version.Apply.Monotone.{IsLater, apply-IsLater}
use elysiumkv.Version.Examples.{newer, deep, covering, version, edit}

version-AtOwnLevels : AtOwnLevels 0 version.levels
version-AtOwnLevels = ((refl, (refl, tt)), ((refl, (refl, tt)), tt))

abbrev large : FileMetadata → Bool
large f = ltb 5 f.file_number

some_file-apply_example : any large (all_files (apply version edit)) ≡ (
    any large edit.added
    || any (λ f. large f && not (is_deleted edit.deleted f)) (all_files version))
some_file-apply_example = some_file-apply large version edit version-AtOwnLevels

apply-AtOwnLevels_example : AtOwnLevels 0 (apply version edit).levels
apply-AtOwnLevels_example = apply-AtOwnLevels version edit version-AtOwnLevels

apply-IsLater_example : IsLater version (apply version edit) edit
apply-IsLater_example = apply-IsLater version edit

version-AreLevelsFrom : AreLevelsFrom 0 version.levels
unfolding key_lt three_way shorter sign_of_common then_sizes memcmp
version-AreLevelsFrom =
    ((refl, (refl, tt)), tt, ((refl, (refl, tt)), (refl, (refl, tt), (refl, tt, tt)), tt))

older_file_overlaps-scan_example :
    older_file_overlaps version newer ≡ any (older_and_meets newer) (all_files version)
older_file_overlaps-scan_example = older_file_overlaps-scan version newer version-AreLevelsFrom

abbrev observations : List Observation
observations =
    Observation.survivor (record { low = some 1; high = some 7 })
    ∷ Observation.discarded (record { low = some 5; high = some 9 })
    ∷ Observation.discarded (record { low = some 3; high = some 4 })
    ∷ []

resume_after-observe_all_example : resume_after (observe_all nothing_observed observations) ≡ some 3
resume_after-observe_all_example = resume_after-observe_all observations

newer_expired : Member newer (files_expired_before version 200)
unfolding files_expired_before is_expired has_ranges older_file_overlaps scan_levels level_overlaps
    older_and_meets span_range leading concat_levels key_lt three_way shorter sign_of_common
    then_sizes memcmp
newer_expired = here

deep_held : Member deep (all_files version)
unfolding all_files concat_levels
deep_held = there (there here)

files_expired_before_safe_example :
    (0 < newer.max_write_time_ms)
    × (newer.max_write_time_ms ≤ 200)
    × (newer.num_range_tombstones ≡ 0)
    × (older_and_meets newer deep ≡ false)
files_expired_before_safe_example =
    files_expired_before_safe version 200 newer deep version-AreLevelsFrom newer_expired deep_held

newer_truncated : Member newer (files_entirely_truncated version)
unfolding files_entirely_truncated concat_levels effective_largest max_key key_lt three_way shorter
    sign_of_common then_sizes memcmp
newer_truncated = here

three_within : key_lt (effective_largest newer) (3 ∷ []) ≡ false
unfolding effective_largest key_lt three_way shorter sign_of_common then_sizes memcmp
three_within = refl

files_entirely_truncated_dead_example : truncated version (3 ∷ []) ≡ true
files_entirely_truncated_dead_example =
    files_entirely_truncated_dead version newer (3 ∷ []) newer_truncated three_within

abbrev candidate : RangeDropCandidate
candidate = record { file = deep; cover = covering; exact = true }

deep_covered : Member candidate (range_drop_candidates version)
unfolding range_drop_candidates candidates_among candidate_of first_cover has_ranges is_newer
    hull_covers concat_levels key_le key_lt three_way shorter sign_of_common then_sizes memcmp
deep_covered = here

range_drop_candidates-IsSoundDrop_example : IsSoundDrop version candidate
range_drop_candidates-IsSoundDrop_example =
    range_drop_candidates-IsSoundDrop version candidate deep_covered
