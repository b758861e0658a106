-- ===== src/Version/Levels/Older.antt =====
-- The search for an older file that overlaps gives the answer of a scan of the whole store.
use elysiumkv.Base.{
  ℕ, zero, suc, ◌+◌, ◌-◌, ◌<◌, true, false, ◌≡◌, refl, ap, ◌∙◌, List, [], ◌∷◌, ltb, length, drop,
  any, any-append, All, arith,
}
use elysiumkv.Version.Metadata.{FileMetadata}
use elysiumkv.Version.Levels.{
  Version, older_and_meets, level_overlaps, scan_levels, older_file_overlaps, concat_levels,
  all_files,
}
use elysiumkv.Version.Levels.Window.{IsRun, any-between-span_range, take_length}

-- Level 0 may hold files that overlap; every deeper level is a sorted run.
abbrev IsRunAt : ℕ → List FileMetadata → Type 0
IsRunAt zero files = Unit {0}
IsRunAt (suc n) files = IsRun files

-- Each file of level `n` and of those after it stands at its own level.
abbrev pub AreLevelsFrom : ℕ → List (List FileMetadata) → Type 0
AreLevelsFrom n [] = Unit {0}
AreLevelsFrom n (files ∷ deeper) =
    All (λ f. f.level ≡ n) files × IsRunAt n files × AreLevelsFrom (suc n) deeper

module _ (f : FileMetadata) where
  level_overlaps-any :
      (n : ℕ) (files : List FileMetadata)
      → IsRunAt n files
      → level_overlaps n files f ≡ any (older_and_meets f) files
  unfolding level_overlaps
  level_overlaps-any zero files h =
      let z : length files - 0 ≡ length files = omega arith in
      rw z (ap (any (older_and_meets f)) (take_length files))
  level_overlaps-any (suc n) files h =
      let deep : ltb 0 (suc n) ≡ true = ground arith in rw deep (any-between-span_range f files h)

  scan_levels-any :
      (n : ℕ) (levels : List (List FileMetadata))
      → AreLevelsFrom n levels
      → scan_levels n levels f ≡ any (older_and_meets f) (concat_levels levels)
  unfolding scan_levels concat_levels
  scan_levels-any n [] h = refl
  scan_levels-any n (files ∷ deeper) (_, run, h) = ground (
    arith,
    any-append (older_and_meets f) files (concat_levels deeper),
    level_overlaps-any n files run,
    scan_levels-any (suc n) deeper h,
  )

  -- A shallower level holds nothing older.
  none_shallower :
      (n : ℕ) (files : List FileMetadata)
      → n < f.level
      → All (λ g. g.level ≡ n) files
      → any (older_and_meets f) files ≡ false
  unfolding older_and_meets
  none_shallower n [] h k = refl
  none_shallower n (g ∷ files) h (hg, k) = ground (arith, none_shallower n files h k)

  scan_levels-drop :
      (k n : ℕ) (levels : List (List FileMetadata))
      → n + k ≡ f.level
      → AreLevelsFrom n levels
      → scan_levels f.level (drop k levels) f ≡ any (older_and_meets f) (concat_levels levels)
  scan_levels-drop zero n levels e h =
      ap (λ m. scan_levels m levels f) (omega arith) ∙ scan_levels-any n levels h
  scan_levels-drop (suc k) n [] e h = unfold scan_levels concat_levels in refl
  scan_levels-drop (suc k) n (files ∷ deeper) e (at, run, h) =
      scan_levels-drop k (suc n) deeper (omega arith) h
      ∙ unfold concat_levels in
        ground (
          arith,
          none_shallower n files (omega arith) at,
          any-append (older_and_meets f) files (concat_levels deeper),
        )

-- Where each file stands at its own level and the levels below the first are sorted runs, the
-- search over levels and windows answers as a scan of every file would: whether some older file
-- meets the file's span.
pub older_file_overlaps-scan :
    (v : Version) (f : FileMetadata)
    → AreLevelsFrom 0 v.levels
    → older_file_overlaps v f ≡ any (older_and_meets f) (all_files v)
unfolding older_file_overlaps all_files
older_file_overlaps-scan v f h = scan_levels-drop f f.level 0 v.levels (omega arith) h
