-- ===== src/Version/Apply/Contents.antt =====
-- Which files a version holds after an edit, and where they stand.
use elysiumkv.Base.{
  ℕ, zero, suc, ◌+◌, Bool, true, false, not, ◌&&◌, ◌||◌, ◌≡◌, ap, ◌∙◌, List, [], ◌∷◌, ◌++◌, ltb,
  ◌==◌, if◌then◌else◌, length, any, All, All-append, arith,
}
use elysiumkv.Base.Sort.{sort_by, All-sort_by}
use elysiumkv.Version.Metadata.{FileMetadata, VersionEdit}
use elysiumkv.Version.Levels.{Version, new_version, all_files}
use elysiumkv.Version.Apply.{
  newer_first, key_first, sort_level, update_at, erase_refs, resize, add_file, add_files,
  sort_levels, apply,
}
use elysiumkv.Version.Apply.Added.{
  AtOwnLevels, is_deleted, some_file-sort_levels, some_file-add_files,
}
use elysiumkv.Version.Apply.Erased.{some_file-erase_refs, erase_refs-AtOwnLevels}

module _ (P : FileMetadata → Type 0) where
  All-sort_level : (n : ℕ) (files : List FileMetadata) → All P files → All P (sort_level n files)
  unfolding sort_level
  All-sort_level n files h =
      elim (n == 0)
        as (λ b. All P (if b then sort_by newer_first files else sort_by key_first files)) [
          | true ↦ All-sort_by newer_first P files h
          | false ↦ All-sort_by key_first P files h
        ]

sort_levels-AtOwnLevels :
    (n : ℕ) (levels : List (List FileMetadata))
    → AtOwnLevels n levels
    → AtOwnLevels n (sort_levels n levels)
unfolding sort_levels
sort_levels-AtOwnLevels n [] h = tt
sort_levels-AtOwnLevels n (files ∷ levels) (hf, h) =
    (All-sort_level _ n files hf, sort_levels-AtOwnLevels (suc n) levels h)

resize-AtOwnLevels :
    (k n : ℕ) (levels : List (List FileMetadata))
    → AtOwnLevels n levels
    → AtOwnLevels n (resize k levels)
unfolding resize
resize-AtOwnLevels zero n levels h = h
resize-AtOwnLevels (suc k) n [] h = (tt, resize-AtOwnLevels k (suc n) [] tt)
resize-AtOwnLevels (suc k) n (files ∷ levels) (hf, h) = (hf, resize-AtOwnLevels k (suc n) levels h)

push-AtOwnLevels :
    (f : FileMetadata) (k n : ℕ) (levels : List (List FileMetadata))
    → f.level ≡ n + k
    → AtOwnLevels n levels
    → AtOwnLevels n (update_at k (λ files. files ++ f ∷ []) levels)
unfolding update_at
push-AtOwnLevels f zero n [] e h = tt
push-AtOwnLevels f (suc k) n [] e h = tt
push-AtOwnLevels f zero n (files ∷ levels) e (hf, h) =
    (All-append _ files (f ∷ []) hf (omega arith, tt), h)
push-AtOwnLevels f (suc k) n (files ∷ levels) e (hf, h) =
    (hf, push-AtOwnLevels f k (suc n) levels (omega arith) h)

add_files-AtOwnLevels :
    (files : List FileMetadata) (levels : List (List FileMetadata))
    → AtOwnLevels 0 levels
    → AtOwnLevels 0 (add_files files levels)
unfolding add_files add_file
add_files-AtOwnLevels [] levels h = h
add_files-AtOwnLevels (f ∷ files) levels h = add_files-AtOwnLevels files _ (
    push-AtOwnLevels f f.level 0 _ (omega arith)
      (elim (ltb f.level (length levels))
        as (λ b. AtOwnLevels 0 (if b then levels else resize (suc f.level) levels)) [
          | true ↦ h
          | false ↦ resize-AtOwnLevels (suc f.level) 0 levels h
        ]))

-- Where each file of the base stands at its own level: after an edit a version holds exactly the
-- added files and those of the base that the edit does not delete by level and number: any test
-- finds a file in the one exactly when in the other.
pub some_file-apply :
    (p : FileMetadata → Bool) (base : Version) (edit : VersionEdit)
    → AtOwnLevels 0 base.levels
    → any p (all_files (apply base edit))
      ≡ (any p edit.added || any (λ f. p f && not (is_deleted edit.deleted f)) (all_files base))
unfolding apply all_files new_version
some_file-apply p base edit h =
    some_file-sort_levels p 0 (add_files edit.added (erase_refs edit.deleted base.levels))
    ∙ some_file-add_files p edit.added (erase_refs edit.deleted base.levels)
    ∙ ap (λ b. any p edit.added || b) (some_file-erase_refs p edit.deleted base.levels h)

-- Where each file of the base stands at its own level, so does each file after any edit.
pub apply-AtOwnLevels :
    (base : Version) (edit : VersionEdit)
    → AtOwnLevels 0 base.levels
    → AtOwnLevels 0 (apply base edit).levels
unfolding apply new_version
apply-AtOwnLevels base edit h =
    sort_levels-AtOwnLevels 0 _
      (add_files-AtOwnLevels edit.added _ (erase_refs-AtOwnLevels edit.deleted base.levels h))
