-- ===== src/Version/Apply/Added.antt =====
-- Sorting the levels keeps their files, and adding files adds exactly those.
use elysiumkv.Base.{
  ℕ, zero, suc, ◌≤◌, ◌<◌, Bool, ◌&&◌, ◌||◌, ◌≡◌, refl, ap, ◌∙◌, List, [], ◌∷◌, ◌++◌, ltb, ◌==◌,
  length, any, any-append, All, arith, Bool-cases, inl, inr,
}
use elysiumkv.Base.Sort.{any-sort_by}
use elysiumkv.Version.Metadata.{FileMetadata, FileRef}
use elysiumkv.Version.Levels.{concat_levels}
use elysiumkv.Version.Apply.{
  newer_first, key_first, sort_level, update_at, resize, add_file, add_files, sort_levels,
}

-- Each file stands at its own level, from level `n` on.
abbrev pub AtOwnLevels : ℕ → List (List FileMetadata) → Type 0
AtOwnLevels n [] = Unit {0}
AtOwnLevels n (files ∷ levels) = All (λ f. f.level ≡ n) files × AtOwnLevels (suc n) levels

abbrev pub names : FileRef → FileMetadata → Bool
names ref f = ref.level == f.level && f.file_number == ref.file_number

abbrev pub is_deleted : List FileRef → FileMetadata → Bool
is_deleted refs f = any (λ r. names r f) refs

-- Whether some file of the levels passes a test.
abbrev pub some_file : (FileMetadata → Bool) → List (List FileMetadata) → Bool
some_file p levels = any p (concat_levels levels)

module _ (p : FileMetadata → Bool) where
  any-sort_level : (n : ℕ) (files : List FileMetadata) → any p (sort_level n files) ≡ any p files
  unfolding sort_level
  any-sort_level n files =
      ground (arith, any-sort_by newer_first p files, any-sort_by key_first p files)

  pub some_file-sort_levels :
      (n : ℕ) (levels : List (List FileMetadata))
      → some_file p (sort_levels n levels) ≡ some_file p levels
  unfolding sort_levels concat_levels
  some_file-sort_levels n [] = refl
  some_file-sort_levels n (files ∷ levels) = ground (
    arith,
    any-append p (sort_level n files) (concat_levels (sort_levels (suc n) levels)),
    any-append p files (concat_levels levels),
    any-sort_level n files,
    some_file-sort_levels (suc n) levels,
  )

  some_file-resize :
      (n : ℕ) (levels : List (List FileMetadata))
      → some_file p (resize n levels) ≡ some_file p levels
  unfolding resize concat_levels
  some_file-resize zero levels = refl
  some_file-resize (suc n) [] = some_file-resize n []
  some_file-resize (suc n) (files ∷ levels) = ground (
    arith,
    any-append p files (concat_levels (resize n levels)),
    any-append p files (concat_levels levels),
    some_file-resize n levels,
  )

  some_file-push :
      (f : FileMetadata) (n : ℕ) (levels : List (List FileMetadata))
      → n < length levels
      → some_file p (update_at n (λ files. files ++ f ∷ []) levels) ≡ (p f || some_file p levels)
  unfolding update_at concat_levels
  some_file-push f n [] h = absurd (omega arith)
  some_file-push f zero (files ∷ levels) h = ground (
    arith,
    any-append p (files ++ f ∷ []) (concat_levels levels),
    any-append p files (f ∷ []),
    any-append p files (concat_levels levels),
  )
  some_file-push f (suc n) (files ∷ levels) h = ground (
    arith,
    any-append p files (concat_levels (update_at n (λ gs. gs ++ f ∷ []) levels)),
    any-append p files (concat_levels levels),
    some_file-push f n levels (omega arith),
  )

length-resize : (n : ℕ) (levels : List (List FileMetadata)) → n ≤ length (resize n levels)
unfolding resize
length-resize zero levels = omega arith
length-resize (suc n) [] = omega (arith, length-resize n [])
length-resize (suc n) (files ∷ levels) = omega (arith, length-resize n levels)

module _ (p : FileMetadata → Bool) where
  some_file-add_file :
      (f : FileMetadata) (levels : List (List FileMetadata))
      → some_file p (add_file f levels) ≡ (p f || some_file p levels)
  unfolding add_file
  some_file-add_file f levels = elim (Bool-cases (ltb f.level (length levels))) [
    | inl e ↦ rw e (some_file-push p f f.level levels (ground arith))
    | inr e ↦ rw e (
        some_file-push p f f.level (resize (suc f.level) levels)
          (omega (arith, length-resize (suc f.level) levels))
        ∙ ap (λ b. p f || b) (some_file-resize p (suc f.level) levels))
  ]

  pub some_file-add_files :
      (files : List FileMetadata) (levels : List (List FileMetadata))
      → some_file p (add_files files levels) ≡ (any p files || some_file p levels)
  unfolding add_files
  some_file-add_files [] levels = refl
  some_file-add_files (f ∷ files) levels =
      ground (arith, some_file-add_files files (add_file f levels), some_file-add_file f levels)
