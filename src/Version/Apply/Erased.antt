-- ===== src/Version/Apply/Erased.antt =====
-- Erasing by level and number removes exactly the files that are named.
use elysiumkv.Base.{
  ℕ, zero, suc, ◌+◌, ◌<◌, Bool, not, ◌&&◌, ◌≡◌, refl, ◌∙◌, List, [], ◌∷◌, ◌==◌, keep, any,
  any-append, any-keep, any_cong, All, All-keep, arith,
}
use elysiumkv.Version.Metadata.{FileMetadata, FileRef}
use elysiumkv.Version.Levels.{concat_levels}
use elysiumkv.Version.Apply.{update_at, refers, erase_ref, erase_refs}
use elysiumkv.Version.Apply.Added.{AtOwnLevels, is_deleted, some_file}

module _ (ref : FileRef) (p : FileMetadata → Bool) where
  -- What is left at level `n` of the files that pass `p`.
  abbrev left_at : ℕ → FileMetadata → Bool
  left_at n f = p f && not (n == f.level && refers ref f)

  left_at_same :
      (n : ℕ) (files : List FileMetadata)
      → All (λ f. f.level ≡ n) files
      → All (λ f. ◌≡◌ {A = Bool} (not (refers ref f) && p f) (left_at n f)) files
  left_at_same n [] h = tt
  left_at_same n (f ∷ files) (hf, h) = (ground arith, left_at_same n files h)

  left_at_other :
      (n m : ℕ) (files : List FileMetadata)
      → n < m
      → All (λ f. f.level ≡ m) files
      → All (λ f. ◌≡◌ {A = Bool} (p f) (left_at n f)) files
  left_at_other n m [] l h = tt
  left_at_other n m (f ∷ files) l (hf, h) = (ground arith, left_at_other n m files l h)

  left_at_deeper :
      (n m : ℕ) (levels : List (List FileMetadata))
      → n < m
      → AtOwnLevels m levels
      → some_file p levels ≡ some_file (left_at n) levels
  unfolding concat_levels
  left_at_deeper n m [] l h = refl
  left_at_deeper n m (files ∷ levels) l (hf, h) = ground (
    arith,
    any-append p files (concat_levels levels),
    any-append (left_at n) files (concat_levels levels),
    any_cong p (left_at n) files (left_at_other n m files l hf),
    left_at_deeper n (suc m) levels (omega arith) h,
  )

  some_file-erase_at :
      (n k m : ℕ) (levels : List (List FileMetadata))
      → m ≡ n + k
      → AtOwnLevels n levels
      → some_file p (update_at k (keep (λ f. not (refers ref f))) levels)
        ≡ some_file (left_at m) levels
  unfolding update_at concat_levels
  some_file-erase_at n zero m [] e h = refl
  some_file-erase_at n (suc k) m [] e h = refl
  some_file-erase_at n zero m (files ∷ levels) e (hf, h) =
      let same : m ≡ n = omega arith in
      rw same (
        ground (
          arith,
          any-append p (keep (λ f. not (refers ref f)) files) (concat_levels levels),
          any-append (left_at n) files (concat_levels levels),
          any-keep p (λ f. not (refers ref f)) files,
          any_cong (λ f. not (refers ref f) && p f) (left_at n) files (left_at_same n files hf),
          left_at_deeper n (suc n) levels (omega arith) h,
        ))
  some_file-erase_at n (suc k) m (files ∷ levels) e (hf, h) = ground (
    arith,
    any-append p files (concat_levels (update_at k (keep (λ f. not (refers ref f))) levels)),
    any-append (left_at m) files (concat_levels levels),
    any_cong p (left_at m) files (above files hf),
    some_file-erase_at (suc n) k m levels (omega arith) h,
  )
    where
      above :
          (fs : List FileMetadata)
          → All (λ f. f.level ≡ n) fs
          → All (λ f. ◌≡◌ {A = Bool} (p f) (left_at m f)) fs
      above [] q = tt
      above (f ∷ fs) (qf, q) = (ground arith, above fs q)

erase_ref-AtOwnLevels :
    (ref : FileRef) (k n : ℕ) (levels : List (List FileMetadata))
    → AtOwnLevels n levels
    → AtOwnLevels n (update_at k (keep (λ f. not (refers ref f))) levels)
unfolding update_at
erase_ref-AtOwnLevels ref zero n [] h = tt
erase_ref-AtOwnLevels ref (suc k) n [] h = tt
erase_ref-AtOwnLevels ref zero n (files ∷ levels) (hf, h) = (All-keep _ _ files hf, h)
erase_ref-AtOwnLevels ref (suc k) n (files ∷ levels) (hf, h) =
    (hf, erase_ref-AtOwnLevels ref k (suc n) levels h)

pub erase_refs-AtOwnLevels :
    (refs : List FileRef) (levels : List (List FileMetadata))
    → AtOwnLevels 0 levels
    → AtOwnLevels 0 (erase_refs refs levels)
unfolding erase_refs erase_ref
erase_refs-AtOwnLevels [] levels h = h
erase_refs-AtOwnLevels (ref ∷ refs) levels h =
    erase_refs-AtOwnLevels refs _ (erase_ref-AtOwnLevels ref ref.level 0 levels h)

module _ (p : FileMetadata → Bool) where
  left_both :
      (ref : FileRef) (refs : List FileRef) (files : List FileMetadata)
      → any (left_at ref (λ f. p f && not (is_deleted refs f)) ref.level) files
        ≡ any (λ f. p f && not (is_deleted (ref ∷ refs) f)) files
  unfolding refers
  left_both ref refs [] = refl
  left_both ref refs (f ∷ files) = ground (arith, left_both ref refs files)

  left_all :
      (files : List FileMetadata) → any p files ≡ any (λ f. p f && not (is_deleted [] f)) files
  left_all [] = refl
  left_all (f ∷ files) = ground (arith, left_all files)

pub some_file-erase_refs :
    (p : FileMetadata → Bool) (refs : List FileRef) (levels : List (List FileMetadata))
    → AtOwnLevels 0 levels
    → some_file p (erase_refs refs levels) ≡ some_file (λ f. p f && not (is_deleted refs f)) levels
unfolding erase_refs erase_ref
some_file-erase_refs p [] levels h = left_all p (concat_levels levels)
some_file-erase_refs p (ref ∷ refs) levels h =
    some_file-erase_refs p refs _ (erase_ref-AtOwnLevels ref ref.level 0 levels h)
    ∙ some_file-erase_at ref (λ f. p f && not (is_deleted refs f)) 0 ref.level ref.level levels
        (omega arith) h
    ∙ left_both p ref refs (concat_levels levels)
