-- ===== src/Version/Set/Queued.antt =====
-- src/version/version_set.cpp: no obsolete object is forgotten.
use elysiumkv.Base.{
  ℕ, ◌≡◌, refl, ◌∙◌, Bool, true, false, ◌||◌, not, List, [], ◌∷◌, ◌++◌, Option, none, some,
  if◌then◌else◌, keep, any, any-append, Member, here, there, map, arith, Bool-cases, inl, inr,
}
use elysiumkv.Version.Metadata.{FileMetadata, FileRef, VersionEdit}
use elysiumkv.Version.Levels.{Version, files_at}
use elysiumkv.Version.Set.{
  VersionSet, PendingDeletion, install, commit, queue_deleted, find_file, pend, has_number, waits,
  live, prune, collect_obsolete, collect_pruned, collectable,
}

-- Whether an object with the number is queued.
abbrev pub is_queued : ℕ → List PendingDeletion → Bool
is_queued number pending = any (λ p. has_number number p.file) pending

pend_keeps :
    (n now : ℕ) (o : Option FileMetadata) (pending : List PendingDeletion)
    → is_queued n pending ≡ true
    → is_queued n (pend now o pending) ≡ true
pend_keeps n now none pending h = h
pend_keeps n now (some f) pending h =
    any-append (λ p. has_number n p.file) pending
      (record { file = f; unreferenced_since_ms = now } ∷ [])
    ∙ ground (arith, h)

queue_deleted_keeps :
    (n now : ℕ) (base : Version) (added : List FileMetadata) (refs : List FileRef)
    (pending : List PendingDeletion)
    → is_queued n pending ≡ true
    → is_queued n (queue_deleted now base added refs pending) ≡ true
unfolding queue_deleted
queue_deleted_keeps n now base added [] pending h = h
queue_deleted_keeps n now base added (ref ∷ refs) pending h =
    queue_deleted_keeps n now base added refs _
      (elim (any (has_number ref.file_number) added)
        as (λ b.
          is_queued n (
            if b
            then pending
            else pend now (find_file ref.file_number (files_at base ref.level)) pending)
          ≡ true) [
            | true ↦ h
            | false ↦
                pend_keeps n now (find_file ref.file_number (files_at base ref.level)) pending h
          ])

find_file_number :
    (n : ℕ) (files : List FileMetadata)
    → any (has_number n) files ≡ true
    → (f : FileMetadata) × (find_file n files ≡ some f) × (has_number n f ≡ true)
unfolding find_file
find_file_number n [] h = absurd (ground (arith, h))
find_file_number n (f ∷ files) h =
    let ih = find_file_number n files in
    elim (Bool-cases (has_number n f)) [
      | inl e ↦ rw e (f, refl, e)
      | inr ne ↦ rw ne (ih (ground (arith, h, ne)))
    ]

queue_deleted_adds :
    (now : ℕ) (base : Version) (added : List FileMetadata) {ref : FileRef} (refs : List FileRef)
    (pending : List PendingDeletion)
    → Member ref refs
    → any (has_number ref.file_number) (files_at base ref.level) ≡ true
    → any (has_number ref.file_number) added ≡ false
    → is_queued ref.file_number (queue_deleted now base added refs pending) ≡ true
unfolding queue_deleted
queue_deleted_adds now base added [] pending m h n = elim m [ ]
queue_deleted_adds now base added (ref ∷ refs) pending here h n =
    let (f, found, has) = find_file_number ref.file_number (files_at base ref.level) h in
    rw (n, found)
      (queue_deleted_keeps ref.file_number now base added refs (pend now (some f) pending) (
        any-append (λ p. has_number ref.file_number p.file) pending
          (record { file = f; unreferenced_since_ms = now } ∷ [])
        ∙ ground (arith, has)))
queue_deleted_adds now base added (other ∷ refs) pending (there m) h n =
    queue_deleted_adds now base added refs _ m h n

-- What is queued stays queued or is handed over.
split_waiting :
    (n : ℕ) (w : PendingDeletion → Bool) (pending : List PendingDeletion)
    → is_queued n pending ≡ true
    → (is_queued n (keep w pending)
        || any (has_number n) (map (λ p. p.file) (keep (λ p. not (w p)) pending)))
      ≡ true
split_waiting n w [] h = absurd (ground (arith, h))
split_waiting n w (p ∷ pending) h = ground (arith, h, split_waiting n w pending)

more_queued :
    (n : ℕ) (xs ys : List PendingDeletion) (b : Bool)
    → (is_queued n xs || b) ≡ true
    → (is_queued n (xs ++ ys) || b) ≡ true
more_queued n xs ys b h = ground (arith, h, any-append (λ p. has_number n p.file) xs ys)

collect_keeps :
    (retention_ms now n : ℕ) (deleter : Option (List FileMetadata → List FileMetadata))
    (s : VersionSet)
    → is_queued n s.pending_deletions ≡ true
    → (is_queued n (collect_obsolete retention_ms now deleter s).1.pending_deletions
        || any (has_number n) (collect_obsolete retention_ms now deleter s).0)
      ≡ true
unfolding collect_obsolete collect_pruned collectable prune
collect_keeps retention_ms now n none s h = ground (arith, h)
collect_keeps retention_ms now n (some deleter) s h =
    more_queued n (keep (waits retention_ms now (live (prune s))) s.pending_deletions) _ _
      (split_waiting n (waits retention_ms now (live (prune s))) s.pending_deletions h)

-- Once an edit is committed and the obsolete files are collected, a file that the edit deletes from
-- the level where the base has it, and does not add again, is queued for deletion or was handed to
-- the deleter: no object is left behind without an owner.
pub collect_obsolete-commit :
    (retention_ms committed now : ℕ) (deleter : Option (List FileMetadata → List FileMetadata))
    (edit : VersionEdit) (s : VersionSet) (ref : FileRef)
    → Member ref edit.deleted
    → any (has_number ref.file_number) (files_at s.current.version ref.level) ≡ true
    → any (has_number ref.file_number) edit.added ≡ false
    → (is_queued ref.file_number
          (collect_obsolete retention_ms now deleter (commit committed edit s)).1.pending_deletions
        || any
            (has_number ref.file_number)
            (collect_obsolete retention_ms now deleter (commit committed edit s)).0)
      ≡ true
collect_obsolete-commit retention_ms committed now deleter edit s ref m h n =
    collect_keeps retention_ms now ref.file_number deleter (commit committed edit s) (
      unfold commit install in
      queue_deleted_adds committed s.current.version edit.added edit.deleted s.pending_deletions m h
        n)
