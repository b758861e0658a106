-- ===== src/Version/Set.antt =====
-- src/version/version_set.hpp and version_set.cpp: the current version, the versions that are still
-- read, and the objects that wait to be deleted. A version's readers are counted, which is what its
-- weak pointer in `live_versions_` observes. Each operation runs under the set's mutex, in one step.
-- What reads and writes the manifest is not part of this model.
pub mod Safety
pub mod Queued
use elysiumkv.Base.{
  ℕ, zero, suc, ◌+◌, ◌-◌, ◌%◌, ◌^◌, Bool, true, false, ◌&&◌, ◌||◌, not, List, [], ◌∷◌, ◌++◌, Option,
  none, some, ltb, leb, ◌==◌, if◌then◌else◌, length, keep, any, map, get_elem?,
}
use elysiumkv.Version.Metadata.{FileMetadata, FileRef, VersionEdit}
use elysiumkv.Version.Levels.{Version, new_version, all_files, files_at, file_count}
use elysiumkv.Version.Apply.{apply, update_at}

pub record PendingDeletion : Type 0 where
  pub file : FileMetadata
  pub unreferenced_since_ms : ℕ

-- A version, and how many hold it besides the set.
pub record Tracked : Type 0 where
  pub version : Version
  pub readers : ℕ

-- `live_versions_` is the current version and the superseded ones.
pub record VersionSet : Type 0 where
  pub current : Tracked
  pub superseded : List Tracked
  pub pending_deletions : List PendingDeletion
  pub next_file_number : ℕ
  pub file_counts : List ℕ
  pub installs : ℕ

abbrev pub published_levels : ℕ
published_levels = 16

-- The loop of `install` that publishes the counts, with `n` levels to go.
unfoldable pub counts_from : Version → ℕ → ℕ → List ℕ
unfolding file_count
counts_from v zero level = []
counts_from v (suc n) level =
    (if ltb level (length v.levels) then file_count v level % 2 ^ 32 else 0)
    ∷ counts_from v n (suc level)

unfoldable pub install : Version → VersionSet → VersionSet
unfolding counts_from
install version s = record s {
  current = record { version = version; readers = 0 };
  superseded = s.current ∷ s.superseded;
  file_counts = counts_from version published_levels 0;
  installs = (s.installs + 1) % 2 ^ 64;
}

unfoldable pub published_file_count : ℕ → VersionSet → ℕ
published_file_count level s =
    if leb published_levels level
    then 0
    else elim (get_elem? s.file_counts level) [ none ↦ 0 | some count ↦ count ]

unfoldable pub allocate_file_number : VersionSet → ℕ × VersionSet
allocate_file_number s =
    (s.next_file_number, record s { next_file_number = (s.next_file_number + 1) % 2 ^ 64 })

unfoldable pub observe_file_number : ℕ → VersionSet → VersionSet
observe_file_number number s =
    if leb s.next_file_number number
    then record s { next_file_number = (number + 1) % 2 ^ 64 }
    else s

-- `current()`: a reader takes the version.
unfoldable pub acquire : VersionSet → VersionSet
acquire s = record s { current = record s.current { readers = s.current.readers + 1 } }

abbrev dropped : Tracked → Tracked
dropped t = record t { readers = t.readers - 1 }

-- A reader lets go of the current version or of a superseded one.
unfoldable pub let_go : ℕ → VersionSet → VersionSet
unfolding update_at
let_go zero s = record s { current = dropped s.current }
let_go (suc i) s = record s { superseded = update_at i dropped s.superseded }

-- `expired()`: nothing holds it any more. The set itself holds the current version.
unfoldable pub expired : Tracked → Bool
expired t = t.readers == 0

abbrev pub has_number : ℕ → FileMetadata → Bool
has_number number f = f.file_number == number

-- The first file of a level with the number.
unfoldable pub find_file : ℕ → List FileMetadata → Option FileMetadata
find_file number [] = none
find_file number (f ∷ files) =
    let rest = find_file number files in if has_number number f then some f else rest

abbrev pub pend : ℕ → Option FileMetadata → List PendingDeletion → List PendingDeletion
pend now none pending = pending
pend now (some f) pending = pending ++ record { file = f; unreferenced_since_ms = now } ∷ []

-- The loop of `apply` over what the edit deletes: a file that it adds again is not obsolete.
unfoldable pub queue_deleted :
    ℕ → Version → List FileMetadata → List FileRef → List PendingDeletion → List PendingDeletion
unfolding find_file files_at
queue_deleted now base added [] pending = pending
queue_deleted now base added (ref ∷ refs) pending = queue_deleted now base added refs (
    if any (has_number ref.file_number) added
    then pending
    else pend now (find_file ref.file_number (files_at base ref.level)) pending)

-- The part of `apply` after the edit is recorded: the obsolete files are queued before the version
-- is swapped.
unfoldable pub commit : ℕ → VersionEdit → VersionSet → VersionSet
unfolding queue_deleted install apply
commit now edit s =
    let base = s.current.version in
    install (apply base edit) (record s {
      pending_deletions = queue_deleted now base edit.added edit.deleted s.pending_deletions;
    })

unfoldable pub references : ℕ → Tracked → Bool
unfolding all_files
references number t = any (has_number number) (all_files t.version)

abbrev pub live : VersionSet → List Tracked
live s = s.current ∷ s.superseded

-- Whether a file stays queued: it is still read, or in the window that other processes have.
unfoldable pub waits : ℕ → ℕ → List Tracked → PendingDeletion → Bool
unfolding references
waits retention_ms now tracked p =
    any (references p.file.file_number) tracked
    || (ltb 0 retention_ms
        && (leb p.unreferenced_since_ms now && ltb (now - p.unreferenced_since_ms) retention_ms))

unfoldable pub prune : VersionSet → VersionSet
unfolding expired
prune s = record s { superseded = keep (λ t. not (expired t)) s.superseded }

unfoldable pub collectable : ℕ → ℕ → VersionSet → List FileMetadata
unfolding waits
collectable retention_ms now s =
    map (λ p. p.file) (keep (λ p. not (waits retention_ms now (live s) p)) s.pending_deletions)

-- A file that could not be deleted is queued again with its window spent.
abbrev requeued : FileMetadata → PendingDeletion
requeued f = record { file = f; unreferenced_since_ms = 0 }

unfoldable pub delete_with :
    (List FileMetadata → List FileMetadata) → List FileMetadata → List FileMetadata
delete_with deleter [] = []
delete_with deleter (f ∷ files) = deleter (f ∷ files)

-- `collect_obsolete_locked` on the pruned set, with the files that it hands to the deleter.
unfoldable pub collect_pruned :
    ℕ → ℕ → (List FileMetadata → List FileMetadata) → VersionSet → List FileMetadata × VersionSet
unfolding collectable waits delete_with
collect_pruned retention_ms now deleter s =
    let handed = collectable retention_ms now s in
    (
      handed,
      record s {
        pending_deletions =
            keep (waits retention_ms now (live s)) s.pending_deletions
            ++ map requeued (delete_with deleter handed);
      },
    )

-- A null deleter is `none`. An empty queue hands nothing over.
unfoldable pub collect_obsolete :
    ℕ
    → ℕ
    → Option (List FileMetadata → List FileMetadata)
    → VersionSet
    → List FileMetadata × VersionSet
unfolding collect_pruned prune
collect_obsolete retention_ms now none s = ([], prune s)
collect_obsolete retention_ms now (some deleter) s =
    collect_pruned retention_ms now deleter (prune s)
