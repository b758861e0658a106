-- ===== src/Version/Examples/Set.antt =====
-- The theorems on the set of versions at concrete inputs.
use elysiumkv.Base.{◌≡◌, refl, true, ◌||◌, List, [], ◌++◌, Option, some, any, here, map}
use elysiumkv.Version.Metadata.{FileMetadata}
use elysiumkv.Version.Levels.{files_at}
use elysiumkv.Version.Set.{VersionSet, acquire, let_go, commit, collect_obsolete, has_number}
use elysiumkv.Version.Set.Safety.{Reaches, IsSafe, Reaches-IsSafe}
use elysiumkv.Version.Set.Queued.{is_queued, collect_obsolete-commit}
use elysiumkv.Version.Examples.{version, edit}

abbrev start : VersionSet
start = record {
  current = record { version = version; readers = 0 };
  superseded = [];
  pending_deletions = [];
  next_file_number = 30;
  file_counts = [];
  installs = 1;
}

-- The deleter that deletes everything.
abbrev deleter : Option (List FileMetadata → List FileMetadata)
deleter = some (λ files. [])

-- A reader holds the version whose file the edit deletes.
abbrev held : VersionSet
held = commit 1000 edit (acquire start)

abbrev waited : VersionSet
waited = (collect_obsolete 500 2000 deleter held).1

abbrev released : VersionSet
released = let_go 1 waited

Reaches-IsSafe_example : IsSafe (collect_obsolete 500 3000 deleter released).1 (
    map (λ f. f.file_number) (collect_obsolete 500 3000 deleter released).0
    ++ (map (λ f. f.file_number) (collect_obsolete 500 2000 deleter held).0 ++ []))
Reaches-IsSafe_example =
    Reaches-IsSafe 500 start _ _ ((refl, (refl, tt)), ((refl, (refl, tt)), tt))
      (Reaches.collected 3000 deleter (
        Reaches.let_gone 1 (
          Reaches.collected 2000 deleter
            (Reaches.committed 1000 edit tt (Reaches.acquired Reaches.started)))))

collect_obsolete-commit_example :
    (is_queued 5 (collect_obsolete 500 2000 deleter (commit 1000 edit start)).1.pending_deletions
      || any (has_number 5) (collect_obsolete 500 2000 deleter (commit 1000 edit start)).0)
    ≡ true
unfolding files_at
collect_obsolete-commit_example =
    collect_obsolete-commit 500 1000 2000 deleter edit start (record { level = 1; file_number = 5 })
      here refl refl
