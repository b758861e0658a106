-- ===== src/Version/Set/Safety.antt =====
-- src/version/version_set.cpp: no version that is read references an object that was handed over for
-- deletion, whatever the order of the operations.
use elysiumkv.Base.{
  ℕ, zero, suc, ◌≡◌, refl, sym, ap, ◌∙◌, Bool, false, ◌&&◌, ◌||◌, not, List, [], ◌∷◌, ◌++◌, Option,
  none, some, keep, any, any_cong, any-keep, All, All-append, map, arith, Bool-cases, inl, inr, leb,
}
use elysiumkv.Version.Metadata.{FileMetadata, VersionEdit}
use elysiumkv.Version.Levels.{Version, all_files}
use elysiumkv.Version.Apply.{apply, update_at}
use elysiumkv.Version.Apply.Added.{AtOwnLevels, is_deleted}
use elysiumkv.Version.Apply.Contents.{some_file-apply, apply-AtOwnLevels}
use elysiumkv.Version.Set.{
  VersionSet, Tracked, PendingDeletion, install, acquire, let_go, dropped, commit, references, live,
  prune, expired, collect_obsolete, collect_pruned, collectable, waits, has_number,
  allocate_file_number, observe_file_number,
}

abbrev number_of : FileMetadata → ℕ
number_of f = f.file_number

-- The states that a set can come to, and the numbers of the files that were handed to the deleter
-- on the way. An edit adds no number of a file that was handed over: numbers are not used again.
pub data Reaches (retention_ms : ℕ) (start : VersionSet) : VersionSet → List ℕ → Type 0 where
  started : Reaches retention_ms start start []
  acquired :
      {s : VersionSet} {gone : List ℕ}
      → Reaches retention_ms start s gone
      → Reaches retention_ms start (acquire s) gone
  let_gone :
      {s : VersionSet} {gone : List ℕ} (i : ℕ)
      → Reaches retention_ms start s gone
      → Reaches retention_ms start (let_go i s) gone
  allocated :
      {s : VersionSet} {gone : List ℕ}
      → Reaches retention_ms start s gone
      → Reaches retention_ms start (allocate_file_number s).1 gone
  observed :
      {s : VersionSet} {gone : List ℕ} (number : ℕ)
      → Reaches retention_ms start s gone
      → Reaches retention_ms start (observe_file_number number s) gone
  committed :
      {s : VersionSet} {gone : List ℕ} (now : ℕ) (edit : VersionEdit)
      → All (λ n. ◌≡◌ {A = Bool} (any (has_number n) edit.added) false) gone
      → Reaches retention_ms start s gone
      → Reaches retention_ms start (commit now edit s) gone
  collected :
      {s : VersionSet} {gone : List ℕ} (now : ℕ)
      (deleter : Option (List FileMetadata → List FileMetadata))
      → Reaches retention_ms start s gone
      → Reaches retention_ms start
          (collect_obsolete retention_ms now deleter s).1
          (map number_of (collect_obsolete retention_ms now deleter s).0 ++ gone)

abbrev Unreferenced : List Tracked → ℕ → Type 0
Unreferenced tracked n = any (references n) tracked ≡ false

-- No live version references what is gone.
pub record IsSafe (s : VersionSet) (gone : List ℕ) : Type 0 where
  pub placed : AtOwnLevels 0 s.current.version.levels
  pub unreferenced : All (Unreferenced (live s)) gone

module _ {A : Type 0} (P Q : A → Type 0) where
  All_map : (xs : List A) → ((x : A) → P x → Q x) → All P xs → All Q xs
  All_map [] f h = tt
  All_map (x ∷ xs) f (hx, h) = (f x hx, All_map xs f h)

any-keep-false :
    {A : Type 0} (p q : A → Bool) (xs : List A) → any p xs ≡ false → any p (keep q xs) ≡ false
any-keep-false p q [] h = refl
any-keep-false p q (x ∷ xs) h = ground (arith, h, any-keep-false p q xs)

any-dropped :
    (n i : ℕ) (tracked : List Tracked)
    → any (references n) (update_at i dropped tracked) ≡ any (references n) tracked
unfolding update_at references
any-dropped n zero [] = refl
any-dropped n (suc i) [] = refl
any-dropped n zero (t ∷ tracked) = refl
any-dropped n (suc i) (t ∷ tracked) = ap (λ b. references n t || b) (any-dropped n i tracked)

let_go-IsSafe : (i : ℕ) (s : VersionSet) (gone : List ℕ) → IsSafe s gone → IsSafe (let_go i s) gone
unfolding let_go references
let_go-IsSafe zero s gone h = record { placed = h.placed; unreferenced = h.unreferenced }
let_go-IsSafe (suc i) s gone h = record {
  placed = h.placed;
  unreferenced =
      All_map (Unreferenced (live s)) _ gone
        (λ n u. ap (λ b. references n s.current || b) (any-dropped n i s.superseded) ∙ u)
        h.unreferenced;
}

-- A file that an edit keeps or adds is in the base or added.
apply_unreferenced :
    (n : ℕ) (base : Version) (edit : VersionEdit)
    → AtOwnLevels 0 base.levels
    → any (has_number n) edit.added ≡ false
    → any (has_number n) (all_files base) ≡ false
    → any (has_number n) (all_files (apply base edit)) ≡ false
apply_unreferenced n base edit a added old =
    some_file-apply (has_number n) base edit a
    ∙ ground (
      arith,
      added,
      sym (any-keep (has_number n) (λ f. not (is_deleted edit.deleted f)) (all_files base)),
      any-keep-false (has_number n) (λ f. not (is_deleted edit.deleted f)) (all_files base) old,
      any_swap (all_files base),
    )
  where
    any_swap :
        (files : List FileMetadata)
        → any (λ f. has_number n f && not (is_deleted edit.deleted f)) files
          ≡ any (λ f. not (is_deleted edit.deleted f) && has_number n f) files
    any_swap files = any_cong _ _ files (all_swap files)
      where
        all_swap :
            (files : List FileMetadata)
            → All
                (λ f.
                  ◌≡◌ {A = Bool}
                    (has_number n f && not (is_deleted edit.deleted f))
                    (not (is_deleted edit.deleted f) && has_number n f))
                files
        all_swap [] = tt
        all_swap (f ∷ files) = (ground arith, all_swap files)

commit-IsSafe :
    (now : ℕ) (edit : VersionEdit) (s : VersionSet) (gone : List ℕ)
    → All (λ n. ◌≡◌ {A = Bool} (any (has_number n) edit.added) false) gone
    → IsSafe s gone
    → IsSafe (commit now edit s) gone
unfolding commit install references
commit-IsSafe now edit s gone fresh h = record {
  placed = apply-AtOwnLevels s.current.version edit h.placed;
  unreferenced = both gone fresh h.unreferenced;
}
  where
    both :
        (numbers : List ℕ)
        → All (λ n. ◌≡◌ {A = Bool} (any (has_number n) edit.added) false) numbers
        → All (Unreferenced (live s)) numbers
        → All (Unreferenced (live (commit now edit s))) numbers
    both [] f u = tt
    both (n ∷ numbers) (fn, f) (un, u) = (
      ground
          (arith, un, apply_unreferenced n s.current.version edit h.placed fn (ground (arith, un))),
      both numbers f u,
    )

-- What is handed over is not referenced by what is live.
handed-Unreferenced :
    (retention_ms now : ℕ) (tracked : List Tracked) (pending : List PendingDeletion)
    → All (Unreferenced tracked) (
        map number_of
          (map (λ p. p.file) (keep (λ p. not (waits retention_ms now tracked p)) pending)))
unfolding waits
handed-Unreferenced retention_ms now tracked [] = tt
handed-Unreferenced retention_ms now tracked (p ∷ pending) =
    elim (Bool-cases (waits retention_ms now tracked p)) [
      | inl w ↦ rw w (handed-Unreferenced retention_ms now tracked pending)
      | inr g ↦ rw g (ground (arith, g), handed-Unreferenced retention_ms now tracked pending)
    ]

prune-IsSafe : (s : VersionSet) (gone : List ℕ) → IsSafe s gone → IsSafe (prune s) gone
unfolding prune
prune-IsSafe s gone h = record {
  placed = h.placed;
  unreferenced =
      All_map (Unreferenced (live s)) _ gone
        (λ n u.
          ground (arith, u, any-keep-false (references n) (λ t. not (expired t)) s.superseded))
        h.unreferenced;
}

collect-IsSafe :
    (retention_ms now : ℕ) (deleter : Option (List FileMetadata → List FileMetadata))
    (s : VersionSet) (gone : List ℕ)
    → IsSafe s gone
    → IsSafe
        (collect_obsolete retention_ms now deleter s).1
        (map number_of (collect_obsolete retention_ms now deleter s).0 ++ gone)
unfolding collect_obsolete collect_pruned collectable
collect-IsSafe retention_ms now none s gone h = prune-IsSafe s gone h
collect-IsSafe retention_ms now (some deleter) s gone h =
    let p = prune-IsSafe s gone h in
    record {
      placed = p.placed;
      unreferenced =
          All-append (Unreferenced (live (prune s))) _ gone
            (handed-Unreferenced retention_ms now (live (prune s)) (prune s).pending_deletions)
            p.unreferenced;
    }

acquire-IsSafe : (s : VersionSet) (gone : List ℕ) → IsSafe s gone → IsSafe (acquire s) gone
unfolding acquire references
acquire-IsSafe s gone h = record { placed = h.placed; unreferenced = h.unreferenced }

observe-IsSafe :
    (number : ℕ) (s : VersionSet) (gone : List ℕ)
    → IsSafe s gone
    → IsSafe (observe_file_number number s) gone
unfolding observe_file_number
observe-IsSafe number s gone h = elim (Bool-cases (leb s.next_file_number number)) [
  | inl e ↦ rw e (record { placed = h.placed; unreferenced = h.unreferenced })
  | inr e ↦ rw e h
]

allocate-IsSafe :
    (s : VersionSet) (gone : List ℕ) → IsSafe s gone → IsSafe (allocate_file_number s).1 gone
unfolding allocate_file_number
allocate-IsSafe s gone h = record { placed = h.placed; unreferenced = h.unreferenced }

-- From a state whose files stand at their own levels, in whatever order versions are taken and let
-- go, edits are committed and obsolete files collected, and whatever the deleter does: no version
-- that is still held, the current one included, references a file that was handed to the deleter,
-- where no edit adds a number that was handed over before.
pub Reaches-IsSafe :
    (retention_ms : ℕ) (start s : VersionSet) (gone : List ℕ)
    → AtOwnLevels 0 start.current.version.levels
    → Reaches retention_ms start s gone
    → IsSafe s gone
Reaches-IsSafe retention_ms start s gone a started = record { placed = a; unreferenced = tt }
Reaches-IsSafe retention_ms start s gone a (acquired r) =
    acquire-IsSafe _ gone (Reaches-IsSafe retention_ms start _ gone a r)
Reaches-IsSafe retention_ms start s gone a (let_gone i r) =
    let_go-IsSafe i _ gone (Reaches-IsSafe retention_ms start _ gone a r)
Reaches-IsSafe retention_ms start s gone a (allocated r) =
    allocate-IsSafe _ gone (Reaches-IsSafe retention_ms start _ gone a r)
Reaches-IsSafe retention_ms start s gone a (observed number r) =
    observe-IsSafe number _ gone (Reaches-IsSafe retention_ms start _ gone a r)
Reaches-IsSafe retention_ms start s gone a (committed now edit fresh r) =
    commit-IsSafe now edit _ gone fresh (Reaches-IsSafe retention_ms start _ gone a r)
Reaches-IsSafe retention_ms start s _ a (collected now deleter r) =
    collect-IsSafe retention_ms now deleter _ _ (Reaches-IsSafe retention_ms start _ _ a r)
