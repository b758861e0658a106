-- ===== src/Sst/Concat/Errors.antt =====
-- src/sst/concat_iterator.cpp: a file that cannot be opened or positioned is not stepped over.
use elysiumkv.Base.{
  ℕ, ◌+◌, ◌-◌, ◌<◌, ◌≤◌, ◌≡◌, Bool, true, false, not, leb, ◌==◌, List, [], ◌∷◌, length, length-take,
  take, drop, inl, inr, arith, Bool-cases,
}
use elysiumkv.Status.{Status, unexpected}
use elysiumkv.Version.Metadata.{FileMetadata}
use elysiumkv.Sst.Iterator.{InternalIterator}
use elysiumkv.Sst.Concat.{
  Concat, Run, is_ok, seek_to_first, seek_to_last, seek, seek_for_prev, scanned,
}
use elysiumkv.Slice.{Bytes, key_lt}
use elysiumkv.Version.Levels.{leading}
use elysiumkv.Sst.Concat.Outcome.{Upwards, Downwards}
use elysiumkv.Sst.Concat.Visits.{forward-Outcome, backward-Outcome, leave-exhausted}

leading-le-length :
    (p : FileMetadata → Bool) (files : List FileMetadata) → leading p files ≤ length files
unfolding leading
leading-le-length p [] = omega arith
leading-le-length p (f ∷ files) = ground (arith, leading-le-length p files)

module _ {S : Type 0} (it : InternalIterator S) (run : Run S) where
  -- The file that a search for a key starts at, and the one after the last that a search downwards
  -- may start at.
  abbrev pub first_reaching : Bytes → ℕ
  first_reaching target = run.begin + leading (λ f. key_lt f.largest_key target) (scanned it run)

  abbrev pub first_above : Bytes → ℕ
  first_above target =
      run.begin + leading (λ f. not (key_lt target f.smallest_key)) (scanned it run)

  scanned_le : (p : FileMetadata → Bool) → leading p (scanned it run) ≤ run.end - run.begin
  unfolding scanned
  scanned_le p =
      let files = take (run.end - run.begin) (drop run.begin run.files) in
      omega (
        arith,
        leading-le-length p files,
        length-take (run.end - run.begin) (drop run.begin run.files),
      )

module _ {S : Type 0} (it : InternalIterator S) (run : Run S)
    (refused : (f : FileMetadata) (e : Status) → run.open_file f ≡ unexpected e → is_ok e ≡ false)
    (c : Concat S) (fresh : is_ok c.status ≡ true) where
  first-Outcome :
      run.begin < run.end
      → Upwards it run it.seek_to_first run.begin run.end (seek_to_first it run c)
  unfolding seek_to_first
  first-Outcome h =
      forward-Outcome it run refused it.seek_to_first run.begin (run.end - run.begin) run.begin
        run.end c (omega arith) (omega (arith, h)) (λ i l m. absurd (omega (arith, l, m))) fresh

  last-Outcome :
      run.begin < run.end
      → Downwards it run it.seek_to_last run.begin run.end (seek_to_last it run c)
  unfolding seek_to_last
  last-Outcome h =
      let some_file : leb run.end run.begin ≡ false = ground (arith, h) in
      rw some_file (
        backward-Outcome it run refused it.seek_to_last run.begin (run.end - 1 - run.begin)
          (run.end - 1) run.end c (omega (arith, h)) (omega (arith, h))
          (λ i l m. absurd (omega (arith, l, m))) fresh)

  seek-Outcome :
      (target : Bytes)
      → run.begin < run.end
      → Upwards it run
          (it.seek target)
          (first_reaching it run target)
          run.end
          (seek it run target c)
  unfolding seek
  seek-Outcome target h =
      forward-Outcome it run refused (it.seek target) (first_reaching it run target)
        (run.end - first_reaching it run target) (first_reaching it run target) run.end c
        (omega arith) (omega (arith, scanned_le it run (λ f. key_lt f.largest_key target), h))
        (λ i l m. absurd (omega (arith, l, m))) fresh

  seek_for_prev-Outcome :
      (target : Bytes)
      → Downwards it run
          (it.seek_for_prev target)
          run.begin
          (first_above it run target)
          (seek_for_prev it run target c)
  unfolding seek_for_prev
  seek_for_prev-Outcome target = elim (Bool-cases (first_above it run target == run.begin)) [
    | inl none_below ↦ rw none_below (
        leave-exhausted it run refused (it.seek_for_prev target) run.begin
          (first_above it run target) c (λ i l m. absurd (ground (arith, none_below, l, m))) fresh)
    | inr some_below ↦ rw some_below (
        backward-Outcome it run refused (it.seek_for_prev target) run.begin
          (first_above it run target - 1 - run.begin) (first_above it run target - 1)
          (first_above it run target) c (ground (arith, some_below)) (ground (arith, some_below))
          (λ i l m. absurd (omega (arith, l, m))) fresh)
  ]

-- Let the run hold a file, let opening report no failure as Ok, and let the iterator's own status be
-- Ok. However it is positioned, it ends in one of three ways. It is at an entry of a file, opened
-- and positioned, with every file before that one opened and empty of what is asked for; or it
-- shows nothing and its status is the failure of a file that was not opened or not positioned, with
-- every file before that one opened and empty; or every file was opened and is empty, and its
-- status is Ok. So a file that cannot be opened or read is never stepped over. "Before" is the
-- order of the search: from the first file up, from the last one down, from the first file that
-- reaches the target up, and from the last one that starts at or below it down.
pub concat_seeks-Outcome :
    {S : Type 0} (it : InternalIterator S) (run : Run S)
    (refused : (f : FileMetadata) (e : Status) → run.open_file f ≡ unexpected e → is_ok e ≡ false)
    (c : Concat S) (target : Bytes)
    → is_ok c.status ≡ true
    → run.begin < run.end
    → Upwards it run it.seek_to_first run.begin run.end (seek_to_first it run c)
      × Downwards it run it.seek_to_last run.begin run.end (seek_to_last it run c)
      × Upwards it run
          (it.seek target)
          (first_reaching it run target)
          run.end
          (seek it run target c)
      × Downwards it run
          (it.seek_for_prev target)
          run.begin
          (first_above it run target)
          (seek_for_prev it run target c)
concat_seeks-Outcome it run refused c target fresh h = (
  first-Outcome it run refused c fresh h,
  last-Outcome it run refused c fresh h,
  seek-Outcome it run refused c fresh target h,
  seek_for_prev-Outcome it run refused c fresh target,
)
