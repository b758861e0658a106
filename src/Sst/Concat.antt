-- ===== src/Sst/Concat.antt =====
-- src/sst/concat_iterator.cpp: one scan over a run of files that are disjoint and sorted. Opening a
-- file and taking its iterator is a parameter, as is the interface of those iterators. The loops of
-- the positioning functions take a turn for each file that is left.
pub mod Joined
pub mod Follow
pub mod Outcome
pub mod Visits
pub mod Errors
mod Examples
use elysiumkv.Base.{
  ℕ, zero, suc, ◌+◌, ◌-◌, Bool, true, false, not, List, [], ◌∷◌, Option, none, some, ◌==◌, leb,
  if◌then◌else◌, get_elem?, take, drop,
}
use elysiumkv.Status.{Status, Result, value, unexpected}
use elysiumkv.Slice.{Bytes, key_lt}
use elysiumkv.Sst.Block.{ValueType}
use elysiumkv.Sst.Iterator.{InternalIterator}
use elysiumkv.Version.Metadata.{FileMetadata}
use elysiumkv.Version.Levels.{leading}

-- The reader that is held with its iterator is left out: it only keeps the iterator's bytes alive.
pub record Concat (S : Type 0) : Type 0 where
  pub index : ℕ
  pub inner : Option S
  pub status : Status

abbrev pub is_ok : Status → Bool
is_ok Status.ok = true
is_ok _ = false

-- The files of the level, the part `[begin, end)` of them that is scanned, and how one is opened.
pub record Run (S : Type 0) : Type 0 where
  pub files : List FileMetadata
  pub begin : ℕ
  pub end : ℕ
  pub open_file : FileMetadata → Result S

module _ {S : Type 0} (it : InternalIterator S) (run : Run S) where
  unfoldable pub new_concat : Concat S
  new_concat = record { index = 0; inner = none; status = Status.ok }

  -- A file that is not there is not asked for.
  unfoldable pub open_at : ℕ → Result S
  open_at at = elim (get_elem? run.files at) [
    | none ↦ unexpected Status.io
    | some file ↦ run.open_file file
  ]

  unfoldable pub leave : Concat S → Concat S
  leave c = record c { inner = none }

  -- `enter`: whether the file could be opened.
  unfoldable pub enter : ℕ → Concat S → Bool × Concat S
  unfolding open_at
  enter at c = elim (open_at at) [
    | unexpected e ↦ (false, record c { status = e; inner = none })
    | value s ↦ (true, record c { inner = some s })
  ]

  -- `positioning_failed`: a child that failed is not an empty file.
  unfoldable pub positioning_failed : Concat S → Bool × Concat S
  positioning_failed c = elim c.inner [
    | none ↦ (false, c)
    | some s ↦
        if it.valid s
        then (false, c)
        else if is_ok (it.status s)
        then (false, c)
        else (true, record c { status = it.status s })
  ]

  unfoldable pub valid : Concat S → Bool
  valid c = elim c.inner [ none ↦ false | some s ↦ it.valid s ]

  unfoldable pub on_inner : (S → S) → Concat S → Concat S
  on_inner f c = elim c.inner [ none ↦ c | some s ↦ record c { inner = some (f s) } ]

  -- A turn of the positioning loops: whether the loop ends here, and the state.
  unfoldable pub land : (S → S) → ℕ → Concat S → Bool × Concat S
  unfolding enter on_inner valid positioning_failed
  land position at c =
      let (entered, c1) = enter at (record c { index = at }) in
      let c2 = on_inner position c1 in
      let (failed, c3) = positioning_failed c2 in
      if not entered then (true, c1) else if valid c2 then (true, c2) else (failed, c3)

  -- Upwards from a file, with `n` files left.
  unfoldable pub forward : (S → S) → ℕ → ℕ → Concat S → Concat S
  unfolding land leave
  forward position zero at c = leave (record c { index = at })
  forward position (suc n) at c =
      let (stop, d) = land position at c in
      let rest = forward position n (suc at) d in if stop then d else rest

  -- Downwards from a file, with `n` files below it.
  unfoldable pub backward : (S → S) → ℕ → ℕ → Concat S → Concat S
  unfolding land leave
  backward position zero at c = let (stop, d) = land position at c in if stop then d else leave d
  backward position (suc n) at c =
      let (stop, d) = land position at c in
      let rest = backward position n (at - 1) d in if stop then d else rest

  unfoldable pub seek_to_first : Concat S → Concat S
  unfolding forward
  seek_to_first c = forward it.seek_to_first (run.end - run.begin) run.begin c

  unfoldable pub seek_to_last : Concat S → Concat S
  unfolding backward leave
  seek_to_last c =
      if leb run.end run.begin
      then leave c
      else backward it.seek_to_last (run.end - 1 - run.begin) (run.end - 1) c

  -- The files of the run, which `std::lower_bound` and `std::upper_bound` search.
  unfoldable pub scanned : List FileMetadata
  scanned = take (run.end - run.begin) (drop run.begin run.files)

  unfoldable pub seek : Bytes → Concat S → Concat S
  unfolding forward scanned leading
  seek target c =
      let at = run.begin + leading (λ f. key_lt f.largest_key target) scanned in
      forward (it.seek target) (run.end - at) at c

  unfoldable pub seek_for_prev : Bytes → Concat S → Concat S
  unfolding backward scanned leading leave
  seek_for_prev target c =
      let after = run.begin + leading (λ f. not (key_lt target f.smallest_key)) scanned in
      if after == run.begin
      then leave c
      else backward (it.seek_for_prev target) (after - 1 - run.begin) (after - 1) c

  -- The loop of `next`, on fuel.
  unfoldable pub next_file : ℕ → Concat S → Concat S
  unfolding enter leave valid on_inner
  next_file zero c = c
  next_file (suc n) c =
      let (entered, d) = enter (c.index + 1) (record c { index = c.index + 1 }) in
      let rest = next_file n (on_inner it.seek_to_first d) in
      elim c.inner [
        | none ↦ c
        | some s ↦
            if it.valid s
            then c
            else if not (is_ok (it.status s))
            then c
            else if leb run.end (c.index + 1)
            then leave c
            else if entered
            then rest
            else d
      ]

  unfoldable pub next : Concat S → Concat S
  unfolding next_file on_inner
  next c = next_file (suc (run.end - c.index)) (on_inner it.next c)

  -- The loop of `prev`, on fuel.
  unfoldable pub prev_file : ℕ → Concat S → Concat S
  unfolding enter leave valid on_inner
  prev_file zero c = c
  prev_file (suc n) c =
      let (entered, d) = enter (c.index - 1) (record c { index = c.index - 1 }) in
      let rest = prev_file n (on_inner it.seek_to_last d) in
      elim c.inner [
        | none ↦ c
        | some s ↦
            if it.valid s
            then c
            else if not (is_ok (it.status s))
            then c
            else if c.index == run.begin
            then leave c
            else if entered
            then rest
            else d
      ]

  unfoldable pub prev : Concat S → Concat S
  unfolding prev_file on_inner
  prev c = prev_file (suc (c.index - run.begin)) (on_inner it.prev c)

  -- What is shown where no file is entered is not asked for.
  abbrev shown {ℓ} : {A : Type ℓ} → A → (S → A) → Concat S → A
  shown d f c = elim c.inner [ none ↦ d | some s ↦ f s ]

  unfoldable pub status : Concat S → Status
  status c = if is_ok c.status then shown Status.ok it.status c else c.status

  abbrev pub concat : InternalIterator (Concat S)
  concat = record {
    valid = valid;
    seek_to_first = seek_to_first;
    seek = seek;
    next = next;
    seek_to_last = seek_to_last;
    seek_for_prev = seek_for_prev;
    prev = prev;
    key = shown [] it.key;
    value = shown [] it.value;
    type = shown ValueType.delete it.type;
    status = status;
  }
