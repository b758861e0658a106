-- ===== src/Sst/Concat/Outcome.antt =====
-- src/sst/concat_iterator.cpp: where the positioning of a run can end.
use elysiumkv.Base.{ℕ, suc, ◌<◌, ◌≤◌, ◌≡◌, Bool, true, false, none, some}
use elysiumkv.Status.{Status, value, unexpected}
use elysiumkv.Sst.Iterator.{InternalIterator}
use elysiumkv.Sst.Concat.{Concat, Run, is_ok, open_at, valid, status}

module _ {S : Type 0} (it : InternalIterator S) (run : Run S) (position : S → S) where
  -- The file was opened, and holds nothing where it was positioned.
  pub record IsEmptyAt (at : ℕ) : Type 0 where
    pub child : S
    pub opened : open_at it run at ≡ value child
    pub invalid : it.valid (position child) ≡ false
    pub no_failure : is_ok (it.status (position child)) ≡ true

  abbrev pub EmptyIn : ℕ → ℕ → Type 0
  EmptyIn low high = (i : ℕ) → low ≤ i → i < high → IsEmptyAt i

  -- The iterator is at an entry of the file, which was opened and positioned.
  pub record IsEntryOf (at : ℕ) (d : Concat S) : Type 0 where
    pub child : S
    pub opened : open_at it run at ≡ value child
    pub index : d.index ≡ at
    pub inner : d.inner ≡ some (position child)
    pub has_entry : it.valid (position child) ≡ true
    pub no_failure : is_ok d.status ≡ true

  -- What went wrong with the file: it was not opened, or not positioned.
  pub data FailsAt (at : ℕ) (e : Status) : Type 0 where
    not_opened : open_at it run at ≡ unexpected e → FailsAt at e
    not_positioned :
        (child : S)
        → open_at it run at ≡ value child
        → it.valid (position child) ≡ false
        → it.status (position child) ≡ e
        → FailsAt at e

  -- The iterator reports the failure of the file, and shows nothing.
  pub record IsFailureOf (at : ℕ) (d : Concat S) : Type 0 where
    pub error : Status
    pub cause : FailsAt at error
    pub is_error : is_ok error ≡ false
    pub index : d.index ≡ at
    pub reported : status it run d ≡ error
    pub hidden : valid it run d ≡ false

  -- The end of a loop over the files from `low` up to `high`, where `passed` holds of the file it
  -- ended at if the files before it in the loop's order are all empty.
  pub data Outcome (low high : ℕ) (passed : ℕ → Type 0) (d : Concat S) : Type 0 where
    at_entry : (i : ℕ) → low ≤ i → i < high → passed i → IsEntryOf i d → Outcome low high passed d
    at_failure :
        (i : ℕ) → low ≤ i → i < high → passed i → IsFailureOf i d → Outcome low high passed d
    exhausted :
        EmptyIn low high
        → d.inner ≡ none
        → is_ok (status it run d) ≡ true
        → Outcome low high passed d

  -- Upwards, the files before the one that the loop ends at are empty.
  abbrev pub Upwards : ℕ → ℕ → Concat S → Type 0
  Upwards low high d = Outcome low high (λ i. EmptyIn low i) d

  -- Downwards, the files after the one that the loop ends at are empty.
  abbrev pub Downwards : ℕ → ℕ → Concat S → Type 0
  Downwards low high d = Outcome low high (λ i. EmptyIn (suc i) high) d

  pub data Landing (at : ℕ) (c : Concat S) (out : Bool × Concat S) : Type 0 where
    found_entry : out.0 ≡ true → IsEntryOf at out.1 → Landing at c out
    found_failure : out.0 ≡ true → IsFailureOf at out.1 → Landing at c out
    found_empty : out.0 ≡ false → IsEmptyAt at → is_ok out.1.status ≡ true → Landing at c out
