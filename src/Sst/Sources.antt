-- ===== src/Sst/Sources.antt =====
-- A source over a list in memory, with which the theorems on merging are run.
use elysiumkv.Base.{Bool, true, false, ◌≡◌, refl, List, [], ◌∷◌, ◌++◌, drop, if◌then◌else◌}
use elysiumkv.Status.{Status}
use elysiumkv.Slice.{Bytes, key_lt}
use elysiumkv.Sst.Block.{ValueType}
use elysiumkv.Sst.Iterator.{InternalIterator, Entry, IsScan}

-- The entries in ascending order, and those ahead of the position in the direction of the scan.
pub record Source : Type 0 where
  pub entries : List Entry
  pub to_come : List Entry

abbrev pub entry : Bytes → Bytes → Entry
entry key value = record { key = key; value = value; type = ValueType.put }

abbrev pub source : List Entry → Source
source es = record { entries = es; to_come = [] }

abbrev has_more : List Entry → Bool
has_more [] = false
has_more (e ∷ es) = true

abbrev head_of : List Entry → Entry
head_of [] = entry [] []
head_of (e ∷ es) = e

abbrev pass_one : Source → Source
pass_one s = record s { to_come = drop 1 s.to_come }

abbrev reversed : List Entry → List Entry
reversed [] = []
reversed (e ∷ es) = reversed es ++ (e ∷ [])

abbrev skip : (Entry → Bool) → List Entry → List Entry
skip p [] = []
skip p (e ∷ es) = let more = skip p es in if p e then more else e ∷ es

abbrev pub memory : InternalIterator Source
memory = record {
  valid = λ s. has_more s.to_come;
  seek_to_first = λ s. record s { to_come = s.entries };
  seek = λ target s. record s { to_come = skip (λ e. key_lt e.key target) s.entries };
  next = pass_one;
  seek_to_last = λ s. record s { to_come = reversed s.entries };
  seek_for_prev =
      λ target s. record s { to_come = skip (λ e. key_lt target e.key) (reversed s.entries) };
  prev = pass_one;
  key = λ s. (head_of s.to_come).key;
  value = λ s. (head_of s.to_come).value;
  type = λ s. (head_of s.to_come).type;
  status = λ s. Status.ok;
}

abbrev pub to_come : Source → List Entry
to_come s = s.to_come

memory-IsScan :
    (move : Source → Source) → ((s : Source) → move s ≡ pass_one s) → IsScan memory move to_come
memory-IsScan move same = record {
  at_end = λ s e. rw e refl;
  at_entry = λ s x es e. rw (same s, e) (refl, refl, refl);
}

pub next-IsScan : IsScan memory memory.next to_come
next-IsScan = memory-IsScan memory.next (λ s. refl)

pub prev-IsScan : IsScan memory memory.prev to_come
prev-IsScan = memory-IsScan memory.prev (λ s. refl)
