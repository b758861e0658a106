-- ===== src/Sst/Iterator.antt =====
-- src/sst/internal_iterator.hpp: the interface that every source of entries implements, and what its
-- moves promise: a list of entries ahead in the direction of the scan.
use elysiumkv.Base.{Bool, true, false, ◌≡◌, List, [], ◌∷◌, Option, none, some, if◌then◌else◌, All}
use elysiumkv.Status.{Status}
use elysiumkv.Slice.{Bytes, key_eq}
use elysiumkv.Sst.Block.{ValueType}

-- An entry as the interface shows it.
pub record Entry : Type 0 where
  pub key : Bytes
  pub value : Bytes
  pub type : ValueType

-- The virtual functions, over the states `S` of the classes that implement them.
pub record InternalIterator (S : Type 0) : Type 0 where
  pub valid : S → Bool
  pub seek_to_first : S → S
  pub seek : Bytes → S → S
  pub next : S → S
  pub seek_to_last : S → S
  pub seek_for_prev : Bytes → S → S
  pub prev : S → S
  pub key : S → Bytes
  pub value : S → Bytes
  pub type : S → ValueType
  pub status : S → Status

abbrev pub entry_of : {S : Type 0} → InternalIterator S → S → Entry
entry_of it s = record { key = it.key s; value = it.value s; type = it.type s }

-- What a scan by `move` promises: `ahead` lists the entries from the position on, the iterator is
-- valid while there are some, shows the first, and `move` passes it.
pub record IsScan {S : Type 0} (it : InternalIterator S) (move : S → S) (ahead : S → List Entry)
    : Type 0 where
  pub at_end : (s : S) → ahead s ≡ [] → it.valid s ≡ false
  pub at_entry :
      (s : S) (e : Entry) (es : List Entry)
      → ahead s ≡ e ∷ es
      → (it.valid s ≡ true) × (entry_of it s ≡ e) × (ahead (move s) ≡ es)

-- The entries go one way: each key is strictly before every later one.
abbrev pub Ascending : (Bytes → Bytes → Bool) → List Entry → Type 0
Ascending lt [] = Unit {0}
Ascending lt (e ∷ es) = All (λ f. ◌≡◌ {A = Bool} (lt e.key f.key) true) es × Ascending lt es

-- The entry of a key.
abbrev pub find : Bytes → List Entry → Option Entry
find k [] = none
find k (e ∷ es) = if key_eq e.key k then some e else find k es
