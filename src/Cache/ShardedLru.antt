-- ===== src/Cache/ShardedLru.antt =====
-- src/cache/sharded_lru.hpp and sharded_lru.cpp: the cache of blocks, in shards that each evict what
-- was used least recently. A shard's index holds an iterator to every node of its list, so a lookup
-- in the index is a search of the list. An operation is one step, which the source
-- takes in several critical sections, one for each shard, and a charge to the budget after them: the
-- runs are of one thread.
pub mod Shed
pub mod Counted
pub mod Balance
pub mod Kept
pub mod Swept
pub mod Rounds
pub mod Runs
pub mod Reads
use elysiumkv.Base.{
  ℕ, zero, suc, ◌+◌, ◌-◌, ◌*◌, ◌/◌, ◌%◌, ◌^◌, Bool, true, false, ◌&&◌, not, List, [], ◌∷◌, Option,
  none, some, ltb, leb, ◌==◌, if◌then◌else◌, length, get_or, set, max, bit_xor,
}
use elysiumkv.Slice.{Bytes}
use elysiumkv.Cache.Budget.{MemoryBudget, add_size, sub_size, try_acquire_over, release}

abbrev pub num_shards : ℕ
num_shards = 16

pub record Key : Type 0 where
  pub file_number : ℕ
  pub block_offset : ℕ

unfoldable pub same_key : Key → Key → Bool
same_key a b = a.file_number == b.file_number && a.block_offset == b.block_offset

-- `KeyHash`.
unfoldable pub key_hash : Key → ℕ
key_hash key =
    let h0 = (key.file_number * 0x9E3779B97F4A7C15 + key.block_offset) % 2 ^ 64 in
    let h1 = bit_xor h0 (h0 / 2 ^ 33) in
    let h2 = h1 * 0xFF51AFD7ED558CCD % 2 ^ 64 in
    let h3 = bit_xor h2 (h2 / 2 ^ 33) in
    let h4 = h3 * 0xC4CEB9FE1A85EC53 % 2 ^ 64 in bit_xor h4 (h4 / 2 ^ 33)

-- A block is its content.
pub record Entry : Type 0 where
  pub key : Key
  pub block : Bytes
  pub charge : ℕ

-- The most recently used entry comes first.
pub record Shard : Type 0 where
  pub lru : List Entry
  pub bytes : ℕ

abbrev pub empty_shard : Shard
empty_shard = record { lru = []; bytes = 0 }

pub record Cache : Type 0 where
  pub shards : List Shard
  pub shard_capacity : ℕ
  pub budget : Option MemoryBudget
  pub hits : ℕ
  pub misses : ℕ

abbrev copies {ℓ} : {A : Type ℓ} → ℕ → A → List A
copies zero x = []
copies (suc n) x = x ∷ copies n x

unfoldable pub new_cache : ℕ → Option MemoryBudget → Cache
new_cache capacity_bytes budget = record {
  shards = copies num_shards empty_shard;
  shard_capacity = max 1 (capacity_bytes / num_shards);
  budget = budget;
  hits = 0;
  misses = 0;
}

unfoldable pub shard_index : Key → ℕ
unfolding key_hash
shard_index key = key_hash key % num_shards

unfoldable pub shard_for : Key → Cache → Shard
unfolding shard_index
shard_for key c = get_or c.shards (shard_index key) empty_shard

-- `index.find`.
unfoldable pub find : Key → List Entry → Option Entry
unfolding same_key
find key [] = none
find key (e ∷ es) = let rest = find key es in if same_key e.key key then some e else rest

unfoldable pub erase : Key → List Entry → List Entry
unfolding same_key
erase key [] = []
erase key (e ∷ es) = let rest = erase key es in if same_key e.key key then es else e ∷ rest

-- `splice` of a node to the front.
unfoldable pub to_front : Entry → List Entry → List Entry
unfolding erase
to_front e lru = e ∷ erase e.key lru

abbrev pub with_shard : Key → Shard → Cache → Cache
with_shard key s c = record c { shards = set c.shards (shard_index key) s }

-- The shard with an entry moved to the front.
unfoldable pub refreshed : Key → Entry → Cache → Cache
unfolding shard_for to_front
refreshed key e c =
    let s = shard_for key c in with_shard key (record s { lru = to_front e s.lru }) c

-- What `get` does with the outcome of the lookup.
unfoldable pub looked_up : Key → Option Entry → Cache → Option Bytes × Cache
unfolding refreshed
looked_up key none c = (none, record c { misses = (c.misses + 1) % 2 ^ 64 })
looked_up key (some e) c =
    (some e.block, record (refreshed key e c) { hits = (c.hits + 1) % 2 ^ 64 })

unfoldable pub get : ℕ → ℕ → Cache → Option Bytes × Cache
unfolding shard_for find looked_up
get file_number block_offset c =
    let key : Key = record { file_number = file_number; block_offset = block_offset } in
    looked_up key (find key (shard_for key c).lru) c

-- The last entry, and those before it.
unfoldable pub pop_back : List Entry → Option (List Entry × Entry)
pop_back [] = none
pop_back (e ∷ es) = elim (pop_back es) [
  | none ↦ some ([], e)
  | some (rest, back) ↦ some (e ∷ rest, back)
]

-- The victim's charge, and the shard without it.
unfoldable pub pop_victim : Shard → Option (Shard × ℕ)
unfolding pop_back sub_size
pop_victim s = elim (pop_back s.lru) [
  | none ↦ none
  | some (rest, victim) ↦
      some (record { lru = rest; bytes = sub_size s.bytes victim.charge }, victim.charge)
]

-- The loop of `evict_locked`, with a turn for each entry.
unfoldable pub evict_turns : ℕ → ℕ → Shard → ℕ → Shard × ℕ
unfolding pop_victim add_size
evict_turns zero capacity s released = (s, released)
evict_turns (suc n) capacity s released =
    if ltb capacity s.bytes
    then elim (pop_victim s) [
      | none ↦ (s, released)
      | some (t, charge) ↦ evict_turns n capacity t (add_size released charge)
    ]
    else (s, released)

unfoldable pub evict_locked : Shard → ℕ → Shard × ℕ
unfolding evict_turns
evict_locked s capacity = evict_turns (length s.lru) capacity s 0

-- The part of `insert` that is charged to the budget.
unfoldable pub charge_budget : ℕ → ℕ → Option MemoryBudget → Option MemoryBudget
unfolding try_acquire_over release
charge_budget acquire released none = none
charge_budget acquire released (some b) =
    let charged = (try_acquire_over acquire b).1 in
    if ltb 0 released then some (release released charged) else some charged

unfoldable pub release_budget : ℕ → Option MemoryBudget → Option MemoryBudget
unfolding release
release_budget released none = none
release_budget released (some b) = if ltb 0 released then some (release released b) else some b

-- A key that is not in the cache yet: push, count, evict.
unfoldable pub push_entry : Entry → Shard → Shard
unfolding add_size
push_entry e s = record { lru = e ∷ s.lru; bytes = add_size s.bytes e.charge }

-- What `insert` does with the outcome of the lookup.
unfoldable pub placed : Entry → Option Entry → Cache → Cache
unfolding shard_for refreshed push_entry evict_locked charge_budget
placed fresh (some e) c = refreshed fresh.key e c
placed fresh none c =
    let (t, released) = evict_locked (push_entry fresh (shard_for fresh.key c)) c.shard_capacity in
    record (with_shard fresh.key t c) { budget = charge_budget fresh.charge released c.budget }

-- `sizeof(Entry)` is `entry_size`; a null block is `none`.
unfoldable pub insert : ℕ → ℕ → ℕ → Option Bytes → Cache → Cache
unfolding shard_for find placed add_size
insert entry_size file_number block_offset none c = c
insert entry_size file_number block_offset (some block) c =
    let key : Key = record { file_number = file_number; block_offset = block_offset } in
    let fresh : Entry = record {
      key = key;
      block = block;
      charge = add_size (length block) entry_size;
    } in
    placed fresh (find key (shard_for key c).lru) c
