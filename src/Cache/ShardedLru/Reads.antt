-- ===== src/Cache/ShardedLru/Reads.antt =====
-- src/cache/sharded_lru.cpp: a block that was inserted is read back.
use elysiumkv.Base.{
  ℕ, ◌+◌, ◌≤◌, ◌≡◌, ◌≢◌, refl, sym, ap, ◌∙◌, List, [], ◌∷◌, ◌++◌, Option, none, some, length,
  get_or, set, arith, subst,
}
use elysiumkv.Slice.{Bytes}
use elysiumkv.Cache.Budget.{add_size, add_size-fits}
use elysiumkv.Cache.ShardedLru.{
  Key, Entry, Shard, Cache, empty_shard, shard_index, shard_for, find, get, insert, placed,
  looked_up, refreshed, push_entry, evict_locked, to_front, erase,
}
use elysiumkv.Cache.ShardedLru.Counted.{charges, evict_locked-IsEvicted, first_of}
use elysiumkv.Cache.ShardedLru.Balance.{same_key_refl, get_or-set, find-erase}
use elysiumkv.Cache.ShardedLru.Kept.{
  IsCache, shard_for-IsShard, push_entry-IsCounted, shard_index-lt,
}

-- What a shard has for a key.
abbrev block_in : Key → Cache → Option Bytes
block_in key c = elim (find key (shard_for key c).lru) [ none ↦ none | some e ↦ some e.block ]

abbrev pub or_else : Option Bytes → Bytes → Bytes
or_else none b = b
or_else (some a) b = a

shard_for-with_shard :
    (outside : ℕ) (key : Key) (t : Shard) (c : Cache) (after : Cache)
    → IsCache outside c
    → after.shards ≡ set c.shards (shard_index key) t
    → shard_for key after ≡ t
unfolding shard_for
shard_for-with_shard outside key t c after i e =
    ap (λ l. get_or l (shard_index key) empty_shard) e
    ∙ get_or-set c.shards (shard_index key) t empty_shard
        (omega (arith, i.count, shard_index-lt key))

find_first : (e : Entry) (es : List Entry) → find e.key (e ∷ es) ≡ some e
unfolding find
find_first e es = rw (same_key_refl e.key) refl

-- The front of a shard that gave up no more than it had to.
front_survives :
    (fresh : Entry) (rest : List Entry) (t : Shard) (gone : List Entry)
    → fresh ∷ rest ≡ t.lru ++ gone
    → (t.lru ≡ [] → (e : Entry) (more : List Entry) → gone ≢ e ∷ more)
    → find fresh.key t.lru ≡ some fresh
front_survives fresh rest t gone split needed = at t.lru refl
  where
    at : (es : List Entry) → t.lru ≡ es → find fresh.key t.lru ≡ some fresh
    at [] e = absurd (needed e fresh rest (sym (split ∙ ap (λ l. l ++ gone) e)))
    at (x ∷ es) e =
        let same : fresh ≡ x = first_of fresh x rest (es ++ gone) (split ∙ ap (λ l. l ++ gone) e) in
        rw e (subst (λ y. find fresh.key (y ∷ es) ≡ some fresh) same (find_first fresh es))

refreshed_block :
    (outside : ℕ) (key : Key) (e : Entry) (c : Cache)
    → IsCache outside c
    → find key (shard_for key c).lru ≡ some e
    → find key (shard_for key (refreshed key e c)).lru ≡ some e
unfolding refreshed to_front
refreshed_block outside key e c i found =
    let s = shard_for key c in
    let t : Shard = record s { lru = e ∷ erase e.key s.lru } in
    let (same, sum) = find-erase key s.lru e found in
    ap (λ u. find key u.lru)
      (shard_for-with_shard outside key t c (record c { shards = set c.shards (shard_index key) t })
        i refl)
    ∙ subst (λ k. find k (e ∷ erase e.key s.lru) ≡ some e) same (find_first e (erase e.key s.lru))

placed_block :
    (outside : ℕ) (fresh : Entry) (c : Cache)
    → IsCache outside c
    → fresh.charge ≤ c.shard_capacity
    → find fresh.key (shard_for fresh.key (placed fresh none c)).lru ≡ some fresh
unfolding placed
placed_block outside fresh c i h =
    let s = shard_for fresh.key c in
    let ok = shard_for-IsShard outside fresh.key c i in
    let (counted, sum) =
      push_entry-IsCounted c.shard_capacity fresh s ok i.small (omega (arith, h, i.small)) in
    let (t, freed, runs, e) =
      evict_locked-IsEvicted (push_entry fresh s) c.shard_capacity counted in
    let front = e.front in
    let kept = front.kept in
    ap (λ u. find fresh.key u.lru)
      (shard_for-with_shard outside fresh.key (evict_locked (push_entry fresh s) c.shard_capacity).0
        c (placed fresh none c) i refl)
    ∙ ap (λ r. find fresh.key r.0.lru) runs
    ∙ front_survives fresh s.lru t e.gone (pushed fresh s ∙ front.split) (λ nil x more g.
      let first : fresh ≡ x =
        first_of fresh x s.lru more
          (pushed fresh s ∙ front.split ∙ ap (λ l. l ++ e.gone) nil ∙ g) in
      let charge : fresh.charge ≡ x.charge = ap (λ y. y.charge) first in
      omega (arith, e.needed x more g, charge, h, kept.counted, ap charges nil))
  where
    pushed : (e : Entry) (s : Shard) → e ∷ s.lru ≡ (push_entry e s).lru
    pushed e s = unfold push_entry in refl

got :
    (file_number block_offset : ℕ) (c : Cache)
    → (get file_number block_offset c).0
      ≡ block_in (record { file_number = file_number; block_offset = block_offset }) c
unfolding get looked_up
got file_number block_offset c = at (
    find (record { file_number = file_number; block_offset = block_offset })
      (shard_for (record { file_number = file_number; block_offset = block_offset }) c).lru)
  where
    at :
        (o : Option Entry)
        → (looked_up (record { file_number = file_number; block_offset = block_offset }) o c).0
          ≡ elim o [ none ↦ none | some e ↦ some e.block ]
    at none = refl
    at (some e) = refl

block_of : Option Entry → Option Bytes
block_of none = none
block_of (some e) = some e.block

block_in-block_of :
    (key : Key) (c : Cache) → block_in key c ≡ block_of (find key (shard_for key c).lru)
unfolding block_of
block_in-block_of key c = at (find key (shard_for key c).lru)
  where
    at : (o : Option Entry) → elim o [ none ↦ none | some e ↦ some e.block ] ≡ block_of o
    at none = refl
    at (some e) = refl

block_in-placed :
    (outside : ℕ) (fresh : Entry) (o : Option Entry) (c : Cache)
    → IsCache outside c
    → fresh.charge ≤ c.shard_capacity
    → find fresh.key (shard_for fresh.key c).lru ≡ o
    → block_in fresh.key (placed fresh o c) ≡ some (or_else (block_of o) fresh.block)
block_in-placed outside fresh none c i h found =
    block_in-block_of fresh.key (placed fresh none c)
    ∙ ap block_of (placed_block outside fresh c i h)
    ∙ unfold block_of in refl
block_in-placed outside fresh (some e) c i h found =
    block_in-block_of fresh.key (placed fresh (some e) c)
    ∙ unfold placed block_of in ap block_of (refreshed_block outside fresh.key e c i found)

-- From any state that a run leaves, a block whose charge is within a shard's capacity is found right
-- after it is inserted: inserting evicts others before it. A key that was in the cache keeps the
-- block it had, since blocks do not change.
pub get-insert :
    (outside entry_size file_number block_offset : ℕ) (block : Bytes) (c : Cache)
    → IsCache outside c
    → length block + entry_size ≤ c.shard_capacity
    → (get file_number block_offset (insert entry_size file_number block_offset (some block) c)).0
      ≡ some (or_else (get file_number block_offset c).0 block)
unfolding insert
get-insert outside entry_size file_number block_offset block c i h =
    let key : Key = record { file_number = file_number; block_offset = block_offset } in
    let fresh : Entry = record {
      key = key;
      block = block;
      charge = add_size (length block) entry_size;
    } in
    let fits : add_size (length block) entry_size ≡ length block + entry_size =
      add_size-fits (length block) entry_size (omega (arith, h, i.small)) in
    let found = find key (shard_for key c).lru in
    got file_number block_offset (placed fresh found c)
    ∙ block_in-placed outside fresh found c i (omega (arith, fits, h)) refl
    ∙ ap (λ o. some (or_else o block))
        (sym (got file_number block_offset c ∙ block_in-block_of key c))
