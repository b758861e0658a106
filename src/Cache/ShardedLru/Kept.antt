-- ===== src/Cache/ShardedLru/Kept.antt =====
-- src/cache/sharded_lru.cpp: lookups and insertions keep the counts exact, within the capacity, and
-- equal to what the budget counts.
use elysiumkv.Base.{
  ℕ, ◌+◌, ◌*◌, ◌<◌, ◌≤◌, ◌^◌, ◌≡◌, refl, sym, ◌∙◌, List, [], ◌∷◌, Option, none, some, length, All,
  set, arith, subst, max, ◌/◌,
}
use elysiumkv.Slice.{Bytes}
use elysiumkv.Cache.Budget.{MemoryBudget, add_size, add_size-fits}
use elysiumkv.Cache.ShardedLru.{
  Key, Entry, Shard, Cache, empty_shard, new_cache, shard_index, shard_for, find, to_front, get,
  insert, push_entry, looked_up, refreshed, placed, charge_budget, with_shard, num_shards,
}
use elysiumkv.Cache.ShardedLru.Counted.{IsCounted, evict_locked-IsEvicted}
use elysiumkv.Cache.ShardedLru.Balance.{
  held, held-set, All-set, All-get_or, length-set, charges-to_front, IsBalanced,
  charge_budget-IsBalanced,
}

-- A shard's count is exact and within its capacity.
pub record IsShard (capacity : ℕ) (s : Shard) : Type 0 where
  pub counted : IsCounted s
  pub within : s.bytes ≤ capacity

-- Every shard is, and the budget counts what they hold on top of what it counts of others.
pub record IsCache (outside : ℕ) (c : Cache) : Type 0 where
  pub count : length c.shards ≡ num_shards
  pub small : c.shard_capacity < 2 ^ 60
  pub all : All (IsShard c.shard_capacity) c.shards
  pub balanced : IsBalanced outside (held c.shards) c.budget

empty-IsShard : (capacity : ℕ) → IsShard capacity empty_shard
empty-IsShard capacity = record {
  counted = record { counted = refl; fits = omega arith };
  within = omega arith;
}

pub new_cache-IsCache :
    (capacity_bytes outside : ℕ) (budget : Option MemoryBudget)
    → capacity_bytes < 2 ^ 64
    → IsBalanced outside 0 budget
    → IsCache outside (new_cache capacity_bytes budget)
unfolding new_cache
new_cache-IsCache capacity_bytes outside budget h b =
    let e = empty-IsShard (max 1 (capacity_bytes / 16)) in
    record {
      count = refl;
      small = omega (arith, h);
      all = (e, (e, (e, (e, (e, (e, (e, (e, (e, (e, (e, (e, (e, (e, (e, (e, tt))))))))))))))));
      balanced = b;
    }

pub shard_index-lt : (key : Key) → shard_index key < 16
unfolding shard_index
shard_index-lt key = omega arith

-- Shards that are within their capacity hold less than a `size_t` counts.
pub held-le :
    (capacity : ℕ) (shards : List Shard)
    → All (IsShard capacity) shards
    → capacity < 2 ^ 60
    → held shards + length shards ≤ length shards * 2 ^ 60
held-le capacity [] a c = omega arith
held-le capacity (s ∷ shards) (first, a) c =
    omega (arith, first.within, held-le capacity shards a c)

-- Putting a shard back with another list and count.
put_back :
    (outside : ℕ) (key : Key) (t : Shard) (c : Cache) (budget : Option MemoryBudget)
    → IsCache outside c
    → IsShard c.shard_capacity t
    → IsBalanced outside (held (set c.shards (shard_index key) t)) budget
    → IsCache outside (record (with_shard key t c) { budget = budget })
put_back outside key t c budget i s b = record {
  count = length-set c.shards (shard_index key) t ∙ i.count;
  small = i.small;
  all = All-set (IsShard c.shard_capacity) c.shards (shard_index key) t s i.all;
  balanced = b;
}

pub shard_for-IsShard :
    (outside : ℕ) (key : Key) (c : Cache)
    → IsCache outside c
    → IsShard c.shard_capacity (shard_for key c)
unfolding shard_for
shard_for-IsShard outside key c i =
    All-get_or (IsShard c.shard_capacity) c.shards (shard_index key) empty_shard
      (empty-IsShard c.shard_capacity) i.all

held_put :
    (outside : ℕ) (key : Key) (t : Shard) (c : Cache)
    → IsCache outside c
    → held (set c.shards (shard_index key) t) + (shard_for key c).bytes ≡ held c.shards + t.bytes
unfolding shard_for
held_put outside key t c i =
    held-set c.shards (shard_index key) t (omega (arith, i.count, shard_index-lt key))

-- Moving an entry to the front changes no count.
refreshed-IsCache :
    (outside : ℕ) (key : Key) (e : Entry) (c : Cache)
    → IsCache outside c
    → find key (shard_for key c).lru ≡ some e
    → IsCache outside (refreshed key e c)
unfolding refreshed
refreshed-IsCache outside key e c i found =
    let s = shard_for key c in
    let ok = shard_for-IsShard outside key c i in
    let t : Shard = record s { lru = to_front e s.lru } in
    let counted = ok.counted in
    let same : held (set c.shards (shard_index key) t) ≡ held c.shards =
      omega (arith, held_put outside key t c i) in
    put_back outside key t c c.budget i
      (record {
        counted = record {
          counted = counted.counted ∙ sym (charges-to_front key s.lru e found);
          fits = counted.fits;
        };
        within = ok.within;
      })
      (subst (λ h. IsBalanced outside h c.budget) (sym same) i.balanced)

looked_up-IsCache :
    (outside : ℕ) (key : Key) (o : Option Entry) (c : Cache)
    → IsCache outside c
    → find key (shard_for key c).lru ≡ o
    → IsCache outside ((looked_up key o c).1)
unfolding looked_up
looked_up-IsCache outside key none c i found = record {
  count = i.count;
  small = i.small;
  all = i.all;
  balanced = i.balanced;
}
looked_up-IsCache outside key (some e) c i found =
    let r = refreshed-IsCache outside key e c i found in
    record { count = r.count; small = r.small; all = r.all; balanced = r.balanced }

pub get-IsCache :
    (outside file_number block_offset : ℕ) (c : Cache)
    → IsCache outside c
    → IsCache outside ((get file_number block_offset c).1)
unfolding get
get-IsCache outside file_number block_offset c i =
    let key : Key = record { file_number = file_number; block_offset = block_offset } in
    looked_up-IsCache outside key (find key (shard_for key c).lru) c i refl

pub push_entry-IsCounted :
    (capacity : ℕ) (e : Entry) (s : Shard)
    → IsShard capacity s
    → capacity < 2 ^ 60
    → e.charge < 2 ^ 63
    → IsCounted (push_entry e s) × ((push_entry e s).bytes ≡ s.bytes + e.charge)
unfolding push_entry
push_entry-IsCounted capacity e s i c h =
    let sum : add_size s.bytes e.charge ≡ s.bytes + e.charge =
      add_size-fits s.bytes e.charge (omega (arith, i.within, c, h)) in
    let counted = i.counted in
    (
      record {
        counted = omega (arith, sum, counted.counted);
        fits = omega (arith, sum, i.within, c, h);
      },
      sum,
    )

placed-IsCache :
    (outside : ℕ) (fresh : Entry) (o : Option Entry) (c : Cache)
    → IsCache outside c
    → find fresh.key (shard_for fresh.key c).lru ≡ o
    → fresh.charge < 2 ^ 63
    → IsCache outside (placed fresh o c)
unfolding placed
placed-IsCache outside fresh (some e) c i found h = refreshed-IsCache outside fresh.key e c i found
placed-IsCache outside fresh none c i found h =
    let s = shard_for fresh.key c in
    let ok = shard_for-IsShard outside fresh.key c i in
    let (counted, sum) = push_entry-IsCounted c.shard_capacity fresh s ok i.small h in
    let (t, freed, runs, e) =
      evict_locked-IsEvicted (push_entry fresh s) c.shard_capacity counted in
    let front = e.front in
    let total : t.bytes + freed ≡ s.bytes + fresh.charge =
      omega (arith, front.freed, e.given_up, sum) in
    subst
      (λ r.
        IsCache outside (record (with_shard fresh.key r.0 c) {
          budget = charge_budget fresh.charge r.1 c.budget;
        }))
      (sym runs)
      (put_back outside fresh.key t c (charge_budget fresh.charge freed c.budget) i
        (record { counted = front.kept; within = e.within })
        (charge_budget-IsBalanced outside (held c.shards)
          (held (set c.shards (shard_index fresh.key) t)) fresh.charge freed c.budget
          (omega (arith, held_put outside fresh.key t c i, total))
          (omega (arith, total, ok.within, i.small, h)) i.balanced))

pub insert-IsCache :
    (outside entry_size file_number block_offset : ℕ) (block : Option Bytes) (c : Cache)
    → IsCache outside c
    → ((b : Bytes) → block ≡ some b → length b + entry_size < 2 ^ 63)
    → IsCache outside (insert entry_size file_number block_offset block c)
unfolding insert
insert-IsCache outside entry_size file_number block_offset none c i h = i
insert-IsCache outside entry_size file_number block_offset (some block) c i h =
    let key : Key = record { file_number = file_number; block_offset = block_offset } in
    let fresh : Entry = record {
      key = key;
      block = block;
      charge = add_size (length block) entry_size;
    } in
    let fits : add_size (length block) entry_size ≡ length block + entry_size =
      add_size-fits (length block) entry_size (omega (arith, h block refl)) in
    placed-IsCache outside fresh (find key (shard_for key c).lru) c i refl
      (omega (arith, fits, h block refl))
