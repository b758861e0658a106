-- ===== src/Cache/ShardedLru/Runs.antt =====
-- src/cache/sharded_lru.cpp: whole runs of the cache, its destruction, and reading back.
use elysiumkv.Base.{
  ℕ, ◌+◌, ◌%◌, ◌<◌, ◌^◌, ◌≡◌, ◌∙◌, List, [], ◌∷◌, Option, none, some, length, All, arith,
}
use elysiumkv.Slice.{Bytes}
use elysiumkv.Cache.Budget.{MemoryBudget, add_size, release, sub_size, add_size-fits}
use elysiumkv.Cache.ShardedLru.{Shard, Cache, new_cache, get, insert}
use elysiumkv.Cache.ShardedLru.Shed.{
  evict_file, evict_at_least, approximate_bytes, sum_bytes, destroy, release_shards,
}
use elysiumkv.Cache.ShardedLru.Balance.{held, IsBalanced}
use elysiumkv.Cache.ShardedLru.Kept.{
  IsCache, new_cache-IsCache, get-IsCache, insert-IsCache, held-le,
}
use elysiumkv.Cache.ShardedLru.Swept.{evict_file-IsCache}
use elysiumkv.Cache.ShardedLru.Rounds.{evict_at_least-IsShedCache}

-- The operations of a cache, as its callers make them.
pub data Operation : Type 0 where
  look_up : ℕ → ℕ → Operation
  store : ℕ → ℕ → Option Bytes → Operation
  unlink : ℕ → Operation
  shed : ℕ → Operation

abbrev perform : ℕ → Operation → Cache → Cache
perform entry_size (look_up file_number block_offset) c = (get file_number block_offset c).1
perform entry_size (store file_number block_offset block) c =
    insert entry_size file_number block_offset block c
perform entry_size (unlink file_number) c = evict_file file_number c
perform entry_size (shed bytes) c = (evict_at_least bytes c).1

abbrev pub run : ℕ → List Operation → Cache → Cache
run entry_size [] c = c
run entry_size (op ∷ ops) c = run entry_size ops (perform entry_size op c)

-- A block that is stored is smaller than half of what a `size_t` counts.
abbrev pub Fits : ℕ → Operation → Type 0
Fits entry_size (store file_number block_offset block) =
    (b : Bytes) → block ≡ some b → length b + entry_size < 2 ^ 63
Fits entry_size _ = Unit {0}

perform-IsCache :
    (outside entry_size : ℕ) (op : Operation) (c : Cache)
    → Fits entry_size op
    → IsCache outside c
    → IsCache outside (perform entry_size op c)
perform-IsCache outside entry_size (look_up f o) c h i = get-IsCache outside f o c i
perform-IsCache outside entry_size (store f o b) c h i =
    insert-IsCache outside entry_size f o b c i h
perform-IsCache outside entry_size (unlink f) c h i = (evict_file-IsCache outside f c i).0
perform-IsCache outside entry_size (shed n) c h i = (evict_at_least-IsShedCache outside n c i).kept

pub run-from-IsCache :
    (outside entry_size : ℕ) (ops : List Operation) (c : Cache)
    → All (Fits entry_size) ops
    → IsCache outside c
    → IsCache outside (run entry_size ops c)
run-from-IsCache outside entry_size [] c h i = i
run-from-IsCache outside entry_size (op ∷ ops) c (ho, h) i =
    run-from-IsCache outside entry_size ops (perform entry_size op c) h
      (perform-IsCache outside entry_size op c ho i)

-- After any run from a new cache, of blocks that are each smaller than 2^63 bytes with their entry,
-- every shard's byte count is the sum of its entries' charges and within the shard's capacity, and
-- the budget counts what the shards hold on top of what it counted of others, up to the wrap of its
-- counter.
pub run-IsCache :
    (entry_size capacity_bytes outside : ℕ) (budget : Option MemoryBudget) (ops : List Operation)
    → capacity_bytes < 2 ^ 64
    → IsBalanced outside 0 budget
    → All (Fits entry_size) ops
    → IsCache outside (run entry_size ops (new_cache capacity_bytes budget))
run-IsCache entry_size capacity_bytes outside budget ops h b f =
    run-from-IsCache outside entry_size ops (new_cache capacity_bytes budget) f
      (new_cache-IsCache capacity_bytes outside budget h b)

release_shards-used :
    (shards : List Shard) (outside : ℕ) (b : MemoryBudget)
    → b.used ≡ (outside + held shards) % 2 ^ 64
    → held shards < 2 ^ 64
    → (release_shards shards b).used ≡ outside % 2 ^ 64
unfolding release_shards release sub_size
release_shards-used [] outside b h k = omega (arith, h)
release_shards-used (s ∷ shards) outside b h k =
    release_shards-used shards outside (release s.bytes b) (omega (arith, h, k)) (omega (arith, k))

-- Destroying a cache after any such run gives back all that it held: the budget counts exactly what
-- it counted of others.
pub destroy-run :
    (entry_size capacity_bytes outside : ℕ) (b : MemoryBudget) (ops : List Operation)
    → capacity_bytes < 2 ^ 64
    → outside < 2 ^ 64
    → b.used ≡ outside
    → All (Fits entry_size) ops
    → IsBalanced outside 0 (destroy (run entry_size ops (new_cache capacity_bytes (some b))))
unfolding destroy
destroy-run entry_size capacity_bytes outside b ops h o u f =
    let i = run-IsCache entry_size capacity_bytes outside (some b) ops h (omega (arith, o, u)) f in
    let c = run entry_size ops (new_cache capacity_bytes (some b)) in
    let bound = held-le c.shard_capacity c.shards i.all i.small in
    given_back c.shards c.budget (omega (arith, bound, i.count)) i.balanced
  where
    given_back :
        (shards : List Shard) (budget : Option MemoryBudget)
        → held shards < 2 ^ 64
        → IsBalanced outside (held shards) budget
        → IsBalanced outside 0
            (elim budget [ none ↦ none | some b ↦ some (release_shards shards b) ])
    given_back shards none k e = tt
    given_back shards (some b) k e = release_shards-used shards outside b e k ∙ omega arith

sum_bytes-held :
    (shards : List Shard) (total : ℕ)
    → total + held shards < 2 ^ 64
    → sum_bytes shards total ≡ total + held shards
unfolding sum_bytes
sum_bytes-held [] total h = omega arith
sum_bytes-held (s ∷ shards) total h =
    let sum : add_size total s.bytes ≡ total + s.bytes =
      add_size-fits total s.bytes (omega (arith, h)) in
    sum_bytes-held shards (add_size total s.bytes) (omega (arith, sum, h)) ∙ omega (arith, sum)

pub approximate_bytes-held :
    (outside : ℕ) (c : Cache) → IsCache outside c → approximate_bytes c ≡ held c.shards
unfolding approximate_bytes
approximate_bytes-held outside c i =
    let bound = held-le c.shard_capacity c.shards i.all i.small in
    sum_bytes-held c.shards 0 (omega (arith, bound, i.count)) ∙ omega arith
