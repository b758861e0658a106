-- ===== src/Cache/ShardedLru/Shed.antt =====
-- src/cache/sharded_lru.cpp: the operations that go over all shards.
use elysiumkv.Base.{
  ℕ, zero, suc, ◌+◌, Bool, true, false, ◌&&◌, List, [], ◌∷◌, Option, none, some, ltb, leb, ◌==◌,
  if◌then◌else◌, length,
}
use elysiumkv.Cache.Budget.{MemoryBudget, add_size, sub_size, release}
use elysiumkv.Cache.ShardedLru.{Entry, Shard, Cache, pop_victim, release_budget}

-- The inner loop of `evict_file`.
unfoldable pub sweep : ℕ → List Entry → Shard → ℕ → Shard × ℕ
unfolding add_size sub_size
sweep file_number [] s released = (record s { lru = [] }, released)
sweep file_number (e ∷ es) s released =
    let erased =
      sweep file_number es (record s { bytes = sub_size s.bytes e.charge })
        (add_size released e.charge) in
    let (t, r) = sweep file_number es s released in
    if e.key.file_number == file_number then erased else (record t { lru = e ∷ t.lru }, r)

unfoldable pub sweep_shards : ℕ → List Shard → ℕ → List Shard × ℕ
unfolding sweep
sweep_shards file_number [] released = ([], released)
sweep_shards file_number (s ∷ shards) released =
    let (t, r) = sweep file_number s.lru s released in
    let (ts, total) = sweep_shards file_number shards r in (t ∷ ts, total)

unfoldable pub evict_file : ℕ → Cache → Cache
unfolding sweep_shards release_budget
evict_file file_number c =
    let (shards, released) = sweep_shards file_number c.shards 0 in
    record c { shards = shards; budget = release_budget released c.budget }

-- One round over the shards in `evict_at_least`: what was released so far, and whether the round
-- released anything.
unfoldable pub round : ℕ → List Shard → ℕ → Bool → List Shard × ℕ × Bool
unfolding pop_victim add_size
round bytes [] released progress = ([], released, progress)
round bytes (s ∷ shards) released progress =
    let (skipped, r, p) = round bytes shards released progress in
    if leb bytes released then (s ∷ shards, released, progress) else elim (pop_victim s) [
      | none ↦ (s ∷ skipped, r, p)
      | some (t, charge) ↦
          let (rest, more, q) = round bytes shards (add_size released charge) true in
          (t ∷ rest, more, q)
    ]

unfoldable pub rounds : ℕ → ℕ → List Shard → ℕ → Bool → List Shard × ℕ
unfolding round
rounds zero bytes shards released progress = (shards, released)
rounds (suc n) bytes shards released progress =
    let (after, more, again) = round bytes shards released false in
    let rest = rounds n bytes after more again in
    if ltb released bytes && progress then rest else (shards, released)

abbrev pub entry_count : List Shard → ℕ
entry_count [] = 0
entry_count (s ∷ shards) = length s.lru + entry_count shards

-- A turn for every entry, and one that finds nothing.
unfoldable pub evict_at_least : ℕ → Cache → ℕ × Cache
unfolding rounds release_budget
evict_at_least bytes c =
    let (shards, released) = rounds (suc (entry_count c.shards)) bytes c.shards 0 true in
    if bytes == 0
    then (0, c)
    else (released, record c { shards = shards; budget = release_budget released c.budget })

unfoldable pub sum_bytes : List Shard → ℕ → ℕ
unfolding add_size
sum_bytes [] total = total
sum_bytes (s ∷ shards) total = sum_bytes shards (add_size total s.bytes)

unfoldable pub approximate_bytes : Cache → ℕ
unfolding sum_bytes
approximate_bytes c = sum_bytes c.shards 0

unfoldable pub release_shards : List Shard → MemoryBudget → MemoryBudget
unfolding release
release_shards [] b = b
release_shards (s ∷ shards) b = release_shards shards (release s.bytes b)

-- The destructor: what is left of the budget.
unfoldable pub destroy : Cache → Option MemoryBudget
unfolding release_shards
destroy c = elim c.budget [ none ↦ none | some b ↦ some (release_shards c.shards b) ]
