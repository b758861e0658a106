-- ===== src/Cache/Examples.antt =====
-- The block cache and the memory budget at concrete inputs.
use elysiumkv.Base.{ℕ, ◌≡◌, refl, List, [], ◌∷◌, some, All, arith, length}
use elysiumkv.Slice.{Bytes}
use mathlib.Core.Option.{some-injective}
use mathlib.Core.Path.{ap, sym}
use elysiumkv.Cache.Budget.{MemoryBudget}
use elysiumkv.Cache.ShardedLru.{Cache, new_cache, get, insert}
use elysiumkv.Cache.ShardedLru.Shed.{evict_file, evict_at_least, destroy}
use elysiumkv.Cache.ShardedLru.Balance.{IsBalanced}
use elysiumkv.Cache.ShardedLru.Kept.{IsCache}
use elysiumkv.Cache.ShardedLru.Swept.{AreSwept, evict_file-IsCache}
use elysiumkv.Cache.ShardedLru.Rounds.{IsShedCache, evict_at_least-IsShedCache}
use elysiumkv.Cache.ShardedLru.Reads.{or_else, get-insert}
use elysiumkv.Cache.ShardedLru.Runs.{
  Operation, look_up, store, unlink, shed, run, Fits, run-IsCache, destroy-run,
}

abbrev budget : MemoryBudget
budget = record { total = 5000; used = 700 }

abbrev block : Bytes
block = 1 ∷ 2 ∷ 3 ∷ []

abbrev operations : List Operation
operations =
    store 7 0 (some block) ∷ look_up 7 0 ∷ store 8 4096 (some block) ∷ unlink 7 ∷ shed 10 ∷ []

fits : (file_number block_offset : ℕ) → Fits 48 (store file_number block_offset (some block))
fits f o b e = omega (arith, ap length (sym (some-injective block b e)))

all_fit : All (Fits 48) operations
all_fit = (fits 7 0, (tt, (fits 8 4096, (tt, (tt, tt)))))

abbrev after : Cache
after = run 48 operations (new_cache 65536 (some budget))

run-IsCache_example : IsCache 700 after
run-IsCache_example = run-IsCache 48 65536 700 (some budget) operations (omega arith) refl all_fit

destroy-run_example : IsBalanced 700 0 (destroy after)
destroy-run_example =
    destroy-run 48 65536 700 budget operations (omega arith) (omega arith) refl all_fit

evict_file-IsCache_example :
    IsCache 700 (evict_file 8 after) × AreSwept 8 after.shards (evict_file 8 after).shards
evict_file-IsCache_example =
    evict_file-IsCache 700 8 after
      (run-IsCache 48 65536 700 (some budget) operations (omega arith) refl all_fit)

evict_at_least-IsShedCache_example :
    IsShedCache 700 40 after (evict_at_least 40 after).0 (evict_at_least 40 after).1
evict_at_least-IsShedCache_example =
    evict_at_least-IsShedCache 700 40 after
      (run-IsCache 48 65536 700 (some budget) operations (omega arith) refl all_fit)

abbrev fresh : Cache
fresh = new_cache 65536 (some budget)

get-insert_example :
    (get 9 512 (insert 48 9 512 (some block) fresh)).0 ≡ some (or_else (get 9 512 fresh).0 block)
unfolding new_cache
get-insert_example =
    get-insert 700 48 9 512 block fresh
      (run-IsCache 48 65536 700 (some budget) [] (omega arith) refl tt) (omega arith)
