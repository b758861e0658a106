-- ===== src/Cache.antt =====
-- src/cache, include/elysiumkv/memory_budget.hpp and src/util/budget_charge.hpp: the block cache and
-- the budget it is charged to.
pub mod Budget
pub mod ShardedLru
mod Examples
