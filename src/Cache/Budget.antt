-- ===== src/Cache/Budget.antt =====
-- include/elysiumkv/memory_budget.hpp and src/util/budget_charge.hpp: the process-wide memory budget.
-- A `size_t` has 64 bits, and the counter wraps. Each operation is one atomic step.
use elysiumkv.Base.{
  ℕ, ◌+◌, ◌-◌, ◌%◌, ◌^◌, ◌<◌, ◌≤◌, ◌≡◌, Bool, true, false, Option, none, some, ltb, leb, ◌==◌,
  if◌then◌else◌, arith, refl, ap, inl, inr, Bool-cases,
}

pub record MemoryBudget : Type 0 where
  pub total : ℕ
  pub used : ℕ

-- Addition and subtraction of a `size_t`.
unfoldable pub add_size : ℕ → ℕ → ℕ
add_size a b = (a + b) % 2 ^ 64

unfoldable pub sub_size : ℕ → ℕ → ℕ
sub_size a b = (a + 2 ^ 64 - b) % 2 ^ 64

unfoldable pub new_budget : ℕ → MemoryBudget
new_budget total_bytes = record { total = total_bytes; used = 0 }

unfoldable pub try_acquire : ℕ → MemoryBudget → Bool × MemoryBudget
unfolding add_size
try_acquire bytes b =
    if ltb b.total (add_size b.used bytes)
    then (false, b)
    else (true, record b { used = add_size b.used bytes })

unfoldable pub try_acquire_over : ℕ → MemoryBudget → Bool × MemoryBudget
unfolding add_size
try_acquire_over bytes b =
    (leb (add_size b.used bytes) b.total, record b { used = add_size b.used bytes })

unfoldable pub release : ℕ → MemoryBudget → MemoryBudget
unfolding sub_size
release bytes b = record b { used = sub_size b.used bytes }

unfoldable pub overage : MemoryBudget → ℕ
overage b = if ltb b.total b.used then b.used - b.total else 0

-- The constructor and the destructor of a `BudgetCharge`; no budget is `none`.
unfoldable pub open_charge : ℕ → Option MemoryBudget → Option MemoryBudget
unfolding try_acquire_over
open_charge bytes none = none
open_charge bytes (some b) = if bytes == 0 then some b else some ((try_acquire_over bytes b).1)

unfoldable pub close_charge : ℕ → Option MemoryBudget → Option MemoryBudget
unfolding release
close_charge bytes none = none
close_charge bytes (some b) = if bytes == 0 then some b else some (release bytes b)

pub sub_size-add_size : (a b : ℕ) → a < 2 ^ 64 → b < 2 ^ 64 → sub_size (add_size a b) b ≡ a
unfolding sub_size add_size
sub_size-add_size a b h k = omega arith

-- Sizes that fit are added and taken away as numbers.
pub add_size-fits : (a b : ℕ) → a + b < 2 ^ 64 → add_size a b ≡ a + b
unfolding add_size
add_size-fits a b h = omega arith

pub sub_size-fits : (a b : ℕ) → b ≤ a → a < 2 ^ 64 → sub_size a b ≡ a - b
unfolding sub_size
sub_size-fits a b h k = omega arith

-- A charge that is opened and closed leaves the budget as it was, whether or not the charge put it
-- over its total, for a count and a size that fit 64 bits.
pub close_charge-open_charge :
    (bytes : ℕ) (b : MemoryBudget)
    → bytes < 2 ^ 64
    → b.used < 2 ^ 64
    → close_charge bytes (open_charge bytes (some b)) ≡ some b
unfolding close_charge open_charge try_acquire_over release
close_charge-open_charge bytes b h k = elim (Bool-cases (bytes == 0)) [
  | inl z ↦ rw (z, z) refl
  | inr n ↦ rw (n, n) (ap (λ u. some (record b { used = u })) (sub_size-add_size b.used bytes k h))
]
