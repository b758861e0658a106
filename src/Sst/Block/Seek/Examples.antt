-- ===== src/Sst/Block/Seek/Examples.antt =====
-- The search of the restarts of a block at a concrete input.
use elysiumkv.Base.{ℕ, zero, suc, ◌<◌, ◌≤◌, ◌≡◌, refl, true, [], ◌∷◌, arith}
use elysiumkv.Sst.Format.{decode_fixed32}
use elysiumkv.Sst.Block.{BlockIterator, unset, restart_offset}
use elysiumkv.Sst.Block.Seek.{restart_before, restart_search}
use elysiumkv.Sst.Block.Seek.Restarts.{IsLastBefore, restart_before-IsLastBefore}

-- Three restarts, at 0, 10 and 20, behind the entries.
abbrev three : BlockIterator
three =
    record (unset (7 ∷ 7 ∷ 0 ∷ 0 ∷ 0 ∷ 0 ∷ 10 ∷ 0 ∷ 0 ∷ 0 ∷ 20 ∷ 0 ∷ 0 ∷ 0 ∷ 3 ∷ 0 ∷ 0 ∷ 0 ∷ [])) {
      has_data = true;
      entries_end = 2;
      num_restarts = 3;
    }

before_fifteen : restart_before three 15 ≡ 1
unfolding restart_before restart_search restart_offset decode_fixed32
before_fifteen = refl

ascending : (i j : ℕ) → i ≤ j → j < 3 → restart_offset three i ≤ restart_offset three j
unfolding restart_offset decode_fixed32
ascending zero zero l h = omega arith
ascending zero (suc zero) l h = omega arith
ascending zero (suc (suc zero)) l h = omega arith
ascending (suc zero) zero l h = absurd (omega (arith, l))
ascending (suc zero) (suc zero) l h = omega arith
ascending (suc zero) (suc (suc zero)) l h = omega arith
ascending (suc (suc zero)) zero l h = absurd (omega (arith, l))
ascending (suc (suc zero)) (suc zero) l h = absurd (omega (arith, l))
ascending (suc (suc zero)) (suc (suc zero)) l h = omega arith
ascending i (suc (suc (suc j))) l h = absurd (omega (arith, h))
ascending (suc (suc (suc i))) j l h = absurd (omega (arith, l, h))

restart_before-IsLastBefore_example : IsLastBefore three 15 (restart_before three 15)
unfolding restart_offset decode_fixed32
restart_before-IsLastBefore_example =
    restart_before-IsLastBefore three 15 ascending (omega arith) (omega arith)
