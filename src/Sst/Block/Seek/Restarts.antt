-- ===== src/Sst/Block/Seek/Restarts.antt =====
-- src/sst/block_reader.cpp: the restart that `prev` starts from.
use elysiumkv.Base.{ℕ, zero, suc, ◌-◌, ◌<◌, ◌≤◌, ltb, arith, Bool-cases, inl, inr}
use elysiumkv.Sst.Block.{BlockIterator, restart_offset}
use elysiumkv.Sst.Block.Seek.{restart_search, restart_before, middle}

-- The restart is before the offset, and no later one is.
pub record IsLastBefore (it : BlockIterator) (offset index : ℕ) : Type 0 where
  pub in_range : index < it.num_restarts
  pub before : restart_offset it index < offset
  pub last : (j : ℕ) → index < j → j < it.num_restarts → offset ≤ restart_offset it j

module _ (it : BlockIterator) (offset : ℕ)
    (ascending : (i j : ℕ)
      → i ≤ j
      → j < it.num_restarts
      → restart_offset it i ≤ restart_offset it j) where
  restart_search-IsLastBefore :
      (n low high : ℕ)
      → high - low ≤ n
      → low ≤ high
      → high < it.num_restarts
      → restart_offset it low < offset
      → ((j : ℕ) → high < j → j < it.num_restarts → offset ≤ restart_offset it j)
      → IsLastBefore it offset (restart_search n it offset low high)
  unfolding restart_search
  restart_search-IsLastBefore zero low high f l r p q = record {
    in_range = omega (arith, l, r);
    before = p;
    last = λ j a b. q j (omega (arith, a, f, l)) b;
  }
  restart_search-IsLastBefore (suc n) low high f l r p q = elim (Bool-cases (ltb low high)) [
    | inr done ↦ rw done (record {
      in_range = omega (arith, l, r);
      before = p;
      last = λ j a b. q j (ground (arith, done, a, l)) b;
    })
    | inl more ↦
        let less : low < high = ground (arith, more) in
        elim (Bool-cases (ltb (restart_offset it (middle low high)) offset)) [
          | inl s ↦
              rw (more, s)
                (restart_search-IsLastBefore n (middle low high) high (omega (arith, f, less))
                  (omega (arith, less)) r (ground (arith, s)) q)
          | inr s ↦
              rw (more, s)
                (restart_search-IsLastBefore n low (middle low high - 1) (omega (arith, f, less))
                  (omega (arith, less)) (omega (arith, less, r)) p
                  (λ j a b.
                    let above : restart_offset it (middle low high) ≤ restart_offset it j =
                      ascending (middle low high) j (omega (arith, a, less)) b in
                    ground (arith, s, above)))
        ]
  ]

  -- In a block whose restart offsets ascend, for an offset past the first restart, the binary search
  -- ends at the last restart before the offset, within as many turns as there are restarts.
  pub restart_before-IsLastBefore :
      0 < it.num_restarts
      → restart_offset it 0 < offset
      → IsLastBefore it offset (restart_before it offset)
  unfolding restart_before
  restart_before-IsLastBefore some_restart first =
      restart_search-IsLastBefore it.num_restarts 0 (it.num_restarts - 1) (omega arith)
        (omega arith) (omega (arith, some_restart)) first (λ j a b. absurd (omega (arith, a, b)))
