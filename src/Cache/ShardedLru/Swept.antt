-- ===== src/Cache/ShardedLru/Swept.antt =====
-- src/cache/sharded_lru.cpp: evicting a file takes exactly its entries, and counts them.
use elysiumkv.Base.{
  ℕ, suc, ◌+◌, ◌-◌, ◌<◌, ◌≤◌, ◌^◌, ◌≡◌, refl, sym, ap, ◌∙◌, Bool, true, false, not, List, [], ◌∷◌,
  inl, inr, ◌==◌, length, All, keep, arith, Bool-cases,
}
use elysiumkv.Cache.Budget.{add_size, sub_size, add_size-fits, sub_size-fits}
use elysiumkv.Cache.ShardedLru.{Entry, Shard, Cache}
use elysiumkv.Cache.ShardedLru.Shed.{sweep, sweep_shards, evict_file}
use elysiumkv.Cache.ShardedLru.Counted.{charges}
use elysiumkv.Cache.ShardedLru.Balance.{held, release_budget-IsBalanced}
use elysiumkv.Cache.ShardedLru.Kept.{IsShard, IsCache, held-le}

abbrev pub of_other_files : ℕ → List Entry → List Entry
of_other_files file_number es = keep (λ e. not (e.key.file_number == file_number)) es

of_other_files-erased :
    (file_number : ℕ) (e : Entry) (es : List Entry)
    → (e.key.file_number == file_number) ≡ true
    → of_other_files file_number (e ∷ es) ≡ of_other_files file_number es
of_other_files-erased file_number e es h = ground (arith, h)

of_other_files-kept :
    (file_number : ℕ) (e : Entry) (es : List Entry)
    → (e.key.file_number == file_number) ≡ false
    → of_other_files file_number (e ∷ es) ≡ e ∷ of_other_files file_number es
of_other_files-kept file_number e es h = ground (arith, h)

charges-of_other_files :
    (file_number : ℕ) (es : List Entry) → charges (of_other_files file_number es) ≤ charges es
charges-of_other_files file_number [] = omega arith
charges-of_other_files file_number (e ∷ es) = ground (arith, charges-of_other_files file_number es)

-- The outcome of sweeping the entries that are left to visit.
record IsSwept (file_number : ℕ) (es : List Entry) (s : Shard) (released : ℕ) (t : Shard) (r : ℕ)
    : Type 0 where
  kept : t.lru ≡ of_other_files file_number es
  moved : t.bytes + r ≡ s.bytes + released
  left : t.bytes + charges es ≡ s.bytes + charges t.lru

sweep-IsSwept :
    (file_number : ℕ) (es : List Entry) (s : Shard) (released : ℕ)
    → charges es ≤ s.bytes
    → s.bytes + released < 2 ^ 64
    → IsSwept file_number es s released
        (sweep file_number es s released).0
        (sweep file_number es s released).1
unfolding sweep
sweep-IsSwept file_number [] s released c f = record {
  kept = refl;
  moved = refl;
  left = omega arith;
}
sweep-IsSwept file_number (e ∷ es) s released c f =
    let taken : sub_size s.bytes e.charge ≡ s.bytes - e.charge =
      sub_size-fits s.bytes e.charge (omega (arith, c)) (omega (arith, f)) in
    let counted : add_size released e.charge ≡ released + e.charge =
      add_size-fits released e.charge (omega (arith, c, f)) in
    let erased =
      sweep-IsSwept file_number es (record s { bytes = sub_size s.bytes e.charge })
        (add_size released e.charge) (omega (arith, taken, c))
        (omega (arith, taken, counted, c, f)) in
    let stays = sweep-IsSwept file_number es s released (omega (arith, c)) f in
    elim (Bool-cases (e.key.file_number == file_number)) [
      | inl h ↦ rw h (record {
        kept = erased.kept ∙ sym (of_other_files-erased file_number e es h);
        moved = omega (arith, erased.moved, taken, counted, c);
        left = omega (arith, erased.left, taken, c);
      })
      | inr h ↦ rw h (record {
        kept = ap (λ l. e ∷ l) stays.kept ∙ sym (of_other_files-kept file_number e es h);
        moved = stays.moved;
        left = omega (arith, stays.left);
      })
    ]

swept_shard :
    (file_number capacity : ℕ) (s : Shard) (released : ℕ)
    → IsShard capacity s
    → s.bytes + released < 2 ^ 64
    → IsShard capacity (sweep file_number s.lru s released).0
      × ((sweep file_number s.lru s released).0.lru ≡ of_other_files file_number s.lru)
      × ((sweep file_number s.lru s released).0.bytes + (sweep file_number s.lru s released).1
          ≡ s.bytes + released)
swept_shard file_number capacity s released i f =
    let counted = i.counted in
    let w = sweep-IsSwept file_number s.lru s released (omega (arith, counted.counted)) f in
    let exact : (sweep file_number s.lru s released).0.bytes
        ≡ charges (sweep file_number s.lru s released).0.lru =
      omega (arith, w.left, counted.counted) in
    (
      record {
        counted = record { counted = exact; fits = omega (arith, w.moved, f) };
        within = omega (
          arith,
          exact,
          ap charges w.kept,
          charges-of_other_files file_number s.lru,
          counted.counted,
          i.within,
        );
      },
      w.kept,
      w.moved,
    )

-- Every shard keeps exactly the entries of other files.
abbrev pub AreSwept : ℕ → List Shard → List Shard → Type 0
AreSwept file_number [] [] = Unit {0}
AreSwept file_number [] (t ∷ ts) = ◌≡◌ {A = Bool} true false
AreSwept file_number (s ∷ ss) [] = ◌≡◌ {A = Bool} true false
AreSwept file_number (s ∷ ss) (t ∷ ts) =
    (t.lru ≡ of_other_files file_number s.lru) × AreSwept file_number ss ts

record AllSwept (file_number capacity : ℕ) (ss : List Shard) (released : ℕ) (ts : List Shard)
    (r : ℕ) : Type 0 where
  swept : AreSwept file_number ss ts
  all : All (IsShard capacity) ts
  count : length ts ≡ length ss
  moved : held ts + r ≡ held ss + released

sweep_shards-AllSwept :
    (file_number capacity : ℕ) (shards : List Shard) (released : ℕ)
    → All (IsShard capacity) shards
    → held shards + released < 2 ^ 64
    → AllSwept file_number capacity shards released
        (sweep_shards file_number shards released).0
        (sweep_shards file_number shards released).1
unfolding sweep_shards
sweep_shards-AllSwept file_number capacity [] released a f = record {
  swept = tt;
  all = tt;
  count = refl;
  moved = refl;
}
sweep_shards-AllSwept file_number capacity (s ∷ shards) released (first, a) f =
    let (ok, kept, moved) = swept_shard file_number capacity s released first (omega (arith, f)) in
    let rest =
      sweep_shards-AllSwept file_number capacity shards (sweep file_number s.lru s released).1 a
        (omega (arith, moved, f)) in
    record {
      swept = (kept, rest.swept);
      all = (ok, rest.all);
      count = ap suc rest.count;
      moved = omega (arith, moved, rest.moved);
    }

-- Unlinking a file leaves, in every shard, exactly the entries of other files in their order, keeps the
-- byte counts exact and within the capacity, and gives the budget back what it took.
pub evict_file-IsCache :
    (outside file_number : ℕ) (c : Cache)
    → IsCache outside c
    → IsCache outside (evict_file file_number c)
      × AreSwept file_number c.shards (evict_file file_number c).shards
unfolding evict_file
evict_file-IsCache outside file_number c i =
    let bound = held-le c.shard_capacity c.shards i.all i.small in
    let w =
      sweep_shards-AllSwept file_number c.shard_capacity c.shards 0 i.all
        (omega (arith, bound, i.count)) in
    (
      record {
        count = w.count ∙ i.count;
        small = i.small;
        all = w.all;
        balanced =
            release_budget-IsBalanced outside (held c.shards)
              (held (sweep_shards file_number c.shards 0).0) (sweep_shards file_number c.shards 0).1
              c.budget (omega (arith, w.moved)) (omega (arith, w.moved, bound, i.count)) i.balanced;
      },
      w.swept,
    )
