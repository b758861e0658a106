-- ===== src/Compact/Merging/Directions.antt =====
-- src/compact/merging_iterator.cpp: forward and backward scans from each of the four positions.
use elysiumkv.Base.{ℕ, Bool, ◌≤◌, ◌≡◌, false, List, All, map, refl}
use elysiumkv.Slice.{Bytes, key_lt, key_gt}
use elysiumkv.Sst.Iterator.{InternalIterator, Entry, IsScan, Ascending, find}
use elysiumkv.Sst.Ranges.{RangeTombstone}
use elysiumkv.Sst.Ranges.Gaps.{IsFragmented}
use elysiumkv.Compact.Merging.{
  Merging, carriers_from, make_merging_iterator, seek_to_first, seek_to_last, seek, seek_for_prev,
  collect, pick, shadowed,
}
use elysiumkv.Compact.Merging.Newest.{
  IsStrictOrder, newest, total, key_lt-IsStrictOrder, key_gt-IsStrictOrder,
}
use elysiumkv.Compact.Merging.Scan.{pick-Scanned}

-- The scan shows, of every key, the newest entry that is not covered, and goes one way.
abbrev pub Shows :
    {S : Type 0}
    → (S → List Entry)
    → (Bytes → Bytes → Bool)
    → List S
    → List (List RangeTombstone)
    → List Entry
    → Type 0
Shows ahead lt children ranges es =
    ((k : Bytes) → find k es ≡ newest ahead k children ranges) × Ascending lt es

module _ {S : Type 0} (it : InternalIterator S) (ahead : S → List Entry) (children : List S)
    (ranges : List (List RangeTombstone)) (fragmented : All IsFragmented ranges) where
  abbrev opened : (S → S) → Merging S
  opened position = record (make_merging_iterator children ranges) {
    children = map position children;
  }

  shows :
      (move : S → S) (scan : IsScan it move ahead) (lt : Bytes → Bytes → Bool)
      (order : IsStrictOrder lt) (position : S → S)
      → All (λ s. Ascending lt (ahead s)) (map position children)
      → (fuel : ℕ) → total ahead (map position children) ≤ fuel
      → Shows ahead lt
          (map position children)
          ranges
          (collect it lt move fuel fuel (pick it lt move fuel (opened position)))
  unfolding make_merging_iterator
  shows move scan lt order position a fuel t =
      let (all, clear) =
        pick-Scanned it move ahead scan lt order ranges fragmented fuel (opened position) refl a
          t in
      (all.finds, all.ascends)

  -- Over children that each promise an ascending scan, whatever their range tombstones (each child's
  -- in order with gaps between them), a forward scan from the start shows ascending keys and, of
  -- each key, the entry of the first child that has it; a key that the tombstones of an earlier
  -- child cover, or that no child has, is not shown. Fuel for as many entries as the children have
  -- is enough.
  pub collect-seek_to_first :
      IsScan it it.next ahead
      → All (λ s. Ascending key_lt (ahead s)) (map it.seek_to_first children)
      → (fuel : ℕ) → total ahead (map it.seek_to_first children) ≤ fuel
      → Shows ahead key_lt (map it.seek_to_first children) ranges (
          collect it key_lt it.next fuel fuel
            (seek_to_first it fuel (make_merging_iterator children ranges)))
  unfolding seek_to_first make_merging_iterator
  collect-seek_to_first scan a fuel t =
      shows it.next scan key_lt key_lt-IsStrictOrder it.seek_to_first a fuel t

  -- The same of a forward scan from a target: it shows what the children, each sought to the target,
  -- have from there on.
  pub collect-seek :
      IsScan it it.next ahead
      → (target : Bytes) → All (λ s. Ascending key_lt (ahead s)) (map (it.seek target) children)
      → (fuel : ℕ) → total ahead (map (it.seek target) children) ≤ fuel
      → Shows ahead key_lt (map (it.seek target) children) ranges (
          collect it key_lt it.next fuel fuel
            (seek it fuel target (make_merging_iterator children ranges)))
  unfolding seek make_merging_iterator
  collect-seek scan target a fuel t =
      shows it.next scan key_lt key_lt-IsStrictOrder (it.seek target) a fuel t

  -- Over children that each promise a descending scan by `prev`, a backward scan from the end shows
  -- descending keys and, of each key, the entry of the first child that has it: recency does not
  -- depend on the direction. A key that the tombstones of an earlier child cover is not shown.
  pub collect-seek_to_last :
      IsScan it it.prev ahead
      → All (λ s. Ascending key_gt (ahead s)) (map it.seek_to_last children)
      → (fuel : ℕ) → total ahead (map it.seek_to_last children) ≤ fuel
      → Shows ahead key_gt (map it.seek_to_last children) ranges (
          collect it key_gt it.prev fuel fuel
            (seek_to_last it fuel (make_merging_iterator children ranges)))
  unfolding seek_to_last make_merging_iterator
  collect-seek_to_last scan a fuel t =
      shows it.prev scan key_gt key_gt-IsStrictOrder it.seek_to_last a fuel t

  pub collect-seek_for_prev :
      IsScan it it.prev ahead
      → (target : Bytes)
      → All (λ s. Ascending key_gt (ahead s)) (map (it.seek_for_prev target) children)
      → (fuel : ℕ) → total ahead (map (it.seek_for_prev target) children) ≤ fuel
      → Shows ahead key_gt (map (it.seek_for_prev target) children) ranges (
          collect it key_gt it.prev fuel fuel
            (seek_for_prev it fuel target (make_merging_iterator children ranges)))
  unfolding seek_for_prev make_merging_iterator
  collect-seek_for_prev scan target a fuel t =
      shows it.prev scan key_gt key_gt-IsStrictOrder (it.seek_for_prev target) a fuel t

-- In either direction, fuel for as many entries as lie ahead is enough for the loop that passes
-- hidden entries: it ends at an entry that no earlier child's tombstones cover, or with none.
pub shadowed-pick :
    {S : Type 0} (it : InternalIterator S) (move : S → S) (ahead : S → List Entry)
    → IsScan it move ahead
    → (lt : Bytes → Bytes → Bool) → IsStrictOrder lt
    → (ranges : List (List RangeTombstone)) → All IsFragmented ranges
    → (fuel : ℕ) (m : Merging S) → m.carriers ≡ carriers_from 0 ranges
    → All (λ s. Ascending lt (ahead s)) m.children
    → total ahead m.children ≤ fuel
    → shadowed it (pick it lt move fuel m) ≡ false
shadowed-pick it move ahead scan lt order ranges fragmented fuel m c a t =
    (pick-Scanned it move ahead scan lt order ranges fragmented fuel m c a t).1
