-- ===== src/Compact/Merging.antt =====
-- src/compact/merging_iterator.cpp: one scan over several children, where the earlier child wins on
-- equal keys and a child's range tombstones hide what they cover in later children. The two `while`
-- loops that pass hidden entries run on fuel; each turn passes an entry.
pub mod Newest
pub mod Pick
pub mod Pass
pub mod Hidden
pub mod Turn
pub mod Settle
pub mod Scan
pub mod Directions
use elysiumkv.Base.{
  ℕ, zero, suc, ◌+◌, Bool, true, false, ◌&&◌, not, List, [], ◌∷◌, Option, none, some, ◌==◌, ltb,
  leb, if◌then◌else◌, get_elem?, set, map,
}
use elysiumkv.Status.{Status}
use elysiumkv.Slice.{Bytes, key_lt, key_gt, key_eq}
use elysiumkv.Sst.Iterator.{InternalIterator, Entry, entry_of}
use elysiumkv.Sst.Block.{ValueType}
use elysiumkv.Sst.Ranges.{RangeTombstone}
use elysiumkv.Version.Levels.{leading}

-- A child that has range tombstones, by its index.
pub record Carrier : Type 0 where
  pub child : ℕ
  pub ranges : List RangeTombstone

-- `current = -1` is `none`.
pub record Merging (S : Type 0) : Type 0 where
  pub children : List S
  pub carriers : List Carrier
  pub current : Option ℕ
  pub status : Status

-- The constructor's loop.
unfoldable pub carriers_from : ℕ → List (List RangeTombstone) → List Carrier
carriers_from i [] = []
carriers_from i ([] ∷ more) = carriers_from (suc i) more
carriers_from i ((r ∷ ranges) ∷ more) =
    record { child = i; ranges = r ∷ ranges } ∷ carriers_from (suc i) more

unfoldable pub make_merging_iterator :
    {S : Type 0} → List S → List (List RangeTombstone) → Merging S
unfolding carriers_from
make_merging_iterator children child_ranges = record {
  children = children;
  carriers = carriers_from 0 child_ranges;
  current = none;
  status = Status.ok;
}

-- One carrier in the loop of `shadowed`: the last range that starts at or below the key.
unfoldable pub range_holds : List RangeTombstone → Bytes → Bool
unfolding leading
range_holds ranges key = elim (leading (λ r. not (key_lt key r.lower)) ranges) [
  | zero ↦ false
  | suc i ↦ elim (get_elem? ranges i) [ none ↦ false | some at ↦ key_lt key at.upper ]
]

unfoldable pub carriers_hold : List Carrier → ℕ → Bytes → Bool
unfolding range_holds
carriers_hold [] current key = false
carriers_hold (carrier ∷ carriers) current key =
    let rest = carriers_hold carriers current key in
    if leb current carrier.child
    then false
    else if range_holds carrier.ranges key
    then true
    else rest

module _ {S : Type 0} (it : InternalIterator S) where
  -- Whether a child comes before the one that is picked so far. An index out of range is not
  -- reached.
  unfoldable pub beats : (Bytes → Bytes → Bool) → List S → S → Option ℕ → Bool
  beats lt children child none = true
  beats lt children child (some c) = elim (get_elem? children c) [
    | none ↦ false
    | some best ↦ lt (it.key child) (it.key best)
  ]

  -- The loop over the children from `i` on.
  unfoldable pub pick_from : (Bytes → Bytes → Bool) → List S → ℕ → List S → Option ℕ → Option ℕ
  unfolding beats
  pick_from lt children i [] current = current
  pick_from lt children i (child ∷ rest) current =
      pick_from lt children (suc i) rest
        (if it.valid child && beats lt children child current then some i else current)

  unfoldable pub pick_raw : (Bytes → Bytes → Bool) → Merging S → Merging S
  unfolding pick_from
  pick_raw lt m = record m { current = pick_from lt m.children 0 m.children none }

  unfoldable pub pick_smallest_raw : Merging S → Merging S
  unfolding pick_raw
  pick_smallest_raw m = pick_raw key_lt m

  unfoldable pub pick_largest_raw : Merging S → Merging S
  unfolding pick_raw
  pick_largest_raw m = pick_raw key_gt m

  -- The loop that moves every child but the current one that is on the key.
  unfoldable pub move_others : (S → S) → Bytes → ℕ → ℕ → List S → List S
  move_others move key current i [] = []
  move_others move key current i (child ∷ rest) =
      let more = move_others move key current (suc i) rest in
      if i == current
      then child ∷ more
      else if it.valid child && key_eq (it.key child) key
      then move child ∷ more
      else child ∷ more

  -- `step_forward` and `step_backward`, which differ in the move.
  unfoldable pub step : (S → S) → Merging S → Merging S
  unfolding move_others
  step move m = elim m.current [
    | none ↦ m
    | some c ↦ elim (get_elem? m.children c) [
      | none ↦ m
      | some child ↦ record m {
        children = set (move_others move (it.key child) c 0 m.children) c (move child);
      }
    ]
  ]

  unfoldable pub shadowed : Merging S → Bool
  unfolding carriers_hold
  shadowed m = elim m.current [
    | none ↦ false
    | some c ↦ elim (get_elem? m.children c) [
      | none ↦ false
      | some child ↦ carriers_hold m.carriers c (it.key child)
    ]
  ]

  -- The `while` of `pick_smallest` and `pick_largest`.
  unfoldable pub pass_shadowed : (Bytes → Bytes → Bool) → (S → S) → ℕ → Merging S → Merging S
  unfolding pick_raw step shadowed
  pass_shadowed lt move zero m = m
  pass_shadowed lt move (suc fuel) m =
      let more = pass_shadowed lt move fuel (pick_raw lt (step move m)) in
      if shadowed m then more else m

  unfoldable pub pick : (Bytes → Bytes → Bool) → (S → S) → ℕ → Merging S → Merging S
  unfolding pass_shadowed pick_raw
  pick lt move fuel m = pass_shadowed lt move fuel (pick_raw lt m)

  unfoldable pub seek_to_first : ℕ → Merging S → Merging S
  unfolding pick
  seek_to_first fuel m =
      pick key_lt it.next fuel (record m { children = map it.seek_to_first m.children })

  unfoldable pub seek : ℕ → Bytes → Merging S → Merging S
  unfolding pick
  seek fuel target m =
      pick key_lt it.next fuel (record m { children = map (it.seek target) m.children })

  unfoldable pub seek_to_last : ℕ → Merging S → Merging S
  unfolding pick
  seek_to_last fuel m =
      pick key_gt it.prev fuel (record m { children = map it.seek_to_last m.children })

  unfoldable pub seek_for_prev : ℕ → Bytes → Merging S → Merging S
  unfolding pick
  seek_for_prev fuel target m =
      pick key_gt it.prev fuel (record m { children = map (it.seek_for_prev target) m.children })

  -- `next` and `prev`, which differ in the order and the move.
  unfoldable pub advance : (Bytes → Bytes → Bool) → (S → S) → ℕ → Merging S → Merging S
  unfolding step pick
  advance lt move fuel m = elim m.current [ none ↦ m | some c ↦ pick lt move fuel (step move m) ]

  unfoldable pub next : ℕ → Merging S → Merging S
  unfolding advance
  next fuel m = advance key_lt it.next fuel m

  unfoldable pub prev : ℕ → Merging S → Merging S
  unfolding advance
  prev fuel m = advance key_gt it.prev fuel m

  -- `key()`, `value()` and `type()`, read together; none where no child is picked.
  unfoldable pub shown : Merging S → Option Entry
  shown m = elim m.current [
    | none ↦ none
    | some c ↦ elim (get_elem? m.children c) [ none ↦ none | some child ↦ some (entry_of it child) ]
  ]

  unfoldable pub first_failure : List S → Status
  first_failure [] = Status.ok
  first_failure (child ∷ children) =
      let rest = first_failure children in elim (it.status child) [ Status.ok ↦ rest | s ↦ s ]

  unfoldable pub status : Merging S → Status
  unfolding first_failure
  status m = elim m.status [ Status.ok ↦ first_failure m.children | s ↦ s ]

  -- A client's scan: the entries shown from a position on, at most `n` of them.
  unfoldable pub collect : (Bytes → Bytes → Bool) → (S → S) → ℕ → ℕ → Merging S → List Entry
  unfolding shown advance
  collect lt move fuel zero m = []
  collect lt move fuel (suc n) m =
      let rest = collect lt move fuel n (advance lt move fuel m) in
      elim (shown m) [ none ↦ [] | some e ↦ e ∷ rest ]
