-- ===== src/Compact/Merging/Hidden.antt =====
-- src/compact/merging_iterator.cpp: `shadowed` asks the range tombstones of the earlier children.
use elysiumkv.Base.{
  ℕ, zero, suc, ◌+◌, ◌≤◌, Bool, true, false, ◌≡◌, refl, sym, ◌∙◌, ◌||◌, not, List, [], ◌∷◌, none,
  some, if◌then◌else◌, leb, any, All, take, drop, get_or, get_elem?, arith, Bool-cases, inl, inr,
}
use elysiumkv.Slice.{Bytes, key_lt}
use elysiumkv.Slice.Order.{key_le-not, key_lt_trans}
use elysiumkv.Sst.Ranges.{RangeTombstone, covers}
use elysiumkv.Sst.Ranges.Gaps.{IsFragmented}
use elysiumkv.Version.Levels.{leading}
use elysiumkv.Compact.Merging.{carriers_from, carriers_hold, range_holds}
use elysiumkv.Compact.Merging.Newest.{is_covered}

starts : Bytes → RangeTombstone → Bool
starts key r = not (key_lt key r.lower)

-- The range before the partition point.
abbrev pick_range : Bytes → List RangeTombstone → ℕ → Bool
pick_range key ranges zero = false
pick_range key ranges (suc i) = elim (get_elem? ranges i) [
  | none ↦ false
  | some at ↦ key_lt key at.upper
]

-- A key at or past the end of a range is in none of the later ranges only if it is before them.
not_covered_after :
    (key : Bytes) (ranges : List RangeTombstone)
    → All (λ b. ◌≡◌ {A = Bool} (key_lt key b.lower) true) ranges
    → is_covered key ranges ≡ false
unfolding covers
not_covered_after key [] h = refl
not_covered_after key (r ∷ ranges) (hr, h) =
    ground (arith, not_covered_after key ranges h, key_le-not r.lower key)

below_all :
    (key upper : Bytes) (ranges : List RangeTombstone)
    → key_lt key upper ≡ true
    → All (λ b. ◌≡◌ {A = Bool} (key_lt upper b.lower) true) ranges
    → All (λ b. ◌≡◌ {A = Bool} (key_lt key b.lower) true) ranges
below_all key upper [] h k = tt
below_all key upper (r ∷ ranges) h (kr, k) =
    (key_lt_trans key upper r.lower h kr, below_all key upper ranges h k)

range_holds-step :
    (r : RangeTombstone) (ranges : List RangeTombstone) (key : Bytes)
    → range_holds (r ∷ ranges) key ≡ (
        if key_lt key r.lower
        then false
        else pick_range key (r ∷ ranges) (suc (leading (λ b. not (key_lt key b.lower)) ranges)))
unfolding range_holds leading
range_holds-step r ranges key = ground arith

next_starts :
    (r : RangeTombstone) (ranges : List RangeTombstone) (key : Bytes)
    → key_lt key r.lower ≡ false
    → All (λ b. ◌≡◌ {A = Bool} (key_lt r.upper b.lower) true) ranges
    → range_holds ranges key ≡ is_covered key ranges
    → pick_range key (r ∷ ranges) (suc (leading (λ b. not (key_lt key b.lower)) ranges))
      ≡ is_covered key (r ∷ ranges)
unfolding range_holds leading covers
next_starts r [] key h k ih = ground (arith, key_le-not r.lower key)
next_starts r (b ∷ ranges) key h (kb, k) ih = elim (Bool-cases (key_lt key b.lower)) [
  | inl before ↦ ground (arith, key_le-not r.lower key, ih, before)
  | inr starts ↦ ground (arith, ih, starts, key_lt_trans key r.upper b.lower, kb)
]

-- For ranges that ascend with gaps, the binary search for the last range that starts at or below a
-- key finds the one that covers it, if any does.
pub range_holds-covers :
    (ranges : List RangeTombstone) (key : Bytes)
    → IsFragmented ranges
    → range_holds ranges key ≡ is_covered key ranges
range_holds-covers [] key f = unfold range_holds leading in refl
range_holds-covers (r ∷ ranges) key (nonempty, gaps, f) =
    let ih = range_holds-covers ranges key f in
    range_holds-step r ranges key ∙ elim (Bool-cases (key_lt key r.lower)) [
      | inl h ↦ rw h (
          sym (
            not_covered_after key (r ∷ ranges)
              (h, below_all key r.upper ranges (key_lt_trans key r.lower r.upper h nonempty) gaps)))
      | inr h ↦ rw h (next_starts r ranges key h gaps ih)
    ]

-- Whether one of the first `n` children covers the key.
abbrev pub any_covers : Bytes → ℕ → List (List RangeTombstone) → Bool
any_covers key n ranges = any (is_covered key) (take n ranges)

carriers_hold-past :
    (key : Bytes) (i current : ℕ) (ranges : List (List RangeTombstone))
    → current ≤ i
    → carriers_hold (carriers_from i ranges) current key ≡ false
unfolding carriers_hold carriers_from
carriers_hold-past key i current [] h = refl
carriers_hold-past key i current ([] ∷ more) h =
    carriers_hold-past key (suc i) current more (omega (arith, h))
carriers_hold-past key i current ((r ∷ rs) ∷ more) h = ground (arith, h)

-- The loop over the carriers asks exactly the children before the current one.
pub carriers_hold-any :
    (key : Bytes) (i n c : ℕ) (ranges : List (List RangeTombstone))
    → i + n ≡ c
    → All IsFragmented ranges
    → carriers_hold (carriers_from i ranges) c key ≡ any_covers key n ranges
unfolding carriers_hold carriers_from
carriers_hold-any key i zero c [] e f = refl
carriers_hold-any key i (suc n) c [] e f = refl
carriers_hold-any key i zero c ([] ∷ more) e f =
    carriers_hold-past key (suc i) c more (omega (arith, e))
carriers_hold-any key i zero c ((r ∷ rs) ∷ more) e f = ground (arith, e)
carriers_hold-any key i (suc n) c ([] ∷ more) e (fr, f) =
    carriers_hold-any key (suc i) n c more (omega (arith, e)) f
carriers_hold-any key i (suc n) c ((r ∷ rs) ∷ more) e (fr, f) =
    let rest = carriers_hold-any key (suc i) n c more (omega (arith, e)) f in
    let here = range_holds-covers (r ∷ rs) key fr in
    let above : leb c i ≡ false = ground (arith, e) in rw above (ground (arith, rest, here))

pub any_covers-suc :
    (key : Bytes) (n : ℕ) (ranges : List (List RangeTombstone))
    → any_covers key (suc n) ranges
      ≡ (is_covered key (get_or ranges 0 []) || any_covers key n (drop 1 ranges))
any_covers-suc key zero [] = refl
any_covers-suc key (suc n) [] = refl
any_covers-suc key n (r ∷ ranges) = refl
