-- ===== src/Sst/Ranges/Gaps.antt =====
-- Merged ranges are not empty, ascend, and leave a gap between neighbours.
use elysiumkv.Base.{Bool, true, false, ◌≡◌, List, [], ◌∷◌, All, arith, Bool-cases, inl, inr}
use elysiumkv.Base.Sort.{sort_by}
use elysiumkv.Slice.{key_lt, key_le}
use elysiumkv.Slice.Order.{key_le-not, key_lt_trans}
use elysiumkv.Sst.Ranges.{RangeTombstone, range_lt, absorb, merge_loop, reverse_onto, merge_ranges}

abbrev Precedes : RangeTombstone → RangeTombstone → Type 0
Precedes a b = ◌≡◌ {A = Bool} (key_lt a.upper b.lower) true

-- Each range holds some key's place, and ends strictly before every later one starts.
abbrev pub IsFragmented : List RangeTombstone → Type 0
IsFragmented [] = Unit {0}
IsFragmented (a ∷ ranges) =
    (key_lt a.lower a.upper ≡ true) × All (λ b. Precedes a b) ranges × IsFragmented ranges

-- The same of a list whose last range comes first.
abbrev IsFragmentedBack : List RangeTombstone → Type 0
IsFragmentedBack [] = Unit {0}
IsFragmentedBack (b ∷ merged) =
    (key_lt b.lower b.upper ≡ true) × All (λ a. Precedes a b) merged × IsFragmentedBack merged

nonempty_of_not_le :
    (r : RangeTombstone) → key_le r.upper r.lower ≡ false → key_lt r.lower r.upper ≡ true
nonempty_of_not_le r h = ground (arith, key_le-not r.upper r.lower)

every_later :
    (back r : RangeTombstone) (merged : List RangeTombstone)
    → key_lt back.lower back.upper ≡ true
    → key_lt back.upper r.lower ≡ true
    → All (λ a. Precedes a back) merged
    → All (λ a. Precedes a r) merged
every_later back r [] n h k = tt
every_later back r (a ∷ merged) n h (ha, k) = (
  key_lt_trans a.upper back.upper r.lower (key_lt_trans a.upper back.lower back.upper ha n) h,
  every_later back r merged n h k,
)

absorb-IsFragmentedBack :
    (merged : List RangeTombstone) (r : RangeTombstone)
    → key_lt r.lower r.upper ≡ true
    → IsFragmentedBack merged
    → IsFragmentedBack (absorb merged r)
unfolding absorb
absorb-IsFragmentedBack [] r n h = (n, tt, tt)
absorb-IsFragmentedBack (back ∷ merged) r n (hb, k, h) =
    elim (Bool-cases (key_le r.lower back.upper)) [
      | inl e ↦ rw e (elim (Bool-cases (key_lt back.upper r.upper)) [
        | inl f ↦ rw f (key_lt_trans back.lower back.upper r.upper hb f, k, h)
        | inr f ↦ rw f (hb, k, h)
      ])
      | inr e ↦ rw e (n, (gap e, every_later back r merged hb (gap e) k), (hb, k, h))
    ]
  where
    gap : key_le r.lower back.upper ≡ false → key_lt back.upper r.lower ≡ true
    gap e = ground (arith, key_le-not r.lower back.upper)

merge_loop-IsFragmentedBack :
    (merged ranges : List RangeTombstone)
    → IsFragmentedBack merged
    → IsFragmentedBack (merge_loop merged ranges)
unfolding merge_loop
merge_loop-IsFragmentedBack merged [] h = h
merge_loop-IsFragmentedBack merged (r ∷ ranges) h = elim (Bool-cases (key_le r.upper r.lower)) [
  | inl e ↦ rw e (merge_loop-IsFragmentedBack merged ranges h)
  | inr e ↦ rw e (
      merge_loop-IsFragmentedBack (absorb merged r) ranges
        (absorb-IsFragmentedBack merged r (nonempty_of_not_le r e) h))
]

reverse_onto-IsFragmented :
    (xs out : List RangeTombstone)
    → IsFragmentedBack xs
    → IsFragmented out
    → All (λ x. All (λ y. Precedes x y) out) xs
    → IsFragmented (reverse_onto xs out)
unfolding reverse_onto
reverse_onto-IsFragmented [] out h k c = k
reverse_onto-IsFragmented (x ∷ xs) out (n, before, h) k (cx, c) =
    reverse_onto-IsFragmented xs (x ∷ out) h (n, cx, k) (both xs before c)
  where
    both :
        (ys : List RangeTombstone)
        → All (λ a. Precedes a x) ys
        → All (λ a. All (λ y. Precedes a y) out) ys
        → All (λ a. Precedes a x × All (λ y. Precedes a y) out) ys
    both [] p q = tt
    both (y ∷ ys) (py, p) (qy, q) = ((py, qy), both ys p q)

before_nothing : (xs : List RangeTombstone) → All (λ x. Unit {0}) xs
before_nothing [] = tt
before_nothing (x ∷ xs) = (tt, before_nothing xs)

-- The merged ranges are fragments: none is empty, and each ends strictly before the next starts, so
-- no two of them overlap or touch.
pub merge_ranges-IsFragmented : (ranges : List RangeTombstone) → IsFragmented (merge_ranges ranges)
unfolding merge_ranges
merge_ranges-IsFragmented ranges =
    let merged = merge_loop [] (sort_by range_lt ranges) in
    reverse_onto-IsFragmented merged []
      (merge_loop-IsFragmentedBack [] (sort_by range_lt ranges) tt) tt (before_nothing merged)
