-- ===== src/Sst/Ranges/Union.antt =====
-- Merging keeps what is covered, and leaves sorted ranges with gaps between them.
use elysiumkv.Base.{
  Bool, true, false, ◌||◌, ◌≡◌, refl, ap, List, [], ◌∷◌, if◌then◌else◌, All, arith, Bool-cases, inl,
  inr,
}
use elysiumkv.Base.Sort.{sort_by, Sorted, IsStrictWeak, any-sort_by, sort_by-Sorted}
use elysiumkv.Slice.{Bytes, key_lt, key_le}
use elysiumkv.Slice.Order.{
  key_le-not, key_lt_asym, key_lt_irrefl, key_lt_tri, key_eq_iff, key_lt_trans, key_lt_of_lt_not,
  key_lt_of_not_lt,
}
use elysiumkv.Sst.Ranges.{
  RangeTombstone, covers, range_lt, absorb, merge_loop, reverse_onto, merge_ranges,
}
use elysiumkv.Sst.Ranges.Clip.{covered_by}

-- The comparator is a strict weak order whose first key is the lower bound.
range_lt-IsStrictWeak : IsStrictWeak range_lt
unfolding range_lt
range_lt-IsStrictWeak = record {
  asym = λ a b h. ground (
    arith,
    key_eq_iff a.lower b.lower,
    key_eq_iff b.lower a.lower,
    key_lt_asym a.lower b.lower,
    key_lt_asym a.upper b.upper,
  );
  co_trans = λ a b c h k. co a b c h k;
}
  where
    co :
        (a b c : RangeTombstone)
        → range_lt b a ≡ false
        → range_lt c b ≡ false
        → range_lt c a ≡ false
    co a b c h k = ground (
      arith,
      key_eq_iff b.lower a.lower,
      key_eq_iff c.lower b.lower,
      key_eq_iff c.lower a.lower,
      key_lt_of_lt_not c.lower b.lower a.lower,
      key_lt_tri a.lower b.lower,
      key_lt_tri b.lower c.lower,
      key_lt_of_lt_not c.upper b.upper a.upper,
    )

lower_of_range_lt : (a b : RangeTombstone) → range_lt b a ≡ false → key_lt b.lower a.lower ≡ false
unfolding range_lt
lower_of_range_lt a b h =
    ground (arith, key_eq_iff b.lower a.lower, key_lt_irrefl a.lower, ap (λ t. key_lt t a.lower))

-- Every range of a list starts at or above a bound.
abbrev StartFrom : Bytes → List RangeTombstone → Type 0
StartFrom lower = All (λ r. ◌≡◌ {A = Bool} (key_lt r.lower lower) false)

abbrev StartFromLast : List RangeTombstone → List RangeTombstone → Type 0
StartFromLast [] ranges = Unit {0}
StartFromLast (back ∷ merged) ranges = StartFrom back.lower ranges

StartFrom-of_range_lt :
    (a : RangeTombstone) (ranges : List RangeTombstone)
    → All (λ r. ◌≡◌ {A = Bool} (range_lt r a) false) ranges
    → StartFrom a.lower ranges
StartFrom-of_range_lt a [] h = tt
StartFrom-of_range_lt a (r ∷ ranges) (hr, h) =
    (lower_of_range_lt a r hr, StartFrom-of_range_lt a ranges h)

covers-empty :
    (r : RangeTombstone) (key : Bytes) → key_le r.upper r.lower ≡ true → covers r key ≡ false
unfolding covers
covers-empty r key h = ground (
  arith,
  key_le-not r.upper r.lower,
  key_le-not r.lower key,
  key_lt_of_not_lt r.lower key r.upper,
)

covered_by-extended :
    (back r : RangeTombstone) (key : Bytes)
    → key_lt r.lower back.lower ≡ false
    → key_le r.lower back.upper ≡ true
    → key_lt back.upper r.upper ≡ true
    → covers (record back { upper = r.upper }) key ≡ (covers r key || covers back key)
unfolding covers
covered_by-extended back r key h1 h2 h3 = ground (
  arith,
  key_le-not back.lower key,
  key_le-not r.lower key,
  key_le-not r.lower back.upper,
  key_lt_of_lt_not key r.lower back.lower,
  key_lt_trans key back.upper r.upper,
  key_lt_of_lt_not key back.upper r.lower,
  key_lt_of_not_lt r.lower back.upper key,
  key_lt_trans key r.lower back.lower,
  key_lt_of_lt_not key back.lower r.lower,
  key_lt_of_not_lt back.lower r.lower key,
)

covered_by-within :
    (back r : RangeTombstone) (key : Bytes)
    → key_lt r.lower back.lower ≡ false
    → key_lt back.upper r.upper ≡ false
    → covers back key ≡ (covers r key || covers back key)
unfolding covers
covered_by-within back r key h1 h3 = ground (
  arith,
  key_le-not back.lower key,
  key_le-not r.lower key,
  key_lt_of_lt_not key back.upper r.upper,
  key_lt_of_not_lt r.lower key back.lower,
  key_lt_of_lt_not key r.lower back.lower,
)

covered_by-absorb :
    (merged : List RangeTombstone) (r : RangeTombstone) (ranges : List RangeTombstone) (key : Bytes)
    → StartFromLast merged (r ∷ ranges)
    → covered_by (absorb merged r) key ≡ (covers r key || covered_by merged key)
unfolding absorb
covered_by-absorb [] r ranges key h = refl
covered_by-absorb (back ∷ merged) r ranges key (h, more) =
    ground (arith, covered_by-extended back r key, covered_by-within back r key)

-- The last range after a step still starts at or before what is to come.
StartFromLast-absorb :
    (merged : List RangeTombstone) (r : RangeTombstone) (ranges : List RangeTombstone)
    → StartFromLast merged (r ∷ ranges)
    → StartFrom r.lower ranges
    → StartFromLast (absorb merged r) ranges
unfolding absorb
StartFromLast-absorb [] r ranges h k = k
StartFromLast-absorb (back ∷ merged) r ranges (h, more) k =
    elim (key_le r.lower back.upper)
      as (λ b.
        StartFromLast
          (if b
            then if key_lt back.upper r.upper
              then record back { upper = r.upper } ∷ merged
              else back ∷ merged
            else r ∷ back ∷ merged)
          ranges) [
            | true ↦
                elim (key_lt back.upper r.upper)
                  as (λ b.
                    StartFromLast
                      (if b then record back { upper = r.upper } ∷ merged else back ∷ merged)
                      ranges) [ true ↦ more | false ↦ more ]
            | false ↦ k
          ]

StartFromLast-skip :
    (merged : List RangeTombstone) (r : RangeTombstone) (ranges : List RangeTombstone)
    → StartFromLast merged (r ∷ ranges)
    → StartFromLast merged ranges
StartFromLast-skip [] r ranges h = tt
StartFromLast-skip (back ∷ merged) r ranges h = h.1

covered_by-merge_loop :
    (merged ranges : List RangeTombstone) (key : Bytes)
    → StartFromLast merged ranges
    → Sorted range_lt ranges
    → covered_by (merge_loop merged ranges) key ≡ (covered_by merged key || covered_by ranges key)
unfolding merge_loop
covered_by-merge_loop merged [] key h s = ground arith
covered_by-merge_loop merged (r ∷ ranges) key h (first, s) =
    elim (Bool-cases (key_le r.upper r.lower)) [
      | inl e ↦ rw e (
          ground (
            arith,
            covered_by-merge_loop merged ranges key (StartFromLast-skip merged r ranges h) s,
            covers-empty r key e,
          ))
      | inr e ↦ rw e (
          ground (
            arith,
            covered_by-merge_loop (absorb merged r) ranges key
                (StartFromLast-absorb merged r ranges h (StartFrom-of_range_lt r ranges first)) s,
            covered_by-absorb merged r ranges key h,
          ))
    ]

covered_by-reverse_onto :
    (xs out : List RangeTombstone) (key : Bytes)
    → covered_by (reverse_onto xs out) key ≡ (covered_by xs key || covered_by out key)
unfolding reverse_onto
covered_by-reverse_onto [] out key = refl
covered_by-reverse_onto (x ∷ xs) out key = ground (arith, covered_by-reverse_onto xs (x ∷ out) key)

-- The merged ranges cover exactly the keys that some given range covers.
pub covered_by-merge_ranges :
    (ranges : List RangeTombstone) (key : Bytes)
    → covered_by (merge_ranges ranges) key ≡ covered_by ranges key
unfolding merge_ranges
covered_by-merge_ranges ranges key = ground (
  arith,
  covered_by-reverse_onto (merge_loop [] (sort_by range_lt ranges)) [] key,
  covered_by-merge_loop [] (sort_by range_lt ranges) key tt
      (sort_by-Sorted range_lt range_lt-IsStrictWeak ranges),
  any-sort_by range_lt (λ r. covers r key) ranges,
)
