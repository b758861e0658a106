-- ===== src/Sst/Ranges/Clip.antt =====
-- Clipping keeps exactly the part inside the bounds.
use elysiumkv.Base.{Bool, true, ◌&&◌, ◌≡◌, refl, List, [], ◌∷◌, Option, none, some, any, arith}
use elysiumkv.Slice.{Bytes, key_lt, key_le}
use elysiumkv.Slice.Order.{key_le-not, key_lt_trans, key_lt_of_lt_not, key_lt_of_not_lt}
use elysiumkv.Sst.Ranges.{RangeTombstone, covers, raised, lowered, clip_ranges}

abbrev pub at_or_above : Option Bytes → Bytes → Bool
at_or_above none key = true
at_or_above (some lower) key = key_le lower key

abbrev pub below_bound : Option Bytes → Bytes → Bool
below_bound none key = true
below_bound (some upper) key = key_lt key upper

abbrev pub covered_by : List RangeTombstone → Bytes → Bool
covered_by ranges key = any (λ r. covers r key) ranges

key_le-raised :
    (lower : Option Bytes) (b key : Bytes)
    → key_le (raised lower b) key ≡ (at_or_above lower key && key_le b key)
unfolding raised
key_le-raised none b key = refl
key_le-raised (some l) b key = ground (
  arith,
  key_le-not l key,
  key_le-not b key,
  key_lt_of_lt_not key b l,
  key_lt_trans key b l,
  key_lt_of_not_lt l b key,
  key_lt_of_lt_not key l b,
)

key_lt-lowered :
    (upper : Option Bytes) (b key : Bytes)
    → key_lt key (lowered upper b) ≡ (below_bound upper key && key_lt key b)
unfolding lowered
key_lt-lowered none b key = refl
key_lt-lowered (some u) b key = ground (arith, key_lt_trans key u b, key_lt_of_lt_not key u b)

covers_part :
    (range : RangeTombstone) (lower upper : Option Bytes) (key : Bytes)
    → (key_lt (raised lower range.lower) (lowered upper range.upper)
        && (key_le (raised lower range.lower) key && key_lt key (lowered upper range.upper)))
      ≡ (at_or_above lower key && (below_bound upper key && covers range key))
unfolding covers
covers_part range lower upper key = ground (
  arith,
  key_le-not (raised lower range.lower) key,
  key_lt_of_not_lt (raised lower range.lower) key (lowered upper range.upper),
  key_le-raised lower range.lower key,
  key_lt-lowered upper range.upper key,
)

-- A clipped set covers a key exactly when the key is within the bounds and the set covers it.
pub covered_by-clip_ranges :
    (ranges : List RangeTombstone) (lower upper : Option Bytes) (key : Bytes)
    → covered_by (clip_ranges ranges lower upper) key
      ≡ (at_or_above lower key && (below_bound upper key && covered_by ranges key))
unfolding clip_ranges
covered_by-clip_ranges [] lower upper key = ground arith
covered_by-clip_ranges (range ∷ ranges) lower upper key = ground (
  arith,
  covers_part range lower upper key,
  covers_made (raised lower range.lower) (lowered upper range.upper) key,
  covered_by-clip_ranges ranges lower upper key,
)
  where
    covers_made :
        (l u k : Bytes) → covers (record { lower = l; upper = u }) k ≡ (key_le l k && key_lt k u)
    covers_made l u k = unfold covers in refl
