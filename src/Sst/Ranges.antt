-- ===== src/Sst/Ranges.antt =====
-- src/sst/format.hpp: range tombstones, their union and their clipping.
pub mod Union
pub mod Clip
pub mod Gaps
use elysiumkv.Base.{
  ℕ, Bool, true, false, not, ◌&&◌, List, [], ◌∷◌, Option, none, some, if◌then◌else◌, any, keep,
}
use elysiumkv.Base.Sort.{sort_by}
use elysiumkv.Slice.{Bytes, key_lt, key_le, key_eq}

-- The half-open range `[lower, upper)`.
pub record RangeTombstone : Type 0 where
  pub lower : Bytes
  pub upper : Bytes

unfoldable pub covers : RangeTombstone → Bytes → Bool
covers r key = key_le r.lower key && key_lt key r.upper

-- The comparison that `merge_ranges` sorts by.
unfoldable pub range_lt : RangeTombstone → RangeTombstone → Bool
range_lt a b =
    if not (key_eq a.lower b.lower) then key_lt a.lower b.lower else key_lt a.upper b.upper

-- One range into `merged`, whose last range comes first in this list: a range that starts at or
-- before the end of the last one extends it.
unfoldable pub absorb : List RangeTombstone → RangeTombstone → List RangeTombstone
absorb [] range = range ∷ []
absorb (back ∷ merged) range =
    if key_le range.lower back.upper
    then if key_lt back.upper range.upper
      then record back { upper = range.upper } ∷ merged
      else back ∷ merged
    else range ∷ back ∷ merged

merge_loop : List RangeTombstone → List RangeTombstone → List RangeTombstone
merge_loop merged [] = merged
merge_loop merged (range ∷ ranges) =
    merge_loop (if key_le range.upper range.lower then merged else absorb merged range) ranges

reverse_onto {ℓ} : {A : Type ℓ} → List A → List A → List A
reverse_onto [] out = out
reverse_onto (x ∷ xs) out = reverse_onto xs (x ∷ out)

unfoldable pub merge_ranges : List RangeTombstone → List RangeTombstone
unfolding merge_loop reverse_onto
merge_ranges ranges = reverse_onto (merge_loop [] (sort_by range_lt ranges)) []

-- A null bound is `none`.
unfoldable pub raised : Option Bytes → Bytes → Bytes
raised none b = b
raised (some lower) b = if key_lt b lower then lower else b

unfoldable pub lowered : Option Bytes → Bytes → Bytes
lowered none b = b
lowered (some upper) b = if key_lt upper b then upper else b

unfoldable pub clip_ranges : List RangeTombstone → Option Bytes → Option Bytes → List RangeTombstone
unfolding raised lowered
clip_ranges [] lower upper = []
clip_ranges (range ∷ ranges) lower upper =
    let low = raised lower range.lower in
    let high = lowered upper range.upper in
    let more = clip_ranges ranges lower upper in
    if key_lt low high then record { lower = low; upper = high } ∷ more else more
