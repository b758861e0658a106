-- ===== src/Version/Watermark.antt =====
-- src/version/watermark.hpp: watermark intervals, the recovery floor, and what recovery may resume
-- from. `std::optional<uint64_t>` is `Option ℕ`.
pub mod Merge
pub mod Recovery
use elysiumkv.Base.{
  ℕ, zero, suc, ◌<◌, Bool, true, false, not, ◌&&◌, Option, none, some, ltb, if◌then◌else◌, min, max,
}

pub record WatermarkInterval : Type 0 where
  pub low : Option ℕ
  pub high : Option ℕ

abbrev pub has_value : Option ℕ → Bool
has_value none = false
has_value (some v) = true

unfoldable pub empty : WatermarkInterval → Bool
empty w = not (has_value w.low) && not (has_value w.high)

-- `merge` of the lower bounds: an absent one makes the result absent.
unfoldable pub merge_low : Option ℕ → Option ℕ → Option ℕ
merge_low low none = none
merge_low none (some b) = none
merge_low (some a) (some b) = some (min a b)

unfoldable pub merge_high : Option ℕ → Option ℕ → Option ℕ
merge_high high none = high
merge_high none (some b) = some b
merge_high (some a) (some b) = some (max a b)

unfoldable pub merge : WatermarkInterval → WatermarkInterval → WatermarkInterval
unfolding merge_low merge_high
merge w other = record { low = merge_low w.low other.low; high = merge_high w.high other.high }

unfoldable pub accumulate_min : Option ℕ → Option ℕ → Option ℕ
accumulate_min into none = into
accumulate_min none (some v) = some v
accumulate_min (some a) (some v) = some (min a v)

unfoldable pub accumulate_max : Option ℕ → Option ℕ → Option ℕ
accumulate_max into none = into
accumulate_max none (some v) = some v
accumulate_max (some a) (some v) = some (max a v)

-- No position means that nothing is certified.
pub record WatermarkFloor : Type 0 where
  pub position : Option ℕ

lower_position : Option ℕ → Option ℕ → Option ℕ
lower_position none bound = none
lower_position (some p) none = none
lower_position (some p) (some b) = if ltb b p then some b else some p

unfoldable pub lower_to : WatermarkFloor → Option ℕ → WatermarkFloor
unfolding lower_position
lower_to f bound = record { position = lower_position f.position bound }

pub record RecoveryWatermark : Type 0 where
  pub anything_discarded : Bool
  pub lower_bound_absent : Bool
  pub lower_bound : Option ℕ
  pub surviving : Option ℕ

abbrev pub nothing_observed : RecoveryWatermark
nothing_observed = record {
  anything_discarded = false;
  lower_bound_absent = false;
  lower_bound = none;
  surviving = none;
}

unfoldable pub observe_discarded : RecoveryWatermark → WatermarkInterval → RecoveryWatermark
unfolding accumulate_min
observe_discarded r w =
    if not (has_value w.low)
    then record r { anything_discarded = true; lower_bound_absent = true }
    else record r { anything_discarded = true; lower_bound = accumulate_min r.lower_bound w.low }

unfoldable pub observe_survivor : RecoveryWatermark → WatermarkInterval → RecoveryWatermark
unfolding accumulate_max
observe_survivor r w = record r { surviving = accumulate_max r.surviving w.high }

unfoldable pub discarded_lower_bound : RecoveryWatermark → Option ℕ
discarded_lower_bound r = if r.lower_bound_absent then none else r.lower_bound

unfoldable pub surviving_upper_bound : RecoveryWatermark → Option ℕ
surviving_upper_bound r = r.surviving

unfoldable pub resume_after : RecoveryWatermark → Option ℕ
unfolding discarded_lower_bound
resume_after r = if r.anything_discarded then discarded_lower_bound r else r.surviving
