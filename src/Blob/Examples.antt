-- ===== src/Blob/Examples.antt =====
-- The theorems on placement at concrete inputs.
use elysiumkv.Base.{ℕ, ◌≡◌, refl, ◌/◌, ◌-◌, ◌≤◌, true, false, [], ◌∷◌, none, some, arith}
use elysiumkv.Status.{value}
use elysiumkv.Slice.{key_eq, key_lt, three_way, shorter, sign_of_common, then_sizes, memcmp}
use elysiumkv.Blob.Placement.{
  Durability, Tier, ResolvedTiers, placement, resolve_tiers, check_tiers, check_tier,
  check_transient, decreases_after, emplace, transient_after_durable,
}
use elysiumkv.Blob.Placement.Monotone.{placement_later}
use elysiumkv.Blob.Placement.Fitting.{IsFirst, placement-IsFirst}

abbrev hot : Tier
hot = record {
  store = some (record { id = 104 ∷ []; is_cache = false });
  durability = Durability.transient;
  max_age = some 1000;
  max_bytes = none;
  stall_age = none;
}

abbrev cold : Tier
cold = record {
  store = some (record { id = 99 ∷ []; is_cache = false });
  durability = Durability.durable;
  max_age = none;
  max_bytes = none;
  stall_age = none;
}

abbrev resolved : ResolvedTiers
resolved = record {
  tiers = record hot { stall_age = some 2000 } ∷ cold ∷ [];
  stores =
      (99 ∷ [], record { id = 99 ∷ []; is_cache = false })
      ∷ (104 ∷ [], record { id = 104 ∷ []; is_cache = false })
      ∷ [];
}

accepted : resolve_tiers (hot ∷ cold ∷ []) true ≡ value resolved
unfolding resolve_tiers check_tiers check_tier check_transient decreases_after emplace
    transient_after_durable key_eq key_lt three_way shorter sign_of_common then_sizes memcmp
accepted = refl

-- A window of a tenth of the span.
abbrev tenth : ℕ → ℕ
tenth span = span / 10

placement-IsFirst_example :
    IsFirst tenth 7 5000 (5950 - 5000) resolved.tiers (placement tenth resolved 7 5000 5950)
placement-IsFirst_example =
    placement-IsFirst tenth (hot ∷ cold ∷ []) true resolved 7 5000 5950 accepted

placement_later_example :
    placement tenth resolved 7 5000 5500 ≤ placement tenth resolved 7 5000 9000
placement_later_example =
    placement_later tenth resolved 7 5000 5500 9000 (omega arith) (omega arith)
