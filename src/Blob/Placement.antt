-- ===== src/Blob/Placement.antt =====
-- src/blob/tier.hpp, src/blob/placement.cpp and src/util/jitter.hpp: which tier a file belongs to.
-- A store is what placement asks of it: its id, and whether it is a cache at its innermost. A
-- duration is a number of milliseconds. The width of the jitter window is computed in doubles and is
-- the parameter `window`, from a span.
pub mod Monotone
pub mod Fitting
use elysiumkv.Base.{
  ℕ, zero, suc, ◌+◌, ◌-◌, ◌*◌, ◌/◌, ◌%◌, ◌^◌, bit_xor, Bool, true, false, ◌&&◌, ◌||◌, not, List, [],
  ◌∷◌, Option, none, some, ltb, leb, ◌==◌, if◌then◌else◌, length, any,
}
use mathlib.Core.Option
use elysiumkv.Status.{Status, Result, value, unexpected, ◌>>=◌}
use elysiumkv.Slice.{Bytes, key_eq, key_lt}

pub record Store : Type 0 where
  pub id : Bytes
  pub is_cache : Bool

pub data Durability : Type 0 where
  durable transient : Durability

abbrev pub is_transient : Durability → Bool
is_transient Durability.durable = false
is_transient Durability.transient = true

-- A null store is `none`.
pub record Tier : Type 0 where
  pub store : Option Store
  pub durability : Durability
  pub max_age : Option ℕ
  pub max_bytes : Option ℕ
  pub stall_age : Option ℕ

pub record ResolvedTiers : Type 0 where
  pub tiers : List Tier
  pub stores : List (Bytes × Store)

unfoldable pub last : ResolvedTiers → ℕ
last t = length t.tiers - 1

unfoldable pub any_transient : ResolvedTiers → Bool
any_transient t = any (λ tier. is_transient tier.durability) t.tiers

abbrev pub has_id : Bytes → Option Store → Bool
has_id store_id none = false
has_id store_id (some store) = key_eq store.id store_id

tier_index : Bytes → List Tier → Option ℕ
tier_index store_id [] = none
tier_index store_id (tier ∷ tiers) =
    let later = Option.map suc (tier_index store_id tiers) in
    if has_id store_id tier.store then some 0 else later

-- `none` is the result -1.
unfoldable pub tier_of_store : ResolvedTiers → Bytes → Option ℕ
unfolding tier_index
tier_of_store t store_id = tier_index store_id t.tiers

discardable_from : Bool → Bytes → List Tier → Bool
discardable_from named store_id [] = named
discardable_from named store_id (tier ∷ tiers) =
    let skipped = discardable_from named store_id tiers in
    let found = discardable_from true store_id tiers in
    if not (has_id store_id tier.store)
    then skipped
    else if not (is_transient tier.durability)
    then false
    else found

unfoldable pub store_is_discardable : ResolvedTiers → Bytes → Bool
unfolding discardable_from
store_is_discardable t store_id = discardable_from false store_id t.tiers

-- The mixing steps, in 64 bits.
unfoldable pub mix : ℕ → ℕ
mix x0 =
    let x1 = bit_xor x0 (x0 / 2 ^ 30) in
    let x2 = x1 * 0xbf58476d1ce4e5b9 % 2 ^ 64 in
    let x3 = bit_xor x2 (x2 / 2 ^ 27) in
    let x4 = x3 * 0x94d049bb133111eb % 2 ^ 64 in bit_xor x4 (x4 / 2 ^ 31)

unfoldable pub jitter_offset : ℕ → ℕ → ℕ → ℕ
jitter_offset seed_a seed_b window_ms =
    if window_ms == 0 then 0 else mix ((seed_a * 0x9e3779b97f4a7c15 + seed_b) % 2 ^ 64) % window_ms

module _ (window : ℕ → ℕ) where
  unfoldable pub tier_age_jitter_ms : ℕ → ℕ → ℕ → ℕ
  tier_age_jitter_ms file_number min_write_time_ms span_ms =
      if file_number == 0 then 0 else jitter_offset file_number min_write_time_ms (window span_ms)

  -- Whether a tier is passed over, for a file of an age: `age_ms > bound`.
  unfoldable pub too_old : ℕ → ℕ → ℕ → Option ℕ → Bool
  too_old file_number min_write_time_ms age_ms none = false
  too_old file_number min_write_time_ms age_ms (some span) =
      ltb ((span + 2 ^ 64 - tier_age_jitter_ms file_number min_write_time_ms span) % 2 ^ 64) age_ms

  -- The loop from tier `i` on; the last index where every tier is passed over.
  unfoldable pub first_fitting : ℕ → ℕ → ℕ → ℕ → ℕ → List Tier → ℕ
  first_fitting file_number min_write_time_ms age_ms fallback i [] = fallback
  first_fitting file_number min_write_time_ms age_ms fallback i (tier ∷ tiers) =
      let colder = first_fitting file_number min_write_time_ms age_ms fallback (suc i) tiers in
      if too_old file_number min_write_time_ms age_ms tier.max_age then colder else i

  unfoldable pub placement : ResolvedTiers → ℕ → ℕ → ℕ → ℕ
  placement t file_number min_write_time_ms now_ms =
      let age_ms = if ltb min_write_time_ms now_ms then now_ms - min_write_time_ms else 0 in
      first_fitting file_number min_write_time_ms age_ms (last t) 0 t.tiers

-- `emplace`: a store is kept under its id unless one is there. Entries ascend by id.
unfoldable pub emplace : Bytes → Store → List (Bytes × Store) → List (Bytes × Store)
emplace id store [] = (id, store) ∷ []
emplace id store ((other, kept) ∷ stores) =
    let later = emplace id store stores in
    if key_eq id other
    then (other, kept) ∷ stores
    else if key_lt id other
    then (id, store) ∷ (other, kept) ∷ stores
    else (other, kept) ∷ later

-- The checks on a transient tier.
unfoldable pub check_transient : Tier → Result Tier
check_transient tier =
    if not (is_transient tier.durability) then value tier else elim tier.max_age [
      | none ↦ unexpected Status.config
      | some max_age ↦ elim tier.stall_age [
        | none ↦
            if leb (max_age * 2) max_age
            then unexpected Status.config
            else value (record tier { stall_age = some (max_age * 2) })
        | some stall ↦ if leb stall max_age then unexpected Status.config else value tier
      ]
    ]

-- Bounds that do not decrease from one tier to the next.
unfoldable pub bounds_decrease : Option ℕ → Option ℕ → Bool
bounds_decrease none none = false
bounds_decrease none (some age) = true
bounds_decrease (some before) none = false
bounds_decrease (some before) (some age) = ltb age before

unfoldable pub decreases_after : Option Tier → Tier → Bool
unfolding bounds_decrease
decreases_after none tier = false
decreases_after (some previous) tier = bounds_decrease previous.max_age tier.max_age

abbrev pub has_bound : Option ℕ → Bool
has_bound none = false
has_bound (some age) = true

-- A store that may back a tier: not null, not a cache, and with an id.
abbrev pub usable : Option Store → Bool
usable none = false
usable (some store) = not store.is_cache && not (length store.id == 0)

-- The body of the loop over the tiers, after the one before and for the last one or not.
unfoldable pub check_tier : Option Tier → Bool → Tier → Result Tier
check_tier previous is_last tier = if not (usable tier.store) then unexpected Status.config else do
  checked ← check_transient tier
  if decreases_after previous checked
        || (is_last && (has_bound checked.max_age || is_transient checked.durability))
      then unexpected Status.config
      else value checked

abbrev pub emplace_store : Option Store → List (Bytes × Store) → List (Bytes × Store)
emplace_store none stores = stores
emplace_store (some store) stores = emplace store.id store stores

abbrev pub is_empty : List Tier → Bool
is_empty [] = true
is_empty (tier ∷ tiers) = false

unfoldable pub check_tiers : Option Tier → List (Bytes × Store) → List Tier → Result ResolvedTiers
check_tiers previous stores [] = value (record { tiers = []; stores = stores })
check_tiers previous stores (tier ∷ tiers) = do
  checked ← check_tier previous (is_empty tiers) tier
  rest ← check_tiers (some checked) (emplace_store checked.store stores) tiers
  value (record rest { tiers = checked ∷ rest.tiers })

-- Whether a transient tier follows a durable one.
unfoldable pub transient_after_durable : Bool → List Tier → Bool
transient_after_durable seen_durable [] = false
transient_after_durable seen_durable (tier ∷ tiers) =
    (is_transient tier.durability && seen_durable)
    || transient_after_durable (seen_durable || not (is_transient tier.durability)) tiers

-- `age_jitter_valid` is the check that the jitter, a double, is in [0, 1].
unfoldable pub resolve_tiers : List Tier → Bool → Result ResolvedTiers
resolve_tiers tiers age_jitter_valid =
    if is_empty tiers || not age_jitter_valid then unexpected Status.config else do
      resolved ← check_tiers none [] tiers
      if transient_after_durable false resolved.tiers
          then unexpected Status.config
          else value resolved
