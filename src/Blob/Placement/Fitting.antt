-- ===== src/Blob/Placement/Fitting.antt =====
-- A file's tier is the first that admits its age.
use elysiumkv.Base.{
  ℕ, suc, ◌+◌, ◌-◌, ◌≡◌, refl, sym, ap, ◌∙◌, Bool, true, false, not, ◌&&◌, ◌||◌, List, [], ◌∷◌,
  Option, none, some, ltb, if◌then◌else◌, get_elem?, take, any, arith, Bool-cases, inl, inr, subst,
}
use elysiumkv.Status.{Status, Result, value, unexpected, ◌>>=◌}
use elysiumkv.Slice.{Bytes}
use elysiumkv.Blob.Placement.{
  Store, Tier, ResolvedTiers, last, too_old, first_fitting, placement, has_bound, check_tier,
  check_tiers, resolve_tiers, is_empty, decreases_after, is_transient, usable, check_transient,
  emplace_store, transient_after_durable,
}

abbrev unbounded : Tier → Bool
unbounded tier = not (has_bound tier.max_age)

module _ (window : ℕ → ℕ) (number written age : ℕ) where
  abbrev pub admits : Tier → Bool
  admits tier = not (too_old window number written age tier.max_age)

  too_old-has_bound :
      (bound : Option ℕ) → too_old window number written age bound ≡ true → has_bound bound ≡ true
  unfolding too_old
  too_old-has_bound none old = old
  too_old-has_bound (some span) old = refl

  -- The tier at an index admits the age, and none before it does.
  pub record IsFirst (tiers : List Tier) (index : ℕ) : Type 0 where
    pub tier : Tier
    pub here_it_is : get_elem? tiers index ≡ some tier
    pub admitted : admits tier ≡ true
    pub none_before : any admits (take index tiers) ≡ false

  first_fitting-IsFirst :
      (fallback i : ℕ) (tiers : List Tier)
      → any unbounded tiers ≡ true
      → (k : ℕ) × (first_fitting window number written age fallback i tiers ≡ i + k)
        × IsFirst tiers k
  unfolding first_fitting
  first_fitting-IsFirst fallback i [] free = absurd (ground arith)
  first_fitting-IsFirst fallback i (tier ∷ tiers) free =
      elim (Bool-cases (too_old window number written age tier.max_age)) [
        | inl old ↦
            let rest : any unbounded tiers ≡ true =
              ground (arith, too_old-has_bound tier.max_age old) in
            let (k, at, first) = first_fitting-IsFirst fallback (suc i) tiers rest in
            rw old (
              suc k,
              at ∙ omega arith,
              record {
                tier = first.tier;
                here_it_is = first.here_it_is;
                admitted = first.admitted;
                none_before = let before = first.none_before in ground arith;
              },
            )
        | inr young ↦ rw young (
          0,
          omega arith,
          record { tier = tier; here_it_is = refl; admitted = ground arith; none_before = refl },
        )
      ]

module _ {A : Type 0} where
  value_of : A → Result A → A
  value_of other (value a) = a
  value_of other (unexpected s) = other

  value-injective : (a b : A) → ◌≡◌ {A = Result A} (value a) (value b) → a ≡ b
  unfolding value_of
  value-injective a b e = ap (value_of a) e

-- A check that passes was not refused, and passes on what it checked.
passed_check :
    (refused : Bool) (a b : Tier)
    → (if refused then unexpected Status.config else value a) ≡ value b
    → (refused ≡ false) × (a ≡ b)
passed_check true a b e = absurd (ground arith)
passed_check false a b e = (refl, value-injective a b e)

-- Checking the last tier leaves it without a bound.
last_check :
    (previous : Option Tier) (r : Result Tier) (checked : Tier)
    → (do
      t ← r
      if decreases_after previous t || (true && (has_bound t.max_age || is_transient t.durability))
          then unexpected Status.config
          else value t)
      ≡ value checked
    → unbounded checked ≡ true
last_check previous (unexpected s) checked e = absurd (ground arith)
last_check previous (value t) checked e =
    let (kept, same) =
      passed_check
        (decreases_after previous t || (true && (has_bound t.max_age || is_transient t.durability)))
        t checked e in
    subst (λ c. unbounded c ≡ true) same (ground arith)

check_tier-unbounded :
    (previous : Option Tier) (tier checked : Tier)
    → check_tier previous true tier ≡ value checked
    → unbounded checked ≡ true
unfolding check_tier
check_tier-unbounded previous tier checked passed =
    at (usable tier.store) (check_transient tier) passed
  where
    at :
        (b : Bool) (r : Result Tier)
        → (if not b then unexpected Status.config else do
          t ← r
          if decreases_after previous t
                || (true && (has_bound t.max_age || is_transient t.durability))
              then unexpected Status.config
              else value t)
          ≡ value checked
        → unbounded checked ≡ true
    at true r e = last_check previous r checked e
    at false r e = absurd (ground arith)

-- The tiers that are kept once the first is checked and the rest are resolved.
abbrev joined : Tier → Result ResolvedTiers → Result ResolvedTiers
joined c r = do rest ← r; value (record rest { tiers = c ∷ rest.tiers })

resolved_rest :
    (c : Tier) (r : Result ResolvedTiers) (t : ResolvedTiers)
    → joined c r ≡ value t
    → (rest : ResolvedTiers) × (r ≡ value rest) × (t.tiers ≡ c ∷ rest.tiers)
resolved_rest c (unexpected s) t e = absurd (ground arith)
resolved_rest c (value rest) t e = (rest, refl, ap (λ x. x.tiers) (sym (value-injective _ t e)))

checked_first :
    (r : Result Tier) (more : Tier → Result ResolvedTiers) (t : ResolvedTiers)
    → (do c ← r; more c) ≡ value t
    → (c : Tier) × (r ≡ value c) × (more c ≡ value t)
checked_first (unexpected s) more t e = absurd (ground arith)
checked_first (value c) more t e = (c, refl, e)

check_tiers-unbounded :
    (tiers : List Tier) (previous : Option Tier) (stores : List (Bytes × Store)) (t : ResolvedTiers)
    → is_empty tiers ≡ false
    → check_tiers previous stores tiers ≡ value t
    → any unbounded t.tiers ≡ true
unfolding check_tiers
check_tiers-unbounded [] previous stores t some_tier e = absurd (ground arith)
check_tiers-unbounded (tier ∷ []) previous stores t some_tier e =
    let (c, checked, kept) =
      checked_first _ (λ c. joined c (check_tiers (some c) (emplace_store c.store stores) [])) t
        e in
    let (rest, done, same) =
      resolved_rest c (check_tiers (some c) (emplace_store c.store stores) []) t kept in
    let free : unbounded c ≡ true = check_tier-unbounded previous tier c checked in
    rw same (ground arith)
check_tiers-unbounded (tier ∷ next ∷ tiers) previous stores t some_tier e =
    let (c, checked, kept) =
      checked_first _
        (λ c. joined c (check_tiers (some c) (emplace_store c.store stores) (next ∷ tiers))) t e in
    let (rest, done, same) =
      resolved_rest c (check_tiers (some c) (emplace_store c.store stores) (next ∷ tiers)) t kept in
    let free : any unbounded rest.tiers ≡ true =
      check_tiers-unbounded (next ∷ tiers) (some c) (emplace_store c.store stores) rest refl done in
    rw same (ground arith)

passed_two :
    (p q : Bool) (r t : ResolvedTiers)
    → (if p then unexpected Status.config else if q then unexpected Status.config else value r)
      ≡ value t
    → r ≡ t
passed_two true q r t e = absurd (ground arith)
passed_two false true r t e = absurd (ground arith)
passed_two false false r t e = value-injective r t e

resolve_tiers-unbounded :
    (tiers : List Tier) (valid : Bool) (t : ResolvedTiers)
    → resolve_tiers tiers valid ≡ value t
    → any unbounded t.tiers ≡ true
unfolding resolve_tiers
resolve_tiers-unbounded tiers valid t e =
    at (is_empty tiers) refl (check_tiers none [] tiers) refl e
  where
    at :
        (b : Bool)
        → is_empty tiers ≡ b
        → (r : Result ResolvedTiers) → check_tiers none [] tiers ≡ r
        → (if b || not valid then unexpected Status.config else do
          resolved ← r
          if transient_after_durable false resolved.tiers
              then unexpected Status.config
              else value resolved)
          ≡ value t
        → any unbounded t.tiers ≡ true
    at true h r k e = absurd (ground arith)
    at false h (unexpected s) k e = absurd (ground arith)
    at false h (value r) k e =
        subst (λ x. any unbounded x.tiers ≡ true) (passed_two (not valid) _ r t e)
          (check_tiers-unbounded tiers none [] r h k)

-- For tiers that were accepted, a file's tier is the first that admits its age: the tier at the index
-- that `placement` gives exists and admits the age, and no tier before it does. So there is always
-- one, whatever the width of the jitter window.
pub placement-IsFirst :
    (window : ℕ → ℕ) (tiers : List Tier) (valid : Bool) (t : ResolvedTiers) (number written now : ℕ)
    → resolve_tiers tiers valid ≡ value t
    → IsFirst window number written (now - written) t.tiers (placement window t number written now)
unfolding placement
placement-IsFirst window tiers valid t number written now e =
    let age : (if ltb written now then now - written else 0) ≡ now - written = ground arith in
    let (k, at, first) =
      first_fitting-IsFirst window number written (now - written) (last t) 0 t.tiers
        (resolve_tiers-unbounded tiers valid t e) in
    rw age
      (subst (IsFirst window number written (now - written) t.tiers) (sym (at ∙ omega arith)) first)
