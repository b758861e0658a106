-- ===== src/Blob/Placement/Monotone.antt =====
-- As a file ages it only moves to colder tiers.
use elysiumkv.Base.{
  ℕ, suc, ◌+◌, ◌≤◌, ◌<◌, ◌≡◌, true, List, [], ◌∷◌, Option, none, some, length, arith,
}
use elysiumkv.Blob.Placement.{Tier, ResolvedTiers, last, too_old, first_fitting, placement}

module _ (window : ℕ → ℕ) (number written : ℕ) where
  too_old_later :
      (age later : ℕ) (bound : Option ℕ)
      → age ≤ later
      → too_old window number written age bound ≡ true
      → too_old window number written later bound ≡ true
  unfolding too_old
  too_old_later age later none h old = old
  too_old_later age later (some span) h old = ground arith

  first_fitting-ge :
      (age fallback i : ℕ) (tiers : List Tier)
      → i + length tiers ≡ suc fallback
      → i ≤ suc (first_fitting window number written age fallback i tiers)
  unfolding first_fitting
  first_fitting-ge age fallback i [] e = omega arith
  first_fitting-ge age fallback i (tier ∷ tiers) e =
      ground (arith, first_fitting-ge age fallback (suc i) tiers)

  first_fitting_later :
      (age later fallback i : ℕ) (tiers : List Tier)
      → age ≤ later
      → i + length tiers ≡ suc fallback
      → first_fitting window number written age fallback i tiers
        ≤ first_fitting window number written later fallback i tiers
  unfolding first_fitting
  first_fitting_later age later fallback i [] h e = omega arith
  first_fitting_later age later fallback i (tier ∷ tiers) h e = ground (
    arith,
    too_old_later age later tier.max_age h,
    first_fitting-ge later fallback (suc i) tiers,
    first_fitting_later age later fallback (suc i) tiers h,
  )

-- At a later time a file's tier is the same or a colder one, for any tiers, where there is one, and
-- for any width of the jitter window. It holds of tiers whose bounds decrease too, which
-- `resolve_tiers` refuses.
pub placement_later :
    (window : ℕ → ℕ) (t : ResolvedTiers) (number written now later : ℕ)
    → 0 < length t.tiers
    → now ≤ later
    → placement window t number written now ≤ placement window t number written later
unfolding placement last
placement_later window t number written now later some_tier h =
    first_fitting_later window number written _ _ _ 0 t.tiers (ground arith) (omega arith)
