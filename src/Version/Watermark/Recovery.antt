-- ===== src/Version/Watermark/Recovery.antt =====
-- What a recovery may resume from, after any sequence of observations.
use elysiumkv.Base.{
  ℕ, ◌≡◌, refl, ap, Bool, true, false, not, ◌||◌, List, [], ◌∷◌, Option, none, some, if◌then◌else◌,
  ltb, sym, ◌∙◌, any, arith,
}
use elysiumkv.Version.Watermark.{
  WatermarkInterval, has_value, accumulate_min, accumulate_max, RecoveryWatermark, nothing_observed,
  observe_discarded, observe_survivor, resume_after,
}

pub data Observation : Type 0 where
  discarded survivor : WatermarkInterval → Observation

unfoldable pub observe_all : RecoveryWatermark → List Observation → RecoveryWatermark
observe_all r [] = r
observe_all r (discarded w ∷ more) = observe_all (observe_discarded r w) more
observe_all r (survivor w ∷ more) = observe_all (observe_survivor r w) more

abbrev pub is_discarded : Observation → Bool
is_discarded (discarded w) = true
is_discarded (survivor w) = false

abbrev pub lacks_low : Observation → Bool
lacks_low (discarded w) = not (has_value w.low)
lacks_low (survivor w) = false

abbrev pub lesser : Option ℕ → Option ℕ → Option ℕ
lesser none b = b
lesser (some a) none = some a
lesser (some a) (some b) = if ltb a b then some a else some b

abbrev pub greater : Option ℕ → Option ℕ → Option ℕ
greater none b = b
greater (some a) none = some a
greater (some a) (some b) = if ltb a b then some b else some a

-- The least lower bound among the discarded files that have one.
abbrev pub least_discarded : List Observation → Option ℕ
least_discarded [] = none
least_discarded (discarded w ∷ more) = lesser w.low (least_discarded more)
least_discarded (survivor w ∷ more) = least_discarded more

-- The greatest upper bound among the surviving files.
abbrev pub greatest_surviving : List Observation → Option ℕ
greatest_surviving [] = none
greatest_surviving (discarded w ∷ more) = greatest_surviving more
greatest_surviving (survivor w ∷ more) = greater w.high (greatest_surviving more)

accumulate_min-lesser : (a b c : Option ℕ) → lesser (accumulate_min a b) c ≡ lesser a (lesser b c)
unfolding accumulate_min
accumulate_min-lesser none none c = refl
accumulate_min-lesser none (some y) c = refl
accumulate_min-lesser (some x) none c = refl
accumulate_min-lesser (some x) (some y) none = ground arith
accumulate_min-lesser (some x) (some y) (some z) = ground arith

accumulate_max-greater :
    (a b c : Option ℕ) → greater (accumulate_max a b) c ≡ greater a (greater b c)
unfolding accumulate_max
accumulate_max-greater none none c = refl
accumulate_max-greater none (some y) c = refl
accumulate_max-greater (some x) none c = refl
accumulate_max-greater (some x) (some y) none = ground arith
accumulate_max-greater (some x) (some y) (some z) = ground arith

lesser-none : (a : Option ℕ) → lesser a none ≡ a
lesser-none none = refl
lesser-none (some a) = refl

greater-none : (a : Option ℕ) → greater a none ≡ a
greater-none none = refl
greater-none (some a) = refl

-- The state after observations, from the one before.
record Summary (r s : RecoveryWatermark) (os : List Observation) : Type 0 where
  anything : s.anything_discarded ≡ (r.anything_discarded || any is_discarded os)
  absent : s.lower_bound_absent ≡ (r.lower_bound_absent || any lacks_low os)
  lower : s.lower_bound ≡ lesser r.lower_bound (least_discarded os)
  upper : s.surviving ≡ greater r.surviving (greatest_surviving os)

discarded_fields :
    (r : RecoveryWatermark) (w : WatermarkInterval)
    → ((observe_discarded r w).anything_discarded ≡ true)
      × ((observe_discarded r w).lower_bound_absent
          ≡ (r.lower_bound_absent || not (has_value w.low)))
      × ((observe_discarded r w).lower_bound ≡ accumulate_min r.lower_bound w.low)
      × ((observe_discarded r w).surviving ≡ r.surviving)
unfolding observe_discarded
discarded_fields r w = of_low w.low
  where
    of_low :
        (o : Option ℕ)
        → ((observe_discarded r (record w { low = o })).anything_discarded ≡ true)
          × ((observe_discarded r (record w { low = o })).lower_bound_absent
              ≡ (r.lower_bound_absent || not (has_value o)))
          × ((observe_discarded r (record w { low = o })).lower_bound
              ≡ accumulate_min r.lower_bound o)
          × ((observe_discarded r (record w { low = o })).surviving ≡ r.surviving)
    of_low none = (refl, ground arith, unfold accumulate_min in refl, refl)
    of_low (some v) = (refl, ground arith, refl, refl)

observe_all-Summary :
    (r : RecoveryWatermark) (os : List Observation) → Summary r (observe_all r os) os
unfolding observe_all observe_survivor
observe_all-Summary r [] = record {
  anything = ground arith;
  absent = ground arith;
  lower = sym (lesser-none r.lower_bound);
  upper = sym (greater-none r.surviving);
}
observe_all-Summary r (discarded w ∷ more) =
    let ih = observe_all-Summary (observe_discarded r w) more in
    let (anything, absent, lower, upper) = discarded_fields r w in
    record {
      anything = ground (arith, ih.anything, anything);
      absent = ground (arith, ih.absent, absent);
      lower =
          ih.lower
          ∙ ap (λ t. lesser t (least_discarded more)) lower
          ∙ accumulate_min-lesser r.lower_bound w.low (least_discarded more);
      upper = ih.upper ∙ ap (λ t. greater t (greatest_surviving more)) upper;
    }
observe_all-Summary r (survivor w ∷ more) =
    let ih = observe_all-Summary (observe_survivor r w) more in
    record {
      anything = ih.anything;
      absent = ih.absent;
      lower = ih.lower;
      upper = ih.upper ∙ accumulate_max-greater r.surviving w.high (greatest_surviving more);
    }

-- After any observations, in any order, recovery resumes from the greatest upper bound of the
-- survivors if nothing was discarded. If something was, it resumes from the least lower bound of
-- the discarded files, or from nothing if one of them had none.
pub resume_after-observe_all :
    (os : List Observation)
    → resume_after (observe_all nothing_observed os) ≡ (
        if any is_discarded os
        then if any lacks_low os then none else least_discarded os
        else greatest_surviving os)
unfolding resume_after
resume_after-observe_all os =
    let s = observe_all-Summary nothing_observed os in rw (s.anything, s.absent, s.lower, s.upper)
