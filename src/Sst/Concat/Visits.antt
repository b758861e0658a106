-- ===== src/Sst/Concat/Visits.antt =====
-- src/sst/concat_iterator.cpp: the positioning loops, file by file.
use elysiumkv.Base.{
  ℕ, zero, suc, ◌+◌, ◌-◌, ◌<◌, ◌≤◌, ◌≡◌, refl, ap, Bool, true, false, not, Option, none, some,
  if◌then◌else◌, ◌==◌, inl, inr, arith, Bool-cases, subst, get_elem?,
}
use elysiumkv.Status.{Status, Result, value, unexpected}
use elysiumkv.Version.Metadata.{FileMetadata}
use elysiumkv.Sst.Iterator.{InternalIterator}
use elysiumkv.Sst.Concat.{
  Concat, Run, is_ok, open_at, leave, enter, positioning_failed, valid, on_inner, land, forward,
  backward, status,
}
use elysiumkv.Sst.Concat.Outcome.{
  IsEmptyAt, EmptyIn, Outcome, Upwards, Downwards, Landing, found_entry, found_failure, found_empty,
  at_entry, at_failure, exhausted, not_opened, not_positioned,
}

module _ {S : Type 0} (it : InternalIterator S) (run : Run S)
    (refused : (f : FileMetadata) (e : Status) → run.open_file f ≡ unexpected e → is_ok e ≡ false)
    (position : S → S) where
  refused_at : (at : ℕ) (e : Status) → open_at it run at ≡ unexpected e → is_ok e ≡ false
  unfolding open_at
  refused_at at e h = from (get_elem? run.files at) h
    where
      status_or : Result S → Status
      status_or (value s) = Status.ok
      status_or (unexpected e) = e

      from :
          (o : Option FileMetadata)
          → elim o [ none ↦ unexpected Status.io | some file ↦ run.open_file file ] ≡ unexpected e
          → is_ok e ≡ false
      from none k = subst (λ x. is_ok x ≡ false) (ap status_or k) refl
      from (some file) k = refused file e k

  land-Landing :
      (at : ℕ) (c : Concat S)
      → is_ok c.status ≡ true
      → Landing it run position at c (land it run position at c)
  unfolding land enter on_inner valid positioning_failed status
  land-Landing at c k = from (open_at it run at) refl
    where
      landed : Result S → Bool × Concat S
      landed r =
          let (entered, c1) : Bool × Concat S = elim r [
            | unexpected e ↦ (false, record c { index = at; status = e; inner = none })
            | value s ↦ (true, record c { index = at; inner = some s })
          ] in
          let c2 = on_inner it run position c1 in
          let (failed, c3) = positioning_failed it run c2 in
          if not entered then (true, c1) else if valid it run c2 then (true, c2) else (failed, c3)

      from : (r : Result S) → open_at it run at ≡ r → Landing it run position at c (landed r)
      from (unexpected e) h =
          let bad = refused_at at e h in
          found_failure refl (record {
            error = e;
            cause = not_opened h;
            is_error = bad;
            index = refl;
            reported = rw bad refl;
            hidden = refl;
          })
      from (value s) h = elim (Bool-cases (it.valid (position s))) [
        | inl v ↦ rw v (
            found_entry refl (record {
              child = s;
              opened = h;
              index = refl;
              inner = refl;
              has_entry = v;
              no_failure = k;
            }))
        | inr n ↦ elim (Bool-cases (is_ok (it.status (position s)))) [
          | inl good ↦
              rw (n, good)
                (found_empty refl (record { child = s; opened = h; invalid = n; no_failure = good })
                  k)
          | inr bad ↦
              rw (n, bad)
                (found_failure refl (record {
                  error = it.status (position s);
                  cause = not_positioned s h n refl;
                  is_error = bad;
                  index = refl;
                  reported = rw bad refl;
                  hidden = n;
                }))
        ]
      ]

  -- One file more at the end, or at the start, of a run of empty ones.
  empty_above :
      (low at : ℕ)
      → EmptyIn it run position low at
      → IsEmptyAt it run position at
      → EmptyIn it run position low (suc at)
  empty_above low at below empty i l h = elim (Bool-cases (i == at)) [
    | inl e ↦ subst (IsEmptyAt it run position) (ground (arith, e)) empty
    | inr ne ↦ below i l (ground (arith, ne, h))
  ]

  empty_below :
      (at high : ℕ)
      → EmptyIn it run position (suc at) high
      → IsEmptyAt it run position at
      → EmptyIn it run position at high
  empty_below at high above empty i l h = elim (Bool-cases (i == at)) [
    | inl e ↦ subst (IsEmptyAt it run position) (ground (arith, e)) empty
    | inr ne ↦ above i (ground (arith, ne, l)) h
  ]

  forward-suc :
      (n at : ℕ) (c : Concat S)
      → forward it run position (suc n) at c ≡ (
          if (land it run position at c).0
          then (land it run position at c).1
          else forward it run position n (suc at) (land it run position at c).1)
  unfolding forward
  forward-suc n at c = refl

  forward-zero :
      (at : ℕ) (c : Concat S)
      → forward it run position 0 at c ≡ leave it run (record c { index = at })
  unfolding forward
  forward-zero at c = refl

  pub leave-exhausted :
      (low high : ℕ) {passed : ℕ → Type 0} (c : Concat S)
      → EmptyIn it run position low high
      → is_ok c.status ≡ true
      → Outcome it run position low high passed (leave it run c)
  unfolding leave status
  leave-exhausted low high c empty k = exhausted empty refl (rw k refl)

  pub forward-Outcome :
      (low n at high : ℕ) (c : Concat S)
      → low ≤ at
      → at + n ≡ high
      → EmptyIn it run position low at
      → is_ok c.status ≡ true
      → Upwards it run position low high (forward it run position n at c)
  forward-Outcome low zero at high c l e below k = rw (forward-zero at c) (
      leave-exhausted low high (record c { index = at })
        (subst (λ h. EmptyIn it run position low h) (omega (arith, e)) below) k)
  forward-Outcome low (suc n) at high c l e below k =
      let out = land it run position at c in
      rw (forward-suc n at c) (elim (land-Landing at c k) [
        | found_entry stops h ↦ rw stops (at_entry at l (omega (arith, e)) below h)
        | found_failure stops h ↦ rw stops (at_failure at l (omega (arith, e)) below h)
        | found_empty goes empty good ↦ rw goes (
            forward-Outcome low n (suc at) high out.1 (omega (arith, l)) (omega (arith, e))
              (empty_above low at below empty) good)
      ])

  backward-suc :
      (n at : ℕ) (c : Concat S)
      → backward it run position (suc n) at c ≡ (
          if (land it run position at c).0
          then (land it run position at c).1
          else backward it run position n (at - 1) (land it run position at c).1)
  unfolding backward
  backward-suc n at c = refl

  backward-zero :
      (at : ℕ) (c : Concat S)
      → backward it run position 0 at c ≡ (
          if (land it run position at c).0
          then (land it run position at c).1
          else leave it run (land it run position at c).1)
  unfolding backward
  backward-zero at c = refl

  pub backward-Outcome :
      (low n at high : ℕ) (c : Concat S)
      → low + n ≡ at
      → at < high
      → EmptyIn it run position (suc at) high
      → is_ok c.status ≡ true
      → Downwards it run position low high (backward it run position n at c)
  backward-Outcome low zero at high c e h above k =
      let out = land it run position at c in
      rw (backward-zero at c) (elim (land-Landing at c k) [
        | found_entry stops m ↦ rw stops (at_entry at (omega (arith, e)) h above m)
        | found_failure stops m ↦ rw stops (at_failure at (omega (arith, e)) h above m)
        | found_empty goes empty good ↦ rw goes (
            leave-exhausted low high out.1
              (subst (λ i. EmptyIn it run position i high) (omega (arith, e))
                (empty_below at high above empty))
              good)
      ])
  backward-Outcome low (suc n) at high c e h above k =
      let out = land it run position at c in
      rw (backward-suc n at c) (elim (land-Landing at c k) [
        | found_entry stops m ↦ rw stops (at_entry at (omega (arith, e)) h above m)
        | found_failure stops m ↦ rw stops (at_failure at (omega (arith, e)) h above m)
        | found_empty goes empty good ↦ rw goes (
            backward-Outcome low n (at - 1) high out.1 (omega (arith, e)) (omega (arith, h))
              (subst (λ i. EmptyIn it run position i high) (omega (arith, e))
                (empty_below at high above empty))
              good)
      ])
