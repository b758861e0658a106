-- ===== src/Sst/Concat/Follow.antt =====
-- src/sst/concat_iterator.cpp: over files that open, the scan goes through one file after another.
use elysiumkv.Base.{
  ℕ, zero, suc, ◌+◌, ◌-◌, ◌<◌, ◌≤◌, ◌≡◌, refl, sym, ap, ◌∙◌, Bool, true, false, List, [], ◌∷◌, ◌++◌,
  none, some, if◌then◌else◌, leb, inl, inr, arith, Bool-cases,
}
use elysiumkv.Status.{Status, value}
use elysiumkv.Sst.Iterator.{InternalIterator, Entry, IsScan}
use elysiumkv.Sst.Concat.{
  Concat, Run, is_ok, open_at, leave, positioning_failed, valid, on_inner, land, forward, next_file,
  next, seek_to_first, concat,
}
use elysiumkv.Sst.Concat.Joined.{
  joined, joined_cons, joined_nil, split_joined, entries_from, entries_at, to_come, at_file,
  to_come-at_file, whole, enter_value, some_inner, inner_some, valid_none,
}

module _ {S : Type 0} (it : InternalIterator S) (run : Run S) (ahead : S → List Entry)
    (scan : IsScan it it.next ahead)
    (opens : (i : ℕ) → i < run.end → (s : S) × (open_at it run i ≡ value s))
    (quiet : (s : S) → it.valid s ≡ false → is_ok (it.status s) ≡ true) where
  next_file-valid :
      (n i : ℕ) (s : S) (st : Status)
      → it.valid s ≡ true
      → next_file it run (suc n) ((at_file it run ahead) i s st) ≡ (at_file it run ahead) i s st
  unfolding next_file
  next_file-valid n i s st v = rw v refl

  next_file-over :
      (n i : ℕ) (s : S) (st : Status)
      → it.valid s ≡ false
      → leb run.end (i + 1) ≡ true
      → next_file it run (suc n) ((at_file it run ahead) i s st)
        ≡ record { index = i; inner = none; status = st }
  unfolding next_file leave
  next_file-over n i s st v h = let good = quiet s v in rw (v, good, h) refl

  next_file-more :
      (n i : ℕ) (s t : S) (st : Status)
      → it.valid s ≡ false
      → leb run.end (i + 1) ≡ false
      → open_at it run (i + 1) ≡ value t
      → next_file it run (suc n) ((at_file it run ahead) i s st)
        ≡ next_file it run n ((at_file it run ahead) (i + 1) (it.seek_to_first t) st)
  unfolding next_file on_inner
  next_file-more n i s t st v h o =
      let good = quiet s v in
      let entered =
        (enter_value it run ahead) (i + 1) (record { index = i + 1; inner = some s; status = st }) t
          o in
      rw (v, good, h, entered) refl

  next_from :
      (i : ℕ)
      → leb run.end (i + 1) ≡ false
      → (t : S) × (open_at it run (i + 1) ≡ value t)
        × ((entries_from it run ahead) (run.end - (i + 1)) (i + 1)
            ≡ ahead (it.seek_to_first t)
              ++ (entries_from it run ahead) (run.end - (i + 1 + 1)) (i + 1 + 1))
  next_from i h =
      let (t, o) = opens (i + 1) (ground (arith, h)) in
      let one_more : run.end - (i + 1) ≡ suc (run.end - (i + 1 + 1)) = ground (arith, h) in
      (
        t,
        o,
        ap (λ n. (entries_from it run ahead) n (i + 1)) one_more
            ∙ (entries_at it run ahead) (run.end - (i + 1 + 1)) (i + 1) t o
            ∙ ap
                (λ k.
                  ahead (it.seek_to_first t)
                  ++ (entries_from it run ahead) (run.end - (i + 1 + 1)) k)
                (omega arith),
      )

  to_come-next_file :
      (n i : ℕ) (s : S) (st : Status)
      → run.end ≤ i + n
      → 0 < n
      → (es : List Entry) → ahead s ≡ es
      → (to_come it run ahead) (next_file it run n ((at_file it run ahead) i s st))
        ≡ es ++ (entries_from it run ahead) (run.end - (i + 1)) (i + 1)
  to_come-next_file zero i s st l p es e = absurd (omega (arith, p))
  to_come-next_file (suc n) i s st l p (x ∷ es) e =
      let (v, shows, rest) = scan.at_entry s x es e in
      ap (to_come it run ahead) (next_file-valid n i s st v)
      ∙ (to_come-at_file it run ahead) i s st
      ∙ ap (λ l. joined l ((entries_from it run ahead) (run.end - (i + 1)) (i + 1))) e
      ∙ unfold joined in refl
  to_come-next_file (suc n) i s st l p [] e = elim (Bool-cases (leb run.end (i + 1))) [
    | inl h ↦
        ap (to_come it run ahead) (next_file-over n i s st (scan.at_end s e) h)
        ∙ nothing i st (run.end - (i + 1)) (ground (arith, h))
    | inr h ↦
        let (t, o, more) = next_from i h in
        ap (to_come it run ahead) (next_file-more n i s t st (scan.at_end s e) h o)
        ∙ to_come-next_file n (i + 1) (it.seek_to_first t) st (omega (arith, l))
            (ground (arith, h, l)) (ahead (it.seek_to_first t)) refl
        ∙ sym more
  ]
    where
      nothing :
          (i : ℕ) (st : Status) (k : ℕ)
          → k ≡ 0
          → (to_come it run ahead) (record { index = i; inner = none; status = st })
            ≡ (entries_from it run ahead) k (i + 1)
      nothing i st k z =
          unfold to_come entries_from in ap (λ k. (entries_from it run ahead) k (i + 1)) (sym z)

  land_value :
      (position : S → S) (at : ℕ) (c : Concat S) (t : S)
      → open_at it run at ≡ value t
      → land it run position at c
        ≡ (it.valid (position t), (at_file it run ahead) at (position t) c.status)
  unfolding land on_inner valid positioning_failed
  land_value position at c t o =
      let entered = (enter_value it run ahead) at (record c { index = at }) t o in
      elim (Bool-cases (it.valid (position t))) [
        | inl v ↦ rw (entered, v) refl
        | inr n ↦ let good = quiet (position t) n in rw (entered, n, good) refl
      ]

  forward-to_come :
      (n at : ℕ) (c : Concat S)
      → at + n ≡ run.end
      → (to_come it run ahead) (forward it run it.seek_to_first n at c)
        ≡ (entries_from it run ahead) n at
  unfolding forward
  forward-to_come zero at c e = unfold_none
    where
      unfold_none :
          (to_come it run ahead) (leave it run (record c { index = at }))
          ≡ (entries_from it run ahead) 0 at
      unfold_none = unfold leave to_come entries_from in refl
  forward-to_come (suc n) at c e =
      let (t, o) = opens at (omega (arith, e)) in
      let first = it.seek_to_first t in
      let landed = land_value it.seek_to_first at c t o in
      rw landed (
        split n at c t o e (it.valid first) refl (ahead first) refl (
          forward-to_come n (suc at) ((at_file it run ahead) at first c.status) (omega (arith, e))))
    where
      split :
          (n at : ℕ) (c : Concat S) (t : S)
          → open_at it run at ≡ value t
          → at + suc n ≡ run.end
          → (b : Bool) → it.valid (it.seek_to_first t) ≡ b
          → (es : List Entry) → ahead (it.seek_to_first t) ≡ es
          → (to_come it run ahead) (
              forward it run it.seek_to_first n
                (suc at)
                ((at_file it run ahead) at (it.seek_to_first t) c.status))
            ≡ (entries_from it run ahead) n (suc at)
          → (to_come it run ahead) (
              if b
              then (at_file it run ahead) at (it.seek_to_first t) c.status
              else forward it run it.seek_to_first n
                  (suc at)
                  ((at_file it run ahead) at (it.seek_to_first t) c.status))
            ≡ (entries_from it run ahead) (suc n) at
      split n at c t o e true v [] a ih =
          let stopped = scan.at_end (it.seek_to_first t) a in absurd (ground (arith, v, stopped))
      split n at c t o e false v [] a ih =
          ih
          ∙ ap (λ l. l ++ (entries_from it run ahead) n (suc at)) (sym a)
          ∙ sym ((entries_at it run ahead) n at t o)
      split n at c t o e false v (x ∷ es) a ih =
          let (w, shows, rest) = scan.at_entry (it.seek_to_first t) x es a in
          absurd (ground (arith, v, w))
      split n at c t o e true v (x ∷ es) a ih =
          (to_come-at_file it run ahead) at (it.seek_to_first t) c.status
          ∙ ap (λ k. joined (ahead (it.seek_to_first t)) ((entries_from it run ahead) k (at + 1)))
              (omega (arith, e))
          ∙ ap (λ k. joined (ahead (it.seek_to_first t)) ((entries_from it run ahead) n k))
              (omega arith)
          ∙ ap (λ l. joined l ((entries_from it run ahead) n (suc at))) a
          ∙ joined_cons x es ((entries_from it run ahead) n (suc at))
          ∙ ap (λ l. l ++ (entries_from it run ahead) n (suc at)) (sym a)
          ∙ sym ((entries_at it run ahead) n at t o)

  seek_to_first-to_come :
      (c : Concat S)
      → run.begin ≤ run.end
      → (to_come it run ahead) (seek_to_first it run c) ≡ (whole it run ahead)
  unfolding seek_to_first whole
  seek_to_first-to_come c h = forward-to_come (run.end - run.begin) run.begin c (omega (arith, h))

  concat-IsScan : IsScan (concat it run) (next it run) (to_come it run ahead)
  concat-IsScan = record {
    at_end = λ c e. elim ((some_inner it run ahead) c [] e) [
      | inl (i, nil) ↦ (valid_none it run ahead) c i
      | inr (s, i, j) ↦
          let (v, shows, goes) = (inner_some it run ahead) c s i in
          v ∙ scan.at_end s (joined_nil (ahead s) _ j)
    ];
    at_entry = λ c e es h. elim ((some_inner it run ahead) c (e ∷ es) h) [
      | inl (i, nil) ↦ absurd (ground (arith, nil))
      | inr (s, i, j) ↦
          let (xs, a, rest) = split_joined (ahead s) _ e es j in
          let (w, shows, more) = scan.at_entry s e xs a in
          let (v, shown, goes) = (inner_some it run ahead) c s i in
          (
            v ∙ w,
            shown ∙ shows,
            ap (to_come it run ahead) goes
                ∙ to_come-next_file (suc (run.end - c.index)) c.index (it.next s) c.status
                    (omega arith) (omega arith) xs more
                ∙ rest,
          )
    ];
  }

  -- Over files that all open, whose iterators scan forward and report no failure where they end, the
  -- iterator is itself such a scan: at each position it shows the rest of its file and then the
  -- entries of the files after it, empty ones passed, and from the start it shows all files in order.
  pub concat-seek_to_first :
      run.begin ≤ run.end
      → IsScan (concat it run) (next it run) (to_come it run ahead)
        × ((c : Concat S) → (to_come it run ahead) (seek_to_first it run c) ≡ (whole it run ahead))
  concat-seek_to_first h = (concat-IsScan, λ c. seek_to_first-to_come c h)
