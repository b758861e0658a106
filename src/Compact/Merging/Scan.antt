-- ===== src/Compact/Merging/Scan.antt =====
-- src/compact/merging_iterator.cpp: the whole scan, in either direction.
use elysiumkv.Base.{
  ℕ, zero, suc, ◌≤◌, Bool, true, false, ◌≡◌, refl, sym, ◌∙◌, List, [], ◌∷◌, ◌++◌, ◌⊎◌, Option, none,
  some, All, get_elem?, arith, Bool-cases, inl, inr, subst,
}
use elysiumkv.Slice.{Bytes, key_eq}
use elysiumkv.Slice.Order.{key_eq_iff}
use elysiumkv.Sst.Iterator.{InternalIterator, Entry, IsScan, Ascending, find, entry_of}
use elysiumkv.Sst.Ranges.{RangeTombstone}
use elysiumkv.Sst.Ranges.Gaps.{IsFragmented}
use elysiumkv.Compact.Merging.{
  Merging, pick_raw, step, shadowed, pass_shadowed, pick, advance, shown, collect, carriers_from,
}
use elysiumkv.Compact.Merging.Newest.{IsStrictOrder, newest, total, AllAfter, newest-none}
use elysiumkv.Compact.Merging.Pick.{Picked, IsPick}
use elysiumkv.Compact.Merging.Pass.{Picked-child, valid_cons}
use elysiumkv.Compact.Merging.Turn.{AllAscend, EachAfter}
use elysiumkv.Compact.Merging.Settle.{
  Ready, Stepped, Settled, pick_raw-Ready, shadowed-any, newest-Picked, step-Stepped,
  pass_shadowed-Settled,
}

module _ {S : Type 0} (it : InternalIterator S) (move : S → S) (ahead : S → List Entry)
    (scan : IsScan it move ahead) (lt : Bytes → Bytes → Bool) (order : IsStrictOrder lt)
    (ranges : List (List RangeTombstone)) (fragmented : All IsFragmented ranges) where
  abbrev IsReady : Merging S → Type 0
  IsReady m = Ready it move ahead scan lt order ranges fragmented m

  -- The entries that a scan shows.
  pub record Scanned (m : Merging S) (es : List Entry) : Type 0 where
    pub finds : (k : Bytes) → find k es ≡ newest ahead k m.children ranges
    pub ascends : Ascending lt es
    pub keeps : (a : Bytes) → EachAfter it move ahead scan lt order a m.children → AllAfter lt a es

  -- Where no child is valid there is nothing ahead.
  nothing :
      (k : Bytes) (children : List S)
      → All (λ s. ◌≡◌ {A = Bool} (it.valid s) false) children
      → newest ahead k children ranges ≡ none
  nothing k children h = newest-none ahead k children ranges (absent children h)
    where
      absent :
          (children : List S)
          → All (λ s. ◌≡◌ {A = Bool} (it.valid s) false) children
          → All (λ s. ◌≡◌ {A = Option Entry} (find k (ahead s)) none) children
      absent [] h = tt
      absent (s ∷ children) (hs, h) = (at (ahead s) refl, absent children h)
        where
          at : (es : List Entry) → ahead s ≡ es → find k (ahead s) ≡ none
          at [] e = rw e refl
          at (x ∷ es) e =
              let (v, shows, rest) = scan.at_entry s x es e in absurd (ground (arith, v, hs))

  shown-some :
      (m : Merging S) (c : ℕ) (p : Picked it lt m.children c)
      → m.current ≡ some c
      → shown it m ≡ some (entry_of it p.best)
  unfolding shown
  shown-some m c p e = at m.current e
    where
      at :
          (o : Option ℕ)
          → o ≡ some c
          → elim o [
            | none ↦ none
            | some d ↦ elim (get_elem? m.children d) [
              | none ↦ none
              | some child ↦ some (entry_of it child)
            ]
          ]
            ≡ some (entry_of it p.best)
      at o e = rw (e, Picked-child it move lt m.children c p) refl

  advance-some :
      (fuel : ℕ) (m : Merging S) (c : ℕ)
      → m.current ≡ some c
      → advance it lt move fuel m ≡ pass_shadowed it lt move fuel (pick_raw it lt (step it move m))
  unfolding advance pick
  advance-some fuel m c e = at m.current e
    where
      at :
          (o : Option ℕ)
          → o ≡ some c
          → elim o [
            | none ↦ m
            | some d ↦ pass_shadowed it lt move fuel (pick_raw it lt (step it move m))
          ]
            ≡ pass_shadowed it lt move fuel (pick_raw it lt (step it move m))
      at o e = rw e refl

  -- One entry and the rest of the scan.
  Scanned-cons :
      (m : Merging S) (c : ℕ) (p : Picked it lt m.children c) (mid after : Merging S)
      (es : List Entry)
      → IsReady m
      → m.current ≡ some c
      → shadowed it m ≡ false
      → Stepped it move ahead scan lt order ranges fragmented m c p mid
      → Settled it move ahead scan lt order ranges fragmented mid after
      → Scanned after es
      → Scanned m (entry_of it p.best ∷ es)
  Scanned-cons m c p mid after es r e clear s t rest = record {
    finds = λ k. elim (Bool-cases (key_eq (it.key p.best) k)) [
      | inl y ↦ rw y (
          subst (λ q. some (entry_of it p.best) ≡ newest ahead q m.children ranges)
            ((key_eq_iff (it.key p.best) k).0 y)
            (sym (
              newest-Picked it move ahead scan lt order ranges fragmented m c p r.ascend
              ∙ ground (
                arith,
                clear,
                shadowed-any it move ahead scan lt order ranges fragmented m c p r.carriers_are e,
              ))))
      | inr n ↦ rw n (
          rest.finds k
          ∙ t.same k
          ∙ s.passed.others k ranges (λ q. ground (arith, (key_eq_iff (it.key p.best) k).1 q)))
    ];
    ascends = (rest.keeps (it.key p.best) (t.keeps (it.key p.best) s.passed.beyond), rest.ascends);
    keeps = λ a g. (
      first a p.pre (subst (EachAfter it move ahead scan lt order a) p.split g),
      rest.keeps a (t.keeps a (s.passed.keeps a g)),
    );
  }
    where
      first :
          (a : Bytes) (pre : List S)
          → EachAfter it move ahead scan lt order a (pre ++ p.best ∷ p.post)
          → lt a (it.key p.best) ≡ true
      first a [] (h, hs) =
          let (fs, at, more) = valid_cons it move ahead scan lt order p.best p.is_valid in
          (subst (AllAfter lt a) at h).0
      first a (x ∷ pre) (h, hs) = first a pre hs

  Scanned-nil :
      (m : Merging S) → All (λ s. ◌≡◌ {A = Bool} (it.valid s) false) m.children → Scanned m []
  Scanned-nil m h = record {
    finds = λ k. sym (nothing k m.children h);
    ascends = tt;
    keeps = λ a g. tt;
  }

  -- No child is picked, or one is.
  ready_cases :
      (m : Merging S)
      → IsReady m
      → ((m.current ≡ none) × All (λ s. ◌≡◌ {A = Bool} (it.valid s) false) m.children)
        ⊎ ((c : ℕ) × (m.current ≡ some c) × Picked it lt m.children c)
  ready_cases m r = at m.current refl r.picked
    where
      at :
          (o : Option ℕ)
          → m.current ≡ o
          → IsPick it lt m.children o
          → ((m.current ≡ none) × All (λ s. ◌≡◌ {A = Bool} (it.valid s) false) m.children)
            ⊎ ((c : ℕ) × (m.current ≡ some c) × Picked it lt m.children c)
      at none e p = inl (e, p)
      at (some c) e p = inr (c, e, p)

  shown-none : (m : Merging S) → m.current ≡ none → shown it m ≡ none
  unfolding shown
  shown-none m e = at m.current e
    where
      at :
          (o : Option ℕ)
          → o ≡ none
          → ◌≡◌ {A = Option Entry}
              (elim o [
                | none ↦ none
                | some d ↦ elim (get_elem? m.children d) [
                  | none ↦ none
                  | some child ↦ some (entry_of it child)
                ]
              ])
              none
      at o e = rw e refl

  collect-none :
      (fuel n : ℕ) (m : Merging S) → shown it m ≡ none → collect it lt move fuel (suc n) m ≡ []
  unfolding collect
  collect-none fuel n m e = rw (e, collect) refl

  collect-some :
      (fuel n : ℕ) (m after : Merging S) (e : Entry)
      → shown it m ≡ some e
      → advance it lt move fuel m ≡ after
      → collect it lt move fuel (suc n) m ≡ e ∷ collect it lt move fuel n after
  unfolding collect
  collect-some fuel n m after e h k = rw (h, k, collect) refl

  collect-Scanned :
      (fuel n : ℕ) (m : Merging S)
      → IsReady m
      → shadowed it m ≡ false
      → total ahead m.children ≤ n
      → total ahead m.children ≤ fuel
      → Scanned m (collect it lt move fuel n m)
  unfolding collect
  collect-Scanned fuel zero m r clear t u = elim (ready_cases m r) [
    | inl (e, h) ↦ Scanned-nil m h
    | inr (c, e, p) ↦
        let s = step-Stepped it move ahead scan lt order ranges fragmented m c p r e in
        absurd (omega (arith, s.fewer, t))
  ]
  collect-Scanned fuel (suc n) m r clear t u = elim (ready_cases m r) [
    | inl (e, h) ↦ rw (collect-none fuel n m (shown-none m e)) (Scanned-nil m h)
    | inr (c, e, p) ↦
        let mid = pick_raw it lt (step it move m) in
        let s = step-Stepped it move ahead scan lt order ranges fragmented m c p r e in
        let q =
          pass_shadowed-Settled it move ahead scan lt order ranges fragmented fuel mid s.ready
            (omega (arith, s.fewer, u)) in
        rw (collect-some fuel n m _ _ (shown-some m c p e) (advance-some fuel m c e)) (
          Scanned-cons m c p mid (pass_shadowed it lt move fuel mid) _ r e clear s q (
            collect-Scanned fuel n (pass_shadowed it lt move fuel mid) q.ready q.clear
              (omega (arith, q.no_more, s.fewer, t)) (omega (arith, q.no_more, s.fewer, u))))
  ]

  -- The scan from a pick.
  pub pick-Scanned :
      (fuel : ℕ) (m : Merging S)
      → m.carriers ≡ carriers_from 0 ranges
      → AllAscend it move ahead scan lt order m.children
      → total ahead m.children ≤ fuel
      → Scanned m (collect it lt move fuel fuel (pick it lt move fuel m))
        × (shadowed it (pick it lt move fuel m) ≡ false)
  unfolding pick pick_raw
  pick-Scanned fuel m c a t =
      let r = pick_raw-Ready it move ahead scan lt order ranges fragmented m c a in
      let raw = pick_raw it lt m in
      let q = pass_shadowed-Settled it move ahead scan lt order ranges fragmented fuel raw r t in
      let end = pass_shadowed it lt move fuel raw in
      let all =
        collect-Scanned fuel fuel end q.ready q.clear (omega (arith, q.no_more, t))
          (omega (arith, q.no_more, t)) in
      (
        record {
          finds = λ k. all.finds k ∙ q.same k;
          ascends = all.ascends;
          keeps = λ a g. all.keeps a (q.keeps a g);
        },
        q.clear,
      )
