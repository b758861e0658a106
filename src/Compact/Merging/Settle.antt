-- ===== src/Compact/Merging/Settle.antt =====
-- src/compact/merging_iterator.cpp: the loop that passes hidden entries ends at an entry
-- that is not hidden, and loses none that should be shown.
use elysiumkv.Base.{
  ℕ, zero, suc, ◌<◌, ◌≤◌, Bool, true, false, ◌≡◌, refl, sym, ap, ◌∙◌, List, [], ◌∷◌, ◌++◌, Option,
  none, some, if◌then◌else◌, All, map, get_elem?, arith, Bool-cases, inl, inr, subst,
}
use elysiumkv.Slice.{Bytes, key_eq}
use elysiumkv.Slice.Order.{key_eq_iff}
use elysiumkv.Sst.Iterator.{InternalIterator, Entry, IsScan, find, entry_of}
use elysiumkv.Sst.Ranges.{RangeTombstone}
use elysiumkv.Sst.Ranges.Gaps.{IsFragmented}
use elysiumkv.Compact.Merging.{
  Merging, pick_raw, step, shadowed, carriers_from, carriers_hold, pass_shadowed,
}
use elysiumkv.Compact.Merging.Newest.{IsStrictOrder, newest, total, find-AllAfter, newest-none}
use elysiumkv.Compact.Merging.Pick.{Picked, IsPick, pick_from-IsPick, Picked-NotBefore}
use elysiumkv.Compact.Merging.Pass.{pass, step-pass, Picked-child, total_pass_lt}
use elysiumkv.Compact.Merging.Hidden.{any_covers, carriers_hold-any}
use elysiumkv.Compact.Merging.Turn.{
  AllAscend, EachAfter, ArePassed, map-pass-ArePassed, newest_split,
}

module _ {S : Type 0} (it : InternalIterator S) (move : S → S) (ahead : S → List Entry)
    (scan : IsScan it move ahead) (lt : Bytes → Bytes → Bool) (order : IsStrictOrder lt)
    (ranges : List (List RangeTombstone)) (fragmented : All IsFragmented ranges) where
  -- The state between the moves: the first of the least keys is picked.
  pub record Ready (m : Merging S) : Type 0 where
    pub carriers_are : m.carriers ≡ carriers_from 0 ranges
    pub ascend : AllAscend it move ahead scan lt order m.children
    pub picked : IsPick it lt m.children m.current

  pub pick_raw-Ready :
      (m : Merging S)
      → m.carriers ≡ carriers_from 0 ranges
      → AllAscend it move ahead scan lt order m.children
      → Ready (pick_raw it lt m)
  unfolding pick_raw
  pick_raw-Ready m c a = record {
    carriers_are = c;
    ascend = a;
    picked = pick_from-IsPick it lt order m.children [] m.children none refl tt;
  }

  pub shadowed-any :
      (m : Merging S) (c : ℕ) (p : Picked it lt m.children c)
      → m.carriers ≡ carriers_from 0 ranges
      → m.current ≡ some c
      → shadowed it m ≡ any_covers (it.key p.best) c ranges
  unfolding shadowed
  shadowed-any m c p are e =
      at m.current e
      ∙ ap (λ t. carriers_hold t c (it.key p.best)) are
      ∙ carriers_hold-any (it.key p.best) 0 c c ranges (omega arith) fragmented
    where
      at :
          (o : Option ℕ)
          → o ≡ some c
          → elim o [
            | none ↦ false
            | some d ↦ elim (get_elem? m.children d) [
              | none ↦ false
              | some child ↦ carriers_hold m.carriers d (it.key child)
            ]
          ]
            ≡ carriers_hold m.carriers c (it.key p.best)
      at o e = rw (e, Picked-child it move lt m.children c p) refl

  pub newest-Picked :
      (m : Merging S) (c : ℕ) (p : Picked it lt m.children c)
      → AllAscend it move ahead scan lt order m.children
      → newest ahead (it.key p.best) m.children ranges
        ≡ (if any_covers (it.key p.best) c ranges then none else some (entry_of it p.best))
  newest-Picked m c p a =
      ap (λ t. newest ahead (it.key p.best) t ranges) p.split
      ∙ newest_split it move ahead scan lt order p.pre p.best p.post ranges p.is_valid p.earlier
          (front p.pre p.best p.post (subst (AllAscend it move ahead scan lt order) p.split a))
      ∙ ap (λ i. if any_covers (it.key p.best) i ranges then none else some (entry_of it p.best))
          (sym p.at)
    where
      front :
          (pre : List S) (s : S) (post : List S)
          → AllAscend it move ahead scan lt order (pre ++ s ∷ post)
          → AllAscend it move ahead scan lt order pre
      front [] s post h = tt
      front (x ∷ pre) s post (hx, h) = (hx, front pre s post h)

  -- A step and the pick after it.
  pub record Stepped (m : Merging S) (c : ℕ) (p : Picked it lt m.children c) (after : Merging S)
      : Type 0 where
    pub ready : Ready after
    pub passed : ArePassed it move ahead scan lt order (it.key p.best) m.children after.children
    pub fewer : total ahead after.children < total ahead m.children

  pub step-Stepped :
      (m : Merging S) (c : ℕ) (p : Picked it lt m.children c)
      → Ready m
      → m.current ≡ some c
      → Stepped m c p (pick_raw it lt (step it move m))
  step-Stepped m c p r e =
      let passed =
        map-pass-ArePassed it move ahead scan lt order (it.key p.best) m.children
          (Picked-NotBefore it lt order m.children c p) r.ascend in
      let after : Merging S = record m {
        children = map (pass it move (it.key p.best)) m.children;
      } in
      subst (λ t. Stepped m c p (pick_raw it lt t)) (sym (step-pass it move lt m c p e))
        (unfold pick_raw in
          record {
            ready = pick_raw-Ready after r.carriers_are passed.ascend;
            passed = passed;
            fewer =
                subst (λ t. total ahead (map (pass it move (it.key p.best)) t) < total ahead t)
                  (sym p.split)
                  (total_pass_lt it move ahead scan lt order p.pre p.best p.post p.is_valid);
          })

  -- What passing the hidden entries comes to.
  pub record Settled (m after : Merging S) : Type 0 where
    pub ready : Ready after
    pub clear : shadowed it after ≡ false
    pub same : (k : Bytes) → newest ahead k after.children ranges ≡ newest ahead k m.children ranges
    pub keeps :
        (a : Bytes)
        → EachAfter it move ahead scan lt order a m.children
        → EachAfter it move ahead scan lt order a after.children
    pub no_more : total ahead after.children ≤ total ahead m.children

  stays : (m : Merging S) → Ready m → shadowed it m ≡ false → Settled m m
  stays m r h = record {
    ready = r;
    clear = h;
    same = λ k. refl;
    keeps = λ a h. h;
    no_more = omega arith;
  }

  shadowed-some :
      (m : Merging S)
      → Ready m
      → shadowed it m ≡ true
      → (c : ℕ) × (m.current ≡ some c) × Picked it lt m.children c
  unfolding shadowed
  shadowed-some m r h = at m.current refl r.picked
    where
      at :
          (o : Option ℕ)
          → m.current ≡ o
          → IsPick it lt m.children o
          → (c : ℕ) × (m.current ≡ some c) × Picked it lt m.children c
      at none e p = absurd (ground (arith, e, h))
      at (some c) e p = (c, e, p)

  -- A hidden entry may be passed: the key has nothing to show before or after.
  hidden_same :
      (m : Merging S) (c : ℕ) (p : Picked it lt m.children c) (after : Merging S)
      → Ready m
      → m.current ≡ some c
      → shadowed it m ≡ true
      → Stepped m c p after
      → (k : Bytes) → newest ahead k after.children ranges ≡ newest ahead k m.children ranges
  hidden_same m c p after r e h s k = elim (Bool-cases (key_eq (it.key p.best) k)) [
    | inr n ↦ s.passed.others k ranges (λ q. ground (arith, (key_eq_iff (it.key p.best) k).1 q))
    | inl y ↦
        subst (λ t. newest ahead t after.children ranges ≡ newest ahead t m.children ranges)
          ((key_eq_iff (it.key p.best) k).0 y)
          (newest-none ahead (it.key p.best) after.children ranges
              (gone after.children s.passed.beyond)
            ∙ sym (
                newest-Picked m c p r.ascend ∙ ground (arith, shadowed-any m c p r.carriers_are e)))
  ]
    where
      gone :
          (children : List S)
          → EachAfter it move ahead scan lt order (it.key p.best) children
          → All (λ s. ◌≡◌ {A = Option Entry} (find (it.key p.best) (ahead s)) none) children
      gone [] h = tt
      gone (s ∷ children) (hs, h) =
          (find-AllAfter lt order (it.key p.best) (ahead s) hs, gone children h)

  Settled-after :
      (m : Merging S) (c : ℕ) (p : Picked it lt m.children c) (mid after : Merging S)
      → Ready m
      → m.current ≡ some c
      → shadowed it m ≡ true
      → Stepped m c p mid
      → Settled mid after
      → Settled m after
  Settled-after m c p mid after r e h s t = record {
    ready = t.ready;
    clear = t.clear;
    same = λ k. t.same k ∙ hidden_same m c p mid r e h s k;
    keeps = λ a g. t.keeps a (s.passed.keeps a g);
    no_more = omega (arith, t.no_more, s.fewer);
  }

  pub pass_shadowed-Settled :
      (fuel : ℕ) (m : Merging S)
      → Ready m
      → total ahead m.children ≤ fuel
      → Settled m (pass_shadowed it lt move fuel m)
  unfolding pass_shadowed
  pass_shadowed-Settled zero m r t = elim (Bool-cases (shadowed it m)) [
    | inr h ↦ stays m r h
    | inl h ↦
        let (c, e, p) = shadowed-some m r h in
        let s = step-Stepped m c p r e in absurd (omega (arith, s.fewer, t))
  ]
  pass_shadowed-Settled (suc fuel) m r t = elim (Bool-cases (shadowed it m)) [
    | inr h ↦ rw h (stays m r h)
    | inl h ↦
        let (c, e, p) = shadowed-some m r h in
        let s = step-Stepped m c p r e in
        rw h (
          Settled-after m c p (pick_raw it lt (step it move m)) _ r e h s (
            pass_shadowed-Settled fuel (pick_raw it lt (step it move m)) s.ready
              (omega (arith, s.fewer, t))))
  ]
