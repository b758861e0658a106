-- ===== src/Compact/Merging/Turn.antt =====
-- src/compact/merging_iterator.cpp: what one step and the pick after it do to the entries that the
-- merge has yet to show.
use elysiumkv.Base.{
  Bool, true, false, ◌≡◌, refl, sym, ap, ◌∙◌, List, [], ◌∷◌, ◌++◌, ◌≢◌, none, some, if◌then◌else◌,
  All, map, length, arith, Option-cases, drop, get_or, inl, inr, subst,
}
use elysiumkv.Slice.{Bytes}
use elysiumkv.Slice.Order.{key_eq_iff}
use elysiumkv.Sst.Iterator.{InternalIterator, Entry, IsScan, Ascending, find, entry_of}
use elysiumkv.Sst.Ranges.{RangeTombstone}
use elysiumkv.Compact.Merging.Newest.{
  IsStrictOrder, newest, newest-found, newest-absent, is_covered, AllAfter, find-AllAfter,
  AllAfter_trans,
}
use elysiumkv.Compact.Merging.Pick.{After}
use elysiumkv.Compact.Merging.Pass.{pass, pass-IsPassed, valid_cons, IsPassed}
use elysiumkv.Compact.Merging.Hidden.{any_covers, any_covers-suc}

module _ {S : Type 0} (it : InternalIterator S) (move : S → S) (ahead : S → List Entry)
    (scan : IsScan it move ahead) (lt : Bytes → Bytes → Bool) (order : IsStrictOrder lt) where
  abbrev pub AllAscend : List S → Type 0
  AllAscend children = All (λ s. Ascending lt (ahead s)) children

  abbrev pub EachAfter : Bytes → List S → Type 0
  EachAfter key children = All (λ s. AllAfter lt key (ahead s)) children

  -- The children once a key is passed.
  pub record ArePassed (key : Bytes) (before after : List S) : Type 0 where
    pub ascend : AllAscend after
    pub beyond : EachAfter key after
    pub others :
        (k : Bytes) (ranges : List (List RangeTombstone))
        → key ≢ k
        → newest ahead k after ranges ≡ newest ahead k before ranges
    pub keeps : (a : Bytes) → EachAfter a before → EachAfter a after

  newest_cong :
      (k : Bytes) (s t : S) (before after : List S) (ranges : List (List RangeTombstone))
      → find k (ahead t) ≡ find k (ahead s)
      → newest ahead k after (drop 1 ranges) ≡ newest ahead k before (drop 1 ranges)
      → newest ahead k (t ∷ after) ranges ≡ newest ahead k (s ∷ before) ranges
  newest_cong k s t before after ranges f ih = elim (Option-cases (find k (ahead s))) [
    | inl n ↦
        newest-absent ahead k t after ranges (f ∙ n)
        ∙ ap (λ o. if is_covered k (get_or ranges 0 []) then none else o) ih
        ∙ sym (newest-absent ahead k s before ranges n)
    | inr (e, h) ↦
        newest-found ahead k t after ranges e (f ∙ h)
        ∙ sym (newest-found ahead k s before ranges e h)
  ]

  cons_passed :
      (key : Bytes) (s t : S) (before after : List S) (fs : List Entry)
      → ahead t ≡ fs
      → IsPassed it move ahead scan lt order key (ahead s) fs
      → ArePassed key before after
      → ArePassed key (s ∷ before) (t ∷ after)
  cons_passed key s t before after fs e p ps = record {
    ascend = (subst (Ascending lt) (sym e) p.ascends, ps.ascend);
    beyond = (subst (AllAfter lt key) (sym e) p.after, ps.beyond);
    others = λ k ranges n.
        newest_cong k s t before after ranges (ap (find k) e ∙ p.others k n)
          (ps.others k (drop 1 ranges) n);
    keeps = λ a h. (subst (AllAfter lt a) (sym e) (p.keeps a h.0), ps.keeps a h.1);
  }

  pub map-pass-ArePassed :
      (key : Bytes) (children : List S)
      → All (λ s. it.valid s ≡ true → lt (it.key s) key ≡ false) children
      → AllAscend children
      → ArePassed key children (map (pass it move key) children)
  map-pass-ArePassed key [] n a = record {
    ascend = tt;
    beyond = tt;
    others = λ k ranges h. refl;
    keeps = λ a h. tt;
  }
  map-pass-ArePassed key (s ∷ children) (ns, n) (first, a) =
      let (fs, e, p) = pass-IsPassed it move ahead scan lt order key s (ahead s) refl ns first in
      cons_passed key s (pass it move key s) children (map (pass it move key) children) fs e p
        (map-pass-ArePassed key children n a)

  -- The picked key's entry is the picked child's, unless an earlier child covers the key.
  pub newest_split :
      (pre : List S) (best : S) (post : List S) (ranges : List (List RangeTombstone))
      → it.valid best ≡ true
      → All (After it lt best) pre
      → AllAscend pre
      → newest ahead (it.key best) (pre ++ best ∷ post) ranges
        ≡ (if any_covers (it.key best) (length pre) ranges then none else some (entry_of it best))
  newest_split [] best post ranges v h a =
      let (es, e, rest) = valid_cons it move ahead scan lt order best v in
      let found : find (it.key best) (ahead best) ≡ some (entry_of it best) =
        rw (e, (key_eq_iff (it.key best) (it.key best)).1 refl) refl in
      newest-found ahead (it.key best) best post ranges (entry_of it best) found
  newest_split (s ∷ pre) best post ranges v (hs, h) (first, a) =
      newest-absent ahead (it.key best) s (pre ++ best ∷ post) ranges (absent (ahead s) refl first)
      ∙ ground (
        arith,
        newest_split pre best post (drop 1 ranges) v h a,
        any_covers-suc (it.key best) (length pre) ranges,
      )
    where
      absent :
          (es : List Entry) → ahead s ≡ es → Ascending lt es → find (it.key best) (ahead s) ≡ none
      absent [] e up = rw e refl
      absent (x ∷ es) e up =
          let (valid, shows, rest) = scan.at_entry s x es e in
          let less : lt (it.key best) x.key ≡ true =
            subst (λ k. lt (it.key best) k ≡ true) (ap (λ t. t.key) shows) (hs valid) in
          rw e (
            find-AllAfter lt order (it.key best) (x ∷ es)
              (less, AllAfter_trans lt order (it.key best) x.key es less up.0))
