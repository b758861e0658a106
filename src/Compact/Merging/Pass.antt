-- ===== src/Compact/Merging/Pass.antt =====
-- src/compact/merging_iterator.cpp: one step moves every child that is on the picked key past it.
use elysiumkv.Base.{
  ℕ, suc, ◌+◌, ◌<◌, ◌≤◌, Bool, true, false, ◌≡◌, refl, sym, ap, ◌∙◌, ◌&&◌, List, [], ◌∷◌, ◌++◌, inl,
  inr, Option, none, some, if◌then◌else◌, set, get_elem?, map, length, arith, Bool-cases, subst,
  ◌≢◌,
}
use elysiumkv.Slice.{Bytes, key_eq}
use elysiumkv.Slice.Order.{key_eq_iff}
use elysiumkv.Sst.Iterator.{InternalIterator, Entry, IsScan, Ascending, find, entry_of}
use elysiumkv.Compact.Merging.{move_others, step, Merging}
use elysiumkv.Compact.Merging.Newest.{IsStrictOrder, total, AllAfter, AllAfter_trans}
use elysiumkv.Compact.Merging.Pick.{Picked, get_elem?-split, set-split, map-append, length-map}

module _ {S : Type 0} (it : InternalIterator S) (move : S → S) where
  abbrev pub pass : Bytes → S → S
  pass key s = if it.valid s && key_eq (it.key s) key then move s else s

  move_others-before :
      (key : Bytes) (pre rest : List S) (i c : ℕ)
      → i + length pre ≡ c
      → move_others it move key c i (pre ++ rest)
        ≡ map (pass key) pre ++ move_others it move key c c rest
  unfolding move_others
  move_others-before key [] rest i c e =
      ap (λ j. move_others it move key c j rest) (omega (arith, e))
  move_others-before key (s ∷ pre) rest i c e =
      ground (arith, move_others-before key pre rest (suc i) c (omega (arith, e)))

  move_others-after :
      (key : Bytes) (post : List S) (i c : ℕ)
      → c < i
      → move_others it move key c i post ≡ map (pass key) post
  unfolding move_others
  move_others-after key [] i c h = refl
  move_others-after key (s ∷ post) i c h =
      ground (arith, move_others-after key post (suc i) c (omega (arith, h)))

  move_others-at :
      (key : Bytes) (s : S) (post : List S) (c : ℕ)
      → move_others it move key c c (s ∷ post) ≡ s ∷ map (pass key) post
  unfolding move_others
  move_others-at key s post c = ground (arith, move_others-after key post (suc c) c (omega arith))

  -- The children after a step: the picked one is moved last, and all others on its key before.
  moved :
      (lt : Bytes → Bytes → Bool) (children : List S) (c : ℕ) (p : Picked it lt children c)
      → set (move_others it move (it.key p.best) c 0 children) c (move p.best)
        ≡ map (pass (it.key p.best)) children
  moved lt children c p =
      let key = it.key p.best in
      let before : move_others it move key c 0 children
          ≡ map (pass key) p.pre ++ p.best ∷ map (pass key) p.post =
        ap (λ t. move_others it move key c 0 t) p.split
        ∙ move_others-before key p.pre (p.best ∷ p.post) 0 c (omega (arith, p.at))
        ∙ ap (λ t. map (pass key) p.pre ++ t) (move_others-at key p.best p.post c) in
      let at : c ≡ length (map (pass key) p.pre) = p.at ∙ sym (length-map (pass key) p.pre) in
      let passed : pass key p.best ≡ move p.best =
        let valid = p.is_valid in
        ground (arith, (key_eq_iff (it.key p.best) (it.key p.best)).1 refl) in
      ap (λ t. set t c (move p.best)) before
      ∙ ap (λ i. set (map (pass key) p.pre ++ p.best ∷ map (pass key) p.post) i (move p.best)) at
      ∙ set-split (map (pass key) p.pre) p.best (move p.best) (map (pass key) p.post)
      ∙ ap (λ t. map (pass key) p.pre ++ t ∷ map (pass key) p.post) (sym passed)
      ∙ sym (map-append (pass key) p.pre (p.best ∷ p.post))
      ∙ ap (map (pass key)) (sym p.split)

  pub Picked-child :
      (lt : Bytes → Bytes → Bool) (children : List S) (c : ℕ) (p : Picked it lt children c)
      → get_elem? children c ≡ some p.best
  Picked-child lt children c p =
      ap (λ t. get_elem? t c) p.split
      ∙ ap (get_elem? (p.pre ++ p.best ∷ p.post)) p.at
      ∙ get_elem?-split p.pre p.best p.post

  step-some :
      (m : Merging S) (c : ℕ) (child : S)
      → m.current ≡ some c
      → get_elem? m.children c ≡ some child
      → step it move m ≡ record m {
        children = set (move_others it move (it.key child) c 0 m.children) c (move child);
      }
  unfolding step
  step-some m c child e f = at m.current e
    where
      at :
          (o : Option ℕ)
          → o ≡ some c
          → elim o [
            | none ↦ m
            | some d ↦ elim (get_elem? m.children d) [
              | none ↦ m
              | some x ↦ record m {
                children = set (move_others it move (it.key x) d 0 m.children) d (move x);
              }
            ]
          ]
            ≡ record m {
              children = set (move_others it move (it.key child) c 0 m.children) c (move child);
            }
      at o e = rw (e, f) refl

  pub step-pass :
      (lt : Bytes → Bytes → Bool) (m : Merging S) (c : ℕ) (p : Picked it lt m.children c)
      → m.current ≡ some c
      → step it move m ≡ record m { children = map (pass (it.key p.best)) m.children }
  step-pass lt m c p e =
      step-some m c p.best e (Picked-child lt m.children c p)
      ∙ ap (λ t. record m { children = t }) (moved lt m.children c p)

module _ {S : Type 0} (it : InternalIterator S) (move : S → S) (ahead : S → List Entry)
    (scan : IsScan it move ahead) (lt : Bytes → Bytes → Bool) (order : IsStrictOrder lt) where
  -- What is ahead in one child once the key is passed.
  pub record IsPassed (key : Bytes) (es fs : List Entry) : Type 0 where
    pub after : AllAfter lt key fs
    pub ascends : Ascending lt fs
    pub others : (k : Bytes) → key ≢ k → find k fs ≡ find k es
    pub keeps : (a : Bytes) → AllAfter lt a es → AllAfter lt a fs

  IsPassed-head : (x : Entry) (es : List Entry) → Ascending lt (x ∷ es) → IsPassed x.key (x ∷ es) es
  IsPassed-head x es a = record {
    after = a.0;
    ascends = a.1;
    others = λ k n. ground (arith, (key_eq_iff x.key k).0, n);
    keeps = λ k h. h.1;
  }

  IsPassed-none :
      (key : Bytes) (es : List Entry) → AllAfter lt key es → Ascending lt es → IsPassed key es es
  IsPassed-none key es h a = record {
    after = h;
    ascends = a;
    others = λ k n. refl;
    keeps = λ k h. h;
  }

  pub pass-IsPassed :
      (key : Bytes) (s : S) (es : List Entry)
      → ahead s ≡ es
      → (it.valid s ≡ true → lt (it.key s) key ≡ false)
      → Ascending lt es
      → (fs : List Entry) × (ahead (pass it move key s) ≡ fs) × IsPassed key es fs
  pass-IsPassed key s [] e n a =
      let stopped = scan.at_end s e in rw stopped ([], e, IsPassed-none key [] tt tt)
  pass-IsPassed key s (x ∷ es) e n a =
      let (valid, shows, rest) = scan.at_entry s x es e in
      let same : it.key s ≡ x.key = ap (λ t. t.key) shows in
      elim (Bool-cases (key_eq x.key key)) [
        | inl h ↦
            rw (valid, same, h)
              (
                es,
                rest,
                subst (λ k. IsPassed k (x ∷ es) es) ((key_eq_iff x.key key).0 h)
                    (IsPassed-head x es a),
              )
        | inr h ↦
            let not_less : lt x.key key ≡ false = subst (λ k. lt k key ≡ false) same (n valid) in
            let less : lt key x.key ≡ true =
              let tri = order.tri in
              ground (arith, (key_eq_iff x.key key).1, tri x.key key not_less) in
            rw (valid, same, h)
              (
                x ∷ es,
                e,
                IsPassed-none key (x ∷ es) (less, AllAfter_trans lt order key x.key es less a.0) a,
              )
      ]

  pass_shorter :
      (key : Bytes) (s : S) (es : List Entry)
      → ahead s ≡ es
      → length (ahead (pass it move key s)) ≤ length es
  pass_shorter key s es e = elim (Bool-cases (it.valid s && key_eq (it.key s) key)) [
    | inl h ↦ rw h (moved_on s es e (ground arith))
    | inr h ↦ rw (h, e) (omega arith)
  ]
    where
      moved_on :
          (s : S) (es : List Entry)
          → ahead s ≡ es
          → it.valid s ≡ true
          → length (ahead (move s)) ≤ length es
      moved_on s [] e v = let stopped = scan.at_end s e in ground arith
      moved_on s (x ∷ es) e v =
          let (w, shows, rest) = scan.at_entry s x es e in rw rest (omega arith)

  total_pass_le :
      (key : Bytes) (children : List S)
      → total ahead (map (pass it move key) children) ≤ total ahead children
  total_pass_le key [] = omega arith
  total_pass_le key (s ∷ children) =
      omega (arith, total_pass_le key children, pass_shorter key s (ahead s) refl)

  -- A valid child has an entry ahead.
  pub valid_cons :
      (s : S)
      → it.valid s ≡ true
      → (es : List Entry) × (ahead s ≡ entry_of it s ∷ es) × (ahead (move s) ≡ es)
  valid_cons s v = at (ahead s) refl
    where
      at :
          (fs : List Entry)
          → ahead s ≡ fs
          → (es : List Entry) × (ahead s ≡ entry_of it s ∷ es) × (ahead (move s) ≡ es)
      at [] e = let stopped = scan.at_end s e in absurd (ground arith)
      at (x ∷ es) e =
          let (w, shows, rest) = scan.at_entry s x es e in
          (es, e ∙ ap (λ t. t ∷ es) (sym shows), rest)

  pub total_pass_lt :
      (pre : List S) (best : S) (post : List S)
      → it.valid best ≡ true
      → total ahead (map (pass it move (it.key best)) (pre ++ best ∷ post))
        < total ahead (pre ++ best ∷ post)
  total_pass_lt [] best post v =
      let (es, at, rest) = valid_cons best v in
      let passed : pass it move (it.key best) best ≡ move best =
        ground (arith, (key_eq_iff (it.key best) (it.key best)).1 refl) in
      rw (passed, rest, at) (omega (arith, total_pass_le (it.key best) post))
  total_pass_lt (s ∷ pre) best post v =
      omega (arith, total_pass_lt pre best post v, pass_shorter (it.key best) s (ahead s) refl)
