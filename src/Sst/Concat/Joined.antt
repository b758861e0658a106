-- ===== src/Sst/Concat/Joined.antt =====
-- src/sst/concat_iterator.cpp: what is ahead of a position in the run of files.
use elysiumkv.Base.{
  ℕ, zero, suc, ◌+◌, ◌-◌, ◌≡◌, refl, sym, ap, true, false, List, [], ◌∷◌, ◌++◌, Option, none, some,
  ◌⊎◌, inl, inr, arith, drop,
}
use elysiumkv.Status.{Status, Result, value, unexpected}
use elysiumkv.Sst.Iterator.{InternalIterator, Entry, entry_of}
use elysiumkv.Sst.Concat.{Concat, Run, open_at, enter, valid, on_inner, next_file, next, concat}

-- What is ahead of a position: the rest of its file, and the files after it.
unfoldable pub joined : List Entry → List Entry → List Entry
joined [] more = []
joined (e ∷ es) more = e ∷ es ++ more

pub joined_cons : (x : Entry) (es more : List Entry) → joined (x ∷ es) more ≡ x ∷ es ++ more
unfolding joined
joined_cons x es more = refl

pub joined_nil : (xs more : List Entry) → joined xs more ≡ [] → xs ≡ []
unfolding joined
joined_nil [] more e = refl
joined_nil (x ∷ xs) more e = absurd (ground (arith, e))

head_or : Entry → List Entry → Entry
head_or d [] = d
head_or d (x ∷ xs) = x

pub split_cons : (x e : Entry) (xs es : List Entry) → x ∷ xs ≡ e ∷ es → (x ≡ e) × (xs ≡ es)
unfolding head_or
split_cons x e xs es h = (ap (head_or x) h, ap (drop 1) h)

pub split_joined :
    (fs more : List Entry) (e : Entry) (es : List Entry)
    → joined fs more ≡ e ∷ es
    → (xs : List Entry) × (fs ≡ e ∷ xs) × (xs ++ more ≡ es)
unfolding joined
split_joined [] more e es h = absurd (ground (arith, h))
split_joined (x ∷ xs) more e es h =
    let (same, rest) = split_cons x e (xs ++ more) es h in (xs, ap (λ y. y ∷ xs) same, rest)

module _ {S : Type 0} (it : InternalIterator S) (run : Run S) (ahead : S → List Entry) where
  -- The entries of a file, and of `n` files in order.
  unfoldable pub file_entries : Result S → List Entry
  file_entries (unexpected e) = []
  file_entries (value s) = ahead (it.seek_to_first s)

  unfoldable pub entries_from : ℕ → ℕ → List Entry
  unfolding file_entries
  entries_from zero at = []
  entries_from (suc n) at = file_entries (open_at it run at) ++ entries_from n (suc at)

  pub entries_at :
      (n at : ℕ) (t : S)
      → open_at it run at ≡ value t
      → entries_from (suc n) at ≡ ahead (it.seek_to_first t) ++ entries_from n (suc at)
  unfolding entries_from file_entries
  entries_at n at t o = ap (λ r. file_entries r ++ entries_from n (suc at)) o

  unfoldable pub to_come : Concat S → List Entry
  unfolding joined
  to_come c = elim c.inner [
    | none ↦ []
    | some s ↦ joined (ahead s) (entries_from (run.end - (c.index + 1)) (c.index + 1))
  ]

  abbrev pub at_file : ℕ → S → Status → Concat S
  at_file i s st = record { index = i; inner = some s; status = st }

  pub enter_value :
      (at : ℕ) (c : Concat S) (t : S)
      → open_at it run at ≡ value t
      → enter it run at c ≡ (true, record c { inner = some t })
  unfolding enter
  enter_value at c t o = rw (o, enter) refl

  pub to_come-at_file :
      (i : ℕ) (s : S) (st : Status)
      → to_come (at_file i s st) ≡ joined (ahead s) (entries_from (run.end - (i + 1)) (i + 1))
  unfolding to_come
  to_come-at_file i s st = refl

  -- What the whole run holds.
  unfoldable pub whole : List Entry
  whole = entries_from (run.end - run.begin) run.begin

  pub some_inner :
      (c : Concat S) (es : List Entry)
      → to_come c ≡ es
      → (c.inner ≡ none × (es ≡ []))
        ⊎ ((s : S) × (c.inner ≡ some s)
            × (joined (ahead s) (entries_from (run.end - (c.index + 1)) (c.index + 1)) ≡ es))
  unfolding to_come
  some_inner c es e = at c.inner refl e
    where
      at :
          (o : Option S)
          → c.inner ≡ o
          → elim o [
            | none ↦ []
            | some s ↦ joined (ahead s) (entries_from (run.end - (c.index + 1)) (c.index + 1))
          ]
            ≡ es
          → (c.inner ≡ none × (es ≡ []))
            ⊎ ((s : S) × (c.inner ≡ some s)
                × (joined (ahead s) (entries_from (run.end - (c.index + 1)) (c.index + 1)) ≡ es))
      at none i e = inl (i, sym e)
      at (some s) i e = inr (s, i, e)

  -- What a state with a file shows, and where it goes.
  pub inner_some :
      (c : Concat S) (s : S)
      → c.inner ≡ some s
      → (valid it run c ≡ it.valid s)
        × (entry_of (concat it run) c ≡ entry_of it s)
        × (next it run c
            ≡ next_file it run (suc (run.end - c.index)) (at_file c.index (it.next s) c.status))
  unfolding valid next on_inner
  inner_some c s e = at c.inner e
    where
      at :
          (o : Option S)
          → o ≡ some s
          → (elim o [ none ↦ false | some s ↦ it.valid s ] ≡ it.valid s)
            × (entry_of (concat it run) (record c { inner = o }) ≡ entry_of it s)
            × (next_file it run
                  (suc (run.end - c.index))
                  (elim o [ none ↦ c | some s ↦ record c { inner = some (it.next s) } ])
                ≡ next_file it run (suc (run.end - c.index)) (at_file c.index (it.next s) c.status))
      at o e = rw e (refl, refl, refl)

  pub valid_none : (c : Concat S) → c.inner ≡ none → valid it run c ≡ false
  unfolding valid
  valid_none c e = at c.inner e
    where
      at : (o : Option S) → o ≡ none → elim o [ none ↦ false | some s ↦ it.valid s ] ≡ false
      at o e = rw e refl
