-- ===== src/Compact/Merging/Pick.antt =====
-- src/compact/merging_iterator.cpp: the child that is picked, and one step past its key.
use elysiumkv.Base.{
  ℕ, suc, Bool, true, false, ◌≡◌, refl, sym, ap, ◌∙◌, ◌&&◌, List, [], ◌∷◌, ◌++◌, inl, inr, Option,
  none, some, if◌then◌else◌, get_elem?, set, All, All-append, map, length, arith, Bool-cases, subst,
  append-nil, append_assoc, length-append,
}
use elysiumkv.Slice.{Bytes}
use elysiumkv.Sst.Iterator.{InternalIterator}
use elysiumkv.Compact.Merging.{beats, pick_from}
use elysiumkv.Compact.Merging.Newest.{IsStrictOrder}

module _ {A : Type 0} where
  pub get_elem?-split :
      (pre : List A) (x : A) (post : List A) → get_elem? (pre ++ x ∷ post) (length pre) ≡ some x
  get_elem?-split [] x post = refl
  get_elem?-split (y ∷ pre) x post = get_elem?-split pre x post

  pub set-split :
      (pre : List A) (x y : A) (post : List A)
      → set (pre ++ x ∷ post) (length pre) y ≡ pre ++ y ∷ post
  set-split [] x y post = refl
  set-split (z ∷ pre) x y post = ap (λ t. z ∷ t) (set-split pre x y post)

  pub map-append : (f : A → A) (xs ys : List A) → map f (xs ++ ys) ≡ map f xs ++ map f ys
  map-append f [] ys = refl
  map-append f (x ∷ xs) ys = ap (λ t. f x ∷ t) (map-append f xs ys)

  pub length-map : (f : A → A) (xs : List A) → length (map f xs) ≡ length xs
  length-map f [] = refl
  length-map f (x ∷ xs) = ap suc (length-map f xs)

module _ {S : Type 0} (it : InternalIterator S) (lt : Bytes → Bytes → Bool) where
  abbrev pub NotBefore : S → S → Type 0
  NotBefore best s = it.valid s ≡ true → lt (it.key s) (it.key best) ≡ false

  abbrev pub After : S → S → Type 0
  After best s = it.valid s ≡ true → lt (it.key best) (it.key s) ≡ true

  -- The child at the index has the first key of all, and no earlier child has that key.
  pub record Picked (children : List S) (index : ℕ) : Type 0 where
    pub pre : List S
    pub best : S
    pub post : List S
    pub split : children ≡ pre ++ best ∷ post
    pub at : index ≡ length pre
    pub is_valid : it.valid best ≡ true
    pub earlier : All (After best) pre
    pub later : All (NotBefore best) post

  abbrev pub IsPick : List S → Option ℕ → Type 0
  IsPick children none = All (λ s. ◌≡◌ {A = Bool} (it.valid s) false) children
  IsPick children (some index) = Picked children index

pick_from-cons :
    {S : Type 0} (it : InternalIterator S) (lt : Bytes → Bytes → Bool) (children : List S) (i : ℕ)
    (child : S) (rest : List S) (current : Option ℕ)
    → pick_from it lt children i (child ∷ rest) current
      ≡ pick_from it lt children
          (suc i)
          rest
          (if it.valid child && beats it lt children child current then some i else current)
unfolding pick_from
pick_from-cons it lt children i child rest current = refl

module _ {S : Type 0} (it : InternalIterator S) (lt : Bytes → Bytes → Bool)
    (order : IsStrictOrder lt) where
  all-After :
      (best child : S) (seen : List S)
      → lt (it.key child) (it.key best) ≡ true
      → All (NotBefore it lt best) seen
      → All (After it lt child) seen
  all-After best child [] h k = tt
  all-After best child (s ∷ seen) h (ks, k) = (
    λ v.
        let tri = order.tri in
        let trans = order.trans in
        ground (
          arith,
          ks v,
          tri (it.key s) (it.key best),
          trans (it.key child) (it.key best) (it.key s),
          h,
          ap (λ t. lt (it.key child) t),
        ),
    all-After best child seen h k,
  )

  asym : (a b : Bytes) → lt a b ≡ true → lt b a ≡ false
  asym a b h =
      let irrefl = order.irrefl in let trans = order.trans in ground (arith, irrefl a, trans a b a)

  all-NotBefore :
      (best : S) (seen : List S) → All (After it lt best) seen → All (NotBefore it lt best) seen
  all-NotBefore best [] h = tt
  all-NotBefore best (s ∷ seen) (hs, h) =
      (λ v. asym (it.key best) (it.key s) (hs v), all-NotBefore best seen h)

  pub Picked-NotBefore :
      (children : List S) (i : ℕ) (p : Picked it lt children i)
      → All (NotBefore it lt p.best) children
  Picked-NotBefore children i p =
      subst (λ t. All (NotBefore it lt p.best) t) (sym p.split)
        (All-append _ p.pre (p.best ∷ p.post) (all-NotBefore p.best p.pre p.earlier)
          (λ v. order.irrefl (it.key p.best), p.later))

  beats-some :
      (children : List S) (child best : S) (c : ℕ)
      → get_elem? children c ≡ some best
      → beats it lt children child (some c) ≡ lt (it.key child) (it.key best)
  unfolding beats
  beats-some children child best c e = rw (e, beats) refl

  -- One turn of the loop.
  turn :
      (children seen : List S) (child : S) (rest : List S) (current : Option ℕ)
      → children ≡ seen ++ child ∷ rest
      → IsPick it lt seen current
      → IsPick it lt (seen ++ child ∷ []) (
          if it.valid child && beats it lt children child current
          then some (length seen)
          else current)
  unfolding beats
  turn children seen child rest none e p = elim (Bool-cases (it.valid child)) [
    | inl v ↦ rw v (record {
      pre = seen;
      best = child;
      post = [];
      split = refl;
      at = refl;
      is_valid = v;
      earlier = none_valid seen p;
      later = tt;
    })
    | inr n ↦ rw n (All-append _ seen (child ∷ []) p (n, tt))
  ]
    where
      none_valid :
          (xs : List S)
          → All (λ s. ◌≡◌ {A = Bool} (it.valid s) false) xs
          → All (After it lt child) xs
      none_valid [] h = tt
      none_valid (x ∷ xs) (hx, h) = (λ v. ground arith, none_valid xs h)
  turn children seen child rest (some c) e p =
      let found : get_elem? children c ≡ some p.best =
        ap (λ t. get_elem? t c)
          (e
            ∙ ap (λ t. t ++ child ∷ rest) p.split
            ∙ append_assoc p.pre (p.best ∷ p.post) (child ∷ rest))
        ∙ ap (λ i. get_elem? (p.pre ++ p.best ∷ (p.post ++ child ∷ rest)) i) p.at
        ∙ get_elem?-split p.pre p.best (p.post ++ child ∷ rest) in
      let seen_is : seen ++ child ∷ [] ≡ p.pre ++ p.best ∷ (p.post ++ child ∷ []) =
        ap (λ t. t ++ child ∷ []) p.split ∙ append_assoc p.pre (p.best ∷ p.post) (child ∷ []) in
      let stays : (it.valid child ≡ true → lt (it.key child) (it.key p.best) ≡ false)
          → Picked it lt (seen ++ child ∷ []) c =
        λ h. record {
          pre = p.pre;
          best = p.best;
          post = p.post ++ child ∷ [];
          split = seen_is;
          at = p.at;
          is_valid = p.is_valid;
          earlier = p.earlier;
          later = All-append _ p.post (child ∷ []) p.later (h, tt);
        } in
      rw (beats-some children child p.best c found) (elim (Bool-cases (it.valid child)) [
        | inr n ↦ rw n (stays (λ v. ground arith))
        | inl v ↦ elim (Bool-cases (lt (it.key child) (it.key p.best))) [
          | inr n ↦ rw (v, n) (stays (λ v. n))
          | inl b ↦
              rw (v, b)
                (record {
                  pre = seen;
                  best = child;
                  post = [];
                  split = refl;
                  at = refl;
                  is_valid = v;
                  earlier = all-After p.best child seen b (Picked-NotBefore seen c p);
                  later = tt;
                })
        ]
      ])

  -- The scan over the children finds the first of the least keys.
  pub pick_from-IsPick :
      (children seen rest : List S) (current : Option ℕ)
      → children ≡ seen ++ rest
      → IsPick it lt seen current
      → IsPick it lt children (pick_from it lt children (length seen) rest current)
  pick_from-IsPick children seen [] current e p =
      unfold pick_from in subst (λ t. IsPick it lt t current) (sym (e ∙ append-nil seen)) p
  pick_from-IsPick children seen (child ∷ rest) current e p =
      rw (pick_from-cons it lt children (length seen) child rest current) (
        subst
          (λ i. IsPick it lt children (
            pick_from it lt children i rest (
              if it.valid child && beats it lt children child current
              then some (length seen)
              else current)))
          (length-append seen (child ∷ []) ∙ omega arith)
          (pick_from-IsPick children (seen ++ child ∷ []) rest
            (if it.valid child && beats it lt children child current
              then some (length seen)
              else current)
            (e ∙ sym (append_assoc seen (child ∷ []) rest))
            (turn children seen child rest current e p)))
