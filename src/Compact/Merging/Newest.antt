-- ===== src/Compact/Merging/Newest.antt =====
-- src/compact/merging_iterator.cpp: which entry of a key the merge should show, and what passing a
-- key does to it.
use elysiumkv.Base.{
  ℕ, ◌+◌, Bool, true, false, ◌≡◌, refl, ap, ◌∙◌, List, [], ◌∷◌, Option, none, some, if◌then◌else◌,
  any, All, drop, get_or, length, arith,
}
use elysiumkv.Slice.{Bytes, key_lt, key_gt}
use elysiumkv.Slice.Order.{key_lt_irrefl, key_lt_trans, key_lt_tri, key_gt-key_lt, key_eq_iff}
use elysiumkv.Sst.Iterator.{Entry, find}
use elysiumkv.Sst.Ranges.{RangeTombstone, covers}

-- A strict linear order of keys: that of a forward or of a backward scan.
pub record IsStrictOrder (lt : Bytes → Bytes → Bool) : Type 0 where
  pub irrefl : (a : Bytes) → lt a a ≡ false
  pub trans : (a b c : Bytes) → lt a b ≡ true → lt b c ≡ true → lt a c ≡ true
  pub tri : (a b : Bytes) → lt a b ≡ false → lt b a ≡ false → a ≡ b

pub key_lt-IsStrictOrder : IsStrictOrder key_lt
key_lt-IsStrictOrder = record { irrefl = key_lt_irrefl; trans = key_lt_trans; tri = key_lt_tri }

pub key_gt-IsStrictOrder : IsStrictOrder key_gt
key_gt-IsStrictOrder = record {
  irrefl = λ a. key_gt-key_lt a a ∙ key_lt_irrefl a;
  trans = λ a b c h k.
      ground (arith, key_gt-key_lt a b, key_gt-key_lt b c, key_gt-key_lt a c, key_lt_trans c b a);
  tri = λ a b h k. ground (arith, key_gt-key_lt a b, key_gt-key_lt b a, key_lt_tri a b);
}

abbrev pub is_covered : Bytes → List RangeTombstone → Bool
is_covered key ranges = any (λ r. covers r key) ranges

module _ {S : Type 0} (ahead : S → List Entry) where
  -- The first child that has the key decides, unless a child before it covers the key.
  abbrev pub newest : Bytes → List S → List (List RangeTombstone) → Option Entry
  newest key [] ranges = none
  newest key (child ∷ children) ranges =
      let rest = newest key children (drop 1 ranges) in
      elim (find key (ahead child)) [
        | none ↦ if is_covered key (get_or ranges 0 []) then none else rest
        | some e ↦ some e
      ]

  pub newest-found :
      (key : Bytes) (child : S) (children : List S) (ranges : List (List RangeTombstone))
      (e : Entry)
      → find key (ahead child) ≡ some e
      → newest key (child ∷ children) ranges ≡ some e
  newest-found key child children ranges e f = rw (f, newest) refl

  pub newest-absent :
      (key : Bytes) (child : S) (children : List S) (ranges : List (List RangeTombstone))
      → find key (ahead child) ≡ none
      → newest key (child ∷ children) ranges ≡ (
          if is_covered key (get_or ranges 0 []) then none else newest key children (drop 1 ranges))
  newest-absent key child children ranges f = rw (f, newest) refl

  -- Where no child has the key, there is nothing to show.
  pub newest-none :
      (key : Bytes) (children : List S) (ranges : List (List RangeTombstone))
      → All (λ s. ◌≡◌ {A = Option Entry} (find key (ahead s)) none) children
      → newest key children ranges ≡ none
  newest-none key [] ranges h = refl
  newest-none key (child ∷ children) ranges (hc, h) =
      newest-absent key child children ranges hc
      ∙ ground (arith, newest-none key children (drop 1 ranges) h)

  -- What is ahead in all children, counted.
  abbrev pub total : List S → ℕ
  total [] = 0
  total (child ∷ children) = length (ahead child) + total children

abbrev pub AllAfter : (Bytes → Bytes → Bool) → Bytes → List Entry → Type 0
AllAfter lt key es = All (λ f. ◌≡◌ {A = Bool} (lt key f.key) true) es

module _ (lt : Bytes → Bytes → Bool) (order : IsStrictOrder lt) where
  pub find-AllAfter : (key : Bytes) (es : List Entry) → AllAfter lt key es → find key es ≡ none
  find-AllAfter key [] h = refl
  find-AllAfter key (e ∷ es) (he, h) =
      let irrefl = order.irrefl in
      ground
        (arith, find-AllAfter key es h, (key_eq_iff e.key key).0, irrefl key, ap (λ t. lt key t))

  pub AllAfter_trans :
      (a b : Bytes) (es : List Entry) → lt a b ≡ true → AllAfter lt b es → AllAfter lt a es
  AllAfter_trans a b [] h k = tt
  AllAfter_trans a b (e ∷ es) h (ke, k) = (order.trans a b e.key h ke, AllAfter_trans a b es h k)
