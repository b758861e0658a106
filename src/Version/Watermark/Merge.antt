-- ===== src/Version/Watermark/Merge.antt =====
-- What merging intervals certifies does not depend on the order of the merges.
use elysiumkv.Base.{ℕ, ◌≤◌, ◌≡◌, refl, ap, List, [], ◌∷◌, Option, none, some, All, arith}
use elysiumkv.Version.Watermark.{WatermarkInterval, merge_low, merge_high, merge}

-- A bound that holds of a position: an absent one promises nothing.
abbrev AtMost : Option ℕ → Option ℕ → Type 0
AtMost none other = Unit {0}
AtMost (some l) none = ⊥
AtMost (some l) (some k) = l ≤ k

abbrev AtLeast : Option ℕ → Option ℕ → Type 0
AtLeast high none = Unit {0}
AtLeast none (some k) = ⊥
AtLeast (some h) (some k) = k ≤ h

unfoldable pub merge_all : WatermarkInterval → List WatermarkInterval → WatermarkInterval
merge_all w [] = w
merge_all w (x ∷ xs) = merge_all (merge w x) xs

merge_low_bounds : (a b : Option ℕ) → AtMost (merge_low a b) a × AtMost (merge_low a b) b
unfolding merge_low
merge_low_bounds none none = (tt, tt)
merge_low_bounds none (some b) = (tt, tt)
merge_low_bounds (some a) none = (tt, tt)
merge_low_bounds (some a) (some b) = (omega arith, omega arith)

merge_high_bounds : (a b : Option ℕ) → AtLeast (merge_high a b) a × AtLeast (merge_high a b) b
unfolding merge_high
merge_high_bounds none none = (tt, tt)
merge_high_bounds none (some b) = (tt, omega arith)
merge_high_bounds (some a) none = (omega arith, tt)
merge_high_bounds (some a) (some b) = (omega arith, omega arith)

AtMost_trans : (a b c : Option ℕ) → AtMost a b → AtMost b c → AtMost a c
AtMost_trans none b c p q = tt
AtMost_trans (some a) none c p q = absurd p
AtMost_trans (some a) (some b) none p q = q
AtMost_trans (some a) (some b) (some c) p q = omega arith

AtLeast_trans : (a b c : Option ℕ) → AtLeast a b → AtLeast b c → AtLeast a c
AtLeast_trans a b none p q = tt
AtLeast_trans a none (some c) p q = absurd q
AtLeast_trans none (some b) (some c) p q = absurd p
AtLeast_trans (some a) (some b) (some c) p q = omega arith

-- An interval that promises no more than another: its lower bound, if any, is at or below the
-- other's, which then exists, and its upper bound is at or above the other's, if there is one.
pub record Contains (w x : WatermarkInterval) : Type 0 where
  pub low : AtMost w.low x.low
  pub high : AtLeast w.high x.high

Contains-trans : (a b c : WatermarkInterval) → Contains a b → Contains b c → Contains a c
Contains-trans a b c p q = record {
  low = AtMost_trans a.low b.low c.low p.low q.low;
  high = AtLeast_trans a.high b.high c.high p.high q.high;
}

merge-Contains : (a b : WatermarkInterval) → Contains (merge a b) a × Contains (merge a b) b
unfolding merge
merge-Contains a b =
    let (l, m) = merge_low_bounds a.low b.low in
    let (h, k) = merge_high_bounds a.high b.high in
    (record { low = l; high = h }, record { low = m; high = k })

-- The watermark of a merged file promises no more than any of the files merged into it, however
-- many there are.
pub merge_all-Contains :
    (w : WatermarkInterval) (xs : List WatermarkInterval)
    → Contains (merge_all w xs) w × All (Contains (merge_all w xs)) xs
unfolding merge_all
merge_all-Contains w [] = (whole w, tt)
  where
    at_most : (o : Option ℕ) → AtMost o o
    at_most none = tt
    at_most (some v) = omega arith

    at_least : (o : Option ℕ) → AtLeast o o
    at_least none = tt
    at_least (some v) = omega arith

    whole : (v : WatermarkInterval) → Contains v v
    whole v = record { low = at_most v.low; high = at_least v.high }
merge_all-Contains w (x ∷ xs) =
    let (h, k) = merge_all-Contains (merge w x) xs in
    let (p, q) = merge-Contains w x in
    (
      Contains-trans (merge_all (merge w x) xs) (merge w x) w h p,
      (Contains-trans (merge_all (merge w x) xs) (merge w x) x h q, k),
    )

merge_low_comm : (a b : Option ℕ) → merge_low a b ≡ merge_low b a
unfolding merge_low
merge_low_comm none none = refl
merge_low_comm none (some b) = refl
merge_low_comm (some a) none = refl
merge_low_comm (some a) (some b) = ap some (omega arith)

merge_high_comm : (a b : Option ℕ) → merge_high a b ≡ merge_high b a
unfolding merge_high
merge_high_comm none none = refl
merge_high_comm none (some b) = refl
merge_high_comm (some a) none = refl
merge_high_comm (some a) (some b) = ap some (omega arith)
