-- ===== src/Cache/ShardedLru/Balance.antt =====
-- src/cache/sharded_lru.cpp: what all shards hold together, and what the budget counts of it.
use elysiumkv.Base.{
  ℕ, zero, suc, ◌+◌, ◌%◌, ◌<◌, ◌^◌, ◌≡◌, refl, sym, ap, ◌∙◌, Bool, true, false, List, [], ◌∷◌, inl,
  inr, Option, none, some, ltb, if◌then◌else◌, length, All, get_or, set, arith, Bool-cases, subst,
}
use mathlib.Core.Option.{some-injective}
use elysiumkv.Cache.Budget.{MemoryBudget, add_size, sub_size, release, try_acquire_over}
use elysiumkv.Cache.ShardedLru.{
  Key, Entry, Shard, empty_shard, same_key, find, erase, to_front, charge_budget, release_budget,
}
use elysiumkv.Cache.ShardedLru.Counted.{charges}

abbrev pub held : List Shard → ℕ
held [] = 0
held (s ∷ shards) = s.bytes + held shards

pub held-set :
    (shards : List Shard) (i : ℕ) (t : Shard)
    → i < length shards
    → held (set shards i t) + (get_or shards i empty_shard).bytes ≡ held shards + t.bytes
held-set [] i t h = absurd (omega (arith, h))
held-set (s ∷ shards) zero t h = omega arith
held-set (s ∷ shards) (suc i) t h = omega (arith, held-set shards i t (omega (arith, h)))

module _ {A : Type 0} (P : A → Type 0) where
  pub All-set : (xs : List A) (i : ℕ) (x : A) → P x → All P xs → All P (set xs i x)
  All-set [] i x p h = h
  All-set (y ∷ xs) zero x p (hy, h) = (p, h)
  All-set (y ∷ xs) (suc i) x p (hy, h) = (hy, All-set xs i x p h)

  pub All-get_or : (xs : List A) (i : ℕ) (d : A) → P d → All P xs → P (get_or xs i d)
  All-get_or [] i d p h = p
  All-get_or (y ∷ xs) zero d p (hy, h) = hy
  All-get_or (y ∷ xs) (suc i) d p (hy, h) = All-get_or xs i d p h

pub length-set : {A : Type 0} (xs : List A) (i : ℕ) (x : A) → length (set xs i x) ≡ length xs
length-set [] i x = refl
length-set (y ∷ xs) zero x = refl
length-set (y ∷ xs) (suc i) x = ap suc (length-set xs i x)

pub get_or-set :
    {A : Type 0} (xs : List A) (i : ℕ) (x d : A) → i < length xs → get_or (set xs i x) i d ≡ x
get_or-set [] i x d h = absurd (omega (arith, h))
get_or-set (y ∷ xs) zero x d h = refl
get_or-set (y ∷ xs) (suc i) x d h = get_or-set xs i x d (omega (arith, h))

same_fields :
    (f g o p : ℕ)
    → f ≡ g
    → o ≡ p
    → ◌≡◌ {A = Key}
        (record { file_number = f; block_offset = o })
        (record { file_number = g; block_offset = p })
same_fields f g o p e h = rw (e, h) refl

pub same_key_eq : (a b : Key) → same_key a b ≡ true → a ≡ b
unfolding same_key
same_key_eq a b h =
    same_fields a.file_number b.file_number a.block_offset b.block_offset (ground arith)
      (ground arith)

pub same_key_refl : (a : Key) → same_key a a ≡ true
unfolding same_key
same_key_refl a = ground arith

-- The entry that a lookup finds has the key, and erasing the key takes its charge away.
pub find-erase :
    (key : Key) (es : List Entry) (e : Entry)
    → find key es ≡ some e
    → (e.key ≡ key) × (charges es ≡ e.charge + charges (erase key es))
unfolding find erase
find-erase key [] e h = absurd (ground arith)
find-erase key (x ∷ es) e h = at (same_key x.key key) refl h (find-erase key es e)
  where
    at :
        (b : Bool)
        → same_key x.key key ≡ b
        → (if b then some x else find key es) ≡ some e
        → (find key es ≡ some e → (e.key ≡ key) × (charges es ≡ e.charge + charges (erase key es)))
        → (e.key ≡ key)
          × (x.charge + charges es ≡ e.charge + charges (if b then es else x ∷ erase key es))
    at true q h ih =
        let same : x ≡ e = some-injective x e h in
        (ap (λ t. t.key) (sym same) ∙ same_key_eq x.key key q, ap (λ t. t.charge + charges es) same)
    at false q h ih = let (k, sum) = ih h in (k, omega (arith, sum))

-- Moving what was found to the front keeps the charges.
pub charges-to_front :
    (key : Key) (es : List Entry) (e : Entry)
    → find key es ≡ some e
    → charges (to_front e es) ≡ charges es
unfolding to_front
charges-to_front key es e h =
    let (k, sum) = find-erase key es e h in
    subst (λ q. charges (e ∷ erase q es) ≡ charges es) (sym k) (sym sum)

-- What the budget counts, next to the cache: `outside` is what it counted of others.
abbrev pub IsBalanced : ℕ → ℕ → Option MemoryBudget → Type 0
IsBalanced outside holds none = Unit {0}
IsBalanced outside holds (some b) = b.used ≡ (outside + holds) % 2 ^ 64

pub release_budget-IsBalanced :
    (outside before after released : ℕ) (budget : Option MemoryBudget)
    → after + released ≡ before
    → released < 2 ^ 64
    → IsBalanced outside before budget
    → IsBalanced outside after (release_budget released budget)
unfolding release_budget release sub_size
release_budget-IsBalanced outside before after released none e f h = tt
release_budget-IsBalanced outside before after released (some b) e f h =
    elim (Bool-cases (ltb 0 released)) [
      | inl p ↦ rw p (omega (arith, h, e, f))
      | inr n ↦
          let none_released : released ≡ 0 = ground arith in
          rw n (omega (arith, h, e, none_released))
    ]

pub charge_budget-IsBalanced :
    (outside before after acquire released : ℕ) (budget : Option MemoryBudget)
    → after + released ≡ before + acquire
    → released < 2 ^ 64
    → IsBalanced outside before budget
    → IsBalanced outside after (charge_budget acquire released budget)
unfolding charge_budget try_acquire_over release sub_size add_size
charge_budget-IsBalanced outside before after acquire released none e f h = tt
charge_budget-IsBalanced outside before after acquire released (some b) e f h =
    elim (Bool-cases (ltb 0 released)) [
      | inl p ↦ rw p (omega (arith, h, e, f))
      | inr n ↦
          let none_released : released ≡ 0 = ground arith in
          rw n (omega (arith, h, e, none_released))
    ]
