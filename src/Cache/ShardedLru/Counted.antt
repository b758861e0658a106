-- ===== src/Cache/ShardedLru/Counted.antt =====
-- src/cache/sharded_lru.cpp: a shard's byte count is the sum of its entries' charges, and popping
-- keeps it so.
use elysiumkv.Base.{
  ℕ, zero, suc, ◌+◌, ◌<◌, ◌≤◌, ◌^◌, ◌≡◌, refl, sym, ap, ◌∙◌, true, false, List, [], ◌∷◌, ◌++◌, ◌⊎◌,
  inl, inr, none, some, ltb, length, length-append, arith, append-nil, append_assoc, Bool-cases,
  subst, ltb→lt,
}
use elysiumkv.Cache.Budget.{add_size, sub_size, add_size-fits, sub_size-fits}
use elysiumkv.Cache.ShardedLru.{Entry, Shard, pop_back, pop_victim, evict_turns, evict_locked}

abbrev pub charges : List Entry → ℕ
charges [] = 0
charges (e ∷ es) = e.charge + charges es

pub charges-append : (es fs : List Entry) → charges (es ++ fs) ≡ charges es + charges fs
charges-append [] fs = omega arith
charges-append (e ∷ es) fs = omega (arith, charges-append es fs)

-- The count is exact, and fits a `size_t`.
pub record IsCounted (s : Shard) : Type 0 where
  pub counted : s.bytes ≡ charges s.lru
  pub fits : s.bytes < 2 ^ 64

pop_back_cases :
    (es : List Entry)
    → ((pop_back es ≡ none) × (es ≡ []))
      ⊎ ((rest : List Entry) × (back : Entry) × (pop_back es ≡ some (rest, back))
          × (es ≡ rest ++ back ∷ []))
unfolding pop_back
pop_back_cases [] = inl (refl, refl)
pop_back_cases (e ∷ es) = elim (pop_back_cases es) [
  | inl (h, k) ↦ inr ([], e, rw h refl, rw k refl)
  | inr (rest, back, h, k) ↦ inr (e ∷ rest, back, rw h refl, ap (λ t. e ∷ t) k)
]

-- A shard, and what is left of it once the entries behind were evicted.
pub record IsFront (s t : Shard) (gone : List Entry) : Type 0 where
  pub split : s.lru ≡ t.lru ++ gone
  pub freed : t.bytes + charges gone ≡ s.bytes
  pub kept : IsCounted t

pub pop_victim_cases :
    (s : Shard)
    → IsCounted s
    → ((pop_victim s ≡ none) × (s.lru ≡ []))
      ⊎ ((t : Shard) × (e : Entry) × (pop_victim s ≡ some (t, e.charge)) × IsFront s t (e ∷ []))
unfolding pop_victim
pop_victim_cases s c = elim (pop_back_cases s.lru) [
  | inl (h, k) ↦ inl (rw (h, pop_victim) refl, k)
  | inr (rest, back, h, k) ↦
      let sum : s.bytes ≡ charges rest + back.charge =
        c.counted ∙ ap charges k ∙ omega (arith, charges-append rest (back ∷ [])) in
      let left : sub_size s.bytes back.charge ≡ charges rest =
        sub_size-fits s.bytes back.charge (omega (arith, sum)) c.fits ∙ omega (arith, sum) in
      inr (
        record { lru = rest; bytes = sub_size s.bytes back.charge },
        back,
        rw (h, pop_victim) refl,
        record {
          split = k;
          freed = omega (arith, left, sum);
          kept = record { counted = left; fits = omega (arith, left, sum, c.fits) };
        },
      )
]

-- What a shard gives up to come to its capacity.
pub record IsEvicted (capacity : ℕ) (s t : Shard) (released : ℕ) : Type 0 where
  pub gone : List Entry
  pub front : IsFront s t gone
  pub given_up : released ≡ charges gone
  pub within : t.bytes ≤ capacity
  -- The last one given up was over the capacity.
  pub needed : (e : Entry) (more : List Entry) → gone ≡ e ∷ more → capacity < t.bytes + e.charge

evict_turns-suc :
    (n capacity : ℕ) (s : Shard) (released : ℕ) (t : Shard) (charge : ℕ)
    → ltb capacity s.bytes ≡ true
    → pop_victim s ≡ some (t, charge)
    → evict_turns (suc n) capacity s released ≡ evict_turns n capacity t (add_size released charge)
unfolding evict_turns
evict_turns-suc n capacity s released t charge h k = rw (h, k, evict_turns) refl

evict_turns-end :
    (n capacity : ℕ) (s : Shard) (released : ℕ)
    → ltb capacity s.bytes ≡ false
    → evict_turns n capacity s released ≡ (s, released)
unfolding evict_turns
evict_turns-end zero capacity s released h = refl
evict_turns-end (suc n) capacity s released h = rw h refl

stays-IsFront : (s : Shard) → IsCounted s → IsFront s s []
stays-IsFront s c = record { split = sym (append-nil s.lru); freed = omega arith; kept = c }

further :
    (s t u : Shard) (e : Entry) (gone : List Entry)
    → IsFront s t (e ∷ [])
    → IsFront t u gone
    → IsFront s u (gone ++ e ∷ [])
further s t u e gone f g = record {
  split = f.split ∙ ap (λ l. l ++ e ∷ []) g.split ∙ append_assoc u.lru gone (e ∷ []);
  freed = omega (arith, f.freed, g.freed, charges-append gone (e ∷ []));
  kept = g.kept;
}

-- Within the capacity already.
evict_none :
    (n capacity : ℕ) (s : Shard) (released : ℕ)
    → IsCounted s
    → ltb capacity s.bytes ≡ false
    → (t : Shard) × (freed : ℕ) × (evict_turns n capacity s released ≡ (t, released + freed))
      × IsEvicted capacity s t freed
evict_none n capacity s released c h = (
  s,
  0,
  evict_turns-end n capacity s released h ∙ ap (λ r. (s, r)) (omega arith),
  record {
    gone = [];
    front = stays-IsFront s c;
    given_up = refl;
    within = ground arith;
    needed = λ e more nil. absurd (ground arith);
  },
)

-- Over the capacity there is a victim.
victim :
    (capacity : ℕ) (s : Shard)
    → IsCounted s
    → ltb capacity s.bytes ≡ true
    → (t : Shard) × (e : Entry) × (pop_victim s ≡ some (t, e.charge)) × IsFront s t (e ∷ [])
victim capacity s c h = elim (pop_victim_cases s c) [
  | inr v ↦ v
  | inl (none_left, nil) ↦
      let zero_bytes : s.bytes ≡ 0 = c.counted ∙ ap charges nil in
      absurd (ground (arith, zero_bytes, h))
]

first_or : Entry → List Entry → Entry
first_or d [] = d
first_or d (e ∷ es) = e

pub first_of : (a b : Entry) (xs ys : List Entry) → a ∷ xs ≡ b ∷ ys → a ≡ b
unfolding first_or
first_of a b xs ys h = ap (first_or a) h

last_needed :
    (capacity : ℕ) (u : Shard) (e : Entry) (gone : List Entry)
    → ((f : Entry) (more : List Entry) → gone ≡ f ∷ more → capacity < u.bytes + f.charge)
    → (gone ≡ [] → capacity < u.bytes + e.charge)
    → (f : Entry) (more : List Entry) → gone ++ e ∷ [] ≡ f ∷ more
    → capacity < u.bytes + f.charge
last_needed capacity u e [] n a f more h =
    subst (λ x. capacity < u.bytes + x.charge) (first_of e f [] more h) (a refl)
last_needed capacity u e (g ∷ gone) n a f more h =
    subst (λ x. capacity < u.bytes + x.charge) (first_of g f (gone ++ e ∷ []) more h)
      (n g gone refl)

last_alone :
    {capacity : ℕ} {s t u : Shard} {e : Entry} {gone : List Entry}
    → IsFront s t (e ∷ [])
    → IsFront t u gone
    → ltb capacity s.bytes ≡ true
    → gone ≡ []
    → capacity < u.bytes + e.charge
last_alone f g h nil = omega (arith, f.freed, g.freed, ap charges nil, ltb→lt _ _ h)

-- A turn for every entry is enough to come within the capacity.
pub evict_turns-IsEvicted :
    (n capacity : ℕ) (s : Shard) (released : ℕ)
    → IsCounted s
    → length s.lru ≤ n
    → s.bytes + released < 2 ^ 64
    → (t : Shard) × (freed : ℕ) × (evict_turns n capacity s released ≡ (t, released + freed))
      × IsEvicted capacity s t freed
evict_turns-IsEvicted zero capacity s released c l fits = elim (Bool-cases (ltb capacity s.bytes)) [
  | inr h ↦ evict_none zero capacity s released c h
  | inl h ↦
      let (t, e, popped, front) = victim capacity s c h in
      absurd (omega (arith, l, ap length front.split, length-append t.lru (e ∷ [])))
]
evict_turns-IsEvicted (suc n) capacity s released c l fits =
    elim (Bool-cases (ltb capacity s.bytes)) [
      | inr h ↦ evict_none (suc n) capacity s released c h
      | inl h ↦
          let (t, e, popped, front) = victim capacity s c h in
          let sum : released + e.charge < 2 ^ 64 = omega (arith, front.freed, fits) in
          let (u, freed, runs, rest) =
            evict_turns-IsEvicted n capacity t (released + e.charge) front.kept
              (omega (arith, l, ap length front.split, length-append t.lru (e ∷ [])))
              (omega (arith, front.freed, fits)) in
          (
            u,
            e.charge + freed,
            evict_turns-suc n capacity s released t e.charge h popped
                ∙ ap (λ r. evict_turns n capacity t r) (add_size-fits released e.charge sum)
                ∙ runs
                ∙ ap (λ r. (u, r)) (omega arith),
            record {
              gone = rest.gone ++ e ∷ [];
              front = further s t u e rest.gone front rest.front;
              given_up = omega (arith, rest.given_up, charges-append rest.gone (e ∷ []));
              within = rest.within;
              needed =
                  last_needed capacity u e rest.gone rest.needed (last_alone front rest.front h);
            },
          )
    ]

pub evict_locked-IsEvicted :
    (s : Shard) (capacity : ℕ)
    → IsCounted s
    → (t : Shard) × (freed : ℕ) × (evict_locked s capacity ≡ (t, freed))
      × IsEvicted capacity s t freed
unfolding evict_locked
evict_locked-IsEvicted s capacity c =
    let (t, freed, runs, e) =
      evict_turns-IsEvicted (length s.lru) capacity s 0 c (omega arith) (omega (arith, c.fits)) in
    (t, freed, runs ∙ ap (λ r. (t, r)) (omega arith), e)
