-- ===== src/Cache/ShardedLru/Rounds.antt =====
-- src/cache/sharded_lru.cpp: shedding goes round the shards until enough is released or nothing is
-- left.
use elysiumkv.Base.{
  ℕ, zero, suc, ◌+◌, ◌<◌, ◌≤◌, ◌^◌, ◌≡◌, refl, ap, ◌∙◌, Bool, true, false, ◌&&◌, List, [], ◌∷◌, ◌⊎◌,
  inl, inr, none, some, ◌==◌, ltb, leb, length, All, arith, Bool-cases, length-append,
}
use elysiumkv.Cache.Budget.{add_size, add_size-fits}
use elysiumkv.Cache.ShardedLru.{Shard, Cache, pop_victim}
use elysiumkv.Cache.ShardedLru.Shed.{round, rounds, entry_count, evict_at_least}
use elysiumkv.Cache.ShardedLru.Counted.{pop_victim_cases}
use elysiumkv.Cache.ShardedLru.Balance.{held, release_budget-IsBalanced}
use elysiumkv.Cache.ShardedLru.Kept.{IsShard, IsCache, held-le}

-- What a round, or several, come to.
record IsShed (capacity : ℕ) (ss : List Shard) (released : ℕ) (ts : List Shard) (r : ℕ)
    : Type 0 where
  all : All (IsShard capacity) ts
  count : length ts ≡ length ss
  moved : held ts + r ≡ held ss + released
  fewer : entry_count ts ≤ entry_count ss

-- A round that releases nothing found enough released already, or every shard empty.
record IsRound (bytes capacity : ℕ) (ss : List Shard) (released : ℕ) (p : Bool)
    (out : List Shard × ℕ × Bool) : Type 0 where
  shed : IsShed capacity ss released out.0 out.1
  progressed : out.2 ≡ true → (p ≡ true) ⊎ (entry_count out.0 < entry_count ss)
  stuck : out.2 ≡ false → (bytes ≤ out.1) ⊎ (entry_count out.0 ≡ 0)
  keeps_flag : p ≡ true → out.2 ≡ true

IsShed-refl :
    (capacity : ℕ) (ss : List Shard) (released : ℕ)
    → All (IsShard capacity) ss
    → IsShed capacity ss released ss released
IsShed-refl capacity ss released a = record {
  all = a;
  count = refl;
  moved = refl;
  fewer = omega arith;
}

-- The clauses of a round.
round_enough :
    (bytes : ℕ) (s : Shard) (shards : List Shard) (released : ℕ) (p : Bool)
    → leb bytes released ≡ true
    → round bytes (s ∷ shards) released p ≡ (s ∷ shards, released, p)
unfolding round
round_enough bytes s shards released p h = rw h refl

round_empty :
    (bytes : ℕ) (s : Shard) (shards : List Shard) (released : ℕ) (p : Bool)
    → leb bytes released ≡ false
    → pop_victim s ≡ none
    → round bytes (s ∷ shards) released p ≡ (
      s ∷ (round bytes shards released p).0,
      (round bytes shards released p).1,
      (round bytes shards released p).2,
    )
unfolding round
round_empty bytes s shards released p h e = rw (h, e, round) refl

round_victim :
    (bytes : ℕ) (s t : Shard) (shards : List Shard) (released charge : ℕ) (p : Bool)
    → leb bytes released ≡ false
    → pop_victim s ≡ some (t, charge)
    → round bytes (s ∷ shards) released p ≡ (
      t ∷ (round bytes shards (add_size released charge) true).0,
      (round bytes shards (add_size released charge) true).1,
      (round bytes shards (add_size released charge) true).2,
    )
unfolding round
round_victim bytes s t shards released charge p h e = rw (h, e, round) refl

round-IsRound :
    (bytes capacity : ℕ) (shards : List Shard) (released : ℕ) (p : Bool)
    → All (IsShard capacity) shards
    → held shards + released < 2 ^ 64
    → IsRound bytes capacity shards released p (round bytes shards released p)
round-IsRound bytes capacity [] released p a f =
    unfold round in
    record {
      shed = IsShed-refl capacity [] released tt;
      progressed = λ q. inl q;
      stuck = λ q. inr refl;
      keeps_flag = λ q. q;
    }
round-IsRound bytes capacity (s ∷ shards) released p (first, a) f =
    elim (Bool-cases (leb bytes released)) [
      | inl h ↦ rw (round_enough bytes s shards released p h) (record {
        shed = IsShed-refl capacity (s ∷ shards) released (first, a);
        progressed = λ q. inl q;
        stuck = λ q. inl (ground (arith, h));
        keeps_flag = λ q. q;
      })
      | inr h ↦ elim (pop_victim_cases s first.counted) [
        | inl (nothing, nil) ↦
            let rest = round-IsRound bytes capacity shards released p a (omega (arith, f)) in
            let shed = rest.shed in
            let empty : length s.lru ≡ 0 = ap length nil in
            rw (round_empty bytes s shards released p h nothing) (record {
              shed = record {
                all = (first, shed.all);
                count = ap suc shed.count;
                moved = omega (arith, shed.moved);
                fewer = omega (arith, shed.fewer);
              };
              progressed =
                  λ q. elim (rest.progressed q) [ inl e ↦ inl e | inr l ↦ inr (omega (arith, l)) ];
              stuck = λ q. elim (rest.stuck q) [
                | inl e ↦ inl e
                | inr n ↦ inr (omega (arith, n, empty))
              ];
              keeps_flag = rest.keeps_flag;
            })
        | inr (t, e, popped, front) ↦
            let counted : add_size released e.charge ≡ released + e.charge =
              add_size-fits released e.charge (omega (arith, f, front.freed)) in
            let rest =
              round-IsRound bytes capacity shards (add_size released e.charge) true a
                (omega (arith, f, front.freed, counted)) in
            let shed = rest.shed in
            let one_less : length s.lru ≡ length t.lru + 1 =
              ap length front.split ∙ length-append t.lru (e ∷ []) in
            rw (round_victim bytes s t shards released e.charge p h popped) (record {
              shed = record {
                all = (
                  record {
                    counted = front.kept;
                    within = omega (arith, front.freed, first.within);
                  },
                  shed.all,
                );
                count = ap suc shed.count;
                moved = omega (arith, shed.moved, counted, front.freed);
                fewer = omega (arith, shed.fewer, one_less);
              };
              progressed = λ q. inr (omega (arith, shed.fewer, one_less));
              stuck = λ q. absurd (ground (arith, q, rest.keeps_flag refl));
              keeps_flag = λ q. rest.keeps_flag refl;
            })
      ]
    ]

rounds_done :
    (n bytes : ℕ) (shards : List Shard) (released : ℕ) (p : Bool)
    → (ltb released bytes && p) ≡ false
    → rounds n bytes shards released p ≡ (shards, released)
unfolding rounds
rounds_done zero bytes shards released p h = refl
rounds_done (suc n) bytes shards released p h = rw h refl

rounds_again :
    (n bytes : ℕ) (shards : List Shard) (released : ℕ) (p : Bool)
    → (ltb released bytes && p) ≡ true
    → rounds (suc n) bytes shards released p
      ≡ rounds n bytes
          (round bytes shards released false).0
          (round bytes shards released false).1
          (round bytes shards released false).2
unfolding rounds
rounds_again n bytes shards released p h = rw h refl

IsShed-trans :
    (capacity : ℕ) (ss ts us : List Shard) (a b c : ℕ)
    → IsShed capacity ss a ts b
    → IsShed capacity ts b us c
    → IsShed capacity ss a us c
IsShed-trans capacity ss ts us a b c f g = record {
  all = g.all;
  count = g.count ∙ f.count;
  moved = g.moved ∙ f.moved;
  fewer = omega (arith, f.fewer, g.fewer);
}

-- A turn for every entry, and one more, are enough.
record IsEnough (bytes : ℕ) (out : List Shard × ℕ) : Type 0 where
  enough : (bytes ≤ out.1) ⊎ (entry_count out.0 ≡ 0)

rounds-IsShed :
    (n bytes capacity : ℕ) (shards : List Shard) (released : ℕ) (p : Bool)
    → All (IsShard capacity) shards
    → held shards + released < 2 ^ 64
    → IsShed capacity shards released
        (rounds n bytes shards released p).0
        (rounds n bytes shards released p).1
      × (((p ≡ false) → (bytes ≤ released) ⊎ (entry_count shards ≡ 0))
          → ((p ≡ true) → entry_count shards < n)
          → IsEnough bytes (rounds n bytes shards released p))
rounds-IsShed zero bytes capacity shards released p a f =
    unfold rounds in
    (
      IsShed-refl capacity shards released a,
      λ idle more. record {
        enough = elim (Bool-cases p) [ inl t ↦ absurd (omega (arith, more t)) | inr n ↦ idle n ];
      },
    )
rounds-IsShed (suc n) bytes capacity shards released p a f =
    elim (Bool-cases (ltb released bytes && p)) [
      | inr h ↦ rw (rounds_done (suc n) bytes shards released p h) (
        IsShed-refl capacity shards released a,
        λ idle more. record {
          enough = elim (Bool-cases p) [ inl t ↦ inl (ground (arith, h, t)) | inr n ↦ idle n ];
        },
      )
      | inl h ↦
          let turn = round-IsRound bytes capacity shards released false a f in
          let shed = turn.shed in
          let (rest, ends) =
            rounds-IsShed n bytes capacity (round bytes shards released false).0
              (round bytes shards released false).1 (round bytes shards released false).2 shed.all
              (omega (arith, shed.moved, f)) in
          rw (rounds_again n bytes shards released p h) (
            IsShed-trans capacity shards (round bytes shards released false).0 _ released
                (round bytes shards released false).1 _ shed rest,
            λ idle more. ends turn.stuck (λ again. elim (turn.progressed again) [
              | inl e ↦ absurd (ground arith)
              | inr l ↦ omega (arith, l, more (ground (arith, h)))
            ]),
          )
    ]

-- What shedding comes to: what was asked for is released or nothing is left, and what is released
-- is what the shards held.
pub record IsShedCache (outside bytes : ℕ) (c : Cache) (released : ℕ) (after : Cache) : Type 0 where
  pub kept : IsCache outside after
  pub exact : held after.shards + released ≡ held c.shards
  pub enough : (bytes ≤ released) ⊎ (entry_count after.shards ≡ 0)

-- Shedding ends, having released at least what was asked for or with no entry left in the cache. What it
-- reports is exactly what the shards held less, the byte counts stay exact, and the budget is given
-- back as much.
pub evict_at_least-IsShedCache :
    (outside bytes : ℕ) (c : Cache)
    → IsCache outside c
    → IsShedCache outside bytes c (evict_at_least bytes c).0 (evict_at_least bytes c).1
unfolding evict_at_least
evict_at_least-IsShedCache outside bytes c i =
    let bound = held-le c.shard_capacity c.shards i.all i.small in
    let n : ℕ = suc (entry_count c.shards) in
    let (shed, ends) =
      rounds-IsShed n bytes c.shard_capacity c.shards 0 true i.all
        (omega (arith, bound, i.count)) in
    let done = ends (λ e. absurd (ground arith)) (λ t. omega arith) in
    elim (Bool-cases (bytes == 0)) [
      | inl z ↦ rw z (record { kept = i; exact = omega arith; enough = inl (ground (arith, z)) })
      | inr nz ↦ rw nz (record {
        kept = record {
          count = shed.count ∙ i.count;
          small = i.small;
          all = shed.all;
          balanced =
              release_budget-IsBalanced outside (held c.shards)
                (held (rounds n bytes c.shards 0 true).0) (rounds n bytes c.shards 0 true).1
                c.budget (omega (arith, shed.moved)) (omega (arith, shed.moved, bound, i.count))
                i.balanced;
        };
        exact = omega (arith, shed.moved);
        enough = done.enough;
      })
    ]
