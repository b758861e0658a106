-- ===== src/Db/LevelConfig/Nearest.antt =====
-- src/db/level_config.cpp: every level has the options of the nearest configured level above it.
use elysiumkv.Base.{
  ℕ, zero, suc, ◌+◌, ◌<◌, ◌≤◌, ◌≡◌, refl, sym, ap, ◌∙◌, Bool, true, false, List, ◌∷◌, Option, none,
  some, get_elem?, length, arith, subst, if◌then◌else◌,
}
use elysiumkv.Status.{Status, Result, value, unexpected, ◌>>=◌}
use elysiumkv.Db.LevelConfig.{
  ℤ, pos, negsuc, LevelOptions, LevelMap, ResolvedLevel, find, or_inherited, resolved_level,
  push_level, resolve_from, resolve_to, resolve_levels, last_key, has_capacity,
}

-- The options of the level itself, or else of the nearest level before it that has some.
abbrev pub nearest : LevelMap → ℕ → Option LevelOptions
nearest levels zero = find 0 levels
nearest levels (suc i) = or_inherited (find (suc i) levels) (nearest levels i)

value_or {ℓ} : {A : Type ℓ} → A → Result A → A
value_or d (value a) = a
value_or d (unexpected s) = d

value-injective : {A : Type 0} (a b : A) → ◌≡◌ {A = Result A} (value a) (value b) → a ≡ b
unfolding value_or
value-injective a b e = ap (value_or a) e

pushed :
    (level : ℕ) (o : Option LevelOptions) (r : Result (List ResolvedLevel))
    (out : List ResolvedLevel)
    → push_level level o r ≡ value out
    → (options : LevelOptions) × (more : List ResolvedLevel) × (o ≡ some options)
      × (r ≡ value more)
      × (out ≡ resolved_level level options ∷ more)
unfolding push_level
pushed level none r out e = absurd (ground (arith, e))
pushed level (some options) (unexpected s) out e = absurd (ground (arith, e))
pushed level (some options) (value more) out e =
    (options, more, refl, refl, sym (value-injective _ _ e))

resolve_step :
    (levels : LevelMap) (n level : ℕ) (inherited : Option LevelOptions)
    → resolve_from levels (suc n) level inherited
      ≡ push_level level
          (or_inherited (find level levels) inherited)
          (resolve_from levels n (suc level) (or_inherited (find level levels) inherited))
unfolding resolve_from
resolve_step levels n level inherited = refl

-- The levels that the loop gives, from a level on.
record AreResolved (levels : LevelMap) (n level : ℕ) (out : List ResolvedLevel) : Type 0 where
  count : length out ≡ n
  each :
      (i : ℕ)
      → i < n
      → (options : LevelOptions) × (nearest levels (level + i) ≡ some options)
        × (get_elem? out i ≡ some (resolved_level (level + i) options))

-- What is inherited at a level: nothing at level 0, and else what is nearest to the level before.
abbrev Inherited : LevelMap → ℕ → Option LevelOptions → Type 0
Inherited levels zero inherited = inherited ≡ none
Inherited levels (suc level) inherited = nearest levels level ≡ inherited

nearest-Inherited :
    (levels : LevelMap) (level : ℕ) (inherited : Option LevelOptions)
    → Inherited levels level inherited
    → nearest levels level ≡ or_inherited (find level levels) inherited
nearest-Inherited levels zero inherited h = rw h (none_more (find 0 levels))
  where
    none_more : (o : Option LevelOptions) → o ≡ or_inherited o none
    none_more none = unfold or_inherited in refl
    none_more (some options) = unfold or_inherited in refl
nearest-Inherited levels (suc level) inherited h = ap (or_inherited (find (suc level) levels)) h

resolve_from-AreResolved :
    (levels : LevelMap) (n level : ℕ) (inherited : Option LevelOptions) (out : List ResolvedLevel)
    → Inherited levels level inherited
    → resolve_from levels n level inherited ≡ value out
    → AreResolved levels n level out
resolve_from-AreResolved levels zero level inherited out h e = record {
  count = unfold resolve_from in ap length (sym (value-injective _ _ e));
  each = λ i l. absurd (omega (arith, l));
}
resolve_from-AreResolved levels (suc n) level inherited out h e =
    let found = or_inherited (find level levels) inherited in
    let near : nearest levels level ≡ found = nearest-Inherited levels level inherited h in
    let (options, more, is, rest, o) =
      pushed level found (resolve_from levels n (suc level) found) out
        (sym (resolve_step levels n level inherited) ∙ e) in
    let ih = resolve_from-AreResolved levels n (suc level) found more near rest in
    record {
      count = ap length o ∙ ap suc ih.count;
      each = λ i l. at options more (near ∙ is) o ih i l;
    }
  where
    at :
        (options : LevelOptions) (more : List ResolvedLevel)
        → nearest levels level ≡ some options
        → out ≡ resolved_level level options ∷ more
        → AreResolved levels n (suc level) more
        → (i : ℕ) → i < suc n
        → (options : LevelOptions) × (nearest levels (level + i) ≡ some options)
          × (get_elem? out i ≡ some (resolved_level (level + i) options))
    at options more near o ih zero l =
        let same : level ≡ level + 0 = omega arith in
        (
          options,
          ap (nearest levels) (sym same) ∙ near,
          ap (λ t. get_elem? t 0) o ∙ ap (λ k. some (resolved_level k options)) same,
        )
    at options more near o ih (suc i) l =
        let (below, near_below, got) = ih.each i (omega (arith, l)) in
        let same : suc level + i ≡ level + suc i = omega arith in
        (
          below,
          ap (nearest levels) (sym same) ∙ near_below,
          ap (λ t. get_elem? t (suc i)) o ∙ got ∙ ap (λ k. some (resolved_level k below)) same,
        )

-- The resolved levels: as many as the greatest key asks for, each with the options of the nearest
-- level that has some, and the last one without a capacity.
pub record IsResolved (levels : LevelMap) (highest : ℕ) (out : List ResolvedLevel) : Type 0 where
  pub count : length out ≡ suc highest
  pub each :
      (i : ℕ)
      → i ≤ highest
      → (options : LevelOptions) × (nearest levels i ≡ some options)
        × (get_elem? out i ≡ some (resolved_level i options))
  pub no_capacity : has_capacity (get_elem? out highest) ≡ false

accepted :
    (levels : LevelMap) (highest : ℕ) (r : Result (List ResolvedLevel)) (out : List ResolvedLevel)
    → (do
      resolved ← r
      if has_capacity (get_elem? resolved highest)
          then unexpected Status.config
          else value resolved)
      ≡ value out
    → (r ≡ value out) × (has_capacity (get_elem? out highest) ≡ false)
accepted levels highest (unexpected s) out e = absurd (ground (arith, e))
accepted levels highest (value resolved) out e =
    at (has_capacity (get_elem? resolved highest)) refl e
  where
    at :
        (b : Bool)
        → has_capacity (get_elem? resolved highest) ≡ b
        → (if b then unexpected Status.config else value resolved) ≡ value out
        → (value resolved ≡ value out) × (has_capacity (get_elem? out highest) ≡ false)
    at true h e = absurd (ground (arith, e))
    at false h e =
        (e, subst (λ t. has_capacity (get_elem? t highest) ≡ false) (value-injective _ _ e) h)

resolve_to-IsResolved :
    (levels : LevelMap) (key : ℤ) (out : List ResolvedLevel)
    → resolve_to levels key ≡ value out
    → (highest : ℕ) × (key ≡ pos highest) × IsResolved levels highest out
unfolding resolve_to
resolve_to-IsResolved levels (negsuc n) out e = absurd (ground (arith, e))
resolve_to-IsResolved levels (pos highest) out e =
    let (done, free) = accepted levels highest (resolve_from levels (suc highest) 0 none) out e in
    let r = resolve_from-AreResolved levels (suc highest) 0 none out refl done in
    (
      highest,
      refl,
      record {
        count = r.count;
        each = λ i l.
            let (options, near, got) = r.each i (omega (arith, l)) in
            let same : 0 + i ≡ i = omega arith in
            (
              options,
              ap (nearest levels) (sym same) ∙ near,
              got ∙ ap (λ k. some (resolved_level k options)) same,
            );
        no_capacity = free;
      },
    )

-- Where the levels of the options are accepted, the first key and the greatest are not negative, and
-- there is a resolved level for every number up to the greatest key, with the options of the nearest
-- configured level at or above it. So level 0 is configured, and the last level has no capacity.
pub resolve_levels-IsResolved :
    (key : ℤ) (options : LevelOptions) (levels : LevelMap) (out : List ResolvedLevel)
    → resolve_levels ((key, options) ∷ levels) ≡ value out
    → (first : ℕ) × (highest : ℕ) × (key ≡ pos first)
      × (last_key key levels ≡ pos highest)
      × IsResolved ((key, options) ∷ levels) highest out
unfolding resolve_levels
resolve_levels-IsResolved (negsuc n) options levels out e = absurd (ground (arith, e))
resolve_levels-IsResolved (pos n) options levels out e =
    let (highest, last, r) =
      resolve_to-IsResolved ((pos n, options) ∷ levels) (last_key (pos n) levels) out e in
    (n, highest, refl, last, r)
