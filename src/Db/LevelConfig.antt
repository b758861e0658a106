-- ===== src/Db/LevelConfig.antt =====
-- src/db/level_config.hpp and level_config.cpp: the levels of the options, with the gaps between them
-- filled.
pub mod Nearest
use elysiumkv.Base.{
  ℕ, zero, suc, ◌+◌, ◌-◌, ◌*◌, ◌%◌, ◌^◌, Bool, true, false, ◌||◌, List, [], ◌∷◌, Option, none, some,
  ◌==◌, if◌then◌else◌, get_elem?, length,
}
use elysiumkv.Status.{Status, Result, value, unexpected, ◌>>=◌}
use elysiumkv.Sst.Codec.{Compression}

pub data ℤ : Type 0 where
  pos negsuc : ℕ → ℤ

-- The counts of files are only copied here, and are taken as numbers.
pub record LevelOptions : Type 0 where
  pub compression : Compression
  pub max_bytes : Option ℕ
  pub max_files : Option ℕ
  pub slowdown_at : Option ℕ
  pub stop_at : Option ℕ
  pub target_file_bytes : ℕ

abbrev pub default_options : LevelOptions
default_options = record {
  compression = Compression.none;
  max_bytes = none;
  max_files = none;
  slowdown_at = none;
  stop_at = none;
  target_file_bytes = 16777216;
}

-- A `std::map<int, LevelOptions>`, in the ascending order of its keys.
abbrev pub LevelMap : Type 0
LevelMap = List (ℤ × LevelOptions)

pub record ResolvedLevel : Type 0 where
  pub level : ℕ
  pub compression : Compression
  pub max_bytes : Option ℕ
  pub max_files : Option ℕ
  pub slowdown_at : Option ℕ
  pub stop_at : Option ℕ
  pub target_file_bytes : ℕ

-- The loop of `geometric`, with `n` levels to go. The `int` multiplier is converted to a `size_t`.
unfoldable pub geometric_from : ℕ → ℕ → ℕ → ℕ → ℕ → LevelMap
geometric_from multiplier count zero level capacity = []
geometric_from multiplier count (suc n) level capacity =
    let last = geometric_from multiplier count n (suc level) capacity in
    let more = geometric_from multiplier count n (suc level) (capacity * multiplier % 2 ^ 64) in
    if level == count - 1
    then (pos level, default_options) ∷ last
    else (pos level, record default_options { max_bytes = some capacity }) ∷ more

unfoldable pub geometric : ℕ → ℕ → ℕ → LevelMap
unfolding geometric_from
geometric base multiplier count =
    (pos 0, record default_options { max_files = some 4; slowdown_at = some 8; stop_at = some 12 })
    ∷ geometric_from multiplier count (count - 1) 1 base

unfoldable pub same_level : ℕ → ℤ → Bool
same_level level (pos n) = n == level
same_level level (negsuc n) = false

-- `levels.find`.
unfoldable pub find : ℕ → LevelMap → Option LevelOptions
unfolding same_level
find level [] = none
find level ((key, options) ∷ levels) =
    let rest = find level levels in if same_level level key then some options else rest

abbrev pub resolved_level : ℕ → LevelOptions → ResolvedLevel
resolved_level level options = record {
  level = level;
  compression = options.compression;
  max_bytes = options.max_bytes;
  max_files = options.max_files;
  slowdown_at = options.slowdown_at;
  stop_at = options.stop_at;
  target_file_bytes = options.target_file_bytes;
}

unfoldable pub or_inherited : Option LevelOptions → Option LevelOptions → Option LevelOptions
or_inherited (some options) inherited = some options
or_inherited none inherited = inherited

-- One level, before the rest: no level so far is a gap before level 0.
unfoldable pub push_level :
    ℕ → Option LevelOptions → Result (List ResolvedLevel) → Result (List ResolvedLevel)
push_level level none rest = unexpected Status.config
push_level level (some options) rest = do more ← rest; value (resolved_level level options ∷ more)

-- The loop over the levels, with `n` to go.
unfoldable pub resolve_from : LevelMap → ℕ → ℕ → Option LevelOptions → Result (List ResolvedLevel)
unfolding find or_inherited push_level
resolve_from levels zero level inherited = value []
resolve_from levels (suc n) level inherited =
    let found = or_inherited (find level levels) inherited in
    push_level level found (resolve_from levels n (suc level) found)

-- `rbegin()->first`, after a first key.
unfoldable pub last_key : ℤ → LevelMap → ℤ
last_key key [] = key
last_key key ((next, options) ∷ levels) = last_key next levels

unfoldable pub has_capacity : Option ResolvedLevel → Bool
has_capacity none = false
has_capacity (some level) = elim level.max_bytes [ none ↦ false | some n ↦ true ]

-- From the greatest key on: a negative one is refused.
unfoldable pub resolve_to : LevelMap → ℤ → Result (List ResolvedLevel)
unfolding resolve_from has_capacity
resolve_to levels (negsuc n) = unexpected Status.config
resolve_to levels (pos highest) = do
  resolved ← resolve_from levels (suc highest) 0 none
  if has_capacity (get_elem? resolved highest) then unexpected Status.config else value resolved

unfoldable pub resolve_levels : LevelMap → Result (List ResolvedLevel)
unfolding resolve_to last_key
resolve_levels [] = unexpected Status.config
resolve_levels ((negsuc n, options) ∷ levels) = unexpected Status.config
resolve_levels ((pos n, options) ∷ levels) =
    resolve_to ((pos n, options) ∷ levels) (last_key (pos n) levels)
