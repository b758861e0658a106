-- ===== src/Db/Examples.antt =====
-- The configuration of the levels at concrete inputs.
use elysiumkv.Base.{ℕ, ◌≡◌, refl, List, [], ◌∷◌, some}
use elysiumkv.Status.{value}
use elysiumkv.Sst.Codec.{Compression}
use elysiumkv.Db.LevelConfig.{
  pos, LevelOptions, ResolvedLevel, default_options, resolved_level, geometric, geometric_from,
  resolve_levels, resolve_to, resolve_from, push_level, or_inherited, find, same_level,
  has_capacity, last_key,
}
use elysiumkv.Db.LevelConfig.Nearest.{IsResolved, resolve_levels-IsResolved}

abbrev top : LevelOptions
top = record default_options { max_files = some 4; max_bytes = some 1000 }

abbrev bottom : LevelOptions
bottom = record default_options { compression = Compression.zstd }

-- Level 1 is not configured, and has what level 0 has.
abbrev resolved : List ResolvedLevel
resolved = resolved_level 0 top ∷ resolved_level 1 top ∷ resolved_level 2 bottom ∷ []

accepted : resolve_levels ((pos 0, top) ∷ (pos 2, bottom) ∷ []) ≡ value resolved
unfolding resolve_levels resolve_to resolve_from push_level or_inherited find same_level
    has_capacity last_key
accepted = refl

geometric_run :
    resolve_levels (geometric 1000 10 3)
    ≡ value (
        resolved_level 0
          (record default_options { max_files = some 4; slowdown_at = some 8; stop_at = some 12 })
        ∷ resolved_level 1 (record default_options { max_bytes = some 1000 })
        ∷ resolved_level 2 default_options
        ∷ [])
unfolding geometric geometric_from resolve_levels resolve_to resolve_from push_level or_inherited
    find same_level has_capacity last_key
geometric_run = refl

resolve_levels-IsResolved_example :
    (first : ℕ) × (highest : ℕ) × (pos 0 ≡ pos first)
    × (last_key (pos 0) ((pos 2, bottom) ∷ []) ≡ pos highest)
    × IsResolved ((pos 0, top) ∷ (pos 2, bottom) ∷ []) highest resolved
resolve_levels-IsResolved_example =
    resolve_levels-IsResolved (pos 0) top ((pos 2, bottom) ∷ []) resolved accepted
