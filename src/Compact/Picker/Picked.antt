-- ===== src/Compact/Picker/Picked.antt =====
-- What `pick_compaction` returns for a level, step by step.
use elysiumkv.Base.{
  ℕ, suc, ◌-◌, Bool, true, false, List, [], ◌∷◌, some, length, ◌≡◌, subst, get_elem?, if◌then◌else◌,
  ltb, Member, here, there, arith,
}
use elysiumkv.Base.OptionBind.{bind_some}
use elysiumkv.Version.Metadata.{FileMetadata}
use elysiumkv.Version.Levels.{Version, overlapping_inclusive}
use elysiumkv.Db.LevelConfig.{ResolvedLevel}
use elysiumkv.Compact.Picker.Plan.{
  Compaction, seed_of, inputs_of, span_of, expand, settle, with_inputs, compaction_at, oldest_seed,
  lowest_from,
}

-- The steps that led to a compaction.
pub record Picked (v : Version) (levels : List ResolvedLevel) (budget chosen : ℕ) (c : Compaction)
    : Type 0 where
  pub source : ResolvedLevel
  pub target : ResolvedLevel
  pub seed : FileMetadata
  pub inputs : List FileMetadata
  pub trimmed : Bool
  pub source_at : get_elem? levels chosen ≡ some source
  pub seed_at : seed_of v chosen source ≡ some seed
  pub inputs_at : inputs_of v chosen source budget seed ≡ some (inputs, trimmed)
  pub overlaps : List FileMetadata
  pub is :
      settle v
        (length levels - 1)
        target
        (with_inputs chosen (expand v chosen source budget inputs overlaps) overlaps trimmed)
      ≡ c

some_inj : (a b : Compaction) → some a ≡ some b → a ≡ b
some_inj a b e = cc

some_file_inj : (a b : FileMetadata) → some a ≡ some b → a ≡ b
some_file_inj a b e = cc

pub picked :
    (v : Version) (levels : List ResolvedLevel) (budget chosen : ℕ) (c : Compaction)
    → compaction_at v levels budget chosen ≡ some c
    → Picked v levels budget chosen c
unfolding compaction_at
picked v levels budget chosen c e =
    let (source, (es, e1)) = bind_some (get_elem? levels chosen) _ e in
    let (target, (et, e2)) = bind_some (get_elem? levels (suc chosen)) _ e1 in
    let (seed, (ed, e3)) = bind_some (seed_of v chosen source) _ e2 in
    let ((inputs, trimmed), (ei, e4)) = bind_some (inputs_of v chosen source budget seed) _ e3 in
    record {
      source = source;
      target = target;
      seed = seed;
      inputs = inputs;
      trimmed = trimmed;
      source_at = es;
      seed_at = ed;
      inputs_at = ei;
      overlaps = overlapping_inclusive v (suc chosen) (span_of inputs).0 (span_of inputs).1;
      is = some_inj _ _ e4;
    }

lowest_from-Member :
    (seed : FileMetadata) (files all : List FileMetadata)
    → Member seed all
    → ((f : FileMetadata) → Member f files → Member f all)
    → Member (lowest_from seed files) all
unfolding lowest_from
lowest_from-Member seed [] all m h = m
lowest_from-Member seed (f ∷ files) all m h =
    lowest_from-Member (if ltb f.file_number seed.file_number then f else seed) files all
      (at (ltb f.file_number seed.file_number) (h f here)) (λ g n. h g (there n))
  where
    at : (b : Bool) → Member f all → Member (if b then f else seed) all
    at true n = n
    at false n = m

-- The seed of an overlapping level is one of its files.
pub oldest_seed-Member :
    (files : List FileMetadata) (seed : FileMetadata)
    → oldest_seed files ≡ some seed
    → Member seed files
unfolding oldest_seed
oldest_seed-Member [] seed e = absurd (ground arith)
oldest_seed-Member (f ∷ files) seed e =
    subst (λ s. Member s (f ∷ files)) (some_file_inj _ _ e)
      (lowest_from-Member f files (f ∷ files) here (λ g n. there n))
