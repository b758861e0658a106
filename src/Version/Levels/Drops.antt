-- ===== src/Version/Levels/Drops.antt =====
-- Files that maintenance may drop whole: what a drop can lose.
use elysiumkv.Base.{
  ℕ, ◌≤◌, ◌<◌, Bool, true, false, not, ◌&&◌, ◌||◌, ◌≡◌, ◌≢◌, refl, sym, ◌∙◌, List, [], ◌∷◌, subst,
  Option, none, some, ◌==◌, if◌then◌else◌, length, keep, Member, here, there, arith, inl, inr,
}
use elysiumkv.Base.Membership.{Member-keep, none_of_any, Member-append, Member-single}
use mathlib.Core.Option.{some-injective}
use elysiumkv.Slice.{Bytes, key_lt}
use elysiumkv.Slice.Order.{key_le-not, key_lt_of_lt_not, key_lt_of_not_lt}
use elysiumkv.Version.Metadata.{FileMetadata, effective_largest, range_may_cover}
use elysiumkv.Version.Levels.{
  Version, has_ranges, is_newer, hull_covers, RangeDropCandidate, first_cover, candidate_of,
  candidates_among, range_drop_candidates, concat_levels, all_files, truncated,
  files_entirely_truncated, is_expired, files_expired_before, older_and_meets,
}
use elysiumkv.Version.Levels.Older.{AreLevelsFrom, older_file_overlaps-scan}

-- A file that is dropped as entirely truncated says nothing of a live key: every key up to its
-- largest effective key is truncated.
pub files_entirely_truncated_dead :
    (v : Version) (f : FileMetadata) (key : Bytes)
    → Member f (files_entirely_truncated v)
    → key_lt (effective_largest f) key ≡ false
    → truncated v key ≡ true
unfolding files_entirely_truncated truncated
files_entirely_truncated_dead v f key m h = at (length v.truncation_point == 0) refl m
  where
    at :
        (b : Bool)
        → (length v.truncation_point == 0) ≡ b
        → Member f (
            if b
            then []
            else keep
                (λ g. key_lt (effective_largest g) v.truncation_point)
                (concat_levels v.levels))
        → (not (length v.truncation_point == 0) && key_lt key v.truncation_point) ≡ true
    at true e m = elim m [ ]
    at false e m =
        let (below, _) =
          Member-keep (λ g. key_lt (effective_largest g) v.truncation_point)
            (concat_levels v.levels) m in
        ground (arith, key_lt_of_not_lt key (effective_largest f) v.truncation_point)

-- Where each file stands at its own level and the levels below the first are sorted runs: a file
-- that is dropped as expired was written, for the last time, at or before the cutoff, carries no
-- range tombstone, and covers no older file: no file of the store that is older than it meets its
-- span, so nothing older comes back.
pub files_expired_before_safe :
    (v : Version) (cutoff : ℕ) (f g : FileMetadata)
    → AreLevelsFrom 0 v.levels
    → Member f (files_expired_before v cutoff)
    → Member g (all_files v)
    → (0 < f.max_write_time_ms)
      × (f.max_write_time_ms ≤ cutoff)
      × (f.num_range_tombstones ≡ 0)
      × (older_and_meets f g ≡ false)
unfolding files_expired_before is_expired has_ranges
files_expired_before_safe v cutoff f g h m n =
    let (expired, _) = Member-keep (is_expired v cutoff) (concat_levels v.levels) m in
    (
      ground arith,
      ground arith,
      ground arith,
      none_of_any (older_and_meets f) (all_files v)
          (sym (older_file_overlaps-scan v f h) ∙ ground arith) n,
    )

pub record IsSoundDrop (v : Version) (c : RangeDropCandidate) : Type 0 where
  pub is_file : Member c.file (all_files v)
  pub is_cover : Member c.cover (all_files v)
  pub newer : is_newer c.cover c.file ≡ true
  pub holds_keys : c.file.num_entries ≢ 0
  pub no_ranges : c.file.num_range_tombstones ≡ 0
  pub spans :
      (key : Bytes)
      → key_lt key c.file.smallest_key ≡ false
      → key_lt c.file.largest_key key ≡ false
      → range_may_cover c.cover key ≡ true
  pub exact_one : c.exact ≡ true → c.cover.num_range_tombstones ≡ 1

abbrev IsCover : FileMetadata → FileMetadata → List FileMetadata → Type 0
IsCover f cover covers =
    Member cover covers × (is_newer cover f ≡ true) × (hull_covers cover f ≡ true)

first_cover-some :
    (f cover : FileMetadata) (covers : List FileMetadata)
    → first_cover f covers ≡ some cover
    → IsCover f cover covers
unfolding first_cover
first_cover-some f cover [] h = cc
first_cover-some f cover (g ∷ covers) h =
    at (is_newer g f && hull_covers g f) refl h (first_cover-some f cover covers)
  where
    at :
        (b : Bool)
        → (is_newer g f && hull_covers g f) ≡ b
        → (if b then some g else first_cover f covers) ≡ some cover
        → (first_cover f covers ≡ some cover → IsCover f cover covers)
        → IsCover f cover (g ∷ covers)
    at true e k ih =
        subst (λ t. IsCover f t (g ∷ covers)) (some-injective g cover k)
          (here, ground arith, ground arith)
    at false e k ih = let (m, n, w) = ih k in (there m, n, w)

-- What a member of the candidates says of its file and its cover.
abbrev IsChosen : RangeDropCandidate → List FileMetadata → List FileMetadata → Type 0
IsChosen c covers files =
    Member c.file files
    × ((has_ranges c.file || c.file.num_entries == 0) ≡ false)
    × IsCover c.file c.cover covers
    × (c.exact ≡ (c.cover.num_range_tombstones == 1))

candidate_of-IsChosen :
    {c : RangeDropCandidate} (f : FileMetadata) (covers files : List FileMetadata)
    → Member c
        (if has_ranges f || f.num_entries == 0 then [] else candidate_of f (first_cover f covers))
    → IsChosen c covers (f ∷ files)
unfolding candidate_of
candidate_of-IsChosen f covers files m =
    at (has_ranges f || f.num_entries == 0) (first_cover f covers) refl refl m
  where
    at :
        {d : RangeDropCandidate} (b : Bool) (o : Option FileMetadata)
        → (has_ranges f || f.num_entries == 0) ≡ b
        → first_cover f covers ≡ o
        → Member d (if b then [] else candidate_of f o)
        → IsChosen d covers (f ∷ files)
    at true o e k m = elim m [ ]
    at false none e k m = elim m [ ]
    at false (some cover) e k m =
        subst (λ t. IsChosen t covers (f ∷ files)) (sym (Member-single m))
          (here, e, first_cover-some f cover covers k, refl)

candidates_among-IsChosen :
    {c : RangeDropCandidate} (covers files : List FileMetadata)
    → Member c (candidates_among covers files)
    → IsChosen c covers files
unfolding candidates_among
candidates_among-IsChosen covers [] m = elim m [ ]
candidates_among-IsChosen covers (f ∷ files) m =
    elim (Member-append
      (if has_ranges f || f.num_entries == 0 then [] else candidate_of f (first_cover f covers))
      (candidates_among covers files) m) [
        | inl n ↦ candidate_of-IsChosen f covers files n
        | inr n ↦
            let (at, plain, cover, exact) = candidates_among-IsChosen covers files n in
            (there at, plain, cover, exact)
      ]

-- Every candidate is sound: its file holds keys and no range tombstones, its cover is a file of the
-- store that is strictly newer, the cover's recorded span may cover every key from the file's
-- smallest to its largest, and a candidate called exact has a cover with one range tombstone.
pub range_drop_candidates-IsSoundDrop :
    (v : Version) (c : RangeDropCandidate) → Member c (range_drop_candidates v) → IsSoundDrop v c
unfolding range_drop_candidates all_files
range_drop_candidates-IsSoundDrop v c m =
    let files = concat_levels v.levels in
    let (at, plain, (cover, newer, spans), exact) =
      candidates_among-IsChosen (keep has_ranges files) files m in
    let (ranged, is_file) = Member-keep has_ranges files cover in
    record {
      is_file = at;
      is_cover = is_file;
      newer = newer;
      holds_keys = unfold has_ranges in ground arith;
      no_ranges = unfold has_ranges in ground arith;
      spans = λ key low high.
          unfold has_ranges range_may_cover hull_covers in
          ground (
            arith,
            key_le-not c.cover.smallest_range_key key,
            key_le-not c.cover.smallest_range_key c.file.smallest_key,
            key_lt_of_not_lt key c.file.largest_key c.cover.largest_range_key,
            key_lt_of_lt_not key c.file.smallest_key c.cover.smallest_range_key,
          );
      exact_one = λ e. ground (arith, exact);
    }
