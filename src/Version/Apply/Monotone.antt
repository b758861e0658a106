-- ===== src/Version/Apply/Monotone.antt =====
-- What no edit takes back: the truncation point and the next file number. And that a version's
-- answer on which levels carry range tombstones stays true.
use elysiumkv.Base.{
  ℕ, zero, suc, ◌≤◌, true, false, not, ◌&&◌, ◌≡◌, refl, List, [], ◌∷◌, ◌==◌, length, get_or, any,
  arith,
}
use elysiumkv.Slice.{Bytes, key_lt}
use elysiumkv.Slice.Order.{key_lt_irrefl, key_lt_asym, key_lt_of_lt_not, nil-key_lt}
use elysiumkv.Version.Metadata.{FileMetadata, VersionEdit, max_key}
use elysiumkv.Version.Levels.{
  Version, new_version, carried, carries_ranges, has_ranges, files_at, truncated,
}
use elysiumkv.Version.Apply.{apply, sort_levels, add_files, erase_refs}

-- A key that sorts before something is before a later point too.
truncated_later :
    (old new key : Bytes)
    → key_lt new old ≡ false
    → (not (length old == 0) && key_lt key old) ≡ true
    → (not (length new == 0) && key_lt key new) ≡ true
truncated_later [] [] key h k = ground arith
truncated_later (y ∷ old) [] key h k = ground (arith, nil-key_lt y old)
truncated_later old (x ∷ new) key h k = ground (arith, key_lt_of_lt_not key (x ∷ new) old)

key_lt-max_key : (a b : Bytes) → (key_lt (max_key a b) a ≡ false) × (key_lt (max_key a b) b ≡ false)
unfolding max_key
key_lt-max_key a b = ground (arith, key_lt_irrefl a, key_lt_irrefl b, key_lt_asym a b)

pub record IsLater (base after : Version) (edit : VersionEdit) : Type 0 where
  pub point_kept : key_lt after.truncation_point base.truncation_point ≡ false
  pub point_reached : key_lt after.truncation_point edit.truncation_point ≡ false
  pub truncated_kept : (key : Bytes) → truncated base key ≡ true → truncated after key ≡ true
  pub number_kept : base.next_file_number ≤ after.next_file_number
  pub number_reached : edit.next_file_number ≤ after.next_file_number

-- The truncation point and the next file number after an edit are at least those of the base and
-- those of the edit, and a key that was truncated stays truncated.
pub apply-IsLater : (base : Version) (edit : VersionEdit) → IsLater base (apply base edit) edit
unfolding apply new_version truncated
apply-IsLater base edit =
    let kept = key_lt-max_key base.truncation_point edit.truncation_point in
    record {
      point_kept = kept.0;
      point_reached = kept.1;
      truncated_kept = λ key h. truncated_later base.truncation_point _ key kept.0 h;
      number_kept = omega arith;
      number_reached = omega arith;
    }

carried_true :
    (levels : List (List FileMetadata)) (n : ℕ)
    → get_or (carried levels) n false ≡ any has_ranges (get_or levels n [])
unfolding carried
carried_true [] n = refl
carried_true (files ∷ levels) zero = refl
carried_true (files ∷ levels) (suc n) = carried_true levels n

-- After any edit a level is said to carry range tombstones exactly when one of its files has some.
pub carries_ranges-apply :
    (base : Version) (edit : VersionEdit) (level : ℕ)
    → carries_ranges (apply base edit) level ≡ any has_ranges (files_at (apply base edit) level)
unfolding apply new_version carries_ranges files_at
carries_ranges-apply base edit level =
    carried_true (sort_levels 0 (add_files edit.added (erase_refs edit.deleted base.levels))) level
