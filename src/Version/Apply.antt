-- ===== src/Version/Apply.antt =====
-- src/version/version.cpp: `Version::apply`, the version after an edit.
pub mod Added
pub mod Erased
pub mod Contents
pub mod Monotone
use elysiumkv.Base.{
  ℕ, zero, suc, ◌+◌, Bool, true, false, not, ◌&&◌, ◌||◌, List, [], ◌∷◌, ◌++◌, Option, none, some,
  ltb, ◌==◌, if◌then◌else◌, length, keep, max,
}
use elysiumkv.Base.Sort.{sort_by}
use elysiumkv.Slice.{Bytes, key_lt, key_eq}
use elysiumkv.Version.Metadata.{FileMetadata, FileRef, FloorUpdate, VersionEdit, max_key}
use elysiumkv.Version.Watermark.{WatermarkFloor}
use elysiumkv.Version.Levels.{Version, new_version}

-- Newest first at level 0, where files overlap.
unfoldable pub newer_first : FileMetadata → FileMetadata → Bool
newer_first a b = ltb b.file_number a.file_number

-- By smallest key, then number, deeper down.
unfoldable pub key_first : FileMetadata → FileMetadata → Bool
key_first a b =
    if not (key_eq a.smallest_key b.smallest_key)
    then key_lt a.smallest_key b.smallest_key
    else ltb a.file_number b.file_number

unfoldable pub sort_level : ℕ → List FileMetadata → List FileMetadata
sort_level level files = if level == 0 then sort_by newer_first files else sort_by key_first files

-- A write through an index; an index past the end changes nothing.
unfoldable pub update_at {ℓ} : {A : Type ℓ} → ℕ → (A → A) → List A → List A
update_at n g [] = []
update_at zero g (x ∷ xs) = g x ∷ xs
update_at (suc n) g (x ∷ xs) = x ∷ update_at n g xs

unfoldable pub refers : FileRef → FileMetadata → Bool
refers ref f = f.file_number == ref.file_number

-- `erase_if` at the level of the reference.
unfoldable pub erase_ref : FileRef → List (List FileMetadata) → List (List FileMetadata)
erase_ref ref levels = update_at ref.level (keep (λ f. not (refers ref f))) levels

unfoldable pub erase_refs : List FileRef → List (List FileMetadata) → List (List FileMetadata)
erase_refs [] levels = levels
erase_refs (ref ∷ refs) levels = erase_refs refs (erase_ref ref levels)

-- `resize` to a greater size.
unfoldable pub resize : ℕ → List (List FileMetadata) → List (List FileMetadata)
resize zero levels = levels
resize (suc n) [] = [] ∷ resize n []
resize (suc n) (files ∷ levels) = files ∷ resize n levels

unfoldable pub add_file : FileMetadata → List (List FileMetadata) → List (List FileMetadata)
add_file f levels =
    update_at f.level (λ files. files ++ f ∷ [])
      (if ltb f.level (length levels) then levels else resize (suc f.level) levels)

unfoldable pub add_files : List FileMetadata → List (List FileMetadata) → List (List FileMetadata)
add_files [] levels = levels
add_files (f ∷ files) levels = add_files files (add_file f levels)

unfoldable pub sort_levels : ℕ → List (List FileMetadata) → List (List FileMetadata)
sort_levels level [] = []
sort_levels level (files ∷ levels) = sort_level level files ∷ sort_levels (suc level) levels

-- `std::map`: entries ascend by key.
unfoldable pub assign : ℕ → Bytes → List (ℕ × Bytes) → List (ℕ × Bytes)
assign k v [] = (k, v) ∷ []
assign k v ((j, w) ∷ m) =
    if k == j then (k, v) ∷ m else if ltb k j then (k, v) ∷ (j, w) ∷ m else (j, w) ∷ assign k v m

unfoldable pub assign_all : List (ℕ × Bytes) → List (ℕ × Bytes) → List (ℕ × Bytes)
unfolding assign
assign_all [] m = m
assign_all ((level, key) ∷ pointers) m = assign_all pointers (assign level key m)

unfoldable pub update_floor :
    FloorUpdate → WatermarkFloor → Option WatermarkFloor → Option WatermarkFloor
update_floor FloorUpdate.silent floor old = old
update_floor FloorUpdate.set floor old = some floor
update_floor FloorUpdate.clear floor old = none

unfoldable pub apply : Version → VersionEdit → Version
unfolding update_floor max_key
apply base edit =
    new_version (sort_levels 0 (add_files edit.added (erase_refs edit.deleted base.levels)))
      (max base.next_file_number edit.next_file_number)
      (assign_all edit.compaction_pointers base.compaction_pointers)
      (max_key base.truncation_point edit.truncation_point)
      (update_floor edit.floor_update edit.watermark_floor base.watermark_floor)
