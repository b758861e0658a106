-- ===== src/Compact/Picker/Inherited.antt =====
-- What the output of a compaction inherits from the files it is made of.
use elysiumkv.Base.{
  ℕ, ◌≤◌, List, [], ◌∷◌, if◌then◌else◌, ltb, All-Member, Member, here, there, map, ◌≡◌, refl, sym,
  subst, arith,
}
use elysiumkv.Version.Metadata.{FileMetadata}
use elysiumkv.Version.Watermark.{WatermarkInterval, merge}
use elysiumkv.Version.Watermark.Merge.{Contains, merge_all, merge_all-Contains}
use elysiumkv.Compact.Picker.Plan.{
  Compaction, all_inputs, watermark, merged_watermark, merge_inputs, max_write_time_ms,
  newest_write,
}

Member-map :
    {f : FileMetadata} (files : List FileMetadata)
    → Member f files
    → Member f.watermark (map (λ (g : FileMetadata). g.watermark) files)
Member-map [] m = elim m [ ]
Member-map (g ∷ files) here = here
Member-map (g ∷ files) (there m) = there (Member-map files m)

merge_inputs-map :
    (w : WatermarkInterval) (files : List FileMetadata)
    → merge_inputs w files ≡ merge_all w (map (λ (g : FileMetadata). g.watermark) files)
unfolding merge_inputs merge_all
merge_inputs-map w [] = refl
merge_inputs-map w (f ∷ files) = merge_inputs-map (merge w f.watermark) files

merged_watermark-Contains :
    (files : List FileMetadata) {f : FileMetadata}
    → Member f files
    → Contains (merged_watermark files) f.watermark
unfolding merged_watermark
merged_watermark-Contains [] m = elim m [ ]
merged_watermark-Contains (g ∷ files) here =
    let marks = map (λ (k : FileMetadata). k.watermark) files in
    subst (λ w. Contains w g.watermark) (sym (merge_inputs-map g.watermark files))
      (merge_all-Contains g.watermark marks).0
merged_watermark-Contains (g ∷ files) {f} (there n) =
    let marks = map (λ (k : FileMetadata). k.watermark) files in
    subst (λ w. Contains w f.watermark) (sym (merge_inputs-map g.watermark files))
      (All-Member (Contains (merge_all g.watermark marks)) (Member-map files n)
        (merge_all-Contains g.watermark marks).1)

newest_write_grows : (newest : ℕ) (files : List FileMetadata) → newest ≤ newest_write newest files
unfolding newest_write
newest_write_grows newest [] = omega arith
newest_write_grows newest (f ∷ files) =
    let ih =
      newest_write_grows (if ltb newest f.max_write_time_ms then f.max_write_time_ms else newest)
        files in
    ground arith

newest_write_bounds :
    (newest : ℕ) (files : List FileMetadata) {f : FileMetadata}
    → Member f files
    → f.max_write_time_ms ≤ newest_write newest files
unfolding newest_write
newest_write_bounds newest [] m = elim m [ ]
newest_write_bounds newest (f ∷ files) here =
    let ih =
      newest_write_grows (if ltb newest f.max_write_time_ms then f.max_write_time_ms else newest)
        files in
    ground arith
newest_write_bounds newest (f ∷ files) (there m) =
    newest_write_bounds (if ltb newest f.max_write_time_ms then f.max_write_time_ms else newest)
      files m

-- The watermark of a compaction promises no more than that of any file it is made of, and its
-- newest write is no earlier than any of theirs.
pub compaction_inherits :
    (c : Compaction) (f : FileMetadata)
    → Member f (all_inputs c)
    → Contains (watermark c) f.watermark × (f.max_write_time_ms ≤ max_write_time_ms c)
unfolding watermark max_write_time_ms
compaction_inherits c f m =
    (merged_watermark-Contains (all_inputs c) m, newest_write_bounds 0 (all_inputs c) m)
