-- ===== src/Compact/Examples.antt =====
-- The merging iterator at concrete inputs.
use elysiumkv.Base.{◌≡◌, refl, false, List, [], ◌∷◌, All, map, arith}
use elysiumkv.Slice.{key_lt, key_gt, key_eq, three_way, shorter, sign_of_common, then_sizes, memcmp}
use elysiumkv.Sst.Iterator.{Ascending}
use elysiumkv.Sst.Ranges.{RangeTombstone}
use elysiumkv.Sst.Ranges.Gaps.{IsFragmented}
use elysiumkv.Version.Levels.{leading}
use elysiumkv.Sst.Sources.{Source, source, entry, memory, to_come, next-IsScan, prev-IsScan}
use elysiumkv.Compact.Merging.{
  make_merging_iterator, carriers_from, seek_to_first, seek_to_last, collect, pick, shadowed,
  pass_shadowed, pick_raw, pick_from, beats, step, move_others, carriers_hold, range_holds, shown,
  advance,
}
use elysiumkv.Compact.Merging.Newest.{key_lt-IsStrictOrder}
use elysiumkv.Compact.Merging.Directions.{
  Shows, collect-seek_to_first, collect-seek_to_last, shadowed-pick,
}

abbrev newer : Source
newer = source (entry (2 ∷ []) (20 ∷ []) ∷ [])

abbrev older : Source
older = source (entry (1 ∷ []) (11 ∷ []) ∷ entry (2 ∷ []) (12 ∷ []) ∷ entry (3 ∷ []) (13 ∷ []) ∷ [])

abbrev deleted : RangeTombstone
deleted = record { lower = 1 ∷ []; upper = 2 ∷ [] }

abbrev both : List Source
both = newer ∷ older ∷ []

abbrev tombstones : List (List RangeTombstone)
tombstones = (deleted ∷ []) ∷ [] ∷ []

fragmented : All IsFragmented tombstones
unfolding key_lt three_way shorter sign_of_common then_sizes memcmp
fragmented = ((refl, tt, tt), (tt, tt))

ascending : All (λ s. Ascending key_lt s.to_come) (map memory.seek_to_first both)
unfolding key_lt three_way shorter sign_of_common then_sizes memcmp
ascending = ((tt, tt), (((refl, (refl, tt)), ((refl, tt), (tt, tt))), tt))

descending : All (λ s. Ascending key_gt s.to_come) (map memory.seek_to_last both)
unfolding key_gt three_way shorter sign_of_common then_sizes memcmp
descending = ((tt, tt), (((refl, (refl, tt)), ((refl, tt), (tt, tt))), tt))

-- The deleted key of the older source is passed, and the newer source's value is shown.
forward_run :
    collect memory key_lt memory.next 4 4
      (seek_to_first memory 4 (make_merging_iterator both tombstones))
    ≡ entry (2 ∷ []) (20 ∷ []) ∷ entry (3 ∷ []) (13 ∷ []) ∷ []
unfolding collect seek_to_first make_merging_iterator carriers_from pick shadowed pass_shadowed
    pick_raw pick_from beats step move_others carriers_hold range_holds shown advance leading key_lt
    key_eq three_way shorter sign_of_common then_sizes memcmp
forward_run = refl

collect-seek_to_first_example : Shows to_come key_lt (map memory.seek_to_first both) tombstones (
    collect memory key_lt memory.next 4 4
      (seek_to_first memory 4 (make_merging_iterator both tombstones)))
collect-seek_to_first_example =
    collect-seek_to_first memory to_come both tombstones fragmented next-IsScan ascending 4
      (omega arith)

collect-seek_to_last_example : Shows to_come key_gt (map memory.seek_to_last both) tombstones (
    collect memory key_gt memory.prev 4 4
      (seek_to_last memory 4 (make_merging_iterator both tombstones)))
collect-seek_to_last_example =
    collect-seek_to_last memory to_come both tombstones fragmented prev-IsScan descending 4
      (omega arith)

shadowed-pick_example :
    shadowed memory (
      pick memory key_lt memory.next 4 (record (make_merging_iterator both tombstones) {
        children = map memory.seek_to_first both;
      }))
    ≡ false
unfolding make_merging_iterator
shadowed-pick_example =
    shadowed-pick memory memory.next to_come next-IsScan key_lt key_lt-IsStrictOrder tombstones
      fragmented 4
      (record (make_merging_iterator both tombstones) { children = map memory.seek_to_first both })
      refl ascending (omega arith)
