-- ===== src/Version/Floor.antt =====
-- src/version/version_edit.cpp: the watermark floor in an edit and in a snapshot.
pub mod Reads
use elysiumkv.Base.{ℕ, Option, none, some, ltb, ◌==◌, if◌then◌else◌}
use elysiumkv.Slice.{Bytes}
use elysiumkv.Sst.Format.{put_varint64, get_varint64}
use elysiumkv.Version.Metadata.{FloorUpdate}
use elysiumkv.Version.Watermark.{WatermarkFloor}
use elysiumkv.Version.Fields.{value_or}
use elysiumkv.Base.OptionBind.{◌>>=◌}

unfoldable pub state_of_position : Option ℕ → ℕ
state_of_position none = 2
state_of_position (some v) = 1

unfoldable pub floor_update_state : FloorUpdate → WatermarkFloor → ℕ
unfolding state_of_position
floor_update_state FloorUpdate.silent floor = 0
floor_update_state FloorUpdate.set floor = state_of_position floor.position
floor_update_state FloorUpdate.clear floor = 3

unfoldable pub put_floor_update : Bytes → FloorUpdate → WatermarkFloor → Bytes
put_floor_update out update floor =
    put_varint64 (put_varint64 out (floor_update_state update floor)) (value_or floor.position 0)

abbrev pub no_position : WatermarkFloor
no_position = record { position = none }

-- The switch over the state that was read; the floor keeps its default where it is not set.
unfoldable pub floor_update_of : ℕ → ℕ → FloorUpdate × WatermarkFloor
floor_update_of state v =
    if state == 0
    then (FloorUpdate.silent, no_position)
    else if state == 1
    then (FloorUpdate.set, record { position = some v })
    else if state == 2
    then (FloorUpdate.set, no_position)
    else (FloorUpdate.clear, no_position)

unfoldable pub get_floor_update : Bytes → Option ((FloorUpdate × WatermarkFloor) × Bytes)
get_floor_update p = do
  (state, p1) ← get_varint64 p
  if ltb 3 state then none else do (v, p2) ← get_varint64 p1; some (floor_update_of state v, p2)

unfoldable pub floor_state : Option WatermarkFloor → ℕ
unfolding state_of_position
floor_state none = 0
floor_state (some floor) = state_of_position floor.position

unfoldable pub floor_value : Option WatermarkFloor → ℕ
floor_value none = 0
floor_value (some floor) = value_or floor.position 0

unfoldable pub put_floor : Bytes → Option WatermarkFloor → Bytes
put_floor out floor = put_varint64 (put_varint64 out (floor_state floor)) (floor_value floor)

unfoldable pub floor_of : ℕ → ℕ → Option WatermarkFloor
floor_of state v =
    if state == 0 then none else some (record { position = if state == 1 then some v else none })

unfoldable pub get_floor : Bytes → Option (Option WatermarkFloor × Bytes)
get_floor p = do
  (state, p1) ← get_varint64 p
  if ltb 2 state then none else do (v, p2) ← get_varint64 p1; some (floor_of state v, p2)
