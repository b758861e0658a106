-- ===== src/Version/Floor/Reads.antt =====
-- The watermark floor of an edit and of a snapshot reads back.
use elysiumkv.Base.{ℕ, ◌≤◌, ◌≡◌, refl, false, ◌++◌, Option, none, some, ltb, arith, append_assoc}
use elysiumkv.Slice.{Bytes}
use elysiumkv.Version.Metadata.{FloorUpdate}
use elysiumkv.Version.Watermark.{WatermarkFloor}
use elysiumkv.Version.Fields.{value_or}
use elysiumkv.Version.Fields.Append.{IsReadBack, IsU64, varint64-IsReadBack}
use elysiumkv.Version.Fields.Reads.{FitsU64, value_or-IsU64}
use elysiumkv.Version.Floor.{
  state_of_position, floor_update_state, put_floor_update, floor_update_of, get_floor_update,
  floor_state, floor_value, put_floor, floor_of, get_floor,
}

-- An instruction other than `set` carries no position.
abbrev pub kept_floor : FloorUpdate → WatermarkFloor → WatermarkFloor
kept_floor FloorUpdate.silent floor = record { position = none }
kept_floor FloorUpdate.set floor = floor
kept_floor FloorUpdate.clear floor = record { position = none }

abbrev pub put_floor_pair : Bytes → FloorUpdate × WatermarkFloor → Bytes
put_floor_pair out (update, floor) = put_floor_update out update floor

floor_update_state-le :
    (u : FloorUpdate) (o : Option ℕ) → floor_update_state u (record { position = o }) ≤ 3
unfolding floor_update_state state_of_position
floor_update_state-le FloorUpdate.silent o = omega arith
floor_update_state-le FloorUpdate.set none = omega arith
floor_update_state-le FloorUpdate.set (some v) = omega arith
floor_update_state-le FloorUpdate.clear o = omega arith

floor_update_of-state :
    (u : FloorUpdate) (o : Option ℕ)
    → floor_update_of (floor_update_state u (record { position = o })) (value_or o 0)
      ≡ (u, kept_floor u (record { position = o }))
unfolding floor_update_of floor_update_state state_of_position
floor_update_of-state FloorUpdate.silent o = refl
floor_update_of-state FloorUpdate.set none = refl
floor_update_of-state FloorUpdate.set (some v) = refl
floor_update_of-state FloorUpdate.clear o = refl

-- What an edit's instruction is written as reads back as the instruction with the floor it keeps.
pub floor_update_read :
    (update : FloorUpdate) (floor : WatermarkFloor)
    → FitsU64 floor.position
    → (bytes : Bytes) × ((out : Bytes) → put_floor_update out update floor ≡ out ++ bytes)
      × ((rest : Bytes)
          → get_floor_update (bytes ++ rest) ≡ some ((update, kept_floor update floor), rest))
unfolding put_floor_update get_floor_update
floor_update_read update floor fits =
    let state =
      varint64-IsReadBack (floor_update_state update floor)
        (omega (arith, floor_update_state-le update floor.position)) in
    let number = varint64-IsReadBack (value_or floor.position 0) (value_or-IsU64 _ fits) in
    (
      state.bytes ++ number.bytes,
      λ out. rw (state.written out, number.written _) (append_assoc out state.bytes number.bytes),
      λ rest. rw append_assoc (
          rw (state.read _, not_above, number.read _)
            (rw (floor_update_of-state update floor.position))),
    )
  where
    not_above : ltb 3 (floor_update_state update floor) ≡ false
    not_above = ground (arith, floor_update_state-le update floor.position)

abbrev pub FloorFits : Option WatermarkFloor → Type 0
FloorFits none = Unit {0}
FloorFits (some f) = FitsU64 f.position

floor_state-le : (o : Option WatermarkFloor) → floor_state o ≤ 2
unfolding floor_state state_of_position
floor_state-le none = omega arith
floor_state-le (some f) = of_position f.position
  where
    of_position : (p : Option ℕ) → state_of_position p ≤ 2
    of_position none = omega arith
    of_position (some v) = omega arith

floor_value-IsU64 : (o : Option WatermarkFloor) → FloorFits o → IsU64 (floor_value o)
unfolding floor_value
floor_value-IsU64 none h = omega arith
floor_value-IsU64 (some f) h = value_or-IsU64 f.position h

floor_of-state : (o : Option WatermarkFloor) → floor_of (floor_state o) (floor_value o) ≡ o
unfolding floor_of floor_state floor_value state_of_position
floor_of-state none = refl
floor_of-state (some f) = of_position f.position
  where
    of_position :
        (p : Option ℕ)
        → floor_of (state_of_position p) (value_or p 0) ≡ some (record { position = p })
    of_position none = refl
    of_position (some v) = refl

-- A snapshot's floor, absent or certifying nothing or a position, reads back.
pub floor-IsReadBack : (o : Option WatermarkFloor) → FloorFits o → IsReadBack put_floor get_floor o
unfolding put_floor get_floor
floor-IsReadBack o fits =
    let state = varint64-IsReadBack (floor_state o) (omega (arith, floor_state-le o)) in
    let number = varint64-IsReadBack (floor_value o) (floor_value-IsU64 o fits) in
    record {
      bytes = state.bytes ++ number.bytes;
      written = λ out.
          rw (state.written out, number.written _) (append_assoc out state.bytes number.bytes);
      read = λ rest.
          rw append_assoc (rw (state.read _, not_above, number.read _) (rw (floor_of-state o)));
    }
  where
    not_above : ltb 2 (floor_state o) ≡ false
    not_above = ground (arith, floor_state-le o)
