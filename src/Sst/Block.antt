-- ===== src/Sst/Block.antt =====
-- src/sst/block_builder.hpp, block_builder.cpp, block_reader.hpp and block_reader.cpp: a data block,
-- whose keys share prefixes between restart points, built and read from its start.
pub mod Parse
pub mod Scan
pub mod RoundTrip
pub mod Seek
use elysiumkv.Base.{
  ℕ, zero, suc, ◌+◌, ◌-◌, ◌*◌, ◌%◌, ◌^◌, Bool, true, false, ◌||◌, not, List, [], ◌∷◌, ◌++◌, Option,
  none, some, ltb, leb, ◌==◌, if◌then◌else◌, length, take, drop,
}
use elysiumkv.Status.{Status}
use elysiumkv.Slice.{Bytes}
use elysiumkv.Sst.Format.{put_varint32, get_varint32, put_fixed32, decode_fixed32}
use elysiumkv.Base.OptionBind.{◌>>=◌}

pub data ValueType : Type 0 where
  delete put : ValueType

abbrev pub type_byte : ValueType → ℕ
type_byte ValueType.delete = 0
type_byte ValueType.put = 1

-- `is_known_value_type`, and the cast that follows it.
abbrev pub known_value_type : ℕ → Option ValueType
known_value_type zero = some ValueType.delete
known_value_type (suc zero) = some ValueType.put
known_value_type (suc (suc n)) = none

pub record BlockBuilder : Type 0 where
  pub buffer : Bytes
  pub restarts : List ℕ
  pub last_key : Bytes
  pub restart_interval : ℕ
  pub since_restart : ℕ
  pub entries : ℕ
  pub finished : Bool

unfoldable pub new_block : ℕ → BlockBuilder
new_block restart_interval = record {
  buffer = [];
  restarts = 0 ∷ [];
  last_key = [];
  restart_interval = restart_interval;
  since_restart = 0;
  entries = 0;
  finished = false;
}

unfoldable pub reset_block : BlockBuilder → BlockBuilder
reset_block b = new_block b.restart_interval

-- The loop that counts the bytes two keys share.
unfoldable pub shared_bytes : Bytes → Bytes → ℕ
shared_bytes [] key = 0
shared_bytes (x ∷ xs) [] = 0
shared_bytes (x ∷ xs) (y ∷ ys) = let more = shared_bytes xs ys in if x == y then suc more else 0

unfoldable pub put_entry : Bytes → ℕ → Bytes → ValueType → Bytes → Bytes
put_entry buffer shared key ValueType.delete value =
    put_varint32
      (put_varint32 (put_varint32 buffer (shared % 2 ^ 32)) ((length key - shared) % 2 ^ 32)
        ++ (0 ∷ []))
      0
    ++ drop shared key
put_entry buffer shared key ValueType.put value =
    (put_varint32
        (put_varint32 (put_varint32 buffer (shared % 2 ^ 32)) ((length key - shared) % 2 ^ 32)
          ++ (1 ∷ []))
        (length value % 2 ^ 32)
      ++ drop shared key)
    ++ value

unfoldable pub add_entry : BlockBuilder → Bytes → ValueType → Bytes → BlockBuilder
add_entry b key type value =
    let near = ltb b.since_restart b.restart_interval in
    record b {
      buffer = put_entry b.buffer (if near then shared_bytes b.last_key key else 0) key type value;
      restarts = if near then b.restarts else b.restarts ++ (length b.buffer % 2 ^ 32 ∷ []);
      last_key = key;
      since_restart = suc (if near then b.since_restart else 0);
      entries = suc b.entries;
    }

unfoldable pub put_restarts : Bytes → List ℕ → Bytes
put_restarts out [] = out
put_restarts out (offset ∷ offsets) = put_restarts (put_fixed32 out offset) offsets

-- The finished block is the buffer.
unfoldable pub finish_block : BlockBuilder → BlockBuilder
finish_block b = record b {
  buffer = put_fixed32 (put_restarts b.buffer b.restarts) (length b.restarts % 2 ^ 32);
  finished = true;
}

unfoldable pub size_estimate : BlockBuilder → ℕ
size_estimate b = length b.buffer + length b.restarts * 4 + 4

-- `data_` is null where `has_data` is false; `restart_array_` equals `entries_end_`, and is not kept
-- a second time.
pub record BlockIterator : Type 0 where
  pub content : Bytes
  pub has_data : Bool
  pub entries_end : ℕ
  pub num_restarts : ℕ
  pub current_offset : ℕ
  pub next_offset : ℕ
  pub key : Bytes
  pub value : Bytes
  pub type : ValueType
  pub valid : Bool
  pub status : Status

-- The members before the constructor's body.
abbrev pub unset : Bytes → BlockIterator
unset content = record {
  content = content;
  has_data = false;
  entries_end = 0;
  num_restarts = 0;
  current_offset = 0;
  next_offset = 0;
  key = [];
  value = [];
  type = ValueType.put;
  valid = false;
  status = Status.ok;
}

unfoldable pub restart_offset : BlockIterator → ℕ → ℕ
restart_offset it index = decode_fixed32 (drop (it.entries_end + index * 4) it.content)

unfoldable pub open_block : Bytes → BlockIterator
unfolding restart_offset
open_block content =
    if ltb (length content) 4
    then record (unset content) { status = Status.corrupt }
    else let num = decode_fixed32 (drop (length content - 4) content) in
      if num == 0 || ltb (length content) (num * 4 + 4)
      then record (unset content) { num_restarts = num; status = Status.corrupt }
      else let it = record (unset content) {
        has_data = true;
        num_restarts = num;
        entries_end = length content - 4 - num * 4;
      } in
        if not (restart_offset it 0 == 0)
        then record it { status = Status.corrupt; has_data = false }
        else it

unfoldable pub invalidate : BlockIterator → BlockIterator
invalidate it = record it { valid = false; key = []; value = [] }

pub record Entry : Type 0 where
  pub key : Bytes
  pub type : ValueType
  pub value : Bytes

-- A prefix longer than the key before, or less left than the entry says.
abbrev pub short : Bytes → ℕ → Bytes → ℕ → ℕ → Bool
short before shared rest unshared value_len =
    ltb (length before) shared
    || (ltb (length rest) unshared || ltb (length rest - unshared) value_len)

abbrev pub first_byte : Bytes → Option (ℕ × Bytes)
first_byte [] = none
first_byte (x ∷ p) = some (x, p)

-- The entry at `p`, for the key before it, and what follows it; `none` is a corrupt entry.
unfoldable pub entry_at : Bytes → Bytes → Option (Entry × Bytes)
entry_at before p = do
  (shared, p1) ← get_varint32 p
  (unshared, p2) ← get_varint32 p1
  (raw_type, p3) ← first_byte p2
  kind ← known_value_type raw_type
  (value_len, p4) ← get_varint32 p3
  if short before shared p4 unshared value_len
      then none
      else some (
        record {
          key = take shared before ++ take unshared p4;
          type = kind;
          value = take value_len (drop unshared p4);
        },
        drop value_len (drop unshared p4),
      )

-- The state after an entry was read at an offset.
abbrev pub moved : BlockIterator → ℕ → Option (Entry × Bytes) → BlockIterator × Bool
moved it offset none = (record it { status = Status.corrupt }, false)
moved it offset (some (e, rest)) = (
  record it {
    key = e.key;
    type = e.type;
    value = e.value;
    current_offset = offset;
    next_offset = it.entries_end - length rest;
    valid = true;
  },
  true,
)

unfoldable pub parse_entry : BlockIterator → ℕ → BlockIterator × Bool
parse_entry it offset =
    if not it.has_data || leb it.entries_end offset
    then (it, false)
    else moved it offset (entry_at it.key (drop offset (take it.entries_end it.content)))

-- `if (!parse_entry(offset)) invalidate();`
unfoldable pub parse_or_invalidate : BlockIterator → ℕ → BlockIterator
parse_or_invalidate it offset =
    let (after, parsed) = parse_entry it offset in if parsed then after else invalidate after

abbrev pub is_ok : Status → Bool
is_ok Status.ok = true
is_ok _ = false

unfoldable pub seek_to_first : BlockIterator → BlockIterator
seek_to_first it =
    if not (is_ok it.status) || not it.has_data
    then it
    else parse_or_invalidate (record it { key = [] }) 0

unfoldable pub next : BlockIterator → BlockIterator
next it = if it.valid then parse_or_invalidate it it.next_offset else it
