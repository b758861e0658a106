-- ===== src/Sst/Block/Seek.antt =====
-- src/sst/block_reader.hpp and block_reader.cpp: seeking within a block, by its restart points. The
-- loops run on fuel: a search over `n` restarts takes at most `n` turns, and each entry that is
-- passed takes bytes of the block.
pub mod Restarts
mod Examples
use elysiumkv.Base.{
  ℕ, zero, suc, ◌+◌, ◌-◌, ◌/◌, Bool, true, false, ◌&&◌, ◌||◌, not, Option, none, some, ◌==◌, ltb,
  if◌then◌else◌, [],
}
use elysiumkv.Status.{Status}
use elysiumkv.Slice.{Bytes, key_lt, key_le, key_eq}
use elysiumkv.Sst.Block.{
  BlockIterator, restart_offset, parse_or_invalidate, invalidate, next, is_ok,
}

unfoldable pub seek_to_restart : BlockIterator → ℕ → BlockIterator
seek_to_restart it index = parse_or_invalidate (record it { key = [] }) (restart_offset it index)

abbrev pub middle : ℕ → ℕ → ℕ
middle low high = low + (high - low + 1) / 2

-- The loop of `restart_before`.
unfoldable pub restart_search : ℕ → BlockIterator → ℕ → ℕ → ℕ → ℕ
restart_search zero it offset low high = low
restart_search (suc n) it offset low high =
    let mid = middle low high in
    let above = restart_search n it offset mid high in
    let below = restart_search n it offset low (mid - 1) in
    if ltb low high then if ltb (restart_offset it mid) offset then above else below else low

unfoldable pub restart_before : BlockIterator → ℕ → ℕ
unfolding restart_search
restart_before it offset = restart_search it.num_restarts it offset 0 (it.num_restarts - 1)

-- `while (valid_ && next_offset_ < limit) next();`
unfoldable pub next_until : ℕ → ℕ → BlockIterator → BlockIterator
next_until zero limit it = it
next_until (suc n) limit it =
    let rest = next_until n limit (next it) in
    if it.valid && ltb it.next_offset limit then rest else it

abbrev is_usable : BlockIterator → Bool
is_usable it = is_ok it.status && it.has_data

unfoldable pub seek_to_last : BlockIterator → BlockIterator
unfolding seek_to_restart next_until
seek_to_last it =
    if is_usable it
    then next_until it.entries_end it.entries_end (seek_to_restart it (it.num_restarts - 1))
    else it

-- Anything but the boundary means that the offsets disagree with the entries.
unfoldable pub landed : ℕ → BlockIterator → BlockIterator
landed target it =
    if not it.valid || not (it.next_offset == target)
    then invalidate (record it { status = if is_ok it.status then Status.corrupt else it.status })
    else it

unfoldable pub prev : BlockIterator → BlockIterator
unfolding restart_before seek_to_restart next_until landed
prev it =
    if not it.valid
    then it
    else if it.current_offset == 0
    then invalidate it
    else landed it.current_offset (
        next_until it.entries_end it.current_offset
          (seek_to_restart it (restart_before it it.current_offset)))

-- The search of `seek`, which moves the iterator: the restart that it ends at, or none where an
-- entry could not be read.
unfoldable pub key_search : ℕ → Bytes → ℕ → ℕ → BlockIterator → Option ℕ × BlockIterator
unfolding seek_to_restart
key_search zero target low high it = (some low, it)
key_search (suc n) target low high it =
    let mid = middle low high in
    let there = seek_to_restart it mid in
    let above = key_search n target mid high there in
    let below = key_search n target low (mid - 1) there in
    if ltb low high
    then if not there.valid then (none, there) else if key_le there.key target then above else below
    else (some low, it)

-- `while (valid_ && key_.slice() < target) next();`
unfoldable pub next_key : ℕ → Bytes → BlockIterator → BlockIterator
next_key zero target it = it
next_key (suc n) target it =
    let rest = next_key n target (next it) in if it.valid && key_lt it.key target then rest else it

unfoldable pub seek : Bytes → BlockIterator → BlockIterator
unfolding key_search seek_to_restart next_key
seek target it =
    let (found, there) = key_search it.num_restarts target 0 (it.num_restarts - 1) it in
    if is_usable it
    then elim found [
      | none ↦ there
      | some low ↦ next_key (suc it.entries_end) target (seek_to_restart there low)
    ]
    else it

unfoldable pub seek_for_prev : Bytes → BlockIterator → BlockIterator
unfolding seek seek_to_last prev
seek_for_prev target it =
    let there = seek target it in
    if is_usable it
    then if not there.valid
      then if is_ok there.status then seek_to_last there else there
      else if key_eq there.key target
      then there
      else prev there
    else it
