-- ===== src/Sst/Block/Scan.antt =====
-- A block that was built is read back from its start.
use elysiumkv.Base.{
  ℕ, zero, suc, ◌+◌, ◌-◌, ◌^◌, ◌≤◌, ◌<◌, ◌≡◌, refl, sym, ap, ◌∙◌, true, false, List, [], ◌∷◌, ◌++◌,
  some, ltb, leb, not, ◌||◌, if◌then◌else◌, length, take, drop, All, arith, append_assoc,
  append-nil, length-append, drop-append_at, Bool-cases, inl, inr,
}
use elysiumkv.Status.{Status}
use elysiumkv.Slice.{Bytes}
use elysiumkv.Sst.Format.Varint.{groups}
use elysiumkv.Sst.Block.{
  ValueType, type_byte, BlockBuilder, Entry, BlockIterator, add_entry, shared_bytes, parse_entry,
  parse_or_invalidate, entry_at, invalidate, next,
}
use elysiumkv.Sst.Block.Parse.{
  stored_value, entry_bytes, put_entry-bytes, entry_at-bytes, shared_bytes-le, take-shared_bytes,
}

unfoldable pub add_entries : BlockBuilder → List Entry → BlockBuilder
add_entries b [] = b
add_entries b (e ∷ es) = add_entries (add_entry b e.key e.type e.value) es

-- Lengths that fit their fields.
pub record EntryFits (e : Entry) : Type 0 where
  pub key : length e.key < 2 ^ 32
  pub value : length e.value < 2 ^ 32

-- What the reader gives back of an entry.
unfoldable pub kept_entry : Entry → Entry
kept_entry e = record { key = e.key; type = e.type; value = stored_value e.type e.value }

unfoldable pub kept_entries : List Entry → List Entry
unfolding kept_entry
kept_entries [] = []
kept_entries (e ∷ es) = kept_entry e ∷ kept_entries es

abbrev pub shared_of : ℕ → ℕ → Bytes → Bytes → ℕ
shared_of interval since last key = if ltb since interval then shared_bytes last key else 0

-- The bytes that entries append, after a last key and as many entries as the last restart has.
unfoldable pub run : ℕ → ℕ → Bytes → List Entry → Bytes
run interval since last [] = []
run interval since last (e ∷ es) =
    entry_bytes (shared_of interval since last e.key) e.key e.type e.value
    ++ run interval (suc (if ltb since interval then since else 0)) e.key es

shared_of-le :
    (interval since : ℕ) (last key : Bytes) → shared_of interval since last key ≤ length last
shared_of-le interval since last key = ground (arith, shared_bytes-le last key)

shared_of-whole :
    (interval since : ℕ) (last key : Bytes)
    → take (shared_of interval since last key) last ++ drop (shared_of interval since last key) key
      ≡ key
shared_of-whole interval since last key = elim (Bool-cases (ltb since interval)) [
  | inl e ↦ rw e (take-shared_bytes last key)
  | inr e ↦ rw e refl
]

pub add_entries-run :
    (b : BlockBuilder) (es : List Entry)
    → All EntryFits es
    → length b.last_key < 2 ^ 32
    → (add_entries b es).buffer ≡ b.buffer ++ run b.restart_interval b.since_restart b.last_key es
unfolding add_entries run add_entry
add_entries-run b [] fits small = sym (append-nil b.buffer)
add_entries-run b (e ∷ es) (fit, fits) small =
    add_entries-run (add_entry b e.key e.type e.value) es fits fit.key
    ∙ ap
        (λ t.
          t
          ++ run b.restart_interval
              (suc (if ltb b.since_restart b.restart_interval then b.since_restart else 0)) e.key
              es)
        (put_entry-bytes b.buffer (shared_of b.restart_interval b.since_restart b.last_key e.key)
          e.key e.type e.value
          (omega (arith, shared_of-le b.restart_interval b.since_restart b.last_key e.key)) fit.key
          fit.value)
    ∙ append_assoc b.buffer _ _

-- The iterator stands before `rest`, with `front` behind it.
pub record At (it : BlockIterator) (front rest last : Bytes) : Type 0 where
  pub has_data : it.has_data ≡ true
  pub region : take it.entries_end it.content ≡ front ++ rest
  pub ending : it.entries_end ≡ length front + length rest
  pub key : it.key ≡ last
  pub status : it.status ≡ Status.ok

parse-end :
    (it : BlockIterator) (front last : Bytes)
    → At it front [] last
    → parse_or_invalidate it (length front) ≡ invalidate it
unfolding parse_or_invalidate parse_entry
parse-end it front last at = let e = at.ending in ground arith

stored-lt : (t : ValueType) (v : Bytes) → length v < 2 ^ 32 → length (stored_value t v) < 2 ^ 32
stored-lt ValueType.delete v h = omega arith
stored-lt ValueType.put v h = h

entry_bytes-nonempty :
    (shared : ℕ) (key : Bytes) (t : ValueType) (value : Bytes)
    → 0 < length (entry_bytes shared key t value)
unfolding entry_bytes
entry_bytes-nonempty shared key t value = omega (
  arith,
  length-append {0} (groups 4 shared) (
      groups 4 (length key - shared)
      ++ (type_byte t
          ∷ (groups 4 (length (stored_value t value))
              ++ (drop shared key ++ stored_value t value)))),
  length-append {0} (groups 4 (length key - shared)) (
      type_byte t
      ∷ (groups 4 (length (stored_value t value)) ++ (drop shared key ++ stored_value t value))),
)

-- The iterator after it has read an entry.
unfoldable pub after_entry : BlockIterator → Bytes → Bytes → Entry → BlockIterator
after_entry it front rest e = record it {
  key = e.key;
  type = e.type;
  value = e.value;
  current_offset = length front;
  next_offset = it.entries_end - length rest;
  valid = true;
}

module _ (it : BlockIterator) (front last : Bytes) (shared : ℕ) (e : Entry) (rest : Bytes) where
  found_entry :
      At it front (entry_bytes shared e.key e.type e.value ++ rest) last
      → shared ≤ length last
      → take shared last ++ drop shared e.key ≡ e.key
      → length last < 2 ^ 32
      → EntryFits e
      → entry_at it.key (drop (length front) (take it.entries_end it.content))
        ≡ some (kept_entry e, rest)
  unfolding kept_entry
  found_entry at within whole small fit =
      rw
        (
          at.key,
          at.region,
          drop-append_at (length front) front (entry_bytes shared e.key e.type e.value ++ rest)
              refl,
        )
        (entry_at-bytes last shared e.key e.type e.value rest within whole (omega arith) fit.key
          (stored-lt e.type e.value fit.value))

  parse-entry :
      At it front (entry_bytes shared e.key e.type e.value ++ rest) last
      → shared ≤ length last
      → take shared last ++ drop shared e.key ≡ e.key
      → length last < 2 ^ 32
      → EntryFits e
      → parse_or_invalidate it (length front) ≡ after_entry it front rest (kept_entry e)
  unfolding parse_or_invalidate parse_entry after_entry
  parse-entry at within whole small fit = rw (inside, found_entry at within whole small fit) refl
    where
      inside : (not it.has_data || leb it.entries_end (length front)) ≡ false
      inside =
          let present = at.has_data in
          let end = at.ending in
          ground (
            arith,
            length-append {0} (entry_bytes shared e.key e.type e.value) rest,
            entry_bytes-nonempty shared e.key e.type e.value,
          )

  At-after_entry :
      At it front (entry_bytes shared e.key e.type e.value ++ rest) last
      → At
          (after_entry it front rest (kept_entry e))
          (front ++ entry_bytes shared e.key e.type e.value)
          rest
          e.key
  unfolding after_entry kept_entry
  At-after_entry at = record {
    has_data = at.has_data;
    region = at.region ∙ sym (append_assoc front (entry_bytes shared e.key e.type e.value) rest);
    ending = ending;
    key = refl;
    status = at.status;
  }
    where
      ending :
          it.entries_end ≡ length (front ++ entry_bytes shared e.key e.type e.value) + length rest
      ending =
          let end = at.ending in
          omega (
            arith,
            length-append {0} front (entry_bytes shared e.key e.type e.value),
            length-append {0} (entry_bytes shared e.key e.type e.value) rest,
          )

  next-after_entry :
      At it front (entry_bytes shared e.key e.type e.value ++ rest) last
      → next (after_entry it front rest (kept_entry e))
        ≡ parse_or_invalidate
            (after_entry it front rest (kept_entry e))
            (length (front ++ entry_bytes shared e.key e.type e.value))
  unfolding next after_entry
  next-after_entry at =
      let end = at.ending in
      ap (parse_or_invalidate (after_entry it front rest (kept_entry e))) (
        omega (
          arith,
          length-append {0} front (entry_bytes shared e.key e.type e.value),
          length-append {0} (entry_bytes shared e.key e.type e.value) rest,
        ))

-- What a loop from the first entry on sees, at most as many steps as the first argument.
unfoldable pub scan : ℕ → BlockIterator → List Entry
scan zero it = []
scan (suc n) it =
    if it.valid
    then record { key = it.key; type = it.type; value = it.value } ∷ scan n (next it)
    else []

scan-entry :
    (n : ℕ) (it : BlockIterator) (front last : Bytes) (shared : ℕ) (e : Entry) (rest : Bytes)
    → At it front (entry_bytes shared e.key e.type e.value ++ rest) last
    → shared ≤ length last
    → take shared last ++ drop shared e.key ≡ e.key
    → length last < 2 ^ 32
    → EntryFits e
    → scan (suc n) (parse_or_invalidate it (length front))
      ≡ kept_entry e
        ∷ scan n (
            parse_or_invalidate
              (after_entry it front rest (kept_entry e))
              (length (front ++ entry_bytes shared e.key e.type e.value)))
unfolding scan after_entry
scan-entry n it front last shared e rest at within whole small fit =
    rw (parse-entry it front last shared e rest at within whole small fit)
      (ap (λ t. kept_entry e ∷ scan n t) (next-after_entry it front last shared e rest at))

scan-end :
    (n : ℕ) (it : BlockIterator) (front last : Bytes)
    → At it front [] last
    → scan n (parse_or_invalidate it (length front)) ≡ []
unfolding scan invalidate
scan-end zero it front last at = refl
scan-end (suc n) it front last at = rw (parse-end it front last at) refl

pub scan-run :
    (n interval since : ℕ) (it : BlockIterator) (front last : Bytes) (es : List Entry)
    → length es ≤ n
    → At it front (run interval since last es) last
    → length last < 2 ^ 32
    → All EntryFits es
    → scan n (parse_or_invalidate it (length front)) ≡ kept_entries es
unfolding run kept_entries
scan-run n interval since it front last [] room at small fits = scan-end n it front last at
scan-run zero interval since it front last (e ∷ es) room at small fits = absurd (omega arith)
scan-run (suc n) interval since it front last (e ∷ es) room at small (fit, fits) =
    let shared : ℕ = shared_of interval since last e.key in
    let rest : Bytes = run interval (suc (if ltb since interval then since else 0)) e.key es in
    scan-entry n it front last shared e rest at (shared_of-le interval since last e.key)
      (shared_of-whole interval since last e.key) small fit
    ∙ ap (λ t. kept_entry e ∷ t)
        (scan-run n interval _ _ _ e.key es (omega arith)
          (At-after_entry it front last shared e rest at) fit.key fits)
