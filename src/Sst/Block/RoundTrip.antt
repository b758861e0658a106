-- ===== src/Sst/Block/RoundTrip.antt =====
-- A finished block opens, and a scan of it gives back the entries.
use elysiumkv.Base.{
  ℕ, suc, ◌+◌, ◌-◌, ◌*◌, ◌%◌, ◌^◌, ◌≤◌, ◌<◌, ◌≡◌, refl, sym, ap, ◌∙◌, true, false, ◌||◌, List, [],
  ◌∷◌, ◌++◌, ltb, ◌==◌, length, drop, All, arith, append_assoc, append-nil, length-append,
  take-append_at, drop-append_at, Bool-cases, inl, inr, drop_last, subst,
}
use elysiumkv.Slice.{Bytes}
use elysiumkv.Sst.Format.{put_fixed32, decode_fixed32, le_bytes}
use elysiumkv.Sst.Format.Fixed.{length-le_bytes, decode_fixed32-put_fixed32}
use elysiumkv.Sst.Block.{
  BlockBuilder, Entry, BlockIterator, new_block, add_entry, put_restarts, finish_block,
  restart_offset, open_block, unset, seek_to_first, parse_or_invalidate,
}
use elysiumkv.Sst.Block.Scan.{
  add_entries, EntryFits, kept_entries, add_entries-run, At, scan, scan-run,
}

read_word : (v : ℕ) (rest : Bytes) → v < 2 ^ 32 → decode_fixed32 (le_bytes 4 v ++ rest) ≡ v
read_word v rest h = unfold put_fixed32 in decode_fixed32-put_fixed32 v rest h

restart_bytes : List ℕ → Bytes
restart_bytes [] = []
restart_bytes (offset ∷ offsets) = le_bytes 4 offset ++ restart_bytes offsets

put_restarts-bytes :
    (out : Bytes) (offsets : List ℕ) → put_restarts out offsets ≡ out ++ restart_bytes offsets
unfolding put_restarts restart_bytes put_fixed32
put_restarts-bytes out [] = sym (append-nil out)
put_restarts-bytes out (offset ∷ offsets) =
    put_restarts-bytes (out ++ le_bytes 4 offset) offsets
    ∙ append_assoc out (le_bytes 4 offset) (restart_bytes offsets)

length-restart_bytes : (offsets : List ℕ) → length (restart_bytes offsets) ≡ length offsets * 4
unfolding restart_bytes
length-restart_bytes [] = refl
length-restart_bytes (offset ∷ offsets) = omega (
  arith,
  length-append {0} (le_bytes 4 offset) (restart_bytes offsets),
  length-le_bytes 4 offset,
  length-restart_bytes offsets,
)

-- The first restart stands at the first entry, and there are no more restarts than entries.
record AreRestarts (restarts : List ℕ) (entries : ℕ) : Type 0 where
  more : List ℕ
  first : restarts ≡ 0 ∷ more
  few : length more ≤ entries

add_entries-AreRestarts :
    (b : BlockBuilder) (es : List Entry) (n : ℕ)
    → AreRestarts b.restarts n
    → AreRestarts (add_entries b es).restarts (n + length es)
unfolding add_entries add_entry
add_entries-AreRestarts b [] n h = record {
  more = h.more;
  first = h.first;
  few = let f = h.few in omega arith;
}
add_entries-AreRestarts b (e ∷ es) n h =
    let r =
      add_entries-AreRestarts (add_entry b e.key e.type e.value) es (suc n) (one_more b e n h) in
    record { more = r.more; first = r.first; few = let f = r.few in omega arith }
  where
    one_more :
        (b : BlockBuilder) (e : Entry) (n : ℕ)
        → AreRestarts b.restarts n
        → AreRestarts (add_entry b e.key e.type e.value).restarts (suc n)
    one_more b e n h = elim (Bool-cases (ltb b.since_restart b.restart_interval)) [
      | inl near ↦
          rw near (record { more = h.more; first = h.first; few = let f = h.few in omega arith })
      | inr far ↦ rw far (record {
        more = h.more ++ (length b.buffer % 2 ^ 32 ∷ []);
        first = ap (λ t. t ++ (length b.buffer % 2 ^ 32 ∷ [])) h.first;
        few =
            let f = h.few in
            omega (arith, length-append {0} h.more (length b.buffer % 2 ^ 32 ∷ []));
      })
    ]

-- What opening leaves for a block with `num` restarts and entries up to `end`.
abbrev opened : Bytes → ℕ → ℕ → BlockIterator
opened content num end = record (unset content) {
  has_data = true;
  num_restarts = num;
  entries_end = end;
}

open_block-opened :
    (content : Bytes) (num : ℕ)
    → num * 4 + 4 ≤ length content
    → 0 < num
    → decode_fixed32 (drop (length content - 4) content) ≡ num
    → decode_fixed32 (drop (length content - 4 - num * 4 + 0 * 4) content) ≡ 0
    → open_block content ≡ opened content num (length content - 4 - num * 4)
unfolding open_block restart_offset
open_block-opened content num room some_restart count first =
    let long : ltb (length content) 4 ≡ false = ground arith in
    let whole : (num == 0 || ltb (length content) (num * 4 + 4)) ≡ false = ground arith in
    rw (count, first, long, whole) refl

-- The bytes of a block: its entries, its restarts and their count.
block_bytes : Bytes → List ℕ → Bytes
block_bytes buffer more = buffer ++ (restart_bytes (0 ∷ more) ++ le_bytes 4 (suc (length more)))

finish_block-bytes :
    (b : BlockBuilder) (more : List ℕ)
    → b.restarts ≡ 0 ∷ more
    → suc (length more) < 2 ^ 32
    → (finish_block b).buffer ≡ block_bytes b.buffer more
unfolding finish_block put_fixed32 block_bytes
finish_block-bytes b more first few = rw (first) (
    ap (λ t. put_restarts b.buffer (0 ∷ more) ++ le_bytes 4 t) (omega arith)
    ∙ ap (λ t. t ++ le_bytes 4 (suc (length more))) (put_restarts-bytes b.buffer (0 ∷ more))
    ∙ append_assoc b.buffer (restart_bytes (0 ∷ more)) _)

module _ (buffer : Bytes) (more : List ℕ) where
  length-block_bytes : length (block_bytes buffer more) ≡ length buffer + suc (length more) * 4 + 4
  unfolding block_bytes
  length-block_bytes = omega (
    arith,
    length-append {0} buffer (restart_bytes (0 ∷ more) ++ le_bytes 4 (suc (length more))),
    length-append {0} (restart_bytes (0 ∷ more)) (le_bytes 4 (suc (length more))),
    length-restart_bytes (0 ∷ more),
    length-le_bytes 4 (suc (length more)),
  )

  count_read :
      suc (length more) < 2 ^ 32
      → decode_fixed32 (drop (length (block_bytes buffer more) - 4) (block_bytes buffer more))
        ≡ suc (length more)
  unfolding block_bytes
  count_read few =
      ap (λ t. decode_fixed32 (drop (length t - 4) t))
        (sym (append_assoc buffer (restart_bytes (0 ∷ more)) (le_bytes 4 (suc (length more)))))
      ∙ ap decode_fixed32 (
          drop_last 4 (buffer ++ restart_bytes (0 ∷ more)) (le_bytes 4 (suc (length more)))
            (length-le_bytes 4 (suc (length more)))
          ∙ sym (append-nil (le_bytes 4 (suc (length more)))))
      ∙ read_word (suc (length more)) [] few

  first_read : decode_fixed32 (drop (length buffer) (block_bytes buffer more)) ≡ 0
  unfolding block_bytes restart_bytes
  first_read =
      ap decode_fixed32 (
        drop-append_at (length buffer) buffer _ refl
        ∙ append_assoc (le_bytes 4 0) (restart_bytes more) (le_bytes 4 (suc (length more))))
      ∙ read_word 0 _ (omega arith)

  open_block-block_bytes :
      suc (length more) < 2 ^ 32
      → open_block (block_bytes buffer more)
        ≡ opened (block_bytes buffer more) (suc (length more)) (length buffer)
  open_block-block_bytes few =
      let size : length (block_bytes buffer more) - 4 - suc (length more) * 4 ≡ length buffer =
        omega (arith, length-block_bytes) in
      open_block-opened (block_bytes buffer more) (suc (length more))
        (omega (arith, length-block_bytes)) (omega arith) (count_read few)
        (ap (λ t. decode_fixed32 (drop t (block_bytes buffer more))) (omega (arith, size))
          ∙ first_read)
      ∙ ap (opened (block_bytes buffer more) (suc (length more))) size

  At-opened :
      (num : ℕ)
      → At (record (opened (block_bytes buffer more) num (length buffer)) { key = [] }) [] buffer []
  unfolding block_bytes
  At-opened num = record {
    has_data = refl;
    region = take-append_at (length buffer) buffer _ refl;
    ending = omega arith;
    key = refl;
    status = refl;
  }

seek_to_first-opened :
    (content : Bytes) (num end : ℕ)
    → seek_to_first (opened content num end)
      ≡ parse_or_invalidate (record (opened content num end) { key = [] }) 0
unfolding seek_to_first
seek_to_first-opened content num end = refl

-- A loop over a finished block, from its first entry on, sees exactly the entries that were added,
-- in their order, with no value where an entry is a deletion. It does so for any restart interval
-- and any keys, where each key and value is shorter than 2 ^ 32 and there are fewer than 2 ^ 32 - 1
-- entries, as soon as it may take a
-- step for each entry.
pub scan-finish_block :
    (interval n : ℕ) (es : List Entry)
    → All EntryFits es
    → suc (length es) < 2 ^ 32
    → length es ≤ n
    → scan n
        (seek_to_first (open_block (finish_block (add_entries (new_block interval) es)).buffer))
      ≡ kept_entries es
unfolding new_block
scan-finish_block interval n es fits few room =
    let done : BlockBuilder = add_entries (new_block interval) es in
    let r =
      add_entries-AreRestarts (new_block interval) es 0
        (record { more = []; first = refl; few = omega arith }) in
    let fit : suc (length r.more) < 2 ^ 32 = let f = r.few in omega arith in
    let start : BlockIterator =
      opened (block_bytes done.buffer r.more) (suc (length r.more)) (length done.buffer) in
    ap (λ t. scan n (seek_to_first t))
      (ap open_block (finish_block-bytes done r.more r.first fit)
        ∙ open_block-block_bytes done.buffer r.more fit)
    ∙ ap (scan n) (seek_to_first-opened _ _ _)
    ∙ scan-run n interval 0 (record start { key = [] }) [] [] es room
        (subst (λ t. At (record start { key = [] }) [] t [])
          (add_entries-run (new_block interval) es fits (omega arith))
          (At-opened done.buffer r.more (suc (length r.more))))
        (omega arith) fits
