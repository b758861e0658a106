-- ===== src/Sst/Footer/Fields.antt =====
-- The bytes of a footer's fields, and the fields read back from them.
use elysiumkv.Base.{
  ℕ, ◌+◌, ◌^◌, ◌<◌, ◌≡◌, refl, sym, ap, ◌∙◌, [], ◌++◌, leb, if◌then◌else◌, length, drop, arith,
  append_assoc, append-nil, length-append, drop-append_at, drop_split,
}
use elysiumkv.Slice.{Bytes}
use elysiumkv.Sst.Crc.{crc32c}
use elysiumkv.Sst.Format.{put_fixed32, put_fixed64, decode_fixed32, decode_fixed64, le_bytes}
use elysiumkv.Sst.Format.Fixed.{
  length-le_bytes, decode_fixed32-put_fixed32, decode_fixed64-put_fixed64,
}
use elysiumkv.Sst.Footer.{BlockHandle, Footer, magic, put_handle, footer_body, handle_at, footer_at}

pub record HandleFits (h : BlockHandle) : Type 0 where
  pub offset : h.offset < 2 ^ 64
  pub length : h.length < 2 ^ 32

pub record FooterFits (f : Footer) : Type 0 where
  pub filter : HandleFits f.filter
  pub index : HandleFits f.index
  pub num_entries : f.num_entries < 2 ^ 64
  pub range_del : HandleFits f.range_del

pub read32 : (v : ℕ) (rest : Bytes) → v < 2 ^ 32 → decode_fixed32 (le_bytes 4 v ++ rest) ≡ v
read32 v rest h = unfold put_fixed32 in decode_fixed32-put_fixed32 v rest h

pub read64 : (v : ℕ) (rest : Bytes) → v < 2 ^ 64 → decode_fixed64 (le_bytes 8 v ++ rest) ≡ v
read64 v rest h = unfold put_fixed64 in decode_fixed64-put_fixed64 v rest h

-- The bytes of a handle.
pub handle_bytes : BlockHandle → Bytes
handle_bytes h = le_bytes 8 h.offset ++ le_bytes 4 h.length

pub put_handle-bytes : (out : Bytes) (h : BlockHandle) → put_handle out h ≡ out ++ handle_bytes h
unfolding put_handle put_fixed32 put_fixed64 handle_bytes
put_handle-bytes out h = append_assoc out (le_bytes 8 h.offset) (le_bytes 4 h.length)

pub length-handle_bytes : (h : BlockHandle) → length (handle_bytes h) ≡ 12
unfolding handle_bytes
length-handle_bytes h = omega (
  arith,
  length-append {0} (le_bytes 8 h.offset) (le_bytes 4 h.length),
  length-le_bytes 8 h.offset,
  length-le_bytes 4 h.length,
)

pub handle_at-bytes :
    (h : BlockHandle) (rest : Bytes) → HandleFits h → handle_at (handle_bytes h ++ rest) ≡ h
unfolding handle_at handle_bytes
handle_at-bytes h rest fits =
    rw (append_assoc (le_bytes 8 h.offset) (le_bytes 4 h.length) rest)
      (λ i. record { offset = offset i; length = size i })
  where
    offset : decode_fixed64 (le_bytes 8 h.offset ++ (le_bytes 4 h.length ++ rest)) ≡ h.offset
    offset = read64 h.offset _ fits.offset

    size : decode_fixed32 (drop 8 (le_bytes 8 h.offset ++ (le_bytes 4 h.length ++ rest))) ≡ h.length
    size =
        ap decode_fixed32
          (drop-append_at 8 (le_bytes 8 h.offset) _ (sym (length-le_bytes 8 h.offset)))
        ∙ read32 h.length rest fits.length

-- The first 32 bytes of every footer, and what follows them.
pub base_bytes : Footer → Bytes → Bytes
base_bytes f rest =
    handle_bytes f.filter ++ (handle_bytes f.index ++ (le_bytes 8 f.num_entries ++ rest))

module _ (f : Footer) (rest : Bytes) where
  pub drop_index :
      drop 12 (base_bytes f rest) ≡ handle_bytes f.index ++ (le_bytes 8 f.num_entries ++ rest)
  unfolding base_bytes
  drop_index = drop-append_at 12 (handle_bytes f.filter) _ (sym (length-handle_bytes f.filter))

  pub drop_entries : drop 24 (base_bytes f rest) ≡ le_bytes 8 f.num_entries ++ rest
  unfolding base_bytes
  drop_entries =
      ap (drop 24) (sym (append_assoc (handle_bytes f.filter) (handle_bytes f.index) _))
      ∙ drop-append_at 24 (handle_bytes f.filter ++ handle_bytes f.index) _ (
          omega (
            arith,
            length-append {0} (handle_bytes f.filter) (handle_bytes f.index),
            length-handle_bytes f.filter,
            length-handle_bytes f.index,
          ))

  pub drop_base : drop 32 (base_bytes f rest) ≡ rest
  drop_base =
      drop_split 24 8 32 (base_bytes f rest) (omega arith)
      ∙ ap (drop 8) drop_entries
      ∙ drop-append_at 8 (le_bytes 8 f.num_entries) rest (sym (length-le_bytes 8 f.num_entries))

  pub length-base_bytes : length (base_bytes f rest) ≡ 32 + length rest
  unfolding base_bytes
  length-base_bytes = omega (
    arith,
    length-append {0} (handle_bytes f.filter)
        (handle_bytes f.index ++ (le_bytes 8 f.num_entries ++ rest)),
    length-append {0} (handle_bytes f.index) (le_bytes 8 f.num_entries ++ rest),
    length-append {0} (le_bytes 8 f.num_entries) rest,
    length-handle_bytes f.filter,
    length-handle_bytes f.index,
    length-le_bytes 8 f.num_entries,
  )

-- The invariant trailer.
unfoldable pub ending : ℕ → Bytes
ending version = le_bytes 4 version ++ le_bytes 8 magic

pub length-ending : (version : ℕ) → length (ending version) ≡ 12
unfolding ending
length-ending version = omega (
  arith,
  length-append {0} (le_bytes 4 version) (le_bytes 8 magic),
  length-le_bytes 4 version,
  length-le_bytes 8 magic,
)

abbrev pub no_handle : BlockHandle
no_handle = record { offset = 0; length = 0 }

pub handle_at-base_bytes :
    (f : Footer) (rest : Bytes) → FooterFits f → handle_at (base_bytes f rest) ≡ f.filter
unfolding base_bytes
handle_at-base_bytes f rest fits = handle_at-bytes f.filter _ fits.filter

-- The fields, behind the ones that every version has.
pub footer_at-base_bytes :
    (f : Footer) (rest : Bytes) (version : ℕ) (range : BlockHandle) (crc : ℕ)
    → FooterFits f
    → (if leb 2 version then handle_at rest else no_handle) ≡ range
    → (if leb 3 version then decode_fixed32 (drop 12 rest) else 0) ≡ crc
    → footer_at version (base_bytes f rest) ≡ record {
      filter = f.filter;
      index = f.index;
      num_entries = f.num_entries;
      format_version = version;
      range_del = range;
      crc = crc;
    }
unfolding footer_at
footer_at-base_bytes f rest version range crc fits is_range is_crc = λ i. record {
  filter = first i;
  index = second i;
  num_entries = entries i;
  format_version = version;
  range_del = ranges i;
  crc = checks i;
}
  where
    first : handle_at (base_bytes f rest) ≡ f.filter
    first = handle_at-base_bytes f rest fits

    second : handle_at (drop 12 (base_bytes f rest)) ≡ f.index
    second = ap handle_at (drop_index f rest) ∙ handle_at-bytes f.index _ fits.index

    entries : decode_fixed64 (drop 24 (base_bytes f rest)) ≡ f.num_entries
    entries = ap decode_fixed64 (drop_entries f rest) ∙ read64 f.num_entries rest fits.num_entries

    ranges : (if leb 2 version then handle_at (drop 32 (base_bytes f rest)) else no_handle) ≡ range
    ranges = rw (drop_base f rest) is_range

    checks : (if leb 3 version then decode_fixed32 (drop 44 (base_bytes f rest)) else 0) ≡ crc
    checks = rw (drop_split 32 12 44 (base_bytes f rest) (omega arith), drop_base f rest) is_crc

-- Bytes behind the base are bytes behind the footer's start.
pub base_bytes-append :
    (f : Footer) (xs ys : Bytes) → base_bytes f xs ++ ys ≡ base_bytes f (xs ++ ys)
unfolding base_bytes
base_bytes-append f xs ys =
    rw
      (
        append_assoc (handle_bytes f.filter)
            (handle_bytes f.index ++ (le_bytes 8 f.num_entries ++ xs)) ys,
        append_assoc (handle_bytes f.index) (le_bytes 8 f.num_entries ++ xs) ys,
        append_assoc (le_bytes 8 f.num_entries) xs ys,
      )
      refl

-- What `decode` keeps of a footer: the fields its version has, the checksum computed.
unfoldable pub kept : Footer → Footer
kept f = record {
  filter = f.filter;
  index = f.index;
  num_entries = f.num_entries;
  format_version = f.format_version;
  range_del = if leb 2 f.format_version then f.range_del else no_handle;
  crc = if leb 3 f.format_version then crc32c (footer_body f) else 0;
}

-- The part every version has.
pub base_body :
    (f : Footer)
    → put_fixed64 (put_handle (put_handle [] f.filter) f.index) f.num_entries ≡ base_bytes f []
unfolding put_fixed64 base_bytes
base_body f =
    rw
      (
        put_handle-bytes [] f.filter,
        put_handle-bytes (handle_bytes f.filter) f.index,
        append-nil (le_bytes 8 f.num_entries),
        append_assoc (handle_bytes f.filter) (handle_bytes f.index) (le_bytes 8 f.num_entries),
      )
      refl
