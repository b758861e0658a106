-- ===== src/Sst/Footer.antt =====
-- src/sst/footer.hpp and footer.cpp: the footer of a table, found from its end.
pub mod Fields
pub mod Trailer
pub mod RoundTrip
use elysiumkv.Base.{
  ℕ, zero, suc, ◌+◌, ◌-◌, Bool, true, false, not, List, [], ◌∷◌, ◌++◌, ltb, leb, ◌==◌,
  if◌then◌else◌, length, take, drop,
}
use elysiumkv.Status.{Status, Result, value, unexpected}
use elysiumkv.Slice.{Bytes}
use elysiumkv.Sst.Crc.{crc32c}
use elysiumkv.Sst.Format.{put_fixed32, put_fixed64, decode_fixed32, decode_fixed64}

pub record BlockHandle : Type 0 where
  pub offset : ℕ
  pub length : ℕ

pub record Footer : Type 0 where
  pub filter : BlockHandle
  pub index : BlockHandle
  pub num_entries : ℕ
  pub format_version : ℕ
  pub range_del : BlockHandle
  pub crc : ℕ

abbrev pub magic : ℕ
magic = 0x454C595349554D31

abbrev pub trailer_length : ℕ
trailer_length = 12

unfoldable pub put_handle : Bytes → BlockHandle → Bytes
put_handle out h = put_fixed32 (put_fixed64 out h.offset) h.length

-- The part of the footer that the checksum covers.
unfoldable pub footer_body : Footer → Bytes
footer_body f =
    let base = put_fixed64 (put_handle (put_handle [] f.filter) f.index) f.num_entries in
    if leb 2 f.format_version then put_handle base f.range_del else base

unfoldable pub encode : Footer → Bytes
encode f =
    let body = footer_body f in
    let checked = if leb 3 f.format_version then put_fixed32 body (crc32c body) else body in
    put_fixed64 (put_fixed32 checked f.format_version) magic

-- The footer's length for a version; 0 for a version that is not known.
unfoldable pub footer_width : ℕ → ℕ
footer_width version =
    if version == 1 then 44 else if version == 2 then 56 else if version == 3 then 60 else 0

unfoldable pub footer_length_from_trailer : Bytes → Result ℕ
unfolding footer_width
footer_length_from_trailer trailer =
    if ltb (length trailer) trailer_length
    then unexpected Status.corrupt
    else let p = drop (length trailer - trailer_length) trailer in
      if not (decode_fixed64 (drop 4 p) == magic)
      then unexpected Status.corrupt
      else if footer_width (decode_fixed32 p) == 0
      then unexpected Status.unsupported
      else value (footer_width (decode_fixed32 p))

unfoldable pub handle_at : Bytes → BlockHandle
handle_at p = record { offset = decode_fixed64 p; length = decode_fixed32 (drop 8 p) }

-- The fields, from the first byte of the footer.
unfoldable pub footer_at : ℕ → Bytes → Footer
footer_at version p = record {
  filter = handle_at p;
  index = handle_at (drop 12 p);
  num_entries = decode_fixed64 (drop 24 p);
  format_version = version;
  range_del = if leb 2 version then handle_at (drop 32 p) else record { offset = 0; length = 0 };
  crc = if leb 3 version then decode_fixed32 (drop 44 p) else 0;
}

-- The checksum of a version that has one: `body` is what precedes it.
unfoldable pub check_crc : ℕ → ℕ → Bytes → Footer → Result Footer
check_crc version body p f =
    if leb 3 version
    then if not (crc32c (take body p) == f.crc) then unexpected Status.corrupt else value f
    else value f

unfoldable pub decode_width : ℕ → ℕ → Bytes → Result Footer
decode_width version width bytes =
    if width == 0
    then unexpected Status.unsupported
    else if ltb (length bytes) width
    then unexpected Status.corrupt
    else let p = drop (length bytes - width) bytes in
      check_crc version (width - trailer_length - 4) p (footer_at version p)

unfoldable pub decode : Bytes → Result Footer
decode bytes =
    if ltb (length bytes) trailer_length
    then unexpected Status.corrupt
    else let trailer = drop (length bytes - trailer_length) bytes in
      if not (decode_fixed64 (drop 4 trailer) == magic)
      then unexpected Status.corrupt
      else decode_width (decode_fixed32 trailer) (footer_width (decode_fixed32 trailer)) bytes
