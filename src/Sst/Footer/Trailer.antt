-- ===== src/Sst/Footer/Trailer.antt =====
-- The trailer: how `decode` finds a footer from the end of a file.
use elysiumkv.Base.{
  ℕ, ◌-◌, ◌^◌, ◌≤◌, ◌<◌, ◌≡◌, ◌≢◌, sym, ap, ◌∙◌, [], ◌++◌, length, drop, arith, append_assoc,
  append-nil, length-append, drop-append_at, drop_last,
}
use elysiumkv.Slice.{Bytes}
use elysiumkv.Sst.Format.{decode_fixed32, decode_fixed64, le_bytes}
use elysiumkv.Sst.Format.Fixed.{length-le_bytes}
use elysiumkv.Sst.Footer.{
  magic, trailer_length, footer_width, footer_at, check_crc, decode_width, decode,
}
use elysiumkv.Sst.Footer.Fields.{read32, read64, ending, length-ending}

pub last_magic : (version : ℕ) → decode_fixed64 (drop 4 (ending version)) ≡ magic
unfolding ending
last_magic version =
    ap decode_fixed64 (drop-append_at 4 (le_bytes 4 version) _ (sym (length-le_bytes 4 version)))
    ∙ ap decode_fixed64 (sym (append-nil (le_bytes 8 magic)))
    ∙ read64 magic [] (omega arith)

pub first_version : (version : ℕ) → version < 2 ^ 32 → decode_fixed32 (ending version) ≡ version
unfolding ending
first_version version small = read32 version _ small

-- What `decode` does when the trailer is found.
pub decode-trailer :
    (bytes trailer : Bytes) (version : ℕ)
    → 12 ≤ length bytes
    → drop (length bytes - 12) bytes ≡ trailer
    → decode_fixed64 (drop 4 trailer) ≡ magic
    → decode_fixed32 trailer ≡ version
    → decode bytes ≡ decode_width version (footer_width version) bytes
unfolding decode
decode-trailer bytes trailer version long found is_magic is_version =
    rw (found, is_version) (ground arith)

pub decode_width-found :
    (bytes footer : Bytes) (version width : ℕ)
    → width ≢ 0
    → width ≤ length bytes
    → drop (length bytes - width) bytes ≡ footer
    → decode_width version width bytes
      ≡ check_crc version (width - trailer_length - 4) footer (footer_at version footer)
unfolding decode_width
decode_width-found bytes footer version width known long found = rw found (ground arith)

-- A file that ends in a footer of the right width is decoded from that footer alone.
pub decode_found :
    (front body : Bytes) (version : ℕ)
    → version < 2 ^ 32
    → footer_width version ≢ 0
    → length (body ++ ending version) ≡ footer_width version
    → decode (front ++ (body ++ ending version))
      ≡ check_crc version
          (footer_width version - trailer_length - 4)
          (body ++ ending version)
          (footer_at version (body ++ ending version))
decode_found front body version small known width =
    decode-trailer (front ++ (body ++ ending version)) (ending version) version
      (omega (
        arith,
        length-append {0} front (body ++ ending version),
        length-append {0} body (ending version),
        length-ending version,
      ))
      (ap (λ t. drop (length t - 12) t) (sym (append_assoc front body (ending version)))
        ∙ drop_last 12 (front ++ body) (ending version) (length-ending version))
      (last_magic version) (first_version version small)
    ∙ decode_width-found (front ++ (body ++ ending version)) (body ++ ending version) version
        (footer_width version) known
        (omega (arith, length-append {0} front (body ++ ending version)))
        (drop_last (footer_width version) front (body ++ ending version) width)
