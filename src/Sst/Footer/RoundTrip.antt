-- ===== src/Sst/Footer/RoundTrip.antt =====
-- A footer of a known version is read back, from the end of any file.
use elysiumkv.Base.{
  ℕ, ◌+◌, ◌-◌, ◌^◌, ◌<◌, ◌≡◌, ◌≢◌, refl, sym, ap, ◌∙◌, Bool, true, false, not, [], ◌++◌, leb, ◌==◌,
  if◌then◌else◌, length, take, drop, arith, append_assoc, append-nil, length-append, drop-append_at,
  take-append_at,
}
use elysiumkv.Status.{Status, value, unexpected}
use elysiumkv.Slice.{Bytes}
use elysiumkv.Sst.Crc.{crc32c, crc32c-lt}
use elysiumkv.Sst.Format.{put_fixed32, put_fixed64, decode_fixed32, le_bytes}
use elysiumkv.Sst.Format.Fixed.{length-le_bytes}
use elysiumkv.Sst.Footer.{
  BlockHandle, Footer, magic, trailer_length, put_handle, footer_body, encode, footer_width,
  handle_at, footer_at, check_crc, decode,
}
use elysiumkv.Sst.Footer.Fields.{
  HandleFits, FooterFits, read32, handle_bytes, put_handle-bytes, length-handle_bytes,
  handle_at-bytes, base_bytes, length-base_bytes, ending, length-ending, no_handle,
  footer_at-base_bytes, base_bytes-append, kept, base_body,
}
use elysiumkv.Sst.Footer.Trailer.{decode_found}

-- Bytes that are appended only under a test.
append_if :
    (b : Bool) (xs more : Bytes) → (if b then xs ++ more else xs) ≡ xs ++ (if b then more else [])
append_if true xs more = refl
append_if false xs more = sym (append-nil xs)

-- What versions 2 and 3 add to the body, and version 3 behind it.
range_tail : Footer → Bytes
range_tail f = if leb 2 f.format_version then handle_bytes f.range_del else []

crc_tail : Footer → Bytes
crc_tail f = if leb 3 f.format_version then le_bytes 4 (crc32c (footer_body f)) else []

footer_body-bytes : (f : Footer) → footer_body f ≡ base_bytes f (range_tail f)
unfolding footer_body range_tail
footer_body-bytes f =
    rw
      (put_handle-bytes (put_fixed64 (put_handle (put_handle [] f.filter) f.index) f.num_entries)
        f.range_del)
      (append_if (leb 2 f.format_version) _ (handle_bytes f.range_del))
    ∙ ap (λ t. t ++ range_tail f) (base_body f)
    ∙ base_bytes-append f [] (range_tail f)

encode-bytes : (f : Footer) → encode f ≡ (footer_body f ++ crc_tail f) ++ ending f.format_version
unfolding encode put_fixed32 put_fixed64 crc_tail ending
encode-bytes f =
    append_assoc _ (le_bytes 4 f.format_version) (le_bytes 8 magic)
    ∙ ap (λ t. t ++ (le_bytes 4 f.format_version ++ le_bytes 8 magic))
        (append_if (leb 3 f.format_version) (footer_body f) _)

-- What stands behind the base of a whole footer.
footer_rest : Footer → Bytes
footer_rest f = range_tail f ++ (crc_tail f ++ ending f.format_version)

encode-base_bytes :
    (f : Footer)
    → (footer_body f ++ crc_tail f) ++ ending f.format_version ≡ base_bytes f (footer_rest f)
unfolding footer_rest
encode-base_bytes f =
    append_assoc (footer_body f) (crc_tail f) (ending f.format_version)
    ∙ ap (λ t. t ++ (crc_tail f ++ ending f.format_version)) (footer_body-bytes f)
    ∙ base_bytes-append f (range_tail f) _

length-range_tail :
    (f : Footer) → length (range_tail f) ≡ (if leb 2 f.format_version then 12 else 0)
unfolding range_tail
length-range_tail f = ground (arith, length-handle_bytes f.range_del)

length-crc_tail : (f : Footer) → length (crc_tail f) ≡ (if leb 3 f.format_version then 4 else 0)
unfolding crc_tail
length-crc_tail f = ground (arith, length-le_bytes 4 (crc32c (footer_body f)))

length-footer_body : (f : Footer) → length (footer_body f) ≡ 32 + length (range_tail f)
length-footer_body f = ap (length {0}) (footer_body-bytes f) ∙ length-base_bytes f (range_tail f)

-- The versions that are known.
pub data IsKnown : ℕ → Type 0 where
  v1 : IsKnown 1
  v2 : IsKnown 2
  v3 : IsKnown 3

known-width : (version : ℕ) → IsKnown version → footer_width version ≢ 0
unfolding footer_width
known-width _ v1 = λ e. omega arith
known-width _ v2 = λ e. omega arith
known-width _ v3 = λ e. omega arith

version-lt : (version : ℕ) → IsKnown version → version < 2 ^ 32
version-lt _ v1 = omega arith
version-lt _ v2 = omega arith
version-lt _ v3 = omega arith

width_of :
    (version : ℕ)
    → IsKnown version
    → footer_width version
      ≡ 44 + (if leb 2 version then 12 else 0) + (if leb 3 version then 4 else 0)
unfolding footer_width
width_of _ v1 = refl
width_of _ v2 = refl
width_of _ v3 = refl

length-encode :
    (f : Footer)
    → IsKnown f.format_version
    → length ((footer_body f ++ crc_tail f) ++ ending f.format_version)
      ≡ footer_width f.format_version
length-encode f known = omega (
  arith,
  width_of f.format_version known,
  length-append {0} (footer_body f ++ crc_tail f) (ending f.format_version),
  length-append {0} (footer_body f) (crc_tail f),
  length-footer_body f,
  length-range_tail f,
  length-crc_tail f,
  length-ending f.format_version,
)

range_read :
    (b : Bool) (h : BlockHandle) (rest : Bytes)
    → HandleFits h
    → (if b then handle_at ((if b then handle_bytes h else []) ++ rest) else no_handle)
      ≡ (if b then h else no_handle)
range_read true h rest fits = handle_at-bytes h rest fits
range_read false h rest fits = refl

crc_read :
    (b c : Bool) (h : BlockHandle) (n : ℕ) (rest : Bytes)
    → (c ≡ true → b ≡ true)
    → n < 2 ^ 32
    → (if c
        then decode_fixed32 (
            drop 12
              ((if b then handle_bytes h else []) ++ ((if c then le_bytes 4 n else []) ++ rest)))
        else 0)
      ≡ (if c then n else 0)
crc_read true true h n rest both small =
    ap decode_fixed32 (drop-append_at 12 (handle_bytes h) _ (sym (length-handle_bytes h)))
    ∙ read32 n rest small
crc_read false true h n rest both small = ground (arith, both refl)
crc_read b false h n rest both small = refl

footer_at-encode :
    (f : Footer) → FooterFits f → footer_at f.format_version (base_bytes f (footer_rest f)) ≡ kept f
unfolding kept footer_rest range_tail crc_tail
footer_at-encode f fits =
    footer_at-base_bytes f (footer_rest f) f.format_version _ _ fits
      (range_read (leb 2 f.format_version) f.range_del _ fits.range_del)
      (crc_read (leb 2 f.format_version) (leb 3 f.format_version) f.range_del
        (crc32c (footer_body f)) (ending f.format_version) (λ e. ground arith)
        (crc32c-lt (footer_body f)))

-- The checksum that was computed over the body is the one the body has.
checksum_passes :
    (c : Bool) (n : ℕ) (p body : Bytes) (f : Footer)
    → (c ≡ true → take n p ≡ body)
    → (if c
        then (if not (crc32c (take n p) == (if c then crc32c body else 0))
            then unexpected Status.corrupt
            else value f)
        else value f)
      ≡ value f
checksum_passes true n p body f same = rw (same refl) (ground arith)
checksum_passes false n p body f same = refl

body_taken :
    (f : Footer)
    → IsKnown f.format_version
    → leb 3 f.format_version ≡ true
    → take
        (footer_width f.format_version - trailer_length - 4)
        ((footer_body f ++ crc_tail f) ++ ending f.format_version)
      ≡ footer_body f
body_taken f known three =
    ap (take (footer_width f.format_version - trailer_length - 4))
      (append_assoc (footer_body f) (crc_tail f) (ending f.format_version))
    ∙ take-append_at _ (footer_body f) _
        (ground (arith, length-footer_body f, length-range_tail f, width_of f.format_version known))

check_crc-encode :
    (f : Footer)
    → IsKnown f.format_version
    → check_crc f.format_version
        (footer_width f.format_version - trailer_length - 4)
        ((footer_body f ++ crc_tail f) ++ ending f.format_version)
        (kept f)
      ≡ value (kept f)
unfolding check_crc kept
check_crc-encode f known =
    checksum_passes (leb 3 f.format_version) _ _ (footer_body f) (kept f) (body_taken f known)

-- Take a footer of version 1, 2 or 3 whose offsets and counts are below 2 ^ 64 and whose lengths
-- are below 2 ^ 32. `decode`, run on any bytes followed by the encoding of that footer, gives the
-- footer back: with an empty range handle when the version is 1, and with the checksum of its
-- body as `crc` when the version is 3, and 0 as `crc` before that.
pub decode-encode :
    (front : Bytes) (f : Footer)
    → IsKnown f.format_version
    → FooterFits f
    → decode (front ++ encode f) ≡ value (kept f)
decode-encode front f known fits =
    ap (λ t. decode (front ++ t)) (encode-bytes f)
    ∙ decode_found front (footer_body f ++ crc_tail f) f.format_version
        (version-lt f.format_version known) (known-width f.format_version known)
        (length-encode f known)
    ∙ ap
        (check_crc f.format_version (footer_width f.format_version - trailer_length - 4)
          ((footer_body f ++ crc_tail f) ++ ending f.format_version))
        (ap (footer_at f.format_version) (encode-base_bytes f) ∙ footer_at-encode f fits)
    ∙ check_crc-encode f known
