-- ===== src/Sst/Framing/RoundTrip.antt =====
-- Unframing gives back the content that was framed.
use elysiumkv.Base.{
  ℕ, ◌+◌, ◌-◌, ◌^◌, ◌≤◌, ◌<◌, ◌≡◌, refl, sym, ap, ◌∙◌, [], ◌∷◌, ◌++◌, Option, none, some, length,
  take, drop, get_or, length-append, take-append_at, drop-append_at, get_or-append_at, append_assoc,
  append-nil, arith,
}
use elysiumkv.Status.{value}
use elysiumkv.Slice.{Bytes}
use elysiumkv.Sst.Codec.{Compression}
use elysiumkv.Sst.Crc.{crc32c, crc32c-lt}
use elysiumkv.Sst.Format.{put_fixed32, decode_fixed32, le_bytes}
use elysiumkv.Sst.Format.Fixed.{length-le_bytes, decode_fixed32-put_fixed32}
use elysiumkv.Sst.Framing.{
  compression_byte, compression_of, Codecs, AreLossless, compress_lz4, pack, stored, trailer,
  frame_block, exactly, unpack, unpack_known, unframe_block,
}

decode-le_bytes : (v : ℕ) (rest : Bytes) → v < 2 ^ 32 → decode_fixed32 (le_bytes 4 v ++ rest) ≡ v
decode-le_bytes v rest h = unfold put_fixed32 in decode_fixed32-put_fixed32 v rest h

module _ (c : Codecs) where
  -- Once the parts of a framed block are found, only the checks on them are left.
  unframe_parts :
      (raw : Bytes) (max : ℕ) (covered payload : Bytes) (code size : ℕ)
      → 9 ≤ length raw
      → take (length raw - 4) raw ≡ covered
      → decode_fixed32 (drop (length raw - 4) raw) ≡ crc32c covered
      → get_or raw (length raw - 4 - 1) 0 ≡ code
      → take (length raw - 9) raw ≡ payload
      → decode_fixed32 (drop (length raw - 4 - 5) raw) ≡ size
      → unframe_block c raw max ≡ unpack_known c (compression_of code) payload size max
  unfolding unframe_block
  unframe_parts raw max covered payload code size long e1 e2 e3 e4 e5 =
      unframe_lem
      ∙ ap
          (λ t.
            unpack_known c (compression_of t) (take (length raw - 9) raw)
              (decode_fixed32 (drop (length raw - 4 - 5) raw)) max)
          e3
      ∙ ap
          (λ t.
            unpack_known c (compression_of code) t (decode_fixed32 (drop (length raw - 4 - 5) raw))
              max)
          e4
      ∙ ap (λ t. unpack_known c (compression_of code) payload t max) e5
    where
      unframe_lem :
          unframe_block c raw max
          ≡ unpack_known c
              (compression_of (get_or raw (length raw - 4 - 1) 0))
              (take (length raw - 9) raw)
              (decode_fixed32 (drop (length raw - 4 - 5) raw))
              max
      unframe_lem = ground (arith, ap crc32c e1, e2)

  -- The trailer is found again at its fixed distance from the end.
  unframe-trailer :
      (payload : Bytes) (codec : Compression) (size max : ℕ)
      → size < 2 ^ 32
      → unframe_block c (trailer c payload codec size) max
        ≡ unpack_known c (some codec) payload size max
  unfolding trailer put_fixed32
  unframe-trailer payload codec size max fits = rw (← known codec) (
      unframe_parts framed max covered payload (compression_byte codec) size
        (omega (arith, size_framed, size_covered))
        (take-append_at _ covered check (omega (arith, size_framed)))
        (ap decode_fixed32
            (drop-append_at _ covered check (omega (arith, size_framed)) ∙ sym (append-nil check))
          ∙ decode-le_bytes (crc32c covered) [] (crc32c-lt covered))
        (ap (λ t. get_or t (length framed - 4 - 1) 0) (append_assoc header _ check)
          ∙ get_or-append_at _ header check (compression_byte codec) 0
              (omega (arith, size_framed, size_covered)))
        (ap (λ t. take (length framed - 9) t) from_payload
          ∙ take-append_at _ payload _ (omega (arith, size_framed, size_covered)))
        (ap (λ t. decode_fixed32 (drop (length framed - 4 - 5) t)) from_payload
          ∙ ap decode_fixed32
              (drop-append_at _ payload _ (omega (arith, size_framed, size_covered)))
          ∙ decode-le_bytes size _ fits))
    where
      header : Bytes
      header = payload ++ le_bytes 4 size

      covered : Bytes
      covered = header ++ (compression_byte codec ∷ [])

      check : Bytes
      check = le_bytes 4 (crc32c covered)

      framed : Bytes
      framed = covered ++ check

      size_framed : length framed ≡ length covered + 4
      size_framed =
          omega (arith, length-append {0} covered check, length-le_bytes 4 (crc32c covered))

      size_covered : (length covered ≡ length payload + 5) × (length header ≡ length payload + 4)
      size_covered = omega (
        arith,
        length-append {0} header (compression_byte codec ∷ []),
        length-append {0} payload (le_bytes 4 size),
        length-le_bytes 4 size,
      )

      from_payload :
          framed ≡ payload ++ (le_bytes 4 size ++ ((compression_byte codec ∷ []) ++ check))
      from_payload =
          append_assoc header _ check
          ∙ append_assoc payload (le_bytes 4 size) ((compression_byte codec ∷ []) ++ check)

      known : (k : Compression) → compression_of (compression_byte k) ≡ some k
      known Compression.none = unfold compression_of compression_byte in refl
      known Compression.lz4 = unfold compression_of compression_byte in refl
      known Compression.zstd = unfold compression_of compression_byte in refl

  -- What was packed and recorded unpacks, whether or not it was kept raw.
  unpack-stored :
      (codec : Compression) (content payload : Bytes) (max : ℕ)
      → AreLossless c
      → length content ≤ max
      → pack c codec content ≡ some payload
      → unpack_known c
          (some (stored c codec content payload).1)
          (stored c codec content payload).0
          (length content)
          max
        ≡ value content
  unfolding pack stored unpack_known unpack exactly compress_lz4
  unpack-stored Compression.none content payload max ok bound packed = ground arith
  unpack-stored Compression.lz4 content payload max ok bound packed =
      ground (arith, ok.lz4 content payload, ok.lz4_input_fits)
  unpack-stored Compression.zstd content payload max ok bound packed =
      ground (arith, ok.zstd content payload)

  -- When `frame_block` succeeds, what it appended to `out` is a block that unframes to the content,
  -- for every codec and for contents within the reader's bound, where the compressors are lossless.
  pub unframe_block-frame_block :
      (content : Bytes) (codec : Compression) (out framed : Bytes) (max : ℕ)
      → AreLossless c
      → length content ≤ max
      → frame_block c content codec out ≡ value framed
      → (block : Bytes) × (framed ≡ out ++ block) × (unframe_block c block max ≡ value content)
  unfolding frame_block
  unframe_block-frame_block content codec out framed max ok bound done =
      go (pack c codec content) refl
    where
      kept : Bytes → Bytes × Compression
      kept payload = stored c codec content payload

      go :
          (p : Option Bytes)
          → pack c codec content ≡ p
          → (block : Bytes) × (framed ≡ out ++ block) × (unframe_block c block max ≡ value content)
      go none e = absurd (ground arith)
      go (some payload) e = (
        trailer c (kept payload).0 (kept payload).1 (length content),
        ground arith,
        unframe-trailer (kept payload).0 (kept payload).1 (length content) max (ground arith)
            ∙ unpack-stored codec content payload max ok bound e,
      )

  -- Without compression a block is always framed, up to the limit of its length field, and
  -- unframing it gives the content.
  pub unframe_block-frame_none :
      (content : Bytes) (max : ℕ)
      → length content < 2 ^ 32
      → length content ≤ max
      → (block : Bytes) × (frame_block c content Compression.none [] ≡ value block)
        × (unframe_block c block max ≡ value content)
  unfolding frame_block pack stored
  unframe_block-frame_none content max fits bound = (
    trailer c content Compression.none (length content),
    ground arith,
    unframe-trailer content Compression.none (length content) max fits
        ∙ unfold unpack_known unpack in ground arith,
  )
