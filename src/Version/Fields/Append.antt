-- ===== src/Version/Fields/Append.antt =====
-- Every writer of a field appends bytes that its reader reads back.
use elysiumkv.Base.{
  ℕ, ◌^◌, ◌≤◌, ◌<◌, ◌≡◌, refl, sym, ◌∙◌, List, [], ◌∷◌, ◌++◌, Option, some, length, arith,
  append_assoc, append-nil, take-append_at, drop-append_at, length-append, All,
}
use elysiumkv.Slice.{Bytes}
use elysiumkv.Sst.Codec.{Compression}
use elysiumkv.Sst.Format.{put_varint64, get_varint64}
use elysiumkv.Sst.Format.Varint.{put_varint64-groups, get_varint64-groups, groups}
use elysiumkv.Sst.Framing.{compression_byte, compression_of}
use elysiumkv.Version.Fields.{
  put_string, get_string, max_levels, get_level, get_compression, put_each, get_each, put_counted,
  get_counted,
}

-- What `put` appends for `a`, and that `get` reads it back and leaves what follows.
pub record IsReadBack {A : Type 0} (put : Bytes → A → Bytes) (get : Bytes → Option (A × Bytes))
    (a : A) : Type 0 where
  pub bytes : Bytes
  pub written : (out : Bytes) → put out a ≡ out ++ bytes
  pub read : (rest : Bytes) → get (bytes ++ rest) ≡ some (a, rest)

abbrev pub IsU64 : ℕ → Type 0
IsU64 v = v < 2 ^ 64

pub varint64-IsReadBack : (v : ℕ) → IsU64 v → IsReadBack put_varint64 get_varint64 v
varint64-IsReadBack v h = record {
  bytes = groups 9 v;
  written = λ out. put_varint64-groups out v h;
  read = λ rest. get_varint64-groups v rest h;
}

pub level-IsReadBack : (v : ℕ) → v ≤ max_levels → IsReadBack put_varint64 get_level v
unfolding get_level
level-IsReadBack v h =
    let number = varint64-IsReadBack v (omega arith) in
    record {
      bytes = number.bytes;
      written = number.written;
      read = λ rest. rw (number.read rest) (ground arith);
    }

abbrev pub put_compression : Bytes → Compression → Bytes
put_compression out k = put_varint64 out (compression_byte k)

pub compression-IsReadBack : (k : Compression) → IsReadBack put_compression get_compression k
unfolding get_compression compression_of compression_byte
compression-IsReadBack Compression.none =
    let number = varint64-IsReadBack 0 (omega arith) in
    record { bytes = number.bytes; written = number.written; read = λ rest. rw (number.read rest) }
compression-IsReadBack Compression.lz4 =
    let number = varint64-IsReadBack 1 (omega arith) in
    record { bytes = number.bytes; written = number.written; read = λ rest. rw (number.read rest) }
compression-IsReadBack Compression.zstd =
    let number = varint64-IsReadBack 2 (omega arith) in
    record { bytes = number.bytes; written = number.written; read = λ rest. rw (number.read rest) }

pub string-IsReadBack : (s : Bytes) → IsU64 (length s) → IsReadBack put_string get_string s
unfolding put_string get_string
string-IsReadBack s h =
    let size = varint64-IsReadBack (length s) h in
    record {
      bytes = size.bytes ++ s;
      written = λ out. rw (size.written out) (append_assoc out size.bytes s);
      read = λ rest. rw (append_assoc size.bytes s rest) (
          rw (size.read (s ++ rest)) (
            ground (
              arith,
              length-append {0} s rest,
              take-append_at {0} (length s) s rest,
              drop-append_at {0} (length s) s rest,
            )));
    }

module _ {A : Type 0} (put : Bytes → A → Bytes) (get : Bytes → Option (A × Bytes)) where
  pub each-IsReadBack :
      (items : List A)
      → All (IsReadBack put get) items
      → IsReadBack (put_each put) (get_each get (length items)) items
  unfolding put_each get_each
  each-IsReadBack [] h = record {
    bytes = [];
    written = λ out. sym (append-nil out);
    read = λ rest. refl;
  }
  each-IsReadBack (a ∷ items) (first, h) =
      let others = each-IsReadBack items h in
      record {
        bytes = first.bytes ++ others.bytes;
        written = λ out.
            rw (first.written out) (others.written _) ∙ append_assoc out first.bytes others.bytes;
        read =
            λ rest. rw (append_assoc first.bytes others.bytes rest, first.read _, others.read rest);
      }

  pub counted-IsReadBack :
      (items : List A)
      → IsU64 (length items)
      → All (IsReadBack put get) items
      → IsReadBack (put_counted put) (get_counted get) items
  unfolding put_counted get_counted
  counted-IsReadBack items fits h =
      let count = varint64-IsReadBack (length items) fits in
      let others = each-IsReadBack items h in
      record {
        bytes = count.bytes ++ others.bytes;
        written = λ out.
            rw (count.written out) (others.written _) ∙ append_assoc out count.bytes others.bytes;
        read = λ rest.
            rw (append_assoc count.bytes others.bytes rest, count.read _) (others.read rest);
      }
