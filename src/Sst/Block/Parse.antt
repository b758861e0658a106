-- ===== src/Sst/Block/Parse.antt =====
-- The bytes of one entry, and that the reader finds the entry in them.
use elysiumkv.Base.{
  ℕ, ◌-◌, ◌%◌, ◌^◌, ◌≤◌, ◌<◌, ◌≡◌, refl, sym, ap, ◌∙◌, false, [], ◌∷◌, ◌++◌, some, ◌==◌, length,
  take, drop, arith, append_assoc, append-nil, length-append, length-drop, Bool-cases, inl, inr,
  take-append_at, drop-append_at,
}
use elysiumkv.Slice.{Bytes}
use elysiumkv.Sst.Format.{put_varint32}
use elysiumkv.Sst.Format.Varint.{groups, put_varint32-groups, get_varint32-groups}
use elysiumkv.Sst.Block.{
  ValueType, type_byte, known_value_type, put_entry, entry_at, short, shared_bytes,
}

-- A deletion stores no value.
abbrev pub stored_value : ValueType → Bytes → Bytes
stored_value ValueType.delete value = []
stored_value ValueType.put value = value

unfoldable pub entry_bytes : ℕ → Bytes → ValueType → Bytes → Bytes
entry_bytes shared key type value =
    groups 4 shared
    ++ (groups 4 (length key - shared)
        ++ (type_byte type
            ∷ (groups 4 (length (stored_value type value))
                ++ (drop shared key ++ stored_value type value))))

five_parts :
    (out a b c d : Bytes) (x : ℕ)
    → ((((out ++ a) ++ b) ++ (x ∷ [])) ++ c) ++ d ≡ out ++ (a ++ (b ++ (x ∷ (c ++ d))))
five_parts out a b c d x =
    rw
      (
        append_assoc (((out ++ a) ++ b) ++ (x ∷ [])) c d,
        append_assoc ((out ++ a) ++ b) (x ∷ []) (c ++ d),
        append_assoc (out ++ a) b (x ∷ (c ++ d)),
        append_assoc out a (b ++ (x ∷ (c ++ d))),
      )
      refl

varint32_cut :
    (dst : Bytes) (v : ℕ) → v < 2 ^ 32 → put_varint32 dst (v % 2 ^ 32) ≡ dst ++ groups 4 v
varint32_cut dst v h = ap (put_varint32 dst) (omega arith) ∙ put_varint32-groups dst v h

pub put_entry-bytes :
    (out : Bytes) (shared : ℕ) (key : Bytes) (type : ValueType) (value : Bytes)
    → shared < 2 ^ 32
    → length key < 2 ^ 32
    → length value < 2 ^ 32
    → put_entry out shared key type value ≡ out ++ entry_bytes shared key type value
unfolding put_entry entry_bytes
put_entry-bytes out shared key ValueType.delete value hs hk hv =
    rw
      (
        varint32_cut out shared hs,
        varint32_cut _ (length key - shared) (omega arith),
        put_varint32-groups _ 0 (omega arith),
        append-nil (drop shared key),
      )
      (five_parts out _ _ _ (drop shared key) 0)
put_entry-bytes out shared key ValueType.put value hs hk hv =
    rw
      (
        varint32_cut out shared hs,
        varint32_cut _ (length key - shared) (omega arith),
        varint32_cut _ (length value) hv,
        append_assoc _ (drop shared key) value,
      )
      (five_parts out _ _ _ (drop shared key ++ value) 1)

known_type : (type : ValueType) → known_value_type (type_byte type) ≡ some type
known_type ValueType.delete = refl
known_type ValueType.put = refl

module _ (before : Bytes) (shared : ℕ) (key : Bytes) (type : ValueType) (value rest : Bytes) where
  entry_bytes-append :
      entry_bytes shared key type value ++ rest
      ≡ groups 4 shared
        ++ (groups 4 (length key - shared)
            ++ (type_byte type
                ∷ (groups 4 (length (stored_value type value))
                    ++ (drop shared key ++ (stored_value type value ++ rest)))))
  unfolding entry_bytes
  entry_bytes-append =
      rw
        (
          append_assoc (groups 4 shared) _ rest,
          append_assoc (groups 4 (length key - shared)) _ rest,
          append_assoc (groups 4 (length (stored_value type value))) _ rest,
          append_assoc (drop shared key) (stored_value type value) rest,
        )
        refl

  pub entry_at-bytes :
      shared ≤ length before
      → take shared before ++ drop shared key ≡ key
      → shared < 2 ^ 32
      → length key < 2 ^ 32
      → length (stored_value type value) < 2 ^ 32
      → entry_at before (entry_bytes shared key type value ++ rest)
        ≡ some (record { key = key; type = type; value = stored_value type value }, rest)
  unfolding entry_at
  entry_at-bytes within whole hs hk hv =
      rw
        (
          entry_bytes-append,
          get_varint32-groups shared _ hs,
          get_varint32-groups (length key - shared) _ (omega arith),
        )
        (rw
          (
            known_type type,
            get_varint32-groups (length (stored_value type value)) _ hv,
            take-append_at (length key - shared) (drop shared key) (stored_value type value ++ rest)
                unshared,
            drop-append_at (length key - shared) (drop shared key) (stored_value type value ++ rest)
                unshared,
            take-append_at (length (stored_value type value)) (stored_value type value) rest refl,
            drop-append_at (length (stored_value type value)) (stored_value type value) rest refl,
            whole,
            enough,
          )
          refl)
    where
      unshared : length key - shared ≡ length (drop shared key)
      unshared = sym (length-drop shared key)

      enough :
          short before shared
            (drop shared key ++ (stored_value type value ++ rest))
            (length key - shared)
            (length (stored_value type value))
          ≡ false
      enough = ground (
        arith,
        length-append {0} (drop shared key) (stored_value type value ++ rest),
        length-append {0} (stored_value type value) rest,
        length-drop shared key,
      )

-- The shared bytes are a prefix of both keys.
pub shared_bytes-le : (before key : Bytes) → shared_bytes before key ≤ length before
unfolding shared_bytes
shared_bytes-le [] key = omega arith
shared_bytes-le (x ∷ xs) [] = omega arith
shared_bytes-le (x ∷ xs) (y ∷ ys) = ground (arith, shared_bytes-le xs ys)

pub take-shared_bytes :
    (before key : Bytes)
    → take (shared_bytes before key) before ++ drop (shared_bytes before key) key ≡ key
unfolding shared_bytes
take-shared_bytes [] key = refl
take-shared_bytes (x ∷ xs) [] = refl
take-shared_bytes (x ∷ xs) (y ∷ ys) = elim (Bool-cases (x == y)) [
  | inl e ↦ rw e (let same : x ≡ y = ground arith in λ i. same i ∷ take-shared_bytes xs ys i)
  | inr e ↦ rw e refl
]
