-- ===== src/Sst/Bloom/Kept.antt =====
-- A filter never denies a key that was added to it.
use elysiumkv.Base.{
  ℕ, zero, suc, ◌+◌, ◌-◌, ◌*◌, ◌/◌, ◌^◌, ◌≤◌, ◌<◌, ◌≡◌, refl, sym, ap, ◌∙◌, max, true, List, [],
  ◌∷◌, ◌++◌, length, get_or, drop, All, Member, here, there, arith, length-append, drop-append_at,
  get_or-append_at, append_assoc, append-nil,
}
use elysiumkv.Slice.{Bytes}
use elysiumkv.Sst.Format.{put_fixed32, decode_fixed32, le_bytes}
use elysiumkv.Sst.Format.Fixed.{length-le_bytes, decode_fixed32-put_fixed32}
use elysiumkv.Sst.Bloom.{
  BloomBuilder, new_builder, add, block_index, derive_h2, set_hashes, zero_bytes, num_blocks_of,
  finish, test_probes, bloom_may_contain,
}
use elysiumkv.Sst.Bloom.Lit.{
  Covers, length-set_probes, set_probes-Covers, test_probes-Covers, test_probes-set_probes,
  append-Covers,
}

set_hashes-Covers :
    (nb probes : ℕ) (hashes : List ℕ) (bits : Bytes)
    → Covers bits (set_hashes nb probes hashes bits)
unfolding set_hashes
set_hashes-Covers nb probes [] bits = λ j k on. on
set_hashes-Covers nb probes (hash ∷ hashes) bits =
    λ j k on. set_hashes-Covers nb probes hashes _ j k (set_probes-Covers probes _ _ _ bits j k on)

length-set_hashes :
    (nb probes : ℕ) (hashes : List ℕ) (bits : Bytes)
    → length (set_hashes nb probes hashes bits) ≡ length bits
unfolding set_hashes
length-set_hashes nb probes [] bits = refl
length-set_hashes nb probes (hash ∷ hashes) bits =
    length-set_hashes nb probes hashes _ ∙ length-set_probes probes _ _ _ bits

length-zero_bytes : (n : ℕ) → length (zero_bytes n) ≡ n
unfolding zero_bytes
length-zero_bytes zero = refl
length-zero_bytes (suc n) = ap suc (length-zero_bytes n)

product_below : (x y : ℕ) → x < 2 ^ 32 → x * y ≤ (2 ^ 32 - 1) * y
product_below x zero h = omega arith
product_below x (suc y) h = omega (arith, product_below x y h)

block_index-lt : (hash nb : ℕ) → hash < 2 ^ 64 → 0 < nb → nb < 2 ^ 32 → block_index hash nb < nb
unfolding block_index
block_index-lt hash nb small some_block few =
    omega (arith, product_below (hash / 2 ^ 32) nb (omega arith))

test_probes-set_hashes :
    (nb probes hash : ℕ) (hashes : List ℕ) (bits : Bytes)
    → 0 < nb
    → nb < 2 ^ 32
    → All (λ h. h < 2 ^ 64) hashes
    → length bits ≡ nb * 64
    → Member hash hashes
    → test_probes probes
        (block_index hash nb * 64)
        (derive_h2 hash)
        hash
        (set_hashes nb probes hashes bits)
      ≡ true
unfolding set_hashes
test_probes-set_hashes nb probes hash [] bits some_block few all size m = elim m [ ]
test_probes-set_hashes nb probes _ (hash ∷ hashes) bits some_block few (small, all) size here =
    test_probes-Covers probes _ _ _ _ _ (set_hashes-Covers nb probes hashes _) (
      test_probes-set_probes probes (block_index hash nb * 64) (derive_h2 hash) hash bits
        (omega (arith, block_index-lt hash nb small some_block few)))
test_probes-set_hashes nb probes hash (h ∷ hashes) bits some_block few (small, all) size (there m) =
    test_probes-set_hashes nb probes hash hashes _ some_block few all
      (length-set_probes probes _ _ _ bits ∙ size) m

-- What a builder holds after the keys.
unfoldable pub add_all : (Bytes → ℕ) → BloomBuilder → List Bytes → BloomBuilder
add_all hash b [] = b
add_all hash b (key ∷ keys) = add_all hash (add hash b key) keys

hash_all : (Bytes → ℕ) → List Bytes → List ℕ
hash_all hash [] = []
hash_all hash (key ∷ keys) = hash key ∷ hash_all hash keys

add_all-hash_all :
    (hash : Bytes → ℕ) (b : BloomBuilder) (keys : List Bytes)
    → add_all hash b keys ≡ record b { hashes = b.hashes ++ hash_all hash keys }
unfolding add_all hash_all add
add_all-hash_all hash b [] = λ i. record b { hashes = sym (append-nil b.hashes) i }
add_all-hash_all hash b (key ∷ keys) =
    add_all-hash_all hash (record b { hashes = b.hashes ++ hash key ∷ [] }) keys ∙ λ i. record b {
      hashes = append_assoc b.hashes (hash key ∷ []) (hash_all hash keys) i;
    }

module _ (hash : Bytes → ℕ) where
  Member-hash_all :
      {key : Bytes} (keys : List Bytes) → Member key keys → Member (hash key) (hash_all hash keys)
  unfolding hash_all
  Member-hash_all [] m = elim m [ ]
  Member-hash_all (key ∷ keys) here = here
  Member-hash_all (key ∷ keys) (there m) = there (Member-hash_all keys m)

  length-hash_all : (keys : List Bytes) → length (hash_all hash keys) ≡ length keys
  unfolding hash_all
  length-hash_all [] = refl
  length-hash_all (key ∷ keys) = ap suc (length-hash_all keys)

  All-hash_all :
      (keys : List Bytes)
      → ((k : Bytes) → hash k < 2 ^ 64)
      → All (λ h. h < 2 ^ 64) (hash_all hash keys)
  unfolding hash_all
  All-hash_all [] small = tt
  All-hash_all (key ∷ keys) small = (small key, All-hash_all keys small)

  -- What the reader does once it has read the block count and the probe count.
  bloom_may_contain-read :
      (filter : Bytes) (nb probes : ℕ) (key : Bytes)
      → 0 < nb
      → 0 < probes
      → length filter ≡ nb * 64 + 5
      → decode_fixed32 (drop (length filter - 5) filter) ≡ nb
      → get_or filter (length filter - 1) 0 ≡ probes
      → bloom_may_contain hash filter key
        ≡ test_probes probes
            (block_index (hash key) nb * 64)
            (derive_h2 (hash key))
            (hash key)
            filter
  unfolding bloom_may_contain
  bloom_may_contain-read filter nb probes key some_block some_probe size blocks count =
      rw (blocks, count) (ground arith)

  bloom_may_contain-frame :
      (bits : Bytes) (nb probes : ℕ) (key : Bytes)
      → 0 < nb
      → nb < 2 ^ 32
      → 0 < probes
      → length bits ≡ nb * 64
      → bloom_may_contain hash (put_fixed32 bits nb ++ (probes ∷ [])) key
        ≡ test_probes probes
            (block_index (hash key) nb * 64)
            (derive_h2 (hash key))
            (hash key)
            (put_fixed32 bits nb ++ (probes ∷ []))
  unfolding put_fixed32
  bloom_may_contain-frame bits nb probes key some_block few some_probe size =
      let filter : Bytes = (bits ++ le_bytes 4 nb) ++ (probes ∷ []) in
      let whole : length filter ≡ length bits + 5 = omega (
        arith,
        length-append {0} (bits ++ le_bytes 4 nb) (probes ∷ []),
        length-append {0} bits (le_bytes 4 nb),
        length-le_bytes 4 nb,
      ) in
      bloom_may_contain-read filter nb probes key some_block some_probe (omega (arith, whole))
        (ap (λ t. decode_fixed32 (drop (length filter - 5) t))
            (append_assoc bits (le_bytes 4 nb) (probes ∷ []))
          ∙ ap decode_fixed32 (drop-append_at (length filter - 5) bits _ (omega (arith, whole)))
          ∙ unfold put_fixed32 in decode_fixed32-put_fixed32 nb (probes ∷ []) few)
        (get_or-append_at (length filter - 1) (bits ++ le_bytes 4 nb) [] probes 0
          (omega (arith, whole, length-append {0} bits (le_bytes 4 nb), length-le_bytes 4 nb)))

  framed-Covers :
      (bits : Bytes) (nb probes : ℕ) → Covers bits (put_fixed32 bits nb ++ (probes ∷ []))
  unfolding put_fixed32
  framed-Covers bits nb probes j k on =
      append-Covers (bits ++ le_bytes 4 nb) (probes ∷ []) j k
        (append-Covers bits (le_bytes 4 nb) j k on)

  num_blocks_bounds :
      (b : BloomBuilder)
      → length b.hashes * b.bits_per_key < 2 ^ 40
      → (0 < num_blocks_of b) × (num_blocks_of b < 2 ^ 32)
  unfolding num_blocks_of
  num_blocks_bounds b room = (omega arith, omega arith)

  -- The filter of a builder that holds the hash of the key.
  finish_passes :
      (b : BloomBuilder) (key : Bytes)
      → 0 < b.num_probes
      → b.num_probes < 2 ^ 8
      → length b.hashes * b.bits_per_key < 2 ^ 40
      → All (λ h. h < 2 ^ 64) b.hashes
      → Member (hash key) b.hashes
      → bloom_may_contain hash (finish b) key ≡ true
  unfolding finish
  finish_passes b key some_probe few_probes room all m =
      let nb : ℕ = num_blocks_of b in
      let (some_block, few) = num_blocks_bounds b room in
      let bits : Bytes = set_hashes nb b.num_probes b.hashes (zero_bytes (nb * 64)) in
      ap (λ p. bloom_may_contain hash (put_fixed32 bits nb ++ (p ∷ [])) key) (omega arith)
      ∙ bloom_may_contain-frame bits nb b.num_probes key some_block few some_probe
          (length-set_hashes nb b.num_probes b.hashes _ ∙ length-zero_bytes (nb * 64))
      ∙ test_probes-Covers b.num_probes _ _ _ bits _ (framed-Covers bits nb b.num_probes) (
          test_probes-set_hashes nb b.num_probes (hash key) b.hashes _ some_block few all
            (length-zero_bytes (nb * 64)) m)

-- A filter never denies a key that was added to its builder, for any hash function into 64 bits and
-- any settings, where the bits the keys ask for number fewer than 2 ^ 40.
pub bloom_may_contain-finish :
    (hash : Bytes → ℕ) (bits_per_key num_probes : ℕ) (keys : List Bytes) (key : Bytes)
    → ((k : Bytes) → hash k < 2 ^ 64)
    → length keys * max 1 bits_per_key < 2 ^ 40
    → Member key keys
    → bloom_may_contain hash (finish (add_all hash (new_builder bits_per_key num_probes) keys)) key
      ≡ true
unfolding new_builder
bloom_may_contain-finish hash bits_per_key num_probes keys key small room m =
    ap (λ b. bloom_may_contain hash (finish b) key) (add_all-hash_all hash _ keys)
    ∙ finish_passes hash _ key (omega arith) (omega arith) (rw (length-hash_all hash keys) room)
        (All-hash_all hash keys small) (Member-hash_all hash keys m)
