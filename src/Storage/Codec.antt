-- ===== src/Storage/Codec.antt =====
-- The bytes of a bucket in the storage: an initialisation vector and the encrypted blocks, each an
-- ID of 16 bytes and a payload.
use native.Mathlib.Nat.{suc-mul}
use mathlib.Core.List.{flat_map, append_assoc}
use path_oram.Prelude.{
  ℕ, zero, suc, ◌+◌, ◌*◌, ◌/◌, ◌<◌, ◌≤◌, ◌≡◌, refl, ap, List, [], ◌∷◌, ◌++◌, map, length, take,
  drop, replicate, All, le→ltb_false, ◌==◌, not, Outcome, ok, throw_if, wrong_bucket_size, ◌>>=◌,
  ◌>>◌, arith, length-append, take_left, drop_left,
}
use path_oram.Prelude.Words.{
  Bytes, u64_mod, to_bytes, from_bytes, length-to_bytes, from_bytes-to_bytes_64,
}
use path_oram.Definitions.{Block, Bucket, aes_block_size}
use path_oram.Utility.Cipher.{encrypting, decrypting, encrypt}
use path_oram.Storage.Padding.{pad, padded}
use path_oram.Storage.Config.{StorageConfig, check_capacity, check_block_size}

-- The ID as a `number`, with zeroes up to a cipher block.
unfoldable pub encode_id : ℕ → Bytes
encode_id id = to_bytes 8 id ++ replicate 8 0

-- The body of the loop over the blocks, and the loop: `toEncrypt`.
unfoldable pub encode_blocks : StorageConfig → List Block → Outcome Bytes
unfolding encode_id check_block_size
encode_blocks c [] = ok []
encode_blocks c ((id, bytes) ∷ blocks) = do
  check_block_size c (length bytes)
  rest ← encode_blocks c blocks
  ok (encode_id id ++ pad c.user_block_size bytes ++ rest)

-- What `set` writes for a request: the vector, and behind it the encrypted blocks.
unfoldable pub seal : StorageConfig → (iv : Bytes) → ℕ → Bucket → Outcome Bytes
unfolding encode_blocks check_capacity
seal c iv location blocks = do
  check_capacity c location
  throw_if (not (length blocks == c.z)) wrong_bucket_size
  plain ← encode_blocks c blocks
  encrypt c.aes c.block_cipher c.key iv plain iv encrypting

-- The blocks in the decrypted bytes, each `size` bytes long.
unfoldable pub decode_blocks : (count size : ℕ) → Bytes → List Block
decode_blocks zero size bytes = []
decode_blocks (suc count) size bytes =
    (from_bytes (take 8 bytes), drop aes_block_size (take size bytes))
    ∷ decode_blocks count size (drop size bytes)

-- What `get` does with the bytes of a location.
unfoldable pub unseal : StorageConfig → Bytes → Outcome (List Block)
unfolding decode_blocks
unseal c raw = do
  decrypted ←
      encrypt c.aes c.block_cipher c.key (take aes_block_size raw) (drop aes_block_size raw) []
        decrypting
  ok (decode_blocks c.z (length decrypted / c.z) decrypted)

-- The bytes of the blocks of a bucket whose payloads are of the right size.
abbrev block_bytes : Block → Bytes
block_bytes x = encode_id x.0 ++ x.1

abbrev pub plain_bytes : List Block → Bytes
plain_bytes = flat_map block_bytes

length-encode_id : (id : ℕ) → length (encode_id id) ≡ 16
unfolding encode_id
length-encode_id id =
    omega (arith, length-append (to_bytes 8 id) (replicate 8 0), length-to_bytes 8 id)

pub encode_blocks_ok :
    (c : StorageConfig) (blocks : List Block)
    → All (λ x. length x.1 ≤ c.user_block_size) blocks
    → encode_blocks c blocks ≡ ok (plain_bytes (map (padded c.user_block_size) blocks))
unfolding encode_blocks check_block_size flat_map
encode_blocks_ok c [] h = refl
encode_blocks_ok c (x ∷ blocks) h =
    rw (le→ltb_false c.user_block_size (length x.1) h.0, encode_blocks_ok c blocks h.1) refl

pub length-plain_bytes :
    (size : ℕ) (blocks : List Block)
    → All (λ x. length x.1 ≡ size) blocks
    → length (plain_bytes blocks) ≡ length blocks * (size + 16)
unfolding flat_map
length-plain_bytes size [] h = omega arith
length-plain_bytes size (x ∷ blocks) h = omega (
  arith,
  length-append (block_bytes x) (plain_bytes blocks),
  length-append (encode_id x.0) x.1,
  length-encode_id x.0,
  h.0,
  length-plain_bytes size blocks h.1,
  suc-mul (length blocks) (size + 16),
)

take-encode_id :
    (id : ℕ) (more : Bytes) → id < u64_mod → from_bytes (take 8 (encode_id id ++ more)) ≡ id
unfolding encode_id
take-encode_id id more h =
    rw
      (
        append_assoc (to_bytes 8 id) (replicate 8 0) more,
        take_left 8 (to_bytes 8 id) (replicate 8 0 ++ more) (length-to_bytes 8 id),
      )
      (from_bytes-to_bytes_64 id h)

-- What was encoded is decoded.
pub decode_blocks-plain_bytes :
    (size : ℕ) (blocks : List Block)
    → All (λ x. (x.0 < u64_mod) × (length x.1 ≡ size)) blocks
    → decode_blocks (length blocks) (size + 16) (plain_bytes blocks) ≡ blocks
unfolding decode_blocks flat_map
decode_blocks-plain_bytes size [] h = refl
decode_blocks-plain_bytes size (x ∷ blocks) h =
    let more = plain_bytes blocks in
    let whole : length (block_bytes x) ≡ size + 16 =
      omega (arith, length-append (encode_id x.0) x.1, length-encode_id x.0, h.0.1) in
    rw
      (
        take_left (size + 16) (block_bytes x) more whole,
        drop_left (size + 16) (block_bytes x) more whole,
        drop_left 16 (encode_id x.0) x.1 (length-encode_id x.0),
        append_assoc (encode_id x.0) x.1 more,
        take-encode_id x.0 (x.1 ++ more) h.0.0,
      )
      (ap (◌∷◌ x) (decode_blocks-plain_bytes size blocks h.1))
