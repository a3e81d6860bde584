-- ===== src/Storage/Seal.antt =====
-- Encryption around the codec: what `set` seals, `get` opens.
use native.Mathlib.Nat.{mul-mod_left, mul_assoc, mul-div_cancel_left, mul-pos}
use path_oram.Prelude.{
  ℕ, ◌+◌, ◌*◌, ◌/◌, ◌%◌, ◌<◌, ◌≤◌, ◌≡◌, sym, ap, ◌∙◌, [], ◌++◌, map, length, All, All-mono, ok,
  arith, take_left, drop_left, lt→leb_false, ==_refl,
}
use path_oram.Prelude.Words.{Bytes, u64_mod}
use path_oram.Definitions.{Bucket, aes_block_size}
use path_oram.Utility.Cipher.{
  encrypting, decrypting, cipher, encrypt_ok, cipher-cipher, length-cipher, IsAes, IsInput,
}
use path_oram.Oram.Store.{IsBucket}
use path_oram.Storage.Config.{StorageConfig, IsStorageConfig, check_capacity}
use path_oram.Storage.Padding.{padded, length-padded_bucket, padded_bucket-All}
use path_oram.Storage.Codec.{
  plain_bytes, length-plain_bytes, encode_blocks_ok, decode_blocks-plain_bytes, seal, unseal,
}

-- The bytes at a location that holds the bucket, under the vector `iv`.
abbrev pub sealed : StorageConfig → (iv : Bytes) → Bucket → Bytes
sealed c iv b = iv ++ cipher c.aes c.block_cipher encrypting c.key iv (plain_bytes b)

module _ (c : StorageConfig) (fine : IsStorageConfig c) where
  pub length-bucket :
      (b : Bucket)
      → IsBucket c.z c.user_block_size b
      → length (plain_bytes b) ≡ c.z * (c.user_block_size + 16)
  length-bucket b h =
      length-plain_bytes c.user_block_size b (All-mono _ b (λ x p. p.1) h.blocks)
      ∙ ap (λ (n : ℕ). n * (c.user_block_size + 16)) h.full

  bucket-IsInput :
      (iv : Bytes) (b : Bucket)
      → length iv ≡ 16
      → IsBucket c.z c.user_block_size b
      → IsInput c.key iv (plain_bytes b)
  bucket-IsInput iv b vector h =
      let q = c.user_block_size / 16 in
      let blocks : c.user_block_size + 16 ≡ (q + 1) * 16 = omega (arith, fine.whole_blocks) in
      let size = length-bucket b h in
      record {
        key_whole = fine.key_whole;
        iv_whole = vector;
        not_empty =
            omega (
              arith,
              size,
              mul-pos {m = c.z} {n = c.user_block_size + 16} fine.roomy (omega arith),
            );
        whole_blocks =
            ap (λ (n : ℕ). n % 16)
              (size ∙ ap (λ (n : ℕ). c.z * n) blocks ∙ sym (mul_assoc c.z (q + 1) 16))
            ∙ mul-mod_left (c.z * (q + 1)) 16;
      }

  pub padded-IsBucket :
      (b : Bucket)
      → length b ≡ c.z
      → All (λ x. (x.0 < u64_mod) × (length x.1 ≤ c.user_block_size)) b
      → IsBucket c.z c.user_block_size (map (padded c.user_block_size) b)
  padded-IsBucket b full h = record {
    full = length-padded_bucket c.user_block_size b ∙ full;
    blocks = padded_bucket-All c.user_block_size b h;
  }

  -- `set` does not throw for a full bucket with payloads that are not too long, at a proper location.
  pub seal_ok :
      (iv : Bytes) (location : ℕ) (b : Bucket)
      → location < c.capacity
      → length b ≡ c.z
      → All (λ x. (x.0 < u64_mod) × (length x.1 ≤ c.user_block_size)) b
      → length iv ≡ 16
      → seal c iv location b ≡ ok (sealed c iv (map (padded c.user_block_size) b))
  unfolding seal check_capacity
  seal_ok iv location b below full h vector =
      let b' = map (padded c.user_block_size) b in
      let input = bucket-IsInput iv b' vector (padded-IsBucket b full h) in
      rw
        (
          lt→leb_false c.capacity location below,
          full,
          ==_refl c.z,
          encode_blocks_ok c b (All-mono _ b (λ x p. p.1) h),
        )
        (encrypt_ok c.aes c.block_cipher encrypting c.key iv (plain_bytes b') iv input)

  pub unseal_ok :
      (iv : Bytes) (b : Bucket)
      → IsAes c.aes
      → length iv ≡ 16
      → IsBucket c.z c.user_block_size b
      → unseal c (sealed c iv b) ≡ ok b
  unfolding unseal
  unseal_ok iv b good vector h =
      let plain = plain_bytes b in
      let input = bucket-IsInput iv b vector h in
      let secret = cipher c.aes c.block_cipher encrypting c.key iv plain in
      let kept = length-cipher c.aes c.block_cipher c.key iv plain good in
      let again : IsInput c.key iv secret = record {
        key_whole = input.key_whole;
        iv_whole = vector;
        not_empty = omega (arith, kept, input.not_empty);
        whole_blocks = ap (λ (n : ℕ). n % aes_block_size) kept ∙ input.whole_blocks;
      } in
      let size : length plain / c.z ≡ c.user_block_size + 16 =
        ap (λ (n : ℕ). n / c.z) (length-bucket b h)
        ∙ mul-div_cancel_left (c.user_block_size + 16) fine.roomy in
      rw
        (
          take_left 16 iv secret vector,
          drop_left 16 iv secret vector,
          encrypt_ok c.aes c.block_cipher decrypting c.key iv secret [] again,
          cipher-cipher c.aes c.block_cipher c.key iv plain good input,
          size,
          sym h.full,
        )
        (ap ok (decode_blocks-plain_bytes c.user_block_size b h.blocks))
