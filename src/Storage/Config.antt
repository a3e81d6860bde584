-- ===== src/Storage/Config.antt =====
-- The constant fields of a storage adapter, and the checks on them.
use native.Mathlib.Nat.{mod-eq_of_lt}
use path_oram.Prelude.{
  refl, sym, ap, ◌∙◌, false, inl, inr, Bool-cases, ℕ, ◌+◌, ◌*◌, ◌%◌, ◌<◌, ◌≤◌, ◌≡◌, length, ltb,
  leb, ◌==◌, not, if◌then◌else◌, Outcome, ok, throw, throw_if, ◌>>◌, location_out_of_bound,
  data_too_long, block_size_too_small, block_size_not_multiple, zero_bucket_size, arith,
}
use path_oram.Prelude.Words.{Bytes, u64_mod}
use path_oram.Definitions.{aes_block_size, key_size}
use path_oram.Utility.Random.{Source, get_random_block, length-get_random_block}
use path_oram.Utility.Cipher.{Aes, BlockCipherMode}

-- The block cipher, and the mode that `__blockCipherMode` names, stand with the fields.
pub record StorageConfig : Type 0 where
  pub aes : Aes
  pub block_cipher : BlockCipherMode
  pub key : Bytes
  pub z : ℕ
  pub batch_limit : ℕ
  pub capacity : ℕ
  pub block_size : ℕ
  pub user_block_size : ℕ

-- The initializers. A key of the wrong size is replaced by a random one.
abbrev storage_config :
    Aes
    → BlockCipherMode
    → (capacity user_block_size : ℕ) → (key : Bytes) → (z batch_limit : ℕ) → Source
    → StorageConfig
storage_config aes block_cipher capacity user_block_size key z batch_limit draws = record {
  aes = aes;
  block_cipher = block_cipher;
  key = if length key == key_size then key else get_random_block key_size draws;
  z = z;
  batch_limit = batch_limit;
  capacity = capacity;
  block_size = ((user_block_size + aes_block_size) * z + aes_block_size) % u64_mod;
  user_block_size = user_block_size;
}

-- The constructor.
unfoldable pub new_storage_config :
    Aes
    → BlockCipherMode
    → (capacity user_block_size : ℕ) → (key : Bytes) → (z batch_limit : ℕ) → Source
    → Outcome StorageConfig
new_storage_config aes block_cipher capacity user_block_size key z batch_limit draws = do
  throw_if (ltb user_block_size (2 * aes_block_size)) block_size_too_small
  throw_if (not (user_block_size % aes_block_size == 0)) block_size_not_multiple
  throw_if (z == 0) zero_bucket_size
  ok (storage_config aes block_cipher capacity user_block_size key z batch_limit draws)

unfoldable pub check_capacity : StorageConfig → ℕ → Outcome (Unit {0})
check_capacity c location = throw_if (leb c.capacity location) location_out_of_bound

unfoldable pub check_block_size : StorageConfig → ℕ → Outcome (Unit {0})
check_block_size c data_length = throw_if (ltb c.user_block_size data_length) data_too_long

-- What the constructor makes sure of; the size of a bucket in bytes is a `number`.
pub record IsStorageConfig (c : StorageConfig) : Type 0 where
  pub key_whole : length c.key ≡ key_size
  pub large : 2 * aes_block_size ≤ c.user_block_size
  pub roomy : 0 < c.z
  pub whole_blocks : c.user_block_size % aes_block_size ≡ 0
  pub bucket_bytes : c.block_size ≡ (c.user_block_size + aes_block_size) * c.z + aes_block_size
  pub counted : c.block_size < u64_mod

-- The constructor makes these fields of proper ones again, and draws no key.
pub new_storage_config_again :
    (c : StorageConfig) (draws : Source)
    → IsStorageConfig c
    → new_storage_config c.aes c.block_cipher c.capacity c.user_block_size c.key c.z c.batch_limit
        draws
      ≡ ok c
unfolding new_storage_config
new_storage_config_again c draws h =
    let small : ltb c.user_block_size (2 * aes_block_size) ≡ false = ground (arith, h.large) in
    let some_blocks : (c.z == 0) ≡ false = ground (arith, h.roomy) in
    let size : ((c.user_block_size + aes_block_size) * c.z + aes_block_size) % u64_mod
        ≡ c.block_size =
      ap (λ (n : ℕ). n % u64_mod) (sym h.bucket_bytes) ∙ mod-eq_of_lt h.counted in
    rw (small, h.whole_blocks, some_blocks, h.key_whole, size) refl

-- The constructor of a storage throws for a block size below 32, else for one that is no multiple
-- of 16, else for no blocks in a bucket, and else makes a proper configuration with the given
-- sizes, if the bytes of a bucket can be counted.
pub new_storage_config_cases :
    (aes : Aes) (block_cipher : BlockCipherMode) (capacity user_block_size : ℕ) (key : Bytes)
    (z batch_limit : ℕ) (draws : Source)
    → (user_block_size < 32
        → new_storage_config aes block_cipher capacity user_block_size key z batch_limit draws
          ≡ throw block_size_too_small)
      × (32 ≤ user_block_size
          → ¬ (user_block_size % 16 ≡ 0)
          → new_storage_config aes block_cipher capacity user_block_size key z batch_limit draws
            ≡ throw block_size_not_multiple)
      × (32 ≤ user_block_size
          → user_block_size % 16 ≡ 0
          → z ≡ 0
          → new_storage_config aes block_cipher capacity user_block_size key z batch_limit draws
            ≡ throw zero_bucket_size)
      × (32 ≤ user_block_size
          → user_block_size % 16 ≡ 0
          → 0 < z
          → (user_block_size + 16) * z + 16 < u64_mod
          → (c : StorageConfig) × (new_storage_config aes block_cipher capacity user_block_size key
                z batch_limit draws
              ≡ ok c)
            × IsStorageConfig c
            × (c.capacity ≡ capacity)
            × (c.user_block_size ≡ user_block_size)
            × (c.z ≡ z))
unfolding new_storage_config
new_storage_config_cases aes block_cipher capacity user_block_size key z batch_limit draws = (
  λ a. ground arith,
  λ a b. ground arith,
  λ a b d. ground arith,
  λ a b d e. (
    storage_config aes block_cipher capacity user_block_size key z batch_limit draws,
    ground arith,
    record {
      key_whole = whole_key;
      large = a;
      roomy = d;
      whole_blocks = b;
      bucket_bytes = mod-eq_of_lt e;
      counted = rw (mod-eq_of_lt e) e;
    },
    refl,
    refl,
    refl,
  ),
)
  where
    whole_key :
        length (if length key == key_size then key else get_random_block key_size draws) ≡ key_size
    whole_key = elim (Bool-cases (length key == key_size)) [
      | inl e ↦ rw e (ground arith)
      | inr e ↦ rw e (length-get_random_block key_size draws)
    ]
