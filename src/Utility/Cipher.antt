-- ===== src/Utility/Cipher.antt =====
-- `encrypt` of path-oram/src/utility.cpp. The block cipher of OpenSSL is a parameter: `Aes` has what
-- the code calls, `IsAes` what it relies on.
use path_oram.Prelude.{
  ℕ, ◌%◌, ◌<◌, ◌≡◌, ◌≢◌, refl, ap, ◌∙◌, ◌||◌, not, [], ◌++◌, ◌⊎◌, length, ◌==◌, Outcome, ok, throw,
  throw_if, wrong_key_size, wrong_input_size, wrong_iv_size, ◌>>=◌, ◌>>◌, arith,
}
use path_oram.Prelude.Words.{Bytes}
use path_oram.Definitions.{aes_block_size, key_size}

pub data EncryptionMode : Type 0 where
  encrypting decrypting : EncryptionMode

-- `BlockCipherMode`: CBC, CTR, NONE.
pub data BlockCipherMode : Type 0 where
  cbc ctr plain : BlockCipherMode

-- A block cipher as a function of a key schedule and a block, as OpenSSL's `block128_f`.
abbrev pub BlockFunction : Type 0
BlockFunction = (schedule block : Bytes) → Bytes

-- The schedules of a key and the functions for one block, `AES_encrypt` and `AES_decrypt`, and the
-- `CRYPTO_` functions, which know nothing of the cipher. A schedule is the bytes of an `AES_KEY`.
pub record Aes : Type 0 where
  pub set_encrypt_key : Bytes → Bytes
  pub set_decrypt_key : Bytes → Bytes
  pub encrypt_block : BlockFunction
  pub decrypt_block : BlockFunction
  pub cbc128_encrypt : (input schedule iv : Bytes) → BlockFunction → Bytes
  pub cbc128_decrypt : (input schedule iv : Bytes) → BlockFunction → Bytes
  pub ctr128_encrypt : (input schedule iv : Bytes) → BlockFunction → Bytes

-- Under these schedules, `undo` takes a block back.
abbrev pub AreInverse : (schedule schedule' : Bytes) → (block undo : BlockFunction) → Type 0
AreInverse schedule schedule' block undo =
    (b : Bytes) → length b ≡ aes_block_size → undo schedule' (block schedule b) ≡ b

pub record IsAes (aes : Aes) : Type 0 where
  pub length-cbc128_encrypt :
      (input schedule iv : Bytes) (block : BlockFunction)
      → length (aes.cbc128_encrypt input schedule iv block) ≡ length input
  pub length-ctr128_encrypt :
      (input schedule iv : Bytes) (block : BlockFunction)
      → length (aes.ctr128_encrypt input schedule iv block) ≡ length input
  -- AES takes one block back, with the other schedule of the same key.
  pub decrypt_block-encrypt_block :
      (key : Bytes)
      → length key ≡ key_size
      → AreInverse
          (aes.set_encrypt_key key)
          (aes.set_decrypt_key key)
          aes.encrypt_block
          aes.decrypt_block
  -- CBC works on whole blocks, and takes back what a block cipher makes, whichever it is.
  pub cbc128_decrypt-cbc128_encrypt :
      (input schedule schedule' iv : Bytes) (block undo : BlockFunction)
      → AreInverse schedule schedule' block undo
      → length iv ≡ aes_block_size
      → length input % aes_block_size ≡ 0
      → aes.cbc128_decrypt (aes.cbc128_encrypt input schedule iv block) schedule' iv undo ≡ input
  -- In counter mode the same call with the same function decrypts.
  pub ctr128_encrypt-ctr128_encrypt :
      (input schedule iv : Bytes) (block : BlockFunction)
      → length iv ≡ aes_block_size
      → aes.ctr128_encrypt (aes.ctr128_encrypt input schedule iv block) schedule iv block ≡ input

-- The schedule, and the switch over the modes. CTR always encrypts.
unfoldable pub cipher : Aes → BlockCipherMode → EncryptionMode → (key iv input : Bytes) → Bytes
cipher aes cbc encrypting key iv input =
    aes.cbc128_encrypt input (aes.set_encrypt_key key) iv aes.encrypt_block
cipher aes cbc decrypting key iv input =
    aes.cbc128_decrypt input (aes.set_decrypt_key key) iv aes.decrypt_block
cipher aes ctr mode key iv input =
    aes.ctr128_encrypt input (aes.set_encrypt_key key) iv aes.encrypt_block
cipher aes plain mode key iv input = input

-- The result goes behind what the output holds.
unfoldable pub encrypt :
    Aes → BlockCipherMode → (key iv input output : Bytes) → EncryptionMode → Outcome Bytes
unfolding cipher
encrypt aes block_cipher key iv input output mode = do
  throw_if (not (length key == key_size)) wrong_key_size
  throw_if (length input == 0 || not (length input % aes_block_size == 0)) wrong_input_size
  throw_if (not (length iv == aes_block_size)) wrong_iv_size
  ok (output ++ cipher aes block_cipher mode key iv input)

pub record IsInput (key iv input : Bytes) : Type 0 where
  pub key_whole : length key ≡ key_size
  pub iv_whole : length iv ≡ aes_block_size
  pub not_empty : 0 < length input
  pub whole_blocks : length input % aes_block_size ≡ 0

pub encrypt_ok :
    (aes : Aes) (block_cipher : BlockCipherMode) (mode : EncryptionMode)
    (key iv input output : Bytes)
    → IsInput key iv input
    → encrypt aes block_cipher key iv input output mode
      ≡ ok (output ++ cipher aes block_cipher mode key iv input)
unfolding encrypt
encrypt_ok aes block_cipher mode key iv input output h = ground arith

pub length-cipher :
    (aes : Aes) (block_cipher : BlockCipherMode) (key iv input : Bytes)
    → IsAes aes
    → length (cipher aes block_cipher encrypting key iv input) ≡ length input
unfolding cipher
length-cipher aes cbc key iv input good = good.length-cbc128_encrypt input _ iv aes.encrypt_block
length-cipher aes ctr key iv input good = good.length-ctr128_encrypt input _ iv aes.encrypt_block
length-cipher aes plain key iv input good = refl

pub cipher-cipher :
    (aes : Aes) (block_cipher : BlockCipherMode) (key iv input : Bytes)
    → IsAes aes
    → IsInput key iv input
    → cipher aes block_cipher decrypting key iv (cipher aes block_cipher encrypting key iv input)
      ≡ input
unfolding cipher
cipher-cipher aes cbc key iv input good h =
    good.cbc128_decrypt-cbc128_encrypt input (aes.set_encrypt_key key) (aes.set_decrypt_key key) iv
      aes.encrypt_block aes.decrypt_block (good.decrypt_block-encrypt_block key h.key_whole)
      h.iv_whole h.whole_blocks
cipher-cipher aes ctr key iv input good h =
    good.ctr128_encrypt-ctr128_encrypt input (aes.set_encrypt_key key) iv aes.encrypt_block
      h.iv_whole
cipher-cipher aes plain key iv input good h = refl

-- For a key of 32 bytes, a vector of 16 and whole blocks of input, what is encrypted decrypts
-- again, in every mode, if the block cipher does what `IsAes` says.
pub encrypt-encrypt :
    (aes : Aes) (block_cipher : BlockCipherMode) (key iv input : Bytes)
    → IsAes aes
    → IsInput key iv input
    → (encrypt aes block_cipher key iv input [] encrypting >>= λ secret.
        encrypt aes block_cipher key iv secret [] decrypting)
      ≡ ok input
encrypt-encrypt aes block_cipher key iv input good h =
    let secret = cipher aes block_cipher encrypting key iv input in
    let size = length-cipher aes block_cipher key iv input good in
    let again : IsInput key iv secret = record {
      key_whole = h.key_whole;
      iv_whole = h.iv_whole;
      not_empty = omega (arith, h.not_empty);
      whole_blocks = ap (λ (n : ℕ). n % aes_block_size) size ∙ h.whole_blocks;
    } in
    rw (encrypt_ok aes block_cipher encrypting key iv input [] h) (
      encrypt_ok aes block_cipher decrypting key iv secret [] again
      ∙ ap ok (cipher-cipher aes block_cipher key iv input good h))

-- A key of the wrong size, then an input that is empty or not of whole blocks, then a vector of the
-- wrong size each make `encrypt` throw, in this order.
pub encrypt_throws :
    (aes : Aes) (block_cipher : BlockCipherMode) (mode : EncryptionMode)
    (key iv input output : Bytes)
    → (length key ≢ key_size
        → encrypt aes block_cipher key iv input output mode ≡ throw wrong_key_size)
      × (length key ≡ key_size
          → (length input ≡ 0) ⊎ (length input % aes_block_size ≢ 0)
          → encrypt aes block_cipher key iv input output mode ≡ throw wrong_input_size)
      × (length key ≡ key_size
          → 0 < length input
          → length input % aes_block_size ≡ 0
          → length iv ≢ aes_block_size
          → encrypt aes block_cipher key iv input output mode ≡ throw wrong_iv_size)
unfolding encrypt
encrypt_throws aes block_cipher mode key iv input output =
    (λ a. ground arith, λ a b. ground arith, λ a b d e. ground arith)
