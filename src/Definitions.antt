-- ===== src/Definitions.antt =====
-- The types of path-oram/include/definitions.h. A `number` is a natural number below 2 ^ 64, a
-- byte one below 256.
use path_oram.Prelude.{ℕ, ◌-◌, List}
use path_oram.Prelude.Words.{Bytes, u64_mod}

-- `pair<number, bytes>`: an ID and its payload.
abbrev pub Block : Type 0
Block = ℕ × Bytes

abbrev pub Bucket : Type 0
Bucket = List Block

-- `ULONG_MAX`, the ID of a block that holds nothing.
abbrev pub dummy_id : ℕ
dummy_id = u64_mod - 1

-- `AES_BLOCK_SIZE`, and `KEYSIZE`.
abbrev pub aes_block_size : ℕ
aes_block_size = 16

abbrev pub key_size : ℕ
key_size = 32

-- `HASHSIZE`, in bits.
abbrev pub hash_size : ℕ
hash_size = 256
