-- ===== src/Storage/FileSystem.antt =====
-- `FileSystemStorageAdapter`: the buckets one behind the other in a file. A file is its bytes; `stale`
-- is what an uninitialised buffer holds.
pub mod Correct
use path_oram.Prelude.{
  ℕ, zero, suc, ◌*◌, Bool, List, [], ◌∷◌, ◌++◌, Option, none, some, length, take, drop, Outcome, ok,
  throw, cannot_open, ◌>>=◌, if◌then◌else◌,
}
use path_oram.Prelude.Words.{Bytes}
use path_oram.Utility.Random.{Source}
use path_oram.Utility.Files.{read_at, write_at, fill_buffer}
use path_oram.Utility.Cipher.{Aes, BlockCipherMode}
use path_oram.Storage.Config.{StorageConfig, new_storage_config}
use path_oram.Storage.Raw.{RawStorage, looping}
use path_oram.Storage.Adapter.{Adapter, fill_with_zeroes}

unfoldable pub get_internal : (block_size : ℕ) → Bytes → Bytes → ℕ → Outcome Bytes
unfolding read_at fill_buffer
get_internal block_size stale file location =
    ok (fill_buffer (read_at block_size (location * block_size) file) stale)

unfoldable pub set_internal : (block_size : ℕ) → Bytes → Bytes → ℕ → Bytes → Outcome Bytes
unfolding write_at fill_buffer
set_internal block_size stale file location raw =
    ok (write_at (location * block_size) (take block_size (fill_buffer raw stale)) file)

abbrev pub file_system : (block_size : ℕ) (stale : Bytes) → RawStorage
file_system block_size stale =
    looping Bytes (get_internal block_size stale) (set_internal block_size stale)

-- The loop that makes a new file as long as the storage.
unfoldable pub write_placeholders : (rounds block_size : ℕ) → Bytes → Bytes
write_placeholders zero block_size stale = []
write_placeholders (suc rounds) block_size stale =
    take block_size stale ++ write_placeholders rounds block_size stale

-- What the constructor does once the fields are there; `none` is a file that does not open.
unfoldable pub open_file :
    (c : StorageConfig) (stale : Bytes)
    → Option Bytes
    → (override : Bool) → Source
    → Outcome (Adapter (file_system c.block_size stale))
unfolding write_placeholders
open_file c stale none override iv_draws = throw cannot_open
open_file c stale (some file) override iv_draws =
    if override
    then fill_with_zeroes c (file_system c.block_size stale)
        (record { storage = write_placeholders c.capacity c.block_size stale; iv_draws = iv_draws })
    else ok (record { storage = file; iv_draws = iv_draws })

-- The constructor. `draws` are for a key, if none is given.
unfoldable pub new_file_system :
    Aes
    → BlockCipherMode
    → (capacity user_block_size : ℕ) → (key : Bytes) → (z batch_limit : ℕ)
    → (draws iv_draws : Source) → (stale : Bytes) → Option Bytes
    → (override : Bool) → Outcome ((c : StorageConfig) × Adapter (file_system c.block_size stale))
unfolding open_file
new_file_system aes block_cipher capacity user_block_size key z batch_limit draws iv_draws stale
      file override =
    do
      c ← new_storage_config aes block_cipher capacity user_block_size key z batch_limit draws
      a ← open_file c stale file override iv_draws
      ok (c, a)

-- The destructor closes the file, which writes what the stream still holds. The file has these bytes
-- afterwards; before, they are only what the stream reads back.
unfoldable pub close :
    (block_size : ℕ) (stale : Bytes) → Adapter (file_system block_size stale) → Bytes
close block_size stale a = a.storage
