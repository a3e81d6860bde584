-- ===== src/Utility/Keys.antt =====
-- `storeKey`, `loadKey`, `hash` and `hashToNumber` of path-oram/src/utility.cpp. A file is its
-- bytes; the digest of OpenSSL is a parameter.
use path_oram.Prelude.{
  ℕ, ◌/◌, ◌%◌, ◌≡◌, ap, ◌∙◌, Bool, true, not, [], ◌++◌, Option, none, some, length, take, take_all,
  Outcome, ok, throw, throw_if, cannot_open, ◌>>◌, arith,
}
use path_oram.Prelude.Words.{Bytes, from_bytes}
use path_oram.Definitions.{key_size, hash_size}
use path_oram.Utility.Files.{fill_buffer, fill_buffer_whole}

-- What the file holds afterwards; `stale` is what the buffer holds before.
unfoldable pub store_key : Bytes → (opens : Bool) → (stale : Bytes) → Outcome Bytes
store_key key opens stale = do
  throw_if (not opens) cannot_open
  ok (take key_size (fill_buffer key stale))

unfoldable pub load_key : Option Bytes → (stale : Bytes) → Outcome Bytes
load_key none stale = throw cannot_open
load_key (some file) stale = ok (take key_size (fill_buffer (take key_size file) stale))

-- Key
pub load_key-store_key :
    (key stale stale' : Bytes)
    → length key ≡ key_size
    → length stale ≡ key_size
    → length stale' ≡ key_size
    → (file : Bytes) × (store_key key true stale ≡ ok file) × (load_key (some file) stale' ≡ ok key)
unfolding store_key load_key
load_key-store_key key stale stale' whole buffer buffer' = (
  key,
  ap ok (stored stale buffer),
  rw (take_all key_size key (omega arith)) (ap ok (stored stale' buffer')),
)
  where
    stored : (s : Bytes) → length s ≡ key_size → take key_size (fill_buffer key s) ≡ key
    stored s h =
        ap (take key_size) (fill_buffer_whole key s (omega arith))
        ∙ take_all key_size key (omega arith)

-- `HASHSIZE / 16` bytes of the digest go behind the output.
unfoldable pub hash : (digest : Bytes → Bytes) → (input output : Bytes) → Bytes
hash digest input output = output ++ take (hash_size / 16) (digest input)

unfoldable pub hash_to_number : (digest : Bytes → Bytes) → (input : Bytes) → (max : ℕ) → ℕ
unfolding hash
hash_to_number digest input max = from_bytes (take 8 (hash digest input [])) % max
