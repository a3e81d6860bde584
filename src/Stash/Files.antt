-- ===== src/Stash/Files.antt =====
-- `storeToFile` and `loadFromFile` of the stash. A file is its bytes, and `none` is a file that does not
-- open. `stale` is what the buffer holds before it is filled.
pub mod RoundTrip
use path_oram.Prelude.{
  ℕ, zero, suc, ◌+◌, ◌*◌, Bool, List, [], ◌∷◌, Option, none, some, length, take, drop, Outcome, ok,
  throw_if, throw, cannot_open, not, ◌>>=◌, ◌>>◌, ◌%◌, ◌^◌, ltb, if◌then◌else◌,
}
use path_oram.Prelude.Words.{Bytes, u32_mod, to_bytes, from_bytes}
use path_oram.Prelude.Assoc.{insert}
use path_oram.Definitions.{Block}
use path_oram.Utility.Files.{write_at}
use path_oram.Stash.{Stash}

-- The loop that copies the records into the buffer, from record `i` on.
unfoldable pub copy_records : (record_size i : ℕ) → List Block → Bytes → Bytes
copy_records record_size i [] buffer = buffer
copy_records record_size i ((id, payload) ∷ records) buffer =
    copy_records record_size (i + 1) records
      (write_at (record_size * i + 8) payload (write_at (record_size * i) (to_bytes 8 id) buffer))

-- The size of a record is taken from the first one.
unfoldable pub stored_records : List Block → Bytes → Bytes
unfolding copy_records
stored_records [] stale = []
stored_records ((id, payload) ∷ records) stale =
    let record_size = 8 + length payload in
    take (length ((id, payload) ∷ records) * record_size)
      (copy_records record_size 0 ((id, payload) ∷ records) stale)

-- What the file holds afterwards.
unfoldable pub store_to_file : Stash → (opens : Bool) → (stale : Bytes) → Outcome Bytes
unfolding stored_records
store_to_file t opens stale = do throw_if (not opens) cannot_open; ok (stored_records t.stash stale)

-- The loop over the records of the file; a record takes at least one byte.
unfoldable pub insert_records : (rounds block_size : ℕ) → Bytes → List Block → List Block
insert_records zero block_size file stash = stash
insert_records (suc rounds) block_size [] stash = stash
insert_records (suc rounds) block_size (b ∷ file) stash =
    insert_records rounds block_size (drop (8 + block_size) (b ∷ file))
      (insert (from_bytes (take 8 (b ∷ file))) (take block_size (drop 8 (b ∷ file))) stash)

-- The size of the file is narrowed to an `int`, and only a positive one makes it read.
unfoldable pub load_from_file : Stash → Option Bytes → (block_size : ℕ) → Outcome Stash
unfolding insert_records
load_from_file t none block_size = throw cannot_open
load_from_file t (some file) block_size =
    let size = length file % u32_mod in
    ok (record t {
      stash =
          if ltb size (2 ^ 31)
          then insert_records size block_size (take size file) t.stash
          else t.stash;
    })
