-- ===== src/Storage/FileSystem/Correct.antt =====
-- A file of the right length is a proper storage, and keeps the buckets when it is opened again.
use native.Mathlib.Nat.{mul-le-mul_right}
use mathlib.Core.List.{flat_map}
use path_oram.Prelude.{
  ℕ, zero, suc, ◌+◌, ◌*◌, ◌≤◌, ◌<◌, ◌≡◌, ◌≢◌, refl, sym, ap, ◌∙◌, List, some, true, false, length,
  take, drop, All, All-mono, length-append, length-drop, length-take, take_all, ok, eq-cases,
  lt-cases, ne→==_false, ◌==◌, ==_refl, if◌then◌else◌, inl, inr, arith,
}
use path_oram.Prelude.Words.{Bytes}
use path_oram.Definitions.{Bucket}
use path_oram.Utility.Random.{Source}
use path_oram.Utility.Cipher.{IsAes}
use path_oram.Storage.Config.{StorageConfig, IsStorageConfig, new_storage_config_again}
use path_oram.Storage.Padding.{padded_requests}
use path_oram.Storage.Raw.{IsRawStorage, get_loop-nil, set_loop-nil, looping-HasBatches}
use path_oram.Storage.Adapter.{Adapter, get, set}
use path_oram.Storage.Adapter.Correct.{
  IsSound, view, flat_map-eq, set_ok, get_ok, fill_with_zeroes_lem,
}
use path_oram.Storage.FileSystem.{
  get_internal, set_internal, file_system, write_placeholders, open_file, new_file_system, close,
}
use path_oram.Utility.Files.{
  read_at, write_at, fill_buffer_whole, length-write_at, read_at-write_at, read_before, read_behind,
}
use path_oram.Oram.Store.{IsWrite, written, empty_bucket}

length-read_at :
    (size position : ℕ) (file : Bytes)
    → position + size ≤ length file
    → length (read_at size position file) ≡ size
unfolding read_at
length-read_at size position file h =
    omega (arith, length-take size (drop position file), length-drop position file)

-- Cells are apart.
cell_end : (l n size : ℕ) → l < n → l * size + size ≤ n * size
cell_end l n size h = omega (arith, mul-le-mul_right {m = suc l} {n = n} size h)

module _ (capacity size : ℕ) (stale : Bytes) (buffer : length stale ≡ size) where
  abbrev pub cell_at : Bytes → ℕ → Bytes
  cell_at file l = read_at size (l * size) file

  pub get_internal_ok :
      (file : Bytes) (l : ℕ)
      → length file ≡ capacity * size
      → l < capacity
      → get_internal size stale file l ≡ ok (cell_at file l)
  unfolding get_internal
  get_internal_ok file l whole below =
      let read =
        length-read_at size (l * size) file (omega (arith, cell_end l capacity size below)) in
      ap ok (fill_buffer_whole (cell_at file l) stale (omega (arith, read)))

  other_cell :
      (file raw : Bytes) (l other : ℕ)
      → length file ≡ capacity * size
      → l < capacity
      → other ≢ l
      → length raw ≡ size
      → cell_at (write_at (l * size) raw file) other ≡ cell_at file other
  other_cell file raw l other whole below ne given =
      let inside = cell_end l capacity size below in
      elim (lt-cases other l) [
        | inl before ↦
            read_before size (other * size) (l * size) raw file (cell_end other l size before)
              (omega (arith, inside))
        | inr behind ↦
            read_behind size (other * size) (l * size) raw file
              (omega (arith, cell_end l other size (omega arith), given)) (omega (arith, inside))
      ]

  pub set_internal_ok :
      (file : Bytes) (l : ℕ) (raw : Bytes)
      → length file ≡ capacity * size
      → l < capacity
      → length raw ≡ size
      → (t : Bytes) × (set_internal size stale file l raw ≡ ok t)
        × (length t ≡ capacity * size)
        × ((other : ℕ)
            → other < capacity
            → cell_at t other ≡ (if other == l then raw else cell_at file other))
  unfolding set_internal
  set_internal_ok file l raw whole below given =
      let inside = cell_end l capacity size below in
      let buffered =
        ap (take size) (fill_buffer_whole raw stale (omega arith))
        ∙ take_all size raw (omega arith) in
      (
        write_at (l * size) raw file,
        ap (λ (t : Bytes). ok (write_at (l * size) t file)) buffered,
        length-write_at (l * size) raw file (omega (arith, inside)) ∙ whole,
        λ other proper. elim (eq-cases other l) [
          | inl same ↦
              rw (same, ==_refl l)
                (ap (λ n. read_at n (l * size) (write_at (l * size) raw file)) (sym given)
                  ∙ read_at-write_at (l * size) raw file)
          | inr ne ↦ rw (ne→==_false other l ne) (other_cell file raw l other whole below ne given)
        ],
      )

  -- A file with the length of all the cells.
  abbrev pub file_system-IsRawStorage : IsRawStorage (file_system size stale) capacity size
  file_system-IsRawStorage = record {
    IsSound = λ file. length file ≡ capacity * size;
    cell = cell_at;
    batched = looping-HasBatches Bytes (get_internal size stale) (set_internal size stale);
    get_many-nil = get_loop-nil (get_internal size stale);
    set_many-nil = set_loop-nil (set_internal size stale);
    get_internal_ok = get_internal_ok;
    set_internal_ok = set_internal_ok;
  }

  length-write_placeholders :
      (rounds : ℕ) → length (write_placeholders rounds size stale) ≡ rounds * size
  unfolding write_placeholders
  length-write_placeholders zero = omega arith
  length-write_placeholders (suc rounds) = omega (
    arith,
    length-append (take size stale) (write_placeholders rounds size stale),
    length-take size stale,
    length-write_placeholders rounds,
  )

module _ (c : StorageConfig) (fine : IsStorageConfig c) (aes : IsAes c.aes) (stale : Bytes)
    (buffer : length stale ≡ c.block_size) where
  abbrev pub file_good : IsRawStorage (file_system c.block_size stale) c.capacity c.block_size
  file_good = file_system-IsRawStorage c.capacity c.block_size stale buffer

  -- New
  pub new_file_system_lem :
      (file : Bytes) (draws iv_draws : Source)
      → (a : Adapter (file_system c.block_size stale)) × (new_file_system c.aes c.block_cipher
            c.capacity c.user_block_size c.key c.z c.batch_limit draws iv_draws stale
            (some file)
            true
          ≡ ok (c, a))
        × IsSound c fine aes file_good a
        × ((l : ℕ)
            → l < c.capacity
            → view c fine aes file_good a l ≡ empty_bucket c.z c.user_block_size)
  unfolding new_file_system open_file
  new_file_system_lem file draws iv_draws =
      let (a, filled, sound, empty) =
        fill_with_zeroes_lem c fine aes file_good
          (record {
            storage = write_placeholders c.capacity c.block_size stale;
            iv_draws = iv_draws;
          })
          (length-write_placeholders c.capacity c.block_size stale buffer c.capacity) in
      (a, rw (new_storage_config_again c draws fine, filled) refl, sound, empty)

  -- For a proper configuration and a block cipher that does what `IsAes` says, if a file holds
  -- whole buckets: after a `set` of full buckets at proper locations, with payloads that are not
  -- too long, and after this adapter is destroyed, which closes the file, the constructor of a new
  -- adapter with the same fields, which opens the file without overriding it, does not throw; the
  -- adapter holds whole buckets, and its `get` answers, for each location, the last bucket that was
  -- set there, its payloads padded with zeroes, or what was there before.
  pub get-reopen_set :
      (a : Adapter (file_system c.block_size stale)) (requests : List (ℕ × Bucket))
      (locations : List ℕ) (draws iv_draws : Source)
      → IsSound c fine aes file_good a
      → All (λ r. (r.0 < c.capacity) × IsWrite c.z c.user_block_size r.1) requests
      → All (λ l. l < c.capacity) locations
      → (t : Adapter (file_system c.block_size stale)) × (b : Adapter
          (file_system c.block_size stale))
        × (set c (file_system c.block_size stale) a requests ≡ ok t)
        × (new_file_system c.aes c.block_cipher c.capacity c.user_block_size c.key c.z c.batch_limit
              draws iv_draws stale
              (some (close c.block_size stale t))
              false
            ≡ ok (c, b))
        × IsSound c fine aes file_good b
        × (get c (file_system c.block_size stale) b locations
            ≡ ok (
                flat_map
                  (λ l.
                    written
                      (padded_requests c.user_block_size requests)
                      l
                      (view c fine aes file_good a l))
                  locations))
  unfolding new_file_system open_file close
  get-reopen_set a requests locations draws iv_draws sound h below =
      let (t, ran, sound', sees) = set_ok c fine aes file_good a requests sound h in
      let b : Adapter (file_system c.block_size stale) = record {
        storage = t.storage;
        iv_draws = iv_draws;
      } in
      let kept : IsSound c fine aes file_good b = record {
        sound = sound'.sound;
        cells = sound'.cells;
      } in
      (
        t,
        b,
        ran,
        rw (new_storage_config_again c draws fine) refl,
        kept,
        get_ok c fine aes file_good b locations kept below
            ∙ ap ok (
                flat_map-eq (view c fine aes file_good t)
                  (λ l.
                    written (padded_requests c.user_block_size requests) l
                      (view c fine aes file_good a l))
                  locations (All-mono _ locations sees below)),
      )
