-- ===== src/Oram/Stack.antt =====
-- An ORAM over the in-memory storage, from the constructors on.
pub mod Files
use path_oram.Prelude.{
  ℕ, ◌+◌, ◌*◌, ◌%◌, ◌^◌, ◌≤◌, ◌<◌, ◌≡◌, refl, sym, subst, inl, inr, arith, List, none, some, length,
  All, true, ◌⊎◌, ok, throw, stash_overflow,
}
use path_oram.Prelude.Words.{Bytes, u64_mod}
use path_oram.Definitions.{key_size, aes_block_size}
use path_oram.Utility.Random.{Source}
use path_oram.Utility.Cipher.{Aes, IsAes, BlockCipherMode}
use path_oram.Tree.Path.{leaves}
use path_oram.PositionMap.{PositionMap}
use path_oram.PositionMap.Laws as PositionMapLaws
use path_oram.PositionMap.Laws.{leaf_of}
use path_oram.Stash.{new_stash}
use path_oram.Storage.Config.{StorageConfig, IsStorageConfig, new_storage_config_again}
use path_oram.Storage.Raw.{RawStorage, IsRawStorage}
use path_oram.Oram.Store.{Store}
use path_oram.Storage.Adapter.{Adapter, adapter_store}
use path_oram.Storage.Adapter.Correct.{IsSound, adapter-IsStore, fill_with_zeroes_lem}
use path_oram.Storage.InMemory.{in_memory, IsMemory, in_memory-IsRawStorage, new_in_memory}
use path_oram.Oram.State.{Config, Oram}
use path_oram.Oram.Construction.{new_oram, new_oram_ok}
use path_oram.Oram.Access.Run.{Request, IsRequest, expected, AreAnswers, run, run_correct}
use path_oram.Oram.Invariant.{IsConfig}

-- The fields of a storage for the tree of an ORAM.
abbrev pub storage_for :
    Config → Aes → BlockCipherMode → (key : Bytes) → (batch_limit : ℕ) → StorageConfig
storage_for oc aes block_cipher key batch_limit = record {
  aes = aes;
  block_cipher = block_cipher;
  key = key;
  z = oc.z;
  batch_limit = batch_limit;
  capacity = 2 ^ oc.height;
  block_size = (oc.data_size + aes_block_size) * oc.z + aes_block_size;
  user_block_size = oc.data_size;
}

module _ (oc : Config) (aes : Aes) (block_cipher : BlockCipherMode) (key : Bytes)
    (batch_limit : ℕ) where
  abbrev pub fields : StorageConfig
  fields = storage_for oc aes block_cipher key batch_limit

  pub fields-IsStorageConfig :
      IsConfig oc
      → length key ≡ key_size
      → 2 * aes_block_size ≤ oc.data_size
      → oc.data_size % aes_block_size ≡ 0
      → fields.block_size < u64_mod
      → IsStorageConfig fields
  fields-IsStorageConfig fits key_whole large whole counted = record {
    key_whole = key_whole;
    large = large;
    roomy = fits.roomy;
    whole_blocks = whole;
    bucket_bytes = refl;
    counted = counted;
  }

  module _ {raw : RawStorage} (raw_good : IsRawStorage raw fields.capacity fields.block_size) where
    abbrev pub raw_store : Store
    raw_store = adapter_store fields raw

    -- An ORAM over an adapter that holds whole buckets.
    pub new_oram_correct :
        (a : Adapter raw) (map : PositionMap) (capacity : ℕ)
        (leaf_draws shuffle_draws dummy_draws : Source) (requests : List Request) (good : IsAes aes)
        (fine : IsStorageConfig fields)
        → IsConfig oc
        → IsSound fields fine good raw_good a
        → PositionMapLaws.IsValid map
        → oc.blocks ≤ map.capacity
        → map.capacity ≤ 2 ^ 31
        → ((id leaf : ℕ) → oc.blocks ≤ id → leaf_of map id ≡ some leaf → leaf < leaves oc.height)
        → All (IsRequest map.capacity oc.data_size) requests
        → (o : Oram raw_store) × (new_oram {store = raw_store} oc a map
              (new_stash capacity)
              true
              leaf_draws
              shuffle_draws
              dummy_draws
            ≡ ok o)
          × (((capacity < map.capacity) × (run oc o requests ≡ throw stash_overflow))
              ⊎ ((p : Oram raw_store) × (answers : List Bytes) × (run oc o requests
                    ≡ ok (answers, p))
                  × AreAnswers oc.data_size (expected oc.data_size (λ id. none) requests) answers))
    new_oram_correct a map capacity leaf_draws shuffle_draws dummy_draws requests good fine fits
          sound v enough small rest_proper proper =
        let store_good = adapter-IsStore fields fine good raw_good in
        let (o, made, inv, same, same') =
          new_oram_ok oc store_good a map capacity leaf_draws shuffle_draws dummy_draws fits sound v
            enough small rest_proper in
        (
          o,
          made,
          elim (run_correct oc store_good (λ id. none) o requests fits inv
              (subst (λ (n : ℕ). All (IsRequest n oc.data_size) requests) (sym same) proper)) [
                | inl (crowded, over) ↦ inl (omega (arith, crowded, same, same'), over)
                | inr done ↦ inr done
              ],
        )

  abbrev pub memory_storage : RawStorage
  memory_storage = in_memory fields.block_size

  -- For a height from 1 to 31 and at least one block in a bucket: over new arrays, whatever they
  -- hold, with a key of 32 bytes, a block size from 32 on that is a multiple of 16, buckets of
  -- fewer than 2 ^ 64 bytes, and a block cipher that does what `IsAes` says, the constructors of
  -- the in-memory storage and of the ORAM do not throw, and any sequence of gets and puts of blocks
  -- below the capacity of the position map, with payloads that are not longer than a block, is
  -- answered, up to zeroes at the ends of the answers, as an empty map answers it, through cipher,
  -- cache, eviction and stash, unless the stash overflows, which has fewer cells than the position
  -- map then. The position map has at least `blocks` and at most 2 ^ 31 cells, and none behind the
  -- first `blocks` is out of the tree.
  pub in_memory_oram_correct :
      (memory : List Bytes) (map : PositionMap) (capacity : ℕ)
      (draws iv_draws leaf_draws shuffle_draws dummy_draws : Source) (requests : List Request)
      → IsConfig oc
      → IsAes aes
      → length key ≡ key_size
      → 2 * aes_block_size ≤ oc.data_size
      → oc.data_size % aes_block_size ≡ 0
      → fields.block_size < u64_mod
      → IsMemory fields.capacity fields.block_size memory
      → PositionMapLaws.IsValid map
      → oc.blocks ≤ map.capacity
      → map.capacity ≤ 2 ^ 31
      → ((id leaf : ℕ) → oc.blocks ≤ id → leaf_of map id ≡ some leaf → leaf < leaves oc.height)
      → All (IsRequest map.capacity oc.data_size) requests
      → (a : Adapter memory_storage) × (o : Oram (adapter_store fields memory_storage))
        × (new_in_memory aes block_cipher
              (2 ^ oc.height)
              oc.data_size
              key
              oc.z
              batch_limit
              draws
              iv_draws
              memory
            ≡ ok (fields, a))
        × (new_oram {store = adapter_store fields memory_storage} oc a map
              (new_stash capacity)
              true
              leaf_draws
              shuffle_draws
              dummy_draws
            ≡ ok o)
        × (((capacity < map.capacity) × (run oc o requests ≡ throw stash_overflow))
            ⊎ ((p : Oram (adapter_store fields memory_storage)) × (answers : List Bytes) × (run oc o
                    requests
                  ≡ ok (answers, p))
                × AreAnswers oc.data_size (expected oc.data_size (λ id. none) requests) answers))
  unfolding new_in_memory
  in_memory_oram_correct memory map capacity draws iv_draws leaf_draws shuffle_draws dummy_draws
        requests fits good key_whole large whole counted clean v enough small rest_proper proper =
      let fine = fields-IsStorageConfig fits key_whole large whole counted in
      let raw_good = in_memory-IsRawStorage fields.capacity fields.block_size in
      let (a, filled, sound, empty) =
        fill_with_zeroes_lem fields fine good raw_good
          (record { storage = memory; iv_draws = iv_draws }) clean in
      let (o, running, served) =
        new_oram_correct raw_good a map capacity leaf_draws shuffle_draws dummy_draws requests good
          fine fits sound v enough small rest_proper proper in
      let config = new_storage_config_again fields draws fine in
      (a, o, rw (config, filled) refl, running, served)
