-- ===== src/Oram/Stack/Files.antt =====
-- An ORAM over a new file, from the constructors on.
use path_oram.Prelude.{
  ℕ, ◌*◌, ◌%◌, ◌^◌, ◌≤◌, ◌<◌, ◌≡◌, List, none, some, length, All, true, ◌⊎◌, ok, throw,
  stash_overflow,
}
use path_oram.Prelude.Words.{Bytes, u64_mod}
use path_oram.Definitions.{key_size, aes_block_size}
use path_oram.Utility.Random.{Source}
use path_oram.Utility.Cipher.{Aes, IsAes, BlockCipherMode}
use path_oram.Tree.Path.{leaves}
use path_oram.PositionMap.{PositionMap}
use path_oram.PositionMap.Laws as PositionMapLaws
use path_oram.PositionMap.Laws.{leaf_of}
use path_oram.Stash.{new_stash}
use path_oram.Storage.Config.{StorageConfig}
use path_oram.Storage.Raw.{RawStorage}
use path_oram.Storage.Adapter.{Adapter, adapter_store}
use path_oram.Storage.FileSystem.{file_system, new_file_system}
use path_oram.Storage.FileSystem.Correct.{file_good, new_file_system_lem}
use path_oram.Oram.State.{Config, Oram}
use path_oram.Oram.Construction.{new_oram}
use path_oram.Oram.Access.Run.{Request, IsRequest, expected, AreAnswers, run}
use path_oram.Oram.Invariant.{IsConfig}
use path_oram.Oram.Stack.{fields as storage_fields, fields-IsStorageConfig, new_oram_correct}

module _ (oc : Config) (aes : Aes) (block_cipher : BlockCipherMode) (key : Bytes) (batch_limit : ℕ)
    (stale : Bytes)
    (buffer : length stale ≡ (storage_fields oc aes block_cipher key batch_limit).block_size) where
  abbrev pub fields : StorageConfig
  fields = storage_fields oc aes block_cipher key batch_limit

  abbrev pub file_storage : RawStorage
  file_storage = file_system fields.block_size stale

  -- For a height from 1 to 31 and at least one block in a bucket: over a file that opens, with a
  -- key of 32 bytes, a block size from 32 on that is a multiple of 16, buckets of fewer than 2 ^ 64
  -- bytes, and a block cipher that does what `IsAes` says, the constructors of the file system
  -- storage, which overrides the file, and of the ORAM do not throw, and any sequence of gets and
  -- puts of blocks below the capacity of the position map, with payloads that are not longer than a
  -- block, is answered, up to zeroes at the ends of the answers, as an empty map answers it, unless
  -- the stash overflows, which has fewer cells than the position map then. The position map has at
  -- least `blocks` and at most 2 ^ 31 cells, and none behind the first `blocks` is out of the tree.
  pub in_file_oram_correct :
      (file : Bytes) (map : PositionMap) (capacity : ℕ)
      (draws iv_draws leaf_draws shuffle_draws dummy_draws : Source) (requests : List Request)
      → IsConfig oc
      → IsAes aes
      → length key ≡ key_size
      → 2 * aes_block_size ≤ oc.data_size
      → oc.data_size % aes_block_size ≡ 0
      → fields.block_size < u64_mod
      → PositionMapLaws.IsValid map
      → oc.blocks ≤ map.capacity
      → map.capacity ≤ 2 ^ 31
      → ((id leaf : ℕ) → oc.blocks ≤ id → leaf_of map id ≡ some leaf → leaf < leaves oc.height)
      → All (IsRequest map.capacity oc.data_size) requests
      → (a : Adapter file_storage) × (o : Oram (adapter_store fields file_storage))
        × (new_file_system aes block_cipher
              (2 ^ oc.height)
              oc.data_size
              key
              oc.z
              batch_limit
              draws
              iv_draws
              stale
              (some file)
              true
            ≡ ok (fields, a))
        × (new_oram {store = adapter_store fields file_storage} oc a map
              (new_stash capacity)
              true
              leaf_draws
              shuffle_draws
              dummy_draws
            ≡ ok o)
        × (((capacity < map.capacity) × (run oc o requests ≡ throw stash_overflow))
            ⊎ ((p : Oram (adapter_store fields file_storage)) × (answers : List Bytes) × (run oc o
                    requests
                  ≡ ok (answers, p))
                × AreAnswers oc.data_size (expected oc.data_size (λ id. none) requests) answers))
  in_file_oram_correct file map capacity draws iv_draws leaf_draws shuffle_draws dummy_draws
        requests fits good key_whole large whole counted v enough small rest_proper proper =
      let fine =
        fields-IsStorageConfig oc aes block_cipher key batch_limit fits key_whole large whole
          counted in
      let (a, made, sound, empty) =
        new_file_system_lem fields fine good stale buffer file draws iv_draws in
      let (o, running, served) =
        new_oram_correct oc aes block_cipher key batch_limit
          (file_good fields fine good stale buffer) a map capacity leaf_draws shuffle_draws
          dummy_draws requests good fine fits sound v enough small rest_proper proper in
      (a, o, made, running, served)
