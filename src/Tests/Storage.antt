-- ===== src/Tests/Storage.antt =====
-- The theorems about the storage at a tree of three buckets with blocks of 32 bytes, kept in memory.
use mathlib.Core.List.{flat_map}
use path_oram.Prelude.{
  ℕ, zero, suc, ◌%◌, ◌*◌, ◌+◌, ◌≤◌, ◌<◌, ◌≡◌, refl, sym, ap, some_path, List, [], ◌∷◌, none, some,
  length, replicate, get_elem?, true, ◌⊎◌, ok, throw, stash_overflow, block_size_too_small,
  block_size_not_multiple, zero_bucket_size, arith,
}
use path_oram.Prelude.Words.{Bytes, u64_mod}
use path_oram.Definitions.{Bucket, dummy_id}
use path_oram.PositionMap.Laws.{leaf_of}
use path_oram.Stash.{new_stash}
use path_oram.Utility.Cipher.{cbc, plain}
use path_oram.Storage.Config.{
  StorageConfig, IsStorageConfig, new_storage_config, new_storage_config_cases,
}
use path_oram.Storage.Adapter.{Adapter, adapter_store, get, set, fill_with_zeroes}
use path_oram.Storage.Adapter.Correct.{IsSound, view, get-set, fill_with_zeroes_lem}
use path_oram.Storage.InMemory.{in_memory, IsMemory, in_memory-IsRawStorage, new_in_memory}
use path_oram.Storage.Padding.{padded_requests}
use path_oram.Oram.State.{Config, Oram}
use path_oram.Oram.Store.{IsWrite, empty_bucket, written}
use path_oram.Oram.Construction.{new_oram}
use path_oram.Oram.Stack.{storage_for, in_memory_oram_correct}
use path_oram.Oram.Access.Run.{Request, reading, writing, run, expected, AreAnswers}
use path_oram.Tests.Fixtures.{small_map}
use path_oram.Tests.Parts.{no_cipher, no_cipher-IsAes}

abbrev pub wide : Config
wide = record { data_size = 32; z = 2; height = 2; buckets = 4; blocks = 8; batch_size = 2 }

abbrev pub fields : StorageConfig
fields = storage_for wide no_cipher cbc (replicate 32 7) 3

abbrev cells : List Bytes
cells = replicate 4 (replicate 112 1)

abbrev stored : Adapter (in_memory 112)
stored = record { storage = cells; iv_draws = λ n. n }

cells-IsMemory : IsMemory 4 112 cells
cells-IsMemory = record { count = refl; sizes = sizes 4 }
  where
    sizes :
        (n l : ℕ) (bytes : Bytes)
        → get_elem? (replicate n (replicate 112 1)) l ≡ some bytes
        → length bytes ≡ 112
    sizes zero l bytes e = ground arith
    sizes (suc n) zero bytes e = ap length (sym (some_path e))
    sizes (suc n) (suc l) bytes e = sizes n l bytes e

pub fields-IsStorageConfig : IsStorageConfig fields
fields-IsStorageConfig = record {
  key_whole = refl;
  large = omega arith;
  roomy = omega arith;
  whole_blocks = refl;
  bucket_bytes = refl;
  counted = omega arith;
}

pub no_leaf : (id leaf : ℕ) → 8 ≤ id → leaf_of small_map id ≡ some leaf → leaf < 2
no_leaf id leaf h e = ground arith

abbrev pub two_requests : List Request
two_requests = writing 5 (replicate 20 4) ∷ reading 5 ∷ []

in_memory_oram_correct_example :
    (a : Adapter (in_memory 112)) × (o : Oram (adapter_store fields (in_memory 112)))
    × (new_in_memory no_cipher cbc 4 32 (replicate 32 7) 2 3 (λ n. n) (λ n. n) cells
        ≡ ok (fields, a))
    × (new_oram {store = adapter_store fields (in_memory 112)} wide a small_map
          (new_stash 12)
          true
          (λ n. n)
          (λ n. n)
          (λ n. n)
        ≡ ok o)
    × (((12 < 8) × (run wide o two_requests ≡ throw stash_overflow))
        ⊎ ((p : Oram (adapter_store fields (in_memory 112))) × (answers : List Bytes) × (run wide o
                two_requests
              ≡ ok (answers, p))
            × AreAnswers 32 (expected 32 (λ id. none) two_requests) answers))
in_memory_oram_correct_example =
    in_memory_oram_correct wide no_cipher cbc (replicate 32 7) 3 cells small_map 12 (λ n. n)
      (λ n. n) (λ n. n) (λ n. n) (λ n. n) two_requests
      (record { tall = record { lower = omega arith; upper = omega arith }; roomy = omega arith })
      no_cipher-IsAes refl (omega arith) refl (omega arith) cells-IsMemory (record { cells = refl })
      (omega arith) (omega arith) no_leaf ((omega arith, omega arith), (omega arith, tt))

fill_with_zeroes_lem_example :
    (t : Adapter (in_memory 112)) × (fill_with_zeroes fields (in_memory 112) stored ≡ ok t)
    × IsSound fields fields-IsStorageConfig no_cipher-IsAes (in_memory-IsRawStorage 4 112) t
    × ((l : ℕ)
        → l < 4
        → view fields fields-IsStorageConfig no_cipher-IsAes (in_memory-IsRawStorage 4 112) t l
          ≡ empty_bucket 2 32)
fill_with_zeroes_lem_example =
    fill_with_zeroes_lem fields fields-IsStorageConfig no_cipher-IsAes
      (in_memory-IsRawStorage 4 112) stored cells-IsMemory

zeroed :
    (t : Adapter (in_memory 112)) × (fill_with_zeroes fields (in_memory 112) stored ≡ ok t)
    × IsSound fields fields-IsStorageConfig no_cipher-IsAes (in_memory-IsRawStorage 4 112) t
    × ((l : ℕ)
        → l < 4
        → view fields fields-IsStorageConfig no_cipher-IsAes (in_memory-IsRawStorage 4 112) t l
          ≡ empty_bucket 2 32)
zeroed =
    fill_with_zeroes_lem fields fields-IsStorageConfig no_cipher-IsAes
      (in_memory-IsRawStorage 4 112) stored cells-IsMemory

abbrev pub one_bucket : Bucket
one_bucket = (3, replicate 20 9) ∷ (dummy_id, []) ∷ []

pub one_bucket-IsWrite : IsWrite 2 32 one_bucket
one_bucket-IsWrite = record {
  full = refl;
  blocks = ((omega arith, omega arith), ((omega arith, omega arith), tt));
}

-- After the storage is filled with zeroes.
abbrev filled : Adapter (in_memory 112)
filled = zeroed.0

get-set_example :
    (t : Adapter (in_memory 112)) × (set fields (in_memory 112) filled ((1, one_bucket) ∷ [])
      ≡ ok t)
    × IsSound fields fields-IsStorageConfig no_cipher-IsAes (in_memory-IsRawStorage 4 112) t
    × (get fields (in_memory 112) t (1 ∷ 2 ∷ [])
        ≡ ok (
            flat_map
              (λ l. written (padded_requests 32 ((1, one_bucket) ∷ [])) l (
                view fields fields-IsStorageConfig no_cipher-IsAes
                  (in_memory-IsRawStorage 4 112)
                  filled
                  l))
              (1 ∷ 2 ∷ [])))
get-set_example =
    get-set fields fields-IsStorageConfig no_cipher-IsAes (in_memory-IsRawStorage 4 112) filled
      ((1, one_bucket) ∷ []) (1 ∷ 2 ∷ []) zeroed.2 ((omega arith, one_bucket-IsWrite), tt)
      (omega arith, (omega arith, tt))

new_storage_config_cases_example :
    (48 < 32 → new_storage_config no_cipher plain 4 48 [] 3 0 (λ n. n) ≡ throw block_size_too_small)
    × (32 ≤ 48
        → ¬ ◌≡◌ {A = ℕ} (48 % 16) 0
        → new_storage_config no_cipher plain 4 48 [] 3 0 (λ n. n) ≡ throw block_size_not_multiple)
    × (32 ≤ 48
        → ◌≡◌ {A = ℕ} (48 % 16) 0
        → ◌≡◌ {A = ℕ} 3 0
        → new_storage_config no_cipher plain 4 48 [] 3 0 (λ n. n) ≡ throw zero_bucket_size)
    × (32 ≤ 48
        → ◌≡◌ {A = ℕ} (48 % 16) 0
        → 0 < 3
        → (48 + 16) * 3 + 16 < u64_mod
        → (c : StorageConfig) × (new_storage_config no_cipher plain 4 48 [] 3 0 (λ n. n) ≡ ok c)
          × IsStorageConfig c
          × (c.capacity ≡ 4)
          × (c.user_block_size ≡ 48)
          × (c.z ≡ 3))
new_storage_config_cases_example = new_storage_config_cases no_cipher plain 4 48 [] 3 0 (λ n. n)
