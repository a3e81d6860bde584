-- ===== src/Tests/Files.antt =====
-- The theorems about files, keys and text, and about a position map in another ORAM.
use mathlib.Core.List.{flat_map}
use path_oram.Prelude.{
  ℕ, ◌≡◌, ◌<◌, refl, List, [], ◌∷◌, none, some, replicate, true, false, ◌⊎◌, ok, throw,
  stash_overflow, arith,
}
use path_oram.Prelude.Words.{Bytes}
use path_oram.Stash.{Stash, new_stash}
use path_oram.Stash.Laws.{find}
use path_oram.Stash.Files.{store_to_file, load_from_file}
use path_oram.Stash.Files.RoundTrip.{find-load_from_file}
use path_oram.Utility.Text.{from_text, to_text, trim_right, to_text-from_text}
use path_oram.Utility.Cipher.{cbc}
use path_oram.Storage.Padding.{padded_requests}
use path_oram.Storage.Adapter.{Adapter, adapter_store, get, set}
use path_oram.Storage.Adapter.Correct.{IsSound, view, adapter-IsStore}
use path_oram.Storage.FileSystem.{file_system, new_file_system, close}
use path_oram.Storage.FileSystem.Correct.{file_good, new_file_system_lem, get-reopen_set}
use path_oram.Oram.State.{Oram}
use path_oram.Oram.Store.{IsStore, written, empty_bucket}
use path_oram.Oram.Construction.{new_oram}
use path_oram.Oram.Invariant.{IsConfig}
use path_oram.Oram.Stack.Files.{in_file_oram_correct}
use path_oram.Oram.Access.Run.{run, expected, AreAnswers}
use path_oram.Tests.Fixtures.{small_map}
use path_oram.Tests.Parts.{no_cipher, no_cipher-IsAes}
use path_oram.Tests.Storage.{
  wide, fields, fields-IsStorageConfig, no_leaf, two_requests, one_bucket, one_bucket-IsWrite,
}

abbrev stale : Bytes
stale = replicate 112 1

wide-IsConfig : IsConfig wide
wide-IsConfig = record {
  tall = record { lower = omega arith; upper = omega arith };
  roomy = omega arith;
}

in_file_oram_correct_example :
    (a : Adapter (file_system 112 stale)) × (o : Oram
      (adapter_store fields (file_system 112 stale)))
    × (new_file_system no_cipher cbc 4 32
          (replicate 32 7)
          2
          3
          (λ n. n)
          (λ n. n)
          stale
          (some (3 ∷ []))
          true
        ≡ ok (fields, a))
    × (new_oram {store = adapter_store fields (file_system 112 stale)} wide a small_map
          (new_stash 12)
          true
          (λ n. n)
          (λ n. n)
          (λ n. n)
        ≡ ok o)
    × (((12 < 8) × (run wide o two_requests ≡ throw stash_overflow))
        ⊎ ((p : Oram (adapter_store fields (file_system 112 stale))) × (answers : List Bytes) × (run
                wide o two_requests
              ≡ ok (answers, p))
            × AreAnswers 32 (expected 32 (λ id. none) two_requests) answers))
in_file_oram_correct_example =
    in_file_oram_correct wide no_cipher cbc (replicate 32 7) 3 stale refl (3 ∷ []) small_map 12
      (λ n. n) (λ n. n) (λ n. n) (λ n. n) (λ n. n) two_requests wide-IsConfig no_cipher-IsAes refl
      (omega arith) refl (omega arith) (record { cells = refl }) (omega arith) (omega arith) no_leaf
      ((omega arith, omega arith), (omega arith, tt))

new_file :
    (a : Adapter (file_system 112 stale)) × (new_file_system no_cipher cbc 4 32
        (replicate 32 7)
        2
        3
        (λ n. n)
        (λ n. n)
        stale
        (some [])
        true
      ≡ ok (fields, a))
    × IsSound fields fields-IsStorageConfig no_cipher-IsAes
        (file_good fields fields-IsStorageConfig no_cipher-IsAes stale refl)
        a
    × ((l : ℕ)
        → l < 4
        → view fields fields-IsStorageConfig no_cipher-IsAes
            (file_good fields fields-IsStorageConfig no_cipher-IsAes stale refl)
            a
            l
          ≡ empty_bucket 2 32)
new_file =
    new_file_system_lem fields fields-IsStorageConfig no_cipher-IsAes stale refl [] (λ n. n)
      (λ n. n)

get-reopen_set_example :
    (t : Adapter (file_system 112 stale)) × (b : Adapter (file_system 112 stale)) × (set fields
        (file_system 112 stale)
        new_file.0
        ((1, one_bucket) ∷ [])
      ≡ ok t)
    × (new_file_system no_cipher cbc 4 32
          (replicate 32 7)
          2
          3
          (λ n. n)
          (λ n. 5)
          stale
          (some (close 112 stale t))
          false
        ≡ ok (fields, b))
    × IsSound fields fields-IsStorageConfig no_cipher-IsAes
        (file_good fields fields-IsStorageConfig no_cipher-IsAes stale refl)
        b
    × (get fields (file_system 112 stale) b (1 ∷ 2 ∷ [])
        ≡ ok (
            flat_map
              (λ l. written (padded_requests 32 ((1, one_bucket) ∷ [])) l (
                view fields fields-IsStorageConfig no_cipher-IsAes
                  (file_good fields fields-IsStorageConfig no_cipher-IsAes stale refl)
                  new_file.0
                  l))
              (1 ∷ 2 ∷ [])))
get-reopen_set_example =
    get-reopen_set fields fields-IsStorageConfig no_cipher-IsAes stale refl new_file.0
      ((1, one_bucket) ∷ []) (1 ∷ 2 ∷ []) (λ n. n) (λ n. 5) new_file.2
      ((omega arith, one_bucket-IsWrite), tt) (omega arith, (omega arith, tt))

abbrev two_stashed : Stash
two_stashed = record { stash = (3, 1 ∷ 2 ∷ []) ∷ (7, 4 ∷ 4 ∷ []) ∷ []; capacity = 5 }

find-load_from_file_example :
    (file : Bytes) × (m : Stash) × (store_to_file two_stashed true (9 ∷ []) ≡ ok file)
    × (load_from_file (new_stash 6) (some file) 2 ≡ ok m)
    × (m.capacity ≡ 6)
    × ((id : ℕ) → find m id ≡ find two_stashed id)
unfolding new_stash
find-load_from_file_example =
    find-load_from_file two_stashed (new_stash 6) (9 ∷ []) 2
      ((omega arith, refl), ((omega arith, refl), tt)) (omega arith) refl

trimmed : trim_right (72 ∷ 32 ∷ 105 ∷ []) ≡ 72 ∷ 32 ∷ 105 ∷ []
unfolding trim_right
trimmed = refl

to_text-from_text_example : to_text (from_text (72 ∷ 32 ∷ 105 ∷ []) 16) 16 ≡ 72 ∷ 32 ∷ 105 ∷ []
to_text-from_text_example =
    to_text-from_text (72 ∷ 32 ∷ 105 ∷ []) 16 (omega arith)
      ((λ e. omega (arith, e)), ((λ e. omega (arith, e)), ((λ e. omega (arith, e)), tt))) trimmed

abbrev file_store : IsStore (adapter_store fields (file_system 112 stale)) 4 2 32
file_store =
    adapter-IsStore fields fields-IsStorageConfig no_cipher-IsAes
      (file_good fields fields-IsStorageConfig no_cipher-IsAes stale refl)
