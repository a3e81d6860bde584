-- ===== src/Tests/Requests.antt =====
-- The theorems about `ORAM` at the small ORAM.
use path_oram.Prelude.{
  ℕ, Memᴰ, Permᴰ, ◌≤◌, ◌<◌, ◌≡◌, true, false, List, [], ◌∷◌, none, some, ◌⊎◌, ◌↔◌, refl, ok, throw,
  stash_overflow, arith,
}
use path_oram.Prelude.Words.{Bytes}
use path_oram.Definitions.{Block, Bucket}
use path_oram.Storage.Padding.{pad, padded_bucket}
use path_oram.PositionMap.Laws.{leaf_of}
use path_oram.Stash.{new_stash}
use path_oram.Tests.Fixtures.{
  bucket_array, bucket_array-IsStore, small, small-IsConfig, small_map, small_tree, small_contents,
  small_oram, small-Inv,
}
use path_oram.Oram.State.{Oram}
use path_oram.Oram.Construction.{new_oram, new_oram_ok}
use path_oram.Oram.Cache.{get_cache, sync_cache}
use path_oram.Oram.Cache.Answers.{get_cache_correct}
use mathlib.Core.List.{flat_map}
use path_oram.Oram.Cache.View.{IsReadable, bucket_at}
use path_oram.Oram.Cache.Sync.{sync_cache_ok}
use path_oram.Oram.Access.{access, get, put}
use path_oram.Oram.Access.Updating.{IsAnswer, accessed}
use path_oram.Oram.Access.Correct.{access_correct, get_correct, put_correct}
use path_oram.Prelude.Assoc.{contains}
use path_oram.Oram.Access.Pattern.{IsOnPath, access_pattern}
use path_oram.Oram.Access.Run.{
  Request, reading, writing, run, expected, AreAnswers, run_correct, run_never_overflows,
}
use path_oram.Oram.Invariant.{put_contents, Inv, Crowded, SameSizes}

-- Reads block 0, which lies in the root.
get_correct_example :
    (Crowded small_oram × (get small small_oram 0 [] ≡ throw stash_overflow))
    ⊎ ((p : Oram bucket_array) × (answer : Bytes) × (get small small_oram 0 [] ≡ ok (answer, p))
        × IsAnswer 2 (small_contents 0) [] answer
        × Inv small bucket_array-IsStore small_contents p
        × SameSizes small_oram p)
get_correct_example =
    get_correct small bucket_array-IsStore small_contents small_oram 0 [] small-IsConfig small-Inv
      (omega arith)

put_correct_example :
    (Crowded small_oram × (put small small_oram 3 (4 ∷ []) ≡ throw stash_overflow))
    ⊎ ((p : Oram bucket_array) × (put small small_oram 3 (4 ∷ []) ≡ ok p)
        × Inv small bucket_array-IsStore (put_contents small_contents 3 (pad 2 (4 ∷ []))) p
        × SameSizes small_oram p)
put_correct_example =
    put_correct small bucket_array-IsStore small_contents small_oram 3 (4 ∷ []) small-IsConfig
      small-Inv (omega arith) (omega arith)

access_correct_example :
    (Crowded small_oram
      × (access small small_oram false 1 (9 ∷ 9 ∷ []) (3 ∷ []) ≡ throw stash_overflow))
    ⊎ ((p : Oram bucket_array) × (answer : Bytes) × (access small small_oram false 1
            (9 ∷ 9 ∷ [])
            (3 ∷ [])
          ≡ ok (answer, p))
        × IsAnswer 2 (accessed small small_contents false 1 (9 ∷ 9 ∷ []) 1) (3 ∷ []) answer
        × Inv small bucket_array-IsStore (accessed small small_contents false 1 (9 ∷ 9 ∷ [])) p
        × SameSizes small_oram p)
access_correct_example =
    access_correct small bucket_array-IsStore small_contents small_oram false 1 (9 ∷ 9 ∷ [])
      (3 ∷ []) small-IsConfig small-Inv (omega arith) (λ e. omega arith)

abbrev some_requests : List Request
some_requests = writing 4 (1 ∷ []) ∷ reading 0 ∷ reading 4 ∷ []

run_correct_example :
    (Crowded small_oram × (run small small_oram some_requests ≡ throw stash_overflow))
    ⊎ ((p : Oram bucket_array) × (answers : List Bytes) × (run small small_oram some_requests
          ≡ ok (answers, p))
        × AreAnswers 2 (expected 2 small_contents some_requests) answers)
run_correct_example =
    run_correct small bucket_array-IsStore small_contents small_oram some_requests small-IsConfig
      small-Inv ((omega arith, omega arith), (omega arith, (omega arith, tt)))

run_never_overflows_example :
    (p : Oram bucket_array) × (answers : List Bytes) × (run small small_oram some_requests
      ≡ ok (answers, p))
    × AreAnswers 2 (expected 2 small_contents some_requests) answers
run_never_overflows_example =
    run_never_overflows small bucket_array-IsStore small_contents small_oram some_requests
      small-IsConfig small-Inv (omega arith)
      ((omega arith, omega arith), (omega arith, (omega arith, tt)))

-- A write to block 1, whose leaf is 1, touches the buckets 1 and 3.
access_pattern_example :
    (Crowded small_oram × (access small small_oram false 1 (9 ∷ 9 ∷ []) [] ≡ throw stash_overflow))
    ⊎ ((p : Oram bucket_array) × (answer : Bytes) × (access small small_oram false 1 (9 ∷ 9 ∷ []) []
          ≡ ok (answer, p))
        × ((l : ℕ) → (contains l p.cache ≡ true) ↔ IsOnPath small 1 l))
access_pattern_example =
    access_pattern small bucket_array-IsStore small_contents small_oram false 1 1 (9 ∷ 9 ∷ []) []
      small-IsConfig small-Inv refl (omega arith) refl (λ e. omega arith)

abbrev some_blocks : List Block
some_blocks = (6, 1 ∷ []) ∷ (0, []) ∷ []

no_leaf : (id leaf : ℕ) → 8 ≤ id → leaf_of small_map id ≡ some leaf → leaf < 2
no_leaf id leaf h e = ground arith

new_oram_ok_example :
    (p : Oram bucket_array) × (new_oram small small_tree small_map
        (new_stash 12)
        true
        (λ n. n)
        (λ n. n)
        (λ n. n)
      ≡ ok p)
    × Inv small bucket_array-IsStore (λ id. none) p
    × (p.map.capacity ≡ small_map.capacity)
    × (p.stash.capacity ≡ 12)
new_oram_ok_example =
    new_oram_ok small bucket_array-IsStore small_tree small_map 12 (λ n. n) (λ n. n) (λ n. n)
      small-IsConfig small-Inv.readable.sound small-Inv.mapped.cells (omega arith) (omega arith)
      no_leaf

get_cache_correct_example :
    (p : Oram bucket_array) × (response : List Block) × (get_cache small small_oram
        (1 ∷ 2 ∷ [])
        []
        false
      ≡ ok (response, p))
    × (get_cache small small_oram (1 ∷ 2 ∷ []) [] true ≡ ok ([], p))
    × Permᴰ response (flat_map (bucket_at small bucket_array-IsStore small_oram) (1 ∷ 2 ∷ []))
    × ((l : ℕ)
        → bucket_at small bucket_array-IsStore p l
          ≡ bucket_at small bucket_array-IsStore small_oram l)
    × ((l : ℕ)
        → (contains l p.cache ≡ true)
          ↔ (Memᴰ l (1 ∷ 2 ∷ []) ⊎ (contains l small_oram.cache ≡ true)))
get_cache_correct_example =
    get_cache_correct small bucket_array-IsStore small_oram (1 ∷ 2 ∷ []) small-Inv.readable
      (omega arith, (omega arith, tt))

sync_cache_ok_example :
    (s : ℕ → Bucket) × (sync_cache small_oram ≡ ok (record small_oram { storage = s; cache = [] }))
    × IsReadable small bucket_array-IsStore (record small_oram { storage = s; cache = [] })
    × ((l : ℕ)
        → l < 4
        → bucket_array-IsStore.view s l
          ≡ padded_bucket 2 (bucket_at small bucket_array-IsStore small_oram l))
sync_cache_ok_example = sync_cache_ok small bucket_array-IsStore small_oram small-Inv.readable
