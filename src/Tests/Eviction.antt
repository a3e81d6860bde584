-- ===== src/Tests/Eviction.antt =====
-- The theorems about `writePath` and what it calls, at the small tree.
use path_oram.Prelude.{
  ℕ, ◌<◌, ◌≡◌, ◌≢◌, refl, List, [], ◌∷◌, ◌⊎◌, inl, inr, ok, Memᴰ, none, some, eq-cases, arith,
}
use path_oram.Prelude.Assoc.{lookup}
use path_oram.Prelude.Words.{Bytes}
use path_oram.Storage.Padding.{pad}
use path_oram.Stash.Laws.{find}
use path_oram.Definitions.{Block, Bucket, dummy_id}
use path_oram.Stash.{current_size}
use path_oram.Tests.Fixtures.{
  bucket_array, bucket_array-IsStore, small, small-IsConfig, small_map, small_contents, small_oram,
  small-Inv, empty-IsBucket, empty-dummy,
}
use path_oram.Oram.Store.{empty_bucket, written}
use path_oram.Oram.State.{Oram}
use path_oram.Oram.Eviction.{Evicted, evict_levels, sort_desc, erase_each, write_path}
use path_oram.Oram.Eviction.Pick.{
  take, pass, stop, erase_each-Picks, PickResult, Fits, pick_from_ok,
}
use path_oram.Oram.Eviction.Levels.{at_level}
use path_oram.Oram.Eviction.Correct.{evict_levels_correct}
use path_oram.Oram.Access.Writing.{write_path_ok}
use path_oram.Stash.Laws.{find}
use path_oram.Oram.Access.Moving.{MovedOrKept, write_path_moves}
use path_oram.Oram.Invariant.{Expects, Inv, Mid}

abbrev two_blocks : List Block
two_blocks = (0, 5 ∷ 6 ∷ []) ∷ (1, 7 ∷ 8 ∷ []) ∷ []

-- The small ORAM with both blocks in the stash.
abbrev read_oram : Oram bucket_array
read_oram = record small_oram {
  storage = λ l. empty_bucket 2 2;
  stash = record { stash = two_blocks; capacity = 12 };
}

in_stash :
    (id : ℕ) (d : Bytes) → find read_oram.stash id ≡ some d → Expects small small_contents id d
unfolding lookup pad
in_stash id d e = elim (eq-cases id 0) [
  | inl here ↦ let payload : d ≡ 5 ∷ 6 ∷ [] = ground arith in rw (here, payload) refl
  | inr ne ↦
      let here : id ≡ 1 = ground arith in
      let payload : d ≡ 7 ∷ 8 ∷ [] = ground arith in rw (here, payload) refl
]

read-Mid : Mid small bucket_array-IsStore small_contents 0 0 read_oram
unfolding lookup current_size bucket_array-IsStore
read-Mid = record {
  readable = record {
    positive = omega arith;
    sound = λ l below. empty-IsBucket;
    cached = record { distinct = tt; entries = tt };
  };
  mapped = small-Inv.mapped;
  stash_valid = record { distinct = (refl, (refl, tt)); bounded = omega arith };
  stash_sound = λ id d e. in_stash id d e;
  tree_sound = λ l x below off m. inl (empty-dummy x m);
  complete = λ id d e. inl (d, ground arith);
}

write_path_ok_example :
    (p : Oram bucket_array) × (write_path small read_oram 0 ≡ ok p)
    × Inv small bucket_array-IsStore small_contents p
    × (p.map ≡ read_oram.map)
    × (p.stash.capacity ≡ 12)
write_path_ok_example =
    write_path_ok small bucket_array-IsStore small-IsConfig small_contents 0 0 read_oram read-Mid
      (omega arith)

write_path_moves_example :
    (p : Oram bucket_array) × (write_path small read_oram 0 ≡ ok p)
    × ((id : ℕ) → find read_oram.stash id ≡ none → find p.stash id ≡ none)
    × ((id : ℕ) (d : Bytes)
        → find read_oram.stash id ≡ some d
        → MovedOrKept small bucket_array-IsStore 0 read_oram p id d)
write_path_moves_example =
    write_path_moves small bucket_array-IsStore small-IsConfig small_contents 0 0 read_oram read-Mid
      (omega arith)

evict_levels_correct_example :
    (r : Evicted) × (evict_levels small small_map 0 2 two_blocks (λ n. n) ≡ ok r)
    × ((l : ℕ) (old : Bucket)
        → ((k : ℕ) → k < 2 → l ≢ at_level small 0 k)
        → written r.requests l old ≡ old)
    × ((k : ℕ) (old : Bucket) (x : Block)
        → k < 2
        → Memᴰ x (written r.requests (at_level small 0 k) old)
        → (x.0 ≡ dummy_id) ⊎ (Memᴰ x two_blocks × Fits small small_map k 0 x))
    × ((old : ℕ → Bucket) (id : ℕ)
        → Memᴰ id r.to_delete
        → (k : ℕ) × (x : Block) × (k < 2)
          × (x.0 ≡ id)
          × Memᴰ x two_blocks
          × Fits small small_map k 0 x
          × Memᴰ x (written r.requests (at_level small 0 k) (old (at_level small 0 k))))
evict_levels_correct_example =
    evict_levels_correct small small_map 0 two_blocks (λ n. n) small-Inv.mapped.cells (omega arith)
      small-IsConfig.tall (omega arith)
      ((omega arith, (omega arith, omega arith)), ((omega arith, (omega arith, omega arith)), tt))

pick_from_ok_example : PickResult small small_map 1 0 0 0 two_blocks
pick_from_ok_example =
    pick_from_ok small small_map 1 0 small-Inv.mapped.cells 0 0 two_blocks (omega arith)
      (omega arith, (omega arith, tt))

erase_each-Picks_example : erase_each two_blocks (sort_desc (1 ∷ [])) ≡ (0, 5 ∷ 6 ∷ []) ∷ []
erase_each-Picks_example = erase_each-Picks (pass (take stop))
