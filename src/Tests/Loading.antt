-- ===== src/Tests/Loading.antt =====
-- The theorems about `ORAM::load`, at the small tree with nothing in it.
use path_oram.Prelude.{◌≡◌, refl, List, [], ◌∷◌, ◌++◌, none, some, Permᴰ, inl, ok, replicate, arith}
use path_oram.Prelude.Assoc.{lookup}
use path_oram.Definitions.{Block, dummy_id}
use path_oram.Tree.Shifts.{sub64}
use path_oram.Stash.{current_size}
use path_oram.Oram.Store.{empty_bucket}
use path_oram.Oram.State.{Oram}
use path_oram.Oram.Invariant.{Inv, SameSizes}
use path_oram.Oram.Loading.{load, fill_up, bucket_count}
use path_oram.Oram.Loading.Filling.{fill_up_ends}
use path_oram.Oram.Loading.Spreading.{exact_spread, exact_spread-IsSpread}
use path_oram.Oram.Loading.Correct.{loaded_contents, load_correct}
use path_oram.Tests.Fixtures.{
  bucket_array, bucket_array-IsStore, small, small-IsConfig, small_oram, small-Inv, empty-IsBucket,
  empty-dummy,
}

abbrev empty_oram : Oram bucket_array
empty_oram = record small_oram {
  storage = λ l. empty_bucket 2 2;
  stash = record { stash = []; capacity = 12 };
}

empty-Inv : Inv small bucket_array-IsStore (λ id. none) empty_oram
unfolding lookup current_size bucket_array-IsStore
empty-Inv = record {
  readable = record {
    positive = omega arith;
    sound = λ l below. empty-IsBucket;
    cached = record { distinct = tt; entries = tt };
  };
  mapped = record {
    cells = small-Inv.mapped.cells;
    numbered = small-Inv.mapped.numbered;
    proper = small-Inv.mapped.proper;
    known = λ id d e. ground arith;
  };
  stash_valid = record { distinct = tt; bounded = omega arith };
  stash_sound = λ id d e. ground arith;
  tree_sound = λ l x below m. inl (empty-dummy x m);
  complete = λ id d e. ground arith;
}

abbrev some_data : List Block
some_data = (3, 1 ∷ []) ∷ (5, 2 ∷ 2 ∷ []) ∷ (6, []) ∷ []

two_buckets : bucket_count small some_data ≡ 2
unfolding bucket_count sub64
two_buckets = refl

load_correct_example :
    (p : Oram bucket_array) × (shuffled : List Block) × (load small exact_spread empty_oram
        some_data
      ≡ ok (shuffled, p))
    × Permᴰ some_data shuffled
    × Inv small bucket_array-IsStore (loaded_contents 2 some_data) p
    × (p.cache ≡ [])
    × SameSizes empty_oram p
unfolding lookup
load_correct_example =
    load_correct small bucket_array-IsStore exact_spread empty_oram some_data small-IsConfig
      (omega arith) (omega arith) empty-Inv refl
      (record {
        distinct = (refl, (refl, (refl, tt)));
        blocks = (
          (omega arith, omega arith),
          ((omega arith, omega arith), ((omega arith, omega arith), tt)),
        );
      })
      (omega arith) (omega (arith, two_buckets))
      (exact_spread-IsSpread 4 (bucket_count small some_data) (omega (arith, two_buckets)))

fill_up_ends_example :
    fill_up 5 4 7 ((3, []) ∷ []) ≡ some ((3, []) ∷ [] ++ replicate 3 (dummy_id, []))
fill_up_ends_example =
    fill_up_ends 3 5 4 7 ((3, []) ∷ []) refl (omega arith) (omega arith) (omega arith)
