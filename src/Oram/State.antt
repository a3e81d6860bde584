-- ===== src/Oram/State.antt =====
-- The fields of `ORAM`, the constant ones apart. `storage` is any storage with the operations of
-- `Store`; the position map and the stash are the in-memory ones. Each use of the random generator
-- has a stream of its own.
use path_oram.Prelude.{ℕ, ◌*◌, ◌%◌, ◌^◌, List}
use path_oram.Prelude.Words.{u64_mod}
use path_oram.Definitions.{Bucket}
use path_oram.Utility.Random.{Source}
use path_oram.PositionMap.{PositionMap}
use path_oram.Stash.{Stash}
use path_oram.Oram.Store.{Store}

-- The constants of an `ORAM`. They are an argument of its operations.
pub record Config : Type 0 where
  pub data_size : ℕ
  pub z : ℕ
  pub height : ℕ
  pub buckets : ℕ
  pub blocks : ℕ
  pub batch_size : ℕ

-- The constants that the constructor derives from its arguments.
unfoldable pub new_config : (log_capacity block_size z batch_size : ℕ) → Config
new_config log_capacity block_size z batch_size = record {
  data_size = block_size;
  z = z;
  height = log_capacity;
  buckets = 2 ^ log_capacity % u64_mod;
  blocks = 2 ^ log_capacity * z % u64_mod;
  batch_size = batch_size;
}

-- What changes.
pub record Oram (store : Store) : Type 0 where
  pub storage : store.State
  pub map : PositionMap
  pub stash : Stash
  -- buckets held in memory until `sync_cache`
  pub cache : List (ℕ × Bucket)
  pub leaf_draws : Source
  pub shuffle_draws : Source
  pub dummy_draws : Source
