-- ===== src/Oram/Eviction/Correct.antt =====
-- The loop over the levels as a whole.
use path_oram.Prelude.{ℕ, ◌<◌, ◌≡◌, ◌≢◌, List, All, Memᴰ, ◌⊎◌, ok, arith}
use path_oram.Definitions.{Block, Bucket, dummy_id}
use path_oram.Utility.Random.{Source}
use path_oram.Tree.{HasHeight}
use path_oram.Tree.Path.{leaves}
use path_oram.PositionMap.{PositionMap}
use path_oram.PositionMap.Laws
use path_oram.Oram.Store.{written}
use path_oram.Oram.State.{Config}
use path_oram.Oram.Eviction.{Evicted, evict_levels}
use path_oram.Oram.Eviction.Pick.{Fits}
use path_oram.Oram.Eviction.Levels.{
  IsBlock, at_level, evict_levels_ok, written_off_path, written_on_path, written_deleted,
}

-- For a height from 1 to 31, at least one block in a bucket, a proper leaf, and a local stash of
-- blocks of the position map with payloads that are not longer than a block, the loop over all the
-- levels does not throw. A bucket off the path keeps its blocks; a bucket of the path gets dummies
-- and blocks of the local stash that belong there; every block whose ID is to be deleted is in a
-- bucket of the path.
pub evict_levels_correct :
    (c : Config) (positions : PositionMap) (leaf : ℕ) (current : List Block) (draws : Source)
    → Laws.IsValid positions
    → 0 < c.z
    → HasHeight c.height
    → leaf < leaves c.height
    → All (λ e. (e.0 < positions.capacity) × IsBlock c.data_size e) current
    → (r : Evicted) × (evict_levels c positions leaf c.height current draws ≡ ok r)
      × ((l : ℕ) (old : Bucket)
          → ((k : ℕ) → k < c.height → l ≢ at_level c leaf k)
          → written r.requests l old ≡ old)
      × ((k : ℕ) (old : Bucket) (x : Block)
          → k < c.height
          → Memᴰ x (written r.requests (at_level c leaf k) old)
          → (x.0 ≡ dummy_id) ⊎ (Memᴰ x current × Fits c positions k leaf x))
      × ((old : ℕ → Bucket) (id : ℕ)
          → Memᴰ id r.to_delete
          → (k : ℕ) × (x : Block) × (k < c.height)
            × (x.0 ≡ id)
            × Memᴰ x current
            × Fits c positions k leaf x
            × Memᴰ x (written r.requests (at_level c leaf k) (old (at_level c leaf k))))
evict_levels_correct c positions leaf current draws valid pos hh proper h =
    let (r, ran, evicts) = evict_levels_ok c positions leaf valid pos c.height current draws h in
    (
      r,
      ran,
      written_off_path c positions leaf hh proper evicts,
      λ k old x less. written_on_path c positions leaf hh proper (omega arith) evicts k old x less,
      written_deleted c positions leaf hh proper (omega arith) evicts,
    )
