-- ===== src/Oram/Eviction.antt =====
-- `ORAM::writePath`: the greedy eviction of the stash along a path, from the leaf to the root.
pub mod Pick
pub mod Levels
pub mod Placing
pub mod Correct
use mathlib.Core.List.{reverse}
use path_oram.Prelude.{
  ℕ, zero, suc, ◌+◌, ◌-◌, ◌*◌, ◌%◌, ◌^◌, List, [], ◌∷◌, ◌++◌, map, length, ◌==◌, ltb, if◌then◌else◌,
  Outcome, ok, ◌>>=◌,
}
use path_oram.Prelude.Words.{int_to_number}
use path_oram.Definitions.{Block, Bucket, dummy_id}
use path_oram.Utility.Random.{Source, skip, get_random_block}
use path_oram.Utility.Shuffle.{shuffle_draws}
use path_oram.Tree.{bucket_for_level_leaf, can_include}
use path_oram.PositionMap
use path_oram.PositionMap.{PositionMap}
use path_oram.Stash
use path_oram.Oram.Store.{Store}
use path_oram.Oram.State.{Config, Oram}
use path_oram.Oram.Cache.{set_cache}

-- The blocks of a level (`toInsert`) and their places in the local stash (`toDeleteLocal`).
abbrev pub Picked : Type 0
Picked = List Block × List ℕ

abbrev pub pick : Block → ℕ → Picked → Picked
pick entry i (to_insert, to_delete_local) = (entry ∷ to_insert, i ∷ to_delete_local)

-- The loop over the local stash from entry `i` on, with `count` blocks found so far; it breaks off
-- when the bucket is full.
unfoldable pub pick_from :
    Config → PositionMap → (level leaf count i : ℕ) → List Block → Outcome Picked
pick_from c positions level leaf count i [] = ok ([], [])
pick_from c positions level leaf count i (entry ∷ entries) =
    let more = pick_from c positions level leaf (count + 1) (i + 1) entries in
    let next = pick_from c positions level leaf count (i + 1) entries in
    let taken =
      if count + 1 == c.z
      then ok (pick entry i ([], []))
      else (more >>= λ picked. ok (pick entry i picked)) in
    PositionMap.get positions entry.0 >>= λ entry_leaf.
    if can_include c.height entry_leaf leaf level then taken else next

-- `sort(..., greater<number>())`
unfoldable pub insert_desc : ℕ → List ℕ → List ℕ
insert_desc i [] = i ∷ []
insert_desc i (j ∷ js) = if ltb j i then i ∷ j ∷ js else j ∷ insert_desc i js

unfoldable pub sort_desc : List ℕ → List ℕ
unfolding insert_desc
sort_desc [] = []
sort_desc (i ∷ is) = insert_desc i (sort_desc is)

-- `v.erase(v.begin() + i)`
unfoldable pub erase_at {ℓ} : {A : Type ℓ} → List A → ℕ → List A
erase_at [] i = []
erase_at (x ∷ xs) zero = xs
erase_at (x ∷ xs) (suc i) = x ∷ erase_at xs i

unfoldable pub erase_each {ℓ} : {A : Type ℓ} → List A → List ℕ → List A
unfolding erase_at
erase_each xs [] = xs
erase_each xs (i ∷ is) = erase_each (erase_at xs i) is

-- The bucket, from its `rounds` last cells on; the list holds `toInsert` from its back.
unfoldable pub fill_bucket : (data_size rounds : ℕ) → List Block → Source → Bucket
fill_bucket size zero blocks draws = []
fill_bucket size (suc rounds) (b ∷ blocks) draws = b ∷ fill_bucket size rounds blocks draws
fill_bucket size (suc rounds) [] draws =
    (dummy_id, get_random_block size draws) ∷ fill_bucket size rounds [] (skip size draws)

-- What the loop over the levels leaves: the requests, and the IDs to delete from the stash.
pub record Evicted : Type 0 where
  pub requests : List (ℕ × Bucket)
  pub to_delete : List ℕ
  pub dummy_draws : Source

-- The levels below `levels`, the last one first.
unfoldable pub evict_levels :
    Config → PositionMap → (leaf levels : ℕ) → List Block → Source → Outcome Evicted
unfolding pick_from sort_desc erase_each fill_bucket
evict_levels c positions leaf zero current draws =
    ok (record { requests = []; to_delete = []; dummy_draws = draws })
evict_levels c positions leaf (suc level) current draws = do
  (to_insert, to_delete_local) ← pick_from c positions level leaf 0 0 current
  let bucket = fill_bucket c.data_size c.z (reverse to_insert) draws
  let drawn = (c.z - length to_insert) * c.data_size
  above ←
      evict_levels c positions leaf level (erase_each current (sort_desc to_delete_local))
        (skip drawn draws)
  ok (record above {
    requests = (bucket_for_level_leaf c.height level leaf, bucket) ∷ above.requests;
    to_delete = map (λ b. b.0) to_insert ++ above.to_delete;
  })

unfoldable pub remove_all : Stash.Stash → List ℕ → Stash.Stash
remove_all t [] = t
remove_all t (id ∷ ids) = remove_all (Stash.remove t id) ids

-- `toDelete` is a `vector<int>`: an ID is narrowed to 32 bits on its way in, and widened with its sign
-- on its way out.
unfoldable pub as_int : ℕ → ℕ
unfolding int_to_number
as_int id = int_to_number id

module _ {store : Store} where
  unfoldable pub write_path : Config → Oram store → ℕ → Outcome (Oram store)
  unfolding evict_levels remove_all as_int
  write_path c o leaf = do
    let current = Stash.get_all o.stash o.shuffle_draws []
    let after_shuffle = skip (shuffle_draws o.stash.stash) o.shuffle_draws
    evicted ← evict_levels c o.map leaf c.height current o.dummy_draws
    ok (
        set_cache
          (record o {
            stash = remove_all o.stash (map as_int evicted.to_delete);
            shuffle_draws = after_shuffle;
            dummy_draws = evicted.dummy_draws;
          })
          evicted.requests)
