-- ===== src/Oram/Access.antt =====
-- `ORAM::readPath`, `ORAM::access`, and the public `get`, `put` and `multiple`.
pub mod Correct
pub mod Updating
pub mod Refines
pub mod Writing
pub mod Moving
pub mod Reading
pub mod Run
pub mod Pattern
pub mod Multiple
use path_oram.Prelude.{
  ℕ, zero, suc, ◌+◌, ◌-◌, ◌^◌, Bool, true, false, List, [], ◌∷◌, ◌++◌, length, take, replicate,
  ◌==◌, ltb, if◌then◌else◌, Outcome, ok, throw_if, too_many_requests, ◌>>=◌, ◌>>◌,
}
use path_oram.Prelude.Words.{Bytes}
use path_oram.Definitions.{Block, dummy_id}
use path_oram.Utility.Random.{rest, get_random_ulong}
use path_oram.Tree.{bucket_for_level_leaf}
use path_oram.PositionMap
use path_oram.Stash
use path_oram.Oram.Store.{Store}
use path_oram.Oram.State.{Config, Oram}
use path_oram.Oram.Cache.{get_cache, sync_cache}
use path_oram.Oram.Eviction.{write_path}

-- `unordered_set::insert`
unfoldable pub set_insert : ℕ → List ℕ → List ℕ
set_insert l [] = l ∷ []
set_insert l (x ∷ xs) = if l == x then x ∷ xs else x ∷ set_insert l xs

-- The locations of a path, from `level` on, for the levels that are left.
unfoldable pub path_locations : (height levels level leaf : ℕ) → List ℕ → List ℕ
unfolding set_insert
path_locations height zero level leaf path = path
path_locations height (suc levels) level leaf path =
    path_locations height levels (level + 1) leaf
      (set_insert (bucket_for_level_leaf height level leaf) path)

-- The loop that puts the blocks that are no dummies into the stash.
unfoldable pub add_blocks : Stash.Stash → List Block → Outcome Stash.Stash
add_blocks t [] = ok t
add_blocks t ((id, bytes) ∷ blocks) = do
  t' ← if id == dummy_id then ok t else Stash.add t id bytes
  add_blocks t' blocks

module _ {store : Store} (c : Config) where
  unfoldable pub read_path : Oram store → ℕ → List ℕ → Bool → Outcome (List ℕ × Oram store)
  unfolding path_locations add_blocks
  read_path o leaf path put_in_stash =
      let locations = path_locations c.height c.height 0 leaf path in
      if put_in_stash
      then (do
        (blocks, o') ← get_cache c o locations [] false
        stash ← add_blocks o'.stash blocks
        ok (locations, record o' { stash = stash }))
      else ok (locations, o)

  -- `if (!read) stash->update(block, data)`
  unfoldable pub update_block : Oram store → Bool → ℕ → Bytes → Outcome (Oram store)
  update_block o true block bytes = ok o
  update_block o false block bytes = do
    stash ← Stash.update o.stash block bytes
    ok (record o { stash = stash })

  -- The new leaf of a block.
  unfoldable pub remap : Oram store → ℕ → Outcome (Oram store)
  remap o block = do
    map ← PositionMap.set o.map block (get_random_ulong (2 ^ (c.height - 1)) o.leaf_draws)
    ok (record o { map = map; leaf_draws = rest o.leaf_draws })

  unfoldable pub access : Oram store → Bool → ℕ → Bytes → Bytes → Outcome (Bytes × Oram store)
  unfolding remap read_path update_block
  access o read block bytes response = do
    previous ← PositionMap.get o.map block
    o1 ← remap o block
    (_, o2) ← read_path o1 previous [] true
    o3 ← update_block o2 read block bytes
    let answer = Stash.get o3.stash block response
    o4 ← write_path c o3 previous
    ok (answer, o4)

  unfoldable pub get : Oram store → ℕ → Bytes → Outcome (Bytes × Oram store)
  unfolding access
  get o block response = do
    (answer, o1) ← access o true block [] response
    o2 ← sync_cache o1
    ok (answer, o2)

  unfoldable pub put : Oram store → ℕ → Bytes → Outcome (Oram store)
  unfolding access
  put o block bytes = do (_, o1) ← access o false block bytes []; sync_cache o1

  -- The first loop of `multiple`: the locations of all the paths.
  unfoldable pub all_locations : Oram store → List Block → List ℕ → Outcome (List ℕ)
  unfolding read_path
  all_locations o [] locations = ok locations
  all_locations o (request ∷ requests) locations = do
    leaf ← PositionMap.get o.map request.0
    (locations', _) ← read_path o leaf locations false
    all_locations o requests locations'

  -- The second loop, with the response cells that are left. A request with no payload reads.
  unfoldable pub access_all :
      Oram store → List Block → List Bytes → Outcome (List Bytes × Oram store)
  unfolding access
  access_all o [] responses = ok (responses, o)
  access_all o (request ∷ requests) [] = ok ([], o)
  access_all o (request ∷ requests) (response ∷ responses) = do
    (answer, o1) ← access o (length request.1 == 0) request.0 request.1 response
    (answers, o2) ← access_all o1 requests responses
    ok (answer ∷ answers, o2)

  unfoldable pub multiple : Oram store → List Block → List Bytes → Outcome (List Bytes × Oram store)
  unfolding all_locations access_all
  multiple o requests response = do
    throw_if (ltb c.batch_size (length requests)) too_many_requests
    locations ← all_locations o requests []
    (_, o1) ← get_cache c o locations [] true
    let resized = take (length requests) response
    let cells = resized ++ replicate (length requests - length resized) []
    (answers, o2) ← access_all o1 requests cells
    o3 ← sync_cache o2
    ok (answers, o3)
