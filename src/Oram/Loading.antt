-- ===== src/Oram/Loading.antt =====
-- `ORAM::load`, which puts data into an empty tree. The locations are spread by arithmetic on
-- `long double`s, which is a parameter.
pub mod Filling
pub mod Spreading
pub mod Placing
pub mod Requested
pub mod Rounds
pub mod Finished
pub mod Written
pub mod Correct
use path_oram.Prelude.{
  ℕ, zero, suc, ◌+◌, ◌-◌, ◌/◌, ◌%◌, ◌^◌, List, [], ◌∷◌, ◌++◌, Option, none, some, length, ltb, ◌==◌,
  if◌then◌else◌, Outcome, ok, throw_if, too_much_data, ◌>>=◌, ◌>>◌,
}
use path_oram.Prelude.Words.{u64_mod, u32_mod, int_to_number}
use path_oram.Definitions.{Block, Bucket, dummy_id}
use path_oram.Utility.Random.{Source, rest, skip, get_random_ulong}
use path_oram.Utility.Shuffle.{shuffle, shuffle_draws}
use path_oram.Tree.{leaves_for_location}
use path_oram.Tree.Shifts.{sub64}
use path_oram.PositionMap
use path_oram.Oram.Store.{Store}
use path_oram.Oram.State.{Config, Oram}

-- `floor(1 + iteration * step)` where `step` is `maxLocation / (long double)bucketCount`
abbrev pub Spread : Type 0
Spread = (max_location bucket_count iteration : ℕ) → ℕ

-- `getRandomULong(to - from + 1) + from`
unfoldable pub draw_between : ℕ × ℕ → Source → ℕ
draw_between range draws =
    (get_random_ulong ((sub64 range.1 range.0 + 1) % u64_mod) draws + range.0) % u64_mod

-- What the loop over the data leaves; `requests` are the buckets that it fills.
pub record Placed : Type 0 where
  pub map : PositionMap.PositionMap
  pub draws : Source
  pub iteration : ℕ
  pub bucket : Bucket
  pub requests : List (ℕ × Bucket)

-- The loop over the data, from some iteration and unfinished bucket on.
unfoldable pub place :
    Config
    → (location : ℕ → ℕ) → PositionMap.PositionMap
    → Source
    → ℕ
    → Bucket
    → List Block
    → Outcome Placed
unfolding draw_between
place c location map draws iteration bucket [] =
    ok (record { map = map; draws = draws; iteration = iteration; bucket = bucket; requests = [] })
place c location map draws iteration bucket (r ∷ input) = do
  let leaf = draw_between (leaves_for_location c.height (location iteration)) draws
  map' ← PositionMap.set map r.0 leaf
  let grown = if ltb (length bucket) c.z then bucket ++ r ∷ [] else bucket
  let full = length grown == c.z
  after ←
      place c location map' (rest draws) (if full then iteration + 1 else iteration)
        (if full then [] else grown) input
  ok (
      if full
      then record after { requests = (location iteration, grown) ∷ after.requests }
      else after)

-- `for (auto i = 0u; i < bucket.size() - Z; i++)`, which stops within the rounds, or else not. The
-- bound is computed again in each round, and wraps around while the bucket has less than `Z` blocks.
unfoldable pub fill_up : (rounds z i : ℕ) → Bucket → Option Bucket
fill_up zero z i bucket = none
fill_up (suc rounds) z i bucket =
    let next = fill_up rounds z ((i + 1) % u32_mod) (bucket ++ (dummy_id, []) ∷ []) in
    if ltb i (sub64 (length bucket) z) then next else some bucket

-- The requests with the last bucket, if one is unfinished.
unfoldable pub with_last : Config → (location : ℕ → ℕ) → Placed → List (ℕ × Bucket)
unfolding fill_up
with_last c location placed =
    if ltb 0 (length placed.bucket)
    then elim (fill_up (c.z + 1) c.z 0 placed.bucket) [
      | some filled ↦ placed.requests ++ (location placed.iteration, filled) ∷ []
      | none ↦ placed.requests
    ]
    else placed.requests

-- `(data.size() + Z - 1) / Z`
unfoldable pub bucket_count : Config → List Block → ℕ
bucket_count c input = sub64 ((length input + c.z) % u64_mod) 1 / c.z

module _ {store : Store} (c : Config) (spread : Spread) where
  -- The data are shuffled in place.
  unfoldable pub load_below :
      (max_location : ℕ) → Oram store → List Block → Outcome (List Block × Oram store)
  unfolding bucket_count place with_last
  load_below max_location o input = do
    let location = spread max_location (bucket_count c input)
    throw_if (ltb max_location (bucket_count c input)) too_much_data
    let shuffled = shuffle o.shuffle_draws input
    placed ← place c location o.map o.leaf_draws 0 [] shuffled
    storage ← store.set o.storage (with_last c location placed)
    ok (
      shuffled,
      record o {
        storage = storage;
        map = placed.map;
        leaf_draws = placed.draws;
        shuffle_draws = skip (shuffle_draws input) o.shuffle_draws;
      },
    )

  -- `1 << height` is an `int`.
  unfoldable pub load : Oram store → List Block → Outcome (List Block × Oram store)
  unfolding load_below
  load o input = load_below (int_to_number (2 ^ c.height)) o input
