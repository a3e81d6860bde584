-- ===== src/Oram/Cache.antt =====
-- `ORAM::getCache`, `ORAM::setCache` and `ORAM::syncCache`.
pub mod Sync
pub mod Hits
pub mod Keys
pub mod View
pub mod Answers
pub mod Collect
use path_oram.Prelude.{
  ℕ, ◌+◌, ◌-◌, ◌/◌, ◌%◌, Bool, List, [], ◌∷◌, ◌++◌, Option, none, some, get_elem?, ◌==◌,
  if◌then◌else◌, Outcome, ok, ◌>>=◌,
}
use path_oram.Prelude.Assoc.{lookup, assign}
use path_oram.Definitions.{Block, Bucket}
use path_oram.Oram.Store.{Store}
use path_oram.Oram.State.{Config, Oram}

-- The first loop: the locations to fetch, and the response with the cached buckets in front.
unfoldable pub split_hits :
    List (ℕ × Bucket) → Bool → List ℕ → List ℕ → List Block → List ℕ × List Block
split_hits cache dry_run [] to_get response = (to_get, response)
split_hits cache dry_run (l ∷ locations) to_get response = elim (lookup l cache) [
  | none ↦ split_hits cache dry_run locations (to_get ++ l ∷ []) response
  | some bucket ↦
      split_hits cache dry_run locations to_get (if dry_run then response else bucket ++ response)
]

-- `cache[toGet[j]] = bucket`, where there is a `toGet[j]`
abbrev pub store_at : List (ℕ × Bucket) → Option ℕ → Bucket → List (ℕ × Bucket)
store_at cache (some l) bucket = assign l bucket cache
store_at cache none bucket = cache

-- The second loop, from round `i` on; `bucket` holds the blocks since the last whole bucket.
unfoldable pub collect :
    ℕ → List ℕ → ℕ → List Block → Bucket → List (ℕ × Bucket) → List (ℕ × Bucket)
collect z to_get i [] bucket cache = cache
collect z to_get i (b ∷ downloaded) bucket cache =
    let grown = bucket ++ b ∷ [] in
    let whole = i % z == z - 1 in
    collect z to_get (i + 1) downloaded (if whole then [] else grown)
      (if whole then store_at cache (get_elem? to_get (i / z)) grown else cache)

module _ {store : Store} where
  unfoldable pub fetch :
      Config → Oram store → Bool → List ℕ → List Block → Outcome (List Block × Oram store)
  unfolding collect
  fetch c o dry_run [] response = ok (response, o)
  fetch c o dry_run (l ∷ to_get) response = do
    downloaded ← store.get o.storage (l ∷ to_get)
    ok (
      if dry_run then response else response ++ downloaded,
      record o { cache = collect c.z (l ∷ to_get) 0 downloaded [] o.cache },
    )

  unfoldable pub get_cache :
      Config → Oram store → List ℕ → List Block → Bool → Outcome (List Block × Oram store)
  unfolding split_hits fetch
  get_cache c o locations response dry_run =
      let (to_get, found) = split_hits o.cache dry_run locations [] response in
      fetch c o dry_run to_get found

  unfoldable pub set_cache : Oram store → List (ℕ × Bucket) → Oram store
  set_cache o [] = o
  set_cache o ((l, b) ∷ requests) = set_cache (record o { cache = assign l b o.cache }) requests

  unfoldable pub sync_cache : Oram store → Outcome (Oram store)
  sync_cache o = do
    storage ← store.set o.storage o.cache
    ok (record o { storage = storage; cache = [] })
