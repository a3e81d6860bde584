-- ===== src/Storage/Adapter.antt =====
-- `AbsStorageAdapter::get`, `set` and `fillWithZeroes`. The signals to observers of requests are left
-- out: they only report sizes and times.
pub mod Batches
pub mod Sealed
pub mod Correct
use path_oram.Prelude.{
  ℕ, zero, suc, ◌+◌, List, [], ◌∷◌, ◌++◌, ◌||◌, length, take, drop, replicate, leb, ◌==◌,
  if◌then◌else◌, Outcome, ok, ◌>>=◌, ◌>>◌,
}
use path_oram.Prelude.Words.{Bytes}
use path_oram.Definitions.{Block, Bucket, aes_block_size, dummy_id}
use path_oram.Utility.Random.{Source, skip, get_random_block}
use path_oram.Oram.Store.{Store}
use path_oram.Storage.Config.{StorageConfig, check_capacity}
use path_oram.Storage.Codec.{seal, unseal}
use path_oram.Storage.Raw.{RawStorage}

-- The state of an adapter: what its implementation holds, and the stream of random bytes for vectors.
pub record Adapter (raw : RawStorage) : Type 0 where
  pub storage : raw.State
  pub iv_draws : Source

unfoldable pub check_all : StorageConfig → List ℕ → Outcome (Unit {0})
unfolding check_capacity
check_all c [] = ok tt
check_all c (location ∷ locations) = do check_capacity c location; check_all c locations

-- The blocks of each of the raw buckets, behind one another.
unfoldable pub unseal_all : StorageConfig → List Bytes → Outcome (List Block)
unseal_all c [] = ok []
unseal_all c (raw ∷ raws) = do blocks ← unseal c raw; more ← unseal_all c raws; ok (blocks ++ more)

-- The first loop of `set`: what to write, with a new vector for each request.
unfoldable pub seal_all :
    StorageConfig → List (ℕ × Bucket) → Source → Outcome (List (ℕ × Bytes) × Source)
seal_all c [] draws = ok ([], draws)
seal_all c ((location, blocks) ∷ requests) draws = do
  bytes ← seal c (get_random_block aes_block_size draws) location blocks
  (writes, draws') ← seal_all c requests (skip aes_block_size draws)
  ok ((location, bytes) ∷ writes, draws')

module _ (raw : RawStorage) where
  -- The loop over batches, for the locations that are left. There are at most as many batches as
  -- locations.
  unfoldable pub get_batches :
      (limit rounds : ℕ) → raw.State → List ℕ → List Bytes → Outcome (List Bytes)
  get_batches limit zero s locations raws = ok raws
  get_batches limit (suc rounds) s [] raws = ok raws
  get_batches limit (suc rounds) s (l ∷ ls) raws = do
    raws' ← raw.get_many s (take limit (l ∷ ls)) raws
    get_batches limit rounds s (drop limit (l ∷ ls)) raws'

  unfoldable pub set_batches : (limit rounds : ℕ) → raw.State → List (ℕ × Bytes) → Outcome raw.State
  set_batches limit zero s writes = ok s
  set_batches limit (suc rounds) s [] = ok s
  set_batches limit (suc rounds) s (w ∷ ws) = do
    s' ← raw.set_many s (take limit (w ∷ ws))
    set_batches limit rounds s' (drop limit (w ∷ ws))

  -- One location is read by itself, and more in batches if there are too many.
  unfoldable pub get_raws : (limit : ℕ) → raw.State → List ℕ → Outcome (List Bytes)
  unfolding get_batches
  get_raws limit s [] = raw.get_many s [] []
  get_raws limit s (l ∷ []) = do bytes ← raw.get_internal s l; ok (bytes ∷ [])
  get_raws limit s (l ∷ k ∷ ls) =
      let locations = l ∷ k ∷ ls in
      if limit == 0 || leb (length locations) limit
      then raw.get_many s locations []
      else get_batches limit (length locations) s locations []

  unfoldable pub set_raws : (limit : ℕ) → raw.State → List (ℕ × Bytes) → Outcome raw.State
  unfolding set_batches
  set_raws limit s [] = raw.set_many s []
  set_raws limit s (w ∷ []) = raw.set_internal s w.0 w.1
  set_raws limit s (w ∷ v ∷ ws) =
      let writes = w ∷ v ∷ ws in
      if limit == 0 || leb (length writes) limit
      then raw.set_many s writes
      else set_batches limit (length writes) s writes

-- The requests of `fillWithZeroes` from `location` on, for the locations that are left.
unfoldable pub zero_requests : (z count location : ℕ) → List (ℕ × Bucket)
zero_requests z zero location = []
zero_requests z (suc count) location =
    (location, replicate z (dummy_id, [])) ∷ zero_requests z count (location + 1)

module _ (c : StorageConfig) (raw : RawStorage) where
  unfoldable pub get : Adapter raw → List ℕ → Outcome (List Block)
  unfolding check_all get_raws unseal_all
  get a locations = do
    check_all c locations
    raws ← get_raws raw c.batch_limit a.storage locations
    unseal_all c raws

  unfoldable pub set : Adapter raw → List (ℕ × Bucket) → Outcome (Adapter raw)
  unfolding seal_all set_raws
  set a requests = do
    (writes, draws) ← seal_all c requests a.iv_draws
    storage ← set_raws raw c.batch_limit a.storage writes
    ok (record { storage = storage; iv_draws = draws })

  unfoldable pub fill_with_zeroes : Adapter raw → Outcome (Adapter raw)
  unfolding set zero_requests
  fill_with_zeroes a = set a (zero_requests c.z c.capacity 0)

  -- One location.
  unfoldable pub get_bucket : Adapter raw → ℕ → Outcome Bucket
  unfolding get
  get_bucket a location = get a (location ∷ [])

  unfoldable pub set_bucket : Adapter raw → ℕ → Bucket → Outcome (Adapter raw)
  unfolding set
  set_bucket a location bucket = set a ((location, bucket) ∷ [])

  -- What `ORAM` sees of the adapter.
  abbrev pub adapter_store : Store
  adapter_store = record {
    State = Adapter raw;
    get = get;
    set = set;
    fill_with_zeroes = fill_with_zeroes;
  }
