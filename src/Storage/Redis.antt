-- ===== src/Storage/Redis.antt =====
-- `RedisStorageAdapter`: a bucket is the value of a key of a server. The client and `to_string` are
-- parameters.
pub mod Correct
use path_oram.Prelude.{
  ℕ, ◌<◌, ◌≡◌, ◌≢◌, refl, sym, ap, ◌∙◌, Bool, true, false, List, [], ◌∷◌, ◌++◌, map, All, Option,
  none, some, length, Outcome, ok, throw, no_value, cannot_open, throw_if, not, map_all, ◌>>=◌,
  ◌>>◌, ◌==◌, if◌then◌else◌, eq-cases, inl, inr, ==_refl, ne→==_false, arith,
}
use path_oram.Prelude.Words.{Bytes}
use path_oram.Utility.Random.{Source}
use path_oram.Utility.Cipher.{Aes, BlockCipherMode}
use path_oram.Storage.Config.{StorageConfig, new_storage_config}
use path_oram.Storage.Raw.{RawStorage, IsRawStorage, get_internals, set_internals}
use path_oram.Storage.Adapter.{Adapter, fill_with_zeroes}

-- What the adapter calls of `sw::redis::Redis`, and `std::to_string`. Keys and values are strings.
pub record RedisClient : Type 1 where
  pub State : Type 0
  pub get : State → Bytes → Option Bytes
  pub set : State → Bytes → Bytes → State
  pub mget : State → List Bytes → List (Option Bytes)
  pub mset : State → List (Bytes × Bytes) → State
  pub ping : State → Bool
  pub flushdb : State → State
  pub to_string : ℕ → Bytes

-- `value()` of an optional throws if there is none.
unfoldable pub value : Option Bytes → Outcome Bytes
value none = throw no_value
value (some bytes) = ok bytes

module _ (client : RedisClient) where
  unfoldable pub get_internal : client.State → ℕ → Outcome Bytes
  unfolding value
  get_internal s location = value (client.get s (client.to_string location))

  unfoldable pub set_internal : client.State → ℕ → Bytes → Outcome client.State
  set_internal s location raw = ok (client.set s (client.to_string location) raw)

  -- The overloads for many locations, in one call of the server.
  unfoldable pub set_many : client.State → List (ℕ × Bytes) → Outcome client.State
  set_many s requests = ok (client.mset s (map (λ r. (client.to_string r.0, r.1)) requests))

  unfoldable pub get_many : client.State → List ℕ → List Bytes → Outcome (List Bytes)
  unfolding value
  get_many s locations response = do
    found ← map_all value (client.mget s (map client.to_string locations))
    ok (response ++ found)

  abbrev pub redis : RawStorage
  redis = record {
    State = client.State;
    get_internal = get_internal;
    set_internal = set_internal;
    get_many = get_many;
    set_many = set_many;
  }

  -- The constructor. `draws` are for a key, if none is given.
  unfoldable pub new_redis :
      Aes
      → BlockCipherMode
      → (capacity user_block_size : ℕ) → (key : Bytes) → (z batch_limit : ℕ)
      → (draws iv_draws : Source) → client.State
      → (override : Bool) → Outcome (StorageConfig × Adapter redis)
  new_redis aes block_cipher capacity user_block_size key z batch_limit draws iv_draws s override =
      do
        c ← new_storage_config aes block_cipher capacity user_block_size key z batch_limit draws
        throw_if (not (client.ping s)) cannot_open
        a ←
            (if override
              then fill_with_zeroes c redis
                  (record { storage = client.flushdb s; iv_draws = iv_draws })
              else ok (record { storage = s; iv_draws = iv_draws }))
        ok (c, a)
