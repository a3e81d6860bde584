-- ===== src/Storage/Aerospike.antt =====
-- `AerospikeStorageAdapter`: a bucket is the value of a key of a set, the asset. The client and
-- `to_string` are parameters. Errors of the client are looked at only when the adapter connects.
pub mod Correct
use path_oram.Prelude.{
  ℕ, Bool, List, ◌++◌, map, Option, take, Outcome, ok, cannot_open, throw_if, not, ◌>>=◌, ◌>>◌,
  if◌then◌else◌,
}
use path_oram.Prelude.Words.{Bytes}
use path_oram.Utility.Random.{Source}
use path_oram.Utility.Cipher.{Aes, BlockCipherMode}
use path_oram.Storage.Config.{StorageConfig, new_storage_config}
use path_oram.Storage.Raw.{RawStorage, set_loop}
use path_oram.Storage.Adapter.{Adapter, fill_with_zeroes}

-- What the adapter calls of the client, and `std::to_string`. A record is the bytes of its value, or
-- is absent; `get_bytes` is the memory from the address on that the client gives for it.
pub record AerospikeClient : Type 1 where
  pub State : Type 0
  pub connect : State → Bool
  pub key_get : State → (asset key : Bytes) → Option Bytes
  pub key_put : State → (asset key value : Bytes) → State
  pub batch_get : State → (asset : Bytes) → (keys : List Bytes) → List (Option Bytes)
  pub truncate : State → (asset : Bytes) → State
  pub get_bytes : Option Bytes → Bytes
  pub to_string : ℕ → Bytes

module _ (client : AerospikeClient) (asset : Bytes) (block_size : ℕ) where
  unfoldable pub get_internal : client.State → ℕ → Outcome Bytes
  get_internal s location =
      ok (take block_size (client.get_bytes (client.key_get s asset (client.to_string location))))

  unfoldable pub set_internal : client.State → ℕ → Bytes → Outcome client.State
  set_internal s location raw = ok (client.key_put s asset (client.to_string location) raw)

  -- The callback gets all the results, in the order of the keys.
  unfoldable pub get_batch : client.State → List ℕ → List Bytes → Outcome (List Bytes)
  get_batch s locations response =
      let results = client.batch_get s asset (map client.to_string locations) in
      ok (response ++ map (λ record_. take block_size (client.get_bytes record_)) results)

  abbrev pub aerospike : RawStorage
  aerospike = record {
    State = client.State;
    get_internal = get_internal;
    set_internal = set_internal;
    get_many = get_batch;
    set_many = set_loop set_internal;
  }

  unfoldable pub delete_all : client.State → client.State
  delete_all s = client.truncate s asset

-- The constructor. `draws` are for a key, if none is given.
unfoldable pub new_aerospike :
    (client : AerospikeClient)
    → (asset : Bytes) → Aes
    → BlockCipherMode
    → (capacity user_block_size : ℕ) → (key : Bytes) → (z batch_limit : ℕ)
    → (draws iv_draws : Source) → client.State
    → (override : Bool)
    → Outcome ((c : StorageConfig) × Adapter (aerospike client asset c.block_size))
unfolding delete_all
new_aerospike client asset aes block_cipher capacity user_block_size key z batch_limit draws
      iv_draws s override =
    do
      c ← new_storage_config aes block_cipher capacity user_block_size key z batch_limit draws
      throw_if (not (client.connect s)) cannot_open
      let raw = aerospike client asset c.block_size
      a ←
          (if override
            then fill_with_zeroes c raw
                (record { storage = delete_all client asset c.block_size s; iv_draws = iv_draws })
            else ok (record { storage = s; iv_draws = iv_draws }))
      ok (c, a)
