-- ===== src/Storage/Aerospike/Correct.antt =====
-- The batches of Aerospike are its loops, and a read returns what was put.
use path_oram.Prelude.{
  ℕ, ◌≡◌, ◌≢◌, refl, List, [], ◌∷◌, ◌++◌, map, some, length, take, take_left, ok, map_all, ◌==◌,
  if◌then◌else◌, eq-cases, inl, inr, ==_refl, ne→==_false,
}
use path_oram.Prelude.Words.{Bytes}
use path_oram.Storage.Raw.{HasBatches, get_loop, get_internals}
use path_oram.Storage.Aerospike.{AerospikeClient, get_internal, get_batch, aerospike}

-- What the client does: a put changes one key of one set, a batch is a sequence of gets, and the
-- memory of a record that is there begins with its value. Different numbers are written differently.
pub record IsAerospikeClient (client : AerospikeClient) (asset : Bytes) : Type 0 where
  pub get-put :
      (s : client.State) (key other value : Bytes)
      → (client.key_get (client.key_put s asset key value) asset key ≡ some value)
        × (other ≢ key
            → client.key_get (client.key_put s asset key value) asset other
              ≡ client.key_get s asset other)
  pub batch_get_lem :
      (s : client.State) (key : Bytes) (keys : List Bytes)
      → client.batch_get s asset (key ∷ keys) ≡ map (client.key_get s asset) (key ∷ keys)
  pub get_bytes_lem :
      (value : Bytes) → (beyond : Bytes) × (client.get_bytes (some value) ≡ value ++ beyond)
  pub to_string-inj : (m n : ℕ) → client.to_string m ≡ client.to_string n → m ≡ n

module _ (client : AerospikeClient) (asset : Bytes) (good : IsAerospikeClient client asset) where
  -- What a read of a location returns.
  abbrev pub cell_of : (size : ℕ) → client.State → ℕ → Bytes
  cell_of size s l = take size (client.get_bytes (client.key_get s asset (client.to_string l)))

  results-eq-cells :
      (size : ℕ) (s : client.State) (locations : List ℕ)
      → map_all (get_internal client asset size s) locations
        ≡ ok (
            map
              (λ record_. take size (client.get_bytes record_))
              (map (client.key_get s asset) (map client.to_string locations)))
  unfolding get_internal
  results-eq-cells size s [] = refl
  results-eq-cells size s (l ∷ locations) = rw (results-eq-cells size s locations) refl

  get_batch-eq-get_internals :
      (size : ℕ) (s : client.State) (l : ℕ) (ls : List ℕ) (response : List Bytes)
      → get_batch client asset size s (l ∷ ls) response
        ≡ get_internals (aerospike client asset size) s (l ∷ ls) response
  unfolding get_batch get_loop
  get_batch-eq-get_internals size s l ls response =
      rw
        (
          results-eq-cells size s (l ∷ ls),
          good.batch_get_lem s (client.to_string l) (map client.to_string ls),
        )
        refl

  -- One call of the client for many locations does what the loop over them does.
  pub aerospike-HasBatches : (size : ℕ) → HasBatches (aerospike client asset size)
  aerospike-HasBatches size = record {
    get_many_lem = get_batch-eq-get_internals size;
    set_many_lem = λ s w ws. refl;
  }

  -- A read returns the bytes that were put there last.
  pub put_bytes :
      (size : ℕ) (s : client.State) (l : ℕ) (raw : Bytes) (other : ℕ)
      → length raw ≡ size
      → cell_of size (client.key_put s asset (client.to_string l) raw) other
        ≡ (if other == l then raw else cell_of size s other)
  put_bytes size s l raw other whole = elim (eq-cases other l) [
    | inl e ↦
        let put = (good.get-put s (client.to_string l) (client.to_string l) raw).0 in
        let (beyond, starts) = good.get_bytes_lem raw in
        rw (e, ==_refl l, put, starts) (take_left size raw beyond whole)
    | inr ne ↦
        let kept =
          (good.get-put s (client.to_string l) (client.to_string other) raw).1
            (λ e. ne (good.to_string-inj other l e)) in
        rw (ne→==_false other l ne, kept) refl
  ]
