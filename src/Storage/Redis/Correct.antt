-- ===== src/Storage/Redis/Correct.antt =====
-- The batches of Redis are its loops.
use path_oram.Prelude.{
  ℕ, ◌≡◌, ◌≢◌, refl, ap, ◌∙◌, List, [], ◌∷◌, ◌++◌, map, some, Outcome, ok, map_all, ◌>>=◌,
}
use path_oram.Prelude.Words.{Bytes}
use path_oram.Storage.Raw.{HasBatches, get_loop, set_loop, get_internals, set_internals}
use path_oram.Storage.Redis.{
  RedisClient, value, get_internal, set_internal, set_many, get_many, redis,
}

-- What the commands of Redis do: MGET and MSET are sequences of GET and SET, and SET changes one
-- key. Different numbers are written differently.
pub record IsRedisClient (client : RedisClient) : Type 0 where
  pub get-set :
      (s : client.State) (key other value : Bytes)
      → (client.get (client.set s key value) key ≡ some value)
        × (other ≢ key → client.get (client.set s key value) other ≡ client.get s other)
  pub mget_lem :
      (s : client.State) (key : Bytes) (keys : List Bytes)
      → client.mget s (key ∷ keys) ≡ map (client.get s) (key ∷ keys)
  pub mset-one :
      (s : client.State) (entry : Bytes × Bytes)
      → client.mset s (entry ∷ []) ≡ client.set s entry.0 entry.1
  pub mset-cons :
      (s : client.State) (entry next : Bytes × Bytes) (entries : List (Bytes × Bytes))
      → client.mset s (entry ∷ next ∷ entries)
        ≡ client.mset (client.set s entry.0 entry.1) (next ∷ entries)
  pub to_string-inj : (m n : ℕ) → client.to_string m ≡ client.to_string n → m ≡ n

module _ (client : RedisClient) (good : IsRedisClient client) where
  map_all-value :
      (s : client.State) (locations : List ℕ)
      → map_all value (map (client.get s) (map client.to_string locations))
        ≡ map_all (get_internal client s) locations
  unfolding get_internal
  map_all-value s [] = refl
  map_all-value s (l ∷ locations) =
      ap
        (λ (more : Outcome (List Bytes)).
          value (client.get s (client.to_string l)) >>= λ x. more >>= λ xs. ok (x ∷ xs))
        (map_all-value s locations)

  set_many-eq-set_internals :
      (s : client.State) (w : ℕ × Bytes) (ws : List (ℕ × Bytes))
      → set_many client s (w ∷ ws) ≡ set_internals (redis client) s (w ∷ ws)
  unfolding set_many set_loop set_internal
  set_many-eq-set_internals s w [] = ap ok (good.mset-one s (client.to_string w.0, w.1))
  set_many-eq-set_internals s w (v ∷ ws) =
      ap ok (
        good.mset-cons s (client.to_string w.0, w.1) (client.to_string v.0, v.1)
          (map (λ r. (client.to_string r.0, r.1)) ws))
      ∙ set_many-eq-set_internals (client.set s (client.to_string w.0) w.1) v ws

  get_many-eq-get_internals :
      (s : client.State) (l : ℕ) (ls : List ℕ) (response : List Bytes)
      → get_many client s (l ∷ ls) response ≡ get_internals (redis client) s (l ∷ ls) response
  unfolding get_many get_loop
  get_many-eq-get_internals s l ls response =
      ap (λ (found : Outcome (List Bytes)). found >>= λ raws. ok (response ++ raws))
        (ap (map_all value) (good.mget_lem s (client.to_string l) (map client.to_string ls))
          ∙ map_all-value s (l ∷ ls))

  -- One call of the server for many locations does what the loop over them does.
  pub redis-HasBatches : HasBatches (redis client)
  redis-HasBatches = record {
    get_many_lem = get_many-eq-get_internals;
    set_many_lem = set_many-eq-set_internals;
  }
