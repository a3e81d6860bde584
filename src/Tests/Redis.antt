-- ===== src/Tests/Redis.antt =====
-- The batches of Redis at a server that is a function from keys to values.
use path_oram.Prelude.{
  ◌≡◌, refl, Bool, true, false, List, [], ◌∷◌, Option, none, some, map, ◌==◌, ◌&&◌, if◌then◌else◌,
  Bool-cases, inl, inr, arith,
}
use path_oram.Prelude.Words.{Bytes}
use path_oram.Storage.Raw.{get_internals, set_internals}
use path_oram.Storage.Redis.{RedisClient, redis}
use path_oram.Storage.Redis.Correct.{IsRedisClient, redis-HasBatches}
use path_oram.Storage.Adapter.{get_raws, set_raws}
use path_oram.Storage.Adapter.Batches.{batches_change_nothing}

pub same_key : Bytes → Bytes → Bool
same_key [] [] = true
same_key [] (b ∷ bs) = false
same_key (a ∷ more) [] = false
same_key (a ∷ more) (b ∷ bs) = a == b && same_key more bs

pub same_key_refl : (a : Bytes) → same_key a a ≡ true
unfolding same_key
same_key_refl [] = refl
same_key_refl (a ∷ more) = ground (arith, same_key_refl more)

pub same_key_eq : (a b : Bytes) → same_key a b ≡ true → a ≡ b
unfolding same_key
same_key_eq [] [] h = refl
same_key_eq [] (b ∷ bs) h = absurd (ground arith)
same_key_eq (a ∷ more) [] h = absurd (ground arith)
same_key_eq (a ∷ more) (b ∷ bs) h =
    let head : a ≡ b = ground arith in
    let tail = same_key_eq more bs (ground arith) in λ i. head i ∷ tail i

abbrev pub store_value : (Bytes → Option Bytes) → Bytes → Bytes → Bytes → Option Bytes
store_value s key bytes = λ other. if same_key other key then some bytes else s other

abbrev store_values : (Bytes → Option Bytes) → List (Bytes × Bytes) → Bytes → Option Bytes
store_values s [] = s
store_values s (entry ∷ entries) = store_values (store_value s entry.0 entry.1) entries

abbrev server : RedisClient
server = record {
  State = Bytes → Option Bytes;
  get = λ s key. s key;
  set = store_value;
  mget = λ s keys. map s keys;
  mset = store_values;
  ping = λ s. true;
  flushdb = λ s. λ key. none;
  to_string = λ n. n ∷ [];
}

server-IsRedisClient : IsRedisClient server
server-IsRedisClient = record {
  get-set = λ s key other bytes. (
    rw (same_key_refl key) refl,
    λ ne. elim (Bool-cases (same_key other key)) [
      | inl e ↦ absurd (ne (same_key_eq other key e))
      | inr e ↦ rw e refl
    ],
  );
  mget_lem = λ s key keys. refl;
  mset-one = λ s entry. refl;
  mset-cons = λ s entry next entries. refl;
  to_string-inj = λ m n e. cc;
}

batches_change_nothing_example :
    (get_raws (redis server) 2 (λ key. some (7 ∷ [])) (1 ∷ 2 ∷ 3 ∷ [])
      ≡ get_internals (redis server) (λ key. some (7 ∷ [])) (1 ∷ 2 ∷ 3 ∷ []) [])
    × (set_raws (redis server) 2 (λ key. some (7 ∷ [])) ((1, []) ∷ (2, []) ∷ (3, []) ∷ [])
        ≡ set_internals (redis server) (λ key. some (7 ∷ [])) ((1, []) ∷ (2, []) ∷ (3, []) ∷ []))
batches_change_nothing_example =
    batches_change_nothing (redis server) (redis-HasBatches server server-IsRedisClient) 2
      (λ key. some (7 ∷ [])) 1 (2 ∷ 3 ∷ []) (1, []) ((2, []) ∷ (3, []) ∷ [])
