-- ===== src/Oram/Store.antt =====
-- What `ORAM` uses of its storage: `AbsStorageAdapter::get` and `set` over many locations, and
-- `fillWithZeroes`.
use path_oram.Prelude.{
  ℕ, ◌<◌, ◌≤◌, ◌≡◌, arith, All-mono, List, [], ◌∷◌, length, All, replicate, Outcome, ok,
  if◌then◌else◌, ◌==◌,
}
use path_oram.Prelude.Words.{u64_mod}
use mathlib.Core.List.{flat_map}
use path_oram.Storage.Padding.{padded_requests}
use path_oram.Definitions.{Block, Bucket, dummy_id}

pub record Store : Type 1 where
  pub State : Type 0
  -- The blocks of the locations, one bucket after another.
  pub get : State → List ℕ → Outcome (List Block)
  pub set : State → List (ℕ × Bucket) → Outcome State
  pub fill_with_zeroes : State → Outcome State

-- A bucket of `z` blocks with payloads of `size` bytes.
pub record IsBucket (z size : ℕ) (b : Bucket) : Type 0 where
  pub full : length b ≡ z
  pub blocks : All (λ x. (x.0 < u64_mod) × (length x.1 ≡ size)) b

-- A bucket that `set` takes: payloads may be shorter.
pub record IsWrite (z size : ℕ) (b : Bucket) : Type 0 where
  pub full : length b ≡ z
  pub blocks : All (λ x. (x.0 < u64_mod) × (length x.1 ≤ size)) b

pub IsBucket-IsWrite : (z size : ℕ) (b : Bucket) → IsBucket z size b → IsWrite z size b
IsBucket-IsWrite z size b h = record {
  full = h.full;
  blocks = All-mono _ b (λ x p. (p.0, omega (arith, p.1))) h.blocks;
}

-- What a list of writes leaves at a location: the last one that names it, or what was there.
abbrev pub written : List (ℕ × Bucket) → ℕ → Bucket → Bucket
written [] location old = old
written ((l, b) ∷ requests) location old =
    written requests location (if location == l then b else old)

-- `z` dummies, with zeroes for payloads.
abbrev pub empty_bucket : (z size : ℕ) → Bucket
empty_bucket z size = replicate z (dummy_id, replicate size 0)

-- The promise of a storage of `capacity` buckets: `view` is what is stored, `get` returns it, and
-- `set` of full buckets replaces it by their padded blocks, without an exception; to fill it with
-- zeroes leaves dummies.
pub record IsStore (store : Store) (capacity z size : ℕ) : Type 1 where
  pub IsSound : store.State → Type 0
  pub view : store.State → ℕ → Bucket
  pub view-IsBucket :
      (s : store.State) (location : ℕ)
      → IsSound s
      → location < capacity
      → IsBucket z size (view s location)
  pub get_ok :
      (s : store.State) (locations : List ℕ)
      → IsSound s
      → All (λ l. l < capacity) locations
      → store.get s locations ≡ ok (flat_map (view s) locations)
  pub set_ok :
      (s : store.State) (requests : List (ℕ × Bucket))
      → IsSound s
      → All (λ r. (r.0 < capacity) × IsWrite z size r.1) requests
      → (t : store.State) × (store.set s requests ≡ ok t)
        × IsSound t
        × ((location : ℕ)
            → location < capacity
            → view t location ≡ written (padded_requests size requests) location (view s location))
  pub fill_with_zeroes_ok :
      (s : store.State)
      → IsSound s
      → (t : store.State) × (store.fill_with_zeroes s ≡ ok t)
        × IsSound t
        × ((location : ℕ) → location < capacity → view t location ≡ empty_bucket z size)
