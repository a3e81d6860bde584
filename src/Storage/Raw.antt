-- ===== src/Storage/Raw.antt =====
-- What a storage adapter implements: `getInternal` and `setInternal` of one location, and the loops
-- over many that `AbsStorageAdapter` has for adapters without batches.
use path_oram.Prelude.{
  ℕ, ◌<◌, ◌≡◌, refl, ap, ◌∙◌, List, [], ◌∷◌, ◌++◌, length, All, map, map_all, Outcome, ok, ◌>>=◌,
  ◌==◌, if◌then◌else◌,
}
use path_oram.Prelude.Words.{Bytes}

-- The last two are the overloads for many locations, which an adapter may replace.
pub record RawStorage : Type 1 where
  pub State : Type 0
  pub get_internal : State → ℕ → Outcome Bytes
  pub set_internal : State → ℕ → Bytes → Outcome State
  pub get_many : State → List ℕ → List Bytes → Outcome (List Bytes)
  pub set_many : State → List (ℕ × Bytes) → Outcome State

-- The overloads of `AbsStorageAdapter`.
module _ {State : Type 0} where
  -- The results go behind the response.
  unfoldable pub get_loop :
      (State → ℕ → Outcome Bytes) → State → List ℕ → List Bytes → Outcome (List Bytes)
  get_loop get_internal s locations response = do
    found ← map_all (get_internal s) locations
    ok (response ++ found)

  unfoldable pub set_loop :
      (State → ℕ → Bytes → Outcome State) → State → List (ℕ × Bytes) → Outcome State
  set_loop set_internal s [] = ok s
  set_loop set_internal s ((location, bytes) ∷ requests) = do
    s' ← set_internal s location bytes
    set_loop set_internal s' requests

-- What the loops over single locations do with a storage.
module _ (raw : RawStorage) where
  abbrev pub get_internals : raw.State → List ℕ → List Bytes → Outcome (List Bytes)
  get_internals = get_loop raw.get_internal

  abbrev pub set_internals : raw.State → List (ℕ × Bytes) → Outcome raw.State
  set_internals = set_loop raw.set_internal

-- The overloads do what the loops do, wherever there is something to do.
pub record HasBatches (raw : RawStorage) : Type 0 where
  pub get_many_lem :
      (s : raw.State) (location : ℕ) (locations : List ℕ) (response : List Bytes)
      → raw.get_many s (location ∷ locations) response
        ≡ get_internals raw s (location ∷ locations) response
  pub set_many_lem :
      (s : raw.State) (request : ℕ × Bytes) (requests : List (ℕ × Bytes))
      → raw.set_many s (request ∷ requests) ≡ set_internals raw s (request ∷ requests)

-- A storage that does not replace the overloads.
abbrev pub looping :
    (State : Type 0)
    → (State → ℕ → Outcome Bytes)
    → (State → ℕ → Bytes → Outcome State)
    → RawStorage
looping State get_internal set_internal = record {
  State = State;
  get_internal = get_internal;
  set_internal = set_internal;
  get_many = get_loop get_internal;
  set_many = set_loop set_internal;
}

pub looping-HasBatches :
    (State : Type 0) (get_internal : State → ℕ → Outcome Bytes)
    (set_internal : State → ℕ → Bytes → Outcome State)
    → HasBatches (looping State get_internal set_internal)
looping-HasBatches State get_internal set_internal = record {
  get_many_lem = λ s l ls r. refl;
  set_many_lem = λ s w ws. refl;
}

pub get_loop-nil :
    {State : Type 0} (get_internal : State → ℕ → Outcome Bytes) (s : State)
    → get_loop get_internal s [] [] ≡ ok []
unfolding get_loop
get_loop-nil get_internal s = refl

pub set_loop-nil :
    {State : Type 0} (set_internal : State → ℕ → Bytes → Outcome State) (s : State)
    → set_loop set_internal s [] ≡ ok s
unfolding set_loop
set_loop-nil set_internal s = refl

-- The promise of an implementation with `capacity` cells of `size` bytes.
pub record IsRawStorage (raw : RawStorage) (capacity size : ℕ) : Type 1 where
  pub IsSound : raw.State → Type 0
  pub cell : raw.State → ℕ → Bytes
  -- The overloads, and what they do when there is nothing to do.
  pub batched : HasBatches raw
  pub get_many-nil : (s : raw.State) → raw.get_many s [] [] ≡ ok []
  pub set_many-nil : (s : raw.State) → raw.set_many s [] ≡ ok s
  pub get_internal_ok :
      (s : raw.State) (location : ℕ)
      → IsSound s
      → location < capacity
      → raw.get_internal s location ≡ ok (cell s location)
  pub set_internal_ok :
      (s : raw.State) (location : ℕ) (bytes : Bytes)
      → IsSound s
      → location < capacity
      → length bytes ≡ size
      → (t : raw.State) × (raw.set_internal s location bytes ≡ ok t)
        × IsSound t
        × ((other : ℕ)
            → other < capacity
            → cell t other ≡ (if other == location then bytes else cell s other))

-- The last write to a cell.
abbrev pub overwritten : List (ℕ × Bytes) → ℕ → Bytes → Bytes
overwritten [] location old = old
overwritten ((l, b) ∷ requests) location old =
    overwritten requests location (if location == l then b else old)

module _ {raw : RawStorage} {capacity size : ℕ} (good : IsRawStorage raw capacity size) where
  pub map_all-get_internal :
      (s : raw.State) (locations : List ℕ)
      → good.IsSound s
      → All (λ l. l < capacity) locations
      → map_all (raw.get_internal s) locations ≡ ok (map (good.cell s) locations)
  map_all-get_internal s [] sound h = refl
  map_all-get_internal s (l ∷ locations) sound h =
      rw (good.get_internal_ok s l sound h.0, map_all-get_internal s locations sound h.1) refl

  pub set_internals_ok :
      (s : raw.State) (requests : List (ℕ × Bytes))
      → good.IsSound s
      → All (λ r. (r.0 < capacity) × (length r.1 ≡ size)) requests
      → (t : raw.State) × (set_internals raw s requests ≡ ok t)
        × good.IsSound t
        × ((l : ℕ) → l < capacity → good.cell t l ≡ overwritten requests l (good.cell s l))
  unfolding set_loop
  set_internals_ok s [] sound h = (s, refl, sound, λ l below. refl)
  set_internals_ok s ((k, bytes) ∷ requests) sound h =
      let (s', stored, sound', cells) = good.set_internal_ok s k bytes sound h.0.0 h.0.1 in
      let (t, all, sound'', cells') = set_internals_ok s' requests sound' h.1 in
      (
        t,
        rw (stored, all) refl,
        sound'',
        λ l below. cells' l below ∙ ap (overwritten requests l) (cells l below),
      )
