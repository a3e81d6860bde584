-- ===== src/Storage/Observers.antt =====
-- What `AbsStorageAdapter` reports to its observers: for each call the direction, the number of
-- locations and of bytes. The time that a call takes is left out. `observed` tells whether anybody has
-- subscribed.
pub mod Reports
use path_oram.Prelude.{
  ℕ, ◌+◌, ◌-◌, Bool, true, false, List, [], ◌∷◌, ◌++◌, length, drop, Outcome, ok, ◌>>=◌,
  if◌then◌else◌,
}
use path_oram.Prelude.Words.{Bytes, int_to_number}
use path_oram.Storage.Raw.{RawStorage}

pub record Report : Type 0 where
  pub read : Bool
  pub batch : ℕ
  pub size : ℕ

-- The sums of the lengths. The loops add them up in an `int`, which keeps 32 bits, and the report has
-- it as a `number`.
abbrev pub added : List Bytes → ℕ
added [] = 0
added (raw ∷ raws) = length raw + added raws

abbrev pub added_written : List (ℕ × Bytes) → ℕ
added_written [] = 0
added_written (request ∷ requests) = length request.1 + added_written requests

abbrev pub total : List Bytes → ℕ
total raws = int_to_number (added raws)

abbrev pub total_written : List (ℕ × Bytes) → ℕ
total_written requests = int_to_number (added_written requests)

-- `onStorageRequest(...)`, if there is an observer.
abbrev pub report : (observed read : Bool) → (batch size : ℕ) → List Report
report observed read batch size =
    if observed then (record { read = read; batch = batch; size = size }) ∷ [] else []

module _ (raw : RawStorage) (observed : Bool) where
  unfoldable pub get_and_record : raw.State → ℕ → Outcome (Bytes × List Report)
  get_and_record s location = do
    bytes ← raw.get_internal s location
    ok (bytes, report observed true 1 (length bytes))

  unfoldable pub set_and_record : raw.State → ℕ → Bytes → Outcome (raw.State × List Report)
  set_and_record s location bytes = do
    s' ← raw.set_internal s location bytes
    ok (s', report observed false 1 (length bytes))

  -- The loops for storages without batches.
  unfoldable pub get_each : raw.State → List ℕ → Outcome (List Bytes × List Report)
  unfolding get_and_record
  get_each s [] = ok ([], [])
  get_each s (location ∷ locations) = do
    (bytes, first) ← get_and_record s location
    (raws, others) ← get_each s locations
    ok (bytes ∷ raws, first ++ others)

  unfoldable pub set_each : raw.State → List (ℕ × Bytes) → Outcome (raw.State × List Report)
  unfolding set_and_record
  set_each s [] = ok (s, [])
  set_each s (request ∷ requests) = do
    (s', first) ← set_and_record s request.0 request.1
    (s'', others) ← set_each s' requests
    ok (s'', first ++ others)

  -- A storage with batches makes one report, which counts the last results of the response.
  unfoldable pub get_many_and_record :
      (supports_batch : Bool) → raw.State → List ℕ → List Bytes → Outcome (List Bytes × List Report)
  unfolding get_each
  get_many_and_record true s locations response = do
    all ← raw.get_many s locations response
    ok (
      all,
      report observed true (length locations) (total (drop (length all - length locations) all)),
    )
  get_many_and_record false s locations response = do
    (found, reports) ← get_each s locations
    ok (response ++ found, reports)

  unfoldable pub set_many_and_record :
      (supports_batch : Bool) → raw.State → List (ℕ × Bytes) → Outcome (raw.State × List Report)
  unfolding set_each
  set_many_and_record true s requests = do
    s' ← raw.set_many s requests
    ok (s', report observed false (length requests) (total_written requests))
  set_many_and_record false s requests = set_each s requests
