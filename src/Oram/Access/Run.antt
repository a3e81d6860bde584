-- ===== src/Oram/Access/Run.antt =====
-- A client that makes one request after another, against the same requests to a plain map.
use path_oram.Prelude.{
  ℕ, ◌^◌, ◌<◌, ◌≤◌, ◌≡◌, refl, sym, subst, List, [], ◌∷◌, All, length, Option, ◌⊎◌, inl, inr,
  Outcome, ok, throw, stash_overflow, ◌>>=◌, arith,
}
use path_oram.Prelude.Words.{Bytes}
use path_oram.Storage.Padding.{pad}
use path_oram.Oram.Store.{Store, IsStore}
use path_oram.Oram.State.{Config, Oram}
use path_oram.Oram.Access.{get, put}
use path_oram.Oram.Access.Updating.{IsAnswer}
use path_oram.Oram.Access.Correct.{get_correct, put_correct}
use path_oram.Oram.Invariant.{Contents, put_contents, IsConfig, Inv, Crowded, SameSizes}

-- A call of `ORAM::get` with an empty response, or of `ORAM::put`.
pub data Request : Type 0 where
  reading : ℕ → Request
  writing : ℕ → Bytes → Request

-- The block is in the position map, and data are not longer than a block.
abbrev pub IsRequest : (capacity size : ℕ) → Request → Type 0
IsRequest capacity size (reading block) = block < capacity
IsRequest capacity size (writing block bytes) = (block < capacity) × (length bytes ≤ size)

-- The answers of a plain map, which keeps the data with zeroes up to the size of a block.
abbrev pub expected : ℕ → Contents → List Request → List (Option Bytes)
expected size spec [] = []
expected size spec (reading block ∷ requests) = spec block ∷ expected size spec requests
expected size spec (writing block bytes ∷ requests) =
    expected size (put_contents spec block (pad size bytes)) requests

-- The answers are those of the map, up to zeroes at their ends.
abbrev pub AreAnswers : ℕ → List (Option Bytes) → List Bytes → Type 0
AreAnswers size [] [] = Unit
AreAnswers size [] (answer ∷ answers) = ⊥
AreAnswers size (known ∷ more) [] = ⊥
AreAnswers size (known ∷ more) (answer ∷ answers) =
    IsAnswer size known [] answer × AreAnswers size more answers

module _ (c : Config) {store : Store} where
  unfoldable pub run : Oram store → List Request → Outcome (List Bytes × Oram store)
  run o [] = ok ([], o)
  run o (reading block ∷ requests) = do
    (answer, o1) ← get c o block []
    (answers, o2) ← run o1 requests
    ok (answer ∷ answers, o2)
  run o (writing block bytes ∷ requests) = do o1 ← put c o block bytes; run o1 requests

still_proper :
    {store : Store} (c : Config) (o p : Oram store) (requests : List Request)
    → SameSizes o p
    → All (IsRequest o.map.capacity c.data_size) requests
    → All (IsRequest p.map.capacity c.data_size) requests
still_proper c o p requests same h =
    subst (λ n. All (IsRequest n c.data_size) requests) (sym same.0) h

-- For a height from 1 to 31 and at least one block in a bucket: from a state that satisfies the
-- invariant for some contents, over any proper storage, a sequence of gets and puts of blocks below
-- the capacity of the position map, with payloads that are not longer than a block, is answered, up
-- to zeroes at the ends of the answers, as a plain map with these contents answers it, unless the
-- stash overflows, which has fewer cells than the position map then.
pub run_correct :
    (c : Config) {store : Store} (good : IsStore store (2 ^ c.height) c.z c.data_size)
    (spec : Contents) (o : Oram store) (requests : List Request)
    → IsConfig c
    → Inv c good spec o
    → All (IsRequest o.map.capacity c.data_size) requests
    → (Crowded o × (run c o requests ≡ throw stash_overflow))
      ⊎ ((p : Oram store) × (answers : List Bytes) × (run c o requests ≡ ok (answers, p))
          × AreAnswers c.data_size (expected c.data_size spec requests) answers)
unfolding run
run_correct c good spec o [] fits inv proper = inr (o, [], refl, tt)
run_correct c good spec o (reading block ∷ requests) fits inv proper =
    elim (get_correct c good spec o block [] fits inv proper.0) [
      | inl (crowded, over) ↦ inl (crowded, rw over refl)
      | inr (p, answer, ran, answers, inv', same) ↦
          elim (run_correct c good spec p requests fits inv'
            (still_proper c o p requests same proper.1)) [
              | inl (crowded, over) ↦
                  inl (omega (arith, crowded, same.0, same.1), rw (ran, over) refl)
              | inr (q, more, ran', rest) ↦
                  inr (q, answer ∷ more, rw (ran, ran') refl, (answers, rest))
            ]
    ]
run_correct c good spec o (writing block bytes ∷ requests) fits inv proper =
    elim (put_correct c good spec o block bytes fits inv proper.0.0 proper.0.1) [
      | inl (crowded, over) ↦ inl (crowded, rw over refl)
      | inr (p, ran, inv', same) ↦
          elim (run_correct c good (put_contents spec block (pad c.data_size bytes)) p requests fits
            inv' (still_proper c o p requests same proper.1)) [
              | inl (crowded, over) ↦
                  inl (omega (arith, crowded, same.0, same.1), rw (ran, over) refl)
              | inr (q, more, ran', rest) ↦ inr (q, more, rw (ran, ran') refl, rest)
            ]
    ]

-- For a height from 1 to 31 and at least one block in a bucket: from a state that satisfies the
-- invariant, with a stash of at least as many cells as the position map, a sequence of gets and
-- puts of blocks below the capacity of the position map, with payloads that are not longer than a
-- block, never stops with an exception, and is answered, up to zeroes at the ends of the answers,
-- as a plain map answers it.
pub run_never_overflows :
    (c : Config) {store : Store} (good : IsStore store (2 ^ c.height) c.z c.data_size)
    (spec : Contents) (o : Oram store) (requests : List Request)
    → IsConfig c
    → Inv c good spec o
    → o.map.capacity ≤ o.stash.capacity
    → All (IsRequest o.map.capacity c.data_size) requests
    → (p : Oram store) × (answers : List Bytes) × (run c o requests ≡ ok (answers, p))
      × AreAnswers c.data_size (expected c.data_size spec requests) answers
run_never_overflows c good spec o requests fits inv room proper =
    elim (run_correct c good spec o requests fits inv proper) [
      | inl (crowded, over) ↦ absurd (omega (arith, crowded, room))
      | inr done ↦ done
    ]
