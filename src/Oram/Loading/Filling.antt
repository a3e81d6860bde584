-- ===== src/Oram/Loading/Filling.antt =====
-- The loop that fills the last bucket with dummies.
use mathlib.Core.List.{append_assoc, append-nil}
use path_oram.Prelude.{
  ℕ, zero, suc, ◌+◌, ◌%◌, ◌^◌, ◌≤◌, ◌<◌, ◌≡◌, sym, ap, ◌∙◌, [], ◌∷◌, ◌++◌, some, length,
  length-append, replicate, ltb, true, false, arith,
}
use path_oram.Prelude.Words.{u32_mod}
use path_oram.Tree.Shifts.{sub64}
use path_oram.Definitions.{Bucket, dummy_id}
use path_oram.Oram.Loading.{fill_up}

-- A round that the loop makes, and the end.
goes_on : (i size z : ℕ) → size < z → z ≤ 2 ^ 63 → i < u32_mod → ltb i (sub64 size z) ≡ true
unfolding sub64
goes_on i size z less small counter = ground arith

stops : (i size : ℕ) → ltb i (sub64 size size) ≡ false
unfolding sub64
stops i size = ground arith

-- The bound of the loop, `bucket.size() - Z`, wraps around until the bucket is full and is 0 then:
-- from a bucket of at most `Z` blocks, `Z` at most 2 ^ 63, the loop of `load` that fills the last
-- bucket ends after as many rounds as blocks are missing, from whatever value of its counter on,
-- with that many dummies behind.
pub fill_up_ends :
    (missing rounds z i : ℕ) (bucket : Bucket)
    → length bucket + missing ≡ z
    → z ≤ 2 ^ 63
    → i < u32_mod
    → missing < rounds
    → fill_up rounds z i bucket ≡ some (bucket ++ replicate missing (dummy_id, []))
unfolding fill_up
fill_up_ends missing zero z i bucket whole small counter enough = absurd (omega arith)
fill_up_ends zero (suc rounds) z i bucket whole small counter enough =
    let full : length bucket ≡ z = omega arith in
    rw (sym full, stops i (length bucket)) (ap some (sym (append-nil bucket)))
fill_up_ends (suc missing) (suc rounds) z i bucket whole small counter enough =
    let longer = length-append bucket ((dummy_id, []) ∷ []) in
    rw (goes_on i (length bucket) z (omega arith) small counter) (
      fill_up_ends missing rounds z ((i + 1) % u32_mod) (bucket ++ (dummy_id, []) ∷ [])
        (omega arith) small (omega arith) (omega arith)
      ∙ ap some (append_assoc bucket ((dummy_id, []) ∷ []) (replicate missing (dummy_id, []))))
