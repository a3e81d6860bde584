-- ===== src/Oram/Loading/Finished.antt =====
-- All the requests of `load`, the last bucket included.
use mathlib.Core.List.Memᴰ
use path_oram.Prelude.{
  ℕ, ◌+◌, ◌-◌, ◌^◌, ◌≤◌, ◌<◌, ◌≡◌, refl, sym, subst, List, [], ◌∷◌, ◌++◌, none, All, All-append,
  All-mono, Memᴰ, lt-cases, ne→==_false, length, length-append, replicate, length-replicate,
  mem-replicate, ltb, ◌⊎◌, inl, inr, arith, true, false,
}
use path_oram.Prelude.Assoc.{lookup, Distinct}
use path_oram.Prelude.Orders.{append-Distinct}
use path_oram.Definitions.{Block, Bucket, dummy_id}
use path_oram.PositionMap.{PositionMap}
use path_oram.Oram.State.{Config}
use path_oram.Oram.Invariant.{OnPath, IsConfig}
use path_oram.Oram.Loading.{Placed, with_last}
use path_oram.Oram.Loading.Filling.{fill_up_ends}
use path_oram.Oram.Loading.Spreading.{IsSpread}
use path_oram.Oram.Loading.Requested.{IsFull, IsPlaced}
use path_oram.Oram.Loading.Rounds.{Enough, all_begun}

-- Full buckets for proper locations of their own, which hold the data and nothing else.
pub record IsFinished (c : Config) (map : PositionMap) (input : List Block)
    (requests : List (ℕ × Bucket)) : Type 0 where
  pub below : All (λ q. q.0 < 2 ^ c.height) requests
  pub full : All (λ q. length q.1 ≡ c.z) requests
  pub distinct : Distinct requests
  pub sound :
      (l : ℕ) (b : Bucket) (x : Block)
      → Memᴰ (l, b) requests
      → Memᴰ x b
      → (x ≡ (dummy_id, [])) ⊎ (Memᴰ x input × OnPath c map l x.0)
  pub complete :
      (x : Block) → Memᴰ x input → (l : ℕ) × (b : Bucket) × Memᴰ (l, b) requests × Memᴰ x b

mem-pos {ℓ} : {A : Type ℓ} {x : A} (xs : List A) → Memᴰ x xs → 0 < length xs
mem-pos [] m = elim m [ ]
mem-pos (y ∷ xs) m = omega arith

-- No request has the location of a later iteration.
next_location :
    (c : Config) (location : ℕ → ℕ) (last count max : ℕ) (requests : List (ℕ × Bucket))
    → IsSpread location max count
    → last < count
    → All (IsFull c location 0 last) requests
    → lookup (location last) requests ≡ none
unfolding lookup
next_location c location last count max [] spread within earlier = refl
next_location c location last count max (q ∷ requests) spread within earlier =
    let (j, first, less, at) = earlier.0.0 in
    let apart =
      ne→==_false (location last) q.0
        (λ e. absurd (omega (arith, e, at, spread.rising j last less within))) in
    rw apart (next_location c location last count max requests spread within earlier.1)

module _ (c : Config) (location : ℕ → ℕ) (fits : IsConfig c) (count : ℕ)
    (spread : IsSpread location (2 ^ c.height) count) (map : PositionMap) (input : List Block)
    (enough : Enough c location fits count spread 0 [] input) (r : Placed)
    (p : IsPlaced c location map 0 [] input r) where
  from_input : (x : Block) → Memᴰ x [] ⊎ Memᴰ x input → Memᴰ x input
  from_input x (inl m) = elim m [ ]
  from_input x (inr m) = m

  full_below :
      (last : ℕ)
      → last ≤ count
      → (requests : List (ℕ × Bucket)) → All (IsFull c location 0 last) requests
      → All (λ q. q.0 < 2 ^ c.height) requests
  full_below last within requests h =
      All-mono _ requests
        (λ q ((j, first, less, at), size). omega (arith, at, spread.below j (omega arith))) h

  -- No bucket is unfinished.
  unfilled-IsFinished : length r.bucket ≡ 0 → IsFinished c r.map input r.requests
  unfilled-IsFinished none_left = record {
    below =
        full_below r.iteration
          (all_begun r.iteration c.z count fits.roomy
            (λ i less. enough i (omega (arith, less, p.total))))
          r.requests p.full;
    full = All-mono _ r.requests (λ q h. h.1) p.full;
    distinct = p.distinct;
    sound = λ l b x at m. let (from, on) = p.sound l b x at m in inr (from_input x from, on);
    complete = λ x m. elim (p.complete x (inr m)) [
      | inl found ↦ found
      | inr unfinished ↦ absurd (omega (arith, none_left, mem-pos r.bucket unfinished))
    ];
  }

  -- The unfinished bucket is filled with dummies.
  filled-IsFinished :
      (missing : ℕ)
      → 0 < length r.bucket
      → length r.bucket + missing ≡ c.z
      → IsFinished c r.map input
          (r.requests ++ (location r.iteration, r.bucket ++ replicate missing (dummy_id, [])) ∷ [])
  filled-IsFinished missing some_left whole =
      let filled = r.bucket ++ replicate missing (dummy_id, []) in
      let begun = enough r.iteration (omega (arith, p.total)) in
      record {
        below =
            All-append _ r.requests ((location r.iteration, filled) ∷ [])
              (full_below r.iteration (omega (arith, begun)) r.requests p.full)
              (spread.below r.iteration begun, tt);
        full =
            All-append _ r.requests ((location r.iteration, filled) ∷ [])
              (All-mono _ r.requests (λ q h. h.1) p.full)
              (
                omega (
                  arith,
                  whole,
                  length-append r.bucket (replicate missing (dummy_id, [])),
                  length-replicate {A = Block} missing (dummy_id, []),
                ),
                tt,
              );
        distinct = append-Distinct (location r.iteration) filled r.requests p.distinct (
            next_location c location r.iteration count (2 ^ c.height) r.requests spread begun
              p.full);
        sound = λ l b x at m. elim (Memᴰ.append_cases r.requests at) [
          | inl earlier ↦ let (from, on) = p.sound l b x earlier m in inr (from_input x from, on)
          | inr last ↦ elim (Memᴰ.cases_cons last) [
            | inr more ↦ elim more [ ]
            | inl here ↦
                elim (Memᴰ.append_cases r.bucket (subst (λ (q : ℕ × Bucket). Memᴰ x q.1) here m)) [
                  | inl real ↦
                      let (from, on) = p.bucket_sound x real in
                      inr (
                        from_input x from,
                        subst (λ (q : ℕ × Bucket). OnPath c r.map q.0 x.0) (sym here) on,
                      )
                  | inr dummy ↦ inl (mem-replicate missing (dummy_id, []) dummy)
                ]
          ]
        ];
        complete = λ x m. elim (p.complete x (inr m)) [
          | inl (l, b, at, inside) ↦ (l, b, Memᴰ.append_left _ at, inside)
          | inr unfinished ↦ (
            location r.iteration,
            filled,
            Memᴰ.append_right r.requests (Memᴰ.head refl),
            Memᴰ.append_left (replicate missing (dummy_id, [])) unfinished,
          )
        ];
      }

  -- The last bucket is filled, and this ends.
  pub with_last-IsFinished : c.z ≤ 2 ^ 63 → IsFinished c r.map input (with_last c location r)
  unfolding with_last
  with_last-IsFinished small = elim (lt-cases 0 (length r.bucket)) [
    | inl some_left ↦
        let missing = c.z - length r.bucket in
        let begun : ltb 0 (length r.bucket) ≡ true = ground arith in
        let ends =
          fill_up_ends missing (c.z + 1) c.z 0 r.bucket (omega (arith, p.short)) small (omega arith)
            (omega arith) in
        rw (begun, ends) (filled-IsFinished missing some_left (omega (arith, p.short)))
    | inr none_left ↦
        let begun : ltb 0 (length r.bucket) ≡ false = ground arith in
        rw begun (unfilled-IsFinished (omega arith))
  ]
