-- ===== src/Oram/Eviction/Placing.antt =====
-- Which blocks of the local stash the eviction deletes, and which it keeps.
use mathlib.Core.List.Memᴰ
use path_oram.Prelude.{
  ℕ, ◌≤◌, ◌<◌, ◌≡◌, subst, List, ◌∷◌, map, Memᴰ, ◌⊎◌, inl, inr, eq-cases, arith,
}
use path_oram.Definitions.{Block, Bucket, dummy_id}
use path_oram.Tree.{HasHeight}
use path_oram.Tree.Path.{leaves}
use path_oram.PositionMap.{PositionMap}
use path_oram.Oram.Store.{written}
use path_oram.Oram.State.{Config}
use path_oram.Oram.Eviction.Pick.{Fits}
use path_oram.Oram.Eviction.Levels.{at_level, Evicts, down, root, written_top, written_below}

module _ (c : Config) (positions : PositionMap) (leaf : ℕ) (hh : HasHeight c.height)
    (proper : leaf < leaves c.height) where
  -- The real blocks of the path are those whose IDs are deleted.
  pub written_chosen :
      {n : ℕ} {current : List Block} {requests : List (ℕ × Bucket)} {ids : List ℕ}
      → n ≤ c.height
      → Evicts c positions leaf n current requests ids
      → (k : ℕ) (old : Bucket) (x : Block) → k < n
      → Memᴰ x (written requests (at_level c leaf k) old)
      → (x.0 ≡ dummy_id) ⊎ Memᴰ x.0 ids
  written_chosen h root k old x less m = absurd (omega arith)
  written_chosen h
        (down {n} {chosen = chosen} {bucket = bucket} {requests = requests} {ids = ids} step rest) k
        old x less m =
      elim (eq-cases k n) [
        | inl e ↦
            let here =
              subst
                (λ (t : ℕ).
                  Memᴰ x (written ((at_level c leaf n, bucket) ∷ requests) (at_level c leaf t) old))
                e m in
            elim (step.from_chosen x (
              subst (λ (b : Bucket). Memᴰ x b)
                (written_top c positions leaf hh proper h rest bucket old) here)) [
                  | inl d ↦ inl d
                  | inr taken ↦ inr (Memᴰ.append_left ids (Memᴰ.map (λ (b : Block). b.0) taken))
                ]
        | inr ne ↦
            let there =
              subst (λ (b : Bucket). Memᴰ x b)
                (written_below c positions leaf hh proper n k requests bucket old h (omega arith))
                m in
            elim (written_chosen (omega arith) rest k old x (omega arith) there) [
              | inl d ↦ inl d
              | inr deep ↦ inr (Memᴰ.append_right (map (λ (b : Block). b.0) chosen) deep)
            ]
      ]

  -- A block is kept only if the buckets that it fits have no dummies.
  pub written_greedy :
      {n : ℕ} {current : List Block} {requests : List (ℕ × Bucket)} {ids : List ℕ}
      → n ≤ c.height
      → Evicts c positions leaf n current requests ids
      → (x : Block) → Memᴰ x current
      → ¬ Memᴰ x.0 ids
      → (k : ℕ) (old : Bucket) (y : Block) → k < n
      → Fits c positions k leaf x
      → Memᴰ y (written requests (at_level c leaf k) old)
      → Memᴰ y current
  written_greedy h root x at kept k old y less fits m = absurd (omega arith)
  written_greedy h
        (down {n} {chosen = chosen} {bucket = bucket} {requests = requests} {ids = ids} step rest) x
        at kept k old y less fits m =
      elim (step.covers x at) [
        | inl taken ↦ absurd (kept (Memᴰ.append_left ids (Memᴰ.map (λ (b : Block). b.0) taken)))
        | inr stays ↦ elim (eq-cases k n) [
          | inl e ↦
              let here =
                subst
                  (λ (t : ℕ).
                    Memᴰ y
                      (written ((at_level c leaf n, bucket) ∷ requests) (at_level c leaf t) old))
                  e m in
              let held =
                subst (λ (b : Bucket). Memᴰ y b)
                  (written_top c positions leaf hh proper h rest bucket old) here in
              step.from_current y (
                inl (
                  step.greedy x stays (subst (λ (t : ℕ). Fits c positions t leaf x) e fits) y held))
          | inr ne ↦
              let there =
                subst (λ (b : Bucket). Memᴰ y b)
                  (written_below c positions leaf hh proper n k requests bucket old h (omega arith))
                  m in
              step.from_current y (
                inr (
                  written_greedy (omega arith) rest x stays
                    (λ q. kept (Memᴰ.append_right (map (λ (b : Block). b.0) chosen) q)) k old y
                    (omega arith) fits there))
        ]
      ]
