-- ===== src/Oram/Eviction/Levels.antt =====
-- All levels of the eviction: what the requests of `writePath` put where.
use mathlib.Core.List.{reverse}
use mathlib.Core.List.Memᴰ
use mathlib.Core.List.Permᴰ
use path_oram.Prelude.{
  ℕ, zero, suc, ◌-◌, ◌*◌, ◌^◌, ◌≤◌, ◌<◌, ◌≡◌, ◌≢◌, refl, sym, ap, subst, List, [], ◌∷◌, ◌++◌, map,
  length, All, All-mono, All-of_mem, mem-All, Memᴰ, mem-perm, length-perm, ◌⊎◌, inl, inr, ok,
  eq-cases, ne→==_false, ==_refl, arith,
}
use path_oram.Prelude.Words.{u64_mod}
use path_oram.Definitions.{Block, Bucket, dummy_id}
use path_oram.Utility.Random.{Source, skip, length-get_random_block}
use path_oram.Tree.{HasHeight, bucket_for_level_leaf}
use path_oram.Tree.Path.{leaves, bucket_for_level_leaf_bounds, bucket_for_level_leaf-inj_level}
use path_oram.Tree.Shifts.{two_pow-le}
use path_oram.PositionMap.{PositionMap}
use path_oram.PositionMap.Laws
use path_oram.Oram.Store.{IsWrite, written}
use path_oram.Oram.State.{Config}
use path_oram.Oram.Cache.Sync.{AreWrites}
use path_oram.Oram.Eviction.{fill_bucket, Evicted, evict_levels}
use path_oram.Oram.Eviction.Pick.{mem-Picks, Picks-mem, erase_each-Picks, Fits, pick_from_ok}

-- A block as the storage takes it.
abbrev pub IsBlock : ℕ → Block → Type 0
IsBlock size x = (x.0 < u64_mod) × (length x.1 ≤ size)

fill_bucket-IsWrite :
    (size rounds : ℕ) (blocks : List Block) (draws : Source)
    → length blocks ≤ rounds
    → All (IsBlock size) blocks
    → IsWrite rounds size (fill_bucket size rounds blocks draws)
unfolding fill_bucket
fill_bucket-IsWrite size zero blocks draws h a = record { full = refl; blocks = tt }
fill_bucket-IsWrite size (suc rounds) (b ∷ blocks) draws h a =
    let r = fill_bucket-IsWrite size rounds blocks draws (omega arith) a.1 in
    record { full = ap suc r.full; blocks = (a.0, r.blocks) }
fill_bucket-IsWrite size (suc rounds) [] draws h a =
    let r = fill_bucket-IsWrite size rounds [] (skip size draws) (omega arith) tt in
    record {
      full = ap suc r.full;
      blocks = ((omega arith, omega (arith, length-get_random_block size draws)), r.blocks);
    }

mem-fill_bucket :
    (size rounds : ℕ) (blocks : List Block) (draws : Source) {x : Block}
    → Memᴰ x (fill_bucket size rounds blocks draws)
    → (x.0 ≡ dummy_id) ⊎ Memᴰ x blocks
unfolding fill_bucket
mem-fill_bucket size zero blocks draws m = elim m [ ]
mem-fill_bucket size (suc rounds) (b ∷ blocks) draws m = elim (Memᴰ.cases_cons m) [
  | inl e ↦ inr (Memᴰ.head e)
  | inr there ↦ elim (mem-fill_bucket size rounds blocks draws there) [
    | inl d ↦ inl d
    | inr k ↦ inr (Memᴰ.tail k)
  ]
]
mem-fill_bucket size (suc rounds) [] draws m = elim (Memᴰ.cases_cons m) [
  | inl e ↦ inl (ap (λ (b : Block). b.0) e)
  | inr there ↦ mem-fill_bucket size rounds [] (skip size draws) there
]

fill_bucket_holds :
    (size rounds : ℕ) (blocks : List Block) (draws : Source) {x : Block}
    → length blocks ≤ rounds
    → Memᴰ x blocks
    → Memᴰ x (fill_bucket size rounds blocks draws)
unfolding fill_bucket
fill_bucket_holds size (suc rounds) (b ∷ blocks) draws h (Memᴰ.head e) = Memᴰ.head e
fill_bucket_holds size (suc rounds) (b ∷ blocks) draws h (Memᴰ.tail m) =
    Memᴰ.tail (fill_bucket_holds size rounds blocks draws (omega arith) m)
fill_bucket_holds size zero (b ∷ blocks) draws h m = absurd (omega arith)
fill_bucket_holds size rounds [] draws h m = elim m [ ]

-- With as many blocks as there is room for, there are no dummies.
fill_bucket_full :
    (size rounds : ℕ) (blocks : List Block) (draws : Source)
    → length blocks ≡ rounds
    → fill_bucket size rounds blocks draws ≡ blocks
unfolding fill_bucket
fill_bucket_full size zero [] draws h = refl
fill_bucket_full size (suc rounds) (b ∷ blocks) draws h =
    ap (◌∷◌ b) (fill_bucket_full size rounds blocks draws (omega (arith, h)))
fill_bucket_full size zero (b ∷ blocks) draws h = absurd (omega arith)
fill_bucket_full size (suc rounds) [] draws h = absurd (omega arith)

-- What one level contributes: a full bucket of the chosen blocks and dummies.
pub record IsLevel (c : Config) (positions : PositionMap) (leaf level : ℕ) (current : List Block)
    (bucket : Bucket) (chosen left : List Block) : Type 0 where
  pub whole : IsWrite c.z c.data_size bucket
  pub from_chosen : (x : Block) → Memᴰ x bucket → (x.0 ≡ dummy_id) ⊎ Memᴰ x chosen
  pub all_chosen : (x : Block) → Memᴰ x chosen → Memᴰ x bucket
  pub fit : All (Fits c positions level leaf) chosen
  pub from_current : (x : Block) → Memᴰ x chosen ⊎ Memᴰ x left → Memᴰ x current
  pub covers : (x : Block) → Memᴰ x current → Memᴰ x chosen ⊎ Memᴰ x left
  -- A block that fits stays only if the bucket has no dummies.
  pub greedy :
      (x : Block)
      → Memᴰ x left
      → Fits c positions level leaf x
      → (y : Block) → Memᴰ y bucket
      → Memᴰ y chosen

pub data Evicts (c : Config) (positions : PositionMap) (leaf : ℕ)
    : ℕ → List Block → List (ℕ × Bucket) → List ℕ → Type 0 where
  root : {current : List Block} → Evicts c positions leaf 0 current [] []
  down :
      {n : ℕ} {current left chosen : List Block} {bucket : Bucket} {requests : List (ℕ × Bucket)}
      {ids : List ℕ}
      → IsLevel c positions leaf n current bucket chosen left
      → Evicts c positions leaf n left requests ids
      → Evicts c positions leaf
          (suc n)
          current
          ((bucket_for_level_leaf c.height n leaf, bucket) ∷ requests)
          (map (λ b. b.0) chosen ++ ids)

module _ (c : Config) (positions : PositionMap) (leaf : ℕ) (valid : Laws.IsValid positions)
    (pos : 0 < c.z) where
  pub evict_levels_ok :
      (n : ℕ) (current : List Block) (draws : Source)
      → All (λ e. (e.0 < positions.capacity) × IsBlock c.data_size e) current
      → (r : Evicted) × (evict_levels c positions leaf n current draws ≡ ok r)
        × Evicts c positions leaf n current r.requests r.to_delete
  unfolding evict_levels
  evict_levels_ok zero current draws h =
      (record { requests = []; to_delete = []; dummy_draws = draws }, refl, root)
  evict_levels_ok (suc n) current draws h =
      let p =
        pick_from_ok c positions n leaf valid 0 0 current pos (All-mono _ current (λ e k. k.0) h) in
      let back = reverse p.chosen in
      let bucket = fill_bucket c.data_size c.z back draws in
      let size = length-perm (Permᴰ.reverse p.chosen) in
      let known = All-of_mem _ p.left (λ x m. mem-All _ current h (mem-Picks p.picks (inr m))) in
      let (above, run, ih) =
        evict_levels_ok n p.left (skip ((c.z - length p.chosen) * c.data_size) draws) known in
      (
        record above {
          requests = (bucket_for_level_leaf c.height n leaf, bucket) ∷ above.requests;
          to_delete = map (λ b. b.0) p.chosen ++ above.to_delete;
        },
        rw (p.returns, erase_each-Picks p.picks, run) refl,
        down
            (record {
              whole = fill_bucket-IsWrite c.data_size c.z back draws (omega (arith, p.room)) (
                  All-of_mem _ back (λ x m.
                    (mem-All _ current h
                      (mem-Picks p.picks (inl (mem-perm (Permᴰ.reverse p.chosen) m)))).1));
              from_chosen = λ x m. elim (mem-fill_bucket c.data_size c.z back draws m) [
                | inl d ↦ inl d
                | inr k ↦ inr (mem-perm (Permᴰ.reverse p.chosen) k)
              ];
              all_chosen = λ x m.
                  fill_bucket_holds c.data_size c.z back draws (omega (arith, p.room))
                    (mem-perm (Permᴰ.symm (Permᴰ.reverse p.chosen)) m);
              fit = p.fit;
              from_current = λ x m. mem-Picks p.picks m;
              covers = λ x m. Picks-mem p.picks m;
              greedy = λ x m f y held. mem-perm (Permᴰ.reverse p.chosen) (
                  subst (λ (b : Bucket). Memᴰ y b)
                    (fill_bucket_full c.data_size c.z back draws
                      (omega (arith, p.greedy x m f, size)))
                    held);
            })
            ih,
      )

-- The location of a level of the path.
abbrev pub at_level : Config → ℕ → ℕ → ℕ
at_level c leaf level = bucket_for_level_leaf c.height level leaf

module _ (c : Config) (positions : PositionMap) (leaf : ℕ) (hh : HasHeight c.height)
    (proper : leaf < leaves c.height) where
  -- A location that is on none of the levels keeps its bucket.
  pub written_off_path :
      {n : ℕ} {current : List Block} {requests : List (ℕ × Bucket)} {ids : List ℕ}
      → Evicts c positions leaf n current requests ids
      → (l : ℕ) (old : Bucket) → ((k : ℕ) → k < n → l ≢ at_level c leaf k)
      → written requests l old ≡ old
  written_off_path root l old off = refl
  written_off_path (down {n} {requests} step rest) l old off =
      rw (ne→==_false l (at_level c leaf n) (off n (omega arith)))
        (written_off_path rest l old (λ k h. off k (omega arith)))

  -- The levels of a path have different locations.
  levels_apart : (a b : ℕ) → a < c.height → b < a → at_level c leaf a ≢ at_level c leaf b
  levels_apart a b ha hb e = absurd (
      omega (
        arith,
        bucket_for_level_leaf-inj_level c.height a b leaf leaf hh ha (omega arith) proper proper e,
      ))

  pub written_top :
      {n : ℕ} {current : List Block} {requests : List (ℕ × Bucket)} {ids : List ℕ}
      → n < c.height
      → Evicts c positions leaf n current requests ids
      → (b old : Bucket) → written ((at_level c leaf n, b) ∷ requests) (at_level c leaf n) old ≡ b
  written_top {n} {requests} h rest b old =
      rw (==_refl (at_level c leaf n))
        (written_off_path rest (at_level c leaf n) b (λ k less. levels_apart n k h less))

  pub written_below :
      (n k : ℕ) (requests : List (ℕ × Bucket)) (b old : Bucket)
      → n < c.height
      → k < n
      → written ((at_level c leaf n, b) ∷ requests) (at_level c leaf k) old
        ≡ written requests (at_level c leaf k) old
  written_below n k requests b old h less =
      rw
        (ne→==_false (at_level c leaf k) (at_level c leaf n) (λ e. levels_apart n k h less (sym e)))
        refl

  -- A bucket of the path holds dummies and blocks of the stash that fit there.
  pub written_on_path :
      {n : ℕ} {current : List Block} {requests : List (ℕ × Bucket)} {ids : List ℕ}
      → n ≤ c.height
      → Evicts c positions leaf n current requests ids
      → (k : ℕ) (old : Bucket) (x : Block) → k < n
      → Memᴰ x (written requests (at_level c leaf k) old)
      → (x.0 ≡ dummy_id) ⊎ (Memᴰ x current × Fits c positions k leaf x)
  written_on_path h root k old x less m = absurd (omega arith)
  written_on_path h (down {n} {chosen} {bucket} {requests} step rest) k old x less m =
      elim (eq-cases k n) [
        | inl e ↦
            let here =
              subst
                (λ (t : ℕ).
                  Memᴰ x (written ((at_level c leaf n, bucket) ∷ requests) (at_level c leaf t) old))
                e m in
            elim (step.from_chosen x
              (subst (λ (b : Bucket). Memᴰ x b) (written_top h rest bucket old) here)) [
                | inl d ↦ inl d
                | inr taken ↦ inr (
                  step.from_current x (inl taken),
                  subst (λ (t : ℕ). Fits c positions t leaf x) (sym e)
                      (mem-All _ chosen step.fit taken),
                )
              ]
        | inr ne ↦
            let there =
              subst (λ (b : Bucket). Memᴰ x b)
                (written_below n k requests bucket old h (omega arith)) m in
            elim (written_on_path (omega arith) rest k old x (omega arith) there) [
              | inl d ↦ inl d
              | inr (cur, fits) ↦ inr (step.from_current x (inr cur), fits)
            ]
      ]

  -- What is deleted from the stash is in a bucket of the path.
  pub written_deleted :
      {n : ℕ} {current : List Block} {requests : List (ℕ × Bucket)} {ids : List ℕ}
      → n ≤ c.height
      → Evicts c positions leaf n current requests ids
      → (old : ℕ → Bucket) (id : ℕ) → Memᴰ id ids
      → (k : ℕ) × (x : Block) × (k < n)
        × (x.0 ≡ id)
        × Memᴰ x current
        × Fits c positions k leaf x
        × Memᴰ x (written requests (at_level c leaf k) (old (at_level c leaf k)))
  written_deleted h root old id m = elim m [ ]
  written_deleted h (down {n} {chosen} {bucket} {requests} {ids} step rest) old id m =
      elim (Memᴰ.append_cases (map (λ b. b.0) chosen) m) [
        | inl here ↦
            let (x, taken, e) = Memᴰ.of_map (λ (b : Block). b.0) chosen here in
            (
              n,
              x,
              omega arith,
              e,
              step.from_current x (inl taken),
              mem-All _ chosen step.fit taken,
              subst (λ (b : Bucket). Memᴰ x b)
                  (sym (written_top h rest bucket (old (at_level c leaf n))))
                  (step.all_chosen x taken),
            )
        | inr there ↦
            let (k, x, less, e, cur, fits, held) =
              written_deleted (omega arith) rest old id there in
            (
              k,
              x,
              omega arith,
              e,
              step.from_current x (inr cur),
              fits,
              subst (λ (b : Bucket). Memᴰ x b)
                  (sym (written_below n k requests bucket (old (at_level c leaf k)) h less)) held,
            )
      ]

  pub Evicts-AreWrites :
      {n : ℕ} {current : List Block} {requests : List (ℕ × Bucket)} {ids : List ℕ}
      → n ≤ c.height
      → Evicts c positions leaf n current requests ids
      → AreWrites (2 ^ c.height) c.z c.data_size requests
  Evicts-AreWrites h root = tt
  Evicts-AreWrites h (down {n} step rest) = (
    (
      omega (
        arith,
        bucket_for_level_leaf_bounds c.height n leaf hh h proper,
        two_pow-le {a = suc n} {b = c.height} h,
      ),
      step.whole,
    ),
    Evicts-AreWrites (omega arith) rest,
  )
