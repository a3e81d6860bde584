-- ===== src/Oram/Loading/Rounds.antt =====
-- The loop over the data, by induction on them.
use path_oram.Prelude.{
  ℕ, zero, suc, ◌+◌, ◌*◌, ◌^◌, ◌≤◌, ◌<◌, ◌≡◌, refl, sym, subst, List, [], ◌∷◌, ◌++◌, Option, some,
  All, mem-All, length, length-append, ltb, if◌then◌else◌, ◌==◌, eq-cases, ==_iff, Bool-cases, inl,
  inr, ok, arith, true,
}
use path_oram.Prelude.Assoc.{Distinct}
use path_oram.Definitions.{Block, Bucket}
use path_oram.Utility.Random.{Source, rest}
use path_oram.Tree.{leaves_for_location}
use path_oram.Tree.Path.{leaves, floor_log2-lt}
use path_oram.Tree.Shifts.{floor_log2}
use path_oram.PositionMap
use path_oram.PositionMap.Laws as PositionMapLaws
use path_oram.PositionMap.Laws.{leaf_of}
use path_oram.Oram.State.{Config}
use path_oram.Oram.Invariant.{OnPath, IsConfig}
use path_oram.Oram.Loading.{Placed, draw_between, place}
use path_oram.Oram.Loading.Spreading.{IsSpread}
use path_oram.Oram.Loading.Placing.{draw_between_ok, AreHeld, AreHeld-append}
use path_oram.Oram.Loading.Requested.{AreProper, IsPlaced, open_step, full_step}

-- The bucket of every iteration is one of those that are counted.
pub all_begun : (a z count : ℕ) → 0 < z → ((i : ℕ) → i * z < a * z → i < count) → a ≤ count
all_begun zero z count roomy enough = omega arith
all_begun (suc a) z count roomy enough = enough a (omega arith)

placed_here :
    (map' : PositionMap.PositionMap) (before : ℕ → Option ℕ) (block leaf : ℕ)
    → ((other : ℕ) → leaf_of map' other ≡ (if other == block then some leaf else before other))
    → leaf_of map' block ≡ some leaf
placed_here map' before block leaf placed = ground (arith, placed block)

placed-AreProper :
    (c : Config) (map map' : PositionMap.PositionMap) (block leaf : ℕ)
    → ((other : ℕ) → leaf_of map' other ≡ (if other == block then some leaf else leaf_of map other))
    → leaf < leaves c.height
    → AreProper c map
    → AreProper c map'
placed-AreProper c map map' block leaf placed leaf_proper proper id other at =
    elim (eq-cases id block) [
      | inl same ↦ ground (arith, placed id)
      | inr ne ↦ proper id other (ground (arith, placed id))
    ]

module _ (c : Config) (location : ℕ → ℕ) (fits : IsConfig c) (count : ℕ)
    (spread : IsSpread location (2 ^ c.height) count) where
  -- There is a bucket for every block that is left.
  abbrev pub Enough : (iteration : ℕ) → Bucket → List Block → Type 0
  Enough iteration bucket input =
      (i : ℕ) → i * c.z < iteration * c.z + length bucket + length input → i < count

  pub place_ok :
      (map : PositionMap.PositionMap) (draws : Source) (iteration : ℕ) (bucket : Bucket)
      (input : List Block)
      → PositionMapLaws.IsValid map
      → AreProper c map
      → length bucket < c.z
      → Enough iteration bucket input
      → All (λ x. x.0 < map.capacity) input
      → Distinct input
      → AreHeld c map (location iteration) bucket input
      → (r : Placed) × (place c location map draws iteration bucket input ≡ ok r)
        × IsPlaced c location map iteration bucket input r
  unfolding place
  place_ok map draws iteration bucket [] valid proper short enough below distinct held = (
    record { map = map; draws = draws; iteration = iteration; bucket = bucket; requests = [] },
    refl,
    record {
      cells = valid;
      same = refl;
      proper = proper;
      kept = λ id apart. refl;
      total = omega arith;
      later = omega arith;
      short = short;
      full = tt;
      distinct = tt;
      sound = λ l b x at m. elim at [ ];
      bucket_sound = λ x m. (inl m, (mem-All _ bucket held m).0);
      complete = λ x from. elim from [ inl m ↦ inr m | inr m ↦ elim m [ ] ];
    },
  )
  place_ok map draws iteration bucket (r ∷ input) valid proper short enough below distinct held =
      let l = location iteration in
      let begun = enough iteration (omega arith) in
      let pos = spread.positive iteration begun in
      let in_tree = spread.below iteration begun in
      let leaf = draw_between (leaves_for_location c.height l) draws in
      let (leaf_proper, through) = draw_between_ok c.height l draws fits.tall pos in_tree in
      let (map', stored, valid', same', placed) =
        PositionMapLaws.set_ok map r.0 leaf valid below.0 in
      let grown = bucket ++ r ∷ [] in
      let longer = length-append bucket (r ∷ []) in
      let here : OnPath c map' l r.0 = (
        leaf,
        floor_log2 l,
        placed_here map' (leaf_of map) r.0 leaf placed,
        floor_log2-lt c.height l fits.tall pos in_tree,
        through,
      ) in
      let held' = AreHeld-append c map map' l leaf bucket r input placed here distinct.0 held in
      let proper' : AreProper c map' =
        placed-AreProper c map map' r.0 leaf placed leaf_proper proper in
      let below' = subst (λ (n : ℕ). All (λ x. x.0 < n) input) (sym same') below.1 in
      let room : ltb (length bucket) c.z ≡ true = ground arith in
      elim (Bool-cases (length grown == c.z)) [
        | inl e ↦
            let whole = (==_iff (length grown) c.z).0 e in
            let (after, ran, p) =
              place_ok map' (rest draws) (iteration + 1) [] input valid' proper' (omega arith)
                (λ i less. enough i (omega (arith, whole))) below' distinct.1 tt in
            (
              record after { requests = (l, grown) ∷ after.requests },
              rw (stored, room, e, ran) refl,
              full_step c location count spread map map' same' iteration leaf bucket r input placed
                  after whole
                  (all_begun after.iteration c.z count fits.roomy
                    (λ i less. enough i (omega (arith, less, p.total, whole, longer))))
                  held' p,
            )
        | inr e ↦
            let (after, ran, p) =
              place_ok map' (rest draws) iteration grown input valid' proper'
                (ground (arith, longer)) (λ i less. enough i (omega (arith, longer))) below'
                distinct.1 held' in
            (
              after,
              rw (stored, room, e, ran) refl,
              open_step c location count spread map map' same' iteration leaf bucket r input placed
                  after p,
            )
      ]
