-- ===== src/Oram/Loading/Placing.antt =====
-- One round of the loop over the data: the leaf that is drawn, and where the block belongs then.
use path_oram.Prelude.{
  ℕ, ◌+◌, ◌-◌, ◌%◌, ◌^◌, ◌≤◌, ◌<◌, ◌≡◌, sym, ap, ◌∙◌, List, [], ◌∷◌, ◌++◌, none, some, All,
  All-append, All-mono, if◌then◌else◌, ◌==◌, eq-cases, ne→==_false, inl, inr, arith, Bool,
}
use path_oram.Prelude.Assoc.{lookup}
use path_oram.Prelude.Words.{u64_mod}
use path_oram.Definitions.{Block, Bucket}
use path_oram.Utility.Random.{Source, get_random_ulong-lt}
use path_oram.Tree.{HasHeight, bucket_for_level_leaf, leaves_for_location}
use path_oram.Tree.Path.{leaves, leaves-le, leaves_for_location_iff, leaves_for_location_range}
use path_oram.Tree.Shifts.{floor_log2, sub64}
use path_oram.PositionMap.{PositionMap}
use path_oram.PositionMap.Laws.{leaf_of}
use path_oram.Oram.State.{Config}
use path_oram.Oram.Invariant.{OnPath}
use path_oram.Oram.Loading.{draw_between}

draw_between_lem :
    (from to : ℕ) (draws : Source)
    → from ≤ to
    → to < 2 ^ 30
    → (from ≤ draw_between (from, to) draws) × (draw_between (from, to) draws ≤ to)
unfolding draw_between sub64
draw_between_lem from to draws order small =
    let width : ((to + u64_mod - from) % u64_mod + 1) % u64_mod ≡ to - from + 1 = omega arith in
    let drawn = get_random_ulong-lt (to - from + 1) draws (omega arith) in
    rw width (omega arith, omega arith)

-- The leaf is a proper one, and its path goes through the location.
pub draw_between_ok :
    (h location : ℕ) (draws : Source)
    → HasHeight h
    → 0 < location
    → location < 2 ^ h
    → (draw_between (leaves_for_location h location) draws < leaves h)
      × (location
          ≡ bucket_for_level_leaf h
              (floor_log2 location)
              (draw_between (leaves_for_location h location) draws))
draw_between_ok h location draws hh pos l =
    let range = leaves_for_location h location in
    let leaf = draw_between range draws in
    let bounds = leaves_for_location_range h location hh pos l in
    let inside =
      draw_between_lem range.0 range.1 draws bounds.0 (omega (arith, bounds.1, leaves-le h hh)) in
    let proper : leaf < leaves h = omega (arith, bounds.1, inside.1) in
    (proper, sym ((leaves_for_location_iff h location leaf hh pos l proper).0 inside))

pub OnPath-same :
    (c : Config) (m n : PositionMap) (l id : ℕ)
    → leaf_of n id ≡ leaf_of m id
    → OnPath c m l id
    → OnPath c n l id
OnPath-same c m n l id e (leaf, k, known, less, on) = (leaf, k, e ∙ known, less, on)

-- The blocks of an unfinished bucket belong to its location, and are not in the data that are left.
abbrev pub AreHeld : Config → PositionMap → ℕ → Bucket → List Block → Type 0
AreHeld c map l bucket input = All (λ x. OnPath c map l x.0 × (lookup x.0 input ≡ none)) bucket

-- To place one more block keeps this.
pub AreHeld-append :
    (c : Config) (m n : PositionMap) (l leaf : ℕ) (bucket : Bucket) (r : Block) (input : List Block)
    → ((other : ℕ) → leaf_of n other ≡ (if other == r.0 then some leaf else leaf_of m other))
    → OnPath c n l r.0
    → lookup r.0 input ≡ none
    → AreHeld c m l bucket (r ∷ input)
    → AreHeld c n l (bucket ++ r ∷ []) input
unfolding lookup
AreHeld-append c m n l leaf bucket r input placed on fresh held =
    All-append _ bucket (r ∷ [])
      (All-mono _ bucket
        (λ x (there, apart). elim (eq-cases x.0 r.0) [
          | inl same ↦ absurd (ground arith)
          | inr ne ↦
              let off = ne→==_false x.0 r.0 ne in
              (
                OnPath-same c m n l x.0
                    (placed x.0 ∙ ap (λ (b : Bool). if b then some leaf else leaf_of m x.0) off)
                    there,
                rw off at apart,
              )
        ])
        held)
      ((on, fresh), tt)
