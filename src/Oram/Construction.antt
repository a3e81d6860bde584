-- ===== src/Oram/Construction.antt =====
-- The constructor of `ORAM`.
use path_oram.Prelude.{
  ℕ, zero, suc, ◌+◌, ◌-◌, ◌^◌, ◌≤◌, ◌<◌, ◌≡◌, refl, ap, ◌∙◌, subst, Bool, true, [], none, some,
  replicate, mem-replicate, Memᴰ, ◌⊎◌, inl, inr, Outcome, ok, ◌>>=◌, if◌then◌else◌, eq-cases,
  lt-cases, arith,
}
use path_oram.Prelude.Assoc.{lookup}
use path_oram.Definitions.{Block, Bucket, dummy_id}
use path_oram.Utility.Random.{Source, rest, skip, get_random_ulong, get_random_ulong-lt}
use path_oram.Tree.Path.{leaves}
use path_oram.Tree.Shifts.{two_pow-pos}
use path_oram.PositionMap
use path_oram.PositionMap.Laws as PositionMapLaws
use path_oram.PositionMap.Laws.{leaf_of}
use path_oram.Stash
use path_oram.Stash.{new_stash, current_size}
use path_oram.Oram.Store.{Store, IsStore}
use path_oram.Oram.State.{Config, Oram}
use path_oram.Oram.Invariant.{IsConfig, Inv}

-- A random leaf for each block from `block` on, for the blocks that are left.
unfoldable pub set_positions :
    (height count block : ℕ) → PositionMap.PositionMap → Source → Outcome PositionMap.PositionMap
set_positions height zero block map draws = ok map
set_positions height (suc count) block map draws = do
  map' ← PositionMap.set map block (get_random_ulong (2 ^ (height - 1)) draws)
  set_positions height count (block + 1) map' (rest draws)

module _ {store : Store} (c : Config) where
  unfoldable pub new_oram :
      store.State
      → PositionMap.PositionMap
      → Stash.Stash
      → (initialize : Bool) → (leaf_draws shuffle_draws dummy_draws : Source) → Outcome (Oram store)
  unfolding set_positions
  new_oram storage map stash initialize leaf_draws shuffle_draws dummy_draws =
      let bare : Oram store = record {
        storage = storage;
        map = map;
        stash = stash;
        cache = [];
        leaf_draws = leaf_draws;
        shuffle_draws = shuffle_draws;
        dummy_draws = dummy_draws;
      } in
      if initialize
      then (do
        storage' ← store.fill_with_zeroes storage
        map' ← set_positions c.height c.blocks 0 map leaf_draws
        ok (record bare { storage = storage'; map = map'; leaf_draws = skip c.blocks leaf_draws }))
      else ok bare

set_positions_ok :
    (height count block : ℕ) (m : PositionMap.PositionMap) (draws : Source)
    → PositionMapLaws.IsValid m
    → block + count ≤ m.capacity
    → (n : PositionMap.PositionMap) × (set_positions height count block m draws ≡ ok n)
      × PositionMapLaws.IsValid n
      × (n.capacity ≡ m.capacity)
      × ((id leaf : ℕ)
          → leaf_of n id ≡ some leaf
          → (leaf < leaves height)
            ⊎ (((id < block) ⊎ (block + count ≤ id)) × (leaf_of m id ≡ some leaf)))
unfolding set_positions
set_positions_ok height zero block m draws v h = (
  m,
  refl,
  v,
  refl,
  λ id leaf e. elim (lt-cases id block) [
    | inl less ↦ inr (inl less, e)
    | inr more ↦ inr (inr (omega arith), e)
  ],
)
set_positions_ok height (suc count) block m draws v h =
    let new = get_random_ulong (2 ^ (height - 1)) draws in
    let new_proper = get_random_ulong-lt (2 ^ (height - 1)) draws (two_pow-pos (height - 1)) in
    let (m', stored, v', same, remapped) = PositionMapLaws.set_ok m block new v (omega arith) in
    let (n, ran, w, kept, from) =
      set_positions_ok height count (block + 1) m' (rest draws) v' (omega (arith, same)) in
    (
      n,
      rw (stored, ran) refl,
      w,
      kept ∙ same,
      λ id leaf e. elim (from id leaf e) [
        | inl fine ↦ inl fine
        | inr (outside, old) ↦ elim (eq-cases id block) [
          | inl here ↦ inl (ground (arith, remapped id, new_proper))
          | inr other ↦ inr (omega arith, ground (arith, remapped id))
        ]
      ],
    )

-- For a height from 1 to 31 and at least one block in a bucket: a new ORAM that initializes, over a
-- sound storage, with an empty stash and a position map of at least `blocks` and at most 2 ^ 31
-- cells, none of those behind the first `blocks` out of the tree, does not throw, keeps the
-- capacities, and satisfies the invariant with nothing stored.
pub new_oram_ok :
    (c : Config) {store : Store} (good : IsStore store (2 ^ c.height) c.z c.data_size)
    (storage : store.State) (map : PositionMap.PositionMap) (capacity : ℕ)
    (leaf_draws shuffle_draws dummy_draws : Source)
    → IsConfig c
    → good.IsSound storage
    → PositionMapLaws.IsValid map
    → c.blocks ≤ map.capacity
    → map.capacity ≤ 2 ^ 31
    → ((id leaf : ℕ) → c.blocks ≤ id → leaf_of map id ≡ some leaf → leaf < leaves c.height)
    → (p : Oram store) × (new_oram c storage map
          (new_stash capacity)
          true
          leaf_draws
          shuffle_draws
          dummy_draws
        ≡ ok p)
      × Inv c good (λ id. none) p
      × (p.map.capacity ≡ map.capacity)
      × (p.stash.capacity ≡ capacity)
unfolding new_oram new_stash lookup current_size
new_oram_ok c good storage map capacity leaf_draws shuffle_draws dummy_draws fits sound v enough
      small rest_proper =
    let (s, filled, sound', dummies) = good.fill_with_zeroes_ok storage sound in
    let (m, set_all, v', same, from) =
      set_positions_ok c.height c.blocks 0 map leaf_draws v (omega arith) in
    (
      record {
        storage = s;
        map = m;
        stash = new_stash capacity;
        cache = [];
        leaf_draws = skip c.blocks leaf_draws;
        shuffle_draws = shuffle_draws;
        dummy_draws = dummy_draws;
      },
      rw (filled, set_all) refl,
      record {
        readable = record {
          positive = fits.roomy;
          sound = sound';
          cached = record { distinct = tt; entries = tt };
        };
        mapped = record {
          cells = v';
          numbered = omega (arith, same);
          proper = λ id leaf e. elim (from id leaf e) [
            | inl fine ↦ fine
            | inr (inl below, old) ↦ elim below [ ]
            | inr (inr behind, old) ↦ rest_proper id leaf (omega arith) old
          ];
          known = λ id d e. ground arith;
        };
        stash_valid = record { distinct = tt; bounded = omega arith };
        stash_sound = λ id d e. ground arith;
        tree_sound = λ l x below inside. inl (
            ap (λ (b : Block). b.0)
              (mem-replicate c.z (dummy_id, replicate c.data_size 0)
                (subst (λ (b : Bucket). Memᴰ x b) (dummies l below) inside)));
        complete = λ id d e. ground arith;
      },
      same,
      refl,
    )
