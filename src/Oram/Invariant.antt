-- ===== src/Oram/Invariant.antt =====
-- The invariant of Path ORAM, against the contents that a user expects: a function from block IDs to
-- payloads of the block size. A block lies in the stash, or in a bucket on the path to its leaf, and
-- each copy of it anywhere has the expected payload, up to the zeroes that the storage puts behind a
-- short one.
use path_oram.Prelude.{
  ℕ, zero, suc, ◌^◌, ◌≤◌, ◌<◌, ◌≡◌, ◌≢◌, Option, some, length, Memᴰ, ◌⊎◌, inl, inr, eq-cases, ap,
  ◌∙◌, ◌==◌, if◌then◌else◌, arith,
}
use path_oram.Prelude.Words.{Bytes}
use path_oram.Definitions.{Block, dummy_id}
use path_oram.Storage.Padding.{pad, length-pad_inv}
use path_oram.Tree.{HasHeight, bucket_for_level_leaf}
use path_oram.Tree.Path.{leaves, bucket_for_level_leaf_bounds}
use path_oram.Tree.Shifts.{two_pow-le}
use path_oram.PositionMap.{PositionMap}
use path_oram.PositionMap.Laws as PositionMapLaws
use path_oram.PositionMap.Laws.{leaf_of}
use path_oram.Stash.Laws as StashLaws
use path_oram.Stash.Laws.{find}
use path_oram.Oram.Store.{Store, IsStore}
use path_oram.Oram.State.{Config, Oram}
use path_oram.Oram.Cache.View.{IsReadable, bucket_at}

-- What a user has stored.
abbrev pub Contents : Type 0
Contents = ℕ → Option Bytes

-- The contents after a `put`.
abbrev pub put_contents : Contents → ℕ → Bytes → Contents
put_contents spec block bytes = λ id. if id == block then some bytes else spec id

-- The payload is the expected one, up to zeroes behind it.
abbrev pub Expects : Config → Contents → ℕ → Bytes → Type 0
Expects c spec id d = spec id ≡ some (pad c.data_size d)

-- The location is on the path to the leaf of the block.
abbrev pub OnPath : Config → PositionMap → ℕ → ℕ → Type 0
OnPath c positions l id =
    (leaf : ℕ) × (k : ℕ) × (leaf_of positions id ≡ some leaf)
    × (k < c.height)
    × (l ≡ bucket_for_level_leaf c.height k leaf)

-- The location is not on the path to the leaf.
abbrev pub OffPath : Config → ℕ → ℕ → Type 0
OffPath c leaf l = (k : ℕ) → k < c.height → l ≢ bucket_for_level_leaf c.height k leaf

pub record IsConfig (c : Config) : Type 0 where
  pub tall : HasHeight c.height
  pub roomy : 0 < c.z

-- The position map has a proper leaf for every ID, IDs fit into an `int` (`writePath` narrows
-- them), and the expected payloads have the size of the blocks.
pub record IsMapped (c : Config) (spec : Contents) (positions : PositionMap) : Type 0 where
  pub cells : PositionMapLaws.IsValid positions
  pub numbered : positions.capacity ≤ 2 ^ 31
  pub proper : (id leaf : ℕ) → leaf_of positions id ≡ some leaf → leaf < leaves c.height
  pub known :
      (id : ℕ) (d : Bytes) → spec id ≡ some d → (id < positions.capacity) × (length d ≡ c.data_size)

module _ (c : Config) {store : Store} (good : IsStore store (2 ^ c.height) c.z c.data_size) where
  pub record Inv (spec : Contents) (o : Oram store) : Type 0 where
    pub readable : IsReadable c good o
    pub mapped : IsMapped c spec o.map
    pub stash_valid : StashLaws.IsValid o.stash
    pub stash_sound : (id : ℕ) (d : Bytes) → find o.stash id ≡ some d → Expects c spec id d
    pub tree_sound :
        (l : ℕ) (x : Block)
        → l < 2 ^ c.height
        → Memᴰ x (bucket_at c good o l)
        → (x.0 ≡ dummy_id) ⊎ (Expects c spec x.0 x.1 × OnPath c o.map l x.0)
    pub complete :
        (id : ℕ) (d : Bytes)
        → spec id ≡ some d
        → ((d' : Bytes) × (find o.stash id ≡ some d'))
          ⊎ ((l : ℕ) × (d' : Bytes) × OnPath c o.map l id × Memᴰ (id, d') (bucket_at c good o l))

  -- Between the two halves of an access to `block` along the path to `leaf`: the path has been read
  -- into the stash, so only the rest of the tree counts, and it holds no copy of `block`.
  pub record Mid (spec : Contents) (block leaf : ℕ) (o : Oram store) : Type 0 where
    pub readable : IsReadable c good o
    pub mapped : IsMapped c spec o.map
    pub stash_valid : StashLaws.IsValid o.stash
    pub stash_sound : (id : ℕ) (d : Bytes) → find o.stash id ≡ some d → Expects c spec id d
    pub tree_sound :
        (l : ℕ) (x : Block)
        → l < 2 ^ c.height
        → OffPath c leaf l
        → Memᴰ x (bucket_at c good o l)
        → (x.0 ≡ dummy_id) ⊎ ((x.0 ≢ block) × Expects c spec x.0 x.1 × OnPath c o.map l x.0)
    pub complete :
        (id : ℕ) (d : Bytes)
        → spec id ≡ some d
        → ((d' : Bytes) × (find o.stash id ≡ some d'))
          ⊎ ((id ≢ block)
              × ((l : ℕ) × (d' : Bytes) × OffPath c leaf l
                  × OnPath c o.map l id
                  × Memᴰ (id, d') (bucket_at c good o l)))

-- The stash has no room for all the blocks of the position map.
abbrev pub Crowded : {store : Store} → Oram store → Type 0
Crowded o = o.stash.capacity < o.map.capacity

-- The sizes that no operation changes.
abbrev pub SameSizes : {store : Store} (o p : Oram store) → Type 0
SameSizes o p = (p.map.capacity ≡ o.map.capacity) × (p.stash.capacity ≡ o.stash.capacity)

on_or_off_below :
    (c : Config) (leaf l n : ℕ)
    → ((k : ℕ) × (k < n) × (l ≡ bucket_for_level_leaf c.height k leaf))
      ⊎ ((k : ℕ) → k < n → l ≢ bucket_for_level_leaf c.height k leaf)
on_or_off_below c leaf l zero = inr (λ k h. elim h [ ])
on_or_off_below c leaf l (suc n) = elim (on_or_off_below c leaf l n) [
  | inl (k, h, e) ↦ inl (k, omega arith, e)
  | inr off ↦ elim (eq-cases l (bucket_for_level_leaf c.height n leaf)) [
    | inl e ↦ inl (n, omega arith, e)
    | inr ne ↦ inr (λ k h. elim (eq-cases k n) [
      | inl same ↦ λ e. ne (e ∙ ap (λ (t : ℕ). bucket_for_level_leaf c.height t leaf) same)
      | inr other ↦ off k (omega arith)
    ])
  ]
]

-- A location is on a path or off it.
pub on_or_off :
    (c : Config) (leaf l : ℕ)
    → ((k : ℕ) × (k < c.height) × (l ≡ bucket_for_level_leaf c.height k leaf)) ⊎ OffPath c leaf l
on_or_off c leaf l = on_or_off_below c leaf l c.height

-- A location on a path is a proper one.
pub OnPath-lt :
    (c : Config) (spec : Contents) (positions : PositionMap)
    → IsConfig c
    → IsMapped c spec positions
    → (l id : ℕ) → OnPath c positions l id
    → l < 2 ^ c.height
OnPath-lt c spec positions fits mapped l id (leaf, k, known, less, e) = omega (
  arith,
  e,
  bucket_for_level_leaf_bounds c.height k leaf fits.tall less (mapped.proper id leaf known),
  two_pow-le {a = suc k} {b = c.height} less,
)

-- An expected payload is not too long, its ID is below the capacity, and it is no dummy.
pub Expects-fits :
    (c : Config) (spec : Contents) (positions : PositionMap)
    → IsMapped c spec positions
    → (id : ℕ) (d : Bytes) → Expects c spec id d
    → (id < positions.capacity) × (length d ≤ c.data_size) × (id < 2 ^ 31)
Expects-fits c spec positions mapped id d e =
    let k = mapped.known id (pad c.data_size d) e in
    (k.0, length-pad_inv c.data_size d k.1, omega (arith, k.0, mapped.numbered))
