-- ===== src/Oram/Access/Refines.antt =====
-- A whole access, from invariant to invariant: it answers the expected payload.
use path_oram.Prelude.{
  ℕ, suc, ◌^◌, ◌<◌, ◌≡◌, ◌≢◌, refl, sym, ap, ◌∙◌, subst, Bool, true, List, [], some, some_path, All,
  All-of_mem, Memᴰ, ◌⊎◌, inl, inr, ok, throw, stash_overflow, ◌==◌, eq-cases, ne→==_false,
  if◌then◌else◌, arith,
}
use path_oram.Prelude.Words.{Bytes}
use path_oram.Definitions.{Block, Bucket, dummy_id}
use path_oram.Utility.Random.{rest}
use path_oram.Tree.{bucket_for_level_leaf}
use path_oram.Tree.Path.{leaves, bucket_for_level_leaf_bounds}
use path_oram.Tree.Shifts.{two_pow-le}
use path_oram.PositionMap.{PositionMap}
use path_oram.PositionMap.Laws as PositionMapLaws
use path_oram.PositionMap.Laws.{leaf_of}
use path_oram.Stash.Laws as StashLaws
use path_oram.Stash.Laws.{find, after_update}
use path_oram.Oram.Store.{Store, IsStore}
use path_oram.Oram.State.{Config, Oram}
use path_oram.Oram.Cache.Hits.{answer, mem-answer, answer_of}
use path_oram.Oram.Cache.View.{
  bucket_at, fetched, get_cache_lem, fetched-IsReadable, bucket_at-fetched,
}
use path_oram.Oram.Access.{path_locations, read_path}
use path_oram.Oram.Access.Reading.{
  path_locations_all, mem-path_locations, after_blocks, add_blocks_cases, after_blocks_keeps,
  find-after_blocks, after_blocks_adds, after_blocks-IsValid, after_blocks-capacity,
}
use path_oram.Oram.Invariant.{
  Expects, Expects-fits, Crowded, Contents, OnPath, OffPath, IsConfig, IsMapped, Inv, Mid,
  on_or_off,
}

-- The contents do not mention a block that the stash does not hold.
module _ (c : Config) {store : Store} (good : IsStore store (2 ^ c.height) c.z c.data_size)
    (fits : IsConfig c) (spec : Contents) (o : Oram store) (inv : Inv c good spec o)
    (block leaf : ℕ) (at : leaf_of o.map block ≡ some leaf) (positions : PositionMap) (new : ℕ)
    (new_proper : new < leaves c.height) (cells : PositionMapLaws.IsValid positions)
    (same_capacity : positions.capacity ≡ o.map.capacity)
    (remapped : (other : ℕ)
      → leaf_of positions other ≡ (if other == block then some new else leaf_of o.map other)) where
  remapped_other : (id : ℕ) → id ≢ block → leaf_of positions id ≡ leaf_of o.map id
  remapped_other id ne =
      remapped id
      ∙ ap (λ (b : Bool). if b then some new else leaf_of o.map id) (ne→==_false id block ne)

  remapped-IsMapped : IsMapped c spec positions
  remapped-IsMapped = record {
    cells = cells;
    numbered = omega (arith, inv.mapped.numbered);
    proper = λ id l e. elim (eq-cases id block) [
      | inl same ↦ ground (arith, remapped id)
      | inr ne ↦ inv.mapped.proper id l (sym (remapped_other id ne) ∙ e)
    ];
    known = λ id d e. let k = inv.mapped.known id d e in (omega (arith, k.0), k.1);
  }

  pub locations : List ℕ
  locations = path_locations c.height c.height 0 leaf []

  located :
      (l : ℕ)
      → Memᴰ l locations
      → (k : ℕ) × (k < c.height) × (l ≡ bucket_for_level_leaf c.height k leaf)
  unfolding locations
  located l m = elim (mem-path_locations c.height leaf c.height 0 [] m) [
    | inl h ↦ elim h [ ]
    | inr (k, less, e) ↦ (k, omega arith, e)
  ]

  proper : leaf < leaves c.height
  proper = inv.mapped.proper block leaf at

  locations_below : All (λ l. l < 2 ^ c.height) locations
  locations_below = All-of_mem _ locations (λ l m.
      let (k, less, e) = located l m in
      omega (
        arith,
        e,
        bucket_for_level_leaf_bounds c.height k leaf fits.tall less proper,
        two_pow-le {a = suc k} {b = c.height} less,
      ))

  -- The state after the new leaf is drawn.
  unfoldable pub moved : Oram store
  moved = record o { map = positions; leaf_draws = rest o.leaf_draws }

  pub read_blocks : List Block
  read_blocks = answer (good.view o.storage) o.cache locations

  -- The state after the path is read.
  unfoldable pub after_read : Oram store
  unfolding moved locations read_blocks
  after_read = record (fetched c good moved locations) { stash = after_blocks o.stash read_blocks }

  read_sound : (id : ℕ) (d : Bytes) → id ≢ dummy_id → Memᴰ (id, d) read_blocks → Expects c spec id d
  unfolding read_blocks
  read_sound id d real m =
      let (l, asked, inside) = mem-answer (good.view o.storage) o.cache locations m in
      let (k, less, e) = located l asked in
      let bounds = bucket_for_level_leaf_bounds c.height k leaf fits.tall less proper in
      elim (inv.tree_sound l (id, d)
        (omega (arith, e, bounds, two_pow-le {a = suc k} {b = c.height} less)) inside) [
          | inl dummy ↦ absurd (real dummy)
          | inr (sound, on) ↦ sound
        ]

  stash_after :
      (id : ℕ) (d : Bytes)
      → find (after_blocks o.stash read_blocks) id ≡ some d
      → Expects c spec id d
  stash_after id d e = elim (find-after_blocks o.stash read_blocks id e) [
    | inl old ↦ inv.stash_sound id d old
    | inr (real, m) ↦ read_sound id d real m
  ]

  -- Off the path there is no copy of the block: all copies were on the path to its old leaf.
  not_block : (l id : ℕ) → OffPath c leaf l → OnPath c o.map l id → id ≢ block
  not_block l id off (entry, k, known, less, e) same = off k less (
      e
      ∙ ap (bucket_for_level_leaf c.height k)
          (some_path (sym known ∙ ap (leaf_of o.map) same ∙ at)))

  still_on : (l id : ℕ) → id ≢ block → OnPath c o.map l id → OnPath c positions l id
  still_on l id ne (entry, k, known, less, e) = (entry, k, remapped_other id ne ∙ known, less, e)

  seen : (l : ℕ) → bucket_at c good after_read l ≡ bucket_at c good o l
  unfolding after_read moved fetched
  seen l = bucket_at-fetched c good moved locations l

  tree_after_read :
      (l : ℕ) (x : Block)
      → l < 2 ^ c.height
      → OffPath c leaf l
      → Memᴰ x (bucket_at c good after_read l)
      → (x.0 ≡ dummy_id) ⊎ ((x.0 ≢ block) × Expects c spec x.0 x.1 × OnPath c positions l x.0)
  tree_after_read l x below off m =
      elim (inv.tree_sound l x below (subst (λ (b : Bucket). Memᴰ x b) (seen l) m)) [
        | inl dummy ↦ inl dummy
        | inr (sound, on) ↦ let ne = not_block l x.0 off on in inr (ne, sound, still_on l x.0 ne on)
      ]

  read_if_on :
      (k id : ℕ) (d : Bytes)
      → k < c.height
      → id < 2 ^ 31
      → Memᴰ (id, d) (bucket_at c good o (bucket_for_level_leaf c.height k leaf))
      → (d' : Bytes) × (find (after_blocks o.stash read_blocks) id ≡ some d')
  unfolding read_blocks locations
  read_if_on k id d less small m =
      let real : id ≢ dummy_id = omega (arith, small) in
      let asked = path_locations_all c.height leaf c.height 0 [] k (omega arith) (omega arith) in
      after_blocks_adds o.stash read_blocks id real
        (answer_of (good.view o.storage) o.cache locations _ asked m)

  complete_after_read :
      (id : ℕ) (d : Bytes)
      → spec id ≡ some d
      → ((d' : Bytes) × (find (after_blocks o.stash read_blocks) id ≡ some d'))
        ⊎ ((id ≢ block)
            × ((l : ℕ) × (d' : Bytes) × OffPath c leaf l
                × OnPath c positions l id
                × Memᴰ (id, d') (bucket_at c good after_read l)))
  complete_after_read id d e = elim (inv.complete id d e) [
    | inl (d', found) ↦ inl (d', after_blocks_keeps o.stash read_blocks id found)
    | inr (l, d', on, m) ↦ elim (on_or_off c leaf l) [
      | inl (k, less, e') ↦ inl (
          read_if_on k id d' less (omega (arith, inv.mapped.known id d e, inv.mapped.numbered))
            (subst (λ (t : ℕ). Memᴰ (id, d') (bucket_at c good o t)) e' m))
      | inr off ↦
          let ne = not_block l id off on in
          inr (
            ne,
            (
              l,
              d',
              off,
              still_on l id ne on,
              subst (λ (b : Bucket). Memᴰ (id, d') b) (sym (seen l)) m,
            ),
          )
    ]
  ]

  after_read-Mid :
      StashLaws.IsValid (after_blocks o.stash read_blocks) → Mid c good spec block leaf after_read
  unfolding after_read fetched moved
  after_read-Mid v =
      let r =
        fetched-IsReadable c good moved locations
          (record {
            positive = inv.readable.positive;
            sound = inv.readable.sound;
            cached = inv.readable.cached;
          })
          locations_below in
      record {
        readable = record { positive = r.positive; sound = r.sound; cached = r.cached };
        mapped = remapped-IsMapped;
        stash_valid = v;
        stash_sound = stash_after;
        tree_sound = tree_after_read;
        complete = complete_after_read;
      }

  -- A block that is read is a dummy, or one of the position map.
  read_blocks_below : All (λ x. (x.0 ≡ dummy_id) ⊎ (x.0 < o.map.capacity)) read_blocks
  read_blocks_below = All-of_mem _ read_blocks (λ x m. elim (eq-cases x.0 dummy_id) [
    | inl dummy ↦ inl dummy
    | inr real ↦ inr ((Expects-fits c spec o.map inv.mapped x.0 x.1 (read_sound x.0 x.1 real m)).0)
  ])

  -- `readPath` leaves the state from which the path can be written, or overflows the stash, which
  -- has no room for the blocks of the position map.
  pub read_path_cases :
      (Crowded o × (read_path c moved leaf [] true ≡ throw stash_overflow))
      ⊎ ((read_path c moved leaf [] true ≡ ok (locations, after_read))
          × Mid c good spec block leaf after_read
          × (after_read.stash.capacity ≡ o.stash.capacity))
  unfolding read_path moved after_read read_blocks locations fetched
  read_path_cases =
      let loaded =
        (get_cache_lem c good moved locations
          (record {
            positive = inv.readable.positive;
            sound = inv.readable.sound;
            cached = inv.readable.cached;
          })
          locations_below).0 in
      elim (add_blocks_cases o.map.capacity o.stash read_blocks inv.stash_valid
        (λ id d found. (Expects-fits c spec o.map inv.mapped id d (inv.stash_sound id d found)).0)
        read_blocks_below) [
          | inl (crowded, over) ↦ inl (crowded, rw (loaded, over) refl)
          | inr added ↦ inr (
            rw (loaded, added) refl,
            after_read-Mid (after_blocks-IsValid o.stash _ read_blocks inv.stash_valid added),
            after_blocks-capacity o.stash read_blocks,
          )
        ]
