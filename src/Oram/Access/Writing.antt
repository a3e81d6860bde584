-- ===== src/Oram/Access/Writing.antt =====
-- The second half of an access: `writePath` restores the invariant.
use mathlib.Core.List.Permᴰ
use native.Mathlib.Nat.{le_refl}
use path_oram.Prelude.{
  ℕ, ◌^◌, ◌<◌, ◌≡◌, sym, ap, refl, ◌∙◌, subst, List, [], ◌∷◌, some, All, All-of_mem, mem-All, map,
  Memᴰ, mem-perm, ◌⊎◌, inl, inr, ok, eq-cases, ne→==_false, arith,
}
use path_oram.Prelude.Words.{Bytes}
use path_oram.Prelude.Assoc.{lookup_of_mem}
use path_oram.Definitions.{Block, Bucket, dummy_id}
use path_oram.Utility.Random.{skip}
use path_oram.Utility.Shuffle.{shuffle_draws}
use path_oram.Tree.{bucket_for_level_leaf}
use path_oram.Tree.Path.{leaves, can_include_iff}
use path_oram.PositionMap.Laws.{leaf_of}
use path_oram.Stash
use path_oram.Stash.{Stash}
use path_oram.Stash.Laws as StashLaws
use path_oram.Stash.Laws.{find, get_all-perm}
use path_oram.Oram.Store.{Store, IsStore, written}
use path_oram.Oram.State.{Config, Oram}
use path_oram.Oram.Cache.View.{bucket_at}
use path_oram.Oram.Cache.Sync.{after_set, set_cache_lem, bucket_at-after_set, after_set-IsReadable}
use path_oram.Oram.Eviction.{Evicted, as_int, remove_all, write_path}
use path_oram.Oram.Eviction.Levels.{
  IsBlock, Evicts, evict_levels_ok, written_off_path, written_on_path, written_deleted,
  Evicts-AreWrites,
}
use path_oram.Oram.Invariant.{
  Expects, Expects-fits, Contents, OnPath, IsConfig, Inv, Mid, on_or_off,
}

pub remove_all-find :
    (t : Stash) (ids : List ℕ) (id : ℕ) {d : Bytes}
    → find (remove_all t ids) id ≡ some d
    → find t id ≡ some d
unfolding remove_all
remove_all-find t [] id e = e
remove_all-find t (i ∷ ids) id {d} e =
    ground (arith, remove_all-find (Stash.remove t i) ids id e, StashLaws.find-remove t i id)

-- What was there is there still, or its ID is one of those removed.
remove_all_keeps :
    (t : Stash) (ids : List ℕ) (id : ℕ) {d : Bytes}
    → find t id ≡ some d
    → Memᴰ id ids ⊎ (find (remove_all t ids) id ≡ some d)
unfolding remove_all
remove_all_keeps t [] id e = inr e
remove_all_keeps t (i ∷ ids) id e = elim (eq-cases id i) [
  | inl same ↦ inl (Memᴰ.head same)
  | inr other ↦
      elim (remove_all_keeps (Stash.remove t i) ids id
        (StashLaws.find-remove t i id ∙ rw (ne→==_false id i other) e)) [
          | inl m ↦ inl (Memᴰ.tail m)
          | inr k ↦ inr k
        ]
]

remove_all-IsValid :
    (t : Stash) (ids : List ℕ) → StashLaws.IsValid t → StashLaws.IsValid (remove_all t ids)
unfolding remove_all
remove_all-IsValid t [] v = v
remove_all-IsValid t (i ∷ ids) v =
    remove_all-IsValid (Stash.remove t i) ids (StashLaws.remove-IsValid t i v)

map_as_int : (ids : List ℕ) → All (λ id. id < 2 ^ 31) ids → map as_int ids ≡ ids
unfolding as_int
map_as_int [] h = refl
map_as_int (id ∷ ids) h = λ i. fits_int id h.0 i ∷ map_as_int ids h.1 i
  where
    fits_int : (n : ℕ) → n < 2 ^ 31 → as_int n ≡ n
    fits_int n below = ground arith

remove_all-capacity : (t : Stash) (ids : List ℕ) → (remove_all t ids).capacity ≡ t.capacity
unfolding remove_all Stash.remove
remove_all-capacity t [] = refl
remove_all-capacity t (id ∷ ids) = remove_all-capacity (Stash.remove t id) ids

module _ (c : Config) {store : Store} (good : IsStore store (2 ^ c.height) c.z c.data_size)
    (fits : IsConfig c) (spec : Contents) (block leaf : ℕ) (o : Oram store)
    (mid : Mid c good spec block leaf o) (proper : leaf < leaves c.height) where
  unfoldable pub current : List Block
  current = Stash.get_all o.stash o.shuffle_draws []

  -- The local stash holds expected blocks.
  pub current_sound : (x : Block) → Memᴰ x current → Expects c spec x.0 x.1
  unfolding current
  current_sound x m = mid.stash_sound x.0 x.1 (
      lookup_of_mem x.0 o.stash.stash mid.stash_valid.distinct
        (mem-perm (Permᴰ.symm (get_all-perm o.stash o.shuffle_draws)) m))

  pub current_known : All (λ e. (e.0 < o.map.capacity) × IsBlock c.data_size e) current
  current_known = All-of_mem _ current (λ x m.
      let k = Expects-fits c spec o.map mid.mapped x.0 x.1 (current_sound x m) in
      (k.0, (omega (arith, k.2), k.1)))

  module _ (r : Evicted) (run : Evicts c o.map leaf c.height current r.requests r.to_delete) where
    unfoldable pub written_state : Oram store
    written_state =
        after_set
          (record o {
            stash = remove_all o.stash r.to_delete;
            shuffle_draws = skip (shuffle_draws o.stash.stash) o.shuffle_draws;
            dummy_draws = r.dummy_draws;
          })
          r.requests

    pub written_tree :
        (l : ℕ) → bucket_at c good written_state l ≡ written r.requests l (bucket_at c good o l)
    unfolding written_state
    written_tree l = bucket_at-after_set c good _ r.requests l

    tree_after :
        (l : ℕ) (x : Block)
        → l < 2 ^ c.height
        → Memᴰ x (bucket_at c good written_state l)
        → (x.0 ≡ dummy_id) ⊎ (Expects c spec x.0 x.1 × OnPath c o.map l x.0)
    tree_after l x below m =
        let here = subst (λ (b : Bucket). Memᴰ x b) (written_tree l) m in
        elim (on_or_off c leaf l) [
          | inr off ↦
              elim (mid.tree_sound l x below off (
                subst (λ (b : Bucket). Memᴰ x b)
                  (written_off_path c o.map leaf fits.tall proper run l (bucket_at c good o l) off)
                  here)) [ inl dummy ↦ inl dummy | inr (other, sound, on) ↦ inr (sound, on) ]
          | inl (k, less, at) ↦
              elim (written_on_path c o.map leaf fits.tall proper (le_refl c.height) run k
                (bucket_at c good o l) x less
                (subst (λ (t : ℕ). Memᴰ x (written r.requests t (bucket_at c good o l))) at here)) [
                  | inl dummy ↦ inl dummy
                  | inr (cur, (entry, known, joined)) ↦ inr (
                    current_sound x cur,
                    (
                      entry,
                      k,
                      known,
                      less,
                      at ∙ sym ((can_include_iff c.height entry leaf k).0 joined),
                    ),
                  )
                ]
        ]

    complete_after :
        (id : ℕ) (d : Bytes)
        → spec id ≡ some d
        → ((d' : Bytes) × (find (remove_all o.stash r.to_delete) id ≡ some d'))
          ⊎ ((l : ℕ) × (d' : Bytes) × OnPath c o.map l id
              × Memᴰ (id, d') (bucket_at c good written_state l))
    complete_after id d e = elim (mid.complete id d e) [
      | inr (other, (l, d', off, on, m)) ↦ inr (
        l,
        d',
        on,
        subst (λ (b : Bucket). Memᴰ (id, d') b)
            (sym (
              written_tree l
              ∙ written_off_path c o.map leaf fits.tall proper run l (bucket_at c good o l) off))
            m,
      )
      | inl (d', found) ↦ elim (remove_all_keeps o.stash r.to_delete id found) [
        | inr still ↦ inl (d', still)
        | inl gone ↦
            let (k, x, less, same, cur, (entry, known, joined), held) =
              written_deleted c o.map leaf fits.tall proper (le_refl c.height) run
                (bucket_at c good o) id gone in
            let at = (can_include_iff c.height entry leaf k).0 joined in
            let l = bucket_for_level_leaf c.height k leaf in
            inr (
              l,
              x.1,
              (entry, k, ap (leaf_of o.map) (sym same) ∙ known, less, sym at),
              subst (λ (b : Bucket). Memᴰ (id, x.1) b) (sym (written_tree l))
                  (subst (λ (y : Block). Memᴰ y (written r.requests l (bucket_at c good o l)))
                    (λ i. (same i, x.1)) held),
            )
      ]
    ]

    written_state-Inv : Inv c good spec written_state
    unfolding written_state after_set
    written_state-Inv = record {
      readable =
          after_set-IsReadable c good _ r.requests
            (Evicts-AreWrites c o.map leaf fits.tall proper (le_refl c.height) run)
            (record {
              positive = mid.readable.positive;
              sound = mid.readable.sound;
              cached = mid.readable.cached;
            });
      mapped = mid.mapped;
      stash_valid = remove_all-IsValid o.stash r.to_delete mid.stash_valid;
      stash_sound = λ id d e. mid.stash_sound id d (remove_all-find o.stash r.to_delete id e);
      tree_sound = tree_after;
      complete = complete_after;
    }

    pub narrow : map as_int r.to_delete ≡ r.to_delete
    narrow = map_as_int r.to_delete (
        All-of_mem _ r.to_delete (λ id m.
          let (k, x, less, same, cur, fit, held) =
            written_deleted c o.map leaf fits.tall proper (le_refl c.height) run
              (bucket_at c good o) id m in
          omega (arith, same, mem-All _ current current_known cur, mid.mapped.numbered)))

  -- What `writePath` returns, in terms of the loop over the levels.
  pub write_path_runs :
      (r : Evicted) × (run : Evicts c o.map leaf c.height current r.requests r.to_delete)
      × (write_path c o leaf ≡ ok (written_state r run))
  unfolding write_path written_state current after_set
  write_path_runs =
      let (r, ran, run) =
        evict_levels_ok c o.map leaf mid.mapped.cells fits.roomy c.height current o.dummy_draws
          current_known in
      (r, run, rw (ran, narrow r run) (ap ok (set_cache_lem _ r.requests)))

  -- For a height from 1 to 31 and at least one block in a bucket: after the path to a proper leaf
  -- was read into the stash, `writePath` does not throw, leaves the position map and the capacity
  -- of the stash, and restores the invariant for the same contents.
  pub write_path_ok :
      (p : Oram store) × (write_path c o leaf ≡ ok p)
      × Inv c good spec p
      × (p.map ≡ o.map)
      × (p.stash.capacity ≡ o.stash.capacity)
  unfolding written_state after_set
  write_path_ok =
      let (r, run, ran) = write_path_runs in
      (
        written_state r run,
        ran,
        written_state-Inv r run,
        refl,
        remove_all-capacity o.stash r.to_delete,
      )
