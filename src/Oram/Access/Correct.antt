-- ===== src/Oram/Access/Correct.antt =====
-- `access`, `get` and `put` against the expected contents.
use mathlib.Core.List.Memᴰ
use path_oram.Prelude.{
  ℕ, ◌-◌, ◌^◌, ◌<◌, ◌≤◌, ◌≡◌, refl, sym, ap, ◌∙◌, subst, Bool, true, false, [], some, Memᴰ, length,
  ◌⊎◌, inl, inr, Outcome, ok, throw, stash_overflow, ◌>>=◌, arith,
}
use path_oram.Prelude.Words.{Bytes}
use path_oram.Prelude.Assoc.{lookup}
use path_oram.Definitions.{Block, Bucket, dummy_id}
use path_oram.Utility.Random.{get_random_ulong, get_random_ulong-lt}
use path_oram.Tree.Path.{leaves}
use path_oram.Tree.Shifts.{two_pow-pos}
use path_oram.PositionMap.{PositionMap}
use path_oram.PositionMap.Laws as PositionMapLaws
use path_oram.PositionMap.Laws.{leaf_of}
use path_oram.Stash
use path_oram.Stash.{Stash}
use path_oram.Stash.Laws as StashLaws
use path_oram.Stash.Laws.{find, after_update}
use path_oram.Oram.Store.{Store, IsStore}
use path_oram.Oram.State.{Config, Oram}
use path_oram.Oram.Cache.{sync_cache}
use path_oram.Oram.Cache.View.{fetched, bucket_at}
use path_oram.Oram.Cache.Sync.{sync_cache_ok}
use path_oram.Oram.Eviction.{write_path}
use path_oram.Oram.Access.{update_block, remap, access, get, put}
use path_oram.Oram.Access.Refines.{read_path_cases, moved, after_read}
use path_oram.Oram.Access.Updating.{IsAnswer, accessed, get-IsAnswer, update-Mid}
use path_oram.Oram.Access.Writing.{write_path_ok}
use path_oram.Storage.Padding.{pad, padded, pad-pad}
use path_oram.Oram.Invariant.{
  Expects, Expects-fits, OnPath, IsMapped, Crowded, SameSizes, OnPath-lt, Contents, put_contents,
  IsConfig, Inv, Mid,
}

module _ (c : Config) {store : Store} (good : IsStore store (2 ^ c.height) c.z c.data_size) where
  -- What `access` does once the path is read.
  abbrev pub conclude : Oram store → Bool → ℕ → Bytes → Bytes → ℕ → Outcome (Bytes × Oram store)
  conclude o2 read block bytes response leaf = do
    o3 ← update_block c o2 read block bytes
    let answer = Stash.get o3.stash block response
    o4 ← write_path c o3 leaf
    ok (answer, o4)

  conclude_cases :
      (spec : Contents) (o2 : Oram store) (read : Bool) (block leaf : ℕ) (bytes response : Bytes)
      → IsConfig c
      → block < o2.map.capacity
      → leaf < leaves c.height
      → (read ≡ false → length bytes ≤ c.data_size)
      → Mid c good spec block leaf o2
      → (Crowded o2 × (conclude o2 read block bytes response leaf ≡ throw stash_overflow))
        ⊎ ((p : Oram store) × (answer : Bytes) × (conclude o2 read block bytes response leaf
              ≡ ok (answer, p))
            × IsAnswer c.data_size (accessed c spec read block bytes block) response answer
            × Inv c good (accessed c spec read block bytes) p
            × SameSizes o2 p)
  unfolding update_block
  conclude_cases spec o2 true block leaf bytes response fits below proper size mid =
      let (p, wrote, inv, kept, kept') = write_path_ok c good fits spec block leaf o2 mid proper in
      inr (
        p,
        Stash.get o2.stash block response,
        rw wrote refl,
        get-IsAnswer c good spec block leaf o2 response mid,
        inv,
        (ap (λ (m : PositionMap). m.capacity) kept, kept'),
      )
  conclude_cases spec o2 false block leaf bytes response fits below proper size mid =
      elim (StashLaws.update_cases o2.stash block bytes) [
        | inl (over, thrown) ↦ inl (
          StashLaws.overflow-lt o2.map.capacity o2.stash block mid.stash_valid
              (λ id d found.
                (Expects-fits c spec o2.map mid.mapped id d (mid.stash_sound id d found)).0)
              below over,
          rw thrown refl,
        )
        | inr fine ↦
            let o3 : Oram store = record o2 { stash = after_update o2.stash block bytes } in
            let mid' = update-Mid c good spec block leaf bytes o2 below (size refl) mid fine in
            let spec' = accessed c spec false block bytes in
            let (p, wrote, inv, kept, kept') =
              write_path_ok c good fits spec' block leaf o3 mid' proper in
            inr (
              p,
              Stash.get o3.stash block response,
              rw (fine, wrote) refl,
              get-IsAnswer c good spec' block leaf o3 response mid',
              inv,
              (
                ap (λ (m : PositionMap). m.capacity) kept,
                kept' ∙ StashLaws.capacity-after_update o2.stash block bytes,
              ),
            )
      ]

  -- For a height from 1 to 31 and at least one block in a bucket: in a state that satisfies the
  -- invariant, every access of a block below the capacity of the position map answers with the
  -- expected payload (for a write the new one, which is not longer than a block), up to zeroes at
  -- its end, in front of the response and keeps the invariant, for the contents in which a write is
  -- recorded, padded with zeroes to the size of a block; unless the stash overflows, which has
  -- fewer cells than the position map then.
  pub access_correct :
      (spec : Contents) (o : Oram store) (read : Bool) (block : ℕ) (bytes response : Bytes)
      → IsConfig c
      → Inv c good spec o
      → block < o.map.capacity
      → (read ≡ false → length bytes ≤ c.data_size)
      → (Crowded o × (access c o read block bytes response ≡ throw stash_overflow))
        ⊎ ((p : Oram store) × (answer : Bytes) × (access c o read block bytes response
              ≡ ok (answer, p))
            × IsAnswer c.data_size (accessed c spec read block bytes block) response answer
            × Inv c good (accessed c spec read block bytes) p
            × SameSizes o p)
  unfolding access remap moved after_read fetched
  access_correct spec o read block bytes response fits inv below size =
      let (leaf, at, got) = PositionMapLaws.get_ok o.map block inv.mapped.cells below in
      let new = get_random_ulong (leaves c.height) o.leaf_draws in
      let (positions, stored, cells, same, remapped) =
        PositionMapLaws.set_ok o.map block new inv.mapped.cells below in
      let new_proper =
        get_random_ulong-lt (leaves c.height) o.leaf_draws (two_pow-pos (c.height - 1)) in
      elim (read_path_cases c good fits spec o inv block leaf at positions new new_proper cells same
        remapped) [
          | inl (crowded, over) ↦ inl (crowded, rw (got, stored, over) refl)
          | inr (read_ok, mid, room) ↦
              let o2 =
                after_read c good fits spec o inv block leaf at positions new new_proper cells same
                  remapped in
              let step : access c o read block bytes response
                  ≡ conclude o2 read block bytes response leaf =
                rw (got, stored, read_ok) refl in
              let proper = inv.mapped.proper block leaf at in
              elim (conclude_cases spec o2 read block leaf bytes response fits
                (subst (λ (t : ℕ). block < t) (sym same) below) proper size mid) [
                  | inl (crowded, over) ↦ inl (omega (arith, crowded, same, room), step ∙ over)
                  | inr (p, answer, run, answers, inv', kept) ↦
                      inr (p, answer, step ∙ run, answers, inv', (kept.0 ∙ same, kept.1 ∙ room))
                ]
        ]

  padded_sound :
      (spec : Contents) (o : Oram store) (y : Block) (l : ℕ)
      → IsMapped c spec o.map
      → (y.0 ≡ dummy_id) ⊎ (Expects c spec y.0 y.1 × OnPath c o.map l y.0)
      → (y.0 ≡ dummy_id) ⊎ (Expects c spec y.0 (pad c.data_size y.1) × OnPath c o.map l y.0)
  padded_sound spec o y l mapped (inl dummy) = inl dummy
  padded_sound spec o y l mapped (inr (sound, on)) =
      let fits = Expects-fits c spec o.map mapped y.0 y.1 sound in
      inr (sound ∙ ap some (sym (pad-pad c.data_size y.1 fits.1)), on)

  -- Syncing keeps the invariant.
  pub sync_cache-Inv :
      (spec : Contents) (o : Oram store)
      → IsConfig c
      → Inv c good spec o
      → (p : Oram store) × (sync_cache o ≡ ok p) × Inv c good spec p × SameSizes o p
  unfolding lookup
  sync_cache-Inv spec o fits inv =
      let (s, saved, readable, sees) = sync_cache_ok c good o inv.readable in
      (
        record o { storage = s; cache = [] },
        saved,
        record {
          readable = readable;
          mapped = inv.mapped;
          stash_valid = inv.stash_valid;
          stash_sound = inv.stash_sound;
          tree_sound = λ l x below m.
              let (y, inside, e) =
                Memᴰ.of_map (padded c.data_size) (bucket_at c good o l)
                  (subst (λ (b : Bucket). Memᴰ x b) (sees l below) m) in
              subst
                (λ (z : Block). (z.0 ≡ dummy_id) ⊎ (Expects c spec z.0 z.1 × OnPath c o.map l z.0))
                e (padded_sound spec o y l inv.mapped (inv.tree_sound l y below inside));
          complete = λ id d e. elim (inv.complete id d e) [
            | inl found ↦ inl found
            | inr (l, d', on, m) ↦
                let below = OnPath-lt c spec o.map fits inv.mapped l id on in
                inr (
                  l,
                  pad c.data_size d',
                  on,
                  subst (λ (b : Bucket). Memᴰ (id, pad c.data_size d') b) (sym (sees l below))
                      (Memᴰ.map (padded c.data_size) m),
                )
          ];
        },
        (refl, refl),
      )

  -- For a height from 1 to 31 and at least one block in a bucket: in a state that satisfies the
  -- invariant, `ORAM::get` of a block below the capacity of the position map puts the payload of
  -- the block, if it has one, up to zeroes at its end, in front of the response, changes no
  -- contents and keeps the invariant; unless the stash overflows, which has fewer cells than the
  -- position map then.
  pub get_correct :
      (spec : Contents) (o : Oram store) (block : ℕ) (response : Bytes)
      → IsConfig c
      → Inv c good spec o
      → block < o.map.capacity
      → (Crowded o × (get c o block response ≡ throw stash_overflow))
        ⊎ ((p : Oram store) × (answer : Bytes) × (get c o block response ≡ ok (answer, p))
            × IsAnswer c.data_size (spec block) response answer
            × Inv c good spec p
            × SameSizes o p)
  unfolding get
  get_correct spec o block response fits inv below =
      elim (access_correct spec o true block [] response fits inv below (λ e. cc)) [
        | inl (crowded, over) ↦ inl (crowded, rw over refl)
        | inr (p, answer, ran, answers, inv', kept) ↦
            let (q, synced, inv'', kept') = sync_cache-Inv spec p fits inv' in
            inr (
              q,
              answer,
              rw (ran, synced) refl,
              answers,
              inv'',
              (kept'.0 ∙ kept.0, kept'.1 ∙ kept.1),
            )
      ]

  -- For a height from 1 to 31 and at least one block in a bucket: in a state that satisfies the
  -- invariant, `ORAM::put` of a payload that is not longer than a block, for a block below the
  -- capacity of the position map, keeps the invariant for the contents in which this payload is
  -- recorded, padded with zeroes to the size of a block, and no other block is changed; unless the
  -- stash overflows, which has fewer cells than the position map then.
  pub put_correct :
      (spec : Contents) (o : Oram store) (block : ℕ) (bytes : Bytes)
      → IsConfig c
      → Inv c good spec o
      → block < o.map.capacity
      → length bytes ≤ c.data_size
      → (Crowded o × (put c o block bytes ≡ throw stash_overflow))
        ⊎ ((p : Oram store) × (put c o block bytes ≡ ok p)
            × Inv c good (put_contents spec block (pad c.data_size bytes)) p
            × SameSizes o p)
  unfolding put
  put_correct spec o block bytes fits inv below size =
      elim (access_correct spec o false block bytes [] fits inv below (λ e. size)) [
        | inl (crowded, over) ↦ inl (crowded, rw over refl)
        | inr (p, answer, ran, answers, inv', kept) ↦
            let (q, synced, inv'', kept') =
              sync_cache-Inv (put_contents spec block (pad c.data_size bytes)) p fits inv' in
            inr (q, rw (ran, synced) refl, inv'', (kept'.0 ∙ kept.0, kept'.1 ∙ kept.1))
      ]
