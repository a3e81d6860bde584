-- ===== src/Oram/Access/Pattern.antt =====
-- Which buckets an access touches: those of the path to the old leaf, whatever the request is.
use path_oram.Prelude.{
  outcome_cases, ℕ, zero, suc, ◌-◌, ◌^◌, ◌<◌, ◌≡◌, ◌↔◌, sym, ap, ◌∙◌, subst, Bool, true, false,
  List, [], some, some_path, Memᴰ, All, All-of_mem, ◌⊎◌, inl, inr, ok, ok_path, ◌==◌, ==_iff,
  Bool-cases, Exception, throw, stash_overflow, ◌≤◌, length, ◌*◌, ◌≢◌, arith,
}
use path_oram.Prelude.Words.{Bytes}
use path_oram.Prelude.Assoc.{contains}
use path_oram.Definitions.{Block}
use path_oram.Utility.Random.{Source, skip, rest, get_random_ulong}
use path_oram.Tree.{bucket_for_level_leaf}
use path_oram.Tree.Path.{leaves, bucket_for_level_leaf_bounds}
use path_oram.Tree.Shifts.{two_pow-le}
use path_oram.PositionMap.{PositionMap}
use path_oram.PositionMap.Laws as PositionMapLaws
use path_oram.PositionMap.Laws.{leaf_of}
use path_oram.Stash
use path_oram.Oram.Store.{Store, IsStore}
use path_oram.Oram.State.{Config, Oram}
use path_oram.Oram.Cache.Collect.{assign_all}
use path_oram.Oram.Cache.Hits.{misses, answer as answer_blocks}
use path_oram.Oram.Cache.View.{IsReadable, fetched, get_cache_lem}
use path_oram.Oram.Access.Reading.{mem-path_locations, path_locations_all}
use path_oram.Oram.Cache.Keys.{nothing_asked, fetched-keys, set_cache-keys}
use path_oram.Oram.Eviction.{Evicted, evict_levels, write_path, pick_from, erase_each, sort_desc}
use path_oram.Oram.Access.{path_locations, add_blocks, read_path, remap, update_block, access}
use path_oram.Oram.Access.Correct.{conclude, access_correct}
use path_oram.Oram.Invariant.{Contents, IsConfig, Inv, Crowded}

-- The location is the bucket of a level on the path to the leaf.
abbrev pub IsOnPath : Config → (leaf l : ℕ) → Type 0
IsOnPath c leaf l = (k : ℕ) × (k < c.height) × (l ≡ bucket_for_level_leaf c.height k leaf)

throw-ne-ok {ℓ} : {A : Type ℓ} {e : Exception} {a : A} → throw e ≢ ok a
throw-ne-ok same = ground arith

-- The requests of the eviction are for buckets of the path.
evict_levels-keys :
    (c : Config) (positions : PositionMap) (leaf levels : ℕ) (current : List Block) (draws : Source)
    (r : Evicted) (l : ℕ)
    → evict_levels c positions leaf levels current draws ≡ ok r
    → contains l r.requests ≡ true
    → (k : ℕ) × (k < levels) × (l ≡ bucket_for_level_leaf c.height k leaf)
unfolding evict_levels contains
evict_levels-keys c positions leaf zero current draws r l ran asked =
    absurd (nothing_asked l (sym (ap (λ (e : Evicted). e.requests) (ok_path ran))) asked)
evict_levels-keys c positions leaf (suc level) current draws r l ran asked =
    elim (outcome_cases (pick_from c positions level leaf 0 0 current)) [
      | inr (e, failed) ↦ absurd (throw-ne-ok (rw failed at ran))
      | inl (picked, found) ↦
          let ran1 = rw found at ran in
          elim (outcome_cases (
            evict_levels c positions leaf level (erase_each current (sort_desc picked.1))
              (skip ((c.z - length picked.0) * c.data_size) draws))) [
                | inr (e, failed) ↦ absurd (throw-ne-ok (rw failed at ran1))
                | inl (above, ran2) ↦
                    let made = ok_path (rw ran2 at ran1) in
                    let own = bucket_for_level_leaf c.height level leaf in
                    let asked' = ap (λ (e : Evicted). contains l e.requests) made ∙ asked in
                    elim (Bool-cases (l == own)) [
                      | inl e ↦ (level, omega arith, (==_iff l own).0 e)
                      | inr e ↦
                          let (k, less, at) =
                            evict_levels-keys c positions leaf level _ _ above l ran2
                              (rw e at asked') in
                          (k, omega arith, at)
                    ]
              ]
    ]

module _ (c : Config) {store : Store} where
  -- To write a path caches buckets of it only, and drops none.
  write_path-keys :
      (o p : Oram store) (leaf l : ℕ)
      → write_path c o leaf ≡ ok p
      → (contains l p.cache ≡ true → (contains l o.cache ≡ true) ⊎ IsOnPath c leaf l)
        × (contains l o.cache ≡ true → contains l p.cache ≡ true)
  unfolding write_path
  write_path-keys o p leaf l ran =
      let current = Stash.get_all o.stash o.shuffle_draws [] in
      elim (outcome_cases (evict_levels c o.map leaf c.height current o.dummy_draws)) [
        | inr (e, failed) ↦ absurd (throw-ne-ok (rw failed at ran))
        | inl (r, evicted) ↦
            let made = ap (λ (q : Oram store). contains l q.cache) (ok_path (rw evicted at ran)) in
            let keys = set_cache-keys _ r.requests l in
            (
              λ h. elim (keys.0 (made ∙ h)) [
                | inl asked ↦ inr (
                    evict_levels-keys c o.map leaf c.height current o.dummy_draws r l evicted asked)
                | inr old ↦ inl old
              ],
              λ h. sym made ∙ keys.1 (inr h),
            )
      ]

-- The locations of a path are those of its buckets, and in the tree.
path-locations :
    (c : Config) (leaf l : ℕ)
    → Memᴰ l (path_locations c.height c.height 0 leaf []) ↔ IsOnPath c leaf l
path-locations c leaf l = (
  λ m. elim (mem-path_locations c.height leaf c.height 0 [] m) [
    | inl h ↦ elim h [ ]
    | inr (k, less, e) ↦ (k, omega arith, e)
  ],
  λ (k, less, e).
      subst (λ (t : ℕ). Memᴰ t (path_locations c.height c.height 0 leaf [])) (sym e)
        (path_locations_all c.height leaf c.height 0 [] k (omega arith) (omega arith)),
)

path-below :
    (c : Config) (leaf : ℕ)
    → IsConfig c
    → leaf < leaves c.height
    → All (λ l. l < 2 ^ c.height) (path_locations c.height c.height 0 leaf [])
path-below c leaf fits proper = All-of_mem _ (path_locations c.height c.height 0 leaf []) (λ l m.
    let (k, less, e) = (path-locations c leaf l).0 m in
    omega (
      arith,
      e,
      bucket_for_level_leaf_bounds c.height k leaf fits.tall less proper,
      two_pow-le {a = suc k} {b = c.height} less,
    ))

module _ (c : Config) {store : Store} (good : IsStore store (2 ^ c.height) c.z c.data_size) where
  conclude_read-keys :
      (o p : Oram store) (block leaf l : ℕ) (bytes response answer : Bytes)
      → conclude c good o true block bytes response leaf ≡ ok (answer, p)
      → (contains l p.cache ≡ true → (contains l o.cache ≡ true) ⊎ IsOnPath c leaf l)
        × (contains l o.cache ≡ true → contains l p.cache ≡ true)
  unfolding update_block
  conclude_read-keys o p block leaf l bytes response answer ran =
      elim (outcome_cases (write_path c o leaf)) [
        | inr (e, failed) ↦ absurd (throw-ne-ok (rw failed at ran))
        | inl (q, wrote) ↦
            let same = ap (λ (z : Bytes × Oram store). z.1) (ok_path (rw wrote at ran)) in
            subst
              (λ (q : Oram store).
                (contains l q.cache ≡ true → (contains l o.cache ≡ true) ⊎ IsOnPath c leaf l)
                × (contains l o.cache ≡ true → contains l q.cache ≡ true))
              same (write_path-keys c o q leaf l wrote)
      ]

  conclude-keys :
      (o p : Oram store) (read : Bool) (block leaf l : ℕ) (bytes response answer : Bytes)
      → conclude c good o read block bytes response leaf ≡ ok (answer, p)
      → (contains l p.cache ≡ true → (contains l o.cache ≡ true) ⊎ IsOnPath c leaf l)
        × (contains l o.cache ≡ true → contains l p.cache ≡ true)
  unfolding update_block
  conclude-keys o p true block leaf l bytes response answer ran =
      conclude_read-keys o p block leaf l bytes response answer ran
  conclude-keys o p false block leaf l bytes response answer ran =
      elim (outcome_cases (Stash.update o.stash block bytes)) [
        | inr (e, failed) ↦ absurd (throw-ne-ok (rw failed at ran))
        | inl (stash, updated) ↦
            conclude_read-keys (record o { stash = stash }) p block leaf l bytes response answer
              (rw updated at ran)
      ]

  access-keys :
      (spec : Contents) (o p : Oram store) (read : Bool) (block leaf : ℕ)
      (bytes response answer : Bytes)
      → IsConfig c
      → Inv c good spec o
      → o.cache ≡ []
      → block < o.map.capacity
      → leaf_of o.map block ≡ some leaf
      → access c o read block bytes response ≡ ok (answer, p)
      → (l : ℕ) → (contains l p.cache ≡ true) ↔ IsOnPath c leaf l
  unfolding access remap read_path fetched
  access-keys spec o p read block leaf bytes response answer fits inv clean below at ran l =
      let (leaf', at', got') = PositionMapLaws.get_ok o.map block inv.mapped.cells below in
      let got = got' ∙ ap ok (some_path (sym at' ∙ at)) in
      let new = get_random_ulong (2 ^ (c.height - 1)) o.leaf_draws in
      let (positions, stored, cells, same, remapped) =
        PositionMapLaws.set_ok o.map block new inv.mapped.cells below in
      let o1 : Oram store = record o { map = positions; leaf_draws = rest o.leaf_draws } in
      let locations = path_locations c.height c.height 0 leaf [] in
      let readable : IsReadable c good o1 = record {
        positive = inv.readable.positive;
        sound = inv.readable.sound;
        cached = inv.readable.cached;
      } in
      let proper = inv.mapped.proper block leaf at in
      let view = good.view o.storage in
      let loaded = (get_cache_lem c good o1 locations readable (path-below c leaf fits proper)).0 in
      let ran1 = rw (got, stored, loaded) at ran in
      elim (outcome_cases (add_blocks o.stash (answer_blocks view o.cache locations))) [
        | inr (e, failed) ↦ absurd (throw-ne-ok (rw failed at ran1))
        | inl (stash, added) ↦
            let o2 : Oram store = record o1 {
              stash = stash;
              cache = assign_all view (misses o.cache locations) o.cache;
            } in
            let keys =
              conclude-keys o2 p read block leaf l bytes response answer (rw added at ran1) in
            let fresh = fetched-keys view locations o.cache clean l in
            let path = path-locations c leaf l in
            (
              λ h. elim (keys.0 h) [ inl held ↦ path.0 (fresh.0 held) | inr on ↦ on ],
              λ on. keys.1 (fresh.1 (path.1 on)),
            )
      ]

  -- For a height from 1 to 31 and at least one block in a bucket: in a state that satisfies the
  -- invariant and has an empty cache, every access of a block below the capacity of the position
  -- map, a read or a write of a payload that is not longer than a block, leaves a cache that has
  -- exactly the locations on the path to the leaf that the block had, whatever block, direction,
  -- payload and contents are; unless the stash overflows, which has fewer cells than the position
  -- map then.
  pub access_pattern :
      (spec : Contents) (o : Oram store) (read : Bool) (block leaf : ℕ) (bytes response : Bytes)
      → IsConfig c
      → Inv c good spec o
      → o.cache ≡ []
      → block < o.map.capacity
      → leaf_of o.map block ≡ some leaf
      → (read ≡ false → length bytes ≤ c.data_size)
      → (Crowded o × (access c o read block bytes response ≡ throw stash_overflow))
        ⊎ ((p : Oram store) × (answer : Bytes) × (access c o read block bytes response
              ≡ ok (answer, p))
            × ((l : ℕ) → (contains l p.cache ≡ true) ↔ IsOnPath c leaf l))
  access_pattern spec o read block leaf bytes response fits inv clean below at size =
      elim (access_correct c good spec o read block bytes response fits inv below size) [
        | inl over ↦ inl over
        | inr (p, answer, ran, answers, inv', same) ↦ inr (
          p,
          answer,
          ran,
          access-keys spec o p read block leaf bytes response answer fits inv clean below at ran,
        )
      ]
