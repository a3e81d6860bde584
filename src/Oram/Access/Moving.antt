-- ===== src/Oram/Access/Moving.antt =====
-- `writePath` moves blocks out of the stash, and does not copy them.
use mathlib.Core.List.Memᴰ
use mathlib.Core.List.Permᴰ
use mathlib.Core.Option.{none-ne-some}
use native.Mathlib.Nat.{le_refl}
use path_oram.Prelude.{
  ℕ, ◌^◌, ◌<◌, ◌≡◌, ◌≢◌, refl, sym, ap, ◌∙◌, subst, List, [], ◌∷◌, none, some, some_path, Memᴰ,
  mem-perm, mem-All, ◌⊎◌, inl, inr, ok, eq-cases, ne→==_false, Option-cases, arith,
}
use path_oram.Prelude.Words.{Bytes}
use path_oram.Prelude.Assoc.{lookup_of_mem, mem_of_lookup}
use path_oram.Definitions.{Block, Bucket, dummy_id}
use path_oram.Tree.Path.{leaves}
use path_oram.Stash
use path_oram.Stash.{Stash}
use path_oram.Stash.Laws as StashLaws
use path_oram.Stash.Laws.{find, get_all-perm}
use path_oram.Oram.Store.{Store, IsStore, written}
use path_oram.Oram.State.{Config, Oram}
use path_oram.Oram.Cache.Sync.{after_set}
use path_oram.Oram.Cache.View.{bucket_at}
use path_oram.Oram.Eviction.{remove_all, write_path}
use path_oram.Oram.Eviction.Pick.{Fits}
use path_oram.Oram.Eviction.Levels.{at_level, written_deleted}
use path_oram.Oram.Eviction.Placing.{written_chosen, written_greedy}
use path_oram.Oram.Access.Writing.{
  remove_all-find, current, current_sound, current_known, written_state, written_tree,
  write_path_runs,
}
use path_oram.Oram.Invariant.{Contents, IsConfig, Mid}

deleted_or_not : (id : ℕ) (ids : List ℕ) → Memᴰ id ids ⊎ (¬ Memᴰ id ids)
deleted_or_not id [] = inr (λ m. elim m [ ])
deleted_or_not id (i ∷ ids) = elim (eq-cases id i) [
  | inl e ↦ inl (Memᴰ.head e)
  | inr ne ↦ elim (deleted_or_not id ids) [
    | inl m ↦ inl (Memᴰ.tail m)
    | inr off ↦ inr (λ m. elim (Memᴰ.cases_cons m) [ inl e ↦ ne e | inr k ↦ off k ])
  ]
]

-- What is not in the stash does not come into it.
remove_all-none :
    (t : Stash) (ids : List ℕ) (id : ℕ) → find t id ≡ none → find (remove_all t ids) id ≡ none
remove_all-none t ids id absent = elim (Option-cases (find (remove_all t ids) id)) [
  | inl e ↦ e
  | inr (d, e) ↦ absurd (none-ne-some d (sym absent ∙ remove_all-find t ids id e))
]

remove_all_gone :
    (t : Stash) (ids : List ℕ) (id : ℕ) → Memᴰ id ids → find (remove_all t ids) id ≡ none
unfolding remove_all
remove_all_gone t [] id m = elim m [ ]
remove_all_gone t (i ∷ ids) id (Memᴰ.head e) =
    remove_all-none (Stash.remove t i) ids id (ground (arith, StashLaws.find-remove t i id))
remove_all_gone t (i ∷ ids) id (Memᴰ.tail m) = remove_all_gone (Stash.remove t i) ids id m

remove_all_stays :
    (t : Stash) (ids : List ℕ) (id : ℕ) → ¬ Memᴰ id ids → find (remove_all t ids) id ≡ find t id
unfolding remove_all
remove_all_stays t [] id off = refl
remove_all_stays t (i ∷ ids) id off =
    remove_all_stays (Stash.remove t i) ids id (λ m. off (Memᴰ.tail m))
    ∙ StashLaws.find-remove t i id
    ∙ rw (ne→==_false id i (λ e. off (Memᴰ.head e))) refl

-- A block of the stash afterwards: either it is in a bucket of the path and no longer in the stash,
-- or it is still in the stash, in no bucket of the path, and the buckets that it fits are full.
abbrev pub MovedOrKept :
    (c : Config) {store : Store} (good : IsStore store (2 ^ c.height) c.z c.data_size) (leaf : ℕ)
    (o p : Oram store) (id : ℕ) (d : Bytes)
    → Type 0
MovedOrKept c good leaf o p id d =
    ((find p.stash id ≡ none)
      × ((k : ℕ) × (k < c.height) × Memᴰ (id, d) (bucket_at c good p (at_level c leaf k))))
    ⊎ ((find p.stash id ≡ some d)
        × ((k : ℕ) (y : Block)
            → k < c.height
            → Memᴰ y (bucket_at c good p (at_level c leaf k))
            → (y.0 ≢ id) × (Fits c o.map k leaf (id, d) → y.0 ≢ dummy_id)))

-- For a height from 1 to 31 and at least one block in a bucket: after the path to a proper leaf was
-- read into the stash, `writePath` does not throw, and what is not in the stash does not come into
-- it. A block of the stash is moved or kept: either it is gone from the stash and in a bucket of
-- the path, or it is still in the stash and in no bucket of the path, and every bucket of the path
-- that it could be in, by `canInclude`, has no dummies.
pub write_path_moves :
    (c : Config) {store : Store} (good : IsStore store (2 ^ c.height) c.z c.data_size)
    (fits : IsConfig c) (spec : Contents) (block leaf : ℕ) (o : Oram store)
    → Mid c good spec block leaf o
    → leaf < leaves c.height
    → (p : Oram store) × (write_path c o leaf ≡ ok p)
      × ((id : ℕ) → find o.stash id ≡ none → find p.stash id ≡ none)
      × ((id : ℕ) (d : Bytes) → find o.stash id ≡ some d → MovedOrKept c good leaf o p id d)
unfolding written_state after_set current
write_path_moves c {store} good fits spec block leaf o mid proper =
    let (r, run, ran) = write_path_runs c good fits spec block leaf o mid proper in
    let p = written_state c good fits spec block leaf o mid proper r run in
    let tree = written_tree c good fits spec block leaf o mid proper r run in
    let sound = current_sound c good fits spec block leaf o mid proper in
    let known = current_known c good fits spec block leaf o mid proper in
    let all = Stash.get_all o.stash o.shuffle_draws [] in
    let found_in : (x : Block) → Memᴰ x all → find o.stash x.0 ≡ some x.1 = λ x m.
      lookup_of_mem x.0 o.stash.stash mid.stash_valid.distinct
        (mem-perm (Permᴰ.symm (get_all-perm o.stash o.shuffle_draws)) m) in
    let is_in : (id : ℕ) (d : Bytes) → find o.stash id ≡ some d → Memᴰ (id, d) all = λ id d e.
      mem-perm (get_all-perm o.stash o.shuffle_draws) (mem_of_lookup id o.stash.stash e) in
    let real : (x : Block) → Memᴰ x all → x.0 ≢ dummy_id =
      λ x m e. absurd (omega (arith, (mem-All _ all known m).0, mid.mapped.numbered, e)) in
    (
      p,
      ran,
      λ id absent. remove_all-none o.stash r.to_delete id absent,
      λ id d e. elim (deleted_or_not id r.to_delete) [
        | inl gone ↦
            let (k, x, less, same, cur, joined, held) =
              written_deleted c o.map leaf fits.tall proper (le_refl c.height) run
                (bucket_at c good o) id gone in
            let payload : x.1 ≡ d = some_path (sym (found_in x cur) ∙ ap (find o.stash) same ∙ e) in
            inl (
              remove_all_gone o.stash r.to_delete id gone,
              (
                k,
                less,
                subst (λ (b : Bucket). Memᴰ (id, d) b) (sym (tree (at_level c leaf k)))
                    (subst
                      (λ (y : Block). Memᴰ y (
                        written r.requests (at_level c leaf k)
                          (bucket_at c good o (at_level c leaf k))))
                      (λ i. (same i, payload i)) held),
              ),
            )
        | inr off ↦ inr (
          remove_all_stays o.stash r.to_delete id off ∙ e,
          λ k y less m.
              let here = subst (λ (b : Bucket). Memᴰ y b) (tree (at_level c leaf k)) m in
              let old = bucket_at c good o (at_level c leaf k) in
              (
                λ same.
                    elim (written_chosen c o.map leaf fits.tall proper (le_refl c.height) run k old
                      y less here) [
                        | inl dummy ↦ real (id, d) (is_in id d e) (sym same ∙ dummy)
                        | inr deleted ↦ off (subst (λ (n : ℕ). Memᴰ n r.to_delete) same deleted)
                      ],
                λ joins. real y (
                    written_greedy c o.map leaf fits.tall proper (le_refl c.height) run (id, d)
                      (is_in id d e) off k old y less joins here),
              ),
        )
      ],
    )
