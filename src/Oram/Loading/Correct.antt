-- ===== src/Oram/Loading/Correct.antt =====
-- `load` into an empty tree.
use mathlib.Core.List.Memᴰ
use path_oram.Prelude.{
  ℕ, ◌+◌, ◌*◌, ◌^◌, ◌≤◌, ◌<◌, ◌≡◌, refl, sym, ap, ◌∙◌, subst, List, [], none, some, some_path,
  Option-cases, All, All-mono, All-of_mem, mem-All, mem-perm, length-perm, Memᴰ, Permᴰ, length, ltb,
  inl, inr, ok, arith, false,
}
use path_oram.Prelude.Assoc.{lookup, Distinct, mem_of_lookup, lookup_of_mem}
use path_oram.Prelude.Orders.{lookup-perm}
use path_oram.Prelude.Words.{int_to_number-small, Bytes, u64_mod}
use path_oram.Definitions.{Block, Bucket}
use path_oram.Utility.Random.{skip}
use path_oram.Tree.Shifts.{two_pow-le}
use path_oram.Utility.Shuffle.{shuffle, shuffle_draws, shuffle-perm}
use path_oram.Storage.Padding.{pad, padded, padded_requests, length-pad, pad-pad}
use path_oram.PositionMap.{PositionMap}
use path_oram.PositionMap.Laws as PositionMapLaws
use path_oram.Stash.Laws as StashLaws
use mathlib.Core.Option.{none-ne-some}
use mathlib.Core.List.Permᴰ
use path_oram.Stash.Laws.{find}
use path_oram.Oram.Store.{Store, IsStore, IsWrite, written}
use path_oram.Oram.State.{Config, Oram}
use path_oram.Oram.Cache.View.{IsReadable, bucket_at}
use path_oram.Oram.Access.Updating.{padded_answer}
use path_oram.Oram.Invariant.{Contents, Expects, OnPath, IsConfig, IsMapped, Inv, SameSizes}
use path_oram.Oram.Loading.{Spread, bucket_count, with_last, load, load_below}
use path_oram.Oram.Loading.Spreading.{IsSpread, bucket_count-lt}
use path_oram.Oram.Loading.Requested.{AreProper}
use path_oram.Oram.Loading.Rounds.{place_ok}
use path_oram.Oram.Loading.Finished.{IsFinished, with_last-IsFinished}
use path_oram.Oram.Loading.Written.{mem-written-padded, written_padded_mem}

-- The contents are the data.
abbrev pub loaded_contents : ℕ → List Block → Contents
loaded_contents size input id = padded_answer size (lookup id input)

-- The order of the data does not matter.
loaded_contents-perm :
    (size : ℕ) {xs ys : List Block}
    → Permᴰ xs ys
    → Distinct xs
    → loaded_contents size ys ≡ loaded_contents size xs
loaded_contents-perm size p d = λ i id. padded_answer size (sym ((lookup-perm p d).1 id) i)

loaded_contents_inv :
    (size : ℕ) (input : List Block) (id : ℕ) (d : Bytes)
    → loaded_contents size input id ≡ some d
    → (d' : Bytes) × Memᴰ (id, d') input × (pad size d' ≡ d)
loaded_contents_inv size input id d e = elim (Option-cases (lookup id input)) [
  | inl absent ↦ absurd (ground arith)
  | inr (d', found) ↦
      (d', mem_of_lookup id input found, some_path (sym (ap (padded_answer size) found) ∙ e))
]

-- Distinct blocks of the position map, whose payloads are not longer than a block.
pub record AreData (capacity size : ℕ) (input : List Block) : Type 0 where
  pub distinct : Distinct input
  pub blocks : All (λ x. (x.0 < capacity) × (length x.1 ≤ size)) input

perm-AreData :
    (capacity size : ℕ) {xs ys : List Block}
    → Permᴰ xs ys
    → AreData capacity size xs
    → AreData capacity size ys
perm-AreData capacity size {xs} {ys} p h = record {
  distinct = (lookup-perm p h.distinct).0;
  blocks = All-of_mem _ ys (λ x m. mem-All _ xs h.blocks (mem-perm (Permᴰ.symm p) m));
}

module _ (c : Config) {store : Store} (good : IsStore store (2 ^ c.height) c.z c.data_size)
    (fits : IsConfig c) (o : Oram store) (inv : Inv c good (λ id. none) o) (input : List Block)
    (h : AreData o.map.capacity c.data_size input) (map : PositionMap)
    (requests : List (ℕ × Bucket)) (f : IsFinished c map input requests) where
  requests-IsWrite : All (λ r. (r.0 < 2 ^ c.height) × IsWrite c.z c.data_size r.1) requests
  requests-IsWrite = All-of_mem _ requests (λ r at. (
    mem-All _ requests f.below at,
    record {
      full = mem-All _ requests f.full at;
      blocks = All-of_mem _ r.1 (λ x m. elim (f.sound r.0 r.1 x at m) [
        | inl dummy ↦
            subst (λ (y : Block). (y.0 < u64_mod) × (length y.1 ≤ c.data_size)) (sym dummy)
              (omega arith, omega arith)
        | inr (real, on) ↦
            let block = mem-All _ input h.blocks real in
            (omega (arith, block.0, inv.mapped.numbered), block.1)
      ]);
    },
  ))

  loaded-IsMapped :
      PositionMapLaws.IsValid map
      → map.capacity ≡ o.map.capacity
      → AreProper c map
      → IsMapped c (loaded_contents c.data_size input) map
  loaded-IsMapped valid same proper = record {
    cells = valid;
    numbered = omega (arith, same, inv.mapped.numbered);
    proper = proper;
    known = λ id d e.
        let (d', m, padding) = loaded_contents_inv c.data_size input id d e in
        let block = mem-All _ input h.blocks m in
        (omega (arith, block.0, same), ap length (sym padding) ∙ length-pad c.data_size d' block.1);
  }

  -- Once the requests are written, the data are what the tree holds.
  loaded-Inv :
      (p : Oram store)
      → p.map ≡ map
      → p.stash ≡ o.stash
      → IsReadable c good p
      → IsMapped c (loaded_contents c.data_size input) p.map
      → ((l : ℕ)
          → l < 2 ^ c.height
          → bucket_at c good p l
            ≡ written (padded_requests c.data_size requests) l (bucket_at c good o l))
      → Inv c good (loaded_contents c.data_size input) p
  loaded-Inv p mapped_at stash_same readable mapped sees = record {
    readable = readable;
    mapped = mapped;
    stash_valid = subst StashLaws.IsValid (sym stash_same) inv.stash_valid;
    stash_sound = λ id d found.
        absurd
          (none-ne-some _ (inv.stash_sound id d (ap (λ t. find t id) (sym stash_same) ∙ found)));
    tree_sound = λ l x below m.
        elim (mem-written-padded c.data_size requests l (bucket_at c good o l) x
          (subst (λ (b : Bucket). Memᴰ x b) (sees l below) m)) [
            | inl before ↦ elim (inv.tree_sound l x below before) [
              | inl dummy ↦ inl dummy
              | inr (expects, on) ↦ absurd (none-ne-some _ expects)
            ]
            | inr (b, y, at, inside, e) ↦ elim (f.sound l b y at inside) [
              | inl dummy ↦ inl (ap (λ (z : Block). z.0) (sym e) ∙ ap (λ (z : Block). z.0) dummy)
              | inr (real, on) ↦ inr (
                  subst
                    (λ (z : Block).
                      Expects c (loaded_contents c.data_size input) z.0 z.1 × OnPath c p.map l z.0)
                    e
                    (
                      ap (padded_answer c.data_size) (lookup_of_mem y.0 input h.distinct real)
                          ∙ ap some
                              (sym (pad-pad c.data_size y.1 (mem-All _ input h.blocks real).1)),
                      subst (λ (t : PositionMap). OnPath c t l y.0) (sym mapped_at) on,
                    ))
            ]
          ];
    complete = λ id d e.
        let (d', m, padding) = loaded_contents_inv c.data_size input id d e in
        let (l, b, at, inside) = f.complete (id, d') m in
        let below = mem-All _ requests f.below at in
        elim (f.sound l b (id, d') at inside) [
          | inl dummy ↦
              let small = (mem-All _ input h.blocks m).0 in
              absurd (omega (arith, ap (λ (z : Block). z.0) dummy, small, inv.mapped.numbered))
          | inr (real, on) ↦ inr (
            l,
            pad c.data_size d',
            subst (λ (t : PositionMap). OnPath c t l id) (sym mapped_at) on,
            subst (λ (t : Bucket). Memᴰ (id, pad c.data_size d') t)
                (sym (
                  sees l below
                  ∙ written_padded_mem c.data_size requests l b (bucket_at c good o l) f.distinct
                      at))
                (Memᴰ.map (padded c.data_size) inside),
          )
        ];
  }

-- For a height from 1 to 30, from 1 to 2 ^ 63 blocks in a bucket, an empty cache, and a state that
-- satisfies the invariant with nothing stored: `ORAM::load` of blocks with different IDs, all in
-- the position map, and payloads that are not longer than a block, does not throw, only reorders
-- the data, leaves the cache empty and the capacities, and satisfies the invariant for exactly
-- these contents, padded with zeroes. There are fewer buckets of data than 2 ^ height, their
-- locations, which come from floating point arithmetic, rise and are in the tree, and the sizes can
-- be counted.
pub load_correct :
    (c : Config) {store : Store} (good : IsStore store (2 ^ c.height) c.z c.data_size)
    (spread : Spread) (o : Oram store) (input : List Block)
    → IsConfig c
    → c.height ≤ 30
    → c.z ≤ 2 ^ 63
    → Inv c good (λ id. none) o
    → o.cache ≡ []
    → AreData o.map.capacity c.data_size input
    → length input + c.z < u64_mod
    → bucket_count c input < 2 ^ c.height
    → IsSpread (spread (2 ^ c.height) (bucket_count c input)) (2 ^ c.height) (bucket_count c input)
    → (p : Oram store) × (shuffled : List Block) × (load c spread o input ≡ ok (shuffled, p))
      × Permᴰ input shuffled
      × Inv c good (loaded_contents c.data_size input) p
      × (p.cache ≡ [])
      × SameSizes o p
unfolding load load_below lookup
load_correct c {store} good spread o input fits short small inv clean h countable few even =
    let count = bucket_count c input in
    let location = spread (2 ^ c.height) count in
    let shuffled = shuffle o.shuffle_draws input in
    let perm = shuffle-perm o.shuffle_draws input in
    let h' = perm-AreData o.map.capacity c.data_size perm h in
    let enough : (i : ℕ) → i * c.z < 0 * c.z + 0 + length shuffled → i < count = λ i less.
      bucket_count-lt c input i fits.roomy countable (omega (arith, less, length-perm perm)) in
    let (r, placed, p) =
      place_ok c location fits count even o.map o.leaf_draws 0 [] shuffled inv.mapped.cells
        inv.mapped.proper fits.roomy enough (All-mono _ shuffled (λ x k. k.0) h'.blocks) h'.distinct
        tt in
    let requests = with_last c location r in
    let f = with_last-IsFinished c location fits count even o.map shuffled enough r p small in
    let writes = requests-IsWrite c good fits o inv shuffled h' r.map requests f in
    let (s, saved, sound, sees) = good.set_ok o.storage requests inv.readable.sound writes in
    let shift = int_to_number-small (2 ^ c.height) (omega (arith, two_pow-le short)) in
    let guard : ltb (2 ^ c.height) count ≡ false = ground arith in
    let q : Oram store = record o {
      storage = s;
      map = r.map;
      leaf_draws = r.draws;
      shuffle_draws = skip (shuffle_draws input) o.shuffle_draws;
    } in
    let spec_same = loaded_contents-perm c.data_size perm h.distinct in
    (
      q,
      shuffled,
      ap (λ (m : ℕ). load_below c spread m o input) shift ∙ rw (guard, placed, saved) refl,
      perm,
      subst (λ (spec : Contents). Inv c good spec q) spec_same
          (loaded-Inv c good fits o inv shuffled h' r.map requests f q refl refl
            (record {
              positive = inv.readable.positive;
              sound = sound;
              cached = inv.readable.cached;
            })
            (loaded-IsMapped c good fits o inv shuffled h' r.map requests f p.cells p.same p.proper)
            (λ l below. rw clean (sees l below))),
      clean,
      (p.same, refl),
    )
