-- ===== src/Oram/Cache/View.antt =====
-- What `ORAM` sees through its cache. The bucket at a location is the cached one, or else the one in
-- the storage; `getCache` returns these buckets and changes none of them, and `syncCache` makes the
-- storage hold them.
use mathlib.Core.List.{flat_map, append-nil}
use path_oram.Prelude.{
  ℕ, ◌<◌, ◌≡◌, refl, ap, ◌∙◌, Bool, true, false, List, [], ◌∷◌, ◌++◌, Option, if◌then◌else◌, All,
  All-mono, All-of_mem, mem-All, ok, arith,
}
use path_oram.Prelude.Assoc.{assign, Distinct, lookup-assign, assign-Distinct, assign-All}
use path_oram.Definitions.{Block, Bucket}
use path_oram.Oram.Store.{Store, IsStore, IsBucket, IsWrite, IsBucket-IsWrite}
use path_oram.Oram.State.{Config, Oram}
use path_oram.Oram.Cache.{fetch, get_cache}
use path_oram.Oram.Cache.Collect.{assign_all, collect-assign_all}
use path_oram.Oram.Cache.Hits.{
  or_else, bucket_in, misses, hits, answer, split_hits-misses, mem-misses,
}

-- Full buckets at proper locations, each location once.
pub record IsCache (capacity z size : ℕ) (cache : List (ℕ × Bucket)) : Type 0 where
  pub distinct : Distinct cache
  pub entries : All (λ e. (e.0 < capacity) × IsWrite z size e.1) cache

-- To cache what is in the storage hides nothing.
bucket_in-assign_all :
    (view : ℕ → Bucket) (ls : List ℕ) (cache : List (ℕ × Bucket))
    → All (λ l. bucket_in view cache l ≡ view l) ls
    → (l : ℕ) → bucket_in view (assign_all view ls cache) l ≡ bucket_in view cache l
unfolding assign_all
bucket_in-assign_all view [] cache same l = refl
bucket_in-assign_all view (k ∷ ls) cache same l =
    bucket_in-assign_all view ls (assign k (view k) cache)
      (All-mono _ ls (λ i e. step i ∙ e) same.1) l
    ∙ step l
  where
    step : (i : ℕ) → bucket_in view (assign k (view k) cache) i ≡ bucket_in view cache i
    step i = ground (arith, lookup-assign k i (view k) cache)

module _ (c : Config) {store : Store} {capacity : ℕ}
    (good : IsStore store capacity c.z c.data_size) where
  -- The bucket that a read of the location sees now.
  abbrev pub bucket_at : Oram store → ℕ → Bucket
  bucket_at o l = bucket_in (good.view o.storage) o.cache l

  -- The parts of the state that `getCache` relies on.
  pub record IsReadable (o : Oram store) : Type 0 where
    pub positive : 0 < c.z
    pub sound : good.IsSound o.storage
    pub cached : IsCache capacity c.z c.data_size o.cache

  assign_all-IsCache :
      (view : ℕ → Bucket) (ls : List ℕ) (cache : List (ℕ × Bucket))
      → All (λ l. (l < capacity) × IsBucket c.z c.data_size (view l)) ls
      → IsCache capacity c.z c.data_size cache
      → IsCache capacity c.z c.data_size (assign_all view ls cache)
  unfolding assign_all
  assign_all-IsCache view [] cache h kept = kept
  assign_all-IsCache view (l ∷ ls) cache h kept =
      assign_all-IsCache view ls (assign l (view l) cache) h.1 (record {
        distinct = assign-Distinct l (view l) cache kept.distinct;
        entries =
            assign-All _ l (view l) cache (h.0.0, IsBucket-IsWrite c.z c.data_size (view l) h.0.1)
              kept.entries;
      })

  misses-below :
      (cache : List (ℕ × Bucket)) (ls : List ℕ)
      → All (λ l. l < capacity) ls
      → All (λ l. l < capacity) (misses cache ls)
  misses-below cache ls h =
      All-of_mem _ (misses cache ls) (λ l m. mem-All _ ls h (mem-misses cache ls m).0)

  below-IsBucket :
      (o : Oram store) (ls : List ℕ)
      → IsReadable o
      → All (λ l. l < capacity) ls
      → All (λ l. (l < capacity) × IsBucket c.z c.data_size (good.view o.storage l)) ls
  below-IsBucket o ls r h = All-mono _ ls (λ l k. (k, good.view-IsBucket o.storage l r.sound k)) h

  fetch_lem :
      (o : Oram store) (dry : Bool) (ms : List ℕ) (found : List Block)
      → IsReadable o
      → All (λ l. l < capacity) ms
      → fetch c o dry ms found
        ≡ ok (
          if dry then found else found ++ flat_map (good.view o.storage) ms,
          record o { cache = assign_all (good.view o.storage) ms o.cache },
        )
  unfolding fetch assign_all flat_map
  fetch_lem o true [] found r h = refl
  fetch_lem o false [] found r h = rw (append-nil found) refl
  fetch_lem o dry (l ∷ ms) found r h =
      let view = good.view o.storage in
      let filed =
        collect-assign_all c.z view (l ∷ ms) o.cache r.positive
          (All-mono _ (l ∷ ms) (λ k b. b.1.full) (below-IsBucket o (l ∷ ms) r h)) in
      rw (good.get_ok o.storage (l ∷ ms) r.sound h, fetch)
        (ap
          (λ (m : List (ℕ × Bucket)).
            ok (if dry then found else found ++ flat_map view (l ∷ ms), record o { cache = m }))
          filed)

  unfoldable pub fetched : Oram store → List ℕ → Oram store
  fetched o ls = record o { cache = assign_all (good.view o.storage) (misses o.cache ls) o.cache }

  -- The answer and the state in the terms of the loops.
  pub get_cache_lem :
      (o : Oram store) (ls : List ℕ)
      → IsReadable o
      → All (λ l. l < capacity) ls
      → (get_cache c o ls [] false ≡ ok (answer (good.view o.storage) o.cache ls, fetched o ls))
        × (get_cache c o ls [] true ≡ ok (hits o.cache true ls, fetched o ls))
  unfolding get_cache fetched
  get_cache_lem o ls r h =
      let below = misses-below o.cache ls h in
      (
        ap (λ (m : List ℕ). fetch c o false m (hits o.cache false ls))
              (split_hits-misses o.cache false ls [] [])
            ∙ fetch_lem o false (misses o.cache ls) (hits o.cache false ls) r below,
        ap (λ (m : List ℕ). fetch c o true m (hits o.cache true ls))
              (split_hits-misses o.cache true ls [] [])
            ∙ fetch_lem o true (misses o.cache ls) (hits o.cache true ls) r below,
      )

  pub fetched-IsReadable :
      (o : Oram store) (ls : List ℕ)
      → IsReadable o
      → All (λ l. l < capacity) ls
      → IsReadable (fetched o ls)
  unfolding fetched
  fetched-IsReadable o ls r h = record {
    positive = r.positive;
    sound = r.sound;
    cached =
        assign_all-IsCache (good.view o.storage) (misses o.cache ls) o.cache
          (below-IsBucket o (misses o.cache ls) r (misses-below o.cache ls h)) r.cached;
  }

  -- No bucket looks different after it was cached.
  pub bucket_at-fetched :
      (o : Oram store) (ls : List ℕ) (l : ℕ) → bucket_at (fetched o ls) l ≡ bucket_at o l
  unfolding fetched
  bucket_at-fetched o ls l =
      bucket_in-assign_all (good.view o.storage) (misses o.cache ls) o.cache
        (All-of_mem _ (misses o.cache ls) (λ k m.
          ap (λ (b : Option Bucket). or_else b (good.view o.storage k))
            (mem-misses o.cache ls m).1))
        l
