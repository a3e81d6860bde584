-- ===== src/Oram/Cache/Sync.antt =====
-- `setCache` and `syncCache` on what a read sees.
use path_oram.Prelude.{
  ℕ, ◌<◌, ◌≡◌, refl, sym, ap, subst, ◌∙◌, List, [], ◌∷◌, if◌then◌else◌, All, ok, ◌==◌, Bool-cases,
  inl, inr, arith,
}
use path_oram.Prelude.Assoc.{lookup, assign, Distinct, lookup-assign, assign-Distinct, assign-All}
use path_oram.Storage.Padding.{padded_bucket, padded_requests, padded_bucket-whole}
use path_oram.Definitions.{Bucket}
use path_oram.Oram.Store.{Store, IsStore, IsWrite, written}
use path_oram.Oram.State.{Config, Oram}
use path_oram.Oram.Cache.{set_cache, sync_cache}
use path_oram.Oram.Cache.Hits.{or_else}
use path_oram.Oram.Cache.View.{IsReadable, bucket_at}

-- Requests of full buckets at proper locations.
abbrev pub AreWrites : (capacity z size : ℕ) → List (ℕ × Bucket) → Type 0
AreWrites capacity z size = All (λ r. (r.0 < capacity) × IsWrite z size r.1)

pub written-lookup :
    (cache : List (ℕ × Bucket)) (l : ℕ) (old : Bucket)
    → Distinct cache
    → written cache l old ≡ or_else (lookup l cache) old
unfolding lookup
written-lookup [] l old d = refl
written-lookup ((k, b) ∷ cache) l old d =
    ground (arith, written-lookup cache l (if l == k then b else old) d.1)

-- To write padded buckets over a padded one is to pad what is written.
written-padded :
    (size : ℕ) (requests : List (ℕ × Bucket)) (l : ℕ) (old : Bucket)
    → written (padded_requests size requests) l (padded_bucket size old)
      ≡ padded_bucket size (written requests l old)
written-padded size [] l old = refl
written-padded size ((k, b) ∷ requests) l old =
    ap (written (padded_requests size requests) l) one
    ∙ written-padded size requests l (if l == k then b else old)
  where
    one :
        (if l == k then padded_bucket size b else padded_bucket size old)
        ≡ padded_bucket size (if l == k then b else old)
    one = elim (Bool-cases (l == k)) [ inl e ↦ rw e refl | inr e ↦ rw e refl ]

assign_each : List (ℕ × Bucket) → List (ℕ × Bucket) → List (ℕ × Bucket)
assign_each [] cache = cache
assign_each ((l, b) ∷ requests) cache = assign_each requests (assign l b cache)

module _ {store : Store} where
  unfoldable pub after_set : Oram store → List (ℕ × Bucket) → Oram store
  unfolding assign_each
  after_set o requests = record o { cache = assign_each requests o.cache }

  -- Only the cache changes.
  pub set_cache_lem :
      (o : Oram store) (requests : List (ℕ × Bucket)) → set_cache o requests ≡ after_set o requests
  unfolding set_cache after_set
  set_cache_lem o [] = refl
  set_cache_lem o ((l, b) ∷ requests) =
      set_cache_lem (record o { cache = assign l b o.cache }) requests

module _ (c : Config) {store : Store} {capacity : ℕ}
    (good : IsStore store capacity c.z c.data_size) where
  -- After `setCache`, a read of a location sees the last bucket that the requests have for it, or
  -- what it saw before.
  pub bucket_at-set_cache :
      (o : Oram store) (requests : List (ℕ × Bucket)) (l : ℕ)
      → bucket_at c good (set_cache o requests) l ≡ written requests l (bucket_at c good o l)
  unfolding set_cache
  bucket_at-set_cache o [] l = refl
  bucket_at-set_cache o ((k, b) ∷ requests) l =
      bucket_at-set_cache (record o { cache = assign k b o.cache }) requests l
      ∙ ap (written requests l) (ground (arith, lookup-assign k l b o.cache))

  pub set_cache-IsReadable :
      (o : Oram store) (requests : List (ℕ × Bucket))
      → AreWrites capacity c.z c.data_size requests
      → IsReadable c good o
      → IsReadable c good (set_cache o requests)
  unfolding set_cache
  set_cache-IsReadable o [] w r = r
  set_cache-IsReadable o ((k, b) ∷ requests) w r =
      set_cache-IsReadable (record o { cache = assign k b o.cache }) requests w.1
        (record {
          positive = r.positive;
          sound = r.sound;
          cached = record {
            distinct = assign-Distinct k b o.cache r.cached.distinct;
            entries = assign-All _ k b o.cache w.0 r.cached.entries;
          };
        })

  pub bucket_at-after_set :
      (o : Oram store) (requests : List (ℕ × Bucket)) (l : ℕ)
      → bucket_at c good (after_set o requests) l ≡ written requests l (bucket_at c good o l)
  bucket_at-after_set o requests l =
      ap (λ (p : Oram store). bucket_at c good p l) (sym (set_cache_lem o requests))
      ∙ bucket_at-set_cache o requests l

  pub after_set-IsReadable :
      (o : Oram store) (requests : List (ℕ × Bucket))
      → AreWrites capacity c.z c.data_size requests
      → IsReadable c good o
      → IsReadable c good (after_set o requests)
  after_set-IsReadable o requests w r =
      subst (IsReadable c good) (set_cache_lem o requests) (set_cache-IsReadable o requests w r)

  -- For a cache of full buckets with payloads that are not too long at proper locations,
  -- `syncCache` does not throw, leaves the cache empty, and the storage holds at every location
  -- what a read saw before, its payloads padded with zeroes.
  pub sync_cache_ok :
      (o : Oram store)
      → IsReadable c good o
      → (s : store.State) × (sync_cache o ≡ ok (record o { storage = s; cache = [] }))
        × IsReadable c good (record o { storage = s; cache = [] })
        × ((l : ℕ)
            → l < capacity
            → good.view s l ≡ padded_bucket c.data_size (bucket_at c good o l))
  unfolding sync_cache
  sync_cache_ok o r =
      let (s, saved, sound, sees) = good.set_ok o.storage o.cache r.sound r.cached.entries in
      (
        s,
        rw saved refl,
        record {
          positive = r.positive;
          sound = sound;
          cached = record { distinct = tt; entries = tt };
        },
        λ l h.
            let whole = good.view-IsBucket o.storage l r.sound h in
            sees l h
            ∙ ap (written (padded_requests c.data_size o.cache) l)
                (sym (padded_bucket-whole c.data_size (good.view o.storage l) whole.blocks))
            ∙ written-padded c.data_size o.cache l (good.view o.storage l)
            ∙ ap (padded_bucket c.data_size)
                (written-lookup o.cache l (good.view o.storage l) r.cached.distinct),
      )
