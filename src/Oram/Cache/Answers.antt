-- ===== src/Oram/Cache/Answers.antt =====
-- What `getCache` answers, files and leaves as it is, wherever the buckets are.
use mathlib.Core.List.{flat_map, append_assoc}
use mathlib.Core.List.Permᴰ
use path_oram.Prelude.{
  ℕ, ◌<◌, ◌≡◌, refl, sym, ap, ◌∙◌, subst, true, false, List, [], ◌∷◌, ◌++◌, Memᴰ, Option-cases, ◌⊎◌,
  inl, inr, ◌↔◌, All, ok, Permᴰ,
}
use path_oram.Prelude.Assoc.{lookup, contains, contains-eq-lookup}
use path_oram.Definitions.{Block, Bucket}
use path_oram.Oram.Store.{Store, IsStore}
use path_oram.Oram.State.{Config, Oram}
use path_oram.Oram.Cache.{get_cache, split_hits}
use path_oram.Oram.Cache.Hits.{bucket_in, misses, answer, mem-misses, misses_of}
use path_oram.Oram.Cache.Keys.{assign_all-keys}
use path_oram.Oram.Cache.View.{IsReadable, bucket_at, fetched, get_cache_lem, bucket_at-fetched}

-- A dry run finds nothing.
hits-dry :
    (cache : List (ℕ × Bucket)) (ls to_get : List ℕ) (found : List Block)
    → (split_hits cache true ls to_get found).1 ≡ found
unfolding split_hits
hits-dry cache [] to_get found = refl
hits-dry cache (l ∷ ls) to_get found = elim (Option-cases (lookup l cache)) [
  | inl e ↦ rw (e, split_hits) (hits-dry cache ls (to_get ++ l ∷ []) found)
  | inr (b, e) ↦ rw (e, split_hits) (hits-dry cache ls to_get found)
]

across : (a b c : List Block) → Permᴰ (a ++ (b ++ c)) (b ++ (a ++ c))
across a b c =
    subst (λ (t : List Block). Permᴰ t (b ++ (a ++ c))) (append_assoc a b c)
      (subst (λ (t : List Block). Permᴰ ((a ++ b) ++ c) t) (append_assoc b a c)
        (Permᴰ.append_right c (Permᴰ.append_comm a b)))

module _ (view : ℕ → Bucket) (cache : List (ℕ × Bucket)) where
  -- The cached buckets and the fetched ones are the buckets that were asked for.
  answer-perm :
      (ls to_get : List ℕ) (found : List Block)
      → Permᴰ
          ((split_hits cache false ls to_get found).1 ++ flat_map view (misses cache ls))
          (found ++ flat_map (bucket_in view cache) ls)
  unfolding split_hits flat_map
  answer-perm [] to_get found = Permᴰ.refl (found ++ [])
  answer-perm (l ∷ ls) to_get found = elim (Option-cases (lookup l cache)) [
    | inl e ↦
        let more = answer-perm ls (to_get ++ l ∷ []) found in
        let old = (split_hits cache false ls (to_get ++ l ∷ []) found).1 in
        rw (e, split_hits, misses)
          (Permᴰ.trans (across old (view l) (flat_map view (misses cache ls))) (
            Permᴰ.trans (Permᴰ.append_left (view l) more)
              (across (view l) found (flat_map (bucket_in view cache) ls))))
    | inr (b, e) ↦
        let more = answer-perm ls to_get (b ++ found) in
        let others = flat_map (bucket_in view cache) ls in
        rw (e, split_hits, misses)
          (Permᴰ.trans more (
            subst (λ (t : List Block). Permᴰ t (found ++ (b ++ others)))
              (sym (append_assoc b found others)) (across b found others)))
  ]

  -- The cache has what it had, and what was asked for.
  asked-keys :
      (ls : List ℕ) (l : ℕ)
      → (Memᴰ l (misses cache ls) ⊎ (contains l cache ≡ true))
        ↔ (Memᴰ l ls ⊎ (contains l cache ≡ true))
  asked-keys ls l = (
    λ h. elim h [ inl m ↦ inl (mem-misses cache ls m).0 | inr old ↦ inr old ],
    λ h. elim h [
      | inl m ↦ elim (Option-cases (lookup l cache)) [
        | inl e ↦ inl (misses_of cache ls m e)
        | inr (b, e) ↦ inr (contains-eq-lookup l cache ∙ rw e refl)
      ]
      | inr old ↦ inr old
    ],
  )

module _ (c : Config) {store : Store} {capacity : ℕ}
    (good : IsStore store capacity c.z c.data_size) where
  -- For proper locations, at least one block in a bucket, and a cache of full buckets at proper
  -- locations with payloads that are not too long: `getCache` into an empty response does not
  -- throw. It answers, in some order, exactly the blocks of the buckets that were asked for, each
  -- bucket the cached one, or else the one in the storage; a dry run answers nothing and leaves the
  -- same state. No bucket looks different afterwards, and the cache has the locations that it had,
  -- those that were asked for, and no others.
  pub get_cache_correct :
      (o : Oram store) (ls : List ℕ)
      → IsReadable c good o
      → All (λ l. l < capacity) ls
      → (p : Oram store) × (response : List Block) × (get_cache c o ls [] false ≡ ok (response, p))
        × (get_cache c o ls [] true ≡ ok ([], p))
        × Permᴰ response (flat_map (bucket_at c good o) ls)
        × ((l : ℕ) → bucket_at c good p l ≡ bucket_at c good o l)
        × ((l : ℕ) → (contains l p.cache ≡ true) ↔ (Memᴰ l ls ⊎ (contains l o.cache ≡ true)))
  unfolding fetched
  get_cache_correct o ls r h =
      let view = good.view o.storage in
      let (wet, dry) = get_cache_lem c good o ls r h in
      (
        fetched c good o ls,
        answer view o.cache ls,
        wet,
        dry ∙ ap (λ (t : List Block). ok (t, fetched c good o ls)) (hits-dry o.cache ls [] []),
        answer-perm view o.cache ls [] [],
        bucket_at-fetched c good o ls,
        λ l.
            let all = assign_all-keys view (misses o.cache ls) o.cache l in
            let asked = asked-keys view o.cache ls l in
            (λ k. asked.0 (all.0 k), λ k. all.1 (asked.1 k)),
      )
