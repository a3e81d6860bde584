-- ===== src/Oram/Loading/Written.antt =====
-- What a list of padded requests leaves at a location.
use mathlib.Core.List.Memᴰ
use path_oram.Prelude.{
  ℕ, ◌≡◌, refl, sym, ap, ◌∙◌, subst, List, [], ◌∷◌, none, Option, Memᴰ, ◌⊎◌, inl, inr, ◌==◌,
  if◌then◌else◌, Bool-cases, ==_iff, arith,
}
use path_oram.Prelude.Assoc.{lookup, Distinct, lookup_of_mem}
use path_oram.Definitions.{Block, Bucket}
use path_oram.Storage.Padding.{padded, padded_bucket, padded_requests}
use path_oram.Oram.Store.{written}
use path_oram.Oram.Cache.Hits.{or_else}
use path_oram.Oram.Cache.Sync.{written-lookup}

mem-written :
    (requests : List (ℕ × Bucket)) (l : ℕ) (old : Bucket) (x : Block)
    → Memᴰ x (written requests l old)
    → Memᴰ x old ⊎ ((b : Bucket) × Memᴰ (l, b) requests × Memᴰ x b)
mem-written [] l old x m = inl m
mem-written ((k, b) ∷ requests) l old x m =
    elim (mem-written requests l (if l == k then b else old) x m) [
      | inr (b', at, inside) ↦ inr (b', Memᴰ.tail at, inside)
      | inl chosen ↦ elim (Bool-cases (l == k)) [
        | inl e ↦ inr (b, Memᴰ.head (λ i. ((==_iff l k).0 e i, b)), rw e at chosen)
        | inr e ↦ inl (rw e at chosen)
      ]
    ]

lookup-padded_none :
    (size k : ℕ) (requests : List (ℕ × Bucket))
    → lookup k requests ≡ none
    → lookup k (padded_requests size requests) ≡ none
unfolding lookup
lookup-padded_none size k [] h = refl
lookup-padded_none size k ((j, b) ∷ requests) h = ground (arith, lookup-padded_none size k requests)

padded_requests-Distinct :
    (size : ℕ) (requests : List (ℕ × Bucket))
    → Distinct requests
    → Distinct (padded_requests size requests)
padded_requests-Distinct size [] d = tt
padded_requests-Distinct size ((k, b) ∷ requests) d =
    (lookup-padded_none size k requests d.0, padded_requests-Distinct size requests d.1)

module _ (size : ℕ) (requests : List (ℕ × Bucket)) where
  -- A block that is found was there before, or is one of the requests, padded.
  pub mem-written-padded :
      (l : ℕ) (old : Bucket) (x : Block)
      → Memᴰ x (written (padded_requests size requests) l old)
      → Memᴰ x old
        ⊎ ((b : Bucket) × (y : Block) × Memᴰ (l, b) requests × Memᴰ y b × (padded size y ≡ x))
  mem-written-padded l old x m = elim (mem-written (padded_requests size requests) l old x m) [
    | inl before ↦ inl before
    | inr (b', at, inside) ↦
        let (q, at', e) =
          Memᴰ.of_map (λ (r : ℕ × Bucket). (r.0, padded_bucket size r.1)) requests at in
        let (y, inside', e') =
          Memᴰ.of_map (padded size) q.1
            (subst (λ (b : Bucket). Memᴰ x b) (ap (λ (r : ℕ × Bucket). r.1) (sym e)) inside) in
        inr (
          q.1,
          y,
          subst (λ (k : ℕ). Memᴰ (k, q.1) requests) (ap (λ (r : ℕ × Bucket). r.0) e) at',
          inside',
          e',
        )
  ]

  -- With a location for each request, every request is found, padded.
  pub written_padded_mem :
      (l : ℕ) (b old : Bucket)
      → Distinct requests
      → Memᴰ (l, b) requests
      → written (padded_requests size requests) l old ≡ padded_bucket size b
  written_padded_mem l b old d m =
      written-lookup (padded_requests size requests) l old
        (padded_requests-Distinct size requests d)
      ∙ ap (λ (t : Option Bucket). or_else t old)
          (lookup_of_mem l (padded_requests size requests)
            (padded_requests-Distinct size requests d)
            (Memᴰ.map (λ (r : ℕ × Bucket). (r.0, padded_bucket size r.1)) m))
