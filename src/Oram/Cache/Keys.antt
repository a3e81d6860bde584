-- ===== src/Oram/Cache/Keys.antt =====
-- Which locations the cache has.
use mathlib.Core.List.Memᴰ
use path_oram.Prelude.{
  ℕ, ◌≡◌, ◌↔◌, refl, sym, ap, ◌∙◌, subst, true, List, [], ◌∷◌, Memᴰ, ◌⊎◌, inl, inr, ◌==◌, ==_iff,
  if◌then◌else◌, Bool-cases, ◌≢◌, arith,
}
use path_oram.Prelude.Assoc.{lookup, contains, assign}
use path_oram.Definitions.{Bucket}
use path_oram.Oram.Store.{Store}
use path_oram.Oram.State.{Oram}
use path_oram.Oram.Cache.{set_cache}
use path_oram.Oram.Cache.Collect.{assign_all}
use path_oram.Oram.Cache.Hits.{misses}

contains-assign {ℓ} :
    {V : Type ℓ} (j k : ℕ) (v : V) (m : List (ℕ × V))
    → contains j (assign k v m) ≡ (if j == k then true else contains j m)
unfolding contains assign
contains-assign j k v [] = refl
contains-assign j k v ((i, w) ∷ m) = ground (arith, contains-assign j k v m)

-- Assigned keys are those of before and the new one.
pub contains-assign_iff {ℓ} :
    {V : Type ℓ} (j k : ℕ) (v : V) (m : List (ℕ × V))
    → (contains j (assign k v m) ≡ true) ↔ ((j ≡ k) ⊎ (contains j m ≡ true))
contains-assign_iff j k v m = elim (Bool-cases (j == k)) [
  | inl e ↦ (λ h. inl ((==_iff j k).0 e), λ h. contains-assign j k v m ∙ rw e refl)
  | inr e ↦
      let same : contains j (assign k v m) ≡ contains j m = contains-assign j k v m ∙ rw e refl in
      (
        λ h. inr (sym same ∙ h),
        λ h. elim h [ inl here ↦ absurd (ground arith) | inr there ↦ same ∙ there ],
      )
]

pub assign_all-keys :
    (view : ℕ → Bucket) (ls : List ℕ) (cache : List (ℕ × Bucket)) (l : ℕ)
    → (contains l (assign_all view ls cache) ≡ true) ↔ (Memᴰ l ls ⊎ (contains l cache ≡ true))
unfolding assign_all
assign_all-keys view [] cache l = (λ h. inr h, λ h. elim h [ inl m ↦ elim m [ ] | inr old ↦ old ])
assign_all-keys view (k ∷ ls) cache l =
    let more = assign_all-keys view ls (assign k (view k) cache) l in
    let one = contains-assign_iff l k (view k) cache in
    (
      λ h. elim (more.0 h) [
        | inl m ↦ inl (Memᴰ.tail m)
        | inr now ↦ elim (one.0 now) [ inl e ↦ inl (Memᴰ.head e) | inr old ↦ inr old ]
      ],
      λ h. elim h [
        | inl m ↦ elim (Memᴰ.cases_cons m) [
          | inl here ↦ more.1 (inr (one.1 (inl here)))
          | inr there ↦ more.1 (inl there)
        ]
        | inr old ↦ more.1 (inr (one.1 (inr old)))
      ],
    )

-- With nothing in the cache, all of the locations are fetched.
misses-nil : (ls : List ℕ) → misses [] ls ≡ ls
unfolding lookup
misses-nil [] = refl
misses-nil (l ∷ ls) = ap (◌∷◌ l) (misses-nil ls)

pub nothing_asked :
    (l : ℕ) {requests : List (ℕ × Bucket)} → requests ≡ [] → contains l requests ≢ true
unfolding contains
nothing_asked l none_asked asked = ground arith

pub fetched-keys :
    (view : ℕ → Bucket) (ls : List ℕ) (cache : List (ℕ × Bucket))
    → cache ≡ []
    → (l : ℕ) → (contains l (assign_all view (misses cache ls) cache) ≡ true) ↔ Memᴰ l ls
fetched-keys view ls cache clean l =
    subst
      (λ (m : List (ℕ × Bucket)). (contains l (assign_all view (misses m ls) m) ≡ true) ↔ Memᴰ l ls)
      (sym clean)
      (subst (λ (ms : List ℕ). (contains l (assign_all view ms []) ≡ true) ↔ Memᴰ l ls)
        (sym (misses-nil ls))
        (
          λ h. elim ((assign_all-keys view ls [] l).0 h) [
            | inl m ↦ m
            | inr held ↦ absurd (nothing_asked l refl held)
          ],
          λ m. (assign_all-keys view ls [] l).1 (inl m),
        ))

module _ {store : Store} where
  pub set_cache-keys :
      (o : Oram store) (requests : List (ℕ × Bucket)) (l : ℕ)
      → (contains l (set_cache o requests).cache ≡ true)
        ↔ ((contains l requests ≡ true) ⊎ (contains l o.cache ≡ true))
  unfolding set_cache contains
  set_cache-keys o [] l =
      (λ h. inr h, λ h. elim h [ inl none_asked ↦ absurd (ground arith) | inr old ↦ old ])
  set_cache-keys o ((k, b) ∷ requests) l =
      let more = set_cache-keys (record o { cache = assign k b o.cache }) requests l in
      let one = contains-assign_iff l k b o.cache in
      (
        λ h. elim (more.0 h) [
          | inl asked ↦ inl (ground arith)
          | inr now ↦ elim (one.0 now) [ inl e ↦ inl (ground arith) | inr old ↦ inr old ]
        ],
        λ h. elim h [
          | inl asked ↦ elim (Bool-cases (l == k)) [
            | inl e ↦ more.1 (inr (one.1 (inl ((==_iff l k).0 e))))
            | inr e ↦ more.1 (inl (rw e at asked))
          ]
          | inr old ↦ more.1 (inr (one.1 (inr old)))
        ],
      )
