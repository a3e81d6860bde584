-- ===== src/Oram/Cache/Hits.antt =====
-- The loop of `getCache` over the locations: what it finds in the cache and what it has to fetch.
use mathlib.Core.List.{flat_map, append_assoc, append-nil}
use mathlib.Core.List.Memᴰ
use path_oram.Prelude.{
  ℕ, ◌≡◌, refl, sym, ap, ◌∙◌, Bool, false, List, [], ◌∷◌, ◌++◌, Option, none, some, if◌then◌else◌,
  Memᴰ, mem-flat_map, mem-flat_map_of, Option-cases, ◌⊎◌, inl, inr,
}
use path_oram.Prelude.Assoc.{lookup}
use path_oram.Definitions.{Block, Bucket}
use path_oram.Oram.Cache.{split_hits}

abbrev pub or_else : Option Bucket → Bucket → Bucket
or_else none b = b
or_else (some a) b = a

abbrev pub bucket_in : (ℕ → Bucket) → List (ℕ × Bucket) → ℕ → Bucket
bucket_in view cache l = or_else (lookup l cache) (view l)

-- The locations that are not cached.
abbrev pub misses : List (ℕ × Bucket) → List ℕ → List ℕ
misses cache [] = []
misses cache (l ∷ ls) = elim (lookup l cache) [
  | none ↦ l ∷ misses cache ls
  | some _ ↦ misses cache ls
]

pub split_hits-misses :
    (cache : List (ℕ × Bucket)) (dry : Bool) (ls to_get : List ℕ) (found : List Block)
    → (split_hits cache dry ls to_get found).0 ≡ to_get ++ misses cache ls
unfolding split_hits
split_hits-misses cache dry [] to_get found = sym (append-nil to_get)
split_hits-misses cache dry (l ∷ ls) to_get found = elim (Option-cases (lookup l cache)) [
  | inl e ↦
      rw (e, split_hits, misses)
        (split_hits-misses cache dry ls (to_get ++ l ∷ []) found
          ∙ append_assoc to_get (l ∷ []) (misses cache ls))
  | inr (b, e) ↦
      rw (e, split_hits, misses)
        (split_hits-misses cache dry ls to_get (if dry then found else b ++ found))
]

-- The blocks of the cached buckets.
abbrev pub hits : List (ℕ × Bucket) → Bool → List ℕ → List Block
hits cache dry ls = (split_hits cache dry ls [] []).1

module _ (cache : List (ℕ × Bucket)) (x : Block) where
  hits_keep :
      (ls to_get : List ℕ) (found : List Block)
      → Memᴰ x found
      → Memᴰ x (split_hits cache false ls to_get found).1
  unfolding split_hits
  hits_keep [] to_get found m = m
  hits_keep (l ∷ ls) to_get found m = elim (Option-cases (lookup l cache)) [
    | inl e ↦ rw (e, split_hits) (hits_keep ls (to_get ++ l ∷ []) found m)
    | inr (b, e) ↦ rw (e, split_hits) (hits_keep ls to_get (b ++ found) (Memᴰ.append_right b m))
  ]

  hits_take :
      (ls to_get : List ℕ) (found : List Block) (l : ℕ) (b : Bucket)
      → Memᴰ l ls
      → lookup l cache ≡ some b
      → Memᴰ x b
      → Memᴰ x (split_hits cache false ls to_get found).1
  unfolding split_hits
  hits_take (k ∷ ls) to_get found l b (Memᴰ.head at) e m =
      rw (ap (λ (t : ℕ). lookup t cache) (sym at) ∙ e, split_hits)
        (hits_keep ls to_get (b ++ found) (Memᴰ.append_left found m))
  hits_take (k ∷ ls) to_get found l b (Memᴰ.tail at) e m = elim (Option-cases (lookup k cache)) [
    | inl miss ↦ rw (miss, split_hits) (hits_take ls (to_get ++ k ∷ []) found l b at e m)
    | inr (c, hit) ↦ rw (hit, split_hits) (hits_take ls to_get (c ++ found) l b at e m)
  ]
  hits_take [] to_get found l b at e m = elim at [ ]

  abbrev Cached : List ℕ → Type 0
  Cached ls = (l : ℕ) × (b : Bucket) × Memᴰ l ls × (lookup l cache ≡ some b) × Memᴰ x b

  one_more :
      {found : List Block} (l : ℕ) (ls : List ℕ)
      → Memᴰ x found ⊎ Cached ls
      → Memᴰ x found ⊎ Cached (l ∷ ls)
  one_more l ls (inl h) = inl h
  one_more l ls (inr (k, b, at, e, m)) = inr (k, b, Memᴰ.tail at, e, m)

  hits_from :
      (ls to_get : List ℕ) (found : List Block)
      → Memᴰ x (split_hits cache false ls to_get found).1
      → Memᴰ x found ⊎ Cached ls
  unfolding split_hits
  hits_from [] to_get found m = inl m
  hits_from (l ∷ ls) to_get found m = elim (Option-cases (lookup l cache)) [
    | inl e ↦ one_more l ls (hits_from ls (to_get ++ l ∷ []) found (rw (e, split_hits) at m))
    | inr (b, e) ↦ elim (hits_from ls to_get (b ++ found) (rw (e, split_hits) at m)) [
      | inl h ↦ elim (Memᴰ.append_cases b h) [
        | inl new ↦ inr (l, b, Memᴰ.head refl, e, new)
        | inr old ↦ inl old
      ]
      | inr c ↦ one_more {found = found} l ls (inr c)
    ]
  ]

pub mem-misses :
    (cache : List (ℕ × Bucket)) (ls : List ℕ) {l : ℕ}
    → Memᴰ l (misses cache ls)
    → Memᴰ l ls × (lookup l cache ≡ none)
mem-misses cache [] m = elim m [ ]
mem-misses cache (k ∷ ls) {l} m = elim (Option-cases (lookup k cache)) [
  | inl e ↦ elim (Memᴰ.cases_cons (rw (e, misses) at m)) [
    | inl here ↦ (Memᴰ.head here, ap (λ (t : ℕ). lookup t cache) here ∙ e)
    | inr there ↦ let r = mem-misses cache ls there in (Memᴰ.tail r.0, r.1)
  ]
  | inr (b, e) ↦ let r = mem-misses cache ls (rw (e, misses) at m) in (Memᴰ.tail r.0, r.1)
]

pub misses_of :
    (cache : List (ℕ × Bucket)) (ls : List ℕ) {l : ℕ}
    → Memᴰ l ls
    → lookup l cache ≡ none
    → Memᴰ l (misses cache ls)
misses_of cache (k ∷ ls) (Memᴰ.head at) e =
    rw (ap (λ (t : ℕ). lookup t cache) (sym at) ∙ e, misses) (Memᴰ.head at)
misses_of cache (k ∷ ls) (Memᴰ.tail at) e = elim (Option-cases (lookup k cache)) [
  | inl miss ↦ rw (miss, misses) (Memᴰ.tail (misses_of cache ls at e))
  | inr (b, hit) ↦ rw (hit, misses) (misses_of cache ls at e)
]
misses_of cache [] at e = elim at [ ]

-- What `getCache` answers: the cached buckets, and behind them those that it fetches.
abbrev pub answer : (ℕ → Bucket) → List (ℕ × Bucket) → List ℕ → List Block
answer view cache ls = hits cache false ls ++ flat_map view (misses cache ls)

-- It answers with the blocks of the buckets that were asked for, and with no others.
pub mem-answer :
    (view : ℕ → Bucket) (cache : List (ℕ × Bucket)) (ls : List ℕ) {x : Block}
    → Memᴰ x (answer view cache ls)
    → (l : ℕ) × Memᴰ l ls × Memᴰ x (bucket_in view cache l)
mem-answer view cache ls {x} m = elim (Memᴰ.append_cases (hits cache false ls) m) [
  | inl h ↦ elim (hits_from cache x ls [] [] h) [
    | inl none_yet ↦ elim none_yet [ ]
    | inr (l, b, at, e, inside) ↦ (l, at, rw e inside)
  ]
  | inr h ↦
      let (l, at, inside) = mem-flat_map view (misses cache ls) h in
      let (asked, e) = mem-misses cache ls at in (l, asked, rw e inside)
]

pub answer_of :
    (view : ℕ → Bucket) (cache : List (ℕ × Bucket)) (ls : List ℕ) (l : ℕ) {x : Block}
    → Memᴰ l ls
    → Memᴰ x (bucket_in view cache l)
    → Memᴰ x (answer view cache ls)
answer_of view cache ls l at m = elim (Option-cases (lookup l cache)) [
  | inl e ↦
      Memᴰ.append_right (hits cache false ls)
        (mem-flat_map_of view (misses cache ls) (misses_of cache ls at e) (rw e at m))
  | inr (b, e) ↦ Memᴰ.append_left _ (hits_take cache _ ls [] [] l b at e (rw e at m))
]
