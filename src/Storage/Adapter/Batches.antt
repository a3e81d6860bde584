-- ===== src/Storage/Adapter/Batches.antt =====
-- Batches change nothing.
use mathlib.Core.List.{append_assoc, append-nil}
use path_oram.Prelude.{
  ℕ, zero, suc, ◌<◌, ◌≤◌, ◌≡◌, refl, sym, ap, ◌∙◌, List, [], ◌∷◌, ◌++◌, ◌||◌, length, take, drop,
  leb, map_all, Bool-cases, inl, inr, ◌⊎◌, Exception, ◌==◌, Outcome, ok, throw, ◌>>=◌, arith,
}
use path_oram.Prelude.Words.{Bytes}
use path_oram.Storage.Raw.{
  RawStorage, IsRawStorage, HasBatches, get_loop, set_loop, get_internals, set_internals,
}
use path_oram.Storage.Adapter.{get_batches, set_batches, get_raws, set_raws}

zero_or_pos : (n : ℕ) → (n ≡ 0) ⊎ (0 < n)
zero_or_pos n = grind arith

take-drop {ℓ} : {A : Type ℓ} (n : ℕ) (xs : List A) → take n xs ++ drop n xs ≡ xs
take-drop zero xs = refl
take-drop (suc n) [] = refl
take-drop (suc n) (x ∷ xs) = ap (◌∷◌ x) (take-drop n xs)

length-drop-le {ℓ} : {A : Type ℓ} (n : ℕ) (xs : List A) → length (drop n xs) ≤ length xs
length-drop-le zero xs = omega arith
length-drop-le (suc n) [] = omega arith
length-drop-le (suc n) (x ∷ xs) = omega (arith, length-drop-le n xs)

-- A batch of at least one takes an element off.
shorter {ℓ} :
    {A : Type ℓ} (n k : ℕ) (x : A) (xs : List A)
    → 0 < n
    → length (x ∷ xs) ≤ suc k
    → length (drop n (x ∷ xs)) ≤ k
shorter (suc n) k x xs h l = omega (arith, length-drop-le n xs)
shorter zero k x xs h l = absurd (omega arith)

Outcome-cases {ℓ} :
    {A : Type ℓ} (m : Outcome A) → ((a : A) × (m ≡ ok a)) ⊎ ((e : Exception) × (m ≡ throw e))
Outcome-cases (ok a) = inl (a, refl)
Outcome-cases (throw e) = inr (e, refl)

map_all-append :
    (f : ℕ → Outcome Bytes) (xs ys : List ℕ)
    → map_all f (xs ++ ys) ≡ (map_all f xs >>= λ a. map_all f ys >>= λ b. ok (a ++ b))
map_all-append f [] ys = elim (Outcome-cases (map_all f ys)) [
  | inl (b, e) ↦ rw e refl
  | inr (x, e) ↦ rw e refl
]
map_all-append f (x ∷ xs) ys = elim (Outcome-cases (f x)) [
  | inr (w, e) ↦ rw e refl
  | inl (y, e) ↦
      rw (e, map_all-append f xs ys)
        (elim (Outcome-cases (map_all f xs)) [
          | inr (w, e') ↦ rw e' refl
          | inl (a, e') ↦ rw e' (elim (Outcome-cases (map_all f ys)) [
            | inr (w, e'') ↦ rw e'' refl
            | inl (b, e'') ↦ rw e'' refl
          ])
        ])
]

module _ (raw : RawStorage) (batched : HasBatches raw) where
  set_internals-append :
      (s : raw.State) (xs ys : List (ℕ × Bytes))
      → set_internals raw s (xs ++ ys) ≡ (set_internals raw s xs >>= λ t. set_internals raw t ys)
  unfolding set_loop
  set_internals-append s [] ys = refl
  set_internals-append s ((l, b) ∷ xs) ys =
      elim (raw.set_internal s l b)
        as (λ m.
          (m >>= λ t. set_internals raw t (xs ++ ys))
          ≡ ((m >>= λ t. set_internals raw t xs) >>= λ t. set_internals raw t ys)) [
            | ok t ↦ set_internals-append t xs ys
            | throw e ↦ refl
          ]

  -- A batch has at least one request.
  set_some :
      (limit : ℕ) (s : raw.State) (w : ℕ × Bytes) (ws : List (ℕ × Bytes))
      → 0 < limit
      → raw.set_many s (take limit (w ∷ ws)) ≡ set_internals raw s (take limit (w ∷ ws))
  set_some zero s w ws h = absurd (omega arith)
  set_some (suc n) s w ws h = batched.set_many_lem s w (take n ws)

  get_some :
      (limit : ℕ) (s : raw.State) (l : ℕ) (ls : List ℕ) (response : List Bytes)
      → 0 < limit
      → raw.get_many s (take limit (l ∷ ls)) response
        ≡ get_internals raw s (take limit (l ∷ ls)) response
  get_some zero s l ls response h = absurd (omega arith)
  get_some (suc n) s l ls response h = batched.get_many_lem s l (take n ls) response

  set_batches_lem :
      (limit rounds : ℕ) (s : raw.State) (writes : List (ℕ × Bytes))
      → 0 < limit
      → length writes ≤ rounds
      → set_batches raw limit rounds s writes ≡ set_internals raw s writes
  unfolding set_batches set_loop
  set_batches_lem limit zero s [] h l = refl
  set_batches_lem limit zero s (w ∷ ws) h l = absurd (omega arith)
  set_batches_lem limit (suc rounds) s [] h l = refl
  set_batches_lem limit (suc rounds) s (w ∷ ws) h l =
      ap
        (λ (m : Outcome raw.State). m >>= λ t. set_batches raw limit rounds t (drop limit (w ∷ ws)))
        (set_some limit s w ws h)
      ∙ ap (λ (f : raw.State → Outcome raw.State). set_internals raw s (take limit (w ∷ ws)) >>= f)
          (λ i t.
            set_batches_lem limit rounds t (drop limit (w ∷ ws)) h (shorter limit rounds w ws h l)
              i)
      ∙ sym (set_internals-append s (take limit (w ∷ ws)) (drop limit (w ∷ ws)))
      ∙ ap (set_internals raw s) (take-drop limit (w ∷ ws))

  get_internals-append :
      (s : raw.State) (xs ys : List ℕ) (response : List Bytes)
      → get_internals raw s (xs ++ ys) response
        ≡ (get_internals raw s xs response >>= λ found. get_internals raw s ys found)
  unfolding get_loop
  get_internals-append s xs ys response =
      rw (map_all-append (raw.get_internal s) xs ys)
        (elim (Outcome-cases (map_all (raw.get_internal s) xs)) [
          | inr (w, e) ↦ rw e refl
          | inl (a, e) ↦ rw e (elim (Outcome-cases (map_all (raw.get_internal s) ys)) [
            | inr (w, e') ↦ rw e' refl
            | inl (b, e') ↦ rw e' (ap ok (sym (append_assoc response a b)))
          ])
        ])

  get_batches_lem :
      (limit rounds : ℕ) (s : raw.State) (locations : List ℕ) (response : List Bytes)
      → 0 < limit
      → length locations ≤ rounds
      → get_batches raw limit rounds s locations response ≡ get_internals raw s locations response
  unfolding get_batches get_loop
  get_batches_lem limit zero s [] response h l = ap ok (sym (append-nil response))
  get_batches_lem limit zero s (w ∷ ws) response h l = absurd (omega arith)
  get_batches_lem limit (suc rounds) s [] response h l = ap ok (sym (append-nil response))
  get_batches_lem limit (suc rounds) s (w ∷ ws) response h l =
      ap
        (λ (m : Outcome (List Bytes)).
          m >>= λ t. get_batches raw limit rounds s (drop limit (w ∷ ws)) t)
        (get_some limit s w ws response h)
      ∙ ap
          (λ (f : List Bytes → Outcome (List Bytes)).
            get_internals raw s (take limit (w ∷ ws)) response >>= f)
          (λ i t.
            get_batches_lem limit rounds s (drop limit (w ∷ ws)) t h (shorter limit rounds w ws h l)
              i)
      ∙ sym (get_internals-append s (take limit (w ∷ ws)) (drop limit (w ∷ ws)) response)
      ∙ ap (λ (ls : List ℕ). get_internals raw s ls response) (take-drop limit (w ∷ ws))

  read_as_one :
      (limit : ℕ) (s : raw.State) (l : ℕ) (ls : List ℕ)
      → get_raws raw limit s (l ∷ ls) ≡ get_internals raw s (l ∷ ls) []
  unfolding get_raws get_loop
  read_as_one limit s l [] = elim (Outcome-cases (raw.get_internal s l)) [
    | inl (b, e) ↦ rw e refl
    | inr (w, e) ↦ rw e refl
  ]
  read_as_one limit s l (k ∷ ls) = elim (zero_or_pos limit) [
    | inl none ↦ rw none (batched.get_many_lem s l (k ∷ ls) [])
    | inr some_limit ↦ elim (Bool-cases (limit == 0 || leb (length (l ∷ k ∷ ls)) limit)) [
      | inl e ↦ rw e (batched.get_many_lem s l (k ∷ ls) [])
      | inr e ↦
          rw e
            (get_batches_lem limit (length (l ∷ k ∷ ls)) s (l ∷ k ∷ ls) [] some_limit (omega arith))
    ]
  ]

  write_as_one :
      (limit : ℕ) (s : raw.State) (w : ℕ × Bytes) (ws : List (ℕ × Bytes))
      → set_raws raw limit s (w ∷ ws) ≡ set_internals raw s (w ∷ ws)
  unfolding set_raws set_loop
  write_as_one limit s w [] = elim (Outcome-cases (raw.set_internal s w.0 w.1)) [
    | inl (b, e) ↦ rw e refl
    | inr (x, e) ↦ rw e refl
  ]
  write_as_one limit s w (v ∷ ws) = elim (zero_or_pos limit) [
    | inl none ↦ rw none (batched.set_many_lem s w (v ∷ ws))
    | inr some_limit ↦ elim (Bool-cases (limit == 0 || leb (length (w ∷ v ∷ ws)) limit)) [
      | inl e ↦ rw e (batched.set_many_lem s w (v ∷ ws))
      | inr e ↦
          rw e (set_batches_lem limit (length (w ∷ v ∷ ws)) s (w ∷ v ∷ ws) some_limit (omega arith))
    ]
  ]

  -- If the overloads of a storage for many locations, its own or those of `AbsStorageAdapter`, do
  -- for one location or more what the loops over single locations do, exceptions included, then,
  -- whatever the limit is, to read or write one location or more, a single one by itself and too
  -- many in batches, is to do what the loop does in the order of the requests.
  pub batches_change_nothing :
      (limit : ℕ) (s : raw.State) (location : ℕ) (locations : List ℕ) (write : ℕ × Bytes)
      (writes : List (ℕ × Bytes))
      → (get_raws raw limit s (location ∷ locations)
          ≡ get_internals raw s (location ∷ locations) [])
        × (set_raws raw limit s (write ∷ writes) ≡ set_internals raw s (write ∷ writes))
  batches_change_nothing limit s location locations write writes =
      (read_as_one limit s location locations, write_as_one limit s write writes)

-- Nor do they where there is nothing to do.
module _ {raw : RawStorage} {capacity size : ℕ} (good : IsRawStorage raw capacity size) where
  pub get_raws_lem :
      (limit : ℕ) (s : raw.State) (locations : List ℕ)
      → get_raws raw limit s locations ≡ get_internals raw s locations []
  unfolding get_raws get_loop
  get_raws_lem limit s [] = good.get_many-nil s
  get_raws_lem limit s (l ∷ ls) = read_as_one raw good.batched limit s l ls

  pub set_raws_lem :
      (limit : ℕ) (s : raw.State) (writes : List (ℕ × Bytes))
      → set_raws raw limit s writes ≡ set_internals raw s writes
  unfolding set_raws set_loop
  set_raws_lem limit s [] = good.set_many-nil s
  set_raws_lem limit s (w ∷ ws) = write_as_one raw good.batched limit s w ws
