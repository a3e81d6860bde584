-- ===== src/Prelude/Assoc.antt =====
-- `std::unordered_map` with numeric keys, as a list of entries. The order of the entries stands for
-- the unspecified order of iteration.
use Prim.Native.Nat.{ℕ, ◌+◌, ◌≤◌}
use mathlib.Core.Path.{◌≡◌, refl, sym, ap, subst, ◌∙◌}
use mathlib.Core.Bool.{Bool, true, false}
use mathlib.Core.List.{List, [], ◌∷◌}
use mathlib.Core.List.Memᴰ
use mathlib.Core.Logic.{◌≢◌, inl, inr}
use mathlib.Core.Option.{Option, none, some}
use native.Mathlib.Omega.{arith}
use path_oram.Prelude.Tests.{◌==◌, if◌then◌else◌, Bool-cases, ==_iff, ne→==_false}
use path_oram.Prelude.Lists.{length}
use path_oram.Prelude.Members.{All, Memᴰ}

module _ {ℓ} {V : Type ℓ} where
  -- `find`
  unfoldable pub lookup : ℕ → List (ℕ × V) → Option V
  lookup k [] = none
  lookup k ((j, v) ∷ m) = if k == j then some v else lookup k m

  -- `count(k) > 0`
  unfoldable pub contains : ℕ → List (ℕ × V) → Bool
  contains k [] = false
  contains k ((j, v) ∷ m) = if k == j then true else contains k m

  -- `insert`, which leaves an entry of that key as it is
  unfoldable pub insert : ℕ → V → List (ℕ × V) → List (ℕ × V)
  unfolding contains
  insert k v m = if contains k m then m else (k, v) ∷ m

  -- `m[k] = v`
  unfoldable pub assign : ℕ → V → List (ℕ × V) → List (ℕ × V)
  assign k v [] = (k, v) ∷ []
  assign k v ((j, w) ∷ m) = if k == j then (j, v) ∷ m else (j, w) ∷ assign k v m

  -- `erase`
  unfoldable pub erase : ℕ → List (ℕ × V) → List (ℕ × V)
  erase k [] = []
  erase k ((j, w) ∷ m) = if k == j then erase k m else (j, w) ∷ erase k m

  pub contains-eq-lookup :
      (k : ℕ) (m : List (ℕ × V)) → contains k m ≡ elim (lookup k m) [ none ↦ false | some _ ↦ true ]
  unfolding contains lookup
  contains-eq-lookup k [] = refl
  contains-eq-lookup k ((j, v) ∷ m) = ground (arith, contains-eq-lookup k m)

  pub lookup-insert :
      (k j : ℕ) (v : V) (m : List (ℕ × V))
      → lookup j (insert k v m)
        ≡ (if j == k then elim (lookup k m) [ none ↦ some v | some w ↦ some w ] else lookup j m)
  unfolding lookup insert
  lookup-insert k j v m = ground (arith, contains-eq-lookup k m)

  pub lookup-assign :
      (k j : ℕ) (v : V) (m : List (ℕ × V))
      → lookup j (assign k v m) ≡ (if j == k then some v else lookup j m)
  unfolding lookup assign
  lookup-assign k j v [] = refl
  lookup-assign k j v ((i, w) ∷ m) = ground (arith, lookup-assign k j v m)

  pub lookup-erase :
      (k j : ℕ) (m : List (ℕ × V)) → lookup j (erase k m) ≡ (if j == k then none else lookup j m)
  unfolding lookup erase
  lookup-erase k j [] = ground arith
  lookup-erase k j ((i, w) ∷ m) = ground (arith, lookup-erase k j m)

  pub length-insert :
      (k : ℕ) (v : V) (m : List (ℕ × V))
      → length (insert k v m) ≡ (if contains k m then length m else length m + 1)
  unfolding insert
  length-insert k v m = ground arith

  pub length-assign :
      (k : ℕ) (v : V) (m : List (ℕ × V))
      → length (assign k v m) ≡ (if contains k m then length m else length m + 1)
  unfolding assign contains
  length-assign k v [] = omega arith
  length-assign k v ((j, w) ∷ m) = ground (arith, length-assign k v m)

  pub length-erase-le : (k : ℕ) (m : List (ℕ × V)) → length (erase k m) ≤ length m
  unfolding erase
  length-erase-le k [] = omega arith
  length-erase-le k ((j, w) ∷ m) = ground (arith, length-erase-le k m)

  pub mem_of_lookup : (k : ℕ) (m : List (ℕ × V)) {v : V} → lookup k m ≡ some v → Memᴰ (k, v) m
  unfolding lookup
  mem_of_lookup k [] h = ground arith
  mem_of_lookup k ((j, w) ∷ m) h = elim (Bool-cases (k == j)) [
    | inl e ↦ Memᴰ.head (ground arith)
    | inr e ↦ Memᴰ.tail (mem_of_lookup k m (ground arith))
  ]

  -- No key stands twice, as in every `unordered_map`.
  abbrev pub Distinct : List (ℕ × V) → Type ℓ
  Distinct [] = Unit
  Distinct ((j, v) ∷ m) = (lookup j m ≡ none) × Distinct m

  pub insert-Distinct : (k : ℕ) (v : V) (m : List (ℕ × V)) → Distinct m → Distinct (insert k v m)
  unfolding insert
  insert-Distinct k v m d = ground (arith, contains-eq-lookup k m)

  pub assign-Distinct : (k : ℕ) (v : V) (m : List (ℕ × V)) → Distinct m → Distinct (assign k v m)
  unfolding assign lookup
  assign-Distinct k v [] d = (refl, tt)
  assign-Distinct k v ((j, w) ∷ m) d =
      ground (arith, assign-Distinct k v m d.1, lookup-assign k j v m)

  pub erase-Distinct : (k : ℕ) (m : List (ℕ × V)) → Distinct m → Distinct (erase k m)
  unfolding erase
  erase-Distinct k [] d = d
  erase-Distinct k ((j, w) ∷ m) d = ground (arith, erase-Distinct k m d.1, lookup-erase k j m)

  pub lookup_of_mem :
      (k : ℕ) (m : List (ℕ × V)) {v : V} → Distinct m → Memᴰ (k, v) m → lookup k m ≡ some v
  unfolding lookup
  lookup_of_mem k ((j, w) ∷ m) d (Memᴰ.head e) = ground arith
  lookup_of_mem k ((j, w) ∷ m) d (Memᴰ.tail h) = ground (arith, lookup_of_mem k m d.1 h)
  lookup_of_mem k [] d h = elim h [ ]

  pub mem-erase : (k : ℕ) (m : List (ℕ × V)) {e : ℕ × V} → Memᴰ e (erase k m) → Memᴰ e m
  unfolding erase
  mem-erase k [] h = h
  mem-erase k ((j, w) ∷ m) h = elim (Bool-cases (k == j)) [
    | inl e ↦ Memᴰ.tail (mem-erase k m (rw (e, erase) at h))
    | inr e ↦ elim (Memᴰ.cases_cons (rw (e, erase) at h)) [
      | inl here ↦ Memᴰ.head here
      | inr there ↦ Memᴰ.tail (mem-erase k m there)
    ]
  ]

  pub mem-erase_ne :
      (k : ℕ) (m : List (ℕ × V)) {e : ℕ × V} → e.0 ≢ k → Memᴰ e m → Memᴰ e (erase k m)
  unfolding erase
  mem-erase_ne k ((j, w) ∷ m) ne (Memᴰ.head here) =
      let off = ne→==_false k j (λ (q : k ≡ j). ne (ap (λ (p : ℕ × V). p.0) here ∙ sym q)) in
      rw (off, erase) (Memᴰ.head here)
  mem-erase_ne k ((j, w) ∷ m) ne (Memᴰ.tail h) = elim (Bool-cases (k == j)) [
    | inl e ↦ rw (e, erase) (mem-erase_ne k m ne h)
    | inr e ↦ rw (e, erase) (Memᴰ.tail (mem-erase_ne k m ne h))
  ]
  mem-erase_ne k [] ne h = elim h [ ]

  pub assign-All {κ} :
      (P : ℕ × V → Type κ) (k : ℕ) (v : V) (m : List (ℕ × V))
      → P (k, v)
      → All P m
      → All P (assign k v m)
  unfolding assign
  assign-All P k v [] p h = (p, tt)
  assign-All P k v ((j, w) ∷ m) p h = elim (Bool-cases (k == j)) [
    | inl e ↦ rw (e, assign) (subst (λ (i : ℕ). P (i, v)) ((==_iff k j).0 e) p, h.1)
    | inr e ↦ rw (e, assign) (h.0, assign-All P k v m p h.1)
  ]
