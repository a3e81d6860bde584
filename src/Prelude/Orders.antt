-- ===== src/Prelude/Orders.antt =====
-- A list of entries in another order: the keys stay apart, and have the same values.
use Prim.Native.Nat.{ℕ}
use mathlib.Core.Path.{◌≡◌, refl, sym, ap, subst, ◌∙◌}
use mathlib.Core.List.{List, [], ◌∷◌, ◌++◌}
use mathlib.Core.Option.{Option, none, some}
use native.Mathlib.Omega.{arith}
use path_oram.Prelude.Tests.{◌==◌, if◌then◌else◌}
use path_oram.Prelude.Members.{Permᴰ}
use path_oram.Prelude.Assoc.{lookup, Distinct}

module _ {ℓ} {V : Type ℓ} where
  swap_two :
      (a b : ℕ × V) (m : List (ℕ × V))
      → Distinct (a ∷ b ∷ m)
      → Distinct (b ∷ a ∷ m) × ((k : ℕ) → lookup k (a ∷ b ∷ m) ≡ lookup k (b ∷ a ∷ m))
  unfolding lookup
  swap_two a b m d = ((ground arith, (ground arith, d.1.1)), λ k. ground arith)

  pub lookup-perm :
      {xs ys : List (ℕ × V)}
      → Permᴰ xs ys
      → Distinct xs
      → Distinct ys × ((k : ℕ) → lookup k xs ≡ lookup k ys)
  unfolding lookup
  lookup-perm Permᴰ.nil d = (tt, λ k. refl)
  lookup-perm (Permᴰ.cons {a = a} {b = b} {l₁ = l} {l₂ = m} e p) d =
      let (d', same) = lookup-perm p d.1 in
      subst (λ (z : ℕ × V). Distinct (z ∷ m) × ((k : ℕ) → lookup k (a ∷ l) ≡ lookup k (z ∷ m))) e
        (
          (sym (same a.0) ∙ d.0, d'),
          λ k. ap (λ (t : Option V). if k == a.0 then some a.1 else t) (same k),
        )
  lookup-perm (Permᴰ.swap {a = a} {b = b} {l = l} e f) d =
      subst
        (λ (z : (ℕ × V) × (ℕ × V)).
          Distinct (z.0 ∷ z.1 ∷ l) × ((k : ℕ) → lookup k (a ∷ b ∷ l) ≡ lookup k (z.0 ∷ z.1 ∷ l)))
        (λ i. (f i, e i)) (swap_two a b l d)
  lookup-perm (Permᴰ.trans p q) d =
      let (d', same) = lookup-perm p d in
      let (d'', same') = lookup-perm q d' in (d'', λ k. same k ∙ same' k)

  lookup-append_one :
      (j k : ℕ) (v : V) (m : List (ℕ × V))
      → lookup j m ≡ none
      → lookup j (m ++ (k, v) ∷ []) ≡ (if j == k then some v else none)
  unfolding lookup
  lookup-append_one j k v [] absent = refl
  lookup-append_one j k v ((i, w) ∷ m) absent = ground (arith, lookup-append_one j k v m)

  -- One more entry, with a new key.
  pub append-Distinct :
      (k : ℕ) (v : V) (m : List (ℕ × V))
      → Distinct m
      → lookup k m ≡ none
      → Distinct (m ++ (k, v) ∷ [])
  unfolding lookup
  append-Distinct k v [] d fresh = (refl, tt)
  append-Distinct k v ((j, w) ∷ m) d fresh =
      (ground (arith, lookup-append_one j k v m d.0), append-Distinct k v m d.1 (ground arith))
