-- ===== src/Prelude/Bounded.antt =====
-- A map with distinct keys below `n` has at most `n` entries.
use Prim.Native.Nat.{ℕ, zero, suc, ◌+◌, ◌≤◌, ◌<◌}
use mathlib.Core.Path.{◌≡◌, refl, ap}
use mathlib.Core.List.{List, [], ◌∷◌}
use mathlib.Core.Logic.{inl, inr}
use mathlib.Core.Option.{none}
use native.Mathlib.Omega.{arith}
use path_oram.Prelude.Tests.{◌==◌, Bool-cases, ==_iff}
use path_oram.Prelude.Lists.{length}
use path_oram.Prelude.Members.{All}
use path_oram.Prelude.Assoc.{lookup, erase, Distinct, erase-Distinct}

module _ {ℓ} {V : Type ℓ} where
  erase_absent : (k : ℕ) (m : List (ℕ × V)) → lookup k m ≡ none → erase k m ≡ m
  unfolding lookup erase
  erase_absent k [] h = refl
  erase_absent k ((j, w) ∷ m) h = ground (arith, erase_absent k m)

  -- There is one entry for a key at most.
  length-erase-ge : (k : ℕ) (m : List (ℕ × V)) → Distinct m → length m ≤ length (erase k m) + 1
  unfolding erase
  length-erase-ge k [] d = omega arith
  length-erase-ge k ((j, w) ∷ m) d = elim (Bool-cases (k == j)) [
    | inl e ↦
        let absent : lookup k m ≡ none = rw ((==_iff k j).0 e) d.0 in
        rw (e, erase) (omega (arith, ap length (erase_absent k m absent)))
    | inr e ↦ rw (e, erase) (omega (arith, length-erase-ge k m d.1))
  ]

  erase-All : (n : ℕ) (m : List (ℕ × V)) → All (λ e. e.0 < suc n) m → All (λ e. e.0 < n) (erase n m)
  unfolding erase
  erase-All n [] h = tt
  erase-All n ((j, w) ∷ m) h = ground (arith, erase-All n m h.1)

  pub length-Distinct :
      (n : ℕ) (m : List (ℕ × V)) → Distinct m → All (λ e. e.0 < n) m → length m ≤ n
  length-Distinct zero [] d h = omega arith
  length-Distinct zero (e ∷ m) d h = absurd (omega (arith, h.0))
  length-Distinct (suc n) m d h = omega (
    arith,
    length-erase-ge n m d,
    length-Distinct n (erase n m) (erase-Distinct n m d) (erase-All n m h),
  )
