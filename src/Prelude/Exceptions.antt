-- ===== src/Prelude/Exceptions.antt =====
-- `Exception` of path-oram/include/definitions.h: a call returns a value or throws. There is a
-- constructor for each message that the code throws.
use mathlib.Core.Path.{◌≡◌, refl}
use mathlib.Core.Bool.{Bool, true, false}
use mathlib.Core.List.{List, [], ◌∷◌}
use mathlib.Core.Logic.{◌⊎◌, inl, inr}
use native.Mathlib.Omega.{arith}

pub data Exception : Type 0 where
  block_out_of_bound : Exception
  location_out_of_bound : Exception
  stash_overflow : Exception
  too_many_requests : Exception
  too_much_data : Exception
  wrong_bucket_size : Exception
  data_too_long : Exception
  block_size_too_small : Exception
  block_size_not_multiple : Exception
  zero_bucket_size : Exception
  wrong_key_size : Exception
  wrong_input_size : Exception
  wrong_iv_size : Exception
  cannot_open : Exception
  no_value : Exception

pub data Outcome {ℓ} (A : Type ℓ) : Type ℓ where
  ok : A → Outcome A
  throw : Exception → Outcome A

infixl 5 ◌>>=◌
abbrev pub ◌>>=◌ {κ ℓ} :
    {V : Type ℓ} {W : Type κ} (call : Outcome V) (next : V → Outcome W) → Outcome W
ok value >>= next = next value
throw exception >>= next = throw exception

-- One call after another that returns nothing.
infixl 5 ◌>>◌
abbrev pub ◌>>◌ {ℓ} : {W : Type ℓ} (call : Outcome (Unit {0})) (next : Outcome W) → Outcome W
call >> next = call >>= λ _. next

-- `if (failed) throw e;`
abbrev pub throw_if : Bool → Exception → Outcome (Unit {0})
throw_if true e = throw e
throw_if false e = ok tt

module _ {ℓ κ} {A : Type ℓ} {B : Type κ} where
  -- The first failure ends the loop.
  abbrev pub map_all : (A → Outcome B) → List A → Outcome (List B)
  map_all f [] = ok []
  map_all f (x ∷ xs) = do y ← f x; ys ← map_all f xs; ok (y ∷ ys)

  -- A sequence of calls returns only if the first one did.
  pub >>=-eq-ok :
      (call : Outcome A) (next : A → Outcome B) {result : B}
      → call >>= next ≡ ok result
      → (value : A) × (call ≡ ok value) × (next value ≡ ok result)
  >>=-eq-ok (throw _) next returned = ground arith
  >>=-eq-ok (ok value) next returned = (value, refl, returned)

pub ok_path {ℓ} : {A : Type ℓ} {a b : A} → ok a ≡ ok b → a ≡ b
ok_path e = cc

-- A call returns or throws.
pub outcome_cases {ℓ} :
    {A : Type ℓ} (run : Outcome A) → ((a : A) × (run ≡ ok a)) ⊎ ((e : Exception) × (run ≡ throw e))
outcome_cases (ok a) = inl (a, refl)
outcome_cases (throw e) = inr (e, refl)
