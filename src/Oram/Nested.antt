-- ===== src/Oram/Nested.antt =====
-- `ORAMPositionMapAdapter` of path-oram/src/position-map-adapter.cpp: a position map whose leaves are
-- blocks of another ORAM.
use mathlib.Core.List.{append-nil}
use mathlib.Core.Option.{none-ne-some}
use path_oram.Prelude.{
  ℕ, zero, suc, ◌+◌, ◌*◌, ◌-◌, ◌^◌, ◌≤◌, ◌<◌, ◌≡◌, refl, sym, ap, ◌∙◌, [], ◌∷◌, ◌++◌, Option, none,
  some, some_path, length, take, replicate, take_all, Bool-cases, ◌⊎◌, inl, inr, Outcome, ok, throw,
  stash_overflow, ◌>>=◌, ◌==◌, if◌then◌else◌, arith,
}
use path_oram.Prelude.Words.{
  Bytes, u64_mod, to_bytes, from_bytes, length-to_bytes, from_bytes-to_bytes_64,
}
use path_oram.Storage.Padding.{pad}
use path_oram.Oram.Store.{Store, IsStore}
use path_oram.Oram.State.{Config, Oram}
use path_oram.Oram.Access as Access
use path_oram.Oram.Access.Updating.{answered, padded_answer}
use path_oram.Oram.Access.Correct.{get_correct, put_correct}
use path_oram.Oram.Invariant.{Contents, put_contents, IsConfig, Inv, Crowded, SameSizes}

module _ {store : Store} (c : Config) where
  -- The first eight bytes of the answer; `set` has written at least that many.
  unfoldable pub get_leaf : Oram store → ℕ → Outcome (ℕ × Oram store)
  get_leaf o block = do
    (returned, o1) ← Access.get c o block []
    ok (from_bytes (take 8 returned), o1)

  unfoldable pub set_leaf : Oram store → ℕ → ℕ → Outcome (Oram store)
  set_leaf o block leaf = Access.put c o block (to_bytes 8 leaf)

-- Zeroes behind a number do not change it.
from_bytes-zeroes : (n : ℕ) → from_bytes (replicate n 0) ≡ 0
unfolding from_bytes
from_bytes-zeroes zero = refl
from_bytes-zeroes (suc n) = omega (arith, from_bytes-zeroes n)

take-zeroes : (k n : ℕ) → from_bytes (take k (replicate n 0)) ≡ 0
unfolding from_bytes
take-zeroes zero n = refl
take-zeroes (suc k) zero = refl
take-zeroes (suc k) (suc n) = omega (arith, take-zeroes k n)

number_of_padded :
    (k n : ℕ) (xs : Bytes) → from_bytes (take k (xs ++ replicate n 0)) ≡ from_bytes (take k xs)
unfolding from_bytes
number_of_padded zero n xs = refl
number_of_padded (suc k) n [] = take-zeroes (suc k) n
number_of_padded (suc k) n (x ∷ xs) = ap (λ (t : ℕ). x + 256 * t) (number_of_padded k n xs)

number_of_pad : (size : ℕ) (xs : Bytes) → from_bytes (take 8 (pad size xs)) ≡ from_bytes (take 8 xs)
unfolding pad
number_of_pad size xs = number_of_padded 8 (size - length xs) xs

-- The leaf that a payload starts with, and the one that the contents have for a block.
abbrev pub leaf_from : Option Bytes → Option ℕ
leaf_from none = none
leaf_from (some d) = some (from_bytes (take 8 d))

abbrev pub leaf_in : Contents → ℕ → Option ℕ
leaf_in spec block = leaf_from (spec block)

answer_leaf :
    (size : ℕ) (payload : Option Bytes) (answer : Bytes) (leaf : ℕ)
    → leaf_from (padded_answer size payload) ≡ some leaf
    → answer ≡ answered payload []
    → from_bytes (take 8 answer) ≡ leaf
answer_leaf size none answer leaf known e = absurd (none-ne-some leaf known)
answer_leaf size (some d) answer leaf known e =
    ap (λ (t : Bytes). from_bytes (take 8 t)) (e ∙ append-nil d)
    ∙ sym (number_of_pad size d)
    ∙ some_path known

leaf_in-put :
    (size : ℕ) (spec : Contents) (block leaf other : ℕ)
    → leaf < u64_mod
    → leaf_in (put_contents spec block (pad size (to_bytes 8 leaf))) other
      ≡ (if other == block then some leaf else leaf_in spec other)
leaf_in-put size spec block leaf other small = elim (Bool-cases (other == block)) [
  | inl e ↦ rw e (
      ap some (
        number_of_pad size (to_bytes 8 leaf)
        ∙ ap from_bytes (take_all 8 (to_bytes 8 leaf) (omega (arith, length-to_bytes 8 leaf)))
        ∙ from_bytes-to_bytes_64 leaf small))
  | inr e ↦ rw e refl
]

module _ (c : Config) {store : Store} (good : IsStore store (2 ^ c.height) c.z c.data_size)
    (fits : IsConfig c) where
  pub get_leaf_ok :
      (spec : Contents) (o : Oram store) (block leaf : ℕ)
      → Inv c good spec o
      → block < o.map.capacity
      → leaf_in spec block ≡ some leaf
      → (Crowded o × (get_leaf c o block ≡ throw stash_overflow))
        ⊎ ((p : Oram store) × (get_leaf c o block ≡ ok (leaf, p))
            × Inv c good spec p
            × SameSizes o p)
  unfolding get_leaf
  get_leaf_ok spec o block leaf inv below known =
      elim (get_correct c good spec o block [] fits inv below) [
        | inl (crowded, over) ↦ inl (crowded, rw over refl)
        | inr (p, answer, ran, answers, inv', same) ↦
            let number =
              answer_leaf c.data_size answers.payload answer leaf
                (ap leaf_from answers.expects ∙ known) answers.answers in
            inr (p, rw (ran, number) refl, inv', same)
      ]

  pub set_leaf_ok :
      (spec : Contents) (o : Oram store) (block leaf : ℕ)
      → Inv c good spec o
      → block < o.map.capacity
      → leaf < u64_mod
      → 8 ≤ c.data_size
      → (Crowded o × (set_leaf c o block leaf ≡ throw stash_overflow))
        ⊎ ((p : Oram store) × (spec' : Contents) × (set_leaf c o block leaf ≡ ok p)
            × Inv c good spec' p
            × SameSizes o p
            × ((other : ℕ)
                → leaf_in spec' other ≡ (if other == block then some leaf else leaf_in spec other)))
  unfolding set_leaf
  set_leaf_ok spec o block leaf inv below small room =
      let number = to_bytes 8 leaf in
      elim (put_correct c good spec o block number fits inv below
        (omega (arith, length-to_bytes 8 leaf))) [
          | inl (crowded, over) ↦ inl (crowded, over)
          | inr (p, ran, inv', same) ↦ inr (
            p,
            put_contents spec block (pad c.data_size number),
            ran,
            inv',
            same,
            λ other. leaf_in-put c.data_size spec block leaf other small,
          )
        ]
