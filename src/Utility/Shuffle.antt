-- ===== src/Utility/Shuffle.antt =====
-- The Fisher-Yates loop, which stands in `InMemoryStashAdapter::getAll` and in `ORAM::load`.
use mathlib.Core.List.Permᴰ
use mathlib.Core.Option.{none-ne-some}
use path_oram.Prelude.{
  ℕ, zero, suc, ◌+◌, ◌-◌, ◌%◌, ◌≡◌, refl, List, [], ◌∷◌, Option, some, length, get_elem?, set, leb,
  if◌then◌else◌, Permᴰ, Bool-cases, inl, inr, some_path, ◌<◌, ◌≤◌, get_elem?_of_lt, length-perm,
  arith,
}
use path_oram.Prelude.Words.{u32_mod}
use path_oram.Utility.Random.{Source, rest, get_random_uint, get_random_uint-lt}

module _ {ℓ} {A : Type ℓ} where
  put_both : List A → ℕ → ℕ → Option A → Option A → List A
  put_both xs i j (some x) (some y) = set (set xs i y) j x
  put_both xs i j _ _ = []

  -- `std::swap(xs[i], xs[j])`. Out of bounds, which is undefined, nothing is left.
  unfoldable pub swap : ℕ → ℕ → List A → List A
  unfolding put_both
  swap i j xs = put_both xs i j (get_elem? xs i) (get_elem? xs j)

  -- `for (; i < n - 1; i++)`, with the rounds left as the first argument
  unfoldable pub shuffle_from : ℕ → ℕ → ℕ → Source → List A → List A
  unfolding swap get_random_uint
  shuffle_from zero i n s xs = xs
  shuffle_from (suc rounds) i n s xs =
      shuffle_from rounds (i + 1) n (rest s) (swap i ((i + get_random_uint (n - i) s) % u32_mod) xs)

  -- The loop counts in `unsigned int`.
  unfoldable pub shuffle : Source → List A → List A
  unfolding shuffle_from
  shuffle s xs =
      let n = length xs % u32_mod in if leb 2 n then shuffle_from (n - 1) 0 n s xs else xs

  -- The draws that `shuffle` makes.
  unfoldable pub shuffle_draws : List A → ℕ
  shuffle_draws xs = length xs % u32_mod - 1

  -- To put `x` in the place of `y` exchanges the two.
  exchange :
      (xs : List A) (j : ℕ) (x y : A) → get_elem? xs j ≡ some y → Permᴰ (x ∷ xs) (y ∷ set xs j x)
  exchange [] j x y e = absurd (none-ne-some y e)
  exchange (a ∷ xs) zero x y e = Permᴰ.swap refl (some_path e)
  exchange (a ∷ xs) (suc j) x y e =
      Permᴰ.trans (Permᴰ.swap refl refl)
        (Permᴰ.trans (Permᴰ.cons refl (exchange xs j x y e)) (Permᴰ.swap refl refl))

  swap_hit-perm :
      (xs : List A) (i j : ℕ) (x y : A)
      → get_elem? xs i ≡ some x
      → get_elem? xs j ≡ some y
      → Permᴰ xs (set (set xs i y) j x)
  swap_hit-perm [] i j x y p q = Permᴰ.nil
  swap_hit-perm (a ∷ xs) zero zero x y p q = Permᴰ.cons (some_path p) (Permᴰ.refl xs)
  swap_hit-perm (a ∷ xs) zero (suc j) x y p q =
      Permᴰ.trans (Permᴰ.cons (some_path p) (Permᴰ.refl xs)) (exchange xs j x y q)
  swap_hit-perm (a ∷ xs) (suc i) zero x y p q =
      Permᴰ.trans (Permᴰ.cons (some_path q) (Permᴰ.refl xs)) (exchange xs i y x p)
  swap_hit-perm (a ∷ xs) (suc i) (suc j) x y p q = Permᴰ.cons refl (swap_hit-perm xs i j x y p q)

  swap-perm : (i j : ℕ) (xs : List A) → i < length xs → j < length xs → Permᴰ xs (swap i j xs)
  unfolding swap
  swap-perm i j xs h k =
      let (x, p) = get_elem?_of_lt xs i h in
      let (y, q) = get_elem?_of_lt xs j k in rw (p, q, put_both) (swap_hit-perm xs i j x y p q)

  -- Both places are in the list: `j` is drawn from `i` up to, and without, `n`.
  shuffle_from-perm :
      (rounds i n : ℕ) (s : Source) (xs : List A)
      → rounds + i < n
      → n < u32_mod
      → n ≤ length xs
      → Permᴰ xs (shuffle_from rounds i n s xs)
  unfolding shuffle_from
  shuffle_from-perm zero i n s xs h k l = Permᴰ.refl xs
  shuffle_from-perm (suc rounds) i n s xs h k l =
      let drawn = get_random_uint-lt (n - i) s (omega (arith, h)) in
      let j = (i + get_random_uint (n - i) s) % u32_mod in
      let swapped = swap-perm i j xs (omega (arith, h, l)) (omega (arith, h, k, l, drawn)) in
      Permᴰ.trans swapped (
        shuffle_from-perm rounds (i + 1) n (rest s) _ (omega (arith, h)) k
          (omega (arith, l, length-perm swapped)))

  -- The shuffle only reorders, whatever is drawn.
  pub shuffle-perm : (s : Source) (xs : List A) → Permᴰ xs (shuffle s xs)
  unfolding shuffle
  shuffle-perm s xs =
      let n = length xs % u32_mod in
      elim (Bool-cases (leb 2 n)) [
        | inl e ↦
            let many : 2 ≤ n = ground (arith, e) in
            rw e
              (shuffle_from-perm (n - 1) 0 n s xs (omega (arith, many)) (omega arith) (omega arith))
        | inr e ↦ rw e (Permᴰ.refl xs)
      ]
