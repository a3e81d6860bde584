-- ===== src/Tree/Shifts.antt =====
-- Powers of two, shifts as quotients by them, `floor(log2(n))`, and differences and products of
-- `number`s.
use native.Mathlib.Nat.{
  pow-suc, one-le-pow, pow-le-pow_right, div-div-eq-div-mul, zero-add, suc-add,
}
use path_oram.Prelude.{
  ℕ, zero, suc, ◌+◌, ◌-◌, ◌*◌, ◌/◌, ◌%◌, ◌^◌, ◌≤◌, ◌<◌, ◌≡◌, sym, ap, arith, ltb, ltb→lt,
  if◌then◌else◌, Bool-cases, inl, inr,
}
use path_oram.Prelude.Words.{u64_mod}

unfoldable pub sub64 : ℕ → ℕ → ℕ
sub64 a b = (a + u64_mod - b) % u64_mod

unfoldable pub mul64 : ℕ → ℕ → ℕ
mul64 a b = a * b % u64_mod

-- The logarithm by halving; a `number` takes 64 rounds at most. The source takes it of a `double`,
-- which is exact in the range of the locations.
halvings : ℕ → ℕ → ℕ
halvings zero n = 0
halvings (suc fuel) n = let more = suc (halvings fuel (n / 2)) in if ltb n 2 then 0 else more

unfoldable pub floor_log2 : ℕ → ℕ
unfolding halvings
floor_log2 n = halvings 64 n

pub two_pow-pos : (k : ℕ) → 1 ≤ 2 ^ k
two_pow-pos k = one-le-pow k 2 (omega arith)

pub two_pow-add : (a b : ℕ) → 2 ^ (a + b) ≡ 2 ^ a * 2 ^ b
two_pow-add zero b = rw zero-add (omega arith)
two_pow-add (suc a) b = rw suc-add (
    omega (
      arith,
      pow-suc 2 (a + b),
      pow-suc 2 a,
      two_pow-add a b,
      ap (λ (t : ℕ). 2 * t) (two_pow-add a b),
      ap (λ (t : ℕ). t * 2 ^ b) (pow-suc 2 a),
    ))

pub two_pow-le : {a b : ℕ} → a ≤ b → 2 ^ a ≤ 2 ^ b
two_pow-le h = pow-le-pow_right (omega arith) h

-- One shift more halves once more.
pub div-two_pow-suc : (x k : ℕ) → x / 2 ^ suc k ≡ x / 2 ^ k / 2
div-two_pow-suc x k = rw pow-suc (sym (div-div-eq-div-mul x (2 ^ k) 2))

halvings_bounds :
    (f n : ℕ) → 0 < n → n < 2 ^ f → (2 ^ halvings f n ≤ n) × (n < 2 ^ suc (halvings f n))
unfolding halvings
halvings_bounds zero n p h = absurd (omega arith)
halvings_bounds (suc f) n p h = elim (Bool-cases (ltb n 2)) [
  | inl e ↦ rw e (omega (arith, ltb→lt n 2 e))
  | inr e ↦
      let ih = halvings_bounds f (n / 2) (ground arith) (omega (arith, pow-suc 2 f)) in
      rw e (
        omega
          (arith, ih.0, ih.1, pow-suc 2 (halvings f (n / 2)), pow-suc 2 (suc (halvings f (n / 2)))))
]

-- The logarithm is exact on every positive `number`.
pub floor_log2_bounds :
    (n : ℕ) → 0 < n → n < u64_mod → (2 ^ floor_log2 n ≤ n) × (n < 2 ^ suc (floor_log2 n))
unfolding floor_log2
floor_log2_bounds n p h = halvings_bounds 64 n p h
