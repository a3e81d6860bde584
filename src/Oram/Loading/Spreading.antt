-- ===== src/Oram/Loading/Spreading.antt =====
-- What `load` relies on in its floating point arithmetic, and the exact quotient, which has these
-- properties.
use native.Mathlib.Nat.{le-div_iff_mul-le, div-lt_iff_lt-mul, mul-le-mul_right, div-mul-le_self}
use path_oram.Prelude.{ℕ, suc, ◌+◌, ◌-◌, ◌*◌, ◌/◌, ◌≤◌, ◌<◌, ◌≡◌, ap, arith, List, length}
use path_oram.Prelude.Words.{u64_mod}
use path_oram.Tree.Shifts.{sub64}
use path_oram.Definitions.{Block}
use path_oram.Oram.State.{Config}
use path_oram.Oram.Loading.{Spread, bucket_count}

-- The locations of the buckets, below `max`, rise.
pub record IsSpread (location : ℕ → ℕ) (max count : ℕ) : Type 0 where
  pub positive : (i : ℕ) → i < count → 0 < location i
  pub below : (i : ℕ) → i < count → location i < max
  pub rising : (i j : ℕ) → i < j → j < count → location i < location j

-- `floor(1 + iteration * (maxLocation / bucketCount))`, without rounding.
abbrev pub exact_spread : Spread
exact_spread max count iteration = 1 + iteration * max / count

last_round : (i k m : ℕ) → i ≤ k → suc k ≤ m → i * suc m < m * suc k
last_round i k m h l = omega (arith, mul-le-mul_right {m = i} {n = k} m h)

again : (n : ℕ) {i : ℕ} → i < n → n ≡ suc (n - 1)
again n h = omega arith

pub exact_spread-IsSpread :
    (max count : ℕ) → count < max → IsSpread (exact_spread max count) max count
exact_spread-IsSpread max count h = record {
  positive = λ i less. omega arith;
  below = λ i less.
      let small : i * max < (max - 1) * count = omega (
        arith,
        last_round i (count - 1) (max - 1) (omega arith) (omega arith),
        ap (λ (t : ℕ). i * t) (again max h),
        ap (λ (t : ℕ). (max - 1) * t) (again count less),
      ) in
      omega
        (arith, (div-lt_iff_lt-mul {k = count} {x = i * max} {y = max - 1} (omega arith)).1 small);
  rising = λ i j less last.
      let q = i * max / count in
      let apart : (q + 1) * count ≤ j * max = omega (
        arith,
        div-mul-le_self (i * max) count,
        mul-le-mul_right {m = i + 1} {n = j} max (omega arith),
      ) in
      omega
        (arith, (le-div_iff_mul-le {k = count} {x = q + 1} {y = j * max} (omega arith)).1 apart);
}

-- The number of buckets, if it does not wrap around.
bucket_count_lem :
    (c : Config) (input : List Block)
    → 0 < c.z
    → length input + c.z < u64_mod
    → bucket_count c input ≡ (length input + (c.z - 1)) / c.z
unfolding bucket_count sub64
bucket_count_lem c input roomy small = ap (λ (t : ℕ). t / c.z) (omega arith)

-- A bucket is begun only if there is room for it.
pub bucket_count-lt :
    (c : Config) (input : List Block) (i : ℕ)
    → 0 < c.z
    → length input + c.z < u64_mod
    → i * c.z < length input
    → i < bucket_count c input
bucket_count-lt c input i roomy small less =
    rw (bucket_count_lem c input roomy small) (
      (le-div_iff_mul-le {k = c.z} {x = suc i} {y = length input + (c.z - 1)} roomy).1
        (omega arith))
