-- ===== src/Utility/Random.antt =====
-- `getRandomULong`, `getRandomUInt` and `getRandomBlock`. The generator (`RAND_bytes`, or `rand` in
-- a test build) is a stream of raw words, an argument of every caller.
use path_oram.Prelude.{ℕ, zero, suc, ◌%◌, ◌<◌, ◌≡◌, refl, ap, [], ◌∷◌, arith, length}
use path_oram.Prelude.Words.{u64_mod, u32_mod, Bytes}

abbrev pub Source : Type 0
Source = ℕ → ℕ

-- What is left after one word.
abbrev pub rest : Source → Source
rest s = λ n. s (suc n)

-- What is left after `n` words.
abbrev pub skip : ℕ → Source → Source
skip zero s = s
skip (suc n) s = skip n (rest s)

-- `material[0] % max`
unfoldable pub get_random_ulong : ℕ → Source → ℕ
get_random_ulong max s = s 0 % u64_mod % max

unfoldable pub get_random_uint : ℕ → Source → ℕ
get_random_uint max s = s 0 % u32_mod % max

-- One byte of each word; the caller goes on behind them.
unfoldable pub get_random_block : ℕ → Source → Bytes
get_random_block zero s = []
get_random_block (suc n) s = (s 0 % 256) ∷ get_random_block n (rest s)

pub get_random_ulong-lt : (max : ℕ) (s : Source) → 0 < max → get_random_ulong max s < max
unfolding get_random_ulong
get_random_ulong-lt max s h = omega arith

pub get_random_uint-lt : (max : ℕ) (s : Source) → 0 < max → get_random_uint max s < max
unfolding get_random_uint
get_random_uint-lt max s h = omega arith

pub length-get_random_block : (n : ℕ) (s : Source) → length (get_random_block n s) ≡ n
unfolding get_random_block
length-get_random_block zero s = refl
length-get_random_block (suc n) s = ap suc (length-get_random_block n (rest s))
