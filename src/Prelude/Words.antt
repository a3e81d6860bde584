-- ===== src/Prelude/Words.antt =====
-- Fixed-width integers and their bytes in memory, lowest byte first.
use Prim.Native.Nat.{ℕ, zero, suc, ◌+◌, ◌-◌, ◌*◌, ◌/◌, ◌%◌, ◌^◌, ◌<◌}
use mathlib.Core.Path.{◌≡◌, refl, ap}
use mathlib.Core.List.{List, [], ◌∷◌}
use native.Mathlib.Nat.{pow-suc}
use native.Mathlib.Omega.{arith}
use path_oram.Prelude.Lists.{length}
use path_oram.Prelude.Tests.{ltb, if◌then◌else◌}

-- `unsigned long long`
abbrev pub u64_mod : ℕ
u64_mod = 2 ^ 64

-- `unsigned int`
abbrev pub u32_mod : ℕ
u32_mod = 2 ^ 32

-- A value that an `int` keeps, of 32 bits, converted to a `number`: the sign is extended.
unfoldable pub int_to_number : ℕ → ℕ
int_to_number n =
    let low = n % u32_mod in if ltb low (2 ^ 31) then low else low + (u64_mod - u32_mod)

pub int_to_number-small : (n : ℕ) → n < 2 ^ 31 → int_to_number n ≡ n
unfolding int_to_number
int_to_number-small n h = ground arith

abbrev pub Bytes : Type 0
Bytes = List ℕ

-- The first `k` bytes of the representation of `n`.
unfoldable pub to_bytes : ℕ → ℕ → Bytes
to_bytes zero n = []
to_bytes (suc k) n = (n % 256) ∷ to_bytes k (n / 256)

unfoldable pub from_bytes : Bytes → ℕ
from_bytes [] = 0
from_bytes (b ∷ bs) = b + 256 * from_bytes bs

pub length-to_bytes : (k n : ℕ) → length (to_bytes k n) ≡ k
unfolding to_bytes
length-to_bytes zero n = refl
length-to_bytes (suc k) n = ap suc (length-to_bytes k (n / 256))

pub from_bytes-to_bytes : (k n : ℕ) → n < 256 ^ k → from_bytes (to_bytes k n) ≡ n
unfolding to_bytes from_bytes
from_bytes-to_bytes zero n h = omega arith
from_bytes-to_bytes (suc k) n h =
    omega (arith, pow-suc 256 k, from_bytes-to_bytes k (n / 256) (omega (arith, pow-suc 256 k)))

-- A `number` survives being copied to eight bytes and back.
pub from_bytes-to_bytes_64 : (n : ℕ) → n < u64_mod → from_bytes (to_bytes 8 n) ≡ n
from_bytes-to_bytes_64 n h = from_bytes-to_bytes 8 n h
