-- ===== src/Objects/ValueList/Bytes.antt =====
-- `i64::to_ne_bytes` and `i64::from_ne_bytes` on a little-endian machine.
use native.Mathlib.Nat.{pow-suc}
use hrx_system_rs.Base.{
  ℕ, zero, suc, ◌+◌, ◌-◌, ◌*◌, ◌/◌, ◌%◌, ◌^◌, ◌<◌, ◌≡◌, List, [], ◌∷◌, ℤ, pos, negsuc, as_i64,
  arith,
}

-- The bits of an `i64`.
abbrev bits : ℤ → ℕ
bits (pos n) = n
bits (negsuc n) = 2 ^ 64 - 1 - n

unfoldable pub little_endian : ℕ → ℕ → List ℕ
little_endian zero n = []
little_endian (suc count) n = n % 256 ∷ little_endian count (n / 256)

unfoldable pub number : List ℕ → ℕ
number [] = 0
number (b ∷ bs) = b + 256 * number bs

unfoldable pub to_ne_bytes : ℤ → List ℕ
unfolding little_endian
to_ne_bytes v = little_endian 8 (bits v)

unfoldable pub from_ne_bytes : List ℕ → ℤ
unfolding number
from_ne_bytes bs = as_i64 (number bs)

abbrev pub FitsI64 : ℤ → Type 0
FitsI64 (pos n) = n < 2 ^ 63
FitsI64 (negsuc n) = n < 2 ^ 63

number-little_endian : (count n : ℕ) → n < 256 ^ count → number (little_endian count n) ≡ n
unfolding number little_endian
number-little_endian zero n h = omega arith
number-little_endian (suc count) n h =
    let small : n / 256 < 256 ^ count = omega (arith, pow-suc 256 count) in
    omega (arith, number-little_endian count (n / 256) small)

-- Every `i64` is read back from its bytes.
pub from_ne_bytes-to_ne_bytes : (v : ℤ) → FitsI64 v → from_ne_bytes (to_ne_bytes v) ≡ v
unfolding from_ne_bytes to_ne_bytes
from_ne_bytes-to_ne_bytes (pos n) h = rw (number-little_endian 8 n (omega arith)) (ground arith)
from_ne_bytes-to_ne_bytes (negsuc n) h =
    rw (number-little_endian 8 (2 ^ 64 - 1 - n) (omega arith)) (ground arith)
