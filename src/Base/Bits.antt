-- ===== src/Base/Bits.antt =====
-- Bitwise operations on the words that flags are kept in.
use Prim.Native.Nat.{ℕ, zero, suc, ◌+◌, ◌-◌, ◌*◌, ◌/◌, ◌%◌}

-- On the low `w` bits.
abbrev pub bit_and : ℕ → ℕ → ℕ → ℕ
bit_and zero a b = 0
bit_and (suc w) a b = (a % 2) * (b % 2) + 2 * bit_and w (a / 2) (b / 2)

abbrev either_bit : ℕ → ℕ → ℕ
either_bit zero b = b
either_bit (suc a) b = 1

abbrev pub bit_or : ℕ → ℕ → ℕ → ℕ
bit_or zero a b = 0
bit_or (suc w) a b = either_bit (a % 2) (b % 2) + 2 * bit_or w (a / 2) (b / 2)

abbrev different_bit : ℕ → ℕ → ℕ
different_bit zero b = b
different_bit (suc a) b = 1 - b

abbrev pub bit_xor : ℕ → ℕ → ℕ → ℕ
bit_xor zero a b = 0
bit_xor (suc w) a b = different_bit (a % 2) (b % 2) + 2 * bit_xor w (a / 2) (b / 2)
