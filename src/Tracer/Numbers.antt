-- ===== src/Tracer/Numbers.antt =====
-- crates/hip-buffer-tracer/src/lib.rs: decimal numbers, and `atoi` on them.
use hrx_system_rs.Base.{
  ℕ, zero, suc, ◌/◌, ◌%◌, ◌^◌, ◌≤◌, ◌<◌, ◌≡◌, inl, inr, Bool-cases, refl, false, [], ◌∷◌, ltb,
  if◌then◌else◌, pos, arith,
}
use native.Mathlib.Numerals.{unary_clauses}
use hrx_system_rs.Tracer.Text.{
  Str, digit, digits, decimal, trim_start, strip_sign, take_digits, read_digits, parse_or_zero,
  parse_integer, negate, atoi,
}

abbrev AllDigits : Str → Type 0
AllDigits [] = Unit {0}
AllDigits (c ∷ s) = (48 ≤ c) × (c ≤ 57) × AllDigits s

digits-AllDigits : (fuel n : ℕ) (rest : Str) → AllDigits rest → AllDigits (digits 10 fuel n rest)
digits-AllDigits zero n rest h = h
digits-AllDigits (suc fuel) n rest h =
    ground (arith, digits-AllDigits fuel (n / 10) (digit (n % 10) ∷ rest))

shorter : (fuel n : ℕ) → n < 10 ^ suc fuel → n / 10 < 10 ^ fuel
shorter fuel n h = let g = simp unary_clauses at h in omega arith

read_digits-digits :
    (fuel n : ℕ) (rest : Str)
    → n < 10 ^ fuel
    → read_digits 0 (digits 10 fuel n rest) ≡ read_digits n rest
read_digits-digits zero n rest h = ground arith
read_digits-digits (suc fuel) n rest h = elim (Bool-cases (ltb n 10)) [
  | inl short ↦ ground arith
  | inr long ↦
      ground (arith, read_digits-digits fuel (n / 10) (digit (n % 10) ∷ rest) (shorter fuel n h))
]

take_digits-AllDigits : (s : Str) → AllDigits s → take_digits s ≡ s
take_digits-AllDigits [] h = refl
take_digits-AllDigits (c ∷ s) h = ground (arith, take_digits-AllDigits s)

trim_start-AllDigits : (s : Str) → AllDigits s → trim_start s ≡ s
trim_start-AllDigits [] h = refl
trim_start-AllDigits (c ∷ s) h = ground arith

strip_sign-AllDigits : (s : Str) → AllDigits s → strip_sign s ≡ (false, s)
strip_sign-AllDigits [] h = refl
strip_sign-AllDigits (c ∷ s) h = ground arith

parse_or_zero-value :
    (n : ℕ) (s : Str) → read_digits 0 s ≡ n → parse_or_zero 32 s ≡ (if ltb n (2 ^ 31) then n else 0)
parse_or_zero-value n s h = ground arith

parse_integer-value :
    (n : ℕ) (s : Str)
    → AllDigits s
    → parse_or_zero 32 s ≡ n
    → (atoi s ≡ pos n) × (atoi (45 ∷ s) ≡ negate n)
unfolding parse_integer
parse_integer-value n s all h =
    ground
      (arith, take_digits-AllDigits s all, trim_start-AllDigits s all, strip_sign-AllDigits s all)

decimal-AllDigits : (n : ℕ) → AllDigits (decimal n)
unfolding decimal
decimal-AllDigits n = digits-AllDigits 20 n [] tt

read_digits-decimal : (n : ℕ) → n < 10 ^ 20 → read_digits 0 (decimal n) ≡ n
unfolding decimal
read_digits-decimal n h = read_digits-digits 20 n [] h

-- What `{}` prints of a number is read back by `atoi` as the number when it fits an `i32`, and as 0
-- when it does not, for numbers of at most 20 digits; the same with a minus sign in front.
pub atoi-decimal :
    (n : ℕ)
    → n < 10 ^ 20
    → (atoi (decimal n) ≡ pos (if ltb n (2 ^ 31) then n else 0))
      × (atoi (45 ∷ decimal n) ≡ negate (if ltb n (2 ^ 31) then n else 0))
atoi-decimal n h =
    parse_integer-value _ (decimal n) (decimal-AllDigits n)
      (parse_or_zero-value n (decimal n) (read_digits-decimal n h))
