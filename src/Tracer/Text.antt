-- ===== src/Tracer/Text.antt =====
-- crates/hip-buffer-tracer/src/lib.rs: text and numbers. A string is the list of its characters, which
-- are code points.
use hrx_system_rs.Base.{
  ℕ, zero, suc, ◌+◌, ◌-◌, ◌*◌, ◌/◌, ◌%◌, ◌^◌, Bool, true, false, ◌&&◌, ◌||◌, List, [], ◌∷◌, ltb,
  leb, ◌==◌, if◌then◌else◌, ℤ, pos, negsuc,
}
use hrx_system_rs.Hal.{is_null}

abbrev pub Str : Type 0
Str = List ℕ

-- `str::contains` and what it stands on.
abbrev pub starts_with : Str → Str → Bool
starts_with s [] = true
starts_with [] (c ∷ token) = false
starts_with (d ∷ s) (c ∷ token) = (d == c) && starts_with s token

abbrev pub contains : Str → Str → Bool
contains [] token = starts_with [] token
contains (c ∷ s) token = starts_with (c ∷ s) token || contains s token

abbrev pub is_empty : Str → Bool
is_empty [] = true
is_empty (c ∷ s) = false

-- `str::split(c)`: the pieces between the separators, at least one.
abbrev extend_first : ℕ → List Str → List Str
extend_first c [] = (c ∷ []) ∷ []
extend_first c (piece ∷ pieces) = (c ∷ piece) ∷ pieces

abbrev pub split : Str → ℕ → List Str
split [] separator = [] ∷ []
split (c ∷ s) separator =
    if c == separator then [] ∷ split s separator else extend_first c (split s separator)

-- A digit as `{:x}` and `{}` print it.
abbrev pub digit : ℕ → ℕ
digit n = if ltb n 10 then n + 48 else n + 87

-- The digits of n in a base, from the most significant one, before the digits in `rest`. The fuel is
-- the number of digits of the widest word: 16 for hexadecimal, 20 for decimal.
abbrev pub digits : ℕ → ℕ → ℕ → Str → Str
digits base zero n rest = rest
digits base (suc fuel) n rest =
    let longer = digits base fuel (n / base) (digit (n % base) ∷ rest) in
    if ltb n base then digit n ∷ rest else longer

abbrev pub hex : ℕ → Str
hex n = digits 16 16 n []

unfoldable pub decimal : ℕ → Str
decimal n = digits 10 20 n []

-- `{:02x}` of a byte.
abbrev pub hex_byte : ℕ → Str
hex_byte b = digit (b / 16 % 16) ∷ digit (b % 16) ∷ []

-- `p`: "(nil)" or a hexadecimal address.
unfoldable pub p : ℕ → Str
p ptr = if is_null ptr then 40 ∷ 110 ∷ 105 ∷ 108 ∷ 41 ∷ [] else 48 ∷ 120 ∷ hex ptr

-- The characters with Unicode's White_Space property.
abbrev is_whitespace : ℕ → Bool
is_whitespace c =
    (leb 9 c && leb c 13)
    || (c == 32)
    || (c == 133)
    || (c == 160)
    || (c == 5760)
    || (leb 8192 c && leb c 8202)
    || (c == 8232)
    || (c == 8233)
    || (c == 8239)
    || (c == 8287)
    || (c == 12288)

abbrev pub trim_start : Str → Str
trim_start [] = []
trim_start (c ∷ s) = if is_whitespace c then trim_start s else c ∷ s

-- Whether there is a minus sign, and the text after the sign.
abbrev pub strip_sign : Str → Bool × Str
strip_sign [] = (false, [])
strip_sign (c ∷ s) = if c == 45 then (true, s) else if c == 43 then (false, s) else (false, c ∷ s)

abbrev pub is_ascii_digit : ℕ → Bool
is_ascii_digit c = leb 48 c && leb c 57

abbrev pub take_digits : Str → Str
take_digits [] = []
take_digits (c ∷ s) = if is_ascii_digit c then c ∷ take_digits s else []

-- The number that the digits write, after those read so far.
abbrev pub read_digits : ℕ → Str → ℕ
read_digits n [] = n
read_digits n (c ∷ s) = read_digits (n * 10 + (c - 48)) s

-- `parse().unwrap_or(0)`: the empty string and a number that does not fit are errors.
abbrev pub parse_or_zero : ℕ → Str → ℕ
parse_or_zero width s = let n = read_digits 0 s in if ltb n (2 ^ (width - 1)) then n else 0

abbrev pub negate : ℕ → ℤ
negate zero = pos 0
negate (suc n) = negsuc n

abbrev signed : Bool → ℕ → ℤ
signed true n = negate n
signed false n = pos n

unfoldable pub parse_integer : ℕ → Str → ℤ
parse_integer width s =
    let r = strip_sign (trim_start s) in signed r.0 (parse_or_zero width (take_digits r.1))

abbrev pub atoi : Str → ℤ
atoi s = parse_integer 32 s

abbrev pub atol : Str → ℤ
atol s = parse_integer 64 s
