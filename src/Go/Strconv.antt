-- ===== src/Go/Strconv.antt =====
-- strconv.ParseInt(s, 10, 64) and strconv.FormatInt(i, 10).
pub mod Decimal
use cloud_provider_tencent.Base.{
  ℕ, zero, suc, ◌+◌, ◌-◌, ◌*◌, ◌/◌, ◌%◌, Bool, true, false, ◌&&◌, Option, none, some, [], ◌∷◌,
  String, ltb, leb, eqb, ℤ, pos, negsuc, if◌then◌else◌,
}

-- The two errors that a NumError carries.
pub data NumError : Type 0 where
  syntax range : NumError

-- 2^63, and the largest uint64.
abbrev pub cutoff : ℕ
cutoff = 9223372036854775808

abbrev pub max_uint64 : ℕ
max_uint64 = 18446744073709551615

unfoldable pub is_digit : ℕ → Bool
is_digit c = leb 48 c && leb c 57

-- The loop of ParseUint: it stops at the first byte that is no digit or that leaves the range.
unfoldable pub parse_digits : ℕ → String → ℕ × Option NumError
parse_digits n [] = (n, none)
parse_digits n (c ∷ s) =
    let rest = parse_digits (n * 10 + (c - 48)) s in
    if is_digit c
    then if ltb max_uint64 (n * 10 + (c - 48)) then (max_uint64, some range) else rest
    else (0, some syntax)

unfoldable pub parse_uint : String → ℕ × Option NumError
unfolding parse_digits is_digit
parse_uint [] = (0, some syntax)
parse_uint (c ∷ s) = parse_digits 0 (c ∷ s)

-- -n
abbrev pub negate : ℕ → ℤ
negate zero = pos zero
negate (suc n) = negsuc n

-- The clamp to int64 behind ParseUint.
unfoldable pub clamp : Bool → ℕ × Option NumError → ℤ × Option NumError
clamp negative (n, some syntax) = (pos 0, some syntax)
clamp true (n, e) = if ltb cutoff n then (negsuc (cutoff - 1), some range) else (negate n, none)
clamp false (n, e) = if leb cutoff n then (pos (cutoff - 1), some range) else (pos n, none)

unfoldable pub parse_int : String → ℤ × Option NumError
unfolding clamp parse_uint
parse_int [] = (pos 0, some syntax)
parse_int (c ∷ s) =
    if eqb c b'+'
    then clamp false (parse_uint s)
    else if eqb c b'-'
    then clamp true (parse_uint s)
    else clamp false (parse_uint (c ∷ s))

-- The digits of `n` in front of `acc`; 20 rounds are enough for an int64.
unfoldable pub format_digits : ℕ → ℕ → String → String
format_digits zero n acc = acc
format_digits (suc fuel) n acc =
    let rest = format_digits fuel (n / 10) ((48 + n % 10) ∷ acc) in
    if ltb n 10 then (48 + n) ∷ acc else rest

unfoldable pub format_int : ℤ → String
unfolding format_digits
format_int (pos n) = format_digits 20 n []
format_int (negsuc n) = b'-' ∷ format_digits 20 (suc n) []
