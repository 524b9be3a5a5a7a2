-- ===== src/Go/Strconv/Decimal.antt =====
-- strconv.ParseInt against strconv.FormatInt, and against the range of int64.
use cloud_provider_tencent.Base.{
  ℕ, zero, suc, ◌+◌, ◌-◌, ◌*◌, ◌/◌, ◌%◌, ◌^◌, ◌≤◌, ◌<◌, ◌≡◌, ◌∙◌, refl, ap, Bool, true, false,
  Option, none, some, [], ◌∷◌, String, ltb, leb, eqb, ℤ, pos, negsuc, if◌then◌else◌, arith,
  Bool-cases, inl, inr,
}
use cloud_provider_tencent.Go.Strconv.{
  NumError, cutoff, max_uint64, is_digit, parse_digits, parse_uint, clamp, negate, parse_int,
  format_digits, format_int,
}

digit_step :
    (n d : ℕ) (s : String)
    → d < 10
    → n * 10 + d ≤ max_uint64
    → parse_digits n ((48 + d) ∷ s) ≡ parse_digits (n * 10 + d) s
unfolding parse_digits is_digit
digit_step n d s lt le = ground arith

fewer_digits : (n k : ℕ) → n < 10 ^ suc k → n / 10 < 10 ^ k
fewer_digits n k h = omega arith

first_digit : (d : ℕ) (s : String) → d < 10 → parse_digits 0 ((48 + d) ∷ s) ≡ parse_digits d s
first_digit d s lt = digit_step 0 d s lt (omega arith) ∙ ap (λ m. parse_digits m s) (omega arith)

ltb-lt : (m n : ℕ) → ltb m n ≡ true → m < n
ltb-lt m n h = ground (arith, h)

ltb-le : (m n : ℕ) → ltb m n ≡ false → n ≤ m
ltb-le m n h = ground (arith, h)

lt-ltb : (m n : ℕ) → m < n → ltb m n ≡ true
lt-ltb m n h = ground (arith, h)

-- Printed digits in front are read as the number that they print.
parse_digits-format_digits :
    (k n : ℕ) (acc : String)
    → n < 10 ^ suc k
    → n ≤ max_uint64
    → parse_digits 0 (format_digits (suc k) n acc) ≡ parse_digits n acc
unfolding format_digits
parse_digits-format_digits zero n acc lt le =
    rw (lt-ltb n 10 (omega arith)) (first_digit n acc (omega arith))
parse_digits-format_digits (suc k) n acc lt le = elim (Bool-cases (ltb n 10)) [
  | inl small ↦ rw small (first_digit n acc (ltb-lt n 10 small))
  | inr large ↦ rw large (
      parse_digits-format_digits k (n / 10) _ (fewer_digits n (suc k) lt) (omega arith)
      ∙ digit_step (n / 10) (n % 10) acc (omega arith) (omega arith)
      ∙ ap (λ m. parse_digits m acc) (omega arith))
]

-- They start with a digit.
format_digits-cons :
    (k n : ℕ) (acc : String)
    → n < 10 ^ suc k
    → (d : ℕ) × (s : String) × (format_digits (suc k) n acc ≡ (48 + d) ∷ s) × (d < 10)
unfolding format_digits
format_digits-cons zero n acc lt = rw (lt-ltb n 10 (omega arith)) (n, acc, refl, omega arith)
format_digits-cons (suc k) n acc lt = elim (Bool-cases (ltb n 10)) [
  | inl small ↦ rw small (n, acc, refl, ltb-lt n 10 small)
  | inr large ↦ rw large (format_digits-cons k (n / 10) _ (fewer_digits n (suc k) lt))
]

-- A text that starts with a digit and is read as the number.
record Prints (n : ℕ) (s : String) : Type 0 where
  digit : ℕ
  tail : String
  starts : s ≡ (48 + digit) ∷ tail
  small : digit < 10
  reads : parse_digits 0 s ≡ (n, none)

Prints-format_digits : (n : ℕ) → n ≤ cutoff → Prints n (format_digits 20 n [])
unfolding parse_digits
Prints-format_digits n le =
    let (d, s, e, lt) = format_digits-cons 19 n [] (omega arith) in
    record {
      digit = d;
      tail = s;
      starts = e;
      small = lt;
      reads = parse_digits-format_digits 19 n [] (omega arith) (omega arith);
    }

parse_uint-Prints : (n : ℕ) (s : String) → Prints n s → parse_uint s ≡ (n, none)
unfolding parse_uint
parse_uint-Prints n [] p = absurd (nothing p.starts)
  where
    nothing : {c : ℕ} {t : String} → [] ≡ c ∷ t → ⊥
    nothing e = cc
parse_uint-Prints n (c ∷ s) p = p.reads

clamp_pos : (n : ℕ) → n < cutoff → clamp false (n, none) ≡ (pos n, none)
unfolding clamp
clamp_pos n lt = ground (arith, lt)

clamp_neg : (n : ℕ) → n < cutoff → clamp true (suc n, none) ≡ (negsuc n, none)
unfolding clamp
clamp_neg n lt = ground (arith, lt)

head_eq : {c d : ℕ} {s t : String} → c ∷ s ≡ d ∷ t → c ≡ d
head_eq e = cc

-- No sign is a digit.
byte_ne : (c sign d : ℕ) → sign < 48 → c ≡ 48 + d → eqb c sign ≡ false
byte_ne c sign d lt e = ground (arith, lt, e)

parse_int-Prints : (n : ℕ) (s : String) → n < cutoff → Prints n s → parse_int s ≡ (pos n, none)
unfolding parse_int clamp
parse_int-Prints n [] lt p = absurd (nothing p.starts)
  where
    nothing : {c : ℕ} {t : String} → [] ≡ c ∷ t → ⊥
    nothing e = cc
parse_int-Prints n (c ∷ s) lt p =
    let first : c ≡ 48 + p.digit = head_eq p.starts in
    rw
      (
        byte_ne c 43 p.digit (omega arith) first,
        byte_ne c 45 p.digit (omega arith) first,
        parse_uint-Prints n (c ∷ s) p,
      )
      (clamp_pos n lt)

parse_int-minus :
    (n : ℕ) (s : String) → n < cutoff → Prints (suc n) s → parse_int (b'-' ∷ s) ≡ (negsuc n, none)
unfolding parse_int clamp
parse_int-minus n s lt p = rw (parse_uint-Prints (suc n) s p) (clamp_neg n lt)

-- The values of an int64.
abbrev pub IsInt64 : ℤ → Type 0
IsInt64 (pos n) = n < cutoff
IsInt64 (negsuc n) = n < cutoff

pub parse_int-format_int : (i : ℤ) → IsInt64 i → parse_int (format_int i) ≡ (i, none)
unfolding format_int
parse_int-format_int (pos n) lt = parse_int-Prints n _ lt (Prints-format_digits n (omega arith))
parse_int-format_int (negsuc n) lt =
    parse_int-minus n _ lt (Prints-format_digits (suc n) (omega arith))

clamped :
    (n : ℕ)
    → let r : ℤ × Option NumError =
        if leb cutoff n then (pos (cutoff - 1), some NumError.range) else (pos n, none) in
      IsInt64 r.0
clamped n = elim (Bool-cases (leb cutoff n)) [
  | inl large ↦ rw large (omega arith)
  | inr small ↦ rw small (ground (arith, small))
]

negate-IsInt64 : (n : ℕ) → n ≤ cutoff → IsInt64 (negate n)
negate-IsInt64 zero le = omega arith
negate-IsInt64 (suc n) le = omega arith

clamped_negative :
    (n : ℕ)
    → let r : ℤ × Option NumError =
        if ltb cutoff n then (negsuc (cutoff - 1), some NumError.range) else (negate n, none) in
      IsInt64 r.0
clamped_negative n = elim (Bool-cases (ltb cutoff n)) [
  | inl large ↦ rw large (omega arith)
  | inr small ↦ rw small (negate-IsInt64 n (ltb-le cutoff n small))
]

clamp-IsInt64 : (negative : Bool) (r : ℕ × Option NumError) → IsInt64 (clamp negative r).0
unfolding clamp
clamp-IsInt64 negative (n, some NumError.syntax) = omega arith
clamp-IsInt64 true (n, some NumError.range) = clamped_negative n
clamp-IsInt64 true (n, none) = clamped_negative n
clamp-IsInt64 false (n, some NumError.range) = clamped n
clamp-IsInt64 false (n, none) = clamped n

pub parse_int-IsInt64 : (s : String) → IsInt64 (parse_int s).0
unfolding parse_int
parse_int-IsInt64 [] = omega arith
parse_int-IsInt64 (c ∷ s) = elim (Bool-cases (eqb c b'+')) [
  | inl plus ↦ rw plus (clamp-IsInt64 false (parse_uint s))
  | inr other ↦ rw other (elim (Bool-cases (eqb c b'-')) [
    | inl minus ↦ rw minus (clamp-IsInt64 true (parse_uint s))
    | inr digit ↦ rw digit (clamp-IsInt64 false (parse_uint (c ∷ s)))
  ])
]
