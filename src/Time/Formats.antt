-- ===== src/Time/Formats.antt =====
-- A timestamp that is formatted passes the test of timestamps.
use minicore_agent.Prelude.{
  ℕ, zero, suc, ◌+◌, ◌*◌, ◌/◌, ◌%◌, ◌^◌, ◌≤◌, ◌<◌, ◌≡◌, refl, sym, ap, subst, ◌∙◌, inl, inr, Bool,
  true, false, ◌&&◌, Option, none, some, [], ◌∷◌, arith, ltb, ◌==◌, ltb→lt, lt→ltb, Bool-cases,
  last, all,
}
use minicore_agent.Prelude.Bytes.{Bytes}
use minicore_agent.Unified.Text.{is_digit, is_decimal, parse_usize, decimal}
use minicore_agent.Time.{Civil, days_in_month, civil_from_days}
use minicore_agent.Time.Calendar.{next_date, civil_from_days-next}
use minicore_agent.Time.Stamps.{
  pad, format_rfc3339_millis, parse_u32, skip_fraction, valid_zone, valid_fields, valid_numbers,
  valid_timestamp,
}

abbrev pub IsDate : Civil → Type 0
IsDate c =
    (1 ≤ c.month)
    × (c.month ≤ 12)
    × (1 ≤ c.day)
    × (c.day ≤ days_in_month c.year c.month)
    × (1970 ≤ c.year)

lt-next : (a b : ℕ) → a < b → a + 1 ≤ b
lt-next a b h = omega (arith, h)

days_in_month-positive : (year month : ℕ) → 1 ≤ month → month ≤ 12 → 1 ≤ days_in_month year month
unfolding days_in_month
days_in_month-positive year month a b = ground (arith, a, b)

next_date-IsDate : (c : Civil) → IsDate c → IsDate (next_date c)
unfolding next_date
next_date-IsDate c (a, b, d, e, f) = elim (Bool-cases (ltb c.day (days_in_month c.year c.month))) [
  | inl more ↦ rw more (
    a,
    b,
    omega arith,
    lt-next c.day (days_in_month c.year c.month) (ltb→lt c.day (days_in_month c.year c.month) more),
    f,
  )
  | inr last ↦ rw last (elim (Bool-cases (ltb c.month 12)) [
    | inl within ↦ rw within (
      omega arith,
      ground (arith, within),
      omega arith,
      days_in_month-positive c.year (c.month + 1) (omega arith) (ground (arith, within)),
      f,
    )
    | inr december ↦ rw december (
      omega arith,
      omega arith,
      omega arith,
      days_in_month-positive (c.year + 1) 1 (omega arith) (omega arith),
      omega (arith, f),
    )
  ])
]

first-IsDate : IsDate (record { year = 1970; month = 1; day = 1 })
unfolding days_in_month
first-IsDate = (omega arith, omega arith, omega arith, omega arith, omega arith)

civil_from_days-IsDate : (days : ℕ) → IsDate (civil_from_days days)
civil_from_days-IsDate zero = subst IsDate (sym ((civil_from_days-next 0).0)) first-IsDate
civil_from_days-IsDate (suc days) =
    let one : days + 1 ≡ suc days = omega arith in
    subst (λ n. IsDate (civil_from_days n)) one
      (subst IsDate (sym ((civil_from_days-next days).1))
        (next_date-IsDate (civil_from_days days) (civil_from_days-IsDate days)))

pad-two : (n : ℕ) → n < 100 → pad 20 2 n ≡ (b'0' + n / 10) ∷ (b'0' + n % 10) ∷ []
pad-two n h =
    let z : (n / 10 / 10 == 0) ≡ true = ground (arith, h) in
    let d : n / 10 % 10 ≡ n / 10 = omega (arith, h) in rw (z, d) refl

pad-three :
    (n : ℕ) → n < 1000 → pad 20 3 n ≡ (b'0' + n / 100) ∷ (b'0' + n / 10 % 10) ∷ (b'0' + n % 10) ∷ []
pad-three n h =
    let z : (n / 10 / 10 / 10 == 0) ≡ true = ground (arith, h) in
    let d : n / 10 / 10 % 10 ≡ n / 100 = omega (arith, h) in rw (z, d) refl

pad-four :
    (n : ℕ)
    → n < 10000
    → pad 20 4 n
      ≡ (b'0' + n / 1000) ∷ (b'0' + n / 100 % 10) ∷ (b'0' + n / 10 % 10) ∷ (b'0' + n % 10) ∷ []
pad-four n h =
    let z : (n / 10 / 10 / 10 / 10 == 0) ≡ true = ground (arith, h) in
    let d : n / 10 / 10 / 10 % 10 ≡ n / 1000 = omega (arith, h) in
    let e : n / 10 / 10 % 10 ≡ n / 100 % 10 = omega arith in rw (z, d, e) refl

-- Digits at their places.
and-true : (a b : Bool) → a ≡ true → b ≡ true → (a && b) ≡ true
and-true true b p q = q
and-true false b p q = cc

two_digits : (a b : ℕ) → a < 10 → b < 10 → all is_digit ((b'0' + a) ∷ (b'0' + b) ∷ []) ≡ true
two_digits a b p q = ground (arith, p, q)

four_digits :
    (a b c d : ℕ)
    → a < 10
    → b < 10
    → c < 10
    → d < 10
    → all is_digit ((b'0' + a) ∷ (b'0' + b) ∷ (b'0' + c) ∷ (b'0' + d) ∷ []) ≡ true
four_digits a b c d p q r s = ground (arith, p, q, r, s)

number-two :
    (a b : ℕ) → a < 10 → b < 10 → parse_u32 ((b'0' + a) ∷ (b'0' + b) ∷ []) ≡ some (a * 10 + b)
unfolding parse_usize is_decimal decimal
number-two a b p q = ground (arith, p, q)

number-four :
    (a b c d : ℕ)
    → a < 10
    → b < 10
    → c < 10
    → d < 10
    → parse_u32 ((b'0' + a) ∷ (b'0' + b) ∷ (b'0' + c) ∷ (b'0' + d) ∷ [])
      ≡ some (a * 1000 + b * 100 + c * 10 + d)
unfolding parse_usize is_decimal decimal
number-four a b c d p q r s = ground (arith, p, q, r, s)

fraction :
    (a b c : ℕ)
    → a < 10
    → b < 10
    → c < 10
    → skip_fraction (b'.' ∷ (b'0' + a) ∷ (b'0' + b) ∷ (b'0' + c) ∷ b'Z' ∷ []) ≡ some (b'Z' ∷ [])
fraction a b c p q r = ground (arith, p, q, r)

-- A timestamp of fields of their width.
abbrev stamp : (y m d h i s f : ℕ) → Bytes
stamp y m d h i s f =
    (b'0' + y / 1000)
    ∷ (b'0' + y / 100 % 10)
    ∷ (b'0' + y / 10 % 10)
    ∷ (b'0' + y % 10)
    ∷ b'-'
    ∷ (b'0' + m / 10)
    ∷ (b'0' + m % 10)
    ∷ b'-'
    ∷ (b'0' + d / 10)
    ∷ (b'0' + d % 10)
    ∷ b'T'
    ∷ (b'0' + h / 10)
    ∷ (b'0' + h % 10)
    ∷ b':'
    ∷ (b'0' + i / 10)
    ∷ (b'0' + i % 10)
    ∷ b':'
    ∷ (b'0' + s / 10)
    ∷ (b'0' + s % 10)
    ∷ b'.'
    ∷ (b'0' + f / 100)
    ∷ (b'0' + f / 10 % 10)
    ∷ (b'0' + f % 10)
    ∷ b'Z'
    ∷ []

tens : (n : ℕ) → n < 100 → n / 10 < 10
tens n h = omega (arith, h)

ones : (n : ℕ) → n % 10 < 10
ones n = omega arith

two-number : (n : ℕ) → n < 100 → parse_u32 ((b'0' + n / 10) ∷ (b'0' + n % 10) ∷ []) ≡ some n
two-number n h =
    let same : n / 10 * 10 + n % 10 ≡ n = omega arith in
    number-two (n / 10) (n % 10) (tens n h) (ones n) ∙ ap some same

four-number :
    (n : ℕ)
    → n < 10000
    → parse_u32
        ((b'0' + n / 1000) ∷ (b'0' + n / 100 % 10) ∷ (b'0' + n / 10 % 10) ∷ (b'0' + n % 10) ∷ [])
      ≡ some n
four-number n h =
    let same : n / 1000 * 1000 + n / 100 % 10 * 100 + n / 10 % 10 * 10 + n % 10 ≡ n =
      omega (arith, h) in
    number-four (n / 1000) (n / 100 % 10) (n / 10 % 10) (n % 10) (omega (arith, h)) (omega arith)
      (omega arith) (ones n)
    ∙ ap some same

two-digits : (n : ℕ) → n < 100 → all is_digit ((b'0' + n / 10) ∷ (b'0' + n % 10) ∷ []) ≡ true
two-digits n h = two_digits (n / 10) (n % 10) (tens n h) (ones n)

four-digits :
    (n : ℕ)
    → n < 10000
    → all is_digit
        ((b'0' + n / 1000) ∷ (b'0' + n / 100 % 10) ∷ (b'0' + n / 10 % 10) ∷ (b'0' + n % 10) ∷ [])
      ≡ true
four-digits n h =
    four_digits (n / 1000) (n / 100 % 10) (n / 10 % 10) (n % 10) (omega (arith, h)) (omega arith)
      (omega arith) (ones n)

valid_numbers-some :
    (y m d h i s : ℕ) {a b c e f g : Option ℕ}
    → a ≡ some y
    → b ≡ some m
    → c ≡ some d
    → e ≡ some h
    → f ≡ some i
    → g ≡ some s
    → valid_fields y m d h i s ≡ true
    → valid_numbers a b c e f g ≡ true
valid_numbers-some y m d h i s p q r t u v valid = rw (p, q, r, t, u, v) valid

valid_rest-fraction :
    (a b c : ℕ)
    → a < 10
    → b < 10
    → c < 10
    → elim (skip_fraction (b'.' ∷ (b'0' + a) ∷ (b'0' + b) ∷ (b'0' + c) ∷ b'Z' ∷ []))
        as (λ x. Bool) [ none ↦ false | some rest ↦ valid_zone rest ]
      ≡ true
valid_rest-fraction a b c p q r = rw (fraction a b c p q r) refl

stamp-valid :
    (y m d h i s f : ℕ)
    → y < 10000
    → m < 100
    → d < 100
    → h < 100
    → i < 100
    → s < 100
    → f < 1000
    → valid_fields y m d h i s ≡ true
    → valid_timestamp (stamp y m d h i s f) ≡ true
unfolding valid_timestamp
stamp-valid y m d h i s f ly lm ld lh li ls lf valid =
    let numbers =
      valid_numbers-some y m d h i s (four-number y ly) (two-number m lm) (two-number d ld)
        (two-number h lh) (two-number i li) (two-number s ls) valid in
    let shape =
      and-true _ _
        (and-true _ _
          (and-true _ _
            (and-true _ _ (and-true _ _ (four-digits y ly) (two-digits m lm)) (two-digits d ld))
            (two-digits h lh))
          (two-digits i li))
        (two-digits s ls) in
    and-true _ _ (and-true _ _ shape numbers) (
      valid_rest-fraction (f / 100) (f / 10 % 10) (f % 10) (omega (arith, lf)) (omega arith)
        (ones f))

-- The fields of a time of day.
fields-valid :
    (c : Civil) (seconds : ℕ)
    → IsDate c
    → seconds < 86400
    → valid_fields c.year c.month c.day (seconds / 3600) (seconds % 3600 / 60) (seconds % 60) ≡ true
fields-valid c seconds (a, b, d, e, f) l = ground (arith, a, b, d, e, f, l)

day-bound : (year month : ℕ) → days_in_month year month ≤ 31
unfolding days_in_month
day-bound year month = ground arith

-- A time that is formatted, of a year of four digits, passes the test of timestamps: its date is a day of
-- the calendar.
pub format_rfc3339_millis-valid :
    (total_seconds millis : ℕ)
    → total_seconds < 2 ^ 63
    → (civil_from_days (total_seconds / 86400)).year < 10000
    → millis < 1000
    → valid_timestamp (format_rfc3339_millis total_seconds millis) ≡ true
unfolding format_rfc3339_millis
format_rfc3339_millis-valid total_seconds millis l y f =
    let c = civil_from_days (total_seconds / 86400) in
    let (a, b, d, e, g) = civil_from_days-IsDate (total_seconds / 86400) in
    let seconds = total_seconds % 86400 in
    let small : ltb total_seconds (2 ^ 63) ≡ true = lt→ltb total_seconds (2 ^ 63) l in
    let lm : c.month < 100 = omega (arith, b) in
    let ld : c.day < 100 = omega (arith, e, day-bound c.year c.month) in
    let lh : seconds / 3600 < 100 = omega arith in
    let li : seconds % 3600 / 60 < 100 = omega arith in
    let ls : seconds % 60 < 100 = omega arith in
    rw small (
      rw
        (
          pad-four c.year y,
          pad-two c.month lm,
          pad-two c.day ld,
          pad-two (seconds / 3600) lh,
          pad-two (seconds % 3600 / 60) li,
          pad-two (seconds % 60) ls,
          pad-three millis f,
        )
        (stamp-valid c.year c.month c.day (seconds / 3600) (seconds % 3600 / 60) (seconds % 60)
          millis y lm ld lh li ls f (fields-valid c seconds (a, b, d, e, g) (omega arith))))
