-- ===== src/Time/Calendar.antt =====
-- `civil_from_days` and the calendar.
use minicore_agent.Prelude.{
  ℕ, ◌+◌, ◌-◌, ◌*◌, ◌/◌, ◌%◌, ◌≤◌, ◌≡◌, refl, sym, ap, subst, ◌∙◌, ◌⊎◌, inl, inr, arith, ltb, leb,
  if◌then◌else◌,
}
use minicore_agent.Time.{Civil, is_leap, days_in_month, civil_of_era, civil_from_days}

-- The leap days of a year.
leaps : ℕ → ℕ
leaps year = if is_leap year then 1 else 0

-- The year and the day of the year, both from March on, of a day of the era of 0000-03-01.
year_of : ℕ → ℕ
year_of z =
    ((z % 146097) - (z % 146097) / 1460 + (z % 146097) / 36524 - (z % 146097) / 146096) / 365
    + z / 146097 * 400

day_of : ℕ → ℕ
day_of z =
    let d = z % 146097 in
    let y = (d - d / 1460 + d / 36524 - d / 146096) / 365 in d - (365 * y + y / 4 - y / 100)

-- The day after a date, by the lengths of months.
unfoldable pub next_date : Civil → Civil
next_date c =
    if ltb c.day (days_in_month c.year c.month)
    then record c { day = c.day + 1 }
    else if ltb c.month 12
    then record c { month = c.month + 1; day = 1 }
    else record { year = c.year + 1; month = 1; day = 1 }

-- The civil date of day `n` of the year that starts in March of `y`.
abbrev date : ℕ → ℕ → Civil
date y n =
    let mp = (5 * n + 2) / 153 in
    let month = if ltb mp 10 then mp + 3 else mp - 9 in
    record {
      year = if leb month 2 then y + 1 else y;
      month = month;
      day = n - (153 * mp + 2) / 5 + 1;
    }

within : (z : ℕ) → day_of z ≤ 364 + leaps (year_of z + 1)
unfolding day_of leaps year_of
within z = ground arith

goes_on :
    (z : ℕ)
    → ((year_of (z + 1) ≡ year_of z) × (day_of (z + 1) ≡ day_of z + 1))
      ⊎ ((year_of (z + 1) ≡ year_of z + 1) × (day_of (z + 1) ≡ 0))
unfolding day_of year_of
goes_on z = omega arith

day_before : (z : ℕ) → year_of (z + 1) ≡ year_of z + 1 → 364 + leaps (year_of z + 1) ≤ day_of z
unfolding day_of leaps year_of
day_before z h = ground (arith, h)

prime-bound : (n : ℕ) → n ≤ 365 → (5 * n + 2) / 153 ≤ 11
prime-bound n h = omega (arith, h)

leaps-bound : (y : ℕ) → leaps y ≤ 1
unfolding leaps
leaps-bound y = ground arith

next_day_0 : (y n : ℕ) → (5 * n + 2) / 153 ≡ 0 → date y (n + 1) ≡ next_date (date y n)
unfolding next_date days_in_month
next_day_0 y n e = ground (arith, e)

next_day_1 : (y n : ℕ) → (5 * n + 2) / 153 ≡ 1 → date y (n + 1) ≡ next_date (date y n)
unfolding next_date days_in_month
next_day_1 y n e = ground (arith, e)

next_day_2 : (y n : ℕ) → (5 * n + 2) / 153 ≡ 2 → date y (n + 1) ≡ next_date (date y n)
unfolding next_date days_in_month
next_day_2 y n e = ground (arith, e)

next_day_3 : (y n : ℕ) → (5 * n + 2) / 153 ≡ 3 → date y (n + 1) ≡ next_date (date y n)
unfolding next_date days_in_month
next_day_3 y n e = ground (arith, e)

next_day_4 : (y n : ℕ) → (5 * n + 2) / 153 ≡ 4 → date y (n + 1) ≡ next_date (date y n)
unfolding next_date days_in_month
next_day_4 y n e = ground (arith, e)

next_day_5 : (y n : ℕ) → (5 * n + 2) / 153 ≡ 5 → date y (n + 1) ≡ next_date (date y n)
unfolding next_date days_in_month
next_day_5 y n e = ground (arith, e)

next_day_6 : (y n : ℕ) → (5 * n + 2) / 153 ≡ 6 → date y (n + 1) ≡ next_date (date y n)
unfolding next_date days_in_month
next_day_6 y n e = ground (arith, e)

next_day_7 : (y n : ℕ) → (5 * n + 2) / 153 ≡ 7 → date y (n + 1) ≡ next_date (date y n)
unfolding next_date days_in_month
next_day_7 y n e = ground (arith, e)

next_day_8 : (y n : ℕ) → (5 * n + 2) / 153 ≡ 8 → date y (n + 1) ≡ next_date (date y n)
unfolding next_date days_in_month
next_day_8 y n e = ground (arith, e)

next_day_9 : (y n : ℕ) → (5 * n + 2) / 153 ≡ 9 → date y (n + 1) ≡ next_date (date y n)
unfolding next_date days_in_month
next_day_9 y n e = ground (arith, e)

next_day_10 : (y n : ℕ) → (5 * n + 2) / 153 ≡ 10 → date y (n + 1) ≡ next_date (date y n)
unfolding next_date days_in_month
next_day_10 y n e = ground (arith, e)

next_day_11 :
    (y n : ℕ)
    → (5 * n + 2) / 153 ≡ 11
    → n + 1 ≤ 364 + leaps (y + 1)
    → date y (n + 1) ≡ next_date (date y n)
unfolding next_date days_in_month leaps
next_day_11 y n e h = ground (arith, e, h)

low-cases : (k : ℕ) → k ≤ 5 → (k ≡ 0) ⊎ ((k ≡ 1) ⊎ ((k ≡ 2) ⊎ ((k ≡ 3) ⊎ ((k ≡ 4) ⊎ (k ≡ 5)))))
low-cases k h = omega (arith, h)

high-cases :
    (k : ℕ) → 6 ≤ k → k ≤ 11 → (k ≡ 6) ⊎ ((k ≡ 7) ⊎ ((k ≡ 8) ⊎ ((k ≡ 9) ⊎ ((k ≡ 10) ⊎ (k ≡ 11)))))
high-cases k l h = omega (arith, l, h)

halves : (k : ℕ) → (k ≤ 5) ⊎ (6 ≤ k)
halves k = omega arith

next_day : (y n : ℕ) → n + 1 ≤ 364 + leaps (y + 1) → date y (n + 1) ≡ next_date (date y n)
next_day y n h =
    let bound = prime-bound n (omega (arith, h, leaps-bound (y + 1))) in
    elim (halves ((5 * n + 2) / 153)) [
      | inl l ↦ elim (low-cases _ l) [
        | inl e ↦ next_day_0 y n e
        | inr (inl e) ↦ next_day_1 y n e
        | inr (inr (inl e)) ↦ next_day_2 y n e
        | inr (inr (inr (inl e))) ↦ next_day_3 y n e
        | inr (inr (inr (inr (inl e)))) ↦ next_day_4 y n e
        | inr (inr (inr (inr (inr e)))) ↦ next_day_5 y n e
      ]
      | inr l ↦ elim (high-cases _ l bound) [
        | inl e ↦ next_day_6 y n e
        | inr (inl e) ↦ next_day_7 y n e
        | inr (inr (inl e)) ↦ next_day_8 y n e
        | inr (inr (inr (inl e))) ↦ next_day_9 y n e
        | inr (inr (inr (inr (inl e)))) ↦ next_day_10 y n e
        | inr (inr (inr (inr (inr e)))) ↦ next_day_11 y n e h
      ]
    ]

next_year : (y n : ℕ) → n ≡ 364 + leaps (y + 1) → date (y + 1) 0 ≡ next_date (date y n)
unfolding next_date days_in_month leaps
next_year y n h = ground arith

civil-date :
    (days : ℕ) → civil_from_days days ≡ date (year_of (days + 719468)) (day_of (days + 719468))
unfolding civil_from_days civil_of_era year_of day_of
civil-date days = ground arith

room : (n m k : ℕ) → k ≡ n + 1 → k ≤ m → n + 1 ≤ m
room n m k e h = omega (arith, e, h)

exactly : (a b : ℕ) → a ≤ b → b ≤ a → a ≡ b
exactly a b h k = omega (arith, h, k)

civil_from_days-zero : civil_from_days 0 ≡ record { year = 1970; month = 1; day = 1 }
unfolding civil_from_days civil_of_era
civil_from_days-zero = refl

date-next :
    (z : ℕ) → date (year_of (z + 1)) (day_of (z + 1)) ≡ next_date (date (year_of z) (day_of z))
date-next z = elim (goes_on z) [
  | inl (y, n) ↦
      ap (λ k. date k (day_of (z + 1))) y
      ∙ ap (date (year_of z)) n
      ∙ next_day (year_of z) (day_of z) (
          room (day_of z) _ (day_of (z + 1)) n
            (subst (λ k. day_of (z + 1) ≤ 364 + leaps (k + 1)) y (within (z + 1))))
  | inr (y, n) ↦
      ap (λ k. date k (day_of (z + 1))) y
      ∙ ap (date (year_of z + 1)) n
      ∙ next_year (year_of z) (day_of z) (exactly _ _ (within z) (day_before z y))
]

-- The days count through the calendar: day 0 is 1970-01-01, and every further day is the one after
-- the day before, by the lengths of the months with their leap days.
pub civil_from_days-next :
    (days : ℕ)
    → (civil_from_days 0 ≡ record { year = 1970; month = 1; day = 1 })
      × (civil_from_days (days + 1) ≡ next_date (civil_from_days days))
civil_from_days-next days =
    let moved : days + 1 + 719468 ≡ days + 719468 + 1 = omega arith in
    (
      civil_from_days-zero,
      civil-date (days + 1)
          ∙ ap (λ z. date (year_of z) (day_of z)) moved
          ∙ date-next (days + 719468)
          ∙ ap next_date (sym (civil-date days)),
    )
