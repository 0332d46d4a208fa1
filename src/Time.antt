-- ===== src/Time.antt =====
-- src/store/time.rs: the civil calendar. Days are not negative, since they count from 1970.
pub mod Calendar
pub mod Stamps
pub mod Formats
mod Tests
use minicore_agent.Prelude.{
  ℕ, zero, suc, ◌+◌, ◌-◌, ◌*◌, ◌/◌, ◌%◌, ◌^◌, ◌≤◌, ◌<◌, min, max, ◌≡◌, refl, sym, ap, subst, ◌∙◌,
  fun_ext, ◌≢◌, ◌↔◌, ◌⊎◌, inl, inr, Bool, true, false, not, ◌&&◌, ◌||◌, Option, none, some, List,
  [], ◌∷◌, ◌++◌, map, append-nil, append_assoc, arith, ltb, leb, ◌==◌, ◌==?◌, bool_eq,
  if◌then◌else◌, ltb→lt, lt→ltb, leb→le, ==_iff, ==_refl, Bool-cases, Option-cases, length,
  get_elem?, take, drop, is_empty, first, last, drop_last, all, filter, position, remove_at,
  insert_at, length-append, length-take, length-drop, take-append-drop, last-append_singleton,
  drop_last-append_singleton, last-eq-some, Result, ok, err, ◌>>=◌, ◌>>◌, guard, ok_or, unwrap_or,
  is_some, bind_assoc, >>=-eq-ok, ok_or->>=-eq-ok, guard->>=-eq-ok, reject-eq-ok, ok-injective,
}

pub record Civil : Type 0 where
  pub year : ℕ
  pub month : ℕ
  pub day : ℕ

abbrev pub is_leap : ℕ → Bool
is_leap year = (year % 400 == 0) || ((year % 4 == 0) && not (year % 100 == 0))

unfoldable pub days_in_month : ℕ → ℕ → ℕ
days_in_month year month =
    if (month == 1)
      || ((month == 3)
          || ((month == 5) || ((month == 7) || ((month == 8) || ((month == 10) || (month == 12))))))
    then 31
    else if (month == 4) || ((month == 6) || ((month == 9) || (month == 11)))
    then 30
    else if month == 2
    then (if is_leap year then 29 else 28)
    else 0

-- `civil_from_days` after the era: the year of the era, the month and the day of a day of the era.
unfoldable pub civil_of_era : ℕ → Civil
civil_of_era day_of_era =
    let year_of_era =
      (day_of_era - day_of_era / 1460 + day_of_era / 36524 - day_of_era / 146096) / 365 in
    let day_of_year = day_of_era - (365 * year_of_era + year_of_era / 4 - year_of_era / 100) in
    let month_prime = (5 * day_of_year + 2) / 153 in
    let month = if ltb month_prime 10 then month_prime + 3 else month_prime - 9 in
    record {
      year = if leb month 2 then year_of_era + 1 else year_of_era;
      month = month;
      day = day_of_year - (153 * month_prime + 2) / 5 + 1;
    }

unfoldable pub civil_from_days : ℕ → Civil
civil_from_days days =
    let z = days + 719468 in
    let civil = civil_of_era (z % 146097) in record civil { year = civil.year + z / 146097 * 400 }
