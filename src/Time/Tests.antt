-- ===== src/Time/Tests.antt =====
-- Dates at concrete days.
use minicore_agent.Prelude.{◌+◌, ◌/◌, ◌<◌, ◌≡◌, refl, true, arith}
use minicore_agent.Time.{civil_of_era, civil_from_days}
use minicore_agent.Time.Calendar.{next_date, civil_from_days-next}
use minicore_agent.Prelude.Bytes.{codes}
use minicore_agent.Time.Stamps.{format_rfc3339_millis, valid_timestamp}
use minicore_agent.Time.Formats.{format_rfc3339_millis-valid}

leap_day : civil_from_days 19782 ≡ record { year = 2024; month = 2; day = 29 }
unfolding civil_from_days civil_of_era
leap_day = refl

civil_from_days-next_example :
    (civil_from_days 0 ≡ record { year = 1970; month = 1; day = 1 })
    × (civil_from_days (19782 + 1) ≡ next_date (civil_from_days 19782))
civil_from_days-next_example = civil_from_days-next 19782

leap_day_shown : format_rfc3339_millis 951782400 5 ≡ codes "2000-02-29T00:00:00.005Z"
unfolding format_rfc3339_millis civil_from_days civil_of_era
leap_day_shown = refl

leap_day_year : (civil_from_days (951782400 / 86400)).year < 10000
unfolding civil_from_days civil_of_era
leap_day_year = omega arith

format_rfc3339_millis-valid_example : valid_timestamp (format_rfc3339_millis 951782400 5) ≡ true
format_rfc3339_millis-valid_example =
    format_rfc3339_millis-valid 951782400 5 (omega arith) leap_day_year (omega arith)
