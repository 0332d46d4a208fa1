-- ===== src/Boundary/Tests.antt =====
-- A loop's boundary at concrete reports.
use minicore_agent.Prelude.{◌≡◌, refl, some, List, [], ◌∷◌, filter}
use minicore_agent.Boundary.{boundary_default, install, observed, issued}
use minicore_agent.Boundary.Generations.{
  Report, observes, issues, made_for, report, report_all, last_request, taken_after,
  taken_after-install,
}

-- The loop of generation 1 was replaced; its prompt still reports.
abbrev reports : List Report
reports = observes 2 0 ∷ observes 1 7 ∷ issues 2 0 ∷ observes 1 8 ∷ []

joins_second :
    report_all (install boundary_default 2) reports
    ≡ some (record { generation = some 2; next = 1 })
unfolding report_all report observed issued install
joins_second = refl

taken_after-install_example :
    taken_after (install boundary_default 2) reports 2
    ≡ some (last_request 0 (filter (made_for 2) reports))
taken_after-install_example = taken_after-install boundary_default 2 reports refl
