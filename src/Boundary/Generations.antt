-- ===== src/Boundary/Generations.antt =====
-- A loop's boundary follows the wrappers of its own generation only.
use minicore_agent.Prelude.{
  ℕ, ◌≡◌, refl, ap, ◌∙◌, inl, inr, Bool, true, false, all, ltb, ◌+◌, Option, none, some, List, [],
  ◌∷◌, arith, ◌==◌, Bool-cases, filter,
}
use minicore_agent.Boundary.{BoundaryState, u32_limit, install, observed, issued, boundary_take}

-- What the prompt and model wrappers report: the generation they were made for and the request.
pub data Report : Type 0 where
  observes issues : (generation request_index : ℕ) → Report

abbrev pub made_for : ℕ → Report → Bool
made_for g (observes generation request_index) = generation == g
made_for g (issues generation request_index) = generation == g

unfoldable pub report : BoundaryState → Report → Option BoundaryState
report state (observes generation request_index) = some (observed state generation request_index)
report state (issues generation request_index) = issued state generation request_index

abbrev report_all_from :
    (BoundaryState → Option BoundaryState) → Option BoundaryState → Option BoundaryState
report_all_from rest none = none
report_all_from rest (some state) = rest state

unfoldable pub report_all : BoundaryState → List Report → Option BoundaryState
report_all state [] = some state
report_all state (r ∷ rs) = report_all_from (λ next. report_all next rs) (report state r)

report-foreign :
    (g : ℕ) (state : BoundaryState) (r : Report)
    → state.generation ≡ some g
    → made_for g r ≡ false
    → report state r ≡ some state
unfolding report observed issued
report-foreign g state (observes generation request_index) e h = ground (arith, e, h)
report-foreign g state (issues generation request_index) e h = ground (arith, e, h)

-- The request that a loop is at after one more report: an index and whether it was issued.
abbrev pub request_of : Report → ℕ
request_of (observes generation request_index) = request_index
request_of (issues generation request_index) = request_index + 1

-- The request that the last of the reports leads to, or the first one.
abbrev pub last_request : ℕ → List Report → ℕ
last_request at [] = at
last_request at (r ∷ rs) = last_request (request_of r) rs

-- A report whose request has a next one.
abbrev pub in_range : Report → Bool
in_range (observes generation request_index) = true
in_range (issues generation request_index) = ltb (request_index + 1) u32_limit

report-own :
    (g : ℕ) (state : BoundaryState) (r : Report)
    → state.generation ≡ some g
    → made_for g r ≡ true
    → in_range r ≡ true
    → report state r ≡ some (record { generation = some g; next = request_of r })
unfolding report observed issued
report-own g state (observes generation request_index) e h k = ground (arith, e, h, k)
report-own g state (issues generation request_index) e h k = ground (arith, e, h, k)

-- What a take joins after the reports.
abbrev pub taken_from : ℕ → Option BoundaryState → Option ℕ
taken_from g none = none
taken_from g (some next) = boundary_take next g

unfoldable pub taken_after : BoundaryState → List Report → ℕ → Option ℕ
taken_after state rs g = taken_from g (report_all state rs)

all-head : (r : Report) (rs : List Report) → all in_range (r ∷ rs) ≡ true → in_range r ≡ true
all-head r rs h = ground (arith, h)

all-tail : (r : Report) (rs : List Report) → all in_range (r ∷ rs) ≡ true → all in_range rs ≡ true
all-tail r rs h = ground (arith, h)

taken_after-last :
    (g : ℕ) (state : BoundaryState) (rs : List Report)
    → state.generation ≡ some g
    → all in_range rs ≡ true
    → taken_after state rs g ≡ some (last_request state.next (filter (made_for g) rs))
unfolding taken_after report_all boundary_take
taken_after-last g state [] e h = ground (arith, e)
taken_after-last g state (r ∷ rs) e h =
    let then_report : Option BoundaryState → Option ℕ =
      λ o. taken_from g (report_all_from (λ next. report_all next rs) o) in
    elim (Bool-cases (made_for g r)) [
      | inl own ↦ rw own (
          ap then_report (report-own g state r e own (all-head r rs h))
          ∙ taken_after-last g (record { generation = some g; next = request_of r }) rs refl
              (all-tail r rs h))
      | inr foreign ↦ rw foreign (
          ap then_report (report-foreign g state r e foreign)
          ∙ taken_after-last g state rs e (all-tail r rs h))
    ]

-- After a loop of generation `g` is installed, whatever request an earlier loop was at, a take of `g`
-- joins the request that the last report of `g` leads to: the one that it observes, or the one after
-- the one that it issues. Without such a report it is request 0, and reports made for other
-- generations, such as a wrapper of an earlier loop still makes, change nothing. No issued request is
-- the last one that a 32-bit number holds.
pub taken_after-install :
    (before : BoundaryState) (g : ℕ) (rs : List Report)
    → all in_range rs ≡ true
    → taken_after (install before g) rs g ≡ some (last_request 0 (filter (made_for g) rs))
unfolding install
taken_after-install before g rs h =
    taken_after-last g (record { generation = some g; next = 0 }) rs refl h
