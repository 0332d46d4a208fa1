-- ===== src/Boundary.antt =====
-- src/sessions/boundary.rs: the request boundary that a delivered input belongs to. A panic is `none`.
pub mod Generations
mod Tests
use minicore_agent.Prelude.{
  ℕ, zero, suc, ◌+◌, ◌-◌, ◌*◌, ◌/◌, ◌%◌, ◌^◌, ◌≤◌, ◌<◌, min, max, ◌≡◌, refl, sym, ap, subst, ◌∙◌,
  fun_ext, ◌≢◌, ◌↔◌, ◌⊎◌, inl, inr, Bool, true, false, not, ◌&&◌, ◌||◌, Option, none, some, List,
  [], ◌∷◌, ◌++◌, map, append-nil, append_assoc, arith, ltb, leb, ◌==◌, ◌==?◌, bool_eq,
  if◌then◌else◌, ltb→lt, lt→ltb, leb→le, ==_iff, ==_refl, Bool-cases, Option-cases, length,
  get_elem?, take, drop, is_empty, first, last, drop_last, all, filter, position, remove_at,
  insert_at, length-append, length-take, length-drop, take-append-drop, last-append_singleton,
  drop_last-append_singleton, last-eq-some, Result, ok, err, ◌>>=◌, ◌>>◌, guard, ok_or, unwrap_or,
  is_some, bind_assoc, >>=-eq-ok, ok_or->>=-eq-ok, guard->>=-eq-ok, reject-eq-ok, ok-injective,
}

-- `u32::MAX + 1`
abbrev pub u32_limit : ℕ
u32_limit = 2 ^ 32

pub record BoundaryState : Type 0 where
  pub generation : Option ℕ
  pub next : ℕ

abbrev pub boundary_default : BoundaryState
boundary_default = record { generation = none; next = 0 }

unfoldable pub install : BoundaryState → ℕ → BoundaryState
install state generation = record { generation = some generation; next = 0 }

unfoldable pub observed : BoundaryState → ℕ → ℕ → BoundaryState
observed state generation request_index =
    if not (state.generation ==? generation) then state else record state { next = request_index }

unfoldable pub issued : BoundaryState → ℕ → ℕ → Option BoundaryState
issued state generation request_index =
    if state.generation ==? generation
    then (if ltb (request_index + 1) u32_limit
        then some (record state { next = request_index + 1 })
        else none)
    else some state

-- `take`, whose assertion fails for a generation that is not installed.
unfoldable pub boundary_take : BoundaryState → ℕ → Option ℕ
boundary_take state generation = if state.generation ==? generation then some state.next else none
