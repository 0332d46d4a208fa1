-- ===== src/Inputs.antt =====
-- sessions/inputs.rs: the per-session queue of accepted inputs, `QueueState` and its methods.
-- `UserInput` belongs to the runtime: its type is the parameter `I`, and what is used of it is the
-- record `UserInputApi`.
pub mod Ids
pub mod Order
pub mod Starts
pub mod World
mod Claims
pub mod Moves
pub mod Accounting
pub mod History
pub mod Push
mod Tests
pub mod Single
pub mod Invariant
pub mod Session
use minicore_agent.Prelude.{
  ℕ, zero, suc, ◌+◌, ◌-◌, ◌*◌, ◌/◌, ◌%◌, ◌^◌, ◌≤◌, ◌<◌, min, max, ◌≡◌, refl, sym, ap, subst, ◌∙◌,
  fun_ext, ◌≢◌, ◌↔◌, ◌⊎◌, inl, inr, Bool, true, false, not, ◌&&◌, ◌||◌, Option, none, some, List,
  [], ◌∷◌, ◌++◌, map, append-nil, append_assoc, arith, ltb, leb, ◌==◌, ◌==?◌, if◌then◌else◌, ltb→lt,
  lt→ltb, leb→le, ==_iff, ==_refl, Bool-cases, Option-cases, length, get_elem?, take, drop,
  is_empty, first, last, drop_last, all, filter, position, remove_at, insert_at, length-append,
  length-take, length-drop, take-append-drop, last-append_singleton, drop_last-append_singleton,
  Result, ok, err, ◌>>=◌, ◌>>◌, guard, ok_or, unwrap_or, bind_assoc, >>=-eq-ok,
}
use minicore_agent.Prelude.Bytes.{Bytes}

-- `UserInput::text` and `UserInput::as_text`.
pub record UserInputApi (I : Type 0) : Type 0 where
  pub text : Bytes → Option I
  pub as_text : I → Bytes

abbrev pub max_queued_inputs : ℕ
max_queued_inputs = 32

-- `u64::MAX + 1`
abbrev pub u64_limit : ℕ
u64_limit = 2 ^ 64

abbrev pub checked_add_u64 : ℕ → ℕ → Option ℕ
checked_add_u64 a b = if ltb (a + b) u64_limit then some (a + b) else none

pub data AgentError : Type 0 where
  session_busy session_blocked invalid_input invalid_session_settings : AgentError
  input_queue_full input_not_queued internal : AgentError

pub data InputMode : Type 0 where
  steer follow_up : InputMode

abbrev pub is_steer : InputMode → Bool
is_steer steer = true
is_steer follow_up = false

pub record QueueItem : Type 0 where
  pub id : Bytes
  pub mode : InputMode
  pub text : Bytes
  pub accepted_at : Option Bytes

pub record Queue : Type 0 where
  pub items : List QueueItem
  pub paused : Bool

pub record DeliveredInput : Type 0 where
  pub id : Bytes
  pub text : Bytes
  pub accepted_at : Option Bytes
  pub request_index : ℕ

pub record Entry (I : Type 0) : Type 0 where
  pub id : Bytes
  pub mode : InputMode
  pub input : I
  pub accepted_at : Option Bytes

-- `items` is in acceptance order.
pub record QueueState (I : Type 0) : Type 0 where
  pub items : List (Entry I)
  pub starting : Option (Entry I)
  pub paused : Bool
  pub running : Bool
  pub binding : Option ℕ
  pub generation : ℕ
  pub next_id : ℕ

module _ {I : Type 0} where
  -- `QueueState::default()`
  abbrev pub empty : QueueState I
  empty = record {
    items = [];
    starting = none;
    paused = false;
    running = false;
    binding = none;
    generation = 0;
    next_id = 0;
  }

  abbrev pub steers : Entry I → Bool
  steers e = is_steer e.mode

  abbrev pub follows : Entry I → Bool
  follows e = not (is_steer e.mode)

  -- The first steer, or else the first entry.
  unfoldable pub head : QueueState I → Option ℕ
  head q = elim (position steers q.items) [
    | some i ↦ some i
    | none ↦ if is_empty q.items then none else some 0
  ]

  -- A new generation takes the head. An index out of range, a panic, would be `internal` here.
  unfoldable pub start_head : QueueState I → Result AgentError (Option (Entry I × ℕ)) × QueueState I
  unfolding head
  start_head q = elim (head q) [
    | none ↦ (ok none, q)
    | some at ↦ elim (checked_add_u64 q.generation 1) [
      | none ↦ (err internal, q)
      | some generation ↦ elim (get_elem? q.items at) [
        | none ↦ (err internal, q)
        | some entry ↦ (
          ok (some (entry, generation)),
          record q {
            items = remove_at at q.items;
            running = true;
            generation = generation;
            binding = some generation;
            starting = some entry;
          },
        )
      ]
    ]
  ]

  -- Before every entry of its mode.
  unfoldable pub restore : QueueState I → Entry I → QueueState I
  restore q entry =
      let place : ℕ = elim entry.mode [
        | steer ↦ 0
        | follow_up ↦ unwrap_or (position follows q.items) (length q.items)
      ] in
      record q { items = insert_at place entry q.items }

  unfoldable pub end_period : QueueState I → QueueState I
  end_period q = record q { running = false; binding = none; starting = none }

  unfoldable pub take_steers : QueueState I → List (Entry I) × QueueState I
  take_steers q = (filter steers q.items, record q { items = filter follows q.items })

module _ {I : Type 0} (api : UserInputApi I) where
  unfoldable pub item : Entry I → QueueItem
  item e = record {
    id = e.id;
    mode = e.mode;
    text = api.as_text e.input;
    accepted_at = e.accepted_at;
  }

  unfoldable pub delivered : Entry I → ℕ → DeliveredInput
  delivered e request_index = record {
    id = e.id;
    text = api.as_text e.input;
    accepted_at = e.accepted_at;
    request_index = request_index;
  }

  -- Steers first, each group in acceptance order.
  unfoldable pub view : QueueState I → Queue
  unfolding item
  view q = record {
    items = map item (filter steers q.items ++ filter follows q.items);
    paused = q.paused;
  }
