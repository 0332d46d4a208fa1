-- ===== src/Inputs/Session.antt =====
-- sessions/inputs.rs: what the Session does with its queue: pushes, removals, recalls, resumes and
-- turn starts, and the parts of sessions/active_loop.rs that end a period or start a successor.
use minicore_agent.Prelude.{
  ℕ, ◌-◌, Bool, true, false, not, ◌&&◌, ◌||◌, Option, none, some, List, [], ◌∷◌, ◌++◌, map, ltb,
  leb, ◌==◌, if◌then◌else◌, length, get_elem?, is_empty, position, remove_at, Result, ok, err,
  unwrap_or, is_some,
}
use minicore_agent.Prelude.Bytes.{Bytes, bytes_eq}
use minicore_agent.Inputs.{
  UserInputApi, max_queued_inputs, u64_limit, checked_add_u64, AgentError, session_busy,
  session_blocked, invalid_input, input_queue_full, input_not_queued, internal, InputMode,
  QueueItem, Entry, QueueState, start_head, head, restore, end_period, view,
}
use minicore_agent.Inputs.Ids.{format_id}

-- The fields of `SessionInner` that the queue reads. `compaction` is the current operation, by
-- whether it is completed.
pub record SessionInner : Type 0 where
  pub blocked : Bool
  pub closing : Bool
  pub pending_compaction : Bool
  pub compaction : Option Bool
  pub max_user_input_bytes : ℕ

-- `dirty` says that the hub was told of a change.
pub record Session (I : Type 0) : Type 0 where
  pub inner : SessionInner
  pub queue : QueueState I
  pub dirty : Bool

unfoldable pub can_start : SessionInner → Bool
can_start inner =
    not inner.blocked
    && (not inner.closing && (not inner.pending_compaction && unwrap_or inner.compaction true))

-- `SessionInner::validate_install_state`, where the active loop is the one expected.
unfoldable pub validate_install_state : SessionInner → Bool → Result AgentError (Unit {0})
validate_install_state inner active_matches =
    if inner.blocked
    then err session_blocked
    else if inner.closing
        || (not active_matches
            || (inner.pending_compaction || not (unwrap_or inner.compaction true)))
    then err session_busy
    else ok tt

-- A `Claim`: the entry and the loop generation that it starts.
abbrev pub Claim : Type 0 → Type 0
Claim I = Entry I × ℕ

-- `PendingPush`, the answer to an accepted push.
pub record PendingPush (I : Type 0) : Type 0 where
  pub id : Bytes
  pub accepted_at : Option Bytes
  pub claim : Option (Claim I)

module _ {I : Type 0} where
  unfoldable pub claim_start :
      SessionInner → QueueState I → Result AgentError (Option (Claim I)) × QueueState I
  claim_start inner q =
      if q.running || (q.paused || not (can_start inner)) then (ok none, q) else start_head q

module _ {I : Type 0} where
  -- `self.mark_dirty()` with the queue that a method left.
  abbrev marked : Session I → QueueState I → Session I
  marked s q = record s { queue = q; dirty = true }

  unfoldable pub push_outcome :
      Session I
      → Entry I
      → Result AgentError (Option (Claim I)) × QueueState I
      → Result AgentError (PendingPush I) × Session I
  push_outcome s entry (err e, q) = (err e, record s { queue = q })
  push_outcome s entry (ok claim, q) =
      (ok (record { id = entry.id; accepted_at = entry.accepted_at; claim = claim }), marked s q)

  -- What `accept_input` does once the input is admitted: `entry` is the new one.
  unfoldable pub push_entry :
      Session I → Entry I → ℕ → Result AgentError (PendingPush I) × Session I
  unfolding push_outcome
  push_entry s entry next =
      let pushed : QueueState I = record s.queue {
        next_id = next;
        items = s.queue.items ++ entry ∷ [];
        paused = false;
      } in
      push_outcome s entry (claim_start s.inner pushed)

  -- The checks of `accept_input` on the queue.
  unfoldable pub admit_input :
      Session I → InputMode → I → Option Bytes → Result AgentError (PendingPush I) × Session I
  unfolding push_entry
  admit_input s mode input accepted_at =
      let q = s.queue in
      if leb max_queued_inputs (length q.items)
      then (err input_queue_full, s)
      else if not q.running && (can_start s.inner && (q.generation == u64_limit - 1))
      then (err internal, s)
      else elim (checked_add_u64 q.next_id 1) [
        | none ↦ (err internal, s)
        | some next ↦
            push_entry s
              (record {
                id = format_id next;
                mode = mode;
                input = input;
                accepted_at = accepted_at;
              })
              next
      ]

  -- `at` is `utc_timestamp().ok()`.
  unfoldable pub accept_input :
      UserInputApi I
      → Session I
      → InputMode
      → Bytes
      → Option Bytes
      → Result AgentError (PendingPush I) × Session I
  unfolding admit_input
  accept_input api s mode text at =
      let inner = s.inner in
      elim (api.text text) [
        | none ↦ (err invalid_input, s)
        | some input ↦
            if ltb inner.max_user_input_bytes (length (api.as_text input))
            then (err invalid_input, s)
            else if inner.blocked
            then (err session_blocked, s)
            else if inner.closing
            then (err session_busy, s)
            else admit_input s mode input at
      ]

  unfoldable pub remove_input :
      UserInputApi I → Session I → Bytes → Result AgentError Bytes × Session I
  remove_input api s id =
      let q = s.queue in
      elim (position (λ e. bytes_eq e.id id) q.items) [
        | none ↦ (err input_not_queued, s)
        | some at ↦ elim (get_elem? q.items at) [
          | none ↦ (err internal, s)
          | some entry ↦
              let rest = remove_at at q.items in
              (
                ok (api.as_text entry.input),
                marked s (record q { items = rest; paused = q.paused && not (is_empty rest) }),
              )
        ]
      ]

  unfoldable pub recall_inputs : UserInputApi I → Session I → List Bytes × Session I
  recall_inputs api s = (
    map (λ (i : QueueItem). i.text) (view api s.queue).items,
    marked s (record s.queue { items = []; paused = false }),
  )

  unfoldable pub resume_outcome :
      Session I
      → Result AgentError (Option (Claim I)) × QueueState I
      → Result AgentError (Option (Claim I)) × Session I
  resume_outcome s (err e, q) = (err e, record s { queue = q })
  resume_outcome s (ok none, q) =
      (ok none, record s { queue = q; dirty = s.dirty || s.queue.paused })
  resume_outcome s (ok (some claim), q) = (ok (some claim), marked s q)

  unfoldable pub accept_resume : Session I → Result AgentError (Option (Claim I)) × Session I
  unfolding resume_outcome
  accept_resume s =
      let q = s.queue in
      if s.inner.blocked
      then (err session_blocked, s)
      else if not q.running
          && (not (is_empty q.items) && (can_start s.inner && (q.generation == u64_limit - 1)))
      then (err internal, s)
      else resume_outcome s (claim_start s.inner (record q { paused = false }))

  -- A claim that did not start a turn: `failed` pauses, `occupied` and a plain drop do not.
  unfoldable pub abandon_claim : Session I → Entry I → Bool → Session I
  abandon_claim s entry pause =
      let q = end_period (restore s.queue entry) in
      marked s (record q { paused = q.paused || pause })

  unfoldable pub compaction_outcome :
      Session I → Result AgentError (Option (Claim I)) × QueueState I → Option (Claim I) × Session I
  compaction_outcome s (err e, q) = (none, marked s (record q { paused = true }))
  compaction_outcome s (ok none, q) = (none, record s { queue = q })
  compaction_outcome s (ok (some claim), q) = (some claim, marked s q)

  -- The claim that `start_after_compaction` makes.
  unfoldable pub claim_after_compaction : Session I → Option (Claim I) × Session I
  unfolding compaction_outcome
  claim_after_compaction s = compaction_outcome s (claim_start s.inner s.queue)

  -- `complete_turn`: whether the period goes on, and the queue if it does not. `eligible` says that
  -- the turn completed and was persisted.
  unfoldable pub complete_turn : Session I → Bool → Bool × Session I
  complete_turn s eligible =
      let q = s.queue in
      let continue_period = eligible && (not s.inner.closing && is_some (head q)) in
      if continue_period then (true, s) else (
        false,
        record s {
          queue =
              end_period
                (record q { paused = q.paused || (not eligible && not (is_empty q.items)) });
        },
      )

  unfoldable pub successor_outcome :
      Session I → Result AgentError (Option (Claim I)) × QueueState I → Option (Claim I) × Session I
  successor_outcome s (err e, q) = (none, marked s (end_period (record q { paused = true })))
  successor_outcome s (ok none, q) = (none, marked s (end_period q))
  successor_outcome s (ok (some claim), q) = (some claim, marked s q)

  -- `start_successor`: the claim of the next entry, or the end of the period.
  unfoldable pub claim_successor : Session I → Option (Claim I) × Session I
  unfolding successor_outcome
  claim_successor s =
      let q = s.queue in
      if s.inner.closing
      then (none, marked s (end_period (record q { paused = q.paused || not (is_empty q.items) })))
      else successor_outcome s (start_head q)

  -- `publish_internal`: the turn's driver failed.
  unfoldable pub publish_internal : Session I → Session I
  publish_internal s =
      let q = s.queue in
      record s {
        inner = record s.inner { blocked = true };
        queue = end_period (record q { paused = q.paused || not (is_empty q.items) });
        dirty = true;
      }

  -- The queue part of `install_loop_with_boundary`.
  unfoldable pub install_loop : Session I → Session I
  install_loop s = marked s (record s.queue { starting = none })

  unfoldable pub begin_close : Session I → Result AgentError (Unit {0}) × Session I
  begin_close s =
      if not (is_empty s.queue.items) || is_some s.queue.starting
      then (err session_busy, s)
      else (ok tt, record s { inner = record s.inner { closing = true }; dirty = true })
