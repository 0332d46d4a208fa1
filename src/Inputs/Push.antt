-- ===== src/Inputs/Push.antt =====
-- What a refused push and a recall leave behind.
use minicore_agent.Prelude.{
  ℕ, ◌+◌, ◌-◌, ◌<◌, ◌≡◌, refl, ◌≢◌, inl, inr, Bool, false, not, ◌&&◌, Option, arith, ◌==◌,
  Option-cases, Result, ok, err,
}
use minicore_agent.Prelude.Bytes.{Bytes}
use minicore_agent.Inputs.{UserInputApi, AgentError, InputMode, Entry, QueueState, u64_limit}
use minicore_agent.Inputs.Ids.{format_id}
use minicore_agent.Inputs.Order.{start_head-cases}
use minicore_agent.Inputs.Session.{
  Session, can_start, claim_start, push_outcome, push_entry, admit_input, accept_input,
}

module _ {I : Type 0} where
  -- The test that `accept_input` makes before it queues anything.
  abbrev exhausted : Session I → Bool
  exhausted s = not s.queue.running && (can_start s.inner && (s.queue.generation == u64_limit - 1))

  claim_start-ok :
      (s : Session I) (q : QueueState I) (x : AgentError)
      → q.running ≡ s.queue.running
      → q.generation ≡ s.queue.generation
      → s.queue.generation < u64_limit
      → exhausted s ≡ false
      → (claim_start s.inner q).0 ≢ err x
  unfolding claim_start
  claim_start-ok s q x r g room free = elim (start_head-cases q) [
    | inl (_, f) ↦ ground (arith, f)
    | inr (inl (_, full, f)) ↦ ground (arith, f)
    | inr (inr t) ↦ ground (arith, t.started)
  ]

  push_outcome-ok :
      (s : Session I) (e : Entry I) (r : Result AgentError (Option (Entry I × ℕ)) × QueueState I)
      (x : AgentError)
      → r.0 ≢ err x
      → (push_outcome s e r).0 ≢ err x
  unfolding push_outcome
  push_outcome-ok s e (ok c, q) x h k = cc
  push_outcome-ok s e (err y, q) x h k = h (cc)

  push_entry-ok :
      (s : Session I) (e : Entry I) (next : ℕ) (x : AgentError)
      → s.queue.generation < u64_limit
      → exhausted s ≡ false
      → (push_entry s e next).0 ≢ err x
  unfolding push_entry
  push_entry-ok s e next x room free =
      push_outcome-ok s e _ x (claim_start-ok s _ x refl refl room free)

  admit_input-err :
      (s : Session I) (m : InputMode) (input : I) (at : Option Bytes) (x : AgentError)
      → s.queue.generation < u64_limit
      → (admit_input s m input at).0 ≡ err x
      → (admit_input s m input at).1 ≡ s
  unfolding admit_input
  admit_input-err s m input at x room h = ground (
    arith,
    push_entry-ok s
        (record { id = format_id (s.queue.next_id + 1); mode = m; input = input; accepted_at = at })
        (s.queue.next_id + 1) x room,
  )

  -- A push that is refused changes nothing: the queue keeps its entries, its ids and its generation.
  -- The generation is a 64-bit number.
  pub accept_input-err :
      (api : UserInputApi I) (s : Session I) (m : InputMode) (text : Bytes) (at : Option Bytes)
      (x : AgentError)
      → s.queue.generation < u64_limit
      → (accept_input api s m text at).0 ≡ err x
      → (accept_input api s m text at).1 ≡ s
  unfolding accept_input
  accept_input-err api s m text at x room h = elim (Option-cases (api.text text)) [
    | inl missing ↦ rw (missing, accept_input) refl
    | inr (input, given) ↦ ground (arith, given, admit_input-err s m input at x room)
  ]
