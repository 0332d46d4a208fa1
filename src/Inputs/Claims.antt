-- ===== src/Inputs/Claims.antt =====
-- The invariant of a Session's queue, kept by what pushes an entry or claims one.
use minicore_agent.Prelude.{
  ℕ, ◌+◌, ◌≤◌, ◌<◌, ◌≡◌, refl, inl, inr, true, false, not, ◌||◌, Option, none, some, [], ◌∷◌, ◌++◌,
  arith, Bool-cases, Option-cases, length, is_empty, length-append, Result, ok, err,
}
use minicore_agent.Prelude.Bytes.{Bytes}
use minicore_agent.Inputs.{
  UserInputApi, AgentError, InputMode, Entry, QueueState, start_head, max_queued_inputs,
}
use minicore_agent.Inputs.Order.{Starts, begun, start_head-cases}
use minicore_agent.Inputs.Session.{
  SessionInner, Session, Claim, PendingPush, accept_input, claim_start, can_start, push_entry,
  push_outcome, admit_input,
}
use minicore_agent.Inputs.World.{Activity, idle, claimed, active, ending, busy, held, claim_or}

module _ {I : Type 0} where
  -- How the queue's binding, starting input and generation follow the activity.
  abbrev pub Bound : Activity I → Option ℕ → Option (Entry I) → ℕ → Type 0
  Bound idle b s g = (b ≡ none) × (s ≡ none)
  Bound (claimed e h) b s g = (b ≡ some h) × (s ≡ some e) × (g ≡ h)
  Bound (active h) b s g = (b ≡ some h) × (s ≡ none) × (g ≡ h)
  Bound ending b s g = (b ≡ some g) × (s ≡ none)

  pub record Inv (q : QueueState I) (a : Activity I) : Type 0 where
    pub running_exact : q.running ≡ busy a
    pub bound : Bound a q.binding q.starting q.generation
    pub paused_idle : q.paused ≡ true → q.running ≡ false
    pub paused_filled : q.paused ≡ true → is_empty q.items ≡ false
    pub few : length q.items + length (held a) ≤ max_queued_inputs + 1

  pub begun-Inv :
      (q : QueueState I)
      → q.paused ≡ false
      → length q.items ≤ max_queued_inputs + 1
      → (s : Starts q) → Inv (begun q s.entry s.rest) (claimed s.entry (q.generation + 1))
  begun-Inv q p few s = record {
    running_exact = refl;
    bound = (refl, refl, refl);
    paused_idle = λ h. cc;
    paused_filled = λ h. cc;
    few = omega (arith, s.one_less);
  }

  abbrev pub Claims : Activity I → Result AgentError (Option (Claim I)) × QueueState I → Type 0
  Claims a (ok c, q) = Inv q (claim_or c a)
  Claims a (err e, q) = Inv q a

  pub start_head-Claims :
      (q : QueueState I) (a : Activity I)
      → Inv q a
      → q.paused ≡ false
      → length q.items ≤ max_queued_inputs + 1
      → Claims a (start_head q)
  start_head-Claims q a v p few = elim (start_head-cases q) [
    | inl (_, f) ↦ rw f v
    | inr (inl (_, _, f)) ↦ rw f v
    | inr (inr s) ↦ rw s.started (begun-Inv q p few s)
  ]

  pub claim_start-Claims :
      (inner : SessionInner) (q : QueueState I) (a : Activity I)
      → Inv q a
      → Claims a (claim_start inner q)
  unfolding claim_start
  claim_start-Claims inner q a v =
      elim (Bool-cases (q.running || (q.paused || not (can_start inner)))) [
        | inl held_back ↦ rw (held_back, claim_start) v
        | inr free ↦
            rw (free, claim_start)
              (start_head-Claims q a v (ground (arith, free)) (omega (arith, v.few)))
      ]

  abbrev pub Pushes : Activity I → Result AgentError (PendingPush I) × Session I → Type 0
  Pushes a (ok p, s) = Inv s.queue (claim_or p.claim a)
  Pushes a (err e, s) = Inv s.queue a

  push_outcome-Pushes :
      (s : Session I) (e : Entry I) (a : Activity I)
      (r : Result AgentError (Option (Claim I)) × QueueState I)
      → Claims a r
      → Pushes a (push_outcome s e r)
  unfolding push_outcome
  push_outcome-Pushes s e a (ok c, q) k = k
  push_outcome-Pushes s e a (err x, q) k = k

  length-held : (a : Activity I) → length (held a) ≤ 1
  length-held a = ground arith

  push_entry-Pushes :
      (s : Session I) (e : Entry I) (next : ℕ) (a : Activity I)
      → Inv s.queue a
      → length s.queue.items < max_queued_inputs
      → Pushes a (push_entry s e next)
  unfolding push_entry
  push_entry-Pushes s e next a v room =
      push_outcome-Pushes s e a (claim_start s.inner pushed)
        (claim_start-Claims s.inner pushed a pushed-Inv)
    where
      pushed : QueueState I
      pushed = record s.queue { next_id = next; items = s.queue.items ++ e ∷ []; paused = false }

      pushed-Inv : Inv pushed a
      pushed-Inv = record {
        running_exact = v.running_exact;
        bound = v.bound;
        paused_idle = λ h. cc;
        paused_filled = λ h. cc;
        few = omega (arith, length-held a, length-append s.queue.items (e ∷ []));
      }

  admit_input-Pushes :
      (s : Session I) (m : InputMode) (input : I) (at : Option Bytes) (a : Activity I)
      → Inv s.queue a
      → Pushes a (admit_input s m input at)
  unfolding admit_input
  admit_input-Pushes s m input at a v = grind (arith, push_entry-Pushes s)

  pub accept_input-Pushes :
      (api : UserInputApi I) (s : Session I) (m : InputMode) (text : Bytes) (at : Option Bytes)
      (a : Activity I)
      → Inv s.queue a
      → Pushes a (accept_input api s m text at)
  unfolding accept_input
  accept_input-Pushes api s m text at a v = elim (Option-cases (api.text text)) [
    | inl missing ↦ rw (missing, accept_input) v
    | inr (input, given) ↦
        rw (given, accept_input) (ground (arith, admit_input-Pushes s m input at a v))
  ]
