-- ===== src/Inputs/World.antt =====
-- A Session's queue in use: every event that reaches it, in any order. The session's lock makes each
-- event one step, so a history is a list of events.
use minicore_agent.Prelude.{
  ℕ, Bool, true, false, Option, none, some, List, [], ◌∷◌, ◌++◌, ◌==?◌, if◌then◌else◌, Result, ok,
  err,
}
use minicore_agent.Prelude.Bytes.{Bytes, bytes_eq}
use minicore_agent.Inputs.{
  UserInputApi, AgentError, InputMode, Entry, QueueState, empty, take_steers,
}
use minicore_agent.Inputs.Session.{
  SessionInner, Session, Claim, PendingPush, accept_input, remove_input, recall_inputs,
  accept_resume, abandon_claim, claim_after_compaction, complete_turn, claim_successor,
  publish_internal, install_loop, begin_close,
}

-- What the Session is busy with: nothing, a claimed start, an installed loop, or a finished turn
-- whose driver looks for a successor.
pub data Activity (I : Type 0) : Type 0 where
  idle : Activity I
  claimed : Entry I → ℕ → Activity I
  active : ℕ → Activity I
  ending : Activity I

-- `gone` is every entry that left the queue: started, delivered, removed or recalled.
pub record World (I : Type 0) : Type 0 where
  pub session : Session I
  pub activity : Activity I
  pub gone : List (Entry I)

pub data Event : Type 0 where
  push : InputMode → Bytes → Option Bytes → Event
  remove : Bytes → Event
  recall resume compaction_ended : Event
  -- The outcome of the start that is under way.
  installed occupied failed : Event
  -- A loop of the given generation asks for inputs.
  takes : ℕ → Event
  -- The active turn ends, eligible for a successor or not; then the driver looks for one.
  completes : Bool → Event
  succeeds crashes : Event
  close : Event
  -- Other parts of the Session change what the queue reads of it.
  changes : SessionInner → Event

module _ {I : Type 0} where
  abbrev pub busy : Activity I → Bool
  busy idle = false
  busy _ = true

  -- The entry that is neither queued nor gone.
  abbrev pub held : Activity I → List (Entry I)
  held (claimed e g) = e ∷ []
  held _ = []

  abbrev pub claim_or : Option (Claim I) → Activity I → Activity I
  claim_or none a = a
  claim_or (some (e, g)) a = claimed e g

  unfoldable pub after_push : World I → Result AgentError (PendingPush I) × Session I → World I
  after_push w (err e, s) = record w { session = s }
  after_push w (ok p, s) = record w { session = s; activity = claim_or p.claim w.activity }

  unfoldable pub after_claim : World I → Result AgentError (Option (Claim I)) × Session I → World I
  after_claim w (err e, s) = record w { session = s }
  after_claim w (ok c, s) = record w { session = s; activity = claim_or c w.activity }

  unfoldable pub after_start : World I → Activity I → Option (Claim I) × Session I → World I
  after_start w otherwise (c, s) = record w { session = s; activity = claim_or c otherwise }

  unfoldable pub after_turn : World I → Bool × Session I → World I
  after_turn w (goes_on, s) = record w { session = s; activity = if goes_on then ending else idle }

  -- The entries that a change of the queue took out of it.
  unfoldable pub taken_out : Bytes → List (Entry I) → List (Entry I)
  taken_out id [] = []
  taken_out id (e ∷ es) = if bytes_eq e.id id then e ∷ [] else taken_out id es

  -- `SessionInputs::take` of the loop with the given generation: any other loop is stale.
  unfoldable pub take_inputs : QueueState I → ℕ → List (Entry I) × QueueState I
  take_inputs q g = if q.binding ==? g then take_steers q else ([], q)

  unfoldable pub on_installed : World I → Activity I → World I
  on_installed w (claimed e g) = record w {
    session = install_loop w.session;
    activity = active g;
    gone = e ∷ w.gone;
  }
  on_installed w a = w

  unfoldable pub on_abandoned : World I → Activity I → Bool → World I
  on_abandoned w (claimed e g) pause = record w {
    session = abandon_claim w.session e pause;
    activity = idle;
  }
  on_abandoned w a pause = w

  unfoldable pub on_completes : World I → Activity I → Bool → World I
  unfolding after_turn
  on_completes w (active g) eligible = after_turn w (complete_turn w.session eligible)
  on_completes w a eligible = w

  unfoldable pub on_succeeds : World I → Activity I → World I
  unfolding after_start
  on_succeeds w ending = after_start w idle (claim_successor w.session)
  on_succeeds w a = w

  unfoldable pub on_crashes : World I → Activity I → World I
  on_crashes w (active g) = record w { session = publish_internal w.session; activity = idle }
  on_crashes w a = w

  unfoldable pub after_take : World I → List (Entry I) × QueueState I → World I
  after_take w (taken, q) = record w {
    session = record w.session { queue = q };
    gone = taken ++ w.gone;
  }

  unfoldable pub on_takes : World I → ℕ → World I
  unfolding take_inputs after_take
  on_takes w g = after_take w (take_inputs w.session.queue g)

module _ {I : Type 0} (api : UserInputApi I) where
  unfoldable pub on_remove : World I → Bytes → World I
  unfolding taken_out
  on_remove w id = record w {
    session = (remove_input api w.session id).1;
    gone = taken_out id w.session.queue.items ++ w.gone;
  }

  unfoldable pub on_recall : World I → World I
  on_recall w = record w {
    session = (recall_inputs api w.session).1;
    gone = w.session.queue.items ++ w.gone;
  }

  unfoldable pub step : World I → Event → World I
  step w (push mode text at) = after_push w (accept_input api w.session mode text at)
  step w (remove id) = on_remove w id
  step w recall = on_recall w
  step w resume = after_claim w (accept_resume w.session)
  step w compaction_ended = after_start w w.activity (claim_after_compaction w.session)
  step w installed = on_installed w w.activity
  step w occupied = on_abandoned w w.activity false
  step w failed = on_abandoned w w.activity true
  step w (takes g) = on_takes w g
  step w (completes eligible) = on_completes w w.activity eligible
  step w succeeds = on_succeeds w w.activity
  step w crashes = on_crashes w w.activity
  step w close = record w { session = (begin_close w.session).1 }
  step w (changes inner) = record w { session = record w.session { inner = inner } }

  unfoldable pub run : World I → List Event → World I
  run w [] = w
  run w (event ∷ events) = run (step w event) events

module _ {I : Type 0} where
  -- A loaded Session with an empty queue.
  abbrev pub start : SessionInner → World I
  start inner = record {
    session = record { inner = inner; queue = empty; dirty = false };
    activity = idle;
    gone = [];
  }
