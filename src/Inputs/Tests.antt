-- ===== src/Inputs/Tests.antt =====
-- Runs of the queue, and its theorems at concrete queues.
use minicore_agent.Prelude.{
  ℕ, zero, suc, ◌+◌, ◌<◌, ◌≡◌, refl, true, false, none, some, List, [], ◌∷◌, arith, if◌then◌else◌,
  length, is_empty, ok,
}
use mathlib.Core.List.{Perm, Nodup}
use minicore_agent.Prelude.Bytes.{Bytes, codes}
use minicore_agent.Inputs.{
  UserInputApi, invalid_input, steer, follow_up, Entry, QueueState, empty, take_steers, u64_limit,
  start_head, restore, end_period, item, view,
}
use minicore_agent.Inputs.Session.{
  claim_successor, complete_turn, install_loop, SessionInner, Session, accept_input, can_start,
  claim_start, abandon_claim,
}
use minicore_agent.Inputs.World.{
  World, Event, push, on_installed, on_completes, on_succeeds, on_takes, take_inputs, after_take,
  after_start, after_turn, installed, occupied, takes, completes, succeeds, run, step, start,
  on_abandoned, after_push,
}
use minicore_agent.Inputs.Accounting.{Accounts, step-Accounts}
use minicore_agent.Inputs.Single.{OneStart}
use minicore_agent.Inputs.Invariant.{WorldInv, run-start-Inv}
use minicore_agent.Inputs.Starts.{start_head-view, restore-start_head}
use minicore_agent.Inputs.History.{ids, issued, run-start-ids}
use minicore_agent.Inputs.Push.{accept_input-err}

-- Inputs that are their text; the empty one is refused.
abbrev plain : UserInputApi Bytes
plain = record { text = λ t. if is_empty t then none else some t; as_text = λ t. t }

abbrev inner : SessionInner
inner = record {
  blocked = false;
  closing = false;
  pending_compaction = false;
  compaction = none;
  max_user_input_bytes = 100;
}

abbrev says : Event
says = push follow_up (codes "hi") none

abbrev hurries : Event
hurries = push steer (codes "stop") none

-- A turn runs, is steered, ends, and the follow-up starts.
abbrev history : List Event
history = says ∷ installed ∷ says ∷ hurries ∷ takes 1 ∷ completes true ∷ succeeds ∷ occupied ∷ []

run-start-Inv_example :
    WorldInv (run plain (start inner) history) × OneStart plain (run plain (start inner) history)
run-start-Inv_example = run-start-Inv plain inner history

run-start-ids_example :
    Perm
      (ids (run plain (start inner) history))
      (issued (run plain (start inner) history).session.queue.next_id)
    × Nodup (ids (run plain (start inner) history))
run-start-ids_example = run-start-ids plain inner history

abbrev first_entry : Entry Bytes
first_entry = record { id = codes "1"; mode = follow_up; input = codes "a"; accepted_at = none }

abbrev urgent : Entry Bytes
urgent = record { id = codes "2"; mode = steer; input = codes "b"; accepted_at = none }

abbrev waiting : QueueState Bytes
waiting = record empty { items = first_entry ∷ urgent ∷ []; next_id = 2 }

abbrev begun_queue : QueueState Bytes
begun_queue = record waiting {
  items = first_entry ∷ [];
  running = true;
  generation = 1;
  binding = some 1;
  starting = some urgent;
}

takes_urgent : start_head waiting ≡ (ok (some (urgent, 1)), begun_queue)
unfolding start_head
takes_urgent = refl

start_head-view_example :
    ((view plain waiting).items ≡ item plain urgent ∷ (view plain begun_queue).items)
    × (1 ≡ waiting.generation + 1)
    × (1 < u64_limit)
    × (begun_queue.binding ≡ some 1)
    × (begun_queue.starting ≡ some urgent)
    × (begun_queue.running ≡ true)
    × (begun_queue.paused ≡ waiting.paused)
start_head-view_example = start_head-view plain waiting begun_queue urgent 1 takes_urgent

restore-start_head_example :
    (view plain (restore (record begun_queue { items = first_entry ∷ urgent ∷ [] }) urgent)).items
    ≡ (view plain (record waiting { items = first_entry ∷ urgent ∷ urgent ∷ [] })).items
restore-start_head_example =
    restore-start_head plain waiting begun_queue urgent 1 takes_urgent (urgent ∷ [])

abbrev fresh : Session Bytes
fresh = record { inner = inner; queue = waiting; dirty = false }

accept_input-err_example : (accept_input plain fresh steer [] none).1 ≡ fresh
unfolding accept_input
accept_input-err_example =
    accept_input-err plain fresh steer [] none invalid_input (omega arith) refl

-- Between a claim and its failure the queue can fill up, so that the entry given back is one more
-- than `MAX_QUEUED_INPUTS`.
abbrev repeat : ℕ → List Event → List Event
repeat zero es = es
repeat (suc n) es = says ∷ repeat n es

one_too_many : length (run plain (start inner) (repeat 33 (occupied ∷ []))).session.queue.items ≡ 33
unfolding run step on_abandoned after_push accept_input can_start claim_start start_head
    abandon_claim end_period restore
one_too_many = refl

abbrev so_far : World Bytes
so_far = run plain (start inner) history

few_generations : so_far.session.queue.generation < u64_limit
unfolding run step on_installed on_completes on_succeeds on_abandoned on_takes take_inputs
    after_take take_steers after_push after_start after_turn accept_input can_start claim_start
    start_head claim_successor complete_turn install_loop abandon_claim end_period restore
few_generations = omega arith

step-Accounts_example : Accounts plain so_far says (step plain so_far says)
step-Accounts_example =
    step-Accounts plain so_far says (run-start-Inv plain inner history).0 few_generations
