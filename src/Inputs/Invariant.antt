-- ===== src/Inputs/Invariant.antt =====
-- What stays true of a Session's queue in every history.
use minicore_agent.Prelude.{
  ℕ, zero, suc, ◌≡◌, refl, inl, inr, Bool, true, false, Option, none, some, List, [], ◌∷◌, arith,
  Option-cases, get_elem?, is_empty, position, insert_at, Result, ok, err,
}
use minicore_agent.Prelude.Bytes.{Bytes, bytes_eq}
use minicore_agent.Prelude.Splits.{length-insert_at, length-remove_at, length-filter-le}
use minicore_agent.Inputs.{
  UserInputApi, AgentError, Entry, QueueState, take_steers, restore, end_period, start_head,
  follows,
}
use minicore_agent.Inputs.Order.{start_head-cases}
use minicore_agent.Inputs.Session.{
  SessionInner, Session, Claim, PendingPush, accept_input, remove_input, recall_inputs,
  accept_resume, abandon_claim, claim_after_compaction, complete_turn, claim_successor,
  publish_internal, install_loop, begin_close, claim_start, resume_outcome, compaction_outcome,
  successor_outcome,
}
use minicore_agent.Inputs.Single.{OneStart, Inv-OneStart}
use minicore_agent.Inputs.World.{
  World, Event, Activity, idle, claimed, active, ending, push, remove, recall, resume,
  compaction_ended, installed, occupied, failed, takes, completes, succeeds, crashes, close,
  changes, after_push, after_claim, after_start, on_installed, on_abandoned, on_completes,
  on_succeeds, on_crashes, on_takes, on_remove, on_recall, step, run, start,
}
use minicore_agent.Inputs.Claims.{
  Inv, Claims, Pushes, accept_input-Pushes, claim_start-Claims, start_head-Claims,
}

module _ {I : Type 0} where
  abbrev pub WorldInv : World I → Type 0
  WorldInv w = Inv w.session.queue w.activity

  after_push-Inv :
      (w : World I) (r : Result AgentError (PendingPush I) × Session I)
      → Pushes w.activity r
      → WorldInv (after_push w r)
  unfolding after_push
  after_push-Inv w (ok p, s) k = k
  after_push-Inv w (err e, s) k = k

  remove_input-Inv :
      (api : UserInputApi I) (s : Session I) (id : Bytes) (a : Activity I)
      → Inv s.queue a
      → Inv (remove_input api s id).1.queue a
  unfolding remove_input
  remove_input-Inv api s id a v =
      elim (Option-cases (position (λ e. bytes_eq e.id id) s.queue.items)) [
        | inl e ↦ rw (e, remove_input) v
        | inr (i, e) ↦ elim (Option-cases (get_elem? s.queue.items i)) [
          | inl f ↦ rw (e, remove_input) (rw f v)
          | inr (entry, f) ↦
              rw (e, remove_input)
                (rw f (record {
                  running_exact = v.running_exact;
                  bound = v.bound;
                  paused_idle = ground (arith, v.paused_idle);
                  paused_filled = ground arith;
                  few = omega (arith, v.few, length-remove_at i s.queue.items f);
                }))
        ]
      ]

  recall-Inv :
      (q : QueueState I) (a : Activity I)
      → Inv q a
      → Inv (record q { items = []; paused = false }) a
  recall-Inv q a v = record {
    running_exact = v.running_exact;
    bound = v.bound;
    paused_idle = λ h. cc;
    paused_filled = λ h. cc;
    few = omega (arith, v.few);
  }

  unpaused-Inv : (q : QueueState I) (a : Activity I) → Inv q a → Inv (record q { paused = false }) a
  unpaused-Inv q a v = record {
    running_exact = v.running_exact;
    bound = v.bound;
    paused_idle = λ h. cc;
    paused_filled = λ h. cc;
    few = v.few;
  }

  resume_outcome-Inv :
      (w : World I) (r : Result AgentError (Option (Claim I)) × QueueState I)
      → Claims w.activity r
      → WorldInv (after_claim w (resume_outcome w.session r))
  unfolding resume_outcome after_claim
  resume_outcome-Inv w (err e, q) k = k
  resume_outcome-Inv w (ok none, q) k = k
  resume_outcome-Inv w (ok (some c), q) k = k

  resume-Inv : (w : World I) → WorldInv w → WorldInv (after_claim w (accept_resume w.session))
  unfolding accept_resume after_claim
  resume-Inv w v =
      let q' = record w.session.queue { paused = false } in
      let resumed = resume_outcome-Inv w (claim_start w.session.inner q') (
        claim_start-Claims w.session.inner q' w.activity
          (unpaused-Inv w.session.queue w.activity v)) in
      ground (arith, resumed)

  compaction_outcome-Inv :
      (w : World I) (r : Result AgentError (Option (Claim I)) × QueueState I)
      → Claims w.activity r
      → ((e : AgentError) → r.0 ≡ err e → (r.1.running ≡ false) × (is_empty r.1.items ≡ false))
      → WorldInv (after_start w w.activity (compaction_outcome w.session r))
  unfolding compaction_outcome after_start
  compaction_outcome-Inv w (err e, q) k filled = record {
    running_exact = k.running_exact;
    bound = k.bound;
    paused_idle = λ h. (filled e refl).0;
    paused_filled = λ h. (filled e refl).1;
    few = k.few;
  }
  compaction_outcome-Inv w (ok none, q) k filled = k
  compaction_outcome-Inv w (ok (some c), q) k filled = k

  -- Only a filled, idle queue can run out of generations.
  claim_start-err :
      (inner : SessionInner) (q : QueueState I) (e : AgentError)
      → (claim_start inner q).0 ≡ err e
      → ((claim_start inner q).1.running ≡ false) × (is_empty (claim_start inner q).1.items ≡ false)
  unfolding claim_start
  claim_start-err inner q e h = elim (start_head-cases q) [
    | inl (_, f) ↦ absurd (ground (arith, f))
    | inr (inl (filled, _, f)) ↦ ground (arith, f)
    | inr (inr s) ↦ absurd (ground (arith, s.started))
  ]

  compaction-Inv :
      (w : World I)
      → WorldInv w
      → WorldInv (after_start w w.activity (claim_after_compaction w.session))
  unfolding claim_after_compaction
  compaction-Inv w v =
      compaction_outcome-Inv w (claim_start w.session.inner w.session.queue)
        (claim_start-Claims w.session.inner w.session.queue w.activity v)
        (claim_start-err w.session.inner w.session.queue)

  installed-Inv :
      (w : World I) (a : Activity I)
      → Inv w.session.queue a
      → WorldInv w
      → WorldInv (on_installed w a)
  unfolding on_installed install_loop
  installed-Inv w (claimed e g) u v = ground (arith, u.bound, u.few)
  installed-Inv w _ u v = v

  is_empty-insert_at :
      (i : ℕ) (e : Entry I) (xs : List (Entry I)) → is_empty (insert_at i e xs) ≡ false
  is_empty-insert_at zero e xs = refl
  is_empty-insert_at (suc i) e [] = refl
  is_empty-insert_at (suc i) e (x ∷ xs) = refl

  abandoned-Inv :
      (w : World I) (a : Activity I) (pause : Bool)
      → Inv w.session.queue a
      → WorldInv w
      → WorldInv (on_abandoned w a pause)
  unfolding on_abandoned abandon_claim end_period restore
  abandoned-Inv w (claimed e g) pause u v = record {
    running_exact = refl;
    bound = (refl, refl);
    paused_idle = λ h. refl;
    paused_filled = λ h. is_empty-insert_at _ e w.session.queue.items;
    few = omega (arith, u.few, length-insert_at _ e w.session.queue.items);
  }
  abandoned-Inv w _ pause u v = v

  completes-Inv :
      (w : World I) (a : Activity I) (eligible : Bool)
      → Inv w.session.queue a
      → WorldInv w
      → WorldInv (on_completes w a eligible)
  unfolding on_completes complete_turn end_period
  completes-Inv w (active g) eligible u v = ground (arith, u.bound, u.few, u.running_exact)
  completes-Inv w _ eligible u v = v

  successor_outcome-Inv :
      (w : World I) (r : Result AgentError (Option (Claim I)) × QueueState I)
      → Claims ending r
      → ((e : AgentError) → r.0 ≡ err e → is_empty r.1.items ≡ false)
      → WorldInv (after_start w idle (successor_outcome w.session r))
  unfolding successor_outcome after_start end_period
  successor_outcome-Inv w (err e, q) k filled = record {
    running_exact = refl;
    bound = (refl, refl);
    paused_idle = λ h. refl;
    paused_filled = λ h. filled e refl;
    few = k.few;
  }
  successor_outcome-Inv w (ok none, q) k filled = record {
    running_exact = refl;
    bound = (refl, refl);
    paused_idle = λ h. refl;
    paused_filled = k.paused_filled;
    few = k.few;
  }
  successor_outcome-Inv w (ok (some (e, g)), q) k filled = k

  start_head-err :
      (q : QueueState I) (e : AgentError)
      → (start_head q).0 ≡ err e
      → is_empty (start_head q).1.items ≡ false
  start_head-err q e h = elim (start_head-cases q) [
    | inl (_, f) ↦ absurd (ground (arith, f))
    | inr (inl (filled, _, f)) ↦ ground (arith, f)
    | inr (inr s) ↦ absurd (ground (arith, s.started))
  ]

  succeeds-Inv :
      (w : World I) (a : Activity I)
      → Inv w.session.queue a
      → WorldInv w
      → WorldInv (on_succeeds w a)
  unfolding on_succeeds claim_successor end_period
  succeeds-Inv w ending u v =
      let q = w.session.queue in
      let going =
        successor_outcome-Inv w (start_head q)
          (start_head-Claims q ending u (ground (arith, u.running_exact, u.paused_idle))
            (omega (arith, u.few)))
          (start_head-err q) in
      ground (arith, going, u.few, u.paused_filled)
  succeeds-Inv w _ u v = v

  crashes-Inv :
      (w : World I) (a : Activity I)
      → Inv w.session.queue a
      → WorldInv w
      → WorldInv (on_crashes w a)
  unfolding on_crashes publish_internal end_period
  crashes-Inv w (active g) u v = ground (arith, u.few, u.paused_filled)
  crashes-Inv w _ u v = v

  takes-Inv : (w : World I) (g : ℕ) → WorldInv w → WorldInv (on_takes w g)
  unfolding on_takes take_steers
  takes-Inv w g v = ground (
    arith,
    v.few,
    v.bound,
    v.running_exact,
    v.paused_idle,
    length-filter-le follows w.session.queue.items,
  )

  pub step-Inv :
      (api : UserInputApi I) (w : World I) (event : Event)
      → WorldInv w
      → WorldInv (step api w event)
  unfolding step
  step-Inv api w (push mode text at) v =
      after_push-Inv w (accept_input api w.session mode text at)
        (accept_input-Pushes api w.session mode text at w.activity v)
  step-Inv api w (remove id) v = unfold on_remove in remove_input-Inv api w.session id w.activity v
  step-Inv api w recall v =
      unfold on_recall recall_inputs in recall-Inv w.session.queue w.activity v
  step-Inv api w resume v = resume-Inv w v
  step-Inv api w compaction_ended v = compaction-Inv w v
  step-Inv api w installed v = installed-Inv w w.activity v v
  step-Inv api w occupied v = abandoned-Inv w w.activity false v v
  step-Inv api w failed v = abandoned-Inv w w.activity true v v
  step-Inv api w (takes g) v = takes-Inv w g v
  step-Inv api w (completes eligible) v = completes-Inv w w.activity eligible v v
  step-Inv api w succeeds v = succeeds-Inv w w.activity v v
  step-Inv api w crashes v = crashes-Inv w w.activity v v
  step-Inv api w close v =
      unfold begin_close in
      ground (arith, v.few, v.bound, v.running_exact, v.paused_idle, v.paused_filled)
  step-Inv api w (changes inner) v = v

  pub run-Inv :
      (api : UserInputApi I) (w : World I) (events : List Event)
      → WorldInv w
      → WorldInv (run api w events)
  unfolding run
  run-Inv api w [] v = v
  run-Inv api w (event ∷ events) v = run-Inv api (step api w event) events (step-Inv api w event v)

  pub start-Inv : (inner : SessionInner) → WorldInv (start {I = I} inner)
  start-Inv inner = record {
    running_exact = refl;
    bound = (refl, refl);
    paused_idle = λ h. cc;
    paused_filled = λ h. cc;
    few = omega arith;
  }

  -- In every history of a Session, its queue is running exactly while a start is claimed, a loop is
  -- installed or a finished turn looks for a successor, and then no push, no resume and no end of a
  -- compaction claims a second start; only the current generation is bound; a paused queue is idle
  -- and has an input; and the queued inputs together with the claimed one are at most 33.
  pub run-start-Inv :
      (api : UserInputApi I) (inner : SessionInner) (events : List Event)
      → WorldInv (run api (start inner) events) × OneStart api (run api (start inner) events)
  run-start-Inv api inner events =
      let v = run-Inv api (start inner) events (start-Inv inner) in (v, Inv-OneStart api _ v)
