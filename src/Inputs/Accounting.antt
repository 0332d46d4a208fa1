-- ===== src/Inputs/Accounting.antt =====
-- Every accepted input is in one place: queued, claimed or gone, under an id of its own.
use minicore_agent.Prelude.{
  ℕ, ◌<◌, ◌≡◌, refl, ap, inl, inr, Bool, true, false, Option, none, some, List, [], ◌∷◌, ◌++◌,
  append-nil, append_assoc, arith, Option-cases, get_elem?, filter, position, remove_at, Result, ok,
  err,
}
use minicore_agent.Prelude.Bytes.{Bytes, bytes_eq}
use minicore_agent.Inputs.{
  UserInputApi, AgentError, InputMode, u64_limit, Entry, QueueState, take_steers, restore,
  end_period, start_head, internal, session_blocked, follows, steers,
}
use minicore_agent.Inputs.Session.{
  Session, PendingPush, accept_input, Claim, remove_input, recall_inputs, accept_resume,
  abandon_claim, claim_after_compaction, complete_turn, claim_successor, publish_internal,
  install_loop, begin_close, claim_start, resume_outcome, compaction_outcome, successor_outcome,
}
use minicore_agent.Inputs.World.{
  World, Event, Activity, idle, claimed, active, ending, held, push, remove, recall, resume,
  compaction_ended, installed, occupied, failed, takes, completes, succeeds, crashes, close,
  changes, after_push, after_claim, after_start, after_turn, on_installed, on_abandoned,
  on_completes, on_succeeds, on_crashes, on_takes, on_remove, on_recall, step,
}
use mathlib.Core.List.{Perm, perm_middle}
use mathlib.Core.List.Perm
use minicore_agent.Prelude.Splits.{
  position-SplitAt, insert_at-perm, remove_at-perm, partition-perm, swap_perm, behind_perm,
}
use minicore_agent.Inputs.Push.{accept_input-err}
use minicore_agent.Inputs.Invariant.{WorldInv}
use minicore_agent.Inputs.World.{taken_out}
use minicore_agent.Inputs.Moves.{
  KeepsWorld, Keeps-refl, Moves, Pushed, Queued, push-Moves, push-Pushed, ClaimKeeps, entries,
  claim_start-ClaimKeeps, start_head-ClaimKeeps,
}

abbrev is_push : Event → Bool
is_push (push mode text at) = true
is_push event = false

module _ {I : Type 0} where
  resume_outcome-Keeps :
      (w : World I) (r : Result AgentError (Option (Claim I)) × QueueState I)
      → ClaimKeeps w.session.queue w.activity w.gone r
      → KeepsWorld w (after_claim w (resume_outcome w.session r))
  unfolding resume_outcome after_claim
  resume_outcome-Keeps w (err e, q) k = record { same = k.0; next = k.1 }
  resume_outcome-Keeps w (ok none, q) k = record { same = k.0; next = k.1 }
  resume_outcome-Keeps w (ok (some c), q) k = record { same = k.0; next = k.1 }

  resume-Keeps : (w : World I) → WorldInv w → KeepsWorld w (after_claim w (accept_resume w.session))
  unfolding accept_resume
  resume-Keeps w v =
      let q = record w.session.queue { paused = false } in
      let resumed =
        resume_outcome-Keeps w (claim_start w.session.inner q)
          (claim_start-ClaimKeeps w.session.inner q w.activity w.gone v.running_exact) in
      let refused : (e : AgentError) → KeepsWorld w (after_claim w (err e, w.session)) =
        λ e. unfold after_claim in Keeps-refl w in
      ground (arith, resumed, refused session_blocked, refused internal)

  compaction_outcome-Keeps :
      (w : World I) (r : Result AgentError (Option (Claim I)) × QueueState I)
      → ClaimKeeps w.session.queue w.activity w.gone r
      → KeepsWorld w (after_start w w.activity (compaction_outcome w.session r))
  unfolding compaction_outcome after_start
  compaction_outcome-Keeps w (err e, q) k = record { same = k.0; next = k.1 }
  compaction_outcome-Keeps w (ok none, q) k = record { same = k.0; next = k.1 }
  compaction_outcome-Keeps w (ok (some c), q) k = record { same = k.0; next = k.1 }

  successor_outcome-Keeps :
      (w : World I) (r : Result AgentError (Option (Claim I)) × QueueState I)
      → w.activity ≡ ending
      → ClaimKeeps w.session.queue idle w.gone r
      → KeepsWorld w (after_start w idle (successor_outcome w.session r))
  unfolding successor_outcome after_start end_period
  successor_outcome-Keeps w (err e, q) a k = record { same = rw a k.0; next = k.1 }
  successor_outcome-Keeps w (ok none, q) a k = record { same = rw a k.0; next = k.1 }
  successor_outcome-Keeps w (ok (some c), q) a k = record { same = rw a k.0; next = k.1 }

  succeeds-Keeps : (w : World I) (a : Activity I) → w.activity ≡ a → KeepsWorld w (on_succeeds w a)
  unfolding on_succeeds claim_successor end_period
  succeeds-Keeps w ending e =
      let going =
        successor_outcome-Keeps w (start_head w.session.queue) e
          (start_head-ClaimKeeps w.session.queue idle w.gone refl) in
      let closed : Perm (entries w.session.queue w.activity w.gone)
          (entries w.session.queue idle w.gone) =
        rw e (Perm.refl _) in
      ground (arith, going, closed)
  succeeds-Keeps w _ e = Keeps-refl w

  installed-Keeps :
      (w : World I) (a : Activity I) → w.activity ≡ a → KeepsWorld w (on_installed w a)
  unfolding on_installed install_loop
  installed-Keeps w (claimed e g) h = record { same = rw h (Perm.refl _); next = refl }
  installed-Keeps w _ h = Keeps-refl w

  abandoned-Keeps :
      (w : World I) (a : Activity I) (pause : Bool)
      → w.activity ≡ a
      → KeepsWorld w (on_abandoned w a pause)
  unfolding on_abandoned abandon_claim end_period restore
  abandoned-Keeps w (claimed e g) pause h = record {
    same = rw h (
        Perm.trans (perm_middle w.session.queue.items w.gone)
          (Perm.append_right w.gone (Perm.symm (insert_at-perm _ e w.session.queue.items))));
    next = refl;
  }
  abandoned-Keeps w _ pause h = Keeps-refl w

  completes-Keeps :
      (w : World I) (a : Activity I) (eligible : Bool)
      → w.activity ≡ a
      → KeepsWorld w (on_completes w a eligible)
  unfolding on_completes complete_turn end_period after_turn
  completes-Keeps w (active g) eligible h =
      let stays : Perm (entries w.session.queue w.activity w.gone)
          (entries w.session.queue idle w.gone) =
        rw h (Perm.refl _) in
      ground (arith, stays)
  completes-Keeps w _ eligible h = Keeps-refl w

  crashes-Keeps : (w : World I) (a : Activity I) → w.activity ≡ a → KeepsWorld w (on_crashes w a)
  unfolding on_crashes publish_internal end_period
  crashes-Keeps w (active g) h = record { same = rw h (Perm.refl _); next = refl }
  crashes-Keeps w _ h = Keeps-refl w

  taken_perm :
      (w : World I) (out left : List (Entry I))
      → Perm w.session.queue.items (out ++ left)
      → Perm
          (entries w.session.queue w.activity w.gone)
          (left ++ (held w.activity ++ (out ++ w.gone)))
  taken_perm w out left p = Perm.trans (Perm.append_right _ (Perm.trans p (swap_perm out left))) (
      rw (append_assoc left out (held w.activity ++ w.gone))
        (Perm.append_left left (behind_perm out (held w.activity) w.gone)))

  takes-Keeps : (w : World I) (g : ℕ) → KeepsWorld w (on_takes w g)
  unfolding on_takes take_steers
  takes-Keeps w g =
      let items = w.session.queue.items in
      let delivered =
        taken_perm w (filter steers items) (filter follows items) (partition-perm steers items) in
      let stays = Perm.refl (entries w.session.queue w.activity w.gone) in
      ground (arith, delivered, stays)

  recall-Keeps : (api : UserInputApi I) (w : World I) → KeepsWorld w (on_recall api w)
  unfolding on_recall recall_inputs
  recall-Keeps api w = record {
    same = taken_perm w w.session.queue.items [] (rw append-nil (Perm.refl _));
    next = refl;
  }

  -- What `remove` takes out is the entry at its position.
  taken_out-position :
      (id : Bytes) (xs : List (Entry I)) (i : ℕ) (e : Entry I)
      → position (λ x. bytes_eq x.id id) xs ≡ some i
      → get_elem? xs i ≡ some e
      → taken_out id xs ≡ e ∷ []
  unfolding taken_out
  taken_out-position id [] i e p g = absurd (cc)
  taken_out-position id (x ∷ xs) i e p g =
      elim (Option-cases (position (λ y. bytes_eq y.id id) xs)) [
        | inl missing ↦ ground (arith, missing)
        | inr (j, later) ↦ ground (arith, later, taken_out-position id xs j e later)
      ]

  taken_out-none :
      (id : Bytes) (xs : List (Entry I))
      → position (λ x. bytes_eq x.id id) xs ≡ none
      → taken_out id xs ≡ []
  unfolding taken_out
  taken_out-none id [] p = refl
  taken_out-none id (x ∷ xs) p = ground (arith, taken_out-none id xs)

  position-get :
      (p : Entry I → Bool) (xs : List (Entry I)) (i : ℕ)
      → position p xs ≡ some i
      → (e : Entry I) × (get_elem? xs i ≡ some e)
  position-get p xs i h = let s = position-SplitAt p xs i h in (s.found, s.at)

  remove-Keeps :
      (api : UserInputApi I) (w : World I) (id : Bytes) → KeepsWorld w (on_remove api w id)
  unfolding on_remove remove_input
  remove-Keeps api w id =
      let items = w.session.queue.items in
      elim (Option-cases (position (λ e. bytes_eq e.id id) items)) [
        | inl e ↦
            let nothing = taken_out-none id items e in
            let stays = Perm.refl (entries w.session.queue w.activity w.gone) in
            ground (arith, e, nothing, stays)
        | inr (i, e) ↦
            let (x, at) = position-get _ items i e in
            let out = taken_out-position id items i x e at in
            let moved = taken_perm w (x ∷ []) (remove_at i items) (remove_at-perm i items at) in
            ground (arith, e, at, out, moved)
      ]

  close-Keeps : (w : World I) → KeepsWorld w (record w { session = (begin_close w.session).1 })
  unfolding begin_close
  close-Keeps w =
      let stays = Perm.refl (entries w.session.queue w.activity w.gone) in ground (arith, stays)

  step-Keeps :
      (api : UserInputApi I) (w : World I) (event : Event)
      → is_push event ≡ false
      → WorldInv w
      → KeepsWorld w (step api w event)
  unfolding step
  step-Keeps api w (push mode text at) n v = absurd (cc)
  step-Keeps api w (remove id) n v = remove-Keeps api w id
  step-Keeps api w recall n v = recall-Keeps api w
  step-Keeps api w resume n v = resume-Keeps w v
  step-Keeps api w compaction_ended n v =
      unfold claim_after_compaction in
      compaction_outcome-Keeps w (claim_start w.session.inner w.session.queue)
        (claim_start-ClaimKeeps w.session.inner w.session.queue w.activity w.gone v.running_exact)
  step-Keeps api w installed n v = installed-Keeps w w.activity refl
  step-Keeps api w occupied n v = abandoned-Keeps w w.activity false refl
  step-Keeps api w failed n v = abandoned-Keeps w w.activity true refl
  step-Keeps api w (takes g) n v = takes-Keeps w g
  step-Keeps api w (completes eligible) n v = completes-Keeps w w.activity eligible refl
  step-Keeps api w succeeds n v = succeeds-Keeps w w.activity refl
  step-Keeps api w crashes n v = crashes-Keeps w w.activity refl
  step-Keeps api w close n v = close-Keeps w
  step-Keeps api w (changes inner) n v = record { same = Perm.refl _; next = refl }

  pub step-Moves :
      (api : UserInputApi I) (w : World I) (event : Event) → WorldInv w → Moves w (step api w event)
  unfolding step
  step-Moves api w (push mode text at) v = push-Moves api w mode text at v
  step-Moves api w event v = inl (step-Keeps api w event refl v)

  -- A push that is accepted adds the entry it answers with; a refused one changes nothing.
  abbrev pub PushAccounts :
      Option I
      → InputMode
      → Option Bytes
      → World I
      → Result AgentError (PendingPush I)
      → World I
      → Type 0
  PushAccounts i mode at w (ok p) v = Queued i mode at w p v
  PushAccounts i mode at w (err e) v = v ≡ w

  -- What an event does to the entries that are queued, claimed or gone.
  abbrev pub Accounts : UserInputApi I → World I → Event → World I → Type 0
  Accounts api w (push mode text at) v =
      PushAccounts (api.text text) mode at w (accept_input api w.session mode text at).0 v
  Accounts api w event v = KeepsWorld w v

  Pushed-PushAccounts :
      (i : Option I) (mode : InputMode) (at : Option Bytes) (w : World I)
      (r : Result AgentError (PendingPush I) × Session I)
      → Pushed i mode at w r
      → ((x : AgentError) → r.0 ≡ err x → r.1 ≡ w.session)
      → PushAccounts i mode at w r.0 (after_push w r)
  unfolding after_push
  Pushed-PushAccounts i mode at w (ok p, s) h same = h
  Pushed-PushAccounts i mode at w (err e, s) h same =
      ap (λ t. record { session = t; activity = w.activity; gone = w.gone }) (same e refl)

  -- A push that is accepted adds one entry, the one that it answers with, under the next id, with the
  -- mode, the input and the time of the push, to those that are queued, claimed or gone; a push that
  -- is refused changes nothing; and every other event keeps the same entries and issues no id. The
  -- generation is a 64-bit number.
  pub step-Accounts :
      (api : UserInputApi I) (w : World I) (event : Event)
      → WorldInv w
      → w.session.queue.generation < u64_limit
      → Accounts api w event (step api w event)
  unfolding step
  step-Accounts api w (push mode text at) v room =
      Pushed-PushAccounts (api.text text) mode at w (accept_input api w.session mode text at)
        (push-Pushed api w mode text at v) (λ x. accept_input-err api w.session mode text at x room)
  step-Accounts api w event v room = step-Keeps api w event refl v
