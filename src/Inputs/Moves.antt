-- ===== src/Inputs/Moves.antt =====
-- What each event does to the entries that are queued, claimed or gone.
use minicore_agent.Prelude.{
  ◌+◌, ◌<◌, ◌≡◌, refl, ◌∙◌, ◌⊎◌, inl, inr, false, none, some, not, ◌||◌, Option, List, [], ◌∷◌,
  ◌++◌, append_assoc, arith, ltb, ltb→lt, Bool-cases, Option-cases, Result, ok, err,
}
use minicore_agent.Prelude.Bytes.{Bytes}
use minicore_agent.Inputs.{
  UserInputApi, AgentError, InputMode, Entry, QueueState, start_head, internal, invalid_input,
  session_blocked, session_busy, input_queue_full, u64_limit,
}
use minicore_agent.Inputs.Order.{Starts, begun, start_head-cases}
use minicore_agent.Inputs.Session.{
  SessionInner, Session, Claim, PendingPush, accept_input, claim_start, can_start, push_entry,
  push_outcome, admit_input,
}
use minicore_agent.Inputs.World.{World, Activity, idle, claimed, busy, held, claim_or, after_push}
use mathlib.Core.List.{Perm, perm_middle}
use mathlib.Core.List.Perm
use minicore_agent.Inputs.Ids.{format_id}
use minicore_agent.Inputs.Invariant.{WorldInv}

module _ {I : Type 0} where
  abbrev pub entries : QueueState I → Activity I → List (Entry I) → List (Entry I)
  entries q a gone = q.items ++ (held a ++ gone)

  -- No entry appears or is lost, and no id is issued.
  pub record Keeps (q : QueueState I) (a : Activity I) (gone : List (Entry I)) (w : World I)
      : Type 0 where
    pub same : Perm (entries q a gone) (entries w.session.queue w.activity w.gone)
    pub next : w.session.queue.next_id ≡ q.next_id

  abbrev pub KeepsWorld : World I → World I → Type 0
  KeepsWorld w v = Keeps w.session.queue w.activity w.gone v

  pub Keeps-refl : (w : World I) → KeepsWorld w w
  Keeps-refl w = record { same = Perm.refl _; next = refl }

  -- A start moves the head out of the queue and into the claim.
  begun_perm :
      (q : QueueState I) (a : Activity I) (gone : List (Entry I)) (s : Starts q)
      → busy a ≡ false
      → Perm
          (entries q a gone)
          (entries (begun q s.entry s.rest) (claimed s.entry (q.generation + 1)) gone)
  begun_perm q idle gone s b =
      Perm.trans (Perm.append_right gone s.items_perm) (Perm.symm (perm_middle s.rest gone))
  begun_perm q _ gone s b = absurd (cc)

  -- What a claim leaves: the same entries.
  abbrev pub ClaimKeeps :
      QueueState I
      → Activity I
      → List (Entry I)
      → Result AgentError (Option (Claim I)) × QueueState I
      → Type 0
  ClaimKeeps q a gone (ok c, q') =
      Perm (entries q a gone) (entries q' (claim_or c a) gone) × (q'.next_id ≡ q.next_id)
  ClaimKeeps q a gone (err e, q') =
      Perm (entries q a gone) (entries q' a gone) × (q'.next_id ≡ q.next_id)

  pub start_head-ClaimKeeps :
      (q : QueueState I) (a : Activity I) (gone : List (Entry I))
      → busy a ≡ false
      → ClaimKeeps q a gone (start_head q)
  start_head-ClaimKeeps q a gone b = elim (start_head-cases q) [
    | inl (_, f) ↦ rw f (Perm.refl _, refl)
    | inr (inl (_, _, f)) ↦ rw f (Perm.refl _, refl)
    | inr (inr s) ↦ rw s.started (begun_perm q a gone s b, refl)
  ]

  pub claim_start-ClaimKeeps :
      (inner : SessionInner) (q : QueueState I) (a : Activity I) (gone : List (Entry I))
      → q.running ≡ busy a
      → ClaimKeeps q a gone (claim_start inner q)
  unfolding claim_start
  claim_start-ClaimKeeps inner q a gone r =
      elim (Bool-cases (q.running || (q.paused || not (can_start inner)))) [
        | inl held_back ↦ rw (held_back, claim_start) (Perm.refl _, refl)
        | inr free ↦ rw (free, claim_start) (start_head-ClaimKeeps q a gone (ground (arith, free)))
      ]

  -- The entry is new, under the next id.
  pub record Adds (entry : Entry I) (w : World I) (v : World I) : Type 0 where
    pub same :
        Perm
          (entry ∷ entries w.session.queue w.activity w.gone)
          (entries v.session.queue v.activity v.gone)
    pub named : entry.id ≡ format_id (w.session.queue.next_id + 1)
    pub next : v.session.queue.next_id ≡ w.session.queue.next_id + 1
    pub room : w.session.queue.next_id + 1 < u64_limit

  abbrev pub Moves : World I → World I → Type 0
  Moves w v = KeepsWorld w v ⊎ ((e : Entry I) × Adds e w v)

  -- A push that is accepted adds the entry that it answers with.
  pub record Queued (text_input : Option I) (m : InputMode) (at : Option Bytes) (w : World I)
      (p : PendingPush I) (v : World I) : Type 0 where
    pub entry : Entry I
    pub adds : Adds entry w v
    pub answers : (entry.id ≡ p.id) × (entry.accepted_at ≡ p.accepted_at)
    pub given : (text_input ≡ some entry.input) × (entry.mode ≡ m) × (entry.accepted_at ≡ at)

  -- What is known of a push and its answer.
  abbrev pub Pushed :
      Option I
      → InputMode
      → Option Bytes
      → World I
      → Result AgentError (PendingPush I) × Session I
      → Type 0
  Pushed i m at w (ok p, s) = Queued i m at w p (after_push w (ok p, s))
  Pushed i m at w (err e, s) = Moves w (after_push w (err e, s))

  Pushed-Moves :
      (i : Option I) (m : InputMode) (at : Option Bytes) (w : World I)
      (r : Result AgentError (PendingPush I) × Session I)
      → Pushed i m at w r
      → Moves w (after_push w r)
  Pushed-Moves i m at w (ok p, s) h = inr (h.entry, h.adds)
  Pushed-Moves i m at w (err e, s) h = h

  push_outcome-Pushed :
      (i : Option I) (m : InputMode) (at : Option Bytes) (w : World I) (e : Entry I)
      (r : Result AgentError (Option (Claim I)) × QueueState I)
      → (i ≡ some e.input) × (e.mode ≡ m) × (e.accepted_at ≡ at)
      → Adds e w (after_push w (push_outcome w.session e r))
      → Pushed i m at w (push_outcome w.session e r)
  unfolding push_outcome
  push_outcome-Pushed i m at w e (ok c, q) g a = record {
    entry = e;
    adds = a;
    answers = (refl, refl);
    given = g;
  }
  push_outcome-Pushed i m at w e (err x, q) g a = inr (e, a)

  grown_perm : (e : Entry I) (xs ys : List (Entry I)) → Perm (e ∷ (xs ++ ys)) ((xs ++ e ∷ []) ++ ys)
  grown_perm e xs ys = rw (append_assoc xs (e ∷ []) ys) (Perm.symm (perm_middle xs ys))

  push_outcome-Adds :
      (w : World I) (e : Entry I) (q : QueueState I)
      (r : Result AgentError (Option (Claim I)) × QueueState I)
      → q.items ≡ w.session.queue.items ++ e ∷ []
      → q.next_id ≡ w.session.queue.next_id + 1
      → e.id ≡ format_id (w.session.queue.next_id + 1)
      → w.session.queue.next_id + 1 < u64_limit
      → ClaimKeeps q w.activity w.gone r
      → Adds e w (after_push w (push_outcome w.session e r))
  unfolding push_outcome after_push
  push_outcome-Adds w e q (ok c, q') i n d room k = record {
    same = Perm.trans (rw i (grown_perm e w.session.queue.items _)) k.0;
    named = d;
    next = k.1 ∙ n;
    room = room;
  }
  push_outcome-Adds w e q (err x, q') i n d room k = record {
    same = Perm.trans (rw i (grown_perm e w.session.queue.items _)) k.0;
    named = d;
    next = k.1 ∙ n;
    room = room;
  }

  push_entry-Pushed :
      (i : Option I) (m : InputMode) (at : Option Bytes) (w : World I) (e : Entry I)
      → WorldInv w
      → (i ≡ some e.input) × (e.mode ≡ m) × (e.accepted_at ≡ at)
      → e.id ≡ format_id (w.session.queue.next_id + 1)
      → w.session.queue.next_id + 1 < u64_limit
      → Pushed i m at w (push_entry w.session e (w.session.queue.next_id + 1))
  unfolding push_entry
  push_entry-Pushed i m at w e v g d room = push_outcome-Pushed i m at w e _ g (
      push_outcome-Adds w e pushed (claim_start w.session.inner pushed) refl refl d room
        (claim_start-ClaimKeeps w.session.inner pushed w.activity w.gone v.running_exact))
    where
      pushed : QueueState I
      pushed = record w.session.queue {
        next_id = w.session.queue.next_id + 1;
        items = w.session.queue.items ++ e ∷ [];
        paused = false;
      }

  refused :
      (i : Option I) (m : InputMode) (at : Option Bytes) (w : World I) (e : AgentError)
      → Pushed i m at w (err e, w.session)
  unfolding after_push
  refused i m at w e = inl (Keeps-refl w)

  admit_input-Pushed :
      (i : Option I) (w : World I) (m : InputMode) (input : I) (at : Option Bytes)
      → WorldInv w
      → i ≡ some input
      → Pushed i m at w (admit_input w.session m input at)
  unfolding admit_input
  admit_input-Pushed i w m input at v g =
      let q = w.session.queue in
      let full_queue = refused i m at w input_queue_full in
      let no_number = refused i m at w internal in
      elim (Bool-cases (ltb (q.next_id + 1) u64_limit)) [
        | inl room ↦
            let added =
              push_entry-Pushed i m at w
                (record {
                  id = format_id (q.next_id + 1);
                  mode = m;
                  input = input;
                  accepted_at = at;
                })
                v (g, refl, refl) refl (ltb→lt _ _ room) in
            ground (arith, room, full_queue, no_number, added)
        | inr full ↦ ground (arith, full, full_queue, no_number)
      ]

  pub push-Pushed :
      (api : UserInputApi I) (w : World I) (m : InputMode) (text : Bytes) (at : Option Bytes)
      → WorldInv w
      → Pushed (api.text text) m at w (accept_input api w.session m text at)
  unfolding accept_input
  push-Pushed api w m text at v = elim (Option-cases (api.text text)) [
    | inl missing ↦ rw (missing, accept_input) (refused none m at w invalid_input)
    | inr (input, given) ↦
        let admitted = admit_input-Pushed (some input) w m input at v refl in
        rw (given, accept_input)
          (ground (
            arith,
            admitted,
            refused (some input) m at w invalid_input,
            refused (some input) m at w session_blocked,
            refused (some input) m at w session_busy,
          ))
  ]

  pub push-Moves :
      (api : UserInputApi I) (w : World I) (m : InputMode) (text : Bytes) (at : Option Bytes)
      → WorldInv w
      → Moves w (after_push w (accept_input api w.session m text at))
  push-Moves api w m text at v =
      Pushed-Moves (api.text text) m at w _ (push-Pushed api w m text at v)
