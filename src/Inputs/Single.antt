-- ===== src/Inputs/Single.antt =====
-- No start is claimed while another one is under way.
use minicore_agent.Prelude.{
  ◌≡◌, refl, ap, subst, ◌∙◌, inl, inr, Bool, false, ◌&&◌, Option, none, some, [], ◌∷◌, ◌++◌, arith,
  Bool-cases, Option-cases, Result, ok, err, is_some,
}
use minicore_agent.Prelude.Bytes.{Bytes}
use minicore_agent.Inputs.{UserInputApi, AgentError, InputMode, Entry, QueueState}
use minicore_agent.Inputs.Session.{
  SessionInner, Session, Claim, PendingPush, accept_input, accept_resume, claim_after_compaction,
  claim_start, push_entry, push_outcome, admit_input, resume_outcome, compaction_outcome,
}
use minicore_agent.Inputs.World.{World, busy}
use minicore_agent.Inputs.Claims.{Inv}

and-false : (b : Bool) → b && false ≡ false
and-false b = ground arith

module _ {I : Type 0} where
  -- Whether an answer holds a claim.
  abbrev push_claims : Result AgentError (PendingPush I) → Bool
  push_claims (ok p) = is_some p.claim
  push_claims (err e) = false

  abbrev claims : Result AgentError (Option (Claim I)) → Bool
  claims (ok c) = is_some c
  claims (err e) = false

  -- While a start is claimed, a loop is installed or a successor is looked for, none of the
  -- operations that may start a turn claims one.
  pub record OneStart (api : UserInputApi I) (w : World I) : Type 0 where
    pub pushes :
        (mode : InputMode) (text : Bytes) (at : Option Bytes)
        → busy w.activity && push_claims (accept_input api w.session mode text at).0 ≡ false
    pub resumes : busy w.activity && claims (accept_resume w.session).0 ≡ false
    pub compactions : busy w.activity && is_some (claim_after_compaction w.session).0 ≡ false

  claim_start-idle :
      (inner : SessionInner) (q : QueueState I)
      → q.running && claims (claim_start inner q).0 ≡ false
  unfolding claim_start
  claim_start-idle inner q = elim (Bool-cases q.running) [
    | inl running ↦ rw running refl
    | inr idle ↦ rw idle refl
  ]

  push_outcome-claims :
      (s : Session I) (e : Entry I) (r : Result AgentError (Option (Claim I)) × QueueState I)
      → push_claims (push_outcome s e r).0 ≡ claims r.0
  unfolding push_outcome
  push_outcome-claims s e (ok c, q) = refl
  push_outcome-claims s e (err x, q) = refl

  push_entry-idle :
      (s : Session I) (e : Entry I) (next : _)
      → s.queue.running && push_claims (push_entry s e next).0 ≡ false
  unfolding push_entry
  push_entry-idle s e next =
      ap (λ b. s.queue.running && b) (push_outcome-claims s e _)
      ∙ claim_start-idle s.inner
          (record s.queue { next_id = next; items = s.queue.items ++ e ∷ []; paused = false })

  admit_input-idle :
      (s : Session I) (m : InputMode) (input : I) (at : Option Bytes)
      → s.queue.running && push_claims (admit_input s m input at).0 ≡ false
  unfolding admit_input
  admit_input-idle s m input at = grind (arith, push_entry-idle s)

  accept_input-idle :
      (api : UserInputApi I) (s : Session I) (m : InputMode) (text : Bytes) (at : Option Bytes)
      → s.queue.running && push_claims (accept_input api s m text at).0 ≡ false
  unfolding accept_input
  accept_input-idle api s m text at = elim (Option-cases (api.text text)) [
    | inl missing ↦ rw (missing, accept_input) (and-false s.queue.running)
    | inr (input, given) ↦
        let admitted = admit_input-idle s m input at in
        rw (given, accept_input) (ground (arith, admitted))
  ]

  resume_outcome-claims :
      (s : Session I) (r : Result AgentError (Option (Claim I)) × QueueState I)
      → claims (resume_outcome s r).0 ≡ claims r.0
  unfolding resume_outcome
  resume_outcome-claims s (ok none, q) = refl
  resume_outcome-claims s (ok (some c), q) = refl
  resume_outcome-claims s (err x, q) = refl

  accept_resume-idle : (s : Session I) → s.queue.running && claims (accept_resume s).0 ≡ false
  unfolding accept_resume
  accept_resume-idle s =
      let q = record s.queue { paused = false } in
      let resumed : s.queue.running && claims (resume_outcome s (claim_start s.inner q)).0 ≡ false =
        ap (λ b. s.queue.running && b) (resume_outcome-claims s (claim_start s.inner q))
        ∙ claim_start-idle s.inner q in
      ground (arith, resumed)

  compaction_outcome-claims :
      (s : Session I) (r : Result AgentError (Option (Claim I)) × QueueState I)
      → is_some (compaction_outcome s r).0 ≡ claims r.0
  unfolding compaction_outcome
  compaction_outcome-claims s (ok none, q) = refl
  compaction_outcome-claims s (ok (some c), q) = refl
  compaction_outcome-claims s (err x, q) = refl

  compaction-idle :
      (s : Session I) → s.queue.running && is_some (claim_after_compaction s).0 ≡ false
  unfolding claim_after_compaction
  compaction-idle s =
      ap (λ b. s.queue.running && b) (compaction_outcome-claims s (claim_start s.inner s.queue))
      ∙ claim_start-idle s.inner s.queue

  pub Inv-OneStart :
      (api : UserInputApi I) (w : World I) → Inv w.session.queue w.activity → OneStart api w
  Inv-OneStart api w v = record {
    pushes = λ m text at. at_rest _ (accept_input-idle api w.session m text at);
    resumes = at_rest _ (accept_resume-idle w.session);
    compactions = at_rest _ (compaction-idle w.session);
  }
    where
      at_rest : (b : Bool) → w.session.queue.running && b ≡ false → busy w.activity && b ≡ false
      at_rest b h = subst (λ t. t && b ≡ false) v.running_exact h
