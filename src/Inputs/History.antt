-- ===== src/Inputs/History.antt =====
-- Whole histories of a Session's queue: no input is lost, none is there twice.
use minicore_agent.Prelude.{ℕ, zero, suc, ◌+◌, ◌<◌, ◌≡◌, refl, inl, inr, List, [], ◌∷◌, map, arith}
use mathlib.Core.List.{Perm, Nodup, Mem, not-mem-nil, mem-cons, Nodup-cons, Nodup-nil}
use mathlib.Core.List.Perm
use mathlib.Core.Logic.Or
use mathlib.Core.HLevel.{⊥_prop}
use native.Mathlib.Numerals.{add-one}
use minicore_agent.Prelude.Bytes.{Bytes}
use minicore_agent.Inputs.{UserInputApi, Entry, u64_limit}
use minicore_agent.Inputs.Ids.{format_id, format_id-injective}
use minicore_agent.Inputs.Session.{SessionInner}
use minicore_agent.Inputs.World.{World, Event, step, run, start}
use minicore_agent.Inputs.Invariant.{WorldInv, step-Inv, start-Inv}
use minicore_agent.Inputs.Moves.{entries}
use minicore_agent.Inputs.Accounting.{step-Moves}

-- The ids of the first `n` accepted inputs, the last one first.
abbrev pub issued : ℕ → List Bytes
issued zero = []
issued (suc n) = format_id (suc n) ∷ issued n

issued-add_one : (n : ℕ) → issued (n + 1) ≡ format_id (n + 1) ∷ issued n
issued-add_one n = rw add-one refl

not-mem-issued : (m n : ℕ) → n < m → m < u64_limit → ¬ Mem (format_id m) (issued n)
not-mem-issued m zero h k x = not-mem-nil x
not-mem-issued m (suc n) h k x =
    Or.elim ⊥_prop (mem-cons.0 x)
      (λ e. absurd (omega (arith, format_id-injective m (suc n) k (omega arith) e)))
      (not-mem-issued m n (omega arith) k)

Nodup-issued : (n : ℕ) → n < u64_limit → Nodup (issued n)
Nodup-issued zero h = Nodup-nil
Nodup-issued (suc n) h =
    Nodup-cons.1 (not-mem-issued (suc n) n (omega arith) h, Nodup-issued n (omega arith))

module _ {I : Type 0} where
  abbrev pub ids : World I → List Bytes
  ids w = map (λ (e : Entry I). e.id) (entries w.session.queue w.activity w.gone)

  -- The ids in use are those that were issued.
  pub record IsWhole (w : World I) : Type 0 where
    pub inv : WorldInv w
    pub same : Perm (ids w) (issued w.session.queue.next_id)
    pub room : w.session.queue.next_id < u64_limit

  step-IsWhole :
      (api : UserInputApi I) (w : World I) (event : Event) → IsWhole w → IsWhole (step api w event)
  step-IsWhole api w event h = elim (step-Moves api w event h.inv) [
    | inl k ↦ record {
      inv = step-Inv api w event h.inv;
      same = Perm.trans (Perm.symm (Perm.map _ k.same)) (rw k.next h.same);
      room = rw k.next h.room;
    }
    | inr (e, k) ↦ record {
      inv = step-Inv api w event h.inv;
      same = Perm.trans (Perm.symm (Perm.map _ k.same)) (
          rw (k.next, issued-add_one)
            (rw k.named (Perm.cons (format_id (w.session.queue.next_id + 1)) h.same)));
      room = rw k.next k.room;
    }
  ]

  run-IsWhole :
      (api : UserInputApi I) (w : World I) (events : List Event)
      → IsWhole w
      → IsWhole (run api w events)
  unfolding run
  run-IsWhole api w [] h = h
  run-IsWhole api w (event ∷ events) h =
      run-IsWhole api (step api w event) events (step-IsWhole api w event h)

  start-IsWhole : (inner : SessionInner) → IsWhole (start {I = I} inner)
  start-IsWhole inner = record { inv = start-Inv inner; same = Perm.nil; room = omega arith }

  -- In every history, the inputs that are queued, claimed for a start, or gone (started, delivered,
  -- removed or recalled) are exactly the accepted ones, each once: their ids are the ids issued so
  -- far, no two of which are equal.
  pub run-start-ids :
      (api : UserInputApi I) (inner : SessionInner) (events : List Event)
      → Perm
          (ids (run api (start inner) events))
          (issued (run api (start inner) events).session.queue.next_id)
        × Nodup (ids (run api (start inner) events))
  run-start-ids api inner events =
      let h = run-IsWhole api (start inner) events (start-IsWhole inner) in
      (h.same, Perm.nodup (Perm.symm h.same) (Nodup-issued _ h.room))
