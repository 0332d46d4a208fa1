-- ===== src/Inputs/Starts.antt =====
-- What a client sees in the queue when an entry is taken to start a turn, and when it comes back.
use minicore_agent.Prelude.{
  ℕ, ◌+◌, ◌<◌, ◌≡◌, sym, ap, ◌∙◌, inl, inr, true, some, List, ◌∷◌, ◌++◌, map, arith, ok,
}
use minicore_agent.Inputs.{
  UserInputApi, Entry, QueueState, start_head, restore, item, view, u64_limit,
}
use minicore_agent.Inputs.Order.{order, placed, Starts, start_head-cases, order-restore, begun}

module _ {I : Type 0} (api : UserInputApi I) (q q' : QueueState I) (e : Entry I) (g : ℕ)
    (done : start_head q ≡ (ok (some (e, g)), q')) where
  taken : (s : Starts q) × (s.entry ≡ e) × (q' ≡ begun q s.entry s.rest) × (g ≡ q.generation + 1)
  taken = elim (start_head-cases q) [
    | inl (_, f) ↦ absurd (cc)
    | inr (inl (_, _, f)) ↦ absurd (cc)
    | inr (inr s) ↦
        let f = s.started in
        (s, ground (arith, f, done), ground (arith, f, done), ground (arith, f, done))
  ]

  -- A start takes the first item that the queue shows and leaves the others as they were, in their
  -- order; the new generation is the next one, within 64 bits, and the only one bound to the queue,
  -- which is running with that entry as its starting input.
  pub start_head-view :
      ((view api q).items ≡ item api e ∷ (view api q').items)
      × (g ≡ q.generation + 1)
      × (g < u64_limit)
      × (q'.binding ≡ some g)
      × (q'.starting ≡ some e)
      × (q'.running ≡ true)
      × (q'.paused ≡ q.paused)
  unfolding view
  start_head-view =
      let (s, se, sq, sg) = taken in
      let shown : order q.items ≡ e ∷ order q'.items = cc (s.is_first) in
      (
        ap (map (item api)) shown,
        sg,
        omega (arith, s.room),
        ground arith,
        ground arith,
        ground arith,
        ground arith,
      )

  -- A start that is given back leaves the order of the queue as if it had never been tried, also
  -- when other inputs were queued meanwhile.
  pub restore-start_head :
      (ys : List (Entry I))
      → (view api (restore (record q' { items = q'.items ++ ys }) e)).items
        ≡ (view api (record q { items = q.items ++ ys })).items
  unfolding view
  restore-start_head ys =
      let (s, se, sq, sg) = taken in
      let rest_eq : q'.items ≡ s.rest = cc in
      ap (map (item api)) (
        order-restore (record q' { items = q'.items ++ ys }) e
        ∙ ap (placed e) (ap (λ r. r ++ ys) rest_eq)
        ∙ ap (λ x. placed x (s.rest ++ ys)) (sym se)
        ∙ sym (s.stays_first ys))
