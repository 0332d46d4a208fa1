-- ===== src/Inputs/Order.antt =====
-- The order in which queued inputs run: what `view` shows, what a start takes and what a failed
-- start gives back.
use minicore_agent.Prelude.{
  ℕ, suc, ◌+◌, ◌≤◌, ◌<◌, ◌≡◌, refl, sym, ap, ◌∙◌, ◌⊎◌, inl, inr, true, false, not, none, some, List,
  [], ◌∷◌, ◌++◌, append-nil, append_assoc, arith, ltb, ltb→lt, lt→ltb, Bool-cases, Option-cases,
  length, get_elem?, is_empty, filter, position, remove_at, insert_at, ok, err, unwrap_or,
}
use mathlib.Core.List.{Perm}
use minicore_agent.Prelude.Splits.{
  SplitAt, position-SplitAt, position-none, filter-append, insert_at-length, remove_at-perm,
  length-remove_at,
}
use minicore_agent.Inputs.{
  internal, InputMode, steer, follow_up, Entry, QueueState, steers, follows, start_head, head,
  restore, u64_limit,
}

module _ {I : Type 0} where
  -- The order in which entries run.
  abbrev pub order : List (Entry I) → List (Entry I)
  order xs = filter steers xs ++ filter follows xs

  -- The order with one more entry, which runs before those of its mode.
  abbrev pub placed : Entry I → List (Entry I) → List (Entry I)
  placed e xs = elim e.mode [
    | steer ↦ e ∷ order xs
    | follow_up ↦ filter steers xs ++ (e ∷ filter follows xs)
  ]

  -- The head is the first entry of the order, also with entries that come later.
  record IsHead (xs : List (Entry I)) (i : ℕ) : Type 0 where
    entry : Entry I
    at : get_elem? xs i ≡ some entry
    is_first : order xs ≡ entry ∷ order (remove_at i xs)
    stays_first : (ys : List (Entry I)) → order (xs ++ ys) ≡ placed entry (remove_at i xs ++ ys)

  order-steer :
      (pre post : List (Entry I)) (e : Entry I)
      → filter steers pre ≡ []
      → steers e ≡ true
      → order (pre ++ e ∷ post) ≡ e ∷ order (pre ++ post)
  order-steer pre post e none_before hit = simp (filter-append, none_before, hit)

  placed-steer : (e : Entry I) (xs : List (Entry I)) → steers e ≡ true → placed e xs ≡ e ∷ order xs
  placed-steer e xs h = ground arith

  steer_IsHead : (xs : List (Entry I)) (i : ℕ) → SplitAt steers xs i → IsHead xs i
  steer_IsHead xs i s = record {
    entry = s.found;
    at = s.at;
    is_first =
        ap order s.whole
        ∙ order-steer s.pre s.post s.found s.none_before s.passes
        ∙ ap (λ r. s.found ∷ order r) (sym s.removed);
    stays_first = λ ys.
        ap (λ r. order (r ++ ys)) s.whole
        ∙ ap order (append_assoc s.pre (s.found ∷ s.post) ys)
        ∙ order-steer s.pre (s.post ++ ys) s.found s.none_before s.passes
        ∙ ap (λ r. s.found ∷ order r) (sym (append_assoc s.pre s.post ys))
        ∙ ap (λ r. s.found ∷ order (r ++ ys)) (sym s.removed)
        ∙ sym (placed-steer s.found (remove_at i xs ++ ys) s.passes);
  }

  follow_IsHead : (xs : List (Entry I)) → filter steers xs ≡ [] → is_empty xs ≡ false → IsHead xs 0
  follow_IsHead [] none_of empty = absurd (cc)
  follow_IsHead (x ∷ xs) none_of empty = record {
    entry = x;
    at = refl;
    is_first = ground arith;
    stays_first = λ ys. ground arith;
  }

  head-IsHead : (q : QueueState I) (i : ℕ) → head q ≡ some i → IsHead q.items i
  unfolding head
  head-IsHead q i e = elim (Option-cases (position steers q.items)) [
    | inl missing ↦
        let zero_eq : i ≡ 0 = ground (arith, missing) in
        rw zero_eq
          (follow_IsHead q.items (position-none steers q.items missing).0 (ground (arith, missing)))
    | inr (j, hit) ↦
        let same : i ≡ j = ground (arith, hit) in
        rw same (steer_IsHead q.items j (position-SplitAt steers q.items j hit))
  ]

  head-none : (q : QueueState I) → head q ≡ none → q.items ≡ []
  unfolding head
  head-none q e = ground arith

  order-insert_follow :
      (pre rest : List (Entry I)) (e : Entry I)
      → filter follows pre ≡ []
      → steers e ≡ false
      → order (pre ++ (e ∷ rest))
        ≡ filter steers (pre ++ rest) ++ (e ∷ filter follows (pre ++ rest))
  order-insert_follow pre rest e none_before m = simp (filter-append, none_before, m, append_assoc)

  not-not-steers : (xs : List (Entry I)) → filter (λ x. not (follows x)) xs ≡ filter steers xs
  not-not-steers [] = refl
  not-not-steers (x ∷ xs) = ground (arith, not-not-steers xs)

  order-insert_before_follows :
      (xs : List (Entry I)) (e : Entry I)
      → steers e ≡ false
      → order (insert_at (unwrap_or (position follows xs) (length xs)) e xs)
        ≡ filter steers xs ++ (e ∷ filter follows xs)
  order-insert_before_follows xs e m = elim (Option-cases (position follows xs)) [
    | inl missing ↦
        let nothing = (position-none follows xs missing).0 in
        rw missing (
          ap order (insert_at-length e xs)
          ∙ order-insert_follow xs [] e nothing m
          ∙ ap (λ r. filter steers r ++ (e ∷ filter follows r)) (append-nil xs))
    | inr (j, hit) ↦
        let s = position-SplitAt follows xs j hit in
        rw hit (
          ap order (s.inserted e)
          ∙ order-insert_follow s.pre (s.found ∷ s.post) e s.none_before m
          ∙ ap (λ r. filter steers r ++ (e ∷ filter follows r)) (sym s.whole))
  ]

  -- An entry given back runs before those of its mode.
  pub order-restore :
      (q : QueueState I) (e : Entry I) → order (restore q e).items ≡ placed e q.items
  unfolding restore
  order-restore q e = cases e.mode refl
    where
      cases : (m : InputMode) → e.mode ≡ m → order (restore q e).items ≡ placed e q.items
      cases steer h = ground arith
      cases follow_up h = ground (arith, order-insert_before_follows q.items e (ground arith))

  -- The queue that a start leaves.
  abbrev pub begun : QueueState I → Entry I → List (Entry I) → QueueState I
  begun q e rest = record q {
    items = rest;
    running = true;
    generation = q.generation + 1;
    binding = some (q.generation + 1);
    starting = some e;
  }

  -- A start takes the first entry of the order.
  pub record Starts (q : QueueState I) : Type 0 where
    pub entry : Entry I
    pub rest : List (Entry I)
    pub room : q.generation + 1 < u64_limit
    pub started : start_head q ≡ (ok (some (entry, q.generation + 1)), begun q entry rest)
    pub items_perm : Perm q.items (entry ∷ rest)
    pub one_less : length q.items ≡ suc (length rest)
    pub is_first : order q.items ≡ entry ∷ order rest
    pub stays_first : (ys : List (Entry I)) → order (q.items ++ ys) ≡ placed entry (rest ++ ys)

  started_at :
      (q : QueueState I) (i : ℕ) → head q ≡ some i → q.generation + 1 < u64_limit → Starts q
  unfolding start_head
  started_at q i e room =
      let h = head-IsHead q i e in
      record {
        entry = h.entry;
        rest = remove_at i q.items;
        room = room;
        started = rw (e, start_head) (rw (lt→ltb _ _ room) (rw (h.at)));
        items_perm = remove_at-perm i q.items h.at;
        one_less = length-remove_at i q.items h.at;
        is_first = h.is_first;
        stays_first = h.stays_first;
      }

  -- `start_head` has three outcomes: an empty queue, no generation left, or the first entry of the
  -- order taken.
  pub start_head-cases :
      (q : QueueState I)
      → ((q.items ≡ []) × (start_head q ≡ (ok none, q)))
        ⊎ ((is_empty q.items ≡ false)
            × (u64_limit ≤ q.generation + 1)
            × (start_head q ≡ (err internal, q)))
        ⊎ Starts q
  unfolding start_head
  start_head-cases q = elim (Option-cases (head q)) [
    | inl e ↦ inl (head-none q e, rw (e, start_head))
    | inr (i, e) ↦ elim (Bool-cases (ltb (q.generation + 1) u64_limit)) [
      | inl room ↦ inr (inr (started_at q i e (ltb→lt _ _ room)))
      | inr full ↦ inr (
          inl
            (unfold head in ground (arith, e), ground (arith, full), rw (e, start_head) (rw full)))
    ]
  ]
