-- ===== src/Preview/Values.antt =====
-- The values that the reader begins, and the ends of its frames.
use minicore_agent.Prelude.{
  ℕ, suc, ◌-◌, ◌≤◌, min, ◌≡◌, refl, sym, ap, subst, ◌∙◌, ◌≢◌, inl, inr, true, false, not, ◌||◌,
  Option, some, List, [], ◌∷◌, arith, leb, ◌==◌, if◌then◌else◌, Bool-cases, Option-cases, length,
  is_empty, ok, is_some,
}
use minicore_agent.Preview.Escapes.{plain, is_ascii_digit}
use minicore_agent.Preview.Buffers.{
  max_stream_bytes, max_depth, Buffer, new_buffer, Field, ignore_field, path_field, content_field,
  offset_field, limit_field, Frame, capture_key, capture_ignore, capture_field, string_token,
  PreviewParser, Feed, Reserve, changed, fail,
}
use minicore_agent.Preview.Holds.{Holds, Holds->>=, Holds-if}
use minicore_agent.Preview.Bounds.{
  Lawful, Charges, depth_limit, Kept, Holding, append_display-Holding, if-both,
}
use minicore_agent.Preview.Tokens.{with_stack, with_token}
use minicore_agent.Preview.Steps.{
  close, open_key, spaces, clear_path, reserve_path, or_new, open_field, begin_value,
}
use minicore_agent.Preview.Safe.{token_safe, Inv, Idle, fail-Inv, Idle-Inv, with_stack-Idle}

false≢true : false ≢ true
false≢true e = cc

module _ (others : ℕ) where
  close-Idle :
      (frame : Frame) (rest : List Frame) (s : Feed)
      → s.parser.stack ≡ frame ∷ rest
      → Idle others s
      → Idle others (close rest s)
  close-Idle frame rest s e ((c, d, k), t) =
      let deep : suc (length rest) ≤ depth_limit s.parser.started =
        subst (λ x. length x ≤ depth_limit s.parser.started) e d in
      ((c, omega (arith, deep), k), t)

  pub close-Inv :
      (frame : Frame) (rest : List Frame) (s : Feed)
      → s.parser.stack ≡ frame ∷ rest
      → Idle others s
      → Inv others (close rest s)
  close-Inv frame rest s e h = Idle-Inv others (close rest s) (close-Idle frame rest s e h)

  pub top-Inv :
      (frame frame' : Frame) (rest : List Frame) (s : Feed)
      → s.parser.stack ≡ frame ∷ rest
      → Idle others s
      → Inv others (with_stack (frame' ∷ rest) s)
  top-Inv frame frame' rest s e ((c, d, k), t) =
      Idle-Inv others (with_stack (frame' ∷ rest) s)
        ((c, subst (λ x. length x ≤ depth_limit s.parser.started) e d, k), t)

  key-safe :
      (stack : List Frame) (p : PreviewParser) (frame : Frame) (rest : List Frame)
      → p.stack ≡ frame ∷ rest
      → token_safe
          (some (string_token (if length p.stack == 1 then capture_key else capture_ignore) plain))
          p
        ≡ true
  key-safe stack p frame rest e = elim (Bool-cases (length p.stack == 1)) [
    | inl one ↦ rw one (ap (λ x. not (is_empty x)) e)
    | inr more ↦ rw more refl
  ]

  pub open_key-Inv :
      (ch : ℕ) (frame : Frame) (rest : List Frame) (s : Feed)
      → s.parser.stack ≡ frame ∷ rest
      → Idle others s
      → Inv others (open_key ch s)
  open_key-Inv ch frame rest s e h =
      if-both (Inv others) (ch == b'"')
        (
          (h.0.0, h.0.1, omega arith),
          key-safe s.parser.stack
              (record s.parser {
                key = [];
                key_overflow = false;
                token = some (
                    string_token
                      (if length s.parser.stack == 1 then capture_key else capture_ignore) plain);
              })
              frame rest e,
        )
        (fail-Inv others s h)

  module _ (reserve : Reserve) (lawful : Lawful reserve) where
    new-Charges :
        (a b : Option Buffer) (r n : ℕ)
        → Charges others a b r n
        → Charges others (some new_buffer) b r n
    new-Charges a b r n c = record {
      charged = omega (arith, c.charged);
      fits_call = c.fits_call;
      share = c.share;
      fits_stream = c.fits_stream;
      held = (omega arith, c.held.1);
    }

    -- A field's text is in place for its string.
    abbrev Opened : Field → Feed → Type 0
    Opened field s =
        Kept others s
        × (token_safe (some (string_token (capture_field field) plain)) s.parser ≡ true)

    clear_path-Kept : (s : Feed) → Holding others false s → Holds (clear_path s) (Kept others)
    clear_path-Kept s ((c, d, k), p) = elim (Option-cases s.parser.path) [
      | inl absent ↦ absurd (false≢true (sym (ap is_some absent) ∙ p))
      | inr (buffer, e) ↦
          let c' =
            subst (λ b. Charges others b s.parser.content s.parser.retained s.stream_bytes) e c in
          rw e (
            record {
              charged = c'.charged;
              fits_call = c'.fits_call;
              share = c'.share;
              fits_stream = c'.fits_stream;
              held = (omega arith, c'.held.1);
            },
            d,
            k,
          )
    ]

    reserve_path-Kept : (s : Feed) → Kept others s → Holds (reserve_path reserve s) (Kept others)
    unfolding reserve_path
    reserve_path-Kept s (c, d, k) =
        Holds->>= (λ r. Holding others false r.1) (Kept others) _ _
          (append_display-Holding others reserve lawful false
            (spaces (min 32 (max_stream_bytes - s.stream_bytes)))
            (record s { parser = record s.parser { path = some new_buffer } })
            (
              (new-Charges s.parser.path s.parser.content s.parser.retained s.stream_bytes c, d, k),
              refl,
            ))
          λ r h. clear_path-Kept r.1 h

    content-Opened :
        (s : Feed)
        → Kept others s
        → Opened content_field
            (changed (record s { parser = record s.parser { content = some new_buffer } }))
    content-Opened s (c, d, k) = (
      (
        record {
          charged = omega (arith, c.charged);
          fits_call = c.fits_call;
          share = c.share;
          fits_stream = c.fits_stream;
          held = (c.held.0, omega arith);
        },
        d,
        k,
      ),
      refl,
    )

    path-Opened :
        (s : Feed)
        → Kept others s
        → Opened path_field
            (changed (record s { parser = record s.parser { path = or_new s.parser.path } }))
    path-Opened s (c, d, k) = elim (Option-cases s.parser.path) [
      | inl absent ↦ rw absent (
        (new-Charges s.parser.path s.parser.content s.parser.retained s.stream_bytes c, d, k),
        refl,
      )
      | inr (buffer, e) ↦ rw e (
        (subst (λ b. Charges others b s.parser.content s.parser.retained s.stream_bytes) e c, d, k),
        refl,
      )
    ]

    open_field-Opened :
        (field : Field) (s : Feed)
        → Idle others s
        → Holds (open_field reserve field s) (Opened field)
    unfolding open_field
    open_field-Opened path_field s h = path-Opened s h.0
    open_field-Opened content_field s h =
        Holds->>= (Kept others) (Opened content_field) _ _
          (Holds-if (Kept others) (is_some s.parser.path) (ok s) (reserve_path reserve s) h.0
            (reserve_path-Kept s h.0))
          λ t k. content-Opened t k
    open_field-Opened ignore_field s h = (h.0, refl)
    open_field-Opened offset_field s h = (h.0, refl)
    open_field-Opened limit_field s h = (h.0, refl)

    Opened-Inv :
        (field : Field) (s : Feed)
        → Opened field s
        → Inv others (with_token (string_token (capture_field field) plain) s)
    Opened-Inv ignore_field s (k, t) = (k, refl)
    Opened-Inv path_field s (k, t) = (k, t)
    Opened-Inv content_field s (k, t) = (k, t)
    Opened-Inv offset_field s (k, t) = (k, refl)
    Opened-Inv limit_field s (k, t) = (k, refl)

    pushed-Inv :
        (frame : Frame) (s : Feed)
        → Idle others s
        → s.parser.started ≡ true
        → leb max_depth (length s.parser.stack) ≡ false
        → Inv others (with_stack (frame ∷ s.parser.stack) s)
    pushed-Inv frame s h begun room =
        Idle-Inv others _
          (with_stack-Idle others (frame ∷ s.parser.stack) s (ground (arith, room, begun)) h)

    nested-Inv :
        (frame : Frame) (s : Feed)
        → Idle others s
        → s.parser.started ≡ true
        → Inv others (
            if leb max_depth (length s.parser.stack)
            then fail s
            else with_stack (frame ∷ s.parser.stack) s)
    nested-Inv frame s h begun = elim (Bool-cases (leb max_depth (length s.parser.stack))) [
      | inl deep ↦ rw deep (fail-Inv others s h)
      | inr room ↦ rw room (pushed-Inv frame s h begun room)
    ]

    pub begin_value-Inv :
        (field : Field) (ch : ℕ) (s : Feed)
        → Idle others s
        → s.parser.started ≡ true
        → Holds (begin_value reserve field ch s) (Inv others)
    unfolding begin_value
    begin_value-Inv field ch s h begun =
        Holds-if (Inv others) (ch == b'{' || ch == b'[') _ _ (nested-Inv _ s h begun) (
          Holds-if (Inv others) (ch == b'"') _ _
            (Holds->>= (Opened field) (Inv others) _ _ (open_field-Opened field s h)
              λ t o. Opened-Inv field t o)
            (Holds-if (Inv others) (ch == b'-' || is_ascii_digit ch) _ _ (h.0, refl)
              (Holds-if (Inv others) (ch == b't' || ch == b'f' || ch == b'n') _ _ (h.0, refl)
                (fail-Inv others s h))))
