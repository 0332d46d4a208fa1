-- ===== src/Preview/Feeds.antt =====
-- The reader of a tool call's arguments keeps its limits, and does not panic.
use minicore_agent.Prelude.{
  ℕ, ◌≤◌, ◌≡◌, refl, ap, ◌∙◌, subst, inl, inr, Bool, true, false, not, ◌&&◌, ◌||◌, Option, none,
  some, List, [], ◌∷◌, arith, ◌==◌, Bool-cases, length, ok,
}
use minicore_agent.Preview.Escapes.{is_ascii_digit}
use minicore_agent.Preview.Buffers.{
  Text, object_key_or_end, object_key, object_colon, object_value, object_comma_or_end,
  array_value_or_end, array_value, array_comma_or_end, Frame, object, array, Token, string_token,
  number_token, literal_token, Feed, Reserve, fail,
}
use minicore_agent.Preview.Decodes.{escape_safe}
use minicore_agent.Preview.Holds.{Holds, Holds->>=, Holds-if}
use minicore_agent.Preview.Bounds.{Lawful, depth_limit, if-both}
use minicore_agent.Preview.Tokens.{json_space, with_stack}
use minicore_agent.Preview.Steps.{
  is_text_field, is_number_field, after_value, value_field, start_value, at_frame, start_object,
  structural, reread, without_token, token_or_structural, feed_char, feed_delta,
}
use minicore_agent.Preview.Safe.{
  capture_safe-token, token_safe, Inv, Idle, fail-Inv, Idle-Inv, Reads, token_char-Reads,
}
use minicore_agent.Preview.Values.{close-Inv, top-Inv, open_key-Inv, begin_value-Inv}

token_safe-without :
    (token : Token) (s : Feed)
    → token_safe (some token) s.parser ≡ true
    → token_safe (some token) (without_token s).parser ≡ true
token_safe-without (string_token capture escape) s h =
    ap (λ b. escape_safe escape && b) (capture_safe-token capture none s.parser) ∙ h
token_safe-without (number_token state field digits) s h = refl
token_safe-without (literal_token expected index) s h = refl

module _ (others : ℕ) where
  module _ (reserve : Reserve) (lawful : Lawful reserve) where
    start_value-Inv :
        (frame : Frame) (rest : List Frame) (ch : ℕ) (s : Feed)
        → s.parser.stack ≡ frame ∷ rest
        → Idle others s
        → s.parser.started ≡ true
        → Holds (start_value reserve frame rest ch s) (Inv others)
    unfolding start_value
    start_value-Inv frame rest ch s e ((c, d, k), t) begun =
        Holds-if (Inv others)
          ((is_text_field (value_field s.parser) && not (ch == b'"'))
            || (is_number_field (value_field s.parser)
                && not (is_ascii_digit ch)
                && not (ch == b'-')))
          (ok (fail s)) _ (fail-Inv others s ((c, d, k), t))
          (begin_value-Inv others reserve lawful (value_field s.parser) ch
            (with_stack (after_value frame ∷ rest) s)
            ((c, subst (λ x. length x ≤ depth_limit s.parser.started) e d, k), t) begun)

    at_frame-Inv :
        (stack : List Frame) (ch : ℕ) (s : Feed)
        → s.parser.stack ≡ stack
        → Idle others s
        → s.parser.started ≡ true
        → Holds (at_frame reserve stack ch s) (Inv others)
    unfolding at_frame
    at_frame-Inv [] ch s e h begun = fail-Inv others s h
    at_frame-Inv (object object_key_or_end ∷ rest) ch s e h begun =
        if-both (Inv others) (ch == b'}') (close-Inv others _ rest s e h)
          (open_key-Inv others ch _ rest s e h)
    at_frame-Inv (object object_key ∷ rest) ch s e h begun = open_key-Inv others ch _ rest s e h
    at_frame-Inv (object object_colon ∷ rest) ch s e h begun =
        if-both (Inv others) (ch == b':') (top-Inv others _ _ rest s e h) (fail-Inv others s h)
    at_frame-Inv (object object_comma_or_end ∷ rest) ch s e h begun =
        if-both (Inv others) (ch == b',') (top-Inv others _ _ rest s e h)
          (if-both (Inv others) (ch == b'}') (close-Inv others _ rest s e h) (fail-Inv others s h))
    at_frame-Inv (array array_comma_or_end ∷ rest) ch s e h begun =
        if-both (Inv others) (ch == b',') (top-Inv others _ _ rest s e h)
          (if-both (Inv others) (ch == b']') (close-Inv others _ rest s e h) (fail-Inv others s h))
    at_frame-Inv (array array_value_or_end ∷ rest) ch s e h begun =
        Holds-if (Inv others) (ch == b']') _ _ (close-Inv others _ rest s e h)
          (start_value-Inv _ rest ch s e h begun)
    at_frame-Inv (object object_value ∷ rest) ch s e h begun = start_value-Inv _ rest ch s e h begun
    at_frame-Inv (array array_value ∷ rest) ch s e h begun = start_value-Inv _ rest ch s e h begun

    start_object-Inv :
        (ch : ℕ) (s : Feed)
        → Idle others s
        → not s.parser.started ≡ true
        → Inv others (start_object ch s)
    start_object-Inv ch s ((c, d, k), t) n =
        let begun = record s { parser = record s.parser { started = true } } in
        if-both (Inv others) (ch == b'{')
          (Idle-Inv others (with_stack (object object_key_or_end ∷ s.parser.stack) begun)
            ((c, ground (arith, d, n), k), t))
          (fail-Inv others begun ((c, ground (arith, d, n), k), t))

    structural-Inv :
        (ch : ℕ) (s : Feed) → Idle others s → Holds (structural reserve ch s) (Inv others)
    unfolding structural
    structural-Inv ch s h =
        Holds-if (Inv others) (json_space ch) _ _ (Idle-Inv others s h)
          (elim (Bool-cases (not s.parser.started)) [
            | inl fresh ↦ rw fresh (start_object-Inv ch s h fresh)
            | inr begun ↦ rw begun (
                Holds-if (Inv others) s.parser.done _ _ (fail-Inv others s h)
                  (at_frame-Inv s.parser.stack ch s refl h (ground (arith, begun))))
          ])

    reread-Inv :
        (ch : ℕ) (r : Bool × Feed)
        → Reads others reserve lawful r
        → Holds (reread reserve ch r) (Inv others)
    unfolding reread
    reread-Inv ch (true, s) (h, f) = h
    reread-Inv ch (false, s) (h, f) =
        Holds-if (Inv others) s.parser.invalid _ _ h (structural-Inv ch s (h.0, f refl))

    token_or_structural-Inv :
        (token : Option Token) (ch : ℕ) (s : Feed)
        → s.parser.token ≡ token
        → Inv others s
        → Holds (token_or_structural reserve token ch s) (Inv others)
    unfolding token_or_structural
    token_or_structural-Inv none ch s e (k, t) = structural-Inv ch s (k, e)
    token_or_structural-Inv (some token) ch s e (k, t) =
        Holds->>= (Reads others reserve lawful) (Inv others) _ _
          (token_char-Reads others reserve lawful token ch (without_token s) (k, refl)
            (token_safe-without token s (subst (λ x. token_safe x s.parser ≡ true) e t)))
          (reread-Inv ch)

    feed_char-Inv : (ch : ℕ) (s : Feed) → Inv others s → Holds (feed_char reserve ch s) (Inv others)
    unfolding feed_char
    feed_char-Inv ch s h =
        Holds-if (Inv others) s.parser.invalid _ _ h
          (token_or_structural-Inv s.parser.token ch s refl h)

    -- Reading any text does not panic, and keeps the invariant.
    pub feed_delta-Inv :
        (delta : Text) (s : Feed) → Inv others s → Holds (feed_delta reserve delta s) (Inv others)
    unfolding feed_delta
    feed_delta-Inv [] s h = h
    feed_delta-Inv (ch ∷ delta) s h =
        Holds->>= (Inv others) (Inv others) _ _ (feed_char-Inv ch s h) (feed_delta-Inv delta)
