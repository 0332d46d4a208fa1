-- ===== src/Preview/Safe.antt =====
-- What the reader keeps stays within its limits: its steps.
use minicore_agent.Prelude.{
  ℕ, ◌+◌, ◌≤◌, ◌≡◌, refl, ◌∙◌, ap, subst, ◌≢◌, inl, inr, Bool, true, false, not, ◌&&◌, Option, none,
  some, List, [], ◌∷◌, arith, ltb, leb, ◌==◌, ◌==?◌, Bool-cases, Option-cases, length, get_elem?,
  is_empty, is_some,
}
use minicore_agent.Budget.{len_utf8}
use minicore_agent.Preview.Escapes.{Escape, NumberState, is_complete_number, next_number}
use minicore_agent.Preview.Buffers.{
  Text, text_len, Field, ignore_field, path_field, content_field, offset_field, limit_field, bit,
  has_bit, object_key_or_end, object_key, object_colon, object_value, object_comma_or_end, Frame,
  object, array, Capture, capture_key, capture_ignore, capture_field, Token, string_token,
  number_token, literal_token, PreviewParser, Feed, Reserve, capture_in_key, capture_char, fail,
}
use minicore_agent.Preview.Holds.{Holds, Holds->>=, Holds-map, Holds-if}
use minicore_agent.Preview.Bounds.{
  Lawful, depth_limit, Kept, Holding, capture_text-Holding, if-both, text_len-append,
}
use minicore_agent.Preview.Decodes.{escape_safe, Decodes, decode-Decodes}
use minicore_agent.Preview.Tokens.{
  after_decode, with_stack, key_field, with_field, accept_key, on_top, finish_key, after_string,
  finish_string, is_plain, capture_decoded, string_char, literal_char, is_ignored, parse_u64,
  store_number, ends_number, number_after, number_char, token_char,
}

-- Whether a capture may go on: a key has its object, and a captured text its buffer.
abbrev pub capture_safe : Capture → PreviewParser → Bool
capture_safe capture_key p = not (is_empty p.stack)
capture_safe capture_ignore p = true
capture_safe (capture_field ignore_field) p = true
capture_safe (capture_field path_field) p = is_some p.path
capture_safe (capture_field content_field) p = is_some p.content
capture_safe (capture_field offset_field) p = true
capture_safe (capture_field limit_field) p = true

-- Whether a token may go on.
abbrev pub token_safe : Option Token → PreviewParser → Bool
token_safe none p = true
token_safe (some (string_token capture escape)) p = escape_safe escape && capture_safe capture p
token_safe (some (number_token state field digits)) p = true
token_safe (some (literal_token expected index)) p = true

pub capture_safe-token :
    (capture : Capture) (token : Option Token) (p : PreviewParser)
    → capture_safe capture (record p { token = token }) ≡ capture_safe capture p
capture_safe-token capture_key token p = refl
capture_safe-token capture_ignore token p = refl
capture_safe-token (capture_field ignore_field) token p = refl
capture_safe-token (capture_field path_field) token p = refl
capture_safe-token (capture_field content_field) token p = refl
capture_safe-token (capture_field offset_field) token p = refl
capture_safe-token (capture_field limit_field) token p = refl

-- The invariant of the reader, of a stream whose other calls are charged `others`.
abbrev pub Inv : ℕ → Feed → Type 0
Inv others s = Kept others s × (token_safe s.parser.token s.parser ≡ true)

-- The invariant between two tokens.
abbrev pub Idle : ℕ → Feed → Type 0
Idle others s = Kept others s × (s.parser.token ≡ none)

both : {a b : Bool} → a ≡ true → b ≡ true → a && b ≡ true
both h k = ground (arith, h, k)

each : {a b : Bool} → a && b ≡ true → (a ≡ true) × (b ≡ true)
each h = (ground (arith, h), ground (arith, h))

true≢false : true ≢ false
true≢false e = cc

module _ (others : ℕ) where
  pub Idle-Inv : (s : Feed) → Idle others s → Inv others s
  Idle-Inv s (k, e) = (k, ap (λ t. token_safe t s.parser) e)

  fail-Idle : (s : Feed) → Idle others s → Idle others (fail s)
  unfolding fail
  fail-Idle s ((c, d, k), e) =
      if-both (Idle others) s.parser.invalid ((c, d, k), e)
        (
          (
            record {
              charged = omega arith;
              fits_call = omega arith;
              share = omega (arith, c.share);
              fits_stream = omega (arith, c.fits_stream);
              held = (omega arith, omega arith);
            },
            omega arith,
            omega arith,
          ),
          refl,
        )

  pub fail-Inv : (s : Feed) → Idle others s → Inv others (fail s)
  fail-Inv s h = Idle-Inv (fail s) (fail-Idle s h)

  pub with_stack-Idle :
      (stack : List Frame) (s : Feed)
      → length stack ≤ depth_limit s.parser.started
      → Idle others s
      → Idle others (with_stack stack s)
  with_stack-Idle stack s l ((c, d, k), e) = ((c, l, k), e)

  accepted :
      (s : Feed) (field : Field) (stack : List Frame)
      → Idle others s
      → s.parser.stack ≡ stack
      → not (is_empty stack) ≡ true
      → Holds (on_top (λ frame rest. accept_key field rest s) stack) (Idle others)
  accepted s field [] h e n = cc
  accepted s field (frame ∷ rest) ((c, d, k), t) e n =
      ((c, subst (λ x. length x ≤ depth_limit s.parser.started) e d, omega arith), t)

  finish_key-Idle :
      (s : Feed)
      → Idle others s
      → not (is_empty s.parser.stack) ≡ true
      → Holds (finish_key s) (Idle others)
  unfolding finish_key
  finish_key-Idle s h n =
      Holds-if _ (has_bit s.parser.seen (bit (key_field s.parser))) _ _
        (fail-Idle (with_field (key_field s.parser) s) h)
        (accepted s (key_field s.parser) s.parser.stack h refl n)

  after_string-Idle :
      (s : Feed) (stack : List Frame)
      → s.parser.stack ≡ stack
      → Idle others s
      → Idle others (after_string stack s)
  after_string-Idle s [] e h = h
  after_string-Idle s (object object_key_or_end ∷ rest) e ((c, d, k), t) =
      ((c, subst (λ x. length x ≤ depth_limit s.parser.started) e d, k), t)
  after_string-Idle s (object object_key ∷ rest) e ((c, d, k), t) =
      ((c, subst (λ x. length x ≤ depth_limit s.parser.started) e d, k), t)
  after_string-Idle s (object object_colon ∷ rest) e h = h
  after_string-Idle s (object object_value ∷ rest) e h = h
  after_string-Idle s (object object_comma_or_end ∷ rest) e h = h
  after_string-Idle s (array state ∷ rest) e h = h

  finish_string-Idle :
      (capture : Capture) (escape : Escape) (s : Feed)
      → Idle others s
      → capture_safe capture s.parser ≡ true
      → Holds (finish_string capture s) (Idle others)
  unfolding finish_string
  finish_string-Idle capture_key escape s h n = finish_key-Idle s h n
  finish_string-Idle capture_ignore escape s h n = after_string-Idle s s.parser.stack refl h
  finish_string-Idle (capture_field field) escape s h n = after_string-Idle s s.parser.stack refl h

  -- What holds after a character was captured.
  abbrev Captured : Capture → Feed → Type 0
  Captured capture s = Kept others s × (capture_safe capture s.parser ≡ true)

  key-Captured :
      (ch : ℕ) (s : Feed)
      → Captured capture_key s
      → Captured capture_key (record s { parser = capture_in_key ch s.parser })
  key-Captured ch s ((c, d, k), t) =
      elim (Bool-cases
        (leb (text_len s.parser.key + len_utf8 ch) 32 && not s.parser.key_overflow)) [
          | inl fits ↦
              rw fits ((c, d, ground (arith, fits, text_len-append s.parser.key (ch ∷ []))), t)
          | inr full ↦ rw full ((c, d, k), t)
        ]

  module _ (reserve : Reserve) (lawful : Lawful reserve) where
    Holding-path : (s : Feed) → Holding others false s → Captured (capture_field path_field) s
    Holding-path s (k, p) = (k, p)

    Holding-content : (s : Feed) → Holding others true s → Captured (capture_field content_field) s
    Holding-content s (k, p) = (k, p)

    capture_char-Captured :
        (capture : Capture) (ch : ℕ) (s : Feed)
        → Captured capture s
        → Holds (capture_char reserve capture ch s) (Captured capture)
    unfolding capture_char
    capture_char-Captured capture_key ch s h = key-Captured ch s h
    capture_char-Captured capture_ignore ch s h = h
    capture_char-Captured (capture_field path_field) ch s (k, t) =
        Holds-map (Holding-path) _ (capture_text-Holding others reserve lawful false ch s (k, t))
    capture_char-Captured (capture_field content_field) ch s (k, t) =
        Holds-map (Holding-content) _ (capture_text-Holding others reserve lawful true ch s (k, t))
    capture_char-Captured (capture_field ignore_field) ch s h = h
    capture_char-Captured (capture_field offset_field) ch s h = h
    capture_char-Captured (capture_field limit_field) ch s h = h

    capture_decoded-Captured :
        (capture : Capture) (ch : Option ℕ) (s : Feed)
        → Captured capture s
        → Holds (capture_decoded reserve capture ch s) (Captured capture)
    capture_decoded-Captured capture none s h = h
    capture_decoded-Captured capture (some ch) s h = capture_char-Captured capture ch s h

    after_decode-Inv :
        (capture : Capture) (decoded : Option (Escape × Option ℕ)) (s : Feed)
        → Idle others s
        → capture_safe capture s.parser ≡ true
        → Decodes decoded
        → Holds (after_decode reserve capture decoded s) (Inv others)
    after_decode-Inv capture none s h t d = fail-Inv s h
    after_decode-Inv capture (some (next, ch)) s h t d =
        Holds->>= (Captured capture) (Inv others) _ _
          (capture_decoded-Captured capture ch s (h.0, t))
          λ r (k, t'). (
            k,
            both d (capture_safe-token capture (some (string_token capture next)) r.parser ∙ t'),
          )

    string_char-Inv :
        (capture : Capture) (escape : Escape) (ch : ℕ) (s : Feed)
        → Idle others s
        → token_safe (some (string_token capture escape)) s.parser ≡ true
        → Holds (string_char reserve capture escape ch s) (Inv others)
    unfolding string_char
    string_char-Inv capture escape ch s h t =
        let (safe, kept) = each t in
        Holds-if _ (is_plain escape && ch == b'"') _ _
          (Holds-map Idle-Inv _ (finish_string-Idle capture escape s h kept))
          (Holds->>= Decodes (Inv others) _ _ (decode-Decodes escape ch safe)
            λ decoded d. after_decode-Inv capture decoded s h kept d)

    -- After a token's character: the invariant, and no token where the character is read again.
    abbrev pub Reads : Bool × Feed → Type 0
    Reads r = Inv others r.1 × (r.0 ≡ false → r.1.parser.token ≡ none)

    Idle-Reads : (s : Feed) → Idle others s → Reads (false, s)
    Idle-Reads s h = (Idle-Inv s h, λ e. h.1)

    consumed-Reads : (s : Feed) → Inv others s → Reads (true, s)
    consumed-Reads s h = (h, λ e. absurd (true≢false e))

    literal_char-Inv :
        (expected : Text) (index ch : ℕ) (s : Feed)
        → Idle others s
        → Inv others (literal_char expected index ch s)
    unfolding literal_char
    literal_char-Inv expected index ch s h =
        if-both (Inv others) (not (get_elem? expected index ==? ch)) (fail-Inv s h)
          (if-both (Inv others) (ltb (index + 1) (length expected)) (h.0, refl) (Idle-Inv s h))

    store_number-Idle :
        (field : Field) (digits : Text) (s : Feed)
        → Idle others s
        → Idle others (store_number field digits s)
    store_number-Idle field digits s h = elim (Option-cases (parse_u64 digits)) [
      | inl wrong ↦ rw wrong (if-both (Idle others) (is_ignored field) h (fail-Idle s h))
      | inr (value, e) ↦ rw e (
          if-both (Idle others) (is_ignored field) h (
            if-both (Idle others) (ltb 0 value)
              (if-both (λ p. Idle others (record s { parser = p })) (bit field == 4) h h)
              (fail-Idle s h)))
    ]

    number_after-Reads :
        (next : Option NumberState) (state : NumberState) (field : Field) (digits : Text) (ch : ℕ)
        (s : Feed)
        → Idle others s
        → Reads (number_after next state field digits ch s)
    number_after-Reads none state field digits ch s h =
        if-both Reads (is_complete_number state && ends_number ch)
          (Idle-Reads (store_number field digits s) (store_number-Idle field digits s h))
          (consumed-Reads (fail s) (fail-Inv s h))
    number_after-Reads (some next) state field digits ch s h =
        if-both Reads (not (is_ignored field) && leb 20 (length digits))
          (consumed-Reads (fail s) (fail-Inv s h)) ((h.0, refl), λ e. absurd (true≢false e))

    pub token_char-Reads :
        (token : Token) (ch : ℕ) (s : Feed)
        → Idle others s
        → token_safe (some token) s.parser ≡ true
        → Holds (token_char reserve token ch s) Reads
    unfolding token_char number_char
    token_char-Reads (string_token capture escape) ch s h t =
        Holds->>= (Inv others) Reads _ _ (string_char-Inv capture escape ch s h t) consumed-Reads
    token_char-Reads (literal_token expected index) ch s h t =
        consumed-Reads _ (literal_char-Inv expected index ch s h)
    token_char-Reads (number_token state field digits) ch s h t =
        number_after-Reads (next_number state ch) state field digits ch s h
