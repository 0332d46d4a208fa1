-- ===== src/Preview/Tokens.antt =====
-- The characters within a token: `token_char` of `PreviewParser` and what it calls.
use minicore_agent.Prelude.{
  ℕ, ◌+◌, Bool, true, false, not, ◌&&◌, ◌||◌, Option, none, some, List, [], ◌∷◌, ◌++◌, ltb, leb,
  ◌==◌, ◌==?◌, if◌then◌else◌, length, get_elem?, Result, ok, err, ◌>>=◌,
}
use minicore_agent.Prelude.Bytes.{codes, bytes_eq}
use minicore_agent.Unified.Text.{is_decimal, parse_usize}
use minicore_agent.Preview.Escapes.{
  Escape, plain, decode, NumberState, is_complete_number, next_number,
}
use minicore_agent.Preview.Buffers.{
  Text, Field, ignore_field, path_field, content_field, offset_field, limit_field, bit, has_bit,
  or_bit, object_key_or_end, object_key, object_colon, object_value, object_comma_or_end, Frame,
  object, array, Capture, capture_key, capture_ignore, capture_field, Token, string_token,
  number_token, literal_token, PreviewParser, Feed, Reserve, fail, capture_char,
}
use minicore_agent.Preview.Escapes.{Panic, unwrapped_none}

-- `PreviewParser::new`
abbrev pub preview_parser_new : (name : Text) → PreviewParser
preview_parser_new name = record {
  write = bytes_eq name (codes "write");
  read = bytes_eq name (codes "read");
  started = false;
  done = false;
  stack = [];
  token = none;
  key = [];
  key_overflow = false;
  field = ignore_field;
  seen = 0;
  path = none;
  content = none;
  offset = none;
  limit = none;
  retained = 0;
  path_cut = false;
  body_cut = false;
  invalid = false;
  changes = 0;
}

-- `PreviewParser::complete`
abbrev pub is_complete : PreviewParser → Bool
is_complete p = p.done && not p.invalid

abbrev pub json_space : ℕ → Bool
json_space ch = ch == b' ' || ch == b'\t' || ch == b'\r' || ch == b'\n'

abbrev pub with_stack : List Frame → Feed → Feed
with_stack stack s = record s { parser = record s.parser { stack = stack } }

abbrev pub with_token : Token → Feed → Feed
with_token token s = record s { parser = record s.parser { token = some token } }

-- The field that a key names.
abbrev pub key_field : PreviewParser → Field
key_field p =
    if p.key_overflow
    then ignore_field
    else if bytes_eq p.key (codes "path") || bytes_eq p.key (codes "file_path")
    then path_field
    else if bytes_eq p.key (codes "content") && p.write
    then content_field
    else if bytes_eq p.key (codes "offset") && p.read
    then offset_field
    else if bytes_eq p.key (codes "limit") && p.read
    then limit_field
    else ignore_field

abbrev pub with_field : Field → Feed → Feed
with_field field s = record s { parser = record s.parser { field = field } }

-- The end of `finish_key`, for a key that was not seen.
abbrev pub accept_key : Field → List Frame → Feed → Feed
accept_key field rest s = record s {
  parser = record s.parser {
    field = field;
    seen = or_bit s.parser.seen (bit field);
    key = [];
    stack = object object_colon ∷ rest;
  };
}

-- What `last_mut().unwrap()` leads to.
abbrev pub on_top : (Frame → List Frame → Feed) → List Frame → Result Panic Feed
on_top next [] = err unwrapped_none
on_top next (frame ∷ rest) = ok (next frame rest)

unfoldable pub finish_key : Feed → Result Panic Feed
finish_key s =
    let field = key_field s.parser in
    if has_bit s.parser.seen (bit field)
    then ok (fail (with_field field s))
    else on_top (λ frame rest. accept_key field rest s) s.parser.stack

-- The end of a string that is not a key of the outermost object.
abbrev pub after_string : List Frame → Feed → Feed
after_string [] s = s
after_string (object object_key_or_end ∷ rest) s = with_stack (object object_colon ∷ rest) s
after_string (object object_key ∷ rest) s = with_stack (object object_colon ∷ rest) s
after_string (object object_colon ∷ rest) s = s
after_string (object object_value ∷ rest) s = s
after_string (object object_comma_or_end ∷ rest) s = s
after_string (array state ∷ rest) s = s

unfoldable pub finish_string : Capture → Feed → Result Panic Feed
finish_string capture_key s = finish_key s
finish_string capture_ignore s = ok (after_string s.parser.stack s)
finish_string (capture_field field) s = ok (after_string s.parser.stack s)

abbrev pub is_plain : Escape → Bool
is_plain e = elim e [
  | plain ↦ true
  | Escape.slash ↦ false
  | Escape.unicode digits value ↦ false
  | Escape.low_slash high ↦ false
  | Escape.low_u high ↦ false
  | Escape.low_unicode high digits value ↦ false
]

-- `if let Some(ch) = decoded { self.capture(capture, ch, bytes) }`
abbrev pub capture_decoded : Reserve → Capture → Option ℕ → Feed → Result Panic Feed
capture_decoded reserve capture none s = ok s
capture_decoded reserve capture (some ch) s = capture_char reserve capture ch s

-- `let Some((escape, decoded)) = escape.decode(ch) else { .. }`, and what follows.
abbrev pub after_decode : Reserve → Capture → Option (Escape × Option ℕ) → Feed → Result Panic Feed
after_decode reserve capture none s = ok (fail s)
after_decode reserve capture (some step) s = capture_decoded reserve capture step.1 s >>= λ t.
    ok (with_token (string_token capture step.0) t)

unfoldable pub string_char : Reserve → Capture → Escape → ℕ → Feed → Result Panic Feed
string_char reserve capture escape ch s =
    if is_plain escape && ch == b'"'
    then finish_string capture s
    else do decoded ← decode escape ch; after_decode reserve capture decoded s

unfoldable pub literal_char : Text → ℕ → ℕ → Feed → Feed
literal_char expected index ch s =
    if not (get_elem? expected index ==? ch)
    then fail s
    else if ltb (index + 1) (length expected)
    then with_token (literal_token expected (index + 1)) s
    else s

abbrev pub is_ignored : Field → Bool
is_ignored field = bit field == 0

-- The value of `offset` or `limit`.
abbrev pub with_number : Field → ℕ → PreviewParser → PreviewParser
with_number field value p =
    if bit field == 4
    then record p { offset = some value; changes = p.changes + 1 }
    else record p { limit = some value; changes = p.changes + 1 }

-- `digits.parse::<u64>()`; the digits may hold a sign, a point or an exponent.
abbrev pub parse_u64 : Text → Option ℕ
parse_u64 digits = if is_decimal digits then parse_usize digits else none

abbrev pub store_number : Field → Text → Feed → Feed
store_number field digits s = if is_ignored field then s else elim (parse_u64 digits) [
  | none ↦ fail s
  | some value ↦
      if ltb 0 value then record s { parser = with_number field value s.parser } else fail s
]

abbrev pub ends_number : ℕ → Bool
ends_number ch = json_space ch || ch == b',' || ch == b']' || ch == b'}'

-- What follows the table of the next states.
abbrev pub number_after : Option NumberState → NumberState → Field → Text → ℕ → Feed → Bool × Feed
number_after (some next) state field digits ch s =
    if not (is_ignored field) && leb 20 (length digits) then (true, fail s) else (
      true,
      with_token (number_token next field (if is_ignored field then digits else digits ++ ch ∷ []))
          s,
    )
number_after none state field digits ch s =
    if is_complete_number state && ends_number ch
    then (false, store_number field digits s)
    else (true, fail s)

unfoldable pub number_char : NumberState → Field → Text → ℕ → Feed → Bool × Feed
number_char state field digits ch s = number_after (next_number state ch) state field digits ch s

-- `token_char`: whether the character is consumed, and the state.
unfoldable pub token_char : Reserve → Token → ℕ → Feed → Result Panic (Bool × Feed)
token_char reserve (string_token capture escape) ch s =
    string_char reserve capture escape ch s >>= λ t. ok (true, t)
token_char reserve (literal_token expected index) ch s = ok (true, literal_char expected index ch s)
token_char reserve (number_token state field digits) ch s = ok (number_char state field digits ch s)
