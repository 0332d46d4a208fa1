-- ===== src/Preview/Steps.antt =====
-- The characters between tokens, and `feed` of `PreviewParser`.
use minicore_agent.Prelude.{
  ℕ, zero, suc, ◌-◌, min, Bool, true, false, not, ◌&&◌, ◌||◌, Option, none, some, List, [], ◌∷◌,
  leb, ◌==◌, if◌then◌else◌, length, is_empty, Result, ok, err, ◌>>=◌, is_some,
}
use minicore_agent.Prelude.Bytes.{codes}
use minicore_agent.Preview.Escapes.{
  plain, NumberState, minus_state, zero_state, integer_state, is_ascii_digit,
}
use minicore_agent.Preview.Buffers.{
  max_depth, max_stream_bytes, Text, Buffer, new_buffer, Field, ignore_field, path_field,
  content_field, offset_field, limit_field, bit, object_key_or_end, object_key, object_colon,
  object_value, object_comma_or_end, array_value_or_end, array_value, array_comma_or_end, Frame,
  object, array, capture_key, capture_ignore, capture_field, Token, string_token, number_token,
  literal_token, PreviewParser, Feed, Reserve, fail, append_display, changed,
}
use minicore_agent.Preview.Escapes.{Panic, unwrapped_none}
use minicore_agent.Preview.Tokens.{json_space, with_stack, with_token, is_ignored, token_char}

-- `close`
abbrev pub close : List Frame → Feed → Feed
close rest s = record s {
  parser = record s.parser { stack = rest; done = s.parser.done || is_empty rest };
}

abbrev pub open_key : ℕ → Feed → Feed
open_key ch s =
    if ch == b'"'
    then record s {
      parser = record s.parser {
        key = [];
        key_overflow = false;
        token = some (
            string_token (if length s.parser.stack == 1 then capture_key else capture_ignore)
              plain);
      };
    }
    else fail s

-- `" ".repeat(n)`
abbrev pub spaces : ℕ → Text
spaces zero = []
spaces (suc n) = b' ' ∷ spaces n

-- `self.path.as_mut().unwrap().clear()`
abbrev pub clear_path : Feed → Result Panic Feed
clear_path s = elim s.parser.path [
  | none ↦ err unwrapped_none
  | some buffer ↦
      ok (record s { parser = record s.parser { path = some (record buffer { text = [] }) } })
]

-- The space kept for a path that comes after the content.
unfoldable pub reserve_path : Reserve → Feed → Result Panic Feed
reserve_path reserve s = do
  reserved ←
      append_display reserve false (spaces (min 32 (max_stream_bytes - s.stream_bytes)))
        (record s { parser = record s.parser { path = some new_buffer } })
  clear_path reserved.1

abbrev pub or_new : Option Buffer → Option Buffer
or_new none = some new_buffer
or_new (some buffer) = some buffer

-- What the start of a string does for its field.
unfoldable pub open_field : Reserve → Field → Feed → Result Panic Feed
open_field reserve path_field s =
    ok (changed (record s { parser = record s.parser { path = or_new s.parser.path } }))
open_field reserve content_field s = do
  t ← (if is_some s.parser.path then ok s else reserve_path reserve s)
  ok (changed (record t { parser = record t.parser { content = some new_buffer } }))
open_field reserve ignore_field s = ok s
open_field reserve offset_field s = ok s
open_field reserve limit_field s = ok s

abbrev pub first_number : ℕ → NumberState
first_number ch =
    if ch == b'-' then minus_state else if ch == b'0' then zero_state else integer_state

abbrev pub literal_of : ℕ → Text
literal_of ch =
    if ch == b't' then codes "true" else if ch == b'f' then codes "false" else codes "null"

-- The inner `match ch` of a value.
unfoldable pub begin_value : Reserve → Field → ℕ → Feed → Result Panic Feed
begin_value reserve field ch s =
    if ch == b'{' || ch == b'['
    then ok (
        if leb max_depth (length s.parser.stack)
        then fail s
        else with_stack
            ((if ch == b'{' then object object_key_or_end else array array_value_or_end)
              ∷ s.parser.stack)
            s)
    else if ch == b'"'
    then (open_field reserve field s >>= λ t.
        ok (with_token (string_token (capture_field field) plain) t))
    else if ch == b'-' || is_ascii_digit ch
    then ok (
        with_token (number_token (first_number ch) field (if is_ignored field then [] else ch ∷ []))
          s)
    else if ch == b't' || ch == b'f' || ch == b'n'
    then ok (with_token (literal_token (literal_of ch) 1) s)
    else ok (fail s)

abbrev pub is_text_field : Field → Bool
is_text_field field = bit field == 1 || bit field == 2

abbrev pub is_number_field : Field → Bool
is_number_field field = bit field == 4 || bit field == 8

abbrev pub after_value : Frame → Frame
after_value (object state) = object object_comma_or_end
after_value (array state) = array array_comma_or_end

-- The field that a value is for: only the outermost object has fields.
abbrev pub value_field : PreviewParser → Field
value_field p = if length p.stack == 1 then p.field else ignore_field

unfoldable pub start_value : Reserve → Frame → List Frame → ℕ → Feed → Result Panic Feed
start_value reserve frame rest ch s =
    let field = value_field s.parser in
    if (is_text_field field && not (ch == b'"'))
      || (is_number_field field && not (is_ascii_digit ch) && not (ch == b'-'))
    then ok (fail s)
    else begin_value reserve field ch (with_stack (after_value frame ∷ rest) s)

-- `match self.stack.last().copied()`
unfoldable pub at_frame : Reserve → List Frame → ℕ → Feed → Result Panic Feed
at_frame reserve [] ch s = ok (fail s)
at_frame reserve (object object_key_or_end ∷ rest) ch s =
    ok (if ch == b'}' then close rest s else open_key ch s)
at_frame reserve (object object_key ∷ rest) ch s = ok (open_key ch s)
at_frame reserve (object object_colon ∷ rest) ch s =
    ok (if ch == b':' then with_stack (object object_value ∷ rest) s else fail s)
at_frame reserve (object object_comma_or_end ∷ rest) ch s = ok (
    if ch == b','
    then with_stack (object object_key ∷ rest) s
    else if ch == b'}'
    then close rest s
    else fail s)
at_frame reserve (array array_comma_or_end ∷ rest) ch s = ok (
    if ch == b','
    then with_stack (array array_value ∷ rest) s
    else if ch == b']'
    then close rest s
    else fail s)
at_frame reserve (array array_value_or_end ∷ rest) ch s =
    let value = start_value reserve (array array_value_or_end) rest ch s in
    if ch == b']' then ok (close rest s) else value
at_frame reserve (object object_value ∷ rest) ch s =
    start_value reserve (object object_value) rest ch s
at_frame reserve (array array_value ∷ rest) ch s = start_value reserve (array array_value) rest ch s

abbrev pub start_object : ℕ → Feed → Feed
start_object ch s =
    let begun = record s { parser = record s.parser { started = true } } in
    if ch == b'{' then with_stack (object object_key_or_end ∷ s.parser.stack) begun else fail begun

unfoldable pub structural : Reserve → ℕ → Feed → Result Panic Feed
structural reserve ch s =
    if json_space ch
    then ok s
    else if not s.parser.started
    then ok (start_object ch s)
    else if s.parser.done
    then ok (fail s)
    else at_frame reserve s.parser.stack ch s

-- After `token_char`: a terminator that is not consumed is read again.
unfoldable pub reread : Reserve → ℕ → Bool × Feed → Result Panic Feed
reread reserve ch (consumed, s) =
    if consumed || s.parser.invalid then ok s else structural reserve ch s

-- `self.token.take()`
abbrev pub without_token : Feed → Feed
without_token s = record s { parser = record s.parser { token = none } }

unfoldable pub token_or_structural : Reserve → Option Token → ℕ → Feed → Result Panic Feed
token_or_structural reserve none ch s = structural reserve ch s
token_or_structural reserve (some token) ch s =
    token_char reserve token ch (without_token s) >>= reread reserve ch

-- A turn of `feed`; an invalid parser stays as it is.
unfoldable pub feed_char : Reserve → ℕ → Feed → Result Panic Feed
feed_char reserve ch s =
    if s.parser.invalid then ok s else token_or_structural reserve s.parser.token ch s

unfoldable pub feed_delta : Reserve → Text → Feed → Result Panic Feed
feed_delta reserve [] s = ok s
feed_delta reserve (ch ∷ delta) s = feed_char reserve ch s >>= feed_delta reserve delta
