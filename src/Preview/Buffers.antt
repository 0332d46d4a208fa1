-- ===== src/Preview/Buffers.antt =====
-- The state of `PreviewParser`, and the text it keeps within its limits.
use minicore_agent.Prelude.{
  ℕ, ◌+◌, ◌-◌, ◌*◌, ◌/◌, ◌%◌, ◌^◌, min, max, Bool, true, false, not, ◌&&◌, ◌||◌, Option, none, some,
  List, [], ◌∷◌, ◌++◌, ltb, leb, ◌==◌, if◌then◌else◌, Result, ok, ◌>>=◌, ok_or,
}
use minicore_agent.Prelude.Bytes.{codes}
use minicore_agent.Budget.{len_utf8}
use minicore_agent.Preview.Escapes.{Escape, NumberState, Panic, unwrapped_none, sub_from}

-- `MAX_CALL_BYTES`, `MAX_STREAM_BYTES`, `MAX_DEPTH` and `MAX_DETAIL_BYTES`
abbrev pub max_call_bytes : ℕ
max_call_bytes = 128 * 1024

abbrev pub max_stream_bytes : ℕ
max_stream_bytes = 512 * 1024

abbrev pub max_depth : ℕ
max_depth = 64

abbrev pub max_detail_bytes : ℕ
max_detail_bytes = 512

abbrev pub Text : Type 0
Text = List ℕ

-- `str::len`
abbrev pub text_len : Text → ℕ
text_len [] = 0
text_len (c ∷ text) = len_utf8 c + text_len text

-- A `String`: its characters and its capacity.
pub record Buffer : Type 0 where
  pub text : Text
  pub capacity : ℕ

-- `String::new()`
abbrev pub new_buffer : Buffer
new_buffer = record { text = []; capacity = 0 }

pub data Field : Type 0 where
  ignore_field path_field content_field offset_field limit_field : Field

-- `Field::bit`
abbrev pub bit : Field → ℕ
bit ignore_field = 0
bit path_field = 1
bit content_field = 2
bit offset_field = 4
bit limit_field = 8

-- `seen & bit != 0`, where `bit` is a power of 2 or 0.
abbrev pub has_bit : ℕ → ℕ → Bool
has_bit seen b = not (b == 0) && (seen / max b 1 % 2 == 1)

-- `seen | bit`
abbrev pub or_bit : ℕ → ℕ → ℕ
or_bit seen b = if has_bit seen b then seen else seen + b

pub data ObjectState : Type 0 where
  object_key_or_end object_key object_colon object_value object_comma_or_end : ObjectState

pub data ArrayState : Type 0 where
  array_value_or_end array_value array_comma_or_end : ArrayState

pub data Frame : Type 0 where
  object : ObjectState → Frame
  array : ArrayState → Frame

pub data Capture : Type 0 where
  capture_key capture_ignore : Capture
  capture_field : Field → Capture

pub data Token : Type 0 where
  string_token : (capture : Capture) (escape : Escape) → Token
  number_token : (state : NumberState) (field : Field) (digits : Text) → Token
  literal_token : (expected : Text) (index : ℕ) → Token

pub record PreviewParser : Type 0 where
  pub write : Bool
  pub read : Bool
  pub started : Bool
  pub done : Bool
  pub stack : List Frame
  pub token : Option Token
  pub key : Text
  pub key_overflow : Bool
  pub field : Field
  pub seen : ℕ
  pub path : Option Buffer
  pub content : Option Buffer
  pub offset : Option ℕ
  pub limit : Option ℕ
  pub retained : ℕ
  pub path_cut : Bool
  pub body_cut : Bool
  pub invalid : Bool
  pub changes : ℕ

-- The parser with the counter of the stream, `stream_bytes`, that the calls of one stream share.
pub record Feed : Type 0 where
  pub parser : PreviewParser
  pub stream_bytes : ℕ

-- `try_reserve_exact` of a `String`: from its length, its capacity and the bytes wanted besides, whether it
-- succeeds, and the capacity after it.
abbrev pub Reserve : Type 0
Reserve = (len capacity additional : ℕ) → Bool × ℕ

abbrev pub no_parser_text : PreviewParser → PreviewParser
no_parser_text p = record p {
  path = none;
  content = none;
  offset = none;
  limit = none;
  token = none;
  key = [];
  stack = [];
  retained = 0;
}

unfoldable pub fail : Feed → Feed
fail s = if s.parser.invalid then s else record {
  parser = record (no_parser_text s.parser) { invalid = true; changes = s.parser.changes + 1 };
  stream_bytes = s.stream_bytes - s.parser.retained;
}

abbrev pub buffer_of : (body : Bool) → PreviewParser → Option Buffer
buffer_of true p = p.content
buffer_of false p = p.path

-- The text with what is charged for it.
abbrev pub with_buffer : (body : Bool) → Buffer → (retained stream_bytes : ℕ) → Feed → Feed
with_buffer true buffer retained stream_bytes s = record {
  parser = record s.parser { content = some buffer; retained = retained };
  stream_bytes = stream_bytes;
}
with_buffer false buffer retained stream_bytes s = record {
  parser = record s.parser { path = some buffer; retained = retained };
  stream_bytes = stream_bytes;
}

abbrev pub capacity_limit : (body : Bool) → (other_call other_stream : ℕ) → ℕ
capacity_limit body other_call other_stream =
    min (min (if body then max_call_bytes else max_detail_bytes) (max_call_bytes - other_call))
      (max_stream_bytes - other_stream)

-- `append_display` from `let needed` on, with what the other text of the call and of the stream are charged.
unfoldable pub append_within :
    Reserve
    → (body : Bool) → (value : Text) → Buffer
    → (limit other_call other_stream : ℕ) → Feed
    → Result Panic (Bool × Feed)
append_within reserve body value buffer limit other_call other_stream s =
    let len = text_len buffer.text in
    let needed = len + text_len value in
    let requested = min (max (max (min (buffer.capacity * 2) (2 ^ 64 - 1)) 8) needed) limit in
    let pushed = buffer.text ++ value in
    if ltb limit needed
    then ok (false, s)
    else if not (ltb buffer.capacity needed)
    then ok (
      true,
      with_buffer body (record buffer { text = pushed }) s.parser.retained s.stream_bytes s,
    )
    else (sub_from requested len >>= λ additional.
        let reserved = reserve len buffer.capacity additional in
        ok (
          if ltb limit reserved.1
          then (false, with_buffer body new_buffer other_call other_stream s)
          else (
            reserved.0,
            with_buffer body
                (record {
                  text = if reserved.0 then pushed else buffer.text;
                  capacity = reserved.1;
                })
                (other_call + reserved.1) (other_stream + reserved.1) s,
          )))

unfoldable pub append_display :
    Reserve → (body : Bool) → (value : Text) → Feed → Result Panic (Bool × Feed)
append_display reserve body value s = do
  buffer ← ok_or (buffer_of body s.parser) unwrapped_none
  other_call ← sub_from s.parser.retained buffer.capacity
  other_stream ← sub_from s.stream_bytes buffer.capacity
  append_within reserve body value buffer (capacity_limit body other_call other_stream) other_call
      other_stream s

-- `char::is_control`
abbrev pub is_control : ℕ → Bool
is_control ch = ltb ch 32 || (leb 127 ch && ltb ch 160)

abbrev pub hex_digit : ℕ → ℕ
hex_digit n = if ltb n 10 then b'0' + n else b'a' + (n - 10)

-- `char::escape_default` of a control other than a tab and a line feed; those are below 160.
abbrev pub escape_default : ℕ → Text
escape_default ch =
    if ch == b'\r'
    then codes "\\r"
    else codes "\\u{"
      ++ (if ltb ch 16 then [] else hex_digit (ch / 16) ∷ [])
      ++ hex_digit (ch % 16) ∷ b'}' ∷ []

-- What is kept of a character.
abbrev pub sanitize : (body : Bool) → ℕ → Text
sanitize body ch =
    if not body && (ch == b'\r' || ch == b'\n' || ch == b'\t')
    then b' ' ∷ []
    else if is_control ch && not (body && (ch == b'\n' || ch == b'\t'))
    then escape_default ch
    else ch ∷ []

abbrev pub is_cut : (body : Bool) → PreviewParser → Bool
is_cut true p = p.body_cut
is_cut false p = p.path_cut

abbrev pub cut : (body : Bool) → PreviewParser → PreviewParser
cut true p = record p { body_cut = true }
cut false p = record p { path_cut = true }

abbrev pub changed : Feed → Feed
changed s = record s { parser = record s.parser { changes = s.parser.changes + 1 } }

-- The case of `capture` for a path or a content.
unfoldable pub capture_text : Reserve → (body : Bool) → ℕ → Feed → Result Panic Feed
capture_text reserve body ch s = if is_cut body s.parser then ok s else do
  appended ← append_display reserve body (sanitize body ch) s
  let kept = appended.1
  ok (changed (if appended.0 then kept else record kept { parser = cut body kept.parser }))

abbrev pub capture_in_key : ℕ → PreviewParser → PreviewParser
capture_in_key ch p =
    if leb (text_len p.key + len_utf8 ch) 32 && not p.key_overflow
    then record p { key = p.key ++ ch ∷ [] }
    else record p { key_overflow = true }

unfoldable pub capture_char : Reserve → Capture → ℕ → Feed → Result Panic Feed
capture_char reserve capture_key ch s = ok (record s { parser = capture_in_key ch s.parser })
capture_char reserve capture_ignore ch s = ok s
capture_char reserve (capture_field path_field) ch s = capture_text reserve false ch s
capture_char reserve (capture_field content_field) ch s = capture_text reserve true ch s
capture_char reserve (capture_field ignore_field) ch s = ok s
capture_char reserve (capture_field offset_field) ch s = ok s
capture_char reserve (capture_field limit_field) ch s = ok s
