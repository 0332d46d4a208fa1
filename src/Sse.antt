-- ===== src/Sse.antt =====
-- models/openai/sse.rs: the `SseParser` that cuts a byte stream into event frames.
pub mod Bounds
pub mod RoundTrip
mod Tests
use minicore_agent.Prelude.{
  ℕ, ◌+◌, ◌-◌, ◌*◌, Bool, true, false, List, [], ◌∷◌, ◌++◌, Option, none, some, ◌==◌, ◌==?◌, ltb,
  leb, ◌&&◌, ◌||◌, if◌then◌else◌, length, is_empty, first, last, drop_last, Result, ok, err, ◌>>=◌,
}
use minicore_agent.Prelude.Bytes.{Bytes, codes, strip_prefix}

abbrev pub max_sse_line_bytes : ℕ
max_sse_line_bytes = 1024 * 1024

abbrev pub max_sse_frame_bytes : ℕ
max_sse_frame_bytes = 1024 * 1024

abbrev pub max_queued_sse_frames : ℕ
max_queued_sse_frames = 4096

pub record SseParser : Type 0 where
  pub line : Bytes
  pub frame_data : Bytes
  pub frame_has_data : Bool
  pub pending_cr : Bool
  pub frames : List Bytes
  pub queued_frame_bytes : ℕ

-- `SseParser::default()`
abbrev pub default : SseParser
default = record {
  line = [];
  frame_data = [];
  frame_has_data = false;
  pending_cr = false;
  frames = [];
  queued_frame_bytes = 0;
}

-- A fallible method returns the state that it left, or `Err(())`.
abbrev pub Step : Type 0
Step = Result (Unit {0}) SseParser

-- `if self.frame_data.last() == Some(&b'\n') { self.frame_data.pop(); }`
trim_newline : Bytes → Bytes
trim_newline bytes = elim (last bytes) [
  | none ↦ bytes
  | some byte ↦ if byte == b'\n' then drop_last bytes else bytes
]

-- An empty line ends the frame.
end_frame : SseParser → Step
unfolding trim_newline
end_frame s =
    let frame = trim_newline s.frame_data in
    let queued = s.queued_frame_bytes + length frame in
    if s.frame_has_data
    then if ltb max_sse_frame_bytes queued || leb max_queued_sse_frames (length s.frames)
      then err tt
      else ok (record s {
        queued_frame_bytes = queued;
        frames = s.frames ++ frame ∷ [];
        frame_data = [];
        frame_has_data = false;
      })
    else ok (record s { frame_data = []; frame_has_data = false })

-- `data.strip_prefix(b" ").unwrap_or(data)`
strip_space : Bytes → Bytes
strip_space [] = []
strip_space (c ∷ s) = if c == b' ' then s else c ∷ s

push_data : SseParser → Bytes → Step
push_data s bytes =
    let new_len = length s.frame_data + length bytes + 1 in
    if ltb max_sse_frame_bytes new_len
    then err tt
    else ok (record s { frame_data = s.frame_data ++ (bytes ++ b'\n' ∷ []); frame_has_data = true })

-- Only `data:` fields count; comments and other fields are dropped.
field_line : SseParser → Bytes → Step
unfolding strip_space push_data
field_line s bytes =
    if first bytes ==? b':' then ok s else elim (strip_prefix (codes "data:") bytes) [
      | none ↦ ok s
      | some rest ↦ push_data s (strip_space rest)
    ]

end_line : SseParser → Step
unfolding end_frame field_line
end_line s =
    let taken = record s { line = [] } in
    if is_empty s.line then end_frame taken else field_line taken s.line

-- A byte that is not the `\n` of a pending `\r`.
store_byte : SseParser → ℕ → Step
unfolding end_line
store_byte s byte =
    if byte == b'\r'
    then end_line (record s { pending_cr = true })
    else if byte == b'\n'
    then end_line s
    else if leb max_sse_line_bytes (length s.line)
    then err tt
    else ok (record s { line = s.line ++ byte ∷ [] })

feed_byte : SseParser → ℕ → Step
unfolding store_byte
feed_byte s byte =
    let clear = record s { pending_cr = false } in
    if s.pending_cr && byte == b'\n' then ok clear else store_byte clear byte

pub feed : SseParser → Bytes → Step
feed s [] = ok s
feed s (byte ∷ chunk) = feed_byte s byte >>= λ t. feed t chunk

-- The body arrives in chunks.
pub feed_chunks : SseParser → List Bytes → Step
feed_chunks s [] = ok s
feed_chunks s (chunk ∷ chunks) = feed s chunk >>= λ t. feed_chunks t chunks

pub pop_frame : SseParser → Option (Bytes × SseParser)
pop_frame s = elim s.frames [
  | [] ↦ none
  | frame ∷ rest ↦
      some (
        frame,
        record s { frames = rest; queued_frame_bytes = s.queued_frame_bytes - length frame },
      )
]
