-- ===== src/Sse/Bounds.antt =====
-- The bounds that the parser keeps, whatever bytes arrive and however feeding and popping interleave.
use minicore_agent.Prelude.{
  ℕ, ◌+◌, ◌≤◌, ◌≡◌, refl, inl, inr, true, false, none, some, List, [], ◌∷◌, ◌++◌, arith,
  Option-cases, length, length-append, ok, err, ◌>>=◌,
}
use minicore_agent.Prelude.Bytes.{Bytes, codes, strip_prefix}
use minicore_agent.Sse.{
  SseParser, default, max_sse_line_bytes, max_sse_frame_bytes, max_queued_sse_frames, end_frame,
  field_line, end_line, store_byte, feed_byte, feed, pop_frame, push_data, Step, trim_newline,
  strip_space,
}

-- The bytes of the queued frames.
abbrev pub total_bytes : List Bytes → ℕ
total_bytes [] = 0
total_bytes (frame ∷ frames) = length frame + total_bytes frames

pub total_bytes-append :
    (xs ys : List Bytes) → total_bytes (xs ++ ys) ≡ total_bytes xs + total_bytes ys
total_bytes-append [] ys = omega arith
total_bytes-append (x ∷ xs) ys = omega (arith, total_bytes-append xs ys)

pub record IsBounded (s : SseParser) : Type 0 where
  pub line_fits : length s.line ≤ max_sse_line_bytes
  pub data_fits : length s.frame_data ≤ max_sse_frame_bytes
  pub queue_fits : length s.frames ≤ max_queued_sse_frames
  pub queued_fits : s.queued_frame_bytes ≤ max_sse_frame_bytes
  pub queued_exact : s.queued_frame_bytes ≡ total_bytes s.frames
  pub no_stale_data : s.frame_has_data ≡ false → s.frame_data ≡ []

-- What a step leaves is bounded, or it failed.
abbrev pub Bounded : Step → Type 0
Bounded (ok s) = IsBounded s
Bounded (err e) = Unit

module _ (s : SseParser) (h : IsBounded s) where
  end_frame-Bounded : Bounded (end_frame s)
  unfolding end_frame
  end_frame-Bounded =
      let frame = trim_newline s.frame_data in
      ground (arith, total_bytes-append s.frames (frame ∷ []), length-append s.frames (frame ∷ []))

  push_data-Bounded : (bytes : Bytes) → Bounded (push_data s bytes)
  unfolding push_data
  push_data-Bounded bytes =
      ground
        (arith, length-append s.frame_data (bytes ++ b'\n' ∷ []), length-append bytes (b'\n' ∷ []))

  field_line-Bounded : (bytes : Bytes) → Bounded (field_line s bytes)
  unfolding field_line
  field_line-Bounded bytes = elim (Option-cases (strip_prefix (codes "data:") bytes)) [
    | inl e ↦ rw (e, field_line) (ground arith)
    | inr (rest, e) ↦ rw (e, field_line) (ground (arith, push_data-Bounded (strip_space rest)))
  ]

end_line-Bounded : (s : SseParser) → IsBounded s → Bounded (end_line s)
unfolding end_line
end_line-Bounded s h =
    let cleared : IsBounded (record s { line = [] }) = ground arith in
    ground (
      arith,
      end_frame-Bounded (record s { line = [] }) cleared,
      field_line-Bounded (record s { line = [] }) cleared s.line,
    )

store_byte-Bounded : (s : SseParser) (byte : ℕ) → IsBounded s → Bounded (store_byte s byte)
unfolding store_byte
store_byte-Bounded s byte h = ground (
  arith,
  end_line-Bounded s h,
  end_line-Bounded (record s { pending_cr = true }),
  length-append s.line (byte ∷ []),
)

feed_byte-Bounded : (s : SseParser) (byte : ℕ) → IsBounded s → Bounded (feed_byte s byte)
unfolding feed_byte
feed_byte-Bounded s byte h =
    ground (arith, store_byte-Bounded (record s { pending_cr = false }) byte)

Bounded-bind :
    (r : Step) (f : SseParser → Step)
    → Bounded r
    → ((t : SseParser) → IsBounded t → Bounded (f t))
    → Bounded (r >>= f)
Bounded-bind (ok t) f b k = k t b
Bounded-bind (err e) f b k = tt

feed-Bounded : (s : SseParser) (chunk : Bytes) → IsBounded s → Bounded (feed s chunk)
unfolding feed
feed-Bounded s [] h = h
feed-Bounded s (byte ∷ chunk) h =
    Bounded-bind (feed_byte s byte) (λ t. feed t chunk) (feed_byte-Bounded s byte h)
      (λ t b. feed-Bounded t chunk b)

-- Popping takes the oldest frame, and its subtraction does not underflow.
pub pop_frame-IsBounded :
    (s : SseParser) {frame : Bytes} {t : SseParser}
    → IsBounded s
    → pop_frame s ≡ some (frame, t)
    → IsBounded t
      × (s.frames ≡ frame ∷ t.frames)
      × (s.queued_frame_bytes ≡ length frame + t.queued_frame_bytes)
unfolding pop_frame
pop_frame-IsBounded s h e = ground arith

-- How the reader of the stream drives the parser: body chunks come in, frames go out.
pub data Op : Type 0 where
  feeds : Bytes → Op
  pops : Op

-- A pop of no frame changes nothing.
apply : SseParser → Op → Step
apply s (feeds chunk) = feed s chunk
apply s pops = elim (pop_frame s) [ none ↦ ok s | some (frame, t) ↦ ok t ]

pub run : SseParser → List Op → Step
unfolding apply
run s [] = ok s
run s (op ∷ ops) = apply s op >>= λ t. run t ops

apply-Bounded : (s : SseParser) (op : Op) → IsBounded s → Bounded (apply s op)
unfolding apply
apply-Bounded s (feeds chunk) h = feed-Bounded s chunk h
apply-Bounded s pops h = elim (Option-cases (pop_frame s)) [
  | inl e ↦ rw (e, apply) h
  | inr ((frame, t), e) ↦ rw (e, apply) (pop_frame-IsBounded s h e).0
]

run-Bounded_from : (s : SseParser) (ops : List Op) → IsBounded s → Bounded (run s ops)
unfolding run
run-Bounded_from s [] h = h
run-Bounded_from s (op ∷ ops) h =
    Bounded-bind (apply s op) (λ t. run t ops) (apply-Bounded s op h)
      (λ t b. run-Bounded_from t ops b)

pub default-IsBounded : IsBounded default
default-IsBounded = record {
  line_fits = omega arith;
  data_fits = omega arith;
  queue_fits = omega arith;
  queued_fits = omega arith;
  queued_exact = refl;
  no_stale_data = λ e. refl;
}

-- From the empty parser, whatever chunks are fed and whenever frames are popped, a parser that has
-- not failed holds at most 1 MiB of an unfinished line, 1 MiB of an unfinished frame and 4096
-- queued frames, its byte counter is the exact total of the queued frames and at most 1 MiB, and no
-- data is left over outside a frame.
pub run-Bounded : (ops : List Op) → Bounded (run default ops)
run-Bounded ops = run-Bounded_from default ops default-IsBounded
