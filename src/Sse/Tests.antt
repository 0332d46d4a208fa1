-- ===== src/Sse/Tests.antt =====
-- Runs of the parser, and its theorems at concrete streams.
use minicore_agent.Prelude.{◌≡◌, refl, List, [], ◌∷◌, arith, ok, some, length, ◌+◌}
use minicore_agent.Prelude.Bytes.{Bytes, codes, strip_prefix}
use minicore_agent.Sse.{pop_frame, SseParser, default, feed, feed_byte, feed_chunks}
use minicore_agent.Sse.Bounds.{
  IsBounded, pop_frame-IsBounded, feeds, pops, Bounded, run, run-Bounded,
}
use minicore_agent.Sse.RoundTrip.{cr, Field, value, comment, encode, payloads, feed_chunks-encode}

abbrev stream : Bytes
stream = b'd' ∷ b'a' ∷ b't' ∷ b'a' ∷ b':' ∷ b' ' ∷ b'x' ∷ b'\r' ∷ b'\n' ∷ b'\r' ∷ b'\n' ∷ []

abbrev read : SseParser
read = record default { frames = codes "x" ∷ []; queued_frame_bytes = 1 }

feed-stream : feed default stream ≡ ok read
unfolding feed feed_byte strip_prefix
feed-stream = refl

abbrev events : List (List Field)
events = (comment [] ∷ value (codes "x") ∷ value (codes "y") ∷ []) ∷ (comment [] ∷ []) ∷ []

feed_chunks-encode_example :
    (t : SseParser) × (feed_chunks default (encode cr events ∷ []) ≡ ok t)
    × (t.frames ≡ payloads events)
    × (t.line ≡ [])
    × (t.frame_data ≡ [])
feed_chunks-encode_example =
    feed_chunks-encode cr events (encode cr events ∷ []) refl (omega arith) (omega arith)
      (omega arith)

run-Bounded_example : Bounded (run default (feeds stream ∷ pops ∷ pops ∷ []))
run-Bounded_example = run-Bounded (feeds stream ∷ pops ∷ pops ∷ [])

popped : pop_frame read ≡ some (codes "x", default)
unfolding pop_frame
popped = refl

read-IsBounded : IsBounded read
read-IsBounded = record {
  line_fits = omega arith;
  data_fits = omega arith;
  queue_fits = omega arith;
  queued_fits = omega arith;
  queued_exact = refl;
  no_stale_data = λ e. refl;
}

pop_frame-IsBounded_example :
    IsBounded default
    × (read.frames ≡ codes "x" ∷ default.frames)
    × (read.queued_frame_bytes ≡ length (codes "x") + default.queued_frame_bytes)
pop_frame-IsBounded_example = pop_frame-IsBounded read read-IsBounded popped
