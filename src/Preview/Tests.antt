-- ===== src/Preview/Tests.antt =====
-- Arguments read in pieces, and the theorems at them.
use minicore_agent.Prelude.{
  ℕ, ◌+◌, max, ◌≡◌, refl, ◌≢◌, inl, inr, true, false, Option, none, some, List, [], ◌∷◌, arith,
  Result, ok, err,
}
use minicore_agent.Prelude.Bytes.{codes, bytes_eq}
use minicore_agent.Budget.{len_utf8}
use minicore_agent.Preview.Escapes.{plain, decode, next_number}
use minicore_agent.Preview.Buffers.{
  Text, Reserve, Buffer, PreviewParser, fail, append_within, append_display, capture_text,
  capture_char,
}
use minicore_agent.Preview.Escapes.{Panic}
use minicore_agent.Preview.Bounds.{Lawful}
use minicore_agent.Preview.Tokens.{
  finish_key, finish_string, string_char, literal_char, number_char, token_char,
}
use minicore_agent.Preview.Steps.{
  reserve_path, open_field, begin_value, start_value, at_frame, structural, reread,
  token_or_structural, feed_char, feed_delta,
}
use minicore_agent.Preview.Streams.{Calls, feed_at, feed_all, new_calls, Within, feed_all-safe}
use minicore_agent.Preview.Units.{decode_text, Letters}
use minicore_agent.Preview.Surrogates.{
  Written, raw_char, short_char, escaped_char, written, decode_text-written,
}

-- A reservation of just what is wanted.
abbrev exact : Reserve
exact len capacity additional = (true, max capacity (len + additional))

exact-Lawful : Lawful exact
exact-Lawful = record {
  keeps = λ len capacity additional. omega arith;
  enough = λ len capacity additional e. omega arith;
}

abbrev deltas : List (ℕ × Text)
deltas =
    (0, codes "{\"pa")
    ∷ (1, codes "{\"content\":")
    ∷ (0, codes "th\":\"a\\u00e9")
    ∷ (1, codes "\"x")
    ∷ (0, codes "\"}")
    ∷ []

abbrev started_calls : Calls
started_calls = record {
  parsers = new_calls (codes "read" ∷ codes "write" ∷ []);
  retained_bytes = 0;
}

abbrev shown : List PreviewParser → List (Option Buffer × Option Buffer)
shown [] = []
shown (p ∷ ps) = (p.path, p.content) ∷ shown ps

abbrev texts : Result Panic Calls → List (Option Buffer × Option Buffer)
texts (ok calls) = shown calls.parsers
texts (err e) = []

deltas_read :
    texts (feed_all exact deltas started_calls)
    ≡ (some (record { text = b'a' ∷ 0xe9 ∷ []; capacity = 8 }), none)
      ∷ (
        some (record { text = []; capacity = 32 }),
        some (record { text = b'x' ∷ []; capacity = 8 }),
      )
      ∷ []
unfolding feed_all feed_at feed_delta feed_char token_or_structural reread structural at_frame
    start_value begin_value open_field reserve_path token_char number_char literal_char string_char
    finish_string finish_key capture_char capture_text append_display append_within fail next_number
    decode len_utf8 bytes_eq
deltas_read = refl

feed_all-safe_example :
    (calls : Calls) × (feed_all exact deltas started_calls ≡ ok calls) × Within calls
feed_all-safe_example = feed_all-safe exact exact-Lawful (codes "read" ∷ codes "write" ∷ []) deltas

abbrev small : Letters
small = record { first = false; second = false; third = false; fourth = false }

abbrev capital : Letters
capital = record { first = true; second = false; third = true; fourth = true }

abbrev written_chars : List Written
written_chars =
    raw_char b'a'
    ∷ short_char b'n' 0x0a
    ∷ escaped_char small small 0xe9
    ∷ escaped_char capital small 0x1f600
    ∷ []

differs : ◌≢◌ {A = ℕ} b'a' b'\\'
differs e = absurd (omega (arith, e))

decode_text-written_example :
    decode_text plain (written written_chars) ≡ some (plain, b'a' ∷ 0x0a ∷ 0xe9 ∷ 0x1f600 ∷ [])
decode_text-written_example = decode_text-written written_chars (
  (omega arith, differs),
  (
    inr (inr (inr (inr (inr (inl (refl, refl)))))),
    ((omega arith, inl (omega arith)), ((omega arith, inr (omega arith)), tt)),
  ),
)
