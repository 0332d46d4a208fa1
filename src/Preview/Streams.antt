-- ===== src/Preview/Streams.antt =====
-- The calls of one stream share the counter of retained bytes: presentation/preview.rs.
use minicore_agent.Prelude.{
  ℕ, zero, suc, ◌+◌, ◌≤◌, ◌≡◌, refl, sym, true, List, [], ◌∷◌, arith, length, Result, ok, err,
  ◌>>=◌,
}
use minicore_agent.Preview.Buffers.{
  max_call_bytes, max_stream_bytes, Text, text_len, PreviewParser, Feed, Reserve,
}
use minicore_agent.Preview.Escapes.{Panic}
use minicore_agent.Preview.Holds.{Holds, Holds->>=}
use minicore_agent.Preview.Bounds.{Lawful, capacity_of, len_of, depth_limit}
use minicore_agent.Preview.Safe.{token_safe, Inv}
use minicore_agent.Preview.Feeds.{feed_delta-Inv}
use minicore_agent.Preview.Tokens.{preview_parser_new}
use minicore_agent.Preview.Steps.{feed_delta}

-- The parsers of the stream's calls, and `retained_bytes`.
pub record Calls : Type 0 where
  pub parsers : List PreviewParser
  pub retained_bytes : ℕ

-- `observe` of a delta, for the call at `index`; one that is not previewed is passed over.
unfoldable pub feed_at : Reserve → (index : ℕ) → Text → List PreviewParser → ℕ → Result Panic Calls
feed_at reserve index delta [] n = ok (record { parsers = []; retained_bytes = n })
feed_at reserve zero delta (p ∷ ps) n = do
  fed ← feed_delta reserve delta (record { parser = p; stream_bytes = n })
  ok (record { parsers = fed.parser ∷ ps; retained_bytes = fed.stream_bytes })
feed_at reserve (suc index) delta (p ∷ ps) n = do
  rest ← feed_at reserve index delta ps n
  ok (record rest { parsers = p ∷ rest.parsers })

-- Deltas for calls in any order.
unfoldable pub feed_all : Reserve → List (ℕ × Text) → Calls → Result Panic Calls
feed_all reserve [] calls = ok calls
feed_all reserve ((index, delta) ∷ deltas) calls =
    feed_at reserve index delta calls.parsers calls.retained_bytes >>= feed_all reserve deltas

-- The limits of one parser.
pub record Limits (p : PreviewParser) : Type 0 where
  pub charged : capacity_of p.path + capacity_of p.content ≤ p.retained
  pub held : (len_of p.path ≤ capacity_of p.path) × (len_of p.content ≤ capacity_of p.content)
  pub fits_call : p.retained ≤ max_call_bytes
  pub depth : length p.stack ≤ depth_limit p.started
  pub short_key : text_len p.key ≤ 32
  pub safe : token_safe p.token p ≡ true

abbrev pub total : List PreviewParser → ℕ
total [] = 0
total (p ∷ ps) = p.retained + total ps

abbrev pub AllLimits : List PreviewParser → Type 0
AllLimits [] = Unit
AllLimits (p ∷ ps) = Limits p × AllLimits ps

-- Every parser is within its limits, and the counter is the sum of what they are charged, within the limit
-- of the stream.
abbrev pub Within : Calls → Type 0
Within calls =
    AllLimits calls.parsers
    × (calls.retained_bytes ≡ total calls.parsers)
    × (calls.retained_bytes ≤ max_stream_bytes)

Inv-Limits : (others : ℕ) (s : Feed) → Inv others s → Limits s.parser
Inv-Limits others s ((c, d, k), t) = record {
  charged = c.charged;
  held = c.held;
  fits_call = c.fits_call;
  depth = d;
  short_key = k;
  safe = t;
}

Limits-Inv :
    (others : ℕ) (p : PreviewParser) (n : ℕ)
    → Limits p
    → n ≡ others + p.retained
    → n ≤ max_stream_bytes
    → Inv others (record { parser = p; stream_bytes = n })
Limits-Inv others p n h e l = (
  (
    record {
      charged = h.charged;
      fits_call = h.fits_call;
      share = e;
      fits_stream = l;
      held = h.held;
    },
    h.depth,
    h.short_key,
  ),
  h.safe,
)

module _ (reserve : Reserve) (lawful : Lawful reserve) where
  -- The calls before are charged `others`.
  abbrev Fed : ℕ → Calls → Type 0
  Fed others calls =
      AllLimits calls.parsers
      × (calls.retained_bytes ≡ others + total calls.parsers)
      × (calls.retained_bytes ≤ max_stream_bytes)

  feed_at-Fed :
      (others index : ℕ) (delta : Text) (ps : List PreviewParser) (n : ℕ)
      → AllLimits ps
      → n ≡ others + total ps
      → n ≤ max_stream_bytes
      → Holds (feed_at reserve index delta ps n) (Fed others)
  unfolding feed_at
  feed_at-Fed others index delta [] n h e l = (tt, e, l)
  feed_at-Fed others zero delta (p ∷ ps) n (h, hs) e l =
      Holds->>= (Inv (others + total ps)) (Fed others) _ _
        (feed_delta-Inv (others + total ps) reserve lawful delta
          (record { parser = p; stream_bytes = n })
          (Limits-Inv (others + total ps) p n h (omega (arith, e)) l))
        λ fed i. (
          (Inv-Limits (others + total ps) fed i, hs),
          omega (arith, i.0.0.share),
          i.0.0.fits_stream,
        )
  feed_at-Fed others (suc index) delta (p ∷ ps) n (h, hs) e l =
      Holds->>= (Fed (others + p.retained)) (Fed others) _ _
        (feed_at-Fed (others + p.retained) index delta ps n hs (omega (arith, e)) l)
        λ rest (a, b, c). ((h, a), omega (arith, b), c)

  feed_all-Within :
      (deltas : List (ℕ × Text)) (calls : Calls)
      → Within calls
      → Holds (feed_all reserve deltas calls) Within
  unfolding feed_all
  feed_all-Within [] calls h = h
  feed_all-Within ((index, delta) ∷ deltas) calls (h, e, l) =
      Holds->>= (Fed 0) Within _ _
        (feed_at-Fed 0 index delta calls.parsers calls.retained_bytes h (omega (arith, e)) l)
        λ next (a, b, c). feed_all-Within deltas next (a, omega (arith, b), c)

abbrev pub new_calls : List Text → List PreviewParser
new_calls [] = []
new_calls (name ∷ names) = preview_parser_new name ∷ new_calls names

new_calls-Limits : (names : List Text) → AllLimits (new_calls names) × (total (new_calls names) ≡ 0)
new_calls-Limits [] = (tt, refl)
new_calls-Limits (name ∷ names) =
    let (h, e) = new_calls-Limits names in
    (
      (
        record {
          charged = omega arith;
          held = (omega arith, omega arith);
          fits_call = omega arith;
          depth = omega arith;
          short_key = omega arith;
          safe = refl;
        },
        h,
      ),
      omega (arith, e),
    )

holds-result :
    (r : Result Panic Calls) → Holds r Within → (calls : Calls) × (r ≡ ok calls) × Within calls
holds-result (ok calls) h = (calls, refl, h)
holds-result (err e) h = absurd h

-- Whatever texts reach the calls of a stream, in whatever pieces and order, the reader does not panic: no
-- value is missing where one is expected, and no subtraction goes below zero. Each call keeps within its
-- limits of memory, depth and key, and the counter of the stream stays the sum of what its
-- calls are charged, within the limit of the stream. This takes a reservation of memory that does as
-- documented.
pub feed_all-safe :
    (reserve : Reserve) (lawful : Lawful reserve) (names : List Text) (deltas : List (ℕ × Text))
    → (calls : Calls) × (feed_all reserve deltas
          (record { parsers = new_calls names; retained_bytes = 0 })
        ≡ ok calls)
      × Within calls
feed_all-safe reserve lawful names deltas =
    let (h, e) = new_calls-Limits names in
    holds-result _ (
      feed_all-Within reserve lawful deltas
        (record { parsers = new_calls names; retained_bytes = 0 }) (h, sym e, omega arith))
