-- ===== src/Sse/RoundTrip.antt =====
-- An event stream written in the wire format, and read back through any chunking.
use minicore_agent.Prelude.{
  ℕ, ◌+◌, ◌≤◌, ◌<◌, ◌≡◌, refl, sym, ap, ◌∙◌, fun_ext, ◌≢◌, ◌⊎◌, inl, inr, Bool, true, false, List,
  [], ◌∷◌, ◌++◌, append-nil, append_assoc, arith, length, length-append, last-append_singleton,
  drop_last-append_singleton, ok, ◌>>=◌, bind_assoc,
}
use minicore_agent.Prelude.Bytes.{Bytes, codes, strip_prefix}
use minicore_agent.Sse.{
  SseParser, default, max_sse_line_bytes, max_sse_frame_bytes, max_queued_sse_frames, field_line,
  end_line, store_byte, feed_byte, feed, feed_chunks, push_data, Step, trim_newline, strip_space,
}
use minicore_agent.Sse.Bounds.{total_bytes, total_bytes-append}

-- The line endings that a server may use.
pub data Ending : Type 0 where
  lf crlf cr : Ending

abbrev pub ending_bytes : Ending → Bytes
ending_bytes lf = b'\n' ∷ []
ending_bytes crlf = b'\r' ∷ b'\n' ∷ []
ending_bytes cr = b'\r' ∷ []

-- A field of an event: a data line or a comment.
pub data Field : Type 0 where
  value comment : Bytes → Field

abbrev pub line_of : Field → Bytes
line_of (value l) = codes "data: " ++ l
line_of (comment l) = b':' ∷ l

abbrev pub encode_fields : Ending → List Field → Bytes
encode_fields e [] = ending_bytes e
encode_fields e (f ∷ fs) = line_of f ++ (ending_bytes e ++ encode_fields e fs)

abbrev pub encode : Ending → List (List Field) → Bytes
encode e [] = []
encode e (fs ∷ events) = encode_fields e fs ++ encode e events

-- What a data line adds to the frame.
abbrev body : List Field → Bytes
body [] = []
body (value l ∷ fs) = l ++ (b'\n' ∷ body fs)
body (comment l ∷ fs) = body fs

abbrev pub values : List Field → List Bytes
values [] = []
values (value l ∷ fs) = l ∷ values fs
values (comment l ∷ fs) = values fs

abbrev pub join_lines : Bytes → List Bytes → Bytes
join_lines l [] = l
join_lines l (m ∷ ls) = l ++ (b'\n' ∷ join_lines m ls)

-- The frame of an event: its data lines joined by `\n`; an event with none has no frame.
abbrev pub frame_of : List Bytes → List Bytes
frame_of [] = []
frame_of (l ∷ ls) = join_lines l ls ∷ []

abbrev pub payloads : List (List Field) → List Bytes
payloads [] = []
payloads (fs ∷ events) = frame_of (values fs) ++ payloads events

abbrev pub IsLine : Bytes → Type 0
IsLine [] = Unit
IsLine (c ∷ l) = (c ≢ b'\n') × (c ≢ b'\r') × IsLine l

-- One line of each field, within the parser's line limit.
abbrev pub AreLines : List Field → Type 0
AreLines [] = Unit
AreLines (f ∷ fs) = IsLine (line_of f) × (length (line_of f) ≤ max_sse_line_bytes) × AreLines fs

abbrev pub AreEvents : List (List Field) → Type 0
AreEvents [] = Unit
AreEvents (fs ∷ events) = AreLines fs × (length (body fs) ≤ max_sse_frame_bytes) × AreEvents events

abbrev is_cr : Ending → Bool
is_cr cr = true
is_cr _ = false

-- The parser between two lines.
abbrev mid : List Bytes → Bytes → Bool → Bool → SseParser
mid frames d has p = record {
  line = [];
  frame_data = d;
  frame_has_data = has;
  pending_cr = p;
  frames = frames;
  queued_frame_bytes = total_bytes frames;
}

feed_clear :
    (s : SseParser) (c : ℕ) (rest : Bytes)
    → c ≢ b'\n'
    → feed s (c ∷ rest) ≡ feed (record s { pending_cr = false }) (c ∷ rest)
unfolding feed feed_byte
feed_clear s c rest h = ground arith

feed_byte_text :
    (s : SseParser) (c : ℕ)
    → s.pending_cr ≡ false
    → c ≢ b'\n'
    → c ≢ b'\r'
    → length s.line < max_sse_line_bytes
    → feed_byte s c ≡ ok (record s { line = s.line ++ c ∷ [] })
unfolding feed_byte
feed_byte_text s c p hn hr n = ground arith

feed_text :
    (s : SseParser) (l rest : Bytes)
    → s.pending_cr ≡ false
    → IsLine l
    → length s.line + length l ≤ max_sse_line_bytes
    → feed s (l ++ rest) ≡ feed (record s { line = s.line ++ l }) rest
unfolding feed
feed_text s [] rest p h n = ap (λ l. feed (record s { line = l }) rest) (sym (append-nil s.line))
feed_text s (c ∷ l) rest p h n = rw (feed_byte_text s c p h.0 h.1 (omega arith)) (
    feed_text (record s { line = s.line ++ c ∷ [] }) l rest p h.2
      (omega (arith, length-append s.line (c ∷ [])))
    ∙ ap (λ t. feed (record s { line = t }) rest) (append_assoc s.line (c ∷ []) l))

feed_byte_cr : (s : SseParser) → feed_byte s b'\r' ≡ end_line (record s { pending_cr = true })
unfolding feed_byte store_byte
feed_byte_cr s = ground arith

feed_byte_lf :
    (s : SseParser)
    → s.pending_cr ≡ false
    → feed_byte s b'\n' ≡ end_line (record s { pending_cr = false })
unfolding feed_byte store_byte
feed_byte_lf s p = ground arith

feed_byte_crlf :
    (s : SseParser)
    → feed_byte (record s { pending_cr = true }) b'\n' ≡ ok (record s { pending_cr = false })
unfolding feed_byte
feed_byte_crlf s = refl

-- An ending runs `end_line`, and leaves a pending `\r` if it is a bare one.
feed_ending :
    (e : Ending) (s : SseParser) (rest : Bytes) (t : SseParser)
    → (s.pending_cr ≡ false) ⊎ (e ≡ cr)
    → ((p : Bool) → end_line (record s { pending_cr = p }) ≡ ok (record t { pending_cr = p }))
    → feed s (ending_bytes e ++ rest) ≡ feed (record t { pending_cr = is_cr e }) rest
unfolding feed
feed_ending lf s rest t (inl p) h = rw (feed_byte_lf s p, h false)
feed_ending lf s rest t (inr p) h = cc
feed_ending crlf s rest t p h = rw (feed_byte_cr s, h true, feed_byte_crlf t)
feed_ending cr s rest t p h = rw (feed_byte_cr s, h true)

-- A whole line that is not empty, with its ending.
feed_line :
    (e : Ending) (s : SseParser) (c : ℕ) (l rest : Bytes) (t : SseParser)
    → s.line ≡ []
    → IsLine (c ∷ l)
    → length (c ∷ l) ≤ max_sse_line_bytes
    → ((p : Bool)
        → end_line (record s { line = c ∷ l; pending_cr = p }) ≡ ok (record t { pending_cr = p }))
    → feed s ((c ∷ l) ++ (ending_bytes e ++ rest)) ≡ feed (record t { pending_cr = is_cr e }) rest
feed_line e s c l rest t empty h n f =
    feed_clear s c (l ++ (ending_bytes e ++ rest)) h.0
    ∙ feed_text (record s { pending_cr = false }) (c ∷ l) (ending_bytes e ++ rest) refl h
        (rw empty (omega arith))
    ∙ ap (λ x. feed (record s { line = x ++ c ∷ l; pending_cr = false }) (ending_bytes e ++ rest))
        empty
    ∙ feed_ending e (record s { line = c ∷ l; pending_cr = false }) rest t (inl refl) f

end_line_value :
    (frames : List Bytes) (d l : Bytes) (has p : Bool)
    → length d + length l + 1 ≤ max_sse_frame_bytes
    → end_line (record (mid frames d has p) { line = line_of (value l) })
      ≡ ok (mid frames (d ++ (l ++ b'\n' ∷ [])) true p)
unfolding end_line field_line push_data strip_prefix strip_space
end_line_value frames d l has p h = ground arith

end_line_comment :
    (frames : List Bytes) (d l : Bytes) (has p : Bool)
    → end_line (record (mid frames d has p) { line = line_of (comment l) })
      ≡ ok (mid frames d has p)
unfolding end_line field_line
end_line_comment frames d l has p = refl

regroup :
    (l : Bytes) (e : Ending) (more rest : Bytes)
    → (l ++ (ending_bytes e ++ more)) ++ rest ≡ l ++ (ending_bytes e ++ (more ++ rest))
regroup l e more rest = simp append_assoc

ready : (e : Ending) → (is_cr e ≡ false) ⊎ (e ≡ cr)
ready lf = inl refl
ready crlf = inl refl
ready cr = inr refl

body_regroup : (d l more : Bytes) → (d ++ (l ++ b'\n' ∷ [])) ++ more ≡ d ++ (l ++ (b'\n' ∷ more))
body_regroup d l more = simp append_assoc

-- The state of a frame goes on to its end.
abbrev has_value : Bool → List Field → Bool
has_value has [] = has
has_value has (value l ∷ fs) = has_value true fs
has_value has (comment l ∷ fs) = has_value has fs

-- The fields of one event, up to its blank line.
feed_fields :
    (e : Ending) (frames : List Bytes) (d : Bytes) (has p : Bool) (fs : List Field) (rest : Bytes)
    (t : SseParser)
    → (p ≡ false) ⊎ (e ≡ cr)
    → AreLines fs
    → length d + length (body fs) ≤ max_sse_frame_bytes
    → ((q : Bool)
        → end_line (mid frames (d ++ body fs) (has_value has fs) q)
          ≡ ok (record t { pending_cr = q }))
    → feed (mid frames d has p) (encode_fields e fs ++ rest)
      ≡ feed (record t { pending_cr = is_cr e }) rest
feed_fields e frames d has p [] rest t r h n k =
    feed_ending e (mid frames d has p) rest t r (λ q. rw (← append-nil d) (k q))
feed_fields e frames d has p (value l ∷ fs) rest t r h n k =
    ap (feed (mid frames d has p)) (regroup (line_of (value l)) e (encode_fields e fs) rest)
    ∙ feed_line e (mid frames d has p) b'd' (codes "ata: " ++ l) (encode_fields e fs ++ rest)
        (mid frames grown true p) refl h.0 h.1
        (λ q. end_line_value frames d l has q (omega (arith, length-append l (b'\n' ∷ body fs))))
    ∙ feed_fields e frames grown true (is_cr e) fs rest t (ready e) h.2
        (omega (
          arith,
          length-append l (b'\n' ∷ body fs),
          length-append d (l ++ b'\n' ∷ []),
          length-append l (b'\n' ∷ []),
        ))
        (λ q. rw (body_regroup d l (body fs)) (k q))
  where
    grown : Bytes
    grown = d ++ (l ++ b'\n' ∷ [])
feed_fields e frames d has p (comment l ∷ fs) rest t r h n k =
    ap (feed (mid frames d has p)) (regroup (line_of (comment l)) e (encode_fields e fs) rest)
    ∙ feed_line e (mid frames d has p) b':' l (encode_fields e fs ++ rest) (mid frames d has p) refl
        h.0 h.1 (λ q. end_line_comment frames d l has q)
    ∙ feed_fields e frames d has (is_cr e) fs rest t (ready e) h.2 n k

trim_newline-append : (d : Bytes) → trim_newline (d ++ b'\n' ∷ []) ≡ d
unfolding trim_newline
trim_newline-append d =
    rw (last-append_singleton d b'\n', trim_newline) (drop_last-append_singleton d b'\n')

-- The end of an event that has data: one more frame.
end_line_frame :
    (frames : List Bytes) (d : Bytes) (p : Bool)
    → total_bytes frames + length d ≤ max_sse_frame_bytes
    → length frames < max_queued_sse_frames
    → end_line (mid frames (d ++ b'\n' ∷ []) true p) ≡ ok (mid (frames ++ d ∷ []) [] false p)
unfolding end_line
end_line_frame frames d p n q =
    ground (arith, trim_newline-append d, total_bytes-append frames (d ∷ []))

end_line_empty :
    (frames : List Bytes) (p : Bool) → end_line (mid frames [] false p) ≡ ok (mid frames [] false p)
unfolding end_line
end_line_empty frames p = refl

has_value-true : (fs : List Field) → has_value true fs ≡ true
has_value-true [] = refl
has_value-true (value l ∷ fs) = has_value-true fs
has_value-true (comment l ∷ fs) = has_value-true fs

-- The data of an event is its lines joined, and one more `\n`.
body-values :
    (fs : List Field)
    → ((values fs ≡ []) × (body fs ≡ []) × (has_value false fs ≡ false))
      ⊎ ((l : Bytes) × (ls : List Bytes) × (values fs ≡ l ∷ ls)
          × (body fs ≡ join_lines l ls ++ b'\n' ∷ [])
          × (has_value false fs ≡ true))
body-values [] = inl (refl, refl, refl)
body-values (comment l ∷ fs) = body-values fs
body-values (value l ∷ fs) = elim (body-values fs) [
  | inl (v, b, _) ↦ inr (l, [], ap (◌∷◌ l) v, rw b, has_value-true fs)
  | inr (m, ms, v, b, _) ↦ inr (
    l,
    m ∷ ms,
    ap (◌∷◌ l) v,
    rw b (sym (append_assoc l (b'\n' ∷ join_lines m ms) (b'\n' ∷ []))),
    has_value-true fs,
  )
]

-- One event: its frame, if it has one, joins the queue.
feed_event :
    (e : Ending) (frames : List Bytes) (p : Bool) (fs : List Field) (rest : Bytes)
    → (p ≡ false) ⊎ (e ≡ cr)
    → AreLines fs
    → length (body fs) ≤ max_sse_frame_bytes
    → total_bytes frames + total_bytes (frame_of (values fs)) ≤ max_sse_frame_bytes
    → length frames + length (frame_of (values fs)) ≤ max_queued_sse_frames
    → feed (mid frames [] false p) (encode_fields e fs ++ rest)
      ≡ feed (mid (frames ++ frame_of (values fs)) [] false (is_cr e)) rest
feed_event e frames p fs rest r h b n q = elim (body-values fs) [
  | inl (v, b', w) ↦ rw v (
      feed_fields e frames [] false p fs rest (mid frames [] false p) r h (omega arith)
        (λ c. rw (b', w) (end_line_empty frames c))
      ∙ ap (λ t. feed (mid t [] false (is_cr e)) rest) (sym (append-nil frames)))
  | inr (l, ls, v, b', w) ↦
      let n' : total_bytes frames + total_bytes (join_lines l ls ∷ []) ≤ max_sse_frame_bytes =
        rw v at n in
      let q' : length frames + length (join_lines l ls ∷ []) ≤ max_queued_sse_frames = rw v at q in
      rw v (
        feed_fields e frames [] false p fs rest (mid (frames ++ join_lines l ls ∷ []) [] false p) r
          h (omega arith)
          (λ c. rw (b', w) (end_line_frame frames (join_lines l ls) c (omega arith) (omega arith))))
]

feed_events :
    (e : Ending) (frames : List Bytes) (p : Bool) (events : List (List Field))
    → (p ≡ false) ⊎ (e ≡ cr)
    → AreEvents events
    → total_bytes frames + total_bytes (payloads events) ≤ max_sse_frame_bytes
    → length frames + length (payloads events) ≤ max_queued_sse_frames
    → (q : Bool) × (feed (mid frames [] false p) (encode e events)
        ≡ ok (mid (frames ++ payloads events) [] false q))
unfolding feed
feed_events e frames p [] r h n q = (p, ap (λ t. ok (mid t [] false p)) (sym (append-nil frames)))
feed_events e frames p (fs ∷ events) r h n q =
    let one = frame_of (values fs) in
    let (c, more) =
      feed_events e (frames ++ one) (is_cr e) events (ready e) h.2
        (omega (arith, total_bytes-append frames one, total_bytes-append one (payloads events)))
        (omega (arith, length-append frames one, length-append one (payloads events))) in
    (
      c,
      feed_event e frames p fs (encode e events) r h.0 h.1
            (omega (arith, total_bytes-append one (payloads events)))
            (omega (arith, length-append one (payloads events)))
          ∙ more
          ∙ ap (λ t. ok (mid t [] false c)) (append_assoc frames one (payloads events)),
    )

abbrev pub concat_chunks : List Bytes → Bytes
concat_chunks [] = []
concat_chunks (chunk ∷ chunks) = chunk ++ concat_chunks chunks

feed-append : (s : SseParser) (xs ys : Bytes) → feed s (xs ++ ys) ≡ (feed s xs >>= λ t. feed t ys)
unfolding feed
feed-append s [] ys = refl
feed-append s (x ∷ xs) ys =
    ap (λ (k : SseParser → Step). feed_byte s x >>= k) (fun_ext λ t. feed-append t xs ys)
    ∙ sym (bind_assoc (feed_byte s x) (λ t. feed t xs) (λ t. feed t ys))

feed_chunks-concat :
    (s : SseParser) (chunks : List Bytes) → feed_chunks s chunks ≡ feed s (concat_chunks chunks)
unfolding feed_chunks feed
feed_chunks-concat s [] = refl
feed_chunks-concat s (chunk ∷ chunks) =
    ap (λ (k : SseParser → Step). feed s chunk >>= k) (fun_ext λ t. feed_chunks-concat t chunks)
    ∙ sym (feed-append s chunk (concat_chunks chunks))

-- A stream of events, each made of data lines and comments, written with any one of the three line
-- endings and cut into chunks anywhere, is read back without error: the queued frames are, in
-- order, the data lines of each event joined by line feeds, for the events that have a data line.
-- The conditions are the parser's own limits: no break inside a line, each line within 1 MiB, the
-- data of each event and all frames together within 1 MiB, and at most 4096 frames.
pub feed_chunks-encode :
    (e : Ending) (events : List (List Field)) (chunks : List Bytes)
    → concat_chunks chunks ≡ encode e events
    → AreEvents events
    → total_bytes (payloads events) ≤ max_sse_frame_bytes
    → length (payloads events) ≤ max_queued_sse_frames
    → (t : SseParser) × (feed_chunks default chunks ≡ ok t)
      × (t.frames ≡ payloads events)
      × (t.line ≡ [])
      × (t.frame_data ≡ [])
feed_chunks-encode e events chunks same h n q =
    let (c, done) = feed_events e [] false events (inl refl) h (omega arith) (omega arith) in
    (
      mid (payloads events) [] false c,
      feed_chunks-concat default chunks ∙ ap (feed default) same ∙ done,
      refl,
      refl,
      refl,
    )
