-- ===== src/Preview/Bounds.antt =====
-- What the reader keeps stays within its limits, and its accounts agree: the texts.
use minicore_agent.Prelude.{
  ℕ, ◌+◌, ◌-◌, ◌*◌, ◌^◌, ◌≤◌, min, max, ◌≡◌, refl, sym, ap, subst, ◌∙◌, ◌≢◌, inl, inr, Bool, true,
  false, not, Option, none, some, [], ◌∷◌, ◌++◌, arith, ltb, if◌then◌else◌, Bool-cases,
  Option-cases, length, is_some, ok,
}
use minicore_agent.Preview.Buffers.{
  max_call_bytes, max_stream_bytes, max_depth, Text, text_len, Buffer, new_buffer, Feed, Reserve,
  buffer_of, with_buffer, capacity_limit, append_within, append_display, sanitize, is_cut, cut,
  capture_text, changed,
}
use minicore_agent.Preview.Escapes.{sub_from}
use minicore_agent.Preview.Holds.{Holds, Holds->>=}

-- What `try_reserve_exact` documents: the capacity does not shrink, and it is enough after a success.
pub record Lawful (reserve : Reserve) : Type 0 where
  pub keeps : (len capacity additional : ℕ) → capacity ≤ (reserve len capacity additional).1
  pub enough :
      (len capacity additional : ℕ)
      → (reserve len capacity additional).0 ≡ true
      → len + additional ≤ (reserve len capacity additional).1

abbrev pub capacity_of : Option Buffer → ℕ
capacity_of none = 0
capacity_of (some buffer) = buffer.capacity

abbrev pub len_of : Option Buffer → ℕ
len_of none = 0
len_of (some buffer) = text_len buffer.text

-- The accounts of one parser, where the other calls of the stream are charged `others`.
pub record Charges (others : ℕ) (a b : Option Buffer) (retained stream_bytes : ℕ) : Type 0 where
  pub charged : capacity_of a + capacity_of b ≤ retained
  pub fits_call : retained ≤ max_call_bytes
  pub share : stream_bytes ≡ others + retained
  pub fits_stream : stream_bytes ≤ max_stream_bytes
  pub held : (len_of a ≤ capacity_of a) × (len_of b ≤ capacity_of b)

-- One frame is left for the start of the outermost object.
abbrev pub depth_limit : (started : Bool) → ℕ
depth_limit started = if started then max_depth else max_depth - 1

-- The accounts, the depth and the length of the key are within their limits.
abbrev pub Kept : ℕ → Feed → Type 0
Kept others s =
    Charges others s.parser.path s.parser.content s.parser.retained s.stream_bytes
    × (length s.parser.stack ≤ depth_limit s.parser.started)
    × (text_len s.parser.key ≤ 32)

Charges-swap :
    (others : ℕ) (a b : Option Buffer) (r n : ℕ) → Charges others a b r n → Charges others b a r n
Charges-swap others a b r n h = record {
  charged = omega (arith, h.charged);
  fits_call = h.fits_call;
  share = h.share;
  fits_stream = h.fits_stream;
  held = (h.held.1, h.held.0);
}

-- The accounts, with the text in place.
abbrev pub Holding : ℕ → (body : Bool) → Feed → Type 0
Holding others body s = Kept others s × (is_some (buffer_of body s.parser) ≡ true)

with_buffer-Holding :
    (others : ℕ) (body : Bool) (buffer : Buffer) (r n : ℕ) (s : Feed)
    → Kept others s
    → Charges others (some buffer) (buffer_of (not body) s.parser) r n
    → Holding others body (with_buffer body buffer r n s)
with_buffer-Holding others true buffer r n s (h, d, k) c =
    ((Charges-swap others _ _ r n c, d, k), refl)
with_buffer-Holding others false buffer r n s (h, d, k) c = ((c, d, k), refl)

Kept-Charges :
    (others : ℕ) (body : Bool) (s : Feed)
    → Kept others s
    → Charges others
        (buffer_of body s.parser)
        (buffer_of (not body) s.parser)
        s.parser.retained
        s.stream_bytes
Kept-Charges others true s (h, d, k) = Charges-swap others _ _ _ _ h
Kept-Charges others false s (h, d, k) = h

pub text_len-append : (a b : Text) → text_len (a ++ b) ≡ text_len a + text_len b
text_len-append [] b = omega arith
text_len-append (c ∷ a) b = omega (arith, text_len-append a b)

limit-bounds :
    (body : Bool) (oc os : ℕ)
    → (capacity_limit body oc os ≤ max_call_bytes - oc)
      × (capacity_limit body oc os ≤ max_stream_bytes - os)
limit-bounds body oc os = (omega arith, omega arith)

-- The charges after a reservation of `actual` bytes.
grown-Charges :
    (others : ℕ) (text : Text) (buffer : Buffer) (other : Option Buffer)
    (r n limit oc os actual : ℕ)
    → Charges others (some buffer) other r n
    → oc + buffer.capacity ≡ r
    → os + buffer.capacity ≡ n
    → limit ≤ max_call_bytes - oc
    → limit ≤ max_stream_bytes - os
    → actual ≤ limit
    → text_len text ≤ actual
    → Charges others
        (some (record { text = text; capacity = actual }))
        other
        (oc + actual)
        (os + actual)
grown-Charges others text buffer other r n limit oc os actual c eo es lc ls a t = record {
  charged = omega (arith, c.charged, eo);
  fits_call = omega (arith, c.fits_call, eo, lc, a);
  share = omega (arith, c.share, eo, es);
  fits_stream = omega (arith, c.fits_stream, es, ls, a);
  held = (t, c.held.1);
}

-- The charges after the text is given up.
dropped-Charges :
    (others : ℕ) (buffer : Buffer) (other : Option Buffer) (r n oc os : ℕ)
    → Charges others (some buffer) other r n
    → oc + buffer.capacity ≡ r
    → os + buffer.capacity ≡ n
    → Charges others (some new_buffer) other oc os
dropped-Charges others buffer other r n oc os c eo es = record {
  charged = omega (arith, c.charged, eo);
  fits_call = omega (arith, c.fits_call, eo);
  share = omega (arith, c.share, eo, es);
  fits_stream = omega (arith, c.fits_stream, es);
  held = (omega arith, c.held.1);
}

pushed-fits :
    (buffer : Buffer) (value : Text)
    → not (ltb buffer.capacity (text_len buffer.text + text_len value)) ≡ true
    → text_len (buffer.text ++ value) ≤ buffer.capacity
pushed-fits buffer value h = ground (arith, h, text_len-append buffer.text value)

-- What is reserved holds the text.
reserved-holds :
    (reserve : Reserve) (buffer : Buffer) (value : Text) (additional : ℕ)
    → Lawful reserve
    → text_len buffer.text ≤ buffer.capacity
    → text_len value ≤ additional
    → text_len (
        if (reserve (text_len buffer.text) buffer.capacity additional).0
        then buffer.text ++ value
        else buffer.text)
      ≤ (reserve (text_len buffer.text) buffer.capacity additional).1
reserved-holds reserve buffer value additional lawful held enough =
    let len = text_len buffer.text in
    elim (Bool-cases ((reserve len buffer.capacity additional).0)) [
      | inl done ↦ rw done (
          omega (
            arith,
            lawful.enough len buffer.capacity additional done,
            text_len-append buffer.text value,
            enough,
          ))
      | inr failed ↦ rw failed (omega (arith, lawful.keeps len buffer.capacity additional, held))
    ]

pub sub_from-Holds : (a b : ℕ) → b ≤ a → Holds (sub_from a b) (λ c. c + b ≡ a)
sub_from-Holds a b h = elim (Bool-cases (ltb a b)) [
  | inl under ↦ absurd (ground (arith, under, h))
  | inr over ↦ rw over (omega (arith, h))
]

module _ (others : ℕ) (body : Bool) (value : Text) (buffer : Buffer) (s : Feed) (reserve : Reserve)
    (lawful : Lawful reserve) where
  -- What is left after a reservation of `additional` bytes.
  reserved_within-Holding :
      (limit oc os additional : ℕ)
      → Kept others s
      → Charges others
          (some buffer)
          (buffer_of (not body) s.parser)
          s.parser.retained
          s.stream_bytes
      → oc + buffer.capacity ≡ s.parser.retained
      → os + buffer.capacity ≡ s.stream_bytes
      → limit ≤ max_call_bytes - oc
      → limit ≤ max_stream_bytes - os
      → text_len value ≤ additional
      → let reserved = reserve (text_len buffer.text) buffer.capacity additional in
        Holds {A = Bool × Feed}
          (ok (
            if ltb limit reserved.1 then (false, with_buffer body new_buffer oc os s) else (
              reserved.0,
              with_buffer body
                  (record {
                    text = if reserved.0 then buffer.text ++ value else buffer.text;
                    capacity = reserved.1;
                  })
                  (oc + reserved.1)
                  (os + reserved.1)
                  s,
            )))
          (λ r. Holding others body r.1)
  reserved_within-Holding limit oc os additional h c eo es lc ls enough =
      let reserved = reserve (text_len buffer.text) buffer.capacity additional in
      elim (Bool-cases (ltb limit reserved.1)) [
        | inl excess ↦ rw excess (
            with_buffer-Holding others body new_buffer oc os s h
              (dropped-Charges others buffer _ _ _ oc os c eo es))
        | inr within ↦ rw within (
            with_buffer-Holding others body _ (oc + reserved.1) (os + reserved.1) s h (
              grown-Charges others _ buffer _ _ _ limit oc os reserved.1 c eo es lc ls
                (ground (arith, within))
                (reserved-holds reserve buffer value additional lawful (c.held.0) enough)))
      ]

  append_within-Holding :
      (limit oc os : ℕ)
      → Holding others body s
      → Charges others
          (some buffer)
          (buffer_of (not body) s.parser)
          s.parser.retained
          s.stream_bytes
      → oc + buffer.capacity ≡ s.parser.retained
      → os + buffer.capacity ≡ s.stream_bytes
      → limit ≤ max_call_bytes - oc
      → limit ≤ max_stream_bytes - os
      → Holds (append_within reserve body value buffer limit oc os s) (λ r. Holding others body r.1)
  unfolding append_within
  append_within-Holding limit oc os (h, present) c eo es lc ls =
      let len = text_len buffer.text in
      let needed = len + text_len value in
      let requested = min (max (max (min (buffer.capacity * 2) (2 ^ 64 - 1)) 8) needed) limit in
      elim (Bool-cases (ltb limit needed)) [
        | inl over ↦ rw over (h, present)
        | inr fits ↦ rw fits (elim (Bool-cases (not (ltb buffer.capacity needed))) [
          | inl room ↦ rw room (
              with_buffer-Holding others body _ s.parser.retained s.stream_bytes s h (record {
                charged = c.charged;
                fits_call = c.fits_call;
                share = c.share;
                fits_stream = c.fits_stream;
                held = (pushed-fits buffer value room, c.held.1);
              }))
          | inr grow ↦ rw grow (
              Holds->>= (λ additional. additional + len ≡ requested) (λ r. Holding others body r.1)
                _ _ (sub_from-Holds requested len (ground (arith, fits)))
                λ additional enough.
                  reserved_within-Holding limit oc os additional h c eo es lc ls
                    (ground (arith, fits, enough)))
        ])
      ]

false≢true : false ≢ true
false≢true e = cc

pub if-both :
    {A : Type 0} (P : A → Type 0) (t : Bool) {x y : A} → P x → P y → P (if t then x else y)
if-both P true p q = p
if-both P false p q = q

pub append_display-Holding :
    (others : ℕ) (reserve : Reserve) (lawful : Lawful reserve) (body : Bool) (value : Text)
    (s : Feed)
    → Holding others body s
    → Holds (append_display reserve body value s) (λ r. Holding others body r.1)
unfolding append_display
append_display-Holding others reserve lawful body value s (h, present) =
    elim (Option-cases (buffer_of body s.parser)) [
      | inl absent ↦ absurd (false≢true (sym (ap is_some absent) ∙ present))
      | inr (buffer, e) ↦
          let c =
            subst
              (λ b.
                Charges others b (buffer_of (not body) s.parser) s.parser.retained s.stream_bytes)
              e (Kept-Charges others body s h) in
          rw e (
            Holds->>= (λ oc. oc + buffer.capacity ≡ s.parser.retained)
              (λ r. Holding others body r.1) _ _
              (sub_from-Holds s.parser.retained buffer.capacity (omega (arith, c.charged)))
              λ oc eo.
                Holds->>= (λ os. os + buffer.capacity ≡ s.stream_bytes)
                  (λ r. Holding others body r.1) _ _
                  (sub_from-Holds s.stream_bytes buffer.capacity
                    (omega (arith, c.charged, c.share)))
                  λ os es.
                    let (lc, ls) = limit-bounds body oc os in
                    append_within-Holding others body value buffer s reserve lawful
                      (capacity_limit body oc os) oc os (h, present) c eo es lc ls)
    ]

cut-Holding :
    (others : ℕ) (body : Bool) (s : Feed)
    → Holding others body s
    → Holding others body (record s { parser = cut body s.parser })
cut-Holding others true s h = h
cut-Holding others false s h = h

changed-Holding :
    (others : ℕ) (body : Bool) (s : Feed) → Holding others body s → Holding others body (changed s)
changed-Holding others true s h = h
changed-Holding others false s h = h

pub capture_text-Holding :
    (others : ℕ) (reserve : Reserve) (lawful : Lawful reserve) (body : Bool) (ch : ℕ) (s : Feed)
    → Holding others body s
    → Holds (capture_text reserve body ch s) (Holding others body)
unfolding capture_text
capture_text-Holding others reserve lawful body ch s h = elim (Bool-cases (is_cut body s.parser)) [
  | inl full ↦ rw full h
  | inr more ↦ rw more (
      Holds->>= (λ r. Holding others body r.1) (Holding others body) _ _
        (append_display-Holding others reserve lawful body (sanitize body ch) s h)
        λ appended k.
          changed-Holding others body _
            (if-both (Holding others body) appended.0 k (cut-Holding others body appended.1 k)))
]
