-- ===== src/Preview/Surrogates.antt =====
-- The escapes of JSON strings are decoded to the characters they stand for.
use minicore_agent.Prelude.{
  ℕ, ◌≤◌, ◌≡◌, refl, ap, ◌∙◌, ◌≢◌, ◌⊎◌, inl, inr, some, List, [], ◌∷◌, map, arith,
}
use minicore_agent.Preview.Escapes.{plain, slash, decode}
use minicore_agent.Preview.Units.{
  Letters, decode_text, returned, after, emits, escaped, escaped-decodes, IsChar, skips,
}

-- The escapes of one letter: the letter and the character that RFC 8259 gives it.
abbrev pub short_escapes : List (ℕ × ℕ)
short_escapes =
    (b'"', b'"')
    ∷ (b'\\', b'\\')
    ∷ (b'/', b'/')
    ∷ (b'b', 0x08)
    ∷ (b'f', 0x0c)
    ∷ (b'n', 0x0a)
    ∷ (b'r', 0x0d)
    ∷ (b't', 0x09)
    ∷ []

-- A character of a JSON string as it is written: itself, a backslash and one letter, or an escape with
-- `\u`, whose digits have small or capital letters.
pub data Written : Type 0 where
  raw_char : ℕ → Written
  short_char : (letter c : ℕ) → Written
  escaped_char : (letters pair_letters : Letters) → ℕ → Written

abbrev pub char_of : Written → ℕ
char_of (raw_char c) = c
char_of (short_char letter c) = c
char_of (escaped_char l m c) = c

abbrev pub IsIn : (letter c : ℕ) → List (ℕ × ℕ) → Type 0
IsIn letter c [] = ⊥
IsIn letter c (p ∷ ps) = ((letter ≡ p.0) × (c ≡ p.1)) ⊎ IsIn letter c ps

-- What may be written so.
abbrev pub IsWritten : Written → Type 0
IsWritten (raw_char c) = (0x20 ≤ c) × (c ≢ b'\\')
IsWritten (short_char letter c) = IsIn letter c short_escapes
IsWritten (escaped_char l m c) = IsChar c

abbrev pub AllWritten : List Written → Type 0
AllWritten [] = Unit
AllWritten (w ∷ ws) = IsWritten w × AllWritten ws

abbrev pub written : List Written → List ℕ
written [] = []
written (raw_char c ∷ ws) = c ∷ written ws
written (short_char letter c ∷ ws) = b'\\' ∷ letter ∷ written ws
written (escaped_char l m c ∷ ws) = escaped l m c (written ws)

raw-step : (c : ℕ) → 0x20 ≤ c → c ≢ b'\\' → returned (decode plain c) ≡ some (plain, some c)
unfolding decode
raw-step c l n = ground (arith, l, n)

raw-decodes :
    (c : ℕ) (text : List ℕ)
    → IsWritten (raw_char c)
    → decode_text plain (c ∷ text) ≡ emits c (decode_text plain text)
unfolding decode_text decode
raw-decodes c text (l, n) = ap (λ o. after o text) (raw-step c l n)

short-step :
    (letter c : ℕ)
    → IsIn letter c short_escapes
    → returned (decode slash letter) ≡ some (plain, some c)
unfolding decode
short-step letter c (inl (e, f)) = rw (e, f) refl
short-step letter c (inr (inl (e, f))) = rw (e, f) refl
short-step letter c (inr (inr (inl (e, f)))) = rw (e, f) refl
short-step letter c (inr (inr (inr (inl (e, f))))) = rw (e, f) refl
short-step letter c (inr (inr (inr (inr (inl (e, f)))))) = rw (e, f) refl
short-step letter c (inr (inr (inr (inr (inr (inl (e, f))))))) = rw (e, f) refl
short-step letter c (inr (inr (inr (inr (inr (inr (inl (e, f)))))))) = rw (e, f) refl
short-step letter c (inr (inr (inr (inr (inr (inr (inr (inl (e, f))))))))) = rw (e, f) refl
short-step letter c (inr (inr (inr (inr (inr (inr (inr (inr h)))))))) = absurd h

opens-slash : (text : List ℕ) → decode_text plain (b'\\' ∷ text) ≡ decode_text slash text
unfolding decode
opens-slash text = skips plain slash b'\\' text refl

short-decodes :
    (letter c : ℕ) (text : List ℕ)
    → IsIn letter c short_escapes
    → decode_text plain (b'\\' ∷ letter ∷ text) ≡ emits c (decode_text plain text)
unfolding decode_text
short-decodes letter c text h =
    opens-slash (letter ∷ text) ∙ ap (λ o. after o text) (short-step letter c h)

-- A JSON string is decoded to its characters, however each is written: as it is, as one of the eight
-- escapes of one letter, as the four digits of an escape, with small or capital letters, or as
-- a pair of such escapes where four digits are not enough.
pub decode_text-written :
    (ws : List Written)
    → AllWritten ws
    → decode_text plain (written ws) ≡ some (plain, map char_of ws)
unfolding decode_text
decode_text-written [] h = refl
decode_text-written (raw_char c ∷ ws) (h, hs) =
    raw-decodes c (written ws) h ∙ ap (emits c) (decode_text-written ws hs)
decode_text-written (short_char letter c ∷ ws) (h, hs) =
    short-decodes letter c (written ws) h ∙ ap (emits c) (decode_text-written ws hs)
decode_text-written (escaped_char l m c ∷ ws) (h, hs) =
    escaped-decodes l m c (written ws) h ∙ ap (emits c) (decode_text-written ws hs)
