-- ===== src/Patch/Lines.antt =====
-- Files as lines: `split_source_lines` and its inverse.
use minicore_agent.Prelude.{
  ℕ, ◌≡◌, refl, sym, ap, ◌∙◌, ◌≢◌, ◌⊎◌, inl, inr, true, false, Option, none, some, List, [], ◌∷◌,
  ◌++◌, append-nil, append_assoc, arith, ◌==◌, ◌==?◌, ==_iff, Bool-cases, is_empty, last, drop_last,
  last-append_singleton, drop_last-append_singleton, last-eq-some,
}
use minicore_agent.Prelude.Bytes.{Bytes}
use minicore_agent.Patch.{
  LineEnding, no_ending, lf, crlf, as_str, SourceLine, ended_line, split_from, split_source_lines,
}

abbrev pub render_line : SourceLine → Bytes
render_line l = l.text ++ as_str l.ending

-- The text of a list of lines.
abbrev pub render : List SourceLine → Bytes
render [] = []
render (l ∷ ls) = render_line l ++ render ls

==?-eq : (o : Option ℕ) (n : ℕ) → (o ==? n) ≡ true → o ≡ some n
==?-eq none n h = cc
==?-eq (some a) n h = ap some ((==_iff a n).0 h)

render_line-ended_line : (line : Bytes) → render_line (ended_line line) ≡ line ++ b'\n' ∷ []
unfolding ended_line
render_line-ended_line line = elim (Bool-cases (last line ==? b'\r')) [
  | inl cr ↦ rw cr (
      sym (append_assoc (drop_last line) (b'\r' ∷ []) (b'\n' ∷ []))
      ∙ ap (λ l. l ++ b'\n' ∷ []) (sym (last-eq-some line b'\r' (==?-eq _ _ cr))))
  | inr plain ↦ rw plain
]

render-split_from : (line rest : Bytes) → render (split_from line rest) ≡ line ++ rest
unfolding split_from
render-split_from [] [] = refl
render-split_from (c ∷ line) [] = append-nil _
render-split_from line (byte ∷ rest) = elim (Bool-cases (byte == b'\n')) [
  | inl newline ↦ rw newline (
      ap (λ l. l ++ render (split_from [] rest)) (render_line-ended_line line)
      ∙ ap (λ r. (line ++ b'\n' ∷ []) ++ r) (render-split_from [] rest)
      ∙ append_assoc line (b'\n' ∷ []) rest
      ∙ ap (λ b. line ++ (b ∷ rest)) (sym ((==_iff byte b'\n').0 newline)))
  | inr other ↦
      rw other (render-split_from (line ++ byte ∷ []) rest ∙ append_assoc line (byte ∷ []) rest)
]

-- Splitting a text into lines loses nothing: the lines, written one after another with their
-- endings, are the text.
pub render-split_source_lines : (source : Bytes) → render (split_source_lines source) ≡ source
unfolding split_source_lines
render-split_source_lines source = render-split_from [] source

abbrev pub NoNewline : Bytes → Type 0
NoNewline [] = Unit
NoNewline (c ∷ l) = (c ≢ b'\n') × NoNewline l

-- A line that a line feed ends: `\n` does not follow a `\r`.
abbrev pub IsEnded : SourceLine → Type 0
IsEnded l = NoNewline l.text × (l.ending ≢ no_ending) × (l.ending ≡ lf → last l.text ≢ some b'\r')

-- The rest of the text, not empty, that no line feed ends.
abbrev pub IsLast : SourceLine → Type 0
IsLast l = NoNewline l.text × (l.ending ≡ no_ending) × (is_empty l.text ≡ false)

-- The lines a text can have: only the last one has no ending.
abbrev pub AreLines : List SourceLine → Type 0
AreLines [] = Unit
AreLines (l ∷ []) = IsEnded l ⊎ IsLast l
AreLines (l ∷ m ∷ ls) = IsEnded l × AreLines (m ∷ ls)

split_from-text :
    (line text rest : Bytes)
    → NoNewline text
    → split_from line (text ++ rest) ≡ split_from (line ++ text) rest
unfolding split_from
split_from-text line [] rest h = rw append-nil refl
split_from-text line (c ∷ text) rest h = elim (Bool-cases (c == b'\n')) [
  | inl newline ↦ absurd (h.0 ((==_iff c b'\n').0 newline))
  | inr other ↦ rw other (
      split_from-text (line ++ c ∷ []) text rest h.1
      ∙ ap (λ l. split_from l rest) (append_assoc line (c ∷ []) text))
]

split_from-newline :
    (line rest : Bytes) → split_from line (b'\n' ∷ rest) ≡ ended_line line ∷ split_from [] rest
unfolding split_from
split_from-newline line rest = refl

split_from-cr :
    (line rest : Bytes) → split_from line (b'\r' ∷ rest) ≡ split_from (line ++ b'\r' ∷ []) rest
unfolding split_from
split_from-cr line rest = refl

ended_line-lf :
    (text : Bytes) → last text ≢ some b'\r' → ended_line text ≡ record { text = text; ending = lf }
unfolding ended_line
ended_line-lf text h = elim (Bool-cases (last text ==? b'\r')) [
  | inl cr ↦ absurd (h (==?-eq _ _ cr))
  | inr plain ↦ rw plain
]

ended_line-crlf :
    (text : Bytes) → ended_line (text ++ b'\r' ∷ []) ≡ record { text = text; ending = crlf }
unfolding ended_line
ended_line-crlf text =
    rw (last-append_singleton text b'\r')
      (ap (λ t. record { text = t; ending = crlf }) (drop_last-append_singleton text b'\r'))

split_from-ended_at :
    (text : Bytes) (ending : LineEnding) (rest : Bytes)
    → IsEnded (record { text = text; ending = ending })
    → split_from [] ((text ++ as_str ending) ++ rest)
      ≡ record { text = text; ending = ending } ∷ split_from [] rest
split_from-ended_at text no_ending rest (h, n, c) = absurd (n refl)
split_from-ended_at text lf rest (h, n, c) =
    ap (split_from []) (append_assoc text (b'\n' ∷ []) rest)
    ∙ split_from-text [] text (b'\n' ∷ rest) h
    ∙ split_from-newline text rest
    ∙ ap (λ l. l ∷ split_from [] rest) (ended_line-lf text (c refl))
split_from-ended_at text crlf rest (h, n, c) =
    ap (split_from []) (append_assoc text (b'\r' ∷ b'\n' ∷ []) rest)
    ∙ split_from-text [] text (b'\r' ∷ b'\n' ∷ rest) h
    ∙ split_from-cr text (b'\n' ∷ rest)
    ∙ split_from-newline (text ++ b'\r' ∷ []) rest
    ∙ ap (λ l. l ∷ split_from [] rest) (ended_line-crlf text)

split_from-ended :
    (l : SourceLine) (rest : Bytes)
    → IsEnded l
    → split_from [] (render_line l ++ rest) ≡ l ∷ split_from [] rest
split_from-ended l rest h = split_from-ended_at l.text l.ending rest h

split_from-end :
    (line : Bytes)
    → is_empty line ≡ false
    → split_from line [] ≡ record { text = line; ending = no_ending } ∷ []
unfolding split_from
split_from-end line h = rw h

split_from-last :
    (text : Bytes) (ending : LineEnding)
    → IsLast (record { text = text; ending = ending })
    → split_from [] ((text ++ as_str ending) ++ []) ≡ record { text = text; ending = ending } ∷ []
split_from-last text no_ending (h, e, i) =
    ap (split_from []) (append_assoc text [] [])
    ∙ split_from-text [] text [] h
    ∙ split_from-end text i
split_from-last text lf (h, e, i) = cc
split_from-last text crlf (h, e, i) = cc

-- Every list of well-formed lines is what its text is split into, so that lines and texts
-- correspond one to one.
pub split_source_lines-render :
    (ls : List SourceLine) → AreLines ls → split_source_lines (render ls) ≡ ls
unfolding split_source_lines
split_source_lines-render [] h = refl
split_source_lines-render (l ∷ []) (inl h) = split_from-ended l [] h
split_source_lines-render (l ∷ []) (inr h) = split_from-last l.text l.ending h
split_source_lines-render (l ∷ m ∷ ls) h =
    split_from-ended l (render (m ∷ ls)) h.0 ∙ ap (◌∷◌ l) (split_source_lines-render (m ∷ ls) h.1)

NoNewline-append_singleton :
    (line : Bytes) (c : ℕ) → NoNewline line → c ≢ b'\n' → NoNewline (line ++ c ∷ [])
NoNewline-append_singleton [] c h n = (n, tt)
NoNewline-append_singleton (d ∷ line) c h n = (h.0, NoNewline-append_singleton line c h.1 n)

NoNewline-drop_last : (line : Bytes) → NoNewline line → NoNewline (drop_last line)
NoNewline-drop_last [] h = tt
NoNewline-drop_last (c ∷ []) h = tt
NoNewline-drop_last (c ∷ d ∷ line) h = (h.0, NoNewline-drop_last (d ∷ line) h.1)

false≢true : false ≢ true
false≢true e = cc

last-not-cr : (line : Bytes) → (last line ==? b'\r') ≡ false → last line ≢ some b'\r'
last-not-cr line h e = false≢true (sym h ∙ ap (λ o. o ==? b'\r') e)

==-false : (a b : ℕ) → (a == b) ≡ false → a ≢ b
==-false a b h = ground arith

ended_line-IsEnded : (line : Bytes) → NoNewline line → IsEnded (ended_line line)
unfolding ended_line
ended_line-IsEnded line h = elim (Bool-cases (last line ==? b'\r')) [
  | inl cr ↦ rw cr (NoNewline-drop_last line h, λ e. cc, λ e. cc)
  | inr plain ↦ rw plain (h, λ e. cc, λ _ e. last-not-cr line plain e)
]

AreLines-cons :
    (l : SourceLine) (ls : List SourceLine) → IsEnded l → AreLines ls → AreLines (l ∷ ls)
AreLines-cons l [] h t = inl h
AreLines-cons l (m ∷ ls) h t = (h, t)

split_from-AreLines : (line rest : Bytes) → NoNewline line → AreLines (split_from line rest)
unfolding split_from
split_from-AreLines line [] h = elim (Bool-cases (is_empty line)) [
  | inl e ↦ rw e tt
  | inr e ↦ rw e (inr (h, refl, e))
]
split_from-AreLines line (byte ∷ rest) h = elim (Bool-cases (byte == b'\n')) [
  | inl newline ↦
      rw newline (AreLines-cons _ _ (ended_line-IsEnded line h) (split_from-AreLines [] rest tt))
  | inr other ↦ rw other (
      split_from-AreLines (line ++ byte ∷ []) rest
        (NoNewline-append_singleton line byte h (==-false byte b'\n' other)))
]

-- What a text is split into is a list of well-formed lines, of which only the last one lacks an
-- ending.
pub split_source_lines-AreLines : (source : Bytes) → AreLines (split_source_lines source)
unfolding split_source_lines
split_source_lines-AreLines source = split_from-AreLines [] source tt
