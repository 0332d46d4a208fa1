-- ===== src/Codex/Search/Matches.antt =====
-- Where the pattern's lines stand in the source, read off both lists.
use minicore_agent.Prelude.{
  ℕ, zero, suc, ◌+◌, ◌-◌, ◌≤◌, ◌<◌, ◌≡◌, refl, sym, ap, ◌∙◌, ◌↔◌, Bool, true, false, not, ◌&&◌,
  ◌||◌, List, [], ◌∷◌, arith, if◌then◌else◌, length, drop, length-drop,
}
use minicore_agent.Prelude.Bytes.{Bytes, bytes_eq, bytes_eq→eq, bytes_eq_refl}
use minicore_agent.Patch.{no_ending, ending_eq, SourceLine, PatchContent}
use minicore_agent.Codex.Search.{text_at, contents_match, codex_contents_match_at}

-- The text of a line of the source.
abbrev pub line_text : List SourceLine → ℕ → Bytes
line_text [] i = []
line_text (line ∷ lines) zero = line.text
line_text (line ∷ lines) (suc i) = line_text lines i

abbrev pub marked_at : List PatchContent → ℕ → Bool
marked_at [] i = false
marked_at (content ∷ contents) zero = content.old_no_newline
marked_at (content ∷ contents) (suc i) = marked_at contents i

abbrev pub unterminated_at : List SourceLine → ℕ → Bool
unterminated_at [] i = false
unterminated_at (line ∷ lines) zero = ending_eq line.ending no_ending
unterminated_at (line ∷ lines) (suc i) = unterminated_at lines i

-- The pattern stands in the source at `j`: the texts agree, and a content marked as the end of the
-- file meets a line without an ending.
pub record Matches (pattern : List PatchContent) (source : List SourceLine) (j : ℕ) : Type 0 where
  pub in_range : length pattern ≤ length source - j
  pub texts : (k : ℕ) → k < length pattern → text_at pattern k ≡ line_text source (j + k)
  pub marks :
      (k : ℕ)
      → k < length pattern
      → marked_at pattern k ≡ true
      → unterminated_at source (j + k) ≡ true

zero-plus : (k : ℕ) → k ≡ 0 + k
zero-plus k = omega arith

suc-plus : (j k : ℕ) → suc (j + k) ≡ suc j + k
suc-plus j k = omega arith

pub line_text-drop :
    (j k : ℕ) (source : List SourceLine) → line_text (drop j source) k ≡ line_text source (j + k)
line_text-drop zero k source = ap (line_text source) (zero-plus k)
line_text-drop (suc j) k [] = refl
line_text-drop (suc j) k (line ∷ source) =
    line_text-drop j k source ∙ ap (line_text (line ∷ source)) (suc-plus j k)

unterminated_at-drop :
    (j k : ℕ) (source : List SourceLine)
    → unterminated_at (drop j source) k ≡ unterminated_at source (j + k)
unterminated_at-drop zero k source = ap (unterminated_at source) (zero-plus k)
unterminated_at-drop (suc j) k [] = refl
unterminated_at-drop (suc j) k (line ∷ source) =
    unterminated_at-drop j k source ∙ ap (unterminated_at (line ∷ source)) (suc-plus j k)

-- The pattern stands at the head of the lines.
record Heads (pattern : List PatchContent) (lines : List SourceLine) : Type 0 where
  in_range : length pattern ≤ length lines
  texts : (k : ℕ) → k < length pattern → text_at pattern k ≡ line_text lines k
  marks : (k : ℕ) → k < length pattern → marked_at pattern k ≡ true → unterminated_at lines k ≡ true

line-cases :
    (line : SourceLine) (content : PatchContent) (rest : Bool)
    → (if not (bytes_eq line.text content.text)
          || (content.old_no_newline && not (ending_eq line.ending no_ending))
        then false
        else rest)
      ≡ true
    → (bytes_eq line.text content.text ≡ true)
      × (content.old_no_newline ≡ true → ending_eq line.ending no_ending ≡ true)
      × (rest ≡ true)
line-cases line content rest h = (ground (arith, h), (λ m. ground (arith, h, m)), ground (arith, h))

line-holds :
    (line : SourceLine) (content : PatchContent) (rest : Bool)
    → bytes_eq line.text content.text ≡ true
    → (content.old_no_newline ≡ true → ending_eq line.ending no_ending ≡ true)
    → rest ≡ true
    → (if not (bytes_eq line.text content.text)
          || (content.old_no_newline && not (ending_eq line.ending no_ending))
        then false
        else rest)
      ≡ true
line-holds line content rest h m r = ground (arith, h, m, r)

module _ (content : PatchContent) (pattern : List PatchContent) (line : SourceLine)
    (lines : List SourceLine) where
  texts-cons :
      line.text ≡ content.text
      → Heads pattern lines
      → (k : ℕ) → k < suc (length pattern)
      → text_at (content ∷ pattern) k ≡ line_text (line ∷ lines) k
  texts-cons e h zero l = sym e
  texts-cons e h (suc k) l = h.texts k (omega (arith, l))

  marks-cons :
      (content.old_no_newline ≡ true → ending_eq line.ending no_ending ≡ true)
      → Heads pattern lines
      → (k : ℕ) → k < suc (length pattern)
      → marked_at (content ∷ pattern) k ≡ true
      → unterminated_at (line ∷ lines) k ≡ true
  marks-cons e h zero l m = e m
  marks-cons e h (suc k) l m = h.marks k (omega (arith, l)) m

  Heads-tail : Heads (content ∷ pattern) (line ∷ lines) → Heads pattern lines
  Heads-tail h = record {
    in_range = omega (arith, h.in_range);
    texts = λ k l. h.texts (suc k) (omega (arith, l));
    marks = λ k l. h.marks (suc k) (omega (arith, l));
  }

contents_match-Heads :
    (pattern : List PatchContent) (lines : List SourceLine)
    → contents_match pattern lines ≡ true
    → Heads pattern lines
unfolding contents_match
contents_match-Heads [] lines h = record {
  in_range = omega arith;
  texts = λ k l. absurd (omega (arith, l));
  marks = λ k l. absurd (omega (arith, l));
}
contents_match-Heads (content ∷ pattern) [] h = cc
contents_match-Heads (content ∷ pattern) (line ∷ lines) h =
    let (same, ends, rest) = line-cases line content _ h in
    let m = contents_match-Heads pattern lines rest in
    record {
      in_range = omega (arith, m.in_range);
      texts = texts-cons content pattern line lines (bytes_eq→eq _ _ same) m;
      marks = marks-cons content pattern line lines ends m;
    }

bytes_eq-eq : (a b : Bytes) → a ≡ b → bytes_eq a b ≡ true
bytes_eq-eq a b e = ap (bytes_eq a) (sym e) ∙ bytes_eq_refl a

Heads-contents_match :
    (pattern : List PatchContent) (lines : List SourceLine)
    → Heads pattern lines
    → contents_match pattern lines ≡ true
unfolding contents_match
Heads-contents_match [] lines m = refl
Heads-contents_match (content ∷ pattern) [] m = absurd (omega (arith, m.in_range))
Heads-contents_match (content ∷ pattern) (line ∷ lines) m =
    line-holds line content _ (bytes_eq-eq _ _ (sym (m.texts 0 (omega arith))))
      (m.marks 0 (omega arith))
      (Heads-contents_match pattern lines (Heads-tail content pattern line lines m))

-- `codex_contents_match_at` decides it.
pub codex_contents_match_at_iff :
    (pattern : List PatchContent) (source : List SourceLine) (j : ℕ)
    → (codex_contents_match_at pattern source j ≡ true) ↔ Matches pattern source j
unfolding codex_contents_match_at
codex_contents_match_at_iff pattern source j = (
  λ e.
      let h = contents_match-Heads pattern (drop j source) e in
      record {
        in_range = omega (arith, h.in_range, length-drop j source);
        texts = λ k l. h.texts k l ∙ line_text-drop j k source;
        marks = λ k l m. sym (unterminated_at-drop j k source) ∙ h.marks k l m;
      },
  λ m. Heads-contents_match pattern (drop j source) (record {
    in_range = omega (arith, m.in_range, length-drop j source);
    texts = λ k l. m.texts k l ∙ sym (line_text-drop j k source);
    marks = λ k l o. unterminated_at-drop j k source ∙ m.marks k l o;
  }),
)
