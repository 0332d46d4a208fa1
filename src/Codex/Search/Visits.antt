-- ===== src/Codex/Search/Visits.antt =====
-- How many lines the search for a hunk's lines visits.
use minicore_agent.Prelude.{
  ℕ, zero, suc, ◌+◌, ◌≤◌, ◌≡◌, refl, ap, subst, ◌∙◌, inl, inr, true, false, List, [], ◌∷◌, arith,
  ltb, if◌then◌else◌, Bool-cases, length, drop,
}
use minicore_agent.Prelude.Bytes.{Bytes, bytes_eq}
use minicore_agent.Patch.{SourceLine}
use minicore_agent.Codex.Search.{positions_of, candidates_from}

shift : (i k : ℕ) → i + 1 + k ≡ i + suc k
shift i k = omega arith

-- How many lines of a text stand in the source.
abbrev pub occurrences : Bytes → List SourceLine → ℕ
occurrences text [] = 0
occurrences text (line ∷ source) =
    let rest = occurrences text source in if bytes_eq line.text text then suc rest else rest

-- The lines visited, by how many lines from the start on are the pattern's first: none of them, that
-- one, or all from the start on.
abbrev pub line_visits : (candidates remaining : ℕ) → ℕ
line_visits zero remaining = 0
line_visits (suc zero) remaining = 1
line_visits (suc (suc candidates)) remaining = remaining

positions_of-length :
    (text : Bytes) (index : ℕ) (source : List SourceLine)
    → length (positions_of text index source) ≡ occurrences text source
unfolding positions_of
positions_of-length text index [] = refl
positions_of-length text index (line ∷ source) = elim (Bool-cases (bytes_eq line.text text)) [
  | inl same ↦ rw same (ap suc (positions_of-length text (index + 1) source))
  | inr differs ↦ rw differs (positions_of-length text (index + 1) source)
]

candidates_from-all :
    (text : Bytes) (start index : ℕ) (source : List SourceLine)
    → start ≤ index
    → candidates_from start (positions_of text index source) ≡ positions_of text index source
unfolding candidates_from positions_of
candidates_from-all text start index [] l = refl
candidates_from-all text start index (line ∷ source) l =
    elim (Bool-cases (bytes_eq line.text text)) [
      | inl same ↦ let after : ltb index start ≡ false = ground (arith, l) in rw (same, after) refl
      | inr differs ↦
          rw differs (candidates_from-all text start (index + 1) source (omega (arith, l)))
    ]

-- The candidates are the lines from the start on that are the pattern's first.
pub candidates_from-length :
    (text : Bytes) (before index : ℕ) (source : List SourceLine)
    → length (candidates_from (index + before) (positions_of text index source))
      ≡ occurrences text (drop before source)
unfolding candidates_from positions_of
candidates_from-length text zero index source =
    ap length (candidates_from-all text (index + 0) index source (omega arith))
    ∙ positions_of-length text index source
candidates_from-length text (suc before) index [] = refl
candidates_from-length text (suc before) index (line ∷ source) =
    let rest =
      subst
        (λ n.
          length (candidates_from n (positions_of text (index + 1) source))
          ≡ occurrences text (drop before source))
        (shift index before) (candidates_from-length text before (index + 1) source) in
    elim (Bool-cases (bytes_eq line.text text)) [
      | inl same ↦
          let earlier : ltb index (index + suc before) ≡ true = ground arith in
          rw (same, earlier) rest
      | inr differs ↦ rw differs rest
    ]
