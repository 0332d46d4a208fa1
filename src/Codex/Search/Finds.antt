-- ===== src/Codex/Search/Finds.antt =====
-- `find_unique_codex_match` against a look at every place of the source.
use minicore_agent.Prelude.{
  ℕ, zero, suc, ◌+◌, ◌-◌, drop, ◌≤◌, ◌<◌, ◌≡◌, refl, sym, ap, subst, ◌∙◌, ◌≢◌, ◌⊎◌, inl, inr, true,
  false, Option, none, some, List, [], ◌∷◌, arith, ltb, if◌then◌else◌, ltb→lt, Bool-cases, length,
  Result, ok, err, ◌>>=◌,
}
use minicore_agent.Prelude.Bytes.{Bytes, bytes_eq, bytes_eq_refl}
use minicore_agent.Patch.{ToolError, SourceLine, PatchContent}
use minicore_agent.Codex.Search.{
  max_codex_match_visits, Scan, codex_contents_match_at, positions_of, candidates_from, find_among,
  find_unique_codex_match, no_newline_offset, codex_pattern_prefix,
}
use minicore_agent.Codex.Search.Table.{codex_pattern_prefix-Table}
use minicore_agent.Codex.Search.Matches.{line_text, codex_contents_match_at_iff}
use minicore_agent.Codex.Search.Offset.{Only, no_newline_offset-Only, ends_unterminated_iff}
use minicore_agent.Codex.Search.Scans.{Found, Two, Stands}
use minicore_agent.Codex.Search.Visits.{occurrences, line_visits, candidates_from-length}
use minicore_agent.Codex.Search.Unique.{visit-cases, Finished, scan-Finished}

plus-zero : (i : ℕ) → i ≡ i + 0
plus-zero i = omega arith

zero-plus : (i : ℕ) → 0 + i ≡ i
zero-plus i = omega arith

shift : (i k : ℕ) → i + 1 + k ≡ i + suc k
shift i k = omega arith

-- `j` is one of the positions.
data In (j : ℕ) : List ℕ → Type 0 where
  here : (ps : List ℕ) → In j (j ∷ ps)
  there : (p : ℕ) (ps : List ℕ) → In j ps → In j (p ∷ ps)

positions_of-In :
    (text : Bytes) (index : ℕ) (source : List SourceLine) (k : ℕ)
    → k < length source
    → line_text source k ≡ text
    → In (index + k) (positions_of text index source)
unfolding positions_of
positions_of-In text index [] k l e = absurd (omega (arith, l))
positions_of-In text index (line ∷ source) zero l e =
    rw (ap (bytes_eq line.text) (sym e) ∙ bytes_eq_refl line.text)
      (subst (λ n. In n (index ∷ positions_of text (index + 1) source)) (plus-zero index) (here _))
positions_of-In text index (line ∷ source) (suc k) l e =
    let later =
      subst (λ n. In n (positions_of text (index + 1) source)) (shift index k)
        (positions_of-In text (index + 1) source k (omega (arith, l)) e) in
    elim (Bool-cases (bytes_eq line.text text)) [
      | inl same ↦ rw same (there index _ later)
      | inr differs ↦ rw differs later
    ]

later-In : (start p : ℕ) (ps : List ℕ) (j : ℕ) → start ≤ j → p < start → In j (p ∷ ps) → In j ps
later-In start p ps j l before (here _) = absurd (omega (arith, l, before))
later-In start p ps j l before (there _ _ h) = h

head-start :
    (start p : ℕ) (ps : List ℕ) (c : ℕ) (cs : List ℕ)
    → ltb p start ≡ false
    → p ∷ ps ≡ c ∷ cs
    → start ≤ c
head-start start p ps c cs after e =
    let same : p ≡ c = cc in subst (λ n. start ≤ n) same (ground (arith, after))

candidates_from-In :
    (start : ℕ) (ps : List ℕ) (j : ℕ) → start ≤ j → In j ps → In j (candidates_from start ps)
unfolding candidates_from
candidates_from-In start [] j l h = h
candidates_from-In start (p ∷ ps) j l h = elim (Bool-cases (ltb p start)) [
  | inl before ↦
      rw before
        (candidates_from-In start ps j l (later-In start p ps j l (ltb→lt p start before) h))
  | inr after ↦ rw after h
]

candidates_from-start :
    (start : ℕ) (ps : List ℕ) (c : ℕ) (cs : List ℕ) → candidates_from start ps ≡ c ∷ cs → start ≤ c
unfolding candidates_from
candidates_from-start start [] c cs e = cc
candidates_from-start start (p ∷ ps) c cs e = elim (Bool-cases (ltb p start)) [
  | inl before ↦ candidates_from-start start ps c cs (rw before at e)
  | inr after ↦ head-start start p ps c cs after (rw after at e)
]

In-none : (j : ℕ) → ¬ In j []
In-none j h = elim h [ ]

In-one : (j c : ℕ) → In j (c ∷ []) → j ≡ c
In-one j c (here _) = refl
In-one j c (there _ _ h) = absurd (In-none j h)

-- The first line of a match is one of the candidates.
match-candidate :
    (content : PatchContent) (pattern : List PatchContent) (source : List SourceLine) (start j : ℕ)
    → start ≤ j
    → codex_contents_match_at (content ∷ pattern) source j ≡ true
    → In j (candidates_from start (positions_of content.text 0 source))
match-candidate content pattern source start j l m =
    let h = (codex_contents_match_at_iff (content ∷ pattern) source j).0 m in
    candidates_from-In start _ j l (
      subst (λ n. In n (positions_of content.text 0 source)) (zero-plus j)
        (positions_of-In content.text 0 source j (omega (arith, h.in_range))
          (ap (line_text source) (plus-zero j) ∙ sym (h.texts 0 (omega arith)))))

module _ (pattern : List PatchContent) (source : List SourceLine) (offset : Option ℕ) (start : ℕ)
    (some_lines : 0 < length pattern) (only : Only pattern 0 offset) where
  match-Stands :
      (j : ℕ)
      → codex_contents_match_at pattern source j ≡ true
      → Stands pattern source offset start j × (j + length pattern ≤ length source)
  match-Stands j m =
      let h = (codex_contents_match_at_iff pattern source j).0 m in
      (
        record {
          texts = h.texts;
          unterminated = (ends_unterminated_iff pattern source offset j only).1 h.marks;
        },
        omega (arith, h.in_range, some_lines),
      )

  Stands-match :
      (j : ℕ)
      → Stands pattern source offset start j
      → j + length pattern ≤ length source
      → codex_contents_match_at pattern source j ≡ true
  Stands-match j h l = (codex_contents_match_at_iff pattern source j).1 (record {
    in_range = omega (arith, l);
    texts = h.texts;
    marks = (ends_unterminated_iff pattern source offset j only).0 h.unterminated;
  })

-- Two places where the pattern stands.
pub record Ambiguous (pattern : List PatchContent) (source : List SourceLine) (start : ℕ)
    : Type 0 where
  pub one : ℕ
  pub other : ℕ
  pub starts : start ≤ one
  pub apart : one < other
  pub one_matches : codex_contents_match_at pattern source one ≡ true
  pub other_matches : codex_contents_match_at pattern source other ≡ true

-- What is known of an answer of the search.
abbrev pub Answers :
    List PatchContent
    → List SourceLine
    → (start total : ℕ) → Result ToolError (Option ℕ × ℕ)
    → Type 0
Answers pattern source start total (ok (none, v)) =
    (v ≡ total) × ((j : ℕ) → start ≤ j → codex_contents_match_at pattern source j ≢ true)
Answers pattern source start total (ok (some c, v)) =
    (v ≡ total)
    × (start ≤ c)
    × (codex_contents_match_at pattern source c ≡ true)
    × ((j : ℕ) → start ≤ j → codex_contents_match_at pattern source j ≡ true → j ≡ c)
Answers pattern source start total (err e) =
    (max_codex_match_visits < total) ⊎ Ambiguous pattern source start

module _ (pattern : List PatchContent) (source : List SourceLine) (offset : Option ℕ) (start : ℕ)
    (some_lines : 0 < length pattern) (only : Only pattern 0 offset) where
  Found-Answers :
      (total v : ℕ) (found : Option ℕ)
      → v ≡ total
      → Found (Stands pattern source offset start) (length pattern) start (length source) found
      → Answers pattern source start total (ok (found, v))
  unfolding Found
  Found-Answers total v none t f = (
    t,
    λ j l m.
        let (stands, room) = match-Stands pattern source offset start some_lines only j m in
        f j l room stands,
  )
  Found-Answers total v (some c) t (l, room, stands, unique) = (
    t,
    l,
    Stands-match pattern source offset start some_lines only c stands room,
    λ j l' m.
        let (stands', room') = match-Stands pattern source offset start some_lines only j m in
        unique j l' room' stands',
  )

  Two-Ambiguous :
      Two (Stands pattern source offset start) (length pattern) start (length source)
      → Ambiguous pattern source start
  Two-Ambiguous t = record {
    one = t.one;
    other = t.other;
    starts = t.starts;
    apart = t.apart;
    one_matches =
        Stands-match pattern source offset start some_lines only t.one t.one_holds
          (omega (arith, t.fits, t.apart));
    other_matches =
        Stands-match pattern source offset start some_lines only t.other t.other_holds t.fits;
  }

  Finished-Answers :
      (total : ℕ) (r : Result ToolError Scan)
      → Finished pattern source offset start total r
      → Answers pattern source start total (r >>= λ scan. ok (scan.found, scan.visits))
  Finished-Answers total (ok scan) h = Found-Answers total scan.visits scan.found h.1 h.0
  Finished-Answers total (err e) (inl l) = inl l
  Finished-Answers total (err e) (inr t) = inr (Two-Ambiguous t)

false≢true : false ≢ true
false≢true e = cc

one-Answers :
    (pattern : List PatchContent) (source : List SourceLine) (start total v c : ℕ)
    → v ≡ total
    → start ≤ c
    → ((j : ℕ) → start ≤ j → codex_contents_match_at pattern source j ≡ true → j ≡ c)
    → Answers pattern source start total
        (ok (if codex_contents_match_at pattern source c then some c else none, v))
one-Answers pattern source start total v c t l only =
    elim (Bool-cases (codex_contents_match_at pattern source c)) [
      | inl m ↦ rw m (t, l, m, only)
      | inr n ↦ rw n (
        t,
        λ j l' m.
            false≢true
              (sym n ∙ ap (codex_contents_match_at pattern source) (sym (only j l' m)) ∙ m),
      )
    ]

find_among-Answers :
    (content : PatchContent) (pattern : List PatchContent) (source : List SourceLine)
    (start visits : ℕ) (offset : Option ℕ) (candidates : List ℕ)
    → Only (content ∷ pattern) 0 offset
    → candidates_from start (positions_of content.text 0 source) ≡ candidates
    → Answers
        (content ∷ pattern)
        source
        start
        (visits + line_visits (length candidates) (length source - start))
        (find_among (content ∷ pattern) source start visits offset candidates)
unfolding find_among
find_among-Answers content pattern source start visits offset [] only e = (
  omega arith,
  λ j l m. In-none j (subst (In j) e (match-candidate content pattern source start j l m)),
)
find_among-Answers content pattern source start visits offset (c ∷ []) only e =
    elim (visit-cases visits) [
      | inl visited ↦ rw visited (
          one-Answers (content ∷ pattern) source start (visits + 1) (visits + 1) c refl
            (candidates_from-start start _ c [] e)
            (λ j l m.
              In-one j c (subst (In j) e (match-candidate content pattern source start j l m))))
      | inr (refusal, refused, over) ↦ rw refused (inl (omega (arith, over)))
    ]
find_among-Answers content pattern source start visits offset (c ∷ d ∷ candidates) only e =
    Finished-Answers (content ∷ pattern) source offset start (omega arith) only _ _ (
      scan-Finished (content ∷ pattern) source offset start
        (codex_pattern_prefix (content ∷ pattern)) (codex_pattern_prefix-Table content pattern)
        (omega arith) visits)

-- Where at most one line of the pattern is marked as the end of the old file, the search gives none only
-- if the pattern stands nowhere from the start on, and a place only if it stands there and nowhere else,
-- and adds just the lines that it visits: none where no line from the start on is the pattern's first,
-- one where one is, and otherwise all from the start on. It fails only if the pattern stands in two
-- places, or these visits exceed the limit.
pub find_unique_codex_match-Answers :
    (content : PatchContent) (pattern : List PatchContent) (source : List SourceLine)
    (start visits : ℕ) (offset : Option ℕ)
    → no_newline_offset 0 none (content ∷ pattern) ≡ ok offset
    → Answers
        (content ∷ pattern)
        source
        start
        (visits
          + line_visits (occurrences content.text (drop start source)) (length source - start))
        (find_unique_codex_match (content ∷ pattern) source start visits)
unfolding find_unique_codex_match
find_unique_codex_match-Answers content pattern source start visits offset e =
    let counted =
      ap (λ s. length (candidates_from s (positions_of content.text 0 source)))
        (sym (zero-plus start))
      ∙ candidates_from-length content.text start 0 source in
    rw e (
      subst
        (λ n.
          Answers (content ∷ pattern) source start (visits + line_visits n (length source - start))
            (find_among (content ∷ pattern) source start visits offset
              (candidates_from start (positions_of content.text 0 source))))
        counted
        (find_among-Answers content pattern source start visits offset _
          (no_newline_offset-Only 0 (content ∷ pattern) e) refl))
