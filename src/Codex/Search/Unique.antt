-- ===== src/Codex/Search/Unique.antt =====
-- `find_unique_codex_match` returns the only place where the pattern stands.
use minicore_agent.Prelude.{
  ℕ, zero, suc, ◌+◌, ◌-◌, ◌≤◌, ◌<◌, ◌≡◌, refl, sym, ap, subst, ◌∙◌, ◌⊎◌, inl, inr, Option, none,
  List, [], ◌∷◌, arith, ltb, leb, Bool-cases, length, drop, length-drop, Result, ok, err, ◌>>=◌,
}
use minicore_agent.Prelude.Bytes.{Bytes}
use minicore_agent.Patch.{
  ToolError, invalid_invocation, internal, SourceLine, PatchContent, usize_limit,
}
use minicore_agent.Codex.Search.{
  max_codex_match_visits, visit, advance, Scan, scan_line, scan_lines,
}
use minicore_agent.Codex.Search.Prefix.{Table, Advanced, Ends-zero, advance-Advanced}
use minicore_agent.Codex.Search.Matches.{line_text, line_text-drop}
use minicore_agent.Codex.Search.Scans.{Found, Two, Stands, Kept, Settled, settle-Settled}

pub visit-cases :
    (visits : ℕ)
    → (visit visits ≡ ok (visits + 1))
      ⊎ ((e : ToolError) × (visit visits ≡ err e) × (max_codex_match_visits < visits + 1))
unfolding visit
visit-cases visits = elim (Bool-cases (leb (visits + 1) max_codex_match_visits)) [
  | inl fits ↦ inl (ground (arith, fits))
  | inr over ↦ inr (elim (Bool-cases (ltb (visits + 1) usize_limit)) [
    | inl small ↦ (invalid_invocation, ground (arith, over, small), ground (arith, over))
    | inr large ↦ (internal, ground (arith, large), ground (arith, over))
  ])
]

at-end : (i n : ℕ) → i + 0 ≡ n → i ≡ n
at-end i n h = omega (arith, h)

plus-zero : (i : ℕ) → i ≡ i + 0
plus-zero i = omega arith

shift : (i k : ℕ) → i + 1 + k ≡ i + suc k
shift i k = omega arith

module _ (pattern : List PatchContent) (source : List SourceLine) (offset : Option ℕ)
    (start : ℕ) where
  abbrev pub Finished : ℕ → Result ToolError Scan → Type 0
  Finished total (ok scan) =
      Found (Stands pattern source offset start) (length pattern) start (length source) scan.found
      × (scan.visits ≡ total)
  Finished total (err e) =
      (max_codex_match_visits < total)
      ⊎ Two (Stands pattern source offset start) (length pattern) start (length source)

  module _ (prefix : List ℕ) (table : Table pattern prefix (length pattern))
      (some_lines : 0 < length pattern) where
    scan_line-Settled :
        (i : ℕ) (text : Bytes) (scan : Scan)
        → i + 1 ≤ length source
        → line_text source i ≡ text
        → Kept pattern source offset start i scan
        → visit scan.visits ≡ ok (scan.visits + 1)
        → Settled pattern source offset start
            (i + 1)
            (length source)
            (scan.visits + 1)
            (scan_line pattern source prefix offset i text scan)
    unfolding scan_line Table
    scan_line-Settled i text scan l here kept visited = rw visited (
        settle-Settled pattern source offset start prefix table some_lines i (length source)
          (advance pattern prefix text scan.matched) (scan.visits + 1) scan.found l
          (subst
            (λ x.
              Advanced pattern (line_text source) start i (advance pattern prefix x scan.matched))
            here
            (advance-Advanced pattern (line_text source) start i prefix scan.matched kept.short
              (λ m p q. table m p (omega (arith, q, kept.short))) kept.longest))
          kept.found)

    refused-Finished :
        (i : ℕ) (line : SourceLine) (lines : List SourceLine) (scan : Scan) (e : ToolError)
        → visit scan.visits ≡ err e
        → max_codex_match_visits < scan.visits + suc (length lines)
        → Finished (scan.visits + suc (length lines)) (
            scan_line pattern source prefix offset i line.text scan
            >>= scan_lines pattern source prefix offset (i + 1) lines)
    unfolding scan_line
    refused-Finished i line lines scan e refused over = rw refused (inl over)

    then-Finished :
        (i visits : ℕ) (lines : List SourceLine) (r : Result ToolError Scan)
        → Settled pattern source offset start i (length source) (visits + 1) r
        → ((scan : Scan)
            → Kept pattern source offset start i scan
            → Finished
                (scan.visits + length lines)
                (scan_lines pattern source prefix offset i lines scan))
        → Finished
            (visits + suc (length lines))
            (r >>= scan_lines pattern source prefix offset i lines)
    then-Finished i visits lines (ok scan) (kept, v) h =
        let total : scan.visits + length lines ≡ visits + suc (length lines) = omega (arith, v) in
        subst (λ n. Finished n (scan_lines pattern source prefix offset i lines scan)) total
          (h scan kept)
    then-Finished i visits lines (err e) two h = inr two

    scan_lines-Finished :
        (i : ℕ) (lines : List SourceLine) (scan : Scan)
        → i + length lines ≡ length source
        → ((k : ℕ) → k < length lines → line_text source (i + k) ≡ line_text lines k)
        → Kept pattern source offset start i scan
        → Finished
            (scan.visits + length lines)
            (scan_lines pattern source prefix offset i lines scan)
    unfolding scan_lines
    scan_lines-Finished i [] scan l same kept = (
      subst (λ n. Found (Stands pattern source offset start) (length pattern) start n scan.found)
          (at-end i _ l) kept.found,
      omega arith,
    )
    scan_lines-Finished i (line ∷ lines) scan l same kept = elim (visit-cases scan.visits) [
      | inl visited ↦
          then-Finished (i + 1) scan.visits lines _
            (scan_line-Settled i line.text scan (omega (arith, l))
              (ap (line_text source) (plus-zero i) ∙ same 0 (omega arith)) kept visited)
            (λ next k.
              scan_lines-Finished (i + 1) lines next (omega (arith, l))
                (λ k' lt. ap (line_text source) (shift i k') ∙ same (suc k') (omega (arith, lt))) k)
      | inr (e, refused, over) ↦ refused-Finished i line lines scan e refused (omega (arith, over))
    ]

    first-Kept :
        (visits : ℕ)
        → Kept pattern source offset start start
            (record { matched = 0; found = none; visits = visits })
    unfolding Found
    first-Kept visits = record {
      longest = record {
        ends = Ends-zero pattern (line_text source) start start (omega arith);
        longest = λ m l e. omega (arith, e.room);
      };
      short = some_lines;
      found = λ j s l. absurd (omega (arith, s, l, some_lines));
    }

    beyond-Found :
        length source < start
        → Found (Stands pattern source offset start) (length pattern) start (length source) none
    unfolding Found
    beyond-Found l = λ j s k. absurd (omega (arith, s, l, k))

    drop-beyond : (n : ℕ) (lines : List SourceLine) → length lines ≤ n → drop n lines ≡ []
    drop-beyond zero [] l = refl
    drop-beyond zero (line ∷ lines) l = absurd (omega (arith, l))
    drop-beyond (suc n) [] l = refl
    drop-beyond (suc n) (line ∷ lines) l = drop-beyond n lines (omega (arith, l))

    sides : (a b : ℕ) → (a ≤ b) ⊎ (b < a)
    sides a b = omega arith

    pub scan-Finished :
        (visits : ℕ)
        → Finished (visits + (length source - start)) (
            scan_lines pattern source prefix offset start
              (drop start source)
              (record { matched = 0; found = none; visits = visits }))
    unfolding scan_lines
    scan-Finished visits = elim (sides start (length source)) [
      | inl l ↦
          subst
            (λ n. Finished (visits + n) (
              scan_lines pattern source prefix offset start (drop start source)
                (record { matched = 0; found = none; visits = visits })))
            (length-drop start source)
            (scan_lines-Finished start (drop start source)
              (record { matched = 0; found = none; visits = visits })
              (omega (arith, l, length-drop start source))
              (λ k lt. sym (line_text-drop start k source)) (first-Kept visits))
      | inr l ↦ rw (drop-beyond start source (omega (arith, l))) (beyond-Found l, omega (arith, l))
    ]
