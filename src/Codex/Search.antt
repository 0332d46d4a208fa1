-- ===== src/Codex/Search.antt =====
-- The search for a hunk's old lines: `find_unique_codex_match` and the functions it calls. Indexes into
-- the pattern and its prefix table are in range wherever the code reads (`Search/Prefix`), so that the
-- default of `text_at` and `entry_at` is never the answer.
pub mod Prefix
pub mod Table
pub mod Matches
pub mod Offset
pub mod Scans
pub mod Unique
pub mod Visits
pub mod Finds
use minicore_agent.Prelude.{
  ℕ, zero, suc, ◌+◌, ◌-◌, ◌*◌, ◌/◌, ◌%◌, ◌^◌, ◌≤◌, ◌<◌, min, max, ◌≡◌, refl, sym, ap, subst, ◌∙◌,
  fun_ext, ◌≢◌, ◌↔◌, ◌⊎◌, inl, inr, Bool, true, false, not, ◌&&◌, ◌||◌, Option, none, some, List,
  [], ◌∷◌, ◌++◌, map, append-nil, append_assoc, arith, ltb, leb, ◌==◌, ◌==?◌, bool_eq,
  if◌then◌else◌, ltb→lt, lt→ltb, leb→le, ==_iff, ==_refl, Bool-cases, Option-cases, length,
  get_elem?, take, drop, is_empty, first, last, drop_last, all, filter, position, remove_at,
  insert_at, length-append, length-take, length-drop, take-append-drop, last-append_singleton,
  drop_last-append_singleton, last-eq-some, Result, ok, err, ◌>>=◌, ◌>>◌, guard, ok_or, unwrap_or,
  is_some, bind_assoc, >>=-eq-ok, ok_or->>=-eq-ok, guard->>=-eq-ok, reject-eq-ok, ok-injective,
}
use minicore_agent.Prelude.Bytes.{Bytes, bytes_eq}
use minicore_agent.Patch.{
  ToolError, invalid_invocation, internal, LineEnding, no_ending, ending_eq, SourceLine,
  PatchContent, max_patch_bytes, usize_limit, checked_add,
}

-- `MAX_CODEX_MATCH_VISITS`
abbrev pub max_codex_match_visits : ℕ
max_codex_match_visits = max_patch_bytes * 8

-- `visits.checked_add(1)`, then the test of the limit.
unfoldable pub visit : ℕ → Result ToolError ℕ
visit visits = do
  visited ← ok_or (checked_add visits 1) internal
  guard (leb visited max_codex_match_visits) invalid_invocation
  ok visited

abbrev pub text_at : List PatchContent → ℕ → Bytes
text_at [] i = []
text_at (content ∷ contents) zero = content.text
text_at (content ∷ contents) (suc i) = text_at contents i

abbrev pub entry_at : List ℕ → ℕ → ℕ
entry_at [] i = 0
entry_at (n ∷ ns) zero = n
entry_at (n ∷ ns) (suc i) = entry_at ns i

-- The `while` loop that both the search and the table run: `matched` falls back along the table while
-- the pattern's text there is not `text`. On fuel, since every turn lowers `matched`.
unfoldable pub fall_back : ℕ → List PatchContent → List ℕ → Bytes → ℕ → ℕ
fall_back zero pattern prefix text matched = matched
fall_back (suc fuel) pattern prefix text matched =
    let rest = fall_back fuel pattern prefix text (entry_at prefix (matched - 1)) in
    if ltb 0 matched && not (bytes_eq (text_at pattern matched) text) then rest else matched

-- The loop, and the step forward after it.
unfoldable pub advance : List PatchContent → List ℕ → Bytes → ℕ → ℕ
advance pattern prefix text matched =
    let fallen = fall_back matched pattern prefix text matched in
    if bytes_eq (text_at pattern fallen) text then fallen + 1 else fallen

-- The loop of `codex_pattern_prefix`: `prefix` holds the entries up to `index`, those after it are 0.
-- `rest` is the pattern from `index` on.
unfoldable pub prefix_loop : List PatchContent → List ℕ → ℕ → List PatchContent → List ℕ
prefix_loop pattern prefix matched [] = prefix
prefix_loop pattern prefix matched (content ∷ rest) =
    let next = advance pattern prefix content.text matched in
    prefix_loop pattern (prefix ++ next ∷ []) next rest

unfoldable pub codex_pattern_prefix : List PatchContent → List ℕ
codex_pattern_prefix [] = []
codex_pattern_prefix (content ∷ rest) = prefix_loop (content ∷ rest) (0 ∷ []) 0 rest

-- `codex_contents_match_at`, from the source's lines at `start` on.
unfoldable pub contents_match : List PatchContent → List SourceLine → Bool
contents_match [] lines = true
contents_match (content ∷ contents) [] = false
contents_match (content ∷ contents) (line ∷ lines) =
    let rest = contents_match contents lines in
    if not (bytes_eq line.text content.text)
      || (content.old_no_newline && not (ending_eq line.ending no_ending))
    then false
    else rest

unfoldable pub codex_contents_match_at : List PatchContent → List SourceLine → ℕ → Bool
codex_contents_match_at contents source start = contents_match contents (drop start source)

-- The entry of `codex_source_index` for a text: where its lines stand, from `index` on.
unfoldable pub positions_of : Bytes → ℕ → List SourceLine → List ℕ
positions_of text index [] = []
positions_of text index (line ∷ lines) =
    let rest = positions_of text (index + 1) lines in
    if bytes_eq line.text text then index ∷ rest else rest

-- `&positions[first..]`, where `first` is what `binary_search` finds: the positions ascend.
unfoldable pub candidates_from : ℕ → List ℕ → List ℕ
candidates_from start [] = []
candidates_from start (p ∷ ps) =
    let rest = candidates_from start ps in if ltb p start then rest else p ∷ ps

-- The offset of the one content that marks the end of the old file.
unfoldable pub no_newline_offset : ℕ → Option ℕ → List PatchContent → Result ToolError (Option ℕ)
no_newline_offset offset found [] = ok found
no_newline_offset offset found (content ∷ contents) =
    let rest = no_newline_offset (offset + 1) found contents in
    let marked = no_newline_offset (offset + 1) (some offset) contents in
    if content.old_no_newline
    then (if is_some found then err invalid_invocation else marked)
    else rest

-- Whether the source's line at `candidate + offset` has no ending, where an offset is given.
unfoldable pub ends_unterminated : List SourceLine → ℕ → Option ℕ → Bool
ends_unterminated source candidate none = true
ends_unterminated source candidate (some offset) = elim (get_elem? source (candidate + offset)) [
  | none ↦ false
  | some line ↦ ending_eq line.ending no_ending
]

-- What the search loop keeps.
pub record Scan : Type 0 where
  pub matched : ℕ
  pub found : Option ℕ
  pub visits : ℕ

-- What the loop of `find_unique_codex_match` does with `matched` after the line at `index`.
unfoldable pub settle :
    List PatchContent → List SourceLine → List ℕ → Option ℕ → ℕ → Scan → Result ToolError Scan
settle pattern source prefix offset index scan =
    let candidate = index + 1 - length pattern in
    let resumed = record scan { matched = entry_at prefix (scan.matched - 1) } in
    if not (scan.matched == length pattern)
    then ok scan
    else if not (ends_unterminated source candidate offset)
    then ok resumed
    else if is_some scan.found
    then err invalid_invocation
    else ok (record resumed { found = some candidate })

unfoldable pub scan_line :
    List PatchContent
    → List SourceLine
    → List ℕ
    → Option ℕ
    → ℕ
    → Bytes
    → Scan
    → Result ToolError Scan
scan_line pattern source prefix offset index text scan = do
  visits ← visit scan.visits
  settle pattern source prefix offset index (record {
    matched = advance pattern prefix text scan.matched;
    found = scan.found;
    visits = visits;
  })

unfoldable pub scan_lines :
    List PatchContent
    → List SourceLine
    → List ℕ
    → Option ℕ
    → ℕ
    → List SourceLine
    → Scan
    → Result ToolError Scan
scan_lines pattern source prefix offset index [] scan = ok scan
scan_lines pattern source prefix offset index (line ∷ lines) scan =
    scan_line pattern source prefix offset index line.text scan
    >>= scan_lines pattern source prefix offset (index + 1) lines

-- The part after the candidates are found; `()` of a single candidate is tested directly.
unfoldable pub find_among :
    List PatchContent
    → List SourceLine
    → ℕ
    → ℕ
    → Option ℕ
    → List ℕ
    → Result ToolError (Option ℕ × ℕ)
find_among pattern source start visits offset [] = ok (none, visits)
find_among pattern source start visits offset (candidate ∷ []) = do
  visited ← visit visits
  ok (if codex_contents_match_at pattern source candidate then some candidate else none, visited)
find_among pattern source start visits offset (candidate ∷ other ∷ candidates) = do
  scan ←
      scan_lines pattern source (codex_pattern_prefix pattern) offset start (drop start source)
        (record { matched = 0; found = none; visits = visits })
  ok (scan.found, scan.visits)

unfoldable pub find_unique_codex_match :
    List PatchContent → List SourceLine → ℕ → ℕ → Result ToolError (Option ℕ × ℕ)
find_unique_codex_match [] source start visits = ok (none, visits)
find_unique_codex_match (content ∷ pattern) source start visits = do
  offset ← no_newline_offset 0 none (content ∷ pattern)
  find_among (content ∷ pattern) source start visits offset
      (candidates_from start (positions_of content.text 0 source))
