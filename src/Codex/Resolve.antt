-- ===== src/Codex/Resolve.antt =====
-- `parse_and_resolve_codex_patch`: the hunks of a Codex patch with the ranges and marks that
-- `apply_resolved_hunks` expects.
pub mod Marks
pub mod Counts
pub mod Joins
pub mod Moves
pub mod Hunks
use minicore_agent.Prelude.{
  ℕ, zero, suc, ◌+◌, ◌-◌, ◌*◌, ◌/◌, ◌%◌, ◌^◌, ◌≤◌, ◌<◌, min, max, ◌≡◌, refl, sym, ap, subst, ◌∙◌,
  fun_ext, ◌≢◌, ◌↔◌, ◌⊎◌, inl, inr, Bool, true, false, not, ◌&&◌, ◌||◌, Option, none, some, List,
  [], ◌∷◌, ◌++◌, map, append-nil, append_assoc, arith, ltb, leb, ◌==◌, ◌==?◌, bool_eq,
  if◌then◌else◌, ltb→lt, lt→ltb, leb→le, ==_iff, ==_refl, Bool-cases, Option-cases, length,
  get_elem?, take, drop, is_empty, first, last, drop_last, all, filter, position, remove_at,
  insert_at, length-append, length-take, length-drop, take-append-drop, last-append_singleton,
  drop_last-append_singleton, last-eq-some, Result, ok, err, ◌>>=◌, ◌>>◌, guard, ok_or, unwrap_or,
  is_some, bind_assoc, >>=-eq-ok, ok_or->>=-eq-ok, guard->>=-eq-ok, reject-eq-ok, ok-injective,
}
use minicore_agent.Prelude.Bytes.{Bytes}
use minicore_agent.Patch.{
  ToolError, failed, invalid_invocation, LineEnding, no_ending, ending_eq, SourceLine,
  PatchLineKind, context, remove, add, PatchContent, HunkRange, ResolvedHunk, add_usize, sub_usize,
  preferred_line_ending,
}
use minicore_agent.Unified.{Parse}
use minicore_agent.Codex.{
  CodexLocator, range, anchor, CodexHunk, parse_codex_patch, codex_content_counts,
}
use minicore_agent.Codex.Locate.{find_unique_codex_anchor, locate_codex_hunk}

abbrev pub is_add : PatchContent → Bool
is_add content = elim content.kind [ context ↦ false | remove ↦ false | add ↦ true ]

abbrev pub is_remove : PatchContent → Bool
is_remove content = elim content.kind [ context ↦ false | remove ↦ true | add ↦ false ]

abbrev pub is_context : PatchContent → Bool
is_context content = elim content.kind [ context ↦ true | remove ↦ false | add ↦ false ]

-- What `mark_codex_source_endings` does with a line of the source and the content that stands for
-- it, where `rest` are the contents after that one.
abbrev pub mark_ending : LineEnding → SourceLine → PatchContent → List PatchContent → PatchContent
mark_ending preferred line content rest =
    let marked = record content { old_no_newline = true } in
    if not (ending_eq line.ending no_ending)
    then content
    else if is_context content && not content.new_no_newline && not (all is_remove rest)
    then record marked { context_new_ending = some preferred }
    else marked

unfoldable pub mark_codex_source_endings :
    List PatchContent → List SourceLine → LineEnding → Parse (List PatchContent)
mark_codex_source_endings [] lines preferred = ok []
mark_codex_source_endings (content ∷ contents) lines preferred =
    if is_add content
    then (mark_codex_source_endings contents lines preferred >>= λ rest. ok (content ∷ rest))
    else (do
      line ← ok_or (first lines) failed
      rest ← mark_codex_source_endings contents (drop 1 lines) preferred
      ok (mark_ending preferred line content contents ∷ rest))

-- The last of the contents that is not removed.
abbrev pub mark_last : List PatchContent → List PatchContent
mark_last [] = []
mark_last (content ∷ contents) =
    if not (all is_remove contents)
    then content ∷ mark_last contents
    else if is_remove content
    then content ∷ contents
    else record content { new_no_newline = true } ∷ contents

unfoldable pub mark_codex_result_no_newline : List PatchContent → ℕ → List PatchContent
mark_codex_result_no_newline contents new_count =
    if new_count == 0 then contents else mark_last contents

unfoldable pub make_hunk_range : ℕ → ℕ → Parse HunkRange
make_hunk_range index count = do
  end ← add_usize index count
  ok (record { index = index; count = count; end = end })

-- What the loop over the hunks keeps.
pub record Resolution : Type 0 where
  pub source_cursor : ℕ
  pub output_cursor : ℕ
  pub previous_start : Option ℕ
  pub match_visits : ℕ

-- Where a hunk without contents stands: at the line of its anchor.
unfoldable pub locate_header : CodexLocator → List SourceLine → ℕ → ℕ → Parse (ℕ × ℕ)
locate_header (range old new) source cursor visits = err invalid_invocation
locate_header (anchor none) source cursor visits = err invalid_invocation
locate_header (anchor (some text)) source cursor visits = do
  anchored ← find_unique_codex_anchor source cursor text visits
  line ← ok_or anchored.0 failed
  ok (line, anchored.1)

-- A range must say where the hunk stands in the result.
unfoldable pub check_new_index : CodexLocator → ℕ → Resolution → Parse (Unit {0})
check_new_index (anchor a) start state = ok tt
check_new_index (range old new) start state = do
  skipped ← sub_usize start state.source_cursor
  expected_new ← add_usize state.output_cursor skipped
  guard (new.index == expected_new) invalid_invocation

-- The state at the hunk's start.
unfoldable pub move_to : ℕ → ℕ → Resolution → Parse Resolution
move_to start visits state = do
  skipped ← sub_usize start state.source_cursor
  output_cursor ← add_usize state.output_cursor skipped
  ok (record state { source_cursor = start; output_cursor = output_cursor; match_visits = visits })

-- `source.last().is_some_and(|line| line.ending == LineEnding::None)`
abbrev pub is_unterminated : List SourceLine → Bool
is_unterminated source = elim (last source) [
  | none ↦ false
  | some line ↦ ending_eq line.ending no_ending
]

-- The last hunk, where it ends with a source that has no line ending at its end.
abbrev pub mark_result :
    List SourceLine
    → (is_last : Bool) → (old_end new_count : ℕ) → List PatchContent
    → List PatchContent
mark_result source is_last old_end new_count contents =
    if is_last && is_unterminated source && (old_end == length source)
    then mark_codex_result_no_newline contents new_count
    else contents

-- The rest of a turn for a hunk with contents, from `let old_end` on.
unfoldable pub resolve_contents :
    List SourceLine
    → LineEnding
    → (is_last : Bool) → List PatchContent
    → (old_count new_count : ℕ) → Resolution
    → Parse (ResolvedHunk × Resolution)
resolve_contents source preferred is_last contents old_count new_count state = do
  let start = state.source_cursor
  old_end ← add_usize start old_count
  marked ← mark_codex_source_endings contents (drop start source) preferred
  let finished = mark_result source is_last old_end new_count marked
  old ← make_hunk_range start old_count
  new ← make_hunk_range state.output_cursor new_count
  output_cursor ← add_usize state.output_cursor new_count
  ok (
    record { old = old; new = new; contents = finished },
    record state {
      source_cursor = old_end;
      output_cursor = output_cursor;
      previous_start = some start;
    },
  )

-- Where a hunk stands, and the tests of that place.
unfoldable pub locate_hunk :
    List SourceLine → CodexHunk → (old_count new_count : ℕ) → Resolution → Parse Resolution
locate_hunk source hunk old_count new_count state = do
  let header_only = is_empty hunk.contents
  located ←
      (if header_only
        then locate_header hunk.locator source state.source_cursor state.match_visits
        else locate_codex_hunk hunk.locator (filter (λ content. not (is_add content)) hunk.contents)
            old_count new_count hunk.end_of_file source state.source_cursor state.match_visits)
  guard
      (leb state.source_cursor located.0
        && not (not header_only && (state.previous_start ==? located.0)))
      invalid_invocation
  checked ← check_new_index hunk.locator located.0 state
  move_to located.0 located.1 state

-- A turn of the loop: the hunk resolved, if it has contents.
unfoldable pub resolve_hunk :
    List SourceLine
    → LineEnding
    → (is_last : Bool) → CodexHunk
    → Resolution
    → Parse (Option ResolvedHunk × Resolution)
resolve_hunk source preferred is_last hunk state = do
  guard (not (hunk.end_of_file && not is_last)) invalid_invocation
  counts ← codex_content_counts 0 0 hunk.contents
  moved ← locate_hunk source hunk counts.0 counts.1 state
  (if is_empty hunk.contents then ok (none, moved) else (do
    resolved ← resolve_contents source preferred is_last hunk.contents counts.0 counts.1 moved
    ok (some resolved.0, resolved.1)))

abbrev pub push : Option ResolvedHunk → List ResolvedHunk → List ResolvedHunk
push none hunks = hunks
push (some hunk) hunks = hunk ∷ hunks

unfoldable pub resolve_hunks :
    List SourceLine → LineEnding → List CodexHunk → Resolution → Parse (List ResolvedHunk)
resolve_hunks source preferred [] state = ok []
resolve_hunks source preferred (hunk ∷ hunks) state = do
  resolved ← resolve_hunk source preferred (is_empty hunks) hunk state
  rest ← resolve_hunks source preferred hunks resolved.1
  ok (push resolved.0 rest)

unfoldable pub parse_and_resolve_codex_patch :
    Bytes → Bytes → List SourceLine → Parse (List ResolvedHunk)
parse_and_resolve_codex_patch path patch source = do
  hunks ← parse_codex_patch path patch
  resolve_hunks source (preferred_line_ending source) hunks
      (record { source_cursor = 0; output_cursor = 0; previous_start = none; match_visits = 0 })
