-- ===== src/Unified.antt =====
-- tools/apply_patch/unified.rs: the parser of a unified diff. The parser's state is the list of lines
-- left, so that `peek` is the head of the list and `next` its tail.
pub mod Text
pub mod Paths
pub mod Counts
mod Tests
pub mod Enough
pub mod Terminates
use minicore_agent.Prelude.{
  ℕ, zero, suc, ◌+◌, ◌-◌, ◌*◌, ◌/◌, ◌%◌, ◌^◌, ◌≤◌, ◌<◌, min, max, ◌≡◌, refl, sym, ap, subst, ◌∙◌,
  fun_ext, ◌≢◌, ◌↔◌, ◌⊎◌, inl, inr, Bool, true, false, not, ◌&&◌, ◌||◌, Option, none, some, List,
  [], ◌∷◌, ◌++◌, map, append-nil, append_assoc, arith, ltb, leb, ◌==◌, ◌==?◌, bool_eq,
  if◌then◌else◌, ltb→lt, lt→ltb, leb→le, ==_iff, ==_refl, Bool-cases, Option-cases, length,
  get_elem?, take, drop, is_empty, first, last, drop_last, all, filter, position, remove_at,
  insert_at, length-append, length-take, length-drop, take-append-drop, last-append_singleton,
  drop_last-append_singleton, last-eq-some, Result, ok, err, ◌>>=◌, ◌>>◌, guard, ok_or, unwrap_or,
  is_some, bind_assoc, >>=-eq-ok, ok_or->>=-eq-ok, guard->>=-eq-ok, reject-eq-ok, ok-injective,
}
use minicore_agent.Prelude.Bytes.{Bytes, codes, bytes_eq, strip_prefix}
use minicore_agent.Patch.{
  ToolError, invalid_invocation, internal, PatchLineKind, context, remove, add, PatchContent,
  HunkRange, ResolvedHunk, add_usize, sub_usize, delta, usize_limit,
}
use minicore_agent.Unified.Text.{
  starts_with, split_once, contains, split_inclusive, strip_transport_ending, is_decimal,
  parse_usize,
}
use minicore_agent.Unified.Paths.{parse_header_path, validate_header_path}

abbrev pub Parse : Type 0 → Type 0
Parse A = Result ToolError A

-- `NO_NEWLINE_AT_END`
abbrev pub no_newline_at_end : Bytes
no_newline_at_end = codes "\\ No newline at end of file"

-- `PatchLines::next().ok_or(InvalidInvocation)`
abbrev pub next : List Bytes → Parse (Bytes × List Bytes)
next [] = err invalid_invocation
next (line ∷ lines) = ok (line, lines)

-- `PatchLines::finish`
unfoldable pub finish : List Bytes → Parse (Unit {0})
finish [] = ok tt
finish (line ∷ lines) =
    guard (is_empty (strip_transport_ending line)) invalid_invocation >> finish lines

content_of : PatchLineKind → Bytes → PatchContent
content_of kind text = record {
  kind = kind;
  text = text;
  old_no_newline = false;
  new_no_newline = false;
  context_new_ending = none;
}

unfoldable pub parse_patch_content : Bytes → Parse PatchContent
unfolding content_of
parse_patch_content [] = ok (content_of context [])
parse_patch_content (c ∷ text) =
    if c == b' '
    then ok (content_of context text)
    else if c == b'-'
    then ok (content_of remove text)
    else if c == b'+'
    then ok (content_of add text)
    else err invalid_invocation

mark_kind : PatchLineKind → PatchContent → PatchContent
mark_kind context content = record content { old_no_newline = true; new_no_newline = true }
mark_kind remove content = record content { old_no_newline = true }
mark_kind add content = record content { new_no_newline = true }

unfoldable pub mark_no_newline : PatchContent → Parse PatchContent
unfolding mark_kind
mark_no_newline content =
    if content.old_no_newline || content.new_no_newline
    then err invalid_invocation
    else ok (mark_kind content.kind content)

-- `peek().is_some_and(|line| strip_transport_ending(line) == NO_NEWLINE_AT_END)`
abbrev pub peeks_no_newline : List Bytes → Bool
peeks_no_newline [] = false
peeks_no_newline (line ∷ lines) = bytes_eq (strip_transport_ending line) no_newline_at_end

unfoldable pub consume_no_newline : List Bytes → PatchContent → Parse (PatchContent × List Bytes)
consume_no_newline lines content =
    if peeks_no_newline lines
    then (do
      marked ← mark_no_newline content
      guard (not (peeks_no_newline (drop 1 lines))) invalid_invocation
      ok (marked, drop 1 lines))
    else ok (content, lines)

-- The loop of `parse_hunk_contents` with the counts so far; on fuel, since an iteration takes one
-- line or two.
unfoldable pub contents_loop :
    ℕ
    → (expected_old expected_new old_count new_count : ℕ) → List Bytes
    → Parse (List PatchContent × List Bytes)
contents_loop zero expected_old expected_new old_count new_count lines = err internal
contents_loop (suc fuel) expected_old expected_new old_count new_count lines =
    if ltb old_count expected_old || ltb new_count expected_new
    then (do
      taken ← next lines
      let line = strip_transport_ending taken.0
      guard (not (bytes_eq line no_newline_at_end)) invalid_invocation
      content ← parse_patch_content line
      old_next ← add_usize old_count ((delta content.kind).0)
      new_next ← add_usize new_count ((delta content.kind).1)
      guard (leb old_next expected_old && leb new_next expected_new) invalid_invocation
      marked ← consume_no_newline taken.1 content
      rest ← contents_loop fuel expected_old expected_new old_next new_next marked.1
      ok (marked.0 ∷ rest.0, rest.1))
    else ok ([], lines)

unfoldable pub parse_hunk_contents : List Bytes → ℕ → ℕ → Parse (List PatchContent × List Bytes)
parse_hunk_contents lines expected_old expected_new = do
  parsed ← contents_loop (length lines + 1) expected_old expected_new 0 0 lines
  guard (not (is_empty parsed.0)) invalid_invocation
  ok parsed

unfoldable pub parse_hunk_range : Bytes → ℕ → Parse HunkRange
parse_hunk_range range prefix = do
  range' ← ok_or (strip_prefix (prefix ∷ []) range) invalid_invocation
  let parts = unwrap_or (split_once (b',' ∷ []) range') (range', b'1' ∷ [])
  guard (is_decimal parts.0 && is_decimal parts.1) invalid_invocation
  start ← ok_or (parse_usize parts.0) invalid_invocation
  count ← ok_or (parse_usize parts.1) invalid_invocation
  guard (not ((start == 0) && not (count == 0))) invalid_invocation
  index ← (if count == 0 then ok start else sub_usize start 1)
  end ← add_usize index count
  limit ← add_usize start count
  ok (record { index = index; count = count; end = end })

unfoldable pub parse_hunk_header : Bytes → Parse (HunkRange × HunkRange)
parse_hunk_header header = do
  header' ← ok_or (strip_prefix (codes "@@ ") header) invalid_invocation
  parts ← ok_or (split_once (codes " @@") header') invalid_invocation
  let suffix = parts.1
  guard (not (contains 0 suffix || (not (is_empty suffix) && not (starts_with (b' ' ∷ []) suffix))))
      invalid_invocation
  ranges ← ok_or (split_once (b' ' ∷ []) parts.0) invalid_invocation
  guard (not (contains b' ' ranges.0 || contains b' ' ranges.1)) invalid_invocation
  old ← parse_hunk_range ranges.0 b'-'
  new ← parse_hunk_range ranges.1 b'+'
  ok (old, new)

-- One turn of the loop of `parse_unified_patch`: the hunk that `header` starts, after the ends of the
-- hunk before.
unfoldable pub parse_hunk : ℕ → ℕ → Bytes → List Bytes → Parse (ResolvedHunk × List Bytes)
parse_hunk previous_old_end previous_new_end header lines = do
  ranges ← parse_hunk_header (strip_transport_ending header)
  let old = ranges.0
  let new = ranges.1
  guard (leb previous_old_end old.index && leb previous_new_end new.index) invalid_invocation
  parsed ← parse_hunk_contents lines old.count new.count
  ok (record { old = old; new = new; contents = parsed.0 }, parsed.1)

-- What follows a hunk: the header of the next one, with which `more` goes on, blank lines up to the
-- end, or the end.
unfoldable pub after_hunk :
    ResolvedHunk
    → (Bytes → List Bytes → Parse (List ResolvedHunk))
    → List Bytes
    → Parse (List ResolvedHunk)
after_hunk hunk more [] = ok (hunk ∷ [])
after_hunk hunk more (line ∷ rest) =
    if starts_with (codes "@@ ") (strip_transport_ending line)
    then (more line rest >>= λ hunks. ok (hunk ∷ hunks))
    else if is_empty (strip_transport_ending line)
    then (finish rest >> ok (hunk ∷ []))
    else err invalid_invocation

-- The loop of `parse_unified_patch`; on fuel, since a turn takes the lines of a hunk.
unfoldable pub hunks_loop : ℕ → ℕ → ℕ → Bytes → List Bytes → Parse (List ResolvedHunk)
hunks_loop zero previous_old_end previous_new_end header lines = err internal
hunks_loop (suc fuel) previous_old_end previous_new_end header lines =
    parse_hunk previous_old_end previous_new_end header lines >>= λ parsed.
    after_hunk parsed.0 (hunks_loop fuel parsed.0.old.end parsed.0.new.end) parsed.1

-- The lines of git's metadata before the file header, skipped.
skip_git_header : Bytes → List Bytes → Parse (Bytes × List Bytes)
skip_git_header first lines =
    if starts_with (codes "diff --git ") first || starts_with (codes "index ") first
    then (do
      second ← (if starts_with (codes "diff --git ") first then next lines else ok (first, lines))
      third ← (if starts_with (codes "index ") second.0 then next second.1 else ok second)
      guard (starts_with (codes "--- ") third.0) invalid_invocation
      ok third)
    else ok (first, lines)

-- The file header, which must name the tool's path, skipped.
skip_file_header : Bytes → Bytes → List Bytes → Parse (Bytes × List Bytes)
skip_file_header path first lines =
    if starts_with (codes "--- ") (strip_transport_ending first)
    then (do
      original ← parse_header_path first (codes "--- ")
      second ← next lines
      modified ← parse_header_path second.0 (codes "+++ ")
      a ← validate_header_path original path (codes "a/")
      b ← validate_header_path modified path (codes "b/")
      next second.1)
    else ok (first, lines)

unfoldable pub parse_unified_patch : Bytes → Bytes → Parse (List ResolvedHunk)
unfolding skip_git_header skip_file_header
parse_unified_patch path patch = do
  first ← next (split_inclusive patch)
  header ← skip_git_header first.0 first.1
  hunk ← skip_file_header path header.0 header.1
  hunks_loop (length hunk.1 + 1) 0 0 hunk.0 hunk.1
