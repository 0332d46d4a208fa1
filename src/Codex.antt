-- ===== src/Codex.antt =====
-- tools/apply_patch/codex.rs: the parser of a Codex patch, and the places its hunks get in the source.
-- As for unified diffs, the parser's state is the list of lines left.
pub mod Search
pub mod Locate
pub mod Resolve
pub mod Apply
pub mod Terminates
pub mod Shapes
mod Tests
use minicore_agent.Prelude.{
  ℕ, zero, suc, ◌+◌, ◌-◌, ◌*◌, ◌/◌, ◌%◌, ◌^◌, ◌≤◌, ◌<◌, min, max, ◌≡◌, refl, sym, ap, subst, ◌∙◌,
  fun_ext, ◌≢◌, ◌↔◌, ◌⊎◌, inl, inr, Bool, true, false, not, ◌&&◌, ◌||◌, Option, none, some, List,
  [], ◌∷◌, ◌++◌, map, append-nil, append_assoc, arith, ltb, leb, ◌==◌, ◌==?◌, bool_eq,
  if◌then◌else◌, ltb→lt, lt→ltb, leb→le, ==_iff, ==_refl, Bool-cases, Option-cases, length,
  get_elem?, take, drop, is_empty, first, last, drop_last, all, filter, position, remove_at,
  insert_at, length-append, length-take, length-drop, take-append-drop, last-append_singleton,
  drop_last-append_singleton, last-eq-some, Result, ok, err, ◌>>=◌, ◌>>◌, guard, ok_or, unwrap_or,
  is_some, bind_assoc, >>=-eq-ok, ok_or->>=-eq-ok, guard->>=-eq-ok, reject-eq-ok, ok-injective,
}
use minicore_agent.Prelude.Bytes.{Bytes, codes, bytes_eq, strip_prefix}
use minicore_agent.Patch.{
  ToolError, invalid_invocation, internal, PatchContent, HunkRange, add_usize, delta,
}
use minicore_agent.Unified.{
  Parse, next, finish, no_newline_at_end, parse_patch_content, consume_no_newline,
  parse_hunk_header,
}
use minicore_agent.Unified.Text.{starts_with, contains, split_inclusive, strip_transport_ending}
use minicore_agent.Unified.Paths.{validate_header_path}

abbrev pub codex_begin_patch : Bytes
codex_begin_patch = codes "*** Begin Patch"

abbrev pub codex_end_patch : Bytes
codex_end_patch = codes "*** End Patch"

abbrev pub codex_update_file : Bytes
codex_update_file = codes "*** Update File: "

abbrev pub codex_end_of_file : Bytes
codex_end_of_file = codes "*** End of File"

pub data CodexLocator : Type 0 where
  range : (old new : HunkRange) → CodexLocator
  anchor : Option Bytes → CodexLocator

pub record CodexHunk : Type 0 where
  pub locator : CodexLocator
  pub contents : List PatchContent
  pub end_of_file : Bool

-- The bytes of the white space (`char::is_whitespace`) that a text starts with, 0 if it does not.
abbrev pub space_length : Bytes → ℕ
space_length [] = 0
space_length (a ∷ []) = if a == 32 || (leb 9 a && leb a 13) then 1 else 0
space_length (a ∷ b ∷ []) =
    if a == 32 || (leb 9 a && leb a 13)
    then 1
    else if (a == 194) && (b == 133 || b == 160)
    then 2
    else 0
space_length (a ∷ b ∷ c ∷ s) =
    if a == 32 || (leb 9 a && leb a 13)
    then 1
    else if (a == 194) && (b == 133 || b == 160)
    then 2
    else if (a == 225) && (b == 154) && (c == 128)
    then 3
    else if (a == 226)
        && (b == 128)
        && ((leb 128 c && leb c 138) || c == 168 || c == 169 || c == 175)
    then 3
    else if (a == 226) && (b == 129) && (c == 159)
    then 3
    else if (a == 227) && (b == 128) && (c == 128)
    then 3
    else 0

-- The text without `skipped` bytes, and without the white space after them.
abbrev pub trim_from : (skipped : ℕ) → Bytes → Bytes
trim_from skipped [] = []
trim_from (suc skipped) (c ∷ s) = trim_from skipped s
trim_from zero (c ∷ s) =
    let rest = trim_from (space_length (c ∷ s) - 1) s in
    if space_length (c ∷ s) == 0 then c ∷ s else rest

-- No white space starts within a character of UTF-8, so that every byte may be tried.
abbrev pub trim_end : Bytes → Bytes
trim_end [] = []
trim_end (c ∷ s) = let rest = trim_end s in if is_empty (trim_from 0 (c ∷ s)) then [] else c ∷ rest

-- `str::trim`
unfoldable pub trim : Bytes → Bytes
trim s = trim_end (trim_from 0 s)

unfoldable pub parse_codex_locator : Bytes → Parse CodexLocator
parse_codex_locator line = do
  rest ← ok_or (strip_prefix (codes "@@") line) invalid_invocation
  let header = trim rest
  (if is_empty header
      then ok (anchor none)
      else if starts_with (b'-' ∷ []) header
      then (do ranges ← parse_hunk_header line; ok (range ranges.0 ranges.1))
      else if contains 0 header
      then err invalid_invocation
      else ok (anchor (some header)))

-- What the inner loop of `parse_codex_patch` reads: the contents, `end_of_file`, and the lines left.
pub record Block : Type 0 where
  pub contents : List PatchContent
  pub end_of_file : Bool
  pub lines : List Bytes

-- Whether a line ends the contents of a hunk without being one of its lines.
abbrev pub ends_contents : Bytes → Bool
ends_contents line = bytes_eq line codex_end_patch || starts_with (codes "@@") line

abbrev pub is_refused : Bytes → Bool
is_refused line = starts_with (codes "***") line || bytes_eq line no_newline_at_end

-- The inner loop; on fuel, since an iteration takes one line or two.
unfoldable pub block_loop : ℕ → List Bytes → Parse Block
block_loop zero lines = err internal
block_loop (suc fuel) [] = err invalid_invocation
block_loop (suc fuel) (raw ∷ lines) =
    let line = strip_transport_ending raw in
    if ends_contents line
    then ok (record { contents = []; end_of_file = false; lines = raw ∷ lines })
    else if bytes_eq line codex_end_of_file
    then ok (record { contents = []; end_of_file = true; lines = lines })
    else if is_refused line
    then err invalid_invocation
    else (do
      content ← parse_patch_content line
      marked ← consume_no_newline lines content
      rest ← block_loop fuel marked.1
      ok (record rest { contents = marked.0 ∷ rest.contents }))

-- `matches!(locator, CodexLocator::Anchor(Some(_)))`
abbrev pub is_anchored : CodexLocator → Bool
is_anchored (range old new) = false
is_anchored (anchor a) = is_some a

-- One turn of the outer loop, after its line.
unfoldable pub parse_codex_hunk : Bytes → List Bytes → Parse (CodexHunk × List Bytes)
parse_codex_hunk line lines = do
  guard (starts_with (codes "@@") line) invalid_invocation
  locator ← parse_codex_locator line
  block ← block_loop (length lines + 1) lines
  guard (not (is_empty block.contents && (block.end_of_file || not (is_anchored locator))))
      invalid_invocation
  ok (
    record { locator = locator; contents = block.contents; end_of_file = block.end_of_file },
    block.lines,
  )

-- The outer loop; `empty` says that no hunk was read or the last has no contents. On fuel, since a
-- turn takes the lines of a hunk.
unfoldable pub codex_hunks_loop : ℕ → (empty : Bool) → List Bytes → Parse (List CodexHunk)
codex_hunks_loop zero empty lines = err internal
codex_hunks_loop (suc fuel) empty [] = err invalid_invocation
codex_hunks_loop (suc fuel) empty (raw ∷ lines) =
    let line = strip_transport_ending raw in
    if bytes_eq line codex_end_patch
    then (if empty then err invalid_invocation else (finish lines >> ok []))
    else (do
      parsed ← parse_codex_hunk line lines
      hunks ← codex_hunks_loop fuel (is_empty parsed.0.contents) parsed.1
      ok (parsed.0 ∷ hunks))

unfoldable pub parse_codex_patch : Bytes → Bytes → Parse (List CodexHunk)
parse_codex_patch path patch = do
  begin ← next (split_inclusive patch)
  guard (bytes_eq (strip_transport_ending begin.0) codex_begin_patch) invalid_invocation
  update ← next begin.1
  header_path ←
      ok_or (strip_prefix codex_update_file (strip_transport_ending update.0)) invalid_invocation
  valid ← validate_header_path header_path path []
  codex_hunks_loop (length update.1 + 1) true update.1

unfoldable pub codex_content_counts : ℕ → ℕ → List PatchContent → Parse (ℕ × ℕ)
codex_content_counts old_count new_count [] = ok (old_count, new_count)
codex_content_counts old_count new_count (content ∷ contents) = do
  old ← add_usize old_count ((delta content.kind).0)
  new ← add_usize new_count ((delta content.kind).1)
  codex_content_counts old new contents
