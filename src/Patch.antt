-- ===== src/Patch.antt =====
-- tools/apply_patch/apply.rs: a file's text as lines, and the application of resolved hunks to it.
pub mod Lines
pub mod Moves
pub mod Replaces
pub mod Soundness
mod Tests
use minicore_agent.Prelude.{
  ℕ, zero, suc, ◌+◌, ◌-◌, ◌*◌, ◌/◌, ◌%◌, ◌^◌, ◌≤◌, ◌<◌, min, max, ◌≡◌, refl, sym, ap, subst, ◌∙◌,
  fun_ext, ◌≢◌, ◌↔◌, ◌⊎◌, inl, inr, Bool, true, false, not, ◌&&◌, ◌||◌, Option, none, some, List,
  [], ◌∷◌, ◌++◌, map, append-nil, append_assoc, arith, ltb, leb, ◌==◌, ◌==?◌, bool_eq,
  if◌then◌else◌, ltb→lt, lt→ltb, leb→le, ==_iff, ==_refl, Bool-cases, Option-cases, length,
  get_elem?, take, drop, is_empty, first, last, drop_last, all, filter, position, remove_at,
  insert_at, length-append, length-take, length-drop, take-append-drop, last-append_singleton,
  drop_last-append_singleton, Result, ok, err, ◌>>=◌, ◌>>◌, guard, ok_or, unwrap_or, is_some,
  bind_assoc, >>=-eq-ok,
}
use minicore_agent.Prelude.Bytes.{Bytes, bytes_eq}

-- `MAX_PATCH_BYTES`
abbrev pub max_patch_bytes : ℕ
max_patch_bytes = 512 * 1024

-- `usize::MAX + 1` on the 64-bit targets.
abbrev pub usize_limit : ℕ
usize_limit = 2 ^ 64

pub data ToolError : Type 0 where
  invalid_invocation failed internal : ToolError

pub data LineEnding : Type 0 where
  no_ending lf crlf : LineEnding

-- `LineEnding::as_str`
abbrev pub as_str : LineEnding → Bytes
as_str no_ending = []
as_str lf = b'\n' ∷ []
as_str crlf = b'\r' ∷ b'\n' ∷ []

abbrev pub ending_eq : LineEnding → LineEnding → Bool
ending_eq no_ending no_ending = true
ending_eq lf lf = true
ending_eq crlf crlf = true
ending_eq _ _ = false

pub record SourceLine : Type 0 where
  pub text : Bytes
  pub ending : LineEnding

pub data PatchLineKind : Type 0 where
  context remove add : PatchLineKind

pub record PatchContent : Type 0 where
  pub kind : PatchLineKind
  pub text : Bytes
  pub old_no_newline : Bool
  pub new_no_newline : Bool
  pub context_new_ending : Option LineEnding

pub record HunkRange : Type 0 where
  pub index : ℕ
  pub count : ℕ
  pub end : ℕ

pub record ResolvedHunk : Type 0 where
  pub old : HunkRange
  pub new : HunkRange
  pub contents : List PatchContent

abbrev pub checked_add : ℕ → ℕ → Option ℕ
checked_add a b = if ltb (a + b) usize_limit then some (a + b) else none

abbrev pub checked_sub : ℕ → ℕ → Option ℕ
checked_sub a b = if ltb a b then none else some (a - b)

-- `add` and `sub` of apply.rs.
unfoldable pub add_usize : ℕ → ℕ → Result ToolError ℕ
add_usize a b = ok_or (checked_add a b) invalid_invocation

unfoldable pub sub_usize : ℕ → ℕ → Result ToolError ℕ
sub_usize a b = ok_or (checked_sub a b) invalid_invocation

-- `PatchLineKind::delta`: the old and the new lines that a patch line counts for.
abbrev pub delta : PatchLineKind → ℕ × ℕ
delta context = (1, 1)
delta remove = (1, 0)
delta add = (0, 1)

pub record ResultBuilder : Type 0 where
  pub value : Bytes
  pub line_count : ℕ
  pub previous_had_no_newline : Bool

abbrev pub builder_new : ResultBuilder
builder_new = record { value = []; line_count = 0; previous_had_no_newline = false }

-- `ResultBuilder::append`
unfoldable pub append_line : ResultBuilder → Bytes → LineEnding → Result ToolError ResultBuilder
unfolding add_usize
append_line b text line_end = if b.previous_had_no_newline then err failed else do
  added ← ok_or (checked_add (length text) (length (as_str line_end))) invalid_invocation
  result_len ← ok_or (checked_add (length b.value) added) invalid_invocation
  guard (leb result_len max_patch_bytes) invalid_invocation
  line_count ← add_usize b.line_count 1
  ok (record {
    value = b.value ++ (text ++ as_str line_end);
    line_count = line_count;
    previous_had_no_newline = ending_eq line_end no_ending;
  })

-- The line that a line feed ends.
ended_line : Bytes → SourceLine
ended_line line =
    if last line ==? b'\r'
    then record { text = drop_last line; ending = crlf }
    else record { text = line; ending = lf }

-- The loop of `split_source_lines`: `line` is the text since `start`.
split_from : Bytes → Bytes → List SourceLine
split_from line [] = if is_empty line then [] else record { text = line; ending = no_ending } ∷ []
split_from line (byte ∷ rest) =
    if byte == b'\n'
    then ended_line line ∷ split_from [] rest
    else split_from (line ++ byte ∷ []) rest

unfoldable pub split_source_lines : Bytes → List SourceLine
unfolding split_from ended_line
split_source_lines source = split_from [] source

-- The counts of `preferred_line_ending`, and the first ending seen.
pub record EndingCount : Type 0 where
  pub lf_count : ℕ
  pub crlf_count : ℕ
  pub first_seen : Option LineEnding

abbrev or_first : Option LineEnding → LineEnding → Option LineEnding
or_first none e = some e
or_first (some f) e = some f

count_ending : EndingCount → LineEnding → EndingCount
count_ending c no_ending = c
count_ending c lf = record c { lf_count = c.lf_count + 1; first_seen = or_first c.first_seen lf }
count_ending c crlf = record c {
  crlf_count = c.crlf_count + 1;
  first_seen = or_first c.first_seen crlf;
}

count_endings : EndingCount → List SourceLine → EndingCount
unfolding count_ending
count_endings c [] = c
count_endings c (line ∷ lines) = count_endings (count_ending c line.ending) lines

unfoldable pub preferred_line_ending : List SourceLine → LineEnding
unfolding count_endings
preferred_line_ending lines =
    let c = count_endings (record { lf_count = 0; crlf_count = 0; first_seen = none }) lines in
    if ltb c.lf_count c.crlf_count
    then crlf
    else if ltb c.crlf_count c.lf_count
    then lf
    else unwrap_or c.first_seen lf

-- The source cursor and the result so far.
pub record Cursor : Type 0 where
  pub at : ℕ
  pub builder : ResultBuilder

unfoldable pub append_source_line : List SourceLine → Cursor → Result ToolError Cursor
append_source_line source c = do
  line ← ok_or (get_elem? source c.at) failed
  builder ← append_line c.builder line.text line.ending
  at ← ok_or (checked_add c.at 1) internal
  ok (record { at = at; builder = builder })

unfoldable pub matching_source_line :
    PatchContent → List SourceLine → ℕ → Result ToolError SourceLine
matching_source_line content source cursor = do
  line ← ok_or (get_elem? source cursor) failed
  guard (bytes_eq line.text content.text) failed
  guard (bool_eq (ending_eq line.ending no_ending) content.old_no_newline) failed
  ok line

unfoldable pub apply_patch_content :
    List SourceLine → LineEnding → PatchContent → Cursor → Result ToolError Cursor
unfolding matching_source_line
apply_patch_content source preferred content c = elim content.kind [
  | context ↦ do
    line ← matching_source_line content source c.at
    builder ← append_line c.builder line.text (unwrap_or content.context_new_ending line.ending)
    at ← ok_or (checked_add c.at 1) internal
    ok (record { at = at; builder = builder })
  | remove ↦ do
    line ← matching_source_line content source c.at
    at ← ok_or (checked_add c.at 1) internal
    ok (record c { at = at })
  | add ↦ do
    builder ←
        append_line c.builder content.text (if content.new_no_newline then no_ending else preferred)
    ok (record c { builder = builder })
]

-- `while source_cursor < target { append_source_line }`, over the lines left to copy.
unfoldable pub copy_lines : ℕ → List SourceLine → Cursor → Result ToolError Cursor
copy_lines zero source c = ok c
copy_lines (suc n) source c = append_source_line source c >>= λ d. copy_lines n source d

unfoldable pub apply_contents :
    List SourceLine → LineEnding → List PatchContent → Cursor → Result ToolError Cursor
apply_contents source preferred [] c = ok c
apply_contents source preferred (content ∷ contents) c =
    apply_patch_content source preferred content c >>= λ d.
    apply_contents source preferred contents d

-- The ends of the hunk before.
pub record Ends : Type 0 where
  pub previous_old_end : ℕ
  pub previous_new_end : ℕ

unfoldable pub apply_hunk :
    List SourceLine → LineEnding → ResolvedHunk → Ends → Cursor → Result ToolError Cursor
apply_hunk source preferred hunk ends c = do
  guard (leb ends.previous_old_end hunk.old.index && leb ends.previous_new_end hunk.new.index)
      invalid_invocation
  d ← copy_lines (hunk.old.index - c.at) source c
  guard ((d.at == hunk.old.index) && (d.builder.line_count == hunk.new.index)) failed
  e ← apply_contents source preferred hunk.contents d
  guard ((e.at == hunk.old.end) && (e.builder.line_count == hunk.new.end)) failed
  ok e

unfoldable pub apply_hunks :
    List SourceLine → LineEnding → List ResolvedHunk → Ends → Cursor → Result ToolError Cursor
apply_hunks source preferred [] ends c = ok c
apply_hunks source preferred (hunk ∷ hunks) ends c =
    apply_hunk source preferred hunk ends c >>= λ d.
    apply_hunks source preferred hunks
      (record { previous_old_end = hunk.old.end; previous_new_end = hunk.new.end }) d

unfoldable pub apply_resolved_hunks : List SourceLine → List ResolvedHunk → Result ToolError Bytes
apply_resolved_hunks source hunks = do
  c ←
      apply_hunks source (preferred_line_ending source) hunks
        (record { previous_old_end = 0; previous_new_end = 0 })
        (record { at = 0; builder = builder_new })
  d ← copy_lines (length source - c.at) source c
  guard (d.at == length source) internal
  ok d.builder.value
