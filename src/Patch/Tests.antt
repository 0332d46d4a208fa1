-- ===== src/Patch/Tests.antt =====
-- A patch applied, and the theorems at concrete texts.
use minicore_agent.Prelude.{
  ◌≤◌, ◌≡◌, refl, ap, ◌≢◌, inr, Bool, false, none, some, List, [], ◌∷◌, arith, length, last, ok,
  unwrap_or,
}
use minicore_agent.Prelude.Bytes.{Bytes, codes, bytes_eq}
use minicore_agent.Patch.{
  lf, crlf, no_ending, SourceLine, PatchContent, PatchLineKind, context, remove, add, ResolvedHunk,
  max_patch_bytes, split_source_lines, preferred_line_ending, apply_resolved_hunks, apply_hunks,
  apply_hunk, apply_contents, apply_patch_content, copy_lines, append_line, append_source_line,
  matching_source_line, add_usize,
}
use minicore_agent.Patch.Lines.{
  render, AreLines, render-split_source_lines, split_source_lines-render,
  split_source_lines-AreLines,
}
use minicore_agent.Patch.Moves.{Follows}
use minicore_agent.Patch.Soundness.{Patched, apply_resolved_hunks-Patched}

abbrev text : Bytes
text = b'a' ∷ b'\r' ∷ b'\n' ∷ b'b' ∷ b'\n' ∷ b'c' ∷ []

render-split_source_lines_example : render (split_source_lines text) ≡ text
render-split_source_lines_example = render-split_source_lines text

abbrev lines : List SourceLine
lines =
    record { text = codes "a"; ending = crlf }
    ∷ record { text = codes "b"; ending = lf }
    ∷ record { text = codes "c"; ending = no_ending }
    ∷ []

last-ends : last (codes "b") ≢ some b'\r'
last-ends e = omega (arith, ap (λ o. unwrap_or o 0) e)

lines-AreLines : AreLines lines
lines-AreLines = (
  (((λ e. omega (arith, e)), tt), (λ e. cc), (λ e f. cc)),
  (
    (((λ e. omega (arith, e)), tt), (λ e. cc), (λ e f. last-ends f)),
    inr (((λ e. omega (arith, e)), tt), refl, refl),
  ),
)

split_source_lines-render_example : split_source_lines (render lines) ≡ lines
split_source_lines-render_example = split_source_lines-render lines lines-AreLines

split_source_lines-AreLines_example : AreLines (split_source_lines text)
split_source_lines-AreLines_example = split_source_lines-AreLines text

abbrev line_of : PatchLineKind → Bytes → PatchContent
line_of kind text = record {
  kind = kind;
  text = text;
  old_no_newline = false;
  new_no_newline = false;
  context_new_ending = none;
}

-- `b` becomes `x` and `y`.
abbrev hunk : ResolvedHunk
hunk = record {
  old = record { index = 0; count = 2; end = 2 };
  new = record { index = 0; count = 3; end = 3 };
  contents =
      line_of context (codes "a")
      ∷ line_of remove (codes "b")
      ∷ line_of add (codes "x")
      ∷ line_of add (codes "y")
      ∷ [];
}

abbrev patched : Bytes
patched = b'a' ∷ b'\r' ∷ b'\n' ∷ b'x' ∷ b'\r' ∷ b'\n' ∷ b'y' ∷ b'\r' ∷ b'\n' ∷ b'c' ∷ []

patch_applies : apply_resolved_hunks lines (hunk ∷ []) ≡ ok patched
unfolding apply_resolved_hunks apply_hunks apply_hunk apply_contents apply_patch_content copy_lines
    append_line append_source_line matching_source_line add_usize preferred_line_ending bytes_eq
patch_applies = refl

apply_resolved_hunks-Patched_example :
    (out : List SourceLine) × Patched (preferred_line_ending lines) 0 0 (hunk ∷ []) lines out
    × (patched ≡ render out)
    × (length patched ≤ max_patch_bytes)
    × ((q : Bool) × Follows false out q)
apply_resolved_hunks-Patched_example =
    apply_resolved_hunks-Patched lines (hunk ∷ []) patched patch_applies
