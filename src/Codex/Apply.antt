-- ===== src/Codex/Apply.antt =====
-- `apply_single_file_patch`: a patch of either format applied to a file's text.
use minicore_agent.Prelude.{
  ◌≤◌, ◌≡◌, ◌≢◌, sym, ap, ◌∙◌, ◌⊎◌, inl, inr, Bool-cases, true, false, List, if◌then◌else◌, length,
  ok, ◌>>=◌, >>=-eq-ok,
}
use minicore_agent.Prelude.Bytes.{Bytes, bytes_eq, bytes_eq→eq, bytes_eq_refl}
use minicore_agent.Patch.{
  SourceLine, ResolvedHunk, max_patch_bytes, split_source_lines, preferred_line_ending,
  apply_resolved_hunks,
}
use minicore_agent.Patch.Lines.{render}
use minicore_agent.Patch.Soundness.{Patched, apply_resolved_hunks-Patched}
use minicore_agent.Unified.Counts.{AreHunks, parse_unified_patch-AreHunks}
use minicore_agent.Codex.Resolve.Hunks.{parse_and_resolve_codex_patch-Resolves}
use minicore_agent.Unified.{Parse, next, parse_unified_patch}
use minicore_agent.Unified.Text.{split_inclusive, strip_transport_ending}
use minicore_agent.Codex.{codex_begin_patch}
use minicore_agent.Codex.Resolve.{parse_and_resolve_codex_patch}

unfoldable pub apply_single_file_patch : Bytes → Bytes → Bytes → Parse Bytes
apply_single_file_patch path source patch = do
  begin ← next (split_inclusive patch)
  let source_lines = split_source_lines source
  hunks ←
      (if bytes_eq (strip_transport_ending begin.0) codex_begin_patch
        then parse_and_resolve_codex_patch path patch source_lines
        else parse_unified_patch path patch)
  apply_resolved_hunks source_lines hunks

false≢true : false ≢ true
false≢true e = cc

-- The hunks that a patch states of a file: those of its Codex form where its first line begins one, and
-- otherwise those of its unified form. They are ordered and within the counts of their ranges.
pub record States (path source patch : Bytes) (hunks : List ResolvedHunk) : Type 0 where
  pub begin : Bytes × List Bytes
  pub begins : next (split_inclusive patch) ≡ ok begin
  pub reads :
      ((strip_transport_ending begin.0 ≡ codex_begin_patch)
        × (parse_and_resolve_codex_patch path patch (split_source_lines source) ≡ ok hunks))
      ⊎ ((strip_transport_ending begin.0 ≢ codex_begin_patch)
          × (parse_unified_patch path patch ≡ ok hunks))
  pub ordered : AreHunks 0 0 hunks

differs : (a b : Bytes) → bytes_eq a b ≡ false → a ≢ b
differs a b h e = absurd (false≢true (sym h ∙ ap (λ x. bytes_eq x b) e ∙ bytes_eq_refl b))

read-States :
    (path source patch : Bytes) (begin : Bytes × List Bytes) {hunks : List ResolvedHunk}
    → next (split_inclusive patch) ≡ ok begin
    → (if bytes_eq (strip_transport_ending begin.0) codex_begin_patch
        then parse_and_resolve_codex_patch path patch (split_source_lines source)
        else parse_unified_patch path patch)
      ≡ ok hunks
    → States path source patch hunks
read-States path source patch begin b h =
    elim (Bool-cases (bytes_eq (strip_transport_ending begin.0) codex_begin_patch)) [
      | inl codex ↦
          let read = rw codex at h in
          record {
            begin = begin;
            begins = b;
            reads = inl (bytes_eq→eq _ _ codex, read);
            ordered =
                (parse_and_resolve_codex_patch-Resolves path patch (split_source_lines source)
                  read).0;
          }
      | inr unified ↦
          let read = rw unified at h in
          record {
            begin = begin;
            begins = b;
            reads = inr (differs _ _ unified, read);
            ordered = parse_unified_patch-AreHunks path patch read;
          }
    ]

-- A patch that is applied gives the text that the hunks it states make of the file, in either format,
-- and no more than the limit of it: every line outside the hunks is kept, and every line that a hunk
-- keeps or removes is the file's.
pub apply_single_file_patch-Patched :
    (path source patch : Bytes) {v : Bytes}
    → apply_single_file_patch path source patch ≡ ok v
    → (hunks : List ResolvedHunk) × (out : List SourceLine) × States path source patch hunks
      × Patched
          (preferred_line_ending (split_source_lines source))
          0
          0
          hunks
          (split_source_lines source)
          out
      × (v ≡ render out)
      × (length v ≤ max_patch_bytes)
unfolding apply_single_file_patch
apply_single_file_patch-Patched path source patch h =
    let (begin, b, h1) = >>=-eq-ok (next (split_inclusive patch)) _ h in
    let (hunks, p, h2) =
      >>=-eq-ok
        (if bytes_eq (strip_transport_ending begin.0) codex_begin_patch
          then parse_and_resolve_codex_patch path patch (split_source_lines source)
          else parse_unified_patch path patch)
        _ h1 in
    let (out, patched, shown, fits, follows) =
      apply_resolved_hunks-Patched (split_source_lines source) hunks _ h2 in
    (hunks, out, read-States path source patch begin b p, patched, shown, fits)
