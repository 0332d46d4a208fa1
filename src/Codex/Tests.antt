-- ===== src/Codex/Tests.antt =====
-- A Codex patch parsed, resolved and applied, and the theorems at it.
use minicore_agent.Prelude.{
  ◌≤◌, ◌≡◌, refl, ◌≢◌, true, false, none, some, List, [], ◌∷◌, ◌++◌, length, ok, err,
}
use minicore_agent.Prelude.Bytes.{Bytes, codes, bytes_eq, strip_prefix}
use minicore_agent.Patch.{
  PatchContent, PatchLineKind, context, remove, add, SourceLine, lf, ResolvedHunk, internal,
  add_usize, sub_usize, append_line, split_source_lines, preferred_line_ending, append_source_line,
  matching_source_line, apply_patch_content, copy_lines, apply_contents, apply_hunk, apply_hunks,
  apply_resolved_hunks, max_patch_bytes,
}
use minicore_agent.Patch.Lines.{render}
use minicore_agent.Patch.Soundness.{Patched}
use minicore_agent.Unified.{finish, parse_patch_content, mark_no_newline, consume_no_newline}
use minicore_agent.Unified.Text.{
  starts_with, split_once, contains, split_inclusive, strip_transport_ending,
}
use minicore_agent.Unified.Paths.{validate_header_path}
use minicore_agent.Unified.Counts.{AreHunks}
use minicore_agent.Codex.{
  CodexHunk, anchor, trim, parse_codex_locator, block_loop, parse_codex_hunk, codex_hunks_loop,
  parse_codex_patch, codex_content_counts,
}
use minicore_agent.Codex.Terminates.{parse_codex_patch-Enough}
use minicore_agent.Codex.Shapes.{AreCodexHunks, parse_codex_patch-AreCodexHunks}
use minicore_agent.Codex.Search.{
  visit, fall_back, advance, prefix_loop, codex_pattern_prefix, contents_match,
  codex_contents_match_at, positions_of, candidates_from, no_newline_offset, ends_unterminated,
  settle, scan_line, scan_lines, find_among, find_unique_codex_match,
}
use minicore_agent.Codex.Search.Prefix.{Table}
use minicore_agent.Codex.Search.Table.{codex_pattern_prefix-Table}
use minicore_agent.Codex.Search.Finds.{Answers, find_unique_codex_match-Answers}
use minicore_agent.Codex.Locate.{
  anchor_loop, find_unique_codex_anchor, match_start, locate_match, locate_codex_hunk,
}
use minicore_agent.Codex.Locate.Anchors.{Anchored, find_unique_codex_anchor-Anchored}
use minicore_agent.Codex.Locate.Places.{Placed, locate_codex_hunk-Placed}
use minicore_agent.Codex.Resolve.{
  mark_codex_source_endings, mark_codex_result_no_newline, make_hunk_range, check_new_index,
  move_to, resolve_contents, locate_hunk, resolve_hunk, resolve_hunks,
  parse_and_resolve_codex_patch,
}
use minicore_agent.Codex.Resolve.Hunks.{parse_and_resolve_codex_patch-Resolves}
use minicore_agent.Codex.Apply.{States, apply_single_file_patch, apply_single_file_patch-Patched}

abbrev line : Bytes → Bytes
line text = text ++ b'\n' ∷ []

abbrev file : Bytes
file = line (codes "a") ++ line (codes "b") ++ line (codes "a") ++ line (codes "c")

abbrev patched_file : Bytes
patched_file = line (codes "a") ++ line (codes "b") ++ line (codes "a") ++ line (codes "d")

abbrev patch : Bytes
patch =
    line (codes "*** Begin Patch")
    ++ line (codes "*** Update File: f")
    ++ line (codes "@@ ")
    ++ line (codes " a")
    ++ line (codes "-c")
    ++ line (codes "+d")
    ++ line (codes "*** End Patch")

abbrev line_of : PatchLineKind → Bytes → PatchContent
line_of kind text = record {
  kind = kind;
  text = text;
  old_no_newline = false;
  new_no_newline = false;
  context_new_ending = none;
}

abbrev ended : Bytes → SourceLine
ended text = record { text = text; ending = lf }

abbrev source : List SourceLine
source = ended (codes "a") ∷ ended (codes "b") ∷ ended (codes "a") ∷ ended (codes "c") ∷ []

abbrev a : PatchContent
a = line_of context (codes "a")

abbrev c : PatchContent
c = line_of remove (codes "c")

abbrev hunks : List CodexHunk
hunks =
    record {
      locator = anchor none;
      contents = a ∷ c ∷ line_of add (codes "d") ∷ [];
      end_of_file = false;
    }
    ∷ []

abbrev resolved : List ResolvedHunk
resolved =
    record {
      old = record { index = 2; count = 2; end = 4 };
      new = record { index = 2; count = 2; end = 4 };
      contents = a ∷ c ∷ line_of add (codes "d") ∷ [];
    }
    ∷ []

patch_parses : parse_codex_patch (codes "f") patch ≡ ok hunks
unfolding parse_codex_patch codex_hunks_loop parse_codex_hunk block_loop parse_codex_locator trim
    finish parse_patch_content mark_no_newline consume_no_newline starts_with split_once contains
    split_inclusive strip_transport_ending validate_header_path strip_prefix bytes_eq
patch_parses = refl

patch_resolves : parse_and_resolve_codex_patch (codes "f") patch source ≡ ok resolved
unfolding parse_and_resolve_codex_patch resolve_hunks resolve_hunk locate_hunk move_to
    check_new_index resolve_contents make_hunk_range mark_codex_result_no_newline
    mark_codex_source_endings locate_codex_hunk locate_match match_start find_unique_codex_match
    find_among scan_lines scan_line settle ends_unterminated no_newline_offset candidates_from
    positions_of codex_contents_match_at contents_match codex_pattern_prefix prefix_loop advance
    fall_back visit codex_content_counts preferred_line_ending add_usize sub_usize bytes_eq
patch_resolves = rw patch_parses refl

file_splits : split_source_lines file ≡ source
unfolding split_source_lines
file_splits = refl

patch_applies : apply_single_file_patch (codes "f") file patch ≡ ok patched_file
unfolding apply_single_file_patch split_inclusive strip_transport_ending bytes_eq
    apply_resolved_hunks apply_hunks apply_hunk apply_contents apply_patch_content
    matching_source_line copy_lines append_source_line append_line preferred_line_ending add_usize
patch_applies = rw (file_splits, patch_resolves) refl

parse_codex_patch-Enough_example : parse_codex_patch (codes "f") patch ≢ err internal
parse_codex_patch-Enough_example = parse_codex_patch-Enough (codes "f") patch

parse_codex_patch-AreCodexHunks_example : AreCodexHunks true hunks
parse_codex_patch-AreCodexHunks_example =
    parse_codex_patch-AreCodexHunks (codes "f") patch patch_parses

codex_pattern_prefix-Table_example : Table (a ∷ c ∷ a ∷ []) (0 ∷ 0 ∷ 1 ∷ []) 3
unfolding codex_pattern_prefix prefix_loop advance fall_back bytes_eq
codex_pattern_prefix-Table_example = codex_pattern_prefix-Table a (c ∷ a ∷ [])

find_unique_codex_match-Answers_example : Answers (a ∷ c ∷ []) source 0 4 (ok (some 2, 4))
unfolding find_unique_codex_match find_among scan_lines scan_line settle ends_unterminated
    no_newline_offset candidates_from positions_of codex_contents_match_at contents_match
    codex_pattern_prefix prefix_loop advance fall_back visit bytes_eq
find_unique_codex_match-Answers_example =
    find_unique_codex_match-Answers a (c ∷ []) source 0 0 none refl

find_unique_codex_anchor-Anchored_example : Anchored (codes "b") source 1 3 (ok (some 1, 3))
unfolding find_unique_codex_anchor anchor_loop visit split_once strip_prefix
find_unique_codex_anchor-Anchored_example = find_unique_codex_anchor-Anchored source 1 (codes "b") 0

locate_codex_hunk-Placed_example : Placed (a ∷ c ∷ []) source 2
unfolding locate_codex_hunk locate_match match_start find_unique_codex_match find_among scan_lines
    scan_line settle ends_unterminated no_newline_offset candidates_from positions_of
    codex_contents_match_at contents_match codex_pattern_prefix prefix_loop advance fall_back visit
    bytes_eq
locate_codex_hunk-Placed_example =
    locate_codex_hunk-Placed (anchor none) (a ∷ c ∷ []) 2 2 false source 0 0 {r = (2, 4)} refl refl

parse_and_resolve_codex_patch-Resolves_example :
    AreHunks 0 0 resolved
    × ((out : List SourceLine) × Patched (preferred_line_ending source) 0 0 resolved source out)
parse_and_resolve_codex_patch-Resolves_example =
    parse_and_resolve_codex_patch-Resolves (codes "f") patch source patch_resolves

apply_single_file_patch-Patched_example :
    (hunks : List ResolvedHunk) × (out : List SourceLine) × States (codes "f") file patch hunks
    × Patched
        (preferred_line_ending (split_source_lines file))
        0
        0
        hunks
        (split_source_lines file)
        out
    × (patched_file ≡ render out)
    × (length patched_file ≤ max_patch_bytes)
apply_single_file_patch-Patched_example =
    apply_single_file_patch-Patched (codes "f") file patch patch_applies
