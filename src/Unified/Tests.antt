-- ===== src/Unified/Tests.antt =====
-- A unified diff parsed, and the theorems at it.
use minicore_agent.Prelude.{◌≡◌, refl, ◌≢◌, false, none, List, [], ◌∷◌, ◌++◌, ok, err}
use minicore_agent.Prelude.Bytes.{Bytes, codes, bytes_eq, strip_prefix}
use minicore_agent.Patch.{
  ResolvedHunk, PatchContent, PatchLineKind, remove, add, internal, add_usize, sub_usize,
}
use minicore_agent.Unified.{
  parse_patch_content, mark_no_newline, consume_no_newline, contents_loop, parse_hunk_contents,
  parse_hunk_range, parse_hunk_header, parse_hunk, after_hunk, hunks_loop, parse_unified_patch,
}
use minicore_agent.Unified.Text.{
  starts_with, split_once, contains, split_inclusive, strip_transport_ending, is_decimal,
  parse_usize,
}
use minicore_agent.Unified.Counts.{AreHunks, parse_unified_patch-AreHunks}
use minicore_agent.Unified.Terminates.{parse_unified_patch-Enough}

abbrev line : Bytes → Bytes
line text = text ++ b'\n' ∷ []

abbrev diff : Bytes
diff = line (codes "@@ -5 +4 @@") ++ line (codes "-c") ++ line (codes "+d")

abbrev line_of : PatchLineKind → Bytes → PatchContent
line_of kind text = record {
  kind = kind;
  text = text;
  old_no_newline = false;
  new_no_newline = false;
  context_new_ending = none;
}

abbrev hunks : List ResolvedHunk
hunks =
    record {
      old = record { index = 4; count = 1; end = 5 };
      new = record { index = 3; count = 1; end = 4 };
      contents = line_of remove (codes "c") ∷ line_of add (codes "d") ∷ [];
    }
    ∷ []

diff_parses : parse_unified_patch (codes "f") diff ≡ ok hunks
unfolding parse_unified_patch hunks_loop after_hunk parse_hunk parse_hunk_header parse_hunk_range
    parse_hunk_contents contents_loop consume_no_newline mark_no_newline parse_patch_content
    starts_with split_once contains split_inclusive strip_transport_ending is_decimal parse_usize
    strip_prefix bytes_eq add_usize sub_usize
diff_parses = refl

parse_unified_patch-AreHunks_example : AreHunks 0 0 hunks
parse_unified_patch-AreHunks_example = parse_unified_patch-AreHunks (codes "f") diff diff_parses

parse_unified_patch-Enough_example : parse_unified_patch (codes "f") diff ≢ err internal
parse_unified_patch-Enough_example = parse_unified_patch-Enough (codes "f") diff
