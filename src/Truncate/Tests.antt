-- ===== src/Truncate/Tests.antt =====
-- The ends of concrete texts.
use minicore_agent.Prelude.{◌≡◌, refl, ◌⊎◌, all, List, true, false, some, [], ◌∷◌, ◌++◌}
use minicore_agent.Prelude.Bytes.{Bytes, codes}
use minicore_agent.Truncate.{Tail, body_of, count_lines, rsplit, cut_line, tail_loop, truncate_tail}
use minicore_agent.Truncate.Limits.{KeepsLines, KeepsEnd, truncate_tail-within}
use minicore_agent.Truncate.Lines.{joined, is_line}

abbrev text : Bytes
text = codes "aaaa" ++ b'\n' ∷ codes "bbb" ++ b'\n' ∷ codes "c" ++ b'\n' ∷ []

-- Six bytes hold the last two lines.
abbrev ending : Tail
ending = record {
  text = codes "bbb" ++ b'\n' ∷ codes "c";
  total_lines = 3;
  kept_lines = 2;
  by_bytes = true;
  partial = false;
  last_line_bytes = 1;
}

two_lines : truncate_tail text 10 6 ≡ some ending
unfolding truncate_tail count_lines body_of rsplit tail_loop cut_line
two_lines = refl

truncate_tail-within_example :
    (lines : List Bytes) × (joined lines ≡ body_of text)
    × (all is_line lines ≡ true)
    × (KeepsLines lines 10 6 ending ⊎ KeepsEnd lines 10 6 ending)
truncate_tail-within_example = truncate_tail-within text 10 6 two_lines
