-- ===== src/Unified/Terminates.antt =====
-- The loops of the parser of unified diffs end.
use minicore_agent.Prelude.{
  ℕ, zero, suc, ◌+◌, ◌≤◌, ◌<◌, ◌≡◌, subst, ◌≢◌, inl, inr, not, ◌&&◌, ◌||◌, List, [], ◌∷◌, arith,
  ltb, leb, ◌==◌, length, drop, is_empty, first, length-drop, ok, err, unwrap_or, >>=-eq-ok,
  guard->>=-eq-ok, ok-injective,
}
use minicore_agent.Prelude.Bytes.{Bytes, codes, bytes_eq, strip_prefix}
use minicore_agent.Patch.{
  invalid_invocation, internal, PatchContent, ResolvedHunk, add_usize, sub_usize, delta,
  checked_add, checked_sub,
}
use minicore_agent.Unified.{
  Parse, next, finish, parse_patch_content, mark_no_newline, consume_no_newline, peeks_no_newline,
  contents_loop, parse_hunk_contents, parse_hunk_range, parse_hunk_header, parse_hunk, after_hunk,
  hunks_loop, parse_unified_patch, skip_git_header, skip_file_header, no_newline_at_end,
}
use minicore_agent.Unified.Text.{
  contains, split_once, is_decimal, parse_usize, starts_with, split_inclusive,
  strip_transport_ending,
}
use minicore_agent.Unified.Enough.{
  Enough, Enough-ok, Enough-err, Enough-ok_or, Enough-guard->>, Enough->>=, Enough-if,
}
use minicore_agent.Unified.Paths.Terminates.{parse_header_path-Enough, validate_header_path-Enough}
use minicore_agent.Unified.Counts.{if-split}

pub next-Enough : (lines : List Bytes) → Enough (next lines)
next-Enough [] e = cc
next-Enough (line ∷ lines) e = cc

pub finish-Enough : (lines : List Bytes) → Enough (finish lines)
unfolding finish
finish-Enough [] = Enough-ok tt
finish-Enough (line ∷ lines) =
    Enough-guard->> (is_empty (strip_transport_ending line)) _ λ _. finish-Enough lines

pub add_usize-Enough : (a b : ℕ) → Enough (add_usize a b)
unfolding add_usize
add_usize-Enough a b = Enough-ok_or (checked_add a b)

sub_usize-Enough : (a b : ℕ) → Enough (sub_usize a b)
unfolding sub_usize
sub_usize-Enough a b = Enough-ok_or (checked_sub a b)

pub parse_patch_content-Enough : (line : Bytes) → Enough (parse_patch_content line)
unfolding parse_patch_content
parse_patch_content-Enough [] = Enough-ok _
parse_patch_content-Enough (c ∷ text) =
    Enough-if (c == b' ') (λ _. Enough-ok _)
      λ _.
        Enough-if (c == b'-') (λ _. Enough-ok _)
          λ _. Enough-if (c == b'+') (λ _. Enough-ok _) λ _. Enough-err

mark_no_newline-Enough : (content : PatchContent) → Enough (mark_no_newline content)
unfolding mark_no_newline
mark_no_newline-Enough content =
    Enough-if (content.old_no_newline || content.new_no_newline) (λ _. Enough-err)
      (λ _. Enough-ok _)

pub consume_no_newline-Enough :
    (lines : List Bytes) (content : PatchContent) → Enough (consume_no_newline lines content)
unfolding consume_no_newline
consume_no_newline-Enough lines content =
    Enough-if (peeks_no_newline lines)
      (λ _.
        Enough->>= _ _ (mark_no_newline-Enough content)
          λ marked _. Enough-guard->> (not (peeks_no_newline (drop 1 lines))) _ λ _. Enough-ok _)
      (λ _. Enough-ok _)

-- How many lines are left.
pub consume_no_newline-left :
    (lines : List Bytes) (content : PatchContent) {r : PatchContent × List Bytes}
    → consume_no_newline lines content ≡ ok r
    → length r.1 ≤ length lines
unfolding consume_no_newline
consume_no_newline-left lines content h = elim (if-split (peeks_no_newline lines) _ _ h) [
  | inl (p, h1) ↦
      let (marked, m, h2) = >>=-eq-ok (mark_no_newline content) _ h1 in
      let (one, h3) =
        guard->>=-eq-ok (not (peeks_no_newline (drop 1 lines))) invalid_invocation _ h2 in
      subst (λ x. length x.1 ≤ length lines) (ok-injective h3) (omega (arith, length-drop 1 lines))
  | inr (p, h1) ↦ subst (λ x. length x.1 ≤ length lines) (ok-injective h1) (omega arith)
]

next-left :
    (lines : List Bytes) {r : Bytes × List Bytes}
    → next lines ≡ ok r
    → length r.1 + 1 ≤ length lines
next-left [] h = cc
next-left (line ∷ lines) h =
    subst (λ x. length x.1 + 1 ≤ suc (length lines)) (ok-injective h) (omega arith)

trans-left : (a b c d : ℕ) → d ≤ c → c ≤ b → b + 1 ≤ a → d ≤ a
trans-left a b c d h k l = omega (arith, h, k, l)

contents_loop-left :
    (fuel eo en old new : ℕ) (lines : List Bytes) {r : List PatchContent × List Bytes}
    → contents_loop fuel eo en old new lines ≡ ok r
    → length r.1 ≤ length lines
unfolding contents_loop
contents_loop-left zero eo en old new lines h = cc
contents_loop-left (suc fuel) eo en old new lines {r} h =
    elim (if-split (ltb old eo || ltb new en) _ _ h) [
      | inl (more, h1) ↦
          let (taken, t, h2) = >>=-eq-ok (next lines) _ h1 in
          let line = strip_transport_ending taken.0 in
          let (plain, h3) =
            guard->>=-eq-ok (not (bytes_eq line no_newline_at_end)) invalid_invocation _ h2 in
          let (content, p, h4) = >>=-eq-ok (parse_patch_content line) _ h3 in
          let (old', o, h5) = >>=-eq-ok (add_usize old ((delta content.kind).0)) _ h4 in
          let (new', n, h6) = >>=-eq-ok (add_usize new ((delta content.kind).1)) _ h5 in
          let (within, h7) = guard->>=-eq-ok (leb old' eo && leb new' en) invalid_invocation _ h6 in
          let (marked, c, h8) = >>=-eq-ok (consume_no_newline taken.1 content) _ h7 in
          let (rest, i, h9) = >>=-eq-ok (contents_loop fuel eo en old' new' marked.1) _ h8 in
          subst (λ x. length x.1 ≤ length lines) (ok-injective h9)
            (trans-left (length lines) (length taken.1) (length marked.1) (length rest.1)
              (contents_loop-left fuel eo en old' new' marked.1 i)
              (consume_no_newline-left taken.1 content c) (next-left lines t))
      | inr (done, h1) ↦ subst (λ x. length x.1 ≤ length lines) (ok-injective h1) (omega arith)
    ]

still-enough : (fuel a b c : ℕ) → a < suc fuel → c ≤ b → b + 1 ≤ a → c < fuel
still-enough fuel a b c h k l = omega (arith, h, k, l)

contents_loop-Enough :
    (fuel eo en old new : ℕ) (lines : List Bytes)
    → length lines < fuel
    → Enough (contents_loop fuel eo en old new lines)
unfolding contents_loop
contents_loop-Enough zero eo en old new lines l = omega arith
contents_loop-Enough (suc fuel) eo en old new lines l =
    Enough-if (ltb old eo || ltb new en)
      (λ _. Enough->>= _ _ (next-Enough lines) λ taken t.
        Enough-guard->> (not (bytes_eq (strip_transport_ending taken.0) no_newline_at_end)) _ λ _.
          Enough->>= _ _ (parse_patch_content-Enough _) λ content _.
            Enough->>= _ _ (add_usize-Enough _ _) λ old' _.
              Enough->>= _ _ (add_usize-Enough _ _) λ new' _.
                Enough-guard->> (leb old' eo && leb new' en) _ λ _.
                  Enough->>= _ _ (consume_no_newline-Enough taken.1 content) λ marked c.
                    Enough->>= _ _
                      (contents_loop-Enough fuel eo en old' new' marked.1 (
                        still-enough fuel (length lines) (length taken.1) (length marked.1) l
                          (consume_no_newline-left taken.1 content c) (next-left lines t)))
                      λ rest _. Enough-ok _)
      (λ _. Enough-ok _)

parse_hunk_contents-Enough :
    (lines : List Bytes) (eo en : ℕ) → Enough (parse_hunk_contents lines eo en)
unfolding parse_hunk_contents
parse_hunk_contents-Enough lines eo en =
    Enough->>= _ _ (contents_loop-Enough (length lines + 1) eo en 0 0 lines (omega arith))
      λ parsed _. Enough-guard->> (not (is_empty parsed.0)) _ λ _. Enough-ok _

parse_hunk_contents-left :
    (lines : List Bytes) (eo en : ℕ) {r : List PatchContent × List Bytes}
    → parse_hunk_contents lines eo en ≡ ok r
    → length r.1 ≤ length lines
unfolding parse_hunk_contents
parse_hunk_contents-left lines eo en {r} h =
    let (x, p, h1) = >>=-eq-ok (contents_loop (length lines + 1) eo en 0 0 lines) _ h in
    let (some_lines, h2) = guard->>=-eq-ok (not (is_empty x.0)) invalid_invocation _ h1 in
    subst (λ y. length y.1 ≤ length lines) (ok-injective h2)
      (contents_loop-left _ eo en 0 0 lines p)

parse_hunk_range-Enough : (range : Bytes) (prefix : ℕ) → Enough (parse_hunk_range range prefix)
unfolding parse_hunk_range
parse_hunk_range-Enough range prefix =
    Enough->>= _ _ (Enough-ok_or (strip_prefix (prefix ∷ []) range)) λ range' _.
      Enough-guard->>
        (is_decimal ((unwrap_or (split_once (b',' ∷ []) range') (range', b'1' ∷ [])).0)
          && is_decimal ((unwrap_or (split_once (b',' ∷ []) range') (range', b'1' ∷ [])).1))
        _
        λ _.
          Enough->>= _ _
            (Enough-ok_or
              (parse_usize ((unwrap_or (split_once (b',' ∷ []) range') (range', b'1' ∷ [])).0)))
            λ start _.
              Enough->>= _ _
                (Enough-ok_or
                  (parse_usize ((unwrap_or (split_once (b',' ∷ []) range') (range', b'1' ∷ [])).1)))
                λ count _. Enough-guard->> (not ((start == 0) && not (count == 0))) _ λ _.
                  Enough->>= _ _
                    (Enough-if (count == 0) (λ _. Enough-ok start) (λ _. sub_usize-Enough start 1))
                    λ index _.
                      Enough->>= _ _ (add_usize-Enough _ _)
                        λ end _. Enough->>= _ _ (add_usize-Enough _ _) λ limit _. Enough-ok _

pub parse_hunk_header-Enough : (header : Bytes) → Enough (parse_hunk_header header)
unfolding parse_hunk_header
parse_hunk_header-Enough header =
    Enough->>= _ _ (Enough-ok_or (strip_prefix (codes "@@ ") header)) λ header' _.
      Enough->>= _ _ (Enough-ok_or (split_once (codes " @@") header')) λ parts _.
        Enough-guard->>
          (not (
            contains 0 parts.1
            || (not (is_empty parts.1) && not (starts_with (b' ' ∷ []) parts.1))))
          _
          λ _. Enough->>= _ _ (Enough-ok_or (split_once (b' ' ∷ []) parts.0)) λ ranges _.
            Enough-guard->> (not (contains b' ' ranges.0 || contains b' ' ranges.1)) _ λ _.
              Enough->>= _ _ (parse_hunk_range-Enough _ _)
                λ old _. Enough->>= _ _ (parse_hunk_range-Enough _ _) λ new _. Enough-ok _

parse_hunk-Enough :
    (o n : ℕ) (header : Bytes) (lines : List Bytes) → Enough (parse_hunk o n header lines)
unfolding parse_hunk
parse_hunk-Enough o n header lines = Enough->>= _ _ (parse_hunk_header-Enough _) λ ranges _.
    Enough-guard->> (leb o ranges.0.index && leb n ranges.1.index) _
      λ _. Enough->>= _ _ (parse_hunk_contents-Enough lines _ _) λ parsed _. Enough-ok _

parse_hunk-left :
    (o n : ℕ) (header : Bytes) (lines : List Bytes) {r : ResolvedHunk × List Bytes}
    → parse_hunk o n header lines ≡ ok r
    → length r.1 ≤ length lines
unfolding parse_hunk
parse_hunk-left o n header lines {r} h =
    let (ranges, p, h1) = >>=-eq-ok (parse_hunk_header (strip_transport_ending header)) _ h in
    let (ordered, h2) =
      guard->>=-eq-ok (leb o ranges.0.index && leb n ranges.1.index) invalid_invocation _ h1 in
    let (parsed, q, h3) =
      >>=-eq-ok (parse_hunk_contents lines ranges.0.count ranges.1.count) _ h2 in
    subst (λ y. length y.1 ≤ length lines) (ok-injective h3) (parse_hunk_contents-left lines _ _ q)

after_hunk-Enough :
    (hunk : ResolvedHunk) (more : Bytes → List Bytes → Parse (List ResolvedHunk))
    (lines : List Bytes)
    → ((line : Bytes) (rest : List Bytes) → length rest < length lines → Enough (more line rest))
    → Enough (after_hunk hunk more lines)
unfolding after_hunk
after_hunk-Enough hunk more [] h = Enough-ok _
after_hunk-Enough hunk more (line ∷ rest) h =
    Enough-if (starts_with (codes "@@ ") (strip_transport_ending line))
      (λ _. Enough->>= _ _ (h line rest (omega arith)) λ hunks _. Enough-ok _)
      λ _.
        Enough-if (is_empty (strip_transport_ending line))
          (λ _. Enough->>= _ _ (finish-Enough rest) λ _ _. Enough-ok _) λ _. Enough-err

shorter : (a b c f : ℕ) → a < suc f → b ≤ a → c < b → c < f
shorter a b c f h k l = omega (arith, h, k, l)

hunks_loop-Enough :
    (fuel o n : ℕ) (header : Bytes) (lines : List Bytes)
    → length lines < fuel
    → Enough (hunks_loop fuel o n header lines)
unfolding hunks_loop
hunks_loop-Enough zero o n header lines l = omega arith
hunks_loop-Enough (suc fuel) o n header lines l =
    Enough->>= _ _ (parse_hunk-Enough o n header lines) λ parsed p.
      after_hunk-Enough parsed.0 _ parsed.1 λ line rest s.
        hunks_loop-Enough fuel parsed.0.old.end parsed.0.new.end line rest (
          shorter (length lines) (length parsed.1) (length rest) fuel l
            (parse_hunk-left o n header lines p) s)

skip_git_header-Enough : (first : Bytes) (lines : List Bytes) → Enough (skip_git_header first lines)
unfolding skip_git_header
skip_git_header-Enough first lines =
    Enough-if (starts_with (codes "diff --git ") first || starts_with (codes "index ") first)
      (λ _.
        Enough->>= _ _
          (Enough-if (starts_with (codes "diff --git ") first) (λ _. next-Enough lines)
            (λ _. Enough-ok _))
          λ second _.
            Enough->>= _ _
              (Enough-if (starts_with (codes "index ") second.0) (λ _. next-Enough second.1)
                (λ _. Enough-ok _))
              λ third _. Enough-guard->> (starts_with (codes "--- ") third.0) _ λ _. Enough-ok _)
      (λ _. Enough-ok _)

skip_file_header-Enough :
    (path first : Bytes) (lines : List Bytes) → Enough (skip_file_header path first lines)
unfolding skip_file_header
skip_file_header-Enough path first lines =
    Enough-if (starts_with (codes "--- ") (strip_transport_ending first))
      (λ _. Enough->>= _ _ (parse_header_path-Enough first _) λ original _.
        Enough->>= _ _ (next-Enough lines) λ second _.
          Enough->>= _ _ (parse_header_path-Enough second.0 _) λ modified _.
            Enough->>= _ _ (validate_header_path-Enough original path _) λ _ _.
              Enough->>= _ _ (validate_header_path-Enough modified path _)
                λ _ _. next-Enough second.1)
      (λ _. Enough-ok _)

-- The parser of unified diffs ends on every patch: it returns hunks or rejects the patch as an
-- invalid invocation or a failure, and never runs out of the fuel that stands for its loops.
pub parse_unified_patch-Enough :
    (path patch : Bytes) → parse_unified_patch path patch ≢ err internal
unfolding parse_unified_patch
parse_unified_patch-Enough path patch =
    Enough->>= _ _ (next-Enough (split_inclusive patch)) λ first _.
      Enough->>= _ _ (skip_git_header-Enough first.0 first.1) λ header _.
        Enough->>= _ _ (skip_file_header-Enough path header.0 header.1)
          λ hunk _. hunks_loop-Enough (length hunk.1 + 1) 0 0 hunk.0 hunk.1 (omega arith)
