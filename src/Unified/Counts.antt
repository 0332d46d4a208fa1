-- ===== src/Unified/Counts.antt =====
-- The hunks that the parser of unified diffs returns.
use minicore_agent.Prelude.{
  ℕ, zero, suc, ◌+◌, ◌≤◌, ◌<◌, ◌≡◌, refl, sym, ap, subst, ◌∙◌, ◌⊎◌, inl, inr, Bool, true, false,
  not, ◌&&◌, ◌||◌, List, [], ◌∷◌, arith, ltb, leb, ◌==◌, if◌then◌else◌, length, drop, is_empty,
  first, all, ok, unwrap_or, >>=-eq-ok, ok_or->>=-eq-ok, guard->>=-eq-ok, reject-eq-ok,
  ok-injective,
}
use minicore_agent.Prelude.Bytes.{Bytes, codes, bytes_eq, strip_prefix}
use minicore_agent.Patch.{
  invalid_invocation, PatchLineKind, context, remove, PatchContent, HunkRange, ResolvedHunk,
  add_usize, sub_usize, delta, usize_limit,
}
use minicore_agent.Unified.{
  Parse, next, finish, parse_patch_content, mark_no_newline, mark_kind, consume_no_newline,
  peeks_no_newline, contents_loop, parse_hunk_contents, parse_hunk_range, parse_hunk_header,
  parse_hunk, after_hunk, hunks_loop, parse_unified_patch, no_newline_at_end, skip_git_header,
  skip_file_header,
}
use minicore_agent.Unified.Text.{
  starts_with, split_once, contains, split_inclusive, strip_transport_ending, is_decimal,
  parse_usize,
}

-- The lines of the source, and of the result, that patch lines count for.
abbrev pub old_lines : List PatchContent → ℕ
old_lines [] = 0
old_lines (content ∷ contents) = (delta content.kind).0 + old_lines contents

abbrev pub new_lines : List PatchContent → ℕ
new_lines [] = 0
new_lines (content ∷ contents) = (delta content.kind).1 + new_lines contents

-- A range ends where its count says, without overflow.
abbrev pub IsRange : HunkRange → Type 0
IsRange r = (r.end ≡ r.index + r.count) × (r.end < usize_limit)

-- A hunk has lines, as many as its header counts.
pub record IsHunk (h : ResolvedHunk) : Type 0 where
  pub old_range : IsRange h.old
  pub new_range : IsRange h.new
  pub old_count : old_lines h.contents ≡ h.old.count
  pub new_count : new_lines h.contents ≡ h.new.count
  pub has_lines : is_empty h.contents ≡ false

-- Hunks in order, without overlap, from line `o` of the source and `n` of the result on.
abbrev pub AreHunks : ℕ → ℕ → List ResolvedHunk → Type 0
AreHunks o n [] = Unit
AreHunks o n (h ∷ hs) =
    (o ≤ h.old.index) × (n ≤ h.new.index) × IsHunk h × AreHunks h.old.end h.new.end hs

add_usize-ok : (a b : ℕ) {c : ℕ} → add_usize a b ≡ ok c → (c ≡ a + b) × (c < usize_limit)
unfolding add_usize
add_usize-ok a b h = (ground arith, ground arith)

mark_kind-kind :
    (k : PatchLineKind) (content : PatchContent) → (mark_kind k content).kind ≡ content.kind
unfolding mark_kind
mark_kind-kind context content = refl
mark_kind-kind remove content = refl
mark_kind-kind PatchLineKind.add content = refl

mark_no_newline-kind :
    (content : PatchContent) {marked : PatchContent}
    → mark_no_newline content ≡ ok marked
    → marked.kind ≡ content.kind
unfolding mark_no_newline
mark_no_newline-kind content h =
    let (free, h1) =
      reject-eq-ok (content.old_no_newline || content.new_no_newline) invalid_invocation _ h in
    sym (ap (λ c. c.kind) (ok-injective h1)) ∙ mark_kind-kind content.kind content

pub if-split :
    {B : Type 0} (t : Bool) (x y : Parse B) {r : Parse B}
    → (if t then x else y) ≡ r
    → ((t ≡ true) × (x ≡ r)) ⊎ ((t ≡ false) × (y ≡ r))
if-split true x y h = inl (refl, h)
if-split false x y h = inr (refl, h)

consume_no_newline-ok :
    (lines : List Bytes) (content : PatchContent) {r : PatchContent × List Bytes}
    → consume_no_newline lines content ≡ ok r
    → r.0.kind ≡ content.kind
unfolding consume_no_newline
consume_no_newline-ok lines content h = elim (if-split (peeks_no_newline lines) _ _ h) [
  | inl (p, h1) ↦
      let (marked, m, h2) = >>=-eq-ok (mark_no_newline content) _ h1 in
      let (one, h3) =
        guard->>=-eq-ok (not (peeks_no_newline (drop 1 lines))) invalid_invocation _ h2 in
      sym (ap (λ r. r.0.kind) (ok-injective h3)) ∙ mark_no_newline-kind content m
  | inr (p, h1) ↦ sym (ap (λ r. r.0.kind) (ok-injective h1))
]

both-le : (a b c d : ℕ) → (leb a b && leb c d) ≡ true → (a ≤ b) × (c ≤ d)
both-le a b c d h = (ground arith, ground arith)

neither-lt : (a b c d : ℕ) → (ltb a b || ltb c d) ≡ false → (b ≤ a) × (d ≤ c)
neither-lt a b c d h = (ground arith, ground arith)

count-more : (a a' d x y e : ℕ) → a' ≡ a + d → a' + x ≡ e → y ≡ d + x → a + y ≡ e
count-more a a' d x y e p q r = omega (arith, p, q, r)

count-done : (a y e : ℕ) → a ≤ e → e ≤ a → 0 ≡ y → a + y ≡ e
count-done a y e l m z = omega (arith, l, m, z)

contents_loop-counts :
    (fuel expected_old expected_new old new : ℕ) (lines : List Bytes)
    {r : List PatchContent × List Bytes}
    → old ≤ expected_old
    → new ≤ expected_new
    → contents_loop fuel expected_old expected_new old new lines ≡ ok r
    → (old + old_lines r.0 ≡ expected_old) × (new + new_lines r.0 ≡ expected_new)
unfolding contents_loop
contents_loop-counts zero eo en old new lines l m h = cc
contents_loop-counts (suc fuel) eo en old new lines {r} l m h =
    elim (if-split (ltb old eo || ltb new en) _ _ h) [
      | inl (more, h1) ↦
          let (taken, t, h2) = >>=-eq-ok (next lines) _ h1 in
          let line = strip_transport_ending taken.0 in
          let (plain, h3) =
            guard->>=-eq-ok (not (bytes_eq line no_newline_at_end)) invalid_invocation _ h2 in
          let (content, p, h4) = >>=-eq-ok (parse_patch_content line) _ h3 in
          let (old', o, h5) = >>=-eq-ok (add_usize old ((delta content.kind).0)) _ h4 in
          let (new', n, h6) = >>=-eq-ok (add_usize new ((delta content.kind).1)) _ h5 in
          let (within, h7) = guard->>=-eq-ok (leb old' eo && leb new' en) invalid_invocation _ h6 in
          let (marked, c, h8) = >>=-eq-ok (consume_no_newline taken.1 content) _ h7 in
          let (rest, i, h9) = >>=-eq-ok (contents_loop fuel eo en old' new' marked.1) _ h8 in
          let kept = consume_no_newline-ok taken.1 content c in
          let (lo, ln) = both-le old' eo new' en within in
          let (io, in') = contents_loop-counts fuel eo en old' new' marked.1 lo ln i in
          let all : marked.0 ∷ rest.0 ≡ r.0 = ap (λ x. x.0) (ok-injective h9) in
          let olds : old_lines r.0 ≡ (delta content.kind).0 + old_lines rest.0 =
            sym (ap old_lines all) ∙ ap (λ k. (delta k).0 + old_lines rest.0) kept in
          let news : new_lines r.0 ≡ (delta content.kind).1 + new_lines rest.0 =
            sym (ap new_lines all) ∙ ap (λ k. (delta k).1 + new_lines rest.0) kept in
          let so : old' ≡ old + (delta content.kind).0 =
            (add_usize-ok old ((delta content.kind).0) o).0 in
          let sn : new' ≡ new + (delta content.kind).1 =
            (add_usize-ok new ((delta content.kind).1) n).0 in
          (count-more old old' _ _ _ eo so io olds, count-more new new' _ _ _ en sn in' news)
      | inr (done, h1) ↦
          let none_left : [] ≡ r.0 = ap (λ x. x.0) (ok-injective h1) in
          let (nl, nm) = neither-lt old eo new en done in
          let olds : 0 ≡ old_lines r.0 = ap old_lines none_left in
          let news : 0 ≡ new_lines r.0 = ap new_lines none_left in
          (count-done old _ eo l nl olds, count-done new _ en m nm news)
    ]

not-true : (b : Bool) → not b ≡ true → b ≡ false
not-true true h = cc
not-true false h = refl

parse_hunk_contents-counts :
    (lines : List Bytes) (expected_old expected_new : ℕ) {r : List PatchContent × List Bytes}
    → parse_hunk_contents lines expected_old expected_new ≡ ok r
    → (old_lines r.0 ≡ expected_old) × (new_lines r.0 ≡ expected_new) × (is_empty r.0 ≡ false)
unfolding parse_hunk_contents
parse_hunk_contents-counts lines eo en {r} h =
    let (x, p, h1) = >>=-eq-ok (contents_loop (length lines + 1) eo en 0 0 lines) _ h in
    let (some_lines, h2) = guard->>=-eq-ok (not (is_empty x.0)) invalid_invocation _ h1 in
    let (o, n) = contents_loop-counts _ eo en 0 0 lines (omega arith) (omega arith) p in
    let same : x.0 ≡ r.0 = ap (λ y. y.0) (ok-injective h2) in
    (
      sym (ap old_lines same) ∙ (omega (arith, o)),
      sym (ap new_lines same) ∙ (omega (arith, n)),
      sym (ap is_empty same) ∙ not-true _ some_lines,
    )

parse_hunk_range-IsRange :
    (range : Bytes) (prefix : ℕ) {r : HunkRange} → parse_hunk_range range prefix ≡ ok r → IsRange r
unfolding parse_hunk_range
parse_hunk_range-IsRange range prefix {r} h =
    let (range', s, h1) =
      ok_or->>=-eq-ok (strip_prefix (prefix ∷ []) range) invalid_invocation _ h in
    let parts = unwrap_or (split_once (b',' ∷ []) range') (range', b'1' ∷ []) in
    let (digits, h2) =
      guard->>=-eq-ok (is_decimal parts.0 && is_decimal parts.1) invalid_invocation _ h1 in
    let (start, ps, h3) = ok_or->>=-eq-ok (parse_usize parts.0) invalid_invocation _ h2 in
    let (count, pc, h4) = ok_or->>=-eq-ok (parse_usize parts.1) invalid_invocation _ h3 in
    let (z, h5) =
      guard->>=-eq-ok (not ((start == 0) && not (count == 0))) invalid_invocation _ h4 in
    let (index, i, h6) = >>=-eq-ok (if count == 0 then ok start else sub_usize start 1) _ h5 in
    let (end, e, h7) = >>=-eq-ok (add_usize index count) _ h6 in
    let (limit, l, h8) = >>=-eq-ok (add_usize start count) _ h7 in
    subst IsRange (ok-injective h8) (add_usize-ok index count e)

parse_hunk_header-IsRange :
    (header : Bytes) {r : HunkRange × HunkRange}
    → parse_hunk_header header ≡ ok r
    → IsRange r.0 × IsRange r.1
unfolding parse_hunk_header
parse_hunk_header-IsRange header {r} h =
    let (header', p, h1) =
      ok_or->>=-eq-ok (strip_prefix (codes "@@ ") header) invalid_invocation _ h in
    let (parts, q, h2) =
      ok_or->>=-eq-ok (split_once (codes " @@") header') invalid_invocation _ h1 in
    let (suffix, h3) =
      guard->>=-eq-ok
        (not
          (contains 0 parts.1 || (not (is_empty parts.1) && not (starts_with (b' ' ∷ []) parts.1))))
        invalid_invocation _ h2 in
    let (ranges, s, h4) =
      ok_or->>=-eq-ok (split_once (b' ' ∷ []) parts.0) invalid_invocation _ h3 in
    let (two, h5) =
      guard->>=-eq-ok (not (contains b' ' ranges.0 || contains b' ' ranges.1)) invalid_invocation _
        h4 in
    let (old, o, h6) = >>=-eq-ok (parse_hunk_range ranges.0 b'-') _ h5 in
    let (new, n, h7) = >>=-eq-ok (parse_hunk_range ranges.1 b'+') _ h6 in
    subst (λ x. IsRange x.0 × IsRange x.1) (ok-injective h7)
      (parse_hunk_range-IsRange ranges.0 b'-' o, parse_hunk_range-IsRange ranges.1 b'+' n)

parse_hunk-IsHunk :
    (o n : ℕ) (header : Bytes) (lines : List Bytes) {r : ResolvedHunk × List Bytes}
    → parse_hunk o n header lines ≡ ok r
    → (o ≤ r.0.old.index) × (n ≤ r.0.new.index) × IsHunk r.0
unfolding parse_hunk
parse_hunk-IsHunk o n header lines {r} h =
    let (ranges, p, h1) = >>=-eq-ok (parse_hunk_header (strip_transport_ending header)) _ h in
    let (ordered, h2) =
      guard->>=-eq-ok (leb o ranges.0.index && leb n ranges.1.index) invalid_invocation _ h1 in
    let (parsed, q, h3) =
      >>=-eq-ok (parse_hunk_contents lines ranges.0.count ranges.1.count) _ h2 in
    let (lo, ln) = both-le o ranges.0.index n ranges.1.index ordered in
    let (ro, rn) = parse_hunk_header-IsRange _ p in
    let (co, cn, some_lines) = parse_hunk_contents-counts lines ranges.0.count ranges.1.count q in
    subst (λ x. (o ≤ x.0.old.index) × (n ≤ x.0.new.index) × IsHunk x.0) (ok-injective h3)
      (
        lo,
        ln,
        record {
          old_range = ro;
          new_range = rn;
          old_count = co;
          new_count = cn;
          has_lines = some_lines;
        },
      )

after_hunk-ok :
    (hunk : ResolvedHunk) (more : Bytes → List Bytes → Parse (List ResolvedHunk))
    (lines : List Bytes) {hunks : List ResolvedHunk}
    → after_hunk hunk more lines ≡ ok hunks
    → (hunks ≡ hunk ∷ [])
      ⊎ ((line : Bytes) × (rest : List Bytes) × (hs : List ResolvedHunk) × (more line rest ≡ ok hs)
          × (hunks ≡ hunk ∷ hs))
unfolding after_hunk
after_hunk-ok hunk more [] h = inl (sym (ok-injective h))
after_hunk-ok hunk more (line ∷ rest) h =
    elim (if-split (starts_with (codes "@@ ") (strip_transport_ending line)) _ _ h) [
      | inl (p, h1) ↦
          let (hs, g, h2) = >>=-eq-ok (more line rest) _ h1 in
          inr (line, rest, hs, g, sym (ok-injective h2))
      | inr (p, h1) ↦ elim (if-split (is_empty (strip_transport_ending line)) _ _ h1) [
        | inl (q, h2) ↦ let (u, g, h3) = >>=-eq-ok (finish rest) _ h2 in inl (sym (ok-injective h3))
        | inr (q, h2) ↦ absurd (cc)
      ]
    ]

hunks_loop-AreHunks :
    (fuel o n : ℕ) (header : Bytes) (lines : List Bytes) {hunks : List ResolvedHunk}
    → hunks_loop fuel o n header lines ≡ ok hunks
    → AreHunks o n hunks
unfolding hunks_loop
hunks_loop-AreHunks zero o n header lines h = cc
hunks_loop-AreHunks (suc fuel) o n header lines {hunks} h =
    let (parsed, p, h1) = >>=-eq-ok (parse_hunk o n header lines) _ h in
    let i = parse_hunk-IsHunk o n header lines p in
    elim (after_hunk-ok parsed.0 _ parsed.1 h1) [
      | inl only ↦ subst (AreHunks o n) (sym only) (i.0, i.1, i.2, tt)
      | inr (line, rest, more, g, all) ↦
          subst (AreHunks o n) (sym all)
            (i.0, i.1, i.2, hunks_loop-AreHunks fuel parsed.0.old.end parsed.0.new.end line rest g)
    ]

-- The hunks that a unified diff is parsed into are in order and do not overlap, in the source and in
-- the result, each has lines, exactly as many of the source and of the result as its header counts,
-- and its ranges end where the counts say, below the limit of `usize`.
pub parse_unified_patch-AreHunks :
    (path patch : Bytes) {hunks : List ResolvedHunk}
    → parse_unified_patch path patch ≡ ok hunks
    → AreHunks 0 0 hunks
unfolding parse_unified_patch
parse_unified_patch-AreHunks path patch h =
    let (first, f, h1) = >>=-eq-ok (next (split_inclusive patch)) _ h in
    let (header, g, h2) = >>=-eq-ok (skip_git_header first.0 first.1) _ h1 in
    let (hunk, k, h3) = >>=-eq-ok (skip_file_header path header.0 header.1) _ h2 in
    hunks_loop-AreHunks _ 0 0 hunk.0 hunk.1 h3
