-- ===== src/Codex/Terminates.antt =====
-- The loops of the parser of Codex patches end.
use minicore_agent.Prelude.{
  ℕ, zero, suc, ◌+◌, ◌≤◌, ◌<◌, ◌≡◌, subst, ◌≢◌, inl, inr, Bool, true, not, ◌&&◌, ◌||◌, List, [],
  ◌∷◌, arith, length, is_empty, ok, err, >>=-eq-ok, guard->>=-eq-ok, reject-eq-ok, ok-injective,
}
use minicore_agent.Prelude.Bytes.{Bytes, codes, bytes_eq, strip_prefix}
use minicore_agent.Patch.{invalid_invocation, internal}
use minicore_agent.Unified.{parse_patch_content, consume_no_newline}
use minicore_agent.Unified.Text.{starts_with, contains, split_inclusive, strip_transport_ending}
use minicore_agent.Unified.Paths.Terminates.{validate_header_path-Enough}
use minicore_agent.Unified.Enough.{
  Enough, Enough-ok, Enough-err, Enough-ok_or, Enough-guard->>, Enough->>=, Enough-if,
}
use minicore_agent.Unified.Counts.{if-split}
use minicore_agent.Unified.Terminates.{
  next-Enough, finish-Enough, parse_patch_content-Enough, consume_no_newline-Enough,
  consume_no_newline-left, parse_hunk_header-Enough,
}
use minicore_agent.Codex.{
  codex_begin_patch, codex_end_patch, codex_update_file, codex_end_of_file, CodexHunk, trim,
  parse_codex_locator, Block, ends_contents, is_refused, block_loop, is_anchored, parse_codex_hunk,
  codex_hunks_loop, parse_codex_patch,
}

parse_codex_locator-Enough : (line : Bytes) → Enough (parse_codex_locator line)
unfolding parse_codex_locator
parse_codex_locator-Enough line =
    Enough->>= _ _ (Enough-ok_or (strip_prefix (codes "@@") line)) λ rest _.
      Enough-if (is_empty (trim rest)) (λ _. Enough-ok _)
        λ _.
          Enough-if (starts_with (b'-' ∷ []) (trim rest))
            (λ _. Enough->>= _ _ (parse_hunk_header-Enough line) λ ranges _. Enough-ok _)
            λ _. Enough-if (contains 0 (trim rest)) (λ _. Enough-err) λ _. Enough-ok _

less-fuel : (fuel n m : ℕ) → suc n < suc fuel → m ≤ n → m < fuel
less-fuel fuel n m h k = omega (arith, h, k)

block_loop-Enough :
    (fuel : ℕ) (lines : List Bytes) → length lines < fuel → Enough (block_loop fuel lines)
unfolding block_loop
block_loop-Enough zero lines l = omega arith
block_loop-Enough (suc fuel) [] l = Enough-err
block_loop-Enough (suc fuel) (raw ∷ lines) l =
    let line = strip_transport_ending raw in
    Enough-if (ends_contents line) (λ _. Enough-ok _)
      λ _.
        Enough-if (bytes_eq line codex_end_of_file) (λ _. Enough-ok _)
          λ _.
            Enough-if (is_refused line) (λ _. Enough-err)
              λ _. Enough->>= _ _ (parse_patch_content-Enough line) λ content _.
                Enough->>= _ _ (consume_no_newline-Enough lines content) λ marked c.
                  Enough->>= _ _
                    (block_loop-Enough fuel marked.1 (
                      less-fuel fuel (length lines) (length marked.1) l
                        (consume_no_newline-left lines content c)))
                    λ rest _. Enough-ok _

-- The lines left after a block are no more than before it.
block_loop-left :
    (fuel : ℕ) (lines : List Bytes) {block : Block}
    → block_loop fuel lines ≡ ok block
    → length block.lines ≤ length lines
unfolding block_loop
block_loop-left zero lines h = cc
block_loop-left (suc fuel) [] h = cc
block_loop-left (suc fuel) (raw ∷ lines) {block} h =
    let line = strip_transport_ending raw in
    let Left : Block → Type 0 = λ b. length b.lines ≤ suc (length lines) in
    elim (if-split (ends_contents line) _ _ h) [
      | inl (e, h1) ↦ subst Left (ok-injective h1) (omega arith)
      | inr (e, h1) ↦ elim (if-split (bytes_eq line codex_end_of_file) _ _ h1) [
        | inl (f, h2) ↦ subst Left (ok-injective h2) (omega arith)
        | inr (f, h2) ↦
            let (kept, h3) = reject-eq-ok (is_refused line) invalid_invocation _ h2 in
            let (content, p, h4) = >>=-eq-ok (parse_patch_content line) _ h3 in
            let (marked, c, h5) = >>=-eq-ok (consume_no_newline lines content) _ h4 in
            let (rest, r, h6) = >>=-eq-ok (block_loop fuel marked.1) _ h5 in
            subst Left (ok-injective h6) (
              omega
                (arith, block_loop-left fuel marked.1 r, consume_no_newline-left lines content c))
      ]
    ]

parse_codex_hunk-Enough : (line : Bytes) (lines : List Bytes) → Enough (parse_codex_hunk line lines)
unfolding parse_codex_hunk
parse_codex_hunk-Enough line lines = Enough-guard->> (starts_with (codes "@@") line) _ λ _.
    Enough->>= _ _ (parse_codex_locator-Enough line) λ locator _.
      Enough->>= _ _ (block_loop-Enough (length lines + 1) lines (omega arith)) λ block _.
        Enough-guard->>
          (not (is_empty block.contents && (block.end_of_file || not (is_anchored locator)))) _
          λ _. Enough-ok _

parse_codex_hunk-left :
    (line : Bytes) (lines : List Bytes) {r : CodexHunk × List Bytes}
    → parse_codex_hunk line lines ≡ ok r
    → length r.1 ≤ length lines
unfolding parse_codex_hunk
parse_codex_hunk-left line lines h =
    let (starts, h1) = guard->>=-eq-ok (starts_with (codes "@@") line) invalid_invocation _ h in
    let (locator, l, h2) = >>=-eq-ok (parse_codex_locator line) _ h1 in
    let (block, b, h3) = >>=-eq-ok (block_loop (length lines + 1) lines) _ h2 in
    let (valid, h4) =
      guard->>=-eq-ok
        (not (is_empty block.contents && (block.end_of_file || not (is_anchored locator))))
        invalid_invocation _ h3 in
    subst (λ x. length x.1 ≤ length lines) (ok-injective h4) (block_loop-left _ lines b)

codex_hunks_loop-Enough :
    (fuel : ℕ) (empty : Bool) (lines : List Bytes)
    → length lines < fuel
    → Enough (codex_hunks_loop fuel empty lines)
unfolding codex_hunks_loop
codex_hunks_loop-Enough zero empty lines l = omega arith
codex_hunks_loop-Enough (suc fuel) empty [] l = Enough-err
codex_hunks_loop-Enough (suc fuel) empty (raw ∷ lines) l =
    let line = strip_transport_ending raw in
    Enough-if (bytes_eq line codex_end_patch)
      (λ _.
        Enough-if empty (λ _. Enough-err)
          λ _. Enough->>= _ _ (finish-Enough lines) λ _ _. Enough-ok _)
      λ _. Enough->>= _ _ (parse_codex_hunk-Enough line lines) λ parsed p.
        Enough->>= _ _
          (codex_hunks_loop-Enough fuel (is_empty parsed.0.contents) parsed.1 (
            less-fuel fuel (length lines) (length parsed.1) l (parse_codex_hunk-left line lines p)))
          λ hunks _. Enough-ok _

-- The parser of Codex patches ends on every patch: it returns hunks or rejects the patch as an
-- invalid invocation or a failure, and never runs out of the fuel that stands for its loops.
pub parse_codex_patch-Enough : (path patch : Bytes) → parse_codex_patch path patch ≢ err internal
unfolding parse_codex_patch
parse_codex_patch-Enough path patch =
    Enough->>= _ _ (next-Enough (split_inclusive patch)) λ begin _.
      Enough-guard->> (bytes_eq (strip_transport_ending begin.0) codex_begin_patch) _ λ _.
        Enough->>= _ _ (next-Enough begin.1) λ update _.
          Enough->>= _ _
            (Enough-ok_or (strip_prefix codex_update_file (strip_transport_ending update.0)))
            λ header_path _.
              Enough->>= _ _ (validate_header_path-Enough header_path path [])
                λ valid _. codex_hunks_loop-Enough (length update.1 + 1) true update.1 (omega arith)
