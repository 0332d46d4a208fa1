-- ===== src/Codex/Shapes.antt =====
-- The hunks that the parser of Codex patches returns.
use minicore_agent.Prelude.{
  ℕ, zero, suc, ◌+◌, ◌≡◌, refl, subst, ◌⊎◌, inl, inr, Bool, true, false, not, ◌&&◌, ◌||◌, List, [],
  ◌∷◌, length, is_empty, ok, >>=-eq-ok, ok_or->>=-eq-ok, guard->>=-eq-ok, reject-eq-ok,
  ok-injective,
}
use minicore_agent.Prelude.Bytes.{Bytes, codes, bytes_eq, strip_prefix}
use minicore_agent.Patch.{invalid_invocation}
use minicore_agent.Unified.{next, finish}
use minicore_agent.Unified.Text.{starts_with, split_inclusive, strip_transport_ending}
use minicore_agent.Unified.Paths.{validate_header_path}
use minicore_agent.Unified.Counts.{if-split}
use minicore_agent.Codex.{
  codex_begin_patch, codex_end_patch, codex_update_file, CodexHunk, parse_codex_locator, block_loop,
  is_anchored, parse_codex_hunk, codex_hunks_loop, parse_codex_patch,
}

-- A hunk has lines, or it is the line of an anchor, that the next hunk is searched from.
abbrev pub IsCodexHunk : CodexHunk → Type 0
IsCodexHunk hunk =
    (is_empty hunk.contents ≡ false)
    ⊎ ((is_anchored hunk.locator ≡ true) × (hunk.end_of_file ≡ false))

-- Such hunks, the last of which has lines; `empty` is said of the hunk before.
abbrev pub AreCodexHunks : (empty : Bool) → List CodexHunk → Type 0
AreCodexHunks empty [] = empty ≡ false
AreCodexHunks empty (hunk ∷ hunks) = IsCodexHunk hunk × AreCodexHunks (is_empty hunk.contents) hunks

valid-cases :
    (empty at_end anchored : Bool)
    → not (empty && (at_end || not anchored)) ≡ true
    → (empty ≡ false) ⊎ ((anchored ≡ true) × (at_end ≡ false))
valid-cases true true true h = cc
valid-cases true true false h = cc
valid-cases true false true h = inr (refl, refl)
valid-cases true false false h = cc
valid-cases false at_end anchored h = inl refl

parse_codex_hunk-IsCodexHunk :
    (line : Bytes) (lines : List Bytes) {r : CodexHunk × List Bytes}
    → parse_codex_hunk line lines ≡ ok r
    → IsCodexHunk r.0
unfolding parse_codex_hunk
parse_codex_hunk-IsCodexHunk line lines h =
    let (starts, h1) = guard->>=-eq-ok (starts_with (codes "@@") line) invalid_invocation _ h in
    let (locator, l, h2) = >>=-eq-ok (parse_codex_locator line) _ h1 in
    let (block, b, h3) = >>=-eq-ok (block_loop (length lines + 1) lines) _ h2 in
    let (valid, h4) =
      guard->>=-eq-ok
        (not (is_empty block.contents && (block.end_of_file || not (is_anchored locator))))
        invalid_invocation _ h3 in
    subst (λ x. IsCodexHunk x.0) (ok-injective h4)
      (valid-cases (is_empty block.contents) block.end_of_file (is_anchored locator) valid)

codex_hunks_loop-AreCodexHunks :
    (fuel : ℕ) (empty : Bool) (lines : List Bytes) {hunks : List CodexHunk}
    → codex_hunks_loop fuel empty lines ≡ ok hunks
    → AreCodexHunks empty hunks
unfolding codex_hunks_loop
codex_hunks_loop-AreCodexHunks zero empty lines h = cc
codex_hunks_loop-AreCodexHunks (suc fuel) empty [] h = cc
codex_hunks_loop-AreCodexHunks (suc fuel) empty (raw ∷ lines) h =
    let line = strip_transport_ending raw in
    elim (if-split (bytes_eq line codex_end_patch) _ _ h) [
      | inl (e, h1) ↦
          let (full, h2) = reject-eq-ok empty invalid_invocation _ h1 in
          let (done, f, h3) = >>=-eq-ok (finish lines) _ h2 in
          subst (AreCodexHunks empty) (ok-injective h3) full
      | inr (e, h1) ↦
          let (parsed, p, h2) = >>=-eq-ok (parse_codex_hunk line lines) _ h1 in
          let (hunks, q, h3) =
            >>=-eq-ok (codex_hunks_loop fuel (is_empty parsed.0.contents) parsed.1) _ h2 in
          subst (AreCodexHunks empty) (ok-injective h3) (
            parse_codex_hunk-IsCodexHunk line lines p,
            codex_hunks_loop-AreCodexHunks fuel (is_empty parsed.0.contents) parsed.1 q,
          )
    ]

-- A Codex patch that is accepted has hunks; each has lines, or an anchor alone that is not at the end of
-- the file, and the last has lines.
pub parse_codex_patch-AreCodexHunks :
    (path patch : Bytes) {hunks : List CodexHunk}
    → parse_codex_patch path patch ≡ ok hunks
    → AreCodexHunks true hunks
unfolding parse_codex_patch
parse_codex_patch-AreCodexHunks path patch h =
    let (begin, b, h1) = >>=-eq-ok (next (split_inclusive patch)) _ h in
    let (begins, h2) =
      guard->>=-eq-ok (bytes_eq (strip_transport_ending begin.0) codex_begin_patch)
        invalid_invocation _ h1 in
    let (update, u, h3) = >>=-eq-ok (next begin.1) _ h2 in
    let (header_path, p, h4) =
      ok_or->>=-eq-ok (strip_prefix codex_update_file (strip_transport_ending update.0))
        invalid_invocation _ h3 in
    let (valid, v, h5) = >>=-eq-ok (validate_header_path header_path path []) _ h4 in
    codex_hunks_loop-AreCodexHunks _ true update.1 h5
