-- ===== src/Codex/Resolve/Moves.antt =====
-- The cursors at the start of a Codex hunk.
use minicore_agent.Prelude.{
  ℕ, ◌+◌, ◌-◌, ◌≤◌, ◌≡◌, refl, sym, subst, ◌∙◌, ◌≢◌, inl, inr, true, false, not, ◌&&◌, none, some,
  List, arith, leb, ◌==?◌, if◌then◌else◌, length, is_empty, ok, >>=-eq-ok, ok_or->>=-eq-ok,
  guard->>=-eq-ok, ok-injective,
}
use minicore_agent.Patch.{failed, invalid_invocation, SourceLine, add_usize, sub_usize}
use minicore_agent.Unified.Counts.{if-split, old_lines}
use minicore_agent.Codex.{CodexLocator, range, anchor, CodexHunk}
use minicore_agent.Codex.Locate.{find_unique_codex_anchor, locate_codex_hunk}
use minicore_agent.Codex.Locate.Places.{
  Placed, find_unique_codex_anchor-line, locate_codex_hunk-Placed,
}
use minicore_agent.Codex.Resolve.{Resolution, locate_header, check_new_index, move_to, locate_hunk}
use minicore_agent.Codex.Resolve.Marks.{old_contents}
use minicore_agent.Codex.Resolve.Counts.{add_usize-sum, sub_usize-diff, old_contents-length}

true≢false : true ≢ false
true≢false e = cc

module _ (source : List SourceLine) where
  -- What `move_to` makes of the state.
  move_to-ok :
      (start visits : ℕ) (state : Resolution) {moved : Resolution}
      → move_to start visits state ≡ ok moved
      → (state.source_cursor ≤ start)
        × (moved.source_cursor ≡ start)
        × (moved.output_cursor ≡ state.output_cursor + (start - state.source_cursor))
  unfolding move_to
  move_to-ok start visits state h =
      let (skipped, s, h1) = >>=-eq-ok (sub_usize start state.source_cursor) _ h in
      let (output, o, h2) = >>=-eq-ok (add_usize state.output_cursor skipped) _ h1 in
      let d = sub_usize-diff start state.source_cursor s in
      let e = (add_usize-sum state.output_cursor skipped o).0 in
      subst
        (λ m.
          (state.source_cursor ≤ start)
          × (m.source_cursor ≡ start)
          × (m.output_cursor ≡ state.output_cursor + (start - state.source_cursor)))
        (ok-injective h2) (omega (arith, d), refl, omega (arith, d, e))

  locate_header-within :
      (locator : CodexLocator) (cursor visits : ℕ) {r : ℕ × ℕ}
      → locate_header locator source cursor visits ≡ ok r
      → r.0 ≤ length source
  unfolding locate_header
  locate_header-within (range old new) cursor visits h = cc
  locate_header-within (anchor none) cursor visits h = cc
  locate_header-within (anchor (some text)) cursor visits h =
      let (anchored, a, h1) = >>=-eq-ok (find_unique_codex_anchor source cursor text visits) _ h in
      let (line, l, h2) = ok_or->>=-eq-ok anchored.0 failed _ h1 in
      let (after, within) = find_unique_codex_anchor-line source cursor text visits a l in
      subst (λ x. x.0 ≤ length source) (ok-injective h2) (omega (arith, within))

  located-within :
      (hunk : CodexHunk) (old_count new_count : ℕ) (state : Resolution) {r : ℕ × ℕ}
      → old_count ≡ old_lines hunk.contents
      → (if is_empty hunk.contents
          then locate_header hunk.locator source state.source_cursor state.match_visits
          else locate_codex_hunk hunk.locator
              (old_contents hunk.contents)
              old_count
              new_count
              hunk.end_of_file
              source
              state.source_cursor
              state.match_visits)
        ≡ ok r
      → (r.0 ≤ length source)
        × (is_empty hunk.contents ≡ false → Placed (old_contents hunk.contents) source r.0)
  located-within hunk old_count new_count state n h =
      elim (if-split (is_empty hunk.contents) _ _ h) [
        | inl (e, h1) ↦ (
          locate_header-within hunk.locator state.source_cursor state.match_visits h1,
          λ f. absurd (true≢false (sym e ∙ f)),
        )
        | inr (e, h1) ↦
            let p =
              locate_codex_hunk-Placed hunk.locator (old_contents hunk.contents) old_count new_count
                hunk.end_of_file source state.source_cursor state.match_visits
                (old_contents-length hunk.contents ∙ sym n) h1 in
            (omega (arith, p.room), λ f. p)
      ]

  -- A hunk with contents is moved to where its old lines stand, one without to a line of the source.
  pub locate_hunk-ok :
      (hunk : CodexHunk) (old_count new_count : ℕ) (state : Resolution) {moved : Resolution}
      → old_count ≡ old_lines hunk.contents
      → locate_hunk source hunk old_count new_count state ≡ ok moved
      → (state.source_cursor ≤ moved.source_cursor)
        × (moved.source_cursor ≤ length source)
        × (moved.output_cursor ≡ state.output_cursor + (moved.source_cursor - state.source_cursor))
        × (is_empty hunk.contents ≡ false
            → Placed (old_contents hunk.contents) source moved.source_cursor)
  unfolding locate_hunk
  locate_hunk-ok hunk old_count new_count state {moved} n h =
      let (located, l, h1) = >>=-eq-ok _ _ h in
      let (at, h2) =
        guard->>=-eq-ok
          (leb state.source_cursor located.0
            && not (not (is_empty hunk.contents) && (state.previous_start ==? located.0)))
          invalid_invocation _ h1 in
      let (checked, c, h3) = >>=-eq-ok (check_new_index hunk.locator located.0 state) _ h2 in
      let (after, start, output) = move_to-ok located.0 located.1 state h3 in
      let (within, placed) = located-within hunk old_count new_count state n l in
      (
        omega (arith, after, start),
        omega (arith, within, start),
        omega (arith, output, start),
        λ e. subst (Placed (old_contents hunk.contents) source) (sym start) (placed e),
      )
