-- ===== src/Codex/Resolve/Hunks.antt =====
-- The hunks of a Codex patch resolve to a patch of the source.
use minicore_agent.Prelude.{
  ℕ, ◌≤◌, ◌≡◌, sym, subst, ◌∙◌, inl, inr, Bool, false, not, ◌&&◌, Option, none, some, List, [], ◌∷◌,
  arith, if◌then◌else◌, length, drop, is_empty, ok, ◌>>=◌, >>=-eq-ok, guard->>=-eq-ok, ok-injective,
}
use minicore_agent.Prelude.Bytes.{Bytes}
use minicore_agent.Patch.{
  invalid_invocation, LineEnding, SourceLine, PatchContent, HunkRange, ResolvedHunk, add_usize,
  preferred_line_ending,
}
use minicore_agent.Patch.Soundness.{Patched, patched_rest}
use minicore_agent.Unified.Counts.{if-split, old_lines, new_lines, IsRange, IsHunk, AreHunks}
use minicore_agent.Codex.{CodexHunk, parse_codex_patch, codex_content_counts}
use minicore_agent.Codex.Locate.Places.{Placed}
use minicore_agent.Codex.Search.{codex_contents_match_at}
use minicore_agent.Codex.Resolve.{
  mark_codex_source_endings, make_hunk_range, Resolution, resolve_contents, locate_hunk,
  resolve_hunk, push, resolve_hunks, parse_and_resolve_codex_patch,
}
use minicore_agent.Codex.Resolve.Marks.{
  Fitting, SameCounts, old_contents, marked-Fitting, mark_result-Fitting,
}
use minicore_agent.Codex.Resolve.Counts.{
  add_usize-sum, codex_content_counts-from_zero, old_contents-length, make_hunk_range-ok,
}
use minicore_agent.Codex.Resolve.Joins.{Resolves, Resolves-from, Resolves-hunk}
use minicore_agent.Codex.Resolve.Moves.{locate_hunk-ok}

module _ (preferred : LineEnding) (source : List SourceLine) where
  -- A hunk resolved at the state's cursors, and the cursors after it.
  record Resolved (state : Resolution) (r : ResolvedHunk × Resolution) : Type 0 where
    old_index : r.0.old.index ≡ state.source_cursor
    new_index : r.0.new.index ≡ state.output_cursor
    is_hunk : IsHunk r.0
    fitting : Fitting preferred r.0.contents (drop state.source_cursor source)
    source_cursor : r.1.source_cursor ≡ r.0.old.end
    output_cursor : r.1.output_cursor ≡ r.0.new.end
    within : r.0.old.end ≤ length source

  IsHunk-marked :
      (old new : HunkRange) (contents marked finished : List PatchContent)
      → IsRange old
      → IsRange new
      → old.count ≡ old_lines contents
      → new.count ≡ new_lines contents
      → is_empty contents ≡ false
      → SameCounts contents marked
      → SameCounts marked finished
      → IsHunk (record { old = old; new = new; contents = finished })
  IsHunk-marked old new contents marked finished i j o n e c d = record {
    old_range = i;
    new_range = j;
    old_count = d.olds ∙ c.olds ∙ sym o;
    new_count = d.news ∙ c.news ∙ sym n;
    has_lines = d.nonempty ∙ c.nonempty ∙ e;
  }

  resolve_contents-ok :
      (is_last : Bool) (contents : List PatchContent) (old_count new_count : ℕ) (state : Resolution)
      {r : ResolvedHunk × Resolution}
      → old_count ≡ old_lines contents
      → new_count ≡ new_lines contents
      → is_empty contents ≡ false
      → Placed (old_contents contents) source state.source_cursor
      → resolve_contents source preferred is_last contents old_count new_count state ≡ ok r
      → Resolved state r
  unfolding resolve_contents codex_contents_match_at
  resolve_contents-ok is_last contents old_count new_count state n m e p h =
      let at = state.source_cursor in
      let (old_end, o, h1) = >>=-eq-ok (add_usize at old_count) _ h in
      let (marked, k, h2) =
        >>=-eq-ok (mark_codex_source_endings contents (drop at source) preferred) _ h1 in
      let (f, c) = marked-Fitting preferred contents (drop at source) k p.matches in
      let (g, d) =
        mark_result-Fitting preferred source (drop at source) is_last old_end new_count marked f in
      let (old, a, h3) = >>=-eq-ok (make_hunk_range at old_count) _ h2 in
      let (new, b, h4) = >>=-eq-ok (make_hunk_range state.output_cursor new_count) _ h3 in
      let (output, q, h5) = >>=-eq-ok (add_usize state.output_cursor new_count) _ h4 in
      let (oi, oc, old_range) = make_hunk_range-ok at old_count a in
      let (ni, nc, new_range) = make_hunk_range-ok state.output_cursor new_count b in
      let old_sum = (add_usize-sum at old_count o).0 in
      let new_sum = (add_usize-sum state.output_cursor new_count q).0 in
      subst (Resolved state) (ok-injective h5) (record {
        old_index = oi;
        new_index = ni;
        is_hunk =
            IsHunk-marked old new contents marked _ old_range new_range (oc ∙ n) (nc ∙ m) e c d;
        fitting = g;
        source_cursor = omega (arith, old_sum, old_range.0, oi, oc);
        output_cursor = omega (arith, new_sum, new_range.0, ni, nc);
        within = omega (arith, old_range.0, oi, oc, n, p.room, old_contents-length contents);
      })

  resolved-one :
      (hunk : CodexHunk) (is_last : Bool) (old_count new_count : ℕ) (moved : Resolution)
      {r : Option ResolvedHunk × Resolution} {rest : List ResolvedHunk}
      → old_count ≡ old_lines hunk.contents
      → new_count ≡ new_lines hunk.contents
      → moved.source_cursor ≤ length source
      → (is_empty hunk.contents ≡ false
          → Placed (old_contents hunk.contents) source moved.source_cursor)
      → (if is_empty hunk.contents
          then ok (none, moved)
          else (resolve_contents source preferred is_last hunk.contents old_count new_count moved
              >>= λ resolved. ok (some resolved.0, resolved.1)))
        ≡ ok r
      → (r.1.source_cursor ≤ length source
          → Resolves preferred source r.1.source_cursor r.1.output_cursor rest)
      → Resolves preferred source moved.source_cursor moved.output_cursor (push r.0 rest)
  resolved-one hunk is_last old_count new_count moved {r} {rest} o n l placed h later =
      elim (if-split (is_empty hunk.contents) _ _ h) [
        | inl (e, h1) ↦
            let same : ◌≡◌ {A = Option ResolvedHunk × Resolution} (none, moved) r =
              ok-injective h1 in
            subst
              (λ x.
                (x.1.source_cursor ≤ length source
                  → Resolves preferred source x.1.source_cursor x.1.output_cursor rest)
                → Resolves preferred source moved.source_cursor moved.output_cursor (push x.0 rest))
              same (λ f. f l) later
        | inr (e, h1) ↦
            let (resolved, h2, h3) =
              >>=-eq-ok
                (resolve_contents source preferred is_last hunk.contents old_count new_count moved)
                _ h1 in
            let here =
              resolve_contents-ok is_last hunk.contents old_count new_count moved o n e (placed e)
                h2 in
            let same : ◌≡◌ {A = Option ResolvedHunk × Resolution} (some resolved.0, resolved.1) r =
              ok-injective h3 in
            subst
              (λ x.
                (x.1.source_cursor ≤ length source
                  → Resolves preferred source x.1.source_cursor x.1.output_cursor rest)
                → Resolves preferred source moved.source_cursor moved.output_cursor (push x.0 rest))
              same
              (λ f.
                Resolves-hunk preferred source moved.source_cursor moved.output_cursor resolved.0
                  rest here.old_index here.new_index here.is_hunk here.fitting
                  (subst (λ k. Resolves preferred source k resolved.0.new.end rest)
                    here.source_cursor
                    (subst (λ k. Resolves preferred source resolved.1.source_cursor k rest)
                      here.output_cursor (f (omega (arith, here.source_cursor, here.within))))))
              later
      ]

  resolve_hunks-Resolves :
      (hunks : List CodexHunk) (state : Resolution) {resolved : List ResolvedHunk}
      → state.source_cursor ≤ length source
      → resolve_hunks source preferred hunks state ≡ ok resolved
      → Resolves preferred source state.source_cursor state.output_cursor resolved
  unfolding resolve_hunks resolve_hunk
  resolve_hunks-Resolves [] state l h =
      subst (Resolves preferred source state.source_cursor state.output_cursor) (ok-injective h)
        (record { out = _; patched = patched_rest _ _ _; ordered = tt })
  resolve_hunks-Resolves (hunk ∷ hunks) state l h =
      let (r, h1, h2) = >>=-eq-ok (resolve_hunk source preferred (is_empty hunks) hunk state) _ h in
      let (rest, h3, h4) = >>=-eq-ok (resolve_hunks source preferred hunks r.1) _ h2 in
      let (last_only, h5) =
        guard->>=-eq-ok (not (hunk.end_of_file && not (is_empty hunks))) invalid_invocation _ h1 in
      let (counts, c, h6) = >>=-eq-ok (codex_content_counts 0 0 hunk.contents) _ h5 in
      let (moved, m, h7) = >>=-eq-ok (locate_hunk source hunk counts.0 counts.1 state) _ h6 in
      let (olds, news) = codex_content_counts-from_zero hunk.contents c in
      let (after, within, output, placed) =
        locate_hunk-ok source hunk counts.0 counts.1 state olds m in
      subst (Resolves preferred source state.source_cursor state.output_cursor) (ok-injective h4) (
        Resolves-from preferred source state.source_cursor state.output_cursor moved.source_cursor
          moved.output_cursor _ after within output
          (resolved-one hunk (is_empty hunks) counts.0 counts.1 moved olds news within placed h7
            (λ k. resolve_hunks-Resolves hunks r.1 k h3)))

-- The hunks that a Codex patch resolves to are in order and do not overlap, count their lines, and fit the
-- source: there is a text that they make of it, each hunk's lines being the source's where its range says.
pub parse_and_resolve_codex_patch-Resolves :
    (path patch : Bytes) (source : List SourceLine) {hunks : List ResolvedHunk}
    → parse_and_resolve_codex_patch path patch source ≡ ok hunks
    → AreHunks 0 0 hunks
      × ((out : List SourceLine) × Patched (preferred_line_ending source) 0 0 hunks source out)
unfolding parse_and_resolve_codex_patch
parse_and_resolve_codex_patch-Resolves path patch source h =
    let (codex_hunks, p, h1) = >>=-eq-ok (parse_codex_patch path patch) _ h in
    let r =
      resolve_hunks-Resolves (preferred_line_ending source) source codex_hunks _ (omega arith) h1 in
    (r.ordered, (r.out, r.patched))
