-- ===== src/Patch/Soundness.antt =====
-- `apply_resolved_hunks` against what a patch means.
use minicore_agent.Prelude.{
  ℕ, ◌+◌, ◌-◌, ◌≤◌, ◌≡◌, refl, sym, ap, subst, ◌∙◌, Bool, true, false, ◌&&◌, List, [], ◌∷◌, ◌++◌,
  append-nil, append_assoc, arith, leb, ◌==◌, ==_iff, length, drop, all, ok, >>=-eq-ok,
  guard->>=-eq-ok, ok-injective,
}
use minicore_agent.Prelude.Bytes.{Bytes}
use minicore_agent.Patch.{
  failed, invalid_invocation, internal, LineEnding, SourceLine, ResolvedHunk, Ends, builder_new,
  Cursor, max_patch_bytes, copy_lines, apply_contents, apply_hunk, apply_hunks,
  apply_resolved_hunks, preferred_line_ending,
}
use minicore_agent.Patch.Lines.{render}
use minicore_agent.Patch.Moves.{
  Follows, Extends, Moves, Moves-append, Extends-append, copy_lines-Moves,
}
use minicore_agent.Patch.Replaces.{ReplacesAll, apply_contents-Moves}

-- The result `out` of hunks on the lines `src`, which start at line `o` of the source and `n` of the
-- result: the lines between the hunks are kept, those of a hunk replaced, and the hunk's ranges say
-- where its lines stand in both.
pub data Patched (preferred : LineEnding)
    : ℕ → ℕ → List ResolvedHunk → List SourceLine → List SourceLine → Type 0 where
  patched_rest : (o n : ℕ) (kept : List SourceLine) → Patched preferred o n [] kept kept
  patched_hunk :
      (o n : ℕ) (hunk : ResolvedHunk) (hunks : List ResolvedHunk)
      (kept old new src out : List SourceLine)
      → hunk.old.index ≡ o + length kept
      → hunk.new.index ≡ n + length kept
      → ReplacesAll preferred hunk.contents old new
      → hunk.old.end ≡ hunk.old.index + length old
      → hunk.new.end ≡ hunk.new.index + length new
      → Patched preferred hunk.old.end hunk.new.end hunks src out
      → Patched preferred o n (hunk ∷ hunks) (kept ++ (old ++ src)) (kept ++ (new ++ out))

-- What a hunk that applies has done: `kept` copied, then `old` replaced by `new`.
record Applied (source : List SourceLine) (preferred : LineEnding) (hunk : ResolvedHunk)
    (c d : Cursor) : Type 0 where
  kept : List SourceLine
  old : List SourceLine
  new : List SourceLine
  old_index : hunk.old.index ≡ c.at + length kept
  new_index : hunk.new.index ≡ c.builder.line_count + length kept
  replaced : ReplacesAll preferred hunk.contents old new
  old_end : hunk.old.end ≡ hunk.old.index + length old
  new_end : hunk.new.end ≡ hunk.new.index + length new
  moves : Moves source c (kept ++ old) (kept ++ new) d
  old_at : d.at ≡ hunk.old.end
  new_at : d.builder.line_count ≡ hunk.new.end

&&-true : (a b : Bool) → (a && b) ≡ true → (a ≡ true) × (b ≡ true)
&&-true true b h = (refl, h)
&&-true false b h = cc

both-eq : (a b c d : ℕ) → ((a == b) && (c == d)) ≡ true → (a ≡ b) × (c ≡ d)
both-eq a b c d h = let (x, y) = &&-true _ _ h in ((==_iff a b).0 x, (==_iff c d).0 y)

apply_hunk-Applied :
    (source : List SourceLine) (preferred : LineEnding) (hunk : ResolvedHunk) (ends : Ends)
    (c e : Cursor)
    → apply_hunk source preferred hunk ends c ≡ ok e
    → Applied source preferred hunk c e
unfolding apply_hunk
apply_hunk-Applied source preferred hunk ends c e h =
    let (ordered, h1) =
      guard->>=-eq-ok
        (leb ends.previous_old_end hunk.old.index && leb ends.previous_new_end hunk.new.index)
        invalid_invocation _ h in
    let (d, copied, h2) = >>=-eq-ok (copy_lines (hunk.old.index - c.at) source c) _ h1 in
    let (starts, h3) =
      guard->>=-eq-ok ((d.at == hunk.old.index) && (d.builder.line_count == hunk.new.index)) failed
        _ h2 in
    let (x, applied, h4) = >>=-eq-ok (apply_contents source preferred hunk.contents d) _ h3 in
    let (stops, h5) =
      guard->>=-eq-ok ((x.at == hunk.old.end) && (x.builder.line_count == hunk.new.end)) failed _
        h4 in
    let (kept, many, m) = copy_lines-Moves (hunk.old.index - c.at) source c d copied in
    let (old, new, r, ms) = apply_contents-Moves source preferred hunk.contents d x applied in
    let (oi, ni) = both-eq d.at hunk.old.index d.builder.line_count hunk.new.index starts in
    let (oe, ne) = both-eq x.at hunk.old.end x.builder.line_count hunk.new.end stops in
    subst (Applied source preferred hunk c) (ok-injective h5) record {
      kept = kept;
      old = old;
      new = new;
      old_index = omega (arith, oi, m.moved);
      new_index = omega (arith, ni, m.built.count);
      replaced = r;
      old_end = omega (arith, oe, oi, ms.moved);
      new_end = omega (arith, ne, ni, ms.built.count);
      moves = Moves-append source c d x kept kept old new m ms;
      old_at = oe;
      new_at = ne;
    }

drop-length : (ls : List SourceLine) → drop (length ls) ls ≡ []
drop-length [] = refl
drop-length (l ∷ ls) = drop-length ls

Rest : List SourceLine → LineEnding → List ResolvedHunk → Cursor → Cursor → Type 0
Rest source preferred hunks c e =
    (out : List SourceLine) × Patched preferred c.at c.builder.line_count hunks (drop c.at source)
      out
    × Extends c.builder out e.builder

Applied-Patched :
    (source : List SourceLine) (preferred : LineEnding) (hunk : ResolvedHunk)
    (hunks : List ResolvedHunk) (c x : Cursor) (a : Applied source preferred hunk c x)
    (out : List SourceLine)
    → Patched preferred x.at x.builder.line_count hunks (drop x.at source) out
    → Patched preferred c.at c.builder.line_count
        (hunk ∷ hunks)
        (drop c.at source)
        (a.kept ++ (a.new ++ out))
Applied-Patched source preferred hunk hunks c x a out p =
    let taken : a.kept ++ (a.old ++ drop x.at source) ≡ drop c.at source =
      sym (append_assoc a.kept a.old (drop x.at source)) ∙ sym (a.moves.taken) in
    let q =
      subst (λ n. Patched preferred n x.builder.line_count hunks (drop x.at source) out) a.old_at
        p in
    let q' =
      subst (λ n. Patched preferred hunk.old.end n hunks (drop x.at source) out) a.new_at q in
    subst
      (λ r. Patched preferred c.at c.builder.line_count (hunk ∷ hunks) r (a.kept ++ (a.new ++ out)))
      taken
      (patched_hunk _ _ hunk hunks a.kept a.old a.new (drop x.at source) out a.old_index a.new_index
        a.replaced a.old_end a.new_end q')

Applied-Extends :
    (source : List SourceLine) (preferred : LineEnding) (hunk : ResolvedHunk) (c x e : Cursor)
    (a : Applied source preferred hunk c x) (out : List SourceLine)
    → Extends x.builder out e.builder
    → Extends c.builder (a.kept ++ (a.new ++ out)) e.builder
Applied-Extends source preferred hunk c x e a out b =
    subst (λ ls. Extends c.builder ls e.builder) (append_assoc a.kept a.new out)
      (Extends-append c.builder x.builder e.builder (a.kept ++ a.new) out a.moves.built b)

apply_hunks-Patched :
    (source : List SourceLine) (preferred : LineEnding) (hunks : List ResolvedHunk) (ends : Ends)
    (c d e : Cursor)
    → apply_hunks source preferred hunks ends c ≡ ok d
    → copy_lines (length source - d.at) source d ≡ ok e
    → e.at ≡ length source
    → Rest source preferred hunks c e
unfolding apply_hunks Rest
apply_hunks-Patched source preferred [] ends c d e h k z =
    let k' =
      subst (λ x. copy_lines (length source - x.at) source x ≡ ok e) (sym (ok-injective h)) k in
    let (kept, many, m) = copy_lines-Moves (length source - c.at) source c e k' in
    let all : drop c.at source ≡ kept =
      m.taken
      ∙ ap (λ n. kept ++ drop n source) z
      ∙ ap (λ r. kept ++ r) (drop-length source)
      ∙ append-nil kept in
    (
      kept,
      subst (λ r. Patched preferred c.at c.builder.line_count [] r kept) (sym all)
          (patched_rest _ _ kept),
      m.built,
    )
apply_hunks-Patched source preferred (hunk ∷ hunks) ends c d e h k z =
    let (x, h1, h2) = >>=-eq-ok (apply_hunk source preferred hunk ends c) _ h in
    let a = apply_hunk-Applied source preferred hunk ends c x h1 in
    let (out, p, b) = apply_hunks-Patched source preferred hunks _ x d e h2 k z in
    (
      a.kept ++ (a.new ++ out),
      Applied-Patched source preferred hunk hunks c x a out p,
      Applied-Extends source preferred hunk c x e a out b,
    )

-- The result is what the hunks make of the source: every line of the source outside the hunks is
-- kept in its place, a hunk's lines agree with the source's, its ranges name where its lines stand
-- in the source and in the result, and only the last line of the result can lack an ending. The
-- result is within the patch limit.
pub apply_resolved_hunks-Patched :
    (source : List SourceLine) (hunks : List ResolvedHunk) (v : Bytes)
    → apply_resolved_hunks source hunks ≡ ok v
    → (out : List SourceLine) × Patched (preferred_line_ending source) 0 0 hunks source out
      × (v ≡ render out)
      × (length v ≤ max_patch_bytes)
      × ((q : Bool) × Follows false out q)
unfolding apply_resolved_hunks Rest
apply_resolved_hunks-Patched source hunks v h =
    let preferred = preferred_line_ending source in
    let start : Cursor = record { at = 0; builder = builder_new } in
    let (c, h1, h2) =
      >>=-eq-ok
        (apply_hunks source preferred hunks (record { previous_old_end = 0; previous_new_end = 0 })
          start)
        _ h in
    let (d, h3, h4) = >>=-eq-ok (copy_lines (length source - c.at) source c) _ h2 in
    let (all, h5) = guard->>=-eq-ok (d.at == length source) internal _ h4 in
    let (out, p, b) =
      apply_hunks-Patched source preferred hunks _ start c d h1 h3 ((==_iff _ _).0 all) in
    let made : d.builder.value ≡ v = ok-injective h5 in
    (
      out,
      p,
      sym made ∙ b.value,
      subst (λ x. length x ≤ max_patch_bytes) made (b.bound (omega arith)),
      (d.builder.previous_had_no_newline, b.follows),
    )
