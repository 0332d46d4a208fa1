-- ===== src/Codex/Resolve/Joins.antt =====
-- Resolved hunks put together to a patch of the source.
use minicore_agent.Prelude.{
  ℕ, zero, suc, ◌+◌, ◌-◌, ◌≤◌, ◌≡◌, refl, sym, ap, subst, ◌∙◌, List, [], ◌∷◌, ◌++◌, append_assoc,
  arith, length, take, drop, length-append, length-take, length-drop, take-append-drop,
}
use minicore_agent.Patch.{LineEnding, SourceLine, ResolvedHunk}
use minicore_agent.Patch.Soundness.{Patched, patched_rest, patched_hunk}
use minicore_agent.Unified.Counts.{IsHunk, AreHunks}
use minicore_agent.Codex.Resolve.Marks.{Fitting, ReplacesAll-lengths}

module _ (preferred : LineEnding) where
  -- Lines kept before the hunks.
  Patched-skips :
      (o n : ℕ) (hunks : List ResolvedHunk) (kept src out : List SourceLine)
      → Patched preferred (o + length kept) (n + length kept) hunks src out
      → Patched preferred o n hunks (kept ++ src) (kept ++ out)
  Patched-skips o n _ kept _ _ (patched_rest _ _ src) = patched_rest o n (kept ++ src)
  Patched-skips o n _ kept _ _ (patched_hunk _ _ hunk hunks kept' old new src out i j r e f rest) =
      rw (sym (append_assoc kept kept' (old ++ src)), sym (append_assoc kept kept' (new ++ out)))
        (patched_hunk o n hunk hunks (kept ++ kept') old new src out
          (omega (arith, i, length-append kept kept')) (omega (arith, j, length-append kept kept'))
          r e f rest)

zero-plus : (k : ℕ) → k ≡ 0 + k
zero-plus k = omega arith

suc-plus : (j k : ℕ) → suc (j + k) ≡ suc j + k
suc-plus j k = omega arith

drop-nil : {A : Type 0} (k : ℕ) → drop {A = A} k [] ≡ []
drop-nil zero = refl
drop-nil (suc k) = refl

drop-drop : {A : Type 0} (m n : ℕ) (xs : List A) → drop m (drop n xs) ≡ drop (n + m) xs
drop-drop m zero xs = ap (λ k. drop k xs) (zero-plus m)
drop-drop m (suc n) [] = drop-nil m ∙ sym (drop-nil (suc n + m))
drop-drop m (suc n) (x ∷ xs) = drop-drop m n xs ∙ ap (λ k. drop k (x ∷ xs)) (suc-plus n m)

drop-append : {A : Type 0} (xs ys : List A) → drop (length xs) (xs ++ ys) ≡ ys
drop-append [] ys = refl
drop-append (x ∷ xs) ys = drop-append xs ys

-- What hunks resolved from line `o` of the source and `n` of the result on are worth.
pub record Resolves (preferred : LineEnding) (source : List SourceLine) (o n : ℕ)
    (hunks : List ResolvedHunk) : Type 0 where
  pub out : List SourceLine
  pub patched : Patched preferred o n hunks (drop o source) out
  pub ordered : AreHunks o n hunks

AreHunks-from :
    (o n o' n' : ℕ) (hunks : List ResolvedHunk)
    → o ≤ o'
    → n ≤ n'
    → AreHunks o' n' hunks
    → AreHunks o n hunks
AreHunks-from o n o' n' [] l m h = tt
AreHunks-from o n o' n' (hunk ∷ hunks) l m (i, j, h, rest) =
    (omega (arith, i, l), omega (arith, j, m), h, rest)

module _ (preferred : LineEnding) (source : List SourceLine) where
  pub Resolves-from :
      (o n o' n' : ℕ) (hunks : List ResolvedHunk)
      → o ≤ o'
      → o' ≤ length source
      → n' ≡ n + (o' - o)
      → Resolves preferred source o' n' hunks
      → Resolves preferred source o n hunks
  Resolves-from o n o' n' hunks l within at h =
      let kept = take (o' - o) (drop o source) in
      let size : length kept ≡ o' - o =
        omega (arith, length-take (o' - o) (drop o source), length-drop o source, within, l) in
      let there : o' ≡ o + length kept = omega (arith, size, l) in
      let result : n' ≡ n + length kept = omega (arith, size, at) in
      let below : o + (o' - o) ≡ o' = omega (arith, l) in
      let later : drop (o' - o) (drop o source) ≡ drop o' source =
        drop-drop (o' - o) o source ∙ ap (λ k. drop k source) below in
      let split : kept ++ drop o' source ≡ drop o source =
        ap (λ x. kept ++ x) (sym later) ∙ take-append-drop (o' - o) (drop o source) in
      record {
        out = kept ++ h.out;
        patched =
            subst (λ src. Patched preferred o n hunks src (kept ++ h.out)) split
              (Patched-skips preferred o n hunks kept (drop o' source) h.out (
                subst (λ k. Patched preferred (o + length kept) k hunks (drop o' source) h.out)
                  result
                  (subst (λ k. Patched preferred k n' hunks (drop o' source) h.out) there
                    h.patched)));
        ordered = AreHunks-from o n o' n' hunks l (omega (arith, at)) h.ordered;
      }

  pub Resolves-hunk :
      (o n : ℕ) (hunk : ResolvedHunk) (hunks : List ResolvedHunk)
      → hunk.old.index ≡ o
      → hunk.new.index ≡ n
      → IsHunk hunk
      → Fitting preferred hunk.contents (drop o source)
      → Resolves preferred source hunk.old.end hunk.new.end hunks
      → Resolves preferred source o n (hunk ∷ hunks)
  Resolves-hunk o n hunk hunks i j is f h =
      let (olds, news) = ReplacesAll-lengths preferred hunk.contents f.old f.new f.replaced in
      let (old_end, old_fits) = is.old_range in
      let (new_end, new_fits) = is.new_range in
      let size : hunk.old.end ≡ o + length f.old = omega (arith, old_end, i, is.old_count, olds) in
      let rest : drop hunk.old.end source ≡ f.rest =
        ap (λ k. drop k source) size
        ∙ sym (drop-drop (length f.old) o source)
        ∙ ap (drop (length f.old)) f.split
        ∙ drop-append f.old f.rest in
      record {
        out = f.new ++ h.out;
        patched =
            subst (λ src. Patched preferred o n (hunk ∷ hunks) src (f.new ++ h.out))
              (ap (λ x. f.old ++ x) rest ∙ sym f.split)
              (patched_hunk o n hunk hunks [] f.old f.new (drop hunk.old.end source) h.out
                (omega (arith, i)) (omega (arith, j)) f.replaced
                (omega (arith, old_end, is.old_count, olds))
                (omega (arith, new_end, is.new_count, news)) h.patched);
        ordered = (omega (arith, i), omega (arith, j), is, h.ordered);
      }
