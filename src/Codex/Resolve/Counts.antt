-- ===== src/Codex/Resolve/Counts.antt =====
-- The counts and the ranges of a Codex hunk.
use minicore_agent.Prelude.{
  ℕ, ◌+◌, ◌<◌, ◌≡◌, refl, subst, inl, inr, List, [], ◌∷◌, arith, length, ok, >>=-eq-ok,
  ok-injective,
}
use minicore_agent.Patch.{PatchContent, HunkRange, add_usize, sub_usize, delta, usize_limit}
use minicore_agent.Patch.Replaces.{kind-cases}
use minicore_agent.Unified.Counts.{old_lines, new_lines, IsRange}
use minicore_agent.Codex.{codex_content_counts}
use minicore_agent.Codex.Resolve.{make_hunk_range}
use minicore_agent.Codex.Resolve.Marks.{old_contents}

pub add_usize-sum : (a b : ℕ) {c : ℕ} → add_usize a b ≡ ok c → (c ≡ a + b) × (c < usize_limit)
unfolding add_usize
add_usize-sum a b h = (ground arith, ground arith)

pub sub_usize-diff : (a b : ℕ) {c : ℕ} → sub_usize a b ≡ ok c → c + b ≡ a
unfolding sub_usize
sub_usize-diff a b h = ground arith

-- The lines that a hunk stands for.
codex_content_counts-lines :
    (old new : ℕ) (contents : List PatchContent) {r : ℕ × ℕ}
    → codex_content_counts old new contents ≡ ok r
    → (r.0 ≡ old + old_lines contents) × (r.1 ≡ new + new_lines contents)
unfolding codex_content_counts
codex_content_counts-lines old new [] h =
    subst (λ r. (r.0 ≡ old + 0) × (r.1 ≡ new + 0)) (ok-injective h) (omega arith, omega arith)
codex_content_counts-lines old new (content ∷ contents) h =
    let (old', o, h1) = >>=-eq-ok (add_usize old ((delta content.kind).0)) _ h in
    let (new', n, h2) = >>=-eq-ok (add_usize new ((delta content.kind).1)) _ h1 in
    let (a, b) = codex_content_counts-lines old' new' contents h2 in
    let p = (add_usize-sum old ((delta content.kind).0) o).0 in
    let q = (add_usize-sum new ((delta content.kind).1) n).0 in
    (omega (arith, a, p), omega (arith, b, q))

pub codex_content_counts-from_zero :
    (contents : List PatchContent) {r : ℕ × ℕ}
    → codex_content_counts 0 0 contents ≡ ok r
    → (r.0 ≡ old_lines contents) × (r.1 ≡ new_lines contents)
codex_content_counts-from_zero contents h =
    let (a, b) = codex_content_counts-lines 0 0 contents h in (omega (arith, a), omega (arith, b))

pub old_contents-length :
    (contents : List PatchContent) → length (old_contents contents) ≡ old_lines contents
old_contents-length [] = refl
old_contents-length (content ∷ contents) =
    let rest = old_contents-length contents in
    elim (kind-cases content.kind) [
      | inl k ↦ rw k (omega (arith, rest))
      | inr (inl k) ↦ rw k (omega (arith, rest))
      | inr (inr k) ↦ rw k (omega (arith, rest))
    ]

pub make_hunk_range-ok :
    (index count : ℕ) {r : HunkRange}
    → make_hunk_range index count ≡ ok r
    → (r.index ≡ index) × (r.count ≡ count) × IsRange r
unfolding make_hunk_range
make_hunk_range-ok index count h =
    let (end, e, h1) = >>=-eq-ok (add_usize index count) _ h in
    subst (λ r. (r.index ≡ index) × (r.count ≡ count) × IsRange r) (ok-injective h1)
      (refl, refl, add_usize-sum index count e)
