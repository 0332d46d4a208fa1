-- ===== src/Codex/Locate/Places.antt =====
-- The place that `locate_codex_hunk` gives a hunk.
use minicore_agent.Prelude.{
  ℕ, ◌+◌, ◌≤◌, ◌<◌, ◌≡◌, refl, ap, subst, ◌∙◌, inl, inr, Bool, true, not, ◌&&◌, Option, none, some,
  List, [], ◌∷◌, arith, leb, ◌==◌, ==_iff, length, ok, >>=-eq-ok, ok_or->>=-eq-ok, guard->>=-eq-ok,
  ok-injective,
}
use minicore_agent.Prelude.Bytes.{Bytes}
use minicore_agent.Patch.{
  failed, invalid_invocation, SourceLine, PatchContent, HunkRange, add_usize, checked_add,
  checked_sub,
}
use minicore_agent.Unified.Counts.{if-split}
use minicore_agent.Codex.{CodexLocator, range, anchor}
use minicore_agent.Codex.Locate.{
  find_unique_codex_anchor, locate_range, locate_end, match_start, locate_insertion, locate_match,
  locate_codex_hunk,
}
use minicore_agent.Codex.Locate.Anchors.{find_unique_codex_anchor-Anchored, Anchored}
use minicore_agent.Codex.Search.{
  contents_match, codex_contents_match_at, no_newline_offset, find_unique_codex_match,
}
use minicore_agent.Codex.Search.Finds.{Answers, find_unique_codex_match-Answers}
use minicore_agent.Codex.Search.Matches.{codex_contents_match_at_iff}
use minicore_agent.Codex.Search.Scans.{Found}

-- A place within the source where the old contents stand.
pub record Placed (old_contents : List PatchContent) (source : List SourceLine) (start : ℕ)
    : Type 0 where
  pub room : start + length old_contents ≤ length source
  pub matches : codex_contents_match_at old_contents source start ≡ true

add_usize-sum : (a b : ℕ) {c : ℕ} → add_usize a b ≡ ok c → c ≡ a + b
unfolding add_usize
add_usize-sum a b h = ground arith

checked_sub-diff : (a b : ℕ) {c : ℕ} → checked_sub a b ≡ some c → c + b ≡ a
checked_sub-diff a b h = ground arith

checked_add-sum : (a b : ℕ) {c : ℕ} → checked_add a b ≡ some c → c ≡ a + b
checked_add-sum a b h = ground arith

empty-Placed :
    (contents : List PatchContent) (source : List SourceLine) (start : ℕ)
    → length contents ≡ 0
    → start ≤ length source
    → Placed contents source start
unfolding codex_contents_match_at contents_match
empty-Placed [] source start z l = record { room = omega (arith, l); matches = refl }
empty-Placed (content ∷ contents) source start z l = absurd (omega (arith, z))

-- A line that holds an anchor is a line of the source from the start on.
anchor-line :
    (source : List SourceLine) (start : ℕ) (text : Bytes) (visits v j : ℕ)
    → find_unique_codex_anchor source start text visits ≡ ok (some j, v)
    → (start ≤ j) × (j + 1 ≤ length source)
unfolding Found
anchor-line source start text visits v j h =
    let f =
      subst (Anchored text source start _) h
        (find_unique_codex_anchor-Anchored source start text visits) in
    (f.0.0, f.0.1)

pub find_unique_codex_anchor-line :
    (source : List SourceLine) (start : ℕ) (text : Bytes) (visits : ℕ) {r : Option ℕ × ℕ} {j : ℕ}
    → find_unique_codex_anchor source start text visits ≡ ok r
    → r.0 ≡ some j
    → (start ≤ j) × (j + 1 ≤ length source)
find_unique_codex_anchor-line source start text visits {r} {j} h e =
    anchor-line source start text visits r.1 j (h ∙ ap (λ x. ok (x, r.1)) e)

locate_range-Placed :
    (old new : HunkRange) (contents : List PatchContent) (old_count new_count : ℕ)
    (end_of_file : Bool) (source : List SourceLine) {start : ℕ}
    → length contents ≡ old_count
    → locate_range old new contents old_count new_count end_of_file source ≡ ok start
    → Placed contents source start
unfolding locate_range
locate_range-Placed old new contents old_count new_count end_of_file source n h =
    let (counts, h1) =
      guard->>=-eq-ok ((old.count == old_count) && (new.count == new_count)) invalid_invocation _
        h in
    let (end, e, h2) = >>=-eq-ok (add_usize old.index old.count) _ h1 in
    let (within, h3) =
      guard->>=-eq-ok (leb end (length source) && not (end_of_file && not (end == length source)))
        failed _ h2 in
    let (m, h4) = guard->>=-eq-ok (codex_contents_match_at contents source old.index) failed _ h3 in
    let sum = add_usize-sum old.index old.count e in
    let same : old.count ≡ old_count = ground (arith, counts) in
    let fits : end ≤ length source = ground (arith, within) in
    subst (Placed contents source) (ok-injective h4)
      (record { room = omega (arith, sum, same, fits, n); matches = m })

locate_end-Placed :
    (contents : List PatchContent) (old_count : ℕ) (source : List SourceLine) {start : ℕ}
    → length contents ≡ old_count
    → locate_end contents old_count source ≡ ok start
    → Placed contents source start
unfolding locate_end
locate_end-Placed contents old_count source n h =
    let (start, s, h1) = ok_or->>=-eq-ok (checked_sub (length source) old_count) failed _ h in
    let (m, h2) = guard->>=-eq-ok (codex_contents_match_at contents source start) failed _ h1 in
    subst (Placed contents source) (ok-injective h2) (record {
      room = omega (arith, checked_sub-diff (length source) old_count s, n);
      matches = m;
    })

locate_insertion-Placed :
    (a : Option Bytes) (contents : List PatchContent) (source : List SourceLine)
    (search_start visits : ℕ) {r : ℕ × ℕ}
    → length contents ≡ 0
    → locate_insertion a source search_start visits ≡ ok r
    → Placed contents source r.0
unfolding locate_insertion
locate_insertion-Placed none contents source search_start visits n h = cc
locate_insertion-Placed (some text) contents source search_start visits n h =
    let (anchored, a, h1) =
      >>=-eq-ok (find_unique_codex_anchor source search_start text visits) _ h in
    let (line, l, h2) = ok_or->>=-eq-ok anchored.0 failed _ h1 in
    let (start, s, h3) = ok_or->>=-eq-ok (checked_add line 1) invalid_invocation _ h2 in
    let (after, within) = find_unique_codex_anchor-line source search_start text visits a l in
    let sum = checked_add-sum line 1 s in
    subst (λ x. Placed contents source x.0) (ok-injective h3)
      (empty-Placed contents source start n (omega (arith, sum, within)))

found-Placed :
    (content : PatchContent) (pattern : List PatchContent) (source : List SourceLine)
    (start visits : ℕ) (v c : ℕ)
    → find_unique_codex_match (content ∷ pattern) source start visits ≡ ok (some c, v)
    → (start ≤ c) × Placed (content ∷ pattern) source c
unfolding find_unique_codex_match
found-Placed content pattern source start visits v c h =
    let (offset, o, h1) = >>=-eq-ok (no_newline_offset 0 none (content ∷ pattern)) _ h in
    let (charged, l, matches, unique) =
      subst (Answers (content ∷ pattern) source start _) h
        (find_unique_codex_match-Answers content pattern source start visits offset o) in
    let m = (codex_contents_match_at_iff (content ∷ pattern) source c).0 matches in
    (l, record { room = omega (arith, m.in_range); matches = matches })

locate_match-Placed :
    (a : Option Bytes) (contents : List PatchContent) (source : List SourceLine)
    (search_start visits : ℕ) {r : ℕ × ℕ}
    → locate_match a contents source search_start visits ≡ ok r
    → 0 < length contents
    → Placed contents source r.0
unfolding locate_match
locate_match-Placed a [] source search_start visits h n = absurd (omega (arith, n))
locate_match-Placed a (content ∷ contents) source search_start visits h n =
    let (from, f, h1) = >>=-eq-ok (match_start a source search_start visits) _ h in
    let (found, g, h2) =
      >>=-eq-ok (find_unique_codex_match (content ∷ contents) source from.0 from.1) _ h1 in
    let (start, s, h3) = ok_or->>=-eq-ok found.0 failed _ h2 in
    let placed =
      found-Placed content contents source from.0 from.1 found.1 start
        (g ∙ ap (λ x. ok (x, found.1)) s) in
    subst (λ x. Placed (content ∷ contents) source x.0) (ok-injective h3) placed.1

-- A hunk that is located stands within the source, and its old lines are the source's lines there, whether it
-- was found by its range, at the end of the file, by its anchor or by its lines.
pub locate_codex_hunk-Placed :
    (locator : CodexLocator) (contents : List PatchContent) (old_count new_count : ℕ)
    (end_of_file : Bool) (source : List SourceLine) (search_start visits : ℕ) {r : ℕ × ℕ}
    → length contents ≡ old_count
    → locate_codex_hunk locator contents old_count new_count end_of_file source search_start visits
      ≡ ok r
    → Placed contents source r.0
unfolding locate_codex_hunk
locate_codex_hunk-Placed (range old new) contents old_count new_count end_of_file source
      search_start visits n h =
    let (start, p, h1) =
      >>=-eq-ok (locate_range old new contents old_count new_count end_of_file source) _ h in
    subst (λ x. Placed contents source x.0) (ok-injective h1)
      (locate_range-Placed old new contents old_count new_count end_of_file source n p)
locate_codex_hunk-Placed (anchor a) contents old_count new_count end_of_file source search_start
      visits n h =
    elim (if-split end_of_file _ _ h) [
      | inl (at_end, h1) ↦
          let (start, p, h2) = >>=-eq-ok (locate_end contents old_count source) _ h1 in
          subst (λ x. Placed contents source x.0) (ok-injective h2)
            (locate_end-Placed contents old_count source n p)
      | inr (inside, h1) ↦ elim (if-split (old_count == 0) _ _ h1) [
        | inl (z, h2) ↦
            locate_insertion-Placed a contents source search_start visits
              (n ∙ (==_iff old_count 0).0 z) h2
        | inr (nz, h2) ↦
            locate_match-Placed a contents source search_start visits h2 (ground (arith, nz, n))
      ]
    ]
