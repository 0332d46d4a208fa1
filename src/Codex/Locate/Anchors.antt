-- ===== src/Codex/Locate/Anchors.antt =====
-- `find_unique_codex_anchor` against a look at every line of the source.
use minicore_agent.Prelude.{
  ℕ, zero, suc, ◌+◌, ◌-◌, ◌≤◌, ◌<◌, ◌≡◌, refl, sym, ap, subst, ◌∙◌, ◌≢◌, ◌⊎◌, inl, inr, true, false,
  Option, none, some, List, [], ◌∷◌, arith, if◌then◌else◌, Bool-cases, length, drop, length-drop,
  ok, err, is_some,
}
use minicore_agent.Prelude.Bytes.{Bytes}
use minicore_agent.Patch.{invalid_invocation, SourceLine}
use minicore_agent.Unified.{Parse}
use minicore_agent.Codex.Locate.{has_text, anchor_loop, find_unique_codex_anchor}
use minicore_agent.Codex.Search.{max_codex_match_visits}
use minicore_agent.Codex.Search.Matches.{line_text, line_text-drop}
use minicore_agent.Codex.Search.Scans.{Found, Found-skips, Found-new, Found-second, Two}
use minicore_agent.Codex.Search.Unique.{visit-cases}

-- The text stands in line `j`.
abbrev pub Mentions : Bytes → List SourceLine → ℕ → Type 0
Mentions text source j = has_text text (line_text source j) ≡ true

false≢true : false ≢ true
false≢true e = cc

at-end : (i n : ℕ) → i + 0 ≡ n → i ≡ n
at-end i n h = omega (arith, h)

plus-zero : (i : ℕ) → i ≡ i + 0
plus-zero i = omega arith

shift : (i k : ℕ) → i + 1 + k ≡ i + suc k
shift i k = omega arith

module _ (text : Bytes) (source : List SourceLine) (start : ℕ) where
  -- A line found is the only one that mentions the text; without one, none does. An error needs two of
  -- them, or more visits than the limit.
  abbrev pub Anchored : (visits : ℕ) → Parse (Option ℕ × ℕ) → Type 0
  Anchored visits (ok (found, v)) =
      Found (Mentions text source) 1 start (length source) found × (v ≡ visits)
  Anchored visits (err e) =
      (max_codex_match_visits < visits) ⊎ Two (Mentions text source) 1 start (length source)

  at-index : (i j : ℕ) → j + 1 ≡ i + 1 → Mentions text source j → Mentions text source i
  at-index i j e m = let same : j ≡ i = omega (arith, e) in subst (Mentions text source) same m

  Mentions-here :
      (i : ℕ) (t : Bytes) → line_text source i ≡ t → has_text text t ≡ true → Mentions text source i
  Mentions-here i t here m = ap (has_text text) here ∙ m

  not-here :
      (i : ℕ) (t : Bytes)
      → line_text source i ≡ t
      → has_text text t ≡ false
      → (j : ℕ) → start ≤ j
      → j + 1 ≡ i + 1
      → ¬ Mentions text source j
  not-here i t here n j s e m =
      false≢true (sym n ∙ sym (ap (has_text text) here) ∙ at-index i j e m)

  mentioned :
      (i visits : ℕ) (found : Option ℕ) (line : SourceLine) (lines : List SourceLine)
      → start ≤ i
      → i + suc (length lines) ≡ length source
      → Mentions text source i
      → Found (Mentions text source) 1 start i found
      → ((next : Option ℕ)
          → Found (Mentions text source) 1 start (i + 1) next
          → Anchored
              (visits + suc (length lines))
              (anchor_loop text (i + 1) (visits + 1) next lines))
      → Anchored (visits + suc (length lines)) (
          if is_some found
          then err invalid_invocation
          else anchor_loop text (i + 1) (visits + 1) (some i) lines)
  mentioned i visits none line lines s l m f later =
      later (some i) (Found-new (Mentions text source) 1 start i i s refl m f)
  mentioned i visits (some d) line lines s l m f later = inr (
      Found-second (Mentions text source) 1 start i (length source) i d refl (omega (arith, l)) m f)

  anchor_loop-Anchored :
      (i visits : ℕ) (found : Option ℕ) (lines : List SourceLine)
      → start ≤ i
      → i + length lines ≡ length source
      → ((k : ℕ) → k < length lines → line_text source (i + k) ≡ line_text lines k)
      → Found (Mentions text source) 1 start i found
      → Anchored (visits + length lines) (anchor_loop text i visits found lines)
  unfolding anchor_loop
  anchor_loop-Anchored i visits found [] s l same f =
      (subst (λ n. Found (Mentions text source) 1 start n found) (at-end i _ l) f, omega arith)
  anchor_loop-Anchored i visits found (line ∷ lines) s l same f = elim (visit-cases visits) [
    | inr (e, refused, over) ↦ rw refused (inl (omega (arith, over)))
    | inl visited ↦
        let here = ap (line_text source) (plus-zero i) ∙ same 0 (omega arith) in
        let later : (next : Option ℕ)
            → Found (Mentions text source) 1 start (i + 1) next
            → Anchored (visits + suc (length lines))
                (anchor_loop text (i + 1) (visits + 1) next lines) =
          λ next f.
            subst (λ n. Anchored n (anchor_loop text (i + 1) (visits + 1) next lines))
              (shift visits (length lines))
              (anchor_loop-Anchored (i + 1) (visits + 1) next lines (omega (arith, s))
                (omega (arith, l))
                (λ k lt. ap (line_text source) (shift i k) ∙ same (suc k) (omega (arith, lt))) f) in
        rw visited (elim (Bool-cases (has_text text line.text)) [
          | inl m ↦
              rw m
                (mentioned i visits found line lines s l (Mentions-here i line.text here m) f later)
          | inr n ↦ rw n (
              later found (
                Found-skips (Mentions text source) 1 start i found (not-here i line.text here n) f))
        ])
  ]

drop-beyond : (n : ℕ) (lines : List SourceLine) → length lines ≤ n → drop n lines ≡ []
drop-beyond zero [] l = refl
drop-beyond zero (line ∷ lines) l = absurd (omega (arith, l))
drop-beyond (suc n) [] l = refl
drop-beyond (suc n) (line ∷ lines) l = drop-beyond n lines (omega (arith, l))

sides : (a b : ℕ) → (a ≤ b) ⊎ (b < a)
sides a b = omega arith

none-Found : (P : ℕ → Type 0) (start : ℕ) → Found P 1 start start none
unfolding Found
none-Found P start = λ j s l. absurd (omega (arith, s, l))

beyond-Found : (P : ℕ → Type 0) (start n : ℕ) → n < start → Found P 1 start n none
unfolding Found
beyond-Found P start n h = λ j s l. absurd (omega (arith, s, l, h))

-- The search of an anchor gives a line from the start on only if it contains the text and no other such
-- line does, and none only if no line does; it fails only if two lines do, or more lines
-- would be visited than the limit allows. What it adds to the visits is the number of lines looked at.
pub find_unique_codex_anchor-Anchored :
    (source : List SourceLine) (start : ℕ) (text : Bytes) (visits : ℕ)
    → Anchored text source start
        (visits + (length source - start))
        (find_unique_codex_anchor source start text visits)
unfolding find_unique_codex_anchor anchor_loop
find_unique_codex_anchor-Anchored source start text visits = elim (sides start (length source)) [
  | inl l ↦
      subst
        (λ n.
          Anchored text source start (visits + n)
            (find_unique_codex_anchor source start text visits))
        (length-drop start source)
        (anchor_loop-Anchored text source start start visits none (drop start source) (omega arith)
          (omega (arith, l, length-drop start source)) (λ k lt. sym (line_text-drop start k source))
          (none-Found _ start))
  | inr l ↦
      rw (drop-beyond start source (omega (arith, l))) (beyond-Found _ start _ l, omega (arith, l))
]
