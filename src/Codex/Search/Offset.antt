-- ===== src/Codex/Search/Offset.antt =====
-- The one content of a pattern that marks the end of the old file.
use minicore_agent.Prelude.{
  ℕ, zero, suc, ◌+◌, ◌<◌, ◌≡◌, refl, sym, ap, subst, ◌∙◌, ◌≢◌, ◌↔◌, inl, inr, true, false, Option,
  none, some, List, [], ◌∷◌, arith, length, get_elem?, ok, ok-injective,
}
use minicore_agent.Patch.{no_ending, ending_eq, SourceLine, PatchContent}
use minicore_agent.Unified.Counts.{if-split}
use minicore_agent.Codex.Search.{no_newline_offset, ends_unterminated}
use minicore_agent.Codex.Search.Matches.{marked_at, unterminated_at}

-- `offset`, counted from `base`, is where the pattern is marked, and nowhere else.
pub record Only (pattern : List PatchContent) (base : ℕ) (offset : Option ℕ) : Type 0 where
  pub each :
      (k : ℕ) → k < length pattern → (marked_at pattern k ≡ true) ↔ (offset ≡ some (base + k))
  pub inside : (o : ℕ) → offset ≡ some o → (k : ℕ) × (k < length pattern) × (base + k ≡ o)

some-injective : {a b : ℕ} → some a ≡ some b → a ≡ b
some-injective h = cc

none≢some : {a : ℕ} → none ≢ some a
none≢some e = cc

get_elem?-unterminated :
    (source : List SourceLine) (i : ℕ)
    → elim (get_elem? source i) [ none ↦ false | some line ↦ ending_eq line.ending no_ending ]
      ≡ unterminated_at source i
get_elem?-unterminated [] i = refl
get_elem?-unterminated (line ∷ source) zero = refl
get_elem?-unterminated (line ∷ source) (suc i) = get_elem?-unterminated source i

true≢false : true ≢ false
true≢false e = cc

module _ (content : PatchContent) (pattern : List PatchContent) (base : ℕ) where
  unmarked-cons :
      content.old_no_newline ≡ false
      → ((k : ℕ) → k < length pattern → marked_at pattern k ≡ false)
      → (k : ℕ) → k < suc (length pattern)
      → marked_at (content ∷ pattern) k ≡ false
  unmarked-cons e h zero l = e
  unmarked-cons e h (suc k) l = h k (omega (arith, l))

  first-each :
      content.old_no_newline ≡ true
      → ((k : ℕ) → k < length pattern → marked_at pattern k ≡ false)
      → (k : ℕ) → k < suc (length pattern)
      → (marked_at (content ∷ pattern) k ≡ true) ↔ (some base ≡ some (base + k))
  first-each e h zero l = ((λ m. ap some (omega arith)), λ q. e)
  first-each e h (suc k) l = (
    (λ m. absurd (true≢false (sym m ∙ h k (omega (arith, l))))),
    λ q. absurd (omega (arith, some-injective q)),
  )

  later-each :
      (offset : Option ℕ)
      → content.old_no_newline ≡ false
      → Only pattern (base + 1) offset
      → (k : ℕ) → k < suc (length pattern)
      → (marked_at (content ∷ pattern) k ≡ true) ↔ (offset ≡ some (base + k))
  later-each offset e h zero l = (
    (λ m. absurd (true≢false (sym m ∙ e))),
    λ q. let (k, small, at) = h.inside (base + 0) q in absurd (omega (arith, at)),
  )
  later-each offset e h (suc k) l =
      let shifted : base + 1 + k ≡ base + suc k = omega arith in
      subst (λ n. (marked_at pattern k ≡ true) ↔ (offset ≡ some n)) shifted
        (h.each k (omega (arith, l)))

  Only-first :
      content.old_no_newline ≡ true
      → ((k : ℕ) → k < length pattern → marked_at pattern k ≡ false)
      → Only (content ∷ pattern) base (some base)
  Only-first e h = record {
    each = first-each e h;
    inside = λ o q. (0, omega arith, omega (arith, some-injective q));
  }

  Only-later :
      (offset : Option ℕ)
      → content.old_no_newline ≡ false
      → Only pattern (base + 1) offset
      → Only (content ∷ pattern) base offset
  Only-later offset e h = record {
    each = later-each offset e h;
    inside = λ o q.
        let (k, small, at) = h.inside o q in (k + 1, omega (arith, small), omega (arith, at));
  }

no_newline_offset-some :
    (base o : ℕ) (pattern : List PatchContent) {r : Option ℕ}
    → no_newline_offset base (some o) pattern ≡ ok r
    → (r ≡ some o) × ((k : ℕ) → k < length pattern → marked_at pattern k ≡ false)
unfolding no_newline_offset
no_newline_offset-some base o [] h = (sym (ok-injective h), λ k l. absurd (omega (arith, l)))
no_newline_offset-some base o (content ∷ pattern) h = elim (if-split content.old_no_newline _ _ h) [
  | inl (m, h1) ↦ absurd (cc)
  | inr (m, h1) ↦
      let (same, free) = no_newline_offset-some (base + 1) o pattern h1 in
      (same, unmarked-cons content pattern base m free)
]

pub no_newline_offset-Only :
    (base : ℕ) (pattern : List PatchContent) {r : Option ℕ}
    → no_newline_offset base none pattern ≡ ok r
    → Only pattern base r
unfolding no_newline_offset
no_newline_offset-Only base [] h = record {
  each = λ k l. absurd (omega (arith, l));
  inside = λ o q. absurd (none≢some (ok-injective h ∙ q));
}
no_newline_offset-Only base (content ∷ pattern) {r} h =
    elim (if-split content.old_no_newline _ _ h) [
      | inl (m, h1) ↦
          let (same, free) = no_newline_offset-some (base + 1) base pattern h1 in
          subst (Only (content ∷ pattern) base) (sym same) (Only-first content pattern base m free)
      | inr (m, h1) ↦
          Only-later content pattern base r m (no_newline_offset-Only (base + 1) pattern h1)
    ]

-- The test that the search makes at a candidate is that every mark there is met.
pub ends_unterminated_iff :
    (pattern : List PatchContent) (source : List SourceLine) (offset : Option ℕ) (j : ℕ)
    → Only pattern 0 offset
    → (ends_unterminated source j offset ≡ true) ↔ (
        (k : ℕ)
        → k < length pattern
        → marked_at pattern k ≡ true
        → unterminated_at source (j + k) ≡ true)
unfolding ends_unterminated
ends_unterminated_iff pattern source none j h =
    ((λ e k l m. absurd (none≢some ((h.each k l).0 m))), λ f. refl)
ends_unterminated_iff pattern source (some o) j h = (
  (λ e k l m.
      let at : o ≡ k = some-injective ((h.each k l).0 m) ∙ (omega arith) in
      ap (λ n. unterminated_at source (j + n)) (sym at)
      ∙ sym (get_elem?-unterminated source (j + o))
      ∙ e),
  λ f.
      let (k, l, at) = h.inside o refl in
      let at' : k ≡ o = omega (arith, at) in
      get_elem?-unterminated source (j + o)
      ∙ ap (λ n. unterminated_at source (j + n)) (sym at')
      ∙ f k l ((h.each k l).1 (ap some (sym at))),
)
