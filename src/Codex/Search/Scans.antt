-- ===== src/Codex/Search/Scans.antt =====
-- The search loop finds the places where the pattern stands, one line after another.
use minicore_agent.Prelude.{
  ℕ, ◌+◌, ◌-◌, ◌≤◌, ◌<◌, ◌≡◌, refl, sym, ap, ◌∙◌, ◌≢◌, ◌⊎◌, inl, inr, true, false, Option, none,
  some, List, arith, ◌==◌, if◌then◌else◌, ==_iff, Bool-cases, length, Result, ok, err, is_some,
}
use minicore_agent.Patch.{ToolError, invalid_invocation, SourceLine, PatchContent}
use minicore_agent.Codex.Search.{text_at, entry_at, Scan, ends_unterminated, settle}
use minicore_agent.Codex.Search.Prefix.{
  Ends, Longest, Table, Advanced, Advanced-Longest, Advanced-resumed,
}
use minicore_agent.Codex.Search.Matches.{line_text}

-- What a search up to line `i` found of the places `P` of `n` lines from `start` on.
unfoldable pub Found : (P : ℕ → Type 0) → (n start i : ℕ) → Option ℕ → Type 0
Found P n start i none = (j : ℕ) → start ≤ j → j + n ≤ i → ¬ P j
Found P n start i (some j) =
    (start ≤ j) × (j + n ≤ i) × P j × ((j' : ℕ) → start ≤ j' → j' + n ≤ i → P j' → j' ≡ j)

-- Two places, or more lines than may be visited.
pub record Two (P : ℕ → Type 0) (n start i : ℕ) : Type 0 where
  pub one : ℕ
  pub other : ℕ
  pub starts : start ≤ one
  pub apart : one < other
  pub fits : other + n ≤ i
  pub one_holds : P one
  pub other_holds : P other

false≢true : false ≢ true
false≢true e = cc

unequal : (a b : ℕ) → (a == b) ≡ false → a ≢ b
unequal a b h = ground arith

below : (a b : ℕ) → a ≤ b → (a == b) ≡ false → a < b
below a b h k = ground arith

module _ (P : ℕ → Type 0) (n start : ℕ) where
  earlier-or-last : (j i : ℕ) → j + n ≤ i + 1 → (j + n ≤ i) ⊎ (j + n ≡ i + 1)
  earlier-or-last j i h = omega (arith, h)

  pub Found-skips :
      (i : ℕ) (found : Option ℕ)
      → ((j : ℕ) → start ≤ j → j + n ≡ i + 1 → ¬ P j)
      → Found P n start i found
      → Found P n start (i + 1) found
  unfolding Found
  Found-skips i none h f =
      λ j s l p. elim (earlier-or-last j i l) [ inl k ↦ f j s k p | inr k ↦ h j s k p ]
  Found-skips i (some c) h (s, l, p, unique) = (
    s,
    omega (arith, l),
    p,
    λ j' s' l' p'. elim (earlier-or-last j' i l') [
      | inl k ↦ unique j' s' k p'
      | inr k ↦ absurd (h j' s' k p')
    ],
  )

  pub Found-new :
      (i c : ℕ)
      → start ≤ c
      → c + n ≡ i + 1
      → P c
      → Found P n start i none
      → Found P n start (i + 1) (some c)
  unfolding Found
  Found-new i c s at p f = (
    s,
    omega (arith, at),
    p,
    λ j' s' l' p'. elim (earlier-or-last j' i l') [
      | inl k ↦ absurd (f j' s' k p')
      | inr k ↦ omega (arith, k, at)
    ],
  )

  pub Found-second :
      (i len c d : ℕ)
      → c + n ≡ i + 1
      → i + 1 ≤ len
      → P c
      → Found P n start i (some d)
      → Two P n start len
  unfolding Found
  Found-second i len c d at l p (s, k, q, unique) = record {
    one = d;
    other = c;
    starts = s;
    apart = omega (arith, at, k);
    fits = omega (arith, at, l);
    one_holds = q;
    other_holds = p;
  }

-- Where the pattern's texts stand and the mark is met.
module _ (pattern : List PatchContent) (source : List SourceLine) (offset : Option ℕ)
    (start : ℕ) where
  pub record Stands (j : ℕ) : Type 0 where
    pub texts : (k : ℕ) → k < length pattern → text_at pattern k ≡ line_text source (j + k)
    pub unterminated : ends_unterminated source j offset ≡ true

  Stands-Ends :
      (i j : ℕ)
      → start ≤ j
      → j + length pattern ≡ i + 1
      → Stands j
      → Ends pattern (line_text source) start (i + 1) (length pattern)
  Stands-Ends i j s at h = record {
    room = omega (arith, s, at);
    agree = λ k l.
        let same : j + k ≡ i + 1 - length pattern + k = omega (arith, at) in
        h.texts k l ∙ ap (line_text source) same;
  }

  unterminated-at :
      (i j : ℕ)
      → j + length pattern ≡ i + 1
      → ends_unterminated source (i + 1 - length pattern) offset ≡ ends_unterminated source j offset
  unterminated-at i j at =
      let same : i + 1 - length pattern ≡ j = omega (arith, at) in
      ap (λ c. ends_unterminated source c offset) same

  -- What the loop keeps after line `i - 1`, and what a line makes of it.
  pub record Kept (i : ℕ) (scan : Scan) : Type 0 where
    pub longest : Longest pattern (line_text source) start i scan.matched
    pub short : scan.matched < length pattern
    pub found : Found Stands (length pattern) start i scan.found

  abbrev pub Settled : (i len visits : ℕ) → Result ToolError Scan → Type 0
  Settled i len visits (ok scan) = Kept i scan × (scan.visits ≡ visits)
  Settled i len visits (err e) = Two Stands (length pattern) start len

  module _ (prefix : List ℕ) (table : Table pattern prefix (length pattern))
      (some_lines : 0 < length pattern) where
    resumed-short : (a : ℕ) → a ≡ length pattern → entry_at prefix (a - 1) < length pattern
    unfolding Table
    resumed-short a whole = omega (
      arith,
      whole,
      (table a (omega (arith, whole, some_lines)) (omega (arith, whole))).ends.room,
    )

    not-whole :
        (i a : ℕ)
        → (a == length pattern) ≡ false
        → Advanced pattern (line_text source) start i a
        → (j : ℕ) → start ≤ j
        → j + length pattern ≡ i + 1
        → ¬ Stands j
    not-whole i a differs h j s at p =
        let le = h.longest (length pattern) (omega arith) (Stands-Ends i j s at p) in
        absurd (unequal a (length pattern) differs (omega (arith, le, h.fits)))

    not-here :
        (i : ℕ)
        → ends_unterminated source (i + 1 - length pattern) offset ≡ false
        → (j : ℕ) → start ≤ j
        → j + length pattern ≡ i + 1
        → ¬ Stands j
    not-here i terminated j s at p =
        false≢true (sym terminated ∙ unterminated-at i j at ∙ p.unterminated)

    whole-Stands :
        (i a : ℕ)
        → a ≡ length pattern
        → Advanced pattern (line_text source) start i a
        → ends_unterminated source (i + 1 - length pattern) offset ≡ true
        → Stands (i + 1 - length pattern)
    whole-Stands i a whole h u = record {
      texts = λ k l.
          let same : i + 1 - a + k ≡ i + 1 - length pattern + k = omega (arith, whole) in
          h.ends.agree k (omega (arith, whole, l)) ∙ ap (line_text source) same;
      unterminated = u;
    }

    -- The pattern is complete at line `i`, and the mark is met.
    matched-Settled :
        (i len a visits : ℕ) (found : Option ℕ)
        → i + 1 ≤ len
        → a ≡ length pattern
        → Advanced pattern (line_text source) start i a
        → Stands (i + 1 - length pattern)
        → Found Stands (length pattern) start i found
        → Settled (i + 1) len visits (
            if is_some found
            then err invalid_invocation
            else ok (record {
              matched = entry_at prefix (a - 1);
              found = some (i + 1 - length pattern);
              visits = visits;
            }))
    matched-Settled i len a visits none l whole h stands f =
        let room = h.ends.room in
        (
          record {
            longest =
                Advanced-resumed pattern (line_text source) start i prefix a whole
                  (omega (arith, whole, some_lines)) table h;
            short = resumed-short a whole;
            found =
                Found-new Stands (length pattern) start i (i + 1 - length pattern)
                  (omega (arith, room, whole)) (omega (arith, room, whole)) stands f;
          },
          refl,
        )
    matched-Settled i len a visits (some d) l whole h stands f =
        Found-second Stands (length pattern) start i len (i + 1 - length pattern) d
          (omega (arith, h.ends.room, whole)) l stands f

    pub settle-Settled :
        (i len a visits : ℕ) (found : Option ℕ)
        → i + 1 ≤ len
        → Advanced pattern (line_text source) start i a
        → Found Stands (length pattern) start i found
        → Settled (i + 1) len visits (
            settle pattern source prefix offset i
              (record { matched = a; found = found; visits = visits }))
    unfolding settle
    settle-Settled i len a visits found l h f = elim (Bool-cases (a == length pattern)) [
      | inl same ↦
          let whole = (==_iff a (length pattern)).0 same in
          elim (Bool-cases (ends_unterminated source (i + 1 - length pattern) offset)) [
            | inl u ↦
                rw (same, u)
                  (matched-Settled i len a visits found l whole h (whole-Stands i a whole h u) f)
            | inr u ↦
                rw (same, u)
                  (
                    record {
                      longest =
                          Advanced-resumed pattern (line_text source) start i prefix a whole
                            (omega (arith, whole, some_lines)) table h;
                      short = resumed-short a whole;
                      found = Found-skips Stands (length pattern) start i found (not-here i u) f;
                    },
                    refl,
                  )
          ]
      | inr differs ↦ rw differs (
        record {
          longest = Advanced-Longest pattern (line_text source) start i a h;
          short = below a (length pattern) h.fits differs;
          found = Found-skips Stands (length pattern) start i found (not-whole i a differs h) f;
        },
        refl,
      )
    ]
