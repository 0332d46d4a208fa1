-- ===== src/Codex/Search/Table.antt =====
-- `codex_pattern_prefix` computes the table that the search relies on.
use minicore_agent.Prelude.{
  ℕ, zero, suc, ◌+◌, ◌-◌, ◌≤◌, ◌<◌, ◌≡◌, refl, sym, ap, subst, ◌∙◌, ◌⊎◌, inl, inr, List, [], ◌∷◌,
  ◌++◌, arith, length, length-append,
}
use minicore_agent.Patch.{PatchContent}
use minicore_agent.Codex.Search.{text_at, entry_at, advance, prefix_loop, codex_pattern_prefix}
use minicore_agent.Codex.Search.Prefix.{
  Longest, Ends-zero, Table, Advanced, advance-Advanced, Advanced-Longest,
}

entry_at-append_before :
    (ns ms : List ℕ) (k : ℕ) → k < length ns → entry_at (ns ++ ms) k ≡ entry_at ns k
entry_at-append_before [] ms k h = omega (arith, h)
entry_at-append_before (n ∷ ns) ms zero h = refl
entry_at-append_before (n ∷ ns) ms (suc k) h = entry_at-append_before ns ms k (omega (arith, h))

entry_at-append_length : (ns : List ℕ) (m : ℕ) → entry_at (ns ++ m ∷ []) (length ns) ≡ m
entry_at-append_length [] m = refl
entry_at-append_length (n ∷ ns) m = entry_at-append_length ns m

last-or-before : (m q : ℕ) → m ≤ q + 1 → (m ≡ q + 1) ⊎ (m ≤ q)
last-or-before m q h = omega (arith, h)

plus-zero : (q : ℕ) → q ≡ q + 0
plus-zero q = omega arith

shift : (q k : ℕ) → q + 1 + k ≡ q + suc k
shift q k = omega arith

one-plus : (k : ℕ) → 1 + k ≡ suc k
one-plus k = omega arith

one-only : (m : ℕ) → 0 < m → m ≤ 1 → 1 ≡ m
one-only m h k = omega (arith, h, k)

module _ (pattern : List PatchContent) where
  first-Longest : Longest pattern (text_at pattern) 1 1 0
  first-Longest = record {
    ends = Ends-zero pattern (text_at pattern) 1 1 (omega arith);
    longest = λ m l e. omega (arith, e.room);
  }

  first-entry : Table pattern (0 ∷ []) 1
  unfolding Table
  first-entry m positive le =
      subst (λ k. Longest pattern (text_at pattern) 1 k (entry_at (0 ∷ []) (k - 1)))
        (one-only m positive le) first-Longest

  Table-extends :
      (prefix : List ℕ) (q next : ℕ)
      → length prefix ≡ q
      → Table pattern prefix q
      → Longest pattern (text_at pattern) 1 (q + 1) next
      → Table pattern (prefix ++ next ∷ []) (q + 1)
  unfolding Table
  Table-extends prefix q next l table h m positive le = elim (last-or-before m q le) [
    | inl now ↦
        let at : m - 1 ≡ length prefix = omega (arith, now, l) in
        let entry = ap (entry_at (prefix ++ next ∷ [])) at ∙ entry_at-append_length prefix next in
        subst (λ k. Longest pattern (text_at pattern) 1 k (entry_at (prefix ++ next ∷ []) (m - 1)))
          (sym now) (subst (Longest pattern (text_at pattern) 1 (q + 1)) (sym entry) h)
    | inr before ↦
        subst (Longest pattern (text_at pattern) 1 m)
          (sym (
            entry_at-append_before prefix (next ∷ []) (m - 1) (omega (arith, positive, before, l))))
          (table m positive before)
  ]

  prefix_loop-Table :
      (prefix : List ℕ) (q matched : ℕ) (rest : List PatchContent)
      → length prefix ≡ q
      → q + length rest ≡ length pattern
      → ((k : ℕ) → k < length rest → text_at pattern (q + k) ≡ text_at rest k)
      → Table pattern prefix q
      → Longest pattern (text_at pattern) 1 q matched
      → Table pattern (prefix_loop pattern prefix matched rest) (length pattern)
  unfolding prefix_loop Table
  prefix_loop-Table prefix q matched [] l n same table h =
      λ m positive le. table m positive (omega (arith, le, n))
  prefix_loop-Table prefix q matched (content ∷ rest) l n same table h =
      let here : text_at pattern q ≡ content.text =
        ap (text_at pattern) (plus-zero q) ∙ same 0 (omega arith) in
      let next = advance pattern prefix content.text matched in
      let step =
        subst (λ x. Advanced pattern (text_at pattern) 1 q (advance pattern prefix x matched)) here
          (advance-Advanced pattern (text_at pattern) 1 q prefix matched
            (omega (arith, h.ends.room, n)) (λ m p le. table m p (omega (arith, le, h.ends.room)))
            h) in
      let best = Advanced-Longest pattern (text_at pattern) 1 q next step in
      prefix_loop-Table (prefix ++ next ∷ []) (q + 1) next rest
        (omega (arith, l, length-append prefix (next ∷ []))) (omega (arith, n))
        (λ k lt. ap (text_at pattern) (shift q k) ∙ same (suc k) (omega (arith, lt)))
        (Table-extends prefix q next l table best) best

-- The entry for the first `m` texts of the pattern is the length of the longest proper start of them
-- that is also their end.
pub codex_pattern_prefix-Table :
    (content : PatchContent) (rest : List PatchContent)
    → Table (content ∷ rest) (codex_pattern_prefix (content ∷ rest)) (length (content ∷ rest))
unfolding codex_pattern_prefix
codex_pattern_prefix-Table content rest =
    prefix_loop-Table (content ∷ rest) (0 ∷ []) 1 0 rest refl (omega arith)
      (λ k l. ap (text_at (content ∷ rest)) (one-plus k)) (first-entry (content ∷ rest))
      (first-Longest (content ∷ rest))
