-- ===== src/Codex/Search/Prefix.antt =====
-- The prefix table: falling back along it keeps the longest start of the pattern that the texts read
-- so far end in.
use minicore_agent.Prelude.{
  ℕ, zero, suc, ◌+◌, ◌-◌, ◌≤◌, ◌<◌, ◌≡◌, refl, sym, ap, subst, ◌∙◌, ◌≢◌, ◌⊎◌, inl, inr, Bool, true,
  false, ◌&&◌, List, arith, ltb, lt→ltb, Bool-cases, length,
}
use minicore_agent.Prelude.Bytes.{Bytes, bytes_eq, bytes_eq→eq, bytes_eq_refl}
use minicore_agent.Patch.{PatchContent}
use minicore_agent.Codex.Search.{text_at, entry_at, fall_back, advance}

and-false : (b : Bool) → (b && false) ≡ false
and-false true = refl
and-false false = refl

zero-cases : (m : ℕ) → (m ≡ 0) ⊎ (0 < m)
zero-cases m = omega arith

not-positive : (m : ℕ) → m ≡ 0 → ltb 0 m ≡ false
not-positive m h = ground (arith, h)

lower-or-last : (k m : ℕ) → k < m + 1 → (k < m) ⊎ (k ≡ m)
lower-or-last k m h = omega (arith, h)

false≢true : false ≢ true
false≢true e = cc

bytes-differ : (a b : Bytes) → bytes_eq a b ≡ false → a ≢ b
bytes-differ a b h e = false≢true (sym h ∙ ap (bytes_eq a) (sym e) ∙ bytes_eq_refl a)

module _ (pattern : List PatchContent) where
  -- The first `m` texts of the pattern are the last `m` of `t` before `i`, none of them before `s`.
  pub record Ends (t : ℕ → Bytes) (s i m : ℕ) : Type 0 where
    pub room : s + m ≤ i
    pub agree : (k : ℕ) → k < m → text_at pattern k ≡ t (i - m + k)

  -- `m` is the longest such start shorter than the pattern.
  pub record Longest (t : ℕ → Bytes) (s i m : ℕ) : Type 0 where
    pub ends : Ends t s i m
    pub longest : (m' : ℕ) → m' < length pattern → Ends t s i m' → m' ≤ m

  pub Ends-zero : (t : ℕ → Bytes) (s i : ℕ) → s ≤ i → Ends t s i 0
  Ends-zero t s i l = record { room = omega (arith, l); agree = λ k h. absurd (omega (arith, h)) }

  -- A shorter start that the same texts end in is a border of the longer one, and the other way round.
  Ends-border :
      (t : ℕ → Bytes) (s i m b : ℕ)
      → Ends t s i m
      → Ends t s i b
      → b < m
      → Ends (text_at pattern) 1 m b
  Ends-border t s i m b h k l = record {
    room = omega (arith, l);
    agree = λ j p.
        let same : i - m + (m - b + j) ≡ i - b + j = omega (arith, h.room, k.room, l) in
        let longer = h.agree (m - b + j) (omega (arith, l, p)) in
        k.agree j p ∙ sym (longer ∙ ap t same);
  }

  border-Ends :
      (t : ℕ → Bytes) (s i m b : ℕ) → Ends t s i m → Ends (text_at pattern) 1 m b → Ends t s i b
  border-Ends t s i m b h k = record {
    room = omega (arith, h.room, k.room);
    agree = λ j p.
        let same : i - m + (m - b + j) ≡ i - b + j = omega (arith, h.room, k.room) in
        let longer = h.agree (m - b + j) (omega (arith, k.room, p)) in
        k.agree j p ∙ longer ∙ ap t same;
  }

  -- The table's entries up to `q` are the longest borders.
  unfoldable pub Table : List ℕ → ℕ → Type 0
  Table prefix q = (m : ℕ) → 0 < m → m ≤ q → Longest (text_at pattern) 1 m (entry_at prefix (m - 1))

  module _ (t : ℕ → Bytes) (s i : ℕ) (prefix : List ℕ) (text : Bytes) where
    -- Every start that `text` prolongs is at most `m`.
    Reaches : ℕ → Type 0
    Reaches m = (m' : ℕ) → m' < length pattern → Ends t s i m' → text_at pattern m' ≡ text → m' ≤ m

    record Fallen (m r : ℕ) : Type 0 where
      ends : Ends t s i r
      reaches : Reaches r
      below : r ≤ m
      stops : (r ≡ 0) ⊎ (text_at pattern r ≡ text)

    Fallen-wider : (m b r : ℕ) → b ≤ m → Fallen b r → Fallen m r
    Fallen-wider m b r l f = record {
      ends = f.ends;
      reaches = f.reaches;
      below = omega (arith, l, f.below);
      stops = f.stops;
    }

    -- What still can be prolonged after falling back to the longest border.
    Reaches-border :
        (m : ℕ)
        → m < length pattern
        → Ends t s i m
        → Reaches m
        → text_at pattern m ≢ text
        → (b : ℕ) → Longest (text_at pattern) 1 m b
        → Reaches b
    unfolding Reaches
    Reaches-border m short e r differs b best m' l f g =
        let le = r m' l f g in
        let other : m' ≢ m = λ q. differs (ap (text_at pattern) (sym q) ∙ g) in
        best.longest m' l (Ends-border t s i m m' e f (omega (arith, le, other)))

    fall_cases :
        (fuel m : ℕ)
        → m < length pattern
        → Table prefix m
        → Ends t s i m
        → Reaches m
        → ((b : ℕ)
            → b < m
            → b < length pattern
            → Table prefix b
            → Ends t s i b
            → Reaches b
            → Fallen b (fall_back fuel pattern prefix text b))
        → Fallen m (fall_back (suc fuel) pattern prefix text m)
    unfolding fall_back Table
    fall_cases fuel m short table e r ih = elim (Bool-cases (bytes_eq (text_at pattern m) text)) [
      | inl same ↦
          rw (same, and-false (ltb 0 m))
            (record {
              ends = e;
              reaches = r;
              below = omega arith;
              stops = inr (bytes_eq→eq _ _ same);
            })
      | inr differs ↦ elim (zero-cases m) [
        | inl empty ↦
            rw (differs, not-positive m empty)
              (record { ends = e; reaches = r; below = omega arith; stops = inl empty })
        | inr positive ↦
            let best = table m positive (omega arith) in
            let b = entry_at prefix (m - 1) in
            let lower : b < m = omega (arith, best.ends.room) in
            rw (differs, lt→ltb 0 m positive)
              (Fallen-wider m b _ (omega (arith, lower)) (
                ih b lower (omega (arith, lower, short))
                  (λ q p l. table q p (omega (arith, l, lower))) (border-Ends t s i m b e best.ends)
                  (Reaches-border m short e r (bytes-differ _ _ differs) b best)))
      ]
    ]

    fall_back-Fallen :
        (fuel m : ℕ)
        → m ≤ fuel
        → m < length pattern
        → Table prefix m
        → Ends t s i m
        → Reaches m
        → Fallen m (fall_back fuel pattern prefix text m)
    unfolding fall_back Table Reaches
    fall_back-Fallen zero m l short table e r = record {
      ends = e;
      reaches = r;
      below = omega arith;
      stops = inl (omega (arith, l));
    }
    fall_back-Fallen (suc fuel) m l short table e r =
        fall_cases fuel m short table e r
          (λ b h k d f g. fall_back-Fallen fuel b (omega (arith, h, l)) k d f g)

    Reaches-start : (m : ℕ) → Longest t s i m → Reaches m
    unfolding Reaches
    Reaches-start m h m' l e g = h.longest m' l e

  Ends-back :
      (t : ℕ → Bytes) (s i m : ℕ)
      → Ends t s (i + 1) (m + 1)
      → Ends t s i m × (text_at pattern m ≡ t i)
  Ends-back t s i m h =
      let at : i + 1 - (m + 1) + m ≡ i = omega (arith, h.room) in
      (
        record {
          room = omega (arith, h.room);
          agree = λ k l.
              let same : i + 1 - (m + 1) + k ≡ i - m + k = omega arith in
              h.agree k (omega (arith, l)) ∙ ap t same;
        },
        h.agree m (omega arith) ∙ ap t at,
      )

  Ends-forward :
      (t : ℕ → Bytes) (s i m : ℕ)
      → Ends t s i m
      → text_at pattern m ≡ t i
      → Ends t s (i + 1) (m + 1)
  Ends-forward t s i m h e = record {
    room = omega (arith, h.room);
    agree = λ k l. elim (lower-or-last k m l) [
      | inl lower ↦
          let same : i - m + k ≡ i + 1 - (m + 1) + k = omega arith in h.agree k lower ∙ ap t same
      | inr last_one ↦
          let at : i ≡ i + 1 - (m + 1) + k = omega (arith, h.room, last_one) in
          ap (text_at pattern) last_one ∙ e ∙ ap t at
    ];
  }

  -- After `advance`, the longest start that the texts up to and with `i` end in, the whole pattern
  -- included.
  pub record Advanced (t : ℕ → Bytes) (s i a : ℕ) : Type 0 where
    pub ends : Ends t s (i + 1) a
    pub longest : (m' : ℕ) → m' ≤ length pattern → Ends t s (i + 1) m' → m' ≤ a
    pub fits : a ≤ length pattern

  advance-longest :
      (t : ℕ → Bytes) (s i r a : ℕ)
      → ((m' : ℕ) → m' < length pattern → Ends t s i m' → text_at pattern m' ≡ t i → m' ≤ r)
      → (text_at pattern r ≡ t i → a ≡ r + 1)
      → ((r ≡ 0) ⊎ (text_at pattern r ≡ t i))
      → (m' : ℕ) → m' ≤ length pattern
      → Ends t s (i + 1) m'
      → m' ≤ a
  advance-longest t s i r a reaches step stops zero l e = omega arith
  advance-longest t s i r a reaches step stops (suc m') l e =
      let next : suc m' ≡ m' + 1 = omega arith in
      let (e', g) = Ends-back t s i m' (subst (Ends t s (i + 1)) next e) in
      let le = reaches m' (omega (arith, l)) e' g in
      elim stops [
        | inl z ↦
            let none_before : m' ≡ r = omega (arith, le, z) in
            omega (arith, le, step (ap (text_at pattern) (sym none_before) ∙ g))
        | inr q ↦ omega (arith, le, step q)
      ]

  pub advance-Advanced :
      (t : ℕ → Bytes) (s i : ℕ) (prefix : List ℕ) (m : ℕ)
      → m < length pattern
      → Table prefix m
      → Longest t s i m
      → Advanced t s i (advance pattern prefix (t i) m)
  unfolding advance Reaches
  advance-Advanced t s i prefix m short table h =
      let f =
        fall_back-Fallen t s i prefix (t i) m m (omega arith) short table h.ends
          (Reaches-start t s i prefix (t i) m h) in
      let r = fall_back m pattern prefix (t i) m in
      elim (Bool-cases (bytes_eq (text_at pattern r) (t i))) [
        | inl same ↦ rw same (record {
          ends = Ends-forward t s i r f.ends (bytes_eq→eq _ _ same);
          longest = advance-longest t s i r (r + 1) f.reaches (λ _. refl) f.stops;
          fits = omega (arith, f.below, short);
        })
        | inr differs ↦ rw differs (elim f.stops [
          | inl z ↦ subst (Advanced t s i) (sym z) (record {
            ends = Ends-zero t s (i + 1) (omega (arith, f.ends.room));
            longest =
                advance-longest t s i r 0 f.reaches (λ q. absurd (bytes-differ _ _ differs q))
                  f.stops;
            fits = omega arith;
          })
          | inr q ↦ absurd (bytes-differ _ _ differs q)
        ])
      ]

  -- What follows a step that does not complete the pattern, and one that does.
  pub Advanced-Longest : (t : ℕ → Bytes) (s i a : ℕ) → Advanced t s i a → Longest t s (i + 1) a
  Advanced-Longest t s i a h = record {
    ends = h.ends;
    longest = λ m' l e. h.longest m' (omega (arith, l)) e;
  }

  pub Advanced-resumed :
      (t : ℕ → Bytes) (s i : ℕ) (prefix : List ℕ) (a : ℕ)
      → a ≡ length pattern
      → 0 < a
      → Table prefix (length pattern)
      → Advanced t s i a
      → Longest t s (i + 1) (entry_at prefix (a - 1))
  unfolding Table
  Advanced-resumed t s i prefix a whole positive table h =
      let best = table a positive (omega (arith, whole)) in
      record {
        ends = border-Ends t s (i + 1) a (entry_at prefix (a - 1)) h.ends best.ends;
        longest = λ m' l e.
            best.longest m' l (Ends-border t s (i + 1) a m' h.ends e (omega (arith, whole, l)));
      }
