-- ===== src/Truncate/Ends.antt =====
-- The loop of `truncate_tail` keeps whole lines from the end, or the end of the last line.
use minicore_agent.Prelude.{
  ℕ, ◌+◌, ◌-◌, ◌≤◌, ◌<◌, ◌≡◌, refl, sym, ap, subst, ◌∙◌, ◌⊎◌, inl, inr, Bool, true, false, List, [],
  ◌∷◌, ◌++◌, append-nil, arith, ltb, ltb→lt, ◌==◌, ==_iff, if◌then◌else◌, Bool-cases, length,
  length-append,
}
use minicore_agent.Prelude.Bytes.{Bytes}
use minicore_agent.Truncate.{
  Kept, reversed, rsplit, ceil_char_boundary, cut_line, tail_loop, none_kept,
}
use minicore_agent.Truncate.Lines.{joined, reversed-append}

-- Whole lines are kept, as many as the limits allow: all of them, or the most lines, or the line before
-- them would exceed the bytes.
pub record Whole (lines : List Bytes) (max_lines max_bytes count size : ℕ) (partial : Bool)
    : Type 0 where
  pub front : List Bytes
  pub after : List Bytes
  pub parts : lines ≡ front ++ after
  pub entire : partial ≡ false
  pub counted : count ≡ length after
  pub sized : size ≡ length (joined after)
  pub few : count ≤ max_lines
  pub small : size ≤ max_bytes
  pub most :
      (front ≡ [])
      ⊎ ((count ≡ max_lines)
          ⊎ ((0 < count)
              × ((before : List Bytes) × (line : Bytes) × (front ≡ before ++ line ∷ [])
                  × (max_bytes < length (joined (line ∷ after))))))

-- The end of the last line is kept, which alone exceeds the bytes.
pub record Part (lines : List Bytes) (max_lines max_bytes count size : ℕ) (partial : Bool)
    : Type 0 where
  pub before : List Bytes
  pub line : Bytes
  pub parts : lines ≡ before ++ line ∷ []
  pub cut : partial ≡ true
  pub counted : count ≡ 1
  pub allowed : 1 ≤ max_lines
  pub long : max_bytes < length line
  pub sized : size ≡ length line - ceil_char_boundary line (length line - max_bytes)

abbrev pub Ends : List Bytes → (max_lines max_bytes : ℕ) → Kept → Type 0
Ends lines max_lines max_bytes kept =
    Whole lines max_lines max_bytes kept.kept_lines kept.kept_bytes kept.partial
    ⊎ Part lines max_lines max_bytes kept.kept_lines kept.kept_bytes kept.partial

-- What holds before each turn: `after` are the lines kept so far, `rest` those still to come.
record Going (lines : List Bytes) (max_lines max_bytes : ℕ) (kept : Kept) (after rest : List Bytes)
    : Type 0 where
  parts : reversed after rest ≡ lines
  entire : kept.partial ≡ false
  counted : kept.kept_lines ≡ length after
  sized : kept.kept_bytes ≡ length (joined after)
  few : kept.kept_lines ≤ max_lines
  small : kept.kept_bytes ≤ max_bytes

length-joined :
    (line : Bytes) (after : List Bytes) (n size : ℕ)
    → n ≡ length after
    → size ≡ length (joined after)
    → length (joined (line ∷ after)) ≡ size + (length line + (if ltb 0 n then 1 else 0))
length-joined line [] n size h k =
    let none_yet : ltb 0 n ≡ false = ground (arith, h) in rw none_yet (omega (arith, k))
length-joined line (next ∷ after) n size h k =
    let some_yet : ltb 0 n ≡ true = ground (arith, h) in
    rw some_yet (omega (arith, k, length-append line (b'\n' ∷ joined (next ∷ after))))

module _ (lines : List Bytes) (max_lines max_bytes : ℕ) where
  seen : Kept → Bytes → Kept
  seen kept line =
      if kept.kept_lines == 0 then record kept { last_line_bytes = length line } else kept

  parts-line :
      (after rest : List Bytes) (line : Bytes)
      → reversed after (line ∷ rest) ≡ lines
      → lines ≡ (reversed [] rest ++ line ∷ []) ++ after
  unfolding reversed
  parts-line after rest line e =
      sym e
      ∙ reversed-append after (line ∷ rest)
      ∙ ap (λ t. t ++ after) (reversed-append (line ∷ []) rest)

  Going-seen :
      (kept : Kept) (after rest : List Bytes) (line : Bytes)
      → Going lines max_lines max_bytes kept after rest
      → Going lines max_lines max_bytes (seen kept line) after rest
  unfolding seen
  Going-seen kept after rest line g = elim (Bool-cases (kept.kept_lines == 0)) [
    | inl none_yet ↦ rw none_yet (record {
      parts = g.parts;
      entire = g.entire;
      counted = g.counted;
      sized = g.sized;
      few = g.few;
      small = g.small;
    })
    | inr some_yet ↦ rw some_yet g
  ]

  -- The lines are all kept, or the most of them.
  Going-Whole :
      (kept : Kept) (after rest : List Bytes)
      → Going lines max_lines max_bytes kept after rest
      → (rest ≡ []) ⊎ (kept.kept_lines ≡ max_lines)
      → Ends lines max_lines max_bytes kept
  unfolding reversed
  Going-Whole kept after rest g (inl e) = inl (record {
    front = [];
    after = after;
    parts = sym g.parts ∙ ap (reversed after) e;
    entire = g.entire;
    counted = g.counted;
    sized = g.sized;
    few = g.few;
    small = g.small;
    most = inl refl;
  })
  Going-Whole kept after rest g (inr e) = inl (record {
    front = reversed [] rest;
    after = after;
    parts = sym g.parts ∙ reversed-append after rest;
    entire = g.entire;
    counted = g.counted;
    sized = g.sized;
    few = g.few;
    small = g.small;
    most = inr (inl e);
  })

  cut_line-Ends :
      (kept : Kept) (after rest : List Bytes) (line : Bytes)
      → Going lines max_lines max_bytes kept after (line ∷ rest)
      → kept.kept_lines < max_lines
      → max_bytes < length (joined (line ∷ after))
      → Ends lines max_lines max_bytes (cut_line max_bytes line kept)
  unfolding cut_line
  cut_line-Ends kept [] rest line g less over =
      let none_yet : (kept.kept_lines == 0) ≡ true = ground (arith, g.counted) in
      rw none_yet (
        inr (record {
          before = reversed [] rest;
          line = line;
          parts = parts-line [] rest line g.parts ∙ append-nil _;
          cut = refl;
          counted = refl;
          allowed = omega (arith, less);
          long = over;
          sized = refl;
        }))
  cut_line-Ends kept (next ∷ after) rest line g less over =
      let some_yet : (kept.kept_lines == 0) ≡ false = ground (arith, g.counted) in
      rw some_yet (
        inl (record {
          front = reversed [] rest ++ line ∷ [];
          after = next ∷ after;
          parts = parts-line (next ∷ after) rest line g.parts;
          entire = g.entire;
          counted = g.counted;
          sized = g.sized;
          few = g.few;
          small = g.small;
          most = inr (inr (omega (arith, g.counted), (reversed [] rest, line, refl, over)));
        }))

  seen-lines : (kept : Kept) (line : Bytes) → (seen kept line).kept_lines ≡ kept.kept_lines
  unfolding seen
  seen-lines kept line = ground arith

  tail_loop-Ends :
      (kept : Kept) (after rest : List Bytes)
      → Going lines max_lines max_bytes kept after rest
      → Ends lines max_lines max_bytes (tail_loop max_lines max_bytes kept rest)
  unfolding tail_loop reversed seen
  tail_loop-Ends kept after [] g = Going-Whole kept after [] g (inl refl)
  tail_loop-Ends kept after (line ∷ rest) g =
      let cost = length line + (if ltb 0 kept.kept_lines then 1 else 0) in
      let size = length-joined line after kept.kept_lines kept.kept_bytes g.counted g.sized in
      let s = Going-seen kept after (line ∷ rest) line g in
      elim (Bool-cases (kept.kept_lines == max_lines)) [
        | inl full ↦ rw full (
            Going-Whole (seen kept line) after (line ∷ rest) s
              (inr (seen-lines kept line ∙ (==_iff kept.kept_lines max_lines).0 full)))
        | inr more ↦ rw more (elim (Bool-cases (ltb max_bytes (kept.kept_bytes + cost))) [
          | inl over ↦ rw over (
              cut_line-Ends (seen kept line) after rest line s
                (subst (λ n. n < max_lines) (sym (seen-lines kept line))
                  (ground (arith, more, g.few)))
                (subst (λ n. max_bytes < n) (sym size) (ltb→lt _ _ over)))
          | inr fits ↦ rw fits (
              tail_loop-Ends
                (record (seen kept line) {
                  kept_lines = kept.kept_lines + 1;
                  kept_bytes = kept.kept_bytes + cost;
                })
                (line ∷ after) rest
                (record {
                  parts = g.parts;
                  entire = s.entire;
                  counted = omega (arith, g.counted);
                  sized = sym size;
                  few = ground (arith, more, g.few);
                  small = ground (arith, fits);
                }))
        ])
      ]

pub rsplit-Ends :
    (max_lines max_bytes : ℕ) (text : Bytes)
    → Ends
        (reversed [] (rsplit text))
        max_lines
        max_bytes
        (tail_loop max_lines max_bytes none_kept (rsplit text))
rsplit-Ends max_lines max_bytes text =
    tail_loop-Ends (reversed [] (rsplit text)) max_lines max_bytes none_kept [] (rsplit text)
      (record {
        parts = refl;
        entire = refl;
        counted = refl;
        sized = refl;
        few = omega arith;
        small = omega arith;
      })
