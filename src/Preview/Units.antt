-- ===== src/Preview/Units.antt =====
-- The escapes with `\u` are decoded to the characters they stand for.
use minicore_agent.Prelude.{
  ℕ, ◌+◌, ◌-◌, ◌/◌, ◌%◌, ◌≤◌, ◌<◌, ◌≡◌, refl, ap, ◌∙◌, ◌⊎◌, inl, inr, Option, none, some, List, [],
  ◌∷◌, arith, ltb, if◌then◌else◌, ltb→lt, Bool-cases, Bool, true, false, Result, ok, err,
}
use minicore_agent.Preview.Escapes.{
  Escape, plain, slash, unicode, low_slash, low_u, low_unicode, to_digit, shift_in, unicode_digit,
  Panic, low_unicode_digit, single_unit, paired_unit, decode,
}

-- A step that does not panic.
abbrev pub returned : Result Panic (Option (Escape × Option ℕ)) → Option (Escape × Option ℕ)
returned (ok step) = step
returned (err e) = none

-- The decoder run over a text: the characters decoded and the escape it is left in.
unfoldable pub decode_text : Escape → List ℕ → Option (Escape × List ℕ)
decode_text escape [] = some (escape, [])
decode_text escape (ch ∷ text) = elim (returned (decode escape ch)) [
  | none ↦ none
  | some step ↦ elim (decode_text step.0 text) [
    | none ↦ none
    | some rest ↦ some (rest.0, elim step.1 [ none ↦ rest.1 | some c ↦ c ∷ rest.1 ])
  ]
]

-- A digit, with a small or a capital letter.
abbrev pub hex : Bool → ℕ → ℕ
hex capital n = if ltb n 10 then b'0' + n else (if capital then b'A' else b'a') + (n - 10)

-- The letters of four digits, by which of them are capital.
pub record Letters : Type 0 where
  pub first : Bool
  pub second : Bool
  pub third : Bool
  pub fourth : Bool

abbrev pub hex4 : Letters → ℕ → List ℕ → List ℕ
hex4 letters unit text =
    hex letters.first (unit / 4096)
    ∷ hex letters.second (unit / 256 % 16)
    ∷ hex letters.third (unit / 16 % 16)
    ∷ hex letters.fourth (unit % 16)
    ∷ text

-- A character written as an escape with `\u`, as a pair where it needs one.
abbrev pub escaped : (letters pair_letters : Letters) → ℕ → List ℕ → List ℕ
escaped letters pair_letters c text =
    if ltb c 0x10000
    then b'\\' ∷ b'u' ∷ hex4 letters c text
    else b'\\'
      ∷ b'u'
      ∷ hex4 letters (0xd800 + (c - 0x10000) / 1024)
          (b'\\' ∷ b'u' ∷ hex4 pair_letters (0xdc00 + (c - 0x10000) % 1024) text)

-- `char`: no value of the surrogates.
abbrev pub IsChar : ℕ → Type 0
IsChar c = (c < 0x110000) × ((c < 0xd800) ⊎ (0xdfff < c))

to_digit-hex : (capital : Bool) (n : ℕ) → n < 16 → to_digit (hex capital n) ≡ some n
to_digit-hex true n h = ground (arith, h)
to_digit-hex false n h = ground (arith, h)

four_digits :
    (unit : ℕ)
    → unit < 65536
    → shift_in
        (shift_in (shift_in (shift_in 0 (unit / 4096)) (unit / 256 % 16)) (unit / 16 % 16))
        (unit % 16)
      ≡ unit
four_digits unit h = omega (arith, h)

-- The step that the fourth digit makes, and what follows it.
abbrev pub after : Option (Escape × Option ℕ) → List ℕ → Option (Escape × List ℕ)
after o text = elim o [
  | none ↦ none
  | some step ↦ elim (decode_text step.0 text) [
    | none ↦ none
    | some rest ↦ some (rest.0, elim step.1 [ none ↦ rest.1 | some c ↦ c ∷ rest.1 ])
  ]
]

again :
    (o : Option (Escape × List ℕ)) → elim o [ none ↦ none | some rest ↦ some (rest.0, rest.1) ] ≡ o
again none = refl
again (some rest) = refl

-- A step that decodes nothing.
pub skips :
    (e e' : Escape) (ch : ℕ) (text : List ℕ)
    → returned (decode e ch) ≡ some (e', none)
    → decode_text e (ch ∷ text) ≡ decode_text e' text
unfolding decode_text
skips e e' ch text h = ap (λ o. after o text) h ∙ again (decode_text e' text)

opens : (text : List ℕ) → decode_text plain (b'\\' ∷ b'u' ∷ text) ≡ decode_text (unicode 0 0) text
unfolding decode
opens text = skips plain slash b'\\' (b'u' ∷ text) refl ∙ skips slash (unicode 0 0) b'u' text refl

opens-low :
    (high : ℕ) (text : List ℕ)
    → decode_text (low_slash high) (b'\\' ∷ b'u' ∷ text) ≡ decode_text (low_unicode high 0 0) text
unfolding decode
opens-low high text =
    skips (low_slash high) (low_u high) b'\\' (b'u' ∷ text) refl
    ∙ skips (low_u high) (low_unicode high 0 0) b'u' text refl

module _ (capital : Bool) (d : ℕ) (h : d < 16) where
  digit :
      (digits value : ℕ)
      → digits < 3
      → returned (decode (unicode digits value) (hex capital d))
        ≡ some (unicode (digits + 1) (shift_in value d), none)
  unfolding decode
  digit digits value k =
      ap (unicode_digit digits value) (to_digit-hex capital d h) ∙ ground (arith, k)

  low_digit :
      (high digits value : ℕ)
      → digits < 3
      → returned (decode (low_unicode high digits value) (hex capital d))
        ≡ some (low_unicode high (digits + 1) (shift_in value d), none)
  unfolding decode
  low_digit high digits value k =
      ap (λ o. returned (low_unicode_digit high digits value o)) (to_digit-hex capital d h)
      ∙ ground (arith, k)

  last_digit :
      (value : ℕ)
      → returned (decode (unicode 3 value) (hex capital d)) ≡ single_unit (shift_in value d)
  unfolding decode
  last_digit value = ap (unicode_digit 3 value) (to_digit-hex capital d h)

  low_last_digit :
      (high value : ℕ)
      → returned (decode (low_unicode high 3 value) (hex capital d))
        ≡ returned (paired_unit high (shift_in value d))
  unfolding decode
  low_last_digit high value =
      ap (λ o. returned (low_unicode_digit high 3 value o)) (to_digit-hex capital d h)

below16 : (n : ℕ) → n % 16 < 16
below16 n = omega arith

top16 : (n : ℕ) → n < 65536 → n / 4096 < 16
top16 n h = omega (arith, h)

-- Four digits give the unit that they write.
hex4-single :
    (l : Letters) (unit : ℕ) (text : List ℕ)
    → unit < 65536
    → decode_text (unicode 0 0) (hex4 l unit text) ≡ after (single_unit unit) text
unfolding decode_text
hex4-single l unit text h =
    skips (unicode 0 0) (unicode 1 (shift_in 0 (unit / 4096))) _
      (hex l.second (unit / 256 % 16)
        ∷ hex l.third (unit / 16 % 16)
        ∷ hex l.fourth (unit % 16)
        ∷ text)
      (digit l.first (unit / 4096) (top16 unit h) 0 0 (omega arith))
    ∙ skips (unicode 1 _) (unicode 2 (shift_in (shift_in 0 (unit / 4096)) (unit / 256 % 16))) _
        (hex l.third (unit / 16 % 16) ∷ hex l.fourth (unit % 16) ∷ text)
        (digit l.second (unit / 256 % 16) (below16 (unit / 256)) 1 _ (omega arith))
    ∙ skips (unicode 2 _)
        (unicode 3
          (shift_in (shift_in (shift_in 0 (unit / 4096)) (unit / 256 % 16)) (unit / 16 % 16)))
        _ (hex l.fourth (unit % 16) ∷ text)
        (digit l.third (unit / 16 % 16) (below16 (unit / 16)) 2 _ (omega arith))
    ∙ ap (λ o. after o text) (last_digit l.fourth (unit % 16) (below16 unit) _)
    ∙ ap (λ n. after (single_unit n) text) (four_digits unit h)

hex4-paired :
    (l : Letters) (high unit : ℕ) (text : List ℕ)
    → unit < 65536
    → decode_text (low_unicode high 0 0) (hex4 l unit text)
      ≡ after (returned (paired_unit high unit)) text
unfolding decode_text
hex4-paired l high unit text h =
    skips (low_unicode high 0 0) (low_unicode high 1 (shift_in 0 (unit / 4096))) _
      (hex l.second (unit / 256 % 16)
        ∷ hex l.third (unit / 16 % 16)
        ∷ hex l.fourth (unit % 16)
        ∷ text)
      (low_digit l.first (unit / 4096) (top16 unit h) high 0 0 (omega arith))
    ∙ skips (low_unicode high 1 _)
        (low_unicode high 2 (shift_in (shift_in 0 (unit / 4096)) (unit / 256 % 16))) _
        (hex l.third (unit / 16 % 16) ∷ hex l.fourth (unit % 16) ∷ text)
        (low_digit l.second (unit / 256 % 16) (below16 (unit / 256)) high 1 _ (omega arith))
    ∙ skips (low_unicode high 2 _)
        (low_unicode high 3
          (shift_in (shift_in (shift_in 0 (unit / 4096)) (unit / 256 % 16)) (unit / 16 % 16)))
        _ (hex l.fourth (unit % 16) ∷ text)
        (low_digit l.third (unit / 16 % 16) (below16 (unit / 16)) high 2 _ (omega arith))
    ∙ ap (λ o. after o text) (low_last_digit l.fourth (unit % 16) (below16 unit) high _)
    ∙ ap (λ n. after (returned (paired_unit high n)) text) (four_digits unit h)

-- What a character that was decoded leaves.
abbrev pub emits : ℕ → Option (Escape × List ℕ) → Option (Escape × List ℕ)
emits c o = elim o [ none ↦ none | some rest ↦ some (rest.0, c ∷ rest.1) ]

single_unit-char : (c : ℕ) → IsChar c → c < 65536 → single_unit c ≡ some (plain, some c)
single_unit-char c (l, s) b = ground (arith, l, s, b)

single_unit-high :
    (high : ℕ) → 0xd800 ≤ high → high ≤ 0xdbff → single_unit high ≡ some (low_slash high, none)
single_unit-high high l m = ground (arith, l, m)

paired_unit-char :
    (c : ℕ)
    → IsChar c
    → 65536 ≤ c
    → returned (paired_unit (0xd800 + (c - 0x10000) / 1024) (0xdc00 + (c - 0x10000) % 1024))
      ≡ some (plain, some c)
paired_unit-char c (l, s) b = ground (arith, l, s, b)

pub escaped-decodes :
    (l m : Letters) (c : ℕ) (text : List ℕ)
    → IsChar c
    → decode_text plain (escaped l m c text) ≡ emits c (decode_text plain text)
escaped-decodes l m c text h = elim (Bool-cases (ltb c 0x10000)) [
  | inl small ↦ rw small (
      opens (hex4 l c text)
      ∙ hex4-single l c text (ltb→lt c 65536 small)
      ∙ ap (λ o. after o text) (single_unit-char c h (ltb→lt c 65536 small)))
  | inr large ↦
      let high = 0xd800 + (c - 0x10000) / 1024 in
      let low = 0xdc00 + (c - 0x10000) % 1024 in
      let tail = b'\\' ∷ b'u' ∷ hex4 m low text in
      rw large (
        opens (hex4 l high tail)
        ∙ hex4-single l high tail (ground (arith, h.0, large))
        ∙ ap (λ o. after o tail)
            (single_unit-high high (ground (arith, h.0, large)) (ground (arith, h.0, large)))
        ∙ again (decode_text (low_slash high) tail)
        ∙ opens-low high (hex4 m low text)
        ∙ hex4-paired m high low text (ground (arith, h.0, large))
        ∙ ap (λ o. after o text) (paired_unit-char c h (ground (arith, large))))
]
