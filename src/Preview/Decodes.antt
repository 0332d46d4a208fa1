-- ===== src/Preview/Decodes.antt =====
-- A step of `Escape::decode` does not panic: the high half that an escape keeps is one.
use minicore_agent.Prelude.{
  ℕ, ◌+◌, ◌*◌, ◌^◌, ◌≡◌, refl, inl, inr, Bool, true, ◌&&◌, ◌||◌, if◌then◌else◌, Option, none, some,
  arith, ltb, leb, ◌==◌, Bool-cases,
}
use minicore_agent.Preview.Escapes.{
  Escape, plain, slash, unicode, low_slash, low_u, low_unicode, from_u32, decoded, to_digit,
  shift_in, decode_slash, single_unit, paired_unit, unicode_digit, low_unicode_digit, decode,
}
use minicore_agent.Preview.Holds.{Holds, Holds->>=, Holds-if}
use minicore_agent.Preview.Bounds.{sub_from-Holds, if-both}

-- A high surrogate.
abbrev pub is_high : ℕ → Bool
is_high unit = leb 0xd800 unit && leb unit 0xdbff

abbrev pub escape_safe : Escape → Bool
escape_safe plain = true
escape_safe slash = true
escape_safe (unicode digits value) = true
escape_safe (low_slash high) = is_high high
escape_safe (low_u high) = is_high high
escape_safe (low_unicode high digits value) = is_high high

-- What follows a step is an escape that may go on.
abbrev pub Decodes : Option (Escape × Option ℕ) → Type 0
Decodes none = Unit
Decodes (some step) = escape_safe step.0 ≡ true

decoded-Decodes : (c : Option ℕ) → Decodes (decoded c)
decoded-Decodes none = tt
decoded-Decodes (some c) = refl

decode_slash-Decodes : (ch : ℕ) → Decodes (decode_slash ch)
decode_slash-Decodes ch = simple (ch == b'u') _ _ refl (
    simple (ch == b'"' || ch == b'\\' || ch == b'/') _ _ refl (
      simple (ch == b'b') _ _ refl (
        simple (ch == b'f') _ _ refl (
          simple (ch == b'n') _ _ refl
            (simple (ch == b'r') _ _ refl (simple (ch == b't') _ _ refl tt))))))
  where
    simple :
        (t : Bool) (x y : Option (Escape × Option ℕ))
        → Decodes x
        → Decodes y
        → Decodes (if t then x else y)
    simple t x y h k = if-both Decodes t h k

single_unit-Decodes : (value : ℕ) → Decodes (single_unit value)
single_unit-Decodes value =
    if-both Decodes (leb 0xdc00 value && leb value 0xdfff) tt (elim (Bool-cases (is_high value)) [
      | inl high ↦ rw high high
      | inr other ↦ rw other (decoded-Decodes (from_u32 value))
    ])

paired_unit-Holds : (high value : ℕ) → is_high high ≡ true → Holds (paired_unit high value) Decodes
paired_unit-Holds high value h = elim (Bool-cases (leb 0xdc00 value && leb value 0xdfff)) [
  | inl low ↦ rw low (
      Holds->>= (λ upper. upper + 0xd800 ≡ high) Decodes _ _
        (sub_from-Holds high 0xd800 (ground (arith, h)))
        λ upper e.
          Holds->>= (λ c. c + 0xdc00 ≡ 0x10000 + upper * 2 ^ 10 + value) Decodes _ _
            (sub_from-Holds (0x10000 + upper * 2 ^ 10 + value) 0xdc00 (ground (arith, low)))
            λ c f. decoded-Decodes (from_u32 c))
  | inr other ↦ rw other tt
]

unicode_digit-Decodes :
    (digits value : ℕ) (digit : Option ℕ) → Decodes (unicode_digit digits value digit)
unicode_digit-Decodes digits value none = tt
unicode_digit-Decodes digits value (some digit) =
    if-both Decodes (ltb digits 3) refl (single_unit-Decodes (shift_in value digit))

low_unicode_digit-Holds :
    (high digits value : ℕ) (digit : Option ℕ)
    → is_high high ≡ true
    → Holds (low_unicode_digit high digits value digit) Decodes
low_unicode_digit-Holds high digits value none h = tt
low_unicode_digit-Holds high digits value (some digit) h =
    Holds-if Decodes (ltb digits 3) _ _ h (paired_unit-Holds high (shift_in value digit) h)

pub decode-Decodes :
    (escape : Escape) (ch : ℕ) → escape_safe escape ≡ true → Holds (decode escape ch) Decodes
unfolding decode
decode-Decodes plain ch h =
    if-both Decodes (ch == b'\\') refl (if-both Decodes (ltb ch 0x20) tt refl)
decode-Decodes slash ch h = decode_slash-Decodes ch
decode-Decodes (low_slash high) ch h = if-both Decodes (ch == b'\\') h tt
decode-Decodes (low_u high) ch h = if-both Decodes (ch == b'u') h tt
decode-Decodes (unicode digits value) ch h = unicode_digit-Decodes digits value (to_digit ch)
decode-Decodes (low_unicode high digits value) ch h =
    low_unicode_digit-Holds high digits value (to_digit ch) h
