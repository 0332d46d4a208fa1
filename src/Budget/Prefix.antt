-- ===== src/Budget/Prefix.antt =====
-- `json_string_prefix` gives the longest prefix within the budget, and `share` is fair.
use minicore_agent.Prelude.{
  ℕ, ◌+◌, ◌-◌, ◌/◌, ◌≤◌, ◌<◌, min, ◌≡◌, refl, sym, ap, subst, ◌∙◌, inl, inr, false, [], ◌∷◌, ◌++◌,
  arith, ltb, if◌then◌else◌, Bool-cases, first,
}
use minicore_agent.Budget.{
  Text, len_utf8, escaped_char_len, json_escaped_len, prefix_end, slice_to, json_string_prefix,
  share,
}

-- The characters that the loop takes.
fit : ℕ → Text → Text
fit remaining [] = []
fit remaining (c ∷ text) =
    let rest = fit (remaining - escaped_char_len c) text in
    if ltb remaining (escaped_char_len c) then [] else c ∷ rest

byte_len : Text → ℕ
byte_len [] = 0
byte_len (c ∷ text) = len_utf8 c + byte_len text

prefix_end-fit :
    (remaining index : ℕ) (text : Text)
    → prefix_end remaining index index text ≡ index + byte_len (fit remaining text)
unfolding prefix_end fit byte_len
prefix_end-fit remaining index [] = omega arith
prefix_end-fit remaining index (c ∷ text) =
    let ih = prefix_end-fit (remaining - escaped_char_len c) (index + len_utf8 c) text in
    elim (Bool-cases (ltb remaining (escaped_char_len c))) [
      | inl stop ↦ rw stop (omega arith)
      | inr go ↦ rw go (omega (arith, ih))
    ]

len_utf8-positive : (c : ℕ) → 0 < len_utf8 c
unfolding len_utf8
len_utf8-positive c = ground arith

not-ltb-sum : (a b : ℕ) → ltb (a + b) a ≡ false
not-ltb-sum a b = ground arith

sum-minus : (a b : ℕ) → a + b - a ≡ b
sum-minus a b = omega arith

slice_to-go :
    (a b c : ℕ) (text : Text) {r : Text}
    → slice_to b text ≡ r
    → (if ltb (a + b) a then [] else c ∷ slice_to (a + b - a) text) ≡ c ∷ r
slice_to-go a b c text h =
    rw (not-ltb-sum a b) (ap (◌∷◌ c) (ap (λ n. slice_to n text) (sum-minus a b) ∙ h))

go_on : (a b r : ℕ) → ltb r a ≡ false → b ≤ r - a → a + b ≤ r
go_on a b r h k = ground arith

not-lt : (r a : ℕ) → a ≤ r → ltb r a ≡ false
not-lt r a h = ground arith

fit-go :
    (r a : ℕ) (x : Text) (c : ℕ) {y : Text}
    → a ≤ r
    → x ≡ y
    → (if ltb r a then [] else c ∷ x) ≡ c ∷ y
fit-go r a x c h e = rw (not-lt r a h) (ap (◌∷◌ c) e)

slice_to-fit :
    (remaining : ℕ) (text : Text)
    → slice_to (byte_len (fit remaining text)) text ≡ fit remaining text
unfolding slice_to fit byte_len
slice_to-fit remaining [] = refl
slice_to-fit remaining (c ∷ text) =
    let ih = slice_to-fit (remaining - escaped_char_len c) text in
    elim (Bool-cases (ltb remaining (escaped_char_len c))) [
      | inl stop ↦ rw stop (ground (arith, len_utf8-positive c))
      | inr go ↦ rw go (slice_to-go (len_utf8 c) _ c text ih)
    ]

fit-within : (remaining : ℕ) (text : Text) → json_escaped_len (fit remaining text) ≤ remaining
unfolding json_escaped_len fit
fit-within remaining [] = omega arith
fit-within remaining (c ∷ text) =
    let ih = fit-within (remaining - escaped_char_len c) text in
    elim (Bool-cases (ltb remaining (escaped_char_len c))) [
      | inl stop ↦ rw stop (omega arith)
      | inr go ↦ rw go (go_on (escaped_char_len c) _ remaining go ih)
    ]

fit-longest :
    (remaining : ℕ) (prefix rest : Text)
    → json_escaped_len prefix ≤ remaining
    → (more : Text) × (fit remaining (prefix ++ rest) ≡ prefix ++ more)
unfolding json_escaped_len fit
fit-longest remaining [] rest h = (fit remaining rest, refl)
fit-longest remaining (c ∷ prefix) rest h =
    let (more, e) = fit-longest (remaining - escaped_char_len c) prefix rest (omega (arith, h)) in
    (more, fit-go remaining (escaped_char_len c) _ c (omega (arith, h)) e)

text-append : (text : Text) (end : ℕ) → (rest : Text) × (text ≡ slice_to end text ++ rest)
unfolding slice_to
text-append [] end = ([], refl)
text-append (c ∷ text) end =
    let (rest, e) = text-append text (end - len_utf8 c) in
    elim (Bool-cases (ltb end (len_utf8 c))) [
      | inl stop ↦ (c ∷ text, rw stop refl)
      | inr go ↦ (rest, rw go (ap (◌∷◌ c) e))
    ]

json_string_prefix-fit :
    (text : Text) (limit : ℕ) → json_string_prefix text limit ≡ fit (limit - 2) text
unfolding json_string_prefix
json_string_prefix-fit text limit =
    ap (λ n. slice_to n text) (prefix_end-fit (limit - 2) 0 text ∙ (omega arith))
    ∙ slice_to-fit (limit - 2) text

-- The prefix for a JSON string budget is a prefix of the text, and its escaped size with the two
-- quotes is within the budget (when the quotes are).
pub json_string_prefix-fits :
    (text : Text) (limit : ℕ)
    → ((rest : Text) × (text ≡ json_string_prefix text limit ++ rest))
      × (json_escaped_len (json_string_prefix text limit) ≤ limit - 2)
unfolding json_string_prefix
json_string_prefix-fits text limit = (
  text-append text _,
  subst (λ p. json_escaped_len p ≤ limit - 2) (sym (json_string_prefix-fit text limit))
      (fit-within (limit - 2) text),
)

-- The prefix for a JSON string budget is the longest: every prefix of the text that fits the budget is
-- a prefix of it.
pub json_string_prefix-longest :
    (text : Text) (limit : ℕ) (prefix rest : Text)
    → text ≡ prefix ++ rest
    → json_escaped_len prefix ≤ limit - 2
    → (more : Text) × (json_string_prefix text limit ≡ prefix ++ more)
json_string_prefix-longest text limit prefix rest e h =
    let (more, f) = fit-longest (limit - 2) prefix rest h in
    (more, json_string_prefix-fit text limit ∙ ap (fit (limit - 2)) e ∙ f)

-- A total is split without a rest, and neither part gets less than half of it, unless it needs less.
pub share-fair :
    (first second total : ℕ)
    → ((share first second total).0 + (share first second total).1 ≡ total)
      × (min first (total / 2) ≤ (share first second total).0)
      × (min second (total / 2) ≤ (share first second total).1)
unfolding share
share-fair first second total = (ground arith, ground arith, ground arith)
