-- ===== src/Budget/Tests.antt =====
-- Prefixes and shares of concrete budgets.
use minicore_agent.Prelude.{◌+◌, ◌-◌, ◌/◌, ◌≤◌, min, ◌≡◌, refl, [], ◌∷◌, ◌++◌, arith}
use minicore_agent.Budget.{
  Text, escaped_char_len, json_escaped_len, json_string_prefix, share, len_utf8,
}
use minicore_agent.Budget.Prefix.{json_string_prefix-fits, json_string_prefix-longest, share-fair}

-- `a`, a quote and `é`
abbrev text : Text
text = b'a' ∷ b'"' ∷ 233 ∷ []

json_string_prefix-fits_example :
    ((rest : Text) × (text ≡ json_string_prefix text 6 ++ rest))
    × (json_escaped_len (json_string_prefix text 6) ≤ 6 - 2)
json_string_prefix-fits_example = json_string_prefix-fits text 6

quoted_fits : json_escaped_len (b'a' ∷ b'"' ∷ []) ≡ 3
unfolding json_escaped_len escaped_char_len len_utf8
quoted_fits = refl

json_string_prefix-longest_example :
    (more : Text) × (json_string_prefix text 6 ≡ (b'a' ∷ b'"' ∷ []) ++ more)
json_string_prefix-longest_example =
    json_string_prefix-longest text 6 (b'a' ∷ b'"' ∷ []) (233 ∷ []) refl
      (omega (arith, quoted_fits))

share-fair_example :
    ((share 100 3 20).0 + (share 100 3 20).1 ≡ 20)
    × (min 100 (20 / 2) ≤ (share 100 3 20).0)
    × (min 3 (20 / 2) ≤ (share 100 3 20).1)
share-fair_example = share-fair 100 3 20
