-- ===== src/Unified/Text.antt =====
-- The methods of `str` that unified.rs uses, on bytes.
use minicore_agent.Prelude.{
  ℕ, ◌+◌, ◌-◌, ◌*◌, Bool, not, ◌&&◌, Option, none, some, List, [], ◌∷◌, ◌++◌, ltb, leb, ◌==◌, ◌==?◌,
  if◌then◌else◌, is_empty, last, drop_last, all, is_some,
}
use minicore_agent.Prelude.Bytes.{Bytes, strip_prefix}
use minicore_agent.Patch.{usize_limit}

-- `starts_with`
unfoldable pub starts_with : Bytes → Bytes → Bool
starts_with p s = is_some (strip_prefix p s)

-- `split_once`, and `find` with the slices around what it finds; `p` is not empty.
unfoldable pub split_once : Bytes → Bytes → Option (Bytes × Bytes)
split_once p [] = none
split_once p (c ∷ s) = elim (strip_prefix p (c ∷ s)) [
  | some rest ↦ some ([], rest)
  | none ↦ elim (split_once p s) [ none ↦ none | some parts ↦ some (c ∷ parts.0, parts.1) ]
]

-- `contains` of a one-byte character
unfoldable pub contains : ℕ → Bytes → Bool
contains c s = not (all (λ d. not (d == c)) s)

split_line : Bytes → Bytes → List Bytes
split_line line [] = if is_empty line then [] else line ∷ []
split_line line (c ∷ s) =
    if c == b'\n' then (line ++ c ∷ []) ∷ split_line [] s else split_line (line ++ c ∷ []) s

-- `split_inclusive('\n')`
unfoldable pub split_inclusive : Bytes → List Bytes
unfolding split_line
split_inclusive s = split_line [] s

unfoldable pub strip_transport_ending : Bytes → Bytes
strip_transport_ending line =
    if last line ==? b'\n'
    then (let body = drop_last line in if last body ==? b'\r' then drop_last body else body)
    else line

abbrev pub is_digit : ℕ → Bool
is_digit c = leb b'0' c && leb c b'9'

unfoldable pub is_decimal : Bytes → Bool
is_decimal s = not (is_empty s) && all is_digit s

unfoldable pub decimal : ℕ → Bytes → ℕ
decimal n [] = n
decimal n (c ∷ s) = decimal (n * 10 + (c - b'0')) s

-- `parse::<usize>` of a text of digits
unfoldable pub parse_usize : Bytes → Option ℕ
unfolding decimal
parse_usize s = if ltb (decimal 0 s) usize_limit then some (decimal 0 s) else none
