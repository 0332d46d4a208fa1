-- ===== src/Budget.antt =====
-- src/budget.rs: the escaped size of text in JSON, with text as a list of characters; and the two-way
-- split of a budget, `share` of src/tools/truncate.rs.
mod Prefix
mod Tests
use minicore_agent.Prelude.{
  ℕ, zero, suc, ◌+◌, ◌-◌, ◌*◌, ◌/◌, ◌%◌, ◌^◌, ◌≤◌, ◌<◌, min, max, ◌≡◌, refl, sym, ap, subst, ◌∙◌,
  fun_ext, ◌≢◌, ◌↔◌, ◌⊎◌, inl, inr, Bool, true, false, not, ◌&&◌, ◌||◌, Option, none, some, List,
  [], ◌∷◌, ◌++◌, map, append-nil, append_assoc, arith, ltb, leb, ◌==◌, ◌==?◌, bool_eq,
  if◌then◌else◌, ltb→lt, lt→ltb, leb→le, ==_iff, ==_refl, Bool-cases, Option-cases, length,
  get_elem?, take, drop, is_empty, first, last, drop_last, all, filter, position, remove_at,
  insert_at, length-append, length-take, length-drop, take-append-drop, last-append_singleton,
  drop_last-append_singleton, last-eq-some, Result, ok, err, ◌>>=◌, ◌>>◌, guard, ok_or, unwrap_or,
  is_some, bind_assoc, >>=-eq-ok, ok_or->>=-eq-ok, guard->>=-eq-ok, reject-eq-ok, ok-injective,
}

abbrev pub Text : Type 0
Text = List ℕ

-- `char::len_utf8`
unfoldable pub len_utf8 : ℕ → ℕ
len_utf8 c = if ltb c 128 then 1 else if ltb c 2048 then 2 else if ltb c 65536 then 3 else 4

-- The characters with an escape of two bytes.
abbrev short_escape : ℕ → Bool
short_escape c =
    (c == b'"')
    || (c == b'\\')
    || (c == 8)
    || (c == b'\t')
    || (c == b'\n')
    || (c == 12)
    || (c == b'\r')

unfoldable pub escaped_char_len : ℕ → ℕ
escaped_char_len c = if short_escape c then 2 else if ltb c 32 then 6 else len_utf8 c

unfoldable pub json_escaped_len : Text → ℕ
json_escaped_len [] = 0
json_escaped_len (c ∷ text) = escaped_char_len c + json_escaped_len text

-- The loop of `json_string_prefix` at byte `index`: the `end` it stops with.
unfoldable pub prefix_end : ℕ → ℕ → ℕ → Text → ℕ
prefix_end remaining index end [] = end
prefix_end remaining index end (c ∷ text) =
    let rest =
      prefix_end (remaining - escaped_char_len c) (index + len_utf8 c) (index + len_utf8 c) text in
    if ltb remaining (escaped_char_len c) then end else rest

-- `&text[..end]`, where `end` is the end of a character.
unfoldable pub slice_to : ℕ → Text → Text
slice_to end [] = []
slice_to end (c ∷ text) =
    let rest = slice_to (end - len_utf8 c) text in if ltb end (len_utf8 c) then [] else c ∷ rest

unfoldable pub json_string_prefix : Text → ℕ → Text
json_string_prefix text max_encoded_bytes =
    slice_to (prefix_end (max_encoded_bytes - 2) 0 0 text) text

unfoldable pub share : ℕ → ℕ → ℕ → ℕ × ℕ
share first second total =
    let first_budget = if leb first (total / 2) then first else total - min second (total / 2) in
    (first_budget, total - first_budget)
