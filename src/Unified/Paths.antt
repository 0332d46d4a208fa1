-- ===== src/Unified/Paths.antt =====
-- The paths of a unified diff's file header.
pub mod Terminates
use minicore_agent.Prelude.{
  ℕ, zero, suc, ◌+◌, ◌-◌, ◌*◌, ◌/◌, ◌%◌, ◌^◌, ◌≤◌, ◌<◌, min, max, ◌≡◌, refl, sym, ap, subst, ◌∙◌,
  fun_ext, ◌≢◌, ◌↔◌, ◌⊎◌, inl, inr, Bool, true, false, not, ◌&&◌, ◌||◌, Option, none, some, List,
  [], ◌∷◌, ◌++◌, map, append-nil, append_assoc, arith, ltb, leb, ◌==◌, ◌==?◌, bool_eq,
  if◌then◌else◌, ltb→lt, lt→ltb, leb→le, ==_iff, ==_refl, Bool-cases, Option-cases, length,
  get_elem?, take, drop, is_empty, first, last, drop_last, all, filter, position, remove_at,
  insert_at, length-append, length-take, length-drop, take-append-drop, last-append_singleton,
  drop_last-append_singleton, last-eq-some, Result, ok, err, ◌>>=◌, ◌>>◌, guard, ok_or, unwrap_or,
  is_some, bind_assoc, >>=-eq-ok, ok_or->>=-eq-ok, guard->>=-eq-ok, reject-eq-ok, ok-injective,
}
use minicore_agent.Prelude.Bytes.{Bytes, bytes_eq, codes, strip_prefix}
use minicore_agent.Patch.{ToolError, invalid_invocation, internal}
use minicore_agent.Unified.Text.{starts_with, split_once, contains, strip_transport_ending}

abbrev is_octal : ℕ → Bool
is_octal c = leb b'0' c && leb c b'7'

-- The digits of an octal escape, at most `n` of them: its value and what follows it.
abbrev octal : ℕ → ℕ → Bytes → ℕ × Bytes
octal zero value bytes = (value, bytes)
octal (suc n) value [] = (value, [])
octal (suc n) value (c ∷ bytes) =
    if is_octal c then octal n (value * 8 + (c - b'0')) bytes else (value, c ∷ bytes)

-- The byte that a one-letter escape stands for.
abbrev escape : ℕ → Option ℕ
escape c =
    if (c == b'\\') || (c == b'"')
    then some c
    else if c == b'a'
    then some 7
    else if c == b'b'
    then some 8
    else if c == b't'
    then some b'\t'
    else if c == b'n'
    then some b'\n'
    else if c == b'v'
    then some 11
    else if c == b'f'
    then some 12
    else if c == b'r'
    then some b'\r'
    else none

-- The loop of `decode_quoted_path` after the opening quote: the bytes decoded and, after the closing
-- quote, the bytes left. On fuel, since an escape takes two to four bytes.
decode_loop : ℕ → Bytes → Result ToolError (Bytes × Bytes)
decode_loop zero bytes = err internal
decode_loop (suc fuel) [] = err invalid_invocation
decode_loop (suc fuel) (c ∷ bytes) =
    if c == b'"'
    then ok ([], bytes)
    else if c == b'\\'
    then (do
      escaped ← ok_or (first bytes) invalid_invocation
      (if is_some (escape escaped)
          then (do
            rest ← decode_loop fuel (drop 1 bytes)
            ok (unwrap_or (escape escaped) 0 ∷ rest.0, rest.1))
          else (do
            guard (is_octal escaped) invalid_invocation
            guard (ltb ((octal 3 0 bytes).0) 256) invalid_invocation
            rest ← decode_loop fuel ((octal 3 0 bytes).1)
            ok ((octal 3 0 bytes).0 ∷ rest.0, rest.1))))
    else (do rest ← decode_loop fuel bytes; ok (c ∷ rest.0, rest.1))

abbrev between : ℕ → ℕ → ℕ → Bool
between low high c = leb low c && leb c high

-- The bounds of the byte after a lead byte of a longer character, and how many bytes follow that one.
abbrev lead : ℕ → Option ((ℕ × ℕ) × ℕ)
lead c =
    if between 194 223 c
    then some ((128, 191), 0)
    else if c == 224
    then some ((160, 191), 1)
    else if c == 237
    then some ((128, 159), 1)
    else if between 225 239 c
    then some ((128, 191), 1)
    else if c == 240
    then some ((144, 191), 2)
    else if between 241 243 c
    then some ((128, 191), 2)
    else if c == 244
    then some ((128, 143), 2)
    else none

-- `String::from_utf8`: the test for UTF-8. `low`, `high` bound the next of `n` bytes awaited.
utf8_from : ℕ → ℕ → ℕ → Bytes → Bool
utf8_from low high zero [] = true
utf8_from low high (suc n) [] = false
utf8_from low high zero (c ∷ bytes) =
    if ltb c 128 then utf8_from 0 0 zero bytes else (elim (lead c) [
      | none ↦ false
      | some follow ↦ utf8_from follow.0.0 follow.0.1 (suc follow.1) bytes
    ])
utf8_from low high (suc n) (c ∷ bytes) = between low high c && utf8_from 128 191 n bytes

is_utf8 : Bytes → Bool
unfolding utf8_from
is_utf8 bytes = utf8_from 0 0 zero bytes

unfoldable pub decode_quoted_path : Bytes → Result ToolError Bytes
unfolding decode_loop is_utf8
decode_quoted_path value = do
  decoded ← decode_loop (length value) (drop 1 value)
  guard (is_empty decoded.1 || (first decoded.1 ==? b'\t')) invalid_invocation
  guard (is_utf8 decoded.0) invalid_invocation
  guard (not (contains 0 decoded.0)) invalid_invocation
  ok decoded.0

unfoldable pub parse_header_path : Bytes → Bytes → Result ToolError Bytes
parse_header_path line prefix = do
  value ← ok_or (strip_prefix prefix (strip_transport_ending line)) invalid_invocation
  path ←
      (if starts_with (b'"' ∷ []) value
        then decode_quoted_path value
        else ok (unwrap_or (split_once (b'\t' ∷ []) value) (value, [])).0)
  guard (not (is_empty path || contains 0 path)) invalid_invocation
  ok path

-- The parts of a path between its `/`.
path_parts : Bytes → Bytes → List Bytes
path_parts part [] = part ∷ []
path_parts part (c ∷ path) =
    if c == b'/' then part ∷ path_parts [] path else path_parts (part ++ c ∷ []) path

-- On Unix a path is absolute, and has a root, when it starts with `/`; it has no prefix.
abbrev leaves_workspace : Bytes → Bool
unfolding path_parts
leaves_workspace path =
    (first path ==? b'/')
    || not (all (λ part. not (bytes_eq part (codes ".."))) (path_parts [] path))

unfoldable pub validate_header_path : Bytes → Bytes → Bytes → Result ToolError (Unit {0})
unfolding leaves_workspace
validate_header_path header tool_path prefix =
    let candidate =
      if bytes_eq header tool_path then header else unwrap_or (strip_prefix prefix header) header in
    guard
      (bytes_eq candidate tool_path
        && not (is_empty candidate)
        && not (contains 0 candidate)
        && not (leaves_workspace candidate))
      invalid_invocation
