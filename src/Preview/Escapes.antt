-- ===== src/Preview/Escapes.antt =====
-- The escapes and the numbers of the JSON reader.
use minicore_agent.Prelude.{
  ℕ, ◌+◌, ◌-◌, ◌*◌, ◌%◌, ◌^◌, Bool, true, false, not, ◌&&◌, ◌||◌, Option, none, some, ltb, leb,
  ◌==◌, if◌then◌else◌, Result, ok, err, ◌>>=◌,
}

-- What would panic: `unwrap` of a `None`, and a subtraction below 0.
pub data Panic : Type 0 where
  unwrapped_none underflow : Panic

-- An unsigned subtraction.
abbrev pub sub_from : ℕ → ℕ → Result Panic ℕ
sub_from a b = if ltb a b then err underflow else ok (a - b)

pub data Escape : Type 0 where
  plain slash : Escape
  unicode : (digits value : ℕ) → Escape
  low_slash low_u : (high : ℕ) → Escape
  low_unicode : (high digits value : ℕ) → Escape

-- `char::to_digit(16)`
abbrev pub to_digit : ℕ → Option ℕ
to_digit c =
    if leb b'0' c && leb c b'9'
    then some (c - b'0')
    else if leb b'a' c && leb c b'f'
    then some (c - b'a' + 10)
    else if leb b'A' c && leb c b'F'
    then some (c - b'A' + 10)
    else none

-- `char::from_u32`
abbrev pub from_u32 : ℕ → Option ℕ
from_u32 n = if ltb n 0x110000 && not (leb 0xd800 n && leb n 0xdfff) then some n else none

-- A decoded character ends its escape.
abbrev pub decoded : Option ℕ → Option (Escape × Option ℕ)
decoded none = none
decoded (some c) = some (plain, some c)

-- The character after a backslash.
abbrev pub decode_slash : ℕ → Option (Escape × Option ℕ)
decode_slash ch =
    if ch == b'u'
    then some (unicode 0 0, none)
    else if ch == b'"' || ch == b'\\' || ch == b'/'
    then decoded (some ch)
    else if ch == b'b'
    then decoded (some 8)
    else if ch == b'f'
    then decoded (some 12)
    else if ch == b'n'
    then decoded (some b'\n')
    else if ch == b'r'
    then decoded (some b'\r')
    else if ch == b't'
    then decoded (some b'\t')
    else none

-- `(value << 4) | digit` on `u16`.
abbrev pub shift_in : ℕ → ℕ → ℕ
shift_in value digit = value * 16 % 2 ^ 16 + digit

-- The four digits of an escape that does not follow the high half of a pair.
abbrev pub single_unit : ℕ → Option (Escape × Option ℕ)
single_unit value =
    if leb 0xdc00 value && leb value 0xdfff
    then none
    else if leb 0xd800 value && leb value 0xdbff
    then some (low_slash value, none)
    else decoded (from_u32 value)

-- A pair's character, with the subtractions on `u32` checked.
abbrev pub paired_unit : (high value : ℕ) → Result Panic (Option (Escape × Option ℕ))
paired_unit high value =
    if leb 0xdc00 value && leb value 0xdfff
    then (sub_from high 0xd800 >>= λ upper.
        sub_from (0x10000 + upper * 2 ^ 10 + value) 0xdc00 >>= λ c. ok (decoded (from_u32 c)))
    else ok none

-- A digit of an escape, the last of which is the fourth.
abbrev pub unicode_digit : (digits value : ℕ) → Option ℕ → Option (Escape × Option ℕ)
unicode_digit digits value none = none
unicode_digit digits value (some digit) =
    if ltb digits 3
    then some (unicode (digits + 1) (shift_in value digit), none)
    else single_unit (shift_in value digit)

abbrev pub low_unicode_digit :
    (high digits value : ℕ) → Option ℕ → Result Panic (Option (Escape × Option ℕ))
low_unicode_digit high digits value none = ok none
low_unicode_digit high digits value (some digit) =
    if ltb digits 3
    then ok (some (low_unicode high (digits + 1) (shift_in value digit), none))
    else paired_unit high (shift_in value digit)

-- `Escape::decode`
unfoldable pub decode : Escape → ℕ → Result Panic (Option (Escape × Option ℕ))
decode plain ch =
    ok (if ch == b'\\' then some (slash, none) else if ltb ch 0x20 then none else decoded (some ch))
decode slash ch = ok (decode_slash ch)
decode (low_slash high) ch = ok (if ch == b'\\' then some (low_u high, none) else none)
decode (low_u high) ch = ok (if ch == b'u' then some (low_unicode high 0 0, none) else none)
decode (unicode digits value) ch = ok (unicode_digit digits value (to_digit ch))
decode (low_unicode high digits value) ch = low_unicode_digit high digits value (to_digit ch)

pub data NumberState : Type 0 where
  minus_state zero_state integer_state dot_state fraction_state exp_state exp_sign_state
        exp_digits_state :
      NumberState

-- `NumberState::complete`
abbrev pub is_complete_number : NumberState → Bool
is_complete_number minus_state = false
is_complete_number zero_state = true
is_complete_number integer_state = true
is_complete_number dot_state = false
is_complete_number fraction_state = true
is_complete_number exp_state = false
is_complete_number exp_sign_state = false
is_complete_number exp_digits_state = true

abbrev pub is_ascii_digit : ℕ → Bool
is_ascii_digit ch = leb b'0' ch && leb ch b'9'

abbrev is_exp : ℕ → Bool
is_exp ch = ch == b'e' || ch == b'E'

-- The table of `token_char` for the next character of a number.
unfoldable pub next_number : NumberState → ℕ → Option NumberState
next_number minus_state ch =
    if ch == b'0'
    then some zero_state
    else if leb b'1' ch && leb ch b'9'
    then some integer_state
    else none
next_number zero_state ch =
    if ch == b'.' then some dot_state else if is_exp ch then some exp_state else none
next_number integer_state ch =
    if is_ascii_digit ch
    then some integer_state
    else if ch == b'.'
    then some dot_state
    else if is_exp ch
    then some exp_state
    else none
next_number dot_state ch = if is_ascii_digit ch then some fraction_state else none
next_number fraction_state ch =
    if is_exp ch then some exp_state else if is_ascii_digit ch then some fraction_state else none
next_number exp_state ch =
    if ch == b'+' || ch == b'-'
    then some exp_sign_state
    else if is_ascii_digit ch
    then some exp_digits_state
    else none
next_number exp_sign_state ch = if is_ascii_digit ch then some exp_digits_state else none
next_number exp_digits_state ch = if is_ascii_digit ch then some exp_digits_state else none
