-- ===== src/Time/Stamps.antt =====
-- src/store/time.rs: the text of timestamps and the test of it.
use minicore_agent.Prelude.{
  ℕ, zero, suc, ◌+◌, ◌-◌, ◌/◌, ◌%◌, ◌^◌, Bool, false, not, ◌&&◌, ◌||◌, Option, none, some, [], ◌∷◌,
  ◌++◌, ltb, leb, ◌==◌, ◌==?◌, if◌then◌else◌, length, get_elem?, take, drop, is_empty, first, last,
  all, unwrap_or,
}
use minicore_agent.Prelude.Bytes.{Bytes}
use minicore_agent.Unified.Text.{is_digit, is_decimal, parse_usize}
use minicore_agent.Time.{days_in_month, civil_from_days}

-- `MAX_TIMESTAMP_BYTES`
abbrev pub max_timestamp_bytes : ℕ
max_timestamp_bytes = 64

-- `{n:0width}`; `fuel` is a bound of the digits, of which a `u64` has 20 at most.
abbrev pub pad : (fuel width n : ℕ) → Bytes
pad zero width n = []
pad (suc fuel) width n =
    let rest = pad fuel (width - 1) (n / 10) in
    if (width == 0) && (n == 0) then [] else rest ++ (b'0' + n % 10) ∷ []

unfoldable pub format_rfc3339_millis : (total_seconds millis : ℕ) → Bytes
format_rfc3339_millis total_seconds millis =
    let total = if ltb total_seconds (2 ^ 63) then total_seconds else 0 in
    let civil = civil_from_days (total / 86400) in
    let seconds = total % 86400 in
    pad 20 4 civil.year
    ++ b'-' ∷ pad 20 2 civil.month
    ++ b'-' ∷ pad 20 2 civil.day
    ++ b'T' ∷ pad 20 2 (seconds / 3600)
    ++ b':' ∷ pad 20 2 (seconds % 3600 / 60)
    ++ b':' ∷ pad 20 2 (seconds % 60)
    ++ b'.' ∷ pad 20 3 millis
    ++ b'Z' ∷ []

abbrev pub slice : (first last : ℕ) → Bytes → Bytes
slice first last bytes = take (last - first) (drop first bytes)

-- `bytes.get(range).is_some_and(|part| part.iter().all(u8::is_ascii_digit))`
abbrev pub digits : (first last : ℕ) → Bytes → Bool
digits first last bytes = leb last (length bytes) && all is_digit (slice first last bytes)

-- `parse::<u32>` of digits
abbrev pub parse_u32 : Bytes → Option ℕ
parse_u32 part = elim (parse_usize part) [
  | none ↦ none
  | some n ↦ if is_decimal part && ltb n (2 ^ 32) then some n else none
]

abbrev pub number : (first last : ℕ) → Bytes → Option ℕ
number first last bytes = parse_u32 (slice first last bytes)

abbrev pub skip_digits : Bytes → Bytes
skip_digits [] = []
skip_digits (c ∷ rest) = if is_digit c then skip_digits rest else c ∷ rest

-- What follows the seconds, after a fraction: `None` where a point has no digits.
abbrev pub skip_fraction : Bytes → Option Bytes
skip_fraction [] = some []
skip_fraction (c ∷ rest) =
    if c == b'.'
    then (if length (skip_digits rest) == length rest then none else some (skip_digits rest))
    else some (c ∷ rest)

-- The match on the byte after the fraction; `rest` is what follows it.
abbrev pub valid_zone : Bytes → Bool
valid_zone [] = false
valid_zone (c ∷ rest) =
    if c == b'Z'
    then is_empty rest
    else if c == b'+' || c == b'-'
    then (length rest == 5)
      && (get_elem? rest 2 ==? b':')
      && digits 0 2 rest
      && digits 3 5 rest
      && leb (unwrap_or (number 0 2 rest) 24) 23
      && leb (unwrap_or (number 3 5 rest) 60) 59
    else false

abbrev pub valid_fields : (year month day hour minute second : ℕ) → Bool
valid_fields year month day hour minute second = not (
    (year == 0)
    || not (leb 1 month && leb month 12)
    || (day == 0)
    || ltb (days_in_month year month) day
    || ltb 23 hour
    || ltb 59 minute
    || ltb 60 second)

-- The punctuation and the digits at their places.
abbrev pub has_shape : Bytes → Bool
has_shape bytes =
    (get_elem? bytes 4 ==? b'-')
    && (get_elem? bytes 7 ==? b'-')
    && (get_elem? bytes 10 ==? b'T')
    && (get_elem? bytes 13 ==? b':')
    && (get_elem? bytes 16 ==? b':')
    && digits 0 4 bytes
    && digits 5 7 bytes
    && digits 8 10 bytes
    && digits 11 13 bytes
    && digits 14 16 bytes
    && digits 17 19 bytes

-- The tests after the numbers are read.
abbrev pub valid_rest : Bytes → Bool
valid_rest bytes = elim (skip_fraction (drop 19 bytes)) [
  | none ↦ false
  | some rest ↦ valid_zone rest
]

abbrev pub valid_numbers : (year month day hour minute second : Option ℕ) → Bool
valid_numbers (some year) (some month) (some day) (some hour) (some minute) (some second) =
    valid_fields year month day hour minute second
valid_numbers _ _ _ _ _ _ = false

unfoldable pub valid_timestamp : Bytes → Bool
valid_timestamp bytes =
    not (ltb max_timestamp_bytes (length bytes) || ltb (length bytes) 20)
    && has_shape bytes
    && valid_numbers (number 0 4 bytes) (number 5 7 bytes) (number 8 10 bytes) (number 11 13 bytes)
        (number 14 16 bytes) (number 17 19 bytes)
    && valid_rest bytes
