-- ===== src/Inputs/Ids.antt =====
-- The ids of queued inputs, `format!("inp_{:032x}", next_id)` of sessions/inputs.rs.
use minicore_agent.Prelude.{
  ℕ, zero, suc, ◌+◌, ◌-◌, ◌/◌, ◌%◌, ◌^◌, ◌<◌, ◌≡◌, sym, ap, ◌∙◌, some, [], ◌∷◌, ◌++◌, arith, ltb,
  if◌then◌else◌, last, drop_last, last-append_singleton, drop_last-append_singleton,
}
use native.Mathlib.Nat.{pow-suc}
use minicore_agent.Prelude.Bytes.{Bytes, codes}

-- A lower-case hexadecimal digit.
unfoldable pub hex_digit : ℕ → ℕ
hex_digit d = if ltb d 10 then b'0' + d else b'a' + (d - 10)

-- The last `w` digits, the first most significant.
unfoldable pub hex : ℕ → ℕ → Bytes
unfolding hex_digit
hex zero n = []
hex (suc w) n = hex w (n / 16) ++ hex_digit (n % 16) ∷ []

unfoldable pub format_id : ℕ → Bytes
unfolding hex
format_id n = codes "inp_" ++ hex 32 n

hex_digit-injective : (a b : ℕ) → a < 16 → b < 16 → hex_digit a ≡ hex_digit b → a ≡ b
unfolding hex_digit
hex_digit-injective a b h k e = ground arith

append_singleton-injective :
    (xs ys : Bytes) (x y : ℕ) → xs ++ x ∷ [] ≡ ys ++ y ∷ [] → (xs ≡ ys) × (x ≡ y)
append_singleton-injective xs ys x y e =
    let lasts : some x ≡ some y =
      sym (last-append_singleton xs x) ∙ ap last e ∙ last-append_singleton ys y in
    (
      sym (drop_last-append_singleton xs x) ∙ ap drop_last e ∙ drop_last-append_singleton ys y,
      cc lasts,
    )

hex-injective : (w m n : ℕ) → m < 16 ^ w → n < 16 ^ w → hex w m ≡ hex w n → m ≡ n
unfolding hex
hex-injective zero m n h k e = omega arith
hex-injective (suc w) m n h k e =
    let (tops, lasts) = append_singleton-injective (hex w (m / 16)) (hex w (n / 16)) _ _ e in
    let high : m / 16 ≡ n / 16 =
      hex-injective w (m / 16) (n / 16) (omega (arith, pow-suc 16 w)) (omega (arith, pow-suc 16 w))
        tops in
    let low : m % 16 ≡ n % 16 =
      hex_digit-injective (m % 16) (n % 16) (omega arith) (omega arith) lasts in
    omega arith

append_left-injective : (p xs ys : Bytes) → p ++ xs ≡ p ++ ys → xs ≡ ys
append_left-injective [] xs ys e = e
append_left-injective (c ∷ p) xs ys e = append_left-injective p xs ys (cc)

pub format_id-injective : (m n : ℕ) → m < 2 ^ 64 → n < 2 ^ 64 → format_id m ≡ format_id n → m ≡ n
unfolding format_id
format_id-injective m n h k e =
    hex-injective 32 m n (omega arith) (omega arith)
      (append_left-injective (codes "inp_") (hex 32 m) (hex 32 n) e)
