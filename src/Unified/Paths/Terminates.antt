-- ===== src/Unified/Paths/Terminates.antt =====
-- The loops over a quoted path end.
use minicore_agent.Prelude.{
  ℕ, zero, suc, ◌+◌, ◌-◌, ◌*◌, ◌≤◌, ◌<◌, ◌≡◌, refl, true, false, not, ◌||◌, [], ◌∷◌, arith, ltb,
  ◌==◌, ◌==?◌, length, drop, is_empty, first, length-drop, is_some,
}
use minicore_agent.Prelude.Bytes.{Bytes, strip_prefix}
use minicore_agent.Unified.Text.{starts_with, contains, strip_transport_ending}
use minicore_agent.Unified.Paths.{
  octal, escape, is_octal, decode_loop, decode_quoted_path, is_utf8, parse_header_path,
  validate_header_path,
}
use minicore_agent.Unified.Enough.{
  Enough, Enough-ok, Enough-err, Enough-ok_or, Enough-guard, Enough-guard->>, Enough->>=, Enough-if,
}

length-octal : (n value : ℕ) (bytes : Bytes) → length ((octal n value bytes).1) ≤ length bytes
length-octal zero value bytes = omega arith
length-octal (suc n) value [] = omega arith
length-octal (suc n) value (c ∷ bytes) =
    ground (arith, length-octal n (value * 8 + (c - b'0')) bytes)

length-drop_one : (bytes : Bytes) → length (drop 1 bytes) ≤ length bytes
length-drop_one bytes = omega (arith, length-drop 1 bytes)

decode_loop-Enough :
    (fuel : ℕ) (bytes : Bytes) → length bytes < fuel → Enough (decode_loop fuel bytes)
unfolding decode_loop
decode_loop-Enough zero bytes l = omega arith
decode_loop-Enough (suc fuel) [] l = Enough-err
decode_loop-Enough (suc fuel) (c ∷ bytes) l =
    let shorter : length bytes < fuel = omega (arith, l) in
    Enough-if (c == b'"') (λ _. Enough-ok _)
      λ _.
        Enough-if (c == b'\\')
          (λ _. Enough->>= _ _ (Enough-ok_or (first bytes)) λ escaped _.
            Enough-if (is_some (escape escaped))
              (λ _.
                Enough->>= _ _
                  (decode_loop-Enough fuel (drop 1 bytes) (omega (arith, length-drop_one bytes)))
                  λ rest _. Enough-ok _)
              (λ _. Enough-guard->> (is_octal escaped) _ λ _.
                Enough-guard->> (ltb ((octal 3 0 bytes).0) 256) _ λ _.
                  Enough->>= _ _
                    (decode_loop-Enough fuel ((octal 3 0 bytes).1)
                      (omega (arith, length-octal 3 0 bytes)))
                    λ rest _. Enough-ok _))
          (λ _. Enough->>= _ _ (decode_loop-Enough fuel bytes shorter) λ rest _. Enough-ok _)

decode_quoted_path-Enough :
    (value : Bytes) → is_empty value ≡ false → Enough (decode_quoted_path value)
unfolding decode_quoted_path
decode_quoted_path-Enough [] e = absurd (cc)
decode_quoted_path-Enough (c ∷ value) e =
    Enough->>= _ _ (decode_loop-Enough (length (c ∷ value)) value (omega arith)) λ decoded _.
      Enough-guard->> (is_empty decoded.1 || (first decoded.1 ==? b'\t')) _ λ _.
        Enough-guard->> (is_utf8 decoded.0) _
          λ _. Enough-guard->> (not (contains 0 decoded.0)) _ λ _. Enough-ok _

starts_with-not-empty : (p : ℕ) (s : Bytes) → starts_with (p ∷ []) s ≡ true → is_empty s ≡ false
unfolding starts_with strip_prefix
starts_with-not-empty p [] h = cc
starts_with-not-empty p (c ∷ s) h = refl

pub parse_header_path-Enough : (line prefix : Bytes) → Enough (parse_header_path line prefix)
unfolding parse_header_path
parse_header_path-Enough line prefix =
    Enough->>= _ _ (Enough-ok_or (strip_prefix prefix (strip_transport_ending line))) λ value _.
      Enough->>= _ _
        (Enough-if (starts_with (b'"' ∷ []) value)
          (λ q. decode_quoted_path-Enough value (starts_with-not-empty b'"' value q))
          (λ _. Enough-ok _))
        λ path _. Enough-guard->> (not (is_empty path || contains 0 path)) _ λ _. Enough-ok _

pub validate_header_path-Enough :
    (header tool_path prefix : Bytes) → Enough (validate_header_path header tool_path prefix)
unfolding validate_header_path
validate_header_path-Enough header tool_path prefix = Enough-guard _
