-- ===== src/Truncate/Limits.antt =====
-- The end that `truncate_tail` keeps, in the lines of the text.
use minicore_agent.Prelude.{
  ℕ, ◌-◌, ◌≤◌, ◌<◌, ◌≡◌, refl, sym, ap, subst, ◌∙◌, ◌⊎◌, inl, inr, Bool, true, false, Option, none,
  some, List, [], ◌∷◌, ◌++◌, append_assoc, arith, if◌then◌else◌, length, take, drop, all,
  length-append, length-drop, take-append-drop,
}
use minicore_agent.Prelude.Bytes.{Bytes}
use minicore_agent.Truncate.{
  Tail, Kept, body_of, ceil_char_boundary, split_from, tail_loop, none_kept, rsplit, truncate_tail,
}
use minicore_agent.Truncate.Lines.{
  joined, is_line, is_continuation, at_boundary, joined-split_from, split_from-lines,
  reversed-rsplit, joined-append, drop-end, continuation-Cut,
}
use minicore_agent.Truncate.Ends.{Whole, Part, Ends, rsplit-Ends}

-- The text is the last lines, whole, as many as the limits allow: all, or the most lines, or the line
-- before them would exceed the bytes.
pub record KeepsLines (lines : List Bytes) (max_lines max_bytes : ℕ) (tail : Tail) : Type 0 where
  pub front : List Bytes
  pub after : List Bytes
  pub parts : lines ≡ front ++ after
  pub entire : tail.partial ≡ false
  pub counted : tail.kept_lines ≡ length after
  pub shown : tail.text ≡ joined after
  pub few : tail.kept_lines ≤ max_lines
  pub small : length tail.text ≤ max_bytes
  pub most :
      (front ≡ [])
      ⊎ ((tail.kept_lines ≡ max_lines)
          ⊎ ((0 < tail.kept_lines)
              × ((before : List Bytes) × (line : Bytes) × (front ≡ before ++ line ∷ [])
                  × (max_bytes < length (joined (line ∷ after))))))

-- The last line alone exceeds the bytes: the text is its end, from the first character on that starts
-- within the last `max_bytes` bytes.
pub record KeepsEnd (lines : List Bytes) (max_lines max_bytes : ℕ) (tail : Tail) : Type 0 where
  pub before : List Bytes
  pub line : Bytes
  pub parts : lines ≡ before ++ line ∷ []
  pub cut : tail.partial ≡ true
  pub counted : tail.kept_lines ≡ 1
  pub allowed : 1 ≤ max_lines
  pub long : max_bytes < length line
  pub start : Bytes
  pub inside : Bytes
  pub shown : line ≡ start ++ (inside ++ tail.text)
  pub size : length (inside ++ tail.text) ≡ max_bytes
  pub continues : all is_continuation inside ≡ true
  pub boundary : at_boundary tail.text ≡ true

if-none : (t : Bool) (x : Option Tail) {r : Tail} → (if t then none else x) ≡ some r → x ≡ some r
if-none true x h = cc
if-none false x h = h

some-injective : {A : Type 0} {a b : A} → some a ≡ some b → a ≡ b
some-injective h = cc

module _ (body : Bytes) (lines : List Bytes) (whole : joined lines ≡ body) (max_lines max_bytes : ℕ)
    (kept : Kept) (tail : Tail) (text_is : drop (length body - kept.kept_bytes) body ≡ tail.text)
    (count_is : kept.kept_lines ≡ tail.kept_lines) (partial_is : kept.partial ≡ tail.partial) where
  Whole-KeepsLines :
      Whole lines max_lines max_bytes kept.kept_lines kept.kept_bytes kept.partial
      → KeepsLines lines max_lines max_bytes tail
  Whole-KeepsLines h =
      let (p, e) = joined-append h.front h.after in
      let shown : tail.text ≡ joined h.after =
        sym text_is
        ∙ drop-end body p (joined h.after) kept.kept_bytes (sym whole ∙ ap joined h.parts ∙ e)
            h.sized in
      record {
        front = h.front;
        after = h.after;
        parts = h.parts;
        entire = sym partial_is ∙ h.entire;
        counted = sym count_is ∙ h.counted;
        shown = shown;
        few = omega (arith, count_is, h.few);
        small = omega (arith, h.sized, h.small, ap length shown);
        most =
            subst
              (λ n.
                (h.front ≡ [])
                ⊎ ((n ≡ max_lines)
                    ⊎ ((0 < n)
                        × ((before : List Bytes) × (line : Bytes) × (h.front ≡ before ++ line ∷ [])
                            × (max_bytes < length (joined (line ∷ h.after)))))))
              count_is h.most;
      }

  Part-KeepsEnd :
      Part lines max_lines max_bytes kept.kept_lines kept.kept_bytes kept.partial
      → KeepsEnd lines max_lines max_bytes tail
  unfolding ceil_char_boundary
  Part-KeepsEnd h =
      let (p, e) = joined-append h.before (h.line ∷ []) in
      let from = length h.line - max_bytes in
      let c = continuation-Cut (drop from h.line) in
      let line_is : h.line ≡ take from h.line ++ (c.inside ++ c.left) =
        sym (take-append-drop from h.line) ∙ ap (λ t. take from h.line ++ t) c.whole in
      let sizes = ap length c.whole ∙ length-append c.inside c.left in
      let body_is : body ≡ (p ++ (take from h.line ++ c.inside)) ++ c.left =
        sym whole
        ∙ ap joined h.parts
        ∙ e
        ∙ ap (λ t. p ++ t) (line_is ∙ sym (append_assoc (take from h.line) c.inside c.left))
        ∙ sym (append_assoc p (take from h.line ++ c.inside) c.left) in
      let shown : c.left ≡ tail.text =
        sym (
          drop-end body (p ++ (take from h.line ++ c.inside)) c.left kept.kept_bytes body_is
            (omega (arith, h.sized, h.long, sizes, c.size, length-drop from h.line)))
        ∙ text_is in
      record {
        before = h.before;
        line = h.line;
        parts = h.parts;
        cut = sym partial_is ∙ h.cut;
        counted = sym count_is ∙ h.counted;
        allowed = h.allowed;
        long = h.long;
        start = take from h.line;
        inside = c.inside;
        shown = line_is ∙ ap (λ t. take from h.line ++ (c.inside ++ t)) shown;
        size =
            ap (λ t. length (c.inside ++ t)) (sym shown)
            ∙ ap length (sym c.whole)
            ∙ omega (arith, h.long, length-drop from h.line);
        continues = c.continues;
        boundary = ap at_boundary (sym shown) ∙ c.boundary;
      }

-- When text is cut, what is kept are the last of its lines (of the text without a last line feed),
-- whole, as many as the limits on lines and bytes allow, and their number is the one reported; or, if
-- the last line alone exceeds the bytes, the end of that line, from the first character on that
-- starts within the last bytes allowed.
pub truncate_tail-within :
    (text : Bytes) (max_lines max_bytes : ℕ) {tail : Tail}
    → truncate_tail text max_lines max_bytes ≡ some tail
    → (lines : List Bytes) × (joined lines ≡ body_of text)
      × (all is_line lines ≡ true)
      × (KeepsLines lines max_lines max_bytes tail ⊎ KeepsEnd lines max_lines max_bytes tail)
unfolding truncate_tail
truncate_tail-within text max_lines max_bytes {tail} h =
    let body = body_of text in
    let lines = split_from [] body in
    let kept = tail_loop max_lines max_bytes none_kept (rsplit body) in
    let cut = some-injective (if-none _ _ (if-none _ _ h)) in
    let text_is : drop (length body - kept.kept_bytes) body ≡ tail.text = ap (λ t. t.text) cut in
    let count_is : kept.kept_lines ≡ tail.kept_lines = ap (λ t. t.kept_lines) cut in
    let partial_is : kept.partial ≡ tail.partial = ap (λ t. t.partial) cut in
    let whole = joined-split_from [] body in
    let ends =
      subst (λ ls. Ends ls max_lines max_bytes kept) (reversed-rsplit body)
        (rsplit-Ends max_lines max_bytes body) in
    (
      lines,
      whole,
      split_from-lines [] body refl,
      elim ends [
        | inl w ↦ inl (
            Whole-KeepsLines body lines whole max_lines max_bytes kept tail text_is count_is
              partial_is w)
        | inr p ↦ inr (
            Part-KeepsEnd body lines whole max_lines max_bytes kept tail text_is count_is partial_is
              p)
      ],
    )
