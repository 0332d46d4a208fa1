-- ===== src/Truncate/Lines.antt =====
-- The lines of a text, and the bytes that continue a character.
use minicore_agent.Prelude.{
  ℕ, suc, ◌-◌, ◌≡◌, refl, sym, ap, ◌∙◌, Bool, true, false, not, ◌&&◌, inl, inr, List, [], ◌∷◌, ◌++◌,
  append-nil, append_assoc, arith, ltb, leb, ◌==◌, ==_iff, Bool-cases, length, drop, all, is_empty,
  length-append,
}
use minicore_agent.Prelude.Bytes.{Bytes}
use minicore_agent.Truncate.{split_from, reversed, rsplit, continuation}

-- Lines with line feeds between them.
abbrev pub joined : List Bytes → Bytes
joined [] = []
joined (line ∷ []) = line
joined (line ∷ next ∷ lines) = line ++ b'\n' ∷ joined (next ∷ lines)

-- A line holds no line feed.
abbrev pub is_line : Bytes → Bool
is_line line = all (λ c. not (c == b'\n')) line

abbrev pub is_continuation : ℕ → Bool
is_continuation c = leb 128 c && ltb c 192

-- A text that does not start within a character.
abbrev pub at_boundary : Bytes → Bool
at_boundary [] = true
at_boundary (c ∷ text) = not (is_continuation c)

joined-cons :
    (line : Bytes) (lines : List Bytes)
    → is_empty lines ≡ false
    → joined (line ∷ lines) ≡ line ++ b'\n' ∷ joined lines
joined-cons line [] h = cc
joined-cons line (next ∷ lines) h = refl

split_from-filled : (line text : Bytes) → is_empty (split_from line text) ≡ false
unfolding split_from
split_from-filled line [] = refl
split_from-filled line (c ∷ text) = elim (Bool-cases (c == b'\n')) [
  | inl feed ↦ rw feed refl
  | inr other ↦ rw other (split_from-filled (line ++ c ∷ []) text)
]

pub joined-split_from : (line text : Bytes) → joined (split_from line text) ≡ line ++ text
unfolding split_from
joined-split_from line [] = sym (append-nil line)
joined-split_from line (c ∷ text) = elim (Bool-cases (c == b'\n')) [
  | inl feed ↦ rw feed (
      joined-cons line (split_from [] text) (split_from-filled [] text)
      ∙ ap (λ t. line ++ b'\n' ∷ t) (joined-split_from [] text)
      ∙ ap (λ d. line ++ d ∷ text) (sym ((==_iff c b'\n').0 feed)))
  | inr other ↦ rw other (joined-split_from (line ++ c ∷ []) text ∙ append_assoc line (c ∷ []) text)
]

all-append_one :
    (p : ℕ → Bool) (xs : Bytes) (x : ℕ) → all p xs ≡ true → p x ≡ true → all p (xs ++ x ∷ []) ≡ true
all-append_one p [] x h k = ground (arith, k)
all-append_one p (y ∷ xs) x h k =
    let here : p y ≡ true = ground (arith, h) in
    let later : all p xs ≡ true = ground (arith, h) in rw (here, all-append_one p xs x later k) refl

pub split_from-lines :
    (line text : Bytes) → is_line line ≡ true → all is_line (split_from line text) ≡ true
unfolding split_from
split_from-lines line [] h = rw h refl
split_from-lines line (c ∷ text) h = elim (Bool-cases (c == b'\n')) [
  | inl feed ↦ rw (feed, h, split_from-lines [] text refl) refl
  | inr other ↦
      let plain : not (c == b'\n') ≡ true = rw other refl in
      rw other (
        split_from-lines (line ++ c ∷ []) text
          (all-append_one (λ d. not (d == b'\n')) line c h plain))
]

reversed-reversed : (a b xs : List Bytes) → reversed b (reversed a xs) ≡ reversed (xs ++ b) a
unfolding reversed
reversed-reversed a b [] = refl
reversed-reversed a b (x ∷ xs) = reversed-reversed (x ∷ a) b xs

pub reversed-rsplit : (text : Bytes) → reversed [] (rsplit text) ≡ split_from [] text
unfolding rsplit reversed
reversed-rsplit text =
    reversed-reversed [] [] (split_from [] text) ∙ append-nil (split_from [] text)

pub reversed-append : (a xs : List Bytes) → reversed a xs ≡ reversed [] xs ++ a
unfolding reversed
reversed-append a [] = refl
reversed-append a (x ∷ xs) =
    reversed-append (x ∷ a) xs
    ∙ sym (append_assoc (reversed [] xs) (x ∷ []) a)
    ∙ ap (λ t. t ++ a) (sym (reversed-append (x ∷ []) xs))

-- The end of a text, from some of its lines on.
pub joined-append :
    (front after : List Bytes) → (p : Bytes) × (joined (front ++ after) ≡ p ++ joined after)
joined-append [] after = ([], refl)
joined-append (line ∷ front) [] =
    (joined ((line ∷ front) ++ []), sym (append-nil (joined ((line ∷ front) ++ []))))
joined-append (line ∷ []) (next ∷ after) =
    (line ++ b'\n' ∷ [], sym (append_assoc line (b'\n' ∷ []) (joined (next ∷ after))))
joined-append (line ∷ other ∷ front) (next ∷ after) =
    let (p, e) = joined-append (other ∷ front) (next ∷ after) in
    (
      line ++ b'\n' ∷ p,
      ap (λ t. line ++ b'\n' ∷ t) e ∙ sym (append_assoc line (b'\n' ∷ p) (joined (next ∷ after))),
    )

drop-front : (p b : Bytes) → drop (length p) (p ++ b) ≡ b
drop-front [] b = refl
drop-front (c ∷ p) b = drop-front p b

-- What is left when all but the bytes of the end are dropped.
pub drop-end :
    (body p b : Bytes) (n : ℕ) → body ≡ p ++ b → n ≡ length b → drop (length body - n) body ≡ b
drop-end body p b n e h =
    let from : length (p ++ b) - n ≡ length p = omega (arith, h, length-append p b) in
    ap (λ t. drop (length t - n) t) e ∙ ap (λ m. drop m (p ++ b)) from ∙ drop-front p b

-- A text cut at the next boundary of a character.
pub record Cut (text : Bytes) : Type 0 where
  pub inside : Bytes
  pub left : Bytes
  pub whole : text ≡ inside ++ left
  pub size : length inside ≡ continuation text
  pub continues : all is_continuation inside ≡ true
  pub boundary : at_boundary left ≡ true

pub continuation-Cut : (text : Bytes) → Cut text
unfolding continuation
continuation-Cut [] = record {
  inside = [];
  left = [];
  whole = refl;
  size = refl;
  continues = refl;
  boundary = refl;
}
continuation-Cut (c ∷ text) =
    let rest = continuation-Cut text in
    elim (Bool-cases (is_continuation c)) [
      | inl inner ↦ record {
        inside = c ∷ rest.inside;
        left = rest.left;
        whole = ap (λ t. c ∷ t) rest.whole;
        size = rw inner (ap suc rest.size);
        continues = rw (inner, rest.continues) refl;
        boundary = rest.boundary;
      }
      | inr outer ↦ record {
        inside = [];
        left = c ∷ text;
        whole = refl;
        size = rw outer refl;
        continues = refl;
        boundary = rw outer refl;
      }
    ]
