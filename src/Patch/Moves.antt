-- ===== src/Patch/Moves.antt =====
-- What the steps of `apply_resolved_hunks` take from the source and add to the result.
use minicore_agent.Prelude.{
  ℕ, zero, suc, ◌+◌, ◌≤◌, ◌≡◌, refl, sym, ap, subst, ◌∙◌, Bool, false, some, List, [], ◌∷◌, ◌++◌,
  append-nil, append_assoc, arith, length, get_elem?, drop, length-append, ok, >>=-eq-ok,
  ok_or->>=-eq-ok, ok-injective,
}
use minicore_agent.Prelude.Bytes.{Bytes}
use minicore_agent.Patch.{
  failed, internal, LineEnding, no_ending, as_str, ending_eq, SourceLine, ResultBuilder, Cursor,
  max_patch_bytes, checked_add, add_usize, append_line, append_source_line, copy_lines,
}
use minicore_agent.Patch.Lines.{render, render_line}

-- `Follows p ls q`: only the last of `ls` lacks an ending, and none is there when the line before
-- lacked one (`p`); `q` says whether the last line, or the one before them all, lacks one.
abbrev pub Follows : Bool → List SourceLine → Bool → Type 0
Follows p [] q = p ≡ q
Follows p (l ∷ ls) q = (p ≡ false) × Follows (ending_eq l.ending no_ending) ls q

-- `b'` is `b` with the lines `ls` appended.
pub record Extends (b : ResultBuilder) (ls : List SourceLine) (b' : ResultBuilder) : Type 0 where
  pub value : b'.value ≡ b.value ++ render ls
  pub count : b'.line_count ≡ b.line_count + length ls
  pub bound : length b.value ≤ max_patch_bytes → length b'.value ≤ max_patch_bytes
  pub follows : Follows b.previous_had_no_newline ls b'.previous_had_no_newline

-- From `c` to `d`, the lines `old` are taken from the source and the lines `new` appended.
pub record Moves (source : List SourceLine) (c : Cursor) (old new : List SourceLine) (d : Cursor)
    : Type 0 where
  pub taken : drop c.at source ≡ old ++ drop d.at source
  pub moved : d.at ≡ c.at + length old
  pub built : Extends c.builder new d.builder

Follows-append :
    (p q r : Bool) (ls ms : List SourceLine)
    → Follows p ls q
    → Follows q ms r
    → Follows p (ls ++ ms) r
Follows-append p q r [] ms h k = subst (λ x. Follows x ms r) (sym h) k
Follows-append p q r (l ∷ ls) ms (f, h) k = (f, Follows-append _ q r ls ms h k)

render-append : (ls ms : List SourceLine) → render (ls ++ ms) ≡ render ls ++ render ms
render-append [] ms = refl
render-append (l ∷ ls) ms =
    ap (◌++◌ (render_line l)) (render-append ls ms)
    ∙ sym (append_assoc (render_line l) (render ls) (render ms))

pub Extends-append :
    (b b' b'' : ResultBuilder) (ls ms : List SourceLine)
    → Extends b ls b'
    → Extends b' ms b''
    → Extends b (ls ++ ms) b''
Extends-append b b' b'' ls ms h k = record {
  value =
      k.value
      ∙ ap (λ v. v ++ render ms) h.value
      ∙ append_assoc b.value (render ls) (render ms)
      ∙ ap (◌++◌ b.value) (sym (render-append ls ms));
  count = omega (arith, h.count, k.count, length-append ls ms);
  bound = λ l. k.bound (h.bound l);
  follows = Follows-append _ _ _ ls ms h.follows k.follows;
}

pub Moves-append :
    (source : List SourceLine) (c d e : Cursor) (old new old' new' : List SourceLine)
    → Moves source c old new d
    → Moves source d old' new' e
    → Moves source c (old ++ old') (new ++ new') e
Moves-append source c d e old new old' new' h k = record {
  taken = h.taken ∙ ap (◌++◌ old) k.taken ∙ sym (append_assoc old old' (drop e.at source));
  moved = omega (arith, h.moved, k.moved, length-append old old');
  built = Extends-append _ _ _ new new' h.built k.built;
}

pub Moves-nothing : (source : List SourceLine) (c : Cursor) → Moves source c [] [] c
Moves-nothing source c = record {
  taken = refl;
  moved = omega arith;
  built = record {
    value = sym (append-nil _);
    count = omega arith;
    bound = λ l. l;
    follows = refl;
  };
}

drop-get_elem? :
    {A : Type 0} (i : ℕ) (xs : List A) (x : A)
    → get_elem? xs i ≡ some x
    → drop i xs ≡ x ∷ drop (suc i) xs
drop-get_elem? zero [] x h = cc
drop-get_elem? zero (y ∷ xs) x h = ap (λ z. z ∷ xs) (cc)
drop-get_elem? (suc i) [] x h = cc
drop-get_elem? (suc i) (y ∷ xs) x h = drop-get_elem? i xs x h

pub checked_add-eq-some : (a b : ℕ) {c : ℕ} → checked_add a b ≡ some c → c ≡ a + b
checked_add-eq-some a b h = ground arith

append_line-ok :
    (b : ResultBuilder) (text : Bytes) (e : LineEnding) {b' : ResultBuilder}
    → append_line b text e ≡ ok b'
    → (b.previous_had_no_newline ≡ false)
      × (length b.value + (length text + length (as_str e)) ≤ max_patch_bytes)
      × (b' ≡ record {
        value = b.value ++ (text ++ as_str e);
        line_count = b.line_count + 1;
        previous_had_no_newline = ending_eq e no_ending;
      })
unfolding append_line add_usize
append_line-ok b text e h = (ground arith, ground arith, ground arith)

pub append_line-Extends :
    (b : ResultBuilder) (text : Bytes) (e : LineEnding) {b' : ResultBuilder}
    → append_line b text e ≡ ok b'
    → Extends b (record { text = text; ending = e } ∷ []) b'
append_line-Extends b text e {b'} h =
    let (ended, fits, made) = append_line-ok b text e h in
    subst (λ x. Extends b (record { text = text; ending = e } ∷ []) x) (sym made)
      record {
        value = ap (◌++◌ b.value) (sym (append-nil (text ++ as_str e)));
        count = omega arith;
        bound = λ l.
            omega (
              arith,
              fits,
              length-append b.value (text ++ as_str e),
              length-append text (as_str e),
            );
        follows = (ended, refl);
      }

-- A source line taken, and `new` in its place.
pub one-Moves :
    (source new : List SourceLine) (c d : Cursor) (line : SourceLine)
    → get_elem? source c.at ≡ some line
    → d.at ≡ c.at + 1
    → Extends c.builder new d.builder
    → Moves source c (line ∷ []) new d
one-Moves source new c d line g a h =
    let next : suc c.at ≡ d.at = omega (arith, a) in
    record {
      taken = drop-get_elem? c.at source line g ∙ ap (λ n. line ∷ drop n source) next;
      moved = a;
      built = h;
    }

pub Extends-nothing : (b : ResultBuilder) → Extends b [] b
Extends-nothing b = record {
  value = sym (append-nil _);
  count = omega arith;
  bound = λ l. l;
  follows = refl;
}

append_source_line-ok :
    (source : List SourceLine) (c : Cursor) {d : Cursor}
    → append_source_line source c ≡ ok d
    → (line : SourceLine) × (get_elem? source c.at ≡ some line)
      × (append_line c.builder line.text line.ending ≡ ok d.builder)
      × (d.at ≡ c.at + 1)
unfolding append_source_line
append_source_line-ok source c h =
    let (line, g, h1) = ok_or->>=-eq-ok (get_elem? source c.at) failed _ h in
    let (builder, a, h2) = >>=-eq-ok (append_line c.builder line.text line.ending) _ h1 in
    let (at, s, h3) = ok_or->>=-eq-ok (checked_add c.at 1) internal _ h2 in
    (
      line,
      g,
      a ∙ ap ok (ap (λ x. x.builder) (ok-injective h3)),
      sym (ap (λ x. x.at) (ok-injective h3)) ∙ checked_add-eq-some c.at 1 s,
    )

append_source_line-Moves :
    (source : List SourceLine) (c d : Cursor)
    → append_source_line source c ≡ ok d
    → (line : SourceLine) × Moves source c (line ∷ []) (line ∷ []) d
append_source_line-Moves source c d h =
    let (line, g, a, s) = append_source_line-ok source c h in
    (
      line,
      one-Moves source (line ∷ []) c d line g s
          (append_line-Extends c.builder line.text line.ending a),
    )

pub copy_lines-Moves :
    (n : ℕ) (source : List SourceLine) (c d : Cursor)
    → copy_lines n source c ≡ ok d
    → (kept : List SourceLine) × (length kept ≡ n) × Moves source c kept kept d
unfolding copy_lines
copy_lines-Moves zero source c d h =
    ([], refl, subst (Moves source c [] []) (ok-injective h) (Moves-nothing source c))
copy_lines-Moves (suc n) source c d h =
    let (x, h1, h2) = >>=-eq-ok (append_source_line source c) _ h in
    let (line, m) = append_source_line-Moves source c x h1 in
    let (kept, l, ms) = copy_lines-Moves n source x d h2 in
    (line ∷ kept, omega (arith, l), Moves-append source c x d _ _ _ _ m ms)
