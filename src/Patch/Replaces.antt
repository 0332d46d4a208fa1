-- ===== src/Patch/Replaces.antt =====
-- What applying the lines of a hunk does, against the reading of a patch line.
use minicore_agent.Prelude.{
  ℕ, ◌≡◌, refl, sym, ap, subst, ◌∙◌, ◌⊎◌, inl, inr, Bool, true, false, some, List, [], ◌∷◌, ◌++◌,
  arith, bool_eq, if◌then◌else◌, get_elem?, drop, ok, unwrap_or, >>=-eq-ok, ok_or->>=-eq-ok,
  guard->>=-eq-ok, ok-injective,
}
use minicore_agent.Prelude.Bytes.{bytes_eq, bytes_eq→eq}
use minicore_agent.Patch.{
  failed, internal, LineEnding, no_ending, ending_eq, SourceLine, PatchContent, PatchLineKind,
  context, remove, add, Cursor, checked_add, append_line, matching_source_line, apply_patch_content,
  apply_contents,
}
use minicore_agent.Patch.Moves.{
  Extends, Moves, Moves-append, Moves-nothing, one-Moves, Extends-nothing, append_line-Extends,
  checked_add-eq-some,
}

-- What a patch line takes from the source (`old`) and puts in the result (`new`).
pub data Replaces (preferred : LineEnding)
    : PatchContent → List SourceLine → List SourceLine → Type 0 where
  keeps :
      (content : PatchContent) (line : SourceLine)
      → content.kind ≡ context
      → line.text ≡ content.text
      → ending_eq line.ending no_ending ≡ content.old_no_newline
      → Replaces preferred content (line ∷ []) (
          record { text = line.text; ending = unwrap_or content.context_new_ending line.ending }
          ∷ [])
  removes :
      (content : PatchContent) (line : SourceLine)
      → content.kind ≡ remove
      → line.text ≡ content.text
      → ending_eq line.ending no_ending ≡ content.old_no_newline
      → Replaces preferred content (line ∷ []) []
  adds :
      (content : PatchContent)
      → content.kind ≡ add
      → Replaces preferred content [] (
          record {
            text = content.text;
            ending = if content.new_no_newline then no_ending else preferred;
          }
          ∷ [])

pub data ReplacesAll (preferred : LineEnding)
    : List PatchContent → List SourceLine → List SourceLine → Type 0 where
  replaces_none : ReplacesAll preferred [] [] []
  replaces_more :
      (content : PatchContent) (contents : List PatchContent) (old new old' new' : List SourceLine)
      → Replaces preferred content old new
      → ReplacesAll preferred contents old' new'
      → ReplacesAll preferred (content ∷ contents) (old ++ old') (new ++ new')

bool_eq-true : (a b : Bool) → bool_eq a b ≡ true → a ≡ b
bool_eq-true true true h = refl
bool_eq-true true false h = cc
bool_eq-true false true h = cc
bool_eq-true false false h = refl

matching_source_line-ok :
    (content : PatchContent) (source : List SourceLine) (at : ℕ) (line : SourceLine)
    → matching_source_line content source at ≡ ok line
    → (get_elem? source at ≡ some line)
      × (line.text ≡ content.text)
      × (ending_eq line.ending no_ending ≡ content.old_no_newline)
unfolding matching_source_line
matching_source_line-ok content source at line h =
    let (x, g, h1) = ok_or->>=-eq-ok (get_elem? source at) failed _ h in
    let (t, h2) = guard->>=-eq-ok (bytes_eq x.text content.text) failed _ h1 in
    let (e, h3) =
      guard->>=-eq-ok (bool_eq (ending_eq x.ending no_ending) content.old_no_newline) failed _ h2 in
    let q = ok-injective h3 in
    (
      g ∙ ap some q,
      ap (λ l. l.text) (sym q) ∙ bytes_eq→eq x.text content.text t,
      ap (λ l. ending_eq l.ending no_ending) (sym q) ∙ bool_eq-true _ _ e,
    )

pub kind-cases : (k : PatchLineKind) → (k ≡ context) ⊎ ((k ≡ remove) ⊎ (k ≡ add))
kind-cases context = inl refl
kind-cases remove = inr (inl refl)
kind-cases add = inr (inr refl)

apply_context-Moves :
    (source : List SourceLine) (preferred : LineEnding) (content : PatchContent) (c d : Cursor)
    → content.kind ≡ context
    → apply_patch_content source preferred content c ≡ ok d
    → (old : List SourceLine) × (new : List SourceLine) × Replaces preferred content old new
      × Moves source c old new d
unfolding apply_patch_content
apply_context-Moves source preferred content c d k h =
    let (line, m, h1) = >>=-eq-ok (matching_source_line content source c.at) _ (rw k at h) in
    let (builder, a, h2) =
      >>=-eq-ok (append_line c.builder line.text (unwrap_or content.context_new_ending line.ending))
        _ h1 in
    let (at, s, h3) = ok_or->>=-eq-ok (checked_add c.at 1) internal _ h2 in
    let (g, t, e) = matching_source_line-ok content source c.at line m in
    (
      line ∷ [],
      _,
      keeps content line k t e,
      one-Moves source _ c d line g
          (sym (ap (λ x. x.at) (ok-injective h3)) ∙ checked_add-eq-some c.at 1 s)
          (append_line-Extends c.builder line.text _
            (a ∙ ap ok (ap (λ x. x.builder) (ok-injective h3)))),
    )

apply_remove-Moves :
    (source : List SourceLine) (preferred : LineEnding) (content : PatchContent) (c d : Cursor)
    → content.kind ≡ remove
    → apply_patch_content source preferred content c ≡ ok d
    → (old : List SourceLine) × (new : List SourceLine) × Replaces preferred content old new
      × Moves source c old new d
unfolding apply_patch_content
apply_remove-Moves source preferred content c d k h =
    let (line, m, h1) = >>=-eq-ok (matching_source_line content source c.at) _ (rw k at h) in
    let (at, s, h2) = ok_or->>=-eq-ok (checked_add c.at 1) internal _ h1 in
    let (g, t, e) = matching_source_line-ok content source c.at line m in
    (
      line ∷ [],
      [],
      removes content line k t e,
      one-Moves source [] c d line g
          (sym (ap (λ x. x.at) (ok-injective h2)) ∙ checked_add-eq-some c.at 1 s)
          (subst (Extends c.builder []) (ap (λ x. x.builder) (ok-injective h2))
            (Extends-nothing c.builder)),
    )

apply_add-Moves :
    (source : List SourceLine) (preferred : LineEnding) (content : PatchContent) (c d : Cursor)
    → content.kind ≡ add
    → apply_patch_content source preferred content c ≡ ok d
    → (old : List SourceLine) × (new : List SourceLine) × Replaces preferred content old new
      × Moves source c old new d
unfolding apply_patch_content
apply_add-Moves source preferred content c d k h =
    let e = if content.new_no_newline then no_ending else preferred in
    let (builder, a, h1) = >>=-eq-ok (append_line c.builder content.text e) _ (rw k at h) in
    let same : c.at ≡ d.at = ap (λ x. x.at) (ok-injective h1) in
    (
      [],
      _,
      adds content k,
      record {
        taken = ap (λ n. drop n source) same;
        moved = omega (arith, same);
        built =
            append_line-Extends c.builder content.text e
              (a ∙ ap ok (ap (λ x. x.builder) (ok-injective h1)));
      },
    )

apply_patch_content-Moves :
    (source : List SourceLine) (preferred : LineEnding) (content : PatchContent) (c d : Cursor)
    → apply_patch_content source preferred content c ≡ ok d
    → (old : List SourceLine) × (new : List SourceLine) × Replaces preferred content old new
      × Moves source c old new d
apply_patch_content-Moves source preferred content c d h = elim (kind-cases content.kind) [
  | inl k ↦ apply_context-Moves source preferred content c d k h
  | inr (inl k) ↦ apply_remove-Moves source preferred content c d k h
  | inr (inr k) ↦ apply_add-Moves source preferred content c d k h
]

pub apply_contents-Moves :
    (source : List SourceLine) (preferred : LineEnding) (contents : List PatchContent)
    (c d : Cursor)
    → apply_contents source preferred contents c ≡ ok d
    → (old : List SourceLine) × (new : List SourceLine) × ReplacesAll preferred contents old new
      × Moves source c old new d
unfolding apply_contents
apply_contents-Moves source preferred [] c d h =
    ([], [], replaces_none, subst (Moves source c [] []) (ok-injective h) (Moves-nothing source c))
apply_contents-Moves source preferred (content ∷ contents) c d h =
    let (x, h1, h2) = >>=-eq-ok (apply_patch_content source preferred content c) _ h in
    let (old, new, r, m) = apply_patch_content-Moves source preferred content c x h1 in
    let (old', new', rs, ms) = apply_contents-Moves source preferred contents x d h2 in
    (
      old ++ old',
      new ++ new',
      replaces_more content contents old new old' new' r rs,
      Moves-append source c x d old new old' new' m ms,
    )
