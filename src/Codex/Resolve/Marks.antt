-- ===== src/Codex/Resolve/Marks.antt =====
-- The marks of a hunk's lines make them agree with the source's line endings.
use minicore_agent.Prelude.{
  ℕ, ◌+◌, ◌≡◌, refl, sym, ap, subst, ◌∙◌, ◌≢◌, inl, inr, Bool, true, false, not, ◌&&◌, List, [],
  ◌∷◌, ◌++◌, arith, ◌==◌, if◌then◌else◌, Bool-cases, length, drop, is_empty, first, all, filter,
  length-append, ok, ◌>>=◌, ok_or, >>=-eq-ok, ok-injective,
}
use minicore_agent.Prelude.Bytes.{bytes_eq→eq}
use minicore_agent.Patch.{
  failed, LineEnding, no_ending, ending_eq, SourceLine, context, remove, add, PatchContent, delta,
}
use minicore_agent.Patch.Replaces.{
  Replaces, keeps, removes, adds, ReplacesAll, replaces_none, replaces_more, kind-cases,
}
use minicore_agent.Unified.Counts.{if-split, old_lines, new_lines}
use minicore_agent.Codex.Search.{contents_match}
use minicore_agent.Codex.Resolve.{
  is_add, is_remove, is_unterminated, mark_ending, mark_codex_source_endings, mark_last,
  mark_codex_result_no_newline, mark_result,
}

-- The contents replace the first of the lines.
pub record Fitting (preferred : LineEnding) (contents : List PatchContent) (lines : List SourceLine)
    : Type 0 where
  pub old : List SourceLine
  pub rest : List SourceLine
  pub new : List SourceLine
  pub split : lines ≡ old ++ rest
  pub replaced : ReplacesAll preferred contents old new

-- The contents that stand for lines of the source.
abbrev pub old_contents : List PatchContent → List PatchContent
old_contents contents = filter (λ content. not (is_add content)) contents

mark_ending-kind :
    (preferred : LineEnding) (line : SourceLine) (content : PatchContent) (rest : List PatchContent)
    → (mark_ending preferred line content rest).kind ≡ content.kind
mark_ending-kind preferred line content rest = ground arith

mark_ending-text :
    (preferred : LineEnding) (line : SourceLine) (content : PatchContent) (rest : List PatchContent)
    → (mark_ending preferred line content rest).text ≡ content.text
mark_ending-text preferred line content rest = ground arith

mark_ending-old :
    (preferred : LineEnding) (line : SourceLine) (content : PatchContent) (rest : List PatchContent)
    → (content.old_no_newline ≡ true → ending_eq line.ending no_ending ≡ true)
    → ending_eq line.ending no_ending ≡ (mark_ending preferred line content rest).old_no_newline
mark_ending-old preferred line content rest h = ground (arith, h)

-- The same numbers of lines.
pub record SameCounts (contents marked : List PatchContent) : Type 0 where
  pub olds : old_lines marked ≡ old_lines contents
  pub news : new_lines marked ≡ new_lines contents
  pub nonempty : is_empty marked ≡ is_empty contents

SameCounts-cons :
    (content content' : PatchContent) (contents marked : List PatchContent)
    → content'.kind ≡ content.kind
    → SameCounts contents marked
    → SameCounts (content ∷ contents) (content' ∷ marked)
SameCounts-cons content content' contents marked e h = record {
  olds = ap (λ k. (delta k).0 + old_lines marked) e ∙ ap (λ n. (delta content.kind).0 + n) h.olds;
  news = ap (λ k. (delta k).1 + new_lines marked) e ∙ ap (λ n. (delta content.kind).1 + n) h.news;
  nonempty = refl;
}

true≢false : true ≢ false
true≢false e = cc

added-true : (content : PatchContent) → content.kind ≡ add → true ≡ is_add content
added-true content k = rw k refl

not-added : (content : PatchContent) → content.kind ≡ context → is_add content ≡ false
not-added content k = rw k refl

not-removed : (content : PatchContent) → content.kind ≡ remove → is_add content ≡ false
not-removed content k = rw k refl

added-kind : (content : PatchContent) → is_add content ≡ true → content.kind ≡ add
added-kind content h = elim (kind-cases content.kind) [
  | inl e ↦ absurd (true≢false (sym h ∙ not-added content e))
  | inr (inl e) ↦ absurd (true≢false (sym h ∙ not-removed content e))
  | inr (inr e) ↦ e
]

-- A line of the source and a content that stands for it.
standing-Replaces :
    (preferred : LineEnding) (line : SourceLine) (content : PatchContent)
    → is_add content ≡ false
    → line.text ≡ content.text
    → ending_eq line.ending no_ending ≡ content.old_no_newline
    → (new : List SourceLine) × Replaces preferred content (line ∷ []) new
standing-Replaces preferred line content n t e = elim (kind-cases content.kind) [
  | inl k ↦ (_, keeps content line k t e)
  | inr (inl k) ↦ (_, removes content line k t e)
  | inr (inr k) ↦ absurd (true≢false (added-true content k ∙ n))
]

added-Fitting :
    (preferred : LineEnding) (content : PatchContent) (contents : List PatchContent)
    (lines : List SourceLine)
    → is_add content ≡ true
    → Fitting preferred contents lines
    → Fitting preferred (content ∷ contents) lines
added-Fitting preferred content contents lines a h = record {
  old = h.old;
  rest = h.rest;
  new = _;
  split = h.split;
  replaced =
      replaces_more content contents [] _ h.old h.new (adds content (added-kind content a))
        h.replaced;
}

standing-Fitting :
    (preferred : LineEnding) (line : SourceLine) (content : PatchContent)
    (contents : List PatchContent) (lines new : List SourceLine)
    → Replaces preferred content (line ∷ []) new
    → Fitting preferred contents lines
    → Fitting preferred (content ∷ contents) (line ∷ lines)
standing-Fitting preferred line content contents lines new r h = record {
  old = line ∷ h.old;
  rest = h.rest;
  new = new ++ h.new;
  split = ap (λ x. line ∷ x) h.split;
  replaced = replaces_more content contents (line ∷ []) new h.old h.new r h.replaced;
}

-- A line of the source that matches.
contents_match-cons :
    (content : PatchContent) (contents : List PatchContent) (line : SourceLine)
    (lines : List SourceLine)
    → contents_match (content ∷ contents) (line ∷ lines) ≡ true
    → (line.text ≡ content.text)
      × (content.old_no_newline ≡ true → ending_eq line.ending no_ending ≡ true)
      × (contents_match contents lines ≡ true)
unfolding contents_match
contents_match-cons content contents line lines h = (
  bytes_eq→eq line.text content.text (ground (arith, h)),
  (λ m. ground (arith, h, m)),
  ground (arith, h),
)

standing-marked :
    (preferred : LineEnding) (content : PatchContent) (contents : List PatchContent)
    (lines : List SourceLine) {marked : List PatchContent}
    → is_add content ≡ false
    → contents_match (content ∷ old_contents contents) lines ≡ true
    → (ok_or (first lines) failed >>= λ line.
        mark_codex_source_endings contents (drop 1 lines) preferred >>= λ rest.
        ok (mark_ending preferred line content contents ∷ rest))
      ≡ ok marked
    → ((rest : List PatchContent)
        → mark_codex_source_endings contents (drop 1 lines) preferred ≡ ok rest
        → contents_match (old_contents contents) (drop 1 lines) ≡ true
        → Fitting preferred rest (drop 1 lines) × SameCounts contents rest)
    → Fitting preferred marked lines × SameCounts (content ∷ contents) marked
standing-marked preferred content contents [] n m h later = cc
standing-marked preferred content contents (line ∷ lines) n m h later =
    let (rest, r, h1) = >>=-eq-ok (mark_codex_source_endings contents lines preferred) _ h in
    let (text, ends, more) = contents_match-cons content (old_contents contents) line lines m in
    let (f, c) = later rest r more in
    let marked = mark_ending preferred line content contents in
    let kind = mark_ending-kind preferred line content contents in
    let (new, replaces) =
      standing-Replaces preferred line marked
        (ap (λ k. is_add (record content { kind = k })) kind ∙ n)
        (text ∙ sym (mark_ending-text preferred line content contents))
        (mark_ending-old preferred line content contents ends) in
    subst (λ x. Fitting preferred x (line ∷ lines) × SameCounts (content ∷ contents) x)
      (ok-injective h1)
      (
        standing-Fitting preferred line marked rest lines new replaces f,
        SameCounts-cons content marked contents rest kind c,
      )

pub marked-Fitting :
    (preferred : LineEnding) (contents : List PatchContent) (lines : List SourceLine)
    {marked : List PatchContent}
    → mark_codex_source_endings contents lines preferred ≡ ok marked
    → contents_match (old_contents contents) lines ≡ true
    → Fitting preferred marked lines × SameCounts contents marked
unfolding mark_codex_source_endings
marked-Fitting preferred [] lines h m =
    subst (λ x. Fitting preferred x lines × SameCounts [] x) (ok-injective h)
      (
        record { old = []; rest = lines; new = []; split = refl; replaced = replaces_none },
        record { olds = refl; news = refl; nonempty = refl },
      )
marked-Fitting preferred (content ∷ contents) lines h m = elim (if-split (is_add content) _ _ h) [
  | inl (a, h1) ↦
      let (rest, r, h2) = >>=-eq-ok (mark_codex_source_endings contents lines preferred) _ h1 in
      let (f, c) = marked-Fitting preferred contents lines r (rw a at m) in
      subst (λ x. Fitting preferred x lines × SameCounts (content ∷ contents) x) (ok-injective h2)
        (
          added-Fitting preferred content rest lines a f,
          SameCounts-cons content content contents rest refl c,
        )
  | inr (n, h1) ↦
      standing-marked preferred content contents lines n (rw n at m) h1
        λ rest r more. marked-Fitting preferred contents (drop 1 lines) r more
]

last-Replaces :
    (preferred : LineEnding) (content : PatchContent) (old new : List SourceLine)
    → Replaces preferred content old new
    → (new' : List SourceLine) × Replaces preferred
        (record content { new_no_newline = true })
        old
        new'
last-Replaces preferred content _ _ (keeps _ line k t e) = (_, keeps _ line k t e)
last-Replaces preferred content _ _ (removes _ line k t e) = (_, removes _ line k t e)
last-Replaces preferred content _ _ (adds _ k) = (_, adds _ k)

mark_last-Replaces :
    (preferred : LineEnding) (contents : List PatchContent) (old new : List SourceLine)
    → ReplacesAll preferred contents old new
    → (new' : List SourceLine) × ReplacesAll preferred (mark_last contents) old new'
mark_last-Replaces preferred _ _ _ replaces_none = (_, replaces_none)
mark_last-Replaces preferred _ _ _ (replaces_more content contents old new old' new' r rs) =
    elim (Bool-cases (not (all is_remove contents))) [
      | inl later ↦
          let (new'', rs') = mark_last-Replaces preferred contents old' new' rs in
          rw later (_, replaces_more content (mark_last contents) old new old' new'' r rs')
      | inr here ↦ rw here (elim (Bool-cases (is_remove content)) [
        | inl gone ↦ rw gone (_, replaces_more content contents old new old' new' r rs)
        | inr kept ↦
            let (new'', r') = last-Replaces preferred content old new r in
            rw kept (_, replaces_more _ contents old new'' old' new' r' rs)
      ])
    ]

mark_last-SameCounts : (contents : List PatchContent) → SameCounts contents (mark_last contents)
mark_last-SameCounts [] = record { olds = refl; news = refl; nonempty = refl }
mark_last-SameCounts (content ∷ contents) = elim (Bool-cases (not (all is_remove contents))) [
  | inl later ↦ rw later (
      SameCounts-cons content content contents (mark_last contents) refl
        (mark_last-SameCounts contents))
  | inr here ↦ rw here (elim (Bool-cases (is_remove content)) [
    | inl gone ↦ rw gone (record { olds = refl; news = refl; nonempty = refl })
    | inr kept ↦ rw kept (record { olds = refl; news = refl; nonempty = refl })
  ])
]

mark_last-Fitting :
    (preferred : LineEnding) (contents : List PatchContent) (lines : List SourceLine)
    → Fitting preferred contents lines
    → Fitting preferred (mark_last contents) lines × SameCounts contents (mark_last contents)
mark_last-Fitting preferred contents lines h =
    let (new, r) = mark_last-Replaces preferred contents h.old h.new h.replaced in
    (
      record { old = h.old; rest = h.rest; new = new; split = h.split; replaced = r },
      mark_last-SameCounts contents,
    )

if-both :
    (P : List PatchContent → Type 0) (t : Bool) {x y : List PatchContent}
    → P x
    → P y
    → P (if t then x else y)
if-both P true p q = p
if-both P false p q = q

pub mark_result-Fitting :
    (preferred : LineEnding) (source lines : List SourceLine) (is_last : Bool)
    (old_end new_count : ℕ) (contents : List PatchContent)
    → Fitting preferred contents lines
    → Fitting preferred (mark_result source is_last old_end new_count contents) lines
      × SameCounts contents (mark_result source is_last old_end new_count contents)
unfolding mark_codex_result_no_newline
mark_result-Fitting preferred source lines is_last old_end new_count contents h =
    let P : List PatchContent → Type 0 = λ c. Fitting preferred c lines × SameCounts contents c in
    let same : P contents = (h, record { olds = refl; news = refl; nonempty = refl }) in
    if-both P (is_last && is_unterminated source && (old_end == length source))
      (if-both P (new_count == 0) same (mark_last-Fitting preferred contents lines h)) same

Replaces-lengths :
    (preferred : LineEnding) (content : PatchContent) (old new : List SourceLine)
    → Replaces preferred content old new
    → (length old ≡ (delta content.kind).0) × (length new ≡ (delta content.kind).1)
Replaces-lengths preferred content _ _ (keeps _ line k t e) = (rw k refl, rw k refl)
Replaces-lengths preferred content _ _ (removes _ line k t e) = (rw k refl, rw k refl)
Replaces-lengths preferred content _ _ (adds _ k) = (rw k refl, rw k refl)

pub ReplacesAll-lengths :
    (preferred : LineEnding) (contents : List PatchContent) (old new : List SourceLine)
    → ReplacesAll preferred contents old new
    → (length old ≡ old_lines contents) × (length new ≡ new_lines contents)
ReplacesAll-lengths preferred _ _ _ replaces_none = (refl, refl)
ReplacesAll-lengths preferred _ _ _ (replaces_more content contents old new old' new' r rs) =
    let (a, b) = Replaces-lengths preferred content old new r in
    let (a', b') = ReplacesAll-lengths preferred contents old' new' rs in
    (omega (arith, length-append old old', a, a'), omega (arith, length-append new new', b, b'))
