-- ===== src/Codex/Locate.antt =====
-- Where a Codex hunk stands in the source. `match_visits` is passed along and returned.
pub mod Anchors
pub mod Places
use minicore_agent.Prelude.{
  ℕ, zero, suc, ◌+◌, ◌-◌, ◌*◌, ◌/◌, ◌%◌, ◌^◌, ◌≤◌, ◌<◌, min, max, ◌≡◌, refl, sym, ap, subst, ◌∙◌,
  fun_ext, ◌≢◌, ◌↔◌, ◌⊎◌, inl, inr, Bool, true, false, not, ◌&&◌, ◌||◌, Option, none, some, List,
  [], ◌∷◌, ◌++◌, map, append-nil, append_assoc, arith, ltb, leb, ◌==◌, ◌==?◌, bool_eq,
  if◌then◌else◌, ltb→lt, lt→ltb, leb→le, ==_iff, ==_refl, Bool-cases, Option-cases, length,
  get_elem?, take, drop, is_empty, first, last, drop_last, all, filter, position, remove_at,
  insert_at, length-append, length-take, length-drop, take-append-drop, last-append_singleton,
  drop_last-append_singleton, last-eq-some, Result, ok, err, ◌>>=◌, ◌>>◌, guard, ok_or, unwrap_or,
  is_some, bind_assoc, >>=-eq-ok, ok_or->>=-eq-ok, guard->>=-eq-ok, reject-eq-ok, ok-injective,
}
use minicore_agent.Prelude.Bytes.{Bytes}
use minicore_agent.Patch.{
  ToolError, failed, invalid_invocation, SourceLine, PatchContent, HunkRange, add_usize,
  checked_add, checked_sub,
}
use minicore_agent.Unified.{Parse}
use minicore_agent.Unified.Text.{split_once}
use minicore_agent.Codex.{CodexLocator, range, anchor}
use minicore_agent.Codex.Search.{visit, codex_contents_match_at, find_unique_codex_match}

-- `str::contains` of a text, which is not empty where the code calls it.
abbrev pub has_text : Bytes → Bytes → Bool
has_text p s = is_some (split_once p s)

-- The loop of `find_unique_codex_anchor`, over the source's lines from `index` on.
unfoldable pub anchor_loop :
    Bytes → (index visits : ℕ) → (found : Option ℕ) → List SourceLine → Parse (Option ℕ × ℕ)
anchor_loop text index visits found [] = ok (found, visits)
anchor_loop text index visits found (line ∷ lines) = do
  visited ← visit visits
  (if has_text text line.text
      then (if is_some found
          then err invalid_invocation
          else anchor_loop text (index + 1) visited (some index) lines)
      else anchor_loop text (index + 1) visited found lines)

unfoldable pub find_unique_codex_anchor :
    List SourceLine → (start : ℕ) → Bytes → (visits : ℕ) → Parse (Option ℕ × ℕ)
find_unique_codex_anchor source start text visits =
    anchor_loop text start visits none (drop start source)

unfoldable pub locate_range :
    HunkRange → HunkRange → List PatchContent → ℕ → ℕ → Bool → List SourceLine → Parse ℕ
locate_range old new old_contents old_count new_count end_of_file source = do
  guard ((old.count == old_count) && (new.count == new_count)) invalid_invocation
  end ← add_usize old.index old.count
  guard (leb end (length source) && not (end_of_file && not (end == length source))) failed
  guard (codex_contents_match_at old_contents source old.index) failed
  ok old.index

unfoldable pub locate_end : List PatchContent → ℕ → List SourceLine → Parse ℕ
locate_end old_contents old_count source = do
  start ← ok_or (checked_sub (length source) old_count) failed
  guard (codex_contents_match_at old_contents source start) failed
  ok start

-- The line where an anchor stands; without one, where the search starts.
unfoldable pub match_start : Option Bytes → List SourceLine → ℕ → ℕ → Parse (ℕ × ℕ)
match_start none source search_start visits = ok (search_start, visits)
match_start (some text) source search_start visits = do
  anchored ← find_unique_codex_anchor source search_start text visits
  line ← ok_or anchored.0 failed
  ok (line, anchored.1)

-- An insertion, after the line of its anchor.
unfoldable pub locate_insertion : Option Bytes → List SourceLine → ℕ → ℕ → Parse (ℕ × ℕ)
locate_insertion none source search_start visits = err failed
locate_insertion (some text) source search_start visits = do
  anchored ← find_unique_codex_anchor source search_start text visits
  line ← ok_or anchored.0 failed
  start ← ok_or (checked_add line 1) invalid_invocation
  ok (start, anchored.1)

unfoldable pub locate_match :
    Option Bytes → List PatchContent → List SourceLine → ℕ → ℕ → Parse (ℕ × ℕ)
locate_match a old_contents source search_start visits = do
  from ← match_start a source search_start visits
  found ← find_unique_codex_match old_contents source from.0 from.1
  start ← ok_or found.0 failed
  ok (start, found.1)

unfoldable pub locate_codex_hunk :
    CodexLocator → List PatchContent → ℕ → ℕ → Bool → List SourceLine → ℕ → ℕ → Parse (ℕ × ℕ)
locate_codex_hunk (range old new) old_contents old_count new_count end_of_file source search_start
      visits =
    locate_range old new old_contents old_count new_count end_of_file source >>= λ start.
    ok (start, visits)
locate_codex_hunk (anchor a) old_contents old_count new_count end_of_file source search_start
      visits =
    if end_of_file
    then (locate_end old_contents old_count source >>= λ start. ok (start, visits))
    else if old_count == 0
    then locate_insertion a source search_start visits
    else locate_match a old_contents source search_start visits
