-- ===== src/Truncate.antt =====
-- src/tools/truncate.rs: the end of a text that exceeds its limits, `truncate_tail`, on bytes.
pub mod Lines
pub mod Ends
pub mod Limits
mod Tests
use minicore_agent.Prelude.{
  ℕ, zero, suc, ◌+◌, ◌-◌, ◌*◌, ◌/◌, ◌%◌, ◌^◌, ◌≤◌, ◌<◌, min, max, ◌≡◌, refl, sym, ap, subst, ◌∙◌,
  fun_ext, ◌≢◌, ◌↔◌, ◌⊎◌, inl, inr, Bool, true, false, not, ◌&&◌, ◌||◌, Option, none, some, List,
  [], ◌∷◌, ◌++◌, map, append-nil, append_assoc, arith, ltb, leb, ◌==◌, ◌==?◌, bool_eq,
  if◌then◌else◌, ltb→lt, lt→ltb, leb→le, ==_iff, ==_refl, Bool-cases, Option-cases, length,
  get_elem?, take, drop, is_empty, first, last, drop_last, all, filter, position, remove_at,
  insert_at, length-append, length-take, length-drop, take-append-drop, last-append_singleton,
  drop_last-append_singleton, last-eq-some, Result, ok, err, ◌>>=◌, ◌>>◌, guard, ok_or, unwrap_or,
  is_some, bind_assoc, >>=-eq-ok, ok_or->>=-eq-ok, guard->>=-eq-ok, reject-eq-ok, ok-injective,
}
use minicore_agent.Prelude.Bytes.{Bytes}

pub record Tail : Type 0 where
  pub text : Bytes
  pub total_lines : ℕ
  pub kept_lines : ℕ
  pub by_bytes : Bool
  pub partial : Bool
  pub last_line_bytes : ℕ

-- What `split('\n')` gives, the first part so far in `line`.
unfoldable pub split_from : Bytes → Bytes → List Bytes
split_from line [] = line ∷ []
split_from line (c ∷ text) =
    if c == b'\n' then line ∷ split_from [] text else split_from (line ++ c ∷ []) text

-- `rsplit('\n')`
unfoldable pub reversed : List Bytes → List Bytes → List Bytes
reversed after [] = after
reversed after (line ∷ lines) = reversed (line ∷ after) lines

unfoldable pub rsplit : Bytes → List Bytes
unfolding split_from reversed
rsplit text = reversed [] (split_from [] text)

-- `split_terminator('\n').count()`: an empty part at the end does not count.
unfoldable pub count_lines : Bytes → ℕ
unfolding split_from
count_lines text =
    length (split_from [] text) - (if is_empty text || (last text ==? b'\n') then 1 else 0)

-- `strip_suffix('\n').unwrap_or(text)`
unfoldable pub body_of : Bytes → Bytes
body_of text = if last text ==? b'\n' then drop_last text else text

-- How many bytes that continue a character a text starts with.
unfoldable pub continuation : Bytes → ℕ
continuation [] = 0
continuation (c ∷ text) =
    let rest = continuation text in if leb 128 c && ltb c 192 then suc rest else 0

-- `ceil_char_boundary`, for an index within the text
unfoldable pub ceil_char_boundary : Bytes → ℕ → ℕ
unfolding continuation
ceil_char_boundary text index = index + continuation (drop index text)

-- The variables of the loop of `truncate_tail`.
pub record Kept : Type 0 where
  pub kept_lines : ℕ
  pub kept_bytes : ℕ
  pub by_bytes : Bool
  pub partial : Bool
  pub last_line_bytes : ℕ

-- The line that is too long: kept in part if it is the last one.
unfoldable pub cut_line : ℕ → Bytes → Kept → Kept
cut_line max_bytes line kept =
    if kept.kept_lines == 0
    then (record kept {
      kept_lines = 1;
      kept_bytes = length line - ceil_char_boundary line (length line - max_bytes);
      by_bytes = true;
      partial = true;
    })
    else record kept { by_bytes = true }

unfoldable pub tail_loop : ℕ → ℕ → Kept → List Bytes → Kept
tail_loop max_lines max_bytes kept [] = kept
tail_loop max_lines max_bytes kept (line ∷ lines) =
    let seen =
      if kept.kept_lines == 0 then record kept { last_line_bytes = length line } else kept in
    let cost = length line + (if ltb 0 kept.kept_lines then 1 else 0) in
    let rest =
      tail_loop max_lines max_bytes
        (record seen { kept_lines = kept.kept_lines + 1; kept_bytes = kept.kept_bytes + cost })
        lines in
    if kept.kept_lines == max_lines
    then seen
    else if ltb max_bytes (kept.kept_bytes + cost)
    then cut_line max_bytes line seen
    else rest

abbrev none_kept : Kept
none_kept = record {
  kept_lines = 0;
  kept_bytes = 0;
  by_bytes = false;
  partial = false;
  last_line_bytes = 0;
}

unfoldable pub truncate_tail : Bytes → ℕ → ℕ → Option Tail
truncate_tail text max_lines max_bytes =
    let total_lines = count_lines text in
    let body = body_of text in
    let kept = tail_loop max_lines max_bytes none_kept (rsplit body) in
    if leb total_lines max_lines && leb (length text) max_bytes
    then none
    else if (kept.kept_lines == total_lines) && not kept.partial
    then none
    else some (record {
      text = drop (length body - kept.kept_bytes) body;
      total_lines = total_lines;
      kept_lines = kept.kept_lines;
      by_bytes = kept.by_bytes;
      partial = kept.partial;
      last_line_bytes = kept.last_line_bytes;
    })
