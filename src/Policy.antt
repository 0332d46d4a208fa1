-- ===== src/Policy.antt =====
-- src/policy.rs: the decision on a tool call. The clock and the cancellation are read once, as
-- `expired` and `cancelled`; the checks that minicore_runtime makes on decisions are `DecisionApi`.
pub mod Allows
mod Tests
use minicore_agent.Prelude.{
  ℕ, zero, suc, ◌+◌, ◌-◌, ◌*◌, ◌/◌, ◌%◌, ◌^◌, ◌≤◌, ◌<◌, min, max, ◌≡◌, refl, sym, ap, subst, ◌∙◌,
  fun_ext, ◌≢◌, ◌↔◌, ◌⊎◌, inl, inr, Bool, true, false, not, ◌&&◌, ◌||◌, Option, none, some, List,
  [], ◌∷◌, ◌++◌, map, append-nil, append_assoc, arith, ltb, leb, ◌==◌, ◌==?◌, bool_eq,
  if◌then◌else◌, ltb→lt, lt→ltb, leb→le, ==_iff, ==_refl, Bool-cases, Option-cases, length,
  get_elem?, take, drop, is_empty, first, last, drop_last, all, filter, position, remove_at,
  insert_at, length-append, length-take, length-drop, take-append-drop, last-append_singleton,
  drop_last-append_singleton, last-eq-some, Result, ok, err, ◌>>=◌, ◌>>◌, guard, ok_or, unwrap_or,
  is_some, bind_assoc, >>=-eq-ok, ok_or->>=-eq-ok, guard->>=-eq-ok, reject-eq-ok, ok-injective,
}
use minicore_agent.Prelude.Bytes.{Bytes, codes, bytes_eq}

pub data ApprovalMode : Type 0 where
  auto ask read_only : ApprovalMode

pub data ToolClass : Type 0 where
  reads mutates : ToolClass

pub data ToolPolicyError : Type 0 where
  cancelled failed internal : ToolPolicyError

-- `ToolDecision`: an approval by its prompt, a denial by its reason.
pub data ToolDecision : Type 0 where
  allow : ToolDecision
  denied require_approval : Bytes → ToolDecision

-- What the runtime accepts: a denial's reason, an approval's prompt, a decision.
pub record DecisionApi : Type 0 where
  pub accepts_reason : Bytes → Bool
  pub accepts_prompt : Bytes → Bool
  pub validates : ToolDecision → Bool

pub record ToolPolicyRequest : Type 0 where
  pub cancelled : Bool
  pub expired : Bool
  pub tool_name : Bytes
  pub spec_name : Bytes

unfoldable pub classify : Bytes → Option ToolClass
classify name =
    if bytes_eq name (codes "read")
    then some reads
    else if bytes_eq name (codes "write")
        || (bytes_eq name (codes "edit")
            || (bytes_eq name (codes "apply_patch") || bytes_eq name (codes "bash")))
    then some mutates
    else none

unfoldable pub deny : DecisionApi → Bytes → Result ToolPolicyError ToolDecision
deny api reason = do guard (api.accepts_reason reason) internal; ok (denied reason)

unfoldable pub decide_class :
    DecisionApi → ApprovalMode → ToolClass → Bytes → Result ToolPolicyError ToolDecision
decide_class api auto class name = ok allow
decide_class api ask reads name = ok allow
decide_class api read_only reads name = ok allow
decide_class api ask mutates name =
    let prompt = codes "Allow tool `" ++ name ++ codes "` for this call?" in
    guard (api.accepts_prompt prompt) internal >> ok (require_approval prompt)
decide_class api read_only mutates name = deny api (codes "tool is not allowed in read-only mode")

-- The match on the class, and the check of its decision.
unfoldable pub decide_known :
    DecisionApi → ApprovalMode → Option ToolClass → Bytes → Result ToolPolicyError ToolDecision
decide_known api mode none name = deny api (codes "tool is not allowed by policy")
decide_known api mode (some class) name = do
  decision ← decide_class api mode class name
  guard (api.validates decision) internal
  ok decision

unfoldable pub decide_now :
    DecisionApi → ApprovalMode → ToolPolicyRequest → Result ToolPolicyError ToolDecision
decide_now api mode request =
    if request.cancelled
    then err cancelled
    else if request.expired
    then err failed
    else if not (bytes_eq request.tool_name request.spec_name)
    then deny api (codes "tool is not allowed by policy")
    else decide_known api mode (classify request.tool_name) request.tool_name
