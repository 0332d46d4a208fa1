-- ===== src/Policy/Tests.antt =====
-- Decisions on concrete calls.
use minicore_agent.Prelude.{◌≡◌, refl, ◌⊎◌, true, false, not, is_empty, ok}
use minicore_agent.Prelude.Bytes.{codes, bytes_eq}
use minicore_agent.Policy.{
  auto, read_only, allow, denied, DecisionApi, ToolPolicyRequest, classify, deny, decide_class,
  decide_known, decide_now,
}
use minicore_agent.Policy.Allows.{ChangesFiles, decide_now-allow}

abbrev accepting : DecisionApi
accepting = record {
  accepts_reason = λ reason. not (is_empty reason);
  accepts_prompt = λ prompt. not (is_empty prompt);
  validates = λ decision. true;
}

abbrev edits : ToolPolicyRequest
edits = record {
  cancelled = false;
  expired = false;
  tool_name = codes "edit";
  spec_name = codes "edit";
}

allows_edit : decide_now accepting auto edits ≡ ok allow
unfolding decide_now decide_known decide_class classify bytes_eq
allows_edit = refl

denies_edit :
    decide_now accepting read_only edits
    ≡ ok (denied (codes "tool is not allowed in read-only mode"))
unfolding decide_now decide_known decide_class classify bytes_eq deny
denies_edit = refl

decide_now-allow_example :
    (edits.cancelled ≡ false)
    × (edits.expired ≡ false)
    × (edits.tool_name ≡ edits.spec_name)
    × ((edits.tool_name ≡ codes "read") ⊎ (ChangesFiles edits.tool_name × (auto ≡ auto)))
decide_now-allow_example = decide_now-allow accepting auto edits allows_edit
