-- ===== src/Policy/Allows.antt =====
-- What the policy allows without asking.
use minicore_agent.Prelude.{
  ◌≡◌, refl, ◌∙◌, ◌≢◌, ◌⊎◌, inl, inr, false, Option, none, some, ◌++◌, arith, Bool-cases, ok,
  >>=-eq-ok, guard->>=-eq-ok, reject-eq-ok,
}
use minicore_agent.Prelude.Bytes.{Bytes, codes, bytes_eq, bytes_eq→eq}
use minicore_agent.Policy.{
  ApprovalMode, auto, ask, read_only, ToolClass, reads, mutates, allow, DecisionApi,
  ToolPolicyRequest, classify, deny, decide_class, decide_known, decide_now,
}

deny-not-allow : (api : DecisionApi) (reason : Bytes) → deny api reason ≢ ok allow
unfolding deny
deny-not-allow api reason h =
    let (accepted, e) = guard->>=-eq-ok (api.accepts_reason reason) _ _ h in cc

decide_class-allow :
    (api : DecisionApi) (mode : ApprovalMode) (class : ToolClass) (name : Bytes)
    → decide_class api mode class name ≡ ok allow
    → (class ≡ reads) ⊎ (mode ≡ auto)
unfolding decide_class
decide_class-allow api auto class name h = inr refl
decide_class-allow api ask reads name h = inl refl
decide_class-allow api read_only reads name h = inl refl
decide_class-allow api ask mutates name h =
    let (accepted, e) =
      guard->>=-eq-ok
        (api.accepts_prompt (codes "Allow tool `" ++ name ++ codes "` for this call?")) _ _ h in
    absurd (cc)
decide_class-allow api read_only mutates name h = absurd (deny-not-allow api _ h)

decide_known-allow :
    (api : DecisionApi) (mode : ApprovalMode) (class : Option ToolClass) (name : Bytes)
    → decide_known api mode class name ≡ ok allow
    → (class ≡ some reads) ⊎ ((class ≡ some mutates) × (mode ≡ auto))
unfolding decide_known
decide_known-allow api mode none name h = absurd (deny-not-allow api _ h)
decide_known-allow api mode (some reads) name h = inl refl
decide_known-allow api mode (some mutates) name h =
    let (decision, d, h1) = >>=-eq-ok (decide_class api mode mutates name) _ h in
    let (valid, h2) = guard->>=-eq-ok (api.validates decision) _ _ h1 in
    elim (decide_class-allow api mode mutates name (d ∙ h2)) [
      | inl e ↦ absurd (cc)
      | inr e ↦ inr (refl, e)
    ]

classify-reads : (name : Bytes) → classify name ≡ some reads → name ≡ codes "read"
unfolding classify
classify-reads name h = elim (Bool-cases (bytes_eq name (codes "read"))) [
  | inl e ↦ bytes_eq→eq name (codes "read") e
  | inr e ↦ absurd (ground (arith, h, e))
]

-- The tools that change files.
abbrev pub ChangesFiles : Bytes → Type 0
ChangesFiles name =
    (name ≡ codes "write")
    ⊎ ((name ≡ codes "edit") ⊎ ((name ≡ codes "apply_patch") ⊎ (name ≡ codes "bash")))

classify-mutates : (name : Bytes) → classify name ≡ some mutates → ChangesFiles name
unfolding classify
classify-mutates name h = elim (Bool-cases (bytes_eq name (codes "read"))) [
  | inl e ↦ absurd (ground (arith, h, e))
  | inr r ↦ elim (Bool-cases (bytes_eq name (codes "write"))) [
    | inl e ↦ inl (bytes_eq→eq name _ e)
    | inr w ↦ elim (Bool-cases (bytes_eq name (codes "edit"))) [
      | inl e ↦ inr (inl (bytes_eq→eq name _ e))
      | inr d ↦ elim (Bool-cases (bytes_eq name (codes "apply_patch"))) [
        | inl e ↦ inr (inr (inl (bytes_eq→eq name _ e)))
        | inr p ↦ elim (Bool-cases (bytes_eq name (codes "bash"))) [
          | inl e ↦ inr (inr (inr (bytes_eq→eq name _ e)))
          | inr b ↦ absurd (ground (arith, h, r, w, d, p, b))
        ]
      ]
    ]
  ]
]

-- A tool call is allowed without an approval only when it is neither cancelled nor past its
-- deadline, names the tool of its specification, and is the tool `read`, or, while the mode is
-- `auto`, one of `write`, `edit`, `apply_patch` and `bash`.
pub decide_now-allow :
    (api : DecisionApi) (mode : ApprovalMode) (request : ToolPolicyRequest)
    → decide_now api mode request ≡ ok allow
    → (request.cancelled ≡ false)
      × (request.expired ≡ false)
      × (request.tool_name ≡ request.spec_name)
      × ((request.tool_name ≡ codes "read") ⊎ (ChangesFiles request.tool_name × (mode ≡ auto)))
unfolding decide_now
decide_now-allow api mode request h =
    let (live, h1) = reject-eq-ok request.cancelled _ _ h in
    let (timely, h2) = reject-eq-ok request.expired _ _ h1 in
    elim (Bool-cases (bytes_eq request.tool_name request.spec_name)) [
      | inl same ↦ (
        live,
        timely,
        bytes_eq→eq _ _ same,
        elim (decide_known-allow api mode (classify request.tool_name) request.tool_name
            (rw same at h2)) [
              | inl r ↦ inl (classify-reads request.tool_name r)
              | inr m ↦ inr (classify-mutates request.tool_name m.0, m.1)
            ],
      )
      | inr other ↦ absurd (deny-not-allow api _ (rw other at h2))
    ]
