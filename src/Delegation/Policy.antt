-- ===== src/Delegation/Policy.antt =====
-- DelegationCoordinator._request_violations of delegation.py.
pub mod Conforms
use reckoning.Prelude.{
  String, Bool, Option, none, some, List, [], ◌∷◌, ◌++◌, ltb_ℤ, is_blank, is_empty, contains,
  distinct, difference, sorted, join, concat, not, if◌then◌else◌,
}
use reckoning.Delegation.Records.{
  ExecutionMode, direct, budget_bounded_delegation, approval_before_delegation, DelegationRequest,
  DelegationPolicy,
}

-- if test: violations.append(text), for one clause after the other
abbrev pub notes : List (Bool × String) → List String
notes [] = []
notes ((test, text) ∷ clauses) = let rest = notes clauses in if test then text ∷ rest else rest

abbrev pub is_direct : ExecutionMode → Bool
is_direct direct = Bool.true
is_direct _ = Bool.false

-- not (approval_id or "").strip()
abbrev pub lacks_approval : Option String → Bool
lacks_approval none = Bool.true
lacks_approval (some text) = is_blank text

-- policy.mode == "approval_before_delegation" and not (request.approval_id or "").strip()
abbrev pub needs_approval : ExecutionMode → Option String → Bool
needs_approval approval_before_delegation approval = lacks_approval approval
needs_approval _ approval = Bool.false

-- the clauses of the check, each with its test and its text
abbrev pub clauses : DelegationRequest → DelegationPolicy → List (Bool × String)
clauses request policy =
    let denied_categories =
      sorted (difference (distinct request.context_categories) policy.allowed_context_categories) in
    let denied_tools = sorted (difference (distinct request.tools) policy.allowed_tools) in
    (is_direct policy.mode, "the execution policy requires direct execution")
    ∷ (
      needs_approval policy.mode request.approval_id,
      "delegation requires an explicit approval reference",
    )
    ∷ (
      not (is_empty denied_categories),
      concat "context falls outside the delegated scope: " (join denied_categories),
    )
    ∷ (
      not (is_empty denied_tools),
      concat "tool scope exceeds the execution policy: " (join denied_tools),
    )
    ∷ (
      not (contains policy.allowed_providers request.provider),
      "provider falls outside the execution policy",
    )
    ∷ (
      ltb_ℤ policy.max_model_calls request.model_call_limit,
      "model-call limit exceeds the execution policy",
    )
    ∷ (ltb_ℤ policy.max_cost request.cost_limit, "cost limit exceeds the execution policy")
    ∷ (ltb_ℤ policy.max_retries request.retry_limit, "retry limit exceeds the execution policy")
    ∷ (
      ltb_ℤ policy.max_tool_calls request.tool_call_limit,
      "tool-call limit exceeds the execution policy",
    )
    ∷ []

unfoldable pub request_violations : DelegationRequest → DelegationPolicy → List String
request_violations request policy = notes (clauses request policy)
