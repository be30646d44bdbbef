-- ===== src/Delegation/Records.antt =====
-- delegation.py: the dataclasses of a delegated run and the checks of their `__post_init__`. A
-- dataclass is a record, and `new_…` is its constructor with the checks; a record that the
-- program holds has passed them. A `Decimal` is an exact multiple of one unit, as a signed
-- integer.
use reckoning.Prelude.{
  ℕ, String, Option, List, map, ℤ, is_negative, is_empty, is_blank, is_unique, concat, join, sorted,
  keep, not, ◌&&◌, lists_equal,
}
use reckoning.Prelude.Result.{Result, ok, value_error, raise_if, ◌>>◌}
use reckoning.Delegation.OwnerTools.{is_owner_tool}

-- ExecutionMode
pub data ExecutionMode : Type 0 where
  direct budget_bounded_delegation approval_before_delegation : ExecutionMode

pub data ReviewStatus : Type 0 where
  completed blocked limited : ReviewStatus

pub data DispositionStatus : Type 0 where
  accepted rejected blocked limited : DispositionStatus

-- _required, where the caller drops the stripped text
unfoldable pub required : String → String → Result (Unit {0})
required value label = raise_if (is_blank value) (value_error (concat label " cannot be empty."))

-- _unique
unfoldable pub unique : List String → String → Result (Unit {0})
unique values label =
    raise_if (not (is_unique values)) (value_error (concat label " cannot contain duplicates."))

pub record DelegationEvidence : Type 0 where
  pub id : String
  pub claim : String
  pub source : String

unfoldable pub new_evidence : String → String → String → Result DelegationEvidence
unfolding required
new_evidence id claim source = do
  required id "Evidence id"
  required claim "Evidence claim"
  required source "Evidence source"
  ok (record { id = id; claim = claim; source = source })

pub record DelegatedWorkerResult : Type 0 where
  pub finding : String
  pub evidence : List DelegationEvidence
  pub provider : String
  pub model_calls : ℤ
  pub cost : ℤ
  pub retries : ℤ
  pub tools_used : List String

unfoldable pub new_worker_result : DelegatedWorkerResult → Result DelegatedWorkerResult
unfolding required unique
new_worker_result r = do
  required r.finding "Worker finding"
  required r.provider "Worker provider"
  raise_if (is_negative r.model_calls) (value_error "Worker model calls cannot be negative.")
  raise_if (is_negative r.cost) (value_error "Worker cost cannot be negative.")
  raise_if (is_negative r.retries) (value_error "Worker retries cannot be negative.")
  unique r.tools_used "Worker tools"
  unique (map (λ (item : DelegationEvidence). item.id) r.evidence) "Worker evidence ids"
  ok r

pub record DelegationPolicy : Type 0 where
  pub mode : ExecutionMode
  pub allowed_context_categories : List String
  pub allowed_tools : List String
  pub allowed_providers : List String
  pub max_model_calls : ℤ
  pub max_cost : ℤ
  pub max_retries : ℤ
  pub max_tool_calls : ℤ

unfoldable pub new_policy : DelegationPolicy → Result DelegationPolicy
new_policy p = do
  raise_if (is_negative p.max_model_calls)
      (value_error "The policy model-call limit cannot be negative.")
  raise_if (is_negative p.max_cost) (value_error "The policy cost limit cannot be negative.")
  raise_if (is_negative p.max_retries) (value_error "The policy retry limit cannot be negative.")
  raise_if (is_negative p.max_tool_calls)
      (value_error "The policy tool-call limit cannot be negative.")
  let reserved = sorted (keep is_owner_tool p.allowed_tools)
  raise_if (not (is_empty reserved))
      (value_error (concat "These tools are reserved for Simon: " (join reserved)))
  ok p

pub record DelegatedContextRequest : Type 0 where
  pub category : String
  pub entry_ids : List String

unfoldable pub new_context_request : String → List String → Result DelegatedContextRequest
unfolding required unique
new_context_request category entry_ids = do
  required category "Context category"
  raise_if (is_empty entry_ids) (value_error "A delegated context selection needs an entry id.")
  unique entry_ids "Context entry ids"
  ok (record { category = category; entry_ids = entry_ids })

pub record DelegationRequest : Type 0 where
  pub purpose : String
  pub instructions : String
  pub context_categories : List String
  pub tools : List String
  pub provider : String
  pub model_call_limit : ℤ
  pub cost_limit : ℤ
  pub retry_limit : ℤ
  pub approval_id : Option String
  pub context : List DelegatedContextRequest
  pub tool_call_limit : ℤ

unfoldable pub new_request : DelegationRequest → Result DelegationRequest
unfolding required unique
new_request r = do
  required r.purpose "Delegation purpose"
  required r.instructions "Delegation instructions"
  required r.provider "Delegation provider"
  unique r.context_categories "Context categories"
  unique r.tools "Delegation tools"
  raise_if (is_negative r.model_call_limit)
      (value_error "The request model-call limit cannot be negative.")
  raise_if (is_negative r.cost_limit) (value_error "The request cost limit cannot be negative.")
  raise_if (is_negative r.retry_limit) (value_error "The request retry limit cannot be negative.")
  raise_if (is_negative r.tool_call_limit)
      (value_error "The request tool-call limit cannot be negative.")
  raise_if
      (not (is_empty r.context)
        && not (
            lists_equal (map (λ (item : DelegatedContextRequest). item.category) r.context)
              r.context_categories))
      (value_error "Exact context selections must match context categories.")
  raise_if (not (is_empty r.context_categories) && is_empty r.context)
      (value_error "Delegation requires exact context entry selections.")
  ok r

pub record DelegatedContextEntry : Type 0 where
  pub id : String
  pub content : String

unfoldable pub new_context_entry : String → String → Result DelegatedContextEntry
unfolding required
new_context_entry id content = do
  required id "Context entry id"
  required content "Context entry content"
  ok (record { id = id; content = content })

pub record DelegatedContext : Type 0 where
  pub category : String
  pub entries : List DelegatedContextEntry

pub record DelegatedTask : Type 0 where
  pub purpose : String
  pub instructions : String
  pub context : List DelegatedContext
  pub tools : List String
  pub provider : String
  pub model_call_limit : ℤ
  pub cost_limit : ℤ
  pub retry_limit : ℤ
  pub tool_call_limit : ℤ

pub record DelegatedWorkerFinding : Type 0 where
  pub finding : String
  pub evidence : List DelegationEvidence

unfoldable pub new_finding : DelegatedWorkerFinding → Result DelegatedWorkerFinding
unfolding required unique
new_finding f = do
  required f.finding "Worker finding"
  unique (map (λ (item : DelegationEvidence). item.id) f.evidence) "Worker evidence ids"
  ok f

pub record DelegatedModelResponse : Type 0 where
  pub content : String
  pub cost : ℤ

unfoldable pub new_response : DelegatedModelResponse → Result DelegatedModelResponse
unfolding required
new_response r = do
  required r.content "Delegated model response"
  raise_if (is_negative r.cost) (value_error "Delegated model cost cannot be negative.")
  ok r

pub record DelegationReview : Type 0 where
  pub purpose : String
  pub status : ReviewStatus
  pub worker_result : Option DelegatedWorkerResult
  pub policy_violations : List String
  pub verified_evidence_ids : List String

pub record AgentDisposition : Type 0 where
  pub status : DispositionStatus
  pub final_response : String
  pub rationale : String
  pub verified_evidence_ids : List String

unfoldable pub new_disposition : AgentDisposition → Result AgentDisposition
unfolding required unique
new_disposition d = do
  required d.final_response "The Reckoning agent final response"
  required d.rationale "The Reckoning agent rationale"
  unique d.verified_evidence_ids "Verified evidence ids"
  ok d

pub record DelegationReceipt : Type 0 where
  pub id : String
  pub started_at : String
  pub purpose : String
  pub context_categories : List String
  pub provider : String
  pub tools_allowed : List String
  pub tools_used : List String
  pub model_calls : ℕ
  pub cost : ℤ
  pub retries : ℕ
  pub result : DispositionStatus
  pub rationale : String
  pub verified_evidence_ids : List String
  pub policy_violations : List String
  pub tool_calls : ℕ

pub record DelegationOutcome : Type 0 where
  pub response : String
  pub receipt : DelegationReceipt
