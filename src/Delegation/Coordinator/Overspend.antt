-- ===== src/Delegation/Coordinator/Overspend.antt =====
-- A worker that catches the runtime's exceptions hides what a model call has overspent.
use reckoning.Prelude.{
  ℕ, zero, suc, ◌≡◌, refl, true, [], ◌∷◌, none, some, pos, ◌+ℤ◌, arith, contains, distinct,
  difference, sorted, is_blank, is_unique, lists_equal, join,
}
use reckoning.Prelude.Dict
use reckoning.Prelude.Result.{ok}
use reckoning.Delegation.Records.{
  ExecutionMode, ReviewStatus, DispositionStatus, DelegationPolicy, DelegationRequest,
  DelegationReview, AgentDisposition, DelegationOutcome, new_disposition, new_finding, new_response,
  new_worker_result,
}
use reckoning.Delegation.Policy.{request_violations}
use reckoning.Delegation.Runtime.{ModelGateway, Program, finish, ask_model, run, call_model}
use reckoning.Delegation.Collaborators.{Collaborators, authorize, read_context, verify_all}
use reckoning.Delegation.Review.{validate_disposition}
use reckoning.Delegation.Coordinator.{attempt, settle, delegate}

-- a gateway that quotes nothing and charges `price`
abbrev pub dear_models : ℕ → ModelGateway (Unit {0})
dear_models price = record {
  quote_max_cost = λ provider prompt w. (ok (pos 0), w);
  execute = λ provider prompt w. (ok (record { content = "answer"; cost = pos price }), w);
}

-- a worker that goes on whatever the model call answers
abbrev pub careless : Program
careless = ask_model "question" λ answer. finish (record { finding = "found"; evidence = [] })

abbrev pub accepting : DelegationReview → AgentDisposition
accepting review = record {
  status = elim review.status [
    | ReviewStatus.completed ↦ DispositionStatus.accepted
    | ReviewStatus.blocked ↦ DispositionStatus.blocked
    | ReviewStatus.limited ↦ DispositionStatus.limited
  ];
  final_response = "done";
  rationale = "reviewed";
  verified_evidence_ids = [];
}

abbrev pub dear_crew : ℕ → Collaborators (Unit {0})
dear_crew price = record {
  authorizer = none;
  model_gateway = some (dear_models price);
  tool_gateway = some (record { execute_tool = λ tool payload w. (ok "", w) });
  read_entries = λ category ids w. (ok [], w);
  worker = λ task. careless;
  verify_evidence = λ e w. (ok true, w);
  dispose = λ review w. (ok (accepting review), w);
}

abbrev pub free_request : DelegationRequest
free_request = record {
  purpose = "purpose";
  instructions = "instructions";
  context_categories = [];
  tools = [];
  provider = "fake";
  model_call_limit = pos 1;
  cost_limit = pos 0;
  retry_limit = pos 0;
  approval_id = none;
  context = [];
  tool_call_limit = pos 0;
}

abbrev pub free_policy : DelegationPolicy
free_policy = record {
  mode = ExecutionMode.budget_bounded_delegation;
  allowed_context_categories = [];
  allowed_tools = [];
  allowed_providers = "fake" ∷ [];
  max_model_calls = pos 1;
  max_cost = pos 0;
  max_retries = pos 0;
  max_tool_calls = pos 0;
}

-- For every price there are collaborators with which a delegation that may cost nothing, under a
-- policy that allows no cost, is accepted without a violation at that price: the model gateway
-- exceeds its quote, and the worker catches the exception.
pub accepted_at_any_price :
    (price : ℕ)
    → (outcome : DelegationOutcome) × ((delegate
          (dear_crew price)
          free_request
          free_policy
          "r"
          "now"
          (record { world = tt; receipts = [] })).0
        ≡ ok outcome)
      × (outcome.receipt.result ≡ DispositionStatus.accepted)
      × (outcome.receipt.policy_violations ≡ [])
      × (outcome.receipt.cost ≡ pos price)
unfolding delegate attempt settle authorize read_context verify_all validate_disposition
    new_disposition run call_model new_response new_finding new_worker_result request_violations
    distinct difference sorted contains is_blank is_unique lists_equal Dict.put join ◌+ℤ◌
accepted_at_any_price zero = (_, refl, refl, refl, refl)
accepted_at_any_price (suc price) = (_, refl, ground arith, ground arith, ground arith)
