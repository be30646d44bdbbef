-- ===== src/Delegation/Tests.antt =====
-- A delegation at work: the theorems at concrete inputs, and runs of the definitions.
use reckoning.Prelude.{
  ℕ, ◌+◌, ◌≡◌, ◌≢◌, refl, String, true, none, some, [], ◌∷◌, ◌⊎◌, arith, pos, ◌≤ℤ◌, ◌+ℤ◌, ◌↔◌,
  is_blank, distinct, difference, sorted, contains, is_unique, lists_equal, join,
}
use reckoning.Prelude.Result.{Result, ok, err}
use reckoning.Delegation.OwnerTools.{is_owner_tool}
use reckoning.Delegation.Records.{
  ExecutionMode, ReviewStatus, DispositionStatus, DelegationEvidence, DelegatedWorkerResult,
  DelegationPolicy, DelegationRequest, DelegatedWorkerFinding, DelegationReview, AgentDisposition,
  DelegationOutcome, new_request, new_policy, new_disposition, new_response, new_finding,
  new_worker_result,
}
use reckoning.Delegation.Policy.{request_violations}
use reckoning.Delegation.Runtime.{
  ModelGateway, ToolGateway, Program, finish, ask_model, ask_tool, retry, new_runtime, run,
  call_model, use_tool, record_retry,
}
use reckoning.Delegation.Runtime.Cost.{KeepsQuotes, worker_cost_bounded}
use reckoning.Delegation.Collaborators.{Collaborators, authorize, read_context, verify_all}
use reckoning.Delegation.Review.{validate_disposition}
use reckoning.Prelude.Dict
use reckoning.Delegation.Coordinator.{Host, attempt, settle, delegate, task_for}
use reckoning.Delegation.Coordinator.Accepted.{delegate-accepted}
use reckoning.Delegation.Coordinator.Bounds.{
  WithinRequest, WithinPolicy, receipt_usage, delegate-bounded,
}
use reckoning.Delegation.Coordinator.FailClosed.{delegate-saves, delegate-refused}
use reckoning.Delegation.Coordinator.Overspend.{
  dear_crew, free_request, free_policy, accepted_at_any_price,
}
use reckoning.Delegation.Policy.Conforms.{Conforms, request_violations_iff}

-- the world counts the calls of the model
abbrev models : ModelGateway ℕ
models = record {
  quote_max_cost = λ provider prompt w. (ok (pos 3), w);
  execute = λ provider prompt w. (ok (record { content = "answer"; cost = pos 2 }), w + 1);
}

abbrev tools : ToolGateway ℕ
tools = record { execute_tool = λ tool payload w. (ok "done", w) }

abbrev evidence : DelegationEvidence
evidence = record { id = "e1"; claim = "it rains"; source = "weather" }

abbrev finding : DelegatedWorkerFinding
finding = record { finding = "rain"; evidence = evidence ∷ [] }

-- asks the model twice and a tool once, whatever the answers
abbrev busy : Program
busy =
    ask_model "one"
      λ a. ask_model "two" λ b. ask_tool "search" "rain" λ t. retry λ r. finish finding

abbrev request : DelegationRequest
request = record {
  purpose = "weather";
  instructions = "look it up";
  context_categories = "notes" ∷ [];
  tools = "search" ∷ [];
  provider = "fake";
  model_call_limit = pos 1;
  cost_limit = pos 5;
  retry_limit = pos 1;
  approval_id = none;
  context = record { category = "notes"; entry_ids = "n1" ∷ [] } ∷ [];
  tool_call_limit = pos 1;
}

abbrev policy : DelegationPolicy
policy = record {
  mode = ExecutionMode.budget_bounded_delegation;
  allowed_context_categories = "notes" ∷ [];
  allowed_tools = "search" ∷ "read" ∷ [];
  allowed_providers = "fake" ∷ [];
  max_model_calls = pos 2;
  max_cost = pos 10;
  max_retries = pos 1;
  max_tool_calls = pos 1;
}

abbrev accept : DelegationReview → AgentDisposition
accept review = record {
  status = elim review.status [
    | ReviewStatus.completed ↦ DispositionStatus.accepted
    | ReviewStatus.blocked ↦ DispositionStatus.blocked
    | ReviewStatus.limited ↦ DispositionStatus.limited
  ];
  final_response = "It rains.";
  rationale = "verified";
  verified_evidence_ids = [];
}

abbrev crew : Program → Collaborators ℕ
crew program = record {
  authorizer = none;
  model_gateway = some models;
  tool_gateway = some tools;
  read_entries = λ category ids w. (ok (record { id = "n1"; content = "rain?" } ∷ []), w);
  worker = λ task. program;
  verify_evidence = λ e w. (ok true, w);
  dispose = λ review w. (ok (accept review), w);
}

abbrev host : Host ℕ
host = record { world = 0; receipts = [] }

abbrev done : Result DelegationOutcome × Host ℕ
done = delegate (crew busy) request policy "r1" "2026-01-01" host

abbrev outcome_of : Result DelegationOutcome → DelegationOutcome
outcome_of (ok outcome) = outcome
outcome_of (err e) = record {
  response = "";
  receipt = record {
    id = "";
    started_at = "";
    purpose = "";
    context_categories = [];
    provider = "";
    tools_allowed = [];
    tools_used = [];
    model_calls = 0;
    cost = pos 0;
    retries = 0;
    result = DispositionStatus.blocked;
    rationale = "";
    verified_evidence_ids = [];
    policy_violations = [];
    tool_calls = 0;
  };
}

abbrev outcome : DelegationOutcome
outcome = outcome_of done.0

-- the worker asks the model twice, and is let through once
busy_run :
    (done.0 ≡ ok outcome)
    × (outcome.receipt.result ≡ DispositionStatus.accepted)
    × (outcome.receipt.model_calls ≡ 1)
    × (outcome.receipt.tools_used ≡ "search" ∷ [])
unfolding delegate attempt settle authorize read_context verify_all validate_disposition
    new_disposition run call_model use_tool record_retry new_response new_finding new_worker_result
    request_violations distinct difference sorted contains is_blank is_unique lists_equal Dict.put
    join ◌+ℤ◌
busy_run = (refl, refl, refl, refl)

request_checked : new_request request ≡ ok request
unfolding new_request distinct is_blank is_unique lists_equal
request_checked = refl

policy_checked : new_policy policy ≡ ok policy
unfolding new_policy sorted is_owner_tool
policy_checked = refl

keeps_quotes : KeepsQuotes models
keeps_quotes = record { within = λ provider prompt w quote response q r. ground (arith, q, r) }

worker_cost_bounded_example :
    (run models tools busy (new_runtime (task_for request []) 0)).1.cost ≤ℤ pos 5
worker_cost_bounded_example =
    worker_cost_bounded (task_for request []) models tools busy 0 (omega arith) keeps_quotes

request_violations_iff_example : (request_violations request policy ≡ []) ↔ Conforms request policy
request_violations_iff_example = request_violations_iff request policy

delegate-accepted_example : Conforms request policy × (outcome.receipt.policy_violations ≡ [])
delegate-accepted_example =
    delegate-accepted (crew busy) request policy "r1" "2026-01-01" host outcome busy_run.0
      busy_run.1

delegate-bounded_example :
    WithinRequest request (receipt_usage outcome.receipt)
    × WithinPolicy policy (receipt_usage outcome.receipt)
delegate-bounded_example =
    delegate-bounded (crew busy) request request policy policy request_checked policy_checked "r1"
      "2026-01-01" host outcome busy_run.0

delegate-saves_example :
    (outcome.receipt.id ≡ "r1")
    × (Dict.get "r1" done.1.receipts ≡ some outcome.receipt)
    × ((j : String) → j ≢ "r1" → Dict.get j done.1.receipts ≡ Dict.get j host.receipts)
delegate-saves_example =
    delegate-saves (crew busy) request policy "r1" "2026-01-01" host outcome busy_run.0

delegate-refused_example :
    (o : DelegationOutcome) × ((delegate
        (crew busy)
        (record request { tools = "write" ∷ [] })
        policy
        "r1"
        "2026-01-01"
        host).0
      ≡ ok o)
    × (o.receipt.model_calls ≡ 0)
    × (o.receipt.tool_calls ≡ 0)
    × (o.receipt.cost ≡ pos 0)
    × ((o.receipt.result ≡ DispositionStatus.blocked)
        ⊎ (o.receipt.result ≡ DispositionStatus.rejected))
    × ((delegate
          (crew busy)
          (record request { tools = "write" ∷ [] })
          policy
          "r1"
          "2026-01-01"
          host).1.world
        ≡ 0)
unfolding request_violations distinct difference sorted contains is_blank join
delegate-refused_example =
    delegate-refused (crew busy) (record request { tools = "write" ∷ [] }) policy "r1" "2026-01-01"
      host "tool scope exceeds the execution policy: write" [] refl refl

abbrev report : DelegatedWorkerResult
report = record {
  finding = "rain";
  evidence = evidence ∷ [];
  provider = "fake";
  model_calls = pos 1;
  cost = pos 2;
  retries = pos 0;
  tools_used = [];
}

accepted_at_any_price_example :
    (o : DelegationOutcome) × ((delegate
        (dear_crew 7)
        free_request
        free_policy
        "r"
        "now"
        (record { world = tt; receipts = [] })).0
      ≡ ok o)
    × (o.receipt.result ≡ DispositionStatus.accepted)
    × (o.receipt.policy_violations ≡ [])
    × (o.receipt.cost ≡ pos 7)
accepted_at_any_price_example = accepted_at_any_price 7
