-- ===== src/Delegation/Coordinator.antt =====
-- DelegationCoordinator.delegate of delegation.py, and the receipts that it saves.
pub mod Overspend
pub mod FailClosed
pub mod Bounds
pub mod Parts
pub mod Accepted
use reckoning.Prelude.{
  ℕ, String, Option, none, some, List, [], ◌∷◌, ◌++◌, ℤ, pos, is_empty, join, concat, if◌then◌else◌,
}
use reckoning.Prelude.Dict
use reckoning.Prelude.Dict.{Dict}
use reckoning.Prelude.Result.{
  Result, ok, err, Error, limit_exceeded, quote_exceeded, Action, ◌>>=◌, ◌>>◌,
}
use reckoning.Delegation.Records.{
  ReviewStatus, DelegatedWorkerResult, DelegationPolicy, DelegationRequest, DelegatedContext,
  DelegatedTask, DelegatedWorkerFinding, DelegationReview, AgentDisposition, DelegationReceipt,
  DelegationOutcome, required, new_worker_result, new_disposition,
}
use reckoning.Delegation.Policy.{request_violations}
use reckoning.Delegation.Collaborators.{Collaborators, authorize, read_context, verify_all}
use reckoning.Delegation.Review.{validate_disposition, fallback}
use reckoning.Delegation.Runtime.{Runtime, ModelGateway, ToolGateway, new_runtime, run}

-- The state that a delegation changes: that of the collaborators and the saved receipts.
pub record Host (W : Type 0) : Type 0 where
  pub world : W
  pub receipts : Dict DelegationReceipt

-- The locals of `delegate` at the end of its run of the worker.
pub record Attempt : Type 0 where
  pub violations : List String
  pub review_status : ReviewStatus
  pub result : Option DelegatedWorkerResult
  pub model_calls : ℕ
  pub cost : ℤ
  pub retries : ℕ
  pub tools_used : List String
  pub tool_calls : ℕ
  pub verified_evidence_ids : List String

-- the worker did not run
abbrev pub blocked_attempt : List String → Attempt
blocked_attempt violations = record {
  violations = violations;
  review_status = ReviewStatus.blocked;
  result = none;
  model_calls = 0;
  cost = pos 0;
  retries = 0;
  tools_used = [];
  tool_calls = 0;
  verified_evidence_ids = [];
}

-- the worker raised: its violation
abbrev pub raised : Error → List String
raised (limit_exceeded text) = text ∷ []
raised (quote_exceeded text) = text ∷ []
raised _ = "delegated execution failed safely" ∷ []

abbrev pub task_for : DelegationRequest → List DelegatedContext → DelegatedTask
task_for request context = record {
  purpose = request.purpose;
  instructions = request.instructions;
  context = context;
  tools = request.tools;
  provider = request.provider;
  model_call_limit = request.model_call_limit;
  cost_limit = request.cost_limit;
  retry_limit = request.retry_limit;
  tool_call_limit = request.tool_call_limit;
}

abbrev pub review_of : DelegationRequest → Attempt → DelegationReview
review_of request a = record {
  purpose = request.purpose;
  status = a.review_status;
  worker_result = a.result;
  policy_violations = a.violations;
  verified_evidence_ids = a.verified_evidence_ids;
}

abbrev pub settle_with :
    DelegationReview → List String → Result AgentDisposition → AgentDisposition × List String
settle_with review violations (ok disposition) = (disposition, violations)
settle_with review violations (err e) =
    (fallback review.status, violations ++ "Simon disposition review failed safely" ∷ [])

abbrev pub receipt_of :
    DelegationRequest
    → Attempt
    → AgentDisposition × List String
    → String
    → String
    → DelegationReceipt
receipt_of request a (disposition, violations) receipt_id started_at = record {
  id = receipt_id;
  started_at = started_at;
  purpose = request.purpose;
  context_categories = request.context_categories;
  provider = request.provider;
  tools_allowed = request.tools;
  tools_used = a.tools_used;
  model_calls = a.model_calls;
  cost = a.cost;
  retries = a.retries;
  result = disposition.status;
  rationale = disposition.rationale;
  verified_evidence_ids = a.verified_evidence_ids;
  policy_violations = violations;
  tool_calls = a.tool_calls;
}

module _ {W : Type 0} where
  -- the counters of the runtime, whatever became of the worker
  abbrev pub spent : Runtime W → Attempt → Attempt
  spent runtime attempt = record attempt {
    model_calls = runtime.model_calls;
    cost = runtime.cost;
    retries = runtime.retries;
    tools_used = runtime.tools_used;
    tool_calls = runtime.tool_calls;
  }

  -- DelegatedWorkerResult from the finding and the runtime
  abbrev pub result_of :
      DelegationRequest → Runtime W → DelegatedWorkerFinding → Result DelegatedWorkerResult
  result_of request runtime finding = new_worker_result (record {
    finding = finding.finding;
    evidence = finding.evidence;
    provider = request.provider;
    model_calls = pos runtime.model_calls;
    cost = runtime.cost;
    retries = pos runtime.retries;
    tools_used = runtime.tools_used;
  })

module _ {W : Type 0} (c : Collaborators W) where
  -- the branches after the worker: an exception, or the verification of its evidence
  unfoldable pub assess : Result DelegatedWorkerResult → W → Attempt × W
  assess (err e) w =
      (record (blocked_attempt (raised e)) { review_status = ReviewStatus.limited }, w)
  assess (ok result) w =
      let (failures, verified, unverified, w') = verify_all c result.evidence w in
      let violations =
        failures
        ++ (if is_empty unverified
            then []
            else concat "Simon could not verify worker evidence: " (join unverified) ∷ []) in
      (
        record (blocked_attempt violations) {
          review_status =
              if is_empty violations then ReviewStatus.completed else ReviewStatus.limited;
          result = some result;
          verified_evidence_ids = verified;
        },
        w',
      )

  -- the run of the worker on a fresh runtime
  unfoldable pub execute :
      ModelGateway W → ToolGateway W → DelegationRequest → List DelegatedContext → W → Attempt × W
  unfolding assess
  execute models tools request context w =
      let task = task_for request context in
      let (finding, runtime) = run models tools (c.worker task) (new_runtime task w) in
      let (attempt, w') = assess (finding >>= result_of request runtime) runtime.world in
      (spent runtime attempt, w')

  after_context :
      ModelGateway W
      → ToolGateway W
      → DelegationRequest
      → List String × List DelegatedContext × W
      → Attempt × W
  unfolding execute
  after_context models tools request ([], context, w) = execute models tools request context w
  after_context models tools request (v ∷ violations, context, w) =
      (blocked_attempt (v ∷ violations), w)

  with_gateways :
      Option (ModelGateway W) → Option (ToolGateway W) → DelegationRequest → W → Attempt × W
  unfolding after_context
  with_gateways (some models) (some tools) request w =
      after_context models tools request (read_context c request.context [] w)
  with_gateways _ _ request w =
      (blocked_attempt ("bounded delegation gateways are unavailable" ∷ []), w)

  -- from the violations of the request to the end of the worker
  unfoldable pub attempt : DelegationRequest → List String → W → Attempt × W
  unfolding with_gateways
  attempt request (v ∷ violations) w = (blocked_attempt (v ∷ violations), w)
  attempt request [] w = with_gateways c.model_gateway c.tool_gateway request w

  -- the accountable review: the disposition and the violations after it
  unfoldable pub settle : DelegationRequest → Attempt → W → (AgentDisposition × List String) × W
  settle request a w =
      let review = review_of request a in
      let (answer, w') = c.dispose review w in
      (
        settle_with review a.violations (do
          disposition ← answer >>= new_disposition
          validate_disposition review disposition
          ok disposition),
        w',
      )

  -- all that follows the check of the request, with its violations
  unfoldable pub carry_out :
      DelegationRequest → String → String → List String → Action (Host W) DelegationOutcome
  carry_out request receipt_id started_at violations h =
      let (a, w) = attempt request violations h.world in
      let (settled, w') = settle request a w in
      let receipt = receipt_of request a settled receipt_id started_at in
      (
        ok (record { response = settled.0.final_response; receipt = receipt }),
        record { world = w'; receipts = Dict.put receipt_id receipt h.receipts },
      )

  pub after_authorize :
      DelegationRequest → String → String → Result (List String) → Action (Host W) DelegationOutcome
  unfolding carry_out
  after_authorize request receipt_id started_at (err e) h = (err e, h)
  after_authorize request receipt_id started_at (ok violations) h =
      carry_out request receipt_id started_at violations h

  after_id :
      DelegationRequest
      → DelegationPolicy
      → String
      → String
      → Result (Unit {0})
      → Action (Host W) DelegationOutcome
  unfolding after_authorize
  after_id request policy receipt_id started_at (err e) h = (err e, h)
  after_id request policy receipt_id started_at (ok _) h =
      let (violations, w) = authorize c request (request_violations request policy) h.world in
      after_authorize request receipt_id started_at violations (record h { world = w })

  unfoldable pub delegate :
      DelegationRequest → DelegationPolicy → String → String → Action (Host W) DelegationOutcome
  unfolding after_id required
  delegate request policy receipt_id started_at h =
      after_id request policy receipt_id started_at (required receipt_id "Delegation receipt id") h
