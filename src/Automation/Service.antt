-- ===== src/Automation/Service.antt =====
-- RoutineService of automation.py, up to the start of a run. A method is an action on the
-- repository.
pub mod Contracts
pub mod Starts
use reckoning.Prelude.{
  ℕ, String, Bool, true, false, not, ◌&&◌, ◌||◌, Option, none, some, List, [], ◌∷◌, map, ℤ,
  is_negative, str_eq, is_blank, strip, contains, keep, any, all, is_empty, concat, join, sorted,
  if◌then◌else◌,
}
use reckoning.Prelude.Casefold.{codes, casefold, holds_text}
use reckoning.Prelude.Dict
use reckoning.Prelude.Result.{
  Result, ok, err, Error, value_error, permission_error, raise_if, Action, ◌>>=◌, ◌>>◌,
}
use reckoning.Automation.Records.{
  ProposalStatus, RunStatus, RoutineProposal, RoutineContractDraft, RoutineStep, RoutineRun,
  NoRunReceipt, is_confirmed, is_proposed, is_model,
}
use reckoning.Automation.Repository.{
  Repository, get_proposal, create_proposal, revise_proposal, confirm_proposal,
}
use reckoning.Automation.Claims.{find_run_by_key, start_run}

-- the loop over the labelled texts that may not be blank
unfoldable pub check_texts : List (String × String) → Result (Unit {0})
check_texts [] = ok tt
check_texts ((label, value) ∷ rest) =
    let go_on = check_texts rest in
    if is_blank value
    then err (value_error (concat "Routine " (concat label " cannot be empty.")))
    else go_on

-- the loop over the labelled scopes that may not hold a blank
unfoldable pub check_scopes : List (String × List String) → Result (Unit {0})
check_scopes [] = ok tt
check_scopes ((label, values) ∷ rest) =
    let go_on = check_scopes rest in
    if any is_blank values
    then err (value_error (concat "Routine " (concat label " must contain named values.")))
    else go_on

-- RoutineService._validate_contract
unfoldable pub validate_contract : RoutineProposal → Result (Unit {0})
unfolding check_texts check_scopes
validate_contract p = do
  check_texts (
      ("routine id", p.routine_id)
      ∷ ("source request", p.source_request)
      ∷ ("trigger", p.trigger)
      ∷ ("delivery", p.delivery)
      ∷ ("model policy", p.model_policy)
      ∷ ("delegation policy", p.delegation_policy)
      ∷ ("failure behavior", p.failure_behavior)
      ∷ [])
  check_scopes (
      ("source scope", p.source_scope)
      ∷ ("context scope", p.context_scope)
      ∷ ("tools", p.tools)
      ∷ ("permissions", p.permissions)
      ∷ [])
  raise_if (is_negative p.cost_ceiling || is_negative p.retry_limit)
      (value_error "Routine cost and retry limits cannot be negative.")

abbrev pub checked : RoutineProposal → Result RoutineProposal
checked p = do validate_contract p; ok p

-- the proposal that `propose` builds, with its texts stripped
unfoldable pub proposal_from :
    String → String → String → String → RoutineContractDraft → ℕ → RoutineProposal
proposal_from proposal_id routine_id source_request created_at draft version = record {
  id = proposal_id;
  routine_id = routine_id;
  version = version;
  source_request = strip source_request;
  created_at = created_at;
  trigger = strip draft.trigger;
  source_scope = draft.source_scope;
  context_scope = draft.context_scope;
  tools = draft.tools;
  permissions = draft.permissions;
  delivery = strip draft.delivery;
  model_policy = strip draft.model_policy;
  cost_ceiling = draft.cost_ceiling;
  retry_limit = draft.retry_limit;
  delegation_policy = strip draft.delegation_policy;
  failure_behavior = strip draft.failure_behavior;
  status = ProposalStatus.proposed;
  supersedes_proposal_id = none;
}

unfoldable pub propose :
    String → String → String → String → RoutineContractDraft → Action Repository RoutineProposal
unfolding proposal_from
propose proposal_id routine_id source_request created_at draft =
    create_proposal routine_id λ version.
      checked (proposal_from proposal_id routine_id source_request created_at draft version)

propose_drafted :
    String
    → String
    → String
    → String
    → Result RoutineContractDraft
    → Action Repository RoutineProposal
propose_drafted proposal_id routine_id request created_at (err e) r = (err e, r)
propose_drafted proposal_id routine_id request created_at (ok draft) r =
    propose proposal_id routine_id request created_at draft r

-- the compiler is outside the source
unfoldable pub compile_request :
    (String → Result RoutineContractDraft)
    → String
    → String
    → String
    → String
    → Action Repository RoutineProposal
unfolding propose_drafted
compile_request compiler source_request proposal_id routine_id created_at r =
    let request = strip source_request in
    let drafted = do
      raise_if (is_blank source_request)
          (value_error "A natural-language recurring request is required.")
      compiler request
    in propose_drafted proposal_id routine_id request created_at drafted r

confirm_checked : Result RoutineProposal → String → Action Repository RoutineProposal
confirm_checked (err e) proposal_id r = (err e, r)
confirm_checked (ok proposal) proposal_id r = confirm_proposal proposal_id r

unfoldable pub confirm : String → Action Repository RoutineProposal
unfolding confirm_checked
confirm proposal_id r = confirm_checked (get_proposal r proposal_id >>= checked) proposal_id r

-- the `changes` of a revision: new values of the fields that it may change, and the other keys
pub record RoutineChanges : Type 0 where
  pub source_request : Option String
  pub trigger : Option String
  pub source_scope : Option (List String)
  pub context_scope : Option (List String)
  pub tools : Option (List String)
  pub permissions : Option (List String)
  pub delivery : Option String
  pub model_policy : Option String
  pub cost_ceiling : Option ℤ
  pub retry_limit : Option ℤ
  pub delegation_policy : Option String
  pub failure_behavior : Option String
  pub unknown : List String

abbrev pub or_else {ℓ} : {A : Type ℓ} → Option A → A → A
or_else none a = a
or_else (some b) a = b

-- replace(current, **changes, id=…, version=…, created_at=…, status=…, supersedes_proposal_id=…)
unfoldable pub revised : RoutineChanges → String → String → RoutineProposal → ℕ → RoutineProposal
revised changes proposal_id created_at current version = record {
  id = proposal_id;
  routine_id = current.routine_id;
  version = version;
  source_request = or_else changes.source_request current.source_request;
  created_at = created_at;
  trigger = or_else changes.trigger current.trigger;
  source_scope = or_else changes.source_scope current.source_scope;
  context_scope = or_else changes.context_scope current.context_scope;
  tools = or_else changes.tools current.tools;
  permissions = or_else changes.permissions current.permissions;
  delivery = or_else changes.delivery current.delivery;
  model_policy = or_else changes.model_policy current.model_policy;
  cost_ceiling = or_else changes.cost_ceiling current.cost_ceiling;
  retry_limit = or_else changes.retry_limit current.retry_limit;
  delegation_policy = or_else changes.delegation_policy current.delegation_policy;
  failure_behavior = or_else changes.failure_behavior current.failure_behavior;
  status = ProposalStatus.proposed;
  supersedes_proposal_id = some current.id;
}

unfoldable pub revise :
    String → String → String → RoutineChanges → Action Repository RoutineProposal
unfolding revised
revise confirmed_id proposal_id created_at changes r =
    if not (is_empty changes.unknown)
    then (
      err (
          value_error (
            concat "Routine revision contains unsupported fields: "
              (join (sorted changes.unknown)))),
      r,
    )
    else revise_proposal confirmed_id
        (λ current version. checked (revised changes proposal_id created_at current version)) r

unfoldable pub pending_confirmation_ids : Repository → List String
pending_confirmation_ids r =
    map (λ (p : RoutineProposal). p.id)
      (keep (λ (p : RoutineProposal). is_proposed p.status) (Dict.values r.proposals))

abbrev pub unauthorized : RoutineProposal → List RoutineStep → List String
unauthorized proposal steps =
    map (λ (s : RoutineStep). s.action)
      (keep (λ (s : RoutineStep). not (contains proposal.tools s.action)) steps)

-- "model" not in model_policy.casefold()
unfoldable pub allows_model : RoutineProposal → Bool
allows_model p = holds_text (codes "model") (casefold (codes p.model_policy))

-- the checks on a run that is not there yet, and the start
start_checked : RoutineProposal → RoutineRun → Action Repository RoutineRun
unfolding allows_model
start_checked proposal run r =
    if is_empty run.steps
    then (err (value_error "A routine run requires at least one step."), r)
    else if not (is_empty (unauthorized proposal run.steps))
    then (
      err (
          permission_error (
            concat "Routine steps exceed the confirmed tool scope: "
              (join (unauthorized proposal run.steps)))),
      r,
    )
    else if any (λ (s : RoutineStep). is_model s.kind) run.steps && not (allows_model proposal)
    then (err (permission_error "The confirmed routine policy does not allow a model step."), r)
    else start_run run r

start_by_key : RoutineProposal → RoutineRun → Option RoutineRun → Action Repository RoutineRun
unfolding start_checked
start_by_key proposal run (some existing) r = (ok existing, r)
start_by_key proposal run none r = start_checked proposal run r

start_found : Result RoutineProposal → RoutineRun → String → Action Repository RoutineRun
unfolding start_by_key
start_found (err e) run triggered_by r = (err e, r)
start_found (ok proposal) run triggered_by r =
    if not (is_confirmed proposal.status)
    then (err (permission_error "A routine must be confirmed before it can run."), r)
    else if not (str_eq triggered_by proposal.trigger)
    then (err (permission_error "The routine run does not match its confirmed trigger."), r)
    else start_by_key proposal run (find_run_by_key r run.idempotency_key) r

-- RoutineRun(run_id, proposal_id, scheduled_for, idempotency_key, steps)
abbrev pub fresh_run : String → String → String → String → List RoutineStep → RoutineRun
fresh_run run_id proposal_id scheduled_for idempotency_key steps = record {
  id = run_id;
  proposal_id = proposal_id;
  scheduled_for = scheduled_for;
  idempotency_key = idempotency_key;
  steps = steps;
  status = RunStatus.running;
  current_step = 0;
  attempts = 0;
  current_step_attempts = 0;
  results = [];
}

-- RoutineService.start_run
unfoldable pub start_routine :
    String → String → String → String → List RoutineStep → String → Action Repository RoutineRun
unfolding start_found
start_routine run_id proposal_id scheduled_for idempotency_key steps triggered_by r =
    start_found (get_proposal r proposal_id)
      (fresh_run run_id proposal_id scheduled_for idempotency_key steps) triggered_by r

unfoldable pub record_no_run : String → String → String → Repository → Result NoRunReceipt
record_no_run proposal_id evaluated_at reason r = do
  proposal ← get_proposal r proposal_id
  raise_if (is_blank reason) (value_error "A no-run result requires a truthful reason.")
  ok (record {
    proposal_id = proposal_id;
    evaluated_at = evaluated_at;
    reason = strip reason;
    executed = false;
  })
