-- ===== src/Automation/Records.antt =====
-- automation.py: the dataclasses of routines, their runs and their receipts. An instant is a text
-- that nothing compares. Limits and costs are signed, as the code tests their sign.
use reckoning.Prelude.{ℕ, String, Bool, true, false, Option, List, ℤ}

-- RoutineProposalStatus
pub data ProposalStatus : Type 0 where
  proposed confirmed superseded : ProposalStatus

-- RoutineRunStatus
pub data RunStatus : Type 0 where
  running success partial blocked failed : RunStatus

pub data StepKind : Type 0 where
  deterministic model : StepKind

-- StepStatus, and the status of a receipt
pub data StepStatus : Type 0 where
  success partial blocked failed : StepStatus

pub record RoutineProposal : Type 0 where
  pub id : String
  pub routine_id : String
  pub version : ℕ
  pub source_request : String
  pub created_at : String
  pub trigger : String
  pub source_scope : List String
  pub context_scope : List String
  pub tools : List String
  pub permissions : List String
  pub delivery : String
  pub model_policy : String
  pub cost_ceiling : ℤ
  pub retry_limit : ℤ
  pub delegation_policy : String
  pub failure_behavior : String
  pub status : ProposalStatus
  pub supersedes_proposal_id : Option String

pub record RoutineContractDraft : Type 0 where
  pub trigger : String
  pub source_scope : List String
  pub context_scope : List String
  pub tools : List String
  pub permissions : List String
  pub delivery : String
  pub model_policy : String
  pub cost_ceiling : ℤ
  pub retry_limit : ℤ
  pub delegation_policy : String
  pub failure_behavior : String

pub record RoutineStep : Type 0 where
  pub id : String
  pub kind : StepKind
  pub action : String

pub record StepResult : Type 0 where
  pub status : StepStatus
  pub detail : String
  pub cost_units : ℤ
  pub model_calls : ℤ

pub record RoutineRun : Type 0 where
  pub id : String
  pub proposal_id : String
  pub scheduled_for : String
  pub idempotency_key : String
  pub steps : List RoutineStep
  pub status : RunStatus
  pub current_step : ℕ
  pub attempts : ℕ
  pub current_step_attempts : ℕ
  pub results : List StepResult

pub record RoutineReceipt : Type 0 where
  pub run_id : String
  pub proposal_id : String
  pub status : StepStatus
  pub completed_at : String
  pub attempts : ℕ
  pub results : List StepResult
  pub executed : Bool

pub record NoRunReceipt : Type 0 where
  pub proposal_id : String
  pub evaluated_at : String
  pub reason : String
  pub executed : Bool

abbrev pub is_confirmed : ProposalStatus → Bool
is_confirmed ProposalStatus.confirmed = true
is_confirmed _ = false

abbrev pub is_proposed : ProposalStatus → Bool
is_proposed ProposalStatus.proposed = true
is_proposed _ = false

abbrev pub is_model : StepKind → Bool
is_model StepKind.model = true
is_model StepKind.deterministic = false

abbrev pub is_success : StepStatus → Bool
is_success StepStatus.success = true
is_success _ = false

abbrev pub is_partial : StepStatus → Bool
is_partial StepStatus.partial = true
is_partial _ = false

abbrev pub is_blocked : StepStatus → Bool
is_blocked StepStatus.blocked = true
is_blocked _ = false

abbrev pub is_failed : StepStatus → Bool
is_failed StepStatus.failed = true
is_failed _ = false
