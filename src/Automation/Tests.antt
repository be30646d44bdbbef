-- ===== src/Automation/Tests.antt =====
-- A routine at work: the theorems at concrete inputs, and runs of the definitions.
mod Proposals
mod Reports
use reckoning.Prelude.{
  ℕ, zero, suc, ◌+◌, ◌≢◌, ◌⊎◌, inl, inr, ◌≤◌, String, Bool, true, false, Option, none, some, List,
  [], ◌∷◌, ℤ, pos, ◌==◌, ◌↔◌, All, length, if◌then◌else◌,
}
use reckoning.Prelude.Dict
use reckoning.Prelude.Result.{Result, ok, err, other_error, interrupted_error}
use reckoning.Automation.Records.{
  ProposalStatus, RunStatus, StepKind, StepStatus, RoutineProposal, RoutineStep, StepResult,
  RoutineRun, RoutineReceipt,
}
use reckoning.Automation.Repository.{Repository, RunClaim, ClaimState, unclaimed, active, finalized}
use reckoning.Automation.Claims.{recover_run}
use reckoning.Automation.Service.{fresh_run}
use reckoning.Automation.Runner.{StepExecutor, Machine, is_interrupted}
use reckoning.Automation.Runner.Held.{InLimits, Reliable}
use reckoning.Automation.Runner.Receipts.{aggregate_run_status-success}

abbrev proposal : RoutineProposal
proposal = record {
  id = "p1";
  routine_id = "mail";
  version = 1;
  source_request = "Sum up my mail each day";
  created_at = "2026-01-01";
  trigger = "daily";
  source_scope = "inbox" ∷ [];
  context_scope = [];
  tools = "read" ∷ "sum" ∷ [];
  permissions = [];
  delivery = "chat";
  model_policy = "a small model";
  cost_ceiling = pos 9;
  retry_limit = pos 1;
  delegation_policy = "none";
  failure_behavior = "say so";
  status = ProposalStatus.confirmed;
  supersedes_proposal_id = none;
}

abbrev steps : List RoutineStep
steps =
    record { id = "s1"; kind = StepKind.deterministic; action = "read" }
    ∷ record { id = "s2"; kind = StepKind.model; action = "sum" }
    ∷ []

abbrev run : RoutineRun
run = fresh_run "r1" "p1" "2026-01-02" "mail:1" steps

abbrev repository : Repository
repository = record {
  proposals = ("p1", proposal) ∷ [];
  runs = ("r1", run) ∷ [];
  receipts = [];
  claims = ("r1", record { owner = none; state = unclaimed; revision = 1 }) ∷ [];
}

abbrev done : ℤ → StepResult
done cost = record {
  status = StepStatus.success;
  detail = "done";
  cost_units = cost;
  model_calls = pos 0;
}

-- fails on its first attempt, and counts its attempts
abbrev flaky_answer : ℕ → Result StepResult
flaky_answer zero = err (other_error "no network")
flaky_answer (suc n) = ok (done (pos 2))

abbrev flaky : StepExecutor ℕ
flaky = record {
  quote_cost = some (λ step w. (ok (pos 3), w));
  execute = λ step key w. (flaky_answer w, w + 1);
}

-- is interrupted at once
abbrev cut_off : StepExecutor ℕ
cut_off = record {
  quote_cost = none;
  execute = λ step key w. (err (interrupted_error "stop"), w + 1);
}

abbrev machine : Machine ℕ
machine = record { repository = repository; world = 0 }

abbrev interrupts : Result StepResult → Bool
interrupts (ok x) = false
interrupts (err e) = is_interrupted e

abbrev receipt : RoutineReceipt
receipt = record {
  run_id = "r1";
  proposal_id = "p1";
  status = StepStatus.success;
  completed_at = "now";
  attempts = 3;
  results = done (pos 2) ∷ done (pos 2) ∷ [];
  executed = true;
}
