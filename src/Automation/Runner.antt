-- ===== src/Automation/Runner.antt =====
-- RoutineService.resume_run of automation.py: the steps of a claimed run, their retries and their
-- costs. The executors are outside the source: actions on a state `W` of their own. They do not
-- change the repository, as an executor of another run in between would: that is the claims'
-- matter.
pub mod Held
pub mod Rounds
pub mod Completed
pub mod Resumed
pub mod Receipts
use reckoning.Prelude.{
  ℕ, zero, suc, ◌+◌, ◌-◌, String, Bool, true, false, not, ◌&&◌, ◌||◌, Option, none, some, List, [],
  ◌∷◌, ◌++◌, ℤ, pos, pos_part, ◌+ℤ◌, ltb_ℤ, is_negative, any, ltb, length, drop, concat,
  if◌then◌else◌,
}
use reckoning.Prelude.Result.{
  Result, ok, err, Error, value_error, key_error, permission_error, runtime_error, assertion_error,
  limit_exceeded, quote_exceeded, conflict, authority_revoked, interrupted_error, other_error,
  Action,
}
use reckoning.Automation.Records.{
  RunStatus, StepKind, StepStatus, RoutineProposal, RoutineStep, StepResult, RoutineRun,
  RoutineReceipt, is_model, is_success, is_partial, is_blocked, is_failed,
}
use reckoning.Automation.Repository.{Repository, get_proposal}
use reckoning.Automation.Claims.{
  get_run, get_receipt, claim_run, release_run, save_run_progress, finalize_run,
}

-- StepExecutor; an executor without the method `quote_cost` has `none`
pub record StepExecutor (W : Type 0) : Type 0 where
  pub quote_cost : Option (RoutineStep → Action W ℤ)
  pub execute : RoutineStep → String → Action W StepResult

-- the repository and the state of the executors
pub record Machine (W : Type 0) : Type 0 where
  pub repository : Repository
  pub world : W

-- sum(item.cost_units for item in results)
unfoldable pub total_cost : List StepResult → ℤ
total_cost [] = pos 0
total_cost (x ∷ xs) = x.cost_units +ℤ total_cost xs

-- _aggregate_run_status
unfoldable pub aggregate_run_status : List StepResult → ℕ → StepStatus
aggregate_run_status results total_steps =
    if any (λ (x : StepResult). is_blocked x.status) results
    then StepStatus.blocked
    else if any (λ (x : StepResult). is_failed x.status) results
    then (if any (λ (x : StepResult). is_success x.status) results
        then StepStatus.partial
        else StepStatus.failed)
    else if ltb (length results) total_steps
        || any (λ (x : StepResult). is_partial x.status) results
    then StepStatus.partial
    else StepStatus.success

-- str(error)
abbrev pub message : Error → String
message (value_error text) = text
message (key_error text) = text
message (permission_error text) = text
message (runtime_error text) = text
message (assertion_error text) = text
message (limit_exceeded text) = text
message (quote_exceeded text) = text
message (conflict text) = text
message (authority_revoked text) = text
message (interrupted_error text) = text
message (other_error text) = text

abbrev pub is_interrupted : Error → Bool
is_interrupted (interrupted_error text) = true
is_interrupted _ = false

-- StepResult(status, detail) with its defaults
abbrev pub plain_result : StepStatus → String → StepResult
plain_result status detail = record {
  status = status;
  detail = detail;
  cost_units = pos 0;
  model_calls = pos 0;
}

-- StepResult("failed", "Retry limit exhausted.") where no attempt left a result
abbrev pub exhausted : Option StepResult → StepResult
exhausted none = plain_result StepStatus.failed "Retry limit exhausted."
exhausted (some x) = x

-- the result of an attempt, blocked where it costs more than its quote or the ceiling allow
unfoldable pub charge : ℤ → ℤ → ℤ → StepResult → StepResult
charge quoted total ceiling x =
    if ltb_ℤ quoted x.cost_units || ltb_ℤ ceiling (total +ℤ x.cost_units)
    then record x {
      status = StepStatus.blocked;
      detail = "Routine executor exceeded its preflight cost quote.";
    }
    else x

abbrev pub run_status : StepStatus → RunStatus
run_status StepStatus.success = RunStatus.success
run_status StepStatus.partial = RunStatus.partial
run_status StepStatus.blocked = RunStatus.blocked
run_status StepStatus.failed = RunStatus.failed

-- step_result.status in ("blocked", "failed")
abbrev pub stops : StepStatus → Bool
stops status = is_blocked status || is_failed status

checked_quote : Result ℤ → Result ℤ
checked_quote (err e) = err e
checked_quote (ok quoted) =
    if is_negative quoted
    then err (runtime_error "A routine cost quote must be a non-negative integer.")
    else ok quoted

-- the locals of the loop: the run and the revision under which it is held
pub record Stage : Type 0 where
  pub run : RoutineRun
  pub revision : ℕ

-- what one round of the retry loop comes to: a result that ends it, or a failure that goes round
-- again
pub data Turn : Type 0 where
  settled again : StepResult → Stage → Turn

-- the result of an executor, or the exception that it raised
unfoldable pub conclude : ℤ → ℤ → ℤ → Stage → Result StepResult → Result Turn
unfolding charge
conclude quoted total ceiling s (ok x) = ok (settled (charge quoted total ceiling x) s)
conclude quoted total ceiling s (err e) =
    if is_interrupted e then err e else ok (again (plain_result StepStatus.failed (message e)) s)

-- run = replace(run, attempts=…, current_step_attempts=…)
abbrev pub one_more : RoutineRun → RoutineRun
one_more run = record run {
  attempts = run.attempts + 1;
  current_step_attempts = run.current_step_attempts + 1;
}

-- run = replace(run, current_step=…, current_step_attempts=0, results=…)
abbrev pub advanced : RoutineRun → StepResult → RoutineRun
advanced run x = record run {
  current_step = run.current_step + 1;
  current_step_attempts = 0;
  results = run.results ++ x ∷ [];
}

-- the attempts that the loop has left
abbrev pub rounds_left : RoutineProposal → RoutineRun → ℕ
rounds_left proposal run = pos_part (proposal.retry_limit +ℤ pos 1) - run.current_step_attempts

-- the receipt of a run that has gone through its steps
abbrev pub receipt_of : RoutineRun → String → RoutineReceipt
receipt_of run completed_at = record {
  run_id = run.id;
  proposal_id = run.proposal_id;
  status = aggregate_run_status run.results (length run.steps);
  completed_at = completed_at;
  attempts = run.attempts;
  results = run.results;
  executed = true;
}

-- terminal = replace(run, status=status, results=tuple(results))
abbrev pub terminal : RoutineRun → RoutineRun
terminal run = record run {
  status = run_status (aggregate_run_status run.results (length run.steps));
}

module _ {W : Type 0} where
  quote_by : Option (RoutineStep → Action W ℤ) → RoutineStep → Action W ℤ
  unfolding checked_quote
  quote_by none step w = (
    if is_model step.kind
        then err (runtime_error "A model routine step requires a preflight cost quote.")
        else ok (pos 0),
    w,
  )
  quote_by (some ask) step w = let (answer, w') = ask step w in (checked_quote answer, w')

  -- _quote_step_cost
  unfoldable pub quote_step_cost : StepExecutor W → RoutineStep → Action W ℤ
  unfolding quote_by
  quote_step_cost executor step w = quote_by executor.quote_cost step w

  -- self._repository.save_run_progress on the machine
  abbrev pub saved : RoutineRun → String → ℕ → Action (Machine W) ℕ
  saved run owner revision m =
      let (answer, r) = save_run_progress run owner revision m.repository in
      (answer, record m { repository = r })

module _ {W : Type 0} (proposal : RoutineProposal) (owner : String) where
  launch_saved :
      StepExecutor W → RoutineStep → ℤ → ℤ → RoutineRun → Result ℕ → Action (Machine W) Turn
  unfolding conclude
  launch_saved executor step total quoted run (err e) m = (err e, m)
  launch_saved executor step total quoted run (ok revision) m =
      let (answer, w) =
        executor.execute step (concat run.idempotency_key (concat ":" step.id)) m.world in
      (
        conclude quoted total proposal.cost_ceiling (record { run = run; revision = revision })
            answer,
        record m { world = w },
      )

  launch_quoted : StepExecutor W → RoutineStep → ℤ → Stage → Result ℤ → Action (Machine W) Turn
  unfolding launch_saved
  launch_quoted executor step total s (err e) m = (err e, m)
  launch_quoted executor step total s (ok quoted) m =
      if ltb_ℤ proposal.cost_ceiling (total +ℤ quoted)
      then (
        ok (settled (plain_result StepStatus.blocked "Routine cost ceiling would be exceeded.") s),
        m,
      )
      else let (answer, m') = saved (one_more s.run) owner s.revision m in
        launch_saved executor step total quoted (one_more s.run) answer m'

  -- one round of the retry loop
  unfoldable pub launch :
      Option (StepExecutor W) → RoutineStep → ℤ → Stage → Action (Machine W) Turn
  unfolding launch_quoted
  launch none step total s m =
      (ok (settled (plain_result StepStatus.failed "No model executor is configured.") s), m)
  launch (some executor) step total s m =
      let (quoted, w) = quote_step_cost executor step m.world in
      launch_quoted executor step total s quoted (record m { world = w })

  after_turn :
      (StepResult → Stage → Action (Machine W) (Option StepResult × Stage))
      → Result Turn
      → Action (Machine W) (Option StepResult × Stage)
  after_turn go_on (err e) m = (err e, m)
  after_turn go_on (ok (settled x s)) m = (ok (some x, s), m)
  after_turn go_on (ok (again x s)) m = go_on x s m

  -- `while run.current_step_attempts < max_attempts`, by the attempts that are left
  unfoldable pub try_step :
      Option (StepExecutor W)
      → RoutineStep
      → ℤ
      → ℕ
      → Option StepResult
      → Stage
      → Action (Machine W) (Option StepResult × Stage)
  unfolding after_turn
  try_step executor step total zero last s m = (ok (last, s), m)
  try_step executor step total (suc rounds) last s m =
      let (turn, m') = launch executor step total s m in
      after_turn (λ x s'. try_step executor step total rounds (some x) s') turn m'

  module _ (deterministic_executor : StepExecutor W)
      (model_executor : Option (StepExecutor W)) where
    abbrev pub executor_of : RoutineStep → Option (StepExecutor W)
    executor_of step = if is_model step.kind then model_executor else some deterministic_executor

    -- the step is done: its result stops the run, or the next step follows
    after_saved :
        (ℤ → Stage → Action (Machine W) Stage)
        → ℤ
        → StepResult
        → RoutineRun
        → Result ℕ
        → Action (Machine W) Stage
    after_saved go_on total x run (err e) m = (err e, m)
    after_saved go_on total x run (ok revision) m =
        if stops x.status
        then (ok (record { run = run; revision = revision }), m)
        else go_on (total +ℤ x.cost_units) (record { run = run; revision = revision }) m

    after_step :
        (ℤ → Stage → Action (Machine W) Stage)
        → ℤ
        → Result (Option StepResult × Stage)
        → Action (Machine W) Stage
    unfolding after_saved
    after_step go_on total (err e) m = (err e, m)
    after_step go_on total (ok (last, s)) m =
        let x = exhausted last in
        let (answer, m') = saved (advanced s.run x) owner s.revision m in
        after_saved go_on total x (advanced s.run x) answer m'

    -- the loop over the steps that are left
    unfoldable pub run_steps : List RoutineStep → ℤ → Stage → Action (Machine W) Stage
    unfolding after_step
    run_steps [] total s m = (ok s, m)
    run_steps (step ∷ steps) total s m =
        let (answer, m') =
          try_step (executor_of step) step total (rounds_left proposal s.run) none s m in
        after_step (run_steps steps) total answer m'

module _ {W : Type 0} (owner completed_at : String) where
  finished : RoutineReceipt → Result ℕ → Action (Machine W) RoutineReceipt
  finished receipt (err e) m = (err e, m)
  finished receipt (ok revision) m = (ok receipt, m)

  finish : Result Stage → Action (Machine W) RoutineReceipt
  unfolding finished
  finish (err e) m = (err e, m)
  finish (ok s) m =
      let (answer, r) =
        finalize_run (terminal s.run) (receipt_of s.run completed_at) owner s.revision
          m.repository in
      finished (receipt_of s.run completed_at) answer (record m { repository = r })

  -- except BaseException: self._repository.release_run(run_id, owner); raise
  released : String → Result RoutineReceipt → Action (Machine W) RoutineReceipt
  released run_id (ok receipt) m = (ok receipt, m)
  released run_id (err e) m =
      (err e, record m { repository = release_run run_id owner m.repository })

  module _ (deterministic_executor : StepExecutor W)
      (model_executor : Option (StepExecutor W)) where
    execute_proposal : RoutineRun → ℕ → Result RoutineProposal → Action (Machine W) RoutineReceipt
    unfolding finish
    execute_proposal run revision (err e) m = (err e, m)
    execute_proposal run revision (ok proposal) m =
        let (answer, m') =
          run_steps proposal owner deterministic_executor model_executor
            (drop run.current_step run.steps) (total_cost run.results)
            (record { run = run; revision = revision }) m in
        finish answer m'

    execute_run : ℕ → Result RoutineRun → Action (Machine W) RoutineReceipt
    unfolding execute_proposal
    execute_run revision (err e) m = (err e, m)
    execute_run revision (ok run) m =
        execute_proposal run revision (get_proposal m.repository run.proposal_id) m

    resume_claimed : String → Result ℕ → Action (Machine W) RoutineReceipt
    unfolding execute_run released
    resume_claimed run_id (err e) m = (err e, m)
    resume_claimed run_id (ok revision) m =
        let (answer, m') = execute_run revision (get_run m.repository run_id) m in
        released run_id answer m'

    resume_new : String → Option RoutineReceipt → Action (Machine W) RoutineReceipt
    unfolding resume_claimed
    resume_new run_id (some existing) m = (ok existing, m)
    resume_new run_id none m =
        let (claimed, r) = claim_run run_id owner m.repository in
        resume_claimed run_id claimed (record m { repository = r })

    -- RoutineService.resume_run, with the owner that `worker or _run_owner()` names
    unfoldable pub resume_run : String → Action (Machine W) RoutineReceipt
    unfolding resume_new
    resume_run run_id m = resume_new run_id (get_receipt m.repository run_id) m
