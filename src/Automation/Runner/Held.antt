-- ===== src/Automation/Runner/Held.antt =====
-- What the loops of a run keep: the claim of the worker, the steps and the costs of the run.
use reckoning.Prelude.{
  ℕ, zero, suc, ◌+◌, ◌≤◌, ◌≡◌, ap, String, Bool, true, false, Option, none, some, List, [], ◌∷◌,
  ◌++◌, ℤ, pos, ◌≤ℤ◌, ◌+ℤ◌, +ℤ_parts, ≤ℤ-antisym, pos_part, arith, any, length, length-append,
  if◌then◌else◌,
}
use reckoning.Prelude.Result.{ok, err, Error}
use reckoning.Automation.Records.{
  StepStatus, RoutineProposal, RoutineStep, StepResult, RoutineRun, is_blocked,
}
use reckoning.Automation.Claims.Holding.{Held}
use reckoning.Automation.Runner.{
  StepExecutor, Machine, Stage, Turn, settled, again, total_cost, is_interrupted, plain_result,
  charge, stops, one_more, advanced, quote_step_cost,
}

-- `n` attempts for each of some steps
abbrev pub allowance : ℕ → ℕ → ℕ
allowance zero n = 0
allowance (suc steps) n = allowance steps n + n

allowance-suc : (k n : ℕ) → allowance (k + 1) n ≡ allowance k n + n
allowance-suc k n = let next : k + 1 ≡ suc k = omega arith in ap (λ j. allowance j n) next

-- max_attempts
abbrev pub max_attempts : RoutineProposal → ℕ
max_attempts proposal = pos_part (proposal.retry_limit +ℤ pos 1)

abbrev pub any_blocked : List StepResult → Bool
any_blocked results = any (λ (x : StepResult). is_blocked x.status) results

abbrev pub any_stop : List StepResult → Bool
any_stop results = any (λ (x : StepResult). stops x.status) results

-- the results of a run against its steps and the limits of its proposal
pub record InLimits (proposal : RoutineProposal) (run : RoutineRun) : Type 0 where
  pub counted : length run.results ≡ run.current_step
  pub costed : any_blocked run.results ≡ false → total_cost run.results ≤ℤ proposal.cost_ceiling
  pub attempted :
      run.attempts ≤ allowance run.current_step (max_attempts proposal) + run.current_step_attempts
  pub current : run.current_step_attempts ≤ max_attempts proposal

-- a cost that a step may add
abbrev pub Charged : ℤ → ℤ → StepResult → Type 0
Charged ceiling total x =
    is_blocked x.status ≡ false → total ≤ℤ ceiling → total +ℤ x.cost_units ≤ℤ ceiling

pub charge-Charged :
    (quoted total ceiling : ℤ) (x : StepResult)
    → Charged ceiling total (charge quoted total ceiling x)
unfolding charge
charge-Charged quoted total ceiling x b h = ground arith

pub plain-Charged :
    (ceiling total : ℤ) (status : StepStatus) (text : String)
    → Charged ceiling total (plain_result status text)
plain-Charged ceiling total status text b h = grind (arith, +ℤ_parts)

pub any-snoc :
    (p : StepResult → Bool) (xs : List StepResult) (x : StepResult)
    → any p (xs ++ x ∷ []) ≡ (if any p xs then true else p x)
any-snoc p [] x = ground arith
any-snoc p (y ∷ xs) x = ground (arith, any-snoc p xs x)

total_cost-snoc :
    (xs : List StepResult) (x : StepResult)
    → (total_cost (xs ++ x ∷ []) ≤ℤ total_cost xs +ℤ x.cost_units)
      × (total_cost xs +ℤ x.cost_units ≤ℤ total_cost (xs ++ x ∷ []))
unfolding total_cost
total_cost-snoc [] x = grind (arith, +ℤ_parts)
total_cost-snoc (y ∷ xs) x = grind (arith, +ℤ_parts, total_cost-snoc xs x)

pub total_cost-append_one :
    (xs : List StepResult) (x : StepResult)
    → total_cost xs +ℤ x.cost_units ≡ total_cost (xs ++ x ∷ [])
total_cost-append_one xs x =
    let (upper, lower) = total_cost-snoc xs x in
    ≤ℤ-antisym (total_cost xs +ℤ x.cost_units) (total_cost (xs ++ x ∷ [])) lower upper

pub advanced-InLimits :
    (proposal : RoutineProposal) (run : RoutineRun) (x : StepResult)
    → InLimits proposal run
    → Charged proposal.cost_ceiling (total_cost run.results) x
    → InLimits proposal (advanced run x)
advanced-InLimits proposal run x h c = record {
  counted = omega (arith, length-append run.results (x ∷ []), h.counted);
  costed = λ b. ground (
    arith,
    any-snoc (λ (y : StepResult). is_blocked y.status) run.results x,
    h.costed,
    c,
    total_cost-snoc run.results x,
  );
  attempted =
      omega (arith, h.attempted, h.current, allowance-suc run.current_step (max_attempts proposal));
  current = omega arith;
}

-- the run is the one that a step began with, save for the attempts
pub record SameRun (run run' : RoutineRun) : Type 0 where
  pub id : run'.id ≡ run.id
  pub proposal_id : run'.proposal_id ≡ run.proposal_id
  pub steps : run'.steps ≡ run.steps
  pub current_step : run'.current_step ≡ run.current_step
  pub results : run'.results ≡ run.results

pub one_more-InLimits :
    (proposal : RoutineProposal) (run : RoutineRun)
    → InLimits proposal run
    → run.current_step_attempts + 1 ≤ max_attempts proposal
    → InLimits proposal (one_more run)
one_more-InLimits proposal run h l = record {
  counted = h.counted;
  costed = h.costed;
  attempted = omega (arith, h.attempted);
  current = l;
}

-- the executor answers each quote, and lets no InterruptedError through
pub record IsReliable {W : Type 0} (executor : StepExecutor W) : Type 0 where
  pub quotes :
      (step : RoutineStep) (w : W)
      → (quoted : ℤ) × ((quote_step_cost executor step w).0 ≡ ok quoted)
  pub goes_on :
      (step : RoutineStep) (key : String) (w : W) (e : Error)
      → (executor.execute step key w).0 ≡ err e
      → is_interrupted e ≡ false

abbrev pub Reliable : {W : Type 0} → Option (StepExecutor W) → Type 0
Reliable none = Unit
Reliable (some executor) = IsReliable executor

module _ {W : Type 0} (proposal : RoutineProposal) (owner : String) where
  -- the locals of a loop between two of its rounds
  pub record Going (s : Stage) (m : Machine W) : Type 0 where
    pub held : Held s.run.id owner s.revision m.repository
    pub in_limits : InLimits proposal s.run

  module _ (executor : Option (StepExecutor W)) (run : RoutineRun) where
    -- an exception comes of an executor that is not reliable, and finds the run held
    abbrev pub Broken : Error → Machine W → Type 0
    Broken e m =
        ((revision : ℕ) × Held run.id owner revision m.repository) × (Reliable executor → ⊥)

    -- a result of a step of the run
    abbrev pub Fits : ℤ → StepResult → Stage → Machine W → Type 0
    Fits total x s m = Going s m × SameRun run s.run × Charged proposal.cost_ceiling total x

    -- how a round ends that leaves `rounds` more
    abbrev pub Turned : ℤ → ℕ → Turn → Machine W → Type 0
    Turned total rounds (settled x s) m = Fits total x s m
    Turned total rounds (again x s) m =
        Fits total x s m × (s.run.current_step_attempts + rounds ≤ max_attempts proposal)
