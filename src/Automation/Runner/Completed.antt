-- ===== src/Automation/Runner/Completed.antt =====
-- The loop over the steps, and the run as a whole: what its receipt says of limits and results.
use reckoning.Prelude.{
  ℕ, suc, ◌+◌, ◌≡◌, refl, ap, sym, ◌∙◌, subst, String, true, false, Option, none, some, List, [],
  ◌∷◌, ◌++◌, ℤ, ◌+ℤ◌, arith, length, Bool-cases, inl, inr,
}
use reckoning.Prelude.Result.{ok, Error, Action}
use reckoning.Prelude.Outcome.{Ends, Ends-then}
use reckoning.Automation.Records.{
  StepStatus, RoutineProposal, RoutineStep, StepResult, RoutineRun, is_model,
}
use reckoning.Automation.Claims.{save_run_progress}
use reckoning.Automation.Runner.{
  StepExecutor, Machine, Stage, total_cost, exhausted, stops, advanced, try_step, executor_of,
  rounds_left, run_steps, after_step, after_saved,
}
use reckoning.Automation.Claims.Holding.{Held, save_run_progress-Held}
use reckoning.Automation.Runner.Held.{
  any_stop, any-snoc, total_cost-append_one, advanced-InLimits, Charged, plain-Charged, SameRun,
  Reliable, Going, Broken,
}
use reckoning.Automation.Runner.Rounds.{Tried, try_step-Tried}

-- every step has a result and none stops the run, or a result stops it: the last, after results
-- that did not
pub data Ran (results : List StepResult) (steps : ℕ) : Type 0 where
  all_done : any_stop results ≡ false → length results ≡ steps → Ran results steps
  stopped :
      (before : List StepResult) (last : StepResult)
      → results ≡ before ++ last ∷ []
      → any_stop before ≡ false
      → stops last.status ≡ true
      → Ran results steps

pub record SameCore (run run' : RoutineRun) : Type 0 where
  pub id : run'.id ≡ run.id
  pub proposal_id : run'.proposal_id ≡ run.proposal_id
  pub steps : run'.steps ≡ run.steps

SameCore-step :
    (run run' run'' : RoutineRun) → SameCore run run' → SameRun run' run'' → SameCore run run''
SameCore-step run run' run'' c same = record {
  id = same.id ∙ c.id;
  proposal_id = same.proposal_id ∙ c.proposal_id;
  steps = same.steps ∙ c.steps;
}

module _ {W : Type 0} (proposal : RoutineProposal) (owner : String)
    (deterministic_executor : StepExecutor W) (model_executor : Option (StepExecutor W)) where
  -- an exception comes of an executor that is not reliable, and finds the run held
  abbrev pub Interrupted : RoutineRun → Error → Machine W → Type 0
  Interrupted run e m =
      ((revision : ℕ) × Held run.id owner revision m.repository)
      × ((Reliable (some deterministic_executor) × Reliable model_executor) → ⊥)

  -- the run after its steps: the same run, within its limits, at its end
  pub record Through (run : RoutineRun) (s : Stage) (m : Machine W) : Type 0 where
    pub going : Going proposal owner s m
    pub core : SameCore run s.run
    pub no_attempts : s.run.current_step_attempts ≡ 0
    pub ran : Ran s.run.results (length run.steps)

  executor_of-Reliable :
      (step : RoutineStep)
      → Reliable (some deterministic_executor) × Reliable model_executor
      → Reliable (executor_of proposal owner deterministic_executor model_executor step)
  executor_of-Reliable step r = elim (Bool-cases (is_model step.kind)) [
    | inl model ↦ rw model r.1
    | inr deterministic ↦ rw deterministic r.0
  ]

  -- what holds where a step of the run begins, with `rest` left to do
  pub record Ready (run : RoutineRun) (rest : List RoutineStep) (total : ℤ) (s : Stage)
      (m : Machine W) : Type 0 where
    pub going : Going proposal owner s m
    pub core : SameCore run s.run
    pub none_stops : any_stop s.run.results ≡ false
    pub left : s.run.current_step + length rest ≡ length run.steps
    pub totals : total ≡ total_cost s.run.results
    pub no_attempts : length rest ≡ 0 → s.run.current_step_attempts ≡ 0

  module _ (run : RoutineRun) (step : RoutineStep) (rest : List RoutineStep)
      (go_on : ℤ → Stage → Action (Machine W) Stage)
      (goes_on : (total : ℤ) (s : Stage) (m : Machine W)
        → Ready run rest total s m
        → Ends (Through run) (Interrupted run) (go_on total s m)) where
    after_saved-Through :
        (total : ℤ) (x : StepResult) (run' : RoutineRun) (revision : ℕ) (m : Machine W)
        → Going proposal owner (record { run = advanced run' x; revision = revision }) m
        → SameCore run run'
        → any_stop run'.results ≡ false
        → run'.current_step + suc (length rest) ≡ length run.steps
        → total ≡ total_cost run'.results
        → Ends (Through run) (Interrupted run) (
            after_saved proposal owner deterministic_executor model_executor go_on total x
              (advanced run' x)
              (ok revision)
              m)
    unfolding after_saved
    after_saved-Through total x run' revision m g core none_stops left totals =
        let core' : SameCore run (advanced run' x) = record {
          id = core.id;
          proposal_id = core.proposal_id;
          steps = core.steps;
        } in
        elim (Bool-cases (stops x.status)) [
          | inl stop ↦ rw stop (record {
            going = g;
            core = core';
            no_attempts = refl;
            ran = stopped run'.results x refl none_stops stop;
          })
          | inr next ↦ rw next (
              goes_on (total +ℤ x.cost_units)
                (record { run = advanced run' x; revision = revision }) m
                (record {
                  going = g;
                  core = core';
                  none_stops =
                      ground (arith, any-snoc (λ (y : StepResult). stops y.status) run'.results x);
                  left = omega arith;
                  totals =
                      ap (λ t. t +ℤ x.cost_units) totals ∙ total_cost-append_one run'.results x;
                  no_attempts = λ z. refl;
                }))
        ]

    after_step-Through :
        (total : ℤ) (last : Option StepResult) (s s' : Stage) (m m' : Machine W)
        → Ready run (step ∷ rest) total s m
        → Going proposal owner s' m'
        → SameRun s.run s'.run
        → Charged proposal.cost_ceiling total (exhausted last)
        → Ends (Through run) (Interrupted run) (
            after_step proposal owner deterministic_executor model_executor go_on total
              (ok (last, s'))
              m')
    unfolding after_step
    after_step-Through total last s s' m m' ready g same charged =
        let x = exhausted last in
        let run' = advanced s'.run x in
        let (answer, r) = save_run_progress run' owner s'.revision m'.repository in
        let (is_ok, held) = save_run_progress-Held run' owner s'.revision m'.repository g.held in
        let totals : total ≡ total_cost s'.run.results =
          ready.totals ∙ ap total_cost (sym same.results) in
        rw is_ok (
          after_saved-Through total x s'.run (s'.revision + 1) (record m' { repository = r })
            (record {
              held = held;
              in_limits =
                  advanced-InLimits proposal s'.run x g.in_limits
                    (subst (λ t. Charged proposal.cost_ceiling t x) totals charged);
            })
            (SameCore-step run s.run s'.run ready.core same)
            (ap any_stop same.results ∙ ready.none_stops)
            (ap (λ n. n + suc (length rest)) same.current_step ∙ ready.left) totals)

  Broken→Interrupted :
      (run : RoutineRun) (s : Stage) (step : RoutineStep) (e : Error) (m : Machine W)
      → SameCore run s.run
      → Broken proposal owner
          (executor_of proposal owner deterministic_executor model_executor step)
          s.run
          e
          m
      → Interrupted run e m
  Broken→Interrupted run s step e m core ((revision, held), unreliable) = (
    (revision, subst (λ i. Held i owner revision m.repository) core.id held),
    λ reliable. unreliable (executor_of-Reliable step reliable),
  )

  pub run_steps-Through :
      (run : RoutineRun) (rest : List RoutineStep) (total : ℤ) (s : Stage) (m : Machine W)
      → Ready run rest total s m
      → Ends
          (Through run)
          (Interrupted run)
          (run_steps proposal owner deterministic_executor model_executor rest total s m)
  unfolding run_steps after_step
  run_steps-Through run [] total s m ready = record {
    going = ready.going;
    core = ready.core;
    no_attempts = ready.no_attempts refl;
    ran = all_done ready.none_stops (omega (arith, ready.going.in_limits.counted, ready.left));
  }
  run_steps-Through run (step ∷ rest) total s m ready =
      let executor = executor_of proposal owner deterministic_executor model_executor step in
      let go_on = run_steps proposal owner deterministic_executor model_executor rest in
      Ends-then (Tried proposal owner s.run step total executor) (Through run)
        (Broken proposal owner executor s.run) (Interrupted run)
        (after_step proposal owner deterministic_executor model_executor go_on total)
        (try_step proposal owner executor step total (rounds_left proposal s.run) none s m)
        (try_step-Tried proposal owner s.run step total executor (rounds_left proposal s.run) none s
          m
          (
            ready.going,
            record {
              id = refl;
              proposal_id = refl;
              steps = refl;
              current_step = refl;
              results = refl;
            },
            plain-Charged proposal.cost_ceiling total StepStatus.failed "Retry limit exhausted.",
          )
          (omega (arith, ready.going.in_limits.current)))
        (λ last m' tried.
          after_step-Through run step rest go_on
            (λ total' s' m'' r. run_steps-Through run rest total' s' m'' r) total last.0 s last.1 m
            m' ready tried.0 tried.1 tried.2)
        (λ e m' broken. Broken→Interrupted run s step e m' ready.core broken)
