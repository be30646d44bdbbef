-- ===== src/Automation/Runner/Rounds.antt =====
-- The retry loop of one step: each round keeps the claim and the limits.
use reckoning.Prelude.{
  ℕ, zero, suc, ◌+◌, ◌≤◌, ◌≡◌, refl, subst, String, false, Option, none, some, ℤ, ◌+ℤ◌, ltb_ℤ,
  arith, concat, Bool-cases, inl, inr,
}
use reckoning.Prelude.Result.{Result, ok, err, Error, Result-cases, Action}
use reckoning.Prelude.Outcome.{Ends, Ends-then}
use reckoning.Automation.Records.{StepStatus, RoutineProposal, RoutineStep, StepResult, RoutineRun}
use reckoning.Automation.Claims.{save_run_progress}
use reckoning.Automation.Runner.{
  StepExecutor, Machine, Stage, Turn, settled, again, is_interrupted, exhausted, conclude, one_more,
  message, quote_step_cost, launch, launch_saved, launch_quoted, after_turn, try_step,
}
use reckoning.Automation.Claims.Holding.{Held, save_run_progress-Held}
use reckoning.Automation.Runner.Held.{
  max_attempts, charge-Charged, plain-Charged, SameRun, one_more-InLimits, IsReliable, Reliable,
  Going, Broken, Fits, Turned,
}

module _ {W : Type 0} (proposal : RoutineProposal) (owner : String) where
  -- an exception at a stage of the run
  break_at :
      (executor : Option (StepExecutor W)) (run : RoutineRun) (s : Stage) (m : Machine W)
      (e : Error)
      → Held s.run.id owner s.revision m.repository
      → SameRun run s.run
      → (Reliable executor → ⊥)
      → Broken proposal owner executor run e m
  break_at executor run s m e h same unreliable =
      ((s.revision, subst (λ i. Held i owner s.revision m.repository) same.id h), unreliable)

  module _ (executor : StepExecutor W) (run : RoutineRun) (step : RoutineStep) (rounds : ℕ) where
    conclude-Turned :
        (quoted total : ℤ) (s : Stage) (m : Machine W) (x : Result StepResult)
        → Going proposal owner s m
        → SameRun run s.run
        → s.run.current_step_attempts + rounds ≤ max_attempts proposal
        → ((e : Error) → IsReliable executor → x ≡ err e → is_interrupted e ≡ false)
        → Ends
            (Turned proposal owner (some executor) run total rounds)
            (Broken proposal owner (some executor) run)
            (conclude quoted total proposal.cost_ceiling s x, m)
    unfolding conclude
    conclude-Turned quoted total s m (ok x) g same l k =
        (g, same, charge-Charged quoted total proposal.cost_ceiling x)
    conclude-Turned quoted total s m (err e) g same l k = elim (Bool-cases (is_interrupted e)) [
      | inl stopped ↦ rw stopped (
          break_at (some executor) run s m e g.held same
            (λ reliable. ground (arith, k e reliable refl)))
      | inr caught ↦
          rw caught
            ((g, same, plain-Charged proposal.cost_ceiling total StepStatus.failed (message e)), l)
    ]

    launch_saved-Turned :
        (total quoted : ℤ) (run' : RoutineRun) (revision : ℕ) (m : Machine W)
        → Going proposal owner (record { run = run'; revision = revision }) m
        → SameRun run run'
        → run'.current_step_attempts + rounds ≤ max_attempts proposal
        → Ends
            (Turned proposal owner (some executor) run total rounds)
            (Broken proposal owner (some executor) run)
            (launch_saved proposal owner executor step total quoted run' (ok revision) m)
    unfolding launch_saved
    launch_saved-Turned total quoted run' revision m g same l =
        let key = concat run'.idempotency_key (concat ":" step.id) in
        let (answer, w) = executor.execute step key m.world in
        conclude-Turned quoted total (record { run = run'; revision = revision })
          (record m { world = w }) answer (record { held = g.held; in_limits = g.in_limits }) same l
          (λ e reliable raised. reliable.goes_on step key m.world e raised)

    launch_quoted-Turned :
        (total quoted : ℤ) (s : Stage) (m : Machine W)
        → Going proposal owner s m
        → SameRun run s.run
        → s.run.current_step_attempts + suc rounds ≤ max_attempts proposal
        → Ends
            (Turned proposal owner (some executor) run total rounds)
            (Broken proposal owner (some executor) run)
            (launch_quoted proposal owner executor step total s (ok quoted) m)
    unfolding launch_quoted
    launch_quoted-Turned total quoted s m g same l =
        elim (Bool-cases (ltb_ℤ proposal.cost_ceiling (total +ℤ quoted))) [
          | inl over ↦ rw over (
            g,
            same,
            plain-Charged proposal.cost_ceiling total StepStatus.blocked
                "Routine cost ceiling would be exceeded.",
          )
          | inr within ↦
              let run' = one_more s.run in
              let (answer, r) = save_run_progress run' owner s.revision m.repository in
              let (is_ok, held) =
                save_run_progress-Held run' owner s.revision m.repository g.held in
              rw within (
                rw is_ok (
                  launch_saved-Turned total quoted run' (s.revision + 1)
                    (record m { repository = r })
                    (record {
                      held = held;
                      in_limits = one_more-InLimits proposal s.run g.in_limits (omega arith);
                    })
                    (record {
                      id = same.id;
                      proposal_id = same.proposal_id;
                      steps = same.steps;
                      current_step = same.current_step;
                      results = same.results;
                    })
                    (omega arith)))
        ]

  module _ (run : RoutineRun) (step : RoutineStep) (total : ℤ) where
    launch-Turned :
        (executor : Option (StepExecutor W)) (rounds : ℕ) (s : Stage) (m : Machine W)
        → Going proposal owner s m
        → SameRun run s.run
        → s.run.current_step_attempts + suc rounds ≤ max_attempts proposal
        → Ends
            (Turned proposal owner executor run total rounds)
            (Broken proposal owner executor run)
            (launch proposal owner executor step total s m)
    unfolding launch launch_quoted
    launch-Turned none rounds s m g same l = (
      g,
      same,
      plain-Charged proposal.cost_ceiling total StepStatus.failed
          "No model executor is configured.",
    )
    launch-Turned (some executor) rounds s m g same l =
        let (answer, w) = quote_step_cost executor step m.world in
        let m' : Machine W = record m { world = w } in
        let g' : Going proposal owner s m' = record { held = g.held; in_limits = g.in_limits } in
        elim (Result-cases answer) [
          | inl (quoted, quotes) ↦
              rw quotes (launch_quoted-Turned executor run step rounds total quoted s m' g' same l)
          | inr (e, raises) ↦ rw raises (
              break_at (some executor) run s m' e g.held same
                (λ reliable. absurd (ground (arith, reliable.quotes step m.world))))
        ]

    -- how the retry loop ends: with a result, or with none where no attempt was left
    abbrev pub Tried : Option (StepExecutor W) → Option StepResult × Stage → Machine W → Type 0
    Tried executor (last, s) m = Fits proposal owner executor run total (exhausted last) s m

    after_turn-Tried :
        (executor : Option (StepExecutor W)) (rounds : ℕ)
        (go_on : StepResult → Stage → Action (Machine W) (Option StepResult × Stage))
        → ((x : StepResult) (s : Stage) (m : Machine W)
            → Fits proposal owner executor run total x s m
            → s.run.current_step_attempts + rounds ≤ max_attempts proposal
            → Ends (Tried executor) (Broken proposal owner executor run) (go_on x s m))
        → (turn : Turn) (m : Machine W) → Turned proposal owner executor run total rounds turn m
        → Ends
            (Tried executor)
            (Broken proposal owner executor run)
            (after_turn proposal owner go_on (ok turn) m)
    unfolding after_turn
    after_turn-Tried executor rounds go_on rest (settled x s) m t = t
    after_turn-Tried executor rounds go_on rest (again x s) m (f, l) = rest x s m f l

    pub try_step-Tried :
        (executor : Option (StepExecutor W)) (rounds : ℕ) (last : Option StepResult) (s : Stage)
        (m : Machine W)
        → Fits proposal owner executor run total (exhausted last) s m
        → s.run.current_step_attempts + rounds ≤ max_attempts proposal
        → Ends
            (Tried executor)
            (Broken proposal owner executor run)
            (try_step proposal owner executor step total rounds last s m)
    unfolding try_step after_turn
    try_step-Tried executor zero last s m f l = f
    try_step-Tried executor (suc rounds) last s m f l =
        Ends-then (Turned proposal owner executor run total rounds) (Tried executor)
          (Broken proposal owner executor run) (Broken proposal owner executor run)
          (after_turn proposal owner
            (λ x s'. try_step proposal owner executor step total rounds (some x) s'))
          (launch proposal owner executor step total s m)
          (launch-Turned executor rounds s m f.0 f.1 l)
          (after_turn-Tried executor rounds
            (λ x s'. try_step proposal owner executor step total rounds (some x) s')
            (λ x s' m' f' l'. try_step-Tried executor rounds (some x) s' m' f' l'))
          (λ e m' b. b)
