-- ===== src/Automation/Runner/Resumed.antt =====
-- RoutineService.resume_run as a whole: what a call returns, and what it leaves where it raises.
use reckoning.Prelude.{
  ℕ, zero, suc, ◌+◌, ◌≤◌, ◌≡◌, refl, ap, subst, String, false, Option, none, some, List, [], ◌∷◌,
  ◌≤ℤ◌, arith, length, drop, inl, inr,
}
use reckoning.Prelude.Dict
use reckoning.Prelude.Result.{Result, ok, err, Error}
use reckoning.Prelude.Outcome.{Ends, Ends-then}
use reckoning.Automation.Records.{RoutineProposal, RoutineStep, RoutineRun, RoutineReceipt}
use reckoning.Automation.Repository.{Repository, active, unclaimed, finalized, get_proposal}
use reckoning.Automation.Claims.{get_run, get_receipt, claim_run, finalize_run}
use reckoning.Automation.Runner.{
  StepExecutor, Machine, Stage, total_cost, aggregate_run_status, terminal, receipt_of, finish,
  finished, released, run_steps, execute_proposal, execute_run, resume_claimed, resume_new,
  resume_run,
}
use reckoning.Automation.Claims.Holding.{Held, claim_run_cases, finalize_run-Held, release_run-free}
use reckoning.Automation.Runner.Held.{
  allowance, max_attempts, any_stop, any_blocked, InLimits, Reliable,
}
use reckoning.Automation.Runner.Completed.{Ran, Through, Interrupted, run_steps-Through}

-- the receipt of a call that returns, and what the repository then holds
pub record Receipted (proposal : RoutineProposal) (run : RoutineRun) (receipt : RoutineReceipt)
    (r : Repository) : Type 0 where
  pub run_id : receipt.run_id ≡ run.id
  pub status : receipt.status ≡ aggregate_run_status receipt.results (length run.steps)
  pub ran : Ran receipt.results (length run.steps)
  pub costed :
      any_blocked receipt.results ≡ false → total_cost receipt.results ≤ℤ proposal.cost_ceiling
  pub attempted : receipt.attempts ≤ allowance (length receipt.results) (max_attempts proposal)
  pub stored : get_receipt r run.id ≡ some receipt
  pub closed :
      (revision : ℕ) × (owner : Option String) × (Dict.get run.id r.claims
        ≡ some (record { owner = owner; state = finalized; revision = revision }))

-- a run that a call finds, within the limits of its proposal and with a step to begin at
pub record Resumable (proposal : RoutineProposal) (run : RoutineRun) (r : Repository) : Type 0 where
  pub new : get_receipt r run.id ≡ none
  pub stored : Dict.get run.id r.runs ≡ some run
  pub proposed : Dict.get run.proposal_id r.proposals ≡ some proposal
  pub in_limits : InLimits proposal run
  pub none_stops : any_stop run.results ≡ false
  pub started : run.current_step ≤ length run.steps
  pub no_attempts : run.current_step ≡ length run.steps → run.current_step_attempts ≡ 0

length-drop :
    (n : ℕ) (steps : List RoutineStep) → n ≤ length steps → n + length (drop n steps) ≡ length steps
length-drop zero steps l = omega arith
length-drop (suc n) [] l = absurd (omega arith)
length-drop (suc n) (x ∷ steps) l = omega (arith, length-drop n steps (omega arith))

module _ {W : Type 0} (proposal : RoutineProposal) (owner completed_at : String)
    (deterministic_executor : StepExecutor W) (model_executor : Option (StepExecutor W))
    (run : RoutineRun) where
  abbrev pub Returned : RoutineReceipt → Machine W → Type 0
  Returned receipt m = Receipted proposal run receipt m.repository

  abbrev Raised : Error → Machine W → Type 0
  Raised = Interrupted proposal owner deterministic_executor model_executor run

  finish-Returned :
      (s : Stage) (m : Machine W)
      → Through proposal owner deterministic_executor model_executor run s m
      → Ends Returned Raised (finish owner completed_at (ok s) m)
  unfolding finish finished
  finish-Returned s m t =
      let receipt = receipt_of s.run completed_at in
      let last = terminal s.run in
      let (is_ok, stored, closed) =
        finalize_run-Held last receipt owner s.revision m.repository t.going.held in
      let allowed : allowance (length s.run.results) (max_attempts proposal)
          ≡ allowance s.run.current_step (max_attempts proposal) =
        ap (λ k. allowance k (max_attempts proposal)) t.going.in_limits.counted in
      let (answer, r) = finalize_run last receipt owner s.revision m.repository in
      rw is_ok (record {
        run_id = t.core.id;
        status = ap (λ steps. aggregate_run_status s.run.results (length steps)) t.core.steps;
        ran = t.ran;
        costed = t.going.in_limits.costed;
        attempted = omega (arith, t.going.in_limits.attempted, t.no_attempts, allowed);
        stored = subst (λ i. get_receipt r i ≡ some receipt) t.core.id stored;
        closed = (
          s.revision + 1 + 1,
          some owner,
          subst
              (λ i.
                Dict.get i r.claims
                ≡ some (record {
                  owner = some owner;
                  state = finalized;
                  revision = s.revision + 1 + 1;
                }))
              t.core.id closed,
        );
      })

  execute_run-Returned :
      (revision : ℕ) (m : Machine W)
      → Held run.id owner revision m.repository
      → Dict.get run.proposal_id m.repository.proposals ≡ some proposal
      → InLimits proposal run
      → any_stop run.results ≡ false
      → run.current_step ≤ length run.steps
      → (run.current_step ≡ length run.steps → run.current_step_attempts ≡ 0)
      → Ends Returned Raised
          (execute_run owner completed_at deterministic_executor model_executor revision (ok run) m)
  unfolding execute_run execute_proposal get_proposal finish
  execute_run-Returned revision m held proposed in_limits none_stops started no_attempts =
      let rest = drop run.current_step run.steps in
      let s : Stage = record { run = run; revision = revision } in
      let left = length-drop run.current_step run.steps started in
      rw proposed (
        Ends-then (Through proposal owner deterministic_executor model_executor run) Returned Raised
          Raised (finish owner completed_at)
          (run_steps proposal owner deterministic_executor model_executor rest
            (total_cost run.results) s m)
          (run_steps-Through proposal owner deterministic_executor model_executor run rest
            (total_cost run.results) s m
            (record {
              going = record { held = held; in_limits = in_limits };
              core = record { id = refl; proposal_id = refl; steps = refl };
              none_stops = none_stops;
              left = left;
              totals = refl;
              no_attempts = λ z. no_attempts (omega (arith, left, z));
            }))
          (λ s' m' t. finish-Returned s' m' t) (λ e m' b. b))

  -- a call that raises was refused the claim, and changed nothing, or an executor failed it, and
  -- it gave the run up
  pub data Failed (m : Machine W) (e : Error) (m' : Machine W) : Type 0 where
    refused : m' ≡ m → (claim_run run.id owner m.repository).0 ≡ err e → Failed m e m'
    given_up :
        (revision : ℕ)
        → Dict.get run.id m'.repository.claims
          ≡ some (record { owner = some owner; state = unclaimed; revision = revision })
        → ((Reliable (some deterministic_executor) × Reliable model_executor) → ⊥)
        → Failed m e m'

  released-Ends :
      (m m' : Machine W) (x : Result RoutineReceipt)
      → Ends Returned Raised (x, m')
      → Ends Returned (Failed m) (released owner completed_at run.id x m')
  unfolding released
  released-Ends m m' (ok receipt) h = h
  released-Ends m m' (err e) ((revision, held), unreliable) =
      given_up (revision + 1) (release_run-free run.id owner revision m'.repository held) unreliable

  pub resume_run-Ends :
      (m : Machine W)
      → Resumable proposal run m.repository
      → Ends Returned
          (Failed m)
          (resume_run owner completed_at deterministic_executor model_executor run.id m)
  unfolding resume_run resume_new resume_claimed get_run execute_run
  resume_run-Ends m h = elim (claim_run_cases run.id owner m.repository) [
    | inl (e, refusal) ↦ rw h.new (rw refusal (refused refl (ap (λ x. x.0) refusal)))
    | inr (revision, claimed) ↦ rw h.new (
        rw claimed (
          rw h.stored (
            let m' : Machine W = record m {
              repository = record m.repository {
                claims =
                    Dict.put run.id
                      (record { owner = some owner; state = active; revision = revision })
                      m.repository.claims;
              };
            } in
            let x =
              execute_run owner completed_at deterministic_executor model_executor revision (ok run)
                m' in
            released-Ends m x.1 x.0 (
              execute_run-Returned revision m'
                (Dict.get-put_self run.id
                  (record { owner = some owner; state = active; revision = revision })
                  m.repository.claims)
                h.proposed h.in_limits h.none_stops h.started h.no_attempts))))
  ]
