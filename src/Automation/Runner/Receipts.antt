-- ===== src/Automation/Runner/Receipts.antt =====
-- What a caller of resume_run may rely on.
use reckoning.Prelude.{ℕ, ◌≤◌, ◌≡◌, refl, ◌↔◌, false, List, [], ◌∷◌, arith, any, length, All}
use reckoning.Automation.Records.{StepStatus, StepResult, is_blocked, is_failed, is_partial}
use reckoning.Automation.Runner.{aggregate_run_status}

each_succeeds :
    (results : List StepResult)
    → any (λ (x : StepResult). is_blocked x.status) results ≡ false
    → any (λ (x : StepResult). is_failed x.status) results ≡ false
    → any (λ (x : StepResult). is_partial x.status) results ≡ false
    → All (λ (x : StepResult). x.status ≡ StepStatus.success) results
each_succeeds [] b f p = tt
each_succeeds (x ∷ xs) b f p =
    (ground arith, each_succeeds xs (ground arith) (ground arith) (ground arith))

none_other :
    (results : List StepResult)
    → All (λ (x : StepResult). x.status ≡ StepStatus.success) results
    → (any (λ (x : StepResult). is_blocked x.status) results ≡ false)
      × (any (λ (x : StepResult). is_failed x.status) results ≡ false)
      × (any (λ (x : StepResult). is_partial x.status) results ≡ false)
none_other [] h = (refl, refl, refl)
none_other (x ∷ xs) h = grind (arith, none_other xs)

-- A run is a success exactly where it has a result for each of its steps and each of the results
-- is a success.
pub aggregate_run_status-success :
    (results : List StepResult) (steps : ℕ)
    → aggregate_run_status results steps ≡ StepStatus.success
      ↔ (All (λ (x : StepResult). x.status ≡ StepStatus.success) results × steps ≤ length results)
unfolding aggregate_run_status
aggregate_run_status-success results steps = (
  λ h. (each_succeeds results (ground arith) (ground arith) (ground arith), ground arith),
  λ h. ground (arith, none_other results),
)
