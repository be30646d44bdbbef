-- ===== src/Delegation/Coordinator/Accepted.antt =====
-- What an accepted delegation has been through.
use reckoning.Prelude.{◌≡◌, refl, ◌∙◌, ap, sym, String, List, [], ◌∷◌, arith}
use reckoning.Prelude.Result.{Result, ok, err}
use reckoning.Delegation.Records.{
  ReviewStatus, DispositionStatus, DelegatedWorkerResult, DelegationPolicy, DelegationRequest,
  DelegatedContext, DelegationOutcome, new_disposition,
}
use reckoning.Delegation.Policy.{request_violations}
use reckoning.Delegation.Policy.Conforms.{Conforms, request_violations_iff}
use reckoning.Delegation.Collaborators.{Collaborators, authorize}
use reckoning.Delegation.Review.{validate_disposition}
use reckoning.Delegation.Runtime.{ModelGateway, ToolGateway}
use reckoning.Delegation.Coordinator.Parts.{attempt_rule, delegate_ok}
use reckoning.Delegation.Coordinator.{
  Host, Attempt, assess, execute, attempt, settle, carry_out, delegate,
}

module _ {W : Type 0} (c : Collaborators W) where
  -- only a completed run is accepted, and then the review adds no violation
  settle-accepted :
      (request : DelegationRequest) (a : Attempt) (w : W)
      → (settle c request a w).0.0.status ≡ DispositionStatus.accepted
      → (a.review_status ≡ ReviewStatus.completed) × ((settle c request a w).0.1 ≡ a.violations)
  unfolding settle validate_disposition new_disposition
  settle-accepted request a w h = ground arith

  -- a completed run has no violations, and every evidence of its worker is verified
  assess-completed :
      (r : Result DelegatedWorkerResult) (w : W)
      → (assess c r w).0.review_status ≡ ReviewStatus.completed
      → (assess c r w).0.violations ≡ []
  unfolding assess
  assess-completed (err e) w h = ground arith
  assess-completed (ok r) w h = ground arith

  execute-completed :
      (models : ModelGateway W) (tools : ToolGateway W) (request : DelegationRequest)
      (context : List DelegatedContext) (w : W)
      → (execute c models tools request context w).0.review_status ≡ ReviewStatus.completed
      → (execute c models tools request context w).0.violations ≡ []
  unfolding execute
  execute-completed models tools request context w = assess-completed _ _

  attempt-completed :
      (request : DelegationRequest) (violations : List String) (w : W)
      → (attempt c request violations w).0.review_status ≡ ReviewStatus.completed
      → (violations ≡ []) × ((attempt c request violations w).0.violations ≡ [])
  attempt-completed request (v ∷ violations) w h = unfold attempt in ground arith
  attempt-completed request [] w h = (
    refl,
    attempt_rule c request (λ a. a.review_status ≡ ReviewStatus.completed → a.violations ≡ [])
        (λ v vs e. ground arith)
        (λ models tools context w'. execute-completed models tools request context w') [] w h,
  )

  carry_out-accepted :
      (request : DelegationRequest) (receipt_id started_at : String) (violations : List String)
      (h : Host W) (outcome : DelegationOutcome)
      → (carry_out c request receipt_id started_at violations h).0 ≡ ok outcome
      → outcome.receipt.result ≡ DispositionStatus.accepted
      → (violations ≡ []) × (outcome.receipt.policy_violations ≡ [])
  unfolding carry_out
  carry_out-accepted request receipt_id started_at violations h outcome e acc =
      let (a, w) = attempt c request violations h.world in
      let accepted : (settle c request a w).0.0.status ≡ DispositionStatus.accepted = cc in
      let (done, same) = settle-accepted request a w accepted in
      let (none_before, none_after) = attempt-completed request violations h.world done in
      (none_before, cc)

  pub authorize-none :
      (request : DelegationRequest) (violations : List String) (w : W)
      → (authorize c request violations w).0 ≡ ok []
      → violations ≡ []
  unfolding authorize
  authorize-none request [] w h = refl
  authorize-none request (v ∷ violations) w h = cc

  -- An accepted delegation conforms to its policy, and its receipt names no violation.
  pub delegate-accepted :
      (request : DelegationRequest) (policy : DelegationPolicy) (receipt_id started_at : String)
      (h : Host W) (outcome : DelegationOutcome)
      → (delegate c request policy receipt_id started_at h).0 ≡ ok outcome
      → outcome.receipt.result ≡ DispositionStatus.accepted
      → Conforms request policy × (outcome.receipt.policy_violations ≡ [])
  delegate-accepted request policy receipt_id started_at h outcome e acc =
      let (violations, authorized, carried) =
        delegate_ok c request policy receipt_id started_at h outcome e in
      let (none_before, none_after) =
        carry_out-accepted request receipt_id started_at violations _ outcome
          (ap (λ r. r.0) (sym carried) ∙ e) acc in
      (
        (request_violations_iff request policy).0 (
            authorize-none request (request_violations request policy) h.world
              (authorized ∙ ap ok none_before)),
        none_after,
      )
