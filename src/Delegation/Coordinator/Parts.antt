-- ===== src/Delegation/Coordinator/Parts.antt =====
-- How the parts of `delegate` follow one another: rules that the proofs about it share.
use reckoning.Prelude.{◌≡◌, refl, ◌∙◌, String, false, is_blank, Option, none, some, List, [], ◌∷◌}
use reckoning.Prelude.Result.{Result, ok, err}
use reckoning.Delegation.Records.{
  DelegationPolicy, DelegationRequest, DelegatedContext, DelegationOutcome, required,
}
use reckoning.Delegation.Policy.{request_violations}
use reckoning.Delegation.Collaborators.{Collaborators, authorize, read_context}
use reckoning.Delegation.Runtime.{ModelGateway, ToolGateway}
use reckoning.Delegation.Coordinator.{
  Host, Attempt, blocked_attempt, execute, after_context, with_gateways, attempt, carry_out,
  after_authorize, after_id, delegate,
}

module _ {W : Type 0} (c : Collaborators W) (request : DelegationRequest) where
  module _ {κ} (P : Attempt → Type κ)
      (blocked : (v : String) (vs : List String) → P (blocked_attempt (v ∷ vs)))
      (ran : (models : ModelGateway W) (tools : ToolGateway W) (context : List DelegatedContext)
          (w : W)
        → P (execute c models tools request context w).0) where
    after_context_rule :
        (models : ModelGateway W) (tools : ToolGateway W)
        (r : List String × List DelegatedContext × W)
        → P (after_context c models tools request r).0
    unfolding after_context
    after_context_rule models tools ([], context, w) = ran models tools context w
    after_context_rule models tools (v ∷ vs, context, w) = blocked v vs

    with_gateways_rule :
        (models : Option (ModelGateway W)) (tools : Option (ToolGateway W)) (w : W)
        → P (with_gateways c models tools request w).0
    unfolding with_gateways
    with_gateways_rule (some models) (some tools) w =
        after_context_rule models tools (read_context c request.context [] w)
    with_gateways_rule (some models) none w = blocked _ []
    with_gateways_rule none tools w = blocked _ []

    -- an attempt is blocked with a violation, or it is a run of the worker
    pub attempt_rule : (violations : List String) (w : W) → P (attempt c request violations w).0
    unfolding attempt
    attempt_rule (v ∷ vs) w = blocked v vs
    attempt_rule [] w = with_gateways_rule c.model_gateway c.tool_gateway w

  module _ (policy : DelegationPolicy) (receipt_id started_at : String) (h : Host W) where
    after_authorize_ok :
        (r : Result (List String)) (g : Host W) (outcome : DelegationOutcome)
        → (after_authorize c request receipt_id started_at r g).0 ≡ ok outcome
        → (violations : List String) × (r ≡ ok violations)
          × (after_authorize c request receipt_id started_at r g
              ≡ carry_out c request receipt_id started_at violations g)
    unfolding after_authorize
    after_authorize_ok (ok violations) g outcome e = (violations, refl, refl)
    after_authorize_ok (err x) g outcome e = absurd (cc)

    after_id_ok :
        (r : Result (Unit {0})) (outcome : DelegationOutcome)
        → (after_id c request policy receipt_id started_at r h).0 ≡ ok outcome
        → (violations : List String) × ((authorize c request
              (request_violations request policy)
              h.world).0
            ≡ ok violations)
          × (after_id c request policy receipt_id started_at r h
              ≡ carry_out c request receipt_id started_at violations (record h {
                world = (authorize c request (request_violations request policy) h.world).1;
              }))
    unfolding after_id
    after_id_ok (ok t) outcome e =
        let (answer, w) = authorize c request (request_violations request policy) h.world in
        after_authorize_ok answer (record h { world = w }) outcome e
    after_id_ok (err x) outcome e = absurd (cc)

    -- a delegation that returns has been authorized and carried out
    pub delegate_ok :
        (outcome : DelegationOutcome)
        → (delegate c request policy receipt_id started_at h).0 ≡ ok outcome
        → (violations : List String) × ((authorize c request
              (request_violations request policy)
              h.world).0
            ≡ ok violations)
          × (delegate c request policy receipt_id started_at h
              ≡ carry_out c request receipt_id started_at violations (record h {
                world = (authorize c request (request_violations request policy) h.world).1;
              }))
    unfolding delegate
    delegate_ok outcome e = after_id_ok (required receipt_id "Delegation receipt id") outcome e

    -- with a receipt id, the authorizer is asked next
    pub delegate_named :
        is_blank receipt_id ≡ false
        → delegate c request policy receipt_id started_at h
          ≡ after_authorize c request receipt_id started_at
              (authorize c request (request_violations request policy) h.world).0
              (record h {
                world = (authorize c request (request_violations request policy) h.world).1;
              })
    unfolding delegate
    delegate_named named = rw (named, after_id)

    -- with violations, the authorizer is not asked
    pub delegate_violated :
        (v : String) (vs : List String)
        → request_violations request policy ≡ v ∷ vs
        → is_blank receipt_id ≡ false
        → delegate c request policy receipt_id started_at h
          ≡ carry_out c request receipt_id started_at (v ∷ vs) h
    unfolding authorize after_authorize
    delegate_violated v vs violated named = delegate_named named ∙ rw violated
