-- ===== src/Delegation/Coordinator/FailClosed.antt =====
-- How a delegation ends: with one saved receipt, and refused where anything is amiss.
use reckoning.Prelude.{
  ◌≡◌, ◌≢◌, ◌⊎◌, refl, ◌∙◌, ap, sym, String, true, false, some, List, [], ◌∷◌, ◌++◌, map, arith,
  pos, is_empty, is_blank, Bool-cases, inl, inr, if◌then◌else◌,
}
use reckoning.Prelude.Dict
use reckoning.Prelude.Result.{Result, ok, err, Error, Result-cases, ok-injective}
use reckoning.Delegation.Records.{
  ReviewStatus, DispositionStatus, DelegationEvidence, DelegatedWorkerResult, DelegationPolicy,
  DelegationRequest, DelegationOutcome, new_disposition,
}
use reckoning.Delegation.Policy.{request_violations}
use reckoning.Delegation.Collaborators.{Collaborators, authorize, verify_all}
use reckoning.Delegation.Review.{validate_disposition}
use reckoning.Delegation.Coordinator.{
  Host, blocked_attempt, assess, attempt, settle, carry_out, after_authorize, after_id, delegate,
  review_of,
}
use reckoning.Delegation.Coordinator.Parts.{delegate_ok, delegate_named, delegate_violated}

none_of_completed :
    (vs : List String)
    → (if is_empty vs then ReviewStatus.completed else ReviewStatus.limited)
      ≡ ReviewStatus.completed
    → vs ≡ []
none_of_completed [] h = refl
none_of_completed (v ∷ vs) h = absurd (cc)

none_unverified :
    (failures unverified : List String) (text : String)
    → failures ++ (if is_empty unverified then [] else text ∷ []) ≡ []
    → unverified ≡ []
none_unverified [] [] text h = refl
none_unverified [] (u ∷ unverified) text h = absurd (cc)
none_unverified (f ∷ failures) unverified text h = absurd (cc)

module _ {W : Type 0} (c : Collaborators W) where
  -- nothing is left unverified: all is verified
  verify_all-none_unverified :
      (evidence : List DelegationEvidence) (w : W)
      → (verify_all c evidence w).2 ≡ []
      → (verify_all c evidence w).1 ≡ map (λ (e : DelegationEvidence). e.id) evidence
  unfolding verify_all
  verify_all-none_unverified [] w h = refl
  verify_all-none_unverified (e ∷ rest) w h =
      ground (arith, verify_all-none_unverified rest (c.verify_evidence e w).1)

  -- A run is completed only where the worker returned a result, the reviewer verified each of its
  -- evidence, in their order, and there is no violation.
  pub assess-verified :
      (r : Result DelegatedWorkerResult) (w : W)
      → (assess c r w).0.review_status ≡ ReviewStatus.completed
      → (result : DelegatedWorkerResult) × (r ≡ ok result)
        × ((assess c r w).0.verified_evidence_ids
            ≡ map (λ (e : DelegationEvidence). e.id) result.evidence)
        × ((assess c r w).0.violations ≡ [])
  unfolding assess
  assess-verified (err e) w h = absurd (ground arith)
  assess-verified (ok result) w h =
      let none_left = none_of_completed _ h in
      let verified = none_unverified _ (verify_all c result.evidence w).2 _ none_left in
      (result, refl, verify_all-none_unverified result.evidence w verified, none_left)

  carry_out-refused :
      (request : DelegationRequest) (receipt_id started_at v : String) (vs : List String)
      (h : Host W)
      → (outcome : DelegationOutcome) × ((carry_out c request receipt_id started_at (v ∷ vs) h).0
          ≡ ok outcome)
        × (outcome.receipt.model_calls ≡ 0)
        × (outcome.receipt.tool_calls ≡ 0)
        × (outcome.receipt.cost ≡ pos 0)
        × ((outcome.receipt.result ≡ DispositionStatus.blocked)
            ⊎ (outcome.receipt.result ≡ DispositionStatus.rejected))
        × ((carry_out c request receipt_id started_at (v ∷ vs) h).1.world
            ≡ (c.dispose (review_of request (blocked_attempt (v ∷ vs))) h.world).1)
  unfolding carry_out attempt settle validate_disposition new_disposition
  carry_out-refused request receipt_id started_at v vs h =
      (_, refl, refl, refl, refl, ground arith, refl)

  carry_out-saves :
      (request : DelegationRequest) (receipt_id started_at : String) (vs : List String) (h : Host W)
      (outcome : DelegationOutcome)
      → (carry_out c request receipt_id started_at vs h).0 ≡ ok outcome
      → (outcome.receipt.id ≡ receipt_id)
        × (Dict.get receipt_id (carry_out c request receipt_id started_at vs h).1.receipts
            ≡ some outcome.receipt)
        × ((j : String)
            → j ≢ receipt_id
            → Dict.get j (carry_out c request receipt_id started_at vs h).1.receipts
              ≡ Dict.get j h.receipts)
  unfolding carry_out
  carry_out-saves request receipt_id started_at vs h outcome e = (
    ap (λ (o : DelegationOutcome). o.receipt.id) (sym (ok-injective e)),
    Dict.get-put_self receipt_id _ h.receipts
        ∙ ap (λ (o : DelegationOutcome). some o.receipt) (ok-injective e),
    λ j other. Dict.get-put_ne receipt_id j _ h.receipts (λ same. other (sym same)),
  )

  module _ (request : DelegationRequest) (policy : DelegationPolicy)
      (receipt_id started_at : String) (h : Host W) where
    -- A delegation that returns has saved its receipt under the receipt's id, and changed no other.
    pub delegate-saves :
        (outcome : DelegationOutcome)
        → (delegate c request policy receipt_id started_at h).0 ≡ ok outcome
        → (outcome.receipt.id ≡ receipt_id)
          × (Dict.get receipt_id (delegate c request policy receipt_id started_at h).1.receipts
              ≡ some outcome.receipt)
          × ((j : String)
              → j ≢ receipt_id
              → Dict.get j (delegate c request policy receipt_id started_at h).1.receipts
                ≡ Dict.get j h.receipts)
    delegate-saves outcome e =
        let (vs, authorized, carried) =
          delegate_ok c request policy receipt_id started_at h outcome e in
        let w = (authorize c request (request_violations request policy) h.world).1 in
        let saved =
          carry_out-saves request receipt_id started_at vs (record h { world = w }) outcome
            (ap (λ r. r.0) (sym carried) ∙ e) in
        rw carried saved

    -- A delegation returns an outcome, unless its receipt id is blank or the authorizer raises;
    -- then it raises that error and saves no receipt.
    pub delegate_cases :
        ((outcome : DelegationOutcome) × ((delegate c request policy receipt_id started_at h).0
            ≡ ok outcome))
        ⊎ ((is_blank receipt_id ≡ true)
            × ((delegate c request policy receipt_id started_at h).1.receipts ≡ h.receipts))
        ⊎ ((e : Error) × ((authorize c request (request_violations request policy) h.world).0
              ≡ err e)
            × ((delegate c request policy receipt_id started_at h).0 ≡ err e)
            × ((delegate c request policy receipt_id started_at h).1.receipts ≡ h.receipts))
    unfolding delegate after_authorize carry_out
    delegate_cases = elim (Bool-cases (is_blank receipt_id)) [
      | inl blank ↦ inr (inl (blank, rw (blank, after_id)))
      | inr named ↦
          rw (delegate_named c request policy receipt_id started_at h named)
            (elim (Result-cases
              (authorize c request (request_violations request policy) h.world).0) [
                | inl (vs, returned) ↦ inl (rw (returned, after_authorize, carry_out) (_, refl))
                | inr (e, raised) ↦
                    inr
                      (inr (e, raised, rw (raised, after_authorize), rw (raised, after_authorize)))
              ])
    ]

    -- A request with violations, under a receipt id that is not blank, returns an outcome that
    -- counts no model call, no tool call and no cost, and is blocked or rejected. The only
    -- collaborator that is called is the reviewer, once, to dispose of the blocked run.
    pub delegate-refused :
        (v : String) (vs : List String)
        → request_violations request policy ≡ v ∷ vs
        → is_blank receipt_id ≡ false
        → (outcome : DelegationOutcome) × ((delegate c request policy receipt_id started_at h).0
            ≡ ok outcome)
          × (outcome.receipt.model_calls ≡ 0)
          × (outcome.receipt.tool_calls ≡ 0)
          × (outcome.receipt.cost ≡ pos 0)
          × ((outcome.receipt.result ≡ DispositionStatus.blocked)
              ⊎ (outcome.receipt.result ≡ DispositionStatus.rejected))
          × ((delegate c request policy receipt_id started_at h).1.world
              ≡ (c.dispose (review_of request (blocked_attempt (v ∷ vs))) h.world).1)
    delegate-refused v vs violated named =
        rw (delegate_violated c request policy receipt_id started_at h v vs violated named)
          (carry_out-refused request receipt_id started_at v vs h)
