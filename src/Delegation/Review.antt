-- ===== src/Delegation/Review.antt =====
-- The accountable review of a delegated run in delegation.py: what the reviewer may decide.
use reckoning.Prelude.{
  String, Bool, true, false, Option, none, some, List, [], map, ◌&&◌, not, is_empty, difference,
  if◌then◌else◌,
}
use reckoning.Prelude.Result.{Result, value_error, raise_if, ◌>>◌}
use reckoning.Delegation.Records.{
  ReviewStatus, DispositionStatus, DelegationEvidence, DelegatedWorkerResult, DelegationReview,
  AgentDisposition,
}

-- the set of statuses that a disposition may have after a review
abbrev pub allows : ReviewStatus → DispositionStatus → Bool
allows ReviewStatus.completed DispositionStatus.accepted = true
allows ReviewStatus.completed DispositionStatus.rejected = true
allows ReviewStatus.blocked DispositionStatus.blocked = true
allows ReviewStatus.blocked DispositionStatus.rejected = true
allows ReviewStatus.limited DispositionStatus.limited = true
allows ReviewStatus.limited DispositionStatus.rejected = true
allows _ _ = false

abbrev pub is_accepted : DispositionStatus → Bool
is_accepted DispositionStatus.accepted = true
is_accepted _ = false

abbrev pub evidence_of : Option DelegatedWorkerResult → List String
evidence_of none = []
evidence_of (some result) = map (λ (evidence : DelegationEvidence). evidence.id) result.evidence

-- set(xs) == set(ys)
abbrev pub same_set : List String → List String → Bool
same_set xs ys = is_empty (difference xs ys) && is_empty (difference ys xs)

-- DelegationCoordinator._validate_disposition
unfoldable pub validate_disposition : DelegationReview → AgentDisposition → Result (Unit {0})
validate_disposition review disposition =
    let evidence_ids = evidence_of review.worker_result in
    let verified =
      if not (is_empty review.verified_evidence_ids)
      then review.verified_evidence_ids
      else disposition.verified_evidence_ids in
    do
      raise_if (not (allows review.status disposition.status))
          (value_error "The Reckoning agent disposition contradicts the bounded run status.")
      raise_if (not (is_empty (difference verified evidence_ids)))
          (value_error "The Reckoning agent verified evidence the worker did not return.")
      raise_if (is_accepted disposition.status && not (same_set verified evidence_ids))
          (value_error "The Reckoning agent must verify all worker evidence before acceptance.")

-- the disposition where the review itself fails
abbrev pub fallback : ReviewStatus → AgentDisposition
fallback status = record {
  status = elim status [
    | ReviewStatus.blocked ↦ DispositionStatus.blocked
    | _ ↦ DispositionStatus.limited
  ];
  final_response =
      "Simon could not complete the accountable review. No delegated result was accepted.";
  rationale = "The disposition step failed, so the delegation failed closed.";
  verified_evidence_ids = [];
}
