-- ===== src/Automation/Tests/Proposals.antt =====
-- Proposals, claims and starts at concrete inputs.
use reckoning.Prelude.{
  ℕ, ◌+◌, ◌≡◌, ◌≢◌, ◌⊎◌, inl, inr, ◌≤◌, ◌<◌, refl, ap, sym, String, Bool, true, false, Option, none,
  some, List, [], ◌∷◌, arith, ℤ, pos, eq_iff, str_eq, ◌==◌, if◌then◌else◌,
}
use reckoning.Prelude.Dict
use reckoning.Prelude.Result.{ok, err, Error, conflict}
use reckoning.Automation.Records.{ProposalStatus, RoutineProposal, RoutineContractDraft}
use reckoning.Automation.Repository.{
  Repository, RunClaim, ClaimState, unclaimed, empty, with_status, confirm_proposal,
}
use reckoning.Automation.Repository.Exclusive.{IsExclusive, confirm_proposal-IsExclusive}
use reckoning.Automation.Claims.{
  claim_run, recover_run, save_run_progress, finalize_run, find_run_by_key,
}
use reckoning.Automation.Claims.Fencing.{
  Call, on_claim, on_progress, steps as after_calls, HasRuns, steps-HasRuns, recovered_fences,
  finalized_forever, claim_excludes,
}
use reckoning.Automation.Service.{validate_contract, start_routine}
use reckoning.Automation.Service.Contracts.{
  on_propose, on_confirm, operate_all, operate_all-IsExclusive,
}
use reckoning.Automation.Tests.{proposal, steps, run, repository, receipt}

-- the proposal, before it is confirmed, beside nothing else
abbrev pending : RoutineProposal
pending = with_status ProposalStatus.proposed proposal

abbrev offered : Repository
offered = record { proposals = ("p1", pending) ∷ []; runs = []; receipts = []; claims = [] }

repository-HasRuns : HasRuns repository
unfolding Dict.get
repository-HasRuns = record { unclaimed_if_absent = λ id absent. ground (arith, eq_iff "r1" id) }

offered-IsExclusive : IsExclusive offered.proposals
unfolding Dict.get
offered-IsExclusive = record {
  keyed = record { own_id = λ k p here. ground (arith, eq_iff "p1" k) };
  one = λ k j p q here there c d same. ground (arith, eq_iff "p1" k, eq_iff "p1" j);
}

abbrev draft : RoutineContractDraft
draft = record {
  trigger = "weekly";
  source_scope = "inbox" ∷ [];
  context_scope = [];
  tools = "read" ∷ [];
  permissions = [];
  delivery = "chat";
  model_policy = "none";
  cost_ceiling = pos 5;
  retry_limit = pos 0;
  delegation_policy = "none";
  failure_behavior = "say so";
}

-- the repository before the run
abbrev fresh : Repository
fresh = record repository { runs = []; claims = [] }

-- a worker claims the run, and another takes it over at the revision that it saw
abbrev claimed : Repository
claimed = (claim_run "r1" "w1" repository).1

claimed-HasRuns : HasRuns claimed
unfolding claim_run after_calls Dict.get reckoning.Automation.Claims.Fencing.step
claimed-HasRuns = steps-HasRuns repository (on_claim "r1" "w1" ∷ []) repository-HasRuns

abbrev calls : List Call
calls = on_claim "r1" "w1" ∷ on_progress run "w2" 3 ∷ []

recovered : (recover_run "r1" 2 "w2" claimed).0 ≡ ok 3
unfolding recover_run Dict.get claim_run Dict.put
recovered = refl

claimed_first : (claim_run "r1" "w1" repository).0 ≡ ok 2
unfolding claim_run Dict.get
claimed_first = refl

finished : (finalize_run run receipt "w1" 2 claimed).0 ≡ ok 4
unfolding finalize_run save_run_progress Dict.get claim_run Dict.put
finished = refl

confirmed : (confirm_proposal "p1" offered).0 ≡ ok proposal
unfolding confirm_proposal reckoning.Automation.Repository.get_proposal Dict.get
confirmed = refl

passed : validate_contract proposal ≡ ok tt
unfolding validate_contract reckoning.Prelude.is_blank
passed = refl

started : (start_routine "r1" "p1" "2026-01-02" "mail:1" steps "daily" fresh).0 ≡ ok run
unfolding start_routine reckoning.Automation.Repository.get_proposal Dict.get find_run_by_key
    Dict.values reckoning.Prelude.contains reckoning.Prelude.Casefold.holds_text
    reckoning.Prelude.Casefold.casefold reckoning.Automation.Claims.start_run
started = refl

apart : ◌≢◌ {A = String} "w1" "w2"
apart e = absurd (ground (arith, eq_iff "w1" "w2"))

recovered_fences_example :
    let later = after_calls (recover_run "r1" 2 "w2" claimed).1 calls in
    ((e : Error) × (save_run_progress run "w1" 2 later ≡ (err e, later)))
    × ((e : Error) × (finalize_run run receipt "w1" 2 later ≡ (err e, later)))
recovered_fences_example =
    recovered_fences claimed "r1" "w2" "w1" 2 2 3 calls run receipt claimed-HasRuns recovered
      (omega arith) refl

finalized_forever_example :
    let later = after_calls (finalize_run run receipt "w1" 2 claimed).1 calls in
    (claim_run "r1" "w2" later ≡ (err (conflict "Routine run is already finalized."), later))
    × ((e : Error) × (recover_run "r1" 4 "w2" later ≡ (err e, later)))
finalized_forever_example =
    finalized_forever claimed run receipt "w1" "w2" 2 4 4 calls claimed-HasRuns finished

confirm_proposal-IsExclusive_example : IsExclusive (confirm_proposal "p1" offered).1.proposals
confirm_proposal-IsExclusive_example = confirm_proposal-IsExclusive "p1" offered offered-IsExclusive

operate_all-IsExclusive_example :
    IsExclusive
      (operate_all offered (
        on_propose "p2" "mail" "Weekly please" "now" draft
        ∷ on_confirm "p1"
        ∷ on_confirm "p2"
        ∷ [])).proposals
operate_all-IsExclusive_example =
    operate_all-IsExclusive offered
      (on_propose "p2" "mail" "Weekly please" "now" draft ∷ on_confirm "p1" ∷ on_confirm "p2" ∷ [])
      offered-IsExclusive
