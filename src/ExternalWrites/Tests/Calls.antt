-- ===== src/ExternalWrites/Tests/Calls.antt =====
-- Witnesses: the calls of several workers on the store of one mail.
use reckoning.Prelude.{◌≡◌, ◌≢◌, refl, none, some, [], ◌∷◌, arith, true, false, eq_iff, all, not}
use reckoning.Prelude.Dict
use reckoning.Prelude.Result.{ok}
use reckoning.ExternalWrites.Records.{StandingPermission, ExecutionClaim, ClaimState, aborted}
use reckoning.ExternalWrites.Tables.{
  Tables, active_approval, active_approval_id, authorization, permission_matches,
}
use reckoning.ExternalWrites.InMemory
use reckoning.ExternalWrites.Sqlite
use reckoning.ExternalWrites.Repository.{repository_of}
use reckoning.ExternalWrites.Calls.{
  Call, on_approve, on_claim, on_abort, on_grant, steps, revoked_forever, IsBound,
}
use reckoning.ExternalWrites.Calls.Bound.{steps-IsBound}
use reckoning.ExternalWrites.Calls.Once.{dispatched_once, reopens}
use reckoning.ExternalWrites.Calls.Revisions.{recovered_once, reclaimed_from_one}
use reckoning.ExternalWrites.Tests.{mail, prepared, approved, grounds}

-- a worker has claimed the mail
abbrev held_claim : ExecutionClaim
held_claim = InMemory.new_claim mail "k1" "key" grounds "wed"

abbrev held : Tables
held = record approved { executions = ("w1", held_claim) ∷ [] }

sent :
    ((repository_of (some "p")).dispatch_execution "w1" "k1" held).0
    ≡ ok (InMemory.moved held_claim ClaimState.dispatched)
unfolding Sqlite.dispatch_execution InMemory.owned_claim Dict.get authorization active_approval
    active_approval_id Dict.values
sent = refl

no_reopening :
    all
      (λ (c : Call). not (reopens "w1" "k1" c))
      (on_abort "w1" "k2" ∷ on_claim mail "k2" "key" grounds "thu" ∷ [])
    ≡ true
unfolding reopens
no_reopening = refl

dispatched_once_example :
    ((repository_of (some "p")).dispatch_execution "w1" "k2" (
      steps
        (some "p")
        ((repository_of (some "p")).dispatch_execution "w1" "k1" held).1
        (on_abort "w1" "k2" ∷ on_claim mail "k2" "key" grounds "thu" ∷ []))).0
    ≢ ok held_claim
dispatched_once_example =
    dispatched_once (some "p") held
      (on_abort "w1" "k2" ∷ on_claim mail "k2" "key" grounds "thu" ∷ []) "w1" "k1" "k2"
      (InMemory.moved held_claim ClaimState.dispatched) held_claim sent no_reopening

approved-IsBound : IsBound approved
unfolding IsBound Dict.get
approved-IsBound key r h =
    let same : InMemory.approval "w1" "d1" "a1" "tue" ≡ r = ground (arith, eq_iff "a1" key) in
    (mail, rw (← same) refl, rw (← same) refl)

steps-IsBound_example : IsBound (steps (some "p") approved (on_approve "w1" "d2" "a2" "wed" ∷ []))
steps-IsBound_example =
    steps-IsBound "p" approved (on_approve "w1" "d2" "a2" "wed" ∷ []) approved-IsBound

abbrev permission : StandingPermission
permission = record {
  id = "p1";
  connector_id = "mail";
  action_type = "send";
  target = "ann";
  trigger = "weekly";
  boundary = "work";
  granted_at = "mon";
  revoked_at = some "tue";
}

abbrev revoked : Tables
revoked = record prepared { permissions = ("p1", permission) ∷ [] }

found_permission : Dict.get "p1" revoked.permissions ≡ some permission
unfolding Dict.get
found_permission = refl

revoked_forever_example :
    (Dict.get "p1" (steps none revoked (on_grant permission ∷ [])).permissions ≡ some permission)
    × (permission_matches permission mail ≡ false)
revoked_forever_example =
    revoked_forever none revoked (on_grant permission ∷ []) "p1" "tue" permission mail
      found_permission refl

recovers :
    (InMemory.recover_execution "w1" 1 "k2" "thu" held).0
    ≡ ok (InMemory.recovered held_claim "k2" "thu")
unfolding InMemory.recover_execution Dict.get
recovers = refl

recovered_once_example :
    (InMemory.recover_execution "w1" 1 "k3" "fri" (
      steps
        (some "p")
        (InMemory.recover_execution "w1" 1 "k2" "thu" held).1
        (on_abort "w1" "k2" ∷ on_claim mail "k1" "key" grounds "thu" ∷ []))).0
    ≢ ok held_claim
recovered_once_example =
    recovered_once "p" held (on_abort "w1" "k2" ∷ on_claim mail "k1" "key" grounds "thu" ∷ []) "w1"
      "k2" "k3" "thu" "fri" 1 1 (InMemory.recovered held_claim "k2" "thu") held_claim recovers
      (omega arith)

abbrev given_up_claim : ExecutionClaim
given_up_claim = record held_claim { claim_state = aborted; revision = 2 }

abbrev given_up : Tables
given_up = record approved { executions = ("w1", given_up_claim) ∷ [] }

found_given_up : Dict.get "w1" given_up.executions ≡ some given_up_claim
unfolding Dict.get
found_given_up = refl

reclaimed_from_one_example :
    (taken : ExecutionClaim) × ((InMemory.recover_execution "w1" 1 "k3" "fri"
        (InMemory.claim_execution mail "k2" "key" grounds "thu" given_up).1).0
      ≡ ok taken)
    × (taken.claim_owner ≡ "k3")
reclaimed_from_one_example =
    reclaimed_from_one given_up mail "k2" "k3" "key" "thu" "fri" grounds given_up_claim
      found_given_up refl refl
