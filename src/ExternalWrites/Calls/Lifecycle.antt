-- ===== src/ExternalWrites/Calls/Lifecycle.antt =====
-- The execution of a write as a state machine: what each call may do to its claim, and how often a
-- write can be dispatched.
pub mod Moves
use reckoning.Prelude.{
  ℕ, ◌+◌, ◌≤◌, ◌<◌, ◌≡◌, ◌≢◌, ◌⊎◌, sym, String, Bool, true, false, Option, none, some, List, [],
  ◌∷◌, Option-cases, All,
}
use reckoning.Prelude.Dict
use reckoning.Prelude.Result.{Result, ok, err}
use reckoning.ExternalWrites.Records.{
  PreparedWrite, WriteReceipt, WriteAuthorization, ExecutionClaim, ClaimState, claimed, dispatched,
  finalized, aborted,
}
use reckoning.ExternalWrites.Tables.{Tables}
use reckoning.ExternalWrites.InMemory
use reckoning.ExternalWrites.Sqlite
use reckoning.ExternalWrites.Repository.{repository_of}
use reckoning.ExternalWrites.Calls.{
  Call, on_prepare, on_approve, on_grant, on_revoke, on_claim, on_dispatch, on_abort, on_recover,
  on_finalize, step, steps, call_rules,
}

-- the phases of a write's execution, with the owner of its claim
pub data Phase : Type 0 where
  idle : Phase
  held sent done given_up : String → Phase

phase_of : ClaimState → String → Phase
phase_of claimed owner = held owner
phase_of dispatched owner = sent owner
phase_of finalized owner = done owner
phase_of aborted owner = given_up owner

phase_of_claim : Option ExecutionClaim → Phase
unfolding phase_of
phase_of_claim none = idle
phase_of_claim (some c) = phase_of c.claim_state c.claim_owner

unfoldable pub phase : String → Tables → Phase
unfolding phase_of_claim phase_of
phase id t = phase_of_claim (Dict.get id t.executions)

-- the owner of a phase
abbrev pub owner_of : Phase → Option String
owner_of idle = none
owner_of (held owner) = some owner
owner_of (sent owner) = some owner
owner_of (done owner) = some owner
owner_of (given_up owner) = some owner

abbrev pub is_open : Phase → Bool
is_open idle = false
is_open (done owner) = false
is_open _ = true

-- The moves of one write's execution, each with the worker that makes it: only the owner of a claim
-- sends, gives up and finishes.
pub data Move : String → Phase → Phase → Type 0 where
  stay : (actor : String) (p : Phase) → Move actor p p
  claim : (actor : String) → Move actor idle (held actor)
  claim_again : (actor before : String) → Move actor (given_up before) (held actor)
  dispatch : (actor : String) → Move actor (held actor) (sent actor)
  give_up : (actor : String) (p : Phase) → owner_of p ≡ some actor → Move actor p (given_up actor)
  recover : (actor : String) (p : Phase) → is_open p ≡ true → Move actor p (held actor)
  finish : (actor : String) (p : Phase) → owner_of p ≡ some actor → Move actor p (done actor)

-- the claim of one write is written, by a move
Writes : String → String → Tables → Tables → Type 0
Writes actor key t t' =
    (c : ExecutionClaim) × (t'.executions ≡ Dict.put key c t.executions)
    × Move actor (phase_of_claim (Dict.get key t.executions)) (phase_of_claim (some c))

-- no claim is written, or one
Changes : String → Tables → Tables → Type 0
Changes actor t t' = (t'.executions ≡ t.executions) ⊎ ((key : String) × Writes actor key t t')
