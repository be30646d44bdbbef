-- ===== src/Automation/Repository.antt =====
-- InMemoryAutomationRepository of automation.py: proposals, runs, receipts and the claims on runs.
-- A method is an action on the repository. The messages of the errors are left as a fixed text
-- where the source writes the ids and revisions into them.
pub mod Proposals
pub mod Exclusive
use reckoning.Prelude.{
  ℕ, ◌+◌, String, Bool, true, false, not, ◌&&◌, Option, none, some, List, [], ◌∷◌, str_eq, ◌==◌,
  leb, keep, first, if◌then◌else◌,
}
use reckoning.Prelude.Dict
use reckoning.Prelude.Dict.{Dict}
use reckoning.Prelude.Result.{
  Result, ok, err, Error, key_error, value_error, conflict, Action, ◌>>=◌,
}
use reckoning.Automation.Records.{
  ProposalStatus, RoutineProposal, RoutineRun, RoutineReceipt, is_confirmed, is_proposed,
}

-- the states of a claim
pub data ClaimState : Type 0 where
  unclaimed active finalized : ClaimState

-- _RunClaim
pub record RunClaim : Type 0 where
  pub owner : Option String
  pub state : ClaimState
  pub revision : ℕ

pub record Repository : Type 0 where
  pub proposals : Dict RoutineProposal
  pub runs : Dict RoutineRun
  pub receipts : Dict RoutineReceipt
  pub claims : Dict RunClaim

abbrev pub empty : Repository
empty = record { proposals = []; runs = []; receipts = []; claims = [] }

-- d[k], or KeyError
abbrev pub found {ℓ} : {V : Type ℓ} → String → Option V → Result V
found text none = err (key_error text)
found text (some v) = ok v

unfoldable pub get_proposal : Repository → String → Result RoutineProposal
get_proposal r proposal_id = found "Unknown routine proposal" (Dict.get proposal_id r.proposals)

unfoldable pub save_proposal : RoutineProposal → Repository → Repository
save_proposal p r = record r { proposals = Dict.put p.id p r.proposals }

unfoldable pub proposals_for : Repository → String → List RoutineProposal
proposals_for r routine_id =
    keep (λ (p : RoutineProposal). str_eq p.routine_id routine_id) (Dict.values r.proposals)

-- max(versions of the routine, default=0)
unfoldable pub max_version : String → List RoutineProposal → ℕ
max_version routine_id [] = 0
max_version routine_id (p ∷ ps) =
    let rest = max_version routine_id ps in
    if str_eq p.routine_id routine_id && leb rest p.version then p.version else rest

unfoldable pub next_version : String → Repository → ℕ
unfolding max_version
next_version routine_id r = max_version routine_id (Dict.values r.proposals) + 1

-- the new proposal is built with its version, and stored where that succeeds
stored : Result RoutineProposal → Action Repository RoutineProposal
unfolding save_proposal
stored (err e) r = (err e, r)
stored (ok p) r = (ok p, save_proposal p r)

unfoldable pub create_proposal :
    String → (ℕ → Result RoutineProposal) → Action Repository RoutineProposal
unfolding stored
create_proposal routine_id build r = stored (build (next_version routine_id r)) r

revise_current :
    (RoutineProposal → ℕ → Result RoutineProposal)
    → Result RoutineProposal
    → Action Repository RoutineProposal
unfolding stored
revise_current build (err e) r = (err e, r)
revise_current build (ok current) r =
    if not (is_confirmed current.status)
    then (err (value_error "Only a confirmed routine contract can be revised."), r)
    else stored (build current (next_version current.routine_id r)) r

unfoldable pub revise_proposal :
    String → (RoutineProposal → ℕ → Result RoutineProposal) → Action Repository RoutineProposal
unfolding revise_current
revise_proposal current_id build r = revise_current build (get_proposal r current_id) r

abbrev pub with_status : ProposalStatus → RoutineProposal → RoutineProposal
with_status status p = record p { status = status }

-- a confirmed proposal of the routine other than `proposal`
abbrev pub is_rival : RoutineProposal → RoutineProposal → Bool
is_rival proposal other =
    str_eq other.routine_id proposal.routine_id
    && (not (str_eq other.id proposal.id) && is_confirmed other.status)

-- the loop over the proposals as they were at its start
unfoldable pub supersede_rivals :
    RoutineProposal → List RoutineProposal → Dict RoutineProposal → Dict RoutineProposal
supersede_rivals proposal [] d = d
supersede_rivals proposal (other ∷ others) d = supersede_rivals proposal others (
    if is_rival proposal other
    then Dict.put other.id (with_status ProposalStatus.superseded other) d
    else d)

-- the proposal that the confirmed one names as superseded
unfoldable pub supersede_named :
    Option RoutineProposal → Dict RoutineProposal → Dict RoutineProposal
supersede_named none d = d
supersede_named (some previous) d =
    if is_confirmed previous.status
    then Dict.put previous.id (with_status ProposalStatus.superseded previous) d
    else d

abbrev pub named_by : Option String → Dict RoutineProposal → Option RoutineProposal
named_by none d = none
named_by (some id) d = Dict.get id d

-- the proposals once `proposal` is the confirmed one of its routine
unfoldable pub confirmed_proposals : RoutineProposal → Dict RoutineProposal → Dict RoutineProposal
confirmed_proposals proposal proposals =
    let d = supersede_named (named_by proposal.supersedes_proposal_id proposals) proposals in
    let d' = supersede_rivals proposal (Dict.values d) d in
    Dict.put proposal.id (with_status ProposalStatus.confirmed proposal) d'

confirm_found : Result RoutineProposal → Action Repository RoutineProposal
confirm_found (err e) r = (err e, r)
confirm_found (ok proposal) r =
    if not (is_proposed proposal.status)
    then (err (value_error "Cannot confirm a routine proposal of this status."), r)
    else (
      ok (with_status ProposalStatus.confirmed proposal),
      record r { proposals = confirmed_proposals proposal r.proposals },
    )

unfoldable pub confirm_proposal : String → Action Repository RoutineProposal
unfolding confirm_found
confirm_proposal proposal_id r = confirm_found (get_proposal r proposal_id) r
