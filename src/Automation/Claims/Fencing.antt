-- ===== src/Automation/Claims/Fencing.antt =====
-- The claims as a state machine: who may write a run, and who never may again.
use reckoning.Prelude.{
  ℕ, ◌+◌, ◌≤◌, ◌<◌, ◌≡◌, ◌≢◌, refl, String, Option, none, some, List, [], ◌∷◌, arith, eq_iff, ◌==◌,
  Bool-cases, inl, inr,
}
use reckoning.Prelude.Dict
use reckoning.Prelude.Result.{ok, err, Error, conflict}
use reckoning.Automation.Records.{RoutineRun, RoutineReceipt}
use reckoning.Automation.Repository.{Repository, RunClaim, ClaimState, unclaimed, finalized}
use reckoning.Automation.Claims.{
  start_run, claim_run, release_run, recover_run, save_run_progress, finalize_run, owned_by,
  progress_found, recover_found,
}

-- one call of a worker on the claims of the runs
pub data Call : Type 0 where
  on_start : RoutineRun → Call
  on_claim : String → String → Call
  on_release : String → String → Call
  on_recover : String → ℕ → String → Call
  on_progress : RoutineRun → String → ℕ → Call
  on_finalize : RoutineRun → RoutineReceipt → String → ℕ → Call

-- the repository after the call, whether it returned or raised
unfoldable pub step : Repository → Call → Repository
step r (on_start run) = (start_run run r).1
step r (on_claim id owner) = (claim_run id owner r).1
step r (on_release id owner) = release_run id owner r
step r (on_recover id expected owner) = (recover_run id expected owner r).1
step r (on_progress run owner expected) = (save_run_progress run owner expected r).1
step r (on_finalize run receipt owner expected) = (finalize_run run receipt owner expected r).1

unfoldable pub steps : Repository → List Call → Repository
steps r [] = r
steps r (c ∷ cs) = steps (step r c) cs

abbrev revision_of : Option RunClaim → ℕ
revision_of none = 0
revision_of (some held) = held.revision

-- the revision of the claim on a run, 0 where it has none
abbrev pub revision : Repository → String → ℕ
revision r id = revision_of (Dict.get id r.claims)

-- every claim is on a stored run
pub record HasRuns (r : Repository) : Type 0 where
  pub unclaimed_if_absent : (id : String) → Dict.get id r.runs ≡ none → Dict.get id r.claims ≡ none

ruleset claim_rules = (arith, Dict.get-put, eq_iff)

step-HasRuns : (r : Repository) (c : Call) → HasRuns r → HasRuns (step r c)
unfolding step start_run claim_run release_run recover_run save_run_progress finalize_run
step-HasRuns r (on_start run) h = record {
  unclaimed_if_absent = λ id a. grind (claim_rules, h.unclaimed_if_absent);
}
step-HasRuns r _ h = record {
  unclaimed_if_absent = λ id a. grind (claim_rules, h.unclaimed_if_absent);
}

-- every call leaves each claim on a stored run
pub steps-HasRuns : (r : Repository) (cs : List Call) → HasRuns r → HasRuns (steps r cs)
unfolding steps
steps-HasRuns r [] h = h
steps-HasRuns r (c ∷ cs) h = steps-HasRuns (step r c) cs (step-HasRuns r c h)

start-revision :
    (r : Repository) (run : RoutineRun) (id : String)
    → HasRuns r
    → revision r id ≤ revision (start_run run r).1 id
unfolding start_run
start-revision r run id h = grind (claim_rules, h.unclaimed_if_absent)

step-revision-le :
    (r : Repository) (c : Call) (id : String) → HasRuns r → revision r id ≤ revision (step r c) id
unfolding step claim_run release_run recover_run save_run_progress finalize_run
step-revision-le r (on_start run) id h = start-revision r run id h
step-revision-le r _ id h = grind claim_rules

steps-revision-le :
    (r : Repository) (cs : List Call) (id : String)
    → HasRuns r
    → revision r id ≤ revision (steps r cs) id
unfolding steps
steps-revision-le r [] id h = omega arith
steps-revision-le r (c ∷ cs) id h =
    omega
      (arith, step-revision-le r c id h, steps-revision-le (step r c) cs id (step-HasRuns r c h))

progress_found-stale :
    (run : RoutineRun) (owner : String) (expected : ℕ) (o : Option RunClaim) (r : Repository)
    → expected < revision_of o
    → (e : Error) × (progress_found run owner expected o r ≡ (err e, r))
unfolding progress_found
progress_found-stale run owner expected none r h = (_, refl)
progress_found-stale run owner expected (some held) r h =
    elim (Bool-cases (owned_by held.owner owner)) [
      | inl own ↦ (conflict "Routine run changed from the expected revision.", ground arith)
      | inr other ↦ (conflict "Routine run is owned by another worker.", ground arith)
    ]

-- a write under a revision that is behind the claim's raises and changes nothing
stale_write :
    (r : Repository) (run : RoutineRun) (owner : String) (expected : ℕ)
    → expected < revision r run.id
    → (e : Error) × (save_run_progress run owner expected r ≡ (err e, r))
unfolding save_run_progress
stale_write r run owner expected h =
    progress_found-stale run owner expected (Dict.get run.id r.claims) r h

stale_finalize :
    (r : Repository) (run : RoutineRun) (receipt : RoutineReceipt) (owner : String) (expected : ℕ)
    → expected < revision r run.id
    → (e : Error) × (finalize_run run receipt owner expected r ≡ (err e, r))
unfolding finalize_run
stale_finalize r run receipt owner expected h =
    let (e, refused) = stale_write r run owner expected h in (e, rw refused)

recover-revision :
    (r : Repository) (id owner : String) (expected n : ℕ)
    → (recover_run id expected owner r).0 ≡ ok n
    → (n ≡ expected + 1) × (revision (recover_run id expected owner r).1 id ≡ n)
unfolding recover_run
recover-revision r id owner expected n h = grind claim_rules

-- After a run has been recovered at a revision, and whatever calls follow, no write under that
-- revision or an earlier one succeeds, whoever makes it: it raises and leaves the repository as it
-- is, and so does a finalization. A worker that lost its run by a recovery never writes it again.
pub recovered_fences :
    (r : Repository) (id new_owner owner : String) (expected stale n : ℕ) (cs : List Call)
    (run : RoutineRun) (receipt : RoutineReceipt)
    → HasRuns r
    → (recover_run id expected new_owner r).0 ≡ ok n
    → stale ≤ expected
    → run.id ≡ id
    → let later = steps (recover_run id expected new_owner r).1 cs in
      ((e : Error) × (save_run_progress run owner stale later ≡ (err e, later)))
      × ((e : Error) × (finalize_run run receipt owner stale later ≡ (err e, later)))
recovered_fences r id new_owner owner expected stale n cs run receipt h recovered old same =
    let r' = (recover_run id expected new_owner r).1 in
    let later = steps r' cs in
    let runs : HasRuns r' = unfold step in step-HasRuns r (on_recover id expected new_owner) h in
    let behind : stale < revision later run.id = rw same (
      omega (
        arith,
        recover-revision r id new_owner expected n recovered,
        steps-revision-le r' cs id runs,
      )) in
    (stale_write later run owner stale behind, stale_finalize later run receipt owner stale behind)

abbrev state_of : Option RunClaim → ClaimState
state_of none = unclaimed
state_of (some held) = held.state

-- the state of the claim on a run
abbrev pub claim_state : Repository → String → ClaimState
claim_state r id = state_of (Dict.get id r.claims)

step-finalized :
    (r : Repository) (c : Call) (id : String)
    → HasRuns r
    → claim_state r id ≡ finalized
    → claim_state (step r c) id ≡ finalized
unfolding step start_run claim_run release_run recover_run save_run_progress finalize_run
step-finalized r (on_start run) id h f = grind (claim_rules, h.unclaimed_if_absent)
step-finalized r _ id h f = grind claim_rules

steps-finalized :
    (r : Repository) (cs : List Call) (id : String)
    → HasRuns r
    → claim_state r id ≡ finalized
    → claim_state (steps r cs) id ≡ finalized
unfolding steps
steps-finalized r [] id h f = f
steps-finalized r (c ∷ cs) id h f =
    steps-finalized (step r c) cs id (step-HasRuns r c h) (step-finalized r c id h f)

finalize-state :
    (r : Repository) (run : RoutineRun) (receipt : RoutineReceipt) (owner : String) (expected n : ℕ)
    → (finalize_run run receipt owner expected r).0 ≡ ok n
    → claim_state (finalize_run run receipt owner expected r).1 run.id ≡ finalized
unfolding finalize_run save_run_progress
finalize-state r run receipt owner expected n h = grind claim_rules

claim-finalized :
    (r : Repository) (id owner : String)
    → claim_state r id ≡ finalized
    → claim_run id owner r ≡ (err (conflict "Routine run is already finalized."), r)
unfolding claim_run
claim-finalized r id owner f = ground arith

recover_found-finalized :
    (id : String) (expected : ℕ) (owner : String) (o : Option RunClaim) (r : Repository)
    → state_of o ≡ finalized
    → (e : Error) × (recover_found id expected owner o r ≡ (err e, r))
unfolding recover_found
recover_found-finalized id expected owner none r f = absurd (cc)
recover_found-finalized id expected owner (some held) r f =
    elim (Bool-cases (held.revision == expected)) [
      | inl same ↦ (conflict "Routine run is already finalized.", ground arith)
      | inr apart ↦ (conflict "Routine run changed from the expected revision.", ground arith)
    ]

recover-finalized :
    (r : Repository) (id owner : String) (expected : ℕ)
    → claim_state r id ≡ finalized
    → (e : Error) × (recover_run id expected owner r ≡ (err e, r))
unfolding recover_run
recover-finalized r id owner expected f =
    recover_found-finalized id expected owner (Dict.get id r.claims) r f

-- Once a run is finalized, and whatever calls follow, nobody can claim it and nobody can recover
-- it: both raise and leave the repository as it is.
pub finalized_forever :
    (r : Repository) (run : RoutineRun) (receipt : RoutineReceipt) (owner next : String)
    (expected n seen : ℕ) (cs : List Call)
    → HasRuns r
    → (finalize_run run receipt owner expected r).0 ≡ ok n
    → let later = steps (finalize_run run receipt owner expected r).1 cs in
      (claim_run run.id next later ≡ (err (conflict "Routine run is already finalized."), later))
      × ((e : Error) × (recover_run run.id seen next later ≡ (err e, later)))
finalized_forever r run receipt owner next expected n seen cs h done =
    let r' = (finalize_run run receipt owner expected r).1 in
    let runs : HasRuns r' =
      unfold step in step-HasRuns r (on_finalize run receipt owner expected) h in
    let final =
      steps-finalized r' cs run.id runs (finalize-state r run receipt owner expected n done) in
    (
      claim-finalized (steps r' cs) run.id next final,
      recover-finalized (steps r' cs) run.id next seen final,
    )

-- While a worker holds a run that it has claimed, nobody else can claim it.
pub claim_excludes :
    (r : Repository) (id owner other : String) (n : ℕ)
    → (claim_run id owner r).0 ≡ ok n
    → owner ≢ other
    → claim_run id other (claim_run id owner r).1
      ≡ (err (conflict "Routine run is claimed by another worker."), (claim_run id owner r).1)
unfolding claim_run
claim_excludes r id owner other n h apart = grind (claim_rules)
