-- ===== src/Automation/Service/Starts.antt =====
-- What a run that starts has passed, and that a start made twice is one start.
use reckoning.Prelude.{
  ◌≡◌, ◌⊎◌, refl, ◌∙◌, sym, ap, String, true, false, Option, none, some, List, [], ◌∷◌, arith,
  eq_iff, str_eq, contains, contains→Among, Among, All, any, is_empty, Bool-cases, Option-cases,
  inl, inr,
}
use reckoning.Prelude.Dict
use reckoning.Prelude.Result.{Result, ok, err, ok-injective}
use reckoning.Automation.Records.{
  ProposalStatus, RoutineProposal, RoutineStep, RoutineRun, is_model,
}
use reckoning.Automation.Repository.{Repository, get_proposal, found}
use reckoning.Automation.Claims.{find_run_by_key, start_run}
use reckoning.Automation.Service.{
  start_routine, start_found, start_by_key, start_checked, fresh_run, allows_model, unauthorized,
}

none_unauthorized :
    (p : RoutineProposal) (steps : List RoutineStep)
    → is_empty (unauthorized p steps) ≡ true
    → All (λ (s : RoutineStep). Among s.action p.tools) steps
none_unauthorized p [] h = tt
none_unauthorized p (s ∷ steps) h = elim (Bool-cases (contains p.tools s.action)) [
  | inl granted ↦
      (contains→Among p.tools s.action granted, none_unauthorized p steps (ground arith))
  | inr denied ↦ absurd (ground arith)
]

-- the checks that a new run has passed
abbrev pub HasPassed : RoutineProposal → RoutineRun → Type 0
HasPassed proposal run =
    (is_empty run.steps ≡ false)
    × All (λ (s : RoutineStep). Among s.action proposal.tools) run.steps
    × (any (λ (s : RoutineStep). is_model s.kind) run.steps ≡ true → allows_model proposal ≡ true)

start_checked-passed :
    (proposal : RoutineProposal) (new run : RoutineRun) (r : Repository)
    → (start_checked proposal new r).0 ≡ ok run
    → HasPassed proposal new × ((start_run new r) ≡ start_checked proposal new r)
unfolding start_checked
start_checked-passed proposal new run r e =
    elim (Bool-cases (is_empty (unauthorized proposal new.steps))) [
      | inl none_left ↦ (
        (ground arith, none_unauthorized proposal new.steps none_left, λ m. ground arith),
        ground arith,
      )
      | inr some_left ↦ absurd (ground arith)
    ]

start_by_key-passed :
    (proposal : RoutineProposal) (new run : RoutineRun) (o : Option RoutineRun) (r : Repository)
    → (start_by_key proposal new o r).0 ≡ ok run
    → (o ≡ some run)
      ⊎ ((o ≡ none) × HasPassed proposal new × (start_run new r ≡ start_by_key proposal new o r))
unfolding start_by_key
start_by_key-passed proposal new run (some old) r e = inl (ap some (ok-injective e))
start_by_key-passed proposal new run none r e =
    let (passed, started) = start_checked-passed proposal new run r e in inr (refl, passed, started)

old_or_passed :
    (proposal : RoutineProposal) (new run : RoutineRun) (o : Option RoutineRun) {X : Type 0}
    → (o ≡ some run) ⊎ ((o ≡ none) × HasPassed proposal new × X)
    → (o ≡ some run) ⊎ HasPassed proposal new
old_or_passed proposal new run o (inl old) = inl old
old_or_passed proposal new run o (inr (absent, passed, x)) = inr passed

start_found-passed :
    (proposal : RoutineProposal) (new run : RoutineRun) (by : String) (r : Repository)
    → (start_found (ok proposal) new by r).0 ≡ ok run
    → (proposal.status ≡ ProposalStatus.confirmed)
      × (by ≡ proposal.trigger)
      × (start_by_key proposal new (find_run_by_key r new.idempotency_key) r
          ≡ start_found (ok proposal) new by r)
unfolding start_found
start_found-passed proposal new run by r e =
    (ground arith, ground (arith, eq_iff by proposal.trigger), ground arith)

-- A run that starts belongs to a confirmed proposal and was triggered as the proposal says. It is
-- the run that has its idempotency key already, or it has steps, the actions of all of them are
-- tools of the proposal, and a model step only where the model policy allows one.
pub start_routine-passed :
    (run_id proposal_id at key : String) (steps : List RoutineStep) (by : String) (r : Repository)
    (run : RoutineRun)
    → (start_routine run_id proposal_id at key steps by r).0 ≡ ok run
    → (proposal : RoutineProposal) × (Dict.get proposal_id r.proposals ≡ some proposal)
      × (proposal.status ≡ ProposalStatus.confirmed)
      × (by ≡ proposal.trigger)
      × ((find_run_by_key r key ≡ some run)
          ⊎ HasPassed proposal (fresh_run run_id proposal_id at key steps))
unfolding start_routine get_proposal
start_routine-passed run_id proposal_id at key steps by r run e =
    elim (Option-cases (Dict.get proposal_id r.proposals)) [
      | inl absent ↦ absurd (ground arith)
      | inr (proposal, there) ↦
          let new = fresh_run run_id proposal_id at key steps in
          let (confirmed, triggered, same) = start_found-passed proposal new run by r (
            ap (λ o. (start_found (found "Unknown routine proposal" o) new by r).0) (sym there)
            ∙ e) in
          let started : (start_found (ok proposal) new by r).0 ≡ ok run =
            ap (λ o. (start_found (found "Unknown routine proposal" o) new by r).0) (sym there)
            ∙ e in
          (
            proposal,
            there,
            confirmed,
            triggered,
            old_or_passed proposal new run (find_run_by_key r key) (
                start_by_key-passed proposal new run (find_run_by_key r key) r
                  (ap (λ x. x.0) same ∙ started)),
          )
    ]

start_found-proposals :
    (o : Result RoutineProposal) (new : RoutineRun) (by : String) (r : Repository)
    → (start_found o new by r).1.proposals ≡ r.proposals
unfolding start_found start_run
start_found-proposals (err e) new by r = refl
start_found-proposals (ok p) new by r = ground arith

start_routine-proposals :
    (run_id proposal_id at key : String) (steps : List RoutineStep) (by : String) (r : Repository)
    → (start_routine run_id proposal_id at key steps by r).1.proposals ≡ r.proposals
unfolding start_routine
start_routine-proposals run_id proposal_id at key steps by r = start_found-proposals _ _ by r

start_found-replay :
    (proposal : RoutineProposal) (new run : RoutineRun) (by : String) (r : Repository)
    → proposal.status ≡ ProposalStatus.confirmed
    → by ≡ proposal.trigger
    → find_run_by_key r new.idempotency_key ≡ some run
    → start_found (ok proposal) new by r ≡ (ok run, r)
unfolding start_found
start_found-replay proposal new run by r c t k = ground (arith, eq_iff by proposal.trigger)

start_run-keyed :
    (new run : RoutineRun) (r : Repository)
    → find_run_by_key r new.idempotency_key ≡ none
    → (start_run new r).0 ≡ ok run
    → find_run_by_key (start_run new r).1 new.idempotency_key ≡ some run
unfolding start_run find_run_by_key
start_run-keyed new run r absent e = ground (
  arith,
  eq_iff new.idempotency_key new.idempotency_key,
  Dict.first-put (λ (x : RoutineRun). str_eq x.idempotency_key new.idempotency_key) new.id new
      r.runs,
)

start_found-keyed :
    (o : Result RoutineProposal) (new run : RoutineRun) (by : String) (r : Repository)
    → (start_found o new by r).0 ≡ ok run
    → find_run_by_key (start_found o new by r).1 new.idempotency_key ≡ some run
unfolding start_found start_by_key
start_found-keyed (err x) new run by r e = absurd (cc)
start_found-keyed (ok p) new run by r e =
    let key = new.idempotency_key in
    let (c, t, same) = start_found-passed p new run by r e in
    elim (start_by_key-passed p new run (find_run_by_key r key) r (ap (λ x. x.0) same ∙ e)) [
      | inl old ↦
          ap (λ x. find_run_by_key x.1 key) (sym same)
          ∙ ap (λ o. find_run_by_key (start_by_key p new o r).1 key) old
          ∙ old
      | inr (absent, passed, started) ↦
          ap (λ x. find_run_by_key x.1 key) (sym (started ∙ same))
          ∙ start_run-keyed new run r absent (ap (λ x. x.0) (started ∙ same) ∙ e)
    ]

start_routine-keyed :
    (run_id proposal_id at key : String) (steps : List RoutineStep) (by : String) (r : Repository)
    (run : RoutineRun)
    → (start_routine run_id proposal_id at key steps by r).0 ≡ ok run
    → find_run_by_key (start_routine run_id proposal_id at key steps by r).1 key ≡ some run
unfolding start_routine
start_routine-keyed run_id proposal_id at key steps by r run e = start_found-keyed _ _ run by r e

-- The same start, made again, returns the same run and changes nothing.
pub start_routine-again :
    (run_id proposal_id at key : String) (steps : List RoutineStep) (by : String) (r : Repository)
    (run : RoutineRun)
    → (start_routine run_id proposal_id at key steps by r).0 ≡ ok run
    → let r' = (start_routine run_id proposal_id at key steps by r).1 in
      start_routine run_id proposal_id at key steps by r' ≡ (ok run, r')
unfolding start_routine get_proposal
start_routine-again run_id proposal_id at key steps by r run e =
    let new = fresh_run run_id proposal_id at key steps in
    let r' = (start_routine run_id proposal_id at key steps by r).1 in
    let (proposal, there, confirmed, triggered, either) =
      start_routine-passed run_id proposal_id at key steps by r run e in
    let same : Dict.get proposal_id r'.proposals ≡ some proposal =
      ap (λ d. Dict.get proposal_id d)
        (start_routine-proposals run_id proposal_id at key steps by r)
      ∙ there in
    ap (λ o. start_found (found "Unknown routine proposal" o) new by r') same
    ∙ start_found-replay proposal new run by r' confirmed triggered
        (start_routine-keyed run_id proposal_id at key steps by r run e)
