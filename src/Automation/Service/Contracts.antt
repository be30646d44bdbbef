-- ===== src/Automation/Service/Contracts.antt =====
-- What the service keeps of the proposals, and what a run that starts has passed.
use reckoning.Prelude.{
  ℕ, ◌≡◌, refl, String, Bool, true, false, not, List, [], ◌∷◌, arith, any, is_empty, is_blank, inl,
  inr, pos, ◌≤ℤ◌, if◌then◌else◌,
}
use reckoning.Prelude.Result.{Result, ok, err, Result-cases, ◌>>=◌}
use reckoning.Automation.Records.{RoutineProposal, RoutineContractDraft, is_confirmed}
use reckoning.Automation.Repository.{
  Repository, get_proposal, create_proposal, revise_proposal, next_version,
}
use reckoning.Automation.Repository.Proposals.{revise_cases}
use reckoning.Automation.Repository.Exclusive.{
  IsExclusive, put-IsExclusive, confirm_proposal-IsExclusive,
}
use reckoning.Automation.Service.{
  RoutineChanges, propose, confirm, confirm_checked, revise, checked, revised, proposal_from,
  validate_contract,
}

-- one call that changes the proposals
pub data Operation : Type 0 where
  on_propose : String → String → String → String → RoutineContractDraft → Operation
  on_confirm : String → Operation
  on_revise : String → String → String → RoutineChanges → Operation

unfoldable pub operate : Repository → Operation → Repository
operate r (on_propose id routine_id request created_at draft) =
    (propose id routine_id request created_at draft r).1
operate r (on_confirm id) = (confirm id r).1
operate r (on_revise confirmed_id id created_at changes) =
    (revise confirmed_id id created_at changes r).1

unfoldable pub operate_all : Repository → List Operation → Repository
operate_all r [] = r
operate_all r (o ∷ os) = operate_all (operate r o) os

-- what has been checked is the proposal, and it passed
pub checked-ok :
    (p q : RoutineProposal) → checked p ≡ ok q → (p ≡ q) × (validate_contract p ≡ ok tt)
checked-ok p q h = elim (Result-cases (validate_contract p)) [
  | inl (t, passed) ↦ (ground (arith, passed, h), passed)
  | inr (e, failed) ↦ absurd (ground (arith, failed, h))
]

checked-pending :
    (p q : RoutineProposal)
    → is_confirmed p.status ≡ false
    → checked p ≡ ok q
    → is_confirmed q.status ≡ false
checked-pending p q pending h = rw (← (checked-ok p q h).0) pending

create-IsExclusive :
    (routine_id : String) (build : ℕ → Result RoutineProposal) (r : Repository)
    → ((n : ℕ) (p : RoutineProposal) → build n ≡ ok p → is_confirmed p.status ≡ false)
    → IsExclusive r.proposals
    → IsExclusive (create_proposal routine_id build r).1.proposals
unfolding create_proposal
create-IsExclusive routine_id build r pending h =
    elim (Result-cases (build (next_version routine_id r))) [
      | inl (p, built) ↦ rw built (put-IsExclusive p r.proposals (pending _ p built) h)
      | inr (e, failed) ↦ rw failed h
    ]

revise-IsExclusive :
    (id : String) (build : RoutineProposal → ℕ → Result RoutineProposal) (r : Repository)
    → ((c : RoutineProposal) (n : ℕ) (p : RoutineProposal)
        → build c n ≡ ok p
        → is_confirmed p.status ≡ false)
    → IsExclusive r.proposals
    → IsExclusive (revise_proposal id build r).1.proposals
revise-IsExclusive id build r pending h = elim (revise_cases id build r) [
  | inl same ↦ rw same h
  | inr (c, n, p, built, stored) ↦ rw stored (put-IsExclusive p r.proposals (pending c n p built) h)
]

confirm_checked-IsExclusive :
    (found : Result RoutineProposal) (id : String) (r : Repository)
    → IsExclusive r.proposals
    → IsExclusive (confirm_checked found id r).1.proposals
unfolding confirm_checked
confirm_checked-IsExclusive (err e) id r h = h
confirm_checked-IsExclusive (ok p) id r h = confirm_proposal-IsExclusive id r h

either-IsExclusive :
    (b : Bool) (x y : Result RoutineProposal × Repository)
    → IsExclusive x.1.proposals
    → IsExclusive y.1.proposals
    → IsExclusive (if b then x else y).1.proposals
either-IsExclusive true x y h k = h
either-IsExclusive false x y h k = k

operate-IsExclusive :
    (r : Repository) (o : Operation) → IsExclusive r.proposals → IsExclusive (operate r o).proposals
unfolding operate propose confirm revise
operate-IsExclusive r (on_propose id routine_id request created_at draft) h =
    create-IsExclusive routine_id _ r
      (λ n p built.
        checked-pending (proposal_from id routine_id request created_at draft n) p refl built)
      h
operate-IsExclusive r (on_confirm id) h =
    confirm_checked-IsExclusive (get_proposal r id >>= checked) id r h
operate-IsExclusive r (on_revise confirmed_id id created_at changes) h =
    either-IsExclusive (not (is_empty changes.unknown)) _ _ h (
      revise-IsExclusive confirmed_id _ r
        (λ c n p built. checked-pending (revised changes id created_at c n) p refl built) h)

-- Whatever contracts are proposed, confirmed and revised, in whatever order and with whatever
-- result, no two confirmed proposals are of one routine, and each proposal stands under its own
-- id.
pub operate_all-IsExclusive :
    (r : Repository) (os : List Operation)
    → IsExclusive r.proposals
    → IsExclusive (operate_all r os).proposals
unfolding operate_all
operate_all-IsExclusive r [] h = h
operate_all-IsExclusive r (o ∷ os) h =
    operate_all-IsExclusive (operate r o) os (operate-IsExclusive r o h)

-- what a contract is that the service stores
pub record IsContract (p : RoutineProposal) : Type 0 where
  pub routine_id : is_blank p.routine_id ≡ false
  pub source_request : is_blank p.source_request ≡ false
  pub trigger : is_blank p.trigger ≡ false
  pub delivery : is_blank p.delivery ≡ false
  pub model_policy : is_blank p.model_policy ≡ false
  pub delegation_policy : is_blank p.delegation_policy ≡ false
  pub failure_behavior : is_blank p.failure_behavior ≡ false
  pub source_scope : any is_blank p.source_scope ≡ false
  pub context_scope : any is_blank p.context_scope ≡ false
  pub tools : any is_blank p.tools ≡ false
  pub permissions : any is_blank p.permissions ≡ false
  pub cost_ceiling : pos 0 ≤ℤ p.cost_ceiling
  pub retry_limit : pos 0 ≤ℤ p.retry_limit

pub validate_contract-IsContract :
    (p : RoutineProposal) → validate_contract p ≡ ok tt → IsContract p
unfolding validate_contract
validate_contract-IsContract p h = ground arith
