-- ===== src/Automation/Repository/Proposals.antt =====
-- Confirming, revising and creating routine proposals: one confirmed contract a routine.
use reckoning.Prelude.{
  ℕ, ◌≡◌, ◌≢◌, ◌⊎◌, refl, sym, String, Bool, true, false, ◌&&◌, Option, none, some, List, [], ◌∷◌,
  arith, eq_iff, str_eq, Among, Bool-cases, Option-cases, inl, inr,
}
use reckoning.Prelude.Dict
use reckoning.Prelude.Dict.{Dict}
use reckoning.Prelude.Result.{Result, ok, err, Error, Result-cases}
use reckoning.Automation.Records.{ProposalStatus, RoutineProposal, is_confirmed}
use reckoning.Automation.Repository.{
  Repository, get_proposal, next_version, revise_current, revise_proposal, with_status, is_rival,
  supersede_rivals, supersede_named, confirm_found, confirmed_proposals, confirm_proposal,
}

-- each proposal stands under its own id
pub record IsKeyed (d : Dict RoutineProposal) : Type 0 where
  pub own_id : (k : String) (p : RoutineProposal) → Dict.get k d ≡ some p → p.id ≡ k

-- the entry at `k` is a confirmed proposal of the routine
abbrev pub is_live : String → Option RoutineProposal → Bool
is_live routine_id none = false
is_live routine_id (some p) = str_eq p.routine_id routine_id && is_confirmed p.status

ruleset dict_rules = (arith, Dict.get-put, eq_iff)

pub put-IsKeyed :
    (p : RoutineProposal) (d : Dict RoutineProposal) → IsKeyed d → IsKeyed (Dict.put p.id p d)
put-IsKeyed p d h = record { own_id = λ k q e. grind (dict_rules, h.own_id) }

-- a rival that has been superseded is not live again
supersede_rivals-dead :
    (proposal : RoutineProposal) (others : List RoutineProposal) (d : Dict RoutineProposal)
    (k : String)
    → is_live proposal.routine_id (Dict.get k d) ≡ false
    → is_live proposal.routine_id (Dict.get k (supersede_rivals proposal others d)) ≡ false
unfolding supersede_rivals
supersede_rivals-dead proposal [] d k h = h
supersede_rivals-dead proposal (o ∷ others) d k h =
    supersede_rivals-dead proposal others _ k (
      ground
        (arith, Dict.get-put o.id k (with_status ProposalStatus.superseded o) d, eq_iff o.id k))

supersede_rivals-kills :
    (proposal : RoutineProposal) (others : List RoutineProposal) (d : Dict RoutineProposal)
    (p : RoutineProposal)
    → Among p others
    → is_rival proposal p ≡ true
    → is_live proposal.routine_id (Dict.get p.id (supersede_rivals proposal others d)) ≡ false
unfolding supersede_rivals
supersede_rivals-kills proposal [] d p m r = absurd m
supersede_rivals-kills proposal (o ∷ others) d p (inl e) r =
    let rival : is_rival proposal o ≡ true = rw e at r in
    supersede_rivals-dead proposal others _ p.id (
      rw e (
        ground (
          arith,
          Dict.get-put o.id o.id (with_status ProposalStatus.superseded o) d,
          eq_iff o.id o.id,
        )))
supersede_rivals-kills proposal (o ∷ others) d p (inr m) r =
    supersede_rivals-kills proposal others _ p m r

supersede_rivals-IsKeyed :
    (proposal : RoutineProposal) (others : List RoutineProposal) (d : Dict RoutineProposal)
    → IsKeyed d
    → IsKeyed (supersede_rivals proposal others d)
unfolding supersede_rivals
supersede_rivals-IsKeyed proposal [] d h = h
supersede_rivals-IsKeyed proposal (o ∷ others) d h = elim (Bool-cases (is_rival proposal o)) [
  | inl e ↦
      supersede_rivals-IsKeyed proposal others _
        (rw e (put-IsKeyed (with_status ProposalStatus.superseded o) d h))
  | inr e ↦ supersede_rivals-IsKeyed proposal others _ (rw e h)
]

supersede_named-IsKeyed :
    (o : Option RoutineProposal) (d : Dict RoutineProposal)
    → IsKeyed d
    → IsKeyed (supersede_named o d)
unfolding supersede_named
supersede_named-IsKeyed none d h = h
supersede_named-IsKeyed (some p) d h = elim (Bool-cases (is_confirmed p.status)) [
  | inl e ↦ rw e (put-IsKeyed (with_status ProposalStatus.superseded p) d h)
  | inr e ↦ rw e h
]

-- after the loop over all proposals no other proposal of the routine is live
supersede_rivals-all :
    (proposal : RoutineProposal) (d : Dict RoutineProposal) (k : String)
    → IsKeyed d
    → k ≢ proposal.id
    → is_live proposal.routine_id (Dict.get k (supersede_rivals proposal (Dict.values d) d)) ≡ false
supersede_rivals-all proposal d k h other = elim (Option-cases (Dict.get k d)) [
  | inl absent ↦ supersede_rivals-dead proposal (Dict.values d) d k (rw absent)
  | inr (p, there) ↦ elim (Bool-cases (is_rival proposal p)) [
    | inl rival ↦
        rw (h.own_id k p there) at
          (supersede_rivals-kills proposal (Dict.values d) d p (Dict.get-values k p d there) rival)
    | inr tame ↦
        supersede_rivals-dead proposal (Dict.values d) d k
          (ground (arith, h.own_id k p there, eq_iff p.id proposal.id))
  ]
]

pub confirmed_proposals-IsKeyed :
    (proposal : RoutineProposal) (d : Dict RoutineProposal)
    → IsKeyed d
    → IsKeyed (confirmed_proposals proposal d)
unfolding confirmed_proposals
confirmed_proposals-IsKeyed proposal d h =
    put-IsKeyed (with_status ProposalStatus.confirmed proposal) _
      (supersede_rivals-IsKeyed proposal _ _ (supersede_named-IsKeyed _ d h))

pub confirmed_proposals-others :
    (proposal : RoutineProposal) (d : Dict RoutineProposal) (k : String)
    → IsKeyed d
    → k ≢ proposal.id
    → is_live proposal.routine_id (Dict.get k (confirmed_proposals proposal d)) ≡ false
unfolding confirmed_proposals
confirmed_proposals-others proposal d k h other =
    rw (Dict.get-put_ne proposal.id k _ _ (λ e. other (sym e)))
      (supersede_rivals-all proposal _ k (supersede_named-IsKeyed _ d h) other)

-- the proposal that is confirmed was there, as a proposed one
pub confirm_proposal_found :
    (id : String) (r : Repository) (p : RoutineProposal)
    → (confirm_proposal id r).0 ≡ ok p
    → (proposal : RoutineProposal) × (Dict.get id r.proposals ≡ some proposal)
      × (proposal.status ≡ ProposalStatus.proposed)
      × (p ≡ with_status ProposalStatus.confirmed proposal)
      × ((confirm_proposal id r).1.proposals ≡ confirmed_proposals proposal r.proposals)
unfolding confirm_proposal confirm_found get_proposal
confirm_proposal_found id r p e = elim (Option-cases (Dict.get id r.proposals)) [
  | inl absent ↦ absurd (ground arith)
  | inr (proposal, there) ↦ (proposal, there, ground arith, ground arith, ground arith)
]

-- a confirmation that raises changes nothing
pub confirm_proposal_raised :
    (id : String) (r : Repository) (e : Error)
    → (confirm_proposal id r).0 ≡ err e
    → (confirm_proposal id r).1 ≡ r
unfolding confirm_proposal confirm_found get_proposal
confirm_proposal_raised id r e h = ground arith

revise_found_cases :
    (build : RoutineProposal → ℕ → Result RoutineProposal) (o : Result RoutineProposal)
    (r : Repository)
    → ((revise_current build o r).1 ≡ r)
      ⊎ ((current : RoutineProposal) × (n : ℕ) × (p : RoutineProposal) × (build current n ≡ ok p)
          × ((revise_current build o r).1.proposals ≡ Dict.put p.id p r.proposals))
unfolding revise_current
revise_found_cases build (err e) r = inl refl
revise_found_cases build (ok current) r = elim (Bool-cases (is_confirmed current.status)) [
  | inr other ↦ inl (rw other)
  | inl confirmed ↦ elim (Result-cases (build current (next_version current.routine_id r))) [
    | inl (p, built) ↦
        inr (current, next_version current.routine_id r, p, built, rw (confirmed, built))
    | inr (e, failed) ↦ inl (rw (confirmed, failed))
  ]
]

-- a revision raises and changes nothing, or stores what was built from the confirmed proposal
pub revise_cases :
    (id : String) (build : RoutineProposal → ℕ → Result RoutineProposal) (r : Repository)
    → ((revise_proposal id build r).1 ≡ r)
      ⊎ ((current : RoutineProposal) × (n : ℕ) × (p : RoutineProposal) × (build current n ≡ ok p)
          × ((revise_proposal id build r).1.proposals ≡ Dict.put p.id p r.proposals))
unfolding revise_proposal get_proposal
revise_cases id build r = revise_found_cases build (get_proposal r id) r
