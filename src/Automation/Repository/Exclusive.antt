-- ===== src/Automation/Repository/Exclusive.antt =====
-- At most one proposal of a routine is confirmed, whatever is created, revised and confirmed.
use reckoning.Prelude.{
  ◌≡◌, ◌≢◌, ◌⊎◌, refl, ◌∙◌, sym, ap, subst, String, Bool, false, Option, none, some, List, [], ◌∷◌,
  arith, eq_iff, str_eq, Bool-cases, inl, inr,
}
use reckoning.Prelude.Dict
use reckoning.Prelude.Dict.{Dict}
use reckoning.Prelude.Result.{ok, Result-cases}
use reckoning.Automation.Records.{ProposalStatus, RoutineProposal, is_confirmed}
use reckoning.Automation.Repository.{
  Repository, with_status, is_rival, supersede_rivals, supersede_named, named_by,
  confirmed_proposals, confirm_proposal,
}
use reckoning.Automation.Repository.Proposals.{
  IsKeyed, put-IsKeyed, confirmed_proposals-IsKeyed, confirmed_proposals-others,
  confirm_proposal_found, confirm_proposal_raised,
}

abbrev is_confirmed_entry : Option RoutineProposal → Bool
is_confirmed_entry none = false
is_confirmed_entry (some p) = is_confirmed p.status

-- an entry after an operation: as it was before, or not confirmed
abbrev Kept : Option RoutineProposal → Option RoutineProposal → Type 0
Kept before after = (after ≡ before) ⊎ (is_confirmed_entry after ≡ false)

Kept-trans : (a b c : Option RoutineProposal) → Kept a b → Kept b c → Kept a c
Kept-trans a b c (inl e) (inl f) = inl (f ∙ e)
Kept-trans a b c (inr e) (inl f) = inr (rw f e)
Kept-trans a b c h (inr f) = inr f

put-Kept :
    (j k : String) (p : RoutineProposal) (d : Dict RoutineProposal)
    → is_confirmed p.status ≡ false
    → Kept (Dict.get k d) (Dict.get k (Dict.put j p d))
put-Kept j k p d h = elim (Bool-cases (str_eq j k)) [
  | inl e ↦ inr (rw Dict.get-put (rw e h))
  | inr e ↦ inl (rw Dict.get-put (rw e))
]

supersede_rivals-Kept :
    (proposal : RoutineProposal) (others : List RoutineProposal) (d : Dict RoutineProposal)
    (k : String)
    → Kept (Dict.get k d) (Dict.get k (supersede_rivals proposal others d))
unfolding supersede_rivals
supersede_rivals-Kept proposal [] d k = inl refl
supersede_rivals-Kept proposal (o ∷ others) d k = elim (Bool-cases (is_rival proposal o)) [
  | inl e ↦ rw e (
      Kept-trans _ _ _ (put-Kept o.id k (with_status ProposalStatus.superseded o) d refl)
        (supersede_rivals-Kept proposal others _ k))
  | inr e ↦ rw e (supersede_rivals-Kept proposal others d k)
]

supersede_named-Kept :
    (o : Option RoutineProposal) (d : Dict RoutineProposal) (k : String)
    → Kept (Dict.get k d) (Dict.get k (supersede_named o d))
unfolding supersede_named
supersede_named-Kept none d k = inl refl
supersede_named-Kept (some p) d k = elim (Bool-cases (is_confirmed p.status)) [
  | inl e ↦ rw e (put-Kept p.id k (with_status ProposalStatus.superseded p) d refl)
  | inr e ↦ rw e (inl refl)
]

confirmed_proposals-Kept :
    (proposal : RoutineProposal) (d : Dict RoutineProposal) (k : String)
    → k ≢ proposal.id
    → Kept (Dict.get k d) (Dict.get k (confirmed_proposals proposal d))
unfolding confirmed_proposals
confirmed_proposals-Kept proposal d k other =
    rw (Dict.get-put_ne proposal.id k _ _ (λ e. other (sym e)))
      (Kept-trans _ _ _ (supersede_named-Kept _ d k) (supersede_rivals-Kept proposal _ _ k))

-- Each proposal stands under its id, and no two confirmed proposals are of one routine.
pub record IsExclusive (d : Dict RoutineProposal) : Type 0 where
  pub keyed : IsKeyed d
  pub one :
      (k j : String) (p q : RoutineProposal)
      → Dict.get k d ≡ some p
      → Dict.get j d ≡ some q
      → p.status ≡ ProposalStatus.confirmed
      → q.status ≡ ProposalStatus.confirmed
      → p.routine_id ≡ q.routine_id
      → k ≡ j

-- storing a proposal that is not confirmed
pub put-IsExclusive :
    (p : RoutineProposal) (d : Dict RoutineProposal)
    → is_confirmed p.status ≡ false
    → IsExclusive d
    → IsExclusive (Dict.put p.id p d)
put-IsExclusive p d pending h = record {
  keyed = put-IsKeyed p d h.keyed;
  one = λ k j a b ka jb ca cb same.
      ground (arith, Dict.get-put p.id k p d, Dict.get-put p.id j p d, h.one k j a b);
}

module _ (proposal : RoutineProposal) (d : Dict RoutineProposal) (h : IsExclusive d) where
  -- a confirmed entry other than the new one was confirmed before
  confirmed_before :
      (k : String) (p : RoutineProposal)
      → k ≢ proposal.id
      → Dict.get k (confirmed_proposals proposal d) ≡ some p
      → p.status ≡ ProposalStatus.confirmed
      → Dict.get k d ≡ some p
  confirmed_before k p other there c = elim (confirmed_proposals-Kept proposal d k other) [
    | inl same ↦ sym same ∙ there
    | inr weak ↦ absurd (ground (arith, c, there))
  ]

  -- the new confirmed proposal is alone in its routine
  alone :
      (k j : String) (p q : RoutineProposal)
      → k ≡ proposal.id
      → j ≢ proposal.id
      → Dict.get k (confirmed_proposals proposal d) ≡ some p
      → Dict.get j (confirmed_proposals proposal d) ≡ some q
      → q.status ≡ ProposalStatus.confirmed
      → p.routine_id ≡ q.routine_id
      → ⊥
  unfolding confirmed_proposals
  alone k j p q e other kp jq c same = ground (
    arith,
    confirmed_proposals-others proposal d j h.keyed other,
    eq_iff q.routine_id proposal.routine_id,
    Dict.get-put_self proposal.id (with_status ProposalStatus.confirmed proposal) (
        supersede_rivals proposal
          (Dict.values (supersede_named (named_by proposal.supersedes_proposal_id d) d))
          (supersede_named (named_by proposal.supersedes_proposal_id d) d)),
  )

  pub confirmed_proposals-IsExclusive : IsExclusive (confirmed_proposals proposal d)
  confirmed_proposals-IsExclusive = record {
    keyed = confirmed_proposals-IsKeyed proposal d h.keyed;
    one = λ k j p q kp jq cp cq same. elim (Bool-cases (str_eq k proposal.id)) [
      | inl k_new ↦ elim (Bool-cases (str_eq j proposal.id)) [
        | inl j_new ↦ (eq_iff k proposal.id).0 k_new ∙ sym ((eq_iff j proposal.id).0 j_new)
        | inr j_old ↦
            absurd
              (alone k j p q ((eq_iff k proposal.id).0 k_new) (ne_of_false j j_old) kp jq cq same)
      ]
      | inr k_old ↦ elim (Bool-cases (str_eq j proposal.id)) [
        | inl j_new ↦ absurd (
            alone j k q p ((eq_iff j proposal.id).0 j_new) (ne_of_false k k_old) jq kp cp
              (sym same))
        | inr j_old ↦
            h.one k j p q (confirmed_before k p (ne_of_false k k_old) kp cp)
              (confirmed_before j q (ne_of_false j j_old) jq cq) cp cq same
      ]
    ];
  }
    where
      ne_of_false : (s : String) → str_eq s proposal.id ≡ false → s ≢ proposal.id
      ne_of_false s e = λ p. ground (arith, eq_iff s proposal.id)

-- Confirming a proposal, whether it returns or raises, leaves at most one confirmed proposal a
-- routine, each under its own id.
pub confirm_proposal-IsExclusive :
    (id : String) (r : Repository)
    → IsExclusive r.proposals
    → IsExclusive (confirm_proposal id r).1.proposals
confirm_proposal-IsExclusive id r h = elim (Result-cases (confirm_proposal id r).0) [
  | inl (p, returned) ↦
      let (proposal, there, pending, same, after) = confirm_proposal_found id r p returned in
      rw after (confirmed_proposals-IsExclusive proposal r.proposals h)
  | inr (e, raised) ↦ rw (confirm_proposal_raised id r e raised) h
]

restored :
    (proposal p : RoutineProposal)
    → proposal.status ≡ ProposalStatus.proposed
    → p ≡ with_status ProposalStatus.confirmed proposal
    → proposal ≡ with_status ProposalStatus.proposed p
restored proposal p pending same = ground arith

confirmed_proposals_self :
    (proposal : RoutineProposal) (d : Dict RoutineProposal)
    → Dict.get proposal.id (confirmed_proposals proposal d)
      ≡ some (with_status ProposalStatus.confirmed proposal)
unfolding confirmed_proposals
confirmed_proposals_self proposal d = Dict.get-put_self proposal.id _ _

-- A confirmation that returns has found a proposed contract under the id, which is now confirmed
-- and is otherwise unchanged, and no other proposal of its routine is confirmed.
pub confirm_proposal-confirms :
    (id : String) (r : Repository) (p : RoutineProposal)
    → IsExclusive r.proposals
    → (confirm_proposal id r).0 ≡ ok p
    → (Dict.get id r.proposals ≡ some (with_status ProposalStatus.proposed p))
      × (Dict.get id (confirm_proposal id r).1.proposals ≡ some p)
      × (p.status ≡ ProposalStatus.confirmed)
      × ((k : String) (q : RoutineProposal)
          → Dict.get k (confirm_proposal id r).1.proposals ≡ some q
          → q.status ≡ ProposalStatus.confirmed
          → q.routine_id ≡ p.routine_id
          → k ≡ id)
confirm_proposal-confirms id r p h e =
    let (proposal, there, pending, same, after) = confirm_proposal_found id r p e in
    let own : proposal.id ≡ id = h.keyed.own_id id proposal there in
    let stands : Dict.get id (confirm_proposal id r).1.proposals ≡ some p = rw after (
      subst (λ k. Dict.get k (confirmed_proposals proposal r.proposals) ≡ some p) own
        (confirmed_proposals_self proposal r.proposals ∙ ap some (sym same))) in
    (
      there ∙ ap some (restored proposal p pending same),
      stands,
      ap (λ (q : RoutineProposal). q.status) same,
      λ k q there' c routine.
          (confirm_proposal-IsExclusive id r h).one k id q p there' stands c
            (ap (λ (q : RoutineProposal). q.status) same) routine,
    )
