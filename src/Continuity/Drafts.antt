-- ===== src/Continuity/Drafts.antt =====
-- ReckoningDraft.validate of continuity.py.
pub mod Complete
use reckoning.Prelude.{
  ℕ, String, Bool, true, false, not, ◌||◌, List, [], ◌∷◌, map, length, ltb, any, is_empty, is_blank,
  distinct, difference, if◌then◌else◌,
}
use reckoning.Prelude.Result.{Result, ok, err, Error, runtime_error, raise_if, ◌>>◌, ◌>>=◌}
use reckoning.Continuity.Records.{
  Evidence, SourcedFact, Inference, MaterialQuestion, PersonalRecordProposal, ReckoningDraft,
}

-- any(item.strip() for item in items)
abbrev pub any_text : List String → Bool
any_text items = any (λ item. not (is_blank item)) items

-- has_meaningful_content
unfoldable pub has_meaningful_content : ReckoningDraft → Bool
has_meaningful_content draft =
    not (is_empty draft.questions)
    || any any_text (draft.matters_now ∷ draft.maintained ∷ draft.parked ∷ draft.uncertainties ∷ [])
    || any (λ (fact : SourcedFact). not (is_blank fact.text)) draft.known
    || any (λ (inference : Inference). not (is_blank inference.text)) draft.inferences

-- a question that does not say what it could change
abbrev pub is_idle : MaterialQuestion → Bool
is_idle question = is_blank question.text || is_blank question.effect_on_recommendation

-- a proposed record without its evidence
abbrev pub is_unsupported : List String → PersonalRecordProposal → Bool
is_unsupported evidence_ids proposal =
    is_blank proposal.meaning
    || is_empty proposal.evidence_ids
    || not (is_empty (difference proposal.evidence_ids evidence_ids))

unfoldable pub validate : ReckoningDraft → Result (Unit {0})
unfolding has_meaningful_content
validate draft = do
  raise_if (ltb 3 (length draft.questions))
      (runtime_error "A first entry cannot ask more than three questions.")
  raise_if (any is_idle draft.questions)
      (runtime_error "Every question must state how it could change the recommendation.")
  raise_if (is_blank draft.conflict) (runtime_error "A first entry must identify the conflict.")
  raise_if (is_blank draft.next_step) (runtime_error "A first entry must end with a next step.")
  raise_if (not (has_meaningful_content draft)) (
      runtime_error
        "A first entry must contain meaningful content or a material clarification question.")
  raise_if
      (any (is_unsupported (map (λ (e : Evidence). e.id) draft.evidence)) draft.proposed_records)
      (runtime_error "Every proposed personal record must name its supporting evidence.")
