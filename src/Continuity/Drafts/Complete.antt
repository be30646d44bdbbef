-- ===== src/Continuity/Drafts/Complete.antt =====
-- What a draft is that passes its check.
use reckoning.Prelude.{
  ◌≤◌, ◌≡◌, ◌↔◌, ◌⊎◌, refl, ap, sym, ◌∙◌, String, Bool, true, false, not, ◌||◌, List, [], ◌∷◌, ◌++◌,
  map, length, arith, any, is_empty, is_blank, All, Among, Bool-cases, inl, inr,
}
use reckoning.Prelude.Sets.{Within, difference-is_empty_iff}
use reckoning.Prelude.Result.{ok}
use reckoning.Continuity.Records.{
  Evidence, SourcedFact, Inference, MaterialQuestion, PersonalRecordProposal, ReckoningDraft,
}
use reckoning.Continuity.Drafts.{
  any_text, has_meaningful_content, is_idle, is_unsupported, validate,
}

-- the texts after the four lists
abbrev pub last_texts : ReckoningDraft → List String
last_texts draft =
    map (λ (f : SourcedFact). f.text) draft.known
    ++ map (λ (i : Inference). i.text) draft.inferences

-- the texts of a draft that may carry meaning
abbrev pub texts : ReckoningDraft → List String
texts draft =
    draft.matters_now
    ++ (draft.maintained ++ (draft.parked ++ (draft.uncertainties ++ last_texts draft)))

any_text-append : (xs ys : List String) → any_text (xs ++ ys) ≡ (any_text xs || any_text ys)
any_text-append [] ys = refl
any_text-append (x ∷ xs) ys = ground (arith, any_text-append xs ys)

any_text-map :
    {A : Type 0} (f : A → String) (xs : List A)
    → any_text (map f xs) ≡ any (λ x. not (is_blank (f x))) xs
any_text-map f [] = refl
any_text-map f (x ∷ xs) = ground (arith, any_text-map f xs)

any_text→Among :
    (xs : List String) → any_text xs ≡ true → (t : String) × Among t xs × (is_blank t ≡ false)
any_text→Among [] h = absurd (ground arith)
any_text→Among (x ∷ xs) h = elim (Bool-cases (is_blank x)) [
  | inl blank ↦ let (t, there, filled) = any_text→Among xs (ground arith) in (t, inr there, filled)
  | inr filled ↦ (x, inl refl, filled)
]

Among→any_text :
    (xs : List String) (t : String) → Among t xs → is_blank t ≡ false → any_text xs ≡ true
Among→any_text [] t m h = absurd m
Among→any_text (x ∷ xs) t (inl e) h = ground (arith, ap is_blank e)
Among→any_text (x ∷ xs) t (inr m) h = ground (arith, Among→any_text xs t m h)

regrouped :
    (q a b c d e f : Bool)
    → (q || (a || (b || (c || (d || false)))) || e || f)
      ≡ (q || (a || (b || (c || (d || (e || f))))))
regrouped true a b c d e f = refl
regrouped false true b c d e f = refl
regrouped false false true c d e f = refl
regrouped false false false true d e f = refl
regrouped false false false false true e f = refl
regrouped false false false false false e f = refl

any_text-last_texts :
    (draft : ReckoningDraft)
    → any_text (last_texts draft) ≡ (
        any (λ (fact : SourcedFact). not (is_blank fact.text)) draft.known
        || any (λ (inference : Inference). not (is_blank inference.text)) draft.inferences)
any_text-last_texts draft =
    let facts = map (λ (f : SourcedFact). f.text) draft.known in
    let inferred = map (λ (i : Inference). i.text) draft.inferences in
    any_text-append facts inferred
    ∙ ap (λ x. x || any_text inferred) (any_text-map (λ (f : SourcedFact). f.text) draft.known)
    ∙ ap (λ x. any (λ (fact : SourcedFact). not (is_blank fact.text)) draft.known || x)
        (any_text-map (λ (i : Inference). i.text) draft.inferences)

or_after :
    (xs ys : List String) (b : Bool) → any_text ys ≡ b → any_text (xs ++ ys) ≡ (any_text xs || b)
or_after xs ys b h = any_text-append xs ys ∙ ap (λ x. any_text xs || x) h

meaningful_texts :
    (draft : ReckoningDraft)
    → has_meaningful_content draft ≡ (not (is_empty draft.questions) || any_text (texts draft))
unfolding has_meaningful_content
meaningful_texts draft =
    let u = draft.uncertainties ++ last_texts draft in
    let p = draft.parked ++ u in
    let m = draft.maintained ++ p in
    regrouped (not (is_empty draft.questions)) (any_text draft.matters_now)
      (any_text draft.maintained) (any_text draft.parked) (any_text draft.uncertainties)
      (any (λ (fact : SourcedFact). not (is_blank fact.text)) draft.known)
      (any (λ (inference : Inference). not (is_blank inference.text)) draft.inferences)
    ∙ ap (λ x. not (is_empty draft.questions) || x)
        (sym (
          or_after draft.matters_now m _ (
            or_after draft.maintained p _ (
              or_after draft.parked u _
                (or_after draft.uncertainties (last_texts draft) _ (any_text-last_texts draft))))))

-- what a record rests on
abbrev pub Supported : List Evidence → PersonalRecordProposal → Type 0
Supported evidence proposal =
    (is_blank proposal.meaning ≡ false)
    × (is_empty proposal.evidence_ids ≡ false)
    × Within proposal.evidence_ids (map (λ (e : Evidence). e.id) evidence)

pub record IsComplete (draft : ReckoningDraft) : Type 0 where
  pub few_questions : length draft.questions ≤ 3
  pub questions :
      All
        (λ (q : MaterialQuestion).
          (is_blank q.text ≡ false) × (is_blank q.effect_on_recommendation ≡ false))
        draft.questions
  pub conflict : is_blank draft.conflict ≡ false
  pub next_step : is_blank draft.next_step ≡ false
  pub meaning :
      (is_empty draft.questions ≡ false)
      ⊎ ((t : String) × Among t (texts draft) × (is_blank t ≡ false))
  pub records : All (Supported draft.evidence) draft.proposed_records

abbrev Asked : MaterialQuestion → Type 0
Asked q = (is_blank q.text ≡ false) × (is_blank q.effect_on_recommendation ≡ false)

none_idle : (qs : List MaterialQuestion) → (any is_idle qs ≡ false) ↔ All Asked qs
none_idle [] = (λ h. tt, λ h. refl)
none_idle (q ∷ qs) = (
  λ h. ((ground arith, ground arith), (none_idle qs).0 (ground arith)),
  λ h. ground (arith, h.0, (none_idle qs).1 h.1),
)

supported :
    (evidence : List Evidence) (p : PersonalRecordProposal)
    → (is_unsupported (map (λ (e : Evidence). e.id) evidence) p ≡ false) ↔ Supported evidence p
supported evidence p =
    let within = difference-is_empty_iff p.evidence_ids (map (λ (e : Evidence). e.id) evidence) in
    (
      λ h. (ground arith, ground arith, within.0 (ground arith)),
      λ h. ground (arith, h.0, h.1, within.1 h.2),
    )

none_unsupported :
    (evidence : List Evidence) (ps : List PersonalRecordProposal)
    → (any (is_unsupported (map (λ (e : Evidence). e.id) evidence)) ps ≡ false)
      ↔ All (Supported evidence) ps
none_unsupported evidence [] = (λ h. tt, λ h. refl)
none_unsupported evidence (p ∷ ps) = (
  λ h. ((supported evidence p).0 (ground arith), (none_unsupported evidence ps).0 (ground arith)),
  λ h. ground (arith, (supported evidence p).1 h.0, (none_unsupported evidence ps).1 h.1),
)

meaning_found :
    (draft : ReckoningDraft)
    → (has_meaningful_content draft ≡ true) ↔ (
        (is_empty draft.questions ≡ false)
        ⊎ ((t : String) × Among t (texts draft) × (is_blank t ≡ false)))
meaning_found draft = (
  λ h. elim (Bool-cases (is_empty draft.questions)) [
    | inl no_question ↦ inr (any_text→Among (texts draft) (ground (arith, meaningful_texts draft)))
    | inr asked ↦ inl asked
  ],
  λ h. elim h [
    | inl asked ↦ ground (arith, meaningful_texts draft)
    | inr (t, there, filled) ↦
        ground (arith, meaningful_texts draft, Among→any_text (texts draft) t there filled)
  ],
)

-- A draft passes its check exactly where it asks at most three questions, each with its effect,
-- names the conflict and a next step, holds a question or some text that is not blank, and rests
-- each proposed record, which has a meaning, on evidence of the draft.
pub validate_iff : (draft : ReckoningDraft) → (validate draft ≡ ok tt) ↔ IsComplete draft
unfolding validate
validate_iff draft = (
  λ h. record {
    few_questions = ground arith;
    questions = (none_idle draft.questions).0 (ground arith);
    conflict = ground arith;
    next_step = ground arith;
    meaning = (meaning_found draft).0 (ground arith);
    records = (none_unsupported draft.evidence draft.proposed_records).0 (ground arith);
  },
  λ h. ground (
    arith,
    h.few_questions,
    (none_idle draft.questions).1 h.questions,
    h.conflict,
    h.next_step,
    (meaning_found draft).1 h.meaning,
    (none_unsupported draft.evidence draft.proposed_records).1 h.records,
  ),
)
