-- ===== src/Processing/Scope/Authorized.antt =====
-- What a decision lets through, and what a change of a grant makes of the scope.
use reckoning.Prelude.{
  ◌≡◌, ◌≢◌, refl, ap, sym, ◌∙◌, String, true, false, ◌&&◌, Option, some, List, [], ◌∷◌, ℤ, pos,
  ◌+ℤ◌, +ℤ_parts, ◌≤ℤ◌, arith, eq_iff, strip, is_blank, contains, distinct, any, All, inl, inr,
}
use reckoning.Prelude.Distinct.{is_unique_iff, distinct-Distinct}
use reckoning.Prelude.Result.{ok, Result-cases, ok-injective, ◌>>=◌}
use reckoning.Processing.Grants.{
  ProcessingDestination, destination_key, ProcessingGrant, get_grant, save_grant, grant_from_data,
}
use reckoning.Processing.Grants.Saved.{IsStorable, save_grant-saves}
use reckoning.Processing.Scope.{
  ProcessingScopeStatus, ProcessingDecision, within, outside, scope_status, review, decide,
  evaluate, change, after_change,
}

contains-within :
    (ys xs : List String) (a : String)
    → contains (within ys xs) a ≡ (contains xs a && contains ys a)
unfolding contains
contains-within ys [] a = refl
contains-within ys (x ∷ xs) a =
    ground (arith, contains-within ys xs a, eq_iff x a, ap (λ z. contains ys z))

outside_within :
    (ys zs xs : List String)
    → All (λ x. contains zs x ≡ true) xs
    → outside (within ys zs) xs ≡ outside ys xs
outside_within ys zs [] h = refl
outside_within ys zs (x ∷ xs) h =
    ground (arith, contains-within ys zs x, h.0, outside_within ys zs xs h.1)

each_contained :
    (zs xs : List String)
    → ((a : String) → contains xs a ≡ true → contains zs a ≡ true)
    → All (λ x. contains zs x ≡ true) xs
unfolding contains
each_contained zs [] h = tt
each_contained zs (x ∷ xs) h =
    (h x (ground (arith, eq_iff x x)), each_contained zs xs (λ a m. h a (ground arith)))

-- A decision divides the categories that it is asked about: the allowed ones are those of the
-- scope, the unavailable ones are all the others, in their order, and of these the required ones
-- are blocked. The scope was reviewed.
pub evaluate_divides :
    (destination : ProcessingDestination) (categories required : List String)
    (file : List ProcessingGrant) (decision : ProcessingDecision)
    → evaluate destination categories required file ≡ ok decision
    → (status : ProcessingScopeStatus) × (review destination file ≡ ok status)
      × (decision.allowed_categories ≡ within status.allowed_categories categories)
      × (decision.unavailable_categories ≡ outside status.allowed_categories categories)
      × (decision.blocked_categories
          ≡ within required (outside status.allowed_categories categories))
unfolding evaluate
evaluate_divides destination categories required file decision h =
    elim (Result-cases (review destination file)) [
      | inl (status, reviewed) ↦
          let decided : decide status.allowed_categories categories required ≡ decision =
            ok-injective (
              ap
                (λ r. r >>= (λ (st : ProcessingScopeStatus).
                  ok (decide st.allowed_categories categories required)))
                (sym reviewed)
              ∙ h) in
          let divided : outside (within status.allowed_categories categories) categories
              ≡ outside status.allowed_categories categories =
            outside_within status.allowed_categories categories categories
              (each_contained categories categories (λ a m. m)) in
          (
            status,
            reviewed,
            ground arith,
            ap (λ (d : ProcessingDecision). d.unavailable_categories) (sym decided) ∙ divided,
            ap (λ (d : ProcessingDecision). d.blocked_categories) (sym decided)
                ∙ ap (within required) divided,
          )
      | inr (e, failed) ↦ absurd (ground (arith, failed, h))
    ]

-- the grant that a change writes
abbrev pub changed_grant : ProcessingDestination → List String → String → ℤ → ProcessingGrant
changed_grant destination categories at expected = record {
  destination_id = destination_key destination;
  version = expected +ℤ pos 1;
  allowed_categories = distinct categories;
  changed_at = at;
}

changed_grant-IsStorable :
    (destination : ProcessingDestination) (categories : List String) (at : String) (expected : ℤ)
    → strip (destination_key destination) ≡ destination_key destination
    → is_blank (destination_key destination) ≡ false
    → pos 0 ≤ℤ expected
    → any is_blank (distinct categories) ≡ false
    → IsStorable (changed_grant destination categories at expected)
unfolding grant_from_data
changed_grant-IsStorable destination categories at expected trimmed named counted filled =
    let unique = (is_unique_iff (distinct categories)).1 (distinct-Distinct categories) in
    grind (arith, +ℤ_parts expected (pos 1))

-- A change that returns reports the new scope, which the next run then has: the destination's
-- grant has the next version and the distinct categories of the change, and every other
-- destination keeps its own. The destination has a name without space around it, and the expected
-- version is not negative.
pub change-grants :
    (destination : ProcessingDestination) (categories : List String) (at : String) (expected : ℤ)
    (file : List ProcessingGrant) (status : ProcessingScopeStatus)
    → strip (destination_key destination) ≡ destination_key destination
    → is_blank (destination_key destination) ≡ false
    → pos 0 ≤ℤ expected
    → (change destination categories at expected file).0 ≡ ok status
    → let file' = (change destination categories at expected file).1 in
      (status ≡ scope_status destination (some (changed_grant destination categories at expected)))
      × (get_grant file' (destination_key destination)
          ≡ ok (some (changed_grant destination categories at expected)))
      × ((id : String) → destination_key destination ≢ id → get_grant file' id ≡ get_grant file id)
      × (any is_blank (distinct categories) ≡ false)
unfolding change after_change review
change-grants destination categories at expected file status trimmed named counted h =
    let grant = changed_grant destination categories at expected in
    let filled : any is_blank (distinct categories) ≡ false = ground arith in
    elim (Result-cases (save_grant grant expected file).0) [
      | inl (done, saved) ↦
          let (next, stored, own, rest) =
            save_grant-saves grant expected file
              (changed_grant-IsStorable destination categories at expected trimmed named counted
                filled)
              saved in
          let after : (change destination categories at expected file) ≡ (
            review destination (save_grant grant expected file).1,
            (save_grant grant expected file).1,
          ) =
            rw filled (rw saved refl) in
          let reviewed : review destination (save_grant grant expected file).1
              ≡ ok (scope_status destination (some grant)) =
            ap (λ r. r >>= (λ (g : Option ProcessingGrant). ok (scope_status destination g))) own in
          (
            ok-injective (sym h ∙ ap (λ x. x.0) after ∙ reviewed),
            ap (λ x. get_grant x.1 (destination_key destination)) after ∙ own,
            λ id apart. ap (λ x. get_grant x.1 id) after ∙ rest id apart,
            filled,
          )
      | inr (e, failed) ↦ absurd (ground arith)
    ]
