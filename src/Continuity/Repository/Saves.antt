-- ===== src/Continuity/Repository/Saves.antt =====
-- The repository over many calls: saves under a revision, and operations that are done.
use reckoning.Prelude.{
  ◌≡◌, ◌≢◌, ◌⊎◌, refl, ap, ◌∙◌, subst, String, false, Option, none, some, List, [], ◌∷◌, ℤ, pos,
  ◌+ℤ◌, +ℤ_parts, ◌≤ℤ◌, eq_ℤ, eq_ℤ→≡, arith, eq_iff, inl, inr,
}
use reckoning.Prelude.Dict
use reckoning.Prelude.Result.{ok, err, Error, Result-cases, conflict}
use reckoning.Continuity.Records.{Reckoning, CheckIn, completed, OperationRecord}
use reckoning.Continuity.Repository.{
  Reckonings, record_operation, version_of, save_stored, save, get_reckoning, lookup_operation,
  save_check_in,
}

-- one call that changes the repository
pub data Call : Type 0 where
  on_save : Reckoning → ℤ → Option OperationRecord → Call
  on_operation : OperationRecord → Call
  on_check_in : CheckIn → Call

-- the repository after the call, whether it returned or raised
unfoldable pub step : Reckonings → Call → Reckonings
step r (on_save entry expected operation) = (save entry expected operation r).1
step r (on_operation operation) = (record_operation operation r).1
step r (on_check_in check_in) = save_check_in check_in r

unfoldable pub steps : Reckonings → List Call → Reckonings
steps r [] = r
steps r (c ∷ cs) = steps (step r c) cs

abbrev pub revision : Reckonings → String → ℤ
revision r id = version_of (Dict.get id r.reckonings)

ruleset save_rules = (arith, Dict.get-put, eq_iff, +ℤ_parts)

step-revision-le :
    (r : Reckonings) (c : Call) (id : String) → revision r id ≤ℤ revision (step r c) id
unfolding step save record_operation save_check_in
step-revision-le r (on_save entry expected none) id = grind save_rules
step-revision-le r (on_save entry expected (some operation)) id = grind save_rules
step-revision-le r (on_operation operation) id = grind save_rules
step-revision-le r (on_check_in check_in) id = grind save_rules

steps-revision-le :
    (r : Reckonings) (cs : List Call) (id : String) → revision r id ≤ℤ revision (steps r cs) id
unfolding steps
steps-revision-le r [] id = omega arith
steps-revision-le r (c ∷ cs) id =
    omega (arith, step-revision-le r c id, steps-revision-le (step r c) cs id)

step-completed :
    (r : Reckonings) (c : Call) (id : String) (operation : OperationRecord)
    → lookup_operation r id ≡ some operation
    → operation.status ≡ completed
    → lookup_operation (step r c) id ≡ some operation
unfolding step save record_operation save_check_in lookup_operation
step-completed r (on_save entry expected none) id operation h d =
    grind (arith, Dict.get-put, eq_iff)
step-completed r (on_save entry expected (some o)) id operation h d =
    grind (arith, Dict.get-put, eq_iff)
step-completed r (on_operation o) id operation h d = grind (arith, Dict.get-put, eq_iff)
step-completed r (on_check_in check_in) id operation h d = h

-- An operation that is completed stays as it is, whatever calls follow.
pub completed_stays :
    (r : Reckonings) (cs : List Call) (id : String) (operation : OperationRecord)
    → lookup_operation r id ≡ some operation
    → operation.status ≡ completed
    → lookup_operation (steps r cs) id ≡ some operation
unfolding steps
completed_stays r [] id operation h d = h
completed_stays r (c ∷ cs) id operation h d =
    completed_stays (step r c) cs id operation (step-completed r c id operation h d) d

save-found :
    (entry : Reckoning) (expected : ℤ) (operation : Option OperationRecord) (r : Reckonings)
    → (save entry expected operation r).0 ≡ ok tt
    → Dict.get entry.id (save entry expected operation r).1.reckonings ≡ some entry
unfolding save record_operation
save-found entry expected none r h = grind save_rules
save-found entry expected (some operation) r h = grind save_rules

save-others :
    (entry : Reckoning) (expected : ℤ) (operation : Option OperationRecord) (r : Reckonings)
    (id : String)
    → entry.id ≢ id
    → Dict.get id (save entry expected operation r).1.reckonings ≡ Dict.get id r.reckonings
unfolding save record_operation
save-others entry expected none r id apart = grind save_rules
save-others entry expected (some operation) r id apart = grind save_rules

save-checked :
    (entry : Reckoning) (expected : ℤ) (operation : Option OperationRecord) (r : Reckonings)
    → (save entry expected operation r).0 ≡ ok tt
    → (revision r entry.id ≡ expected) × (entry.version ≡ expected +ℤ pos 1)
unfolding save save_stored
save-checked entry expected operation r h = (
  eq_ℤ→≡ (revision r entry.id) expected (ground arith),
  eq_ℤ→≡ entry.version (expected +ℤ pos 1) (ground arith),
)

save-raised :
    (entry : Reckoning) (expected : ℤ) (operation : Option OperationRecord) (r : Reckonings)
    (e : Error)
    → (save entry expected operation r).0 ≡ err e
    → (save entry expected operation r).1 ≡ r
unfolding save record_operation
save-raised entry expected none r e h = grind save_rules
save-raised entry expected (some operation) r e h = grind save_rules

-- A save that returns found the expected version, wrote the next one and left every other
-- reckoning as it was. A save that raises, whether for the version or for its operation, has
-- written nothing.
pub save_cases :
    (entry : Reckoning) (expected : ℤ) (operation : Option OperationRecord) (r : Reckonings)
    → let r' = (save entry expected operation r).1 in
      ((save entry expected operation r).0 ≡ ok tt
        × (revision r entry.id ≡ expected)
        × (entry.version ≡ expected +ℤ pos 1)
        × (get_reckoning r' entry.id ≡ ok entry)
        × ((id : String) → entry.id ≢ id → get_reckoning r' id ≡ get_reckoning r id))
      ⊎ ((e : Error) × ((save entry expected operation r).0 ≡ err e) × (r' ≡ r))
unfolding get_reckoning
save_cases entry expected operation r = elim (Result-cases (save entry expected operation r).0) [
  | inl (done, h) ↦
      let (version, next) = save-checked entry expected operation r h in
      inl (
        h,
        version,
        next,
        rw (save-found entry expected operation r h) refl,
        λ id apart. rw (save-others entry expected operation r id apart) refl,
      )
  | inr (e, h) ↦ inr (e, h, save-raised entry expected operation r e h)
]

moved_on : (v n e : ℤ) → n ≡ e +ℤ pos 1 → n ≤ℤ v → eq_ℤ v e ≡ false
moved_on v n e next grown = grind (arith, +ℤ_parts)

-- After a save has succeeded, and whatever calls follow, no save of the same reckoning under the
-- version that it expected succeeds: it raises the conflict and writes nothing.
pub stale_save :
    (entry other : Reckoning) (expected : ℤ) (operation later : Option OperationRecord)
    (r : Reckonings) (cs : List Call)
    → (save entry expected operation r).0 ≡ ok tt
    → other.id ≡ entry.id
    → let r' = steps (save entry expected operation r).1 cs in
      save other expected later r'
      ≡ (err (conflict "Reckoning changed from the expected revision."), r')
unfolding save
stale_save entry other expected operation later r cs h same =
    let r' = (save entry expected operation r).1 in
    let (version, next) = save-checked entry expected operation r h in
    let now : revision r' entry.id ≡ entry.version =
      ap version_of (save-found entry expected operation r h) in
    let grown = steps-revision-le r' cs other.id in
    let moved : eq_ℤ (revision (steps r' cs) other.id) expected ≡ false =
      moved_on (revision (steps r' cs) other.id) entry.version expected next
        (subst (λ v. v ≤ℤ revision (steps r' cs) other.id) (ap (revision r') same ∙ now) grown) in
    rw moved refl
