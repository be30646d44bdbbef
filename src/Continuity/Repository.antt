-- ===== src/Continuity/Repository.antt =====
-- InMemoryReckoningRepository of continuity.py. A method is an action on the repository; the
-- messages of the conflicts are left as a fixed text where the source writes ids and revisions
-- into them.
pub mod Saves
use reckoning.Prelude.{
  String, Bool, true, false, not, Option, none, some, List, [], ◌∷◌, ℤ, pos, ◌+ℤ◌, eq_ℤ, str_eq,
  keep, if◌then◌else◌,
}
use reckoning.Prelude.Dict
use reckoning.Prelude.Dict.{Dict}
use reckoning.Prelude.Result.{Result, ok, err, Error, key_error, value_error, conflict, Action}
use reckoning.Continuity.Records.{
  Reckoning, CheckIn, OperationStatus, completed, failed, OperationRecord,
}

pub record Reckonings : Type 0 where
  pub reckonings : Dict Reckoning
  pub check_ins : Dict CheckIn
  pub operations : Dict OperationRecord

abbrev pub is_completed : OperationStatus → Bool
is_completed completed = true
is_completed failed = false

store_over : OperationRecord → Option OperationRecord → Action Reckonings (Unit {0})
store_over operation none r =
    (ok tt, record r { operations = Dict.put operation.operation_id operation r.operations })
store_over operation (some existing) r =
    if is_completed existing.status
    then (err (conflict "Operation was already completed with a different payload."), r)
    else (ok tt, record r { operations = Dict.put operation.operation_id operation r.operations })

-- _store_operation, and record_operation
unfoldable pub record_operation : OperationRecord → Action Reckonings (Unit {0})
unfolding store_over
record_operation operation r = store_over operation (Dict.get operation.operation_id r.operations) r

abbrev pub version_of : Option Reckoning → ℤ
version_of none = pos 0
version_of (some entry) = entry.version

store_if_given : Option OperationRecord → Action Reckonings (Unit {0})
store_if_given none r = (ok tt, r)
store_if_given (some operation) r = record_operation operation r

save_stored : Reckoning → Result (Unit {0}) → Action Reckonings (Unit {0})
save_stored entry (err e) r = (err e, r)
save_stored entry (ok done) r =
    (ok tt, record r { reckonings = Dict.put entry.id entry r.reckonings })

unfoldable pub save : Reckoning → ℤ → Option OperationRecord → Action Reckonings (Unit {0})
unfolding save_stored store_if_given
save entry expected operation r =
    if not (eq_ℤ (version_of (Dict.get entry.id r.reckonings)) expected)
    then (err (conflict "Reckoning changed from the expected revision."), r)
    else if not (eq_ℤ entry.version (expected +ℤ pos 1))
    then (err (value_error "Reckoning versions must increase by one."), r)
    else let (answer, r') = store_if_given operation r in save_stored entry answer r'

abbrev reckoning_found : Option Reckoning → Result Reckoning
reckoning_found none = err (key_error "Unknown reckoning")
reckoning_found (some entry) = ok entry

unfoldable pub get_reckoning : Reckonings → String → Result Reckoning
get_reckoning r reckoning_id = reckoning_found (Dict.get reckoning_id r.reckonings)

unfoldable pub list_reckonings : Reckonings → List Reckoning
list_reckonings r = Dict.values r.reckonings

unfoldable pub lookup_operation : Reckonings → String → Option OperationRecord
lookup_operation r operation_id = Dict.get operation_id r.operations

unfoldable pub list_pending_operations : Reckonings → List OperationRecord
list_pending_operations r =
    keep (λ (o : OperationRecord). not (is_completed o.status)) (Dict.values r.operations)

unfoldable pub save_check_in : CheckIn → Reckonings → Reckonings
save_check_in check_in r = record r { check_ins = Dict.put check_in.id check_in r.check_ins }

unfoldable pub list_check_ins : Reckonings → String → List CheckIn
list_check_ins r decision_id =
    keep (λ (c : CheckIn). str_eq c.decision_id decision_id) (Dict.values r.check_ins)
