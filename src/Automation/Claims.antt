-- ===== src/Automation/Claims.antt =====
-- The runs of InMemoryAutomationRepository in automation.py, and the claims that guard them: a
-- worker holds a run by its owner name, and writes it under the revision that it last saw.
pub mod Fencing
pub mod Holding
use reckoning.Prelude.{
  ℕ, ◌+◌, String, Bool, true, false, not, ◌&&◌, Option, none, some, List, [], ◌∷◌, str_eq, ◌==◌,
  first, if◌then◌else◌,
}
use reckoning.Prelude.Dict
use reckoning.Prelude.Dict.{Dict}
use reckoning.Prelude.Result.{Result, ok, err, Error, key_error, value_error, conflict, Action}
use reckoning.Automation.Records.{RoutineRun, RoutineReceipt}
use reckoning.Automation.Repository.{
  Repository, RunClaim, ClaimState, unclaimed, active, finalized, found,
}

unfoldable pub get_run : Repository → String → Result RoutineRun
get_run r run_id = found "Unknown routine run" (Dict.get run_id r.runs)

unfoldable pub find_run_by_key : Repository → String → Option RoutineRun
find_run_by_key r key =
    first (λ (run : RoutineRun). str_eq run.idempotency_key key) (Dict.values r.runs)

unfoldable pub get_receipt : Repository → String → Option RoutineReceipt
get_receipt r run_id = Dict.get run_id r.receipts

unfoldable pub save_run : RoutineRun → Repository → Repository
save_run run r = record r { runs = Dict.put run.id run r.runs }

unfoldable pub save_receipt : RoutineReceipt → Repository → Repository
save_receipt receipt r = record r { receipts = Dict.put receipt.run_id receipt r.receipts }

abbrev pub has_key : String → Dict RoutineRun → Bool
has_key id d = elim (Dict.get id d) [ none ↦ false | some run ↦ true ]

start_new : RoutineRun → Option RoutineRun → Action Repository RoutineRun
start_new run (some existing) r = (ok existing, r)
start_new run none r =
    if has_key run.id r.runs
    then (err (value_error "Routine run already exists with another key."), r)
    else (
      ok run,
      record r {
        runs = Dict.put run.id run r.runs;
        claims =
            Dict.put run.id (record { owner = none; state = unclaimed; revision = 1 }) r.claims;
      },
    )

unfoldable pub start_run : RoutineRun → Action Repository RoutineRun
unfolding start_new
start_run run r = start_new run (find_run_by_key r run.idempotency_key) r

abbrev pub is_finalized : ClaimState → Bool
is_finalized finalized = true
is_finalized _ = false

abbrev pub is_active : ClaimState → Bool
is_active active = true
is_active _ = false

-- claim.owner == owner
abbrev pub owned_by : Option String → String → Bool
owned_by none owner = false
owned_by (some holder) owner = str_eq holder owner

abbrev pub set_claim : String → RunClaim → Repository → Repository
set_claim run_id claim r = record r { claims = Dict.put run_id claim r.claims }

claim_found : String → String → Option RunClaim → Action Repository ℕ
claim_found run_id owner none r = (err (key_error "Unknown routine run"), r)
claim_found run_id owner (some claim) r =
    if is_finalized claim.state
    then (err (conflict "Routine run is already finalized."), r)
    else if is_active claim.state && not (owned_by claim.owner owner)
    then (err (conflict "Routine run is claimed by another worker."), r)
    else (
      ok (claim.revision + 1),
      set_claim run_id
          (record { owner = some owner; state = active; revision = claim.revision + 1 }) r,
    )

unfoldable pub claim_run : String → String → Action Repository ℕ
unfolding claim_found
claim_run run_id owner r = claim_found run_id owner (Dict.get run_id r.claims) r

release_found : String → String → Option RunClaim → Repository → Repository
release_found run_id owner none r = r
release_found run_id owner (some claim) r =
    if owned_by claim.owner owner && is_active claim.state
    then set_claim run_id (record claim { state = unclaimed; revision = claim.revision + 1 }) r
    else r

unfoldable pub release_run : String → String → Repository → Repository
unfolding release_found
release_run run_id owner r = release_found run_id owner (Dict.get run_id r.claims) r

recover_found : String → ℕ → String → Option RunClaim → Action Repository ℕ
recover_found run_id expected new_owner none r = (err (key_error "Unknown routine run"), r)
recover_found run_id expected new_owner (some claim) r =
    if not (claim.revision == expected)
    then (err (conflict "Routine run changed from the expected revision."), r)
    else if is_finalized claim.state
    then (err (conflict "Routine run is already finalized."), r)
    else (
      ok (claim.revision + 1),
      set_claim run_id
          (record { owner = some new_owner; state = active; revision = claim.revision + 1 }) r,
    )

unfoldable pub recover_run : String → ℕ → String → Action Repository ℕ
unfolding recover_found
recover_run run_id expected new_owner r =
    recover_found run_id expected new_owner (Dict.get run_id r.claims) r

unfoldable pub run_revision : Repository → String → Result ℕ
run_revision r run_id = elim (Dict.get run_id r.claims) [
  | none ↦ err (key_error "Unknown routine run")
  | some claim ↦ ok claim.revision
]

progress_found : RoutineRun → String → ℕ → Option RunClaim → Action Repository ℕ
progress_found run owner expected none r = (err (key_error "Unknown routine run"), r)
progress_found run owner expected (some claim) r =
    if not (owned_by claim.owner owner)
    then (err (conflict "Routine run is owned by another worker."), r)
    else if not (claim.revision == expected)
    then (err (conflict "Routine run changed from the expected revision."), r)
    else (
      ok (expected + 1),
      record r {
        runs = Dict.put run.id run r.runs;
        claims = Dict.put run.id (record claim { revision = expected + 1 }) r.claims;
      },
    )

unfoldable pub save_run_progress : RoutineRun → String → ℕ → Action Repository ℕ
unfolding progress_found
save_run_progress run owner expected r =
    progress_found run owner expected (Dict.get run.id r.claims) r

-- self._claims[run_id].state = "finalized"; self._claims[run_id].revision = revision
abbrev pub mark_finalized : ℕ → Option RunClaim → RunClaim
mark_finalized revision none = record { owner = none; state = finalized; revision = revision }
mark_finalized revision (some claim) = record claim { state = finalized; revision = revision }

finalize_saved : RoutineRun → RoutineReceipt → Result ℕ → Action Repository ℕ
finalize_saved run receipt (err e) r = (err e, r)
finalize_saved run receipt (ok revision) r = (
  ok (revision + 1),
  record r {
    claims = Dict.put run.id (mark_finalized (revision + 1) (Dict.get run.id r.claims)) r.claims;
    receipts = Dict.put receipt.run_id receipt r.receipts;
  },
)

unfoldable pub finalize_run : RoutineRun → RoutineReceipt → String → ℕ → Action Repository ℕ
unfolding finalize_saved
finalize_run run receipt owner expected r =
    let (saved, r') = save_run_progress run owner expected r in finalize_saved run receipt saved r'
