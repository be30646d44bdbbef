-- ===== src/ExternalWrites/Tests.antt =====
-- Runs and witnesses of the external writes: a mail that is prepared, approved and sent.
pub mod Executions
pub mod Calls
use reckoning.Prelude.{
  ℕ, ◌+◌, ◌≡◌, ◌≢◌, ◌⊎◌, refl, String, Option, none, some, List, [], ◌∷◌, ℤ, pos, arith,
}
use reckoning.Prelude.Dict
use reckoning.Prelude.Dict.{Dict}
use reckoning.Prelude.Result.{Result, ok, err, Error, other_error, interrupted_error, Action}
use reckoning.ExternalWrites.Records.{
  PreparedWrite, ApprovalRecord, StandingPermission, WriteAuthorization, WriteReceipt, WriteResult,
  WriteStatus, success, failed, active, exact_approval, ExecutionClaim, claimed, dispatched,
}
use reckoning.ExternalWrites.Tables.{
  Tables, active_approval, active_approval_id, authorization, authorization_scope, covering,
  join_bars, with_approval,
}
use reckoning.ExternalWrites.InMemory
use reckoning.ExternalWrites.Sqlite
use reckoning.ExternalWrites.Repository.{repository_of}
use reckoning.ExternalWrites.Execution.{
  WriteConnector, Machine, Outcome, receipt, receipt_of, execute, no_callback, idempotency_key,
  invoke_adapter, attempt_rounds, numbered, execute_invoked,
}

-- the answers that are left to give, and the keys under which the adapter was called
abbrev pub Post : Type 0
Post = List (Result WriteResult) × List String

abbrev pub answered : Post → String → Result WriteResult × Post
answered ([], calls) key = (err (other_error "no answer"), ([], key ∷ calls))
answered (x ∷ xs, calls) key = (x, (xs, key ∷ calls))

abbrev pub adapter : WriteConnector Post
adapter payload key post = answered post key

abbrev pub result : WriteStatus → WriteResult
result status = record { status = status; external_id = some "m1"; detail = "done" }

abbrev pub says : WriteStatus → Result WriteResult
says status = ok (result status)

abbrev pub mail : PreparedWrite
mail = record {
  id = "w1";
  connector_id = "mail";
  action_type = "send";
  target = "ann";
  trigger = "weekly";
  boundary = "work";
  payload = ("subject", "hi") ∷ ("text", "hello") ∷ [];
  prepared_at = "mon";
  payload_digest = "d1";
  exact_approval_id = none;
}

abbrev pub prepared : Tables
prepared = record {
  writes = ("w1", mail) ∷ [];
  approvals = [];
  permissions = [];
  receipts = [];
  executions = [];
}

abbrev pub approved : Tables
approved = record prepared { approvals = ("a1", InMemory.approval "w1" "d1" "a1" "tue") ∷ [] }

abbrev pub grounds : WriteAuthorization
grounds = record {
  kind = exact_approval;
  authorization_id = "a1";
  scope = "mail|send|ann|weekly|work";
}

abbrev pub machine : Tables → List (Result WriteResult) → Machine Tables Post
machine t answers = record { store = t; world = (answers, []) }

abbrev pub run : Option String → Machine Tables Post → Result Outcome × Machine Tables Post
run path m = execute (repository_of path) adapter "k1" "wed" (pos 1) no_callback "w1" m

sent_after_retry :
    (run none (machine approved (says failed ∷ says success ∷ says success ∷ []))).1.world
    ≡ (says success ∷ [], "reckoning-write:w1:d1" ∷ "reckoning-write:w1:d1" ∷ [])
unfolding execute InMemory.get_receipt Dict.get InMemory.get_prepared InMemory.claim_execution
    InMemory.dispatch_execution InMemory.finalize_execution InMemory.owned_claim active_approval
    active_approval_id authorization authorization_scope covering join_bars Dict.values
    with_approval idempotency_key invoke_adapter attempt_rounds numbered execute_invoked Dict.put
    Dict.has Sqlite.claim_execution Sqlite.dispatch_execution Sqlite.finalize_execution
sent_after_retry = refl

never_approved : (run (some "p") (machine prepared [])).1 ≡ machine prepared []
unfolding execute InMemory.get_receipt Dict.get InMemory.get_prepared InMemory.claim_execution
    InMemory.dispatch_execution InMemory.finalize_execution InMemory.owned_claim active_approval
    active_approval_id authorization authorization_scope covering join_bars Dict.values
    with_approval idempotency_key invoke_adapter attempt_rounds numbered execute_invoked Dict.put
    Dict.has Sqlite.claim_execution Sqlite.dispatch_execution Sqlite.finalize_execution
never_approved = refl

ambiguous_stops :
    (run (some "p") (machine approved (err (other_error "cut") ∷ says success ∷ []))).1.world
    ≡ (says success ∷ [], "reckoning-write:w1:d1" ∷ [])
unfolding execute InMemory.get_receipt Dict.get InMemory.get_prepared InMemory.claim_execution
    InMemory.dispatch_execution InMemory.finalize_execution InMemory.owned_claim active_approval
    active_approval_id authorization authorization_scope covering join_bars Dict.values
    with_approval idempotency_key invoke_adapter attempt_rounds numbered execute_invoked Dict.put
    Dict.has Sqlite.claim_execution Sqlite.dispatch_execution Sqlite.finalize_execution
ambiguous_stops = refl
