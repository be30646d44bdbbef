-- ===== src/ExternalWrites/InMemory/Executions.antt =====
-- The executions of InMemoryExternalWriteRepository: who has the claim of a write, and how far it
-- is.
use reckoning.Prelude.{ℕ, ◌+◌, String, not, Option, none, some, str_eq, ◌==◌, if◌then◌else◌}
use reckoning.Prelude.Dict
use reckoning.Prelude.Dict.{Dict}
use reckoning.Prelude.Result.{Result, ok, err, key_error, conflict, authority_revoked, Action}
use reckoning.ExternalWrites.Records.{
  PreparedWrite, WriteReceipt, WriteAuthorization, ExecutionClaim, ClaimState, claimed, dispatched,
  finalized, aborted, is_claimed, is_finalized, is_aborted,
}
use reckoning.ExternalWrites.Tables.{Tables, authorization}
use reckoning.ExternalWrites.InMemory.Writes.{get_prepared}

unfoldable pub execution : String → Tables → Option ExecutionClaim
execution write_id t = Dict.get write_id t.executions

abbrev pub set_execution : String → ExecutionClaim → Tables → Tables
set_execution write_id claim t = record t { executions = Dict.put write_id claim t.executions }

abbrev pub new_claim :
    PreparedWrite → String → String → WriteAuthorization → String → ExecutionClaim
new_claim w owner key a claimed_at = record {
  write_id = w.id;
  payload_digest = w.payload_digest;
  claim_owner = owner;
  claim_state = claimed;
  idempotency_key = key;
  authorization_kind = a.kind;
  authorization_id = a.authorization_id;
  authorization_scope = a.scope;
  attempts = 0;
  claimed_at = claimed_at;
  revision = 1;
}

claim_found :
    PreparedWrite
    → String
    → String
    → WriteAuthorization
    → String
    → Option ExecutionClaim
    → Action Tables ExecutionClaim
claim_found w owner key a claimed_at none t = (
  ok (new_claim w owner key a claimed_at),
  set_execution w.id (new_claim w owner key a claimed_at) t,
)
claim_found w owner key a claimed_at (some existing) t =
    if not (str_eq existing.payload_digest w.payload_digest)
    then (err (conflict "Prepared write changed after it was claimed."), t)
    else if is_finalized existing.claim_state
    then (err (conflict "Prepared write is already finalized."), t)
    else if is_aborted existing.claim_state
    then (
      ok (new_claim w owner key a claimed_at),
      set_execution w.id (new_claim w owner key a claimed_at) t,
    )
    else if not (str_eq existing.claim_owner owner)
    then (err (conflict "Prepared write is claimed by another worker."), t)
    else (ok existing, t)

unfoldable pub claim_execution :
    PreparedWrite → String → String → WriteAuthorization → String → Action Tables ExecutionClaim
unfolding claim_found
claim_execution w owner key a claimed_at t =
    claim_found w owner key a claimed_at (Dict.get w.id t.executions) t

-- _owned_claim
unfoldable pub owned_claim : String → Option ExecutionClaim → Result ExecutionClaim
owned_claim owner none = err (key_error "Unknown execution claim")
owned_claim owner (some claim) =
    if str_eq claim.claim_owner owner
    then ok claim
    else err (conflict "Prepared write is owned by another worker.")

-- _replace_claim with a new state and the next revision
abbrev pub moved : ExecutionClaim → ClaimState → ExecutionClaim
moved claim state = record claim { claim_state = state; revision = claim.revision + 1 }

dispatch_authorized :
    String → ExecutionClaim → Option WriteAuthorization → Action Tables ExecutionClaim
dispatch_authorized write_id claim none t =
    (err (authority_revoked "Authority was revoked before dispatch."), t)
dispatch_authorized write_id claim (some a) t =
    if is_claimed claim.claim_state
    then (ok (moved claim dispatched), set_execution write_id (moved claim dispatched) t)
    else (err (conflict "Prepared write is not dispatchable."), t)

dispatch_prepared : String → ExecutionClaim → Result PreparedWrite → Action Tables ExecutionClaim
unfolding dispatch_authorized
dispatch_prepared write_id claim (err e) t = (err e, t)
dispatch_prepared write_id claim (ok w) t = dispatch_authorized write_id claim (authorization w t) t

dispatch_owned : String → Result ExecutionClaim → Action Tables ExecutionClaim
unfolding dispatch_prepared
dispatch_owned write_id (err e) t = (err e, t)
dispatch_owned write_id (ok claim) t = dispatch_prepared write_id claim (get_prepared write_id t) t

unfoldable pub dispatch_execution : String → String → Action Tables ExecutionClaim
unfolding dispatch_owned owned_claim
dispatch_execution write_id owner t =
    dispatch_owned write_id (owned_claim owner (Dict.get write_id t.executions)) t

abort_owned : String → Result ExecutionClaim → Action Tables (Unit {0})
abort_owned write_id (err e) t = (err e, t)
abort_owned write_id (ok claim) t = (ok tt, set_execution write_id (moved claim aborted) t)

unfoldable pub abort_execution : String → String → Action Tables (Unit {0})
unfolding abort_owned owned_claim
abort_execution write_id owner t =
    abort_owned write_id (owned_claim owner (Dict.get write_id t.executions)) t

-- ExecutionClaim(…, new_owner, "claimed", …, claim.revision + 1)
abbrev pub recovered : ExecutionClaim → String → String → ExecutionClaim
recovered claim new_owner recovered_at = record claim {
  claim_owner = new_owner;
  claim_state = claimed;
  claimed_at = recovered_at;
  revision = claim.revision + 1;
}

recover_found : String → ℕ → String → String → Option ExecutionClaim → Action Tables ExecutionClaim
recover_found write_id expected new_owner recovered_at none t =
    (err (key_error "Unknown execution claim"), t)
recover_found write_id expected new_owner recovered_at (some claim) t =
    if not (claim.revision == expected)
    then (err (conflict "Execution claim changed from the expected revision."), t)
    else if is_finalized claim.claim_state
    then (err (conflict "Execution claim is already finalized."), t)
    else (
      ok (recovered claim new_owner recovered_at),
      set_execution write_id (recovered claim new_owner recovered_at) t,
    )

unfoldable pub recover_execution : String → ℕ → String → String → Action Tables ExecutionClaim
unfolding recover_found
recover_execution write_id expected new_owner recovered_at t =
    recover_found write_id expected new_owner recovered_at (Dict.get write_id t.executions) t

-- the claim of a finalized write, and its receipt
abbrev pub settled : String → ExecutionClaim → WriteReceipt → Tables → Tables
settled write_id claim receipt t = record t {
  executions =
      Dict.put write_id (record (moved claim finalized) { attempts = receipt.attempts })
        t.executions;
  receipts = Dict.put write_id receipt t.receipts;
}

finalize_owned : String → WriteReceipt → Result ExecutionClaim → Action Tables WriteReceipt
finalize_owned write_id receipt (err e) t = (err e, t)
finalize_owned write_id receipt (ok claim) t = (ok receipt, settled write_id claim receipt t)

unfoldable pub finalize_execution : String → String → WriteReceipt → Action Tables WriteReceipt
unfolding finalize_owned owned_claim
finalize_execution write_id owner receipt t =
    finalize_owned write_id receipt (owned_claim owner (Dict.get write_id t.executions)) t
