-- ===== src/ExternalWrites/Sqlite.antt =====
-- SQLiteExternalWriteRepository of external_write_store.py where it differs from the repository in
-- memory: its queries as lookups in the tables, its statements as new tables. A transaction that
-- raises is rolled back, except the one that aborts an execution whose authority is gone.
use reckoning.Prelude.{
  ◌+◌, String, Bool, not, ◌&&◌, ◌||◌, Option, none, some, List, str_eq, keep, map, any,
  if◌then◌else◌,
}
use reckoning.Prelude.Dict
use reckoning.Prelude.Result.{
  Result, ok, err, key_error, conflict, authority_revoked, other_error, Action,
}
use reckoning.ExternalWrites.Records.{
  PreparedWrite, StandingPermission, WriteReceipt, ApprovalRecord, WriteAuthorization,
  ExecutionClaim, claimed, dispatched, finalized, aborted, is_claimed, is_dispatched, is_finalized,
  is_aborted,
}
use reckoning.ExternalWrites.Tables.{
  Tables, permission_matches, approves, active_approval_id, authorization,
}
use reckoning.ExternalWrites.InMemory.{approval, owned_claim, moved, set_execution, new_claim}

approve_current : String → String → String → String → Option String → Action Tables ApprovalRecord
approve_current write_id digest approval_id approved_at (some current) t =
    (err (conflict "Prepared write already has an exact approval."), t)
approve_current write_id digest approval_id approved_at none t = (
  ok (approval write_id digest approval_id approved_at),
  record t {
    approvals = Dict.put approval_id (approval write_id digest approval_id approved_at) t.approvals;
  },
)

approve_new :
    String → String → String → String → Option ApprovalRecord → Action Tables ApprovalRecord
unfolding approve_current
approve_new write_id digest approval_id approved_at (some existing) t =
    if str_eq existing.write_id write_id && str_eq existing.payload_digest digest
    then (ok existing, t)
    else (err (conflict "Exact approval already binds other content."), t)
approve_new write_id digest approval_id approved_at none t =
    approve_current write_id digest approval_id approved_at (active_approval_id t write_id) t

approve_known :
    String → String → String → String → Option PreparedWrite → Action Tables ApprovalRecord
unfolding approve_new
approve_known write_id digest approval_id approved_at none t =
    (err (key_error "Unknown prepared write"), t)
approve_known write_id digest approval_id approved_at (some w) t =
    if not (str_eq w.payload_digest digest)
    then (err (conflict "Prepared write payload no longer matches."), t)
    else approve_new write_id digest approval_id approved_at (Dict.get approval_id t.approvals) t

unfoldable pub approve_exact : String → String → String → String → Action Tables ApprovalRecord
unfolding approve_known
approve_exact write_id digest approval_id approved_at t =
    approve_known write_id digest approval_id approved_at (Dict.get write_id t.writes) t

-- the three NOT EXISTS of the query
unfoldable pub is_pending : Tables → PreparedWrite → Bool
is_pending t w =
    not (Dict.has w.id t.receipts)
    && not (
        any (λ (a : ApprovalRecord). approves w.id a && str_eq a.payload_digest w.payload_digest)
          (Dict.values t.approvals))
    && not (any (λ (p : StandingPermission). permission_matches p w) (Dict.values t.permissions))

unfoldable pub pending_approval_ids : Tables → List String
unfolding is_pending
pending_approval_ids t =
    map (λ (w : PreparedWrite). w.id) (keep (is_pending t) (Dict.values t.writes))

-- the UPDATE of a claim that was aborted keeps its attempts and counts its revision on
abbrev pub claimed_again :
    ExecutionClaim → String → String → WriteAuthorization → String → ExecutionClaim
claimed_again claim owner key a claimed_at = record claim {
  claim_owner = owner;
  claim_state = claimed;
  idempotency_key = key;
  authorization_kind = a.kind;
  authorization_id = a.authorization_id;
  authorization_scope = a.scope;
  claimed_at = claimed_at;
  revision = claim.revision + 1;
}

claim_found :
    PreparedWrite
    → String
    → String
    → WriteAuthorization
    → String
    → Option ExecutionClaim
    → Action Tables ExecutionClaim
claim_found w owner key a claimed_at none t = (
  ok (new_claim w owner key a claimed_at),
  set_execution w.id (new_claim w owner key a claimed_at) t,
)
claim_found w owner key a claimed_at (some existing) t =
    if not (str_eq existing.payload_digest w.payload_digest)
    then (err (conflict "Prepared write changed after it was claimed."), t)
    else if is_finalized existing.claim_state
    then (err (conflict "Prepared write is already finalized."), t)
    else if not (is_aborted existing.claim_state) && not (str_eq existing.claim_owner owner)
    then (err (conflict "Prepared write is claimed by another worker."), t)
    else if str_eq existing.claim_owner owner
        && (is_claimed existing.claim_state || is_dispatched existing.claim_state)
    then (ok existing, t)
    else (
      ok (claimed_again existing owner key a claimed_at),
      set_execution w.id (claimed_again existing owner key a claimed_at) t,
    )

unfoldable pub claim_execution :
    PreparedWrite → String → String → WriteAuthorization → String → Action Tables ExecutionClaim
unfolding claim_found
claim_execution w owner key a claimed_at t =
    claim_found w owner key a claimed_at (Dict.get w.id t.executions) t

-- a write whose authority is gone is aborted, and that is committed
dispatch_authorized :
    String → ExecutionClaim → Option WriteAuthorization → Action Tables ExecutionClaim
dispatch_authorized write_id claim none t = (
  err (authority_revoked "Authority was revoked before dispatch."),
  set_execution write_id (moved claim aborted) t,
)
dispatch_authorized write_id claim (some a) t =
    if is_claimed claim.claim_state
    then (ok (moved claim dispatched), set_execution write_id (moved claim dispatched) t)
    else (err (conflict "Prepared write is not dispatchable."), t)

dispatch_prepared : String → ExecutionClaim → Option PreparedWrite → Action Tables ExecutionClaim
unfolding dispatch_authorized
dispatch_prepared write_id claim none t = (err (key_error "Unknown prepared write"), t)
dispatch_prepared write_id claim (some w) t =
    dispatch_authorized write_id claim (authorization w t) t

dispatch_owned : String → Result ExecutionClaim → Action Tables ExecutionClaim
unfolding dispatch_prepared
dispatch_owned write_id (err e) t = (err e, t)
dispatch_owned write_id (ok claim) t =
    dispatch_prepared write_id claim (Dict.get write_id t.writes) t

unfoldable pub dispatch_execution : String → String → Action Tables ExecutionClaim
unfolding dispatch_owned owned_claim
dispatch_execution write_id owner t =
    dispatch_owned write_id (owned_claim owner (Dict.get write_id t.executions)) t

-- the receipt is inserted under its own id
abbrev pub inserted : String → ExecutionClaim → WriteReceipt → Tables → Tables
inserted write_id claim receipt t = record t {
  executions =
      Dict.put write_id (record (moved claim finalized) { attempts = receipt.attempts })
        t.executions;
  receipts = Dict.put receipt.write_id receipt t.receipts;
}

finalize_open : String → WriteReceipt → ExecutionClaim → Action Tables WriteReceipt
finalize_open write_id receipt claim t =
    if not (is_dispatched claim.claim_state || is_claimed claim.claim_state)
    then (err (conflict "Prepared write is not finalizable."), t)
    else if Dict.has receipt.write_id t.receipts
    then (err (other_error "UNIQUE constraint failed"), t)
    else (ok receipt, inserted write_id claim receipt t)

finalize_owned : String → WriteReceipt → Result ExecutionClaim → Action Tables WriteReceipt
unfolding finalize_open
finalize_owned write_id receipt (err e) t = (err e, t)
finalize_owned write_id receipt (ok claim) t = finalize_open write_id receipt claim t

unfoldable pub finalize_execution : String → String → WriteReceipt → Action Tables WriteReceipt
unfolding finalize_owned owned_claim
finalize_execution write_id owner receipt t =
    finalize_owned write_id receipt (owned_claim owner (Dict.get write_id t.executions)) t
