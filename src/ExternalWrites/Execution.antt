-- ===== src/ExternalWrites/Execution.antt =====
-- ExternalWriteService.execute of connectors.py over a repository, with the adapter that carries a
-- write out. The adapter, the owner name of a claim and the callback are outside the source:
-- parameters. The callback may change the store, as other workers may while the claim is held.
pub mod Attempts
pub mod Dispatched
pub mod Finished
pub mod Blocked
pub mod Delivered
use reckoning.Prelude.{
  ℕ, zero, suc, ◌+◌, String, Bool, true, false, Option, none, some, List, [], ◌∷◌, ℤ, pos, negsuc,
  is_blank, is_empty, is_negative, concat, if◌then◌else◌,
}
use reckoning.Prelude.Dict
use reckoning.Prelude.Dict.{Dict}
use reckoning.Prelude.Result.{
  Result, ok, err, Error, value_error, key_error, permission_error, runtime_error, assertion_error,
  limit_exceeded, quote_exceeded, conflict, authority_revoked, interrupted_error, other_error,
  Action, raise_if, ◌>>◌,
}
use reckoning.Automation.Runner.{message, is_interrupted}
use reckoning.ExternalWrites.Records.{
  PreparedWrite, StandingPermission, ApprovalRequest, WriteResult, WriteReceipt, ApprovalRecord,
  WriteAuthorization, ExecutionClaim, failed, unknown, ends_retries,
}
use reckoning.ExternalWrites.Tables.{authorization_scope}
use reckoning.ExternalWrites.Repository.{ExternalWriteRepository}

-- WriteConnector.execute
abbrev pub WriteConnector : Type 0 → Type 0
WriteConnector W = Dict String → String → Action W WriteResult

-- what `execute` returns
pub data Outcome : Type 0 where
  receipt : WriteReceipt → Outcome
  request : ApprovalRequest → Outcome

-- the store and the state of the world
pub record Machine (S W : Type 0) : Type 0 where
  pub store : S
  pub world : W

-- isinstance(error, ExternalWriteAuthorityRevoked)
abbrev pub is_revoked : Error → Bool
is_revoked (authority_revoked text) = true
is_revoked _ = false

abbrev pub not_called : WriteResult
not_called = record {
  status = failed;
  external_id = none;
  detail = "Write adapter was not called.";
}

abbrev pub outcome_unknown : Error → WriteResult
outcome_unknown e = record {
  status = unknown;
  external_id = none;
  detail = concat "Write outcome unknown: " (message e);
}

-- len(range(1, max_retries + 2))
abbrev pub rounds : ℤ → ℕ
rounds (pos n) = suc n
rounds (negsuc n) = zero

-- a write's result with the number of the attempt that brought it
abbrev pub Attempted : Type 0
Attempted = WriteResult × ℕ

-- an answer of the adapter that ends the loop, or nothing where it goes round again
ends : Result WriteResult → Option (Result WriteResult)
ends (err e) = if is_interrupted e then some (err e) else some (ok (outcome_unknown e))
ends (ok x) = if ends_retries x.status then some (ok x) else none

last_result : WriteResult → Result WriteResult → WriteResult
last_result before (ok x) = x
last_result before (err e) = before

unfoldable pub numbered : ℕ → Result WriteResult → Result Attempted
numbered n (ok x) = ok (x, n)
numbered n (err e) = err e

module _ {W : Type 0} (adapter : WriteConnector W) (payload : Dict String) (key : String) where
  -- the loop of _invoke_adapter: the rounds that are left, the attempts made and the last result
  unfoldable pub attempt_rounds : ℕ → ℕ → WriteResult → Action W Attempted
  unfolding ends last_result numbered
  attempt_rounds zero attempts result world = (ok (result, attempts), world)
  attempt_rounds (suc left) attempts result world =
      let (answer, world') = adapter payload key world in
      elim (ends answer) [
        | some final ↦ (numbered (suc attempts) final, world')
        | none ↦ attempt_rounds left (suc attempts) (last_result result answer) world'
      ]

  -- _invoke_adapter
  unfoldable pub invoke_adapter : ℤ → Action W Attempted
  invoke_adapter max_retries world = attempt_rounds (rounds max_retries) 0 not_called world

-- ApprovalRequest(prepared.id, …)
abbrev pub asked : PreparedWrite → ApprovalRequest
asked w = record {
  write_id = w.id;
  prepared_payload = w.payload;
  reason = "No exact approval or matching standing permission.";
}

unfoldable pub idempotency_key : PreparedWrite → String
idempotency_key w = concat "reckoning-write:" (concat w.id (concat ":" w.payload_digest))

abbrev pub receipt_of : PreparedWrite → WriteAuthorization → String → WriteResult → ℕ → WriteReceipt
receipt_of w a completed_at x attempts = record {
  write_id = w.id;
  connector_id = w.connector_id;
  status = x.status;
  external_id = x.external_id;
  detail = x.detail;
  attempts = attempts;
  idempotency_key = idempotency_key w;
  completed_at = completed_at;
  authorization_kind = a.kind;
  authorization_id = a.authorization_id;
  authorization_scope = authorization_scope w;
}

returned : Result WriteReceipt → Result Outcome
returned (ok done) = ok (receipt done)
returned (err e) = err e

asked_after : PreparedWrite → Result (Unit {0}) → Result Outcome
asked_after w (ok done) = ok (request (asked w))
asked_after w (err e) = err e

module _ {S W : Type 0} (repository : ExternalWriteRepository S) (adapter : WriteConnector W)
    (owner completed_at : String) (max_retries : ℤ) where
  unfoldable pub execute_invoked :
      PreparedWrite → WriteAuthorization → Result Attempted → Action (Machine S W) Outcome
  unfolding returned
  execute_invoked w a (err e) m = (err e, m)
  execute_invoked w a (ok (x, attempts)) m =
      let (done, store') =
        repository.finalize_execution w.id owner (receipt_of w a completed_at x attempts) m.store in
      (returned done, record m { store = store' })

  execute_dispatched :
      PreparedWrite → WriteAuthorization → Result ExecutionClaim → Action (Machine S W) Outcome
  unfolding execute_invoked invoke_adapter asked_after
  execute_dispatched w a (err e) m =
      if is_revoked e
      then (let (aborted, store') = repository.abort_execution w.id owner m.store in
          (asked_after w aborted, record m { store = store' }))
      else (err e, m)
  execute_dispatched w a (ok claim) m =
      let (attempted, world') =
        invoke_adapter adapter w.payload (idempotency_key w) max_retries m.world in
      execute_invoked w a attempted (record m { world = world' })

  execute_called_back :
      PreparedWrite → WriteAuthorization → Result (Unit {0}) → Action (Machine S W) Outcome
  unfolding execute_dispatched
  execute_called_back w a (err e) m = (err e, m)
  execute_called_back w a (ok done) m =
      let (dispatched, store') = repository.dispatch_execution w.id owner m.store in
      execute_dispatched w a dispatched (record m { store = store' })

  module _ (on_claimed : String → Action (Machine S W) (Unit {0})) where
    execute_claimed :
        PreparedWrite → WriteAuthorization → Result ExecutionClaim → Action (Machine S W) Outcome
    unfolding execute_called_back
    execute_claimed w a (err e) m = (err e, m)
    execute_claimed w a (ok claim) m =
        let (done, m') = on_claimed owner m in execute_called_back w a done m'

    execute_authorized : PreparedWrite → Option WriteAuthorization → Action (Machine S W) Outcome
    unfolding execute_claimed
    execute_authorized w none m = (ok (request (asked w)), m)
    execute_authorized w (some a) m =
        if is_negative max_retries
        then (err (value_error "A write retry limit cannot be negative."), m)
        else (let (claim, store') =
              repository.claim_execution w owner (idempotency_key w) a completed_at m.store in
            execute_claimed w a claim (record m { store = store' }))

    execute_prepared : Result PreparedWrite → Action (Machine S W) Outcome
    unfolding execute_authorized
    execute_prepared (err e) m = (err e, m)
    execute_prepared (ok w) m = execute_authorized w (repository.authorization w m.store) m

    execute_new : String → Option WriteReceipt → Action (Machine S W) Outcome
    unfolding execute_prepared
    execute_new write_id (some existing) m = (ok (receipt existing), m)
    execute_new write_id none m = execute_prepared (repository.get_prepared write_id m.store) m

    unfoldable pub execute : String → Action (Machine S W) Outcome
    unfolding execute_new
    execute write_id m = execute_new write_id (repository.get_receipt write_id m.store) m

-- a call without a callback
abbrev pub no_callback {ℓ} : {M : Type ℓ} → String → Action M (Unit {ℓ})
no_callback owner m = (ok tt, m)
