-- ===== src/ExternalWrites/Execution/Blocked.antt =====
-- A write whose execution another worker holds.
use reckoning.Prelude.{
  ◌≡◌, ◌≢◌, refl, String, false, not, if◌then◌else◌, Option, none, some, ℤ, arith, eq_iff, str_eq,
  inl, inr, Bool-cases, is_negative, ap, ◌∙◌,
}
use reckoning.Prelude.Dict
use reckoning.Prelude.Result.{Result, ok, err, Error, Action, conflict, value_error}
use reckoning.ExternalWrites.Records.{
  PreparedWrite, WriteAuthorization, ExecutionClaim, is_aborted, is_finalized,
}
use reckoning.ExternalWrites.Tables.{Tables, authorization, with_approval, active_approval_id}
use reckoning.ExternalWrites.InMemory
use reckoning.ExternalWrites.Sqlite
use reckoning.ExternalWrites.Repository.{repository_of}
use reckoning.ExternalWrites.Authority.{authorization-with_approval}
use reckoning.ExternalWrites.Execution.{
  WriteConnector, Machine, Outcome, request, asked, execute_claimed, execute_authorized,
  execute_prepared, execute_new, execute, idempotency_key,
}
use reckoning.ExternalWrites.Execution.Finished.{
  get_prepared-same, authorization-same, get_receipt-same,
}

-- why a claim of a write is refused while another worker has one
pub refusal : PreparedWrite → ExecutionClaim → Error
refusal w c =
    if not (str_eq c.payload_digest w.payload_digest)
    then conflict "Prepared write changed after it was claimed."
    else if is_finalized c.claim_state
    then conflict "Prepared write is already finalized."
    else conflict "Prepared write is claimed by another worker."

module _ (t : Tables) (w : PreparedWrite) (owner key at : String) (a : WriteAuthorization)
    (c : ExecutionClaim) where
  claim_refused :
      (path : Option String)
      → Dict.get w.id t.executions ≡ some c
      → is_aborted c.claim_state ≡ false
      → c.claim_owner ≢ owner
      → (repository_of path).claim_execution w owner key a at t ≡ (err (refusal w c), t)
  unfolding InMemory.claim_execution Sqlite.claim_execution refusal
  claim_refused none h s other = ground (arith, eq_iff c.claim_owner owner)
  claim_refused (some path) h s other = ground (arith, eq_iff c.claim_owner owner)

-- what an execution of the write comes to, without a receipt and while another worker holds it
pub turned_away : PreparedWrite → ExecutionClaim → ℤ → Option WriteAuthorization → Result Outcome
turned_away w c max_retries none = ok (request (asked w))
turned_away w c max_retries (some a) =
    if is_negative max_retries
    then err (value_error "A write retry limit cannot be negative.")
    else err (refusal w c)

module _ {W : Type 0} (path : Option String) (adapter : WriteConnector W)
    (owner completed_at : String) (max_retries : ℤ)
    (on_claimed : String → Action (Machine Tables W) (Unit {0})) (m : Machine Tables W)
    (w : PreparedWrite) (c : ExecutionClaim) (held : Dict.get w.id m.store.executions ≡ some c)
    (kept : is_aborted c.claim_state ≡ false) (other : c.claim_owner ≢ owner) where
  authorized_blocked :
      (x : Option WriteAuthorization)
      → execute_authorized
          (repository_of path)
          adapter
          owner
          completed_at
          max_retries
          on_claimed
          w
          x
          m
        ≡ (turned_away w c max_retries x, m)
  unfolding execute_authorized turned_away execute_claimed
  authorized_blocked none = refl
  authorized_blocked (some a) = elim (Bool-cases (is_negative max_retries)) [
    | inl n ↦ rw n refl
    | inr n ↦ rw n (
        rw (claim_refused m.store w owner (idempotency_key w) completed_at a c path held kept other)
          refl)
  ]

turned_away-with_approval :
    (w : PreparedWrite) (approval_id : Option String) (c : ExecutionClaim) (max_retries : ℤ)
    (x : Option WriteAuthorization)
    → turned_away (with_approval w approval_id) c max_retries x ≡ turned_away w c max_retries x
unfolding turned_away with_approval refusal
turned_away-with_approval w approval_id c max_retries none = refl
turned_away-with_approval w approval_id c max_retries (some a) = refl

module _ {W : Type 0} (path : Option String) (adapter : WriteConnector W)
    (owner completed_at : String) (max_retries : ℤ)
    (on_claimed : String → Action (Machine Tables W) (Unit {0})) where
  prepared_blocked :
      (m : Machine Tables W) (w : PreparedWrite) (c : ExecutionClaim)
      → Dict.get w.id m.store.executions ≡ some c
      → is_aborted c.claim_state ≡ false
      → c.claim_owner ≢ owner
      → execute_prepared
          (repository_of path)
          adapter
          owner
          completed_at
          max_retries
          on_claimed
          (ok w)
          m
        ≡ (turned_away w c max_retries (authorization w m.store), m)
  unfolding execute_prepared
  prepared_blocked m w c held kept other = rw (authorization-same path w m.store) (
      authorized_blocked path adapter owner completed_at max_retries on_claimed m w c held kept
        other (authorization w m.store))

  -- While another worker has the claim of a write, claimed, dispatched or finalized, and there is
  -- no receipt, an execution changes nothing and calls neither the adapter nor the callback. It
  -- asks for an approval where the write is not authorized; else it raises.
  pub execute_blocked :
      (id : String) (m : Machine Tables W) (w : PreparedWrite) (c : ExecutionClaim)
      → Dict.get id m.store.writes ≡ some w
      → w.id ≡ id
      → Dict.get id m.store.receipts ≡ none
      → Dict.get id m.store.executions ≡ some c
      → is_aborted c.claim_state ≡ false
      → c.claim_owner ≢ owner
      → execute (repository_of path) adapter owner completed_at max_retries on_claimed id m
        ≡ (turned_away w c max_retries (authorization w m.store), m)
  unfolding execute execute_new
  execute_blocked id m w c stored same new held kept other =
      let approval_id = active_approval_id m.store id in
      rw (get_receipt-same path id m.store) (
        rw new (
          rw (get_prepared-same path id m.store) (
            rw stored (
              prepared_blocked m (with_approval w approval_id) c
                (unfold with_approval in rw same held) kept other
              ∙ ap (λ r. (r, m))
                  (turned_away-with_approval w approval_id c max_retries _
                    ∙ ap (turned_away w c max_retries)
                        (authorization-with_approval m.store w approval_id))))))
