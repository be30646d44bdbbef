-- ===== src/ExternalWrites/Execution/Delivered.antt =====
-- An authorized write that nobody holds is carried out and gets its receipt.
use reckoning.Prelude.{
  ℕ, suc, ◌+◌, ◌≤◌, ◌<◌, ◌≡◌, refl, String, true, false, Option, none, some, pos, arith, eq_iff, ap,
  ◌∙◌, subst, sym,
}
use reckoning.Prelude.Dict
use reckoning.Prelude.Result.{Result, ok}
use reckoning.ExternalWrites.Records.{
  PreparedWrite, WriteReceipt, WriteResult, WriteAuthorization, ExecutionClaim, aborted, claimed,
  dispatched,
}
use reckoning.ExternalWrites.Tables.{
  Tables, authorization_scope, covering, authorization, with_approval, active_approval_id,
}
use reckoning.ExternalWrites.InMemory
use reckoning.ExternalWrites.InMemory.{new_claim, moved}
use reckoning.ExternalWrites.Sqlite
use reckoning.ExternalWrites.Sqlite.{claimed_again}
use reckoning.ExternalWrites.Repository.{repository_of}
use reckoning.ExternalWrites.Authority.{authorization-with_approval}
use reckoning.ExternalWrites.Execution.{
  WriteConnector, Machine, receipt, receipt_of, execute, idempotency_key, invoke_adapter,
  no_callback, execute_invoked, numbered, returned,
}
use reckoning.ExternalWrites.Execution.Attempts.{
  Tries, fails, read_answer, answer_at, world_at, invoke_adapter-Tries,
}
use reckoning.ExternalWrites.Execution.Dispatched.{execute-carried_out}
use reckoning.ExternalWrites.Execution.Finished.{
  get_prepared-same, authorization-same, get_receipt-same,
}

-- nobody has a claim of the write, or it was given up with the same content
pub data IsFree (digest : String) : Option ExecutionClaim → Type 0 where
  unclaimed : IsFree digest none
  abandoned :
      (c : ExecutionClaim)
      → c.claim_state ≡ aborted
      → c.payload_digest ≡ digest
      → IsFree digest (some c)

get_at :
    {V : Type 0} (d : Dict.Dict V) {o : Option V} {i j : String}
    → i ≡ j
    → Dict.get i d ≡ o
    → Dict.get j d ≡ o
get_at d {o} same h = subst (λ (k : String). Dict.get k d ≡ o) same h

-- the claim that the worker gets
fresh :
    Option String
    → PreparedWrite
    → String
    → String
    → WriteAuthorization
    → String
    → Option ExecutionClaim
    → ExecutionClaim
fresh (some path) w owner key a at (some c) = claimed_again c owner key a at
fresh _ w owner key a at _ = new_claim w owner key a at

claim-fresh :
    (path : Option String) (w : PreparedWrite) (owner key at : String) (a : WriteAuthorization)
    (t : Tables) (o : Option ExecutionClaim)
    → Dict.get w.id t.executions ≡ o
    → IsFree w.payload_digest o
    → (repository_of path).claim_execution w owner key a at t ≡ (
      ok (fresh path w owner key a at o),
      InMemory.set_execution w.id (fresh path w owner key a at o) t,
    )
unfolding fresh InMemory.claim_execution Sqlite.claim_execution
claim-fresh none w owner key at a t none e unclaimed = rw e refl
claim-fresh (some path) w owner key at a t none e unclaimed = rw e refl
claim-fresh none w owner key at a t (some c) e (abandoned _ s d) =
    ground (arith, eq_iff c.payload_digest w.payload_digest)
claim-fresh (some path) w owner key at a t (some c) e (abandoned _ s d) =
    ground (arith, eq_iff c.payload_digest w.payload_digest)

fresh-claimed :
    (path : Option String) (w : PreparedWrite) (owner key at : String) (a : WriteAuthorization)
    (o : Option ExecutionClaim)
    → ((fresh path w owner key a at o).claim_owner ≡ owner)
      × ((fresh path w owner key a at o).claim_state ≡ claimed)
unfolding fresh
fresh-claimed none w owner key at a o = (refl, refl)
fresh-claimed (some path) w owner key at a none = (refl, refl)
fresh-claimed (some path) w owner key at a (some c) = (refl, refl)

-- the claim of an authorized write is dispatched by its owner
dispatch-claimed :
    (path : Option String) (id owner : String) (t : Tables) (w : PreparedWrite)
    (a : WriteAuthorization) (c : ExecutionClaim)
    → Dict.get id t.writes ≡ some w
    → authorization w t ≡ some a
    → Dict.get id t.executions ≡ some c
    → c.claim_owner ≡ owner
    → c.claim_state ≡ claimed
    → (repository_of path).dispatch_execution id owner t
      ≡ (ok (moved c dispatched), InMemory.set_execution id (moved c dispatched) t)
unfolding InMemory.dispatch_execution Sqlite.dispatch_execution InMemory.get_prepared
dispatch-claimed none id owner t w a c stored granted held owned s =
    ground
      (arith, eq_iff c.claim_owner owner, authorization-with_approval t w (active_approval_id t id))
dispatch-claimed (some path) id owner t w a c stored granted held owned s =
    ground (arith, eq_iff c.claim_owner owner)

-- a dispatched write without a receipt is finalized by its owner
finalize-dispatched :
    (path : Option String) (id owner : String) (t : Tables) (c : ExecutionClaim) (r : WriteReceipt)
    → Dict.get id t.executions ≡ some (moved c dispatched)
    → c.claim_owner ≡ owner
    → Dict.get id t.receipts ≡ none
    → r.write_id ≡ id
    → (((repository_of path).finalize_execution id owner r t).0 ≡ ok r)
      × (Dict.get id ((repository_of path).finalize_execution id owner r t).1.receipts ≡ some r)
unfolding InMemory.finalize_execution Sqlite.finalize_execution
finalize-dispatched none id owner t c r held owned new e =
    grind (arith, Dict.get-put, Dict.has-get, eq_iff)
finalize-dispatched (some path) id owner t c r held owned new e =
    grind (arith, Dict.get-put, Dict.has-get, eq_iff)

module _ {W : Type 0} (adapter : WriteConnector W) (payload : Dict.Dict String) (key : String) where
  -- the answer that ends the loop is the first that is no failure, or the one at the limit
  ends_at :
      (limit last : ℕ) (world : W) (end : Result (WriteResult × ℕ) × W)
      → Tries adapter payload key limit 0 world end
      → last ≤ limit
      → ((k : ℕ) → k < last → fails (answer_at adapter payload key k world) ≡ true)
      → (last < limit → fails (answer_at adapter payload key last world) ≡ false)
      → (end.0 ≡ numbered (suc last) (read_answer (answer_at adapter payload key last world)))
        × (end.1 ≡ world_at adapter payload key (suc last) world)
  ends_at limit last world end t within before stops =
      let same : last ≡ t.last = ground (arith, before t.last, t.before last, stops, t.stops) in
      let first : 0 + suc t.last ≡ suc t.last = omega arith in
      (rw same (rw (← first) t.result), rw same t.left)

module _ {W : Type 0} (path : Option String) (adapter : WriteConnector W)
    (owner completed_at : String) (retries : ℕ) (id : String) (m : Machine Tables W)
    (w : PreparedWrite) (a : WriteAuthorization) where
  -- the write as it is read from the store
  abbrev read : PreparedWrite
  read = with_approval w (active_approval_id m.store id)

  abbrev got : ExecutionClaim
  got =
      fresh path read owner (idempotency_key read) a completed_at (Dict.get w.id m.store.executions)

  abbrev held_store : Tables
  held_store = InMemory.set_execution w.id got m.store

  abbrev sent_store : Tables
  sent_store = InMemory.set_execution w.id (moved got dispatched) held_store

  claims_got :
      w.id ≡ id
      → IsFree w.payload_digest (Dict.get id m.store.executions)
      → (repository_of path).claim_execution read owner
          (idempotency_key read)
          a
          completed_at
          m.store
        ≡ (ok got, held_store)
  unfolding with_approval
  claims_got same free =
      claim-fresh path read owner (idempotency_key read) completed_at a m.store
        (Dict.get w.id m.store.executions) refl (rw same free)

  sends_got :
      Dict.get id m.store.writes ≡ some w
      → w.id ≡ id
      → authorization w m.store ≡ some a
      → (repository_of path).dispatch_execution w.id owner held_store
        ≡ (ok (moved got dispatched), sent_store)
  sends_got stored same granted =
      let (owned, state) =
        fresh-claimed path read owner (idempotency_key read) completed_at a
          (Dict.get w.id m.store.executions) in
      dispatch-claimed path w.id owner held_store w a got (get_at _ (sym same) stored)
        (unfold authorization in unfold active_approval_id in unfold covering in granted)
        (Dict.get-put_self w.id got m.store.executions) owned state

  run-carried_out :
      Dict.get id m.store.writes ≡ some w
      → w.id ≡ id
      → Dict.get id m.store.receipts ≡ none
      → authorization w m.store ≡ some a
      → IsFree w.payload_digest (Dict.get id m.store.executions)
      → execute (repository_of path) adapter owner completed_at (pos retries) no_callback id m
        ≡ execute_invoked
            (repository_of path)
            adapter
            owner
            completed_at
            (pos retries)
            read
            a
            (invoke_adapter adapter read.payload (idempotency_key read) (pos retries) m.world).0
            (record {
              store = sent_store;
              world =
                  (invoke_adapter adapter read.payload
                    (idempotency_key read)
                    (pos retries)
                    m.world).1;
            })
  unfolding with_approval
  run-carried_out stored same new granted free =
      let claims = claims_got same free in
      let sends = sends_got stored same granted in
      execute-carried_out (repository_of path) adapter owner completed_at (pos retries) no_callback
        id m read a got (moved got dispatched) (get_receipt-same path id m.store ∙ new)
        (get_prepared-same path id m.store ∙ ap (InMemory.approved_as m.store id) stored)
        (authorization-same path read m.store ∙ authorization-with_approval m.store w _ ∙ granted)
        refl (ap (λ x. x.0) claims) refl (rw claims (ap (λ x. x.0) sends))
      ∙ rw claims (rw sends refl)

  module _ (last : ℕ) (x : WriteResult) where
    finishes_got :
        (end : Result (WriteResult × ℕ)) (world : W)
        → end ≡ ok (x, suc last)
        → Dict.get w.id m.store.receipts ≡ none
        → let finish =
            execute_invoked
              (repository_of path)
              adapter
              owner
              completed_at
              (pos retries)
              read
              a
              end
              (record { store = sent_store; world = world }) in
          let done = receipt_of read a completed_at x (suc last) in
          (finish.0 ≡ ok (receipt done))
          × (Dict.get w.id finish.1.store.receipts ≡ some done)
          × (finish.1.world ≡ world)
    unfolding execute_invoked with_approval returned
    finishes_got end world e new =
        let (owned, state) =
          fresh-claimed path read owner (idempotency_key read) completed_at a
            (Dict.get w.id m.store.executions) in
        let (done, stored) =
          finalize-dispatched path w.id owner sent_store got
            (receipt_of read a completed_at x (suc last))
            (Dict.get-put_self w.id (moved got dispatched) held_store.executions) owned new refl in
        rw e ((ap returned done, stored, refl))

    -- A prepared write without a receipt that is authorized and that nobody holds is delivered:
    -- where the adapter answers by failures and then, within the retries, by a result that is no
    -- failure, or by a failure at the limit, the execution returns the receipt of that result with
    -- the number of the calls, stores it, and has called the adapter no more often.
    pub execute-delivers :
        Dict.get id m.store.writes ≡ some w
        → w.id ≡ id
        → Dict.get id m.store.receipts ≡ none
        → authorization w m.store ≡ some a
        → IsFree w.payload_digest (Dict.get id m.store.executions)
        → last ≤ retries
        → ((k : ℕ)
            → k < last
            → fails (answer_at adapter w.payload (idempotency_key w) k m.world) ≡ true)
        → answer_at adapter w.payload (idempotency_key w) last m.world ≡ ok x
        → (last < retries → fails (ok x) ≡ false)
        → let run =
            execute
              (repository_of path)
              adapter
              owner
              completed_at
              (pos retries)
              no_callback
              id
              m in
          let done = receipt_of w a completed_at x (suc last) in
          (run.0 ≡ ok (receipt done))
          × (Dict.get id run.1.store.receipts ≡ some done)
          × (run.1.world ≡ world_at adapter w.payload (idempotency_key w) (suc last) m.world)
    unfolding with_approval idempotency_key authorization_scope numbered read_answer
    execute-delivers stored same new granted free within before answer stops =
        let invoked = invoke_adapter adapter w.payload (idempotency_key w) (pos retries) m.world in
        let (result, left) =
          ends_at adapter w.payload (idempotency_key w) retries last m.world invoked
            (invoke_adapter-Tries adapter w.payload (idempotency_key w) retries m.world) within
            before (λ lt. rw answer (stops lt)) in
        let end : invoked.0 ≡ ok (x, suc last) =
          result ∙ ap (λ (y : Result WriteResult). numbered (suc last) (read_answer y)) answer in
        let (done, receipted, world) =
          finishes_got invoked.0 invoked.1 end (get_at _ (sym same) new) in
        let run = run-carried_out stored same new granted free in
        (
          ap (λ r. r.0) run ∙ done,
          ap (λ r. Dict.get id r.1.store.receipts) run ∙ get_at _ same receipted,
          ap (λ r. r.1.world) run ∙ world ∙ left,
        )
