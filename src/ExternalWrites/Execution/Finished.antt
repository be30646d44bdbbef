-- ===== src/ExternalWrites/Execution/Finished.antt =====
-- A write that was executed once: its receipt is stored, and no later execution calls an adapter.
use reckoning.Prelude.{
  ◌≡◌, inl, inr, refl, subst, String, Option, none, some, List, ℤ, arith, eq_iff, Bool-cases,
  is_negative,
}
use reckoning.Prelude.Dict
use reckoning.Prelude.Result.{Result, ok, err, Action}
use reckoning.ExternalWrites.Records.{
  PreparedWrite, WriteReceipt, WriteAuthorization, ExecutionClaim,
}
use reckoning.ExternalWrites.Tables.{Tables, authorization, with_approval, active_approval_id}
use reckoning.ExternalWrites.InMemory
use reckoning.ExternalWrites.Sqlite
use reckoning.ExternalWrites.Repository.{repository_of}
use reckoning.ExternalWrites.Calls.{Call, steps, steps-receipts, IsKeyed}
use reckoning.ExternalWrites.Execution.{
  WriteConnector, Machine, Outcome, receipt, request, Attempted, returned, asked_after, receipt_of,
  execute_invoked, execute_dispatched, execute_called_back, execute_claimed, execute_authorized,
  execute_prepared, execute_new, execute, is_revoked,
}

finalize-receipt :
    (path : Option String) (id owner : String) (r done : WriteReceipt) (t : Tables)
    → r.write_id ≡ id
    → ((repository_of path).finalize_execution id owner r t).0 ≡ ok done
    → Dict.get id ((repository_of path).finalize_execution id owner r t).1.receipts ≡ some done
unfolding InMemory.finalize_execution Sqlite.finalize_execution
finalize-receipt none id owner r done t e h = grind (arith, Dict.get-put, eq_iff)
finalize-receipt (some path) id owner r done t e h = grind (arith, Dict.get-put, eq_iff)

-- an execution that returns a receipt has stored it under the id of the write
abbrev Receipted : {W : Type 0} → String → Result Outcome × Machine Tables W → Type 0
Receipted id (ok (receipt r), m) = Dict.get id m.store.receipts ≡ some r
Receipted id (ok (request a), m) = Unit
Receipted id (err e, m) = Unit

pub get_prepared-same :
    (path : Option String) (id : String) (t : Tables)
    → (repository_of path).get_prepared id t ≡ InMemory.approved_as t id (Dict.get id t.writes)
unfolding InMemory.get_prepared
get_prepared-same none id t = refl
get_prepared-same (some path) id t = refl

pub authorization-same :
    (path : Option String) (w : PreparedWrite) (t : Tables)
    → (repository_of path).authorization w t ≡ authorization w t
authorization-same none w t = refl
authorization-same (some path) w t = refl

pub get_receipt-same :
    (path : Option String) (id : String) (t : Tables)
    → (repository_of path).get_receipt id t ≡ Dict.get id t.receipts
unfolding InMemory.get_receipt
get_receipt-same none id t = refl
get_receipt-same (some path) id t = refl

module _ {W : Type 0} (path : Option String) (adapter : WriteConnector W)
    (owner completed_at : String) (max_retries : ℤ) where
  module _ (w : PreparedWrite) (a : WriteAuthorization) where
    finalized-Receipted :
        (r : WriteReceipt) (world : W) (t : Tables) (end : Result WriteReceipt)
        → r.write_id ≡ w.id
        → ((repository_of path).finalize_execution w.id owner r t).0 ≡ end
        → Receipted w.id (
          returned end,
          record {
            store = ((repository_of path).finalize_execution w.id owner r t).1;
            world = world;
          },
        )
    unfolding returned
    finalized-Receipted r world t (err e) same h = tt
    finalized-Receipted r world t (ok done) same h =
        finalize-receipt path w.id owner r done t same h

    invoked-Receipted :
        (x : Result Attempted) (m : Machine Tables W)
        → Receipted w.id
            (execute_invoked (repository_of path) adapter owner completed_at max_retries w a x m)
    unfolding execute_invoked
    invoked-Receipted (err e) m = tt
    invoked-Receipted (ok (x, n)) m =
        finalized-Receipted (receipt_of w a completed_at x n) m.world m.store _ refl refl

    asked-Receipted :
        (x : Result (Unit {0})) (m : Machine Tables W) → Receipted w.id (asked_after w x, m)
    unfolding asked_after
    asked-Receipted (err e) m = tt
    asked-Receipted (ok done) m = tt

    dispatched-Receipted :
        (x : Result ExecutionClaim) (m : Machine Tables W)
        → Receipted w.id
            (execute_dispatched (repository_of path) adapter owner completed_at max_retries w a x m)
    unfolding execute_dispatched
    dispatched-Receipted (ok claim) m = invoked-Receipted _ _
    dispatched-Receipted (err e) m = elim (Bool-cases (is_revoked e)) [
      | inl gone ↦ rw gone (asked-Receipted _ _)
      | inr other ↦ rw other tt
    ]

    called_back-Receipted :
        (x : Result (Unit {0})) (m : Machine Tables W)
        → Receipted w.id (
            execute_called_back (repository_of path) adapter owner completed_at max_retries w a x m)
    unfolding execute_called_back
    called_back-Receipted (err e) m = tt
    called_back-Receipted (ok done) m = dispatched-Receipted _ _

    module _ (on_claimed : String → Action (Machine Tables W) (Unit {0})) where
      claimed-Receipted :
          (x : Result ExecutionClaim) (m : Machine Tables W)
          → Receipted w.id (
              execute_claimed
                (repository_of path)
                adapter
                owner
                completed_at
                max_retries
                on_claimed
                w
                a
                x
                m)
      unfolding execute_claimed
      claimed-Receipted (err e) m = tt
      claimed-Receipted (ok claim) m = called_back-Receipted _ _

  module _ (on_claimed : String → Action (Machine Tables W) (Unit {0})) where
    authorized-Receipted :
        (w : PreparedWrite) (x : Option WriteAuthorization) (m : Machine Tables W)
        → Receipted w.id (
            execute_authorized
              (repository_of path)
              adapter
              owner
              completed_at
              max_retries
              on_claimed
              w
              x
              m)
    unfolding execute_authorized
    authorized-Receipted w none m = tt
    authorized-Receipted w (some a) m = elim (Bool-cases (is_negative max_retries)) [
      | inl n ↦ rw n tt
      | inr n ↦ rw n (claimed-Receipted w a on_claimed _ _)
    ]

    prepared-Receipted :
        (id : String) (x : Option PreparedWrite) (m : Machine Tables W)
        → ((w : PreparedWrite) → x ≡ some w → w.id ≡ id)
        → Receipted id (
            execute_prepared
              (repository_of path)
              adapter
              owner
              completed_at
              max_retries
              on_claimed
              (InMemory.approved_as m.store id x)
              m)
    unfolding execute_prepared with_approval
    prepared-Receipted id none m k = tt
    prepared-Receipted id (some w) m k =
        subst
          (λ (i : String). Receipted i (
            execute_prepared (repository_of path) adapter owner completed_at max_retries on_claimed
              (ok (with_approval w (active_approval_id m.store id))) m))
          (k w refl) (authorized-Receipted (with_approval w (active_approval_id m.store id)) _ m)

    new-Receipted :
        (id : String) (x : Option WriteReceipt) (m : Machine Tables W)
        → IsKeyed m.store
        → Dict.get id m.store.receipts ≡ x
        → Receipted id (
            execute_new
              (repository_of path)
              adapter
              owner
              completed_at
              max_retries
              on_claimed
              id
              x
              m)
    unfolding execute_new
    new-Receipted id (some r) m k e = e
    new-Receipted id none m k e =
        rw (get_prepared-same path id m.store)
          (prepared-Receipted id (Dict.get id m.store.writes) m (k id))

    execute-Receipted :
        (id : String) (m : Machine Tables W)
        → IsKeyed m.store
        → Receipted id
            (execute (repository_of path) adapter owner completed_at max_retries on_claimed id m)
    unfolding execute
    execute-Receipted id m k =
        rw (get_receipt-same path id m.store)
          (new-Receipted id (Dict.get id m.store.receipts) m k refl)

Receipted-stored :
    {W : Type 0} (id : String) (x : Result Outcome × Machine Tables W) (r : WriteReceipt)
    → Receipted id x
    → x.0 ≡ ok (receipt r)
    → Dict.get id x.1.store.receipts ≡ some r
Receipted-stored id (ok (receipt s), m) r h e = let same : s ≡ r = cc in rw (← same) h
Receipted-stored id (ok (request a), m) r h e = absurd (cc)
Receipted-stored id (err e', m) r h e = absurd (cc)

module _ {W : Type 0} (path : Option String) (adapter : WriteConnector W)
    (owner completed_at : String) (max_retries : ℤ)
    (on_claimed : String → Action (Machine Tables W) (Unit {0})) where
  -- an execution of a write that has a receipt returns it and does nothing else
  execute-stored :
      (id : String) (m : Machine Tables W) (r : WriteReceipt)
      → Dict.get id m.store.receipts ≡ some r
      → execute (repository_of path) adapter owner completed_at max_retries on_claimed id m
        ≡ (ok (receipt r), m)
  unfolding execute execute_new
  execute-stored id m r h = rw (get_receipt-same path id m.store) (rw h refl)

module _ {W : Type 0} (path : String) (adapter again : WriteConnector W)
    (owner other completed_at later : String) (max_retries retries : ℤ)
    (on_claimed on_again : String → Action (Machine Tables W) (Unit {0})) where
  -- Once an execution has returned a receipt, with the repository at a path, and whatever calls
  -- the workers make after it, every later execution of the write returns the same receipt and
  -- changes nothing, whichever adapter, worker, limit and callback it has: the write is not carried
  -- out again. The writes stand under their own ids, as every call keeps them.
  pub executed_once :
      (id : String) (m : Machine Tables W) (cs : List Call) (r : WriteReceipt) (world : W)
      → IsKeyed m.store
      → (execute
          (repository_of (some path))
          adapter
          owner
          completed_at
          max_retries
          on_claimed
          id
          m).0
        ≡ ok (receipt r)
      → let store' =
          steps
            (some path)
            (execute
              (repository_of (some path))
              adapter
              owner
              completed_at
              max_retries
              on_claimed
              id
              m).1.store
            cs in
        execute
          (repository_of (some path))
          again
          other
          later
          retries
          on_again
          id
          (record { store = store'; world = world })
        ≡ (ok (receipt r), record { store = store'; world = world })
  executed_once id m cs r world k h =
      let run =
        execute (repository_of (some path)) adapter owner completed_at max_retries on_claimed id
          m in
      let stored =
        Receipted-stored id run r
          (execute-Receipted (some path) adapter owner completed_at max_retries on_claimed id m k)
          h in
      execute-stored (some path) again other later retries on_again id _ r
        (steps-receipts path run.1.store cs id r stored)
