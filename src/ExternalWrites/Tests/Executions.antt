-- ===== src/ExternalWrites/Tests/Executions.antt =====
-- Witnesses: one mail, its executions and the calls of its adapter.
use reckoning.Prelude.{
  ℕ, zero, suc, ◌<◌, eq_iff, ◌≡◌, ◌≢◌, ◌⊎◌, refl, none, some, [], ◌∷◌, pos, arith, true,
}
use reckoning.Prelude.Dict
use reckoning.Prelude.Result.{ok}
use reckoning.ExternalWrites.Records.{success, failed, ExecutionClaim, dispatched}
use reckoning.ExternalWrites.Tables.{
  Tables, active_approval, active_approval_id, authorization, authorization_scope, covering,
  join_bars, with_approval,
}
use reckoning.ExternalWrites.InMemory
use reckoning.ExternalWrites.Sqlite
use reckoning.ExternalWrites.Repository.{repository_of}
use reckoning.ExternalWrites.Calls.{on_approve, steps, IsKeyed}
use reckoning.ExternalWrites.Authority.{Reached, execute-Authorized}
use reckoning.ExternalWrites.Execution.{
  Machine, receipt, receipt_of, execute, no_callback, idempotency_key, invoke_adapter,
  attempt_rounds, numbered, execute_invoked,
}
use reckoning.ExternalWrites.Execution.Attempts.{
  Tries, invoke_adapter-Tries, answer_at, world_at, fails,
}
use reckoning.ExternalWrites.Execution.Dispatched.{Uncalled}
use reckoning.ExternalWrites.Execution.Finished.{executed_once}
use reckoning.ExternalWrites.Execution.Blocked.{execute_blocked, turned_away}
use reckoning.ExternalWrites.Execution.Delivered.{execute-delivers, unclaimed}
use reckoning.ExternalWrites.Tests.{
  Post, adapter, result, says, mail, approved, grounds, machine, run,
}

abbrev start : Machine Tables Post
start = machine approved (says failed ∷ says success ∷ [])

execute-Authorized_example :
    Uncalled
      (repository_of none)
      adapter
      "k1"
      "wed"
      (pos 1)
      no_callback
      (λ other. execute (repository_of none) other "k1" "wed" (pos 1) no_callback "w1" start)
    ⊎ Reached none adapter "k1" "wed"
        (pos 1)
        no_callback
        "w1"
        start
        (execute (repository_of none) adapter "k1" "wed" (pos 1) no_callback "w1" start)
execute-Authorized_example =
    execute-Authorized none adapter "k1" "wed" (pos 1) no_callback "w1" start

invoke_adapter-Tries_example :
    Tries adapter mail.payload "key" 1 0 start.world
      (invoke_adapter adapter mail.payload "key" (pos 1) start.world)
invoke_adapter-Tries_example = invoke_adapter-Tries adapter mail.payload "key" 1 start.world

mail-IsKeyed : (t : Tables) → t.writes ≡ ("w1", mail) ∷ [] → IsKeyed t
unfolding Dict.get
mail-IsKeyed t e id w h = ground (arith, eq_iff "w1" id, e)

first_receipt :
    (run (some "p") start).0 ≡ ok (receipt (receipt_of mail grounds "wed" (result success) 2))
unfolding execute InMemory.get_receipt Dict.get InMemory.get_prepared InMemory.claim_execution
    InMemory.dispatch_execution InMemory.finalize_execution InMemory.owned_claim active_approval
    active_approval_id authorization authorization_scope covering join_bars Dict.values
    with_approval idempotency_key invoke_adapter attempt_rounds numbered execute_invoked Dict.put
    Dict.has Sqlite.claim_execution Sqlite.dispatch_execution Sqlite.finalize_execution
first_receipt = refl

executed_once_example :
    let store' =
      steps
        (some "p")
        (execute
          (repository_of (some "p"))
          adapter
          "k1"
          "wed"
          (pos 1)
          no_callback
          "w1"
          start).1.store
        (on_approve "w1" "d1" "a2" "thu" ∷ []) in
    execute
      (repository_of (some "p"))
      adapter
      "k2"
      "fri"
      (pos 3)
      no_callback
      "w1"
      (record { store = store'; world = (says success ∷ [], []) })
    ≡ (
      ok (receipt (receipt_of mail grounds "wed" (result success) 2)),
      record { store = store'; world = (says success ∷ [], []) },
    )
executed_once_example =
    executed_once "p" adapter adapter "k1" "k2" "wed" "fri" (pos 1) (pos 3) no_callback no_callback
      "w1" start (on_approve "w1" "d1" "a2" "thu" ∷ [])
      (receipt_of mail grounds "wed" (result success) 2) (says success ∷ [], [])
      (mail-IsKeyed approved refl) first_receipt

abbrev other_claim : ExecutionClaim
other_claim = record (InMemory.new_claim mail "k9" "reckoning-write:w1:d1" grounds "tue") {
  claim_state = dispatched;
  revision = 2;
}

abbrev sent_by_other : Tables
sent_by_other = record approved { executions = ("w1", other_claim) ∷ [] }

abbrev blocked : Machine Tables Post
blocked = machine sent_by_other (says success ∷ [])

found_mail : Dict.get "w1" sent_by_other.writes ≡ some mail
unfolding Dict.get
found_mail = refl

no_receipt : Dict.get "w1" sent_by_other.receipts ≡ none
unfolding Dict.get
no_receipt = refl

found_claim : Dict.get "w1" sent_by_other.executions ≡ some other_claim
unfolding Dict.get
found_claim = refl

apart : other_claim.claim_owner ≢ "k1"
apart = ground (arith, eq_iff "k9" "k1")

execute_blocked_example :
    run (some "p") blocked
    ≡ (turned_away mail other_claim (pos 1) (authorization mail sent_by_other), blocked)
execute_blocked_example =
    execute_blocked (some "p") adapter "k1" "wed" (pos 1) no_callback "w1" blocked mail other_claim
      found_mail refl no_receipt found_claim refl apart

approved_mail : authorization mail approved ≡ some grounds
unfolding execute InMemory.get_receipt Dict.get InMemory.get_prepared InMemory.claim_execution
    InMemory.dispatch_execution InMemory.finalize_execution InMemory.owned_claim active_approval
    active_approval_id authorization authorization_scope covering join_bars Dict.values
    with_approval idempotency_key invoke_adapter attempt_rounds numbered execute_invoked Dict.put
    Dict.has Sqlite.claim_execution Sqlite.dispatch_execution Sqlite.finalize_execution
approved_mail = refl

first_fails :
    (k : ℕ)
    → k < 1
    → fails (answer_at adapter mail.payload (idempotency_key mail) k start.world) ≡ true
unfolding answer_at
first_fails zero lt = refl
first_fails (suc k) lt = absurd (omega arith)

then_sent : answer_at adapter mail.payload (idempotency_key mail) 1 start.world ≡ says success
unfolding answer_at
then_sent = refl

execute-delivers_example :
    let done = receipt_of mail grounds "wed" (result success) 2 in
    ((run none start).0 ≡ ok (receipt done))
    × (Dict.get "w1" (run none start).1.store.receipts ≡ some done)
    × ((run none start).1.world
        ≡ world_at adapter mail.payload (idempotency_key mail) 2 start.world)
unfolding Dict.get
execute-delivers_example =
    execute-delivers none adapter "k1" "wed" 1 "w1" start mail grounds 1 (result success) found_mail
      refl no_receipt approved_mail unclaimed (omega arith) first_fails then_sent (λ lt. refl)
