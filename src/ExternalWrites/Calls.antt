-- ===== src/ExternalWrites/Calls.antt =====
-- The calls of all workers on one external-write repository, in the order in which they are made,
-- and what no call changes.
pub mod Bound
pub mod Lifecycle
pub mod Once
pub mod Revisions
use reckoning.Prelude.{
  ℕ, ◌≡◌, ◌≢◌, refl, String, Bool, true, false, Option, none, some, List, [], ◌∷◌, arith, eq_iff,
}
use reckoning.Prelude.Dict
use reckoning.ExternalWrites.Records.{
  PreparedWrite, StandingPermission, WriteReceipt, ApprovalRecord, WriteAuthorization,
}
use reckoning.ExternalWrites.Tables.{Tables, permission_matches}
use reckoning.ExternalWrites.InMemory
use reckoning.ExternalWrites.Sqlite
use reckoning.ExternalWrites.Repository.{repository_of}

pub data Call : Type 0 where
  on_prepare : PreparedWrite → Call
  on_approve : String → String → String → String → Call
  on_grant : StandingPermission → Call
  on_revoke : String → String → Call
  on_claim : PreparedWrite → String → String → WriteAuthorization → String → Call
  on_dispatch on_abort : String → String → Call
  on_recover : String → ℕ → String → String → Call
  on_finalize : String → String → WriteReceipt → Call

-- the tables after the call, whether it returned or raised
unfoldable pub step : Option String → Tables → Call → Tables
unfolding InMemory.prepare InMemory.approve_exact InMemory.grant_permission
    InMemory.revoke_permission InMemory.get_permission InMemory.claim_execution
    InMemory.dispatch_execution InMemory.abort_execution InMemory.recover_execution
    InMemory.finalize_execution Sqlite.approve_exact Sqlite.claim_execution
    Sqlite.dispatch_execution Sqlite.finalize_execution
step path t (on_prepare w) = ((repository_of path).prepare w t).1
step path t (on_approve id digest approval_id at) =
    ((repository_of path).approve_exact id digest approval_id at t).1
step path t (on_grant p) = ((repository_of path).grant_permission p t).1
step path t (on_revoke permission_id at) =
    ((repository_of path).revoke_permission permission_id at t).1
step path t (on_claim w owner key a at) =
    ((repository_of path).claim_execution w owner key a at t).1
step path t (on_dispatch id owner) = ((repository_of path).dispatch_execution id owner t).1
step path t (on_abort id owner) = ((repository_of path).abort_execution id owner t).1
step path t (on_recover id expected owner at) =
    ((repository_of path).recover_execution id expected owner at t).1
step path t (on_finalize id owner receipt) =
    ((repository_of path).finalize_execution id owner receipt t).1

unfoldable pub steps : Option String → Tables → List Call → Tables
steps path t [] = t
steps path t (c ∷ cs) = steps path (step path t c) cs

ruleset call_rules = (arith, Dict.get-put, eq_iff)

step-writes :
    (path : Option String) (t : Tables) (c : Call) (id : String) (w : PreparedWrite)
    → Dict.get id t.writes ≡ some w
    → Dict.get id (step path t c).writes ≡ some w
unfolding step
step-writes none t (on_prepare x) id w h = grind call_rules
step-writes none t _ id w h = grind call_rules
step-writes (some path) t (on_prepare x) id w h = grind call_rules
step-writes (some path) t _ id w h = grind call_rules

-- Whatever calls follow, a prepared write stays as it was prepared.
pub steps-writes :
    (path : Option String) (t : Tables) (cs : List Call) (id : String) (w : PreparedWrite)
    → Dict.get id t.writes ≡ some w
    → Dict.get id (steps path t cs).writes ≡ some w
unfolding steps
steps-writes path t [] id w h = h
steps-writes path t (c ∷ cs) id w h =
    steps-writes path (step path t c) cs id w (step-writes path t c id w h)

step-revoked :
    (path : Option String) (t : Tables) (c : Call) (id at : String) (p : StandingPermission)
    → Dict.get id t.permissions ≡ some p
    → p.revoked_at ≡ some at
    → Dict.get id (step path t c).permissions ≡ some p
unfolding step
step-revoked none t (on_grant x) id at p h r = grind (call_rules, Dict.has-get)
step-revoked (some path) t (on_grant x) id at p h r = grind (call_rules, Dict.has-get)
step-revoked none t _ id at p h r = grind call_rules
step-revoked (some path) t _ id at p h r = grind call_rules

step-receipts :
    (path : String) (t : Tables) (c : Call) (id : String) (r : WriteReceipt)
    → Dict.get id t.receipts ≡ some r
    → Dict.get id (step (some path) t c).receipts ≡ some r
unfolding step
step-receipts path t (on_finalize x owner y) id r h = grind (call_rules, Dict.has-get)
step-receipts path t _ id r h = grind call_rules

steps-revoked :
    (path : Option String) (t : Tables) (cs : List Call) (id at : String) (p : StandingPermission)
    → Dict.get id t.permissions ≡ some p
    → p.revoked_at ≡ some at
    → Dict.get id (steps path t cs).permissions ≡ some p
unfolding steps
steps-revoked path t [] id at p h r = h
steps-revoked path t (c ∷ cs) id at p h r =
    steps-revoked path (step path t c) cs id at p (step-revoked path t c id at p h r) r

-- Whatever calls follow, a permission that is revoked stays in the store as it is, so that it is
-- neither granted again nor covers any write.
pub revoked_forever :
    (path : Option String) (t : Tables) (cs : List Call) (id at : String) (p : StandingPermission)
    (w : PreparedWrite)
    → Dict.get id t.permissions ≡ some p
    → p.revoked_at ≡ some at
    → (Dict.get id (steps path t cs).permissions ≡ some p) × (permission_matches p w ≡ false)
unfolding permission_matches
revoked_forever path t cs id at p w h r = (steps-revoked path t cs id at p h r, ground arith)

-- Whatever calls follow, the repository at a path keeps a receipt as it is.
pub steps-receipts :
    (path : String) (t : Tables) (cs : List Call) (id : String) (r : WriteReceipt)
    → Dict.get id t.receipts ≡ some r
    → Dict.get id (steps (some path) t cs).receipts ≡ some r
unfolding steps
steps-receipts path t [] id r h = h
steps-receipts path t (c ∷ cs) id r h =
    steps-receipts path (step (some path) t c) cs id r (step-receipts path t c id r h)

-- every write stands under its own id
abbrev pub IsKeyed : Tables → Type 0
IsKeyed t = (id : String) (w : PreparedWrite) → Dict.get id t.writes ≡ some w → w.id ≡ id

step-IsKeyed : (path : Option String) (t : Tables) (c : Call) → IsKeyed t → IsKeyed (step path t c)
unfolding step
step-IsKeyed none t (on_prepare x) k id w h = grind (call_rules, k)
step-IsKeyed none t _ k id w h = grind (call_rules, k)
step-IsKeyed (some path) t (on_prepare x) k id w h = grind (call_rules, k)
step-IsKeyed (some path) t _ k id w h = grind (call_rules, k)

pub steps-IsKeyed :
    (path : Option String) (t : Tables) (cs : List Call) → IsKeyed t → IsKeyed (steps path t cs)
unfolding steps
steps-IsKeyed path t [] k = k
steps-IsKeyed path t (c ∷ cs) k = steps-IsKeyed path (step path t c) cs (step-IsKeyed path t c k)

-- every approval is of a prepared write, and of the content that was prepared
unfoldable pub IsBound : Tables → Type 0
IsBound t =
    (approval_id : String) (r : ApprovalRecord)
    → Dict.get approval_id t.approvals ≡ some r
    → (w : PreparedWrite) × (Dict.get r.write_id t.writes ≡ some w)
      × (w.payload_digest ≡ r.payload_digest)
