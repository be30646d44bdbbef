-- ===== src/ExternalWrites/Calls/Once.antt =====
-- A write that was dispatched is not dispatched again behind its owner's back.
use reckoning.Prelude.{
  ◌≡◌, ◌≢◌, String, Bool, true, false, ◌&&◌, ◌||◌, Option, none, some, List, [], ◌∷◌, arith, str_eq,
  all, not,
}
use reckoning.Prelude.Dict
use reckoning.Prelude.Result.{ok}
use reckoning.ExternalWrites.Records.{ExecutionClaim, claimed, is_dispatched, is_finalized}
use reckoning.ExternalWrites.Tables.{Tables}
use reckoning.ExternalWrites.InMemory
use reckoning.ExternalWrites.Sqlite
use reckoning.ExternalWrites.Repository.{repository_of}
use reckoning.ExternalWrites.Calls.{
  Call, on_claim, on_dispatch, on_abort, on_recover, on_finalize, step, steps, call_rules,
}
use reckoning.ExternalWrites.Authority.{dispatch-Dispatchable}

-- the claim of the owner is dispatched or finalized
spent : String → Option ExecutionClaim → Bool
spent owner none = false
spent owner (some c) =
    str_eq c.claim_owner owner && (is_dispatched c.claim_state || is_finalized c.claim_state)

-- a call that may make the write free again: its recovery, or a call of the owner itself to abort
-- it or to dispatch it once more
unfoldable pub reopens : String → String → Call → Bool
reopens id owner (on_recover x expected new_owner at) = str_eq x id
reopens id owner (on_abort x by) = str_eq x id && str_eq by owner
reopens id owner (on_dispatch x by) = str_eq x id && str_eq by owner
reopens id owner _ = false

step-spent :
    (path : Option String) (t : Tables) (c : Call) (id owner : String)
    → reopens id owner c ≡ false
    → spent owner (Dict.get id t.executions) ≡ true
    → spent owner (Dict.get id (step path t c).executions) ≡ true
unfolding step spent reopens
step-spent none t (on_claim w by key a at) id owner r h = grind call_rules
step-spent none t (on_dispatch x by) id owner r h = grind call_rules
step-spent none t (on_abort x by) id owner r h = grind call_rules
step-spent none t (on_recover x expected by at) id owner r h = grind call_rules
step-spent none t (on_finalize x by receipt) id owner r h = grind call_rules
step-spent none t _ id owner r h = grind call_rules
step-spent (some path) t (on_claim w by key a at) id owner r h = grind call_rules
step-spent (some path) t (on_dispatch x by) id owner r h = grind call_rules
step-spent (some path) t (on_abort x by) id owner r h = grind call_rules
step-spent (some path) t (on_recover x expected by at) id owner r h = grind call_rules
step-spent (some path) t (on_finalize x by receipt) id owner r h = grind call_rules
step-spent (some path) t _ id owner r h = grind call_rules

steps-spent :
    (path : Option String) (t : Tables) (cs : List Call) (id owner : String)
    → all (λ (c : Call). not (reopens id owner c)) cs ≡ true
    → spent owner (Dict.get id t.executions) ≡ true
    → spent owner (Dict.get id (steps path t cs).executions) ≡ true
unfolding steps
steps-spent path t [] id owner r h = h
steps-spent path t (c ∷ cs) id owner r h =
    steps-spent path (step path t c) cs id owner (ground arith)
      (step-spent path t c id owner (ground arith) h)

dispatch-spent :
    (path : Option String) (t : Tables) (id owner : String) (d : ExecutionClaim)
    → ((repository_of path).dispatch_execution id owner t).0 ≡ ok d
    → spent owner (Dict.get id ((repository_of path).dispatch_execution id owner t).1.executions)
      ≡ true
unfolding spent InMemory.dispatch_execution InMemory.get_prepared Sqlite.dispatch_execution
dispatch-spent none t id owner d h = grind call_rules
dispatch-spent (some path) t id owner d h = grind call_rules

spent-claimed :
    (owner : String) (o : Option ExecutionClaim) (c : ExecutionClaim)
    → spent owner o ≡ true
    → o ≡ some c
    → c.claim_state ≢ claimed
unfolding spent
spent-claimed owner o c s e k = ground arith

-- After a write was dispatched for an owner, and whatever calls follow that do not recover it and
-- are not the owner's own calls to abort it or to dispatch it again, no dispatch of it succeeds,
-- whoever asks.
pub dispatched_once :
    (path : Option String) (t : Tables) (cs : List Call) (id owner other : String)
    (d again : ExecutionClaim)
    → ((repository_of path).dispatch_execution id owner t).0 ≡ ok d
    → all (λ (c : Call). not (reopens id owner c)) cs ≡ true
    → ((repository_of path).dispatch_execution id other
        (steps path ((repository_of path).dispatch_execution id owner t).1 cs)).0
      ≢ ok again
dispatched_once path t cs id owner other d again h r k =
    let t' = steps path ((repository_of path).dispatch_execution id owner t).1 cs in
    let f = dispatch-Dispatchable path id other t' again k in
    let s =
      steps-spent path ((repository_of path).dispatch_execution id owner t).1 cs id owner r
        (dispatch-spent path t id owner d h) in
    spent-claimed owner (Dict.get id t'.executions) f.claim s f.held f.is_claimed
