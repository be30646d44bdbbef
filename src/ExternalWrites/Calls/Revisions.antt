-- ===== src/ExternalWrites/Calls/Revisions.antt =====
-- The revisions of the claims: at a path they only grow, so that a recovery under an old one fails;
-- in memory a write that was given up starts again at 1.
use reckoning.Prelude.{
  ℕ, ◌+◌, ◌≤◌, ◌≡◌, ◌≢◌, refl, String, Option, none, some, List, [], ◌∷◌, arith,
}
use reckoning.Prelude.Dict
use reckoning.Prelude.Result.{ok}
use reckoning.ExternalWrites.Records.{PreparedWrite, WriteAuthorization, ExecutionClaim, aborted}
use reckoning.ExternalWrites.Tables.{Tables}
use reckoning.ExternalWrites.InMemory
use reckoning.ExternalWrites.Calls.{
  Call, on_claim, on_dispatch, on_abort, on_recover, on_finalize, step, steps, call_rules,
}

abbrev revision_of : Option ExecutionClaim → ℕ
revision_of none = 0
revision_of (some c) = c.revision

-- the revision of the claim of a write, 0 where it has none
abbrev pub revision : String → Tables → ℕ
revision id t = revision_of (Dict.get id t.executions)

step-revision-le :
    (path : String) (t : Tables) (c : Call) (id : String)
    → revision id t ≤ revision id (step (some path) t c)
unfolding step
step-revision-le path t (on_claim w by key a at) id = grind call_rules
step-revision-le path t (on_dispatch x by) id = grind call_rules
step-revision-le path t (on_abort x by) id = grind call_rules
step-revision-le path t (on_recover x expected by at) id = grind call_rules
step-revision-le path t (on_finalize x by receipt) id = grind call_rules
step-revision-le path t _ id = grind call_rules

steps-revision-le :
    (path : String) (t : Tables) (cs : List Call) (id : String)
    → revision id t ≤ revision id (steps (some path) t cs)
unfolding steps
steps-revision-le path t [] id = omega arith
steps-revision-le path t (c ∷ cs) id =
    omega (arith, step-revision-le path t c id, steps-revision-le path (step (some path) t c) cs id)

recover-revision :
    (id owner at : String) (expected : ℕ) (t : Tables) (c : ExecutionClaim)
    → (InMemory.recover_execution id expected owner at t).0 ≡ ok c
    → (revision id t ≡ expected)
      × (revision id (InMemory.recover_execution id expected owner at t).1 ≡ expected + 1)
unfolding InMemory.recover_execution
recover-revision id owner at expected t c h = grind call_rules

-- With the repository at a path, once an execution was recovered under a revision, and whatever
-- calls follow, no recovery under that revision or an earlier one succeeds.
pub recovered_once :
    (path : String) (t : Tables) (cs : List Call) (id owner other at later : String)
    (expected stale : ℕ) (c d : ExecutionClaim)
    → (InMemory.recover_execution id expected owner at t).0 ≡ ok c
    → stale ≤ expected
    → (InMemory.recover_execution id stale other later
        (steps (some path) (InMemory.recover_execution id expected owner at t).1 cs)).0
      ≢ ok d
recovered_once path t cs id owner other at later expected stale c d h old k =
    let t' = (InMemory.recover_execution id expected owner at t).1 in
    omega (
      arith,
      recover-revision id owner at expected t c h,
      steps-revision-le path t' cs id,
      recover-revision id other later stale (steps (some path) t' cs) d k,
    )

-- In memory, a write that was given up is claimed again under revision 1, whatever its revision
-- was: a recovery that was meant for its first claim takes the new claim away from its owner.
pub reclaimed_from_one :
    (t : Tables) (w : PreparedWrite) (owner thief key at later : String) (a : WriteAuthorization)
    (c : ExecutionClaim)
    → Dict.get w.id t.executions ≡ some c
    → c.claim_state ≡ aborted
    → c.payload_digest ≡ w.payload_digest
    → (taken : ExecutionClaim) × ((InMemory.recover_execution w.id 1 thief later
          (InMemory.claim_execution w owner key a at t).1).0
        ≡ ok taken)
      × (taken.claim_owner ≡ thief)
unfolding InMemory.claim_execution InMemory.recover_execution
reclaimed_from_one t w owner thief key at later a c h s e = (
  InMemory.recovered (InMemory.new_claim w owner key a at) thief later,
  grind (call_rules, h, s, e),
  refl,
)
