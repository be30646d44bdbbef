-- ===== src/ExternalWrites/Authority.antt =====
-- What authorizes an external write: an active approval of it, or a standing permission of its
-- scope, at the moment of the dispatch.
use reckoning.Prelude.{
  ◌≡◌, ◌⊎◌, inl, inr, refl, String, Bool, true, Option, none, some, List, [], ◌∷◌, ℤ, arith, eq_iff,
  first, Among, Option-cases, Bool-cases,
}
use reckoning.Prelude.Dict
use reckoning.Prelude.Result.{Result, ok, Action, Result-cases}
use reckoning.ExternalWrites.Records.{
  PreparedWrite, StandingPermission, ApprovalRecord, ApprovalState, revoked, is_active,
  WriteAuthorization, ExecutionClaim, ClaimState, active, claimed, dispatched, finalized, aborted,
  is_claimed,
}
use reckoning.ExternalWrites.Tables.{
  Tables, authorization, active_approval, active_approval_id, permission_matches, covering,
  approves, with_approval,
}
use reckoning.ExternalWrites.InMemory
use reckoning.ExternalWrites.InMemory.{owned_claim}
use reckoning.ExternalWrites.Sqlite
use reckoning.ExternalWrites.Repository.{repository_of}
use reckoning.ExternalWrites.Execution.{WriteConnector, Machine, Outcome, execute}
use reckoning.ExternalWrites.Execution.Dispatched.{Dispatched, Uncalled, execute_cases, at_dispatch}

-- a first item is one of the list and passes the test
first-some :
    {A : Type 0} (p : A → Bool) (xs : List A) {x : A}
    → first p xs ≡ some x
    → Among x xs × (p x ≡ true)
first-some p [] h = absurd (cc)
first-some p (y ∷ ys) {x} h = elim (Bool-cases (p y)) [
  | inl e ↦ let same : y ≡ x = ground arith in (inl (cc), rw (← same) e)
  | inr e ↦ let (m, q) = first-some p ys (ground arith) in (inr m, q)
]

-- a permission that is not revoked gives the scope that a write needs
pub record Covers (p : StandingPermission) (w : PreparedWrite) : Type 0 where
  pub unrevoked : p.revoked_at ≡ none
  pub connector : p.connector_id ≡ w.connector_id
  pub action : p.action_type ≡ w.action_type
  pub same_target : p.target ≡ w.target
  pub same_trigger : p.trigger ≡ w.trigger
  pub same_boundary : p.boundary ≡ w.boundary

permission_matches-Covers :
    (p : StandingPermission) (w : PreparedWrite) → permission_matches p w ≡ true → Covers p w
unfolding permission_matches
permission_matches-Covers p w h = ground (
  arith,
  eq_iff p.connector_id w.connector_id,
  eq_iff p.action_type w.action_type,
  eq_iff p.target w.target,
  eq_iff p.trigger w.trigger,
  eq_iff p.boundary w.boundary,
)

-- an active approval of the write
pub record Approves (r : ApprovalRecord) (w : PreparedWrite) : Type 0 where
  pub of_write : r.write_id ≡ w.id
  pub is_active : r.state ≡ active

active-true : (s : ApprovalState) → is_active s ≡ true → s ≡ active
active-true active h = refl
active-true revoked h = absurd (cc)

-- the write is authorized in the tables
pub Authorized : Tables → PreparedWrite → Type 0
Authorized t w =
    ((r : ApprovalRecord) × Among r (Dict.values t.approvals) × Approves r w)
    ⊎ ((p : StandingPermission) × Among p (Dict.values t.permissions) × Covers p w)

approves-Approves : (r : ApprovalRecord) (w : PreparedWrite) → approves w.id r ≡ true → Approves r w
approves-Approves r w h = elim (Bool-cases (is_active r.state)) [
  | inl e ↦ record {
    of_write = ground (arith, eq_iff r.write_id w.id);
    is_active = active-true r.state e;
  }
  | inr e ↦ absurd (ground arith)
]

-- every authorization rests on an approval or on a permission that is in force
pub authorization-Authorized :
    (t : Tables) (w : PreparedWrite) (a : WriteAuthorization)
    → authorization w t ≡ some a
    → Authorized t w
unfolding authorization active_approval_id active_approval covering Authorized
authorization-Authorized t w a h =
    elim (Option-cases (first (approves w.id) (Dict.values t.approvals))) [
      | inr (r, e) ↦
          let (m, q) = first-some (approves w.id) (Dict.values t.approvals) e in
          inl (r, m, approves-Approves r w q)
      | inl n ↦
          elim (Option-cases (
            first (λ (p : StandingPermission). permission_matches p w)
              (Dict.values t.permissions))) [
                | inr (p, e) ↦
                    let (m, q) =
                      first-some (λ (p : StandingPermission). permission_matches p w)
                        (Dict.values t.permissions) e in
                    inr (p, m, permission_matches-Covers p w q)
                | inl k ↦ absurd (ground arith)
              ]
    ]

-- the approval that a write is read with does not matter for its authorization
pub authorization-with_approval :
    (t : Tables) (w : PreparedWrite) (approval_id : Option String)
    → authorization (with_approval w approval_id) t ≡ authorization w t
unfolding authorization with_approval covering permission_matches
authorization-with_approval t w approval_id = refl

-- what a dispatch of either repository finds
pub record Dispatchable (write_id owner : String) (t : Tables) : Type 0 where
  pub write : PreparedWrite
  pub grounds : WriteAuthorization
  pub claim : ExecutionClaim
  pub stored : Dict.get write_id t.writes ≡ some write
  pub granted : authorization write t ≡ some grounds
  pub held : Dict.get write_id t.executions ≡ some claim
  pub owned : claim.claim_owner ≡ owner
  pub is_claimed : claim.claim_state ≡ claimed

-- the claim that an owner holds
held_claim :
    (owner : String) (o : Option ExecutionClaim) (c : ExecutionClaim)
    → owned_claim owner o ≡ ok c
    → (o ≡ some c) × (c.claim_owner ≡ owner)
unfolding owned_claim
held_claim owner none c h = absurd (cc)
held_claim owner (some held) c h = ground (arith, eq_iff held.claim_owner owner)

only_claimed : (s : ClaimState) → is_claimed s ≡ true → s ≡ claimed
only_claimed claimed h = refl
only_claimed dispatched h = absurd (cc)
only_claimed finalized h = absurd (cc)
only_claimed aborted h = absurd (cc)

module _ (write_id owner : String) (t : Tables) where
  -- what a dispatch tests, in the order of its tests
  Tested : Type 0
  Tested =
      (w : PreparedWrite) × (a : WriteAuthorization) × (c : ExecutionClaim) × (owned_claim owner
          (Dict.get write_id t.executions)
        ≡ ok c)
      × (Dict.get write_id t.writes ≡ some w)
      × (authorization w t ≡ some a)
      × (is_claimed c.claim_state ≡ true)

  Tested-Dispatchable : Tested → Dispatchable write_id owner t
  unfolding Tested
  Tested-Dispatchable (w, a, c, o, e, g, k) =
      let (held, owned) = held_claim owner (Dict.get write_id t.executions) c o in
      record {
        write = w;
        grounds = a;
        claim = c;
        stored = e;
        granted = g;
        held = held;
        owned = owned;
        is_claimed = only_claimed c.claim_state k;
      }

  module _ (d : ExecutionClaim) where
    memory_dispatch :
        (InMemory.dispatch_execution write_id owner t).0 ≡ ok d → Dispatchable write_id owner t
    unfolding InMemory.dispatch_execution InMemory.get_prepared
    memory_dispatch h = elim (Result-cases (owned_claim owner (Dict.get write_id t.executions))) [
      | inr (e, o) ↦ absurd (ground arith)
      | inl (c, o) ↦ elim (Option-cases (Dict.get write_id t.writes)) [
        | inl n ↦ absurd (ground arith)
        | inr (w, e) ↦ elim (Option-cases (authorization w t)) [
          | inl n ↦
              absurd
                (ground (arith, authorization-with_approval t w (active_approval_id t write_id)))
          | inr (a, g) ↦ Tested-Dispatchable (
              unfold Tested in
              (
                w,
                a,
                c,
                o,
                e,
                g,
                ground (arith, authorization-with_approval t w (active_approval_id t write_id)),
              ))
        ]
      ]
    ]

    sqlite_dispatch :
        (Sqlite.dispatch_execution write_id owner t).0 ≡ ok d → Dispatchable write_id owner t
    unfolding Sqlite.dispatch_execution
    sqlite_dispatch h = elim (Result-cases (owned_claim owner (Dict.get write_id t.executions))) [
      | inr (e, o) ↦ absurd (ground arith)
      | inl (c, o) ↦ elim (Option-cases (Dict.get write_id t.writes)) [
        | inl n ↦ absurd (ground arith)
        | inr (w, e) ↦ elim (Option-cases (authorization w t)) [
          | inl n ↦ absurd (ground arith)
          | inr (a, g) ↦ Tested-Dispatchable (unfold Tested in (w, a, c, o, e, g, ground arith))
        ]
      ]
    ]

pub dispatch-Dispatchable :
    (path : Option String) (write_id owner : String) (t : Tables) (d : ExecutionClaim)
    → ((repository_of path).dispatch_execution write_id owner t).0 ≡ ok d
    → Dispatchable write_id owner t
dispatch-Dispatchable none write_id owner t d h = memory_dispatch write_id owner t d h
dispatch-Dispatchable (some path) write_id owner t d h = sqlite_dispatch write_id owner t d h

module _ {W : Type 0} (path : Option String) (adapter : WriteConnector W)
    (owner completed_at : String) (max_retries : ℤ)
    (on_claimed : String → Action (Machine Tables W) (Unit {0})) where
  -- the execution reached the adapter, and the write was dispatched from these tables
  pub record Reached (write_id : String) (m : Machine Tables W)
      (end : Result Outcome × Machine Tables W) : Type 0 where
    pub path_taken :
        Dispatched
          (repository_of path)
          adapter
          owner
          completed_at
          max_retries
          on_claimed
          write_id
          m
          end
    pub at_the_dispatch :
        Dispatchable path_taken.write.id owner
          (at_dispatch
            (repository_of path)
            adapter
            owner
            completed_at
            max_retries
            on_claimed
            path_taken.write
            path_taken.grounds
            m).1.store
    pub in_force :
        Authorized
          (at_dispatch
            (repository_of path)
            adapter
            owner
            completed_at
            max_retries
            on_claimed
            path_taken.write
            path_taken.grounds
            m).1.store
          at_the_dispatch.write

  -- The service never calls its adapter without authority, with the repository in memory and with
  -- the one at a path. Either an execution does not depend on the adapter, or it dispatched the
  -- write: then, in the tables as the callback left them, the write is stored and claimed by this
  -- owner, and an active approval of it or a standing permission of its whole scope that is not
  -- revoked is there, whatever the callback has revoked or approved in between.
  pub execute-Authorized :
      (write_id : String) (m : Machine Tables W)
      → Uncalled (repository_of path) adapter owner completed_at max_retries on_claimed (λ other.
        execute (repository_of path) other owner completed_at max_retries on_claimed write_id m)
        ⊎ Reached write_id m (
            execute
              (repository_of path)
              adapter
              owner
              completed_at
              max_retries
              on_claimed
              write_id
              m)
  execute-Authorized write_id m =
      elim (execute_cases (repository_of path) adapter owner completed_at max_retries on_claimed
        write_id m) [
          | inl same ↦ inl same
          | inr d ↦
              let found =
                dispatch-Dispatchable path d.write.id owner
                  (at_dispatch (repository_of path) adapter owner completed_at max_retries
                    on_claimed d.write d.grounds m).1.store
                  d.dispatch d.dispatches in
              inr (record {
                path_taken = d;
                at_the_dispatch = found;
                in_force = authorization-Authorized _ found.write found.grounds found.granted;
              })
        ]
