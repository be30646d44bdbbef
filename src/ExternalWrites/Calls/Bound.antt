-- ===== src/ExternalWrites/Calls/Bound.antt =====
-- The approvals of the repository at a path bind the content that was prepared.
use reckoning.Prelude.{
  ◌≡◌, ◌⊎◌, inl, inr, refl, String, some, List, [], ◌∷◌, arith, eq_iff, str_eq, subst, Option-cases,
  Bool-cases,
}
use reckoning.Prelude.Dict
use reckoning.ExternalWrites.Records.{PreparedWrite, ApprovalRecord}
use reckoning.ExternalWrites.Tables.{Tables, active_approval_id}
use reckoning.ExternalWrites.InMemory.{approval}
use reckoning.ExternalWrites.Sqlite
use reckoning.ExternalWrites.Calls.{Call, on_approve, step, steps, step-writes, IsBound, call_rules}

module _ (t : Tables) where
  -- an approval of what is stored
  Binds : ApprovalRecord → Type 0
  Binds r =
      (w : PreparedWrite) × (Dict.get r.write_id t.writes ≡ some w)
      × (w.payload_digest ≡ r.payload_digest)

  module _ (id digest approval_id at : String) where
    approve_cases :
        (Sqlite.approve_exact id digest approval_id at t).1 ≡ t
        ⊎ ((w : PreparedWrite) × (Dict.get id t.writes ≡ some w)
            × (w.payload_digest ≡ digest)
            × ((Sqlite.approve_exact id digest approval_id at t).1 ≡ record t {
              approvals = Dict.put approval_id (approval id digest approval_id at) t.approvals;
            }))
    unfolding Sqlite.approve_exact
    approve_cases = elim (Option-cases (Dict.get id t.writes)) [
      | inl n ↦ inl (rw n refl)
      | inr (w, e) ↦ elim (Bool-cases (str_eq w.payload_digest digest)) [
        | inr apart ↦ inl (ground arith)
        | inl same ↦ elim (Option-cases (Dict.get approval_id t.approvals)) [
          | inr (r, known) ↦ inl (ground arith)
          | inl new ↦ elim (Option-cases (active_approval_id t id)) [
            | inr (r, current) ↦ inl (ground arith)
            | inl free ↦ inr (w, e, ground (arith, eq_iff w.payload_digest digest), ground arith)
          ]
        ]
      ]
    ]

  -- an approval after a call was there before it, or binds
  OldOrBound : String → ApprovalRecord → Type 0
  OldOrBound key r = (Dict.get key t.approvals ≡ some r) ⊎ Binds r

  put-OldOrBound :
      (w : PreparedWrite) (id digest approval_id at key : String) (r : ApprovalRecord)
      → Dict.get id t.writes ≡ some w
      → w.payload_digest ≡ digest
      → Dict.get key (Dict.put approval_id (approval id digest approval_id at) t.approvals) ≡ some r
      → OldOrBound key r
  unfolding OldOrBound Binds
  put-OldOrBound w id digest approval_id at key r e same h =
      elim (Bool-cases (str_eq approval_id key)) [
        | inl new ↦
            let is : approval id digest approval_id at ≡ r = ground (
              arith,
              Dict.get-put approval_id key (approval id digest approval_id at) t.approvals,
            ) in
            inr (w, rw (← is) e, rw (← is) same)
        | inr old ↦ inl (
            ground
              (arith, Dict.get-put approval_id key (approval id digest approval_id at) t.approvals))
      ]

  step_approvals :
      (path : String) (c : Call) (key : String) (r : ApprovalRecord)
      → Dict.get key (step (some path) t c).approvals ≡ some r
      → OldOrBound key r
  unfolding step OldOrBound
  step_approvals path (on_approve id digest approval_id at) key r h =
      elim (approve_cases id digest approval_id at) [
        | inl same ↦ inl (rw (← same) h)
        | inr (w, e, same, put) ↦
            put-OldOrBound w id digest approval_id at key r e same
              (subst (λ (x : Tables). Dict.get key x.approvals ≡ some r) put h)
      ]
  step_approvals path _ key r h = inl (grind (call_rules))

step-IsBound : (path : String) (t : Tables) (c : Call) → IsBound t → IsBound (step (some path) t c)
unfolding IsBound OldOrBound Binds
step-IsBound path t c bound key r h = elim (step_approvals t path c key r h) [
  | inl old ↦
      let (w, e, same) = bound key r old in (w, step-writes (some path) t c r.write_id w e, same)
  | inr (w, e, same) ↦ (w, step-writes (some path) t c r.write_id w e, same)
]

-- With the repository at a path every approval is of a write that is stored, and carries the digest
-- of its payload, whatever calls are made: an approval never comes to cover other content.
pub steps-IsBound :
    (path : String) (t : Tables) (cs : List Call) → IsBound t → IsBound (steps (some path) t cs)
unfolding steps
steps-IsBound path t [] bound = bound
steps-IsBound path t (c ∷ cs) bound =
    steps-IsBound path (step (some path) t c) cs (step-IsBound path t c bound)
