-- ===== src/ExternalWrites/InMemory/Writes.antt =====
-- InMemoryExternalWriteRepository of external_write_store.py. The messages of the errors are fixed
-- texts where the source writes the ids and revisions into them.
use reckoning.Prelude.{
  String, Bool, true, false, not, ◌&&◌, Option, none, some, List, str_eq, keep, map, if◌then◌else◌,
}
use reckoning.Prelude.Dict
use reckoning.Prelude.Dict.{Dict}
use reckoning.Prelude.Result.{Result, ok, err, key_error, conflict, Action}
use reckoning.ExternalWrites.Records.{
  PreparedWrite, StandingPermission, WriteReceipt, ApprovalRecord, active,
}
use reckoning.ExternalWrites.Tables.{
  Tables, same_prepared, with_approval, active_approval, active_approval_id, authorization,
}

-- an optional text or record is None
abbrev pub is_none {ℓ} : {A : Type ℓ} → Option A → Bool
is_none none = true
is_none (some a) = false

prepare_found : PreparedWrite → Option PreparedWrite → Action Tables PreparedWrite
prepare_found w none t = (ok w, record t { writes = Dict.put w.id w t.writes })
prepare_found w (some existing) t =
    if same_prepared existing w
    then (ok (with_approval existing (active_approval_id t w.id)), t)
    else (err (conflict "Prepared write already exists with other content."), t)

unfoldable pub prepare : PreparedWrite → Action Tables PreparedWrite
unfolding prepare_found
prepare w t = prepare_found w (Dict.get w.id t.writes) t

abbrev pub approved_as : Tables → String → Option PreparedWrite → Result PreparedWrite
approved_as t write_id none = err (key_error "Unknown prepared write")
approved_as t write_id (some w) = ok (with_approval w (active_approval_id t write_id))

unfoldable pub get_prepared : String → Tables → Result PreparedWrite
get_prepared write_id t = approved_as t write_id (Dict.get write_id t.writes)

unfoldable pub list_prepared : Tables → List PreparedWrite
list_prepared t =
    map (λ (w : PreparedWrite). with_approval w (active_approval_id t w.id)) (Dict.values t.writes)

abbrev pub approval : String → String → String → String → ApprovalRecord
approval write_id digest approval_id approved_at = record {
  approval_id = approval_id;
  write_id = write_id;
  payload_digest = digest;
  approved_at = approved_at;
  state = active;
}

-- the loop over the approvals: the first active one of the write decides
approve_first :
    String → String → String → String → Option ApprovalRecord → Action Tables ApprovalRecord
approve_first write_id digest approval_id approved_at (some current) t =
    if str_eq current.payload_digest digest
    then (ok current, t)
    else (err (conflict "Prepared write already has an exact approval."), t)
approve_first write_id digest approval_id approved_at none t = (
  ok (approval write_id digest approval_id approved_at),
  record t {
    approvals = Dict.put approval_id (approval write_id digest approval_id approved_at) t.approvals;
  },
)

approve_new :
    String → String → String → String → Option ApprovalRecord → Action Tables ApprovalRecord
unfolding approve_first
approve_new write_id digest approval_id approved_at (some existing) t =
    if str_eq existing.write_id write_id && str_eq existing.payload_digest digest
    then (ok existing, t)
    else (err (conflict "Exact approval already binds other content."), t)
approve_new write_id digest approval_id approved_at none t =
    approve_first write_id digest approval_id approved_at (active_approval t write_id) t

approve_known :
    String → String → String → String → Result PreparedWrite → Action Tables ApprovalRecord
unfolding approve_new
approve_known write_id digest approval_id approved_at (err e) t = (err e, t)
approve_known write_id digest approval_id approved_at (ok w) t =
    approve_new write_id digest approval_id approved_at (Dict.get approval_id t.approvals) t

unfoldable pub approve_exact : String → String → String → String → Action Tables ApprovalRecord
unfolding approve_known
approve_exact write_id digest approval_id approved_at t =
    approve_known write_id digest approval_id approved_at (get_prepared write_id t) t

unfoldable pub pending_approval_ids : Tables → List String
pending_approval_ids t =
    map (λ (w : PreparedWrite). w.id)
      (keep (λ (w : PreparedWrite). not (Dict.has w.id t.receipts) && is_none (authorization w t))
        (Dict.values t.writes))

unfoldable pub grant_permission : StandingPermission → Action Tables StandingPermission
grant_permission p t =
    if Dict.has p.id t.permissions
    then (err (conflict "Standing permission already exists."), t)
    else (ok p, record t { permissions = Dict.put p.id p t.permissions })

permission_found : Option StandingPermission → Result StandingPermission
permission_found none = err (key_error "Unknown standing permission")
permission_found (some p) = ok p

unfoldable pub get_permission : String → Tables → Result StandingPermission
unfolding permission_found
get_permission permission_id t = permission_found (Dict.get permission_id t.permissions)

revoke_known : String → String → Result StandingPermission → Action Tables StandingPermission
revoke_known permission_id revoked_at (err e) t = (err e, t)
revoke_known permission_id revoked_at (ok p) t =
    let revoked = record p { revoked_at = some revoked_at } in
    if is_none p.revoked_at
    then (ok revoked, record t { permissions = Dict.put permission_id revoked t.permissions })
    else (ok p, t)

unfoldable pub revoke_permission : String → String → Action Tables StandingPermission
unfolding revoke_known get_permission
revoke_permission permission_id revoked_at t =
    revoke_known permission_id revoked_at (get_permission permission_id t) t

unfoldable pub get_receipt : String → Tables → Option WriteReceipt
get_receipt write_id t = Dict.get write_id t.receipts
