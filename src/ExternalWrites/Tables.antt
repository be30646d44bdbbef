-- ===== src/ExternalWrites/Tables.antt =====
-- What both repositories of external_write_store.py keep: the dictionaries of
-- InMemoryExternalWriteRepository, and the tables of SQLiteExternalWriteRepository, each row under
-- its primary key and in the order of its rowid. The column `state` of a permission says whether
-- `revoked_at` is set; the columns that no query reads are left out.
use reckoning.Prelude.{
  String, Bool, true, false, ◌&&◌, Option, none, some, List, [], ◌∷◌, str_eq, first, concat,
}
use reckoning.Prelude.Dict
use reckoning.Prelude.Dict.{Dict}
use reckoning.ExternalWrites.Records.{
  PreparedWrite, StandingPermission, WriteReceipt, ApprovalRecord, WriteAuthorization,
  ExecutionClaim, exact_approval, standing_permission, is_active,
}

pub record Tables : Type 0 where
  pub writes : Dict PreparedWrite
  pub approvals : Dict ApprovalRecord
  pub permissions : Dict StandingPermission
  pub receipts : Dict WriteReceipt
  pub executions : Dict ExecutionClaim

abbrev pub empty : Tables
empty = record { writes = []; approvals = []; permissions = []; receipts = []; executions = [] }

-- "|".join(parts)
unfoldable pub join_bars : List String → String
join_bars [] = ""
join_bars (x ∷ []) = x
join_bars (x ∷ y ∷ ys) = concat x (concat "|" (join_bars (y ∷ ys)))

unfoldable pub authorization_scope : PreparedWrite → String
unfolding join_bars
authorization_scope w =
    join_bars (w.connector_id ∷ w.action_type ∷ w.target ∷ w.trigger ∷ w.boundary ∷ [])

unfoldable pub same_prepared : PreparedWrite → PreparedWrite → Bool
same_prepared a b =
    str_eq a.payload_digest b.payload_digest
    && str_eq a.connector_id b.connector_id
    && str_eq a.action_type b.action_type
    && str_eq a.target b.target
    && str_eq a.trigger b.trigger
    && str_eq a.boundary b.boundary

unfoldable pub with_approval : PreparedWrite → Option String → PreparedWrite
with_approval w approval_id = record w { exact_approval_id = approval_id }

abbrev is_unset : Option String → Bool
is_unset none = true
is_unset (some instant) = false

unfoldable pub permission_matches : StandingPermission → PreparedWrite → Bool
permission_matches p w =
    is_unset p.revoked_at
    && str_eq p.connector_id w.connector_id
    && str_eq p.action_type w.action_type
    && str_eq p.target w.target
    && str_eq p.trigger w.trigger
    && str_eq p.boundary w.boundary

-- record.write_id == write_id and record.state == "active"
abbrev pub approves : String → ApprovalRecord → Bool
approves write_id a = str_eq a.write_id write_id && is_active a.state

-- the first active approval of a write
unfoldable pub active_approval : Tables → String → Option ApprovalRecord
active_approval t write_id = first (approves write_id) (Dict.values t.approvals)

abbrev pub id_of : Option ApprovalRecord → Option String
id_of none = none
id_of (some a) = some a.approval_id

unfoldable pub active_approval_id : Tables → String → Option String
unfolding active_approval
active_approval_id t write_id = id_of (active_approval t write_id)

by_permission : PreparedWrite → Option StandingPermission → Option WriteAuthorization
unfolding authorization_scope
by_permission w none = none
by_permission w (some p) =
    some (record {
      kind = standing_permission;
      authorization_id = p.id;
      scope = authorization_scope w;
    })

-- the first permission that covers a write
unfoldable pub covering : Tables → PreparedWrite → Option StandingPermission
covering t w =
    first (λ (p : StandingPermission). permission_matches p w) (Dict.values t.permissions)

authorized_by : Tables → PreparedWrite → Option String → Option WriteAuthorization
unfolding authorization_scope by_permission covering
authorized_by t w none = by_permission w (covering t w)
authorized_by t w (some approval_id) = some (record {
  kind = exact_approval;
  authorization_id = approval_id;
  scope = authorization_scope w;
})

unfoldable pub authorization : PreparedWrite → Tables → Option WriteAuthorization
unfolding authorized_by active_approval_id
authorization w t = authorized_by t w (active_approval_id t w.id)
