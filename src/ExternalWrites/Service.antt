-- ===== src/ExternalWrites/Service.antt =====
-- ExternalWriteService of connectors.py over a repository: how a write is prepared, approved and
-- covered by a standing permission. The digest of a payload is a parameter.
use reckoning.Prelude.{String, none, is_blank, is_empty, if◌then◌else◌}
use reckoning.Prelude.Dict
use reckoning.Prelude.Dict.{Dict}
use reckoning.Prelude.Result.{Result, ok, err, value_error, Action, raise_if, ◌>>◌}
use reckoning.ExternalWrites.Records.{PreparedWrite, StandingPermission, ApprovalRecord}
use reckoning.ExternalWrites.Repository.{ExternalWriteRepository}

-- the parts of the scope that a write needs and a permission gives
pub record AuthorityScope : Type 0 where
  pub connector_id : String
  pub action_type : String
  pub target : String
  pub trigger : String
  pub boundary : String

-- _validate_authority_scope
unfoldable pub validate_authority_scope : AuthorityScope → Result (Unit {0})
validate_authority_scope s = do
  raise_if (is_blank s.connector_id) (value_error "An external-write connector is required.")
  raise_if (is_blank s.action_type) (value_error "An external-write action type is required.")
  raise_if (is_blank s.target) (value_error "An external-write target is required.")
  raise_if (is_blank s.trigger) (value_error "An external-write trigger is required.")
  raise_if (is_blank s.boundary) (value_error "An external-write boundary is required.")

module _ {S : Type 0} (repository : ExternalWriteRepository S) where
  module _ (digest : Dict String → String) where
    -- the write of these parts, with its payload in the order of the keys
    abbrev pub written : String → AuthorityScope → Dict String → String → PreparedWrite
    written write_id s payload prepared_at = record {
      id = write_id;
      connector_id = s.connector_id;
      action_type = s.action_type;
      target = s.target;
      trigger = s.trigger;
      boundary = s.boundary;
      payload = Dict.sorted_items payload;
      prepared_at = prepared_at;
      payload_digest = digest (Dict.sorted_items payload);
      exact_approval_id = none;
    }

    prepare_valid : PreparedWrite → Result (Unit {0}) → Action S PreparedWrite
    prepare_valid w (err e) s = (err e, s)
    prepare_valid w (ok done) s = repository.prepare w s

    -- ExternalWriteService.prepare
    unfoldable pub prepare : String → AuthorityScope → Dict String → String → Action S PreparedWrite
    unfolding prepare_valid validate_authority_scope
    prepare write_id scope payload prepared_at s =
        prepare_valid (written write_id scope payload prepared_at)
          (do
            validate_authority_scope scope
            raise_if (is_blank write_id) (value_error "An external write identifier is required.")
            raise_if (is_empty payload) (value_error "An external write payload cannot be empty."))
          s

  approve_recorded : String → Result ApprovalRecord → S → Result PreparedWrite × S
  approve_recorded write_id (err e) s = (err e, s)
  approve_recorded write_id (ok recorded) s = (repository.get_prepared write_id s, s)

  approve_found : String → String → String → Result PreparedWrite → Action S PreparedWrite
  unfolding approve_recorded
  approve_found write_id approval_id approved_at (err e) s = (err e, s)
  approve_found write_id approval_id approved_at (ok w) s =
      let (recorded, s') =
        repository.approve_exact write_id w.payload_digest approval_id approved_at s in
      approve_recorded write_id recorded s'

  -- ExternalWriteService.approve_exact
  unfoldable pub approve_exact : String → String → String → Action S PreparedWrite
  unfolding approve_found
  approve_exact write_id approval_id approved_at s =
      if is_blank approval_id
      then (err (value_error "An exact approval identifier is required."), s)
      else approve_found write_id approval_id approved_at (repository.get_prepared write_id s) s

  grant_valid : StandingPermission → Result (Unit {0}) → Action S StandingPermission
  grant_valid p (err e) s = (err e, s)
  grant_valid p (ok done) s = repository.grant_permission p s

  unfoldable pub grant_standing_permission :
      String → AuthorityScope → String → Action S StandingPermission
  unfolding grant_valid validate_authority_scope
  grant_standing_permission permission_id scope granted_at s =
      grant_valid
        (record {
          id = permission_id;
          connector_id = scope.connector_id;
          action_type = scope.action_type;
          target = scope.target;
          trigger = scope.trigger;
          boundary = scope.boundary;
          granted_at = granted_at;
          revoked_at = none;
        })
        (do
          raise_if (is_blank permission_id)
              (value_error "A standing permission identifier is required.")
          validate_authority_scope scope)
        s
