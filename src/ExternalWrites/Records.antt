-- ===== src/ExternalWrites/Records.antt =====
-- The dataclasses of external writes in connectors.py and external_write_store.py. An instant is a
-- text that nothing compares.
use reckoning.Prelude.{ℕ, String, Bool, true, false, Option}
use reckoning.Prelude.Dict.{Dict}

pub record PreparedWrite : Type 0 where
  pub id : String
  pub connector_id : String
  pub action_type : String
  pub target : String
  pub trigger : String
  pub boundary : String
  pub payload : Dict String
  pub prepared_at : String
  pub payload_digest : String
  pub exact_approval_id : Option String

pub record StandingPermission : Type 0 where
  pub id : String
  pub connector_id : String
  pub action_type : String
  pub target : String
  pub trigger : String
  pub boundary : String
  pub granted_at : String
  pub revoked_at : Option String

-- its status is always "approval_required"
pub record ApprovalRequest : Type 0 where
  pub write_id : String
  pub prepared_payload : Dict String
  pub reason : String

pub data WriteStatus : Type 0 where
  success failed unknown : WriteStatus

pub record WriteResult : Type 0 where
  pub status : WriteStatus
  pub external_id : Option String
  pub detail : String

pub data AuthorizationKind : Type 0 where
  exact_approval standing_permission : AuthorizationKind

pub record WriteReceipt : Type 0 where
  pub write_id : String
  pub connector_id : String
  pub status : WriteStatus
  pub external_id : Option String
  pub detail : String
  pub attempts : ℕ
  pub idempotency_key : String
  pub completed_at : String
  pub authorization_kind : AuthorizationKind
  pub authorization_id : String
  pub authorization_scope : String

pub data ApprovalState : Type 0 where
  active revoked : ApprovalState

pub record ApprovalRecord : Type 0 where
  pub approval_id : String
  pub write_id : String
  pub payload_digest : String
  pub approved_at : String
  pub state : ApprovalState

pub record WriteAuthorization : Type 0 where
  pub kind : AuthorizationKind
  pub authorization_id : String
  pub scope : String

-- the states that the repositories write; "unknown" is read from older files only
pub data ClaimState : Type 0 where
  claimed dispatched finalized aborted : ClaimState

pub record ExecutionClaim : Type 0 where
  pub write_id : String
  pub payload_digest : String
  pub claim_owner : String
  pub claim_state : ClaimState
  pub idempotency_key : String
  pub authorization_kind : AuthorizationKind
  pub authorization_id : String
  pub authorization_scope : String
  pub attempts : ℕ
  pub claimed_at : String
  pub revision : ℕ

abbrev pub is_active : ApprovalState → Bool
is_active active = true
is_active revoked = false

abbrev pub is_claimed : ClaimState → Bool
is_claimed claimed = true
is_claimed _ = false

abbrev pub is_dispatched : ClaimState → Bool
is_dispatched dispatched = true
is_dispatched _ = false

abbrev pub is_finalized : ClaimState → Bool
is_finalized finalized = true
is_finalized _ = false

abbrev pub is_aborted : ClaimState → Bool
is_aborted aborted = true
is_aborted _ = false

-- status in ("success", "unknown")
abbrev pub ends_retries : WriteStatus → Bool
ends_retries failed = false
ends_retries _ = true
