-- ===== src/ExternalWrites/Repository.antt =====
-- The protocol ExternalWriteRepository of external_write_store.py: the operations that the service
-- uses, over a store `S`.
use reckoning.Prelude.{ℕ, String, Option, none, some, List}
use reckoning.Prelude.Result.{Result, Action}
use reckoning.ExternalWrites.Records.{
  PreparedWrite, StandingPermission, WriteReceipt, ApprovalRecord, WriteAuthorization,
  ExecutionClaim,
}
use reckoning.ExternalWrites.Tables
use reckoning.ExternalWrites.Tables.{Tables}
use reckoning.ExternalWrites.InMemory
use reckoning.ExternalWrites.Sqlite

pub record ExternalWriteRepository (S : Type 0) : Type 0 where
  pub prepare : PreparedWrite → Action S PreparedWrite
  pub get_prepared : String → S → Result PreparedWrite
  pub approve_exact : String → String → String → String → Action S ApprovalRecord
  pub authorization : PreparedWrite → S → Option WriteAuthorization
  pub pending_approval_ids : S → List String
  pub grant_permission : StandingPermission → Action S StandingPermission
  pub revoke_permission : String → String → Action S StandingPermission
  pub get_receipt : String → S → Option WriteReceipt
  pub claim_execution :
      PreparedWrite → String → String → WriteAuthorization → String → Action S ExecutionClaim
  pub dispatch_execution : String → String → Action S ExecutionClaim
  pub abort_execution : String → String → Action S (Unit {0})
  pub recover_execution : String → ℕ → String → String → Action S ExecutionClaim
  pub finalize_execution : String → String → WriteReceipt → Action S WriteReceipt

abbrev pub in_memory : ExternalWriteRepository Tables
in_memory = record {
  prepare = InMemory.prepare;
  get_prepared = InMemory.get_prepared;
  approve_exact = InMemory.approve_exact;
  authorization = Tables.authorization;
  pending_approval_ids = InMemory.pending_approval_ids;
  grant_permission = InMemory.grant_permission;
  revoke_permission = InMemory.revoke_permission;
  get_receipt = InMemory.get_receipt;
  claim_execution = InMemory.claim_execution;
  dispatch_execution = InMemory.dispatch_execution;
  abort_execution = InMemory.abort_execution;
  recover_execution = InMemory.recover_execution;
  finalize_execution = InMemory.finalize_execution;
}

-- the operations that are the same in both are shared
abbrev pub sqlite : ExternalWriteRepository Tables
sqlite = record in_memory {
  approve_exact = Sqlite.approve_exact;
  pending_approval_ids = Sqlite.pending_approval_ids;
  claim_execution = Sqlite.claim_execution;
  dispatch_execution = Sqlite.dispatch_execution;
  finalize_execution = Sqlite.finalize_execution;
}

-- the repository of a service: in memory, or at a path
abbrev pub repository_of : Option String → ExternalWriteRepository Tables
repository_of none = in_memory
repository_of (some path) = sqlite
