-- ===== src/Connectors/Records.antt =====
-- The dataclasses of connectors.py for reading, and what a connector offers. An instant is a text
-- that nothing compares.
use reckoning.Prelude.{String, Bool, true, false, Option, List}
use reckoning.Prelude.Result.{Action}

pub data ConnectorStatus : Type 0 where
  connected revoked disconnected : ConnectorStatus

pub data DeletionState : Type 0 where
  active suppressed deleted : DeletionState

pub data HealthStatus : Type 0 where
  healthy revoked disconnected failed : HealthStatus

-- the mode of remove_imported_data
pub data RemovalMode : Type 0 where
  suppress delete : RemovalMode

pub record ConnectorItem : Type 0 where
  pub external_id : String
  pub content : String
  pub provenance : String

pub record ImportedConnectorItem : Type 0 where
  pub connector_id : String
  pub external_id : String
  pub content : String
  pub provenance : String
  pub deletion_state : DeletionState

pub record ConnectorConnection : Type 0 where
  pub id : String
  pub identity : String
  pub granted_read_scope : List String
  pub available_write_scope : List String
  pub granted_write_scope : List String
  pub status : ConnectorStatus

pub record ConnectorHealth : Type 0 where
  pub connector_id : String
  pub status : HealthStatus
  pub checked_at : Option String
  pub detail : String

pub record SynchronizationResult : Type 0 where
  pub connector_id : String
  pub synchronized_at : String
  pub items : List ImportedConnectorItem

-- ReadConnector: an adapter of an outside source, with a state `W` of its own
pub record ReadConnector (W : Type 0) : Type 0 where
  pub connector_id : String
  pub read_scopes : List String
  pub write_scopes : List String
  pub verify_identity : Action W String
  pub synchronize : List String → Action W (List ConnectorItem)

abbrev pub is_connected : ConnectorStatus → Bool
is_connected connected = true
is_connected _ = false

abbrev pub is_active : DeletionState → Bool
is_active active = true
is_active _ = false
