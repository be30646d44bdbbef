-- ===== src/Connectors/Calls.antt =====
-- The calls on a connector service in the order in which they are made: what is removed stays
-- removed, what is closed stays closed, and content never gets authority.
pub mod Removed
pub mod Closed
pub mod Confined
use reckoning.Prelude.{
  ◌≡◌, ◌≢◌, ◌⊎◌, inl, inr, refl, String, Bool, true, false, not, Option, none, some, List, [], ◌∷◌,
  arith, eq_iff, str_eq, all, Bool-cases, Option-cases, if◌then◌else◌,
}
use reckoning.Prelude.Dict
use reckoning.Prelude.Pairs
use reckoning.Prelude.Pairs.{Pairs, same_key}
use reckoning.Prelude.Result.{Result, ok, err, Error, permission_error, key_error, Result-cases}
use reckoning.Connectors.Records.{
  RemovalMode, suppress, delete, ImportedConnectorItem, ConnectorItem, ConnectorConnection,
  ReadConnector, is_active, is_connected, DeletionState, suppressed, deleted,
}
use reckoning.Connectors.Content.{Pattern}
use reckoning.Connectors.Service.{
  Connectors, connect, revoke, disconnect, remove_imported_data, content_result, removed_items,
  removed_item, without_results, connection,
}
use reckoning.Connectors.Synchronize.{synchronize, take_item, take_items, inspected, is_removed}

pub data Call (W : Type 0) : Type 0 where
  on_connect : ReadConnector W → List String → Call W
  on_synchronize on_revoke on_disconnect : String → String → Call W
  on_remove : String → RemovalMode → Call W

module _ {W : Type 0} where
  -- the service after the call, whether it returned or raised
  unfoldable pub step : List Pattern → Connectors W → Call W → Connectors W
  unfolding connect revoke disconnect remove_imported_data
  step patterns s (on_connect adapter scope) = (connect adapter scope s).1
  step patterns s (on_synchronize connector_id at) = (synchronize patterns connector_id at s).1
  step patterns s (on_revoke connector_id at) = (revoke connector_id at s).1
  step patterns s (on_disconnect connector_id at) = (disconnect connector_id at s).1
  step patterns s (on_remove connector_id mode) = (remove_imported_data connector_id mode s).1

  unfoldable pub steps : List Pattern → Connectors W → List (Call W) → Connectors W
  steps patterns s [] = s
  steps patterns s (c ∷ cs) = steps patterns (step patterns s c) cs
