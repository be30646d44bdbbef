-- ===== src/Connectors/Tests.antt =====
-- Runs and witnesses of the connectors: a folder of notes, read twice.
use reckoning.Prelude.{
  ◌≡◌, refl, String, Option, none, some, List, [], ◌∷◌, Bool, true, false, not, all, arith, eq_iff,
}
use reckoning.Prelude.Dict
use reckoning.Prelude.Pairs
use reckoning.Prelude.Result.{ok, err, permission_error, key_error}
use reckoning.Connectors.Records.{
  ConnectorItem, ImportedConnectorItem, ConnectorConnection, connected, active, ReadConnector,
  delete, suppress,
}
use reckoning.Connectors.Content.{Pattern}
use reckoning.Connectors.Service.{
  Connectors, connect, revoke, disconnect, remove_imported_data, content_result, imported_items,
}
use reckoning.Connectors.Synchronize.{synchronize}
use reckoning.Connectors.Calls.{Call, on_synchronize, on_revoke, steps}
use reckoning.Connectors.Calls.Removed.{Gone, removed_forever}
use reckoning.Connectors.Calls.Closed.{closed_stays, reconnects}

-- the source is a list of items
abbrev Source : Type 0
Source = List ConnectorItem

abbrev notes : ReadConnector Source
notes = record {
  connector_id = "notes";
  read_scopes = "documents:read" ∷ [];
  write_scopes = [];
  verify_identity = λ w. (ok "ann", w);
  synchronize = λ scope w. (ok w, w);
}

abbrev note : ConnectorItem
note = record { external_id = "n1"; content = "buy milk"; provenance = "notes:n1" }

-- finds nothing
abbrev patterns : List Pattern
patterns = (λ text. []) ∷ []

abbrev scope : List String
scope = "documents:read" ∷ []

abbrev connection : ConnectorConnection
connection = record {
  id = "notes";
  identity = "ann";
  granted_read_scope = scope;
  available_write_scope = [];
  granted_write_scope = [];
  status = connected;
}

abbrev empty : Connectors Source
empty = record {
  connections = ("notes", connection) ∷ [];
  adapters = ("notes", notes) ∷ [];
  items = [];
  health = [];
  content_results = [];
  world = note ∷ [];
}

abbrev item : ImportedConnectorItem
item = record {
  connector_id = "notes";
  external_id = "n1";
  content = "buy milk";
  provenance = "notes:n1";
  deletion_state = active;
}

abbrev filled : Connectors Source
filled = record empty { items = ("notes", "n1", item) ∷ [] }

imports : imported_items "notes" (synchronize patterns "notes" "mon" empty).1 ≡ item ∷ []
unfolding imported_items Pairs.sorted_items synchronize Dict.get
    reckoning.Connectors.Synchronize.take_items reckoning.Connectors.Synchronize.take_item Pairs.get
    reckoning.Prelude.is_blank Pairs.put
imports = refl

unoffered :
    connect notes ("mail:read" ∷ []) empty
    ≡ (err (permission_error "Selected read scope is not offered by the connector."), empty)
unfolding connect reckoning.Prelude.contains
unoffered = refl

not_again :
    imported_items "notes"
      (synchronize patterns "notes" "wed" (remove_imported_data "notes" suppress filled).1).1
    ≡ []
unfolding imported_items Pairs.sorted_items synchronize Dict.get remove_imported_data
    reckoning.Connectors.Synchronize.take_items reckoning.Connectors.Synchronize.take_item Pairs.get
not_again = refl

abbrev calls : List (Call Source)
calls = on_synchronize "notes" "wed" ∷ on_revoke "notes" "thu" ∷ []

found_connection : Dict.get "notes" filled.connections ≡ some connection
unfolding Dict.get
found_connection = refl

found_item : Pairs.get "notes" "n1" filled.items ≡ some item
unfolding Pairs.get
found_item = refl

no_reconnection : all (λ (x : Call Source). not (reconnects "notes" x)) calls ≡ true
unfolding reconnects
no_reconnection = refl

removed_forever_example :
    let later = steps patterns (remove_imported_data "notes" delete filled).1 calls in
    Gone "notes" "n1" delete later.items
    × (content_result "notes" "n1" later
        ≡ err (key_error "Synchronized connector item is not available"))
removed_forever_example =
    removed_forever patterns "notes" "n1" delete filled calls connection item found_connection
      found_item

closed_stays_example :
    let revoked = steps patterns (revoke "notes" "tue" filled).1 calls in
    let disconnected = steps patterns (disconnect "notes" "tue" filled).1 calls in
    (synchronize patterns "notes" "fri" revoked
      ≡ (err (permission_error "Connector access is closed."), revoked))
    × (synchronize patterns "notes" "fri" disconnected
        ≡ (err (permission_error "Connector access is closed."), disconnected))
closed_stays_example =
    closed_stays patterns filled calls "notes" "tue" "fri" connection found_connection
      no_reconnection
