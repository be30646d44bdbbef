-- ===== src/Connectors/Service.antt =====
-- ConnectorService of connectors.py without a path: its dictionaries, and the state `W` of the
-- adapters. The health text of a synchronization is fixed where the source writes the number of
-- items into it.
use reckoning.Prelude.{
  String, Bool, not, ◌||◌, ◌&&◌, Option, none, some, List, [], ◌∷◌, str_eq, strip, is_blank,
  is_empty, contains, all, if◌then◌else◌,
}
use reckoning.Prelude.Dict
use reckoning.Prelude.Dict.{Dict}
use reckoning.Prelude.Pairs
use reckoning.Prelude.Pairs.{Pairs}
use reckoning.Prelude.Result.{Result, ok, err, permission_error, runtime_error, key_error, Action}
use reckoning.Connectors.Records.{
  ConnectorStatus, connected, suppressed, deleted, HealthStatus, RemovalMode, suppress, delete,
  ImportedConnectorItem, ConnectorConnection, ConnectorHealth, ReadConnector, is_active,
}
use reckoning.Connectors.Content.{ExternalContentResult}

pub record Connectors (W : Type 0) : Type 0 where
  pub connections : Dict ConnectorConnection
  pub adapters : Dict (ReadConnector W)
  pub items : Pairs ImportedConnectorItem
  pub health : Dict ConnectorHealth
  pub content_results : Pairs ExternalContentResult
  pub world : W

-- set(xs).issubset(ys)
abbrev pub is_subset : List String → List String → Bool
is_subset xs ys = all (λ (x : String). contains ys x) xs

abbrev pub health_of : String → HealthStatus → Option String → String → ConnectorHealth
health_of connector_id status checked_at detail = record {
  connector_id = connector_id;
  status = status;
  checked_at = checked_at;
  detail = detail;
}

abbrev pub connection_of :
    {W : Type 0} → ReadConnector W → String → List String → ConnectorConnection
connection_of adapter identity read_scope = record {
  id = adapter.connector_id;
  identity = identity;
  granted_read_scope = read_scope;
  available_write_scope = adapter.write_scopes;
  granted_write_scope = [];
  status = connected;
}

-- _connection
abbrev pub connection : Option ConnectorConnection → Result ConnectorConnection
connection none = err (key_error "Unknown connector")
connection (some c) = ok c

health_found : Option ConnectorHealth → Result ConnectorConnection → Result ConnectorHealth
health_found h (err e) = err e
health_found none (ok c) = err (key_error "Unknown connector")
health_found (some h) (ok c) = ok h

-- the active items of a connector
items_of : String → Pairs ImportedConnectorItem → List ImportedConnectorItem
items_of connector_id [] = []
items_of connector_id ((owner, external_id, item) ∷ d) =
    let rest = items_of connector_id d in
    if str_eq owner connector_id && is_active item.deletion_state then item ∷ rest else rest

content_found :
    Option ImportedConnectorItem → Option ExternalContentResult → Result ExternalContentResult
content_found none r = err (key_error "Synchronized connector item is not available")
content_found (some item) r =
    if not (is_active item.deletion_state)
    then err (key_error "Synchronized connector item is not available")
    else elim r [
      | none ↦ err (key_error "Unknown synchronized connector item")
      | some found ↦ ok found
    ]

-- replace(item, content=…, deletion_state=…)
abbrev pub removed_item : RemovalMode → ImportedConnectorItem → ImportedConnectorItem
removed_item suppress item = record item { deletion_state = suppressed }
removed_item delete item = record item { content = ""; deletion_state = deleted }

-- the loop of remove_imported_data over the items: each of the connector is replaced where it
-- stands
unfoldable pub removed_items :
    String → RemovalMode → Pairs ImportedConnectorItem → Pairs ImportedConnectorItem
removed_items connector_id mode [] = []
removed_items connector_id mode ((owner, external_id, item) ∷ d) =
    let rest = removed_items connector_id mode d in
    if str_eq owner connector_id
    then (owner, external_id, removed_item mode item) ∷ rest
    else (owner, external_id, item) ∷ rest

-- the items that it reports
removed_of : String → RemovalMode → Pairs ImportedConnectorItem → List ImportedConnectorItem
removed_of connector_id mode [] = []
removed_of connector_id mode ((owner, external_id, item) ∷ d) =
    let rest = removed_of connector_id mode d in
    if str_eq owner connector_id then removed_item mode item ∷ rest else rest

-- the content results without those of the connector's items
unfoldable pub without_results :
    String → Pairs ImportedConnectorItem → Pairs ExternalContentResult → Pairs ExternalContentResult
without_results connector_id [] results = results
without_results connector_id ((owner, external_id, item) ∷ d) results =
    without_results connector_id d
      (if str_eq owner connector_id then Pairs.pop owner external_id results else results)

module _ {W : Type 0} where
  connect_verified :
      ReadConnector W → List String → Result String → Action (Connectors W) ConnectorConnection
  connect_verified adapter read_scope (err e) s = (err e, s)
  connect_verified adapter read_scope (ok identity) s =
      let c = connection_of adapter (strip identity) read_scope in
      if is_blank identity
      then (err (runtime_error "The connector did not verify an identity."), s)
      else (
        ok c,
        record s {
          connections = Dict.put c.id c s.connections;
          adapters = Dict.put c.id adapter s.adapters;
          health =
              Dict.put c.id
                (health_of c.id HealthStatus.healthy none
                  "Identity verified; synchronization pending.")
                s.health;
        },
      )

  unfoldable pub connect : ReadConnector W → List String → Action (Connectors W) ConnectorConnection
  unfolding connect_verified
  connect adapter read_scope s =
      if is_empty read_scope || not (is_subset read_scope adapter.read_scopes)
      then (err (permission_error "Selected read scope is not offered by the connector."), s)
      else (let (identity, world') = adapter.verify_identity s.world in
          connect_verified adapter read_scope identity (record s { world = world' }))

  set_status :
      String
      → ConnectorStatus
      → HealthStatus
      → String
      → String
      → Result ConnectorConnection
      → Action (Connectors W) ConnectorConnection
  set_status connector_id status seen at detail (err e) s = (err e, s)
  set_status connector_id status seen at detail (ok c) s = (
    ok (record c { status = status }),
    record s {
      connections = Dict.put connector_id (record c { status = status }) s.connections;
      health = Dict.put connector_id (health_of connector_id seen (some at) detail) s.health;
    },
  )

  unfoldable pub revoke : String → String → Action (Connectors W) ConnectorConnection
  unfolding set_status
  revoke connector_id revoked_at s =
      set_status connector_id ConnectorStatus.revoked HealthStatus.revoked revoked_at
        "Future connector access is revoked." (connection (Dict.get connector_id s.connections)) s

  unfoldable pub disconnect : String → String → Action (Connectors W) ConnectorConnection
  unfolding set_status
  disconnect connector_id disconnected_at s =
      set_status connector_id ConnectorStatus.disconnected HealthStatus.disconnected disconnected_at
        "The connector is disconnected and cannot be accessed."
        (connection (Dict.get connector_id s.connections)) s

  unfoldable pub imported_items : String → Connectors W → List ImportedConnectorItem
  unfolding items_of
  imported_items connector_id s = items_of connector_id (Pairs.sorted_items s.items)

  unfoldable pub health : String → Connectors W → Result ConnectorHealth
  unfolding health_found
  health connector_id s =
      health_found (Dict.get connector_id s.health)
        (connection (Dict.get connector_id s.connections))

  unfoldable pub content_result : String → String → Connectors W → Result ExternalContentResult
  unfolding content_found
  content_result connector_id external_id s =
      content_found (Pairs.get connector_id external_id s.items)
        (Pairs.get connector_id external_id s.content_results)

  unfoldable pub remove_known :
      String
      → RemovalMode
      → Result ConnectorConnection
      → Action (Connectors W) (List ImportedConnectorItem)
  unfolding removed_items without_results removed_of
  remove_known connector_id mode (err e) s = (err e, s)
  remove_known connector_id mode (ok c) s = (
    ok (removed_of connector_id mode s.items),
    record s {
      items = removed_items connector_id mode s.items;
      content_results = without_results connector_id s.items s.content_results;
    },
  )

  unfoldable pub remove_imported_data :
      String → RemovalMode → Action (Connectors W) (List ImportedConnectorItem)
  unfolding remove_known
  remove_imported_data connector_id mode s =
      remove_known connector_id mode (connection (Dict.get connector_id s.connections)) s
