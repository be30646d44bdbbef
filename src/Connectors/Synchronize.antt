-- ===== src/Connectors/Synchronize.antt =====
-- ConnectorService.synchronize of connectors.py: the items that an adapter brings, inspected and
-- stored one by one.
pub mod Keeps
use reckoning.Prelude.{
  String, Bool, true, false, not, ◌||◌, ◌&&◌, Option, none, some, List, [], ◌∷◌, ◌++◌, str_eq, map,
  strip, is_blank, is_empty, contains, all, concat, if◌then◌else◌,
}
use reckoning.Prelude.Dict
use reckoning.Prelude.Dict.{Dict}
use reckoning.Prelude.Pairs
use reckoning.Prelude.Pairs.{Pairs}
use reckoning.Prelude.Result.{
  Result, ok, err, Error, permission_error, runtime_error, key_error, Action,
}
use reckoning.Automation.Runner.{message, is_interrupted}
use reckoning.Connectors.Records.{
  ConnectorStatus, connected, DeletionState, active, HealthStatus, RemovalMode, suppress, delete,
  ConnectorItem, ImportedConnectorItem, ConnectorConnection, ConnectorHealth, SynchronizationResult,
  ReadConnector, is_connected, is_active,
}
use reckoning.Connectors.Content.{Pattern, UntrustedContent, ExternalContentResult, inspect}
use reckoning.Connectors.Service.{Connectors, connection, health_of, imported_items}

-- the scope of an imported item, which the prompt and the tools get
abbrev pub protected_layers : List String
protected_layers = "protected_product_contract" ∷ "product_identity" ∷ []

unfoldable pub permissions_of : String → List String → List String
permissions_of connector_id scope =
    map (λ (x : String). concat "connector:" (concat connector_id (concat ":" x))) scope

-- self._items[key] = …: a new item, or the old one with its content and provenance replaced
abbrev pub imported : String → ConnectorItem → Option ImportedConnectorItem → ImportedConnectorItem
imported connector_id item none = record {
  connector_id = connector_id;
  external_id = item.external_id;
  content = item.content;
  provenance = item.provenance;
  deletion_state = active;
}
imported connector_id item (some existing) = record existing {
  content = item.content;
  provenance = item.provenance;
}

-- existing is not None and existing.deletion_state != "active"
abbrev pub is_removed : Option ImportedConnectorItem → Bool
is_removed none = false
is_removed (some existing) = not (is_active existing.deletion_state)

module _ (patterns : List Pattern) where
  unfoldable pub inspected : String → List String → ConnectorItem → Result ExternalContentResult
  unfolding permissions_of inspect
  inspected connector_id scope item =
      inspect patterns
        (record { id = item.external_id; source = item.provenance; text = item.content })
        protected_layers scope (permissions_of connector_id scope)

  module _ {W : Type 0} where
    unfoldable pub take_inspected :
        String → ConnectorItem → Result ExternalContentResult → Action (Connectors W) (Unit {0})
    take_inspected connector_id item (err e) s = (err e, s)
    take_inspected connector_id item (ok r) s = (
      ok tt,
      record s {
        content_results = Pairs.put connector_id item.external_id r s.content_results;
        items =
            Pairs.put connector_id item.external_id
              (imported connector_id item (Pairs.get connector_id item.external_id s.items))
              s.items;
      },
    )

    -- one round of the loop over the incoming items
    unfoldable pub take_item :
        String → List String → ConnectorItem → Action (Connectors W) (Unit {0})
    unfolding take_inspected inspected
    take_item connector_id scope item s =
        if is_removed (Pairs.get connector_id item.external_id s.items)
        then (
          ok tt,
          record s { content_results = Pairs.pop connector_id item.external_id s.content_results },
        )
        else take_inspected connector_id item (inspected connector_id scope item) s

    -- the rest of the loop, unless a round has raised
    carry_on :
        Result (Unit {0})
        → Connectors W
        → Result (Unit {0}) × Connectors W
        → Result (Unit {0}) × Connectors W
    carry_on (err e) s rest = (err e, s)
    carry_on (ok done) s rest = rest

    unfoldable pub take_items :
        String → List String → List ConnectorItem → Action (Connectors W) (Unit {0})
    unfolding carry_on
    take_items connector_id scope [] s = (ok tt, s)
    take_items connector_id scope (item ∷ items) s =
        let (done, s') = take_item connector_id scope item s in
        carry_on done s' (take_items connector_id scope items s')

    synchronized : String → String → Result (Unit {0}) → Action (Connectors W) SynchronizationResult
    synchronized connector_id at (err e) s = (err e, s)
    synchronized connector_id at (ok done) s = (
      ok (record {
        connector_id = connector_id;
        synchronized_at = at;
        items = imported_items connector_id s;
      }),
      record s {
        health =
            Dict.put connector_id
              (health_of connector_id HealthStatus.healthy (some at) "Synchronized source items.")
              s.health;
      },
    )

    -- what the adapter brings, or the exception that it raises
    take_incoming :
        String
        → String
        → List String
        → Result (List ConnectorItem)
        → Action (Connectors W) SynchronizationResult
    unfolding synchronized
    take_incoming connector_id at scope (err e) s = if is_interrupted e then (err e, s) else (
      err e,
      record s {
        health =
            Dict.put connector_id (health_of connector_id HealthStatus.failed (some at) (message e))
              s.health;
      },
    )
    take_incoming connector_id at scope (ok items) s =
        let (done, s') = take_items connector_id scope items s in
        synchronized connector_id at done s'

    ask_adapter :
        String
        → String
        → List String
        → Option (ReadConnector W)
        → Action (Connectors W) SynchronizationResult
    unfolding take_incoming
    ask_adapter connector_id at scope none s = (err (key_error "Unknown adapter"), s)
    ask_adapter connector_id at scope (some adapter) s =
        let (incoming, world') = adapter.synchronize scope s.world in
        take_incoming connector_id at scope incoming (record s { world = world' })

    synchronize_connected :
        String → String → Result ConnectorConnection → Action (Connectors W) SynchronizationResult
    unfolding ask_adapter
    synchronize_connected connector_id at (err e) s = (err e, s)
    synchronize_connected connector_id at (ok c) s =
        if not (is_connected c.status)
        then (err (permission_error "Connector access is closed."), s)
        else ask_adapter connector_id at c.granted_read_scope (Dict.get connector_id s.adapters) s

    unfoldable pub synchronize : String → String → Action (Connectors W) SynchronizationResult
    unfolding synchronize_connected
    synchronize connector_id synchronized_at s =
        synchronize_connected connector_id synchronized_at
          (connection (Dict.get connector_id s.connections)) s
