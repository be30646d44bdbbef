-- ===== src/Connectors/Synchronize/Keeps.antt =====
-- What every round of a synchronization keeps, the synchronization keeps.
use reckoning.Prelude.{String, List, [], ◌∷◌, none, some, Option, Bool-cases, inl, inr}
use reckoning.Prelude.Dict
use reckoning.Prelude.Dict.{Dict}
use reckoning.Prelude.Result.{Result, ok, err, Result-cases}
use reckoning.Automation.Runner.{is_interrupted}
use reckoning.Connectors.Records.{
  ConnectorItem, ConnectorHealth, ConnectorConnection, ReadConnector, is_connected,
}
use reckoning.Connectors.Content.{Pattern}
use reckoning.Connectors.Service.{Connectors, connection}
use reckoning.Connectors.Synchronize.{
  take_item, take_items, synchronized, take_incoming, ask_adapter, synchronize_connected,
  synchronize,
}

module _ {W : Type 0} (patterns : List Pattern) (P : Connectors W → Type 0)
    (world : (s : Connectors W) (w : W) → P s → P (record s { world = w }))
    (health : (s : Connectors W) (h : Dict ConnectorHealth) → P s → P (record s { health = h }))
    (round : (id : String) (scope : List String) (item : ConnectorItem) (s : Connectors W)
      → P s
      → P (take_item patterns id scope item s).1) where
  take_items-keeps :
      (id : String) (scope : List String) (items : List ConnectorItem) (s : Connectors W)
      → P s
      → P (take_items patterns id scope items s).1
  unfolding take_items
  take_items-keeps id scope [] s p = p
  take_items-keeps id scope (item ∷ items) s p =
      let t = take_item patterns id scope item s in
      let q = round id scope item s p in
      elim (Result-cases t.0) [
        | inl (done, e) ↦ rw e (take_items-keeps id scope items t.1 q)
        | inr (raised, e) ↦ rw e q
      ]

  synchronized-keeps :
      (id at : String) (done : Result (Unit {0})) (s : Connectors W)
      → P s
      → P (synchronized patterns id at done s).1
  unfolding synchronized
  synchronized-keeps id at (err e) s p = p
  synchronized-keeps id at (ok done) s p = health s _ p

  incoming-keeps :
      (id at : String) (scope : List String) (incoming : Result (List ConnectorItem))
      (s : Connectors W)
      → P s
      → P (take_incoming patterns id at scope incoming s).1
  unfolding take_incoming
  incoming-keeps id at scope (err e) s p = elim (Bool-cases (is_interrupted e)) [
    | inl i ↦ rw i p
    | inr n ↦ rw n (health s _ p)
  ]
  incoming-keeps id at scope (ok items) s p =
      synchronized-keeps id at _ _ (take_items-keeps id scope items s p)

  adapter-keeps :
      (id at : String) (scope : List String) (adapter : Option (ReadConnector W)) (s : Connectors W)
      → P s
      → P (ask_adapter patterns id at scope adapter s).1
  unfolding ask_adapter
  adapter-keeps id at scope none s p = p
  adapter-keeps id at scope (some adapter) s p = incoming-keeps id at scope _ _ (world s _ p)

  connected-keeps :
      (id at : String) (c : Result ConnectorConnection) (s : Connectors W)
      → P s
      → P (synchronize_connected patterns id at c s).1
  unfolding synchronize_connected
  connected-keeps id at (err e) s p = p
  connected-keeps id at (ok c) s p = elim (Bool-cases (is_connected c.status)) [
    | inl connected ↦
        rw connected (adapter-keeps id at c.granted_read_scope (Dict.get id s.adapters) s p)
    | inr shut ↦ rw shut p
  ]

  pub synchronize-keeps :
      (id at : String) (s : Connectors W) → P s → P (synchronize patterns id at s).1
  unfolding synchronize
  synchronize-keeps id at s p = connected-keeps id at (connection (Dict.get id s.connections)) s p
