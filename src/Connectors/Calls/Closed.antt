-- ===== src/Connectors/Calls/Closed.antt =====
-- Connections that were revoked or disconnected.
use reckoning.Prelude.{
  ◌≡◌, ◌∙◌, refl, String, Bool, true, false, not, Option, none, some, List, [], ◌∷◌, arith, eq_iff,
  str_eq, all, Option-cases, inl, inr,
}
use reckoning.Prelude.Dict
use reckoning.Prelude.Result.{err, permission_error}
use reckoning.Connectors.Records.{ConnectorItem, ConnectorConnection, is_connected}
use reckoning.Connectors.Content.{Pattern}
use reckoning.Connectors.Service.{Connectors, revoke, disconnect}
use reckoning.Connectors.Synchronize.{synchronize, take_item}
use reckoning.Connectors.Synchronize.Keeps.{synchronize-keeps}
use reckoning.Connectors.Calls.{
  Call, on_connect, on_synchronize, on_revoke, on_disconnect, on_remove, step, steps,
}

-- the connection is there and is not connected
closed : Option ConnectorConnection → Bool
closed none = false
closed (some c) = not (is_connected c.status)

-- a call that connects the source again
unfoldable pub reconnects : {W : Type 0} → String → Call W → Bool
reconnects connector_id (on_connect adapter scope) = str_eq adapter.connector_id connector_id
reconnects connector_id _ = false

module _ {W : Type 0} (patterns : List Pattern) where
  take_item-connections :
      (id : String) (scope : List String) (item : ConnectorItem) (s : Connectors W)
      → (take_item patterns id scope item s).1.connections ≡ s.connections
  unfolding take_item
  take_item-connections id scope item s = ground arith

  synchronize-connections :
      (id at : String) (s : Connectors W)
      → (synchronize patterns id at s).1.connections ≡ s.connections
  synchronize-connections id at s =
      synchronize-keeps patterns (λ t. t.connections ≡ s.connections) (λ t w h. h) (λ t w h. h)
        (λ x scope item t h. take_item-connections x scope item t ∙ h) id at s refl

  step-closed :
      (s : Connectors W) (c : Call W) (id : String)
      → reconnects id c ≡ false
      → closed (Dict.get id s.connections) ≡ true
      → closed (Dict.get id (step patterns s c).connections) ≡ true
  unfolding step reconnects closed
  step-closed s (on_connect adapter scope) id r h = grind (arith, Dict.get-put, eq_iff)
  step-closed s (on_synchronize x at) id r h = rw (synchronize-connections x at s) h
  step-closed s (on_revoke x at) id r h = grind (arith, Dict.get-put, eq_iff)
  step-closed s (on_disconnect x at) id r h = grind (arith, Dict.get-put, eq_iff)
  step-closed s (on_remove x mode) id r h = grind (arith)

  steps-closed :
      (s : Connectors W) (cs : List (Call W)) (id : String)
      → all (λ (c : Call W). not (reconnects id c)) cs ≡ true
      → closed (Dict.get id s.connections) ≡ true
      → closed (Dict.get id (steps patterns s cs).connections) ≡ true
  unfolding steps
  steps-closed s [] id r h = h
  steps-closed s (c ∷ cs) id r h =
      steps-closed (step patterns s c) cs id (ground arith) (step-closed s c id (ground arith) h)

  closed-synchronize :
      (id at : String) (s : Connectors W)
      → closed (Dict.get id s.connections) ≡ true
      → synchronize patterns id at s ≡ (err (permission_error "Connector access is closed."), s)
  unfolding synchronize closed
  closed-synchronize id at s h = elim (Option-cases (Dict.get id s.connections)) [
    | inl n ↦ absurd (ground arith)
    | inr (c, e) ↦ ground arith
  ]

  -- After a connector is revoked or disconnected, and whatever calls follow that do not connect it
  -- again, a synchronization raises, calls no adapter and changes nothing.
  pub closed_stays :
      (s : Connectors W) (cs : List (Call W)) (id at later_at : String) (c : ConnectorConnection)
      → Dict.get id s.connections ≡ some c
      → all (λ (x : Call W). not (reconnects id x)) cs ≡ true
      → let revoked = steps patterns (revoke id at s).1 cs in
        let disconnected = steps patterns (disconnect id at s).1 cs in
        (synchronize patterns id later_at revoked
          ≡ (err (permission_error "Connector access is closed."), revoked))
        × (synchronize patterns id later_at disconnected
            ≡ (err (permission_error "Connector access is closed."), disconnected))
  closed_stays s cs id at later_at c known r = (
    closed-synchronize id later_at _ (
        steps-closed (revoke id at s).1 cs id r
          (unfold revoke in unfold closed in grind (arith, Dict.get-put, eq_iff, known))),
    closed-synchronize id later_at _ (
        steps-closed (disconnect id at s).1 cs id r
          (unfold disconnect in unfold closed in grind (arith, Dict.get-put, eq_iff, known))),
  )
