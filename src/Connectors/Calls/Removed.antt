-- ===== src/Connectors/Calls/Removed.antt =====
-- Imported items that were removed.
use reckoning.Prelude.{
  ◌≡◌, ◌∙◌, inl, inr, refl, String, Bool, false, Option, none, some, List, [], ◌∷◌, arith, eq_iff,
  str_eq, Bool-cases, if◌then◌else◌,
}
use reckoning.Prelude.Dict
use reckoning.Prelude.Pairs
use reckoning.Prelude.Pairs.{Pairs, same_key}
use reckoning.Prelude.Result.{err, key_error}
use reckoning.Connectors.Records.{
  RemovalMode, suppress, delete, ImportedConnectorItem, ConnectorItem, ConnectorConnection,
  is_active,
}
use reckoning.Connectors.Content.{Pattern}
use reckoning.Connectors.Service.{
  Connectors, remove_imported_data, content_result, removed_items, removed_item, remove_known,
  connection,
}
use reckoning.Connectors.Synchronize.{synchronize, take_item}
use reckoning.Connectors.Synchronize.Keeps.{synchronize-keeps}
use reckoning.Connectors.Calls.{
  Call, on_connect, on_synchronize, on_revoke, on_disconnect, on_remove, step, steps,
}

abbrev removed_where :
    Bool → RemovalMode → Option ImportedConnectorItem → Option ImportedConnectorItem
removed_where owned mode none = none
removed_where owned mode (some item) = if owned then some (removed_item mode item) else some item

get-removed_items :
    (connector_id a b : String) (mode : RemovalMode) (d : Pairs ImportedConnectorItem)
    → Pairs.get a b (removed_items connector_id mode d)
      ≡ removed_where (str_eq a connector_id) mode (Pairs.get a b d)
unfolding removed_items Pairs.get
get-removed_items connector_id a b mode [] = refl
get-removed_items connector_id a b mode ((c, e, item) ∷ d) = ground (
  arith,
  eq_iff a connector_id,
  eq_iff c connector_id,
  eq_iff c a,
  eq_iff e b,
  get-removed_items connector_id a b mode d,
)

-- the content of an item that was deleted is gone
abbrev pub Emptied : RemovalMode → ImportedConnectorItem → Type 0
Emptied suppress item = Unit
Emptied delete item = item.content ≡ ""

-- an item that is no longer there
pub record Gone (a b : String) (mode : RemovalMode) (items : Pairs ImportedConnectorItem)
    : Type 0 where
  pub item : ImportedConnectorItem
  pub kept : Pairs.get a b items ≡ some item
  pub inactive : is_active item.deletion_state ≡ false
  pub emptied : Emptied mode item

module _ {W : Type 0} (patterns : List Pattern) (a b : String) (mode : RemovalMode) where
  take_item-Gone :
      (connector_id : String) (scope : List String) (item : ConnectorItem) (s : Connectors W)
      → Gone a b mode s.items
      → Gone a b mode (take_item patterns connector_id scope item s).1.items
  take_item-Gone connector_id scope item s g = record {
    item = g.item;
    kept = unfold take_item in grind (arith, Pairs.get-put, eq_iff, g.kept, g.inactive);
    inactive = g.inactive;
    emptied = g.emptied;
  }

  synchronize-Gone :
      (connector_id at : String) (s : Connectors W)
      → Gone a b mode s.items
      → Gone a b mode (synchronize patterns connector_id at s).1.items
  synchronize-Gone connector_id at s g =
      synchronize-keeps patterns (λ s. Gone a b mode s.items) (λ s w h. h) (λ s w h. h)
        take_item-Gone connector_id at s g

removed-inactive :
    (by : RemovalMode) (item : ImportedConnectorItem)
    → is_active (removed_item by item).deletion_state ≡ false
removed-inactive suppress item = refl
removed-inactive delete item = refl

removed-Emptied :
    (mode by : RemovalMode) (item : ImportedConnectorItem)
    → Emptied mode item
    → Emptied mode (removed_item by item)
removed-Emptied suppress by item e = tt
removed-Emptied delete suppress item e = e
removed-Emptied delete delete item e = refl

first-Emptied :
    (mode : RemovalMode) (item : ImportedConnectorItem) → Emptied mode (removed_item mode item)
first-Emptied suppress item = tt
first-Emptied delete item = refl

module _ (a b : String) (mode : RemovalMode) where
  -- an item that is gone stays gone when the items of any connector are removed
  removed_items-Gone :
      (connector_id : String) (by : RemovalMode) (d : Pairs ImportedConnectorItem)
      → Gone a b mode d
      → Gone a b mode (removed_items connector_id by d)
  removed_items-Gone connector_id by d g = elim (Bool-cases (str_eq a connector_id)) [
    | inl own ↦ record {
      item = removed_item by g.item;
      kept = get-removed_items connector_id a b by d ∙ rw own (rw g.kept refl);
      inactive = removed-inactive by g.item;
      emptied = removed-Emptied mode by g.item g.emptied;
    }
    | inr other ↦ record {
      item = g.item;
      kept = get-removed_items connector_id a b by d ∙ rw other (rw g.kept refl);
      inactive = g.inactive;
      emptied = g.emptied;
    }
  ]

  module _ {W : Type 0} (patterns : List Pattern) where
    known-Gone :
        (connector_id : String) (by : RemovalMode) (c : Option ConnectorConnection)
        (s : Connectors W)
        → Gone a b mode s.items
        → Gone a b mode (remove_known connector_id by (connection c) s).1.items
    unfolding remove_known
    known-Gone connector_id by none s g = g
    known-Gone connector_id by (some c) s g = removed_items-Gone connector_id by s.items g

    step-Gone :
        (s : Connectors W) (c : Call W)
        → Gone a b mode s.items
        → Gone a b mode (step patterns s c).items
    unfolding step
    step-Gone s (on_connect adapter scope) g = record {
      item = g.item;
      kept = ground (arith, g.kept);
      inactive = g.inactive;
      emptied = g.emptied;
    }
    step-Gone s (on_synchronize connector_id at) g =
        synchronize-Gone patterns a b mode connector_id at s g
    step-Gone s (on_revoke connector_id at) g = record {
      item = g.item;
      kept = ground (arith, g.kept);
      inactive = g.inactive;
      emptied = g.emptied;
    }
    step-Gone s (on_disconnect connector_id at) g = record {
      item = g.item;
      kept = ground (arith, g.kept);
      inactive = g.inactive;
      emptied = g.emptied;
    }
    step-Gone s (on_remove connector_id by) g =
        known-Gone connector_id by (Dict.get connector_id s.connections) s g

    steps-Gone :
        (s : Connectors W) (cs : List (Call W))
        → Gone a b mode s.items
        → Gone a b mode (steps patterns s cs).items
    unfolding steps
    steps-Gone s [] g = g
    steps-Gone s (c ∷ cs) g = steps-Gone (step patterns s c) cs (step-Gone s c g)

remove-Gone :
    {W : Type 0} (a b : String) (mode : RemovalMode) (s : Connectors W) (c : ConnectorConnection)
    (item : ImportedConnectorItem)
    → Dict.get a s.connections ≡ some c
    → Pairs.get a b s.items ≡ some item
    → Gone a b mode (remove_imported_data a mode s).1.items
unfolding remove_imported_data
remove-Gone a b mode s c item known here = record {
  item = removed_item mode item;
  kept = rw known (get-removed_items a a b mode s.items ∙ rw ((eq_iff a a).1 refl) (rw here refl));
  inactive = removed-inactive mode item;
  emptied = first-Emptied mode item;
}

-- Once the imported data of a connector are removed, and whatever calls follow, with whatever the
-- sources then bring, each item that was there is inactive, its content is empty if the data were
-- deleted, and asking for its content raises.
pub removed_forever :
    {W : Type 0} (patterns : List Pattern) (a b : String) (mode : RemovalMode) (s : Connectors W)
    (cs : List (Call W)) (c : ConnectorConnection) (item : ImportedConnectorItem)
    → Dict.get a s.connections ≡ some c
    → Pairs.get a b s.items ≡ some item
    → let later = steps patterns (remove_imported_data a mode s).1 cs in
      Gone a b mode later.items
      × (content_result a b later ≡ err (key_error "Synchronized connector item is not available"))
unfolding content_result
removed_forever patterns a b mode s cs c item known here =
    let g =
      steps-Gone a b mode patterns (remove_imported_data a mode s).1 cs
        (remove-Gone a b mode s c item known here) in
    (g, rw g.kept (rw g.inactive refl))
