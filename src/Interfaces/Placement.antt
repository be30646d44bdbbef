-- ===== src/Interfaces/Placement.antt =====
-- PlacementPolicy of interfaces.py: which source categories can be used with the nodes that are
-- available. The availability source is a parameter, an optional answer for each node.
pub mod Decides
use reckoning.Prelude.{
  String, Bool, true, false, not, ◌&&◌, ◌||◌, ◌≡◌, Option, none, some, List, [], ◌∷◌, str_eq, map,
  is_blank, is_empty, is_unique, concat, join, last?, keep, any, if◌then◌else◌,
}
use reckoning.Prelude.Result.{Result, ok, err, value_error}

pub data NodeName : Type 0 where
  local server : NodeName

pub data Sensitivity : Type 0 where
  open_to_all private : Sensitivity

pub data PlacementStatus : Type 0 where
  available limited blocked : PlacementStatus

pub record SourcePlacement : Type 0 where
  pub category : String
  pub sensitivity : Sensitivity
  pub storage_node : NodeName
  pub processing_node : NodeName
  pub remote_approved : Bool

abbrev pub is_server : NodeName → Bool
is_server server = true
is_server local = false

abbrev pub is_private : Sensitivity → Bool
is_private private = true
is_private open_to_all = false

-- SourcePlacement.__post_init__
unfoldable pub new_placement : SourcePlacement → Result SourcePlacement
new_placement p =
    if is_blank p.category
    then err (value_error "A source category is required.")
    else if is_private p.sensitivity
        && (is_server p.storage_node || is_server p.processing_node)
        && not p.remote_approved
    then err (value_error "Private source categories require explicit remote approval.")
    else ok p

pub record PlacementOutcome : Type 0 where
  pub status : PlacementStatus
  pub available_categories : List String
  pub unavailable_categories : List String
  pub notice : String

pub record PlacementPolicy : Type 0 where
  pub profile : String
  pub categories : List SourcePlacement
  pub local_node_available : Bool
  pub server_node_available : Bool
  pub availability_source : Option (NodeName → Bool)

abbrev pub category_of : SourcePlacement → String
category_of p = p.category

-- PlacementPolicy.__post_init__
unfoldable pub new_placement_policy : PlacementPolicy → Result PlacementPolicy
new_placement_policy p =
    if not (is_unique (map category_of p.categories))
    then err (value_error "Each source category must have one placement rule.")
    else ok p

node_asked : Option (NodeName → Bool) → Bool → Bool → NodeName → Bool
node_asked (some is_available) local_up server_up node = is_available node
node_asked none local_up server_up local = local_up
node_asked none local_up server_up server = server_up

-- _node_available
unfoldable pub node_available : PlacementPolicy → NodeName → Bool
unfolding node_asked
node_available p node =
    node_asked p.availability_source p.local_node_available p.server_node_available node

-- _nodes_available: both nodes of a placement
unfoldable pub nodes_available : PlacementPolicy → SourcePlacement → Bool
unfolding node_available
nodes_available p s =
    let uses_local = not (is_server s.storage_node) || not (is_server s.processing_node) in
    let uses_server = is_server s.storage_node || is_server s.processing_node in
    not (uses_local && not (node_available p local) || uses_server && not (node_available p server))

-- {item.category: item for item in categories}.get(category): the last rule of a category counts
unfoldable pub rule_for : List SourcePlacement → String → Option SourcePlacement
rule_for categories category =
    last? (keep (λ (s : SourcePlacement). str_eq s.category category) categories)

abbrev usable_by : PlacementPolicy → Option SourcePlacement → Bool
usable_by p none = false
usable_by p (some rule) = nodes_available p rule

-- the category has a rule, and its nodes are available
unfoldable pub usable : PlacementPolicy → String → Bool
unfolding rule_for nodes_available
usable p category = usable_by p (rule_for p.categories category)

-- the outcome of the categories that were found available and unavailable
unfoldable pub outcome_of : PlacementPolicy → Bool → List String → List String → PlacementOutcome
outcome_of p safe_when_incomplete found missing =
    if is_empty missing
    then record {
      status = available;
      available_categories = found;
      unavailable_categories = [];
      notice = concat p.profile " placement is fully available.";
    }
    else if safe_when_incomplete
    then record {
      status = limited;
      available_categories = found;
      unavailable_categories = missing;
      notice = concat "Limited mode: unavailable context: " (concat (join missing) ".");
    }
    else record {
      status = blocked;
      available_categories = found;
      unavailable_categories = missing;
      notice =
          concat "Work is blocked because required context is unavailable: "
            (concat (join missing) ".");
    }

unfoldable pub evaluate : PlacementPolicy → List String → Bool → PlacementOutcome
unfolding outcome_of usable
evaluate p required safe_when_incomplete =
    outcome_of p safe_when_incomplete (keep (usable p) required)
      (keep (λ (c : String). not (usable p c)) required)

-- required_categories
unfoldable pub required_categories : PlacementPolicy → List String
required_categories p = map category_of p.categories

unfoldable pub current_outcome : PlacementPolicy → PlacementOutcome
current_outcome p = evaluate p (required_categories p) true
