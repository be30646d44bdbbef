-- ===== src/Processing/Scope.antt =====
-- ProcessingScope of processing.py on the file of grants.
pub mod Authorized
use reckoning.Prelude.{
  String, Bool, true, false, not, Option, none, some, List, [], ◌∷◌, ℤ, pos, ◌+ℤ◌, str_eq, contains,
  distinct, is_blank, any, keep, if◌then◌else◌,
}
use reckoning.Prelude.Result.{Result, ok, err, Error, value_error, Action, ◌>>=◌}
use reckoning.Processing.Grants.{
  processing_categories, DestinationKind, is_cloud, ProcessingDestination, destination_key,
  ProcessingGrant, get_grant, save_grant,
}

-- `storage_location` and `executing_node` keep their default "unknown"
pub record ProcessingScopeStatus : Type 0 where
  pub destination : ProcessingDestination
  pub grant_version : ℤ
  pub allowed_categories : List String
  pub restricted_categories : List String
  pub explicit : Bool

pub record ProcessingDecision : Type 0 where
  pub allowed_categories : List String
  pub unavailable_categories : List String
  pub blocked_categories : List String

-- the items of `xs` that are in `ys`, and those that are not
abbrev pub within : List String → List String → List String
within ys xs = keep (λ x. contains ys x) xs

abbrev pub outside : List String → List String → List String
outside ys xs = keep (λ x. not (contains ys x)) xs

abbrev pub scope_status : ProcessingDestination → Option ProcessingGrant → ProcessingScopeStatus
scope_status destination (some grant) = record {
  destination = destination;
  grant_version = grant.version;
  allowed_categories = grant.allowed_categories;
  restricted_categories = outside grant.allowed_categories processing_categories;
  explicit = true;
}
scope_status destination none = record {
  destination = destination;
  grant_version = pos 0;
  allowed_categories = if is_cloud destination.kind then [] else processing_categories;
  restricted_categories = if is_cloud destination.kind then processing_categories else [];
  explicit = false;
}

-- ProcessingScope.review
unfoldable pub review : ProcessingDestination → List ProcessingGrant → Result ProcessingScopeStatus
review destination file = do
  grant ← get_grant file (destination_key destination)
  ok (scope_status destination grant)

after_change :
    ProcessingDestination → Result (Unit {0}) → Action (List ProcessingGrant) ProcessingScopeStatus
after_change destination (err e) file = (err e, file)
after_change destination (ok done) file = (review destination file, file)

-- ProcessingScope.change
unfoldable pub change :
    ProcessingDestination
    → List String
    → String
    → ℤ
    → Action (List ProcessingGrant) ProcessingScopeStatus
unfolding after_change
change destination allowed_categories changed_at expected file =
    let allowed = distinct allowed_categories in
    if any is_blank allowed
    then (err (value_error "Processing categories cannot be empty."), file)
    else let grant : ProcessingGrant = record {
      destination_id = destination_key destination;
      version = expected +ℤ pos 1;
      allowed_categories = allowed;
      changed_at = changed_at;
    } in
      let (answer, file') = save_grant grant expected file in after_change destination answer file'

abbrev pub decide : List String → List String → List String → ProcessingDecision
decide permitted categories required =
    let allowed = within permitted categories in
    let unavailable = outside allowed categories in
    record {
      allowed_categories = allowed;
      unavailable_categories = unavailable;
      blocked_categories = within required unavailable;
    }

-- ProcessingScope.evaluate
unfoldable pub evaluate :
    ProcessingDestination
    → List String
    → List String
    → List ProcessingGrant
    → Result ProcessingDecision
evaluate destination categories required file = do
  status ← review destination file
  ok (decide status.allowed_categories categories required)

-- the categories that a delegation is asked about
unfoldable pub routed : List String → List String
routed categories = distinct ("delegated-context" ∷ within processing_categories categories)

-- ProcessingScope.authorize_delegation
unfoldable pub authorize_delegation :
    ProcessingDestination → String → List String → List ProcessingGrant → Result ProcessingDecision
unfolding routed
authorize_delegation destination provider categories file =
    if not (str_eq provider destination.provider)
    then ok (record {
      allowed_categories = [];
      unavailable_categories = routed categories;
      blocked_categories = routed categories;
    })
    else evaluate destination (routed categories) (routed categories) file
