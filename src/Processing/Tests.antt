-- ===== src/Processing/Tests.antt =====
-- Grants and scopes at concrete inputs.
use reckoning.Prelude.{
  ◌≡◌, refl, Bool, true, false, Option, none, some, List, [], ◌∷◌, ℤ, pos, ◌+ℤ◌, arith, eq_iff, any,
  is_blank, distinct, strip,
}
use reckoning.Prelude.Result.{ok}
use reckoning.Processing.Grants.{
  processing_categories, ProcessingDestination, DestinationKind, local, cloud, destination_key,
  ProcessingGrant, grant_from_data, get_grant, save_grant, full_grant,
  ensure_initial_processing_grant,
}
use reckoning.Processing.Grants.Saved.{IsStorable}
use reckoning.Processing.Grants.Initial.{Ensured, ensure_initial-Ensured}
use reckoning.Processing.Scope.{
  ProcessingScopeStatus, ProcessingDecision, scope_status, review, evaluate, change,
}
use reckoning.Processing.Scope.Authorized.{changed_grant}

abbrev destination : ProcessingDestination
destination = record { provider = "acme"; endpoint = "https://acme.example"; kind = cloud }

abbrev first_grant : ProcessingGrant
first_grant = record {
  destination_id = "acme@https://acme.example";
  version = pos 1;
  allowed_categories = "current-request" ∷ "delegated-context" ∷ [];
  changed_at = "monday";
}

abbrev other_grant : ProcessingGrant
other_grant = record {
  destination_id = "other@in-process";
  version = pos 4;
  allowed_categories = [];
  changed_at = "sunday";
}

abbrev file : List ProcessingGrant
file = other_grant ∷ []

abbrev granted : List ProcessingGrant
granted = other_grant ∷ first_grant ∷ []

full-IsStorable : IsStorable (full_grant destination "monday")
unfolding grant_from_data is_blank destination_key reckoning.Prelude.is_unique processing_categories
    strip
full-IsStorable = refl

ensured :
    (ensure_initial_processing_grant destination "monday" file).0
    ≡ ok (some (full_grant destination "monday", true))
unfolding ensure_initial_processing_grant get_grant reckoning.Processing.Grants.load_grants
    reckoning.Processing.Grants.grants_from_data grant_from_data is_blank
    reckoning.Prelude.is_unique strip destination_key save_grant ◌+ℤ◌
ensured = refl

ensure_initial-Ensured_example :
    Ensured destination "monday" file
      (some (full_grant destination "monday", true))
      (ensure_initial_processing_grant destination "monday" file).1
ensure_initial-Ensured_example =
    ensure_initial-Ensured destination "monday" file (some (full_grant destination "monday", true))
      full-IsStorable ensured

abbrev decision : ProcessingDecision
decision = record {
  allowed_categories = "current-request" ∷ [];
  unavailable_categories = "permissions" ∷ [];
  blocked_categories = "permissions" ∷ [];
}

evaluated :
    evaluate destination ("current-request" ∷ "permissions" ∷ []) ("permissions" ∷ []) granted
    ≡ ok decision
unfolding evaluate review get_grant reckoning.Processing.Grants.load_grants
    reckoning.Processing.Grants.grants_from_data grant_from_data is_blank
    reckoning.Prelude.is_unique strip reckoning.Prelude.contains destination_key
evaluated = refl

abbrev allowed : ProcessingDecision
allowed = record {
  allowed_categories = "delegated-context" ∷ "current-request" ∷ [];
  unavailable_categories = [];
  blocked_categories = [];
}

abbrev changed : ProcessingScopeStatus
changed =
    scope_status destination
      (some (changed_grant destination ("permissions" ∷ []) "tuesday" (pos 1)))

change_ran : (change destination ("permissions" ∷ []) "tuesday" (pos 1) granted).0 ≡ ok changed
unfolding change distinct is_blank save_grant reckoning.Processing.Grants.load_grants
    reckoning.Processing.Grants.grants_from_data grant_from_data reckoning.Prelude.is_unique strip
    destination_key ◌+ℤ◌ review get_grant
change_ran = refl

trimmed : strip (destination_key destination) ≡ destination_key destination
unfolding destination_key strip
trimmed = refl

named : is_blank (destination_key destination) ≡ false
unfolding is_blank destination_key
named = refl
