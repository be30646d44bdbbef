-- ===== src/Processing/Grants.antt =====
-- The grants of processing.py and their file. The file is the list of the grants that it holds:
-- each call loads it afresh, and a grant that is not valid makes the call raise. The JSON text,
-- the schema number and the lock are left out, and an instant is a text.
pub mod Saved
pub mod Initial
use reckoning.Prelude.{
  ℕ, String, Bool, true, false, not, ◌||◌, Option, none, some, List, [], ◌∷◌, ◌++◌, map, ℤ, pos,
  ◌+ℤ◌, ltb_ℤ, eq_ℤ, str_eq, strip, is_blank, is_unique, any, keep, first, concat, if◌then◌else◌,
}
use reckoning.Prelude.Result.{
  Result, ok, err, Error, value_error, runtime_error, conflict, Action, ◌>>=◌,
}

-- PROCESSING_CATEGORIES
unfoldable pub processing_categories : List String
processing_categories =
    "current-request" ∷ "recent-channel-history" ∷ "private-persona" ∷ "personal-context"
    ∷ "confirmed-state" ∷ "permissions" ∷ "supplied-context" ∷ "derived-summaries"
    ∷ "raw-reckoning-input" ∷ "delegated-context" ∷ []

pub data DestinationKind : Type 0 where
  local cloud : DestinationKind

pub record ProcessingDestination : Type 0 where
  pub provider : String
  pub endpoint : String
  pub kind : DestinationKind

-- ProcessingDestination.id
unfoldable pub destination_key : ProcessingDestination → String
destination_key d = concat d.provider (concat "@" d.endpoint)

pub record ProcessingGrant : Type 0 where
  pub destination_id : String
  pub version : ℤ
  pub allowed_categories : List String
  pub changed_at : String

-- _grant_from_data
unfoldable pub grant_from_data : ProcessingGrant → Result ProcessingGrant
grant_from_data g =
    if is_blank g.destination_id
      || ltb_ℤ g.version (pos 1)
      || not (is_unique g.allowed_categories)
      || any is_blank g.allowed_categories
    then err (runtime_error "Stored processing grant is invalid.")
    else ok (record g { destination_id = strip g.destination_id })

add_grant : Result (List ProcessingGrant) → Result ProcessingGrant → Result (List ProcessingGrant)
add_grant rest (err e) = err e
add_grant (err e) (ok g) = err e
add_grant (ok gs) (ok g) = ok (g ∷ gs)

-- tuple(_grant_from_data(item) for item in data["grants"])
unfoldable pub grants_from_data : List ProcessingGrant → Result (List ProcessingGrant)
unfolding add_grant
grants_from_data [] = ok []
grants_from_data (g ∷ gs) = add_grant (grants_from_data gs) (grant_from_data g)

no_duplicates : List ProcessingGrant → Result (List ProcessingGrant)
no_duplicates gs =
    if not (is_unique (map (λ (g : ProcessingGrant). g.destination_id) gs))
    then err (runtime_error "Stored processing grants contain duplicate destinations.")
    else ok gs

-- _load_grants
unfoldable pub load_grants : List ProcessingGrant → Result (List ProcessingGrant)
unfolding no_duplicates
load_grants file = grants_from_data file >>= no_duplicates

-- the first grant of the destination
abbrev pub grant_of : String → List ProcessingGrant → Option ProcessingGrant
grant_of destination_id grants =
    first (λ (g : ProcessingGrant). str_eq g.destination_id destination_id) grants

-- JsonFileProcessingGrantRepository.get
unfoldable pub get_grant : List ProcessingGrant → String → Result (Option ProcessingGrant)
get_grant file destination_id = do grants ← load_grants file; ok (grant_of destination_id grants)

abbrev pub version_of : Option ProcessingGrant → ℤ
version_of none = pos 0
version_of (some g) = g.version

-- the other destinations' grants, and this one last
abbrev pub replaced : ProcessingGrant → List ProcessingGrant → List ProcessingGrant
replaced grant grants =
    keep (λ (g : ProcessingGrant). not (str_eq g.destination_id grant.destination_id)) grants
    ++ grant ∷ []

save_loaded :
    ProcessingGrant → ℤ → Result (List ProcessingGrant) → Action (List ProcessingGrant) (Unit {0})
save_loaded grant expected (err e) file = (err e, file)
save_loaded grant expected (ok grants) file =
    if not (eq_ℤ (version_of (grant_of grant.destination_id grants)) expected)
    then (err (conflict "Processing grant changed from the expected revision."), file)
    else if not (eq_ℤ grant.version (expected +ℤ pos 1))
    then (err (value_error "Processing-grant versions must increase by one."), file)
    else (ok tt, replaced grant grants)

-- JsonFileProcessingGrantRepository.save
unfoldable pub save_grant : ProcessingGrant → ℤ → Action (List ProcessingGrant) (Unit {0})
unfolding save_loaded
save_grant grant expected file = save_loaded grant expected (load_grants file) file

abbrev pub full_grant : ProcessingDestination → String → ProcessingGrant
full_grant destination changed_at = record {
  destination_id = destination_key destination;
  version = pos 1;
  allowed_categories = processing_categories;
  changed_at = changed_at;
}

-- full_category_grant_payload: the grants of the payload
unfoldable pub full_category_grants :
    ProcessingDestination → String → List ProcessingGrant → List ProcessingGrant
full_category_grants destination changed_at existing =
    replaced (full_grant destination changed_at) existing

created : ProcessingGrant → Result (Unit {0}) → Result (Option (ProcessingGrant × Bool))
created grant (err e) = err e
created grant (ok done) = ok (some (grant, true))

ensure_cloud :
    ProcessingGrant
    → Result (Option ProcessingGrant)
    → Action (List ProcessingGrant) (Option (ProcessingGrant × Bool))
unfolding created
ensure_cloud grant (err e) file = (err e, file)
ensure_cloud grant (ok (some existing)) file = (ok (some (existing, false)), file)
ensure_cloud grant (ok none) file =
    let (answer, file') = save_grant grant (pos 0) file in (created grant answer, file')

abbrev pub is_cloud : DestinationKind → Bool
is_cloud cloud = true
is_cloud local = false

-- ensure_initial_processing_grant
unfoldable pub ensure_initial_processing_grant :
    ProcessingDestination → String → Action (List ProcessingGrant) (Option (ProcessingGrant × Bool))
unfolding ensure_cloud
ensure_initial_processing_grant destination changed_at file =
    if is_cloud destination.kind
    then ensure_cloud (full_grant destination changed_at)
        (get_grant file (destination_key destination)) file
    else (ok none, file)
