-- ===== src/Processing/Grants/Initial.antt =====
-- The grant that a cloud destination starts with.
use reckoning.Prelude.{
  ◌≡◌, ◌≢◌, refl, ap, sym, ◌∙◌, String, Bool, true, false, Option, none, some, List, pos, arith,
  Bool-cases, inl, inr,
}
use reckoning.Prelude.Result.{Result, ok, err, Result-cases, ok-injective}
use reckoning.Processing.Grants.{
  ProcessingDestination, local, destination_key, ProcessingGrant, get_grant, save_grant, full_grant,
  is_cloud, ensure_cloud, ensure_initial_processing_grant, created,
}
use reckoning.Processing.Grants.Saved.{IsStorable, save_grant-saves}

-- the three ways in which the call returns
pub data Ensured (destination : ProcessingDestination) (at : String) (file : List ProcessingGrant)
    (answer : Option (ProcessingGrant × Bool)) (file' : List ProcessingGrant) : Type 0 where
  not_needed :
      destination.kind ≡ local
      → answer ≡ none
      → file' ≡ file
      → Ensured destination at file answer file'
  was_there :
      (existing : ProcessingGrant)
      → get_grant file (destination_key destination) ≡ ok (some existing)
      → answer ≡ some (existing, false)
      → file' ≡ file
      → Ensured destination at file answer file'
  made :
      get_grant file (destination_key destination) ≡ ok none
      → answer ≡ some (full_grant destination at, true)
      → get_grant file' (destination_key destination) ≡ ok (some (full_grant destination at))
      → ((id : String) → destination_key destination ≢ id → get_grant file' id ≡ get_grant file id)
      → Ensured destination at file answer file'

ensure_cloud-Ensured :
    (destination : ProcessingDestination) (at : String) (file : List ProcessingGrant)
    (answer : Option (ProcessingGrant × Bool)) (found : Result (Option ProcessingGrant))
    → IsStorable (full_grant destination at)
    → get_grant file (destination_key destination) ≡ found
    → (ensure_cloud (full_grant destination at) found file).0 ≡ ok answer
    → Ensured destination at file answer (ensure_cloud (full_grant destination at) found file).1
unfolding ensure_cloud created
ensure_cloud-Ensured destination at file answer (err e) s f h = absurd (cc)
ensure_cloud-Ensured destination at file answer (ok (some existing)) s f h =
    was_there existing f (sym (ok-injective h)) refl
ensure_cloud-Ensured destination at file answer (ok none) s f h =
    elim (Result-cases (save_grant (full_grant destination at) (pos 0) file).0) [
      | inl (done, saved) ↦
          let (next, stored, own, rest) =
            save_grant-saves (full_grant destination at) (pos 0) file s saved in
          made f (sym (ok-injective (ap (created (full_grant destination at)) (sym saved) ∙ h))) own
            rest
      | inr (e, failed) ↦ absurd (ground arith)
    ]

-- A call that returns never widens what was granted. A local destination needs no grant; a
-- grant that is there is returned, and the file stays; where there is none, the destination gets
-- the full one, and every other destination keeps its own. The new grant can be read back.
pub ensure_initial-Ensured :
    (destination : ProcessingDestination) (at : String) (file : List ProcessingGrant)
    (answer : Option (ProcessingGrant × Bool))
    → IsStorable (full_grant destination at)
    → (ensure_initial_processing_grant destination at file).0 ≡ ok answer
    → Ensured destination at file answer (ensure_initial_processing_grant destination at file).1
unfolding ensure_initial_processing_grant
ensure_initial-Ensured destination at file answer s h =
    elim (Bool-cases (is_cloud destination.kind)) [
      | inl e ↦ rw e (
          ensure_cloud-Ensured destination at file answer
            (get_grant file (destination_key destination)) s refl (rw e at h))
      | inr e ↦ rw e (not_needed (ground arith) (ground arith) refl)
    ]
