-- ===== src/Automation/Claims/Holding.antt =====
-- A run that a worker holds: how it comes to hold it, and what its calls then do.
use reckoning.Prelude.{
  ℕ, ◌+◌, ◌≡◌, refl, String, not, ◌&&◌, Option, none, some, arith, Bool-cases, inl, inr, ◌⊎◌,
  eq_iff,
}
use reckoning.Prelude.Dict
use reckoning.Prelude.Result.{ok, err, Error, conflict}
use reckoning.Automation.Records.{RoutineRun, RoutineReceipt}
use reckoning.Automation.Repository.{Repository, RunClaim, active, unclaimed, finalized}
use reckoning.Automation.Claims.{
  get_receipt, save_run_progress, claim_run, claim_found, release_run, finalize_run, is_active,
  is_finalized, owned_by,
}

-- `owner` holds the run under the revision
abbrev pub Held : String → String → ℕ → Repository → Type 0
Held run_id owner revision r =
    Dict.get run_id r.claims
    ≡ some (record { owner = some owner; state = active; revision = revision })

pub save_run_progress-Held :
    (run : RoutineRun) (owner : String) (revision : ℕ) (r : Repository)
    → Held run.id owner revision r
    → ((save_run_progress run owner revision r).0 ≡ ok (revision + 1))
      × Held run.id owner (revision + 1) (save_run_progress run owner revision r).1
unfolding save_run_progress
save_run_progress-Held run owner revision r h = grind (arith, Dict.get-put, eq_iff)

claim_found_cases :
    (run_id owner : String) (o : Option RunClaim) (r : Repository)
    → ((e : Error) × (claim_found run_id owner o r ≡ (err e, r)))
      ⊎ ((revision : ℕ) × (claim_found run_id owner o r ≡ (
        ok revision,
        record r {
          claims =
              Dict.put run_id
                (record { owner = some owner; state = active; revision = revision })
                r.claims;
        },
      )))
unfolding claim_found
claim_found_cases run_id owner none r = inl (_, refl)
claim_found_cases run_id owner (some claim) r = elim (Bool-cases (is_finalized claim.state)) [
  | inl done ↦ inl (conflict "Routine run is already finalized.", rw done refl)
  | inr not_done ↦ elim (Bool-cases (is_active claim.state && not (owned_by claim.owner owner))) [
    | inl other ↦
        inl (conflict "Routine run is claimed by another worker.", rw not_done (rw other refl))
    | inr free ↦ inr (claim.revision + 1, rw not_done (rw free refl))
  ]
]

pub finalize_run-Held :
    (run : RoutineRun) (receipt : RoutineReceipt) (owner : String) (revision : ℕ) (r : Repository)
    → Held run.id owner revision r
    → ((finalize_run run receipt owner revision r).0 ≡ ok (revision + 1 + 1))
      × (get_receipt (finalize_run run receipt owner revision r).1 receipt.run_id ≡ some receipt)
      × (Dict.get run.id (finalize_run run receipt owner revision r).1.claims
          ≡ some (record { owner = some owner; state = finalized; revision = revision + 1 + 1 }))
unfolding finalize_run save_run_progress get_receipt
finalize_run-Held run receipt owner revision r h = grind (arith, Dict.get-put, eq_iff)

pub claim_run_cases :
    (run_id owner : String) (r : Repository)
    → ((e : Error) × (claim_run run_id owner r ≡ (err e, r)))
      ⊎ ((revision : ℕ) × (claim_run run_id owner r ≡ (
        ok revision,
        record r {
          claims =
              Dict.put run_id
                (record { owner = some owner; state = active; revision = revision })
                r.claims;
        },
      )))
unfolding claim_run
claim_run_cases run_id owner r = claim_found_cases run_id owner (Dict.get run_id r.claims) r

-- a run that is released is free for the next worker
pub release_run-free :
    (run_id owner : String) (revision : ℕ) (r : Repository)
    → Held run_id owner revision r
    → Dict.get run_id (release_run run_id owner r).claims
      ≡ some (record { owner = some owner; state = unclaimed; revision = revision + 1 })
unfolding release_run
release_run-free run_id owner revision r h = grind (arith, Dict.get-put, eq_iff)
