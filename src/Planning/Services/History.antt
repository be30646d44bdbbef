-- ===== src/Planning/Services/History.antt =====
-- The versions of plans over many calls.
use reckoning.Prelude.{
  ◌≡◌, refl, ap, sym, ◌∙◌, subst, String, false, Option, some, List, [], ◌∷◌, ◌++◌, pos, ◌+ℤ◌,
  arith, eq_iff, str_eq, keep, last?, is_empty, All, Bool-cases, inl, inr, if◌then◌else◌,
}
use reckoning.Prelude.Result.{Result, ok, err, Result-cases, ok-injective, ◌>>=◌}
use reckoning.Planning.Records.{
  PlanHorizon, used, PlanVersion, PlanCheckIn, PlanningRepository, save_plan, plan_versions,
  save_plan_check_in,
}
use reckoning.Planning.Services.{
  current_of, cadence_or, revision_of, add_plan, create_plan, use_current, used_version, is_used,
  mark_used, revise_plan, add_check_in, check_in,
}

pub data Call : Type 0 where
  on_create : String → PlanHorizon → String → List String → String → Call
  on_used : String → String → Call
  on_revise : String → List String → String → Option String → Call
  on_check_in : PlanCheckIn → Call

-- the repository after the call, whether it returned or raised
unfoldable pub step : PlanningRepository → Call → PlanningRepository
step r (on_create id span cadence outcomes at) = (create_plan id span cadence outcomes at r).1
step r (on_used id at) = (mark_used id at r).1
step r (on_revise id outcomes at cadence) = (revise_plan id outcomes at cadence r).1
step r (on_check_in given) = (check_in given r).1

unfoldable pub steps : PlanningRepository → List Call → PlanningRepository
steps r [] = r
steps r (c ∷ cs) = steps (step r c) cs

-- the second list is the first with some versions after it
abbrev pub Continues : List PlanVersion → List PlanVersion → Type 0
Continues before after = (added : List PlanVersion) × (after ≡ before ++ added)

append_nil : (xs : List PlanVersion) → xs ≡ xs ++ []
append_nil [] = refl
append_nil (x ∷ xs) = ap (λ ys. x ∷ ys) (append_nil xs)

append_assoc : (xs ys zs : List PlanVersion) → (xs ++ ys) ++ zs ≡ xs ++ (ys ++ zs)
append_assoc [] ys zs = refl
append_assoc (x ∷ xs) ys zs = ap (λ ws. x ∷ ws) (append_assoc xs ys zs)

same→Continues : (xs ys : List PlanVersion) → ys ≡ xs → Continues xs ys
same→Continues xs ys h = ([], h ∙ append_nil xs)

Continues-trans :
    (xs ys zs : List PlanVersion) → Continues xs ys → Continues ys zs → Continues xs zs
Continues-trans xs ys zs (a, h) (b, k) = (a ++ b, k ∙ ap (λ ws. ws ++ b) h ∙ append_assoc xs a b)

keep-snoc :
    (id : String) (plans : List PlanVersion) (p : PlanVersion)
    → keep (λ (v : PlanVersion). str_eq v.plan_id id) (plans ++ p ∷ [])
      ≡ keep (λ (v : PlanVersion). str_eq v.plan_id id) plans
        ++ (if str_eq p.plan_id id then p ∷ [] else [])
keep-snoc id [] p = refl
keep-snoc id (v ∷ plans) p = elim (Bool-cases (str_eq v.plan_id id)) [
  | inl e ↦ rw e (ap (λ ws. v ∷ ws) (keep-snoc id plans p))
  | inr e ↦ rw e (keep-snoc id plans p)
]

save_plan-Continues :
    (p : PlanVersion) (r : PlanningRepository) (id : String)
    → Continues (plan_versions r id) (plan_versions (save_plan p r) id)
unfolding plan_versions save_plan
save_plan-Continues p r id = (_, keep-snoc id r.plans p)

add_plan-Continues :
    (x : Result PlanVersion) (r : PlanningRepository) (id : String)
    → Continues (plan_versions r id) (plan_versions (add_plan x r).1 id)
unfolding add_plan
add_plan-Continues (err e) r id = same→Continues _ _ refl
add_plan-Continues (ok p) r id = save_plan-Continues p r id

use_current-Continues :
    (at : String) (x : Result PlanVersion) (r : PlanningRepository) (id : String)
    → Continues (plan_versions r id) (plan_versions (use_current at x r).1 id)
unfolding use_current
use_current-Continues at (err e) r id = same→Continues _ _ refl
use_current-Continues at (ok p) r id = elim (Bool-cases (is_used p.status)) [
  | inl e ↦ rw e (same→Continues _ _ refl)
  | inr e ↦ rw e (save_plan-Continues (used_version p at) r id)
]

add_check_in-Continues :
    (x : Result PlanCheckIn) (r : PlanningRepository) (id : String)
    → Continues (plan_versions r id) (plan_versions (add_check_in x r).1 id)
unfolding add_check_in save_plan_check_in plan_versions
add_check_in-Continues (err e) r id = same→Continues _ _ refl
add_check_in-Continues (ok c) r id = same→Continues _ _ refl

step-Continues :
    (r : PlanningRepository) (c : Call) (id : String)
    → Continues (plan_versions r id) (plan_versions (step r c) id)
unfolding step create_plan mark_used revise_plan check_in
step-Continues r (on_create plan span cadence outcomes at) id = add_plan-Continues _ r id
step-Continues r (on_used plan at) id = use_current-Continues at _ r id
step-Continues r (on_revise plan outcomes at cadence) id = add_plan-Continues _ r id
step-Continues r (on_check_in given) id = add_check_in-Continues _ r id

-- Whatever is planned, used, revised and checked in, the versions that a plan had stay as they
-- were and in their order: later ones only follow them.
pub steps-Continues :
    (r : PlanningRepository) (cs : List Call) (id : String)
    → Continues (plan_versions r id) (plan_versions (steps r cs) id)
unfolding steps
steps-Continues r [] id = same→Continues _ _ refl
steps-Continues r (c ∷ cs) id =
    Continues-trans (plan_versions r id) (plan_versions (step r c) id)
      (plan_versions (steps (step r c) cs) id) (step-Continues r c id)
      (steps-Continues (step r c) cs id)

last-snoc : (xs : List PlanVersion) (x : PlanVersion) → last? (xs ++ x ∷ []) ≡ some x
last-snoc [] x = refl
last-snoc (y ∷ []) x = refl
last-snoc (y ∷ z ∷ xs) x = last-snoc (z ∷ xs) x

kept_of_plan :
    (id : String) (plans : List PlanVersion)
    → All
        (λ (v : PlanVersion). v.plan_id ≡ id)
        (keep (λ (v : PlanVersion). str_eq v.plan_id id) plans)
kept_of_plan id [] = tt
kept_of_plan id (v ∷ plans) = elim (Bool-cases (str_eq v.plan_id id)) [
  | inl e ↦ rw e ((eq_iff v.plan_id id).0 e, kept_of_plan id plans)
  | inr e ↦ rw e (kept_of_plan id plans)
]

last-All :
    (P : PlanVersion → Type 0) (xs : List PlanVersion) (p : PlanVersion)
    → All P xs
    → last? xs ≡ some p
    → P p
last-All P [] p h e = absurd (cc)
last-All P (x ∷ []) p h e = let same : x ≡ p = ground arith in subst P same h.0
last-All P (x ∷ y ∷ xs) p h e = last-All P (y ∷ xs) p h.1 e

current_found :
    (versions : List PlanVersion) (p : PlanVersion)
    → current_of versions ≡ ok p
    → last? versions ≡ some p
current_found versions p h = ground arith

current-plan_id :
    (r : PlanningRepository) (id : String) (p : PlanVersion)
    → current_of (plan_versions r id) ≡ ok p
    → p.plan_id ≡ id
unfolding plan_versions
current-plan_id r id p h =
    last-All (λ v. v.plan_id ≡ id) (keep (λ (v : PlanVersion). str_eq v.plan_id id) r.plans) p
      (kept_of_plan id r.plans)
      (current_found (keep (λ (v : PlanVersion). str_eq v.plan_id id) r.plans) p h)

-- a version that is saved is the current one of its plan
saved-current :
    (r : PlanningRepository) (id : String) (p : PlanVersion)
    → p.plan_id ≡ id
    → current_of (plan_versions (save_plan p r) id) ≡ ok p
unfolding plan_versions save_plan
saved-current r id p h =
    let mine = keep (λ (v : PlanVersion). str_eq v.plan_id id) r.plans in
    let kept : keep (λ (v : PlanVersion). str_eq v.plan_id id) (r.plans ++ p ∷ [])
        ≡ mine ++ p ∷ [] =
      keep-snoc id r.plans p ∙ rw ((eq_iff p.plan_id id).1 h) refl in
    let last : last? (keep (λ (v : PlanVersion). str_eq v.plan_id id) (r.plans ++ p ∷ []))
        ≡ some p =
      ap last? kept ∙ last-snoc mine p in
    rw (current_of, last) refl

used_after :
    (id at later : String) (x : Result PlanVersion) (r : PlanningRepository) (p : PlanVersion)
    → x ≡ current_of (plan_versions r id)
    → (use_current at x r).0 ≡ ok p
    → (p.status ≡ used) × (current_of (plan_versions (use_current at x r).1 id) ≡ ok p)
unfolding use_current
used_after id at later (err e) r p found h = absurd (cc)
used_after id at later (ok current) r p found h = elim (Bool-cases (is_used current.status)) [
  | inl e ↦ let same : current ≡ p = ground arith in (ground arith, rw e (sym found ∙ ap ok same))
  | inr e ↦
      let same : used_version current at ≡ p = ground arith in
      (
        ap (λ (v : PlanVersion). v.status) (sym same),
        rw e (
            saved-current r id (used_version current at) (current-plan_id r id current (sym found))
            ∙ ap ok same),
      )
]

-- Marking a plan as used leaves its current version used, and is done once: marked again,
-- whenever, it returns the same version and changes nothing.
pub mark_used-again :
    (id at later : String) (r : PlanningRepository) (p : PlanVersion)
    → (mark_used id at r).0 ≡ ok p
    → let r' = (mark_used id at r).1 in
      (p.status ≡ used)
      × (current_of (plan_versions r' id) ≡ ok p)
      × (mark_used id later r' ≡ (ok p, r'))
unfolding mark_used use_current
mark_used-again id at later r p h =
    let (status, current) = used_after id at later (current_of (plan_versions r id)) r p refl h in
    (status, current, rw current (rw status refl))

add_plan-ok :
    (x : Result PlanVersion) (r : PlanningRepository) (p : PlanVersion)
    → (add_plan x r).0 ≡ ok p
    → (x ≡ ok p) × ((add_plan x r).1 ≡ save_plan p r)
unfolding add_plan
add_plan-ok (err e) r p h = absurd (cc)
add_plan-ok (ok q) r p h = (h, ap (λ v. save_plan v r) (ok-injective h))

next_ok :
    (x : Result PlanVersion) (f : PlanVersion → Result PlanVersion) (p : PlanVersion)
    → (x >>= f) ≡ ok p
    → (old : PlanVersion) × (x ≡ ok old) × (f old ≡ ok p)
next_ok (err e) f p h = absurd (cc)
next_ok (ok old) f p h = (old, refl, h)

revision_of-ok :
    (outcomes : List String) (at : String) (cadence : Option String) (old p : PlanVersion)
    → revision_of outcomes at cadence old ≡ ok p
    → (p.version ≡ old.version +ℤ pos 1)
      × (p.supersedes_version ≡ some old.version)
      × (p.outcomes ≡ outcomes)
      × (is_empty outcomes ≡ false)
      × (p.plan_id ≡ old.plan_id)
unfolding revision_of
revision_of-ok outcomes at cadence old p h = elim (Result-cases (cadence_or cadence old.cadence)) [
  | inl (text, given) ↦ (ground arith, ground arith, ground arith, ground arith, ground arith)
  | inr (e, missing) ↦ absurd (ground arith)
]

-- A revision that returns adds a draft to its plan: the next version after the one that was
-- current, which it supersedes, with at least one outcome; and it is now current.
pub revise_plan-current :
    (id : String) (outcomes : List String) (at : String) (cadence : Option String)
    (r : PlanningRepository) (p : PlanVersion)
    → (revise_plan id outcomes at cadence r).0 ≡ ok p
    → (old : PlanVersion) × (current_of (plan_versions r id) ≡ ok old)
      × (p.version ≡ old.version +ℤ pos 1)
      × (p.supersedes_version ≡ some old.version)
      × (p.outcomes ≡ outcomes)
      × (is_empty outcomes ≡ false)
      × (current_of (plan_versions (revise_plan id outcomes at cadence r).1 id) ≡ ok p)
unfolding revise_plan
revise_plan-current id outcomes at cadence r p h =
    let (built, added) = add_plan-ok _ r p h in
    let (old, found, made) =
      next_ok (current_of (plan_versions r id)) (revision_of outcomes at cadence) p built in
    let (version, supersedes, same, filled, own) = revision_of-ok outcomes at cadence old p made in
    (
      old,
      found,
      version,
      supersedes,
      same,
      filled,
      ap (λ x. current_of (plan_versions x id)) added
          ∙ saved-current r id p (own ∙ current-plan_id r id old found),
    )
