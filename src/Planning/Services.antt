-- ===== src/Planning/Services.antt =====
-- PlanService and GoalPlanningService of planning.py, without the fit of goals to a capacity. A
-- method is an action on the repository.
pub mod History
use reckoning.Prelude.{
  String, Bool, true, false, not, ◌&&◌, ◌||◌, Option, none, some, List, [], ◌∷◌, ℤ, pos, ◌+ℤ◌,
  ltb_ℤ, leb_ℤ, eq_ℤ, last?, is_empty, is_blank, strip, any, concat, str_eq, if◌then◌else◌,
}
use reckoning.Prelude.Result.{
  Result, ok, err, Error, value_error, key_error, raise_if, Action, ◌>>=◌, ◌>>◌,
}
use reckoning.Planning.Records.{
  DirectionStatus, GoalStatus, PlanHorizon, horizon, weekly, day, PlanStatus, draft, used,
  CheckInOutcome, DirectionVersion, GoalVersion, PlanVersion, PlanCheckIn, PlanningRepository,
  save_direction, direction_versions, save_goal, goal_versions, save_plan, plan_versions,
  save_plan_check_in,
}

-- _required of a text
unfoldable pub required_text : String → String → Result String
required_text value label =
    if is_blank value
    then err (value_error (concat label " cannot be empty."))
    else ok (strip value)

-- versions[-1], or KeyError
abbrev pub current_of {ℓ} : {A : Type ℓ} → List A → Result A
current_of versions = elim (last? versions) [
  | none ↦ err (key_error "Unknown id")
  | some version ↦ ok version
]

add_plan : Result PlanVersion → Action PlanningRepository PlanVersion
add_plan (err e) r = (err e, r)
add_plan (ok plan) r = (ok plan, save_plan plan r)

-- PURPOSES
abbrev pub purpose_of : PlanHorizon → String
purpose_of horizon = "Sequence goals and expose trade-offs over months or longer."
purpose_of weekly = "Choose a limited set of outcomes under known weekly capacity."
purpose_of day = "Allocate fixed commitments, meaningful work, buffers, and rest today."

unfoldable pub create_plan :
    String → PlanHorizon → String → List String → String → Action PlanningRepository PlanVersion
unfolding add_plan
create_plan plan_id span cadence outcomes effective_at = add_plan do
  raise_if (is_empty outcomes) (value_error "A plan must contain at least one intended outcome.")
  text ← required_text cadence "Cadence"
  ok (record {
    plan_id = plan_id;
    version = pos 1;
    horizon = span;
    purpose = purpose_of span;
    cadence = text;
    outcomes = outcomes;
    effective_at = effective_at;
    status = draft;
    supersedes_version = none;
  })

abbrev pub is_used : PlanStatus → Bool
is_used used = true
is_used draft = false

abbrev pub used_version : PlanVersion → String → PlanVersion
used_version current used_at = record current {
  version = current.version +ℤ pos 1;
  status = used;
  effective_at = used_at;
  supersedes_version = some current.version;
}

use_current : String → Result PlanVersion → Action PlanningRepository PlanVersion
use_current used_at (err e) r = (err e, r)
use_current used_at (ok current) r =
    if is_used current.status
    then (ok current, r)
    else (ok (used_version current used_at), save_plan (used_version current used_at) r)

unfoldable pub mark_used : String → String → Action PlanningRepository PlanVersion
unfolding use_current
mark_used plan_id used_at r = use_current used_at (current_of (plan_versions r plan_id)) r

-- `_required(cadence, …) if cadence else current.cadence`: an empty text counts as none
abbrev pub cadence_or : Option String → String → Result String
cadence_or none current = ok current
cadence_or (some text) current = if str_eq text "" then ok current else required_text text "Cadence"

revision_of : List String → String → Option String → PlanVersion → Result PlanVersion
revision_of outcomes effective_at cadence current = do
  raise_if (is_empty outcomes) (value_error "A plan revision must contain an intended outcome.")
  text ← cadence_or cadence current.cadence
  ok (record current {
    version = current.version +ℤ pos 1;
    status = draft;
    cadence = text;
    outcomes = outcomes;
    effective_at = effective_at;
    supersedes_version = some current.version;
  })

unfoldable pub revise_plan :
    String → List String → String → Option String → Action PlanningRepository PlanVersion
unfolding add_plan revision_of
revise_plan plan_id outcomes effective_at cadence r =
    add_plan (current_of (plan_versions r plan_id) >>= revision_of outcomes effective_at cadence) r

add_check_in : Result PlanCheckIn → Action PlanningRepository PlanCheckIn
add_check_in (err e) r = (err e, r)
add_check_in (ok check_in) r = (ok check_in, save_plan_check_in check_in r)

-- the fields of a check-in as they are given
unfoldable pub check_in : PlanCheckIn → Action PlanningRepository PlanCheckIn
unfolding add_check_in
check_in given r =
    add_check_in
      (do
        raise_if
            (not (
              any (λ (v : PlanVersion). eq_ℤ v.version given.plan_version)
                (plan_versions r given.plan_id)))
            (key_error "Unknown plan version")
        intended ← required_text given.intended_outcome "Intended outcome"
        actual ← required_text given.actual_outcome "Actual outcome"
        learning ← required_text given.estimate_learning "Estimate learning"
        effect ← required_text given.priority_effect "Priority effect"
        ok (record given {
          intended_outcome = intended;
          actual_outcome = actual;
          estimate_learning = learning;
          priority_effect = effect;
        }))
      r

add_direction : Result DirectionVersion → Action PlanningRepository DirectionVersion
add_direction (err e) r = (err e, r)
add_direction (ok direction) r = (ok direction, save_direction direction r)

unfoldable pub create_direction :
    String → String → String → Action PlanningRepository DirectionVersion
unfolding add_direction
create_direction direction_id statement created_at = add_direction do
  text ← required_text statement "Direction"
  ok (record {
    direction_id = direction_id;
    version = pos 1;
    status = DirectionStatus.exploring;
    statement = text;
    created_at = created_at;
    supersedes_version = none;
  })

unfoldable pub transition_direction :
    String → DirectionStatus → String → Action PlanningRepository DirectionVersion
unfolding add_direction
transition_direction direction_id status changed_at r =
    add_direction
      (do
        current ← current_of (direction_versions r direction_id)
        ok (record current {
          version = current.version +ℤ pos 1;
          status = status;
          created_at = changed_at;
          supersedes_version = some current.version;
        }))
      r

add_goal : Result GoalVersion → Action PlanningRepository GoalVersion
add_goal (err e) r = (err e, r)
add_goal (ok goal) r = (ok goal, save_goal goal r)

abbrev pub in_scale : ℤ → Bool
in_scale n = leb_ℤ (pos 1) n && leb_ℤ n (pos 5)

-- the fields of a goal as they are given; the first version is a proposal
unfoldable pub create_goal : GoalVersion → Action PlanningRepository GoalVersion
unfolding add_goal
create_goal given r =
    add_goal
      (do
        direction ← current_of (direction_versions r given.direction_id)
        raise_if (is_empty given.success_evidence)
            (value_error "A goal must define success evidence.")
        raise_if (not (in_scale given.importance) || not (in_scale given.difficulty))
            (value_error "Importance and difficulty must be between 1 and 5.")
        raise_if (leb_ℤ given.weekly_effort_hours (pos 0))
            (value_error "Weekly effort must be positive.")
        text ← required_text given.target "Goal target"
        ok (record given {
          version = pos 1;
          status = GoalStatus.proposed;
          target = text;
          supersedes_version = none;
        }))
      r

unfoldable pub transition_goal :
    String → GoalStatus → String → Action PlanningRepository GoalVersion
unfolding add_goal
transition_goal goal_id status changed_at r =
    add_goal
      (do
        current ← current_of (goal_versions r goal_id)
        ok (record current {
          version = current.version +ℤ pos 1;
          status = status;
          created_at = changed_at;
          supersedes_version = some current.version;
        }))
      r
