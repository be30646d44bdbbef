-- ===== src/Planning/Records.antt =====
-- planning.py: the versions of directions, goals and plans, and InMemoryPlanningRepository. A
-- float is a whole multiple of 2 ^ -1074, as in the watches, an instant is a text, and the
-- planned fit of goals to a capacity is left out.
use reckoning.Prelude.{String, Option, List, ◌∷◌, [], ◌++◌, ℤ, str_eq, keep}

pub data DirectionStatus : Type 0 where
  exploring active paused completed : DirectionStatus

pub data GoalStatus : Type 0 where
  proposed active paused completed abandoned : GoalStatus

pub data PlanHorizon : Type 0 where
  horizon weekly day : PlanHorizon

pub data PlanStatus : Type 0 where
  draft used : PlanStatus

pub data CheckInOutcome : Type 0 where
  completed partial missed : CheckInOutcome

pub record DirectionVersion : Type 0 where
  pub direction_id : String
  pub version : ℤ
  pub status : DirectionStatus
  pub statement : String
  pub created_at : String
  pub supersedes_version : Option ℤ

pub record GoalVersion : Type 0 where
  pub goal_id : String
  pub version : ℤ
  pub status : GoalStatus
  pub direction_id : String
  pub target : String
  pub success_evidence : List String
  pub constraints : List String
  pub dependencies : List String
  pub deadline : Option String
  pub importance : ℤ
  pub difficulty : ℤ
  pub weekly_effort_hours : ℤ
  pub created_at : String
  pub supersedes_version : Option ℤ

pub record PlanVersion : Type 0 where
  pub plan_id : String
  pub version : ℤ
  pub horizon : PlanHorizon
  pub purpose : String
  pub cadence : String
  pub outcomes : List String
  pub effective_at : String
  pub status : PlanStatus
  pub supersedes_version : Option ℤ

-- `character_judgment` is None and `automatically_rolled_over` is False in each
pub record PlanCheckIn : Type 0 where
  pub id : String
  pub plan_id : String
  pub plan_version : ℤ
  pub recorded_at : String
  pub intended_outcome : String
  pub actual_outcome : String
  pub outcome : CheckInOutcome
  pub estimate_learning : String
  pub blockers : List String
  pub priority_effect : String

pub record PlanningRepository : Type 0 where
  pub directions : List DirectionVersion
  pub goals : List GoalVersion
  pub plans : List PlanVersion
  pub check_ins : List PlanCheckIn

unfoldable pub save_direction : DirectionVersion → PlanningRepository → PlanningRepository
save_direction direction r = record r { directions = r.directions ++ direction ∷ [] }

unfoldable pub direction_versions : PlanningRepository → String → List DirectionVersion
direction_versions r id = keep (λ (v : DirectionVersion). str_eq v.direction_id id) r.directions

unfoldable pub save_goal : GoalVersion → PlanningRepository → PlanningRepository
save_goal goal r = record r { goals = r.goals ++ goal ∷ [] }

unfoldable pub goal_versions : PlanningRepository → String → List GoalVersion
goal_versions r id = keep (λ (v : GoalVersion). str_eq v.goal_id id) r.goals

unfoldable pub save_plan : PlanVersion → PlanningRepository → PlanningRepository
save_plan plan r = record r { plans = r.plans ++ plan ∷ [] }

unfoldable pub plan_versions : PlanningRepository → String → List PlanVersion
plan_versions r id = keep (λ (v : PlanVersion). str_eq v.plan_id id) r.plans

unfoldable pub save_plan_check_in : PlanCheckIn → PlanningRepository → PlanningRepository
save_plan_check_in check_in r = record r { check_ins = r.check_ins ++ check_in ∷ [] }

unfoldable pub plan_check_ins : PlanningRepository → String → List PlanCheckIn
plan_check_ins r id = keep (λ (c : PlanCheckIn). str_eq c.plan_id id) r.check_ins
