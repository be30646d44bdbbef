-- ===== src/Planning/Tests.antt =====
-- Plans at concrete inputs.
use reckoning.Prelude.{
  ◌≡◌, refl, String, Bool, false, Option, none, some, List, [], ◌∷◌, ◌++◌, ℤ, pos, ◌+ℤ◌, is_empty,
}
use reckoning.Prelude.Result.{ok}
use reckoning.Planning.Records.{
  PlanHorizon, PlanStatus, used, PlanVersion, PlanningRepository, plan_versions,
}
use reckoning.Planning.Services.{current_of, mark_used, revise_plan}
use reckoning.Planning.Services.History.{on_create, on_used, steps, Continues, steps-Continues}

abbrev plan : PlanVersion
plan = record {
  plan_id = "p";
  version = pos 1;
  horizon = PlanHorizon.day;
  purpose = "today";
  cadence = "daily";
  outcomes = "rest" ∷ [];
  effective_at = "monday";
  status = PlanStatus.draft;
  supersedes_version = none;
}

abbrev repository : PlanningRepository
repository = record { directions = []; goals = []; plans = plan ∷ []; check_ins = [] }

abbrev used_plan : PlanVersion
used_plan = record plan {
  version = pos 2;
  status = used;
  effective_at = "noon";
  supersedes_version = some (pos 1);
}

abbrev revised_plan : PlanVersion
revised_plan = record plan {
  version = pos 2;
  cadence = "hourly";
  outcomes = "work" ∷ [];
  effective_at = "noon";
  supersedes_version = some (pos 1);
}

plan_used : (mark_used "p" "noon" repository).0 ≡ ok used_plan
unfolding mark_used plan_versions ◌+ℤ◌
plan_used = refl

plan_revised :
    (revise_plan "p" ("work" ∷ []) "noon" (some " hourly ") repository).0 ≡ ok revised_plan
unfolding revise_plan plan_versions reckoning.Planning.Services.required_text
    reckoning.Prelude.is_blank ◌+ℤ◌ reckoning.Prelude.strip
plan_revised = refl

steps-Continues_example : Continues (plan_versions repository "p") (
    plan_versions
      (steps repository
        (on_used "p" "noon" ∷ on_create "p" PlanHorizon.day "daily" ("x" ∷ []) "now" ∷ []))
      "p")
steps-Continues_example =
    steps-Continues repository
      (on_used "p" "noon" ∷ on_create "p" PlanHorizon.day "daily" ("x" ∷ []) "now" ∷ []) "p"
