-- ===== src/Automation/Tests/Reports.antt =====
-- A watch and a briefing at concrete inputs.
use reckoning.Prelude.{
  ℕ, ◌≡◌, ◌⊎◌, refl, String, Bool, true, false, Option, none, some, List, [], ◌∷◌, ℤ, pos,
}
use reckoning.Prelude.Dict
use reckoning.Prelude.Result.{ok}
use reckoning.Automation.Watch.{
  WatchProposal, WatchFinding, WatchReceipt, success, Watches, run_watch, notices,
}
use reckoning.Automation.Briefing.{
  BriefingPolicy, BriefingFinding, BriefingReceipt, ranked, receipt_for,
}

abbrev watch : WatchProposal
watch = record {
  id = "w";
  source_request_id = "q";
  trigger = "hourly";
  source_scope = "news" ∷ [];
  notification_threshold = pos 3;
  budget = pos 9;
  delivery_policy = "chat";
  open_ended = true;
  confirmed = true;
}

abbrev item : String → ℕ → WatchFinding
item id relevance = record {
  id = id;
  source = "news";
  goal_or_decision_id = "g";
  summary = "s";
  credibility = pos 4;
  relevance = pos relevance;
  cost_units = pos 2;
  evidence = "e";
}

abbrev items : List WatchFinding
items = item "a" 5 ∷ item "b" 1 ∷ []

abbrev watches : Watches
watches = record { watches = ("w", watch) ∷ []; receipts = [] }

abbrev report : WatchReceipt
report = record {
  id = "r";
  watch_id = "w";
  checked_at = "now";
  notified = item "a" 5 ∷ [];
  suppressed = item "b" 1 ∷ [];
  total_cost_units = pos 4;
  check_in_proposed = true;
  status = success;
  no_material_change = false;
}

watch_ran : (run_watch "w" "r" "hourly" (pos 5) items "now" watches).0 ≡ ok report
unfolding run_watch Dict.get reckoning.Prelude.contains reckoning.Prelude.◌+ℤ◌
    reckoning.Prelude.is_blank reckoning.Automation.Watch.same_finding
watch_ran = refl

abbrev policy : BriefingPolicy
policy = record { max_items = pos 1; max_cost_units = pos 5; delivery_preference = "chat" }

abbrev finding : String → ℕ → BriefingFinding
finding id relevance = record {
  id = id;
  summary = "s";
  goal_relevance = pos relevance;
  evidence_quality = pos 1;
  novelty = pos 1;
  urgency = pos 1;
  cost_units = pos 2;
  attention_burden = pos 1;
  delivery = "chat";
}

abbrev findings : List BriefingFinding
findings = finding "a" 1 ∷ finding "b" 2 ∷ []

abbrev briefing : BriefingReceipt
briefing = receipt_for "r" "now" findings (finding "b" 2 ∷ [])
