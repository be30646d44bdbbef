-- ===== src/Automation/Watch.antt =====
-- WatchService of automation.py, without a file. A float is a whole multiple of 2 ^ -1074, the
-- finest binary64 step, and stands as that whole number; infinities and not-a-number are left
-- out. A missing key raises KeyError.
pub mod Runs
use reckoning.Prelude.{
  ℕ, ◌^◌, String, Bool, true, false, not, ◌&&◌, ◌||◌, Option, none, some, List, [], ◌∷◌, ℤ, pos,
  ◌+ℤ◌, ltb_ℤ, leb_ℤ, eq_ℤ, is_negative, str_eq, is_blank, contains, any, keep, is_empty,
  if◌then◌else◌,
}
use reckoning.Prelude.Dict
use reckoning.Prelude.Dict.{Dict}
use reckoning.Prelude.Result.{
  Result, ok, err, Error, value_error, permission_error, runtime_error, raise_if, Action, ◌>>=◌,
  ◌>>◌,
}
use reckoning.Automation.Repository.{found}

-- the float 1
abbrev pub one : ℤ
one = pos (2 ^ 1074)

pub record WatchProposal : Type 0 where
  pub id : String
  pub source_request_id : String
  pub trigger : String
  pub source_scope : List String
  pub notification_threshold : ℤ
  pub budget : ℤ
  pub delivery_policy : String
  pub open_ended : Bool
  pub confirmed : Bool

pub record WatchFinding : Type 0 where
  pub id : String
  pub source : String
  pub goal_or_decision_id : String
  pub summary : String
  pub credibility : ℤ
  pub relevance : ℤ
  pub cost_units : ℤ
  pub evidence : String

pub data WatchStatus : Type 0 where
  success blocked : WatchStatus

pub record WatchReceipt : Type 0 where
  pub id : String
  pub watch_id : String
  pub checked_at : String
  pub notified : List WatchFinding
  pub suppressed : List WatchFinding
  pub total_cost_units : ℤ
  pub check_in_proposed : Bool
  pub status : WatchStatus
  pub no_material_change : Bool

pub record Watches : Type 0 where
  pub watches : Dict WatchProposal
  pub receipts : Dict WatchReceipt

keep_watch : Result WatchProposal → Action Watches WatchProposal
keep_watch (err e) s = (err e, s)
keep_watch (ok p) s = (ok p, record s { watches = Dict.put p.id p s.watches })

unfoldable pub propose_watch :
    String → String → String → List String → ℤ → ℤ → String → Bool → Action Watches WatchProposal
unfolding keep_watch
propose_watch watch_id source_request_id trigger source_scope threshold budget delivery_policy
      open_ended =
    keep_watch do
      raise_if (not (leb_ℤ (pos 0) threshold && leb_ℤ threshold one))
          (value_error "The notification threshold must be between 0 and 1.")
      raise_if (is_negative budget) (value_error "A watch budget cannot be negative.")
      ok (record {
        id = watch_id;
        source_request_id = source_request_id;
        trigger = trigger;
        source_scope = source_scope;
        notification_threshold = threshold;
        budget = budget;
        delivery_policy = delivery_policy;
        open_ended = open_ended;
        confirmed = false;
      })

confirm_watch_found : String → Result WatchProposal → Action Watches WatchProposal
confirm_watch_found watch_id (err e) s = (err e, s)
confirm_watch_found watch_id (ok p) s =
    let confirmed = record p { confirmed = true } in
    (ok confirmed, record s { watches = Dict.put watch_id confirmed s.watches })

unfoldable pub confirm_watch : String → Action Watches WatchProposal
unfolding confirm_watch_found
confirm_watch watch_id s =
    confirm_watch_found watch_id (found "watch" (Dict.get watch_id s.watches)) s

-- the dataclass's ==
unfoldable pub same_finding : WatchFinding → WatchFinding → Bool
same_finding a b =
    str_eq a.id b.id
    && str_eq a.source b.source
    && str_eq a.goal_or_decision_id b.goal_or_decision_id
    && str_eq a.summary b.summary
    && eq_ℤ a.credibility b.credibility
    && eq_ℤ a.relevance b.relevance
    && eq_ℤ a.cost_units b.cost_units
    && str_eq a.evidence b.evidence

-- item in items
abbrev pub holds : List WatchFinding → WatchFinding → Bool
holds items item = any (λ other. same_finding other item) items

unfoldable pub is_notable : WatchProposal → WatchFinding → Bool
is_notable watch item =
    leb_ℤ watch.notification_threshold item.credibility
    && leb_ℤ watch.notification_threshold item.relevance
    && not (is_blank item.goal_or_decision_id)

-- sum(item.cost_units for item in findings)
unfoldable pub findings_cost : List WatchFinding → ℤ
findings_cost [] = pos 0
findings_cost (x ∷ xs) = x.cost_units +ℤ findings_cost xs

-- the receipt of a run that is over its budget
abbrev pub over_budget : String → String → String → List WatchFinding → ℤ → WatchReceipt
over_budget run_id watch_id checked_at findings total = record {
  id = run_id;
  watch_id = watch_id;
  checked_at = checked_at;
  notified = [];
  suppressed = findings;
  total_cost_units = total;
  check_in_proposed = false;
  status = blocked;
  no_material_change = true;
}

abbrev pub notices :
    WatchProposal → String → String → String → List WatchFinding → List WatchFinding → WatchReceipt
notices watch run_id watch_id checked_at findings notified = record {
  id = run_id;
  watch_id = watch_id;
  checked_at = checked_at;
  notified = notified;
  suppressed = keep (λ item. not (holds notified item)) findings;
  total_cost_units = findings_cost findings;
  check_in_proposed = not (is_empty notified) && watch.open_ended;
  status = success;
  no_material_change = is_empty notified;
}

-- the receipt of a run that the watch allows
watched : WatchProposal → String → String → ℤ → List WatchFinding → String → Result WatchReceipt
unfolding findings_cost is_notable
watched watch watch_id run_id quoted findings checked_at =
    if ltb_ℤ watch.budget quoted
    then ok (over_budget run_id watch_id checked_at findings (pos 0))
    else if any (λ (item : WatchFinding). not (contains watch.source_scope item.source)) findings
    then err (permission_error "A finding falls outside the watch source scope.")
    else if ltb_ℤ quoted (findings_cost findings)
    then err (runtime_error "Watch source exceeded its preflight cost quote.")
    else if ltb_ℤ watch.budget (findings_cost findings)
    then ok (over_budget run_id watch_id checked_at findings (findings_cost findings))
    else ok (notices watch run_id watch_id checked_at findings (keep (is_notable watch) findings))

permitted :
    WatchProposal → String → String → String → ℤ → List WatchFinding → String → Result WatchReceipt
unfolding watched
permitted watch watch_id run_id triggered_by quoted findings checked_at = do
  raise_if (not watch.confirmed) (permission_error "A watch must be confirmed before it can run.")
  raise_if (not (str_eq triggered_by watch.trigger))
      (permission_error "The watch run does not match its confirmed trigger.")
  raise_if (is_negative quoted) (value_error "A watch cost quote cannot be negative.")
  watched watch watch_id run_id quoted findings checked_at

keep_receipt : Result WatchReceipt → Action Watches WatchReceipt
keep_receipt (err e) s = (err e, s)
keep_receipt (ok receipt) s =
    (ok receipt, record s { receipts = Dict.put receipt.id receipt s.receipts })

-- WatchService.run
unfoldable pub run_watch :
    String → String → String → ℤ → List WatchFinding → String → Action Watches WatchReceipt
unfolding permitted keep_receipt
run_watch watch_id run_id triggered_by quoted findings checked_at s =
    keep_receipt
      (do
        watch ← found "watch" (Dict.get watch_id s.watches)
        permitted watch watch_id run_id triggered_by quoted findings checked_at)
      s
