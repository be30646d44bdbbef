-- ===== src/Automation/Briefing.antt =====
-- BriefingService of automation.py, without a file. Floats stand as in the watches.
pub mod Ranking
pub mod Delivery
use reckoning.Prelude.{
  ℕ, ◌+◌, String, Bool, true, false, not, ◌&&◌, ◌||◌, Option, none, some, List, [], ◌∷◌, ◌++◌, ℤ,
  pos, ◌+ℤ◌, ltb_ℤ, leb_ℤ, eq_ℤ, neg_ℤ, is_negative, str_eq, contains, any, keep, is_empty, length,
  map, if◌then◌else◌,
}
use reckoning.Prelude.Dict
use reckoning.Prelude.Dict.{Dict}
use reckoning.Prelude.Result.{Result, ok, err, Error, value_error, Action}

pub record BriefingPolicy : Type 0 where
  pub max_items : ℤ
  pub max_cost_units : ℤ
  pub delivery_preference : String

pub record BriefingFinding : Type 0 where
  pub id : String
  pub summary : String
  pub goal_relevance : ℤ
  pub evidence_quality : ℤ
  pub novelty : ℤ
  pub urgency : ℤ
  pub cost_units : ℤ
  pub attention_burden : ℤ
  pub delivery : String

pub record BriefingItem : Type 0 where
  pub finding : BriefingFinding
  pub explanation : String

-- the status of every receipt is "success", and `executed` is true
pub record BriefingReceipt : Type 0 where
  pub run_id : String
  pub delivered_at : String
  pub items : List BriefingItem
  pub suppressed_ids : List String
  pub total_cost_units : ℤ
  pub no_material_change : Bool

-- the sort key; False comes before True
unfoldable pub sort_key : BriefingPolicy → BriefingFinding → List ℤ
sort_key policy item =
    (if str_eq item.delivery policy.delivery_preference then pos 1 else pos 0)
    ∷ item.goal_relevance
    ∷ item.evidence_quality
    ∷ item.novelty
    ∷ item.urgency
    ∷ neg_ℤ item.attention_burden
    ∷ neg_ℤ item.cost_units
    ∷ []

-- a < b for tuples
unfoldable pub tuple_less : List ℤ → List ℤ → Bool
tuple_less xs [] = false
tuple_less [] (b ∷ ys) = true
tuple_less (a ∷ xs) (b ∷ ys) = let rest = tuple_less xs ys in if eq_ℤ a b then rest else ltb_ℤ a b

module _ (policy : BriefingPolicy) where
  -- before the first item that does not rank above it
  unfoldable pub insert : BriefingFinding → List BriefingFinding → List BriefingFinding
  insert x [] = x ∷ []
  insert x (y ∷ ys) =
      let rest = insert x ys in
      if tuple_less (sort_key policy x) (sort_key policy y) then y ∷ rest else x ∷ y ∷ ys

  -- sorted(findings, key=…, reverse=True), which keeps the order of equal keys
  unfoldable pub ranked : List BriefingFinding → List BriefingFinding
  unfolding insert
  ranked [] = []
  ranked (x ∷ xs) = insert x (ranked xs)

  -- the finding fits what is selected so far
  unfoldable pub fits : ℕ → ℤ → BriefingFinding → Bool
  fits count total x =
      not (leb_ℤ policy.max_items (pos count))
      && not (ltb_ℤ policy.max_cost_units (total +ℤ x.cost_units))

  -- the loop over the ranked findings, with the number selected and their cost so far
  unfoldable pub select : ℕ → ℤ → List BriefingFinding → List BriefingFinding
  unfolding fits
  select count total [] = []
  select count total (x ∷ xs) =
      let taken = fits count total x in
      let rest =
        select (if taken then count + 1 else count) (if taken then total +ℤ x.cost_units else total)
          xs in
      if taken then x ∷ rest else rest

-- total_cost after the loop
unfoldable pub selected_cost : ℤ → List BriefingFinding → ℤ
selected_cost total [] = total
selected_cost total (x ∷ xs) = selected_cost (total +ℤ x.cost_units) xs

abbrev pub briefing_item : BriefingFinding → BriefingItem
briefing_item x = record {
  finding = x;
  explanation =
      "Included for goal relevance, evidence, novelty, urgency, resource cost, attention burden, and delivery fit.";
}

abbrev pub receipt_for :
    String → String → List BriefingFinding → List BriefingFinding → BriefingReceipt
receipt_for run_id delivered_at findings selected = record {
  run_id = run_id;
  delivered_at = delivered_at;
  items = map briefing_item selected;
  suppressed_ids =
      map (λ (x : BriefingFinding). x.id)
        (keep
          (λ (x : BriefingFinding).
            not (contains (map (λ (y : BriefingFinding). y.id) selected) x.id))
          findings);
  total_cost_units = selected_cost (pos 0) selected;
  no_material_change = is_empty selected;
}

-- BriefingService.deliver on the receipts
unfoldable pub deliver :
    String
    → BriefingPolicy
    → List BriefingFinding
    → String
    → Action (Dict BriefingReceipt) BriefingReceipt
unfolding ranked select selected_cost
deliver run_id policy findings delivered_at receipts =
    if is_negative policy.max_items || is_negative policy.max_cost_units
    then (err (value_error "Briefing resource caps cannot be negative."), receipts)
    else let receipt =
        receipt_for run_id delivered_at findings
          (select policy 0 (pos 0) (ranked policy findings)) in
      (ok receipt, Dict.put receipt.run_id receipt receipts)
