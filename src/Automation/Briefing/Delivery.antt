-- ===== src/Automation/Briefing/Delivery.antt =====
-- What a briefing delivers, within its caps and no less than it can.
use reckoning.Prelude.{ℕ, ◌≡◌, ◌⊎◌, true, List, ℤ, pos, ◌+ℤ◌, ◌≤ℤ◌, ltb_ℤ, length, All, Among}
use reckoning.Prelude.Dict
use reckoning.Prelude.Dict.{Dict}
use reckoning.Automation.Briefing.{BriefingPolicy, BriefingFinding, BriefingReceipt, briefing_item}

module _ (policy : BriefingPolicy) where
  -- a finding that does not fit, where the selection has that number and that cost
  abbrev pub NoRoom : ℕ → ℤ → BriefingFinding → Type 0
  NoRoom count total x =
      (policy.max_items ≤ℤ pos count) ⊎ (ltb_ℤ policy.max_cost_units (total +ℤ x.cost_units) ≡ true)

  -- within the caps, and with no room left
  pub record IsFull (findings : List BriefingFinding) (receipt : BriefingReceipt) : Type 0 where
    pub items : pos (length receipt.items) ≤ℤ policy.max_items
    pub cost : receipt.total_cost_units ≤ℤ policy.max_cost_units
    pub no_room :
        All (λ (x : BriefingFinding). pos 0 ≤ℤ x.cost_units) findings
        → (a : BriefingFinding) → Among a findings
        → Among (briefing_item a) receipt.items
          ⊎ NoRoom (length receipt.items) receipt.total_cost_units a
