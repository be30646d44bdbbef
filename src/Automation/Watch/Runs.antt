-- ===== src/Automation/Watch/Runs.antt =====
-- What the receipt of a watch run holds.
use reckoning.Prelude.{
  ◌≡◌, ◌⊎◌, refl, ap, subst, String, true, false, not, some, List, [], ◌∷◌, ℤ, pos, ◌≤ℤ◌, ltb_ℤ,
  eq_ℤ_refl, arith, eq_iff, contains, contains→Among, Among, All, any, keep, Bool-cases,
  Option-cases, inl, inr,
}
use reckoning.Prelude.Dict
use reckoning.Prelude.Result.{Result, ok, err, ok-injective}
use reckoning.Automation.Watch.{
  WatchProposal, WatchFinding, WatchReceipt, success, blocked, Watches, same_finding, holds,
  is_notable, findings_cost, notices, watched, permitted, keep_receipt, run_watch,
}

same_finding_refl : (a : WatchFinding) → same_finding a a ≡ true
unfolding same_finding
same_finding_refl a = ground (
  arith,
  eq_iff a.id a.id,
  eq_iff a.source a.source,
  eq_iff a.goal_or_decision_id a.goal_or_decision_id,
  eq_iff a.summary a.summary,
  eq_iff a.evidence a.evidence,
  eq_ℤ_refl a.credibility,
  eq_ℤ_refl a.relevance,
  eq_ℤ_refl a.cost_units,
)

-- what a finding is judged by is the same in equal findings
same_finding_notable :
    (watch : WatchProposal) (a b : WatchFinding)
    → same_finding a b ≡ true
    → is_notable watch a ≡ true
    → is_notable watch b ≡ true
unfolding same_finding is_notable
same_finding_notable watch a b h n =
    let c = eq_iff a.goal_or_decision_id b.goal_or_decision_id in ground (arith, c)

holds-keep :
    (watch : WatchProposal) (x : WatchFinding) (findings : List WatchFinding)
    → Among x findings
    → is_notable watch x ≡ true
    → holds (keep (is_notable watch) findings) x ≡ true
holds-keep watch x [] m n = absurd m
holds-keep watch x (y ∷ ys) (inl e) n = ground (
  arith,
  subst (λ z. is_notable watch z ≡ true) e n,
  subst (λ z. same_finding z x ≡ true) e (same_finding_refl x),
)
holds-keep watch x (y ∷ ys) (inr m) n = ground (arith, holds-keep watch x ys m n)

holds-keep_not :
    (watch : WatchProposal) (x : WatchFinding) (findings : List WatchFinding)
    → is_notable watch x ≡ false
    → holds (keep (is_notable watch) findings) x ≡ false
holds-keep_not watch x [] n = refl
holds-keep_not watch x (y ∷ ys) n =
    ground (arith, holds-keep_not watch x ys n, same_finding_notable watch y x)

suppressed_as_judged :
    (watch : WatchProposal) (findings xs : List WatchFinding)
    → All (λ x. Among x findings) xs
    → keep (λ item. not (holds (keep (is_notable watch) findings) item)) xs
      ≡ keep (λ item. not (is_notable watch item)) xs
suppressed_as_judged watch findings [] h = refl
suppressed_as_judged watch findings (x ∷ xs) h = elim (Bool-cases (is_notable watch x)) [
  | inl n ↦
      ground (arith, holds-keep watch x findings h.0 n, suppressed_as_judged watch findings xs h.1)
  | inr n ↦
      ground (arith, holds-keep_not watch x findings n, suppressed_as_judged watch findings xs h.1)
]

All-Among :
    (findings xs : List WatchFinding)
    → ((x : WatchFinding) → Among x xs → Among x findings)
    → All (λ x. Among x findings) xs
All-Among findings [] h = tt
All-Among findings (x ∷ xs) h = (h x (inl refl), All-Among findings xs (λ y m. h y (inr m)))

findings_in_scope :
    (scope : List String) (findings : List WatchFinding)
    → any (λ (item : WatchFinding). not (contains scope item.source)) findings ≡ false
    → All (λ (item : WatchFinding). Among item.source scope) findings
findings_in_scope scope [] h = tt
findings_in_scope scope (x ∷ xs) h =
    (contains→Among scope x.source (ground arith), findings_in_scope scope xs (ground arith))

-- a run that was over budget by its quote, and looked at nothing
abbrev pub OverBudget : WatchProposal → ℤ → List WatchFinding → WatchReceipt → Type 0
OverBudget watch quoted findings receipt =
    (receipt.status ≡ blocked)
    × (ltb_ℤ watch.budget quoted ≡ true)
    × (receipt.notified ≡ [])
    × (receipt.suppressed ≡ findings)
    × (receipt.total_cost_units ≡ pos 0)

-- a run within its budget, with each finding in scope, notified where it is notable and
-- suppressed where not
abbrev pub WithinBudget : WatchProposal → ℤ → List WatchFinding → WatchReceipt → Type 0
WithinBudget watch quoted findings receipt =
    (receipt.status ≡ success)
    × All (λ (item : WatchFinding). Among item.source watch.source_scope) findings
    × (receipt.notified ≡ keep (is_notable watch) findings)
    × (receipt.suppressed ≡ keep (λ item. not (is_notable watch item)) findings)
    × (receipt.total_cost_units ≡ findings_cost findings)
    × (findings_cost findings ≤ℤ quoted)
    × (quoted ≤ℤ watch.budget)

notices-WithinBudget :
    (watch : WatchProposal) (run_id watch_id at : String) (quoted : ℤ)
    (findings : List WatchFinding)
    → any (λ (item : WatchFinding). not (contains watch.source_scope item.source)) findings ≡ false
    → findings_cost findings ≤ℤ quoted
    → quoted ≤ℤ watch.budget
    → WithinBudget watch quoted findings
        (notices watch run_id watch_id at findings (keep (is_notable watch) findings))
notices-WithinBudget watch run_id watch_id at quoted findings scope quote budget = (
  refl,
  findings_in_scope watch.source_scope findings scope,
  refl,
  suppressed_as_judged watch findings findings (All-Among findings findings (λ x m. m)),
  refl,
  quote,
  budget,
)

watched_cases :
    (watch : WatchProposal) (watch_id run_id at : String) (quoted : ℤ)
    (findings : List WatchFinding) (receipt : WatchReceipt)
    → watched watch watch_id run_id quoted findings at ≡ ok receipt
    → OverBudget watch quoted findings receipt ⊎ WithinBudget watch quoted findings receipt
unfolding watched
watched_cases watch watch_id run_id at quoted findings receipt e =
    elim (Bool-cases (ltb_ℤ watch.budget quoted)) [
      | inl over ↦ inl (ground arith)
      | inr within ↦
          let scope : any (λ (item : WatchFinding). not (contains watch.source_scope item.source))
                findings
              ≡ false =
            ground arith in
          let quote : findings_cost findings ≤ℤ quoted = ground arith in
          let sorted =
            notices-WithinBudget watch run_id watch_id at quoted findings scope quote
              (ground arith) in
          let same : notices watch run_id watch_id at findings (keep (is_notable watch) findings)
              ≡ receipt =
            ground arith in
          inr (subst (λ r. WithinBudget watch quoted findings r) same sorted)
    ]

permitted_cases :
    (watch : WatchProposal) (watch_id run_id by at : String) (quoted : ℤ)
    (findings : List WatchFinding) (receipt : WatchReceipt)
    → permitted watch watch_id run_id by quoted findings at ≡ ok receipt
    → (watch.confirmed ≡ true)
      × (by ≡ watch.trigger)
      × (watched watch watch_id run_id quoted findings at ≡ ok receipt)
unfolding permitted
permitted_cases watch watch_id run_id by at quoted findings receipt e =
    (ground arith, ground (arith, eq_iff by watch.trigger), ground arith)

kept :
    (x : Result WatchReceipt) (s : Watches) (receipt : WatchReceipt)
    → (keep_receipt x s).0 ≡ ok receipt
    → (x ≡ ok receipt)
      × ((keep_receipt x s).1 ≡ record s { receipts = Dict.put receipt.id receipt s.receipts })
unfolding keep_receipt
kept (ok r) s receipt e = (
  e,
  ap (λ (x : WatchReceipt). record s { receipts = Dict.put x.id x s.receipts }) (ok-injective e),
)
kept (err r) s receipt e = absurd (cc)

-- A watch run that returns ran a confirmed watch by its own trigger. Either the quote was over
-- the watch's budget: then it looked at nothing and cost nothing. Or every finding comes from a
-- source of the watch, the findings that clear the threshold and name a goal are notified and all
-- others suppressed, in their order, and their cost is within the quote and the quote within the
-- budget: there is no third way. The receipt is saved under its id, and nothing else changes.
pub run_watch_cases :
    (watch_id run_id by at : String) (quoted : ℤ) (findings : List WatchFinding) (s : Watches)
    (receipt : WatchReceipt)
    → (run_watch watch_id run_id by quoted findings at s).0 ≡ ok receipt
    → (watch : WatchProposal) × (Dict.get watch_id s.watches ≡ some watch)
      × (watch.confirmed ≡ true)
      × (by ≡ watch.trigger)
      × (OverBudget watch quoted findings receipt ⊎ WithinBudget watch quoted findings receipt)
      × ((run_watch watch_id run_id by quoted findings at s).1
          ≡ record s { receipts = Dict.put receipt.id receipt s.receipts })
unfolding run_watch
run_watch_cases watch_id run_id by at quoted findings s receipt e =
    let (passed, saved) = kept _ s receipt e in
    elim (Option-cases (Dict.get watch_id s.watches)) [
      | inl absent ↦ absurd (ground arith)
      | inr (watch, there) ↦
          let (confirmed, triggered, ran) =
            permitted_cases watch watch_id run_id by at quoted findings receipt (ground arith) in
          (
            watch,
            there,
            confirmed,
            triggered,
            watched_cases watch watch_id run_id at quoted findings receipt ran,
            saved,
          )
    ]
