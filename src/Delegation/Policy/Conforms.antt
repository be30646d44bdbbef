-- ===== src/Delegation/Policy/Conforms.antt =====
-- What a request without violations is, apart from how the coordinator finds them.
use reckoning.Prelude.{
  ◌≡◌, ◌↔◌, refl, String, Bool, true, false, Option, none, some, List, [], ◌∷◌, ℤ, ltb_ℤ, ◌≤ℤ◌,
  arith, not, All, Among, contains→Among, Among→contains, distinct, difference, sorted,
  sorted-is_empty, is_empty, is_blank,
}
use reckoning.Prelude.Sets.{Within, All-distinct, difference-is_empty_iff}
use reckoning.Delegation.Records.{
  ExecutionMode, direct, approval_before_delegation, budget_bounded_delegation, DelegationRequest,
  DelegationPolicy,
}
use reckoning.Delegation.Policy.{request_violations, clauses, notes, needs_approval, is_direct}

-- the approval that the policy's mode asks for
abbrev pub IsApproved : ExecutionMode → Option String → Type 0
IsApproved direct approval = ⊥
IsApproved budget_bounded_delegation approval = Unit
IsApproved approval_before_delegation none = ⊥
IsApproved approval_before_delegation (some text) = is_blank text ≡ false

pub record Conforms (r : DelegationRequest) (p : DelegationPolicy) : Type 0 where
  pub approved : IsApproved p.mode r.approval_id
  pub categories : Within r.context_categories p.allowed_context_categories
  pub tools : Within r.tools p.allowed_tools
  pub provider : Among r.provider p.allowed_providers
  pub model_calls : r.model_call_limit ≤ℤ p.max_model_calls
  pub cost : r.cost_limit ≤ℤ p.max_cost
  pub retries : r.retry_limit ≤ℤ p.max_retries
  pub tool_calls : r.tool_call_limit ≤ℤ p.max_tool_calls

-- the denied items of a clause are none exactly where the request's items are all allowed
denied_iff :
    (xs ys : List String) → (is_empty (sorted (difference (distinct xs) ys)) ≡ true) ↔ Within xs ys
denied_iff xs ys = (
  λ h.
      (All-distinct _ xs).0
        ((difference-is_empty_iff (distinct xs) ys).0 (rw sorted-is_empty at h)),
  λ h. rw sorted-is_empty ((difference-is_empty_iff (distinct xs) ys).1 ((All-distinct _ xs).1 h)),
)

IsApproved-iff :
    (mode : ExecutionMode) (approval : Option String)
    → ((is_direct mode ≡ false) × (needs_approval mode approval ≡ false)) ↔ IsApproved mode approval
IsApproved-iff direct a = ground arith
IsApproved-iff budget_bounded_delegation a = ground arith
IsApproved-iff approval_before_delegation none = ground arith
IsApproved-iff approval_before_delegation (some t) = ground arith

notes_iff : (clauses : List (Bool × String)) → (notes clauses ≡ []) ↔ All (λ c. c.0 ≡ false) clauses
notes_iff [] = (λ h. tt, λ h. refl)
notes_iff ((true, text) ∷ clauses) = (λ h. absurd (cc), λ h. absurd (cc (h.0)))
notes_iff ((false, text) ∷ clauses) =
    (λ h. (refl, (notes_iff clauses).0 h), λ h. (notes_iff clauses).1 h.1)

ltb_false : (a b : ℤ) → ltb_ℤ a b ≡ false → b ≤ℤ a
ltb_false a b h = ground arith

not-false : (b : Bool) → not b ≡ false → b ≡ true
not-false b h = ground arith

-- A request has no violations exactly where it conforms to the policy: it is approved as the mode
-- asks, its categories, tools and provider are allowed, and its four limits are within the
-- policy's.
pub request_violations_iff :
    (r : DelegationRequest) (p : DelegationPolicy) → (request_violations r p ≡ []) ↔ Conforms r p
unfolding request_violations
request_violations_iff r p = (
  λ h.
      let a = (notes_iff (clauses r p)).0 h in
      let b = a.1.1.1.1.1 in
      record {
        approved = (IsApproved-iff p.mode r.approval_id).0 (a.0, a.1.0);
        categories =
            (denied_iff r.context_categories p.allowed_context_categories).0 (not-false _ a.1.1.0);
        tools = (denied_iff r.tools p.allowed_tools).0 (not-false _ a.1.1.1.0);
        provider = contains→Among p.allowed_providers r.provider (not-false _ a.1.1.1.1.0);
        model_calls = ltb_false p.max_model_calls r.model_call_limit b.0;
        cost = ltb_false p.max_cost r.cost_limit b.1.0;
        retries = ltb_false p.max_retries r.retry_limit b.1.1.0;
        tool_calls = ltb_false p.max_tool_calls r.tool_call_limit b.1.1.1.0;
      },
  λ c.
      let a = (IsApproved-iff p.mode r.approval_id).1 c.approved in
      (notes_iff (clauses r p)).1 (
        a.0,
        (
          a.1,
          (
            rw ((denied_iff r.context_categories p.allowed_context_categories).1 c.categories),
            (
              rw ((denied_iff r.tools p.allowed_tools).1 c.tools),
              (
                rw (Among→contains p.allowed_providers r.provider c.provider),
                (ground arith, (ground arith, (ground arith, (ground arith, tt)))),
              ),
            ),
          ),
        ),
      ),
)
