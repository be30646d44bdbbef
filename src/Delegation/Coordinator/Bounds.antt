-- ===== src/Delegation/Coordinator/Bounds.antt =====
-- What a delegation may spend: the counters of its receipt against the request and the policy.
use reckoning.Prelude.{
  ℕ, ◌≤◌, ◌≡◌, refl, ◌∙◌, ap, sym, String, true, false, List, [], ◌∷◌, arith, pos, ◌≤ℤ◌, ≤ℤ-trans,
  All, All-at, Among, keep, is_empty, sorted-is_empty, length, Bool-cases, inl, inr,
}
use reckoning.Prelude.Result.{ok, ok-injective}
use reckoning.Prelude.Distinct.{Distinct}
use reckoning.Prelude.Sets.{Within}
use reckoning.Delegation.OwnerTools.{is_owner_tool}
use reckoning.Delegation.Records.{
  DelegationPolicy, DelegationRequest, DelegatedContext, DelegationOutcome, DelegationReceipt,
  new_request, new_policy,
}
use reckoning.Delegation.Policy.{request_violations}
use reckoning.Delegation.Policy.Conforms.{Conforms, request_violations_iff}
use reckoning.Delegation.Collaborators.{Collaborators, authorize}
use reckoning.Delegation.Runtime.{ModelGateway, ToolGateway}
use reckoning.Delegation.Runtime.Bounds.{HasLimits, worker-IsBounded}
use reckoning.Delegation.Coordinator.{
  Host, Attempt, blocked_attempt, task_for, execute, attempt, carry_out, delegate,
}
use reckoning.Delegation.Coordinator.Parts.{attempt_rule, delegate_ok}
use reckoning.Delegation.Coordinator.Accepted.{authorize-none}

new_request-HasLimits :
    (r q : DelegationRequest) (context : List DelegatedContext)
    → new_request r ≡ ok q
    → HasLimits (task_for r context)
unfolding new_request
new_request-HasLimits r q context h = ground arith

none_kept :
    (xs : List String)
    → is_empty (keep is_owner_tool xs) ≡ true
    → All (λ t. is_owner_tool t ≡ false) xs
none_kept [] h = tt
none_kept (x ∷ xs) h = elim (Bool-cases (is_owner_tool x)) [
  | inl e ↦ absurd (ground arith)
  | inr e ↦ (e, none_kept xs (ground arith))
]

-- a policy that has passed its checks allows no owner tool
pub new_policy-no_owner_tool :
    (p q : DelegationPolicy)
    → new_policy p ≡ ok q
    → All (λ t. is_owner_tool t ≡ false) p.allowed_tools
unfolding new_policy
new_policy-no_owner_tool p q h =
    none_kept p.allowed_tools (ground (arith, sorted-is_empty (keep is_owner_tool p.allowed_tools)))

-- what a run has used, as its receipt counts it
pub record Usage : Type 0 where
  pub model_calls : ℕ
  pub retries : ℕ
  pub tool_calls : ℕ
  pub tools_used : List String

abbrev usage : Attempt → Usage
usage a = record {
  model_calls = a.model_calls;
  retries = a.retries;
  tool_calls = a.tool_calls;
  tools_used = a.tools_used;
}

abbrev pub receipt_usage : DelegationReceipt → Usage
receipt_usage e = record {
  model_calls = e.model_calls;
  retries = e.retries;
  tool_calls = e.tool_calls;
  tools_used = e.tools_used;
}

-- the usage against the request
pub record WithinRequest (r : DelegationRequest) (a : Usage) : Type 0 where
  pub model_calls : pos a.model_calls ≤ℤ r.model_call_limit
  pub retries : pos a.retries ≤ℤ r.retry_limit
  pub tool_calls : pos a.tool_calls ≤ℤ r.tool_call_limit
  pub tools_used : Within a.tools_used r.tools
  pub tools_distinct : Distinct a.tools_used
  pub tools_counted : length a.tools_used ≤ a.tool_calls

module _ {W : Type 0} (c : Collaborators W) (request : DelegationRequest) (q : DelegationRequest)
    (checked : new_request request ≡ ok q) where
  execute-WithinRequest :
      (models : ModelGateway W) (tools : ToolGateway W) (context : List DelegatedContext) (w : W)
      → WithinRequest request (usage (execute c models tools request context w).0)
  unfolding execute
  execute-WithinRequest models tools context w =
      let task = task_for request context in
      let b =
        worker-IsBounded task models tools (c.worker task) w
          (new_request-HasLimits request q context checked) in
      record {
        model_calls = b.model_calls;
        retries = b.retries;
        tool_calls = b.tool_calls;
        tools_used = b.tools_allowed;
        tools_distinct = b.tools_distinct;
        tools_counted = b.tools_counted;
      }

  blocked-WithinRequest : (vs : List String) → WithinRequest request (usage (blocked_attempt vs))
  blocked-WithinRequest vs =
      let limits = new_request-HasLimits request q [] checked in
      record {
        model_calls = limits.model_calls;
        retries = limits.retries;
        tool_calls = limits.tool_calls;
        tools_used = tt;
        tools_distinct = tt;
        tools_counted = omega arith;
      }

  attempt-WithinRequest :
      (vs : List String) (w : W) → WithinRequest request (usage (attempt c request vs w).0)
  attempt-WithinRequest =
      attempt_rule c request (λ a. WithinRequest request (usage a))
        (λ v vs. blocked-WithinRequest (v ∷ vs)) execute-WithinRequest

-- the usage against the policy
pub record WithinPolicy (p : DelegationPolicy) (a : Usage) : Type 0 where
  pub model_calls : pos a.model_calls ≤ℤ p.max_model_calls
  pub retries : pos a.retries ≤ℤ p.max_retries
  pub tool_calls : pos a.tool_calls ≤ℤ p.max_tool_calls
  pub no_owner_tool : All (λ t. is_owner_tool t ≡ false) a.tools_used

All-within :
    (P : String → Type 0) (xs ys zs : List String)
    → Within xs ys
    → Within ys zs
    → All P zs
    → All P xs
All-within P [] ys zs h k all = tt
All-within P (x ∷ xs) ys zs h k all =
    (All-at P zs all (All-at (λ y. Among y zs) ys k h.0), All-within P xs ys zs h.1 k all)

conforming-WithinPolicy :
    (r : DelegationRequest) (p q : DelegationPolicy) (a : Usage)
    → Conforms r p
    → new_policy p ≡ ok q
    → WithinRequest r a
    → WithinPolicy p a
conforming-WithinPolicy r p q a f checked b = record {
  model_calls =
      ≤ℤ-trans (pos a.model_calls) r.model_call_limit p.max_model_calls b.model_calls f.model_calls;
  retries = ≤ℤ-trans (pos a.retries) r.retry_limit p.max_retries b.retries f.retries;
  tool_calls =
      ≤ℤ-trans (pos a.tool_calls) r.tool_call_limit p.max_tool_calls b.tool_calls f.tool_calls;
  no_owner_tool =
      All-within (λ t. is_owner_tool t ≡ false) a.tools_used r.tools p.allowed_tools b.tools_used
        f.tools (new_policy-no_owner_tool p q checked);
}

blocked-WithinPolicy :
    (p q : DelegationPolicy) (vs : List String)
    → new_policy p ≡ ok q
    → WithinPolicy p (usage (blocked_attempt vs))
unfolding new_policy
blocked-WithinPolicy p q vs h = ground arith

carry_out-returns :
    {W : Type 0} (c : Collaborators W) (request : DelegationRequest)
    (receipt_id started_at : String) (vs : List String) (h : Host W) (outcome : DelegationOutcome)
    → (carry_out c request receipt_id started_at vs h).0 ≡ ok outcome
    → receipt_usage outcome.receipt ≡ usage (attempt c request vs h.world).0
unfolding carry_out
carry_out-returns c request receipt_id started_at vs h outcome e =
    ap (λ (o : DelegationOutcome). receipt_usage o.receipt) (sym (ok-injective e))

module _ {W : Type 0} (c : Collaborators W) (request r' : DelegationRequest)
    (policy p' : DelegationPolicy) (request_checked : new_request request ≡ ok r')
    (policy_checked : new_policy policy ≡ ok p') where
  attempt-WithinPolicy :
      (vs : List String) (w : W)
      → (vs ≡ [] → Conforms request policy)
      → WithinPolicy policy (usage (attempt c request vs w).0)
  attempt-WithinPolicy [] w conforms =
      conforming-WithinPolicy request policy p' (usage (attempt c request [] w).0) (conforms refl)
        policy_checked (attempt-WithinRequest c request r' request_checked [] w)
  attempt-WithinPolicy (v ∷ vs) w conforms =
      unfold attempt in blocked-WithinPolicy policy p' (v ∷ vs) policy_checked

  -- Whatever the worker, the gateways and the reviewer do, the receipt of a delegation counts
  -- model calls, retries and tool calls within the limits of the request and within those of the
  -- policy, and names only tools that the request lists, each once, and none that is reserved for
  -- the owner.
  pub delegate-bounded :
      (receipt_id started_at : String) (h : Host W) (outcome : DelegationOutcome)
      → (delegate c request policy receipt_id started_at h).0 ≡ ok outcome
      → WithinRequest request (receipt_usage outcome.receipt)
        × WithinPolicy policy (receipt_usage outcome.receipt)
  delegate-bounded receipt_id started_at h outcome e =
      let (vs, authorized, carried) =
        delegate_ok c request policy receipt_id started_at h outcome e in
      let w = (authorize c request (request_violations request policy) h.world).1 in
      let returned =
        carry_out-returns c request receipt_id started_at vs (record h { world = w }) outcome
          (ap (λ r. r.0) (sym carried) ∙ e) in
      rw returned (
        attempt-WithinRequest c request r' request_checked vs w,
        attempt-WithinPolicy vs w λ none_after. (request_violations_iff request policy).0 (
            authorize-none c request (request_violations request policy) h.world
              (authorized ∙ ap ok none_after)),
      )
