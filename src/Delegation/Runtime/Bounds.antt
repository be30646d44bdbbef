-- ===== src/Delegation/Runtime/Bounds.antt =====
-- The counters of the worker's runtime stay within the limits of the task, whatever the worker
-- does.
use reckoning.Prelude.{
  ◌≤◌, ◌≡◌, refl, ◌+◌, String, true, false, [], ◌∷◌, ◌++◌, pos, ◌≤ℤ◌, arith, length, All,
  All-append, Among, contains, contains→Among, length-append,
}
use reckoning.Prelude.Distinct.{Distinct, Distinct-snoc}
use reckoning.Delegation.Records.{DelegatedTask}
use reckoning.Delegation.Runtime.{
  Runtime, ModelGateway, ToolGateway, Program, finish, fail, ask_model, ask_tool, retry,
  new_runtime, call_model, use_tool, record_retry, run,
}

-- the limits of a request that has passed its checks
pub record HasLimits (t : DelegatedTask) : Type 0 where
  pub model_calls : pos 0 ≤ℤ t.model_call_limit
  pub cost : pos 0 ≤ℤ t.cost_limit
  pub retries : pos 0 ≤ℤ t.retry_limit
  pub tool_calls : pos 0 ≤ℤ t.tool_call_limit

module _ {W : Type 0} where
  pub record IsBounded (t : DelegatedTask) (s : Runtime W) : Type 0 where
    pub same_task : s.task ≡ t
    pub model_calls : pos s.model_calls ≤ℤ t.model_call_limit
    pub retries : pos s.retries ≤ℤ t.retry_limit
    pub tool_calls : pos s.tool_calls ≤ℤ t.tool_call_limit
    pub tools_allowed : All (λ tool. Among tool t.tools) s.tools_used
    pub tools_distinct : Distinct s.tools_used
    pub tools_counted : length s.tools_used ≤ s.tool_calls

  pub new_runtime-IsBounded :
      (t : DelegatedTask) (w : W) → HasLimits t → IsBounded t (new_runtime t w)
  new_runtime-IsBounded t w h = record {
    same_task = refl;
    model_calls = omega arith;
    retries = omega arith;
    tool_calls = omega arith;
    tools_allowed = tt;
    tools_distinct = tt;
    tools_counted = omega arith;
  }

  call_model-IsBounded :
      {t : DelegatedTask} (g : ModelGateway W) (prompt : String) (s : Runtime W)
      → IsBounded t s
      → IsBounded t (call_model g prompt s).1
  unfolding call_model
  call_model-IsBounded g prompt s b = ground arith

  record_retry-IsBounded :
      {t : DelegatedTask} (s : Runtime W) → IsBounded t s → IsBounded t (record_retry s).1
  unfolding record_retry
  record_retry-IsBounded s b = ground arith

  -- a tool that is used for the first time
  add_tool :
      {t : DelegatedTask} (tool : String) (s : Runtime W)
      → IsBounded t s
      → contains t.tools tool ≡ true
      → contains s.tools_used tool ≡ false
      → All (λ used. Among used t.tools) (s.tools_used ++ tool ∷ [])
        × Distinct (s.tools_used ++ tool ∷ [])
        × (length (s.tools_used ++ tool ∷ []) ≤ s.tool_calls + 1)
  add_tool {t} tool s b granted new = (
    All-append (λ used. Among used t.tools) s.tools_used (tool ∷ []) b.tools_allowed
        (contains→Among t.tools tool granted, tt),
    Distinct-snoc s.tools_used tool b.tools_distinct new,
    omega (arith, length-append s.tools_used (tool ∷ []), b.tools_counted),
  )

  use_tool-IsBounded :
      {t : DelegatedTask} (g : ToolGateway W) (tool payload : String) (s : Runtime W)
      → IsBounded t s
      → IsBounded t (use_tool g tool payload s).1
  unfolding use_tool
  use_tool-IsBounded g tool payload s b = ground (arith, add_tool tool s b)

  pub run-IsBounded :
      {t : DelegatedTask} (models : ModelGateway W) (tools : ToolGateway W) (p : Program)
      (s : Runtime W)
      → IsBounded t s
      → IsBounded t (run models tools p s).1
  unfolding run
  run-IsBounded models tools (finish f) s b = b
  run-IsBounded models tools (fail e) s b = b
  run-IsBounded models tools (ask_model prompt next) s b =
      let (answer, s') = call_model models prompt s in
      run-IsBounded models tools (next answer) s' (call_model-IsBounded models prompt s b)
  run-IsBounded models tools (ask_tool tool payload next) s b =
      let (answer, s') = use_tool tools tool payload s in
      run-IsBounded models tools (next answer) s' (use_tool-IsBounded tools tool payload s b)
  run-IsBounded models tools (retry next) s b =
      let (answer, s') = record_retry s in
      run-IsBounded models tools (next answer) s' (record_retry-IsBounded s b)

  -- A worker of any kind, catching what exceptions it likes, leaves the runtime within the limits
  -- of its task: model calls, retries and tool calls are at most the limits, and each tool that
  -- was used is one of the task's, is listed once, and is paid for by a tool call.
  pub worker-IsBounded :
      (t : DelegatedTask) (models : ModelGateway W) (tools : ToolGateway W) (p : Program) (w : W)
      → HasLimits t
      → IsBounded t (run models tools p (new_runtime t w)).1
  worker-IsBounded t models tools p w h =
      run-IsBounded models tools p (new_runtime t w) (new_runtime-IsBounded t w h)
