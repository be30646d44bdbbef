-- ===== src/Delegation/Runtime/Cost.antt =====
-- What a worker spends, where the model gateway keeps to its quotes.
use reckoning.Prelude.{◌≡◌, refl, String, ℤ, pos, ◌≤ℤ◌, +ℤ_parts, arith}
use reckoning.Prelude.Result.{ok}
use reckoning.Delegation.Records.{DelegatedTask, DelegatedModelResponse, new_response}
use reckoning.Delegation.Runtime.{
  Runtime, ModelGateway, ToolGateway, Program, finish, fail, ask_model, ask_tool, retry,
  new_runtime, call_model, use_tool, record_retry, run,
}
use reckoning.Delegation.Runtime.Bounds.{HasLimits}

module _ {W : Type 0} where
  -- A call that follows a quote costs at most the quote.
  pub record KeepsQuotes (g : ModelGateway W) : Type 0 where
    pub within :
        (provider prompt : String) (w : W) (quote : ℤ) (response : DelegatedModelResponse)
        → (g.quote_max_cost provider prompt w).0 ≡ ok quote
        → (g.execute provider prompt (g.quote_max_cost provider prompt w).1).0 ≡ ok response
        → response.cost ≤ℤ quote

  record IsPaid (t : DelegatedTask) (s : Runtime W) : Type 0 where
    same_task : s.task ≡ t
    cost : s.cost ≤ℤ t.cost_limit
    not_negative : pos 0 ≤ℤ s.cost

  call_model-IsPaid :
      {t : DelegatedTask} (g : ModelGateway W) (prompt : String) (s : Runtime W)
      → KeepsQuotes g
      → IsPaid t s
      → IsPaid t (call_model g prompt s).1
  unfolding call_model new_response
  call_model-IsPaid g prompt s k b =
      grind (arith, +ℤ_parts, k.within s.task.provider prompt s.world)

  use_tool-IsPaid :
      {t : DelegatedTask} (g : ToolGateway W) (tool payload : String) (s : Runtime W)
      → IsPaid t s
      → IsPaid t (use_tool g tool payload s).1
  unfolding use_tool
  use_tool-IsPaid g tool payload s b = ground arith

  record_retry-IsPaid :
      {t : DelegatedTask} (s : Runtime W) → IsPaid t s → IsPaid t (record_retry s).1
  unfolding record_retry
  record_retry-IsPaid s b = ground arith

  run-IsPaid :
      {t : DelegatedTask} (models : ModelGateway W) (tools : ToolGateway W) (p : Program)
      (s : Runtime W)
      → KeepsQuotes models
      → IsPaid t s
      → IsPaid t (run models tools p s).1
  unfolding run
  run-IsPaid models tools (finish f) s k b = b
  run-IsPaid models tools (fail e) s k b = b
  run-IsPaid models tools (ask_model prompt next) s k b =
      let (answer, s') = call_model models prompt s in
      run-IsPaid models tools (next answer) s' k (call_model-IsPaid models prompt s k b)
  run-IsPaid models tools (ask_tool tool payload next) s k b =
      let (answer, s') = use_tool tools tool payload s in
      run-IsPaid models tools (next answer) s' k (use_tool-IsPaid tools tool payload s b)
  run-IsPaid models tools (retry next) s k b =
      let (answer, s') = record_retry s in
      run-IsPaid models tools (next answer) s' k (record_retry-IsPaid s b)

  -- Where the model gateway keeps to its quotes, the cost of a run is at most the task's limit.
  pub worker_cost_bounded :
      (t : DelegatedTask) (models : ModelGateway W) (tools : ToolGateway W) (p : Program) (w : W)
      → HasLimits t
      → KeepsQuotes models
      → (run models tools p (new_runtime t w)).1.cost ≤ℤ t.cost_limit
  worker_cost_bounded t models tools p w h k =
      (run-IsPaid {t = t} models tools p (new_runtime t w) k
        (record { same_task = refl; cost = h.cost; not_negative = omega arith })).cost
