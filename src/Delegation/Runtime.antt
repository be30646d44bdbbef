-- ===== src/Delegation/Runtime.antt =====
-- BoundedWorkerRuntime of delegation.py: the capabilities that a worker has, each gated before use.
-- The gateways are outside the source: actions on a state `W` of their own, and arguments here.
pub mod Bounds
pub mod Cost
use reckoning.Prelude.{
  ℕ, ◌+◌, String, Bool, true, false, not, List, [], ◌∷◌, ◌++◌, ℤ, pos, ◌+ℤ◌, ltb_ℤ, leb_ℤ,
  is_negative, is_blank, contains, concat, if◌then◌else◌,
}
use reckoning.Prelude.Result.{
  Result, ok, err, value_error, runtime_error, limit_exceeded, quote_exceeded, Error, Action, ◌>>=◌,
}
use reckoning.Delegation.Records.{
  DelegatedTask, DelegatedModelResponse, DelegatedWorkerFinding, new_response, new_finding,
}

-- DelegatedModelGateway
pub record ModelGateway (W : Type 0) : Type 0 where
  pub quote_max_cost : String → String → Action W ℤ
  pub execute : String → String → Action W DelegatedModelResponse

-- DelegatedToolGateway
pub record ToolGateway (W : Type 0) : Type 0 where
  pub execute_tool : String → String → Action W String

pub record Runtime (W : Type 0) : Type 0 where
  pub task : DelegatedTask
  pub model_calls : ℕ
  pub cost : ℤ
  pub retries : ℕ
  pub tools_used : List String
  pub tool_calls : ℕ
  -- the state of the gateways
  pub world : W

-- BoundedWorkerRuntime.__init__
abbrev pub new_runtime : {W : Type 0} → DelegatedTask → W → Runtime W
new_runtime task world = record {
  task = task;
  model_calls = 0;
  cost = pos 0;
  retries = 0;
  tools_used = [];
  tool_calls = 0;
  world = world;
}

-- What a worker does: it calls the runtime, sees the answer or the exception of each call and goes
-- on as it likes, and in the end returns a finding or raises.
pub data Program : Type 0 where
  finish : DelegatedWorkerFinding → Program
  fail : Error → Program
  ask_model : String → (Result String → Program) → Program
  ask_tool : String → String → (Result String → Program) → Program
  retry : (Result (Unit {0}) → Program) → Program

module _ {W : Type 0} where
  -- the response adds its cost, also where it is dearer than its quote
  after_response : ℤ → Result DelegatedModelResponse → Action (Runtime W) String
  after_response quote (err e) s = (err e, s)
  after_response quote (ok response) s =
      let s' = record s { cost = s.cost +ℤ response.cost } in
      if ltb_ℤ quote response.cost
      then (err (quote_exceeded "delegated model gateway exceeded its cost quote"), s')
      else (ok response.content, s')

  after_quote : ModelGateway W → String → Result ℤ → Action (Runtime W) String
  unfolding after_response
  after_quote gateway prompt (err e) s = (err e, s)
  after_quote gateway prompt (ok quote) s =
      if is_negative quote
      then (err (runtime_error "The delegated model gateway returned a negative quote."), s)
      else if ltb_ℤ s.task.cost_limit (s.cost +ℤ quote)
      then (err (limit_exceeded "worker exceeded the cost limit"), s)
      else let (response, w) = gateway.execute s.task.provider prompt s.world in
        after_response quote (response >>= new_response)
          (record s { model_calls = s.model_calls + 1; world = w })

  unfoldable pub call_model : ModelGateway W → String → Action (Runtime W) String
  unfolding after_quote
  call_model gateway prompt s =
      if is_blank prompt
      then (err (value_error "Delegated model prompt cannot be empty."), s)
      else if leb_ℤ s.task.model_call_limit (pos s.model_calls)
      then (err (limit_exceeded "worker exceeded the model-call limit"), s)
      else let (quoted, w) = gateway.quote_max_cost s.task.provider prompt s.world in
        after_quote gateway prompt quoted (record s { world = w })

  unfoldable pub use_tool : ToolGateway W → String → String → Action (Runtime W) String
  use_tool gateway tool payload s =
      if not (contains s.task.tools tool)
      then (
        err (limit_exceeded (concat "worker used a tool outside the delegated tool scope: " tool)),
        s,
      )
      else if leb_ℤ s.task.tool_call_limit (pos s.tool_calls)
      then (err (limit_exceeded "worker exceeded the tool-call limit"), s)
      else let (answer, w) = gateway.execute_tool tool payload s.world in
        (
          answer,
          record s {
            tool_calls = s.tool_calls + 1;
            tools_used =
                if contains s.tools_used tool then s.tools_used else s.tools_used ++ tool ∷ [];
            world = w;
          },
        )

  unfoldable pub record_retry : Action (Runtime W) (Unit {0})
  record_retry s =
      if leb_ℤ s.task.retry_limit (pos s.retries)
      then (err (limit_exceeded "worker exceeded the retry limit"), s)
      else (ok tt, record s { retries = s.retries + 1 })

  -- DelegatedWorker.execute on the runtime
  unfoldable pub run :
      ModelGateway W → ToolGateway W → Program → Action (Runtime W) DelegatedWorkerFinding
  run models tools (finish finding) s = (new_finding finding, s)
  run models tools (fail e) s = (err e, s)
  run models tools (ask_model prompt next) s =
      let (answer, s') = call_model models prompt s in run models tools (next answer) s'
  run models tools (ask_tool tool payload next) s =
      let (answer, s') = use_tool tools tool payload s in run models tools (next answer) s'
  run models tools (retry next) s =
      let (answer, s') = record_retry s in run models tools (next answer) s'
