-- ===== src/ExternalWrites/Calls/Lifecycle/Moves.antt =====
-- Each call of either repository makes a move of the state machine, or none.
use reckoning.Prelude.{String}
use reckoning.Prelude.Dict
use reckoning.ExternalWrites.Tables.{Tables}
use reckoning.ExternalWrites.InMemory
use reckoning.ExternalWrites.Sqlite
use reckoning.ExternalWrites.Calls.{Call, on_claim, on_dispatch, on_abort, on_recover, on_finalize}

-- the worker that a call names, where it is about an execution
abbrev pub actor_of : Call → String
actor_of (on_claim w owner key a at) = owner
actor_of (on_dispatch id owner) = owner
actor_of (on_abort id owner) = owner
actor_of (on_recover id expected owner at) = owner
actor_of (on_finalize id owner receipt) = owner
actor_of _ = ""
