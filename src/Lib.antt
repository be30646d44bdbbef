-- ===== src/Lib.antt =====
-- Reckoning: the services behind the local-first continuity agent, modelled from the Python sources
-- under src/reckoning. Each module here says which file it is about.
--
-- Delegation (src/reckoning/delegation.py). `Records` has the dataclasses and the checks of their
-- constructors, `OwnerTools` the reserved tools, `Policy` the check of a request, `Runtime` the gated
-- capabilities of a worker, `Review` the check of a disposition, `Collaborators` the protocols and
-- the loops over their answers, `Coordinator` the handler `delegate` and the saved receipts.
-- A worker is a tree of calls on the runtime: it sees each answer or exception and chooses what it
-- does next; every worker that ends is such a tree. The gateways, the context source, the reviewer
-- and the authorizer are arguments, actions on a state of their own.
--
-- Automation (src/reckoning/automation.py). `Records` has the dataclasses, `Repository` the proposals of
-- InMemoryAutomationRepository and `Claims` its runs, claims and receipts; `Service` is RoutineService up to
-- the start of a run (its `start_run` is `start_routine`), and `Runner` is its `resume_run`: the steps,
-- retries, quotes and costs of a run. Executors and the compiler of requests are arguments. The argument
-- `owner` is what `worker or _run_owner()` gives. `Watch` and `Briefing` are WatchService and
-- BriefingService, without their files; a float there is a whole multiple of the finest binary64 step.
--
-- Processing (src/reckoning/processing.py). `Grants` is the file of grants, as the list that it holds, with
-- its loads and versioned saves; `Scope` is ProcessingScope on that file.
--
-- Continuity (src/reckoning/continuity.py). `Records` has the dataclasses and the current version of a
-- record, `Drafts` the check of a draft, and `Repository` is InMemoryReckoningRepository, with its saves
-- under an expected version and its operations.
--
-- Planning (src/reckoning/planning.py). `Records` has the versions of directions, goals and plans and the
-- repository in memory, `Services` the operations of PlanService and GoalPlanningService, save for the fit
-- of goals to a capacity, which rounds floating-point hours.
--
-- External writes (src/reckoning/external_write_store.py and connectors.py). `Records` has the
-- dataclasses, `Tables` the store and its queries, `InMemory` and `Sqlite` the two repositories, whose
-- SQL statements are read as operations on tables, and `Repository` the protocol that they implement.
-- `Service` is ExternalWriteService up to an approval, `Execution` its `execute`: the claim, the callback,
-- the dispatch, the calls of the adapter and the receipt. `Calls` has the calls of all workers as a
-- sequence, with the state machine of a claim in `Calls.Lifecycle`. The digest of a payload, the adapter,
-- the callback and the owner's name are arguments.
--
-- Connectors (src/reckoning/connectors.py and external_content.py). `Service` is ConnectorService without a
-- path, `Synchronize` its `synchronize`, and `Content` the boundary for imported content; the regular
-- expressions and the adapters are arguments. `Calls` has the calls on the service as a sequence.
--
-- Interfaces (src/reckoning/interfaces.py). `Records` has the dataclasses of the sessions and turns and the
-- state of InMemoryInterfaceRepository that is about them; `Sessions` and `Turns` are its operations (the
-- update that append_messages and _append_speech_to_session share is `add_messages`), `Calls` their
-- sequences, and `Placement` is PlacementPolicy.
--
-- Exceptions are values of `Prelude/Result`: a raise keeps what was written before it, and the text of some
-- errors leaves out the ids and revisions that the code puts into it. A `dict` is an
-- association list in the order of insertion, a set is the list of its distinct items. Integers that
-- the code tests for their sign are `ℤ`; counters that start at 0 and only grow are `ℕ`. A `Decimal`
-- is an exact multiple of one unit, so the rounding of sums beyond 28 digits is left out. Instants
-- are opaque values, compared by nobody. Loops over collections are recursions on the list, and the
-- retry loop of a routine step recurs on the attempts that are left, so no fuel is needed.
--
-- Not modelled: the files, network transports and user interfaces, the databases save for the one of
-- external writes, and the services that the manifest lists as not modelled. An interruption such as
-- KeyboardInterrupt is modelled where an adapter or the executor of a step raises it, and left out
-- elsewhere; so is code that writes an object's private fields.
pub mod Automation
pub mod Connectors
pub mod Continuity
pub mod Delegation
pub mod ExternalWrites
pub mod Interfaces
pub mod Planning
pub mod Prelude
pub mod Processing
