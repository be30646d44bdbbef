-- ===== src/ExternalWrites/Execution/Dispatched.antt =====
-- The executions that reach the adapter, and those that do not.
use reckoning.Prelude.{
  ◌≡◌, ◌⊎◌, inl, inr, refl, String, Option, none, some, ℤ, is_negative, Bool-cases, false,
}
use reckoning.Prelude.Result.{Result, ok, err, Action}
use reckoning.ExternalWrites.Records.{
  PreparedWrite, WriteReceipt, WriteAuthorization, ExecutionClaim,
}
use reckoning.ExternalWrites.Repository.{ExternalWriteRepository}
use reckoning.ExternalWrites.Execution.{
  WriteConnector, Machine, Outcome, invoke_adapter, idempotency_key, execute_invoked,
  execute_dispatched, execute_called_back, execute_claimed, execute_authorized, execute_prepared,
  execute_new, execute,
}

module _ {S W : Type 0} (repository : ExternalWriteRepository S) (adapter : WriteConnector W)
    (owner completed_at : String) (max_retries : ℤ)
    (on_claimed : String → Action (Machine S W) (Unit {0})) where
  -- the machine while the claim is held, before the callback
  abbrev pub holding :
      PreparedWrite → WriteAuthorization → Machine S W → Result ExecutionClaim × Machine S W
  holding w a m =
      let (claim, store') =
        repository.claim_execution w owner (idempotency_key w) a completed_at m.store in
      (claim, record m { store = store' })

  -- the machine at the dispatch, as the callback leaves it
  abbrev pub at_dispatch :
      PreparedWrite → WriteAuthorization → Machine S W → Result (Unit {0}) × Machine S W
  at_dispatch w a m = on_claimed owner (holding w a m).1

  -- what the execution does once the write is dispatched
  abbrev pub carried_out :
      PreparedWrite → WriteAuthorization → Machine S W → Result Outcome × Machine S W
  carried_out w a m =
      let (dispatched, store') = repository.dispatch_execution w.id owner m.store in
      let (attempted, world') =
        invoke_adapter adapter w.payload (idempotency_key w) max_retries m.world in
      execute_invoked repository adapter owner completed_at max_retries w a attempted
        (record { store = store'; world = world' })

  -- the execution reaches the adapter: the write is stored and has no receipt, it is authorized,
  -- claimed and dispatched for this worker, and the adapter is given its payload
  pub record Dispatched (write_id : String) (m : Machine S W) (end : Result Outcome × Machine S W)
      : Type 0 where
    pub write : PreparedWrite
    pub grounds : WriteAuthorization
    pub claim : ExecutionClaim
    pub dispatch : ExecutionClaim
    pub unfinished : repository.get_receipt write_id m.store ≡ none
    pub stored : repository.get_prepared write_id m.store ≡ ok write
    pub granted : repository.authorization write m.store ≡ some grounds
    pub within : is_negative max_retries ≡ false
    pub claims : (holding write grounds m).0 ≡ ok claim
    pub called : (at_dispatch write grounds m).0 ≡ ok tt
    pub dispatches :
        (repository.dispatch_execution write.id owner (at_dispatch write grounds m).1.store).0
        ≡ ok dispatch
    pub finishes : end ≡ carried_out write grounds (at_dispatch write grounds m).1

  module _ (w : PreparedWrite) (a : WriteAuthorization) where
    dispatched_cases :
        (r : Result ExecutionClaim) (m : Machine S W)
        → ((other : WriteConnector W)
            → execute_dispatched repository other owner completed_at max_retries w a r m
              ≡ execute_dispatched repository adapter owner completed_at max_retries w a r m)
          ⊎ ((d : ExecutionClaim) × (r ≡ ok d))
    unfolding execute_dispatched
    dispatched_cases (err e) m = inl (λ other. refl)
    dispatched_cases (ok d) m = inr (d, refl)

    called_back_cases :
        (r : Result (Unit {0})) (m : Machine S W)
        → ((other : WriteConnector W)
            → execute_called_back repository other owner completed_at max_retries w a r m
              ≡ execute_called_back repository adapter owner completed_at max_retries w a r m)
          ⊎ ((d : ExecutionClaim) × (r ≡ ok tt)
              × ((repository.dispatch_execution w.id owner m.store).0 ≡ ok d))
    unfolding execute_called_back
    called_back_cases (err e) m = inl (λ other. refl)
    called_back_cases (ok tt) m =
        elim (dispatched_cases (repository.dispatch_execution w.id owner m.store).0
          (record m { store = (repository.dispatch_execution w.id owner m.store).1 })) [
            | inl same ↦ inl same
            | inr (d, e) ↦ inr (d, refl, e)
          ]

    claimed_cases :
        (r : Result ExecutionClaim) (m : Machine S W)
        → ((other : WriteConnector W)
            → execute_claimed repository other owner completed_at max_retries on_claimed w a r m
              ≡ execute_claimed repository adapter owner completed_at max_retries on_claimed w a r
                  m)
          ⊎ ((c d : ExecutionClaim) × (r ≡ ok c)
              × ((on_claimed owner m).0 ≡ ok tt)
              × ((repository.dispatch_execution w.id owner (on_claimed owner m).1.store).0 ≡ ok d))
    unfolding execute_claimed
    claimed_cases (err e) m = inl (λ other. refl)
    claimed_cases (ok c) m =
        elim (called_back_cases (on_claimed owner m).0 (on_claimed owner m).1) [
          | inl same ↦ inl same
          | inr (d, e, f) ↦ inr (c, d, refl, e, f)
        ]

  -- the same whatever the adapter is
  abbrev pub Uncalled : (WriteConnector W → Result Outcome × Machine S W) → Type 0
  Uncalled run = (other : WriteConnector W) → run other ≡ run adapter

  -- what is known of an execution that is dispatched, from the grounds on
  record Granted (w : PreparedWrite) (m : Machine S W) (end : Result Outcome × Machine S W)
      : Type 0 where
    grounds : WriteAuthorization
    claim : ExecutionClaim
    dispatch : ExecutionClaim
    granted : repository.authorization w m.store ≡ some grounds
    within : is_negative max_retries ≡ false
    claims : (holding w grounds m).0 ≡ ok claim
    called : (at_dispatch w grounds m).0 ≡ ok tt
    dispatches :
        (repository.dispatch_execution w.id owner (at_dispatch w grounds m).1.store).0 ≡ ok dispatch
    finishes : end ≡ carried_out w grounds (at_dispatch w grounds m).1

  run_authorized :
      PreparedWrite
      → Option WriteAuthorization
      → Machine S W
      → WriteConnector W
      → Result Outcome × Machine S W
  run_authorized w a m other =
      execute_authorized repository other owner completed_at max_retries on_claimed w a m

  module _ (w : PreparedWrite) (m : Machine S W) where
    carries_out :
        (a : WriteAuthorization) (c d : ExecutionClaim)
        → is_negative max_retries ≡ false
        → (holding w a m).0 ≡ ok c
        → (at_dispatch w a m).0 ≡ ok tt
        → (repository.dispatch_execution w.id owner (at_dispatch w a m).1.store).0 ≡ ok d
        → run_authorized w (some a) m adapter ≡ carried_out w a (at_dispatch w a m).1
    unfolding run_authorized execute_authorized execute_claimed execute_called_back
        execute_dispatched
    carries_out a c d n e f g = rw n (rw e (rw f (rw g refl)))

    authorized_cases :
        (o : Option WriteAuthorization)
        → repository.authorization w m.store ≡ o
        → Uncalled (run_authorized w o m) ⊎ Granted w m (run_authorized w o m adapter)
    unfolding run_authorized execute_authorized
    authorized_cases none known = inl (λ other. refl)
    authorized_cases (some a) known = elim (Bool-cases (is_negative max_retries)) [
      | inl n ↦ inl (λ other. rw n refl)
      | inr n ↦ elim (claimed_cases w a (holding w a m).0 (holding w a m).1) [
        | inl same ↦ inl (λ other. rw n (same other))
        | inr (c, d, e, f, g) ↦ inr (record {
          grounds = a;
          claim = c;
          dispatch = d;
          granted = known;
          within = n;
          claims = e;
          called = f;
          dispatches = g;
          finishes = carries_out a c d n e f g;
        })
      ]
    ]

  run_prepared :
      Result PreparedWrite → Machine S W → WriteConnector W → Result Outcome × Machine S W
  run_prepared w m other =
      execute_prepared repository other owner completed_at max_retries on_claimed w m

  module _ (write_id : String) (m : Machine S W) where
    prepared_cases :
        (r : Result PreparedWrite)
        → Uncalled (run_prepared r m)
          ⊎ ((w : PreparedWrite) × (r ≡ ok w) × Granted w m (run_prepared r m adapter))
    unfolding run_prepared execute_prepared run_authorized
    prepared_cases (err e) = inl (λ other. refl)
    prepared_cases (ok w) = elim (authorized_cases w m (repository.authorization w m.store) refl) [
      | inl same ↦ inl same
      | inr g ↦ inr (w, refl, g)
    ]

    new_cases :
        (o : Option WriteReceipt)
        → repository.get_receipt write_id m.store ≡ o
        → Uncalled (λ other.
          execute_new repository other owner completed_at max_retries on_claimed write_id o m)
          ⊎ Dispatched write_id m (
              execute_new repository adapter owner completed_at max_retries on_claimed write_id o m)
    unfolding execute_new run_prepared
    new_cases (some existing) known = inl (λ other. refl)
    new_cases none known = elim (prepared_cases (repository.get_prepared write_id m.store)) [
      | inl same ↦ inl same
      | inr (w, e, g) ↦ inr (record {
        write = w;
        grounds = g.grounds;
        claim = g.claim;
        dispatch = g.dispatch;
        unfinished = known;
        stored = e;
        granted = g.granted;
        within = g.within;
        claims = g.claims;
        called = g.called;
        dispatches = g.dispatches;
        finishes = g.finishes;
      })
    ]

    -- An execution either does not depend on the adapter at all, whatever the store and the
    -- callback, or it has a stored write without a receipt, an authorization for it, a retry limit
    -- that is not negative, a claim of this worker, a callback that returned and a dispatch, and
    -- then calls the adapter with the payload of that write under its key.
    pub execute_cases :
        Uncalled
          (λ other. execute repository other owner completed_at max_retries on_claimed write_id m)
        ⊎ Dispatched write_id m
            (execute repository adapter owner completed_at max_retries on_claimed write_id m)
    unfolding execute
    execute_cases = new_cases (repository.get_receipt write_id m.store) refl

    -- an execution that passes every test carries the write out
    pub execute-carried_out :
        (w : PreparedWrite) (a : WriteAuthorization) (c d : ExecutionClaim)
        → repository.get_receipt write_id m.store ≡ none
        → repository.get_prepared write_id m.store ≡ ok w
        → repository.authorization w m.store ≡ some a
        → is_negative max_retries ≡ false
        → (holding w a m).0 ≡ ok c
        → (at_dispatch w a m).0 ≡ ok tt
        → (repository.dispatch_execution w.id owner (at_dispatch w a m).1.store).0 ≡ ok d
        → execute repository adapter owner completed_at max_retries on_claimed write_id m
          ≡ carried_out w a (at_dispatch w a m).1
    unfolding execute execute_new execute_prepared
    execute-carried_out w a c d new stored granted n e f g =
        rw new (rw stored (rw granted (unfold run_authorized in carries_out w m a c d n e f g)))
