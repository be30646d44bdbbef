-- ===== src/ExternalWrites/Execution/Attempts.antt =====
-- The calls of the adapter that one execution makes: how many, in what order, and which answer
-- becomes the result.
use reckoning.Prelude.{
  ℕ, zero, suc, ◌+◌, ◌≤◌, ◌<◌, ◌≡◌, ◌∙◌, ap, refl, String, Bool, true, false, not, none, some, pos,
  arith, Bool-cases, inl, inr, if◌then◌else◌,
}
use reckoning.Prelude.Dict.{Dict}
use reckoning.Prelude.Result.{Result, ok, err}
use reckoning.Automation.Runner.{is_interrupted}
use reckoning.ExternalWrites.Records.{WriteResult, ends_retries}
use reckoning.ExternalWrites.Execution.{
  WriteConnector, Attempted, ends, last_result, numbered, outcome_unknown, attempt_rounds,
  invoke_adapter, not_called,
}

-- the adapter says that the write failed: the one answer after which it is called again
abbrev pub fails : Result WriteResult → Bool
fails (ok x) = not (ends_retries x.status)
fails (err e) = false

-- an exception leaves the outcome unknown, an interruption passes through
unfoldable pub read_answer : Result WriteResult → Result WriteResult
read_answer (ok x) = ok x
read_answer (err e) = if is_interrupted e then err e else ok (outcome_unknown e)

ends-fails : (answer : Result WriteResult) → fails answer ≡ true → ends answer ≡ none
unfolding ends
ends-fails (ok x) h = ground arith
ends-fails (err e) h = absurd (cc)

ends-read_answer :
    (answer : Result WriteResult) → fails answer ≡ false → ends answer ≡ some (read_answer answer)
unfolding ends read_answer
ends-read_answer (ok x) h = ground arith
ends-read_answer (err e) h = ground arith

numbered-last :
    (n : ℕ) (before : WriteResult) (answer : Result WriteResult)
    → fails answer ≡ true
    → ok (last_result before answer, n) ≡ numbered n (read_answer answer)
unfolding last_result numbered read_answer
numbered-last n before (ok x) h = refl
numbered-last n before (err e) h = absurd (cc)

module _ {W : Type 0} (adapter : WriteConnector W) (payload : Dict String) (key : String) where
  -- the world after so many calls
  unfoldable pub world_at : ℕ → W → W
  world_at zero world = world
  world_at (suc k) world = world_at k (adapter payload key world).1

  -- the answer to the call after so many
  unfoldable pub answer_at : ℕ → W → Result WriteResult
  answer_at zero world = (adapter payload key world).0
  answer_at (suc k) world = answer_at k (adapter payload key world).1

  -- `last` calls have failed, the next gives the result, and it fails only if it is the last one
  -- that the limit allows
  pub record Tries (limit attempts : ℕ) (world : W) (end : Result Attempted × W) : Type 0 where
    pub last : ℕ
    pub within : last ≤ limit
    pub before : (k : ℕ) → k < last → fails (answer_at k world) ≡ true
    pub result : end.0 ≡ numbered (attempts + suc last) (read_answer (answer_at last world))
    pub left : end.1 ≡ world_at (suc last) world
    pub stops : last < limit → fails (answer_at last world) ≡ false

  before_next :
      (last : ℕ) (world : W)
      → fails (adapter payload key world).0 ≡ true
      → ((k : ℕ) → k < last → fails (answer_at k (adapter payload key world).1) ≡ true)
      → (k : ℕ) → k < suc last
      → fails (answer_at k world) ≡ true
  unfolding answer_at
  before_next last world f h zero lt = f
  before_next last world f h (suc k) lt = h k (omega arith)

  module _ (limit attempts : ℕ) (result : WriteResult) (world : W) where
    over :
        fails (adapter payload key world).0 ≡ false
        → attempt_rounds adapter payload key (suc limit) attempts result world ≡ (
          numbered (suc attempts) (read_answer (adapter payload key world).0),
          (adapter payload key world).1,
        )
    unfolding attempt_rounds
    over final = rw (ends-read_answer (adapter payload key world).0 final, attempt_rounds) refl

    again :
        fails (adapter payload key world).0 ≡ true
        → attempt_rounds adapter payload key (suc limit) attempts result world
          ≡ attempt_rounds adapter payload key limit
              (suc attempts)
              (last_result result (adapter payload key world).0)
              (adapter payload key world).1
    unfolding attempt_rounds
    again f = rw (ends-fails (adapter payload key world).0 f, attempt_rounds) refl

  at_limit :
      (attempts : ℕ) (result : WriteResult) (world : W)
      → fails (adapter payload key world).0 ≡ true
      → attempt_rounds adapter payload key 0
          (suc attempts)
          (last_result result (adapter payload key world).0)
          (adapter payload key world).1
        ≡ (
          numbered (suc attempts) (read_answer (adapter payload key world).0),
          (adapter payload key world).1,
        )
  unfolding attempt_rounds
  at_limit attempts result world f =
      ap (λ r. (r, (adapter payload key world).1))
        (numbered-last (suc attempts) result (adapter payload key world).0 f)

  first_only :
      (limit attempts : ℕ) (world : W) (end : Result Attempted × W)
      → end ≡ (
        numbered (suc attempts) (read_answer (adapter payload key world).0),
        (adapter payload key world).1,
      )
      → (0 < limit → fails (adapter payload key world).0 ≡ false)
      → Tries limit attempts world end
  unfolding answer_at world_at
  first_only limit attempts world end e stop = record {
    last = 0;
    within = omega arith;
    before = λ k lt. absurd (omega arith);
    result = let one : suc attempts ≡ attempts + 1 = omega arith in rw (e, one) refl;
    left = rw e refl;
    stops = stop;
  }

  next-Tries :
      (limit attempts : ℕ) (world : W) (end : Result Attempted × W)
      → fails (adapter payload key world).0 ≡ true
      → Tries limit (suc attempts) (adapter payload key world).1 end
      → Tries (suc limit) attempts world end
  unfolding answer_at world_at
  next-Tries limit attempts world end f t = record {
    last = suc t.last;
    within = let w = t.within in omega arith;
    before = before_next t.last world f t.before;
    result =
        let one : attempts + suc (suc t.last) ≡ suc attempts + suc t.last = omega arith in
        rw one t.result;
    left = t.left;
    stops = λ lt. t.stops (omega arith);
  }

  attempt_rounds-Tries :
      (limit attempts : ℕ) (result : WriteResult) (world : W)
      → Tries limit attempts world
          (attempt_rounds adapter payload key (suc limit) attempts result world)
  attempt_rounds-Tries zero attempts result world =
      elim (Bool-cases (fails (adapter payload key world).0)) [
        | inl f ↦
            first_only 0 attempts world _
              (again 0 attempts result world f ∙ at_limit attempts result world f)
              (λ lt. absurd (omega arith))
        | inr final ↦
            first_only 0 attempts world _ (over 0 attempts result world final) (λ lt. final)
      ]
  attempt_rounds-Tries (suc limit) attempts result world =
      elim (Bool-cases (fails (adapter payload key world).0)) [
        | inl f ↦ rw (again (suc limit) attempts result world f) (
            next-Tries limit attempts world _ f (
              attempt_rounds-Tries limit (suc attempts)
                (last_result result (adapter payload key world).0) (adapter payload key world).1))
        | inr final ↦
            first_only (suc limit) attempts world _ (over (suc limit) attempts result world final)
              (λ lt. final)
      ]

  -- With a limit of so many retries the adapter is called at least once and at most once more than
  -- that. Each call but the last was answered by a failure, so that an answer of success or of an
  -- unknown outcome, an exception or an interruption is never followed by another call. The last
  -- answer is the result, with the number of the calls: an exception is read as an unknown
  -- outcome, and an interruption is raised. A failure that is the result came at the limit.
  pub invoke_adapter-Tries :
      (retries : ℕ) (world : W)
      → Tries retries 0 world (invoke_adapter adapter payload key (pos retries) world)
  unfolding invoke_adapter
  invoke_adapter-Tries retries world = attempt_rounds-Tries retries 0 not_called world
