-- ===== src/Interfaces/Turns.antt =====
-- The turns of InMemoryInterfaceRepository in interfaces.py: a turn is reserved, and then completed
-- or failed, once.
use reckoning.Prelude.{
  ℕ, ◌+◌, String, true, not, ◌&&◌, Option, none, some, List, [], ◌∷◌, ◌++◌, str_eq, ◌==◌, first,
  keep, if◌then◌else◌,
}
use reckoning.Prelude.Pairs
use reckoning.Prelude.Result.{Result, ok, err, key_error, value_error, conflict, Action}
use reckoning.Interfaces.Records.{
  ContextStatus, pending, completed, failed, ChannelTurn, ChannelSelection, Interface, is_pending,
}
use reckoning.Interfaces.Sessions.{session_revision, add_messages, exchange, get_selected_session}

-- replace(turn, …) of a completion
abbrev pub completed_by :
    String → List String → Option ContextStatus → Option String → String → ChannelTurn → ChannelTurn
completed_by speech notices context_status model_run_id completed_at t = record t {
  assistant_speech = some speech;
  state = completed;
  completed_at = some completed_at;
  notices = notices;
  context_status = context_status;
  model_run_id = model_run_id;
}

-- replace(turn, …) of a failure
abbrev pub failed_at : String → ChannelTurn → ChannelTurn
failed_at completed_at t = record t { state = failed; completed_at = some completed_at }

unfoldable pub apply_turn_completion :
    String
    → List String
    → Option ContextStatus
    → Option String
    → String
    → ChannelTurn
    → Result ChannelTurn
apply_turn_completion speech notices context_status model_run_id completed_at t =
    if not (is_pending t.state)
    then err (value_error "Turn is not pending.")
    else ok (completed_by speech notices context_status model_run_id completed_at t)

unfoldable pub apply_turn_failure : String → ChannelTurn → Result ChannelTurn
apply_turn_failure completed_at t =
    if not (is_pending t.state)
    then err (value_error "Turn is not pending.")
    else ok (failed_at completed_at t)

unfoldable pub reserve_turn :
    String → String → String → String → ℕ → String → Action Interface ChannelTurn
reserve_turn channel session_id user_speech turn_id expected now r =
    let t : ChannelTurn = record {
      turn_id = turn_id;
      channel = channel;
      session_id = session_id;
      user_speech = user_speech;
      assistant_speech = none;
      state = pending;
      created_at = now;
      completed_at = none;
      notices = [];
      context_status = none;
      model_run_id = none;
    } in
    if not (session_revision channel session_id r == expected)
    then (err (conflict "Interface session changed."), r)
    else (
      ok t,
      record r {
        turns = r.turns ++ (t ∷ []);
        session_revisions =
            Pairs.put channel session_id (session_revision channel session_id r + 1)
              r.session_revisions;
      },
    )

-- the first turn with the id
unfoldable pub find_turn : String → List ChannelTurn → Option ChannelTurn
find_turn turn_id turns = first (λ (t : ChannelTurn). str_eq t.turn_id turn_id) turns

-- self._turns[index] = turn, at the first turn with the id
unfoldable pub set_turn : String → ChannelTurn → List ChannelTurn → List ChannelTurn
set_turn turn_id t [] = []
set_turn turn_id t (x ∷ xs) =
    let rest = set_turn turn_id t xs in if str_eq x.turn_id turn_id then t ∷ xs else x ∷ rest

complete_applied :
    String
    → String
    → String
    → String
    → String
    → ChannelTurn
    → Result ChannelTurn
    → Action Interface ChannelTurn
complete_applied channel session_id turn_id speech now t (err e) r = (err e, r)
complete_applied channel session_id turn_id speech now t (ok done) r =
    let (s, r') =
      add_messages channel session_id (exchange t.user_speech speech) true now
        (record r { turns = set_turn turn_id done r.turns }) in
    (ok done, r')

complete_found :
    String
    → String
    → String
    → String
    → List String
    → Option ContextStatus
    → Option String
    → String
    → Option ChannelTurn
    → Action Interface ChannelTurn
unfolding complete_applied apply_turn_completion
complete_found channel session_id turn_id speech notices status run_id now none r =
    (err (key_error "Unknown turn"), r)
complete_found channel session_id turn_id speech notices status run_id now (some t) r =
    complete_applied channel session_id turn_id speech now t
      (apply_turn_completion speech notices status run_id now t) r

unfoldable pub complete_turn :
    String
    → String
    → String
    → String
    → List String
    → Option ContextStatus
    → Option String
    → String
    → Action Interface ChannelTurn
unfolding complete_found
complete_turn channel session_id turn_id speech notices status run_id now r =
    complete_found channel session_id turn_id speech notices status run_id now
      (find_turn turn_id r.turns) r

fail_applied : String → Result ChannelTurn → Action Interface ChannelTurn
fail_applied turn_id (err e) r = (err e, r)
fail_applied turn_id (ok done) r = (ok done, record r { turns = set_turn turn_id done r.turns })

fail_found : String → String → Option ChannelTurn → Action Interface ChannelTurn
unfolding fail_applied apply_turn_failure
fail_found turn_id now none r = (err (key_error "Unknown turn"), r)
fail_found turn_id now (some t) r = fail_applied turn_id (apply_turn_failure now t) r

unfoldable pub fail_turn : String → String → Action Interface ChannelTurn
unfolding fail_found
fail_turn turn_id now r = fail_found turn_id now (find_turn turn_id r.turns) r

selected_id : Option ChannelSelection → String
selected_id none = ""
selected_id (some s) = s.selected_session_id

session_to_list : Option String → Option ChannelSelection → String
unfolding selected_id
session_to_list none chosen = selected_id chosen
session_to_list (some id) chosen = if str_eq id "" then selected_id chosen else id

unfoldable pub list_turns : String → Option String → Interface → List ChannelTurn
unfolding session_to_list
list_turns channel session_id r =
    let id = session_to_list session_id (get_selected_session channel r) in
    keep (λ (t : ChannelTurn). str_eq t.channel channel && str_eq t.session_id id) r.turns
