-- ===== src/Interfaces/Calls.antt =====
-- The calls on the sessions and turns of a repository, in the order in which they are made; `save`,
-- which replaces the whole state, is not among them.
pub mod Settled
pub mod Spoken
use reckoning.Prelude.{ℕ, ◌+◌, ◌≤◌, ◌≡◌, String, Bool, Option, List, [], ◌∷◌, arith, eq_iff}
use reckoning.Prelude.Pairs
use reckoning.Interfaces.Records.{ChannelMessage, SessionOrigin, ContextStatus, Interface}
use reckoning.Interfaces.Sessions.{
  create_session, start_first_session, select_session, create_and_select_session, append_messages,
  session_revision, add_messages,
}
use reckoning.Interfaces.Turns.{reserve_turn, complete_turn, fail_turn}

pub data Call : Type 0 where
  on_create : String → String → Option String → SessionOrigin → String → Call
  on_start_first : String → String → Option String → String → Call
  on_select : String → String → ℕ → Call
  on_create_and_select : String → String → Option String → SessionOrigin → String → Option ℕ → Call
  on_append : String → String → List ChannelMessage → ℕ → Bool → String → Call
  on_reserve : String → String → String → String → ℕ → String → Call
  on_complete :
      String
      → String
      → String
      → String
      → List String
      → Option ContextStatus
      → Option String
      → String
      → Call
  on_fail : String → String → Call

-- the repository after the call, whether it returned or raised
unfoldable pub step : Interface → Call → Interface
unfolding create_session start_first_session select_session create_and_select_session
    append_messages add_messages reserve_turn complete_turn fail_turn
step r (on_create id channel name origin at) = (create_session id channel name origin at r).1
step r (on_start_first id channel name now) = (start_first_session id channel name now r).1
step r (on_select channel id expected) = (select_session channel id expected r).1
step r (on_create_and_select id channel name origin at expected) =
    (create_and_select_session id channel name origin at expected r).1
step r (on_append channel id messages expected returning now) =
    (append_messages channel id messages expected returning now r).1
step r (on_reserve channel id speech turn_id expected now) =
    (reserve_turn channel id speech turn_id expected now r).1
step r (on_complete channel id turn_id speech notices status run_id now) =
    (complete_turn channel id turn_id speech notices status run_id now r).1
step r (on_fail turn_id now) = (fail_turn turn_id now r).1

unfoldable pub steps : Interface → List Call → Interface
steps r [] = r
steps r (c ∷ cs) = steps (step r c) cs
