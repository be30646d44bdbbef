-- ===== src/Interfaces/Records.antt =====
-- The dataclasses of the sessions in interfaces.py, and the state of InMemoryInterfaceRepository
-- that is about them. A channel is its name; an instant is a text that nothing compares.
use reckoning.Prelude.{ℕ, String, Bool, true, false, Option, List}
use reckoning.Prelude.Dict.{Dict}
use reckoning.Prelude.Pairs.{Pairs}

pub data MessageRole : Type 0 where
  user assistant : MessageRole

pub record ChannelMessage : Type 0 where
  pub role : MessageRole
  pub content : String

pub data SessionOrigin : Type 0 where
  first_use user_created legacy : SessionOrigin

pub record ChannelSession : Type 0 where
  pub channel : String
  pub session_id : String
  pub messages : List ChannelMessage
  pub display_name : Option String
  pub origin : SessionOrigin
  pub created_at : Option String
  pub last_activity_at : Option String
  pub revision : ℕ

pub record ChannelSelection : Type 0 where
  pub channel : String
  pub selected_session_id : String
  pub revision : ℕ

-- ContextStatus of conversation.py
pub record ContextStatus : Type 0 where
  pub used : List String
  pub unavailable : List String
  pub excluded : List String
  pub truncated : List String

pub data TurnState : Type 0 where
  pending completed failed : TurnState

pub record ChannelTurn : Type 0 where
  pub turn_id : String
  pub channel : String
  pub session_id : String
  pub user_speech : String
  pub assistant_speech : Option String
  pub state : TurnState
  pub created_at : String
  pub completed_at : Option String
  pub notices : List String
  pub context_status : Option ContextStatus
  pub model_run_id : Option String

pub record Interface : Type 0 where
  pub sessions : List ChannelSession
  pub returning_user : Bool
  pub pending_approvals : List String
  pub session_revisions : Pairs ℕ
  pub selection_revisions : Dict ℕ
  pub selections : Dict String
  pub approval_revisions : Dict ℕ
  pub turns : List ChannelTurn

abbrev pub is_pending : TurnState → Bool
is_pending pending = true
is_pending _ = false

abbrev pub is_first_use : SessionOrigin → Bool
is_first_use first_use = true
is_first_use _ = false
