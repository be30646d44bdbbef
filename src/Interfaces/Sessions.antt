-- ===== src/Interfaces/Sessions.antt =====
-- The sessions of InMemoryInterfaceRepository in interfaces.py. What `uuid4` gives for a new
-- session, and the instant of the clock, are arguments.
use reckoning.Prelude.{
  ℕ, ◌+◌, String, Bool, true, false, not, ◌&&◌, ◌||◌, Option, none, some, List, [], ◌∷◌, ◌++◌,
  str_eq, ◌==◌, first, keep, any, if◌then◌else◌,
}
use reckoning.Prelude.Dict
use reckoning.Prelude.Pairs
use reckoning.Prelude.Pairs.{same_key}
use reckoning.Prelude.Result.{ok, err, key_error, conflict, Action}
use reckoning.Interfaces.Records.{
  ChannelMessage, user, assistant, SessionOrigin, first_use, user_created, ChannelSession,
  ChannelSelection, Interface, is_first_use,
}

-- session.channel == channel and session.session_id == session_id
abbrev pub is_session : String → String → ChannelSession → Bool
is_session channel session_id s = same_key s.channel s.session_id channel session_id

-- d.get(key, 0)
abbrev pub or_zero : Option ℕ → ℕ
or_zero none = 0
or_zero (some n) = n

-- ChannelSession(channel, session_id) with its defaults
abbrev pub new_session : String → String → ChannelSession
new_session channel session_id = record {
  channel = channel;
  session_id = session_id;
  messages = [];
  display_name = none;
  origin = user_created;
  created_at = none;
  last_activity_at = none;
  revision = 0;
}

abbrev pub session_or_new : String → String → Option ChannelSession → ChannelSession
session_or_new channel session_id none = new_session channel session_id
session_or_new channel session_id (some s) = s

-- _find_session
unfoldable pub find_session : List ChannelSession → String → String → ChannelSession
find_session sessions channel session_id =
    session_or_new channel session_id (first (is_session channel session_id) sessions)

unfoldable pub create_session :
    String
    → String
    → Option String
    → SessionOrigin
    → String
    → Interface
    → ChannelSession × Interface
create_session id channel display_name origin created_at r =
    let s = record (new_session channel id) {
      display_name = display_name;
      origin = origin;
      created_at = some created_at;
      last_activity_at = some created_at;
      revision = 1;
    } in
    (
      s,
      record r {
        sessions = r.sessions ++ (s ∷ []);
        session_revisions = Pairs.put channel id 1 r.session_revisions;
      },
    )

unfoldable pub list_sessions : String → Interface → List ChannelSession
list_sessions channel r = keep (λ (s : ChannelSession). str_eq s.channel channel) r.sessions

unfoldable pub selection_revision : String → Interface → ℕ
selection_revision channel r = or_zero (Dict.get channel r.selection_revisions)

-- the selection of a channel under its next revision
unfoldable pub set_selection : String → String → Interface → ChannelSelection × Interface
unfolding selection_revision
set_selection channel session_id r =
    let next = selection_revision channel r + 1 in
    (
      record { channel = channel; selected_session_id = session_id; revision = next },
      record r {
        selections = Dict.put channel session_id r.selections;
        selection_revisions = Dict.put channel next r.selection_revisions;
      },
    )

unfoldable pub select_session : String → String → ℕ → Action Interface ChannelSelection
unfolding set_selection
select_session channel session_id expected r =
    if not (any (is_session channel session_id) r.sessions)
    then (err (key_error "Unknown session"), r)
    else if not (selection_revision channel r == expected)
    then (err (conflict "Interface session changed."), r)
    else (let (chosen, r') = set_selection channel session_id r in (ok chosen, r'))

selected : String → ℕ → Option String → Option ChannelSelection
selected channel revision none = none
selected channel revision (some session_id) =
    some (record { channel = channel; selected_session_id = session_id; revision = revision })

unfoldable pub get_selected_session : String → Interface → Option ChannelSelection
unfolding selected
get_selected_session channel r =
    selected channel (selection_revision channel r) (Dict.get channel r.selections)

abbrev named : Option String → String
named none = "First conversation"
named (some name) = if str_eq name "" then "First conversation" else name

first_session :
    String
    → String
    → Option String
    → String
    → Option ChannelSession
    → Interface
    → ChannelSession × Interface
first_session id channel display_name now (some existing) r = (existing, r)
first_session id channel display_name now none r =
    create_session id channel (some (named display_name)) first_use now r

unfoldable pub start_first_session :
    String → String → Option String → String → Interface → ChannelSession × Interface
unfolding first_session create_session
start_first_session id channel display_name now r =
    first_session id channel display_name now
      (first (λ (s : ChannelSession). str_eq s.channel channel && is_first_use s.origin) r.sessions)
      r

-- expected is not None and actual != expected
abbrev pub differs : Option ℕ → ℕ → Bool
differs none actual = false
differs (some expected) actual = not (actual == expected)

unfoldable pub create_and_select_session :
    String
    → String
    → Option String
    → SessionOrigin
    → String
    → Option ℕ
    → Action Interface (ChannelSession × ChannelSelection)
unfolding create_session set_selection
create_and_select_session id channel display_name origin created_at expected r =
    if differs expected (selection_revision channel r)
    then (err (conflict "Interface session changed."), r)
    else (let (s, r') = create_session id channel display_name origin created_at r in
        let (chosen, r'') = set_selection channel id r' in (ok (s, chosen), r''))

unfoldable pub session_revision : String → String → Interface → ℕ
session_revision channel session_id r = or_zero (Pairs.get channel session_id r.session_revisions)

-- the session with more messages, under its next revision
unfoldable pub add_messages :
    String → String → List ChannelMessage → Bool → String → Interface → ChannelSession × Interface
unfolding find_session
add_messages channel session_id messages returning now r =
    let existing = find_session r.sessions channel session_id in
    let next = session_revision channel session_id r + 1 in
    let s = record existing {
      messages = existing.messages ++ messages;
      last_activity_at = some now;
      revision = next;
    } in
    (
      s,
      record r {
        sessions =
            keep (λ (x : ChannelSession). not (is_session channel session_id x)) r.sessions
            ++ (s ∷ []);
        returning_user = r.returning_user || returning;
        session_revisions = Pairs.put channel session_id next r.session_revisions;
      },
    )

unfoldable pub append_messages :
    String → String → List ChannelMessage → ℕ → Bool → String → Action Interface ChannelSession
append_messages channel session_id messages expected returning now r =
    if not (session_revision channel session_id r == expected)
    then (err (conflict "Interface session changed."), r)
    else (let (s, r') = add_messages channel session_id messages returning now r in (ok s, r'))

abbrev pub exchange : String → String → List ChannelMessage
exchange user_text assistant_text =
    record { role = user; content = user_text }
    ∷ record { role = assistant; content = assistant_text }
    ∷ []

unfoldable pub append_completed_turn :
    String → String → String → String → ℕ → String → Action Interface ChannelSession
append_completed_turn channel session_id user_text assistant_text expected now r =
    append_messages channel session_id (exchange user_text assistant_text) expected true now r

unfoldable pub add_pending_approval : String → Interface → Interface
add_pending_approval id r = if Dict.has id r.approval_revisions then r else record r {
  pending_approvals = r.pending_approvals ++ (id ∷ []);
  approval_revisions = Dict.put id 1 r.approval_revisions;
}

-- del d[k]
unfoldable pub delete : {V : Type 0} → String → Dict.Dict V → Dict.Dict V
delete k [] = []
delete k ((j, v) ∷ d) = let rest = delete k d in if str_eq j k then rest else (j, v) ∷ rest

resolve_found : String → Option ℕ → Option ℕ → Action Interface Bool
unfolding delete
resolve_found id expected none r = (ok false, r)
resolve_found id expected (some actual) r =
    if differs expected actual then (err (conflict "Interface projection changed."), r) else (
      ok true,
      record r {
        pending_approvals = keep (λ (x : String). not (str_eq x id)) r.pending_approvals;
        approval_revisions = delete id r.approval_revisions;
      },
    )

unfoldable pub resolve_approval : String → Option ℕ → Action Interface Bool
unfolding resolve_found
resolve_approval id expected r = resolve_found id expected (Dict.get id r.approval_revisions) r
