-- ===== src/Interfaces/Tests.antt =====
-- Runs and witnesses of the sessions, the turns and the placement policy.
use reckoning.Prelude.{
  ◌≡◌, refl, String, Option, none, some, List, [], ◌∷◌, Bool, true, false, not, ◌&&◌, all,
  if◌then◌else◌,
}
use reckoning.Prelude.Dict
use reckoning.Prelude.Pairs
use reckoning.Prelude.Result.{ok, err, value_error, conflict}
use reckoning.Interfaces.Records.{ChannelSession, ChannelTurn, Interface, user_created, pending}
use reckoning.Interfaces.Sessions.{
  create_session, append_messages, append_completed_turn, exchange, session_revision,
  session_or_new, or_zero, resolve_approval, add_pending_approval, select_session,
  get_selected_session, find_session,
}
use reckoning.Interfaces.Turns.{complete_turn, completed_by, fail_turn, find_turn, reserve_turn}
use reckoning.Interfaces.Placement.{
  PlacementPolicy, SourcePlacement, private, local, server, available, limited, blocked,
  new_placement, nodes_available, node_available, usable, evaluate,
}
use reckoning.Interfaces.Placement.Decides.{listed, evaluate-decides, private_stays_local}
use reckoning.Interfaces.Calls.{Call, on_complete, on_fail, on_append, steps}
use reckoning.Interfaces.Calls.Settled.{settled_forever}
use reckoning.Interfaces.Calls.Spoken.{Extends, steps-Extends}

abbrev turn : ChannelTurn
turn = record {
  turn_id = "t1";
  channel = "web";
  session_id = "s1";
  user_speech = "hello";
  assistant_speech = none;
  state = pending;
  created_at = "mon";
  completed_at = none;
  notices = [];
  context_status = none;
  model_run_id = none;
}

abbrev session : ChannelSession
session = record {
  channel = "web";
  session_id = "s1";
  messages = [];
  display_name = none;
  origin = user_created;
  created_at = some "mon";
  last_activity_at = some "mon";
  revision = 1;
}

abbrev reserved : Interface
reserved = record {
  sessions = session ∷ [];
  returning_user = false;
  pending_approvals = [];
  session_revisions = ("web", "s1", 2) ∷ [];
  selection_revisions = [];
  selections = [];
  approval_revisions = [];
  turns = turn ∷ [];
}

abbrev done : ChannelTurn
done = completed_by "hi" [] none none "tue" turn

abbrev settled : Interface
settled = record reserved { turns = done ∷ [] }

abbrev calls : List Call
calls =
    on_append "web" "s1" (exchange "and" "so") 2 true "wed"
    ∷ on_fail "t1" "thu"
    ∷ on_complete "web" "s1" "t1" "again" [] none none "fri"
    ∷ []

reserves :
    (reserve_turn "web" "s1" "hello" "t1" 1 "mon"
      (record reserved { turns = []; session_revisions = ("web", "s1", 1) ∷ [] }))
    ≡ (ok turn, reserved)
unfolding reserve_turn session_revision Pairs.get Pairs.put
reserves = refl

stale :
    (append_completed_turn "web" "s1" "a" "b" 1 "tue" reserved)
    ≡ (err (conflict "Interface session changed."), reserved)
unfolding append_completed_turn append_messages session_revision Pairs.get
stale = refl

resolved_twice :
    let once = (resolve_approval "a1" (some 1) (add_pending_approval "a1" reserved)).1 in
    resolve_approval "a1" none once ≡ (ok false, reserved)
unfolding resolve_approval add_pending_approval Dict.get Dict.put Dict.has
    reckoning.Interfaces.Sessions.delete
resolved_twice = refl

found_done : find_turn "t1" settled.turns ≡ some done
unfolding find_turn
found_done = refl

settled_forever_example :
    let later = steps settled calls in
    (find_turn "t1" later.turns ≡ some done)
    × (complete_turn "web" "s1" "t1" "late" [] none none "sat" later
        ≡ (err (value_error "Turn is not pending."), later))
    × (fail_turn "t1" "sat" later ≡ (err (value_error "Turn is not pending."), later))
settled_forever_example =
    settled_forever "t1" "web" "s1" "late" "sat" [] none none done settled calls found_done refl

steps-Extends_example : Extends "web" "s1" reserved (steps reserved calls)
steps-Extends_example = steps-Extends "web" "s1" reserved calls

abbrev notes : SourcePlacement
notes = record {
  category = "notes";
  sensitivity = private;
  storage_node = local;
  processing_node = local;
  remote_approved = false;
}

abbrev policy : PlacementPolicy
policy = record {
  profile = "hybrid";
  categories =
      notes
      ∷ record notes { category = "mail"; storage_node = server; remote_approved = true }
      ∷ [];
  local_node_available = true;
  server_node_available = false;
  availability_source = none;
}

refuses :
    new_placement (record notes { processing_node = server })
    ≡ err (value_error "Private source categories require explicit remote approval.")
unfolding new_placement reckoning.Prelude.is_blank
refuses = refl

accepted : new_placement notes ≡ ok notes
unfolding new_placement reckoning.Prelude.is_blank
accepted = refl

private_stays_local_example : nodes_available policy notes ≡ node_available policy local
private_stays_local_example = private_stays_local policy notes notes accepted refl refl

evaluate-decides_example :
    let o = evaluate policy ("notes" ∷ "mail" ∷ []) false in
    (o.status ≡ (
      if all (usable policy) ("notes" ∷ "mail" ∷ [])
      then available
      else if false
      then limited
      else blocked))
    × (listed "mail" o.available_categories
        ≡ listed "mail" ("notes" ∷ "mail" ∷ []) && usable policy "mail")
    × (listed "mail" o.unavailable_categories
        ≡ listed "mail" ("notes" ∷ "mail" ∷ []) && not (usable policy "mail"))
evaluate-decides_example = evaluate-decides policy ("notes" ∷ "mail" ∷ []) false "mail"
