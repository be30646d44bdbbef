-- ===== src/Interfaces/Calls/Spoken.antt =====
-- The messages of the sessions: they are only ever added to.
use mathlib.Core.List.{append-nil, append_assoc}
use reckoning.Prelude.{
  ℕ, ◌≡◌, ◌∙◌, ap, refl, sym, String, Bool, true, not, ◌&&◌, Option, some, List, [], ◌∷◌, ◌++◌,
  arith, eq_iff, str_eq, ◌==◌, first, keep, Option-cases, Bool-cases, inl, inr, if◌then◌else◌,
}
use reckoning.Prelude.Pairs
use reckoning.Prelude.Pairs.{same_key}
use reckoning.Interfaces.Records.{
  ChannelMessage, ChannelSession, SessionOrigin, ContextStatus, Interface, is_pending, is_first_use,
  first_use,
}
use reckoning.Interfaces.Sessions.{
  is_session, session_or_new, find_session, add_messages, exchange, session_revision,
  create_session, append_messages, start_first_session, create_and_select_session,
  selection_revision, differs,
}
use reckoning.Interfaces.Turns.{find_turn, complete_turn, completed_by, set_turn}
use reckoning.Interfaces.Calls.{
  Call, on_create, on_start_first, on_create_and_select, on_append, on_complete, step, steps,
}

-- a session that replaces the one of its key, at the end
first-moved :
    (channel id x y : String) (s : ChannelSession) (sessions : List ChannelSession)
    → s.channel ≡ channel
    → s.session_id ≡ id
    → first
        (is_session x y)
        (keep (λ (z : ChannelSession). not (is_session channel id z)) sessions ++ (s ∷ []))
      ≡ (if same_key channel id x y then some s else first (is_session x y) sessions)
first-moved channel id x y s [] e f = ground (arith, e, f)
first-moved channel id x y s (z ∷ zs) e f = ground (
  arith,
  eq_iff z.channel channel,
  eq_iff z.session_id id,
  eq_iff z.channel x,
  eq_iff z.session_id y,
  eq_iff channel x,
  eq_iff id y,
  first-moved channel id x y s zs e f,
)

-- the session that is found has the key that was asked for
find_session-key :
    (sessions : List ChannelSession) (channel id : String)
    → ((find_session sessions channel id).channel ≡ channel)
      × ((find_session sessions channel id).session_id ≡ id)
unfolding find_session
find_session-key [] channel id = (refl, refl)
find_session-key (z ∷ zs) channel id = elim (Bool-cases (is_session channel id z)) [
  | inl e ↦ ground (arith, eq_iff z.channel channel, eq_iff z.session_id id)
  | inr e ↦ rw e (find_session-key zs channel id)
]

-- the messages of a session
unfoldable pub messages_at : String → String → Interface → List ChannelMessage
messages_at channel id r = (find_session r.sessions channel id).messages

add_messages-messages :
    (channel id x y : String) (messages : List ChannelMessage) (returning : Bool) (now : String)
    (r : Interface)
    → messages_at x y (add_messages channel id messages returning now r).1 ≡ (
        if same_key channel id x y then messages_at channel id r ++ messages else messages_at x y r)
unfolding messages_at add_messages find_session
add_messages-messages channel id x y messages returning now r =
    let (c, i) = find_session-key r.sessions channel id in
    let s = (add_messages channel id messages returning now r).0 in
    let moved =
      first-moved channel id x y s r.sessions (unfold add_messages in c)
        (unfold add_messages in i) in
    let shown : Option ChannelSession → List ChannelMessage =
      λ o. (session_or_new x y o).messages in
    ap shown moved
    ∙ (elim (Bool-cases (same_key channel id x y)) [ inl e ↦ rw e refl | inr e ↦ rw e refl ])

-- later messages of a session follow the earlier ones
pub Extends : String → String → Interface → Interface → Type 0
Extends x y r r' = (more : List ChannelMessage) × (messages_at x y r' ≡ messages_at x y r ++ more)

Extends-refl :
    (x y : String) (r r' : Interface) → messages_at x y r' ≡ messages_at x y r → Extends x y r r'
unfolding Extends
Extends-refl x y r r' e = ([], e ∙ sym (append-nil (messages_at x y r)))

Extends-trans :
    (x y : String) (r r' r'' : Interface)
    → Extends x y r r'
    → Extends x y r' r''
    → Extends x y r r''
unfolding Extends
Extends-trans x y r r' r'' (m, e) (n, f) =
    (m ++ n, f ∙ ap (λ (l : List ChannelMessage). l ++ n) e ∙ append_assoc (messages_at x y r) m n)

add_messages-Extends :
    (channel id x y : String) (messages : List ChannelMessage) (returning : Bool) (now : String)
    (r : Interface)
    → Extends x y r (add_messages channel id messages returning now r).1
unfolding Extends
add_messages-Extends channel id x y messages returning now r =
    let at = add_messages-messages channel id x y messages returning now r in
    elim (Bool-cases (same_key channel id x y)) [
      | inl e ↦
          let c : channel ≡ x = ground (arith, eq_iff channel x) in
          let i : id ≡ y = ground (arith, eq_iff id y) in (messages, at ∙ rw e (rw c (rw i refl)))
      | inr e ↦ ([], at ∙ rw e (sym (append-nil (messages_at x y r))))
    ]

-- a new session is at the end, without messages
first-new :
    (x y : String) (s : ChannelSession) (sessions : List ChannelSession)
    → s.messages ≡ []
    → (find_session (sessions ++ (s ∷ [])) x y).messages ≡ (find_session sessions x y).messages
unfolding find_session
first-new x y s [] e = ground (arith, e)
first-new x y s (z ∷ zs) e = ground (arith, first-new x y s zs e)

create-Extends :
    (x y id channel : String) (name : Option String) (origin : SessionOrigin) (at : String)
    (r : Interface)
    → Extends x y r (create_session id channel name origin at r).1
create-Extends x y id channel name origin at r =
    let (s, r') = create_session id channel name origin at r in
    Extends-refl x y r r' (unfold messages_at create_session in first-new x y s r.sessions refl)

start_first-Extends :
    (x y id channel : String) (name : Option String) (now : String) (r : Interface)
    → Extends x y r (start_first_session id channel name now r).1
unfolding start_first_session
start_first-Extends x y id channel name now r =
    elim (Option-cases (
      first (λ (s : ChannelSession). str_eq s.channel channel && is_first_use s.origin)
        r.sessions)) [
          | inl n ↦ rw n (create-Extends x y id channel _ first_use now r)
          | inr (s, e) ↦ rw e (Extends-refl x y r r refl)
        ]

create_and_select-Extends :
    (x y id channel : String) (name : Option String) (origin : SessionOrigin) (at : String)
    (expected : Option ℕ) (r : Interface)
    → Extends x y r (create_and_select_session id channel name origin at expected r).1
unfolding create_and_select_session Extends messages_at
create_and_select-Extends x y id channel name origin at expected r =
    elim (Bool-cases (differs expected (selection_revision channel r))) [
      | inl d ↦ rw d (Extends-refl x y r r refl)
      | inr d ↦ rw d (create-Extends x y id channel name origin at r)
    ]

append-Extends :
    (x y channel id : String) (messages : List ChannelMessage) (expected : ℕ) (returning : Bool)
    (now : String) (r : Interface)
    → Extends x y r (append_messages channel id messages expected returning now r).1
unfolding append_messages
append-Extends x y channel id messages expected returning now r =
    elim (Bool-cases (session_revision channel id r == expected)) [
      | inl same ↦ rw same (add_messages-Extends channel id x y messages returning now r)
      | inr apart ↦ rw apart (Extends-refl x y r r refl)
    ]

complete-Extends :
    (x y channel id turn_id speech now : String) (notices : List String)
    (status : Option ContextStatus) (run_id : Option String) (r : Interface)
    → Extends x y r (complete_turn channel id turn_id speech notices status run_id now r).1
unfolding complete_turn Extends messages_at
complete-Extends x y channel id turn_id speech now notices status run_id r =
    elim (Option-cases (find_turn turn_id r.turns)) [
      | inl n ↦ rw n (Extends-refl x y r r refl)
      | inr (t, e) ↦ elim (Bool-cases (is_pending t.state)) [
        | inr settled ↦ rw e (rw settled (Extends-refl x y r r refl))
        | inl p ↦ rw e (
            rw p (
              add_messages-Extends channel id x y (exchange t.user_speech speech) true now
                (record r {
                  turns =
                      set_turn turn_id (completed_by speech notices status run_id now t) r.turns;
                })))
      ]
    ]

step-Extends : (x y : String) (r : Interface) (c : Call) → Extends x y r (step r c)
unfolding step
step-Extends x y r (on_create id channel name origin at) =
    create-Extends x y id channel name origin at r
step-Extends x y r (on_start_first id channel name now) =
    start_first-Extends x y id channel name now r
step-Extends x y r (on_create_and_select id channel name origin at expected) =
    create_and_select-Extends x y id channel name origin at expected r
step-Extends x y r (on_append channel id messages expected returning now) =
    append-Extends x y channel id messages expected returning now r
step-Extends x y r (on_complete channel id turn_id speech notices status run_id now) =
    complete-Extends x y channel id turn_id speech now notices status run_id r
step-Extends x y r _ = Extends-refl x y r _ (unfold messages_at in grind arith)

-- Whatever the calls of `Call`, the messages of each session stay in their order, and what is
-- added to them comes after them.
pub steps-Extends : (x y : String) (r : Interface) (cs : List Call) → Extends x y r (steps r cs)
unfolding steps
steps-Extends x y r [] = Extends-refl x y r r refl
steps-Extends x y r (c ∷ cs) =
    Extends-trans x y r (step r c) (steps (step r c) cs) (step-Extends x y r c)
      (steps-Extends x y (step r c) cs)
