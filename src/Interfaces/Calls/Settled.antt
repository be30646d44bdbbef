-- ===== src/Interfaces/Calls/Settled.antt =====
-- A turn that was completed or failed.
use reckoning.Prelude.{
  ℕ, ◌≡◌, ◌∙◌, ◌⊎◌, ap, refl, String, Bool, false, Option, some, List, [], ◌∷◌, ◌++◌, arith, eq_iff,
  str_eq, ◌==◌, first, Option-cases, Bool-cases, inl, inr, subst,
}
use reckoning.Prelude.Result.{err, value_error}
use reckoning.Interfaces.Records.{ChannelTurn, ContextStatus, Interface, is_pending}
use reckoning.Interfaces.Turns.{
  reserve_turn, find_turn, set_turn, complete_turn, fail_turn, completed_by, failed_at,
}
use reckoning.Interfaces.Sessions.{add_messages, session_revision}
use reckoning.Interfaces.Calls.{Call, on_reserve, on_complete, on_fail, step, steps}

first-append :
    {A : Type 0} (p : A → Bool) (xs ys : List A) (x : A)
    → first p xs ≡ some x
    → first p (xs ++ ys) ≡ some x
first-append p [] ys x h = absurd (cc)
first-append p (y ∷ xs) ys x h = ground (arith, first-append p xs ys x)

-- writing a turn leaves the turns with other ids
find-set_turn :
    (turn_id other : String) (t : ChannelTurn) (turns : List ChannelTurn)
    → t.turn_id ≡ turn_id
    → str_eq turn_id other ≡ false
    → find_turn other (set_turn turn_id t turns) ≡ find_turn other turns
unfolding find_turn set_turn
find-set_turn turn_id other t [] e h = refl
find-set_turn turn_id other t (x ∷ xs) e h = ground (
  arith,
  eq_iff x.turn_id turn_id,
  eq_iff t.turn_id other,
  eq_iff x.turn_id other,
  eq_iff turn_id other,
  find-set_turn turn_id other t xs,
)

find-set_turn_self :
    (turn_id : String) (t found : ChannelTurn) (turns : List ChannelTurn)
    → t.turn_id ≡ turn_id
    → find_turn turn_id turns ≡ some found
    → find_turn turn_id (set_turn turn_id t turns) ≡ some t
unfolding find_turn set_turn
find-set_turn_self turn_id t found [] e h = absurd (cc)
find-set_turn_self turn_id t found (x ∷ xs) e h = ground (
  arith,
  eq_iff x.turn_id turn_id,
  eq_iff t.turn_id turn_id,
  find-set_turn_self turn_id t found xs,
)

find_turn-id :
    (turn_id : String) (turns : List ChannelTurn) (t : ChannelTurn)
    → find_turn turn_id turns ≡ some t
    → t.turn_id ≡ turn_id
unfolding find_turn
find_turn-id turn_id [] t h = absurd (cc)
find_turn-id turn_id (x ∷ xs) t h = elim (Bool-cases (str_eq x.turn_id turn_id)) [
  | inl e ↦ ground (arith, eq_iff x.turn_id turn_id)
  | inr e ↦ find_turn-id turn_id xs t (ground arith)
]

-- the turn with an id is settled
Settled : String → ChannelTurn → Interface → Type 0
Settled turn_id t r = (find_turn turn_id r.turns ≡ some t) × (is_pending t.state ≡ false)

module _ (turn_id : String) (t : ChannelTurn) (r : Interface) (s : Settled turn_id t r) where
  -- a settled turn is neither completed nor failed again
  complete-Settled :
      (channel id speech now : String) (notices : List String) (status : Option ContextStatus)
      (run_id : Option String)
      → complete_turn channel id turn_id speech notices status run_id now r
        ≡ (err (value_error "Turn is not pending."), r)
  unfolding Settled complete_turn
  complete-Settled channel id speech now notices status run_id = ground (arith, s)

  fail-Settled :
      (now : String) → fail_turn turn_id now r ≡ (err (value_error "Turn is not pending."), r)
  unfolding Settled fail_turn
  fail-Settled now = ground (arith, s)

-- a call that writes the turn with an id at most
Writes : String → Interface → Interface → Type 0
Writes turn_id r r' =
    (r'.turns ≡ r.turns)
    ⊎ ((done : ChannelTurn) × (done.turn_id ≡ turn_id) × (r'.turns ≡ set_turn turn_id done r.turns))

complete-Writes :
    (channel id turn_id speech now : String) (notices : List String) (status : Option ContextStatus)
    (run_id : Option String) (r : Interface)
    → Writes turn_id r (complete_turn channel id turn_id speech notices status run_id now r).1
unfolding Writes complete_turn add_messages
complete-Writes channel id turn_id speech now notices status run_id r =
    elim (Option-cases (find_turn turn_id r.turns)) [
      | inl n ↦ inl (rw n refl)
      | inr (t, e) ↦ elim (Bool-cases (is_pending t.state)) [
        | inr settled ↦ inl (rw e (rw settled refl))
        | inl p ↦ inr (
          completed_by speech notices status run_id now t,
          find_turn-id turn_id r.turns t e,
          rw e (rw p refl),
        )
      ]
    ]

fail-Writes : (turn_id now : String) (r : Interface) → Writes turn_id r (fail_turn turn_id now r).1
unfolding Writes fail_turn
fail-Writes turn_id now r = elim (Option-cases (find_turn turn_id r.turns)) [
  | inl n ↦ inl (rw n refl)
  | inr (t, e) ↦ elim (Bool-cases (is_pending t.state)) [
    | inr settled ↦ inl (rw e (rw settled refl))
    | inl p ↦ inr (failed_at now t, find_turn-id turn_id r.turns t e, rw e (rw p refl))
  ]
]

Writes-find :
    (turn_id other : String) (r r' : Interface)
    → Writes turn_id r r'
    → str_eq turn_id other ≡ false
    → find_turn other r'.turns ≡ find_turn other r.turns
unfolding Writes
Writes-find turn_id other r r' (inl same) apart = ap (find_turn other) same
Writes-find turn_id other r r' (inr (done, e, put)) apart =
    ap (find_turn other) put ∙ find-set_turn turn_id other done r.turns e apart

complete_other :
    (turn_id other channel id speech now : String) (notices : List String)
    (status : Option ContextStatus) (run_id : Option String) (t : ChannelTurn) (r : Interface)
    → Settled turn_id t r
    → find_turn turn_id (complete_turn channel id other speech notices status run_id now r).1.turns
      ≡ some t
complete_other turn_id other channel id speech now notices status run_id t r s =
    elim (Bool-cases (str_eq other turn_id)) [
      | inl same ↦
          let e : turn_id ≡ other = ground (arith, eq_iff other turn_id) in
          subst
            (λ (x : String).
              find_turn turn_id
                (complete_turn channel id x speech notices status run_id now r).1.turns
              ≡ some t)
            e
            (ap (λ x. find_turn turn_id x.1.turns)
                (complete-Settled turn_id t r s channel id speech now notices status run_id)
              ∙ (unfold Settled in s.0))
      | inr apart ↦
          Writes-find other turn_id r _
            (complete-Writes channel id other speech now notices status run_id r) apart
          ∙ (unfold Settled in s.0)
    ]

fail_other :
    (turn_id other now : String) (t : ChannelTurn) (r : Interface)
    → Settled turn_id t r
    → find_turn turn_id (fail_turn other now r).1.turns ≡ some t
fail_other turn_id other now t r s = elim (Bool-cases (str_eq other turn_id)) [
  | inl same ↦
      let e : turn_id ≡ other = ground (arith, eq_iff other turn_id) in
      subst (λ (x : String). find_turn turn_id (fail_turn x now r).1.turns ≡ some t) e
        (ap (λ x. find_turn turn_id x.1.turns) (fail-Settled turn_id t r s now)
          ∙ (unfold Settled in s.0))
  | inr apart ↦
      Writes-find other turn_id r _ (fail-Writes other now r) apart ∙ (unfold Settled in s.0)
]

reserve_other :
    (turn_id other channel id speech now : String) (expected : ℕ) (t : ChannelTurn) (r : Interface)
    → find_turn turn_id r.turns ≡ some t
    → find_turn turn_id (reserve_turn channel id speech other expected now r).1.turns ≡ some t
unfolding reserve_turn find_turn
reserve_other turn_id other channel id speech now expected t r h =
    elim (Bool-cases (session_revision channel id r == expected)) [
      | inl same ↦ rw same (first-append _ r.turns _ t h)
      | inr apart ↦ rw apart h
    ]

step-Settled :
    (turn_id : String) (t : ChannelTurn) (r : Interface) (c : Call)
    → Settled turn_id t r
    → Settled turn_id t (step r c)
unfolding Settled step
step-Settled turn_id t r (on_complete channel id other speech notices status run_id now) s =
    (complete_other turn_id other channel id speech now notices status run_id t r s, s.1)
step-Settled turn_id t r (on_fail other now) s = (fail_other turn_id other now t r s, s.1)
step-Settled turn_id t r (on_reserve channel id speech other expected now) s =
    (reserve_other turn_id other channel id speech now expected t r s.0, s.1)
step-Settled turn_id t r _ s = (grind (arith, s), s.1)

steps-Settled :
    (turn_id : String) (t : ChannelTurn) (r : Interface) (cs : List Call)
    → Settled turn_id t r
    → Settled turn_id t (steps r cs)
unfolding steps
steps-Settled turn_id t r [] s = s
steps-Settled turn_id t r (c ∷ cs) s =
    steps-Settled turn_id t (step r c) cs (step-Settled turn_id t r c s)

-- Once a turn is completed or failed, and whatever calls of `Call` follow, it stays the turn of
-- its id as it is, and completing it or failing it raises and changes nothing.
pub settled_forever :
    (turn_id channel id speech now : String) (notices : List String) (status : Option ContextStatus)
    (run_id : Option String) (t : ChannelTurn) (r : Interface) (cs : List Call)
    → find_turn turn_id r.turns ≡ some t
    → is_pending t.state ≡ false
    → let later = steps r cs in
      (find_turn turn_id later.turns ≡ some t)
      × (complete_turn channel id turn_id speech notices status run_id now later
          ≡ (err (value_error "Turn is not pending."), later))
      × (fail_turn turn_id now later ≡ (err (value_error "Turn is not pending."), later))
settled_forever turn_id channel id speech now notices status run_id t r cs h p =
    let s = steps-Settled turn_id t r cs (unfold Settled in (h, p)) in
    (
      (unfold Settled in s.0),
      complete-Settled turn_id t (steps r cs) s channel id speech now notices status run_id,
      fail-Settled turn_id t (steps r cs) s now,
    )
