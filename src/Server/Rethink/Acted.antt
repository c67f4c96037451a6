-- ===== src/Server/Rethink/Acted.antt =====
-- What the actions of an event make of the event, and the outcomes of the steps that run actions.
use alarmd.Common.{
  Option, none, some, eqb_ℤ, negsuc, ℕ, Bool, not, ◌&&◌, List, [], ◌∷◌, if◌then◌else◌, refl, ◌∙◌,
  arith, ltb, ◌==◌, ap, ap₂, zero, suc, ℤ, pos, pos_part, ltb_ℤ, ◌≡◌, true, false,
}
use alarmd.Event.{
  is_recurring, Event, Action, has, set_bit, event_disabled, event_connected, event_run_delayed,
  event_postpone_delayed, event_disable_delayed,
}
use alarmd.EventState
use alarmd.Queue.{event_get_state, event_set_state}
use alarmd.Server.{Server, state_get, sf_connected}
use alarmd.Server.Actions
use alarmd.Server.Rethink
use alarmd.Server.Rethink.Outcomes.{Surroundings, surroundings, settle}
use alarmd.Server.Rethink.Pointwise.{Local}

module _ {f g : Surroundings → Event → Event} {b c : Server → ℕ → Server}
    (l : Local surroundings f b) (m : Local surroundings g c) where
  pub Local-then : Local surroundings (λ w e. g w (f w e)) (λ s p. c (b s p) p)
  Local-then = record {
    own = λ s p. m.own (b s p) p ∙ ap₂ g (l.env_kept s p) (l.own s p);
    others = λ s p r n. m.others (b s p) p r n ∙ l.others s p r n;
    env_kept = λ s p. m.env_kept (b s p) p ∙ l.env_kept s p;
  }

  pub Local-if :
      (t : Surroundings → Event → Bool)
      → Local surroundings
          (λ w e. if t w e then f w e else g w e)
          (λ s p. if t (surroundings s) (s.queue.heap p) then b s p else c s p)
  Local-if t = record {
    own = λ s p. ground (arith, l.own s p, m.own s p);
    others = λ s p r n. ground (arith, l.others s p r, m.others s p r);
    env_kept = λ s p. ground (arith, l.env_kept s p, m.env_kept s p);
  }

-- server_action_do_all on the event alone: the other types act on the outside.
pub act_on : Action → Event → Event
act_on a e =
    let e1 =
      if has (Actions.action_get_type a) Actions.type_snooze
      then settle EventState.snoozed e
      else e in
    if has (Actions.action_get_type a) Actions.type_disable
    then record e1 { flags = set_bit e1.flags event_disabled }
    else e1

do_all-Local : (a : Action) → Local surroundings (λ w e. act_on a e) (λ s p. Actions.do_all s p a)
unfolding act_on settle surroundings state_get event_set_state Actions.do_all Actions.do_snooze
    Actions.do_disable Actions.do_dbus Actions.do_exec
do_all-Local a = record {
  own = λ s p. ground arith;
  others = λ s p r n. ground arith;
  env_kept = λ s p. ground arith;
}

-- Every action that is due at `when`, in the order of the table.
pub acted : List Action → ℕ → Event → Event
acted [] when e = e
acted (a ∷ as') when e =
    acted as' when (if has (Actions.action_get_when a) when then act_on a e else e)

stay-Local : Local surroundings (λ w e. e) (λ s p. s)
stay-Local = record { own = λ s p. refl; others = λ s p r n. refl; env_kept = λ s p. refl }

do_actions-Local :
    (acts : List Action) (when : ℕ)
    → Local surroundings (λ w e. acted acts when e) (λ s p. Actions.do_actions acts s p when)
unfolding acted Actions.do_actions
do_actions-Local [] when = stay-Local
do_actions-Local (a ∷ acts) when =
    Local-then (Local-if (do_all-Local a) stay-Local (λ w e. has (Actions.action_get_when a) when))
      (do_actions-Local acts when)

pub do_state_actions-Local :
    (when : ℕ)
    → Local surroundings
        (λ w e. acted e.action_tab when e)
        (λ s p. Actions.do_state_actions s p when)
unfolding Actions.do_state_actions
do_state_actions-Local when = record {
  own = λ s p. (do_actions-Local (s.queue.heap p).action_tab when).own s p;
  others = λ s p. (do_actions-Local (s.queue.heap p).action_tab when).others s p;
  env_kept = λ s p. (do_actions-Local (s.queue.heap p).action_tab when).env_kept s p;
}

set_state-Local :
    (state : ℕ) → Local surroundings (λ w e. settle state e) (λ s p. Actions.set_state s p state)
unfolding settle surroundings event_set_state state_get
set_state-Local state = record {
  own = λ s p. ground arith;
  others = λ s p r n. ground arith;
  env_kept = λ s p. refl;
}

disable-Local :
    Local surroundings
      (λ w e. record e { flags = set_bit e.flags event_disabled })
      (λ s p.
        Actions.write_event s p
          (record (s.queue.heap p) { flags = set_bit (s.queue.heap p).flags event_disabled }))
unfolding surroundings state_get
disable-Local = record {
  own = λ s p. ground arith;
  others = λ s p r n. ground arith;
  env_kept = λ s p. refl;
}

-- A new event waits for the connection that it needs, or is queued and runs its actions.
pub after_new : Surroundings → Event → Event
after_new w e =
    if has e.flags event_connected && not (has w.flags sf_connected)
    then settle EventState.waitconn e
    else (let q = settle EventState.queued e in acted q.action_tab Actions.when_queued q)

pub new-Local : Local surroundings after_new Rethink.new_body
unfolding after_new Rethink.new_body surroundings
new-Local =
    Local-if (set_state-Local EventState.waitconn)
      (Local-then (set_state-Local EventState.queued) (do_state_actions-Local Actions.when_queued))
      (λ w e. has e.flags event_connected && not (has w.flags sf_connected))

-- A missed event runs its actions, and goes on by the first of its three flags that is set.
pub after_missed : Surroundings → Event → Event
after_missed w e0 =
    let e = acted e0.action_tab Actions.when_delayed e0 in
    if has e.flags event_run_delayed
    then settle EventState.limbo e
    else if has e.flags event_postpone_delayed
    then settle EventState.postponed e
    else if has e.flags event_disable_delayed
    then (let d : Event = record e { flags = set_bit e.flags event_disabled } in
        acted d.action_tab Actions.when_disabled d)
    else settle EventState.served e

disable_missed-Local :
    Local surroundings
      (λ w e.
        let d : Event = record e { flags = set_bit e.flags event_disabled } in
        acted d.action_tab Actions.when_disabled d)
      Rethink.disable_missed
unfolding Rethink.disable_missed
disable_missed-Local = Local-then disable-Local (do_state_actions-Local Actions.when_disabled)

pub missed-Local : Local surroundings after_missed Rethink.missed_body
unfolding after_missed Rethink.missed_body
missed-Local = Local-then (do_state_actions-Local Actions.when_delayed) (
    Local-if (set_state-Local EventState.limbo)
      (Local-if (set_state-Local EventState.postponed)
        (Local-if disable_missed-Local (set_state-Local EventState.served)
          (λ w e. has e.flags event_disable_delayed))
        (λ w e. has e.flags event_postpone_delayed))
      (λ w e. has e.flags event_run_delayed))

-- A triggered event runs its actions; then it waits for the dialog, stays snoozed, or is served.
unfoldable pub after_triggered : Surroundings → Event → Event
after_triggered w e0 =
    let e = acted e0.action_tab Actions.when_triggered e0 in
    if ltb 0 (Actions.count_buttons e.action_tab)
    then settle EventState.waitsysui e
    else if event_get_state e == EventState.snoozed
    then e
    else settle EventState.served e

pub triggered-Local : Local surroundings after_triggered Rethink.triggered_body
unfolding after_triggered Rethink.triggered_body
triggered-Local = Local-then (do_state_actions-Local Actions.when_triggered) (
    Local-if (set_state-Local EventState.waitsysui)
      (Local-if stay-Local (set_state-Local EventState.served)
        (λ w e. event_get_state e == EventState.snoozed))
      (λ w e. ltb 0 (Actions.count_buttons e.action_tab)))

-- The action of the button that was pressed, if it is due on a response
pub acted_response : Option Action → Event → Event
acted_response none e = e
acted_response (some a) e =
    if has (Actions.action_get_when a) Actions.when_responded then act_on a e else e

respond-Local :
    (o : Option Action)
    → Local surroundings (λ w e. acted_response o e) (λ s p. Actions.respond s p o)
unfolding acted_response Actions.respond
respond-Local none = stay-Local
respond-Local (some a) =
    Local-if (do_all-Local a) stay-Local
      (λ w e. has (Actions.action_get_when a) Actions.when_responded)

behind : ℕ → List Action → List Action
behind zero acts = acts
behind (suc i) [] = []
behind (suc i) (a ∷ acts) = behind i acts

first : List Action → Option Action
first [] = none
first (a ∷ acts) = some a

-- The action of the button with the number: the first of those behind as many others
pub pressed : Event → Option Action
pressed e =
    if ltb_ℤ e.response (pos 0) then none else first (behind (pos_part e.response) e.action_tab)

nth_action-behind : (acts : List Action) (i : ℕ) → Actions.nth_action acts i ≡ first (behind i acts)
unfolding Actions.nth_action behind first
nth_action-behind [] zero = refl
nth_action-behind [] (suc i) = refl
nth_action-behind (a ∷ acts) zero = refl
nth_action-behind (a ∷ acts) (suc i) = nth_action-behind acts i

response_action-first :
    (acts : List Action) (n : ℤ)
    → Actions.response_action acts n
      ≡ (if ltb_ℤ n (pos 0) then none else first (behind (pos_part n) acts))
unfolding Actions.response_action
response_action-first acts (pos i) =
    let small : ltb_ℤ (pos i) (pos 0) ≡ false = ground arith in rw small (nth_action-behind acts i)
response_action-first acts (negsuc i) =
    let below : ltb_ℤ (negsuc i) (pos 0) ≡ true = ground arith in rw below refl

pub do_response_actions-pressed :
    (s : Server) (p : ℕ)
    → Actions.do_response_actions s p ≡ Actions.respond s p (pressed (s.queue.heap p))
unfolding Actions.do_response_actions pressed
do_response_actions-pressed s p =
    ap (Actions.respond s p)
      (response_action-first (s.queue.heap p).action_tab (s.queue.heap p).response)

do_response_actions-Local :
    Local surroundings (λ w e. acted_response (pressed e) e) Actions.do_response_actions
do_response_actions-Local = record {
  own = λ s p.
      ap (λ t. t.queue.heap p) (do_response_actions-pressed s p)
      ∙ (respond-Local (pressed (s.queue.heap p))).own s p;
  others = λ s p r n.
      ap (λ t. t.queue.heap r) (do_response_actions-pressed s p)
      ∙ (respond-Local (pressed (s.queue.heap p))).others s p r n;
  env_kept = λ s p.
      ap surroundings (do_response_actions-pressed s p)
      ∙ (respond-Local (pressed (s.queue.heap p))).env_kept s p;
}

-- An answered event is disabled if no button was pressed and its flags ask for that; otherwise the
-- action of the button runs, and the event is served unless that has snoozed it.
pub after_response : Surroundings → Event → Event
after_response w e0 =
    if eqb_ℤ e0.response (negsuc 0) && has e0.flags event_disable_delayed && not (is_recurring e0)
    then record e0 { flags = set_bit e0.flags event_disabled }
    else (let e = acted_response (pressed e0) e0 in
        if event_get_state e == EventState.snoozed then e else settle EventState.served e)

pub sysui_rsp-Local : Local surroundings after_response Rethink.sysui_rsp_body
unfolding after_response Rethink.sysui_rsp_body Rethink.response_body
sysui_rsp-Local =
    Local-if disable-Local
      (Local-then do_response_actions-Local (
        Local-if stay-Local (set_state-Local EventState.served)
          (λ w e. event_get_state e == EventState.snoozed)))
      (λ w e.
        eqb_ℤ e.response (negsuc 0) && has e.flags event_disable_delayed && not (is_recurring e))
