-- ===== src/Server/Rethink/Outcomes.antt =====
-- What the steps of the state machine make of an event, as functions on the event.
use alarmd.Common.{
  ℕ, Bool, not, ◌&&◌, ◌||◌, ℤ, pos, ◌+ℤ◌, ◌-ℤ◌, ltb_ℤ, leb_ℤ, eqb_ℤ, if◌then◌else◌, refl, arith,
}
use alarmd.Event.{Text, Event, has, is_recurring, event_actdead, event_connected}
use alarmd.EventState
use alarmd.Queue.{event_get_state, event_set_state, event_set_trigger, filter_state, with_state}
use alarmd.Server.{Server, state_get, sf_connected}
use alarmd.Server.Actions
use alarmd.Server.Rethink
use alarmd.Server.Rethink.Pointwise.{Local}

-- What the steps read besides the event: the time, the server's flags, the default snooze and
-- the time zone.
pub record Surroundings : Type 0 where
  pub now : ℤ
  pub flags : ℕ
  pub snooze : ℕ
  pub tz : Text

unfoldable pub surroundings : Server → Surroundings
surroundings s = record {
  now = s.rethink_time;
  flags = state_get s;
  snooze = s.queue.snooze;
  tz = s.tz_curr;
}

-- queue_event_set_state on the event alone
unfoldable pub settle : ℕ → Event → Event
settle state e = with_state e (filter_state (event_get_state e) state)

pub snooze_of : ℕ → Event → ℤ
snooze_of default e =
    let snooze = if leb_ℤ e.snooze_secs (pos 0) then pos default else e.snooze_secs in
    if ltb_ℤ snooze (pos 10) then pos 10 else snooze

pub after_snoozed : Surroundings → Event → Event
after_snoozed w e = settle EventState.new (record e {
  trigger = w.now +ℤ snooze_of w.snooze e;
  snooze_total = if eqb_ℤ e.snooze_total (pos 0) then e.trigger else e.snooze_total;
})

pub snoozed-Local : Local surroundings after_snoozed Rethink.snoozed_body
unfolding Rethink.snoozed_body Actions.event_get_snooze snooze_of after_snoozed settle surroundings
    event_set_state event_set_trigger state_get
snoozed-Local = record {
  own = λ s p. ground arith;
  others = λ s p r n. ground arith;
  env_kept = λ s p. refl;
}

pub to_state-Local :
    (state : ℕ) → Local surroundings (λ w e. settle state e) (Rethink.to_state state)
unfolding settle surroundings event_set_state state_get
to_state-Local state = record {
  own = λ s p. ground arith;
  others = λ s p r n. ground arith;
  env_kept = λ s p. refl;
}

unfoldable pub after_queued : Surroundings → Event → Event
after_queued w e =
    if has e.flags event_connected && not (has w.flags sf_connected)
    then settle EventState.waitconn e
    else if ltb_ℤ w.now e.trigger
    then e
    else if ltb_ℤ (pos 59) (w.now -ℤ e.trigger)
    then settle EventState.missed e
    else settle EventState.limbo e

pub queued-Local : Local surroundings after_queued Rethink.queued_body
unfolding Rethink.queued_body Rethink.note_future after_queued settle surroundings event_set_state
    state_get
queued-Local = record {
  own = λ s p. ground arith;
  others = λ s p r n. ground arith;
  env_kept = λ s p. ground arith;
}

-- Postponed alarms that the next day has not reached yet go off at once, others a day later.
pub after_postponed : Surroundings → Event → Event
after_postponed w e =
    let snooze = snooze_of w.snooze e in
    if ltb_ℤ (w.now -ℤ e.trigger -ℤ snooze) Rethink.day
    then settle EventState.limbo e
    else settle EventState.new (record e { trigger = Rethink.postpone w.now snooze e.trigger })

pub postponed-Local : Local surroundings after_postponed Rethink.postponed_body
unfolding Rethink.postponed_body Actions.event_get_snooze snooze_of after_postponed settle
    surroundings event_set_state event_set_trigger state_get
postponed-Local = record {
  own = λ s p. ground arith;
  others = λ s p r n. ground arith;
  env_kept = λ s p. ground arith;
}

unfoldable pub after_limbo : Bool → Surroundings → Event → Event
after_limbo user w e =
    if user || has e.flags event_actdead then settle EventState.triggered e else e

pub limbo-Local : (user : Bool) → Local surroundings (after_limbo user) (Rethink.limbo_body user)
unfolding Rethink.limbo_body after_limbo settle surroundings event_set_state state_get
limbo-Local user = record {
  own = λ s p. ground arith;
  others = λ s p r n. ground arith;
  env_kept = λ s p. ground arith;
}

pub after_served : Surroundings → Event → Event
after_served w e = settle (if is_recurring e then EventState.recurring else EventState.deleted) e

pub served-Local : Local surroundings after_served Rethink.served_body
unfolding Rethink.served_body after_served settle surroundings event_set_state state_get
served-Local = record {
  own = λ s p. ground arith;
  others = λ s p r n. ground arith;
  env_kept = λ s p. ground arith;
}
