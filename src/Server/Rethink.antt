-- ===== src/Server/Rethink.antt =====
-- The server_rethink_* steps of src/server.c, each over the cookies of the events in one state.
-- A step gives `none` if it dereferences the NULL of a failed queue_get_event. Log lines, and the
-- time zone work that only feeds them, are left out.
pub mod Safe
pub mod Pointwise
pub mod Outcomes
pub mod Acted
pub mod Said
pub mod Told
pub mod Steps
pub mod Speaks
pub mod Stages
pub mod Recurring
pub mod Rescheduled
pub mod TimeChange
pub mod Rounds
pub mod GoesOff
use alarmd.Common.{
  ℕ, suc, ◌+◌, ◌*◌, ◌%◌, Bool, not, ◌&&◌, ◌||◌, ltb, List, [], ◌∷◌, Option, none, some, ℤ, pos,
  negsuc, ltb_ℤ, eqb_ℤ, if◌then◌else◌, ◌==◌, ◌+ℤ◌, ◌-ℤ◌, pos_part, neg_part, sub_ℕ,
}
use alarmd.Event.{
  Event, has, set_bit, event_disabled, event_boot, event_actdead, event_connected, event_show_icon,
  event_run_delayed, event_postpone_delayed, event_disable_delayed, is_recurring,
}
use alarmd.EventState
use alarmd.Queue.{event_get_state, event_set_trigger}
use alarmd.Queue.Query.{query_by_state, int_max}
use alarmd.Server.{
  Server, QueueState, Effect, add_dialog, cancel_dialog, hw_alarm, state_get, sf_connected,
  sf_systemui_up, sf_act_dead, sf_desktop_up, with_queue, emit, request_wakeup, time_filt,
  for_events,
}
use alarmd.Server.Actions.{
  when_queued, when_triggered, when_deleted, when_disabled, when_delayed, write_event, set_state,
  do_state_actions, do_response_actions, boot_mask, event_get_snooze, count_buttons,
}

-- The event at `p`, as it is now.
abbrev pub event_at : Server → ℕ → Event
event_at s p = s.queue.heap p

abbrev pub sf : Server → ℕ → Bool
sf s bit = has (state_get s) bit

abbrev pub over : ℕ → (Server → ℕ → Server) → Server → Option Server
over state body s = for_events body (query_by_state s.queue state) s

unfoldable pub new_body : Server → ℕ → Server
new_body s p =
    if has (event_at s p).flags event_connected && not (sf s sf_connected)
    then set_state s p EventState.waitconn
    else do_state_actions (set_state s p EventState.queued) p when_queued

unfoldable pub rethink_new : Server → Option Server
rethink_new = over EventState.new new_body

abbrev pub to_state : ℕ → Server → ℕ → Server
to_state state s p = set_state s p state

unfoldable pub rethink_waitconn : Server → Option Server
rethink_waitconn s =
    if sf s sf_connected then over EventState.waitconn (to_state EventState.new) s else some s

-- The bookkeeping for an event that triggers in the future.
unfoldable pub note_future : Server → ℕ → Server
note_future s p =
    let e = event_at s p in
    let qs = s.queuestate in
    let boot = boot_mask e in
    let filtered : QueueState =
      if has boot event_boot
      then record qs { qs_desktop = time_filt qs.qs_desktop e.trigger }
      else if has boot event_actdead
      then record qs { qs_actdead = time_filt qs.qs_actdead e.trigger }
      else record qs { qs_no_boot = time_filt qs.qs_no_boot e.trigger } in
    record s {
      queuestate = filtered;
      icons_curr = if has e.flags event_show_icon then s.icons_curr + 1 else s.icons_curr;
    }

abbrev pub missed_limit : ℤ
missed_limit = pos 59

unfoldable pub queued_body : Server → ℕ → Server
queued_body s p =
    let e = event_at s p in
    if has e.flags event_connected && not (sf s sf_connected)
    then set_state s p EventState.waitconn
    else if ltb_ℤ s.rethink_time e.trigger
    then note_future s p
    else if ltb_ℤ missed_limit (s.rethink_time -ℤ e.trigger)
    then set_state s p EventState.missed
    else set_state s p EventState.limbo

-- The software and the hardware timeout after the loop over the queued events.
unfoldable pub set_timeouts : Server → Server
set_timeouts s =
    let qs = s.queuestate in
    let thw = time_filt (time_filt int_max qs.qs_desktop) qs.qs_actdead in
    let tsw = time_filt (time_filt int_max thw) qs.qs_no_boot in
    let s1 = if ltb_ℤ tsw int_max then request_wakeup s tsw else s in
    let lim = s.rethink_time +ℤ pos 60 in
    let trg = thw -ℤ pos 60 in
    if ltb_ℤ thw int_max then emit s1 (hw_alarm (if ltb_ℤ trg lim then lim else trg)) else s1

unfoldable pub rethink_queued : Server → Option Server
rethink_queued s = elim (over EventState.queued queued_body s) [
  | none ↦ none
  | some s' ↦ some (set_timeouts s')
]

unfoldable pub disable_missed : Server → ℕ → Server
disable_missed s p =
    let e = event_at s p in
    do_state_actions (write_event s p (record e { flags = set_bit e.flags event_disabled })) p
      when_disabled

-- The actions come first; the branches read the event as the actions leave it.
unfoldable pub missed_body : Server → ℕ → Server
missed_body s0 p =
    let s = do_state_actions s0 p when_delayed in
    let flags = (event_at s p).flags in
    if has flags event_run_delayed
    then set_state s p EventState.limbo
    else if has flags event_postpone_delayed
    then set_state s p EventState.postponed
    else if has flags event_disable_delayed
    then disable_missed s p
    else set_state s p EventState.served

unfoldable pub rethink_missed : Server → Option Server
rethink_missed = over EventState.missed missed_body

-- C's `a % n`: the sign is that of `a`.
unfoldable pub rem : ℤ → ℤ → ℤ
rem (pos a) n = pos (a % (pos_part n + neg_part n))
rem (negsuc a) n = sub_ℕ 0 (suc a % (pos_part n + neg_part n))

abbrev pub day : ℤ
day = pos (24 * 60 * 60)

-- The trigger time one day or more ahead, a whole number of snooze periods after the old one.
unfoldable pub postpone : ℤ → ℤ → ℤ → ℤ
postpone now snooze trg =
    let add = now +ℤ day -ℤ trg in
    let pad = rem add snooze in trg +ℤ (if eqb_ℤ pad (pos 0) then add else add -ℤ pad +ℤ snooze)

abbrev pub set_trigger : Server → ℕ → ℤ → Server
set_trigger s p trigger = with_queue s (event_set_trigger s.queue p trigger)

unfoldable pub postponed_body : Server → ℕ → Server
postponed_body s p =
    let e = event_at s p in
    let snooze = event_get_snooze s e in
    if ltb_ℤ (s.rethink_time -ℤ e.trigger -ℤ snooze) day
    then set_state s p EventState.limbo
    else set_state (set_trigger s p (postpone s.rethink_time snooze e.trigger)) p EventState.new

unfoldable pub rethink_postponed : Server → Option Server
rethink_postponed = over EventState.postponed postponed_body

unfoldable pub limbo_body : Bool → Server → ℕ → Server
limbo_body is_user_mode s p =
    if is_user_mode || has (event_at s p).flags event_actdead
    then set_state s p EventState.triggered
    else s

unfoldable pub rethink_limbo : Server → Option Server
rethink_limbo s =
    if sf s sf_desktop_up
    then over EventState.limbo (limbo_body (not (sf s sf_act_dead))) s
    else some s

-- The cookies that the source gathers at the front of `vec` here are not read again.
unfoldable pub triggered_body : Server → ℕ → Server
triggered_body s0 p =
    let s = do_state_actions s0 p when_triggered in
    let e = event_at s p in
    if ltb 0 (count_buttons e.action_tab)
    then set_state s p EventState.waitsysui
    else if event_get_state e == EventState.snoozed
    then s
    else set_state s p EventState.served

unfoldable pub rethink_triggered : Server → Option Server
rethink_triggered = over EventState.triggered triggered_body

-- `if( cnt != 0 ) …` behind a loop
abbrev pub if_any : List ℤ → Effect → Option Server → Option Server
if_any vec e none = none
if_any [] e (some s) = some s
if_any (c ∷ cs) e (some s) = some (emit s e)

unfoldable pub rethink_waitsysui : Server → Option Server
rethink_waitsysui s =
    let vec = query_by_state s.queue EventState.waitsysui in
    if sf s sf_systemui_up
    then if_any vec (add_dialog vec) (for_events (to_state EventState.sysui_req) vec s)
    else some s

unfoldable pub rethink_sysui_req : Server → Option Server
rethink_sysui_req s =
    if sf s sf_systemui_up
    then some s
    else over EventState.sysui_req (to_state EventState.waitsysui) s

unfoldable pub rethink_sysui_ack : Server → Option Server
rethink_sysui_ack s =
    if sf s sf_systemui_up
    then some s
    else over EventState.sysui_ack (to_state EventState.waitsysui) s

unfoldable pub response_body : Server → ℕ → Server
response_body s0 p =
    let s = do_response_actions s0 p in
    if event_get_state (event_at s p) == EventState.snoozed
    then s
    else set_state s p EventState.served

unfoldable pub sysui_rsp_body : Server → ℕ → Server
sysui_rsp_body s p =
    let e = event_at s p in
    if eqb_ℤ e.response (negsuc 0) && has e.flags event_disable_delayed && not (is_recurring e)
    then write_event s p (record e { flags = set_bit e.flags event_disabled })
    else response_body s p

unfoldable pub rethink_sysui_rsp : Server → Option Server
rethink_sysui_rsp = over EventState.sysui_rsp sysui_rsp_body

-- With SNOOZE_HIJACK_FIX: `snooze_total` keeps the trigger time from before the first snooze.
unfoldable pub snoozed_body : Server → ℕ → Server
snoozed_body s p =
    let e = event_at s p in
    let curr = s.rethink_time +ℤ event_get_snooze s e in
    let first : Event =
      if eqb_ℤ e.snooze_total (pos 0) then record e { snooze_total = e.trigger } else e in
    set_state (set_trigger (write_event s p first) p curr) p EventState.new

unfoldable pub rethink_snoozed : Server → Option Server
rethink_snoozed = over EventState.snoozed snoozed_body

unfoldable pub served_body : Server → ℕ → Server
served_body s p =
    set_state s p (if is_recurring (event_at s p) then EventState.recurring else EventState.deleted)

unfoldable pub rethink_served : Server → Option Server
rethink_served = over EventState.served served_body

unfoldable pub deleted_body : Server → ℕ → Server
deleted_body s p = do_state_actions s p when_deleted

unfoldable pub rethink_deleted : Server → Option Server
rethink_deleted s =
    let vec = query_by_state s.queue EventState.deleted in
    if_any vec (cancel_dialog vec) (for_events deleted_body vec s)
