-- ===== src/Server/Rethink/Recurring.antt =====
-- The steps of the state machine that reckon times anew: server_rethink_recurring, with
-- SNOOZE_HIJACK_FIX, and server_rethink_timechange, with SNOOZE_ADJUST_FIX.
use alarmd.Common.{
  ℕ, Bool, true, false, not, ◌&&◌, ◌||◌, Option, none, some, ℤ, pos, negsuc, ◌+ℤ◌, ◌-ℤ◌, ltb_ℤ,
  eqb_ℤ, if◌then◌else◌,
}
use alarmd.Event.{Event, has, event_back_reschedule}
use alarmd.EventState
use alarmd.Calendar.{Driver}
use alarmd.Queue.{set_dirty, clr_dirty}
use alarmd.Queue.Query.{int_max}
use alarmd.Server.{
  Server, state_clr, timestate_sync, with_queue, sf_tz_changed, sf_clk_mv_forw, sf_clk_mv_back,
}
use alarmd.Server.Actions.{write_event, set_state}
use alarmd.Server.Rethink.{event_at, over, set_trigger, sf}
use alarmd.Server.Schedule.{recurrence_after, event_get_next_trigger}

-- The event with one recurrence less, unless there is no limit, and without its snooze
unfoldable pub spend : Event → Event
spend e = record e {
  recur_count = if ltb_ℤ (pos 0) e.recur_count then e.recur_count -ℤ pos 1 else e.recur_count;
  snooze_total = pos 0;
}

-- `eve->snooze_total ?: alarm_event_get_trigger(eve)`
abbrev pub unsnoozed_trigger : Event → ℤ
unsnoozed_trigger e = if eqb_ℤ e.snooze_total (pos 0) then e.trigger else e.snooze_total

-- The flags and the clock's movements are taken note of, and cleared.
unfoldable pub take_tz : Server → Bool × Server
take_tz s = if sf s sf_tz_changed then (true, state_clr s sf_tz_changed) else (false, s)

unfoldable pub take_forw : Server → ℤ × Server
take_forw s =
    if sf s sf_clk_mv_forw
    then (s.delta_forw, record (state_clr s sf_clk_mv_forw) { delta_forw = pos 0 })
    else (pos 0, s)

unfoldable pub take_back : Server → ℤ × Server
take_back s =
    if sf s sf_clk_mv_back
    then (s.delta_back, record (state_clr s sf_clk_mv_back) { delta_back = pos 0 })
    else (pos 0, s)

module _ (driver : Driver) (fuel : ℕ) where
  unfoldable pub recurring_body : Server → ℕ → Server
  recurring_body s0 p =
      let e = event_at s0 p in
      let s = write_event s0 p (spend e) in
      let curr =
        recurrence_after driver fuel s.tz_curr s.rethink_time (unsnoozed_trigger e)
          (spend e).recur_count e in
      if ltb_ℤ (pos 0) curr && ltb_ℤ curr int_max
      then set_state (set_trigger s p curr) p EventState.new
      else set_state s p EventState.deleted

  unfoldable pub rethink_recurring : Server → Option Server
  rethink_recurring = over EventState.recurring recurring_body

  -- The loop body of server_rethink_timechange, for a clock that has moved by `adj`
  unfoldable pub timechange_body : ℤ → Server → ℕ → Server
  timechange_body adj s p =
      let eve = event_at s p in
      let old = eve.trigger in
      let use_at = event_get_next_trigger driver fuel s.tz_curr s.rethink_time (negsuc 0) eve in
      if not (eqb_ℤ eve.snooze_total (pos 0))
      then set_state (set_trigger s p (old +ℤ adj)) p EventState.new
      else if ltb_ℤ (pos 0) eve.alarm_time
      then s
      else if eqb_ℤ use_at old
      then s
      else if not (has eve.flags event_back_reschedule)
          && (ltb_ℤ use_at old && ltb_ℤ adj (negsuc 299))
      then s
      else set_state (set_trigger s p use_at) p EventState.new

  unfoldable pub apply_timechange : Bool → ℤ → Server → Option Server
  apply_timechange zone adj s =
      if zone || not (eqb_ℤ adj (pos 0))
      then elim (over EventState.queued (timechange_body adj) s) [
        | none ↦ none
        | some s' ↦ some (timestate_sync s')
      ]
      else some s

  -- Whether events went back to NEW, and the server
  unfoldable pub rethink_timechange : Server → Option (Bool × Server)
  rethink_timechange s0 =
      let dirty = s0.queue.dirty in
      let (zone, s1) = take_tz (with_queue s0 (clr_dirty s0.queue)) in
      let (forw, s2) = take_forw s1 in
      let (back, s3) = take_back s2 in
      elim (apply_timechange zone (forw +ℤ back) s3) [
        | none ↦ none
        | some s ↦ some (s.queue.dirty, if dirty then with_queue s (set_dirty s.queue) else s)
      ]
