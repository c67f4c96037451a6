-- ===== src/Tests/ServerExamples.antt =====
-- The theorems on src/server.c, applied to a server with the queue of two events.
use alarmd.Common.{
  bisect, shift_up, ◌-ℤ◌, ◌≢◌, true, some, refl, false, ℕ, ◌*◌, ◌+◌, [], ◌∷◌, List, none, pos, ℤ,
  ◌≡◌, ◌+ℤ◌, arith,
}
use alarmd.EventState
use alarmd.Recurrence.{recur_ctor}
use alarmd.Queue.Query.{in_state}
use alarmd.Event.{Event, Action, zero_event, is_recurring, client_range, event_run_delayed}
use alarmd.Queue.{
  add_event, insert_event, assign_cookie, get_cookie_slot, cmp_event_cookie, event_get_state,
}
use alarmd.Queue.Query.{int_max}
use alarmd.Queue.Valid.{IsValid, Holds}
use alarmd.Server.{Server, sf_desktop_up, sf_connected, sf_tz_changed, sf_clk_mv_forw, state_get}
use alarmd.Server.Rethink
use alarmd.Server.Rethink.Acted.{after_new, after_triggered, after_response}
use alarmd.Server.Rethink.Outcomes.{surroundings, after_snoozed, after_queued}
use alarmd.Server.Rethink.Stages.{Stage, Returns, run_stages, run_stages-Returns}
use alarmd.Server.Rethink.Steps.{Performs, rethink_queued-Performs, rethink_snoozed-Performs}
use alarmd.Server.Keeps.{Keeps, write_event-Keeps}
use alarmd.Server.Actions
use alarmd.Server.Rethink.Said.{Block}
use alarmd.Server.Rethink.Told.{told_all}
use alarmd.Server.Rethink.Speaks.{
  Speaks, says_new, says_response, rethink_new-Performs, rethink_sysui_rsp-Performs,
}
use alarmd.Server.Clock.{Watch, clock_source_is_stable}
use alarmd.Server.Clock.Accounts.{Watched, clock_source_is_stable-Watched}
use alarmd.Server.Dialog.{handle_systemui_ack, handle_systemui_rsp}
use alarmd.Server.Dialog.Answers.{
  Answered, ack_all, rsp_one, handle_systemui_ack-Answered, handle_systemui_rsp-Answered,
}
use alarmd.Server.Times.{FirstAfter, bump_time, bump_time-FirstAfter}
use alarmd.Server.Rethink.GoesOff.{IsDue, rung, HasRung, ring, ring-HasRung}
use alarmd.Server.Rethink.Recurring.{rethink_recurring}
use alarmd.Server.Rethink.Rescheduled.{Recurs, rethink_recurring-Performs}
use alarmd.Server.Rethink.Rounds.{Settles, rethink_rounds, rethink_rounds-Settles}
use alarmd.Server.Schedule.{event_get_tz, first_trigger, event_get_next_trigger}
use alarmd.Server.Schedule.Future.{Next, event_get_next_trigger-Next}
use alarmd.Tests.Year1970.{driver}
use alarmd.Tests.{two_events, two_events-IsValid, two_events-some}

-- The first event is in the given state and has the time 1000 for its trigger.
abbrev server_at : ℕ → ℤ → Server
server_at state now = record {
  queue = two_events (state * client_range + event_run_delayed);
  state_real = sf_desktop_up + sf_connected;
  state_prev = sf_desktop_up + sf_connected;
  state_mask = 0;
  state_fake = 0;
  queuestate = record {
    qs_alarms = pos 0;
    qs_desktop = int_max;
    qs_actdead = int_max;
    qs_no_boot = int_max;
  };
  icons_curr = 0;
  wakeup_time = int_max;
  wakeup_id = none;
  rethink_time = now;
  rethink_req = false;
  rethink_id = none;
  clock = now;
  tz_curr = none;
  tz_prev = none;
  dst_curr = pos 0;
  dst_prev = pos 0;
  delta_forw = pos 0;
  delta_back = pos 0;
  effects = [];
}

abbrev steps : List Stage
steps =
    Stage.new ∷ Stage.queued ∷ Stage.missed ∷ Stage.limbo ∷ Stage.triggered ∷ Stage.served
    ∷ Stage.deleted ∷ Stage.cleanup ∷ []

run_stages-Returns_example : Returns (run_stages steps (server_at EventState.new (pos 2000)))
run_stages-Returns_example =
    run_stages-Returns steps (server_at EventState.new (pos 2000)) (two_events-IsValid _)

-- The first event with a command that is run with its cookie when it is queued, triggered or
-- answered, and a button for it
abbrev command : Action
command = record {
  flags =
      Actions.type_exec + Actions.when_queued + Actions.when_triggered + Actions.when_responded
      + Actions.exec_add_cookie;
  label = some (b'o' ∷ b'k' ∷ []);
  exec_command = some (b'r' ∷ b'u' ∷ b'n' ∷ []);
  dbus_interface = none;
  dbus_service = none;
  dbus_path = none;
  dbus_name = none;
  dbus_args = none;
}

abbrev armed_at : ℕ → ℤ → Server
armed_at state now =
    let s = server_at state now in
    Actions.write_event s 1 (record (s.queue.heap 1) { action_tab = command ∷ [] })

armed-Keeps : (state : ℕ) (now : ℤ) → Keeps (server_at state now).queue (armed_at state now).queue
armed-Keeps state now = write_event-Keeps (server_at state now) 1 _ (two_events-IsValid _) refl refl

rethink_new-Performs_example :
    Speaks after_new says_new EventState.new
      (armed_at EventState.new (pos 200000))
      (Rethink.rethink_new (armed_at EventState.new (pos 200000)))
rethink_new-Performs_example =
    rethink_new-Performs (armed_at EventState.new (pos 200000))
      (armed-Keeps EventState.new (pos 200000)).valid

rethink_queued-Performs_example :
    Performs after_queued EventState.queued
      (server_at EventState.queued (pos 200000))
      (Rethink.rethink_queued (server_at EventState.queued (pos 200000)))
rethink_queued-Performs_example =
    rethink_queued-Performs (server_at EventState.queued (pos 200000)) (two_events-IsValid _)

rethink_snoozed-Performs_example :
    Performs after_snoozed EventState.snoozed
      (server_at EventState.snoozed (pos 200000))
      (Rethink.rethink_snoozed (server_at EventState.snoozed (pos 200000)))
rethink_snoozed-Performs_example =
    rethink_snoozed-Performs (server_at EventState.snoozed (pos 200000)) (two_events-IsValid _)

bump_time-FirstAfter_example :
    FirstAfter (pos 1000) (pos 10) 60 (bump_time (pos 10) (pos 60) (pos 1000))
bump_time-FirstAfter_example = bump_time-FirstAfter (pos 10) (pos 1000) 60 (omega arith)

abbrev asked : Server
asked = server_at EventState.sysui_req (pos 2000)

handle_systemui_ack-Answered_example :
    Answered (ack_all (pos 1 ∷ pos 7 ∷ [])) asked (handle_systemui_ack asked (pos 1 ∷ pos 7 ∷ []))
    × ((handle_systemui_ack asked (pos 1 ∷ pos 7 ∷ [])).rethink_id ≢ none)
handle_systemui_ack-Answered_example =
    handle_systemui_ack-Answered asked (pos 1 ∷ pos 7 ∷ []) (two_events-IsValid _)

handle_systemui_rsp-Answered_example :
    Answered (rsp_one (pos 1) (pos 0)) asked (handle_systemui_rsp asked (pos 1) (pos 0))
    × ((handle_systemui_rsp asked (pos 1) (pos 0)).rethink_id ≢ none)
handle_systemui_rsp-Answered_example =
    handle_systemui_rsp-Answered asked (pos 1) (pos 0) (two_events-IsValid _)

rethink_sysui_rsp-Performs_example :
    Speaks after_response says_response EventState.sysui_rsp
      (armed_at EventState.sysui_rsp (pos 200000))
      (Rethink.rethink_sysui_rsp (armed_at EventState.sysui_rsp (pos 200000)))
rethink_sysui_rsp-Performs_example =
    rethink_sysui_rsp-Performs (armed_at EventState.sysui_rsp (pos 200000))
      (armed-Keeps EventState.sysui_rsp (pos 200000)).valid

-- The first event recurs two times, every hour, and the clock has gone an hour forward.
abbrev hourly_at : ℤ → Server
hourly_at now =
    let s = server_at EventState.recurring now in
    Actions.write_event s 1 (record (s.queue.heap 1) { recur_count = pos 2; recur_secs = pos 3600 })

abbrev recurring_server : ℤ → Server
recurring_server now =
    let s = hourly_at now in
    record s { state_real = s.state_real + sf_tz_changed + sf_clk_mv_forw; delta_forw = pos 3600 }

hourly-Keeps :
    (now : ℤ) → Keeps (server_at EventState.recurring now).queue (recurring_server now).queue
hourly-Keeps now =
    write_event-Keeps (server_at EventState.recurring now) 1 _ (two_events-IsValid _) refl refl

rethink_recurring-Performs_example :
    (s' : Server) × (rethink_recurring driver 1000 (recurring_server (pos 2000)) ≡ some s')
    × Keeps (recurring_server (pos 2000)).queue s'.queue
    × (surroundings s' ≡ surroundings (recurring_server (pos 2000)))
    × ((p : ℕ)
        → Holds (recurring_server (pos 2000)).queue p
        → in_state EventState.recurring ((recurring_server (pos 2000)).queue.heap p) ≡ true
        → Recurs driver 1000
            (surroundings (recurring_server (pos 2000)))
            ((recurring_server (pos 2000)).queue.heap p)
            (s'.queue.heap p))
    × ((p : ℕ)
        → Holds (recurring_server (pos 2000)).queue p
        → in_state EventState.recurring ((recurring_server (pos 2000)).queue.heap p) ≡ false
        → s'.queue.heap p ≡ (recurring_server (pos 2000)).queue.heap p)
rethink_recurring-Performs_example =
    rethink_recurring-Performs driver 1000 (recurring_server (pos 2000))
      (hourly-Keeps (pos 2000)).valid

rethink_rounds-Settles_example :
    Settles driver 1000 (rethink_rounds driver 1000 3 (server_at EventState.new (pos 2000)))
rethink_rounds-Settles_example =
    rethink_rounds-Settles driver 1000 3 (server_at EventState.new (pos 2000))
      (two_events-IsValid _)

-- At seven and at half past seven, three times
abbrev daily : Event
daily = record zero_event {
  alarm_time = pos 5000;
  recur_count = pos 3;
  recurrence_tab =
      record recur_ctor { mask_min = 1; mask_hour = 128 }
      ∷ record recur_ctor { mask_min = 1073741824; mask_hour = 128 }
      ∷ [];
}

event_get_next_trigger-Next_example :
    Next driver 1000
      (event_get_tz none daily)
      (pos 9000)
      (first_trigger driver 1000 (event_get_tz none daily) (pos 9000) (pos 5000) daily)
      daily
      (event_get_next_trigger driver 1000 none (pos 9000) (pos 5000) daily)
event_get_next_trigger-Next_example =
    event_get_next_trigger-Next driver 1000 none (pos 9000) (pos 5000) daily
      (unfold is_recurring in refl)

-- Twenty seconds after the first event's time
abbrev late : Server
late = armed_at EventState.queued (pos 1020)

late-Holds : Holds late.queue 1
unfolding add_event insert_event assign_cookie get_cookie_slot bisect cmp_event_cookie ◌+ℤ◌ shift_up
late-Holds = (0, two_events-some (EventState.queued * client_range + event_run_delayed), refl)

late-IsDue : IsDue (surroundings late) (late.queue.heap 1)
unfolding add_event insert_event assign_cookie surroundings state_get event_get_state ◌-ℤ◌
late-IsDue = record {
  listed = refl;
  connected = refl;
  come = refl;
  recent = refl;
  desktop = refl;
  mode = refl;
}

ring-HasRung_example :
    (s' : Server) × (ring late ≡ some s')
    × IsValid s'.queue
    × (s'.queue.heap 1 ≡ after_triggered (surroundings late) (rung (late.queue.heap 1)))
    × HasRung (s'.queue.heap 1)
    × Block
        (told_all (late.queue.heap 1).action_tab Actions.when_triggered (late.queue.heap 1).cookie)
        s'.effects
ring-HasRung_example =
    ring-HasRung late (armed-Keeps EventState.queued (pos 1020)).valid 1 late-Holds late-IsDue

-- The clock has gone 20 seconds forward, and has been steady since the monotonic time 990.
abbrev watch : Watch
watch = record {
  initialized = true;
  delta_sched = pos 0;
  delta_clock = pos 20;
  delay_until = pos 992;
}

clock_source_is_stable-Watched_example :
    let r = clock_source_is_stable (pos 1000) watch late in
    Watched (pos 1000) watch late r.0 r.1 r.2
clock_source_is_stable-Watched_example = clock_source_is_stable-Watched (pos 1000) watch late refl
