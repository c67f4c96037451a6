-- ===== src/Sane.antt =====
-- alarm_event_is_sane of src/event.c: the check that the client library makes before it sends an
-- event, and that the queue makes on loading. `err` is its pair of bits, for errors and for warnings.
-- A table is NULL exactly if it has no entries; what is logged is left out.
use alarmd.Common.{
  ℕ, ◌+◌, ◌%◌, ◌^◌, ltb, leb, ◌==◌, bit_and, Bool, true, false, not, ◌&&◌, ◌||◌, List, [], ◌∷◌, ℤ,
  pos, negsuc, ltb_ℤ, leb_ℤ, eqb_ℤ, if◌then◌else◌, length, ◌▹◌,
}
use alarmd.Event.{Text, is_empty, Tm, Action, Recur, Event, has, event_boot, event_actdead}
use alarmd.Calendar.{tm_is_same, tm_is_uninitialized}
use alarmd.Server.Actions.{
  type_dbus, type_exec, type_mask, when_mask, when_responded, dbus_use_activation,
  dbus_use_systembus, dbus_add_cookie, exec_add_cookie,
}
pub mod Accepts

abbrev pub Err : Type 0
Err = Bool × Bool

-- `if( test ) E(...)` and `if( test ) W(...)`
abbrev pub E_if : Bool → Err → Err
E_if test err = (test || err.0, err.1)

abbrev pub W_if : Bool → Err → Err
W_if test err = (err.0, test || err.1)

-- tm_initializer
abbrev pub tm_initializer : Tm
tm_initializer = record {
  tm_sec = pos 0;
  tm_min = negsuc 0;
  tm_hour = negsuc 0;
  tm_mday = negsuc 0;
  tm_mon = negsuc 0;
  tm_year = negsuc 0;
  tm_wday = negsuc 0;
  tm_yday = negsuc 0;
  tm_isdst = negsuc 0;
}

-- `(int)cnt < 0`
abbrev pub is_negative : ℕ → Bool
is_negative cnt = leb (2 ^ 31) (cnt % 2 ^ 32)

-- alarm_action_is_button
unfoldable pub is_button : Action → Bool
is_button self = not (is_empty self.label) && has self.flags when_responded

-- Whether the action counts for `actions`
unfoldable pub is_active : Action → Bool
unfolding is_button
is_active act =
    is_button act
    || (not (bit_and act.flags when_mask == 0) && not (bit_and act.flags type_mask == 0))

unfoldable pub check_dbus : Action → Err → Err
check_dbus act err =
    if has act.flags type_dbus
    then (err
        ▹ E_if (is_empty act.dbus_interface)
        ▹ E_if (is_empty act.dbus_path)
        ▹ E_if (is_empty act.dbus_name))
    else (err
        ▹ W_if (has act.flags dbus_use_systembus)
        ▹ W_if (has act.flags dbus_use_activation)
        ▹ W_if (has act.flags dbus_add_cookie)
        ▹ W_if (not (is_empty act.dbus_interface))
        ▹ W_if (not (is_empty act.dbus_service))
        ▹ W_if (not (is_empty act.dbus_path))
        ▹ W_if (not (is_empty act.dbus_name))
        ▹ W_if (not (is_empty act.dbus_args)))

unfoldable pub check_exec : Action → Err → Err
check_exec act err =
    if has act.flags type_exec
    then (err ▹ E_if (is_empty act.exec_command))
    else (err ▹ W_if (not (is_empty act.exec_command)) ▹ W_if (has act.flags exec_add_cookie))

-- The body of the loop on the actions, but for the counters
unfoldable pub check_action : Action → Err → Err
unfolding is_button check_dbus check_exec
check_action act err =
    err
    ▹ W_if (bit_and act.flags when_mask == 0)
    ▹ W_if (
        bit_and act.flags type_mask == 0
        && (not (is_button act) || not (bit_and act.flags when_mask == when_responded)))
    ▹ E_if (has act.flags when_responded && is_empty act.label)
    ▹ W_if (not (has act.flags when_responded) && not (is_empty act.label))
    ▹ check_dbus act
    ▹ check_exec act

-- The loop, with the counters `actions` and `buttons`
unfoldable pub check_actions : List Action → ℕ → ℕ → Err → ℕ × ℕ × Err
check_actions [] actions buttons err = (actions, buttons, err)
check_actions (act ∷ acts) actions buttons err =
    check_actions acts (if is_active act then actions + 1 else actions)
      (if is_button act then buttons + 1 else buttons) (check_action act err)

unfoldable pub is_blank : Recur → Bool
is_blank rec =
    rec.mask_min == 0
    && rec.mask_hour == 0
    && rec.mask_mday == 0
    && rec.mask_wday == 0
    && rec.mask_mon == 0
    && rec.special == 0

-- The loop on the recurrences, with `recmasks`
unfoldable pub check_recurs : List Recur → ℕ → Err → ℕ × Err
check_recurs [] recmasks err = (recmasks, err)
check_recurs (rec ∷ recs) recmasks err =
    check_recurs recs (if is_blank rec then recmasks else recmasks + 1) (W_if (is_blank rec) err)

-- What stands between the two loops
unfoldable pub check_event : Event → ℕ → ℕ → Err → Err
check_event event actions buttons err =
    err
    ▹ E_if (length event.action_tab == 0)
    ▹ E_if (not (length event.action_tab == 0) && actions == 0)
    ▹ W_if (has event.flags event_boot && has event.flags event_actdead)
    ▹ W_if (ltb_ℤ (pos 0) event.alarm_time && not (is_empty event.alarm_tz))
    ▹ W_if (
        ltb_ℤ (pos 0) event.alarm_time
        && not (tm_is_uninitialized event.alarm_tm)
        && not (tm_is_same event.alarm_tm tm_initializer))
    ▹ W_if (ltb_ℤ event.snooze_secs (pos 0))
    ▹ W_if (not (is_empty event.message) && buttons == 0)
    ▹ W_if (not (is_empty event.sound) && buttons == 0)
    ▹ W_if (not (is_empty event.icon) && buttons == 0)
    ▹ E_if (ltb_ℤ event.recur_secs (pos 0))
    ▹ E_if (is_negative (length event.recurrence_tab))

-- The checks on recurrence, behind the loop
unfoldable pub check_recurrence : Event → ℕ → Err → Err
check_recurrence event recmasks err =
    let recurs = not (eqb_ℤ event.recur_count (pos 0)) in
    let cnt = length event.recurrence_tab in
    err
    ▹ E_if (recurs && leb_ℤ event.recur_secs (pos 0) && cnt == 0)
    ▹ E_if (recurs && leb_ℤ event.recur_secs (pos 0) && not (cnt == 0) && recmasks == 0)
    ▹ E_if (ltb_ℤ (pos 0) event.recur_secs && not recurs)
    ▹ E_if (ltb 0 cnt && not recurs)
    ▹ E_if (ltb_ℤ (pos 0) event.recur_secs && ltb 0 cnt)

-- `cnt` entries are looped over, or none where the count is negative.
abbrev pub loop_over {ℓ} : {A : Type ℓ} → List A → List A
loop_over tab = if is_negative (length tab) then [] else tab

abbrev pub verdict : Err → ℤ
verdict (true, w) = negsuc 0
verdict (false, true) = pos 0
verdict (false, false) = pos 1

-- The bits, before the result is made of them
unfoldable pub find_errors : Event → Err
unfolding check_event check_recurrence
find_errors event =
    let start =
      (false, false)
      ▹ E_if (is_empty event.alarm_appid)
      ▹ E_if (is_negative (length event.action_tab)) in
    let (actions, buttons, err) = check_actions (loop_over event.action_tab) 0 0 start in
    let (recmasks, err') =
      check_recurs (loop_over event.recurrence_tab) 0 (check_event event actions buttons err) in
    check_recurrence event recmasks err'

unfoldable pub is_sane : Event → ℤ
unfolding find_errors
is_sane event = verdict (find_errors event)
