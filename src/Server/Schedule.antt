-- ===== src/Server/Schedule.antt =====
-- src/server.c: when an event triggers next. A loop of src/recurrence.c that is left without fuel
-- counts as a call that fails.
pub mod Future
use alarmd.Common.{
  ℕ, zero, suc, ◌+◌, ◌^◌, Bool, true, false, not, ◌&&◌, ◌||◌, List, [], ◌∷◌, Option, none, some, ℤ,
  pos, ◌+ℤ◌, ◌-ℤ◌, pos_part, ltb_ℤ, leb_ℤ, eqb_ℤ, if◌then◌else◌,
}
use alarmd.Event.{Event, Text, Tm, Recur, is_empty, is_recurring}
use alarmd.Calendar.{Driver, no_time, break_tm, build_tm, tm_is_uninitialized}
use alarmd.Queue.Query.{int_max}
use alarmd.Recurrence.{recur_ctor, recur_align, recur_next}
use alarmd.Server.{Server}
use alarmd.Server.Times.{bump_time}

unfoldable pub event_get_tz : Text → Event → Text
event_get_tz tz_curr self = if not (is_empty self.alarm_tz) then self.alarm_tz else tz_curr

-- `1 << field`, where a field that is negative asks for nothing
abbrev pub field_mask : ℤ → ℕ
field_mask x = if ltb_ℤ x (pos 0) then 0 else 2 ^ pos_part x

unfoldable pub recur_of_tm : Tm → Recur
recur_of_tm tpl = record recur_ctor {
  mask_min = field_mask tpl.tm_min;
  mask_hour = field_mask tpl.tm_hour;
  mask_wday = field_mask tpl.tm_wday;
  mask_mday = field_mask tpl.tm_mday;
  mask_mon = field_mask tpl.tm_mon;
}

-- All fields but the day of the week are given.
unfoldable pub fully_qualified : Tm → Bool
fully_qualified tpl =
    leb_ℤ (pos 0) tpl.tm_min
    && leb_ℤ (pos 0) tpl.tm_hour
    && leb_ℤ (pos 0) tpl.tm_mday
    && leb_ℤ (pos 0) tpl.tm_mon
    && leb_ℤ (pos 0) tpl.tm_year

module _ (driver : Driver) (fuel : ℕ) where
  abbrev pub time_of : Option (ℤ × Tm) → ℤ
  time_of none = no_time
  time_of (some (t, tm)) = t

  unfoldable pub align_time : Text → Tm → Recur → ℤ
  align_time tz tm rec = time_of (recur_align driver tz fuel rec tm)

  unfoldable pub next_time : Text → Tm → Recur → ℤ
  next_time tz tm rec = time_of (recur_next driver tz fuel rec tm)

  -- The loops over recurrence_tab, from the least time so far: a time counts if it is after `low`.
  unfoldable pub earliest : (Recur → ℤ) → ℤ → List Recur → ℤ → ℤ
  earliest time low [] next = next
  earliest time low (rec ∷ recs) next =
      let trg = time rec in
      earliest time low recs (if ltb_ℤ low trg && ltb_ℤ trg next then trg else next)

  -- The time from which the recurrences count, for `t1` as it is given
  unfoldable pub first_trigger : Text → ℤ → ℤ → Event → ℤ
  first_trigger tz t0 t1 self =
      let tpl = self.alarm_tm in
      if ltb_ℤ (pos 0) t1
      then t1
      else if tm_is_uninitialized tpl
      then t0
      else if fully_qualified tpl
      then (build_tm driver
          (record tpl {
            tm_min = tpl.tm_min +ℤ (if ltb_ℤ (pos 0) tpl.tm_sec then pos 1 else pos 0);
            tm_sec = pos 0;
          })
          tz).0
      else align_time tz (break_tm driver t0 tz) (recur_of_tm tpl)

  unfoldable pub recurring_trigger : Text → ℤ → ℤ → Event → ℤ
  recurring_trigger tz t0 t1 self =
      if ltb_ℤ (pos 0) self.recur_secs
      then (if leb_ℤ t1 t0 then bump_time t1 self.recur_secs t0 else t1)
      else (let low = if ltb_ℤ t1 t0 then t0 else t1 in
          let now = break_tm driver low tz in
          let next = earliest (align_time tz now) low self.recurrence_tab int_max in
          if ltb_ℤ low next && ltb_ℤ next int_max then next else low)

  unfoldable pub event_get_next_trigger : Text → ℤ → ℤ → Event → ℤ
  event_get_next_trigger tz_curr t0 t1 self =
      let tz = event_get_tz tz_curr self in
      let first = first_trigger tz t0 t1 self in
      if is_recurring self then recurring_trigger tz t0 first self else first

  -- When an event in RECURRING, with `count` recurrences left, triggers next, or INT_MAX
  unfoldable pub recurrence_after : Text → ℤ → ℤ → ℤ → Event → ℤ
  recurrence_after tz_curr now prev count self =
      let tz = event_get_tz tz_curr self in
      if eqb_ℤ count (pos 0)
      then int_max
      else if ltb_ℤ (pos 0) self.recur_secs
      then bump_time prev self.recur_secs now
      else earliest (next_time tz (break_tm driver now tz)) (pos 0) self.recurrence_tab int_max
