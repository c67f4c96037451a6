-- ===== src/Server/Rethink/Rescheduled.antt =====
-- What server_rethink_recurring and server_rethink_timechange make of the events.
use alarmd.Common.{
  ℕ, Bool, true, false, not, ◌&&◌, ◌||◌, ℤ, pos, negsuc, ◌+ℤ◌, ltb_ℤ, eqb_ℤ, if◌then◌else◌, refl,
  ◌≡◌, ◌≢◌, ◌<ℤ◌, ◌≤ℤ◌, ◌-ℤ◌, eqb_no, pos_part, some, sym, subst, ◌∙◌, arith,
}
use alarmd.Event.{Event, has, event_back_reschedule}
use alarmd.EventState
use alarmd.Calendar.{Driver, break_tm}
use alarmd.Queue.{Queue, event_set_state, event_set_trigger}
use alarmd.Queue.Query.{int_max}
use alarmd.Queue.Valid.{IsValid, Holds}
use alarmd.Server.{Server, state_get}
use alarmd.Server.Actions.{set_state, write_event}
use alarmd.Server.Keeps.{
  Keeps, StepKeeps, Keeps-refl, if-Keeps, then-Keeps, set_trigger-Keeps, then_set_state-Keeps,
  write_event-Keeps,
}
use alarmd.Server.Rethink.{over, set_trigger}
use alarmd.Server.Rethink.Outcomes.{Surroundings, surroundings, settle}
use alarmd.Server.Rethink.Pointwise.{Local}
use alarmd.Server.Rethink.Recurring.{
  spend, unsnoozed_trigger, recurring_body, rethink_recurring, timechange_body,
}
use alarmd.Server.Rethink.Steps.{Performs, over-Performs}
use alarmd.Server.Schedule.{recurrence_after, event_get_next_trigger, event_get_tz, next_time}
use alarmd.Server.Schedule.Future.{Earliest, earliest-Earliest, period}
use alarmd.Server.Times.{FirstAfter, bump_time, bump_time-FirstAfter}
use alarmd.Queue.Query.{in_state}

unless-Keeps :
    (a b c d : Bool) {q : Queue} (s x y : Server)
    → Keeps q s.queue
    → Keeps q x.queue
    → Keeps q y.queue
    → Keeps q (if a then x else if b then s else if c then s else if d then s else y).queue
unless-Keeps true b c d s x y h j k = j
unless-Keeps false true c d s x y h j k = h
unless-Keeps false false true d s x y h j k = h
unless-Keeps false false false true s x y h j k = h
unless-Keeps false false false false s x y h j k = k

-- The recurrences that are left when one is spent, if they are limited
abbrev pub recurrences_left : Event → ℤ
recurrences_left e = if ltb_ℤ (pos 0) e.recur_count then e.recur_count -ℤ pos 1 else e.recur_count

-- The trigger time, from before the snooze if the event was snoozed
abbrev pub from_trigger : Event → ℤ
from_trigger e = if eqb_ℤ e.snooze_total (pos 0) then e.trigger else e.snooze_total

-- The time at which the event recurs, or one that is out of range
pub record NextRecurrence (driver : Driver) (fuel : ℕ) (w : Surroundings) (e : Event) (curr : ℤ)
    : Type 0 where
  pub spent : recurrences_left e ≡ pos 0 → curr ≡ int_max
  pub periodic :
      recurrences_left e ≢ pos 0
      → pos 0 <ℤ e.recur_secs
      → FirstAfter w.now (from_trigger e) (pos_part e.recur_secs) curr
  pub masked :
      recurrences_left e ≢ pos 0
      → e.recur_secs ≤ℤ pos 0
      → let tz = event_get_tz w.tz e in
        Earliest
          (next_time driver fuel tz (break_tm driver w.now tz))
          (pos 0)
          e.recurrence_tab
          int_max
          curr

-- What becomes of an event in RECURRING
abbrev pub Recurs : Driver → ℕ → Surroundings → Event → Event → Type 0
Recurs driver fuel w e e' =
    (curr : ℤ) × NextRecurrence driver fuel w e curr
    × (e' ≡ (
        if ltb_ℤ (pos 0) curr && ltb_ℤ curr int_max
        then settle EventState.new
            (record e { recur_count = recurrences_left e; snooze_total = pos 0; trigger = curr })
        else settle EventState.deleted
            (record e { recur_count = recurrences_left e; snooze_total = pos 0 })))

module _ (driver : Driver) (fuel : ℕ) where
  -- An event that has a further recurrence goes to NEW for that time, and is deleted otherwise.
  pub after_recurring : Surroundings → Event → Event
  after_recurring w e =
      let curr =
        recurrence_after driver fuel w.tz w.now (unsnoozed_trigger e) (spend e).recur_count e in
      if ltb_ℤ (pos 0) curr && ltb_ℤ curr int_max
      then settle EventState.new (record (spend e) { trigger = curr })
      else settle EventState.deleted (spend e)

  recurring-Local : Local surroundings after_recurring (λ s p. recurring_body driver fuel s p)
  unfolding recurring_body after_recurring settle spend surroundings event_set_state
      event_set_trigger state_get
  recurring-Local = record {
    own = λ s p. ground arith;
    others = λ s p r n. ground arith;
    env_kept = λ s p. ground arith;
  }

  -- A snoozed event moves with the clock; an event that is given in broken down time is reckoned
  -- anew, unless that takes it back although its flags do not allow it and the clock has gone back by
  -- more than five minutes.
  pub after_timechange : ℤ → Surroundings → Event → Event
  after_timechange adj w e =
      let at = event_get_next_trigger driver fuel w.tz w.now (negsuc 0) e in
      if not (eqb_ℤ e.snooze_total (pos 0))
      then settle EventState.new (record e { trigger = e.trigger +ℤ adj })
      else if ltb_ℤ (pos 0) e.alarm_time || eqb_ℤ at e.trigger
      then e
      else if ltb_ℤ at e.trigger
          && ltb_ℤ adj (negsuc 299)
          && not (has e.flags event_back_reschedule)
      then e
      else settle EventState.new (record e { trigger = at })

  -- Of the surroundings it takes the time and the time zone.
  pub after_timechange-same :
      (adj : ℤ) (w w' : Surroundings) (e : Event)
      → w.now ≡ w'.now
      → w.tz ≡ w'.tz
      → after_timechange adj w e ≡ after_timechange adj w' e
  unfolding after_timechange
  after_timechange-same adj w w' e now tz = rw (now, tz) refl

  timechange-Local :
      (adj : ℤ)
      → Local surroundings (after_timechange adj) (λ s p. timechange_body driver fuel adj s p)
  unfolding timechange_body after_timechange settle surroundings event_set_state event_set_trigger
      state_get
  timechange-Local adj = record {
    own = λ s p. ground arith;
    others = λ s p r n. ground arith;
    env_kept = λ s p. ground arith;
  }

  moved-Keeps :
      (trigger : ℤ) (s : Server) (p : ℕ) {q : Queue}
      → Holds q p
      → Keeps q s.queue
      → Keeps q (set_state (set_trigger s p trigger) p EventState.new).queue
  moved-Keeps trigger s p h k =
      then_set_state-Keeps (set_trigger s p trigger) p EventState.new h
        (then-Keeps (λ s p. set_trigger s p trigger) s p (set_trigger-Keeps trigger) h k)

  recurring_body-Keeps : StepKeeps (λ s p. recurring_body driver fuel s p)
  unfolding recurring_body
  recurring_body-Keeps s p v h =
      let e = spend (s.queue.heap p) in
      let k = write_event-Keeps s p e v (unfold spend in refl) (unfold spend in refl) in
      let s1 = write_event s p e in
      if-Keeps _ _ _ (moved-Keeps _ s1 p h k) (then_set_state-Keeps s1 p EventState.deleted h k)

  pub timechange_body-Keeps : (adj : ℤ) → StepKeeps (λ s p. timechange_body driver fuel adj s p)
  unfolding timechange_body
  timechange_body-Keeps adj s p v h =
      let k = Keeps-refl v in
      let e = s.queue.heap p in
      let at = event_get_next_trigger driver fuel s.tz_curr s.rethink_time (negsuc 0) e in
      unless-Keeps (not (eqb_ℤ e.snooze_total (pos 0))) (ltb_ℤ (pos 0) e.alarm_time)
        (eqb_ℤ at e.trigger)
        (not (has e.flags event_back_reschedule) && (ltb_ℤ at e.trigger && ltb_ℤ adj (negsuc 299)))
        s (set_state (set_trigger s p (e.trigger +ℤ adj)) p EventState.new)
        (set_state (set_trigger s p at) p EventState.new) k (moved-Keeps (e.trigger +ℤ adj) s p h k)
        (moved-Keeps at s p h k)

  over_recurring-Performs :
      (s : Server)
      → IsValid s.queue
      → Performs after_recurring EventState.recurring s (rethink_recurring driver fuel s)
  unfolding rethink_recurring
  over_recurring-Performs = over-Performs EventState.recurring recurring-Local recurring_body-Keeps

  recurrence_after-Next :
      (w : Surroundings) (e : Event)
      → NextRecurrence driver fuel w e
          (recurrence_after driver fuel w.tz w.now (from_trigger e) (recurrences_left e) e)
  unfolding recurrence_after
  recurrence_after-Next w e = record {
    spent = λ h. rw (recurrence_after, h) refl;
    periodic = λ h k.
        let long : ltb_ℤ (pos 0) e.recur_secs ≡ true = ground arith in
        let (many, whole) = period e.recur_secs long in
        let bumped =
          subst
            (λ n.
              FirstAfter w.now (from_trigger e) (pos_part e.recur_secs)
                (bump_time (from_trigger e) n w.now))
            (sym whole)
            (bump_time-FirstAfter (from_trigger e) w.now (pos_part e.recur_secs) many) in
        rw (recurrence_after, eqb_no h, long) bumped;
    masked = λ h k.
        let none : ltb_ℤ (pos 0) e.recur_secs ≡ false = ground arith in
        let tz = event_get_tz w.tz e in
        let time = next_time driver fuel tz (break_tm driver w.now tz) in
        rw (recurrence_after, eqb_no h, none)
          (earliest-Earliest driver fuel time (pos 0) e.recurrence_tab int_max);
  }

  after_recurring-Recurs :
      (w : Surroundings) (e : Event) → Recurs driver fuel w e (after_recurring w e)
  unfolding after_recurring spend
  after_recurring-Recurs w e = (
    recurrence_after driver fuel w.tz w.now (from_trigger e) (recurrences_left e) e,
    recurrence_after-Next w e,
    refl,
  )

  -- With the queue in order the step returns, keeps it in order and leaves the time, the server's
  -- flags, the default snooze and the time zone as they are; each enabled event in RECURRING spends
  -- one of its recurrences, if they are limited, and ends its snooze. If none is left, it goes to
  -- DELETED. With a period it goes to NEW, for the first time after now that lies a whole number of
  -- periods from its trigger time, which is the one from before its snooze if it was snoozed; with
  -- masks, for the least of the times after 0 that alarm_recur_next gives for them from now. It goes
  -- to DELETED if that time is not between 0 and INT_MAX. The other events stay as they are.
  pub rethink_recurring-Performs :
      (s : Server)
      → IsValid s.queue
      → (s' : Server) × (rethink_recurring driver fuel s ≡ some s')
        × Keeps s.queue s'.queue
        × (surroundings s' ≡ surroundings s)
        × ((p : ℕ)
            → Holds s.queue p
            → in_state EventState.recurring (s.queue.heap p) ≡ true
            → Recurs driver fuel (surroundings s) (s.queue.heap p) (s'.queue.heap p))
        × ((p : ℕ)
            → Holds s.queue p
            → in_state EventState.recurring (s.queue.heap p) ≡ false
            → s'.queue.heap p ≡ s.queue.heap p)
  rethink_recurring-Performs s v =
      let (s', done, kept, env, each) = over_recurring-Performs s v in
      (
        s',
        done,
        kept,
        env,
        (λ p h i.
            let at = each p h ∙ rw i refl in
            subst (Recurs driver fuel (surroundings s) (s.queue.heap p)) (sym at)
              (after_recurring-Recurs (surroundings s) (s.queue.heap p))),
        λ p h i. each p h ∙ rw i refl,
      )

  -- With the queue in order, and for a clock that has moved by `adj`, the loop returns, keeps the
  -- queue in order and leaves the surroundings as they are; each enabled event in QUEUED goes to NEW with a trigger time moved by `adj` if it
  -- is snoozed, and with the time that is reckoned anew if that is another one, unless its time is absolute or
  -- it may not go back and would, with the clock more than five minutes back; the other events stay
  -- as they are.
  pub timechange-Performs :
      (adj : ℤ) (s : Server)
      → IsValid s.queue
      → Performs
          (after_timechange adj)
          EventState.queued
          s
          (over EventState.queued (timechange_body driver fuel adj) s)
  timechange-Performs adj =
      over-Performs EventState.queued (timechange-Local adj) (timechange_body-Keeps adj)
