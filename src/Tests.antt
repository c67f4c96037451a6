-- ===== src/Tests.antt =====
-- A queue of two events, and a server around it, that the examples run on.
pub mod QueueExamples
pub mod ServerExamples
pub mod StrbufExamples
pub mod RecurrenceExamples
pub mod EscapeExamples
pub mod InifileExamples
pub mod PeriodsExamples
pub mod StorageExamples
pub mod UniqueExamples
pub mod CodecExamples
pub mod Year1970
use alarmd.Common.{
  ℕ, ◌+◌, ◌*◌, ◌<◌, ◌==◌, if◌then◌else◌, true, false, none, some, [], ◌∷◌, ℤ, pos, refl, sym, arith,
  ◌≡◌, ◌≢◌, ◌+ℤ◌, bisect,
}
use alarmd.Event.{Event, zero_event, client_range}
use alarmd.EventState
use alarmd.Queue.{Queue, add_event, insert_event, assign_cookie, get_cookie_slot}
use alarmd.Queue.Insert.{CanAdd, add_event-IsValid}
use alarmd.Queue.Valid.{IsValid, Holds}
use alarmd.Server.{Server}

-- The events 1 and 2: one with the flags `flags` for the time 1000, and a queued one for 5000.
abbrev pub events : ℕ → ℕ → Event
events flags p =
    if p == 1
    then record zero_event { flags = flags; trigger = pos 1000 }
    else record zero_event { flags = EventState.queued * client_range; trigger = pos 5000 }

abbrev pub no_events : ℕ → Queue
no_events flags = record {
  snooze = 600;
  cookie = pos 0;
  dirty = false;
  by_cookie = λ i. 0;
  by_trigger = λ i. 0;
  count = 0;
  alloc = 0;
  heap = events flags;
  freed = [];
}

abbrev pub one_event : ℕ → Queue
one_event flags = (add_event (no_events flags) 1).0

abbrev pub two_events : ℕ → Queue
two_events flags = (add_event (one_event flags) 2).0

pub no_events-IsValid : (flags : ℕ) → IsValid (no_events flags)
no_events-IsValid flags = record {
  by_cookie_sorted = λ i j ij jn. absurd (omega arith);
  by_trigger_sorted = λ i j ij jn. absurd (omega arith);
  same_events = λ f. refl;
  room = omega arith;
  issued = λ i l. absurd (omega arith);
}

pub no_events-CanAdd : (flags : ℕ) → CanAdd (no_events flags) 1
no_events-CanAdd flags = record {
  not_queued = λ (i, l, e). omega arith;
  own_cookie = λ p (i, l, e). absurd (omega arith);
}

pub one_event-IsValid : (flags : ℕ) → IsValid (one_event flags)
one_event-IsValid flags = add_event-IsValid 1 (no_events-IsValid flags) (no_events-CanAdd flags)

one_event-Holds : (flags p : ℕ) → Holds (one_event flags) p → p ≡ 1
unfolding add_event insert_event assign_cookie get_cookie_slot bisect
one_event-Holds flags p (i, l, e) = let first : i ≡ 0 = omega arith in sym (rw first at e)

distinct : (flags : ℕ) → ((one_event flags).heap 1).cookie ≢ ((one_event flags).heap 2).cookie
unfolding add_event insert_event assign_cookie ◌+ℤ◌
distinct flags e = ground arith

pub one_event-CanAdd : (flags : ℕ) → CanAdd (one_event flags) 2
one_event-CanAdd flags = record {
  not_queued = λ h. omega (arith, one_event-Holds flags 2 h);
  own_cookie = λ p h. rw (one_event-Holds flags p h) (distinct flags);
}

pub two_events-IsValid : (flags : ℕ) → IsValid (two_events flags)
two_events-IsValid flags = add_event-IsValid 2 (one_event-IsValid flags) (one_event-CanAdd flags)

pub two_events-some : (flags : ℕ) → 0 < (two_events flags).count
unfolding add_event insert_event assign_cookie
two_events-some flags = ground arith
