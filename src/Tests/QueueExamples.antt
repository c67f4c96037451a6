-- ===== src/Tests/QueueExamples.antt =====
-- The theorems on src/queue.c, applied to the queue of two events.
use alarmd.Common.{◌+ℤ◌, List, [], ◌∷◌, ℕ, ◌*◌, none, pos, ◌≡◌}
use alarmd.EventState
use alarmd.Event.{client_range, zero_event}
use alarmd.Queue.{
  flush_events, Queue, insert_event, assign_cookie, add_event, get_event, del_event,
  event_set_state, event_set_trigger, cleanup_deleted,
}
use alarmd.Queue.Added.{
  Added, add_event-Added, Deleted, del_event-Deleted, Rescheduled, event_set_trigger-Rescheduled,
}
use alarmd.Queue.Collected.{Collected, cleanup_deleted-Collected, cleanup_deleted-IsValid}
use alarmd.Queue.Flushed.{Flushed, flush_events-Flushed}
use alarmd.Queue.Lookup.{Looks, get_event-Looks}
use alarmd.Queue.Query.{query_events, query_events-collect, collect, wanted, int_min}
use alarmd.Queue.Refines.Runs.{run-replay}
use alarmd.Queue.Registry.{
  run, replay, registry, Call, add, find, retime, delete, clean, Allowed, AllAllowed,
}
use alarmd.Queue.Transition.{SetsState, event_set_state-SetsState}
use alarmd.Queue.View.{view-none}
use alarmd.Queue.Valid.{IsValid, Holds-by_trigger}
use alarmd.Tests.{
  one_event, one_event-IsValid, one_event-CanAdd, two_events, two_events-IsValid, two_events-some,
}

abbrev snoozed_flags : ℕ
snoozed_flags = EventState.snoozed * client_range

abbrev deleted_flags : ℕ
deleted_flags = EventState.deleted * client_range

abbrev ours : Queue
ours = two_events snoozed_flags

add_event-Added_example :
    Added
      (one_event snoozed_flags)
      2
      (add_event (one_event snoozed_flags) 2).0
      (add_event (one_event snoozed_flags) 2).1
add_event-Added_example =
    add_event-Added 2 (one_event-IsValid snoozed_flags) (one_event-CanAdd snoozed_flags)

get_event-Looks_example : Looks (two_events-IsValid snoozed_flags) (pos 2) (get_event ours (pos 2))
get_event-Looks_example = get_event-Looks (two_events-IsValid snoozed_flags) (pos 2)

del_event-Deleted_example :
    Deleted ours (pos 2) (del_event ours (pos 2)).0 (del_event ours (pos 2)).1
del_event-Deleted_example = del_event-Deleted (two_events-IsValid snoozed_flags) (pos 2)

cleanup_deleted-Collected_example :
    Collected (two_events deleted_flags) (cleanup_deleted (two_events deleted_flags))
cleanup_deleted-Collected_example = cleanup_deleted-Collected (two_events-IsValid deleted_flags)

cleanup_deleted-IsValid_example : IsValid (cleanup_deleted (two_events deleted_flags))
cleanup_deleted-IsValid_example = cleanup_deleted-IsValid (two_events-IsValid deleted_flags)

event_set_state-SetsState_example :
    SetsState ours 1 EventState.new (event_set_state ours 1 EventState.new)
event_set_state-SetsState_example = event_set_state-SetsState ours 1 EventState.new

event_set_trigger-Rescheduled_example :
    Rescheduled ours
      (ours.by_trigger 0)
      (pos 200)
      (event_set_trigger ours (ours.by_trigger 0) (pos 200))
event_set_trigger-Rescheduled_example =
    event_set_trigger-Rescheduled (two_events-IsValid snoozed_flags) (ours.by_trigger 0)
      (Holds-by_trigger (two_events-IsValid snoozed_flags) 0 (two_events-some snoozed_flags))
      (pos 200)

query_events-collect_example :
    query_events ours (pos 0) (pos 2000) 0 0 none
    ≡ collect (wanted int_min (pos 2000) 0 0 none) ours ours.count
query_events-collect_example =
    query_events-collect (two_events-IsValid snoozed_flags) (pos 0) (pos 2000) 0 0 none

flush_events-Flushed_example : Flushed ours (flush_events ours)
flush_events-Flushed_example = flush_events-Flushed ours

-- A second event is added; it is looked up, put off, deleted, and cleared away.
abbrev calls : List Call
calls =
    add 2 (record zero_event { trigger = pos 5000 })
    ∷ find (pos 2)
    ∷ retime (pos 2) (pos 9000)
    ∷ delete (pos 2)
    ∷ clean
    ∷ find (pos 2)
    ∷ []

calls_allowed : AllAllowed (one_event snoozed_flags) calls
unfolding AllAllowed Allowed add_event insert_event assign_cookie ◌+ℤ◌
calls_allowed = (
  (
    (one_event-CanAdd snoozed_flags).not_queued,
    view-none (one_event-IsValid snoozed_flags) (pos 0) (one_event-CanAdd snoozed_flags).own_cookie,
  ),
  (tt, (tt, (tt, (tt, (tt, tt))))),
)

run-replay_example :
    IsValid (run (one_event snoozed_flags) calls).0
    × (registry (run (one_event snoozed_flags) calls).0
        ≡ (replay (registry (one_event snoozed_flags)) calls).0)
    × ((run (one_event snoozed_flags) calls).1
        ≡ (replay (registry (one_event snoozed_flags)) calls).1)
run-replay_example = run-replay calls (one_event-IsValid snoozed_flags) calls_allowed
