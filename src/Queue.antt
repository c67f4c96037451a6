-- ===== src/Queue.antt =====
-- src/queue.c: the active events in two tables of pointers, one sorted by cookie and one by
-- trigger time, over one heap of event objects. The static variables are the fields of `Queue`;
-- a pointer is a number, and `heap` gives the object at it. `freed` lists the objects that
-- alarm_event_delete has released, the latest first. Logging is left out.
use alarmd.Common.{
  ℕ, zero, suc, ◌+◌, ◌-◌, ◌*◌, ◌/◌, ◌%◌, Bool, true, false, not, ◌&&◌, ◌||◌, Option, none, some,
  List, ◌∷◌, Ordering, ltb, leb, ◌==◌, if◌then◌else◌, ℤ, pos, ◌+ℤ◌, ltb_ℤ, eqb_ℤ, compare_ℤ, Table,
  update, shift_up, shift_down, bisect,
}
use alarmd.Event.{Event, zero_event, client_range}
use alarmd.EventState
pub mod Order
pub mod Valid
pub mod Insert
pub mod Transition
pub mod Lookup
pub mod Query
pub mod Collected
pub mod Cleanup
pub mod Reschedule
pub mod Added
pub mod Flushed
pub mod View
pub mod Registry
pub mod Refines

pub record Queue : Type 0 where
  pub snooze : ℕ
  pub cookie : ℤ
  pub dirty : Bool
  pub by_cookie : Table
  pub by_trigger : Table
  pub count : ℕ
  pub alloc : ℕ
  pub heap : ℕ → Event
  pub freed : List ℕ

-- The comparison functions return the sign of a difference: `lt` for -1, `eq` for 0, `gt` for 1.
abbrev pub cmp_cookie : ℤ → ℤ → Ordering
cmp_cookie a b = compare_ℤ a b

abbrev pub cmp_trigger : ℤ → ℤ → Ordering
cmp_trigger a b = compare_ℤ a b

unfoldable pub cmp_event_cookie : Event → Event → Ordering
cmp_event_cookie a b = cmp_cookie a.cookie b.cookie

-- Later triggers first, and then later cookies first.
unfoldable pub cmp_event_trigger : Event → Event → Ordering
unfolding cmp_event_cookie
cmp_event_trigger a b = elim (cmp_trigger b.trigger a.trigger) [
  | Ordering.eq ↦ cmp_event_cookie b a
  | Ordering.lt ↦ Ordering.lt
  | Ordering.gt ↦ Ordering.gt
]

abbrev pub is_lt : Ordering → Bool
is_lt o = elim o [ Ordering.lt ↦ true | _ ↦ false ]

unfoldable pub get_trigger_slot : Queue → Event → ℕ
get_trigger_slot q eve =
    bisect (λ i. is_lt (cmp_event_trigger (q.heap (q.by_trigger i)) eve)) q.count 0 q.count

unfoldable pub get_cookie_slot : Queue → Event → ℕ
get_cookie_slot q eve =
    bisect (λ i. is_lt (cmp_event_cookie (q.heap (q.by_cookie i)) eve)) q.count 0 q.count

abbrev pub set_dirty : Queue → Queue
set_dirty q = record q { dirty = true }

abbrev pub clr_dirty : Queue → Queue
clr_dirty q = record q { dirty = false }

-- The new cells that `realloc` adds lie at and above `count`.
unfoldable pub insert_event : Queue → ℕ → Queue
insert_event q eve =
    let alloc = if q.count == q.alloc then q.alloc + 32 else q.alloc in
    let t = get_trigger_slot q (q.heap eve) in
    let c = get_cookie_slot q (q.heap eve) in
    record q {
      alloc = alloc;
      by_trigger = update (shift_up (q.count - t) t q.by_trigger) t eve;
      by_cookie = update (shift_up (q.count - c) c q.by_cookie) c eve;
      count = q.count + 1;
      dirty = true;
    }

abbrev pub snooze_default : ℕ
snooze_default = 10 * 60

unfoldable pub set_snooze : Queue → ℕ → Queue
set_snooze q snooze = set_dirty (record q {
  snooze = if ltb snooze 1 || ltb (24 * 60 * 60) snooze then snooze_default else snooze;
})

-- The table after the entry of `event` has moved from slot `ti` to its place before slot `to`.
unfoldable pub move_slot : Table → ℕ → ℕ → ℕ → Table
move_slot tab event ti to =
    if leb to ti
    then update (shift_up (ti - to) to tab) to event
    else update (shift_down (to - 1 - ti) ti tab) (to - 1) event

unfoldable pub event_set_trigger : Queue → ℕ → ℤ → Queue
event_set_trigger q event trigger =
    let temp : Event = record zero_event { cookie = (q.heap event).cookie; trigger = trigger } in
    let ti = get_trigger_slot q (q.heap event) in
    let to = get_trigger_slot q temp in
    set_dirty (record q {
      heap = update q.heap event (record (q.heap event) { trigger = trigger });
      by_trigger = move_slot q.by_trigger event ti to;
    })

unfoldable pub event_get_state : Event → ℕ
event_get_state self = self.flags / client_range

-- The switch of queue_event_set_state: the state that the event is in afterwards.
unfoldable pub filter_state : ℕ → ℕ → ℕ
filter_state previous state =
    if ltb EventState.finalized state
    then previous
    else if state == EventState.sysui_ack
    then (if previous == EventState.sysui_req then state else previous)
    else if state == EventState.sysui_rsp
    then (if previous == EventState.sysui_req || previous == EventState.sysui_ack
        then state
        else previous)
    else state

unfoldable pub with_state : Event → ℕ → Event
with_state self current = record self { flags = self.flags % client_range + current * client_range }

-- A change of state makes the queue dirty if it goes to NEW or to an earlier state.
unfoldable pub event_set_state : Queue → ℕ → ℕ → Queue
event_set_state q self state =
    let previous = event_get_state (q.heap self) in
    let current = filter_state previous state in
    record q {
      dirty =
          q.dirty
          || (not (previous == current) && (current == EventState.new || ltb current previous));
      heap = update q.heap self (with_state (q.heap self) current);
    }

-- The event at `event` with its cookie, and `queue_cookie`, settled before the insertion.
unfoldable pub assign_cookie : Queue → ℕ → Queue
assign_cookie q event =
    let cookie = (q.heap event).cookie in
    if eqb_ℤ cookie (pos 0)
    then record q {
      cookie = q.cookie +ℤ pos 1;
      heap = update q.heap event (record (q.heap event) { cookie = q.cookie +ℤ pos 1 });
    }
    else if ltb_ℤ q.cookie cookie
    then record q { cookie = cookie }
    else q

unfoldable pub add_event : Queue → ℕ → Queue × ℤ
add_event q event =
    let q' = insert_event (assign_cookie q event) event in (q', (q'.heap event).cookie)

unfoldable pub find_cookie : Queue → ℤ → ℕ → ℕ → ℕ → Option ℕ
find_cookie q cookie zero l h = none
find_cookie q cookie (suc fuel) l h = elim (ltb l h) [
  | true ↦ elim (cmp_cookie (q.heap (q.by_cookie ((l + h) / 2))).cookie cookie) [
    | Ordering.lt ↦ find_cookie q cookie fuel ((l + h) / 2 + 1) h
    | Ordering.gt ↦ find_cookie q cookie fuel l ((l + h) / 2)
    | Ordering.eq ↦ some (q.by_cookie ((l + h) / 2))
  ]
  | false ↦ none
]

unfoldable pub get_event : Queue → ℤ → Option ℕ
get_event q cookie = find_cookie q cookie q.count 0 q.count

unfoldable pub del_event : Queue → ℤ → Queue × Bool
del_event q cookie = elim (get_event q cookie) [
  | none ↦ (q, false)
  | some event ↦ (event_set_state q event EventState.deleted, true)
]

abbrev pub is_dead : ℕ → Bool
is_dead state = state == EventState.deleted || state == EventState.finalized

-- The first loop of queue_cleanup_deleted, with `k` rounds left at index `i`: it gives `t`.
unfoldable pub cleanup_triggers : ℕ → ℕ → ℕ → Queue → ℕ × Queue
cleanup_triggers zero i t q = (t, q)
cleanup_triggers (suc k) i t q =
    let eve = q.by_trigger i in
    elim (is_dead (event_get_state (q.heap eve))) [
      | true ↦ cleanup_triggers k (i + 1) t (event_set_state q eve EventState.finalized)
      | false ↦
          cleanup_triggers k (i + 1) (t + 1) (record q { by_trigger = update q.by_trigger t eve })
    ]

-- The second loop: it gives `c`.
unfoldable pub cleanup_cookies : ℕ → ℕ → ℕ → Queue → ℕ × Queue
cleanup_cookies zero i c q = (c, q)
cleanup_cookies (suc k) i c q =
    let eve = q.by_cookie i in
    elim (is_dead (event_get_state (q.heap eve))) [
      | true ↦ cleanup_cookies k (i + 1) c (record q { freed = eve ∷ q.freed })
      | false ↦
          cleanup_cookies k (i + 1) (c + 1) (record q { by_cookie = update q.by_cookie c eve })
    ]

unfoldable pub cleanup_deleted : Queue → Queue
cleanup_deleted q =
    let (t, q1) = cleanup_triggers q.count 0 0 q in
    let (c, q2) = cleanup_cookies q.count 0 0 q1 in record q2 { count = c }

-- All objects are released, and the tables with them.
unfoldable pub flush_loop : ℕ → ℕ → Queue → Queue
flush_loop zero i q = q
flush_loop (suc k) i q = flush_loop k (i + 1) (record q { freed = q.by_cookie i ∷ q.freed })

unfoldable pub flush_events : Queue → Queue
flush_events q = record (flush_loop q.count 0 q) {
  by_cookie = λ i. 0;
  by_trigger = λ i. 0;
  count = 0;
  alloc = 0;
}
