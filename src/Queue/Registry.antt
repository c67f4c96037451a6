-- ===== src/Queue/Registry.antt =====
-- The queue as its clients see it: a registry of events by cookie, with what each operation of
-- src/queue.c does to it. The queue implements the registry, over any sequence of calls.
use alarmd.Common.{
  ℕ, ◌≡◌, Bool, true, false, Option, none, some, List, [], ◌∷◌, ℤ, pos, ◌+ℤ◌, eqb_ℤ, ltb_ℤ,
  if◌then◌else◌, update,
}
use alarmd.Event.{Event}
use alarmd.EventState
use alarmd.Queue.{
  Queue, add_event, get_event, del_event, event_set_state, event_set_trigger, cleanup_deleted,
  filter_state, with_state, event_get_state, is_dead,
}
use alarmd.Queue.Valid.{Holds}
use alarmd.Queue.View.{view, change}

pub record Registry : Type 0 where
  pub last : ℤ
  pub alarms : ℤ → Option Event

abbrev pub registry : Queue → Registry
registry q = record { last = q.cookie; alarms = view q }

-- A call: `add` stores a new object at a pointer and adds it, and the others name a cookie.
pub data Call : Type 0 where
  add : ℕ → Event → Call
  move : ℤ → ℕ → Call
  retime : ℤ → ℤ → Call
  delete : ℤ → Call
  find : ℤ → Call
  clean : Call

pub data Answer : Type 0 where
  cookie : ℤ → Answer
  known : Bool → Answer
  event : Option Event → Answer
  nothing : Answer

-- What is done to the event that queue_get_event finds, if there is one
abbrev pub on_event : Queue → ℤ → (ℕ → Queue) → Queue
on_event q c f = elim (get_event q c) [ none ↦ q | some p ↦ f p ]

abbrev pub store : Queue → ℕ → Event → Queue
store q p e = record q { heap = update q.heap p e }

unfoldable pub call : Queue → Call → Queue × Answer
call q (add p e) = let r = add_event (store q p e) p in (r.0, cookie r.1)
call q (move c state) = (on_event q c (λ p. event_set_state q p state), nothing)
call q (retime c trigger) = (on_event q c (λ p. event_set_trigger q p trigger), nothing)
call q (delete c) = let r = del_event q c in (r.0, known r.1)
call q (find c) = (q, event (view q c))
call q clean = (cleanup_deleted q, nothing)

-- The registry's own account of the calls.
unfoldable pub new_cookie : ℤ → Event → ℤ
new_cookie last e = if eqb_ℤ e.cookie (pos 0) then last +ℤ pos 1 else e.cookie

unfoldable pub new_last : ℤ → Event → ℤ
new_last last e =
    if eqb_ℤ e.cookie (pos 0) then last +ℤ pos 1 else if ltb_ℤ last e.cookie then e.cookie else last

abbrev pub enter : (ℤ → Option Event) → Event → ℤ → Option Event
enter alarms e c = if eqb_ℤ c e.cookie then some e else alarms c

abbrev pub moved : ℕ → Event → Event
moved state e = with_state e (filter_state (event_get_state e) state)

abbrev pub is_some : Option Event → Bool
is_some none = false
is_some (some e) = true

abbrev pub alive : Option Event → Option Event
alive none = none
alive (some e) = if is_dead (event_get_state e) then none else some e

unfoldable pub specified : Registry → Call → Registry × Answer
specified b (add p e) =
    let e' : Event = record e { cookie = new_cookie b.last e } in
    (record { last = new_last b.last e; alarms = enter b.alarms e' }, cookie e'.cookie)
specified b (move c state) = (record b { alarms = change (moved state) c b.alarms }, nothing)
specified b (retime c trigger) =
    (record b { alarms = change (λ e. record e { trigger = trigger }) c b.alarms }, nothing)
specified b (delete c) = (
  record b { alarms = change (moved EventState.deleted) c b.alarms },
  known (is_some (b.alarms c)),
)
specified b (find c) = (b, event (b.alarms c))
specified b clean = (record b { alarms = λ c. alive (b.alarms c) }, nothing)

-- The caller's part: an event is added at a pointer that the queue does not hold, and without a
-- cookie that is in use.
unfoldable pub Allowed : Queue → Call → Type 0
Allowed q (add p e) = (¬ (Holds q p)) × (view q e.cookie ≡ none)
Allowed q _ = Unit {0}

-- A sequence of calls on the queue and on the registry, with their answers.
unfoldable pub run : Queue → List Call → Queue × List Answer
run q [] = (q, [])
run q (c ∷ cs) = let r = call q c in let rest = run r.0 cs in (rest.0, r.1 ∷ rest.1)

unfoldable pub replay : Registry → List Call → Registry × List Answer
replay b [] = (b, [])
replay b (c ∷ cs) = let r = specified b c in let rest = replay r.0 cs in (rest.0, r.1 ∷ rest.1)

-- Every call is allowed when its turn comes.
unfoldable pub AllAllowed : Queue → List Call → Type 0
AllAllowed q [] = Unit {0}
AllAllowed q (c ∷ cs) = Allowed q c × AllAllowed (call q c).0 cs
