-- ===== src/Server/Rethink/Safe.antt =====
-- No step of the state machine dereferences the NULL of a failed queue_get_event, and each keeps
-- the queue in order.
use alarmd.Common.{
  ℕ, suc, zero, ◌≤◌, Bool, List, [], ◌∷◌, Option, some, ℤ, pos, if◌then◌else◌, ◌≡◌, refl, ◌∙◌,
  arith, Bool-cases, inl, inr, eqb_ℤ, ◌+ℤ◌,
}
use alarmd.Event.{Event, set_bit, event_disabled}
use alarmd.EventState
use alarmd.Queue.{Queue, get_event}
use alarmd.Queue.Lookup.{get_event-Looks}
use alarmd.Queue.Query.{collect, in_state, query_by_state, query_by_state-collect}
use alarmd.Queue.Valid.{IsValid, Holds, Holds-by_trigger}
use alarmd.Server.{Server, for_events}
use alarmd.Server.Actions.{
  do_state_actions, do_response_actions, set_state, event_get_snooze, count_buttons, write_event,
}
use alarmd.Server.Keeps.{
  Keeps, Keeps-refl, Keeps-trans, StepKeeps, then-Keeps, if-Keeps, set_state-Keeps,
  then_set_state-Keeps, set_trigger-Keeps, write_event-Keeps, do_state_actions-Keeps,
  do_response_actions-Keeps,
}
use alarmd.Server.Rethink
use alarmd.Server.Actions

-- Each cookie is that of a queued event.
abbrev pub Resolves : Queue → List ℤ → Type 0
Resolves q [] = Unit {0}
Resolves q (c ∷ cs) = ((p : ℕ) × Holds q p × ((q.heap p).cookie ≡ c)) × Resolves q cs

pub Resolves-Keeps : {q r : Queue} (cs : List ℤ) → Keeps q r → Resolves q cs → Resolves r cs
Resolves-Keeps [] k h = tt
Resolves-Keeps (c ∷ cs) k ((p, h, e), t) =
    ((p, k.held p h, k.cookies p h ∙ e), Resolves-Keeps cs k t)

collect-Resolves :
    {q : Queue} (f : Event → Bool) (n : ℕ) → IsValid q → n ≤ q.count → Resolves q (collect f q n)
unfolding collect
collect-Resolves f zero v h = tt
collect-Resolves {q} f (suc n) v h = elim (Bool-cases (f (q.heap (q.by_trigger n)))) [
  | inl hit ↦ rw hit (
      (
        (q.by_trigger n, Holds-by_trigger v n (omega arith), refl),
        collect-Resolves f n v (omega arith),
      ))
  | inr miss ↦ rw miss (collect-Resolves f n v (omega arith))
]

pub query_by_state-Resolves :
    {q : Queue} (state : ℕ) → IsValid q → Resolves q (query_by_state q state)
query_by_state-Resolves {q} state v =
    rw query_by_state-collect (collect-Resolves (in_state state) q.count v (omega arith))

-- The step returns, and keeps the queue.
abbrev pub Safe : Queue → Option Server → Type 0
Safe q o = (s' : Server) × (o ≡ some s') × Keeps q s'.queue

pub for_events-Safe :
    (body : Server → ℕ → Server)
    → StepKeeps body
    → (cs : List ℤ) (s : Server) → IsValid s.queue
    → Resolves s.queue cs
    → Safe s.queue (for_events body cs s)
unfolding for_events
for_events-Safe body step [] s v r = (s, refl, Keeps-refl v)
for_events-Safe body step (c ∷ cs) s v ((p, h, e), r) =
    let found : get_event s.queue c ≡ some p = ((get_event-Looks v c).0 p).1 (h, e) in
    let k = step s p v h in
    let (s', done, k') = for_events-Safe body step cs (body s p) k.valid (Resolves-Keeps cs k r) in
    (s', rw (found, for_events) done, Keeps-trans k k')

pub over-Safe :
    (state : ℕ) (body : Server → ℕ → Server)
    → StepKeeps body
    → (s : Server) → IsValid s.queue
    → Safe s.queue (Rethink.over state body s)
over-Safe state body step s v = for_events-Safe body step _ s v (query_by_state-Resolves state v)

pub new_body-Keeps : StepKeeps Rethink.new_body
unfolding Rethink.new_body
new_body-Keeps s p v h = if-Keeps _ _ _ (set_state-Keeps EventState.waitconn s p v h) (
    then-Keeps (λ s p. do_state_actions s p Actions.when_queued) (set_state s p EventState.queued) p
      (do_state_actions-Keeps _) h (set_state-Keeps EventState.queued s p v h))

pub queued_body-Keeps : StepKeeps Rethink.queued_body
unfolding Rethink.queued_body Rethink.note_future
queued_body-Keeps s p v h = if-Keeps _ _ _ (set_state-Keeps EventState.waitconn s p v h) (
    if-Keeps _ _ _ (Keeps-refl v) (
      if-Keeps _ _ _ (set_state-Keeps EventState.missed s p v h)
        (set_state-Keeps EventState.limbo s p v h)))

disable_missed-Keeps : StepKeeps Rethink.disable_missed
unfolding Rethink.disable_missed
disable_missed-Keeps s p v h =
    then-Keeps (λ s p. do_state_actions s p Actions.when_disabled)
      (write_event s p
        (record (s.queue.heap p) { flags = set_bit (s.queue.heap p).flags event_disabled }))
      p (do_state_actions-Keeps _) h (write_event-Keeps s p _ v refl refl)

pub missed_body-Keeps : StepKeeps Rethink.missed_body
unfolding Rethink.missed_body
missed_body-Keeps s p v h = if-Keeps _ _ _ (to EventState.limbo) (
    if-Keeps _ _ _ (to EventState.postponed) (
      if-Keeps _ _ _
        (then-Keeps Rethink.disable_missed (do_state_actions s p Actions.when_delayed) p
          disable_missed-Keeps h acted)
        (to EventState.served)))
  where
    acted : Keeps s.queue (do_state_actions s p Actions.when_delayed).queue
    acted = do_state_actions-Keeps Actions.when_delayed s p v h

    to :
        (state : ℕ)
        → Keeps s.queue (set_state (do_state_actions s p Actions.when_delayed) p state).queue
    to state = then_set_state-Keeps (do_state_actions s p Actions.when_delayed) p state h acted

pub postponed_body-Keeps : StepKeeps Rethink.postponed_body
unfolding Rethink.postponed_body
postponed_body-Keeps s p v h = if-Keeps _ _ _ (set_state-Keeps EventState.limbo s p v h) (
    then_set_state-Keeps (Rethink.set_trigger s p later) p EventState.new h
      (set_trigger-Keeps later s p v h))
  where
    later : ℤ
    later =
        Rethink.postpone s.rethink_time (event_get_snooze s (s.queue.heap p))
          (s.queue.heap p).trigger

pub limbo_body-Keeps : (user : Bool) → StepKeeps (Rethink.limbo_body user)
unfolding Rethink.limbo_body
limbo_body-Keeps user s p v h =
    if-Keeps _ _ _ (set_state-Keeps EventState.triggered s p v h) (Keeps-refl v)

pub triggered_body-Keeps : StepKeeps Rethink.triggered_body
unfolding Rethink.triggered_body
triggered_body-Keeps s p v h =
    if-Keeps _ _ _ (to EventState.waitsysui) (if-Keeps _ _ _ acted (to EventState.served))
  where
    acted : Keeps s.queue (do_state_actions s p Actions.when_triggered).queue
    acted = do_state_actions-Keeps Actions.when_triggered s p v h

    to :
        (state : ℕ)
        → Keeps s.queue (set_state (do_state_actions s p Actions.when_triggered) p state).queue
    to state = then_set_state-Keeps (do_state_actions s p Actions.when_triggered) p state h acted

pub response_body-Keeps : StepKeeps Rethink.response_body
unfolding Rethink.response_body
response_body-Keeps s p v h =
    if-Keeps _ _ _ acted
      (then_set_state-Keeps (do_response_actions s p) p EventState.served h acted)
  where
    acted : Keeps s.queue (do_response_actions s p).queue
    acted = do_response_actions-Keeps s p v h

pub sysui_rsp_body-Keeps : StepKeeps Rethink.sysui_rsp_body
unfolding Rethink.sysui_rsp_body
sysui_rsp_body-Keeps s p v h =
    if-Keeps _ _ _ (write_event-Keeps s p _ v refl refl) (response_body-Keeps s p v h)

pub snoozed_body-Keeps : StepKeeps Rethink.snoozed_body
unfolding Rethink.snoozed_body
snoozed_body-Keeps s p v h =
    then_set_state-Keeps (Rethink.set_trigger s1 p curr) p EventState.new h (
      then-Keeps (λ s p. Rethink.set_trigger s p curr) s1 p (set_trigger-Keeps curr) h
        (write_event-Keeps s p first v (ground arith) (ground arith)))
  where
    e : Event
    e = s.queue.heap p

    curr : ℤ
    curr = s.rethink_time +ℤ event_get_snooze s e

    first : Event
    first = if eqb_ℤ e.snooze_total (pos 0) then record e { snooze_total = e.trigger } else e

    s1 : Server
    s1 = write_event s p first

pub served_body-Keeps : StepKeeps Rethink.served_body
unfolding Rethink.served_body
served_body-Keeps s p v h = set_state-Keeps _ s p v h

pub deleted_body-Keeps : StepKeeps Rethink.deleted_body
unfolding Rethink.deleted_body
deleted_body-Keeps = do_state_actions-Keeps Actions.when_deleted
