-- ===== src/Server/Rethink/Steps.antt =====
-- The whole steps of the state machine: each returns, keeps the queue in order, and makes of each
-- event what its outcome says.
use alarmd.Common.{ℕ, Bool, true, false, not, Option, some, if◌then◌else◌, ◌≡◌, refl, ◌∙◌, arith}
use alarmd.Event.{Event}
use alarmd.EventState
use alarmd.Queue.Query.{in_state}
use alarmd.Queue.Valid.{IsValid, Holds}
use alarmd.Server.{Server, sf_connected, sf_act_dead, sf_desktop_up, request_wakeup, state_get}
use alarmd.Event.{has}
use alarmd.Server.Keeps.{Keeps, StepKeeps, Keeps-refl, set_state-Keeps}
use alarmd.Server.Rethink
use alarmd.Server.Rethink.Acted.{after_missed, missed-Local}
use alarmd.Server.Rethink.Outcomes.{
  Surroundings, surroundings, settle, after_snoozed, snoozed-Local, to_state-Local, after_queued,
  queued-Local, after_postponed, postponed-Local, after_limbo, limbo-Local, after_served,
  served-Local,
}
use alarmd.Server.Rethink.Pointwise.{Local, over-Mapped, for_events-env}
use alarmd.Server.Rethink.Safe

-- The step returns, keeps the queue in order and the surroundings as they are, and does `f` to the
-- events in `state` and to no other.
abbrev pub Performs : (Surroundings → Event → Event) → ℕ → Server → Option Server → Type 0
Performs f state s o =
    (s' : Server) × (o ≡ some s')
    × Keeps s.queue s'.queue
    × (surroundings s' ≡ surroundings s)
    × ((p : ℕ)
        → Holds s.queue p
        → s'.queue.heap p ≡ (
            if in_state state (s.queue.heap p)
            then f (surroundings s) (s.queue.heap p)
            else s.queue.heap p))

pub over-Performs :
    (state : ℕ) {f : Surroundings → Event → Event} {body : Server → ℕ → Server}
    → Local surroundings f body
    → StepKeeps body
    → (s : Server) → IsValid s.queue
    → Performs f state s (Rethink.over state body s)
over-Performs state {f} {body} l k s v =
    let (s', done, kept) = Safe.over-Safe state body k s v in
    (
      s',
      done,
      kept,
      for_events-env surroundings f body l k _ s s' done,
      over-Mapped surroundings f body l k state s s' v done,
    )

-- With the queue in order the step returns, keeps it in order and leaves the time, the server's flags,
-- the default snooze and the time zone as they are; each enabled event in MISSED runs its
-- actions for that, and goes by the flags it has then to LIMBO, to POSTPONED, to being disabled with
-- the actions for that, or to SERVED; the other events stay as they are.
pub rethink_missed-Performs :
    (s : Server)
    → IsValid s.queue
    → Performs after_missed EventState.missed s (Rethink.rethink_missed s)
unfolding Rethink.rethink_missed
rethink_missed-Performs = over-Performs EventState.missed missed-Local Safe.missed_body-Keeps

-- With the queue in order the step returns, keeps it in order and leaves the time, the server's flags,
-- the default snooze and the time zone as they are; each enabled event in POSTPONED goes
-- to LIMBO if the time of its trigger and a snooze period is less than a day ago, and otherwise to NEW
-- with the postponed trigger time; the other events stay as they are.
pub rethink_postponed-Performs :
    (s : Server)
    → IsValid s.queue
    → Performs after_postponed EventState.postponed s (Rethink.rethink_postponed s)
unfolding Rethink.rethink_postponed
rethink_postponed-Performs =
    over-Performs EventState.postponed postponed-Local Safe.postponed_body-Keeps

-- With the queue in order the step returns, keeps it in order and leaves the time, the server's flags,
-- the default snooze and the time zone as they are; each enabled event in SNOOZED goes to
-- NEW with a trigger time one snooze period from now, and keeps in `snooze_total` the trigger time
-- from before its first snooze; the other events stay as they are.
pub rethink_snoozed-Performs :
    (s : Server)
    → IsValid s.queue
    → Performs after_snoozed EventState.snoozed s (Rethink.rethink_snoozed s)
unfolding Rethink.rethink_snoozed
rethink_snoozed-Performs = over-Performs EventState.snoozed snoozed-Local Safe.snoozed_body-Keeps

-- With the queue in order the step returns, keeps it in order and leaves the time, the server's flags,
-- the default snooze and the time zone as they are; each enabled event in SERVED goes to
-- RECURRING if it is recurring and to DELETED if not; the other events stay as they are.
pub rethink_served-Performs :
    (s : Server)
    → IsValid s.queue
    → Performs after_served EventState.served s (Rethink.rethink_served s)
unfolding Rethink.rethink_served
rethink_served-Performs = over-Performs EventState.served served-Local Safe.served_body-Keeps

pub set_timeouts-queue : (s : Server) → (Rethink.set_timeouts s).queue ≡ s.queue
unfolding Rethink.set_timeouts request_wakeup
set_timeouts-queue s = ground arith

set_timeouts-surroundings : (s : Server) → surroundings (Rethink.set_timeouts s) ≡ surroundings s
unfolding Rethink.set_timeouts request_wakeup surroundings state_get
set_timeouts-surroundings s = ground arith

-- With the queue in order the step returns, keeps it in order and leaves the time, the server's flags,
-- the default snooze and the time zone as they are; each enabled event in QUEUED goes to
-- WAITCONN if it needs a connection that the server lacks, stays as it is if its time lies ahead, and
-- goes to MISSED if its time is more than 59 seconds ago and to LIMBO if not; the other events stay as
-- they are.
pub rethink_queued-Performs :
    (s : Server)
    → IsValid s.queue
    → Performs after_queued EventState.queued s (Rethink.rethink_queued s)
unfolding Rethink.rethink_queued
rethink_queued-Performs s v =
    let (s', done, kept, env, m) =
      over-Performs EventState.queued queued-Local Safe.queued_body-Keeps s v in
    (
      Rethink.set_timeouts s',
      rw (done, Rethink.rethink_queued) refl,
      rw set_timeouts-queue kept,
      set_timeouts-surroundings s' ∙ env,
      λ p h. rw set_timeouts-queue (m p h),
    )

if_same : (b : Bool) (e : Event) → e ≡ (if b then e else e)
if_same true e = refl
if_same false e = refl

-- A step that is guarded by a flag of the server, and does nothing without it.
guarded-Performs :
    (guard : Bool) (state : ℕ) {f : Surroundings → Event → Event} {body : Server → ℕ → Server}
    → Local surroundings f body
    → StepKeeps body
    → (s : Server) → IsValid s.queue
    → Performs
        (λ w e. if guard then f w e else e)
        state
        s
        (if guard then Rethink.over state body s else some s)
guarded-Performs true state l k s v = over-Performs state l k s v
guarded-Performs false state l k s v = (s, refl, Keeps-refl v, refl, λ p h. if_same _ _)

unfoldable pub leaves_limbo : Surroundings → Event → Event
leaves_limbo w e =
    if has w.flags sf_desktop_up then after_limbo (not (has w.flags sf_act_dead)) w e else e

-- With the queue in order the step returns, keeps it in order and leaves the time, the server's flags,
-- the default snooze and the time zone as they are; if the desktop is up, each enabled
-- event in LIMBO goes to TRIGGERED in user mode, or if it may run in act dead; all else stays as it is.
pub rethink_limbo-Performs :
    (s : Server)
    → IsValid s.queue
    → Performs leaves_limbo EventState.limbo s (Rethink.rethink_limbo s)
unfolding Rethink.rethink_limbo leaves_limbo surroundings
rethink_limbo-Performs s v =
    guarded-Performs _ EventState.limbo (limbo-Local _) (Safe.limbo_body-Keeps _) s v

pub leaves_waitconn : Surroundings → Event → Event
leaves_waitconn w e = if has w.flags sf_connected then settle EventState.new e else e

-- With the queue in order the step returns, keeps it in order and leaves the time, the server's flags,
-- the default snooze and the time zone as they are; each enabled event in WAITCONN goes
-- to NEW if the server is connected; all else stays as it is.
pub rethink_waitconn-Performs :
    (s : Server)
    → IsValid s.queue
    → Performs leaves_waitconn EventState.waitconn s (Rethink.rethink_waitconn s)
unfolding Rethink.rethink_waitconn leaves_waitconn surroundings
rethink_waitconn-Performs s v =
    guarded-Performs _ EventState.waitconn (to_state-Local _) (set_state-Keeps EventState.new) s v
