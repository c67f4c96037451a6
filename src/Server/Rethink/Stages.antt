-- ===== src/Server/Rethink/Stages.antt =====
-- Any sequence of the modelled steps, and of the handlers that run between them.
use alarmd.Common.{
  ℕ, Bool, true, false, List, [], ◌∷◌, Option, none, some, ℤ, if◌then◌else◌, ◌≡◌, refl,
}
use alarmd.EventState
use alarmd.Calendar.{Driver}
use alarmd.Queue.{Queue, cleanup_deleted}
use alarmd.Queue.Collected.{cleanup_deleted-IsValid}
use alarmd.Queue.Valid.{IsValid}
use alarmd.Server.{Server, Effect, with_queue, emit}
use alarmd.Server.Keeps.{set_state-Keeps}
use alarmd.Server.Rethink
use alarmd.Server.Rethink.Recurring.{rethink_recurring, rethink_timechange}
use alarmd.Server.Rethink.Rescheduled.{rethink_recurring-Performs}
use alarmd.Server.Rethink.TimeChange.{rethink_timechange-Changed}
use alarmd.Server.Rethink.Safe
use alarmd.Server.Rethink.Steps.{set_timeouts-queue}

pub data Stage : Type 0 where
  new : Stage
  waitconn : Stage
  queued : Stage
  missed : Stage
  postponed : Stage
  limbo : Stage
  triggered : Stage
  waitsysui : Stage
  sysui_req : Stage
  sysui_ack : Stage
  sysui_rsp : Stage
  snoozed : Stage
  served : Stage
  recurring : Driver → ℕ → Stage
  timechange : Driver → ℕ → Stage
  deleted : Stage
  cleanup : Stage

unfoldable pub run_stage : Stage → Server → Option Server
run_stage new s = Rethink.rethink_new s
run_stage waitconn s = Rethink.rethink_waitconn s
run_stage queued s = Rethink.rethink_queued s
run_stage missed s = Rethink.rethink_missed s
run_stage postponed s = Rethink.rethink_postponed s
run_stage limbo s = Rethink.rethink_limbo s
run_stage triggered s = Rethink.rethink_triggered s
run_stage waitsysui s = Rethink.rethink_waitsysui s
run_stage sysui_req s = Rethink.rethink_sysui_req s
run_stage sysui_ack s = Rethink.rethink_sysui_ack s
run_stage sysui_rsp s = Rethink.rethink_sysui_rsp s
run_stage snoozed s = Rethink.rethink_snoozed s
run_stage served s = Rethink.rethink_served s
run_stage (recurring driver fuel) s = rethink_recurring driver fuel s
run_stage (timechange driver fuel) s = elim (rethink_timechange driver fuel s) [
  | none ↦ none
  | some (again, s') ↦ some s'
]
run_stage deleted s = Rethink.rethink_deleted s
run_stage cleanup s = some (with_queue s (cleanup_deleted s.queue))

-- The steps one after the other, until one fails.
unfoldable pub run_stages : List Stage → Server → Option Server
run_stages [] s = some s
run_stages (g ∷ gs) s = elim (run_stage g s) [ none ↦ none | some s' ↦ run_stages gs s' ]

-- The step returns with the queue in order.
abbrev pub Returns : Option Server → Type 0
Returns o = (s' : Server) × (o ≡ some s') × IsValid s'.queue

returns : {q : Queue} (o : Option Server) → Safe.Safe q o → Returns o
returns o (s', done, k) = (s', done, k.valid)

guarded-Returns :
    (guard : Bool) (o : Option Server) (s : Server)
    → IsValid s.queue
    → Returns o
    → Returns (if guard then o else some s)
guarded-Returns true o s v r = r
guarded-Returns false o s v r = (s, refl, v)

guarded_not-Returns :
    (guard : Bool) (o : Option Server) (s : Server)
    → IsValid s.queue
    → Returns o
    → Returns (if guard then some s else o)
guarded_not-Returns true o s v r = (s, refl, v)
guarded_not-Returns false o s v r = r

if_any-Returns :
    (vec : List ℤ) (e : Effect) (o : Option Server) → Returns o → Returns (Rethink.if_any vec e o)
if_any-Returns [] e none r = r
if_any-Returns [] e (some s) r = r
if_any-Returns (c ∷ cs) e none r = r
if_any-Returns (c ∷ cs) e (some s) (s', done, v) =
    let same : s ≡ s' = cc in (emit s e, refl, rw same v)

module _ (s : Server) (v : IsValid s.queue) where
  over_state-Returns : (from to : ℕ) → Returns (Rethink.over from (Rethink.to_state to) s)
  over_state-Returns from to =
      returns _ (Safe.over-Safe from (Rethink.to_state to) (set_state-Keeps to) s v)

  queued-Returns : Returns (Rethink.rethink_queued s)
  unfolding Rethink.rethink_queued
  queued-Returns =
      let (s', done, k) =
        Safe.over-Safe EventState.queued Rethink.queued_body Safe.queued_body-Keeps s v in
      (
        Rethink.set_timeouts s',
        rw (done, Rethink.rethink_queued) refl,
        rw set_timeouts-queue k.valid,
      )

  pub run_stage-Returns : (g : Stage) → Returns (run_stage g s)
  unfolding run_stage Rethink.rethink_new Rethink.rethink_waitconn Rethink.rethink_missed
      Rethink.rethink_postponed Rethink.rethink_limbo Rethink.rethink_triggered
      Rethink.rethink_waitsysui Rethink.rethink_sysui_req Rethink.rethink_sysui_ack
      Rethink.rethink_sysui_rsp Rethink.rethink_snoozed Rethink.rethink_served
      Rethink.rethink_deleted
  run_stage-Returns new = returns _ (Safe.over-Safe _ _ Safe.new_body-Keeps s v)
  run_stage-Returns waitconn =
      guarded-Returns _ _ s v (over_state-Returns EventState.waitconn EventState.new)
  run_stage-Returns queued = queued-Returns
  run_stage-Returns missed = returns _ (Safe.over-Safe _ _ Safe.missed_body-Keeps s v)
  run_stage-Returns postponed = returns _ (Safe.over-Safe _ _ Safe.postponed_body-Keeps s v)
  run_stage-Returns limbo =
      guarded-Returns _ _ s v (returns _ (Safe.over-Safe _ _ (Safe.limbo_body-Keeps _) s v))
  run_stage-Returns triggered = returns _ (Safe.over-Safe _ _ Safe.triggered_body-Keeps s v)
  run_stage-Returns waitsysui =
      guarded-Returns _ _ s v
        (if_any-Returns _ _ _ (over_state-Returns EventState.waitsysui EventState.sysui_req))
  run_stage-Returns sysui_req =
      guarded_not-Returns _ _ s v (over_state-Returns EventState.sysui_req EventState.waitsysui)
  run_stage-Returns sysui_ack =
      guarded_not-Returns _ _ s v (over_state-Returns EventState.sysui_ack EventState.waitsysui)
  run_stage-Returns sysui_rsp = returns _ (Safe.over-Safe _ _ Safe.sysui_rsp_body-Keeps s v)
  run_stage-Returns snoozed = returns _ (Safe.over-Safe _ _ Safe.snoozed_body-Keeps s v)
  run_stage-Returns served = returns _ (Safe.over-Safe _ _ Safe.served_body-Keeps s v)
  run_stage-Returns (recurring driver fuel) =
      let (s', done, k, env, each, rest) = rethink_recurring-Performs driver fuel s v in
      (s', done, k.valid)
  run_stage-Returns (timechange driver fuel) =
      let (again, s', done, c) = rethink_timechange-Changed driver fuel s v in
      rw (done, run_stage) (s', refl, c.valid)
  run_stage-Returns deleted =
      if_any-Returns _ _ _ (returns _ (Safe.over-Safe _ _ Safe.deleted_body-Keeps s v))
  run_stage-Returns cleanup =
      (with_queue s (cleanup_deleted s.queue), refl, cleanup_deleted-IsValid v)

-- From a queue in order, every sequence of steps runs to its end, without a dereference of NULL,
-- and leaves the queue in order.
pub run_stages-Returns :
    (gs : List Stage) (s : Server) → IsValid s.queue → Returns (run_stages gs s)
unfolding run_stages
run_stages-Returns [] s v = (s, refl, v)
run_stages-Returns (g ∷ gs) s v =
    let (s', done, v') = run_stage-Returns s v g in
    rw (done, run_stages) (run_stages-Returns gs s' v')
