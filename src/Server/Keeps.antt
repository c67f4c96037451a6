-- ===== src/Server/Keeps.antt =====
-- What the server does to an event keeps the queue in order, with the same events and cookies.
use alarmd.Common.{
  ℕ, Bool, true, false, List, [], ◌∷◌, Option, none, some, ℤ, if◌then◌else◌, ◌≡◌, refl, ◌∙◌, arith,
}
use alarmd.Event.{Event, Action, has}
use alarmd.EventState
use alarmd.Queue.{Queue, event_set_trigger}
use alarmd.Queue.Reschedule.{event_set_trigger-IsValid}
use alarmd.Queue.Transition.{event_set_state-SameKeys}
use alarmd.Queue.Valid.{IsValid, Holds, SameKeys, SameKeys-IsValid, SameKeys-Holds}
use alarmd.Server.{Server, with_queue}
use alarmd.Server.Actions.{
  do_snooze, do_disable, do_exec, do_dbus, do_all, do_actions, do_state_actions,
  do_response_actions, write_event, set_state, action_get_type, action_get_when, type_snooze,
  type_disable, type_dbus, type_exec, when_responded, respond, response_action,
}

pub record Keeps (q r : Queue) : Type 0 where
  pub valid : IsValid r
  pub held : (p : ℕ) → Holds q p → Holds r p
  pub cookies : (p : ℕ) → Holds q p → (r.heap p).cookie ≡ (q.heap p).cookie

pub Keeps-refl : {q : Queue} → IsValid q → Keeps q q
Keeps-refl v = record { valid = v; held = λ p h. h; cookies = λ p h. refl }

pub Keeps-trans : {q r s : Queue} → Keeps q r → Keeps r s → Keeps q s
Keeps-trans f g = record {
  valid = g.valid;
  held = λ p h. g.held p (f.held p h);
  cookies = λ p h. g.cookies p (f.held p h) ∙ f.cookies p h;
}

pub SameKeys-Keeps : {q r : Queue} → IsValid q → SameKeys q r → Keeps q r
SameKeys-Keeps v k = record {
  valid = SameKeys-IsValid v k;
  held = λ p h. SameKeys-Holds v k p h;
  cookies = k.cookie_kept;
}

-- A step on the event at `p`.
abbrev pub StepKeeps : (Server → ℕ → Server) → Type 0
StepKeeps body =
    (s : Server) (p : ℕ) → IsValid s.queue → Holds s.queue p → Keeps s.queue (body s p).queue

pub then-Keeps :
    (body : Server → ℕ → Server) {q : Queue} (s : Server) (p : ℕ)
    → StepKeeps body
    → Holds q p
    → Keeps q s.queue
    → Keeps q (body s p).queue
then-Keeps body s p step h k = Keeps-trans k (step s p k.valid (k.held p h))

pub if-Keeps :
    (b : Bool) {q : Queue} (x y : Server)
    → Keeps q x.queue
    → Keeps q y.queue
    → Keeps q (if b then x else y).queue
if-Keeps true x y h k = h
if-Keeps false x y h k = k

pub set_state-Keeps : (state : ℕ) → StepKeeps (λ s p. set_state s p state)
set_state-Keeps state s p v h = SameKeys-Keeps v (event_set_state-SameKeys s.queue p state)

pub set_trigger-Keeps :
    (trigger : ℤ) → StepKeeps (λ s p. with_queue s (event_set_trigger s.queue p trigger))
set_trigger-Keeps trigger s p v h = record {
  valid = event_set_trigger-IsValid v h trigger;
  held = λ r k. unfold event_set_trigger in k;
  cookies = λ r k. unfold event_set_trigger in ground arith;
}

pub then_set_state-Keeps :
    {q : Queue} (s : Server) (p state : ℕ)
    → Holds q p
    → Keeps q s.queue
    → Keeps q (set_state s p state).queue
then_set_state-Keeps s p state h k =
    then-Keeps (λ s p. set_state s p state) s p (set_state-Keeps state) h k

-- A write that leaves the cookie and the trigger alone.
pub write_event-Keeps :
    (s : Server) (p : ℕ) (e : Event)
    → IsValid s.queue
    → e.cookie ≡ (s.queue.heap p).cookie
    → e.trigger ≡ (s.queue.heap p).trigger
    → Keeps s.queue (write_event s p e).queue
write_event-Keeps s p e v c t = SameKeys-Keeps v (record {
  cookies_kept = refl;
  triggers_kept = refl;
  count_kept = refl;
  alloc_kept = refl;
  top_kept = omega arith;
  cookie_kept = λ r h. ground arith;
  trigger_kept = λ r h. ground arith;
})

do_snooze-Keeps : StepKeeps do_snooze
unfolding do_snooze
do_snooze-Keeps = set_state-Keeps EventState.snoozed

do_disable-Keeps : StepKeeps do_disable
unfolding do_disable
do_disable-Keeps s p v h = write_event-Keeps s p _ v refl refl

do_dbus-Keeps : (a : Action) → StepKeeps (λ s p. do_dbus s p a)
unfolding do_dbus
do_dbus-Keeps a s p v h = Keeps-refl v

do_exec-Keeps : (a : Action) → StepKeeps (λ s p. do_exec s p a)
unfolding do_exec
do_exec-Keeps a s p v h = if-Keeps _ _ _ (Keeps-refl v) (Keeps-refl v)

do_all-Keeps : (a : Action) → StepKeeps (λ s p. do_all s p a)
unfolding do_all
do_all-Keeps a s p v h =
    if-Keeps (has t type_exec) _ _ (then-Keeps (λ s p. do_exec s p a) s3 p (do_exec-Keeps a) h k3)
      k3
  where
    t : ℕ
    t = action_get_type a

    s1 : Server
    s1 = if has t type_snooze then do_snooze s p else s

    k1 : Keeps s.queue s1.queue
    k1 = if-Keeps (has t type_snooze) _ _ (do_snooze-Keeps s p v h) (Keeps-refl v)

    s2 : Server
    s2 = if has t type_disable then do_disable s1 p else s1

    k2 : Keeps s.queue s2.queue
    k2 = if-Keeps (has t type_disable) _ _ (then-Keeps do_disable s1 p do_disable-Keeps h k1) k1

    s3 : Server
    s3 = if has t type_dbus then do_dbus s2 p a else s2

    k3 : Keeps s.queue s3.queue
    k3 =
        if-Keeps (has t type_dbus) _ _
          (then-Keeps (λ s p. do_dbus s p a) s2 p (do_dbus-Keeps a) h k2) k2

do_actions-Keeps : (acts : List Action) (when : ℕ) → StepKeeps (λ s p. do_actions acts s p when)
unfolding do_actions
do_actions-Keeps [] when s p v h = Keeps-refl v
do_actions-Keeps (a ∷ acts) when s p v h =
    then-Keeps (λ s p. do_actions acts s p when)
      (if has (action_get_when a) when then do_all s p a else s) p (do_actions-Keeps acts when) h
      (if-Keeps (has (action_get_when a) when) _ _ (do_all-Keeps a s p v h) (Keeps-refl v))

pub do_state_actions-Keeps : (when : ℕ) → StepKeeps (λ s p. do_state_actions s p when)
unfolding do_state_actions
do_state_actions-Keeps when s p v h = do_actions-Keeps (s.queue.heap p).action_tab when s p v h

respond-Keeps : (o : Option Action) → StepKeeps (λ s p. respond s p o)
unfolding respond
respond-Keeps none s p v h = Keeps-refl v
respond-Keeps (some a) s p v h =
    if-Keeps (has (action_get_when a) when_responded) _ _ (do_all-Keeps a s p v h) (Keeps-refl v)

pub do_response_actions-Keeps : StepKeeps do_response_actions
unfolding do_response_actions
do_response_actions-Keeps s p v h =
    respond-Keeps (response_action (s.queue.heap p).action_tab (s.queue.heap p).response) s p v h
