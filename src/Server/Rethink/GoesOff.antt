-- ===== src/Server/Rethink/GoesOff.antt =====
-- An alarm that is due goes off in the round that finds it due.
use alarmd.Common.{
  ◌>>=◌, ℕ, ltb, true, false, not, ◌&&◌, ◌||◌, ◌==◌, ==_iff, Option, some, pos, ◌-ℤ◌, Bool-cases,
  inl, inr, ◌⊎◌, ◌≡◌, refl, sym, subst, ap, ◌∙◌, arith, ltb_ℤ,
}
use alarmd.Event.{Event, has, event_connected, event_disabled, event_actdead}
use alarmd.EventState
use alarmd.Queue.{event_get_state, filter_state, with_state}
use alarmd.Queue.Query.{in_state}
use alarmd.Queue.Transition.{get_state-with_state}
use alarmd.Queue.Valid.{IsValid, Holds}
use alarmd.Server.{Server, sf_connected, sf_act_dead, sf_desktop_up}
use alarmd.Server.Actions
use alarmd.Server.Rethink
use alarmd.Server.Rethink.Acted.{after_triggered, acted}
use alarmd.Server.Rethink.Outcomes.{Surroundings, surroundings, settle, after_queued, after_limbo}
use alarmd.Server.Rethink.Steps.{
  leaves_limbo, rethink_queued-Performs, rethink_missed-Performs, rethink_postponed-Performs,
  rethink_limbo-Performs,
}
use alarmd.Server.Rethink.Speaks.{says_triggered, rethink_triggered-Performs}
use alarmd.Server.Rethink.Told.{told_all}
use alarmd.Server.Rethink.Said.{Block, Block-append, said-listed}

-- The steps from QUEUED to TRIGGERED, in the order of server_rethink_start_cb
unfoldable pub ring : Server → Option Server
ring s = do
  s ← Rethink.rethink_queued s
  s ← Rethink.rethink_missed s
  s ← Rethink.rethink_postponed s
  s ← Rethink.rethink_limbo s
  Rethink.rethink_triggered s

-- An enabled event in QUEUED whose time has come, at most 59 seconds ago, on a server that has what
-- the event needs, with the desktop up, in user mode or for an event that may run in act dead
pub record IsDue (w : Surroundings) (e : Event) : Type 0 where
  pub listed : in_state EventState.queued e ≡ true
  pub connected : (has e.flags event_connected && not (has w.flags sf_connected)) ≡ false
  pub come : ltb_ℤ w.now e.trigger ≡ false
  pub recent : ltb_ℤ (pos 59) (w.now -ℤ e.trigger) ≡ false
  pub desktop : has w.flags sf_desktop_up ≡ true
  pub mode : (not (has w.flags sf_act_dead) || has e.flags event_actdead) ≡ true

settled-state :
    (e : Event) (state : ℕ)
    → (state ≡ EventState.limbo)
      ⊎ (state ≡ EventState.triggered)
      ⊎ (state ≡ EventState.waitsysui)
      ⊎ (state ≡ EventState.served)
    → event_get_state (settle state e) ≡ state
unfolding settle filter_state
settled-state e state h = get_state-with_state e _ ∙ ground arith

-- The client's flags of an event in another state
flag_kept :
    (e : Event) (state : ℕ) (k : ℕ)
    → (k ≡ event_disabled) ⊎ (k ≡ event_actdead)
    → has (settle state e).flags k ≡ has e.flags k
unfolding settle with_state
flag_kept e state k (inl h) = rw h (ground arith)
flag_kept e state k (inr h) = rw h (ground arith)

listed_after :
    (e : Event) (from state other : ℕ)
    → in_state from e ≡ true
    → event_get_state (settle state e) ≡ state
    → in_state other (settle state e) ≡ (state == other)
listed_after e from state other h k =
    rw (flag_kept e state event_disabled (inl refl), k) (ground arith)

-- The event when the steps have taken it to TRIGGERED
abbrev pub rung : Event → Event
rung e = settle EventState.triggered (settle EventState.limbo e)

after_queued-due :
    (w : Surroundings) (e : Event) → IsDue w e → after_queued w e ≡ settle EventState.limbo e
unfolding after_queued
after_queued-due w e due = rw (due.connected, due.come, due.recent) refl

leaves_limbo-due :
    (w : Surroundings) (e : Event) → IsDue w e → leaves_limbo w (settle EventState.limbo e) ≡ rung e
unfolding leaves_limbo after_limbo
leaves_limbo-due w e due =
    rw (due.desktop, flag_kept e EventState.limbo event_actdead (inr refl), due.mode) refl

rung-says :
    (w : Surroundings) (e : Event)
    → says_triggered w (rung e) ≡ told_all e.action_tab Actions.when_triggered e.cookie
unfolding says_triggered settle with_state
rung-says w e = refl

-- Where a triggered event stands afterwards
abbrev pub HasRung : Event → Type 0
HasRung e =
    (event_get_state e ≡ EventState.waitsysui)
    ⊎ (event_get_state e ≡ EventState.snoozed)
    ⊎ (event_get_state e ≡ EventState.served)

after_triggered-HasRung : (w : Surroundings) (e : Event) → HasRung (after_triggered w e)
unfolding after_triggered
after_triggered-HasRung w e0 =
    let e = acted e0.action_tab Actions.when_triggered e0 in
    elim (Bool-cases (ltb 0 (Actions.count_buttons e.action_tab))) [
      | inl buttons ↦ rw buttons (inl (settled-state e EventState.waitsysui (inr (inr (inl refl)))))
      | inr no_buttons ↦ elim (Bool-cases (event_get_state e == EventState.snoozed)) [
        | inl snoozed ↦ rw (no_buttons, snoozed) (inr (inl ((==_iff _ _).0 snoozed)))
        | inr awake ↦
            rw (no_buttons, awake)
              (inr (inr (settled-state e EventState.served (inr (inr (inr refl))))))
      ]
    ]

module _ (s : Server) (v : IsValid s.queue) (p : ℕ) (h : Holds s.queue p)
    (due : IsDue (surroundings s) (s.queue.heap p)) where
  -- With the queue in order, an enabled event in QUEUED whose time has come at most 59 seconds ago
  -- goes off, if the server is connected or the event does not ask for that, the desktop is up, and
  -- the server is in user mode or the event may run in act dead: the steps from QUEUED to TRIGGERED return
  -- with the queue in order, the messages and commands of the event's actions for being triggered
  -- stand as one block among what is done to the outside, and the event waits for the dialog then, has
  -- been snoozed by an action, or is served.
  pub ring-HasRung :
      (s' : Server) × (ring s ≡ some s')
      × IsValid s'.queue
      × (s'.queue.heap p ≡ after_triggered (surroundings s) (rung (s.queue.heap p)))
      × HasRung (s'.queue.heap p)
      × Block
          (told_all (s.queue.heap p).action_tab Actions.when_triggered (s.queue.heap p).cookie)
          s'.effects
  unfolding ring
  ring-HasRung =
      let limbo = settled-state (s.queue.heap p) EventState.limbo (inl refl) in
      let in_limbo = listed_after (s.queue.heap p) EventState.queued EventState.limbo in
      let (s1, e1, k1, w1, m1) = rethink_queued-Performs s v in
      let (s2, e2, k2, w2, m2) = rethink_missed-Performs s1 k1.valid in
      let (s3, e3, k3, w3, m3) = rethink_postponed-Performs s2 k2.valid in
      let (s4, e4, k4, w4, m4) = rethink_limbo-Performs s3 k3.valid in
      let (s5, e5, k5, w5, m5, t5) = rethink_triggered-Performs s4 k4.valid in
      let h1 = k1.held p h in
      let h2 = k2.held p h1 in
      let h3 = k3.held p h2 in
      let h4 = k4.held p h3 in
      let at1 : s1.queue.heap p ≡ settle EventState.limbo (s.queue.heap p) =
        m1 p h ∙ rw due.listed (after_queued-due _ _ due) in
      let at2 : s2.queue.heap p ≡ settle EventState.limbo (s.queue.heap p) =
        m2 p h1 ∙ rw (at1, in_limbo EventState.missed due.listed limbo) refl in
      let at3 : s3.queue.heap p ≡ settle EventState.limbo (s.queue.heap p) =
        m3 p h2 ∙ rw (at2, in_limbo EventState.postponed due.listed limbo) refl in
      let at4 : s4.queue.heap p ≡ rung (s.queue.heap p) =
        m4 p h3
        ∙ rw (at3, in_limbo EventState.limbo due.listed limbo, w3, w2, w1)
            (leaves_limbo-due _ _ due) in
      let in_triggered =
        listed_after (settle EventState.limbo (s.queue.heap p)) EventState.limbo
          EventState.triggered EventState.triggered (in_limbo EventState.limbo due.listed limbo)
          (settled-state (settle EventState.limbo (s.queue.heap p)) EventState.triggered
            (inr (inl refl))) in
      let at5 : s5.queue.heap p ≡ after_triggered (surroundings s) (rung (s.queue.heap p)) =
        m5 p h4 ∙ rw (at4, in_triggered, w4, w3, w2, w1) refl in
      let listed4 : in_state EventState.triggered (s4.queue.heap p) ≡ true =
        rw (at4, in_triggered) refl in
      let heard =
        said-listed (says_triggered (surroundings s4)) EventState.triggered p k4.valid h4 listed4 in
      let spoken =
        subst (Block (says_triggered (surroundings s4) (s4.queue.heap p))) (sym t5)
          (Block-append _ _ s4.effects heard) in
      (
        s5,
        rw (e1, e2, e3, e4) e5,
        k5.valid,
        at5,
        rw at5 (after_triggered-HasRung _ _),
        subst (λ l. Block l s5.effects)
            (ap (says_triggered (surroundings s4)) at4
              ∙ rung-says (surroundings s4) (s.queue.heap p))
            spoken,
      )
