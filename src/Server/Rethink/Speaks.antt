-- ===== src/Server/Rethink/Speaks.antt =====
-- The steps of the state machine that run actions, with what the actions do to the outside.
use alarmd.Common.{
  ℕ, Bool, true, false, not, ◌&&◌, List, [], ◌++◌, Option, some, eqb_ℤ, negsuc, if◌then◌else◌, ◌≡◌,
  refl, ap, ap₂, ◌∙◌, arith, Bool-cases, inl, inr, ◌==◌, ltb,
}
use alarmd.Event.{Event, has, is_recurring, event_connected, event_disable_delayed}
use alarmd.EventState
use alarmd.Queue.{event_set_state, event_get_state, with_state}
use alarmd.Queue.Query.{in_state, query_by_state}
use alarmd.Queue.Valid.{IsValid, Holds}
use alarmd.Server.{Server, Effect, sf_connected}
use alarmd.Server.Actions
use alarmd.Server.Keeps.{Keeps, StepKeeps}
use alarmd.Server.Rethink
use alarmd.Server.Rethink.Acted.{
  after_new, new-Local, after_triggered, triggered-Local, after_response, sysui_rsp-Local, pressed,
  do_response_actions-pressed,
}
use alarmd.Server.Rethink.Outcomes.{Surroundings, surroundings}
use alarmd.Server.Rethink.Pointwise.{Local}
use alarmd.Server.Rethink.Safe
use alarmd.Server.Rethink.Said.{said, over-said}
use alarmd.Server.Rethink.Steps.{over-Performs}
use alarmd.Server.Rethink.Told.{told_all, told_response, do_state_actions-told, respond-told}

-- The step returns, keeps the queue in order and the surroundings as they are, does `f` to the events
-- in `state` and to no other, and to the outside what `g` says of each of them and nothing else.
abbrev pub Speaks :
    (Surroundings → Event → Event)
    → (Surroundings → Event → List Effect)
    → ℕ
    → Server
    → Option Server
    → Type 0
Speaks f g state s o =
    (s' : Server) × (o ≡ some s')
    × Keeps s.queue s'.queue
    × (surroundings s' ≡ surroundings s)
    × ((p : ℕ)
        → Holds s.queue p
        → s'.queue.heap p ≡ (
            if in_state state (s.queue.heap p)
            then f (surroundings s) (s.queue.heap p)
            else s.queue.heap p))
    × (s'.effects ≡ said (g (surroundings s)) s.queue (query_by_state s.queue state) ++ s.effects)

over-Speaks :
    (state : ℕ) {f : Surroundings → Event → Event} (g : Surroundings → Event → List Effect)
    {body : Server → ℕ → Server}
    → Local surroundings f body
    → StepKeeps body
    → ((s : Server) (p : ℕ) → (body s p).effects ≡ g (surroundings s) (s.queue.heap p) ++ s.effects)
    → (s : Server) → IsValid s.queue
    → Speaks f g state s (Rethink.over state body s)
over-Speaks state {f} g {body} l k says s v =
    let (s', done, kept, env, each) = over-Performs state l k s v in
    (s', done, kept, env, each, over-said surroundings f g body l k says state s s' v done)

-- A new event that need not wait for the connection runs its actions for being queued.
pub says_new : Surroundings → Event → List Effect
says_new w e =
    if has e.flags event_connected && not (has w.flags sf_connected)
    then []
    else told_all e.action_tab Actions.when_queued e.cookie

table_kept :
    (state : ℕ) (s : Server) (p : ℕ)
    → ((Actions.set_state s p state).queue.heap p).action_tab ≡ (s.queue.heap p).action_tab
unfolding event_set_state with_state
table_kept state s p = ground arith

cookie_kept :
    (state : ℕ) (s : Server) (p : ℕ)
    → ((Actions.set_state s p state).queue.heap p).cookie ≡ (s.queue.heap p).cookie
unfolding event_set_state with_state
cookie_kept state s p = ground arith

new-says :
    (s : Server) (p : ℕ)
    → (Rethink.new_body s p).effects ≡ says_new (surroundings s) (s.queue.heap p) ++ s.effects
unfolding Rethink.new_body says_new surroundings
new-says s p =
    elim (Bool-cases
      (has (s.queue.heap p).flags event_connected && not (Rethink.sf s sf_connected))) [
        | inl waits ↦ rw (waits, Rethink.new_body) refl
        | inr ready ↦
            rw (ready, Rethink.new_body)
              (do_state_actions-told Actions.when_queued (Actions.set_state s p EventState.queued) p
                ∙ ap₂ (λ t c. told_all t Actions.when_queued c ++ s.effects)
                    (table_kept EventState.queued s p) (cookie_kept EventState.queued s p))
      ]

stays_or_state :
    (stays : Bool) (s : Server) (p : ℕ)
    → (if stays then s else Actions.set_state s p EventState.served).effects ≡ s.effects
stays_or_state true s p = refl
stays_or_state false s p = refl

either_state :
    (waits stays : Bool) (s : Server) (p : ℕ)
    → (if waits
        then Actions.set_state s p EventState.waitsysui
        else if stays
        then s
        else Actions.set_state s p EventState.served).effects
      ≡ s.effects
either_state true stays s p = refl
either_state false stays s p = stays_or_state stays s p

-- A triggered event runs its actions for that.
unfoldable pub says_triggered : Surroundings → Event → List Effect
says_triggered w e = told_all e.action_tab Actions.when_triggered e.cookie

triggered-says :
    (s : Server) (p : ℕ)
    → (Rethink.triggered_body s p).effects
      ≡ says_triggered (surroundings s) (s.queue.heap p) ++ s.effects
unfolding Rethink.triggered_body says_triggered
triggered-says s p =
    let acted = Actions.do_state_actions s p Actions.when_triggered in
    either_state (ltb 0 (Actions.count_buttons (acted.queue.heap p).action_tab))
      (event_get_state (acted.queue.heap p) == EventState.snoozed) acted p
    ∙ do_state_actions-told Actions.when_triggered s p

-- An answered event that is not disabled runs the action of the button.
pub says_response : Surroundings → Event → List Effect
says_response w e =
    if eqb_ℤ e.response (negsuc 0) && has e.flags event_disable_delayed && not (is_recurring e)
    then []
    else told_response (pressed e) e.cookie

sysui_rsp-says :
    (s : Server) (p : ℕ)
    → (Rethink.sysui_rsp_body s p).effects
      ≡ says_response (surroundings s) (s.queue.heap p) ++ s.effects
unfolding Rethink.sysui_rsp_body Rethink.response_body says_response
sysui_rsp-says s p =
    let e = s.queue.heap p in
    let acted = Actions.do_response_actions s p in
    elim (Bool-cases
      (eqb_ℤ e.response (negsuc 0) && has e.flags event_disable_delayed && not (is_recurring e))) [
        | inl off ↦ rw (off, Rethink.sysui_rsp_body) refl
        | inr on ↦
            rw (on, Rethink.sysui_rsp_body)
              (stays_or_state (event_get_state (acted.queue.heap p) == EventState.snoozed) acted p
                ∙ ap (λ t. t.effects) (do_response_actions-pressed s p)
                ∙ respond-told (pressed e) s p)
      ]

-- With the queue in order the step returns, keeps it in order and leaves the time, the server's flags,
-- the default snooze and the time zone as they are; each enabled event in NEW goes to
-- WAITCONN if it needs a connection that the server lacks, and otherwise to QUEUED, where it runs its
-- actions for that: they may snooze or disable it, and their messages are sent and their commands
-- run, in the order of the queue and of the action table, and nothing else is done to the outside.
-- The other events stay as they are.
pub rethink_new-Performs :
    (s : Server)
    → IsValid s.queue
    → Speaks after_new says_new EventState.new s (Rethink.rethink_new s)
unfolding Rethink.rethink_new
rethink_new-Performs = over-Speaks EventState.new says_new new-Local Safe.new_body-Keeps new-says

-- With the queue in order the step returns, keeps it in order and leaves the time, the server's flags,
-- the default snooze and the time zone as they are; each enabled event in TRIGGERED runs its actions
-- for that, and then goes to WAITSYSUI if it has a button, stays as it is if an action has snoozed it,
-- and otherwise goes to SERVED; the messages and the commands of the actions are all that is done to
-- the outside. The other events stay as they are.
pub rethink_triggered-Performs :
    (s : Server)
    → IsValid s.queue
    → Speaks after_triggered says_triggered EventState.triggered s (Rethink.rethink_triggered s)
unfolding Rethink.rethink_triggered
rethink_triggered-Performs =
    over-Speaks EventState.triggered says_triggered triggered-Local Safe.triggered_body-Keeps
      triggered-says

-- With the queue in order the step returns, keeps it in order and leaves the time, the server's flags,
-- the default snooze and the time zone as they are; each enabled event in SYSUI_RSP is disabled if no
-- button was pressed, it is not recurring and its flags ask for that. Otherwise it runs the action at
-- the place of the button in its action table, if there is one that is due on a response, and goes to
-- SERVED unless that has snoozed it; the messages and the commands of those actions are all that is
-- done to the outside. The other events stay as they are.
pub rethink_sysui_rsp-Performs :
    (s : Server)
    → IsValid s.queue
    → Speaks after_response says_response EventState.sysui_rsp s (Rethink.rethink_sysui_rsp s)
unfolding Rethink.rethink_sysui_rsp
rethink_sysui_rsp-Performs =
    over-Speaks EventState.sysui_rsp says_response sysui_rsp-Local Safe.sysui_rsp_body-Keeps
      sysui_rsp-says
