-- ===== src/Queue/Transition.antt =====
-- queue_event_set_state: which transitions pass, what they write, and what they leave alone.
use alarmd.Common.{ℕ, ◌/◌, ◌%◌, ◌≤◌, ◌<◌, true, ◌≡◌, ◌≢◌, ◌↔◌, refl, ◌⊎◌, arith}
use alarmd.Event.{Event, client_range}
use alarmd.EventState
use alarmd.Queue.{Queue, event_get_state, filter_state, with_state, event_set_state}
use alarmd.Queue.Valid.{IsValid, SameKeys, SameKeys-IsValid}

-- The transitions that queue_event_set_state lets through.
abbrev pub Passes : ℕ → ℕ → Type 0
Passes previous state =
    ((state ≤ EventState.finalized)
      × (state ≢ EventState.sysui_ack)
      × (state ≢ EventState.sysui_rsp))
    ⊎ ((state ≡ EventState.sysui_ack) × (previous ≡ EventState.sysui_req))
    ⊎ ((state ≡ EventState.sysui_rsp)
        × ((previous ≡ EventState.sysui_req) ⊎ (previous ≡ EventState.sysui_ack)))

pub filter_state-cases :
    (previous state : ℕ)
    → (Passes previous state × (filter_state previous state ≡ state))
      ⊎ ((¬ (Passes previous state)) × (filter_state previous state ≡ previous))
unfolding filter_state
filter_state-cases previous state = ground arith

pub get_state-with_state : (e : Event) (s : ℕ) → event_get_state (with_state e s) ≡ s
unfolding event_get_state with_state
get_state-with_state e s = omega arith

pub event_set_state-SameKeys : (q : Queue) (p state : ℕ) → SameKeys q (event_set_state q p state)
unfolding event_set_state with_state
event_set_state-SameKeys q p state = record {
  cookies_kept = refl;
  triggers_kept = refl;
  count_kept = refl;
  alloc_kept = refl;
  top_kept = omega arith;
  cookie_kept = λ r h. ground arith;
  trigger_kept = λ r h. ground arith;
}

pub event_set_state-IsValid :
    {q : Queue} (p state : ℕ) → IsValid q → IsValid (event_set_state q p state)
event_set_state-IsValid {q} p state v = SameKeys-IsValid v (event_set_state-SameKeys q p state)

-- What queue_event_set_state does to the object that it is given.
pub record SetsState (q : Queue) (p state : ℕ) (q' : Queue) : Type 0 where
  -- a transition that passes is made, and any other leaves the state alone
  pub passed : Passes (event_get_state (q.heap p)) state → event_get_state (q'.heap p) ≡ state
  pub blocked :
      ¬ (Passes (event_get_state (q.heap p)) state)
      → event_get_state (q'.heap p) ≡ event_get_state (q.heap p)
  -- the client's flags stay
  pub client_flags : (q'.heap p).flags % client_range ≡ (q.heap p).flags % client_range
  pub others : (r : ℕ) → r ≢ p → q'.heap r ≡ q.heap r
  -- the queue becomes dirty if the state changes and the new one is NEW or earlier than the old one
  pub dirties : (q'.dirty ≡ true) ↔ (
      (q.dirty ≡ true)
      ⊎ ((event_get_state (q'.heap p) ≢ event_get_state (q.heap p))
          × ((event_get_state (q'.heap p) ≡ EventState.new)
              ⊎ (event_get_state (q'.heap p) < event_get_state (q.heap p)))))

-- A transition that passes is made and any other is ignored; the client's half of the flags and
-- all other events stay as they are; and the queue is dirty afterwards exactly if it was, or if
-- the state has changed to NEW or to an earlier one.
pub event_set_state-SetsState :
    (q : Queue) (p state : ℕ) → SetsState q p state (event_set_state q p state)
unfolding event_set_state event_get_state with_state
event_set_state-SetsState q p state = record {
  passed = λ h. ground (arith, filter_state-cases ((q.heap p).flags / client_range) state);
  blocked = λ h. ground (arith, filter_state-cases ((q.heap p).flags / client_range) state);
  client_flags = ground arith;
  others = λ r h. ground arith;
  dirties = ground arith;
}
