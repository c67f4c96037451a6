-- ===== src/Server/Dialog.antt =====
-- The answers of the dialog service, which src/server.c handles between the runs of the state
-- machine: the acknowledgement that dialogs are shown, and the user's response to one.
pub mod Answers
use alarmd.Common.{
  ℕ, Bool, true, false, not, ◌||◌, ◌==◌, List, [], ◌∷◌, Option, none, some, ℤ, pos, negsuc, eqb_ℤ,
  if◌then◌else◌, ◌≡◌, ◌≢◌, refl, sym, ap, ◌∙◌, arith, Bool-cases, inl, inr, ==_iff, eq_of_parts,
}
use alarmd.Event.{Event}
use alarmd.EventState
use alarmd.Queue.{Queue, get_event, event_set_state, event_get_state, filter_state, with_state}
use alarmd.Queue.Lookup.{get_event-Looks}
use alarmd.Queue.Valid.{IsValid, Holds, Holds-unique}
use alarmd.Server.{Server, state_get, Timer, idle, milliseconds}
use alarmd.Server.Actions.{set_state, write_event}
use alarmd.Server.Keeps.{Keeps, Keeps-refl, Keeps-trans, set_state-Keeps, write_event-Keeps}
use alarmd.Server.Rethink.Outcomes.{settle, to_state-Local, surroundings}
use alarmd.Server.Rethink.Acted.{Local-then}
use alarmd.Server.Rethink.Pointwise.{Local}

unfoldable pub rethink_request : Server → Bool → Server
rethink_request s delayed = elim s.rethink_id [
  | none ↦ record s {
    rethink_req = false;
    rethink_id = some (if delayed then milliseconds 100 else idle);
  }
  | some source ↦ record s { rethink_req = true }
]

-- One round of the loop over the cookies
unfoldable pub ack_event : Server → ℤ → Server
ack_event s cookie = elim (get_event s.queue cookie) [
  | none ↦ s
  | some eve ↦ set_state s eve EventState.sysui_ack
]

unfoldable pub ack_loop : List ℤ → Server → Server
ack_loop [] s = s
ack_loop (c ∷ vec) s = ack_loop vec (ack_event s c)

unfoldable pub handle_systemui_ack : Server → List ℤ → Server
handle_systemui_ack s vec = rethink_request (ack_loop vec s) true

unfoldable pub handle_systemui_rsp : Server → ℤ → ℤ → Server
handle_systemui_rsp s cookie button = elim (get_event s.queue cookie) [
  | none ↦ rethink_request s true
  | some eve ↦
      let s1 = set_state s eve EventState.sysui_rsp in
      rethink_request (write_event s1 eve (record (s1.queue.heap eve) { response = button })) true
]
