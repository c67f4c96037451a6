-- ===== src/Server/Dialog/Answers.antt =====
-- What the answers of the dialog service make of the queue.
use alarmd.Common.{
  ℕ, Bool, true, false, ◌||◌, ◌==◌, List, [], ◌∷◌, Option, none, some, ℤ, eqb_ℤ, if◌then◌else◌, ◌≡◌,
  ◌≢◌, refl, sym, ap, ◌∙◌, arith, Bool-cases, inl, inr, eq_of_parts,
}
use alarmd.Event.{Event}
use alarmd.EventState
use alarmd.Queue.{get_event, event_get_state, filter_state, with_state}
use alarmd.Queue.Lookup.{get_event-Looks}
use alarmd.Queue.Valid.{IsValid, Holds, Holds-unique}
use alarmd.Server.{Server, state_get}
use alarmd.Server.Actions.{set_state, write_event}
use alarmd.Server.Keeps.{Keeps, Keeps-refl, Keeps-trans, set_state-Keeps, write_event-Keeps}
use alarmd.Server.Rethink.Outcomes.{settle, to_state-Local, surroundings}
use alarmd.Server.Rethink.Acted.{Local-then}
use alarmd.Server.Rethink.Pointwise.{Local}
use alarmd.Server.Dialog.{
  rethink_request, ack_event, ack_loop, handle_systemui_ack, handle_systemui_rsp,
}

abbrev pub member : ℤ → List ℤ → Bool
member c [] = false
member c (d ∷ ds) = eqb_ℤ c d || member c ds

-- The queue is kept in order, each event is what `f` makes of it, and a run is requested.
pub record Answered (f : Event → Event) (s r : Server) : Type 0 where
  pub keeps : Keeps s.queue r.queue
  pub answered : (p : ℕ) → Holds s.queue p → r.queue.heap p ≡ f (s.queue.heap p)

rethink_request-queue : (s : Server) (delayed : Bool) → (rethink_request s delayed).queue ≡ s.queue
unfolding rethink_request
rethink_request-queue s delayed = ground arith

-- The run is requested: one is due.
rethink_request-due : (s : Server) (delayed : Bool) → (rethink_request s delayed).rethink_id ≢ none
unfolding rethink_request
rethink_request-due s delayed = ground arith

abbrev ack_one : ℤ → Event → Event
ack_one c e = if eqb_ℤ e.cookie c then settle EventState.sysui_ack e else e

settle-twice :
    (e : Event)
    → settle EventState.sysui_ack (settle EventState.sysui_ack e) ≡ settle EventState.sysui_ack e
unfolding settle event_get_state filter_state with_state
settle-twice e = ground arith

told : {a b : ℤ} → a ≡ b → eqb_ℤ a b ≡ true
told {a} {b} e = ground (arith, e)

untold : {a b : ℤ} → a ≢ b → eqb_ℤ a b ≡ false
untold {a} {b} n = elim (Bool-cases (eqb_ℤ a b)) [
  | inl same ↦ absurd (n (eq_of_parts a b (ground arith)))
  | inr other ↦ other
]

if_yes : {b : Bool} (x y : Event) → b ≡ true → x ≡ (if b then x else y)
if_yes x y e = rw e refl

if_no : {b : Bool} (x y : Event) → b ≡ false → y ≡ (if b then x else y)
if_no x y e = rw e refl

ack_event-Answered : (s : Server) (c : ℤ) → IsValid s.queue → Answered (ack_one c) s (ack_event s c)
unfolding ack_event
ack_event-Answered s c v = go (get_event s.queue c) refl
  where
    go : (o : Option ℕ) → get_event s.queue c ≡ o → Answered (ack_one c) s (ack_event s c)
    go none e =
        let absent = (get_event-Looks v c).1.0 e in
        rw (ack_event, e)
          (record { keeps = Keeps-refl v; answered = λ p h. if_no _ _ (untold (absent p h)) })
    go (some p0) e =
        let (h0, e0) = ((get_event-Looks v c).0 p0).0 e in
        let local = to_state-Local EventState.sysui_ack in
        rw (ack_event, e)
          (record {
            keeps = set_state-Keeps EventState.sysui_ack s p0 v h0;
            answered = λ p h. elim (Bool-cases (p == p0)) [
              | inl same ↦
                  let eq : p ≡ p0 = ground arith in rw eq (local.own s p0 ∙ if_yes _ _ (told e0))
              | inr other ↦
                  let apart : p ≢ p0 = ground arith in
                  local.others s p0 p apart
                  ∙ if_no _ _ (untold (λ d. apart (Holds-unique v h h0 (d ∙ sym e0))))
            ];
          })

pub ack_all : List ℤ → Event → Event
ack_all vec e = if member e.cookie vec then settle EventState.sysui_ack e else e

settled :
    (b : Bool) (e : Event)
    → (if b
        then settle EventState.sysui_ack (settle EventState.sysui_ack e)
        else settle EventState.sysui_ack e)
      ≡ settle EventState.sysui_ack e
settled true e = settle-twice e
settled false e = refl

-- The request for a run leaves the queue alone.
Answered-request :
    (f : Event → Event) (s r : Server) → Answered f s r → Answered f s (rethink_request r true)
unfolding rethink_request
Answered-request f s r a = record {
  keeps = rw rethink_request-queue a.keeps;
  answered = λ p h. rw rethink_request-queue (a.answered p h);
}

ack_all-ack_one :
    (c : ℤ) (vec : List ℤ) (e : Event) → ack_all vec (ack_one c e) ≡ ack_all (c ∷ vec) e
unfolding ack_all
ack_all-ack_one c vec e = elim (Bool-cases (eqb_ℤ e.cookie c)) [
  | inr other ↦ rw other refl
  | inl same ↦ rw same (settled (member (settle EventState.sysui_ack e).cookie vec) e)
]

ack_loop-Answered :
    (vec : List ℤ) (s : Server) → IsValid s.queue → Answered (ack_all vec) s (ack_loop vec s)
unfolding ack_loop ack_all
ack_loop-Answered [] s v = record { keeps = Keeps-refl v; answered = λ p h. refl }
ack_loop-Answered (c ∷ vec) s v =
    let one = ack_event-Answered s c v in
    let all = ack_loop-Answered vec (ack_event s c) one.keeps.valid in
    record {
      keeps = Keeps-trans one.keeps all.keeps;
      answered = λ p h.
          all.answered p (one.keeps.held p h)
          ∙ ap (ack_all vec) (one.answered p h)
          ∙ ack_all-ack_one c vec (s.queue.heap p);
    }

-- With the queue in order, it stays in order; each queued event whose cookie is among those given
-- becomes SYSUI_ACK if it is in SYSUI_REQ, and the queued events stay as they are otherwise; and a run
-- of the state machine is due.
pub handle_systemui_ack-Answered :
    (s : Server) (vec : List ℤ)
    → IsValid s.queue
    → Answered (ack_all vec) s (handle_systemui_ack s vec)
      × ((handle_systemui_ack s vec).rethink_id ≢ none)
unfolding handle_systemui_ack
handle_systemui_ack-Answered s vec v =
    (Answered-request _ s _ (ack_loop-Answered vec s v), rethink_request-due _ true)

-- The response to a dialog, on the event alone
pub rsp_one : ℤ → ℤ → Event → Event
rsp_one c button e =
    if eqb_ℤ e.cookie c then record (settle EventState.sysui_rsp e) { response = button } else e

response-Local :
    (button : ℤ)
    → Local surroundings
        (λ w e. record e { response = button })
        (λ s p. write_event s p (record (s.queue.heap p) { response = button }))
unfolding surroundings state_get
response-Local button = record {
  own = λ s p. ground arith;
  others = λ s p r n. ground arith;
  env_kept = λ s p. refl;
}

rsp_event : Server → ℕ → ℤ → Server
rsp_event s eve button =
    let s1 = set_state s eve EventState.sysui_rsp in
    write_event s1 eve (record (s1.queue.heap eve) { response = button })

rsp_event-Local :
    (button : ℤ)
    → Local surroundings
        (λ w e. record (settle EventState.sysui_rsp e) { response = button })
        (λ s p. rsp_event s p button)
unfolding rsp_event
rsp_event-Local button = Local-then (to_state-Local EventState.sysui_rsp) (response-Local button)

rsp_event-Answered :
    (s : Server) (c button : ℤ) (p0 : ℕ)
    → IsValid s.queue
    → Holds s.queue p0
    → (s.queue.heap p0).cookie ≡ c
    → Answered (rsp_one c button) s (rsp_event s p0 button)
unfolding rsp_one
rsp_event-Answered s c button p0 v h0 e0 =
    let local = rsp_event-Local button in
    record {
      keeps =
          unfold rsp_event in
          (let k = set_state-Keeps EventState.sysui_rsp s p0 v h0 in
            Keeps-trans k
              (write_event-Keeps (set_state s p0 EventState.sysui_rsp) p0 _ k.valid refl refl));
      answered = λ p h. elim (Bool-cases (p == p0)) [
        | inl same ↦ let eq : p ≡ p0 = ground arith in rw eq (local.own s p0 ∙ if_yes _ _ (told e0))
        | inr other ↦
            let apart : p ≢ p0 = ground arith in
            local.others s p0 p apart
            ∙ if_no _ _ (untold (λ d. apart (Holds-unique v h h0 (d ∙ sym e0))))
      ];
    }

-- With the queue in order, it stays in order; the queued event with the cookie, if there is one,
-- becomes SYSUI_RSP if it is in SYSUI_REQ or SYSUI_ACK, and takes the button as its response in any
-- state; the queued events stay as they are otherwise; and a run of the state machine is due.
pub handle_systemui_rsp-Answered :
    (s : Server) (cookie button : ℤ)
    → IsValid s.queue
    → Answered (rsp_one cookie button) s (handle_systemui_rsp s cookie button)
      × ((handle_systemui_rsp s cookie button).rethink_id ≢ none)
unfolding handle_systemui_rsp rsp_event rsp_one
handle_systemui_rsp-Answered s cookie button v = go (get_event s.queue cookie) refl
  where
    go :
        (o : Option ℕ)
        → get_event s.queue cookie ≡ o
        → Answered (rsp_one cookie button) s (handle_systemui_rsp s cookie button)
          × ((handle_systemui_rsp s cookie button).rethink_id ≢ none)
    go none e =
        let absent = (get_event-Looks v cookie).1.0 e in
        rw (handle_systemui_rsp, e)
          (
            Answered-request _ s s (record {
              keeps = Keeps-refl v;
              answered = λ p h. if_no _ _ (untold (absent p h));
            }),
            rethink_request-due s true,
          )
    go (some p0) e =
        let (h0, e0) = ((get_event-Looks v cookie).0 p0).0 e in
        rw (handle_systemui_rsp, e)
          (
            Answered-request _ s _ (rsp_event-Answered s cookie button p0 v h0 e0),
            rethink_request-due _ true,
          )
