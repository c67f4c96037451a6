-- ===== src/Queue/Added.antt =====
-- What a client sees of the queue after queue_add_event, queue_event_set_trigger and
-- queue_del_event.
use alarmd.Common.{
  ltb, suc, ℕ, ◌+◌, Bool, true, ◌≡◌, ◌≢◌, refl, sym, ap, ◌∙◌, arith, Option, none, some, ℤ,
  Inserted, Bool-cases, inl, inr, ◌↔◌, ◌⊎◌,
}
use alarmd.EventState
use alarmd.Queue.{
  Queue, insert_event, assign_cookie, add_event, get_cookie_slot, get_event, del_event,
  event_set_trigger, event_get_state,
}
use alarmd.Queue.Insert.{
  CanAdd, add_event-IsValid, assign_cookie-heap, assign_cookie-SameKeys, cookie_Inserted,
  assign_cookie-fresh,
}
use alarmd.Queue.Lookup.{get_event-Looks}
use alarmd.Queue.Order.{every-Inserted}
use alarmd.Queue.Reschedule.{event_set_trigger-IsValid}
use alarmd.Queue.Transition.{
  event_set_state-IsValid, event_set_state-SetsState, event_set_state-SameKeys,
}
use alarmd.Queue.Valid.{IsValid, Holds, SameKeys, SameKeys-IsValid, SameKeys-Holds, Holds-unique}

-- What queue_add_event makes of the queue: it is in order, the new event is found by the cookie
-- that the function returns, and what was queued still is, as it was.
pub record Added (q : Queue) (event : ℕ) (q' : Queue) (cookie : ℤ) : Type 0 where
  pub valid : IsValid q'
  pub found : get_event q' cookie ≡ some event
  pub held : (p : ℕ) → Holds q p → Holds q' p
  pub only : (p : ℕ) → Holds q' p → (Holds q p) ⊎ (p ≡ event)
  pub others : (p : ℕ) → p ≢ event → q'.heap p ≡ q.heap p
  pub counted : q'.count ≡ q.count + 1
  pub dirtied : q'.dirty ≡ true

module _ {q : Queue} (event : ℕ) (v : IsValid q) (c : CanAdd q event) where
  q1 : Queue
  q1 = assign_cookie q event

  kept : SameKeys q q1
  unfolding q1
  kept = assign_cookie-SameKeys event c.not_queued

  inserted :
      Inserted q1.count
        (get_cookie_slot q1 (q1.heap event))
        event
        q1.by_cookie
        (add_event q event).0.by_cookie
  unfolding q1 add_event
  inserted = cookie_Inserted (SameKeys-IsValid v kept) event (assign_cookie-fresh event v c)

  counts : (add_event q event).0.count ≡ q.count + 1
  unfolding add_event insert_event q1
  counts = ap (λ n. n + 1) kept.count_kept

  event-Holds : Holds (add_event q event).0 event
  event-Holds = (
    get_cookie_slot q1 (q1.heap event),
    omega (arith, inserted.slot, kept.count_kept, counts),
    inserted.at,
  )

  old-Holds : (p : ℕ) → Holds q p → Holds (add_event q event).0 p
  old-Holds p h =
      let (i, l, e) = SameKeys-Holds v kept p h in
      elim (Bool-cases (ltb i (get_cookie_slot q1 (q1.heap event)))) [
        | inl low ↦
            (i, omega (arith, kept.count_kept, counts), inserted.before i (ground arith) ∙ e)
        | inr high ↦
            (suc i, omega (arith, kept.count_kept, counts), inserted.after i (ground arith) l ∙ e)
      ]

  new-Holds : (p : ℕ) → Holds (add_event q event).0 p → (Holds q p) ⊎ (p ≡ event)
  new-Holds p (j, l, e) = rw e at (
      every-Inserted (λ r. (Holds q r) ⊎ (r ≡ event)) inserted
        (λ i k. inl (i, omega (arith, kept.count_kept), rw kept.cookies_kept refl)) (inr refl) j
        (omega (arith, kept.count_kept, counts)))

  -- Adding to a queue in order an event that is not queued, with a cookie that no queued event has:
  -- the event is found by the cookie that the function returns, what was queued still is and as it
  -- was, nothing else is queued, there is one event more, and the queue is in order and dirty.
  pub add_event-Added : Added q event (add_event q event).0 (add_event q event).1
  add_event-Added = record {
    valid = add_event-IsValid event v c;
    found =
        ((get_event-Looks (add_event-IsValid event v c) _).0 event).1
          (event-Holds, unfold add_event in refl);
    held = old-Holds;
    only = new-Holds;
    others = λ p n. unfold add_event insert_event in assign_cookie-heap q event p n;
    counted = counts;
    dirtied = unfold add_event insert_event in refl;
  }

-- What queue_del_event makes of the queue.
pub record Deleted (q : Queue) (cookie : ℤ) (q' : Queue) (known : Bool) : Type 0 where
  pub valid : IsValid q'
  -- it says whether the queue holds the cookie
  pub tells : (known ≡ true) ↔ ((p : ℕ) × Holds q p × ((q.heap p).cookie ≡ cookie))
  pub deleted :
      (p : ℕ)
      → Holds q p
      → (q.heap p).cookie ≡ cookie
      → event_get_state (q'.heap p) ≡ EventState.deleted
  pub others : (p : ℕ) → Holds q p → (q.heap p).cookie ≢ cookie → q'.heap p ≡ q.heap p
  pub held : (p : ℕ) → Holds q p → Holds q' p

-- In a queue in order the event with the cookie, if there is one, becomes DELETED and stays queued; the
-- others stay as they were; the result tells whether there was one; and the queue stays in order.
pub del_event-Deleted :
    {q : Queue}
    → IsValid q
    → (cookie : ℤ) → Deleted q cookie (del_event q cookie).0 (del_event q cookie).1
unfolding del_event
del_event-Deleted {q} v cookie = go (get_event q cookie) refl
  where
    go :
        (o : Option ℕ)
        → get_event q cookie ≡ o
        → Deleted q cookie (del_event q cookie).0 (del_event q cookie).1
    go none e =
        let absent = (get_event-Looks v cookie).1.0 e in
        rw (del_event, e)
          (record {
            valid = v;
            tells = ((λ x. cc), (λ h. absurd (absent h.0 h.1 h.2)));
            deleted = λ p h c. absurd (absent p h c);
            others = λ p h n. refl;
            held = λ p h. h;
          })
    go (some p) e =
        let (h0, e0) = ((get_event-Looks v cookie).0 p).0 e in
        let set = event_set_state-SetsState q p EventState.deleted in
        rw (del_event, e)
          (record {
            valid = event_set_state-IsValid p EventState.deleted v;
            tells = ((λ x. (p, h0, e0)), (λ h. refl));
            deleted = λ r h c.
                let same : r ≡ p = Holds-unique v h h0 (c ∙ sym e0) in
                rw same (set.passed (inl (omega arith, ground arith, ground arith)));
            others = λ r h n. set.others r (λ same. n (rw same e0));
            held = λ r h. SameKeys-Holds v (event_set_state-SameKeys q p EventState.deleted) r h;
          })

-- What queue_event_set_trigger makes of the queue.
pub record Rescheduled (q : Queue) (p : ℕ) (trigger : ℤ) (q' : Queue) : Type 0 where
  pub valid : IsValid q'
  pub placed : q'.heap p ≡ record (q.heap p) { trigger = trigger }
  pub others : (r : ℕ) → r ≢ p → q'.heap r ≡ q.heap r
  pub held : (r : ℕ) → Holds q r ↔ Holds q' r
  pub counted : q'.count ≡ q.count
  pub dirtied : q'.dirty ≡ true

-- In a queue in order a queued event gets the new trigger time and nothing else about it changes; the same events are
-- queued, the other ones are as they were, and both tables are in order again.
pub event_set_trigger-Rescheduled :
    {q : Queue}
    → IsValid q
    → (p : ℕ) → Holds q p
    → (trigger : ℤ) → Rescheduled q p trigger (event_set_trigger q p trigger)
event_set_trigger-Rescheduled v p h trigger = record {
  valid = event_set_trigger-IsValid v h trigger;
  placed = unfold event_set_trigger in ground arith;
  others = λ r n. unfold event_set_trigger in ground arith;
  held = λ r. unfold event_set_trigger in ((λ k. k), (λ k. k));
  counted = unfold event_set_trigger in refl;
  dirtied = unfold event_set_trigger in refl;
}
