-- ===== src/Queue/Insert.antt =====
-- queue_insert_event and queue_add_event keep the tables in order.
use alarmd.Common.{
  ℕ, ◌<◌, ◌≡◌, ◌≢◌, refl, ap, arith, Inserted, shift_up-Inserted, count_if-Inserted, ◌≤ℤ◌, +ℤ_parts,
  pos,
}
use native.Mathlib.Numerals.{add-one}
use alarmd.Event.{Event}
use alarmd.Queue.{Queue, get_cookie_slot, get_trigger_slot, insert_event, assign_cookie, add_event}
use alarmd.Queue.Order.{Sorted-Inserted, every-Inserted, cmp_cookie-connex, cmp_trigger-connex}
use alarmd.Queue.Valid.{
  IsValid, Holds, cookie_lt, trigger_lt, cookie_slot-Splits, trigger_slot-Splits, Holds-by_trigger,
  SameKeys, SameKeys-IsValid,
}

module _ {q : Queue} (v : IsValid q) (eve : ℕ)
    (new_cookie : (p : ℕ) → Holds q p → (q.heap p).cookie ≢ (q.heap eve).cookie) where
  pub cookie_Inserted :
      Inserted q.count
        (get_cookie_slot q (q.heap eve))
        eve
        q.by_cookie
        (insert_event q eve).by_cookie
  unfolding insert_event
  cookie_Inserted =
      shift_up-Inserted q.count _ eve q.by_cookie (cookie_slot-Splits v (q.heap eve)).within

  trigger_Inserted :
      Inserted q.count
        (get_trigger_slot q (q.heap eve))
        eve
        q.by_trigger
        (insert_event q eve).by_trigger
  unfolding insert_event
  trigger_Inserted =
      shift_up-Inserted q.count _ eve q.by_trigger (trigger_slot-Splits v (q.heap eve)).within

  -- Inserting an event whose cookie no queued event has keeps the queue in order.
  pub insert_event-IsValid : (q.heap eve).cookie ≤ℤ q.cookie → IsValid (insert_event q eve)
  unfolding insert_event
  insert_event-IsValid top = record {
    by_cookie_sorted = rw (add-one q.count) (
        Sorted-Inserted (cookie_lt q.heap) cookie_Inserted v.by_cookie_sorted
          (cookie_slot-Splits v (q.heap eve)).left
          (λ i a b. ground (
            arith,
            cmp_cookie-connex (q.heap (q.by_cookie i)) (q.heap eve),
            (cookie_slot-Splits v (q.heap eve)).right i a b,
            new_cookie (q.by_cookie i) (i, b, refl),
          )));
    by_trigger_sorted = rw (add-one q.count) (
        Sorted-Inserted (trigger_lt q.heap) trigger_Inserted v.by_trigger_sorted
          (trigger_slot-Splits v (q.heap eve)).left
          (λ i a b. ground (
            arith,
            cmp_trigger-connex (q.heap (q.by_trigger i)) (q.heap eve),
            (trigger_slot-Splits v (q.heap eve)).right i a b,
            new_cookie (q.by_trigger i) (Holds-by_trigger v i b),
          )));
    same_events = λ f. rw (add-one q.count) (
        omega (
          arith,
          count_if-Inserted f cookie_Inserted,
          count_if-Inserted f trigger_Inserted,
          v.same_events f,
        ));
    room = ground (arith, v.room);
    issued = λ i l.
        every-Inserted (λ p. (q.heap p).cookie ≤ℤ q.cookie) cookie_Inserted v.issued top i
          (omega arith);
  }

-- An event that add_event may be given: it is not queued yet, and its cookie, if it has one, is
-- nobody else's.
pub record CanAdd (q : Queue) (event : ℕ) : Type 0 where
  pub not_queued : ¬ (Holds q event)
  pub own_cookie : (p : ℕ) → Holds q p → (q.heap p).cookie ≢ (q.heap event).cookie

pub assign_cookie-heap :
    (q : Queue) (event p : ℕ) → p ≢ event → (assign_cookie q event).heap p ≡ q.heap p
unfolding assign_cookie
assign_cookie-heap q event p h = ground arith

assign_cookie-top :
    (q : Queue) (event : ℕ)
    → ((assign_cookie q event).heap event).cookie ≤ℤ (assign_cookie q event).cookie
unfolding assign_cookie
assign_cookie-top q event = ground arith

assign_cookie-mono : (q : Queue) (event : ℕ) → q.cookie ≤ℤ (assign_cookie q event).cookie
unfolding assign_cookie
assign_cookie-mono q event = ground (arith, +ℤ_parts q.cookie (pos 1))

pub assign_cookie-SameKeys :
    {q : Queue} (event : ℕ) → ¬ (Holds q event) → SameKeys q (assign_cookie q event)
assign_cookie-SameKeys {q} event out = record {
  cookies_kept = unfold assign_cookie in ground arith;
  triggers_kept = unfold assign_cookie in ground arith;
  count_kept = unfold assign_cookie in ground arith;
  alloc_kept = unfold assign_cookie in ground arith;
  top_kept = assign_cookie-mono q event;
  cookie_kept =
      λ p h. ap (λ (e : Event). e.cookie) (assign_cookie-heap q event p (λ e. out (rw e at h)));
  trigger_kept =
      λ p h. ap (λ (e : Event). e.trigger) (assign_cookie-heap q event p (λ e. out (rw e at h)));
}

-- The cookie that the event has then is above every one in use, or is the event's own.
assign_cookie-new :
    (q : Queue) (event p : ℕ)
    → p ≢ event
    → (q.heap p).cookie ≤ℤ q.cookie
    → (q.heap p).cookie ≢ (q.heap event).cookie
    → ((assign_cookie q event).heap p).cookie ≢ ((assign_cookie q event).heap event).cookie
unfolding assign_cookie
assign_cookie-new q event p ne top own = ground (arith, +ℤ_parts q.cookie (pos 1))

-- Once it has its cookie, no queued event has the same.
pub assign_cookie-fresh :
    {q : Queue} (event : ℕ)
    → IsValid q
    → CanAdd q event
    → (p : ℕ) → Holds (assign_cookie q event) p
    → ((assign_cookie q event).heap p).cookie ≢ ((assign_cookie q event).heap event).cookie
assign_cookie-fresh {q} event v c p (i, l, e) =
    let kept : SameKeys q (assign_cookie q event) = assign_cookie-SameKeys event c.not_queued in
    let k : i < q.count = omega (arith, kept.count_kept) in
    let held : Holds q p = (i, k, rw kept.cookies_kept at e) in
    assign_cookie-new q event p (λ d. c.not_queued (rw d at held)) (rw held.2 at (v.issued i k))
      (c.own_cookie p held)

-- Adding an event that is not queued, with a cookie that no queued event has, keeps the queue
-- in order: both tables sorted, holding the same events, with room in their arrays and no cookie
-- above the last one issued.
pub add_event-IsValid :
    {q : Queue} (event : ℕ) → IsValid q → CanAdd q event → IsValid (add_event q event).0
unfolding add_event
add_event-IsValid {q} event v c =
    insert_event-IsValid (SameKeys-IsValid v (assign_cookie-SameKeys event c.not_queued)) event
      (assign_cookie-fresh event v c) (assign_cookie-top q event)
