-- ===== src/Queue/Collected.antt =====
-- The queue after queue_cleanup_deleted: in order, without the dead events, which are released.
use alarmd.Common.{
  ℕ, ◌+◌, ◌≤◌, ◌<◌, Bool, false, ◌&&◌, not, ◌==◌, ◌≡◌, refl, sym, ap, subst, ◌∙◌, arith, ==_iff,
  ◌↔◌, ◌≤ℤ◌, count_if, count_if-pos_of, count_if-le, find_of_count_if, compact, compact-Sorted,
  compact-count_if, compact-length, count_from-count_if,
}
use alarmd.Queue.{
  Queue, cleanup_triggers, cleanup_cookies, cleanup_deleted, cmp_event_cookie, cmp_event_trigger,
}
use alarmd.Queue.Cleanup.{
  dead, tally, Sweeps, Sweeps-trans, TriggersDone, CookiesDone, cleanup_triggers-Done,
  cleanup_cookies-Done,
}
use alarmd.Queue.Order.{Sorted}
use alarmd.Queue.Valid.{IsValid, Holds, cookie_lt, trigger_lt}

-- What queue_cleanup_deleted makes of the queue `q`.
pub record Collected (q r : Queue) : Type 0 where
  -- both loops count the same number of events, which the source asserts
  pub totals_agree : (cleanup_triggers q.count 0 0 q).0 ≡ r.count
  -- the tables hold the live events, as often as before, and nothing else
  pub kept :
      (f : ℕ → Bool)
      → count_if f r.by_cookie r.count ≡ count_if (λ p. f p && not (dead q p)) q.by_cookie q.count
  pub kept_by_trigger :
      (f : ℕ → Bool)
      → count_if f r.by_trigger r.count ≡ count_if (λ p. f p && not (dead q p)) q.by_trigger q.count
  -- each dead event is released as often as the queue held it, and nothing else is
  pub released :
      (f : ℕ → Bool)
      → tally f r.freed ≡ tally f q.freed + count_if (λ p. f p && dead q p) q.by_cookie q.count
  pub live_kept : (p : ℕ) → dead q p ≡ false → r.heap p ≡ q.heap p
  pub dirty_kept : r.dirty ≡ q.dirty
  -- what is queued afterwards is what was queued and is not dead
  pub live : (p : ℕ) → Holds r p ↔ (Holds q p × (dead q p ≡ false))
  pub top_kept : r.cookie ≡ q.cookie

module _ {q : Queue} (v : IsValid q) where
  d : ℕ → Bool
  d = dead q

  q1 : Queue
  q1 = (cleanup_triggers q.count 0 0 q).1

  one : TriggersDone d (compact d q.count 0 0 q.by_trigger) q (cleanup_triggers q.count 0 0 q)
  unfolding d
  one = cleanup_triggers-Done (dead q) q.count 0 0 q (λ p. refl)

  two :
      CookiesDone d q.count 0
        (compact d q.count 0 0 q.by_cookie)
        q1
        (cleanup_cookies q.count 0 0 q1)
  unfolding q1
  two =
      subst
        (λ tab.
          CookiesDone d q.count 0 (compact d q.count 0 0 tab) q1 (cleanup_cookies q.count 0 0 q1))
        one.by_cookie (cleanup_cookies-Done d q.count 0 0 q1 (omega arith) one.sweeps.still_dead)

  r : Queue
  r = cleanup_deleted q

  swept : Sweeps d q (cleanup_cookies q.count 0 0 q1).1
  unfolding q1
  swept = Sweeps-trans one.sweeps two.sweeps

  r-count : r.count ≡ (compact d q.count 0 0 q.by_cookie).0
  unfolding r cleanup_deleted q1
  r-count = two.total

  r-by_cookie : r.by_cookie ≡ (compact d q.count 0 0 q.by_cookie).1
  unfolding r cleanup_deleted q1
  r-by_cookie = two.by_cookie

  r-by_trigger : r.by_trigger ≡ (compact d q.count 0 0 q.by_trigger).1
  unfolding r cleanup_deleted q1
  r-by_trigger = two.by_trigger ∙ one.by_trigger

  totals : (compact d q.count 0 0 q.by_trigger).0 ≡ r.count
  totals =
      compact-length d q.count q.by_trigger
      ∙ sym (v.same_events (λ p. not (d p)))
      ∙ sym (compact-length d q.count q.by_cookie)
      ∙ sym r-count

  cookie_counts :
      (f : ℕ → Bool)
      → count_if f r.by_cookie r.count ≡ count_if (λ p. f p && not (d p)) q.by_cookie q.count
  cookie_counts f = rw (r-by_cookie, r-count) (compact-count_if d q.count q.by_cookie f)

  trigger_counts :
      (f : ℕ → Bool)
      → count_if f r.by_trigger r.count ≡ count_if (λ p. f p && not (d p)) q.by_trigger q.count
  trigger_counts f = rw (r-by_trigger, ← totals) (compact-count_if d q.count q.by_trigger f)

  r-cookie : (p : ℕ) → (r.heap p).cookie ≡ (q.heap p).cookie
  unfolding r cleanup_deleted q1
  r-cookie p = swept.cookie_kept p

  r-trigger : (p : ℕ) → (r.heap p).trigger ≡ (q.heap p).trigger
  unfolding r cleanup_deleted q1
  r-trigger p = swept.trigger_kept p

  r-top : r.cookie ≡ q.cookie
  unfolding r cleanup_deleted q1
  r-top = swept.top_kept

  r-alloc : r.alloc ≡ q.alloc
  unfolding r cleanup_deleted q1
  r-alloc = swept.alloc_kept

  freed_counts :
      (f : ℕ → Bool)
      → tally f r.freed ≡ tally f q.freed + count_if (λ p. f p && d p) q.by_cookie q.count
  unfolding r cleanup_deleted q1
  freed_counts f =
      two.freed f
      ∙ rw (one.freed, one.by_cookie)
          (ap (λ (n : ℕ). tally f q.freed + n)
            (count_from-count_if (λ p. f p && d p) q.by_cookie q.count))

  still_Holds : (p : ℕ) → Holds r p → Holds q p × (dead q p ≡ false)
  unfolding d
  still_Holds p (i, l, e) =
      let (j, k, hit) =
        find_of_count_if (λ s. s == p && not (d s)) q.by_cookie q.count
          (subst (λ n. 0 < n) (cookie_counts (λ s. s == p))
            (count_if-pos_of (λ s. s == p) r.by_cookie r.count i l ((==_iff _ _).1 e))) in
      ((j, k, ground arith), ground arith)

  live_Holds : (p : ℕ) → Holds q p → dead q p ≡ false → Holds r p
  unfolding d
  live_Holds p (i, l, e) alive =
      let (j, k, hit) =
        find_of_count_if (λ s. s == p) r.by_cookie r.count
          (subst (λ n. 0 < n) (sym (cookie_counts (λ s. s == p)))
            (count_if-pos_of (λ s. s == p && not (d s)) q.by_cookie q.count i l (ground arith))) in
      (j, k, ground arith)

  -- In a queue in order, the deleted and finalized events leave both tables and are released, once
  -- for each place that they had; the others stay in the tables and as they are; and both loops
  -- count the same number of events, which the source asserts.
  pub cleanup_deleted-Collected : Collected q (cleanup_deleted q)
  unfolding r d
  cleanup_deleted-Collected = record {
    totals_agree = one.total ∙ totals;
    kept = cookie_counts;
    kept_by_trigger = trigger_counts;
    released = freed_counts;
    live_kept = λ p l. unfold cleanup_deleted q1 in swept.live_kept p l;
    dirty_kept = unfold cleanup_deleted q1 in swept.dirty_kept;
    live = λ p. (still_Holds p, (λ h. live_Holds p h.0 h.1));
    top_kept = r-top;
  }

  r-cookie_lt : (x y : ℕ) → cookie_lt r.heap x y ≡ cookie_lt q.heap x y
  unfolding cmp_event_cookie
  r-cookie_lt x y = rw (r-cookie x, r-cookie y)

  r-trigger_lt : (x y : ℕ) → trigger_lt r.heap x y ≡ trigger_lt q.heap x y
  unfolding cmp_event_trigger
  r-trigger_lt x y = ground (arith, r-cookie x, r-cookie y, r-trigger x, r-trigger y)

  r_cookie-Sorted : Sorted (cookie_lt r.heap) r.by_cookie r.count
  r_cookie-Sorted i j ij jn =
      r-cookie_lt (r.by_cookie i) (r.by_cookie j)
      ∙ rw r-by_cookie (
          compact-Sorted (cookie_lt q.heap) d q.count q.by_cookie v.by_cookie_sorted i j ij
            (omega (arith, r-count)))

  r_trigger-Sorted : Sorted (trigger_lt r.heap) r.by_trigger r.count
  r_trigger-Sorted i j ij jn =
      r-trigger_lt (r.by_trigger i) (r.by_trigger j)
      ∙ rw r-by_trigger (
          compact-Sorted (trigger_lt q.heap) d q.count q.by_trigger v.by_trigger_sorted i j ij
            (omega (arith, totals)))

  r_issued : (i : ℕ) → i < r.count → (r.heap (r.by_cookie i)).cookie ≤ℤ r.cookie
  r_issued i l =
      let ((j, k, e), alive) = still_Holds (r.by_cookie i) (i, l, refl) in
      rw (r-cookie (r.by_cookie i), r-top, ← e) (v.issued j k)

  r_room : r.count ≤ r.alloc
  r_room = omega (
    arith,
    r-alloc,
    r-count,
    compact-length d q.count q.by_cookie,
    count_if-le (λ p. not (d p)) q.by_cookie q.count,
    v.room,
  )

  -- The queue is in order again after queue_cleanup_deleted.
  -- A queue that is in order stays in order.
  pub cleanup_deleted-IsValid : IsValid (cleanup_deleted q)
  unfolding r
  cleanup_deleted-IsValid = record {
    by_cookie_sorted = r_cookie-Sorted;
    by_trigger_sorted = r_trigger-Sorted;
    same_events = λ f. cookie_counts f ∙ v.same_events _ ∙ sym (trigger_counts f);
    room = r_room;
    issued = r_issued;
  }
