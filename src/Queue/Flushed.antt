-- ===== src/Queue/Flushed.antt =====
-- queue_flush_events: every queued object is released.
use alarmd.Common.{
  ℕ, zero, suc, ◌+◌, Bool, ◌≡◌, refl, ap, ◌∙◌, arith, ◌∷◌, count_if, count_from,
  count_from-count_if,
}
use alarmd.Queue.{Queue, flush_loop, flush_events}
use alarmd.Queue.Cleanup.{tally}
use alarmd.Queue.Valid.{IsValid}

flush_loop-tally :
    (f : ℕ → Bool) (k i : ℕ) (q : Queue)
    → tally f (flush_loop k i q).freed ≡ tally f q.freed + count_from f q.by_cookie i k
unfolding flush_loop tally count_from
flush_loop-tally f zero i q = omega arith
flush_loop-tally f (suc k) i q =
    ground (arith, flush_loop-tally f k (i + 1) (record q { freed = q.by_cookie i ∷ q.freed }))

-- What queue_flush_events makes of the queue `q`.
pub record Flushed (q r : Queue) : Type 0 where
  pub empty : r.count ≡ 0
  pub valid : IsValid r
  pub released : (f : ℕ → Bool) → tally f r.freed ≡ tally f q.freed + count_if f q.by_cookie q.count

-- The queue is empty and in order afterwards, and each object is released as often as the table by
-- cookie holds it, and nothing else is.
pub flush_events-Flushed : (q : Queue) → Flushed q (flush_events q)
unfolding flush_events
flush_events-Flushed q = record {
  empty = refl;
  valid = record {
    by_cookie_sorted = λ i j ij jn. absurd (omega arith);
    by_trigger_sorted = λ i j ij jn. absurd (omega arith);
    same_events = λ f. refl;
    room = omega arith;
    issued = λ i l. absurd (omega arith);
  };
  released = λ f.
      flush_loop-tally f q.count 0 q
      ∙ ap (λ n. tally f q.freed + n) (count_from-count_if f q.by_cookie q.count);
}
