-- ===== src/Queue/Cleanup.antt =====
-- queue_cleanup_deleted: the two loops, and what is left of the queue after them.
use alarmd.Common.{
  ℕ, zero, suc, ◌+◌, ◌≤◌, Bool, true, false, ◌&&◌, ◌≡◌, refl, sym, ap, ◌∙◌, inl, inr, arith, List,
  ◌∷◌, [], if◌then◌else◌, Bool-cases, update, Table, compact, count_from, count_from-agree,
}
use alarmd.Event.{Event}
use alarmd.EventState
use alarmd.Queue.{
  Queue, event_get_state, event_set_state, is_dead, filter_state, with_state, cleanup_triggers,
  cleanup_cookies,
}

-- The event at `p` is DELETED or FINALIZED.
abbrev pub dead : Queue → ℕ → Bool
dead q p = is_dead (event_get_state (q.heap p))

-- What both loops leave alone.
pub record Sweeps (d : ℕ → Bool) (q r : Queue) : Type 0 where
  pub still_dead : (p : ℕ) → dead r p ≡ d p
  pub live_kept : (p : ℕ) → d p ≡ false → r.heap p ≡ q.heap p
  pub cookie_kept : (p : ℕ) → (r.heap p).cookie ≡ (q.heap p).cookie
  pub trigger_kept : (p : ℕ) → (r.heap p).trigger ≡ (q.heap p).trigger
  pub top_kept : r.cookie ≡ q.cookie
  pub dirty_kept : r.dirty ≡ q.dirty
  pub count_kept : r.count ≡ q.count
  pub alloc_kept : r.alloc ≡ q.alloc

finalize-Sweeps :
    (d : ℕ → Bool) (q : Queue) (eve : ℕ)
    → ((p : ℕ) → dead q p ≡ d p)
    → dead q eve ≡ true
    → Sweeps d q (event_set_state q eve EventState.finalized)
unfolding event_set_state filter_state event_get_state with_state
finalize-Sweeps d q eve h e = record {
  still_dead = λ p. ground (arith, h p);
  live_kept = λ p l. ground (arith, h p);
  cookie_kept = λ p. ground arith;
  trigger_kept = λ p. ground arith;
  top_kept = refl;
  dirty_kept = ground arith;
  count_kept = refl;
  alloc_kept = refl;
}

pub Sweeps-trans : {d : ℕ → Bool} {q r s : Queue} → Sweeps d q r → Sweeps d r s → Sweeps d q s
Sweeps-trans f g = record {
  still_dead = g.still_dead;
  live_kept = λ p l. g.live_kept p l ∙ f.live_kept p l;
  cookie_kept = λ p. g.cookie_kept p ∙ f.cookie_kept p;
  trigger_kept = λ p. g.trigger_kept p ∙ f.trigger_kept p;
  top_kept = g.top_kept ∙ f.top_kept;
  dirty_kept = g.dirty_kept ∙ f.dirty_kept;
  count_kept = g.count_kept ∙ f.count_kept;
  alloc_kept = g.alloc_kept ∙ f.alloc_kept;
}

Sweeps-refl :
    (d : ℕ → Bool) (q r : Queue)
    → ((p : ℕ) → dead q p ≡ d p)
    → r.heap ≡ q.heap
    → r.cookie ≡ q.cookie
    → r.dirty ≡ q.dirty
    → r.count ≡ q.count
    → r.alloc ≡ q.alloc
    → Sweeps d q r
Sweeps-refl d q r h e a b c f = record {
  still_dead = λ p. rw e (h p);
  live_kept = λ p l. ap (λ (g : ℕ → Event). g p) e;
  cookie_kept = λ p. ap (λ (g : ℕ → Event). (g p).cookie) e;
  trigger_kept = λ p. ap (λ (g : ℕ → Event). (g p).trigger) e;
  top_kept = a;
  dirty_kept = b;
  count_kept = c;
  alloc_kept = f;
}

-- The first loop compacts the table by trigger to `target`, and touches dead events only.
pub record TriggersDone (d : ℕ → Bool) (target : ℕ × Table) (q : Queue) (res : ℕ × Queue)
    : Type 0 where
  pub sweeps : Sweeps d q res.1
  pub total : res.0 ≡ target.0
  pub by_trigger : res.1.by_trigger ≡ target.1
  pub by_cookie : res.1.by_cookie ≡ q.by_cookie
  pub freed : res.1.freed ≡ q.freed

-- How often a list holds pointers that pass the test.
unfoldable pub tally : (ℕ → Bool) → List ℕ → ℕ
tally f [] = 0
tally f (p ∷ ps) = (if f p then 1 else 0) + tally f ps

-- The second loop compacts the table by cookie, and releases the `k` dead entries from index `i`.
pub record CookiesDone (d : ℕ → Bool) (k i : ℕ) (target : ℕ × Table) (q : Queue) (res : ℕ × Queue)
    : Type 0 where
  pub sweeps : Sweeps d q res.1
  pub total : res.0 ≡ target.0
  pub by_cookie : res.1.by_cookie ≡ target.1
  pub by_trigger : res.1.by_trigger ≡ q.by_trigger
  pub freed :
      (f : ℕ → Bool)
      → tally f res.1.freed ≡ tally f q.freed + count_from (λ p. f p && d p) q.by_cookie i k

module _ (d : ℕ → Bool) where
  pub cleanup_triggers-Done :
      (k i t : ℕ) (q : Queue)
      → ((p : ℕ) → dead q p ≡ d p)
      → TriggersDone d (compact d k i t q.by_trigger) q (cleanup_triggers k i t q)
  unfolding cleanup_triggers compact
  cleanup_triggers-Done zero i t q h = record {
    sweeps = Sweeps-refl d q q h refl refl refl refl refl;
    total = refl;
    by_trigger = refl;
    by_cookie = refl;
    freed = refl;
  }
  cleanup_triggers-Done (suc k) i t q h = elim (Bool-cases (dead q (q.by_trigger i))) [
    | inl gone ↦
        let q1 = event_set_state q (q.by_trigger i) EventState.finalized in
        let step = finalize-Sweeps d q (q.by_trigger i) h gone in
        let more = cleanup_triggers-Done k (i + 1) t q1 step.still_dead in
        rw (gone, cleanup_triggers)
          (rw (sym (h (q.by_trigger i)) ∙ gone, compact)
            (record {
              sweeps = Sweeps-trans step more.sweeps;
              total = more.total ∙ (unfold event_set_state in refl);
              by_trigger = more.by_trigger ∙ (unfold event_set_state in refl);
              by_cookie = more.by_cookie ∙ (unfold event_set_state in refl);
              freed = more.freed ∙ (unfold event_set_state in refl);
            }))
    | inr kept ↦
        let q1 : Queue = record q { by_trigger = update q.by_trigger t (q.by_trigger i) } in
        let step = Sweeps-refl d q q1 h refl refl refl refl refl in
        let more = cleanup_triggers-Done k (i + 1) (t + 1) q1 h in
        rw (kept, cleanup_triggers)
          (rw (sym (h (q.by_trigger i)) ∙ kept, compact)
            (record {
              sweeps = Sweeps-trans step more.sweeps;
              total = more.total;
              by_trigger = more.by_trigger;
              by_cookie = more.by_cookie;
              freed = more.freed;
            }))
  ]

  pub cleanup_cookies-Done :
      (k i c : ℕ) (q : Queue)
      → c ≤ i
      → ((p : ℕ) → dead q p ≡ d p)
      → CookiesDone d k i (compact d k i c q.by_cookie) q (cleanup_cookies k i c q)
  unfolding cleanup_cookies compact
  cleanup_cookies-Done zero i c q l h = record {
    sweeps = Sweeps-refl d q q h refl refl refl refl refl;
    total = refl;
    by_trigger = refl;
    by_cookie = refl;
    freed = λ f. unfold count_from in omega arith;
  }
  cleanup_cookies-Done (suc k) i c q l h = elim (Bool-cases (dead q (q.by_cookie i))) [
    | inl gone ↦
        let q1 : Queue = record q { freed = q.by_cookie i ∷ q.freed } in
        let step = Sweeps-refl d q q1 h refl refl refl refl refl in
        let more = cleanup_cookies-Done k (i + 1) c q1 (omega arith) h in
        rw (gone, cleanup_cookies)
          (rw (sym (h (q.by_cookie i)) ∙ gone, compact)
            (record {
              sweeps = Sweeps-trans step more.sweeps;
              total = more.total;
              by_trigger = more.by_trigger;
              by_cookie = more.by_cookie;
              freed = λ f. released f gone (more.freed f);
            }))
    | inr kept ↦
        let q1 : Queue = record q { by_cookie = update q.by_cookie c (q.by_cookie i) } in
        let step = Sweeps-refl d q q1 h refl refl refl refl refl in
        let more = cleanup_cookies-Done k (i + 1) (c + 1) q1 (omega arith) h in
        rw (kept, cleanup_cookies)
          (rw (sym (h (q.by_cookie i)) ∙ kept, compact)
            (record {
              sweeps = Sweeps-trans step more.sweeps;
              total = more.total;
              by_trigger = more.by_trigger;
              by_cookie = more.by_cookie;
              freed = λ f. skipped f kept (more.freed f);
            }))
  ]
    where
      released :
          (f : ℕ → Bool) {n : ℕ}
          → dead q (q.by_cookie i) ≡ true
          → n
            ≡ tally f (q.by_cookie i ∷ q.freed) + count_from (λ p. f p && d p) q.by_cookie (i + 1) k
          → n ≡ tally f q.freed + count_from (λ p. f p && d p) q.by_cookie i (suc k)
      released f e m = unfold count_from tally in ground (arith, h (q.by_cookie i))

      skipped :
          (f : ℕ → Bool) {n : ℕ}
          → dead q (q.by_cookie i) ≡ false
          → n
            ≡ tally f q.freed
              + count_from (λ p. f p && d p) (update q.by_cookie c (q.by_cookie i)) (i + 1) k
          → n ≡ tally f q.freed + count_from (λ p. f p && d p) q.by_cookie i (suc k)
      skipped f e m =
          unfold count_from in
          ground (
            arith,
            h (q.by_cookie i),
            count_from-agree (λ p. f p && d p) (update q.by_cookie c (q.by_cookie i)) q.by_cookie k
                (i + 1) (λ j b. ground arith),
          )
