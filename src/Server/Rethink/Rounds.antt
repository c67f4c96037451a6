-- ===== src/Server/Rethink/Rounds.antt =====
-- The loop of server_rethink_start_cb, once the clock is stable.
use alarmd.Common.{
  ℕ, zero, suc, Bool, true, false, Option, none, some, ◌>>=◌, Bool-cases, inl, inr, ◌≡◌, refl,
}
use alarmd.Calendar.{Driver}
use alarmd.Queue.{clr_dirty, cleanup_deleted}
use alarmd.Queue.Cleanup.{dead}
use alarmd.Queue.Collected.{cleanup_deleted-Collected, cleanup_deleted-IsValid}
use alarmd.Queue.Valid.{IsValid, Holds, SameKeys-IsValid}
use alarmd.Server.{Server, queuestate_reset, with_queue}
use alarmd.Server.Rethink
use alarmd.Server.Rethink.Recurring.{rethink_recurring, rethink_timechange}
use alarmd.Server.Rethink.TimeChange.{rethink_timechange-Changed, dirt-SameKeys}
use alarmd.Server.Rethink.Stages.{
  Returns, run_stage, run_stage-Returns, queued, missed, postponed, limbo, triggered, waitsysui,
  sysui_req, sysui_ack, sysui_rsp, snoozed, served, recurring, deleted, new, waitconn,
}

module _ (driver : Driver) (fuel : ℕ) where
  -- The steps after server_rethink_timechange, up to the cleanup
  unfoldable pub advance : Server → Option Server
  advance s = do
    s ← Rethink.rethink_queued s
    s ← Rethink.rethink_missed s
    s ← Rethink.rethink_postponed s
    s ← Rethink.rethink_limbo s
    s ← Rethink.rethink_triggered s
    s ← Rethink.rethink_waitsysui s
    s ← Rethink.rethink_sysui_req s
    s ← Rethink.rethink_sysui_ack s
    s ← Rethink.rethink_sysui_rsp s
    s ← Rethink.rethink_snoozed s
    s ← Rethink.rethink_served s
    s ← rethink_recurring driver fuel s
    Rethink.rethink_deleted s

  -- One round, and whether the loop goes on
  unfoldable pub rethink_round : Server → Option (Bool × Server)
  rethink_round s0 = do
    s1 ← Rethink.rethink_new (queuestate_reset (with_queue s0 (clr_dirty s0.queue)))
    s2 ← Rethink.rethink_waitconn s1
    (again, s3) ← rethink_timechange driver fuel s2
    elim again [
      | true ↦ some (true, s3)
      | false ↦ do
        s4 ← advance s3
        let q = cleanup_deleted s4.queue
        some (q.dirty, with_queue s4 q)
    ]

  -- At most `n` rounds, and whether the loop is still to go on
  unfoldable pub rethink_rounds : ℕ → Server → Option (Bool × Server)
  rethink_rounds zero s = some (true, s)
  rethink_rounds (suc n) s = do
    (more, s') ← rethink_round s
    elim more [ true ↦ rethink_rounds n s' | false ↦ some (false, s') ]

then-Returns :
    (o : Option Server) (f : Server → Option Server)
    → Returns o
    → ((s : Server) → IsValid s.queue → Returns (f s))
    → Returns (o >>= f)
then-Returns none f (s', e, v) h = absurd (let clash = e in cc)
then-Returns (some s) f (s', e, v) h = let same : s ≡ s' = cc in h s (rw same v)

module _ (driver : Driver) (fuel : ℕ) where
  advance-Returns : (s : Server) → IsValid s.queue → Returns (advance driver fuel s)
  unfolding advance run_stage
  advance-Returns s v = then-Returns _ _ (run_stage-Returns s v queued) (λ s v.
      then-Returns _ _ (run_stage-Returns s v missed) (λ s v.
        then-Returns _ _ (run_stage-Returns s v postponed) (λ s v.
          then-Returns _ _ (run_stage-Returns s v limbo) (λ s v.
            then-Returns _ _ (run_stage-Returns s v triggered) (λ s v.
              then-Returns _ _ (run_stage-Returns s v waitsysui) (λ s v.
                then-Returns _ _ (run_stage-Returns s v sysui_req) (λ s v.
                  then-Returns _ _ (run_stage-Returns s v sysui_ack) (λ s v.
                    then-Returns _ _ (run_stage-Returns s v sysui_rsp) (λ s v.
                      then-Returns _ _ (run_stage-Returns s v snoozed) (λ s v.
                        then-Returns _ _ (run_stage-Returns s v served) (λ s v.
                          then-Returns _ _ (run_stage-Returns s v (recurring driver fuel))
                            (λ s v. run_stage-Returns s v deleted))))))))))))

  -- Where a round leaves the server: in order, and, if the loop ends there, with nothing dirty and
  -- no dead event queued.
  pub record Settled (more : Bool) (s : Server) : Type 0 where
    pub valid : IsValid s.queue
    pub clean : more ≡ false → s.queue.dirty ≡ false
    pub no_dead : more ≡ false → (p : ℕ) → Holds s.queue p → dead s.queue p ≡ false

  abbrev pub Settles : Option (Bool × Server) → Type 0
  Settles o = (more : Bool) × (s' : Server) × (o ≡ some (more, s')) × Settled more s'

  round-Settles : (s : Server) → IsValid s.queue → Settles (rethink_round driver fuel s)
  unfolding rethink_round queuestate_reset run_stage
  round-Settles s v =
      let (s1, e1, v1) =
        run_stage-Returns (queuestate_reset (with_queue s (clr_dirty s.queue)))
          (SameKeys-IsValid v (dirt-SameKeys false s.queue)) new in
      let (s2, e2, v2) = run_stage-Returns s1 v1 waitconn in
      let (again, s3, e3, c) = rethink_timechange-Changed driver fuel s2 v2 in
      elim (Bool-cases again) [
        | inl more ↦
            rw (e1, e2, e3, more)
              (
                true,
                s3,
                refl,
                record {
                  valid = c.valid;
                  clean = λ e. absurd (let clash = e in cc);
                  no_dead = λ e. absurd (let clash = e in cc);
                },
              )
        | inr on ↦
            let (s4, e4, v4) = advance-Returns s3 c.valid in
            let k = cleanup_deleted-Collected v4 in
            rw (e1, e2, e3, on, e4)
              (
                (cleanup_deleted s4.queue).dirty,
                with_queue s4 (cleanup_deleted s4.queue),
                refl,
                record {
                  valid = cleanup_deleted-IsValid v4;
                  clean = λ e. e;
                  no_dead =
                      λ e p h. let (old, live) = (k.live p).0 h in rw (k.live_kept p live) live;
                },
              )
      ]

  -- From a queue in order, any number of rounds of the loop run without a dereference of NULL and
  -- leave the queue in order; and when the loop ends, the queue is not dirty, and no deleted or
  -- finalized event is queued.
  pub rethink_rounds-Settles :
      (n : ℕ) (s : Server) → IsValid s.queue → Settles (rethink_rounds driver fuel n s)
  unfolding rethink_rounds
  rethink_rounds-Settles zero s v = (
    true,
    s,
    refl,
    record {
      valid = v;
      clean = λ e. absurd (let clash = e in cc);
      no_dead = λ e. absurd (let clash = e in cc);
    },
  )
  rethink_rounds-Settles (suc n) s v =
      let (more, s', e, k) = round-Settles s v in
      elim (Bool-cases more) [
        | inl on ↦ rw (e, on) (rethink_rounds-Settles n s' k.valid)
        | inr done ↦ rw (e, done) (false, s', refl, rw done at k)
      ]
