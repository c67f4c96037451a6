-- ===== src/Server/Rethink/TimeChange.antt =====
-- server_rethink_timechange as a whole.
use alarmd.Common.{
  ℕ, Bool, true, false, not, ◌||◌, ◌&&◌, some, ℤ, pos, ◌+ℤ◌, eqb_ℤ, Bool-cases, inl, inr,
  if◌then◌else◌, ◌≡◌, refl, ◌∙◌, ap₂, arith,
}
use alarmd.EventState
use alarmd.Calendar.{Driver}
use alarmd.Event.{Event, has}
use alarmd.Queue.{Queue, clr_dirty, set_dirty}
use alarmd.Queue.Query.{in_state}
use alarmd.Queue.Valid.{IsValid, Holds, SameKeys, SameKeys-IsValid}
use alarmd.Server.{
  Server, state_get, state_clr, with_queue, timestate_sync, sf_tz_changed, sf_clk_mv_forw,
  sf_clk_mv_back,
}
use alarmd.Server.Flags.{clr_zone-forw, clr_zone-back, clr_forw-back}
use alarmd.Server.Rethink.Outcomes.{surroundings}
use alarmd.Server.Rethink.Recurring.{
  take_tz, take_forw, take_back, apply_timechange, rethink_timechange,
}
use alarmd.Server.Rethink.Rescheduled.{after_timechange, after_timechange-same, timechange-Performs}

take_tz-queue : (s : Server) → (take_tz s).1.queue ≡ s.queue
unfolding take_tz state_clr
take_tz-queue s = ground arith

take_forw-queue : (s : Server) → (take_forw s).1.queue ≡ s.queue
unfolding take_forw state_clr
take_forw-queue s = ground arith

take_back-queue : (s : Server) → (take_back s).1.queue ≡ s.queue
unfolding take_back state_clr
take_back-queue s = ground arith

-- The server once the flags are taken, and whether the zone has changed, and by how much the clock
noted : Server → Bool × ℤ × Server
noted s =
    let (zone, s1) = take_tz (with_queue s (clr_dirty s.queue)) in
    let (forw, s2) = take_forw s1 in let (back, s3) = take_back s2 in (zone, forw +ℤ back, s3)

noted-queue : (s : Server) → (noted s).2.queue ≡ clr_dirty s.queue
unfolding noted
noted-queue s = take_back-queue _ ∙ take_forw-queue _ ∙ take_tz-queue _

pub dirt-SameKeys : (dirty : Bool) (q : Queue) → SameKeys q (record q { dirty = dirty })
dirt-SameKeys dirty q = record {
  cookies_kept = refl;
  triggers_kept = refl;
  count_kept = refl;
  alloc_kept = refl;
  top_kept = omega arith;
  cookie_kept = λ p h. refl;
  trigger_kept = λ p h. refl;
}

-- Whether the time zone has changed, and by how much the clock has moved
abbrev pub zone_changed : Server → Bool
zone_changed s = has (state_get s) sf_tz_changed

abbrev pub clock_moved : Server → ℤ
clock_moved s =
    (if has (state_get s) sf_clk_mv_forw then s.delta_forw else pos 0)
    +ℤ (if has (state_get s) sf_clk_mv_back then s.delta_back else pos 0)

take_tz-lem :
    (s : Server)
    → ((take_tz s).0 ≡ zone_changed s)
      × (has (state_get (take_tz s).1) sf_clk_mv_forw ≡ has (state_get s) sf_clk_mv_forw)
      × (has (state_get (take_tz s).1) sf_clk_mv_back ≡ has (state_get s) sf_clk_mv_back)
      × ((take_tz s).1.delta_forw ≡ s.delta_forw)
      × ((take_tz s).1.delta_back ≡ s.delta_back)
unfolding take_tz
take_tz-lem s = elim (Bool-cases (zone_changed s)) [
  | inl e ↦
      rw e
        (refl, clr_zone-forw s, clr_zone-back s, unfold state_clr in refl, unfold state_clr in refl)
  | inr e ↦ rw e (refl, refl, refl, refl, refl)
]

take_forw-lem :
    (s : Server)
    → ((take_forw s).0 ≡ (if has (state_get s) sf_clk_mv_forw then s.delta_forw else pos 0))
      × (has (state_get (take_forw s).1) sf_clk_mv_back ≡ has (state_get s) sf_clk_mv_back)
      × ((take_forw s).1.delta_back ≡ s.delta_back)
unfolding take_forw
take_forw-lem s = elim (Bool-cases (has (state_get s) sf_clk_mv_forw)) [
  | inl e ↦ rw e (refl, unfold state_get in clr_forw-back s, unfold state_clr in refl)
  | inr e ↦ rw e (refl, refl, refl)
]

take_back-lem :
    (s : Server)
    → (take_back s).0 ≡ (if has (state_get s) sf_clk_mv_back then s.delta_back else pos 0)
unfolding take_back
take_back-lem s = elim (Bool-cases (has (state_get s) sf_clk_mv_back)) [
  | inl e ↦ rw e refl
  | inr e ↦ rw e refl
]

module _ (driver : Driver) (fuel : ℕ) where
  -- What server_rethink_timechange makes of the server.
  pub record TimeChanged (s : Server) (again : Bool) (s' : Server) : Type 0 where
    pub valid : IsValid s'.queue
    pub held : (p : ℕ) → Holds s.queue p → Holds s'.queue p
    -- the enabled events in QUEUED are looked at if the zone has changed or the clock has moved
    pub events :
        (p : ℕ)
        → Holds s.queue p
        → s'.queue.heap p ≡ (
            if (zone_changed s || not (eqb_ℤ (clock_moved s) (pos 0)))
              && in_state EventState.queued (s.queue.heap p)
            then after_timechange driver fuel (clock_moved s) (surroundings s) (s.queue.heap p)
            else s.queue.heap p)
    -- a queue that was dirty is so again, and it is if the result tells so
    pub dirty_kept : s.queue.dirty ≡ true → s'.queue.dirty ≡ true
    pub told : again ≡ true → s'.queue.dirty ≡ true

  clean-IsValid : (s : Server) → IsValid s.queue → IsValid (noted s).2.queue
  clean-IsValid s v = rw noted-queue (SameKeys-IsValid v (dirt-SameKeys false s.queue))

  applied :
      (zone : Bool) (adj : ℤ) (s : Server)
      → IsValid s.queue
      → (s' : Server) × (apply_timechange driver fuel zone adj s ≡ some s')
        × IsValid s'.queue
        × ((p : ℕ) → Holds s.queue p → Holds s'.queue p)
        × ((p : ℕ)
            → Holds s.queue p
            → s'.queue.heap p ≡ (
                if (zone || not (eqb_ℤ adj (pos 0))) && in_state EventState.queued (s.queue.heap p)
                then after_timechange driver fuel adj (surroundings s) (s.queue.heap p)
                else s.queue.heap p))
  unfolding apply_timechange
  applied zone adj s v = elim (Bool-cases (zone || not (eqb_ℤ adj (pos 0)))) [
    | inl due ↦
        let (s', done, k, env, each) = timechange-Performs driver fuel adj s v in
        rw (due, apply_timechange, done) (timestate_sync s', refl, k.valid, k.held, each)
    | inr idle ↦ rw (idle, apply_timechange) (s, refl, v, (λ p h. h), (λ p h. refl))
  ]

  abbrev with_dirt : Bool → Server → Server
  with_dirt dirty s = if dirty then with_queue s (set_dirty s.queue) else s

  with_dirt-IsValid : (d : Bool) (s : Server) → IsValid s.queue → IsValid (with_dirt d s).queue
  with_dirt-IsValid true s v = SameKeys-IsValid v (dirt-SameKeys true s.queue)
  with_dirt-IsValid false s v = v

  with_dirt-Holds :
      (d : Bool) (s : Server) (p : ℕ) → Holds s.queue p → Holds (with_dirt d s).queue p
  with_dirt-Holds true s p h = h
  with_dirt-Holds false s p h = h

  with_dirt-heap : (d : Bool) (s : Server) (p : ℕ) → (with_dirt d s).queue.heap p ≡ s.queue.heap p
  with_dirt-heap true s p = refl
  with_dirt-heap false s p = refl

  noted-zone : (s : Server) → (noted s).0 ≡ zone_changed s
  unfolding noted state_get
  noted-zone s = (take_tz-lem (with_queue s (clr_dirty s.queue))).0

  noted-moved : (s : Server) → (noted s).1 ≡ clock_moved s
  unfolding noted
  noted-moved s =
      let s0 = with_queue s (clr_dirty s.queue) in
      let (z, f, b, df, db) = take_tz-lem s0 in
      let (f1, b1, db1) = take_forw-lem (take_tz s0).1 in
      let forw : (take_forw (take_tz s0).1).0
          ≡ (if has (state_get s0) sf_clk_mv_forw then s.delta_forw else pos 0) =
        f1 ∙ ap₂ (λ b d. if b then d else pos 0) f df in
      let back =
        take_back-lem (take_forw (take_tz s0).1).1
        ∙ ap₂ (λ b d. if b then d else pos 0) (b1 ∙ b) (db1 ∙ db) in
      ap₂ (λ a b. a +ℤ b) forw back ∙ (unfold state_get in refl)

  kept_now : (s : Server) → (noted s).2.rethink_time ≡ s.rethink_time
  unfolding noted take_tz take_forw take_back state_clr
  kept_now s = ground arith

  kept_tz : (s : Server) → (noted s).2.tz_curr ≡ s.tz_curr
  unfolding noted take_tz take_forw take_back state_clr
  kept_tz s = ground arith

  looked_at :
      (s : Server) (e : Event)
      → (if ((noted s).0 || not (eqb_ℤ (noted s).1 (pos 0))) && in_state EventState.queued e
          then after_timechange driver fuel (noted s).1 (surroundings (noted s).2) e
          else e)
        ≡ (if (zone_changed s || not (eqb_ℤ (clock_moved s) (pos 0)))
              && in_state EventState.queued e
            then after_timechange driver fuel (clock_moved s) (surroundings s) e
            else e)
  unfolding surroundings
  looked_at s e =
      let w = surroundings (noted s).2 in
      let same =
        after_timechange-same driver fuel (clock_moved s) w (surroundings s) e (kept_now s)
          (kept_tz s) in
      rw (noted-zone, noted-moved, same) refl

  pub rethink_timechange-Changed :
      (s : Server)
      → IsValid s.queue
      → (again : Bool) × (s' : Server) × (rethink_timechange driver fuel s ≡ some (again, s'))
        × TimeChanged s again s'
  unfolding rethink_timechange noted
  rethink_timechange-Changed s v =
      let (s', done, w, held, each) =
        applied (noted s).0 (noted s).1 (noted s).2 (clean-IsValid s v) in
      (
        s'.queue.dirty,
        with_dirt s.queue.dirty s',
        rw (done, rethink_timechange) refl,
        record {
          valid = with_dirt-IsValid s.queue.dirty s' w;
          held = λ p h. with_dirt-Holds s.queue.dirty s' p (held p (rw noted-queue h));
          events = λ p h.
              with_dirt-heap s.queue.dirty s' p
              ∙ rw noted-queue at (each p (rw noted-queue h))
              ∙ looked_at s (s.queue.heap p);
          dirty_kept = λ d. rw d refl;
          told = λ d. elim (Bool-cases s.queue.dirty) [ inl e ↦ rw e refl | inr e ↦ rw e d ];
        },
      )
