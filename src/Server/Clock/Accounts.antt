-- ===== src/Server/Clock/Accounts.antt =====
-- No movement of the clock is lost: what server_clock_source_is_stable notes adds up.
use alarmd.Common.{
  ℕ, Bool, true, false, not, ◌||◌, ℤ, pos, ◌+ℤ◌, ◌-ℤ◌, ltb_ℤ, int_laws, if◌then◌else◌, ◌≡◌, refl,
  sym, ap, ap₂, ◌∙◌, arith, Bool-cases, inl, inr,
}
use alarmd.Event.{has}
use alarmd.Server.{Server, state_get, state_clr, sf_clk_mv_forw, sf_clk_mv_back}
use alarmd.Server.Dialog.{rethink_request}
use alarmd.Server.Clock.{
  Watch, state_set, beyond, start_watch, detect, note_change, clock_source_is_stable,
  sf_clk_changed,
}

-- The part of the server that the clock's movements are noted in
pub record SameNotes (s r : Server) : Type 0 where
  pub forw : r.delta_forw ≡ s.delta_forw
  pub back : r.delta_back ≡ s.delta_back
  pub queue : r.queue ≡ s.queue

state_set-SameNotes : (s : Server) (set : ℕ) → SameNotes s (state_set s set)
unfolding state_set rethink_request
state_set-SameNotes s set = record {
  forw = ground arith;
  back = ground arith;
  queue = ground arith;
}

total : Server → ℤ
total s = s.delta_forw +ℤ s.delta_back

balanced_forw : (a b c d : ℤ) → b +ℤ (c +ℤ d) ≡ a +ℤ (c +ℤ (b -ℤ a) +ℤ d)
balanced_forw a b c d = grind int_laws

balanced_back : (a b c d : ℤ) → b +ℤ (c +ℤ d) ≡ a +ℤ (c +ℤ (d +ℤ (b -ℤ a)))
balanced_back a b c d = grind int_laws

-- What noting a change does, for the watch and the server before and after.
record Noted (w w' : Watch) (s s' : Server) : Type 0 where
  balance : w'.delta_sched +ℤ total s ≡ w.delta_sched +ℤ total s'
  settled : beyond 5 (w'.delta_clock -ℤ w'.delta_sched) ≡ false
  clock : w'.delta_clock ≡ w.delta_clock
  delay : w'.delay_until ≡ w.delay_until
  queue : s'.queue ≡ s.queue

settled_zero : (a : ℤ) → beyond 5 (a -ℤ a) ≡ false
unfolding ◌-ℤ◌
settled_zero a = ground arith

near_zero : (a : ℤ) → beyond 2 (a -ℤ a) ≡ false
unfolding ◌-ℤ◌
near_zero a = ground arith

note_change-Noted : (w : Watch) (s : Server) → Noted w (note_change w s).0 s (note_change w s).1
unfolding note_change total
note_change-Noted w s =
    let diff = w.delta_clock -ℤ w.delta_sched in
    elim (Bool-cases (ltb_ℤ (pos 5) diff)) [
      | inl ahead ↦
          let k =
            state_set-SameNotes (record s { delta_forw = s.delta_forw +ℤ diff }) sf_clk_mv_forw in
          rw (ahead, note_change)
            (record {
              balance =
                  balanced_forw _ _ _ _
                  ∙ ap (λ x. w.delta_sched +ℤ x) (sym (ap₂ (λ x y. x +ℤ y) k.forw k.back));
              settled = settled_zero w.delta_clock;
              clock = refl;
              delay = refl;
              queue = k.queue;
            })
      | inr not_ahead ↦ elim (Bool-cases (ltb_ℤ diff (pos 0 -ℤ pos 5))) [
        | inl behind ↦
            let k =
              state_set-SameNotes (record s { delta_back = s.delta_back +ℤ diff }) sf_clk_mv_back in
            rw (not_ahead, behind, note_change)
              (record {
                balance =
                    balanced_back _ _ _ _
                    ∙ ap (λ x. w.delta_sched +ℤ x) (sym (ap₂ (λ x y. x +ℤ y) k.forw k.back));
                settled = settled_zero w.delta_clock;
                clock = refl;
                delay = refl;
                queue = k.queue;
              })
        | inr not_behind ↦
            rw (not_ahead, not_behind, note_change)
              (record {
                balance = refl;
                settled = rw (not_ahead, not_behind) refl;
                clock = refl;
                delay = refl;
                queue = refl;
              })
      ]
    ]

detect-near :
    (changed : Bool) (delta mono : ℤ) (w : Watch)
    → (beyond 2 (delta -ℤ (detect changed delta mono w).delta_clock) ≡ false)
      × ((detect changed delta mono w).delta_sched ≡ w.delta_sched)
unfolding detect
detect-near changed delta mono w =
    elim (Bool-cases (changed || beyond 2 (delta -ℤ w.delta_clock))) [
      | inl moved ↦ rw (moved, detect) (near_zero delta, refl)
      | inr steady ↦ rw (steady, detect) (later changed _ steady, refl)
    ]
  where
    later : (a b : Bool) → (a || b) ≡ false → b ≡ false
    later true b h = absurd (let clash = h in cc)
    later false b h = h

cleared-SameNotes :
    (changed : Bool) (s : Server) → SameNotes s (if changed then state_clr s sf_clk_changed else s)
unfolding state_clr
cleared-SameNotes true s = record { forw = refl; back = refl; queue = refl }
cleared-SameNotes false s = record { forw = refl; back = refl; queue = refl }

-- What a call makes of the watch and the server.
pub record Watched (mono : ℤ) (w0 : Watch) (s0 : Server) (stable : Bool) (w : Watch) (s : Server)
    : Type 0 where
  -- what is noted for the next run, and not taken yet, adds up to what the watch has moved by
  pub balance :
      w.delta_sched +ℤ (s0.delta_forw +ℤ s0.delta_back)
      ≡ w0.delta_sched +ℤ (s.delta_forw +ℤ s.delta_back)
  pub near : beyond 2 (s0.clock -ℤ mono -ℤ w.delta_clock) ≡ false
  pub settled : stable ≡ true → beyond 5 (w.delta_clock -ℤ w.delta_sched) ≡ false
  pub waits : ltb_ℤ mono w.delay_until ≡ not stable
  pub queue : s.queue ≡ s0.queue

-- For a watch that has been started: the watch follows the difference of the clock and the monotonic
-- time to 2 seconds; the source is stable when the time to wait is over, and then all but 5 seconds of
-- the movement are noted in the server; what is noted, forwards and backwards, adds up to the movement; and
-- the queue stays as it is.
pub clock_source_is_stable-Watched :
    (mono : ℤ) (w0 : Watch) (s0 : Server)
    → w0.initialized ≡ true
    → let r = clock_source_is_stable mono w0 s0 in Watched mono w0 s0 r.0 r.1 r.2
unfolding clock_source_is_stable total
clock_source_is_stable-Watched mono w0 s0 h =
    let delta = s0.clock -ℤ mono in
    let changed = has (state_get s0) sf_clk_changed in
    let s1 = if changed then state_clr s0 sf_clk_changed else s0 in
    let k = cleared-SameNotes changed s0 in
    let started : start_watch delta mono w0 ≡ w0 = unfold start_watch in rw h refl in
    let w = detect changed delta mono w0 in
    let (near, sched) = detect-near changed delta mono w0 in
    elim (Bool-cases (ltb_ℤ mono w.delay_until)) [
      | inl early ↦
          rw (started, early)
            (record {
              balance = ap₂ (λ x y. x +ℤ y) sched (sym (ap₂ (λ x y. x +ℤ y) k.forw k.back));
              near = near;
              settled = λ e. absurd (let clash = e in cc);
              waits = early;
              queue = k.queue;
            })
      | inr late ↦
          let n = note_change-Noted w s1 in
          rw (started, late)
            (record {
              balance =
                  ap (λ x. (note_change w s1).0.delta_sched +ℤ x)
                    (sym (ap₂ (λ x y. x +ℤ y) k.forw k.back))
                  ∙ n.balance
                  ∙ ap (λ x. x +ℤ total (note_change w s1).1) sched;
              near = ap (λ x. beyond 2 (delta -ℤ x)) n.clock ∙ near;
              settled = λ e. n.settled;
              waits = ap (λ x. ltb_ℤ mono x) n.delay ∙ late;
              queue = n.queue ∙ k.queue;
            })
    ]
