-- ===== src/Recurrence/Loops.antt =====
-- What alarm_recur_handle_masks finds, in a time zone of fixed offset: each loop by itself.
use alarmd.Common.{
  ℕ, ◌+◌, ◌*◌, ◌<◌, ◌==◌, ◌≡◌, ◌≢◌, refl, sym, ap, ◌∙◌, ◌⊎◌, inl, inr, arith, Bool, true, false,
  Bool-cases, some, ℤ, pos, eqb_ℤ, eq_of_parts, ◌+ℤ◌,
}
use alarmd.Event.{Text, Tm, Recur}
use alarmd.Calendar.{Driver, no_time}
use alarmd.Calendar.FixedOffset.{FixedOffset, In}
use alarmd.Recurrence.{
  build, seek, Stage, going, cleanup, bit, min_bits, hour_bits, has_date, min_ok, hour_ok, date_ok,
  next_min, next_hour, next_date, handle_seconds, handle_minutes, handle_hours, handle_dates,
}
use alarmd.Recurrence.Seek.{find_bit, Ends, seek-Ends}
use alarmd.Recurrence.Matches.{MinMatches, HourMatches, DateMatches, date_ok-DateMatches}
use alarmd.Recurrence.Steps.{
  Near, distance, at_zero, inc_In, distance-le, min_step, hour_step, Daily, left, left-le,
  built-Daily, date_step,
}

module _ {driver : Driver} {tz : Text} {bound : ℕ} (law : FixedOffset driver tz bound)
    (self : Recur) where
  -- What a stage comes to: building failed, or `dst` is at the start of a minute with `P` of it,
  -- and either it has been built, or `N`, nothing has been asked for so far.
  abbrev pub Good : (Tm → Type 0) → Type 0 → Stage → Type 0
  Good P N (cleanup res dst) = (res ≡ no_time) × ((x : Tm) × ((build driver tz x).0 ≡ no_time))
  Good P N (going inc res dst) =
      In 0 1 inc
      × (dst.tm_sec ≡ pos 0)
      × In 0 59 dst.tm_min
      × In 0 23 dst.tm_hour
      × P dst
      × (((res ≡ no_time) × N) ⊎ ((res ≢ no_time) × ((x : Tm) × (build driver tz x ≡ (res, dst)))))

  -- Where a loop ends, the stage is a good one.
  loop-Ends :
      (I P : Tm → Type 0) (N : Type 0) (ok : Tm → Bool) (move : Tm → Tm) (n : ℕ) (tm : Tm)
      → Ends driver tz ok move I n tm
      → ((x : Tm)
          → I x
          → (build driver tz x).0 ≢ no_time
          → ok (build driver tz x).1 ≡ true
          → Near 59 23 (build driver tz x).1 × P (build driver tz x).1)
      → (s : Stage) × (seek driver tz ok move n tm ≡ some s) × Good P N s
  loop-Ends I P N ok move n tm (x, i, inl (fails, e)) f = (_, e, (refl, (x, fails)))
  loop-Ends I P N ok move n tm (x, i, inr (b, good, e)) f =
      let ((sec, min, hour), p) = f x i b good in
      (_, e, (at_zero 1 refl, sec, min, hour, p, inr (b, (x, refl))))

  -- The loops, from a stage that has come well so far
  abbrev pub Masked : Tm → Type 0
  Masked tm = MinMatches self tm × HourMatches self tm

  abbrev pub Dated : Tm → Type 0
  Dated tm = Masked tm × ((has_date self ≡ true) → DateMatches self tm)

  pub seconds-Good :
      (inc : ℤ) (dst : Tm)
      → In 0 1 inc
      → In 0 59 dst.tm_min
      → In 0 23 dst.tm_hour
      → Good (λ tm. Unit {0}) (dst.tm_sec ≡ pos 0) (handle_seconds driver tz inc dst)
  unfolding handle_seconds
  seconds-Good inc dst i min hour = elim (Bool-cases (eqb_ℤ dst.tm_sec (pos 0))) [
    | inl zero ↦
        let z = eq_of_parts dst.tm_sec (pos 0) (ground arith) in
        rw (zero, handle_seconds) (i, z, min, hour, tt, inl (refl, z))
    | inr other ↦
        let x : Tm = record dst { tm_min = dst.tm_min +ℤ pos 1; tm_sec = pos 0 } in
        elim (Bool-cases (eqb_ℤ (build driver tz x).0 no_time)) [
          | inl fails ↦
              let e = eq_of_parts (build driver tz x).0 no_time (ground arith) in
              rw (other, handle_seconds, fails) (e, (x, e))
          | inr builds ↦
              let b : (build driver tz x).0 ≢ no_time =
                λ e. (let same = ap (λ t. eqb_ℤ t no_time) e in cc) in
              let (s, m, h, d, n, w) = law.normal x b in
              rw (other, handle_seconds, builds)
                (at_zero 1 refl, law.same_sec x b (at_zero 59 refl), m, h, tt, inr (b, (x, refl)))
        ]
  ]

  pub minutes-Good :
      (fuel : ℕ)
      → 180 < fuel
      → (N : Type 0) (s : Stage) → Good (λ tm. Unit {0}) N s
      → (s' : Stage) × (handle_minutes driver tz fuel self s ≡ some s')
        × Good (MinMatches self) (N × (min_bits self ≡ 0)) s'
  unfolding handle_minutes min_ok
  minutes-Good fuel f N (cleanup res dst) g = (cleanup res dst, refl, g)
  minutes-Good fuel f N (going inc res dst) (i, sec, min, hour, u, from) =
      elim (Bool-cases (min_bits self == 0)) [
        | inl free ↦
            let z : min_bits self ≡ 0 = ground arith in
            (
              going inc res dst,
              rw (free, handle_minutes) refl,
              (
                i,
                sec,
                min,
                hour,
                (λ n. absurd (n z)),
                elim from [ inl (e, h) ↦ inl (e, (h, z)) | inr built ↦ inr built ],
              ),
            )
        | inr asked ↦
            let (k, l, hit) = find_bit 60 self.mask_min (ground arith) in
            rw (asked, handle_minutes)
              (loop-Ends (Near 60 23) (MinMatches self) _ (min_ok self) next_min fuel _
                (seek-Ends driver tz (min_ok self) next_min (Near 60 23)
                  (λ tm. distance 60 k tm.tm_min) (min_step law self k l (ground arith)) fuel _
                  (sec, inc_In 59 dst.tm_min inc min i, hour)
                  (omega (arith, distance-le 60 k (dst.tm_min +ℤ inc))))
                (λ x (sec', min', hour') b good.
                  let (s, m, h, d, n, w) = law.normal x b in
                  ((law.same_sec x b (at_zero 59 sec') ∙ sec', m, h), (λ e. good))))
      ]

  pub hours-Good :
      (fuel : ℕ)
      → 180 < fuel
      → (N : Type 0) (s : Stage) → Good (MinMatches self) N s
      → (s' : Stage) × (handle_hours driver tz fuel self s ≡ some s')
        × Good Masked (N × (hour_bits self ≡ 0)) s'
  unfolding handle_hours hour_ok
  hours-Good fuel f N (cleanup res dst) g = (cleanup res dst, refl, g)
  hours-Good fuel f N (going inc res dst) (i, sec, min, hour, k, from) =
      elim (Bool-cases (hour_bits self == 0)) [
        | inl free ↦
            let z : hour_bits self ≡ 0 = ground arith in
            (
              going inc res dst,
              rw (free, handle_hours) refl,
              (
                i,
                sec,
                min,
                hour,
                (k, (λ n. absurd (n z))),
                elim from [ inl (e, h) ↦ inl (e, (h, z)) | inr built ↦ inr built ],
              ),
            )
        | inr asked ↦
            let (j, l, hit) = find_bit 24 self.mask_hour (ground arith) in
            rw (asked, handle_hours)
              (loop-Ends (λ tm. Near 59 24 tm × MinMatches self tm) Masked _ (hour_ok self)
                next_hour fuel _
                (seek-Ends driver tz (hour_ok self) next_hour
                  (λ tm. Near 59 24 tm × MinMatches self tm) (λ tm. distance 24 j tm.tm_hour)
                  (hour_step law self j l (ground arith)) fuel _
                  ((sec, min, inc_In 23 dst.tm_hour inc hour i), k)
                  (omega (arith, distance-le 24 j (dst.tm_hour +ℤ inc))))
                (λ x ((sec', min', hour'), k') b good.
                  let (s, m, h, d, n, w) = law.normal x b in
                  (
                    (law.same_sec x b (at_zero 59 sec') ∙ sec', m, h),
                    (
                      (λ n.
                          ap (λ z. bit self.mask_min z) (law.same_min x b (at_zero 59 sec') min')
                          ∙ k' n),
                      (λ e. good),
                    ),
                  )))
      ]

  pub dates-Good :
      (fuel : ℕ)
      → 2 * bound + 1 < fuel
      → (N : Type 0) (s : Stage) → Good Masked N s
      → (s' : Stage) × (handle_dates driver tz fuel self s ≡ some s')
        × Good Dated (N × (has_date self ≡ false)) s'
  unfolding handle_dates
  dates-Good fuel f N (cleanup res dst) g = (cleanup res dst, refl, g)
  dates-Good fuel f N (going inc res dst) (i, sec, min, hour, k, from) =
      elim (Bool-cases (has_date self)) [
        | inr free ↦ (
          going inc res dst,
          rw (free, handle_dates) refl,
          (
            i,
            sec,
            min,
            hour,
            (k, (λ n. absurd (let clash = sym n ∙ free in cc))),
            elim from [ inl (e, h) ↦ inl (e, (h, free)) | inr built ↦ inr built ],
          ),
        )
        | inl asked ↦
            rw (asked, handle_dates)
              (loop-Ends (Daily self) Dated _ (date_ok self) (next_date self) fuel _
                (seek-Ends driver tz (date_ok self) (next_date self) (Daily self) (left law self)
                  (date_step law self) fuel _ ((sec, min, hour), k.0, k.1)
                  (omega (arith, left-le law self (record dst { tm_mday = dst.tm_mday +ℤ inc }))))
                (λ x day b good.
                  let (near, j', k') = built-Daily law self x day b in
                  (near, ((j', k'), (λ e. date_ok-DateMatches self _ good)))))
      ]
