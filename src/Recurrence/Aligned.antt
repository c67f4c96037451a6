-- ===== src/Recurrence/Aligned.antt =====
-- alarm_recur_align and alarm_recur_next, in a time zone of fixed offset.
use alarmd.Common.{
  ℕ, ◌+◌, ◌*◌, ◌<◌, ◌≡◌, ◌≢◌, refl, ◌⊎◌, inl, inr, Bool, true, false, if◌then◌else◌, Option, some,
  ℤ, pos, ==_iff, arith,
}
use alarmd.Event.{Text, Tm, Recur}
use alarmd.Calendar.{Driver, no_time}
use alarmd.Calendar.FixedOffset.{FixedOffset, In}
use alarmd.Recurrence.{
  build, result, Stage, going, cleanup, min_bits, hour_bits, has_date, handle_minutes, handle_hours,
  handle_dates, handle_seconds, handle_masks, handle_specials, recur_align, recur_next,
}
use alarmd.Recurrence.Ahead.{ahead, handle_masks-ahead}
use alarmd.Recurrence.Matches.{MinMatches, HourMatches, DateMatches}
use alarmd.Recurrence.Loops.{Good, Dated, seconds-Good, minutes-Good, hours-Good, dates-Good}

-- A time that the masks allow, at the start of a minute, as it was built
pub record Allowed (driver : Driver) (tz : Text) (self : Recur) (t : ℤ) (tm : Tm) : Type 0 where
  pub time : t ≢ no_time
  pub built : (x : Tm) × (build driver tz x ≡ (t, tm))
  pub sec : tm.tm_sec ≡ pos 0
  pub min : MinMatches self tm
  pub hour : HourMatches self tm
  pub date : (has_date self ≡ true) → DateMatches self tm

-- Nothing asks for a change: the seconds are 0 and all masks are empty.
pub record Idle (self : Recur) (dst : Tm) : Type 0 where
  pub sec : dst.tm_sec ≡ pos 0
  pub no_min : min_bits self ≡ 0
  pub no_hour : hour_bits self ≡ 0
  pub no_date : has_date self ≡ false

-- The call ends with a time that is allowed, or with -1 and a reason.
abbrev pub Ended : Driver → Text → Recur → Tm → Option (ℤ × Tm) → Type 0
Ended driver tz self dst o =
    (t : ℤ) × (tm : Tm) × (o ≡ some (t, tm))
    × (Allowed driver tz self t tm
        ⊎ ((t ≡ no_time) × (Idle self dst ⊎ ((x : Tm) × ((build driver tz x).0 ≡ no_time)))))

abbrev pub IsTimeOfDay : Tm → Type 0
IsTimeOfDay tm = In 0 59 tm.tm_min × In 0 23 tm.tm_hour

module _ {driver : Driver} {tz : Text} {bound : ℕ} (law : FixedOffset driver tz bound)
    (self : Recur) (fuel : ℕ) (rounds : 180 < fuel) (days : 2 * bound + 1 < fuel) where
  inc_In : (align_only : Bool) → In 0 1 (if align_only then pos 0 else pos 1)
  inc_In align_only = ground arith

  handle_masks-Ended :
      (dst : Tm)
      → IsTimeOfDay dst
      → (align_only : Bool)
      → Ended driver tz self dst (handle_masks driver tz fuel self dst align_only)
  unfolding handle_masks
  handle_masks-Ended dst (min, hour) align_only =
      let inc : ℤ = if align_only then pos 0 else pos 1 in
      let (s1, e1, g1) =
        minutes-Good law self fuel rounds _ _
          (seconds-Good law self inc dst (inc_In align_only) min hour) in
      let (s2, e2, g2) = hours-Good law self fuel rounds _ s1 g1 in
      let (s3, e3, g3) = dates-Good law self fuel days _ s2 g2 in rw (e1, e2, e3) (go s3 g3)
    where
      go :
          (s : Stage)
          → Good law self
              (Dated law self)
              ((((dst.tm_sec ≡ pos 0) × (min_bits self ≡ 0)) × (hour_bits self ≡ 0))
                × (has_date self ≡ false))
              s
          → Ended driver tz self dst (some (result driver tz s))
      go (cleanup res tm) (e, x) = (res, tm, refl, inr (e, inr x))
      go (going inc res tm) (i, sec, min, hour, p, inl (e, n)) = (
        res,
        tm,
        refl,
        inr (e, inl (record { sec = n.0.0.0; no_min = n.0.0.1; no_hour = n.0.1; no_date = n.1 })),
      )
      go (going inc res tm) (i, sec, min, hour, p, inr (b, x)) = (
        res,
        tm,
        refl,
        inl (record { time = b; built = x; sec = sec; min = p.0.0; hour = p.0.1; date = p.1 }),
      )

  -- In a time zone of fixed offset, with fuel for more than 180 rounds and for the days of the
  -- range of times, and for a time of day that is in range, alarm_recur_align comes to an end: with
  -- a time that was built, at the start of a minute, whose minute, hour and date the masks allow;
  -- or with -1, because a time could not be built, or because the seconds are 0 and all masks are
  -- empty.
  pub recur_align-Ended :
      (trg : Tm) → IsTimeOfDay trg → Ended driver tz self trg (recur_align driver tz fuel self trg)
  unfolding recur_align
  recur_align-Ended trg h = handle_masks-Ended trg h true

  special-IsTimeOfDay :
      (trg : Tm)
      → (handle_specials driver tz self trg).0 ≢ no_time
      → IsTimeOfDay (handle_specials driver tz self trg).1
  unfolding handle_specials
  special-IsTimeOfDay trg b = let (s, m, h, d, n, w) = law.normal _ b in (m, h)

  -- In a time zone of fixed offset, with fuel for more than 180 rounds and for the days of the
  -- range of times, alarm_recur_next comes to an end in the same way as alarm_recur_align, from the
  -- time that the special rule gives, if that can be built; and it gives what alarm_recur_align
  -- gives one minute later than that time, or one hour or one day if that is the finest unit that a
  -- mask is for. A time with seconds, which is rounded up, is not moved on.
  pub recur_next-Ended :
      (trg : Tm)
      → (handle_specials driver tz self trg).0 ≢ no_time
      → Ended driver tz self
          (handle_specials driver tz self trg).1
          (recur_next driver tz fuel self trg)
        × (recur_next driver tz fuel self trg
            ≡ recur_align driver tz fuel self (ahead self (handle_specials driver tz self trg).1))
  unfolding recur_next recur_align
  recur_next-Ended trg b = (
    handle_masks-Ended _ (special-IsTimeOfDay trg b) false,
    handle_masks-ahead driver tz fuel self (handle_specials driver tz self trg).1,
  )

-- Whatever the special rule, alarm_recur_next gives -1 for a recurrence without masks when the time
-- that the rule gives stands at the start of a minute.
pub recur_next-Idle :
    (driver : Driver) (tz : Text) (fuel : ℕ) (self : Recur) (trg : Tm)
    → Idle self (handle_specials driver tz self trg).1
    → recur_next driver tz fuel self trg ≡ some (no_time, (handle_specials driver tz self trg).1)
unfolding recur_next handle_masks handle_seconds handle_minutes handle_hours handle_dates
recur_next-Idle driver tz fuel self trg idle =
    rw
      (
        idle.sec,
        handle_minutes,
        (==_iff _ _).1 idle.no_min,
        handle_hours,
        (==_iff _ _).1 idle.no_hour,
        handle_dates,
        idle.no_date,
      )
      refl
