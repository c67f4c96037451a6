-- ===== src/Tests/RecurrenceExamples.antt =====
-- The theorems on src/recurrence.c, applied to UTC in the year 1970.
use alarmd.Common.{◌^◌, ℕ, ◌≡◌, ◌≢◌, arith, some, none, pos, ◌+ℤ◌, refl}
use alarmd.Event.{Tm, Recur, zero_tm}
use alarmd.Calendar.{no_time, build_tm_guess_dst, build_tm}
use alarmd.Recurrence.{recur_ctor, recur_align, recur_next, handle_specials}
use alarmd.Recurrence.Ahead.{ahead}
use alarmd.Recurrence.Aligned.{Ended, recur_align-Ended, recur_next-Ended, Idle, recur_next-Idle}
use alarmd.Tests.Year1970.{driver, driver-FixedOffset, mktime, fits, fields_of, time_of, start}

-- The first of January at 10:20:30
abbrev morning : Tm
morning = record zero_tm {
  tm_sec = pos 30;
  tm_min = pos 20;
  tm_hour = pos 10;
  tm_mday = pos 1;
  tm_year = pos 70;
}

-- On the last day of a month, at half past any hour
abbrev month_ends : Recur
month_ends = record recur_ctor { mask_min = 2 ^ 30; mask_mday = 1 }

abbrev fuel : ℕ
fuel = 100000000

recur_align-Ended_example :
    Ended driver none month_ends morning (recur_align driver none fuel month_ends morning)
recur_align-Ended_example =
    recur_align-Ended (driver-FixedOffset none) month_ends fuel (omega arith) (omega arith) morning
      ((omega arith, omega arith), (omega arith, omega arith))

-- Every month, on a weekday
abbrev monthly : Recur
monthly = record recur_ctor { mask_wday = 62; special = 2 }

month_later : (handle_specials driver none monthly morning).0 ≢ no_time
unfolding handle_specials build_tm_guess_dst build_tm driver mktime fits fields_of time_of start
    ◌+ℤ◌
month_later = ground arith

recur_next-Ended_example :
    Ended driver none monthly
      (handle_specials driver none monthly morning).1
      (recur_next driver none fuel monthly morning)
    × (recur_next driver none fuel monthly morning
        ≡ recur_align driver none fuel monthly
            (ahead monthly (handle_specials driver none monthly morning).1))
recur_next-Ended_example =
    recur_next-Ended (driver-FixedOffset none) monthly fuel (omega arith) (omega arith) morning
      month_later

-- Every month, at ten o'clock
abbrev plain : Recur
plain = record recur_ctor { special = 2 }

abbrev ten : Tm
ten = record morning { tm_sec = pos 0; tm_min = pos 0 }

plain-Idle : Idle plain (handle_specials driver none plain ten).1
unfolding handle_specials build_tm_guess_dst build_tm driver mktime fits fields_of time_of start
    ◌+ℤ◌
plain-Idle = record { sec = refl; no_min = refl; no_hour = refl; no_date = refl }

recur_next-Idle_example :
    recur_next driver none fuel plain ten
    ≡ some (no_time, (handle_specials driver none plain ten).1)
recur_next-Idle_example = recur_next-Idle driver none fuel plain ten plain-Idle
