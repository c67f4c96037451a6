-- ===== src/Calendar/FixedOffset.antt =====
-- What mktime documents of a time zone whose offset never changes: it normalises the fields, and
-- fails outside the range of a time_t.
use alarmd.Common.{ℕ, ◌≡◌, ◌≢◌, ◌<◌, ℤ, pos, ◌+ℤ◌, pos_part, neg_part, ◌<ℤ◌, ◌≤ℤ◌}
use alarmd.Event.{Text, Tm}
use alarmd.Calendar.{Driver, no_time, build_tm_guess_dst}

-- The field lies in `lo … hi`.
abbrev pub In : ℕ → ℕ → ℤ → Type 0
In lo hi x = (pos lo ≤ℤ x) × (x ≤ℤ pos hi)

abbrev pub IsNormal : Tm → Type 0
IsNormal tm =
    In 0 59 tm.tm_sec
    × In 0 59 tm.tm_min
    × In 0 23 tm.tm_hour
    × In 1 31 tm.tm_mday
    × In 0 11 tm.tm_mon
    × In 0 6 tm.tm_wday

-- `bound` is beyond the largest time, and beyond the negative of the least.
pub record FixedOffset (driver : Driver) (tz : Text) (bound : ℕ) : Type 0 where
  pub normal :
      (tm : Tm)
      → (build_tm_guess_dst driver tm tz).0 ≢ no_time
      → IsNormal (build_tm_guess_dst driver tm tz).1
  -- a time of day in range stays; a minute 60 is the minute 0 of the next hour, and an hour 24 the
  -- hour 0 of the next day
  pub same_sec :
      (tm : Tm)
      → (build_tm_guess_dst driver tm tz).0 ≢ no_time
      → In 0 59 tm.tm_sec
      → (build_tm_guess_dst driver tm tz).1.tm_sec ≡ tm.tm_sec
  pub same_min :
      (tm : Tm)
      → (build_tm_guess_dst driver tm tz).0 ≢ no_time
      → In 0 59 tm.tm_sec
      → In 0 59 tm.tm_min
      → (build_tm_guess_dst driver tm tz).1.tm_min ≡ tm.tm_min
  pub same_hour :
      (tm : Tm)
      → (build_tm_guess_dst driver tm tz).0 ≢ no_time
      → In 0 59 tm.tm_sec
      → In 0 59 tm.tm_min
      → In 0 23 tm.tm_hour
      → (build_tm_guess_dst driver tm tz).1.tm_hour ≡ tm.tm_hour
  pub min_carry :
      (tm : Tm)
      → (build_tm_guess_dst driver tm tz).0 ≢ no_time
      → In 0 59 tm.tm_sec
      → tm.tm_min ≡ pos 60
      → (build_tm_guess_dst driver tm tz).1.tm_min ≡ pos 0
  pub hour_carry :
      (tm : Tm)
      → (build_tm_guess_dst driver tm tz).0 ≢ no_time
      → In 0 59 tm.tm_sec
      → In 0 59 tm.tm_min
      → tm.tm_hour ≡ pos 24
      → (build_tm_guess_dst driver tm tz).1.tm_hour ≡ pos 0
  -- the next day, and the first day of the next month, are later
  pub next_day :
      (tm : Tm)
      → (build_tm_guess_dst driver tm tz).0 ≢ no_time
      → let r = build_tm_guess_dst driver tm tz in
        let next = build_tm_guess_dst driver (record r.1 { tm_mday = r.1.tm_mday +ℤ pos 1 }) tz in
        (next.0 ≢ no_time → r.0 <ℤ next.0)
  pub next_month :
      (tm : Tm)
      → (build_tm_guess_dst driver tm tz).0 ≢ no_time
      → let r = build_tm_guess_dst driver tm tz in
        let next =
          build_tm_guess_dst driver
            (record r.1 { tm_mon = r.1.tm_mon +ℤ pos 1; tm_mday = pos 1 })
            tz in
        (next.0 ≢ no_time → r.0 <ℤ next.0)
  pub range :
      (tm : Tm)
      → let r = build_tm_guess_dst driver tm tz in (pos_part r.0 < bound) × (neg_part r.0 < bound)
