-- ===== src/Calendar.antt =====
-- src/ticker.c: the calendar. The function table `ticker_driver_t` through which the C library or
-- libtime breaks times down and builds them is a parameter, and what src/ticker.c makes of it is here.
use alarmd.Common.{
  ℕ, ◌+◌, ◌%◌, Bool, true, false, ◌&&◌, ◌||◌, not, ◌==◌, ℤ, pos, negsuc, ◌+ℤ◌, pos_part, neg_part,
  ltb_ℤ, eqb_ℤ, if◌then◌else◌,
}
use alarmd.Event.{Text, Tm}
pub mod FixedOffset

-- cb_mktime gives the time, or -1, and the structure as it leaves it; cb_get_remote breaks a time
-- down in a time zone.
pub record Driver : Type 0 where
  pub cb_mktime : Tm → Text → ℤ × Tm
  pub cb_get_remote : ℤ → Text → Tm

-- What a time_t is when a call has failed
abbrev pub no_time : ℤ
no_time = negsuc 0

unfoldable pub tm_is_same : Tm → Tm → Bool
tm_is_same a b =
    eqb_ℤ a.tm_sec b.tm_sec
    && eqb_ℤ a.tm_min b.tm_min
    && eqb_ℤ a.tm_hour b.tm_hour
    && eqb_ℤ a.tm_mday b.tm_mday
    && eqb_ℤ a.tm_mon b.tm_mon
    && eqb_ℤ a.tm_year b.tm_year
    && eqb_ℤ a.tm_wday b.tm_wday
    && eqb_ℤ a.tm_yday b.tm_yday
    && eqb_ℤ a.tm_isdst b.tm_isdst

-- __isleap of time.h; a remainder is 0 for a year and its negative at once.
unfoldable pub is_leap_year : ℤ → Bool
is_leap_year year =
    let y = pos_part year + neg_part year in y % 4 == 0 && (not (y % 100 == 0) || y % 400 == 0)

-- The table of ticker_get_days_in_month; a month outside it is read as the last entry.
abbrev lut : ℕ → ℕ
lut mon = if mon == 1 then 28 else if mon == 3 || mon == 5 || mon == 8 || mon == 10 then 30 else 31

unfoldable pub get_days_in_month : Tm → ℕ
get_days_in_month src =
    if eqb_ℤ src.tm_mon (pos 1)
    then (if is_leap_year (src.tm_year +ℤ pos 1900) then 29 else 28)
    else lut (pos_part src.tm_mon)

unfoldable pub break_tm : Driver → ℤ → Text → Tm
break_tm driver t tz = driver.cb_get_remote t tz

unfoldable pub build_tm : Driver → Tm → Text → ℤ × Tm
build_tm driver tm tz = driver.cb_mktime tm tz

unfoldable pub build_tm_guess_dst : Driver → Tm → Text → ℤ × Tm
build_tm_guess_dst driver tm tz = build_tm driver (record tm { tm_isdst = negsuc 0 }) tz

unfoldable pub tm_all_fields_are_zero : Tm → Bool
tm_all_fields_are_zero tm =
    eqb_ℤ tm.tm_min (pos 0)
    && eqb_ℤ tm.tm_hour (pos 0)
    && eqb_ℤ tm.tm_mday (pos 0)
    && eqb_ℤ tm.tm_mon (pos 0)
    && eqb_ℤ tm.tm_year (pos 0)
    && eqb_ℤ tm.tm_wday (pos 0)

unfoldable pub tm_all_fields_are_negative : Tm → Bool
tm_all_fields_are_negative tm =
    ltb_ℤ tm.tm_min (pos 0)
    && ltb_ℤ tm.tm_hour (pos 0)
    && ltb_ℤ tm.tm_mday (pos 0)
    && ltb_ℤ tm.tm_mon (pos 0)
    && ltb_ℤ tm.tm_year (pos 0)
    && ltb_ℤ tm.tm_wday (pos 0)

unfoldable pub tm_is_uninitialized : Tm → Bool
tm_is_uninitialized tm = tm_all_fields_are_zero tm || tm_all_fields_are_negative tm
