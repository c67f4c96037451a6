-- ===== src/Recurrence/Matches.antt =====
-- What the masks of an alarm_recur_t allow.
use alarmd.Common.{◌≡◌, ◌≢◌, ◌⊎◌, arith, true, pos, eq_of_parts}
use alarmd.Event.{Tm, Recur}
use alarmd.Calendar.{get_days_in_month}
use alarmd.Recurrence.{
  bit, min_bits, hour_bits, wday_bits, mday_bits, eom_bit, mon_bits, mon_ok, mday_ok, date_ok,
  allowed_wday, allowed_mday, allowed_mon,
}

-- A mask without bits leaves its field free.
abbrev pub MinMatches : Recur → Tm → Type 0
MinMatches self tm = min_bits self ≢ 0 → bit self.mask_min tm.tm_min ≡ true

abbrev pub HourMatches : Recur → Tm → Type 0
HourMatches self tm = hour_bits self ≢ 0 → bit self.mask_hour tm.tm_hour ≡ true

-- The day of the month has its bit, or the last day is asked for and it is that.
pub record DateMatches (self : Recur) (tm : Tm) : Type 0 where
  pub mon : mon_bits self ≢ 0 → bit (mon_bits self) tm.tm_mon ≡ true
  pub wday : wday_bits self ≢ 0 → bit (wday_bits self) tm.tm_wday ≡ true
  pub mday :
      (mday_bits self ≢ 0) ⊎ (eom_bit self ≢ 0)
      → (bit (mday_bits self) tm.tm_mday ≡ true)
        ⊎ ((eom_bit self ≢ 0) × (tm.tm_mday ≡ pos (get_days_in_month tm)))

pub date_ok-DateMatches : (self : Recur) (tm : Tm) → date_ok self tm ≡ true → DateMatches self tm
unfolding date_ok mon_ok mday_ok allowed_wday allowed_mday allowed_mon
date_ok-DateMatches self tm h = record {
  mon = λ n. ground arith;
  wday = λ n. ground arith;
  mday = λ n. ground (arith, eq_of_parts tm.tm_mday (pos (get_days_in_month tm)));
}
