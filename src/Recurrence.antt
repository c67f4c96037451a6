-- ===== src/Recurrence.antt =====
-- src/recurrence.c: the next time that the masks of a recurrence allow. Each of the three loops of
-- alarm_recur_handle_masks builds the time, tests a field, and moves the structure on; `none` is
-- a loop that has used up its fuel.
pub mod Seek
pub mod Matches
pub mod Steps
pub mod Loops
pub mod Ahead
pub mod Aligned
use alarmd.Common.{
  ℕ, zero, suc, ◌+◌, ◌-◌, ◌/◌, ◌%◌, ◌^◌, Bool, true, false, not, ◌&&◌, ◌||◌, ◌==◌, Option, none,
  some, ℤ, pos, ◌+ℤ◌, pos_part, ◌>>=◌, eqb_ℤ, if◌then◌else◌,
}
use alarmd.Event.{Text, Tm, Recur}
use alarmd.Calendar.{Driver, no_time, get_days_in_month, build_tm_guess_dst}

abbrev pub recur_ctor : Recur
recur_ctor = record {
  mask_min = 0;
  mask_hour = 0;
  mask_mday = 0;
  mask_wday = 0;
  mask_mon = 0;
  special = 0;
}

-- The fields are those of a time that is broken down, and so not negative.
unfoldable pub init_from_tm : Tm → Recur
init_from_tm tm = record {
  mask_min = 2 ^ pos_part tm.tm_min;
  mask_hour = 2 ^ pos_part tm.tm_hour;
  mask_mday = 2 ^ pos_part tm.tm_mday;
  mask_wday = 2 ^ pos_part tm.tm_wday;
  mask_mon = 2 ^ pos_part tm.tm_mon;
  special = 0;
}

-- `mask & (1 << i)`
abbrev pub bit : ℕ → ℤ → Bool
bit mask i = mask / 2 ^ pos_part i % 2 == 1

-- The bits of a mask that count: `mask & ALARM_RECUR_MIN_ALL` and so on
abbrev pub min_bits : Recur → ℕ
min_bits self = self.mask_min % 2 ^ 60

abbrev pub hour_bits : Recur → ℕ
hour_bits self = self.mask_hour % 2 ^ 24

abbrev pub wday_bits : Recur → ℕ
wday_bits self = self.mask_wday % 2 ^ 7

abbrev pub mday_bits : Recur → ℕ
mday_bits self = self.mask_mday - self.mask_mday % 2

abbrev pub eom_bit : Recur → ℕ
eom_bit self = self.mask_mday % 2

abbrev pub mon_bits : Recur → ℕ
mon_bits self = self.mask_mon % 2 ^ 12

-- The masks M_wday, M_mday and M_mon, which allow all if nothing is asked for
unfoldable pub allowed_wday : Recur → ℕ
allowed_wday self = if wday_bits self == 0 then 2 ^ 7 - 1 else wday_bits self

unfoldable pub allowed_mday : Recur → ℕ
allowed_mday self = if mday_bits self == 0 && eom_bit self == 0 then 2 ^ 32 - 2 else mday_bits self

unfoldable pub allowed_mon : Recur → ℕ
allowed_mon self = if mon_bits self == 0 then 2 ^ 12 - 1 else mon_bits self

abbrev pub has_date : Recur → Bool
has_date self =
    not (wday_bits self == 0)
    || not (mday_bits self == 0)
    || not (eom_bit self == 0)
    || not (mon_bits self == 0)

unfoldable pub min_ok : Recur → Tm → Bool
min_ok self tm = bit self.mask_min tm.tm_min

unfoldable pub hour_ok : Recur → Tm → Bool
hour_ok self tm = bit self.mask_hour tm.tm_hour

unfoldable pub mon_ok : Recur → Tm → Bool
mon_ok self tm = bit (allowed_mon self) tm.tm_mon

-- `T_mday & (1 << tm_mday)`, where T_mday is M_mday with the bit of the last day if that is asked for
unfoldable pub mday_ok : Recur → Tm → Bool
mday_ok self tm =
    bit (allowed_mday self) tm.tm_mday
    || (not (eom_bit self == 0) && eqb_ℤ tm.tm_mday (pos (get_days_in_month tm)))

unfoldable pub date_ok : Recur → Tm → Bool
date_ok self tm = mon_ok self tm && (bit (allowed_wday self) tm.tm_wday && mday_ok self tm)

unfoldable pub next_min : Tm → Tm
next_min tm = record tm { tm_min = tm.tm_min +ℤ pos 1 }

unfoldable pub next_hour : Tm → Tm
next_hour tm = record tm { tm_hour = tm.tm_hour +ℤ pos 1 }

unfoldable pub next_date : Recur → Tm → Tm
next_date self tm =
    if mon_ok self tm
    then record tm { tm_mday = tm.tm_mday +ℤ pos 1 }
    else record tm { tm_mon = tm.tm_mon +ℤ pos 1; tm_mday = pos 1 }

-- Where alarm_recur_handle_masks stands: it goes on with `inc`, `res` and `dst`, or is at its end
-- with `res` and `dst`.
pub data Stage : Type 0 where
  going : ℤ → ℤ → Tm → Stage
  cleanup : ℤ → Tm → Stage

module _ (driver : Driver) (tz : Text) where
  abbrev pub build : Tm → ℤ × Tm
  build tm = build_tm_guess_dst driver tm tz

  -- for( ;; ) { build the time, leave if that fails or if it is allowed, move on }
  unfoldable pub seek : (Tm → Bool) → (Tm → Tm) → ℕ → Tm → Option Stage
  seek ok move zero dst = none
  seek ok move (suc fuel) dst =
      let (res, tm) = build dst in
      elim (eqb_ℤ res no_time) [
        | true ↦ some (cleanup res tm)
        | false ↦ elim (ok tm) [
          | true ↦ some (going (pos 0) res tm)
          | false ↦ seek ok move fuel (move tm)
        ]
      ]

  unfoldable pub handle_seconds : ℤ → Tm → Stage
  handle_seconds inc dst =
      if eqb_ℤ dst.tm_sec (pos 0)
      then going inc no_time dst
      else (let (res, tm) = build (record dst { tm_min = dst.tm_min +ℤ pos 1; tm_sec = pos 0 }) in
          if eqb_ℤ res no_time then cleanup res tm else going (pos 0) res tm)

  unfoldable pub handle_minutes : ℕ → Recur → Stage → Option Stage
  handle_minutes fuel self (cleanup res dst) = some (cleanup res dst)
  handle_minutes fuel self (going inc res dst) = elim (min_bits self == 0) [
    | true ↦ some (going inc res dst)
    | false ↦ seek (min_ok self) next_min fuel (record dst { tm_min = dst.tm_min +ℤ inc })
  ]

  unfoldable pub handle_hours : ℕ → Recur → Stage → Option Stage
  handle_hours fuel self (cleanup res dst) = some (cleanup res dst)
  handle_hours fuel self (going inc res dst) = elim (hour_bits self == 0) [
    | true ↦ some (going inc res dst)
    | false ↦ seek (hour_ok self) next_hour fuel (record dst { tm_hour = dst.tm_hour +ℤ inc })
  ]

  unfoldable pub handle_dates : ℕ → Recur → Stage → Option Stage
  handle_dates fuel self (cleanup res dst) = some (cleanup res dst)
  handle_dates fuel self (going inc res dst) = elim (has_date self) [
    | false ↦ some (going inc res dst)
    | true ↦ seek (date_ok self) (next_date self) fuel (record dst { tm_mday = dst.tm_mday +ℤ inc })
  ]

  abbrev pub result : Stage → ℤ × Tm
  result (going inc res dst) = (res, dst)
  result (cleanup res dst) = (res, dst)

  unfoldable pub handle_masks : ℕ → Recur → Tm → Bool → Option (ℤ × Tm)
  handle_masks fuel self dst align_only = do
    let inc : ℤ = if align_only then pos 0 else pos 1
    let s0 = handle_seconds inc dst
    s1 ← handle_minutes fuel self s0
    s2 ← handle_hours fuel self s1
    s3 ← handle_dates fuel self s2
    some (result s3)

  unfoldable pub handle_specials : Recur → Tm → ℤ × Tm
  handle_specials self dst = build (
      if self.special == 1
      then record dst { tm_mday = dst.tm_mday +ℤ pos 14 }
      else if self.special == 2
      then record dst { tm_mon = dst.tm_mon +ℤ pos 1 }
      else if self.special == 3
      then record dst { tm_year = dst.tm_year +ℤ pos 1 }
      else dst)

  unfoldable pub recur_align : ℕ → Recur → Tm → Option (ℤ × Tm)
  recur_align fuel self trg = handle_masks fuel self trg true

  unfoldable pub recur_next : ℕ → Recur → Tm → Option (ℤ × Tm)
  recur_next fuel self trg = handle_masks fuel self (handle_specials self trg).1 false
