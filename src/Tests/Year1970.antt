-- ===== src/Tests/Year1970.antt =====
-- A calendar for the examples: UTC in the year 1970, and failure outside it.
use alarmd.Common.{
  ℕ, ◌+◌, ◌-◌, ◌*◌, ◌/◌, ◌%◌, ◌≤◌, ◌<◌, ◌≡◌, ◌≢◌, refl, ap, arith, ◌==◌, ltb, Bool, true, ◌&&◌,
  Bool-cases, inl, inr, ℤ, pos, negsuc, ◌+ℤ◌, pos_part, neg_part, leb_ℤ, ◌≤ℤ◌, eqb_ℤ, eq_of_parts,
  ◌<ℤ◌, if◌then◌else◌,
}
use alarmd.Event.{Text, Tm}
use alarmd.Calendar.{Driver, no_time, build_tm, build_tm_guess_dst}
use alarmd.Calendar.FixedOffset.{FixedOffset, In, IsNormal}

-- The days of the year before a month
unfoldable pub start : ℕ → ℕ
start mon =
    if mon == 0
    then 0
    else if mon == 1
    then 31
    else if mon == 2
    then 59
    else if mon == 3
    then 90
    else if mon == 4
    then 120
    else if mon == 5
    then 151
    else if mon == 6
    then 181
    else if mon == 7
    then 212
    else if mon == 8
    then 243
    else if mon == 9
    then 273
    else if mon == 10
    then 304
    else 334

unfoldable pub month_of : ℕ → ℕ
month_of day =
    if ltb day 31
    then 0
    else if ltb day 59
    then 1
    else if ltb day 90
    then 2
    else if ltb day 120
    then 3
    else if ltb day 151
    then 4
    else if ltb day 181
    then 5
    else if ltb day 212
    then 6
    else if ltb day 243
    then 7
    else if ltb day 273
    then 8
    else if ltb day 304
    then 9
    else if ltb day 334
    then 10
    else 11

unfoldable pub fields_of : ℕ → Tm
fields_of t =
    let day = t / 86400 in
    record {
      tm_sec = pos (t % 60);
      tm_min = pos (t / 60 % 60);
      tm_hour = pos (t / 3600 % 24);
      tm_mday = pos (day - start (month_of day) + 1);
      tm_mon = pos (month_of day);
      tm_year = pos 70;
      tm_wday = pos ((day + 4) % 7);
      tm_yday = pos day;
      tm_isdst = pos 0;
    }

unfoldable pub time_of : Tm → ℕ
time_of tm =
    pos_part tm.tm_sec
    + 60 * pos_part tm.tm_min
    + 3600 * pos_part tm.tm_hour
    + 86400 * (start (pos_part tm.tm_mon) + pos_part tm.tm_mday - 1)

unfoldable pub fits : Tm → Bool
fits tm =
    leb_ℤ (pos 0) tm.tm_sec
    && leb_ℤ (pos 0) tm.tm_min
    && leb_ℤ (pos 0) tm.tm_hour
    && leb_ℤ (pos 1) tm.tm_mday
    && leb_ℤ (pos 0) tm.tm_mon
    && leb_ℤ tm.tm_mon (pos 11)
    && eqb_ℤ tm.tm_year (pos 70)
    && ltb (time_of tm) (365 * 86400)

unfoldable pub mktime : Tm → ℤ × Tm
mktime tm = if fits tm then (pos (time_of tm), fields_of (time_of tm)) else (no_time, tm)

unfoldable pub driver : Driver
driver = record { cb_mktime = λ tm tz. mktime tm; cb_get_remote = λ t tz. fields_of (pos_part t) }

start-le : (day : ℕ) → start (month_of day) ≤ day
unfolding start month_of
start-le day = ground arith

start-next : (day : ℕ) → month_of day < 11 → day < start (month_of day + 1)
unfolding start month_of
start-next day h = ground arith

mday-le : (day : ℕ) → day < 365 → day - start (month_of day) + 1 ≤ 31
unfolding start month_of
mday-le day h = ground arith

month-le : (day : ℕ) → month_of day ≤ 11
unfolding month_of
month-le day = ground arith

unsigned : (n : ℕ) (x : ℤ) → In 0 n x → neg_part x ≡ 0
unsigned n x h = ground arith

module _ (tm : Tm) (b : (mktime tm).0 ≢ no_time) where
  fits_then : fits tm ≡ true
  unfolding mktime
  fits_then = elim (Bool-cases (fits tm)) [ inl e ↦ e | inr e ↦ absurd (b (rw (mktime, e) refl)) ]

  built : mktime tm ≡ (pos (time_of tm), fields_of (time_of tm))
  unfolding mktime
  built = rw (mktime, fits_then) refl

  in_year : time_of tm < 365 * 86400
  in_year = let h = fits_then in unfold fits in ground arith

  day_in : time_of tm / 86400 < 365
  day_in = omega (arith, in_year)

  is_normal : IsNormal (mktime tm).1
  unfolding fields_of
  is_normal =
      let day = mday-le (time_of tm / 86400) day_in in
      let mon = month-le (time_of tm / 86400) in
      rw built (
        (omega arith, omega arith),
        (omega arith, omega arith),
        (omega arith, omega arith),
        (omega arith, omega arith),
        (omega arith, omega arith),
        (omega arith, omega arith),
      )

  days : ℕ
  days = start (pos_part tm.tm_mon) + pos_part tm.tm_mday - 1

  split :
      time_of tm
      ≡ pos_part tm.tm_sec + 60 * pos_part tm.tm_min + 3600 * pos_part tm.tm_hour + 86400 * days
  unfolding time_of days
  split = refl

  kept_sec : In 0 59 tm.tm_sec → (mktime tm).1.tm_sec ≡ tm.tm_sec
  unfolding fields_of
  kept_sec s = rw built (eq_of_parts _ _ (omega (arith, split, unsigned 59 _ s)))

  kept_min : In 0 59 tm.tm_sec → In 0 59 tm.tm_min → (mktime tm).1.tm_min ≡ tm.tm_min
  unfolding fields_of
  kept_min s m = rw built (eq_of_parts _ _ (omega (arith, split, unsigned 59 _ s, unsigned 59 _ m)))

  kept_hour :
      In 0 59 tm.tm_sec
      → In 0 59 tm.tm_min
      → In 0 23 tm.tm_hour
      → (mktime tm).1.tm_hour ≡ tm.tm_hour
  unfolding fields_of
  kept_hour s m h =
      rw built
        (eq_of_parts _ _ (omega (arith, split, unsigned 59 _ s, unsigned 59 _ m, unsigned 23 _ h)))

  carry_min : In 0 59 tm.tm_sec → tm.tm_min ≡ pos 60 → (mktime tm).1.tm_min ≡ pos 0
  unfolding fields_of
  carry_min s e =
      let p : pos_part tm.tm_min ≡ 60 = ap pos_part e in
      rw built (eq_of_parts _ _ (omega (arith, p, split, unsigned 59 _ s)))

  carry_hour :
      In 0 59 tm.tm_sec → In 0 59 tm.tm_min → tm.tm_hour ≡ pos 24 → (mktime tm).1.tm_hour ≡ pos 0
  unfolding fields_of
  carry_hour s m e =
      let p : pos_part tm.tm_hour ≡ 24 = ap pos_part e in
      rw built (eq_of_parts _ _ (omega (arith, p, split, unsigned 59 _ s, unsigned 59 _ m)))

pos-plus : (a : ℕ) → pos a +ℤ pos 1 ≡ pos (a + 1)
unfolding ◌+ℤ◌
pos-plus a = ground arith

-- The fields of a time, one day or one month on
module _ (t : ℕ) where
  next_day_time :
      time_of (record (fields_of t) { tm_mday = (fields_of t).tm_mday +ℤ pos 1 }) ≡ t + 86400
  unfolding fields_of time_of
  next_day_time =
      rw (pos-plus (t / 86400 - start (month_of (t / 86400)) + 1))
        (omega (arith, start-le (t / 86400)))

  next_month_time :
      t < 365 * 86400
      → month_of (t / 86400) < 11
      → t
        < time_of (record (fields_of t) { tm_mon = (fields_of t).tm_mon +ℤ pos 1; tm_mday = pos 1 })
  unfolding fields_of time_of
  next_month_time h k =
      rw (pos-plus (month_of (t / 86400))) (omega (arith, start-next (t / 86400) k))

month_fits : (tm : Tm) → fits tm ≡ true → tm.tm_mon ≤ℤ pos 11
unfolding fits
month_fits tm h = ground arith

before_december :
    (tm : Tm) (b : (mktime tm).0 ≢ no_time)
    → (mktime tm).1.tm_mon +ℤ pos 1 ≤ℤ pos 11
    → month_of (time_of tm / 86400) < 11
unfolding fields_of
before_december tm b h =
    let k =
      rw (ap (λ (r : ℤ × Tm). r.1.tm_mon) (built tm b), pos-plus (month_of (time_of tm / 86400))) at
        h in
    omega (arith, k)

later_day :
    (tm : Tm)
    → (mktime tm).0 ≢ no_time
    → let next = record (mktime tm).1 {
      tm_mday = (mktime tm).1.tm_mday +ℤ pos 1;
      tm_isdst = negsuc 0;
    } in
      ((mktime next).0 ≢ no_time → (mktime tm).0 <ℤ (mktime next).0)
unfolding time_of
later_day tm b c =
    rw (ap (λ (r : ℤ × Tm). r.0) (built _ c), built tm b)
      (omega (arith, next_day_time (time_of tm)))

later_month :
    (tm : Tm)
    → (mktime tm).0 ≢ no_time
    → let next = record (mktime tm).1 {
      tm_mon = (mktime tm).1.tm_mon +ℤ pos 1;
      tm_mday = pos 1;
      tm_isdst = negsuc 0;
    } in
      ((mktime next).0 ≢ no_time → (mktime tm).0 <ℤ (mktime next).0)
unfolding time_of
later_month tm b c =
    let f = month_fits _ (fits_then _ c) in
    rw (ap (λ (r : ℤ × Tm). r.0) (built _ c), built tm b)
      (omega (arith, next_month_time (time_of tm) (in_year tm b) (before_december tm b f)))

in_range : (tm : Tm) → (pos_part (mktime tm).0 < 31536000) × (neg_part (mktime tm).0 < 31536000)
unfolding mktime fits
in_range tm = ground arith

pub driver-FixedOffset : (tz : Text) → FixedOffset driver tz 31536000
unfolding build_tm_guess_dst build_tm driver
driver-FixedOffset tz = record {
  normal = λ tm b. is_normal _ b;
  same_sec = λ tm b s. kept_sec _ b s;
  same_min = λ tm b s m. kept_min _ b s m;
  same_hour = λ tm b s m h. kept_hour _ b s m h;
  min_carry = λ tm b s e. carry_min _ b s e;
  hour_carry = λ tm b s m e. carry_hour _ b s m e;
  next_day = λ tm b. later_day _ b;
  next_month = λ tm b. later_month _ b;
  range = λ tm. in_range _;
}
