-- ===== src/Recurrence/Ahead.antt =====
-- Moving on by one unit before a time is aligned, which is what alarm_recur_next does.
use alarmd.Common.{
  ℕ, ◌≡◌, refl, sym, ap, ◌∙◌, Bool, true, false, not, ◌==◌, if◌then◌else◌, some, ◌>>=◌, ℤ, pos,
  ◌+ℤ◌, eqb_ℤ, Bool-cases, inl, inr, arith,
}
use alarmd.Event.{Text, Tm, Recur}
use alarmd.Calendar.{Driver, no_time}
use alarmd.Recurrence.{
  result, min_bits, hour_bits, has_date, min_ok, next_min, hour_ok, next_hour, date_ok, next_date,
  seek, handle_seconds, handle_minutes, handle_hours, handle_dates, handle_masks,
}

-- The time one unit later, for the finest unit that a mask is for
abbrev pub ahead : Recur → Tm → Tm
ahead self dst =
    if not (eqb_ℤ dst.tm_sec (pos 0))
    then dst
    else if not (min_bits self == 0)
    then record dst { tm_min = dst.tm_min +ℤ pos 1 }
    else if not (hour_bits self == 0)
    then record dst { tm_hour = dst.tm_hour +ℤ pos 1 }
    else if has_date self
    then record dst { tm_mday = dst.tm_mday +ℤ pos 1 }
    else dst

plus_zero : (x : ℤ) → x +ℤ pos 0 ≡ x
unfolding ◌+ℤ◌
plus_zero x = ground arith

-- Rounding up does not look at what is to be added.
rounded :
    (driver : Driver) (tz : Text) (dst : Tm) (inc : ℤ)
    → eqb_ℤ dst.tm_sec (pos 0) ≡ false
    → handle_seconds driver tz inc dst ≡ handle_seconds driver tz (pos 0) dst
unfolding handle_seconds
rounded driver tz dst inc seconds = rw seconds refl

seconds_only :
    (driver : Driver) (tz : Text) (fuel : ℕ) (self : Recur) (dst : Tm)
    → eqb_ℤ dst.tm_sec (pos 0) ≡ false
    → handle_masks driver tz fuel self dst false ≡ handle_masks driver tz fuel self dst true
unfolding handle_masks
seconds_only driver tz fuel self dst seconds =
    ap
      (λ s0. handle_minutes driver tz fuel self s0 >>= λ s1.
        handle_hours driver tz fuel self s1 >>= λ s2.
        handle_dates driver tz fuel self s2 >>= λ s3. some (result driver tz s3))
      (rounded driver tz dst (pos 1) seconds)

-- With a mask for minutes the loop over them comes first.
minutes_first :
    (driver : Driver) (tz : Text) (fuel : ℕ) (self : Recur) (dst : Tm) (align_only : Bool)
    → eqb_ℤ dst.tm_sec (pos 0) ≡ true
    → (min_bits self == 0) ≡ false
    → handle_masks driver tz fuel self dst align_only ≡ (
        seek driver tz
          (min_ok self)
          next_min
          fuel
          (record dst { tm_min = dst.tm_min +ℤ (if align_only then pos 0 else pos 1) })
        >>= λ s1. handle_hours driver tz fuel self s1 >>= λ s2.
            handle_dates driver tz fuel self s2 >>= λ s3. some (result driver tz s3))
unfolding handle_masks handle_seconds handle_minutes
minutes_first driver tz fuel self dst align_only even min = rw (even, handle_minutes, min) refl

-- Without a mask for minutes the hours come first.
hours_first :
    (driver : Driver) (tz : Text) (fuel : ℕ) (self : Recur) (dst : Tm) (align_only : Bool)
    → eqb_ℤ dst.tm_sec (pos 0) ≡ true
    → (min_bits self == 0) ≡ true
    → (hour_bits self == 0) ≡ false
    → handle_masks driver tz fuel self dst align_only ≡ (
        seek driver tz
          (hour_ok self)
          next_hour
          fuel
          (record dst { tm_hour = dst.tm_hour +ℤ (if align_only then pos 0 else pos 1) })
        >>= λ s2. handle_dates driver tz fuel self s2 >>= λ s3. some (result driver tz s3))
unfolding handle_masks handle_seconds handle_minutes handle_hours
hours_first driver tz fuel self dst align_only even no_min hour =
    rw (even, handle_minutes, no_min, handle_hours, hour) refl

-- With masks for dates alone only the loop over the dates runs.
dates_only :
    (driver : Driver) (tz : Text) (fuel : ℕ) (self : Recur) (dst : Tm) (align_only : Bool)
    → eqb_ℤ dst.tm_sec (pos 0) ≡ true
    → (min_bits self == 0) ≡ true
    → (hour_bits self == 0) ≡ true
    → has_date self ≡ true
    → handle_masks driver tz fuel self dst align_only ≡ (
        seek driver tz
          (date_ok self)
          (next_date self)
          fuel
          (record dst { tm_mday = dst.tm_mday +ℤ (if align_only then pos 0 else pos 1) })
        >>= λ s3. some (result driver tz s3))
unfolding handle_masks handle_seconds handle_minutes handle_hours handle_dates
dates_only driver tz fuel self dst align_only even no_min no_hour date =
    rw (even, handle_minutes, no_min, handle_hours, no_hour, handle_dates, date) refl

-- Without masks nothing runs.
none_only :
    (driver : Driver) (tz : Text) (fuel : ℕ) (self : Recur) (dst : Tm) (align_only : Bool)
    → eqb_ℤ dst.tm_sec (pos 0) ≡ true
    → (min_bits self == 0) ≡ true
    → (hour_bits self == 0) ≡ true
    → has_date self ≡ false
    → handle_masks driver tz fuel self dst align_only ≡ some (no_time, dst)
unfolding handle_masks handle_seconds handle_minutes handle_hours handle_dates
none_only driver tz fuel self dst align_only even no_min no_hour none =
    rw (even, handle_minutes, no_min, handle_hours, no_hour, handle_dates, none) refl

pub handle_masks-ahead :
    (driver : Driver) (tz : Text) (fuel : ℕ) (self : Recur) (dst : Tm)
    → handle_masks driver tz fuel self dst false
      ≡ handle_masks driver tz fuel self (ahead self dst) true
handle_masks-ahead driver tz fuel self dst = elim (Bool-cases (eqb_ℤ dst.tm_sec (pos 0))) [
  | inr seconds ↦ rw seconds (seconds_only driver tz fuel self dst seconds)
  | inl even ↦ elim (Bool-cases (min_bits self == 0)) [
    | inr min ↦
        minutes_first driver tz fuel self dst false even min
        ∙ rw (even, min)
            (sym (
              minutes_first driver tz fuel self (record dst { tm_min = dst.tm_min +ℤ pos 1 }) true
                even min
              ∙ rw plus_zero refl))
    | inl no_min ↦ elim (Bool-cases (hour_bits self == 0)) [
      | inr hour ↦
          hours_first driver tz fuel self dst false even no_min hour
          ∙ rw (even, no_min, hour)
              (sym (
                hours_first driver tz fuel self (record dst { tm_hour = dst.tm_hour +ℤ pos 1 }) true
                  even no_min hour
                ∙ rw plus_zero refl))
      | inl no_hour ↦ elim (Bool-cases (has_date self)) [
        | inl date ↦
            dates_only driver tz fuel self dst false even no_min no_hour date
            ∙ rw (even, no_min, no_hour, date)
                (sym (
                  dates_only driver tz fuel self (record dst { tm_mday = dst.tm_mday +ℤ pos 1 })
                    true even no_min no_hour date
                  ∙ rw plus_zero refl))
        | inr none ↦
            none_only driver tz fuel self dst false even no_min no_hour none
            ∙ rw (even, no_min, no_hour, none)
                (sym (none_only driver tz fuel self dst true even no_min no_hour none))
      ]
    ]
  ]
]
