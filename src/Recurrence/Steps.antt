-- ===== src/Recurrence/Steps.antt =====
-- The steps of the loops of alarm_recur_handle_masks: each comes nearer to its end.
use alarmd.Common.{
  ℕ, ◌+◌, ◌-◌, ◌*◌, ◌<◌, ◌≤◌, leb, ◌≡◌, ◌≢◌, ap, ◌∙◌, ◌⊎◌, inl, inr, arith, true, false, Bool-cases,
  ℤ, pos, pos_part, neg_part, eqb_ℤ, eqb_no, eq_of_parts, if◌then◌else◌, ◌<ℤ◌, ◌+ℤ◌,
}
use alarmd.Event.{Text, Tm, Recur}
use alarmd.Calendar.{Driver, no_time}
use alarmd.Calendar.FixedOffset.{FixedOffset, In}
use alarmd.Recurrence.{build, bit, min_ok, hour_ok, mon_ok, date_ok, next_min, next_hour, next_date}
use alarmd.Recurrence.Matches.{MinMatches, HourMatches}

-- A time of the day whose minute or hour may be one too high
abbrev pub Near : ℕ → ℕ → Tm → Type 0
Near m h tm = (tm.tm_sec ≡ pos 0) × In 0 m tm.tm_min × In 0 h tm.tm_hour

-- The steps from field value `x` up to `i`, where `n` is 0 again
pub distance : ℕ → ℕ → ℤ → ℕ
distance n i x = if leb (pos_part x) i then i - pos_part x else i + n - pos_part x

nearer :
    (n i : ℕ) (x y : ℤ)
    → In 0 n x
    → i < n
    → (y ≡ x) ⊎ ((x ≡ pos n) × (y ≡ pos 0))
    → y ≢ pos i
    → In 0 n y
    → y <ℤ pos n
    → distance n i (y +ℤ pos 1) < distance n i x
unfolding distance ◌+ℤ◌
nearer n i x y a b c d e f = ground arith

pub at_zero : (n : ℕ) {x : ℤ} → x ≡ pos 0 → In 0 n x
at_zero n h = (ground arith, ground arith)

last_or_below : (n : ℕ) (x : ℤ) → In 0 (n + 1) x → (x ≡ pos (n + 1)) ⊎ In 0 n x
last_or_below n x h = ground (arith, eq_of_parts x (pos (n + 1)))

raised : (n : ℕ) (y : ℤ) → In 0 n y → In 0 (n + 1) (y +ℤ pos 1)
unfolding ◌+ℤ◌
raised n y h = ground arith

pub distance-le : (n i : ℕ) (x : ℤ) → distance n i x ≤ i + n
unfolding distance
distance-le n i x = ground arith

pub inc_In : (n : ℕ) (x inc : ℤ) → In 0 n x → In 0 1 inc → In 0 (n + 1) (x +ℤ inc)
unfolding ◌+ℤ◌
inc_In n x inc h k = ground arith

-- The same where the masks of the day have what they ask for
abbrev pub Daily : Recur → Tm → Type 0
Daily self tm = Near 59 23 tm × MinMatches self tm × HourMatches self tm

module _ {driver : Driver} {tz : Text} {bound : ℕ} (law : FixedOffset driver tz bound)
    (self : Recur) where
  pub min_step :
      (i : ℕ)
      → i < 60
      → bit self.mask_min (pos i) ≡ true
      → (tm : Tm) → Near 60 23 tm
      → (build driver tz tm).0 ≢ no_time
      → min_ok self (build driver tz tm).1 ≡ false
      → Near 60 23 (next_min (build driver tz tm).1)
        × (distance 60 i (next_min (build driver tz tm).1).tm_min < distance 60 i tm.tm_min)
  unfolding min_ok next_min
  min_step i l hit tm (sec, min, hour) b bad =
      let (s, m, h, d, n, w) = law.normal tm b in
      let zero_sec = at_zero 59 sec in
      let y = (build driver tz tm).1.tm_min in
      (
        (law.same_sec tm b zero_sec ∙ sec, raised 59 y m, h),
        nearer 60 i tm.tm_min y min l
            (elim (last_or_below 59 tm.tm_min min) [
              | inl e ↦ inr (e, law.min_carry tm b zero_sec e)
              | inr e ↦ inl (law.same_min tm b zero_sec e)
            ])
            (λ e. let clash = ap (λ z. bit self.mask_min z) e in cc) (ground arith) (ground arith),
      )

  pub hour_step :
      (i : ℕ)
      → i < 24
      → bit self.mask_hour (pos i) ≡ true
      → (tm : Tm) → Near 59 24 tm × MinMatches self tm
      → (build driver tz tm).0 ≢ no_time
      → hour_ok self (build driver tz tm).1 ≡ false
      → (Near 59 24 (next_hour (build driver tz tm).1)
          × MinMatches self (next_hour (build driver tz tm).1))
        × (distance 24 i (next_hour (build driver tz tm).1).tm_hour < distance 24 i tm.tm_hour)
  unfolding hour_ok next_hour
  hour_step i l hit tm ((sec, min, hour), k) b bad =
      let (s, m, h, d, n, w) = law.normal tm b in
      let zero_sec = at_zero 59 sec in
      let y = (build driver tz tm).1.tm_hour in
      (
        (
          (law.same_sec tm b zero_sec ∙ sec, m, raised 23 y h),
          λ n. ap (λ z. bit self.mask_min z) (law.same_min tm b zero_sec min) ∙ k n,
        ),
        nearer 24 i tm.tm_hour y hour l
            (elim (last_or_below 23 tm.tm_hour hour) [
              | inl e ↦ inr (e, law.hour_carry tm b zero_sec min e)
              | inr e ↦ inl (law.same_hour tm b zero_sec min e)
            ])
            (λ e. let clash = ap (λ z. bit self.mask_hour z) e in cc) (ground arith) (ground arith),
      )

  -- The times that a time_t can still hold, above that of the structure, or 0 if it has none
  pub left : Tm → ℕ
  left tm =
      let t = (build driver tz tm).0 in
      if eqb_ℤ t no_time then 0 else 2 * bound + 1 - (pos_part t + (bound - neg_part t))

  left-less :
      (x y : Tm)
      → (build driver tz x).0 ≢ no_time
      → ((build driver tz y).0 ≢ no_time → (build driver tz x).0 <ℤ (build driver tz y).0)
      → left y < left x
  unfolding left
  left-less x y b later =
      let (p, n) = law.range x in
      let (p', n') = law.range y in
      let fails = eqb_no b in
      elim (Bool-cases (eqb_ℤ (build driver tz y).0 no_time)) [
        | inl e ↦ rw (e, fails) (omega arith)
        | inr e ↦
            let less = later (λ d. let clash = ap (λ t. eqb_ℤ t no_time) d in cc) in
            rw (e, fails) (omega arith)
      ]

  pub built-Daily :
      (tm : Tm)
      → Daily self tm
      → (build driver tz tm).0 ≢ no_time
      → Daily self (build driver tz tm).1
  built-Daily tm ((sec, min, hour), j, k) b =
      let (s, m, h, d, n, w) = law.normal tm b in
      let zero_sec = at_zero 59 sec in
      (
        (law.same_sec tm b zero_sec ∙ sec, m, h),
        (λ e. ap (λ z. bit self.mask_min z) (law.same_min tm b zero_sec min) ∙ j e),
        (λ e. ap (λ z. bit self.mask_hour z) (law.same_hour tm b zero_sec min hour) ∙ k e),
      )

  pub date_step :
      (tm : Tm)
      → Daily self tm
      → (build driver tz tm).0 ≢ no_time
      → date_ok self (build driver tz tm).1 ≡ false
      → Daily self (next_date self (build driver tz tm).1)
        × (left (next_date self (build driver tz tm).1) < left tm)
  unfolding next_date
  date_step tm i b bad =
      let day = built-Daily tm i b in
      elim (Bool-cases (mon_ok self (build driver tz tm).1)) [
        | inl e ↦ rw e (day, left-less tm _ b (law.next_day tm b))
        | inr e ↦ rw e (day, left-less tm _ b (law.next_month tm b))
      ]

  pub left-le : (tm : Tm) → left tm ≤ 2 * bound + 1
  unfolding left
  left-le tm = ground arith
