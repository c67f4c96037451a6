-- ===== src/Server/Schedule/Future.antt =====
-- Where the times lie that src/server.c reckons for an event.
use alarmd.Common.{
  ℕ, ◌<◌, true, List, [], ◌∷◌, ℤ, pos, pos_part, ltb_ℤ, leb_ℤ, ◌≤ℤ◌, ◌<ℤ◌, if◌then◌else◌, ◌&&◌,
  Bool-cases, inl, inr, ◌⊎◌, ◌≡◌, refl, sym, subst, arith,
}
use alarmd.Event.{Event, Text, Recur, is_recurring}
use alarmd.Calendar.{Driver, break_tm}
use alarmd.Queue.Query.{int_max}
use alarmd.Server.Schedule.{
  earliest, event_get_tz, first_trigger, recurring_trigger, event_get_next_trigger, align_time,
}
use alarmd.Server.Times.{bump_time, bump_time-FirstAfter, FirstAfter}

abbrev pub Among : Recur → List Recur → Type 0
Among r [] = ⊥
Among r (x ∷ xs) = (r ≡ x) ⊎ Among r xs

-- The least of `next` and the times of the recurrences that lie after `low`
pub record Earliest (time : Recur → ℤ) (low : ℤ) (recs : List Recur) (next res : ℤ) : Type 0 where
  pub bounded : res ≤ℤ next
  pub least : (r : Recur) → Among r recs → low <ℤ time r → res ≤ℤ time r
  pub source : (res ≡ next) ⊎ ((r : Recur) × Among r recs × (time r ≡ res) × (low <ℤ res))

abbrev pub later : ℤ → ℤ → ℤ
later a b = if ltb_ℤ a b then b else a

-- `res` is the least of the masks' times that lie after `low` and before INT_MAX, or `low` if there
-- is none.
pub record Masked (time : Recur → ℤ) (recs : List Recur) (low res : ℤ) : Type 0 where
  pub least :
      (r : Recur)
      → Among r recs
      → low <ℤ time r
      → time r <ℤ int_max
      → (low <ℤ res) × (res ≤ℤ time r)
  pub source : (res ≡ low) ⊎ ((r : Recur) × Among r recs × (time r ≡ res) × (low <ℤ res))

pub period : (x : ℤ) → ltb_ℤ (pos 0) x ≡ true → (0 < pos_part x) × (x ≡ pos (pos_part x))
period x h = (ground arith, ground arith)

module _ (driver : Driver) (fuel : ℕ) where
  -- The loop over the recurrences gives the least of the time it begins with and of the times of the
  -- recurrences that lie after the bound.
  pub earliest-Earliest :
      (time : Recur → ℤ) (low : ℤ) (recs : List Recur) (next : ℤ)
      → Earliest time low recs next (earliest driver fuel time low recs next)
  unfolding earliest
  earliest-Earliest time low [] next = record {
    bounded = omega arith;
    least = λ r m. elim m [ ];
    source = inl refl;
  }
  earliest-Earliest time low (x ∷ xs) next =
      elim (Bool-cases (ltb_ℤ low (time x) && ltb_ℤ (time x) next)) [
        | inl better ↦
            let k = earliest-Earliest time low xs (time x) in
            rw (better, earliest)
              (record {
                bounded = ground (arith, k.bounded);
                least = λ r m l. elim m [ inl e ↦ rw e k.bounded | inr n ↦ k.least r n l ];
                source = elim k.source [
                  | inl e ↦ inr (x, inl refl, sym e, rw e (ground arith))
                  | inr (r, m, e, l) ↦ inr (r, inr m, e, l)
                ];
              })
        | inr worse ↦
            let k = earliest-Earliest time low xs next in
            rw (worse, earliest)
              (record {
                bounded = k.bounded;
                least = λ r m l. elim m [
                  | inl e ↦ rw e (let l' = rw e at l in ground (arith, k.bounded))
                  | inr n ↦ k.least r n l
                ];
                source = elim k.source [ inl e ↦ inl e | inr (r, m, e, l) ↦ inr (r, inr m, e, l) ];
              })
      ]

  -- The trigger time `res` of a recurring event, at `t0` and with `first` for its first time
  pub record Next (tz : Text) (t0 first : ℤ) (self : Event) (res : ℤ) : Type 0 where
    pub not_past : t0 ≤ℤ res
    pub not_early : first ≤ℤ res
    pub periodic :
        pos 0 <ℤ self.recur_secs → first ≤ℤ t0 → FirstAfter t0 first (pos_part self.recur_secs) res
    pub masked :
        self.recur_secs ≤ℤ pos 0
        → Masked
            (align_time driver fuel tz (break_tm driver (later first t0) tz))
            self.recurrence_tab
            (later first t0)
            res

  recurring_trigger-Next :
      (tz : Text) (t0 first : ℤ) (self : Event)
      → Next tz t0 first self (recurring_trigger driver fuel tz t0 first self)
  unfolding recurring_trigger
  recurring_trigger-Next tz t0 first self = elim (Bool-cases (ltb_ℤ (pos 0) self.recur_secs)) [
    | inl periodic ↦
        let (many, whole) = period self.recur_secs periodic in
        elim (Bool-cases (leb_ℤ first t0)) [
          | inl past ↦
              let (after, near, turns) =
                subst (λ n. FirstAfter t0 first (pos_part self.recur_secs) (bump_time first n t0))
                  (sym whole) (bump_time-FirstAfter first t0 (pos_part self.recur_secs) many) in
              rw (periodic, past, recurring_trigger)
                (record {
                  not_past = omega arith;
                  not_early = ground (arith, after);
                  periodic = λ h k. (after, near, turns);
                  masked = λ h. absurd (ground arith);
                })
          | inr ahead ↦
              rw (periodic, ahead, recurring_trigger)
                (record {
                  not_past = ground arith;
                  not_early = omega arith;
                  periodic = λ h k. absurd (ground arith);
                  masked = λ h. absurd (ground arith);
                })
        ]
    | inr masked ↦
        let low = if ltb_ℤ first t0 then t0 else first in
        let now = break_tm driver low tz in
        let next =
          earliest driver fuel (align_time driver fuel tz now) low self.recurrence_tab int_max in
        let k = earliest-Earliest (align_time driver fuel tz now) low self.recurrence_tab int_max in
        elim (Bool-cases (ltb_ℤ low next && ltb_ℤ next int_max)) [
          | inl better ↦
              rw (masked, recurring_trigger, better)
                (record {
                  not_past = ground arith;
                  not_early = ground arith;
                  periodic = λ h. absurd (ground arith);
                  masked = λ h. record {
                    least = λ r m l u. (ground (arith, better), k.least r m l);
                    source = elim k.source [ inl e ↦ absurd (ground (arith, e)) | inr x ↦ inr x ];
                  };
                })
          | inr none_later ↦
              rw (masked, recurring_trigger, none_later)
                (record {
                  not_past = ground arith;
                  not_early = ground arith;
                  periodic = λ h. absurd (ground arith);
                  masked = λ h. record {
                    least =
                        λ r m l u. absurd (let n = k.least r m l in ground (arith, n, none_later));
                    source = inl refl;
                  };
                })
        ]
  ]

  -- A recurring event is due at the time now at the earliest, and not before its own first time;
  -- with a period, and a first time that is not ahead, it is the first time after now that lies a
  -- whole number of periods from that; with masks it is the least of the times that they give,
  -- aligned from the later of the first time and the time now, that lie after that time and before
  -- INT_MAX, or that time itself if they give none.
  pub event_get_next_trigger-Next :
      (tz_curr : Text) (t0 t1 : ℤ) (self : Event)
      → is_recurring self ≡ true
      → Next
          (event_get_tz tz_curr self)
          t0
          (first_trigger driver fuel (event_get_tz tz_curr self) t0 t1 self)
          self
          (event_get_next_trigger driver fuel tz_curr t0 t1 self)
  unfolding event_get_next_trigger
  event_get_next_trigger-Next tz_curr t0 t1 self h =
      rw (event_get_next_trigger, h) (recurring_trigger-Next _ t0 _ self)
