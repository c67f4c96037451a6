-- ===== src/Server/Times.antt =====
-- Times that lie a whole number of periods from another: server_bump_time of src/server.c, and
-- the trigger time of a postponed alarm.
use alarmd.Common.{
  ℕ, zero, suc, ◌+◌, ◌-◌, ◌*◌, ◌/◌, ◌%◌, ◌<◌, ℤ, pos, ◌+ℤ◌, ◌-ℤ◌, ◌≤ℤ◌, ◌<ℤ◌, ltb_ℤ, eqb_ℤ,
  pos_part, neg_part, if◌then◌else◌, ◌≡◌, ◌⊎◌, inl, inr, arith, Bool-cases, int_laws, ap,
}
use native.Mathlib.Nat.{mod-lt, div-add-mod'}
use alarmd.Server.Rethink.{rem, postpone, day}

-- server_bump_time
unfoldable pub bump_time : ℤ → ℤ → ℤ → ℤ
bump_time base skip target =
    if ltb_ℤ target base
    then (let add = rem (base -ℤ target) skip in
        target +ℤ (if eqb_ℤ add (pos 0) then skip else add))
    else target +ℤ skip -ℤ rem (target -ℤ base) skip

pos_of : (a b : ℤ) → b ≤ℤ a → (d : ℕ) × (a -ℤ b ≡ pos d)
unfolding ◌-ℤ◌
pos_of a b h = (pos_part a + neg_part b - (neg_part a + pos_part b), ground arith)

-- A whole number of periods, before or after.
abbrev pub Periods : ℤ → ℕ → ℤ → Type 0
Periods a n b = (k : ℕ) × ((b ≡ a +ℤ pos (k * n)) ⊎ (a ≡ b +ℤ pos (k * n)))

rem_pos : (d n : ℕ) → rem (pos d) (pos n) ≡ pos (d % n)
unfolding rem
rem_pos d n = ap (λ m. pos (d % m)) (omega arith)

-- The remainder of a difference that is not negative
record Remainder (a b : ℤ) (n : ℕ) : Type 0 where
  turns : ℕ
  rest : ℕ
  small : rest < n
  rem_rest : rem (a -ℤ b) (pos n) ≡ pos rest
  whole : a ≡ b +ℤ pos (turns * n) +ℤ pos rest

remainder : (a b : ℤ) (n : ℕ) → 0 < n → b ≤ℤ a → Remainder a b n
remainder a b n h le =
    let (d, ed) = pos_of a b le in
    record {
      turns = d / n;
      rest = d % n;
      small = mod-lt d h;
      rem_rest = rw ed (rem_pos d n);
      whole = grind (int_laws, ed, div-add-mod' d n);
    }

-- `res` is the first time after `target` that lies a whole number of periods from `base`.
abbrev pub FirstAfter : ℤ → ℤ → ℕ → ℤ → Type 0
FirstAfter target base n res = (target <ℤ res) × (res ≤ℤ target +ℤ pos n) × Periods base n res

before-FirstAfter :
    (base target : ℤ) (n k r : ℕ)
    → 0 < n
    → r < n
    → target <ℤ base
    → base ≡ target +ℤ pos (k * n) +ℤ pos r
    → FirstAfter target base n (target +ℤ (if eqb_ℤ (pos r) (pos 0) then pos n else pos r))
before-FirstAfter base target n zero zero h small lt e = absurd (grind (int_laws, e))
before-FirstAfter base target n (suc k) zero h small lt e =
    (grind int_laws, grind int_laws, (k, inr (grind (int_laws, e))))
before-FirstAfter base target n k (suc r) h small lt e =
    (grind int_laws, grind int_laws, (k, inr (grind (int_laws, e))))

since-FirstAfter :
    (base target : ℤ) (n k r : ℕ)
    → r < n
    → target ≡ base +ℤ pos (k * n) +ℤ pos r
    → FirstAfter target base n (target +ℤ pos n -ℤ pos r)
since-FirstAfter base target n k r small e =
    (grind int_laws, grind int_laws, (suc k, inl (grind (int_laws, e))))

-- With a period that is not 0, the result is the first time after the target that lies a whole
-- number of periods from the base.
pub bump_time-FirstAfter :
    (base target : ℤ) (n : ℕ) → 0 < n → FirstAfter target base n (bump_time base (pos n) target)
unfolding bump_time
bump_time-FirstAfter base target n h = elim (Bool-cases (ltb_ℤ target base)) [
  | inl lt ↦
      let r = remainder base target n h (ground arith) in
      rw (lt, r.rem_rest)
        (before-FirstAfter base target n r.turns r.rest h r.small (ground arith) r.whole)
  | inr ge ↦
      let r = remainder target base n h (ground arith) in
      rw (ge, r.rem_rest) (since-FirstAfter base target n r.turns r.rest r.small r.whole)
]

postponed-later :
    (now trg : ℤ) (n k r : ℕ)
    → r < n
    → (now +ℤ day) ≡ trg +ℤ pos (k * n) +ℤ pos r
    → let add = now +ℤ day -ℤ trg in
      let res = trg +ℤ (if eqb_ℤ (pos r) (pos 0) then add else add -ℤ pos r +ℤ pos n) in
      ((now +ℤ day) ≤ℤ res) × (res <ℤ now +ℤ day +ℤ pos n) × ((j : ℕ) × (res ≡ trg +ℤ pos (j * n)))
postponed-later now trg n k zero small e =
    (grind int_laws, grind int_laws, (k, grind (int_laws, e)))
postponed-later now trg n k (suc r) small e =
    (grind int_laws, grind int_laws, (suc k, grind (int_laws, e)))

-- With a snooze period that is not 0, a trigger time that is at most a day ahead is moved to the first
-- time, from a day ahead on, that lies a whole number of snooze periods after it.
pub postpone_lem :
    (now trg : ℤ) (n : ℕ)
    → 0 < n
    → trg ≤ℤ now +ℤ day
    → ((now +ℤ day) ≤ℤ postpone now (pos n) trg)
      × (postpone now (pos n) trg <ℤ now +ℤ day +ℤ pos n)
      × ((j : ℕ) × (postpone now (pos n) trg ≡ trg +ℤ pos (j * n)))
unfolding postpone
postpone_lem now trg n h le =
    let r = remainder (now +ℤ day) trg n h le in
    rw r.rem_rest (postponed-later now trg n r.turns r.rest r.small r.whole)
