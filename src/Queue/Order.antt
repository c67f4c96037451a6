-- ===== src/Queue/Order.antt =====
-- The two orders of src/queue.c are strict and total, and what one entry more does to a sorted table.
use alarmd.Common.{
  ℕ, zero, suc, ◌≤◌, ◌<◌, Bool, true, false, ◌==◌, ltb, ◌≡◌, ◌⊎◌, inl, inr, arith, Bool-cases,
  Table, Inserted, eq_of_parts,
}
use alarmd.Event.{Event}
use alarmd.Queue.{cmp_event_cookie, cmp_event_trigger, is_lt}

pub cmp_cookie_trans :
    (a b c : Event)
    → is_lt (cmp_event_cookie a b) ≡ true
    → is_lt (cmp_event_cookie b c) ≡ true
    → is_lt (cmp_event_cookie a c) ≡ true
unfolding cmp_event_cookie
cmp_cookie_trans a b c h k = ground arith

pub cmp_trigger_trans :
    (a b c : Event)
    → is_lt (cmp_event_trigger a b) ≡ true
    → is_lt (cmp_event_trigger b c) ≡ true
    → is_lt (cmp_event_trigger a c) ≡ true
unfolding cmp_event_trigger
cmp_trigger_trans a b c h k = ground arith

pub cmp_cookie_irrefl : (a : Event) → is_lt (cmp_event_cookie a a) ≡ false
unfolding cmp_event_cookie
cmp_cookie_irrefl a = ground arith

pub cmp_trigger_irrefl : (a : Event) → is_lt (cmp_event_trigger a a) ≡ false
unfolding cmp_event_trigger
cmp_trigger_irrefl a = ground arith

-- Events with different cookies are in order one way or the other.
pub cmp_cookie-connex :
    (a b : Event)
    → is_lt (cmp_event_cookie a b) ≡ false
    → (a.cookie ≡ b.cookie) ⊎ (is_lt (cmp_event_cookie b a) ≡ true)
unfolding cmp_event_cookie
cmp_cookie-connex a b h = ground (arith, eq_of_parts a.cookie b.cookie)

pub cmp_trigger-connex :
    (a b : Event)
    → is_lt (cmp_event_trigger a b) ≡ false
    → (a.cookie ≡ b.cookie) ⊎ (is_lt (cmp_event_trigger b a) ≡ true)
unfolding cmp_event_trigger
cmp_trigger-connex a b h = ground (arith, eq_of_parts a.cookie b.cookie)

-- The first `n` entries stand in strictly ascending order.
abbrev pub Sorted : (ℕ → ℕ → Bool) → Table → ℕ → Type 0
Sorted lt tab n = (i j : ℕ) → i < j → j < n → lt (tab i) (tab j) ≡ true

module _ (lt : ℕ → ℕ → Bool) {n t p : ℕ} {old new : Table} (ins : Inserted n t p old new) where
  -- An entry put in at its place keeps the table sorted.
  pub Sorted-Inserted :
      Sorted lt old n
      → ((i : ℕ) → i < t → lt (old i) p ≡ true)
      → ((i : ℕ) → t ≤ i → i < n → lt p (old i) ≡ true)
      → Sorted lt new (suc n)
  Sorted-Inserted s lo hi i zero ij jn = absurd (omega arith)
  Sorted-Inserted s lo hi i (suc j) ij jn = elim (Bool-cases (ltb (suc j) t)) [
    | inl left ↦ ground (arith, ins.before i, ins.before (suc j), s i (suc j) ij)
    | inr right ↦ elim (Bool-cases (suc j == t)) [
      | inl at_t ↦
          let e : suc j ≡ t = ground arith in rw e (ground (arith, ins.before i, ins.at, lo i))
      | inr above ↦ rw (ins.after j (ground arith) (omega arith)) (upper j i ij jn (ground arith))
    ]
  ]
    where
      upper : (j i : ℕ) → i < suc j → suc j < suc n → t ≤ j → lt (new i) (old j) ≡ true
      upper j zero ij jn tj = elim (Bool-cases (0 == t)) [
        | inl at_t ↦ let e : 0 ≡ t = ground arith in rw (e, ins.at) (hi j tj (omega arith))
        | inr left ↦ rw (ins.before 0 (ground arith)) (s 0 j (ground arith) (omega arith))
      ]
      upper j (suc i) ij jn tj = elim (Bool-cases (ltb (suc i) t)) [
        | inl left ↦
            rw (ins.before (suc i) (ground arith)) (s (suc i) j (ground arith) (omega arith))
        | inr right ↦ elim (Bool-cases (suc i == t)) [
          | inl at_t ↦ let e : suc i ≡ t = ground arith in rw (e, ins.at) (hi j tj (omega arith))
          | inr above ↦
              rw (ins.after i (ground arith) (omega arith)) (s i j (omega arith) (omega arith))
        ]
      ]

  -- Taking the entry out again keeps the table sorted.
  pub Sorted-removed : Sorted lt new (suc n) → Sorted lt old n
  Sorted-removed s i j ij jn = elim (Bool-cases (ltb j t)) [
    | inl left ↦
        rw (← ins.before i (ground arith), ← ins.before j (ground arith)) (s i j ij (omega arith))
    | inr right ↦ rw (← ins.after j (ground arith) (omega arith)) (elim (Bool-cases (ltb i t)) [
      | inl low ↦ rw (← ins.before i (ground arith)) (s i (suc j) (omega arith) (omega arith))
      | inr high ↦
          rw (← ins.after i (ground arith) (omega arith))
            (s (suc i) (suc j) (omega arith) (omega arith))
    ])
  ]

-- What holds of every entry and of the new one holds of every entry of the new table.
pub every-Inserted :
    (P : ℕ → Type 0) {n t p : ℕ} {old new : Table}
    → Inserted n t p old new
    → ((i : ℕ) → i < n → P (old i))
    → P p
    → (i : ℕ) → i < suc n
    → P (new i)
every-Inserted P {t = t} ins all h zero l = elim (Bool-cases (0 == t)) [
  | inl at_t ↦ let e : 0 ≡ t = ground arith in rw (e, ins.at) h
  | inr left ↦ let k = ins.slot in rw (ins.before 0 (ground arith)) (all 0 (ground arith))
]
every-Inserted P {t = t} ins all h (suc i) l = elim (Bool-cases (ltb (suc i) t)) [
  | inl left ↦
      let k = ins.slot in rw (ins.before (suc i) (ground arith)) (all (suc i) (ground arith))
  | inr right ↦ elim (Bool-cases (suc i == t)) [
    | inl at_t ↦ let e : suc i ≡ t = ground arith in rw (e, ins.at) h
    | inr above ↦ rw (ins.after i (ground arith) (omega arith)) (all i (omega arith))
  ]
]
