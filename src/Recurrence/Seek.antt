-- ===== src/Recurrence/Seek.antt =====
-- The loops of alarm_recur_handle_masks come to an end: either a time is allowed, or building one
-- fails.
use alarmd.Common.{
  ℕ, zero, suc, ◌+◌, ◌*◌, ◌/◌, ◌%◌, ◌^◌, ◌<◌, ◌==◌, ◌≡◌, ◌≢◌, refl, sym, ap, ◌∙◌, ◌⊎◌, inl, inr,
  arith, Bool, true, false, Bool-cases, some, pos, eqb_ℤ, eq_of_parts,
}
use native.Mathlib.Nat.{div-div-eq-div-mul, mul-mod_right, div-add-mod, pow-succ', mul_assoc}
use alarmd.Event.{Text, Tm}
use alarmd.Calendar.{Driver, no_time}
use alarmd.Recurrence.{build, seek, going, cleanup}

halved : (w m : ℕ) → m % 2 ^ suc w ≢ 0 → m % 2 ≡ 0 → (m / 2) % 2 ^ w ≢ 0
halved w m h even z =
    let a : 2 ^ w * (m / 2 / 2 ^ w) + m / 2 % 2 ^ w ≡ m / 2 = div-add-mod (m / 2) (2 ^ w) in
    let b : m ≡ 2 * (2 ^ w * (m / 2 / 2 ^ w)) = omega (arith, a, z, even) in
    let p : 2 ^ suc w ≡ 2 * 2 ^ w = pow-succ' 2 _ in
    let c : 2 * (2 ^ w * (m / 2 / 2 ^ w)) ≡ 2 ^ suc w * (m / 2 / 2 ^ w) =
      sym (ap (λ x. x * (m / 2 / 2 ^ w)) p ∙ mul_assoc 2 (2 ^ w) _) in
    h (ap (λ x. x % 2 ^ suc w) (b ∙ c) ∙ mul-mod_right (2 ^ suc w) _)

half_bit : (i m : ℕ) → m / 2 / 2 ^ i % 2 ≡ 1 → m / 2 ^ suc i % 2 ≡ 1
half_bit i m e =
    let p : 2 ^ suc i ≡ 2 * 2 ^ i = pow-succ' 2 _ in
    ap (λ x. x % 2) (ap (λ x. m / x) p ∙ sym (div-div-eq-div-mul m 2 (2 ^ i))) ∙ e

-- A mask that is not 0 in its low bits has a bit there.
pub find_bit : (w m : ℕ) → m % 2 ^ w ≢ 0 → (i : ℕ) × (i < w) × (m / 2 ^ i % 2 ≡ 1)
find_bit zero m h = absurd (h (omega arith))
find_bit (suc w) m h = elim (Bool-cases (m % 2 == 1)) [
  | inl odd ↦ (0, omega arith, ground arith)
  | inr even ↦
      let (i, l, e) = find_bit w (m / 2) (halved w m h (ground arith)) in
      (suc i, omega arith, half_bit i m e)
]

module _ (driver : Driver) (tz : Text) (ok : Tm → Bool) (move : Tm → Tm) (I : Tm → Type 0) where
  -- What the loop comes to: a time that cannot be built, or the first one that is allowed.
  abbrev pub Ends : ℕ → Tm → Type 0
  Ends n tm =
      (x : Tm) × I x
      × (((build driver tz x).0 ≡ no_time)
            × (seek driver tz ok move n tm ≡ some (cleanup no_time (build driver tz x).1))
          ⊎ ((build driver tz x).0 ≢ no_time)
            × (ok (build driver tz x).1 ≡ true)
            × (seek driver tz ok move n tm
                ≡ some (going (pos 0) (build driver tz x).0 (build driver tz x).1)))

module _ (driver : Driver) (tz : Text) (ok : Tm → Bool) (move : Tm → Tm) (I : Tm → Type 0)
    (rank : Tm → ℕ)
    (step : (tm : Tm)
      → I tm
      → (build driver tz tm).0 ≢ no_time
      → ok (build driver tz tm).1 ≡ false
      → I (move (build driver tz tm).1) × (rank (move (build driver tz tm).1) < rank tm)) where
  pub seek-Ends : (n : ℕ) (tm : Tm) → I tm → rank tm < n → Ends driver tz ok move I n tm
  unfolding seek
  seek-Ends zero tm i l = absurd (omega arith)
  seek-Ends (suc n) tm i l = elim (Bool-cases (eqb_ℤ (build driver tz tm).0 no_time)) [
    | inl fails ↦
        let e = eq_of_parts (build driver tz tm).0 no_time (ground arith) in
        (tm, i, inl (e, rw (seek, fails) (ap (λ t. some (cleanup t (build driver tz tm).1)) e)))
    | inr builds ↦
        let b : (build driver tz tm).0 ≢ no_time =
          λ e. (let same = ap (λ t. eqb_ℤ t no_time) e in cc) in
        elim (Bool-cases (ok (build driver tz tm).1)) [
          | inl good ↦ (tm, i, inr (b, good, rw (seek, builds, good) refl))
          | inr bad ↦
              let (i', less) = step tm i b bad in
              rw (seek, builds, bad) (seek-Ends n (move (build driver tz tm).1) i' (omega arith))
        ]
  ]
