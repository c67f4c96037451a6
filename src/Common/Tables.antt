-- ===== src/Common/Tables.antt =====
-- C arrays of pointers as functions from indices, with the loops that move a range by one slot,
-- the loop that keeps some entries, the count of the entries that pass a test, and binary search
-- for the end of a prefix.
use Prim.Native.Nat.{ℕ, zero, suc, ◌+◌, ◌-◌, ◌/◌, ◌≤◌, ◌<◌}
use mathlib.Core.Path.{◌≡◌, refl}
use mathlib.Core.Logic.{inl, inr}
use mathlib.Core.Bool.{Bool, true, false, ◌&&◌}
use native.Mathlib.Omega.{arith}
use alarmd.Common.Tests.{ltb, leb, ◌==◌, if◌then◌else◌, Bool-cases}

abbrev pub Table : Type 0
Table = ℕ → ℕ

abbrev pub update {ℓ} : {A : Type ℓ} → (ℕ → A) → ℕ → A → ℕ → A
update tab i v j = if j == i then v else tab j

-- for( i = t + k; i > t; --i ) tab[i] = tab[i-1];
unfoldable pub shift_up : ℕ → ℕ → Table → Table
shift_up zero t tab = tab
shift_up (suc k) t tab = shift_up k t (update tab (t + suc k) (tab (t + k)))

-- for( i = t; i < t + k; ++i ) tab[i] = tab[i+1];
unfoldable pub shift_down : ℕ → ℕ → Table → Table
shift_down zero t tab = tab
shift_down (suc k) t tab = shift_down k (t + 1) (update tab t (tab (t + 1)))

pub shift_up-eq :
    (k t : ℕ) (tab : Table) (j : ℕ)
    → shift_up k t tab j ≡ (if ltb t j && leb j (t + k) then tab (j - 1) else tab j)
unfolding shift_up
shift_up-eq zero t tab j = ground arith
shift_up-eq (suc k) t tab j =
    ground (arith, shift_up-eq k t (update tab (t + suc k) (tab (t + k))) j)

pub shift_down-eq :
    (k t : ℕ) (tab : Table) (j : ℕ)
    → shift_down k t tab j ≡ (if leb t j && ltb j (t + k) then tab (j + 1) else tab j)
unfolding shift_down
shift_down-eq zero t tab j = ground arith
shift_down-eq (suc k) t tab j =
    ground (arith, shift_down-eq k (t + 1) (update tab t (tab (t + 1))) j)

-- How many of the first `n` entries pass the test.
unfoldable pub count_if : (ℕ → Bool) → Table → ℕ → ℕ
count_if f tab zero = 0
count_if f tab (suc n) = (if f (tab n) then 1 else 0) + count_if f tab n

-- What `count_if` adds for one entry.
abbrev pub one_if : (ℕ → Bool) → ℕ → ℕ
one_if f p = if f p then 1 else 0

pub count_if-agree :
    (f : ℕ → Bool) (s t : Table) (n : ℕ)
    → ((i : ℕ) → i < n → s i ≡ t i)
    → count_if f s n ≡ count_if f t n
unfolding count_if
count_if-agree f s t zero h = refl
count_if-agree f s t (suc n) h =
    ground (arith, h n (omega arith), count_if-agree f s t n (λ i l. h i (omega arith)))

pub count_if-le : (f : ℕ → Bool) (tab : Table) (n : ℕ) → count_if f tab n ≤ n
unfolding count_if
count_if-le f tab zero = omega arith
count_if-le f tab (suc n) = ground (arith, count_if-le f tab n)

-- An entry that passes makes the count positive, and the other way round.
pub count_if-pos_of :
    (f : ℕ → Bool) (tab : Table) (n i : ℕ) → i < n → f (tab i) ≡ true → 0 < count_if f tab n
unfolding count_if
count_if-pos_of f tab zero i l e = absurd (omega arith)
count_if-pos_of f tab (suc n) i l e = elim (Bool-cases (i == n)) [
  | inl same ↦ ground arith
  | inr below ↦ ground (arith, count_if-pos_of f tab n i)
]

pub find_of_count_if :
    (f : ℕ → Bool) (tab : Table) (n : ℕ)
    → 0 < count_if f tab n
    → (i : ℕ) × (i < n) × (f (tab i) ≡ true)
unfolding count_if
find_of_count_if f tab zero h = absurd (omega arith)
find_of_count_if f tab (suc n) h = elim (Bool-cases (f (tab n))) [
  | inl hit ↦ (n, omega arith, hit)
  | inr miss ↦ let (i, l, e) = find_of_count_if f tab n (ground arith) in (i, omega arith, e)
]

-- An entry put in at slot `t` among the first `n`, those behind it moved up.
pub record Inserted (n t p : ℕ) (old new : Table) : Type 0 where
  pub slot : t ≤ n
  pub before : (j : ℕ) → j < t → new j ≡ old j
  pub at : new t ≡ p
  pub after : (j : ℕ) → t ≤ j → j < n → new (suc j) ≡ old j

count_if_up_to :
    (f : ℕ → Bool) {n t p : ℕ} {old new : Table} (m : ℕ)
    → t ≤ m
    → m ≤ n
    → Inserted n t p old new
    → count_if f new (suc m) ≡ one_if f p + count_if f old m
unfolding count_if
count_if_up_to f {n} {t} {p} {old} {new} zero l b h = ground (arith, h.at)
count_if_up_to f {n} {t} {p} {old} {new} (suc m) l b h = elim (Bool-cases (suc m == t)) [
  | inl here ↦
      let e : t ≡ suc m = ground arith in
      ground (arith, h.at, count_if-agree f new old (suc m) (λ j k. h.before j (omega arith)))
  | inr past ↦ ground (
    arith,
    h.after m (ground arith) (omega arith),
    count_if_up_to f m (ground arith) (omega arith) h,
  )
]

pub count_if-Inserted :
    (f : ℕ → Bool) {n t p : ℕ} {old new : Table}
    → Inserted n t p old new
    → count_if f new (suc n) ≡ one_if f p + count_if f old n
count_if-Inserted f {n} h = count_if_up_to f n h.slot (omega arith) h

-- The loop that makes room, and the write behind it, put an entry in.
pub shift_up-Inserted :
    (n t p : ℕ) (tab : Table) → t ≤ n → Inserted n t p tab (update (shift_up (n - t) t tab) t p)
shift_up-Inserted n t p tab h = record {
  slot = h;
  before = λ j k. ground (arith, shift_up-eq (n - t) t tab j);
  at = ground arith;
  after = λ j k l. ground (arith, shift_up-eq (n - t) t tab (suc j));
}

-- The table without its entry at slot `t`.
abbrev pub without : Table → ℕ → Table
without tab t j = if ltb j t then tab j else tab (suc j)

pub without-Inserted :
    (n t p : ℕ) (tab : Table) → t ≤ n → tab t ≡ p → Inserted n t p (without tab t) tab
without-Inserted n t p tab h e = record {
  slot = h;
  before = λ j k. ground arith;
  at = e;
  after = λ j k l. ground arith;
}

-- Moving an entry down to slot `to` is taking it out and putting it in there.
pub move_down-Inserted :
    (n ti to p : ℕ) (tab : Table)
    → to ≤ ti
    → ti ≤ n
    → Inserted n to p (without tab ti) (update (shift_up (ti - to) to tab) to p)
move_down-Inserted n ti to p tab h k = record {
  slot = omega arith;
  before = λ j l. ground (arith, shift_up-eq (ti - to) to tab j);
  at = ground arith;
  after = λ j l m. ground (arith, shift_up-eq (ti - to) to tab (suc j));
}

pub move_up-Inserted :
    (n ti to p : ℕ) (tab : Table)
    → ti ≤ to
    → to ≤ n
    → Inserted n to p (without tab ti) (update (shift_down (to - ti) ti tab) to p)
move_up-Inserted n ti to p tab h k = record {
  slot = k;
  before = λ j l. ground (arith, shift_down-eq (to - ti) ti tab j);
  at = ground arith;
  after = λ j l m. ground (arith, shift_down-eq (to - ti) ti tab (suc j));
}

-- while( l < h ) { i = (l+h)/2; if( below i ) l = i + 1; else h = i; } return l;
unfoldable pub bisect : (ℕ → Bool) → ℕ → ℕ → ℕ → ℕ
bisect below zero l h = l
bisect below (suc fuel) l h = elim (ltb l h) [
  | true ↦ elim (below ((l + h) / 2)) [
    | true ↦ bisect below fuel ((l + h) / 2 + 1) h
    | false ↦ bisect below fuel l ((l + h) / 2)
  ]
  | false ↦ l
]

-- `r` splits `0 … n` into indices that are below and indices that are not.
pub record Splits (below : ℕ → Bool) (n r : ℕ) : Type 0 where
  pub within : r ≤ n
  pub left : (i : ℕ) → i < r → below i ≡ true
  pub right : (i : ℕ) → r ≤ i → i < n → below i ≡ false

abbrev pub IsPrefix : (ℕ → Bool) → ℕ → Type 0
IsPrefix below n = (i j : ℕ) → i < j → j < n → below j ≡ true → below i ≡ true

module _ (below : ℕ → Bool) (n : ℕ) (mono : IsPrefix below n) where
  bisect_loop :
      (fuel l h : ℕ)
      → l ≤ h
      → h ≤ n
      → h - l ≤ fuel
      → ((i : ℕ) → i < l → below i ≡ true)
      → ((i : ℕ) → h ≤ i → i < n → below i ≡ false)
      → Splits below n (bisect below fuel l h)
  unfolding bisect
  bisect_loop zero l h lh hn f lo hi = record {
    within = omega arith;
    left = lo;
    right = λ i a b. hi i (omega arith) b;
  }
  bisect_loop (suc fuel) l h lh hn f lo hi = elim (Bool-cases (ltb l h)) [
    | inr done ↦
        rw (done, bisect)
          (record { within = omega arith; left = lo; right = λ i a b. hi i (ground arith) b })
    | inl more ↦
        let lt : l < h = ground arith in
        elim (Bool-cases (below ((l + h) / 2))) [
          | inl yes' ↦
              rw (more, yes', bisect)
                (bisect_loop fuel ((l + h) / 2 + 1) h (omega arith) hn (omega arith)
                  (low_part ((l + h) / 2) (omega arith) yes') hi)
          | inr no' ↦
              rw (more, no', bisect)
                (bisect_loop fuel l ((l + h) / 2) (omega arith) (omega arith) (omega arith) lo
                  (high_part ((l + h) / 2) no'))
        ]
  ]
    where
      low_part : (m : ℕ) → m < n → below m ≡ true → (i : ℕ) → i < m + 1 → below i ≡ true
      low_part m mn e i k = elim (Bool-cases (i == m)) [
        | inl same ↦ let q : i ≡ m = ground arith in rw q e
        | inr under ↦ mono i m (ground arith) mn e
      ]

      high_part : (m : ℕ) → below m ≡ false → (i : ℕ) → m ≤ i → i < n → below i ≡ false
      high_part m e i k kn = elim (Bool-cases (i == m)) [
        | inl same ↦ let q : i ≡ m = ground arith in rw q e
        | inr over ↦ ground (arith, mono m i (ground arith) kn)
      ]

  -- With one round of fuel for each slot the loop ends by its test, at the end of the prefix.
  pub bisect-Splits : Splits below n (bisect below n 0 n)
  bisect-Splits =
      bisect_loop n 0 n (omega arith) (omega arith) (omega arith) (λ i k. absurd (omega arith))
        (λ i a b. absurd (omega arith))
