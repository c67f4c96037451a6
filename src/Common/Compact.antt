-- ===== src/Common/Compact.antt =====
-- The loop that squeezes the entries to be dropped out of a table, in place.
use Prim.Native.Nat.{ℕ, zero, suc, ◌+◌, ◌≤◌, ◌<◌}
use mathlib.Core.Path.{◌≡◌, refl, ◌∙◌, sym}
use mathlib.Core.Logic.{inl, inr}
use mathlib.Core.Bool.{Bool, true, false, ◌&&◌, not}
use native.Mathlib.Omega.{arith}
use native.Mathlib.Numerals.{add-one}
use alarmd.Common.Tests.{◌==◌, Bool-cases}
use alarmd.Common.Tables.{Table, update, count_if, count_if-agree, one_if}

-- `k` rounds at index `i`: `if( !drop(tab[i]) ) tab[t++] = tab[i];`
unfoldable pub compact : (ℕ → Bool) → ℕ → ℕ → ℕ → Table → ℕ × Table
compact drop zero i t tab = (t, tab)
compact drop (suc k) i t tab = elim (drop (tab i)) [
  | true ↦ compact drop k (i + 1) t tab
  | false ↦ compact drop k (i + 1) (t + 1) (update tab t (tab i))
]

-- How many of the `k` entries from index `i` pass the test.
unfoldable pub count_from : (ℕ → Bool) → Table → ℕ → ℕ → ℕ
count_from f tab i zero = 0
count_from f tab i (suc k) = one_if f (tab i) + count_from f tab (i + 1) k

pub count_from-agree :
    (f : ℕ → Bool) (s t : Table) (k i : ℕ)
    → ((j : ℕ) → i ≤ j → s j ≡ t j)
    → count_from f s i k ≡ count_from f t i k
unfolding count_from
count_from-agree f s t zero i h = refl
count_from-agree f s t (suc k) i h =
    ground (arith, h i (omega arith), count_from-agree f s t k (i + 1) (λ j l. h j (omega arith)))

count_if-count_from :
    (f : ℕ → Bool) (tab : Table) (k i : ℕ)
    → count_if f tab i + count_from f tab i k ≡ count_if f tab (i + k)
unfolding count_from
count_if-count_from f tab zero i = let e : i + 0 ≡ i = omega arith in rw e (omega arith)
count_if-count_from f tab (suc k) i =
    let e : i + 1 + k ≡ i + suc k = omega arith in
    rw (← e) (omega (arith, count_if-count_from f tab k (i + 1), step))
  where
    step : count_if f tab (i + 1) ≡ one_if f (tab i) + count_if f tab i
    step = rw (add-one i) (unfold count_if in refl)

pub count_from-count_if :
    (f : ℕ → Bool) (tab : Table) (n : ℕ) → count_from f tab 0 n ≡ count_if f tab n
count_from-count_if f tab n =
    let e : 0 + n ≡ n = omega arith in omega (arith, z, rw e at (count_if-count_from f tab n 0))
  where
    z : count_if f tab 0 ≡ 0
    z = unfold count_if in refl

module _ (drop : ℕ → Bool) where
  -- What is kept, and only that, is in the new table, as often as in the old one.
  compact_count :
      (f : ℕ → Bool) (k i t : ℕ) (tab : Table)
      → t ≤ i
      → count_if f (compact drop k i t tab).1 (compact drop k i t tab).0
        ≡ count_if f tab t + count_from (λ p. f p && not (drop p)) tab i k
  unfolding compact count_from
  compact_count f zero i t tab h = omega arith
  compact_count f (suc k) i t tab h = elim (Bool-cases (drop (tab i))) [
    | inl gone ↦ rw (gone, compact) (ground (arith, compact_count f k (i + 1) t tab (omega arith)))
    | inr kept ↦
        rw (kept, compact)
          (ground (
            arith,
            compact_count f k (i + 1) (t + 1) (update tab t (tab i)) (omega arith),
            written,
            count_from-agree (λ p. f p && not (drop p)) (update tab t (tab i)) tab k (i + 1)
                (λ j l. ground arith),
          ))
  ]
    where
      written : count_if f (update tab t (tab i)) (t + 1) ≡ one_if f (tab i) + count_if f tab t
      written = rw (add-one t) (
          unfold count_if in
          ground (arith, count_if-agree f (update tab t (tab i)) tab t (λ j l. ground arith)))

-- The kept entries, those still to be read, and one before the other, are in ascending order.
record Ascends (lt : ℕ → ℕ → Bool) (tab : Table) (t i n : ℕ) : Type 0 where
  kept : (a b : ℕ) → a < b → b < t → lt (tab a) (tab b) ≡ true
  unread : (a b : ℕ) → i ≤ a → a < b → b < n → lt (tab a) (tab b) ≡ true
  across : (a b : ℕ) → a < t → i ≤ b → b < n → lt (tab a) (tab b) ≡ true

module _ (lt : ℕ → ℕ → Bool) (drop : ℕ → Bool) where
  Ascends-keep :
      (tab : Table) (t i n : ℕ)
      → t ≤ i
      → i < n
      → Ascends lt tab t i n
      → Ascends lt (update tab t (tab i)) (t + 1) (i + 1) n
  Ascends-keep tab t i n h l s = record {
    kept = λ a b ab bt. elim (Bool-cases (b == t)) [
      | inl last ↦ ground (arith, s.across a i)
      | inr early ↦ ground (arith, s.kept a b)
    ];
    unread = λ a b ia ab bn. ground (arith, s.unread a b);
    across = λ a b at ib bn. elim (Bool-cases (a == t)) [
      | inl last ↦ ground (arith, s.unread i b)
      | inr early ↦ ground (arith, s.across a b)
    ];
  }

  compact_sorted :
      (k i t n : ℕ) (tab : Table)
      → t ≤ i
      → i + k ≡ n
      → Ascends lt tab t i n
      → (a b : ℕ) → a < b
      → b < (compact drop k i t tab).0
      → lt ((compact drop k i t tab).1 a) ((compact drop k i t tab).1 b) ≡ true
  unfolding compact
  compact_sorted zero i t n tab h e s = s.kept
  compact_sorted (suc k) i t n tab h e s = elim (Bool-cases (drop (tab i))) [
    | inl gone ↦
        rw (gone, compact)
          (compact_sorted k (i + 1) t n tab (omega arith) (omega arith) (record {
            kept = s.kept;
            unread = λ a b ia. s.unread a b (omega arith);
            across = λ a b at ib. s.across a b at (omega arith);
          }))
    | inr kept ↦
        rw (kept, compact)
          (compact_sorted k (i + 1) (t + 1) n (update tab t (tab i)) (omega arith) (omega arith)
            (Ascends-keep tab t i n h (omega arith) s))
  ]

  -- A sorted table is sorted without the dropped entries.
  pub compact-Sorted :
      (n : ℕ) (tab : Table)
      → ((a b : ℕ) → a < b → b < n → lt (tab a) (tab b) ≡ true)
      → (a b : ℕ) → a < b
      → b < (compact drop n 0 0 tab).0
      → lt ((compact drop n 0 0 tab).1 a) ((compact drop n 0 0 tab).1 b) ≡ true
  compact-Sorted n tab s = compact_sorted n 0 0 n tab (omega arith) (omega arith) (record {
    kept = λ a b ab b0. absurd (omega arith);
    unread = λ a b oa ab bn. s a b ab bn;
    across = λ a b a0 ob bn. absurd (omega arith);
  })

module _ (drop : ℕ → Bool) (n : ℕ) (tab : Table) where
  pub compact-count_if :
      (f : ℕ → Bool)
      → count_if f (compact drop n 0 0 tab).1 (compact drop n 0 0 tab).0
        ≡ count_if (λ p. f p && not (drop p)) tab n
  compact-count_if f =
      compact_count drop f n 0 0 tab (omega arith)
      ∙ (unfold count_if in omega (arith, count_from-count_if (λ p. f p && not (drop p)) tab n))

  count_if-all : (s : Table) (m : ℕ) → count_if (λ p. true) s m ≡ m
  unfolding count_if
  count_if-all s zero = refl
  count_if-all s (suc m) = omega (arith, count_if-all s m)

  -- The number of entries kept.
  pub compact-length : (compact drop n 0 0 tab).0 ≡ count_if (λ p. not (drop p)) tab n
  compact-length = sym (count_if-all _ _) ∙ compact-count_if (λ p. true)
