-- ===== src/Queue/Valid.antt =====
-- When the tables of src/queue.c are in order, and what the two slot searches find then.
use alarmd.Common.{
  ℕ, ◌≤◌, ◌<◌, Bool, true, ◌==◌, ◌≡◌, refl, inl, inr, arith, ltb, ==_iff, Bool-cases, Table,
  count_if, count_if-pos_of, find_of_count_if, Splits, bisect-Splits, IsPrefix, ◌≤ℤ◌,
}
use alarmd.Event.{Event}
use alarmd.Queue.{
  Queue, cmp_event_cookie, cmp_event_trigger, is_lt, get_cookie_slot, get_trigger_slot,
}
use alarmd.Queue.Order.{Sorted, cmp_cookie_trans, cmp_trigger_trans, cmp_trigger_irrefl}

abbrev pub cookie_lt : (ℕ → Event) → ℕ → ℕ → Bool
cookie_lt heap p r = is_lt (cmp_event_cookie (heap p) (heap r))

abbrev pub trigger_lt : (ℕ → Event) → ℕ → ℕ → Bool
trigger_lt heap p r = is_lt (cmp_event_trigger (heap p) (heap r))

pub record IsValid (q : Queue) : Type 0 where
  pub by_cookie_sorted : Sorted (cookie_lt q.heap) q.by_cookie q.count
  pub by_trigger_sorted : Sorted (trigger_lt q.heap) q.by_trigger q.count
  -- The tables hold the same pointers, as often.
  pub same_events :
      (f : ℕ → Bool) → count_if f q.by_cookie q.count ≡ count_if f q.by_trigger q.count
  pub room : q.count ≤ q.alloc
  -- `queue_cookie` is the highest cookie in use.
  pub issued : (i : ℕ) → i < q.count → (q.heap (q.by_cookie i)).cookie ≤ℤ q.cookie

-- The pointer stands in the queue.
abbrev pub Holds : Queue → ℕ → Type 0
Holds q p = (i : ℕ) × (i < q.count) × (q.by_cookie i ≡ p)

-- Below a strict order, the entries below a bound form a prefix of a sorted table.
Sorted-IsPrefix :
    (lt : ℕ → ℕ → Bool) (below : ℕ → Bool) (tab : Table) (n : ℕ)
    → ((p r : ℕ) → lt p r ≡ true → below r ≡ true → below p ≡ true)
    → Sorted lt tab n
    → IsPrefix (λ i. below (tab i)) n
Sorted-IsPrefix lt below tab n trans s i j ij jn h = trans (tab i) (tab j) (s i j ij jn) h

module _ {q : Queue} (v : IsValid q) where
  pub cookie_slot-Splits :
      (eve : Event)
      → Splits
          (λ i. is_lt (cmp_event_cookie (q.heap (q.by_cookie i)) eve))
          q.count
          (get_cookie_slot q eve)
  unfolding get_cookie_slot
  cookie_slot-Splits eve = bisect-Splits _ q.count (
      Sorted-IsPrefix (cookie_lt q.heap) (λ p. is_lt (cmp_event_cookie (q.heap p) eve)) q.by_cookie
        q.count (λ p r. cmp_cookie_trans (q.heap p) (q.heap r) eve) v.by_cookie_sorted)

  pub trigger_slot-Splits :
      (eve : Event)
      → Splits
          (λ i. is_lt (cmp_event_trigger (q.heap (q.by_trigger i)) eve))
          q.count
          (get_trigger_slot q eve)
  unfolding get_trigger_slot
  trigger_slot-Splits eve = bisect-Splits _ q.count (
      Sorted-IsPrefix (trigger_lt q.heap) (λ p. is_lt (cmp_event_trigger (q.heap p) eve))
        q.by_trigger q.count (λ p r. cmp_trigger_trans (q.heap p) (q.heap r) eve)
        v.by_trigger_sorted)

  -- What stands in one table stands in the other.
  pub Holds-by_trigger : (i : ℕ) → i < q.count → Holds q (q.by_trigger i)
  Holds-by_trigger i h =
      let (j, l, e) =
        find_of_count_if (λ p. p == q.by_trigger i) q.by_cookie q.count
          (omega (
            arith,
            v.same_events (λ p. p == q.by_trigger i),
            count_if-pos_of (λ p. p == q.by_trigger i) q.by_trigger q.count i h (ground arith),
          )) in
      (j, l, (==_iff _ _).0 e)

  pub by_trigger-Holds : {p : ℕ} → Holds q p → (i : ℕ) × (i < q.count) × (q.by_trigger i ≡ p)
  by_trigger-Holds {p} (i, h, e) =
      let (j, l, e') =
        find_of_count_if (λ r. r == p) q.by_trigger q.count
          (omega (
            arith,
            v.same_events (λ r. r == p),
            count_if-pos_of (λ r. r == p) q.by_cookie q.count i h (ground arith),
          )) in
      (j, l, (==_iff _ _).0 e')

  -- No two events in the queue share a cookie.
  pub Holds-unique :
      {p r : ℕ} → Holds q p → Holds q r → (q.heap p).cookie ≡ (q.heap r).cookie → p ≡ r
  Holds-unique {p} {r} (i, h, e) (j, k, d) same = elim (Bool-cases (i == j)) [
    | inl eq ↦ ground arith
    | inr ne ↦ elim (Bool-cases (ltb i j)) [
      | inl lt ↦
          absurd
            (unfold cmp_event_cookie in ground (arith, v.by_cookie_sorted i j (ground arith) k))
      | inr ge ↦
          absurd
            (unfold cmp_event_cookie in ground (arith, v.by_cookie_sorted j i (ground arith) h))
    ]
  ]

  pub by_trigger_unique :
      (i j : ℕ) → i < q.count → j < q.count → q.by_trigger i ≡ q.by_trigger j → i ≡ j
  by_trigger_unique i j h k e = elim (Bool-cases (i == j)) [
    | inl eq ↦ ground arith
    | inr ne ↦ elim (Bool-cases (ltb i j)) [
      | inl lt ↦ absurd (
          ground (
            arith,
            v.by_trigger_sorted i j (ground arith) k,
            cmp_trigger_irrefl (q.heap (q.by_trigger i)),
          ))
      | inr ge ↦ absurd (
          ground (
            arith,
            v.by_trigger_sorted j i (ground arith) h,
            cmp_trigger_irrefl (q.heap (q.by_trigger i)),
          ))
    ]
  ]

-- `after` has the tables of `before`, and the queued objects keep what they are sorted by.
pub record SameKeys (before after : Queue) : Type 0 where
  pub cookies_kept : after.by_cookie ≡ before.by_cookie
  pub triggers_kept : after.by_trigger ≡ before.by_trigger
  pub count_kept : after.count ≡ before.count
  pub alloc_kept : after.alloc ≡ before.alloc
  pub top_kept : before.cookie ≤ℤ after.cookie
  pub cookie_kept : (p : ℕ) → Holds before p → (after.heap p).cookie ≡ (before.heap p).cookie
  pub trigger_kept : (p : ℕ) → Holds before p → (after.heap p).trigger ≡ (before.heap p).trigger

module _ {q r : Queue} (v : IsValid q) (k : SameKeys q r) where
  by_trigger_Holds : (i : ℕ) → i < r.count → Holds q (q.by_trigger i)
  by_trigger_Holds i h = Holds-by_trigger v i (omega (arith, k.count_kept))

  same_cookie :
      (i : ℕ) → i < r.count → (r.heap (q.by_cookie i)).cookie ≡ (q.heap (q.by_cookie i)).cookie
  same_cookie i h = k.cookie_kept (q.by_cookie i) (i, omega (arith, k.count_kept), refl)

  keys_cookie :
      (i j : ℕ)
      → i < r.count
      → j < r.count
      → cookie_lt r.heap (q.by_cookie i) (q.by_cookie j)
        ≡ cookie_lt q.heap (q.by_cookie i) (q.by_cookie j)
  unfolding cmp_event_cookie
  keys_cookie i j h l = rw (same_cookie i h, same_cookie j l)

  keys_trigger :
      (i j : ℕ)
      → i < r.count
      → j < r.count
      → trigger_lt r.heap (q.by_trigger i) (q.by_trigger j)
        ≡ trigger_lt q.heap (q.by_trigger i) (q.by_trigger j)
  unfolding cmp_event_trigger
  keys_trigger i j h l = rw (
    k.cookie_kept _ (by_trigger_Holds i h),
    k.cookie_kept _ (by_trigger_Holds j l),
    k.trigger_kept _ (by_trigger_Holds i h),
    k.trigger_kept _ (by_trigger_Holds j l),
  )

  -- A change of other fields keeps the queue in order.
  pub SameKeys-IsValid : IsValid r
  SameKeys-IsValid = record {
    by_cookie_sorted = λ i j ij jn.
        rw (k.cookies_kept, keys_cookie i j (omega arith) jn)
          (v.by_cookie_sorted i j ij (omega (arith, k.count_kept)));
    by_trigger_sorted = λ i j ij jn.
        rw (k.triggers_kept, keys_trigger i j (omega arith) jn)
          (v.by_trigger_sorted i j ij (omega (arith, k.count_kept)));
    same_events = λ f. rw (k.cookies_kept, k.triggers_kept, k.count_kept) (v.same_events f);
    room = omega (arith, v.room, k.count_kept, k.alloc_kept);
    issued = λ i l.
        rw (k.cookies_kept, same_cookie i l)
          (omega (arith, v.issued i (omega (arith, k.count_kept)), k.top_kept));
  }

  pub SameKeys-Holds : (p : ℕ) → Holds q p → Holds r p
  SameKeys-Holds p (i, l, e) = (i, omega (arith, k.count_kept), rw k.cookies_kept e)
