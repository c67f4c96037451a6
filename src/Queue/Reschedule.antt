-- ===== src/Queue/Reschedule.antt =====
-- queue_event_set_trigger: the entry moves to where its new trigger time belongs.
use alarmd.Common.{
  ℕ, suc, ◌-◌, ◌≤◌, ◌<◌, Bool, true, false, ◌≡◌, ◌≢◌, sym, ap, subst, ◌∙◌, inl, inr, arith, ltb,
  leb, if◌then◌else◌, Bool-cases, ◌≤ℤ◌, ℤ, Table, Inserted, without, without-Inserted,
  move_down-Inserted, move_up-Inserted, count_if-Inserted, count_if, Splits,
}
use alarmd.Event.{Event, zero_event}
use alarmd.Queue.{
  Queue, cmp_event_cookie, cmp_event_trigger, get_trigger_slot, event_set_trigger, move_slot, is_lt,
}
use alarmd.Queue.Order.{
  Sorted, Sorted-Inserted, Sorted-removed, cmp_trigger_irrefl, cmp_trigger-connex,
}
use alarmd.Queue.Valid.{
  IsValid, Holds, Holds-unique, by_trigger-Holds, Holds-by_trigger, by_trigger_unique,
  trigger_slot-Splits, trigger_lt, cookie_lt,
}

abbrev moved : Event → ℤ → Event
moved e trigger = record zero_event { cookie = e.cookie; trigger = trigger }

module _ {q : Queue} (v : IsValid q) {p : ℕ} (h : Holds q p) where
  own_slot : ℕ
  own_slot = get_trigger_slot q (q.heap p)

  -- The slot search on the event itself finds its own entry.
  own_slot-eq : (i : ℕ) → i < q.count → q.by_trigger i ≡ p → own_slot ≡ i
  unfolding own_slot
  own_slot-eq i l e = elim (Bool-cases (ltb own_slot i)) [
    | inl under ↦
        absurd (ground (arith, s.right own_slot (omega arith), v.by_trigger_sorted own_slot i, e))
    | inr above ↦ elim (Bool-cases (ltb i own_slot)) [
      | inl over ↦ absurd (ground (arith, s.left i, cmp_trigger_irrefl (q.heap p), e))
      | inr same ↦ ground arith
    ]
  ]
    where
      s :
          Splits
            (λ i. is_lt (cmp_event_trigger (q.heap (q.by_trigger i)) (q.heap p)))
            q.count
            own_slot
      s = trigger_slot-Splits v (q.heap p)

  own_slot-lt : own_slot < q.count
  own_slot-lt = let (i, l, e) = by_trigger-Holds v h in omega (arith, own_slot-eq i l e)

  own_slot-at : q.by_trigger own_slot ≡ p
  own_slot-at = let (i, l, e) = by_trigger-Holds v h in rw (own_slot-eq i l e) e

  rest : Table
  rest = without q.by_trigger own_slot

  count-suc : q.count ≡ suc (q.count - 1)
  count-suc = let k = own_slot-lt in omega arith

  rest-Inserted : Inserted (q.count - 1) own_slot p rest q.by_trigger
  unfolding rest
  rest-Inserted =
      without-Inserted (q.count - 1) own_slot p q.by_trigger (let k = own_slot-lt in omega arith)
        own_slot-at

  -- An entry of the rest is an entry of the table at another slot, so another event.
  rest-ne : (i : ℕ) → i < q.count - 1 → rest i ≢ p
  unfolding rest
  rest-ne i l e = elim (Bool-cases (ltb i own_slot)) [
    | inl low ↦ absurd (ground (arith, own_slot-at, own_slot-lt, by_trigger_unique v i own_slot))
    | inr high ↦
        absurd (ground (arith, own_slot-at, own_slot-lt, by_trigger_unique v (suc i) own_slot))
  ]

  rest-Holds : (i : ℕ) → i < q.count - 1 → Holds q (rest i)
  unfolding rest
  rest-Holds i l = elim (Bool-cases (ltb i own_slot)) [
    | inl low ↦ rw low (Holds-by_trigger v i (omega arith))
    | inr high ↦ rw high (Holds-by_trigger v (suc i) (omega arith))
  ]

  module _ (trigger : ℤ) where
    new_slot : ℕ
    new_slot = get_trigger_slot q (moved (q.heap p) trigger)

    place : ℕ
    place = if leb new_slot own_slot then new_slot else new_slot - 1

    new_slot-Splits :
        Splits
          (λ i. is_lt (cmp_event_trigger (q.heap (q.by_trigger i)) (moved (q.heap p) trigger)))
          q.count
          new_slot
    unfolding new_slot
    new_slot-Splits = trigger_slot-Splits v (moved (q.heap p) trigger)

    move-Inserted : Inserted (q.count - 1) place p rest (move_slot q.by_trigger p own_slot new_slot)
    unfolding rest place move_slot
    move-Inserted = elim (Bool-cases (leb new_slot own_slot)) [
      | inl down ↦ rw down (
          move_down-Inserted (q.count - 1) own_slot new_slot p q.by_trigger (ground arith)
            (let k = own_slot-lt in omega arith))
      | inr up ↦ rw up (
          move_up-Inserted (q.count - 1) own_slot (new_slot - 1) p q.by_trigger (ground arith)
            (ground (arith, new_slot-Splits.within)))
    ]

    rest-before :
        (i : ℕ)
        → i < place
        → is_lt (cmp_event_trigger (q.heap (rest i)) (moved (q.heap p) trigger)) ≡ true
    unfolding rest place
    rest-before i l = elim (Bool-cases (ltb i own_slot)) [
      | inl low ↦ rw low (new_slot-Splits.left i (ground arith))
      | inr high ↦ rw high (new_slot-Splits.left (suc i) (ground arith))
    ]

    rest-after :
        (i : ℕ)
        → place ≤ i
        → i < q.count - 1
        → is_lt (cmp_event_trigger (q.heap (rest i)) (moved (q.heap p) trigger)) ≡ false
    unfolding rest place
    rest-after i l k = elim (Bool-cases (ltb i own_slot)) [
      | inl low ↦ rw low (new_slot-Splits.right i (ground arith) (omega arith))
      | inr high ↦ rw high (new_slot-Splits.right (suc i) (ground arith) (omega arith))
    ]

    heap' : ℕ → Event
    heap' = (event_set_trigger q p trigger).heap

    heap'-self : heap' p ≡ record (q.heap p) { trigger = trigger }
    unfolding heap' event_set_trigger
    heap'-self = ground arith

    heap'-other : (r : ℕ) → r ≢ p → heap' r ≡ q.heap r
    unfolding heap' event_set_trigger
    heap'-other r ne = ground arith

    heap'-cookie : (r : ℕ) → (heap' r).cookie ≡ (q.heap r).cookie
    unfolding heap' event_set_trigger
    heap'-cookie r = ground arith

    rest-Sorted : Sorted (trigger_lt heap') rest (q.count - 1)
    rest-Sorted i j ij jn =
        rw (heap'-other _ (rest-ne i (omega arith)), heap'-other _ (rest-ne j jn))
          (Sorted-removed (trigger_lt q.heap) rest-Inserted (rw count-suc at v.by_trigger_sorted) i
            j ij jn)

    lower : (i : ℕ) → i < place → trigger_lt heap' (rest i) p ≡ true
    unfolding cmp_event_trigger
    lower i l =
        rw (heap'-self, heap'-other _ (rest-ne i (let k = move-Inserted.slot in omega arith)))
          (rest-before i l)

    upper : (i : ℕ) → place ≤ i → i < q.count - 1 → trigger_lt heap' p (rest i) ≡ true
    unfolding cmp_event_trigger
    upper i l k =
        rw (heap'-self, heap'-other _ (rest-ne i k))
          (elim (cmp_trigger-connex (q.heap (rest i)) (moved (q.heap p) trigger)
            (rest-after i l k)) [
              | inl same ↦ absurd (rest-ne i k (Holds-unique v (rest-Holds i k) h same))
              | inr less ↦ less
            ])

    abbrev after : Queue
    after = event_set_trigger q p trigger

    after-Sorted :
        Sorted (trigger_lt heap') (move_slot q.by_trigger p own_slot new_slot) (suc (q.count - 1))
    after-Sorted = Sorted-Inserted (trigger_lt heap') move-Inserted rest-Sorted lower upper

    after-cookie_lt : (r s : ℕ) → cookie_lt heap' r s ≡ cookie_lt q.heap r s
    unfolding cmp_event_cookie
    after-cookie_lt r s = rw (heap'-cookie r, heap'-cookie s)

    after-count_if :
        (f : ℕ → Bool)
        → count_if f (move_slot q.by_trigger p own_slot new_slot) (suc (q.count - 1))
          ≡ count_if f q.by_trigger (suc (q.count - 1))
    after-count_if f = count_if-Inserted f move-Inserted ∙ sym (count_if-Inserted f rest-Inserted)

    after-same_events :
        (f : ℕ → Bool)
        → count_if f q.by_cookie q.count
          ≡ count_if f (move_slot q.by_trigger p own_slot new_slot) q.count
    after-same_events f =
        v.same_events f
        ∙ ap (count_if f q.by_trigger) count-suc
        ∙ sym (after-count_if f)
        ∙ ap (count_if f (move_slot q.by_trigger p own_slot new_slot)) (sym count-suc)

    -- Giving a queued event a new trigger time keeps the queue in order.
    pub event_set_trigger-IsValid : IsValid (event_set_trigger q p trigger)
    unfolding event_set_trigger heap' own_slot new_slot
    event_set_trigger-IsValid = record {
      by_cookie_sorted = λ i j ij jn.
          after-cookie_lt (q.by_cookie i) (q.by_cookie j) ∙ v.by_cookie_sorted i j ij jn;
      by_trigger_sorted = λ i j ij jn. after-Sorted i j ij (let e = count-suc in omega arith);
      same_events = after-same_events;
      room = v.room;
      issued =
          λ i l. subst (λ c. c ≤ℤ q.cookie) (sym (heap'-cookie (q.by_cookie i))) (v.issued i l);
    }
