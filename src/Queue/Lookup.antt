-- ===== src/Queue/Lookup.antt =====
-- queue_get_event: binary search in the table that is sorted by cookie.
use alarmd.Common.{
  ℕ, zero, suc, ◌+◌, ◌-◌, ◌/◌, ◌≤◌, ◌<◌, Ordering, ◌==◌, ◌≡◌, ◌≢◌, refl, sym, ap, ◌∙◌, ◌⊎◌, inl,
  inr, arith, ltb, Option, some, none, Bool-cases, ◌<ℤ◌, ℤ, eq_of_parts, ◌↔◌,
}
use alarmd.Queue.{Queue, find_cookie, get_event, cmp_cookie, cmp_event_cookie}
use alarmd.Queue.Valid.{IsValid, Holds, Holds-unique}

pub Ordering-cases : (o : Ordering) → (o ≡ Ordering.lt) ⊎ ((o ≡ Ordering.eq) ⊎ (o ≡ Ordering.gt))
Ordering-cases Ordering.lt = inl refl
Ordering-cases Ordering.eq = inr (inl refl)
Ordering-cases Ordering.gt = inr (inr refl)

-- What is found stands in the queue and has the cookie; if nothing is found, no index in `l … h` has it.
abbrev Finds : Queue → ℤ → ℕ → ℕ → Option ℕ → Type 0
Finds q cookie l h (some p) = Holds q p × ((q.heap p).cookie ≡ cookie)
Finds q cookie l h none = (i : ℕ) → l ≤ i → i < h → (q.heap (q.by_cookie i)).cookie ≢ cookie

module _ {q : Queue} (v : IsValid q) (cookie : ℤ) where
  abbrev at : ℕ → ℤ
  at i = (q.heap (q.by_cookie i)).cookie

  at-mono : (i j : ℕ) → i < j → j < q.count → at i <ℤ at j
  at-mono i j h k = unfold cmp_event_cookie in ground (arith, v.by_cookie_sorted i j h k)

  at-inj : (i j : ℕ) → i < q.count → j < q.count → at i ≡ at j → i ≡ j
  at-inj i j h k e = elim (Bool-cases (i == j)) [
    | inl same ↦ ground arith
    | inr ne ↦ elim (Bool-cases (ltb i j)) [
      | inl lt ↦ absurd (ground (arith, at-mono i j))
      | inr ge ↦ absurd (ground (arith, at-mono j i))
    ]
  ]

  right_of : (m i : ℕ) → i < q.count → m < q.count → at m <ℤ cookie → at i ≡ cookie → m < i
  right_of m i l k h e = elim (Bool-cases (ltb i m)) [
    | inl lt ↦ absurd (ground (arith, at-mono i m))
    | inr ge ↦ elim (Bool-cases (i == m)) [
      | inl same ↦ absurd (ground arith)
      | inr ne ↦ ground arith
    ]
  ]

  left_of : (m i : ℕ) → i < q.count → m < q.count → cookie <ℤ at m → at i ≡ cookie → i < m
  left_of m i l k h e = elim (Bool-cases (ltb m i)) [
    | inl lt ↦ absurd (ground (arith, at-mono m i))
    | inr ge ↦ elim (Bool-cases (i == m)) [
      | inl same ↦ absurd (ground arith)
      | inr ne ↦ ground arith
    ]
  ]

  widen :
      (l h l' h' : ℕ) (o : Option ℕ)
      → ((i : ℕ) → l ≤ i → i < h → at i ≡ cookie → (l' ≤ i) × (i < h'))
      → Finds q cookie l' h' o
      → Finds q cookie l h o
  widen l h l' h' none f r = λ i li ih e. let (a, b) = f i li ih e in r i a b e
  widen l h l' h' (some p) f r = r

  find_cookie-Finds :
      (fuel l h : ℕ)
      → h - l ≤ fuel
      → h ≤ q.count
      → Finds q cookie l h (find_cookie q cookie fuel l h)
  unfolding find_cookie
  find_cookie-Finds zero l h f b = λ i li ih. absurd (omega arith)
  find_cookie-Finds (suc fuel) l h f b = elim (Bool-cases (ltb l h)) [
    | inr done ↦ rw (done, find_cookie) (λ i li ih. absurd (ground arith))
    | inl more ↦ elim (Ordering-cases (cmp_cookie (at ((l + h) / 2)) cookie)) [
      | inl less ↦
          rw (more, less, find_cookie)
            (widen l h ((l + h) / 2 + 1) h _
              (λ i li ih e. (
                omega
                    (arith, right_of ((l + h) / 2) i (omega arith) (ground arith) (ground arith) e),
                ih,
              ))
              (find_cookie-Finds fuel ((l + h) / 2 + 1) h (ground arith) b))
      | inr (inl same) ↦
          rw (more, same, find_cookie)
            (((l + h) / 2, ground arith, refl), eq_of_parts _ _ (ground arith))
      | inr (inr greater) ↦
          rw (more, greater, find_cookie)
            (widen l h l ((l + h) / 2) _
              (λ i li ih e.
                (li, left_of ((l + h) / 2) i (omega arith) (ground arith) (ground arith) e))
              (find_cookie-Finds fuel l ((l + h) / 2) (ground arith) (ground arith)))
    ]
  ]

  abbrev pub Looks : Option ℕ → Type 0
  Looks o =
      ((p : ℕ) → (o ≡ some p) ↔ (Holds q p × ((q.heap p).cookie ≡ cookie)))
      × ((o ≡ none) ↔ ((p : ℕ) → Holds q p → (q.heap p).cookie ≢ cookie))

  Finds-Looks : (o : Option ℕ) → Finds q cookie 0 q.count o → Looks o
  Finds-Looks none r =
      let absent : (p : ℕ) → Holds q p → (q.heap p).cookie ≢ cookie =
        λ p h c. r h.0 (omega arith) h.1 (rw h.2 c) in
      ((λ p. ((λ e. cc), (λ h. absurd (absent p h.0 h.1)))), ((λ e. absent), (λ h. refl)))
  Finds-Looks (some p) (h, c) = (
    (λ r. (
      (λ e. let d : p ≡ r = cc in (rw (← d) h, rw (← d) c)),
      (λ k. ap some (Holds-unique v h k.0 (c ∙ sym k.1))),
    )),
    ((λ e. cc), (λ k. absurd (k p h c))),
  )

  -- In a queue in order, queue_get_event gives the queued event that has the cookie, and NULL exactly
  -- if there is none.
  pub get_event-Looks : Looks (get_event q cookie)
  unfolding get_event
  get_event-Looks = Finds-Looks _ (find_cookie-Finds q.count 0 q.count (omega arith) (omega arith))
