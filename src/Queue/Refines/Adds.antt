-- ===== src/Queue/Refines/Adds.antt =====
-- queue_add_event enters the new event into the registry.
use alarmd.Common.{
  ℕ, ◌≡◌, ◌≢◌, refl, sym, ap, ◌∙◌, inl, inr, arith, none, ℤ, eqb_ℤ, eqb_yes, Bool-cases,
}
use alarmd.Event.{Event}
use alarmd.Queue.{Queue, add_event, assign_cookie, insert_event}
use alarmd.Queue.Added.{add_event-Added}
use alarmd.Queue.Insert.{CanAdd, assign_cookie-heap}
use alarmd.Queue.Lookup.{get_event-Looks}
use alarmd.Queue.Valid.{IsValid, Holds, SameKeys, SameKeys-IsValid}
use alarmd.Queue.View.{view, view-some, view-none, view-cases}
use alarmd.Queue.Registry.{add, cookie, store, call, new_cookie, new_last, enter, specified}
use alarmd.Queue.Refines.{Implements, registry_eq, update-other, update-here, eqb_eq}

module _ {q : Queue} (v : IsValid q) (p : ℕ) (e : Event) (fresh : ¬ (Holds q p))
    (free : view q e.cookie ≡ none) where
  abbrev q0 : Queue
  q0 = store q p e

  apart : (r : ℕ) → Holds q r → r ≢ p
  apart r h e = fresh (rw e at h)

  unstored : (r : ℕ) → Holds q r → q0.heap r ≡ q.heap r
  unstored r h = update-other q.heap p e r (apart r h)

  stored : SameKeys q q0
  stored = record {
    cookies_kept = refl;
    triggers_kept = refl;
    count_kept = refl;
    alloc_kept = refl;
    top_kept = omega arith;
    cookie_kept = λ r h. ap (λ (x : Event). x.cookie) (unstored r h);
    trigger_kept = λ r h. ap (λ (x : Event). x.trigger) (unstored r h);
  }

  can : CanAdd q0 p
  can = record {
    not_queued = fresh;
    own_cookie = λ r h d.
        let found = view-some v r h e.cookie (
          sym (ap (λ (x : Event). x.cookie) (unstored r h))
          ∙ d
          ∙ ap (λ (x : Event). x.cookie) (update-here q.heap p e)) in
        cc;
  }

  abbrev e' : Event
  unfolding new_cookie
  e' = record e { cookie = new_cookie q.cookie e }

  placed : (add_event q0 p).0.heap p ≡ e'
  unfolding add_event insert_event assign_cookie new_cookie e'
  placed = ground arith

  top : (add_event q0 p).0.cookie ≡ new_last q.cookie e
  unfolding add_event insert_event assign_cookie new_last
  top = ground arith

  -- what stands in the queue beside the new event
  beside : (r : ℕ) → Holds q r → (add_event q0 p).0.heap r ≡ q.heap r
  unfolding add_event insert_event
  beside r h = assign_cookie-heap q0 p r (apart r h) ∙ unstored r h

  add-view : (c : ℤ) → view (add_event q0 p).0 c ≡ enter (view q) e' c
  add-view c =
      let k = add_event-Added p (SameKeys-IsValid v stored) can in
      let (held, own) = ((get_event-Looks k.valid _).0 p).0 k.found in
      elim (Bool-cases (eqb_ℤ c e'.cookie)) [
        | inl new ↦
            rw (new, view-some k.valid p held c (rw placed (sym (eqb_eq _ _ new))), placed) refl
        | inr other ↦ elim (view-cases v c) [
          | inl (r, h, d) ↦
              rw
                (
                  other,
                  view-some v r h c d,
                  view-some k.valid r (k.held r h) c (rw (beside r h) d),
                  beside r h,
                )
                refl
          | inr out ↦
              rw
                (
                  other,
                  view-none v c out,
                  view-none k.valid c (λ r m. elim (k.only r m) [
                    | inl h ↦ rw (beside r h) (out r h)
                    | inr here ↦ rw (here, placed) (λ d. let same = eqb_yes (sym d) in cc)
                  ]),
                )
                refl
        ]
      ]

  pub add-Implements : Implements q (add p e)
  unfolding call specified new_cookie
  add-Implements =
      let k = add_event-Added p (SameKeys-IsValid v stored) can in
      let (held, own) = ((get_event-Looks k.valid _).0 p).0 k.found in
      (k.valid, registry_eq top add-view, ap cookie (sym own ∙ ap (λ (x : Event). x.cookie) placed))
