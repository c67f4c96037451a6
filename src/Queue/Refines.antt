-- ===== src/Queue/Refines.antt =====
-- The queue of src/queue.c implements the registry: the calls that change or clear queued events.
use alarmd.Common.{
  ℕ, ◌≡◌, ◌≢◌, refl, sym, ap, ap₂, ◌∙◌, ◌⊎◌, inl, inr, fun_ext, arith, Bool, true, false, not,
  Option, none, some, List, [], ◌∷◌, ℤ, pos, ◌+ℤ◌, eqb_ℤ, ltb_ℤ, eqb_yes, eqb_no, eq_of_parts, ◌↔◌,
  Bool-cases, if◌then◌else◌, update, ◌==◌, Option-cases,
}
use mathlib.Core.Option
use alarmd.Event.{Event}
use alarmd.EventState
use alarmd.Queue.{
  Queue, add_event, assign_cookie, insert_event, get_event, del_event, event_set_state,
  event_set_trigger, cleanup_deleted, filter_state, with_state, event_get_state, is_dead,
}
use alarmd.Queue.Added.{add_event-Added, del_event-Deleted, event_set_trigger-Rescheduled}
use alarmd.Queue.Collected.{cleanup_deleted-Collected, cleanup_deleted-IsValid}
use alarmd.Queue.Insert.{CanAdd, assign_cookie-heap}
use alarmd.Queue.Lookup.{get_event-Looks}
use alarmd.Queue.Transition.{event_set_state-IsValid}
use alarmd.Queue.Valid.{IsValid, Holds, SameKeys, SameKeys-IsValid, Holds-unique}
use alarmd.Queue.View.{view, view-some, view-none, view-cases, change, view-change}
use alarmd.Queue.Registry.{
  Registry, registry, Call, add, move, retime, delete, find, clean, Answer, cookie, known, event,
  nothing, on_event, store, call, new_cookie, new_last, enter, moved, is_some, alive, specified,
  Allowed, run, replay, AllAllowed,
}
pub mod Adds
pub mod Runs

-- One call on the queue is the call on the registry.
abbrev pub Implements : Queue → Call → Type 0
Implements q c =
    IsValid (call q c).0
    × (registry (call q c).0 ≡ (specified (registry q) c).0)
    × ((call q c).1 ≡ (specified (registry q) c).1)

pub registry_eq : {a b : Registry} → a.last ≡ b.last → ((c : ℤ) → a.alarms c ≡ b.alarms c) → a ≡ b
registry_eq h k = ap₂ (λ l m. record { last = l; alarms = m }) h (fun_ext k)

pub update-other :
    (heap : ℕ → Event) (p : ℕ) (e : Event) (r : ℕ) → r ≢ p → update heap p e r ≡ heap r
update-other heap p e r n = ground arith

pub update-here : (heap : ℕ → Event) (p : ℕ) (e : Event) → update heap p e p ≡ e
update-here heap p e = ground arith

pub eqb_eq : (a b : ℤ) → eqb_ℤ a b ≡ true → a ≡ b
eqb_eq a b h = eq_of_parts a b (ground arith)

module _ {q : Queue} (v : IsValid q) where
  change-absent :
      (f : Event → Event) (c : ℤ)
      → ((p : ℕ) → Holds q p → (q.heap p).cookie ≢ c)
      → (x : ℤ) → view q x ≡ change f c (view q) x
  change-absent f c out x = elim (Bool-cases (eqb_ℤ x c)) [
    | inl e ↦ let d = eqb_eq x c e in rw (e, view-none v x (λ p h k. out p h (k ∙ d))) refl
    | inr e ↦ rw e refl
  ]

  -- A call that changes the event with the cookie, if there is one, by `f`, which keeps its cookie
  on_event-Implements :
      (c : ℤ) (g : ℕ → Queue) (f : Event → Event)
      → ((e : Event) → (f e).cookie ≡ e.cookie)
      → ((p : ℕ) → Holds q p → IsValid (g p))
      → ((p r : ℕ) → Holds q p → (Holds q r ↔ Holds (g p) r))
      → ((p : ℕ) → (g p).heap p ≡ f (q.heap p))
      → ((p s : ℕ) → s ≢ p → (g p).heap s ≡ q.heap s)
      → ((p : ℕ) → (g p).cookie ≡ q.cookie)
      → IsValid (on_event q c g)
        × (registry (on_event q c g) ≡ record { last = q.cookie; alarms = change f c (view q) })
  on_event-Implements c g f key valid held at others top = elim (Option-cases (get_event q c)) [
    | inl e ↦
        rw (on_event, e) (v, registry_eq refl (change-absent f c ((get_event-Looks v c).1.0 e)))
    | inr (p, e) ↦
        let (h, d) = ((get_event-Looks v c).0 p).0 e in
        rw (on_event, e)
          (
            valid p h,
            registry_eq (top p) (λ x.
                view-change v (valid p h) (λ r. held p r h) f p h (at p) (others p) (key _) x
                ∙ rw d refl),
          )
  ]

  clean-view : (c : ℤ) → view (cleanup_deleted q) c ≡ alive (view q c)
  clean-view c =
      let k = cleanup_deleted-Collected v in
      let w = cleanup_deleted-IsValid v in
      elim (view-cases v c) [
        | inr out ↦
            rw
              (
                view-none v c out,
                view-none w c (λ p h.
                    let (old, live) = (k.live p).0 h in rw (k.live_kept p live) (out p old)),
              )
              refl
        | inl (p, h, e) ↦ elim (Bool-cases (is_dead (event_get_state (q.heap p)))) [
          | inl gone ↦
              rw
                (
                  view-some v p h c e,
                  gone,
                  view-none w c (λ r m.
                      let (old, live) = (k.live r).0 m in
                      rw (k.live_kept r live) (λ d.
                        let same : r ≡ p = Holds-unique v old h (d ∙ sym e) in
                        let clash = rw same at live in cc)),
                )
                refl
          | inr live ↦
              let stays = k.live_kept p live in
              rw
                (
                  view-some v p h c e,
                  live,
                  view-some w p ((k.live p).1 (h, live)) c (rw stays e),
                  stays,
                )
                refl
        ]
      ]

  pub clean-Implements : Implements q clean
  unfolding call specified
  clean-Implements = (
    cleanup_deleted-IsValid v,
    registry_eq (cleanup_deleted-Collected v).top_kept clean-view,
    refl,
  )

  pub move-Implements : (c : ℤ) (state : ℕ) → Implements q (move c state)
  unfolding call specified
  move-Implements c state =
      let (w, r) =
        on_event-Implements c (λ p. event_set_state q p state) (moved state)
          (λ e. unfold with_state in refl) (λ p h. event_set_state-IsValid p state v)
          (λ p r h. unfold event_set_state in ((λ k. k), (λ k. k)))
          (λ p. unfold event_set_state in ground arith)
          (λ p s n. unfold event_set_state in ground arith) (λ p. unfold event_set_state in refl) in
      (w, r, refl)

  pub retime-Implements : (c trigger : ℤ) → Implements q (retime c trigger)
  unfolding call specified
  retime-Implements c trigger =
      let (w, r) =
        on_event-Implements c (λ p. event_set_trigger q p trigger)
          (λ e. record e { trigger = trigger }) (λ e. refl)
          (λ p h. (event_set_trigger-Rescheduled v p h trigger).valid)
          (λ p r h. (event_set_trigger-Rescheduled v p h trigger).held r)
          (λ p. unfold event_set_trigger in ground arith)
          (λ p s n. unfold event_set_trigger in ground arith)
          (λ p. unfold event_set_trigger in refl) in
      (w, r, refl)

  deleted : (c : ℤ) → (del_event q c).0 ≡ on_event q c (λ p. event_set_state q p EventState.deleted)
  unfolding del_event
  deleted c = elim (Option-cases (get_event q c)) [
    | inl e ↦ rw (e, on_event, del_event) refl
    | inr (p, e) ↦ rw (e, on_event, del_event) refl
  ]

  pub delete-Implements : (c : ℤ) → Implements q (delete c)
  unfolding call specified del_event
  delete-Implements c =
      let (w, r, a) = move-Implements c EventState.deleted in
      rw deleted (
        w,
        r,
        ap known (
            unfold view in
            elim (Option-cases (get_event q c)) [
              | inl e ↦ rw (e, del_event) refl
              | inr (p, e) ↦ rw (e, del_event) refl
            ]),
      )
