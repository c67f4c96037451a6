-- ===== src/Queue/View.antt =====
-- What queue_get_event shows of the queue: the queued events under their cookies.
use alarmd.Common.{
  ℕ, ◌≡◌, ◌≢◌, refl, sym, ap, ◌∙◌, ◌⊎◌, inl, inr, ◌↔◌, arith, Bool-cases, Option-cases, ◌==◌,
  if◌then◌else◌, Option, none, some, ℤ, eqb_ℤ, eqb_yes, eqb_no,
}
use mathlib.Core.Option
use alarmd.Event.{Event}
use alarmd.Queue.{Queue, get_event}
use alarmd.Queue.Lookup.{get_event-Looks}
use alarmd.Queue.Valid.{IsValid, Holds, Holds-unique}

-- The event that queue_get_event finds for a cookie
unfoldable pub view : Queue → ℤ → Option Event
view q cookie = Option.map q.heap (get_event q cookie)

module _ {q : Queue} (v : IsValid q) where
  pub view-some : (p : ℕ) → Holds q p → (c : ℤ) → (q.heap p).cookie ≡ c → view q c ≡ some (q.heap p)
  unfolding view
  view-some p h c e = rw (((get_event-Looks v c).0 p).1 (h, e)) refl

  pub view-none : (c : ℤ) → ((p : ℕ) → Holds q p → (q.heap p).cookie ≢ c) → view q c ≡ none
  unfolding view
  view-none c h = rw ((get_event-Looks v c).1.1 h) refl

  pub view-cases :
      (c : ℤ)
      → ((p : ℕ) × Holds q p × ((q.heap p).cookie ≡ c))
        ⊎ ((p : ℕ) → Holds q p → (q.heap p).cookie ≢ c)
  view-cases c = elim (Option-cases (get_event q c)) [
    | inl e ↦ inr ((get_event-Looks v c).1.0 e)
    | inr (p, e) ↦ let (h, d) = ((get_event-Looks v c).0 p).0 e in inl (p, h, d)
  ]

-- What an entry becomes when the event under `cookie` is changed by `f`.
abbrev pub change : (Event → Event) → ℤ → (ℤ → Option Event) → ℤ → Option Event
change f cookie alarms c = if eqb_ℤ c cookie then Option.map f (alarms c) else alarms c

module _ {q r : Queue} (v : IsValid q) (w : IsValid r) (same : (p : ℕ) → Holds q p ↔ Holds r p)
    (f : Event → Event) (p : ℕ) (h : Holds q p) (at : r.heap p ≡ f (q.heap p))
    (others : (s : ℕ) → s ≢ p → r.heap s ≡ q.heap s)
    (key : (f (q.heap p)).cookie ≡ (q.heap p).cookie) where
  r-cookie : (s : ℕ) → (r.heap s).cookie ≡ (q.heap s).cookie
  r-cookie s = elim (Bool-cases (s == p)) [
    | inl e ↦ let d : s ≡ p = ground arith in rw (d, at) key
    | inr e ↦ ap (λ (x : Event). x.cookie) (others s (ground arith))
  ]

  -- A change of one queued event that leaves the cookies shows as a change under its cookie.
  pub view-change : (c : ℤ) → view r c ≡ change f (q.heap p).cookie (view q) c
  view-change c = elim (view-cases v c) [
    | inr out ↦
        rw (view-none v c out, view-none w c (λ s k. rw (r-cookie s) (out s ((same s).1 k))))
          (ground arith)
    | inl (s, k, e) ↦
        rw (view-some v s k c e, view-some w s ((same s).0 k) c (r-cookie s ∙ e))
          (elim (Bool-cases (s == p)) [
            | inl here ↦
                let d : s ≡ p = ground arith in
                rw (eqb_yes (sym e ∙ ap (λ x. (q.heap x).cookie) d), d, at) refl
            | inr ne ↦
                let d : s ≢ p = ground arith in
                rw (eqb_no (λ x. d (Holds-unique v k h (e ∙ x))), others s d) refl
          ])
  ]
