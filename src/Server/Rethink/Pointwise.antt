-- ===== src/Server/Rethink/Pointwise.antt =====
-- A step that works on one event at a time does so once for each event in its state, whatever the
-- order: what the loop makes of each queued event.
use alarmd.Common.{
  ℕ, suc, zero, ◌≤◌, ◌<◌, Bool, true, false, List, [], ◌∷◌, some, ℤ, if◌then◌else◌, ◌≡◌, ◌≢◌, ◌⊎◌,
  refl, ◌∙◌, arith, ◌==◌, ==_iff, Bool-cases, inl, inr, ap, ap₂, sym, Option-cases,
}
use alarmd.Event.{Event}
use alarmd.Queue.{Queue, get_event}
use alarmd.Queue.Lookup.{get_event-Looks}
use alarmd.Queue.Query.{collect, in_state, query_by_state, query_by_state-collect}
use alarmd.Queue.Valid.{
  IsValid, Holds, Holds-by_trigger, Holds-unique, by_trigger_unique, by_trigger-Holds,
}
use alarmd.Server.{Server, for_events}
use alarmd.Server.Keeps.{Keeps, StepKeeps}
use alarmd.Server.Rethink.{over}
use alarmd.Server.Rethink.Safe.{Resolves, Resolves-Keeps, query_by_state-Resolves}

abbrev pub In : ℤ → List ℤ → Type 0
In c [] = ⊥
In c (d ∷ ds) = (c ≡ d) ⊎ In c ds

abbrev pub Nodup : List ℤ → Type 0
Nodup [] = Unit {0}
Nodup (c ∷ cs) = (¬ (In c cs)) × Nodup cs

-- The body changes its own event only, by `f` in the surroundings `env` that the body leaves alone.
pub record Local {E : Type 0} (env : Server → E) (f : E → Event → Event)
    (body : Server → ℕ → Server) : Type 0 where
  pub own : (s : Server) (p : ℕ) → (body s p).queue.heap p ≡ f (env s) (s.queue.heap p)
  pub others : (s : Server) (p r : ℕ) → r ≢ p → (body s p).queue.heap r ≡ s.queue.heap r
  pub env_kept : (s : Server) (p : ℕ) → env (body s p) ≡ env s

module _ {q : Queue} (v : IsValid q) (f : Event → Bool) where
  In-collect :
      (n : ℕ)
      → n ≤ q.count
      → (c : ℤ) → In c (collect f q n)
      → (i : ℕ) × (i < n)
        × ((q.heap (q.by_trigger i)).cookie ≡ c)
        × (f (q.heap (q.by_trigger i)) ≡ true)
  unfolding collect
  In-collect zero h c m = elim m [ ]
  In-collect (suc n) h c m = elim (Bool-cases (f (q.heap (q.by_trigger n)))) [
    | inr miss ↦
        let (i, l, e, t) = In-collect n (omega arith) c (rw (miss, collect) at m) in
        (i, omega arith, e, t)
    | inl hit ↦ elim (rw (hit, collect) at m) [
      | inl same ↦ (n, omega arith, sym same, hit)
      | inr more ↦ let (i, l, e, t) = In-collect n (omega arith) c more in (i, omega arith, e, t)
    ]
  ]

  pub collect-In :
      (n i : ℕ)
      → i < n
      → f (q.heap (q.by_trigger i)) ≡ true
      → In (q.heap (q.by_trigger i)).cookie (collect f q n)
  unfolding collect
  collect-In zero i l t = absurd (omega arith)
  collect-In (suc n) i l t = elim (Bool-cases (i == n)) [
    | inl last ↦ let e : i ≡ n = ground arith in rw e (rw (rw e at t, collect) (inl refl))
    | inr early ↦ elim (Bool-cases (f (q.heap (q.by_trigger n)))) [
      | inl hit ↦ rw (hit, collect) (inr (collect-In n i (ground arith) t))
      | inr miss ↦ rw (miss, collect) (collect-In n i (ground arith) t)
    ]
  ]

  pub collect-Nodup : (n : ℕ) → n ≤ q.count → Nodup (collect f q n)
  unfolding collect
  collect-Nodup zero h = tt
  collect-Nodup (suc n) h = elim (Bool-cases (f (q.heap (q.by_trigger n)))) [
    | inr miss ↦ rw (miss, collect) (collect-Nodup n (omega arith))
    | inl hit ↦
        rw (hit, collect)
          (
            (λ m.
                let (i, l, e, t) = In-collect n (omega arith) _ m in
                let same =
                  Holds-unique v (Holds-by_trigger v i (omega arith))
                    (Holds-by_trigger v n (omega arith)) e in
                let at = by_trigger_unique v i n (omega arith) (omega arith) same in
                absurd (omega arith)),
            collect-Nodup n (omega arith),
          )
  ]

module _ {E : Type 0} (env : Server → E) (f : E → Event → Event) (body : Server → ℕ → Server)
    (local : Local env f body) (keeps : StepKeeps body) where
  -- What the loop makes of the event at `p`.
  record Mapped (cs : List ℤ) (s s' : Server) : Type 0 where
    named :
        (p : ℕ)
        → Holds s.queue p
        → In (s.queue.heap p).cookie cs
        → s'.queue.heap p ≡ f (env s) (s.queue.heap p)
    unnamed :
        (p : ℕ)
        → Holds s.queue p
        → ¬ (In (s.queue.heap p).cookie cs)
        → s'.queue.heap p ≡ s.queue.heap p

  Mapped-cons :
      (c : ℤ) (cs : List ℤ) (s s' : Server) (p0 : ℕ)
      → IsValid s.queue
      → Holds s.queue p0
      → (s.queue.heap p0).cookie ≡ c
      → ¬ (In c cs)
      → Mapped cs (body s p0) s'
      → Mapped (c ∷ cs) s s'
  Mapped-cons c cs s s' p0 v h0 e0 fresh ih = record {
    named = λ p h m. elim (Bool-cases (p == p0)) [
      | inl same ↦ let e : p ≡ p0 = (==_iff p p0).0 same in rw e own
      | inr other ↦ elim m [
        | inl hit ↦ absurd (apart p h other (hit ∙ sym e0))
        | inr more ↦
            ih.named p (k.held p h) (rw (← k.cookies p h) at more)
            ∙ ap₂ f (local.env_kept s p0) (local.others s p0 p (differs p other))
      ]
    ];
    unnamed = λ p h m. elim (Bool-cases (p == p0)) [
      | inl same ↦ let e : p ≡ p0 = (==_iff p p0).0 same in absurd (m (inl (rw e e0)))
      | inr other ↦
          ih.unnamed p (k.held p h) (λ n. m (inr (rw (k.cookies p h) at n)))
          ∙ local.others s p0 p (differs p other)
    ];
  }
    where
      k : Keeps s.queue (body s p0).queue
      k = keeps s p0 v h0

      differs : (p : ℕ) → (p == p0) ≡ false → p ≢ p0
      differs p n e = ground arith

      apart :
          (p : ℕ)
          → Holds s.queue p
          → (p == p0) ≡ false
          → (s.queue.heap p).cookie ≢ (s.queue.heap p0).cookie
      apart p h n e = differs p n (Holds-unique v h h0 e)

      own : s'.queue.heap p0 ≡ f (env s) (s.queue.heap p0)
      own =
          ih.unnamed p0 (k.held p0 h0) (λ n. fresh (rw (k.cookies p0 h0 ∙ e0) at n))
          ∙ local.own s p0

  for_events-Mapped :
      (cs : List ℤ) (s s' : Server)
      → IsValid s.queue
      → Resolves s.queue cs
      → Nodup cs
      → for_events body cs s ≡ some s'
      → Mapped cs s s'
  unfolding for_events
  for_events-Mapped [] s s' v r d e =
      let same : s ≡ s' = cc in
      rw (← same) (record { named = λ p h m. elim m [ ]; unnamed = λ p h m. refl })
  for_events-Mapped (c ∷ cs) s s' v ((p0, h0, e0), r) (fresh, d) e =
      let found : get_event s.queue c ≡ some p0 = ((get_event-Looks v c).0 p0).1 (h0, e0) in
      let k = keeps s p0 v h0 in
      Mapped-cons c cs s s' p0 v h0 e0 fresh (
        for_events-Mapped cs (body s p0) s' k.valid (Resolves-Keeps cs k r) d
          (rw (found, for_events) at e))

  pub for_events-env :
      (cs : List ℤ) (s s' : Server) → for_events body cs s ≡ some s' → env s' ≡ env s
  unfolding for_events
  for_events-env [] s s' e = let same : s ≡ s' = cc in ap env (sym same)
  for_events-env (c ∷ cs) s s' e = elim (Option-cases (get_event s.queue c)) [
    | inl missing ↦ absurd (let clash = rw (missing, for_events) at e in cc)
    | inr (p, found) ↦
        for_events-env cs (body s p) s' (rw (found, for_events) at e) ∙ local.env_kept s p
  ]

  -- The loop over the events in one state applies `f` to each of them, and to no other.
  pub over-Mapped :
      (state : ℕ) (s s' : Server)
      → IsValid s.queue
      → over state body s ≡ some s'
      → (p : ℕ) → Holds s.queue p
      → s'.queue.heap p
        ≡ (if in_state state (s.queue.heap p) then f (env s) (s.queue.heap p) else s.queue.heap p)
  over-Mapped state s s' v e p h = elim (Bool-cases (in_state state (s.queue.heap p))) [
    | inl hit ↦ rw hit (
        m.named p h (
          let (i, l, at) = by_trigger-Holds v h in
          rw (query_by_state-collect s.queue state)
            (rw at at (collect-In v (in_state state) s.queue.count i l (rw at hit)))))
    | inr miss ↦
        rw miss (m.unnamed p h (λ n. other miss (rw (query_by_state-collect s.queue state) at n)))
  ]
    where
      m : Mapped (query_by_state s.queue state) s s'
      m =
          for_events-Mapped (query_by_state s.queue state) s s' v (query_by_state-Resolves state v)
            (rw (query_by_state-collect s.queue state)
              (collect-Nodup v (in_state state) s.queue.count (omega arith)))
            e

      other :
          in_state state (s.queue.heap p) ≡ false
          → In (s.queue.heap p).cookie (collect (in_state state) s.queue s.queue.count)
          → ⊥
      other miss n =
          let (i, l, c, t) = In-collect v (in_state state) s.queue.count (omega arith) _ n in
          let same = Holds-unique v (Holds-by_trigger v i l) h c in ground arith
