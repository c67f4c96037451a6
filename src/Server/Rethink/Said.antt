-- ===== src/Server/Rethink/Said.antt =====
-- What a step that works on one event at a time has done to the outside: the effects of each event in
-- its state, in the order of the query.
use alarmd.Common.{
  ℕ, List, [], ◌∷◌, ◌++◌, none, some, true, ℤ, ◌≡◌, inl, inr, refl, sym, ap, ap₂, ◌∙◌, arith,
}
use mathlib.Core.List.{append_assoc, append-nil}
use alarmd.Event.{Event}
use alarmd.Queue.{Queue, get_event}
use alarmd.Queue.Lookup.{get_event-Looks}
use alarmd.Queue.Query.{in_state, query_by_state, query_by_state-collect}
use alarmd.Queue.Valid.{IsValid, Holds, by_trigger-Holds}
use alarmd.Server.{Server, Effect, for_events}
use alarmd.Server.Keeps.{Keeps, StepKeeps}
use alarmd.Server.Rethink.{over}
use alarmd.Server.Rethink.Pointwise.{Local, In, Nodup, collect-Nodup, collect-In}
use alarmd.Server.Rethink.Safe.{Resolves, Resolves-Keeps, query_by_state-Resolves}

-- The effects for the events with the cookies `cs`, those of the last one first
pub said : (Event → List Effect) → Queue → List ℤ → List Effect
said g q [] = []
said g q (c ∷ cs) = said g q cs ++ (elim (get_event q c) [ none ↦ [] | some p ↦ g (q.heap p) ])

said-kept :
    (g : Event → List Effect) {q r : Queue} (cs : List ℤ)
    → IsValid q
    → Keeps q r
    → Resolves q cs
    → ((p : ℕ) → Holds q p → In (q.heap p).cookie cs → r.heap p ≡ q.heap p)
    → said g r cs ≡ said g q cs
unfolding said
said-kept g [] v k res same = refl
said-kept g {q} {r} (c ∷ cs) v k ((p, h, e), res) same =
    let before : get_event q c ≡ some p = ((get_event-Looks v c).0 p).1 (h, e) in
    let after : get_event r c ≡ some p =
      ((get_event-Looks k.valid c).0 p).1 (k.held p h, k.cookies p h ∙ e) in
    ap₂ (λ a b. a ++ b) (said-kept g cs v k res (λ o ho m. same o ho (inr m)))
      (rw (before, after) (ap g (same p h (inl e))))

-- Effects that stand as one block in a list of them
pub Block : List Effect → List Effect → Type 0
Block part all = (after : List Effect) × (before : List Effect) × (all ≡ after ++ (part ++ before))

pub Block-append : (part all more : List Effect) → Block part all → Block part (all ++ more)
unfolding Block
Block-append part all more (after, before, e) = (
  after,
  before ++ more,
  ap (λ l. l ++ more) e
      ∙ append_assoc after (part ++ before) more
      ∙ ap (λ l. after ++ l) (append_assoc part before more),
)

said-Block :
    (g : Event → List Effect) (q : Queue) (cs : List ℤ) (c : ℤ) (p : ℕ)
    → In c cs
    → get_event q c ≡ some p
    → Block (g (q.heap p)) (said g q cs)
unfolding said Block
said-Block g q [] c p m e = elim m [ ]
said-Block g q (d ∷ cs) c p (inl same) e =
    rw (← same, e) (said g q cs, [], ap (λ l. said g q cs ++ l) (sym (append-nil (g (q.heap p)))))
said-Block g q (d ∷ cs) c p (inr m) e =
    Block-append (g (q.heap p)) (said g q cs) _ (said-Block g q cs c p m e)

-- What is done for a queued event in the state stands as one block among what is done.
pub said-listed :
    (g : Event → List Effect) {q : Queue} (state : ℕ) (p : ℕ)
    → IsValid q
    → Holds q p
    → in_state state (q.heap p) ≡ true
    → Block (g (q.heap p)) (said g q (query_by_state q state))
said-listed g {q} state p v h hit =
    let (i, l, at) = by_trigger-Holds v h in
    said-Block g q (query_by_state q state) (q.heap p).cookie p
      (rw (query_by_state-collect q state)
        (rw at at (collect-In v (in_state state) q.count i l (rw at hit))))
      (((get_event-Looks v (q.heap p).cookie).0 p).1 (h, refl))

module _ {E : Type 0} (env : Server → E) (f : E → Event → Event) (g : E → Event → List Effect)
    (body : Server → ℕ → Server) (local : Local env f body) (keeps : StepKeeps body)
    (says : (s : Server) (p : ℕ)
      → (body s p).effects ≡ g (env s) (s.queue.heap p) ++ s.effects) where
  for_events-said :
      (cs : List ℤ) (s s' : Server)
      → IsValid s.queue
      → Resolves s.queue cs
      → Nodup cs
      → for_events body cs s ≡ some s'
      → s'.effects ≡ said (g (env s)) s.queue cs ++ s.effects
  unfolding for_events said
  for_events-said [] s s' v r d e = let same : s ≡ s' = cc in ap (λ t. t.effects) (sym same)
  for_events-said (c ∷ cs) s s' v ((p0, h0, e0), r) (fresh, d) e =
      let found : get_event s.queue c ≡ some p0 = ((get_event-Looks v c).0 p0).1 (h0, e0) in
      let k = keeps s p0 v h0 in
      let rest =
        for_events-said cs (body s p0) s' k.valid (Resolves-Keeps cs k r) d
          (rw (found, for_events) at e) in
      let kept = said-kept (g (env s)) cs v k r (λ p h m.
        local.others s p0 p
          (λ same. fresh (rw (ap (λ o. (s.queue.heap o).cookie) same ∙ e0) at m))) in
      rest
      ∙ ap₂ (λ a b. a ++ b) (ap (λ w. said (g w) (body s p0).queue cs) (local.env_kept s p0) ∙ kept)
          (says s p0)
      ∙ sym (append_assoc (said (g (env s)) s.queue cs) (g (env s) (s.queue.heap p0)) s.effects)
      ∙ rw found refl

  -- The loop over the events in one state adds the effects of each of them, and no others.
  pub over-said :
      (state : ℕ) (s s' : Server)
      → IsValid s.queue
      → over state body s ≡ some s'
      → s'.effects ≡ said (g (env s)) s.queue (query_by_state s.queue state) ++ s.effects
  over-said state s s' v e =
      for_events-said (query_by_state s.queue state) s s' v (query_by_state-Resolves state v)
        (rw (query_by_state-collect s.queue state)
          (collect-Nodup v (in_state state) s.queue.count (omega arith)))
        e
