-- ===== src/Queue/Refines/Runs.antt =====
-- Any sequence of calls on the queue is the same sequence on the registry.
use alarmd.Common.{◌≡◌, refl, ap, List, [], ◌∷◌}
use alarmd.Queue.{Queue}
use alarmd.Queue.Valid.{IsValid}
use alarmd.Queue.Registry.{
  registry, Call, add, move, retime, delete, find, clean, call, specified, Allowed, run, replay,
  AllAllowed,
}
use alarmd.Queue.Refines.{
  Implements, clean-Implements, move-Implements, retime-Implements, delete-Implements,
}
use alarmd.Queue.Refines.Adds.{add-Implements}

call-Implements : {q : Queue} → IsValid q → (c : Call) → Allowed q c → Implements q c
unfolding Allowed
call-Implements v (add p e) (fresh, free) = add-Implements v p e fresh free
call-Implements v (move c state) ok = move-Implements v c state
call-Implements v (retime c trigger) ok = retime-Implements v c trigger
call-Implements v (delete c) ok = delete-Implements v c
call-Implements v (find c) ok = unfold call specified in (v, refl, refl)
call-Implements v clean ok = clean-Implements v

-- From a queue in order, any sequence of calls, in which each event is added at a pointer that is
-- not queued and without a cookie that is in use, leaves the queue in order, and the answers and
-- the queue that a client sees afterwards are those of the registry.
pub run-replay :
    (cs : List Call) {q : Queue}
    → IsValid q
    → AllAllowed q cs
    → IsValid (run q cs).0
      × (registry (run q cs).0 ≡ (replay (registry q) cs).0)
      × ((run q cs).1 ≡ (replay (registry q) cs).1)
unfolding run replay AllAllowed
run-replay [] v ok = (v, refl, refl)
run-replay (c ∷ cs) {q} v (ok, oks) =
    let (w, same, answer) = call-Implements v c ok in
    let (x, same', answers) = run-replay cs w oks in
    rw (← same, ← answer) (x, same', ap (λ r. (call q c).1 ∷ r) answers)
