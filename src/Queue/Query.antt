-- ===== src/Queue/Query.antt =====
-- The queries of src/queue.c: they walk the table by trigger from its end, where the event that
-- triggers next stands, and collect cookies.
use alarmd.Common.{
  ℕ, zero, suc, ◌+◌, ◌≤◌, ◌<◌, Bool, true, false, ◌&&◌, ◌||◌, not, ◌==◌, ◌≡◌, refl, ◌∙◌, arith,
  if◌then◌else◌, Bool-cases, ℤ, pos, negsuc, ltb_ℤ, leb_ℤ, ◌≤ℤ◌, ◌<ℤ◌, List, [], ◌∷◌, bit_and,
  length, none, some, inl, inr,
}
use alarmd.Event.{Event, Text, is_empty, bytes_eq, has, event_disabled}
use alarmd.EventState
use alarmd.Queue.{Queue, event_get_state, cmp_event_trigger}
use alarmd.Queue.Valid.{IsValid}

abbrev pub int_max : ℤ
int_max = pos 2147483647

abbrev pub int_min : ℤ
int_min = negsuc 2147483647

-- `(eve->alarm_appid == 0) || strcmp(eve->alarm_appid, app)`, for an `app` that is not empty
unfoldable pub other_app : Text → Text → Bool
other_app none app = true
other_app (some a) none = true
other_app (some a) (some b) = not (bytes_eq a b)

-- The loop of queue_query_events with `i` entries left to read.
unfoldable pub query_loop : Queue → ℤ → ℤ → ℕ → ℕ → Text → ℕ → List ℤ
query_loop q lo hi mask flag app zero = []
query_loop q lo hi mask flag app (suc i) =
    let eve = q.heap (q.by_trigger i) in
    let rest = query_loop q lo hi mask flag app i in
    if event_get_state eve == EventState.deleted
    then rest
    else if ltb_ℤ eve.trigger lo
    then rest
    else if ltb_ℤ hi eve.trigger
    then []
    else if not (bit_and eve.flags mask == flag)
    then rest
    else if not (is_empty app) && other_app eve.alarm_appid app
    then rest
    else eve.cookie ∷ rest

-- The count that the function stores through `pcnt` is the length of the list.
unfoldable pub query_events : Queue → ℤ → ℤ → ℕ → ℕ → Text → List ℤ
query_events q lo hi mask flag app =
    let hi' = if leb_ℤ hi (pos 0) then int_max else hi in
    let lo' = if leb_ℤ lo (pos 0) then int_min else lo in query_loop q lo' hi' mask flag app q.count

-- The cookies of the entries that pass the test, from the end of the first `n`.
unfoldable pub collect : (Event → Bool) → Queue → ℕ → List ℤ
collect f q zero = []
collect f q (suc i) =
    let rest = collect f q i in
    if f (q.heap (q.by_trigger i)) then (q.heap (q.by_trigger i)).cookie ∷ rest else rest

-- An enabled event in the given state.
abbrev pub in_state : ℕ → Event → Bool
in_state state eve = not (has eve.flags event_disabled) && event_get_state eve == state

unfoldable pub query_by_state_loop : Queue → ℕ → ℕ → List ℤ
query_by_state_loop q state zero = []
query_by_state_loop q state (suc i) =
    let eve = q.heap (q.by_trigger i) in
    let rest = query_by_state_loop q state i in
    if has eve.flags event_disabled
    then rest
    else if event_get_state eve == state
    then eve.cookie ∷ rest
    else rest

unfoldable pub query_by_state : Queue → ℕ → List ℤ
query_by_state q state = query_by_state_loop q state q.count

unfoldable pub count_loop : (Event → Bool) → Queue → ℕ → ℕ → ℕ
count_loop f q cnt zero = cnt
count_loop f q cnt (suc i) =
    let eve = q.heap (q.by_trigger i) in
    count_loop f q (if has eve.flags event_disabled then cnt else if f eve then cnt + 1 else cnt) i

unfoldable pub count_by_state : Queue → ℕ → ℕ
count_by_state q state = count_loop (λ eve. event_get_state eve == state) q 0 q.count

unfoldable pub count_by_state_and_flag : Queue → ℕ → ℕ → ℕ
count_by_state_and_flag q state flag =
    count_loop (λ eve. event_get_state eve == state && has eve.flags flag) q 0 q.count

-- What a client asks for: not deleted, the trigger time in range, the flags and the application
-- as given.
abbrev pub wanted : ℤ → ℤ → ℕ → ℕ → Text → Event → Bool
wanted lo hi mask flag app eve =
    not (event_get_state eve == EventState.deleted)
    && leb_ℤ lo eve.trigger
    && leb_ℤ eve.trigger hi
    && bit_and eve.flags mask == flag
    && (is_empty app || not (other_app eve.alarm_appid app))

-- Behind the first entry that triggers too late there is nothing to be found.
collect_none :
    (f : Event → Bool) (q : Queue) (n : ℕ)
    → ((i : ℕ) → i < n → f (q.heap (q.by_trigger i)) ≡ false)
    → collect f q n ≡ []
unfolding collect
collect_none f q zero h = refl
collect_none f q (suc n) h = rw (h n (omega arith)) (collect_none f q n (λ i l. h i (omega arith)))

module _ {q : Queue} (v : IsValid q) where
  trigger-desc :
      (i j : ℕ)
      → i < j
      → j < q.count
      → (q.heap (q.by_trigger j)).trigger ≤ℤ (q.heap (q.by_trigger i)).trigger
  trigger-desc i j ij jn = unfold cmp_event_trigger in ground (arith, v.by_trigger_sorted i j ij jn)

  -- Neither an entry that triggers too late nor any before it is wanted.
  late :
      (lo hi : ℤ) (mask flag : ℕ) (app : Text) (n m : ℕ)
      → n < q.count
      → m ≤ suc n
      → hi <ℤ (q.heap (q.by_trigger n)).trigger
      → collect (wanted lo hi mask flag app) q m ≡ []
  late lo hi mask flag app n m h mn t = collect_none (wanted lo hi mask flag app) q m (λ i l.
      elim (Bool-cases (i == n)) [
        | inl same ↦ let e : i ≡ n = ground arith in rw e (ground arith)
        | inr below ↦ ground (arith, trigger-desc i n (ground arith) h)
      ])

  query_loop-collect :
      (lo hi : ℤ) (mask flag : ℕ) (app : Text) (n : ℕ)
      → n ≤ q.count
      → query_loop q lo hi mask flag app n ≡ collect (wanted lo hi mask flag app) q n
  unfolding query_loop
  query_loop-collect lo hi mask flag app zero h = unfold collect in refl
  query_loop-collect lo hi mask flag app (suc n) h =
      elim (Bool-cases (ltb_ℤ hi (q.heap (q.by_trigger n)).trigger)) [
        | inl over ↦ step over (query_loop-collect lo hi mask flag app n (omega arith))
        | inr fits ↦ keep fits (query_loop-collect lo hi mask flag app n (omega arith))
      ]
    where
      step :
          ltb_ℤ hi (q.heap (q.by_trigger n)).trigger ≡ true
          → query_loop q lo hi mask flag app n ≡ collect (wanted lo hi mask flag app) q n
          → query_loop q lo hi mask flag app (suc n)
            ≡ collect (wanted lo hi mask flag app) q (suc n)
      step over ih =
          rw (late lo hi mask flag app n (suc n) (omega arith) (omega arith) (ground arith))
            (ground (arith, ih, late lo hi mask flag app n n (omega arith) (omega arith)))

      keep :
          ltb_ℤ hi (q.heap (q.by_trigger n)).trigger ≡ false
          → query_loop q lo hi mask flag app n ≡ collect (wanted lo hi mask flag app) q n
          → query_loop q lo hi mask flag app (suc n)
            ≡ collect (wanted lo hi mask flag app) q (suc n)
      keep fits ih = unfold collect in ground (arith, ih)

  -- In a queue in order, queue_query_events gives the cookies of exactly the events that are wanted, the next to trigger
  -- first, although it stops at the first one that triggers too late. A bound at or below 0 is
  -- replaced by the limit of its side.
  pub query_events-collect :
      (lo hi : ℤ) (mask flag : ℕ) (app : Text)
      → query_events q lo hi mask flag app
        ≡ collect
            (wanted
              (if leb_ℤ lo (pos 0) then int_min else lo)
              (if leb_ℤ hi (pos 0) then int_max else hi)
              mask
              flag
              app)
            q
            q.count
  unfolding query_events
  query_events-collect lo hi mask flag app =
      query_loop-collect _ _ mask flag app q.count (omega arith)

query_by_state_loop-collect :
    (q : Queue) (state n : ℕ) → query_by_state_loop q state n ≡ collect (in_state state) q n
unfolding query_by_state_loop collect
query_by_state_loop-collect q state zero = refl
query_by_state_loop-collect q state (suc n) = ground (arith, query_by_state_loop-collect q state n)

pub query_by_state-collect :
    (q : Queue) (state : ℕ) → query_by_state q state ≡ collect (in_state state) q q.count
unfolding query_by_state
query_by_state-collect q state = query_by_state_loop-collect q state q.count

count_loop-collect :
    (f : Event → Bool) (q : Queue) (cnt n : ℕ)
    → count_loop f q cnt n
      ≡ cnt + length (collect (λ eve. not (has eve.flags event_disabled) && f eve) q n)
unfolding count_loop collect
count_loop-collect f q cnt zero = omega arith
count_loop-collect f q cnt (suc n) = ground (
  arith,
  count_loop-collect f q
      (if has (q.heap (q.by_trigger n)).flags event_disabled
        then cnt
        else if f (q.heap (q.by_trigger n))
        then cnt + 1
        else cnt)
      n,
)

-- queue_count_by_state counts what queue_query_by_state lists.
pub count_by_state-query_by_state :
    (q : Queue) (state : ℕ) → count_by_state q state ≡ length (query_by_state q state)
unfolding count_by_state
count_by_state-query_by_state q state =
    count_loop-collect (λ eve. event_get_state eve == state) q 0 q.count
    ∙ rw query_by_state-collect (omega arith)
