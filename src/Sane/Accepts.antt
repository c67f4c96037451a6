-- ===== src/Sane/Accepts.antt =====
-- Which events alarm_event_is_sane of src/event.c finds no error in.
use alarmd.Common.{
  ℕ, ◌+◌, ◌<◌, ◌^◌, ◌≡◌, ◌≢◌, ◌↔◌, refl, ltb, ◌==◌, Bool, true, false, not, ◌&&◌, ◌||◌, List, [],
  ◌∷◌, pos, negsuc, ltb_ℤ, leb_ℤ, eqb_ℤ, if◌then◌else◌, length, arith, ◌⊎◌, inl, inr, ap, ◌∙◌,
  eq_of_parts, ◌<ℤ◌, Bool-cases, eqb_yes,
}
use alarmd.Event.{is_empty, Action, Recur, Event, has}
use alarmd.Server.Actions.{type_dbus, type_exec, when_responded}
use alarmd.Sane.{
  Err, W_if, is_negative, is_button, is_active, check_action, check_actions, is_blank, check_recurs,
  check_event, check_recurrence, find_errors, is_sane,
}

abbrev any {ℓ} : {A : Type ℓ} → (A → Bool) → List A → Bool
any f [] = false
any f (x ∷ xs) = f x || any f xs

-- Whether the body of the loop finds an error in the action
is_bad : Action → Bool
is_bad act =
    (has act.flags when_responded && is_empty act.label)
    || ((has act.flags type_dbus
          && (is_empty act.dbus_interface || is_empty act.dbus_path || is_empty act.dbus_name))
        || (has act.flags type_exec && is_empty act.exec_command))

check_action-bad : (act : Action) (err : Err) → (check_action act err).0 ≡ is_bad act || err.0
unfolding check_action is_bad
check_action-bad act err = ground arith

check_actions-any :
    (acts : List Action) (a b : ℕ) (err : Err)
    → ((check_actions acts a b err).2.0 ≡ any is_bad acts || err.0)
      × (((check_actions acts a b err).0 == 0) ≡ (a == 0) && not (any is_active acts))
unfolding check_actions
check_actions-any [] a b err = ground arith
check_actions-any (act ∷ acts) a b err =
    let (e, n) =
      check_actions-any acts (if is_active act then a + 1 else a)
        (if is_button act then b + 1 else b) (check_action act err) in
    ground (arith, check_action-bad act err)

check_recurs-any :
    (recs : List Recur) (n : ℕ) (err : Err)
    → ((check_recurs recs n err).1.0 ≡ err.0)
      × (((check_recurs recs n err).0 == 0) ≡ (n == 0) && not (any (λ r. not (is_blank r)) recs))
unfolding check_recurs
check_recurs-any [] n err = ground arith
check_recurs-any (rec ∷ recs) n err =
    let (e, m) =
      check_recurs-any recs (if is_blank rec then n else n + 1) (W_if (is_blank rec) err) in
    ground arith

-- A button has a label, a D-Bus action what is needed for a message, and a command action a command.
pub record IsUsable (act : Action) : Type 0 where
  pub label : has act.flags when_responded ≡ true → is_empty act.label ≡ false
  pub interface : has act.flags type_dbus ≡ true → is_empty act.dbus_interface ≡ false
  pub path : has act.flags type_dbus ≡ true → is_empty act.dbus_path ≡ false
  pub name : has act.flags type_dbus ≡ true → is_empty act.dbus_name ≡ false
  pub command : has act.flags type_exec ≡ true → is_empty act.exec_command ≡ false

abbrev pub AllUsable : List Action → Type 0
AllUsable [] = Unit {0}
AllUsable (act ∷ acts) = IsUsable act × AllUsable acts

is_bad-IsUsable : (act : Action) → (is_bad act ≡ false) ↔ IsUsable act
unfolding is_bad
is_bad-IsUsable act = (
  λ h. record {
    label = λ e. ground arith;
    interface = λ e. ground arith;
    path = λ e. ground arith;
    name = λ e. ground arith;
    command = λ e. ground arith;
  },
  λ u. ground (arith, u.label, u.interface, u.path, u.name, u.command),
)

any-AllUsable : (acts : List Action) → (any is_bad acts ≡ false) ↔ AllUsable acts
any-AllUsable [] = (λ h. tt, λ h. refl)
any-AllUsable (act ∷ acts) = (
  λ h. ((is_bad-IsUsable act).0 (ground arith), (any-AllUsable acts).0 (ground arith)),
  λ (u, us). ground (arith, (is_bad-IsUsable act).1 u, (any-AllUsable acts).1 us),
)

-- How an event recurs: not at all, at an interval, or by a table with an entry that asks for
-- something; never both.
abbrev pub Recurs : Event → Type 0
Recurs event =
    ((event.recur_count ≡ pos 0) × (event.recur_secs ≡ pos 0) × (event.recurrence_tab ≡ []))
    ⊎ (((event.recur_count ≢ pos 0) × (pos 0 <ℤ event.recur_secs) × (event.recurrence_tab ≡ []))
        ⊎ ((event.recur_count ≢ pos 0)
            × (event.recur_secs ≡ pos 0)
            × (any (λ r. not (is_blank r)) event.recurrence_tab ≡ true)))

pub record IsAcceptable (event : Event) : Type 0 where
  pub appid : is_empty event.alarm_appid ≡ false
  pub active : any is_active event.action_tab ≡ true
  pub usable : AllUsable event.action_tab
  pub recurs : Recurs event

-- The conditions on recurrence under which an error is found
bad_recurrence : Event → Bool
bad_recurrence event =
    let recurs = not (eqb_ℤ event.recur_count (pos 0)) in
    let cnt = length event.recurrence_tab in
    ltb_ℤ event.recur_secs (pos 0)
    || ((recurs
          && leb_ℤ event.recur_secs (pos 0)
          && not (any (λ r. not (is_blank r)) event.recurrence_tab))
        || ((not recurs && (ltb_ℤ (pos 0) event.recur_secs || ltb 0 cnt))
            || (ltb_ℤ (pos 0) event.recur_secs && ltb 0 cnt)))

is_negative-small : (n : ℕ) → n < 2 ^ 31 → is_negative n ≡ false
is_negative-small n h = ground arith

any-empty {ℓ} :
    {A : Type ℓ} (f : A → Bool) (xs : List A) → (length xs == 0) ≡ true → any f xs ≡ false
any-empty f [] h = refl
any-empty f (x ∷ xs) h = ground arith

-- The order in which the errors are collected does not matter.
regroup :
    (appid bad active masks none_a none_r recurs below at_most above some_r : Bool)
    → (none_a ≡ true → active ≡ false)
    → (none_r ≡ true → masks ≡ false)
    → (above && some_r
        || (some_r && not recurs
            || (above && not recurs
                || (recurs && at_most && not none_r && not masks
                    || (recurs && at_most && none_r
                        || (below
                            || (not none_a && not active
                                || (none_a || (bad || (appid || false))))))))))
      ≡ appid
        || (bad
            || (not active
                || (below
                    || (recurs && at_most && not masks
                        || (not recurs && (above || some_r) || above && some_r)))))
regroup true bad active masks none_a none_r recurs below at_most above some_r f g = ground arith
regroup false true active masks none_a none_r recurs below at_most above some_r f g = ground arith
regroup false false false masks none_a none_r recurs below at_most above some_r f g = ground arith
regroup false false true masks none_a none_r recurs below at_most above some_r f g = ground arith

check_event-errors :
    (event : Event) (a b : ℕ) (err : Err)
    → length event.recurrence_tab < 2 ^ 31
    → (check_event event a b err).0
      ≡ ltb_ℤ event.recur_secs (pos 0)
        || (not (length event.action_tab == 0) && (a == 0)
            || (length event.action_tab == 0 || err.0))
unfolding check_event
check_event-errors event a b err m = rw (is_negative-small _ m) refl

find_errors-looped :
    (event : Event)
    → length event.action_tab < 2 ^ 31
    → length event.recurrence_tab < 2 ^ 31
    → find_errors event ≡ (
        let (actions, buttons, err) =
          check_actions event.action_tab 0 0 (is_empty event.alarm_appid || false, false) in
        let (recmasks, err') =
          check_recurs event.recurrence_tab 0 (check_event event actions buttons err) in
        check_recurrence event recmasks err')
unfolding find_errors
find_errors-looped event l m = rw (is_negative-small _ l, is_negative-small _ m) refl

find_errors-any :
    (event : Event)
    → length event.action_tab < 2 ^ 31
    → length event.recurrence_tab < 2 ^ 31
    → (find_errors event).0
      ≡ is_empty event.alarm_appid
        || (any is_bad event.action_tab
            || (not (any is_active event.action_tab) || bad_recurrence event))
unfolding bad_recurrence check_recurrence
find_errors-any event l m =
    let start : Err = (is_empty event.alarm_appid || false, false) in
    let (e, n) = check_actions-any event.action_tab 0 0 start in
    let (actions, buttons, err) = check_actions event.action_tab 0 0 start in
    let (e', n') =
      check_recurs-any event.recurrence_tab 0 (check_event event actions buttons err) in
    ap (λ (r : Err). r.0) (find_errors-looped event l m)
    ∙ rw (e', n', check_event-errors event actions buttons err m, e, n)
        (regroup (is_empty event.alarm_appid) (any is_bad event.action_tab)
          (any is_active event.action_tab) (any (λ r. not (is_blank r)) event.recurrence_tab)
          (length event.action_tab == 0) (length event.recurrence_tab == 0)
          (not (eqb_ℤ event.recur_count (pos 0))) (ltb_ℤ event.recur_secs (pos 0))
          (leb_ℤ event.recur_secs (pos 0)) (ltb_ℤ (pos 0) event.recur_secs)
          (ltb 0 (length event.recurrence_tab)) (any-empty is_active event.action_tab)
          (any-empty (λ r. not (is_blank r)) event.recurrence_tab))

no_entries : (tab : List Recur) → ltb 0 (length tab) ≡ false → tab ≡ []
no_entries [] h = refl
no_entries (r ∷ tab) h = ground arith

bad_recurrence-Recurs : (event : Event) → (bad_recurrence event ≡ false) ↔ Recurs event
unfolding bad_recurrence
bad_recurrence-Recurs event = (
  λ h. elim (Bool-cases (eqb_ℤ event.recur_count (pos 0))) [
    | inl once ↦ inl (
      eq_of_parts event.recur_count (pos 0) (ground arith),
      eq_of_parts event.recur_secs (pos 0) (ground arith),
      no_entries event.recurrence_tab (ground arith),
    )
    | inr again ↦
        let n : event.recur_count ≢ pos 0 = λ e. (let z = eqb_yes e in cc) in
        elim (Bool-cases (ltb_ℤ (pos 0) event.recur_secs)) [
          | inl secs ↦ inr (inl (n, ground arith, no_entries event.recurrence_tab (ground arith)))
          | inr none_set ↦
              inr (inr (n, eq_of_parts event.recur_secs (pos 0) (ground arith), ground arith))
        ]
  ],
  λ r. ground arith,
)

pub is_sane-IsAcceptable :
    (event : Event)
    → length event.action_tab < 2 ^ 31
    → length event.recurrence_tab < 2 ^ 31
    → (is_sane event ≢ negsuc 0) ↔ IsAcceptable event
unfolding is_sane
is_sane-IsAcceptable event l m =
    let e = find_errors-any event l m in
    let us = any-AllUsable event.action_tab in
    let rs = bad_recurrence-Recurs event in
    (
      λ h. record {
        appid = ground arith;
        active = ground arith;
        usable = us.0 (ground arith);
        recurs = rs.0 (ground arith);
      },
      λ a. let u = us.1 a.usable in let r = rs.1 a.recurs in ground (arith, a.appid, a.active),
    )
