-- ===== src/Server/Rethink/Told.antt =====
-- The messages and the commands of an event's actions, and the steps that run actions with them.
use alarmd.Common.{
  ℕ, Bool, true, false, List, [], ◌∷◌, ◌++◌, Option, none, some, ℤ, if◌then◌else◌, ◌≡◌, refl, sym,
  ap, ap₂, ◌∙◌, arith, Bool-cases, inl, inr,
}
use mathlib.Core.List.{append_assoc, append-nil}
use alarmd.Event.{Action, Text, has, is_empty}
use alarmd.Server.{Server, Effect, Message, run_command, send_message, emit}
use alarmd.Server.Actions
use alarmd.Queue.{event_set_state, with_state}

-- The message of a D-Bus action: a call of the service, or a signal if there is none, with the
-- cookie if the action asks for it
pub message_of : Action → ℤ → Message
message_of a cookie =
    let cookie_arg = if has a.flags Actions.dbus_add_cookie then some cookie else none in
    let args = if is_empty a.dbus_args then none else a.dbus_args in
    let system_bus = has a.flags Actions.dbus_use_systembus in
    if is_empty a.dbus_service
    then record {
      service = none;
      path = a.dbus_path;
      interface = a.dbus_interface;
      name = a.dbus_name;
      auto_start = false;
      args = args;
      cookie = cookie_arg;
      system_bus = system_bus;
    }
    else record {
      service = a.dbus_service;
      path = a.dbus_path;
      interface = a.dbus_interface;
      name = a.dbus_name;
      auto_start = has a.flags Actions.dbus_use_activation;
      args = args;
      cookie = cookie_arg;
      system_bus = system_bus;
    }

-- The command of a command action, if there is one, with the cookie in it if the action asks for it
pub command_line : Text → Bool → ℤ → List Effect
command_line none add cookie = []
command_line (some []) add cookie = []
command_line (some (c ∷ cmd)) add cookie =
    run_command (if add then Actions.with_cookie cookie (c ∷ cmd) else c ∷ cmd) ∷ []

pub command_of : Action → ℤ → List Effect
command_of a cookie = command_line a.exec_command (has a.flags Actions.exec_add_cookie) cookie

-- What one action does to the outside, the command first, which is run last
pub told : Action → ℤ → List Effect
told a cookie =
    (if has (Actions.action_get_type a) Actions.type_exec then command_of a cookie else [])
    ++ (if has (Actions.action_get_type a) Actions.type_dbus
        then send_message (message_of a cookie) ∷ []
        else [])

-- What the actions that are due at `when` do, those of the last one first
pub told_all : List Action → ℕ → ℤ → List Effect
told_all [] when cookie = []
told_all (a ∷ acts) when cookie =
    told_all acts when cookie
    ++ (if has (Actions.action_get_when a) when then told a cookie else [])

do_dbus-told :
    (s : Server) (p : ℕ) (a : Action)
    → (Actions.do_dbus s p a).effects
      ≡ send_message (message_of a (s.queue.heap p).cookie) ∷ s.effects
unfolding Actions.do_dbus message_of
do_dbus-told s p a = elim (Bool-cases (is_empty a.dbus_service)) [
  | inl e ↦ rw e refl
  | inr e ↦ rw e refl
]

command-told :
    (cmd : Text) (add : Bool) (cookie : ℤ) (s : Server)
    → (if is_empty cmd
        then s
        else emit s (
            run_command (
              if add
              then Actions.with_cookie cookie (Actions.text_bytes cmd)
              else Actions.text_bytes cmd))).effects
      ≡ command_line cmd add cookie ++ s.effects
unfolding command_line is_empty
command-told none add cookie s = refl
command-told (some []) add cookie s = refl
command-told (some (c ∷ cmd)) add cookie s = refl

do_exec-told :
    (s : Server) (p : ℕ) (a : Action)
    → (Actions.do_exec s p a).effects ≡ command_of a (s.queue.heap p).cookie ++ s.effects
unfolding Actions.do_exec command_of
do_exec-told s p a = command-told a.exec_command _ (s.queue.heap p).cookie s

-- Snoozing and disabling say nothing and leave the cookie.
quiet :
    (snooze disable : Bool) (s : Server) (p : ℕ)
    → let s1 = if snooze then Actions.do_snooze s p else s in
      let s2 = if disable then Actions.do_disable s1 p else s1 in
      (s2.effects ≡ s.effects) × ((s2.queue.heap p).cookie ≡ (s.queue.heap p).cookie)
unfolding Actions.do_snooze Actions.do_disable event_set_state with_state
quiet true true s p = (refl, ground arith)
quiet true false s p = (refl, ground arith)
quiet false true s p = (refl, ground arith)
quiet false false s p = (refl, refl)

-- The two kinds of actions that speak, one after the other
loud :
    (dbus exec : Bool) (s : Server) (p : ℕ) (a : Action)
    → let s3 = if dbus then Actions.do_dbus s p a else s in
      (if exec then Actions.do_exec s3 p a else s3).effects
      ≡ ((if exec then command_of a (s.queue.heap p).cookie else [])
          ++ (if dbus then send_message (message_of a (s.queue.heap p).cookie) ∷ [] else []))
        ++ s.effects
loud false false s p a = refl
loud true false s p a = do_dbus-told s p a
loud false true s p a =
    do_exec-told s p a
    ∙ ap (λ l. l ++ s.effects) (sym (append-nil (command_of a (s.queue.heap p).cookie)))
loud true true s p a =
    let cookie : ((Actions.do_dbus s p a).queue.heap p).cookie ≡ (s.queue.heap p).cookie =
      unfold Actions.do_dbus in refl in
    do_exec-told (Actions.do_dbus s p a) p a
    ∙ ap₂ (λ c l. command_of a c ++ l) cookie (do_dbus-told s p a)
    ∙ sym (
        append_assoc (command_of a (s.queue.heap p).cookie)
          (send_message (message_of a (s.queue.heap p).cookie) ∷ []) s.effects)

loud_cookie :
    (dbus exec : Bool) (s : Server) (p : ℕ) (a : Action)
    → let s3 = if dbus then Actions.do_dbus s p a else s in
      ((if exec then Actions.do_exec s3 p a else s3).queue.heap p).cookie ≡ (s.queue.heap p).cookie
unfolding Actions.do_dbus Actions.do_exec
loud_cookie dbus exec s p a = ground arith

do_all-told :
    (s : Server) (p : ℕ) (a : Action)
    → (Actions.do_all s p a).effects ≡ told a (s.queue.heap p).cookie ++ s.effects
unfolding Actions.do_all told
do_all-told s p a =
    let snooze = has (Actions.action_get_type a) Actions.type_snooze in
    let disable = has (Actions.action_get_type a) Actions.type_disable in
    let s1 = if snooze then Actions.do_snooze s p else s in
    let s2 = if disable then Actions.do_disable s1 p else s1 in
    let (e, c) = quiet snooze disable s p in loud _ _ s2 p a ∙ rw (e, c) refl

do_all-cookie :
    (s : Server) (p : ℕ) (a : Action)
    → ((Actions.do_all s p a).queue.heap p).cookie ≡ (s.queue.heap p).cookie
unfolding Actions.do_all
do_all-cookie s p a =
    let snooze = has (Actions.action_get_type a) Actions.type_snooze in
    let disable = has (Actions.action_get_type a) Actions.type_disable in
    let s1 = if snooze then Actions.do_snooze s p else s in
    let s2 = if disable then Actions.do_disable s1 p else s1 in
    loud_cookie _ _ s2 p a ∙ (quiet snooze disable s p).1

do_actions-told :
    (acts : List Action) (when : ℕ) (s : Server) (p : ℕ)
    → (Actions.do_actions acts s p when).effects
      ≡ told_all acts when (s.queue.heap p).cookie ++ s.effects
unfolding Actions.do_actions told_all
do_actions-told [] when s p = refl
do_actions-told (a ∷ acts) when s p = elim (Bool-cases (has (Actions.action_get_when a) when)) [
  | inl due ↦
      rw (due, Actions.do_actions)
        (do_actions-told acts when (Actions.do_all s p a) p
          ∙ ap₂ (λ c l. told_all acts when c ++ l) (do_all-cookie s p a) (do_all-told s p a)
          ∙ sym (
              append_assoc (told_all acts when (s.queue.heap p).cookie)
                (told a (s.queue.heap p).cookie) s.effects))
  | inr idle ↦
      rw (idle, Actions.do_actions)
        (do_actions-told acts when s p
          ∙ ap (λ l. l ++ s.effects)
              (sym (append-nil (told_all acts when (s.queue.heap p).cookie))))
]

pub do_state_actions-told :
    (when : ℕ) (s : Server) (p : ℕ)
    → (Actions.do_state_actions s p when).effects
      ≡ told_all (s.queue.heap p).action_tab when (s.queue.heap p).cookie ++ s.effects
unfolding Actions.do_state_actions
do_state_actions-told when s p = do_actions-told (s.queue.heap p).action_tab when s p

-- The action of the button, if it is due on a response
pub told_response : Option Action → ℤ → List Effect
told_response none cookie = []
told_response (some a) cookie =
    if has (Actions.action_get_when a) Actions.when_responded then told a cookie else []

pub respond-told :
    (o : Option Action) (s : Server) (p : ℕ)
    → (Actions.respond s p o).effects ≡ told_response o (s.queue.heap p).cookie ++ s.effects
unfolding Actions.respond told_response
respond-told none s p = refl
respond-told (some a) s p =
    elim (Bool-cases (has (Actions.action_get_when a) Actions.when_responded)) [
      | inl due ↦ rw due (do_all-told s p a)
      | inr idle ↦ rw idle refl
    ]
