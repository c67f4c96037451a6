-- ===== src/Server/Actions.antt =====
-- src/server.c: the actions of an event, and the accessors that the state machine uses.
use alarmd.Common.{
  ℕ, zero, suc, ◌+◌, not, ◌&&◌, List, [], ◌∷◌, ◌++◌, Option, none, some, ℤ, pos, negsuc, leb_ℤ,
  ltb_ℤ, if◌then◌else◌, bit_and, update, ◌==◌,
}
use alarmd.Decimal.{print_signed}
use alarmd.Event.{Event, Action, Bytes, Text, has, set_bit, is_empty, event_disabled}
use alarmd.EventState
use alarmd.Queue.{event_set_state}
use alarmd.Server.{Server, run_command, send_message, with_queue, emit}

-- alarmactionflags, each the value of its one bit
abbrev pub type_snooze : ℕ
type_snooze = 0x1

abbrev pub type_dbus : ℕ
type_dbus = 0x2

abbrev pub type_exec : ℕ
type_exec = 0x4

abbrev pub type_disable : ℕ
type_disable = 0x400

abbrev pub type_mask : ℕ
type_mask = 0x407

abbrev pub when_queued : ℕ
when_queued = 0x10

abbrev pub when_triggered : ℕ
when_triggered = 0x20

abbrev pub when_responded : ℕ
when_responded = 0x40

abbrev pub when_deleted : ℕ
when_deleted = 0x80

abbrev pub when_disabled : ℕ
when_disabled = 0x200

abbrev pub when_delayed : ℕ
when_delayed = 0x800

abbrev pub when_mask : ℕ
when_mask = 0xaf0

abbrev pub dbus_use_activation : ℕ
dbus_use_activation = 0x1000

abbrev pub dbus_use_systembus : ℕ
dbus_use_systembus = 0x2000

abbrev pub dbus_add_cookie : ℕ
dbus_add_cookie = 0x4000

abbrev pub exec_add_cookie : ℕ
exec_add_cookie = 0x8000

abbrev pub action_get_type : Action → ℕ
action_get_type action = bit_and action.flags type_mask

abbrev pub action_get_when : Action → ℕ
action_get_when action = bit_and action.flags when_mask

-- Write through the event pointer `p`.
abbrev pub write_event : Server → ℕ → Event → Server
write_event s p e = with_queue s (record s.queue { heap = update s.queue.heap p e })

abbrev pub set_state : Server → ℕ → ℕ → Server
set_state s p state = with_queue s (event_set_state s.queue p state)

unfoldable pub do_snooze : Server → ℕ → Server
do_snooze s p = set_state s p EventState.snoozed

unfoldable pub do_disable : Server → ℕ → Server
do_disable s p =
    let e = s.queue.heap p in write_event s p (record e { flags = set_bit e.flags event_disabled })

-- `strstr(cmd, tag)`: what stands before the first occurrence of `tag`, and what stands behind it.
unfoldable pub drop_prefix : Bytes → Bytes → Option Bytes
drop_prefix [] cmd = some cmd
drop_prefix (t ∷ tag) [] = none
drop_prefix (t ∷ tag) (c ∷ cmd) = let rest = drop_prefix tag cmd in if t == c then rest else none

unfoldable pub split_tag : Bytes → Bytes → Option (Bytes × Bytes)
split_tag tag [] = elim (drop_prefix tag []) [ some behind ↦ some ([], behind) | none ↦ none ]
split_tag tag (c ∷ cmd) = elim (drop_prefix tag (c ∷ cmd)) [
  | some behind ↦ some ([], behind)
  | none ↦ elim (split_tag tag cmd) [
    | some (before, behind) ↦ some (c ∷ before, behind)
    | none ↦ none
  ]
]

-- "[COOKIE]"
abbrev pub cookie_tag : Bytes
cookie_tag = b'[' ∷ b'C' ∷ b'O' ∷ b'O' ∷ b'K' ∷ b'I' ∷ b'E' ∷ b']' ∷ []

-- The command line with the cookie in place of the tag, or at the end.
unfoldable pub with_cookie : ℤ → Bytes → Bytes
with_cookie cookie cmd = elim (split_tag cookie_tag cmd) [
  | some (before, behind) ↦ before ++ (print_signed cookie ++ behind)
  | none ↦ cmd ++ (b' ' ∷ print_signed cookie)
]

abbrev pub text_bytes : Text → Bytes
text_bytes none = []
text_bytes (some s) = s

unfoldable pub do_exec : Server → ℕ → Action → Server
do_exec s p action =
    let cmd = text_bytes action.exec_command in
    if is_empty action.exec_command
    then s
    else emit s (
        run_command (
          if has action.flags exec_add_cookie
          then with_cookie (s.queue.heap p).cookie cmd
          else cmd))

-- The message is handed to the connection: libdbus is taken to allocate it, and both buses to be open.
unfoldable pub do_dbus : Server → ℕ → Action → Server
do_dbus s p action =
    let method = not (is_empty action.dbus_service) in
    emit s (
      send_message (record {
        service = if method then action.dbus_service else none;
        path = action.dbus_path;
        interface = action.dbus_interface;
        name = action.dbus_name;
        auto_start = method && has action.flags dbus_use_activation;
        args = if is_empty action.dbus_args then none else action.dbus_args;
        cookie = if has action.flags dbus_add_cookie then some (s.queue.heap p).cookie else none;
        system_bus = has action.flags dbus_use_systembus;
      }))

-- server_action_do_all, with ALARMD_ACTION_BOOTFLAGS off
unfoldable pub do_all : Server → ℕ → Action → Server
do_all s p action =
    let flags = action_get_type action in
    let s1 = if has flags type_snooze then do_snooze s p else s in
    let s2 = if has flags type_disable then do_disable s1 p else s1 in
    let s3 = if has flags type_dbus then do_dbus s2 p action else s2 in
    if has flags type_exec then do_exec s3 p action else s3

unfoldable pub do_actions : List Action → Server → ℕ → ℕ → Server
do_actions [] s p when = s
do_actions (act ∷ acts) s p when =
    do_actions acts (if has (action_get_when act) when then do_all s p act else s) p when

-- server_event_do_state_actions. No action writes the action table that is walked.
unfoldable pub do_state_actions : Server → ℕ → ℕ → Server
do_state_actions s p when = do_actions (s.queue.heap p).action_tab s p when

unfoldable pub nth_action : List Action → ℕ → Option Action
nth_action [] i = none
nth_action (a ∷ as') zero = some a
nth_action (a ∷ as') (suc i) = nth_action as' i

-- `&eve->action_tab[eve->response]`, if the response is an index of the table
unfoldable pub response_action : List Action → ℤ → Option Action
response_action acts (pos i) = nth_action acts i
response_action acts (negsuc i) = none

unfoldable pub respond : Server → ℕ → Option Action → Server
respond s p none = s
respond s p (some act) = if has (action_get_when act) when_responded then do_all s p act else s

-- server_event_do_response_actions
unfoldable pub do_response_actions : Server → ℕ → Server
do_response_actions s p =
    let eve = s.queue.heap p in respond s p (response_action eve.action_tab eve.response)

-- server_event_get_boot_mask, with ALARMD_ACTION_BOOTFLAGS off
abbrev pub boot_mask : Event → ℕ
boot_mask eve = bit_and eve.flags 0x18

-- server_event_get_snooze
unfoldable pub event_get_snooze : Server → Event → ℤ
event_get_snooze s eve =
    let snooze = if leb_ℤ eve.snooze_secs (pos 0) then pos s.queue.snooze else eve.snooze_secs in
    if ltb_ℤ snooze (pos 10) then pos 10 else snooze

-- server_event_get_buttons, for the count alone
unfoldable pub count_buttons : List Action → ℕ
count_buttons [] = 0
count_buttons (act ∷ acts) =
    (if not (is_empty act.label) && has act.flags when_responded then 1 else 0) + count_buttons acts
