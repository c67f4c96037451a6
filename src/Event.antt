-- ===== src/Event.antt =====
-- The alarm event and its parts: alarm_event_t, alarm_action_t and alarm_recur_t of src/libalarm.h
-- with the flags that the queue and the server read, and two accessors of src/event.c.
-- A `char *` is `none` for NULL and else its bytes.
use alarmd.Common.{
  ℕ, ◌+◌, ◌/◌, ◌%◌, Bool, true, false, not, ◌&&◌, ◌||◌, Option, none, some, List, [], ◌∷◌, ℤ, pos,
  ltb_ℤ, eqb_ℤ, ltb, ◌==◌, if◌then◌else◌, length, ◌≡◌, ◌↔◌, arith,
}

abbrev pub Bytes : Type 0
Bytes = List ℕ

abbrev pub Text : Type 0
Text = Option Bytes

unfoldable pub bytes_eq : Bytes → Bytes → Bool
bytes_eq [] [] = true
bytes_eq (a ∷ s) (b ∷ t) = a == b && bytes_eq s t
bytes_eq _ _ = false

pub bytes_eq_iff : (s t : Bytes) → (bytes_eq s t ≡ true) ↔ (s ≡ t)
unfolding bytes_eq
bytes_eq_iff [] [] = ground arith
bytes_eq_iff [] (b ∷ t) = ground arith
bytes_eq_iff (a ∷ s) [] = ground arith
bytes_eq_iff (a ∷ s) (b ∷ t) = ground (arith, bytes_eq_iff s t)

-- xisempty
unfoldable pub is_empty : Text → Bool
is_empty none = true
is_empty (some []) = true
is_empty (some (c ∷ s)) = false

-- `struct tm`
pub record Tm : Type 0 where
  pub tm_sec : ℤ
  pub tm_min : ℤ
  pub tm_hour : ℤ
  pub tm_mday : ℤ
  pub tm_mon : ℤ
  pub tm_year : ℤ
  pub tm_wday : ℤ
  pub tm_yday : ℤ
  pub tm_isdst : ℤ

pub record Action : Type 0 where
  pub flags : ℕ
  pub label : Text
  pub exec_command : Text
  pub dbus_interface : Text
  pub dbus_service : Text
  pub dbus_path : Text
  pub dbus_name : Text
  pub dbus_args : Text

pub record Recur : Type 0 where
  pub mask_min : ℕ
  pub mask_hour : ℕ
  pub mask_mday : ℕ
  pub mask_wday : ℕ
  pub mask_mon : ℕ
  pub special : ℕ

-- The member of the union that was written last; `zeroed` before any of them
pub data AttrData : Type 0 where
  zeroed : AttrData
  ival : ℤ → AttrData
  tval : ℤ → AttrData
  sval : Bytes → AttrData

pub record Attr : Type 0 where
  pub attr_name : Bytes
  pub attr_type : ℤ
  pub attr_data : AttrData

-- The tables are their counts and their entries at once.
pub record Event : Type 0 where
  pub cookie : ℤ
  pub trigger : ℤ
  pub title : Text
  pub message : Text
  pub sound : Text
  pub icon : Text
  pub flags : ℕ
  pub alarm_appid : Text
  pub alarm_time : ℤ
  pub alarm_tm : Tm
  pub alarm_tz : Text
  pub recur_secs : ℤ
  pub recur_count : ℤ
  pub snooze_secs : ℤ
  pub snooze_total : ℤ
  pub action_tab : List Action
  pub recurrence_tab : List Recur
  pub attr_tab : List Attr
  pub response : ℤ

abbrev pub zero_tm : Tm
zero_tm = record {
  tm_sec = pos 0;
  tm_min = pos 0;
  tm_hour = pos 0;
  tm_mday = pos 0;
  tm_mon = pos 0;
  tm_year = pos 0;
  tm_wday = pos 0;
  tm_yday = pos 0;
  tm_isdst = pos 0;
}

-- All bits zero, as a designated initialiser leaves the fields that it does not name.
abbrev pub zero_event : Event
zero_event = record {
  cookie = pos 0;
  trigger = pos 0;
  title = none;
  message = none;
  sound = none;
  icon = none;
  flags = 0;
  alarm_appid = none;
  alarm_time = pos 0;
  alarm_tm = zero_tm;
  alarm_tz = none;
  recur_secs = pos 0;
  recur_count = pos 0;
  snooze_secs = pos 0;
  snooze_total = pos 0;
  action_tab = [];
  recurrence_tab = [];
  attr_tab = [];
  response = pos 0;
}

-- alarmeventflags, each the value of its one bit
abbrev pub event_boot : ℕ
event_boot = 0x8

abbrev pub event_actdead : ℕ
event_actdead = 0x10

abbrev pub event_show_icon : ℕ
event_show_icon = 0x20

abbrev pub event_run_delayed : ℕ
event_run_delayed = 0x40

abbrev pub event_connected : ℕ
event_connected = 0x80

abbrev pub event_postpone_delayed : ℕ
event_postpone_delayed = 0x200

abbrev pub event_back_reschedule : ℕ
event_back_reschedule = 0x400

abbrev pub event_disabled : ℕ
event_disabled = 0x800

abbrev pub event_disable_delayed : ℕ
event_disable_delayed = 0x1000

-- 1 << ALARM_EVENT_CLIENT_BITS: the bits below it are the client's.
abbrev pub client_range : ℕ
client_range = 0x10000

-- `flags & bit`, for the value `bit` of one bit
abbrev pub has : ℕ → ℕ → Bool
has flags bit = flags / bit % 2 == 1

-- `flags | bit`
abbrev pub set_bit : ℕ → ℕ → ℕ
set_bit flags bit = if has flags bit then flags else flags + bit

-- alarm_event_is_recurring
unfoldable pub is_recurring : Event → Bool
is_recurring self =
    not (eqb_ℤ self.recur_count (pos 0))
    && (ltb_ℤ (pos 0) self.recur_secs || ltb 0 (length self.recurrence_tab))
