-- ===== src/Codec.antt =====
-- src/codec.c: events as arguments of a D-Bus message, over the calls of libdbus that it makes.
-- An encoder appends to a message, a decoder moves an iterator over one; both carry `err`.
use alarmd.Common.{
  ℕ, zero, suc, ◌%◌, ◌^◌, Bool, true, false, ◌&&◌, not, Option, none, some, List, [], ◌∷◌, ◌++◌, ℤ,
  pos, eqb_ℤ, if◌then◌else◌, length, ◌>>=◌, ◌▹◌,
}
use alarmd.Event.{
  Bytes, Text, Tm, Action, Recur, Event, Attr, AttrData, zeroed, ival, tval, sval, has,
}
use alarmd.Attributes.{or_empty, attr_int, attr_time, attr_string, read_ival, read_tval, read_sval}
use alarmd.Server.Actions.{type_dbus}
use alarmd.Strbuf.Values.{residue, wrap}
use mathlib.Core.Option
pub mod Decoder
pub mod Carried
pub mod Gives
pub mod RoundTrip
pub mod Hostile

-- An argument with its type; `other` has a type that no event uses.
pub data BusArg : Type 0 where
  uint32 : ℕ → BusArg
  uint64 : ℕ → BusArg
  int32 : ℤ → BusArg
  string : Bytes → BusArg
  other : BusArg

-- dbus_message_iter_append_basic; the pair of dbus_message_iter_get_arg_type, which is `none` at
-- the end, and dbus_message_iter_get_basic; dbus_message_iter_next; and dbus_message_iter_init on
-- the message where it is received
pub record Libdbus : Type 1 where
  pub BusMessage : Type 0
  pub Iter : Type 0
  pub append_basic : BusMessage → BusArg → BusMessage × Bool
  pub peek : Iter → Option BusArg
  pub next_arg : Iter → Iter
  pub received : BusMessage → Iter

-- `use_args`, and what is left of `*def_args`
abbrev pub use_args : Action → Text → Text × Text
use_args act def_args =
    if has act.flags type_dbus
    then (elim act.dbus_args [ none ↦ (def_args, none) | some s ↦ (some s, def_args) ])
    else (act.dbus_args, def_args)

module _ (dbus : Libdbus) where
  open dbus use {BusMessage, Iter, append_basic, peek}

  abbrev pub Sink : Type 0
  Sink = BusMessage × Bool

  -- All encoders append one argument so.
  unfoldable pub encode_basic : BusArg → Sink → Sink
  encode_basic val (iter, true) = (iter, true)
  encode_basic val (iter, false) = let (iter', done) = append_basic iter val in (iter', not done)

  -- encode_uint32 and encode_unsigned
  unfoldable pub encode_uint32 : ℕ → Sink → Sink
  encode_uint32 val = encode_basic (uint32 val)

  unfoldable pub encode_uint64 : ℕ → Sink → Sink
  encode_uint64 val = encode_basic (uint64 val)

  unfoldable pub encode_int : ℤ → Sink → Sink
  encode_int val = encode_basic (int32 val)

  unfoldable pub encode_string : Text → Sink → Sink
  encode_string val = encode_basic (string (or_empty val))

  unfoldable pub encode_size : ℕ → Sink → Sink
  unfolding encode_uint32
  encode_size val = encode_uint32 (val % 2 ^ 32)

  unfoldable pub encode_cookie : ℤ → Sink → Sink
  unfolding encode_uint32
  encode_cookie val = encode_uint32 (residue 32 val)

  unfoldable pub encode_time : ℤ → Sink → Sink
  unfolding encode_int
  encode_time val = encode_int (wrap 32 val)

  unfoldable pub encode_tm : Tm → Sink → Sink
  unfolding encode_int
  encode_tm tm s =
      s
      ▹ encode_int tm.tm_sec
      ▹ encode_int tm.tm_min
      ▹ encode_int tm.tm_hour
      ▹ encode_int tm.tm_mday
      ▹ encode_int tm.tm_mon
      ▹ encode_int tm.tm_year
      ▹ encode_int tm.tm_wday
      ▹ encode_int tm.tm_yday
      ▹ encode_int tm.tm_isdst

  unfoldable pub encode_action : Action → Text → Sink → Sink
  unfolding encode_uint32 encode_string
  encode_action act def_args s =
      s
      ▹ encode_uint32 act.flags
      ▹ encode_string act.label
      ▹ encode_string act.exec_command
      ▹ encode_string act.dbus_interface
      ▹ encode_string act.dbus_service
      ▹ encode_string act.dbus_path
      ▹ encode_string act.dbus_name
      ▹ encode_string (use_args act def_args).0

  unfoldable pub encode_recur : Recur → Sink → Sink
  unfolding encode_uint32 encode_uint64
  encode_recur rec s =
      s
      ▹ encode_uint64 rec.mask_min
      ▹ encode_uint32 rec.mask_hour
      ▹ encode_uint32 rec.mask_mday
      ▹ encode_uint32 rec.mask_wday
      ▹ encode_uint32 rec.mask_mon
      ▹ encode_uint32 rec.special

  -- `none` where the member that the type calls for is not the one that was written.
  unfoldable pub encode_attr : Attr → Sink → Option Sink
  unfolding encode_string encode_int encode_time
  encode_attr att s =
      let s' = s ▹ encode_string (some att.attr_name) ▹ encode_int att.attr_type in
      if eqb_ℤ att.attr_type attr_int
      then Option.map (λ n. encode_int n s') (read_ival att.attr_data)
      else if eqb_ℤ att.attr_type attr_time
      then Option.map (λ n. encode_time n s') (read_tval att.attr_data)
      else if eqb_ℤ att.attr_type attr_string
      then Option.map (λ t. encode_string t s') (read_sval att.attr_data)
      else some s'

  -- The three loops of encode_event
  unfoldable pub encode_actions : List Action → Text → Sink → Sink × Text
  encode_actions [] def_args s = (s, def_args)
  encode_actions (act ∷ acts) def_args s =
      encode_actions acts (use_args act def_args).1 (encode_action act def_args s)

  unfoldable pub encode_recurs : List Recur → Sink → Sink
  encode_recurs [] s = s
  encode_recurs (rec ∷ recs) s = encode_recurs recs (encode_recur rec s)

  unfoldable pub encode_attrs : List Attr → Sink → Option Sink
  encode_attrs [] s = some s
  encode_attrs (att ∷ atts) s = encode_attr att s >>= encode_attrs atts

  unfoldable pub encode_head : Event → Sink → Sink
  unfolding encode_cookie encode_time encode_string encode_uint32 encode_tm encode_int encode_size
  encode_head eve s =
      s
      ▹ encode_cookie eve.cookie
      ▹ encode_time eve.trigger
      ▹ encode_string eve.title
      ▹ encode_string eve.message
      ▹ encode_string eve.sound
      ▹ encode_string eve.icon
      ▹ encode_uint32 eve.flags
      ▹ encode_string eve.alarm_appid
      ▹ encode_time eve.alarm_time
      ▹ encode_tm eve.alarm_tm
      ▹ encode_string eve.alarm_tz
      ▹ encode_time eve.recur_secs
      ▹ encode_int eve.recur_count
      ▹ encode_time eve.snooze_secs
      ▹ encode_time eve.snooze_total
      ▹ encode_size (length eve.action_tab)
      ▹ encode_int eve.response

  -- With what is left of `*def_args`
  unfoldable pub encode_event : Event → Text → Sink → Option (Sink × Text)
  unfolding encode_size
  encode_event eve def_args s =
      let (s1, rest) = encode_actions eve.action_tab def_args (encode_head eve s) in
      let s2 = s1 ▹ encode_size (length eve.recurrence_tab) ▹ encode_recurs eve.recurrence_tab in
      Option.map (λ s3. (s3, rest))
        (encode_attrs eve.attr_tab (encode_size (length eve.attr_tab) s2))
