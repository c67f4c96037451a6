-- ===== src/Codec/Decoder.antt =====
-- The decoders of src/codec.c. `none` is a call that frees what is no allocated text.
use alarmd.Common.{
  ℕ, zero, suc, Bool, true, false, Option, none, some, List, [], ◌∷◌, ℤ, pos, eqb_ℤ, if◌then◌else◌,
}
use alarmd.Event.{Bytes, Text, Tm, Action, Recur, Event, Attr, AttrData, zeroed, ival, tval, sval}
use alarmd.Attributes.{
  or_empty, attr_int, attr_time, attr_string, add_attr, modify, get_elem?, attr_create,
}
use alarmd.Strbuf.Values.{wrap}
use alarmd.Codec.{Libdbus, uint32, uint64, int32, string}

-- Whether `free` may be called on the member `sval`
abbrev pub can_free : AttrData → Bool
can_free zeroed = true
can_free (sval s) = true
can_free (ival n) = eqb_ℤ n (pos 0)
can_free (tval n) = eqb_ℤ n (pos 0)

-- "\x7f", the name that an attribute has until it is read
abbrev pub unread_name : Bytes
unread_name = 127 ∷ []

unfoldable pub attr_at : List Attr → ℕ → Attr
attr_at tab i = elim (get_elem? tab i) [ some att ↦ att | none ↦ attr_create unread_name ]

module _ (dbus : Libdbus) where
  open dbus use {Iter, peek, next_arg}

  abbrev pub Source : Type 0
  Source = Iter × Bool

  abbrev pub Decode : Type 0 → Type 0
  Decode A = Source → Option (A × Source)

  infixl 5 ◌>>=◌
  unfoldable pub ◌>>=◌ : {A B : Type 0} → Decode A → (A → Decode B) → Decode B
  ◌>>=◌ m f s = elim (m s) [ none ↦ none | some (a, s') ↦ f a s' ]

  abbrev pub pure : {A : Type 0} → A → Decode A
  pure a s = some (a, s)

  -- decode_uint32 and decode_unsigned
  unfoldable pub decode_uint32 : Decode ℕ
  decode_uint32 (iter, true) = some (0, (iter, true))
  decode_uint32 (iter, false) = elim (peek iter) [
    | some (uint32 val) ↦ some (val, (next_arg iter, false))
    | _ ↦ some (0, (iter, true))
  ]

  unfoldable pub decode_uint64 : Decode ℕ
  decode_uint64 (iter, true) = some (0, (iter, true))
  decode_uint64 (iter, false) = elim (peek iter) [
    | some (uint64 val) ↦ some (val, (next_arg iter, false))
    | _ ↦ some (0, (iter, true))
  ]

  unfoldable pub decode_int : Decode ℤ
  decode_int (iter, true) = some (pos 0, (iter, true))
  decode_int (iter, false) = elim (peek iter) [
    | some (int32 val) ↦ some (val, (next_arg iter, false))
    | _ ↦ some (pos 0, (iter, true))
  ]

  -- The test is `err != 0`, on the pointer: a text is read after an error too.
  unfoldable pub decode_string : Decode Text
  decode_string (iter, err) = elim (peek iter) [
    | some (string val) ↦ some (some val, (next_arg iter, err))
    | _ ↦ some (none, (iter, true))
  ]

  unfoldable pub decode_dstring : Decode Text
  unfolding decode_string
  decode_dstring = do tmp ← decode_string; pure (some (or_empty tmp))

  unfoldable pub decode_size : Decode ℕ
  unfolding decode_uint32
  decode_size = decode_uint32

  unfoldable pub decode_cookie : Decode ℤ
  unfolding decode_uint32
  decode_cookie = do tmp ← decode_uint32; pure (wrap 32 (pos tmp))

  unfoldable pub decode_time : Decode ℤ
  unfolding decode_int
  decode_time = decode_int

  unfoldable pub decode_tm : Decode Tm
  unfolding decode_int
  decode_tm = do
    tm_sec ← decode_int
    tm_min ← decode_int
    tm_hour ← decode_int
    tm_mday ← decode_int
    tm_mon ← decode_int
    tm_year ← decode_int
    tm_wday ← decode_int
    tm_yday ← decode_int
    tm_isdst ← decode_int
    pure (record {
      tm_sec = tm_sec;
      tm_min = tm_min;
      tm_hour = tm_hour;
      tm_mday = tm_mday;
      tm_mon = tm_mon;
      tm_year = tm_year;
      tm_wday = tm_wday;
      tm_yday = tm_yday;
      tm_isdst = tm_isdst;
    })

  unfoldable pub decode_action : Decode Action
  unfolding decode_uint32 decode_dstring
  decode_action = do
    flags ← decode_uint32
    label ← decode_dstring
    exec_command ← decode_dstring
    dbus_interface ← decode_dstring
    dbus_service ← decode_dstring
    dbus_path ← decode_dstring
    dbus_name ← decode_dstring
    dbus_args ← decode_dstring
    pure (record {
      flags = flags;
      label = label;
      exec_command = exec_command;
      dbus_interface = dbus_interface;
      dbus_service = dbus_service;
      dbus_path = dbus_path;
      dbus_name = dbus_name;
      dbus_args = dbus_args;
    })

  unfoldable pub decode_recur : Decode Recur
  unfolding decode_uint32 decode_uint64
  decode_recur = do
    mask_min ← decode_uint64
    mask_hour ← decode_uint32
    mask_mday ← decode_uint32
    mask_wday ← decode_uint32
    mask_mon ← decode_uint32
    special ← decode_uint32
    pure (record {
      mask_min = mask_min;
      mask_hour = mask_hour;
      mask_mday = mask_mday;
      mask_wday = mask_wday;
      mask_mon = mask_mon;
      special = special;
    })

  -- The `switch` of decode_attr
  unfoldable pub decode_data : Attr → Decode Attr
  unfolding decode_dstring decode_int decode_time
  decode_data att =
      if eqb_ℤ att.attr_type attr_int
      then (do n ← decode_int; pure (record att { attr_data = ival n }))
      else if eqb_ℤ att.attr_type attr_time
      then (do n ← decode_time; pure (record att { attr_data = tval n }))
      else if eqb_ℤ att.attr_type attr_string
      then (if can_free att.attr_data
          then (do s ← decode_dstring; pure (record att { attr_data = sval (or_empty s) }))
          else (λ s. none))
      else pure att

  unfoldable pub decode_attr : Attr → Decode Attr
  unfolding decode_dstring decode_int decode_data
  decode_attr att = do
    attr_name ← decode_dstring
    attr_type ← decode_int
    decode_data (record att { attr_name = or_empty attr_name; attr_type = attr_type })

  -- The three loops of decode_event
  unfoldable pub decode_actions : ℕ → Decode (List Action)
  decode_actions zero = pure []
  decode_actions (suc k) = do act ← decode_action; acts ← decode_actions k; pure (act ∷ acts)

  unfoldable pub decode_recurs : ℕ → Decode (List Recur)
  decode_recurs zero = pure []
  decode_recurs (suc k) = do rec ← decode_recur; recs ← decode_recurs k; pure (rec ∷ recs)

  unfoldable pub decode_attrs : ℕ → Event → Decode Event
  decode_attrs zero eve = pure eve
  decode_attrs (suc k) eve =
      let (eve', i) = add_attr eve unread_name in
      do
        att ← decode_attr (attr_at eve'.attr_tab i)
        decode_attrs k (record eve' { attr_tab = modify (λ _. att) eve'.attr_tab i })

  unfoldable pub decode_eom_p : Source → Bool
  decode_eom_p (iter, true) = false
  decode_eom_p (iter, false) = elim (peek iter) [ none ↦ true | some a ↦ false ]

  -- The part behind the tables
  unfoldable pub decode_tail : Event → Decode Event
  unfolding decode_eom_p decode_size
  decode_tail eve s =
      if decode_eom_p s then some (eve, s) else (do count ← decode_size; decode_attrs count eve) s

  -- Reads into an event, of which the attributes are kept.
  unfoldable pub decode_event : Event → Decode Event
  unfolding decode_cookie decode_time decode_dstring decode_uint32 decode_tm decode_int decode_size
      decode_tail
  decode_event eve = do
    cookie ← decode_cookie
    trigger ← decode_time
    title ← decode_dstring
    message ← decode_dstring
    sound ← decode_dstring
    icon ← decode_dstring
    flags ← decode_uint32
    alarm_appid ← decode_dstring
    alarm_time ← decode_time
    alarm_tm ← decode_tm
    alarm_tz ← decode_dstring
    recur_secs ← decode_time
    recur_count ← decode_int
    snooze_secs ← decode_time
    snooze_total ← decode_time
    action_cnt ← decode_size
    response ← decode_int
    action_tab ← decode_actions action_cnt
    recurrence_cnt ← decode_size
    recurrence_tab ← decode_recurs recurrence_cnt
    decode_tail (record eve {
      cookie = cookie;
      trigger = trigger;
      title = title;
      message = message;
      sound = sound;
      icon = icon;
      flags = flags;
      alarm_appid = alarm_appid;
      alarm_time = alarm_time;
      alarm_tm = alarm_tm;
      alarm_tz = alarm_tz;
      recur_secs = recur_secs;
      recur_count = recur_count;
      snooze_secs = snooze_secs;
      snooze_total = snooze_total;
      response = response;
      action_tab = action_tab;
      recurrence_tab = recurrence_tab;
    })
