-- ===== src/Codec/Carried.antt =====
-- What the encoders of src/codec.c append to a message, over a libdbus that delivers it.
use alarmd.Common.{
  ◌%◌, ◌^◌, ◌≡◌, refl, sym, ap, ◌∙◌, true, false, none, some, List, [], ◌∷◌, ◌++◌, ℤ, length,
}
use mathlib.Core.List.{append_assoc, append-nil}
use alarmd.Event.{Text, Bytes, Tm, Action, Recur, Event, Attr, AttrData, zeroed, ival, tval, sval}
use alarmd.Attributes.{or_empty, attr_null, attr_int, attr_time, attr_string}
use alarmd.Strbuf.Values.{residue, wrap}
use alarmd.Codec.{
  Libdbus, BusArg, uint32, uint64, int32, string, Sink, use_args, encode_basic, encode_size,
  encode_action, encode_recur, encode_attr, encode_actions, encode_recurs, encode_attrs,
  encode_head, encode_event,
}

-- What is relied on of libdbus: `Holds` says which arguments a message has, `Reads` which are ahead
-- of an iterator. While memory lasts an argument is appended at the end, and a message is delivered
-- with its arguments, which the iterator passes one by one.
pub record Delivers (dbus : Libdbus) : Type 1 where
  pub Holds : dbus.BusMessage → List BusArg → Type 0
  pub Reads : dbus.Iter → List BusArg → Type 0
  pub appends :
      (m : dbus.BusMessage) (a : BusArg) (args : List BusArg)
      → Holds m args
      → ((dbus.append_basic m a).1 ≡ true) × Holds (dbus.append_basic m a).0 (args ++ a ∷ [])
  pub delivers :
      (m : dbus.BusMessage) (args : List BusArg) → Holds m args → Reads (dbus.received m) args
  pub shows :
      (i : dbus.Iter) (a : BusArg) (args : List BusArg) → Reads i (a ∷ args) → dbus.peek i ≡ some a
  pub passes :
      (i : dbus.Iter) (a : BusArg) (args : List BusArg)
      → Reads i (a ∷ args)
      → Reads (dbus.next_arg i) args
  pub ends : (i : dbus.Iter) → Reads i [] → dbus.peek i ≡ none

abbrev pub tm_args : Tm → List BusArg
tm_args tm =
    int32 tm.tm_sec
    ∷ int32 tm.tm_min
    ∷ int32 tm.tm_hour
    ∷ int32 tm.tm_mday
    ∷ int32 tm.tm_mon
    ∷ int32 tm.tm_year
    ∷ int32 tm.tm_wday
    ∷ int32 tm.tm_yday
    ∷ int32 tm.tm_isdst
    ∷ []

abbrev pub text : Text → BusArg
text s = string (or_empty s)

abbrev pub action_args : Action → Text → List BusArg
action_args act def_args =
    uint32 act.flags
    ∷ text act.label
    ∷ text act.exec_command
    ∷ text act.dbus_interface
    ∷ text act.dbus_service
    ∷ text act.dbus_path
    ∷ text act.dbus_name
    ∷ text (use_args act def_args).0
    ∷ []

abbrev pub recur_args : Recur → List BusArg
recur_args rec =
    uint64 rec.mask_min
    ∷ uint32 rec.mask_hour
    ∷ uint32 rec.mask_mday
    ∷ uint32 rec.mask_wday
    ∷ uint32 rec.mask_mon
    ∷ uint32 rec.special
    ∷ []

abbrev pub data_args : AttrData → List BusArg
data_args zeroed = []
data_args (ival n) = int32 n ∷ []
data_args (tval n) = int32 (wrap 32 n) ∷ []
data_args (sval s) = string s ∷ []

abbrev pub attr_args : Attr → List BusArg
attr_args att = string att.attr_name ∷ int32 att.attr_type ∷ data_args att.attr_data

abbrev pub actions_args : List Action → Text → List BusArg
actions_args [] def_args = []
actions_args (act ∷ acts) def_args =
    action_args act def_args ++ actions_args acts (use_args act def_args).1

abbrev pub recurs_args : List Recur → List BusArg
recurs_args [] = []
recurs_args (rec ∷ recs) = recur_args rec ++ recurs_args recs

abbrev pub attrs_args : List Attr → List BusArg
attrs_args [] = []
attrs_args (att ∷ atts) = attr_args att ++ attrs_args atts

abbrev pub head_args : Event → List BusArg
head_args eve =
    uint32 (residue 32 eve.cookie)
    ∷ int32 (wrap 32 eve.trigger)
    ∷ text eve.title
    ∷ text eve.message
    ∷ text eve.sound
    ∷ text eve.icon
    ∷ uint32 eve.flags
    ∷ text eve.alarm_appid
    ∷ int32 (wrap 32 eve.alarm_time)
    ∷ (tm_args eve.alarm_tm
        ++ (text eve.alarm_tz
            ∷ int32 (wrap 32 eve.recur_secs)
            ∷ int32 eve.recur_count
            ∷ int32 (wrap 32 eve.snooze_secs)
            ∷ int32 (wrap 32 eve.snooze_total)
            ∷ uint32 (length eve.action_tab % 2 ^ 32)
            ∷ int32 eve.response
            ∷ []))

abbrev pub event_args : Event → Text → List BusArg
event_args eve def_args =
    head_args eve
    ++ (actions_args eve.action_tab def_args
        ++ (uint32 (length eve.recurrence_tab % 2 ^ 32)
            ∷ (recurs_args eve.recurrence_tab
                ++ (uint32 (length eve.attr_tab % 2 ^ 32) ∷ attrs_args eve.attr_tab))))

-- The type of an attribute names the member of its value.
abbrev pub HasType : ℤ → AttrData → Type 0
HasType t zeroed = t ≡ attr_null
HasType t (ival n) = t ≡ attr_int
HasType t (tval n) = t ≡ attr_time
HasType t (sval s) = t ≡ attr_string

abbrev pub AllTyped : List Attr → Type 0
AllTyped [] = Unit {0}
AllTyped (att ∷ atts) = HasType att.attr_type att.attr_data × AllTyped atts

module _ (dbus : Libdbus) where
  pub put_all : List BusArg → Sink dbus → Sink dbus
  put_all [] s = s
  put_all (a ∷ args) s = put_all args (encode_basic dbus a s)

  put_all-append :
      (xs ys : List BusArg) (s : Sink dbus) → put_all (xs ++ ys) s ≡ put_all ys (put_all xs s)
  unfolding put_all
  put_all-append [] ys s = refl
  put_all-append (x ∷ xs) ys s = put_all-append xs ys (encode_basic dbus x s)

  encode_actions-put_all :
      (acts : List Action) (def_args : Text) (s : Sink dbus)
      → (encode_actions dbus acts def_args s).0 ≡ put_all (actions_args acts def_args) s
  unfolding encode_actions encode_action put_all
  encode_actions-put_all [] def_args s = refl
  encode_actions-put_all (act ∷ acts) def_args s = encode_actions-put_all acts _ _

  encode_recurs-put_all :
      (recs : List Recur) (s : Sink dbus) → encode_recurs dbus recs s ≡ put_all (recurs_args recs) s
  unfolding encode_recurs encode_recur put_all
  encode_recurs-put_all [] s = refl
  encode_recurs-put_all (rec ∷ recs) s = encode_recurs-put_all recs _

  encode_attr-put_all :
      (name : Bytes) (t : ℤ) (d : AttrData) (s : Sink dbus)
      → HasType t d
      → let att : Attr = record { attr_name = name; attr_type = t; attr_data = d } in
        encode_attr dbus att s ≡ some (put_all (attr_args att) s)
  unfolding encode_attr put_all
  encode_attr-put_all name t zeroed s h = rw h refl
  encode_attr-put_all name t (ival n) s h = rw h refl
  encode_attr-put_all name t (tval n) s h = rw h refl
  encode_attr-put_all name t (sval n) s h = rw h refl

  encode_attrs-put_all :
      (atts : List Attr) (s : Sink dbus)
      → AllTyped atts
      → encode_attrs dbus atts s ≡ some (put_all (attrs_args atts) s)
  unfolding encode_attrs put_all
  encode_attrs-put_all [] s h = refl
  encode_attrs-put_all (att ∷ atts) s (h, hs) =
      rw (encode_attr-put_all att.attr_name att.attr_type att.attr_data s h)
        (encode_attrs-put_all atts _ hs ∙ ap some (sym (put_all-append (attr_args att) _ s)))

  encode_head-put_all :
      (eve : Event) (s : Sink dbus) → encode_head dbus eve s ≡ put_all (head_args eve) s
  unfolding encode_head put_all
  encode_head-put_all eve s = refl

  pub encode_event-put_all :
      (eve : Event) (def_args : Text) (s : Sink dbus)
      → AllTyped eve.attr_tab
      → (rest : Text) × (encode_event dbus eve def_args s
          ≡ some (put_all (event_args eve def_args) s, rest))
  unfolding encode_event encode_size put_all
  encode_event-put_all eve def_args s typed =
      let s0 = put_all (head_args eve) s in
      let rest = (encode_actions dbus eve.action_tab def_args s0).1 in
      (
        rest,
        rw
            (
              encode_head-put_all eve s,
              encode_actions-put_all eve.action_tab def_args s0,
              encode_recurs-put_all,
              encode_attrs-put_all eve.attr_tab _ typed,
              put_all-append (actions_args eve.action_tab def_args),
              put_all-append (recurs_args eve.recurrence_tab),
            )
            refl,
      )

  module _ (law : Delivers dbus) where
    -- An encoder with memory appends its arguments, and sets no error.
    pub put_all-Holds :
        (args : List BusArg) (m : dbus.BusMessage) (before : List BusArg)
        → law.Holds m before
        → (m' : dbus.BusMessage) × (put_all args (m, false) ≡ (m', false))
          × law.Holds m' (before ++ args)
    unfolding put_all encode_basic
    put_all-Holds [] m before h = (m, refl, rw append-nil h)
    put_all-Holds (a ∷ args) m before h =
        let (done, h') = law.appends m a before h in
        let (m', e, h'') = put_all-Holds args (dbus.append_basic m a).0 (before ++ a ∷ []) h' in
        (m', rw done e, rw append_assoc at h'')
