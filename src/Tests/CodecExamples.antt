-- ===== src/Tests/CodecExamples.antt =====
-- A bus that delivers lists of arguments, and the theorems on src/codec.c, src/attr.c and the
-- attributes and the check of src/event.c, each applied to an event.
use alarmd.Common.{
  ℕ, ◌≡◌, ◌≢◌, ◌↔◌, refl, ap, true, false, Option, none, some, List, [], ◌∷◌, ◌++◌, arith, ℤ, pos,
  negsuc,
}
use alarmd.Event.{Bytes, Text, Event, Action, Attr, ival, sval, zero_event, bytes_eq}
use alarmd.Attributes.{
  attr_int, attr_string, attr_create, find_attr, get_attr_int, get_attr_time, get_attr_string,
  to_int, get_attr, set_attr_int, set_attr_time, set_attr_string, or_empty,
}
use alarmd.Attributes.Stored.{SetOnly, set_attr-Reads, get_attr-missing}
use alarmd.Codec.{Libdbus, BusArg, string, int32, encode_event}
use alarmd.Codec.Decoder.{decode_event, decode_attrs, unread_name}
use alarmd.Codec.Carried.{Delivers}
use alarmd.Codec.Gives.{received_event}
use alarmd.Codec.RoundTrip.{IsSendable, decode_event-encode_event}
use alarmd.Codec.Hostile.{decode_attrs-Faults}
use alarmd.Sane.{is_sane}
use alarmd.Sane.Accepts.{IsAcceptable, is_sane-IsAcceptable}

abbrev first : List BusArg → Option BusArg
first [] = none
first (a ∷ args) = some a

abbrev others : List BusArg → List BusArg
others [] = []
others (a ∷ args) = args

abbrev lists : Libdbus
lists = record {
  BusMessage = List BusArg;
  Iter = List BusArg;
  append_basic = λ m a. (m ++ a ∷ [], true);
  peek = first;
  next_arg = others;
  received = λ m. m;
}

lists-Delivers : Delivers lists
lists-Delivers = record {
  Holds = λ m args. m ≡ args;
  Reads = λ i args. i ≡ args;
  appends = λ m a args h. (refl, ap (λ x. x ++ a ∷ []) h);
  delivers = λ m args h. h;
  shows = λ i a args h. ap first h;
  passes = λ i a args h. ap others h;
  ends = λ i h. ap first h;
}

-- An alarm with a button that snoozes
abbrev button : Action
button = record {
  flags = 0x41;
  label = some (83 ∷ []);
  exec_command = none;
  dbus_interface = none;
  dbus_service = none;
  dbus_path = none;
  dbus_name = none;
  dbus_args = none;
}

abbrev priority : Attr
priority = record { attr_name = 112 ∷ []; attr_type = attr_int; attr_data = ival (negsuc 4) }

abbrev domain : Attr
domain = record { attr_name = 100 ∷ []; attr_type = attr_string; attr_data = sval (111 ∷ []) }

abbrev alarm : Event
alarm = record zero_event {
  cookie = pos 7;
  alarm_appid = some (99 ∷ []);
  alarm_time = pos 1000;
  action_tab = button ∷ [];
  attr_tab = priority ∷ domain ∷ [];
}

alarm-IsSendable : IsSendable alarm
alarm-IsSendable = record {
  cookie = omega arith;
  trigger = omega arith;
  alarm_time = omega arith;
  recur_secs = omega arith;
  snooze_secs = omega arith;
  snooze_total = omega arith;
  actions = omega arith;
  recurrences = omega arith;
  attrs = omega arith;
  typed = (refl, (refl, tt));
  fit = (tt, (λ e. omega (arith, ap head e)), (tt, (λ e. omega (arith, ap head e)), tt));
}
  where
    head : List ℕ → ℕ
    head [] = 0
    head (c ∷ cs) = c

decode_event-encode_event_example :
    (m' : List BusArg) × (rest : Text) × (i : List BusArg) × (encode_event lists alarm none
        ([], false)
      ≡ some ((m', false), rest))
    × (decode_event lists zero_event (m', false)
        ≡ some (record (received_event alarm none) { attr_tab = [] ++ alarm.attr_tab }, (i, false)))
    × (first i ≡ none)
unfolding find_attr lists-Delivers
decode_event-encode_event_example =
    decode_event-encode_event lists lists-Delivers alarm zero_event none alarm-IsSendable refl []
      refl

decode_attrs-Faults_example :
    decode_attrs lists 2 zero_event (
      string unread_name
          ∷ int32 attr_int
          ∷ int32 (pos 5)
          ∷ string (97 ∷ [])
          ∷ int32 attr_string
          ∷ string []
          ∷ [],
      false,
    )
    ≡ none
unfolding find_attr lists-Delivers
decode_attrs-Faults_example =
    decode_attrs-Faults lists lists-Delivers zero_event (97 ∷ []) [] (pos 5) _ [] refl (λ e. cc)
      refl

is_sane-IsAcceptable_example : (is_sane alarm ≢ negsuc 0) ↔ IsAcceptable alarm
is_sane-IsAcceptable_example = is_sane-IsAcceptable alarm (omega arith) (omega arith)

abbrev length_of : Bytes → ℤ
length_of [] = pos 0
length_of (c ∷ s) = pos 1

get_attr-missing_example :
    let alarm' : Event = record alarm {
      attr_tab = alarm.attr_tab ++ attr_create (120 ∷ []) ∷ [];
    } in
    (get_attr_int length_of alarm (120 ∷ []) (pos 3) ≡ (alarm', some (negsuc 0)))
    × (get_attr_time length_of alarm (120 ∷ []) (pos 3) ≡ (alarm', some (negsuc 0)))
    × (get_attr_string alarm (120 ∷ []) (some (97 ∷ [])) ≡ (alarm', some none))
    × (get_attr alarm' (120 ∷ []) ≡ some (attr_create (120 ∷ [])))
unfolding get_attr find_attr bytes_eq
get_attr-missing_example = get_attr-missing length_of alarm (120 ∷ []) (pos 3) (some (97 ∷ [])) refl

set_attr-Reads_example :
    ((def : ℤ)
      → get_attr_int length_of (set_attr_int alarm (112 ∷ []) (pos 3)) (112 ∷ []) def
        ≡ (set_attr_int alarm (112 ∷ []) (pos 3), some (pos 3)))
    × ((def : ℤ)
        → get_attr_time length_of (set_attr_int alarm (112 ∷ []) (pos 3)) (112 ∷ []) def
          ≡ (set_attr_int alarm (112 ∷ []) (pos 3), some (pos 3)))
    × ((def : ℤ)
        → get_attr_time length_of (set_attr_time alarm (112 ∷ []) (pos 2147483653)) (112 ∷ []) def
          ≡ (set_attr_time alarm (112 ∷ []) (pos 2147483653), some (pos 2147483653)))
    × ((def : ℤ)
        → get_attr_int length_of (set_attr_time alarm (112 ∷ []) (pos 2147483653)) (112 ∷ []) def
          ≡ (set_attr_time alarm (112 ∷ []) (pos 2147483653), some (to_int (pos 2147483653))))
    × ((def : Text)
        → get_attr_string (set_attr_string alarm (112 ∷ []) none) (112 ∷ []) def
          ≡ (set_attr_string alarm (112 ∷ []) none, some (some (or_empty none))))
    × SetOnly alarm (set_attr_int alarm (112 ∷ []) (pos 3)) (112 ∷ [])
    × SetOnly alarm (set_attr_time alarm (112 ∷ []) (pos 2147483653)) (112 ∷ [])
    × SetOnly alarm (set_attr_string alarm (112 ∷ []) none) (112 ∷ [])
set_attr-Reads_example = set_attr-Reads length_of alarm (112 ∷ []) (pos 3) (pos 2147483653) none
