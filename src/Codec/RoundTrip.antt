-- ===== src/Codec/RoundTrip.antt =====
-- Reading back what the encoders of src/codec.c have written.
use alarmd.Common.{
  ℕ, suc, ◌%◌, ◌^◌, ◌<◌, ◌≡◌, ◌≢◌, refl, ap, ◌∙◌, false, Option, none, some, List, [], ◌∷◌, ◌++◌, ℤ,
  length, arith, Bool-cases, inl, inr,
}
use mathlib.Core.List.{append_assoc, append-nil}
use mathlib.Core.Option
use alarmd.Event.{
  Bytes, Text, Event, Attr, AttrData, zeroed, ival, tval, sval, bytes_eq, bytes_eq_iff,
}
use alarmd.Attributes.{attr_create, find_attr, add_attr, modify}
use alarmd.Attributes.Stored.{at_end}
use alarmd.Codec.{Libdbus, uint32, encode_event}
use alarmd.Codec.Decoder.{
  decode_data, decode_attr, decode_attrs, decode_tail, decode_event, unread_name, attr_at,
  decode_eom_p,
}
use alarmd.Codec.Carried.{
  Delivers, data_args, attr_args, attrs_args, event_args, HasType, AllTyped, encode_event-put_all,
  put_all-Holds,
}
use alarmd.Codec.Gives.{
  IsInt32, received_event, Gives, pure-Gives, append-Gives, uint32-Gives, int-Gives, dstring-Gives,
  time-Gives, cookie-Gives, size-Gives, one-Gives, tm-Gives, actions-Gives, recurs-Gives,
}

-- A value has 32 bits if it is a time; the only one that could have more.
abbrev pub Fits : AttrData → Type 0
Fits zeroed = Unit {0}
Fits (ival n) = Unit {0}
Fits (tval n) = IsInt32 n
Fits (sval s) = Unit {0}

abbrev pub AllFit : List Attr → Type 0
AllFit [] = Unit {0}
AllFit (att ∷ atts) = Fits att.attr_data × (att.attr_name ≢ unread_name) × AllFit atts

module _ (dbus : Libdbus) (law : Delivers dbus) where
  data-Gives :
      (name : Bytes) (t : ℤ) (d : AttrData)
      → HasType t d
      → Fits d
      → Gives dbus law
          (decode_data dbus (record { attr_name = name; attr_type = t; attr_data = zeroed }))
          (data_args d)
          (record { attr_name = name; attr_type = t; attr_data = d })
  unfolding decode_data
  data-Gives name t zeroed h f = rw h (pure-Gives dbus law _)
  data-Gives name t (ival n) h f =
      rw h (one-Gives dbus law _ (int-Gives dbus law n) (pure-Gives dbus law _))
  data-Gives name t (tval n) h f =
      rw h (one-Gives dbus law _ (time-Gives dbus law n f) (pure-Gives dbus law _))
  data-Gives name t (sval s) h f =
      rw h (one-Gives dbus law _ (dstring-Gives dbus law (some s)) (pure-Gives dbus law _))

  pub attr-Gives :
      (att : Attr)
      → HasType att.attr_type att.attr_data
      → Fits att.attr_data
      → Gives dbus law (decode_attr dbus (attr_create unread_name)) (attr_args att) att
  unfolding decode_attr attr_create
  attr-Gives att h f = one-Gives dbus law _ (dstring-Gives dbus law (some att.attr_name)) (
      one-Gives dbus law _ (int-Gives dbus law att.attr_type)
        (data-Gives att.attr_name att.attr_type att.attr_data h f))

  pub last_attr : (tab : List Attr) (a : Attr) → attr_at (tab ++ a ∷ []) (length tab) ≡ a
  unfolding attr_at
  last_attr tab a = rw (at_end tab a, attr_at) refl

  pub replaced :
      (att : Attr) (tab : List Attr) (b : Attr)
      → modify (λ _. att) (tab ++ b ∷ []) (length tab) ≡ tab ++ att ∷ []
  unfolding modify
  replaced att [] b = refl
  replaced att (a ∷ tab) b = ap (◌∷◌ a) (replaced att tab b)

  unmapped : (o : Option ℕ) → Option.map suc o ≡ none → o ≡ none
  unmapped none h = refl
  unmapped (some i) h = cc

  still_none :
      (att : Attr) (tab : List Attr)
      → find_attr tab unread_name ≡ none
      → att.attr_name ≢ unread_name
      → find_attr (tab ++ att ∷ []) unread_name ≡ none
  unfolding find_attr
  still_none att [] h n = ground (arith, bytes_eq_iff att.attr_name unread_name)
  still_none att (a ∷ tab) h n = elim (Bool-cases (bytes_eq a.attr_name unread_name)) [
    | inl here ↦ absurd (cc (rw here at h))
    | inr there ↦ rw there (ap (Option.map suc) (still_none att tab (unmapped _ (rw there at h)) n))
  ]

  attrs-Gives :
      (eve : Event) (atts : List Attr)
      → find_attr eve.attr_tab unread_name ≡ none
      → AllTyped atts
      → AllFit atts
      → Gives dbus law
          (decode_attrs dbus (length atts) eve)
          (attrs_args atts)
          (record eve { attr_tab = eve.attr_tab ++ atts })
  unfolding decode_attrs add_attr
  attrs-Gives eve [] h t f = rw append-nil (pure-Gives dbus law eve)
  attrs-Gives eve (att ∷ atts) h (t, ts) (f, n, fs) =
      rw (h, last_attr eve.attr_tab (attr_create unread_name))
        (append-Gives dbus law _ (attr-Gives att t f) (
          rw (replaced att eve.attr_tab (attr_create unread_name)) (
            rw append_assoc at (
              attrs-Gives (record eve { attr_tab = eve.attr_tab ++ att ∷ [] }) atts
                (still_none att eve.attr_tab h n) ts fs))))

  tail-Gives :
      (eve : Event) (atts : List Attr)
      → length atts < 2 ^ 32
      → find_attr eve.attr_tab unread_name ≡ none
      → AllTyped atts
      → AllFit atts
      → Gives dbus law
          (decode_tail dbus eve)
          (uint32 (length atts % 2 ^ 32) ∷ attrs_args atts)
          (record eve { attr_tab = eve.attr_tab ++ atts })
  unfolding decode_tail decode_eom_p
  tail-Gives eve atts l h t f = record {
    reads = λ i rest r.
        let all =
          one-Gives dbus law (λ n. decode_attrs dbus n eve) (size-Gives dbus law (length atts) l)
            (attrs-Gives eve atts h t f) in
        rw (law.shows i _ _ r, decode_eom_p) (all.reads i rest r);
  }

-- An event that the message can carry: numbers in the range of their types, tables of a sensible
-- length, attributes with the member of their type and another name than "\x7f"
pub record IsSendable (eve : Event) : Type 0 where
  pub cookie : IsInt32 eve.cookie
  pub trigger : IsInt32 eve.trigger
  pub alarm_time : IsInt32 eve.alarm_time
  pub recur_secs : IsInt32 eve.recur_secs
  pub snooze_secs : IsInt32 eve.snooze_secs
  pub snooze_total : IsInt32 eve.snooze_total
  pub actions : length eve.action_tab < 2 ^ 32
  pub recurrences : length eve.recurrence_tab < 2 ^ 32
  pub attrs : length eve.attr_tab < 2 ^ 32
  pub typed : AllTyped eve.attr_tab
  pub fit : AllFit eve.attr_tab

module _ (dbus : Libdbus) (law : Delivers dbus) where
  event-Gives :
      (eve into : Event) (def_args : Text)
      → IsSendable eve
      → find_attr into.attr_tab unread_name ≡ none
      → Gives dbus law
          (decode_event dbus into)
          (event_args eve def_args)
          (record (received_event eve def_args) { attr_tab = into.attr_tab ++ eve.attr_tab })
  unfolding decode_event
  event-Gives eve into def_args v fresh =
      one-Gives dbus law _ (cookie-Gives dbus law eve.cookie v.cookie) (
        one-Gives dbus law _ (time-Gives dbus law eve.trigger v.trigger) (
          one-Gives dbus law _ (dstring-Gives dbus law eve.title) (
            one-Gives dbus law _ (dstring-Gives dbus law eve.message) (
              one-Gives dbus law _ (dstring-Gives dbus law eve.sound) (
                one-Gives dbus law _ (dstring-Gives dbus law eve.icon) (
                  one-Gives dbus law _ (uint32-Gives dbus law eve.flags) (
                    one-Gives dbus law _ (dstring-Gives dbus law eve.alarm_appid) (
                      one-Gives dbus law _ (time-Gives dbus law eve.alarm_time v.alarm_time) (
                        append-Gives dbus law _ (tm-Gives dbus law eve.alarm_tm) (
                          one-Gives dbus law _ (dstring-Gives dbus law eve.alarm_tz) (
                            one-Gives dbus law _ (time-Gives dbus law eve.recur_secs v.recur_secs) (
                              one-Gives dbus law _ (int-Gives dbus law eve.recur_count) (
                                one-Gives dbus law _
                                  (time-Gives dbus law eve.snooze_secs v.snooze_secs)
                                  (one-Gives dbus law _
                                    (time-Gives dbus law eve.snooze_total v.snooze_total)
                                    (one-Gives dbus law _
                                      (size-Gives dbus law (length eve.action_tab) v.actions)
                                      (one-Gives dbus law _ (int-Gives dbus law eve.response) (
                                        append-Gives dbus law _
                                          (actions-Gives dbus law eve.action_tab def_args)
                                          (one-Gives dbus law _
                                            (size-Gives dbus law (length eve.recurrence_tab)
                                              v.recurrences)
                                            (append-Gives dbus law _
                                              (recurs-Gives dbus law eve.recurrence_tab)
                                              (tail-Gives dbus law _ eve.attr_tab v.attrs fresh
                                                v.typed v.fit))))))))))))))))))))

  -- An event that a message can carry is appended without an error, and decoding the message that
  -- is received gives it back, with the empty text for NULL and the default arguments for the first
  -- D-Bus action that has none; the attributes come behind those of the event that is read into, of
  -- which none is unread. No error is set then either, and the message is at its end.
  pub decode_event-encode_event :
      (eve into : Event) (def_args : Text)
      → IsSendable eve
      → find_attr into.attr_tab unread_name ≡ none
      → (m : dbus.BusMessage) → law.Holds m []
      → (m' : dbus.BusMessage) × (rest : Text) × (i : dbus.Iter) × (encode_event dbus eve def_args
            (m, false)
          ≡ some ((m', false), rest))
        × (decode_event dbus into (dbus.received m', false)
            ≡ some (
              record (received_event eve def_args) { attr_tab = into.attr_tab ++ eve.attr_tab },
              (i, false),
            ))
        × (dbus.peek i ≡ none)
  decode_event-encode_event eve into def_args v fresh m h =
      let (rest, e) = encode_event-put_all dbus eve def_args (m, false) v.typed in
      let (m', e', h') = put_all-Holds dbus law (event_args eve def_args) m [] h in
      let (i, d, r) =
        (event-Gives eve into def_args v fresh).reads (dbus.received m') []
          (rw append-nil (law.delivers m' _ h')) in
      (m', rest, i, e ∙ rw e' refl, d, law.ends i r)
