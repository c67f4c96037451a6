-- ===== src/Codec/Hostile.antt =====
-- What decode_event of src/codec.c makes of an attribute that a client has named "\x7f".
use alarmd.Common.{
  ℕ, suc, ◌≡◌, ◌≢◌, refl, ap, ◌∙◌, false, Option, none, some, List, [], ◌∷◌, ◌++◌, ℤ, pos, length,
  arith, Bool-cases, inl, inr, eqb_no,
}
use mathlib.Core.Option
use alarmd.Event.{Bytes, Event, Attr, ival, bytes_eq, bytes_eq_iff}
use alarmd.Attributes.{attr_int, attr_string, attr_create, added, find_attr, add_attr}
use alarmd.Codec.{Libdbus, BusArg, int32, string}
use alarmd.Codec.Decoder.{Source, ◌>>=◌, decode_data, decode_attr, decode_attrs, unread_name}
use alarmd.Codec.Carried.{Delivers}
use alarmd.Codec.Gives.{dstring-Gives, int-Gives}
use alarmd.Codec.RoundTrip.{attr-Gives, last_attr, replaced}

found_last :
    (att : Attr) (tab : List Attr)
    → find_attr tab unread_name ≡ none
    → att.attr_name ≡ unread_name
    → find_attr (tab ++ att ∷ []) unread_name ≡ some (length tab)
unfolding find_attr
found_last att [] h n = ground (arith, bytes_eq_iff att.attr_name unread_name)
found_last att (a ∷ tab) h n = elim (Bool-cases (bytes_eq a.attr_name unread_name)) [
  | inl here ↦ absurd (cc (rw here at h))
  | inr there ↦ rw there (ap (Option.map suc) (found_last att tab (unmapped _ (rw there at h)) n))
]
  where
    unmapped : (o : Option ℕ) → Option.map suc o ≡ none → o ≡ none
    unmapped none e = refl
    unmapped (some i) e = cc

module _ (dbus : Libdbus) (law : Delivers dbus) where
  -- A text is read into an attribute that holds a number: the number is freed.
  attr-Faults :
      (name s : Bytes) (n : ℤ) (i : dbus.Iter) (rest : List BusArg)
      → n ≢ pos 0
      → law.Reads i (string name ∷ int32 attr_string ∷ rest)
      → decode_attr dbus
          (record { attr_name = unread_name; attr_type = attr_int; attr_data = ival n })
          (i, false)
        ≡ none
  unfolding decode_attr ◌>>=◌ decode_data
  attr-Faults name s n i rest nz r =
      let (i1, e1, r1) = (dstring-Gives dbus law (some name)).reads i _ r in
      let (i2, e2, r2) = (int-Gives dbus law attr_string).reads i1 _ r1 in
      rw (e1, decode_attr, ◌>>=◌, e2, decode_data, eqb_no nz) refl

  add_attr-at :
      (eve : Event) (o : Option ℕ)
      → find_attr eve.attr_tab unread_name ≡ o
      → add_attr eve unread_name ≡ added eve unread_name o
  unfolding add_attr
  add_attr-at eve o h = ap (added eve unread_name) h

  -- One round of the loop on the attributes
  first_round :
      (k : ℕ) (eve : Event) (att : Attr) (s s' : Source dbus)
      → find_attr eve.attr_tab unread_name ≡ none
      → decode_attr dbus (attr_create unread_name) s ≡ some (att, s')
      → decode_attrs dbus (suc k) eve s
        ≡ decode_attrs dbus k (record eve { attr_tab = eve.attr_tab ++ att ∷ [] }) s'
  unfolding decode_attrs ◌>>=◌
  first_round k eve att s s' h e =
      rw
        (
          add_attr-at eve none h,
          last_attr dbus law eve.attr_tab (attr_create unread_name),
          e,
          ◌>>=◌,
        )
        (rw (add_attr-at eve none h) (
          ap (λ t. decode_attrs dbus k (record eve { attr_tab = t }) s')
            (replaced dbus law att eve.attr_tab (attr_create unread_name))))

  bad_round :
      (k : ℕ) (eve : Event) (att : Attr) (s : Source dbus)
      → find_attr eve.attr_tab unread_name ≡ none
      → att.attr_name ≡ unread_name
      → decode_attr dbus att s ≡ none
      → decode_attrs dbus (suc k) (record eve { attr_tab = eve.attr_tab ++ att ∷ [] }) s ≡ none
  unfolding decode_attrs add_attr ◌>>=◌
  bad_round k eve att s h n e =
      rw (found_last att eve.attr_tab h n, last_attr dbus law eve.attr_tab att, e, ◌>>=◌) refl

  -- Two attributes, the first with the name "\x7f" and a number other than 0, the second a text:
  -- decoding them frees that number as if it was a text.
  pub decode_attrs-Faults :
      (eve : Event) (name s : Bytes) (n : ℤ) (i : dbus.Iter) (rest : List BusArg)
      → find_attr eve.attr_tab unread_name ≡ none
      → n ≢ pos 0
      → law.Reads i (
          string unread_name
          ∷ int32 attr_int
          ∷ int32 n
          ∷ string name
          ∷ int32 attr_string
          ∷ string s
          ∷ rest)
      → decode_attrs dbus 2 eve (i, false) ≡ none
  decode_attrs-Faults eve name s n i rest h nz r =
      let att : Attr = record {
        attr_name = unread_name;
        attr_type = attr_int;
        attr_data = ival n;
      } in
      let (i1, e1, r1) = (attr-Gives dbus law att refl tt).reads i _ r in
      first_round 1 eve att (i, false) (i1, false) h e1
      ∙ bad_round 0 eve att (i1, false) h refl (attr-Faults name s n i1 _ nz r1)
