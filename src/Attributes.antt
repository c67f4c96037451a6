-- ===== src/Attributes.antt =====
-- The attributes of an event: src/attr.c and the functions alarm_event_*_attr* of src/event.c.
-- A pointer to an attribute is its index in the table. `strtol`, with base 0, is a parameter.
-- Reading another member of the union than was written is a fault, `none`. A name is not NULL.
use alarmd.Common.{
  ℕ, zero, suc, ◌-◌, ◌%◌, ◌^◌, ltb, Bool, true, false, Option, none, some, List, [], ◌∷◌, ◌++◌, ℤ,
  pos, negsuc, eqb_ℤ, if◌then◌else◌, length, ◌>>=◌,
}
use mathlib.Core.Option
use alarmd.Event.{Bytes, Text, Event, Attr, AttrData, zeroed, ival, tval, sval, bytes_eq}
pub mod Stored

-- alarmattrtype
abbrev pub attr_null : ℤ
attr_null = pos 0

abbrev pub attr_int : ℤ
attr_int = pos 1

abbrev pub attr_time : ℤ
attr_time = pos 2

abbrev pub attr_string : ℤ
attr_string = pos 3

-- `x ?: ""`
abbrev pub or_empty : Text → Bytes
or_empty none = []
or_empty (some s) = s

-- alarm_attr_create
unfoldable pub attr_create : Bytes → Attr
attr_create name = record { attr_name = name; attr_type = attr_null; attr_data = zeroed }

-- Only the type is reset; the text of a string is released.
unfoldable pub attr_set_null : Attr → Attr
attr_set_null self = record self { attr_type = attr_null }

unfoldable pub attr_set_string : Text → Attr → Attr
unfolding attr_set_null
attr_set_string val self = record (attr_set_null self) {
  attr_type = attr_string;
  attr_data = sval (or_empty val);
}

unfoldable pub attr_set_int : ℤ → Attr → Attr
unfolding attr_set_null
attr_set_int val self = record (attr_set_null self) { attr_type = attr_int; attr_data = ival val }

unfoldable pub attr_set_time : ℤ → Attr → Attr
unfolding attr_set_null
attr_set_time val self = record (attr_set_null self) { attr_type = attr_time; attr_data = tval val }

abbrev pub read_ival : AttrData → Option ℤ
read_ival zeroed = some (pos 0)
read_ival (ival n) = some n
read_ival _ = none

abbrev pub read_tval : AttrData → Option ℤ
read_tval zeroed = some (pos 0)
read_tval (tval n) = some n
read_tval _ = none

abbrev pub read_sval : AttrData → Option Text
read_sval zeroed = some none
read_sval (sval s) = some (some s)
read_sval _ = none

unfoldable pub attr_get_string : Attr → Option Text
attr_get_string self =
    if eqb_ℤ self.attr_type attr_string then read_sval self.attr_data else some none

-- What an int of 32 bits makes of a number, as the compiler converts it
unfoldable pub to_int : ℤ → ℤ
to_int (pos n) = let r = n % 2 ^ 32 in if ltb r (2 ^ 31) then pos r else negsuc (2 ^ 32 - 1 - r)
to_int (negsuc n) = let r = n % 2 ^ 32 in if ltb r (2 ^ 31) then negsuc r else pos (2 ^ 32 - 1 - r)

unfoldable pub attr_get_int : (Bytes → ℤ) → Attr → Option ℤ
unfolding to_int
attr_get_int strtol self =
    if eqb_ℤ self.attr_type attr_int
    then read_ival self.attr_data
    else if eqb_ℤ self.attr_type attr_time
    then Option.map to_int (read_tval self.attr_data)
    else if eqb_ℤ self.attr_type attr_string
    then Option.map (λ s. to_int (strtol (or_empty s))) (read_sval self.attr_data)
    else some (negsuc 0)

unfoldable pub attr_get_time : (Bytes → ℤ) → Attr → Option ℤ
attr_get_time strtol self =
    if eqb_ℤ self.attr_type attr_int
    then read_ival self.attr_data
    else if eqb_ℤ self.attr_type attr_time
    then read_tval self.attr_data
    else if eqb_ℤ self.attr_type attr_string
    then Option.map (λ s. strtol (or_empty s)) (read_sval self.attr_data)
    else some (negsuc 0)

-- The first attribute of the name
unfoldable pub find_attr : List Attr → Bytes → Option ℕ
find_attr [] name = none
find_attr (a ∷ tab) name =
    if bytes_eq a.attr_name name then some 0 else Option.map suc (find_attr tab name)

abbrev pub get_elem? : List Attr → ℕ → Option Attr
get_elem? [] i = none
get_elem? (a ∷ tab) zero = some a
get_elem? (a ∷ tab) (suc i) = get_elem? tab i

-- A change through a pointer into the table
unfoldable pub modify : (Attr → Attr) → List Attr → ℕ → List Attr
modify f [] i = []
modify f (a ∷ tab) zero = f a ∷ tab
modify f (a ∷ tab) (suc i) = a ∷ modify f tab i

unfoldable pub get_attr : Event → Bytes → Option Attr
get_attr self name = find_attr self.attr_tab name >>= get_elem? self.attr_tab

unfoldable pub has_attr : Event → Bytes → Bool
unfolding get_attr
has_attr self name = elim (get_attr self name) [ none ↦ false | some a ↦ true ]

abbrev pub added : Event → Bytes → Option ℕ → Event × ℕ
added self name (some i) = (self, i)
added self name none =
    (record self { attr_tab = self.attr_tab ++ attr_create name ∷ [] }, length self.attr_tab)

unfoldable pub add_attr : Event → Bytes → Event × ℕ
add_attr self name = added self name (find_attr self.attr_tab name)

unfoldable pub rem_from : Bytes → List Attr → List Attr
rem_from name [] = []
rem_from name (a ∷ tab) =
    if bytes_eq a.attr_name name then rem_from name tab else a ∷ rem_from name tab

unfoldable pub rem_attr : Event → Bytes → Event
rem_attr self name = record self { attr_tab = rem_from name self.attr_tab }

unfoldable pub del_attrs : Event → Event
del_attrs self = record self { attr_tab = [] }

-- The three setters, by the setter of the attribute
unfoldable pub set_attr : (Attr → Attr) → Event → Bytes → Event
set_attr f self name =
    let (self', i) = add_attr self name in record self' { attr_tab = modify f self'.attr_tab i }

unfoldable pub set_attr_int : Event → Bytes → ℤ → Event
set_attr_int self name val = set_attr (attr_set_int val) self name

unfoldable pub set_attr_time : Event → Bytes → ℤ → Event
set_attr_time self name val = set_attr (attr_set_time val) self name

unfoldable pub set_attr_string : Event → Bytes → Text → Event
set_attr_string self name val = set_attr (attr_set_string val) self name

-- `att ? get(att) : def`
abbrev pub value_or {ℓ} : {A : Type ℓ} → (Attr → Option A) → A → Option Attr → Option A
value_or get def none = some def
value_or get def (some att) = get att

-- The three getters of an event, by the getter of the attribute: they look the attribute up by
-- alarm_event_add_attr, so there always is one.
unfoldable pub read_attr : {A : Type 0} → (Attr → Option A) → Event → Bytes → A → Event × Option A
read_attr get self name def =
    let (self', i) = add_attr self name in (self', value_or get def (get_elem? self'.attr_tab i))

unfoldable pub get_attr_int : (Bytes → ℤ) → Event → Bytes → ℤ → Event × Option ℤ
get_attr_int strtol = read_attr (attr_get_int strtol)

unfoldable pub get_attr_time : (Bytes → ℤ) → Event → Bytes → ℤ → Event × Option ℤ
get_attr_time strtol = read_attr (attr_get_time strtol)

unfoldable pub get_attr_string : Event → Bytes → Text → Event × Option Text
get_attr_string = read_attr attr_get_string
