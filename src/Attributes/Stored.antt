-- ===== src/Attributes/Stored.antt =====
-- What the attribute table of an event holds after a change.
use alarmd.Common.{
  ℕ, suc, ◌≡◌, ◌≢◌, refl, Option, none, some, List, [], ◌∷◌, ◌++◌, arith, length, ◌>>=◌, Bool-cases,
  sym, inl, inr, ℤ, negsuc, ap, ◌∙◌, if◌then◌else◌,
}
use mathlib.Core.Option
use alarmd.Event.{Bytes, Text, Event, Attr, bytes_eq, bytes_eq_iff}
use alarmd.Attributes.{
  added, find_attr, get_elem?, modify, get_attr, add_attr, attr_create, rem_from, rem_attr,
  set_attr, read_attr, attr_get_int, attr_get_time, to_int, attr_get_string, get_attr_int,
  get_attr_time, get_attr_string, or_empty, set_attr_int, set_attr_time, set_attr_string,
  attr_set_int, attr_set_time, attr_set_string, attr_set_null,
}

-- The first attribute of the name, without a pointer
look : List Attr → Bytes → Option Attr
look [] name = none
look (a ∷ tab) name = if bytes_eq a.attr_name name then some a else look tab name

under :
    (a : Attr) (tab : List Attr) (o : Option ℕ)
    → (Option.map suc o >>= get_elem? (a ∷ tab)) ≡ (o >>= get_elem? tab)
under a tab none = refl
under a tab (some i) = refl

find_attr-look :
    (tab : List Attr) (name : Bytes) → (find_attr tab name >>= get_elem? tab) ≡ look tab name
unfolding find_attr look
find_attr-look [] name = refl
find_attr-look (a ∷ tab) name = elim (Bool-cases (bytes_eq a.attr_name name)) [
  | inl here ↦ rw here refl
  | inr there ↦ rw there (under a tab (find_attr tab name) ∙ find_attr-look tab name)
]

-- The change of the first attribute of the name, or of a new one at the end
put_in : (Attr → Attr) → List Attr → Bytes → List Attr
put_in f [] name = f (attr_create name) ∷ []
put_in f (a ∷ tab) name = if bytes_eq a.attr_name name then f a ∷ tab else a ∷ put_in f tab name

modify-put_in :
    (f : Attr → Attr) (self : Event) (tab : List Attr) (name : Bytes)
    → let (self', i) = added (record self { attr_tab = tab }) name (find_attr tab name) in
      modify f self'.attr_tab i ≡ put_in f tab name
unfolding find_attr put_in modify
modify-put_in f self [] name = refl
modify-put_in f self (a ∷ tab) name = elim (Bool-cases (bytes_eq a.attr_name name)) [
  | inl here ↦ rw here refl
  | inr there ↦ rw there (later (find_attr tab name) (modify-put_in f self tab name))
]
  where
    later :
        (o : Option ℕ)
        → modify f
            (added (record self { attr_tab = tab }) name o).0.attr_tab
            (added (record self { attr_tab = tab }) name o).1
          ≡ put_in f tab name
        → modify f
            (added (record self { attr_tab = a ∷ tab }) name (Option.map suc o)).0.attr_tab
            (added (record self { attr_tab = a ∷ tab }) name (Option.map suc o)).1
          ≡ a ∷ put_in f tab name
    later none h = ap (◌∷◌ a) h
    later (some i) h = ap (◌∷◌ a) h

keeps_rest :
    (f : Attr → Attr) (self : Event) (name : Bytes) (o : Option ℕ) (t : List Attr)
    → record (added self name o).0 { attr_tab = t } ≡ record self { attr_tab = t }
keeps_rest f self name none t = refl
keeps_rest f self name (some i) t = refl

set_attr-put_in :
    (f : Attr → Attr) (self : Event) (name : Bytes)
    → set_attr f self name ≡ record self { attr_tab = put_in f self.attr_tab name }
unfolding set_attr add_attr
set_attr-put_in f self name =
    keeps_rest f self name (find_attr self.attr_tab name) _
    ∙ ap (λ t. record self { attr_tab = t }) (modify-put_in f self self.attr_tab name)

look-put_in :
    (f : Attr → Attr)
    → ((a : Attr) → (f a).attr_name ≡ a.attr_name)
    → (tab : List Attr) (name : Bytes) → (a : Attr) × (look (put_in f tab name) name ≡ some (f a))
unfolding look put_in attr_create
look-put_in f keeps [] name = (
  attr_create name,
  ground (arith, keeps (attr_create name), bytes_eq_iff (attr_create name).attr_name name),
)
look-put_in f keeps (a ∷ tab) name = elim (Bool-cases (bytes_eq a.attr_name name)) [
  | inl here ↦ (a, ground (arith, keeps a))
  | inr there ↦ let (b, e) = look-put_in f keeps tab name in (b, ground arith)
]

look-put_in_ne :
    (f : Attr → Attr)
    → ((a : Attr) → (f a).attr_name ≡ a.attr_name)
    → (tab : List Attr) (name other : Bytes) → other ≢ name
    → look (put_in f tab name) other ≡ look tab other
unfolding look put_in attr_create
look-put_in_ne f keeps [] name other n =
    ground (arith, keeps (attr_create name), bytes_eq_iff name other)
look-put_in_ne f keeps (a ∷ tab) name other n = ground (
  arith,
  keeps a,
  bytes_eq_iff a.attr_name other,
  bytes_eq_iff a.attr_name name,
  look-put_in_ne f keeps tab name other n,
)

look-rem_from :
    (tab : List Attr) (name other : Bytes)
    → look (rem_from name tab) other ≡ (if bytes_eq name other then none else look tab other)
unfolding look rem_from
look-rem_from [] name other = ground arith
look-rem_from (a ∷ tab) name other = ground (
  arith,
  bytes_eq_iff a.attr_name other,
  bytes_eq_iff a.attr_name name,
  bytes_eq_iff name other,
  look-rem_from tab name other,
)

get_attr-look : (self : Event) (name : Bytes) → get_attr self name ≡ look self.attr_tab name
unfolding get_attr
get_attr-look self name = find_attr-look self.attr_tab name

-- The attribute that alarm_event_add_attr points to, once there is one of the name
abbrev Points : Event → Bytes → Attr → Option ℕ → Type 0
Points self name a o =
    ((added self name o).0 ≡ self) × (get_elem? self.attr_tab (added self name o).1 ≡ some a)

points :
    (self : Event) (name : Bytes) (a : Attr) (o : Option ℕ)
    → (o >>= get_elem? self.attr_tab) ≡ some a
    → Points self name a o
points self name a none h = cc
points self name a (some i) h = (refl, h)

-- A value that is read off the attribute of the name, whatever the default
read_again :
    {A : Type 0} (get : Attr → Option A) (self : Event) (name : Bytes) (def : A) (a : Attr)
    → look self.attr_tab name ≡ some a
    → read_attr get self name def ≡ (self, get a)
unfolding add_attr read_attr
read_again get self name def a h =
    let (e, p) =
      points self name a (find_attr self.attr_tab name) (find_attr-look self.attr_tab name ∙ h) in
    rw (e, p) refl

find-none : (tab : List Attr) (name : Bytes) → look tab name ≡ none → find_attr tab name ≡ none
unfolding look find_attr
find-none [] name h = refl
find-none (a ∷ tab) name h = elim (Bool-cases (bytes_eq a.attr_name name)) [
  | inl here ↦ ground arith
  | inr there ↦ rw there (ap (Option.map suc) (find-none tab name (ground arith)))
]

pub at_end : (tab : List Attr) (a : Attr) → get_elem? (tab ++ a ∷ []) (length tab) ≡ some a
at_end [] a = refl
at_end (b ∷ tab) a = at_end tab a

look_at_end :
    (tab : List Attr) (name : Bytes)
    → look tab name ≡ none
    → look (tab ++ attr_create name ∷ []) name ≡ some (attr_create name)
unfolding look attr_create
look_at_end [] name h = ground (arith, bytes_eq_iff name name)
look_at_end (b ∷ tab) name h = ground (arith, look_at_end tab name)

read_missing :
    {A : Type 0} (get : Attr → Option A) (self : Event) (name : Bytes) (def : A)
    → look self.attr_tab name ≡ none
    → read_attr get self name def
      ≡ (record self { attr_tab = self.attr_tab ++ attr_create name ∷ [] }, get (attr_create name))
unfolding read_attr add_attr
read_missing get self name def h =
    rw (find-none self.attr_tab name h, at_end self.attr_tab (attr_create name)) refl

-- One attribute has been set: the others and the rest of the event are as before.
pub record SetOnly (self self' : Event) (name : Bytes) : Type 0 where
  pub others : (other : Bytes) → other ≢ name → get_attr self' other ≡ get_attr self other
  pub rest : self' ≡ record self { attr_tab = self'.attr_tab }

set_attr-SetOnly :
    (f : Attr → Attr)
    → ((a : Attr) → (f a).attr_name ≡ a.attr_name)
    → (self : Event) (name : Bytes) → SetOnly self (set_attr f self name) name
set_attr-SetOnly f keeps self name = rw (set_attr-put_in f self name) (record {
  others = λ other n.
      get_attr-look _ other
      ∙ look-put_in_ne f keeps self.attr_tab name other n
      ∙ sym (get_attr-look self other);
  rest = refl;
})

set_attr-reads :
    {A : Type 0} (f : Attr → Attr)
    → ((a : Attr) → (f a).attr_name ≡ a.attr_name)
    → (get : Attr → Option A) (v : A) → ((a : Attr) → get (f a) ≡ some v)
    → (self : Event) (name : Bytes) (def : A)
    → read_attr get (set_attr f self name) name def ≡ (set_attr f self name, some v)
set_attr-reads f keeps get v gives self name def =
    let (a, e) = look-put_in f keeps self.attr_tab name in
    let self' : Event = record self { attr_tab = put_in f self.attr_tab name } in
    rw (set_attr-put_in f self name)
      (read_again get self' name def (f a) e ∙ ap (λ o. (self', o)) (gives a))

-- An attribute that is set to a number reads as that afterwards by both number getters; one that is
-- set to a time reads as that by the time getter, and as what an int makes of it by the int getter;
-- one that is set to a text reads as that. This holds with any default; other attributes and the
-- rest of the event are as before.
pub set_attr-Reads :
    (strtol : Bytes → ℤ) (self : Event) (name : Bytes) (n t : ℤ) (s : Text)
    → ((def : ℤ)
        → get_attr_int strtol (set_attr_int self name n) name def
          ≡ (set_attr_int self name n, some n))
      × ((def : ℤ)
          → get_attr_time strtol (set_attr_int self name n) name def
            ≡ (set_attr_int self name n, some n))
      × ((def : ℤ)
          → get_attr_time strtol (set_attr_time self name t) name def
            ≡ (set_attr_time self name t, some t))
      × ((def : ℤ)
          → get_attr_int strtol (set_attr_time self name t) name def
            ≡ (set_attr_time self name t, some (to_int t)))
      × ((def : Text)
          → get_attr_string (set_attr_string self name s) name def
            ≡ (set_attr_string self name s, some (some (or_empty s))))
      × SetOnly self (set_attr_int self name n) name
      × SetOnly self (set_attr_time self name t) name
      × SetOnly self (set_attr_string self name s) name
unfolding set_attr_int set_attr_time set_attr_string attr_set_int attr_set_time attr_set_string
    attr_set_null get_attr_int get_attr_time get_attr_string attr_get_int attr_get_time
    attr_get_string
set_attr-Reads strtol self name n t s = (
  λ def.
      set_attr-reads (attr_set_int n) (λ a. refl) (attr_get_int strtol) n (λ a. refl) self name def,
  λ def.
      set_attr-reads (attr_set_int n) (λ a. refl) (attr_get_time strtol) n (λ a. refl) self name
        def,
  λ def.
      set_attr-reads (attr_set_time t) (λ a. refl) (attr_get_time strtol) t (λ a. refl) self name
        def,
  λ def.
      set_attr-reads (attr_set_time t) (λ a. refl) (attr_get_int strtol) (to_int t) (λ a. refl) self
        name def,
  λ def.
      set_attr-reads (attr_set_string s) (λ a. refl) attr_get_string (some (or_empty s)) (λ a. refl)
        self name def,
  set_attr-SetOnly (attr_set_int n) (λ a. refl) self name,
  set_attr-SetOnly (attr_set_time t) (λ a. refl) self name,
  set_attr-SetOnly (attr_set_string s) (λ a. refl) self name,
)

-- Removing a name takes away every attribute of it, and no other.
pub get_attr-rem_attr :
    (self : Event) (name other : Bytes)
    → get_attr (rem_attr self name) other
      ≡ (if bytes_eq name other then none else get_attr self other)
unfolding rem_attr
get_attr-rem_attr self name other =
    get_attr-look _ other
    ∙ look-rem_from self.attr_tab name other
    ∙ ap (λ o. if bytes_eq name other then none else o) (sym (get_attr-look self other))

-- A getter on an attribute that is not there gives -1 or NULL whatever the default, and the event
-- has an attribute of the name and without a value afterwards.
pub get_attr-missing :
    (strtol : Bytes → ℤ) (self : Event) (name : Bytes) (n : ℤ) (s : Text)
    → get_attr self name ≡ none
    → let self' = record self { attr_tab = self.attr_tab ++ attr_create name ∷ [] } in
      (get_attr_int strtol self name n ≡ (self', some (negsuc 0)))
      × (get_attr_time strtol self name n ≡ (self', some (negsuc 0)))
      × (get_attr_string self name s ≡ (self', some none))
      × (get_attr self' name ≡ some (attr_create name))
unfolding get_attr_int get_attr_time get_attr_string attr_get_int attr_get_time attr_get_string
    attr_create
get_attr-missing strtol self name n s h =
    let e = sym (get_attr-look self name) ∙ h in
    (
      read_missing (attr_get_int strtol) self name n e,
      read_missing (attr_get_time strtol) self name n e,
      read_missing attr_get_string self name s e,
      get_attr-look _ name ∙ look_at_end self.attr_tab name e,
    )
