-- ===== src/Inifile.antt =====
-- src/inifile.c: sections of values, their store and their lines in a file, with src/symtab.c and
-- the functions of src/xutil.h on texts. A pointer to an element of a table is its index. What
-- vasprintf makes of a format is the text given; writing does not fail, and a path is its bytes.
use alarmd.Common.{
  ℕ, zero, suc, ◌+◌, leb, ◌==◌, Bool, true, false, ◌&&◌, not, Option, none, some, List, [], ◌∷◌,
  ◌++◌, if◌then◌else◌, length,
}
use mathlib.Core.Option
use alarmd.Event.{Bytes, bytes_eq}
use alarmd.Escape.{escape_putline, escape_getline}
pub mod Lines
pub mod Reload
pub mod Stored

-- The first element that compares equal
unfoldable pub symtab_lookup : {A : Type 0} → (A → Bool) → List A → Option ℕ
symtab_lookup cmp [] = none
symtab_lookup cmp (elem ∷ elems) =
    if cmp elem then some 0 else Option.map suc (symtab_lookup cmp elems)

unfoldable pub symtab_append : {A : Type 0} → List A → A → List A
symtab_append elems elem = elems ++ elem ∷ []

abbrev pub at : {A : Type 0} → List A → ℕ → Option A
at [] i = none
at (a ∷ tail) zero = some a
at (a ∷ tail) (suc i) = at tail i

-- A change through a pointer
unfoldable pub change_at : {A : Type 0} → (A → A) → List A → ℕ → List A
change_at f [] i = []
change_at f (a ∷ tail) zero = f a ∷ tail
change_at f (a ∷ tail) (suc i) = a ∷ change_at f tail i

pub record Inival : Type 0 where
  pub iv_key : Bytes
  pub iv_val : Bytes

pub record Inisec : Type 0 where
  pub is_name : Bytes
  pub is_values : List Inival

-- `if_sections`
abbrev pub Inifile : Type 0
Inifile = List Inisec

unfoldable pub inival_set : Bytes → Inival → Inival
inival_set val self = record self { iv_val = val }

unfoldable pub inival_create : Bytes → Bytes → Inival
inival_create key val = record { iv_key = key; iv_val = val }

unfoldable pub inival_compare : Bytes → Inival → Bool
inival_compare key self = bytes_eq self.iv_key key

unfoldable pub inisec_create : Bytes → Inisec
inisec_create name = record { is_name = name; is_values = [] }

unfoldable pub inisec_compare : Bytes → Inisec → Bool
inisec_compare name self = bytes_eq self.is_name name

abbrev pub set_at : List Inival → Bytes → Bytes → Option ℕ → List Inival
set_at values key val none = symtab_append values (inival_create key val)
set_at values key val (some i) = change_at (inival_set val) values i

unfoldable pub inisec_set : Bytes → Bytes → Inisec → Inisec
inisec_set key val self = record self {
  is_values = set_at self.is_values key val (symtab_lookup (inival_compare key) self.is_values);
}

abbrev pub val_at : List Inival → Bytes → Option ℕ → Bytes
val_at values val none = val
val_at values val (some i) = elim (at values i) [ some res ↦ res.iv_val | none ↦ val ]

unfoldable pub inisec_get : Inisec → Bytes → Bytes → Bytes
inisec_get self key val =
    val_at self.is_values val (symtab_lookup (inival_compare key) self.is_values)

abbrev pub section_at : Inifile → Bytes → Option ℕ → Inifile × ℕ
section_at self sec none = (symtab_append self (inisec_create sec), length self)
section_at self sec (some i) = (self, i)

unfoldable pub inifile_add_section : Inifile → Bytes → Inifile × ℕ
inifile_add_section self sec = section_at self sec (symtab_lookup (inisec_compare sec) self)

-- `none` is a failure of vasprintf.
unfoldable pub inifile_setfmt : Inifile → Bytes → Bytes → Option Bytes → Inifile
inifile_setfmt self sec key none = self
inifile_setfmt self sec key (some val) =
    let (self', i) = inifile_add_section self sec in change_at (inisec_set key val) self' i

unfoldable pub inifile_get : Inifile → Bytes → Bytes → Bytes → Bytes
inifile_get self sec key val = elim (symtab_lookup (inisec_compare sec) self) [
  | none ↦ val
  | some i ↦ elim (at self i) [ some s ↦ inisec_get s key val | none ↦ val ]
]

-- Loops of inifile_save_to_stream
unfoldable pub save_values : Bytes → List Inival → Bytes
save_values file [] = file
save_values file (v ∷ vs) =
    save_values (escape_putline file (v.iv_key ++ (b':' ∷ b' ' ∷ v.iv_val))) vs

unfoldable pub save_sections : Bytes → Inifile → Bytes
save_sections file [] = file
save_sections file (sec ∷ secs) =
    let head = escape_putline file (b'[' ∷ (sec.is_name ++ (b']' ∷ []))) in
    save_sections (escape_putline (save_values head sec.is_values) []) secs

unfoldable pub inifile_save_to_memory : Inifile → Bytes
unfolding save_sections
inifile_save_to_memory self = save_sections [] self

-- Up to the separator, and from behind it
unfoldable pub xsplit : ℕ → Bytes → Bytes × Bytes
xsplit sep [] = ([], [])
xsplit sep (c ∷ pos) =
    let rest = xsplit sep pos in if c == sep then ([], pos) else (c ∷ rest.0, rest.1)

unfoldable pub skip_white : Bytes → Bytes
skip_white [] = []
skip_white (c ∷ s) = let rest = skip_white s in if leb c 32 then rest else c ∷ s

-- The text up to its last black character
unfoldable pub trim_end : Bytes → Bytes
trim_end [] = []
trim_end (c ∷ s) = elim (trim_end s) [ [] ↦ if leb c 32 then [] else c ∷ [] | d ∷ ds ↦ c ∷ d ∷ ds ]

unfoldable pub xstrip : Bytes → Bytes
unfolding skip_white trim_end
xstrip str = trim_end (skip_white str)

-- xstripall behind the blanks at the start; `gap` is whether white characters were passed that
-- become one blank if a black one follows.
unfoldable pub compress : Bool → Bytes → Bytes
compress gap [] = []
compress gap (c ∷ s) =
    let white = compress true s in
    let black = compress false s in
    if leb c 32 then white else if gap then b' ' ∷ c ∷ black else c ∷ black

unfoldable pub xstripall : Bytes → Bytes
unfolding skip_white compress
xstripall str = compress false (skip_white str)

-- `if( sec && *key ) inisec_set(sec, key, val)`
abbrev pub store_value : Bytes → Bytes → Inifile → Option ℕ → Inifile
store_value key val self none = self
store_value [] val self (some i) = self
store_value (c ∷ key) val self (some i) = change_at (inisec_set (c ∷ key) val) self i

-- What a line does: the sections, and the pointer `sec`
unfoldable pub load_line : Bytes → Inifile × Option ℕ → Inifile × Option ℕ
load_line [] (self, sec) = (self, sec)
load_line (c ∷ line) (self, sec) =
    if c == b'#'
    then (self, sec)
    else if c == b'['
    then (let name = xstripall (xsplit b']' (xsplit b'[' (c ∷ line)).1).0 in
        let (self', i) = inifile_add_section self name in (self', some i))
    else (let (key, val) = xsplit b':' (c ∷ line) in
        (store_value (xstripall key) (xstrip val) self sec, sec))

-- The lines of the file, with fuel for one round more than there are lines; `none` if it runs out.
unfoldable pub load_lines : ℕ → Bytes → Inifile × Option ℕ → Option Inifile
load_lines zero file st = none
load_lines (suc fuel) file st =
    let got = escape_getline file in
    elim got.0 [ none ↦ some st.0 | some line ↦ load_lines fuel got.1 (load_line line st) ]

-- inifile_load into an empty inifile_t, from a file that can be opened
unfoldable pub inifile_load : Bytes → Option Inifile
inifile_load file = load_lines (length file + 1) file ([], none)
