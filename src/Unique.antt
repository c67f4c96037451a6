-- ===== src/Unique.antt =====
-- src/unique.c, the list of names that src/inifile.c makes of the sections. qsort is a parameter;
-- the count and the room of the table are those of the list.
use alarmd.Common.{
  ◌==◌, Bool, true, false, ◌||◌, ◌&&◌, not, Option, none, some, List, [], ◌∷◌, ◌++◌, if◌then◌else◌,
  ltb,
}
use alarmd.Event.{Bytes, bytes_eq}
use alarmd.Inifile.{Inisec, Inifile}
pub mod Names

pub record Unique : Type 0 where
  pub un_dirty : Bool
  pub un_string : List Bytes

unfoldable pub unique_add : Unique → Bytes → Unique
unique_add self str = record self { un_dirty = true; un_string = self.un_string ++ str ∷ [] }

-- strcmp(a, b) < 0
unfoldable pub cmp_below : Bytes → Bytes → Bool
cmp_below [] [] = false
cmp_below [] (b ∷ t) = true
cmp_below (a ∷ s) [] = false
cmp_below (a ∷ s) (b ∷ t) = ltb a b || (a == b && cmp_below s t)

-- `prev == 0 || strcmp(prev, curr)`
unfoldable pub is_other : Option Bytes → Bytes → Bool
is_other none curr = true
is_other (some prev) curr = not (bytes_eq prev curr)

-- The loop over the sorted strings
unfoldable pub drop_repeats : Option Bytes → List Bytes → List Bytes
drop_repeats prev [] = []
drop_repeats prev (curr ∷ strings) =
    let kept = drop_repeats (some curr) strings in
    let skipped = drop_repeats prev strings in if is_other prev curr then curr ∷ kept else skipped

module _ (qsort : List Bytes → List Bytes) where
  unfoldable pub unique_final : Unique → Unique
  unique_final self =
      if self.un_dirty
      then record { un_dirty = false; un_string = drop_repeats none (qsort self.un_string) }
      else self

  -- What is stolen, and what is left
  unfoldable pub unique_steal : Unique → List Bytes × Unique
  unique_steal self = ((unique_final self).un_string, record { un_dirty = false; un_string = [] })

-- Until the callback gives something else than 0
unfoldable pub inifile_scan_sections :
    {A : Type 0} → (Inisec → A → A × Bool) → Inifile → A → A × Option Inisec
inifile_scan_sections cb [] a = (a, none)
inifile_scan_sections cb (sec ∷ secs) a =
    let (a', found) = cb sec a in
    let rest = inifile_scan_sections cb secs a' in if found then (a', some sec) else rest

abbrev pub section_names_cb : Inisec → Unique → Unique × Bool
section_names_cb sec unique = (unique_add unique sec.is_name, false)

-- unique_ctor leaves un_dirty as it is in memory: `dirty`
unfoldable pub inifile_get_section_names : (List Bytes → List Bytes) → Bool → Inifile → List Bytes
inifile_get_section_names qsort dirty self =
    let unique : Unique = record { un_dirty = dirty; un_string = [] } in
    (unique_steal qsort (inifile_scan_sections section_names_cb self unique).0).0
