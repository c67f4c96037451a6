-- ===== src/Inifile/Reload.antt =====
-- Saving sections of values with src/inifile.c and loading them again.
use alarmd.Common.{
  ℕ, ◌+◌, ◌≡◌, ◌≢◌, refl, sym, ap, ◌∙◌, ◌==◌, false, Option, none, some, List, [], ◌∷◌, ◌++◌, map,
  length, arith,
}
use mathlib.Core.List.{append_assoc, append-nil}
use alarmd.Event.{Bytes, bytes_eq_iff}
use alarmd.Escape.RoundTrip.{drop_blanks}
use alarmd.Inifile.{
  Inival, Inisec, Inifile, symtab_lookup, symtab_append, change_at, inival_create, inival_compare,
  inisec_create, inisec_compare, inisec_set, inifile_add_section, xsplit, skip_white, trim_end,
  xstrip, xstripall, load_line, inifile_save_to_memory, inifile_load,
}
use alarmd.Inifile.Lines.{
  value_line, name_line, file_lines, AllText, all_lines, save_sections-lines, run_lines,
  load_lines-run, length-all_lines,
}

abbrev pub Without : ℕ → Bytes → Type 0
Without sep [] = Unit {0}
Without sep (c ∷ s) = (c ≢ sep) × Without sep s

xsplit-at : (sep : ℕ) (s t : Bytes) → Without sep s → xsplit sep (s ++ (sep ∷ t)) ≡ (s, t)
unfolding xsplit
xsplit-at sep [] t h = ground arith
xsplit-at sep (c ∷ s) t (n, h) = ground (arith, xsplit-at sep s t h)

drop_blanks-inner :
    (c : ℕ) (s t : Bytes) → c ≢ 32 → drop_blanks (s ++ (c ∷ t)) ≡ s ++ (c ∷ drop_blanks t)
unfolding drop_blanks
drop_blanks-inner c [] t n = ground arith
drop_blanks-inner c (d ∷ []) t n = ground (arith, drop_blanks-inner c [] t n)
drop_blanks-inner c (d ∷ e ∷ s) t n = ground (arith, drop_blanks-inner c (e ∷ s) t n)

trim_end-drop_blanks : (s : Bytes) → trim_end (drop_blanks s) ≡ trim_end s
unfolding trim_end drop_blanks
trim_end-drop_blanks [] = refl
trim_end-drop_blanks (c ∷ s) = ground (arith, trim_end-drop_blanks s)

xstrip-drop_blanks : (s : Bytes) → xstrip (drop_blanks s) ≡ xstrip s
unfolding xstrip skip_white trim_end drop_blanks
xstrip-drop_blanks [] = refl
xstrip-drop_blanks (c ∷ s) = ground (arith, xstrip-drop_blanks s, trim_end-drop_blanks s)

-- A name of a section that survives in its brackets, and a key that does so before its separator
pub record IsName (name : Bytes) : Type 0 where
  pub closed : Without b']' name
  pub normal : xstripall name ≡ name

abbrev pub StartsPlain : Bytes → Type 0
StartsPlain [] = ⊥
StartsPlain (c ∷ s) = (c ≢ b'#') × (c ≢ b'[')

pub record IsKey (key : Bytes) : Type 0 where
  pub plain : StartsPlain key
  pub single : Without b':' key
  pub normal : xstripall key ≡ key

abbrev pub NewKey : Bytes → List Inival → Type 0
NewKey key [] = Unit {0}
NewKey key (v ∷ vs) = (v.iv_key ≢ key) × NewKey key vs

abbrev pub NewName : Bytes → Inifile → Type 0
NewName name [] = Unit {0}
NewName name (sec ∷ secs) = (sec.is_name ≢ name) × NewName name secs

-- Values that may stand behind `before`: each with a key of its own and no blanks around it
abbrev pub CleanValues : List Inival → List Inival → Type 0
CleanValues before [] = Unit {0}
CleanValues before (v ∷ vs) =
    IsKey v.iv_key
    × (xstrip v.iv_val ≡ v.iv_val)
    × NewKey v.iv_key before
    × CleanValues (before ++ v ∷ []) vs

abbrev pub CleanSections : Inifile → Inifile → Type 0
CleanSections before [] = Unit {0}
CleanSections before (sec ∷ secs) =
    IsName sec.is_name
    × NewName sec.is_name before
    × CleanValues [] sec.is_values
    × CleanSections (before ++ sec ∷ []) secs

lookup-NewKey :
    (key : Bytes) (vs : List Inival) → NewKey key vs → symtab_lookup (inival_compare key) vs ≡ none
unfolding symtab_lookup inival_compare
lookup-NewKey key [] h = refl
lookup-NewKey key (v ∷ vs) (n, h) =
    ground (arith, bytes_eq_iff v.iv_key key, lookup-NewKey key vs h)

lookup-NewName :
    (name : Bytes) (secs : Inifile)
    → NewName name secs
    → symtab_lookup (inisec_compare name) secs ≡ none
unfolding symtab_lookup inisec_compare
lookup-NewName name [] h = refl
lookup-NewName name (s ∷ secs) (n, h) =
    ground (arith, bytes_eq_iff s.is_name name, lookup-NewName name secs h)

change_at-last :
    (f : Inisec → Inisec) (secs : Inifile) (sec : Inisec)
    → change_at f (secs ++ sec ∷ []) (length secs) ≡ secs ++ f sec ∷ []
unfolding change_at
change_at-last f [] sec = refl
change_at-last f (s ∷ secs) sec = ap (◌∷◌ s) (change_at-last f secs sec)

inisec_set-new :
    (v : Inival) (sec : Inisec)
    → NewKey v.iv_key sec.is_values
    → inisec_set v.iv_key v.iv_val sec ≡ record sec { is_values = sec.is_values ++ v ∷ [] }
unfolding inisec_set symtab_append inival_create
inisec_set-new v sec h = rw (lookup-NewKey v.iv_key sec.is_values h) refl

xstrip-read : (val : Bytes) → xstrip val ≡ val → xstrip (drop_blanks (32 ∷ val)) ≡ val
xstrip-read val h = xstrip-drop_blanks (32 ∷ val) ∙ (unfold xstrip skip_white in h)

value_read :
    (key val line : Bytes) (secs : Inifile) (sec : Inisec)
    → IsKey key
    → xstrip line ≡ val
    → load_line (key ++ (b':' ∷ line)) (secs ++ sec ∷ [], some (length secs))
      ≡ (secs ++ inisec_set key val sec ∷ [], some (length secs))
unfolding load_line
value_read [] val line secs sec k h = absurd k.plain
value_read (c ∷ key) val line secs sec k h =
    let (hash, bra) = k.plain in
    let not_hash : (c == b'#') ≡ false = ground arith in
    let not_bra : (c == b'[') ≡ false = ground arith in
    rw (not_hash, not_bra, xsplit-at b':' (c ∷ key) line k.single, k.normal, h)
      (ap (λ s. (s, some (length secs))) (change_at-last (inisec_set (c ∷ key) val) secs sec))

run_values :
    (vs : List Inival) (ls : List Bytes) (secs : Inifile) (sec : Inisec)
    → CleanValues sec.is_values vs
    → run_lines (map value_line vs ++ ls) (secs ++ sec ∷ [], some (length secs))
      ≡ run_lines ls
          (secs ++ record sec { is_values = sec.is_values ++ vs } ∷ [], some (length secs))
unfolding run_lines
run_values [] ls secs sec h = rw append-nil refl
run_values (v ∷ vs) ls secs sec (k, val, new, h) =
    let done : Inisec = record sec { is_values = sec.is_values ++ v ∷ [] } in
    let line = drop_blanks-inner b':' v.iv_key (b' ' ∷ v.iv_val) (omega arith) in
    let step =
      ap (λ l. load_line l (secs ++ sec ∷ [], some (length secs))) line
      ∙ value_read v.iv_key v.iv_val _ secs sec k (xstrip-read v.iv_val val)
      ∙ ap (λ s. (secs ++ s ∷ [], some (length secs))) (inisec_set-new v sec new) in
    ap (λ st. run_lines (map value_line vs ++ ls) st) step
    ∙ run_values vs ls secs done h
    ∙ ap (λ t. run_lines ls (secs ++ record sec { is_values = t } ∷ [], some (length secs)))
        (append_assoc sec.is_values (v ∷ []) vs)

name_read :
    (name : Bytes) (secs : Inifile) (cur : Option ℕ)
    → IsName name
    → NewName name secs
    → load_line (b'[' ∷ (name ++ (b']' ∷ []))) (secs, cur)
      ≡ (secs ++ inisec_create name ∷ [], some (length secs))
unfolding load_line inifile_add_section symtab_append
name_read name secs cur n new =
    rw
      (
        xsplit-at b'[' [] (name ++ b']' ∷ []) tt,
        xsplit-at b']' name [] n.closed,
        n.normal,
        lookup-NewName name secs new,
      )
      refl

load_line-blank : (st : Inifile × Option ℕ) → load_line (drop_blanks []) st ≡ st
unfolding load_line drop_blanks
load_line-blank st = refl

run_sections :
    (f secs : Inifile) (cur : Option ℕ)
    → CleanSections secs f
    → (run_lines (file_lines f) (secs, cur)).0 ≡ secs ++ f
unfolding run_lines inisec_create drop_blanks
run_sections [] secs cur h = sym (append-nil secs)
run_sections (sec ∷ f) secs cur (n, new, vals, h) =
    let begun = inisec_create sec.is_name in
    let line : drop_blanks (name_line sec) ≡ name_line sec =
      drop_blanks-inner b']' (b'[' ∷ sec.is_name) [] (omega arith) in
    let step = ap (λ l. load_line l (secs, cur)) line ∙ name_read sec.is_name secs cur n new in
    let after = map value_line sec.is_values ++ ([] ∷ file_lines f) in
    ap (λ st. (run_lines after st).0) step
    ∙ ap (λ st. st.0) (run_values sec.is_values ([] ∷ file_lines f) secs begun vals)
    ∙ ap (λ st. (run_lines (file_lines f) st).0)
        (load_line-blank (secs ++ sec ∷ [], some (length secs)))
    ∙ run_sections f (secs ++ sec ∷ []) (some (length secs)) h
    ∙ append_assoc secs (sec ∷ []) f

-- Sections that are saved come back as they were when the file is loaded into an empty one: their
-- order, their names, their keys and their values. The lines hold bytes of a text, the names and
-- keys are each distinct and without the character that ends them, a key is not empty and does not
-- start as a comment or a section does, and none of the names, keys and values has blanks that loading strips.
pub inifile_load-save_to_memory :
    (f : Inifile)
    → AllText (file_lines f)
    → CleanSections [] f
    → inifile_load (inifile_save_to_memory f) ≡ some f
unfolding inifile_load inifile_save_to_memory
inifile_load-save_to_memory f t h =
    let lines = file_lines f in
    rw (save_sections-lines [] f t) (
      load_lines-run (length (all_lines lines) + 1) lines ([], none)
        (omega (arith, length-all_lines lines t)) t
      ∙ ap some (run_sections f [] none h))
