-- ===== src/Unique/Names.antt =====
-- The names of the sections, in order and each once.
use alarmd.Common.{
  ◌≡◌, refl, sym, subst, ◌∙◌, Bool, true, false, none, some, List, [], ◌∷◌, ◌++◌, map, ◌⊎◌, inl,
  inr, ◌↔◌, arith, Bool-cases,
}
use mathlib.Core.List.{append_assoc, append-nil}
use alarmd.Event.{Bytes, bytes_eq, bytes_eq_iff}
use alarmd.Inifile.{Inifile}
use alarmd.Unique.{
  Unique, unique_add, cmp_below, is_other, drop_repeats, unique_final, unique_steal,
  inifile_scan_sections, section_names_cb, inifile_get_section_names,
}

abbrev pub Occurs : Bytes → List Bytes → Type 0
Occurs x [] = ⊥
Occurs x (y ∷ l) = (x ≡ y) ⊎ Occurs x l

-- No string is before the one that it follows
abbrev pub Sorted : List Bytes → Type 0
Sorted [] = Unit {0}
Sorted (a ∷ []) = Unit {0}
Sorted (a ∷ b ∷ l) = (cmp_below b a ≡ false) × Sorted (b ∷ l)

-- Each string is behind the one that it follows
abbrev pub Ascending : List Bytes → Type 0
Ascending [] = Unit {0}
Ascending (a ∷ []) = Unit {0}
Ascending (a ∷ b ∷ l) = (cmp_below a b ≡ true) × Ascending (b ∷ l)

-- What qsort does with strings that strcmp compares
pub record Sorts (qsort : List Bytes → List Bytes) : Type 0 where
  pub sorted : (l : List Bytes) → Sorted (qsort l)
  pub permutes : (l : List Bytes) (x : Bytes) → Occurs x (qsort l) ↔ Occurs x l

cmp_below-other :
    (a b : Bytes) → cmp_below b a ≡ false → bytes_eq a b ≡ false → cmp_below a b ≡ true
unfolding cmp_below bytes_eq
cmp_below-other [] [] h n = ground arith
cmp_below-other [] (b ∷ t) h n = refl
cmp_below-other (a ∷ s) [] h n = ground arith
cmp_below-other (a ∷ s) (b ∷ t) h n = ground (arith, cmp_below-other s t)

Sorted-tail : (a : Bytes) (l : List Bytes) → Sorted (a ∷ l) → Sorted l
Sorted-tail a [] h = tt
Sorted-tail a (b ∷ l) h = h.1

drop_repeats-Ascending :
    (a : Bytes) (l : List Bytes) → Sorted (a ∷ l) → Ascending (a ∷ drop_repeats (some a) l)
unfolding drop_repeats is_other
drop_repeats-Ascending a [] h = tt
drop_repeats-Ascending a (b ∷ l) h = elim (Bool-cases (bytes_eq a b)) [
  | inl e ↦
      let same = (bytes_eq_iff a b).0 e in
      let rest = subst (λ c. Sorted (c ∷ l)) (sym same) h.1 in
      rw e (drop_repeats-Ascending a l rest)
  | inr n ↦ rw n (cmp_below-other a b h.0 n, drop_repeats-Ascending b l h.1)
]

drop_repeats-Occurs :
    (a : Bytes) (l : List Bytes) (x : Bytes)
    → Occurs x (a ∷ drop_repeats (some a) l) ↔ Occurs x (a ∷ l)
unfolding drop_repeats is_other
drop_repeats-Occurs a [] x = ground arith
drop_repeats-Occurs a (b ∷ l) x = elim (Bool-cases (bytes_eq a b)) [
  | inl e ↦
      let same = (bytes_eq_iff a b).0 e in
      let rest = drop_repeats-Occurs a l x in rw e (ground (arith, same, rest))
  | inr n ↦ let rest = drop_repeats-Occurs b l x in rw n (ground (arith, rest))
]

scan_names :
    (f : Inifile) (u : Unique)
    → ((inifile_scan_sections section_names_cb f u).0).un_string
      ≡ u.un_string ++ map (λ sec. sec.is_name) f
unfolding inifile_scan_sections unique_add
scan_names [] u = sym (append-nil u.un_string)
scan_names (sec ∷ f) u =
    scan_names f (unique_add u sec.is_name)
    ∙ append_assoc u.un_string (sec.is_name ∷ []) (map (λ s. s.is_name) f)

scan_dirty :
    (f : Inifile) (u : Unique)
    → u.un_dirty ≡ true
    → ((inifile_scan_sections section_names_cb f u).0).un_dirty ≡ true
unfolding inifile_scan_sections unique_add
scan_dirty [] u h = h
scan_dirty (sec ∷ f) u h = scan_dirty f (unique_add u sec.is_name) refl

-- The names of `l`, in order and each once
pub record Names (l names : List Bytes) : Type 0 where
  pub ascending : Ascending names
  pub complete : (x : Bytes) → Occurs x names ↔ Occurs x l

drop_repeats-Names : (l : List Bytes) → Sorted l → Names l (drop_repeats none l)
unfolding drop_repeats is_other
drop_repeats-Names [] h = record { ascending = tt; complete = λ x. ground arith }
drop_repeats-Names (a ∷ l) h = record {
  ascending = drop_repeats-Ascending a l h;
  complete = drop_repeats-Occurs a l;
}

sorted-Names :
    (qsort : List Bytes → List Bytes)
    → Sorts qsort
    → (l : List Bytes) → Names l (drop_repeats none (qsort l))
sorted-Names qsort sorts l =
    let names = drop_repeats-Names (qsort l) (sorts.sorted l) in
    record {
      ascending = names.ascending;
      complete = λ x.
          let there = names.complete x in
          let back = sorts.permutes l x in ((λ o. back.0 (there.0 o)), (λ o. there.1 (back.1 o)));
    }

-- With a qsort that sorts, the list of the names of the sections has each name once, each behind
-- those before it in the order of strcmp, and has a name exactly if a section has it, whatever the
-- memory held where unique_ctor leaves un_dirty as it is.
pub inifile_get_section_names-Names :
    (qsort : List Bytes → List Bytes)
    → Sorts qsort
    → (dirty : Bool) (f : Inifile)
    → Names (map (λ sec. sec.is_name) f) (inifile_get_section_names qsort dirty f)
unfolding inifile_get_section_names unique_steal unique_final inifile_scan_sections unique_add
inifile_get_section_names-Names qsort sorts true [] = sorted-Names qsort sorts []
inifile_get_section_names-Names qsort sorts false [] = record {
  ascending = tt;
  complete = λ x. ground arith;
}
inifile_get_section_names-Names qsort sorts dirty (sec ∷ f) =
    let begun = unique_add (record { un_dirty = dirty; un_string = [] }) sec.is_name in
    rw (scan_dirty f begun refl, scan_names f begun) (sorted-Names qsort sorts _)
