-- ===== src/Tests/UniqueExamples.antt =====
-- A sort by insertion as qsort, and three sections of which two have names alike.
use alarmd.Common.{
  ◌≡◌, refl, true, false, List, [], ◌∷◌, if◌then◌else◌, inl, inr, ◌↔◌, arith, Bool-cases,
}
use alarmd.Event.{Bytes}
use alarmd.Inifile.{Inisec, Inifile}
use alarmd.Unique.{cmp_below, inifile_get_section_names}
use alarmd.Unique.Names.{Occurs, Sorted, Sorts, Names, inifile_get_section_names-Names}

unfoldable insert : Bytes → List Bytes → List Bytes
insert a [] = a ∷ []
insert a (b ∷ l) = let rest = insert a l in if cmp_below b a then b ∷ rest else a ∷ b ∷ l

unfoldable sort : List Bytes → List Bytes
sort [] = []
sort (a ∷ l) = insert a (sort l)

cmp_below-asym : (a b : Bytes) → cmp_below a b ≡ true → cmp_below b a ≡ false
unfolding cmp_below
cmp_below-asym [] [] h = refl
cmp_below-asym [] (b ∷ t) h = refl
cmp_below-asym (a ∷ s) [] h = ground arith
cmp_below-asym (a ∷ s) (b ∷ t) h = ground (arith, cmp_below-asym s t)

insert-Sorted_behind :
    (a b : Bytes) (l : List Bytes)
    → Sorted (b ∷ l)
    → cmp_below a b ≡ false
    → Sorted (b ∷ insert a l)
unfolding insert
insert-Sorted_behind a b [] h n = (n, tt)
insert-Sorted_behind a b (c ∷ l) (h, hs) n = elim (Bool-cases (cmp_below c a)) [
  | inl e ↦ rw e (h, insert-Sorted_behind a c l hs (cmp_below-asym c a e))
  | inr m ↦ rw m (n, (m, hs))
]

insert-Sorted : (a : Bytes) (l : List Bytes) → Sorted l → Sorted (insert a l)
unfolding insert
insert-Sorted a [] h = tt
insert-Sorted a (b ∷ l) h = elim (Bool-cases (cmp_below b a)) [
  | inl e ↦ rw e (insert-Sorted_behind a b l h (cmp_below-asym b a e))
  | inr n ↦ rw n (n, h)
]

insert-Occurs : (a : Bytes) (l : List Bytes) (x : Bytes) → Occurs x (insert a l) ↔ Occurs x (a ∷ l)
unfolding insert
insert-Occurs a [] x = ground arith
insert-Occurs a (b ∷ l) x = elim (Bool-cases (cmp_below b a)) [
  | inl e ↦ let rest = insert-Occurs a l x in rw e (ground (arith, rest))
  | inr n ↦ rw n (ground arith)
]

sort-Sorted : (l : List Bytes) → Sorted (sort l)
unfolding sort
sort-Sorted [] = tt
sort-Sorted (a ∷ l) = insert-Sorted a (sort l) (sort-Sorted l)

sort-Occurs : (l : List Bytes) (x : Bytes) → Occurs x (sort l) ↔ Occurs x l
unfolding sort
sort-Occurs [] x = ground arith
sort-Occurs (a ∷ l) x = ground (arith, insert-Occurs a (sort l) x, sort-Occurs l x)

sort-Sorts : Sorts sort
sort-Sorts = record { sorted = sort-Sorted; permutes = sort-Occurs }

abbrev named : Bytes → Inisec
named name = record { is_name = name; is_values = [] }

abbrev three : Inifile
three = named (b'b' ∷ []) ∷ named (b'a' ∷ b'c' ∷ []) ∷ named (b'b' ∷ []) ∷ []

inifile_get_section_names-Names_example :
    Names
      ((b'b' ∷ []) ∷ (b'a' ∷ b'c' ∷ []) ∷ (b'b' ∷ []) ∷ [])
      (inifile_get_section_names sort false three)
inifile_get_section_names-Names_example =
    inifile_get_section_names-Names sort sort-Sorts false three
