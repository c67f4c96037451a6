-- ===== src/Inifile/Lines.antt =====
-- The file that src/inifile.c writes as a list of lines, and reading it line by line.
use alarmd.Common.{
  ℕ, zero, suc, ◌<◌, ◌≤◌, ◌≡◌, refl, sym, ap, ◌∙◌, Option, some, List, [], ◌∷◌, ◌++◌, map, length,
  length-append, arith,
}
use mathlib.Core.List.{append_assoc, append-nil}
use alarmd.Event.{Bytes}
use alarmd.Escape.{escape_putline, escape_getline}
use alarmd.Strbuf.RoundTrip.{IsText}
use alarmd.Escape.RoundTrip.{drop_blanks, putline-written, getline-putline, all_written}
use alarmd.Inifile.{Inival, Inisec, Inifile, save_values, save_sections, load_line, load_lines}

abbrev pub value_line : Inival → Bytes
value_line v = v.iv_key ++ (b':' ∷ b' ' ∷ v.iv_val)

abbrev pub name_line : Inisec → Bytes
name_line sec = b'[' ∷ (sec.is_name ++ (b']' ∷ []))

abbrev pub file_lines : Inifile → List Bytes
file_lines [] = []
file_lines (sec ∷ secs) = name_line sec ∷ (map value_line sec.is_values ++ ([] ∷ file_lines secs))

abbrev pub AllText : List Bytes → Type 0
AllText [] = Unit {0}
AllText (l ∷ ls) = IsText l × AllText ls

-- The bytes of the lines
pub all_lines : List Bytes → Bytes
all_lines [] = []
all_lines (l ∷ ls) = escape_putline [] l ++ all_lines ls

put_line : (file l : Bytes) → IsText l → escape_putline file l ≡ file ++ escape_putline [] l
put_line file l t = putline-written l t file ∙ ap (λ s. file ++ s) (sym (putline-written l t []))

all_lines-append : (ks ls : List Bytes) → all_lines (ks ++ ls) ≡ all_lines ks ++ all_lines ls
unfolding all_lines
all_lines-append [] ls = refl
all_lines-append (k ∷ ks) ls =
    ap (λ s. escape_putline [] k ++ s) (all_lines-append ks ls)
    ∙ sym (append_assoc (escape_putline [] k) (all_lines ks) (all_lines ls))

save_values-lines :
    (file : Bytes) (vs : List Inival)
    → AllText (map value_line vs)
    → save_values file vs ≡ file ++ all_lines (map value_line vs)
unfolding save_values all_lines
save_values-lines file [] t = sym (append-nil file)
save_values-lines file (v ∷ vs) (t, ts) =
    save_values-lines (escape_putline file (value_line v)) vs ts
    ∙ ap (λ s. s ++ all_lines (map value_line vs)) (put_line file (value_line v) t)
    ∙ append_assoc file _ _

AllText-append : (ks ls : List Bytes) → AllText (ks ++ ls) → AllText ks × AllText ls
AllText-append [] ls t = (tt, t)
AllText-append (k ∷ ks) ls (t, ts) = let (a, b) = AllText-append ks ls ts in ((t, a), b)

pub save_sections-lines :
    (file : Bytes) (f : Inifile)
    → AllText (file_lines f)
    → save_sections file f ≡ file ++ all_lines (file_lines f)
unfolding save_sections all_lines
save_sections-lines file [] t = sym (append-nil file)
save_sections-lines file (sec ∷ secs) (t, ts) =
    let values = map value_line sec.is_values in
    let (tv, (te, tr)) = AllText-append values ([] ∷ file_lines secs) ts in
    let head = escape_putline [] (name_line sec) in
    save_sections-lines
      (escape_putline (save_values (escape_putline file (name_line sec)) sec.is_values) []) secs tr
    ∙ ap (λ s. s ++ all_lines (file_lines secs))
        (put_line _ [] te
          ∙ ap (λ s. s ++ escape_putline [] [])
              (save_values-lines _ sec.is_values tv
                ∙ ap (λ s. s ++ all_lines values) (put_line file (name_line sec) t)))
    ∙ append_assoc _ (escape_putline [] []) _
    ∙ append_assoc (file ++ head) (all_lines values) _
    ∙ append_assoc file head _
    ∙ ap (λ s. file ++ (head ++ s)) (sym (all_lines-append values ([] ∷ file_lines secs)))

-- The lines one by one, as they are read
unfoldable pub run_lines : List Bytes → Inifile × Option ℕ → Inifile × Option ℕ
run_lines [] st = st
run_lines (l ∷ ls) st = run_lines ls (load_line (drop_blanks l) st)

pub load_lines-run :
    (fuel : ℕ) (ls : List Bytes) (st : Inifile × Option ℕ)
    → length ls < fuel
    → AllText ls
    → load_lines fuel (all_lines ls) st ≡ some (run_lines ls st).0
unfolding load_lines run_lines all_lines
load_lines-run zero ls st h t = absurd (omega arith)
load_lines-run (suc fuel) [] st h t = unfold escape_getline in refl
load_lines-run (suc fuel) (l ∷ ls) st h (t, ts) =
    let got = getline-putline l t (all_lines ls) in
    rw (got, load_lines)
      (rw got (load_lines-run fuel ls (load_line (drop_blanks l) st) (omega arith) ts))

pub length-all_lines : (ls : List Bytes) → AllText ls → length ls ≤ length (all_lines ls)
unfolding all_lines
length-all_lines [] t = omega arith
length-all_lines (l ∷ ls) (t, ts) = rw (putline-written l t []) (
    omega (
      arith,
      length-append (all_written l ++ 10 ∷ []) (all_lines ls),
      length-append (all_written l) (10 ∷ []),
      length-all_lines ls ts,
    ))
