-- ===== src/Inifile/Stored.antt =====
-- Values of src/inifile.c that are set and read again.
use alarmd.Common.{
  ℕ, suc, ◌≡◌, refl, sym, ap, ◌∙◌, true, false, Option, none, some, List, [], ◌∷◌, if◌then◌else◌,
  arith, ◌&&◌, Bool-cases, inl, inr,
}
use mathlib.Core.Option
use alarmd.Event.{Bytes, bytes_eq, bytes_eq_iff}
use alarmd.Inifile.{
  Inival, Inisec, Inifile, symtab_lookup, symtab_append, change_at, inival_set, inival_create,
  inival_compare, inisec_create, inisec_compare, inisec_set, inisec_get, set_at, val_at, section_at,
  inifile_add_section, inifile_setfmt, inifile_get,
}

-- What is read of a table of values, and of a file, element by element
value_of : Bytes → Bytes → List Inival → Bytes
value_of key val [] = val
value_of key val (v ∷ vs) = if bytes_eq v.iv_key key then v.iv_val else value_of key val vs

val_at-value_of :
    (key val : Bytes) (vs : List Inival)
    → val_at vs val (symtab_lookup (inival_compare key) vs) ≡ value_of key val vs
unfolding symtab_lookup inival_compare value_of
val_at-value_of key val [] = refl
val_at-value_of key val (v ∷ vs) = ground (arith, val_at-value_of key val vs)

set_at-suc :
    (w : Inival) (vs : List Inival) (k v : Bytes) (o : Option ℕ)
    → set_at (w ∷ vs) k v (Option.map suc o) ≡ w ∷ set_at vs k v o
unfolding symtab_append change_at
set_at-suc w vs k v none = refl
set_at-suc w vs k v (some i) = refl

set_at-value_of :
    (key k v val : Bytes) (vs : List Inival)
    → value_of key val (set_at vs k v (symtab_lookup (inival_compare k) vs))
      ≡ (if bytes_eq k key then v else value_of key val vs)
unfolding symtab_lookup inival_compare value_of change_at inival_set symtab_append inival_create
set_at-value_of key k v val [] = refl
set_at-value_of key k v val (w ∷ vs) = elim (Bool-cases (bytes_eq w.iv_key k)) [
  | inl e ↦ rw (e, (bytes_eq_iff w.iv_key k).0 e) (ground arith)
  | inr e ↦
      rw (e, set_at-suc w vs k v (symtab_lookup (inival_compare k) vs))
        (ground (
          arith,
          e,
          set_at-value_of key k v val vs,
          bytes_eq_iff w.iv_key k,
          bytes_eq_iff w.iv_key key,
          bytes_eq_iff k key,
        ))
]

inisec_get-set :
    (sec : Inisec) (k v key val : Bytes)
    → inisec_get (inisec_set k v sec) key val
      ≡ (if bytes_eq k key then v else inisec_get sec key val)
unfolding inisec_get inisec_set
inisec_get-set sec k v key val =
    val_at-value_of key val (inisec_set k v sec).is_values
    ∙ set_at-value_of key k v val sec.is_values
    ∙ ap (λ t. if bytes_eq k key then v else t) (sym (val_at-value_of key val sec.is_values))

inifile_get-cons :
    (s : Inisec) (f : Inifile) (sec key val : Bytes)
    → inifile_get (s ∷ f) sec key val
      ≡ (if bytes_eq s.is_name sec then inisec_get s key val else inifile_get f sec key val)
unfolding inifile_get symtab_lookup inisec_compare
inifile_get-cons s f sec key val = ground arith

setfmt_at :
    (s : Inisec) (f : Inifile) (sec key val : Bytes) (o : Option ℕ)
    → (let (self', i) = section_at (s ∷ f) sec (Option.map suc o) in
        change_at (inisec_set key val) self' i)
      ≡ s ∷ (let (self', i) = section_at f sec o in change_at (inisec_set key val) self' i)
unfolding symtab_append change_at
setfmt_at s f sec key val none = refl
setfmt_at s f sec key val (some i) = refl

inifile_setfmt-cons :
    (s : Inisec) (f : Inifile) (sec key val : Bytes)
    → bytes_eq s.is_name sec ≡ false
    → inifile_setfmt (s ∷ f) sec key (some val) ≡ s ∷ inifile_setfmt f sec key (some val)
unfolding inifile_setfmt inifile_add_section symtab_lookup inisec_compare
inifile_setfmt-cons s f sec key val e =
    rw e (setfmt_at s f sec key val (symtab_lookup (inisec_compare sec) f))

inifile_setfmt-same :
    (s : Inisec) (f : Inifile) (sec key val : Bytes)
    → bytes_eq s.is_name sec ≡ true
    → inifile_setfmt (s ∷ f) sec key (some val) ≡ inisec_set key val s ∷ f
unfolding inifile_setfmt inifile_add_section symtab_lookup inisec_compare change_at
inifile_setfmt-same s f sec key val e = rw e refl

get-set_head :
    (s : Inisec) (f : Inifile) (sec k v sec' key val : Bytes)
    → bytes_eq s.is_name sec ≡ true
    → inifile_get (inisec_set k v s ∷ f) sec' key val
      ≡ (if bytes_eq sec sec' && bytes_eq k key then v else inifile_get (s ∷ f) sec' key val)
get-set_head s f sec k v sec' key val e =
    let same = (bytes_eq_iff s.is_name sec).0 e in
    rw
      (
        inifile_get-cons (inisec_set k v s) f sec' key val,
        inifile_get-cons s f sec' key val,
        inisec_get-set s k v key val,
        sym same,
      )
      (unfold inisec_set in ground arith)

inifile_get-created :
    (sec sec' key val : Bytes) → inifile_get (inisec_create sec ∷ []) sec' key val ≡ val
unfolding inifile_get inisec_get inisec_create symtab_lookup
inifile_get-created sec sec' key val = ground arith

inifile_setfmt-new :
    (sec k v : Bytes) → inifile_setfmt [] sec k (some v) ≡ inisec_set k v (inisec_create sec) ∷ []
unfolding inifile_setfmt inifile_add_section symtab_lookup symtab_append change_at
inifile_setfmt-new sec k v = refl

-- Once a text is stored under a key of a section, reading that key of that section gives the text,
-- and reading any other gives what it gave before, with any default.
pub inifile_get-setfmt :
    (f : Inifile) (sec k v sec' key val : Bytes)
    → inifile_get (inifile_setfmt f sec k (some v)) sec' key val
      ≡ (if bytes_eq sec sec' && bytes_eq k key then v else inifile_get f sec' key val)
unfolding inisec_create
inifile_get-setfmt [] sec k v sec' key val =
    rw
      (
        inifile_setfmt-new sec k v,
        get-set_head (inisec_create sec) [] sec k v sec' key val ((bytes_eq_iff sec sec).1 refl),
        inifile_get-created sec sec' key val,
      )
      (unfold inifile_get symtab_lookup in refl)
inifile_get-setfmt (s ∷ f) sec k v sec' key val = elim (Bool-cases (bytes_eq s.is_name sec)) [
  | inl e ↦
      ap (λ g. inifile_get g sec' key val) (inifile_setfmt-same s f sec k v e)
      ∙ get-set_head s f sec k v sec' key val e
  | inr e ↦
      rw
        (
          inifile_setfmt-cons s f sec k v e,
          inifile_get-cons s _ sec' key val,
          inifile_get-cons s f sec' key val,
          inifile_get-setfmt f sec k v sec' key val,
        )
        (ground (
          arith,
          e,
          bytes_eq_iff s.is_name sec,
          bytes_eq_iff s.is_name sec',
          bytes_eq_iff sec sec',
        ))
]
