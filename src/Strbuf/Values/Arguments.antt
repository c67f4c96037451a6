-- ===== src/Strbuf/Values/Arguments.antt =====
-- strbuf_decode reads back what strbuf_encode has written.
use alarmd.Common.{
  ℕ, ◌%◌, ◌^◌, ◌<◌, ◌==◌, true, Option, some, List, [], ◌∷◌, ◌++◌, length, map, ◌≡◌, refl, sym, ap,
  ◌∙◌, arith,
}
use mathlib.Core.List.{append_assoc, append-nil}
use alarmd.Strbuf.Values.Codec.{Fits, codec_reads, put_value-append, codec-Reads, get_unsigned-put}
use alarmd.Strbuf.{Strbuf, put_rawdata, put_rawbyte, popif}
use alarmd.Strbuf.Values.{
  Value, tag_of, tag_listbeg, tag_listend, put_unsigned, put_value, codec, put_values, put_array,
  get_values, expect, get_array, Arg, single, array, request, encode, returned, store, decode,
}

-- The values fit, and have the type that the tag names.
abbrev pub AllFit : ℕ → List Value → Type 0
AllFit tag [] = Unit {0}
AllFit tag (v ∷ vs) = Fits v × (tag_of v ≡ tag) × AllFit tag vs

values_onto : List Value → Strbuf → Strbuf
values_onto [] rest = rest
values_onto (v ∷ vs) rest = put_value [] v ++ values_onto vs rest

put_values-onto :
    (tag : ℕ) (vs : List Value)
    → AllFit tag vs
    → (self rest : Strbuf) → put_values self vs ++ rest ≡ self ++ values_onto vs rest
unfolding put_values values_onto
put_values-onto tag [] h self rest = refl
put_values-onto tag (v ∷ vs) (h, same, hs) self rest =
    put_values-onto tag vs hs (put_value self v) rest
    ∙ ap (λ s. s ++ values_onto vs rest) (put_value-append v h self)
    ∙ append_assoc self (put_value [] v) _

get_values-onto :
    (tag : ℕ) (get : Strbuf → Option (Value × Strbuf))
    → codec tag ≡ some get
    → (vs : List Value) → AllFit tag vs
    → (rest : Strbuf) → get_values get (length vs) (values_onto vs rest) ≡ some (vs, rest)
unfolding values_onto get_values
get_values-onto tag get known [] h rest = refl
get_values-onto tag get known (v ∷ vs) (h, same, hs) rest =
    rw (codec_reads tag get known v h same, get_values)
      (rw (get_values-onto tag get known vs hs rest) refl)

-- What is written for an array
array_onto : ℕ → List Value → Strbuf → Strbuf
array_onto tag vs rest =
    tag_listbeg ∷ tag ∷ (put_unsigned [] (length vs) ++ values_onto vs (tag_listend ∷ rest))

abbrev IsKnown : ℕ → Type 0
IsKnown tag = (get : Strbuf → Option (Value × Strbuf)) × (codec tag ≡ some get)

IsKnown-small : (tag : ℕ) → IsKnown tag → tag < 256
unfolding codec
IsKnown-small tag (get, known) = ground arith

expect_head : (c : ℕ) (self : Strbuf) → expect (c ∷ self) c ≡ some self
unfolding expect popif
expect_head c self = let same : (c == c) ≡ true = ground arith in rw same refl

module _ (tag : ℕ) (vs : List Value) (known : IsKnown tag) (h : AllFit tag vs)
    (l : length vs < 2 ^ 32) where
  put_array-onto : (self : Strbuf) → put_array self tag vs ≡ some (self ++ array_onto tag vs [])
  unfolding array_onto put_array put_unsigned put_rawbyte put_rawdata
  put_array-onto self =
      let one_byte : tag % 256 ≡ tag = omega (arith, IsKnown-small tag known) in
      let short : length vs % 2 ^ 32 ≡ length vs = omega (arith, l) in
      rw (known.1, one_byte, short)
        (ap some (put_values-onto tag vs h _ (tag_listend ∷ []) ∙ simp append_assoc))

  get_array-onto : (rest : Strbuf) → get_array (array_onto tag vs rest) tag ≡ some (vs, rest)
  unfolding array_onto get_array
  get_array-onto rest = rw known.1 (
      rw expect_head (
        rw expect_head (
          rw (get_unsigned-put 32 (length vs) _ l)
            (rw (get_values-onto tag known.0 known.1 vs h _) (rw expect_head refl)))))

-- The values of the argument fit, and so does the number of an array's elements.
abbrev pub ArgFits : Arg → Type 0
ArgFits (single v) = Fits v
ArgFits (array tag vs) = IsKnown tag × AllFit tag vs × (length vs < 2 ^ 32)

abbrev pub AllArgsFit : List Arg → Type 0
AllArgsFit [] = Unit {0}
AllArgsFit (a ∷ args) = ArgFits a × AllArgsFit args

args_onto : List Arg → Strbuf → Strbuf
args_onto [] rest = rest
args_onto (single v ∷ args) rest = tag_of v ∷ (put_value [] v ++ args_onto args rest)
args_onto (array tag vs ∷ args) rest = array_onto tag vs (args_onto args rest)

values_onto-append :
    (vs : List Value) (rest more : Strbuf)
    → values_onto vs rest ++ more ≡ values_onto vs (rest ++ more)
unfolding values_onto
values_onto-append [] rest more = refl
values_onto-append (v ∷ vs) rest more =
    append_assoc (put_value [] v) _ more
    ∙ ap (λ r. put_value [] v ++ r) (values_onto-append vs rest more)

array_onto-append :
    (tag : ℕ) (vs : List Value) (rest more : Strbuf)
    → array_onto tag vs rest ++ more ≡ array_onto tag vs (rest ++ more)
unfolding array_onto
array_onto-append tag vs rest more =
    ap (λ r. tag_listbeg ∷ tag ∷ r)
      (append_assoc (put_unsigned [] (length vs)) _ more
        ∙ ap (λ r. put_unsigned [] (length vs) ++ r)
            (values_onto-append vs (tag_listend ∷ rest) more))

args_onto-append :
    (args : List Arg) (rest more : Strbuf)
    → args_onto args rest ++ more ≡ args_onto args (rest ++ more)
unfolding args_onto
args_onto-append [] rest more = refl
args_onto-append (single v ∷ args) rest more =
    ap (λ r. tag_of v ∷ r)
      (append_assoc (put_value [] v) _ more
        ∙ ap (λ r. put_value [] v ++ r) (args_onto-append args rest more))
args_onto-append (array tag vs ∷ args) rest more =
    array_onto-append tag vs _ more ∙ ap (array_onto tag vs) (args_onto-append args rest more)

encode-onto :
    (args : List Arg)
    → AllArgsFit args
    → (self : Strbuf) → encode self args ≡ some (self ++ args_onto args [])
unfolding encode args_onto put_rawbyte put_rawdata
encode-onto [] h self = ap some (sym (append-nil self))
encode-onto (single v ∷ args) (h, hs) self =
    let one_byte : tag_of v % 256 ≡ tag_of v =
      omega (arith, IsKnown-small (tag_of v) ((codec-Reads v h).0, (codec-Reads v h).1)) in
    encode-onto args hs _
    ∙ ap some (rw (put_value-append v h, put_rawbyte, one_byte) (simp append_assoc))
encode-onto (array tag vs ∷ args) ((known, h, l), hs) self =
    rw (put_array-onto tag vs known h l self) (
      encode-onto args hs _
      ∙ ap some (append_assoc self _ _ ∙ ap (λ r. self ++ r) (array_onto-append tag vs [] _)))

decode-onto :
    (args : List Arg)
    → AllArgsFit args
    → (rest : Strbuf) → decode (args_onto args rest) (map request args) ≡ returned 0 args rest
unfolding decode args_onto
decode-onto [] h rest = refl
decode-onto (single v ∷ args) (h, hs) rest =
    let (get, known, reads) = codec-Reads v h in
    rw (decode, known)
      (rw (decode, expect_head)
        (rw (decode, reads (args_onto args rest))
          (ap (store (single v)) (decode-onto args hs rest))))
decode-onto (array tag vs ∷ args) ((known, h, l), hs) rest =
    rw (decode, get_array-onto tag vs known h l (args_onto args rest))
      (ap (store (array tag vs)) (decode-onto args hs rest))

-- If each value is one of its C type, each array has elements of one known type, and their number
-- has 32 bits, then encoding into an empty buffer succeeds, and the requests for the same types decode
-- the arguments again, whatever follows them, and leave what follows.
pub decode-encode :
    (args : List Arg) (rest : Strbuf)
    → AllArgsFit args
    → (self : Strbuf) × (encode [] args ≡ some self)
      × (decode (self ++ rest) (map request args) ≡ returned 0 args rest)
decode-encode args rest h =
    (_, encode-onto args h [], rw (args_onto-append args [] rest) (decode-onto args h rest))
