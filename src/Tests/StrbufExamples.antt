-- ===== src/Tests/StrbufExamples.antt =====
-- The theorems on src/strbuf.c, applied to short texts and values.
use alarmd.Common.{[], ◌∷◌, ◌++◌, List, map, some, negsuc, ◌≡◌, refl, arith}
use alarmd.Event.{Bytes}
use alarmd.Strbuf.{Strbuf, put_string, get_string}
use alarmd.Strbuf.RoundTrip.{IsText, get_string-put_string}
use alarmd.Strbuf.Values.{Value, Arg, codec, encode, decode, request, Decoded}
use alarmd.Strbuf.Values.Arguments.{AllArgsFit, decode-encode}

-- A letter, a newline, a backslash and a byte above 126
abbrev text : Bytes
text = 65 ∷ 10 ∷ 92 ∷ 200 ∷ []

text-IsText : IsText text
text-IsText = (
  omega arith,
  omega arith,
  (omega arith, omega arith, (omega arith, omega arith, (omega arith, omega arith, tt))),
)

get_string-put_string_example : get_string (put_string [] text ++ (66 ∷ [])) ≡ some (text, 66 ∷ [])
get_string-put_string_example = get_string-put_string text (66 ∷ []) text-IsText

abbrev args : List Arg
args =
    Arg.single (Value.string text)
    ∷ Arg.single (Value.int8 (negsuc 99))
    ∷ Arg.array b'L' (Value.uint32 7 ∷ [])
    ∷ []

args-AllArgsFit : AllArgsFit args
unfolding codec
args-AllArgsFit = (
  text-IsText,
  ((omega arith, omega arith), (((_, refl), (omega arith, refl, tt), omega arith), tt)),
)

decode-encode_example :
    (self : Strbuf) × (encode [] args ≡ some self)
    × (decode (self ++ (66 ∷ [])) (map request args) ≡ Decoded.returned 0 args (66 ∷ []))
decode-encode_example = decode-encode args (66 ∷ []) args-AllArgsFit
