-- ===== src/Strbuf/Values.antt =====
-- The typed values of src/strbuf.c: the codec table, arrays, and the two functions that write and
-- read a list of tagged arguments. `unsigned long` and `long` have 32 bits, as on the device.
-- `tag_double` is left out: `%.16g` and strtod on a floating-point number.
use alarmd.Common.{
  ℕ, zero, suc, ◌+◌, ◌-◌, ◌*◌, ◌/◌, ◌%◌, ◌^◌, ltb, leb, ◌==◌, Bool, true, false, ◌&&◌, ◌||◌, not,
  Option, none, some, List, [], ◌∷◌, ◌++◌, if◌then◌else◌, length, ℤ, pos, negsuc, map,
}
use alarmd.Decimal.{print_unsigned, print_signed, read_unsigned, read_signed}
use alarmd.Event.{Bytes}
use alarmd.Strbuf.{Strbuf, put_rawdata, put_rawbyte, put_string, get_string, popif}
pub mod Codec
pub mod Arguments

-- A value with the type that its tag names.
pub data Value : Type 0 where
  bool : ℕ → Value
  string : Bytes → Value
  objpath : Bytes → Value
  signature : Bytes → Value
  int8 : ℤ → Value
  int16 : ℤ → Value
  int32 : ℤ → Value
  int64 : ℤ → Value
  uint8 : ℕ → Value
  uint16 : ℕ → Value
  uint32 : ℕ → Value
  uint64 : ℕ → Value

-- strbuftypetags
abbrev pub tag_of : Value → ℕ
tag_of (bool n) = b'F'
tag_of (string s) = b's'
tag_of (objpath s) = b'O'
tag_of (signature s) = b'S'
tag_of (int8 n) = b'b'
tag_of (int16 n) = b'w'
tag_of (int32 n) = b'l'
tag_of (int64 n) = b'q'
tag_of (uint8 n) = b'B'
tag_of (uint16 n) = b'W'
tag_of (uint32 n) = b'L'
tag_of (uint64 n) = b'Q'

abbrev pub tag_listbeg : ℕ
tag_listbeg = b'['

abbrev pub tag_listend : ℕ
tag_listend = b']'

unfoldable pub put_unsigned : Strbuf → ℕ → Strbuf
put_unsigned self n = put_rawdata self (print_unsigned n ++ (b';' ∷ []))

unfoldable pub put_signed : Strbuf → ℤ → Strbuf
put_signed self n = put_rawdata self (print_signed n ++ (b';' ∷ []))

-- The narrow types go through the 32-bit functions.
unfoldable pub put_value : Strbuf → Value → Strbuf
put_value self (bool n) = put_unsigned self n
put_value self (string s) = put_string self s
put_value self (objpath s) = put_string self s
put_value self (signature s) = put_string self s
put_value self (int8 n) = put_signed self n
put_value self (int16 n) = put_signed self n
put_value self (int32 n) = put_signed self n
put_value self (int64 n) = put_signed self n
put_value self (uint8 n) = put_unsigned self n
put_value self (uint16 n) = put_unsigned self n
put_value self (uint32 n) = put_unsigned self n
put_value self (uint64 n) = put_unsigned self n

-- `(e > s) && (*e == ';')`; `none` is abort.
unfoldable pub ended : {A : Type 0} → Option (A × Strbuf) → Option (A × Strbuf)
ended none = none
ended (some (n, [])) = none
ended (some (n, c ∷ self)) = if c == b';' then some (n, self) else none

unfoldable pub get_unsigned : ℕ → Strbuf → Option (ℕ × Strbuf)
get_unsigned w self = ended (read_unsigned w self)

unfoldable pub get_signed : ℕ → Strbuf → Option (ℤ × Strbuf)
get_signed w self = ended (read_signed w self)

-- The conversion to a signed type of `w` bits
abbrev pub residue : ℕ → ℤ → ℕ
residue w (pos k) = k % 2 ^ w
residue w (negsuc k) = 2 ^ w - 1 - k % 2 ^ w

unfoldable pub wrap : ℕ → ℤ → ℤ
wrap w n = let m = residue w n in if ltb m (2 ^ (w - 1)) then pos m else negsuc (2 ^ w - m - 1)

abbrev pub as_value : {A : Type 0} → (A → Value) → Option (A × Strbuf) → Option (Value × Strbuf)
as_value f none = none
as_value f (some (x, self)) = some (f x, self)

-- strbuf_codec with its table: the reader of the type that the tag names, or `none`.
unfoldable pub codec : ℕ → Option (Strbuf → Option (Value × Strbuf))
codec tag =
    if tag == b'F'
    then some (λ self. as_value bool (get_unsigned 32 self))
    else if tag == b's'
    then some (λ self. as_value string (get_string self))
    else if tag == b'O'
    then some (λ self. as_value objpath (get_string self))
    else if tag == b'S'
    then some (λ self. as_value signature (get_string self))
    else if tag == b'b'
    then some (λ self. as_value (λ n. int8 (wrap 8 n)) (get_signed 32 self))
    else if tag == b'w'
    then some (λ self. as_value (λ n. int16 (wrap 16 n)) (get_signed 32 self))
    else if tag == b'l'
    then some (λ self. as_value int32 (get_signed 32 self))
    else if tag == b'q'
    then some (λ self. as_value int64 (get_signed 64 self))
    else if tag == b'B'
    then some (λ self. as_value (λ n. uint8 (n % 2 ^ 8)) (get_unsigned 32 self))
    else if tag == b'W'
    then some (λ self. as_value (λ n. uint16 (n % 2 ^ 16)) (get_unsigned 32 self))
    else if tag == b'L'
    then some (λ self. as_value uint32 (get_unsigned 32 self))
    else if tag == b'Q'
    then some (λ self. as_value uint64 (get_unsigned 64 self))
    else none

unfoldable pub put_values : Strbuf → List Value → Strbuf
put_values self [] = self
put_values self (v ∷ vs) = put_values (put_value self v) vs

abbrev pub and_then : {A B : Type 0} → Option A → (A → Option B) → Option B
and_then none f = none
and_then (some x) f = f x

-- strbuf_put_array; `size` is a number of 32 bits. `none` is abort.
unfoldable pub put_array : Strbuf → ℕ → List Value → Option Strbuf
put_array self tag vs = and_then (codec tag) (λ get. some (
    put_rawbyte
      (put_values
        (put_unsigned (put_rawbyte (put_rawbyte self tag_listbeg) tag) (length vs % 2 ^ 32)) vs)
      tag_listend))

unfoldable pub get_values :
    (Strbuf → Option (Value × Strbuf)) → ℕ → Strbuf → Option (List Value × Strbuf)
get_values get zero self = some ([], self)
get_values get (suc cnt) self = elim (get self) [
  | none ↦ none
  | some (v, self') ↦ elim (get_values get cnt self') [
    | none ↦ none
    | some (vs, self'') ↦ some (v ∷ vs, self'')
  ]
]

-- `if( !strbuf_popif(self, ch) ) abort();`
unfoldable pub expect : Strbuf → ℕ → Option Strbuf
expect self ch = if (popif self ch).0 then some (popif self ch).1 else none

-- strbuf_get_array
unfoldable pub get_array : Strbuf → ℕ → Option (List Value × Strbuf)
get_array self tag = and_then (codec tag) (λ get. and_then (expect self tag_listbeg) (λ self1.
    and_then (expect self1 tag) (λ self2. and_then (get_unsigned 32 self2) (λ counted.
      and_then (get_values get counted.0 counted.1)
        (λ read. and_then (expect read.1 tag_listend) (λ self5. some (read.0, self5)))))))

-- One argument of strbuf_encode: a value behind its tag, or an array behind tag_listbeg.
pub data Arg : Type 0 where
  single : Value → Arg
  array : ℕ → List Value → Arg

-- What strbuf_decode is asked for: the tag, or tag_listbeg and the tag of the elements.
pub data Request : Type 0 where
  one : ℕ → Request
  many : ℕ → Request

abbrev pub request : Arg → Request
request (single v) = one (tag_of v)
request (array tag vs) = many tag

-- strbuf_encode_valist, up to tag_done; `none` is abort.
unfoldable pub encode : Strbuf → List Arg → Option Strbuf
encode self [] = some self
encode self (single v ∷ args) = encode (put_value (put_rawbyte self (tag_of v)) v) args
encode self (array tag vs ∷ args) = and_then (put_array self tag vs) (λ self'. encode self' args)

-- How strbuf_decode_valist ends: the tag that it returns, 0 for tag_done, with what it has stored
-- and the buffer; or abort.
pub data Decoded : Type 0 where
  returned : ℕ → List Arg → Strbuf → Decoded
  aborted : Decoded

abbrev pub store : Arg → Decoded → Decoded
store a (returned tag args self) = returned tag (a ∷ args) self
store a aborted = aborted

unfoldable pub decode : Strbuf → List Request → Decoded
decode self [] = returned 0 [] self
decode self (many tag ∷ rs) = elim (get_array self tag) [
  | none ↦ aborted
  | some (vs, self') ↦ store (array tag vs) (decode self' rs)
]
decode self (one tag ∷ rs) = elim (codec tag) [
  | none ↦ returned tag [] self
  | some get ↦ elim (expect self tag) [
    | none ↦ returned tag [] self
    | some self' ↦ elim (get self') [
      | none ↦ aborted
      | some (v, self'') ↦ store (single v) (decode self'' rs)
    ]
  ]
]
