-- ===== src/Strbuf/Values/Codec.antt =====
-- The codec of a type reads back what it has written, up to what follows.
use alarmd.Common.{
  ℕ, ◌-◌, ◌%◌, ◌^◌, ◌<◌, ◌≤◌, Option, some, [], ◌∷◌, ◌++◌, ℤ, pos, negsuc, ◌≡◌, refl, ap, ◌∙◌,
  arith, pos_part, neg_part,
}
use mathlib.Core.List.{append_assoc}
use alarmd.Decimal.{
  print_unsigned, print_signed, read_unsigned, read_signed, read_unsigned-print_unsigned,
  read_signed-print_signed,
}
use alarmd.Strbuf.{Strbuf, put_rawdata}
use alarmd.Strbuf.RoundTrip.{IsText, put_string-append, get_string-put_string}
use alarmd.Strbuf.Values.{
  Value, bool, string, objpath, signature, int8, int16, int32, int64, uint8, uint16, uint32, uint64,
  tag_of, put_unsigned, put_signed, put_value, ended, get_unsigned, get_signed, wrap, as_value,
  codec,
}

-- The number is in the range of a signed type of `w` bits.
abbrev pub InRange : ℕ → ℤ → Type 0
InRange w n = (pos_part n < 2 ^ (w - 1)) × (neg_part n ≤ 2 ^ (w - 1))

-- The value is one of its C type.
abbrev pub Fits : Value → Type 0
Fits (bool n) = n < 2 ^ 32
Fits (string s) = IsText s
Fits (objpath s) = IsText s
Fits (signature s) = IsText s
Fits (int8 n) = InRange 8 n
Fits (int16 n) = InRange 16 n
Fits (int32 n) = InRange 32 n
Fits (int64 n) = InRange 64 n
Fits (uint8 n) = n < 2 ^ 8
Fits (uint16 n) = n < 2 ^ 16
Fits (uint32 n) = n < 2 ^ 32
Fits (uint64 n) = n < 2 ^ 64

pub get_unsigned-put :
    (w n : ℕ) (rest : Strbuf)
    → n < 2 ^ w
    → get_unsigned w (put_unsigned [] n ++ rest) ≡ some (n, rest)
unfolding get_unsigned put_unsigned put_rawdata ended
get_unsigned-put w n rest h =
    ap (λ t. ended (read_unsigned w t)) (append_assoc (print_unsigned n) (b';' ∷ []) rest)
    ∙ ap ended (read_unsigned-print_unsigned w n (b';' ∷ rest) h refl)

get_signed-put :
    (w : ℕ) (n : ℤ) (rest : Strbuf)
    → InRange w n
    → get_signed w (put_signed [] n ++ rest) ≡ some (n, rest)
unfolding get_signed put_signed put_rawdata ended
get_signed-put w n rest (h, k) =
    ap (λ t. ended (read_signed w t)) (append_assoc (print_signed n) (b';' ∷ []) rest)
    ∙ ap ended (read_signed-print_signed w n (b';' ∷ rest) h k refl)

wrap_8 : (n : ℤ) → InRange 8 n → wrap 8 n ≡ n
unfolding wrap
wrap_8 (pos n) h = ground arith
wrap_8 (negsuc n) h = ground arith

wrap_16 : (n : ℤ) → InRange 16 n → wrap 16 n ≡ n
unfolding wrap
wrap_16 (pos n) h = ground arith
wrap_16 (negsuc n) h = ground arith

pub put_value-append :
    (v : Value) → Fits v → (self : Strbuf) → put_value self v ≡ self ++ put_value [] v
unfolding put_value put_unsigned put_signed put_rawdata
put_value-append (bool n) h self = refl
put_value-append (string s) h self = put_string-append s h self
put_value-append (objpath s) h self = put_string-append s h self
put_value-append (signature s) h self = put_string-append s h self
put_value-append (int8 n) h self = refl
put_value-append (int16 n) h self = refl
put_value-append (int32 n) h self = refl
put_value-append (int64 n) h self = refl
put_value-append (uint8 n) h self = refl
put_value-append (uint16 n) h self = refl
put_value-append (uint32 n) h self = refl
put_value-append (uint64 n) h self = refl

-- The codec for the tag of `v` reads `v` back.
abbrev Reads : Value → Type 0
Reads v =
    (get : Strbuf → Option (Value × Strbuf)) × (codec (tag_of v) ≡ some get)
    × ((rest : Strbuf) → get (put_value [] v ++ rest) ≡ some (v, rest))

pub codec-Reads : (v : Value) → Fits v → Reads v
unfolding codec put_value
codec-Reads (bool n) h = (_, refl, λ rest. ap (as_value bool) (get_unsigned-put 32 n rest h))
codec-Reads (string s) h = (_, refl, λ rest. ap (as_value string) (get_string-put_string s rest h))
codec-Reads (objpath s) h =
    (_, refl, λ rest. ap (as_value objpath) (get_string-put_string s rest h))
codec-Reads (signature s) h =
    (_, refl, λ rest. ap (as_value signature) (get_string-put_string s rest h))
codec-Reads (int8 n) h = (
  _,
  refl,
  λ rest.
      ap (as_value (λ n. int8 (wrap 8 n))) (get_signed-put 32 n rest (omega arith, omega arith))
      ∙ ap (λ m. some (int8 m, rest)) (wrap_8 n h),
)
codec-Reads (int16 n) h = (
  _,
  refl,
  λ rest.
      ap (as_value (λ n. int16 (wrap 16 n))) (get_signed-put 32 n rest (omega arith, omega arith))
      ∙ ap (λ m. some (int16 m, rest)) (wrap_16 n h),
)
codec-Reads (int32 n) h = (_, refl, λ rest. ap (as_value int32) (get_signed-put 32 n rest h))
codec-Reads (int64 n) h = (_, refl, λ rest. ap (as_value int64) (get_signed-put 64 n rest h))
codec-Reads (uint8 n) h = (
  _,
  refl,
  λ rest.
      ap (as_value (λ n. uint8 (n % 2 ^ 8))) (get_unsigned-put 32 n rest (omega arith))
      ∙ ap (λ m. some (uint8 m, rest)) (omega arith),
)
codec-Reads (uint16 n) h = (
  _,
  refl,
  λ rest.
      ap (as_value (λ n. uint16 (n % 2 ^ 16))) (get_unsigned-put 32 n rest (omega arith))
      ∙ ap (λ m. some (uint16 m, rest)) (omega arith),
)
codec-Reads (uint32 n) h = (_, refl, λ rest. ap (as_value uint32) (get_unsigned-put 32 n rest h))
codec-Reads (uint64 n) h = (_, refl, λ rest. ap (as_value uint64) (get_unsigned-put 64 n rest h))

pub codec_reads :
    (tag : ℕ) (get : Strbuf → Option (Value × Strbuf))
    → codec tag ≡ some get
    → (v : Value) → Fits v
    → tag_of v ≡ tag
    → (rest : Strbuf) → get (put_value [] v ++ rest) ≡ some (v, rest)
codec_reads tag get known v h same rest =
    let (get', known', reads) = codec-Reads v h in let eq : get ≡ get' = cc in rw eq (reads rest)
