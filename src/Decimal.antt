-- ===== src/Decimal.antt =====
-- Decimal digits, as the C library prints and reads them.
use alarmd.Common.{
  not, ◌||◌, ◌==◌, ◌^◌, Option, none, some, sub_ℕ, pos_part, neg_part, ℕ, zero, suc, ◌+◌, ◌-◌, ◌*◌,
  ◌/◌, ◌%◌, ◌≤◌, ◌<◌, Bool, true, false, ◌&&◌, ◌≡◌, refl, ltb, leb, if◌then◌else◌, [], ◌∷◌, ◌++◌, ℤ,
  pos, negsuc, arith, Bool-cases, inl, inr, ap, ◌∙◌,
}
use alarmd.Event.{Bytes}

abbrev pub digit : ℕ → ℕ
digit n = b'0' + n

-- The digits of `n` in front of `rest`, with fuel for one digit more than there can be.
unfoldable pub digits_onto : ℕ → ℕ → Bytes → Bytes
digits_onto zero n rest = rest
digits_onto (suc fuel) n rest = elim (ltb n 10) [
  | true ↦ digit n ∷ rest
  | false ↦ digits_onto fuel (n / 10) (digit (n % 10) ∷ rest)
]

-- `%u`, `%lu` and `%llu`
unfoldable pub print_unsigned : ℕ → Bytes
unfolding digits_onto
print_unsigned n = digits_onto (n + 1) n []

-- `%d` and `%lld`
unfoldable pub print_signed : ℤ → Bytes
unfolding print_unsigned
print_signed (pos n) = print_unsigned n
print_signed (negsuc n) = b'-' ∷ print_unsigned (suc n)

abbrev pub is_digit : ℕ → Bool
is_digit c = leb b'0' c && leb c b'9'

-- The number that the leading digits add to `acc`, and what follows them
unfoldable pub read_digits : ℕ → Bytes → ℕ × Bytes
read_digits acc [] = (acc, [])
read_digits acc (c ∷ cs) = elim (is_digit c) [
  | true ↦ read_digits (acc * 10 + (c - b'0')) cs
  | false ↦ (acc, c ∷ cs)
]

-- isspace in the C locale
abbrev pub is_space : ℕ → Bool
is_space c = c == 32 || (leb 9 c && leb c 13)

unfoldable pub skip_spaces : Bytes → Bytes
skip_spaces [] = []
skip_spaces (c ∷ cs) = elim (is_space c) [ true ↦ skip_spaces cs | false ↦ c ∷ cs ]

-- The sign in front of a number: whether it is a minus, and what follows it
unfoldable pub read_sign : Bytes → Bool × Bytes
read_sign [] = (false, [])
read_sign (c ∷ cs) =
    if c == b'-' then (true, cs) else if c == b'+' then (false, cs) else (false, c ∷ cs)

abbrev pub starts_digit : Bytes → Bool
starts_digit [] = false
starts_digit (c ∷ cs) = is_digit c

-- What strtol and its kin find: the sign, the digits' number, and the text behind it. `none`
-- means that there is no number.
unfoldable pub scan : Bytes → Option (Bool × (ℕ × Bytes))
scan text =
    let (minus, digits) = read_sign (skip_spaces text) in
    if starts_digit digits then some (minus, read_digits 0 digits) else none

-- strtoul and strtoull for a type of `w` bits: a number out of range becomes the largest, and a
-- negative one wraps.
unfoldable pub read_unsigned : ℕ → Bytes → Option (ℕ × Bytes)
read_unsigned w text = elim (scan text) [
  | none ↦ none
  | some (minus, (n, rest)) ↦
      some (
        (if leb (2 ^ w) n then 2 ^ w - 1 else if minus && not (n == 0) then 2 ^ w - n else n),
        rest,
      )
]

-- strtol and strtoll: a number out of range becomes the nearest in range.
unfoldable pub read_signed : ℕ → Bytes → Option (ℤ × Bytes)
read_signed w text = elim (scan text) [
  | none ↦ none
  | some (minus, (n, rest)) ↦ some (
    (if minus
        then (if leb (2 ^ (w - 1)) n then negsuc (2 ^ (w - 1) - 1) else sub_ℕ 0 n)
        else if leb (2 ^ (w - 1)) n
        then pos (2 ^ (w - 1) - 1)
        else pos n),
    rest,
  )
]

abbrev pub Starts : Bytes → Type 0
Starts [] = ⊥
Starts (c ∷ cs) = is_digit c ≡ true

pub digits_onto-Starts : (fuel n : ℕ) → n < fuel → (rest : Bytes) → Starts (digits_onto fuel n rest)
unfolding digits_onto
digits_onto-Starts zero n h rest = absurd (omega arith)
digits_onto-Starts (suc fuel) n h rest = elim (Bool-cases (ltb n 10)) [
  | inl small ↦ rw (small, digits_onto) (ground arith)
  | inr large ↦ rw (large, digits_onto) (digits_onto-Starts fuel (n / 10) (ground arith) _)
]

read_digits-digits_onto :
    (fuel n : ℕ)
    → n < fuel
    → (rest : Bytes) → read_digits 0 (digits_onto fuel n rest) ≡ read_digits n rest
unfolding digits_onto read_digits
read_digits-digits_onto zero n h rest = absurd (omega arith)
read_digits-digits_onto (suc fuel) n h rest = elim (Bool-cases (ltb n 10)) [
  | inl small ↦
      let d : is_digit (digit n) ≡ true = ground arith in
      rw (small, digits_onto) (rw (d, read_digits) (ap (λ m. read_digits m rest) (omega arith)))
  | inr large ↦
      let d : is_digit (digit (n % 10)) ≡ true = ground arith in
      rw (large, digits_onto)
        (read_digits-digits_onto fuel (n / 10) (ground arith) _
          ∙ rw (d, read_digits) (ap (λ m. read_digits m rest) (omega arith)))
]

pub digits_onto-append :
    (fuel n : ℕ) (rest more : Bytes)
    → digits_onto fuel n rest ++ more ≡ digits_onto fuel n (rest ++ more)
unfolding digits_onto
digits_onto-append zero n rest more = refl
digits_onto-append (suc fuel) n rest more = elim (Bool-cases (ltb n 10)) [
  | inl small ↦ rw (small, digits_onto) refl
  | inr large ↦ rw (large, digits_onto) (digits_onto-append fuel (n / 10) _ more)
]

-- Text that does not go on with a digit
abbrev pub Ends : Bytes → Type 0
Ends text = starts_digit text ≡ false

read_digits-Ends : (n : ℕ) (rest : Bytes) → Ends rest → read_digits n rest ≡ (n, rest)
unfolding read_digits
read_digits-Ends n [] h = refl
read_digits-Ends n (c ∷ cs) h = rw (h, read_digits) refl

scan-Starts : (text : Bytes) → Starts text → scan text ≡ some (false, read_digits 0 text)
unfolding scan skip_spaces read_sign
scan-Starts [] h = elim h [ ]
scan-Starts (c ∷ cs) h = ground arith

scan-minus : (text : Bytes) → Starts text → scan (b'-' ∷ text) ≡ some (true, read_digits 0 text)
unfolding scan skip_spaces read_sign
scan-minus [] h = elim h [ ]
scan-minus (c ∷ cs) h = ground arith

digits_onto-read :
    (n : ℕ) (rest : Bytes) → Ends rest → read_digits 0 (digits_onto (n + 1) n rest) ≡ (n, rest)
digits_onto-read n rest h =
    read_digits-digits_onto (n + 1) n (omega arith) rest ∙ read_digits-Ends n rest h

scan-print :
    (n : ℕ) (rest : Bytes) → Ends rest → scan (print_unsigned n ++ rest) ≡ some (false, (n, rest))
unfolding print_unsigned
scan-print n rest ends =
    ap scan (digits_onto-append (n + 1) n [] rest)
    ∙ scan-Starts _ (digits_onto-Starts (n + 1) n (omega arith) rest)
    ∙ ap (λ r. some (false, r)) (digits_onto-read n rest ends)

scan-print_minus :
    (n : ℕ) (rest : Bytes)
    → Ends rest
    → scan (b'-' ∷ (print_unsigned n ++ rest)) ≡ some (true, (n, rest))
unfolding print_unsigned
scan-print_minus n rest ends =
    ap (λ t. scan (b'-' ∷ t)) (digits_onto-append (n + 1) n [] rest)
    ∙ scan-minus _ (digits_onto-Starts (n + 1) n (omega arith) rest)
    ∙ ap (λ r. some (true, r)) (digits_onto-read n rest ends)

-- A number that is printed with `%u` and fits the type is read back, up to what follows it.
pub read_unsigned-print_unsigned :
    (w n : ℕ) (rest : Bytes)
    → n < 2 ^ w
    → Ends rest
    → read_unsigned w (print_unsigned n ++ rest) ≡ some (n, rest)
unfolding read_unsigned
read_unsigned-print_unsigned w n rest fits ends =
    let eq : (leb (2 ^ w) n) ≡ false = ground arith in
    rw (read_unsigned, scan-print n rest ends, eq) refl

pub read_signed-print_signed :
    (w : ℕ) (n : ℤ) (rest : Bytes)
    → pos_part n < 2 ^ (w - 1)
    → neg_part n ≤ 2 ^ (w - 1)
    → Ends rest
    → read_signed w (print_signed n ++ rest) ≡ some (n, rest)
unfolding print_signed read_signed
read_signed-print_signed w (pos n) rest fits fits' ends =
    let eq : (leb (2 ^ (w - 1)) n) ≡ false = ground arith in
    rw (read_signed, scan-print n rest ends, eq) refl
read_signed-print_signed w (negsuc n) rest fits fits' ends =
    rw (read_signed, scan-print_minus (suc n) rest ends) (ground arith)
