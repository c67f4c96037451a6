-- ===== src/Strbuf.antt =====
-- src/strbuf.c: values as text. A buffer is the list of the bytes that are written and not read
-- yet, sb_data[sb_head] up to sb_data[sb_tail]; the memory behind it grows on demand and is left
-- out. A `char` is unsigned.
use alarmd.Common.{
  ℕ, zero, suc, ◌+◌, ◌-◌, ◌*◌, ◌/◌, ◌%◌, ltb, leb, ◌==◌, Bool, true, false, ◌&&◌, ◌||◌, Option,
  none, some, List, [], ◌∷◌, ◌++◌, if◌then◌else◌, length,
}
use alarmd.Event.{Bytes}
pub mod RoundTrip
pub mod Values

abbrev pub Strbuf : Type 0
Strbuf = Bytes

unfoldable pub i2c : ℕ → ℕ
i2c i = if ltb i 10 then 48 + i else 97 + i - 10

-- `none` is EOF, which is in no range either.
unfoldable pub c2i : Option ℕ → ℕ
c2i none = 255
c2i (some c) =
    if leb 48 c && leb c 57
    then c - 48
    else if leb 65 c && leb c 90
    then c - 65 + 10
    else if leb 97 c && leb c 122
    then c - 97 + 10
    else 255

unfoldable pub escape_p : ℕ → Bool
escape_p c = c == 92 || ltb c 32 || ltb 126 c

-- strbuf_pop, and the buffer after it
unfoldable pub pop : Strbuf → Option ℕ × Strbuf
pop [] = (none, [])
pop (c ∷ self) = (some c, self)

unfoldable pub popif : Strbuf → ℕ → Bool × Strbuf
popif [] ch = (false, [])
popif (c ∷ self) ch = if c == ch then (true, self) else (false, c ∷ self)

unfoldable pub put_rawdata : Strbuf → Bytes → Strbuf
put_rawdata self bytes = self ++ bytes

unfoldable pub put_rawbyte : Strbuf → ℕ → Strbuf
put_rawbyte self c = put_rawdata self (c % 256 ∷ [])

-- The switch of strbuf_put_string
unfoldable pub put_escaped : Strbuf → ℕ → Strbuf
put_escaped self n =
    if n == 92
    then put_rawdata self (92 ∷ 92 ∷ [])
    else if n == 8
    then put_rawdata self (92 ∷ 98 ∷ [])
    else if n == 10
    then put_rawdata self (92 ∷ 110 ∷ [])
    else if n == 13
    then put_rawdata self (92 ∷ 114 ∷ [])
    else if n == 9
    then put_rawdata self (92 ∷ 116 ∷ [])
    else put_rawbyte (put_rawbyte (put_rawbyte (put_rawbyte self 92) 120) (i2c (n / 16 % 16)))
        (i2c (n % 16))

-- The string ends at a 0 byte. A run of plain characters is put one by one.
unfoldable pub put_string : Strbuf → Bytes → Strbuf
put_string self [] = put_rawdata self (92 ∷ 59 ∷ [])
put_string self (c ∷ text) = elim (c == 0) [
  | true ↦ put_rawdata self (92 ∷ 59 ∷ [])
  | false ↦ put_string (if escape_p c then put_escaped self c else put_rawdata self (c ∷ [])) text
]

-- The switch of strbuf_get_string: the byte that is put, and the buffer after it; `none` is a
-- failed assertion.
unfoldable pub get_escaped : ℕ → Strbuf → Option (ℕ × Strbuf)
get_escaped ch self =
    if ch == 92
    then some (92, self)
    else if ch == 98
    then some (8, self)
    else if ch == 110
    then some (10, self)
    else if ch == 114
    then some (13, self)
    else if ch == 116
    then some (9, self)
    else if ch == 120
    then (let h = pop self in let l = pop h.1 in some ((c2i l.0 + c2i h.0 * 16) % 256, l.1))
    else none

-- One round of the loop: go on with a further byte, or stop.
pub data Round : Type 0 where
  more : ℕ → Strbuf → Round
  stop : Strbuf → Round
  failed : Round

unfoldable pub get_round : Strbuf → Round
get_round [] = stop []
get_round (c ∷ self) = elim (c == 92) [
  | false ↦ more c self
  | true ↦ elim self [
    | [] ↦ stop []
    | ch ∷ self' ↦ elim (ch == 59) [
      | true ↦ stop self'
      | false ↦ elim (get_escaped ch self') [ none ↦ failed | some (d, self'') ↦ more d self'' ]
    ]
  ]
]

unfoldable pub get_loop : ℕ → Strbuf → Bytes → Option (Bytes × Strbuf)
get_loop zero self temp = none
get_loop (suc fuel) self temp = elim (get_round self) [
  | more c self' ↦ get_loop fuel self' (temp ++ (c ∷ []))
  | stop self' ↦ some (temp, self')
  | failed ↦ none
]

-- Each round reads a byte, so the rounds are at most one more than the bytes.
unfoldable pub get_string : Strbuf → Option (Bytes × Strbuf)
get_string self = get_loop (length self + 1) self []
