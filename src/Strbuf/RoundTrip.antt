-- ===== src/Strbuf/RoundTrip.antt =====
-- What strbuf_put_string writes, strbuf_get_string reads back.
use alarmd.Common.{
  ℕ, zero, suc, ◌/◌, ◌%◌, ◌<◌, ◌≤◌, ◌==◌, false, some, [], ◌∷◌, ◌++◌, if◌then◌else◌, length, ◌≡◌,
  refl, sym, ap, ◌∙◌, arith, Bool-cases, inl, inr,
}
use alarmd.Event.{Bytes}
use mathlib.Core.List.{append_assoc, append-nil}
use alarmd.Strbuf.{
  Strbuf, more, i2c, c2i, escape_p, pop, put_rawdata, put_rawbyte, put_escaped, put_string,
  get_escaped, get_round, get_loop, get_string,
}

-- The bytes of a C string
abbrev pub IsText : Bytes → Type 0
IsText [] = Unit {0}
IsText (c ∷ cs) = (0 < c) × (c < 256) × IsText cs

c2i-i2c : (i : ℕ) → i < 16 → c2i (some (i2c i % 256)) ≡ i
unfolding c2i i2c
c2i-i2c i h = ground arith

-- What is written for one character
abbrev written : ℕ → Bytes
written c = if escape_p c then put_escaped [] c else c ∷ []

put-written :
    (self : Strbuf) (c : ℕ)
    → (if escape_p c then put_escaped self c else put_rawdata self (c ∷ [])) ≡ self ++ written c
unfolding put_escaped put_rawdata put_rawbyte
put-written self c = grind (arith, append_assoc)

get_round-written :
    (c : ℕ) → c < 256 → (rest : Strbuf) → get_round (written c ++ rest) ≡ more c rest
unfolding get_round put_escaped put_rawdata put_rawbyte escape_p get_escaped pop
get_round-written c h rest =
    ground (arith, c2i-i2c (c / 16 % 16) (omega arith), c2i-i2c (c % 16) (omega arith))

-- What is written for the characters and the end of the string, before `rest`
written_onto : Bytes → Strbuf → Strbuf
written_onto [] rest = 92 ∷ 59 ∷ rest
written_onto (c ∷ cs) rest = written c ++ written_onto cs rest

written_onto-append :
    (text : Bytes) (rest : Strbuf) → written_onto text [] ++ rest ≡ written_onto text rest
unfolding written_onto
written_onto-append [] rest = refl
written_onto-append (c ∷ cs) rest =
    append_assoc (written c) _ rest ∙ ap (λ r. written c ++ r) (written_onto-append cs rest)

put_string-written :
    (text : Bytes)
    → IsText text
    → (self : Strbuf) → put_string self text ≡ self ++ written_onto text []
unfolding put_string written_onto put_rawdata
put_string-written [] h self = refl
put_string-written (c ∷ cs) (nonzero, small, h) self =
    let eq : (c == 0) ≡ false = ground arith in
    rw (eq, put_string)
      (put_string-written cs h _
        ∙ ap (λ r. r ++ written_onto cs []) (put-written self c)
        ∙ append_assoc self (written c) _)

get_loop-written :
    (text : Bytes)
    → IsText text
    → (fuel : ℕ) → length text < fuel
    → (rest : Strbuf) (temp : Bytes)
    → get_loop fuel (written_onto text rest) temp ≡ some (temp ++ text, rest)
unfolding written_onto get_loop
get_loop-written [] h zero l rest temp = absurd (omega arith)
get_loop-written (c ∷ cs) h zero l rest temp = absurd (omega arith)
get_loop-written [] h (suc fuel) l rest temp =
    unfold get_round in ap (λ t. some (t, rest)) (sym (append-nil temp))
get_loop-written (c ∷ cs) (nonzero, small, h) (suc fuel) l rest temp =
    rw (get_round-written c small, get_loop)
      (get_loop-written cs h fuel (omega arith) rest (temp ++ (c ∷ []))
        ∙ ap (λ t. some (t, rest)) (append_assoc temp (c ∷ []) cs))

length-written : (text : Bytes) (rest : Strbuf) → length text < length (written_onto text rest)
unfolding written_onto put_escaped put_rawdata put_rawbyte
length-written [] rest = omega arith
length-written (c ∷ cs) rest = ground (arith, length-written cs rest)

-- A string of bytes other than 0 that is put at the end of an empty buffer, with further data behind it, is got back
-- whole, and the further data stays.
pub get_string-put_string :
    (text : Bytes) (rest : Strbuf)
    → IsText text
    → get_string (put_string [] text ++ rest) ≡ some (text, rest)
unfolding get_string
get_string-put_string text rest h =
    rw (put_string-written text h [], written_onto-append text rest)
      (get_loop-written text h _ (omega (arith, length-written text rest)) rest [])

pub put_string-append :
    (text : Bytes)
    → IsText text
    → (self : Strbuf) → put_string self text ≡ self ++ put_string [] text
put_string-append text h self =
    put_string-written text h self ∙ ap (λ r. self ++ r) (sym (put_string-written text h []))

-- Every byte is a printable ASCII character.
abbrev pub IsPrintable : Bytes → Type 0
IsPrintable [] = Unit {0}
IsPrintable (c ∷ cs) = (32 ≤ c) × (c ≤ 126) × IsPrintable cs

IsPrintable-append : (xs ys : Bytes) → IsPrintable xs → IsPrintable ys → IsPrintable (xs ++ ys)
IsPrintable-append [] ys h k = k
IsPrintable-append (x ∷ xs) ys (l, u, h) k = (l, u, IsPrintable-append xs ys h k)

i2c-range : (i : ℕ) → i < 16 → (32 ≤ i2c i % 256) × (i2c i % 256 ≤ 126)
unfolding i2c
i2c-range i h = (ground arith, ground arith)

written-IsPrintable : (c : ℕ) → IsPrintable (written c)
unfolding escape_p put_escaped put_rawdata put_rawbyte
written-IsPrintable c =
    ground (arith, i2c-range (c / 16 % 16) (omega arith), i2c-range (c % 16) (omega arith))

end-IsPrintable : IsPrintable (92 ∷ 59 ∷ [])
end-IsPrintable = (omega arith, omega arith, (omega arith, omega arith, tt))

-- Whatever the bytes of the string are, what is added to a printable buffer is printable.
pub put_string-IsPrintable :
    (text : Bytes) → (self : Strbuf) → IsPrintable self → IsPrintable (put_string self text)
unfolding put_string put_rawdata
put_string-IsPrintable [] self h = IsPrintable-append self _ h end-IsPrintable
put_string-IsPrintable (c ∷ cs) self h = elim (Bool-cases (c == 0)) [
  | inl end ↦ rw (end, put_string) (IsPrintable-append self _ h end-IsPrintable)
  | inr inside ↦
      rw (inside, put_string)
        (put_string-IsPrintable cs _
          (rw (put-written self c) (IsPrintable-append self _ h (written-IsPrintable c))))
]
