-- ===== src/Periods/ReadBack.antt =====
-- Reading back what ticker_secs_format writes.
use alarmd.Common.{
  ℕ, zero, suc, ◌+◌, ◌*◌, ◌/◌, ◌%◌, ◌<◌, ◌≡◌, refl, sym, ap, subst, ◌∙◌, ◌==◌, Bool, true, false,
  ◌&&◌, ◌||◌, not, [], ◌∷◌, ◌++◌, if◌then◌else◌, length, length-append, ℤ, pos, negsuc, ◌+ℤ◌, ◌-ℤ◌,
  ltb_ℤ, pos_part, neg_part, arith, inl, inr, Bool-cases,
}
use mathlib.Core.List.{append_assoc, append-nil}
use alarmd.Event.{Bytes}
use alarmd.Decimal.{
  Ends, print_unsigned, read_signed, scan, is_digit, read_signed-print_signed, print_signed,
  read_sign, skip_spaces, Starts, digits_onto-Starts, digits_onto-append,
}
use alarmd.Periods.{
  ticker_secs_break, append_part, ticker_secs_format, unit_of, take_number, add_parts,
  ticker_secs_parse,
}

-- A text that adds `n` seconds to whatever the loop has, with enough fuel
Adds : Bytes → ℕ → Type 0
Adds text n = (fuel tot : ℕ) → length text < fuel → add_parts fuel text (pos tot) ≡ pos (tot + n)

Adds-nil : Adds [] 0
unfolding Adds add_parts
Adds-nil zero tot h = absurd (omega arith)
Adds-nil (suc fuel) tot h = ap pos (omega arith)

part : ℕ → ℕ → Bytes → Bytes
part n letter rest = print_unsigned n ++ (letter ∷ rest)

take_number-print :
    (n : ℕ) (rest : Bytes)
    → n < 2147483648
    → Ends rest
    → take_number (print_unsigned n ++ rest) ≡ (pos n, rest)
unfolding take_number print_signed
take_number-print n rest h e =
    rw (take_number, read_signed-print_signed 32 (pos n) rest h (omega arith) e) refl

take_number-nil : take_number [] ≡ (pos 0, [])
unfolding take_number read_signed scan skip_spaces read_sign
take_number-nil = refl

scan-plus : (t : Bytes) → Starts t → scan (b'+' ∷ t) ≡ scan t
unfolding scan skip_spaces read_sign
scan-plus [] h = elim h [ ]
scan-plus (c ∷ cs) h = ground arith

read_signed-plus : (t : Bytes) → Starts t → read_signed 32 (b'+' ∷ t) ≡ read_signed 32 t
unfolding read_signed
read_signed-plus t h = rw (read_signed, scan-plus t h) refl

part-Starts : (n letter : ℕ) (rest : Bytes) → Starts (part n letter rest)
unfolding part print_unsigned
part-Starts n letter rest =
    rw (digits_onto-append (n + 1) n [] (letter ∷ rest))
      (digits_onto-Starts (n + 1) n (omega arith) (letter ∷ rest))

take_number-print_plus :
    (n letter : ℕ) (rest : Bytes)
    → n < 2147483648
    → is_digit letter ≡ false
    → take_number (b'+' ∷ part n letter rest) ≡ (pos n, letter ∷ rest)
unfolding take_number print_signed part
take_number-print_plus n letter rest h e =
    rw
      (
        take_number,
        read_signed-plus _ (part-Starts n letter rest),
        read_signed-print_signed 32 (pos n) (letter ∷ rest) h (omega arith) e,
      )
      refl

add_parts-step :
    (s : Bytes) (a letter : ℕ) (s' : Bytes)
    → take_number s ≡ (pos a, letter ∷ s')
    → (unit_of letter == 0) ≡ false
    → (fuel tot : ℕ)
    → add_parts (suc fuel) s (pos tot) ≡ add_parts fuel s' (pos (tot + a * unit_of letter))
unfolding add_parts ◌+ℤ◌
add_parts-step [] a letter s' h u fuel tot =
    absurd (omega (arith, ap (λ r. length r.1) (sym take_number-nil ∙ h)))
add_parts-step (c ∷ cs) a letter s' h u fuel tot =
    rw (add_parts, h, u) (rw (ap (λ r. r.0) h) (ap (λ t. add_parts fuel s' t) (ground arith)))

Adds-part :
    (n letter : ℕ) (rest : Bytes) (k : ℕ)
    → n < 2147483648
    → is_digit letter ≡ false
    → (unit_of letter == 0) ≡ false
    → Adds rest k
    → Adds (part n letter rest) (n * unit_of letter + k)
unfolding Adds part
Adds-part n letter rest k h e u adds zero tot l = absurd (omega arith)
Adds-part n letter rest k h e u adds (suc fuel) tot l =
    add_parts-step (part n letter rest) n letter rest (take_number-print n (letter ∷ rest) h e) u
      fuel tot
    ∙ adds fuel (tot + n * unit_of letter)
        (omega (arith, length-append (print_unsigned n) (letter ∷ rest)))
    ∙ ap pos (omega arith)

Adds-part_plus :
    (n letter : ℕ) (rest : Bytes) (k : ℕ)
    → n < 2147483648
    → is_digit letter ≡ false
    → (unit_of letter == 0) ≡ false
    → Adds rest k
    → Adds (b'+' ∷ part n letter rest) (n * unit_of letter + k)
unfolding Adds part
Adds-part_plus n letter rest k h e u adds zero tot l = absurd (omega arith)
Adds-part_plus n letter rest k h e u adds (suc fuel) tot l =
    let taken = take_number-print_plus n letter rest h e in
    add_parts-step (b'+' ∷ part n letter rest) n letter rest taken u fuel tot
    ∙ adds fuel (tot + n * unit_of letter)
        (omega (arith, length-append (print_unsigned n) (letter ∷ rest)))
    ∙ ap pos (omega arith)

-- A part that is there if its number is not 0, or if it must be
opt : Bool → ℕ → ℕ → Bytes → Bytes
opt must n letter rest = if n == 0 && not must then rest else part n letter rest

Adds_none : (n letter k : ℕ) → n ≡ 0 → n * unit_of letter + k ≡ k
Adds_none n letter k h = rw h (omega arith)

Adds-opt :
    (must : Bool) (n letter : ℕ) (rest : Bytes) (k : ℕ)
    → n < 2147483648
    → is_digit letter ≡ false
    → (unit_of letter == 0) ≡ false
    → Adds rest k
    → Adds (opt must n letter rest) (n * unit_of letter + k)
unfolding opt
Adds-opt must n letter rest k h e u adds = elim (Bool-cases (n == 0 && not must)) [
  | inl skip ↦ let same = Adds_none n letter k (ground arith) in rw (skip, same) adds
  | inr put ↦ rw put (Adds-part n letter rest k h e u adds)
]

Adds-opt_plus :
    (must : Bool) (n letter : ℕ) (rest : Bytes) (k : ℕ)
    → n < 2147483648
    → is_digit letter ≡ false
    → (unit_of letter == 0) ≡ false
    → Adds rest k
    → ((n == 0 && not must) ≡ true → Adds (b'+' ∷ rest) k)
    → Adds (b'+' ∷ opt must n letter rest) (n * unit_of letter + k)
unfolding opt
Adds-opt_plus must n letter rest k h e u adds plus = elim (Bool-cases (n == 0 && not must)) [
  | inl skip ↦ let same = Adds_none n letter k (ground arith) in rw (skip, same) (plus skip)
  | inr put ↦ rw put (Adds-part_plus n letter rest k h e u adds)
]

-- The text, with `rest` still to come
full : Bytes × Bytes → Bytes → Bytes
full (text, sep) rest = text ++ (sep ++ rest)

full-append_part :
    (st : Bytes × Bytes) (n letter : ℕ) (rest : Bytes)
    → full (append_part st n letter) rest ≡ full st (part n letter rest)
unfolding full part
full-append_part (text, sep) n letter rest =
    append_assoc text (sep ++ (print_unsigned n ++ letter ∷ [])) rest
    ∙ ap (λ t. text ++ t)
        (append_assoc sep (print_unsigned n ++ letter ∷ []) rest
          ∙ ap (λ t. sep ++ t) (append_assoc (print_unsigned n) (letter ∷ []) rest))

full-opt :
    (st : Bytes × Bytes) (n letter : ℕ) (rest : Bytes)
    → full (if n == 0 then st else append_part st n letter) rest ≡ full st (opt false n letter rest)
unfolding opt
full-opt st n letter rest = elim (Bool-cases (n == 0)) [
  | inl e ↦ rw e refl
  | inr e ↦ rw e (full-append_part st n letter rest)
]

full-last :
    (st : Bytes × Bytes) (must : Bool) (n letter : ℕ)
    → full (if not (n == 0) || must then append_part st n letter else st) []
      ≡ full st (opt must n letter [])
unfolding opt
full-last st true n letter = elim (Bool-cases (n == 0)) [
  | inl e ↦ rw e (full-append_part st n letter [])
  | inr e ↦ rw e (full-append_part st n letter [])
]
full-last st false n letter = elim (Bool-cases (n == 0)) [
  | inl e ↦ rw e refl
  | inr e ↦ rw e (full-append_part st n letter [])
]

full-sep : (st : Bytes × Bytes) → st.1 ≡ [] → st.0 ≡ full st []
unfolding full
full-sep (text, sep) h = rw (h, append-nil) refl

body : (d h m s : ℕ) → Bytes
body d h m s =
    opt false d b'd'
      (opt false h b'h' (opt false m b'm' (opt (d == 0 && h == 0 && m == 0) s b's' [])))

Adds-body :
    (d h m s : ℕ)
    → d < 2147483648
    → h < 2147483648
    → m < 2147483648
    → s < 2147483648
    → Adds (body d h m s) (d * 86400 + (h * 3600 + (m * 60 + (s * 1 + 0))))
      × Adds (b'+' ∷ body d h m s) (d * 86400 + (h * 3600 + (m * 60 + (s * 1 + 0))))
unfolding body
Adds-body d h m s dl hl ml sl =
    let must = d == 0 && h == 0 && m == 0 in
    let secs = Adds-opt must s b's' [] 0 sl refl refl Adds-nil in
    let am = Adds-opt false m b'm' _ _ ml refl refl secs in
    let ah = Adds-opt false h b'h' _ _ hl refl refl am in
    (
      Adds-opt false d b'd' _ _ dl refl refl ah,
      Adds-opt_plus false d b'd' _ _ dl refl refl ah λ no_d.
          Adds-opt_plus false h b'h' _ _ hl refl refl am λ no_h.
            Adds-opt_plus false m b'm' _ _ ml refl refl secs λ no_m.
              Adds-opt_plus must s b's' [] 0 sl refl refl Adds-nil
                λ no_s. absurd (ground (arith, no_d, no_h, no_m, no_s)),
    )

sign : ℤ → ℕ
sign secs = if ltb_ℤ secs (pos 0) then b'-' else b'+'

format-body :
    (secs : ℤ)
    → let b = ticker_secs_break secs in ticker_secs_format secs ≡ sign secs ∷ body b.d b.h b.m b.s
unfolding ticker_secs_format ticker_secs_break sign body
format-body secs =
    let b = ticker_secs_break secs in
    let st0 : Bytes × Bytes = ([], sign secs ∷ []) in
    let st1 = if b.d == 0 then st0 else append_part st0 b.d b'd' in
    let st2 = if b.h == 0 then st1 else append_part st1 b.h b'h' in
    let st3 = if b.m == 0 then st2 else append_part st2 b.m b'm' in
    let must = b.d == 0 && b.h == 0 && b.m == 0 in
    full-sep (if not (b.s == 0) || must then append_part st3 b.s b's' else st3) (ground arith)
    ∙ full-last st3 must b.s b's'
    ∙ full-opt st2 b.m b'm' _
    ∙ full-opt st1 b.h b'h' _
    ∙ full-opt st0 b.d b'd' _
    ∙ (unfold full in refl)

parse-plus : (s : Bytes) (k : ℕ) → Adds (b'+' ∷ s) k → ticker_secs_parse (b'+' ∷ s) ≡ pos k
unfolding ticker_secs_parse Adds
parse-plus s k adds = adds (length s + 2) 0 (omega arith) ∙ ap pos (omega arith)

parse-minus : (s : Bytes) (k : ℕ) → Adds s k → ticker_secs_parse (b'-' ∷ s) ≡ pos 0 -ℤ pos k
unfolding ticker_secs_parse Adds
parse-minus s k adds =
    ap (λ n. pos 0 -ℤ n) (adds (length s + 1) 0 (omega arith) ∙ ap pos (omega arith))

abbrev of_seconds : ℕ → Bytes
of_seconds t = body (t / 60 / 60 / 24) (t / 60 / 60 % 24) (t / 60 % 60) (t % 60)

Adds-seconds : (t : ℕ) → t < 2147483648 → Adds (of_seconds t) t × Adds (b'+' ∷ of_seconds t) t
Adds-seconds t h =
    let whole : t / 60 / 60 / 24 * 86400
          + (t / 60 / 60 % 24 * 3600 + (t / 60 % 60 * 60 + (t % 60 * 1 + 0)))
        ≡ t =
      omega arith in
    let (a, p) =
      Adds-body (t / 60 / 60 / 24) (t / 60 / 60 % 24) (t / 60 % 60) (t % 60) (omega arith)
        (omega arith) (omega arith) (omega arith) in
    (subst (λ k. Adds (of_seconds t) k) whole a, subst (λ k. Adds (b'+' ∷ of_seconds t) k) whole p)

-- A number of seconds that is less than 2^31 either way is read back from the text that is made of
-- it: days, hours, minutes and seconds behind the sign, without those that are 0.
pub ticker_secs_parse-format :
    (secs : ℤ)
    → pos_part secs + neg_part secs < 2147483648
    → ticker_secs_parse (ticker_secs_format secs) ≡ secs
unfolding ticker_secs_break sign
ticker_secs_parse-format (pos n) h =
    let plus : sign (pos n) ≡ b'+' = ground arith in
    ap ticker_secs_parse (format-body (pos n) ∙ ap (λ c. c ∷ of_seconds (n + 0)) plus)
    ∙ parse-plus _ (n + 0) (Adds-seconds (n + 0) h).1
    ∙ ap pos (omega arith)
ticker_secs_parse-format (negsuc n) h =
    let minus : sign (negsuc n) ≡ b'-' = ground arith in
    ap ticker_secs_parse (format-body (negsuc n) ∙ ap (λ c. c ∷ of_seconds (0 + suc n)) minus)
    ∙ parse-minus _ (0 + suc n) (Adds-seconds (0 + suc n) h).0
    ∙ (unfold ◌-ℤ◌ in ground arith)
