-- ===== src/Periods.antt =====
-- The functions ticker_secs_* of src/ticker.c: a number of seconds as text and back. A number is an
-- int without overflow, a long has 32 bits, and the buffer has room for the text.
use alarmd.Common.{
  ℕ, zero, suc, ◌+◌, ◌*◌, ◌/◌, ◌%◌, ◌==◌, Bool, ◌&&◌, ◌||◌, not, some, none, [], ◌∷◌, ◌++◌,
  if◌then◌else◌, length, ℤ, pos, negsuc, ◌+ℤ◌, ◌-ℤ◌, sub_ℕ, ltb_ℤ, pos_part, neg_part,
}
use alarmd.Event.{Bytes}
use alarmd.Decimal.{print_unsigned, read_signed}
pub mod ReadBack

pub record Broken : Type 0 where
  pub negative : Bool
  pub d : ℕ
  pub h : ℕ
  pub m : ℕ
  pub s : ℕ

unfoldable pub ticker_secs_break : ℤ → Broken
ticker_secs_break secs =
    let t = pos_part secs + neg_part secs in
    record {
      negative = ltb_ℤ secs (pos 0);
      d = t / 60 / 60 / 24;
      h = t / 60 / 60 % 24;
      m = t / 60 % 60;
      s = t % 60;
    }

-- ticker_string_append of `"%s%d"` and the letter: the text so far, and what sep() gives next
abbrev pub append_part : Bytes × Bytes → ℕ → ℕ → Bytes × Bytes
append_part (text, sep) n letter = (text ++ (sep ++ (print_unsigned n ++ letter ∷ [])), [])

unfoldable pub ticker_secs_format : ℤ → Bytes
ticker_secs_format secs =
    let b = ticker_secs_break secs in
    let st0 : Bytes × Bytes = ([], (if b.negative then b'-' else b'+') ∷ []) in
    let st1 = if b.d == 0 then st0 else append_part st0 b.d b'd' in
    let st2 = if b.h == 0 then st1 else append_part st1 b.h b'h' in
    let st3 = if b.m == 0 then st2 else append_part st2 b.m b'm' in
    let st4 =
      if not (b.s == 0) || (b.d == 0 && b.h == 0 && b.m == 0)
      then append_part st3 b.s b's'
      else st3 in
    st4.0

-- The `switch`: what `a` is counted in, if there is such a letter
abbrev pub unit_of : ℕ → ℕ
unit_of c =
    if c == b's'
    then 1
    else if c == b'm'
    then 60
    else if c == b'h'
    then 3600
    else if c == b'd'
    then 86400
    else 0

-- `a` and `e` after strtol, which gives 0 and moves nowhere if there is no number
unfoldable pub take_number : Bytes → ℤ × Bytes
take_number s = elim (read_signed 32 s) [ none ↦ (pos 0, s) | some r ↦ r ]

abbrev pub times : ℤ → ℕ → ℤ
times (pos a) u = pos (a * u)
times (negsuc a) u = sub_ℕ 0 (suc a * u)

-- The loop, with fuel for one round more than there are characters
unfoldable pub add_parts : ℕ → Bytes → ℤ → ℤ
add_parts zero s tot = tot
add_parts (suc fuel) s tot = elim s [
  | [] ↦ tot
  | c ∷ cs ↦
      let (a, e) = take_number (c ∷ cs) in
      elim e [
        | [] ↦ tot +ℤ a
        | u ∷ s' ↦
            let rest = add_parts fuel s' (tot +ℤ times a (unit_of u)) in
            if unit_of u == 0 then tot +ℤ a else rest
      ]
]

unfoldable pub ticker_secs_parse : Bytes → ℤ
ticker_secs_parse [] = add_parts 1 [] (pos 0)
ticker_secs_parse (c ∷ s) =
    if c == b'-'
    then pos 0 -ℤ add_parts (length s + 1) s (pos 0)
    else add_parts (length s + 2) (c ∷ s) (pos 0)
