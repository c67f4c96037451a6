-- ===== src/Tests/EscapeExamples.antt =====
-- The theorem on src/escape.c, applied to a text of two lines that ends with a blank.
use alarmd.Common.{[], ◌∷◌, ◌++◌, some, ◌≡◌, arith}
use alarmd.Event.{Bytes}
use alarmd.Escape.{escape_putline, escape_getline}
use alarmd.Escape.RoundTrip.{getline-putline, drop_blanks}

abbrev text : Bytes
text = 72 ∷ 105 ∷ 10 ∷ 92 ∷ 200 ∷ 32 ∷ []

getline-putline_example :
    escape_getline (escape_putline [] text ++ (65 ∷ 10 ∷ []))
    ≡ (some (drop_blanks text), 65 ∷ 10 ∷ [])
getline-putline_example =
    getline-putline text
      (
        omega arith,
        omega arith,
        (
          omega arith,
          omega arith,
          (
            omega arith,
            omega arith,
            (omega arith, omega arith, (omega arith, omega arith, (omega arith, omega arith, tt))),
          ),
        ),
      )
      (65 ∷ 10 ∷ [])
