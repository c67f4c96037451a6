-- ===== src/Escape.antt =====
-- src/escape.c: lines of text with escapes, as the queue file and ini files hold them. A stream is the list of
-- the bytes that were written to it, or that are left to read; a `char` is unsigned. What vasprintf makes of a format is the
-- text given; writing and allocating do not fail.
use alarmd.Common.{
  ℕ, zero, suc, ◌+◌, ◌-◌, ◌*◌, ◌/◌, ◌%◌, ltb, leb, ◌==◌, Bool, true, false, ◌&&◌, ◌||◌, Option,
  none, some, List, [], ◌∷◌, ◌++◌, if◌then◌else◌, length,
}
use Prim.Native.Nat.{bit_or}
use mathlib.Core.Option
use alarmd.Event.{Bytes}
pub mod RoundTrip

unfoldable pub itoc : ℕ → ℕ
itoc i = if ltb i 10 then 48 + i else 97 - 10 + i

-- `none` is -1.
unfoldable pub ctoi : ℕ → Option ℕ
ctoi c =
    if leb 48 c && leb c 57
    then some (c - 48)
    else if leb 97 c && leb c 122
    then some (c - 97 + 10)
    else if leb 65 c && leb c 90
    then some (c - 65 + 10)
    else none

unfoldable pub esc_p : ℕ → Bool
esc_p c = ltb c 32 || (c == 92 || ltb 126 c)

-- The bytes that output_esc writes
unfoldable pub output_esc : ℕ → Bytes
unfolding itoc
output_esc c =
    if c == 92
    then 92 ∷ 92 ∷ []
    else if c == 8
    then 92 ∷ 98 ∷ []
    else if c == 10
    then 92 ∷ 110 ∷ []
    else if c == 13
    then 92 ∷ 114 ∷ []
    else if c == 9
    then 92 ∷ 116 ∷ []
    else 92 ∷ 120 ∷ itoc (c / 16 % 16) ∷ itoc (c % 16) ∷ []

-- The text ends at a 0 byte.
unfoldable pub escape_putline : Bytes → Bytes → Bytes
escape_putline file [] = file ++ (10 ∷ [])
escape_putline file (c ∷ txt) = elim (c == 0) [
  | true ↦ file ++ (10 ∷ [])
  | false ↦ escape_putline (file ++ (if esc_p c then output_esc c else c ∷ [])) txt
]

-- getline: the bytes up to a newline, with it, and the ones behind
unfoldable pub getline : Bytes → Bytes × Bytes
getline [] = ([], [])
getline (c ∷ file) =
    let rest = getline file in if c == 10 then (c ∷ [], file) else (c ∷ rest.0, rest.1)

-- The bytes at the end that are at most 32 are cut off.
unfoldable pub strip : Bytes → Bytes
strip [] = []
strip (c ∷ buff) = elim (strip buff) [ [] ↦ if leb c 32 then [] else c ∷ [] | d ∷ ds ↦ c ∷ d ∷ ds ]

-- What the loop over the line does next: put a byte and go on behind, end, or give up.
pub data Next : Type 0 where
  put : ℕ → Bytes → Next
  finished : Next
  give_up : Next

unfoldable pub hex_digits : Bytes → Next
hex_digits [] = give_up
hex_digits (h ∷ []) = give_up
hex_digits (h ∷ l ∷ src) = elim (ctoi h) [
  | none ↦ give_up
  | some i ↦ elim (ctoi l) [ none ↦ give_up | some j ↦ put (bit_or (i * 16) j % 256) src ]
]

unfoldable pub escaped : Bytes → Next
escaped [] = give_up
escaped (n ∷ src) =
    if n == 92
    then put 92 src
    else if n == 98
    then put 8 src
    else if n == 110
    then put 10 src
    else if n == 114
    then put 13 src
    else if n == 116
    then put 9 src
    else if n == 120
    then hex_digits src
    else give_up

unfoldable pub next : Bytes → Next
next [] = finished
next (n ∷ src) = if n == 0 then finished else if n == 92 then escaped src else put n src

unfoldable pub unescape : ℕ → Bytes → Option Bytes
unescape zero src = none
unescape (suc fuel) src = elim (next src) [
  | put c src' ↦ Option.map (λ dst. c ∷ dst) (unescape fuel src')
  | finished ↦ some []
  | give_up ↦ none
]

-- The line, or `none` for -1, and what is left to read. Each round reads a byte of the line.
unfoldable pub escape_getline : Bytes → Option Bytes × Bytes
escape_getline [] = (none, [])
escape_getline (c ∷ file) =
    let (line, rest) = getline (c ∷ file) in
    let buff = strip line in (unescape (length buff + 1) buff, rest)
