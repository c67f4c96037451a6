-- ===== src/Escape/RoundTrip.antt =====
-- What escape_putline writes, escape_getline reads back, but for blanks at the end.
use alarmd.Common.{
  ℕ, zero, suc, ◌+◌, ◌*◌, ◌/◌, ◌%◌, ◌<◌, ◌≤◌, ◌==◌, Bool, true, false, ◌&&◌, some, [], ◌∷◌, ◌++◌,
  if◌then◌else◌, length, ◌≡◌, ◌≢◌, refl, sym, ap, ◌∙◌, arith, Bool-cases, inl, inr, ==_iff,
}
use Prim.Native.Nat.{bit_or}
use mathlib.Core.List.{append_assoc, append-nil}
use alarmd.Event.{Bytes}
use alarmd.Escape.{
  itoc, ctoi, esc_p, output_esc, escape_putline, getline, strip, put, hex_digits, escaped, next,
  unescape, escape_getline,
}
use alarmd.Strbuf.RoundTrip.{IsText}

all_below : (ℕ → Bool) → ℕ → Bool
all_below f zero = true
all_below f (suc n) = f n && all_below f n

all_below_at : (f : ℕ → Bool) (n : ℕ) → all_below f n ≡ true → (i : ℕ) → i < n → f i ≡ true
unfolding all_below
all_below_at f zero h i l = absurd (omega arith)
all_below_at f (suc n) h i l = elim (Bool-cases (i == n)) [
  | inl last ↦ let e : i ≡ n = ground arith in rw e (ground arith)
  | inr early ↦ all_below_at f n (ground arith) i (ground arith)
]

nibbles : all_below (λ h. all_below (λ l. bit_or (h * 16) l == h * 16 + l) 16) 16 ≡ true
unfolding all_below
nibbles = refl

bit_or-nibbles : (h l : ℕ) → h < 16 → l < 16 → bit_or (h * 16) l ≡ h * 16 + l
bit_or-nibbles h l a b = (==_iff _ _).0 (all_below_at _ 16 (all_below_at _ 16 nibbles h a) l b)

ctoi-itoc : (i : ℕ) → i < 16 → ctoi (itoc i) ≡ some i
unfolding ctoi itoc
ctoi-itoc i h = ground arith

-- What is written for one byte
abbrev written : ℕ → Bytes
written c = if esc_p c then output_esc c else c ∷ []

hex_digits-nibbles :
    (i j : ℕ) (src : Bytes)
    → i < 16
    → j < 16
    → hex_digits (itoc i ∷ itoc j ∷ src) ≡ put ((i * 16 + j) % 256) src
unfolding hex_digits
hex_digits-nibbles i j src h l =
    rw (hex_digits, ctoi-itoc i h, ctoi-itoc j l, bit_or-nibbles i j h l) refl

next-written : (c : ℕ) (src : Bytes) → 0 < c → c < 256 → next (written c ++ src) ≡ put c src
unfolding next escaped esc_p output_esc
next-written c src h l =
    ground (arith, hex_digits-nibbles (c / 16 % 16) (c % 16) src (omega arith) (omega arith))

itoc-range : (i : ℕ) → i < 16 → (48 ≤ itoc i) × (itoc i ≤ 126)
unfolding itoc
itoc-range i h = ground arith

pub all_written : Bytes → Bytes
all_written [] = []
all_written (c ∷ txt) = written c ++ all_written txt

getline-written :
    (c : ℕ) (s : Bytes) → getline (written c ++ s) ≡ (written c ++ (getline s).0, (getline s).1)
unfolding getline esc_p output_esc
getline-written c s =
    ground (arith, itoc-range (c / 16 % 16) (omega arith), itoc-range (c % 16) (omega arith))

getline-all_written :
    (txt rest : Bytes)
    → getline (all_written txt ++ (10 ∷ rest)) ≡ (all_written txt ++ (10 ∷ []), rest)
unfolding all_written
getline-all_written [] rest = unfold getline in refl
getline-all_written (c ∷ txt) rest =
    rw
      (
        append_assoc (written c) (all_written txt) (10 ∷ rest),
        getline-written c _,
        getline-all_written txt rest,
        append_assoc (written c) (all_written txt) (10 ∷ []),
      )
      refl

-- The text without the blanks at its end
unfoldable pub drop_blanks : Bytes → Bytes
drop_blanks [] = []
drop_blanks (c ∷ txt) = elim (drop_blanks txt) [
  | [] ↦ if c == 32 then [] else c ∷ []
  | d ∷ ds ↦ c ∷ d ∷ ds
]

strip-last :
    (c : ℕ) (s : Bytes)
    → strip s ≡ []
    → strip (written c ++ s) ≡ (if c == 32 then [] else written c)
unfolding strip esc_p output_esc
strip-last c s e =
    ground (arith, e, itoc-range (c / 16 % 16) (omega arith), itoc-range (c % 16) (omega arith))

strip-inner :
    (c : ℕ) (s : Bytes) (d : ℕ) (ds : Bytes)
    → strip s ≡ d ∷ ds
    → strip (written c ++ s) ≡ written c ++ (d ∷ ds)
unfolding strip esc_p output_esc
strip-inner c s d ds e = ground (arith, e)

cons_of : (s : Bytes) → s ≢ [] → (d : ℕ) × (ds : Bytes) × (s ≡ d ∷ ds)
cons_of [] n = absurd (n refl)
cons_of (d ∷ ds) n = (d, ds, refl)

written_some : (c : ℕ) → written c ≢ []
unfolding esc_p output_esc
written_some c = ground arith

snoc_some : (s : Bytes) → s ++ (10 ∷ []) ≢ []
snoc_some [] e = cc
snoc_some (c ∷ s) e = cc

last_written :
    (c : ℕ) → (if c == 32 then [] else written c) ≡ all_written (if c == 32 then [] else c ∷ [])
unfolding all_written
last_written c = elim (Bool-cases (c == 32)) [
  | inl blank ↦ rw blank refl
  | inr other ↦ rw other (sym (append-nil (written c)))
]

strip-all_written :
    (txt : Bytes) → strip (all_written txt ++ (10 ∷ [])) ≡ all_written (drop_blanks txt)
unfolding all_written drop_blanks
strip-all_written [] = unfold strip in refl
strip-all_written (c ∷ txt) = go (drop_blanks txt) refl (strip-all_written txt)
  where
    s : Bytes
    s = all_written txt ++ (10 ∷ [])

    go :
        (b : Bytes)
        → drop_blanks txt ≡ b
        → strip s ≡ all_written (drop_blanks txt)
        → strip (all_written (c ∷ txt) ++ (10 ∷ [])) ≡ all_written (drop_blanks (c ∷ txt))
    go [] e known =
        let ih : strip s ≡ [] = known ∙ ap all_written e in
        rw (append_assoc (written c) (all_written txt) (10 ∷ []), strip-last c s ih, drop_blanks, e)
          (last_written c)
    go (d ∷ ds) e known =
        let (f, fs, w) = cons_of (written d) (written_some d) in
        let ih : strip s ≡ f ∷ (fs ++ all_written ds) =
          known ∙ ap all_written e ∙ ap (λ x. x ++ all_written ds) w in
        rw
          (
            append_assoc (written c) (all_written txt) (10 ∷ []),
            strip-inner c s f _ ih,
            drop_blanks,
            e,
          )
          (ap (λ x. written c ++ x) (sym (ap (λ x. x ++ all_written ds) w)))

unescape-all_written :
    (txt : Bytes)
    → IsText txt
    → (fuel : ℕ) → length txt < fuel
    → unescape fuel (all_written txt) ≡ some txt
unfolding all_written unescape
unescape-all_written [] h zero l = absurd (omega arith)
unescape-all_written (c ∷ txt) h zero l = absurd (omega arith)
unescape-all_written [] h (suc fuel) l = unfold next in refl
unescape-all_written (c ∷ txt) (nonzero, small, h) (suc fuel) l =
    rw
      (
        next-written c (all_written txt) nonzero small,
        unescape,
        unescape-all_written txt h fuel (omega arith),
      )
      refl

length-all_written : (txt : Bytes) → length txt ≤ length (all_written txt)
unfolding all_written esc_p output_esc
length-all_written [] = omega arith
length-all_written (c ∷ txt) = ground (arith, length-all_written txt)

drop_blanks-IsText : (txt : Bytes) → IsText txt → IsText (drop_blanks txt)
unfolding drop_blanks
drop_blanks-IsText [] h = tt
drop_blanks-IsText (c ∷ txt) (a, b, h) = go (drop_blanks txt) refl (drop_blanks-IsText txt h)
  where
    go : (r : Bytes) → drop_blanks txt ≡ r → IsText r → IsText (drop_blanks (c ∷ txt))
    go [] e k = elim (Bool-cases (c == 32)) [
      | inl blank ↦ rw (e, drop_blanks, blank) tt
      | inr other ↦ rw (e, drop_blanks, other) (a, b, tt)
    ]
    go (d ∷ ds) e k = rw (e, drop_blanks) (a, b, k)

pub putline-written :
    (txt : Bytes)
    → IsText txt
    → (file : Bytes) → escape_putline file txt ≡ file ++ (all_written txt ++ (10 ∷ []))
unfolding escape_putline all_written
putline-written [] h file = refl
putline-written (c ∷ txt) (nonzero, small, h) file =
    let inside : (c == 0) ≡ false = ground arith in
    rw (inside, escape_putline)
      (putline-written txt h (file ++ written c)
        ∙ append_assoc file (written c) _
        ∙ ap (λ x. file ++ x) (sym (append_assoc (written c) (all_written txt) (10 ∷ []))))

getline-reads :
    (s line rest : Bytes)
    → getline s ≡ (line, rest)
    → line ≢ []
    → escape_getline s ≡ (unescape (length (strip line) + 1) (strip line), rest)
unfolding escape_getline
getline-reads [] line rest e n = absurd (n (unfold getline in ap (λ r. r.0) (sym e)))
getline-reads (c ∷ file) line rest e n = rw (escape_getline, e) refl

-- A text without 0 bytes that is put as a line, with further lines behind it, is got back without
-- the blanks at its end, and the further lines are left.
pub getline-putline :
    (txt : Bytes)
    → IsText txt
    → (rest : Bytes)
    → escape_getline (escape_putline [] txt ++ rest) ≡ (some (drop_blanks txt), rest)
getline-putline txt h rest =
    let kept = drop_blanks txt in
    let line : getline (escape_putline [] txt ++ rest) ≡ (all_written txt ++ (10 ∷ []), rest) =
      ap (λ s. getline (s ++ rest)) (putline-written txt h [])
      ∙ ap getline (append_assoc (all_written txt) (10 ∷ []) rest)
      ∙ getline-all_written txt rest in
    getline-reads _ _ rest line (snoc_some (all_written txt))
    ∙ rw (strip-all_written txt) (
        ap (λ o. (o, rest))
          (unescape-all_written kept (drop_blanks-IsText txt h) _
            (omega (arith, length-all_written kept))))
