-- ===== src/Server/Flags.antt =====
-- The bits of the server's flags: server_state_clr takes one bit away and leaves the others.
use Prim.Native.Nat.{min, max, digits, bit_or, bit_and-bitwise, bit_or-bitwise}
use alarmd.Common.{
  ℕ, zero, suc, ◌+◌, ◌-◌, ◌*◌, ◌/◌, ◌%◌, ◌≤◌, ◌==◌, if◌then◌else◌, bit_and, ◌≡◌, refl, sym, ap, ap₂,
  ◌∙◌, arith,
}
use alarmd.Event.{has}
use alarmd.Server.{Server, state_get, state_clr, sf_tz_changed, sf_clk_mv_forw, sf_clk_mv_back}

module _ (rest : ℕ → ℕ) (f : ℕ → ℕ → ℕ) where
  digits-zero : (n b : ℕ) → digits rest f n 0 b ≡ rest b
  digits-zero zero b = refl
  digits-zero (suc n) b = refl

  -- More fuel than the first number makes no difference.
  digits-fuel : (n m a b : ℕ) → a ≤ n → a ≤ m → digits rest f n a b ≡ digits rest f m a b
  digits-fuel n m zero b h k = digits-zero n b ∙ sym (digits-zero m b)
  digits-fuel zero m (suc a) b h k = absurd (omega arith)
  digits-fuel (suc n) zero (suc a) b h k = absurd (omega arith)
  digits-fuel (suc n) (suc m) (suc a) b h k =
      ap (λ (t : ℕ). t * 2 + f (suc a % 2) (b % 2))
        (digits-fuel n m (suc a / 2) (b / 2) (omega arith) (omega arith))

and-low : (a b : ℕ) → bit_and a b ≡ bit_and (a / 2) (b / 2) * 2 + min (a % 2) (b % 2)
and-low zero b = omega (arith, bit_and-bitwise 0 b, bit_and-bitwise 0 (b / 2))
and-low (suc a) b =
    bit_and-bitwise (suc a) b
    ∙ ap (λ (t : ℕ). t * 2 + min (suc a % 2) (b % 2))
        (digits-fuel (λ b. 0) min a (suc a / 2) (suc a / 2) (b / 2) (omega arith) (omega arith)
          ∙ sym (bit_and-bitwise (suc a / 2) (b / 2)))

or-low : (a b : ℕ) → bit_or a b ≡ bit_or (a / 2) (b / 2) * 2 + max (a % 2) (b % 2)
or-low zero b = omega (arith, bit_or-bitwise 0 b, bit_or-bitwise 0 (b / 2))
or-low (suc a) b =
    bit_or-bitwise (suc a) b
    ∙ ap (λ (t : ℕ). t * 2 + max (suc a % 2) (b % 2))
        (digits-fuel (λ b. b) max a (suc a / 2) (suc a / 2) (b / 2) (omega arith) (omega arith)
          ∙ sym (bit_or-bitwise (suc a / 2) (b / 2)))

-- The binary digit at `k`
bit : ℕ → ℕ → ℕ
bit zero x = x % 2
bit (suc k) x = bit k (x / 2)

bit_and-bit : (k a b : ℕ) → bit k (bit_and a b) ≡ min (bit k a) (bit k b)
unfolding bit
bit_and-bit zero a b = omega (arith, and-low a b)
bit_and-bit (suc k) a b =
    let half : bit_and a b / 2 ≡ bit_and (a / 2) (b / 2) = omega (arith, and-low a b) in
    ap (bit k) half ∙ bit_and-bit k (a / 2) (b / 2)

bit_or-bit : (k a b : ℕ) → bit k (bit_or a b) ≡ max (bit k a) (bit k b)
unfolding bit
bit_or-bit zero a b = omega (arith, or-low a b)
bit_or-bit (suc k) a b =
    let half : bit_or a b / 2 ≡ bit_or (a / 2) (b / 2) = omega (arith, or-low a b) in
    ap (bit k) half ∙ bit_or-bit k (a / 2) (b / 2)

has-bit_12 : (x : ℕ) → x / 0x1000 % 2 ≡ bit 12 x
unfolding bit
has-bit_12 x = omega arith

has-bit_13 : (x : ℕ) → x / 0x2000 % 2 ≡ bit 13 x
unfolding bit
has-bit_13 x = omega arith

state_get-bit :
    (k : ℕ) (s : Server)
    → bit k (state_get s)
      ≡ max
          (min (bit k s.state_fake) (bit k s.state_mask))
          (min (bit k s.state_real) (bit k (0xffffffff - s.state_mask)))
unfolding state_get
state_get-bit k s =
    bit_or-bit k _ _
    ∙ ap₂ max (bit_and-bit k s.state_fake s.state_mask)
        (bit_and-bit k s.state_real (0xffffffff - s.state_mask))

-- A flag is read off the bit of the server's own flags, whichever way they are changed.
state_get-same :
    (k : ℕ) (s s' : Server)
    → s'.state_fake ≡ s.state_fake
    → s'.state_mask ≡ s.state_mask
    → bit k s'.state_real ≡ bit k s.state_real
    → bit k (state_get s') ≡ bit k (state_get s)
state_get-same k s s' f m r = state_get-bit k s' ∙ rw (f, m, r) (sym (state_get-bit k s))

state_clr-bit :
    (k clr : ℕ) (s : Server)
    → bit k (if has s.state_real clr then s.state_real - clr else s.state_real) ≡ bit k s.state_real
    → bit k (state_get (state_clr s clr)) ≡ bit k (state_get s)
unfolding state_clr
state_clr-bit k clr s h = state_get-same k s (state_clr s clr) refl refl h

zone_12 : (x : ℕ) → bit 12 (if has x sf_tz_changed then x - sf_tz_changed else x) ≡ bit 12 x
zone_12 x = rw (← has-bit_12, ← has-bit_12) (ground arith)

zone_13 : (x : ℕ) → bit 13 (if has x sf_tz_changed then x - sf_tz_changed else x) ≡ bit 13 x
zone_13 x = rw (← has-bit_13, ← has-bit_13) (ground arith)

forw_13 : (x : ℕ) → bit 13 (if has x sf_clk_mv_forw then x - sf_clk_mv_forw else x) ≡ bit 13 x
forw_13 x = rw (← has-bit_13, ← has-bit_13) (ground arith)

has-forw : (x y : ℕ) → bit 12 x ≡ bit 12 y → has x sf_clk_mv_forw ≡ has y sf_clk_mv_forw
has-forw x y h = ap (λ (n : ℕ). n == 1) (has-bit_12 x ∙ h ∙ sym (has-bit_12 y))

has-back : (x y : ℕ) → bit 13 x ≡ bit 13 y → has x sf_clk_mv_back ≡ has y sf_clk_mv_back
has-back x y h = ap (λ (n : ℕ). n == 1) (has-bit_13 x ∙ h ∙ sym (has-bit_13 y))

pub clr_zone-forw :
    (s : Server)
    → has (state_get (state_clr s sf_tz_changed)) sf_clk_mv_forw ≡ has (state_get s) sf_clk_mv_forw
clr_zone-forw s = has-forw _ _ (state_clr-bit 12 sf_tz_changed s (zone_12 s.state_real))

pub clr_zone-back :
    (s : Server)
    → has (state_get (state_clr s sf_tz_changed)) sf_clk_mv_back ≡ has (state_get s) sf_clk_mv_back
clr_zone-back s = has-back _ _ (state_clr-bit 13 sf_tz_changed s (zone_13 s.state_real))

pub clr_forw-back :
    (s : Server)
    → has (state_get (state_clr s sf_clk_mv_forw)) sf_clk_mv_back ≡ has (state_get s) sf_clk_mv_back
clr_forw-back s = has-back _ _ (state_clr-bit 13 sf_clk_mv_forw s (forw_13 s.state_real))
