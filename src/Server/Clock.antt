-- ===== src/Server/Clock.antt =====
-- server_clock_source_is_stable of src/server.c: it compares the clock with the monotonic time, waits
-- until it has been steady for a while, and then notes by how much it has moved.
use alarmd.Common.{
  ℕ, ◌+◌, Bool, true, false, not, ◌&&◌, ◌||◌, ◌==◌, ℤ, pos, negsuc, ◌+ℤ◌, ◌-ℤ◌, ltb_ℤ,
  if◌then◌else◌, ◌≡◌, refl, arith,
}
use alarmd.Event.{set_bit, has}
use alarmd.Server.{Server, state_get, state_clr, sf_clk_mv_forw, sf_clk_mv_back}
use alarmd.Server.Dialog.{rethink_request}
pub mod Accounts

abbrev pub sf_clk_changed : ℕ
sf_clk_changed = 0x800

-- The variables that the function keeps between calls
pub record Watch : Type 0 where
  pub initialized : Bool
  pub delta_sched : ℤ
  pub delta_clock : ℤ
  pub delay_until : ℤ

-- server_state_set(0, set), for the value of one bit
unfoldable pub state_set : Server → ℕ → Server
state_set s set =
    let s' : Server = record s { state_real = set_bit s.state_real set } in
    let temp = state_get s' in
    if temp == s.state_prev then s' else rethink_request (record s' { state_prev = temp }) false

-- a < -bound, or bound < a
abbrev pub beyond : ℕ → ℤ → Bool
beyond bound a = ltb_ℤ a (pos 0 -ℤ pos bound) || ltb_ℤ (pos bound) a

unfoldable pub start_watch : ℤ → ℤ → Watch → Watch
start_watch delta mono w =
    if w.initialized
    then w
    else record { initialized = true; delta_sched = delta; delta_clock = delta; delay_until = mono }

-- CLK_JITTER and CLK_STABLE
unfoldable pub detect : Bool → ℤ → ℤ → Watch → Watch
detect changed delta mono w =
    if changed || beyond 2 (delta -ℤ w.delta_clock)
    then record w { delta_clock = delta; delay_until = mono +ℤ pos 2 }
    else w

-- CLK_RESCHED
unfoldable pub note_change : Watch → Server → Watch × Server
note_change w s =
    let diff = w.delta_clock -ℤ w.delta_sched in
    let settled : Watch = record w { delta_sched = w.delta_clock } in
    if ltb_ℤ (pos 5) diff
    then (settled, state_set (record s { delta_forw = s.delta_forw +ℤ diff }) sf_clk_mv_forw)
    else if ltb_ℤ diff (pos 0 -ℤ pos 5)
    then (settled, state_set (record s { delta_back = s.delta_back +ℤ diff }) sf_clk_mv_back)
    else (w, s)

-- `mono` is what ticker_get_monotonic gives.
unfoldable pub clock_source_is_stable : ℤ → Watch → Server → Bool × Watch × Server
clock_source_is_stable mono w0 s0 =
    let delta = s0.clock -ℤ mono in
    let changed = has (state_get s0) sf_clk_changed in
    let s1 = if changed then state_clr s0 sf_clk_changed else s0 in
    let w = detect changed delta mono (start_watch delta mono w0) in
    if ltb_ℤ mono w.delay_until
    then (false, w, s1)
    else (let r = note_change w s1 in (true, r.0, r.1))
