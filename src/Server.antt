-- ===== src/Server.antt =====
-- src/server.c: the state of the server that the alarm state machine reads and changes, what it
-- does to the outside, and the loop over a query's cookies that its steps share.
use alarmd.Common.{
  ℕ, ◌-◌, ◌+◌, ◌*◌, Bool, List, [], ◌∷◌, Option, none, some, ℤ, pos, ◌+ℤ◌, ◌-ℤ◌, ltb_ℤ, leb_ℤ,
  if◌then◌else◌, bit_and, not, ◌==◌, true, false,
}
use Prim.Native.Nat.{bit_or}
use alarmd.Event.{Event, Bytes, Text, has}
use alarmd.Queue.{Queue, get_event}
use alarmd.Queue.Query.{int_max}
pub mod Actions
pub mod Keeps
pub mod Rethink
pub mod Times
pub mod Dialog
pub mod Schedule
pub mod Clock
pub mod Flags

-- The message that server_action_do_dbus builds: a method call if it has a service, else a signal.
pub record Message : Type 0 where
  pub service : Text
  pub path : Text
  pub interface : Text
  pub name : Text
  pub auto_start : Bool
  pub args : Text
  pub cookie : Option ℤ
  pub system_bus : Bool

-- What the server does to the outside.
pub data Effect : Type 0 where
  run_command : Bytes → Effect
  send_message : Message → Effect
  add_dialog : List ℤ → Effect
  cancel_dialog : List ℤ → Effect
  hw_alarm : ℤ → Effect

-- The source that g_idle_add, g_timeout_add_seconds or g_timeout_add has made.
pub data Timer : Type 0 where
  idle : Timer
  seconds : ℤ → Timer
  milliseconds : ℕ → Timer

-- server_queuestate_t
pub record QueueState : Type 0 where
  pub qs_alarms : ℤ
  pub qs_desktop : ℤ
  pub qs_actdead : ℤ
  pub qs_no_boot : ℤ

-- The static variables of src/server.c, without their prefix. `clock` is what ticker_get_time
-- gives, and `effects` lists what was done, the latest first.
pub record Server : Type 0 where
  pub queue : Queue
  pub state_real : ℕ
  pub state_prev : ℕ
  pub state_mask : ℕ
  pub state_fake : ℕ
  pub queuestate : QueueState
  pub icons_curr : ℕ
  pub wakeup_time : ℤ
  pub wakeup_id : Option Timer
  pub rethink_time : ℤ
  pub rethink_req : Bool
  pub rethink_id : Option Timer
  pub clock : ℤ
  pub tz_curr : Text
  pub tz_prev : Text
  pub dst_curr : ℤ
  pub dst_prev : ℤ
  pub delta_forw : ℤ
  pub delta_back : ℤ
  pub effects : List Effect

-- Server state flags, each the value of its one bit
abbrev pub sf_connected : ℕ
sf_connected = 0x1

abbrev pub sf_systemui_up : ℕ
sf_systemui_up = 0x4

abbrev pub sf_act_dead : ℕ
sf_act_dead = 0x10000

abbrev pub sf_desktop_up : ℕ
sf_desktop_up = 0x20000

abbrev pub sf_tz_changed : ℕ
sf_tz_changed = 0x400

abbrev pub sf_clk_mv_forw : ℕ
sf_clk_mv_forw = 0x1000

abbrev pub sf_clk_mv_back : ℕ
sf_clk_mv_back = 0x2000

-- server_state_get, for masks of 32 bits
unfoldable pub state_get : Server → ℕ
state_get s =
    bit_or (bit_and s.state_fake s.state_mask) (bit_and s.state_real (0xffffffff - s.state_mask))

-- server_state_clr, for the value of one bit
unfoldable pub state_clr : Server → ℕ → Server
unfolding state_get
state_clr s clr =
    let s' : Server = record s {
      state_real = if has s.state_real clr then s.state_real - clr else s.state_real;
    } in
    record s' { state_prev = state_get s' }

-- server_timestate_sync
abbrev pub timestate_sync : Server → Server
timestate_sync s = record s { tz_prev = s.tz_curr; dst_prev = s.dst_curr }

unfoldable pub queuestate_reset : Server → Server
queuestate_reset s = record s {
  queuestate = record {
    qs_alarms = pos 0;
    qs_desktop = int_max;
    qs_actdead = int_max;
    qs_no_boot = int_max;
  };
  icons_curr = 0;
}

abbrev pub with_queue : Server → Queue → Server
with_queue s q = record s { queue = q }

abbrev pub emit : Server → Effect → Server
emit s e = record s { effects = e ∷ s.effects }

-- server_request_wakeup
unfoldable pub request_wakeup : Server → ℤ → Server
request_wakeup s tmo =
    let top = s.clock +ℤ pos (14 * 24 * 60 * 60) in
    let due = if ltb_ℤ top tmo then top else tmo in
    if ltb_ℤ due s.wakeup_time
    then record s {
      wakeup_time = due;
      wakeup_id = some (if leb_ℤ due s.clock then idle else seconds (due -ℤ s.clock));
    }
    else s

-- time_filt
abbrev pub time_filt : ℤ → ℤ → ℤ
time_filt low add = if ltb_ℤ add low then add else low

-- The loop `for( i = 0; i < cnt; ++i ) { eve = queue_get_event(vec[i]); … }`. The steps use `eve`
-- without a test, so `none` is a dereference of NULL.
unfoldable pub for_events : (Server → ℕ → Server) → List ℤ → Server → Option Server
for_events body [] s = some s
for_events body (c ∷ cs) s = elim (get_event s.queue c) [
  | none ↦ none
  | some p ↦ for_events body cs (body s p)
]
