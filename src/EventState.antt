-- ===== src/EventState.antt =====
-- alarmeventstates of src/queue.h: the states in the order of src/states.inc.
use alarmd.Common.{ℕ}

abbrev pub new : ℕ
new = 0

abbrev pub waitconn : ℕ
waitconn = 1

abbrev pub queued : ℕ
queued = 2

abbrev pub missed : ℕ
missed = 3

abbrev pub postponed : ℕ
postponed = 4

abbrev pub limbo : ℕ
limbo = 5

abbrev pub triggered : ℕ
triggered = 6

abbrev pub waitsysui : ℕ
waitsysui = 7

abbrev pub sysui_req : ℕ
sysui_req = 8

abbrev pub sysui_ack : ℕ
sysui_ack = 9

abbrev pub sysui_rsp : ℕ
sysui_rsp = 10

abbrev pub snoozed : ℕ
snoozed = 11

abbrev pub served : ℕ
served = 12

abbrev pub recurring : ℕ
recurring = 13

abbrev pub deleted : ℕ
deleted = 14

abbrev pub finalized : ℕ
finalized = 15
