-- ===== src/Lib.antt =====
-- alarmd: the daemon that keeps the alarms of the device and triggers them.
--
-- The daemon holds the alarm events in a queue (src/queue.c), two tables of pointers to event
-- objects, one sorted by cookie and one by trigger time. Each event has a state in the upper half
-- of its flags, and the server (src/server.c) runs a state machine over the queue: a step per
-- state, which asks the queue for the cookies of the events in that state, looks each of them up
-- again, runs the event's actions and moves it to its next state. Clients and the system's dialog
-- service add, delete and answer events between the steps. Values that are stored or sent as text
-- are written and read by the string buffer (src/strbuf.c) and, a line at a time, by src/escape.c.
-- Between client and daemon an event is a D-Bus message (src/codec.c), after the client library has
-- checked it (src/event.c). The queue is kept in a file that is replaced by renaming.
-- When an event triggers next is reckoned by src/server.c from a period or from the masks of
-- src/recurrence.c, over the calendar of src/ticker.c.
--
-- The files:
--   Event, EventState: the structures and flags of src/libalarm.h, the states of src/states.inc,
--     alarm_event_is_recurring and xisempty. A string is an optional list of bytes, NULL being
--     `none`.
--   Attributes: src/attr.c and the functions on attributes of src/event.c; Attributes/Stored: what
--     is read after a change. Sane: alarm_event_is_sane; Sane/Accepts: what it lets through.
--   Queue: the static variables of src/queue.c as a record, with the event objects in a heap from
--     pointers to events, and the functions on them under the source's names without `queue_`.
--     Queue/Order, Valid: the sort orders and when a queue is in order. Queue/Insert, Lookup,
--     Added, Reschedule, Transition, Query, Cleanup, Collected, Flushed: what the operations do.
--     Queue/View, Registry: the queue as a registry of events by cookie, and its operations there.
--     Queue/Refines and its children Adds, Runs: the queue against the registry.
--   Calendar: the functions of src/ticker.c on broken down time, over the table of functions
--     `ticker_driver_t`; Calendar/FixedOffset: what is relied on of mktime.
--   Recurrence: src/recurrence.c. Recurrence/Seek, Matches, Steps, Loops, Aligned: its loops and
--     what they find; Recurrence/Ahead: moving on by one unit first.
--   Escape: src/escape.c. Escape/RoundTrip: reading back a line that was written.
--   Server: the static variables of src/server.c that the state machine uses, and the effects that
--     it has on the outside, as a list; Server/Flags: the bits of its flags. Server/Actions:
--     server_action_* and the accessors server_event_*. Server/Rethink: the steps server_rethink_*, named without `server_`.
--     Server/Keeps and Server/Rethink/Safe: what actions and steps keep. Server/Rethink/Pointwise,
--     Outcomes, Acted, Steps: what a step makes of each event; Said, Told, Speaks: what it does to
--     the outside. Server/Rethink/Recurring: the steps
--     server_rethink_recurring and server_rethink_timechange; Rescheduled, TimeChange: what they do.
--     Server/Rethink/Stages: sequences of steps; Rounds: the loop of server_rethink_start_cb;
--     GoesOff: what becomes of an alarm that is due.
--     Server/Schedule: the next trigger time of an event, and the loops over its recurrences;
--     Schedule/Future: where that time lies. Server/Times: server_bump_time and the postponed
--     trigger time. Server/Clock: server_clock_source_is_stable; Clock/Accounts: what it notes.
--     Server/Dialog: the two handlers server_handle_systemui_* and
--     server_rethink_request.
--   Strbuf: the strings of src/strbuf.c, Strbuf/Values: integers, arrays and argument lists;
--     Strbuf/RoundTrip and Strbuf/Values/Codec, Arguments: reading back what was written.
--   Codec: the encoders of src/codec.c over the calls of libdbus, which are a parameter;
--     Codec/Decoder: the decoders. Codec/Carried, Gives, RoundTrip: what a message carries and what
--     is read of it; Codec/Hostile: an attribute with the name of an unread one.
--   Storage: saving and loading the queue file in src/queue.c and src/xutil.c, over the calls of the
--     operating system, which are a parameter; Storage/Crash: what is left if saving stops.
--   Inifile: src/inifile.c, src/symtab.c and the functions of src/xutil.h on texts; Inifile/Lines,
--     Reload: the lines of a file, and loading what was saved; Inifile/Stored: what is read after
--     a change.
--   Unique: src/unique.c and inifile_get_section_names; Unique/Names: the list that it makes.
--   Periods: ticker_secs_* of src/ticker.c; Periods/ReadBack: reading what they write.
--   Decimal: what printf and strtol do with decimal numbers.
--   Common: numbers, integers, tables and the loops on them.
--   Tests: a queue, a server and a calendar of one year that the theorems are applied to.
--
-- Binary searches run on fuel: the length of the range, of which every round takes at least one,
-- so it does not run out; the theorems on them say so. The loop of strbuf_get_string has one round
-- more than the buffer has bytes, and each round but the last reads one; so does the loop of
-- escape_getline, and the loops of inifile_load and ticker_secs_parse have one round more than the
-- text has bytes. The loops of src/recurrence.c run on fuel that the caller gives: the minutes and
-- the hours need at most 180 rounds, and the dates as many as there are times in a time_t, since
-- each round builds a later one; in src/server.c a loop without fuel counts as one that failed.
-- The loop around the steps has no bound in the source: it is modelled for any number of rounds. A
-- decimal number has fewer digits than its value plus one.
--
-- Numbers are unbounded where the source relies on no overflow: times, cookies and table sizes.
-- A cookie is assigned by counting up and would have to pass 2^31 to wrap. Flags are masks of 32
-- bits. The configuration is that of the build: SNOOZE_HIJACK_FIX on, ALARMD_ACTION_BOOTFLAGS off.
--
-- Not modelled: logging; the D-Bus handlers of clients' requests, the tracking of other services,
-- the limbo timeout and the broadcasts of src/server.c; the drivers of src/ticker.c, which call
-- the C library, and its text of a date; which sections the queue file has; the client library and
-- the tools, which are calls of libdbus.
pub mod Attributes
pub mod Calendar
pub mod Codec
pub mod Common
pub mod Decimal
pub mod Escape
pub mod Event
pub mod EventState
pub mod Inifile
pub mod Periods
pub mod Queue
pub mod Recurrence
pub mod Sane
pub mod Server
pub mod Storage
pub mod Strbuf
pub mod Tests
pub mod Unique
