-- ===== src/Tests/Stream.antt =====
-- The end of a stream without a terminal event, and a line that is read twice.
use codedeck.Store.Sessions.Row.{session_to_row, row_to_session}
use codedeck.Common.{true, some, ◌==◌, codes, ◌≡◌, refl, none, List, [], ◌∷◌, arith, length, map}
use codedeck.Core.Event.{is_terminal_event, AgentEvent, text_delta}
use codedeck.Store.Sessions.{get_exact}
use codedeck.Daemon.Stream.{settle_stream}
use codedeck.Daemon.Settled.{IsSettled, settle_stream-IsSettled}
use codedeck.Drivers.Runtime.{log, line_entries}
use codedeck.Drivers.Runtime.{Hooks, Runtime, wire, push_all, finish, is_drained}
use codedeck.Drivers.Runtime.Delivery.{IsWaiting, consume, consume_lem}
use codedeck.Drivers.Runtime.Offsets.{undelivered}
use codedeck.Replay.{append_all, line_read_again}
use codedeck.Tests.Fixtures.{sid, busy_session, event_with}
use codedeck.Tests.Daemon.{world, daemon_of}

settle_stream-IsSettled_example :
    IsSettled
      (daemon_of busy_session)
      (settle_stream world (daemon_of busy_session) sid)
      sid
      busy_session
unfolding get_exact ◌==◌ session_to_row row_to_session
settle_stream-IsSettled_example =
    settle_stream-IsSettled world (daemon_of busy_session) sid busy_session refl

abbrev first_reading : List AgentEvent
first_reading =
    event_with none (text_delta (codes "a")) ∷ event_with none (text_delta (codes "b")) ∷ []

abbrev second_reading : List AgentEvent
second_reading = event_with none (text_delta (codes "later")) ∷ []

line_read_again_example :
    append_all
      (append_all [] sid (line_entries sid log 3 0 first_reading))
      sid
      (line_entries sid log 3 0 second_reading)
    ≡ append_all [] sid (line_entries sid log 3 0 first_reading)
line_read_again_example = line_read_again sid log 3 [] first_reading second_reading (omega arith)

abbrev quiet : Hooks
quiet = record {
  on_line = λ stream text. record { pushed = []; native_ids = []; thrown = none };
  synthesize_terminal = λ ctx. [];
}

abbrev two_waiting : Runtime
two_waiting = finish quiet (push_all (wire sid none 0 0) first_reading) [] (some 0) none

consume_lem_example :
    ((consume (length (undelivered two_waiting)) two_waiting).0
      ≡ map (λ e. e.event) (undelivered two_waiting))
    × (two_waiting.done ≡ true
        → is_drained (consume (length (undelivered two_waiting)) two_waiting).1 ≡ true)
unfolding IsWaiting finish wire is_terminal_event
consume_lem_example = consume_lem two_waiting (omega arith, refl)
