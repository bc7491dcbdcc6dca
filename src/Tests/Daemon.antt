-- ===== src/Tests/Daemon.antt =====
-- Sending, queueing, dispatching and finishing on one session.
use codedeck.Store.Events.{count}
use codedeck.Store.Sessions.Row.{session_to_row, row_to_session}
use codedeck.Common.{trim, ◌==◌, codes, ◌≡◌, refl, true, false, none, some, []}
use codedeck.Core.Session.{stopped, Session}
use codedeck.Store.Sessions.{get, get_exact, get_from, update, set_status}
use codedeck.Daemon.{
  stop_failed, refused, live_pid_identity, World, Daemon, Turn, by_dispatch, validate_send_message,
}
use codedeck.Daemon.Resume.{finish_turn, threw}
use codedeck.Daemon.Dispatch.{try_dispatch}
use codedeck.Daemon.Send.{send_refusal, send}
use codedeck.Daemon.Turns.{IsExclusive, Exclusive}
use codedeck.Daemon.Exclusion.{Steps-IsExclusive, stay, more, sending}
use codedeck.Daemon.Queue.{try_dispatch-IsKept, IsKept, slot_of}
use codedeck.Daemon.Restored.{finish_turn-slot}
use codedeck.Daemon.Replies.{send-IsAnswered, IsAnswered}
use codedeck.Core.Failure.{failure_info, shutdown, infra}
use codedeck.Core.Session.{interrupted, starting}
use codedeck.Daemon.AutoResume.{Eligibility, is_auto_resume_eligible, eligible-send_refusal}
use codedeck.Daemon.Stop.{StopCall, begin_stop, end_stop, settle_stop}
use codedeck.Daemon.Cancelled.{begin_stop-slot, end_stop-slot, status_of}
use codedeck.Store.Sessions.Update.{update_rows, apply_update, status_patch}
use codedeck.Daemon.Thrown.{stop_threw}
use codedeck.Tests.Fixtures.{
  session_with, sid, idle_session, waiting_session, busy_session, table_of,
}

abbrev pub world : World
world = record {
  now = 1000;
  get_handle = λ id. none;
  can_resume = λ agent. true;
  process_alive = λ pid. false;
  process_start_time = λ pid. none;
}

abbrev pub daemon_of : Session → Daemon
daemon_of s = record {
  sessions = table_of s;
  events = [];
  session_locks = [];
  shutting_down = false;
  turns = [];
  broadcasts = [];
}

abbrev twice_sent : Daemon
twice_sent =
    (send world (send world (daemon_of idle_session) sid (some (codes "one"))).0 sid
      (some (codes "two"))).0

Steps-IsExclusive_example : IsExclusive twice_sent
unfolding IsExclusive Exclusive
Steps-IsExclusive_example =
    Steps-IsExclusive
      (more (more (stay (daemon_of idle_session)) (sending world _ sid (some (codes "one"))))
        (sending world _ sid (some (codes "two"))))
      tt

try_dispatch-IsKept_example :
    IsKept (try_dispatch world (daemon_of waiting_session) sid) sid (codes "go on")
unfolding slot_of get_exact ◌==◌ session_to_row row_to_session
try_dispatch-IsKept_example =
    try_dispatch-IsKept world (daemon_of waiting_session) sid (codes "go on") refl

abbrev dispatched : Turn
dispatched = record {
  key = sid;
  session = waiting_session;
  message = codes "go on";
  origin = by_dispatch none;
}

finish_turn-slot_example :
    slot_of
      (finish_turn world (daemon_of idle_session) dispatched (threw (codes "no"))).0.sessions
      sid
    ≡ some (codes "go on")
unfolding ◌==◌ session_to_row
finish_turn-slot_example =
    finish_turn-slot world (daemon_of idle_session) dispatched none (threw (codes "no")) refl refl
      tt

send-IsAnswered_example :
    IsAnswered world
      (daemon_of busy_session)
      busy_session
      (codes "hello")
      (send world (daemon_of busy_session) sid (some (codes " hello "))).0
      (send world (daemon_of busy_session) sid (some (codes " hello "))).1
unfolding get get_from get_exact validate_send_message ◌==◌ session_to_row row_to_session trim
send-IsAnswered_example =
    send-IsAnswered world (daemon_of busy_session) sid (some (codes " hello ")) busy_session
      (codes "hello") refl refl refl

abbrev shut_down_session : Session
shut_down_session = record idle_session {
  status = interrupted;
  failure = some (failure_info shutdown infra true);
}

abbrev soon : Eligibility
soon = record { now = 9; max_age_hours = 1; can_resume = true; live_identity = false }

eligible-send_refusal_example :
    send_refusal world (daemon_of shut_down_session) shut_down_session ≡ none
unfolding live_pid_identity is_auto_resume_eligible
eligible-send_refusal_example =
    eligible-send_refusal world (daemon_of shut_down_session) shut_down_session soon refl refl refl
      refl

abbrev queued_daemon : Daemon
queued_daemon = daemon_of (session_with starting (some (codes "later")))

begin_stop-slot_example : slot_of (begin_stop world queued_daemon sid).0.sessions sid ≡ none
unfolding get get_exact ◌==◌ session_to_row row_to_session
begin_stop-slot_example =
    begin_stop-slot world queued_daemon sid (session_with starting (some (codes "later"))) refl refl

abbrev stop_of_queued : StopCall
stop_of_queued = record {
  session_id = sid;
  previous_status = starting;
  had_terminal = false;
  events_before = 0;
}

end_stop-slot_example :
    slot_of (end_stop world queued_daemon stop_of_queued false).0.sessions sid ≡ none
unfolding end_stop settle_stop ◌==◌ session_to_row count
end_stop-slot_example = end_stop-slot world queued_daemon stop_of_queued false refl refl

abbrev while_stopping : Daemon
while_stopping = (begin_stop world queued_daemon sid).0

stop_threw_example :
    (status_of (end_stop world while_stopping stop_of_queued true).0.sessions sid ≡ some starting)
    × ((end_stop world while_stopping stop_of_queued true).1 ≡ refused stop_failed)
unfolding begin_stop get get_exact ◌==◌ session_to_row row_to_session update set_status update_rows
    apply_update count
stop_threw_example =
    stop_threw world queued_daemon sid (session_with starting (some (codes "later"))) stop_of_queued
      while_stopping refl refl refl refl

-- The first part has marked it.
marked_stopped : status_of while_stopping.sessions sid ≡ some stopped
unfolding status_of begin_stop get_exact get ◌==◌ session_to_row update row_to_session set_status
    update_rows apply_update status_patch
marked_stopped = refl
