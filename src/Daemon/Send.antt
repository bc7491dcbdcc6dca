-- ===== src/Daemon/Send.antt =====
-- The handler of `session.send`, up to the wait for the driver, with the guards in the source's
-- order.
use codedeck.Common.{
  Text, codes, Bool, true, Option, none, some, ◌++◌, ◌&&◌, ◌||◌, not, take, if◌then◌else◌,
}
use codedeck.Core.Session.{Session}
use codedeck.Core.Event.{message_queued}
use codedeck.Store.Sessions.{Sessions, get, found, Lookup, missing, ambiguous, update}
use codedeck.Daemon.{
  ErrorCode, World, Daemon, Turn, by_send, Reply, accepted, refused, service_unavailable, invalid,
  session_not_found, session_ambiguous, capability_not_supported, session_busy, send_failed, truthy,
  is_open, is_starting, is_interrupted, is_locked, lock, unlock, live_pid_identity,
  validate_send_message, event_at, emit, try_update, clear_pending, noted, slot,
}
use codedeck.Daemon.Resume.{run_resume_turn, fail_turn, start_error}
use codedeck.Daemon.Dispatch.{runtime_busy, try_dispatch}

unfoldable pub is_busy : World → Session → Bool
unfolding runtime_busy live_pid_identity
is_busy w s = is_starting s.status || runtime_busy (w.get_handle s.id) || live_pid_identity w s

-- The one slot of the queue; the last message wins.
unfoldable pub queue_behind :
    World → Daemon → Session → Text → Option Sessions → Daemon × Option Reply
unfolding emit try_update try_dispatch
queue_behind w d s message none = (d, some (refused send_failed))
queue_behind w d s message (some table) =
    let d1 =
      emit (record d { sessions = table }) s.id (event_at w s.id (message_queued message w.now)) in
    let d2 = try_update w d1 s.id (noted (codes "queued: " ++ take 80 message)) in
    (try_dispatch w d2 s.id, some (accepted true))

unfoldable pub sent_turn : Session → Text → Turn
sent_turn s message = record { key = s.id; session = s; message = message; origin = by_send }

unfoldable pub unlocked : Text → Daemon × Option Reply → Daemon × Option Reply
unfolding unlock
unlocked sid (d, r) = (unlock d sid, r)

-- A turn that waits for its driver replies when it finishes.
unfoldable pub start_sent : World → Daemon → Turn → Option Daemon → Daemon × Option Reply
unfolding fail_turn unlocked
start_sent w d t none = unlocked t.key (fail_turn w d t t.origin (start_error d t))
start_sent w d t (some d') = (d', none)

unfoldable pub send_now : World → Daemon → Session → Text → Daemon × Option Reply
unfolding clear_pending run_resume_turn start_sent sent_turn
send_now w d s message =
    let d1 = clear_pending w (lock d s.id) s.id in
    start_sent w d1 (sent_turn s message) (run_resume_turn w d1 (sent_turn s message))

-- Why a session takes no message.
unfoldable pub send_refusal : World → Daemon → Session → Option ErrorCode
unfolding live_pid_identity
send_refusal w d s =
    if is_open s
    then some capability_not_supported
    else if not (w.can_resume s.agent)
    then some capability_not_supported
    else if is_interrupted s.status && not (truthy s.native_session_id)
    then some capability_not_supported
    else if is_interrupted s.status && live_pid_identity w s
    then some session_busy
    else if is_locked d s.id
    then some session_busy
    else none

unfoldable pub send_admitted :
    World → Daemon → Session → Text → Option ErrorCode → Daemon × Option Reply
unfolding is_busy queue_behind send_now
send_admitted w d s message (some code) = (d, some (refused code))
send_admitted w d s message none =
    if is_busy w s
    then queue_behind w d s message (update d.sessions s.id (slot message w.now) w.now)
    else send_now w d s message

unfoldable pub send_found : World → Daemon → Text → Lookup → Daemon × Option Reply
unfolding send_refusal send_admitted
send_found w d message missing = (d, some (refused session_not_found))
send_found w d message (ambiguous _) = (d, some (refused session_ambiguous))
send_found w d message (found s) = send_admitted w d s message (send_refusal w d s)

unfoldable pub send_validated : World → Daemon → Text → Option Text → Daemon × Option Reply
unfolding send_found
send_validated w d id none = (d, some (refused invalid))
send_validated w d id (some message) = send_found w d message (get d.sessions id)

-- `none` for the reply stands for the wait.
unfoldable pub send : World → Daemon → Text → Option Text → Daemon × Option Reply
unfolding validate_send_message send_validated
send w d id raw =
    if d.shutting_down
    then (d, some (refused service_unavailable))
    else send_validated w d id (validate_send_message raw)
