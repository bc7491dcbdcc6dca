-- ===== src/Daemon/Dispatch.antt =====
-- `tryDispatch`: the queued message becomes a turn where the session can be resumed. The wait for
-- the driver ends in `finish_turn`; what stands here runs up to that wait.
use codedeck.Common.{Text, Bool, false, Option, none, some, ◌&&◌, ◌||◌, not, if◌then◌else◌}
use codedeck.Core.Session.{Session}
use codedeck.Store.Sessions.{Sessions, get, found, Lookup, missing, ambiguous, update}
use codedeck.Daemon.{
  World, Handle, Daemon, Turn, by_dispatch, truthy, is_open, is_starting, is_locked, lock, unlock,
  live_pid_identity, cleared,
}
use codedeck.Daemon.Resume.{run_resume_turn, fail_turn, start_error, or_truthy, handle_native}

-- A runtime that has not both ended its process and drained its file.
unfoldable pub runtime_busy : Option Handle → Bool
runtime_busy none = false
runtime_busy (some h) = not h.done || not h.drained

-- What holds a queued message back.
unfoldable pub is_resumable : World → Session → Bool
unfolding runtime_busy live_pid_identity
is_resumable w s =
    w.can_resume s.agent
    && truthy (or_truthy s.native_session_id (handle_native (w.get_handle s.id)))
    && not (is_starting s.status)
    && not (runtime_busy (w.get_handle s.id))
    && not (live_pid_identity w s)

unfoldable pub started : World → Daemon → Turn → Option Daemon → Daemon
unfolding unlock fail_turn
started w d t none = unlock (fail_turn w d t t.origin (start_error d t)).0 t.key
started w d t (some d') = d'

-- The slot is cleared before the turn; an update that throws ends as a failed start.
unfoldable pub cleared_then : World → Daemon → Turn → Option Sessions → Daemon
unfolding run_resume_turn started unlock fail_turn
cleared_then w d t none = unlock (fail_turn w d t t.origin (start_error d t)).0 t.key
cleared_then w d t (some table) =
    let d' = record d { sessions = table } in started w d' t (run_resume_turn w d' t)

unfoldable pub queued_turn : Text → Session → Text → Turn
queued_turn sid s message = record {
  key = sid;
  session = s;
  message = message;
  origin = by_dispatch s.pending_at;
}

unfoldable pub dispatch_slot : World → Daemon → Text → Session → Option Text → Daemon
unfolding is_resumable cleared_then queued_turn unlock
dispatch_slot w d sid s none = d
dispatch_slot w d sid s (some message) =
    if is_resumable w s
    then cleared_then w (lock d sid) (queued_turn sid s message)
        (update d.sessions s.id cleared w.now)
    else unlock (lock d sid) sid

unfoldable pub dispatch_found : World → Daemon → Text → Lookup → Daemon
unfolding dispatch_slot
dispatch_found w d sid missing = d
dispatch_found w d sid (ambiguous _) = d
dispatch_found w d sid (found s) =
    if truthy s.pending_message && not (is_open s)
    then dispatch_slot w d sid s s.pending_message
    else d

unfoldable pub try_dispatch : World → Daemon → Text → Daemon
unfolding dispatch_found
try_dispatch w d sid =
    if d.shutting_down || is_locked d sid then d else dispatch_found w d sid (get d.sessions sid)
