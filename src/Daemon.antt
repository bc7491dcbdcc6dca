-- ===== src/Daemon.antt =====
-- src/daemon/daemon.ts: the state that the request handlers share, and what they ask of the
-- world. A handler runs without a break up to its first `await`, so each part between two awaits
-- is one function; a turn that waits for its driver stands in `turns`. Statements of SQLite that
-- find their row do not fail here.
pub mod Resume
pub mod Dispatch
pub mod Send
pub mod Turns
pub mod Starts
pub mod Exclusion
pub mod Queue
pub mod Restored
pub mod Replies
pub mod AutoResume
pub mod Stop
pub mod Cancelled
pub mod Thrown
pub mod Stream
pub mod WebSupervisor
pub mod Ipc
pub mod Persist
pub mod Settled
use codedeck.Common.{
  ◌*◌, ℕ, ◌+◌, Text, codes, Bool, true, false, Option, none, some, List, [], ◌∷◌, ◌++◌, ◌==◌, ◌&&◌,
  ◌||◌, not, any, utf8_bytes, eqb, leb, ltb, trim, is_empty, is_some, get_or, filter_by,
  if◌then◌else◌,
}
use codedeck.Core.Session.{
  AgentId, Session, SessionStatus, LiveSessionStatus, live_status, starting, interrupted,
}
use codedeck.Core.Event.{AgentEvent, Body}
use codedeck.Store.Events.{Events, append}
use codedeck.Store.Sessions.{Sessions, get, found, update}
use codedeck.Store.Sessions.Update.{SessionUpdate, no_update, put}

-- The runtime that a driver holds for a session.
pub record Handle : Type 0 where
  pub done : Bool
  pub drained : Bool
  pub native_session_id : Option Text

-- What the daemon asks of drivers, processes and the clock.
pub record World : Type 0 where
  pub now : ℕ
  pub get_handle : Text → Option Handle
  pub can_resume : AgentId → Bool
  pub process_alive : ℕ → Bool
  pub process_start_time : ℕ → Option Text

pub data TurnOrigin : Type 0 where
  by_send : TurnOrigin
  by_dispatch : Option ℕ → TurnOrigin  -- pendingAt of the slot

-- A resumed turn that waits for `driver.send`; `key` is the id by which its handler holds the lock.
pub record Turn : Type 0 where
  pub key : Text
  pub session : Session
  pub message : Text
  pub origin : TurnOrigin

pub record Daemon : Type 0 where
  pub sessions : Sessions
  pub events : Events
  pub session_locks : List Text
  pub shutting_down : Bool
  pub turns : List Turn
  pub broadcasts : List AgentEvent

pub data ErrorCode : Type 0 where
  invalid session_not_found capability_not_supported session_busy : ErrorCode
  send_failed service_unavailable session_not_running stop_unsafe stop_failed : ErrorCode
  session_ambiguous : ErrorCode

pub data Reply : Type 0 where
  accepted : Bool → Reply  -- ok, and whether the message was queued
  refused : ErrorCode → Reply

-- `text` of an optional string is set and not empty.
abbrev pub truthy : Option Text → Bool
truthy none = false
truthy (some t) = not (is_empty t)

abbrev pub is_text : Text → Option Text → Bool
is_text t none = false
is_text t (some u) = u == t

abbrev pub is_open : Session → Bool
is_open s = is_text (codes "open") s.origin

abbrev pub is_starting : SessionStatus → Bool
is_starting starting = true
is_starting _ = false

abbrev pub is_interrupted : SessionStatus → Bool
is_interrupted interrupted = true
is_interrupted _ = false

abbrev pub same_start : Option Text → Option Text → Bool
same_start (some a) (some b) = a == b
same_start _ _ = false

live_pid : World → Option ℕ → Option Text → Bool
live_pid w none start = false
live_pid w (some pid) start =
    is_some start && w.process_alive pid && same_start (w.process_start_time pid) start

-- The process that the session recorded is alive under the recorded identity.
unfoldable pub live_pid_identity : World → Session → Bool
unfolding live_pid
live_pid_identity w s = live_pid w s.pid s.pid_start_time

abbrev alive_pid : World → Option ℕ → Bool
alive_pid w none = false
alive_pid w (some pid) = w.process_alive pid

-- The status that is served: a session without a process keeps its own.
unfoldable pub with_live_status : World → Session → LiveSessionStatus
with_live_status w s = live_status s.status s.pid (alive_pid w s.pid)

abbrev pub max_send_message_bytes : ℕ
max_send_message_bytes = 64 * 1024

-- `none` stands for the reply INVALID; the argument is `none` where it is no string.
unfoldable pub validate_send_message : Option Text → Option Text
unfolding utf8_bytes
validate_send_message none = none
validate_send_message (some raw) =
    let message = trim raw in
    if is_empty message
    then none
    else if ltb max_send_message_bytes (utf8_bytes message)
    then none
    else some message

abbrev pub is_locked : Daemon → Text → Bool
is_locked d sid = any (λ l. l == sid) d.session_locks

abbrev pub lock : Daemon → Text → Daemon
lock d sid = record d { session_locks = sid ∷ d.session_locks }

-- `finally { if (!this.shuttingDown) this.sessionLocks.delete(id) }`
unfoldable pub unlock : Daemon → Text → Daemon
unlock d sid =
    if d.shutting_down
    then d
    else record d { session_locks = filter_by (λ l. not (l == sid)) d.session_locks }

abbrev pub event_at : World → Text → Body → AgentEvent
event_at w sid body = record { session_id = sid; timestamp = w.now; source_key = none; body = body }

unfoldable pub broadcast : Daemon → AgentEvent → Daemon
broadcast d ev = record d { broadcasts = d.broadcasts ++ (ev ∷ []) }

unfoldable pub emit : Daemon → Text → AgentEvent → Daemon
unfolding broadcast
emit d sid ev = broadcast (record d { events = (append d.events sid ev).0 }) ev

abbrev pub or_same : Daemon → Option Sessions → Daemon
or_same d none = d
or_same d (some t) = record d { sessions = t }

-- `try { this.sessions.update(…) } catch {}`
unfoldable pub try_update : World → Daemon → Text → SessionUpdate → Daemon
try_update w d sid patch = or_same d (update d.sessions sid patch w.now)

abbrev pub cleared : SessionUpdate
cleared = record no_update { pending_message = put none; pending_at = put none }

abbrev pub slot : Text → ℕ → SessionUpdate
slot message at = record no_update {
  pending_message = put (some message);
  pending_at = put (some at);
}

unfoldable pub clear_pending : World → Daemon → Text → Daemon
unfolding try_update
clear_pending w d sid = try_update w d sid cleared

abbrev pub noted : Text → SessionUpdate
noted text = record no_update { last_event = put (some text) }
