-- ===== src/Daemon/Stop.antt =====
-- The handler of `session.stop`, up to its wait for `driver.stop` and after it.
use codedeck.Common.{
  ℕ, Text, codes, Bool, true, false, Option, none, some, ◌&&◌, not, take, is_some, is_empty, ltb,
  if◌then◌else◌,
}
use codedeck.Core.Failure.{FailureInfo}
use codedeck.Core.Session.{Session, SessionStatus, completed, failed, stopped, is_terminal_status}
use codedeck.Core.Event.{AgentEvent, Body, session_completed, session_failed}
use codedeck.Store.Events.{count, last}
use codedeck.Store.Sessions.{Sessions, get, found, Lookup, missing, ambiguous, set_status}
use codedeck.Store.Sessions.Update.{SessionUpdate, no_update, put}
use codedeck.Daemon.{
  World, Daemon, Reply, ErrorCode, accepted, refused, service_unavailable, session_not_found,
  session_ambiguous, session_busy, session_not_running, stop_unsafe, stop_failed, truthy, is_locked,
  lock, unlock, live_pid_identity, clear_pending, event_at, emit,
}
use codedeck.Daemon.Resume.{try_status}

-- A stop that waits for its driver, with what it knew of the session before.
pub record StopCall : Type 0 where
  pub session_id : Text
  pub previous_status : SessionStatus
  pub had_terminal : Bool
  pub events_before : ℕ

pub data StopStart : Type 0 where
  stop_refused : ErrorCode → StopStart
  stopping : StopCall → StopStart

-- Why a session is not stopped.
unfoldable pub stop_refusal : World → Daemon → Session → Option ErrorCode
stop_refusal w d s =
    if is_locked d s.id
    then some session_busy
    else if is_terminal_status s.status
        && not (is_some (w.get_handle s.id))
        && not (live_pid_identity w s)
    then some session_not_running
    else if is_some s.pid && not (is_some (w.get_handle s.id)) && not (truthy s.pid_start_time)
    then some stop_unsafe
    else none

abbrev pub stop_call : Daemon → Session → StopCall
stop_call d s = record {
  session_id = s.id;
  previous_status = s.status;
  had_terminal = is_terminal_status s.status;
  events_before = count d.events s.id;
}

-- `catch`: the old status comes back; then `finally`.
unfoldable pub fail_stop : World → Daemon → StopCall → Daemon × Reply
unfolding try_status unlock
fail_stop w d c =
    if d.shutting_down then (unlock d c.session_id, refused service_unavailable) else (
      unlock (try_status w d c.session_id c.previous_status no_update) c.session_id,
      refused stop_failed,
    )

-- An active session is marked first.
unfoldable pub marked : World → Daemon → StopCall → Option Sessions → Daemon × StopStart
unfolding fail_stop
marked w d c none = ((fail_stop w d c).0, stop_refused stop_failed)
marked w d c (some table) = (record d { sessions = table }, stopping c)

unfoldable pub start_stop : World → Daemon → Session → Option ErrorCode → Daemon × StopStart
unfolding marked
start_stop w d s (some code) = (d, stop_refused code)
start_stop w d s none =
    let locked = lock d s.id in
    if is_terminal_status s.status
    then (locked, stopping (stop_call d s))
    else marked w locked (stop_call d s) (set_status d.sessions s.id stopped w.now no_update)

-- A queued message is cancelled whatever becomes of the stop.
unfoldable pub stop_found : World → Daemon → Lookup → Daemon × StopStart
unfolding stop_refusal start_stop clear_pending
stop_found w d missing = (d, stop_refused session_not_found)
stop_found w d (ambiguous _) = (d, stop_refused session_ambiguous)
stop_found w d (found s) =
    let d1 = clear_pending w d s.id in start_stop w d1 s (stop_refusal w d1 s)

unfoldable pub begin_stop : World → Daemon → Text → Daemon × StopStart
unfolding stop_found
begin_stop w d id =
    if d.shutting_down
    then (d, stop_refused service_unavailable)
    else stop_found w d (get d.sessions id)

abbrev pub or_text : Option Text → Text → Text
or_text none fallback = fallback
or_text (some t) fallback = if is_empty t then fallback else t

-- A failure that is missing leaves the old one.
abbrev pub failure_patch : Option FailureInfo → SessionUpdate → SessionUpdate
failure_patch none p = p
failure_patch (some f) p = record p { failure = put (some f) }

-- What the handler writes for the last event, if that ended the session.
abbrev pub outcome_of : Body → Option (SessionStatus × SessionUpdate)
outcome_of (session_completed reason code) =
    some
      (completed, record no_update { last_event = put (some (or_text reason (codes "completed"))) })
outcome_of (session_failed error failure code) =
    some (
      failed,
      failure_patch failure (record no_update { last_event = put (some (take 200 error)) }),
    )
outcome_of _ = none

abbrev pub outcome_of_last : Option AgentEvent → Option (SessionStatus × SessionUpdate)
outcome_of_last none = none
outcome_of_last (some ev) = outcome_of ev.body

unfoldable pub record_outcome :
    World → Daemon → StopCall → Option (SessionStatus × SessionUpdate) → Option (Option Sessions)
record_outcome w d c none = none
record_outcome w d c (some (status, patch)) =
    some (set_status d.sessions c.session_id status w.now patch)

unfoldable pub close_stop : World → Daemon → StopCall → Daemon × Reply
unfolding clear_pending unlock
close_stop w d c = (unlock (clear_pending w d c.session_id) c.session_id, accepted false)

unfoldable pub settle_stop : World → Daemon → StopCall → Option (Option Sessions) → Daemon × Reply
unfolding close_stop fail_stop emit
settle_stop w d c (some none) = fail_stop w d c
settle_stop w d c (some (some table)) = close_stop w (record d { sessions = table }) c
settle_stop w d c none =
    if c.had_terminal
    then close_stop w d c
    else close_stop w
        (emit d c.session_id
          (event_at w c.session_id (session_completed (some (codes "stopped")) (some 130))))
        c

abbrev pub arrived : Daemon → StopCall → Option AgentEvent
arrived d c =
    if ltb c.events_before (count d.events c.session_id) then last d.events c.session_id else none

-- After `driver.stop`; `threw` says that it threw.
unfoldable pub end_stop : World → Daemon → StopCall → Bool → Daemon × Reply
unfolding settle_stop record_outcome fail_stop unlock
end_stop w d c true = fail_stop w d c
end_stop w d c false =
    if d.shutting_down
    then (unlock d c.session_id, refused service_unavailable)
    else settle_stop w d c (record_outcome w d c (outcome_of_last (arrived d c)))
