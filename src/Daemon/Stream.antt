-- ===== src/Daemon/Stream.antt =====
-- The end of `attachDriverEvents`: what becomes of a session whose stream of driver events is over.
-- The healing of sessions revived after a busy store is left out.
use codedeck.Common.{Text, codes, true, Option, none, some, take, if◌then◌else◌}
use codedeck.Core.Failure.{FailureInfo, failure_info, harness_crash, harness}
use codedeck.Core.Session.{Session, SessionStatus, failed, is_terminal_status}
use codedeck.Core.Event.{session_failed}
use codedeck.Store.Events.{last}
use codedeck.Store.Sessions.{Lookup, get, found, missing, ambiguous}
use codedeck.Store.Sessions.Update.{SessionUpdate, no_update, put}
use codedeck.Daemon.{World, Daemon, event_at, emit}
use codedeck.Daemon.Resume.{try_status}
use codedeck.Daemon.Dispatch.{try_dispatch}
use codedeck.Daemon.Stop.{outcome_of_last, or_text}

abbrev lost_stream : Text
lost_stream = codes "event stream ended without a terminal event"

abbrev lost_failure : FailureInfo
lost_failure = record (failure_info harness_crash harness true) { detail = some lost_stream }

-- The status that the last event gives; a stream without a terminal event has failed.
unfoldable pub close_stream :
    World → Daemon → Text → Session → Option (SessionStatus × SessionUpdate) → Daemon
unfolding try_status emit
close_stream w d sid s (some (status, patch)) = try_status w d sid status patch
close_stream w d sid s none =
    let error = or_text s.last_event lost_stream in
    try_status w (emit d sid (event_at w sid (session_failed error (some lost_failure) none))) sid
      failed
      (record no_update {
        last_event = put (some (take 200 error));
        failure = put (some lost_failure);
      })

unfoldable pub settle_found : World → Daemon → Text → Lookup → Daemon
unfolding close_stream
settle_found w d sid missing = d
settle_found w d sid (ambiguous _) = d
settle_found w d sid (found s) =
    if is_terminal_status s.status
    then d
    else close_stream w d sid s (outcome_of_last (last d.events sid))

unfoldable pub settle_stream : World → Daemon → Text → Daemon
unfolding settle_found
settle_stream w d sid = settle_found w d sid (get d.sessions sid)

-- A message that was queued during the turn is dispatched.
unfoldable pub end_stream : World → Daemon → Text → Daemon
unfolding settle_stream try_dispatch
end_stream w d sid = if d.shutting_down then d else try_dispatch w (settle_stream w d sid) sid
