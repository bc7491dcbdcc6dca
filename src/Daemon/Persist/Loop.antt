-- ===== src/Daemon/Persist/Loop.antt =====
-- The loop of `attachDriverEvents` in src/daemon/daemon.ts, over the events that the driver gives.
use codedeck.Common.{
  Floats, Text, Bool, Option, none, some, List, [], ◌∷◌, ◌++◌, ◌&&◌, ℕ, eqb, take, if◌then◌else◌,
}
use codedeck.Core.Failure.{classify_failure}
use codedeck.Core.Session.{failed}
use codedeck.Core.Event.{AgentEvent, session_failed, is_terminal_event}
use codedeck.Store.Events.{append}
use codedeck.Store.Sessions.{Sessions, set_status}
use codedeck.Store.Sessions.Update.{no_update, put}
use codedeck.Daemon.Persist.Usage.{Database}
use codedeck.Daemon.Persist.{
  Offsets, Attempt, Persisted, committed, interrupted, failed_with, retrying, persist_driver_event,
}

-- An event, the driver's offsets once it is taken, the time, whether an operation holds the lock of
-- the session, and what the attempts to store it meet.
pub record Delivery : Type 0 where
  pub event : AgentEvent
  pub offsets : Option Offsets
  pub now : ℕ
  pub locked : Bool
  pub attempts : List Attempt

pub record Feed : Type 0 where
  pub database : Database
  pub broadcasts : List AgentEvent

-- The loop waits for the next event, has returned, has thrown an error with this message, or waits
-- for the store.
pub data LoopState : Type 0 where
  listening left blocked : Feed → LoopState
  broke : Text → Feed → LoopState

abbrev pub feed_of : LoopState → Feed
feed_of (listening f) = f
feed_of (left f) = f
feed_of (broke reason f) = f
feed_of (blocked f) = f

-- A replay, which has the number 0, is not broadcast.
abbrev pub publish : Feed → AgentEvent → Database → ℕ → Feed
publish f ev db inserted = record {
  database = db;
  broadcasts = if eqb inserted 0 then f.broadcasts else f.broadcasts ++ (ev ∷ []);
}

abbrev pub settle : Feed → AgentEvent → Persisted → LoopState
settle f ev (committed db inserted) = listening (publish f ev db inserted)
settle f ev interrupted = left f
settle f ev (failed_with reason) = broke reason f
settle f ev retrying = blocked f

abbrev pub resume : (Feed → LoopState) → LoopState → LoopState
resume next (listening f) = next f
resume next (left f) = left f
resume next (broke reason f) = broke reason f
resume next (blocked f) = blocked f

-- How the driver's stream goes on behind the events: it is not over, or it throws.
abbrev pub stream_throws : Option Text → Feed → LoopState
stream_throws none f = listening f
stream_throws (some reason) f = broke reason f

abbrev pub with_sessions : Database → Option Sessions → Database
with_sessions db none = db
with_sessions db (some table) = record db { ledger = record db.ledger { sessions = table } }

abbrev pub lost_event : Text → Text → ℕ → AgentEvent
lost_event sid reason now = record {
  session_id = sid;
  timestamp = now;
  source_key = none;
  body = session_failed reason (some (classify_failure reason none none)) none;
}

-- The event is emitted, with no regard to its number, and the session has failed.
unfoldable pub fail_stream : Text → Text → ℕ → Feed → Feed
fail_stream sid reason now f =
    let ev = lost_event sid reason now in
    let table = set_status f.database.ledger.sessions sid failed now (record no_update {
      last_event = put (some (take 200 reason));
      failure = put (some (classify_failure reason none none));
    }) in
    record {
      database =
          with_sessions (record f.database { events = (append f.database.events sid ev).0 }) table;
      broadcasts = f.broadcasts ++ (ev ∷ []);
    }

-- `catch`: while the daemon shuts down, the drain owns the outcome.
unfoldable pub catch_error : Text → Bool → ℕ → LoopState → LoopState
unfolding fail_stream
catch_error sid shutting_down now (listening f) = listening f
catch_error sid shutting_down now (left f) = left f
catch_error sid shutting_down now (blocked f) = blocked f
catch_error sid shutting_down now (broke reason f) =
    left (if shutting_down then f else fail_stream sid reason now f)

module _ ⦃fl : Floats⦄ where
  -- A stop operation owns the terminal outcome.
  unfoldable pub take_event : Text → Delivery → Feed → LoopState
  take_event sid x f =
      if x.locked && is_terminal_event x.event
      then listening f
      else settle f x.event (persist_driver_event f.database sid x.event x.offsets x.now x.attempts)

  unfoldable pub take_events : Text → List Delivery → Feed → LoopState
  unfolding take_event
  take_events sid [] f = listening f
  take_events sid (x ∷ xs) f = resume (take_events sid xs) (take_event sid x f)

  -- `try` and `catch`, with the shutdown and the time as an error finds them.
  unfoldable pub attach_driver_events :
      Text → List Delivery → Option Text → Bool → ℕ → Feed → LoopState
  unfolding take_events catch_error
  attach_driver_events sid deliveries thrown shutting_down now f =
      catch_error sid shutting_down now
        (resume (stream_throws thrown) (take_events sid deliveries f))
