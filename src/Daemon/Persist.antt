-- ===== src/Daemon/Persist.antt =====
-- `persistDriverEvent`, `updateSessionFromEvent` and the loop of `attachDriverEvents` in
-- src/daemon/daemon.ts: what an event of a driver does to the database, and when it is broadcast.
-- A method that throws keeps what it wrote before; the transaction around it rolls everything back.
pub mod Usage
pub mod Events
pub mod Published
pub mod Replays
pub mod Retry
pub mod Loop
use codedeck.Common.{
  Floats, ℕ, ◌*◌, ◌^◌, min, suc, Text, codes, Bool, true, false, Option, none, some, List, [], ◌∷◌,
  ◌++◌, ◌&&◌, not, eqb, any, take, is_empty, ◌==◌, if◌then◌else◌,
}
use codedeck.Core.Session.{Session, SessionStatus, completed, failed, stopped}
use codedeck.Core.Event.{
  AgentEvent, Body, session_started, session_completed, session_failed, tool_started,
  message_queued, message, usage_updated, is_terminal_event,
}
use codedeck.Store.Events.{append}
use codedeck.Store.Sessions.{
  get, update_error, set_status, update, Lookup, found, missing, ambiguous,
}
use codedeck.Store.Sessions.Update.{SessionUpdate, no_update, put}
use codedeck.Daemon.{is_text}
use codedeck.Daemon.Stop.{or_text, failure_patch}
use codedeck.Daemon.Persist.Usage.{
  Database, Ran, done, threw, run_update, written, and_then, note_usage,
}

abbrev pub is_stopped : SessionStatus → Bool
is_stopped stopped = true
is_stopped _ = false

abbrev run_status : Database → Text → SessionStatus → SessionUpdate → ℕ → Ran
run_status db sid status extra now = written db (set_status db.ledger.sessions sid status now extra)

abbrev with_last_event : Text → SessionUpdate
with_last_event text = record no_update { last_event = put (some text) }

abbrev native_patch : Text → SessionUpdate
native_patch id = record no_update { native_session_id = put (some id) }

abbrev touched : ℕ → SessionUpdate
touched now = record no_update { updated_at = some now }

abbrev pub caught : Ran → Database
caught (done db) = db
caught (threw db) = db

-- A stopped session keeps its outcome.
abbrev pub is_late : SessionStatus → AgentEvent → Bool
is_late status ev = is_stopped status && is_terminal_event ev

pub record Offsets : Type 0 where
  pub log : ℕ
  pub stderr : ℕ

abbrev pub offsets_patch : Offsets → SessionUpdate
offsets_patch o = record no_update {
  log_offset = put (some o.log);
  stderr_offset = put (some o.stderr);
}

abbrev pub write_offsets : Database → Text → Option Offsets → ℕ → Ran
write_offsets db sid none now = done db
write_offsets db sid (some o) now = run_update db sid (offsets_patch o) now

-- One attempt: the store lets the transaction through, it is busy, and then the daemon may be
-- shutting down, or it fails with an error of another kind.
pub data Attempt : Type 0 where
  free : Attempt
  busy : Bool → Attempt
  broken : Text → Attempt

pub data Persisted : Type 0 where
  committed : Database → ℕ → Persisted
  interrupted : Persisted  -- by the shutdown
  failed_with : Text → Persisted  -- an error that no retry mends
  retrying : Persisted  -- no further attempt is known

abbrev pub outcome : Text → Option (Database × ℕ) → Persisted
outcome reason none = failed_with reason
outcome reason (some (db, inserted)) = committed db inserted

abbrev pub error_in : Database → Text → Text
error_in db sid = update_error db.ledger.sessions sid

abbrev pub store_busy_retry_base_ms : ℕ
store_busy_retry_base_ms = 25

abbrev pub store_busy_retry_max_ms : ℕ
store_busy_retry_max_ms = 2000

-- The sleep behind an attempt.
unfoldable pub retry_delay : ℕ → ℕ
retry_delay attempt = min (store_busy_retry_base_ms * 2 ^ attempt) store_busy_retry_max_ms

module _ ⦃fl : Floats⦄ where
  -- The branches on the type of the event.
  unfoldable pub note_event : Database → Text → Body → ℕ → ℕ → Ran
  unfolding note_usage
  note_event db sid (session_started none) seq now = done db
  note_event db sid (session_started (some native_id)) seq now =
      if is_empty native_id then done db else run_update db sid (native_patch native_id) now
  note_event db sid (session_completed reason code) seq now =
      run_status db sid completed (with_last_event (or_text reason (codes "completed"))) now
  note_event db sid (session_failed error failure code) seq now =
      run_status db sid failed
        (failure_patch failure (record no_update { last_event = put (some (take 200 error)) })) now
  note_event db sid (tool_started name) seq now =
      run_update db sid (with_last_event (codes "tool: " ++ name)) now
  note_event db sid (message_queued prompt at) seq now =
      run_update db sid (with_last_event (codes "queued: " ++ take 80 prompt)) now
  note_event db sid (message role content) seq now =
      run_update db sid (with_last_event (take 80 content)) now
  note_event db sid (usage_updated incremental usage model) seq now =
      note_usage db sid incremental usage model seq now
  note_event db sid _ seq now = done db

  abbrev pub note_and_touch : Database → Text → AgentEvent → ℕ → ℕ → Database
  note_and_touch db sid ev seq now =
      caught
        (and_then (note_event db sid ev.body seq now) (λ d. run_update d sid (touched now) now))

  unfoldable pub update_found_session : Database → Text → AgentEvent → ℕ → ℕ → Lookup → Database
  unfolding note_event
  update_found_session db sid ev seq now (ambiguous _) = db
  update_found_session db sid ev seq now missing = note_and_touch db sid ev seq now
  update_found_session db sid ev seq now (found s) =
      if is_late s.status ev then db else note_and_touch db sid ev seq now

  unfoldable pub update_session_from_event : Database → Text → AgentEvent → ℕ → ℕ → Database
  unfolding update_found_session
  update_session_from_event db sid ev seq now =
      update_found_session db sid ev seq now (get db.ledger.sessions sid)

  -- What COMMIT leaves, and the sequence number; `none` stands for an error, and ROLLBACK.
  abbrev pub commit : Text → AgentEvent → ℕ → ℕ → Ran → Option (Database × ℕ)
  commit sid ev inserted now (threw db) = none
  commit sid ev inserted now (done db) =
      some
        (if eqb inserted 0 then db else update_session_from_event db sid ev inserted now, inserted)

  unfoldable pub transaction :
      Database → Text → AgentEvent → Option Offsets → ℕ → Option (Database × ℕ)
  unfolding update_session_from_event
  transaction db sid ev offsets now =
      let appended = append db.events sid ev in
      let db' : Database = record db { events = appended.0 } in
      commit sid ev appended.1 now (write_offsets db' sid offsets now)

  -- The loop over the attempts: what it ends with.
  unfoldable pub persist_driver_event :
      Database → Text → AgentEvent → Option Offsets → ℕ → List Attempt → Persisted
  unfolding transaction
  persist_driver_event db sid ev offsets now [] = retrying
  persist_driver_event db sid ev offsets now (free ∷ attempts) =
      outcome (error_in db sid) (transaction db sid ev offsets now)
  persist_driver_event db sid ev offsets now (broken reason ∷ attempts) = failed_with reason
  persist_driver_event db sid ev offsets now (busy true ∷ attempts) = interrupted
  persist_driver_event db sid ev offsets now (busy false ∷ attempts) =
      persist_driver_event db sid ev offsets now attempts
