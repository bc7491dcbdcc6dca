-- ===== src/Daemon/Persist/Events.antt =====
-- What the branches of `updateSessionFromEvent` in src/daemon/daemon.ts leave of the event log.
use codedeck.Common.{
  Floats, ℕ, Text, ◌≡◌, refl, ◌∙◌, Bool, true, false, Option, none, some, if_both, is_empty,
}
use codedeck.Core.Event.{
  AgentEvent, Body, session_started, turn_started, text_delta, message, message_queued,
  tool_started, tool_completed, file_changed, permission_requested, permission_resolved,
  usage_updated, turn_completed, session_completed, session_failed, error,
}
use codedeck.Core.Session.{Session, SessionUsage}
use codedeck.Store.Events.{Events}
use codedeck.Store.Sessions.{Sessions, Lookup, found, missing, ambiguous, get}
use codedeck.Store.Ledger.{Ledger, observe}
use codedeck.Daemon.Persist.Usage.{
  seeds_incoming, as_observation, Database, Ran, done, threw, written, and_then, note_usage,
  note_report, observe_source, observed, update_model, note_found, truthy_model,
}
use codedeck.Daemon.Persist.{
  note_event, caught, note_and_touch, update_found_session, update_session_from_event, is_late,
}

unfoldable pub Keeps : Events → Ran → Type 0
Keeps e r = (caught r).events ≡ e

pub written-Keeps : (db : Database) (o : Option Sessions) → Keeps db.events (written db o)
unfolding Keeps
written-Keeps db none = refl
written-Keeps db (some t) = refl

and_then-Keeps :
    (e : Events) (r : Ran) (next : Database → Ran)
    → Keeps e r
    → ((d : Database) → Keeps d.events (next d))
    → Keeps e (and_then r next)
unfolding Keeps
and_then-Keeps e (done db) next h k = k db ∙ h
and_then-Keeps e (threw db) next h k = h

observed-Keeps : (db : Database) (o : Option (Bool × Ledger)) → Keeps db.events (observed db o)
unfolding Keeps
observed-Keeps db none = refl
observed-Keeps db (some r) = refl

update_model-Keeps :
    (db : Database) (sid : Text) (now : ℕ) (model : Option Text)
    → Keeps db.events (update_model db sid now model)
unfolding Keeps
update_model-Keeps db sid now none = refl
update_model-Keeps db sid now (some m) = written-Keeps db _

module _ ⦃fl : Floats⦄ where
  note_report-Keeps :
      (db : Database) (sid : Text) (s : Session) (incremental : Bool) (usage : SessionUsage)
      (model : Option Text) (seq now : ℕ) (key : Option Text)
      → Keeps db.events (note_report db sid s incremental usage model seq now key)
  unfolding note_report observe_source
  note_report-Keeps db sid s true usage model seq now key = written-Keeps db _
  note_report-Keeps db sid s false usage model seq now none = written-Keeps db _
  note_report-Keeps db sid s false usage model seq now (some k) =
      let seeds = seeds_incoming db.events sid seq k in
      let o = observe sid k (as_observation usage model) seeds now db.ledger in
      and_then-Keeps db.events (observed db o) _ (observed-Keeps db o)
        (λ d. update_model-Keeps d sid now (truthy_model model))

  note_found-Keeps :
      (db : Database) (sid : Text) (incremental : Bool) (usage : SessionUsage) (model : Option Text)
      (seq now : ℕ) (l : Lookup)
      → Keeps db.events (note_found db sid incremental usage model seq now l)
  unfolding Keeps
  note_found-Keeps db sid incremental usage model seq now missing = refl
  note_found-Keeps db sid incremental usage model seq now (ambiguous c) = refl
  note_found-Keeps db sid incremental usage model seq now (found s) =
      note_report-Keeps db sid s incremental usage model seq now _

  note_event-Keeps :
      (db : Database) (sid : Text) (body : Body) (seq now : ℕ)
      → Keeps db.events (note_event db sid body seq now)
  unfolding note_event Keeps note_usage
  note_event-Keeps db sid (session_started none) seq now = refl
  note_event-Keeps db sid (session_started (some id)) seq now =
      if_both (Keeps db.events) (is_empty id) refl (written-Keeps db _)
  note_event-Keeps db sid (turn_started p) seq now = refl
  note_event-Keeps db sid (text_delta t) seq now = refl
  note_event-Keeps db sid (message r t) seq now = written-Keeps db _
  note_event-Keeps db sid (message_queued p t) seq now = written-Keeps db _
  note_event-Keeps db sid (tool_started n) seq now = written-Keeps db _
  note_event-Keeps db sid (tool_completed n s d) seq now = refl
  note_event-Keeps db sid (file_changed p c o) seq now = refl
  note_event-Keeps db sid (permission_requested a b c) seq now = refl
  note_event-Keeps db sid (permission_resolved a b) seq now = refl
  note_event-Keeps db sid (usage_updated i u m) seq now = note_found-Keeps db sid i u m seq now _
  note_event-Keeps db sid (turn_completed r) seq now = refl
  note_event-Keeps db sid (session_completed r c) seq now = written-Keeps db _
  note_event-Keeps db sid (session_failed e f c) seq now = written-Keeps db _
  note_event-Keeps db sid (error e) seq now = refl

  note_and_touch-events :
      (db : Database) (sid : Text) (ev : AgentEvent) (seq now : ℕ)
      → (note_and_touch db sid ev seq now).events ≡ db.events
  unfolding Keeps
  note_and_touch-events db sid ev seq now =
      and_then-Keeps db.events (note_event db sid ev.body seq now) _
        (note_event-Keeps db sid ev.body seq now) (λ d. written-Keeps d _)

  update_found_session-events :
      (db : Database) (sid : Text) (ev : AgentEvent) (seq now : ℕ) (l : Lookup)
      → (update_found_session db sid ev seq now l).events ≡ db.events
  unfolding update_found_session
  update_found_session-events db sid ev seq now missing = note_and_touch-events db sid ev seq now
  update_found_session-events db sid ev seq now (ambiguous c) = refl
  update_found_session-events db sid ev seq now (found s) =
      if_both (λ (d : Database). d.events ≡ db.events) (is_late s.status ev) refl
        (note_and_touch-events db sid ev seq now)

  -- The session is updated, and the event log is not.
  pub update_session-events :
      (db : Database) (sid : Text) (ev : AgentEvent) (seq now : ℕ)
      → (update_session_from_event db sid ev seq now).events ≡ db.events
  unfolding update_session_from_event
  update_session-events db sid ev seq now =
      update_found_session-events db sid ev seq now (get db.ledger.sessions sid)
