-- ===== src/Daemon/Persist/Published.antt =====
-- The loop of `attachDriverEvents` in src/daemon/daemon.ts: the event log against the broadcasts.
use codedeck.Common.{
  Floats, Bool, ℕ, ◌+◌, Text, ◌≡◌, ◌⊎◌, refl, sym, ap, subst, ◌∙◌, true, false, Option, none, some,
  List, [], ◌∷◌, ◌++◌, map, if_both, eqb, All, All-append, Bool-cases, inl, inr, arith, ◌&&◌,
}
use mathlib.Core.List.{append-nil, append_assoc, map-append}
use codedeck.Core.Event.{AgentEvent, is_terminal_event}
use codedeck.Store.Events.{Events, EventRow, append, is_replay, max_sequence}
use codedeck.Store.Sessions.{Sessions}
use codedeck.Daemon.Persist.Usage.{Database, Ran, done, threw}
use codedeck.Daemon.Persist.{
  outcome, Offsets, Attempt, free, busy, broken, error_in, Persisted, committed, interrupted,
  failed_with, retrying, persist_driver_event, transaction, commit, write_offsets,
}
use codedeck.Daemon.Persist.Events.{Keeps, update_session-events, written-Keeps}
use codedeck.Daemon.Persist.Loop.{
  Delivery, Feed, LoopState, listening, left, broke, blocked, feed_of, publish, settle, take_event,
  resume, take_events, stream_throws, with_sessions, lost_event, fail_stream, catch_error,
  attach_driver_events,
}

-- The rows were appended to the log, and their events, no others, were broadcast in the same order.
pub record IsPublished (sid : Text) (before after : Feed) : Type 0 where
  pub rows : List EventRow
  pub stored : after.database.events ≡ before.database.events ++ rows
  pub told : after.broadcasts ≡ before.broadcasts ++ map (λ r. r.event) rows
  pub own : All (λ r. r.session_id ≡ sid) rows

Committed : Events → ℕ → Option (Database × ℕ) → Type 0
Committed e n none = Unit
Committed e n (some r) = (r.0.events ≡ e) × (r.1 ≡ n)

module _ ⦃fl : Floats⦄ where
  commit-Committed :
      (e : Events) (sid : Text) (ev : AgentEvent) (n now : ℕ) (r : Ran)
      → Keeps e r
      → Committed e n (commit sid ev n now r)
  unfolding Committed Keeps
  commit-Committed e sid ev n now (threw db) h = tt
  commit-Committed e sid ev n now (done db) h = (
    if_both (λ (d : Database). d.events ≡ e) (eqb n 0) h
        (update_session-events db sid ev n now ∙ h),
    refl,
  )

  write_offsets-Keeps :
      (db : Database) (sid : Text) (o : Option Offsets) (now : ℕ)
      → Keeps db.events (write_offsets db sid o now)
  unfolding Keeps
  write_offsets-Keeps db sid none now = refl
  write_offsets-Keeps db sid (some o) now = written-Keeps db _

  transaction-Committed :
      (db : Database) (sid : Text) (ev : AgentEvent) (o : Option Offsets) (now : ℕ)
      → Committed
          (append db.events sid ev).0
          (append db.events sid ev).1
          (transaction db sid ev o now)
  unfolding transaction
  transaction-Committed db sid ev o now =
      let appended = append db.events sid ev in
      let db' : Database = record db { events = appended.0 } in
      commit-Committed appended.0 sid ev appended.1 now (write_offsets db' sid o now)
        (write_offsets-Keeps db' sid o now)

  -- Every commit is one of the event on the database as it was.
  IsCommit : Events → ℕ → Persisted → Type 0
  IsCommit e n (committed db m) = (db.events ≡ e) × (m ≡ n)
  IsCommit e n _ = Unit

  outcome-IsCommit :
      (reason : Text) (e : Events) (n : ℕ) (o : Option (Database × ℕ))
      → Committed e n o
      → IsCommit e n (outcome reason o)
  unfolding Committed IsCommit
  outcome-IsCommit reason e n none h = tt
  outcome-IsCommit reason e n (some r) h = h

  persist-IsCommit :
      (db : Database) (sid : Text) (ev : AgentEvent) (o : Option Offsets) (now : ℕ)
      (attempts : List Attempt)
      → IsCommit
          (append db.events sid ev).0
          (append db.events sid ev).1
          (persist_driver_event db sid ev o now attempts)
  unfolding IsCommit persist_driver_event
  persist-IsCommit db sid ev o now [] = tt
  persist-IsCommit db sid ev o now (free ∷ attempts) =
      outcome-IsCommit (error_in db sid) _ _ (transaction db sid ev o now)
        (transaction-Committed db sid ev o now)
  persist-IsCommit db sid ev o now (broken reason ∷ attempts) = tt
  persist-IsCommit db sid ev o now (busy true ∷ attempts) = tt
  persist-IsCommit db sid ev o now (busy false ∷ attempts) =
      persist-IsCommit db sid ev o now attempts

  abbrev new_row : Events → Text → AgentEvent → EventRow
  new_row table sid ev = record {
    session_id = sid;
    sequence = max_sequence table sid + 1;
    event = ev;
  }

  -- An event is a replay, or the new last row with a number above 0.
  abbrev Appends : Events → Text → AgentEvent → Events × ℕ → Type 0
  Appends table sid ev r =
      ((r.0 ≡ table) × (eqb r.1 0 ≡ true))
      ⊎ ((r.0 ≡ table ++ new_row table sid ev ∷ []) × (eqb r.1 0 ≡ false))

  append-Appends :
      (table : Events) (sid : Text) (ev : AgentEvent) → Appends table sid ev (append table sid ev)
  unfolding append
  append-Appends table sid ev = elim (Bool-cases (is_replay table sid ev.source_key)) [
    | inl e ↦ rw e (inl (refl, refl))
    | inr e ↦ rw e (inr (refl, ground arith))
  ]

  module _ (sid : Text) where
    same_feed : (f : Feed) → IsPublished sid f f
    same_feed f = record {
      rows = [];
      stored = sym (append-nil f.database.events);
      told = sym (append-nil f.broadcasts);
      own = tt;
    }

    publish-IsPublished :
        (f : Feed) (ev : AgentEvent) (db : Database) (n : ℕ)
        → Appends f.database.events sid ev (db.events, n)
        → IsPublished sid f (publish f ev db n)
    publish-IsPublished f ev db n (inl h) = record {
      rows = [];
      stored = h.0 ∙ sym (append-nil f.database.events);
      told = rw h.1 (sym (append-nil f.broadcasts));
      own = tt;
    }
    publish-IsPublished f ev db n (inr h) = record {
      rows = new_row f.database.events sid ev ∷ [];
      stored = h.0;
      told = rw h.1 refl;
      own = (refl, tt);
    }

    next-IsPublished :
        (f g h : Feed) → IsPublished sid f g → IsPublished sid g h → IsPublished sid f h
    next-IsPublished f g h p q = record {
      rows = p.rows ++ q.rows;
      stored =
          q.stored ∙ ap (λ e. e ++ q.rows) p.stored ∙ append_assoc f.database.events p.rows q.rows;
      told =
          q.told
          ∙ ap (λ e. e ++ map (λ r. r.event) q.rows) p.told
          ∙ append_assoc f.broadcasts (map (λ r. r.event) p.rows) (map (λ r. r.event) q.rows)
          ∙ ap (λ x. f.broadcasts ++ x)
              (sym (map-append (λ (r : EventRow). r.event) p.rows q.rows));
      own = All-append (λ r. r.session_id ≡ sid) p.rows q.rows p.own q.own;
    }

    settle-IsPublished :
        (f : Feed) (ev : AgentEvent) (p : Persisted)
        → IsCommit (append f.database.events sid ev).0 (append f.database.events sid ev).1 p
        → IsPublished sid f (feed_of (settle f ev p))
    unfolding IsCommit
    settle-IsPublished f ev interrupted h = same_feed f
    settle-IsPublished f ev (failed_with reason) h = same_feed f
    settle-IsPublished f ev retrying h = same_feed f
    settle-IsPublished f ev (committed db n) h = publish-IsPublished f ev db n (
        subst (λ e. Appends f.database.events sid ev (e, n)) (sym h.0)
          (subst (λ m. Appends f.database.events sid ev ((append f.database.events sid ev).0, m))
            (sym h.1) (append-Appends f.database.events sid ev)))

    take_event-IsPublished :
        (x : Delivery) (f : Feed) → IsPublished sid f (feed_of (take_event sid x f))
    unfolding take_event
    take_event-IsPublished x f =
        if_both (λ s. IsPublished sid f (feed_of s)) (x.locked && is_terminal_event x.event)
          (same_feed f)
          (settle-IsPublished f x.event _
            (persist-IsCommit f.database sid x.event x.offsets x.now x.attempts))

    resume-IsPublished :
        (f : Feed) (next : Feed → LoopState) (s : LoopState)
        → ((g : Feed) → IsPublished sid g (feed_of (next g)))
        → IsPublished sid f (feed_of s)
        → IsPublished sid f (feed_of (resume next s))
    resume-IsPublished f next (listening g) k h = next-IsPublished f g (feed_of (next g)) h (k g)
    resume-IsPublished f next (left g) k h = h
    resume-IsPublished f next (broke reason g) k h = h
    resume-IsPublished f next (blocked g) k h = h

    take_events-IsPublished :
        (deliveries : List Delivery) (f : Feed)
        → IsPublished sid f (feed_of (take_events sid deliveries f))
    unfolding take_events
    take_events-IsPublished [] f = same_feed f
    take_events-IsPublished (x ∷ xs) f =
        resume-IsPublished f (take_events sid xs) (take_event sid x f) (take_events-IsPublished xs)
          (take_event-IsPublished x f)

    throws-IsPublished :
        (thrown : Option Text) (f : Feed) → IsPublished sid f (feed_of (stream_throws thrown f))
    throws-IsPublished none f = same_feed f
    throws-IsPublished (some reason) f = same_feed f

    with_sessions-events :
        (db : Database) (o : Option Sessions) → (with_sessions db o).events ≡ db.events
    with_sessions-events db none = refl
    with_sessions-events db (some table) = refl

    -- The event of the handler has no source key, so it is never a replay.
    fail_stream-IsPublished :
        (reason : Text) (now : ℕ) (f : Feed) → IsPublished sid f (fail_stream sid reason now f)
    unfolding fail_stream append is_replay
    fail_stream-IsPublished reason now f = record {
      rows = new_row f.database.events sid (lost_event sid reason now) ∷ [];
      stored = with_sessions-events _ _;
      told = refl;
      own = (refl, tt);
    }

    catch-IsPublished :
        (f : Feed) (shutting_down : Bool) (now : ℕ) (s : LoopState)
        → IsPublished sid f (feed_of s)
        → IsPublished sid f (feed_of (catch_error sid shutting_down now s))
    unfolding catch_error
    catch-IsPublished f shutting_down now (listening g) h = h
    catch-IsPublished f shutting_down now (left g) h = h
    catch-IsPublished f shutting_down now (blocked g) h = h
    catch-IsPublished f shutting_down now (broke reason g) h =
        if_both (IsPublished sid f) shutting_down h
          (next-IsPublished f g _ h (fail_stream-IsPublished reason now g))

    -- Whatever the driver gives, however often the store is busy, whether the store or the driver's
    -- stream throws, and whether the daemon then shuts down: the event log of the database has grown
    -- by rows of this session alone, and exactly the events of these rows have been broadcast, once
    -- each and in the same order, the event of the error handler included.
    pub attach-IsPublished :
        (deliveries : List Delivery) (thrown : Option Text) (shutting_down : Bool) (now : ℕ)
        (f : Feed)
        → IsPublished sid f
            (feed_of (attach_driver_events sid deliveries thrown shutting_down now f))
    unfolding attach_driver_events
    attach-IsPublished deliveries thrown shutting_down now f =
        catch-IsPublished f shutting_down now
          (resume (stream_throws thrown) (take_events sid deliveries f))
          (resume-IsPublished f (stream_throws thrown) (take_events sid deliveries f)
            (throws-IsPublished thrown) (take_events-IsPublished deliveries f))
