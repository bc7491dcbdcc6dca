-- ===== src/Daemon/Persist/Replays.antt =====
-- An event that the log holds already, in the loop of `attachDriverEvents` of
-- src/daemon/daemon.ts.
use codedeck.Common.{
  Floats, ℕ, Text, ◌≡◌, ◌⊎◌, refl, sym, ap, subst, true, false, Option, none, some, List, [], ◌∷◌,
  if_both, inl, inr, ◌&&◌,
}
use codedeck.Core.Event.{is_terminal_event}
use codedeck.Store.Events.{Events, is_replay}
use codedeck.Store.Events.Laws.{append_old}
use codedeck.Store.Sessions.{Sessions, update}
use codedeck.Daemon.Persist.Usage.{Database, Ran, done, threw, written}
use codedeck.Daemon.Persist.{
  offsets_patch, outcome, error_in, Offsets, Attempt, free, busy, broken, persist_driver_event,
  transaction, commit, write_offsets,
}
use codedeck.Daemon.Persist.Loop.{Delivery, Feed, LoopState, feed_of, settle, take_event}

-- Nothing has changed but the offsets of the session.
pub record IsInert (sid : Text) (x : Delivery) (before after : Feed) : Type 0 where
  pub events : after.database.events ≡ before.database.events
  pub broadcasts : after.broadcasts ≡ before.broadcasts
  pub sources : after.database.ledger.sources ≡ before.database.ledger.sources
  pub attributions : after.database.ledger.attributions ≡ before.database.ledger.attributions
  pub sessions :
      (after.database.ledger.sessions ≡ before.database.ledger.sessions)
      ⊎ ((o : Offsets) × (x.offsets ≡ some o)
          × (update before.database.ledger.sessions sid (offsets_patch o) x.now
              ≡ some after.database.ledger.sessions))

module _ ⦃fl : Floats⦄ (sid : Text) (x : Delivery) (f : Feed) where
  with_database : Database → Feed
  with_database db = record f { database = db }

  inert : IsInert sid x f f
  inert = record {
    events = refl;
    broadcasts = refl;
    sources = refl;
    attributions = refl;
    sessions = inl refl;
  }

  Still : Ran → Type 0
  Still (threw db) = Unit
  Still (done db) = IsInert sid x f (with_database db)

  written-Still :
      (o : Offsets) (t : Option Sessions)
      → x.offsets ≡ some o
      → update f.database.ledger.sessions sid (offsets_patch o) x.now ≡ t
      → Still (written f.database t)
  unfolding Still with_database
  written-Still o none e u = tt
  written-Still o (some table) e u = record {
    events = refl;
    broadcasts = refl;
    sources = refl;
    attributions = refl;
    sessions = inr (o, e, u);
  }

  offsets-Still :
      (o : Option Offsets) → x.offsets ≡ o → Still (write_offsets f.database sid o x.now)
  unfolding Still with_database
  offsets-Still none e = inert
  offsets-Still (some o) e = written-Still o _ e refl

  Kept : LoopState → Type 0
  Kept s = IsInert sid x f (feed_of s)

  committed-Kept :
      (reason : Text) (r : Ran)
      → Still r
      → Kept (settle f x.event (outcome reason (commit sid x.event 0 x.now r)))
  unfolding Kept Still with_database
  committed-Kept reason (threw db) h = inert
  committed-Kept reason (done db) h = h

  module _ (old : is_replay f.database.events sid x.event.source_key ≡ true) where
    transaction-replay :
        transaction f.database sid x.event x.offsets x.now
        ≡ commit sid x.event 0 x.now (write_offsets f.database sid x.offsets x.now)
    unfolding transaction
    transaction-replay =
        ap
          (λ (a : Events × ℕ).
            commit sid x.event a.1 x.now
              (write_offsets (record f.database { events = a.0 }) sid x.offsets x.now))
          (append_old f.database.events sid x.event old)

    attempts-Kept :
        (attempts : List Attempt)
        → Kept (
            settle f x.event (persist_driver_event f.database sid x.event x.offsets x.now attempts))
    unfolding persist_driver_event Kept
    attempts-Kept [] = inert
    attempts-Kept (broken reason ∷ attempts) = inert
    attempts-Kept (busy true ∷ attempts) = inert
    attempts-Kept (busy false ∷ attempts) = attempts-Kept attempts
    attempts-Kept (free ∷ attempts) =
        subst (λ t. Kept (settle f x.event (outcome (error_in f.database sid) t)))
          (sym transaction-replay)
          (committed-Kept (error_in f.database sid) (write_offsets f.database sid x.offsets x.now)
            (offsets-Still x.offsets refl))

    -- An event of the driver that the log holds already under its source key changes nothing but
    -- the offsets of its session: no row is added, nothing is broadcast, no usage is booked, and
    -- the sessions are as before or have had the driver's offsets written.
    pub take_event-IsInert : IsInert sid x f (feed_of (take_event sid x f))
    unfolding take_event Kept
    take_event-IsInert =
        if_both Kept (x.locked && is_terminal_event x.event) inert (attempts-Kept x.attempts)
