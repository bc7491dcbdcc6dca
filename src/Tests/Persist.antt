-- ===== src/Tests/Persist.antt =====
-- Events of a driver that reach the database of a session, with a store that is busy at first.
use codedeck.Common.{
  ◌==◌, sort_by, starts_with, to_lower, length, codes, ◌≡◌, refl, false, none, some, [], ◌∷◌,
}
use codedeck.Store.Events.{is_replay, append, max_sequence, list_raw}
use codedeck.Store.Sessions.{update, get, get_exact}
use codedeck.Store.Sessions.Row.{session_to_row, row_to_session}
use codedeck.Store.Sessions.Update.{update_rows, apply_update}
use codedeck.Core.UsageSource.{worker_source_key}
use codedeck.Store.Ledger.{observe}
use codedeck.Core.Failure.{decimal}
use codedeck.Core.Event.{AgentEvent, session_started, usage_updated}
use codedeck.Daemon.Persist.{free, busy, persist_driver_event}
use codedeck.Daemon.Persist.Loop.{
  Delivery, Feed, feed_of, take_event, take_events, attach_driver_events,
}
use codedeck.Daemon.Persist.Published.{IsPublished, attach-IsPublished}
use codedeck.Daemon.Persist.Replays.{IsInert, take_event-IsInert}
use codedeck.Tests.Fixtures.{test_floats, idle_session, table_of, sid, event_with}

abbrev fresh : Feed
fresh = record {
  database = record {
    events = [];
    ledger = record { sources = []; attributions = []; sessions = table_of idle_session };
  };
  broadcasts = [];
}

abbrev started : AgentEvent
started = event_with (some (codes "log:0:0")) (session_started (some (codes "n2")))

abbrev used : AgentEvent
used = event_with (some (codes "log:9:0")) (
    usage_updated false
      (record { input_tokens = some 4; output_tokens = some 1; cached_tokens = none; cost = none })
      (some (codes "opus")))

abbrev delivered : AgentEvent → Delivery
delivered ev = record {
  event = ev;
  offsets = some (record { log = 30; stderr = 0 });
  now = 8;
  locked = false;
  attempts = busy false ∷ free ∷ [];
}

abbrev after : Feed
after = feed_of (take_events sid (delivered started ∷ delivered used ∷ []) fresh)

attach-IsPublished_example : IsPublished sid fresh (
    feed_of (
      attach_driver_events sid
        (delivered started ∷ delivered used ∷ [])
        (some (codes "EPIPE"))
        false
        9
        fresh))
attach-IsPublished_example =
    attach-IsPublished sid (delivered started ∷ delivered used ∷ []) (some (codes "EPIPE")) false 9
      fresh

take_event-IsInert_example :
    IsInert sid (delivered used) after (feed_of (take_event sid (delivered used) after))
unfolding is_replay take_events persist_driver_event update get get_exact ◌==◌ session_to_row append
    max_sequence update_rows apply_update row_to_session worker_source_key observe decimal list_raw
    sort_by starts_with to_lower
take_event-IsInert_example = take_event-IsInert sid (delivered used) after refl

-- The start gave the session its native id, and the report a source under it.
booked_once : length after.database.ledger.attributions ≡ 1
unfolding is_replay take_events persist_driver_event update get get_exact ◌==◌ session_to_row append
    max_sequence update_rows apply_update row_to_session worker_source_key observe decimal list_raw
    sort_by starts_with to_lower
booked_once = refl

told_twice : after.broadcasts ≡ started ∷ used ∷ []
unfolding is_replay take_events persist_driver_event update get get_exact ◌==◌ session_to_row append
    max_sequence update_rows apply_update row_to_session worker_source_key observe decimal list_raw
    sort_by starts_with to_lower
told_twice = refl
