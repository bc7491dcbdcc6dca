-- ===== src/Replay.antt =====
-- Between src/drivers/session-runtime.ts and src/store/events.ts: the daemon appends each event
-- that a runtime delivers, and a runtime that reattaches reads lines a second time.
use codedeck.Common.{
  ℕ, zero, suc, ◌≤◌, Text, ◌≡◌, refl, ap, ◌∙◌, true, false, some, List, [], ◌∷◌, is_empty, length,
  arith, Bool-cases, inl, inr,
}
use codedeck.Core.Event.{AgentEvent}
use codedeck.Store.Events.{Events, append, is_replay, has_source}
use codedeck.Store.Events.Laws.{has_source-snoc, append_old, is_replay_next, next_row}
use codedeck.Drivers.Runtime.{StreamName, log, stderr, Entry, source_key, line_entries}

-- The daemon's loop over the events of a runtime, in the order of their delivery.
unfoldable pub append_all : Events → Text → List Entry → Events
append_all table sid [] = table
append_all table sid (e ∷ es) = append_all (append table sid e.event).0 sid es

source_key-is_empty :
    (stream : StreamName) (offset i : ℕ) → is_empty (source_key stream offset i) ≡ false
unfolding source_key
source_key-is_empty log offset i = refl
source_key-is_empty stderr offset i = refl

-- An append takes no source key away.
has_source-append :
    (table : Events) (sid key : Text) (event : AgentEvent)
    → has_source table sid key ≡ true
    → has_source (append table sid event).0 sid key ≡ true
unfolding append
has_source-append table sid key event h = elim (Bool-cases (is_replay table sid event.source_key)) [
  | inl old ↦ rw old h
  | inr new ↦ rw new (ground (arith, has_source-snoc table sid key (next_row table sid event)))
]

has_source-append_all :
    (table : Events) (sid key : Text) (es : List Entry)
    → has_source table sid key ≡ true
    → has_source (append_all table sid es) sid key ≡ true
unfolding append_all
has_source-append_all table sid key [] h = h
has_source-append_all table sid key (e ∷ es) h =
    has_source-append_all (append table sid e.event).0 sid key es
      (has_source-append table sid key e.event h)

module _ (sid : Text) (stream : StreamName) (offset : ℕ) where
  -- The keys of `n` events of the line, from number `i`, are in the table.
  abbrev Present : Events → ℕ → ℕ → Type 0
  Present table i zero = Unit
  Present table i (suc n) =
      (has_source table sid (source_key stream offset i) ≡ true) × Present table (suc i) n

  own_source :
      (table : Events) (i : ℕ) (event : AgentEvent)
      → event.source_key ≡ some (source_key stream offset i)
      → has_source (append table sid event).0 sid (source_key stream offset i) ≡ true
  unfolding is_replay
  own_source table i event e =
      let key = source_key stream offset i in
      let seen = is_replay_next table sid key event (source_key-is_empty stream offset i) e in
      ground (arith, source_key-is_empty stream offset i)

  append_all-Present :
      (evs : List AgentEvent) (table : Events) (i : ℕ)
      → Present (append_all table sid (line_entries sid stream offset i evs)) i (length evs)
  unfolding append_all line_entries
  append_all-Present [] table i = tt
  append_all-Present (ev ∷ evs) table i =
      let stored : AgentEvent = record ev {
        session_id = sid;
        source_key = some (source_key stream offset i);
      } in
      (
        has_source-append_all (append table sid stored).0 sid (source_key stream offset i)
            (line_entries sid stream offset (suc i) evs) (own_source table i stored refl),
        append_all-Present evs (append table sid stored).0 (suc i),
      )

  unchanged_by_Present :
      (evs : List AgentEvent) (table : Events) (i n : ℕ)
      → Present table i n
      → length evs ≤ n
      → append_all table sid (line_entries sid stream offset i evs) ≡ table
  unfolding append_all line_entries is_replay
  unchanged_by_Present [] table i n p le = refl
  unchanged_by_Present (ev ∷ evs) table i zero p le = elim le [ ]
  unchanged_by_Present (ev ∷ evs) table i (suc n) p le =
      let again : AgentEvent = record ev {
        session_id = sid;
        source_key = some (source_key stream offset i);
      } in
      let rest = line_entries sid stream offset (suc i) evs in
      let same =
        append_old table sid again (ground (arith, source_key-is_empty stream offset i, p.0)) in
      ap (λ t. append_all t sid rest) (ap (λ q. q.0) same)
      ∙ unchanged_by_Present evs table (suc i) n p.1 (omega arith)

  -- A line that is read a second time, with no more events than the first time, adds nothing to the
  -- store, whatever the events now say.
  pub line_read_again :
      (table : Events) (evs again : List AgentEvent)
      → length again ≤ length evs
      → append_all
          (append_all table sid (line_entries sid stream offset 0 evs))
          sid
          (line_entries sid stream offset 0 again)
        ≡ append_all table sid (line_entries sid stream offset 0 evs)
  line_read_again table evs again le =
      unchanged_by_Present again _ 0 (length evs) (append_all-Present evs table 0) le
