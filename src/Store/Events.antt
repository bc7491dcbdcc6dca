-- ===== src/Store/Events.antt =====
-- src/store/events.ts: the events of all sessions. A row keeps the event itself for its JSON text.
pub mod Laws
use codedeck.Common.{
  ℕ, suc, ◌+◌, max, Text, Bool, true, false, Option, none, some, List, [], ◌∷◌, ◌++◌, ◌==◌, ◌&&◌,
  map, leb, not, is_empty, any, filter_by, take, drop, length, sort_by, last_or, if◌then◌else◌,
  Option-cases,
}
use codedeck.Core.Event.{AgentEvent}

pub record EventRow : Type 0 where
  pub session_id : Text
  pub sequence : ℕ
  pub event : AgentEvent

abbrev pub Events : Type 0
Events = List EventRow

-- `source_key = ?`, which a null key never satisfies
abbrev pub is_key : Text → Option Text → Bool
is_key key none = false
is_key key (some k) = k == key

abbrev pub of_session : Text → EventRow → Bool
of_session sid r = r.session_id == sid

abbrev pub has_source : Events → Text → Text → Bool
has_source table sid key = any (λ r. of_session sid r && is_key key r.event.source_key) table

-- `SELECT COALESCE(MAX(sequence), 0)`
abbrev max_sequence_of : List EventRow → ℕ
max_sequence_of [] = 0
max_sequence_of (r ∷ rows) = max r.sequence (max_sequence_of rows)

abbrev pub rows_of : Events → Text → List EventRow
rows_of table sid = filter_by (of_session sid) table

unfoldable pub max_sequence : Events → Text → ℕ
max_sequence table sid = max_sequence_of (rows_of table sid)

-- `if (event.sourceKey)`: a missing key and an empty one are no keys.
unfoldable pub is_replay : Events → Text → Option Text → Bool
is_replay table sid none = false
is_replay table sid (some key) = not (is_empty key) && has_source table sid key

-- The new table and the sequence number, or 0 for an event that is stored already.
unfoldable pub append : Events → Text → AgentEvent → Events × ℕ
append table sid event =
    let next_seq = max_sequence table sid + 1 in
    if is_replay table sid event.source_key
    then (table, 0)
    else (table ++ (record { session_id = sid; sequence = next_seq; event = event } ∷ []), next_seq)

abbrev by_sequence : EventRow → EventRow → Bool
by_sequence a b = leb a.sequence b.sequence

unfoldable pub list_raw : Events → Text → List EventRow
list_raw table sid = sort_by by_sequence (rows_of table sid)

unfoldable pub list : Events → Text → ℕ → ℕ → List AgentEvent
unfolding list_raw
list table sid limit offset = map (λ r. r.event) (take limit (drop offset (list_raw table sid)))

unfoldable pub count : Events → Text → ℕ
count table sid = length (rows_of table sid)

event_of : Option EventRow → Option AgentEvent
event_of none = none
event_of (some r) = some r.event

-- `ORDER BY sequence DESC LIMIT 1`
unfoldable pub last : Events → Text → Option AgentEvent
unfolding list_raw event_of
last table sid = event_of (last_or none (list_raw table sid))
