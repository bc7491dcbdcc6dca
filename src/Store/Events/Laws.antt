-- ===== src/Store/Events/Laws.antt =====
-- Sequence numbers, replays and reads of the event store.
use codedeck.Common.{
  sym, refl, length-append, last_or, ap, ◌∙◌, Option, ℕ, suc, ◌+◌, ◌≤◌, max, Text, ◌≡◌, ◌≢◌, true,
  false, some, List, [], ◌∷◌, ◌++◌, ◌&&◌, ◌||◌, ◌==◌, eq_iff, eq_refl, arith, leb, All, is_empty,
  inl, inr, length, IsSorted, sort_by_of_IsSorted, Bool-cases, if◌then◌else◌,
}
use codedeck.Core.Event.{AgentEvent}
use codedeck.Store.Events.{
  EventRow, Events, of_session, has_source, is_key, max_sequence_of, rows_of, max_sequence,
  is_replay, append, by_sequence, list_raw, count, last,
}

-- The rows have the sequence numbers `k + 1`, `k + 2`, … in this order.
abbrev Numbered : ℕ → List EventRow → Type 0
Numbered k [] = Unit
Numbered k (r ∷ rows) = (r.sequence ≡ suc k) × Numbered (suc k) rows

-- The events of each session are numbered from 1 without a gap, in the order of insertion.
pub record IsNumbered (table : Events) : Type 0 where
  pub numbered : (sid : Text) → Numbered 0 (rows_of table sid)

rows_of-snoc :
    (sid : Text) (table : Events) (r : EventRow)
    → rows_of (table ++ r ∷ []) sid
      ≡ (if r.session_id == sid then rows_of table sid ++ r ∷ [] else rows_of table sid)
rows_of-snoc sid [] r = ground arith
rows_of-snoc sid (x ∷ xs) r = ground (arith, rows_of-snoc sid xs r)

Numbered-above :
    (j k : ℕ) (rows : List EventRow)
    → j ≤ suc k
    → Numbered k rows
    → All (λ r. leb j r.sequence ≡ true) rows
Numbered-above j k [] le h = tt
Numbered-above j k (r ∷ rows) le (e, h) =
    (ground arith, Numbered-above j (suc k) rows (omega arith) h)

Numbered-IsSorted : (k : ℕ) (rows : List EventRow) → Numbered k rows → IsSorted by_sequence rows
Numbered-IsSorted k [] h = tt
Numbered-IsSorted k (r ∷ rows) (e, h) =
    (Numbered-above r.sequence (suc k) rows (omega arith) h, Numbered-IsSorted (suc k) rows h)

Numbered-snoc :
    (k : ℕ) (rows : List EventRow) (r : EventRow)
    → Numbered k rows
    → r.sequence ≡ suc (k + length rows)
    → Numbered k (rows ++ r ∷ [])
Numbered-snoc k [] r h e = (omega arith, tt)
Numbered-snoc k (q ∷ rows) r (p, h) e = (p, Numbered-snoc (suc k) rows r h (omega arith))

max_sequence_of-Numbered :
    (k : ℕ) (rows : List EventRow)
    → Numbered k rows
    → max k (max_sequence_of rows) ≡ k + length rows
max_sequence_of-Numbered k [] h = omega arith
max_sequence_of-Numbered k (r ∷ rows) (e, h) =
    omega (arith, max_sequence_of-Numbered (suc k) rows h)

max_sequence-count :
    (table : Events) (sid : Text) → IsNumbered table → max_sequence table sid ≡ count table sid
unfolding max_sequence count
max_sequence-count table sid t =
    omega (arith, max_sequence_of-Numbered 0 (rows_of table sid) (t.numbered sid))

list_raw-rows_of :
    (table : Events) (sid : Text) → IsNumbered table → list_raw table sid ≡ rows_of table sid
unfolding list_raw
list_raw-rows_of table sid t =
    sort_by_of_IsSorted by_sequence _ (Numbered-IsSorted 0 _ (t.numbered sid))

-- The row that `append` writes.
abbrev pub next_row : Events → Text → AgentEvent → EventRow
next_row table sid event = record {
  session_id = sid;
  sequence = max_sequence table sid + 1;
  event = event;
}

next_sequence :
    (table : Events) (sid j : Text) (event : AgentEvent)
    → IsNumbered table
    → sid ≡ j
    → (next_row table sid event).sequence ≡ suc (0 + length (rows_of table j))
unfolding count
next_sequence table sid j event t e = rw (← e) (omega (arith, max_sequence-count table sid t))

insert-IsNumbered :
    (table : Events) (sid : Text) (event : AgentEvent)
    → IsNumbered table
    → IsNumbered (table ++ next_row table sid event ∷ [])
insert-IsNumbered table sid event t = record {
  numbered = λ j. elim (Bool-cases (sid == j)) [
    | inl same ↦
        rw (rows_of-snoc, same)
          (Numbered-snoc 0 (rows_of table j) (next_row table sid event) (t.numbered j)
            (next_sequence table sid j event t ((eq_iff sid j).0 same)))
    | inr other ↦ rw (rows_of-snoc, other) (t.numbered j)
  ];
}

-- In a table whose sessions number their events from 1 without a gap in the order in which they
-- came, appending any event, new or replayed, keeps that so.
pub append-IsNumbered :
    (table : Events) (sid : Text) (event : AgentEvent)
    → IsNumbered table
    → IsNumbered (append table sid event).0
unfolding append
append-IsNumbered table sid event t = elim (Bool-cases (is_replay table sid event.source_key)) [
  | inl old ↦ rw old t
  | inr new ↦ rw new (insert-IsNumbered table sid event t)
]

pub has_source-snoc :
    (table : Events) (sid key : Text) (r : EventRow)
    → has_source (table ++ r ∷ []) sid key
      ≡ (has_source table sid key || (of_session sid r && is_key key r.event.source_key))
has_source-snoc [] sid key r = ground arith
has_source-snoc (x ∷ xs) sid key r = ground (arith, has_source-snoc xs sid key r)

pub append_old :
    (table : Events) (sid : Text) (event : AgentEvent)
    → is_replay table sid event.source_key ≡ true
    → append table sid event ≡ (table, 0)
unfolding append
append_old table sid event old = ground arith

pub is_replay_next :
    (table : Events) (sid key : Text) (event : AgentEvent)
    → is_empty key ≡ false
    → event.source_key ≡ some key
    → is_replay (append table sid event).0 sid (some key) ≡ true
unfolding append is_replay
is_replay_next table sid key event k e =
    ground
      (arith, has_source-snoc table sid key (next_row table sid event), eq_refl sid, eq_refl key)

-- An event whose source key, which is not empty, was appended before under the same session is
-- not stored again: the second append changes nothing and returns 0.
pub append_replay :
    (table : Events) (sid key : Text) (first second : AgentEvent)
    → is_empty key ≡ false
    → first.source_key ≡ some key
    → second.source_key ≡ some key
    → append (append table sid first).0 sid second ≡ ((append table sid first).0, 0)
append_replay table sid key first second k e e' =
    append_old (append table sid first).0 sid second
      (rw e' (is_replay_next table sid key first k e))

-- What an append of a new event shows to every read of the store.
pub record Appended (table after : Events) (sid : Text) (event : AgentEvent) : Type 0 where
  pub last_is : last after sid ≡ some event
  pub counted : count after sid ≡ count table sid + 1
  pub behind : list_raw after sid ≡ list_raw table sid ++ next_row table sid event ∷ []
  pub others : (j : Text) → j ≢ sid → list_raw after j ≡ list_raw table j

last_or-snoc :
    (o : Option EventRow) (rows : List EventRow) (r : EventRow)
    → last_or o (rows ++ r ∷ []) ≡ some r
last_or-snoc o [] r = refl
last_or-snoc o (x ∷ rows) r = last_or-snoc (some x) rows r

rows_of-next_self :
    (table : Events) (sid : Text) (event : AgentEvent)
    → rows_of (table ++ next_row table sid event ∷ []) sid
      ≡ rows_of table sid ++ next_row table sid event ∷ []
rows_of-next_self table sid event = rows_of-snoc sid table _ ∙ rw eq_refl

last_of-snoc :
    (table : Events) (sid : Text) (rows : List EventRow) (r : EventRow)
    → list_raw table sid ≡ rows ++ r ∷ []
    → last table sid ≡ some r.event
unfolding last
last_of-snoc table sid rows r h = rw (h, last_or-snoc)

rows_of-next_ne :
    (table : Events) (sid j : Text) (event : AgentEvent)
    → j ≢ sid
    → rows_of (table ++ next_row table sid event ∷ []) j ≡ rows_of table j
rows_of-next_ne table sid j event h = rows_of-snoc j table _ ∙ ground (arith, eq_iff sid j)

insert-Appended :
    (table : Events) (sid : Text) (event : AgentEvent)
    → IsNumbered table
    → Appended table (table ++ next_row table sid event ∷ []) sid event
insert-Appended table sid event t =
    let after = table ++ next_row table sid event ∷ [] in
    let t' = insert-IsNumbered table sid event t in
    let raw = list_raw-rows_of after sid t' ∙ rows_of-next_self table sid event in
    record {
      last_is = last_of-snoc after sid (rows_of table sid) (next_row table sid event) raw;
      counted =
          unfold count in
          (ap length (rows_of-next_self table sid event)
            ∙ length-append (rows_of table sid) (next_row table sid event ∷ []));
      behind = rw (list_raw-rows_of table sid t) raw;
      others = λ j h.
          list_raw-rows_of after j t'
          ∙ rows_of-next_ne table sid j event h
          ∙ sym (list_raw-rows_of table j t);
    }

-- In a table whose sessions number their events from 1 without a gap, an event that is no replay
-- gets the next number of its session: it is the last event, the count grows by one, it stands
-- behind the session's earlier events, and the other sessions' events stay as they are.
pub append-Appended :
    (table : Events) (sid : Text) (event : AgentEvent)
    → IsNumbered table
    → is_replay table sid event.source_key ≡ false
    → Appended table (append table sid event).0 sid event
      × ((append table sid event).1 ≡ count table sid + 1)
unfolding append
append-Appended table sid event t new =
    rw new (insert-Appended table sid event t, ap (λ n. n + 1) (max_sequence-count table sid t))
