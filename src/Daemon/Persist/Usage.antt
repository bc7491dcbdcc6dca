-- ===== src/Daemon/Persist/Usage.antt =====
-- The branch of `updateSessionFromEvent` in src/daemon/daemon.ts that takes a report of usage, and
-- `previousUsageProcessOrdinal`.
use codedeck.Common.{
  Floats, ℕ, ◌+◌, Text, codes, Bool, true, false, Option, none, some, ◌&&◌, ◌||◌, not, eqb, leb,
  length, filter_by, last_or, get_or, or_else, is_some, is_empty, starts_with, if◌then◌else◌,
}
use codedeck.Core.Event.{Body, session_started, usage_updated}
use codedeck.Core.Session.{Session, SessionUsage}
use codedeck.Core.UsageSource.{worker_source_key}
use codedeck.Store.Events.{EventRow, Events, list_raw}
use codedeck.Store.Ledger.{Ledger, Observation, observe}
use codedeck.Store.Sessions.{Sessions, Lookup, found, missing, ambiguous, get, update}
use codedeck.Store.Sessions.Update.{SessionUpdate, no_update, put}

-- The tables that an event of a driver changes.
pub record Database : Type 0 where
  pub events : Events
  pub ledger : Ledger

-- A method that ran to its end, or threw after it wrote this much.
pub data Ran : Type 0 where
  done : Database → Ran
  threw : Database → Ran

abbrev pub and_then : Ran → (Database → Ran) → Ran
and_then (done db) next = next db
and_then (threw db) next = threw db

abbrev pub written : Database → Option Sessions → Ran
written db none = threw db
written db (some table) = done (record db { ledger = record db.ledger { sessions = table } })

abbrev pub run_update : Database → Text → SessionUpdate → ℕ → Ran
run_update db sid patch now = written db (update db.ledger.sessions sid patch now)

abbrev is_start : Body → Bool
is_start (session_started _) = true
is_start _ = false

-- `COUNT(*)` of the starts up to a sequence number.
unfoldable pub process_ordinal : Events → Text → ℕ → ℕ
process_ordinal events sid seq =
    length (filter_by (λ r. is_start r.event.body && leb r.sequence seq) (list_raw events sid))

abbrev is_amount : SessionUsage → Bool
is_amount u =
    is_some u.cost || is_some u.input_tokens || is_some u.output_tokens || is_some u.cached_tokens

abbrev has_usage : Body → Bool
has_usage (usage_updated _ usage _) = is_amount usage
has_usage _ = false

abbrev ordinal_at : Events → Text → Option EventRow → Option ℕ
ordinal_at events sid none = none
ordinal_at events sid (some r) = some (process_ordinal events sid r.sequence)

-- The ordinal of the process that reported usage before the event of this sequence number.
unfoldable pub previous_usage_process_ordinal : Events → Text → ℕ → Option ℕ
unfolding process_ordinal
previous_usage_process_ordinal events sid seq = ordinal_at events sid (
    last_or none (
      filter_by (λ r. has_usage r.event.body && leb r.sequence seq && not (eqb r.sequence seq))
        (list_raw events sid)))

abbrev is_same : ℕ → Option ℕ → Bool
is_same n none = true
is_same n (some m) = eqb m n

-- Whether usage from before the ledger may be booked on the incoming source.
unfoldable pub seeds_incoming : Events → Text → ℕ → Text → Bool
unfolding previous_usage_process_ordinal
seeds_incoming events sid seq source_key =
    if starts_with (codes "claude:") source_key
    then is_same (process_ordinal events sid seq) (previous_usage_process_ordinal events sid seq)
    else true

abbrev pub truthy_model : Option Text → Option Text
truthy_model none = none
truthy_model (some m) = if is_empty m then none else some m

abbrev model_patch : SessionUpdate → Option Text → SessionUpdate
model_patch patch model = elim (truthy_model model) [
  | none ↦ patch
  | some m ↦ record patch { model = put (some m) }
]

abbrev pub observed : Database → Option (Bool × Ledger) → Ran
observed db none = threw db
observed db (some (changed, ledger)) = done (record db { ledger = ledger })

abbrev pub update_model : Database → Text → ℕ → Option Text → Ran
update_model db sid now none = done db
update_model db sid now (some m) = run_update db sid (record no_update { model = put (some m) }) now

abbrev pub as_observation : SessionUsage → Option Text → Observation
as_observation u model = record {
  amounts = record {
    cost = u.cost;
    input_tokens = u.input_tokens;
    output_tokens = u.output_tokens;
    cached_tokens = u.cached_tokens;
  };
  model = model;
}

abbrev usage_or_none : Option SessionUsage → SessionUsage
usage_or_none o =
    get_or o
      (record { input_tokens = none; output_tokens = none; cached_tokens = none; cost = none })

abbrev plus : Option ℕ → Option ℕ → Option ℕ
plus a b = some (get_or a 0 + get_or b 0)

-- What is reported replaces what the session shows.
abbrev replaced_usage : SessionUsage → SessionUsage → SessionUsage
replaced_usage cur next = record {
  input_tokens = or_else next.input_tokens cur.input_tokens;
  output_tokens = or_else next.output_tokens cur.output_tokens;
  cached_tokens = or_else next.cached_tokens cur.cached_tokens;
  cost = or_else next.cost cur.cost;
}

abbrev usage_patch : SessionUsage → Option Text → SessionUpdate
usage_patch usage model = model_patch (record no_update { usage = some usage }) model

module _ ⦃fl : Floats⦄ where
  -- A source that reports its total so far.
  unfoldable pub observe_source : Database → Text → Text → SessionUsage → Option Text → ℕ → ℕ → Ran
  unfolding seeds_incoming
  observe_source db sid source_key usage model seq now =
      let seeds = seeds_incoming db.events sid seq source_key in
      and_then
        (observed db (observe sid source_key (as_observation usage model) seeds now db.ledger))
        (λ d. update_model d sid now (truthy_model model))

  -- What is reported is added to what the session shows.
  abbrev added_usage : SessionUsage → SessionUsage → SessionUsage
  added_usage cur next = record {
    input_tokens = plus cur.input_tokens next.input_tokens;
    output_tokens = plus cur.output_tokens next.output_tokens;
    cached_tokens = plus cur.cached_tokens next.cached_tokens;
    cost =
        if is_some cur.cost || is_some next.cost
        then some (fl.add (get_or cur.cost fl.zero_cost) (get_or next.cost fl.zero_cost))
        else none;
  }

  unfoldable pub note_report :
      Database → Text → Session → Bool → SessionUsage → Option Text → ℕ → ℕ → Option Text → Ran
  unfolding observe_source
  note_report db sid s true usage model seq now key =
      run_update db sid (usage_patch (added_usage (usage_or_none s.usage) usage) model) now
  note_report db sid s false usage model seq now (some source_key) =
      observe_source db sid source_key usage model seq now
  note_report db sid s false usage model seq now none =
      run_update db sid (usage_patch (replaced_usage (usage_or_none s.usage) usage) model) now

  abbrev pub note_found : Database → Text → Bool → SessionUsage → Option Text → ℕ → ℕ → Lookup → Ran
  note_found db sid incremental usage model seq now missing = done db
  note_found db sid incremental usage model seq now (ambiguous _) = threw db
  note_found db sid incremental usage model seq now (found s) =
      note_report db sid s incremental usage model seq now
        (worker_source_key s (process_ordinal db.events sid seq))

  unfoldable pub note_usage : Database → Text → Bool → SessionUsage → Option Text → ℕ → ℕ → Ran
  unfolding note_report
  note_usage db sid incremental usage model seq now =
      note_found db sid incremental usage model seq now (get db.ledger.sessions sid)
