-- ===== src/Drivers/Runtime.antt =====
-- src/drivers/session-runtime.ts: the event feed of one harness process. The log files are read
-- by the tailer, which hands over complete lines; `Hooks` is what a driver supplies. An event is
-- kept with its boundary, for the map from events to boundaries. Emitter, timers and the files
-- themselves are left out: a call that drains the files takes the lines that the drain finds.
pub mod Offsets
pub mod Delivery
use codedeck.Common.{
  ℕ, zero, suc, ◌+◌, max, Text, codes, Bool, true, false, Option, none, some, List, [], ◌∷◌, ◌++◌,
  ◌&&◌, ◌||◌, not, eqb, ltb, leb, any, length, drop, take, is_empty, is_some, get_or, last_or,
  if◌then◌else◌, filter_by,
}
use codedeck.Core.Failure.{decimal, FailureInfo, failure_info, spawn_failed, infra}
use codedeck.Core.Event.{
  AgentEvent, Body, error, message, text_delta, turn_completed, usage_updated, session_failed,
  is_terminal_event,
}

pub data StreamName : Type 0 where
  log stderr : StreamName

pub record EventBoundary : Type 0 where
  pub stream : StreamName
  pub offset : ℕ
  pub last : Bool

pub record PendingNoEvent : Type 0 where
  pub before_event_count : ℕ
  pub offset : ℕ

pub record Entry : Type 0 where
  pub event : AgentEvent
  pub boundary : Option EventBoundary

-- What a hook did with a line: the events it pushed, the native ids it found, and the message of
-- the error that it threw, if it threw one.
pub record LineOutcome : Type 0 where
  pub pushed : List AgentEvent
  pub native_ids : List Text
  pub thrown : Option Text

pub record TerminalContext : Type 0 where
  pub exit_code : Option ℕ
  pub signal : Option Text
  pub has_terminal : Bool
  pub has_message : Bool
  pub stderr_text : Text
  pub ended_on_turn_completed : Bool

pub record Hooks : Type 0 where
  pub on_line : StreamName → Text → LineOutcome
  pub synthesize_terminal : TerminalContext → List AgentEvent

pub record Runtime : Type 0 where
  pub session_id : Text
  pub buffer : List Entry
  pub done : Bool
  pub exit_code : Option ℕ
  pub native_session_id : Option Text
  pub stderr_buf : Text
  pub stop_requested : Bool
  pub shutdown_requested : Bool
  pub safe_log_offset : ℕ
  pub safe_stderr_offset : ℕ
  pub yielded_events : ℕ
  pub consumed_events : ℕ
  pub pending_log : Option PendingNoEvent
  pub pending_stderr : Option PendingNoEvent

-- The constructor, and `wire` with the offsets at which the files are read.
unfoldable pub wire : Text → Option Text → ℕ → ℕ → Runtime
wire session_id native_session_id stdout_offset stderr_offset = record {
  session_id = session_id;
  buffer = [];
  done = false;
  exit_code = none;
  native_session_id = native_session_id;
  stderr_buf = [];
  stop_requested = false;
  shutdown_requested = false;
  safe_log_offset = stdout_offset;
  safe_stderr_offset = stderr_offset;
  yielded_events = 0;
  consumed_events = 0;
  pending_log = none;
  pending_stderr = none;
}

unfoldable pub reattach : Text → Option Text → Option ℕ → Option ℕ → Runtime
unfolding wire
reattach session_id native_session_id log_offset stderr_offset =
    wire session_id native_session_id (get_or log_offset 0) (get_or stderr_offset 0)

abbrev pub safe_of : Runtime → StreamName → ℕ
safe_of rt log = rt.safe_log_offset
safe_of rt stderr = rt.safe_stderr_offset

abbrev pub pending_of : Runtime → StreamName → Option PendingNoEvent
pending_of rt log = rt.pending_log
pending_of rt stderr = rt.pending_stderr

abbrev pub set_pending : Runtime → StreamName → Option PendingNoEvent → Runtime
set_pending rt log p = record rt { pending_log = p }
set_pending rt stderr p = record rt { pending_stderr = p }

unfoldable pub mark_safe_offset : Runtime → StreamName → ℕ → Runtime
mark_safe_offset rt log offset = record rt { safe_log_offset = max rt.safe_log_offset offset }
mark_safe_offset rt stderr offset = record rt {
  safe_stderr_offset = max rt.safe_stderr_offset offset;
}

-- One round of the loop of `flushPendingOffsets`.
unfoldable pub flush_stream : Runtime → StreamName → Option PendingNoEvent → Runtime
unfolding mark_safe_offset
flush_stream rt stream none = rt
flush_stream rt stream (some p) =
    if leb p.before_event_count rt.yielded_events
    then set_pending (mark_safe_offset rt stream p.offset) stream none
    else rt

unfoldable pub flush_pending_offsets : Runtime → Runtime
unfolding flush_stream
flush_pending_offsets rt =
    let rt' = flush_stream rt log rt.pending_log in flush_stream rt' stderr rt'.pending_stderr

unfoldable pub mark_boundary : Runtime → Option EventBoundary → Runtime
unfolding mark_safe_offset
mark_boundary rt none = rt
mark_boundary rt (some b) = if b.last then mark_safe_offset rt b.stream b.offset else rt

unfoldable pub mark_event_yielded : Runtime → Entry → Runtime
unfolding mark_boundary flush_pending_offsets
mark_event_yielded rt entry = flush_pending_offsets (mark_boundary rt entry.boundary)

-- `push`: the event gets the session's id and stands last in the buffer.
unfoldable pub push : Runtime → AgentEvent → Runtime
push rt ev = record rt {
  buffer =
      rt.buffer
      ++ (record { event = record ev { session_id = rt.session_id }; boundary = none } ∷ []);
}

unfoldable pub push_all : Runtime → List AgentEvent → Runtime
unfolding push
push_all rt [] = rt
push_all rt (ev ∷ evs) = push_all (push rt ev) evs

-- The first native id that is found stays.
unfoldable pub set_native_id : Runtime → Text → Runtime
set_native_id rt id =
    if not (is_empty id) && not (is_some rt.native_session_id)
    then record rt { native_session_id = some id }
    else rt

unfoldable pub set_native_ids : Runtime → List Text → Runtime
unfolding set_native_id
set_native_ids rt [] = rt
set_native_ids rt (id ∷ ids) = set_native_ids (set_native_id rt id) ids

abbrev stream_text : StreamName → Text
stream_text log = codes "log"
stream_text stderr = codes "stderr"

-- `${stream}:${offset}:${index}`
unfoldable pub source_key : StreamName → ℕ → ℕ → Text
source_key stream offset index =
    stream_text stream ++ (codes ":" ++ (decimal offset ++ (codes ":" ++ decimal index)))

-- The events that a line leads to: those pushed before an error is thrown, and the error.
unfoldable pub line_events : StreamName → ℕ → LineOutcome → List AgentEvent
line_events stream now outcome = elim outcome.thrown [
  | none ↦ outcome.pushed
  | some reason ↦
      outcome.pushed
      ++ (record {
        session_id = [];
        timestamp = now;
        source_key = none;
        body =
            error (codes "failed to parse " ++ (stream_text stream ++ (codes " line: " ++ reason)));
      }
          ∷ [])
]

abbrev no_more : List AgentEvent → Bool
no_more [] = true
no_more (e ∷ es) = false

-- The events of one line as they stand in the buffer after the loop over the added ones.
unfoldable pub line_entries : Text → StreamName → ℕ → ℕ → List AgentEvent → List Entry
unfolding source_key
line_entries sid stream offset index [] = []
line_entries sid stream offset index (ev ∷ evs) =
    record {
      event = record ev { session_id = sid; source_key = some (source_key stream offset index) };
      boundary = some (record { stream = stream; offset = offset; last = no_more evs });
    }
    ∷ line_entries sid stream offset (suc index) evs

abbrev pub keep_stderr : StreamName → Text → Text → Text
keep_stderr log buf line = buf
keep_stderr stderr buf line =
    let whole = buf ++ (line ++ codes "\n") in
    let surplus = Prim.Native.Nat.◌-◌ (length whole) 65536 in drop surplus whole

-- `handleLine` for what the hook made of the line.
unfoldable pub handle_events : Runtime → StreamName → ℕ → List AgentEvent → Runtime
unfolding flush_pending_offsets line_entries
handle_events rt stream offset [] = flush_pending_offsets (
    set_pending rt stream
      (some (record { before_event_count = length rt.buffer; offset = offset })))
handle_events rt stream offset (ev ∷ evs) = record rt {
  buffer = rt.buffer ++ line_entries rt.session_id stream offset 0 (ev ∷ evs);
}

-- A line as the tailer hands it over, with the offset behind it and the time.
pub record Line : Type 0 where
  pub stream : StreamName
  pub text : Text
  pub offset : ℕ
  pub now : ℕ

-- The tailer's callback: stderr text is kept for the classification.
unfoldable pub handle_line : Hooks → Runtime → Line → Runtime
unfolding handle_events line_events set_native_ids
handle_line hooks rt l =
    let outcome = hooks.on_line l.stream l.text in
    let kept = record rt { stderr_buf = keep_stderr l.stream rt.stderr_buf l.text } in
    handle_events (set_native_ids kept outcome.native_ids) l.stream l.offset
      (line_events l.stream l.now outcome)

unfoldable pub handle_lines : Hooks → Runtime → List Line → Runtime
unfolding handle_line
handle_lines hooks rt [] = rt
handle_lines hooks rt (l ∷ ls) = handle_lines hooks (handle_line hooks rt l) ls

abbrev is_message : Body → Bool
is_message (message _ _) = true
is_message (text_delta _) = true
is_message _ = false

abbrev is_usage : Body → Bool
is_usage (usage_updated _ _ _) = true
is_usage _ = false

abbrev is_turn_completed : Body → Bool
is_turn_completed (turn_completed _) = true
is_turn_completed _ = false

abbrev ends_turn : Option Entry → Bool
ends_turn none = false
ends_turn (some e) = is_turn_completed e.event.body

unfoldable pub terminal_context : Runtime → Option Text → TerminalContext
terminal_context rt signal = record {
  exit_code = rt.exit_code;
  signal = signal;
  has_terminal = any (λ e. is_terminal_event e.event) rt.buffer;
  has_message = any (λ e. is_message e.event.body) rt.buffer;
  stderr_text = rt.stderr_buf;
  ended_on_turn_completed =
      ends_turn (last_or none (filter_by (λ e. not (is_usage e.event.body)) rt.buffer));
}

-- Nobody said how the process ended, and it was neither stopped nor shut down.
unfoldable pub wants_terminal : Runtime → TerminalContext → Bool
wants_terminal rt context =
    not context.has_terminal && not rt.stop_requested && not rt.shutdown_requested

-- The end of `finish`: a terminal event is synthesized where it is wanted.
unfoldable pub conclude : Hooks → Runtime → TerminalContext → Runtime
unfolding push_all wants_terminal
conclude hooks rt context =
    if wants_terminal rt context then push_all rt (hooks.synthesize_terminal context) else rt

-- The state when both files are drained to their ends.
unfoldable pub ended : Hooks → Runtime → List Line → Option ℕ → Runtime
unfolding handle_lines
ended hooks rt lines exit_code = record (handle_lines hooks rt lines) {
  exit_code = exit_code;
  done = true;
}

-- `finish`, with the lines that the final drain of both files finds.
unfoldable pub finish : Hooks → Runtime → List Line → Option ℕ → Option Text → Runtime
unfolding ended conclude terminal_context
finish hooks rt lines exit_code signal =
    let rt' = ended hooks rt lines exit_code in
    if rt.done then rt else conclude hooks rt' (terminal_context rt' signal)

-- The handler of a failed spawn: the event is pushed, and the runtime is finished.
unfoldable pub spawn_error : Hooks → Runtime → Text → Bool → ℕ → List Line → Runtime
unfolding push finish
spawn_error hooks rt reason missing now lines =
    finish hooks
      (push rt (record {
        session_id = rt.session_id;
        timestamp = now;
        source_key = none;
        body =
            session_failed reason
              (some
                (record (failure_info spawn_failed infra (not missing)) { detail = some reason }))
              none;
      }))
      lines none none

unfoldable pub is_drained : Runtime → Bool
is_drained rt = rt.done && leb (length rt.buffer) rt.consumed_events

-- `stop`: whether the process is gone before the kill, or else after it.
unfoldable pub stop : Hooks → Runtime → Bool → Bool → List Line → Runtime
unfolding finish
stop hooks rt gone_before gone_after lines =
    let stopping = record rt { stop_requested = true } in
    let finished = finish hooks stopping lines none (some (codes "SIGTERM")) in
    if gone_before || gone_after then finished else stopping

unfoldable pub prepare_for_shutdown : Runtime → Runtime
prepare_for_shutdown rt = record rt { shutdown_requested = true }

unfoldable pub drain_for_shutdown : Hooks → Runtime → List Line → Runtime
unfolding ended
drain_for_shutdown hooks rt lines = if rt.done then rt else ended hooks rt lines none

abbrev pub head_entry : List Entry → Option Entry
head_entry [] = none
head_entry (e ∷ es) = some e

unfoldable pub yield_entry : Runtime → Option Entry → Option (AgentEvent × Runtime)
unfolding mark_event_yielded
yield_entry rt none = none
yield_entry rt (some e) =
    some (e.event, mark_event_yielded (record rt { yielded_events = rt.yielded_events + 1 }) e)

-- One `yield` of the generator `events()`: its index is `yieldedEvents`, for the one consumer
-- that the daemon attaches.
unfoldable pub next_event : Runtime → Option (AgentEvent × Runtime)
unfolding yield_entry
next_event rt = yield_entry rt (head_entry (drop rt.yielded_events rt.buffer))

-- The consumer comes back for the next event.
unfoldable pub resume_consumer : Runtime → Runtime
resume_consumer rt = record rt { consumed_events = rt.consumed_events + 1 }
