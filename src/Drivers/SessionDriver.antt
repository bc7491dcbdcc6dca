-- ===== src/Drivers/SessionDriver.antt =====
-- src/drivers/session-driver.ts: the hooks that a driver makes of its parser, and the map from
-- sessions to runtimes. Parsers, the arguments and environment of the harness, the spawn of its
-- process and `killTree` are inputs. A parser of stderr is taken not to throw.
pub mod Ending
pub mod Resumed
use codedeck.Common.{
  ℕ, Text, codes, Bool, true, false, Option, none, some, List, [], ◌∷◌, ◌++◌, ◌==◌, ◌&&◌, not, map,
  or_else, is_empty, trim, eqb, if◌then◌else◌,
}
use codedeck.Core.Event.{AgentEvent, Body, session_started, text_delta}
use codedeck.Drivers.Runtime.{
  StreamName, log, stderr, LineOutcome, TerminalContext, Hooks, Runtime, wire, reattach, stop, Line,
}
use codedeck.Drivers.Terminal.{Exit, synthesize_terminal_event}

-- An event of the parser, and the native id in the frame that it was made of.
pub record Parsed : Type 0 where
  pub event : AgentEvent
  pub raw_native : Option Text

-- What the parser made of a line, or the message of the error that it threw.
pub data Parse : Type 0 where
  parsed : List Parsed → Parse
  threw : Text → Parse

pub record SessionDriverHookOptions : Type 0 where
  pub parse : Text → Text → Parse
  pub harness : Text
  pub parse_stderr : Option (Text → Text → Option AgentEvent)
  pub plain_text_fallback : Bool
  pub is_json : Text → Bool  -- safeJsonParse(line) is not null
  pub native_in_line : Text → Option Text  -- nativeIdFrom(safeJsonParse(line), nativeKeys)

abbrev event_native : Body → Option Text
event_native (session_started (some id)) = if is_empty id then none else some id
event_native _ = none

abbrev ids_of : Option Text → List Text
ids_of none = []
ids_of (some id) = id ∷ []

abbrev parsed_ids : List Parsed → List Text
parsed_ids [] = []
parsed_ids (p ∷ ps) = ids_of (or_else (event_native p.event.body) p.raw_native) ++ parsed_ids ps

abbrev pub nothing : LineOutcome
nothing = record { pushed = []; native_ids = []; thrown = none }

abbrev pub pushes : Option AgentEvent → LineOutcome
pushes none = nothing
pushes (some ev) = record { pushed = ev ∷ []; native_ids = []; thrown = none }

abbrev no_events : List Parsed → Bool
no_events [] = true
no_events (p ∷ ps) = false

module _ (options : SessionDriverHookOptions) (session_id : Text) (now : ℕ) where
  abbrev pub plain_text : Text → AgentEvent
  plain_text line = record {
    session_id = session_id;
    timestamp = now;
    source_key = none;
    body = text_delta (line ++ codes "\n");
  }

  abbrev falls_back : Text → List Parsed → Bool
  falls_back line ps =
      options.plain_text_fallback
      && no_events ps
      && not (is_empty (trim line))
      && not (trim line == codes "null")
      && not (options.is_json line)

  unfoldable pub on_stdout : Text → Parse → LineOutcome
  on_stdout line (threw reason) = record { pushed = []; native_ids = []; thrown = some reason }
  on_stdout line (parsed ps) = record {
    pushed = map (λ p. p.event) ps ++ (if falls_back line ps then plain_text line ∷ [] else []);
    native_ids = parsed_ids ps ++ ids_of (options.native_in_line line);
    thrown = none;
  }

  abbrev on_stderr : Text → LineOutcome
  on_stderr line = elim options.parse_stderr [
    | none ↦ nothing
    | some parse ↦ pushes (parse line session_id)
  ]

  abbrev pub events_of : Option AgentEvent → List AgentEvent
  events_of none = []
  events_of (some ev) = ev ∷ []

  abbrev pub exit_of : TerminalContext → Exit
  exit_of ctx = record {
    session_id = session_id;
    harness = options.harness;
    exit_code = ctx.exit_code;
    signal = ctx.signal;
    has_terminal = ctx.has_terminal;
    has_message = ctx.has_message;
    stderr = ctx.stderr_text;
    ended_on_turn_completed = ctx.ended_on_turn_completed;
  }

  abbrev line_hook : StreamName → Text → LineOutcome
  line_hook log line = on_stdout line (options.parse line session_id)
  line_hook stderr line = on_stderr line

  unfoldable pub create_runtime_hooks : Hooks
  unfolding on_stdout
  create_runtime_hooks = record {
    on_line = line_hook;
    synthesize_terminal = λ ctx. events_of (synthesize_terminal_event (exit_of ctx) now);
  }

-- A session as its driver knows it; the options that a resumed turn passes on unread are left out.
pub record DriverSession : Type 0 where
  pub id : Text
  pub native_session_id : Option Text
  pub pid : Option ℕ
  pub pid_start_time : Option Text
  pub cwd : Text

pub record ReattachRequest : Type 0 where
  pub session_id : Text
  pub pid : Option ℕ
  pub native_session_id : Option Text
  pub log_offset : Option ℕ
  pub stderr_offset : Option ℕ

-- What a spawn finds: the pid, and the sizes of the log files before it.
pub record Spawned : Type 0 where
  pub pid : ℕ
  pub stdout_offset : ℕ
  pub stderr_offset : ℕ

abbrev pub Handles : Type 0
Handles = List (Text × Runtime)

unfoldable pub get_handle : Handles → Text → Option Runtime
get_handle [] id = none
get_handle (h ∷ hs) id = let rest = get_handle hs id in if h.0 == id then some h.1 else rest

-- `handles.set`
unfoldable pub set_handle : Handles → Text → Runtime → Handles
set_handle [] id rt = (id, rt) ∷ []
set_handle (h ∷ hs) id rt =
    let rest = set_handle hs id rt in if h.0 == id then (id, rt) ∷ hs else h ∷ rest

abbrev pub truthy : Option Text → Option Text
truthy none = none
truthy (some t) = if is_empty t then none else some t

abbrev live_pid : Option ℕ → Option ℕ
live_pid none = none
live_pid (some n) = if eqb n 0 then none else some n

unfoldable pub start : Handles → Text → Text → Option Text → Spawned → Handles × DriverSession
unfolding set_handle
start handles id cwd resume_id spawned =
    let rt = wire id resume_id spawned.stdout_offset spawned.stderr_offset in
    (
      set_handle handles id rt,
      record {
        id = id;
        native_session_id = rt.native_session_id;
        pid = some spawned.pid;
        pid_start_time = none;
        cwd = cwd;
      },
    )

unfoldable pub attach : Handles → ReattachRequest → Handles
unfolding set_handle
attach handles req = elim (live_pid req.pid) [
  | none ↦ handles
  | some pid ↦
      set_handle handles req.session_id
        (reattach req.session_id req.native_session_id req.log_offset req.stderr_offset)
]

abbrev pub native_of : Option Runtime → Option Text
native_of none = none
native_of (some rt) = rt.native_session_id

-- `session.nativeSessionId || runtime?.nativeSessionId`
unfoldable pub resume_id : Handles → DriverSession → Option Text
unfolding get_handle
resume_id handles session =
    truthy (or_else (truthy session.native_session_id) (native_of (get_handle handles session.id)))

abbrev pub resumed : DriverSession → Text → Handles × DriverSession → Handles × DriverSession
resumed session native_id r = (
  r.0,
  record session {
    pid = r.1.pid;
    native_session_id =
        some (elim (truthy r.1.native_session_id) [ none ↦ native_id | some n ↦ n ]);
  },
)

abbrev pub send_to :
    Handles → DriverSession → Spawned → Option Text → Option (Handles × DriverSession)
send_to handles session spawned none = none
send_to handles session spawned (some native_id) =
    some (resumed session native_id (start handles session.id session.cwd (some native_id) spawned))

-- `none` stands for the driver's resume error.
unfoldable pub send : Handles → DriverSession → Spawned → Option (Handles × DriverSession)
unfolding start resume_id
send handles session spawned = send_to handles session spawned (resume_id handles session)

pub data Stopped : Type 0 where
  through_runtime : Runtime → Stopped
  killed : ℕ → Text → Stopped  -- killTree(pid, 3000, start time)
  nothing_to_stop unsafe : Stopped

-- A process without a runtime is killed only under the identity that was recorded for it.
abbrev stop_process : Option ℕ → Option Text → Stopped
stop_process none start_time = nothing_to_stop
stop_process (some pid) none = unsafe
stop_process (some pid) (some start_time) =
    if is_empty start_time then unsafe else killed pid start_time

abbrev stop_with : Hooks → DriverSession → Bool → Bool → List Line → Option Runtime → Stopped
stop_with hooks session gone_before gone_after lines (some rt) =
    through_runtime (stop hooks rt gone_before gone_after lines)
stop_with hooks session gone_before gone_after lines none =
    stop_process (live_pid session.pid) session.pid_start_time

unfoldable pub stop_session : Hooks → Handles → DriverSession → Bool → Bool → List Line → Stopped
unfolding get_handle
stop_session hooks handles session gone_before gone_after lines =
    stop_with hooks session gone_before gone_after lines (get_handle handles session.id)

abbrev offsets_of : Option Runtime → Option (ℕ × ℕ)
offsets_of none = none
offsets_of (some rt) = some (rt.safe_log_offset, rt.safe_stderr_offset)

unfoldable pub get_offsets : Handles → Text → Option (ℕ × ℕ)
unfolding get_handle
get_offsets handles id = offsets_of (get_handle handles id)
