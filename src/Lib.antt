-- ===== src/Lib.antt =====
-- A model of CodeDeck's core: the daemon that runs coding agents in sessions, the SQLite store
-- behind it, the runtime that reads an agent's output, the socket between the command line and
-- the daemon, and the guards of its web console.
--
-- The parts and how they interact. A harness (claude, codex, …) writes its frames to two log
-- files. `FileTailer` cuts them into lines with byte offsets; `SessionRuntime` turns lines into
-- events, keeps them in a buffer until the daemon takes them, and tells how far each file may be
-- skipped after a restart; `SessionDriver` keeps one runtime per session and builds the hooks that
-- a runtime calls. The daemon's loop takes a driver's events one at a time: one transaction
-- appends the event to `EventStore`, moves the offsets of the session's row and updates the row
-- and the `UsageLedger`; a transaction that finds the database busy is tried again, and only a
-- committed event is published. The daemon serves requests that come as lines of a socket:
-- `session.send` starts a turn or queues one message behind a busy session, `tryDispatch` turns a
-- queued message into a turn, and `web.ensure` asks `WebSupervisor` for a web console. The console
-- answers a request only after `checkWebRequest`. `ClaimsStore` lets sessions claim paths. A
-- harness that dies without a word is judged by `synthesizeTerminalEvent` and `classifyFailure`.
-- The model picker of the command line is a pure state machine over keys, and the review of local
-- changes parses git's patches.
--
-- The files.
--   Common           text, tests, lists and sorting that the parts share
--   Core/Session     src/core/session.ts
--   Core/Failure     src/core/errors.ts: classifyFailure, isStoreBusy, exitCodeForOutcome
--   Core/Event       src/core/events.ts
--   Core/UsageSource src/core/usage-source.ts
--   Drivers/Terminal src/drivers/terminal.ts
--   Drivers/Tailer   src/drivers/tailer.ts: processText, pump, flush, drainForShutdown
--   Drivers/Runtime  src/drivers/session-runtime.ts: handleLine, finish, stop, events; the
--                    invariant of the offsets is in Offsets, the lives of a runtime in
--                    Offsets/Histories, the consumer of the events in Delivery
--   Drivers/SessionDriver src/drivers/session-driver.ts: createRuntimeHooks, start, attach, send,
--                    stop, getHandle, getOffsets; Ending for a process that dies, Resumed for a
--                    resumed turn
--   Store/Events     src/store/events.ts
--   Store/Paths      src/store/claims.ts: normalizeRepoPath, with path.resolve and path.relative
--   Store/Claims     src/store/claims.ts: add, query, release, each one transaction
--   Store/Sessions   src/store/sessions.ts: Row for rowToSession and create, Update for update
--                    and setStatus, Lists for the lists
--   Store/Ledger     src/store/usage-ledger.ts: observe, seedSessionUsage, attributionsFor,
--                    hasSource, materialize; Totals and Conserved for what the amounts add up
--                    to, Shown and Again for what a report shows and for repeated reports
--   Store/Links      src/store/native-links.ts: the native ids of a session; Phases for their
--                    histories, Stale for staleOpenRows, with Order and Exact
--   Daemon           src/daemon/daemon.ts: the shared state; Resume for runResumeTurn, Send for
--                    session.send, Dispatch for tryDispatch, Stop for session.stop; Turns,
--                    Starts, Exclusion, Queue, Restored, Replies, Cancelled and Thrown for
--                    what holds of them; Stream for the end of attachDriverEvents,
--                    with Settled
--   Daemon/Persist   src/daemon/daemon.ts: persistDriverEvent and the loop of
--                    attachDriverEvents; Usage for updateSessionFromEvent, Events for what the
--                    event store holds, Published, Replays and Retry for the loop
--   Daemon/Ipc       src/daemon/ipc.ts: the client's request, and the server's connections; Lines
--                    for cutting lines, Chunks and Rounds for what holds of them
--   Daemon/WebSupervisor src/daemon/web-supervisor.ts: the decision of ensure, the arguments of a
--                    start, its outcomes and the handshake; Reuse for a repeated request
--   Daemon/AutoResume src/daemon/auto-resume.ts
--   Cli/Picker       src/cli/picker-state.ts: applyKey, visibleItems, hitCount; View, Choice and
--                    Typed for what holds of them
--   Web/Host         src/config/web-host.ts: webBaseUrl
--   Web/Security     src/web/security.ts; Granted and Cookies for what holds of it
--   Web/Server       src/web/server.ts: dispatchRequest, failRequest, parseWebPort; Routes for
--                    the requests that reach a route
--   Git/Review       src/git/review.ts: parseUnifiedDiff; Numbers for the numbers of its lines
--   Replay           the keys that a runtime gives its events, against the event store
--   Tests            runs of the laws on concrete data
--
-- State and steps. A table is the list of its rows; a statement of SQL is a function on it. A
-- handler of the daemon runs without interruption up to its `await`, so it is one function up to
-- the wait for the driver and one (`finish_turn`) after it; a turn that waits stands in `turns`.
-- An error is a value: `none`, or a reply with its code. Loops are recursion on lists, but for
-- `read_lines`, the loop that cuts lines off a socket's buffer: its fuel is the length of the
-- buffer, and each line takes at least one character away. Texts are lists of UTF-16 code units;
-- offsets, times and tokens are natural numbers, as they are exact below 2^53. A cost is the code of
-- a finite number of JavaScript. Case is folded for ASCII letters.
--
-- What is not under src/ is a parameter. Drivers, processes and the clock are asked through the
-- record `World`, a driver's parser is the record `Hooks`, minimatch is the record `Globs`;
-- the arithmetic of costs and SQLite's SUM are the record `Floats`, an instance argument;
-- JSON.parse, the decoding of a socket's chunk, net.isIP, the machine's interfaces and its host
-- name, the comparison of URLs, and a spawned process are arguments of the functions that use them.
--
-- Not modelled: spawning and killing processes, timers, the sockets themselves, the parsers of
-- the harnesses, the pricing and usage reports, the calls of git, configuration, the setup and the commands of
-- the command line, and the pages of the web console. Of the daemon, release, recovery and the
-- shutdown drain are not modelled, and a stop is not among the steps whose turns exclude each
-- other. Of the web supervisor, the wait for a start in flight, the stop of the child that a new
-- one replaces and close are not modelled. SQLite is taken to run each transaction alone.
pub mod Common
pub mod Core
pub mod Drivers
pub mod Git
pub mod Store
pub mod Cli
pub mod Web
pub mod Daemon
pub mod Replay
pub mod Tests
