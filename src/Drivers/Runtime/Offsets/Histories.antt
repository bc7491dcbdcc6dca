-- ===== src/Drivers/Runtime/Offsets/Histories.antt =====
-- The offsets over every life of a runtime: lines that come in, events that are delivered, and
-- the end of the process, in any order.
use codedeck.Common.{
  codes, if◌then◌else◌, codes, ℕ, ◌≤◌, ◌<◌, Text, ◌≡◌, refl, Bool, true, false, Option, none, some,
  List, [], ◌∷◌, arith, All, ◌||◌,
}
use codedeck.Core.Event.{AgentEvent}
use codedeck.Drivers.Runtime.{
  push_all, wants_terminal, terminal_context, TerminalContext, conclude, ended, StreamName, log,
  stderr, Runtime, Hooks, Line, safe_of, handle_line, handle_lines, push, next_event, wire, finish,
  stop, prepare_for_shutdown, drain_for_shutdown, resume_consumer,
}
use codedeck.Drivers.Runtime.Offsets.{Above, undelivered, IsSafe}
use codedeck.Drivers.Runtime.Offsets.Keeps.{wire-IsSafe}
use codedeck.Drivers.Runtime.Offsets.Deliver.{next_event-IsSafe}
use codedeck.Drivers.Runtime.Offsets.Lines.{behind_line, top-le-behind_line, raise-IsSafe}
use codedeck.Drivers.Runtime.Offsets.Ops.{
  SameFeed-IsSafe, push-IsSafe, push_all-IsSafe, handle_line-IsSafe, handle_lines-IsSafe, Forward,
  behind_lines,
}

behind_lines-le :
    (top : StreamName → ℕ) (ls : List Line) (s : StreamName)
    → Forward top ls
    → top s ≤ behind_lines top ls s
behind_lines-le top [] s f = omega arith
behind_lines-le top (l ∷ ls) s f = omega (
  arith,
  behind_lines-le (behind_line top l.stream l.offset) ls s f.1,
  top-le-behind_line top l.stream s l.offset (omega arith),
)

if-IsSafe :
    (top : StreamName → ℕ) (b : Bool) (x y : Runtime)
    → IsSafe top x
    → IsSafe top y
    → IsSafe top (if b then x else y)
if-IsSafe top true x y h k = h
if-IsSafe top false x y h k = k

conclude-IsSafe :
    (hooks : Hooks) (top : StreamName → ℕ) (rt : Runtime) (context : TerminalContext)
    → IsSafe top rt
    → IsSafe top (conclude hooks rt context)
unfolding conclude
conclude-IsSafe hooks top rt context v =
    if-IsSafe top (wants_terminal rt context) (push_all rt (hooks.synthesize_terminal context)) rt
      (push_all-IsSafe top rt (hooks.synthesize_terminal context) v) v

-- Flags, exit code and the count of consumed events bear on no offset.
flags-IsSafe :
    (top : StreamName → ℕ) (rt : Runtime) (stop_flag shutdown_flag : Bool) (consumed : ℕ)
    → IsSafe top rt
    → IsSafe top (record rt {
      stop_requested = stop_flag;
      shutdown_requested = shutdown_flag;
      consumed_events = consumed;
    })
flags-IsSafe top rt stop_flag shutdown_flag consumed v =
    SameFeed-IsSafe top rt _
      (record {
        buffers = refl;
        yields = refl;
        logs = refl;
        stderrs = refl;
        pending_logs = refl;
        pending_stderrs = refl;
      })
      v

module _ (hooks : Hooks) (top : StreamName → ℕ) (rt : Runtime) (ls : List Line) (f : Forward top ls)
    (v : IsSafe top rt) where
  unread-IsSafe : IsSafe (behind_lines top ls) rt
  unread-IsSafe = raise-IsSafe top (behind_lines top ls) rt (λ s. behind_lines-le top ls s f) v

  ended-IsSafe : (code : Option ℕ) → IsSafe (behind_lines top ls) (ended hooks rt ls code)
  unfolding ended
  ended-IsSafe code =
      SameFeed-IsSafe (behind_lines top ls) (handle_lines hooks rt ls) _
        (record {
          buffers = refl;
          yields = refl;
          logs = refl;
          stderrs = refl;
          pending_logs = refl;
          pending_stderrs = refl;
        })
        (handle_lines-IsSafe hooks top rt ls f v)

  finish-IsSafe :
      (code : Option ℕ) (signal : Option Text)
      → IsSafe (behind_lines top ls) (finish hooks rt ls code signal)
  unfolding finish
  finish-IsSafe code signal =
      if-IsSafe (behind_lines top ls) rt.done rt
        (conclude hooks (ended hooks rt ls code) (terminal_context (ended hooks rt ls code) signal))
        unread-IsSafe
        (conclude-IsSafe hooks (behind_lines top ls) (ended hooks rt ls code)
          (terminal_context (ended hooks rt ls code) signal) (ended-IsSafe code))

  drain-IsSafe : IsSafe (behind_lines top ls) (drain_for_shutdown hooks rt ls)
  unfolding drain_for_shutdown
  drain-IsSafe =
      if-IsSafe (behind_lines top ls) rt.done rt (ended hooks rt ls none) unread-IsSafe
        (ended-IsSafe none)

resume-IsSafe :
    (top : StreamName → ℕ) (rt : Runtime) → IsSafe top rt → IsSafe top (resume_consumer rt)
unfolding resume_consumer
resume-IsSafe top rt v = flags-IsSafe top rt rt.stop_requested rt.shutdown_requested _ v

prepare-IsSafe :
    (top : StreamName → ℕ) (rt : Runtime) → IsSafe top rt → IsSafe top (prepare_for_shutdown rt)
unfolding prepare_for_shutdown
prepare-IsSafe top rt v = flags-IsSafe top rt rt.stop_requested true rt.consumed_events v

stop-IsSafe :
    (hooks : Hooks) (top : StreamName → ℕ) (rt : Runtime) (ls : List Line) (before after : Bool)
    → Forward top ls
    → IsSafe top rt
    → IsSafe (behind_lines top ls) (stop hooks rt before after ls)
unfolding stop
stop-IsSafe hooks top rt ls before after f v =
    let v' = flags-IsSafe top rt true rt.shutdown_requested rt.consumed_events v in
    if-IsSafe (behind_lines top ls) (before || after)
      (finish hooks (record rt { stop_requested = true }) ls none (some (codes "SIGTERM")))
      (record rt { stop_requested = true })
      (finish-IsSafe hooks top (record rt { stop_requested = true }) ls f v' none
        (some (codes "SIGTERM")))
      (unread-IsSafe hooks top (record rt { stop_requested = true }) ls f v')

-- One life of a runtime that starts reading at `o` and `e`; the index is the end of the last line
-- of each stream.
pub data Life (hooks : Hooks) (o e : ℕ) : (StreamName → ℕ) → Runtime → Type 0 where
  wired :
      (top : StreamName → ℕ) (sid : Text) (native : Option Text)
      → o ≤ top log
      → e ≤ top stderr
      → Life hooks o e top (wire sid native o e)
  line :
      {top : StreamName → ℕ} {rt : Runtime} (l : Line)
      → Life hooks o e top rt
      → top l.stream < l.offset
      → Life hooks o e (behind_line top l.stream l.offset) (handle_line hooks rt l)
  delivered :
      {top : StreamName → ℕ} {rt rt' : Runtime} {ev : AgentEvent}
      → Life hooks o e top rt
      → next_event rt ≡ some (ev, rt')
      → Life hooks o e top rt'
  resumed :
      {top : StreamName → ℕ} {rt : Runtime}
      → Life hooks o e top rt
      → Life hooks o e top (resume_consumer rt)
  spawn_failed :
      {top : StreamName → ℕ} {rt : Runtime} (ev : AgentEvent)
      → Life hooks o e top rt
      → Life hooks o e top (push rt ev)
  finished :
      {top : StreamName → ℕ} {rt : Runtime} (ls : List Line) (code : Option ℕ)
      (signal : Option Text)
      → Life hooks o e top rt
      → Forward top ls
      → Life hooks o e (behind_lines top ls) (finish hooks rt ls code signal)
  stopped :
      {top : StreamName → ℕ} {rt : Runtime} (ls : List Line) (before after : Bool)
      → Life hooks o e top rt
      → Forward top ls
      → Life hooks o e (behind_lines top ls) (stop hooks rt before after ls)
  shutting_down :
      {top : StreamName → ℕ} {rt : Runtime}
      → Life hooks o e top rt
      → Life hooks o e top (prepare_for_shutdown rt)
  drained :
      {top : StreamName → ℕ} {rt : Runtime} (ls : List Line)
      → Life hooks o e top rt
      → Forward top ls
      → Life hooks o e (behind_lines top ls) (drain_for_shutdown hooks rt ls)

Life-IsSafe :
    (hooks : Hooks) (o e : ℕ) {top : StreamName → ℕ} {rt : Runtime}
    → Life hooks o e top rt
    → IsSafe top rt
Life-IsSafe hooks o e (wired top sid native ho he) = wire-IsSafe sid native o e top ho he
Life-IsSafe hooks o e (line {top} {rt} l life later) =
    handle_line-IsSafe hooks top rt l later (Life-IsSafe hooks o e life)
Life-IsSafe hooks o e (delivered {top} {rt} {rt'} {ev} life h) =
    next_event-IsSafe top rt rt' ev (Life-IsSafe hooks o e life) h
Life-IsSafe hooks o e (resumed {top} {rt} life) = resume-IsSafe top rt (Life-IsSafe hooks o e life)
Life-IsSafe hooks o e (spawn_failed {top} {rt} ev life) =
    push-IsSafe top rt ev (Life-IsSafe hooks o e life)
Life-IsSafe hooks o e (finished {top} {rt} ls code signal life f) =
    finish-IsSafe hooks top rt ls f (Life-IsSafe hooks o e life) code signal
Life-IsSafe hooks o e (stopped {top} {rt} ls before after life f) =
    stop-IsSafe hooks top rt ls before after f (Life-IsSafe hooks o e life)
Life-IsSafe hooks o e (shutting_down {top} {rt} life) =
    prepare-IsSafe top rt (Life-IsSafe hooks o e life)
Life-IsSafe hooks o e (drained {top} {rt} ls life f) =
    drain-IsSafe hooks top rt ls f (Life-IsSafe hooks o e life)

-- A runtime starts at two offsets that lie at or before the ends of its streams, and each line
-- that comes in ends behind the earlier ones of its stream. In whatever order lines come in,
-- events are delivered, and the process ends or is stopped, the offset to persist for a stream
-- lies before the end of every line of it with an event that is still to be delivered.
pub undelivered_reread :
    (hooks : Hooks) (o e : ℕ) (top : StreamName → ℕ) (rt : Runtime) (s : StreamName)
    → Life hooks o e top rt
    → All (Above s (safe_of rt s)) (undelivered rt)
undelivered_reread hooks o e top rt s life = (Life-IsSafe hooks o e life).safe_below s
