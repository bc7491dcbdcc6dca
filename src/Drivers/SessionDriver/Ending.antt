-- ===== src/Drivers/SessionDriver/Ending.antt =====
-- `finish` of src/drivers/session-runtime.ts under the hooks of src/drivers/session-driver.ts,
-- which ask `synthesizeTerminalEvent` of src/drivers/terminal.ts.
use codedeck.Common.{
  if_cases, eqb, trim, codes, ℕ, ◌+◌, max, Text, ◌≡◌, refl, sym, ap, ◌∙◌, true, false, Option, none,
  some, List, [], ◌∷◌, ◌++◌, ◌&&◌, not, length, any, arith, if_both, if◌then◌else◌, leb, is_empty,
  is_some,
}
use mathlib.Core.List.{append-nil}
use codedeck.Core.Event.{session_completed, AgentEvent, is_terminal_event, is_terminal_body}
use codedeck.Drivers.Terminal.{
  at_exit, Exit, synthesize_terminal_event, exited_body, finished_unseen, failed_body,
}
use codedeck.Drivers.Runtime.{
  StreamName, log, stderr, Hooks, Runtime, Line, Entry, PendingNoEvent, TerminalContext,
  flush_stream, flush_pending_offsets, mark_safe_offset, set_pending, set_native_id, set_native_ids,
  handle_events, handle_line, handle_lines, line_events, push, push_all, conclude, wants_terminal,
  terminal_context, ended, finish, keep_stderr,
}
use codedeck.Drivers.SessionDriver.{
  SessionDriverHookOptions, create_runtime_hooks, exit_of, events_of,
}

-- The number of terminal events in a buffer.
abbrev pub terminals : List Entry → ℕ
terminals [] = 0
terminals (e ∷ es) = (if is_terminal_event e.event then 1 else 0) + terminals es

terminals-append : (xs ys : List Entry) → terminals (xs ++ ys) ≡ terminals xs + terminals ys
terminals-append [] ys = omega arith
terminals-append (x ∷ xs) ys = ground (arith, terminals-append xs ys)

no_terminal : (es : List Entry) → any (λ e. is_terminal_event e.event) es ≡ false → terminals es ≡ 0
no_terminal [] h = refl
no_terminal (e ∷ es) h = ground (arith, no_terminal es)

one_terminal :
    (es : List Entry)
    → any (λ e. is_terminal_event e.event) es ≡ true
    → max 1 (terminals es) ≡ terminals es
one_terminal [] h = ground arith
one_terminal (e ∷ es) h = ground (arith, one_terminal es)

-- Nobody asked for the end of the process.
abbrev IsUnasked : Runtime → Type 0
IsUnasked rt = (rt.stop_requested ≡ false) × (rt.shutdown_requested ≡ false)

flush_stream-IsUnasked :
    (rt : Runtime) (s : StreamName) (p : Option PendingNoEvent)
    → IsUnasked rt
    → IsUnasked (flush_stream rt s p)
unfolding flush_stream mark_safe_offset
flush_stream-IsUnasked rt s none h = h
flush_stream-IsUnasked rt log (some p) h =
    if_both IsUnasked (leb p.before_event_count rt.yielded_events) h h
flush_stream-IsUnasked rt stderr (some p) h =
    if_both IsUnasked (leb p.before_event_count rt.yielded_events) h h

set_native_ids-IsUnasked :
    (rt : Runtime) (ids : List Text) → IsUnasked rt → IsUnasked (set_native_ids rt ids)
unfolding set_native_ids set_native_id
set_native_ids-IsUnasked rt [] h = h
set_native_ids-IsUnasked rt (id ∷ ids) h =
    set_native_ids-IsUnasked (set_native_id rt id) ids
      (if_both IsUnasked (not (is_empty id) && not (is_some rt.native_session_id)) h h)

flush-IsUnasked : (rt : Runtime) → IsUnasked rt → IsUnasked (flush_pending_offsets rt)
unfolding flush_pending_offsets
flush-IsUnasked rt h =
    let first = flush_stream rt log rt.pending_log in
    flush_stream-IsUnasked first stderr first.pending_stderr
      (flush_stream-IsUnasked rt log rt.pending_log h)

set_pending-IsUnasked :
    (rt : Runtime) (s : StreamName) (p : Option PendingNoEvent)
    → IsUnasked rt
    → IsUnasked (set_pending rt s p)
set_pending-IsUnasked rt log p h = h
set_pending-IsUnasked rt stderr p h = h

handle_events-IsUnasked :
    (rt : Runtime) (s : StreamName) (offset : ℕ) (evs : List AgentEvent)
    → IsUnasked rt
    → IsUnasked (handle_events rt s offset evs)
unfolding handle_events
handle_events-IsUnasked rt s offset (ev ∷ evs) h = h
handle_events-IsUnasked rt s offset [] h =
    let p = some (record { before_event_count = length rt.buffer; offset = offset }) in
    flush-IsUnasked (set_pending rt s p) (set_pending-IsUnasked rt s p h)

handle_line-IsUnasked :
    (hooks : Hooks) (rt : Runtime) (l : Line) → IsUnasked rt → IsUnasked (handle_line hooks rt l)
unfolding handle_line
handle_line-IsUnasked hooks rt l h =
    let outcome = hooks.on_line l.stream l.text in
    let kept = record rt { stderr_buf = keep_stderr l.stream rt.stderr_buf l.text } in
    handle_events-IsUnasked (set_native_ids kept outcome.native_ids) l.stream l.offset
      (line_events l.stream l.now outcome) (set_native_ids-IsUnasked kept outcome.native_ids h)

handle_lines-IsUnasked :
    (hooks : Hooks) (rt : Runtime) (lines : List Line)
    → IsUnasked rt
    → IsUnasked (handle_lines hooks rt lines)
unfolding handle_lines
handle_lines-IsUnasked hooks rt [] h = h
handle_lines-IsUnasked hooks rt (l ∷ lines) h =
    handle_lines-IsUnasked hooks (handle_line hooks rt l) lines (handle_line-IsUnasked hooks rt l h)

exited-terminal : (input : Exit) (o : Option ℕ) → is_terminal_body (exited_body input o) ≡ true
unfolding exited_body failed_body
exited-terminal input none = refl
exited-terminal input (some n) =
    if_both (λ b. is_terminal_body b ≡ true) (eqb n 0)
      (if_both (λ b. is_terminal_body b ≡ true)
        (not input.has_message && not (is_empty (trim input.stderr))) refl refl)
      refl

synthesize-terminal :
    (input : Exit) (now : ℕ)
    → input.has_terminal ≡ false
    → (ev : AgentEvent) × (synthesize_terminal_event input now ≡ some ev)
      × (is_terminal_event ev ≡ true)
unfolding synthesize_terminal_event is_terminal_event
synthesize-terminal input now h =
    let body =
      if finished_unseen input
      then session_completed (some (codes "turn completed; exit not observed")) none
      else exited_body input input.exit_code in
    (
      at_exit input now body,
      rw h refl,
      if_both (λ b. is_terminal_body b ≡ true) (finished_unseen input) refl
          (exited-terminal input input.exit_code),
    )

module _ (options : SessionDriverHookOptions) (sid : Text) (now : ℕ) where
  abbrev pub hooks : Hooks
  hooks = create_runtime_hooks options sid now

  -- What is synthesized is one terminal event.
  pushed_one :
      (rt : Runtime) (ev : AgentEvent)
      → is_terminal_event ev ≡ true
      → terminals (push_all rt (ev ∷ [])).buffer ≡ terminals rt.buffer + 1
  unfolding push_all push is_terminal_event
  pushed_one rt ev h =
      terminals-append rt.buffer
        (record { event = record ev { session_id = rt.session_id }; boundary = none } ∷ [])
      ∙ ap (λ b. terminals rt.buffer + ((if b then 1 else 0) + 0)) h
      ∙ omega arith

  synthesized :
      (rt : Runtime) (ctx : TerminalContext)
      → ctx.has_terminal ≡ false
      → terminals (push_all rt (hooks.synthesize_terminal ctx)).buffer ≡ terminals rt.buffer + 1
  unfolding create_runtime_hooks
  synthesized rt ctx h =
      let given = synthesize-terminal (exit_of options sid now ctx) now h in
      ap (λ o. terminals (push_all rt (events_of options sid now o)).buffer) given.1
      ∙ pushed_one rt given.0 given.2

  concluded :
      (rt : Runtime) (signal : Option Text)
      → IsUnasked rt
      → terminals (conclude hooks rt (terminal_context rt signal)).buffer
        ≡ max 1 (terminals rt.buffer)
  unfolding conclude wants_terminal terminal_context
  concluded rt signal h =
      let ctx = terminal_context rt signal in
      if_cases (λ (r : Runtime). terminals r.buffer ≡ max 1 (terminals rt.buffer))
        (wants_terminal rt ctx)
        (λ w.
          let silent : ctx.has_terminal ≡ false = ground (arith, w) in
          synthesized rt ctx silent ∙ omega (arith, no_terminal rt.buffer silent))
        (λ w. sym (one_terminal rt.buffer (ground (arith, w, h.0, h.1))))

  -- What a runtime adds to its buffer for a terminal event of `synthesizeTerminalEvent`, if any.
  abbrev pub added : Runtime → Option AgentEvent → List Entry
  added rt none = []
  added rt (some ev) =
      record { event = record ev { session_id = rt.session_id }; boundary = none } ∷ []

  -- What `synthesizeTerminalEvent` makes of the way in which the process ended.
  abbrev pub synthesized_at : Runtime → Option Text → Option AgentEvent
  synthesized_at rt signal =
      synthesize_terminal_event (exit_of options sid now (terminal_context rt signal)) now

  push_all-added :
      (rt : Runtime) (o : Option AgentEvent)
      → (push_all rt (events_of options sid now o)).buffer ≡ rt.buffer ++ added rt o
  unfolding push_all push
  push_all-added rt none = sym (append-nil rt.buffer)
  push_all-added rt (some ev) = refl

  spoken-added :
      (rt : Runtime) (signal : Option Text)
      → any (λ e. is_terminal_event e.event) rt.buffer ≡ true
      → rt.buffer ≡ rt.buffer ++ added rt (synthesized_at rt signal)
  unfolding synthesize_terminal_event terminal_context
  spoken-added rt signal h = rw h (sym (append-nil rt.buffer))

  conclude-added :
      (rt : Runtime) (signal : Option Text)
      → IsUnasked rt
      → (conclude hooks rt (terminal_context rt signal)).buffer
        ≡ rt.buffer ++ added rt (synthesized_at rt signal)
  unfolding conclude wants_terminal create_runtime_hooks terminal_context
  conclude-added rt signal h =
      let ctx = terminal_context rt signal in
      if_cases (λ (r : Runtime). r.buffer ≡ rt.buffer ++ added rt (synthesized_at rt signal))
        (wants_terminal rt ctx) (λ w. push_all-added rt (synthesized_at rt signal))
        (λ w. spoken-added rt signal (ground (arith, w, h.0, h.1)))

  -- When a process ends that nobody asked to stop, the buffer holds what it held once the last
  -- lines were read, followed by what `synthesizeTerminalEvent` makes of the exit code, the signal
  -- and that buffer, if it makes an event. The terminal events are then as many as the buffer held
  -- before, or exactly one where it held none.
  pub finish-terminals :
      (rt : Runtime) (lines : List Line) (exit_code : Option ℕ) (signal : Option Text)
      → rt.done ≡ false
      → rt.stop_requested ≡ false
      → rt.shutdown_requested ≡ false
      → let over = ended hooks rt lines exit_code in
        let after = finish hooks rt lines exit_code signal in
        (after.buffer ≡ over.buffer ++ added over (synthesized_at over signal))
        × (terminals after.buffer ≡ max 1 (terminals over.buffer))
  unfolding finish ended
  finish-terminals rt lines exit_code signal open_process unstopped running =
      let over = ended hooks rt lines exit_code in
      let unasked = handle_lines-IsUnasked hooks rt lines (unstopped, running) in
      if_cases
        (λ (r : Runtime).
          (r.buffer ≡ over.buffer ++ added over (synthesized_at over signal))
          × (terminals r.buffer ≡ max 1 (terminals over.buffer)))
        rt.done (λ e. ground (arith, e, open_process))
        (λ _. (conclude-added over signal unasked, concluded over signal unasked))
