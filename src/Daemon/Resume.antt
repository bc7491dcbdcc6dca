-- ===== src/Daemon/Resume.antt =====
-- `runResumeTurn`, up to its wait for `driver.send` and after it. The caller holds the lock.
use codedeck.Common.{
  ℕ, Text, codes, Bool, true, false, Option, none, some, ◌∷◌, ◌++◌, ◌==◌, ◌&&◌, not, take, is_some,
  get_or, filter_by, if◌then◌else◌,
}
use codedeck.Core.Failure.{classify_failure}
use codedeck.Core.Session.{Session, SessionStatus, working, failed}
use codedeck.Core.Event.{turn_started, session_failed}
use codedeck.Store.Sessions.{Sessions, update, update_error, set_status}
use codedeck.Store.Sessions.Update.{SessionUpdate, no_update, keep, put}
use codedeck.Daemon.{
  World, Handle, Daemon, Turn, TurnOrigin, by_send, by_dispatch, Reply, accepted, refused,
  service_unavailable, send_failed, truthy, unlock, event_at, emit, try_update, noted, slot,
  or_same,
}

unfoldable pub started_turn : World → Daemon → Turn → Option Sessions → Option Daemon
started_turn w d t none = none
started_turn w d t (some table) =
    let d' =
      emit (record d { sessions = table }) t.session.id
        (event_at w t.session.id (turn_started (some t.message))) in
    some (record d' { turns = t ∷ d'.turns })

-- Up to the wait; `none` where it throws: the daemon is shutting down, or the session is gone.
unfoldable pub run_resume_turn : World → Daemon → Turn → Option Daemon
unfolding started_turn
run_resume_turn w d t =
    if d.shutting_down
    then none
    else started_turn w d t (
        set_status d.sessions t.session.id working w.now
          (noted (codes "send: " ++ take 80 t.message)))

-- What became of `driver.send`: it threw, or it returned with the process and native id that the
-- driver wrote into its session.
pub data DriverOutcome : Type 0 where
  threw : Text → DriverOutcome
  sent : Option ℕ → Option Text → DriverOutcome

abbrev pub handle_native : Option Handle → Option Text
handle_native none = none
handle_native (some h) = h.native_session_id

-- `a || b`
abbrev pub or_truthy : Option Text → Option Text → Option Text
or_truthy a b = if truthy a then a else b

abbrev differs : Option Text → Option Text → Bool
differs (some a) (some b) = not (a == b)
differs (some a) none = true
differs none b = true

-- The updates behind a successful send. A pid of 0 is no pid.
abbrev pid_patch : World → Option ℕ → SessionUpdate
pid_patch w none = no_update
pid_patch w (some pid) = record no_update {
  pid = put (some pid);
  pid_start_time = elim (w.process_start_time pid) [ none ↦ keep | some t ↦ put (some t) ];
}

-- The updates ran, or one of them threw: what was written before it stays.
pub data Recorded : Type 0 where
  recorded broken_off : Daemon → Recorded

abbrev pub stored_or : Daemon → Option Sessions → Recorded
stored_or d none = broken_off d
stored_or d (some table) = recorded (record d { sessions = table })

abbrev pub store_update : World → Daemon → Text → SessionUpdate → Recorded
store_update w d sid patch = stored_or d (update d.sessions sid patch w.now)

abbrev pub and_record : Recorded → (Daemon → Recorded) → Recorded
and_record (recorded d) next = next d
and_record (broken_off d) next = broken_off d

-- The native id that the driver found.
unfoldable pub record_native : World → Daemon → Session → Option Text → Recorded
record_native w d s drv_native =
    let new_native = or_truthy (handle_native (w.get_handle s.id)) drv_native in
    if truthy new_native && differs new_native s.native_session_id
    then store_update w d s.id (record no_update { native_session_id = put new_native })
    else recorded d

abbrev pub record_pid : World → Session → Option ℕ → Daemon → Recorded
record_pid w s pid d = if is_some pid then store_update w d s.id (pid_patch w pid) else recorded d

unfoldable pub record_sent : World → Daemon → Session → Option ℕ → Option Text → Recorded
unfolding record_native
record_sent w d s pid drv_native =
    and_record (and_record (record_native w d s drv_native) (record_pid w s pid))
      (λ d2. store_update w d2 s.id (record no_update { status = some working }))

-- `try { this.sessions.setStatus(…) } catch {}`
unfoldable pub try_status : World → Daemon → Text → SessionStatus → SessionUpdate → Daemon
try_status w d sid status extra = or_same d (set_status d.sessions sid status w.now extra)

-- The event and the status of a dispatch that failed.
unfoldable pub note_failure : World → Daemon → Text → Text → Daemon
unfolding try_status
note_failure w d sid reason =
    let failure = classify_failure reason none none in
    try_status w (emit d sid (event_at w sid (session_failed reason (some failure) none))) sid
      failed
      (record no_update { last_event = put (some (take 200 reason)); failure = put (some failure) })

-- The handlers of an error that `runResumeTurn` throws. Where the daemon shuts down, the drain
-- owns the outcome. A failed dispatch puts the message back into its slot.
unfoldable pub fail_turn : World → Daemon → Turn → TurnOrigin → Text → Daemon × Option Reply
unfolding note_failure
fail_turn w d t by_send reason =
    if d.shutting_down
    then (d, some (refused service_unavailable))
    else (try_status w d t.key failed no_update, some (refused send_failed))
fail_turn w d t (by_dispatch pending_at) reason =
    let noted_d = if d.shutting_down then d else note_failure w d t.key reason in
    (try_update w noted_d t.key (slot t.message (get_or pending_at w.now)), none)

abbrev pub ok_reply : TurnOrigin → Option Reply
ok_reply by_send = some (accepted false)
ok_reply (by_dispatch _) = none

abbrev pub shutdown_text : Text
shutdown_text = codes "daemon is shutting down"

-- The error of a turn that did not start, or whose session is gone.
unfoldable pub start_error : Daemon → Turn → Text
start_error d t = if d.shutting_down then shutdown_text else update_error d.sessions t.session.id

-- The turn has been sent, unless the updates throw.
unfoldable pub settle_sent : World → Turn → Recorded → Daemon × Option Reply
unfolding fail_turn start_error
settle_sent w t (recorded d) = (d, ok_reply t.origin)
settle_sent w t (broken_off d) = fail_turn w d t t.origin (start_error d t)

unfoldable pub settle_turn : World → Daemon → Turn → DriverOutcome → Daemon × Option Reply
unfolding fail_turn record_sent settle_sent
settle_turn w d t (threw reason) = fail_turn w d t t.origin reason
settle_turn w d t (sent pid drv_native) =
    if d.shutting_down
    then fail_turn w d t t.origin shutdown_text
    else settle_sent w t (record_sent w d t.session pid drv_native)

abbrev unlock_after : Text → Daemon × Option Reply → Daemon × Option Reply
unlock_after sid (d, r) = (unlock d sid, r)

-- After the wait: the turn is no longer in flight, and the lock is given back.
unfoldable pub finish_turn : World → Daemon → Turn → DriverOutcome → Daemon × Option Reply
unfolding settle_turn unlock
finish_turn w d t outcome = unlock_after t.key (
    settle_turn w (record d { turns = filter_by (λ u. not (u.session.id == t.session.id)) d.turns })
      t outcome)
