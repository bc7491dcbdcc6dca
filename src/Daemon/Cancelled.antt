-- ===== src/Daemon/Cancelled.antt =====
-- The slot and the status of a session through `session.stop`.
use codedeck.Common.{
  ℕ, Text, ◌≡◌, refl, sym, subst, ap, ◌∙◌, Bool, true, false, Option, none, some, eq_refl, arith,
  if◌then◌else◌,
}
use mathlib.Core.Option.{some-injective}
use codedeck.Core.Session.{Session, SessionStatus, stopped, is_terminal_status}
use codedeck.Store.Sessions.{Sessions, get, get_exact, found, update, set_status}
use codedeck.Store.Sessions.Update.{SessionUpdate, patched, update_rows, status_patch, no_update}
use codedeck.Store.Sessions.Laws.{get_exact-update_rows, apply_session}
use codedeck.Store.Sessions.Found.{is_stored, get-is_stored, update-is_stored}
use codedeck.Daemon.{
  broadcast, emit, World, Daemon, Reply, accepted, cleared, clear_pending, try_update, lock,
}
use codedeck.Daemon.Resume.{try_status}
use codedeck.Daemon.Stop.{
  record_outcome, StopCall, begin_stop, stop_found, start_stop, marked, fail_stop, end_stop,
  settle_stop, close_stop, stop_refusal, stop_call,
}
use codedeck.Daemon.Exclusion.{or_same-is_stored}
use codedeck.Daemon.Queue.{slot_of, stored-exact, update_stored, unlock-sessions}

slot_of-update :
    (table : Sessions) (sid : Text) (p : SessionUpdate) (now : ℕ)
    → is_stored table sid ≡ true
    → slot_of (update_rows sid p now table) sid ≡ patched p.pending_message (slot_of table sid)
unfolding slot_of apply_session
slot_of-update table sid p now st =
    let e = stored-exact table sid st in
    rw (get_exact-update_rows table sid sid p now) (rw (eq_refl sid) (rw e.1 refl))

clear_pending-slot :
    (w : World) (d : Daemon) (sid : Text)
    → is_stored d.sessions sid ≡ true
    → slot_of (clear_pending w d sid).sessions sid ≡ none
unfolding clear_pending try_update
clear_pending-slot w d sid st =
    rw (update_stored d.sessions sid cleared w.now st)
      (slot_of-update d.sessions sid cleared w.now st)

clear_pending-is_stored :
    (w : World) (d : Daemon) (sid : Text)
    → is_stored (clear_pending w d sid).sessions sid ≡ is_stored d.sessions sid
unfolding clear_pending try_update
clear_pending-is_stored w d sid =
    or_same-is_stored d (update d.sessions sid cleared w.now) sid sid cleared w.now refl

-- A change of the status alone leaves the slot.
try_status-slot :
    (w : World) (d : Daemon) (sid : Text) (st : SessionStatus)
    → is_stored d.sessions sid ≡ true
    → slot_of (try_status w d sid st no_update).sessions sid ≡ slot_of d.sessions sid
unfolding try_status set_status slot_of status_patch
try_status-slot w d sid st h =
    rw (update_stored d.sessions sid (status_patch st w.now no_update) w.now h)
      (slot_of-update d.sessions sid (status_patch st w.now no_update) w.now h)

either-slot :
    {R : Type 0} (b : Bool) (p q : Daemon × R) (sid : Text) (o : Option Text)
    → slot_of p.0.sessions sid ≡ o
    → slot_of q.0.sessions sid ≡ o
    → slot_of (if b then p else q).0.sessions sid ≡ o
either-slot true p q sid o h k = h
either-slot false p q sid o h k = k

unless-slot :
    {R : Type 0} (b : Bool) (p q : Daemon × R) (sid : Text) (o : Option Text)
    → b ≡ false
    → slot_of q.0.sessions sid ≡ o
    → slot_of (if b then p else q).0.sessions sid ≡ o
unless-slot true p q sid o e k = ground arith
unless-slot false p q sid o e k = k

fail_stop-slot :
    (w : World) (d : Daemon) (c : StopCall)
    → is_stored d.sessions c.session_id ≡ true
    → slot_of (fail_stop w d c).0.sessions c.session_id ≡ slot_of d.sessions c.session_id
unfolding fail_stop
fail_stop-slot w d c h =
    either-slot d.shutting_down _ _ c.session_id _
      (ap (λ t. slot_of t c.session_id) (unlock-sessions d c.session_id))
      (ap (λ t. slot_of t c.session_id)
          (unlock-sessions (try_status w d c.session_id c.previous_status no_update) c.session_id)
        ∙ try_status-slot w d c.session_id c.previous_status h)

marked-slot :
    (w : World) (d : Daemon) (c : StopCall) (o : Option Sessions)
    → set_status d.sessions c.session_id stopped w.now no_update ≡ o
    → is_stored d.sessions c.session_id ≡ true
    → slot_of (marked w d c o).0.sessions c.session_id ≡ slot_of d.sessions c.session_id
unfolding marked set_status status_patch slot_of
marked-slot w d c none e h = fail_stop-slot w d c h
marked-slot w d c (some table) e h =
    let p = status_patch stopped w.now no_update in
    subst (λ t. slot_of t c.session_id ≡ slot_of d.sessions c.session_id)
      (some-injective _ _ (sym (update_stored d.sessions c.session_id p w.now h) ∙ e))
      (slot_of-update d.sessions c.session_id p w.now h)

start_stop-slot :
    (w : World) (d : Daemon) (s : Session) (o : Option _)
    → is_stored d.sessions s.id ≡ true
    → slot_of (start_stop w d s o).0.sessions s.id ≡ slot_of d.sessions s.id
unfolding start_stop
start_stop-slot w d s (some code) h = refl
start_stop-slot w d s none h =
    either-slot (is_terminal_status s.status) _ _ s.id _ refl
      (marked-slot w (lock d s.id) (stop_call d s) _ refl h)

stop_found-slot :
    (w : World) (d : Daemon) (id : Text) (s : Session)
    → is_stored d.sessions s.id ≡ true
    → slot_of (stop_found w d (found s)).0.sessions s.id ≡ none
unfolding stop_found
stop_found-slot w d id s h =
    let d1 = clear_pending w d s.id in
    start_stop-slot w d1 s (stop_refusal w d1 s) (clear_pending-is_stored w d s.id ∙ h)
    ∙ clear_pending-slot w d s.id h

-- Unless the daemon shuts down, the first part of a stop of a session that is found, whether it is
-- refused or goes on, empties the slot of the session.
pub begin_stop-slot :
    (w : World) (d : Daemon) (id : Text) (s : Session)
    → d.shutting_down ≡ false
    → get d.sessions id ≡ found s
    → slot_of (begin_stop w d id).0.sessions s.id ≡ none
unfolding begin_stop
begin_stop-slot w d id s running g = unless-slot d.shutting_down _ _ s.id none running (
    subst (λ l. slot_of (stop_found w d l).0.sessions s.id ≡ none) (sym g)
      (stop_found-slot w d id s (get-is_stored d.sessions id s g)))

close_stop-slot :
    (w : World) (d : Daemon) (c : StopCall)
    → is_stored d.sessions c.session_id ≡ true
    → slot_of (close_stop w d c).0.sessions c.session_id ≡ none
unfolding close_stop
close_stop-slot w d c h =
    ap (λ t. slot_of t c.session_id) (unlock-sessions (clear_pending w d c.session_id) c.session_id)
    ∙ clear_pending-slot w d c.session_id h

-- The slot is empty where the stop was accepted.
IsCancelled : Text → Daemon × Reply → Type 0
IsCancelled sid p = p.1 ≡ accepted false → slot_of p.0.sessions sid ≡ none

either-IsCancelled :
    (b : Bool) (sid : Text) (p q : Daemon × Reply)
    → IsCancelled sid p
    → IsCancelled sid q
    → IsCancelled sid (if b then p else q)
either-IsCancelled true sid p q h k = h
either-IsCancelled false sid p q h k = k

fail_stop-IsCancelled :
    (w : World) (d : Daemon) (c : StopCall) → IsCancelled c.session_id (fail_stop w d c)
unfolding fail_stop IsCancelled
fail_stop-IsCancelled w d c =
    either-IsCancelled d.shutting_down c.session_id _ _ (λ h. ground arith) (λ h. ground arith)

recorded-is_stored :
    (w : World) (d : Daemon) (c : StopCall) (table : Sessions)
    (r : Option (SessionStatus × SessionUpdate))
    → record_outcome w d c r ≡ some (some table)
    → is_stored table c.session_id ≡ is_stored d.sessions c.session_id
unfolding record_outcome set_status
recorded-is_stored w d c table none e = ground arith
recorded-is_stored w d c table (some (status, patch)) e =
    update-is_stored d.sessions table c.session_id c.session_id (status_patch status w.now patch)
      w.now (some-injective _ _ e)

settle_stop-IsCancelled :
    (w : World) (d : Daemon) (c : StopCall) (r : Option (SessionStatus × SessionUpdate))
    (o : Option (Option Sessions))
    → record_outcome w d c r ≡ o
    → is_stored d.sessions c.session_id ≡ true
    → IsCancelled c.session_id (settle_stop w d c o)
unfolding settle_stop IsCancelled emit broadcast
settle_stop-IsCancelled w d c r (some none) e st = fail_stop-IsCancelled w d c
settle_stop-IsCancelled w d c r (some (some table)) e st = λ h.
    close_stop-slot w (record d { sessions = table }) c (recorded-is_stored w d c table r e ∙ st)
settle_stop-IsCancelled w d c r none e st =
    either-IsCancelled c.had_terminal c.session_id _ _ (λ h. close_stop-slot w d c st)
      (λ h. close_stop-slot w _ c st)

-- The second part of a stop of a stored session, where it is accepted, leaves no message in the
-- slot of the session, whether or not one was queued while the driver was stopping.
pub end_stop-slot :
    (w : World) (d : Daemon) (c : StopCall) (threw : Bool)
    → is_stored d.sessions c.session_id ≡ true
    → (end_stop w d c threw).1 ≡ accepted false
    → slot_of (end_stop w d c threw).0.sessions c.session_id ≡ none
unfolding end_stop IsCancelled
end_stop-slot w d c true st = fail_stop-IsCancelled w d c
end_stop-slot w d c false st =
    either-IsCancelled d.shutting_down c.session_id _ _ (λ h. ground arith)
      (settle_stop-IsCancelled w d c _ _ refl st)

abbrev pub status_in : Option Session → Option SessionStatus
status_in none = none
status_in (some s) = some s.status

-- The stored status of a session.
unfoldable pub status_of : Sessions → Text → Option SessionStatus
status_of table sid = status_in (get_exact table sid)

pub try_status-status_of :
    (w : World) (d : Daemon) (sid : Text) (st : SessionStatus)
    → is_stored d.sessions sid ≡ true
    → status_of (try_status w d sid st no_update).sessions sid ≡ some st
unfolding try_status set_status status_of status_patch apply_session
try_status-status_of w d sid st h =
    let p = status_patch st w.now no_update in
    let e = stored-exact d.sessions sid h in
    rw (update_stored d.sessions sid p w.now h)
      (rw (get_exact-update_rows d.sessions sid sid p w.now) (rw (eq_refl sid) (rw e.1 refl)))
