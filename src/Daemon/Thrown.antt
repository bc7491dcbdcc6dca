-- ===== src/Daemon/Thrown.antt =====
-- A stop of src/daemon/daemon.ts whose driver throws, from its first part to the end of its second.
use codedeck.Common.{
  Text, ◌≡◌, refl, sym, subst, ap, ◌∙◌, Bool, true, false, Option, none, some, if_both, arith,
  if◌then◌else◌,
}
use codedeck.Core.Session.{Session, SessionStatus, is_terminal_status}
use codedeck.Store.Sessions.{Sessions, get, found}
use codedeck.Store.Sessions.Update.{no_update}
use codedeck.Store.Sessions.Found.{is_stored}
use codedeck.Daemon.{World, Daemon, Reply, ErrorCode, refused, stop_failed, clear_pending, lock}
use codedeck.Daemon.Resume.{try_status}
use codedeck.Daemon.Stop.{
  StopCall, StopStart, stop_refused, stopping, begin_stop, stop_found, start_stop, marked,
  fail_stop, end_stop, stop_call,
}
use codedeck.Daemon.Queue.{unlock-sessions}
use codedeck.Daemon.Cancelled.{status_of, try_status-status_of}

unless-status :
    (b : Bool) (p q : Daemon × Reply) (sid : Text) (o : Option SessionStatus)
    → b ≡ false
    → status_of q.0.sessions sid ≡ o
    → status_of (if b then p else q).0.sessions sid ≡ o
unless-status true p q sid o e k = ground arith
unless-status false p q sid o e k = k

end_stop-threw :
    (w : World) (d : Daemon) (c : StopCall)
    → is_stored d.sessions c.session_id ≡ true
    → d.shutting_down ≡ false
    → status_of (end_stop w d c true).0.sessions c.session_id ≡ some c.previous_status
unfolding end_stop fail_stop
end_stop-threw w d c st running =
    let d1 = try_status w d c.session_id c.previous_status no_update in
    unless-status d.shutting_down _ _ c.session_id _ running (
      ap (λ t. status_of t c.session_id) (unlock-sessions d1 c.session_id)
      ∙ try_status-status_of w d c.session_id c.previous_status st)

end_stop-refused :
    (w : World) (d : Daemon) (c : StopCall)
    → d.shutting_down ≡ false
    → (end_stop w d c true).1 ≡ refused stop_failed
unfolding end_stop fail_stop
end_stop-refused w d c running = rw running refl

-- The call remembers the session, and the status that it had.
Remembers : Session → StopStart → Type 0
Remembers s (stop_refused code) = Unit
Remembers s (stopping c) = (c.session_id ≡ s.id) × (c.previous_status ≡ s.status)

marked-Remembers :
    (w : World) (d d' : Daemon) (s : Session) (o : Option Sessions)
    → Remembers s (marked w d (stop_call d' s) o).1
unfolding marked Remembers
marked-Remembers w d d' s none = tt
marked-Remembers w d d' s (some table) = (refl, refl)

start_stop-Remembers :
    (w : World) (d : Daemon) (s : Session) (o : Option ErrorCode)
    → Remembers s (start_stop w d s o).1
unfolding start_stop Remembers
start_stop-Remembers w d s (some code) = tt
start_stop-Remembers w d s none =
    if_both (λ (p : Daemon × StopStart). Remembers s p.1) (is_terminal_status s.status) (refl, refl)
      (marked-Remembers w (lock d s.id) d s _)

begin_stop-Remembers :
    (w : World) (d : Daemon) (id : Text) (s : Session)
    → get d.sessions id ≡ found s
    → Remembers s (begin_stop w d id).1
unfolding begin_stop stop_found Remembers
begin_stop-Remembers w d id s e =
    if_both (λ (p : Daemon × StopStart). Remembers s p.1) d.shutting_down tt
      (subst (λ l. Remembers s (stop_found w d l).1) (sym e)
        (start_stop-Remembers w (clear_pending w d s.id) s _))

-- Where the first part of a stop finds a session and goes on to the driver, and the driver throws
-- while the session is stored and the daemon is not shutting down: the answer is that the stop has
-- failed, and the session is given back the status that it had before the first part marked it as
-- stopped, whatever happened to the daemon during the wait.
pub stop_threw :
    (w : World) (before : Daemon) (id : Text) (s : Session) (c : StopCall) (after : Daemon)
    → get before.sessions id ≡ found s
    → (begin_stop w before id).1 ≡ stopping c
    → is_stored after.sessions s.id ≡ true
    → after.shutting_down ≡ false
    → (status_of (end_stop w after c true).0.sessions s.id ≡ some s.status)
      × ((end_stop w after c true).1 ≡ refused stop_failed)
unfolding Remembers
stop_threw w before id s c after e h st running =
    let kept = subst (Remembers s) h (begin_stop-Remembers w before id s e) in
    (
      subst (λ sid. status_of (end_stop w after c true).0.sessions sid ≡ some s.status) kept.0
          (end_stop-threw w after c
              (subst (λ sid. is_stored after.sessions sid ≡ true) (sym kept.0) st) running
            ∙ ap some kept.1),
      end_stop-refused w after c running,
    )
