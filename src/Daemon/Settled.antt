-- ===== src/Daemon/Settled.antt =====
-- The status of a session when its stream is over, after `attachDriverEvents`.
use codedeck.Common.{
  Text, ◌≡◌, refl, sym, subst, ap, ◌∙◌, Bool, true, false, Option, none, some, eq_refl, arith,
  is_some, if◌then◌else◌,
}
use codedeck.Core.Session.{Session, SessionStatus, completed, failed, is_terminal_status}
use codedeck.Core.Event.{AgentEvent, Body, session_completed}
use codedeck.Store.Events.{last}
use codedeck.Store.Sessions.{get_exact, found, set_status}
use codedeck.Store.Sessions.Update.{SessionUpdate, status_patch}
use codedeck.Store.Sessions.Laws.{get_exact-update_rows, apply_session}
use codedeck.Store.Sessions.Found.{is_stored, stored-get_exact}
use codedeck.Daemon.{broadcast, World, Daemon, emit}
use codedeck.Daemon.Resume.{try_status}
use codedeck.Daemon.Stop.{outcome_of, outcome_of_last}
use codedeck.Daemon.Stream.{close_stream, settle_found, settle_stream}
use codedeck.Daemon.Queue.{stored-exact, update_stored, exact-get}
use codedeck.Daemon.Cancelled.{status_of, status_in}

abbrev pub says_completed : Body → Bool
says_completed (session_completed _ _) = true
says_completed _ = false

abbrev pub last_completed : Option AgentEvent → Bool
last_completed none = false
last_completed (some ev) = says_completed ev.body

try_status-set :
    (w : World) (d : Daemon) (sid : Text) (st : SessionStatus) (p : SessionUpdate)
    → is_stored d.sessions sid ≡ true
    → p.status ≡ none
    → status_of (try_status w d sid st p).sessions sid ≡ some st
unfolding try_status set_status status_of status_patch apply_session
try_status-set w d sid st p h e =
    let q = status_patch st w.now p in
    let s = stored-exact d.sessions sid h in
    rw (update_stored d.sessions sid q w.now h) (
      rw (get_exact-update_rows d.sessions sid sid q w.now) (rw (eq_refl sid) (rw s.1 (rw e refl))))

outcome_of_lem :
    (b : Body) (st : SessionStatus) (p : SessionUpdate)
    → outcome_of b ≡ some (st, p)
    → (p.status ≡ none)
      × (is_terminal_status st ≡ true)
      × (st ≡ completed → says_completed b ≡ true)
outcome_of_lem b st p e = ground arith

outcome_of_last_lem :
    (o : Option AgentEvent) (st : SessionStatus) (p : SessionUpdate)
    → outcome_of_last o ≡ some (st, p)
    → (p.status ≡ none)
      × (is_terminal_status st ≡ true)
      × (st ≡ completed → last_completed o ≡ true)
outcome_of_last_lem none st p e = ground arith
outcome_of_last_lem (some ev) st p e = outcome_of_lem ev.body st p e

-- The session is over, and completed only where it was or where the last event said so.
pub IsSettled : Daemon → Daemon → Text → Session → Type 0
IsSettled d e sid s =
    (st : SessionStatus) × (status_of e.sessions sid ≡ some st)
    × (is_terminal_status st ≡ true)
    × (is_terminal_status s.status ≡ false
        → st ≡ completed
        → last_completed (last d.events sid) ≡ true)

close_stream-IsSettled :
    (w : World) (d : Daemon) (sid : Text) (s : Session) (o : Option (SessionStatus × SessionUpdate))
    → is_stored d.sessions sid ≡ true
    → outcome_of_last (last d.events sid) ≡ o
    → IsSettled d (close_stream w d sid s o) sid s
unfolding close_stream IsSettled emit broadcast
close_stream-IsSettled w d sid s none h e =
    (failed, try_status-set w _ sid failed _ h refl, refl, λ a c. ground arith)
close_stream-IsSettled w d sid s (some (st, p)) h e =
    let fit = outcome_of_last_lem (last d.events sid) st p e in
    (st, try_status-set w d sid st p h fit.0, fit.1, λ a. fit.2)

either-IsSettled :
    (b : Bool) (d e f : Daemon) (sid : Text) (s : Session)
    → (b ≡ true → IsSettled d e sid s)
    → IsSettled d f sid s
    → IsSettled d (if b then e else f) sid s
either-IsSettled true d e f sid s h k = h refl
either-IsSettled false d e f sid s h k = k

over :
    (w : World) (d : Daemon) (sid : Text) (s : Session)
    → get_exact d.sessions sid ≡ some s
    → is_terminal_status s.status ≡ true
    → IsSettled d d sid s
unfolding IsSettled status_of
over w d sid s e t = (s.status, ap status_in e, t, λ a c. ground arith)

settle_found-IsSettled :
    (w : World) (d : Daemon) (sid : Text) (s : Session)
    → get_exact d.sessions sid ≡ some s
    → IsSettled d (settle_found w d sid (found s)) sid s
unfolding settle_found
settle_found-IsSettled w d sid s e =
    either-IsSettled (is_terminal_status s.status) d d _ sid s (over w d sid s e) (
      close_stream-IsSettled w d sid s _ (sym (stored-get_exact d.sessions sid) ∙ ap is_some e)
        refl)

-- When the stream of a stored session is over and its end is settled, the stored status is
-- terminal; and where it was not before, it is completed only if the last event of the session is
-- a completion.
pub settle_stream-IsSettled :
    (w : World) (d : Daemon) (sid : Text) (s : Session)
    → get_exact d.sessions sid ≡ some s
    → IsSettled d (settle_stream w d sid) sid s
unfolding settle_stream
settle_stream-IsSettled w d sid s e =
    subst (λ l. IsSettled d (settle_found w d sid l) sid s) (sym (exact-get d.sessions sid s e))
      (settle_found-IsSettled w d sid s e)
