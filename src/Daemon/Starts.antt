-- ===== src/Daemon/Starts.antt =====
-- The start of a turn under its lock, by a message that is sent or by one that was queued.
use codedeck.Common.{
  any, Text, ◌≡◌, refl, sym, subst, Bool, true, false, Option, none, some, ◌==◌, eq_refl,
  if◌then◌else◌,
}
use codedeck.Store.Sessions.{Sessions}
use codedeck.Daemon.{Sessions, broadcast, emit, World, Daemon, Turn, lock, is_locked, unlock}
use codedeck.Daemon.Resume.{start_error, run_resume_turn, started_turn, fail_turn}
use codedeck.Daemon.Dispatch.{started, cleared_then}
use codedeck.Daemon.Send.{unlocked, start_sent}
use codedeck.Daemon.Turns.{
  Exclusive, IsExclusive, in_flight, Exclusive-lock, free-in_flight, Same, Same-IsExclusive,
  fail_turn-Same, unlock-IsExclusive,
}

-- The session is locked by the handler that starts its turn, which is not in flight yet.
unfoldable pub IsReady : Daemon → Text → Type 0
IsReady d sid = (is_locked d sid ≡ true) × (in_flight sid d.turns ≡ false) × IsExclusive d

pub Same-IsReady : (d e : Daemon) (sid : Text) → Same d e → IsReady d sid → IsReady e sid
unfolding Same IsReady
Same-IsReady d e sid h r = (
  subst (λ ls. any (λ l. l == sid) ls ≡ true) (sym h.0) r.0,
  subst (λ ts. in_flight sid ts ≡ false) (sym h.1) r.1,
  Same-IsExclusive d e h r.2,
)

pub lock-IsReady :
    (d : Daemon) (sid : Text) → IsExclusive d → is_locked d sid ≡ false → IsReady (lock d sid) sid
unfolding IsReady IsExclusive
lock-IsReady d sid h e = (
  rw (eq_refl sid) refl,
  free-in_flight sid d.session_locks d.turns h e,
  Exclusive-lock sid d.session_locks d.turns h,
)

-- Of a turn that has started, where it has not thrown.
pub IsStarted : Option Daemon → Type 0
IsStarted none = Unit
IsStarted (some d) = IsExclusive d

-- The start of a turn either throws or puts it in flight.
started_turn-IsExclusive :
    (w : World) (d : Daemon) (t : Turn) (o : Option _)
    → t.key ≡ t.session.id
    → IsReady d t.session.id
    → IsStarted (started_turn w d t o)
unfolding started_turn IsReady IsExclusive Exclusive IsStarted emit broadcast
started_turn-IsExclusive w d t none k r = tt
started_turn-IsExclusive w d t (some table) k r = (r.0, r.1, k, r.2)

unready :
    (w : World) (d : Daemon) (t : Turn) (reason : Text)
    → t.key ≡ t.session.id
    → IsReady d t.session.id
    → IsExclusive (unlock (fail_turn w d t t.origin reason).0 t.key)
unfolding IsReady
unready w d t reason k r =
    let e = (fail_turn w d t t.origin reason).0 in
    let back : IsReady e t.session.id =
      Same-IsReady d e t.session.id (fail_turn-Same w d t t.origin reason) r in
    unlock-IsExclusive e t.key back.2 (subst (λ j. in_flight j e.turns ≡ false) (sym k) back.1)

unless-IsStarted : (b : Bool) (o : Option Daemon) → IsStarted o → IsStarted (if b then none else o)
unfolding IsStarted
unless-IsStarted true o h = tt
unless-IsStarted false o h = h

pub run_resume_turn-IsExclusive :
    (w : World) (d : Daemon) (t : Turn)
    → t.key ≡ t.session.id
    → IsReady d t.session.id
    → IsStarted (run_resume_turn w d t)
unfolding run_resume_turn IsStarted
run_resume_turn-IsExclusive w d t k r =
    unless-IsStarted d.shutting_down _ (started_turn-IsExclusive w d t _ k r)

started-IsExclusive :
    (w : World) (d : Daemon) (t : Turn) (o : Option Daemon)
    → t.key ≡ t.session.id
    → IsReady d t.session.id
    → IsStarted o
    → IsExclusive (started w d t o)
unfolding started IsStarted
started-IsExclusive w d t none k r h = unready w d t (start_error d t) k r
started-IsExclusive w d t (some d') k r h = h

pub start_sent-IsExclusive :
    (w : World) (d : Daemon) (t : Turn) (o : Option Daemon)
    → t.key ≡ t.session.id
    → IsReady d t.session.id
    → IsStarted o
    → IsExclusive (start_sent w d t o).0
unfolding start_sent unlocked IsStarted
start_sent-IsExclusive w d t none k r h = unready w d t (start_error d t) k r
start_sent-IsExclusive w d t (some d') k r h = h

pub cleared_then-IsExclusive :
    (w : World) (d : Daemon) (t : Turn) (o : Option Sessions)
    → t.key ≡ t.session.id
    → IsReady d t.session.id
    → IsExclusive (cleared_then w d t o)
unfolding cleared_then Same
cleared_then-IsExclusive w d t none k r = unready w d t (start_error d t) k r
cleared_then-IsExclusive w d t (some table) k r =
    let d' : Daemon = record d { sessions = table } in
    let r' : IsReady d' t.session.id = Same-IsReady d d' t.session.id (refl, refl) r in
    started-IsExclusive w d' t (run_resume_turn w d' t) k r'
      (run_resume_turn-IsExclusive w d' t k r')
