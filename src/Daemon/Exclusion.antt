-- ===== src/Daemon/Exclusion.antt =====
-- The steps of the daemon that send messages, dispatch queued ones and finish turns, in any order,
-- and the turns that they leave in flight.
use codedeck.Common.{
  suc, ◌∙◌, ◌&&◌, not, codes, take, ◌++◌, get_elem?, ℕ, zero, suc, Text, ◌≡◌, refl, sym, subst,
  Bool, true, false, Option, none, some, List, [], ◌∷◌, ◌||◌, arith, Bool-cases, inl, inr,
  if◌then◌else◌,
}
use codedeck.Store.Sessions.{Sessions, Lookup, get, found, missing, ambiguous, update}
use codedeck.Store.Sessions.Found.{is_stored, stored-get, get-is_stored, update-is_stored}
use codedeck.Core.Event.{message_queued}
use codedeck.Daemon.{
  noted, is_open, or_same, validate_send_message, event_at, ErrorCode, truthy, try_update,
  SessionUpdate, cleared, slot, clear_pending, update, Session, Sessions, broadcast, emit, World,
  Daemon, Turn, Reply, lock, is_locked, unlock,
}
use codedeck.Daemon.Resume.{run_resume_turn, DriverOutcome, finish_turn}
use codedeck.Daemon.Dispatch.{
  is_resumable, queued_turn, dispatch_slot, dispatch_found, try_dispatch,
}
use codedeck.Daemon.Send.{
  is_busy, send_refusal, sent_turn, send_now, queue_behind, send_admitted, send_found,
  send_validated, send,
}
use mathlib.Core.Option.{some-injective}
use codedeck.Daemon.Starts.{
  Same-IsReady, lock-IsReady, IsReady, cleared_then-IsExclusive, start_sent-IsExclusive,
  run_resume_turn-IsExclusive,
}
use codedeck.Daemon.Turns.{
  Exclusive, IsExclusive, Same, Same-IsExclusive, Same-trans, try_update-Same, unlock-IsExclusive,
  finish_turn-IsExclusive,
}

relock-IsExclusive :
    (d : Daemon) (sid : Text)
    → IsExclusive d
    → is_locked d sid ≡ false
    → IsExclusive (unlock (lock d sid) sid)
unfolding IsReady
relock-IsExclusive d sid h e =
    let ready = lock-IsReady d sid h e in unlock-IsExclusive (lock d sid) sid ready.2 ready.1

dispatch_slot-IsExclusive :
    (w : World) (d : Daemon) (sid : Text) (s : Session) (m : Option Text)
    → sid ≡ s.id
    → IsExclusive d
    → is_locked d sid ≡ false
    → IsExclusive (dispatch_slot w d sid s m)
unfolding dispatch_slot queued_turn
dispatch_slot-IsExclusive w d sid s none k h e = h
dispatch_slot-IsExclusive w d sid s (some m) k h e =
    let ready = subst (λ j. IsReady (lock d sid) j) k (lock-IsReady d sid h e) in
    elim (Bool-cases (is_resumable w s)) [
      | inl resumable ↦
          rw resumable (cleared_then-IsExclusive w (lock d sid) (queued_turn sid s m) _ k ready)
      | inr held ↦ rw held (relock-IsExclusive d sid h e)
    ]

unless-IsExclusive :
    (b : Bool) (d e : Daemon)
    → IsExclusive d
    → (b ≡ false → IsExclusive e)
    → IsExclusive (if b then d else e)
unless-IsExclusive true d e h k = h
unless-IsExclusive false d e h k = k refl

dispatch_found-IsExclusive :
    (w : World) (d : Daemon) (sid : Text) (l : Lookup)
    → get d.sessions sid ≡ l
    → is_stored d.sessions sid ≡ true
    → IsExclusive d
    → is_locked d sid ≡ false
    → IsExclusive (dispatch_found w d sid l)
unfolding dispatch_found
dispatch_found-IsExclusive w d sid missing g st h e = h
dispatch_found-IsExclusive w d sid (ambiguous _) g st h e = h
dispatch_found-IsExclusive w d sid (found s) g st h e =
    elim (Bool-cases (truthy s.pending_message && not (is_open s))) [
      | inl waits ↦ rw waits (
          dispatch_slot-IsExclusive w d sid s s.pending_message
            (sym (stored-get d.sessions sid s st g)) h e)
      | inr idle ↦ rw idle h
    ]

try_dispatch-IsExclusive :
    (w : World) (d : Daemon) (sid : Text)
    → is_stored d.sessions sid ≡ true
    → IsExclusive d
    → IsExclusive (try_dispatch w d sid)
unfolding try_dispatch
try_dispatch-IsExclusive w d sid st h =
    unless-IsExclusive (d.shutting_down || is_locked d sid) d _ h
      (λ e. dispatch_found-IsExclusive w d sid (get d.sessions sid) refl st h (ground (arith, e)))

pub or_same-is_stored :
    (d : Daemon) (o : Option Sessions) (id j : Text) (p : SessionUpdate) (now : ℕ)
    → update d.sessions id p now ≡ o
    → is_stored (or_same d o).sessions j ≡ is_stored d.sessions j
or_same-is_stored d none id j p now e = refl
or_same-is_stored d (some table) id j p now e = update-is_stored d.sessions table id j p now e

queue_behind-IsExclusive :
    (w : World) (d : Daemon) (s : Session) (m : Text) (o : Option Sessions)
    → update d.sessions s.id (slot m w.now) w.now ≡ o
    → is_stored d.sessions s.id ≡ true
    → IsExclusive d
    → IsExclusive (queue_behind w d s m o).0
unfolding queue_behind emit broadcast try_update Same
queue_behind-IsExclusive w d s m none u st h = h
queue_behind-IsExclusive w d s m (some table) u st h =
    let d1 = emit (record d { sessions = table }) s.id (event_at w s.id (message_queued m w.now)) in
    let p = noted (codes "queued: " ++ take 80 m) in
    let d2 = try_update w d1 s.id p in
    let kept = update-is_stored d.sessions table s.id s.id (slot m w.now) w.now u in
    let stored = or_same-is_stored d1 (update d1.sessions s.id p w.now) s.id s.id p w.now refl in
    try_dispatch-IsExclusive w d2 s.id (stored ∙ (kept ∙ st))
      (Same-IsExclusive d d2 (Same-trans d d1 d2 (refl, refl) (try_update-Same w d1 s.id p)) h)

send_now-IsExclusive :
    (w : World) (d : Daemon) (s : Session) (m : Text)
    → is_locked d s.id ≡ false
    → IsExclusive d
    → IsExclusive (send_now w d s m).0
unfolding send_now sent_turn
send_now-IsExclusive w d s m e h =
    let d1 = clear_pending w (lock d s.id) s.id in
    let t = sent_turn s m in
    let ready =
      Same-IsReady (lock d s.id) d1 s.id (try_update-Same w (lock d s.id) s.id cleared)
        (lock-IsReady d s.id h e) in
    start_sent-IsExclusive w d1 t (run_resume_turn w d1 t) refl ready
      (run_resume_turn-IsExclusive w d1 t refl ready)

reply-IsExclusive :
    (b : Bool) (p q : Daemon × Option Reply)
    → IsExclusive p.0
    → IsExclusive q.0
    → IsExclusive (if b then p else q).0
reply-IsExclusive true p q h k = h
reply-IsExclusive false p q h k = k

-- What is not refused is not locked.
pub send_refusal-is_locked :
    (w : World) (d : Daemon) (s : Session) → send_refusal w d s ≡ none → is_locked d s.id ≡ false
unfolding send_refusal
send_refusal-is_locked w d s e = ground arith

send_admitted-IsExclusive :
    (w : World) (d : Daemon) (s : Session) (m : Text) (o : Option ErrorCode)
    → send_refusal w d s ≡ o
    → is_stored d.sessions s.id ≡ true
    → IsExclusive d
    → IsExclusive (send_admitted w d s m o).0
unfolding send_admitted
send_admitted-IsExclusive w d s m (some code) e st h = h
send_admitted-IsExclusive w d s m none e st h =
    reply-IsExclusive (is_busy w s) _ _ (queue_behind-IsExclusive w d s m _ refl st h)
      (send_now-IsExclusive w d s m (send_refusal-is_locked w d s e) h)

send_found-IsExclusive :
    (w : World) (d : Daemon) (id m : Text) (l : Lookup)
    → get d.sessions id ≡ l
    → IsExclusive d
    → IsExclusive (send_found w d m l).0
unfolding send_found
send_found-IsExclusive w d id m missing g h = h
send_found-IsExclusive w d id m (ambiguous _) g h = h
send_found-IsExclusive w d id m (found s) g h =
    send_admitted-IsExclusive w d s m _ refl (get-is_stored d.sessions id s g) h

send_validated-IsExclusive :
    (w : World) (d : Daemon) (id : Text) (m : Option Text)
    → IsExclusive d
    → IsExclusive (send_validated w d id m).0
unfolding send_validated
send_validated-IsExclusive w d id none h = h
send_validated-IsExclusive w d id (some m) h =
    send_found-IsExclusive w d id m (get d.sessions id) refl h

send-IsExclusive :
    (w : World) (d : Daemon) (id : Text) (raw : Option Text)
    → IsExclusive d
    → IsExclusive (send w d id raw).0
unfolding send
send-IsExclusive w d id raw h =
    reply-IsExclusive d.shutting_down _ _ h
      (send_validated-IsExclusive w d id (validate_send_message raw) h)

-- The steps of the daemon that touch locks and turns, in any order. The id of a dispatch is that of
-- a stored session, and what finishes is a turn in flight.
pub data Step : Daemon → Daemon → Type 0 where
  sending : (w : World) (d : Daemon) (id : Text) (raw : Option Text) → Step d (send w d id raw).0
  dispatching :
      (w : World) (d : Daemon) (sid : Text)
      → is_stored d.sessions sid ≡ true
      → Step d (try_dispatch w d sid)
  finishing :
      (w : World) (d : Daemon) (i : ℕ) (t : Turn) (o : DriverOutcome)
      → get_elem? d.turns i ≡ some t
      → Step d (finish_turn w d t o).0
  shutting_down : (d : Daemon) → Step d (record d { shutting_down = true })

pub data Steps : Daemon → Daemon → Type 0 where
  stay : (d : Daemon) → Steps d d
  more : {d e f : Daemon} → Steps d e → Step e f → Steps d f

key_of_turn :
    (locks : List Text) (turns : List Turn) (i : ℕ) (t : Turn)
    → Exclusive locks turns
    → get_elem? turns i ≡ some t
    → t.key ≡ t.session.id
unfolding Exclusive
key_of_turn locks [] i t h e = ground arith
key_of_turn locks (u ∷ turns) zero t h e =
    subst (λ x. x.key ≡ x.session.id) (some-injective _ _ e) h.2
key_of_turn locks (u ∷ turns) (suc i) t h e = key_of_turn locks turns i t h.3 e

Step-IsExclusive : {d e : Daemon} → Step d e → IsExclusive d → IsExclusive e
unfolding IsExclusive
Step-IsExclusive (sending w d id raw) h = send-IsExclusive w d id raw h
Step-IsExclusive (dispatching w d sid st) h = try_dispatch-IsExclusive w d sid st h
Step-IsExclusive (finishing w d i t o e) h =
    finish_turn-IsExclusive w d t o (key_of_turn d.session_locks d.turns i t h e) h
Step-IsExclusive (shutting_down d) h = h

-- Let every turn in flight hold the lock of its session, under that session's id, and no two be
-- of one session. However messages are then sent, messages queued on stored sessions dispatched,
-- turns in flight finished and the daemon shut down, this still holds.
pub Steps-IsExclusive : {d e : Daemon} → Steps d e → IsExclusive d → IsExclusive e
Steps-IsExclusive (stay d) h = h
Steps-IsExclusive (more s t) h = Step-IsExclusive t (Steps-IsExclusive s h)
