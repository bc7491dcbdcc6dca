-- ===== src/Daemon/Replies.antt =====
-- The replies of `session.send`, against the daemon that each leaves behind.
use codedeck.Common.{
  ℕ, Text, codes, take, ◌++◌, ◌≡◌, refl, sym, subst, ap, ◌∙◌, Bool, true, false, Option, none, some,
  eq_refl, arith, if◌then◌else◌,
}
use mathlib.Core.Option.{some-injective}
use codedeck.Core.Session.{Session}
use codedeck.Core.Event.{message_queued}
use codedeck.Store.Sessions.{Sessions, Lookup, get, found, missing, ambiguous, update, set_status}
use codedeck.Store.Sessions.Update.{update_rows}
use codedeck.Store.Sessions.Laws.{get_exact-update_rows, apply_session}
use codedeck.Store.Sessions.Found.{is_stored, get-is_stored, update-is_stored}
use codedeck.Daemon.{
  cleared, or_same, event_at, try_update, broadcast, emit, World, Daemon, Turn, ErrorCode, Reply,
  accepted, refused, lock, is_locked, clear_pending, validate_send_message, slot, noted,
}
use codedeck.Daemon.Resume.{run_resume_turn, started_turn}
use codedeck.Daemon.Send.{
  sent_turn, start_sent, send_now, queue_behind, send_refusal, send_admitted, send_found,
  send_validated, send, is_busy,
}
use codedeck.Daemon.Exclusion.{send_refusal-is_locked, or_same-is_stored}
use codedeck.Daemon.Queue.{
  run_resume_turn-carries, IsKept, carries, slot_of, stored-exact, update_stored,
  try_dispatch-IsKept, slot_of-update_rows,
}

slot_of-noted :
    (table : Sessions) (sid m text : Text) (now : ℕ)
    → is_stored table sid ≡ true
    → slot_of table sid ≡ some m
    → slot_of (update_rows sid (noted text) now table) sid ≡ some m
unfolding slot_of apply_session
slot_of-noted table sid m text now st h =
    let e = stored-exact table sid st in
    rw (get_exact-update_rows table sid sid (noted text) now)
      (rw (eq_refl sid) (rw e.1 (rw e.1 at h)))

slot_of-table :
    (table table' : Sessions) (sid m : Text) (now : ℕ)
    → is_stored table sid ≡ true
    → update table sid (slot m now) now ≡ some table'
    → slot_of table' sid ≡ some m
slot_of-table table table' sid m now st u =
    subst (λ t. slot_of t sid ≡ some m)
      (some-injective _ _ (sym (update_stored table sid (slot m now) now st) ∙ u))
      (slot_of-update_rows table sid m now now st)

queue_behind-IsKept :
    (w : World) (d : Daemon) (s : Session) (m : Text) (o : Option Sessions)
    → update d.sessions s.id (slot m w.now) w.now ≡ o
    → is_stored d.sessions s.id ≡ true
    → (queue_behind w d s m o).1 ≡ some (accepted true)
    → IsKept (queue_behind w d s m o).0 s.id m
unfolding queue_behind emit broadcast try_update
queue_behind-IsKept w d s m none u st h = ground arith
queue_behind-IsKept w d s m (some table) u st h =
    let text = codes "queued: " ++ take 80 m in
    let stored : is_stored table s.id ≡ true =
      update-is_stored d.sessions table s.id s.id (slot m w.now) w.now u ∙ st in
    let d1 = emit (record d { sessions = table }) s.id (event_at w s.id (message_queued m w.now)) in
    try_dispatch-IsKept w (try_update w d1 s.id (noted text)) s.id m (
      rw (update_stored table s.id (noted text) w.now stored) (
        slot_of-noted table s.id m text w.now stored
          (slot_of-table d.sessions table s.id m w.now st u)))

abbrev Starts : Option Daemon → Type 0
Starts o = (d' : Daemon) × (o ≡ some d')

unless-Starts :
    (b : Bool) (o : Option Daemon) → b ≡ false → Starts o → Starts (if b then none else o)
unless-Starts true o e h = ground arith
unless-Starts false o e h = h

run_resume_turn-Starts :
    (w : World) (d : Daemon) (t : Turn)
    → d.shutting_down ≡ false
    → is_stored d.sessions t.session.id ≡ true
    → Starts (run_resume_turn w d t)
unfolding run_resume_turn started_turn set_status
run_resume_turn-Starts w d t e st = unless-Starts d.shutting_down _ e (
    subst (λ o. Starts (started_turn w d t o))
      (sym (update_stored d.sessions t.session.id _ w.now st)) (_, refl))

or_same-shutting_down :
    (d : Daemon) (o : Option Sessions) → (or_same d o).shutting_down ≡ d.shutting_down
or_same-shutting_down d none = refl
or_same-shutting_down d (some table) = refl

-- A session that is stored can be given its turn, unless the daemon shuts down.
send_now-Starts :
    (w : World) (d : Daemon) (s : Session) (m : Text)
    → d.shutting_down ≡ false
    → is_stored d.sessions s.id ≡ true
    → (d' : Daemon) × (send_now w d s m ≡ (d', none)) × (carries s.id m d'.turns ≡ true)
unfolding send_now sent_turn start_sent clear_pending try_update
send_now-Starts w d s m running st =
    let o = update d.sessions s.id cleared w.now in
    let d1 = or_same (lock d s.id) o in
    let t = sent_turn s m in
    let r =
      run_resume_turn-Starts w d1 t (or_same-shutting_down (lock d s.id) o ∙ running)
        (or_same-is_stored (lock d s.id) o s.id s.id cleared w.now refl ∙ st) in
    (r.0, ap (start_sent w d1 t) r.1, run_resume_turn-carries w d1 r.0 t r.1)

-- What the reply says of a message `m` for the session `s` of the daemon `d` that became `e`.
unfoldable pub IsAnswered : World → Daemon → Session → Text → Daemon → Option Reply → Type 0
IsAnswered w d s m e none =
    (is_locked d s.id ≡ false) × (is_busy w s ≡ false) × (carries s.id m e.turns ≡ true)
IsAnswered w d s m e (some (accepted queued)) =
    (queued ≡ true) × (is_busy w s ≡ true) × IsKept e s.id m
IsAnswered w d s m e (some (refused code)) = e ≡ d

queue_behind-IsAnswered :
    (w : World) (d : Daemon) (s : Session) (m : Text) (o : Option Sessions)
    → update d.sessions s.id (slot m w.now) w.now ≡ o
    → is_stored d.sessions s.id ≡ true
    → is_busy w s ≡ true
    → IsAnswered w d s m (queue_behind w d s m o).0 (queue_behind w d s m o).1
unfolding queue_behind IsAnswered
queue_behind-IsAnswered w d s m none u st busy = refl
queue_behind-IsAnswered w d s m (some table) u st busy =
    (refl, busy, queue_behind-IsKept w d s m (some table) u st refl)

send_now-IsAnswered :
    (w : World) (d : Daemon) (s : Session) (m : Text)
    → d.shutting_down ≡ false
    → is_stored d.sessions s.id ≡ true
    → is_locked d s.id ≡ false
    → is_busy w s ≡ false
    → IsAnswered w d s m (send_now w d s m).0 (send_now w d s m).1
unfolding IsAnswered
send_now-IsAnswered w d s m running st free idle =
    let r = send_now-Starts w d s m running st in
    subst (λ p. IsAnswered w d s m p.0 p.1) (sym r.1) (free, idle, r.2)

either-IsAnswered :
    (w : World) (d : Daemon) (s : Session) (m : Text) (b : Bool) (p q : Daemon × Option Reply)
    → (b ≡ true → IsAnswered w d s m p.0 p.1)
    → (b ≡ false → IsAnswered w d s m q.0 q.1)
    → IsAnswered w d s m (if b then p else q).0 (if b then p else q).1
either-IsAnswered w d s m true p q h k = h refl
either-IsAnswered w d s m false p q h k = k refl

send_admitted-IsAnswered :
    (w : World) (d : Daemon) (s : Session) (m : Text) (o : Option ErrorCode)
    → d.shutting_down ≡ false
    → is_stored d.sessions s.id ≡ true
    → send_refusal w d s ≡ o
    → IsAnswered w d s m (send_admitted w d s m o).0 (send_admitted w d s m o).1
unfolding send_admitted IsAnswered
send_admitted-IsAnswered w d s m (some code) running st e = refl
send_admitted-IsAnswered w d s m none running st e =
    either-IsAnswered w d s m (is_busy w s) _ _ (queue_behind-IsAnswered w d s m _ refl st)
      (send_now-IsAnswered w d s m running st (send_refusal-is_locked w d s e))

-- A valid message for a session that is found, to a daemon that is not shutting down. Where it is
-- refused, the daemon is unchanged. Where it is accepted, it was queued behind a busy session and
-- is not lost: it is in the slot, or a turn in flight carries it. Where the reply waits for the
-- driver, the session was neither locked nor busy, and a turn in flight carries the message.
pub send-IsAnswered :
    (w : World) (d : Daemon) (id : Text) (raw : Option Text) (s : Session) (m : Text)
    → d.shutting_down ≡ false
    → get d.sessions id ≡ found s
    → validate_send_message raw ≡ some m
    → IsAnswered w d s m (send w d id raw).0 (send w d id raw).1
unfolding send send_validated send_found
send-IsAnswered w d id raw s m running g v =
    either-IsAnswered w d s m d.shutting_down _ _ (λ e. ground arith)
      (λ e.
        subst (λ o. IsAnswered w d s m (send_validated w d id o).0 (send_validated w d id o).1)
          (sym v)
          (subst (λ l. IsAnswered w d s m (send_found w d m l).0 (send_found w d m l).1) (sym g)
            (send_admitted-IsAnswered w d s m _ running (get-is_stored d.sessions id s g) refl)))

Unchanged : Daemon → Daemon × Option Reply → Type 0
Unchanged d p = (code : ErrorCode) → p.1 ≡ some (refused code) → p.0 ≡ d

unless-Unchanged :
    (b : Bool) (d : Daemon) (p q : Daemon × Option Reply)
    → Unchanged d p
    → (b ≡ false → Unchanged d q)
    → Unchanged d (if b then p else q)
unless-Unchanged true d p q h k = h
unless-Unchanged false d p q h k = k refl

send_found-Unchanged :
    (w : World) (d : Daemon) (id m : Text) (l : Lookup)
    → d.shutting_down ≡ false
    → get d.sessions id ≡ l
    → Unchanged d (send_found w d m l)
unfolding send_found Unchanged IsAnswered
send_found-Unchanged w d id m missing running g code h = refl
send_found-Unchanged w d id m (ambiguous _) running g code h = refl
send_found-Unchanged w d id m (found s) running g code h =
    subst (λ r. IsAnswered w d s m (send_found w d m (found s)).0 r) h
      (send_admitted-IsAnswered w d s m _ running (get-is_stored d.sessions id s g) refl)

send_validated-Unchanged :
    (w : World) (d : Daemon) (id : Text) (o : Option Text)
    → d.shutting_down ≡ false
    → Unchanged d (send_validated w d id o)
unfolding send_validated Unchanged
send_validated-Unchanged w d id none running code h = refl
send_validated-Unchanged w d id (some m) running code h =
    send_found-Unchanged w d id m (get d.sessions id) running refl code h

-- A message that is refused, for whatever reason, leaves the daemon as it was.
pub send-refused :
    (w : World) (d : Daemon) (id : Text) (raw : Option Text) (code : ErrorCode)
    → (send w d id raw).1 ≡ some (refused code)
    → (send w d id raw).0 ≡ d
unfolding send Unchanged
send-refused w d id raw =
    unless-Unchanged d.shutting_down d _ _ (λ code h. refl)
      (send_validated-Unchanged w d id (validate_send_message raw))
