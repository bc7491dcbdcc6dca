-- ===== src/Daemon/Queue.antt =====
-- The message that waits in a session's slot: what a dispatch does with it.
use codedeck.Common.{
  get_or, ℕ, Text, ◌≡◌, refl, sym, subst, ap, ◌∙◌, ◌⊎◌, Bool, true, false, Option, none, some, List,
  ◌==◌, ◌&&◌, ◌||◌, not, any, is_some, eq_refl, arith, Bool-cases, Option-cases, inl, inr,
  if◌then◌else◌,
}
use codedeck.Core.Session.{failed, SessionStatus, Session}
use codedeck.Store.Sessions.{
  set_status, Sessions, get, get_exact, get_from, found, update, update_found,
}
use codedeck.Store.Sessions.Update.{status_patch, SessionUpdate, update_rows}
use codedeck.Store.Sessions.Laws.{get_exact-update_rows, apply_session}
use codedeck.Store.Sessions.Found.{is_stored, stored-get_exact, get_exact-id, update-is_stored}
use codedeck.Daemon.{
  is_open, truthy, is_locked, cleared, broadcast, emit, try_update, slot, World, Daemon, Turn,
  by_dispatch, lock, unlock,
}
use codedeck.Daemon.Resume.{started_turn, try_status, note_failure, fail_turn, run_resume_turn}
use mathlib.Core.Option.{some-injective}
use codedeck.Daemon.Exclusion.{or_same-is_stored}
use codedeck.Daemon.Dispatch.{
  is_resumable, started, cleared_then, dispatch_slot, dispatch_found, try_dispatch, queued_turn,
}

abbrev pub pending_of : Option Session → Option Text
pending_of none = none
pending_of (some s) = s.pending_message

-- The message in the slot of a session.
unfoldable pub slot_of : Sessions → Text → Option Text
slot_of table sid = pending_of (get_exact table sid)

abbrev pub carries : Text → Text → List Turn → Bool
carries sid message turns = any (λ t. t.session.id == sid && t.message == message) turns

-- The message waits in the slot of its session, or a turn of that session carries it.
unfoldable pub IsKept : Daemon → Text → Text → Type 0
IsKept d sid message =
    (slot_of d.sessions sid ≡ some message) ⊎ (carries sid message d.turns ≡ true)

pub stored-exact :
    (table : Sessions) (sid : Text)
    → is_stored table sid ≡ true
    → (s : Session) × (get_exact table sid ≡ some s)
stored-exact table sid st = elim (Option-cases (get_exact table sid)) [
  | inl e ↦ ground (arith, stored-get_exact table sid, ap is_some e)
  | inr e ↦ e
]

slot-exact :
    (table : Sessions) (sid m : Text)
    → slot_of table sid ≡ some m
    → (s : Session) × (get_exact table sid ≡ some s) × (s.pending_message ≡ some m)
unfolding slot_of
slot-exact table sid m h = elim (Option-cases (get_exact table sid)) [
  | inl e ↦ ground (arith, rw e at h)
  | inr e ↦ (e.0, e.1, rw e.1 at h)
]

pub exact-get :
    (table : Sessions) (sid : Text) (s : Session)
    → get_exact table sid ≡ some s
    → get table sid ≡ found s
unfolding get get_from
exact-get table sid s e = rw e refl

-- An update of a stored session goes through.
pub update_stored :
    (table : Sessions) (sid : Text) (p : SessionUpdate) (now : ℕ)
    → is_stored table sid ≡ true
    → update table sid p now ≡ some (update_rows sid p now table)
unfolding update update_found
update_stored table sid p now st =
    let e = stored-exact table sid st in rw (exact-get table sid e.0 e.1) refl

pub slot_of-update_rows :
    (table : Sessions) (sid m : Text) (at now : ℕ)
    → is_stored table sid ≡ true
    → slot_of (update_rows sid (slot m at) now table) sid ≡ some m
unfolding slot_of apply_session
slot_of-update_rows table sid m at now st =
    let e = stored-exact table sid st in
    rw (get_exact-update_rows table sid sid (slot m at) now) (rw (eq_refl sid) (rw e.1 refl))

try_update-slot :
    (w : World) (d : Daemon) (sid m : Text) (at : ℕ)
    → is_stored d.sessions sid ≡ true
    → slot_of (try_update w d sid (slot m at)).sessions sid ≡ some m
unfolding try_update
try_update-slot w d sid m at st =
    rw (update_stored d.sessions sid (slot m at) w.now st)
      (slot_of-update_rows d.sessions sid m at w.now st)

try_status-is_stored :
    (w : World) (d : Daemon) (sid : Text) (st : SessionStatus) (p : SessionUpdate)
    → is_stored (try_status w d sid st p).sessions sid ≡ is_stored d.sessions sid
unfolding try_status set_status
try_status-is_stored w d sid st p =
    or_same-is_stored d (set_status d.sessions sid st w.now p) sid sid (status_patch st w.now p)
      w.now refl

note_failure-is_stored :
    (w : World) (d : Daemon) (sid reason : Text)
    → is_stored (note_failure w d sid reason).sessions sid ≡ is_stored d.sessions sid
unfolding note_failure emit broadcast
note_failure-is_stored w d sid reason = try_status-is_stored w _ sid failed _

either-stored :
    (b : Bool) (d e : Daemon) (sid : Text)
    → is_stored d.sessions sid ≡ true
    → is_stored e.sessions sid ≡ true
    → is_stored (if b then d else e).sessions sid ≡ true
either-stored true d e sid h k = h
either-stored false d e sid h k = k

-- A failed dispatch puts the message back into its slot.
pub fail_turn-slot :
    (w : World) (d : Daemon) (t : Turn) (at : Option ℕ) (reason : Text)
    → is_stored d.sessions t.key ≡ true
    → slot_of (fail_turn w d t (by_dispatch at) reason).0.sessions t.key ≡ some t.message
unfolding fail_turn
fail_turn-slot w d t at reason st = try_update-slot w _ t.key t.message (get_or at w.now) (
    either-stored d.shutting_down d (note_failure w d t.key reason) t.key st
      (note_failure-is_stored w d t.key reason ∙ st))

pub unlock-sessions : (d : Daemon) (sid : Text) → (unlock d sid).sessions ≡ d.sessions
unfolding unlock
unlock-sessions d sid = ground arith

restored :
    (w : World) (d : Daemon) (sid m reason : Text) (s : Session)
    → is_stored d.sessions sid ≡ true
    → IsKept
        (unlock (fail_turn w d (queued_turn sid s m) (by_dispatch s.pending_at) reason).0 sid)
        sid
        m
unfolding IsKept queued_turn
restored w d sid m reason s st =
    let t = queued_turn sid s m in
    let e = (fail_turn w d t (by_dispatch s.pending_at) reason).0 in
    inl (
      ap (λ table. slot_of table sid) (unlock-sessions e sid)
      ∙ fail_turn-slot w d t s.pending_at reason st)

started-carries :
    (w : World) (d d' : Daemon) (t : Turn) (b : Bool) (o : Option Sessions)
    → (if b then none else started_turn w d t o) ≡ some d'
    → carries t.session.id t.message d'.turns ≡ true
unfolding started_turn emit broadcast
started-carries w d d' t true o e = ground arith
started-carries w d d' t false none e = ground arith
started-carries w d d' t false (some table) e =
    subst (λ x. carries t.session.id t.message x.turns ≡ true) (some-injective _ _ e)
      (rw (eq_refl t.session.id) (rw (eq_refl t.message) refl))

pub run_resume_turn-carries :
    (w : World) (d d' : Daemon) (t : Turn)
    → run_resume_turn w d t ≡ some d'
    → carries t.session.id t.message d'.turns ≡ true
unfolding run_resume_turn
run_resume_turn-carries w d d' t e = started-carries w d d' t d.shutting_down _ e

started-IsKept :
    (w : World) (d : Daemon) (sid m : Text) (s : Session) (o : Option Daemon)
    → s.id ≡ sid
    → is_stored d.sessions sid ≡ true
    → run_resume_turn w d (queued_turn sid s m) ≡ o
    → IsKept (started w d (queued_turn sid s m) o) sid m
unfolding started queued_turn IsKept
started-IsKept w d sid m s none k st e = restored w d sid m _ s st
started-IsKept w d sid m s (some d') k st e = inr (
    subst (λ j. carries j m d'.turns ≡ true) k
      (run_resume_turn-carries w d d' (queued_turn sid s m) e))

cleared_then-IsKept :
    (w : World) (d : Daemon) (sid m : Text) (s : Session) (o : Option Sessions)
    → s.id ≡ sid
    → is_stored d.sessions sid ≡ true
    → update d.sessions s.id cleared w.now ≡ o
    → IsKept (cleared_then w d (queued_turn sid s m) o) sid m
unfolding cleared_then queued_turn
cleared_then-IsKept w d sid m s none k st u = restored w d sid m _ s st
cleared_then-IsKept w d sid m s (some table) k st u =
    started-IsKept w (record d { sessions = table }) sid m s _ k
      (update-is_stored d.sessions table s.id sid cleared w.now u ∙ st) refl

either-IsKept :
    (b : Bool) (d e : Daemon) (sid m : Text)
    → IsKept d sid m
    → IsKept e sid m
    → IsKept (if b then d else e) sid m
either-IsKept true d e sid m h k = h
either-IsKept false d e sid m h k = k

dispatch_slot-IsKept :
    (w : World) (d : Daemon) (sid m : Text) (s : Session)
    → get_exact d.sessions sid ≡ some s
    → s.pending_message ≡ some m
    → IsKept (dispatch_slot w d sid s (some m)) sid m
unfolding dispatch_slot IsKept slot_of
dispatch_slot-IsKept w d sid m s e p =
    let k = get_exact-id d.sessions sid s e in
    let st : is_stored d.sessions sid ≡ true =
      sym (stored-get_exact d.sessions sid) ∙ ap is_some e in
    elim (Bool-cases (is_resumable w s)) [
      | inl ready ↦ rw ready (
          cleared_then-IsKept w (lock d sid) sid m s (update d.sessions s.id cleared w.now) k st
            refl)
      | inr held ↦ rw held (
          inl (
            ap (λ table. slot_of table sid) (unlock-sessions (lock d sid) sid)
            ∙ (ap pending_of e ∙ p)))
    ]

dispatch_found-IsKept :
    (w : World) (d : Daemon) (sid m : Text) (s : Session)
    → get_exact d.sessions sid ≡ some s
    → s.pending_message ≡ some m
    → IsKept (dispatch_found w d sid (found s)) sid m
unfolding dispatch_found IsKept slot_of
dispatch_found-IsKept w d sid m s e p =
    either-IsKept (truthy s.pending_message && not (is_open s)) _ d sid m
      (subst (λ o. IsKept (dispatch_slot w d sid s o) sid m) (sym p)
        (dispatch_slot-IsKept w d sid m s e p))
      (inl (ap pending_of e ∙ p))

-- Dispatching a stored session with a message in its slot never loses the message: it is in the
-- slot afterwards, or a turn of that session that carries it is in flight.
pub try_dispatch-IsKept :
    (w : World) (d : Daemon) (sid m : Text)
    → slot_of d.sessions sid ≡ some m
    → IsKept (try_dispatch w d sid) sid m
unfolding try_dispatch IsKept
try_dispatch-IsKept w d sid m h =
    either-IsKept (d.shutting_down || is_locked d sid) d _ sid m (inl h) (
      let e = slot-exact d.sessions sid m h in
      subst (λ l. IsKept (dispatch_found w d sid l) sid m) (sym (exact-get d.sessions sid e.0 e.1))
        (dispatch_found-IsKept w d sid m e.0 e.1 e.2))
