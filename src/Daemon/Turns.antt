-- ===== src/Daemon/Turns.antt =====
-- The turns in flight and the locks that guard them, through send, dispatch and the end of a turn.
use codedeck.Common.{
  is_some, ◌∙◌, ℕ, Text, ◌≡◌, refl, sym, subst, Bool, true, false, Option, none, some, List, [],
  ◌∷◌, ◌==◌, eq_iff, not, any, filter_by, arith, Bool-cases, inl, inr, if◌then◌else◌,
}
use codedeck.Core.Session.{SessionStatus, failed, Session}
use codedeck.Store.Sessions.{Sessions, update, set_status}
use codedeck.Store.Sessions.Update.{SessionUpdate}
use codedeck.Daemon.{
  service_unavailable, refused, no_update, AgentEvent, World, Daemon, Turn, TurnOrigin, by_send,
  by_dispatch, or_same, try_update, emit, unlock,
}
use codedeck.Daemon.Resume.{
  fail_turn, finish_turn, settle_turn, note_failure, try_status, record_native, record_sent,
  Recorded, recorded, broken_off, stored_or, and_record, record_pid, settle_sent, start_error,
  DriverOutcome, threw, sent,
}

abbrev pub in_flight : Text → List Turn → Bool
in_flight sid turns = any (λ t. t.session.id == sid) turns

abbrev pub holds : List Text → Text → Bool
holds locks sid = any (λ l. l == sid) locks

-- Each turn in flight has its session locked, under that session's id, and no two are of one session.
unfoldable pub Exclusive : List Text → List Turn → Type 0
Exclusive locks [] = Unit
Exclusive locks (t ∷ turns) =
    (holds locks t.session.id ≡ true)
    × (in_flight t.session.id turns ≡ false)
    × (t.key ≡ t.session.id)
    × Exclusive locks turns

unfoldable pub IsExclusive : Daemon → Type 0
IsExclusive d = Exclusive d.session_locks d.turns

pub Exclusive-lock :
    (l : Text) (locks : List Text) (turns : List Turn)
    → Exclusive locks turns
    → Exclusive (l ∷ locks) turns
unfolding Exclusive
Exclusive-lock l locks [] h = tt
Exclusive-lock l locks (t ∷ turns) h = ground (arith, Exclusive-lock l locks turns h.3)

-- A session without its lock has no turn in flight.
pub free-in_flight :
    (sid : Text) (locks : List Text) (turns : List Turn)
    → Exclusive locks turns
    → holds locks sid ≡ false
    → in_flight sid turns ≡ false
unfolding Exclusive
free-in_flight sid locks [] h e = refl
free-in_flight sid locks (t ∷ turns) h e = elim (Bool-cases (t.session.id == sid)) [
  | inl here ↦
      let locked : holds locks sid ≡ true =
        subst (λ x. holds locks x ≡ true) ((eq_iff t.session.id sid).0 here) h.0 in
      ground arith
  | inr other ↦ rw other (free-in_flight sid locks turns h.3 e)
]

holds-filter_by :
    (sid l : Text) (locks : List Text)
    → holds locks l ≡ true
    → (l == sid) ≡ false
    → holds (filter_by (λ x. not (x == sid)) locks) l ≡ true
holds-filter_by sid l [] h e = h
holds-filter_by sid l (x ∷ locks) h e = elim (Bool-cases (x == l)) [
  | inl here ↦
      let stays : (x == sid) ≡ false =
        subst (λ y. (y == sid) ≡ false) (sym ((eq_iff x l).0 here)) e in
      rw stays (rw here refl)
  | inr other ↦ let ih = holds-filter_by sid l locks (rw other at h) e in ground arith
]

Exclusive-unlock :
    (sid : Text) (locks : List Text) (turns : List Turn)
    → Exclusive locks turns
    → in_flight sid turns ≡ false
    → Exclusive (filter_by (λ x. not (x == sid)) locks) turns
unfolding Exclusive
Exclusive-unlock sid locks [] h e = tt
Exclusive-unlock sid locks (t ∷ turns) h e =
    ground (arith, holds-filter_by sid t.session.id locks, Exclusive-unlock sid locks turns h.3)

in_flight-filter_by :
    (sid j : Text) (turns : List Turn)
    → in_flight j turns ≡ false
    → in_flight j (filter_by (λ u. not (u.session.id == sid)) turns) ≡ false
in_flight-filter_by sid j [] e = refl
in_flight-filter_by sid j (t ∷ turns) e = ground (arith, in_flight-filter_by sid j turns)

in_flight-removed :
    (sid : Text) (turns : List Turn)
    → in_flight sid (filter_by (λ u. not (u.session.id == sid)) turns) ≡ false
in_flight-removed sid [] = refl
in_flight-removed sid (t ∷ turns) = ground (arith, in_flight-removed sid turns)

Exclusive-removed :
    (sid : Text) (locks : List Text) (turns : List Turn)
    → Exclusive locks turns
    → Exclusive locks (filter_by (λ u. not (u.session.id == sid)) turns)
unfolding Exclusive
Exclusive-removed sid locks [] h = tt
Exclusive-removed sid locks (t ∷ turns) h = elim (Bool-cases (t.session.id == sid)) [
  | inl e ↦ rw e (Exclusive-removed sid locks turns h.3)
  | inr e ↦ rw e (
    h.0,
    in_flight-filter_by sid t.session.id turns h.1,
    h.2,
    Exclusive-removed sid locks turns h.3,
  )
]

-- The two agree on locks and turns.
unfoldable pub Same : Daemon → Daemon → Type 0
Same d e = (e.session_locks ≡ d.session_locks) × (e.turns ≡ d.turns)

or_same-Same : (d : Daemon) (o : Option Sessions) → Same d (or_same d o)
unfolding Same
or_same-Same d none = (refl, refl)
or_same-Same d (some t) = (refl, refl)

Same-refl : (d : Daemon) → Same d d
unfolding Same
Same-refl d = (refl, refl)

pub Same-trans : (a b c : Daemon) → Same a b → Same b c → Same a c
unfolding Same
Same-trans a b c h k = (k.0 ∙ h.0, k.1 ∙ h.1)

pub Same-IsExclusive : (d e : Daemon) → Same d e → IsExclusive d → IsExclusive e
unfolding Same IsExclusive
Same-IsExclusive d e h ok =
    subst (λ ls. Exclusive ls e.turns) (sym h.0)
      (subst (λ ts. Exclusive d.session_locks ts) (sym h.1) ok)

-- What touches sessions and events only.
pub try_update-Same :
    (w : World) (d : Daemon) (sid : Text) (p : SessionUpdate) → Same d (try_update w d sid p)
unfolding try_update
try_update-Same w d sid p = or_same-Same d (update d.sessions sid p w.now)

emit-Same : (d : Daemon) (sid : Text) (ev : AgentEvent) → Same d (emit d sid ev)
unfolding emit Same
emit-Same d sid ev = (refl, refl)

when-Same : (b : Bool) (d e f : Daemon) → Same d f → Same d e → Same d (if b then f else e)
when-Same true d e f h k = h
when-Same false d e f h k = k

reply-Same :
    {R : Type 0} (b : Bool) (d : Daemon) (p q : Daemon × R)
    → Same d p.0
    → Same d q.0
    → Same d (if b then p else q).0
reply-Same true d p q h k = h
reply-Same false d p q h k = k

-- Whether the updates ran or threw, they touch sessions only.
SameRecorded : Daemon → Recorded → Type 0
SameRecorded d (recorded e) = Same d e
SameRecorded d (broken_off e) = Same d e

when-SameRecorded :
    (b : Bool) (d : Daemon) (r s : Recorded)
    → SameRecorded d r
    → SameRecorded d s
    → SameRecorded d (if b then r else s)
when-SameRecorded true d r s h k = h
when-SameRecorded false d r s h k = k

stored-Same : (d : Daemon) (o : Option Sessions) → SameRecorded d (stored_or d o)
unfolding SameRecorded Same
stored-Same d none = (refl, refl)
stored-Same d (some table) = (refl, refl)

unchanged-Same : (d : Daemon) → SameRecorded d (recorded d)
unfolding SameRecorded
unchanged-Same d = Same-refl d

from_Same : (d e : Daemon) (r : Recorded) → Same d e → SameRecorded e r → SameRecorded d r
unfolding SameRecorded
from_Same d e (recorded x) h k = Same-trans d e x h k
from_Same d e (broken_off x) h k = Same-trans d e x h k

and_record-Same :
    (d : Daemon) (r : Recorded) (next : Daemon → Recorded)
    → SameRecorded d r
    → ((e : Daemon) → SameRecorded e (next e))
    → SameRecorded d (and_record r next)
unfolding SameRecorded
and_record-Same d (broken_off e) next h k = h
and_record-Same d (recorded e) next h k = from_Same d e (next e) h (k e)

record_native-Same :
    (w : World) (d : Daemon) (s : Session) (n : Option Text)
    → SameRecorded d (record_native w d s n)
unfolding record_native
record_native-Same w d s n = when-SameRecorded _ d _ _ (stored-Same d _) (unchanged-Same d)

record_sent-Same :
    (w : World) (d : Daemon) (s : Session) (pid : Option ℕ) (n : Option Text)
    → SameRecorded d (record_sent w d s pid n)
unfolding record_sent
record_sent-Same w d s pid n =
    and_record-Same d _ _
      (and_record-Same d (record_native w d s n) (record_pid w s pid) (record_native-Same w d s n)
        (λ e. when-SameRecorded (is_some pid) e _ _ (stored-Same e _) (unchanged-Same e)))
      (λ e. stored-Same e _)

try_status-Same :
    (w : World) (d : Daemon) (sid : Text) (st : SessionStatus) (p : SessionUpdate)
    → Same d (try_status w d sid st p)
unfolding try_status
try_status-Same w d sid st p = or_same-Same d (set_status d.sessions sid st w.now p)

note_failure-Same :
    (w : World) (d : Daemon) (sid reason : Text) → Same d (note_failure w d sid reason)
unfolding note_failure
note_failure-Same w d sid reason =
    Same-trans _ _ _ (emit-Same d sid _) (try_status-Same w _ sid failed _)

pub fail_turn-Same :
    (w : World) (d : Daemon) (t : Turn) (o : TurnOrigin) (reason : Text)
    → Same d (fail_turn w d t o reason).0
unfolding fail_turn
fail_turn-Same w d t by_send reason =
    reply-Same d.shutting_down d (d, some (refused service_unavailable)) _ (Same-refl d)
      (try_status-Same w d t.key failed no_update)
fail_turn-Same w d t (by_dispatch at) reason =
    Same-trans _ _ _
      (when-Same d.shutting_down d _ d (Same-refl d) (note_failure-Same w d t.key reason))
      (try_update-Same w _ t.key _)

settle_sent-Same :
    (w : World) (d : Daemon) (t : Turn) (r : Recorded)
    → SameRecorded d r
    → Same d (settle_sent w t r).0
unfolding settle_sent SameRecorded
settle_sent-Same w d t (recorded e) h = h
settle_sent-Same w d t (broken_off e) h =
    Same-trans d e _ h (fail_turn-Same w e t t.origin (start_error e t))

settle_turn-Same :
    (w : World) (d : Daemon) (t : Turn) (o : DriverOutcome) → Same d (settle_turn w d t o).0
unfolding settle_turn
settle_turn-Same w d t (threw reason) = fail_turn-Same w d t t.origin reason
settle_turn-Same w d t (sent pid n) =
    reply-Same d.shutting_down d _ _ (fail_turn-Same w d t t.origin _) (
      settle_sent-Same w d t (record_sent w d t.session pid n)
        (record_sent-Same w d t.session pid n))

pub unlock-IsExclusive :
    (d : Daemon) (sid : Text)
    → IsExclusive d
    → in_flight sid d.turns ≡ false
    → IsExclusive (unlock d sid)
unfolding IsExclusive unlock
unlock-IsExclusive d sid h e = elim (Bool-cases d.shutting_down) [
  | inl closing ↦ rw closing h
  | inr running ↦ rw running (Exclusive-unlock sid d.session_locks d.turns h e)
]

pub finish_turn-IsExclusive :
    (w : World) (d : Daemon) (t : Turn) (o : DriverOutcome)
    → t.key ≡ t.session.id
    → IsExclusive d
    → IsExclusive (finish_turn w d t o).0
unfolding finish_turn IsExclusive Same
finish_turn-IsExclusive w d t o key h =
    let d1 : Daemon = record d {
      turns = filter_by (λ u. not (u.session.id == t.session.id)) d.turns;
    } in
    let same = settle_turn-Same w d1 t o in
    unlock-IsExclusive (settle_turn w d1 t o).0 t.key
      (Same-IsExclusive d1 (settle_turn w d1 t o).0 same
        (Exclusive-removed t.session.id d.session_locks d.turns h))
      (subst (λ ts. in_flight t.key ts ≡ false) (sym same.1)
        (rw key (in_flight-removed t.session.id d.turns)))
