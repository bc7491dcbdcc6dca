-- ===== src/Daemon/Restored.antt =====
-- The end of a turn that came from the queue, in `tryDispatch` of src/daemon/daemon.ts.
use codedeck.Common.{
  filter_by, ℕ, Text, ◌≡◌, sym, subst, ap, ◌∙◌, Bool, true, false, Option, some, ◌==◌, not, arith,
  if◌then◌else◌,
}
use codedeck.Store.Sessions.Found.{is_stored}
use codedeck.Daemon.{Reply, World, Daemon, Turn, by_dispatch}
use codedeck.Daemon.Queue.{slot_of, fail_turn-slot, unlock-sessions}
use codedeck.Daemon.Resume.{
  record_sent, settle_sent, shutdown_text, threw, DriverOutcome, settle_turn, finish_turn, sent,
  fail_turn,
}

-- The driver threw, or the daemon shut down meanwhile.
abbrev pub IsUndelivered : Daemon → DriverOutcome → Type 0
IsUndelivered d (threw reason) = Unit
IsUndelivered d (sent pid native) = d.shutting_down ≡ true

first-slot :
    (b : Bool) (p q : Daemon × Option Reply) (sid m : Text)
    → b ≡ true
    → slot_of p.0.sessions sid ≡ some m
    → slot_of (if b then p else q).0.sessions sid ≡ some m
first-slot true p q sid m e h = h
first-slot false p q sid m e h = ground arith

settle_turn-slot :
    (w : World) (d : Daemon) (t : Turn) (at : Option ℕ) (o : DriverOutcome)
    → t.origin ≡ by_dispatch at
    → is_stored d.sessions t.key ≡ true
    → IsUndelivered d o
    → slot_of (settle_turn w d t o).0.sessions t.key ≡ some t.message
unfolding settle_turn
settle_turn-slot w d t at (threw reason) e st u =
    subst (λ x. slot_of (fail_turn w d t x reason).0.sessions t.key ≡ some t.message) (sym e)
      (fail_turn-slot w d t at reason st)
settle_turn-slot w d t at (sent pid n) e st u =
    first-slot d.shutting_down (fail_turn w d t t.origin shutdown_text)
      (settle_sent w t (record_sent w d t.session pid n)) t.key t.message u
      (subst (λ x. slot_of (fail_turn w d t x shutdown_text).0.sessions t.key ≡ some t.message)
        (sym e) (fail_turn-slot w d t at shutdown_text st))

-- A turn that was dispatched under the id of a stored session, and whose driver threw or that
-- finishes while the daemon shuts down, leaves its message in the slot of that session again.
pub finish_turn-slot :
    (w : World) (d : Daemon) (t : Turn) (at : Option ℕ) (o : DriverOutcome)
    → t.origin ≡ by_dispatch at
    → is_stored d.sessions t.key ≡ true
    → IsUndelivered d o
    → slot_of (finish_turn w d t o).0.sessions t.key ≡ some t.message
unfolding finish_turn
finish_turn-slot w d t at o e st u =
    let d1 : Daemon = record d {
      turns = filter_by (λ x. not (x.session.id == t.session.id)) d.turns;
    } in
    ap (λ table. slot_of table t.key) (unlock-sessions (settle_turn w d1 t o).0 t.key)
    ∙ settle_turn-slot w d1 t at o e st u
