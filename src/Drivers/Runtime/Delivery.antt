-- ===== src/Drivers/Runtime/Delivery.antt =====
-- `events` of src/drivers/session-runtime.ts: the generator that hands the buffer to its consumer.
use codedeck.Common.{
  ℕ, zero, suc, ◌+◌, ◌≤◌, ◌≡◌, refl, sym, subst, ap, ◌∙◌, Bool, true, false, Option, none, some,
  List, [], ◌∷◌, map, arith, length, drop, leb, if◌then◌else◌,
}
use codedeck.Core.Event.{AgentEvent}
use codedeck.Drivers.Runtime.{
  StreamName, log, stderr, EventBoundary, PendingNoEvent, Entry, Runtime, mark_safe_offset,
  set_pending, flush_stream, flush_pending_offsets, mark_boundary, mark_event_yielded, yield_entry,
  next_event, resume_consumer, is_drained,
}
use codedeck.Drivers.Runtime.Offsets.{drop-cons, undelivered}

-- Offsets apart, the two runtimes feed their consumer alike.
Same : Runtime → Runtime → Type 0
Same a b =
    (b.buffer ≡ a.buffer)
    × (b.yielded_events ≡ a.yielded_events)
    × (b.consumed_events ≡ a.consumed_events)
    × (b.done ≡ a.done)

Same-trans : (a b c : Runtime) → Same a b → Same b c → Same a c
unfolding Same
Same-trans a b c h k = (k.0 ∙ h.0, k.1 ∙ h.1, k.2 ∙ h.2, k.3 ∙ h.3)

mark_safe_offset-Same : (rt : Runtime) (s : StreamName) (x : ℕ) → Same rt (mark_safe_offset rt s x)
unfolding Same mark_safe_offset
mark_safe_offset-Same rt log x = (refl, refl, refl, refl)
mark_safe_offset-Same rt stderr x = (refl, refl, refl, refl)

set_pending-Same :
    (rt : Runtime) (s : StreamName) (p : Option PendingNoEvent) → Same rt (set_pending rt s p)
unfolding Same
set_pending-Same rt log p = (refl, refl, refl, refl)
set_pending-Same rt stderr p = (refl, refl, refl, refl)

when-Same : (b : Bool) (a c : Runtime) → Same a c → Same a (if b then c else a)
unfolding Same
when-Same true a c h = h
when-Same false a c h = (refl, refl, refl, refl)

flush_stream-Same :
    (rt : Runtime) (s : StreamName) (o : Option PendingNoEvent) → Same rt (flush_stream rt s o)
unfolding flush_stream Same
flush_stream-Same rt s none = (refl, refl, refl, refl)
flush_stream-Same rt s (some p) =
    let marked = mark_safe_offset rt s p.offset in
    when-Same (leb p.before_event_count rt.yielded_events) rt (set_pending marked s none) (
      Same-trans rt marked (set_pending marked s none) (mark_safe_offset-Same rt s p.offset)
        (set_pending-Same marked s none))

mark_boundary-Same : (rt : Runtime) (o : Option EventBoundary) → Same rt (mark_boundary rt o)
unfolding mark_boundary Same
mark_boundary-Same rt none = (refl, refl, refl, refl)
mark_boundary-Same rt (some b) =
    when-Same b.last rt (mark_safe_offset rt b.stream b.offset)
      (mark_safe_offset-Same rt b.stream b.offset)

mark_event_yielded-Same : (rt : Runtime) (e : Entry) → Same rt (mark_event_yielded rt e)
unfolding mark_event_yielded flush_pending_offsets
mark_event_yielded-Same rt e =
    let r1 = mark_boundary rt e.boundary in
    let r2 = flush_stream r1 log r1.pending_log in
    let r3 = flush_stream r2 stderr r2.pending_stderr in
    Same-trans rt r1 r3 (mark_boundary-Same rt e.boundary) (
      Same-trans r1 r2 r3 (flush_stream-Same r1 log r1.pending_log)
        (flush_stream-Same r2 stderr r2.pending_stderr))

abbrev taken :
    (Runtime → List AgentEvent × Runtime)
    → Runtime
    → Option (AgentEvent × Runtime)
    → List AgentEvent × Runtime
taken next rt none = ([], rt)
taken next rt (some (ev, rt')) = let rest = next (resume_consumer rt') in (ev ∷ rest.0, rest.1)

-- The consumer takes up to `n` events, and comes back after each.
unfoldable pub consume : ℕ → Runtime → List AgentEvent × Runtime
consume zero rt = ([], rt)
consume (suc n) rt = taken (consume n) rt (next_event rt)

-- Between two events, as many were consumed as were delivered.
unfoldable pub IsWaiting : Runtime → Type 0
IsWaiting rt = (rt.yielded_events ≤ length rt.buffer) × (rt.consumed_events ≡ rt.yielded_events)

abbrev delivered : Runtime → Entry → Runtime
delivered rt e = mark_event_yielded (record rt { yielded_events = rt.yielded_events + 1 }) e

after : Runtime → Entry → Runtime
after rt e = resume_consumer (delivered rt e)

after-Same :
    (rt : Runtime) (e : Entry)
    → ((after rt e).buffer ≡ rt.buffer)
      × ((after rt e).yielded_events ≡ rt.yielded_events + 1)
      × ((after rt e).consumed_events ≡ rt.consumed_events + 1)
      × ((after rt e).done ≡ rt.done)
unfolding after resume_consumer Same
after-Same rt e =
    let same = mark_event_yielded-Same (record rt { yielded_events = rt.yielded_events + 1 }) e in
    (same.0, same.1, ap (λ n. n + 1) same.2, same.3)

-- What is left when every event of `es`, the undelivered entries, was taken.
IsConsumed : Runtime → List Entry → List AgentEvent × Runtime → Type 0
IsConsumed rt es p =
    (p.0 ≡ map (λ e. e.event) es)
    × (p.1.buffer ≡ rt.buffer)
    × (p.1.consumed_events ≡ length rt.buffer)
    × (p.1.done ≡ rt.done)

next_event-cons :
    (rt : Runtime) (e : Entry) (es : List Entry)
    → undelivered rt ≡ e ∷ es
    → next_event rt ≡ some (e.event, delivered rt e)
unfolding next_event yield_entry
next_event-cons rt e es h = rw h refl

consume-cons :
    (n : ℕ) (rt : Runtime) (p : AgentEvent × Runtime)
    → next_event rt ≡ some p
    → consume (suc n) rt
      ≡ (p.0 ∷ (consume n (resume_consumer p.1)).0, (consume n (resume_consumer p.1)).1)
unfolding consume
consume-cons n rt p h = ap (λ o. taken (consume n) rt o) h

drop-nil : (n : ℕ) (xs : List Entry) → n ≤ length xs → drop n xs ≡ [] → n ≡ length xs
drop-nil zero [] le h = refl
drop-nil zero (x ∷ xs) le h = cc
drop-nil (suc n) [] le h = omega arith
drop-nil (suc n) (x ∷ xs) le h = omega (arith, drop-nil n xs (omega arith) h)

consume-IsConsumed :
    (es : List Entry) (rt : Runtime)
    → undelivered rt ≡ es
    → IsWaiting rt
    → IsConsumed rt es (consume (length es) rt)
unfolding consume IsConsumed IsWaiting after
consume-IsConsumed [] rt h k = (refl, refl, k.1 ∙ drop-nil rt.yielded_events rt.buffer k.0 h, refl)
consume-IsConsumed (e ∷ es) rt h k =
    let same = after-Same rt e in
    let behind = drop-cons rt.yielded_events rt.buffer e es h in
    let next : (after rt e).yielded_events ≡ suc rt.yielded_events = omega (arith, same.1) in
    let left : undelivered (after rt e) ≡ es =
      subst (λ b. drop (after rt e).yielded_events b ≡ es) (sym same.0)
        (subst (λ n. drop n rt.buffer ≡ es) (sym next) behind.0) in
    let fits : (after rt e).yielded_events ≤ length (after rt e).buffer =
      omega (arith, same.1, ap length same.0, behind.1) in
    let ih = consume-IsConsumed es (after rt e) left (fits, omega (arith, same.1, same.2, k.1)) in
    subst (λ q. IsConsumed rt (e ∷ es) q)
      (sym (consume-cons (length es) rt (e.event, delivered rt e) (next_event-cons rt e es h)))
      (ap (λ evs. e.event ∷ evs) ih.0, ih.1 ∙ same.0, ih.2 ∙ ap length same.0, ih.3 ∙ same.3)

-- A consumer that takes as many events as are undelivered gets exactly those, each once and in the
-- order of the buffer; and if the runtime is done, it is drained then.
pub consume_lem :
    (rt : Runtime)
    → IsWaiting rt
    → ((consume (length (undelivered rt)) rt).0 ≡ map (λ e. e.event) (undelivered rt))
      × (rt.done ≡ true → is_drained (consume (length (undelivered rt)) rt).1 ≡ true)
unfolding IsConsumed is_drained
consume_lem rt k =
    let all = consume-IsConsumed (undelivered rt) rt refl k in
    (all.0, λ d. ground (arith, all.2, all.3, ap length all.1))
