-- ===== src/Drivers/Runtime/Offsets/Deliver.antt =====
-- The offsets through the delivery of an event, in `events` of src/drivers/session-runtime.ts.
use codedeck.Common.{
  ap, ℕ, ◌+◌, ◌≡◌, refl, Option, none, some, List, [], ◌∷◌, arith, All, Bool-cases, inl, inr,
}
use mathlib.Core.Path.{subst}
use mathlib.Core.Option.{some-injective}
use native.Mathlib.Numerals.{add-one}
use codedeck.Core.Event.{AgentEvent}
use codedeck.Drivers.Runtime.{
  StreamName, log, stderr, EventBoundary, Entry, Runtime, mark_boundary, mark_event_yielded,
  next_event, yield_entry, head_entry,
}
use codedeck.Drivers.Runtime.Offsets.{
  Above, Within, BoundaryWithin, Closes, Ordered, undelivered, IsSafe, All-drop, All-drop_more,
  drop-cons, Ordered-drop,
}
use codedeck.Drivers.Runtime.Offsets.Keeps.{mark-IsSafe, flush-IsSafe}

advance-IsSafe :
    (top : StreamName → ℕ) (rt : Runtime) (e : Entry) (es : List Entry)
    → IsSafe top rt
    → undelivered rt ≡ e ∷ es
    → IsSafe top (record rt { yielded_events = rt.yielded_events + 1 })
advance-IsSafe top rt e es v h = record {
  yielded_le = omega (arith, (drop-cons rt.yielded_events rt.buffer e es h).1);
  safe_le = elim [ log ↦ v.safe_le log | stderr ↦ v.safe_le stderr ];
  safe_below = elim [
    | log ↦
        All-drop_more (Above log rt.safe_log_offset) rt.yielded_events _ rt.buffer (omega arith)
          (v.safe_below log)
    | stderr ↦
        All-drop_more (Above stderr rt.safe_stderr_offset) rt.yielded_events _ rt.buffer
          (omega arith) (v.safe_below stderr)
  ];
  within = v.within;
  ordered = v.ordered;
  pending_safe = elim [ log ↦ v.pending_safe log | stderr ↦ v.pending_safe stderr ];
}

mark_boundary-IsSafe :
    (top : StreamName → ℕ) (rt : Runtime) (b : Option EventBoundary)
    → IsSafe top rt
    → BoundaryWithin top b
    → Closes b (undelivered rt)
    → IsSafe top (mark_boundary rt b)
unfolding mark_boundary
mark_boundary-IsSafe top rt none v w c = v
mark_boundary-IsSafe top rt (some b) v w c = elim (Bool-cases b.last) [
  | inl last ↦ rw last (mark-IsSafe top rt v b.stream b.offset w (c last))
  | inr more ↦ rw more v
]

mark_event-IsSafe :
    (top : StreamName → ℕ) (rt : Runtime) (e : Entry) (es : List Entry)
    → IsSafe top rt
    → undelivered rt ≡ e ∷ es
    → IsSafe top (mark_event_yielded (record rt { yielded_events = rt.yielded_events + 1 }) e)
unfolding mark_event_yielded
mark_event-IsSafe top rt e es v h =
    let head_within : All (Within top) (e ∷ es) =
      rw h at (All-drop (Within top) rt.yielded_events rt.buffer v.within) in
    let head_ordered : Ordered (e ∷ es) =
      rw h at (Ordered-drop rt.yielded_events rt.buffer v.ordered) in
    let behind = (drop-cons rt.yielded_events rt.buffer e es h).0 in
    flush-IsSafe top _ (
      mark_boundary-IsSafe top (record rt { yielded_events = rt.yielded_events + 1 }) e.boundary
        (advance-IsSafe top rt e es v h) head_within.0 (rw add-one (rw behind head_ordered.0)))

yield_entry-IsSafe :
    (top : StreamName → ℕ) (rt rt' : Runtime) (ev : AgentEvent) (es : List Entry)
    → IsSafe top rt
    → undelivered rt ≡ es
    → yield_entry rt (head_entry es) ≡ some (ev, rt')
    → IsSafe top rt'
unfolding yield_entry
yield_entry-IsSafe top rt rt' ev [] v split h = cc
yield_entry-IsSafe top rt rt' ev (e ∷ es) v split h =
    subst (IsSafe top) (ap (λ (p : AgentEvent × Runtime). p.1) (some-injective _ _ h))
      (mark_event-IsSafe top rt e es v split)

-- Delivering the next event keeps both persisted offsets before every event that is still to be
-- delivered.
pub next_event-IsSafe :
    (top : StreamName → ℕ) (rt rt' : Runtime) (ev : AgentEvent)
    → IsSafe top rt
    → next_event rt ≡ some (ev, rt')
    → IsSafe top rt'
unfolding next_event
next_event-IsSafe top rt rt' ev v h = yield_entry-IsSafe top rt rt' ev (undelivered rt) v refl h
