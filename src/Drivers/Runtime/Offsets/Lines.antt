-- ===== src/Drivers/Runtime/Offsets/Lines.antt =====
-- The offsets through the loop of `handleLine` over the events of one line.
use codedeck.Common.{
  ℕ, suc, ◌≤◌, ◌<◌, Text, ◌≡◌, refl, Option, none, some, List, [], ◌∷◌, ◌++◌, arith, All,
  All-append, length, drop, length-append,
}
use mathlib.Core.Path.{subst}
use codedeck.Core.Event.{AgentEvent}
use codedeck.Drivers.Runtime.{
  StreamName, log, stderr, EventBoundary, PendingNoEvent, Entry, Runtime, pending_of, set_pending,
  line_entries, handle_events,
}
use codedeck.Drivers.Runtime.Offsets.{
  Above, Within, BoundaryWithin, Closes, Ordered, PendingSafe, IsSafe, All-drop-append,
}
use codedeck.Drivers.Runtime.Offsets.Keeps.{set_pending-IsSafe, flush-IsSafe}

-- The offsets of the last lines after a line of stream `s` that ends at `offset`.
abbrev pub behind_line : (StreamName → ℕ) → StreamName → ℕ → StreamName → ℕ
behind_line top log offset log = offset
behind_line top log offset stderr = top stderr
behind_line top stderr offset log = top log
behind_line top stderr offset stderr = offset

pub top-le-behind_line :
    (top : StreamName → ℕ) (s s' : StreamName) (offset : ℕ)
    → top s ≤ offset
    → top s' ≤ behind_line top s offset s'
top-le-behind_line top log log offset h = h
top-le-behind_line top log stderr offset h = omega arith
top-le-behind_line top stderr log offset h = omega arith
top-le-behind_line top stderr stderr offset h = h

behind_line_self :
    (top : StreamName → ℕ) (s : StreamName) (offset : ℕ) → behind_line top s offset s ≡ offset
behind_line_self top log offset = refl
behind_line_self top stderr offset = refl

BoundaryWithin-le :
    (top top' : StreamName → ℕ) (b : Option EventBoundary)
    → ((s : StreamName) → top s ≤ top' s)
    → BoundaryWithin top b
    → BoundaryWithin top' b
BoundaryWithin-le top top' none le h = tt
BoundaryWithin-le top top' (some b) le h = omega (arith, le b.stream)

All-Within-le :
    (top top' : StreamName → ℕ) (es : List Entry)
    → ((s : StreamName) → top s ≤ top' s)
    → All (Within top) es
    → All (Within top') es
All-Within-le top top' [] le h = tt
All-Within-le top top' (e ∷ es) le h =
    (BoundaryWithin-le top top' e.boundary le h.0, All-Within-le top top' es le h.1)

PendingSafe-le :
    (s : StreamName) (es : List Entry) (x y : ℕ) (p : Option PendingNoEvent)
    → x ≤ y
    → PendingSafe s es x p
    → PendingSafe s es y p
PendingSafe-le s es x y none le h = tt
PendingSafe-le s es x y (some p) le h = (h.0, omega arith, h.2)

pub raise-IsSafe :
    (top top' : StreamName → ℕ) (rt : Runtime)
    → ((s : StreamName) → top s ≤ top' s)
    → IsSafe top rt
    → IsSafe top' rt
raise-IsSafe top top' rt le v = record {
  yielded_le = v.yielded_le;
  safe_le = λ s. omega (arith, le s, v.safe_le s);
  safe_below = v.safe_below;
  within = All-Within-le top top' rt.buffer le v.within;
  ordered = v.ordered;
  pending_safe = λ s. PendingSafe-le s rt.buffer _ _ (pending_of rt s) (le s) (v.pending_safe s);
}

line_entries-Above :
    (sid : Text) (s s' : StreamName) (x offset i : ℕ) (evs : List AgentEvent)
    → (s ≡ s' → x < offset)
    → All (Above s' x) (line_entries sid s offset i evs)
unfolding line_entries
line_entries-Above sid s s' x offset i [] h = tt
line_entries-Above sid s s' x offset i (ev ∷ evs) h =
    (h, line_entries-Above sid s s' x offset (suc i) evs h)

line_entries-Within :
    (top : StreamName → ℕ) (sid : Text) (s : StreamName) (offset i : ℕ) (evs : List AgentEvent)
    → offset ≤ top s
    → All (Within top) (line_entries sid s offset i evs)
unfolding line_entries
line_entries-Within top sid s offset i [] h = tt
line_entries-Within top sid s offset i (ev ∷ evs) h =
    (h, line_entries-Within top sid s offset (suc i) evs h)

line_entries-Ordered :
    (sid : Text) (s : StreamName) (offset i : ℕ) (evs : List AgentEvent)
    → Ordered (line_entries sid s offset i evs)
unfolding line_entries
line_entries-Ordered sid s offset i [] = tt
line_entries-Ordered sid s offset i (ev ∷ []) = ((λ _. tt), tt)
line_entries-Ordered sid s offset i (ev ∷ ev' ∷ evs) =
    ((λ l. cc), line_entries-Ordered sid s offset (suc i) (ev' ∷ evs))

Closes-append :
    (b : Option EventBoundary) (xs ys : List Entry)
    → Closes b xs
    → ((b' : EventBoundary) → b ≡ some b' → All (Above b'.stream b'.offset) ys)
    → Closes b (xs ++ ys)
Closes-append none xs ys h k = tt
Closes-append (some b) xs ys h k = λ l. All-append (Above b.stream b.offset) xs ys (h l) (k b refl)

-- Entries that lie behind all that was handed over may follow.
pub Ordered-append :
    (top : StreamName → ℕ) (xs ys : List Entry)
    → Ordered xs
    → All (Within top) xs
    → ((s : StreamName) (x : ℕ) → x ≤ top s → All (Above s x) ys)
    → Ordered ys
    → Ordered (xs ++ ys)
Ordered-append top [] ys h w k o = o
Ordered-append top (x ∷ xs) ys h w k o = (
  Closes-append x.boundary xs ys h.0
      (λ b e. k b.stream b.offset (subst (BoundaryWithin top) e w.0)),
  Ordered-append top xs ys h.1 w.1 k o,
)

drop-length : (xs : List Entry) → drop (length xs) xs ≡ []
drop-length [] = refl
drop-length (x ∷ xs) = drop-length xs

module _ (top : StreamName → ℕ) (rt : Runtime) (s : StreamName) (offset : ℕ) (v : IsSafe top rt)
    (later : top s < offset) where
  abbrev raised : StreamName → ℕ
  raised = behind_line top s offset

  raised-IsSafe : IsSafe raised rt
  raised-IsSafe =
      raise-IsSafe top raised rt (λ s'. top-le-behind_line top s s' offset (omega arith)) v

  -- A line without events waits for those before it.
  wait-IsSafe :
      IsSafe raised (
        set_pending rt s (some (record { before_event_count = length rt.buffer; offset = offset })))
  wait-IsSafe =
      set_pending-IsSafe raised rt raised-IsSafe s _
        (omega arith, rw behind_line_self (omega arith), rw drop-length tt)

  new-Above :
      (evs : List AgentEvent) (s' : StreamName) (x : ℕ)
      → x ≤ top s'
      → All (Above s' x) (line_entries rt.session_id s offset 0 evs)
  new-Above evs s' x le =
      line_entries-Above rt.session_id s s' x offset 0 evs
        λ e. (let k : top s' < offset = subst (λ q. top q < offset) e later in omega arith)

  PendingSafe-append :
      (s' : StreamName) (p : Option PendingNoEvent) (evs : List AgentEvent)
      → PendingSafe s' rt.buffer (top s') p
      → PendingSafe s' (rt.buffer ++ line_entries rt.session_id s offset 0 evs) (raised s') p
  PendingSafe-append s' none evs h = tt
  PendingSafe-append s' (some p) evs h =
      let ys = line_entries rt.session_id s offset 0 evs in
      (
        omega (arith, length-append rt.buffer ys),
        omega (arith, top-le-behind_line top s s' offset),
        All-drop-append (Above s' p.offset) _ rt.buffer ys h.2 (new-Above evs s' p.offset h.1),
      )

  append_line-IsSafe :
      (ev : AgentEvent) (evs : List AgentEvent)
      → IsSafe raised (handle_events rt s offset (ev ∷ evs))
  unfolding handle_events
  append_line-IsSafe ev evs =
      let ys = line_entries rt.session_id s offset 0 (ev ∷ evs) in
      record {
        yielded_le = omega (arith, v.yielded_le, length-append rt.buffer ys);
        safe_le = elim [ log ↦ raised-IsSafe.safe_le log | stderr ↦ raised-IsSafe.safe_le stderr ];
        safe_below = elim [
          | log ↦
              All-drop-append (Above log rt.safe_log_offset) _ rt.buffer ys (v.safe_below log)
                (new-Above (ev ∷ evs) log _ (v.safe_le log))
          | stderr ↦
              All-drop-append (Above stderr rt.safe_stderr_offset) _ rt.buffer ys
                (v.safe_below stderr) (new-Above (ev ∷ evs) stderr _ (v.safe_le stderr))
        ];
        within = All-append (Within raised) rt.buffer ys raised-IsSafe.within (
            line_entries-Within raised rt.session_id s offset 0 (ev ∷ evs)
              (rw behind_line_self (omega arith)));
        ordered =
            Ordered-append top rt.buffer ys v.ordered v.within (new-Above (ev ∷ evs))
              (line_entries-Ordered rt.session_id s offset 0 (ev ∷ evs));
        pending_safe = elim [
          | log ↦ PendingSafe-append log rt.pending_log (ev ∷ evs) (v.pending_safe log)
          | stderr ↦ PendingSafe-append stderr rt.pending_stderr (ev ∷ evs) (v.pending_safe stderr)
        ];
      }

  pub handle_events-IsSafe : (evs : List AgentEvent) → IsSafe raised (handle_events rt s offset evs)
  unfolding handle_events
  handle_events-IsSafe [] = flush-IsSafe raised _ wait-IsSafe
  handle_events-IsSafe (ev ∷ evs) = append_line-IsSafe ev evs
