-- ===== src/Drivers/Runtime/Offsets/Ops.antt =====
-- The offsets through `handleLine`, `finish`, `stop` and the drain of src/drivers/session-runtime.ts.
use codedeck.Common.{
  ℕ, ◌<◌, Text, ◌≡◌, refl, Option, none, some, List, [], ◌∷◌, ◌++◌, arith, All-append,
  length-append,
}
use codedeck.Core.Event.{AgentEvent}
use codedeck.Drivers.Runtime.{
  StreamName, log, stderr, Entry, Runtime, Hooks, Line, PendingNoEvent, push, push_all, handle_line,
  handle_lines, set_native_id, set_native_ids, line_events, keep_stderr,
}
use codedeck.Drivers.Runtime.Offsets.{Above, Within, PendingSafe, IsSafe, All-drop-append}
use codedeck.Drivers.Runtime.Offsets.Lines.{behind_line, handle_events-IsSafe, Ordered-append}

-- The fields on which the offsets depend.
pub record SameFeed (a b : Runtime) : Type 0 where
  pub buffers : a.buffer ≡ b.buffer
  pub yields : a.yielded_events ≡ b.yielded_events
  pub logs : a.safe_log_offset ≡ b.safe_log_offset
  pub stderrs : a.safe_stderr_offset ≡ b.safe_stderr_offset
  pub pending_logs : a.pending_log ≡ b.pending_log
  pub pending_stderrs : a.pending_stderr ≡ b.pending_stderr

pub SameFeed-IsSafe :
    (top : StreamName → ℕ) (a b : Runtime) → SameFeed a b → IsSafe top a → IsSafe top b
SameFeed-IsSafe top a b e v = record {
  yielded_le = rw (← e.yields, ← e.buffers) v.yielded_le;
  safe_le = elim [
    | log ↦ rw (← e.logs) (v.safe_le log)
    | stderr ↦ rw (← e.stderrs) (v.safe_le stderr)
  ];
  safe_below = elim [
    | log ↦ rw (← e.logs, ← e.yields, ← e.buffers) (v.safe_below log)
    | stderr ↦ rw (← e.stderrs, ← e.yields, ← e.buffers) (v.safe_below stderr)
  ];
  within = rw (← e.buffers) v.within;
  ordered = rw (← e.buffers) v.ordered;
  pending_safe = elim [
    | log ↦ rw (← e.buffers, ← e.pending_logs) (v.pending_safe log)
    | stderr ↦ rw (← e.buffers, ← e.pending_stderrs) (v.pending_safe stderr)
  ];
}

set_native_ids-SameFeed : (rt : Runtime) (ids : List Text) → SameFeed rt (set_native_ids rt ids)
unfolding set_native_ids set_native_id
set_native_ids-SameFeed rt [] = record {
  buffers = refl;
  yields = refl;
  logs = refl;
  stderrs = refl;
  pending_logs = refl;
  pending_stderrs = refl;
}
set_native_ids-SameFeed rt (id ∷ ids) =
    ground (arith, set_native_ids-SameFeed (set_native_id rt id) ids)

PendingSafe-push :
    (s : StreamName) (buffer : List Entry) (top : ℕ) (e : Entry) (p : Option PendingNoEvent)
    → e.boundary ≡ none
    → PendingSafe s buffer top p
    → PendingSafe s (buffer ++ e ∷ []) top p
PendingSafe-push s buffer top e none n h = tt
PendingSafe-push s buffer top e (some p) n h = (
  omega (arith, h.0, length-append buffer (e ∷ [])),
  h.1,
  All-drop-append (Above s p.offset) _ buffer (e ∷ []) h.2 (rw n tt, tt),
)

pub push-IsSafe :
    (top : StreamName → ℕ) (rt : Runtime) (ev : AgentEvent)
    → IsSafe top rt
    → IsSafe top (push rt ev)
unfolding push
push-IsSafe top rt ev v =
    let e : Entry = record { event = record ev { session_id = rt.session_id }; boundary = none } in
    record {
      yielded_le = omega (arith, v.yielded_le, length-append rt.buffer (e ∷ []));
      safe_le = elim [ log ↦ v.safe_le log | stderr ↦ v.safe_le stderr ];
      safe_below = elim [
        | log ↦ All-drop-append (Above log _) _ rt.buffer (e ∷ []) (v.safe_below log) (tt, tt)
        | stderr ↦
            All-drop-append (Above stderr _) _ rt.buffer (e ∷ []) (v.safe_below stderr) (tt, tt)
      ];
      within = All-append (Within top) rt.buffer (e ∷ []) v.within (tt, tt);
      ordered =
          Ordered-append top rt.buffer (e ∷ []) v.ordered v.within (λ s x le. (tt, tt)) (tt, tt);
      pending_safe = elim [
        | log ↦ PendingSafe-push log rt.buffer _ e rt.pending_log refl (v.pending_safe log)
        | stderr ↦
            PendingSafe-push stderr rt.buffer _ e rt.pending_stderr refl (v.pending_safe stderr)
      ];
    }

pub push_all-IsSafe :
    (top : StreamName → ℕ) (rt : Runtime) (evs : List AgentEvent)
    → IsSafe top rt
    → IsSafe top (push_all rt evs)
unfolding push_all
push_all-IsSafe top rt [] v = v
push_all-IsSafe top rt (ev ∷ evs) v = push_all-IsSafe top (push rt ev) evs (push-IsSafe top rt ev v)

-- Each line ends behind the last line of its stream.
abbrev pub Forward : (StreamName → ℕ) → List Line → Type 0
Forward top [] = Unit
Forward top (l ∷ ls) = (top l.stream < l.offset) × Forward (behind_line top l.stream l.offset) ls

abbrev pub behind_lines : (StreamName → ℕ) → List Line → StreamName → ℕ
behind_lines top [] = top
behind_lines top (l ∷ ls) = behind_lines (behind_line top l.stream l.offset) ls

pub handle_line-IsSafe :
    (hooks : Hooks) (top : StreamName → ℕ) (rt : Runtime) (l : Line)
    → top l.stream < l.offset
    → IsSafe top rt
    → IsSafe (behind_line top l.stream l.offset) (handle_line hooks rt l)
unfolding handle_line
handle_line-IsSafe hooks top rt l later v =
    let outcome = hooks.on_line l.stream l.text in
    let kept = record rt { stderr_buf = keep_stderr l.stream rt.stderr_buf l.text } in
    let v' =
      SameFeed-IsSafe top rt kept
        (record {
          buffers = refl;
          yields = refl;
          logs = refl;
          stderrs = refl;
          pending_logs = refl;
          pending_stderrs = refl;
        })
        v in
    handle_events-IsSafe top (set_native_ids kept outcome.native_ids) l.stream l.offset
      (SameFeed-IsSafe top kept _ (set_native_ids-SameFeed kept outcome.native_ids) v') later
      (line_events l.stream l.now outcome)

-- Handing over lines in the order in which the files hold them keeps both persisted offsets
-- before every event that is still to be delivered, whatever the driver makes of a line.
pub handle_lines-IsSafe :
    (hooks : Hooks) (top : StreamName → ℕ) (rt : Runtime) (ls : List Line)
    → Forward top ls
    → IsSafe top rt
    → IsSafe (behind_lines top ls) (handle_lines hooks rt ls)
unfolding handle_lines
handle_lines-IsSafe hooks top rt [] f v = v
handle_lines-IsSafe hooks top rt (l ∷ ls) f v =
    handle_lines-IsSafe hooks (behind_line top l.stream l.offset) (handle_line hooks rt l) ls f.1
      (handle_line-IsSafe hooks top rt l f.0 v)
