-- ===== src/Drivers/Runtime/Offsets/Keeps.antt =====
-- The offsets through `markSafeOffset` and `flushPendingOffsets`.
use codedeck.Common.{ℕ, ◌≤◌, Text, Option, none, some, arith, All, leb, Bool-cases, inl, inr}
use codedeck.Drivers.Runtime.{
  StreamName, log, stderr, PendingNoEvent, Runtime, safe_of, pending_of, set_pending,
  mark_safe_offset, flush_stream, flush_pending_offsets, wire,
}
use codedeck.Drivers.Runtime.Offsets.{
  Above, PendingSafe, undelivered, IsSafe, All-drop_more, All-Above-max,
}

-- A fresh runtime is safe at the offsets that it starts from.
pub wire-IsSafe :
    (sid : Text) (native : Option Text) (o e : ℕ) (top : StreamName → ℕ)
    → o ≤ top log
    → e ≤ top stderr
    → IsSafe top (wire sid native o e)
unfolding wire
wire-IsSafe sid native o e top ho he = record {
  yielded_le = omega arith;
  safe_le = elim [ log ↦ ho | stderr ↦ he ];
  safe_below = elim [ log ↦ tt | stderr ↦ tt ];
  within = tt;
  ordered = tt;
  pending_safe = elim [ log ↦ tt | stderr ↦ tt ];
}

module _ (top : StreamName → ℕ) (rt : Runtime) (v : IsSafe top rt) where
  mark-safe_le :
      (s s' : StreamName) (x : ℕ) → x ≤ top s → safe_of (mark_safe_offset rt s x) s' ≤ top s'
  unfolding mark_safe_offset
  mark-safe_le log log x h = omega (arith, v.safe_le log)
  mark-safe_le log stderr x h = v.safe_le stderr
  mark-safe_le stderr log x h = v.safe_le log
  mark-safe_le stderr stderr x h = omega (arith, v.safe_le stderr)

  mark-safe_below :
      (s s' : StreamName) (x : ℕ)
      → All (Above s x) (undelivered rt)
      → All (Above s' (safe_of (mark_safe_offset rt s x) s')) (undelivered rt)
  unfolding mark_safe_offset
  mark-safe_below log log x h = All-Above-max log _ x (undelivered rt) (v.safe_below log) h
  mark-safe_below log stderr x h = v.safe_below stderr
  mark-safe_below stderr log x h = v.safe_below log
  mark-safe_below stderr stderr x h =
      All-Above-max stderr _ x (undelivered rt) (v.safe_below stderr) h

  mark-PendingSafe :
      (s s' : StreamName) (x : ℕ)
      → PendingSafe s' rt.buffer (top s') (pending_of (mark_safe_offset rt s x) s')
  unfolding mark_safe_offset
  mark-PendingSafe log log x = v.pending_safe log
  mark-PendingSafe log stderr x = v.pending_safe stderr
  mark-PendingSafe stderr log x = v.pending_safe log
  mark-PendingSafe stderr stderr x = v.pending_safe stderr

  pub mark-IsSafe :
      (s : StreamName) (x : ℕ)
      → x ≤ top s
      → All (Above s x) (undelivered rt)
      → IsSafe top (mark_safe_offset rt s x)
  mark-IsSafe log x le h = record {
    yielded_le = unfold mark_safe_offset in v.yielded_le;
    safe_le = λ s'. mark-safe_le log s' x le;
    safe_below = λ s'. unfold mark_safe_offset in mark-safe_below log s' x h;
    within = unfold mark_safe_offset in v.within;
    ordered = unfold mark_safe_offset in v.ordered;
    pending_safe = λ s'. unfold mark_safe_offset in mark-PendingSafe log s' x;
  }
  mark-IsSafe stderr x le h = record {
    yielded_le = unfold mark_safe_offset in v.yielded_le;
    safe_le = λ s'. mark-safe_le stderr s' x le;
    safe_below = λ s'. unfold mark_safe_offset in mark-safe_below stderr s' x h;
    within = unfold mark_safe_offset in v.within;
    ordered = unfold mark_safe_offset in v.ordered;
    pending_safe = λ s'. unfold mark_safe_offset in mark-PendingSafe stderr s' x;
  }

  pub set_pending-IsSafe :
      (s : StreamName) (p : Option PendingNoEvent)
      → PendingSafe s rt.buffer (top s) p
      → IsSafe top (set_pending rt s p)
  set_pending-IsSafe log p h = record {
    yielded_le = v.yielded_le;
    safe_le = elim [ log ↦ v.safe_le log | stderr ↦ v.safe_le stderr ];
    safe_below = elim [ log ↦ v.safe_below log | stderr ↦ v.safe_below stderr ];
    within = v.within;
    ordered = v.ordered;
    pending_safe = elim [ log ↦ h | stderr ↦ v.pending_safe stderr ];
  }
  set_pending-IsSafe stderr p h = record {
    yielded_le = v.yielded_le;
    safe_le = elim [ log ↦ v.safe_le log | stderr ↦ v.safe_le stderr ];
    safe_below = elim [ log ↦ v.safe_below log | stderr ↦ v.safe_below stderr ];
    within = v.within;
    ordered = v.ordered;
    pending_safe = elim [ log ↦ v.pending_safe log | stderr ↦ h ];
  }

flush_stream-IsSafe :
    (top : StreamName → ℕ) (rt : Runtime) (s : StreamName) (p : Option PendingNoEvent)
    → IsSafe top rt
    → PendingSafe s rt.buffer (top s) p
    → IsSafe top (flush_stream rt s p)
unfolding flush_stream
flush_stream-IsSafe top rt s none v h = v
flush_stream-IsSafe top rt s (some p) v h =
    elim (Bool-cases (leb p.before_event_count rt.yielded_events)) [
      | inl due ↦ rw due (
          set_pending-IsSafe top (mark_safe_offset rt s p.offset)
            (mark-IsSafe top rt v s p.offset h.1
              (All-drop_more (Above s p.offset) _ _ rt.buffer (ground arith) h.2))
            s none tt)
      | inr early ↦ rw early v
    ]

pub flush-IsSafe :
    (top : StreamName → ℕ) (rt : Runtime) → IsSafe top rt → IsSafe top (flush_pending_offsets rt)
unfolding flush_pending_offsets
flush-IsSafe top rt v =
    let rt' = flush_stream rt log rt.pending_log in
    let v' = flush_stream-IsSafe top rt log rt.pending_log v (v.pending_safe log) in
    flush_stream-IsSafe top rt' stderr rt'.pending_stderr v' (v'.pending_safe stderr)
