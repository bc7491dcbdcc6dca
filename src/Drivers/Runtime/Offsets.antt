-- ===== src/Drivers/Runtime/Offsets.antt =====
-- The persisted offset of a log file, the lines whose events are still to be delivered, and the
-- invariant that relates them, for src/drivers/session-runtime.ts.
pub mod Keeps
pub mod Deliver
pub mod Lines
pub mod Ops
pub mod Histories
use codedeck.Common.{
  ℕ, zero, suc, ◌+◌, ◌≤◌, ◌<◌, max, Text, ◌≡◌, refl, Bool, true, false, Option, none, some, List,
  [], ◌∷◌, ◌++◌, arith, All, length, drop, length-append,
}
use codedeck.Core.Event.{AgentEvent}
use codedeck.Drivers.Runtime.{
  StreamName, EventBoundary, PendingNoEvent, Entry, Runtime, safe_of, pending_of,
}

-- A boundary on stream `s` lies behind `x`.
abbrev pub BoundaryAbove : StreamName → ℕ → Option EventBoundary → Type 0
BoundaryAbove s x none = Unit
BoundaryAbove s x (some b) = b.stream ≡ s → x < b.offset

abbrev pub Above : StreamName → ℕ → Entry → Type 0
Above s x e = BoundaryAbove s x e.boundary

abbrev pub BoundaryWithin : (StreamName → ℕ) → Option EventBoundary → Type 0
BoundaryWithin top none = Unit
BoundaryWithin top (some b) = b.offset ≤ top b.stream

-- No line of the buffer ends behind the last line that was handed over.
abbrev pub Within : (StreamName → ℕ) → Entry → Type 0
Within top e = BoundaryWithin top e.boundary

-- What stands behind the last event of a line, on the same stream, belongs to a later line.
abbrev pub Closes : Option EventBoundary → List Entry → Type 0
Closes none es = Unit
Closes (some b) es = b.last ≡ true → All (Above b.stream b.offset) es

abbrev pub Ordered : List Entry → Type 0
Ordered [] = Unit
Ordered (e ∷ es) = Closes e.boundary es × Ordered es

-- A line without events is waited for by no event that was handed over before it.
abbrev pub PendingSafe : StreamName → List Entry → ℕ → Option PendingNoEvent → Type 0
PendingSafe s buffer top none = Unit
PendingSafe s buffer top (some p) =
    (p.before_event_count ≤ length buffer)
    × (p.offset ≤ top)
    × All (Above s p.offset) (drop p.before_event_count buffer)

abbrev pub undelivered : Runtime → List Entry
undelivered rt = drop rt.yielded_events rt.buffer

-- `top s` is the offset behind the last line of stream `s` that was handed over.
pub record IsSafe (top : StreamName → ℕ) (rt : Runtime) : Type 0 where
  pub yielded_le : rt.yielded_events ≤ length rt.buffer
  pub safe_le : (s : StreamName) → safe_of rt s ≤ top s
  pub safe_below : (s : StreamName) → All (Above s (safe_of rt s)) (undelivered rt)
  pub within : All (Within top) rt.buffer
  pub ordered : Ordered rt.buffer
  pub pending_safe : (s : StreamName) → PendingSafe s rt.buffer (top s) (pending_of rt s)

module _ (P : Entry → Type 0) where
  pub All-drop : (n : ℕ) (xs : List Entry) → All P xs → All P (drop n xs)
  All-drop zero xs h = h
  All-drop (suc n) [] h = tt
  All-drop (suc n) (x ∷ xs) h = All-drop n xs h.1

  pub All-drop_more : (m n : ℕ) (xs : List Entry) → m ≤ n → All P (drop m xs) → All P (drop n xs)
  All-drop_more zero n xs le h = All-drop n xs h
  All-drop_more (suc m) zero xs le h = elim le [ ]
  All-drop_more (suc m) (suc n) [] le h = tt
  All-drop_more (suc m) (suc n) (x ∷ xs) le h = All-drop_more m n xs (omega arith) h

  pub All-drop-append :
      (n : ℕ) (xs ys : List Entry) → All P (drop n xs) → All P ys → All P (drop n (xs ++ ys))
  All-drop-append zero [] ys h k = k
  All-drop-append zero (x ∷ xs) ys h k = (h.0, All-drop-append zero xs ys h.1 k)
  All-drop-append (suc n) [] ys h k = All-drop (suc n) ys k
  All-drop-append (suc n) (x ∷ xs) ys h k = All-drop-append n xs ys h k

-- The entries behind `n` start with the entry at `n`.
pub drop-cons :
    (n : ℕ) (xs : List Entry) (e : Entry) (es : List Entry)
    → drop n xs ≡ e ∷ es
    → (drop (suc n) xs ≡ es) × (suc n ≤ length xs)
drop-cons zero [] e es h = cc
drop-cons zero (x ∷ xs) e es h = (cc, omega arith)
drop-cons (suc n) [] e es h = cc
drop-cons (suc n) (x ∷ xs) e es h = let (p, q) = drop-cons n xs e es h in (p, omega arith)

pub Ordered-drop : (n : ℕ) (xs : List Entry) → Ordered xs → Ordered (drop n xs)
Ordered-drop zero xs h = h
Ordered-drop (suc n) [] h = tt
Ordered-drop (suc n) (x ∷ xs) h = Ordered-drop n xs h.1

-- An offset on another stream, or one that is no larger, leaves an entry above.
Above-le : (s : StreamName) (x y : ℕ) (e : Entry) → x ≤ y → Above s y e → Above s x e
Above-le s x y e le h = ground arith

BoundaryAbove-max :
    (s : StreamName) (x y : ℕ) (b : Option EventBoundary)
    → BoundaryAbove s x b
    → BoundaryAbove s y b
    → BoundaryAbove s (max x y) b
BoundaryAbove-max s x y none h k = tt
BoundaryAbove-max s x y (some b) h k = λ e. omega (arith, h e, k e)

pub All-Above-max :
    (s : StreamName) (x y : ℕ) (es : List Entry)
    → All (Above s x) es
    → All (Above s y) es
    → All (Above s (max x y)) es
All-Above-max s x y [] h k = tt
All-Above-max s x y (e ∷ es) h k =
    (BoundaryAbove-max s x y e.boundary h.0 k.0, All-Above-max s x y es h.1 k.1)
