-- ===== src/Daemon/Ipc/Rounds.antt =====
-- The loops of `createIpcServer` in src/daemon/ipc.ts over one buffer.
use codedeck.Common.{Text, ◌≡◌, sym, ap, ◌∙◌, Option, none, some, List, [], ◌∷◌, ◌++◌}
use mathlib.Core.List.{append_assoc}
use codedeck.Drivers.Tailer.{Split, split_lines}
use codedeck.Drivers.Tailer.Chunks.{continued, split_lines-append}
use codedeck.Daemon.Ipc.{cut_line, Connection, Step, chunk, round, step, steps, after_cut}
use codedeck.Daemon.Ipc.Lines.{Cuts, cut_line-Cuts}

-- What was taken and what the buffer still holds are the lines of what has come.
abbrev pub IsInOrder : Connection → Type 0
IsInOrder c = split_lines c.received ≡ record {
  complete = c.started ++ (split_lines c.buf).complete;
  partial = (split_lines c.buf).partial;
}

lines_of : List Text → Text → Split
lines_of complete partial = record { complete = complete; partial = partial }

chunk-IsInOrder : (text : Text) (c : Connection) → IsInOrder c → IsInOrder (step (chunk text) c)
unfolding step continued lines_of
chunk-IsInOrder text c h =
    let held = split_lines c.buf in
    let k = split_lines (held.partial ++ text) in
    split_lines-append c.received text
    ∙ ap (λ s. continued s text) h
    ∙ ap (λ lines. lines_of lines k.partial) (append_assoc c.started held.complete k.complete)
    ∙ ap (λ (s : Split). lines_of (c.started ++ s.complete) s.partial)
        (sym (split_lines-append c.buf text))

cut-IsInOrder :
    (c : Connection) (o : Option (Text × Text))
    → Cuts c.buf o
    → IsInOrder c
    → IsInOrder (after_cut c o)
unfolding lines_of
cut-IsInOrder c none k h = h
cut-IsInOrder c (some (line, rest)) k h =
    h
    ∙ ap (λ (s : Split). lines_of (c.started ++ s.complete) s.partial) k.0
    ∙ ap (λ lines. lines_of lines (split_lines rest).partial)
        (sym (append_assoc c.started (line ∷ []) (split_lines rest).complete))

step-IsInOrder : (s : Step) (c : Connection) → IsInOrder c → IsInOrder (step s c)
unfolding step
step-IsInOrder (chunk text) c h = chunk-IsInOrder text c h
step-IsInOrder round c h = cut-IsInOrder c (cut_line c.buf) (cut_line-Cuts c.buf) h

-- However the chunks of a connection and the rounds of its loops alternate: the lines that the
-- loops have taken, followed by those that the buffer still holds, are exactly the lines of what
-- has come, in the same order, and the incomplete line behind them is the same.
pub steps-IsInOrder : (ss : List Step) (c : Connection) → IsInOrder c → IsInOrder (steps ss c)
unfolding steps
steps-IsInOrder [] c h = h
steps-IsInOrder (s ∷ ss) c h = steps-IsInOrder ss (step s c) (step-IsInOrder s c h)
