-- ===== src/Daemon/Ipc/Lines.antt =====
-- The loop over the lines of a buffer in src/daemon/ipc.ts.
use codedeck.Common.{
  ℕ, zero, suc, ◌≤◌, ◌<◌, Text, ◌≡◌, refl, sym, ap, ◌∙◌, false, Option, none, some, [], ◌∷◌, length,
  eqb, arith, Bool-cases, inl, inr,
}
use codedeck.Drivers.Tailer.{Split, newline, split_lines, attach}
use codedeck.Daemon.Ipc.{cut_line, longer_line, Read, with_line, go_on, read_lines}

-- What a cut says of the lines of the buffer.
abbrev pub Cuts : Text → Option (Text × Text) → Type 0
Cuts buf none = split_lines buf ≡ record { complete = []; partial = buf }
Cuts buf (some (line, rest)) =
    (split_lines buf ≡ record {
      complete = line ∷ (split_lines rest).complete;
      partial = (split_lines rest).partial;
    })
    × (length rest < length buf)

longer-Cuts :
    (c : ℕ) (buf : Text) (o : Option (Text × Text))
    → eqb c newline ≡ false
    → Cuts buf o
    → Cuts (c ∷ buf) (longer_line c o)
unfolding split_lines attach
longer-Cuts c buf none e h = rw e (ap (λ r. attach c r.complete r.partial) h)
longer-Cuts c buf (some (line, rest)) e h =
    (rw e (ap (λ r. attach c r.complete r.partial) h.0), omega (arith, h.1))

pub cut_line-Cuts : (buf : Text) → Cuts buf (cut_line buf)
unfolding cut_line split_lines
cut_line-Cuts [] = refl
cut_line-Cuts (c ∷ buf) = elim (Bool-cases (eqb c newline)) [
  | inl e ↦ rw e (rw e refl, omega arith)
  | inr e ↦ rw e (longer-Cuts c buf (cut_line buf) e (cut_line-Cuts buf))
]

abbrev pub read_of : Split → Read
read_of s = record { lines = s.complete; buf = s.partial }

go_on-Cuts :
    (fuel : ℕ) (buf : Text) (o : Option (Text × Text))
    → length buf ≤ suc fuel
    → ((rest : Text) → length rest ≤ fuel → read_lines fuel rest ≡ read_of (split_lines rest))
    → Cuts buf o
    → go_on (read_lines fuel) buf o ≡ read_of (split_lines buf)
go_on-Cuts fuel buf none le ih h = ap read_of (sym h)
go_on-Cuts fuel buf (some (line, rest)) le ih h =
    ap (with_line line) (ih rest (omega (arith, h.1))) ∙ ap read_of (sym h.0)

-- The loop ends within as many rounds as the buffer has characters, with the complete lines and
-- the text behind the last of them.
pub read_lines-split_lines :
    (fuel : ℕ) (buf : Text) → length buf ≤ fuel → read_lines fuel buf ≡ read_of (split_lines buf)
unfolding read_lines split_lines
read_lines-split_lines zero [] le = refl
read_lines-split_lines zero (c ∷ buf) le = ground (arith, le)
read_lines-split_lines (suc fuel) buf le =
    go_on-Cuts fuel buf (cut_line buf) le (read_lines-split_lines fuel) (cut_line-Cuts buf)
