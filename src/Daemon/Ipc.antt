-- ===== src/Daemon/Ipc.antt =====
-- src/daemon/ipc.ts: the lines of a socket, the request of a client, and the server's loop over the
-- requests. `chunk.toString()`, which decodes one chunk by itself, and JSON.parse are inputs; the
-- chunks of the server are the texts that the first gives. Sockets, the search for a running daemon, its start, and `subscribe` are left out.
pub mod Lines
pub mod Chunks
pub mod Rounds
use codedeck.Common.{
  ℕ, zero, suc, Text, codes, Bool, true, false, Option, none, some, List, [], ◌∷◌, ◌++◌, ◌==◌,
  length, eqb, is_empty, trim, if◌then◌else◌,
}
use codedeck.Drivers.Tailer.{newline}

abbrev pub longer_line : ℕ → Option (Text × Text) → Option (Text × Text)
longer_line c none = none
longer_line c (some (line, rest)) = some (c ∷ line, rest)

-- `buf.indexOf("\n")`, and the two slices there.
unfoldable pub cut_line : Text → Option (Text × Text)
cut_line [] = none
cut_line (c ∷ buf) =
    let rest = cut_line buf in if eqb c newline then some ([], buf) else longer_line c rest

pub record Read : Type 0 where
  pub lines : List Text
  pub buf : Text

abbrev pub with_line : Text → Read → Read
with_line line r = record r { lines = line ∷ r.lines }

abbrev pub go_on : (Text → Read) → Text → Option (Text × Text) → Read
go_on next buf none = record { lines = []; buf = buf }
go_on next buf (some (line, rest)) = with_line line (next rest)

-- The loop `while ((idx = buf.indexOf("\n")) >= 0)`, for at most this many rounds.
unfoldable pub read_lines : ℕ → Text → Read
unfolding cut_line
read_lines zero buf = record { lines = []; buf = buf }
read_lines (suc fuel) buf = go_on (read_lines fuel) buf (cut_line buf)

-- A response: its id, its error, and otherwise its result.
pub record Response {ℓ} (R : Type ℓ) : Type ℓ where
  pub id : Text
  pub error : Option R
  pub result : R

pub data Outcome {ℓ} (R : Type ℓ) : Type ℓ where
  resolved : R → Outcome R
  rejected : R → Outcome R
  unreadable timed_out socket_error closed : Outcome R  -- the other rejections

-- The promise of a request, and the text that is not yet a line. Once the promise is settled, the
-- listeners are removed.
pub record Client {ℓ} (R : Type ℓ) : Type ℓ where
  pub id : Text
  pub buf : Text
  pub outcome : Option (Outcome R)

module _ {ℓ} {R : Type ℓ} where
  -- The first to settle wins.
  abbrev pub settle : Outcome R → Option (Outcome R) → Option (Outcome R)
  settle o none = some o
  settle o (some first) = some first

  abbrev pub answer_of : Response R → Outcome R
  answer_of r = elim r.error [ none ↦ resolved r.result | some e ↦ rejected e ]

  abbrev pub is_settled : Client R → Bool
  is_settled c = elim c.outcome [ none ↦ false | some _ ↦ true ]

  abbrev settled_by : Outcome R → Client R → Client R
  settled_by o c = record c { outcome = settle o c.outcome }

  abbrev pub answered : Text → Option (Response R) → Option (Outcome R) → Option (Outcome R)
  answered id none o = settle unreadable o
  answered id (some r) o = if r.id == id then settle (answer_of r) o else o

module _ {ℓ} {R : Type ℓ} (parse : Text → Option (Response R)) where
  unfoldable pub take_line : Text → Text → Option (Outcome R) → Option (Outcome R)
  take_line id raw o =
      let line = trim raw in if is_empty line then o else answered id (parse line) o

  unfoldable pub take_lines : Text → List Text → Option (Outcome R) → Option (Outcome R)
  unfolding take_line
  take_lines id [] o = o
  take_lines id (line ∷ lines) o = take_lines id lines (take_line id line o)

  abbrev pub received : Client R → Read → Client R
  received c r = record c { buf = r.buf; outcome = take_lines c.id r.lines c.outcome }

  -- A chunk that has been decoded.
  unfoldable pub on_text : Text → Client R → Client R
  unfolding read_lines take_lines
  on_text chunk c =
      let buf = c.buf ++ chunk in
      if is_settled c then c else received c (read_lines (length buf) buf)

  unfoldable pub on_error : Client R → Client R
  on_error c = settled_by socket_error c

  unfoldable pub on_timeout : Client R → Client R
  on_timeout c = settled_by timed_out c

  abbrev closed_with : Option (Response R) → Outcome R
  closed_with none = closed
  closed_with (some r) = answer_of r

  -- The text behind the last line may be a response, of whatever id.
  unfoldable pub on_close : Client R → Client R
  on_close c =
      let line = trim c.buf in
      settled_by (if is_empty line then closed else closed_with (parse line)) c

abbrev pub Bytes : Type 0
Bytes = List ℕ

module _ {ℓ} {R : Type ℓ} (to_text : Bytes → Text) (parse : Text → Option (Response R)) where
  -- Each chunk is decoded by itself.
  unfoldable pub on_data : Bytes → Client R → Client R
  unfolding on_text
  on_data chunk c = on_text parse (to_text chunk) c

-- A connection of the server. Each chunk starts a loop, and while one loop awaits a handler another
-- may go on; all of them cut their lines off the one buffer.
pub record Connection : Type 0 where
  pub received : Text  -- everything that has come
  pub buf : Text
  pub started : List Text  -- the lines that the loops have taken, in this order

pub data Step : Type 0 where
  chunk : Text → Step
  round : Step  -- of any of the loops

abbrev pub after_cut : Connection → Option (Text × Text) → Connection
after_cut c none = c
after_cut c (some (line, rest)) = record c { buf = rest; started = c.started ++ line ∷ [] }

unfoldable pub step : Step → Connection → Connection
unfolding cut_line
step (chunk text) c = record c { received = c.received ++ text; buf = c.buf ++ text }
step round c = after_cut c (cut_line c.buf)

unfoldable pub steps : List Step → Connection → Connection
unfolding step
steps [] c = c
steps (s ∷ rest) c = steps rest (step s c)

abbrev pub connected : Connection
connected = record { received = []; buf = []; started = [] }
