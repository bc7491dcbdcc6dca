-- ===== src/Tests/Ipc.antt =====
-- An answer that comes in three chunks, and a connection with two requests.
use codedeck.Common.{
  ℕ, ◌*◌, ◌+◌, ◌-◌, ltb, List, if◌then◌else◌, trim, ◌==◌, Text, codes, ◌≡◌, refl, Option, none,
  some, [], ◌∷◌, arith,
}
use codedeck.Drivers.Tailer.{split_lines}
use codedeck.Daemon.Ipc.{
  Response, Client, resolved, on_data, Bytes, chunk, round, steps, connected, read_lines,
}
use codedeck.Daemon.Ipc.Lines.{read_of, read_lines-split_lines}
use codedeck.Daemon.Ipc.Chunks.{receive, joined, receive-joined}
use codedeck.Daemon.Ipc.Rounds.{IsInOrder, steps-IsInOrder}

-- Every line is a response to the request r1.
abbrev parse : Text → Option (Response Text)
parse line = some (record { id = codes "r1"; error = none; result = line })

abbrev asked : Client Text
asked = record { id = codes "r1"; buf = []; outcome = none }

-- UTF-8 for characters of one byte and of two; half of one is replaced.
decode : Option ℕ → Bytes → Text
decode none [] = []
decode (some lead) [] = 65533 ∷ []
decode none (b ∷ bytes) =
    let alone = decode none bytes in
    let lead = decode (some b) bytes in
    if ltb b 128 then b ∷ alone else if ltb b 192 then 65533 ∷ alone else lead
decode (some lead) (b ∷ bytes) = ((lead - 192) * 64 + (b - 128)) ∷ decode none bytes

abbrev pieces : List Bytes
pieces = codes "k\nn" ∷ (195 ∷ 169 ∷ codes "\n") ∷ []

receive-joined_example :
    (receive (decode none) parse (codes " o" ∷ pieces) asked).outcome
    ≡ (on_data (decode none) parse (joined (codes " o" ∷ pieces)) asked).outcome
unfolding decode
receive-joined_example = receive-joined (decode none) parse pieces (codes " o") asked refl

first_line :
    (receive (decode none) parse (codes " o" ∷ pieces) asked).outcome ≡ some (resolved (codes "ok"))
unfolding on_data trim ◌==◌ decode
first_line = refl

-- A cut that divides the two bytes of one character loses it.
divided :
    (receive (decode none) parse ((195 ∷ []) ∷ (169 ∷ 10 ∷ []) ∷ []) asked).outcome
    ≡ some (resolved (65533 ∷ 65533 ∷ []))
unfolding on_data trim ◌==◌ decode
divided = refl

steps-IsInOrder_example :
    IsInOrder
      (steps (chunk (codes "a\nb") ∷ round ∷ chunk (codes "\nc") ∷ round ∷ round ∷ []) connected)
steps-IsInOrder_example =
    steps-IsInOrder (chunk (codes "a\nb") ∷ round ∷ chunk (codes "\nc") ∷ round ∷ round ∷ [])
      connected refl

read_lines-split_lines_example :
    read_lines 5 (codes "a\nb\nc") ≡ read_of (split_lines (codes "a\nb\nc"))
read_lines-split_lines_example = read_lines-split_lines 5 (codes "a\nb\nc") (omega arith)
