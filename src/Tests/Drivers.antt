-- ===== src/Tests/Drivers.antt =====
-- A harness that dies, and a runtime that has read one line.
use codedeck.Common.{
  ◌+◌, utf8_bytes, ℕ, codes, ◌≡◌, refl, ◌↔◌, ◌⊎◌, All, true, false, none, some, [], ◌∷◌, arith,
}
use codedeck.Core.Event.{text_delta}
use codedeck.Drivers.Terminal.{Exit, synthesize_terminal_event}
use codedeck.Drivers.Terminal.Laws.{
  is_completion, EndedUnseen, ExitedClean, synthesize-completion_iff,
}
use codedeck.Drivers.Runtime.{Hooks, Line, Runtime, StreamName, log, wire, handle_line, safe_of}
use codedeck.Drivers.Runtime.Offsets.{Above, undelivered}
use codedeck.Drivers.Runtime.Offsets.Histories.{wired, line, undelivered_reread}
use codedeck.Drivers.Tailer.{Tailer, opened, process_text, split_lines, emit_lines}
use codedeck.Drivers.Tailer.Chunks.{process_text-append, process_text-bytes}
use codedeck.Tests.Fixtures.{sid, event_with}

abbrev crashed : Exit
crashed = record {
  session_id = sid;
  harness = codes "claude";
  exit_code = some 1;
  signal = none;
  has_terminal = false;
  has_message = false;
  stderr = codes "boom";
  ended_on_turn_completed = false;
}

synthesize-completion_iff_example :
    (is_completion (synthesize_terminal_event crashed 9) ≡ true)
    ↔ ((crashed.has_terminal ≡ false) × (EndedUnseen crashed ⊎ ExitedClean crashed))
synthesize-completion_iff_example = synthesize-completion_iff crashed 9

abbrev hooks : Hooks
hooks = record {
  on_line = λ stream text. record {
    pushed = event_with none (text_delta text) ∷ [];
    native_ids = [];
    thrown = none;
  };
  synthesize_terminal = λ ctx. [];
}

abbrev start : StreamName → ℕ
start s = 0

abbrev first_line : Line
first_line = record { stream = log; text = codes "hi"; offset = 3; now = 9 }

abbrev read_one : Runtime
read_one = handle_line hooks (wire sid none 0 0) first_line

undelivered_reread_example : All (Above log (safe_of read_one log)) (undelivered read_one)
undelivered_reread_example =
    undelivered_reread hooks 0 0 _ read_one log
      (line first_line (wired start sid none (omega arith) (omega arith)) (omega arith))

abbrev reader : Tailer
reader = process_text (opened 4) (codes "ab")

process_text-append_example :
    process_text (process_text reader (codes "c\nd")) (codes "e\n")
    ≡ process_text reader (codes "c\nde\n")
process_text-append_example = process_text-append reader (codes "c\nd") (codes "e\n")

process_text-bytes_example :
    (process_text reader (codes "c\nd")).line_offset
      + utf8_bytes (process_text reader (codes "c\nd")).leftover
    ≡ reader.line_offset + utf8_bytes reader.leftover + utf8_bytes (codes "c\nd")
process_text-bytes_example = process_text-bytes reader (codes "c\nd")

two_lines :
    (process_text reader (codes "c\nd\n")).emitted
    ≡ record { line = codes "abc"; offset = 8 } ∷ record { line = codes "d"; offset = 10 } ∷ []
unfolding process_text split_lines emit_lines opened utf8_bytes
two_lines = refl
