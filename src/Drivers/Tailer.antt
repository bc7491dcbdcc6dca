-- ===== src/Drivers/Tailer.antt =====
-- src/drivers/tailer.ts: the reader of one log file, line by line. The file and its decoder are
-- inputs: what `statSync` finds, and for a read the bytes that were read with the text that the
-- decoder gave for them. Watcher and timers are left out.
pub mod Chunks
use codedeck.Common.{
  ℕ, ◌+◌, Text, Bool, true, false, Option, none, some, List, [], ◌∷◌, ◌++◌, eqb, ltb, leb, is_empty,
  utf8_bytes, if◌then◌else◌,
}

-- A line and the offset behind it.
pub record Emitted : Type 0 where
  pub line : Text
  pub offset : ℕ

pub record Tailer : Type 0 where
  pub read_offset : ℕ
  pub line_offset : ℕ
  pub leftover : Text
  pub decoder_ended : Bool
  pub stopped : Bool
  pub emitted : List Emitted  -- every call of `onLine` so far

unfoldable pub opened : ℕ → Tailer
opened start = record {
  read_offset = start;
  line_offset = start;
  leftover = [];
  decoder_ended = false;
  stopped = false;
  emitted = [];
}

abbrev pub newline : ℕ
newline = 10

-- `split("\n")`, and the `pop()` that takes its last part off.
pub record Split : Type 0 where
  pub complete : List Text
  pub partial : Text

unfoldable pub attach : ℕ → List Text → Text → Split
attach c [] partial = record { complete = []; partial = c ∷ partial }
attach c (line ∷ lines) partial = record { complete = (c ∷ line) ∷ lines; partial = partial }

unfoldable pub split_lines : Text → Split
unfolding attach
split_lines [] = record { complete = []; partial = [] }
split_lines (c ∷ s) =
    let rest = split_lines s in
    if eqb c newline
    then record { complete = [] ∷ rest.complete; partial = rest.partial }
    else attach c rest.complete rest.partial

unfoldable pub emit_lines : Tailer → List Text → Tailer
emit_lines t [] = t
emit_lines t (line ∷ lines) =
    let offset = t.line_offset + (utf8_bytes line + 1) in
    emit_lines
      (record t {
        line_offset = offset;
        emitted = t.emitted ++ record { line = line; offset = offset } ∷ [];
      })
      lines

unfoldable pub process_text : Tailer → Text → Tailer
unfolding split_lines emit_lines
process_text t chunk =
    let parts = split_lines (t.leftover ++ chunk) in
    emit_lines (record t { leftover = parts.partial }) parts.complete

-- What one pump finds: the size of the file, and what a read gives, if both succeed.
pub record Glance : Type 0 where
  pub size : Option ℕ
  pub reading : Option (ℕ × Text)

unfoldable pub restart : Tailer → Tailer
restart t = record t { read_offset = 0; line_offset = 0; leftover = []; decoder_ended = false }

unfoldable pub take_in : Tailer → Option (ℕ × Text) → Tailer
unfolding process_text
take_in t none = t
take_in t (some (bytes, chunk)) =
    if eqb bytes 0 then t else process_text (record t { read_offset = t.read_offset + bytes }) chunk

pump_sized : Tailer → ℕ → Option (ℕ × Text) → Tailer
unfolding restart take_in
pump_sized t size reading =
    let t' = if ltb size t.read_offset then restart t else t in
    if eqb size t'.read_offset then t' else take_in t' reading

pump_stat : Tailer → Option ℕ → Option (ℕ × Text) → Tailer
unfolding pump_sized
pump_stat t none reading = t
pump_stat t (some size) reading = pump_sized t size reading

unfoldable pub pump : Tailer → Glance → Tailer
unfolding pump_stat
pump t g = if t.stopped then t else pump_stat t g.size g.reading

-- The loop to the end of the file; the rounds end where the deadline stops them.
unfoldable pub drain_to_eof : Tailer → List Glance → Tailer
unfolding pump
drain_to_eof t [] = t
drain_to_eof t (g ∷ gs) =
    let t' = pump t g in
    let rest = drain_to_eof t' gs in if eqb t'.read_offset t.read_offset then t' else rest

-- What the decoder still holds, and the line without an end.
unfoldable pub finish_partial : Tailer → Text → Tailer
unfolding process_text
finish_partial t final_chunk =
    let t1 = if t.decoder_ended then t else record t { decoder_ended = true } in
    let t2 =
      if t.decoder_ended
      then t1
      else if is_empty final_chunk
      then t1
      else process_text t1 final_chunk in
    if is_empty t2.leftover
    then t2
    else (let offset = t2.line_offset + utf8_bytes t2.leftover in
        record t2 {
          line_offset = offset;
          leftover = [];
          emitted = t2.emitted ++ record { line = t2.leftover; offset = offset } ∷ [];
        })

unfoldable pub flush : Tailer → List Glance → Text → Tailer
unfolding drain_to_eof finish_partial
flush t gs final_chunk = if t.stopped then t else finish_partial (drain_to_eof t gs) final_chunk

-- The partial line is dropped.
unfoldable pub drain_dropping : Tailer → List Glance → Tailer
unfolding drain_to_eof
drain_dropping t gs =
    if t.stopped then t else record (drain_to_eof t gs) { leftover = []; decoder_ended = true }
