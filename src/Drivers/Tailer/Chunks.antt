-- ===== src/Drivers/Tailer/Chunks.antt =====
-- `processText` of src/drivers/tailer.ts over the reads into which a file is cut.
use codedeck.Common.{
  ℕ, ◌+◌, Text, ◌≡◌, refl, sym, ap, ◌∙◌, false, List, [], ◌∷◌, ◌++◌, eqb, utf8_bytes, arith,
  Bool-cases, inl, inr,
}
use codedeck.Drivers.Tailer.{Tailer, Split, newline, attach, split_lines, emit_lines, process_text}

pub append_assoc : (a b c : Text) → (a ++ b) ++ c ≡ a ++ (b ++ c)
append_assoc [] b c = refl
append_assoc (x ∷ a) b c = ap (λ s. x ∷ s) (append_assoc a b c)

-- The lines of `r`, and behind them those of its partial line continued by `b`.
unfoldable pub continued : Split → Text → Split
continued r b = record {
  complete = r.complete ++ (split_lines (r.partial ++ b)).complete;
  partial = (split_lines (r.partial ++ b)).partial;
}

attach-continued :
    (c : ℕ) (ls : List Text) (p b : Text)
    → eqb c newline ≡ false
    → attach c
        (continued (record { complete = ls; partial = p }) b).complete
        (continued (record { complete = ls; partial = p }) b).partial
      ≡ continued (attach c ls p) b
unfolding attach continued split_lines
attach-continued c [] p b e = rw e refl
attach-continued c (l ∷ ls) p b e = refl

pub split_lines-append : (a b : Text) → split_lines (a ++ b) ≡ continued (split_lines a) b
unfolding split_lines continued
split_lines-append [] b = refl
split_lines-append (c ∷ a) b = elim (Bool-cases (eqb c newline)) [
  | inl e ↦ rw e (
      ap (λ r. record { complete = [] ∷ r.complete; partial = r.partial }) (split_lines-append a b))
  | inr e ↦ rw e (
      ap (λ r. attach c r.complete r.partial) (split_lines-append a b)
      ∙ attach-continued c (split_lines a).complete (split_lines a).partial b e)
]

emit_lines-append :
    (ls ks : List Text) (t : Tailer) → emit_lines t (ls ++ ks) ≡ emit_lines (emit_lines t ls) ks
unfolding emit_lines
emit_lines-append [] ks t = refl
emit_lines-append (l ∷ ls) ks t = emit_lines-append ls ks (emit_lines t (l ∷ []))

abbrev leave : Text → Tailer → Tailer
leave p t = record t { leftover = p }

leave-emit_lines :
    (ls : List Text) (p : Text) (t : Tailer) → leave p (emit_lines t ls) ≡ emit_lines (leave p t) ls
unfolding emit_lines
leave-emit_lines [] p t = refl
leave-emit_lines (l ∷ ls) p t = leave-emit_lines ls p (emit_lines t (l ∷ []))

leftover-emit_lines : (ls : List Text) (t : Tailer) → (emit_lines t ls).leftover ≡ t.leftover
unfolding emit_lines
leftover-emit_lines [] t = refl
leftover-emit_lines (l ∷ ls) t = leftover-emit_lines ls (emit_lines t (l ∷ []))

abbrev absorb : Split → Tailer → Tailer
absorb r t = emit_lines (leave r.partial t) r.complete

absorb-continued :
    (r : Split) (b : Text) (t : Tailer)
    → absorb (split_lines (r.partial ++ b)) (absorb r t) ≡ absorb (continued r b) t
unfolding continued
absorb-continued r b t =
    let next = split_lines (r.partial ++ b) in
    ap (λ x. emit_lines x next.complete)
      (leave-emit_lines r.complete next.partial (leave r.partial t))
    ∙ sym (emit_lines-append r.complete next.complete (leave next.partial t))

utf8_bytes-append : (a b : Text) → utf8_bytes (a ++ b) ≡ utf8_bytes a + utf8_bytes b
unfolding utf8_bytes
utf8_bytes-append [] b = omega arith
utf8_bytes-append (c ∷ a) b = omega (arith, utf8_bytes-append a b)

-- The bytes of complete lines, with the ends of the lines.
abbrev line_bytes : List Text → ℕ
line_bytes [] = 0
line_bytes (l ∷ ls) = utf8_bytes l + 1 + line_bytes ls

attach-bytes :
    (c : ℕ) (ls : List Text) (p : Text)
    → line_bytes (attach c ls p).complete + utf8_bytes (attach c ls p).partial
      ≡ utf8_bytes (c ∷ []) + (line_bytes ls + utf8_bytes p)
unfolding attach utf8_bytes
attach-bytes c [] p = omega arith
attach-bytes c (l ∷ ls) p = omega arith

split_lines-bytes :
    (s : Text)
    → line_bytes (split_lines s).complete + utf8_bytes (split_lines s).partial ≡ utf8_bytes s
unfolding split_lines utf8_bytes
split_lines-bytes [] = refl
split_lines-bytes (c ∷ s) = elim (Bool-cases (eqb c newline)) [
  | inl e ↦ ground (arith, split_lines-bytes s)
  | inr e ↦ rw e (
      omega (
        arith,
        attach-bytes c (split_lines s).complete (split_lines s).partial,
        split_lines-bytes s,
      ))
]

offset-emit_lines :
    (ls : List Text) (t : Tailer) → (emit_lines t ls).line_offset ≡ t.line_offset + line_bytes ls
unfolding emit_lines
offset-emit_lines [] t = omega arith
offset-emit_lines (l ∷ ls) t = omega (arith, offset-emit_lines ls (emit_lines t (l ∷ [])))

-- Two chunks of text leave the reader as one chunk does that is both: the same lines, the same
-- offsets behind them, the same partial line.
pub process_text-append :
    (t : Tailer) (a b : Text) → process_text (process_text t a) b ≡ process_text t (a ++ b)
unfolding process_text
process_text-append t a b =
    let r = split_lines (t.leftover ++ a) in
    ap (λ l. absorb (split_lines (l ++ b)) (absorb r t))
      (leftover-emit_lines r.complete (leave r.partial t))
    ∙ (absorb-continued r b t
        ∙ ap (λ x. absorb x t)
            (sym (split_lines-append (t.leftover ++ a) b)
              ∙ ap split_lines (append_assoc t.leftover a b)))

-- The offset and the partial line account for every byte of text that was taken in.
pub process_text-bytes :
    (t : Tailer) (chunk : Text)
    → (process_text t chunk).line_offset + utf8_bytes (process_text t chunk).leftover
      ≡ t.line_offset + utf8_bytes t.leftover + utf8_bytes chunk
unfolding process_text
process_text-bytes t chunk =
    let r = split_lines (t.leftover ++ chunk) in
    let left = leftover-emit_lines r.complete (leave r.partial t) in
    let whole = split_lines-bytes (t.leftover ++ chunk) in
    rw left (
      omega (
        arith,
        offset-emit_lines r.complete (leave r.partial t),
        whole,
        utf8_bytes-append t.leftover chunk,
      ))
