-- ===== src/Daemon/Ipc/Chunks.antt =====
-- `IpcClient.request` of src/daemon/ipc.ts over the chunks in which an answer comes.
use codedeck.Common.{
  ℕ, map, if_both, ◌==◌, is_empty, trim, Text, ◌≡◌, ◌⊎◌, refl, sym, ap, ◌∙◌, subst, Option, none,
  some, List, [], ◌∷◌, ◌++◌, length, arith, inl, inr, Option-cases,
}
use mathlib.Core.List.{append-nil}
use codedeck.Drivers.Tailer.{split_lines}
use codedeck.Drivers.Tailer.Chunks.{continued, split_lines-append, append_assoc}
use codedeck.Daemon.Ipc.{
  Response, Outcome, Client, answered, take_line, take_lines, received, on_text, on_data, Bytes,
}
use codedeck.Daemon.Ipc.Lines.{read_lines-split_lines, read_of}

abbrev pub joined : List (List ℕ) → List ℕ
joined [] = []
joined (a ∷ chunks) = a ++ joined chunks

module _ {ℓ} {R : Type ℓ} (parse : Text → Option (Response R)) where
  abbrev take_texts : List Text → Client R → Client R
  take_texts [] c = c
  take_texts (a ∷ chunks) c = take_texts chunks (on_text parse a c)

  answered-settled :
      (id : Text) (r : Option (Response R)) (o : Outcome R) → answered id r (some o) ≡ some o
  answered-settled id none o = refl
  answered-settled id (some r) o = if_both (λ x. x ≡ some o) (r.id == id) refl refl

  take_line-settled : (id line : Text) (o : Outcome R) → take_line parse id line (some o) ≡ some o
  unfolding take_line
  take_line-settled id line o =
      if_both (λ x. x ≡ some o) (is_empty (trim line)) refl
        (answered-settled id (parse (trim line)) o)

  take_lines-settled :
      (id : Text) (lines : List Text) (o : Outcome R) → take_lines parse id lines (some o) ≡ some o
  unfolding take_lines
  take_lines-settled id [] o = refl
  take_lines-settled id (line ∷ lines) o =
      ap (take_lines parse id lines) (take_line-settled id line o) ∙ take_lines-settled id lines o

  take_lines-append :
      (id : Text) (xs ys : List Text) (o : Option (Outcome R))
      → take_lines parse id (xs ++ ys) o ≡ take_lines parse id ys (take_lines parse id xs o)
  unfolding take_lines
  take_lines-append id [] ys o = refl
  take_lines-append id (x ∷ xs) ys o = take_lines-append id xs ys (take_line parse id x o)

  on_text-split :
      (id a buf : Text)
      → on_text parse a (record { id = id; buf = buf; outcome = none })
        ≡ received parse
            (record { id = id; buf = buf; outcome = none })
            (read_of (split_lines (buf ++ a)))
  unfolding on_text
  on_text-split id a buf =
      ap (received parse (record { id = id; buf = buf; outcome = none }))
        (read_lines-split_lines (length (buf ++ a)) (buf ++ a) (omega arith))

  -- The clients are the same, or both have settled, alike.
  abbrev Same : Client R → Client R → Type ℓ
  Same c d = (c ≡ d) ⊎ ((o : Outcome R) × (c.outcome ≡ some o) × (d.outcome ≡ some o))

  on_text-settled :
      (a : Text) (c : Client R) (o : Outcome R)
      → c.outcome ≡ some o
      → (on_text parse a c).outcome ≡ some o
  unfolding on_text
  on_text-settled a c o h =
      ap (λ (x : Client R). (on_text parse a x).outcome) (λ i. record c { outcome = h i })

  on_text-Same :
      (a : Text) (c d : Client R) → Same c d → Same (on_text parse a c) (on_text parse a d)
  on_text-Same a c d (inl e) = inl (ap (on_text parse a) e)
  on_text-Same a c d (inr (o, h, k)) = inr (o, on_text-settled a c o h, on_text-settled a d o k)

  client : Text → Text → Option (Outcome R) → Client R
  client id buf o = record { id = id; buf = buf; outcome = o }

  open_whole :
      (id buf a b : Text)
      → let r = split_lines (buf ++ a) in
        let k = split_lines (r.partial ++ b) in
        on_text parse (a ++ b) (client id buf none)
        ≡ client id k.partial (take_lines parse id k.complete (take_lines parse id r.complete none))
  unfolding client continued
  open_whole id buf a b =
      let r = split_lines (buf ++ a) in
      let k = split_lines (r.partial ++ b) in
      on_text-split id (a ++ b) buf
      ∙ ap (λ s. received parse (client id buf none) (read_of s))
          (ap split_lines (sym (append_assoc buf a b)) ∙ split_lines-append (buf ++ a) b)
      ∙ ap (client id k.partial) (take_lines-append id r.complete k.complete none)

  -- Two chunks of an open request are as good as one.
  open_chunks :
      (id buf a b : Text)
      → let c : Client R = record { id = id; buf = buf; outcome = none } in
        Same (on_text parse b (on_text parse a c)) (on_text parse (a ++ b) c)
  unfolding client
  open_chunks id buf a b =
      let c : Client R = record { id = id; buf = buf; outcome = none } in
      let r = split_lines (buf ++ a) in
      let k = split_lines (r.partial ++ b) in
      let first = on_text-split id a buf in
      let whole = open_whole id buf a b in
      elim (Option-cases (take_lines parse id r.complete none)) [
        | inl e ↦ inl (
            ap (on_text parse b) (first ∙ ap (client id r.partial) e)
            ∙ on_text-split id b r.partial
            ∙ sym (whole ∙ ap (λ t. client id k.partial (take_lines parse id k.complete t)) e))
        | inr e ↦ inr (
          e.0,
          on_text-settled b (on_text parse a c) e.0 (ap (λ (x : Client R). x.outcome) first ∙ e.1),
          ap (λ (x : Client R). x.outcome) whole
              ∙ ap (take_lines parse id k.complete) e.1
              ∙ take_lines-settled id k.complete e.0,
        )
      ]

  two_chunks :
      (c : Client R) (a b : Text)
      → Same (on_text parse b (on_text parse a c)) (on_text parse (a ++ b) c)
  two_chunks c a b = elim (Option-cases c.outcome) [
    | inl e ↦
        subst
          (λ (x : Client R). Same (on_text parse b (on_text parse a x)) (on_text parse (a ++ b) x))
          (λ i. record c { outcome = sym e i }) (open_chunks c.id c.buf a b)
    | inr (o, e) ↦ inr (
      o,
      on_text-settled b (on_text parse a c) o (on_text-settled a c o e),
      on_text-settled (a ++ b) c o e,
    )
  ]

  Same-outcome : (c d : Client R) → Same c d → c.outcome ≡ d.outcome
  Same-outcome c d (inl e) = ap (λ (x : Client R). x.outcome) e
  Same-outcome c d (inr (o, h, k)) = h ∙ sym k

  trans-Same : (c d e : Client R) → Same c d → Same d e → Same c e
  trans-Same c d e (inl p) q = subst (λ (x : Client R). Same x e) (sym p) q
  trans-Same c d e (inr (o, h, k)) (inl q) =
      inr (o, h, ap (λ (x : Client R). x.outcome) (sym q) ∙ k)
  trans-Same c d e (inr (o, h, k)) (inr (p, i, j)) = inr (o, h, j ∙ sym i ∙ k)

  texts-Same :
      (chunks : List Text) (a : Text) (c : Client R)
      → Same (take_texts (a ∷ chunks) c) (on_text parse (joined (a ∷ chunks)) c)
  texts-Same [] a c = inl (ap (λ x. on_text parse x c) (sym (append-nil a)))
  texts-Same (b ∷ chunks) a c =
      trans-Same (take_texts (b ∷ chunks) (on_text parse a c))
        (on_text parse (joined (b ∷ chunks)) (on_text parse a c))
        (on_text parse (joined (a ∷ b ∷ chunks)) c) (texts-Same chunks b (on_text parse a c))
        (two_chunks c a (joined (b ∷ chunks)))

module _ {ℓ} {R : Type ℓ} (to_text : Bytes → Text) (parse : Text → Option (Response R)) where
  abbrev pub receive : List Bytes → Client R → Client R
  receive [] c = c
  receive (a ∷ chunks) c = receive chunks (on_data to_text parse a c)

  receive-take_texts :
      (chunks : List Bytes) (c : Client R)
      → receive chunks c ≡ take_texts parse (map to_text chunks) c
  unfolding on_data
  receive-take_texts [] c = refl
  receive-take_texts (a ∷ chunks) c = receive-take_texts chunks (on_data to_text parse a c)

  -- Where the chunks decode one by one to what they decode to as a whole, as they do unless a cut
  -- divides a character, the promise of a request is settled as if all the bytes had come in one
  -- chunk: wherever the lines of the answers are cut, the same response settles it, in the same way.
  pub receive-joined :
      (chunks : List Bytes) (a : Bytes) (c : Client R)
      → to_text (joined (a ∷ chunks)) ≡ joined (map to_text (a ∷ chunks))
      → (receive (a ∷ chunks) c).outcome ≡ (on_data to_text parse (joined (a ∷ chunks)) c).outcome
  unfolding on_data
  receive-joined chunks a c whole =
      ap (λ (x : Client R). x.outcome) (receive-take_texts (a ∷ chunks) c)
      ∙ Same-outcome parse (take_texts parse (map to_text (a ∷ chunks)) c)
          (on_text parse (joined (map to_text (a ∷ chunks))) c)
          (texts-Same parse (map to_text chunks) (to_text a) c)
      ∙ ap (λ t. (on_text parse t c).outcome) (sym whole)
