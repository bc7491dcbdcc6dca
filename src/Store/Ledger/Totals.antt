-- ===== src/Store/Ledger/Totals.antt =====
-- The tables of src/store/usage-ledger.ts: what a write does to the marks of every source, and to
-- the total that is attributed on it.
use codedeck.Common.{
  Floats, subst, ℕ, ◌+◌, Text, ◌≡◌, refl, ap, Bool, true, false, Option, List, [], ◌∷◌, ◌++◌, ◌==◌,
  eq_iff, eq_refl, arith, find_by, get_or, Bool-cases, inl, inr, if◌then◌else◌,
}
use codedeck.Store.Ledger.{
  Amounts, Source, Attribution, marks_of, has_source, has_key, at_key, insert_source, upsert_source,
  set_marks, upsert_attribution, add_attribution, added, no_row,
}

-- The fields of the loop that count tokens.
pub data Field : Type 0 where
  input_field output_field cached_field : Field

abbrev pub amount : Field → Amounts → Option ℕ
amount input_field u = u.input_tokens
amount output_field u = u.output_tokens
amount cached_field u = u.cached_tokens

abbrev pub share : Field → Attribution → ℕ
share input_field a = a.input_tokens
share output_field a = a.output_tokens
share cached_field a = a.cached_tokens

abbrev pub sum_where : (Attribution → Bool) → Field → List Attribution → ℕ
sum_where p f [] = 0
sum_where p f (a ∷ rows) = (if p a then share f a else 0) + sum_where p f rows

-- What is attributed on a source, over all sessions.
abbrev pub total : Field → Text → List Attribution → ℕ
total f key rows = sum_where (λ a. a.source_key == key) f rows

abbrev pub marks : List Source → Text → Amounts
marks sources key = marks_of (find_by (has_key key) sources)

module _ ⦃fl : Floats⦄ where
  share-added :
      (f : Field) (id key : Text) (d : Amounts) (a : Attribution)
      → share f (added id key d a) ≡ share f a + get_or (amount f d) 0
  unfolding added
  share-added input_field id key d a = refl
  share-added output_field id key d a = refl
  share-added cached_field id key d a = refl

  share-no_row : (f : Field) (id key : Text) → share f (no_row id key) ≡ 0
  share-no_row input_field id key = refl
  share-no_row output_field id key = refl
  share-no_row cached_field id key = refl

  same_test : (a b k : Text) → (a == b) ≡ true → (a == k) ≡ (b == k)
  same_test a b k h = ap (λ x. x == k) ((eq_iff a b).0 h)

  other_test : (a b k : Text) → (a == b) ≡ false → (a == k) ≡ true → (b == k) ≡ false
  other_test a b k miss here = ground (arith, eq_iff a b, eq_iff a k, eq_iff b k)

  pub marks-insert_source :
      (sources : List Source) (key k : Text) → marks (insert_source key sources) k ≡ marks sources k
  unfolding insert_source marks_of
  marks-insert_source [] key k = elim (Bool-cases (key == k)) [
    | inl e ↦ rw e refl
    | inr e ↦ rw e refl
  ]
  marks-insert_source (s ∷ sources) key k = elim (Bool-cases (s.source_key == key)) [
    | inl e ↦ rw e refl
    | inr e ↦ rw e (elim (Bool-cases (s.source_key == k)) [
      | inl here ↦ rw here refl
      | inr other ↦ rw other (marks-insert_source sources key k)
    ])
  ]

  pub marks-upsert_source :
      (sources : List Source) (key k : Text) (m : Amounts)
      → marks (upsert_source key m sources) k ≡ (if key == k then m else marks sources k)
  unfolding upsert_source marks_of
  marks-upsert_source [] key k m = elim (Bool-cases (key == k)) [
    | inl e ↦ rw e refl
    | inr e ↦ rw e refl
  ]
  marks-upsert_source (s ∷ sources) key k m = elim (Bool-cases (s.source_key == key)) [
    | inl e ↦ rw e (
        rw (same_test s.source_key key k e)
          (elim (Bool-cases (key == k)) [ inl here ↦ rw here refl | inr other ↦ rw other refl ]))
    | inr e ↦ rw e (elim (Bool-cases (s.source_key == k)) [
      | inl here ↦ rw here (rw (other_test s.source_key key k e here) refl)
      | inr other ↦ rw other (marks-upsert_source sources key k m)
    ])
  ]

  pub has_source-insert_source :
      (sources : List Source) (key : Text) → has_source (insert_source key sources) key ≡ true
  unfolding insert_source has_source
  has_source-insert_source [] key = rw (eq_refl key) refl
  has_source-insert_source (s ∷ sources) key = elim (Bool-cases (s.source_key == key)) [
    | inl e ↦ rw e (rw e refl)
    | inr e ↦ rw e (rw e (has_source-insert_source sources key))
  ]

  pub insert_source-again :
      (sources : List Source) (key : Text)
      → has_source sources key ≡ true
      → insert_source key sources ≡ sources
  unfolding insert_source has_source
  insert_source-again [] key h = ground arith
  insert_source-again (s ∷ sources) key h = elim (Bool-cases (s.source_key == key)) [
    | inl e ↦ rw e refl
    | inr e ↦ rw e (ap (λ x. s ∷ x) (insert_source-again sources key (rw e at h)))
  ]

  marks-set_others :
      (sources : List Source) (key k : Text) (m : Amounts)
      → (key == k) ≡ false
      → marks (set_marks key m sources) k ≡ marks sources k
  unfolding set_marks marks_of
  marks-set_others [] key k m h = refl
  marks-set_others (s ∷ sources) key k m h = elim (Bool-cases (s.source_key == key)) [
    | inl e ↦ rw e (rw (same_test s.source_key key k e) (rw h (marks-set_others sources key k m h)))
    | inr e ↦ rw e (elim (Bool-cases (s.source_key == k)) [
      | inl here ↦ rw here refl
      | inr other ↦ rw other (marks-set_others sources key k m h)
    ])
  ]

  pub marks-set_marks :
      (sources : List Source) (key k : Text) (m : Amounts)
      → has_source sources key ≡ true
      → marks (set_marks key m sources) k ≡ (if key == k then m else marks sources k)
  unfolding set_marks marks_of has_source
  marks-set_marks [] key k m h = ground arith
  marks-set_marks (s ∷ sources) key k m h = elim (Bool-cases (s.source_key == key)) [
    | inl e ↦ rw e (
        rw (same_test s.source_key key k e) (elim (Bool-cases (key == k)) [
          | inl here ↦ rw here refl
          | inr other ↦ rw other (marks-set_others sources key k m other)
        ]))
    | inr e ↦ rw e (elim (Bool-cases (s.source_key == k)) [
      | inl here ↦ rw here (rw (other_test s.source_key key k e here) refl)
      | inr other ↦ rw other (marks-set_marks sources key k m (rw e at h))
    ])
  ]

  pub has_source-set_marks :
      (sources : List Source) (key k : Text) (m : Amounts)
      → has_source (set_marks key m sources) k ≡ has_source sources k
  unfolding set_marks has_source
  has_source-set_marks [] key k m = refl
  has_source-set_marks (s ∷ sources) key k m = elim (Bool-cases (s.source_key == key)) [
    | inl e ↦ rw e (elim (Bool-cases (s.source_key == k)) [
      | inl here ↦ rw here refl
      | inr other ↦ rw other (has_source-set_marks sources key k m)
    ])
    | inr e ↦ rw e (elim (Bool-cases (s.source_key == k)) [
      | inl here ↦ rw here refl
      | inr other ↦ rw other (has_source-set_marks sources key k m)
    ])
  ]

  at_key-source :
      (id key : Text) (b : Attribution) → at_key id key b ≡ true → (b.source_key == key) ≡ true
  at_key-source id key b h = ground arith

  total-upsert :
      (f : Field) (id key k : Text) (d : Amounts) (rows : List Attribution) (o : Option Attribution)
      → find_by (at_key id key) rows ≡ o
      → total f k (upsert_attribution (added id key d (get_or o (no_row id key))) rows)
        ≡ total f k rows + (if key == k then get_or (amount f d) 0 else 0)
  unfolding upsert_attribution added
  total-upsert f id key k d [] o h =
      subst
        (λ x.
          total f k (upsert_attribution (added id key d (get_or x (no_row id key))) [])
          ≡ total f k [] + (if key == k then get_or (amount f d) 0 else 0))
        h (ground (arith, share-added f id key d (no_row id key), share-no_row f id key))
  total-upsert f id key k d (b ∷ rows) o h = elim (Bool-cases (at_key id key b)) [
    | inl e ↦
        subst
          (λ x.
            total f k (upsert_attribution (added id key d (get_or x (no_row id key))) (b ∷ rows))
            ≡ total f k (b ∷ rows) + (if key == k then get_or (amount f d) 0 else 0))
          (rw e at h)
          (rw e (
            rw (same_test b.source_key key k (at_key-source id key b e))
              (ground (arith, share-added f id key d b))))
    | inr e ↦ rw e (ground (arith, total-upsert f id key k d rows o (rw e at h)))
  ]

  pub total-add_attribution :
      (f : Field) (id key k : Text) (d : Amounts) (rows : List Attribution)
      → total f k (add_attribution id key d rows)
        ≡ total f k rows + (if key == k then get_or (amount f d) 0 else 0)
  unfolding add_attribution
  total-add_attribution f id key k d rows = total-upsert f id key k d rows _ refl

  pub total-append :
      (f : Field) (k : Text) (xs ys : List Attribution)
      → total f k (xs ++ ys) ≡ total f k xs + total f k ys
  total-append f k [] ys = omega arith
  total-append f k (x ∷ xs) ys = ground (arith, total-append f k xs ys)
