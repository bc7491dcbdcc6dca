-- ===== src/Store/Ledger/Conserved.antt =====
-- `observe` of src/store/usage-ledger.ts: what is attributed on a source against its mark.
use codedeck.Common.{
  Floats, ℕ, ◌+◌, Text, ◌≡◌, refl, sym, ap, ◌∙◌, subst, Bool, true, false, Option, none, some, List,
  [], ◌∷◌, ◌++◌, ◌==◌, ◌&&◌, ◌||◌, not, eq_iff, arith, any, find_by, get_or, All, All-append,
  Bool-cases, inl, inr, if◌then◌else◌, starts_with,
}
use codedeck.Store.Sessions.Row.{SessionRow}
use codedeck.Store.Ledger.{
  materialized, update, sum_cost, book_deltas, Amounts, Source, Attribution, Observation, Ledger,
  has_source, of_session, at_key, insert_source, upsert_source, set_marks, upsert_attribution,
  add_attribution, added, no_row, seed_row, deltas, new_marks, delta_of, mark_of, seed_key,
  seed_prefix, seed_target, seed_at, seed_session_usage, has_amount, usage_amounts, record_deltas,
  observe, observe_row, observe_seeded, materialize, with_cost, set_model, report,
}
use codedeck.Store.Ledger.Totals.{
  Field, input_field, output_field, cached_field, amount, share, total, marks, marks-insert_source,
  marks-upsert_source, marks-set_marks, has_source-insert_source, total-add_attribution,
  total-append,
}

-- On every source, exactly its mark is attributed, over all sessions, in each field of tokens.
abbrev pub IsBalanced : List Source → List Attribution → Type 0
IsBalanced sources rows =
    (f : Field) (key : Text) → total f key rows ≡ get_or (amount f (marks sources key)) 0

-- The seed source of a session is booked to that session alone.
abbrev OwnsSeed : Attribution → Type 0
OwnsSeed a = (id : Text) → (a.source_key == seed_key id) ≡ true → (a.session_id == id) ≡ true

abbrev pub IsConserved : Ledger → Type 0
IsConserved l = IsBalanced l.sources l.attributions × All OwnsSeed l.attributions

module _ ⦃fl : Floats⦄ where
  round_lem : (o m : Option ℕ) → get_or (mark_of o m) 0 ≡ get_or m 0 + get_or (delta_of o m) 0
  unfolding mark_of delta_of
  round_lem none m = ground arith
  round_lem (some n) m = ground arith

  marks_grow :
      (f : Field) (obs m : Amounts)
      → get_or (amount f (new_marks obs m)) 0
        ≡ get_or (amount f m) 0 + get_or (amount f (deltas obs m)) 0
  unfolding new_marks deltas
  marks_grow input_field obs m = round_lem obs.input_tokens m.input_tokens
  marks_grow output_field obs m = round_lem obs.output_tokens m.output_tokens
  marks_grow cached_field obs m = round_lem obs.cached_tokens m.cached_tokens

  share-seed_row :
      (f : Field) (id key : Text) (u : Amounts)
      → share f (seed_row id key u) ≡ get_or (amount f u) 0
  unfolding seed_row
  share-seed_row input_field id key u = refl
  share-seed_row output_field id key u = refl
  share-seed_row cached_field id key u = refl

  no_mark : (f : Field) (u : Amounts) → has_amount u ≡ false → amount f u ≡ none
  no_mark input_field u h = ground arith
  no_mark output_field u h = ground arith
  no_mark cached_field u h = ground arith

  seed_key-injective : (id j : Text) → (seed_key id == seed_key j) ≡ true → (id == j) ≡ true
  unfolding seed_key ◌==◌
  seed_key-injective id j h = h

  starts-seed_key : (id : Text) → starts_with seed_prefix (seed_key id) ≡ true
  unfolding seed_key starts_with
  starts-seed_key id = refl

  -- Nothing is booked on the seed source of a session without attributions.
  total-unseeded :
      (f : Field) (id : Text) (rows : List Attribution)
      → All OwnsSeed rows
      → any (of_session id) rows ≡ false
      → total f (seed_key id) rows ≡ 0
  total-unseeded f id [] o h = refl
  total-unseeded f id (a ∷ rows) o h =
      let ih = total-unseeded f id rows o.1 in
      elim (Bool-cases (a.source_key == seed_key id)) [
        | inl e ↦ ground (arith, o.0 id e)
        | inr e ↦ rw e (ground (arith, ih))
      ]

  abbrev mark : Field → Amounts → ℕ
  mark f m = get_or (amount f m) 0

  mark_if :
      (f : Field) (b : Bool) (m n : Amounts)
      → mark f (if b then m else n) ≡ (if b then mark f m else mark f n)
  mark_if f true m n = refl
  mark_if f false m n = refl

  total-seed_row :
      (f : Field) (id key k : Text) (u : Amounts)
      → total f k (seed_row id key u ∷ []) ≡ (if key == k then mark f u else 0)
  unfolding seed_row
  total-seed_row f id key k u = ground (arith, share-seed_row f id key u)

  upsert_source-IsBalanced :
      (id key : Text) (u : Amounts) (sources : List Source) (rows : List Attribution)
      → ((f : Field) → total f key rows ≡ 0)
      → IsBalanced sources rows
      → IsBalanced (upsert_source key u sources) (rows ++ (seed_row id key u ∷ []))
  upsert_source-IsBalanced id key u sources rows none_yet h f k =
      let sums =
        total-append f k rows (seed_row id key u ∷ [])
        ∙ ap (λ n. total f k rows + n) (total-seed_row f id key k u) in
      let read =
        ap (mark f) (marks-upsert_source sources key k u)
        ∙ mark_if f (key == k) u (marks sources k) in
      elim (Bool-cases (key == k)) [
        | inl e ↦
            let empty : total f k rows ≡ 0 =
              subst (λ x. total f x rows ≡ 0) ((eq_iff key k).0 e) (none_yet f) in
            rw (sums, read, e) (omega (arith, empty))
        | inr e ↦ rw (sums, read, e) (omega (arith, h f k))
      ]

  deltas-IsBalanced :
      (id key : Text) (obs : Amounts) (sources : List Source) (rows : List Attribution)
      → has_source sources key ≡ true
      → IsBalanced sources rows
      → IsBalanced
          (set_marks key (new_marks obs (marks sources key)) sources)
          (add_attribution id key (deltas obs (marks sources key)) rows)
  deltas-IsBalanced id key obs sources rows there h f k =
      let m = marks sources key in
      let sums = total-add_attribution f id key k (deltas obs m) rows in
      let read =
        ap (mark f) (marks-set_marks sources key k (new_marks obs m) there)
        ∙ mark_if f (key == k) (new_marks obs m) (marks sources k) in
      elim (Bool-cases (key == k)) [
        | inl e ↦
            let same = subst (λ x. total f x rows ≡ mark f m) ((eq_iff key k).0 e) (h f key) in
            rw (sums, read, e) (omega (arith, same, marks_grow f obs m))
        | inr e ↦ rw (sums, read, e) (omega (arith, h f k))
      ]

  owns_upsert :
      (a : Attribution) (rows : List Attribution)
      → OwnsSeed a
      → All OwnsSeed rows
      → All OwnsSeed (upsert_attribution a rows)
  unfolding upsert_attribution
  owns_upsert a [] o h = (o, tt)
  owns_upsert a (b ∷ rows) o h = elim (Bool-cases (at_key a.session_id a.source_key b)) [
    | inl e ↦ rw e (o, h.1)
    | inr e ↦ rw e (h.0, owns_upsert a rows o h.1)
  ]

  IsBook : Option Ledger → Type 0
  IsBook none = Unit
  IsBook (some l) = IsConserved l

  with_cost-IsConserved :
      (id : Text) (c : Option ℕ) (l : Ledger) (o : Option _)
      → IsConserved l
      → IsBook (with_cost id c l o)
  unfolding IsBook
  with_cost-IsConserved id c l none h = tt
  with_cost-IsConserved id c l (some table) h = h

  set_model-IsConserved :
      (id : Text) (model old : Option Text) (l : Ledger)
      → IsConserved l
      → IsConserved (set_model id model old l)
  unfolding set_model
  set_model-IsConserved id none old l h = h
  set_model-IsConserved id (some m) none l h = h
  set_model-IsConserved id (some m) (some n) l h = h

  module _ (id key : Text) (plain : starts_with seed_prefix key ≡ false) where
    owns_plain : (a : Attribution) → a.source_key ≡ key → OwnsSeed a
    owns_plain a e j h =
        let seeded =
          sym (ap (starts_with seed_prefix) ((eq_iff a.source_key (seed_key j)).0 h))
          ∙ ap (starts_with seed_prefix) e in
        ground (arith, starts-seed_key j, seeded, plain)

    owns-add_attribution :
        (d : Amounts) (rows : List Attribution)
        → All OwnsSeed rows
        → All OwnsSeed (add_attribution id key d rows)
    unfolding add_attribution added
    owns-add_attribution d rows h =
        let current = get_or (find_by (at_key id key) rows) (no_row id key) in
        owns_upsert (added id key d current) rows (owns_plain (added id key d current) refl) h

    record_deltas-IsConserved :
        (obs : Amounts) (now : ℕ) (l : Ledger)
        → has_source l.sources key ≡ true
        → IsConserved l
        → IsBook (
            record_deltas id key obs (marks l.sources key) (deltas obs (marks l.sources key)) now l)
    unfolding IsBook record_deltas materialize book_deltas
    record_deltas-IsConserved obs now l there h =
        let m = marks l.sources key in
        let d = deltas obs m in
        let l' = book_deltas id key obs m d l in
        elim (Bool-cases (has_amount d)) [
          | inl e ↦ rw e (
              with_cost-IsConserved id (sum_cost id l'.attributions) l'
                (update l'.sessions id (materialized id l'.attributions) now)
                (
                  deltas-IsBalanced id key obs l.sources l.attributions there h.0,
                  owns-add_attribution d l.attributions h.1,
                ))
          | inr e ↦ rw e h
        ]

    seed_at-IsConserved :
        (j k : Text) (u : Amounts) (l : Ledger)
        → OwnsSeed (seed_row j k u)
        → ((f : Field) → total f k l.attributions ≡ 0)
        → IsConserved l
        → IsConserved (seed_at j k u l)
    unfolding seed_at
    seed_at-IsConserved j k u l o none_yet h = (
      upsert_source-IsBalanced j k u l.sources l.attributions none_yet h.0,
      All-append OwnsSeed l.attributions (seed_row j k u ∷ []) h.1 (o, tt),
    )

    seed_target-IsConserved :
        (u : Amounts) (into : Bool) (l : Ledger)
        → any (of_session id) l.attributions ≡ false
        → IsConserved l
        → IsConserved (seed_at id (seed_target id key into l.sources) u l)
    unfolding seed_target seed_row
    seed_target-IsConserved u into l fresh h =
        elim (Bool-cases (into && not (has_amount (marks l.sources key)))) [
          | inl e ↦ rw e (
              seed_at-IsConserved id key u l (owns_plain (seed_row id key u) refl)
                (λ f.
                  h.0 f key
                  ∙ ap (λ o. get_or o 0) (no_mark f (marks l.sources key) (ground (arith, e))))
                h)
          | inr e ↦ rw e (
              seed_at-IsConserved id (seed_key id) u l (λ j. seed_key-injective id j)
                (λ f. total-unseeded f id l.attributions h.1 fresh) h)
        ]

    seed_session_usage-IsConserved :
        (u : Amounts) (into : Bool) (l : Ledger)
        → IsConserved l
        → IsConserved (seed_session_usage id key u into l)
    unfolding seed_session_usage
    seed_session_usage-IsConserved u into l h =
        elim (Bool-cases (not (has_amount u) || any (of_session id) l.attributions)) [
          | inl e ↦ rw e h
          | inr e ↦ rw e (seed_target-IsConserved u into l (ground (arith, e)) h)
        ]

    IsBooked : Option (Bool × Ledger) → Type 0
    IsBooked none = Unit
    IsBooked (some r) = IsConserved r.1

    report-IsConserved :
        (model old : Option Text) (changed : Bool) (o : Option Ledger)
        → IsBook o
        → IsBooked (report id model old changed o)
    unfolding IsBook IsBooked
    report-IsConserved model old changed none h = tt
    report-IsConserved model old changed (some l) h = set_model-IsConserved id model old l h

    observe_seeded-IsConserved :
        (obs : Observation) (old : Option Text) (now : ℕ) (l : Ledger)
        → IsConserved l
        → IsBooked (observe_seeded id key obs old now l)
    unfolding observe_seeded
    observe_seeded-IsConserved obs old now l h =
        let l' = record l { sources = insert_source key l.sources } in
        let m = marks l'.sources key in
        let d = deltas obs.amounts m in
        report-IsConserved obs.model old (has_amount d)
          (record_deltas id key obs.amounts m d now l')
          (record_deltas-IsConserved obs.amounts now l' (has_source-insert_source l.sources key)
            ((λ f k. h.0 f k ∙ sym (ap (mark f) (marks-insert_source l.sources key k))), h.1))

    observe_row-IsConserved :
        (obs : Observation) (into : Bool) (now : ℕ) (l : Ledger) (o : Option SessionRow)
        → IsConserved l
        → IsBooked (observe_row id key obs into now l o)
    unfolding observe_row IsBooked
    observe_row-IsConserved obs into now l none h = tt
    observe_row-IsConserved obs into now l (some r) h =
        observe_seeded-IsConserved obs r.model now
          (seed_session_usage id key (usage_amounts r) into l)
          (seed_session_usage-IsConserved (usage_amounts r) into l h)

    -- Where on every source, in each of the three counts of tokens, exactly its mark is attributed
    -- over all sessions, and each session's seed source is booked to it alone, both hold after an
    -- observation on a source that is no seed source, whatever is observed. Costs, whose differences
    -- are rounded, are not counted.
    pub observe-IsConserved :
        (obs : Observation) (into : Bool) (now : ℕ) (l : Ledger) (changed : Bool) (l' : Ledger)
        → IsConserved l
        → observe id key obs into now l ≡ some (changed, l')
        → IsConserved l'
    unfolding observe IsBooked
    observe-IsConserved obs into now l changed l' h e =
        subst IsBooked e
          (observe_row-IsConserved obs into now l (find_by (λ r. r.id == id) l.sessions) h)
