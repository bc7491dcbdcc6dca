-- ===== src/Store/Ledger/Shown.antt =====
-- `materialize` of src/store/usage-ledger.ts: the usage that a session shows.
use codedeck.Common.{
  Floats, or_else, not, ◌||◌, any, ℕ, Text, ◌≡◌, refl, sym, ap, ◌∙◌, Bool, Option, none, some, List,
  [], ◌∷◌, ◌==◌, arith, find_by, Bool-cases, inl, inr, if◌then◌else◌,
}
use mathlib.Core.Option.{some-injective}
use codedeck.Store.Sessions.{Sessions, get, get_from, get_exact, update, update_found}
use codedeck.Store.Sessions.Row.{SessionRow}
use codedeck.Store.Sessions.Update.{SessionUpdate, update_rows, apply_update}
use codedeck.Store.Ledger.Totals.{marks}
use codedeck.Store.Ledger.{
  seed_at, of_session, insert_source, deltas, deltas, seed_at, insert_source, Amounts, Attribution,
  Observation, Ledger, materialize, materialized, with_cost, set_model, report, update_session,
  usage_amounts, sum_cost, sum_of, fill_model, record_deltas, observe, observe_row, observe_seeded,
  book_deltas, has_amount, seed_session_usage,
}

abbrev pub row_at : Sessions → Text → Option SessionRow
row_at table id = find_by (λ r. r.id == id) table

update_rows-update_session :
    (id : Text) (p : SessionUpdate) (now : ℕ) (table : Sessions)
    → update_rows id p now table ≡ update_session id (apply_update p now) table
unfolding update_rows
update_rows-update_session id p now [] = refl
update_rows-update_session id p now (r ∷ rows) =
    ap (λ rest. (if r.id == id then apply_update p now r else r) ∷ rest)
      (update_rows-update_session id p now rows)

pub row_at-update_session :
    (table : Sessions) (id : Text) (r : SessionRow) (f : SessionRow → SessionRow)
    → ((q : SessionRow) → (f q).id ≡ q.id)
    → row_at table id ≡ some r
    → row_at (update_session id f table) id ≡ some (f r)
row_at-update_session [] id r f keeps h = ground arith
row_at-update_session (q ∷ rows) id r f keeps h = elim (Bool-cases (q.id == id)) [
  | inl e ↦
      rw e (
        rw (ap (λ x. x == id) (keeps q) ∙ e)
          (ap (λ x. some (f x)) (some-injective _ _ (rw e at h))))
  | inr e ↦ rw e (rw e (row_at-update_session rows id r f keeps (rw e at h)))
]

pub update-row_at :
    (table : Sessions) (id : Text) (r : SessionRow) (p : SessionUpdate) (now : ℕ)
    → row_at table id ≡ some r
    → update table id p now ≡ some (update_session id (apply_update p now) table)
unfolding update get get_from get_exact update_found
update-row_at table id r p now h = rw h (ap some (update_rows-update_session id p now table))

abbrev with_usage_cost : Option ℕ → SessionRow → SessionRow
with_usage_cost cost r = record r { usage_cost = cost }

module _ ⦃fl : Floats⦄ where
  -- The two writes of `materialize`, on one row and on the table.
  pub shown_row : Text → ℕ → List Attribution → SessionRow → SessionRow
  shown_row id now rows r =
      with_usage_cost (sum_cost id rows) (apply_update (materialized id rows) now r)

  unfoldable pub shown_ledger : Text → ℕ → Ledger → Ledger
  shown_ledger id now l = record l {
    sessions =
        update_session id (with_usage_cost (sum_cost id l.attributions))
          (update_session id (apply_update (materialized id l.attributions) now) l.sessions);
  }

  materialize_lem :
      (id : Text) (now : ℕ) (l : Ledger) (r : SessionRow)
      → row_at l.sessions id ≡ some r
      → materialize id now l ≡ some (shown_ledger id now l)
  unfolding materialize shown_ledger
  materialize_lem id now l r h =
      ap (with_cost id (sum_cost id l.attributions) l)
        (update-row_at l.sessions id r (materialized id l.attributions) now h)

  apply_update-id :
      (p : SessionUpdate) (now : ℕ) (r : SessionRow) → (apply_update p now r).id ≡ r.id
  unfolding apply_update
  apply_update-id p now r = refl

  row_at-shown_ledger :
      (id : Text) (now : ℕ) (l : Ledger) (r : SessionRow)
      → row_at l.sessions id ≡ some r
      → row_at (shown_ledger id now l).sessions id ≡ some (shown_row id now l.attributions r)
  unfolding shown_ledger shown_row
  row_at-shown_ledger id now l r h =
      let p = materialized id l.attributions in
      row_at-update_session _ id (apply_update p now r) _ (λ q. refl)
        (row_at-update_session l.sessions id r (apply_update p now) (apply_update-id p now) h)

  -- The sums over the attributions of a session.
  abbrev pub sums : Text → List Attribution → Amounts
  sums id rows = record {
    cost = sum_cost id rows;
    input_tokens = some (sum_of (λ a. a.input_tokens) id rows);
    output_tokens = some (sum_of (λ a. a.output_tokens) id rows);
    cached_tokens = some (sum_of (λ a. a.cached_tokens) id rows);
  }

  usage-shown_row :
      (id : Text) (now : ℕ) (rows : List Attribution) (r : SessionRow)
      → usage_amounts (shown_row id now rows r) ≡ sums id rows
  unfolding shown_row apply_update materialized
  usage-shown_row id now rows r = refl

  model-shown_row :
      (id : Text) (now : ℕ) (rows : List Attribution) (r : SessionRow)
      → (shown_row id now rows r).model ≡ r.model
  unfolding shown_row apply_update materialized
  model-shown_row id now rows r = refl

  abbrev pub filled : Option Text → SessionRow → SessionRow
  filled none r = r
  filled (some m) r = fill_model m r

  fill_model-kept : (n o : Text) (r : SessionRow) → r.model ≡ some o → fill_model n r ≡ r
  fill_model-kept n o r m = λ i. record r { model = (ap (λ x. or_else x (some n)) m ∙ sym m) i }

  pub row_at-set_model :
      (id : Text) (model old : Option Text) (l : Ledger) (r : SessionRow)
      → r.model ≡ old
      → row_at l.sessions id ≡ some r
      → row_at (set_model id model old l).sessions id ≡ some (filled model r)
  unfolding set_model
  row_at-set_model id none old l r m h = h
  row_at-set_model id (some n) (some o) l r m h = h ∙ ap some (sym (fill_model-kept n o r m))
  row_at-set_model id (some n) none l r m h =
      row_at-update_session l.sessions id r (fill_model n) (λ q. refl) h

  record_deltas_lem :
      (id key : Text) (obs m d : Amounts) (now : ℕ) (l : Ledger) (r : SessionRow)
      → row_at l.sessions id ≡ some r
      → record_deltas id key obs m d now l
        ≡ some (if has_amount d then shown_ledger id now (book_deltas id key obs m d l) else l)
  unfolding record_deltas book_deltas
  record_deltas_lem id key obs m d now l r h = elim (Bool-cases (has_amount d)) [
    | inl e ↦ rw e (materialize_lem id now (book_deltas id key obs m d l) r h)
    | inr e ↦ rw e refl
  ]

  seed-sessions :
      (id key : Text) (u : Amounts) (into : Bool) (l : Ledger)
      → (seed_session_usage id key u into l).sessions ≡ l.sessions
  unfolding seed_session_usage seed_at
  seed-sessions id key u into l =
      elim (Bool-cases (not (has_amount u) || any (of_session id) l.attributions)) [
        | inl e ↦ rw e refl
        | inr e ↦ rw e refl
      ]

  -- The observation of a session that is stored, behind the seeding.
  module _ (id key : Text) (obs : Observation) (now : ℕ) (l : Ledger) where
    unfoldable pub entered : Ledger
    entered = record l { sources = insert_source key l.sources }

    unfoldable pub old_marks : Amounts
    unfolding entered
    old_marks = marks entered.sources key

    unfoldable pub differences : Amounts
    unfolding old_marks
    differences = deltas obs.amounts old_marks

    unfoldable pub booked : Ledger
    unfolding old_marks differences
    booked = book_deltas id key obs.amounts old_marks differences entered

    unfoldable pub recorded : Ledger
    unfolding booked
    recorded = if has_amount differences then shown_ledger id now booked else entered

    observe_seeded_lem :
        (r : SessionRow)
        → row_at l.sessions id ≡ some r
        → observe_seeded id key obs r.model now l
          ≡ some (has_amount differences, set_model id obs.model r.model recorded)
    unfolding observe_seeded recorded
    observe_seeded_lem r h =
        ap (report id obs.model r.model (has_amount differences))
          (record_deltas_lem id key obs.amounts old_marks differences now entered r h)

  module _ (id key : Text) (obs : Observation) (into : Bool) (now : ℕ) (l : Ledger) where
    unfoldable pub seeded : SessionRow → Ledger
    seeded r = seed_session_usage id key (usage_amounts r) into l

    pub row_at-seeded :
        (r : SessionRow) → row_at l.sessions id ≡ some r → row_at (seeded r).sessions id ≡ some r
    unfolding seeded
    row_at-seeded r h = ap (λ t. row_at t id) (seed-sessions id key (usage_amounts r) into l) ∙ h

    pub observe_lem :
        (r : SessionRow)
        → row_at l.sessions id ≡ some r
        → observe id key obs into now l
          ≡ some (
            has_amount (differences id key obs now (seeded r)),
            set_model id obs.model r.model (recorded id key obs now (seeded r)),
          )
    unfolding observe observe_row seeded
    observe_lem r h =
        ap (observe_row id key obs into now l) h
        ∙ observe_seeded_lem id key obs now (seeded r) r (row_at-seeded r h)

  usage-filled :
      (model : Option Text) (r : SessionRow) → usage_amounts (filled model r) ≡ usage_amounts r
  usage-filled none r = refl
  usage-filled (some m) r = refl

  pub set_model-attributions :
      (id : Text) (model old : Option Text) (l : Ledger)
      → (set_model id model old l).attributions ≡ l.attributions
  unfolding set_model
  set_model-attributions id none old l = refl
  set_model-attributions id (some m) none l = refl
  set_model-attributions id (some m) (some n) l = refl

  -- What the row of the session is after the booking, and what it shows.
  abbrev pub Shows : Text → Bool → SessionRow → SessionRow → Ledger → Type 0
  Shows id changed r q l =
      (row_at l.sessions id ≡ some q)
      × (usage_amounts q ≡ (if changed then sums id l.attributions else usage_amounts r))
      × (q.model ≡ r.model)

  pub recorded-Shows :
      (id key : Text) (obs : Observation) (now : ℕ) (l : Ledger) (r : SessionRow)
      → row_at l.sessions id ≡ some r
      → (q : SessionRow) × Shows id
          (has_amount (differences id key obs now l))
          r
          q
          (recorded id key obs now l)
  unfolding recorded booked entered book_deltas shown_ledger
  recorded-Shows id key obs now l r h =
      elim (Bool-cases (has_amount (differences id key obs now l))) [
        | inl e ↦
            let b = booked id key obs now l in
            (
              shown_row id now b.attributions r,
              (
                rw e (row_at-shown_ledger id now b r h),
                rw e (usage-shown_row id now b.attributions r),
                model-shown_row id now b.attributions r,
              ),
            )
        | inr e ↦ (r, (rw e h, rw e refl, refl))
      ]

  pub set_model-Shows :
      (id : Text) (model : Option Text) (changed : Bool) (l : Ledger) (r q : SessionRow)
      → Shows id changed r q l
      → (row_at (set_model id model r.model l).sessions id ≡ some (filled model q))
        × (usage_amounts (filled model q) ≡ (
            if changed
            then sums id (set_model id model r.model l).attributions
            else usage_amounts r))
  set_model-Shows id model changed l r q h = (
    row_at-set_model id model r.model l q h.2 h.0,
    usage-filled model q
        ∙ h.1
        ∙ ap (λ rows. if changed then sums id rows else usage_amounts r)
            (sym (set_model-attributions id model r.model l)),
  )

  -- An observation of a stored session succeeds, and that session then shows, in every field, the
  -- sum of its attributions where the observation reports a change, and what it showed before where
  -- it reports none.
  pub observe-shows_sums :
      (id key : Text) (obs : Observation) (into : Bool) (now : ℕ) (l : Ledger) (r : SessionRow)
      → row_at l.sessions id ≡ some r
      → (changed : Bool) × (l' : Ledger) × (q : SessionRow) × (observe id key obs into now l
          ≡ some (changed, l'))
        × (row_at l'.sessions id ≡ some q)
        × (usage_amounts q ≡ (if changed then sums id l'.attributions else usage_amounts r))
  observe-shows_sums id key obs into now l r h =
      let s = seeded id key obs into now l r in
      let changed = has_amount (differences id key obs now s) in
      let b = recorded id key obs now s in
      let after = recorded-Shows id key obs now s r (row_at-seeded id key obs into now l r h) in
      let shown = set_model-Shows id obs.model changed b r after.0 after.1 in
      (
        changed,
        set_model id obs.model r.model b,
        filled obs.model after.0,
        observe_lem id key obs into now l r h,
        shown.0,
        shown.1,
      )
