-- ===== src/Store/Ledger/Again.antt =====
-- `observe` of src/store/usage-ledger.ts, called again with what was observed before.
use mathlib.Core.Option.{some-injective}
use codedeck.Common.{
  Floats, Option-cases, ℕ, Text, ◌≡◌, refl, sym, ap, ◌∙◌, subst, Bool, true, false, Option, none,
  some, List, [], ◌∷◌, eq_refl, arith, find_by, get_or, is_some, Bool-cases, inl, inr, any, ◌||◌,
  not, ◌++◌, or_else,
}
use codedeck.Store.Sessions.Row.{SessionRow}
use codedeck.Store.Ledger.{
  observe_row, seed_target, Amounts, Attribution, Observation, Ledger, set_model, usage_amounts,
  observe, book_deltas, has_amount, seed_session_usage, delta_of, mark_of, cost_delta, cost_mark,
  cost_is_old, deltas, new_marks, of_session, add_attribution, upsert_attribution, added, at_key,
  no_row, seed_at, seed_row, has_source,
}
use codedeck.Store.Ledger.Totals.{
  marks, has_source-insert_source, has_source-set_marks, insert_source-again, marks-set_marks,
}
use codedeck.Store.Ledger.Shown.{
  row_at, seeded, entered, old_marks, differences, booked, recorded, observe_lem, row_at-seeded,
  filled, Shows, recorded-Shows, set_model-Shows, shown_ledger,
}

module _ ⦃fl : Floats⦄ where
  delta-mark_of : (o m : Option ℕ) → is_some (delta_of o (mark_of o m)) ≡ false
  unfolding delta_of mark_of
  delta-mark_of none m = ground arith
  delta-mark_of (some n) none = ground arith
  delta-mark_of (some n) (some k) = ground arith

  delta-mark_cost : (o m : Option ℕ) → is_some (cost_delta o (cost_mark o m)) ≡ false
  unfolding cost_delta cost_mark
  delta-mark_cost none m = refl
  delta-mark_cost (some n) m = elim (Bool-cases (cost_is_old n m)) [
    | inl e ↦ rw e (rw e refl)
    | inr e ↦ rw e (rw (fl.sub_self n) (ground arith))
  ]

  deltas-new_marks : (obs m : Amounts) → has_amount (deltas obs (new_marks obs m)) ≡ false
  unfolding deltas new_marks
  deltas-new_marks obs m = ground (
    arith,
    delta-mark_cost obs.cost m.cost,
    delta-mark_of obs.input_tokens m.input_tokens,
    delta-mark_of obs.output_tokens m.output_tokens,
    delta-mark_of obs.cached_tokens m.cached_tokens,
  )

  any-upsert :
      (id : Text) (a : Attribution) (rows : List Attribution)
      → of_session id a ≡ true
      → any (of_session id) (upsert_attribution a rows) ≡ true
  unfolding upsert_attribution
  any-upsert id a [] h = rw h refl
  any-upsert id a (b ∷ rows) h = elim (Bool-cases (at_key a.session_id a.source_key b)) [
    | inl e ↦ rw e (rw h refl)
    | inr e ↦ rw e (ground (arith, any-upsert id a rows h))
  ]

  any-last :
      (id : Text) (a : Attribution) (rows : List Attribution)
      → of_session id a ≡ true
      → any (of_session id) (rows ++ (a ∷ [])) ≡ true
  any-last id a [] h = rw h refl
  any-last id a (b ∷ rows) h = ground (arith, any-last id a rows h)

  -- Nothing is left to seed.
  abbrev IsSeeded : Text → Amounts → Ledger → Type 0
  IsSeeded id u l = (not (has_amount u) || any (of_session id) l.attributions) ≡ true

  seed_settled :
      (id key : Text) (u : Amounts) (into : Bool) (l : Ledger)
      → IsSeeded id u l
      → seed_session_usage id key u into l ≡ l
  unfolding seed_session_usage
  seed_settled id key u into l h = rw h refl

  seed-IsSeeded :
      (id key : Text) (u : Amounts) (into : Bool) (l : Ledger)
      → IsSeeded id u (seed_session_usage id key u into l)
  unfolding seed_session_usage seed_at seed_row
  seed-IsSeeded id key u into l =
      elim (Bool-cases (not (has_amount u) || any (of_session id) l.attributions)) [
        | inl e ↦ rw e e
        | inr e ↦ rw e (
            ground (
              arith,
              any-last id (seed_row id (seed_target id key into l.sources) u) l.attributions
                  (eq_refl id),
            ))
      ]

  -- The source is known, and its marks leave nothing to record.
  abbrev IsCurrent : Text → Observation → Ledger → Type 0
  IsCurrent key obs l =
      (has_source l.sources key ≡ true)
      × (has_amount (deltas obs.amounts (marks l.sources key)) ≡ false)

  module _ (id key : Text) (obs : Observation) (now : ℕ) (l : Ledger) where
    entered-has_source : has_source (entered id key obs now l).sources key ≡ true
    unfolding entered
    entered-has_source = has_source-insert_source l.sources key

    booked-IsCurrent : IsCurrent key obs (booked id key obs now l)
    unfolding booked book_deltas
    booked-IsCurrent =
        let e = entered id key obs now l in
        let m = old_marks id key obs now l in
        let raised =
          marks-set_marks e.sources key key (new_marks obs.amounts m) entered-has_source in
        (
          has_source-set_marks e.sources key key (new_marks obs.amounts m) ∙ entered-has_source,
          ap (λ x. has_amount (deltas obs.amounts x)) (raised ∙ rw (eq_refl key) refl)
              ∙ deltas-new_marks obs.amounts m,
        )

    recorded-IsCurrent : IsCurrent key obs (recorded id key obs now l)
    unfolding recorded shown_ledger differences old_marks
    recorded-IsCurrent = elim (Bool-cases (has_amount (differences id key obs now l))) [
      | inl e ↦ rw e booked-IsCurrent
      | inr e ↦ rw e (entered-has_source, e)
    ]

    booked-any : any (of_session id) (booked id key obs now l).attributions ≡ true
    unfolding booked book_deltas add_attribution added
    booked-any =
        let d = differences id key obs now l in
        let rows = (entered id key obs now l).attributions in
        let current = get_or (find_by (at_key id key) rows) (no_row id key) in
        any-upsert id (added id key d current) rows (eq_refl id)

    recorded-IsSeeded :
        (r q : SessionRow)
        → IsSeeded id (usage_amounts r) l
        → Shows id (has_amount (differences id key obs now l)) r q (recorded id key obs now l)
        → IsSeeded id (usage_amounts q) (recorded id key obs now l)
    unfolding recorded shown_ledger entered
    recorded-IsSeeded r q h shows = elim (Bool-cases (has_amount (differences id key obs now l))) [
      | inl e ↦ rw e (ground (arith, booked-any))
      | inr e ↦
          let same : usage_amounts q ≡ usage_amounts r = shows.1 ∙ rw e refl in
          rw e (subst (λ u. IsSeeded id u l) (sym same) h)
    ]

  set_model_known :
      (id m : Text) (l : Ledger) (o : Option Text)
      → is_some o ≡ true
      → set_model id (some m) o l ≡ l
  unfolding set_model
  set_model_known id m l none h = ground (arith, h)
  set_model_known id m l (some n) h = refl

  set_model_again :
      (id : Text) (model : Option Text) (q : SessionRow) (l : Ledger)
      → set_model id model (filled model q).model l ≡ l
  unfolding set_model
  set_model_again id none q l = refl
  set_model_again id (some m) q l = set_model_known id m l (or_else q.model (some m)) (ground arith)

  set_model-IsCurrent :
      (id key : Text) (obs : Observation) (model old : Option Text) (l : Ledger)
      → IsCurrent key obs l
      → IsCurrent key obs (set_model id model old l)
  unfolding set_model
  set_model-IsCurrent id key obs none old l h = h
  set_model-IsCurrent id key obs (some n) none l h = h
  set_model-IsCurrent id key obs (some n) (some k) l h = h

  set_model-IsSeeded :
      (id : Text) (model old : Option Text) (q : SessionRow) (l : Ledger)
      → IsSeeded id (usage_amounts q) l
      → IsSeeded id (usage_amounts (filled model q)) (set_model id model old l)
  unfolding set_model
  set_model-IsSeeded id none old q l h = h
  set_model-IsSeeded id (some n) none q l h = h
  set_model-IsSeeded id (some n) (some k) q l h = h

  -- A ledger that is current and seeded is left as it is.
  current_kept :
      (id key : Text) (obs : Observation) (into : Bool) (now : ℕ) (l : Ledger) (q : SessionRow)
      → IsCurrent key obs l
      → IsSeeded id (usage_amounts (filled obs.model q)) l
      → row_at l.sessions id ≡ some (filled obs.model q)
      → observe id key obs into now l ≡ some (false, l)
  unfolding seeded recorded entered old_marks differences
  current_kept id key obs into now l q current settled h =
      let r = filled obs.model q in
      let entered_same : entered id key obs now l ≡ l =
        λ i. record l { sources = insert_source-again l.sources key current.0 i } in
      let none_new : has_amount (differences id key obs now l) ≡ false =
        ap (λ e. has_amount (deltas obs.amounts (marks e.sources key))) entered_same ∙ current.1 in
      let recorded_same : recorded id key obs now l ≡ l = rw none_new entered_same in
      let seeded_same : seeded id key obs into now l r ≡ l =
        seed_settled id key (usage_amounts r) into l settled in
      observe_lem id key obs into now l r h
      ∙ ap
          (λ s. some (
            has_amount (differences id key obs now s),
            set_model id obs.model r.model (recorded id key obs now s),
          ))
          seeded_same
      ∙ ap (λ b. some (b, set_model id obs.model r.model (recorded id key obs now l))) none_new
      ∙ ap (λ s. some (false, set_model id obs.model r.model s)) recorded_same
      ∙ ap (λ s. some (false, s)) (set_model_again id obs.model q l)

  module _ (id key : Text) (obs : Observation) (into into' : Bool) (now now' : ℕ) (l : Ledger) where
    kept_again :
        (r : SessionRow)
        → row_at l.sessions id ≡ some r
        → let s = seeded id key obs into now l r in
          let l' = set_model id obs.model r.model (recorded id key obs now s) in
          observe id key obs into' now' l' ≡ some (false, l')
    unfolding seeded
    kept_again r h =
        let s = seeded id key obs into now l r in
        let b = recorded id key obs now s in
        let after = recorded-Shows id key obs now s r (row_at-seeded id key obs into now l r h) in
        let seeds = seed-IsSeeded id key (usage_amounts r) into l in
        let l' = set_model id obs.model r.model b in
        current_kept id key obs into' now' l' after.0
          (set_model-IsCurrent id key obs obs.model r.model b (recorded-IsCurrent id key obs now s))
          (set_model-IsSeeded id obs.model r.model after.0 b
            (recorded-IsSeeded id key obs now s r after.0 seeds after.1))
          (set_model-Shows id obs.model (has_amount (differences id key obs now s)) b r after.0
            after.1).0

    -- An observation that is made a second time, at any time and with any choice of the seed, reports
    -- no change and leaves the sources, the attributions and the sessions as they are.
    pub observe_again :
        (changed : Bool) (l' : Ledger)
        → observe id key obs into now l ≡ some (changed, l')
        → observe id key obs into' now' l' ≡ some (false, l')
    unfolding observe observe_row
    observe_again changed l' h = elim (Option-cases (row_at l.sessions id)) [
      | inl e ↦ ground (arith, rw e at h)
      | inr e ↦
          let same = some-injective _ _ (sym (observe_lem id key obs into now l e.0 e.1) ∙ h) in
          subst (λ x. observe id key obs into' now' x ≡ some (false, x)) (ap (λ x. x.1) same)
            (kept_again e.0 e.1)
    ]
