-- ===== src/Store/Ledger.antt =====
-- src/store/usage-ledger.ts: what each source reported, how it is attributed to the sessions, and
-- the usage that the sessions show. Tokens are natural numbers, and a cost is the code of a number
-- of JavaScript, with the arithmetic of `Floats`. The columns `updated_at` of the sources are left
-- out: nothing reads them.
pub mod Totals
pub mod Again
pub mod Shown
pub mod Conserved
use codedeck.Common.{
  Floats, ℕ, ◌+◌, ◌-◌, Text, codes, Bool, true, false, Option, none, some, List, [], ◌∷◌, ◌++◌,
  ◌==◌, or_else, ◌&&◌, ◌||◌, not, ltb, eqb, any, map, find_by, filter_by, get_or, is_some, le_text,
  sort_by, if◌then◌else◌,
}
use codedeck.Store.Sessions.{Sessions, update}
use codedeck.Store.Sessions.Row.{SessionRow}
use codedeck.Store.Sessions.Update.{SessionUpdate, no_update}

-- Four amounts, each of which may be missing.
pub record Amounts : Type 0 where
  pub cost : Option ℕ
  pub input_tokens : Option ℕ
  pub output_tokens : Option ℕ
  pub cached_tokens : Option ℕ

pub record Observation : Type 0 where
  pub amounts : Amounts
  pub model : Option Text

pub record Source : Type 0 where
  pub source_key : Text
  pub marks : Amounts

pub record Attribution : Type 0 where
  pub session_id : Text
  pub source_key : Text
  pub cost : Option ℕ
  pub input_tokens : ℕ
  pub output_tokens : ℕ
  pub cached_tokens : ℕ

pub record Ledger : Type 0 where
  pub sources : List Source
  pub attributions : List Attribution
  pub sessions : Sessions

abbrev pub no_amounts : Amounts
no_amounts = record { cost = none; input_tokens = none; output_tokens = none; cached_tokens = none }

abbrev pub has_key : Text → Source → Bool
has_key key s = s.source_key == key

abbrev pub of_session : Text → Attribution → Bool
of_session id a = a.session_id == id

abbrev pub at_key : Text → Text → Attribution → Bool
at_key id key a = a.session_id == id && a.source_key == key

unfoldable pub marks_of : Option Source → Amounts
marks_of none = no_amounts
marks_of (some s) = s.marks

unfoldable pub has_source : List Source → Text → Bool
has_source sources key = is_some (find_by (has_key key) sources)

-- ON CONFLICT(source_key) DO NOTHING
unfoldable pub insert_source : Text → List Source → List Source
insert_source key [] = record { source_key = key; marks = no_amounts } ∷ []
insert_source key (s ∷ sources) =
    let rest = insert_source key sources in if s.source_key == key then s ∷ sources else s ∷ rest

-- ON CONFLICT(source_key) DO UPDATE
unfoldable pub upsert_source : Text → Amounts → List Source → List Source
upsert_source key marks [] = record { source_key = key; marks = marks } ∷ []
upsert_source key marks (s ∷ sources) =
    let rest = upsert_source key marks sources in
    if s.source_key == key then record s { marks = marks } ∷ sources else s ∷ rest

-- UPDATE usage_sources ... WHERE source_key
unfoldable pub set_marks : Text → Amounts → List Source → List Source
set_marks key marks = map (λ s. if s.source_key == key then record s { marks = marks } else s)

-- ON CONFLICT(session_id, source_key) DO UPDATE
unfoldable pub upsert_attribution : Attribution → List Attribution → List Attribution
upsert_attribution a [] = a ∷ []
upsert_attribution a (b ∷ rows) =
    let rest = upsert_attribution a rows in
    if at_key a.session_id a.source_key b then a ∷ rows else b ∷ rest

-- The amounts that the columns of a session show.
abbrev pub usage_amounts : SessionRow → Amounts
usage_amounts r = record {
  cost = r.usage_cost;
  input_tokens = r.usage_input_tokens;
  output_tokens = r.usage_output_tokens;
  cached_tokens = r.usage_cached_tokens;
}

abbrev pub has_amount : Amounts → Bool
has_amount u =
    is_some u.input_tokens || is_some u.output_tokens || is_some u.cached_tokens || is_some u.cost

abbrev pub seed_prefix : Text
seed_prefix = codes "seed:"

unfoldable pub seed_key : Text → Text
seed_key id = seed_prefix ++ id

-- The source that a session's usage from before the ledger is booked on.
unfoldable pub seed_target : Text → Text → Bool → List Source → Text
unfolding marks_of seed_key
seed_target id key into_incoming sources =
    let source_has_mark = has_amount (marks_of (find_by (has_key key) sources)) in
    if into_incoming && not source_has_mark then key else seed_key id

unfoldable pub seed_row : Text → Text → Amounts → Attribution
seed_row id key u = record {
  session_id = id;
  source_key = key;
  cost = u.cost;
  input_tokens = get_or u.input_tokens 0;
  output_tokens = get_or u.output_tokens 0;
  cached_tokens = get_or u.cached_tokens 0;
}

-- The two inserts of the seeding.
unfoldable pub seed_at : Text → Text → Amounts → Ledger → Ledger
unfolding upsert_source seed_row
seed_at id key u l = record l {
  sources = upsert_source key u l.sources;
  attributions = l.attributions ++ (seed_row id key u ∷ []);
}

unfoldable pub seed_session_usage : Text → Text → Amounts → Bool → Ledger → Ledger
unfolding seed_target seed_at
seed_session_usage id key u into_incoming l =
    if not (has_amount u) || any (of_session id) l.attributions
    then l
    else seed_at id (seed_target id key into_incoming l.sources) u l

-- The guard of the loop over the fields: a lower value, or one that is known already.
abbrev pub is_old : ℕ → Option ℕ → Bool
is_old observed stored =
    let mark = get_or stored 0 in ltb observed mark || (eqb observed mark && is_some stored)

-- One round of the loop: the delta, and the mark that is written.
unfoldable pub delta_of : Option ℕ → Option ℕ → Option ℕ
delta_of none stored = none
delta_of (some observed) stored =
    if is_old observed stored then none else some (observed - get_or stored 0)

unfoldable pub mark_of : Option ℕ → Option ℕ → Option ℕ
mark_of none stored = stored
mark_of (some observed) stored = if is_old observed stored then stored else some observed

abbrev pub no_row : Text → Text → Attribution
no_row id key = record {
  session_id = id;
  source_key = key;
  cost = none;
  input_tokens = 0;
  output_tokens = 0;
  cached_tokens = 0;
}

unfoldable pub sum_of : (Attribution → ℕ) → Text → List Attribution → ℕ
sum_of f id [] = 0
sum_of f id (a ∷ rows) = (if of_session id a then f a else 0) + sum_of f id rows

abbrev pub update_session : Text → (SessionRow → SessionRow) → Sessions → Sessions
update_session id f = map (λ r. if r.id == id then f r else r)

abbrev pub with_cost : Text → Option ℕ → Ledger → Option Sessions → Option Ledger
with_cost id cost l none = none
with_cost id cost l (some table) =
    some (record l { sessions = update_session id (λ r. record r { usage_cost = cost }) table })

abbrev pub fill_model : Text → SessionRow → SessionRow
fill_model model r = record r { model = or_else r.model (some model) }

unfoldable pub set_model : Text → Option Text → Option Text → Ledger → Ledger
set_model id (some model) none l = record l {
  sessions = update_session id (fill_model model) l.sessions;
}
set_model id _ _ l = l

abbrev pub report : Text → Option Text → Option Text → Bool → Option Ledger → Option (Bool × Ledger)
report id model old changed none = none
report id model old changed (some l) = some (changed, set_model id model old l)

abbrev by_keys : Attribution → Attribution → Bool
by_keys a b =
    not (le_text b.session_id a.session_id)
    || (a.session_id == b.session_id && le_text a.source_key b.source_key)

unfoldable pub attributions_for : List Text → List Attribution → List Attribution
attributions_for ids rows =
    sort_by by_keys (filter_by (λ a. any (λ id. a.session_id == id) ids) rows)

unfoldable pub costs_of : Text → List Attribution → List ℕ
costs_of id [] = []
costs_of id (a ∷ rows) =
    let rest = costs_of id rows in
    if of_session id a then elim a.cost [ none ↦ rest | some n ↦ n ∷ rest ] else rest

module _ ⦃fl : Floats⦄ where
  -- The same guard and the same round for a cost, whose difference is rounded.
  abbrev pub cost_is_old : ℕ → Option ℕ → Bool
  cost_is_old observed stored =
      let delta = fl.sub observed (get_or stored fl.zero_cost) in
      fl.is_negative delta || (fl.is_zero delta && is_some stored)

  unfoldable pub cost_delta : Option ℕ → Option ℕ → Option ℕ
  cost_delta none stored = none
  cost_delta (some observed) stored =
      if cost_is_old observed stored
      then none
      else some (fl.sub observed (get_or stored fl.zero_cost))

  unfoldable pub cost_mark : Option ℕ → Option ℕ → Option ℕ
  cost_mark none stored = stored
  cost_mark (some observed) stored = if cost_is_old observed stored then stored else some observed

  unfoldable pub deltas : Amounts → Amounts → Amounts
  unfolding delta_of cost_delta
  deltas obs marks = record {
    cost = cost_delta obs.cost marks.cost;
    input_tokens = delta_of obs.input_tokens marks.input_tokens;
    output_tokens = delta_of obs.output_tokens marks.output_tokens;
    cached_tokens = delta_of obs.cached_tokens marks.cached_tokens;
  }

  unfoldable pub new_marks : Amounts → Amounts → Amounts
  unfolding mark_of cost_mark
  new_marks obs marks = record {
    cost = cost_mark obs.cost marks.cost;
    input_tokens = mark_of obs.input_tokens marks.input_tokens;
    output_tokens = mark_of obs.output_tokens marks.output_tokens;
    cached_tokens = mark_of obs.cached_tokens marks.cached_tokens;
  }

  abbrev add_cost : Option ℕ → Option ℕ → Option ℕ
  add_cost none current = current
  add_cost (some delta) current = some (fl.add (get_or current fl.zero_cost) delta)

  unfoldable pub added : Text → Text → Amounts → Attribution → Attribution
  added id key d current = record {
    session_id = id;
    source_key = key;
    cost = add_cost d.cost current.cost;
    input_tokens = current.input_tokens + get_or d.input_tokens 0;
    output_tokens = current.output_tokens + get_or d.output_tokens 0;
    cached_tokens = current.cached_tokens + get_or d.cached_tokens 0;
  }

  unfoldable pub add_attribution : Text → Text → Amounts → List Attribution → List Attribution
  unfolding upsert_attribution added
  add_attribution id key d rows =
      let current = get_or (find_by (at_key id key) rows) (no_row id key) in
      upsert_attribution (added id key d current) rows

  abbrev sum_or_null : List ℕ → Option ℕ
  sum_or_null [] = none
  sum_or_null (n ∷ ns) = some (fl.sum (n ∷ ns))

  -- SUM over the rows of a session: a cost that is null is passed over, and the sum of none is null.
  unfoldable pub sum_cost : Text → List Attribution → Option ℕ
  unfolding costs_of
  sum_cost id rows = sum_or_null (costs_of id rows)

  unfoldable pub materialized : Text → List Attribution → SessionUpdate
  unfolding sum_of sum_cost
  materialized id rows = record no_update {
    usage = some (record {
      input_tokens = some (sum_of (λ a. a.input_tokens) id rows);
      output_tokens = some (sum_of (λ a. a.output_tokens) id rows);
      cached_tokens = some (sum_of (λ a. a.cached_tokens) id rows);
      cost = sum_cost id rows;
    });
  }

  unfoldable pub materialize : Text → ℕ → Ledger → Option Ledger
  unfolding materialized sum_cost
  materialize id now l =
      with_cost id (sum_cost id l.attributions) l
        (update l.sessions id (materialized id l.attributions) now)

  -- The raised marks, and the attribution of the deltas.
  unfoldable pub book_deltas : Text → Text → Amounts → Amounts → Amounts → Ledger → Ledger
  unfolding set_marks add_attribution new_marks
  book_deltas id key obs marks d l = record l {
    sources = set_marks key (new_marks obs marks) l.sources;
    attributions = add_attribution id key d l.attributions;
  }

  -- `if (sourceUpdates.length > 0)`
  unfoldable pub record_deltas :
      Text → Text → Amounts → Amounts → Amounts → ℕ → Ledger → Option Ledger
  unfolding book_deltas materialize
  record_deltas id key obs marks d now l =
      if has_amount d then materialize id now (book_deltas id key obs marks d l) else some l

  -- `observe` behind the seeding.
  unfoldable pub observe_seeded :
      Text → Text → Observation → Option Text → ℕ → Ledger → Option (Bool × Ledger)
  unfolding insert_source marks_of deltas record_deltas set_model
  observe_seeded id key obs old_model now l =
      let sources = insert_source key l.sources in
      let marks = marks_of (find_by (has_key key) sources) in
      let d = deltas obs.amounts marks in
      report id obs.model old_model (has_amount d)
        (record_deltas id key obs.amounts marks d now (record l { sources = sources }))

  unfoldable pub observe_row :
      Text → Text → Observation → Bool → ℕ → Ledger → Option SessionRow → Option (Bool × Ledger)
  unfolding seed_session_usage observe_seeded
  observe_row id key obs into_incoming now l none = none
  observe_row id key obs into_incoming now l (some r) =
      observe_seeded id key obs r.model now
        (seed_session_usage id key (usage_amounts r) into_incoming l)

  -- `none` stands for the error of a session that is not found.
  unfoldable pub observe : Text → Text → Observation → Bool → ℕ → Ledger → Option (Bool × Ledger)
  unfolding observe_row
  observe id key obs into_incoming now l =
      observe_row id key obs into_incoming now l (find_by (λ r. r.id == id) l.sessions)
