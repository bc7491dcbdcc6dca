-- ===== src/Store/Sessions/Found.antt =====
-- `get` and `update` of src/store/sessions.ts against the rows of the table.
use codedeck.Common.{
  ℕ, Text, ◌≡◌, refl, sym, ap, ◌∙◌, subst, Bool, true, Option, none, some, List, [], ◌∷◌, ◌==◌,
  ◌||◌, eq_iff, eq_refl, any, arith, filter_by, is_some, is_empty, starts_with, to_lower, sort_by,
  Bool-cases, inl, inr, Option-cases, any-sort_by, any-filter_by,
}
use mathlib.Core.Option.{some-injective}
use codedeck.Core.Session.{Session}
use codedeck.Store.Sessions.Row.{SessionRow, row_to_session}
use codedeck.Store.Sessions.Update.{apply_update, SessionUpdate, update_rows}
use codedeck.Store.Sessions.{
  update_found, Sessions, get, get_exact, get_from, get_prefix, by_prefix, by_id, Lookup, found,
  missing, ambiguous, update,
}

abbrev pub is_stored : Sessions → Text → Bool
is_stored table sid = any (λ r. r.id == sid) table

pub get_exact-id :
    (table : Sessions) (sid : Text) (s : Session) → get_exact table sid ≡ some s → s.id ≡ sid
unfolding get_exact row_to_session
get_exact-id [] sid s h = ground arith
get_exact-id (r ∷ rows) sid s h = elim (Bool-cases (r.id == sid)) [
  | inl e ↦ ap (λ x. x.id) (sym (some-injective _ _ (rw e at h))) ∙ (eq_iff r.id sid).0 e
  | inr e ↦ get_exact-id rows sid s (rw e at h)
]

pub stored-get_exact :
    (table : Sessions) (sid : Text) → is_some (get_exact table sid) ≡ is_stored table sid
unfolding get_exact
stored-get_exact [] sid = refl
stored-get_exact (r ∷ rows) sid = elim (Bool-cases (r.id == sid)) [
  | inl e ↦ rw e refl
  | inr e ↦ rw e (stored-get_exact rows sid)
]

exact-is_stored :
    (table : Sessions) (id : Text) (s : Session)
    → get_exact table id ≡ some s
    → is_stored table s.id ≡ true
exact-is_stored table id s h =
    subst (λ j. is_stored table j ≡ true) (sym (get_exact-id table id s h))
      (sym (stored-get_exact table id) ∙ ap is_some h)

abbrev session_of : Lookup → Option Session
session_of missing = none
session_of (ambiguous _) = none
session_of (found s) = some s

by_prefix-is_stored :
    (rows : List SessionRow) (s : Session) → by_prefix rows ≡ found s → is_stored rows s.id ≡ true
unfolding by_prefix row_to_session
by_prefix-is_stored [] s h = ground (arith, ap session_of h)
by_prefix-is_stored (r ∷ []) s h =
    subst (λ x. is_stored (r ∷ []) x.id ≡ true) (some-injective _ _ (ap session_of h))
      (rw (eq_refl r.id) refl)
by_prefix-is_stored (r ∷ q ∷ rows) s h = ground (arith, ap session_of h)

get_prefix-is_stored :
    (table : Sessions) (n : Text) (o : Option Session) (s : Session)
    → get_exact table n ≡ o
    → get_prefix table n o ≡ found s
    → is_stored table s.id ≡ true
unfolding get_prefix
get_prefix-is_stored table n (some s') s e h = exact-is_stored table n s (e ∙ ap session_of h)
get_prefix-is_stored table n none s e h = elim (Bool-cases (is_empty n)) [
  | inl empty ↦ ground (arith, ap session_of (rw empty at h))
  | inr full ↦
      let rows = filter_by (λ r. starts_with n r.id) table in
      let here = by_prefix-is_stored (sort_by by_id rows) s (rw full at h) in
      any-filter_by (λ r. r.id == s.id) (λ r. starts_with n r.id) table
        (sym (any-sort_by by_id (λ r. r.id == s.id) rows) ∙ here)
]

get_from-is_stored :
    (table : Sessions) (id : Text) (o : Option Session) (s : Session)
    → get_exact table id ≡ o
    → get_from table id o ≡ found s
    → is_stored table s.id ≡ true
unfolding get_from
get_from-is_stored table id (some s') s e h = exact-is_stored table id s (e ∙ ap session_of h)
get_from-is_stored table id none s e h =
    get_prefix-is_stored table (to_lower id) (get_exact table (to_lower id)) s refl h

-- The session that a lookup finds, by its id, its id in lower case or a prefix, is a row of the
-- table.
pub get-is_stored :
    (table : Sessions) (id : Text) (s : Session)
    → get table id ≡ found s
    → is_stored table s.id ≡ true
unfolding get
get-is_stored table id s h = get_from-is_stored table id (get_exact table id) s refl h

-- A stored id is found as itself.
pub stored-get :
    (table : Sessions) (id : Text) (s : Session)
    → is_stored table id ≡ true
    → get table id ≡ found s
    → s.id ≡ id
unfolding get get_from
stored-get table id s h g = elim (Option-cases (get_exact table id)) [
  | inl e ↦ ground (arith, stored-get_exact table id, ap is_some e)
  | inr e ↦ get_exact-id table id s (e.1 ∙ ap session_of (rw e.1 at g))
]

update_rows-is_stored :
    (table : Sessions) (id j : Text) (p : SessionUpdate) (now : ℕ)
    → is_stored (update_rows id p now table) j ≡ is_stored table j
unfolding update_rows apply_update
update_rows-is_stored [] id j p now = refl
update_rows-is_stored (r ∷ rows) id j p now = elim (Bool-cases (r.id == id)) [
  | inl e ↦ rw e (ap (λ b. (r.id == j) || b) (update_rows-is_stored rows id j p now))
  | inr e ↦ rw e (ap (λ b. (r.id == j) || b) (update_rows-is_stored rows id j p now))
]

update_found-is_stored :
    (table table' : Sessions) (id j : Text) (p : SessionUpdate) (now : ℕ) (l : Lookup)
    → update_found table id p now l ≡ some table'
    → is_stored table' j ≡ is_stored table j
unfolding update_found
update_found-is_stored table table' id j p now missing e = ground arith
update_found-is_stored table table' id j p now (ambiguous c) e = ground arith
update_found-is_stored table table' id j p now (found s) e =
    subst (λ t. is_stored t j ≡ is_stored table j) (some-injective _ _ e)
      (update_rows-is_stored table id j p now)

-- An update keeps every session stored.
pub update-is_stored :
    (table table' : Sessions) (id j : Text) (p : SessionUpdate) (now : ℕ)
    → update table id p now ≡ some table'
    → is_stored table' j ≡ is_stored table j
unfolding update
update-is_stored table table' id j p now e =
    update_found-is_stored table table' id j p now (get table id) e
