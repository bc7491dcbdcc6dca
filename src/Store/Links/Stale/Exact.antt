-- ===== src/Store/Links/Stale/Exact.antt =====
-- What `staleOpenRows` of src/store/native-links.ts answers.
use codedeck.Common.{
  Option, eq_refl, inr, ◌∙◌, inl, none, Text, any, sym, Bool-cases, ◌&&◌, ◌||◌, ◌⊎◌, ◌↔◌, codes,
  eq_iff, arith, IsSorted, any-sort_by, ◌≡◌, refl, ap, Bool, true, false, some, List, [], ◌∷◌, ◌==◌,
  filter_by, find_by, map, sort_by, All, if◌then◌else◌,
}
use codedeck.Core.Session.{Session}
use mathlib.Core.Option.{some-injective}
use codedeck.Core.Session.{
  SessionStatus, starting, needs_input, idle, completed, failed, stopped, orphaned, interrupted,
  working,
}
use codedeck.Store.Links.{is_open, Links}
use codedeck.Store.Links.Stale.{
  is_from_open, is_unsettled, candidates, is_candidate, is_stale_status, take_candidate, stale_of,
  stale_open_rows, by_created,
}
use codedeck.Store.Links.Stale.Order.{
  All-filter_by, All-sort_by, older, sort_by-IsSorted, filter_by-IsSorted, map-IsSorted,
}
use codedeck.Store.Sessions.{Sessions, get, get_exact, get_from, found}
use codedeck.Store.Sessions.Row.{SessionRow, row_to_session}

-- PRIMARY KEY: the row that an id finds is the row that has it.
abbrev IsFound : Sessions → SessionRow → Type 0
IsFound table r = find_by (λ q. q.id == r.id) table ≡ some r

pub record IsKeyed (table : Sessions) : Type 0 where
  pub keyed : All (IsFound table) table

get-row :
    (table : Sessions) (r : SessionRow)
    → IsFound table r
    → get table r.id ≡ found (row_to_session r)
unfolding get get_exact get_from
get-row table r h = rw h refl

-- The row that the loop keeps.
abbrev pub is_stale : (Session → Bool) → SessionRow → Bool
is_stale is_dead r = is_stale_status r.status (is_dead (row_to_session r))

kept :
    (b : Bool) (r : SessionRow) (rest : List SessionRow)
    → (if b then row_to_session r ∷ map row_to_session rest else map row_to_session rest)
      ≡ map row_to_session (if b then r ∷ rest else rest)
kept true r rest = refl
kept false r rest = refl

stale_of_lem :
    (table : Sessions) (is_dead : Session → Bool) (rows : List SessionRow)
    → All (IsFound table) rows
    → stale_of table is_dead rows ≡ some (map row_to_session (filter_by (is_stale is_dead) rows))
unfolding stale_of take_candidate
stale_of_lem table is_dead [] h = refl
stale_of_lem table is_dead (r ∷ rows) h =
    rw (get-row table r h.0, stale_of_lem table is_dead rows h.1)
      (ap some (kept (is_stale is_dead r) r (filter_by (is_stale is_dead) rows)))

-- A native id of the session waits for its usage.
abbrev pub Waits : Text → Links → Type 0
Waits id [] = ⊥
Waits id (l ∷ links) = ((l.session_id ≡ id) × (l.reconciled_at ≡ none)) ⊎ Waits id links

-- What `open` started, is over without having been settled, and has a native id that waits.
pub record IsToSettle (links : Links) (is_dead : Session → Bool) (r : SessionRow) : Type 0 where
  pub from_open : r.origin ≡ some (codes "open")
  pub waits : Waits r.id links
  pub over : (r.status ≡ interrupted) ⊎ ((r.status ≡ working) × (is_dead (row_to_session r) ≡ true))

Waits-of :
    (id : Text) (links : Links)
    → any (λ l. l.session_id == id && is_open l) links ≡ true
    → Waits id links
Waits-of id [] h = ground arith
Waits-of id (l ∷ links) h = elim (Bool-cases (l.session_id == id && is_open l)) [
  | inl e ↦ inl ((eq_iff l.session_id id).0 (ground arith), ground arith)
  | inr e ↦ inr (Waits-of id links (ground arith))
]

Waits-to :
    (id : Text) (links : Links)
    → Waits id links
    → any (λ l. l.session_id == id && is_open l) links ≡ true
Waits-to id [] h = ground arith
Waits-to id (l ∷ links) (inl (e, o)) = ground (arith, (eq_iff l.session_id id).1 e)
Waits-to id (l ∷ links) (inr h) = ground (arith, Waits-to id links h)

from_open-to : (o : Option Text) → is_from_open o ≡ true → o ≡ some (codes "open")
from_open-to none h = ground arith
from_open-to (some t) h = ap some ((eq_iff t (codes "open")).0 h)

Over : SessionStatus → Bool → Type 0
Over st dead = (st ≡ interrupted) ⊎ ((st ≡ working) × (dead ≡ true))

Over-to :
    (st : SessionStatus) (dead : Bool)
    → (is_unsettled st && is_stale_status st dead) ≡ true
    → Over st dead
unfolding Over
Over-to starting dead h = ground arith
Over-to working dead h = inr (refl, h)
Over-to needs_input dead h = ground arith
Over-to idle dead h = ground arith
Over-to completed dead h = ground arith
Over-to failed dead h = ground arith
Over-to stopped dead h = ground arith
Over-to orphaned dead h = ground arith
Over-to interrupted dead h = inl refl

Over-of :
    (st : SessionStatus) (dead : Bool)
    → Over st dead
    → (is_unsettled st && is_stale_status st dead) ≡ true
unfolding Over
Over-of st dead (inl e) = rw e refl
Over-of st dead (inr (e, d)) = rw (e, d) refl

settles-to :
    (links : Links) (is_dead : Session → Bool) (r : SessionRow)
    → (is_candidate links r && is_stale is_dead r) ≡ true
    → IsToSettle links is_dead r
unfolding Over
settles-to links is_dead r h = record {
  from_open = from_open-to r.origin (ground arith);
  waits = Waits-of r.id links (ground arith);
  over = Over-to r.status (is_dead (row_to_session r)) (ground arith);
}

settles-of :
    (links : Links) (is_dead : Session → Bool) (r : SessionRow)
    → IsToSettle links is_dead r
    → (is_candidate links r && is_stale is_dead r) ≡ true
unfolding Over
settles-of links is_dead r h =
    let opened : is_from_open r.origin ≡ true = rw h.from_open (eq_refl (codes "open")) in
    ground (
      arith,
      opened,
      Waits-to r.id links h.waits,
      Over-of r.status (is_dead (row_to_session r)) h.over,
    )

find_by-any :
    {A : Type 0} (p : A → Bool) (xs : List A) (a : A) → find_by p xs ≡ some a → any p xs ≡ true
find_by-any p [] a h = ground arith
find_by-any p (x ∷ xs) a h = elim (Bool-cases (p x)) [
  | inl e ↦ ground (arith, e)
  | inr e ↦ ground (arith, e, find_by-any p xs a (rw e at h))
]

-- A row with the id of another is that one.
IsFound-same :
    (table : Sessions) (x r : SessionRow) → IsFound table x → IsFound table r → x.id ≡ r.id → x ≡ r
IsFound-same table x r hx hr e =
    some-injective _ _ (sym hx ∙ ap (λ id. find_by (λ q. q.id == id) table) e ∙ hr)

module _ (table : Sessions) (r : SessionRow) (here : IsFound table r) where
  abbrev has_row : List SessionRow → Bool
  has_row rows = any (λ q. q.id == r.id) rows

  has_row-filter_by :
      (p : SessionRow → Bool) (rows : List SessionRow)
      → All (IsFound table) rows
      → has_row (filter_by p rows) ≡ (has_row rows && p r)
  has_row-filter_by p [] h = refl
  has_row-filter_by p (x ∷ rows) h = elim (Bool-cases (x.id == r.id)) [
    | inl e ↦
        let same = ap p (IsFound-same table x r h.0 here ((eq_iff x.id r.id).0 e)) in
        ground (arith, e, same, has_row-filter_by p rows h.1)
    | inr e ↦ ground (arith, e, has_row-filter_by p rows h.1)
  ]

  has_row-table : has_row table ≡ true
  has_row-table = find_by-any (λ q. q.id == r.id) table r here

has_row-map :
    (id : Text) (rows : List SessionRow)
    → any (λ s. s.id == id) (map row_to_session rows) ≡ any (λ q. q.id == id) rows
unfolding row_to_session
has_row-map id [] = refl
has_row-map id (r ∷ rows) = ap (λ b. r.id == id || b) (has_row-map id rows)

-- Where ids are unique, `staleOpenRows` never throws. It answers sessions in the order of their
-- creation, and a row of the table is among them exactly when `open` started it, it has a native
-- id whose usage waits, and it is interrupted, or working and dead.
pub stale_open_rows_lem :
    (table : Sessions) (links : Links) (is_dead : Session → Bool) (r : SessionRow)
    → IsKeyed table
    → find_by (λ q. q.id == r.id) table ≡ some r
    → (answered : List Session) × (stale_open_rows table links is_dead ≡ some answered)
      × IsSorted older answered
      × ((any (λ s. s.id == r.id) answered ≡ true) ↔ IsToSettle links is_dead r)
unfolding stale_open_rows candidates
stale_open_rows_lem table links is_dead r k here =
    let found_rows = All-filter_by (IsFound table) (is_candidate links) table k.keyed in
    let listed = sort_by by_created (filter_by (is_candidate links) table) in
    let all_found = All-sort_by (IsFound table) by_created _ found_rows in
    let stale = filter_by (is_stale is_dead) listed in
    let test =
      has_row-map r.id stale
      ∙ has_row-filter_by table r here (is_stale is_dead) listed all_found
      ∙ ap (λ b. b && is_stale is_dead r)
          (any-sort_by by_created (λ q. q.id == r.id) (filter_by (is_candidate links) table)
            ∙ has_row-filter_by table r here (is_candidate links) table k.keyed
            ∙ ap (λ b. b && is_candidate links r) (has_row-table table r here)) in
    (
      map row_to_session stale,
      stale_of_lem table is_dead listed all_found,
      map-IsSorted stale (filter_by-IsSorted (is_stale is_dead) listed (sort_by-IsSorted _)),
      (
        (λ h. settles-to links is_dead r (sym test ∙ h)),
        (λ h. test ∙ settles-of links is_dead r h),
      ),
    )
