-- ===== src/Store/Links/Stale.antt =====
-- `staleOpenRows` of src/store/native-links.ts.
pub mod Order
pub mod Exact
use codedeck.Common.{
  le_text, Text, codes, Bool, true, false, Option, none, some, List, [], ◌∷◌, ◌==◌, ◌&&◌, eqb, leb,
  any, filter_by, sort_by, if◌then◌else◌,
}
use codedeck.Core.Session.{Session, SessionStatus, interrupted, working}
use codedeck.Store.Links.{Links, is_open}
use codedeck.Store.Sessions.{Sessions, get, Lookup, found, missing, ambiguous}
use codedeck.Store.Sessions.Row.{SessionRow}

abbrev pub is_from_open : Option Text → Bool
is_from_open none = false
is_from_open (some origin) = origin == codes "open"

-- `status IN ('interrupted', 'working')`
abbrev pub is_unsettled : SessionStatus → Bool
is_unsettled interrupted = true
is_unsettled working = true
is_unsettled _ = false

-- The join with the links, DISTINCT: the session has a link that is not reconciled.
abbrev pub is_candidate : Links → SessionRow → Bool
is_candidate links r =
    is_from_open r.origin
    && any (λ l. l.session_id == r.id && is_open l) links
    && is_unsettled r.status

-- `ORDER BY created_at, id`
abbrev pub by_created : SessionRow → SessionRow → Bool
by_created a b =
    if eqb a.created_at b.created_at then le_text a.id b.id else leb a.created_at b.created_at

unfoldable pub candidates : Sessions → Links → List SessionRow
candidates table links = sort_by by_created (filter_by (is_candidate links) table)

-- `status === "interrupted" || (status === "working" && isDead(session))`
abbrev pub is_stale_status : SessionStatus → Bool → Bool
is_stale_status interrupted dead = true
is_stale_status working dead = dead
is_stale_status _ dead = false

-- One turn of the loop: a session that is missing is passed over, an ambiguous id throws.
unfoldable pub take_candidate :
    (Session → Bool) → SessionStatus → Lookup → Option (List Session) → Option (List Session)
take_candidate is_dead status (ambiguous ids) rest = none
take_candidate is_dead status l none = none
take_candidate is_dead status missing (some rest) = some rest
take_candidate is_dead status (found s) (some rest) =
    some (if is_stale_status status (is_dead s) then s ∷ rest else rest)

unfoldable pub stale_of : Sessions → (Session → Bool) → List SessionRow → Option (List Session)
unfolding take_candidate
stale_of table is_dead [] = some []
stale_of table is_dead (c ∷ cs) =
    take_candidate is_dead c.status (get table c.id) (stale_of table is_dead cs)

-- `none` stands for an id that is ambiguous.
unfoldable pub stale_open_rows : Sessions → Links → (Session → Bool) → Option (List Session)
unfolding stale_of candidates
stale_open_rows table links is_dead = stale_of table is_dead (candidates table links)
