-- ===== src/Tests/Links.antt =====
-- Runs of src/store/native-links.ts: a session with one native id settled and one that waits.
use codedeck.Common.{
  true, ◌↔◌, IsSorted, ◌==◌, codes, ◌≡◌, refl, sort_by, Bool, false, some, List, [], ◌∷◌, any, map,
}
use codedeck.Core.Session.{Session, interrupted}
use codedeck.Store.Links.{Links, unreconciled, links_for, no_price}
use codedeck.Store.Links.Phases.{
  Call, to_link, to_mark, serve_all, phase_after, unlinked, is_opened, serve_all-unreconciled,
}
use codedeck.Store.Links.Stale.{stale_open_rows, candidates}
use codedeck.Store.Links.Stale.Exact.{IsKeyed, IsToSettle, stale_open_rows_lem}
use codedeck.Store.Links.Stale.Order.{older}
use codedeck.Store.Sessions.{Sessions, get, get_exact, get_from}
use codedeck.Store.Sessions.Row.{SessionRow, row_to_session, session_to_row}
use codedeck.Tests.Fixtures.{idle_session, table_of, sid}

abbrev open_session : Session
open_session = record idle_session { status = interrupted; origin = some (codes "open") }

abbrev sessions : Sessions
sessions = table_of open_session

abbrev calls : List Call
calls =
    to_link sid (codes "n1") 1
    ∷ to_link sid (codes "n2") 2
    ∷ to_mark sid (codes "n1") no_price 3
    ∷ to_link sid (codes "n1") 4
    ∷ []

abbrev links : Links
links = serve_all sessions [] calls

-- The id that was marked is not linked again.
waiting : map (λ l. l.native_id) (unreconciled links sid) ≡ codes "n2" ∷ []
unfolding serve_all unreconciled sort_by ◌==◌ session_to_row
waiting = refl

all_links : map (λ l. l.linked_at) (links_for links (sid ∷ [])) ≡ 1 ∷ 2 ∷ []
unfolding serve_all links_for sort_by ◌==◌ session_to_row
all_links = refl

nobody : links_for links [] ≡ []
unfolding links_for
nobody = refl

serve_all-unreconciled_example :
    any (λ l. l.native_id == codes "n2") (unreconciled links sid)
    ≡ is_opened (phase_after sessions sid (codes "n2") calls unlinked)
serve_all-unreconciled_example = serve_all-unreconciled sessions calls sid (codes "n2")

sessions-IsKeyed : IsKeyed sessions
unfolding ◌==◌ session_to_row
sessions-IsKeyed = record { keyed = (refl, tt) }

nobody_dead : Session → Bool
nobody_dead s = false

abbrev open_row : SessionRow
open_row = session_to_row open_session

stale_open_rows_lem_example :
    (answered : List Session) × (stale_open_rows sessions links nobody_dead ≡ some answered)
    × IsSorted older answered
    × ((any (λ s. s.id == open_row.id) answered ≡ true) ↔ IsToSettle links nobody_dead open_row)
unfolding ◌==◌ session_to_row
stale_open_rows_lem_example =
    stale_open_rows_lem sessions links nobody_dead open_row sessions-IsKeyed refl

-- The interrupted session is the one to settle.
one_stale :
    stale_open_rows sessions links nobody_dead
    ≡ some (row_to_session (session_to_row open_session) ∷ [])
unfolding stale_open_rows candidates sort_by session_to_row ◌==◌ serve_all get get_exact get_from
one_stale = refl
