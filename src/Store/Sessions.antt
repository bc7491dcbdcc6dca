-- ===== src/Store/Sessions.antt =====
-- src/store/sessions.ts: the table of sessions behind `SessionStore`. Its rows and their reading
-- are in `Row`, the changes in `Update`, the lists in `Lists`; here are the lookups.
pub mod Row
pub mod Update
pub mod Lists
pub mod Laws
pub mod Found
use codedeck.Common.{
  codes, le_text, ℕ, Text, Bool, true, false, Option, none, some, List, [], ◌∷◌, ◌++◌, ◌==◌,
  find_by, filter_by, map, starts_with, to_lower, is_empty, any, sort_by, if◌then◌else◌,
}
use codedeck.Core.Session.{SessionStatus, Session}
use codedeck.Store.Sessions.Update.{SessionUpdate, update_rows, status_patch}
use codedeck.Store.Sessions.Row.{SessionRow, row_to_session, session_to_row}

abbrev pub Sessions : Type 0
Sessions = List SessionRow

-- PRIMARY KEY: `none` where the id is taken.
unfoldable pub create : Sessions → Session → Option Sessions
create table session =
    if any (λ r. r.id == session.id) table
    then none
    else some (table ++ (session_to_row session ∷ []))

abbrev pub read : Option SessionRow → Option Session
read none = none
read (some r) = some (row_to_session r)

unfoldable pub get_exact : Sessions → Text → Option Session
get_exact table id = read (find_by (λ r. r.id == id) table)

pub data Lookup : Type 0 where
  found : Session → Lookup
  missing : Lookup
  ambiguous : List Text → Lookup  -- AmbiguousSessionIdError, with its candidates

-- The rows whose id starts with the prefix.
unfoldable pub by_prefix : List SessionRow → Lookup
by_prefix [] = missing
by_prefix (r ∷ []) = found (row_to_session r)
by_prefix (r ∷ q ∷ rows) = ambiguous (map (λ x. x.id) (r ∷ q ∷ rows))

abbrev by_id : SessionRow → SessionRow → Bool
by_id a b = le_text a.id b.id

unfoldable pub get_prefix : Sessions → Text → Option Session → Lookup
unfolding by_prefix
get_prefix table normalized (some s) = found s
get_prefix table normalized none =
    if is_empty normalized
    then missing
    else by_prefix (sort_by by_id (filter_by (λ r. starts_with normalized r.id) table))

unfoldable pub get_from : Sessions → Text → Option Session → Lookup
unfolding get_prefix
get_from table id (some s) = found s
get_from table id none =
    let normalized = to_lower id in get_prefix table normalized (get_exact table normalized)

-- The exact id, the id in lower case, or the one row that starts with it.
unfoldable pub get : Sessions → Text → Lookup
unfolding get_from
get table id = get_from table id (get_exact table id)

unfoldable pub delete : Sessions → Text → Sessions
delete table id = filter_by (λ r. if r.id == id then false else true) table

abbrev pub is_native : Text → Option Text → Bool
is_native id none = false
is_native id (some n) = n == id

unfoldable pub find_by_native_id : Sessions → Text → Option Session
find_by_native_id table native_id =
    read (find_by (λ r. is_native native_id r.native_session_id) table)

unfoldable pub update_found : Sessions → Text → SessionUpdate → ℕ → Lookup → Option Sessions
update_found table id patch now missing = none
update_found table id patch now (ambiguous _) = none
update_found table id patch now (found s) = some (update_rows id patch now table)

-- `none` stands for the error of an id that is missing or ambiguous.
unfoldable pub update : Sessions → Text → SessionUpdate → ℕ → Option Sessions
unfolding update_found
update table id patch now = update_found table id patch now (get table id)

abbrev joined_ids : List Text → Text
joined_ids [] = []
joined_ids (id ∷ []) = id
joined_ids (id ∷ next ∷ ids) = id ++ codes ", " ++ joined_ids (next ∷ ids)

unfoldable pub lookup_error : Text → Lookup → Text
lookup_error sid missing = codes "Session " ++ sid ++ codes " not found"
lookup_error sid (ambiguous ids) =
    codes "Ambiguous session ID \"" ++ to_lower sid ++ codes "\". Matches: " ++ joined_ids ids
lookup_error sid (found s) = []

-- The message of the error that `update` throws.
abbrev pub update_error : Sessions → Text → Text
update_error table id = lookup_error id (get table id)

unfoldable pub set_status : Sessions → Text → SessionStatus → ℕ → SessionUpdate → Option Sessions
unfolding update
set_status table id status now extra = update table id (status_patch status now extra) now
