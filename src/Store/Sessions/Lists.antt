-- ===== src/Store/Sessions/Lists.antt =====
-- The lists that the store answers, newest first. `now` is the time of the call.
use codedeck.Common.{
  le_text, to_lower, ℕ, ◌-◌, ◌*◌, Text, codes, Bool, true, false, Option, none, some, List, ◌==◌,
  ◌&&◌, ◌||◌, not, leb, ltb, filter_by, map, take, length, sort_by, includes, if◌then◌else◌,
}
use codedeck.Core.Session.{Session, is_active_status, failed, SessionStatus}
use codedeck.Core.Failure.{store_busy, FailureCode}
use codedeck.Store.Sessions.Row.{SessionRow, row_to_session, FailureColumn, json, corrupt}

abbrev pub ps_recent_window_ms : ℕ
ps_recent_window_ms = 24 * 60 * 60 * 1000

-- `ORDER BY updated_at DESC`; rows of one time stay in the order of insertion.
abbrev pub newest_first : SessionRow → SessionRow → Bool
newest_first a b = leb b.updated_at a.updated_at

-- The row is shown by default.
abbrev pub is_recent : ℕ → SessionRow → Bool
is_recent now r = is_active_status r.status || leb (now - ps_recent_window_ms) r.updated_at

unfoldable pub list : List SessionRow → ℕ → Bool → ℕ → List Session
list table limit include_all now =
    if include_all
    then map row_to_session (take limit (sort_by newest_first table))
    else map row_to_session (take limit (sort_by newest_first (filter_by (is_recent now) table)))

unfoldable pub count_hidden_by_window : List SessionRow → ℕ → ℕ
count_hidden_by_window table now = length (
    filter_by (λ r. not (is_active_status r.status) && ltb r.updated_at (now - ps_recent_window_ms))
      table)

unfoldable pub list_active : List SessionRow → List Session
list_active table =
    map row_to_session (sort_by newest_first (filter_by (λ r. is_active_status r.status) table))

abbrev is_failed : SessionStatus → Bool
is_failed failed = true
is_failed _ = false

abbrev is_busy_code : FailureCode → Bool
is_busy_code store_busy = true
is_busy_code _ = false

-- `detail LIKE '%database is locked%'`, which ignores the case of ASCII letters
abbrev locked_detail : Option Text → Bool
locked_detail none = false
locked_detail (some d) = includes (codes "database is locked") (to_lower d)

abbrev busy_failure : Option FailureColumn → Bool
busy_failure none = false
busy_failure (some corrupt) = false
busy_failure (some (json f)) = is_busy_code f.code || locked_detail f.detail

unfoldable pub list_store_busy_failures : List SessionRow → List Session
list_store_busy_failures table =
    map row_to_session
      (sort_by newest_first (filter_by (λ r. is_failed r.status && busy_failure r.failure) table))

abbrev same_text : Text → Option Text → Bool
same_text t none = false
same_text t (some u) = u == t

unfoldable pub get_by_run_id : List SessionRow → Text → List Session
get_by_run_id table run_id =
    map row_to_session (sort_by newest_first (filter_by (λ r. same_text run_id r.run_id) table))

-- `ORDER BY updated_at DESC, id ASC`
abbrev newest_then_id : SessionRow → SessionRow → Bool
newest_then_id a b =
    ltb b.updated_at a.updated_at || (leb b.updated_at a.updated_at && le_text a.id b.id)

unfoldable pub list_open_by_native_id : List SessionRow → Text → List Session
list_open_by_native_id table native_id = map row_to_session (
    sort_by newest_then_id (
      filter_by (λ r. same_text (codes "open") r.origin && same_text native_id r.native_session_id)
        table))
