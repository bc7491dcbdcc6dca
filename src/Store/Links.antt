-- ===== src/Store/Links.antt =====
-- src/store/native-links.ts: the native ids that a session has had, and which of them wait for
-- their usage. `Stale` has the sessions to settle, `Phases` what holds of a history.
pub mod Phases
pub mod Stale
use codedeck.Common.{
  le_text, ℕ, Text, Bool, true, false, Option, none, some, List, [], ◌∷◌, ◌++◌, ◌==◌, ◌&&◌, not,
  eqb, leb, any, is_some, is_empty, filter_by, map, sort_by, if◌then◌else◌,
}
use codedeck.Store.Sessions.{Sessions}

pub data ReconcileState : Type 0 where
  cost_state tokens no_price missing : ReconcileState

-- A row, and the link that it is read as.
pub record NativeLink : Type 0 where
  pub session_id : Text
  pub native_id : Text
  pub linked_at : ℕ
  pub reconciled_at : Option ℕ
  pub state : Option ReconcileState

abbrev pub Links : Type 0
Links = List NativeLink

abbrev pub is_link : Text → Text → NativeLink → Bool
is_link sid native l = l.session_id == sid && l.native_id == native

abbrev pub is_open : NativeLink → Bool
is_open l = not (is_some l.reconciled_at)

-- `ORDER BY linked_at, native_id`
abbrev pub by_linked : NativeLink → NativeLink → Bool
by_linked a b =
    if eqb a.linked_at b.linked_at
    then le_text a.native_id b.native_id
    else leb a.linked_at b.linked_at

-- `ORDER BY session_id, linked_at, native_id`
abbrev by_session : NativeLink → NativeLink → Bool
by_session a b =
    if a.session_id == b.session_id then by_linked a b else le_text a.session_id b.session_id

pub record Linked : Type 0 where
  pub created : Bool
  pub previous : List Text

unfoldable pub previous_of : Links → Text → Text → List Text
previous_of links sid native =
    map (λ l. l.native_id)
      (sort_by by_linked
        (filter_by (λ l. l.session_id == sid && not (l.native_id == native) && is_open l) links))

-- PRIMARY KEY (session_id, native_id): a row that is there stays as it is. The foreign key refuses
-- a session that the table does not hold: `none`.
unfoldable pub link : Sessions → Links → Text → Text → ℕ → Option (Links × Linked)
unfolding previous_of
link sessions links sid native now =
    let previous = previous_of links sid native in
    if any (is_link sid native) links
    then some (links, record { created = false; previous = previous })
    else if any (λ r. r.id == sid) sessions
    then some (
      links
          ++ record {
            session_id = sid;
            native_id = native;
            linked_at = now;
            reconciled_at = none;
            state = none;
          }
            ∷ [],
      record { created = true; previous = previous },
    )
    else none

unfoldable pub unreconciled : Links → Text → List NativeLink
unreconciled links sid = sort_by by_linked (filter_by (λ l. l.session_id == sid && is_open l) links)

unfoldable pub links_for : Links → List Text → List NativeLink
links_for links [] = []
links_for links (id ∷ ids) =
    sort_by by_session (filter_by (λ l. any (λ s. l.session_id == s) (id ∷ ids)) links)

abbrev pub reconciled : ReconcileState → ℕ → NativeLink → NativeLink
reconciled state now l = record l { reconciled_at = some now; state = some state }

unfoldable pub mark_reconciled : Links → Text → Text → ReconcileState → ℕ → Links
mark_reconciled links sid native state now =
    map (λ l. if is_link sid native l then reconciled state now l else l) links
