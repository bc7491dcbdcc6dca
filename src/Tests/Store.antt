-- ===== src/Tests/Store.antt =====
-- Sessions that are written and read, events that are appended, and claims of two sessions.
use codedeck.Common.{
  ◌+◌, Text, codes, ◌≡◌, refl, true, false, none, some, List, [], ◌∷◌, arith, filter_by, ◌==◌,
}
use codedeck.Core.Session.{Session, working}
use codedeck.Core.Event.{text_delta}
use codedeck.Store.Events.{append, count, is_replay}
use codedeck.Store.Events.Laws.{IsNumbered, Appended, append-IsNumbered, append-Appended}
use codedeck.Store.Paths.{normalize_repo_path}
use codedeck.Store.Claims.{
  session_root, Claims, Globs, SessionContext, ok, query, release, find_claim, overlaps,
}
use codedeck.Store.Claims.Table.{IsValid, Request, adding, releasing, serve_all, serve_all-IsValid}
use codedeck.Store.Claims.Stale.{is_live, query_exact}
use codedeck.Store.Claims.Ownership.{verdict, released, release_lem}
use codedeck.Store.Sessions.Row.{row_to_session, session_to_row}
use codedeck.Store.Sessions.Update.{SessionUpdate, no_update, put}
use codedeck.Store.Sessions.Laws.{row_to_session-session_to_row}
use codedeck.Tests.Fixtures.{sid, idle_session, event_with}

sibling : normalize_repo_path [] (codes "../b/./x.ts") (codes "/repo/a") ≡ none
unfolding normalize_repo_path ◌==◌
sibling = refl

inside : normalize_repo_path [] (codes "b\\..//c/./x.ts") (codes "/repo/a") ≡ some (codes "c/x.ts")
unfolding normalize_repo_path ◌==◌
inside = refl

abbrev unset_session : Session
unset_session = record idle_session { dangerously_bypass_approvals_and_sandbox = none }

row_to_session-session_to_row_example :
    row_to_session (session_to_row unset_session)
    ≡ record unset_session { dangerously_bypass_approvals_and_sandbox = some false }
row_to_session-session_to_row_example = row_to_session-session_to_row unset_session

abbrev renamed : SessionUpdate
renamed = record no_update { name = put (some (codes "other")) }

append-IsNumbered_example : IsNumbered (append [] sid (event_with none (text_delta (codes "x")))).0
append-IsNumbered_example =
    append-IsNumbered [] sid (event_with none (text_delta (codes "x")))
      (record { numbered = λ j. tt })

append-Appended_example :
    Appended []
      (append [] sid (event_with none (text_delta (codes "x")))).0
      sid
      (event_with none (text_delta (codes "x")))
    × ((append [] sid (event_with none (text_delta (codes "x")))).1 ≡ count [] sid + 1)
unfolding is_replay
append-Appended_example =
    append-Appended [] sid (event_with none (text_delta (codes "x")))
      (record { numbered = λ j. tt }) refl

abbrev context : Text → SessionContext
context id = record {
  id = id;
  status = working;
  cwd = codes "/repo";
  repository = none;
  worktree = none;
}

abbrev contexts : List SessionContext
contexts = context (codes "a") ∷ context (codes "b") ∷ []

abbrev no_claims : Claims
no_claims = record { rows = []; next_id = 1 }

no_claims-IsValid : IsValid no_claims
no_claims-IsValid = record { ids = ground arith; distinct = tt }

abbrev requests : List Request
requests =
    adding contexts (codes "a") (codes "src/**") (codes "refactor") 5
    ∷ adding contexts (codes "b") (codes "docs") [] 6
    ∷ releasing contexts (codes "a") 1
    ∷ []

serve_all-IsValid_example : IsValid (serve_all [] no_claims requests)
serve_all-IsValid_example = serve_all-IsValid [] no_claims requests no_claims-IsValid

abbrev claimed : Claims
claimed = record {
  rows =
      record {
        id = 1;
        session_id = codes "a";
        path_glob = codes "src";
        reason = [];
        created_at = 5;
        active = true;
      }
      ∷ [];
  next_id = 2;
}

claimed-IsValid : IsValid claimed
claimed-IsValid = record { ids = ground arith; distinct = ground arith }

abbrev globs : Globs
globs = record { has_magic = λ p. false; minimatch = λ p q. p == q }

query_exact_example :
    ((query [] contexts globs (codes "b") none claimed).0
      ≡ ok (filter_by (is_live contexts) claimed.rows))
    × ((query [] contexts globs (codes "b") (some (codes "src/x.ts")) claimed).0
        ≡ ok (
            filter_by
              (overlaps [] contexts globs (codes "src/x.ts"))
              (filter_by (is_live contexts) claimed.rows)))
unfolding normalize_repo_path ◌==◌ session_root
query_exact_example =
    query_exact contexts [] globs (codes "b") (context (codes "b")) (codes "src/x.ts")
      (codes "src/x.ts") claimed claimed-IsValid refl refl

release_lem_example : release contexts (codes "b") 1 claimed ≡ (
  verdict contexts (codes "b") (find_claim claimed.rows 1),
  released contexts
      (codes "b")
      1
      claimed
      (verdict contexts (codes "b") (find_claim claimed.rows 1)),
)
release_lem_example = release_lem contexts (codes "b") 1 claimed
