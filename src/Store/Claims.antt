-- ===== src/Store/Claims.antt =====
-- src/store/claims.ts: which session claims which paths. The table of sessions is an input; the
-- globs of minimatch, a third-party library, are the record `Globs`. Every operation is one
-- transaction: an error rolls it back.
pub mod Table
pub mod Stale
pub mod Ownership
use codedeck.Common.{
  is_some, sort_by, leb, ℕ, suc, ◌+◌, Text, codes, Bool, true, false, Option, none, some, List, [],
  ◌∷◌, ◌++◌, ◌==◌, ◌&&◌, ◌||◌, not, eqb, filter_by, find_by, map, get_or, if◌then◌else◌,
}
use codedeck.Core.Session.{SessionStatus, is_terminal_status}
use codedeck.Store.Paths.{normalize_repo_path}

-- A row, and the claim that it is read as.
pub record Claim : Type 0 where
  pub id : ℕ
  pub session_id : Text
  pub path_glob : Text
  pub reason : Text
  pub created_at : ℕ
  pub active : Bool

pub record SessionContext : Type 0 where
  pub id : Text
  pub status : SessionStatus
  pub cwd : Text
  pub repository : Option Text
  pub worktree : Option Text

-- The table with its AUTOINCREMENT counter.
pub record Claims : Type 0 where
  pub rows : List Claim
  pub next_id : ℕ

-- What the store asks of minimatch, under its fixed options.
pub record Globs : Type 0 where
  pub has_magic : Text → Bool
  pub minimatch : Text → Text → Bool

pub data ClaimError : Type 0 where
  session_not_found invalid_path claim_not_found claim_not_owned not_read_back : ClaimError

pub data Result {ℓ} (A : Type ℓ) : Type ℓ where
  ok : A → Result A
  err : ClaimError → Result A

abbrev pub find_session : List SessionContext → Text → Option SessionContext
find_session sessions sid = find_by (λ s. s.id == sid) sessions

unfoldable pub session_root : SessionContext → Text
session_root s = get_or s.worktree (get_or s.repository s.cwd)

-- `row.status === null || isTerminalStatus(row.status)`, over the left join
abbrev stale_status : Option SessionContext → Bool
stale_status none = true
stale_status (some s) = is_terminal_status s.status

abbrev pub is_stale : List SessionContext → Claim → Bool
is_stale sessions c = stale_status (find_session sessions c.session_id)

abbrev deactivate : Claim → Claim
deactivate c = record c { active = false }

abbrev pub update_where : (Claim → Bool) → (Claim → Claim) → List Claim → List Claim
update_where p f [] = []
update_where p f (c ∷ cs) = (if p c then f c else c) ∷ update_where p f cs

unfoldable pub release_stale_claims : List SessionContext → Claims → Claims
release_stale_claims sessions db = record db {
  rows = update_where (λ c. c.active && is_stale sessions c) deactivate db.rows;
}

-- BEGIN, the stale claims, the operation, and COMMIT or ROLLBACK.
abbrev settle {ℓ} : {A : Type ℓ} → Claims → Result (Claims × A) → Result A × Claims
settle db (ok (db', a)) = (ok a, db')
settle db (err e) = (err e, db)

unfoldable pub with_operation {ℓ} :
    {A : Type ℓ} → List SessionContext → (Claims → Result (Claims × A)) → Claims → Result A × Claims
unfolding release_stale_claims
with_operation sessions operation db = settle db (operation (release_stale_claims sessions db))

abbrev pub find_claim : List Claim → ℕ → Option Claim
find_claim rows id = find_by (λ c. eqb c.id id) rows

read_back : Claims → Option Claim → Result (Claims × Claim)
read_back db none = err not_read_back
read_back db (some c) = ok (db, c)

abbrev pub holds : Text → Text → Claim → Bool
holds sid glob c = c.session_id == sid && c.path_glob == glob && c.active

-- The part of `add` behind the path: an active claim on the same glob gets the new reason.
unfoldable pub add_row : Text → Text → Text → ℕ → Claims → Option Claim → Result (Claims × Claim)
unfolding read_back
add_row sid glob reason now db (some existing) =
    let db' : Claims = record db {
      rows = update_where (λ c. eqb c.id existing.id) (λ c. record c { reason = reason }) db.rows;
    } in
    read_back db' (find_claim db'.rows existing.id)
add_row sid glob reason now db none =
    let db' : Claims = record {
      rows =
          db.rows
          ++ (record {
            id = db.next_id;
            session_id = sid;
            path_glob = glob;
            reason = reason;
            created_at = now;
            active = true;
          }
              ∷ []);
      next_id = db.next_id + 1;
    } in
    read_back db' (find_claim db'.rows db.next_id)

add_at : Text → Option Text → Text → ℕ → Claims → Result (Claims × Claim)
unfolding add_row
add_at sid none reason now db = err invalid_path
add_at sid (some glob) reason now db =
    add_row sid glob reason now db (find_by (holds sid glob) db.rows)

abbrev by_id : Claim → Claim → Bool
by_id a b = leb a.id b.id

module _ (here : List Text) (sessions : List SessionContext) where
  add_for : Option SessionContext → Text → Text → Text → ℕ → Claims → Result (Claims × Claim)
  unfolding add_at
  add_for none sid path_glob reason now db = err session_not_found
  add_for (some s) sid path_glob reason now db =
      add_at sid (normalize_repo_path here path_glob (session_root s)) reason now db

  unfoldable pub add : Text → Text → Text → ℕ → Claims → Result Claim × Claims
  unfolding add_for with_operation
  add sid path_glob reason now db =
      with_operation sessions (add_for (find_session sessions sid) sid path_glob reason now) db

  -- The inner join with the sessions, in the order of the ids.
  unfoldable pub active_rows : Claims → List Claim
  active_rows db =
      sort_by by_id
        (filter_by (λ c. c.active && is_some (find_session sessions c.session_id)) db.rows)

  unfoldable pub overlaps : Globs → Text → Claim → Bool
  overlaps globs path c =
      if globs.has_magic path
      then globs.minimatch c.path_glob path || globs.minimatch path c.path_glob
      else globs.minimatch path c.path_glob

  query_at : Globs → Option (Option Text) → Claims → Result (Claims × List Claim)
  unfolding active_rows overlaps
  query_at globs none db = ok (db, active_rows db)
  query_at globs (some none) db = err invalid_path
  query_at globs (some (some path)) db = ok (db, filter_by (overlaps globs path) (active_rows db))

  normalize_query : SessionContext → Option Text → Option (Option Text)
  normalize_query s none = none
  normalize_query s (some path) = some (normalize_repo_path here path (session_root s))

  query_for : Globs → Option SessionContext → Option Text → Claims → Result (Claims × List Claim)
  unfolding query_at normalize_query
  query_for globs none path db = err session_not_found
  query_for globs (some s) path db = query_at globs (normalize_query s path) db

  unfoldable pub query : Globs → Text → Option Text → Claims → Result (List Claim) × Claims
  unfolding query_for with_operation
  query globs sid path db =
      with_operation sessions (query_for globs (find_session sessions sid) path) db

release_row : Text → ℕ → Claims → Option Claim → Result (Claims × Claim)
release_row sid claim_id db none = err claim_not_found
release_row sid claim_id db (some row) =
    if not row.active
    then err claim_not_found
    else if not (row.session_id == sid)
    then err claim_not_owned
    else ok (
      record db {
        rows =
            update_where (λ c. eqb c.id claim_id && c.session_id == sid && c.active) deactivate
              db.rows;
      },
      deactivate row,
    )

unfoldable pub release : List SessionContext → Text → ℕ → Claims → Result Claim × Claims
unfolding release_row with_operation
release sessions sid claim_id db =
    with_operation sessions (λ db'. release_row sid claim_id db' (find_claim db'.rows claim_id)) db
