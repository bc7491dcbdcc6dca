-- ===== src/Store/Claims/Stale.antt =====
-- `query` of src/store/claims.ts, and the claims of sessions that are gone or over.
use codedeck.Common.{
  ℕ, suc, ◌≤◌, Text, ◌≡◌, refl, Bool, true, none, some, List, [], ◌∷◌, ◌&&◌, arith, All, leb,
  Bool-cases, inl, inr, is_some, not, filter_by, IsSorted, sort_by_of_IsSorted, Option-cases,
}
use codedeck.Store.Paths.{normalize_repo_path}
use codedeck.Store.Claims.{
  Claim, Claims, Globs, SessionContext, ok, update_where, deactivate, release_stale_claims, query,
  find_session, is_stale, active_rows, overlaps, by_id, session_root,
}
use codedeck.Store.Claims.Table.{Ids, IsValid}

module _ (sessions : List SessionContext) where
  -- What the code means by an active claim.
  abbrev pub is_live : Claim → Bool
  is_live c = c.active && not (is_stale sessions c)

  live_rows :
      (cs : List Claim)
      → filter_by
          (λ c. c.active && is_some (find_session sessions c.session_id))
          (update_where (λ c. c.active && is_stale sessions c) deactivate cs)
        ≡ filter_by is_live cs
  live_rows [] = refl
  live_rows (c ∷ cs) = elim (Option-cases (find_session sessions c.session_id)) [
    | inl gone ↦ rw gone (ground (arith, live_rows cs))
    | inr (s, found) ↦ rw found (ground (arith, live_rows cs))
  ]

  -- Rows in the order of the table are in the order of their ids.
  filtered-above :
      (p : Claim → Bool) (j k top : ℕ) (cs : List Claim)
      → j ≤ k
      → Ids k top cs
      → All (λ c. leb j c.id ≡ true) (filter_by p cs)
  filtered-above p j k top [] le h = tt
  filtered-above p j k top (c ∷ cs) le h = elim (Bool-cases (p c)) [
    | inl hit ↦ rw hit (ground arith, filtered-above p j (suc c.id) top cs (omega arith) h.1)
    | inr miss ↦ rw miss (filtered-above p j (suc c.id) top cs (omega arith) h.1)
  ]

  filtered-IsSorted :
      (p : Claim → Bool) (k top : ℕ) (cs : List Claim)
      → Ids k top cs
      → IsSorted by_id (filter_by p cs)
  filtered-IsSorted p k top [] h = tt
  filtered-IsSorted p k top (c ∷ cs) h = elim (Bool-cases (p c)) [
    | inl hit ↦ rw hit (
      filtered-above p c.id (suc c.id) top cs (omega arith) h.1,
      filtered-IsSorted p (suc c.id) top cs h.1,
    )
    | inr miss ↦ rw miss (filtered-IsSorted p (suc c.id) top cs h.1)
  ]

  active_rows-live :
      (here : List Text) (db : Claims)
      → IsValid db
      → active_rows here sessions (release_stale_claims sessions db) ≡ filter_by is_live db.rows
  unfolding active_rows release_stale_claims
  active_rows-live here db v =
      rw (live_rows db.rows)
        (sort_by_of_IsSorted by_id _ (filtered-IsSorted is_live 0 db.next_id db.rows v.ids))

  -- In a table with ascending ids and no two active claims of one session on one glob, a query
  -- from a known session answers exactly the claims that are active and belong to a session
  -- which exists and is not over, in the order of their ids; for a path inside the root of the
  -- session that asks, those among them that overlap the path.
  pub query_exact :
      (here : List Text) (globs : Globs) (sid : Text) (s : SessionContext) (path p : Text)
      (db : Claims)
      → IsValid db
      → find_session sessions sid ≡ some s
      → normalize_repo_path here path (session_root s) ≡ some p
      → ((query here sessions globs sid none db).0 ≡ ok (filter_by is_live db.rows))
        × ((query here sessions globs sid (some path) db).0
            ≡ ok (filter_by (overlaps here sessions globs p) (filter_by is_live db.rows)))
  unfolding query
  query_exact here globs sid s path p db v found inside =
      (rw (found, active_rows-live here db v), rw (found, inside, active_rows-live here db v))
