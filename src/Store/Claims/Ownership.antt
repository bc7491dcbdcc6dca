-- ===== src/Store/Claims/Ownership.antt =====
-- `release` of src/store/claims.ts: the answer to each kind of claim.
use codedeck.Common.{
  ℕ, Text, ◌≡◌, refl, Bool, Option, none, some, List, [], ◌∷◌, ◌==◌, ◌&&◌, ◌||◌, arith, eqb,
  Bool-cases, inl, inr, if◌then◌else◌, not,
}
use codedeck.Store.Claims.{
  Claim, Claims, SessionContext, Result, ok, err, update_where, deactivate, release_stale_claims,
  settle, release, release_row, find_claim, is_stale, claim_not_found, claim_not_owned,
}
use codedeck.Store.Claims.Stale.{is_live}

module _ (sessions : List SessionContext) where
  -- What `release` answers for the row with the id, before stale claims are released.
  abbrev pub verdict : Text → Option Claim → Result Claim
  verdict sid none = err claim_not_found
  verdict sid (some c) =
      if not (is_live sessions c)
      then err claim_not_found
      else if c.session_id == sid
      then ok (deactivate c)
      else err claim_not_owned

  abbrev expire : List Claim → List Claim
  expire cs = update_where (λ c. c.active && is_stale sessions c) deactivate cs

  abbrev expire_one : Claim → Claim
  expire_one c = if c.active && is_stale sessions c then deactivate c else c

  abbrev expired_claim : Option Claim → Option Claim
  expired_claim none = none
  expired_claim (some c) = some (expire_one c)

  find-expire :
      (cs : List Claim) (claim_id : ℕ)
      → find_claim (expire cs) claim_id ≡ expired_claim (find_claim cs claim_id)
  find-expire [] claim_id = refl
  find-expire (c ∷ cs) claim_id = elim (Bool-cases (c.active && is_stale sessions c)) [
    | inl hit ↦ elim (Bool-cases (eqb c.id claim_id)) [
      | inl same ↦ rw hit (rw same (rw hit))
      | inr other ↦ rw hit (rw other (find-expire cs claim_id))
    ]
    | inr miss ↦ elim (Bool-cases (eqb c.id claim_id)) [
      | inl same ↦ rw miss (rw same (rw miss))
      | inr other ↦ rw miss (rw other (find-expire cs claim_id))
    ]
  ]

  abbrev owned : Text → ℕ → Claim → Bool
  owned sid claim_id c = eqb c.id claim_id && c.session_id == sid && c.active

  update-expire :
      (cs : List Claim) (sid : Text) (claim_id : ℕ)
      → update_where (owned sid claim_id) deactivate (expire cs)
        ≡ update_where
            (λ c. (c.active && is_stale sessions c) || owned sid claim_id c)
            deactivate
            cs
  update-expire [] sid claim_id = refl
  update-expire (c ∷ cs) sid claim_id = ground (arith, update-expire cs sid claim_id)

  -- The table after a release with this answer.
  abbrev pub released : Text → ℕ → Claims → Result Claim → Claims
  released sid claim_id db (err e) = db
  released sid claim_id db (ok c) = record db {
    rows =
        update_where (λ c'. (c'.active && is_stale sessions c') || owned sid claim_id c') deactivate
          db.rows;
  }

  release_found :
      (sid : Text) (claim_id : ℕ) (db : Claims) (o : Option Claim)
      → settle db (release_row sid claim_id (release_stale_claims sessions db) (expired_claim o))
        ≡ (verdict sid o, released sid claim_id db (verdict sid o))
  unfolding release_row release_stale_claims
  release_found sid claim_id db none = refl
  release_found sid claim_id db (some c) = ground (arith, update-expire db.rows sid claim_id)

  -- A release succeeds exactly for a live claim (active, of a session that exists and is not
  -- over) of the session that asks: then that claim and the stale ones are inactive, and all else
  -- is as before. A claim that is missing or not live is not found, another session's is refused,
  -- and both leave the table unchanged.
  pub release_lem :
      (sid : Text) (claim_id : ℕ) (db : Claims)
      → release sessions sid claim_id db ≡ (
        verdict sid (find_claim db.rows claim_id),
        released sid claim_id db (verdict sid (find_claim db.rows claim_id)),
      )
  unfolding release release_stale_claims
  release_lem sid claim_id db =
      rw (find-expire db.rows claim_id)
        (release_found sid claim_id db (find_claim db.rows claim_id))
