-- ===== src/Store/Claims/Table.antt =====
-- The table of claims through the requests of src/store/claims.ts: the ids, and the pairs of a
-- session and a glob that the unique index idx_claims_active_session_path is about.
use codedeck.Common.{
  All-append, Option-cases, ℕ, suc, ◌+◌, ◌≤◌, Text, ◌≡◌, refl, Bool, true, false, Option, none,
  some, List, [], ◌∷◌, ◌++◌, ◌==◌, ◌&&◌, arith, All, find_by, eqb, Bool-cases, inl, inr, eq_iff,
}
use codedeck.Store.Claims.{
  session_root, normalize_repo_path, Claim, Claims, Globs, SessionContext, Result, ok, err, holds,
  update_where, deactivate, release_stale_claims, with_operation, settle, add_row, add_at, add_for,
  add, query, query_for, release, release_row, find_claim, find_session, read_back, is_stale,
}

-- The ids ascend from `k` and lie below the counter.
abbrev pub Ids : ℕ → ℕ → List Claim → Type 0
Ids k top [] = k ≤ top
Ids k top (c ∷ cs) = (k ≤ c.id) × Ids (suc c.id) top cs

abbrev pub Distinct : List Claim → Type 0
Distinct [] = Unit
Distinct (c ∷ cs) =
    (c.active ≡ true → All (λ d. holds c.session_id c.path_glob d ≡ false) cs) × Distinct cs

pub record IsValid (db : Claims) : Type 0 where
  pub ids : Ids 0 db.next_id db.rows
  pub distinct : Distinct db.rows

-- A change of a row that keeps its identity and revives nothing.
pub record Shrinks (f : Claim → Claim) : Type 0 where
  pub same_id : (c : Claim) → (f c).id ≡ c.id
  pub same_session : (c : Claim) → (f c).session_id ≡ c.session_id
  pub same_glob : (c : Claim) → (f c).path_glob ≡ c.path_glob
  pub not_revived : (c : Claim) → (f c).active ≡ true → c.active ≡ true

deactivate-Shrinks : Shrinks deactivate
deactivate-Shrinks = record {
  same_id = λ c. refl;
  same_session = λ c. refl;
  same_glob = λ c. refl;
  not_revived = λ c h. cc;
}

reason-Shrinks : (reason : Text) → Shrinks (λ c. record c { reason = reason })
reason-Shrinks reason = record {
  same_id = λ c. refl;
  same_session = λ c. refl;
  same_glob = λ c. refl;
  not_revived = λ c h. h;
}

module _ (p : Claim → Bool) (f : Claim → Claim) (s : Shrinks f) where
  update_where-Ids : (k top : ℕ) (cs : List Claim) → Ids k top cs → Ids k top (update_where p f cs)
  update_where-Ids k top [] h = h
  update_where-Ids k top (c ∷ cs) h = elim (Bool-cases (p c)) [
    | inl hit ↦ rw (hit, s.same_id) (h.0, update_where-Ids (suc c.id) top cs h.1)
    | inr miss ↦ rw miss (h.0, update_where-Ids (suc c.id) top cs h.1)
  ]

  holds-shrunk :
      (sid glob : Text) (c : Claim) → holds sid glob c ≡ false → holds sid glob (f c) ≡ false
  holds-shrunk sid glob c h = ground (arith, s.same_session c, s.same_glob c, s.not_revived c)

  update_where-free :
      (sid glob : Text) (cs : List Claim)
      → All (λ d. holds sid glob d ≡ false) cs
      → All (λ d. holds sid glob d ≡ false) (update_where p f cs)
  update_where-free sid glob [] h = tt
  update_where-free sid glob (c ∷ cs) h = elim (Bool-cases (p c)) [
    | inl hit ↦ rw hit (holds-shrunk sid glob c h.0, update_where-free sid glob cs h.1)
    | inr miss ↦ rw miss (h.0, update_where-free sid glob cs h.1)
  ]

  update_where-Distinct : (cs : List Claim) → Distinct cs → Distinct (update_where p f cs)
  update_where-Distinct [] h = tt
  update_where-Distinct (c ∷ cs) h = elim (Bool-cases (p c)) [
    | inl hit ↦
        rw (hit, s.same_session, s.same_glob)
          (
            (λ a. update_where-free c.session_id c.path_glob cs (h.0 (s.not_revived c a))),
            update_where-Distinct cs h.1,
          )
    | inr miss ↦
        rw miss (
          (λ a. update_where-free c.session_id c.path_glob cs (h.0 a)),
          update_where-Distinct cs h.1,
        )
  ]

  update_where-IsValid :
      (db : Claims) → IsValid db → IsValid (record db { rows = update_where p f db.rows })
  update_where-IsValid db v = record {
    ids = update_where-Ids 0 db.next_id db.rows v.ids;
    distinct = update_where-Distinct db.rows v.distinct;
  }

-- The counter passes every id.
Ids-snoc :
    (k top : ℕ) (cs : List Claim) (c : Claim)
    → c.id ≡ top
    → Ids k top cs
    → Ids k (top + 1) (cs ++ c ∷ [])
Ids-snoc k top [] c e h = omega arith
Ids-snoc k top (d ∷ cs) c e h = (h.0, Ids-snoc (suc d.id) top cs c e h.1)

find_by-none {ℓ} :
    {A : Type ℓ} (p : A → Bool) (xs : List A) → find_by p xs ≡ none → All (λ x. p x ≡ false) xs
find_by-none p [] h = tt
find_by-none p (x ∷ xs) h = elim (Bool-cases (p x)) [
  | inl hit ↦ let k : some x ≡ none = rw hit at h in cc
  | inr miss ↦ (miss, find_by-none p xs (rw miss at h))
]

holds_sym :
    (c d : Claim)
    → holds c.session_id c.path_glob d ≡ false
    → d.active ≡ true
    → holds d.session_id d.path_glob c ≡ false
holds_sym c d h a = ground (
  arith,
  eq_iff c.session_id d.session_id,
  eq_iff d.session_id c.session_id,
  eq_iff c.path_glob d.path_glob,
  eq_iff d.path_glob c.path_glob,
)

Distinct-snoc :
    (cs : List Claim) (c : Claim)
    → All (λ d. holds c.session_id c.path_glob d ≡ false) cs
    → Distinct cs
    → Distinct (cs ++ c ∷ [])
Distinct-snoc [] c h k = ((λ a. tt), tt)
Distinct-snoc (d ∷ cs) c h k = (
  (λ a.
      All-append (λ e. holds d.session_id d.path_glob e ≡ false) cs (c ∷ []) (k.0 a)
        (holds_sym c d h.0 a, tt)),
  Distinct-snoc cs c h.1 k.1,
)

release_stale-IsValid :
    (sessions : List SessionContext) (db : Claims)
    → IsValid db
    → IsValid (release_stale_claims sessions db)
unfolding release_stale_claims
release_stale-IsValid sessions db v =
    update_where-IsValid (λ c. c.active && is_stale sessions c) deactivate deactivate-Shrinks db v

-- What an operation that succeeds leaves behind is valid.
abbrev Leaves {ℓ} : {A : Type ℓ} → Result (Claims × A) → Type 0
Leaves (ok (db, a)) = IsValid db
Leaves (err e) = Unit

settle-IsValid {ℓ} :
    {A : Type ℓ} (db : Claims) (r : Result (Claims × A))
    → IsValid db
    → Leaves r
    → IsValid (settle db r).1
settle-IsValid db (ok (db', a)) v l = l
settle-IsValid db (err e) v l = v

with_operation-IsValid {ℓ} :
    {A : Type ℓ} (sessions : List SessionContext) (operation : Claims → Result (Claims × A))
    (db : Claims)
    → ((db' : Claims) → IsValid db' → Leaves (operation db'))
    → IsValid db
    → IsValid (with_operation sessions operation db).1
unfolding with_operation
with_operation-IsValid sessions operation db keep v =
    settle-IsValid db (operation (release_stale_claims sessions db)) v
      (keep _ (release_stale-IsValid sessions db v))

read_back-Leaves : (db : Claims) (c : Option Claim) → IsValid db → Leaves (read_back db c)
unfolding read_back
read_back-Leaves db none v = tt
read_back-Leaves db (some c) v = v

add_row-Leaves :
    (sid glob reason : Text) (now : ℕ) (db : Claims)
    → IsValid db
    → Leaves (add_row sid glob reason now db (find_by (holds sid glob) db.rows))
add_row-Leaves sid glob reason now db v = elim (Option-cases (find_by (holds sid glob) db.rows)) [
  | inl free ↦ rw free (
      unfold add_row in
      read_back-Leaves _ _ (record {
        ids = Ids-snoc 0 db.next_id db.rows _ refl v.ids;
        distinct = Distinct-snoc db.rows _ (find_by-none (holds sid glob) db.rows free) v.distinct;
      }))
  | inr (c, taken) ↦ rw taken (
      unfold add_row in
      read_back-Leaves _ _
        (update_where-IsValid (λ d. eqb d.id c.id) _ (reason-Shrinks reason) db v))
]

module _ (here : List Text) (sessions : List SessionContext) where
  add_at-Leaves :
      (sid : Text) (glob : Option Text) (reason : Text) (now : ℕ) (db : Claims)
      → IsValid db
      → Leaves (add_at sid glob reason now db)
  unfolding add_at
  add_at-Leaves sid none reason now db v = tt
  add_at-Leaves sid (some glob) reason now db v = add_row-Leaves sid glob reason now db v

  add_for-Leaves :
      (s : Option SessionContext) (sid glob reason : Text) (now : ℕ) (db : Claims)
      → IsValid db
      → Leaves (add_for here sessions s sid glob reason now db)
  unfolding add_for
  add_for-Leaves none sid glob reason now db v = tt
  add_for-Leaves (some s) sid glob reason now db v = add_at-Leaves sid _ reason now db v

  add-IsValid :
      (sid glob reason : Text) (now : ℕ) (db : Claims)
      → IsValid db
      → IsValid (add here sessions sid glob reason now db).1
  unfolding add
  add-IsValid sid glob reason now db v =
      with_operation-IsValid sessions _ db
        (λ db' v'. add_for-Leaves (find_session sessions sid) sid glob reason now db' v') v

query_for-Leaves :
    (here : List Text) (sessions : List SessionContext) (globs : Globs) (s : Option SessionContext)
    (path : Option Text) (db : Claims)
    → IsValid db
    → Leaves (query_for here sessions globs s path db)
unfolding query_for
query_for-Leaves here sessions globs none path db v = tt
query_for-Leaves here sessions globs (some s) none db v = v
query_for-Leaves here sessions globs (some s) (some path) db v =
    elim (Option-cases (normalize_repo_path here path (session_root s))) [
      | inl outside ↦ rw outside tt
      | inr (p, inside) ↦ rw inside v
    ]

release_row-Leaves :
    (sid : Text) (claim_id : ℕ) (db : Claims) (c : Option Claim)
    → IsValid db
    → Leaves (release_row sid claim_id db c)
unfolding release_row
release_row-Leaves sid claim_id db none v = tt
release_row-Leaves sid claim_id db (some c) v =
    let v' =
      update_where-IsValid (λ d. eqb d.id claim_id && d.session_id == sid && d.active) deactivate
        deactivate-Shrinks db v in
    elim (Bool-cases c.active) [
      | inl live ↦ elim (Bool-cases (c.session_id == sid)) [
        | inl own ↦ rw (live, own) v'
        | inr other ↦ rw (live, other) tt
      ]
      | inr dead ↦ rw dead tt
    ]

-- A request to the claims board, with the sessions as they stand when it comes.
pub data Request : Type 0 where
  adding : List SessionContext → Text → Text → Text → ℕ → Request
  querying : List SessionContext → Globs → Text → Option Text → Request
  releasing : List SessionContext → Text → ℕ → Request

abbrev pub serve : List Text → Claims → Request → Claims
serve here db (adding sessions sid glob reason now) = (add here sessions sid glob reason now db).1
serve here db (querying sessions globs sid path) = (query here sessions globs sid path db).1
serve here db (releasing sessions sid claim_id) = (release sessions sid claim_id db).1

abbrev pub serve_all : List Text → Claims → List Request → Claims
serve_all here db [] = db
serve_all here db (r ∷ rs) = serve_all here (serve here db r) rs

serve-IsValid :
    (here : List Text) (db : Claims) (r : Request) → IsValid db → IsValid (serve here db r)
unfolding query release
serve-IsValid here db (adding sessions sid glob reason now) v =
    add-IsValid here sessions sid glob reason now db v
serve-IsValid here db (querying sessions globs sid path) v =
    with_operation-IsValid sessions _ db
      (λ db' v'. query_for-Leaves here sessions globs (find_session sessions sid) path db' v') v
serve-IsValid here db (releasing sessions sid claim_id) v =
    with_operation-IsValid sessions _ db
      (λ db' v'. release_row-Leaves sid claim_id db' (find_claim db'.rows claim_id) v') v

-- If the ids ascend below the counter and no session holds two active claims on one glob, this
-- still holds after any requests, whatever becomes of the sessions in between.
pub serve_all-IsValid :
    (here : List Text) (db : Claims) (rs : List Request)
    → IsValid db
    → IsValid (serve_all here db rs)
serve_all-IsValid here db [] v = v
serve_all-IsValid here db (r ∷ rs) v =
    serve_all-IsValid here (serve here db r) rs (serve-IsValid here db r v)
