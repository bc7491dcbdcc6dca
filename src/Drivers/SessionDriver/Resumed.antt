-- ===== src/Drivers/SessionDriver/Resumed.antt =====
-- `send` of src/drivers/session-driver.ts: a turn that resumes the harness's own session.
use codedeck.Common.{
  subst, Text, ◌≡◌, refl, ap, ◌∙◌, true, false, Option, none, some, [], ◌∷◌, ◌==◌, eq_iff, eq_refl,
  arith, Bool-cases, inl, inr, or_else, is_empty, if◌then◌else◌, Option-cases,
}
use mathlib.Core.Option.{some-injective}
use codedeck.Drivers.Runtime.{Runtime, wire}
use codedeck.Drivers.SessionDriver.{
  DriverSession, Spawned, Handles, get_handle, set_handle, start, send, resume_id, truthy,
  native_of, resumed,
}

apart : (a b c : Text) → (a == b) ≡ false → (a == c) ≡ true → (b == c) ≡ false
apart a b c miss here = ground (arith, eq_iff a b, eq_iff a c, eq_iff b c)

get_handle-set_handle :
    (handles : Handles) (id j : Text) (rt : Runtime)
    → get_handle (set_handle handles id rt) j ≡ (if id == j then some rt else get_handle handles j)
unfolding get_handle set_handle
get_handle-set_handle [] id j rt = refl
get_handle-set_handle (h ∷ hs) id j rt = elim (Bool-cases (h.0 == id)) [
  | inl e ↦ rw e (elim (Bool-cases (id == j)) [
    | inl here ↦ rw here refl
    | inr other ↦ rw (other, ap (λ x. x == j) ((eq_iff h.0 id).0 e) ∙ other) refl
  ])
  | inr e ↦ rw e (elim (Bool-cases (h.0 == j)) [
    | inl here ↦ rw here (rw (apart h.0 id j e here) refl)
    | inr other ↦ rw other (get_handle-set_handle hs id j rt)
  ])
]

truthy-full : (o : Option Text) (t : Text) → truthy o ≡ some t → truthy (some t) ≡ some t
truthy-full none t h = ground arith
truthy-full (some u) t h = elim (Bool-cases (is_empty u)) [
  | inl e ↦ ground (arith, rw e at h)
  | inr e ↦ subst (λ x. truthy (some x) ≡ some x) (some-injective _ _ (rw e at h)) (rw e refl)
]

-- What a resumed turn leaves: the session keeps the native id that it had, or that its runtime
-- had, the runtime of the session resumes just that id, and every other runtime stays.
pub record IsResumed (before after : Handles) (session session' : DriverSession) (native_id : Text)
    : Type 0 where
  pub same_id : session'.id ≡ session.id
  pub kept : session'.native_session_id ≡ some native_id
  pub resumes : native_of (get_handle after session.id) ≡ some native_id
  pub others : (j : Text) → (session.id == j) ≡ false → get_handle after j ≡ get_handle before j

send_to-IsResumed :
    (handles : Handles) (session : DriverSession) (spawned : Spawned) (native_id : Text)
    → truthy (some native_id) ≡ some native_id
    → let r =
        resumed session native_id (start handles session.id session.cwd (some native_id) spawned) in
      IsResumed handles r.0 session r.1 native_id
unfolding start wire
send_to-IsResumed handles session spawned native_id full =
    let rt = wire session.id (some native_id) spawned.stdout_offset spawned.stderr_offset in
    let own : get_handle (set_handle handles session.id rt) session.id ≡ some rt =
      get_handle-set_handle handles session.id session.id rt ∙ rw (eq_refl session.id) refl in
    record {
      same_id = refl;
      kept = ap some (ap (λ (o : Option Text). elim o [ none ↦ native_id | some n ↦ n ]) full);
      resumes = ap native_of own;
      others = λ j other. get_handle-set_handle handles session.id j rt ∙ rw other refl;
    }

-- `send` succeeds exactly with the native id of the session, or else of its runtime; the session
-- then keeps that id, its new runtime resumes it, and the runtimes of all other sessions stay.
pub send-IsResumed :
    (handles handles' : Handles) (session session' : DriverSession) (spawned : Spawned)
    → send handles session spawned ≡ some (handles', session')
    → (native_id : Text) × (resume_id handles session ≡ some native_id)
      × IsResumed handles handles' session session' native_id
unfolding send resume_id
send-IsResumed handles handles' session session' spawned e =
    elim (Option-cases (resume_id handles session)) [
      | inl none_known ↦ ground (arith, rw none_known at e)
      | inr known ↦
          let old =
            or_else (truthy session.native_session_id)
              (native_of (get_handle handles session.id)) in
          let same = some-injective _ _ (rw known.1 at e) in
          (
            known.0,
            known.1,
            subst (λ r. IsResumed handles r.0 session r.1 known.0) same
                (send_to-IsResumed handles session spawned known.0
                  (truthy-full old known.0 known.1)),
          )
    ]
