-- ===== src/Store/Sessions/Laws.antt =====
-- `rowToSession`, `create` and `update` of src/store/sessions.ts: reading what was written.
use codedeck.Common.{
  or_else, is_some, ◌||◌, ◌∙◌, sym, ap, ℕ, Text, ◌≡◌, refl, Bool, true, false, Option, none, some,
  [], ◌∷◌, ◌==◌, eq_iff, get_or, arith, Bool-cases, inl, inr, if◌then◌else◌,
}
use codedeck.Core.Session.{Session, SessionUsage}
use codedeck.Store.Sessions.Row.{
  SessionRow, row_to_session, session_to_row, usage_of, usage_field, to_bool, of_bool, is_set,
  read_failure, write_failure, FailureColumn,
}
use codedeck.Store.Sessions.Update.{
  Patch, keep, put, put, Patch, SessionUpdate, apply_update, update_rows, patched, patched_usage,
  patched_flag, patched_failure,
}
use codedeck.Store.Sessions.{Sessions, get_exact}

to_bool-of_bool : (b : Bool) → to_bool (of_bool b) ≡ b
to_bool-of_bool true = refl
to_bool-of_bool false = refl

read-write_failure : (f : Option _) → read_failure (write_failure f) ≡ f
read-write_failure none = refl
read-write_failure (some f) = refl

-- What the table keeps of a flag and of a usage: a flag that is not given is a false one, and a
-- usage in which nothing is known is none.
abbrev pub kept_flag : Option Bool → Option Bool
kept_flag none = some false
kept_flag (some b) = some b

abbrev pub kept_usage : Option SessionUsage → Option SessionUsage
kept_usage none = none
kept_usage (some u) =
    if is_some u.input_tokens
      || is_some u.output_tokens
      || is_some u.cached_tokens
      || is_some u.cost
    then some u
    else none

usage_round :
    (u : Option SessionUsage)
    → usage_of
        (usage_field (λ x. x.input_tokens) u)
        (usage_field (λ x. x.output_tokens) u)
        (usage_field (λ x. x.cached_tokens) u)
        (usage_field (λ x. x.cost) u)
      ≡ kept_usage u
usage_round none = refl
usage_round (some u) = ground arith

flag_round : (flag : Option Bool) → some (to_bool (of_bool (is_set flag))) ≡ kept_flag flag
flag_round none = refl
flag_round (some b) = ap some (to_bool-of_bool b)

-- A session that is stored is read back as it was, every field of it, but that a flag of the
-- launch (`fast`, and the bypass of approvals and sandbox) that was not given is read back as
-- false, and that a usage in which nothing is known is read back as no usage.
pub row_to_session-session_to_row :
    (s : Session)
    → row_to_session (session_to_row s) ≡ record s {
      fast = kept_flag s.fast;
      dangerously_bypass_approvals_and_sandbox =
          kept_flag s.dangerously_bypass_approvals_and_sandbox;
      usage = kept_usage s.usage;
    }
unfolding row_to_session session_to_row
row_to_session-session_to_row s = λ i. record s {
  fast = flag_round s.fast i;
  dangerously_bypass_approvals_and_sandbox =
      flag_round s.dangerously_bypass_approvals_and_sandbox i;
  usage = usage_round s.usage i;
  failure = read-write_failure s.failure i;
}

usage_patched : (p u : Option SessionUsage) → Option SessionUsage
usage_patched p u =
    usage_of (patched_usage (λ x. x.input_tokens) p (usage_field (λ x. x.input_tokens) u))
      (patched_usage (λ x. x.output_tokens) p (usage_field (λ x. x.output_tokens) u))
      (patched_usage (λ x. x.cached_tokens) p (usage_field (λ x. x.cached_tokens) u))
      (patched_usage (λ x. x.cost) p (usage_field (λ x. x.cost) u))

-- The patch, read as a change of the session.
unfoldable pub apply_session : SessionUpdate → ℕ → Session → Session
unfolding usage_patched
apply_session p now s = record s {
  name = patched p.name s.name;
  agent = get_or p.agent s.agent;
  native_session_id = patched p.native_session_id s.native_session_id;
  model = patched p.model s.model;
  status = get_or p.status s.status;
  repository = patched p.repository s.repository;
  cwd = get_or p.cwd s.cwd;
  worktree = patched p.worktree s.worktree;
  branch = patched p.branch s.branch;
  base_commit = patched p.base_commit s.base_commit;
  pid = patched p.pid s.pid;
  pid_start_time = patched p.pid_start_time s.pid_start_time;
  updated_at = get_or p.updated_at now;
  completed_at = patched p.completed_at s.completed_at;
  usage = usage_patched p.usage s.usage;
  last_event = patched p.last_event s.last_event;
  effort = patched p.effort s.effort;
  fast = or_else p.fast s.fast;
  sandbox = patched p.sandbox s.sandbox;
  dangerously_bypass_approvals_and_sandbox =
      or_else p.dangerously_bypass_approvals_and_sandbox s.dangerously_bypass_approvals_and_sandbox;
  log_offset = patched p.log_offset s.log_offset;
  stderr_offset = patched p.stderr_offset s.stderr_offset;
  failure = patched p.failure s.failure;
  origin = patched p.origin s.origin;
  pending_message = patched p.pending_message s.pending_message;
  pending_at = patched p.pending_at s.pending_at;
}

flag_read :
    (p : Option Bool) (c : Option ℕ)
    → some (to_bool (patched_flag p c)) ≡ or_else p (some (to_bool c))
flag_read none c = refl
flag_read (some b) c = ap some (to_bool-of_bool b)

failure_read :
    (p : Patch _) (c : Option FailureColumn)
    → read_failure (patched_failure p c) ≡ patched p (read_failure c)
failure_read keep c = refl
failure_read (put f) c = read-write_failure f

usage_read :
    (p : Option SessionUsage) (i o c k : Option ℕ)
    → usage_of
        (patched_usage (λ x. x.input_tokens) p i)
        (patched_usage (λ x. x.output_tokens) p o)
        (patched_usage (λ x. x.cached_tokens) p c)
        (patched_usage (λ x. x.cost) p k)
      ≡ usage_patched p (usage_of i o c k)
unfolding usage_patched
usage_read p i o c k = ground arith

-- Reading a changed row is changing the session that is read.
read-apply_update :
    (p : SessionUpdate) (now : ℕ) (r : SessionRow)
    → row_to_session (apply_update p now r) ≡ apply_session p now (row_to_session r)
unfolding row_to_session apply_update apply_session
read-apply_update p now r = λ i. record (row_to_session (apply_update p now r)) {
  fast = flag_read p.fast r.fast i;
  dangerously_bypass_approvals_and_sandbox =
      flag_read p.dangerously_bypass_approvals_and_sandbox
        r.dangerously_bypass_approvals_and_sandbox i;
  usage =
      usage_read p.usage r.usage_input_tokens r.usage_output_tokens r.usage_cached_tokens
        r.usage_cost i;
  failure = failure_read p.failure r.failure i;
}

abbrev pub map_session : (Session → Session) → Option Session → Option Session
map_session f none = none
map_session f (some s) = some (f s)

apply_update-id : (p : SessionUpdate) (now : ℕ) (r : SessionRow) → (apply_update p now r).id ≡ r.id
unfolding apply_update
apply_update-id p now r = refl

module _ (r : SessionRow) (rows : Sessions) (id j : Text) (p : SessionUpdate) (now : ℕ) where
  abbrev after_update : Sessions → Option Session
  after_update table =
      if id == j then map_session (apply_session p now) (get_exact table j) else get_exact table j

  changed_row :
      (r.id == id) ≡ true
      → get_exact (update_rows id p now rows) j ≡ after_update rows
      → get_exact (apply_update p now r ∷ update_rows id p now rows) j ≡ after_update (r ∷ rows)
  unfolding get_exact
  changed_row hit ih =
      let same : (id == j) ≡ (r.id == j) = ap (λ x. x == j) (sym ((eq_iff r.id id).0 hit)) in
      let at_j : ((apply_update p now r).id == j) ≡ (r.id == j) =
        ap (λ x. x == j) (apply_update-id p now r) in
      elim (Bool-cases (r.id == j)) [
        | inl here ↦
            rw (at_j ∙ here) (rw here (rw (same ∙ here) (ap some (read-apply_update p now r))))
        | inr other ↦ rw (at_j ∙ other) (rw other (rw (same ∙ other) (rw (same ∙ other) at ih)))
      ]

  kept_row :
      (r.id == id) ≡ false
      → get_exact (update_rows id p now rows) j ≡ after_update rows
      → get_exact (r ∷ update_rows id p now rows) j ≡ after_update (r ∷ rows)
  unfolding get_exact
  kept_row miss ih = elim (Bool-cases (r.id == j)) [
    | inl here ↦
        let idj : (id == j) ≡ false = ground (arith, eq_iff r.id id, eq_iff id j, eq_iff r.id j) in
        rw here (rw idj)
    | inr other ↦ rw other ih
  ]

-- After an update of one id, that session reads as changed by exactly the fields of the patch and
-- the time of the update, and every other session reads as before.
pub get_exact-update_rows :
    (table : Sessions) (id j : Text) (p : SessionUpdate) (now : ℕ)
    → get_exact (update_rows id p now table) j ≡ (
        if id == j
        then map_session (apply_session p now) (get_exact table j)
        else get_exact table j)
unfolding get_exact update_rows
get_exact-update_rows [] id j p now = ground arith
get_exact-update_rows (r ∷ rows) id j p now = elim (Bool-cases (r.id == id)) [
  | inl hit ↦ rw hit (changed_row r rows id j p now hit (get_exact-update_rows rows id j p now))
  | inr miss ↦ rw miss (kept_row r rows id j p now miss (get_exact-update_rows rows id j p now))
]
