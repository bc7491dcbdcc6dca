-- ===== src/Store/Sessions/Row.antt =====
-- A row of the table `sessions`, and the session that it is read as. A Boolean column holds 0, 1
-- or null, and the failure column JSON text, which may be corrupt.
use codedeck.Common.{get_or, ℕ, Text, Bool, false, Option, none, some, eqb, not, if◌then◌else◌}
use codedeck.Core.Failure.{FailureInfo}
use codedeck.Core.Session.{Session, SessionUsage, SessionStatus, AgentId}

pub data FailureColumn : Type 0 where
  json : FailureInfo → FailureColumn
  corrupt : FailureColumn

pub record SessionRow : Type 0 where
  pub id : Text
  pub run_id : Option Text
  pub name : Option Text
  pub agent : AgentId
  pub native_session_id : Option Text
  pub model : Option Text
  pub status : SessionStatus
  pub repository : Option Text
  pub cwd : Text
  pub worktree : Option Text
  pub branch : Option Text
  pub base_commit : Option Text
  pub pid : Option ℕ
  pub pid_start_time : Option Text
  pub created_at : ℕ
  pub updated_at : ℕ
  pub completed_at : Option ℕ
  pub usage_input_tokens : Option ℕ
  pub usage_output_tokens : Option ℕ
  pub usage_cached_tokens : Option ℕ
  pub usage_cost : Option ℕ
  pub last_event : Option Text
  pub effort : Option Text
  pub fast : Option ℕ
  pub sandbox : Option Text
  pub dangerously_bypass_approvals_and_sandbox : Option ℕ
  pub failure : Option FailureColumn
  pub log_offset : Option ℕ
  pub stderr_offset : Option ℕ
  pub origin : Option Text
  pub parent_id : Option Text
  pub role : Option Text
  pub pending_message : Option Text
  pub pending_at : Option ℕ

-- `!!column`
abbrev pub to_bool : Option ℕ → Bool
to_bool none = false
to_bool (some n) = not (eqb n 0)

-- `flag ? 1 : 0`: a flag that is not given is stored as 0.
abbrev pub of_bool : Bool → Option ℕ
of_bool b = some (if b then 1 else 0)

abbrev pub is_set : Option Bool → Bool
is_set flag = get_or flag false

abbrev pub read_failure : Option FailureColumn → Option FailureInfo
read_failure none = none
read_failure (some (json f)) = some f
read_failure (some corrupt) = none

abbrev pub write_failure : Option FailureInfo → Option FailureColumn
write_failure none = none
write_failure (some f) = some (json f)

abbrev pub usage_of : Option ℕ → Option ℕ → Option ℕ → Option ℕ → Option SessionUsage
usage_of none none none none = none
usage_of i o c k =
    some (record { input_tokens = i; output_tokens = o; cached_tokens = c; cost = k })

unfoldable pub row_to_session : SessionRow → Session
row_to_session row = record {
  id = row.id;
  run_id = row.run_id;
  origin = row.origin;
  parent_id = row.parent_id;
  role = row.role;
  name = row.name;
  agent = row.agent;
  native_session_id = row.native_session_id;
  model = row.model;
  effort = row.effort;
  fast = some (to_bool row.fast);
  sandbox = row.sandbox;
  dangerously_bypass_approvals_and_sandbox =
      some (to_bool row.dangerously_bypass_approvals_and_sandbox);
  status = row.status;
  repository = row.repository;
  cwd = row.cwd;
  worktree = row.worktree;
  branch = row.branch;
  base_commit = row.base_commit;
  pid = row.pid;
  pid_start_time = row.pid_start_time;
  created_at = row.created_at;
  updated_at = row.updated_at;
  completed_at = row.completed_at;
  usage =
      usage_of row.usage_input_tokens row.usage_output_tokens row.usage_cached_tokens
        row.usage_cost;
  last_event = row.last_event;
  failure = read_failure row.failure;
  pending_message = row.pending_message;
  pending_at = row.pending_at;
  log_offset = row.log_offset;
  stderr_offset = row.stderr_offset;
}

-- `session.usage?.field ?? null`
abbrev pub usage_field : (SessionUsage → Option ℕ) → Option SessionUsage → Option ℕ
usage_field f none = none
usage_field f (some u) = f u

-- The values that `create` binds.
unfoldable pub session_to_row : Session → SessionRow
session_to_row s = record {
  id = s.id;
  run_id = s.run_id;
  name = s.name;
  agent = s.agent;
  native_session_id = s.native_session_id;
  model = s.model;
  status = s.status;
  repository = s.repository;
  cwd = s.cwd;
  worktree = s.worktree;
  branch = s.branch;
  base_commit = s.base_commit;
  pid = s.pid;
  pid_start_time = s.pid_start_time;
  created_at = s.created_at;
  updated_at = s.updated_at;
  completed_at = s.completed_at;
  usage_input_tokens = usage_field (λ u. u.input_tokens) s.usage;
  usage_output_tokens = usage_field (λ u. u.output_tokens) s.usage;
  usage_cached_tokens = usage_field (λ u. u.cached_tokens) s.usage;
  usage_cost = usage_field (λ u. u.cost) s.usage;
  last_event = s.last_event;
  effort = s.effort;
  fast = of_bool (is_set s.fast);
  sandbox = s.sandbox;
  dangerously_bypass_approvals_and_sandbox =
      of_bool (is_set s.dangerously_bypass_approvals_and_sandbox);
  failure = write_failure s.failure;
  log_offset = s.log_offset;
  stderr_offset = s.stderr_offset;
  origin = s.origin;
  parent_id = s.parent_id;
  role = s.role;
  pending_message = s.pending_message;
  pending_at = s.pending_at;
}
