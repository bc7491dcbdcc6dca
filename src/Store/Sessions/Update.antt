-- ===== src/Store/Sessions/Update.antt =====
-- `update` and `setStatus`: a patch names the columns that it changes.
use codedeck.Common.{ℕ, Text, Bool, Option, none, some, List, [], ◌∷◌, ◌==◌, get_or, if◌then◌else◌}
use codedeck.Core.Failure.{FailureInfo}
use codedeck.Core.Session.{SessionUsage, SessionStatus, AgentId, is_terminal_status}
use codedeck.Store.Sessions.Row.{SessionRow, FailureColumn, of_bool, write_failure}

-- A field of a patch: `undefined`, or the new value of the column, which may be null.
pub data Patch {ℓ} (A : Type ℓ) : Type ℓ where
  keep : Patch A
  put : Option A → Patch A

pub record SessionUpdate : Type 0 where
  pub name : Patch Text
  pub agent : Option AgentId
  pub native_session_id : Patch Text
  pub model : Patch Text
  pub status : Option SessionStatus
  pub repository : Patch Text
  pub cwd : Option Text
  pub worktree : Patch Text
  pub branch : Patch Text
  pub base_commit : Patch Text
  pub pid : Patch ℕ
  pub pid_start_time : Patch Text
  pub completed_at : Patch ℕ
  pub usage : Option SessionUsage
  pub last_event : Patch Text
  pub effort : Patch Text
  pub fast : Option Bool
  pub sandbox : Patch Text
  pub dangerously_bypass_approvals_and_sandbox : Option Bool
  pub log_offset : Patch ℕ
  pub stderr_offset : Patch ℕ
  pub failure : Patch FailureInfo
  pub origin : Patch Text
  pub pending_message : Patch Text
  pub pending_at : Patch ℕ
  pub updated_at : Option ℕ

abbrev pub no_update : SessionUpdate
no_update = record {
  name = keep;
  agent = none;
  native_session_id = keep;
  model = keep;
  status = none;
  repository = keep;
  cwd = none;
  worktree = keep;
  branch = keep;
  base_commit = keep;
  pid = keep;
  pid_start_time = keep;
  completed_at = keep;
  usage = none;
  last_event = keep;
  effort = keep;
  fast = none;
  sandbox = keep;
  dangerously_bypass_approvals_and_sandbox = none;
  log_offset = keep;
  stderr_offset = keep;
  failure = keep;
  origin = keep;
  pending_message = keep;
  pending_at = keep;
  updated_at = none;
}

abbrev pub patched {ℓ} : {A : Type ℓ} → Patch A → Option A → Option A
patched keep old = old
patched (put new) old = new

-- A usage field that is missing in the patch stays.
abbrev pub patched_usage : (SessionUsage → Option ℕ) → Option SessionUsage → Option ℕ → Option ℕ
patched_usage f none old = old
patched_usage f (some u) old = elim (f u) [ none ↦ old | some n ↦ some n ]

abbrev pub patched_flag : Option Bool → Option ℕ → Option ℕ
patched_flag none old = old
patched_flag (some b) old = of_bool b

abbrev pub patched_failure : Patch FailureInfo → Option FailureColumn → Option FailureColumn
patched_failure keep old = old
patched_failure (put f) old = write_failure f

-- The SET clause; `updated_at` is always set.
unfoldable pub apply_update : SessionUpdate → ℕ → SessionRow → SessionRow
apply_update p now row = record row {
  name = patched p.name row.name;
  agent = get_or p.agent row.agent;
  native_session_id = patched p.native_session_id row.native_session_id;
  model = patched p.model row.model;
  status = get_or p.status row.status;
  repository = patched p.repository row.repository;
  cwd = get_or p.cwd row.cwd;
  worktree = patched p.worktree row.worktree;
  branch = patched p.branch row.branch;
  base_commit = patched p.base_commit row.base_commit;
  pid = patched p.pid row.pid;
  pid_start_time = patched p.pid_start_time row.pid_start_time;
  updated_at = get_or p.updated_at now;
  completed_at = patched p.completed_at row.completed_at;
  usage_input_tokens = patched_usage (λ u. u.input_tokens) p.usage row.usage_input_tokens;
  usage_output_tokens = patched_usage (λ u. u.output_tokens) p.usage row.usage_output_tokens;
  usage_cached_tokens = patched_usage (λ u. u.cached_tokens) p.usage row.usage_cached_tokens;
  usage_cost = patched_usage (λ u. u.cost) p.usage row.usage_cost;
  last_event = patched p.last_event row.last_event;
  effort = patched p.effort row.effort;
  fast = patched_flag p.fast row.fast;
  sandbox = patched p.sandbox row.sandbox;
  dangerously_bypass_approvals_and_sandbox =
      patched_flag p.dangerously_bypass_approvals_and_sandbox
        row.dangerously_bypass_approvals_and_sandbox;
  failure = patched_failure p.failure row.failure;
  log_offset = patched p.log_offset row.log_offset;
  stderr_offset = patched p.stderr_offset row.stderr_offset;
  origin = patched p.origin row.origin;
  pending_message = patched p.pending_message row.pending_message;
  pending_at = patched p.pending_at row.pending_at;
}

-- `UPDATE sessions SET … WHERE id = ?`
unfoldable pub update_rows : Text → SessionUpdate → ℕ → List SessionRow → List SessionRow
update_rows id p now [] = []
update_rows id p now (r ∷ rows) =
    (if r.id == id then apply_update p now r else r) ∷ update_rows id p now rows

-- The patch of `setStatus`: a terminal status stamps the completion.
unfoldable pub status_patch : SessionStatus → ℕ → SessionUpdate → SessionUpdate
status_patch status now extra = record extra {
  status = some (get_or extra.status status);
  updated_at = some (get_or extra.updated_at now);
  completed_at = if is_terminal_status status then put (some now) else extra.completed_at;
}
