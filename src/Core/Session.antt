-- ===== src/Core/Session.antt =====
-- src/core/session.ts. A missing field and a null one are both `none`; a date is its number of
-- milliseconds; a cost counts a fixed small unit of money.
use codedeck.Common.{
  ℕ, Text, codes, Bool, true, false, Option, none, some, List, [], ◌∷◌, ◌++◌, ◌&&◌, ◌||◌, ◌==◌, leb,
  take, trim, to_lower, is_some, not, if◌then◌else◌,
}
use codedeck.Core.Failure.{FailureInfo}

pub data AgentId : Type 0 where
  claude codex opencode omp antigravity grok : AgentId

abbrev pub agent_name : AgentId → Text
agent_name claude = codes "claude"
agent_name codex = codes "codex"
agent_name opencode = codes "opencode"
agent_name omp = codes "omp"
agent_name antigravity = codes "antigravity"
agent_name grok = codes "grok"

abbrev pub agent_ids : List AgentId
agent_ids = claude ∷ codex ∷ opencode ∷ omp ∷ antigravity ∷ grok ∷ []

agent_among : List AgentId → Text → Option AgentId
agent_among [] value = none
agent_among (a ∷ ids) value = if value == agent_name a then some a else agent_among ids value

-- The narrowed value, or `none` where the test is false.
unfoldable pub is_agent_id : Text → Option AgentId
unfolding agent_among
is_agent_id value = agent_among agent_ids value

-- `none` stands for a value that is no string.
unfoldable pub normalize_agent_id : Option Text → Option AgentId
unfolding is_agent_id
normalize_agent_id none = none
normalize_agent_id (some value) =
    let normalized = to_lower (trim value) in
    if normalized == codes "agy" then some antigravity else is_agent_id normalized

abbrev pub session_id_display_length : ℕ
session_id_display_length = 8

unfoldable pub short_session_id : Text → Text
short_session_id id = take session_id_display_length id

pub data SessionStatus : Type 0 where
  starting working needs_input idle completed failed stopped orphaned interrupted : SessionStatus

pub record SessionUsage : Type 0 where
  pub input_tokens : Option ℕ
  pub output_tokens : Option ℕ
  pub cached_tokens : Option ℕ
  pub cost : Option ℕ

pub record Session : Type 0 where
  pub id : Text
  pub run_id : Option Text
  pub origin : Option Text
  pub parent_id : Option Text
  pub role : Option Text
  pub name : Option Text
  pub agent : AgentId
  pub native_session_id : Option Text
  pub model : Option Text
  pub effort : Option Text
  pub fast : Option Bool
  pub sandbox : Option Text
  pub dangerously_bypass_approvals_and_sandbox : Option Bool
  pub status : SessionStatus
  pub repository : Option Text
  pub cwd : Text
  pub worktree : Option Text
  pub branch : Option Text
  pub base_commit : Option Text
  pub pid : Option ℕ
  pub pid_start_time : Option Text
  pub created_at : ℕ
  pub updated_at : ℕ
  pub completed_at : Option ℕ
  pub usage : Option SessionUsage
  pub last_event : Option Text
  pub failure : Option FailureInfo
  pub pending_message : Option Text
  pub pending_at : Option ℕ
  pub log_offset : Option ℕ
  pub stderr_offset : Option ℕ

abbrev pub is_terminal_status : SessionStatus → Bool
is_terminal_status completed = true
is_terminal_status failed = true
is_terminal_status stopped = true
is_terminal_status orphaned = true
is_terminal_status interrupted = true
is_terminal_status _ = false

abbrev pub is_active_status : SessionStatus → Bool
is_active_status starting = true
is_active_status working = true
is_active_status needs_input = true
is_active_status idle = true
is_active_status _ = false

pub data LiveSessionStatus : Type 0 where
  stored : SessionStatus → LiveSessionStatus
  dead : LiveSessionStatus

unfoldable pub live_status : SessionStatus → Option ℕ → Bool → LiveSessionStatus
live_status status pid alive =
    if is_active_status status && is_some pid && not alive then dead else stored status

-- `replace(/[^a-z0-9]+/g, "-")`; the flag says that the run before is replaced already.
is_slug_code : ℕ → Bool
is_slug_code c = (leb b'a' c && leb c b'z') || (leb b'0' c && leb c b'9')

dash_runs : Bool → Text → Text
unfolding is_slug_code
dash_runs inside [] = []
dash_runs inside (c ∷ s) =
    let kept = c ∷ dash_runs false s in
    let dashed = b'-' ∷ dash_runs true s in
    let skipped = dash_runs true s in
    if is_slug_code c then kept else if inside then skipped else dashed

-- `replace(/^-|-$/g, "")`: one dash at each end. A text that is one dash becomes empty.
drop_first_dash : Text → Text
drop_first_dash [] = []
drop_first_dash (c ∷ s) = if (c ∷ []) == codes "-" then s else c ∷ s

drop_last_dash : Text → Text
drop_last_dash [] = []
drop_last_dash (c ∷ s) =
    let rest = drop_last_dash s in if (c ∷ s) == codes "-" then [] else c ∷ rest

abbrev or_task : Text → Text
or_task [] = codes "task"
or_task (c ∷ s) = c ∷ s

clean_slug : Text → Text
unfolding dash_runs drop_first_dash drop_last_dash
clean_slug slug =
    or_task (take 30 (drop_last_dash (drop_first_dash (dash_runs false (to_lower slug)))))

unfoldable pub generate_branch_name : Text → Text → Text
unfolding clean_slug
generate_branch_name slug session_id = codes "ra/" ++ (clean_slug slug ++ (codes "-" ++ session_id))
