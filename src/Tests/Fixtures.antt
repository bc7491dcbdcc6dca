-- ===== src/Tests/Fixtures.antt =====
-- The data that the tests share.
use codedeck.Common.{
  Floats, ℕ, ◌+◌, ◌-◌, ◌%◌, ◌≡◌, eqb, leb, true, List, [], ◌∷◌, arith, Text, codes, true, false,
  Option, none, some, [], ◌∷◌,
}
use codedeck.Core.Session.{Session, SessionStatus, claude, starting, completed}
use codedeck.Core.Event.{AgentEvent, Body}
use codedeck.Store.Sessions.{Sessions}
use codedeck.Store.Sessions.Row.{session_to_row}

abbrev pub sid : Text
sid = codes "a1b2"

abbrev pub session_with : SessionStatus → Option Text → Session
session_with status pending = record {
  id = sid;
  run_id = none;
  origin = none;
  parent_id = none;
  role = none;
  name = some (codes "fix");
  agent = claude;
  native_session_id = some (codes "n1");
  model = none;
  effort = none;
  fast = some true;
  sandbox = none;
  dangerously_bypass_approvals_and_sandbox = some false;
  status = status;
  repository = none;
  cwd = codes "/repo";
  worktree = none;
  branch = none;
  base_commit = none;
  pid = none;
  pid_start_time = none;
  created_at = 1;
  updated_at = 2;
  completed_at = none;
  usage = none;
  last_event = none;
  failure = none;
  pending_message = pending;
  pending_at = none;
  log_offset = some 10;
  stderr_offset = none;
}

abbrev pub idle_session : Session
idle_session = session_with completed none

abbrev pub waiting_session : Session
waiting_session = session_with completed (some (codes "go on"))

abbrev pub busy_session : Session
busy_session = session_with starting none

abbrev pub table_of : Session → Sessions
table_of s = session_to_row s ∷ []

abbrev pub event_with : Option Text → Body → AgentEvent
event_with key body = record { session_id = sid; timestamp = 5; source_key = key; body = body }

-- Numbers below 1000, and those between 500 and 1000 as negative ones.
pub test_zero : (n : ℕ) → eqb ((n + 1000 - n) % 1000) 0 ≡ true
test_zero n = ground arith

abbrev test_sum : List ℕ → ℕ
test_sum [] = 0
test_sum (n ∷ ns) = (n + test_sum ns) % 1000

instance abbrev pub test_floats : Floats
test_floats = record {
  zero_cost = 0;
  add = λ m n. (m + n) % 1000;
  sub = λ m n. (m + 1000 - n) % 1000;
  is_negative = λ n. leb 500 n;
  is_zero = λ n. eqb n 0;
  sum = test_sum;
  sub_self = test_zero;
}
