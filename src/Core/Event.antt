-- ===== src/Core/Event.antt =====
-- src/core/events.ts. `raw`, the harness's own frame, is carried along and never read, and is
-- left out; so are the inputs and outputs of tools.
use codedeck.Common.{ℕ, Text, Bool, true, false, Option}
use codedeck.Core.Failure.{FailureInfo}
use codedeck.Core.Session.{SessionUsage}

pub data Role : Type 0 where
  assistant user system : Role

pub data Change : Type 0 where
  created modified deleted renamed : Change

pub data Body : Type 0 where
  session_started : Option Text → Body  -- nativeSessionId
  turn_started : Option Text → Body  -- prompt
  text_delta : Text → Body
  message : Role → Text → Body
  message_queued : Text → ℕ → Body  -- prompt, pendingAt
  tool_started : Text → Body
  tool_completed : Text → Option Bool → Option ℕ → Body  -- success, durationMs
  file_changed : Text → Change → Option Text → Body
  permission_requested : Option Text → Option Text → Option Text → Body
  permission_resolved : Option Text → Bool → Body
  usage_updated : Bool → SessionUsage → Option Text → Body  -- incremental, usage, model
  turn_completed : Option Text → Body
  session_completed : Option Text → Option ℕ → Body  -- reason, exitCode
  session_failed : Text → Option FailureInfo → Option ℕ → Body
  error : Text → Body

pub record AgentEvent : Type 0 where
  pub session_id : Text
  pub timestamp : ℕ
  pub source_key : Option Text
  pub body : Body

abbrev pub is_terminal_body : Body → Bool
is_terminal_body (session_completed _ _) = true
is_terminal_body (session_failed _ _ _) = true
is_terminal_body _ = false

unfoldable pub is_terminal_event : AgentEvent → Bool
is_terminal_event event = is_terminal_body event.body
