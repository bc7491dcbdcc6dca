-- ===== src/Drivers/Terminal.antt =====
-- src/drivers/terminal.ts: what a driver reports of a harness that died without a terminal frame.
pub mod Laws
use codedeck.Common.{
  ℕ, Text, codes, ◌++◌, ◌≡◌, ◌↔◌, ◌⊎◌, inl, inr, refl, Bool, true, false, ◌&&◌, not, Option, none,
  some, arith, take, trim, is_empty, is_some, eqb, get_or, if◌then◌else◌,
}
use codedeck.Core.Failure.{FailureCode, harness_crash, classify_failure, decimal}
use codedeck.Core.Event.{AgentEvent, Body, session_completed, session_failed}

pub record Exit : Type 0 where
  pub session_id : Text
  pub harness : Text
  pub exit_code : Option ℕ
  pub signal : Option Text
  pub has_terminal : Bool
  pub has_message : Bool
  pub stderr : Text
  pub ended_on_turn_completed : Bool

abbrev is_harness_crash : FailureCode → Bool
is_harness_crash harness_crash = true
is_harness_crash _ = false

-- `!input.signal`
abbrev no_signal : Option Text → Bool
no_signal none = true
no_signal (some s) = is_empty s

-- The death was learned by polling, and the last frame said that the turn was over.
unfoldable pub finished_unseen : Exit → Bool
finished_unseen input =
    not (is_some input.exit_code)
    && no_signal input.signal
    && input.ended_on_turn_completed
    && not (is_harness_crash (classify_failure input.stderr none none).code)

abbrev pub at_exit : Exit → ℕ → Body → AgentEvent
at_exit input now body = record {
  session_id = input.session_id;
  timestamp = now;
  source_key = none;
  body = body;
}

-- What is said of a non-zero or missing exit code when stderr is blank.
exit_text : Text → Option ℕ → Text
exit_text harness (some n) = harness ++ (codes " exited with code " ++ decimal n)
exit_text harness none = harness ++ codes " exited without reporting a terminal event"

unfoldable pub failed_body : Exit → Body
unfolding exit_text
failed_body input =
    let error_text =
      if is_empty (trim input.stderr)
      then exit_text input.harness input.exit_code
      else take 2000 input.stderr in
    session_failed error_text (some (classify_failure input.stderr input.exit_code input.signal))
      (some (get_or input.exit_code 1))

unfoldable pub exited_body : Exit → Option ℕ → Body
exited_body input none = failed_body input
exited_body input (some n) =
    if eqb n 0
    then if not input.has_message && not (is_empty (trim input.stderr))
      then session_failed (take 2000 input.stderr)
          (some (classify_failure input.stderr (some 0) input.signal)) (some 0)
      else session_completed (some (codes "exit 0")) (some 0)
    else failed_body input

unfoldable pub synthesize_terminal_event : Exit → ℕ → Option AgentEvent
synthesize_terminal_event input now =
    if input.has_terminal
    then none
    else some (
        at_exit input now (
          if finished_unseen input
          then session_completed (some (codes "turn completed; exit not observed")) none
          else exited_body input input.exit_code))
