-- ===== src/Drivers/Terminal/Laws.antt =====
-- The completions and failures of `synthesizeTerminalEvent`.
use codedeck.Common.{
  ℕ, ◌≡◌, ◌≢◌, ◌↔◌, ◌⊎◌, inl, inr, Bool, true, false, Option, none, some, arith, trim, is_empty,
  Bool-cases,
}
use codedeck.Core.Failure.{harness_crash, classify_failure}
use codedeck.Core.Event.{AgentEvent, session_completed, session_failed}
use codedeck.Drivers.Terminal.{
  Exit, no_signal, finished_unseen, failed_body, exited_body, synthesize_terminal_event,
}

abbrev pub is_completion : Option AgentEvent → Bool
is_completion none = false
is_completion (some ev) = elim ev.body [ session_completed _ _ ↦ true | _ ↦ false ]

abbrev pub is_failure : Option AgentEvent → Bool
is_failure none = false
is_failure (some ev) = elim ev.body [ session_failed _ _ _ ↦ true | _ ↦ false ]

-- Nobody saw the process exit, and its own last frame ended the turn with no sign of a crash.
pub record EndedUnseen (input : Exit) : Type 0 where
  pub unseen : input.exit_code ≡ none
  pub unsignalled : no_signal input.signal ≡ true
  pub turn_over : input.ended_on_turn_completed ≡ true
  pub no_crash : (classify_failure input.stderr none none).code ≢ harness_crash

-- The process exited with 0, and had output or said nothing on stderr.
pub record ExitedClean (input : Exit) : Type 0 where
  pub zero_exit : input.exit_code ≡ some 0
  pub sound : (input.has_message ≡ true) ⊎ (is_empty (trim input.stderr) ≡ true)

finished_unseen-EndedUnseen : (input : Exit) → finished_unseen input ≡ true → EndedUnseen input
unfolding finished_unseen
finished_unseen-EndedUnseen input h = ground arith

EndedUnseen-finished_unseen : (input : Exit) → EndedUnseen input → finished_unseen input ≡ true
unfolding finished_unseen
EndedUnseen-finished_unseen input h = ground arith

exited-ExitedClean :
    (input : Exit) (now : ℕ)
    → input.has_terminal ≡ false
    → finished_unseen input ≡ false
    → is_completion (synthesize_terminal_event input now) ≡ true
    → ExitedClean input
unfolding synthesize_terminal_event exited_body failed_body
exited-ExitedClean input now h u c = ground arith

no-terminal :
    (input : Exit) (now : ℕ)
    → is_completion (synthesize_terminal_event input now) ≡ true
    → input.has_terminal ≡ false
unfolding synthesize_terminal_event
no-terminal input now c = ground arith

completion-to :
    (input : Exit) (now : ℕ)
    → is_completion (synthesize_terminal_event input now) ≡ true
    → (input.has_terminal ≡ false) × (EndedUnseen input ⊎ ExitedClean input)
completion-to input now c =
    let open_stream = no-terminal input now c in
    elim (Bool-cases (finished_unseen input)) [
      | inl u ↦ (open_stream, inl (finished_unseen-EndedUnseen input u))
      | inr u ↦ (open_stream, inr (exited-ExitedClean input now open_stream u c))
    ]

completion-of :
    (input : Exit) (now : ℕ)
    → (input.has_terminal ≡ false) × (EndedUnseen input ⊎ ExitedClean input)
    → is_completion (synthesize_terminal_event input now) ≡ true
unfolding synthesize_terminal_event exited_body
completion-of input now (h, inl u) = ground (arith, EndedUnseen-finished_unseen input u)
completion-of input now (h, inr e) = ground arith

-- A completion is reported exactly when no terminal frame was seen and either nobody saw the exit
-- but the harness ended its turn without a sign of a crash, or the exit code was 0 and there was
-- output or a blank stderr.
pub synthesize-completion_iff :
    (input : Exit) (now : ℕ)
    → (is_completion (synthesize_terminal_event input now) ≡ true)
      ↔ ((input.has_terminal ≡ false) × (EndedUnseen input ⊎ ExitedClean input))
synthesize-completion_iff input now = (completion-to input now, completion-of input now)

-- A harness that sent no terminal frame gets a terminal event: where it is no completion, it is
-- a failure.
pub synthesize_one :
    (input : Exit) (now : ℕ)
    → input.has_terminal ≡ false
    → is_completion (synthesize_terminal_event input now) ≡ false
    → is_failure (synthesize_terminal_event input now) ≡ true
unfolding synthesize_terminal_event exited_body failed_body
synthesize_one input now h c = ground arith
